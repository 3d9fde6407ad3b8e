-- ===== src/Timer.antt =====
-- The periodic inform of tr069_sample/libtr069/tr069/tr069_timer.c: when the first one is due, and
-- the timer that tr069_start_heartbeat and tr069_heartbeat set. The clock, the configuration and
-- f_timer_add are not part of the repository: their answers are arguments, the call is recorded.
pub mod Due
use native.Mathlib.Nat.{mod-lt, div-add-mod'}
use tr.Base.{
  ℕ, zero, suc, ◌+◌, ◌-◌, ◌*◌, ◌/◌, ◌%◌, ◌<◌, ◌≤◌, ◌≡◌, refl, ap, ◌⊎◌, inl, inr, Bool, true, false,
  Option, none, some, arith, ltb, leb, if◌then◌else◌, ℤ, pos, negsuc, minus_one, Bool-cases,
}

-- `now_time - ref_time` in time_t; the clock is not before 1970, `mktime` may return -1.
unfoldable pub seconds_since : ℕ → ℤ → ℤ
seconds_since now (pos r) = if leb r now then pos (now - r) else negsuc (r - now - 1)
seconds_since now (negsuc r) = pos (now + r + 1)

-- The two cases of get_1st_heartbeat_time before its last test.
unfoldable pub seconds_left : ℕ → ℤ → ℕ
seconds_left interval (pos zero) = 0 % interval
seconds_left interval (pos (suc n)) = interval - suc n % interval
seconds_left interval (negsuc n) = suc n % interval

-- get_1st_heartbeat_time
unfoldable pub get_1st_heartbeat_time : ℕ → ℕ → ℤ → ℕ
get_1st_heartbeat_time now interval ref =
    let left = seconds_left interval (seconds_since now ref) in if ltb left 1 then 1 else left

-- A call of f_timer_add, with its milliseconds (an `int`) and the flag that tr069_heartbeat gets.
pub record Armed : Type 0 where
  pub milliseconds : ℕ
  pub is_first : Bool

-- `inform_interlval_i`: what the configuration has (`none` where it cannot be read), from `limit` on.
unfoldable pub interval_of : ℕ → Option ℤ → ℕ
interval_of limit none = limit
interval_of limit (some (negsuc n)) = limit
interval_of limit (some (pos n)) = if ltb n limit then limit else n

-- An `int` that does not fit is undefined: `none`.
unfoldable pub seconds_timer : ℕ → Bool → Option Armed
seconds_timer seconds is_first =
    if ltb (seconds * 1000) 2147483648
    then some (record { milliseconds = seconds * 1000; is_first = is_first })
    else none

-- `inform_time_t`, where tr069_unformat_time gave `some`.
abbrev pub ref_time : Option ℤ → ℤ
ref_time none = pos 0
ref_time (some t) = t

-- tr069_start_heartbeat: the return code, and the timer that is set then, if any.
unfoldable pub start_heartbeat :
    (limit now : ℕ) (enabled : Bool) (interval : Option ℤ) (ref : Option ℤ)
    → Option (ℤ × Option Armed)
start_heartbeat limit now false interval ref = some (minus_one, none)
start_heartbeat limit now true interval ref =
    elim (seconds_timer (get_1st_heartbeat_time now (interval_of limit interval) (ref_time ref))
      true) [ none ↦ none | some a ↦ some (pos 0, some a) ]

-- tr069_heartbeat but for its report: the return code, and the timer that is set then, if any. It
-- stops where informs are no longer enabled, and a first call replaces its timer by the periodic one.
unfoldable pub next_heartbeat :
    (limit : ℕ) (enabled is_first : Bool) → Option ℤ → Option (ℤ × Option Armed)
next_heartbeat limit false is_first interval = some (minus_one, none)
next_heartbeat limit true false interval = some (pos 0, none)
next_heartbeat limit true true interval = elim (seconds_timer (interval_of limit interval) false) [
  | none ↦ none
  | some a ↦ some (minus_one, some a)
]
