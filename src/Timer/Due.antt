-- ===== src/Timer/Due.antt =====
-- When the periodic inform of tr069_timer.c is due.
use native.Mathlib.Nat.{mod-lt, div-add-mod'}
use tr.Base.{
  ℕ, zero, suc, ◌+◌, ◌-◌, ◌*◌, ◌/◌, ◌%◌, ◌<◌, ◌≤◌, ◌≡◌, refl, ap, ◌⊎◌, inl, inr, Bool, true, false,
  Option, none, some, arith, ltb, leb, if◌then◌else◌, ℤ, pos, negsuc, minus_one, Bool-cases,
}
use tr.Timer.{
  seconds_since, seconds_left, get_1st_heartbeat_time, Armed, interval_of, seconds_timer, ref_time,
  start_heartbeat, next_heartbeat,
}

left_past : (interval d : ℕ) → 0 < d → seconds_left interval (pos d) ≡ interval - d % interval
unfolding seconds_left
left_past interval zero h = absurd (omega arith)
left_past interval (suc n) h = refl

-- After the reference time.
first_past :
    (now interval ref : ℕ)
    → 0 < interval
    → ref < now
    → get_1st_heartbeat_time now interval (pos ref) ≡ interval - (now - ref) % interval
unfolding get_1st_heartbeat_time seconds_since
first_past now interval ref h l =
    rw (later, left_past interval (now - ref) (omega arith), some_left) refl
  where
    later : leb ref now ≡ true
    later = ground arith

    some_left : ltb (interval - (now - ref) % interval) 1 ≡ false
    some_left = ground (arith, mod-lt (now - ref) h)

-- Before it.
first_ahead :
    (now interval ref : ℕ)
    → 0 < interval
    → now < ref
    → get_1st_heartbeat_time now interval (pos ref)
      ≡ (if ltb ((ref - now) % interval) 1 then 1 else (ref - now) % interval)
unfolding get_1st_heartbeat_time seconds_since seconds_left
first_ahead now interval ref h l =
    rw earlier
      (ap (λ d. if ltb (d % interval) 1 then 1 else d % interval) {y = ref - now} (omega arith))
  where
    earlier : leb ref now ≡ false
    earlier = ground arith

first_now : (now interval : ℕ) → 0 < interval → get_1st_heartbeat_time now interval (pos now) ≡ 1
unfolding get_1st_heartbeat_time seconds_since seconds_left
first_now now interval h = rw (same, nothing, none_left) refl
  where
    same : leb now now ≡ true
    same = ground arith

    nothing : now - now ≡ 0
    nothing = omega arith

    none_left : 0 % interval ≡ 0
    none_left = omega (arith, div-add-mod' 0 interval)

-- The first inform is due in 1 to `interval` seconds. If the reference time is over, it falls on the
-- reference time and a whole number of intervals; if not, the reference time is a whole number of
-- intervals after it, but for the one second where that number of intervals is still to come.
pub get_1st_heartbeat_time_lem :
    (now interval ref : ℕ)
    → 0 < interval
    → let t = get_1st_heartbeat_time now interval (pos ref) in
      (1 ≤ t)
      × (t ≤ interval)
      × (ref < now → (k : ℕ) × (now + t ≡ ref + k * interval))
      × (now < ref → (k : ℕ) × ((now + t + k * interval ≡ ref) ⊎ (now + k * interval ≡ ref)))
get_1st_heartbeat_time_lem now interval ref h = (
  (bounds (compare_cases now ref)).0,
  (bounds (compare_cases now ref)).1,
  λ past. ((now - ref) / interval + 1, over past),
  λ future. ((ref - now) / interval, ahead future),
)
  where
    compare_cases : (a b : ℕ) → (a < b) ⊎ ((a ≡ b) ⊎ (b < a))
    compare_cases a b = elim (Bool-cases (ltb a b)) [
      | inl less ↦ inl (ground (arith, less))
      | inr no_less ↦ inr (elim (Bool-cases (ltb b a)) [
        | inl more ↦ inr (ground (arith, more))
        | inr no_more ↦ inl (ground (arith, no_less, no_more))
      ])
    ]

    bounds :
        (now < ref) ⊎ ((now ≡ ref) ⊎ (ref < now))
        → (1 ≤ get_1st_heartbeat_time now interval (pos ref))
          × (get_1st_heartbeat_time now interval (pos ref) ≤ interval)
    bounds (inl l) = ground (arith, first_ahead now interval ref h l, mod-lt (ref - now) h)
    bounds (inr (inl e)) = ground (arith, first_now now interval h, e)
    bounds (inr (inr l)) = ground (arith, first_past now interval ref h l, mod-lt (now - ref) h)

    over :
        ref < now
        → now + get_1st_heartbeat_time now interval (pos ref)
          ≡ ref + ((now - ref) / interval + 1) * interval
    over l = grind (
      arith,
      first_past now interval ref h l,
      mod-lt (now - ref) h,
      div-add-mod' (now - ref) interval,
    )

    ahead :
        now < ref
        → (now + get_1st_heartbeat_time now interval (pos ref) + (ref - now) / interval * interval
            ≡ ref)
          ⊎ (now + (ref - now) / interval * interval ≡ ref)
    ahead l = elim (Bool-cases (ltb ((ref - now) % interval) 1)) [
      | inl none_left ↦ inr (ground (arith, none_left, div-add-mod' (ref - now) interval))
      | inr some_left ↦ inl (
          ground
            (arith, some_left, first_ahead now interval ref h l, div-add-mod' (ref - now) interval))
    ]

left-bounds : (interval : ℕ) (since : ℤ) → 0 < interval → seconds_left interval since ≤ interval
unfolding seconds_left
left-bounds interval (pos zero) h = omega (arith, mod-lt 0 h)
left-bounds interval (pos (suc n)) h = omega arith
left-bounds interval (negsuc n) h = omega (arith, mod-lt (suc n) h)

-- Whatever the reference time is, also where it could not be made out.
first-bounds :
    (now interval : ℕ) (ref : ℤ)
    → 0 < interval
    → (1 ≤ get_1st_heartbeat_time now interval ref)
      × (get_1st_heartbeat_time now interval ref ≤ interval)
unfolding get_1st_heartbeat_time
first-bounds now interval ref h = ground (arith, left-bounds interval (seconds_since now ref) h)

timer-fits :
    (n : ℕ) (is_first : Bool)
    → n ≤ 2147483
    → seconds_timer n is_first ≡ some (record { milliseconds = n * 1000; is_first = is_first })
unfolding seconds_timer
timer-fits n is_first h = rw (short) refl
  where
    short : ltb (n * 1000) 2147483648 ≡ true
    short = ground arith

-- While the interval, TR069_HEARTBEAT_LIMIT or more, is at most 2147483 seconds, the heartbeat starts
-- where informs are enabled, whatever the reference time is, one that cannot be read too: its first
-- timer runs between one second and the interval, in milliseconds. When it is due, tr069_heartbeat
-- sets the timer of the interval if informs are still enabled, and otherwise returns -1 and sets
-- none; when the timer of the interval is due, it returns 0 and sets none, or -1 likewise.
pub start_heartbeat_lem :
    (limit now : ℕ) (interval : Option ℤ) (ref : Option ℤ)
    → 0 < limit
    → interval_of limit interval ≤ 2147483
    → (a b : Armed) × (start_heartbeat limit now true interval ref ≡ some (pos 0, some a))
      × (1000 ≤ a.milliseconds)
      × (a.milliseconds ≤ interval_of limit interval * 1000)
      × (b.milliseconds ≡ interval_of limit interval * 1000)
      × (next_heartbeat limit true a.is_first interval ≡ some (minus_one, some b))
      × (next_heartbeat limit true b.is_first interval ≡ some (pos 0, none))
      × ((is_first : Bool) → next_heartbeat limit false is_first interval ≡ some (minus_one, none))
unfolding start_heartbeat next_heartbeat
start_heartbeat_lem limit now interval ref h l = (
  record {
    milliseconds = get_1st_heartbeat_time now (interval_of limit interval) (ref_time ref) * 1000;
    is_first = true;
  },
  record { milliseconds = interval_of limit interval * 1000; is_first = false },
  rw
      (
        start_heartbeat,
        timer-fits (get_1st_heartbeat_time now (interval_of limit interval) (ref_time ref)) true
            (omega (arith, bounds.1)),
      )
      refl,
  omega (arith, bounds.0),
  omega (arith, bounds.1),
  refl,
  rw (next_heartbeat, timer-fits (interval_of limit interval) false l) refl,
  refl,
  λ is_first. refl,
)
  where
    positive : (i : Option ℤ) → 0 < interval_of limit i
    positive none = unfold interval_of in h
    positive (some (pos n)) = unfold interval_of in ground arith
    positive (some (negsuc n)) = unfold interval_of in h

    bounds :
        (1 ≤ get_1st_heartbeat_time now (interval_of limit interval) (ref_time ref))
        × (get_1st_heartbeat_time now (interval_of limit interval) (ref_time ref)
            ≤ interval_of limit interval)
    bounds = first-bounds now (interval_of limit interval) (ref_time ref) (positive interval)
