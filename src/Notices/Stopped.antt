-- ===== src/Notices/Stopped.antt =====
-- tr069_logmsg (tr069_timer.c): how long its timer goes on.
use mathlib.Core.Path.{subst}
use tr.Base.{
  ℕ, ◌+◌, ◌-◌, ◌*◌, ◌<◌, ◌≤◌, ◌≡◌, refl, sym, inl, inr, Bool, true, false, Option, none, some, List,
  [], ◌∷◌, arith, length, ltb, ℤ, pos, negsuc, is_num, Bool-cases, Option-cases,
}
use tr.Platform.{Platform}
use tr.Ini.{Ini}
use tr.Interface.{Indexes, Host}
use tr.Service.{World}
use tr.Notices.{Vendor}
use tr.Notices.LogMsg.{
  LogIndexes, Measured, LogItem, Log, LogRun, log_items, put_items, ten_less, duration_of, logged,
  log_events, log_left, log_report, logmsg, start_logmsg, run_logmsg,
}

-- A duration of less than `k` times ten seconds.
abbrev IsBelow : ℕ → ℤ → Type 0
IsBelow k (pos n) = n < 10 * k
IsBelow k (negsuc n) = Unit {0}

ten_less-IsBelow : (n k : ℕ) → n < 10 * k → IsBelow (k - 1) (ten_less (pos n))
unfolding ten_less
ten_less-IsBelow n k h = elim (Bool-cases (ltb n 10)) [
  | inl small ↦ rw small tt
  | inr large ↦ rw large (ground arith)
]

duration_of-IsBelow :
    (limit k : ℕ) (d : Option ℤ) → limit < 10 * k → IsBelow k (duration_of limit d)
unfolding duration_of
duration_of-IsBelow limit k none h = h
duration_of-IsBelow limit k (some (negsuc n)) h = tt
duration_of-IsBelow limit k (some (pos n)) h = elim (Bool-cases (ltb limit n)) [
  | inl large ↦ rw large h
  | inr small ↦ rw small (ground arith)
]

module _ (P : Platform) (I : Ini) (V : Vendor) (N : Indexes) (H : Host) (X : LogIndexes) where
  put_items-duration :
      (is : List LogItem) (g : Log P I V N H X)
      → let g' = put_items P I V N H X is g in g'.duration ≡ g.duration
  unfolding put_items
  put_items-duration [] g = refl
  put_items-duration (i ∷ is) g = put_items-duration is _

  logged-duration :
      (q : Measured) (g : Log P I V N H X) (t : ℤ × World I)
      → let g' = logged P I V N H X q g t in g'.duration ≡ g.duration
  logged-duration q g (ret, w) = elim (Bool-cases (is_num ret 0)) [
    | inl ok ↦ rw ok (put_items-duration (log_items X q) _)
    | inr failed ↦ rw failed refl
  ]

  abbrev pub is_going : LogRun P I V N H X → Bool
  is_going (LogRun.going g) = true
  is_going (LogRun.ended g) = false
  is_going LogRun.faulted = false

  -- The rest of the calls, after one.
  abbrev next : List (Bool × Option Measured) → Option (ℤ × Log P I V N H X) → LogRun P I V N H X
  next ts none = LogRun.faulted
  next ts (some (pos n, g)) = run_logmsg P I V N H X ts g
  next ts (some (negsuc n, g)) = LogRun.ended g

  -- A list of calls that outlasts every duration.
  abbrev Stops : List (Bool × Option Measured) → Type 0
  Stops ts =
      (k : ℕ) (g : Log P I V N H X)
      → IsBelow k g.duration
      → k + 1 ≤ length ts
      → is_going (run_logmsg P I V N H X ts g) ≡ false

  run_logmsg-Stops : (ts : List (Bool × Option Measured)) → Stops ts
  unfolding run_logmsg logmsg log_report
  run_logmsg-Stops [] k g b l = absurd (omega arith)
  run_logmsg-Stops ((false, q) ∷ ts) k g b l = refl
  run_logmsg-Stops ((true, q) ∷ ts) k g b l = on_left (run_logmsg-Stops ts) g.duration b
    where
      on_report :
          Stops ts
          → (q : Option Measured) (n : ℕ) → n < 10 * k
          → is_going (next ts (log_report P I V N H X q (record g { duration = ten_less (pos n) })))
            ≡ false
      on_report rest none n h = refl
      on_report rest (some q) n h = elim (Option-cases (log_events P I V N H X g.world)) [
        | inl e ↦ rw e refl
        | inr (t, e) ↦
            let g1 : Log P I V N H X = record g { duration = ten_less (pos n) } in
            let g2 = logged P I V N H X q g1 t in
            rw e (
              rest (k - 1) g2
                (subst (IsBelow (k - 1)) (sym (logged-duration q g1 t)) (ten_less-IsBelow n k h))
                (omega arith))
      ]

      on_left :
          Stops ts → (d : ℤ) → IsBelow k d → is_going (next ts (log_left P I V N H X d q g)) ≡ false
      on_left rest (negsuc n) b = refl
      on_left rest (pos n) b = on_report rest q n b

  -- Once tr069_start_logmsg has set the timer of the log, with a limit of less than `k` times ten
  -- seconds, the timer does not outlast `k` + 1 calls, whatever the configuration and the player say
  -- at each of them: one of them returns -1, if none faults.
  pub logmsg_lem :
      (limit k : ℕ) (duration : Option ℤ) (g : Log P I V N H X)
      → (ts : List (Bool × Option Measured)) → limit < 10 * k
      → k + 1 ≤ length ts
      → is_going (run_logmsg P I V N H X ts (start_logmsg P I V N H X true true limit duration g).1)
        ≡ false
  unfolding start_logmsg
  logmsg_lem limit k duration g ts h l =
      run_logmsg-Stops ts k _ (duration_of-IsBelow limit k duration h) l
