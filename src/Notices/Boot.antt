-- ===== src/Notices/Boot.antt =====
-- tr069_control_check_first_boot (tr069_control.c) on the running manager.
use mathlib.Core.Path.{subst}
use tr.Base.{
  ℕ, zero, suc, ◌+◌, ◌<◌, ◌≤◌, ◌≡◌, refl, sym, ap, ◌∙◌, inl, inr, Bool, false, Option, none, some,
  [], ◌∷◌, arith, length, leb, ◌==◌, if◌then◌else◌, pos, minus_one, Bool-cases,
}
use mathlib.Core.Option
use tr.Platform.{Platform, Bytes, IsSane}
use tr.Ini.{Ini, Key, Remembers}
use tr.Service.{Mgr, World}
use tr.Service.Events.{set_event-memory, after_set}
use tr.Codes.{boot_codes}
use tr.Notices.{
  Vendor, Booted, reported, booted_at, boot_with, boot_event, boot_seen, is_first_boot,
  first_address, request_url, check_first_boot,
}
use tr.Notices.Rows.{AreProper}
use tr.Notices.Raised.{IsReady, noticed, reported_lem}

first_address-first :
    (n i k : ℕ) (answers : ℕ → Option Bytes) (ip : Bytes)
    → i ≤ k
    → k < i + n
    → ((j : ℕ) → i ≤ j → j < k → answers j ≡ none)
    → answers k ≡ some ip
    → first_address n i answers ≡ some ip
unfolding first_address
first_address-first zero i k answers ip lo hi before at = absurd (omega arith)
first_address-first (suc n) i k answers ip lo hi before at = elim (Bool-cases (i == k)) [
  | inl here ↦
      let e : i ≡ k = ground arith in
      let at' : answers i ≡ some ip = subst (λ j. answers j ≡ some ip) (sym e) at in
      rw (first_address, at') refl
  | inr further ↦
      let later : i < k = ground arith in
      rw (first_address, before i (omega arith) later)
        (first_address-first n (i + 1) k answers ip (omega arith) (omega arith)
          (λ j l h. before j (omega arith) h) at)
]

first_address-none :
    (n i : ℕ) (answers : ℕ → Option Bytes)
    → ((j : ℕ) → i ≤ j → j < i + n → answers j ≡ none)
    → first_address n i answers ≡ none
unfolding first_address
first_address-none zero i answers h = refl
first_address-none (suc n) i answers h =
    rw (first_address, h i (omega arith) (omega arith))
      (first_address-none n (i + 1) answers (λ j l r. h j (omega arith) (omega arith)))

module _ (P : Platform) (I : Ini) (V : Vendor) where
  -- The event of the start, and the dictionary after it.
  abbrev pub start_event : World I → ℕ
  start_event w = if is_first_boot P I V w.ini then P.event_bootstrap else P.event_boot

  abbrev pub seen : World I → World I
  seen w =
      if is_first_boot P I V w.ini
      then (record w { ini = (I.set w.ini Key.first_boot (b'0' ∷ [])).1 })
      else w

  boot_event-memory :
      (w : World I) (m : Mgr) (n : ℕ)
      → IsSane P
      → IsReady P I V w m (start_event w) n
      → boot_event P I V w ≡ some (pos 0, after_set P I (seen w) m (start_event w) 1 none)
  unfolding boot_event
  boot_event-memory w m n s r = elim (Bool-cases (is_first_boot P I V w.ini)) [
    | inl first ↦ rw first (
        ap (Option.map (boot_seen P I V)) (
          set_event-memory P I w m P.event_bootstrap 1 [] s r.is_mgr r.target r.few_calls
            (rw first at r.in_range) (omega arith)))
    | inr later ↦ rw later (
        set_event-memory P I w m P.event_boot 1 [] s r.is_mgr r.target r.few_calls
          (rw later at r.in_range) (omega arith))
  ]

  not_first : (w : World I) → Remembers I → is_first_boot P I V (let w' = seen w in w'.ini) ≡ false
  not_first w k = elim (Bool-cases (is_first_boot P I V w.ini)) [
    | inr later ↦ rw later later
    | inl first ↦ rw first (rw (k.getstring-set w.ini Key.first_boot (b'0' ∷ []) []) refl)
  ]

  -- Without an address nothing is raised.
  check_first_boot-none :
      (is_cu : Bool) (answers : ℕ → Option Bytes) (w : World I)
      → ((j : ℕ) → j < 10 → answers j ≡ none)
      → check_first_boot P I V is_cu answers w
        ≡ some (record { world = w; url = none; ret = minus_one })
  unfolding check_first_boot boot_with
  check_first_boot-none is_cu answers w silent =
      rw (first_address-none 10 0 answers (λ j l h. silent j (omega arith))) refl

  -- The start of the manager at work, with fewer than sixteen calls, codes that name parameters, room
  -- for them and for the URL, and a dictionary that keeps what it is given, where one of the ten tries
  -- gives an address: it returns 0 and keeps the address of the first one that does as the URL for
  -- requests; the event is the one of the first boot exactly where the dictionary has its flag, which
  -- is down afterwards, and has its codes and a session with it.
  pub check_first_boot_lem :
      (is_cu : Bool) (answers : ℕ → Option Bytes) (w : World I) (m : Mgr) (k : ℕ) (ip : Bytes)
      → IsSane P
      → Remembers I
      → AreProper P I V
      → IsReady P I V w m (start_event w) (length (boot_codes is_cu))
      → k < 10
      → ((j : ℕ) → j < k → answers j ≡ none)
      → answers k ≡ some ip
      → length (request_url ip) < V.url_size
      → (b : Booted P I V) × (check_first_boot P I V is_cu answers w ≡ some b)
        × (b.ret ≡ pos 0)
        × (b.url ≡ some (request_url ip))
        × (b.world ≡ noticed P I V (seen w) m (start_event w) (boot_codes is_cu))
        × (is_first_boot P I V (let w' = b.world in w'.ini) ≡ false)
  unfolding check_first_boot boot_with
  check_first_boot_lem is_cu answers w m k ip s keeps a r h before at fits =
      let roomy : leb V.url_size (length (request_url ip)) ≡ false = ground arith in
      (
        booted_at P I V ip (noticed P I V (seen w) m (start_event w) (boot_codes is_cu)),
        rw
            (
              first_address-first 10 0 k answers ip (omega arith) (omega arith)
                  (λ j l h'. before j h') at,
              roomy,
            )
            (ap (Option.map (λ r. booted_at P I V ip (reported P I V (boot_codes is_cu) r)))
                (boot_event-memory w m _ s r)
              ∙ ap (λ w'. some (booted_at P I V ip w'))
                  (reported_lem P I V (seen w) m (start_event w) (boot_codes is_cu) a r.working
                    r.target r.room)),
        refl,
        refl,
        refl,
        not_first w keeps,
      )
