-- ===== src/Service/Flags.antt =====
-- The flags in the dictionary after tr069_service_set_event (tr069_service.c).
use mathlib.Core.Option
use mathlib.Core.Path.{subst}
use tr.Base.{
  ℕ, zero, suc, ◌+◌, ◌-◌, ◌<◌, ◌≤◌, ◌≡◌, refl, sym, ap, ◌∙◌, inl, inr, false, Option, some, List,
  [], ◌∷◌, arith, length, take, get_or, replicate, length-set, length-replicate, get_or-set,
  ==_false, ◌==◌, ltb, leb, if◌then◌else◌, ℤ, pos, minus_one, is_num, index_below, Bool-cases,
}
use tr.Platform.{Platform, Bytes}
use tr.CStr.{strncpy, c_str, c_str-of_nul, length-strncpy, get_or-strncpy, get_or-take, length-take}
use tr.Ini.{Ini, Key, Remembers}
use tr.Service.{
  Mgr, World, event_buff, config_key, config_event, count_call, set_event, set_event_at,
  set_event_on, target_to_set,
}

-- The bytes of a stored flag text before `n` are no NUL.
abbrev pub NoNulBelow : ℕ → Bytes → Type 0
NoNulBelow n t = (k : ℕ) → k < n → 0 < get_or t k 0

module _ (P : Platform) (I : Ini) where
  abbrev pub flag_text : I.Dict → Bytes
  flag_text d = I.getstring d Key.event_flag P.default_event_flag

  abbrev copied : I.Dict → List ℕ
  copied d = strncpy (replicate P.event_number 0) (flag_text d) (P.event_number - 1)

  length-copied : (d : I.Dict) → length (copied d) ≡ P.event_number
  length-copied d =
      length-strncpy (replicate P.event_number 0) _ _ ∙ length-replicate P.event_number 0

  copied_at :
      (d : I.Dict) (k : ℕ)
      → k < P.event_number - 1
      → get_or (copied d) k 0 ≡ get_or (flag_text d) k 0
  copied_at d k h =
      get_or-strncpy (replicate P.event_number 0) (flag_text d) (P.event_number - 1) k
        (omega (arith, length-replicate {A = ℕ} P.event_number 0))
      ∙ ground arith

  get_or-zeros : (n k : ℕ) → get_or (replicate {A = ℕ} n 0) k 0 ≡ 0
  get_or-zeros zero k = refl
  get_or-zeros (suc n) zero = refl
  get_or-zeros (suc n) (suc k) = get_or-zeros n k

  copied_last : (d : I.Dict) → 0 < P.event_number → get_or (copied d) (P.event_number - 1) 0 ≡ 0
  copied_last d h =
      get_or-strncpy (replicate P.event_number 0) (flag_text d) (P.event_number - 1)
        (P.event_number - 1) (omega (arith, length-replicate {A = ℕ} P.event_number 0))
      ∙ ground (arith, get_or-zeros P.event_number (P.event_number - 1))

  abbrev flag_char : ℕ → ℕ
  flag_char v = if v == 1 then b'1' else b'0'

  event_buff_at :
      (d : I.Dict) (i v k : ℕ)
      → i < P.event_number
      → get_or (event_buff P I d i v) k 0 ≡ (if i == k then flag_char v else get_or (copied d) k 0)
  unfolding event_buff
  event_buff_at d i v k h =
      get_or-set (copied d) i k (flag_char v) 0 (omega (arith, length-copied d))

  -- The text that goes back, for every event but the last.
  event_buff_lem :
      (d : I.Dict) (i v : ℕ)
      → i + 1 < P.event_number
      → NoNulBelow (P.event_number - 1) (flag_text d)
      → (text : Bytes) × (c_str (event_buff P I d i v) ≡ some text)
        × (length text ≡ P.event_number - 1)
        × ((k : ℕ)
            → k < P.event_number - 1
            → get_or text k 0 ≡ (if i == k then flag_char v else get_or (flag_text d) k 0))
  unfolding event_buff
  event_buff_lem d i v h nz = (
    take (P.event_number - 1) buff,
    c_str-of_nul buff (P.event_number - 1) (omega (arith, sized))
        (event_buff_at d i v (P.event_number - 1) (omega arith)
          ∙ rw (==_false i (P.event_number - 1) (omega arith)) (copied_last d (omega arith)))
        (λ k hk. rw (at k hk) (ground (arith, nz k hk))),
    length-take (P.event_number - 1) buff (omega (arith, sized)),
    λ k hk. get_or-take buff (P.event_number - 1) k hk ∙ at k hk,
  )
    where
      buff : List ℕ
      buff = event_buff P I d i v

      sized : length buff ≡ P.event_number
      sized = length-set (copied d) i (flag_char v) ∙ length-copied d

      at :
          (k : ℕ)
          → k < P.event_number - 1
          → get_or buff k 0 ≡ (if i == k then flag_char v else get_or (flag_text d) k 0)
      at k hk = event_buff_at d i v k (omega arith) ∙ ground (arith, copied_at d k hk)

  -- What the dictionary reads as the flags after an event `i` went to it with the value `v`: those
  -- that it had before, with the new one in its place, but for the last of them.
  abbrev pub Stored : I.Dict → I.Dict → ℕ → ℕ → Type 0
  Stored d d' i v =
      (length (flag_text d') ≡ P.event_number - 1)
      × ((k : ℕ)
          → k < P.event_number - 1
          → get_or (flag_text d') k 0 ≡ (if i == k then flag_char v else get_or (flag_text d) k 0))

  -- Where the new key goes, and the result: no key is a failure, an empty one is left out, and one
  -- of more than 31 bytes is refused.
  abbrev pub KeyStored : I.Dict → I.Dict → Option Bytes → ℤ → Type 0
  KeyStored d d' Option.none r =
      (r ≡ minus_one)
      × ((def : Bytes) → I.getstring d' Key.cmd_key def ≡ I.getstring d Key.cmd_key def)
  KeyStored d d' (some []) r =
      (r ≡ pos 0) × ((def : Bytes) → I.getstring d' Key.cmd_key def ≡ I.getstring d Key.cmd_key def)
  KeyStored d d' (some (c ∷ key)) r =
      (length (c ∷ key) < 32
        → (r ≡ pos 0) × ((def : Bytes) → I.getstring d' Key.cmd_key def ≡ c ∷ key))
      × (32 ≤ length (c ∷ key)
          → (r ≡ minus_one)
            × ((def : Bytes) → I.getstring d' Key.cmd_key def ≡ I.getstring d Key.cmd_key def))

  config_key_lem :
      (mem : Remembers I) (d d0 : I.Dict) (key : Option Bytes)
      → ((def : Bytes) → I.getstring d Key.cmd_key def ≡ I.getstring d0 Key.cmd_key def)
      → let (r, d') = config_key P I d key in (flag_text d' ≡ flag_text d) × KeyStored d0 d' key r
  unfolding config_key
  config_key_lem mem d d0 Option.none same = (refl, (refl, same))
  config_key_lem mem d d0 (some []) same = (refl, (refl, same))
  config_key_lem mem d d0 (some (c ∷ key)) same = elim (Bool-cases (ltb (length (c ∷ key)) 32)) [
    | inl short ↦ rw short (
      mem.getstring-set_ne d Key.cmd_key Key.event_flag (c ∷ key) P.default_event_flag
          (λ e. ground (arith, e)),
      (
        λ h. (
          mem.set_ok d Key.cmd_key (c ∷ key),
          λ def. mem.getstring-set d Key.cmd_key (c ∷ key) def,
        ),
        λ h. absurd (ground (arith, short, h)),
      ),
    )
    | inr long ↦ rw long (refl, (λ h. absurd (ground (arith, long, h)), λ h. (refl, same)))
  ]

  config_event_lem :
      (mem : Remembers I) (d : I.Dict) (i v : ℕ) (key : Option Bytes)
      → i + 1 < P.event_number
      → NoNulBelow (P.event_number - 1) (flag_text d)
      → (r : ℤ) × (d' : I.Dict) × (config_event P I d i v key ≡ some (r, d'))
        × Stored d d' i v
        × KeyStored d d' key r
  unfolding config_event
  config_event_lem mem d i v key h nz =
      let (text, e, len, at) = event_buff_lem d i v h nz in
      let d1 = (I.set d Key.event_flag text).1 in
      let (same, stored) = config_key_lem mem d1 d key (λ def.
        mem.getstring-set_ne d Key.event_flag Key.cmd_key text def (λ q. ground (arith, q))) in
      let read : flag_text (config_key P I d1 key).1 ≡ text =
        same ∙ mem.getstring-set d Key.event_flag text P.default_event_flag in
      (
        (config_key P I d1 key).0,
        (config_key P I d1 key).1,
        rw (config_event, e, mem.set_ok d Key.event_flag text) refl,
        (ap length read ∙ len, λ k hk. ap (λ t. get_or t k 0) read ∙ at k hk),
        stored,
      )

  count_call-ini :
      (w : World I) (i : ℕ) (r : ℤ) (m : Mgr)
      → ((count_call P I w i (r, m)).0 ≡ r) × ((count_call P I w i (r, m)).1.ini ≡ w.ini)
  unfolding count_call
  count_call-ini w i r m = elim (Bool-cases (is_num r 0)) [
    | inl ok ↦ rw ok (refl, refl)
    | inr failed ↦ rw failed (refl, refl)
  ]

  set_event-config :
      (w : World I) (m : Mgr) (i v : ℕ) (key : Option Bytes)
      → w.g_tr069 ≡ some m
      → target_to_set m ≡ pos 0
      → m.call_flag < 16
      → i < P.event_number
      → v ≤ 1
      → set_event P I w (pos i) (pos v) key
        ≡ Option.map
            (λ p. count_call P I (record w { ini = p.1 }) i (p.0, m))
            (config_event P I w.ini i v key)
  unfolding set_event set_event_at set_event_on
  set_event-config w m i v key e t h hi hv = guards v hv
    where
      inside : index_below P.event_number (pos i) ≡ some i
      inside = ground arith

      room : leb 16 m.call_flag ≡ false
      room = ground arith

      at :
          (v : ℕ)
          → set_event_at P I w i v key
            ≡ Option.map
                (λ p. count_call P I (record w { ini = p.1 }) i (p.0, m))
                (config_event P I w.ini i v key)
      at v = simp (set_event_at, e, room, t) refl

      guards :
          (v : ℕ)
          → v ≤ 1
          → set_event P I w (pos i) (pos v) key
            ≡ Option.map
                (λ p. count_call P I (record w { ini = p.1 }) i (p.0, m))
                (config_event P I w.ini i v key)
      guards zero hv = rw (inside, set_event) (at 0)
      guards (suc zero) hv = rw (inside, set_event) (at 1)
      guards (suc (suc v)) hv = absurd (omega arith)

  -- With a dictionary that keeps what it is given, and fewer than sixteen calls waiting:
  -- tr069_service_set_event of a manager whose events go to the dictionary, for an event but the last
  -- and a value of 0 or 1, returns. Afterwards the dictionary has the flags it had, with the new one
  -- in its place, but one character short: without the flag of the last event. It has the command key
  -- too, if that is not empty and shorter than 32 bytes, and else the key it had; the result is -1 for
  -- NULL and for a longer key, although the flag is stored, and 0 otherwise. The flags it had have no
  -- NUL before the last of them.
  pub set_event-Stored :
      (mem : Remembers I) (w : World I) (m : Mgr) (i v : ℕ) (key : Option Bytes)
      → w.g_tr069 ≡ some m
      → target_to_set m ≡ pos 0
      → m.call_flag < 16
      → i + 1 < P.event_number
      → v ≤ 1
      → NoNulBelow (P.event_number - 1) (flag_text w.ini)
      → (r : ℤ) × (w' : World I) × (set_event P I w (pos i) (pos v) key ≡ some (r, w'))
        × Stored w.ini w'.ini i v
        × KeyStored w.ini w'.ini key r
  set_event-Stored mem w m i v key e t h hi hv nz =
      let (r, d', q, stored, keyed) = config_event_lem mem w.ini i v key hi nz in
      let w1 = record w { ini = d' } in
      let (ret, ini) = count_call-ini w1 i r m in
      (
        (count_call P I w1 i (r, m)).0,
        (count_call P I w1 i (r, m)).1,
        set_event-config w m i v key e t h (omega arith) hv
            ∙ ap (Option.map (λ p. count_call P I (record w { ini = p.1 }) i (p.0, m))) q,
        subst (λ d. Stored w.ini d i v) (sym ini) stored,
        subst (KeyStored w.ini (count_call P I w1 i (r, m)).1.ini key) (sym ret)
            (subst (λ d. KeyStored w.ini d key r) (sym ini) keyed),
      )
