-- ===== src/Notices/Flagged.antt =====
-- The loop of tr069_value_change (tr069_interface.c) over the flags of the entries.
use mathlib.Core.Path.{subst}
use tr.Base.{
  ℕ, zero, suc, ◌+◌, ◌<◌, ◌≤◌, ◌≡◌, ◌≢◌, refl, sym, ap, ◌∙◌, inl, inr, Bool, true, false, ◌||◌,
  Option, none, some, List, [], ◌∷◌, ◌++◌, arith, length, length-append, take-of_le, get_or, ◌==◌,
  if◌then◌else◌, pos, Bool-cases, Option-cases, ==_false,
}
use tr.Platform.{Platform, Bytes}
use tr.Ini.{Ini}
use tr.Service.{Mgr, World, target_to_set}
use tr.Codes.{Entry, Pcode, format_param_code}
use tr.Notices.{Vendor, Scan, change_at, change_from}
use tr.Notices.Rows.{
  at_mgr, with_codes, with_codes-cons, with_codes-nil, texts, AreProper, put_code-proper,
  length-with_codes, with_codes-append,
}

abbrev pub is_some_code : List Pcode → Bool
is_some_code [] = false
is_some_code (c ∷ cs) = true

||-true : (b : Bool) → (b || true) ≡ true
||-true true = refl
||-true false = refl

module _ (V : Vendor) where
  abbrev pub code_of : Option Entry → List Pcode
  code_of none = []
  code_of (some e) = format_param_code e ∷ []

  -- The code of the `i`th entry, if its flag is up.
  abbrev pub flagged_at : ℕ → Bytes → List Pcode
  flagged_at i key = if get_or key i 0 == b'1' then code_of (V.entry i) else []

  -- The codes of the entries from the `i`th on whose flag is up.
  unfoldable pub flagged : (rounds i : ℕ) → Bytes → List Pcode
  flagged zero i key = []
  flagged (suc n) i key = flagged_at i key ++ flagged n (i + 1) key

  -- The identification of the device, unless its own flag is up, and its address.
  abbrev pub further : Bytes → List Pcode
  further key =
      (if get_or key V.cfg_stbid 0 == b'1' then [] else Pcode.stbid ∷ [])
      ++ (Pcode.ip_address_real ∷ [])

  abbrev pub changed_codes : Bytes → List Pcode
  changed_codes key = flagged V.cfg_num 0 key

  -- A round of the loop.
  module _ (P : Platform) (I : Ini) where
    abbrev flag_step : Bytes → ℕ → Scan P I V → Scan P I V
    flag_step key i s = if get_or key i 0 == b'1' then change_at P I V i s else s

    change_at-stb :
        (i : ℕ) (s : Scan P I V)
        → let s' = change_at P I V i s in
          s'.stb_flag ≡ (if i == V.cfg_stbid then false else s.stb_flag)
    unfolding change_at
    change_at-stb i s = elim (Option-cases (V.entry i)) [
      | inl e ↦ rw (change_at, e) refl
      | inr (en, e) ↦ rw (change_at, e) refl
    ]

    change_at-not_null :
        (i : ℕ) (s : Scan P I V) (rest : List Pcode)
        → let s' = change_at P I V i s in
          (s'.not_null || is_some_code rest)
          ≡ (s.not_null || is_some_code (code_of (V.entry i) ++ rest))
    unfolding change_at
    change_at-not_null i s rest = elim (Option-cases (V.entry i)) [
      | inl e ↦ rw (change_at, e) refl
      | inr (en, e) ↦ rw (change_at, e) (sym (||-true s.not_null))
    ]

    pub change_from-not_null :
        (n i : ℕ) (key : Bytes) (s : Scan P I V)
        → let s' = change_from P I V n i key s in
          s'.not_null ≡ (s.not_null || is_some_code (flagged n i key))
    unfolding change_from flagged
    change_from-not_null zero i key s = ground arith
    change_from-not_null (suc n) i key s =
        change_from-not_null n (i + 1) key (flag_step key i s)
        ∙ elim (Bool-cases (get_or key i 0 == b'1')) [
          | inr off ↦ rw off refl
          | inl on ↦ rw on (change_at-not_null i s (flagged n (i + 1) key))
        ]

    flag_step-stb_other :
        (key : Bytes) (i : ℕ) (s : Scan P I V)
        → i ≢ V.cfg_stbid
        → let s' = flag_step key i s in s'.stb_flag ≡ s.stb_flag
    flag_step-stb_other key i s n = elim (Bool-cases (get_or key i 0 == b'1')) [
      | inr off ↦ rw off refl
      | inl on ↦ rw on (change_at-stb i s ∙ rw (==_false i V.cfg_stbid n) refl)
    ]

    flag_step-stb :
        (key : Bytes) (s : Scan P I V)
        → let s' = flag_step key V.cfg_stbid s in
          s'.stb_flag ≡ (if get_or key V.cfg_stbid 0 == b'1' then false else s.stb_flag)
    flag_step-stb key s = elim (Bool-cases (get_or key V.cfg_stbid 0 == b'1')) [
      | inr off ↦ rw off refl
      | inl on ↦ rw on (change_at-stb V.cfg_stbid s ∙ ground arith)
    ]

    change_from-stb_behind :
        (n i : ℕ) (key : Bytes) (s : Scan P I V)
        → V.cfg_stbid < i
        → let s' = change_from P I V n i key s in s'.stb_flag ≡ s.stb_flag
    unfolding change_from
    change_from-stb_behind zero i key s h = refl
    change_from-stb_behind (suc n) i key s h =
        change_from-stb_behind n (i + 1) key (flag_step key i s) (omega arith)
        ∙ flag_step-stb_other key i s (λ e. omega arith)

    pub change_from-stb :
        (n i : ℕ) (key : Bytes) (s : Scan P I V)
        → i ≤ V.cfg_stbid
        → V.cfg_stbid < i + n
        → let s' = change_from P I V n i key s in
          s'.stb_flag ≡ (if get_or key V.cfg_stbid 0 == b'1' then false else s.stb_flag)
    unfolding change_from
    change_from-stb zero i key s lo hi = absurd (omega arith)
    change_from-stb (suc n) i key s lo hi = elim (Bool-cases (i == V.cfg_stbid)) [
      | inl e ↦
          let here : i ≡ V.cfg_stbid = ground arith in
          change_from-stb_behind n (i + 1) key (flag_step key i s) (omega (arith, here))
          ∙ subst
              (λ j.
                (let s' = flag_step key j s in s'.stb_flag)
                ≡ (if get_or key V.cfg_stbid 0 == b'1' then false else s.stb_flag))
              (sym here) (flag_step-stb key s)
      | inr e ↦
          let other : i ≢ V.cfg_stbid = (λ h. ground (arith, h)) in
          change_from-stb n (i + 1) key (flag_step key i s) (ground arith) (omega arith)
          ∙ ap (λ b. if get_or key V.cfg_stbid 0 == b'1' then false else b)
              (flag_step-stb_other key i s other)
    ]

    -- The vendor's codes name parameters, and fit the buffer of the loop.
    abbrev pub AreShort : Type 0
    AreShort = (c : Pcode) → length (V.text c) ≤ 254

    change_at-world :
        (i : ℕ) (s : Scan P I V) (w : World I) (m : Mgr)
        → AreProper P I V
        → AreShort
        → s.world ≡ at_mgr P I V w m
        → target_to_set m ≡ pos 1
        → (let c = m.control in
            length c.inform_parameters + length (code_of (V.entry i)) ≤ P.max_inform_param_num)
        → let s' = change_at P I V i s in
          s'.world ≡ at_mgr P I V w (with_codes P I V m (texts P I V (code_of (V.entry i))))
    unfolding change_at
    change_at-world i s w m a short e t h = elim (Option-cases (V.entry i)) [
      | inl none' ↦ rw (change_at, none') (e ∙ sym (with_codes-nil P I V w m))
      | inr (en, some') ↦
          let p = format_param_code en in
          let room : (let c = m.control in length c.inform_parameters < P.max_inform_param_num) =
            (let h' = (rw some' at h) in omega (arith, h')) in
          rw (change_at, some', e, take-of_le 254 (V.text p) (short p))
            (put_code-proper P I V w m (V.text p) t (a p) room
              ∙ sym (with_codes-nil P I V w _)
              ∙ with_codes-cons P I V w m (V.text p) [])
    ]

    flag_step-world :
        (i : ℕ) (key : Bytes) (s : Scan P I V) (w : World I) (m : Mgr)
        → AreProper P I V
        → AreShort
        → s.world ≡ at_mgr P I V w m
        → target_to_set m ≡ pos 1
        → (let c = m.control in
            length c.inform_parameters + length (flagged_at i key) ≤ P.max_inform_param_num)
        → let s' = flag_step key i s in
          s'.world ≡ at_mgr P I V w (with_codes P I V m (texts P I V (flagged_at i key)))
    flag_step-world i key s w m a short e t h = elim (Bool-cases (get_or key i 0 == b'1')) [
      | inr off ↦ rw off (e ∙ sym (with_codes-nil P I V w m))
      | inl on ↦ rw on (change_at-world i s w m a short e t (rw on at h))
    ]

    pub change_from-world :
        (n i : ℕ) (key : Bytes) (s : Scan P I V) (w : World I) (m : Mgr)
        → AreProper P I V
        → AreShort
        → s.world ≡ at_mgr P I V w m
        → target_to_set m ≡ pos 1
        → (let c = m.control in
            length c.inform_parameters + length (flagged n i key) ≤ P.max_inform_param_num)
        → let s' = change_from P I V n i key s in
          s'.world ≡ at_mgr P I V w (with_codes P I V m (texts P I V (flagged n i key)))
    unfolding change_from flagged target_to_set
    change_from-world zero i key s w m a short e t h = e ∙ sym (with_codes-nil P I V w m)
    change_from-world (suc n) i key s w m a short e t h =
        let first = flagged_at i key in
        let rest = flagged n (i + 1) key in
        let m1 = with_codes P I V m (texts P I V first) in
        let sized = length-append first rest in
        change_from-world n (i + 1) key (flag_step key i s) w m1 a short
          (flag_step-world i key s w m a short e t (omega (arith, h, sized))) t
          (omega (arith, h, sized, length-with_codes P I V m first a))
        ∙ with_codes-append P I V w m first rest
