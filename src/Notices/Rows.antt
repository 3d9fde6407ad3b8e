-- ===== src/Notices/Rows.antt =====
-- The rows that codes give in the table of the parameters to inform (tr069_control.c).
use tr.Base.{
  ℕ, ◌+◌, ◌-◌, ◌<◌, ◌≤◌, ◌≡◌, refl, sym, ap, ◌∙◌, false, ◌||◌, Option, none, some, List, [], ◌∷◌,
  ◌++◌, arith, length, length-append, ltb, leb, ℤ, pos,
}
use mathlib.Core.List.{append_assoc, append-nil}
use tr.Platform.{Platform, Bytes}
use tr.Ini.{Ini}
use tr.Control.{Control, InformParameter, Task, mark, copy_text}
use tr.Control
use tr.Service.{Mgr, World, target_to_set, put_inform_parameter, put_inform_on}
use tr.Codes.{Pcode}
use tr.Notices.{Vendor, put_code, put_codes}

module _ (P : Platform) where
  -- A code that names a parameter.
  abbrev pub IsProper : Bytes → Type 0
  IsProper [] = ⊥
  IsProper (c ∷ cs) =
      (b'!' ≤ c)
      × (c - b'!' < P.param_num)
      × (name : Bytes) × (P.parameter_name (c - b'!') ≡ some name)

  -- The row of a code in the table of the parameters to inform.
  abbrev pub row_of : Option Bytes → Bytes → List InformParameter
  row_of none code = []
  row_of (some name) code =
      record {
        parameter = copy_text (P.max_param_name_len - 1) name;
        code = copy_text (P.max_param_code_len - 1) code;
      }
      ∷ []

  unfoldable pub row : Bytes → List InformParameter
  row [] = []
  row (c ∷ cs) = row_of (P.parameter_name (c - b'!')) (c ∷ cs)

  abbrev pub rows : List Bytes → List InformParameter
  rows [] = []
  rows (c ∷ cs) = row c ++ rows cs

  abbrev pub with_rows : Control → List Bytes → Control
  with_rows c codes = record c { inform_parameters = c.inform_parameters ++ rows codes }

  row-proper :
      (c : ℕ) (cs name : Bytes)
      → P.parameter_name (c - b'!') ≡ some name
      → row (c ∷ cs) ≡ row_of (some name) (c ∷ cs)
  unfolding row
  row-proper c cs name e = ap (λ n. row_of n (c ∷ cs)) e

  put_inform-proper :
      (c : Control) (code : Bytes)
      → IsProper code
      → length c.inform_parameters < P.max_inform_param_num
      → Control.put_inform_parameter P c code
        ≡ (pos 0, record c { inform_parameters = c.inform_parameters ++ row code })
  unfolding Control.put_inform_parameter
  put_inform-proper c [] p h = absurd p
  put_inform-proper c (x ∷ xs) (low, high, name, e) h =
      let fits : (ltb x b'!' || leb P.param_num (x - b'!')) ≡ false = ground arith in
      let room : leb P.max_inform_param_num (length c.inform_parameters) ≡ false = ground arith in
      rw (fits, e, room, row-proper x xs name e) refl

  pub length-row : (code : Bytes) → IsProper code → length (row code) ≡ 1
  length-row [] p = absurd p
  length-row (c ∷ cs) (low, high, name, e) =
      ap (λ (l : List InformParameter). length l) (row-proper c cs name e)

  module _ (I : Ini) (V : Vendor) where
    -- The world with this running manager, and the manager with more rows.
    abbrev pub at_mgr : World I → Mgr → World I
    at_mgr w m = record w { g_tr069 = some m }

    abbrev pub with_codes : Mgr → List Bytes → Mgr
    with_codes m codes = record m { control = with_rows m.control codes }

    pub put_code-proper :
        (w : World I) (m : Mgr) (code : Bytes)
        → target_to_set m ≡ pos 1
        → IsProper code
        → (let c = m.control in length c.inform_parameters < P.max_inform_param_num)
        → put_code P I V (at_mgr w m) code
          ≡ at_mgr w (
              let c = m.control in
              record m {
                control = record c { inform_parameters = c.inform_parameters ++ row code };
              })
    unfolding put_inform_parameter put_inform_on
    put_code-proper w m code t p h =
        ap (λ x. (put_inform_on P I (at_mgr w m) m code x).1) t
        ∙ ap (λ (r : ℤ × Control). at_mgr w (record m { control = r.1 }))
            (put_inform-proper m.control code p h)

    abbrev pub texts : List Pcode → List Bytes
    texts [] = []
    texts (c ∷ cs) = V.text c ∷ texts cs

    -- One row more, and then the others.
    pub with_codes-cons :
        (w : World I) (m : Mgr) (code : Bytes) (codes : List Bytes)
        → at_mgr w (
            with_codes
              (let c = m.control in
                record m {
                  control = record c { inform_parameters = c.inform_parameters ++ row code };
                })
              codes)
          ≡ at_mgr w (with_codes m (code ∷ codes))
    with_codes-cons w m code codes =
        let c = m.control in
        ap (λ l. at_mgr w (record m { control = record c { inform_parameters = l } }))
          (append_assoc c.inform_parameters (row code) (rows codes))

    pub with_codes-nil : (w : World I) (m : Mgr) → at_mgr w (with_codes m []) ≡ at_mgr w m
    with_codes-nil w m =
        let c = m.control in
        ap (λ l. at_mgr w (record m { control = record c { inform_parameters = l } }))
          (append-nil c.inform_parameters)

    pub rows-append :
        (xs ys : List Pcode) → rows (texts (xs ++ ys)) ≡ rows (texts xs) ++ rows (texts ys)
    rows-append [] ys = refl
    rows-append (x ∷ xs) ys =
        ap (λ l. row (V.text x) ++ l) (rows-append xs ys)
        ∙ sym (append_assoc (row (V.text x)) (rows (texts xs)) (rows (texts ys)))

    -- Every code of the vendor names a parameter.
    abbrev pub AreProper : Type 0
    AreProper = (c : Pcode) → IsProper (V.text c)

    pub length-with_codes :
        (m : Mgr) (cs : List Pcode)
        → AreProper
        → (let c' = (let m' = with_codes m (texts cs) in m'.control) in
            let c = m.control in
            length c'.inform_parameters ≡ length c.inform_parameters + length cs)
    length-with_codes m [] a = (let c = m.control in length-append c.inform_parameters [])
    length-with_codes m (x ∷ xs) a =
        (let c = m.control in
          let l = c.inform_parameters in
          omega (
            arith,
            length-append l (row (V.text x) ++ rows (texts xs)),
            length-append (row (V.text x)) (rows (texts xs)),
            length-row (V.text x) (a x),
            length-append l (rows (texts xs)),
            length-with_codes m xs a,
          ))

    pub rows-texts :
        (l : List InformParameter) (xs ys : List Pcode)
        → (l ++ rows (texts xs)) ++ rows (texts ys) ≡ l ++ rows (texts (xs ++ ys))
    rows-texts l xs ys =
        append_assoc l (rows (texts xs)) (rows (texts ys))
        ∙ ap (λ k. l ++ k) (sym (rows-append xs ys))

    -- Some rows, and then others.
    pub with_codes-append :
        (w : World I) (m : Mgr) (xs ys : List Pcode)
        → at_mgr w (with_codes (with_codes m (texts xs)) (texts ys))
          ≡ at_mgr w (with_codes m (texts (xs ++ ys)))
    with_codes-append w m xs ys =
        let c = m.control in
        ap (λ l. at_mgr w (record m { control = record c { inform_parameters = l } }))
          (rows-texts c.inform_parameters xs ys)

    pub put_codes-proper :
        (w : World I) (m : Mgr) (cs : List Pcode)
        → AreProper
        → target_to_set m ≡ pos 1
        → (let c = m.control in length c.inform_parameters + length cs ≤ P.max_inform_param_num)
        → put_codes P I V (at_mgr w m) cs ≡ at_mgr w (with_codes m (texts cs))
    unfolding put_codes target_to_set
    put_codes-proper w m [] a t h = sym (with_codes-nil w m)
    put_codes-proper w m (x ∷ xs) a t h =
        let c = m.control in
        let m1 : Mgr = record m {
          control = record c { inform_parameters = c.inform_parameters ++ row (V.text x) };
        } in
        let counted = length-append c.inform_parameters (row (V.text x)) in
        rw (put_code-proper w m (V.text x) t (a x) (omega arith)) (
          put_codes-proper w m1 xs a t (omega (arith, counted, length-row (V.text x) (a x)))
          ∙ with_codes-cons w m (V.text x) (texts xs))
