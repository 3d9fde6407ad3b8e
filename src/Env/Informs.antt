-- ===== src/Env/Informs.antt =====
-- The inform parameters on their way through the status dictionary (tr069.c).
use mathlib.Core.List.{append-nil, append_assoc}
use tr.Base.{
  ℕ, ◌+◌, ◌-◌, ◌<◌, ◌≤◌, ◌≡◌, refl, sym, ap, ◌∙◌, false, some, List, [], ◌∷◌, ◌++◌, arith, length,
  length-append, take-of_le, ltb, leb, pos, All,
}
use tr.Platform.{Platform, Bytes, IsSane}
use tr.Ini.{Ini}
use tr.Control.{Control, InformParameter, copy_text}
use tr.Control
use tr.Env.{load_informs, codes_text}

module _ (P : Platform) where
  -- A row as tr069_control_put_inform_parameter makes it from a code of one character.
  pub record IsRow (r : InformParameter) : Type 0 where
    pub char : ℕ
    pub name : Bytes
    pub code_char : r.code ≡ char ∷ []
    pub printable : b'!' ≤ char
    pub in_table : char - b'!' < P.param_num
    pub named : P.parameter_name (char - b'!') ≡ some name
    pub parameter_name : r.parameter ≡ copy_text (P.max_param_name_len - 1) name

  abbrev row : Bytes → Bytes → InformParameter
  row name code = record { parameter = copy_text (P.max_param_name_len - 1) name; code = code }

  row-eq : (r : InformParameter) (w : IsRow r) → row w.name (w.char ∷ []) ≡ r
  row-eq r w = λ i. record { parameter = sym w.parameter_name i; code = sym w.code_char i }

  put_char :
      (c : Control) (x : ℕ) (name : Bytes)
      → IsSane P
      → b'!' ≤ x
      → x - b'!' < P.param_num
      → P.parameter_name (x - b'!') ≡ some name
      → length c.inform_parameters < P.max_inform_param_num
      → Control.put_inform_parameter P c (x ∷ []) ≡ (
        pos 0,
        record c {
          inform_parameters =
              c.inform_parameters
              ++ (row name (copy_text (P.max_param_code_len - 1) (x ∷ [])) ∷ []);
        },
      )
  unfolding Control.put_inform_parameter
  put_char c x name s lo hi e h = rw (low, high, e, room) refl
    where
      low : ltb x b'!' ≡ false
      low = ground arith

      high : leb P.param_num (x - b'!') ≡ false
      high = ground arith

      room : leb P.max_inform_param_num (length c.inform_parameters) ≡ false
      room = ground arith

  -- A code of one character makes one row, while there is room.
  put_row :
      (c : Control) (r : InformParameter)
      → IsSane P
      → IsRow r
      → length c.inform_parameters < P.max_inform_param_num
      → Control.put_inform_parameter P c (r.code)
        ≡ (pos 0, record c { inform_parameters = c.inform_parameters ++ (r ∷ []) })
  put_row c r s w h =
      ap (Control.put_inform_parameter P c) w.code_char
      ∙ put_char c w.char w.name s w.printable w.in_table w.named h
      ∙ ap (λ t. (pos 0, record c { inform_parameters = c.inform_parameters ++ (t ∷ []) }))
          (ap (row w.name)
              (take-of_le (P.max_param_code_len - 1) (w.char ∷ []) (omega (arith, s.code_room)))
            ∙ row-eq r w)

  -- One character for each row.
  pub length-codes_text :
      (rows : List InformParameter) → All IsRow rows → length (codes_text rows) ≡ length rows
  length-codes_text [] w = refl
  length-codes_text (r ∷ rows) w =
      length-append r.code (codes_text rows)
      ∙ omega (arith, ap length w.0.code_char, length-codes_text rows w.1)

  module _ (I : Ini) where
    loaded_one :
        (c : Control) (r : InformParameter) (text : Bytes)
        → IsSane P
        → IsRow r
        → length c.inform_parameters < P.max_inform_param_num
        → load_informs P I c (r.code ++ text)
          ≡ load_informs P I (record c { inform_parameters = c.inform_parameters ++ (r ∷ []) }) text
    unfolding load_informs
    loaded_one c r text s w h =
        ap (λ t. load_informs P I c (t ++ text)) w.code_char
        ∙ ap (λ t. load_informs P I t text)
            (ap (λ t. (Control.put_inform_parameter P c t).1) (sym w.code_char)
              ∙ ap (λ t. t.1) (put_row c r s w h))

    -- Loading the codes of some rows makes these rows again, behind those that are there.
    pub load_informs_lem :
        (rows : List InformParameter) (c : Control)
        → IsSane P
        → All IsRow rows
        → length c.inform_parameters + length rows ≤ P.max_inform_param_num
        → load_informs P I c (codes_text rows)
          ≡ record c { inform_parameters = c.inform_parameters ++ rows }
    unfolding load_informs
    load_informs_lem [] c s w h =
        ap (λ t. record c { inform_parameters = t }) (sym (append-nil c.inform_parameters))
    load_informs_lem (r ∷ rows) c s w h =
        loaded_one c r (codes_text rows) s w.0 (omega arith)
        ∙ load_informs_lem rows (record c { inform_parameters = c.inform_parameters ++ (r ∷ []) }) s
            w.1 (omega (arith, length-append c.inform_parameters (r ∷ [])))
        ∙ ap (λ t. record c { inform_parameters = t })
            (append_assoc c.inform_parameters (r ∷ []) rows)
