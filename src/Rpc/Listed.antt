-- ===== src/Rpc/Listed.antt =====
-- tr069_rpc_get_parameter_names (tr069_rpc.c) over the tree of parameters.
use tr.Base.{
  ℕ, ◌<◌, ◌≡◌, refl, ap, ◌∙◌, true, false, Option, none, some, List, arith, length, take-of_le,
  ◌==◌, ℤ, pos,
}
use tr.Platform.{Platform, Bytes}
use tr.Param.{Mgr, Param, Tree}
use tr.Param.Prune.{source_of}
use tr.Param.Owners.{IsOwned}
use tr.Param.Enumerate.{get_param_lem, answer, listed}
use tr.Rpc.{Run, Soap, Method}
use tr.Rpc.Params
use tr.Rpc.Params.{ParamAnswers, Read, got, bad, refuse}
use tr.Rpc.Reading.{found, name_items, names_arguments, answer_names, get_parameter_names}

found_all : (code : ℕ) (ps : List Param) → found code (pos (length ps), ps) ≡ got ps
found_all code ps = ap got (take-of_le (length ps) ps (omega arith))

module _ (P : Platform) (L : Soap) (A : ParamAnswers) where
  -- The answer to a request for the names below a path, by what the tree has there.
  abbrev pub names_answer : (path : Bytes) (next_level : ℕ) → Run → Option (Param × Tree) → ℤ × Run
  names_answer path next_level r none = refuse A A.invalid_parameter_name r
  names_answer path next_level r (some (p, child)) =
      Params.answer
        (A.names_response (name_items P L A (listed next_level false (length path == 0) p child))) r

  answer_source :
      (path : Bytes) (next_level : ℕ) (r : Run) (source : Option (Param × Tree))
      → A.can_build Method.get_parameter_names ≡ true
      → answer_names P L A r (found A.invalid_parameter_name (answer path next_level false source))
        ≡ some (names_answer path next_level r source)
  unfolding answer_names
  answer_source path next_level r none can = refl
  answer_source path next_level r (some (p, child)) can =
      let ps = listed next_level false (length path == 0) p child in
      ap (answer_names P L A r) (found_all A.invalid_parameter_name ps) ∙ rw can refl

  -- A GetParameterNames message with its arguments, to a manager in order, with TR069_MAX_PARAM_NUM
  -- below 32768, whose response can be built: where NextLevel, kept as UINT8_T, is 0, it is answered
  -- with the names and the access of the node of the path and of all that lies below it, in preorder,
  -- and otherwise with those of its next level, without the objects in both cases; with those of the
  -- root alone for the empty path and 1; and with the fault of an invalid name where there is no such
  -- node.
  pub get_parameter_names_lem :
      (m : Mgr) (doc : L.Doc) (r : Run) (path : Bytes) (next_level : ℕ)
      → P.max_param_num < 32768
      → IsOwned P.max_param_num m.root m.ids
      → names_arguments P L A doc ≡ got (path, next_level)
      → A.can_build Method.get_parameter_names ≡ true
      → get_parameter_names P L A m doc r
        ≡ some (names_answer path next_level r (source_of P m path))
  unfolding get_parameter_names
  get_parameter_names_lem m doc r path next_level few owned read can =
      rw (read, (get_param_lem P m path next_level false few owned).0)
        (answer_source path next_level r (source_of P m path) can)
