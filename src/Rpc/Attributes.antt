-- ===== src/Rpc/Attributes.antt =====
-- tr069_rpc_set_parameter_attributes (tr069_rpc.c): its two passes over the message.
use tr.Base.{ℕ, Option, none, some, List, [], ◌∷◌, ◌++◌, if◌then◌else◌, ℤ, pos, minus_one, is_num}
use tr.Platform.{Platform, Bytes}
use tr.CStr.{strcmp_eq}
use tr.Interface.{Indexes, Host, true_text}
use tr.Param.{Mgr}
use tr.Param.Values.{Libc, set_attribute}
use tr.Rpc.{Run, Soap, Method}
use tr.Rpc.Params.{ParamAnswers, ParamNames, Read, got, bad, null, answer, refuse}
use tr.Rpc.Setting.{
  Pair, calls_of, fault_of, with_fault, attribute_entry, content, content_pair, entries,
  refuse_entries,
}

module _ (P : Platform) (L : Soap) (A : ParamAnswers) (C : Libc) (N : Indexes) (H : Host)
    (names : ParamNames) (cfg_num : ℕ) where
  -- The parameters, and the commands that n_cfg_set_parameter_attribute was given so far.
  pub record Notified : Type 0 where
    pub params : Mgr
    pub commands : List Bytes

  abbrev with_commands : Option Bytes → List Bytes → List Bytes
  with_commands none commands = commands
  with_commands (some c) commands = commands ++ (c ∷ [])

  -- A call of tr069_parameter_set_attribute with mode_flag 1.
  unfoldable pub notify : ℕ → Pair → Notified → Option (ℤ × Notified)
  notify force_flag c n = elim (set_attribute P C N H cfg_num n.params c.0 c.1 force_flag 1) [
    | none ↦ none
    | some (ret, t, commands) ↦ some (
      ret,
      record {
        params = (let m = n.params in record m { root = t });
        commands = with_commands commands n.commands;
      },
    )
  ]

  -- The calls of the first pass for an entry, up to the first that fails.
  unfoldable pub check_notify : List Pair → Notified → Option (ℤ × Notified)
  check_notify [] n = some (pos 0, n)
  check_notify (c ∷ cs) n = elim (notify 2 c n) [
    | none ↦ none
    | some (ret, n') ↦
        let rest = check_notify cs n' in if is_num ret 0 then rest else some (ret, n')
  ]

  unfoldable pub check_attributes :
      List L.Node → List (Bytes × ℕ) → Notified → Read (List (Bytes × ℕ)) × Notified
  check_attributes [] faults n = (got faults, n)
  check_attributes (node ∷ nodes) faults n = elim (attribute_entry P L A node) [
    | null ↦ (null, n)
    | bad code ↦ (bad code, n)
    | got p ↦ elim (check_notify (calls_of names p) n) [
      | none ↦ (null, n)
      | some (ret, n') ↦
          check_attributes nodes (with_fault P L A p.0 (fault_of P L A ret) faults) n'
    ]
  ]

  unfoldable pub set_notify : List Pair → Notified → Option Notified
  set_notify [] n = some n
  set_notify (c ∷ cs) n = elim (notify 0 c n) [ none ↦ none | some (ret, n') ↦ set_notify cs n' ]

  -- The calls of the second pass for an entry: none where the change is not wanted.
  unfoldable pub notify_entry : Bytes → Bytes → Option L.Node → Notified → Option Notified
  notify_entry name change rest n =
      if strcmp_eq change true_text
      then elim (content P L A rest) [
        | none ↦ none
        | some (set, value) ↦ set_notify (calls_of names (name, value)) n
      ]
      else some n

  unfoldable pub set_attributes : List L.Node → Notified → Option Notified
  set_attributes [] n = some n
  set_attributes (node ∷ nodes) n = elim (content_pair P L A node) [
    | none ↦ none
    | some (set, p) ↦ elim (notify_entry p.0 p.1 (L.get_next set) n) [
      | none ↦ none
      | some n' ↦ set_attributes nodes n'
    ]
  ]

  -- The answer, once every attribute is set.
  abbrev attributes_set : Run → ℤ × Run
  attributes_set r =
      if A.can_build Method.set_parameter_attributes
      then answer (A.set_response Method.set_parameter_attributes) r
      else refuse A A.answers.internal_error r

  unfoldable pub attributes_checked :
      Run → List L.Node → List (Bytes × ℕ) → Notified → Option (ℤ × Run × Notified)
  attributes_checked r nodes [] n = elim (set_attributes nodes n) [
    | none ↦ none
    | some n' ↦ some ((attributes_set r).0, (attributes_set r).1, n')
  ]
  attributes_checked r nodes (f ∷ fs) n =
      let a = refuse_entries P L A Method.set_parameter_attributes (f ∷ fs) r in some (a.0, a.1, n)

  abbrev attributes_refused : ℤ × Run → Notified → Option (ℤ × Run × Notified)
  attributes_refused a n = some (a.0, a.1, n)

  unfoldable pub attributes_from :
      Run → List L.Node → Read (List (Bytes × ℕ)) × Notified → Option (ℤ × Run × Notified)
  attributes_from r nodes (got faults, n) = attributes_checked r nodes faults n
  attributes_from r nodes (bad code, n) = attributes_refused (refuse A code r) n
  attributes_from r nodes (null, n) = none

  -- tr069_rpc_set_parameter_attributes, for a message of at most `fuel` entries.
  unfoldable pub set_parameter_attributes : ℕ → L.Doc → Run → Notified → Option (ℤ × Run × Notified)
  set_parameter_attributes fuel doc r n = elim (entries P L A fuel doc) [
    | null ↦ none
    | bad code ↦ attributes_refused (refuse A code r) n
    | got nodes ↦ elim (A.answers.fault A.answers.invalid_arguments) [
      | none ↦ attributes_refused (minus_one, r) n
      | some t ↦ attributes_from r nodes (check_attributes nodes [] n)
    ]
  ]
