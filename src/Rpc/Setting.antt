-- ===== src/Rpc/Setting.antt =====
-- tr069_rpc_set_parameter_values and tr069_rpc_set_parameter_attributes (tr069_rpc.c): a first pass
-- over the message checks every entry and collects the faults, a second one sets.
use tr.Base.{
  ℕ, Bool, true, false, ◌&&◌, Option, none, some, List, [], ◌∷◌, ◌++◌, ◌==◌, if◌then◌else◌, ℤ, pos,
  negsuc, minus_one, is_num,
}
use tr.Platform.{Platform, Bytes}
use tr.CStr.{strcmp_eq}
use tr.Control.{Task}
use tr.Interface.{Indexes, Host, Store}
use tr.Param.{Mgr}
use tr.Param.Values.{Libc, set_value}
use tr.Rpc.{Run, Soap, Method}
use tr.Rpc.Methods.{with_task}
use tr.Rpc.Params.{
  ParamAnswers, ParamNames, Read, got, bad, null, ◌>>=◌, siblings, argument, text_of, named, answer,
  refuse, split_comma, parameter_list_text, value_struct_text, attributes_struct_text, name_text,
  value_text, notification_change_text, notification_text, dns_servers_text,
}

-- A name and its new text.
abbrev pub Pair : Type 0
Pair = Bytes × Bytes

-- The calls for a pair, in their order: the text of "Device.LAN.DNSServers" is split at its comma.
unfoldable pub calls_of : ParamNames → Pair → List Pair
calls_of names (name, value) =
    if strcmp_eq name dns_servers_text
    then elim (split_comma value) [
      | none ↦ (names.dns_server0_real, value) ∷ []
      | some (head, tail) ↦ (names.dns_server1_real, tail) ∷ (names.dns_server0_real, head) ∷ []
    ]
    else (name, value) ∷ []

-- The diagnostics that new values ask for.
pub record Wanted : Type 0 where
  pub tracert : Bool
  pub ping : Bool
  pub speed_test : Bool
  pub packet_lost : Bool

abbrev pub nothing_wanted : Wanted
nothing_wanted = record { tracert = false; ping = false; speed_test = false; packet_lost = false }

unfoldable pub wanted_by : ParamNames → Bytes → Wanted → Wanted
wanted_by names name w =
    if strcmp_eq names.tracert_diag_state name
    then record w { tracert = true }
    else if strcmp_eq names.ping_diag_state name
    then record w { ping = true }
    else if strcmp_eq names.speed_test_enable name
    then record w { speed_test = true }
    else if strcmp_eq names.packet_lost_test_enable name
    then record w { packet_lost = true }
    else w

-- `g_speedtest_flag == 0` and `g_packetlost_flag == 0`.
pub record Idle : Type 0 where
  pub speed_test : Bool
  pub packet_lost : Bool

-- The tasks that are put into the queue, the results of tr069_control_put_task ignored.
unfoldable pub put_wanted : Wanted → Idle → Run → Run
put_wanted w idle r =
    let r1 = if w.tracert then with_task r Task.tracert else r in
    let r2 = if w.ping then with_task r1 Task.ping else r1 in
    if w.speed_test && idle.speed_test then with_task r2 Task.speed_test else r2

module _ (P : Platform) (L : Soap) (A : ParamAnswers) where
  -- `switch (ret)`: the fault of an entry.
  abbrev pub fault_of : ℤ → Option ℕ
  fault_of (pos n) = none
  fault_of (negsuc n) =
      if n == 0
      then some A.invalid_parameter_name
      else if n == 1
      then some A.invalid_parameter_value
      else if n == 2
      then some A.parameter_not_writable
      else if n == 3
      then some A.invalid_parameter_type
      else if n == 4
      then some A.answers.internal_error
      else none

  abbrev pub with_fault : Bytes → Option ℕ → List (Bytes × ℕ) → List (Bytes × ℕ)
  with_fault name none faults = faults
  with_fault name (some code) faults = faults ++ ((name, code) ∷ [])

  -- The struct of an entry and its first element, the name.
  unfoldable pub entry_name : Bytes → L.Node → Read (L.Node × Bytes)
  entry_name struct node = do
    _ ← named L A.answers.invalid_arguments struct (some node)
    set ← named L A.answers.invalid_arguments name_text (L.get_child node)
    name ← text_of L P.max_param_name_len A.invalid_parameter_name set
    got (set, name)

  -- The element behind another, with its text.
  unfoldable pub entry_next : Bytes → L.Node → Read (L.Node × Bytes)
  entry_next name set = do
    next ← named L A.answers.invalid_arguments name (L.get_next set)
    value ← text_of L P.max_param_value_len A.invalid_parameter_value next
    got (next, value)

  unfoldable pub value_entry : L.Node → Read Pair
  value_entry node = do
    a ← entry_name value_struct_text node
    b ← entry_next value_text a.0
    got (a.1, b.1)

  unfoldable pub attribute_entry : L.Node → Read Pair
  attribute_entry node = do
    a ← entry_name attributes_struct_text node
    b ← entry_next notification_change_text a.0
    c ← entry_next notification_text b.0
    got (a.1, c.1)

  -- What the second pass reads, which looks at no name; `none` follows NULL.
  unfoldable pub content : Option L.Node → Option (L.Node × Bytes)
  content none = none
  content (some set) = elim (L.get_content set) [ none ↦ none | some t ↦ some (set, t) ]

  unfoldable pub content_pair : L.Node → Option (L.Node × Pair)
  content_pair node = elim (content (L.get_child node)) [
    | none ↦ none
    | some (set, name) ↦ elim (content (L.get_next set)) [
      | none ↦ none
      | some (next, value) ↦ some (next, (name, value))
    ]
  ]

  -- The elements of the list, and the fault that is built before the first pass; `none` for a fault
  -- that cannot be built.
  unfoldable pub entries : ℕ → L.Doc → Read (List L.Node)
  entries fuel doc = elim (argument L parameter_list_text doc) [
    | none ↦ bad A.answers.invalid_arguments
    | some node ↦ elim (siblings L fuel (L.get_child node)) [ none ↦ null | some nodes ↦ got nodes ]
  ]

  -- The fault with its entries, which is sent with the code of invalid arguments.
  abbrev pub refuse_entries : Method → List (Bytes × ℕ) → Run → ℤ × Run
  refuse_entries method faults r =
      (pos A.answers.invalid_arguments, (answer (A.set_fault method faults) r).1)

  module _ (C : Libc) (N : Indexes) (H : Host) (names : ParamNames) where
    -- What SetParameterValues leaves, and whether tr069_packetlost_test was called.
    pub record Done : Type 0 where
      pub ret : ℤ
      pub run : Run
      pub store : Store H
      pub packet_lost : Bool

    -- The calls of the first pass for an entry, up to the first that fails.
    unfoldable pub check_calls : Mgr → List Pair → Store H → Option (ℤ × Store H)
    check_calls m [] s = some (pos 0, s)
    check_calls m (c ∷ cs) s = elim (set_value P C N H m c.0 c.1 2 s) [
      | none ↦ none
      | some (ret, s') ↦
          let rest = check_calls m cs s' in if is_num ret 0 then rest else some (ret, s')
    ]

    -- The first pass: the faults of the entries, or what ends it, and the store.
    unfoldable pub check_values :
        Mgr → List L.Node → List (Bytes × ℕ) → Store H → Read (List (Bytes × ℕ)) × Store H
    check_values m [] faults s = (got faults, s)
    check_values m (node ∷ nodes) faults s = elim (value_entry node) [
      | null ↦ (null, s)
      | bad code ↦ (bad code, s)
      | got p ↦ elim (check_calls m (calls_of names p) s) [
        | none ↦ (null, s)
        | some (ret, s') ↦ check_values m nodes (with_fault p.0 (fault_of ret) faults) s'
      ]
    ]

    -- The calls of the second pass for an entry; their codes are ignored.
    unfoldable pub set_calls : Mgr → List Pair → Store H → Option (Store H)
    set_calls m [] s = some s
    set_calls m (c ∷ cs) s = elim (set_value P C N H m c.0 c.1 0 s) [
      | none ↦ none
      | some (ret, s') ↦ set_calls m cs s'
    ]

    unfoldable pub set_values : Mgr → List L.Node → Wanted → Store H → Option (Wanted × Store H)
    set_values m [] w s = some (w, s)
    set_values m (node ∷ nodes) w s = elim (content_pair node) [
      | none ↦ none
      | some (next, p) ↦ elim (set_calls m (calls_of names p) s) [
        | none ↦ none
        | some s' ↦ set_values m nodes (wanted_by names p.0 w) s'
      ]
    ]

    abbrev pub unset : ℤ × Run → Store H → Option Done
    unset a s = some (record { ret = a.0; run = a.1; store = s; packet_lost = false })

    -- The tasks and the answer, once every value is set.
    unfoldable pub values_set : Idle → Run → Wanted × Store H → Done
    values_set idle r (w, s) =
        let r' = put_wanted w idle r in
        let a =
          if A.can_build Method.set_parameter_values
          then answer (A.set_response Method.set_parameter_values) r'
          else refuse A A.answers.internal_error r' in
        record { ret = a.0; run = a.1; store = s; packet_lost = w.packet_lost && idle.packet_lost }

    -- The end of the first pass.
    unfoldable pub values_checked :
        Mgr → Idle → Run → List L.Node → List (Bytes × ℕ) → Store H → Option Done
    values_checked m idle r nodes [] s = elim (set_values m nodes nothing_wanted s) [
      | none ↦ none
      | some t ↦ some (values_set idle r t)
    ]
    values_checked m idle r nodes (f ∷ fs) s =
        unset (refuse_entries Method.set_parameter_values (f ∷ fs) r) s

    unfoldable pub values_from :
        Mgr → Idle → Run → List L.Node → Read (List (Bytes × ℕ)) × Store H → Option Done
    values_from m idle r nodes (got faults, s) = values_checked m idle r nodes faults s
    values_from m idle r nodes (bad code, s) = unset (refuse A code r) s
    values_from m idle r nodes (null, s) = none

    -- tr069_rpc_set_parameter_values, for a message of at most `fuel` entries.
    unfoldable pub set_parameter_values : ℕ → Mgr → Idle → L.Doc → Run → Store H → Option Done
    set_parameter_values fuel m idle doc r s = elim (entries fuel doc) [
      | null ↦ none
      | bad code ↦ unset (refuse A code r) s
      | got nodes ↦ elim (A.answers.fault A.answers.invalid_arguments) [
        | none ↦ unset (minus_one, r) s
        | some t ↦ values_from m idle r nodes (check_values m nodes [] s)
      ]
    ]
