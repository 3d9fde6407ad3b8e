-- ===== src/Rpc/Reading.antt =====
-- tr069_rpc_get_parameter_names, tr069_rpc_get_parameter_values and
-- tr069_rpc_get_parameter_attributes (tr069_rpc.c): what is read of the parameters.
use tr.Base.{
  ℕ, ◌-◌, Bool, false, ◌||◌, Option, none, some, List, [], ◌∷◌, ◌++◌, length, take, get_or, leb,
  ◌==◌, if◌then◌else◌, ℤ, pos, negsuc,
}
use tr.Platform.{Platform, Bytes}
use tr.CStr.{strcmp_eq}
use tr.Interface.{Indexes, Host, Store}
use tr.Param.{Param, Mgr}
use tr.Param.Prune.{get_param}
use tr.Param.Values.{Libc, get_value, get_attribute}
use tr.Rpc.{Run, Soap, Method}
use tr.Rpc.Params.{
  ParamAnswers, ParamNames, Item, Read, got, bad, null, ◌>>=◌, siblings, argument, text_of, named,
  answer, refuse, uint8_of, data_type_name, parameter_names_text, parameter_name_text, string_text,
  parameter_path_text, next_level_text, dns_servers_text, xsd_text, xsd_string_text, xsd_int_text,
  yes_text, no_text,
}

-- The pointers that tr069_parameter_get_param wrote, or its failure.
abbrev pub found : ℕ → ℤ × List Param → Read (List Param)
found code (pos n, params) = got (take n params)
found code (negsuc n, params) = if n == 0 then bad code else got []

-- `param_result[0]`, which nothing was written to where nothing was found.
abbrev pub first : Read (List Param) → Read Param
first (got (p ∷ ps)) = got p
first (got []) = null
first (bad code) = bad code
first null = null

-- A comma at the end of a text is dropped.
unfoldable pub drop_comma : Bytes → Bytes
drop_comma t = if get_or t (length t - 1) 0 == b',' then take (length t - 1) t else t

-- The type of a value as it is printed; a type without a name is not printed.
abbrev pub type_text : Param → Read Bytes
type_text p = elim (data_type_name p.data_type) [ none ↦ null | some t ↦ got (xsd_text ++ t) ]

module _ (P : Platform) (L : Soap) (A : ParamAnswers) where
  abbrev pub name_item : Param → Bytes × Bytes
  name_item p = (p.param_name, if p.write_flag == 1 then yes_text else no_text)

  -- The arguments of a request for names: the path, and the level.
  unfoldable pub names_arguments : L.Doc → Read (Bytes × ℕ)
  names_arguments doc = elim (argument L parameter_path_text doc) [
    | none ↦ bad A.answers.invalid_arguments
    | some node ↦ do
      path ← text_of L P.max_param_name_len A.invalid_parameter_name node
      next ← named L A.answers.invalid_arguments next_level_text (L.get_next node)
      elim (L.get_content next) [ none ↦ null | some t ↦ got (path, uint8_of (P.atoi t)) ]
  ]

  abbrev pub name_items : List Param → List (Bytes × Bytes)
  name_items [] = []
  name_items (p ∷ ps) = name_item p ∷ name_items ps

  unfoldable pub answer_names : Run → Read (List Param) → Option (ℤ × Run)
  answer_names r (got params) = some (
      if A.can_build Method.get_parameter_names
      then answer (A.names_response (name_items params)) r
      else refuse A A.answers.internal_error r)
  answer_names r (bad code) = some (refuse A code r)
  answer_names r null = none

  -- tr069_rpc_get_parameter_names; `none` where it reads the text of an element that has none.
  unfoldable pub get_parameter_names : Mgr → L.Doc → Run → Option (ℤ × Run)
  get_parameter_names m doc r =
      answer_names r
        (do a ← names_arguments doc; found A.invalid_parameter_name (get_param P m a.0 a.1 false))

  -- The name of a parameter that is asked for.
  unfoldable pub asked_name : L.Node → Read Bytes
  asked_name node =
      if strcmp_eq parameter_name_text (L.name node) || strcmp_eq string_text (L.name node)
      then text_of L P.max_param_name_len A.invalid_parameter_name node
      else bad A.answers.invalid_arguments

  -- The loop over the names that are asked for, which hands on the buffer for the values.
  unfoldable pub gather :
      (Bytes → Bytes → Read (List Item × Bytes))
      → List L.Node
      → Bytes
      → List Item
      → Read (List Item)
  gather step [] buf items = got items
  gather step (node ∷ nodes) buf items = asked_name node >>= λ name.
      step name buf >>= λ (t : List Item × Bytes). gather step nodes t.1 (items ++ t.0)

  -- The pointers to the two servers of "Device.LAN.DNSServers".
  abbrev pub dns_servers : ParamNames → Mgr → Read (Param × Param)
  dns_servers N m = do
    let ps = found A.invalid_parameter_name (get_param P m N.dns_server0_real 0 false)
    let qs = found A.invalid_parameter_name (get_param P m N.dns_server1_real 0 false)
    ps >>= λ _. qs >>= λ _. first ps >>= λ p. first qs >>= λ q. got (p, q)

  unfoldable pub answer_items :
      Method → (List Item → Bytes) → Run → Read (List Item) → Option (ℤ × Run)
  answer_items method response r (got items) = some (answer (response items) r)
  answer_items method response r (bad code) = some (refuse A code r)
  answer_items method response r null = none

  -- What the methods for values and attributes do with their message.
  unfoldable pub answer_gathered :
      ℕ
      → Method
      → (List Item → Bytes)
      → (Bytes → Bytes → Read (List Item × Bytes))
      → L.Doc
      → Run
      → Option (ℤ × Run)
  answer_gathered fuel method response step doc r = elim (argument L parameter_names_text doc) [
    | none ↦ some (refuse A A.answers.invalid_arguments r)
    | some node ↦
        if A.can_build method
        then elim (siblings L fuel (L.get_child node)) [
          | none ↦ none
          | some nodes ↦ answer_items method response r (gather step nodes [] [])
        ]
        else some (refuse A A.answers.internal_error r)
  ]

  module _ (C : Libc) (N : Indexes) (H : Host) (names : ParamNames) (m : Mgr) (s : Store H) where
    abbrev pub value_len : ℕ
    value_len = P.max_param_value_len

    -- tr069_parameter_get_value with its return code ignored.
    abbrev pub value_of : Param → Bytes → Read Bytes
    value_of p old = elim (get_value P C N H p old value_len s) [
      | none ↦ null
      | some (ret, t) ↦ got t
    ]

    -- The two servers one behind the other in the buffer; `null` where they do not fit in it.
    unfoldable pub dns_value : Bytes → Param × Param → Read (List Item × Bytes)
    dns_value buf (p, q) = value_of p buf >>= λ t. value_of q [] >>= λ u.
        let head = if length t == 0 then [] else t ++ (b',' ∷ []) in
        let value = drop_comma (head ++ u) in
        if leb value_len (length (head ++ u))
        then null
        else got
            (record { name = dns_servers_text; value = value; type = xsd_string_text } ∷ [], value)

    -- The loop over what was found for a name.
    unfoldable pub value_items : List Param → Bytes → List Item → Read (List Item × Bytes)
    value_items [] buf items = got (items, buf)
    value_items (p ∷ ps) buf items = type_text p >>= λ type. value_of p [] >>= λ value.
        value_items ps value
          (items ++ (record { name = p.param_name; value = value; type = type } ∷ []))

    abbrev pub is_password : Bytes → Bool
    is_password name =
        strcmp_eq name names.manage_ser_password
        || (strcmp_eq name names.pppoe_password
            || (strcmp_eq name names.user_password
                || strcmp_eq name names.connection_request_password))

    -- One name of a request for values.
    unfoldable pub values_step : Bytes → Bytes → Read (List Item × Bytes)
    values_step name buf =
        if strcmp_eq name dns_servers_text
        then dns_servers names m >>= dns_value buf
        else if is_password name
        then got (record { name = name; value = []; type = xsd_string_text } ∷ [], buf)
        else found A.invalid_parameter_name (get_param P m name 0 false) >>= λ ps.
            value_items ps buf []

    -- tr069_rpc_get_parameter_values
    unfoldable pub get_parameter_values : ℕ → L.Doc → Run → Option (ℤ × Run)
    get_parameter_values fuel doc r =
        answer_gathered fuel Method.get_parameter_values A.values_response values_step doc r

    abbrev pub attribute_text : Param → Bytes
    attribute_text p = P.sprintf_d (get_attribute p)

    unfoldable pub attribute_items : List Param → List Item → Read (List Item × Bytes)
    attribute_items [] items = got (items, [])
    attribute_items (p ∷ ps) items = type_text p >>= λ type. attribute_items ps (
        items
        ++ (record {
          name = p.param_name;
          value = take (value_len - 1) (attribute_text p);
          type = xsd_int_text;
        }
            ∷ []))

    -- The attributes of the two servers in one text.
    unfoldable pub dns_attributes : Bytes → Bytes → Param × Param → Read (List Item × Bytes)
    dns_attributes name buf (p, q) =
        let text = attribute_text p ++ (b',' ∷ attribute_text q) in
        got
          (record { name = name; value = take (value_len - 1) text; type = xsd_int_text } ∷ [], buf)

    -- One name of a request for attributes.
    unfoldable pub attributes_step : Bytes → Bytes → Read (List Item × Bytes)
    attributes_step name buf =
        if strcmp_eq name dns_servers_text
        then dns_servers names m >>= dns_attributes name buf
        else found A.invalid_parameter_name (get_param P m name 0 false) >>= λ ps.
            attribute_items ps []

    -- tr069_rpc_get_parameter_attributes
    unfoldable pub get_parameter_attributes : ℕ → L.Doc → Run → Option (ℤ × Run)
    get_parameter_attributes fuel doc r =
        answer_gathered fuel Method.get_parameter_attributes A.attributes_response attributes_step
          doc r
