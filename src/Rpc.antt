-- ===== src/Rpc.antt =====
-- tr069_sample/libtr069/tr069/tr069_rpc.c, as the session sees it: a message is built, sent, and the
-- answer is dealt with. SOAP documents are those of libxml2 and the connection is libcurl's,
-- which are not part of the repository: `Soap` has the functions tr069_libsoap_* that the code calls,
-- which are taken to return, and `replies`
-- are the answers of the sends that succeed, before the first that fails. The methods that the
-- server calls are a parameter, `serve`; cookies are left out. Where the code reads through a NULL
-- pointer, the dealing with an answer is `none`.
pub mod Arguments
pub mod Kept
pub mod Methods
pub mod Transfer
pub mod Served
pub mod Refusal
pub mod Params
pub mod Reading
pub mod Setting
pub mod Attributes
pub mod Checked
pub mod Whole
pub mod Listed
pub mod Setup
pub mod Names
pub mod Null
use tr.Base.{
  ℕ, zero, suc, Bool, true, false, Option, some, List, [], ◌∷◌, ◌++◌, ◌==◌, if◌then◌else◌, ℤ, pos,
  negsuc, minus_one, is_num,
}
use mathlib.Core.Option
use tr.Platform.{Platform, Bytes}
use tr.CStr.{strcmp_eq}
use tr.Control.{Control, Event, InformParameter, Task}
use tr.Control
use Names.{RpcType, type_name, response_text, fault_text, max_envelopes, one}

-- tr069_session_status
pub data SessionStatus : Type 0 where
  stop inform request response execute : SessionStatus

-- What stands in `xml_buffer`: what was built, or the text that a method left.
pub data Message : Type 0 where
  blank : Message
  inform_of : Event → List InformParameter → Message
  transfer_complete_of : (key start_time complete_time : Bytes) → ℤ → Message
  text : Bytes → Message

-- tr069_session_mgr, with what it works on: the control manager, the fields of tr069_rpc_mgr that
-- decide what it does, the connection, and what went out so far.
pub record Run : Type 0 where
  pub status : SessionStatus
  pub hold_request : ℕ
  pub set_param_flag : ℕ
  pub control : Control
  pub req_to_acs : RpcType
  pub xml_buffer : Message
  pub recv_data : Bytes
  pub replies : List Bytes
  pub sent : List (RpcType × Message)
  -- the tasks of the device that were executed, and the calls of tr069_save_all_config
  pub executed : List Task
  pub saves : ℕ

-- tr069_libsoap_*; `none` is NULL.
pub record Soap : Type 1 where
  pub Doc : Type 0
  pub Node : Type 0
  pub buffer_new : Bytes → Option Doc
  pub get_method : Doc → Option Node
  pub get_child : Node → Option Node
  pub get_next : Node → Option Node
  pub get_content : Node → Option Bytes
  pub name : Node → Bytes

-- The methods of the server, by the function that serves them.
pub data Method : Type 0 where
  set_parameter_values get_parameter_values get_parameter_names : Method
  set_parameter_attributes get_parameter_attributes download upload : Method
  reboot factory_reset x_fv_setup unknown_rpc : Method

-- `strcmp(name, tr069_rpc_type_name(t)) == 0`
abbrev is_name : Bytes → RpcType → Bool
is_name name t = elim (type_name t) [ Option.none ↦ false | some s ↦ strcmp_eq name s ]

-- The tests of tr069_rpc_deal_recv, in their order.
unfoldable pub method_of : Bytes → Method
method_of name =
    if is_name name RpcType.cpe_set_parameter_values
    then Method.set_parameter_values
    else if is_name name RpcType.cpe_get_parameter_values
    then Method.get_parameter_values
    else if is_name name RpcType.cpe_get_parameter_names
    then Method.get_parameter_names
    else if is_name name RpcType.cpe_set_parameter_attributes
    then Method.set_parameter_attributes
    else if is_name name RpcType.cpe_get_parameter_attributes
    then Method.get_parameter_attributes
    else if is_name name RpcType.cpe_download
    then Method.download
    else if is_name name RpcType.cpe_upload
    then Method.upload
    else if is_name name RpcType.cpe_reboot
    then Method.reboot
    else if is_name name RpcType.cpe_factory_reset
    then Method.factory_reset
    else if is_name name RpcType.cpe_x_fv_setup
    then Method.x_fv_setup
    else Method.unknown_rpc

-- tr069_rpc_clear: the XML buffer is emptied; the count of bytes received is not kept here.
unfoldable pub clear : Run → Run
clear r = record r { req_to_acs = RpcType.number; xml_buffer = Message.blank }

unfoldable pub build_empty : Run → ℤ × Run
build_empty r = (pos 0, record r { xml_buffer = Message.blank; req_to_acs = RpcType.empty })

-- The document has the command key, which is emptied, the times and the result.
unfoldable pub build_transfer_complete : Run → ℤ × Run
build_transfer_complete r =
    let c = r.control in
    let e = c.event in
    (
      pos 0,
      record r {
        control = record c { event = record e { command_key = [] } };
        xml_buffer =
            Message.transfer_complete_of e.command_key c.transfer_stime c.transfer_ctime
              c.transfer_result;
        req_to_acs = RpcType.acs_transfer_complete;
      },
    )

-- What a failed send received is dropped: every failed send ends the session.
unfoldable pub send : Run → ℤ × Run
send r = elim r.replies [
  | [] ↦ (minus_one, record r { recv_data = [] })
  | reply ∷ rest ↦ (
    pos 0,
    record r {
      recv_data = reply;
      replies = rest;
      sent = r.sent ++ ((r.req_to_acs, r.xml_buffer) ∷ []);
    },
  )
]

module _ (P : Platform) where
  -- The document itself comes from the parameters of the device.
  unfoldable pub build_inform : Run → Event → List InformParameter → ℤ × Run
  build_inform r e rows =
      if is_num (Control.is_event_empty P e) 0
      then (
        pos 0,
        record r { xml_buffer = Message.inform_of e rows; req_to_acs = RpcType.acs_inform },
      )
      else (minus_one, r)

  module _ (L : Soap) where
    -- A step from a node that may be NULL: the code tests for it before, or asks
    -- tr069_libsoap_get_child, which answers NULL for NULL.
    abbrev pub then_node : Option L.Node → (L.Node → Option L.Node) → Option L.Node
    then_node Option.none f = Option.none
    then_node (some x) f = f x

    -- tr069_rpc_inform_response: without a child, tr069_libsoap_get_content reads NULL.
    pub inform_response : L.Doc → Option ℤ
    inform_response doc = elim (then_node (L.get_method doc) L.get_child) [
      | Option.none ↦ Option.none
      | some node ↦ elim (L.get_content node) [
        | Option.none ↦ some minus_one
        | some str ↦
            if strcmp_eq (L.name node) max_envelopes
            then (if strcmp_eq str one then some (pos 0) else some minus_one)
            else some minus_one
      ]
    ]

    -- `atoi` of the content; it reads NULL where the content is another element.
    abbrev pub fault_code : Option Bytes → Option ℤ
    fault_code Option.none = Option.none
    fault_code (some s) = some (P.atoi s)

    -- `if (TR069_FAULT_ACS_RETRY_REQUEST == fault_code)`
    abbrev pub retry_or_fail : ℤ → ℤ
    retry_or_fail code = if is_num code P.fault_acs_retry_request then code else minus_one

    pub deal_fault : L.Doc → Option ℤ
    deal_fault doc =
        let first = then_node (L.get_method doc) L.get_child in
        let third = then_node (then_node first L.get_next) L.get_next in
        elim (then_node (then_node third L.get_child) L.get_child) [
          | Option.none ↦ some minus_one
          | some node ↦ Option.map retry_or_fail (fault_code (L.get_content node))
        ]

    -- A response to `t`, with its name checked.
    pub response_of : RpcType → L.Doc → Option ℤ
    unfolding inform_response
    response_of RpcType.acs_inform doc = inform_response doc
    response_of RpcType.acs_transfer_complete doc = some (pos 0)
    response_of _ doc = some minus_one

    pub deal_response : RpcType → L.Doc → Bytes → Option ℤ
    unfolding deal_fault response_of
    deal_response t doc name =
        if strcmp_eq name fault_text then deal_fault doc else elim (type_name t) [
          | Option.none ↦ some minus_one
          | some s ↦
              if strcmp_eq name (s ++ response_text) then response_of t doc else some minus_one
        ]

    module _ (serve : Method → L.Doc → Run → Option (ℤ × Run)) where
      pub deal_method : RpcType → L.Doc → Bytes → Run → Option (ℤ × Run)
      unfolding deal_response
      deal_method RpcType.empty doc name r = serve (method_of name) doc r
      deal_method t doc name r = Option.map (λ ret. (ret, r)) (deal_response t doc name)

      pub deal_recv : Run → Option (ℤ × Run)
      unfolding deal_method
      deal_recv r = elim (L.buffer_new r.recv_data) [
        | Option.none ↦ some (minus_one, r)
        | some doc ↦ elim (L.get_method doc) [
          | Option.none ↦ some (minus_one, r)
          | some node ↦ deal_method r.req_to_acs doc (L.name node) r
        ]
      ]
