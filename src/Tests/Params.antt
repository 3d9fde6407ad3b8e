-- ===== src/Tests/Params.antt =====
-- The properties of the methods on parameters at a message that is a small tree of elements.
use tr.Base.{◌≡◌, refl, ◌⊎◌, true, Option, none, some, [], ◌∷◌, arith, pos, All}
use tr.Platform.{Bytes}
use tr.Rpc.{Soap}
use tr.Rpc.Params.{
  ParamAnswers, ParamNames, got, argument, siblings, text_of, named, parameter_list_text,
  parameter_path_text, next_level_text, value_struct_text, name_text, value_text,
}
use tr.Rpc.Setting.{
  calls_of, Idle, Done, entries, value_entry, entry_name, entry_next, set_parameter_values,
}
use tr.Rpc.Checked.{IsSound}
use tr.Rpc.Whole.{SetAll, RefusesAny, set_parameter_values_lem}
use tr.Rpc.Reading.{names_arguments, get_parameter_names}
use tr.Rpc.Listed.{names_answer, get_parameter_names_lem}
use tr.Param.Prune.{source_of}
use tr.Tests.Box.{box, box-IsOwned, name_ip, name_lan}
use tr.Tests.Cfg.{indexes, host, store, libc}
use tr.Tests.Stb.{stb, parse, value}
use tr.Tests.Param.{names_ip, ip_located}
use tr.Tests.Device.{run, answers}
use tr.Tests.Busy.{busy}

-- `el name text child next`
data Xml : Type 0 where
  end : Xml
  el : (name text : Bytes) (child next : Xml) → Xml

abbrev there : Xml → Option Xml
there end = none
there (el name text child next) = some (el name text child next)

abbrev child_of : Xml → Option Xml
child_of end = none
child_of (el name text child next) = there child

abbrev next_of : Xml → Option Xml
next_of end = none
next_of (el name text child next) = there next

abbrev text_in : Xml → Option Bytes
text_in end = none
text_in (el name text child next) = some text

abbrev name_in : Xml → Bytes
name_in end = []
name_in (el name text child next) = name

abbrev xml : Soap
xml = record {
  Doc = Xml;
  Node = Xml;
  buffer_new = λ t. none;
  get_method = there;
  get_child = child_of;
  get_next = next_of;
  get_content = text_in;
  name = name_in;
}

abbrev param_answers : ParamAnswers
param_answers = record {
  answers = answers;
  invalid_parameter_name = 9005;
  invalid_parameter_type = 9006;
  invalid_parameter_value = 9007;
  parameter_not_writable = 9008;
  can_build = λ m. true;
  names_response = λ items. [];
  values_response = λ items. [];
  attributes_response = λ items. [];
  set_response = λ m. b'0' ∷ [];
  set_fault = λ m faults. [];
}

abbrev param_names : ParamNames
param_names = record {
  dns_server0_real = b'0' ∷ [];
  dns_server1_real = b'1' ∷ [];
  manage_ser_password = b'M' ∷ [];
  pppoe_password = b'P' ∷ [];
  user_password = b'U' ∷ [];
  connection_request_password = b'C' ∷ [];
  tracert_diag_state = b'T' ∷ [];
  ping_diag_state = b'I' ∷ [];
  speed_test_enable = b'S' ∷ [];
  packet_lost_test_enable = b'L' ∷ [];
}

abbrev entry : Xml
entry = el value_struct_text [] (el name_text name_ip end (el value_text (b'1' ∷ []) end end)) end

abbrev message : Xml
message = el [] [] (el parameter_list_text [] entry end) end

abbrev idle : Idle
idle = record { speed_test = true; packet_lost = true }

message-entries : entries stb xml param_answers 5 message ≡ got (entry ∷ [])
unfolding entries argument siblings
message-entries = refl

entry_read : value_entry stb xml param_answers entry ≡ got (name_ip, b'1' ∷ [])
unfolding value_entry entry_name entry_next named text_of
entry_read = refl

ip_calls : calls_of param_names (name_ip, b'1' ∷ []) ≡ (name_ip, b'1' ∷ []) ∷ []
unfolding calls_of
ip_calls = refl

sound :
    All
      (IsSound stb xml param_answers libc indexes host box)
      (calls_of param_names (name_ip, b'1' ∷ []))
sound =
    rw ip_calls
      (((λ e. ground (arith, e, names_ip)), (λ p e. (3, ground (arith, e, ip_located)))), tt)

set_parameter_values_lem_example :
    (d : Done stb xml param_answers libc indexes host param_names) × (set_parameter_values stb xml
        param_answers libc indexes host param_names 5 box idle message run store
      ≡ some d)
    × (((d.ret ≡ pos 0)
          × SetAll stb xml param_answers libc indexes host param_names box
              ((name_ip, b'1' ∷ []) ∷ [])
              store
              d.store)
        ⊎ ((d.ret ≡ pos 9003)
            × (d.store ≡ store)
            × (d.run.control ≡ busy)
            × RefusesAny stb xml param_answers libc indexes host param_names box
                ((name_ip, b'1' ∷ []) ∷ [])))
set_parameter_values_lem_example =
    set_parameter_values_lem stb xml param_answers libc indexes host param_names box 5 idle message
      run store (entry ∷ []) ((name_ip, b'1' ∷ []) ∷ []) message-entries (entry_read, tt)
      (sound, tt) (λ e. ground (arith, e)) refl

-- A request for the names of the next level below "Device.LAN.".
abbrev names_message : Xml
names_message =
    el [] [] (el parameter_path_text name_lan end (el next_level_text (b'1' ∷ []) end end)) end

names_read : names_arguments stb xml param_answers names_message ≡ got (name_lan, 1)
unfolding names_arguments argument text_of named parse value
names_read = refl

get_parameter_names_lem_example :
    get_parameter_names stb xml param_answers box names_message run
    ≡ some (names_answer stb xml param_answers name_lan 1 run (source_of stb box name_lan))
get_parameter_names_lem_example =
    get_parameter_names_lem stb xml param_answers box names_message run name_lan 1 (omega arith)
      box-IsOwned names_read refl
