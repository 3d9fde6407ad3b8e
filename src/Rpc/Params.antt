-- ===== src/Rpc/Params.antt =====
-- What the five methods of tr069_rpc.c that work on parameters share: their texts, the list of the
-- elements of a message, and the answers, which libsoap and libxml make and which are parameters.
use tr.Base.{
  ◌-◌, ℕ, zero, suc, Bool, Option, none, some, List, [], ◌∷◌, length, leb, ◌==◌, ◌%◌, if◌then◌else◌,
  ℤ, pos, negsuc,
}
use mathlib.Core.Option
use tr.Platform.{Bytes}
use tr.CStr.{strcmp_eq}
use tr.Rpc.{Soap, Method, Run, Message}
use tr.Rpc.Methods.{Answers, answer_fault}
use tr.Param.{DataType}

abbrev pub parameter_names_text : Bytes
parameter_names_text =
    b'P' ∷ b'a' ∷ b'r' ∷ b'a' ∷ b'm' ∷ b'e' ∷ b't' ∷ b'e' ∷ b'r' ∷ b'N' ∷ b'a' ∷ b'm' ∷ b'e' ∷ b's'
    ∷ []

abbrev pub parameter_name_text : Bytes
parameter_name_text =
    b'P' ∷ b'a' ∷ b'r' ∷ b'a' ∷ b'm' ∷ b'e' ∷ b't' ∷ b'e' ∷ b'r' ∷ b'N' ∷ b'a' ∷ b'm' ∷ b'e' ∷ []

abbrev pub string_text : Bytes
string_text = b's' ∷ b't' ∷ b'r' ∷ b'i' ∷ b'n' ∷ b'g' ∷ []

abbrev pub parameter_path_text : Bytes
parameter_path_text =
    b'P' ∷ b'a' ∷ b'r' ∷ b'a' ∷ b'm' ∷ b'e' ∷ b't' ∷ b'e' ∷ b'r' ∷ b'P' ∷ b'a' ∷ b't' ∷ b'h' ∷ []

abbrev pub next_level_text : Bytes
next_level_text = b'N' ∷ b'e' ∷ b'x' ∷ b't' ∷ b'L' ∷ b'e' ∷ b'v' ∷ b'e' ∷ b'l' ∷ []

abbrev pub parameter_list_text : Bytes
parameter_list_text =
    b'P' ∷ b'a' ∷ b'r' ∷ b'a' ∷ b'm' ∷ b'e' ∷ b't' ∷ b'e' ∷ b'r' ∷ b'L' ∷ b'i' ∷ b's' ∷ b't' ∷ []

abbrev pub value_struct_text : Bytes
value_struct_text =
    b'P' ∷ b'a' ∷ b'r' ∷ b'a' ∷ b'm' ∷ b'e' ∷ b't' ∷ b'e' ∷ b'r' ∷ b'V' ∷ b'a' ∷ b'l' ∷ b'u' ∷ b'e'
    ∷ b'S' ∷ b't' ∷ b'r' ∷ b'u' ∷ b'c' ∷ b't' ∷ []

abbrev pub attributes_struct_text : Bytes
attributes_struct_text =
    b'S' ∷ b'e' ∷ b't' ∷ b'P' ∷ b'a' ∷ b'r' ∷ b'a' ∷ b'm' ∷ b'e' ∷ b't' ∷ b'e' ∷ b'r' ∷ b'A' ∷ b't'
    ∷ b't' ∷ b'r' ∷ b'i' ∷ b'b' ∷ b'u' ∷ b't' ∷ b'e' ∷ b's' ∷ b'S' ∷ b't' ∷ b'r' ∷ b'u' ∷ b'c'
    ∷ b't' ∷ []

abbrev pub name_text : Bytes
name_text = b'N' ∷ b'a' ∷ b'm' ∷ b'e' ∷ []

abbrev pub value_text : Bytes
value_text = b'V' ∷ b'a' ∷ b'l' ∷ b'u' ∷ b'e' ∷ []

abbrev pub notification_change_text : Bytes
notification_change_text =
    b'N' ∷ b'o' ∷ b't' ∷ b'i' ∷ b'f' ∷ b'i' ∷ b'c' ∷ b'a' ∷ b't' ∷ b'i' ∷ b'o' ∷ b'n' ∷ b'C' ∷ b'h'
    ∷ b'a' ∷ b'n' ∷ b'g' ∷ b'e' ∷ []

abbrev pub notification_text : Bytes
notification_text =
    b'N' ∷ b'o' ∷ b't' ∷ b'i' ∷ b'f' ∷ b'i' ∷ b'c' ∷ b'a' ∷ b't' ∷ b'i' ∷ b'o' ∷ b'n' ∷ []

abbrev pub dns_servers_text : Bytes
dns_servers_text =
    b'D' ∷ b'e' ∷ b'v' ∷ b'i' ∷ b'c' ∷ b'e' ∷ b'.' ∷ b'L' ∷ b'A' ∷ b'N' ∷ b'.' ∷ b'D' ∷ b'N' ∷ b'S'
    ∷ b'S' ∷ b'e' ∷ b'r' ∷ b'v' ∷ b'e' ∷ b'r' ∷ b's' ∷ []

abbrev pub xsd_text : Bytes
xsd_text = b'x' ∷ b's' ∷ b'd' ∷ b':' ∷ []

abbrev pub xsd_string_text : Bytes
xsd_string_text = b'x' ∷ b's' ∷ b'd' ∷ b':' ∷ b's' ∷ b't' ∷ b'r' ∷ b'i' ∷ b'n' ∷ b'g' ∷ []

abbrev pub xsd_int_text : Bytes
xsd_int_text = b'x' ∷ b's' ∷ b'd' ∷ b':' ∷ b'i' ∷ b'n' ∷ b't' ∷ []

abbrev pub yes_text : Bytes
yes_text = b'T' ∷ b'r' ∷ b'u' ∷ b'e' ∷ []

abbrev pub no_text : Bytes
no_text = b'F' ∷ b'a' ∷ b'l' ∷ b's' ∷ b'e' ∷ []

-- tr069_data_type_name; `none` is NULL.
abbrev pub data_type_name : DataType → Option Bytes
data_type_name DataType.object = some (b'o' ∷ b'b' ∷ b'j' ∷ b'e' ∷ b'c' ∷ b't' ∷ [])
data_type_name DataType.string = some (b's' ∷ b't' ∷ b'r' ∷ b'i' ∷ b'n' ∷ b'g' ∷ [])
data_type_name DataType.int = some (b'i' ∷ b'n' ∷ b't' ∷ [])
data_type_name DataType.unsigned_int =
    some (b'u' ∷ b'n' ∷ b's' ∷ b'i' ∷ b'g' ∷ b'n' ∷ b'e' ∷ b'd' ∷ b'I' ∷ b'n' ∷ b't' ∷ [])
data_type_name DataType.boolean = some (b'b' ∷ b'o' ∷ b'o' ∷ b'l' ∷ b'e' ∷ b'a' ∷ b'n' ∷ [])
data_type_name DataType.date_time =
    some (b'd' ∷ b'a' ∷ b't' ∷ b'e' ∷ b'T' ∷ b'i' ∷ b'm' ∷ b'e' ∷ [])
data_type_name DataType.base64 = some (b'b' ∷ b'a' ∷ b's' ∷ b'e' ∷ b'6' ∷ b'4' ∷ [])
data_type_name DataType.other = none

-- An entry of the answer to a request for values or attributes: the name, the text and its type.
pub record Item : Type 0 where
  pub name : Bytes
  pub value : Bytes
  pub type : Bytes

-- The answers as they are sent, the fault codes, and whether the document of a response can be
-- built, libsoap_method_new and libsoap_get_method not failing. The response to a request for names
-- has names and whether they are writable; a fault with entries has names and fault codes.
pub record ParamAnswers : Type 0 where
  pub answers : Answers
  pub invalid_parameter_name : ℕ
  pub invalid_parameter_type : ℕ
  pub invalid_parameter_value : ℕ
  pub parameter_not_writable : ℕ
  pub can_build : Method → Bool
  pub names_response : List (Bytes × Bytes) → Bytes
  pub values_response : List Item → Bytes
  pub attributes_response : List Item → Bytes
  pub set_response : Method → Bytes
  pub set_fault : Method → List (Bytes × ℕ) → Bytes

-- The entries of tr069_parameter_name_table that the methods read; none of them is NULL.
pub record ParamNames : Type 0 where
  pub dns_server0_real : Bytes
  pub dns_server1_real : Bytes
  pub manage_ser_password : Bytes
  pub pppoe_password : Bytes
  pub user_password : Bytes
  pub connection_request_password : Bytes
  pub tracert_diag_state : Bytes
  pub ping_diag_state : Bytes
  pub speed_test_enable : Bytes
  pub packet_lost_test_enable : Bytes

-- The elements of a level from one of them on, in `fuel` steps of tr069_libsoap_get_next; `none`
-- where there are more.
unfoldable pub siblings : (L : Soap) → ℕ → Option L.Node → Option (List L.Node)
siblings L fuel none = some []
siblings L zero (some node) = none
siblings L (suc fuel) (some node) =
    Option.map (λ nodes. node ∷ nodes) (siblings L fuel (L.get_next node))

-- The child of the method's element, where it has a name; the methods answer with invalid arguments
-- where there is none.
unfoldable pub argument : (L : Soap) → Bytes → L.Doc → Option L.Node
argument L name doc = elim (L.get_method doc) [
  | none ↦ none
  | some method ↦ elim (L.get_child method) [
    | none ↦ none
    | some node ↦ if strcmp_eq name (L.name node) then some node else none
  ]
]

-- What is read of an element's text, or of a whole struct: the fault that it is answered with, or a
-- text of NULL.
pub data Read {ℓ} (A : Type ℓ) : Type ℓ where
  got : A → Read A
  bad : ℕ → Read A
  null : Read A

infixl 5 ◌>>=◌
abbrev pub ◌>>=◌ {ℓ κ} : {A : Type ℓ} {B : Type κ} → Read A → (A → Read B) → Read B
got a >>= f = f a
bad code >>= f = bad code
null >>= f = null

-- The text of an element, for an array of `size` bytes; `code` is the fault of a longer one.
unfoldable pub text_of : (L : Soap) → (size code : ℕ) → L.Node → Read Bytes
text_of L size code node = elim (L.get_content node) [
  | none ↦ null
  | some t ↦ if leb size (length t) then bad code else got t
]

-- An element that is there, with this name.
unfoldable pub named : (L : Soap) → (code : ℕ) → Bytes → Option L.Node → Read L.Node
named L code name none = bad code
named L code name (some node) = if strcmp_eq (L.name node) name then got node else bad code

-- The answer `text` with return code 0.
abbrev pub answer : Bytes → Run → ℤ × Run
answer t r = (pos 0, record r { xml_buffer = Message.text t })

-- A fault of the code, where it is made of it alone.
abbrev pub refuse : ParamAnswers → ℕ → Run → ℤ × Run
refuse A code r = answer_fault A.answers code r

-- A number kept as UINT8_T.
abbrev pub uint8_of : ℤ → ℕ
uint8_of (pos n) = n % 256
uint8_of (negsuc n) = 255 - n % 256

-- A value at its first comma, where it has one.
unfoldable pub split_comma : Bytes → Option (Bytes × Bytes)
split_comma [] = none
split_comma (c ∷ cs) =
    let rest = Option.map (λ (t : Bytes × Bytes). (c ∷ t.0, t.1)) (split_comma cs) in
    if c == b',' then some ([], cs) else rest
