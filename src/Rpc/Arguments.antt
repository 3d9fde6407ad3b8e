-- ===== src/Rpc/Arguments.antt =====
-- The arguments of the methods Download, Upload and Reboot (tr069_rpc.c), which stand in a message
-- one after another: each is tested and stored before the next is looked at.
use tr.Base.{ℕ, ◌-◌, Option, none, some, List, [], ◌∷◌, length, leb, if◌then◌else◌, ℤ, pos, negsuc}
use tr.Platform.{Bytes}
use tr.CStr.{strcmp_eq}
use tr.Control.{Control, DownloadArgument, UploadArgument, copy_text}
use tr.Rpc.{Soap}

abbrev pub command_key_text : Bytes
command_key_text = b'C' ∷ b'o' ∷ b'm' ∷ b'm' ∷ b'a' ∷ b'n' ∷ b'd' ∷ b'K' ∷ b'e' ∷ b'y' ∷ []

abbrev pub file_type_text : Bytes
file_type_text = b'F' ∷ b'i' ∷ b'l' ∷ b'e' ∷ b'T' ∷ b'y' ∷ b'p' ∷ b'e' ∷ []

abbrev pub url_text : Bytes
url_text = b'U' ∷ b'R' ∷ b'L' ∷ []

abbrev pub username_text : Bytes
username_text = b'U' ∷ b's' ∷ b'e' ∷ b'r' ∷ b'n' ∷ b'a' ∷ b'm' ∷ b'e' ∷ []

abbrev pub password_text : Bytes
password_text = b'P' ∷ b'a' ∷ b's' ∷ b's' ∷ b'w' ∷ b'o' ∷ b'r' ∷ b'd' ∷ []

abbrev pub file_size_text : Bytes
file_size_text = b'F' ∷ b'i' ∷ b'l' ∷ b'e' ∷ b'S' ∷ b'i' ∷ b'z' ∷ b'e' ∷ []

abbrev pub target_file_name_text : Bytes
target_file_name_text =
    b'T' ∷ b'a' ∷ b'r' ∷ b'g' ∷ b'e' ∷ b't' ∷ b'F' ∷ b'i' ∷ b'l' ∷ b'e' ∷ b'N' ∷ b'a' ∷ b'm' ∷ b'e'
    ∷ []

abbrev pub delay_seconds_text : Bytes
delay_seconds_text =
    b'D' ∷ b'e' ∷ b'l' ∷ b'a' ∷ b'y' ∷ b'S' ∷ b'e' ∷ b'c' ∷ b'o' ∷ b'n' ∷ b'd' ∷ b's' ∷ []

abbrev pub success_url_text : Bytes
success_url_text = b'S' ∷ b'u' ∷ b'c' ∷ b'c' ∷ b'e' ∷ b's' ∷ b's' ∷ b'U' ∷ b'R' ∷ b'L' ∷ []

abbrev pub failure_url_text : Bytes
failure_url_text = b'F' ∷ b'a' ∷ b'i' ∷ b'l' ∷ b'u' ∷ b'r' ∷ b'e' ∷ b'U' ∷ b'R' ∷ b'L' ∷ []

-- An argument: its name, and what is stored of its text, or `none` where that is refused.
pub record Field : Type 0 where
  pub name : Bytes
  pub read : Bytes → Control → Option Control

-- A text for an array of `size` bytes.
abbrev pub text_field : Bytes → ℕ → (Bytes → Control → Control) → Field
text_field name size put = record {
  name = name;
  read = λ t c. if leb size (length t) then none else some (put (copy_text (size - 1) t) c);
}

-- A number that is not negative.
abbrev pub number_field : (Bytes → ℤ) → Bytes → (ℤ → Control → Control) → Field
number_field atoi name put = record {
  name = name;
  read = λ t c. elim (atoi t) [ pos n ↦ some (put (pos n) c) | negsuc n ↦ none ];
}

abbrev pub put_key : Bytes → Control → Control
put_key t c = record c { event = (let e = c.event in record e { command_key = t }) }

-- A write to `download_argument`, and one to `upload_argument`.
abbrev pub in_download : (DownloadArgument → DownloadArgument) → Control → Control
in_download f c = record c { download_argument = f c.download_argument }

abbrev pub in_upload : (UploadArgument → UploadArgument) → Control → Control
in_upload f c = record c { upload_argument = f c.upload_argument }

abbrev pub download_fields : (Bytes → ℤ) → List Field
download_fields atoi =
    text_field command_key_text 32 put_key
    ∷ text_field file_type_text 64 (λ t. in_download λ a. record a { file_type = t })
    ∷ text_field url_text 256 (λ t. in_download λ a. record a { url = t })
    ∷ text_field username_text 256 (λ t. in_download λ a. record a { username = t })
    ∷ text_field password_text 256 (λ t. in_download λ a. record a { password = t })
    ∷ number_field atoi file_size_text (λ n. in_download λ a. record a { file_size = n })
    ∷ text_field target_file_name_text 256 (λ t. in_download λ a. record a { target_file_name = t })
    ∷ number_field atoi delay_seconds_text (λ n. in_download λ a. record a { delay_seconds = n })
    ∷ text_field success_url_text 256 (λ t. in_download λ a. record a { success_url = t })
    ∷ text_field failure_url_text 256 (λ t. in_download λ a. record a { failure_url = t })
    ∷ []

abbrev pub upload_fields : (Bytes → ℤ) → List Field
upload_fields atoi =
    text_field command_key_text 32 put_key
    ∷ text_field file_type_text 64 (λ t. in_upload λ a. record a { file_type = t })
    ∷ text_field url_text 256 (λ t. in_upload λ a. record a { url = t })
    ∷ text_field username_text 256 (λ t. in_upload λ a. record a { username = t })
    ∷ text_field password_text 256 (λ t. in_upload λ a. record a { password = t })
    ∷ number_field atoi delay_seconds_text (λ n. in_upload λ a. record a { delay_seconds = n })
    ∷ []

-- Where the reading of arguments ends; `crash` reads the text of an element that has none.
pub data Parsed : Type 0 where
  all rejected : Control → Parsed
  crash : Parsed

module _ (L : Soap) where
  unfoldable pub parse : List Field → Option L.Node → Control → Parsed
  parse [] xml_node c = all c
  parse (f ∷ fs) none c = rejected c
  parse (f ∷ fs) (some xml_node) c =
      if strcmp_eq f.name (L.name xml_node)
      then elim (L.get_content xml_node) [
        | none ↦ crash
        | some t ↦ elim (f.read t c) [
          | none ↦ rejected c
          | some c' ↦ parse fs (L.get_next xml_node) c'
        ]
      ]
      else rejected c

  -- `get_child(get_method(soap))`, NULL for NULL.
  unfoldable pub first_argument : L.Doc → Option L.Node
  first_argument doc = elim (L.get_method doc) [
    | none ↦ none
    | some xml_node ↦ L.get_child xml_node
  ]
