-- ===== src/Rpc/Refusal.antt =====
-- tr069_rpc_download and tr069_rpc_upload (tr069_rpc.c) on a message that they refuse.
use mathlib.Core.Path.{subst}
use tr.Base.{
  ℕ, ◌≡◌, ◌≢◌, refl, ◌∙◌, inl, inr, ◌⊎◌, Option, none, some, List, [], ◌∷◌, arith, length, leb, ◌-◌,
  ℤ, pos, negsuc, Bool-cases, Option-cases, All,
}
use tr.Platform.{Platform, Bytes}
use tr.CStr.{strcmp_eq}
use tr.Control.{Control, Task, copy_text}
use tr.Rpc.{Run, Soap}
use tr.Rpc.Arguments.{
  Parsed, all, rejected, crash, Field, parse, first_argument, text_field, number_field,
  download_fields, upload_fields, command_key_text, delay_seconds_text, failure_url_text,
  file_size_text, file_type_text, in_download, in_upload, password_text, put_key, success_url_text,
  target_file_name_text, url_text, username_text,
}
use tr.Rpc.Methods.{Answers, answer_fault, answer_parsed, download, upload, with_control}
use tr.Rpc.Transfer.{accept_transfer-reply}

-- Storing an argument leaves the task queue alone.
abbrev KeepsQueue : Field → Type 0
KeepsQueue f = (t : Bytes) (c c' : Control) → f.read t c ≡ some c' → c'.task_queue ≡ c.task_queue

-- Where the reading of arguments ends with a manager, its task queue is the one of before.
abbrev QueueOf : Parsed → Control → Type 0
QueueOf (all c') c = c'.task_queue ≡ c.task_queue
QueueOf (rejected c') c = c'.task_queue ≡ c.task_queue
QueueOf crash c = Unit {0}

text_field-KeepsQueue :
    (name : Bytes) (size : ℕ) (put : Bytes → Control → Control)
    → ((t : Bytes) (c : Control) → (put t c).task_queue ≡ c.task_queue)
    → KeepsQueue (text_field name size put)
text_field-KeepsQueue name size put k t c c' e = elim (Bool-cases (leb size (length t))) [
  | inl long ↦ absurd (ground (arith, long, e))
  | inr short ↦ ground (arith, short, e, k (copy_text (size - 1) t) c)
]

number_field-KeepsQueue :
    (atoi : Bytes → ℤ) (name : Bytes) (put : ℤ → Control → Control)
    → ((n : ℤ) (c : Control) → (put n c).task_queue ≡ c.task_queue)
    → KeepsQueue (number_field atoi name put)
number_field-KeepsQueue atoi name put k t c c' e = on_number (atoi t) e
  where
    on_number :
        (n : ℤ)
        → elim n [ pos m ↦ some (put (pos m) c) | negsuc m ↦ none ] ≡ some c'
        → c'.task_queue ≡ c.task_queue
    on_number (pos m) e = ground (arith, e, k (pos m) c)
    on_number (negsuc m) e = cc

parse-QueueOf :
    (L : Soap) (fs : List Field) (xml_node : Option L.Node) (c : Control)
    → All KeepsQueue fs
    → QueueOf (parse L fs xml_node c) c
unfolding parse
parse-QueueOf L [] xml_node c k = refl
parse-QueueOf L (f ∷ fs) none c k = refl
parse-QueueOf L (f ∷ fs) (some xml_node) c k =
    elim (Bool-cases (strcmp_eq f.name (L.name xml_node))) [
      | inr other ↦ rw (other, parse) refl
      | inl same ↦ elim (Option-cases (L.get_content xml_node)) [
        | inl empty ↦ rw (same, empty, parse) tt
        | inr (t, content) ↦ elim (Option-cases (f.read t c)) [
          | inl bad ↦ rw (same, content, bad, parse) refl
          | inr (c', good) ↦
              rw (same, content, good, parse)
                (moved (parse L fs (L.get_next xml_node) c') c' (k.0 t c c' good)
                  (parse-QueueOf L fs (L.get_next xml_node) c' k.1))
        ]
      ]
    ]
  where
    moved : (p : Parsed) (c' : Control) → c'.task_queue ≡ c.task_queue → QueueOf p c' → QueueOf p c
    moved (all d) c' e q = q ∙ e
    moved (rejected d) c' e q = q ∙ e
    moved crash c' e q = tt

-- What a request leaves when its answer is not 0 and comes with a run.
abbrev Refusal : Run → Option (ℤ × Run) → Type 0
Refusal r none = Unit {0}
Refusal r (some (ret, r')) = ret ≢ pos 0 → r'.control.task_queue ≡ r.control.task_queue

answer_fault-Refusal :
    (A : Answers) (code : ℕ) (r : Run) (c : Control)
    → c.task_queue ≡ r.control.task_queue
    → Refusal r (some (answer_fault A code (with_control r c)))
unfolding answer_fault
answer_fault-Refusal A code r c e = elim (Option-cases (A.fault code)) [
  | inl n ↦ rw (n, answer_fault) (λ w. e)
  | inr (t, y) ↦ rw (y, answer_fault) (λ w. e)
]

answer_parsed-Refusal :
    (A : Answers) (t : Task) (r : Run) (reply : Bytes)
    → A.transfer_response t ≡ some reply
    → (p : Parsed) → QueueOf p r.control
    → Refusal r (answer_parsed A t r p)
unfolding answer_parsed
answer_parsed-Refusal A t r reply a (all c) q =
    rw (accept_transfer-reply A t (with_control r c) reply a) (λ w. absurd (w refl))
answer_parsed-Refusal A t r reply a (rejected c) q =
    answer_fault-Refusal A A.invalid_arguments r c q
answer_parsed-Refusal A t r reply a crash q = tt

at_result :
    (r : Run) (o : Option (ℤ × Run)) (ret : ℤ) (r' : Run)
    → Refusal r o
    → o ≡ some (ret, r')
    → ret ≢ pos 0
    → r'.control.task_queue ≡ r.control.task_queue
at_result r o ret r' h e = subst (Refusal r) e h

download_keep : (P : Platform) → All KeepsQueue (download_fields P.atoi)
download_keep P = (
  text_field-KeepsQueue command_key_text 32 put_key (λ t c. refl),
  (
    text_field-KeepsQueue file_type_text 64 (λ t. in_download λ a. record a { file_type = t })
        (λ t c. refl),
    (
      text_field-KeepsQueue url_text 256 (λ t. in_download λ a. record a { url = t }) (λ t c. refl),
      (
        text_field-KeepsQueue username_text 256 (λ t. in_download λ a. record a { username = t })
            (λ t c. refl),
        (
          text_field-KeepsQueue password_text 256 (λ t. in_download λ a. record a { password = t })
              (λ t c. refl),
          (
            number_field-KeepsQueue P.atoi file_size_text
                (λ n. in_download λ a. record a { file_size = n }) (λ t c. refl),
            (
              text_field-KeepsQueue target_file_name_text 256
                  (λ t. in_download λ a. record a { target_file_name = t }) (λ t c. refl),
              (
                number_field-KeepsQueue P.atoi delay_seconds_text
                    (λ n. in_download λ a. record a { delay_seconds = n }) (λ t c. refl),
                (
                  text_field-KeepsQueue success_url_text 256
                      (λ t. in_download λ a. record a { success_url = t }) (λ t c. refl),
                  (
                    text_field-KeepsQueue failure_url_text 256
                        (λ t. in_download λ a. record a { failure_url = t }) (λ t c. refl),
                    tt,
                  ),
                ),
              ),
            ),
          ),
        ),
      ),
    ),
  ),
)

upload_keep : (P : Platform) → All KeepsQueue (upload_fields P.atoi)
upload_keep P = (
  text_field-KeepsQueue command_key_text 32 put_key (λ t c. refl),
  (
    text_field-KeepsQueue file_type_text 64 (λ t. in_upload λ a. record a { file_type = t })
        (λ t c. refl),
    (
      text_field-KeepsQueue url_text 256 (λ t. in_upload λ a. record a { url = t }) (λ t c. refl),
      (
        text_field-KeepsQueue username_text 256 (λ t. in_upload λ a. record a { username = t })
            (λ t c. refl),
        (
          text_field-KeepsQueue password_text 256 (λ t. in_upload λ a. record a { password = t })
              (λ t c. refl),
          (
            number_field-KeepsQueue P.atoi delay_seconds_text
                (λ n. in_upload λ a. record a { delay_seconds = n }) (λ t c. refl),
            tt,
          ),
        ),
      ),
    ),
  ),
)

module _ (P : Platform) (L : Soap) (A : Answers) where
  -- Where the responses to a transfer can be built, a Download or an Upload message that is answered
  -- with a result other than 0 leaves the task queue as it was.
  pub transfer-fault :
      (doc : L.Doc) (r : Run) (ret : ℤ) (r' : Run)
      → ((t : Task) → (reply : Bytes) × (A.transfer_response t ≡ some reply))
      → ret ≢ pos 0
      → (download P L A doc r ≡ some (ret, r')) ⊎ (upload P L A doc r ≡ some (ret, r'))
      → r'.control.task_queue ≡ r.control.task_queue
  unfolding download upload
  transfer-fault doc r ret r' a w (inl e) =
      at_result r (download P L A doc r) ret r'
        (answer_parsed-Refusal A Task.download r (a Task.download).0 (a Task.download).1
          (parse L (download_fields P.atoi) (first_argument L doc) r.control)
          (parse-QueueOf L (download_fields P.atoi) (first_argument L doc) r.control
            (download_keep P)))
        e w
  transfer-fault doc r ret r' a w (inr e) =
      at_result r (upload P L A doc r) ret r'
        (answer_parsed-Refusal A Task.upload r (a Task.upload).0 (a Task.upload).1
          (parse L (upload_fields P.atoi) (first_argument L doc) r.control)
          (parse-QueueOf L (upload_fields P.atoi) (first_argument L doc) r.control (upload_keep P)))
        e w
