-- ===== src/Rpc/Methods.antt =====
-- Methods of the server in tr069_rpc.c that give the device a task: Download, Upload, Reboot and
-- FactoryReset, and the answer to a method that the device does not have. The texts of the answers
-- are made by libsoap and libxml, which are not part of the repository: they are parameters.
use tr.Base.{ℕ, Option, none, some, if◌then◌else◌, ℤ, pos, minus_one}
use tr.Platform.{Platform, Bytes}
use tr.CStr.{strcmp_eq}
use tr.Control.{Control, Task, copy_text}
use tr.Control
use tr.Rpc.{Run, Soap, Message}
use tr.Rpc.Arguments.{
  Parsed, all, rejected, crash, parse, first_argument, download_fields, upload_fields,
  command_key_text,
}

-- The answers as they are sent: a fault (`none` where tr069_rpc_build_fault fails), the response to a
-- transfer with its status 1 (`none` where it cannot be built), the other two; and the fault codes.
pub record Answers : Type 0 where
  pub fault : ℕ → Option Bytes
  pub transfer_response : Task → Option Bytes
  pub reboot_response : Bytes
  pub factory_reset_response : Bytes
  pub method_not_supported : ℕ
  pub internal_error : ℕ
  pub invalid_arguments : ℕ

-- `goto FAULT` with a fault code, and its label.
unfoldable pub answer_fault : Answers → ℕ → Run → ℤ × Run
answer_fault A code r = elim (A.fault code) [
  | none ↦ (minus_one, r)
  | some t ↦ (pos code, record r { xml_buffer = Message.text t })
]

abbrev pub with_control : Run → Control → Run
with_control r c = record r { control = c }

abbrev pub with_task : Run → Task → Run
with_task r t = record r { control = (Control.put_task r.control t).1 }

-- A transfer whose arguments were all stored: the task, then the answer.
unfoldable pub accept_transfer : Answers → Task → Run → ℤ × Run
accept_transfer A t r = elim (A.transfer_response t) [
  | none ↦ answer_fault A A.internal_error (with_task r t)
  | some text ↦ (pos 0, (let r' = with_task r t in record r' { xml_buffer = Message.text text }))
]

unfoldable pub answer_parsed : Answers → Task → Run → Parsed → Option (ℤ × Run)
answer_parsed A t r (all c) = some (accept_transfer A t (with_control r c))
answer_parsed A t r (rejected c) = some (answer_fault A A.invalid_arguments (with_control r c))
answer_parsed A t r crash = none

-- The command key of a reboot, where the message has one.
unfoldable pub command_key_of : (L : Soap) → L.Doc → Option Bytes
command_key_of L doc = elim (first_argument L doc) [
  | none ↦ none
  | some node ↦ if strcmp_eq command_key_text (L.name node) then L.get_content node else none
]

module _ (P : Platform) (L : Soap) (A : Answers) where
  -- tr069_rpc_download and tr069_rpc_upload; `none` follows NULL.
  unfoldable pub download : L.Doc → Run → Option (ℤ × Run)
  download doc r =
      answer_parsed A Task.download r
        (parse L (download_fields P.atoi) (first_argument L doc) r.control)

  unfoldable pub upload : L.Doc → Run → Option (ℤ × Run)
  upload doc r =
      answer_parsed A Task.upload r
        (parse L (upload_fields P.atoi) (first_argument L doc) r.control)

  -- The key of a reboot is cut to its array.
  abbrev keyed : Run → Bytes → Run
  keyed r t =
      let c = r.control in
      with_control r
        (record c { event = (let e = c.event in record e { command_key = copy_text 31 t }) })

  -- tr069_rpc_reboot
  unfoldable pub reboot : L.Doc → Run → ℤ × Run
  reboot doc r = elim (command_key_of L doc) [
    | none ↦ answer_fault A A.invalid_arguments r
    | some key ↦ (
      pos 0,
      (let r' = with_task (keyed r key) Task.reboot in
          record r' { xml_buffer = Message.text A.reboot_response }),
    )
  ]

  -- tr069_rpc_factory_reset
  unfoldable pub factory_reset : L.Doc → Run → ℤ × Run
  factory_reset doc r = (
    pos 0,
    (let r' = with_task r Task.factory_reset in
        record r' { xml_buffer = Message.text A.factory_reset_response }),
  )

  -- tr069_rpc_unknown_rpc
  unfoldable pub unknown_rpc : L.Doc → Run → ℤ × Run
  unknown_rpc doc r = answer_fault A A.method_not_supported r
