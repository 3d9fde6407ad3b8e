-- ===== src/Rpc/Served.antt =====
-- tr069_rpc_reboot, and what the methods of tr069_rpc.c leave as it was.
use mathlib.Core.Path.{subst}
use tr.Base.{
  ℕ, ◌≡◌, ◌≢◌, refl, sym, ap, ◌∙◌, inl, inr, true, Option, none, some, arith, take, ℤ, pos,
  Option-cases,
}
use tr.Platform.{Platform, Bytes}
use tr.Ring.Fifo.{IsValid}
use tr.Control.{Control, Task, DownloadArgument}
use tr.Control
use tr.Control.Queues.{tasks, put_result, put_task_lem}
use tr.Rpc.{Run, Soap, Message, Method}
use tr.Rpc.Kept.{Kept, Kept-refl, Keeps}
use tr.Rpc.Methods.{
  Answers, answer_fault, reboot, factory_reset, unknown_rpc, with_task, with_control,
  command_key_of,
}
use tr.Rpc.Transfer.{tasks-with_task}

reboot_valid : Control.is_valid_task Task.reboot ≡ true
unfolding Control.is_valid_task
reboot_valid = refl

factory_reset_valid : Control.is_valid_task Task.factory_reset ≡ true
unfolding Control.is_valid_task
factory_reset_valid = refl

module _ (P : Platform) (L : Soap) (A : Answers) where
  -- A Reboot message with a command key returns 0, keeps the key, as far as its array goes, and puts
  -- the reboot behind the waiting tasks where there is room; any other Reboot message is answered by
  -- a fault and leaves the control manager alone.
  pub reboot_lem :
      (doc : L.Doc) (r : Run)
      → IsValid r.control.task_queue
      → A.invalid_arguments ≢ 0
      → let (ret, r') = reboot P L A doc r in
        ((key : Bytes)
          → command_key_of L doc ≡ some key
          → (ret ≡ pos 0)
            × (r'.control.event.command_key ≡ take 31 key)
            × (tasks r'.control ≡ (put_result true (tasks r.control) Task.reboot).1))
        × (command_key_of L doc ≡ none → (ret ≢ pos 0) × (r'.control ≡ r.control))
  reboot_lem doc r v n = (
    λ key e.
        let (queued, same, v') = tasks-with_task (keyed key) Task.reboot v reboot_valid in
        (
          ap (λ (t : ℤ × Run). t.0) (with_key key e),
          ap (λ (t : ℤ × Run). t.1.control.event.command_key) (with_key key e)
              ∙ ap (λ (x : Control). x.event.command_key) same,
          ap (λ (t : ℤ × Run). tasks t.1.control) (with_key key e) ∙ queued,
        ),
    λ e. (
      λ z. fault_code (sym (ap (λ (t : ℤ × Run). t.0) (without e)) ∙ z),
      ap (λ (t : ℤ × Run). t.1.control) (without e) ∙ fault_control,
    ),
  )
    where
      keyed : Bytes → Run
      keyed key =
          let c = r.control in
          with_control r
            (record c { event = (let e = c.event in record e { command_key = take 31 key }) })

      with_key :
          (key : Bytes)
          → command_key_of L doc ≡ some key
          → reboot P L A doc r ≡ (
            pos 0,
            (let r' = with_task (keyed key) Task.reboot in
                record r' { xml_buffer = Message.text A.reboot_response }),
          )
      with_key key e = unfold reboot in rw (reboot, e) refl

      without :
          command_key_of L doc ≡ none → reboot P L A doc r ≡ answer_fault A A.invalid_arguments r
      without e = unfold reboot in rw (reboot, e) refl

      fault_code : (answer_fault A A.invalid_arguments r).0 ≢ pos 0
      fault_code = unfold answer_fault in ground (arith, n)

      fault_control : (answer_fault A A.invalid_arguments r).1.control ≡ r.control
      fault_control = unfold answer_fault in ground (arith)

-- The methods that are modelled, among the others of the device.
abbrev pub served :
    (P : Platform) (L : Soap)
    → Answers
    → (Method → L.Doc → Run → Option (ℤ × Run))
    → Method
    → L.Doc
    → Run
    → Option (ℤ × Run)
served P L A others Method.reboot doc r = some (reboot P L A doc r)
served P L A others Method.factory_reset doc r = some (factory_reset P L A doc r)
served P L A others Method.unknown_rpc doc r = some (unknown_rpc P L A doc r)
served P L A others m doc r = others m doc r

answer_fault-Kept : (A : Answers) (code : ℕ) (r : Run) → Kept r (answer_fault A code r).1
unfolding answer_fault
answer_fault-Kept A code r = elim (Option-cases (A.fault code)) [
  | inl e ↦ rw (answer_fault, e) (Kept-refl r)
  | inr (t, e) ↦ rw (answer_fault, e) (kept t)
]
  where
    kept : (t : Bytes) → Kept r (record r { xml_buffer = Message.text t })
    kept t = record { same_status = refl; same_replies = refl; same_sent = refl; ring = λ v. v }

-- A task and an answer.
tasked-Kept :
    (r : Run) (c : Control) (t : Task) (text : Bytes)
    → c.task_queue ≡ r.control.task_queue
    → Kept r
        (let r' = with_task (with_control r c) t in record r' { xml_buffer = Message.text text })
tasked-Kept r c t text e = record {
  same_status = refl;
  same_replies = refl;
  same_sent = refl;
  ring = λ v. (put_task_lem c t (subst IsValid (sym e) v)).2;
}

reboot-Kept :
    (P : Platform) (L : Soap) (A : Answers) (doc : L.Doc) (r : Run) → Kept r (reboot P L A doc r).1
unfolding reboot
reboot-Kept P L A doc r = elim (Option-cases (command_key_of L doc)) [
  | inl e ↦ rw (reboot, e) (answer_fault-Kept A A.invalid_arguments r)
  | inr (key, e) ↦
      rw (reboot, e)
        (tasked-Kept r
          (let c = r.control in
            record c { event = (let e = c.event in record e { command_key = take 31 key }) })
          Task.reboot A.reboot_response refl)
]

-- If the other methods keep what the session relies on, so do all of them.
pub served-Keeps :
    (P : Platform) (L : Soap) (A : Answers) (others : Method → L.Doc → Run → Option (ℤ × Run))
    → Keeps L others
    → Keeps L (served P L A others)
served-Keeps P L A others k Method.reboot doc r = reboot-Kept P L A doc r
served-Keeps P L A others k Method.factory_reset doc r =
    unfold factory_reset in tasked-Kept r r.control Task.factory_reset A.factory_reset_response refl
served-Keeps P L A others k Method.unknown_rpc doc r =
    unfold unknown_rpc in answer_fault-Kept A A.method_not_supported r
served-Keeps P L A others k m doc r = k m doc r
