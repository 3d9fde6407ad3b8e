-- ===== src/Rpc/Transfer.antt =====
-- tr069_rpc_download (tr069_rpc.c) on a message with the arguments that it wants.
use Prim.Native.Nat.{compare, Ordering}
use tr.Base.{
  ℕ, ◌<◌, ◌≤◌, ◌≡◌, refl, ap, ◌∙◌, inl, inr, true, Option, none, some, List, [], ◌∷◌, arith, length,
  take, take-of_le, ℤ, pos, Option-cases,
}
use tr.Platform.{Platform, Bytes}
use tr.CStr.{strcmp_eq}
use tr.Ring.Fifo.{IsValid}
use tr.Control.{Control, Task, DownloadArgument}
use tr.Control
use tr.Control.Queues.{tasks, put_result, put_task_lem}
use tr.Rpc.{Run, Soap, Message}
use tr.Rpc.Arguments.{all, Field, parse, first_argument, download_fields}
use tr.Rpc.Methods.{Answers, answer_parsed, accept_transfer, download, with_task, with_control}

-- A message holds some arguments: elements with the fields' names, in their order, with these texts.
abbrev pub Holds : (L : Soap) → List Field → Option L.Node → List Bytes → Type 0
Holds L [] xml_node ts = Unit {0}
Holds L (f ∷ fs) none ts = ⊥
Holds L (f ∷ fs) (some xml_node) [] = ⊥
Holds L (f ∷ fs) (some xml_node) (t ∷ ts) =
    (strcmp_eq f.name (L.name xml_node) ≡ true)
    × (L.get_content xml_node ≡ some t)
    × Holds L fs (L.get_next xml_node) ts

-- What reading the texts leaves; `none` where one is refused.
abbrev pub read_all : List Field → List Bytes → Control → Option Control
read_all [] ts c = some c
read_all (f ∷ fs) [] c = none
read_all (f ∷ fs) (t ∷ ts) c = elim (f.read t c) [ none ↦ none | some c' ↦ read_all fs ts c' ]

parse-Holds :
    (L : Soap) (fs : List Field) (xml_node : Option L.Node) (ts : List Bytes) (c c' : Control)
    → Holds L fs xml_node ts
    → read_all fs ts c ≡ some c'
    → parse L fs xml_node c ≡ all c'
unfolding parse
parse-Holds L [] xml_node ts c c' h r = ground (arith, r)
parse-Holds L (f ∷ fs) none ts c c' h r = elim h [ ]
parse-Holds L (f ∷ fs) (some xml_node) [] c c' h r = elim h [ ]
parse-Holds L (f ∷ fs) (some xml_node) (t ∷ ts) c c' h r = elim (Option-cases (f.read t c)) [
  | inl bad ↦ absurd (ground (arith, bad, r))
  | inr (d, good) ↦
      rw (h.0, h.1, good)
        (parse-Holds L fs (L.get_next xml_node) ts d c' h.2 (ground (arith, good, r)))
]

-- The task queue after a task that is one of the device's.
pub tasks-with_task :
    (r : Run) (t : Task)
    → IsValid r.control.task_queue
    → Control.is_valid_task t ≡ true
    → (tasks (with_task r t).control ≡ (put_result true (tasks r.control) t).1)
      × ((with_task r t).control
          ≡ record r.control { task_queue = (with_task r t).control.task_queue })
      × IsValid (with_task r t).control.task_queue
tasks-with_task r t v good =
    let (e, same, v') = put_task_lem r.control t v in
    (
      ap (λ (q : ℤ × List Task). q.1) e ∙ ap (λ b. (put_result b (tasks r.control) t).1) good,
      same,
      v',
    )

download_valid : Control.is_valid_task Task.download ≡ true
unfolding Control.is_valid_task
download_valid = refl

cut_short : (n : ℕ) (t : Bytes) → length t ≤ n → take n t ≡ t
cut_short n t h = take-of_le n t h

pub accept_transfer-reply :
    (A : Answers) (t : Task) (r : Run) (reply : Bytes)
    → A.transfer_response t ≡ some reply
    → accept_transfer A t r
      ≡ (pos 0, (let r' = with_task r t in record r' { xml_buffer = Message.text reply }))
unfolding accept_transfer
accept_transfer-reply A t r reply a = rw (accept_transfer, a) refl

-- The tests of the arguments of a download.
abbrev pub Fits : (key type url user password target success failure : Bytes) → Type 0
Fits key type url user password target success failure =
    (length key < 32)
    × (length type < 64)
    × (length url < 256)
    × (length user < 256)
    × (length password < 256)
    × (length target < 256)
    × (length success < 256)
    × (length failure < 256)

module _ (P : Platform) (L : Soap) (A : Answers) where
  -- A Download message whose arguments stand in order and fit their arrays returns 0, stores each
  -- argument whole, puts the download task behind the waiting ones where there is room, and answers.
  pub download_lem :
      (doc : L.Doc) (r : Run)
      (key type url user password size target delay success failure reply : Bytes) (n d : ℕ)
      → IsValid r.control.task_queue
      → Fits key type url user password target success failure
      → P.atoi size ≡ pos n
      → P.atoi delay ≡ pos d
      → A.transfer_response Task.download ≡ some reply
      → Holds L
          (download_fields P.atoi)
          (first_argument L doc)
          (key ∷ type ∷ url ∷ user ∷ password ∷ size ∷ target ∷ delay ∷ success ∷ failure ∷ [])
      → (r' : Run) × (download P L A doc r ≡ some (pos 0, r'))
        × (r'.control.event.command_key ≡ key)
        × (r'.control.download_argument ≡ record {
          file_type = type;
          url = url;
          username = user;
          password = password;
          file_size = pos n;
          target_file_name = target;
          delay_seconds = pos d;
          success_url = success;
          failure_url = failure;
        })
        × (tasks r'.control ≡ (put_result true (tasks r.control) Task.download).1)
        × (r'.xml_buffer ≡ Message.text reply)
  unfolding download answer_parsed accept_transfer
  download_lem doc r key type url user password size target delay success failure reply n d v f en
        ed a h =
      let r1 = with_control r stored in
      let (e, same, v') = tasks-with_task r1 Task.download v download_valid in
      (
        (let r' = with_task r1 Task.download in record r' { xml_buffer = Message.text reply }),
        ap (answer_parsed A Task.download r) (
              parse-Holds L (download_fields P.atoi) (first_argument L doc)
                (key ∷ type ∷ url ∷ user ∷ password ∷ size ∷ target ∷ delay ∷ success ∷ failure
                  ∷ [])
                r.control stored h read)
            ∙ ap some (accept_transfer-reply A Task.download r1 reply a),
        ap (λ (x : Control). x.event.command_key) same,
        ap (λ (x : Control). x.download_argument) same,
        e,
        refl,
      )
    where
      stored : Control
      stored =
          let c = r.control in
          record c {
            event = (let e = c.event in record e { command_key = key });
            download_argument = record {
              file_type = type;
              url = url;
              username = user;
              password = password;
              file_size = pos n;
              target_file_name = target;
              delay_seconds = pos d;
              success_url = success;
              failure_url = failure;
            };
          }

      fits : (n : ℕ) (t : Bytes) → length t < n → compare n (length t) ≡ Ordering.gt
      fits n t l = ground arith

      read :
          read_all
            (download_fields P.atoi)
            (key ∷ type ∷ url ∷ user ∷ password ∷ size ∷ target ∷ delay ∷ success ∷ failure ∷ [])
            r.control
          ≡ some stored
      read =
          rw
            (
              read_all,
              fits 32 key f.0,
              fits 64 type f.1,
              fits 256 url f.2,
              fits 256 user f.3,
              fits 256 password f.4,
              en,
              fits 256 target f.5,
              ed,
              fits 256 success f.6,
              fits 256 failure f.7,
              cut_short 31 key (omega (arith, f.0)),
              cut_short 63 type (omega (arith, f.1)),
              cut_short 255 url (omega (arith, f.2)),
              cut_short 255 user (omega (arith, f.3)),
              cut_short 255 password (omega (arith, f.4)),
              cut_short 255 target (omega (arith, f.5)),
              cut_short 255 success (omega (arith, f.6)),
              cut_short 255 failure (omega (arith, f.7)),
            )
            refl
