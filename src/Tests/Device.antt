-- ===== src/Tests/Device.antt =====
-- The timers, the decoder and the methods of the server on concrete inputs.
use tr.Base.{
  ℕ, ◌+◌, ◌*◌, ◌/◌, ◌<◌, ◌≤◌, ◌≡◌, ◌≢◌, refl, ◌⊎◌, inr, Bool, true, false, Option, none, some, List,
  [], ◌∷◌, arith, length, take, pos, minus_one,
}
use tr.Platform.{Bytes}
use tr.Base64.{base64_decode, ok}
use tr.Base64.Encoding.{encode}
use tr.Base64.RoundTrip.{base64_decode-encode}
use tr.Timer.{get_1st_heartbeat_time, Armed, start_heartbeat, interval_of, next_heartbeat}
use tr.Timer.Due.{get_1st_heartbeat_time_lem, start_heartbeat_lem}
use tr.Ring.Fifo.{IsValid}
use tr.Control.{Task}
use tr.Control.Queues.{tasks, put_result}
use tr.Rpc.{Run, Soap, Message, SessionStatus}
use tr.Rpc.Names.{RpcType}
use tr.Rpc.Arguments.{
  command_key_text, file_type_text, url_text, username_text, password_text, file_size_text,
  target_file_name_text, delay_seconds_text, success_url_text, failure_url_text, first_argument,
  download_fields,
}
use tr.Rpc.Methods.{Answers, answer_fault, answer_parsed, download, upload, reboot, command_key_of}
use tr.Rpc.Transfer.{Holds, download_lem}
use tr.Rpc.Refusal.{transfer-fault}
use tr.Rpc.Served.{reboot_lem}
use tr.Rpc.Arguments
use tr.Tests.Stb.{stb, parse, value, negated}
use tr.Tests.Busy.{busy}

base64_decode-encode_example :
    base64_decode 8 (encode (1 ∷ 255 ∷ [])) ≡ record { code = ok; dlen = 2; dst = 1 ∷ 255 ∷ [] }
base64_decode-encode_example =
    base64_decode-encode 8 (1 ∷ 255 ∷ []) (omega arith, (omega arith, tt)) (λ e. ground (arith, e))
      room
  where
    room : (length (encode (1 ∷ 255 ∷ [])) * 6 + 7) / 8 ≤ 8
    room = unfold encode in omega arith

get_1st_heartbeat_time_lem_example :
    let t = get_1st_heartbeat_time 1000 300 (pos 100) in
    (1 ≤ t)
    × (t ≤ 300)
    × (100 < 1000 → (k : ℕ) × (1000 + t ≡ 100 + k * 300))
    × (1000 < 100 → (k : ℕ) × ((1000 + t + k * 300 ≡ 100) ⊎ (1000 + k * 300 ≡ 100)))
get_1st_heartbeat_time_lem_example = get_1st_heartbeat_time_lem 1000 300 100 (omega arith)

-- The reference time is the default, which cannot be read as a time.
start_heartbeat_lem_example :
    (a b : Armed) × (start_heartbeat 30 1000 true (some (pos 300)) (some minus_one)
      ≡ some (pos 0, some a))
    × (1000 ≤ a.milliseconds)
    × (a.milliseconds ≤ interval_of 30 (some (pos 300)) * 1000)
    × (b.milliseconds ≡ interval_of 30 (some (pos 300)) * 1000)
    × (next_heartbeat 30 true a.is_first (some (pos 300)) ≡ some (minus_one, some b))
    × (next_heartbeat 30 true b.is_first (some (pos 300)) ≡ some (pos 0, none))
    × ((is_first : Bool)
        → next_heartbeat 30 false is_first (some (pos 300)) ≡ some (minus_one, none))
start_heartbeat_lem_example =
    start_heartbeat_lem 30 1000 (some (pos 300)) (some minus_one) (omega arith) short
  where
    short : interval_of 30 (some (pos 300)) ≤ 2147483
    short = unfold interval_of in omega arith

-- A message is its elements, with their names and texts.
abbrev Element : Type 0
Element = Bytes × Bytes

abbrev node_at : List Element → Option (Element × List Element)
node_at [] = none
node_at (e ∷ es) = some (e, es)

abbrev soap : Soap
soap = record {
  Doc = List Element;
  Node = Element × List Element;
  buffer_new = λ t. none;
  get_method = λ doc. some (([], []), doc);
  get_child = λ n. node_at n.1;
  get_next = λ n. node_at n.1;
  get_content = λ n. some n.0.1;
  name = λ n. n.0.0;
}

abbrev pub answers : Answers
answers = record {
  fault = λ code. some [];
  transfer_response = λ t. some (b'1' ∷ []);
  reboot_response = b'0' ∷ [];
  factory_reset_response = b'0' ∷ [];
  method_not_supported = 9000;
  internal_error = 9002;
  invalid_arguments = 9003;
}

abbrev message : List Element
message =
    (command_key_text, b'K' ∷ [])
    ∷ (file_type_text, b'1' ∷ [])
    ∷ (url_text, b'u' ∷ [])
    ∷ (username_text, [])
    ∷ (password_text, [])
    ∷ (file_size_text, b'7' ∷ [])
    ∷ (target_file_name_text, b't' ∷ [])
    ∷ (delay_seconds_text, b'0' ∷ [])
    ∷ (success_url_text, [])
    ∷ (failure_url_text, [])
    ∷ []

abbrev pub run : Run
run = record {
  status = SessionStatus.execute;
  hold_request = 0;
  set_param_flag = 0;
  control = busy;
  req_to_acs = RpcType.empty;
  xml_buffer = Message.blank;
  recv_data = [];
  replies = [];
  sent = [];
  executed = [];
  saves = 0;
}

busy-IsValid : IsValid busy.task_queue
busy-IsValid = omega arith

seven : stb.atoi (b'7' ∷ []) ≡ pos 7
unfolding parse value negated
seven = refl

zero' : stb.atoi (b'0' ∷ []) ≡ pos 0
unfolding parse value negated
zero' = refl

arguments : Holds soap (download_fields stb.atoi) (first_argument soap message) (
    (b'K' ∷ [])
    ∷ (b'1' ∷ [])
    ∷ (b'u' ∷ [])
    ∷ []
    ∷ []
    ∷ (b'7' ∷ [])
    ∷ (b't' ∷ [])
    ∷ (b'0' ∷ [])
    ∷ []
    ∷ []
    ∷ [])
unfolding first_argument
arguments = (
  refl,
  refl,
  (
    refl,
    refl,
    (
      refl,
      refl,
      (
        refl,
        refl,
        (refl, refl, (refl, refl, (refl, refl, (refl, refl, (refl, refl, (refl, refl, tt)))))),
      ),
    ),
  ),
)

download_lem_example :
    (r' : Run) × (download stb soap answers message run ≡ some (pos 0, r'))
    × (r'.control.event.command_key ≡ b'K' ∷ [])
    × (r'.control.download_argument ≡ record {
      file_type = b'1' ∷ [];
      url = b'u' ∷ [];
      username = [];
      password = [];
      file_size = pos 7;
      target_file_name = b't' ∷ [];
      delay_seconds = pos 0;
      success_url = [];
      failure_url = [];
    })
    × (tasks r'.control ≡ (put_result true (tasks busy) Task.download).1)
    × (r'.xml_buffer ≡ Message.text (b'1' ∷ []))
download_lem_example =
    download_lem stb soap answers message run (b'K' ∷ []) (b'1' ∷ []) (b'u' ∷ []) [] [] (b'7' ∷ [])
      (b't' ∷ []) (b'0' ∷ []) [] [] (b'1' ∷ []) 7 0 busy-IsValid (omega arith) seven zero' refl
      arguments

reboot_lem_example :
    let (ret, r') = reboot stb soap answers message run in
    ((key : Bytes)
      → command_key_of soap message ≡ some key
      → (ret ≡ pos 0)
        × (r'.control.event.command_key ≡ take 31 key)
        × (tasks r'.control ≡ (put_result true (tasks busy) Task.reboot).1))
    × (command_key_of soap message ≡ none → (ret ≢ pos 0) × (r'.control ≡ busy))
reboot_lem_example = reboot_lem stb soap answers message run busy-IsValid (omega arith)

-- The message as an Upload is refused where the delay should stand, its arguments before stored.
abbrev refused : Run
refused = record run {
  control = record busy {
    event = (let e = busy.event in record e { command_key = b'K' ∷ [] });
    upload_argument =
        (let a = busy.upload_argument in
          record a { file_type = b'1' ∷ []; url = b'u' ∷ []; username = []; password = [] });
  };
  xml_buffer = Message.text [];
}

upload-refused : upload stb soap answers message run ≡ some (pos 9003, refused)
unfolding upload Arguments.parse parse value first_argument answer_parsed answer_fault
upload-refused = refl

transfer-fault_example : refused.control.task_queue ≡ busy.task_queue
transfer-fault_example =
    transfer-fault stb soap answers message run (pos 9003) refused (λ t. (b'1' ∷ [], refl))
      (λ e. ground (arith, e)) (inr upload-refused)
