-- ===== src/Tests/Stb.antt =====
-- A set-top box, with the numbers of a real one, and a status dictionary kept as a function.
use tr.Base.{
  ℕ, zero, suc, ◌+◌, ◌-◌, ◌*◌, ◌/◌, ◌%◌, ◌<◌, ◌≤◌, ◌≡◌, refl, ap, ◌∙◌, inl, inr, true, false,
  Option, some, [], ◌∷◌, ◌++◌, arith, length, length-append, replicate, ltb, ◌==◌, if◌then◌else◌, ℤ,
  pos, negsuc, get_or, Bool-cases, ◌≢◌,
}
use tr.Platform.{Platform, Bytes, IsSane, IsInt}
use tr.Ini.{Ini, Key, Remembers, key_eq, key_eq-eq}

-- The decimal digits of a number with at most `f` of them.
digits : ℕ → ℕ → Bytes
digits zero n = []
digits (suc f) n =
    if ltb n 10 then ((b'0' + n) ∷ []) else digits f (n / 10) ++ ((b'0' + n % 10) ∷ [])

unfoldable pub value : ℕ → Bytes → ℕ
value v [] = v
value v (x ∷ xs) = value (v * 10 + (x - b'0')) xs

abbrev pow10 : ℕ → ℕ
pow10 zero = 1
pow10 (suc f) = 10 * pow10 f

value-snoc : (v : ℕ) (xs : Bytes) (x : ℕ) → value v (xs ++ (x ∷ [])) ≡ value v xs * 10 + (x - b'0')
unfolding value
value-snoc v [] x = refl
value-snoc v (y ∷ ys) x = value-snoc (v * 10 + (y - b'0')) ys x

value-digits : (f n : ℕ) → n < pow10 f → value 0 (digits f n) ≡ n
unfolding digits value
value-digits zero n h = omega arith
value-digits (suc f) n h = elim (Bool-cases (ltb n 10)) [
  | inl one ↦ rw one (omega arith)
  | inr more ↦ rw more (
      value-snoc 0 (digits f (n / 10)) (b'0' + n % 10)
      ∙ omega (arith, value-digits f (n / 10) (omega arith)))
]

length-digits : (f n : ℕ) → length (digits f n) ≤ f
unfolding digits
length-digits zero n = omega arith
length-digits (suc f) n = elim (Bool-cases (ltb n 10)) [
  | inl one ↦ rw one (omega arith)
  | inr more ↦ rw more (
      omega
        (arith, length-append (digits f (n / 10)) ((b'0' + n % 10) ∷ []), length-digits f (n / 10)))
]

-- The first digit is no sign.
digits-head : (f n : ℕ) → n < pow10 f → (get_or (digits f n) 0 b'0' == b'-') ≡ false
unfolding digits
digits-head zero n h = ground arith
digits-head (suc f) n h = elim (Bool-cases (ltb n 10)) [
  | inl one ↦ rw one (ground arith)
  | inr more ↦ rw more (no_sign (digits f (n / 10)) (n % 10) (digits-head f (n / 10) (omega arith)))
]
  where
    no_sign :
        (xs : Bytes) (d : ℕ)
        → (get_or xs 0 b'0' == b'-') ≡ false
        → (get_or (xs ++ ((b'0' + d) ∷ [])) 0 b'0' == b'-') ≡ false
    no_sign [] d h = ground arith
    no_sign (x ∷ xs) d h = h

unfoldable pub negated : ℕ → ℤ
negated zero = pos 0
negated (suc n) = negsuc n

pub print : ℤ → Bytes
print (pos n) = digits 10 n
print (negsuc n) = b'-' ∷ digits 10 (n + 1)

unfoldable pub parse : Bytes → ℤ
parse [] = pos 0
parse (x ∷ xs) = if x == b'-' then negated (value 0 xs) else pos (value 0 (x ∷ xs))

parse_unsigned : (xs : Bytes) → (get_or xs 0 b'0' == b'-') ≡ false → parse xs ≡ pos (value 0 xs)
unfolding parse value
parse_unsigned [] h = refl
parse_unsigned (x ∷ xs) h = rw h

parse-print : (x : ℤ) → IsInt x → parse (print x) ≡ x
unfolding parse print negated
parse-print (pos n) h =
    parse_unsigned (digits 10 n) (digits-head 10 n (omega arith))
    ∙ ap pos (value-digits 10 n (omega arith))
parse-print (negsuc n) h =
    ap negated {y = suc n} (value-digits 10 (n + 1) (omega arith) ∙ omega arith)

length-print : (x : ℤ) → length (print x) ≤ 11
unfolding print
length-print (pos n) = omega (arith, length-digits 10 n)
length-print (negsuc n) = omega (arith, length-digits 10 (n + 1))

-- Twenty events, of which the first eleven are primary, and a table of two parameters.
abbrev pub stb : Platform
stb = record {
  event_number = 20;
  event_bootstrap = 0;
  event_boot = 1;
  event_connection_request = 6;
  event_diagnostics_complete = 8;
  event_m_scheduleinform = 11;
  event_m_reboot = 12;
  rpc_acs_inform = 1;
  rpc_acs_transfer_complete = 3;
  fault_acs_retry_request = 8005;
  max_inform_param_num = 40;
  max_param_name_len = 64;
  max_param_code_len = 4;
  max_param_value_len = 64;
  max_param_num = 40;
  notification_off = pos 0;
  param_num = 2;
  parameter_name = λ i. if i == 0 then some (b'I' ∷ b'P' ∷ []) else some (b'U' ∷ b'R' ∷ b'L' ∷ []);
  default_event_flag = replicate 20 b'0';
  sprintf_d = print;
  atoi = parse;
}

pub stb-IsSane : IsSane stb
stb-IsSane = record {
  bootstrap_first = refl;
  primary_below = omega arith;
  few_events = omega arith;
  few_params = omega arith;
  inform_below = omega arith;
  flags_fit = omega arith;
  codes_fit = omega arith;
  code_room = omega arith;
  keys_fit = omega arith;
  atoi-sprintf_d = parse-print;
  sprintf_d_short = λ x h. omega (arith, length-print x);
}

-- What was set last for each entry.
abbrev pub dict : Ini
dict = record {
  Dict = Key → Option Bytes;
  getstring = λ d k def. elim (d k) [ Option.none ↦ def | some v ↦ v ];
  set = λ d k v. (pos 0, λ j. if key_eq k j then some v else d j);
}

key_eq_refl : (k : Key) → key_eq k k ≡ true
key_eq_refl k = ground arith

key_eq_ne : (k j : Key) → k ≢ j → key_eq k j ≡ false
key_eq_ne k j h = elim (Bool-cases (key_eq k j)) [
  | inl same ↦ absurd (h (key_eq-eq k j same))
  | inr other ↦ other
]

pub dict-Remembers : Remembers dict
dict-Remembers = record {
  set_ok = λ d k v. refl;
  getstring-set = λ d k v def. rw (dict, key_eq_refl k);
  getstring-set_ne = λ d k j v def h. rw (dict, key_eq_ne k j h);
}

-- A dictionary with no entry.
abbrev pub no_entry : Key → Option Bytes
no_entry k = Option.none
