-- ===== src/Base64/Encoding.antt =====
-- The encoding of RFC 4648, and one group of it in the second loop of base64_decode.
use tr.Base.{
  Bool-cases, inl, inr, ℕ, zero, suc, ◌+◌, ◌-◌, ◌*◌, ◌/◌, ◌%◌, ◌<◌, ◌≡◌, ◌≢◌, refl, ◌∙◌, Bool, true,
  false, ◌||◌, [], ◌∷◌, ◌++◌, arith, ltb, ◌==◌, if◌then◌else◌,
}
use tr.Platform.{Bytes}
use tr.Base64.{dec_map, cr, lf, group, decode, word}

-- The character of a value below 64.
unfoldable pub enc_char : ℕ → ℕ
enc_char v =
    if ltb v 26
    then b'A' + v
    else if ltb v 52
    then b'a' + (v - 26)
    else if ltb v 62
    then b'0' + (v - 52)
    else if v == 62
    then b'+'
    else b'/'

-- The encoding.
unfoldable pub encode : Bytes → Bytes
encode [] = []
encode (a ∷ []) = enc_char (a / 4) ∷ enc_char (a % 4 * 16) ∷ b'=' ∷ b'=' ∷ []
encode (a ∷ b ∷ []) =
    enc_char (a / 4) ∷ enc_char (a % 4 * 16 + b / 16) ∷ enc_char (b % 16 * 4) ∷ b'=' ∷ []
encode (a ∷ b ∷ c ∷ cs) =
    enc_char (a / 4)
    ∷ enc_char (a % 4 * 16 + b / 16)
    ∷ enc_char (b % 16 * 4 + c / 64)
    ∷ enc_char (c % 64)
    ∷ encode cs

-- A byte.
abbrev pub IsByte : ℕ → Type 0
IsByte c = c < 256

-- The table sends the characters of the values below a bound back to them.
inverts_below : ℕ → Bool
inverts_below zero = true
inverts_below (suc v) = if dec_map (enc_char v) == v then inverts_below v else false

inverts_at : (bound v : ℕ) → inverts_below bound ≡ true → v < bound → dec_map (enc_char v) ≡ v
unfolding inverts_below
inverts_at zero v all l = absurd (omega arith)
inverts_at (suc bound) v all l = elim (Bool-cases (v == bound)) [
  | inl last ↦ ground (arith, last, all)
  | inr earlier ↦ ground (arith, earlier, all, inverts_at bound v)
]

inverts_alphabet : inverts_below 64 ≡ true
unfolding inverts_below dec_map enc_char
inverts_alphabet = refl

pub dec_map-enc_char : (v : ℕ) → v < 64 → dec_map (enc_char v) ≡ v
dec_map-enc_char v h = inverts_at 64 v inverts_alphabet h

pub enc_char-range : (v : ℕ) → v < 64 → (42 < enc_char v) × (enc_char v < 128) × (enc_char v ≢ b'=')
unfolding enc_char
enc_char-range v h = ground arith

-- The word after four values, whatever stood above them.
abbrev pub four : (x v1 v2 v3 v4 : ℕ) → ℕ
four x v1 v2 v3 v4 = (((x * 64 % word + v1) * 64 % word + v2) * 64 % word + v3) * 64 % word + v4

pub four_low :
    (x v1 v2 v3 v4 : ℕ)
    → v1 < 64
    → v2 < 64
    → v3 < 64
    → v4 < 64
    → four x v1 v2 v3 v4 % 16777216 ≡ ((v1 * 64 + v2) * 64 + v3) * 64 + v4
four_low x v1 v2 v3 v4 h1 h2 h3 h4 = omega arith

decode-next :
    (c v : ℕ) (cs : Bytes) (j n x : ℕ)
    → 42 < c
    → dec_map c ≡ v
    → v < 64
    → n < 3
    → decode (c ∷ cs) j n x ≡ decode cs j (n + 1) (x * 64 % word + v)
unfolding decode
decode-next c v cs j n x h e l m = rw (no_break, no_group, no_pad, value) refl
  where
    no_break : ((c == cr) || (c == lf)) ≡ false
    no_break = ground arith

    no_group : (n + 1 == 4) ≡ false
    no_group = ground arith

    no_pad : (dec_map c == 64) ≡ false
    no_pad = ground (arith, e)

    value : dec_map c % 64 ≡ v
    value = omega (arith, e)

decode-full :
    (c v : ℕ) (cs : Bytes) (j x : ℕ)
    → 42 < c
    → dec_map c ≡ v
    → v < 64
    → decode (c ∷ cs) j 3 x ≡ group j (x * 64 % word + v) ++ decode cs j 0 (x * 64 % word + v)
unfolding decode
decode-full c v cs j x h e l = rw (no_break, no_pad, value) refl
  where
    no_break : ((c == cr) || (c == lf)) ≡ false
    no_break = ground arith

    no_pad : (dec_map c == 64) ≡ false
    no_pad = ground (arith, e)

    value : dec_map c % 64 ≡ v
    value = omega (arith, e)

-- Four characters of the alphabet.
pub decode-four :
    (v1 v2 v3 v4 : ℕ) (cs : Bytes) (x : ℕ)
    → v1 < 64
    → v2 < 64
    → v3 < 64
    → v4 < 64
    → decode (enc_char v1 ∷ enc_char v2 ∷ enc_char v3 ∷ enc_char v4 ∷ cs) 3 0 x
      ≡ group 3 (four x v1 v2 v3 v4) ++ decode cs 3 0 (four x v1 v2 v3 v4)
decode-four v1 v2 v3 v4 cs x h1 h2 h3 h4 =
    step v1 h1 (enc_char v2 ∷ enc_char v3 ∷ enc_char v4 ∷ cs) 0 x (omega arith)
    ∙ step v2 h2 (enc_char v3 ∷ enc_char v4 ∷ cs) 1 (x * 64 % word + v1) (omega arith)
    ∙ step v3 h3 (enc_char v4 ∷ cs) 2 ((x * 64 % word + v1) * 64 % word + v2) (omega arith)
    ∙ decode-full (enc_char v4) v4 cs 3 (((x * 64 % word + v1) * 64 % word + v2) * 64 % word + v3)
        (enc_char-range v4 h4).0 (dec_map-enc_char v4 h4) h4
  where
    step :
        (v : ℕ)
        → v < 64
        → (cs : Bytes) (n x : ℕ) → n < 3
        → decode (enc_char v ∷ cs) 3 n x ≡ decode cs 3 (n + 1) (x * 64 % word + v)
    step v h cs n x m =
        decode-next (enc_char v) v cs 3 n x (enc_char-range v h).0 (dec_map-enc_char v h) h m

-- The last group, with one padding byte and with two.
pub decode-pad_one :
    (v1 v2 v3 x : ℕ)
    → v1 < 64
    → v2 < 64
    → v3 < 64
    → decode (enc_char v1 ∷ enc_char v2 ∷ enc_char v3 ∷ b'=' ∷ []) 3 0 x
      ≡ group 2 (four x v1 v2 v3 0) ++ []
decode-pad_one v1 v2 v3 x h1 h2 h3 =
    decode-next (enc_char v1) v1 (enc_char v2 ∷ enc_char v3 ∷ b'=' ∷ []) 3 0 x
      (enc_char-range v1 h1).0 (dec_map-enc_char v1 h1) h1 (omega arith)
    ∙ decode-next (enc_char v2) v2 (enc_char v3 ∷ b'=' ∷ []) 3 1 (x * 64 % word + v1)
        (enc_char-range v2 h2).0 (dec_map-enc_char v2 h2) h2 (omega arith)
    ∙ decode-next (enc_char v3) v3 (b'=' ∷ []) 3 2 ((x * 64 % word + v1) * 64 % word + v2)
        (enc_char-range v3 h3).0 (dec_map-enc_char v3 h3) h3 (omega arith)
    ∙ unfold decode in unfold dec_map in refl

pub decode-pad_two :
    (v1 v2 x : ℕ)
    → v1 < 64
    → v2 < 64
    → decode (enc_char v1 ∷ enc_char v2 ∷ b'=' ∷ b'=' ∷ []) 3 0 x ≡ group 1 (four x v1 v2 0 0) ++ []
decode-pad_two v1 v2 x h1 h2 =
    decode-next (enc_char v1) v1 (enc_char v2 ∷ b'=' ∷ b'=' ∷ []) 3 0 x (enc_char-range v1 h1).0
      (dec_map-enc_char v1 h1) h1 (omega arith)
    ∙ decode-next (enc_char v2) v2 (b'=' ∷ b'=' ∷ []) 3 1 (x * 64 % word + v1)
        (enc_char-range v2 h2).0 (dec_map-enc_char v2 h2) h2 (omega arith)
    ∙ unfold decode in unfold dec_map in refl

pub group_three :
    (w a b c : ℕ)
    → w % 16777216 ≡ a * 65536 + b * 256 + c
    → a < 256
    → b < 256
    → c < 256
    → group 3 w ≡ a ∷ b ∷ c ∷ []
unfolding group
group_three w a b c e h1 h2 h3 = ground (arith, e)

pub group_two :
    (w a b : ℕ)
    → w % 16777216 ≡ a * 65536 + b * 256
    → a < 256
    → b < 256
    → group 2 w ++ [] ≡ a ∷ b ∷ []
unfolding group
group_two w a b e h1 h2 = ground (arith, e)

pub group_one : (w a : ℕ) → w % 16777216 ≡ a * 65536 → a < 256 → group 1 w ++ [] ≡ a ∷ []
unfolding group
group_one w a e h1 = ground (arith, e)
