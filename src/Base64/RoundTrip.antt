-- ===== src/Base64/RoundTrip.antt =====
-- base64_decode against the encoding of RFC 4648.
use tr.Base.{
  ℕ, ◌+◌, ◌*◌, ◌/◌, ◌%◌, ◌<◌, ◌≤◌, ◌≡◌, ◌≢◌, refl, ap, ◌∙◌, false, ◌&&◌, ◌||◌, some, [], ◌∷◌, ◌++◌,
  arith, length, ltb, ◌==◌, All,
}
use tr.Platform.{Bytes}
use tr.Base64.{
  dec_map, ok, lf, is_crlf, is_bad, padded, validate, decode, decode_counted, base64_decode,
}
use tr.Base64.Encoding.{
  enc_char, encode, IsByte, dec_map-enc_char, enc_char-range, four, four_low, decode-four,
  decode-pad_one, decode-pad_two, group_three, group_two, group_one,
}

decode-encode : (bs : Bytes) (x : ℕ) → All IsByte bs → decode (encode bs) 3 0 x ≡ bs
unfolding encode
decode-encode [] x h = unfold decode in refl
decode-encode (a ∷ []) x h =
    decode-pad_two (a / 4) (a % 4 * 16) x (omega (arith, h.0)) (omega arith)
    ∙ group_one (four x (a / 4) (a % 4 * 16) 0 0) a
        (four_low x (a / 4) (a % 4 * 16) 0 0 (omega (arith, h.0)) (omega arith) (omega arith)
            (omega arith)
          ∙ omega arith)
        h.0
decode-encode (a ∷ b ∷ []) x h =
    decode-pad_one (a / 4) (a % 4 * 16 + b / 16) (b % 16 * 4) x (omega (arith, h.0))
      (omega (arith, h.1.0)) (omega arith)
    ∙ group_two (four x (a / 4) (a % 4 * 16 + b / 16) (b % 16 * 4) 0) a b
        (four_low x (a / 4) (a % 4 * 16 + b / 16) (b % 16 * 4) 0 (omega (arith, h.0))
            (omega (arith, h.1.0)) (omega arith) (omega arith)
          ∙ omega arith)
        h.0 h.1.0
decode-encode (a ∷ b ∷ c ∷ cs) x h =
    let w = four x (a / 4) (a % 4 * 16 + b / 16) (b % 16 * 4 + c / 64) (c % 64) in
    decode-four (a / 4) (a % 4 * 16 + b / 16) (b % 16 * 4 + c / 64) (c % 64) (encode cs) x
      (omega (arith, h.0)) (omega (arith, h.1.0)) (omega (arith, h.1.1.0)) (omega arith)
    ∙ ap (λ g. g ++ decode (encode cs) 3 0 w)
        (group_three w a b c
          (four_low x (a / 4) (a % 4 * 16 + b / 16) (b % 16 * 4 + c / 64) (c % 64)
              (omega (arith, h.0)) (omega (arith, h.1.0)) (omega (arith, h.1.1.0)) (omega arith)
            ∙ omega arith)
          h.0 h.1.0 h.1.1.0)
    ∙ ap (λ t. a ∷ b ∷ c ∷ t) (decode-encode cs w h.1.1.1)

no_crlf : (c : ℕ) (cs : Bytes) → 42 < c → is_crlf c cs ≡ false
no_crlf c [] h = refl
no_crlf c (c' ∷ cs) h = ground arith

-- The first loop accepts an encoding.
validate-code :
    (v : ℕ) (cs : Bytes) (n : ℕ) → v < 64 → validate (enc_char v ∷ cs) 0 n ≡ validate cs 0 (n + 1)
unfolding validate
validate-code v cs n h = rw (no_crlf (enc_char v) cs range.0, no_lf, good, uncounted) refl
  where
    range : (42 < enc_char v) × (enc_char v < 128) × (enc_char v ≢ b'=')
    range = enc_char-range v h

    no_lf : (enc_char v == lf) ≡ false
    no_lf = ground (arith, range.0)

    no_pad : (enc_char v == b'=') ≡ false
    no_pad = ground (arith, range.2)

    uncounted : padded (enc_char v) 0 ≡ 0
    uncounted = rw no_pad refl

    valid :
        (c d : ℕ)
        → c < 128
        → (c == b'=') ≡ false
        → d < 64
        → (((c == b'=') && ltb 2 (padded c 0))
            || (ltb 127 c || (d == 127))
            || (ltb d 64 && ltb 0 (padded c 0)))
          ≡ false
    valid c d l e m = ground (arith, e)

    good : is_bad (enc_char v) (padded (enc_char v) 0) ≡ false
    good =
        valid (enc_char v) (dec_map (enc_char v)) range.1 no_pad
          (omega (arith, dec_map-enc_char v h))

validate-encode :
    (bs : Bytes) (n : ℕ) → All IsByte bs → validate (encode bs) 0 n ≡ some (n + length (encode bs))
unfolding encode
validate-encode [] n h = unfold validate in ap some (omega arith)
validate-encode (a ∷ []) n h =
    validate-code (a / 4) (enc_char (a % 4 * 16) ∷ b'=' ∷ b'=' ∷ []) n (omega (arith, h.0))
    ∙ validate-code (a % 4 * 16) (b'=' ∷ b'=' ∷ []) (n + 1) (omega arith)
    ∙ unfold validate in unfold dec_map in ap some (omega arith)
validate-encode (a ∷ b ∷ []) n h =
    validate-code (a / 4) (enc_char (a % 4 * 16 + b / 16) ∷ enc_char (b % 16 * 4) ∷ b'=' ∷ []) n
      (omega (arith, h.0))
    ∙ validate-code (a % 4 * 16 + b / 16) (enc_char (b % 16 * 4) ∷ b'=' ∷ []) (n + 1)
        (omega (arith, h.1.0))
    ∙ validate-code (b % 16 * 4) (b'=' ∷ []) (n + 1 + 1) (omega arith)
    ∙ unfold validate in unfold dec_map in ap some (omega arith)
validate-encode (a ∷ b ∷ c ∷ cs) n h =
    validate-code (a / 4)
      (enc_char (a % 4 * 16 + b / 16)
        ∷ enc_char (b % 16 * 4 + c / 64)
        ∷ enc_char (c % 64)
        ∷ encode cs)
      n (omega (arith, h.0))
    ∙ validate-code (a % 4 * 16 + b / 16)
        (enc_char (b % 16 * 4 + c / 64) ∷ enc_char (c % 64) ∷ encode cs) (n + 1)
        (omega (arith, h.1.0))
    ∙ validate-code (b % 16 * 4 + c / 64) (enc_char (c % 64) ∷ encode cs) (n + 1 + 1)
        (omega (arith, h.1.1.0))
    ∙ validate-code (c % 64) (encode cs) (n + 1 + 1 + 1) (omega arith)
    ∙ validate-encode cs (n + 1 + 1 + 1 + 1) h.1.1.1
    ∙ ap some (omega arith)

-- Bytes that are encoded are decoded again, where the buffer has the room that the code asks for.
pub base64_decode-encode :
    (dlen : ℕ) (bs : Bytes)
    → All IsByte bs
    → bs ≢ []
    → (length (encode bs) * 6 + 7) / 8 ≤ dlen
    → base64_decode dlen (encode bs) ≡ record { code = ok; dlen = length bs; dst = bs }
unfolding base64_decode decode_counted
base64_decode-encode dlen bs h e l =
    rw (base64_decode, validate-encode bs 0 h) (counted (not_empty bs e) (decode-encode bs 0 h))
  where
    not_empty : (bs : Bytes) → bs ≢ [] → 0 < length (encode bs)
    not_empty [] e = absurd (e refl)
    not_empty (a ∷ []) e = unfold encode in omega arith
    not_empty (a ∷ b ∷ []) e = unfold encode in omega arith
    not_empty (a ∷ b ∷ c ∷ cs) e = unfold encode in omega arith

    counted :
        0 < length (encode bs)
        → decode (encode bs) 3 0 0 ≡ bs
        → decode_counted dlen (encode bs) (0 + length (encode bs))
          ≡ record { code = ok; dlen = length bs; dst = bs }
    counted p d = ground (arith, p, d, l)
