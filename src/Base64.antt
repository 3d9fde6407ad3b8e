-- ===== src/Base64.antt =====
-- base64_decode of tr069_sample/libtr069/tr069/cu_usb_config.c. Bytes are numbers below 256, `slen`
-- is the length of the source, and the bytes that are written to `dst` are a list.
pub mod Room
pub mod Encoding
pub mod RoundTrip
use tr.Base.{
  ℕ, zero, suc, ◌+◌, ◌-◌, ◌*◌, ◌/◌, ◌%◌, Bool, true, false, ◌&&◌, ◌||◌, Option, none, some, List,
  [], ◌∷◌, ◌++◌, length, get_or, ltb, leb, ◌==◌, if◌then◌else◌,
}
use tr.Platform.{Bytes}

-- base64_dec_map
abbrev dec_table : List ℕ
dec_table =
    127 ∷ 127 ∷ 127 ∷ 127 ∷ 127 ∷ 127 ∷ 127 ∷ 127 ∷ 127 ∷ 127 ∷ 127 ∷ 127 ∷ 127 ∷ 127 ∷ 127 ∷ 127
    ∷ 127 ∷ 127 ∷ 127 ∷ 127 ∷ 127 ∷ 127 ∷ 127 ∷ 127 ∷ 127 ∷ 127 ∷ 127 ∷ 127 ∷ 127 ∷ 127 ∷ 127 ∷ 127
    ∷ 127 ∷ 127 ∷ 127 ∷ 127 ∷ 127 ∷ 127 ∷ 127 ∷ 127 ∷ 127 ∷ 127 ∷ 127 ∷ 62 ∷ 127 ∷ 127 ∷ 127 ∷ 63
    ∷ 52 ∷ 53 ∷ 54 ∷ 55 ∷ 56 ∷ 57 ∷ 58 ∷ 59 ∷ 60 ∷ 61 ∷ 127 ∷ 127 ∷ 127 ∷ 64 ∷ 127 ∷ 127 ∷ 127 ∷ 0
    ∷ 1 ∷ 2 ∷ 3 ∷ 4 ∷ 5 ∷ 6 ∷ 7 ∷ 8 ∷ 9 ∷ 10 ∷ 11 ∷ 12 ∷ 13 ∷ 14 ∷ 15 ∷ 16 ∷ 17 ∷ 18 ∷ 19 ∷ 20 ∷ 21
    ∷ 22 ∷ 23 ∷ 24 ∷ 25 ∷ 127 ∷ 127 ∷ 127 ∷ 127 ∷ 127 ∷ 127 ∷ 26 ∷ 27 ∷ 28 ∷ 29 ∷ 30 ∷ 31 ∷ 32 ∷ 33
    ∷ 34 ∷ 35 ∷ 36 ∷ 37 ∷ 38 ∷ 39 ∷ 40 ∷ 41 ∷ 42 ∷ 43 ∷ 44 ∷ 45 ∷ 46 ∷ 47 ∷ 48 ∷ 49 ∷ 50 ∷ 51 ∷ 127
    ∷ 127 ∷ 127 ∷ 127 ∷ 127 ∷ []

unfoldable pub dec_map : ℕ → ℕ
dec_map c = get_or dec_table c 127

-- The return codes; the values of the two errors are the vendor's.
pub data Code : Type 0 where
  ok buffer_too_small invalid_character : Code

abbrev pub cr : ℕ
cr = 13

abbrev pub lf : ℕ
lf = 10

-- `src[i] == '\r' && src[i + 1] == '\n'`, where two bytes are left.
abbrev pub is_crlf : ℕ → Bytes → Bool
is_crlf c [] = false
is_crlf c (c' ∷ cs) = (c == cr) && (c' == lf)

-- `src[i] == '=' && ++j > 2` counts the byte in `j`.
abbrev pub padded : ℕ → ℕ → ℕ
padded c j = if c == b'=' then j + 1 else j

-- The tests that reject a byte, with `j` as it is after it.
abbrev pub is_bad : ℕ → ℕ → Bool
is_bad c j =
    ((c == b'=') && ltb 2 j) || (ltb 127 c || (dec_map c == 127)) || (ltb (dec_map c) 64 && ltb 0 j)

-- The first loop: how many bytes count, or `none` for an invalid byte.
unfoldable pub validate : Bytes → (j n : ℕ) → Option ℕ
validate [] j n = some n
validate (c ∷ cs) j n =
    let skip = validate cs j n in
    let next = validate cs (padded c j) (n + 1) in
    if is_crlf c cs || (c == lf) then skip else if is_bad c (padded c j) then none else next

-- `unsigned long`
abbrev pub word : ℕ
word = 18446744073709551616

-- `x = ( x << 6 ) | ( base64_dec_map[*src] & 0x3F )`
abbrev pub shifted : ℕ → ℕ → ℕ
shifted x c = x * 64 % word + dec_map c % 64

-- What a full group of four writes: three bytes, less one for each '=' that was met.
unfoldable pub group : ℕ → ℕ → Bytes
group j x =
    (x / 65536 % 256)
    ∷ (if ltb 1 j
        then (x / 256 % 256) ∷ (if ltb 2 j then (x % 256) ∷ [] else [])
        else (if ltb 2 j then (x % 256) ∷ [] else []))

abbrev pub unpadded : ℕ → ℕ → ℕ
unpadded c j = if dec_map c == 64 then j - 1 else j

-- The second loop.
unfoldable pub decode : Bytes → (j n x : ℕ) → Bytes
decode [] j n x = []
decode (c ∷ cs) j n x =
    let skip = decode cs j n x in
    let full = decode cs (unpadded c j) 0 (shifted x c) in
    let next = decode cs (unpadded c j) (n + 1) (shifted x c) in
    if (c == cr) || (c == lf)
    then skip
    else if n + 1 == 4
    then group (unpadded c j) (shifted x c) ++ full
    else next

-- What base64_decode leaves: its return code, `*dlen` and the bytes in `dst`.
pub record Decoded : Type 0 where
  pub code : Code
  pub dlen : ℕ
  pub dst : Bytes

-- The part after the first loop, which counted `n` bytes.
unfoldable pub decode_counted : ℕ → Bytes → ℕ → Decoded
decode_counted dlen src n =
    if n == 0
    then (record { code = ok; dlen = dlen; dst = [] })
    else if ltb dlen ((n * 6 + 7) / 8)
    then (record { code = buffer_too_small; dlen = (n * 6 + 7) / 8; dst = [] })
    else let out = decode src 3 0 0 in record { code = ok; dlen = length out; dst = out }

unfoldable pub base64_decode : ℕ → Bytes → Decoded
base64_decode dlen src = elim (validate src 0 0) [
  | none ↦ record { code = invalid_character; dlen = dlen; dst = [] }
  | some n ↦ decode_counted dlen src n
]
