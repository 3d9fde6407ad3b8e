-- ===== src/CStr.antt =====
-- C strings in byte arrays: what `strncpy` and the string functions of libc do to them.
pub mod Compare
use mathlib.Core.Option
use tr.Base.{
  ◌≤◌, ℕ, zero, suc, ◌<◌, ◌≡◌, refl, ap, Option, none, some, List, [], ◌∷◌, arith, length, take,
  get_or, All, ltb, if◌then◌else◌, Bool, true, false, ◌==◌,
}
use tr.Platform.{Bytes}

-- `strncpy(buf, src, n)`; `src` is the string without its NUL.
unfoldable pub strncpy : List ℕ → Bytes → ℕ → List ℕ
strncpy [] src n = []
strncpy (b ∷ buf) src zero = b ∷ buf
strncpy (b ∷ buf) [] (suc n) = 0 ∷ strncpy buf [] n
strncpy (b ∷ buf) (c ∷ src) (suc n) = c ∷ strncpy buf src n

-- The string that an array holds; `none` where no NUL ends it inside the array.
unfoldable pub c_str : List ℕ → Option Bytes
c_str [] = none
c_str (zero ∷ buf) = some []
c_str (suc c ∷ buf) = Option.map (λ s. suc c ∷ s) (c_str buf)

-- `strcmp(a, b) == 0`
abbrev pub strcmp_eq : Bytes → Bytes → Bool
strcmp_eq [] [] = true
strcmp_eq [] (y ∷ ys) = false
strcmp_eq (x ∷ xs) [] = false
strcmp_eq (x ∷ xs) (y ∷ ys) = if x == y then strcmp_eq xs ys else false

-- `memcmp(a, b, n) == 0` for strings of which `b` has `n` bytes before its NUL: where `a` ends
-- first, its NUL differs.
unfoldable pub memcmp_eq : Bytes → Bytes → ℕ → Bool
memcmp_eq a b zero = true
memcmp_eq [] b (suc n) = false
memcmp_eq (x ∷ a) [] (suc n) = false
memcmp_eq (x ∷ a) (y ∷ b) (suc n) = if x == y then memcmp_eq a b n else false

abbrev pub NoNul : Bytes → Type 0
NoNul = All (λ c. 0 < c)

-- A string proper, put before the NUL that ends an array, is read back.
pub c_str-cons :
    (c : ℕ) (buf : List ℕ) (s : Bytes) → 0 < c → c_str buf ≡ some s → c_str (c ∷ buf) ≡ some (c ∷ s)
unfolding c_str
c_str-cons zero buf s h e = absurd (omega arith)
c_str-cons (suc c) buf s h e = rw e

-- `strncpy` into an array whose byte `n` is 0 leaves the first `n` bytes of a string, ended.
pub c_str-strncpy :
    (buf : List ℕ) (s : Bytes) (n : ℕ)
    → NoNul s
    → n < length buf
    → get_or buf n 0 ≡ 0
    → c_str (strncpy buf s n) ≡ some (take n s)
unfolding strncpy
c_str-strncpy [] s n h l z = absurd (omega arith)
c_str-strncpy (b ∷ buf) s zero h l z = rw z (unfold c_str in refl)
c_str-strncpy (b ∷ buf) [] (suc n) h l z = unfold c_str in refl
c_str-strncpy (b ∷ buf) (c ∷ s) (suc n) h l z =
    c_str-cons c (strncpy buf s n) (take n s) h.0 (c_str-strncpy buf s n h.1 (omega arith) z)

pub length-strncpy : (buf : List ℕ) (s : Bytes) (n : ℕ) → length (strncpy buf s n) ≡ length buf
unfolding strncpy
length-strncpy [] s n = refl
length-strncpy (b ∷ buf) s zero = refl
length-strncpy (b ∷ buf) [] (suc n) = ap suc (length-strncpy buf [] n)
length-strncpy (b ∷ buf) (c ∷ s) (suc n) = ap suc (length-strncpy buf s n)

-- Up to the bound the array holds the string and then zeros, and behind it what it held.
pub get_or-strncpy :
    (buf : List ℕ) (s : Bytes) (n k : ℕ)
    → k < length buf
    → get_or (strncpy buf s n) k 0 ≡ (if ltb k n then get_or s k 0 else get_or buf k 0)
unfolding strncpy
get_or-strncpy [] s n k h = absurd (omega arith)
get_or-strncpy (b ∷ buf) s zero k h = ground arith
get_or-strncpy (b ∷ buf) [] (suc n) zero h = ground arith
get_or-strncpy (b ∷ buf) [] (suc n) (suc k) h = ground (arith, get_or-strncpy buf [] n k)
get_or-strncpy (b ∷ buf) (c ∷ s) (suc n) zero h = ground arith
get_or-strncpy (b ∷ buf) (c ∷ s) (suc n) (suc k) h = ground (arith, get_or-strncpy buf s n k)

-- A buffer with no NUL before its byte `n`, which is one.
pub c_str-of_nul :
    (buf : List ℕ) (n : ℕ)
    → n < length buf
    → get_or buf n 0 ≡ 0
    → ((k : ℕ) → k < n → 0 < get_or buf k 0)
    → c_str buf ≡ some (take n buf)
c_str-of_nul [] n h z nz = absurd (omega arith)
c_str-of_nul (b ∷ buf) zero h z nz = rw z (unfold c_str in refl)
c_str-of_nul (b ∷ buf) (suc n) h z nz =
    c_str-cons b buf (take n buf) (nz 0 (omega arith))
      (c_str-of_nul buf n (omega arith) z (λ k h'. nz (suc k) (omega arith)))

pub get_or-take : (xs : List ℕ) (n k : ℕ) → k < n → get_or (take n xs) k 0 ≡ get_or xs k 0
get_or-take xs zero k h = absurd (omega arith)
get_or-take [] (suc n) k h = refl
get_or-take (x ∷ xs) (suc n) zero h = refl
get_or-take (x ∷ xs) (suc n) (suc k) h = get_or-take xs n k (omega arith)

pub length-take : (n : ℕ) (xs : List ℕ) → n ≤ length xs → length (take n xs) ≡ n
length-take zero xs h = refl
length-take (suc n) [] h = absurd (omega arith)
length-take (suc n) (x ∷ xs) h = ap suc (length-take n xs (omega arith))
