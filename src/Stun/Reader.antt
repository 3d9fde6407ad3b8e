-- ===== src/Stun/Reader.antt =====
-- A reader of STUN messages, and what it reads of attributes that tr111_control.c lays out.
use mathlib.Core.Path.{subst}
use mathlib.Core.Option
use mathlib.Core.List.{append_assoc}
use tr.Base.{
  ℕ, zero, suc, ◌+◌, ◌*◌, ◌/◌, ◌%◌, ◌<◌, ◌≤◌, ◌≡◌, refl, sym, ap, ◌∙◌, true, Option, none, some,
  List, [], ◌∷◌, ◌++◌, arith, length, length-append, take, drop, leb, ◌==◌, if◌then◌else◌, All,
}
use tr.Platform.{Bytes}
use tr.Stun.{attribute}

-- An attribute as it is read: its type and its value.
abbrev pub Attribute : Type 0
Attribute = ℕ × Bytes

-- The attributes that a text is made of, of `fuel` at most.
unfoldable pub read_attributes : ℕ → Bytes → Option (List Attribute)
read_attributes fuel [] = some []
read_attributes (suc fuel) (a ∷ b ∷ c ∷ d ∷ t) =
    let size = c * 256 + d in
    let rest = read_attributes fuel (drop size t) in
    if leb size (length t) then Option.map (λ l. (a * 256 + b, take size t) ∷ l) rest else none
read_attributes _ _ = none

-- A message: its type, its transaction id and its attributes, where the header has their length.
unfoldable pub read_message : Bytes → Option (ℕ × Bytes × List Attribute)
read_message (a ∷ b ∷ c ∷ d ∷ t) =
    if c * 256 + d + 16 == length t
    then Option.map (λ l. (a * 256 + b, take 16 t, l)) (read_attributes (length t) (drop 16 t))
    else none
read_message _ = none

-- Attributes one behind the other.
abbrev pub encode : List Attribute → Bytes
encode [] = []
encode (a ∷ l) = attribute a.0 a.1 ++ encode l

abbrev pub Fits : Attribute → Type 0
Fits a = (a.0 < 65536) × (length a.1 < 65536)

pub take-append : (v rest : Bytes) → take (length v) (v ++ rest) ≡ v
take-append [] rest = refl
take-append (x ∷ v) rest = ap (λ t. x ∷ t) (take-append v rest)

pub drop-append : (v rest : Bytes) → drop (length v) (v ++ rest) ≡ rest
drop-append [] rest = refl
drop-append (x ∷ v) rest = drop-append v rest

pub leb-append : (v rest : Bytes) → leb (length v) (length (v ++ rest)) ≡ true
leb-append v rest = ground (arith, length-append v rest)

pub number_back : (n : ℕ) → n < 65536 → n / 256 % 256 * 256 + n % 256 ≡ n
number_back n h = omega arith

pub read_attributes-attribute :
    (fuel : ℕ) (a : Attribute) (rest : Bytes)
    → Fits a
    → read_attributes (suc fuel) (attribute a.0 a.1 ++ rest)
      ≡ Option.map (λ l. a ∷ l) (read_attributes fuel rest)
unfolding attribute read_attributes
read_attributes-attribute fuel a rest h = ground (
  arith,
  take-append a.1 rest,
  drop-append a.1 rest,
  leb-append a.1 rest,
  number_back a.0,
  number_back (length a.1),
)

pub read_attributes-encode :
    (fuel : ℕ) (l : List Attribute)
    → length l ≤ fuel
    → All Fits l
    → read_attributes fuel (encode l) ≡ some l
read_attributes-encode zero [] h f = unfold read_attributes in refl
read_attributes-encode (suc fuel) [] h f = unfold read_attributes in refl
read_attributes-encode zero (a ∷ l) h f = absurd (omega arith)
read_attributes-encode (suc fuel) (a ∷ l) h f =
    rw (read_attributes-attribute fuel a (encode l) f.0)
      (rw (read_attributes-encode fuel l (omega arith) f.1) refl)

pub encode-append : (l l' : List Attribute) → encode (l ++ l') ≡ encode l ++ encode l'
encode-append [] l' = refl
encode-append (a ∷ l) l' =
    ap (λ t. attribute a.0 a.1 ++ t) (encode-append l l')
    ∙ sym (append_assoc (attribute a.0 a.1) (encode l) (encode l'))

pub All-append :
    (Q : Attribute → Type 0) (l l' : List Attribute) → All Q l → All Q l' → All Q (l ++ l')
All-append Q [] l' h h' = h'
All-append Q (a ∷ l) l' h h' = (h.0, All-append Q l l' h.1 h')

pub take-append_at : (n : ℕ) (t rest : Bytes) → length t ≡ n → take n (t ++ rest) ≡ t
take-append_at n t rest h = subst (λ k. take k (t ++ rest) ≡ t) h (take-append t rest)

pub drop-append_at : (n : ℕ) (t rest : Bytes) → length t ≡ n → drop n (t ++ rest) ≡ rest
drop-append_at n t rest h = subst (λ k. drop k (t ++ rest) ≡ rest) h (drop-append t rest)

pub ==_true : (a b : ℕ) → a ≡ b → (a == b) ≡ true
==_true a b h = ground arith
