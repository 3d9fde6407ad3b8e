-- ===== src/CStr/Compare.antt =====
-- What `strcmp` and `memcmp` say of strings.
use mathlib.Core.Path.{subst}
use tr.Base.{ℕ, zero, suc, ◌+◌, ◌≤◌, ◌≡◌, refl, true, [], ◌∷◌, arith, length, take, get_or}
use tr.Platform.{Bytes}
use tr.CStr.{strcmp_eq, memcmp_eq, NoNul}

pub strcmp_eq_refl : (a : Bytes) → strcmp_eq a a ≡ true
strcmp_eq_refl [] = refl
strcmp_eq_refl (x ∷ a) = ground (arith, strcmp_eq_refl a)

memcmp_eq-suc : (a b : Bytes) (n : ℕ) → memcmp_eq a b (suc n) ≡ true → memcmp_eq a b n ≡ true
unfolding memcmp_eq
memcmp_eq-suc a b zero h = refl
memcmp_eq-suc [] b (suc n) h = h
memcmp_eq-suc (x ∷ a) [] (suc n) h = h
memcmp_eq-suc (x ∷ a) (y ∷ b) (suc n) h = ground (arith, memcmp_eq-suc a b n)

pub memcmp_eq-shorter :
    (a b : Bytes) (n : ℕ) → memcmp_eq a b (n + 1) ≡ true → memcmp_eq a b n ≡ true
memcmp_eq-shorter a b n h =
    memcmp_eq-suc a b n (subst (λ k. memcmp_eq a b k ≡ true) (omega arith) h)

pub memcmp_eq_refl : (a : Bytes) (n : ℕ) → n ≤ length a → memcmp_eq a a n ≡ true
unfolding memcmp_eq
memcmp_eq_refl a zero h = refl
memcmp_eq_refl [] (suc n) h = absurd (omega arith)
memcmp_eq_refl (x ∷ a) (suc n) h = ground (arith, memcmp_eq_refl a n)

pub memcmp_eq-take : (a : Bytes) (n : ℕ) → n ≤ length a → memcmp_eq (take n a) a n ≡ true
unfolding memcmp_eq
memcmp_eq-take a zero h = refl
memcmp_eq-take [] (suc n) h = absurd (omega arith)
memcmp_eq-take (x ∷ a) (suc n) h = ground (arith, memcmp_eq-take a n)

-- A string that agrees with another over its length, and ends there, is the same.
pub memcmp_eq-ended :
    (a b : Bytes) → NoNul a → memcmp_eq a b (length b) ≡ true → get_or a (length b) 0 ≡ 0 → a ≡ b
unfolding memcmp_eq
memcmp_eq-ended [] [] z h e = refl
memcmp_eq-ended (x ∷ a) [] z h e = absurd (omega (arith, z.0))
memcmp_eq-ended [] (y ∷ b) z h e = cc
memcmp_eq-ended (x ∷ a) (y ∷ b) z h e = ground (arith, memcmp_eq-ended a b z.1)

pub get_or-length : (a : Bytes) → get_or a (length a) 0 ≡ 0
get_or-length [] = refl
get_or-length (x ∷ a) = get_or-length a

pub strcmp_eq-eq : (a b : Bytes) → strcmp_eq a b ≡ true → a ≡ b
strcmp_eq-eq [] [] h = refl
strcmp_eq-eq [] (y ∷ b) h = cc
strcmp_eq-eq (x ∷ a) [] h = cc
strcmp_eq-eq (x ∷ a) (y ∷ b) h = ground (arith, strcmp_eq-eq a b)
