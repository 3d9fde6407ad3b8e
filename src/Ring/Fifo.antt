-- ===== src/Ring/Fifo.antt =====
-- A ring of tr069_control.h seen as the list of what waits in it, oldest first.

use mathlib.Core.Option
use native.Mathlib.Decide.{ℕ_discrete}
use tr.Base.{
  ℕ, zero, suc, ◌+◌, ◌-◌, ◌%◌, ◌<◌, ◌≡◌, ◌≢◌, ◌⊎◌, inl, inr, true, false, refl, sym, ap, ap₂, ◌∙◌,
  Option, none, some, List, [], ◌∷◌, ◌++◌, arith, length, if◌then◌else◌, ltb,
}
use tr.Ring.{Ring, update, max_num, put, pick, cleared}

-- `head` and `tail` index inside the array.
pub record IsValid {A : Type 0} (r : Ring A) : Type 0 where
  pub head_in : r.head < max_num
  pub tail_in : r.tail < max_num

module _ {A : Type 0} where
  -- The `n` entries from index `h` on, going round at the end of the array.
  abbrev pub window : (ℕ → A) → ℕ → ℕ → List A
  window q h zero = []
  window q h (suc n) = q h ∷ window q ((h + 1) % max_num) n

  abbrev pub size : Ring A → ℕ
  size r = (r.tail + max_num - r.head) % max_num

  abbrev pub to_list : Ring A → List A
  to_list r = window r.queue r.head (size r)

  length-window : (q : ℕ → A) (h n : ℕ) → length (window q h n) ≡ n
  length-window q h zero = refl
  length-window q h (suc n) = ap suc (length-window q ((h + 1) % max_num) n)

  pub length-to_list : (r : Ring A) → length (to_list r) ≡ size r
  length-to_list r = length-window r.queue r.head (size r)

  update_self : (q : ℕ → A) (i : ℕ) (x : A) → update q i x i ≡ x
  update_self q i x = ground arith

  update_other : (q : ℕ → A) (i j : ℕ) (x : A) → i ≢ j → update q i x j ≡ q j
  update_other q i j x h = ground arith

  -- Writing at the slot just past a window extends the window by what is written.
  window-update :
      (q : ℕ → A) (h n t : ℕ) (x : A)
      → h < max_num
      → n < max_num
      → t ≡ (h + n) % max_num
      → window (update q t x) h (suc n) ≡ window q h n ++ (x ∷ [])
  window-update q h zero t x hh hn e = ap (λ y. y ∷ []) (ground (arith, update_self q t x))
  window-update q h (suc n) t x hh hn e =
      ap₂ ◌∷◌ (update_other q t h x (omega arith))
        (window-update q ((h + 1) % max_num) n t x (omega arith) (omega arith) (omega arith))

  window_pos :
      (q : ℕ → A) (h n : ℕ) → n ≢ 0 → window q h n ≡ q h ∷ window q ((h + 1) % max_num) (n - 1)
  window_pos q h zero p = absurd (p refl)
  window_pos q h (suc n) p = ap (λ k. window q h (suc k)) (omega arith)

-- The specification: a queue of at most fifteen entries.
abbrev pub push_back : {A : Type 0} → List A → A → Option (List A)
push_back xs x = if ltb (length xs) 15 then some (xs ++ (x ∷ [])) else none

abbrev pub pop_front : {A : Type 0} → List A → Option (A × List A)
pop_front [] = none
pop_front (x ∷ xs) = some (x, xs)

module _ {A : Type 0} where
  pub put-IsValid : (r r' : Ring A) (x : A) → IsValid r → put r x ≡ some r' → IsValid r'
  unfolding put
  put-IsValid r r' x v e = ground arith

  pub pick-IsValid : (r r' : Ring A) (x : A) → IsValid r → pick r ≡ some (x, r') → IsValid r'
  unfolding pick
  pick-IsValid r r' x v e = ground arith

  pub put-full : (r : Ring A) (x : A) → IsValid r → size r ≡ 15 → put r x ≡ none
  unfolding put
  put-full r x v e = ground arith

  -- A put that finds room: the new ring, and what it holds.
  pub put-ok :
      (r : Ring A) (x : A)
      → IsValid r
      → size r ≢ 15
      → (r' : Ring A) × (put r x ≡ some r')
        × (to_list r' ≡ to_list r ++ (x ∷ []))
        × IsValid r'
        × (size r' ≡ size r + 1)
  unfolding put
  put-ok r x v ne = (
    record r { queue = update r.queue r.tail x; tail = (r.tail + 1) % max_num },
    ground arith,
    ap (window (update r.queue r.tail x) r.head) grows
        ∙ window-update r.queue r.head (size r) r.tail x v.head_in (omega arith) (omega arith),
    omega arith,
    omega (arith, grows),
  )
    where
      grows : ((r.tail + 1) % max_num + max_num - r.head) % max_num ≡ suc (size r)
      grows = omega arith

  pub pick-empty : (r : Ring A) → IsValid r → to_list r ≡ [] → pick r ≡ none
  unfolding pick
  pick-empty r v e =
      let none_left : size r ≡ 0 = sym (length-to_list r) ∙ ap length e in ground arith

  pub pick-ok :
      (r : Ring A) (x : A) (xs : List A)
      → IsValid r
      → to_list r ≡ x ∷ xs
      → (r' : Ring A) × (pick r ≡ some (x, r')) × (to_list r' ≡ xs) × IsValid r'
  unfolding pick
  pick-ok r x xs v e = (
    record r { head = (r.head + 1) % max_num },
    ground (arith, front),
    ap (window r.queue ((r.head + 1) % max_num)) shrinks ∙ ground (arith, front),
    omega arith,
  )
    where
      some_left : size r ≡ suc (length xs)
      some_left = sym (length-to_list r) ∙ ap length e

      shrinks : (r.tail + max_num - (r.head + 1) % max_num) % max_num ≡ size r - 1
      shrinks = omega (arith, some_left)

      front : x ∷ xs ≡ r.queue r.head ∷ window r.queue ((r.head + 1) % max_num) (size r - 1)
      front = sym e ∙ window_pos r.queue r.head (size r) (omega (arith, some_left))

  -- The two outcomes of a put, with the test of the specification.
  pub put_cases :
      (r : Ring A) (x : A)
      → IsValid r
      → ((put r x ≡ none) × (ltb (length (to_list r)) 15 ≡ false))
        ⊎ ((r' : Ring A) × (put r x ≡ some r')
            × (ltb (length (to_list r)) 15 ≡ true)
            × (to_list r' ≡ to_list r ++ (x ∷ []))
            × IsValid r')
  put_cases r x v = elim (ℕ_discrete (size r) 15) [
    | yes full ↦ inl (put-full r x v full, ground (arith, length-to_list r))
    | no room ↦
        let (r', e, l, v', _) = put-ok r x v room in
        inr (r', e, ground (arith, length-to_list r, bound), l, v')
  ]
    where
      bound : size r < 16
      bound = omega arith

  -- The two outcomes of a pick.
  pub pick_cases :
      (r : Ring A)
      → IsValid r
      → ((to_list r ≡ []) × (pick r ≡ none))
        ⊎ ((x : A) × (xs : List A) × (r' : Ring A) × (to_list r ≡ x ∷ xs)
            × (pick r ≡ some (x, r'))
            × (to_list r' ≡ xs)
            × IsValid r')
  pick_cases r v = go (to_list r) refl
    where
      go :
          (xs : List A)
          → to_list r ≡ xs
          → ((to_list r ≡ []) × (pick r ≡ none))
            ⊎ ((x : A) × (xs : List A) × (r' : Ring A) × (to_list r ≡ x ∷ xs)
                × (pick r ≡ some (x, r'))
                × (to_list r' ≡ xs)
                × IsValid r')
      go [] e = inl (e, pick-empty r v e)
      go (x ∷ xs) e = let (r', p, l, v') = pick-ok r x xs v e in inr (x, xs, r', e, p, l, v')

  -- `put` appends to the list of what waits, and fails exactly when fifteen entries wait.
  pub put_refines :
      (r : Ring A) (x : A) → IsValid r → Option.map to_list (put r x) ≡ push_back (to_list r) x
  put_refines r x v = elim (put_cases r x v) [
    | inl (e, full) ↦ rw (e, full)
    | inr (r', e, room, l, _) ↦ rw (e, room) (ap some l)
  ]

  -- `pick` takes the oldest entry, and fails exactly when nothing waits.
  pub pick_refines :
      (r : Ring A)
      → IsValid r
      → Option.map (λ p. (p.0, to_list p.1)) (pick r) ≡ pop_front (to_list r)
  pick_refines r v = elim (pick_cases r v) [
    | inl (e, p) ↦ rw (p, e)
    | inr (x, xs, r', e, p, l, _) ↦ rw (p, e) (ap (λ t. some (x, t)) l)
  ]

module _ {A : Type 0} where
  pub cleared-IsValid : (z : A) → IsValid (cleared z)
  unfolding cleared
  cleared-IsValid z = omega arith

  pub to_list-cleared : (z : A) → to_list (cleared z) ≡ []
  unfolding cleared
  to_list-cleared z = refl
