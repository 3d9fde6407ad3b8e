-- ===== src/Ring/Run.antt =====
-- Whole runs of calls on a ring of tr069_control.h against the list that it holds.

use tr.Base.{◌≡◌, inl, inr, Bool, true, false, refl, ap, Option, none, some, List, [], ◌∷◌}
use tr.Ring.{Ring, put, pick}
use tr.Ring.Fifo.{IsValid, to_list, push_back, pop_front, put_cases, pick_cases}

-- A client's calls, and what each of them answers: 0 or -1 for a put, the entry for a pick.
pub data Call (A : Type 0) : Type 0 where
  puts : A → Call A
  picks : Call A

pub data Reply (A : Type 0) : Type 0 where
  taken : Bool → Reply A
  given : Option A → Reply A

module _ {A : Type 0} where
  abbrev after_put : Ring A → Option (Ring A) → Bool × Ring A
  after_put r none = (false, r)
  after_put r (some r') = (true, r')

  abbrev after_pick : Ring A → Option (A × Ring A) → Option A × Ring A
  after_pick r none = (none, r)
  after_pick r (some (x, r')) = (some x, r')

  pub run : Ring A → List (Call A) → List (Reply A)
  run r [] = []
  run r (puts x ∷ calls) = let (b, r') = after_put r (put r x) in taken b ∷ run r' calls
  run r (picks ∷ calls) = let (o, r') = after_pick r (pick r) in given o ∷ run r' calls

  abbrev after_push : List A → Option (List A) → Bool × List A
  after_push xs none = (false, xs)
  after_push xs (some ys) = (true, ys)

  abbrev after_pop : List A → Option (A × List A) → Option A × List A
  after_pop xs none = (none, xs)
  after_pop xs (some (x, ys)) = (some x, ys)

  pub run_list : List A → List (Call A) → List (Reply A)
  run_list xs [] = []
  run_list xs (puts x ∷ calls) =
      let (b, ys) = after_push xs (push_back xs x) in taken b ∷ run_list ys calls
  run_list xs (picks ∷ calls) =
      let (o, ys) = after_pop xs (pop_front xs) in given o ∷ run_list ys calls

  -- No sequence of calls tells a valid ring from the bounded first-in first-out list it holds.
  pub run_refines :
      (r : Ring A) (calls : List (Call A)) → IsValid r → run r calls ≡ run_list (to_list r) calls
  unfolding run run_list
  run_refines r [] v = refl
  run_refines r (puts x ∷ calls) v = elim (put_cases r x v) [
    | inl (e, full) ↦ rw (e, full) (ap (λ t. taken false ∷ t) (run_refines r calls v))
    | inr (r', e, room, l, v') ↦
        rw (e, room, ← l) (ap (λ t. taken true ∷ t) (run_refines r' calls v'))
  ]
  run_refines r (picks ∷ calls) v = elim (pick_cases r v) [
    | inl (e, p) ↦ rw (p, e) (ap (λ t. given none ∷ t) (rw e at (run_refines r calls v)))
    | inr (x, xs, r', e, p, l, v') ↦
        rw (p, e, ← l) (ap (λ t. given (some x) ∷ t) (run_refines r' calls v'))
  ]
