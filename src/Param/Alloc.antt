-- ===== src/Param/Alloc.antt =====
-- How the ids of the parameters are allotted: no id has two owners.
use tr.Base.{
  ℕ, ◌+◌, ◌%◌, ◌<◌, ◌≤◌, ◌≡◌, refl, inl, inr, Bool, false, some, List, [], ◌∷◌, arith, length,
  count, leb, ◌==◌, if◌then◌else◌, Bool-cases,
}
use tr.Param.{Tree, nil, node, Ids, idstack_push, idstack_pop, allot}
use tr.Param.Prune.{release}

-- The bottom of the id stack, the least id that was never used.
abbrev pub bottom : List ℕ → ℕ
bottom [] = 0
bottom (id ∷ []) = id
bottom (id ∷ id' ∷ ids) = bottom (id' ∷ ids)

-- How many nodes of a tree have an id, and how many nodes it has.
abbrev pub occurs : ℕ → Tree → ℕ
occurs k nil = 0
occurs k (node p child next) = (if p.param_id == k then 1 else 0) + occurs k child + occurs k next

abbrev pub size : Tree → ℕ
size nil = 0
size (node p child next) = 1 + size child + size next

-- The ids up to the bottom of the stack are each in the table or once in the stack, never both; the
-- count is right; `own k` nodes that have id `k`, `total` in all, have slots of their own.
pub record IsAlloc (max : ℕ) (own : ℕ → ℕ) (total : ℕ) (s : Ids) : Type 0 where
  pub nonempty : 0 < length s.idstack
  pub room : length s.idstack ≤ 16
  pub sum : s.param_number + length s.idstack ≡ bottom s.idstack + 1
  pub split :
      (k : ℕ)
      → (if s.table k then 1 else 0) + count k s.idstack
        ≡ (if leb k (bottom s.idstack) then 1 else 0)
  pub owned : (k : ℕ) → own k ≤ (if s.table k then 1 else 0)
  pub few : total ≤ s.param_number
  pub within : bottom s.idstack ≤ max

-- Only the numbers of owners matter.
pub IsAlloc-ext :
    {max : ℕ} {own own' : ℕ → ℕ} {total total' : ℕ} {s : Ids}
    → ((k : ℕ) → own k ≡ own' k)
    → total ≡ total'
    → IsAlloc max own total s
    → IsAlloc max own' total' s
IsAlloc-ext e n a = record {
  nonempty = a.nonempty;
  room = a.room;
  sum = a.sum;
  split = a.split;
  owned = λ k. omega (arith, e k, a.owned k);
  few = omega (arith, a.few);
  within = a.within;
}

count-bottom : (id : ℕ) (ids : List ℕ) → 1 ≤ count (bottom (id ∷ ids)) (id ∷ ids)
count-bottom id [] = ground arith
count-bottom id (id' ∷ ids) = ground (arith, count-bottom id' ids)

-- The slot of the bottom is not taken.
pub bottom_free :
    {max : ℕ} {own : ℕ → ℕ} {total : ℕ} (s : Ids)
    → IsAlloc max own total s
    → s.table (bottom s.idstack) ≡ false
bottom_free s a = on_stack s.idstack a.nonempty (a.split (bottom s.idstack))
  where
    on_stack :
        (stack : List ℕ)
        → 0 < length stack
        → (if s.table (bottom stack) then 1 else 0) + count (bottom stack) stack
          ≡ (if leb (bottom stack) (bottom stack) then 1 else 0)
        → s.table (bottom stack) ≡ false
    on_stack [] h e = absurd (omega arith)
    on_stack (id ∷ ids) h e = ground (arith, count-bottom id ids)

-- What an allotment gives.
abbrev pub Allots : (max : ℕ) (own : ℕ → ℕ) (total : ℕ) (s : Ids) → Type 0
Allots max own total s =
    (id : ℕ) × (s' : Ids) × (allot s ≡ some (id, s'))
    × (s.table id ≡ false)
    × (id < max)
    × IsAlloc max (λ k. own k + (if id == k then 1 else 0)) (total + 1) s'

-- Below the limit there is an id, its slot was free, and the rest stays as it should be.
pub allot-IsAlloc :
    (max : ℕ) (own : ℕ → ℕ) (total : ℕ) (s : Ids)
    → max < 65536
    → s.param_number < max
    → IsAlloc max own total s
    → Allots max own total s
unfolding allot idstack_pop idstack_push
allot-IsAlloc max own total s h l a = on_stack s.idstack s.table s.param_number l a
  where
    on_stack :
        (stack : List ℕ) (table : ℕ → Bool) (n : ℕ)
        → n < max
        → IsAlloc max own total (record { table = table; param_number = n; idstack = stack })
        → Allots max own total (record { table = table; param_number = n; idstack = stack })
    on_stack [] table n l a = absurd (omega (arith, a.nonempty))
    on_stack (id ∷ []) table n l a = (
      id,
      _,
      refl,
      ground (arith, a.split id),
      omega (arith, a.sum),
      record {
        nonempty = omega arith;
        room = omega arith;
        sum = ground (arith, a.sum);
        split = λ k. ground (arith, a.split k, a.sum);
        owned = λ k. ground (arith, a.owned k, a.split k);
        few = ground (arith, a.few, a.sum);
        within = ground (arith, a.sum);
      },
    )
    on_stack (id ∷ id' ∷ ids) table n l a = (
      id,
      _,
      refl,
      ground (arith, a.split id),
      ground (arith, a.split id, a.within, count-bottom id' ids),
      record {
        nonempty = omega arith;
        room = ground (arith, a.room);
        sum = ground (arith, a.sum);
        split = λ k. ground (arith, a.split k);
        owned = λ k. ground (arith, a.owned k, a.split k);
        few = ground (arith, a.few);
        within = a.within;
      },
    )

-- An owner fewer.
disown :
    {max : ℕ} {own : ℕ → ℕ} {total : ℕ} (id : ℕ) {s : Ids}
    → IsAlloc max (λ k. own k + (if id == k then 1 else 0)) (total + 1) s
    → IsAlloc max own total s
disown id a = record {
  nonempty = a.nonempty;
  room = a.room;
  sum = a.sum;
  split = a.split;
  owned = λ k. omega (arith, a.owned k);
  few = omega (arith, a.few);
  within = a.within;
}

-- A released id has no owner any more; where the stack is full, its slot stays taken.
pub release-IsAlloc :
    (max : ℕ) (own : ℕ → ℕ) (total id : ℕ) (s : Ids)
    → max < 65536
    → IsAlloc max (λ k. own k + (if id == k then 1 else 0)) (total + 1) s
    → IsAlloc max own total (release id s)
unfolding release idstack_push
release-IsAlloc max own total id s h a = on_stack s.idstack s.table s.param_number a
  where
    same :
        (stack : List ℕ) (table : ℕ → Bool) (n : ℕ)
        → IsAlloc max
            (λ k. own k + (if id == k then 1 else 0))
            (total + 1)
            (record { table = table; param_number = n; idstack = stack })
        → id % 65536 ≡ id
    same stack table n a = ground (arith, a.owned id, a.split id, a.within)

    on_stack :
        (stack : List ℕ) (table : ℕ → Bool) (n : ℕ)
        → IsAlloc max
            (λ k. own k + (if id == k then 1 else 0))
            (total + 1)
            (record { table = table; param_number = n; idstack = stack })
        → IsAlloc max own total
            (release id (record { table = table; param_number = n; idstack = stack }))
    on_stack [] table n a = absurd (omega (arith, a.nonempty))
    on_stack (x ∷ xs) table n a = elim (Bool-cases (leb n 1)) [
      | inl few ↦ rw few (disown id a)
      | inr more ↦ rw more (elim (Bool-cases (leb 16 (length (x ∷ xs)))) [
        | inl full ↦ rw full (disown id a)
        | inr space ↦
            rw (space, same (x ∷ xs) table n a)
              (record {
                nonempty = omega arith;
                room = ground arith;
                sum = ground (arith, a.sum);
                split = λ k. ground (arith, a.split k, a.owned k);
                owned = λ k. ground (arith, a.owned k, a.owned id);
                few = ground (arith, a.few);
                within = a.within;
              })
      ])
    ]
