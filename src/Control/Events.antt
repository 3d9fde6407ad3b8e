-- ===== src/Control/Events.antt =====
-- The event flags of tr069_control.c and their counter.
use native.Mathlib.Decide.{ℕ_discrete}
use tr.Base.{
  ℕ, zero, suc, ◌+◌, ◌-◌, ◌<◌, ◌≤◌, ◌≡◌, ◌≢◌, refl, ◌∙◌, ◌⊎◌, inl, inr, Option, false, List, [],
  ◌∷◌, arith, length, get_or, set, replicate, count, length-set, length-replicate, count-set,
  count-replicate_ne, count-le-length, get_or-set, ◌==◌, if◌then◌else◌, ℤ, pos, negsuc, minus_one,
  index_below, is_num, Bool-cases,
}
use tr.Platform.{Platform, Bytes, IsSane}
use tr.Control.{
  Control, Event, mark, set_event, clear_event, count_from, none_from, get_event_number,
  is_event_empty, copy_key,
}

-- Every flag is 0 or 1.
abbrev pub AreBits : List ℕ → Type 0
AreBits [] = Unit {0}
AreBits (x ∷ xs) = (x ≤ 1) × AreBits xs

-- The array has its size, its bytes are flags, and `number` counts those that are set.
pub record IsEvent (n : ℕ) (e : Event) : Type 0 where
  pub sized : length e.event_flag ≡ n
  pub bits : AreBits e.event_flag
  pub counted : e.number ≡ count 1 e.event_flag

get_or-le : (xs : List ℕ) (i : ℕ) → AreBits xs → get_or xs i 0 ≤ 1
get_or-le [] i b = omega arith
get_or-le (x ∷ xs) zero b = b.0
get_or-le (x ∷ xs) (suc i) b = get_or-le xs i b.1

set-AreBits : (xs : List ℕ) (i v : ℕ) → v ≤ 1 → AreBits xs → AreBits (set xs i v)
set-AreBits [] i v h b = tt
set-AreBits (x ∷ xs) zero v h b = (h, b.1)
set-AreBits (x ∷ xs) (suc i) v h b = (b.0, set-AreBits xs i v h b.1)

replicate-AreBits : (n : ℕ) → AreBits (replicate n 0)
replicate-AreBits zero = tt
replicate-AreBits (suc n) = (omega arith, replicate-AreBits n)

counted_mark :
    (e : Event) (n i v : ℕ) (key : Option Bytes)
    → n < 256
    → IsEvent n e
    → i < n
    → v ≤ 1
    → (mark e i v key).number ≡ count 1 (set e.event_flag i v)
unfolding mark
counted_mark e n i v key hn w hi hv = ground (
  arith,
  get_or-le e.event_flag i w.bits,
  count-set 1 e.event_flag i v,
  count-le-length 1 e.event_flag,
  count-le-length 1 (set e.event_flag i v),
  length-set e.event_flag i v,
  w.sized,
  w.counted,
)

pub mark-IsEvent :
    (e : Event) (n i v : ℕ) (key : Option Bytes)
    → n < 256
    → IsEvent n e
    → i < n
    → v ≤ 1
    → IsEvent n (mark e i v key)
unfolding mark
mark-IsEvent e n i v key hn w hi hv = record {
  sized = length-set e.event_flag i v ∙ w.sized;
  bits = set-AreBits e.event_flag i v hv w.bits;
  counted = counted_mark e n i v key hn w hi hv;
}

-- The loop from index 0 over a whole array counts its ones.
count_from-cons :
    (x : ℕ) (xs : List ℕ) (i n num : ℕ) → count_from (x ∷ xs) (suc i) n num ≡ count_from xs i n num
unfolding count_from
count_from-cons x xs i zero num = refl
count_from-cons x xs i (suc n) num =
    let e : suc i + 1 ≡ suc (i + 1) = omega arith in rw e (count_from-cons x xs (i + 1) n _)

count_from-eq-count : (xs : List ℕ) (num : ℕ) → count_from xs 0 (length xs) num ≡ num + count 1 xs
unfolding count_from
count_from-eq-count [] num = omega arith
count_from-eq-count (x ∷ xs) num =
    let num' = (if x == 1 then num + 1 else num) in
    count_from-cons x xs 0 (length xs) num' ∙ count_from-eq-count xs num' ∙ ground arith

module _ (P : Platform) (s : IsSane P) where
  -- tr069_control_set_event keeps the counter equal to the number of flags set, whatever it is
  -- called with.
  pub set_event-IsEvent :
      (c : Control) (index value : ℤ) (key : Option Bytes)
      → IsEvent P.event_number c.event
      → IsEvent P.event_number (set_event P c index value key).1.event
  unfolding set_event
  set_event-IsEvent c (negsuc i) value key w = w
  set_event-IsEvent c (pos i) value key w = ground (
    arith,
    mark-IsEvent c.event P.event_number i 0 key s.few_events w,
    mark-IsEvent c.event P.event_number i 1 key s.few_events w,
  )

  pub clear_event-IsEvent : (c : Control) → IsEvent P.event_number (clear_event P c).1.event
  unfolding clear_event
  clear_event-IsEvent c = record {
    sized = length-replicate P.event_number 0;
    bits = replicate-AreBits P.event_number;
    counted = ground (arith, count-replicate_ne 1 P.event_number 0);
  }

  -- tr069_control_get_event_number, which walks the flags, returns what the counter of a well-formed
  -- event says.
  pub get_event_number_lem :
      (e : Event) → IsEvent P.event_number e → get_event_number P e ≡ e.number
  unfolding get_event_number
  get_event_number_lem e w =
      let whole : P.event_number - P.event_bootstrap ≡ length e.event_flag =
        omega (arith, s.bootstrap_first, w.sized) in
      rw (whole, s.bootstrap_first) (count_from-eq-count e.event_flag 0 ∙ ground (arith, w.counted))

-- What the loop of tr069_control_is_event_empty finds.
abbrev pub Finds : List ℕ → ℕ → ℕ → ℤ → Type 0
Finds flags lo hi r =
    ((r ≡ pos 0) × ((k : ℕ) × (lo ≤ k) × (k < hi) × (get_or flags k 0 ≡ 1)))
    ⊎ ((r ≡ pos 1) × ((k : ℕ) → lo ≤ k → k < hi → get_or flags k 0 ≢ 1))

none_from-Finds : (flags : List ℕ) (i n : ℕ) → Finds flags i (i + n) (none_from flags i n)
unfolding none_from
none_from-Finds flags i zero = inr (refl, λ k h1 h2 _. absurd (omega arith))
none_from-Finds flags i (suc n) = elim (Bool-cases (get_or flags i 0 == 1)) [
  | inl hit ↦ rw hit (inl (refl, (i, omega arith, omega arith, ground arith)))
  | inr miss ↦ rw miss (elim (none_from-Finds flags (i + 1) n) [
    | inl (e, (k, a, b, h)) ↦ inl (e, (k, omega arith, omega arith, h))
    | inr (e, all) ↦ inr (
      e,
      λ k a b h. elim (ℕ_discrete k i) [
        | yes same ↦ ground arith
        | no other ↦ all k (omega arith) (omega arith) h
      ],
    )
  ])
]

-- tr069_control_is_event_empty returns 0 exactly when a primary event is raised, and 1 otherwise.
pub is_event_empty-Finds :
    (P : Platform) (e : Event)
    → IsSane P
    → Finds e.event_flag 0 P.event_m_scheduleinform (is_event_empty P e)
unfolding is_event_empty
is_event_empty-Finds P e s =
    rw (s.bootstrap_first, sub-zero)
      (rw zero-add at (none_from-Finds e.event_flag 0 P.event_m_scheduleinform))
  where
    zero-add : 0 + P.event_m_scheduleinform ≡ P.event_m_scheduleinform
    zero-add = omega arith

    sub-zero : P.event_m_scheduleinform - 0 ≡ P.event_m_scheduleinform
    sub-zero = omega arith

module _ (P : Platform) (s : IsSane P) where
  pub set_event-ok :
      (c : Control) (i v : ℕ) (key : Option Bytes)
      → i < P.event_number
      → v ≤ 1
      → set_event P c (pos i) (pos v) key ≡ (pos 0, record c { event = mark c.event i v key })
  unfolding set_event
  set_event-ok c i zero key hi hv = ground arith
  set_event-ok c i (suc zero) key hi hv = ground arith
  set_event-ok c i (suc (suc v)) key hi hv = absurd (omega arith)

  -- An accepted call raises or lowers its own flag, leaves every other flag and all the rest of
  -- the manager alone, and stores the key, if there is one, up to its 31st byte.
  pub set_event_lem :
      (c : Control) (i v j : ℕ) (key : Option Bytes)
      → length c.event.event_flag ≡ P.event_number
      → i < P.event_number
      → v ≤ 1
      → let (r, c') = set_event P c (pos i) (pos v) key in
        (r ≡ pos 0)
        × (get_or c'.event.event_flag j 0 ≡ (if i == j then v else get_or c.event.event_flag j 0))
        × (c'.event.command_key ≡ copy_key key c.event.command_key)
        × (c' ≡ record c { event = c'.event })
  set_event_lem c i v j key sized hi hv = rw (set_event-ok c i v key hi hv) (
      unfold mark in
      (refl, get_or-set c.event.event_flag i j v 0 (omega (arith, sized)), refl, refl))

  -- A call with an index or a value out of range fails and changes nothing.
  pub set_event_rejects :
      (c : Control) (index value : ℤ) (key : Option Bytes)
      → (index_below P.event_number index ≡ Option.none)
        ⊎ ((is_num value 0 ≡ false) × (is_num value 1 ≡ false))
      → set_event P c index value key ≡ (minus_one, c)
  unfolding set_event
  set_event_rejects c index value key (inl bad) = rw (bad, set_event)
  set_event_rejects c (negsuc i) value key (inr bad) = refl
  set_event_rejects c (pos i) value key (inr bad) = ground arith
