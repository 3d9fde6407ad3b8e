-- ===== src/Param/Walk.antt =====
-- One step of a search and of an addition on the same level (tr069_parameter.c).
use tr.Base.{
  ℕ, ◌+◌, ◌-◌, ◌<◌, ◌≡◌, ap, ◌∙◌, Bool, true, false, ◌&&◌, Option, none, some, List, [], ◌∷◌, arith,
  length, get_or, ◌==◌, if◌then◌else◌,
}
use tr.Platform.{Bytes}
use tr.CStr.{memcmp_eq}
use tr.Param.{Param, Tree, node, find_at}
use tr.Param.Places.{search}
use tr.Param.Search.{node_of}

-- A node clashes with a name if it agrees with it up to a dot and not in the dot, or if it has the
-- name as a proper prefix.
abbrev pub Agrees : Bytes → Param → Type 0
Agrees name p =
    ((i : ℕ)
      → get_or name i 0 ≡ b'.'
      → memcmp_eq p.param_name name i ≡ true
      → memcmp_eq p.param_name name (i + 1) ≡ true)
    × (memcmp_eq p.param_name name (length name) ≡ true → get_or p.param_name (length name) 0 ≡ 0)

-- The last round of a search.
pub find_at-last :
    (name : Bytes) (q : Param) (child next : Tree)
    → 0 < length name
    → node_of (find_at name (length name) (search name []) (node q child next)) ≡ (
        if memcmp_eq q.param_name name (length name)
        then (if get_or q.param_name (length name) 0 == 0 then some q else none)
        else node_of (find_at name (length name) (search name []) next))
unfolding find_at
find_at-last name q child next h =
    last_round (memcmp_eq q.param_name name (length name - 1 + 1))
      (find_at name (length name) (search name []) next) (omega arith)
    ∙ ap
        (λ k.
          if memcmp_eq q.param_name name k
          then (if get_or q.param_name (length name) 0 == 0 then some q else none)
          else node_of (find_at name (length name) (search name []) next))
        {y = length name} (omega arith)
  where
    last_round :
        (b : Bool) (rest : Option (Param × Tree))
        → length name - 1 + 1 ≡ length name
        → node_of (
            if b
            then (if (length name - 1 + 1 == length name)
                  && (get_or q.param_name (length name) 0 == 0)
                then some (q, child)
                else none)
            else rest)
          ≡ (if b
              then (if get_or q.param_name (length name) 0 == 0 then some q else none)
              else node_of rest)
    last_round b rest e = ground (arith, e)

pub find_at-down :
    (name : Bytes) (n i : ℕ) (stops : List ℕ) (q : Param) (child next : Tree)
    → i + 1 < n
    → memcmp_eq q.param_name name (i + 1) ≡ true
    → find_at name n (i ∷ stops) (node q child next) ≡ find_at name n stops child
unfolding find_at
find_at-down name n i stops q child next l h = ground (arith, h)

pub find_at-on :
    (name : Bytes) (n i : ℕ) (stops : List ℕ) (q : Param) (child next : Tree)
    → memcmp_eq q.param_name name (i + 1) ≡ false
    → find_at name n (i ∷ stops) (node q child next) ≡ find_at name n (i ∷ stops) next
unfolding find_at
find_at-on name n i stops q child next h = ground (arith, h)
