-- ===== src/Param/Enumerate.antt =====
-- tr069_parameter_get_param: which parameters it writes, and that the caller's array holds them.
use mathlib.Core.List.{append-nil, append_assoc}
use tr.Base.{
  ℕ, ◌+◌, ◌<◌, ◌≤◌, ◌≡◌, refl, sym, ap, ◌∙◌, inl, inr, Bool, not, ◌||◌, ◌&&◌, Option, none, some,
  List, [], ◌∷◌, ◌++◌, arith, length, length-append, ◌==◌, if◌then◌else◌, ℤ, pos, minus_one,
  Bool-cases,
}
use tr.Platform.{Platform, Bytes}
use tr.Param.{Param, Tree, nil, node, Mgr, is_object, name_len, stops_of}
use tr.Param.Prune.{
  keep, root_of, get_from, get_children, recursive_get, get_level, get_param, source_of, counted,
  int16,
}
use tr.Param.Alloc.{size}
use tr.Param.Owners.{IsOwned}
use tr.Param.Lifetime.{unlink_at-size, find_node-eq}

-- A tree in preorder, and the parameters among some nodes, with the objects or without.
abbrev pub preorder : Tree → List Param
preorder nil = []
preorder (node p child next) = p ∷ (preorder child ++ preorder next)

abbrev pub wanted : Bool → List Param → List Param
wanted objects [] = []
wanted objects (p ∷ ps) =
    if objects || not (is_object p.data_type) then p ∷ wanted objects ps else wanted objects ps

abbrev level : Tree → List Param
level nil = []
level (node p child next) = p ∷ level next

wanted-append :
    (objects : Bool) (ps qs : List Param)
    → wanted objects (ps ++ qs) ≡ wanted objects ps ++ wanted objects qs
wanted-append objects [] qs = refl
wanted-append objects (p ∷ ps) qs = ground (arith, wanted-append objects ps qs)

keep-append :
    (objects : Bool) (p : Param) (got ps : List Param)
    → keep objects p got ++ wanted objects ps ≡ got ++ wanted objects (p ∷ ps)
unfolding keep
keep-append objects p got ps = elim (Bool-cases (objects || not (is_object p.data_type))) [
  | inl yes' ↦ rw yes' (append_assoc got (p ∷ []) (wanted objects ps))
  | inr no' ↦ rw no' refl
]

get_children_lem :
    (objects : Bool) (t : Tree) (got : List Param)
    → get_children objects t got ≡ got ++ wanted objects (preorder t)
unfolding get_children
get_children_lem objects nil got = sym (append-nil got)
get_children_lem objects (node p child next) got =
    get_children_lem objects next (get_children objects child (keep objects p got))
    ∙ ap (λ l. l ++ wanted objects (preorder next))
        (get_children_lem objects child (keep objects p got))
    ∙ append_assoc (keep objects p got) (wanted objects (preorder child))
        (wanted objects (preorder next))
    ∙ ap (λ l. keep objects p got ++ l)
        (sym (wanted-append objects (preorder child) (preorder next)))
    ∙ keep-append objects p got (preorder child ++ preorder next)

-- The recursion over a node writes the node and what lies below it, in preorder.
recursive_get_lem :
    (objects : Bool) (p : Param) (child : Tree) (got : List Param)
    → recursive_get objects p child got ≡ got ++ wanted objects (p ∷ preorder child)
unfolding recursive_get
recursive_get_lem objects p child got =
    get_children_lem objects child (keep objects p got) ∙ keep-append objects p got (preorder child)

get_level_lem :
    (objects : Bool) (t : Tree) (got : List Param)
    → get_level objects t got ≡ got ++ wanted objects (level t)
unfolding get_level
get_level_lem objects nil got = sym (append-nil got)
get_level_lem objects (node p child next) got =
    get_level_lem objects next (keep objects p got) ∙ keep-append objects p got (level next)

length-wanted : (objects : Bool) (ps : List Param) → length (wanted objects ps) ≤ length ps
length-wanted objects [] = omega arith
length-wanted objects (p ∷ ps) = ground (arith, length-wanted objects ps)

length-preorder : (t : Tree) → length (preorder t) ≡ size t
length-preorder nil = refl
length-preorder (node p child next) = omega (
  arith,
  length-append (preorder child) (preorder next),
  length-preorder child,
  length-preorder next,
)

length-level : (t : Tree) → length (level t) ≤ size t
length-level nil = omega arith
length-level (node p child next) = omega (arith, length-level next)

-- What an enumeration should return for a node.
abbrev pub listed : (next_level : ℕ) (objects : Bool) (whole : Bool) → Param → Tree → List Param
listed next_level objects whole p child =
    if whole && (next_level == 1)
    then p ∷ []
    else if next_level == 0
    then wanted objects (p ∷ preorder child)
    else wanted objects (level child)

length-subtree :
    (objects : Bool) (p : Param) (child : Tree)
    → length (wanted objects (p ∷ preorder child)) ≤ 1 + size child
length-subtree objects p child =
    omega (arith, length-wanted objects (p ∷ preorder child), length-preorder child)

length-next :
    (objects : Bool) (child : Tree) → length (wanted objects (level child)) ≤ 1 + size child
length-next objects child = omega (arith, length-wanted objects (level child), length-level child)

root_of-size :
    (t : Tree) (p : Param) (child : Tree) → root_of t ≡ some (p, child) → 1 + size child ≤ size t
unfolding root_of
root_of-size nil p child e = cc
root_of-size (node q below next) p child e = ground (arith, e)

source_of-size :
    (P : Platform) (m : Mgr) (name : Bytes) (p : Param) (child : Tree)
    → source_of P m name ≡ some (p, child)
    → 1 + size child ≤ size m.root
unfolding source_of
source_of-size P m [] p child e = root_of-size m.root p child e
source_of-size P m (c ∷ cs) p child e = omega (
  arith,
  unlink_at-size (c ∷ cs) (name_len (c ∷ cs)) (stops_of (c ∷ cs)) m.root p child
      (find_node-eq P m (c ∷ cs) e),
)

-- What tr069_parameter_get_param has to do: find the node and list it.
abbrev pub answer :
    (name : Bytes) (next_level : ℕ) (objects : Bool) → Option (Param × Tree) → ℤ × List Param
answer name next_level objects none = (minus_one, [])
answer name next_level objects (some (p, child)) =
    let got = listed next_level objects (length name == 0) p child in (pos (length got), got)

int16-small : (n : ℕ) → n < 32768 → int16 n ≡ pos n
int16-small n h = ground arith

counted-listed :
    (got want : List Param) (n : ℕ)
    → got ≡ want
    → length want ≤ n
    → n < 32768
    → (counted got ≡ (pos (length want), want)) × (length got ≤ n)
counted-listed got want n e l h = (
  ap counted e ∙ ap (λ r. (r, want)) (int16-small (length want) (omega arith)),
  omega (arith, ap length e, l),
)

get_from_lem :
    (name : Bytes) (next_level : ℕ) (objects : Bool) (source : Option (Param × Tree)) (n : ℕ)
    → n < 32768
    → ((p : Param) (child : Tree) → source ≡ some (p, child) → 1 + size child ≤ n)
    → (get_from name next_level objects source ≡ answer name next_level objects source)
      × (length (get_from name next_level objects source).1 ≤ n)
unfolding get_from
get_from_lem name next_level objects none n h room = (refl, omega arith)
get_from_lem name next_level objects (some (p, child)) n h room =
    elim (Bool-cases ((length name == 0) && (next_level == 1))) [
      | inl whole ↦ rw whole (refl, omega (arith, room p child refl))
      | inr part ↦ rw part (elim (Bool-cases (next_level == 0)) [
        | inl all ↦ rw all (
            counted-listed (recursive_get objects p child []) (wanted objects (p ∷ preorder child))
              n (recursive_get_lem objects p child [])
              (omega (arith, room p child refl, length-subtree objects p child)) h)
        | inr one ↦ rw one (
            counted-listed (get_level objects child []) (wanted objects (level child)) n
              (get_level_lem objects child [])
              (omega (arith, room p child refl, length-next objects child)) h)
      ])
    ]

-- In a manager in order, and with TR069_MAX_PARAM_NUM below 32768: an enumeration returns how many
-- parameters it wrote, at most TR069_MAX_PARAM_NUM, or -1 where it finds no node. It writes the node
-- and what lies below it, in preorder, where `next_level` is 0, and the nodes of the next level where
-- it is another number, in both cases without the objects where they are not wanted; for the empty
-- name and 1 it writes the root alone.
pub get_param_lem :
    (P : Platform) (m : Mgr) (name : Bytes) (next_level : ℕ) (objects : Bool)
    → P.max_param_num < 32768
    → IsOwned P.max_param_num m.root m.ids
    → (get_param P m name next_level objects ≡ answer name next_level objects (source_of P m name))
      × (length (get_param P m name next_level objects).1 ≤ P.max_param_num)
unfolding get_param
get_param_lem P m name next_level objects h a =
    get_from_lem name next_level objects (source_of P m name) P.max_param_num h (λ p child e.
      omega (arith, source_of-size P m name p child e, a.few, a.sum, a.nonempty, a.within))
