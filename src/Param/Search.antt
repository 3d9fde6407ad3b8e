-- ===== src/Param/Search.antt =====
-- tr069_parameter_find_node: what it returns, and that an addition hides nothing from it.
use tr.Base.{ℕ, ◌<◌, ◌≡◌, Option, none, some, List, [], ◌∷◌, arith, length, ℤ}
use tr.Platform.{Platform, Bytes}
use tr.CStr.{NoNul}
use tr.CStr.Compare.{memcmp_eq-ended}
use tr.Param.{
  Param, Tree, nil, node, Ids, Mgr, Added, DataType, append_leaf, add_at, add_dots, add_param,
  name_len, dots_of, leaf_of, find_node, find_at, stops_of,
}
use tr.Param.Owners.{add_param-cases}

-- Every node of a tree has the property.
abbrev pub Every : (Param → Type 0) → Tree → Type 0
Every Q nil = Unit {0}
Every Q (node p child next) = Q p × Every Q child × Every Q next

-- Names are strings proper.
abbrev pub IsNamed : Tree → Type 0
IsNamed = Every (λ p. NoNul p.param_name)

-- The node of an answer.
abbrev pub node_of : Option (Param × Tree) → Option Param
node_of none = none
node_of (some r) = some r.0

find_at-name :
    (name : Bytes) (n : ℕ) (stops : List ℕ) (t : Tree) (p : Param)
    → IsNamed t
    → n ≡ length name
    → node_of (find_at name n stops t) ≡ some p
    → p.param_name ≡ name
unfolding find_at
find_at-name name n [] t p z e f = cc
find_at-name name n (i ∷ stops) nil p z e f = cc
find_at-name name n (i ∷ stops) (node q child next) p z e f = ground (
  arith,
  find_at-name name n stops child p z.1,
  find_at-name name n (i ∷ stops) next p z.2,
  memcmp_eq-ended q.param_name name z.0,
)

-- The node that a search returns has exactly the name that was searched.
pub find_node-name :
    (P : Platform) (m : Mgr) (name : Bytes) (p : Param)
    → IsNamed m.root
    → length name < 65536
    → node_of (find_node P m name) ≡ some p
    → p.param_name ≡ name
unfolding find_node
find_node-name P m name p z l f =
    ground (arith, find_at-name name (name_len name) (stops_of name) m.root p z)

append_leaf-found :
    (new : Bytes) (leaf : ℕ → Param) (name : Bytes) (n : ℕ) (stops : List ℕ) (t : Tree) (s : Ids)
    (p : Param)
    → node_of (find_at name n stops t) ≡ some p
    → node_of (find_at name n stops (append_leaf new leaf t s).tree) ≡ some p
unfolding append_leaf find_at
append_leaf-found new leaf name n [] t s p f = cc
append_leaf-found new leaf name n (i ∷ stops) nil s p f = cc
append_leaf-found new leaf name n (i ∷ stops) (node q child next) s p f =
    ground (arith, append_leaf-found new leaf name n (i ∷ stops) next s p)

add_at-found :
    (P : Platform) (new : Bytes) (leaf : ℕ → Param) (dots : List ℕ) (name : Bytes) (n : ℕ)
    (stops : List ℕ) (t : Tree) (s : Ids) (p : Param)
    → node_of (find_at name n stops t) ≡ some p
    → node_of (find_at name n stops (add_at P new leaf dots t s).tree) ≡ some p
unfolding add_at find_at
add_at-found P new leaf dots name n [] t s p f = cc
add_at-found P new leaf dots name n (i ∷ stops) nil s p f = cc
add_at-found P new leaf [] name n (i ∷ stops) (node q child next) s p f =
    ground (arith, append_leaf-found new leaf name n (i ∷ stops) (node q child next) s p f)
add_at-found P new leaf (j ∷ dots) name n (i ∷ stops) (node q child next) s p f = ground (
  arith,
  add_at-found P new leaf dots name n stops child s p,
  add_at-found P new leaf (j ∷ dots) name n (i ∷ stops) next s p,
)

add_dots-found :
    (P : Platform) (new : Bytes) (leaf : ℕ → Param) (dots : List ℕ) (name : Bytes) (n : ℕ)
    (stops : List ℕ) (m : Mgr) (p : Param)
    → node_of (find_at name n stops m.root) ≡ some p
    → node_of (find_at name n stops (add_dots P new leaf dots m).tree) ≡ some p
unfolding add_dots
add_dots-found P new leaf [] name n stops m p f = f
add_dots-found P new leaf (i ∷ dots) name n stops m p f =
    add_at-found P new leaf (i ∷ dots) name n stops m.root m.ids p f

-- The manager after an addition.
abbrev pub mgr_of : Added → Mgr
mgr_of a = record { root = a.tree; ids = a.ids }

-- What could be found before an addition is found after it: the same node, with the same fields.
pub find_node-add_param :
    (P : Platform) (m : Mgr) (new : Bytes) (index : ℤ) (type : DataType) (notif : ℤ) (write : ℕ)
    (name : Bytes) (p : Param)
    → node_of (find_node P m name) ≡ some p
    → node_of (find_node P (mgr_of (add_param P m new index type notif write)) name) ≡ some p
unfolding find_node
find_node-add_param P m new index type notif write name p f =
    add_param-cases P m new index type notif write
      (λ a. node_of (find_node P (mgr_of a) name) ≡ some p) (λ r. f)
      (ground (
        arith,
        add_dots-found P new (leaf_of new index type notif write) (dots_of new) name (name_len name)
            (stops_of name) m p,
      ))
