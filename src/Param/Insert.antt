-- ===== src/Param/Insert.antt =====
-- tr069_parameter_add_param followed by tr069_parameter_find_node. Both walk down the levels of a
-- name, but compare different numbers of bytes, so they meet where no node of the tree clashes.
use mathlib.Core.Path.{subst}
use tr.Base.{
  ℕ, ◌+◌, ◌-◌, ◌%◌, ◌<◌, ◌≤◌, ◌≡◌, ◌≢◌, refl, sym, ap, ap₂, ◌∙◌, inl, inr, Bool, false, Option,
  none, some, List, [], ◌∷◌, arith, length, take, get_or, ltb, leb, if◌then◌else◌, ℤ, Bool-cases,
  Option-cases, take-of_le,
}
use tr.Platform.{Platform, Bytes}
use tr.CStr.{strcmp_eq, memcmp_eq}
use tr.CStr.Compare.{
  memcmp_eq-ended, memcmp_eq-shorter, memcmp_eq_refl, memcmp_eq-take, strcmp_eq_refl, get_or-length,
}
use tr.Param.{
  Param, Tree, nil, node, Ids, Mgr, Added, Pointer, DataType, allot, append_leaf, add_at, add_dots,
  add_guard, add_param, name_len, dots_of, leaf_of, middle, find_node, find_at, stops_of, below,
  placed, put_leaf,
}
use tr.Param.Places.{Inner, search, stops_of-search, dots_of-Inner}
use tr.Param.Search.{Every, IsNamed, node_of, mgr_of}
use tr.Param.Walk.{Agrees, find_at-last, find_at-down, find_at-on}

append_leaf-find :
    (name : Bytes) (leaf : ℕ → Param) (t : Tree) (s : Ids) (p : Param)
    → 0 < length name
    → IsNamed t
    → Every (Agrees name) t
    → ((id : ℕ) → (leaf id).param_name ≡ name)
    → (append_leaf name leaf t s).result ≡ Pointer.to p
    → node_of (find_at name (length name) (search name []) (append_leaf name leaf t s).tree)
      ≡ some p
unfolding append_leaf
append_leaf-find name leaf nil s p h z c e r = on_id (allot s) r
  where
    on_id :
        (o : Option (ℕ × Ids))
        → (placed s (put_leaf leaf) o).result ≡ Pointer.to p
        → node_of (find_at name (length name) (search name []) (placed s (put_leaf leaf) o).tree)
          ≡ some p
    on_id none r = cc
    on_id (some (id, s')) r =
        find_at-last name (leaf id) nil nil h
        ∙ ground (
          arith,
          r,
          ap (λ x. memcmp_eq x name (length name)) (e id),
          ap (λ x. get_or x (length name) 0) (e id),
          memcmp_eq_refl name (length name) (omega arith),
          get_or-length name,
        )
append_leaf-find name leaf (node q child next) s p h z c e r =
    elim (Bool-cases (strcmp_eq name q.param_name)) [
      | inl same ↦ absurd (ground (arith, same))
      | inr other ↦ rw other (
          find_at-last name q child (append_leaf name leaf next s).tree h
          ∙ ground (
            arith,
            append_leaf-find name leaf next s p h z.2 c.2 e,
            memcmp_eq-ended q.param_name name z.0,
            strcmp_eq_refl name,
            c.0.1,
          ))
    ]

add_at-find :
    (P : Platform) (name : Bytes) (leaf : ℕ → Param) (dots : List ℕ) (t : Tree) (s : Ids)
    (p : Param)
    → 0 < length name
    → Inner name dots
    → IsNamed t
    → Every (Agrees name) t
    → ((id : ℕ) → (leaf id).param_name ≡ name)
    → (add_at P name leaf dots t s).result ≡ Pointer.to p
    → node_of (find_at name (length name) (search name dots) (add_at P name leaf dots t s).tree)
      ≡ some p
unfolding add_at
add_at-find P name leaf [] t s p h d z c e r =
    elim (Bool-cases (leb P.max_param_num s.param_number)) [
      | inl full ↦ absurd (ground (arith, full))
      | inr room ↦
          rw (add_at, room) (append_leaf-find name leaf t s p h z c e (ground (arith, room)))
    ]
add_at-find P name leaf (i ∷ dots) nil s p h d z c e r =
    elim (Bool-cases (leb P.max_param_num s.param_number)) [
      | inl full ↦ absurd (ground (arith, full))
      | inr room ↦
          rw (add_at, room)
            (on_id (λ s' r'. add_at-find P name leaf dots nil s' p h d.1 tt tt e r') (allot s)
              (ground (arith, room, r)))
    ]
  where
    put : ℕ → Ids → Added
    put id s' = below (middle P.notification_off name i id) nil (add_at P name leaf dots nil s')

    on_id :
        ((s' : Ids)
          → (add_at P name leaf dots nil s').result ≡ Pointer.to p
          → node_of
              (find_at name (length name) (search name dots) (add_at P name leaf dots nil s').tree)
            ≡ some p)
        → (o : Option (ℕ × Ids)) → (placed s put o).result ≡ Pointer.to p
        → node_of (find_at name (length name) (search name (i ∷ dots)) (placed s put o).tree)
          ≡ some p
    on_id ih none r = cc
    on_id ih (some (id, s')) r =
        ap node_of (
          find_at-down name (length name) i (search name dots) (middle P.notification_off name i id)
            (add_at P name leaf dots nil s').tree nil d.0.1
            (memcmp_eq-take name (i + 1) (omega (arith, d.0.1))))
        ∙ ih s' r
add_at-find P name leaf (i ∷ dots) (node q child next) s p h d z c e r =
    elim (Bool-cases (memcmp_eq q.param_name name i)) [
      | inl same ↦
          rw (add_at, same)
            (ap node_of (
                find_at-down name (length name) i (search name dots) q
                  (add_at P name leaf dots child s).tree next d.0.1 (c.0.0 i d.0.0 same))
              ∙ add_at-find P name leaf dots child s p h d.1 z.1 c.1 e (ground (arith, same, r)))
      | inr other ↦
          rw (add_at, other)
            (ap node_of (
                find_at-on name (length name) i (search name dots) q child
                  (add_at P name leaf (i ∷ dots) next s).tree (longer other))
              ∙ add_at-find P name leaf (i ∷ dots) next s p h d z.2 c.2 e
                  (ground (arith, other, r)))
    ]
  where
    longer : memcmp_eq q.param_name name i ≡ false → memcmp_eq q.param_name name (i + 1) ≡ false
    longer other = ground (arith, memcmp_eq-shorter q.param_name name i)

-- A name that passes the tests of tr069_parameter_add_param.
pub add_guard-none :
    (P : Platform) (m : Mgr) (name : Bytes) (type : DataType)
    → length name < 65536
    → add_guard P m name type ≡ none
    → (0 < length name)
      × (length name ≤ P.max_param_name_len)
      × (get_or name (length name - 1) 0 ≢ b'.')
unfolding add_guard
add_guard-none P m name type h g = ground (arith, g, short, ap (λ k. get_or name (k - 1) 0) short)
  where
    short : length name % 65536 ≡ length name
    short = omega arith

add_guard-ne-to :
    (P : Platform) (m : Mgr) (name : Bytes) (type : DataType) (p : Param)
    → add_guard P m name type ≢ some (Pointer.to p)
unfolding add_guard
add_guard-ne-to P m name type p = ground arith

-- A node is returned only where the early returns are passed.
add_param-to :
    (P : Platform) (m : Mgr) (name : Bytes) (index : ℤ) (type : DataType) (notif : ℤ) (write : ℕ)
    (p : Param)
    → (add_param P m name index type notif write).result ≡ Pointer.to p
    → (add_guard P m name type ≡ none)
      × (add_param P m name index type notif write
          ≡ add_dots P name (leaf_of name index type notif write) (dots_of name) m)
unfolding add_param
add_param-to P m name index type notif write p r = elim (Option-cases (add_guard P m name type)) [
  | inl go ↦ (go, rw (add_param, go) refl)
  | inr (q, stop) ↦ absurd (add_guard-ne-to P m name type p (ground (arith, stop, r)))
]

add_dots-find :
    (P : Platform) (m : Mgr) (name : Bytes) (leaf : ℕ → Param) (dots : List ℕ) (p : Param)
    → 0 < length name
    → Inner name dots
    → IsNamed m.root
    → Every (Agrees name) m.root
    → ((id : ℕ) → (leaf id).param_name ≡ name)
    → (add_dots P name leaf dots m).result ≡ Pointer.to p
    → node_of (find_at name (length name) (search name dots) (add_dots P name leaf dots m).tree)
      ≡ some p
unfolding add_dots
add_dots-find P m name leaf [] p h d z c e r = absurd (ground (arith, r))
add_dots-find P m name leaf (i ∷ dots) p h d z c e r =
    add_at-find P name leaf (i ∷ dots) m.root m.ids p h d z c e r

-- A search by a name that an addition accepts.
pub find_node-plain :
    (P : Platform) (m : Mgr) (name : Bytes)
    → length name < 65536
    → (0 < length name)
      × (length name ≤ P.max_param_name_len)
      × (get_or name (length name - 1) 0 ≢ b'.')
    → find_node P m name ≡ find_at name (length name) (search name (dots_of name)) m.root
unfolding find_node
find_node-plain P m name h (some_bytes, fits, plain) =
    passed (ltb P.max_param_name_len (name_len name)) (ground arith)
    ∙ ap₂ (λ n stops. find_at name n stops m.root) short (stops_of-search name h some_bytes plain)
  where
    short : length name % 65536 ≡ length name
    short = omega arith

    passed :
        (b : Bool)
        → b ≡ false
        → (if b then none else find_at name (name_len name) (stops_of name) m.root)
          ≡ find_at name (name_len name) (stops_of name) m.root
    passed b e = ground (arith, e)

-- A parameter that was added is found by its name, where no node of the tree clashes with it.
pub find_node-add_param_self :
    (P : Platform) (m : Mgr) (name : Bytes) (index : ℤ) (type : DataType) (notif : ℤ) (write : ℕ)
    (p : Param)
    → length name < 65536
    → IsNamed m.root
    → Every (Agrees name) m.root
    → (add_param P m name index type notif write).result ≡ Pointer.to p
    → node_of (find_node P (mgr_of (add_param P m name index type notif write)) name) ≡ some p
find_node-add_param_self P m name index type notif write p h z c r =
    let (go, is_dots) = add_param-to P m name index type notif write p r in
    let new = add_dots P name (leaf_of name index type notif write) (dots_of name) m in
    subst (λ a. node_of (find_node P (mgr_of a) name) ≡ some p) (sym is_dots)
      (ap node_of (find_node-plain P (mgr_of new) name h (add_guard-none P m name type h go))
        ∙ add_dots-find P m name (leaf_of name index type notif write) (dots_of name) p
            (add_guard-none P m name type h go).0
            (dots_of-Inner name h (add_guard-none P m name type h go).2) z c
            (λ id. ap (λ n. take n name) (short h) ∙ take-of_le (length name) name (omega arith))
            (sym (ap (λ (a : Added). a.result) is_dots) ∙ r))
  where
    short : length name < 65536 → length name % 65536 ≡ length name
    short h = omega arith
