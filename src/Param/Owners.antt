-- ===== src/Param/Owners.antt =====
-- The nodes of the tree own their slots of the table, also after an addition.
use tr.Base.{
  ℕ, ◌+◌, ◌<◌, ◌≡◌, refl, inl, inr, Option, none, some, List, [], ◌∷◌, arith, leb, ◌==◌,
  if◌then◌else◌, ℤ, Bool-cases,
}
use tr.Platform.{Platform, Bytes}
use tr.CStr.{strcmp_eq, memcmp_eq}
use tr.Param.{
  Param, Tree, nil, node, Ids, Mgr, Added, Pointer, DataType, append_leaf, add_at, add_dots,
  add_guard, add_null, add_param, dots_of, leaf_of,
}
use tr.Param.Alloc.{IsAlloc, IsAlloc-ext, allot-IsAlloc, occurs, size}

-- The nodes of a tree and `own` others.
abbrev pub Owns : ℕ → (ℕ → ℕ) → ℕ → Tree → Ids → Type 0
Owns max own total t s = IsAlloc max (λ k. own k + occurs k t) (total + size t) s

-- The manager as a whole.
abbrev pub IsOwned : ℕ → Tree → Ids → Type 0
IsOwned max t s = IsAlloc max (λ k. occurs k t) (size t) s

-- An addition owns its tree.
abbrev pub OwnsAdded : ℕ → (ℕ → ℕ) → ℕ → Added → Type 0
OwnsAdded max own total a = Owns max own total a.tree a.ids

append_leaf-Owns :
    (max : ℕ) (name : Bytes) (leaf : ℕ → Param) (own : ℕ → ℕ) (total : ℕ) (t : Tree) (s : Ids)
    → max < 65536
    → s.param_number < max
    → ((id : ℕ) → (leaf id).param_id ≡ id)
    → Owns max own total t s
    → OwnsAdded max own total (append_leaf name leaf t s)
unfolding append_leaf
append_leaf-Owns max name leaf own total nil s h l e a =
    let (id, s', got, free, below_max, a') =
      allot-IsAlloc max own total s h l (IsAlloc-ext (λ k. omega arith) (omega arith) a) in
    rw (append_leaf, got) (IsAlloc-ext (λ k. ground (arith, e id)) (omega arith) a')
append_leaf-Owns max name leaf own total (node p child next) s h l e a =
    elim (Bool-cases (strcmp_eq name p.param_name)) [
      | inl same ↦ rw same a
      | inr other ↦ rw other (
          IsAlloc-ext (λ k. omega arith) (omega arith)
            (append_leaf-Owns max name leaf
              (λ k. own k + ((if p.param_id == k then 1 else 0) + occurs k child))
              (total + (1 + size child)) next s h l e
              (IsAlloc-ext (λ k. omega arith) (omega arith) a)))
    ]

add_at-Owns :
    (P : Platform) (name : Bytes) (leaf : ℕ → Param) (own : ℕ → ℕ) (total : ℕ) (dots : List ℕ)
    (t : Tree) (s : Ids)
    → P.max_param_num < 65536
    → ((id : ℕ) → (leaf id).param_id ≡ id)
    → Owns P.max_param_num own total t s
    → OwnsAdded P.max_param_num own total (add_at P name leaf dots t s)
unfolding add_at
add_at-Owns P name leaf own total [] t s h e a =
    elim (Bool-cases (leb P.max_param_num s.param_number)) [
      | inl full ↦ rw full a
      | inr room ↦
          rw room (append_leaf-Owns P.max_param_num name leaf own total t s h (ground arith) e a)
    ]
add_at-Owns P name leaf own total (i ∷ dots) nil s h e a =
    elim (Bool-cases (leb P.max_param_num s.param_number)) [
      | inl full ↦ rw full a
      | inr room ↦
          let (id, s', got, free, in_range, a') =
            allot-IsAlloc P.max_param_num own total s h (ground arith)
              (IsAlloc-ext (λ k. omega arith) (omega arith) a) in
          rw (add_at, room, got)
            (IsAlloc-ext (λ k. omega arith) (omega arith)
              (add_at-Owns P name leaf (λ k. own k + (if id == k then 1 else 0)) (total + 1) dots
                nil s' h e (IsAlloc-ext (λ k. omega arith) (omega arith) a')))
    ]
add_at-Owns P name leaf own total (i ∷ dots) (node p child next) s h e a =
    elim (Bool-cases (memcmp_eq p.param_name name i)) [
      | inl down ↦ rw down (
          IsAlloc-ext (λ k. omega arith) (omega arith)
            (add_at-Owns P name leaf
              (λ k. own k + ((if p.param_id == k then 1 else 0) + occurs k next))
              (total + (1 + size next)) dots child s h e
              (IsAlloc-ext (λ k. omega arith) (omega arith) a)))
      | inr on ↦ rw on (
          IsAlloc-ext (λ k. omega arith) (omega arith)
            (add_at-Owns P name leaf
              (λ k. own k + ((if p.param_id == k then 1 else 0) + occurs k child))
              (total + (1 + size child)) (i ∷ dots) next s h e
              (IsAlloc-ext (λ k. omega arith) (omega arith) a)))
    ]

add_dots-Owns :
    (P : Platform) (name : Bytes) (leaf : ℕ → Param) (dots : List ℕ) (m : Mgr)
    → P.max_param_num < 65536
    → ((id : ℕ) → (leaf id).param_id ≡ id)
    → IsOwned P.max_param_num m.root m.ids
    → OwnsAdded P.max_param_num (λ k. 0) 0 (add_dots P name leaf dots m)
unfolding add_dots
add_dots-Owns P name leaf [] m h e a = IsAlloc-ext (λ k. omega arith) (omega arith) a
add_dots-Owns P name leaf (i ∷ dots) m h e a =
    add_at-Owns P name leaf (λ k. 0) 0 (i ∷ dots) m.root m.ids h e
      (IsAlloc-ext (λ k. omega arith) (omega arith) a)

-- `add_param` by its early returns.
pub add_param-cases :
    (P : Platform) (m : Mgr) (name : Bytes) (index : ℤ) (type : DataType) (notif : ℤ) (write : ℕ)
    → (Q : Added → Type 0) → ((r : Pointer) → Q (add_null m r))
    → Q (add_dots P name (leaf_of name index type notif write) (dots_of name) m)
    → Q (add_param P m name index type notif write)
unfolding add_param
add_param-cases P m name index type notif write Q early rest = on_guard (add_guard P m name type)
  where
    on_guard :
        (g : Option Pointer)
        → Q (elim g [
          | some r ↦ add_null m r
          | none ↦ add_dots P name (leaf_of name index type notif write) (dots_of name) m
        ])
    on_guard none = rest
    on_guard (some r) = early r

-- An addition, whether it succeeds or fails, leaves every node of the tree with a slot of its own.
pub add_param-IsOwned :
    (P : Platform) (m : Mgr) (name : Bytes) (index : ℤ) (type : DataType) (notif : ℤ) (write : ℕ)
    → P.max_param_num < 65536
    → IsOwned P.max_param_num m.root m.ids
    → IsOwned P.max_param_num
        (add_param P m name index type notif write).tree
        (add_param P m name index type notif write).ids
add_param-IsOwned P m name index type notif write h a =
    add_param-cases P m name index type notif write (λ b. IsOwned P.max_param_num b.tree b.ids)
      (λ r. a)
      (IsAlloc-ext (λ k. omega arith) (omega arith)
        (add_dots-Owns P name (leaf_of name index type notif write) (dots_of name) m h (λ id. refl)
          a))
