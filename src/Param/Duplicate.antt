-- ===== src/Param/Duplicate.antt =====
-- tr069_parameter_add_param for a name that the tree has.
use tr.Base.{
  ℕ, ◌+◌, ◌<◌, ◌≡◌, ◌≢◌, refl, sym, ap, ◌∙◌, inl, inr, false, some, List, [], ◌∷◌, arith, length,
  leb, ℤ, Bool-cases, Option-cases,
}
use tr.Platform.{Platform, Bytes}
use tr.CStr.{strcmp_eq, memcmp_eq}
use tr.CStr.Compare.{memcmp_eq-ended, memcmp_eq-shorter, strcmp_eq_refl}
use tr.Param.{
  Param, Tree, nil, node, Ids, Mgr, Added, Pointer, DataType, append_leaf, add_at, add_null,
  add_dots, add_guard, add_param, dots_of, dots_from, leaf_of, find_node, find_at,
}
use tr.Param.Places.{Inner, search, dots_of-Inner}
use tr.Param.Search.{Every, IsNamed, node_of}
use tr.Param.Walk.{Agrees, find_at-last, find_at-down, find_at-on}
use tr.Param.Insert.{add_guard-none, find_node-plain}

-- Nothing was added.
abbrev nothing : Tree → Ids → Added
nothing t s = record { tree = t; ids = s; result = Pointer.null }

append_leaf-duplicate :
    (name : Bytes) (leaf : ℕ → Param) (t : Tree) (s : Ids) (p : Param)
    → 0 < length name
    → IsNamed t
    → Every (Agrees name) t
    → node_of (find_at name (length name) (search name []) t) ≡ some p
    → append_leaf name leaf t s ≡ nothing t s
unfolding append_leaf find_at
append_leaf-duplicate name leaf nil s p h z c f = cc
append_leaf-duplicate name leaf (node q child next) s p h z c f =
    elim (Bool-cases (strcmp_eq name q.param_name)) [
      | inl same ↦ rw same refl
      | inr other ↦
          rw
            (
              other,
              append_leaf-duplicate name leaf next s p h z.2 c.2 (
                  ground (
                    arith,
                    sym (find_at-last name q child next h) ∙ f,
                    memcmp_eq-ended q.param_name name z.0,
                    strcmp_eq_refl name,
                    c.0.1,
                  )),
            )
            refl
    ]

add_at-duplicate :
    (P : Platform) (name : Bytes) (leaf : ℕ → Param) (dots : List ℕ) (t : Tree) (s : Ids)
    (p : Param)
    → 0 < length name
    → Inner name dots
    → IsNamed t
    → Every (Agrees name) t
    → node_of (find_at name (length name) (search name dots) t) ≡ some p
    → add_at P name leaf dots t s ≡ nothing t s
unfolding add_at
add_at-duplicate P name leaf [] t s p h d z c f =
    elim (Bool-cases (leb P.max_param_num s.param_number)) [
      | inl full ↦ rw full refl
      | inr room ↦ rw room (append_leaf-duplicate name leaf t s p h z c f)
    ]
add_at-duplicate P name leaf (i ∷ dots) nil s p h d z c f = unfold find_at in cc
add_at-duplicate P name leaf (i ∷ dots) (node q child next) s p h d z c f =
    elim (Bool-cases (memcmp_eq q.param_name name i)) [
      | inl same ↦
          rw
            (
              same,
              add_at-duplicate P name leaf dots child s p h d.1 z.1 c.1 (
                  sym (
                    ap node_of (
                      find_at-down name (length name) i (search name dots) q child next d.0.1
                        (c.0.0 i d.0.0 same)))
                  ∙ f),
            )
            refl
      | inr other ↦
          rw
            (
              other,
              add_at-duplicate P name leaf (i ∷ dots) next s p h d z.2 c.2 (
                  sym (
                    ap node_of (
                      find_at-on name (length name) i (search name dots) q child next
                        (longer other)))
                  ∙ f),
            )
            refl
    ]
  where
    longer : memcmp_eq q.param_name name i ≡ false → memcmp_eq q.param_name name (i + 1) ≡ false
    longer other = ground (arith, memcmp_eq-shorter q.param_name name i)

add_dots-duplicate :
    (P : Platform) (m : Mgr) (name : Bytes) (leaf : ℕ → Param) (dots : List ℕ) (p : Param)
    → 0 < length name
    → Inner name dots
    → IsNamed m.root
    → Every (Agrees name) m.root
    → node_of (find_at name (length name) (search name dots) m.root) ≡ some p
    → (dots ≢ [])
    → add_dots P name leaf dots m ≡ nothing m.root m.ids
unfolding add_dots
add_dots-duplicate P m name leaf [] p h d z c f e = absurd (e refl)
add_dots-duplicate P m name leaf (i ∷ dots) p h d z c f e =
    add_at-duplicate P name leaf (i ∷ dots) m.root m.ids p h d z c f

add_guard-null :
    (P : Platform) (m : Mgr) (name : Bytes) (type : DataType)
    → length name < 65536
    → 0 < length name
    → {r : Pointer} → add_guard P m name type ≡ some r
    → r ≡ Pointer.null
unfolding add_guard
add_guard-null P m name type h l g = ground arith

has_bytes : (name : Bytes) → dots_of name ≢ [] → 0 < length name
has_bytes [] e = absurd (e (unfold dots_from in refl))
has_bytes (c ∷ cs) e = omega arith

-- A parameter that the tree has, by a name with a dot, is not added again: NULL is returned, and
-- neither the tree nor the ids change.
pub add_param-duplicate :
    (P : Platform) (m : Mgr) (name : Bytes) (index : ℤ) (type : DataType) (notif : ℤ) (write : ℕ)
    (p : Param)
    → length name < 65536
    → IsNamed m.root
    → Every (Agrees name) m.root
    → dots_of name ≢ []
    → node_of (find_node P m name) ≡ some p
    → add_param P m name index type notif write ≡ nothing m.root m.ids
unfolding add_param
add_param-duplicate P m name index type notif write p h z c e f =
    elim (Option-cases (add_guard P m name type)) [
      | inl go ↦
          rw (add_param, go)
            (add_dots-duplicate P m name (leaf_of name index type notif write) (dots_of name) p
              (add_guard-none P m name type h go).0
              (dots_of-Inner name h (add_guard-none P m name type h go).2) z c
              (sym (ap node_of (find_node-plain P m name h (add_guard-none P m name type h go)))
                ∙ f)
              e)
      | inr (r, stop) ↦
          rw (add_param, stop)
            (ap (λ q. add_null m q) (add_guard-null P m name type h (has_bytes name e) stop))
    ]
