-- ===== src/Param/Lifetime.antt =====
-- The nodes of the tree own their slots of the table: at the start, after a removal and at the end.
use tr.Base.{
  ℕ, zero, suc, ◌+◌, ◌-◌, ◌<◌, ◌≡◌, refl, inl, inr, Bool, false, some, List, [], ◌∷◌, arith, length,
  ◌&&◌, ltb, leb, ◌==◌, if◌then◌else◌, Bool-cases, Option-cases,
}
use tr.Platform.{Platform, Bytes}
use tr.Param.{
  Param, Tree, nil, node, Ids, Mgr, update, below, name_len, find_node, find_at, stops_of,
}
use tr.Param.Prune.{
  recursive_remove, unlink_at, remove_param, init, uninit_slots, free_slots, found_root,
}
use tr.Param.Alloc.{IsAlloc, IsAlloc-ext, release-IsAlloc, bottom_free, occurs, size}
use tr.Param.Owners.{Owns, IsOwned}

recursive_remove-Owns :
    (max : ℕ) (own : ℕ → ℕ) (total : ℕ) (t : Tree) (s : Ids)
    → max < 65536
    → Owns max own total t s
    → IsAlloc max own total (recursive_remove t s)
unfolding recursive_remove
recursive_remove-Owns max own total nil s h a = IsAlloc-ext (λ k. omega arith) (omega arith) a
recursive_remove-Owns max own total (node p child next) s h a =
    release-IsAlloc max own total p.param_id (recursive_remove next (recursive_remove child s)) h (
      recursive_remove-Owns max (λ k. own k + (if p.param_id == k then 1 else 0)) (total + 1) next
        (recursive_remove child s) h
        (IsAlloc-ext (λ k. omega arith) (omega arith)
          (recursive_remove-Owns max
            (λ k. own k + ((if p.param_id == k then 1 else 0) + occurs k next))
            (total + (1 + size next)) child s h (IsAlloc-ext (λ k. omega arith) (omega arith) a))))

-- What the walk of a search takes out of a tree are the node that it finds and the node's children.
unlink_at-occurs :
    (name : Bytes) (n : ℕ) (stops : List ℕ) (t : Tree) (p : Param) (child : Tree) (k : ℕ)
    → find_at name n stops t ≡ some (p, child)
    → occurs k t
      ≡ occurs k (unlink_at name n stops t) + ((if p.param_id == k then 1 else 0) + occurs k child)
unfolding find_at unlink_at
unlink_at-occurs name n [] t p child k f = cc
unlink_at-occurs name n (i ∷ stops) nil p child k f = cc
unlink_at-occurs name n (i ∷ stops) (node q below next) p child k f = ground (
  arith,
  unlink_at-occurs name n stops below p child k,
  unlink_at-occurs name n (i ∷ stops) next p child k,
)

pub unlink_at-size :
    (name : Bytes) (n : ℕ) (stops : List ℕ) (t : Tree) (p : Param) (child : Tree)
    → find_at name n stops t ≡ some (p, child)
    → size t ≡ size (unlink_at name n stops t) + (1 + size child)
unfolding find_at unlink_at
unlink_at-size name n [] t p child f = cc
unlink_at-size name n (i ∷ stops) nil p child f = cc
unlink_at-size name n (i ∷ stops) (node q below next) p child f = ground (
  arith,
  unlink_at-size name n stops below p child,
  unlink_at-size name n (i ∷ stops) next p child,
)

pub find_node-eq :
    (P : Platform) (m : Mgr) (name : Bytes) {r : Param × Tree}
    → find_node P m name ≡ some r
    → find_at name (name_len name) (stops_of name) m.root ≡ some r
unfolding find_node
find_node-eq P m name f = ground arith

-- A removal, whether it succeeds or fails, does the same.
pub remove_param-IsOwned :
    (P : Platform) (m : Mgr) (name : Bytes)
    → P.max_param_num < 65536
    → IsOwned P.max_param_num m.root m.ids
    → IsOwned P.max_param_num (remove_param P m name).1.root (remove_param P m name).1.ids
unfolding remove_param find_node
remove_param-IsOwned P m name h a = elim (Option-cases (find_node P m name)) [
  | inl nothing ↦ rw (nothing, remove_param) a
  | inr ((p, child), found) ↦
      elim (Bool-cases (found_root name (name_len name) (stops_of name) m.root)) [
        | inl root ↦ rw (found, remove_param, root) a
        | inr inner ↦
            rw (found, remove_param, inner)
              (recursive_remove-Owns P.max_param_num
                (λ k. occurs k (unlink_at name (name_len name) (stops_of name) m.root))
                (size (unlink_at name (name_len name) (stops_of name) m.root)) (node p child nil)
                m.ids h
                (IsAlloc-ext
                  (λ k. omega (
                    arith,
                    unlink_at-occurs name (name_len name) (stops_of name) m.root p child k
                        (find_node-eq P m name found),
                  ))
                  (omega (
                    arith,
                    unlink_at-size name (name_len name) (stops_of name) m.root p child
                        (find_node-eq P m name found),
                  ))
                  a))
      ]
]

pub init-IsOwned : (max : ℕ) → 0 < max → IsOwned max init.root init.ids
unfolding init
init-IsOwned max h = record {
  nonempty = omega arith;
  room = omega arith;
  sum = refl;
  split = λ k. ground arith;
  owned = λ k. ground arith;
  few = omega arith;
  within = omega arith;
}

free_slots_lem :
    (n i : ℕ) (table : ℕ → Bool) (k : ℕ)
    → free_slots n i table k ≡ (if leb i k && ltb k (i + n) then false else table k)
unfolding free_slots
free_slots_lem zero i table k = ground arith
free_slots_lem (suc n) i table k = ground (arith, free_slots_lem n (i + 1) (update table i false) k)

-- The loop of tr069_parameter_uninit reaches every slot that is taken: only the root's stays.
pub uninit_slots_lem :
    (max : ℕ) (t : Tree) (s : Ids) (k : ℕ)
    → IsOwned max t s
    → uninit_slots s k ≡ (if k == 0 then s.table 0 else false)
unfolding uninit_slots
uninit_slots_lem max t s zero a =
    free_slots_lem (s.param_number + length s.idstack - 1 - 1) 1 s.table 0
uninit_slots_lem max t s (suc k) a = ground (
  arith,
  free_slots_lem (s.param_number + length s.idstack - 1 - 1) 1 s.table (suc k),
  a.sum,
  a.split (suc k),
  a.nonempty,
  bottom_free s a,
)
