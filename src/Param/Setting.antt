-- ===== src/Param/Setting.antt =====
-- tr069_parameter_set_value and tr069_parameter_set_attribute: the pass that only checks against the
-- pass that sets, and what a new attribute changes.
use tr.Base.{
  ℕ, ◌≡◌, ◌≢◌, refl, inl, inr, true, false, not, Option, none, some, List, [], ◌∷◌, arith, ◌==◌, ℤ,
  pos, negsuc, minus_one, is_num, Bool-cases, ==_false,
}
use tr.Platform.{Platform, Bytes}
use tr.Interface.{Indexes, Host, Store, set_config}
use tr.Param.{Param, Tree, nil, node, Mgr, stops_of}
use tr.Param.Values.{
  Libc, Located, at, absent, past, locate, names_value, check_value, is_refused, set_node,
  set_located, set_named, set_value, set_attribute, notify_at, is_level,
}

module _ (P : Platform) (C : Libc) (N : Indexes) (H : Host) where
  -- A node with an index of the table.
  abbrev pub IsIndexed : Param → Type 0
  IsIndexed p = (i : ℕ) × (p.param_index ≡ some (pos i))

  -- How a call with force_flag 2 and one with 0 from the same store are related.
  abbrev pub Predicts : (checked done : Option (ℤ × Store H)) → Store H → Type 0
  Predicts checked done s =
      (r : ℤ) × (s' : Store H) × (checked ≡ some (r, s))
      × (done ≡ some (r, s'))
      × (r ≢ pos 0 → s' ≡ s)

  set_node-ok :
      (p : Param) (value : Bytes) (s : Store H)
      → IsIndexed p
      → (s' : Store H) × (set_node P C N H p value s ≡ some (pos 0, s'))
  unfolding set_node set_config
  set_node-ok p value s (i, e) = ((set_config P N H s i value).1, rw e refl)

  set_located-Predicts :
      (l : Located) (value : Bytes) (s : Store H)
      → ((p : Param) → l ≡ at p → IsIndexed p)
      → Predicts (set_located P C N H l value 2 s) (set_located P C N H l value 0 s) s
  unfolding set_located
  set_located-Predicts absent value s x = (minus_one, s, refl, refl, λ h. refl)
  set_located-Predicts past value s x = (negsuc 4, s, refl, refl, λ h. refl)
  set_located-Predicts (at p) value s x = elim (Bool-cases (p.write_flag == 0)) [
    | inl fixed ↦ (negsuc 2, s, rw fixed refl, rw fixed refl, λ h. refl)
    | inr writable ↦ elim (Bool-cases (not (is_num (check_value P C p.data_type value) 0))) [
      | inl bad ↦ (
        check_value P C p.data_type value,
        s,
        rw (writable, bad) refl,
        rw (writable, bad) refl,
        λ h. refl,
      )
      | inr good ↦
          let (s', e) = set_node-ok p value s (x p refl) in
          (pos 0, s', rw (writable, good) refl, rw (writable, good) e, λ h. absurd (h refl))
    ]
  ]

  set_named-Predicts :
      (o : Option ℤ) (l : Located) (value : Bytes) (s : Store H)
      → o ≢ none
      → ((p : Param) → l ≡ at p → IsIndexed p)
      → Predicts (set_named P C N H o l value 2 s) (set_named P C N H o l value 0 s) s
  unfolding set_named
  set_named-Predicts none l value s d x = absurd (d refl)
  set_named-Predicts (some (negsuc e)) l value s d x = (negsuc e, s, refl, refl, λ h. refl)
  set_named-Predicts (some (pos e)) l value s d x = set_located-Predicts l value s x

  -- A call of tr069_parameter_set_value with force_flag 2 changes nothing, and returns the code that
  -- the call with 0 returns; where the code is not 0, that call changes nothing either.
  pub set_value-Predicts :
      (m : Mgr) (name value : Bytes) (s : Store H)
      → names_value P name value ≢ none
      → ((p : Param) → locate name (stops_of name) m.root ≡ at p → IsIndexed p)
      → Predicts (set_value P C N H m name value 2 s) (set_value P C N H m name value 0 s) s
  unfolding set_value
  set_value-Predicts m name value s d x =
      set_named-Predicts (names_value P name value) (locate name (stops_of name) m.root) value s d x

-- A new notification is found at the node.
locate-notify_at :
    (name : Bytes) (stops : List ℕ) (v : ℤ) (t : Tree) (p : Param)
    → locate name stops t ≡ at p
    → locate name stops (notify_at name stops v t) ≡ at (record p { notif_type = v })
unfolding locate notify_at
locate-notify_at name [] v t p e = cc
locate-notify_at name (i ∷ stops) v nil p e = cc
locate-notify_at name (i ∷ stops) v (node q child next) p e =
    ground
      (arith, locate-notify_at name stops v child p, locate-notify_at name (i ∷ stops) v next p)

locate-notify_at_ne :
    (name : Bytes) (stops : List ℕ) (v : ℤ) (t : Tree) (p : Param) (name' : Bytes) (stops' : List ℕ)
    (q : Param)
    → locate name stops t ≡ at p
    → locate name' stops' t ≡ at q
    → q.param_id ≢ p.param_id
    → locate name' stops' (notify_at name stops v t) ≡ at q
unfolding locate notify_at
locate-notify_at_ne name [] v t p name' stops' q e f n = cc
locate-notify_at_ne name (i ∷ stops) v nil p name' stops' q e f n = cc
locate-notify_at_ne name (i ∷ stops) v (node r child next) p name' [] q e f n = cc
locate-notify_at_ne name (i ∷ stops) v (node r child next) p name' (j ∷ stops') q e f n = ground (
  arith,
  locate-notify_at_ne name stops v child p name' stops' q,
  locate-notify_at_ne name (i ∷ stops) v next p name' (j ∷ stops') q,
)

-- A new attribute is what tr069_parameter_get_attribute finds at the parameter, and every parameter
-- with another id is found as it was.
pub set_attribute_lem :
    (P : Platform) (C : Libc) (N : Indexes) (H : Host) (cfg_num : ℕ) (m : Mgr) (name value : Bytes)
    (force_flag mode_flag : ℕ) (p : Param)
    → names_value P name value ≡ some (pos 0)
    → locate name (stops_of name) m.root ≡ at p
    → is_refused p force_flag ≡ false
    → is_level value ≡ true
    → force_flag ≢ 2
    → mode_flag ≢ 1
    → (t : Tree) × (set_attribute P C N H cfg_num m name value force_flag mode_flag
        ≡ some (pos 0, t, none))
      × (locate name (stops_of name) t ≡ at (record p { notif_type = P.atoi value }))
      × ((name' : Bytes) (q : Param)
          → locate name' (stops_of name') m.root ≡ at q
          → q.param_id ≢ p.param_id
          → locate name' (stops_of name') t ≡ at q)
unfolding set_attribute
set_attribute_lem P C N H cfg_num m name value force_flag mode_flag p n l w v f d = (
  notify_at name (stops_of name) (P.atoi value) m.root,
  rw (set_attribute, n, l, w, v, ==_false force_flag 2 f, ==_false mode_flag 1 d) refl,
  locate-notify_at name (stops_of name) (P.atoi value) m.root p l,
  λ name' q e i.
      locate-notify_at_ne name (stops_of name) (P.atoi value) m.root p name' (stops_of name') q l e
        i,
)
