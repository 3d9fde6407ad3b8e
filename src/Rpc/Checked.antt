-- ===== src/Rpc/Checked.antt =====
-- tr069_rpc_set_parameter_values (tr069_rpc.c): what its second pass reads and what becomes of a call,
-- against the first pass.
use tr.Base.{
  ℕ, ◌≡◌, ◌≢◌, refl, ◌⊎◌, inl, inr, Bool, true, false, Option, none, some, arith, ◌==◌,
  if◌then◌else◌, ℤ, pos, negsuc, minus_one, is_num, Bool-cases, Option-cases,
}
use tr.Platform.{Platform, Bytes}
use tr.Interface.{Indexes, Host, Store, set_config}
use tr.Param.{Param, Mgr, DataType, stops_of}
use tr.Param.Values.{
  Libc, Located, at, absent, past, locate, names_value, check_value, is_refused, set_node,
  set_located, set_named, set_value,
}
use tr.Param.Setting.{IsIndexed}
use tr.Rpc.{Soap}
use tr.Rpc.Params.{
  ParamAnswers, Read, got, bad, null, ◌>>=◌, text_of, named, value_struct_text, value_text,
}
use tr.Rpc.Setting.{Pair, fault_of, entry_name, entry_next, value_entry, content, content_pair}

module _ (P : Platform) (L : Soap) (A : ParamAnswers) where
  -- The second pass reads what the first one read.
  content-text_of :
      (size code : ℕ) (node : L.Node) (t : Bytes)
      → text_of L size code node ≡ got t
      → content P L A (some node) ≡ some (node, t)
  unfolding text_of content
  content-text_of size code node t e = elim (Option-cases (L.get_content node)) [
    | inl n ↦ absurd (ground (arith, n, e))
    | inr (u, y) ↦ ground (arith, y, e)
  ]

  named-some :
      (code : ℕ) (name : Bytes) (o : Option L.Node) (node : L.Node)
      → named L code name o ≡ got node
      → o ≡ some node
  unfolding named
  named-some code name none node e = cc
  named-some code name (some n) node e = ground arith

  entry_name-content :
      (struct : Bytes) (node set : L.Node) (name : Bytes)
      → entry_name P L A struct node ≡ got (set, name)
      → content P L A (L.get_child node) ≡ some (set, name)
  unfolding entry_name named text_of content
  entry_name-content struct node set name e = ground arith

  entry_next-content :
      (next : Bytes) (set set' : L.Node) (value : Bytes)
      → entry_next P L A next set ≡ got (set', value)
      → content P L A (L.get_next set) ≡ some (set', value)
  unfolding entry_next named text_of content
  entry_next-content next set set' value e = ground arith

  pub content_pair-value_entry :
      (node : L.Node) (p : Pair)
      → value_entry P L A node ≡ got p
      → (next : L.Node) × (content_pair P L A node ≡ some (next, p))
  unfolding value_entry content_pair
  content_pair-value_entry node p e = on_name (entry_name P L A value_struct_text node) refl e
    where
      on_next :
          (set : L.Node) (name : Bytes) (b : Read (L.Node × Bytes))
          → entry_name P L A value_struct_text node ≡ got (set, name)
          → entry_next P L A value_text set ≡ b
          → (b >>= λ b. got (name, b.1)) ≡ got p
          → (next : L.Node) × (content_pair P L A node ≡ some (next, p))
      on_next set name (got (next, value)) a b e = (
        next,
        ground (
          arith,
          entry_name-content value_struct_text node set name a,
          entry_next-content value_text set next value b,
          e,
        ),
      )
      on_next set name (bad code) a b e = cc
      on_next set name null a b e = cc

      on_name :
          (a : Read (L.Node × Bytes))
          → entry_name P L A value_struct_text node ≡ a
          → (a >>= λ a. entry_next P L A value_text a.0 >>= λ b. got (a.1, b.1)) ≡ got p
          → (next : L.Node) × (content_pair P L A node ≡ some (next, p))
      on_name (got (set, name)) a e = on_next set name (entry_next P L A value_text set) a refl e
      on_name (bad code) a e = cc
      on_name null a e = cc

module _ (P : Platform) (L : Soap) (A : ParamAnswers) (C : Libc) (N : Indexes) (H : Host)
    (m : Mgr) where
  -- A call of tr069_parameter_set_value with a name that it can read, whose parameter has an index.
  abbrev pub IsSound : Pair → Type 0
  IsSound c =
      (names_value P c.0 c.1 ≢ none)
      × ((p : Param) → locate c.0 (stops_of c.0) m.root ≡ at p → IsIndexed P C N H p)

  -- How the calls that check and that set end, whatever the store is.
  abbrev pub Verdict : (checks sets : Store H → Option (ℤ × Store H)) → Type 0
  Verdict checks sets =
      (((s : Store H) → checks s ≡ some (pos 0, s))
        × ((s : Store H) → (s' : Store H) × (sets s ≡ some (pos 0, s'))))
      ⊎ ((ret : ℤ) × (code : ℕ) × (fault_of P L A ret ≡ some code)
          × ((s : Store H) → checks s ≡ some (ret, s))
          × ((s : Store H) → sets s ≡ some (ret, s)))

  set_node-ok :
      (p : Param) (value : Bytes) (s : Store H)
      → IsIndexed P C N H p
      → (s' : Store H) × (set_node P C N H p value s ≡ some (pos 0, s'))
  unfolding set_node set_config
  set_node-ok p value s (i, e) = ((set_config P N H s i value).1, rw e refl)

  -- A code that a check returns: 0, or one that is answered with a fault.
  data IsChecked : ℤ → Type 0 where
    fine : IsChecked (pos 0)
    wrong : (n code : ℕ) → fault_of P L A (negsuc n) ≡ some code → IsChecked (negsuc n)

  IsChecked-cases :
      (ret : ℤ)
      → IsChecked ret
      → (is_num ret 0 ≡ true)
        ⊎ ((code : ℕ) × (is_num ret 0 ≡ false) × (fault_of P L A ret ≡ some code))
  IsChecked-cases (pos n) fine = inl refl
  IsChecked-cases (negsuc n) (wrong k code e) = inr (code, refl, e)

  if_IsChecked : (b : Bool) {x y : ℤ} → IsChecked x → IsChecked y → IsChecked (if b then x else y)
  if_IsChecked true hx hy = hx
  if_IsChecked false hx hy = hy

  wrong_type : IsChecked (negsuc 3)
  wrong_type = wrong 3 A.invalid_parameter_type refl

  check_value-IsChecked : (type : DataType) (value : Bytes) → IsChecked (check_value P C type value)
  unfolding check_value
  check_value-IsChecked DataType.boolean value = if_IsChecked _ fine wrong_type
  check_value-IsChecked DataType.unsigned_int value =
      if_IsChecked _ wrong_type (if_IsChecked _ (wrong 1 A.invalid_parameter_value refl) fine)
  check_value-IsChecked DataType.int value = if_IsChecked _ wrong_type fine
  check_value-IsChecked DataType.date_time value = if_IsChecked _ wrong_type fine
  check_value-IsChecked DataType.object value = fine
  check_value-IsChecked DataType.string value = fine
  check_value-IsChecked DataType.base64 value = fine
  check_value-IsChecked DataType.other value = fine

  set_located-Verdict :
      (l : Located) (value : Bytes)
      → ((p : Param) → l ≡ at p → IsIndexed P C N H p)
      → Verdict (set_located P C N H l value 2) (set_located P C N H l value 0)
  unfolding set_located
  set_located-Verdict absent value x =
      inr (minus_one, A.invalid_parameter_name, refl, (λ s. refl), (λ s. refl))
  set_located-Verdict past value x =
      inr (negsuc 4, A.answers.internal_error, refl, (λ s. refl), (λ s. refl))
  set_located-Verdict (at p) value x = elim (Bool-cases (p.write_flag == 0)) [
    | inl fixed ↦ inr (
      negsuc 2,
      A.parameter_not_writable,
      refl,
      (λ s. rw (is_refused, fixed) refl),
      (λ s. rw (is_refused, fixed) refl),
    )
    | inr writable ↦ elim (IsChecked-cases _ (check_value-IsChecked p.data_type value)) [
      | inl good ↦ inl (
        (λ s. rw (is_refused, writable, good) refl),
        (λ s.
            let (s', e) = set_node-ok p value s (x p refl) in
            (s', rw (is_refused, writable, good) e)),
      )
      | inr (code, faulty, e) ↦ inr (
        check_value P C p.data_type value,
        code,
        e,
        (λ s. rw (is_refused, writable, faulty) refl),
        (λ s. rw (is_refused, writable, faulty) refl),
      )
    ]
  ]

  -- The result of the first tests of a call.
  data IsTested : Option ℤ → Type 0 where
    unreadable : IsTested none
    readable : IsTested (some (pos 0))
    failed : (n code : ℕ) → fault_of P L A (negsuc n) ≡ some code → IsTested (some (negsuc n))

  if_IsTested :
      (b : Bool) {x y : Option ℤ} → IsTested x → IsTested y → IsTested (if b then x else y)
  if_IsTested true hx hy = hx
  if_IsTested false hx hy = hy

  names_value-IsTested : (name value : Bytes) → IsTested (names_value P name value)
  unfolding names_value
  names_value-IsTested name value = if_IsTested _ bad_name (
      if_IsTested _ (failed 1 A.invalid_parameter_value refl)
        (if_IsTested _ unreadable (if_IsTested _ bad_name readable)))
    where
      bad_name : IsTested (some minus_one)
      bad_name = failed 0 A.invalid_parameter_name refl

  set_named-Verdict :
      (o : Option ℤ) (l : Located) (value : Bytes)
      → IsTested o
      → o ≢ none
      → ((p : Param) → l ≡ at p → IsIndexed P C N H p)
      → Verdict (set_named P C N H o l value 2) (set_named P C N H o l value 0)
  unfolding set_named
  set_named-Verdict none l value t n x = absurd (n refl)
  set_named-Verdict (some (pos e)) l value t n x = set_located-Verdict l value x
  set_named-Verdict (some (negsuc e)) l value (failed k code f) n x =
      inr (negsuc e, code, f, (λ s. refl), (λ s. refl))

  pub set_value-Verdict :
      (c : Pair)
      → IsSound c
      → Verdict (set_value P C N H m c.0 c.1 2) (set_value P C N H m c.0 c.1 0)
  unfolding set_value
  set_value-Verdict (name, value) (n, x) =
      set_named-Verdict _ (locate name (stops_of name) m.root) value
        (names_value-IsTested name value) n x
