-- ===== src/Rpc/Whole.antt =====
-- tr069_rpc_set_parameter_values (tr069_rpc.c): what its two passes do together.
use tr.Base.{
  ℕ, ◌≡◌, ◌≢◌, refl, ap, ◌∙◌, ◌⊎◌, inl, inr, true, false, none, some, List, [], ◌∷◌, ◌++◌, ℤ, pos,
  negsuc, is_num, All, Option-cases,
}
use tr.Platform.{Platform, Bytes}
use tr.Interface.{Indexes, Host, Store}
use tr.Param.{Mgr}
use tr.Param.Values.{Libc, set_value}
use tr.Rpc.{Run, Soap, Message, Method}
use tr.Rpc.Params.{ParamAnswers, ParamNames, got}
use tr.Rpc.Setting.{
  Pair, calls_of, Wanted, nothing_wanted, Idle, wanted_by, fault_of, value_entry, entries, Done,
  check_calls, check_values, set_calls, set_values, values_set, values_checked, values_from,
  set_parameter_values,
}
use tr.Rpc.Checked.{content_pair-value_entry, IsSound, set_value-Verdict}

module _ (P : Platform) (L : Soap) (A : ParamAnswers) (C : Libc) (N : Indexes) (H : Host)
    (names : ParamNames) (m : Mgr) where
  -- Calls that set, one after another, each with the code 0.
  abbrev pub SetEach : List Pair → (s s' : Store H) → Type 0
  SetEach [] s s' = s' ≡ s
  SetEach (c ∷ cs) s s' =
      (t : Store H) × (set_value P C N H m c.0 c.1 0 s ≡ some (pos 0, t)) × SetEach cs t s'

  -- One of the calls is refused, whatever the store is, with a code that is answered with a fault.
  abbrev pub Refuses : List Pair → Type 0
  Refuses [] = ⊥
  Refuses (c ∷ cs) =
      ((ret : ℤ) × (code : ℕ) × (fault_of P L A ret ≡ some code)
        × ((s : Store H) → set_value P C N H m c.0 c.1 0 s ≡ some (ret, s)))
      ⊎ Refuses cs

  -- The same for the calls of all entries.
  abbrev pub SetAll : List Pair → (s s' : Store H) → Type 0
  SetAll [] s s' = s' ≡ s
  SetAll (p ∷ ps) s s' = (t : Store H) × SetEach (calls_of names p) s t × SetAll ps t s'

  abbrev pub RefusesAny : List Pair → Type 0
  RefusesAny [] = ⊥
  RefusesAny (p ∷ ps) = Refuses (calls_of names p) ⊎ RefusesAny ps

  -- The calls of an entry in both passes.
  abbrev Entry : List Pair → Type 0
  Entry cs =
      (((s : Store H) → check_calls P L A C N H names m cs s ≡ some (pos 0, s))
        × ((s : Store H)
            → (s' : Store H) × (set_calls P L A C N H names m cs s ≡ some s') × SetEach cs s s'))
      ⊎ ((ret : ℤ) × (code : ℕ) × (fault_of P L A ret ≡ some code)
          × ((s : Store H) → check_calls P L A C N H names m cs s ≡ some (ret, s))
          × Refuses cs)

  fault-is_num : (ret : ℤ) (code : ℕ) → fault_of P L A ret ≡ some code → is_num ret 0 ≡ false
  fault-is_num (pos n) code e = cc
  fault-is_num (negsuc n) code e = refl

  check_calls-Entry : (cs : List Pair) → All (IsSound P L A C N H m) cs → Entry cs
  unfolding check_calls set_calls
  check_calls-Entry [] h = inl ((λ s. refl), (λ s. (s, refl, refl)))
  check_calls-Entry (c ∷ cs) h = elim (set_value-Verdict P L A C N H m c h.0) [
    | inr (ret, code, f, checks, sets) ↦ inr (
      ret,
      code,
      f,
      (λ s. rw (checks s, fault-is_num ret code f, check_calls) refl),
      inl (ret, code, f, sets),
    )
    | inl (checks, sets) ↦ elim (check_calls-Entry cs h.1) [
      | inr (ret, code, f, rest, refused) ↦
          inr (ret, code, f, (λ s. rw (checks s, check_calls) (rest s)), inr refused)
      | inl (rest, more) ↦ inl (
        (λ s. rw (checks s, check_calls) (rest s)),
        (λ s.
            let (t, e) = sets s in
            let (s', e', all) = more t in (s', rw (e, set_calls) e', (t, e, all))),
      )
    ]
  ]

  -- Elements that the first pass reads as these pairs.
  abbrev pub Reads : List L.Node → List Pair → Type 0
  Reads [] [] = Unit {0}
  Reads [] (p ∷ ps) = ⊥
  Reads (node ∷ nodes) [] = ⊥
  Reads (node ∷ nodes) (p ∷ ps) = (value_entry P L A node ≡ got p) × Reads nodes ps

  abbrev pub AreSound : List Pair → Type 0
  AreSound = All (λ p. All (IsSound P L A C N H m) (calls_of names p))

  -- Both passes over the elements.
  abbrev Passes : List L.Node → List Pair → Type 0
  Passes nodes ps =
      (((faults : List (Bytes × ℕ)) (s : Store H)
          → check_values P L A C N H names m nodes faults s ≡ (got faults, s))
        × ((w : Wanted) (s : Store H)
            → (w' : Wanted) × (s' : Store H) × (set_values P L A C N H names m nodes w s
                ≡ some (w', s'))
              × SetAll ps s s'))
      ⊎ (((faults : List (Bytes × ℕ)) (s : Store H)
            → (f : Bytes × ℕ) × (fs : List (Bytes × ℕ)) × (check_values P L A C N H names m nodes
                  faults s
                ≡ (got (f ∷ fs), s)))
          × RefusesAny ps)

  snoc_cons :
      (faults : List (Bytes × ℕ)) (x : Bytes × ℕ)
      → (f : Bytes × ℕ) × (fs : List (Bytes × ℕ)) × (faults ++ (x ∷ []) ≡ f ∷ fs)
  snoc_cons [] x = (x, [], refl)
  snoc_cons (f ∷ fs) x = (f, fs ++ (x ∷ []), refl)

  check_values-Passes :
      (nodes : List L.Node) (ps : List Pair) → Reads nodes ps → AreSound ps → Passes nodes ps
  unfolding check_values set_values
  check_values-Passes [] [] r h = inl ((λ faults s. refl), (λ w s. (w, s, refl, refl)))
  check_values-Passes [] (p ∷ ps) r h = absurd r
  check_values-Passes (node ∷ nodes) [] r h = absurd r
  check_values-Passes (node ∷ nodes) (p ∷ ps) (e, r) h =
      elim (check_calls-Entry (calls_of names p) h.0) [
        | inl (checks, sets) ↦ elim (check_values-Passes nodes ps r h.1) [
          | inl (rest, more) ↦ inl (
            (λ faults s. rw (e, checks s, check_values) (rest faults s)),
            (λ w s.
                let (next, pair) = content_pair-value_entry P L A node p e in
                let (t, e1, each) = sets s in
                let (w', s', e2, all) = more (wanted_by names p.0 w) t in
                (w', s', rw (pair, e1, set_values) e2, (t, each, all))),
          )
          | inr (rest, refused) ↦
              inr ((λ faults s. rw (e, checks s, check_values) (rest faults s)), inr refused)
        ]
        | inr (ret, code, f, checks, refused) ↦ elim (check_values-Passes nodes ps r h.1) [
          | inl (rest, more) ↦ inr (
            (λ faults s.
                let (x, xs, y) = snoc_cons faults (p.0, code) in
                (
                  x,
                  xs,
                  rw (e, checks s, f, check_values)
                      (rest (faults ++ ((p.0, code) ∷ [])) s ∙ ap (λ l. (got l, s)) y),
                )),
            inl refused,
          )
          | inr (rest, others) ↦ inr (
            (λ faults s. rw (e, checks s, f, check_values) (rest (faults ++ ((p.0, code) ∷ [])) s)),
            inl refused,
          )
        ]
      ]

  -- A SetParameterValues message whose entries can be read, with names that can be read too,
  -- parameters that have an index where they are found, and a fault and a response that can be built:
  -- either every value is set, each call of tr069_parameter_set_value with the code 0, and the result
  -- is 0, or the store and the control manager are as before, the result is the fault of invalid
  -- arguments, and one of the calls is refused.
  pub set_parameter_values_lem :
      (fuel : ℕ) (idle : Idle) (doc : L.Doc) (r : Run) (s : Store H) (nodes : List L.Node)
      (ps : List Pair)
      → entries P L A fuel doc ≡ got nodes
      → Reads nodes ps
      → AreSound ps
      → A.answers.fault A.answers.invalid_arguments ≢ none
      → A.can_build Method.set_parameter_values ≡ true
      → (d : Done P L A C N H names) × (set_parameter_values P L A C N H names fuel m idle doc r s
          ≡ some d)
        × (((d.ret ≡ pos 0) × SetAll ps s d.store)
            ⊎ ((d.ret ≡ pos A.answers.invalid_arguments)
                × (d.store ≡ s)
                × (d.run.control ≡ r.control)
                × RefusesAny ps))
  unfolding set_parameter_values values_from values_checked values_set
  set_parameter_values_lem fuel idle doc r s nodes ps en rd h built can =
      elim (Option-cases (A.answers.fault A.answers.invalid_arguments)) [
        | inl nothing ↦ absurd (built nothing)
        | inr (t, y) ↦ elim (check_values-Passes nodes ps rd h) [
          | inl (checks, sets) ↦
              let (w, s', e, all) = sets nothing_wanted s in
              (
                values_set P L A C N H names idle r (w, s'),
                rw (en, y, checks [] s, e, set_parameter_values, values_from, values_checked) refl,
                inl (rw can refl, all),
              )
          | inr (checks, refused) ↦
              let (f, fs, e) = checks [] s in
              (
                record {
                  ret = pos A.answers.invalid_arguments;
                  run = record r {
                    xml_buffer = Message.text (A.set_fault Method.set_parameter_values (f ∷ fs));
                  };
                  store = s;
                  packet_lost = false;
                },
                rw (en, y, e, set_parameter_values, values_from) refl,
                inr (refl, refl, refl, refused),
              )
        ]
      ]
