-- ===== src/Service/Events.antt =====
-- tr069_service_set_event (tr069_service.c) on its two targets.
use mathlib.Core.Path.{subst}
use tr.Base.{
  ℕ, zero, suc, ◌+◌, ◌<◌, ◌≤◌, ◌≡◌, refl, ap, ◌∙◌, inl, inr, false, Option, some, [], ◌∷◌, arith,
  ltb, leb, if◌then◌else◌, ℤ, pos, negsuc, minus_one, is_num, Bool-cases, Option-cases, index_below,
}
use mathlib.Core.Option
use tr.Platform.{Platform, Bytes, IsSane}
use tr.Ini.{Ini}
use tr.Control.{mark}
use tr.Control.Events.{set_event-ok}
use tr.Service.{
  Mgr, World, target_to_set, set_event, set_event_at, set_event_on, config_event, memory_event,
  count_call,
}

-- TR069_MAX_TASK_NUM bounds the calls that wait for their session.
abbrev pub CallsBounded : Option Mgr → Type 0
CallsBounded Option.none = Unit {0}
CallsBounded (some m) = m.call_flag ≤ 16

module _ (P : Platform) (I : Ini) where
  abbrev Bounded : Option (ℤ × World I) → Type 0
  Bounded Option.none = Unit {0}
  Bounded (some (r, w)) = CallsBounded w.g_tr069

  count_call-Bounded :
      (w : World I) (i : ℕ) (r : ℤ) (m : Mgr)
      → m.call_flag < 16
      → CallsBounded (count_call P I w i (r, m)).1.g_tr069
  unfolding count_call
  count_call-Bounded w i r m h = elim (Bool-cases (is_num r 0)) [
    | inl ok ↦ rw ok (ground arith)
    | inr failed ↦ rw failed (omega arith)
  ]

  memory-Bounded :
      (w : World I) (m : Mgr) (i v : ℕ) (key : Option Bytes)
      → m.call_flag < 16
      → Bounded (Option.map (count_call P I w i) (memory_event P I m i v key))
  unfolding memory_event
  memory-Bounded w m i v Option.none h = tt
  memory-Bounded w m i v (some []) h = count_call-Bounded w i _ _ h
  memory-Bounded w m i v (some (k ∷ key)) h = count_call-Bounded w i _ _ h

  set_event_on-Bounded :
      (w : World I) (m : Mgr) (i v : ℕ) (key : Option Bytes) (target : ℤ)
      → m.call_flag < 16
      → Bounded (set_event_on P I w m i v key target)
  unfolding set_event_on
  set_event_on-Bounded w m i v key (pos zero) h =
      elim (Option-cases (config_event P I w.ini i v key)) [
        | inl e ↦ rw e tt
        | inr ((r, d), e) ↦ rw e (count_call-Bounded (record w { ini = d }) i r m h)
      ]
  set_event_on-Bounded w m i v key (pos (suc n)) h = memory-Bounded w m i v key h
  set_event_on-Bounded w m i v key (negsuc n) h = count_call-Bounded w i minus_one m h

  set_event_at-Bounded :
      (w : World I) (i v : ℕ) (key : Option Bytes)
      → CallsBounded w.g_tr069
      → Bounded (set_event_at P I w i v key)
  unfolding set_event_at
  set_event_at-Bounded w i v key b = elim (Option-cases w.g_tr069) [
    | inl e ↦ rw (set_event_at, e) b
    | inr (m, e) ↦ elim (Bool-cases (leb 16 m.call_flag)) [
      | inl full ↦ rw (set_event_at, e, full) b
      | inr room ↦
          let below : m.call_flag < 16 = ground arith in
          rw (set_event_at, e, room) (set_event_on-Bounded w m i v key (target_to_set m) below)
    ]
  ]

  set_event-Bounded :
      (w : World I) (index value : ℤ) (key : Option Bytes)
      → CallsBounded w.g_tr069
      → Bounded (set_event P I w index value key)
  unfolding set_event
  set_event-Bounded w index value key b = elim (Option-cases (index_below P.event_number index)) [
    | inl e ↦ rw (set_event, e) b
    | inr (i, e) ↦ elim (Bool-cases (is_num value 0)) [
      | inl low ↦ rw (set_event, e, low) (set_event_at-Bounded w i 0 key b)
      | inr other ↦ elim (Bool-cases (is_num value 1)) [
        | inl up ↦ rw (set_event, e, other, up) (set_event_at-Bounded w i 1 key b)
        | inr bad ↦ rw (set_event, e, other, bad) b
      ]
    ]
  ]

  -- No call of tr069_service_set_event, whatever its arguments and its target, takes the count of
  -- calls that wait above TR069_MAX_TASK_NUM, if it was not above it before.
  pub set_event-CallsBounded :
      (w w' : World I) (index value r : ℤ) (key : Option Bytes)
      → CallsBounded w.g_tr069
      → set_event P I w index value key ≡ some (r, w')
      → CallsBounded w'.g_tr069
  set_event-CallsBounded w w' index value r key b e =
      subst Bounded e (set_event-Bounded w index value key b)

  -- What a call on the running manager leaves.
  abbrev pub after_set : World I → Mgr → ℕ → ℕ → Option Bytes → World I
  after_set w m i v key =
      let c = m.control in
      let calls = (if ltb i P.event_m_scheduleinform then m.call_flag + 1 else m.call_flag) in
      record w {
        g_tr069 =
            some
              (record m { control = record c { event = mark c.event i v key }; call_flag = calls });
        dump_call_flag = calls;
      }

  -- `if (*command_key != 0)`
  abbrev pub key_given : Bytes → Option Bytes
  key_given [] = Option.none
  key_given (k ∷ key) = some (k ∷ key)

  memory_event_lem :
      (m : Mgr) (i v : ℕ) (key : Bytes)
      → IsSane P
      → i < P.event_number
      → v ≤ 1
      → memory_event P I m i v (some key)
        ≡ some (
          pos 0,
          (let c = m.control in
              record m { control = record c { event = mark c.event i v (key_given key) } }),
        )
  unfolding memory_event
  memory_event_lem m i v [] s hi hv =
      rw (set_event-ok P s m.control i v Option.none hi hv, memory_event) refl
  memory_event_lem m i v (k ∷ key) s hi hv =
      rw (set_event-ok P s m.control i v (some (k ∷ key)) hi hv, memory_event) refl

  set_event_at-memory :
      (w : World I) (m : Mgr) (i v : ℕ) (key : Bytes)
      → w.g_tr069 ≡ some m
      → target_to_set m ≡ pos 1
      → m.call_flag < 16
      → set_event_at P I w i v (some key)
        ≡ Option.map (count_call P I w i) (memory_event P I m i v (some key))
  unfolding set_event_at set_event_on
  set_event_at-memory w m i v key e t h =
      let room : leb 16 m.call_flag ≡ false = ground arith in simp (set_event_at, e, room, t) refl

  count_call-ok :
      (w : World I) (m : Mgr) (i v : ℕ) (key : Option Bytes)
      → some (
          count_call P I w i (
            pos 0,
            (let c = m.control in record m { control = record c { event = mark c.event i v key } }),
          ))
        ≡ some (pos 0, after_set w m i v key)
  unfolding count_call
  count_call-ok w m i v key = elim (Bool-cases (ltb i P.event_m_scheduleinform)) [
    | inl primary ↦ rw primary refl
    | inr other ↦ rw other refl
  ]

  -- With fewer than sixteen calls waiting, a call on the running manager with a proper index and
  -- value marks the event, with the key unless that is empty, and counts one call more exactly for
  -- a primary event.
  pub set_event-memory :
      (w : World I) (m : Mgr) (i v : ℕ) (key : Bytes)
      → IsSane P
      → w.g_tr069 ≡ some m
      → target_to_set m ≡ pos 1
      → m.call_flag < 16
      → i < P.event_number
      → v ≤ 1
      → set_event P I w (pos i) (pos v) (some key) ≡ some (pos 0, after_set w m i v (key_given key))
  unfolding set_event
  set_event-memory w m i v key s e t h hi hv =
      guards v hv
      ∙ set_event_at-memory w m i v key e t h
      ∙ ap (Option.map (count_call P I w i)) (memory_event_lem m i v key s hi hv)
      ∙ count_call-ok w m i v (key_given key)
    where
      inside : index_below P.event_number (pos i) ≡ some i
      inside = ground arith

      guards :
          (v : ℕ)
          → v ≤ 1
          → set_event P I w (pos i) (pos v) (some key) ≡ set_event_at P I w i v (some key)
      guards zero hv = rw (inside, set_event) refl
      guards (suc zero) hv = rw (inside, set_event) refl
      guards (suc (suc v)) hv = absurd (omega arith)
