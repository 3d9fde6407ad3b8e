-- ===== src/Env/Flags.antt =====
-- The event flags on their way through the status dictionary (tr069.c).
use native.Mathlib.Decide.{ℕ_discrete}
use tr.Base.{
  ℕ, zero, suc, ◌+◌, ◌-◌, ◌<◌, ◌≤◌, ◌≡◌, refl, ap, ap₂, ◌∙◌, ◌⊎◌, inl, Option, some, List, [], ◌∷◌,
  arith, length, take, get_or, replicate, length-set, length-replicate, get_or-set, ==_false, ltb,
  leb, ◌&&◌, ◌==◌, if◌then◌else◌, pos,
}
use tr.Platform.{Platform, Bytes, IsSane}
use tr.CStr.{c_str-of_nul, get_or-take, length-take, strncpy, c_str, length-strncpy, get_or-strncpy}
use tr.Ini.{Ini, Key}
use tr.Control.{Control}
use tr.Control
use tr.Control.Events.{IsEvent, set_event_lem, set_event-IsEvent}
use tr.Env.{dump_flag, dump_flags, load_events, flags_buff}

-- The character that stands for a flag after a dump: raised if it is raised in memory or was raised
-- in the dictionary before.
abbrev pub merged : ℕ → ℕ → ℕ
merged f b = if f == 1 then b'1' else (if b == b'1' then b'1' else b'0')

length-dump_flag : (flags buf : List ℕ) (i : ℕ) → length (dump_flag flags buf i) ≡ length buf
length-dump_flag flags buf i = ground (arith, length-set buf i b'1', length-set buf i b'0')

length-dump_flags : (flags buf : List ℕ) (i n : ℕ) → length (dump_flags flags buf i n) ≡ length buf
unfolding dump_flags
length-dump_flags flags buf i zero = refl
length-dump_flags flags buf i (suc n) =
    length-dump_flags flags (dump_flag flags buf i) (i + 1) n ∙ length-dump_flag flags buf i

dump_flag_at :
    (flags buf : List ℕ) (i k : ℕ)
    → i < length buf
    → get_or (dump_flag flags buf i) k 0
      ≡ (if i == k then merged (get_or flags k 0) (get_or buf k 0) else get_or buf k 0)
dump_flag_at flags buf i k h =
    ground (arith, get_or-set buf i k b'1' 0 h, get_or-set buf i k b'0' 0 h)

-- Outside its rounds the loop leaves the buffer alone, and inside it merges.
dump_flags_out :
    (flags buf : List ℕ) (i n k : ℕ)
    → i + n ≤ length buf
    → (k < i) ⊎ (i + n ≤ k)
    → get_or (dump_flags flags buf i n) k 0 ≡ get_or buf k 0
unfolding dump_flags
dump_flags_out flags buf i zero k l o = refl
dump_flags_out flags buf i (suc n) k l o =
    dump_flags_out flags (dump_flag flags buf i) (i + 1) n k
      (omega (arith, length-dump_flag flags buf i)) (grind arith)
    ∙ ground (arith, dump_flag_at flags buf i k)

dump_flags_in :
    (flags buf : List ℕ) (i n k : ℕ)
    → i + n ≤ length buf
    → i ≤ k
    → k < i + n
    → get_or (dump_flags flags buf i n) k 0 ≡ merged (get_or flags k 0) (get_or buf k 0)
unfolding dump_flags
dump_flags_in flags buf i zero k l a b = absurd (omega arith)
dump_flags_in flags buf i (suc n) k l a b = elim (ℕ_discrete i k) [
  | yes same ↦
      dump_flags_out flags (dump_flag flags buf i) (i + 1) n k
        (omega (arith, length-dump_flag flags buf i)) (inl (omega arith))
      ∙ ground (arith, dump_flag_at flags buf i k)
  | no other ↦
      dump_flags_in flags (dump_flag flags buf i) (i + 1) n k
        (omega (arith, length-dump_flag flags buf i)) (omega arith) (omega arith)
      ∙ ap (merged (get_or flags k 0))
          (dump_flag_at flags buf i k (omega arith) ∙ rw (==_false i k other))
]

-- Lists of one length that agree at every index are equal.
pub list_ext :
    (xs ys : List ℕ)
    → length xs ≡ length ys
    → ((k : ℕ) → k < length xs → get_or xs k 0 ≡ get_or ys k 0)
    → xs ≡ ys
list_ext [] [] l e = refl
list_ext [] (y ∷ ys) l e = absurd (omega arith)
list_ext (x ∷ xs) [] l e = absurd (omega arith)
list_ext (x ∷ xs) (y ∷ ys) l e =
    ap₂ ◌∷◌ (e 0 (omega arith)) (list_ext xs ys (omega arith) (λ k h. e (suc k) (omega arith)))

merged_pos : (f b : ℕ) → 0 < merged f b
merged_pos f b = ground arith

abbrev bit_of : Bytes → ℕ → ℕ
bit_of t k = if get_or t k 0 == b'1' then 1 else 0

bit_of-le : (t : Bytes) (k : ℕ) → bit_of t k ≤ 1
bit_of-le t k = ground arith

-- The range of the rounds left, and the round just made.
round_join :
    (i n k v f old : ℕ)
    → (i ≡ k → v ≡ f)
    → (if leb (i + 1) k && ltb k (i + 1 + n) then f else (if i == k then v else old))
      ≡ (if leb i k && ltb k (i + suc n) then f else old)
round_join i n k v f old e = ground arith

-- What the dictionary holds for the flags.
abbrev pub stored : (P : Platform) (I : Ini) → I.Dict → Bytes
stored P I d = I.getstring d Key.event_flag P.default_event_flag

module _ (P : Platform) (s : IsSane P) (I : Ini) where
  abbrev start_buff : I.Dict → List ℕ
  start_buff d =
      strncpy (replicate P.max_param_value_len 0) (stored P I d) (P.max_param_value_len - 1)

  length-start_buff : (d : I.Dict) → length (start_buff d) ≡ P.max_param_value_len
  length-start_buff d =
      length-strncpy (replicate P.max_param_value_len 0) (stored P I d) (P.max_param_value_len - 1)
      ∙ length-replicate P.max_param_value_len 0

  length-flags_buff :
      (c : Control) (d : I.Dict) → length (flags_buff P I c d) ≡ P.max_param_value_len
  unfolding flags_buff
  length-flags_buff c d =
      length-set _ P.event_number 0 ∙ length-dump_flags _ _ _ _ ∙ length-start_buff d

  start_buff_at :
      (d : I.Dict) (k : ℕ)
      → k < P.event_number
      → get_or (start_buff d) k 0 ≡ get_or (stored P I d) k 0
  start_buff_at d k h =
      get_or-strncpy (replicate P.max_param_value_len 0) (stored P I d) (P.max_param_value_len - 1)
        k (omega (arith, length-replicate {A = ℕ} P.max_param_value_len 0, s.flags_fit))
      ∙ ground (arith, s.flags_fit)

  flags_buff_at :
      (c : Control) (d : I.Dict) (k : ℕ)
      → k < P.event_number
      → get_or (flags_buff P I c d) k 0
        ≡ merged (get_or c.event.event_flag k 0) (get_or (stored P I d) k 0)
  unfolding flags_buff
  flags_buff_at c d k h =
      get_or-set _ P.event_number k 0 0
        (omega (arith, length-dump_flags _ _ _ _ ∙ length-start_buff d, s.flags_fit))
      ∙ rw (==_false P.event_number k (omega arith)) (
          dump_flags_in c.event.event_flag (start_buff d) P.event_bootstrap
            (P.event_number - P.event_bootstrap) k
            (omega (arith, length-start_buff d, s.bootstrap_first, s.flags_fit))
            (omega (arith, s.bootstrap_first)) (omega (arith, s.bootstrap_first))
          ∙ ap (merged (get_or c.event.event_flag k 0)) (start_buff_at d k h))

  flags_buff_end : (c : Control) (d : I.Dict) → get_or (flags_buff P I c d) P.event_number 0 ≡ 0
  unfolding flags_buff
  flags_buff_end c d =
      get_or-set _ P.event_number P.event_number 0 0
        (omega (arith, length-dump_flags _ _ _ _ ∙ length-start_buff d, s.flags_fit))
      ∙ ground arith

  -- The dump of the flags is a text of one character for each event, 1 exactly where the event is
  -- raised in memory or was already raised in the dictionary: no event is lost.
  pub dumped_flags :
      (c : Control) (d : I.Dict)
      → (text : Bytes) × (c_str (flags_buff P I c d) ≡ some text)
        × (length text ≡ P.event_number)
        × ((k : ℕ)
            → k < P.event_number
            → get_or text k 0 ≡ merged (get_or c.event.event_flag k 0) (get_or (stored P I d) k 0))
  dumped_flags c d = (
    take P.event_number (flags_buff P I c d),
    c_str-of_nul (flags_buff P I c d) P.event_number
        (omega (arith, length-flags_buff c d, s.flags_fit)) (flags_buff_end c d)
        (λ k h.
          rw (flags_buff_at c d k h)
            (merged_pos (get_or c.event.event_flag k 0) (get_or (stored P I d) k 0))),
    length-take P.event_number (flags_buff P I c d)
        (omega (arith, length-flags_buff c d, s.flags_fit)),
    λ k h. get_or-take (flags_buff P I c d) P.event_number k h ∙ flags_buff_at c d k h,
  )

  -- The flags that a load leaves: inside its rounds those of the text.
  pub load_events_lem :
      (c : Control) (t : Bytes) (i n : ℕ)
      → IsEvent P.event_number c.event
      → i + n ≤ P.event_number
      → let c' = load_events P I c t i n in
        IsEvent P.event_number c'.event
        × (c' ≡ record c { event = c'.event })
        × (c'.event.command_key ≡ c.event.command_key)
        × ((k : ℕ)
            → get_or c'.event.event_flag k 0 ≡ (
                if leb i k && ltb k (i + n)
                then (if get_or t k 0 == b'1' then 1 else 0)
                else get_or c.event.event_flag k 0))
  unfolding load_events
  load_events_lem c t i zero w h = (w, refl, refl, λ k. ground arith)
  load_events_lem c t i (suc n) w h =
      let c1 = (Control.set_event P c (pos i) (pos (bit_of t i)) Option.none).1 in
      let at = λ (k : ℕ).
        set_event_lem P s c i (bit_of t i) k Option.none w.sized (omega arith) (bit_of-le t i) in
      let (w', frame, key, flags) =
        load_events_lem c1 t (i + 1) n
          (set_event-IsEvent P s c (pos i) (pos (bit_of t i)) Option.none w) (omega arith) in
      (
        w',
        frame
            ∙ ap (λ (x : Control). record x { event = (load_events P I c1 t (i + 1) n).event })
                (at 0).3,
        key ∙ (at 0).2,
        λ k.
            flags k
            ∙ rw ((at k).1) (
                round_join i n k (bit_of t i) (bit_of t k) (get_or c.event.event_flag k 0)
                  (λ e. ap (bit_of t) e)),
      )
