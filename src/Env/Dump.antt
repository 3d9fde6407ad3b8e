-- ===== src/Env/Dump.antt =====
-- tr069_dump_environment (tr069.c): what it leaves in a dictionary that holds nothing yet.
use tr.Base.{
  ℕ, ◌+◌, ◌-◌, ◌<◌, ◌≤◌, ◌≡◌, ◌≢◌, refl, ap, ◌∙◌, true, some, [], ◌∷◌, arith, length, take,
  take-of_le, get_or, replicate, length-replicate, ltb, All,
}
use tr.Platform.{IsInt, Platform, Bytes, IsSane}
use tr.Ini.{Ini, Key, Remembers, getstring-set_lem}
use tr.Ring.Fifo.{IsValid}
use tr.Control.{Control, copy_text}
use tr.Control.Events.{IsEvent}
use tr.Control.Queues.{requests}
use tr.Env.{
  dump_environment, dump_after, dump_informs, dump_transfer, dump_requests, load_text, codes_text,
}
use tr.Env.Flags.{dumped_flags, stored, merged}
use tr.Env.Requests.{AreTransfers, dump_requests_lem}
use tr.Env.Informs.{IsRow, length-codes_text}

module _ (P : Platform) (I : Ini) where
  -- A control manager as the other functions leave it: its counters and indices are right, its
  -- requests are transfer completes, its rows come from one-character codes, its texts fit.
  pub record CanDump (c : Control) : Type 0 where
    pub event_ok : IsEvent P.event_number c.event
    pub requests_ok : IsValid c.request_queue
    pub few_requests : length (requests c) ≤ 15
    pub transfers : AreTransfers P I (requests c)
    pub rows : All (IsRow P) c.inform_parameters
    pub few_rows : length c.inform_parameters ≤ P.max_inform_param_num
    pub key_fits : length c.event.command_key ≤ 31
    pub stime_fits : length c.transfer_stime ≤ 31
    pub ctime_fits : length c.transfer_ctime ≤ 31
    pub result_fits : IsInt c.transfer_result

  -- A dictionary with no event, request or inform parameter in it, as a load leaves it.
  pub record IsCleared (d : I.Dict) : Type 0 where
    pub no_events : (k : ℕ) → get_or (stored P I d) k 0 ≢ b'1'
    pub no_requests : I.getstring d Key.req_queue [] ≡ []
    pub no_informs : I.getstring d Key.inform_params [] ≡ []

  -- What a dump leaves in a cleared dictionary.
  pub record Dumped (c : Control) (d : I.Dict) : Type 0 where
    pub flags : Bytes
    pub flags_stored : I.getstring d Key.event_flag P.default_event_flag ≡ flags
    pub flags_len : length flags ≡ P.event_number
    pub flags_at :
        (k : ℕ) → k < P.event_number → get_or flags k 0 ≡ merged (get_or c.event.event_flag k 0) 0
    pub requests_stored : I.getstring d Key.req_queue [] ≡ replicate (length (requests c)) b'2'
    pub informs_stored : I.getstring d Key.inform_params [] ≡ codes_text c.inform_parameters
    pub key_stored : I.getstring d Key.cmd_key [] ≡ c.event.command_key
    pub stime_stored : I.getstring d Key.trans_time [] ≡ c.transfer_stime
    pub ctime_stored : I.getstring d Key.trans_complete_time [] ≡ c.transfer_ctime
    pub result_stored : I.getstring d Key.trans_ret (b'0' ∷ []) ≡ P.sprintf_d c.transfer_result

merged_cleared : (f b : ℕ) → b ≢ b'1' → merged f b ≡ merged f 0
merged_cleared f b h = ground arith

module _ (P : Platform) (s : IsSane P) (I : Ini) (m : Remembers I) where
  pub load_text_short :
      (d : I.Dict) (k : Key) (def t : Bytes)
      → I.getstring d k def ≡ t
      → length t + 1 < P.max_param_value_len
      → load_text P I d k def ≡ t
  load_text_short d k def t e h =
      ap (copy_text (P.max_param_value_len - 1)) e
      ∙ take-of_le (P.max_param_value_len - 1) t (omega arith)

  abbrev put_back : I.Dict → Key → Bytes → I.Dict
  put_back d k v = (I.set d k v).1

  -- The inform parameters and what follows, for a manager that agrees with `c` but for its queue.
  dumped :
      (c c' : Control) (d0 : I.Dict) (flags text : Bytes)
      → CanDump P I c
      → IsCleared P I d0
      → length flags ≡ P.event_number
      → ((k : ℕ) → k < P.event_number → get_or flags k 0 ≡ merged (get_or c.event.event_flag k 0) 0)
      → text ≡ replicate (length (requests c)) b'2'
      → c' ≡ record c { request_queue = c'.request_queue }
      → let d2 = put_back (put_back d0 Key.event_flag flags) Key.req_queue text in
        (d3 : I.Dict) × (dump_informs P I c' d2 ≡ some d3) × Dumped P I c (dump_transfer P I c' d3)
  unfolding dump_informs dump_transfer
  dumped c c' d0 flags text w z len at e frame = (
    put_back d2 Key.inform_params informs,
    rw (nothing, fits) refl,
    record {
      flags = flags;
      flags_stored = simp (getstring-set_lem I m);
      flags_len = len;
      flags_at = at;
      requests_stored = simp (getstring-set_lem I m) e;
      informs_stored =
          simp (getstring-set_lem I m) (ap (λ (x : Control). codes_text x.inform_parameters) frame);
      key_stored = simp (getstring-set_lem I m) (ap (λ (x : Control). x.event.command_key) frame);
      stime_stored = simp (getstring-set_lem I m) (ap (λ (x : Control). x.transfer_stime) frame);
      ctime_stored = simp (getstring-set_lem I m) (ap (λ (x : Control). x.transfer_ctime) frame);
      result_stored =
          simp (getstring-set_lem I m) (ap (λ (x : Control). P.sprintf_d x.transfer_result) frame);
    },
  )
    where
      d2 : I.Dict
      d2 = put_back (put_back d0 Key.event_flag flags) Key.req_queue text

      informs : Bytes
      informs = codes_text c'.inform_parameters

      same : c'.inform_parameters ≡ c.inform_parameters
      same = ap (λ (x : Control). x.inform_parameters) frame

      nothing : load_text P I d2 Key.inform_params [] ≡ []
      nothing =
          load_text_short d2 Key.inform_params [] [] (simp (getstring-set_lem I m) z.no_informs)
            (omega (arith, s.keys_fit))

      fits : ltb (length informs) P.max_param_value_len ≡ true
      fits = ground (
        arith,
        ap (λ rows. length (codes_text rows)) same,
        length-codes_text P c.inform_parameters w.rows,
        w.few_rows,
        s.codes_fit,
      )

  -- The rest of the dump, once the flags are in the dictionary.
  dump_after_lem :
      (c : Control) (d0 : I.Dict) (flags : Bytes)
      → CanDump P I c
      → IsCleared P I d0
      → length flags ≡ P.event_number
      → ((k : ℕ) → k < P.event_number → get_or flags k 0 ≡ merged (get_or c.event.event_flag k 0) 0)
      → (c' : Control) × (d' : I.Dict) × (dump_after P I c (put_back d0 Key.event_flag flags) []
          ≡ some (c', d'))
        × Dumped P I c d'
  unfolding dump_after
  dump_after_lem c d0 flags w z len at =
      let (e, _, frame) =
        dump_requests_lem P I (requests c) c [] 15 refl w.requests_ok w.transfers w.few_requests in
      let (d3, p, done) =
        dumped c (dump_requests P I c [] 15).0 d0 flags (take 16 (dump_requests P I c [] 15).1) w z
          len at (short e) frame in
      (
        (dump_requests P I c [] 15).0,
        dump_transfer P I (dump_requests P I c [] 15).0 d3,
        rw (p, dump_after) refl,
        done,
      )
    where
      short :
          {t : Bytes}
          → t ≡ replicate (length (requests c)) b'2'
          → take 16 t ≡ replicate (length (requests c)) b'2'
      short e =
          ap (take 16) e
          ∙ take-of_le 16 _
              (omega (arith, length-replicate {A = ℕ} (length (requests c)) b'2', w.few_requests))

  -- A dump into a cleared dictionary succeeds, and the dictionary then describes the manager.
  pub dump_environment-Dumped :
      (c : Control) (d : I.Dict)
      → CanDump P I c
      → IsCleared P I d
      → (c' : Control) × (d' : I.Dict) × (dump_environment P I c d ≡ some (c', d'))
        × Dumped P I c d'
  unfolding dump_environment
  dump_environment-Dumped c d w z =
      let (flags, p, len, at) = dumped_flags P s I c d in
      let (c', d', q, done) = dump_after_lem c d flags w z len (λ k h.
        at k h
        ∙ merged_cleared (get_or c.event.event_flag k 0) (get_or (stored P I d) k 0)
            (z.no_events k)) in
      (
        c',
        d',
        rw (p, dump_environment)
              (ap (dump_after P I c (put_back d Key.event_flag flags)) (nothing flags))
            ∙ q,
        done,
      )
    where
      nothing :
          (flags : Bytes) → load_text P I (put_back d Key.event_flag flags) Key.req_queue [] ≡ []
      nothing flags =
          load_text_short (put_back d Key.event_flag flags) Key.req_queue [] []
            (simp (getstring-set_lem I m) z.no_requests) (omega (arith, s.keys_fit))
