-- ===== src/Env/Restore.antt =====
-- tr069_load_environment after tr069_dump_environment (tr069.c): what a restart keeps.
use mathlib.Core.Path.{subst}
use tr.Base.{
  ℕ, zero, suc, ◌+◌, ◌-◌, ◌<◌, ◌≤◌, ◌≡◌, ◌≢◌, refl, sym, ap, ◌∙◌, some, List, [], ◌∷◌, ◌++◌, arith,
  length, take-of_le, get_or, replicate, length-replicate, ltb, leb, ◌&&◌, ◌==◌, if◌then◌else◌, ℤ,
  pos, All, count, ap₂,
}
use tr.Platform.{Platform, Bytes, IsSane}
use tr.Ini.{Ini, Key, Remembers, getstring-set_lem}
use tr.Ring.Fifo.{IsValid, cleared-IsValid, to_list-cleared}
use tr.Control.{Control, copy_text, clear_inform_parameters, clear_request, clear_task}
use tr.Control.Init.{init}
use tr.Control.Events.{clear_event-IsEvent, IsEvent, AreBits}
use tr.Control.Queues.{requests}
use tr.Env.{
  dump_environment, load_environment, load_text, codes_text, load_requests, load_events, load_key,
  load_informs, load_transfer, clear_config,
}
use tr.Env.Flags.{merged, load_events_lem, list_ext}
use tr.Env.Requests.{load_requests_lem}
use tr.Env.Informs.{load_informs_lem, length-codes_text}
use tr.Env.Dump.{CanDump, Dumped, IsCleared, load_text_short, dump_environment-Dumped}

-- What must survive.
pub record SameState (c c' : Control) : Type 0 where
  pub same_flags : c'.event.event_flag ≡ c.event.event_flag
  pub same_number : c'.event.number ≡ c.event.number
  pub same_key : c'.event.command_key ≡ c.event.command_key
  pub same_requests : requests c' ≡ requests c
  pub same_rows : c'.inform_parameters ≡ c.inform_parameters
  pub same_stime : c'.transfer_stime ≡ c.transfer_stime
  pub same_ctime : c'.transfer_ctime ≡ c.transfer_ctime
  pub same_result : c'.transfer_result ≡ c.transfer_result

-- The fields that a load starts from, as tr069_control_init leaves them.
pub record IsFresh (P : Platform) (c : Control) : Type 0 where
  pub event_ok : IsEvent P.event_number c.event
  pub requests_ok : IsValid c.request_queue
  pub no_requests : requests c ≡ []
  pub no_rows : c.inform_parameters ≡ []

-- A flag that was dumped is read back.
flag_back : (f t : ℕ) → f ≤ 1 → t ≡ merged f 0 → (if t == b'1' then 1 else 0) ≡ f
flag_back f t h e = ground arith

bit_at : (xs : List ℕ) (k : ℕ) → AreBits xs → get_or xs k 0 ≤ 1
bit_at [] k b = omega arith
bit_at (x ∷ xs) zero b = b.0
bit_at (x ∷ xs) (suc k) b = bit_at xs k b.1

All-same : (a : ℤ) (rs : List ℤ) → All (λ r. r ≡ a) rs → rs ≡ replicate (length rs) a
All-same a [] h = refl
All-same a (r ∷ rs) h = ap₂ ◌∷◌ h.0 (All-same a rs h.1)

module _ (P : Platform) (s : IsSane P) (I : Ini) (m : Remembers I) where
  -- The stages of a load, for the texts `t` that it reads.
  requests_loaded :
      (c c0 : Control) (t : Bytes)
      → CanDump P I c
      → IsFresh P c0
      → t ≡ replicate (length (requests c)) b'2'
      → let c1 = load_requests P I c0 t in
        (requests c1 ≡ requests c) × (c1 ≡ record c0 { request_queue = c1.request_queue })
  requests_loaded c c0 t w f e = rw e (
      let (l, frame, _) =
        load_requests_lem P I (length (requests c)) c0 s f.requests_ok
          (omega (arith, ap length f.no_requests, w.few_requests)) in
      (
        l
            ∙ ap (λ xs. xs ++ replicate (length (requests c)) (pos P.rpc_acs_transfer_complete))
                f.no_requests
            ∙ sym (All-same _ (requests c) w.transfers),
        frame,
      ))

  events_loaded :
      (c c1 : Control) (d : I.Dict) (t : Bytes)
      → CanDump P I c
      → (u : Dumped P I c d) → IsEvent P.event_number c1.event
      → t ≡ u.flags
      → let c2 = load_events P I c1 t P.event_bootstrap (P.event_number - P.event_bootstrap) in
        IsEvent P.event_number c2.event
        × (c2 ≡ record c1 { event = c2.event })
        × (c2.event.event_flag ≡ c.event.event_flag)
  events_loaded c c1 d t w u w1 e =
      let (w2, frame, _, flags) =
        load_events_lem P s I c1 t P.event_bootstrap (P.event_number - P.event_bootstrap) w1
          (omega (arith, s.bootstrap_first)) in
      (
        w2,
        frame,
        list_ext _ _ (w2.sized ∙ sym (w.event_ok).sized)
            λ k h. flags k ∙ at k (omega (arith, w2.sized)),
      )
    where
      at :
          (k : ℕ)
          → k < P.event_number
          → (if leb P.event_bootstrap k
                && ltb k (P.event_bootstrap + (P.event_number - P.event_bootstrap))
              then (if get_or t k 0 == b'1' then 1 else 0)
              else get_or c1.event.event_flag k 0)
            ≡ get_or c.event.event_flag k 0
      at k h =
          let back =
            flag_back (get_or c.event.event_flag k 0) (get_or t k 0)
              (bit_at c.event.event_flag k (w.event_ok).bits)
              (ap (λ x. get_or x k 0) e ∙ u.flags_at k h) in
          ground (arith, s.bootstrap_first)

  informs_loaded :
      (c c3 : Control) (t : Bytes)
      → CanDump P I c
      → c3.inform_parameters ≡ []
      → t ≡ codes_text c.inform_parameters
      → load_informs P I c3 t ≡ record c3 { inform_parameters = c.inform_parameters }
  informs_loaded c c3 t w z e =
      ap (load_informs P I c3) e
      ∙ load_informs_lem P I c.inform_parameters c3 s w.rows
          (omega (arith, ap length z, w.few_rows))
      ∙ ap (λ rows. record c3 { inform_parameters = rows ++ c.inform_parameters }) z

  -- A text of at most 31 bytes comes through both of its buffers.
  short_text :
      (d : I.Dict) (k : Key) (t : Bytes)
      → I.getstring d k [] ≡ t
      → length t ≤ 31
      → copy_text 31 (load_text P I d k []) ≡ t
  short_text d k t e h =
      ap (copy_text 31) (load_text_short P s I m d k [] t e (omega (arith, s.keys_fit)))
      ∙ take-of_le 31 t h

  -- Loading what a dump left makes the state again, in a manager fresh from tr069_control_init.
  pub load_environment-SameState :
      (c c0 : Control) (d : I.Dict)
      → CanDump P I c
      → Dumped P I c d
      → IsFresh P c0
      → SameState c (load_environment P I c0 d).0
  unfolding load_environment load_key load_transfer
  load_environment-SameState c c0 d w u f = record {
    same_flags = ap (λ (x : Control). x.event.event_flag) informs ∙ flags;
    same_number =
        ap (λ (x : Control). x.event.number) informs
        ∙ w2.counted
        ∙ ap (count 1) flags
        ∙ sym (w.event_ok).counted;
    same_key =
        ap (λ (x : Control). x.event.command_key) informs
        ∙ short_text d Key.cmd_key c.event.command_key u.key_stored w.key_fits;
    same_requests = ap requests informs ∙ ap requests frame2 ∙ reqs;
    same_rows = ap (λ (x : Control). x.inform_parameters) informs;
    same_stime = short_text d Key.trans_time c.transfer_stime u.stime_stored w.stime_fits;
    same_ctime = short_text d Key.trans_complete_time c.transfer_ctime u.ctime_stored w.ctime_fits;
    same_result =
        ap P.atoi (
          load_text_short P s I m d Key.trans_ret (b'0' ∷ []) _ u.result_stored
            (s.sprintf_d_short c.transfer_result w.result_fits))
        ∙ s.atoi-sprintf_d c.transfer_result w.result_fits;
  }
    where
      c1 : Control
      c1 = load_requests P I c0 (load_text P I d Key.req_queue [])

      c2 : Control
      c2 =
          load_events P I c1 (load_text P I d Key.event_flag P.default_event_flag) P.event_bootstrap
            (P.event_number - P.event_bootstrap)

      after1 : (requests c1 ≡ requests c) × (c1 ≡ record c0 { request_queue = c1.request_queue })
      after1 = requests_loaded c c0 _ w f (
          load_text_short P s I m d Key.req_queue [] _ u.requests_stored (
            omega (
              arith,
              length-replicate {A = ℕ} (length (requests c)) b'2',
              w.few_requests,
              s.keys_fit,
            )))

      reqs : requests c1 ≡ requests c
      reqs = after1.0

      after2 :
          IsEvent P.event_number c2.event
          × (c2 ≡ record c1 { event = c2.event })
          × (c2.event.event_flag ≡ c.event.event_flag)
      after2 =
          events_loaded c c1 d _ w u
            (subst (λ (x : Control). IsEvent P.event_number x.event) (sym after1.1) f.event_ok)
            (load_text_short P s I m d Key.event_flag P.default_event_flag _ u.flags_stored
              (omega (arith, u.flags_len, s.flags_fit)))

      w2 : IsEvent P.event_number c2.event
      w2 = after2.0

      frame2 : c2 ≡ record c1 { event = c2.event }
      frame2 = after2.1

      flags : c2.event.event_flag ≡ c.event.event_flag
      flags = after2.2

      informs :
          load_informs P I (load_key P I c2 d) (load_text P I d Key.inform_params [])
          ≡ record (load_key P I c2 d) { inform_parameters = c.inform_parameters }
      informs =
          informs_loaded c (load_key P I c2 d) _ w
            (ap (λ (x : Control). x.inform_parameters) frame2
              ∙ ap (λ (x : Control). x.inform_parameters) after1.1
              ∙ f.no_rows)
            (load_text_short P s I m d Key.inform_params [] _ u.informs_stored (
              omega
                (arith, length-codes_text P c.inform_parameters w.rows, w.few_rows, s.codes_fit)))

  init-IsFresh : IsFresh P (init P)
  unfolding init clear_inform_parameters clear_request clear_task
  init-IsFresh = record {
    event_ok = clear_event-IsEvent P s _;
    requests_ok = cleared-IsValid (pos 0);
    no_requests = to_list-cleared (pos 0);
    no_rows = refl;
  }

  -- On a sane platform, with a dictionary that keeps what it is given:
  -- What waited, what was raised and what was stored when the task loop ended is all there again
  -- when the next one starts: a dump into a dictionary with no event, request or inform parameter
  -- succeeds, and a load of what it left makes the same flags, counter, command key, requests, rows
  -- and transfer texts and result in a manager fresh from tr069_control_init. The manager dumped
  -- has its counter and its queue right, requests that are transfer completes, rows that came from
  -- one-character codes and texts of at most 31 bytes.
  pub load-dump_environment :
      (c : Control) (d : I.Dict)
      → CanDump P I c
      → IsCleared P I d
      → (c' : Control) × (d' : I.Dict) × (dump_environment P I c d ≡ some (c', d'))
        × SameState c (load_environment P I (init P) d').0
  load-dump_environment c d w z =
      let (c', d', e, u) = dump_environment-Dumped P s I m c d w z in
      (c', d', e, load_environment-SameState c (init P) d' w u init-IsFresh)

  -- A load clears the dictionary: it then holds no event, request or inform parameter, if the
  -- default flags raise none.
  pub load_environment-IsCleared :
      (c0 : Control) (d : I.Dict)
      → ((k : ℕ) → get_or P.default_event_flag k 0 ≢ b'1')
      → IsCleared P I (load_environment P I c0 d).1
  unfolding load_environment clear_config
  load_environment-IsCleared c0 d h = record {
    no_events = λ k. simp (getstring-set_lem I m) (h k);
    no_requests = simp (getstring-set_lem I m);
    no_informs = simp (getstring-set_lem I m);
  }
