-- ===== src/Notices/Change.antt =====
-- tr069_value_change (tr069_interface.c) on the running manager.
use tr.Base.{
  ◌+◌, ◌<◌, ◌≤◌, ◌≡◌, refl, sym, ap, ◌∙◌, inl, inr, Bool, true, false, Option, some, List, [], ◌∷◌,
  ◌++◌, arith, length, length-append, get_or, ltb, ◌==◌, if◌then◌else◌, pos, Bool-cases,
}
use mathlib.Core.Option
use tr.Platform.{Platform, Bytes, IsSane}
use tr.Ini.{Ini}
use tr.Control.{Control, InformParameter, Task, mark}
use tr.Control
use tr.Service.{Mgr, World, target_to_set, set_event, start}
use tr.Service.Events.{set_event-memory}
use tr.Codes.{Pcode}
use tr.Notices.{Vendor, Scan, put_codes, change_from, finish_event, finish_change, value_change}
use tr.Notices.Rows.{
  at_mgr, with_codes, with_codes-nil, texts, rows-texts, AreProper, put_codes-proper,
  length-with_codes,
}
use tr.Notices.Raised.{IsReady, noticed, start-running}
use tr.Notices.Flagged.{
  is_some_code, changed_codes, further, AreShort, change_from-not_null, change_from-stb,
  change_from-world,
}

no_code : (l : List Pcode) → is_some_code l ≡ false → l ≡ []
no_code [] h = refl
no_code (c ∷ cs) h = cc

module _ (P : Platform) (I : Ini) (V : Vendor) (s : IsSane P) (a : AreProper P I V)
    (short : AreShort V P I) where
  -- What follows the loop, for its three variables.
  abbrev finish : (not_null stb : Bool) → World I → Option (World I)
  finish not_null stb w =
      if not_null
      then Option.map (finish_event P I V stb)
          (set_event P I w (pos V.event_value_change) (pos 1) (some []))
      else some w

  finish_event-put_codes :
      (key : Bytes) (w : World I)
      → finish_event P I V (if get_or key V.cfg_stbid 0 == b'1' then false else true) (pos 0, w)
        ≡ (start P I (put_codes P I V w (further V key))).1
  unfolding put_codes
  finish_event-put_codes key w = elim (Bool-cases (get_or key V.cfg_stbid 0 == b'1')) [
    | inl on ↦ rw on refl
    | inr off ↦ rw off refl
  ]

  at_mgr-eq : (w : World I) (m : Mgr) → w.g_tr069 ≡ some m → w ≡ at_mgr P I V w m
  at_mgr-eq w m e = ap (λ g. record w { g_tr069 = g }) e

  finish-noticed :
      (key : Bytes) (w : World I) (m : Mgr)
      → IsReady P I V w m V.event_value_change (length (changed_codes V key ++ further V key))
      → finish true
          (if get_or key V.cfg_stbid 0 == b'1' then false else true)
          (at_mgr P I V w (with_codes P I V m (texts P I V (changed_codes V key))))
        ≡ some (noticed P I V w m V.event_value_change (changed_codes V key ++ further V key))
  unfolding target_to_set
  finish-noticed key w m r =
      let c = m.control in
      let F = changed_codes V key in
      let G = further V key in
      let mF = with_codes P I V m (texts P I V F) in
      let event = V.event_value_change in
      let calls = (if ltb event P.event_m_scheduleinform then m.call_flag + 1 else m.call_flag) in
      let w1 : World I = record w { dump_call_flag = calls } in
      let m1 : Mgr =
        (let cF = mF.control in
          record mF {
            control = record cF { event = mark c.event event 1 Option.none };
            call_flag = calls;
          }) in
      ap (Option.map (finish_event P I V _)) (
        set_event-memory P I (at_mgr P I V w mF) mF event 1 [] s refl r.target r.few_calls
          r.in_range (omega arith))
      ∙ ap some (finish_event-put_codes key (at_mgr P I V w1 m1))
      ∙ ap (λ w'. some (start P I w').1)
          (put_codes-proper P I V w1 m1 G a r.target
            (omega (arith, r.room, length-append F G, length-with_codes P I V m F a)))
      ∙ ap (λ t. some t.1) (start-running P I V w1 (with_codes P I V m1 (texts P I V G)) r.working)
      ∙ ap
          (λ (l : List InformParameter). some (record w1 {
            g_tr069 = some (record m {
              control =
                  (Control.put_task
                    (record c { event = mark c.event event 1 Option.none; inform_parameters = l })
                    Task.session).1;
              call_flag = calls;
            });
          }))
          (rows-texts P I V c.inform_parameters F G)

  -- Changed values, of a text with a flag for each entry of the configuration, in the manager at work
  -- with fewer than sixteen calls, room for the codes, and codes that name parameters and fit their
  -- buffer. Where no flag is up of an entry that has a code, nothing happens. Otherwise the event of
  -- changed values is marked and counted, the codes of the entries whose flags are up are put, in
  -- their order, then the identification of the device, unless its flag is up, and its address, and a
  -- session is put into the task queue.
  pub value_change_lem :
      (key : Bytes) (w : World I) (m : Mgr)
      → V.cfg_num ≤ length key + 1
      → V.cfg_stbid < V.cfg_num
      → IsReady P I V w m V.event_value_change (length (changed_codes V key ++ further V key))
      → value_change P I V key w
        ≡ some (
            if is_some_code (changed_codes V key)
            then noticed P I V w m V.event_value_change (changed_codes V key ++ further V key)
            else w)
  unfolding value_change finish_change
  value_change_lem key w m long stb r =
      let F = changed_codes V key in
      let G = further V key in
      let start' : Scan P I V = record { world = w; not_null = false; stb_flag = true } in
      let S = change_from P I V V.cfg_num 0 key start' in
      let whole : ltb (length key + 1) V.cfg_num ≡ false = ground arith in
      let world' =
        change_from-world V P I V.cfg_num 0 key start' w m a short (at_mgr-eq w m r.is_mgr) r.target
          (omega (arith, r.room, length-append F G)) in
      rw whole (
        ap (λ b. finish b S.stb_flag S.world) (change_from-not_null V P I V.cfg_num 0 key start')
        ∙ ap (λ b. finish (is_some_code F) b S.world)
            (change_from-stb V P I V.cfg_num 0 key start' (omega arith) (omega arith))
        ∙ ap
            (λ w'.
              finish (is_some_code F) (if get_or key V.cfg_stbid 0 == b'1' then false else true) w')
            world'
        ∙ elim (Bool-cases (is_some_code F)) [
          | inl some' ↦ rw some' (finish-noticed key w m r)
          | inr none' ↦
              rw (none', no_code F none')
                (ap some (with_codes-nil P I V w m ∙ sym (at_mgr-eq w m r.is_mgr)))
        ])
