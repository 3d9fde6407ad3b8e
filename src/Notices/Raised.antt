-- ===== src/Notices/Raised.antt =====
-- What a report (tr069_interface.c, tr069_timer.c) leaves in the running manager.
use tr.Base.{
  ℕ, ◌+◌, ◌<◌, ◌≤◌, ◌≡◌, refl, ap, ◌∙◌, none, some, List, [], arith, length, ltb, if◌then◌else◌,
  pos,
}
use mathlib.Core.Option
use tr.Platform.{Platform, IsSane}
use tr.Ini.{Ini}
use tr.Control.{Control, InformParameter, Task, mark, copy_text}
use tr.Control
use tr.Service.{Mgr, MgrStatus, World, target_to_set, start, start_on}
use tr.Service.Events.{set_event-memory, after_set}
use tr.Codes.{Pcode}
use tr.Notices.{Vendor, reported, report}
use tr.Notices.Rows.{with_rows, at_mgr, with_codes, texts, AreProper, put_codes-proper}

module _ (P : Platform) (I : Ini) (V : Vendor) where
  pub start-running :
      (w : World I) (m : Mgr)
      → m.status ≡ MgrStatus.working
      → start P I (at_mgr P I V w m) ≡ (
        pos 0,
        at_mgr P I V w (record m { control = (Control.put_task m.control Task.session).1 }),
      )
  unfolding start start_on
  start-running w m e = rw e refl

  -- The manager after a notice: the event is marked, the rows are there, and the session is put.
  abbrev pub noticed : World I → Mgr → ℕ → List Pcode → World I
  noticed w m event codes =
      let c = m.control in
      let calls = (if ltb event P.event_m_scheduleinform then m.call_flag + 1 else m.call_flag) in
      let c1 : Control = record (with_rows P c (texts P I V codes)) {
        event = mark c.event event 1 none;
      } in
      record w {
        g_tr069 =
            some (record m { control = (Control.put_task c1 Task.session).1; call_flag = calls });
        dump_call_flag = calls;
      }

  -- A manager at work that can take a notice with so many codes.
  pub record IsReady (w : World I) (m : Mgr) (event n : ℕ) : Type 0 where
    pub is_mgr : w.g_tr069 ≡ some m
    pub working : m.status ≡ MgrStatus.working
    pub target : target_to_set m ≡ pos 1
    pub few_calls : m.call_flag < 16
    pub in_range : event < P.event_number
    pub room : (let c = m.control in length c.inform_parameters + n ≤ P.max_inform_param_num)

  pub reported_lem :
      (w : World I) (m : Mgr) (event : ℕ) (codes : List Pcode)
      → AreProper P I V
      → m.status ≡ MgrStatus.working
      → target_to_set m ≡ pos 1
      → (let c = m.control in length c.inform_parameters + length codes ≤ P.max_inform_param_num)
      → reported P I V codes (pos 0, after_set P I w m event 1 none) ≡ noticed w m event codes
  unfolding target_to_set
  reported_lem w m event codes a working target room =
      let c = m.control in
      let calls = (if ltb event P.event_m_scheduleinform then m.call_flag + 1 else m.call_flag) in
      let m1 : Mgr = record m {
        control = record c { event = mark c.event event 1 none };
        call_flag = calls;
      } in
      let w1 : World I = record w { dump_call_flag = calls } in
      ap (λ w'. (start P I w').1) (put_codes-proper P I V w1 m1 codes a target room)
      ∙ ap (λ t. t.1) (start-running w1 (with_codes P I V m1 (texts P I V codes)) working)

  pub report_lem :
      (w : World I) (m : Mgr) (event : ℕ) (codes : List Pcode)
      → IsSane P
      → AreProper P I V
      → IsReady w m event (length codes)
      → report P I V event codes w ≡ some (noticed w m event codes)
  unfolding report
  report_lem w m event codes s a r =
      ap (Option.map (reported P I V codes)) (
        set_event-memory P I w m event 1 [] s r.is_mgr r.target r.few_calls r.in_range
          (omega arith))
      ∙ ap some (reported_lem w m event codes a r.working r.target r.room)
