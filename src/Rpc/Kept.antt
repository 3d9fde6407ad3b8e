-- ===== src/Rpc/Kept.antt =====
-- What tr069_rpc_deal_recv leaves alone (tr069_rpc.c).
use mathlib.Core.Option
use tr.Base.{◌≡◌, refl, ℤ, inl, inr, Option, some, Option-cases}
use tr.Platform.{Platform, Bytes}
use tr.Ring.Fifo.{IsValid}
use tr.Rpc.{Run, Soap, Method, deal_recv, deal_method}
use tr.Rpc.Names.{RpcType}

-- The status and the connection are the same, and the task queue is still in order.
pub record Kept (r r' : Run) : Type 0 where
  pub same_status : r'.status ≡ r.status
  pub same_replies : r'.replies ≡ r.replies
  pub same_sent : r'.sent ≡ r.sent
  pub ring : IsValid r.control.task_queue → IsValid r'.control.task_queue

pub Kept-refl : (r : Run) → Kept r r
Kept-refl r = record { same_status = refl; same_replies = refl; same_sent = refl; ring = λ v. v }

abbrev pub KeptIf : Run → Option (ℤ × Run) → Type 0
KeptIf r Option.none = Unit {0}
KeptIf r (some (ret, r')) = Kept r r'

-- The answer that the run received makes the code read through NULL.
abbrev pub ReadsNull :
    (P : Platform) (L : Soap) → (Method → L.Doc → Run → Option (ℤ × Run)) → Run → Type 0
ReadsNull P L serve r = deal_recv P L serve r ≡ Option.none

-- What the methods of the server must leave alone, where they return.
abbrev pub Keeps : (L : Soap) → (Method → L.Doc → Run → Option (ℤ × Run)) → Type 0
Keeps L serve = (m : Method) (doc : L.Doc) (r : Run) → KeptIf r (serve m doc r)

module _ (P : Platform) (L : Soap) (serve : Method → L.Doc → Run → Option (ℤ × Run))
    (keeps : Keeps L serve) where
  answered-Kept : (r : Run) (o : Option ℤ) → KeptIf r (Option.map (λ ret. (ret, r)) o)
  answered-Kept r Option.none = tt
  answered-Kept r (some ret) = Kept-refl r

  deal_method-Kept :
      (t : RpcType) (doc : L.Doc) (name : Bytes) (r : Run)
      → KeptIf r (deal_method P L serve t doc name r)
  unfolding deal_method
  deal_method-Kept RpcType.empty doc name r = keeps _ doc r
  deal_method-Kept t doc name r = answered-Kept r _

  pub deal_recv-Kept : (r : Run) → KeptIf r (deal_recv P L serve r)
  unfolding deal_recv
  deal_recv-Kept r = elim (Option-cases (L.buffer_new r.recv_data)) [
    | inl e ↦ rw (e, deal_recv) (Kept-refl r)
    | inr (doc, e) ↦ elim (Option-cases (L.get_method doc)) [
      | inl g ↦ rw (e, g, deal_recv) (Kept-refl r)
      | inr (node, g) ↦ rw (e, g, deal_recv) (deal_method-Kept r.req_to_acs doc (L.name node) r)
    ]
  ]
