-- ===== src/Env/Requests.antt =====
-- The request queue on its way through the status dictionary (tr069.c).
use tr.Base.{
  ℕ, zero, suc, ◌+◌, ◌≤◌, ◌≡◌, refl, ap, ◌∙◌, true, List, [], ◌∷◌, ◌++◌, arith, length,
  length-append, replicate, ℤ, pos, between, is_num, All,
}
use mathlib.Core.List.{append-nil, append_assoc}
use tr.Platform.{Platform, Bytes, IsSane}
use tr.Ini.{Ini}
use tr.Ring.Fifo.{IsValid}
use tr.Control.{Control}
use tr.Control.Queues.{requests, pick_request-empty, pick_request-cons, put_request-ok}
use tr.Env.{load_requests, dump_requests}

-- `c` with the request queue of `d`
abbrev with_queue : Control → Control → Control
with_queue d c = record c { request_queue = d.request_queue }

module _ (P : Platform) (I : Ini) where
  -- Every request that waits is a transfer complete.
  abbrev pub AreTransfers : List ℤ → Type 0
  AreTransfers rs = All (λ r. r ≡ pos P.rpc_acs_transfer_complete) rs

  is_num_self : is_num (pos P.rpc_acs_transfer_complete) P.rpc_acs_transfer_complete ≡ true
  is_num_self = ground arith

  transfer_between :
      IsSane P
      → between P.rpc_acs_inform P.rpc_acs_transfer_complete (pos P.rpc_acs_transfer_complete)
        ≡ true
  transfer_between s = ground (arith, s.inform_below)

  -- With room for all of them, the dump writes one character for each request and leaves none.
  pub dump_requests_lem :
      (rs : List ℤ) (c : Control) (text : Bytes) (n : ℕ)
      → requests c ≡ rs
      → IsValid c.request_queue
      → AreTransfers rs
      → length rs ≤ n
      → let (c', text') = dump_requests P I c text n in
        (text' ≡ text ++ replicate (length rs) b'2')
        × (requests c' ≡ [])
        × (c' ≡ record c { request_queue = c'.request_queue })
  unfolding dump_requests
  dump_requests_lem [] c text zero e v a h = (rw append-nil, e, refl)
  dump_requests_lem [] c text (suc n) e v a h =
      rw (pick_request-empty c v e) (rw append-nil, e, refl)
  dump_requests_lem (r ∷ rs) c text zero e v a h = absurd (omega arith)
  dump_requests_lem (r ∷ rs) c text (suc n) e v a h =
      let (c', p, l, frame, v') = pick_request-cons c r rs v e in
      let (t, empty, frame') =
        dump_requests_lem rs c' (text ++ (b'2' ∷ [])) n l v' a.1 (omega arith) in
      rw (p, a.0, is_num_self)
        (
          t ∙ append_assoc text (b'2' ∷ []) (replicate (length rs) b'2'),
          empty,
          frame' ∙ ap (with_queue (dump_requests P I c' (text ++ (b'2' ∷ [])) n).0) frame,
        )

  -- The load puts one transfer complete for each character.
  pub load_requests_lem :
      (k : ℕ) (c : Control)
      → IsSane P
      → IsValid c.request_queue
      → length (requests c) + k ≤ 15
      → let c' = load_requests P I c (replicate k b'2') in
        (requests c' ≡ requests c ++ replicate k (pos P.rpc_acs_transfer_complete))
        × (c' ≡ record c { request_queue = c'.request_queue })
        × IsValid c'.request_queue
  unfolding load_requests
  load_requests_lem zero c s v h = (rw append-nil, refl, v)
  load_requests_lem (suc k) c s v h =
      let (c', p, l, frame, v') =
        put_request-ok P c (pos P.rpc_acs_transfer_complete) v (transfer_between s) (omega arith) in
      let (l', frame', v'') = load_requests_lem k c' s v' (
        omega (
          arith,
          ap length l,
          length-append (requests c) (pos P.rpc_acs_transfer_complete ∷ []),
        )) in
      rw (p, load_requests)
        (
          l' ∙ rw l (append_assoc (requests c) (pos P.rpc_acs_transfer_complete ∷ []) _),
          frame' ∙ ap (with_queue (load_requests P I c' (replicate k b'2'))) frame,
          v'',
        )
