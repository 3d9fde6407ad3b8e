-- ===== src/Rpc/Null.antt =====
-- The answers of the server on which tr069_rpc_deal_recv (tr069_rpc.c) reads through NULL.
use mathlib.Core.Option
use tr.Base.{
  ◌≡◌, ◌⊎◌, inl, inr, refl, sym, arith, ◌∙◌, Option, some, ◌++◌, if◌then◌else◌, ℤ, pos, minus_one,
  Bool-cases, Option-cases,
}
use tr.Platform.{Platform, Bytes}
use tr.CStr.{strcmp_eq}
use tr.Rpc.{
  Run, Soap, Method, method_of, then_node, inform_response, deal_fault, retry_or_fail, response_of,
  deal_response, deal_method, deal_recv,
}
use tr.Rpc.Names.{RpcType, type_name, fault_text, response_text, max_envelopes, one}
use tr.Rpc.Kept.{ReadsNull}

module _ (P : Platform) (L : Soap) where
  -- The first child of the first child of the third element of a Fault: its FaultCode.
  abbrev pub fault_code_node : L.Doc → Option L.Node
  fault_code_node doc =
      let first = then_node P L (L.get_method doc) L.get_child in
      let third = then_node P L (then_node P L first L.get_next) L.get_next in
      then_node P L (then_node P L third L.get_child) L.get_child

  -- An InformResponse without a child, and a FaultCode without a text of its own.
  abbrev pub BadResponse : RpcType → L.Doc → Type 0
  BadResponse t doc =
      ((t ≡ RpcType.acs_inform) × (then_node P L (L.get_method doc) L.get_child ≡ Option.none))
      ⊎ ((node : L.Node) × (fault_code_node doc ≡ some node) × (L.get_content node ≡ Option.none))

  deal_fault-null :
      (t : RpcType) (doc : L.Doc) → deal_fault P L doc ≡ Option.none → BadResponse t doc
  unfolding deal_fault
  deal_fault-null t doc h = elim (Option-cases (fault_code_node doc)) [
    | inl e ↦ let q : deal_fault P L doc ≡ some minus_one = rw (e, deal_fault) refl in absurd (cc)
    | inr (node, e) ↦ elim (Option-cases (L.get_content node)) [
      | inl c ↦ inr (node, e, c)
      | inr (s, c) ↦
          let q : deal_fault P L doc ≡ some (retry_or_fail P L (P.atoi s)) =
            rw (e, c, deal_fault) refl in
          absurd (cc)
    ]
  ]

  inform_response-null :
      (doc : L.Doc)
      → inform_response P L doc ≡ Option.none
      → then_node P L (L.get_method doc) L.get_child ≡ Option.none
  unfolding inform_response
  inform_response-null doc h = elim (Option-cases (then_node P L (L.get_method doc) L.get_child)) [
    | inl e ↦ e
    | inr (node, e) ↦ elim (Option-cases (L.get_content node)) [
      | inl c ↦
          let q : inform_response P L doc ≡ some minus_one = rw (e, c, inform_response) refl in
          absurd (cc)
      | inr (str, c) ↦
          let q : inform_response P L doc ≡ some (answer_code node str) =
            rw (e, c, inform_response) (judged node str) in
          absurd (cc)
    ]
  ]
    where
      answer_code : L.Node → Bytes → ℤ
      answer_code node str =
          if strcmp_eq (L.name node) max_envelopes
          then (if strcmp_eq str one then pos 0 else minus_one)
          else minus_one

      judged :
          (node : L.Node) (str : Bytes)
          → (if strcmp_eq (L.name node) max_envelopes
              then (if strcmp_eq str one then some (pos 0) else some minus_one)
              else some minus_one)
            ≡ some (answer_code node str)
      judged node str = ground arith

  response_of-null :
      (t : RpcType) (doc : L.Doc) → response_of P L t doc ≡ Option.none → BadResponse t doc
  unfolding response_of
  response_of-null RpcType.acs_inform doc h = inl (refl, inform_response-null doc h)
  response_of-null RpcType.acs_transfer_complete doc h = absurd (cc)
  response_of-null t doc h = absurd (cc)

  deal_response-null :
      (t : RpcType) (doc : L.Doc) (name : Bytes)
      → deal_response P L t doc name ≡ Option.none
      → BadResponse t doc
  unfolding deal_response
  deal_response-null t doc name h = elim (Bool-cases (strcmp_eq name fault_text)) [
    | inl f ↦
        let q : deal_response P L t doc name ≡ deal_fault P L doc = rw (f, deal_response) refl in
        deal_fault-null t doc (sym q ∙ h)
    | inr f ↦ elim (Option-cases (type_name t)) [
      | inl e ↦
          let q : deal_response P L t doc name ≡ some minus_one = rw (f, e, deal_response) refl in
          absurd (cc)
      | inr (s, e) ↦ elim (Bool-cases (strcmp_eq name (s ++ response_text))) [
        | inl g ↦
            let q : deal_response P L t doc name ≡ response_of P L t doc =
              rw (f, e, g, deal_response) refl in
            response_of-null t doc (sym q ∙ h)
        | inr g ↦
            let q : deal_response P L t doc name ≡ some minus_one =
              rw (f, e, g, deal_response) refl in
            absurd (cc)
      ]
    ]
  ]

  module _ (serve : Method → L.Doc → Run → Option (ℤ × Run)) where
    -- The run has received an answer on which a method of the server reads through NULL, or the
    -- dealing with a response.
    abbrev pub BadAnswer : Run → Type 0
    BadAnswer r =
        (doc : L.Doc) × (node : L.Node) × (L.buffer_new r.recv_data ≡ some doc)
        × (L.get_method doc ≡ some node)
        × (((r.req_to_acs ≡ RpcType.empty) × (serve (method_of (L.name node)) doc r ≡ Option.none))
            ⊎ BadResponse r.req_to_acs doc)

    map-none :
        (r : Run) (o : Option ℤ)
        → Option.map {B = ℤ × Run} (λ ret. (ret, r)) o ≡ Option.none
        → o ≡ Option.none
    map-none r Option.none h = refl
    map-none r (some z) h = absurd (cc)

    deal_method-null :
        (t : RpcType) (doc : L.Doc) (name : Bytes) (r : Run)
        → deal_method P L serve t doc name r ≡ Option.none
        → ((t ≡ RpcType.empty) × (serve (method_of name) doc r ≡ Option.none)) ⊎ BadResponse t doc
    unfolding deal_method
    deal_method-null RpcType.empty doc name r h = inl (refl, h)
    deal_method-null t doc name r h =
        inr (deal_response-null t doc name (map-none r (deal_response P L t doc name) h))

    -- Nothing else makes the dealing with an answer read through NULL.
    pub deal_recv-null : (r : Run) → ReadsNull P L serve r → BadAnswer r
    unfolding deal_recv
    deal_recv-null r h = elim (Option-cases (L.buffer_new r.recv_data)) [
      | inl e ↦
          let q : deal_recv P L serve r ≡ some (minus_one, r) = rw (e, deal_recv) refl in
          absurd (cc)
      | inr (doc, e) ↦ elim (Option-cases (L.get_method doc)) [
        | inl g ↦
            let q : deal_recv P L serve r ≡ some (minus_one, r) = rw (e, g, deal_recv) refl in
            absurd (cc)
        | inr (node, g) ↦
            let q : deal_recv P L serve r ≡ deal_method P L serve r.req_to_acs doc (L.name node) r =
              rw (e, g, deal_recv) refl in
            (doc, node, e, g, deal_method-null r.req_to_acs doc (L.name node) r (sym q ∙ h))
      ]
    ]
