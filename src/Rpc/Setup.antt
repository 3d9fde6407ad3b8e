-- ===== src/Rpc/Setup.antt =====
-- tr069_rpc_x_fv_setup (tr069_rpc.c), the vendor's method that gives the device its addresses.
use tr.Base.{ℕ, Bool, ◌&&◌, Option, none, some, [], ◌∷◌, if◌then◌else◌, ℤ, is_num}
use tr.Platform.{Platform, Bytes}
use tr.Interface.{Indexes, Host, Store, set_config}
use tr.Rpc.{Run, Soap, Method}
use tr.Rpc.Params.{
  ParamAnswers, Read, got, bad, null, ◌>>=◌, argument, text_of, named, answer, refuse,
}

abbrev pub mac_text : Bytes
mac_text = b'M' ∷ b'a' ∷ b'c' ∷ []

abbrev pub stb_id_text : Bytes
stb_id_text = b'S' ∷ b't' ∷ b'b' ∷ b'I' ∷ b'd' ∷ []

module _ (P : Platform) (L : Soap) (A : ParamAnswers) where
  -- The two arguments, of at most 32 bytes each.
  unfoldable pub setup_arguments : L.Doc → Read (Bytes × Bytes)
  setup_arguments doc = elim (argument L mac_text doc) [
    | none ↦ bad A.answers.invalid_arguments
    | some node ↦ do
      mac ← text_of L 33 A.answers.invalid_arguments node
      next ← named L A.answers.invalid_arguments stb_id_text (L.get_next node)
      stbid ← text_of L 33 A.answers.invalid_arguments next
      got (mac, stbid)
  ]

  -- The answer, with the status of the two calls of tr069_set_config.
  abbrev setup_answer : (response : Bool → Bytes) → Bool → Run → ℤ × Run
  setup_answer response done r =
      if A.can_build Method.x_fv_setup
      then answer (response done) r
      else refuse A A.answers.internal_error r

  module _ (N : Indexes) (H : Host) (mac_address stbid_index : ℕ) (response : Bool → Bytes) where
    unfoldable pub setup_read : Read (Bytes × Bytes) → Run → Store H → Option (ℤ × Run × Store H)
    setup_read (got (mac, stbid)) r s =
        let (ret, s1) = set_config P N H s mac_address mac in
        let (ret', s2) = set_config P N H s1 stbid_index stbid in
        let a = setup_answer response (is_num ret 0 && is_num ret' 0) r in some (a.0, a.1, s2)
    setup_read (bad code) r s = some ((refuse A code r).0, (refuse A code r).1, s)
    setup_read null r s = none

    -- tr069_rpc_x_fv_setup
    unfoldable pub x_fv_setup : L.Doc → Run → Store H → Option (ℤ × Run × Store H)
    x_fv_setup doc r s = setup_read (setup_arguments doc) r s
