-- ===== src/Ini.antt =====
-- The status dictionary `tr069_status_ini`. Its functions belong to the iniparser library, which is
-- not part of the repository: they are parameters, with what the code relies on as laws.
use tr.Base.{
  ℕ, zero, suc, ◌≡◌, ◌≢◌, refl, sym, ap, ◌∙◌, inl, inr, Bool, true, arith, ◌==◌, if◌then◌else◌, ℤ,
  pos, Bool-cases,
}
use tr.Platform.{Bytes}

-- The entries that tr069_common.h names, TR069_STATUS_FIRSTBOOT and the rest.
pub data Key : Type 0 where
  first_boot event_flag req_queue inform_params cmd_key : Key
  trans_time trans_complete_time trans_ret : Key

pub record Ini : Type 1 where
  pub Dict : Type 0
  -- iniparser_getstring(ini, key, default)
  pub getstring : Dict → Key → Bytes → Bytes
  -- iniparser_set(ini, key, value), with its return code
  pub set : Dict → Key → Bytes → ℤ × Dict

-- A dictionary that keeps what it is given, while memory lasts.
pub record Remembers (I : Ini) : Type 0 where
  pub set_ok : (d : I.Dict) (k : Key) (v : Bytes) → (I.set d k v).0 ≡ pos 0
  pub getstring-set : (d : I.Dict) (k : Key) (v def : Bytes) → I.getstring (I.set d k v).1 k def ≡ v
  pub getstring-set_ne :
      (d : I.Dict) (k j : Key) (v def : Bytes)
      → k ≢ j
      → I.getstring (I.set d k v).1 j def ≡ I.getstring d j def

abbrev key_index : Key → ℕ
key_index first_boot = 0
key_index event_flag = 1
key_index req_queue = 2
key_index inform_params = 3
key_index cmd_key = 4
key_index trans_time = 5
key_index trans_complete_time = 6
key_index trans_ret = 7

key_at : ℕ → Key
key_at zero = first_boot
key_at (suc zero) = event_flag
key_at (suc (suc zero)) = req_queue
key_at (suc (suc (suc zero))) = inform_params
key_at (suc (suc (suc (suc zero)))) = cmd_key
key_at (suc (suc (suc (suc (suc zero))))) = trans_time
key_at (suc (suc (suc (suc (suc (suc zero)))))) = trans_complete_time
key_at n = trans_ret

key_at-index : (k : Key) → key_at (key_index k) ≡ k
unfolding key_at
key_at-index first_boot = refl
key_at-index event_flag = refl
key_at-index req_queue = refl
key_at-index inform_params = refl
key_at-index cmd_key = refl
key_at-index trans_time = refl
key_at-index trans_complete_time = refl
key_at-index trans_ret = refl

abbrev pub key_eq : Key → Key → Bool
key_eq k j = key_index k == key_index j

pub key_eq-eq : (k j : Key) → key_eq k j ≡ true → k ≡ j
key_eq-eq k j e = sym (key_at-index k) ∙ ap key_at (ground arith) ∙ key_at-index j

-- Reading after a write, in one equation.
pub getstring-set_lem :
    (I : Ini)
    → Remembers I
    → (d : I.Dict) (k j : Key) (v def : Bytes)
    → I.getstring (I.set d k v).1 j def ≡ (if key_eq k j then v else I.getstring d j def)
getstring-set_lem I m d k j v def = elim (Bool-cases (key_eq k j)) [
  | inl same ↦ rw (same, ← key_eq-eq k j same) (m.getstring-set d k v def)
  | inr other ↦ rw other (m.getstring-set_ne d k j v def (λ e. ground (arith, ap key_index e)))
]
