-- ===== src/Tests/Box.antt =====
-- A box for the parameters: a small tree.
use tr.Base.{
  ℕ, zero, suc, ◌+◌, ◌<◌, ◌≤◌, ◌≡◌, refl, inl, inr, Bool, true, ◌&&◌, none, some, [], ◌∷◌, arith,
  length, get_or, ltb, ◌==◌, if◌then◌else◌, pos, Bool-cases,
}
use tr.Platform.{Bytes}
use tr.CStr.{memcmp_eq}
use tr.Param.{Param, nil, node, Mgr, DataType}
use tr.Param.Owners.{IsOwned}
use tr.Param.Prune.{root_param}
use tr.Param.Search.{Every, IsNamed}
use tr.Param.Walk.{Agrees}

abbrev pub name_ip : Bytes
name_ip = b'D' ∷ b'e' ∷ b'v' ∷ b'i' ∷ b'c' ∷ b'e' ∷ b'.' ∷ b'I' ∷ b'P' ∷ []

abbrev pub name_lan : Bytes
name_lan = b'D' ∷ b'e' ∷ b'v' ∷ b'i' ∷ b'c' ∷ b'e' ∷ b'.' ∷ b'L' ∷ b'A' ∷ b'N' ∷ b'.' ∷ []

abbrev pub name_lan_mode : Bytes
name_lan_mode =
    b'D' ∷ b'e' ∷ b'v' ∷ b'i' ∷ b'c' ∷ b'e' ∷ b'.' ∷ b'L' ∷ b'A' ∷ b'N' ∷ b'.' ∷ b'M' ∷ b'o' ∷ b'd'
    ∷ b'e' ∷ []

abbrev pub name_url : Bytes
name_url =
    b'D' ∷ b'e' ∷ b'v' ∷ b'i' ∷ b'c' ∷ b'e' ∷ b'.' ∷ b'L' ∷ b'A' ∷ b'N' ∷ b'.' ∷ b'U' ∷ b'R' ∷ b'L'
    ∷ []

abbrev pub ip : Param
ip = record {
  param_id = 1;
  write_flag = 1;
  child_number = 0;
  param_name = name_ip;
  param_index = some (pos 3);
  data_type = DataType.string;
  notif_type = pos 0;
}

abbrev pub lan : Param
lan = record {
  param_id = 2;
  write_flag = 0;
  child_number = 0;
  param_name = name_lan;
  param_index = none;
  data_type = DataType.object;
  notif_type = pos 0;
}

abbrev pub lan_mode : Param
lan_mode = record {
  param_id = 3;
  write_flag = 1;
  child_number = 0;
  param_name = name_lan_mode;
  param_index = some (pos 4);
  data_type = DataType.string;
  notif_type = pos 0;
}

-- "Device." with "Device.IP" and "Device.LAN.Mode".
abbrev pub box : Mgr
box = record {
  root = node root_param (node ip nil (node lan (node lan_mode nil nil) nil)) nil;
  ids = record { table = λ i. ltb i 4; param_number = 4; idstack = 4 ∷ [] };
}

pub box-IsOwned : IsOwned 40 box.root box.ids
box-IsOwned = record {
  nonempty = omega arith;
  room = omega arith;
  sum = refl;
  split = λ k. ground arith;
  owned = λ k. ground arith;
  few = omega arith;
  within = omega arith;
}

pub box-IsNamed : IsNamed box.root
box-IsNamed = ground arith

-- Agreement is checked at the places of the name.
check : Bytes → Param → ℕ → Bool
check name p zero = true
check name p (suc i) =
    if get_or name i 0 == b'.'
    then (if memcmp_eq p.param_name name i
        then memcmp_eq p.param_name name (i + 1) && check name p i
        else check name p i)
    else check name p i

check_at :
    (name : Bytes) (p : Param) (n i : ℕ)
    → check name p n ≡ true
    → i < n
    → get_or name i 0 ≡ b'.'
    → memcmp_eq p.param_name name i ≡ true
    → memcmp_eq p.param_name name (i + 1) ≡ true
unfolding check
check_at name p zero i c h d e = absurd (omega arith)
check_at name p (suc n) i c h d e = elim (Bool-cases (i == n)) [
  | inl here ↦ ground arith
  | inr before ↦ ground (arith, check_at name p n i)
]

get_or-beyond : (name : Bytes) (i : ℕ) → length name ≤ i → get_or name i 0 ≡ 0
get_or-beyond [] i h = refl
get_or-beyond (c ∷ name) zero h = absurd (omega arith)
get_or-beyond (c ∷ name) (suc i) h = get_or-beyond name i (omega arith)

Agrees-of_check :
    (name : Bytes) (p : Param)
    → check name p (length name) ≡ true
    → (memcmp_eq p.param_name name (length name) ≡ true → get_or p.param_name (length name) 0 ≡ 0)
    → Agrees name p
Agrees-of_check name p c e = (
  (λ i d m. elim (Bool-cases (ltb i (length name))) [
    | inl inside ↦ check_at name p (length name) i c (ground (arith, inside)) d m
    | inr outside ↦ absurd (ground (arith, outside, get_or-beyond name i, d))
  ]),
  e,
)

pub url-Agrees : Every (Agrees name_url) box.root
unfolding check memcmp_eq
url-Agrees =
    let plain : (p : Param)
        → check name_url p (length name_url) ≡ true
        → (memcmp_eq p.param_name name_url (length name_url) ≡ true
            → get_or p.param_name (length name_url) 0 ≡ 0)
        → Agrees name_url p =
      Agrees-of_check name_url in
    (
      plain root_param refl (λ e. refl),
      (
        plain ip refl (λ e. refl),
        tt,
        (
          plain lan refl (λ e. refl),
          (plain lan_mode refl (λ e. absurd (ground (arith, e))), tt, tt),
          tt,
        ),
      ),
      tt,
    )

pub mode-Agrees : Every (Agrees name_lan_mode) box.root
unfolding check memcmp_eq
mode-Agrees =
    let plain : (p : Param)
        → check name_lan_mode p (length name_lan_mode) ≡ true
        → (memcmp_eq p.param_name name_lan_mode (length name_lan_mode) ≡ true
            → get_or p.param_name (length name_lan_mode) 0 ≡ 0)
        → Agrees name_lan_mode p =
      Agrees-of_check name_lan_mode in
    (
      plain root_param refl (λ e. refl),
      (
        plain ip refl (λ e. refl),
        tt,
        (plain lan refl (λ e. refl), (plain lan_mode refl (λ e. refl), tt, tt), tt),
      ),
      tt,
    )
