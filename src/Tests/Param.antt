-- ===== src/Tests/Param.antt =====
-- The parameter tree of a small box: what the properties say of it, and runs of the code.
use tr.Base.{
  ◌≤◌, ◌≡◌, ◌≢◌, refl, true, false, none, some, [], ◌∷◌, arith, length, ◌==◌, if◌then◌else◌, pos,
}
use tr.Platform.{Bytes}
use tr.CStr.{memcmp_eq}
use tr.Interface.{set_config, get_config}
use tr.Interface.Config.{get_config-set_config}
use tr.Param.{
  Param, Tree, Added, Pointer, DataType, add_param, add_guard, add_dots, add_at, append_leaf, allot,
  idstack_pop, idstack_push, dots_from, dots_of, stops_from, find_node, find_at, leaf_of, stops_of,
}
use tr.Param.Prune.{uninit_slots, remove_param, get_param, source_of}
use tr.Param.Owners.{IsOwned, add_param-IsOwned}
use tr.Param.Lifetime.{remove_param-IsOwned, uninit_slots_lem}
use tr.Param.Search.{node_of, mgr_of, find_node-name, find_node-add_param}
use tr.Param.Insert.{find_node-add_param_self}
use tr.Param.Duplicate.{add_param-duplicate}
use tr.Param.Enumerate.{get_param_lem, answer}
use tr.Param.Values.{at, locate, names_value, set_value, set_attribute}
use tr.Param.Setting.{Predicts, set_value-Predicts, set_attribute_lem}
use tr.Tests.Box.{
  box, box-IsOwned, box-IsNamed, name_ip, name_lan, name_lan_mode, name_url, ip, lan_mode,
  url-Agrees, mode-Agrees,
}
use tr.Tests.Cfg.{indexes, host, host-Keeps, store, libc}
use tr.Tests.Stb.{stb}

abbrev url : Param
url = leaf_of name_url (pos 5) DataType.string (pos 0) 1 4

abbrev added : Added
added = add_param stb box name_url (pos 5) DataType.string (pos 0) 1

add_param-IsOwned_example : IsOwned 40 added.tree added.ids
add_param-IsOwned_example =
    add_param-IsOwned stb box name_url (pos 5) DataType.string (pos 0) 1 (omega arith) box-IsOwned

remove_param-IsOwned_example :
    IsOwned 40 (remove_param stb box name_lan).1.root (remove_param stb box name_lan).1.ids
remove_param-IsOwned_example = remove_param-IsOwned stb box name_lan (omega arith) box-IsOwned

uninit_slots_lem_example : uninit_slots box.ids 2 ≡ (if 2 == 0 then box.ids.table 0 else false)
uninit_slots_lem_example = uninit_slots_lem 40 box.root box.ids 2 box-IsOwned

mode_found : node_of (find_node stb box name_lan_mode) ≡ some lan_mode
unfolding find_node find_at stops_from memcmp_eq
mode_found = refl

find_node-name_example : lan_mode.param_name ≡ name_lan_mode
find_node-name_example =
    find_node-name stb box name_lan_mode lan_mode box-IsNamed (omega arith) mode_found

find_node-add_param_example : node_of (find_node stb (mgr_of added) name_lan_mode) ≡ some lan_mode
find_node-add_param_example =
    find_node-add_param stb box name_url (pos 5) DataType.string (pos 0) 1 name_lan_mode lan_mode
      mode_found

url_added : added.result ≡ Pointer.to url
unfolding add_param add_guard add_dots add_at append_leaf allot idstack_pop idstack_push dots_from
    memcmp_eq
url_added = refl

find_node-add_param_self_example : node_of (find_node stb (mgr_of added) name_url) ≡ some url
find_node-add_param_self_example =
    find_node-add_param_self stb box name_url (pos 5) DataType.string (pos 0) 1 url (omega arith)
      box-IsNamed url-Agrees url_added

some_dots : dots_of name_lan_mode ≢ []
unfolding dots_from
some_dots = λ e. ground (arith, e)

add_param-duplicate_example :
    add_param stb box name_lan_mode (pos 5) DataType.string (pos 0) 1
    ≡ record { tree = box.root; ids = box.ids; result = Pointer.null }
add_param-duplicate_example =
    add_param-duplicate stb box name_lan_mode (pos 5) DataType.string (pos 0) 1 lan_mode
      (omega arith) box-IsNamed mode-Agrees some_dots mode_found

get_param_lem_example :
    (get_param stb box name_lan 0 true ≡ answer name_lan 0 true (source_of stb box name_lan))
    × (length (get_param stb box name_lan 0 true).1 ≤ 40)
get_param_lem_example = get_param_lem stb box name_lan 0 true (omega arith) box-IsOwned

pub ip_located : locate name_ip (stops_of name_ip) box.root ≡ at ip
unfolding locate stops_from memcmp_eq
ip_located = refl

pub names_ip : names_value stb name_ip (b'1' ∷ []) ≡ some (pos 0)
unfolding names_value
names_ip = refl

set_value-Predicts_example :
    Predicts stb libc indexes host
      (set_value stb libc indexes host box name_ip (b'1' ∷ []) 2 store)
      (set_value stb libc indexes host box name_ip (b'1' ∷ []) 0 store)
      store
set_value-Predicts_example =
    set_value-Predicts stb libc indexes host box name_ip (b'1' ∷ []) store
      (λ e. ground (arith, e, names_ip)) (λ p e. (3, ground (arith, e, ip_located)))

set_attribute_lem_example :
    (t : Tree) × (set_attribute stb libc indexes host 90 box name_ip (b'1' ∷ []) 0 0
      ≡ some (pos 0, t, none))
    × (locate name_ip (stops_of name_ip) t ≡ at (record ip { notif_type = stb.atoi (b'1' ∷ []) }))
    × ((name' : Bytes) (q : Param)
        → locate name' (stops_of name') box.root ≡ at q
        → q.param_id ≢ 1
        → locate name' (stops_of name') t ≡ at q)
set_attribute_lem_example =
    set_attribute_lem stb libc indexes host 90 box name_ip (b'1' ∷ []) 0 0 ip names_ip ip_located
      refl refl (omega arith) (omega arith)

get_config-set_config_example :
    let s' = (set_config stb indexes host store 3 (b'1' ∷ [])).1 in
    ((get_config stb indexes host s' 3 [] 64).1 ≡ b'1' ∷ [])
    × ((set_config stb indexes host s' 3 (b'1' ∷ [])).1 ≡ s')
get_config-set_config_example =
    get_config-set_config stb indexes host store 3 (b'1' ∷ []) [] host-Keeps refl (omega arith)
      (omega arith)
