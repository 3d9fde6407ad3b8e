-- ===== src/Param/Prune.antt =====
-- tr069_parameter.c: the life of the manager, the removal of parameters and their enumeration.
use tr.Base.{
  ℕ, zero, suc, ◌+◌, ◌-◌, ◌%◌, Bool, true, false, ◌&&◌, ◌||◌, not, Option, none, some, List, [],
  ◌∷◌, ◌++◌, length, get_or, ltb, leb, ◌==◌, if◌then◌else◌, ℤ, pos, negsuc, minus_one, is_num,
}
use tr.Platform.{Platform, Bytes}
use tr.CStr.{memcmp_eq}
use tr.Param.{
  Param, Tree, nil, node, Ids, Mgr, DataType, is_object, idstack_push, update, name_len, stops_of,
  find_node,
}

abbrev pub root_param : Param
root_param = record {
  param_id = 0;
  write_flag = 0;
  child_number = 0;
  param_name = b'D' ∷ b'e' ∷ b'v' ∷ b'i' ∷ b'c' ∷ b'e' ∷ b'.' ∷ [];
  param_index = some (pos 0);
  data_type = DataType.object;
  notif_type = pos 0;
}

-- tr069_parameter_init, up to the call of tr069_parameter_init_params.
unfoldable pub init : Mgr
unfolding idstack_push
init = record {
  root = node root_param nil nil;
  ids = record {
    table = update (λ i. false) 0 true;
    param_number = 1;
    idstack = (idstack_push [] 1).1;
  };
}

-- The loop of tr069_parameter_uninit over `n` slots from `i`: which slots stay occupied.
unfoldable pub free_slots : ℕ → ℕ → (ℕ → Bool) → ℕ → Bool
free_slots zero i table = table
free_slots (suc n) i table = free_slots n (i + 1) (update table i false)

-- The slots that are still occupied after the loop of tr069_parameter_uninit.
unfoldable pub uninit_slots : Ids → ℕ → Bool
uninit_slots s = free_slots (s.param_number + length s.idstack - 1 - 1) 1 s.table

-- One node of tr069_parameter_recursive_remove: its id goes back to the stack; where the stack is
-- full, the node keeps its slot and its memory.
unfoldable pub release : ℕ → Ids → Ids
release id s =
    if leb s.param_number 1
    then s
    else let (ret, stack) = idstack_push s.idstack id in
      if is_num ret 0
      then (record {
        table = update s.table id false;
        param_number = (s.param_number + 65535) % 65536;
        idstack = stack;
      })
      else s

-- tr069_parameter_recursive_remove
unfoldable pub recursive_remove : Tree → Ids → Ids
recursive_remove nil s = s
recursive_remove (node p child next) s =
    release p.param_id (recursive_remove next (recursive_remove child s))

-- The test at which tr069_parameter_find_node stops: the node has the whole name.
abbrev pub is_named : Bytes → ℕ → ℕ → Param → Bool
is_named name n i p = (i + 1 == n) && (get_or p.param_name n 0 == 0)

-- `*(ref_pointer) = source_param->next`, on the walk of tr069_parameter_find_node.
unfoldable pub unlink_at : Bytes → ℕ → (stops : List ℕ) → Tree → Tree
unlink_at name n [] t = t
unlink_at name n (i ∷ stops) nil = nil
unlink_at name n (i ∷ stops) (node p child next) =
    let down = unlink_at name n stops child in
    let on = unlink_at name n (i ∷ stops) next in
    if memcmp_eq p.param_name name (i + 1)
    then (if is_named name n i p then next else node p down next)
    else node p child on

-- `ref_pointer == NULL`: what was found is the first node of the first level.
unfoldable pub found_root : Bytes → ℕ → List ℕ → Tree → Bool
found_root name n (i ∷ stops) (node p child next) =
    memcmp_eq p.param_name name (i + 1) && is_named name n i p
found_root name n _ _ = false

-- tr069_parameter_remove_param
unfoldable pub remove_param : Platform → Mgr → Bytes → ℤ × Mgr
remove_param P m name = elim (find_node P m name) [
  | none ↦ (minus_one, m)
  | some (p, child) ↦
      if found_root name (name_len name) (stops_of name) m.root then (minus_one, m) else (
        pos 0,
        record {
          root = unlink_at name (name_len name) (stops_of name) m.root;
          ids = recursive_remove (node p child nil) m.ids;
        },
      )
]

-- `param_set[num] = param; num++`, where objects are wanted or it is none.
unfoldable pub keep : Bool → Param → List Param → List Param
keep objects p got = if objects || not (is_object p.data_type) then got ++ (p ∷ []) else got

-- tr069_parameter_recursive_get: its loop over the children of a node, with its call for each.
unfoldable pub get_children : Bool → Tree → List Param → List Param
get_children objects nil got = got
get_children objects (node p child next) got =
    get_children objects next (get_children objects child (keep objects p got))

unfoldable pub recursive_get : Bool → Param → Tree → List Param → List Param
recursive_get objects p child got = get_children objects child (keep objects p got)

-- The loop of tr069_parameter_get_param over the next level.
unfoldable pub get_level : Bool → Tree → List Param → List Param
get_level objects nil got = got
get_level objects (node p child next) got = get_level objects next (keep objects p got)

-- A number kept as INT16_T.
abbrev pub int16 : ℕ → ℤ
int16 n = if ltb (n % 65536) 32768 then pos (n % 65536) else negsuc (65535 - n % 65536)

-- `return param_num`, with what stands in `param_set`.
abbrev pub counted : List Param → ℤ × List Param
counted got = (int16 (length got), got)

-- `&(param_handle->param_root)`
unfoldable pub root_of : Tree → Option (Param × Tree)
root_of nil = none
root_of (node p child next) = some (p, child)

-- The node at which an enumeration starts; an empty name is the root.
unfoldable pub source_of : Platform → Mgr → Bytes → Option (Param × Tree)
source_of P m [] = root_of m.root
source_of P m (c ∷ cs) = find_node P m (c ∷ cs)

-- tr069_parameter_get_param from the node that it starts at.
unfoldable pub get_from :
    Bytes → (next_level : ℕ) → (objects : Bool) → Option (Param × Tree) → ℤ × List Param
get_from name next_level objects none = (minus_one, [])
get_from name next_level objects (some (p, child)) =
    if (length name == 0) && (next_level == 1)
    then (pos 1, p ∷ [])
    else if next_level == 0
    then counted (recursive_get objects p child [])
    else counted (get_level objects child [])

-- tr069_parameter_get_param; `objects` is whether the flag is 1.
unfoldable pub get_param :
    Platform → Mgr → Bytes → (next_level : ℕ) → (objects : Bool) → ℤ × List Param
get_param P m name next_level objects = get_from name next_level objects (source_of P m name)
