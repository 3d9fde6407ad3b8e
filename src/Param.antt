-- ===== src/Param.antt =====
-- tr069_sample/libtr069/tr069/tr069_parameter.c and tr069_parameter.h: the tree of the parameters
-- and its id stack. A node stands in its tree with its first child and its next sibling; a pointer
-- to a node is the node's fields, which hold its id. The list of the first level starts with
-- `param_root`. Of `param_table` the model has what the code reads: which slots are not NULL.
-- malloc does not fail.
pub mod Prune
pub mod Alloc
pub mod Owners
pub mod Lifetime
pub mod Search
pub mod Places
pub mod Walk
pub mod Insert
pub mod Duplicate
pub mod Enumerate
pub mod Values
pub mod Setting
use tr.Base.{
  ℕ, zero, suc, ◌+◌, ◌-◌, ◌%◌, Bool, true, false, ◌&&◌, Option, none, some, List, [], ◌∷◌, ◌++◌,
  length, take, get_or, ltb, leb, ◌==◌, if◌then◌else◌, ℤ, pos, negsuc, minus_one,
}
use tr.Platform.{Platform, Bytes}
use tr.CStr.{strcmp_eq, memcmp_eq}

-- tr069_data_type; its header is the vendor's, and `other` stands for what the code does not name.
pub data DataType : Type 0 where
  object string int unsigned_int boolean date_time base64 other : DataType

abbrev pub is_object : DataType → Bool
is_object DataType.object = true
is_object _ = false

-- tr069_parameter without its pointers. `param_index` is `none` where the code does not set it.
pub record Param : Type 0 where
  pub param_id : ℕ
  pub write_flag : ℕ
  pub child_number : ℕ
  pub param_name : Bytes
  pub param_index : Option ℤ
  pub data_type : DataType
  pub notif_type : ℤ

-- `node p child next`; `nil` is NULL.
pub data Tree : Type 0 where
  nil : Tree
  node : Param → (child next : Tree) → Tree

-- The fields of tr069_parameter_mgr that allot ids. `idstack` has its top first.
pub record Ids : Type 0 where
  pub table : ℕ → Bool
  pub param_number : ℕ
  pub idstack : List ℕ

-- tr069_parameter_mgr
pub record Mgr : Type 0 where
  pub root : Tree
  pub ids : Ids

-- A pointer that a function returns; `fault` where it follows NULL, reads outside a string or uses
-- an id that it did not get.
pub data Pointer : Type 0 where
  fault null : Pointer
  to : Param → Pointer

abbrev pub idstack_size : ℕ
idstack_size = 16

-- tr069_parameter_idstack_push, with its return code; `id` is a UINT16_T.
unfoldable pub idstack_push : List ℕ → ℕ → ℤ × List ℕ
idstack_push ids id =
    if leb idstack_size (length ids) then (minus_one, ids) else (pos 0, (id % 65536) ∷ ids)

-- tr069_parameter_idstack_pop; `none` is its failure.
unfoldable pub idstack_pop : List ℕ → Option (ℕ × List ℕ)
idstack_pop [] = none
idstack_pop (id ∷ []) = some (id, (idstack_push [] (id + 1)).1)
idstack_pop (id ∷ id' ∷ ids) = some (id, id' ∷ ids)

abbrev pub update : (ℕ → Bool) → ℕ → Bool → ℕ → Bool
update f i b j = if i == j then b else f j

-- A new node's id, slot and count.
unfoldable pub allot : Ids → Option (ℕ × Ids)
allot s = elim (idstack_pop s.idstack) [
  | none ↦ none
  | some (id, stack) ↦ some (
    id,
    record {
      table = update s.table id true;
      param_number = (s.param_number + 1) % 65536;
      idstack = stack;
    },
  )
]

-- What an addition leaves, and the pointer that it returns.
pub record Added : Type 0 where
  pub tree : Tree
  pub ids : Ids
  pub result : Pointer

abbrev pub beside : Param → Tree → Added → Added
beside p child a = record a { tree = node p child a.tree }

abbrev pub below : Param → Tree → Added → Added
below p next a = record a { tree = node p a.tree next }

-- The node for the part of a name that ends with the dot at `i`.
abbrev pub middle : ℤ → Bytes → ℕ → ℕ → Param
middle off name i id = record {
  param_id = id;
  write_flag = 0;
  child_number = 0;
  param_name = take (i + 1) name;
  param_index = none;
  data_type = DataType.object;
  notif_type = off;
}

-- A new node at the end of a list of siblings, where there is an id for it.
abbrev pub placed : Ids → (ℕ → Ids → Added) → Option (ℕ × Ids) → Added
placed s put none = record { tree = nil; ids = s; result = Pointer.fault }
placed s put (some (id, s')) = put id s'

abbrev pub put_leaf : (ℕ → Param) → ℕ → Ids → Added
put_leaf leaf id s = record {
  tree = node (leaf id) nil nil;
  ids = s;
  result = Pointer.to (leaf id);
}

-- The walk to the end of a list of siblings, and the new parameter there.
unfoldable pub append_leaf : Bytes → (ℕ → Param) → Tree → Ids → Added
append_leaf name leaf nil s = placed s (put_leaf leaf) (allot s)
append_leaf name leaf (node p child next) s =
    if strcmp_eq name p.param_name
    then (record { tree = node p child next; ids = s; result = Pointer.null })
    else beside p child (append_leaf name leaf next s)

-- The loop over the name, which acts at its dots: `dots` are their places, from the one at which it
-- stands, and the tree is the list of siblings that it has reached.
unfoldable pub add_at : Platform → Bytes → (ℕ → Param) → (dots : List ℕ) → Tree → Ids → Added
add_at P name leaf [] t s =
    if leb P.max_param_num s.param_number
    then (record { tree = t; ids = s; result = Pointer.null })
    else append_leaf name leaf t s
add_at P name leaf (i ∷ dots) nil s =
    if leb P.max_param_num s.param_number
    then (record { tree = nil; ids = s; result = Pointer.null })
    else placed s
        (λ id s'. below (middle P.notification_off name i id) nil (add_at P name leaf dots nil s'))
        (allot s)
add_at P name leaf (i ∷ dots) (node p child next) s =
    let down = below p next (add_at P name leaf dots child s) in
    let on = beside p child (add_at P name leaf (i ∷ dots) next s) in
    if memcmp_eq p.param_name name i then down else on

-- `name_len`, a UINT16_T
abbrev pub name_len : Bytes → ℕ
name_len name = length name % 65536

-- The places of the dots, counted from `i`.
unfoldable pub dots_from : ℕ → Bytes → List ℕ
dots_from i [] = []
dots_from i (c ∷ cs) = let rest = dots_from (i + 1) cs in if c == b'.' then i ∷ rest else rest

abbrev pub dots_of : Bytes → List ℕ
dots_of name = dots_from 0 (take (name_len name) name)

-- The new node, once it has its id.
abbrev pub leaf_of : Bytes → ℤ → DataType → ℤ → ℕ → ℕ → Param
leaf_of name index type notif write id = record {
  param_id = id;
  write_flag = write;
  child_number = 0;
  param_name = take (name_len name) name;
  param_index = some index;
  data_type = type;
  notif_type = notif;
}

abbrev pub add_null : Mgr → Pointer → Added
add_null m r = record { tree = m.root; ids = m.ids; result = r }

-- `append_param` is still NULL where the name has no dot.
unfoldable pub add_dots : Platform → Bytes → (ℕ → Param) → List ℕ → Mgr → Added
add_dots P name leaf [] m =
    add_null m (if leb P.max_param_num m.ids.param_number then Pointer.null else Pointer.fault)
add_dots P name leaf (i ∷ dots) m = add_at P name leaf (i ∷ dots) m.root m.ids

-- The early returns of tr069_parameter_add_param. An empty name makes it read the byte before the
-- name, and then follow NULL.
unfoldable pub add_guard : Platform → Mgr → Bytes → DataType → Option Pointer
add_guard P m name type =
    if is_object type
    then some Pointer.null
    else if leb P.max_param_num m.ids.param_number
    then some Pointer.null
    else if ltb P.max_param_name_len (name_len name)
    then some Pointer.null
    else if name_len name == 0
    then some Pointer.fault
    else if get_or name (name_len name - 1) 0 == b'.'
    then some Pointer.null
    else none

-- tr069_parameter_add_param
unfoldable pub add_param : Platform → Mgr → Bytes → ℤ → DataType → ℤ → ℕ → Added
add_param P m name index type notif write = elim (add_guard P m name type) [
  | some r ↦ add_null m r
  | none ↦ add_dots P name (leaf_of name index type notif write) (dots_of name) m
]

-- The places at which the loop of a search acts: the dots, and the last byte of `n`.
unfoldable pub stops_from : ℕ → ℕ → Bytes → List ℕ
stops_from n i [] = []
stops_from n i (c ∷ cs) =
    let rest = stops_from n (i + 1) cs in
    if c == b'.' then i ∷ rest else if i + 1 == n then i ∷ rest else rest

abbrev pub stops_of : Bytes → List ℕ
stops_of name = stops_from (name_len name) 0 (take (name_len name) name)

-- The loop of tr069_parameter_find_node: the node that it finds, with the node's children.
unfoldable pub find_at : Bytes → ℕ → (stops : List ℕ) → Tree → Option (Param × Tree)
find_at name n [] t = none
find_at name n (i ∷ stops) nil = none
find_at name n (i ∷ stops) (node p child next) =
    let down = find_at name n stops child in
    let on = find_at name n (i ∷ stops) next in
    if memcmp_eq p.param_name name (i + 1)
    then (if (i + 1 == n) && (get_or p.param_name n 0 == 0) then some (p, child) else down)
    else on

-- tr069_parameter_find_node
unfoldable pub find_node : Platform → Mgr → Bytes → Option (Param × Tree)
find_node P m name =
    if ltb P.max_param_name_len (name_len name)
    then none
    else find_at name (name_len name) (stops_of name) m.root
