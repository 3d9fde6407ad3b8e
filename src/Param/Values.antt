-- ===== src/Param/Values.antt =====
-- tr069_parameter.c: a parameter's value and attribute, by the exact name; is_int and
-- tr069_set_parameter_attribute of tr069_interface.c; tr069_unformat_time of tr069_timer.c.
use tr.Base.{
  ℕ, ◌+◌, ◌-◌, Bool, true, false, ◌&&◌, ◌||◌, not, Option, none, some, List, [], ◌∷◌, length, take,
  drop, get_or, set, replicate, ltb, leb, ◌==◌, if◌then◌else◌, ℤ, pos, negsuc, minus_one, is_num,
}
use tr.Platform.{Platform, Bytes}
use tr.CStr.{memcmp_eq}
use tr.Interface.{Indexes, Host, Store, set_config, get_config, true_text, false_text}
use tr.Param.{Param, Tree, nil, node, Mgr, DataType, name_len, stops_of}

-- Functions of libc on texts and times.
pub record Libc : Type 0 where
  -- how many bytes `sscanf(s, "%d %n")` takes, where it converts a number
  pub scan_int : Bytes → Option ℕ
  -- mktime of a broken-down time with this year, month, day, hour, minute and second
  pub mktime : (year month day hour minute second : ℤ) → ℤ

-- Where the walk over an exact name ends: at a node, at a level without a match, or past the name.
pub data Located : Type 0 where
  at : Param → Located
  absent past : Located

-- The loop of tr069_parameter_set_value and tr069_parameter_set_attribute.
unfoldable pub locate : Bytes → (stops : List ℕ) → Tree → Located
locate name [] t = past
locate name (i ∷ stops) nil = absent
locate name (i ∷ stops) (node p child next) =
    let down = locate name stops child in
    let on = locate name (i ∷ stops) next in
    if (length p.param_name == i + 1) && memcmp_eq p.param_name name (i + 1)
    then (if get_or name i 0 == b'.' then down else at p)
    else on

-- The tests before the loop; an empty name reads the byte before it, for which `none` stands.
unfoldable pub names_value : Platform → Bytes → Bytes → Option ℤ
names_value P name value =
    if ltb P.max_param_name_len (name_len name)
    then some minus_one
    else if ltb P.max_param_value_len (name_len value)
    then some (negsuc 1)
    else if name_len name == 0
    then none
    else if get_or name (name_len name - 1) 0 == b'.'
    then some minus_one
    else some (pos 0)

abbrev lower : ℕ → ℕ
lower c = if leb b'A' c && leb c b'Z' then c + 32 else c

-- `strncasecmp(a, b, sizeof(b)) == 0`
unfoldable pub strcasecmp_eq : Bytes → Bytes → Bool
strcasecmp_eq [] [] = true
strcasecmp_eq [] (y ∷ ys) = false
strcasecmp_eq (x ∷ xs) [] = false
strcasecmp_eq (x ∷ xs) (y ∷ ys) =
    let rest = strcasecmp_eq xs ys in if lower x == lower y then rest else false

unfoldable pub is_int : Libc → Bytes → Bool
is_int C s = elim (C.scan_int s) [ none ↦ false | some n ↦ get_or s n 0 == 0 ]

-- The number at a place of a text.
abbrev number_at : Platform → ℕ → ℕ → Bytes → ℤ
number_at P from size text = P.atoi (take size (drop from text))

unfoldable pub unformat_time : Platform → Libc → Bytes → ℤ
unformat_time P C text =
    if ltb (length text) 19
    then minus_one
    else C.mktime (number_at P 0 4 text) (number_at P 5 2 text) (number_at P 8 2 text)
        (number_at P 11 2 text) (number_at P 14 2 text) (number_at P 17 2 text)

abbrev is_minus_one : ℤ → Bool
is_minus_one (pos n) = false
is_minus_one (negsuc n) = n == 0

abbrev is_negative : ℤ → Bool
is_negative (pos n) = false
is_negative (negsuc n) = true

-- The check of a value against the type: the error code, or 0.
unfoldable pub check_value : Platform → Libc → DataType → Bytes → ℤ
check_value P C DataType.boolean value =
    if strcasecmp_eq value true_text || strcasecmp_eq value false_text then pos 0 else negsuc 3
check_value P C DataType.unsigned_int value =
    if not (is_int C value)
    then negsuc 3
    else if is_negative (P.atoi value)
    then negsuc 1
    else pos 0
check_value P C DataType.int value = if not (is_int C value) then negsuc 3 else pos 0
check_value P C DataType.date_time value =
    if is_minus_one (unformat_time P C value) then negsuc 3 else pos 0
check_value P C _ value = pos 0

-- `0 == write_flag && (0 == force_flag || 2 == force_flag)`
abbrev pub is_refused : Param → ℕ → Bool
is_refused p force_flag = (p.write_flag == 0) && ((force_flag == 0) || (force_flag == 2))

-- The node of the walk, with its new notification.
unfoldable pub notify_at : Bytes → (stops : List ℕ) → ℤ → Tree → Tree
notify_at name [] v t = t
notify_at name (i ∷ stops) v nil = nil
notify_at name (i ∷ stops) v (node p child next) =
    let down = notify_at name stops v child in
    let on = notify_at name (i ∷ stops) v next in
    if (length p.param_name == i + 1) && memcmp_eq p.param_name name (i + 1)
    then (if get_or name i 0 == b'.'
        then node p down next
        else node (record p { notif_type = v }) child next)
    else node p child on

-- `*param_value` is '0', '1' or '2'.
abbrev pub is_level : Bytes → Bool
is_level value =
    (get_or value 0 0 == b'0') || (get_or value 0 0 == b'1') || (get_or value 0 0 == b'2')

module _ (P : Platform) (C : Libc) (N : Indexes) (H : Host) where
  -- tr069_set_config at the node's index; `none` where the index is none of the table.
  unfoldable pub set_node : Param → Bytes → Store H → Option (ℤ × Store H)
  set_node p value s = elim p.param_index [
    | none ↦ none
    | some (negsuc i) ↦ none
    | some (pos i) ↦
        let (ret, s') = set_config P N H s i value in
        some (if is_num ret 0 then pos 0 else negsuc 4, s')
  ]

  -- tr069_parameter_set_value, once the walk has ended.
  unfoldable pub set_located : Located → Bytes → ℕ → Store H → Option (ℤ × Store H)
  set_located absent value force_flag s = some (minus_one, s)
  set_located past value force_flag s = some (negsuc 4, s)
  set_located (at p) value force_flag s =
      if is_refused p force_flag
      then some (negsuc 2, s)
      else if not (is_num (check_value P C p.data_type value) 0)
      then some (check_value P C p.data_type value, s)
      else if force_flag == 2
      then some (pos 0, s)
      else set_node p value s

  -- tr069_parameter_set_value after its first tests.
  unfoldable pub set_named : Option ℤ → Located → Bytes → ℕ → Store H → Option (ℤ × Store H)
  set_named none l value force_flag s = none
  set_named (some (negsuc e)) l value force_flag s = some (negsuc e, s)
  set_named (some (pos e)) l value force_flag s = set_located l value force_flag s

  -- tr069_parameter_set_value; `none` where it reads outside its arguments or the tables.
  unfoldable pub set_value : Mgr → Bytes → Bytes → ℕ → Store H → Option (ℤ × Store H)
  set_value m name value force_flag s =
      set_named (names_value P name value) (locate name (stops_of name) m.root) value force_flag s

  -- tr069_parameter_get_value of a node, into a buffer of `size` bytes that holds a text.
  unfoldable pub get_value : Param → Bytes → ℕ → Store H → Option (ℤ × Bytes)
  get_value p old size s = elim p.param_index [
    | none ↦ none
    | some (negsuc i) ↦ none
    | some (pos i) ↦
        let (ret, text) = get_config P N H s i old size in
        some (if is_num ret 0 then pos 0 else minus_one, text)
  ]

  -- What tr069_set_parameter_attribute hands to n_cfg_set_parameter_attribute, of `cfg_num` entries;
  -- the entries of the index map are below that.
  unfoldable pub attribute_cmds : ℕ → ℕ → Bytes → Bytes
  attribute_cmds cfg_num index value =
      set (replicate cfg_num b'2') (N.index_map index)
        (if get_or value 0 0 == b'2' then b'1' else get_or value 0 0)

  -- The entry of the commands, where `mode_flag` asks for them.
  abbrev pub cmds_of : ℕ → ℕ → Param → Bytes → Option (Option Bytes)
  cmds_of cfg_num mode_flag p value =
      if mode_flag == 1
      then elim p.param_index [
        | none ↦ none
        | some (negsuc i) ↦ none
        | some (pos i) ↦ some (some (attribute_cmds cfg_num i value))
      ]
      else some none

  -- tr069_parameter_set_attribute: the return code, the tree, and the commands for the configuration
  -- where it hands on any.
  unfoldable pub set_attribute :
      ℕ → Mgr → Bytes → Bytes → (force_flag mode_flag : ℕ) → Option (ℤ × Tree × Option Bytes)
  set_attribute cfg_num m name value force_flag mode_flag = elim (names_value P name value) [
    | none ↦ none
    | some (negsuc e) ↦ some (negsuc e, m.root, none)
    | some (pos e) ↦ elim (locate name (stops_of name) m.root) [
      | absent ↦ some (minus_one, m.root, none)
      | past ↦ some (negsuc 4, m.root, none)
      | at p ↦
          if is_refused p force_flag
          then some (negsuc 2, m.root, none)
          else if not (is_level value)
          then some (negsuc 1, m.root, none)
          else if force_flag == 2
          then some (pos 0, m.root, none)
          else elim (cmds_of cfg_num mode_flag p value) [
            | none ↦ none
            | some cmds ↦ some (pos 0, notify_at name (stops_of name) (P.atoi value) m.root, cmds)
          ]
    ]
  ]

-- tr069_parameter_get_attribute
abbrev pub get_attribute : Param → ℤ
get_attribute p = p.notif_type
