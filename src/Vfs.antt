-- ===== src/Vfs.antt =====
-- core/kernel/fs/vfs.c: the read-only file tree of the i386 kernel.
-- A `vfs_node_t*` into the constant tree is the node itself. `children` and `child_count` are one
-- list, in which `gap` is a null pointer. `vfs_root` and `vfs_info` are the record `Vfs`; a function
-- returns its status, its results and the new record. A result that C passes through a pointer is
-- `none` where nothing is stored; such pointers are taken not to be null.
pub mod Walk
pub mod Lookup
pub mod Files
pub mod Reading
mod Tests
use liam_os.Base.{
  Bool, List, Option, Status, [], drop, false, if◌then◌else◌, inc32, invalid_argument,
  invalid_state, length, none, not, not_found, not_initialized, ok, set, some, suc, true, u32_mod,
  unknown, zero, ℕ, ◌%◌, ◌&&◌, ◌+◌, ◌==◌, ◌||◌, ◌∷◌,
}
use liam_os.Str.{first, rest, string_copy, string_length}

-- `vfs_node_type_t`
pub data NodeType : Type 0 where
  directory file device : NodeType

-- The fields of `vfs_node_t` but `parent`, which this file never reads, and the children.
pub record NodeInfo : Type 0 where
  pub name : Option (List ℕ)
  pub path : List ℕ
  pub type : NodeType
  pub contents : Option (List ℕ)
  pub size : ℕ
  pub mode : ℕ
  pub flags : ℕ

mutual
  pub data Node : Type 0 where
    node : NodeInfo → Nodes → Node

  pub data Nodes : Type 0 where
    nil : Nodes
    child : Node → Nodes → Nodes
    gap : Nodes → Nodes

abbrev pub info : Node → NodeInfo
info (node i cs) = i

abbrev pub children : Node → Nodes
children (node i cs) = cs

abbrev pub child_count : Nodes → ℕ
child_count nil = 0
child_count (child c cs) = suc (child_count cs)
child_count (gap cs) = suc (child_count cs)

pub record Vfs : Type 0 where
  pub root : Option Node
  pub initialized : Bool
  pub mounted_nodes : ℕ
  pub lookup_attempts : ℕ
  pub lookup_failures : ℕ
  pub read_attempts : ℕ
  pub read_failures : ℕ
  pub last_status : Status
  pub last_path : List ℕ

-- VFS_PATH_MAX, VFS_READ_CHUNK_MAX
abbrev pub path_max : ℕ
path_max = 128

abbrev pub read_chunk_max : ℕ
read_chunk_max = 512

abbrev pub set_last_status : Vfs → Status → Vfs
set_last_status v s = record v { last_status = s }

-- `vfs_initialize`
unfoldable pub initialize : Vfs → Vfs
initialize v = record {
  root = none;
  initialized = true;
  mounted_nodes = 0;
  lookup_attempts = 0;
  lookup_failures = 0;
  read_attempts = 0;
  read_failures = 0;
  last_status = ok;
  last_path = set v.last_path 0 0;
}

-- `vfs_count_nodes_recursive`, and its loop over the children; a null child counts nothing.
unfoldable mutual
  pub count_nodes_recursive : Node → ℕ
  count_nodes_recursive (node i cs) = (1 + count_children cs) % u32_mod

  pub count_children : Nodes → ℕ
  count_children nil = 0
  count_children (child c cs) = count_nodes_recursive c + count_children cs
  count_children (gap cs) = count_children cs

abbrev pub is_directory : NodeType → Bool
is_directory directory = true
is_directory _ = false

abbrev pub is_file : NodeType → Bool
is_file file = true
is_file _ = false

-- `vfs_mount_static_tree`
unfoldable pub mount_static_tree : Vfs → Option Node → Status × Vfs
mount_static_tree v none =
    if not v.initialized
    then (not_initialized, v)
    else (invalid_argument, set_last_status v invalid_argument)
mount_static_tree v (some r) =
    if not v.initialized
    then (not_initialized, v)
    else if not (is_directory (info r).type)
    then (invalid_argument, set_last_status v invalid_argument)
    else (ok, record v { root = some r; mounted_nodes = count_nodes_recursive r; last_status = ok })

-- The loop over `j` in `vfs_find_child`: the first `n` bytes agree.
unfoldable pub same_bytes : ℕ → List ℕ → List ℕ → Bool
same_bytes zero a b = true
same_bytes (suc n) a b = if first a == first b then same_bytes n (rest a) (rest b) else false

-- Whether a child is the one that is looked for.
unfoldable pub is_named : Option (List ℕ) → List ℕ → ℕ → Bool
unfolding same_bytes
is_named none name name_length = false
is_named (some n) name name_length =
    if string_length n == name_length then same_bytes name_length n name else false

-- The loop of `vfs_find_child`
unfoldable pub find_in : Nodes → List ℕ → ℕ → Option Node
unfolding is_named
find_in nil name name_length = none
find_in (gap cs) name name_length = find_in cs name name_length
find_in (child c cs) name name_length =
    let later = find_in cs name name_length in
    if is_named (info c).name name name_length then some c else later

-- What a search of the tree ends with.
pub data Found : Type 0 where
  found : Node → Found
  failed : Status → Found

abbrev pub or_not_found : Option Node → Found
or_not_found none = failed not_found
or_not_found (some n) = found n

-- `vfs_find_child`
unfoldable pub find_child : Node → List ℕ → ℕ → Found
unfolding find_in
find_child (node i cs) name name_length =
    if is_directory i.type then or_not_found (find_in cs name name_length) else failed invalid_state

-- `while (path[index] == '/') index++`
unfoldable pub skip_slashes : List ℕ → List ℕ
skip_slashes [] = []
skip_slashes (c ∷ s) = if c == b'/' then skip_slashes s else c ∷ s

-- `while (path[index] != '\0' && path[index] != '/') index++`: how far it goes.
unfoldable pub segment_length : List ℕ → ℕ
segment_length [] = 0
segment_length (c ∷ s) = if (c == 0) || (c == b'/') then 0 else suc (segment_length s)

-- The test of the status of a search: an error ends the walk.
abbrev pub on_found : Found → (Node → Option Found) → Option Found
on_found (failed s) go_on = some (failed s)
on_found (found n) go_on = go_on n

-- The loop of `vfs_lookup`, on fuel, over the path from `index` on. `none`: the fuel ran out.
unfoldable pub walk : ℕ → Node → List ℕ → Option Found
unfolding skip_slashes segment_length
walk zero current path = none
walk (suc fuel) current path =
    let segment = skip_slashes path in
    let step =
      on_found (find_child current segment (segment_length segment))
        (λ next. walk fuel next (drop (segment_length segment) segment)) in
    if first path == 0
    then some (found current)
    else if first segment == 0
    then some (found current)
    else step

-- `vfs_path_is_root`
abbrev pub path_is_root : List ℕ → Bool
path_is_root path = (first path == b'/') && (first (rest path) == 0)

-- The end of `vfs_lookup` on what the walk found.
abbrev pub finish : Vfs → Option Found → Status × Option Node × Vfs
finish v none = (unknown, none, v)
finish v (some (failed s)) =
    (s, none, record v { lookup_failures = inc32 v.lookup_failures; last_status = s })
finish v (some (found n)) = (ok, some n, set_last_status v ok)

abbrev count_failure : Vfs → Status → Status × Option Node × Vfs
count_failure v s = finish v (some (failed s))

-- `vfs_lookup` from the test of `vfs_root` on. The walk's fuel is the path's length and one more.
unfoldable pub lookup_from : Vfs → Option Node → List ℕ → Status × Option Node × Vfs
lookup_from v none path = count_failure v not_initialized
lookup_from v (some r) path =
    if not (first path == b'/')
    then count_failure v invalid_argument
    else if path_is_root path
    then (ok, some r, set_last_status v ok)
    else finish v (walk (suc (length path)) r (rest path))

-- `vfs_lookup`
unfoldable pub lookup : Vfs → Option (List ℕ) → Status × Option Node × Vfs
unfolding lookup_from
lookup v none =
    if not v.initialized
    then (not_initialized, none, v)
    else (invalid_argument, none, set_last_status v invalid_argument)
lookup v (some path) =
    if not v.initialized
    then (not_initialized, none, v)
    else lookup_from
        (record v {
          lookup_attempts = inc32 v.lookup_attempts;
          last_path = string_copy v.last_path path path_max;
        })
        v.root path
