-- ===== src/Vfs/Files.antt =====
-- The operations of core/kernel/fs/vfs.c on what a lookup found: read, stat and list.
use liam_os.Base.{
  List, Option, Status, [], drop, if◌then◌else◌, inc32, invalid_argument, invalid_state, leb,
  length, ltb, none, not, not_initialized, ok, some, suc, zero, ℕ, ◌-◌, ◌==◌, ◌||◌, ◌∷◌,
}
use liam_os.Str.{first, rest}
use liam_os.Vfs.{
  Node, NodeInfo, NodeType, Nodes, Vfs, child_count, children, info, is_directory, is_file, lookup,
  read_chunk_max, set_last_status,
}

-- The failures of the read operations: counted, and noted as the last status.
abbrev pub fail_read : Vfs → Status → Vfs
fail_read v s = record v { read_failures = inc32 v.read_failures; last_status = s }

-- `vfs_read_file`, after its lookup.
unfoldable pub read_found : Status × Option Node × Vfs → Status × Option (Option (List ℕ) × ℕ) × Vfs
read_found (s, none, v) = (s, none, fail_read v s)
read_found (s, some n, v) =
    if is_file (info n).type
    then (ok, some ((info n).contents, (info n).size), set_last_status v ok)
    else (invalid_state, none, fail_read v invalid_state)

-- `vfs_read_file`: the contents and the size of the file.
unfoldable pub read_file : Vfs → Option (List ℕ) → Status × Option (Option (List ℕ) × ℕ) × Vfs
unfolding read_found
read_file v none = (invalid_argument, none, set_last_status v invalid_argument)
read_file v (some path) =
    read_found (lookup (record v { read_attempts = inc32 v.read_attempts }) (some path))

-- `buffer[i] = node->data[offset + i]` for `n` bytes, from the data at `offset` on.
unfoldable pub copy_bytes : ℕ → List ℕ → List ℕ → List ℕ
copy_bytes zero bytes buffer = buffer
copy_bytes (suc n) bytes [] = []
copy_bytes (suc n) bytes (b ∷ buffer) = first bytes ∷ copy_bytes n (rest bytes) buffer

-- `bytes_to_read`: the length that was asked for, cut to what is available and to the chunk size.
unfoldable pub bytes_to_read : ℕ → ℕ → ℕ
bytes_to_read length available =
    let capped = if ltb available length then available else length in
    if ltb read_chunk_max capped then read_chunk_max else capped

-- The end of `vfs_read_node`: how many bytes were read, and the buffer.
unfoldable pub read_contents : NodeInfo → ℕ → List ℕ → ℕ → ℕ × List ℕ
unfolding bytes_to_read copy_bytes
read_contents i offset buffer length = elim i.contents [
  | none ↦ (0, buffer)
  | some bytes ↦ if leb i.size offset || (length == 0) then (0, buffer) else (
    bytes_to_read length (i.size - offset),
    copy_bytes (bytes_to_read length (i.size - offset)) (drop offset bytes) buffer,
  )
]

-- `vfs_read_node` for a node and a buffer that are not null.
unfoldable pub read_present : Vfs → NodeInfo → ℕ → List ℕ → ℕ → Status × (ℕ × List ℕ) × Vfs
unfolding read_contents
read_present v i offset buffer length =
    if is_file i.type
    then (ok, read_contents i offset buffer length, set_last_status v ok)
    else (invalid_state, (0, buffer), fail_read v invalid_state)

-- `vfs_read_node`
unfoldable pub read_node : Vfs → Option Node → ℕ → Option (List ℕ) → ℕ → Status × (ℕ × List ℕ) × Vfs
unfolding read_present
read_node v n offset none length =
    if not v.initialized then (not_initialized, (0, []), fail_read v not_initialized) else (
      invalid_argument,
      (0, []),
      fail_read (record v { read_attempts = inc32 v.read_attempts }) invalid_argument,
    )
read_node v none offset (some buffer) length =
    if not v.initialized then (not_initialized, (0, buffer), fail_read v not_initialized) else (
      invalid_argument,
      (0, buffer),
      fail_read (record v { read_attempts = inc32 v.read_attempts }) invalid_argument,
    )
read_node v (some n) offset (some buffer) length =
    if not v.initialized
    then (not_initialized, (0, buffer), fail_read v not_initialized)
    else read_present (record v { read_attempts = inc32 v.read_attempts }) (info n) offset buffer
        length

-- `vfs_stat_t`
pub record Stat : Type 0 where
  pub type : NodeType
  pub size : ℕ
  pub mode : ℕ
  pub flags : ℕ
  pub child_count : ℕ

-- `vfs_stat_node`
unfoldable pub stat_node : Vfs → Option Node → Status × Option Stat × Vfs
stat_node v none = (invalid_argument, none, set_last_status v invalid_argument)
stat_node v (some n) = (
  ok,
  some (record {
    type = (info n).type;
    size = (info n).size;
    mode = (info n).mode;
    flags = (info n).flags;
    child_count = child_count (children n);
  }),
  set_last_status v ok,
)

abbrev stat_found : Status × Option Node × Vfs → Status × Option Stat × Vfs
stat_found (s, none, v) = (s, none, v)
stat_found (s, some n, v) = stat_node v (some n)

-- `vfs_stat_path`
unfoldable pub stat_path : Vfs → Option (List ℕ) → Status × Option Stat × Vfs
unfolding stat_node
stat_path v path = stat_found (lookup v path)

abbrev list_found : Status × Option Node × Vfs → Status × Option Nodes × Vfs
list_found (s, none, v) = (s, none, v)
list_found (s, some n, v) =
    if is_directory (info n).type
    then (ok, some (children n), set_last_status v ok)
    else (invalid_state, none, set_last_status v invalid_state)

-- `vfs_list_directory`: the children, with their count.
unfoldable pub list_directory : Vfs → Option (List ℕ) → Status × Option Nodes × Vfs
list_directory v none = (invalid_argument, none, set_last_status v invalid_argument)
list_directory v (some path) = list_found (lookup v (some path))
