-- ===== src/Elf.antt =====
-- core/kernel/loader/elf32.c: the checks on an executable before its segment is loaded.
-- A file is its node: `node->data` is the list of its bytes. A structure that the code lays over the
-- bytes is read from them, in little-endian order. `ring3_load_user_image` is a parameter.
pub mod Load
pub mod Selection
pub mod Safety
mod Tests
use liam_os.Base.{
  Bool, List, Option, Status, [], add32, false, get_or, if◌then◌else◌, inc32, invalid_argument,
  invalid_state, is_success, leb, ltb, none, not, ok, set, some, suc, take, true, u32_mod,
  unsupported, zero, ℕ, ◌%◌, ◌&&◌, ◌*◌, ◌+◌, ◌-◌, ◌==◌, ◌^◌, ◌||◌,
}
use liam_os.Str.{string_copy}
use liam_os.Vfs.{NodeInfo, is_file}

abbrev pub byte_at : List ℕ → ℕ → ℕ
byte_at bytes i = get_or bytes i 0

abbrev pub half_at : List ℕ → ℕ → ℕ
half_at bytes i = byte_at bytes i + 256 * byte_at bytes (i + 1)

abbrev pub word_at : List ℕ → ℕ → ℕ
word_at bytes i = half_at bytes i + 2 ^ 16 * half_at bytes (i + 2)

-- `elf32_header_t`, the fields that are read, and its size.
pub record Header : Type 0 where
  pub ident : List ℕ
  pub type : ℕ
  pub machine : ℕ
  pub version : ℕ
  pub entry : ℕ
  pub program_header_offset : ℕ
  pub header_size : ℕ
  pub program_header_entry_size : ℕ
  pub program_header_count : ℕ

abbrev pub header_bytes : ℕ
header_bytes = 52

unfoldable pub header_of : List ℕ → Header
header_of bytes = record {
  ident = take 16 bytes;
  type = half_at bytes 16;
  machine = half_at bytes 18;
  version = word_at bytes 20;
  entry = word_at bytes 24;
  program_header_offset = word_at bytes 28;
  header_size = half_at bytes 40;
  program_header_entry_size = half_at bytes 42;
  program_header_count = half_at bytes 44;
}

-- `elf32_program_header_t`, the fields that are read, and its size.
pub record ProgramHeader : Type 0 where
  pub type : ℕ
  pub offset : ℕ
  pub virtual_address : ℕ
  pub file_size : ℕ
  pub memory_size : ℕ

abbrev pub program_header_bytes : ℕ
program_header_bytes = 32

unfoldable pub program_header_at : List ℕ → ℕ → ProgramHeader
program_header_at bytes at = record {
  type = word_at bytes at;
  offset = word_at bytes (at + 4);
  virtual_address = word_at bytes (at + 8);
  file_size = word_at bytes (at + 16);
  memory_size = word_at bytes (at + 20);
}

-- `elf32_loader_info_t`
pub record ElfInfo : Type 0 where
  pub initialized : Bool
  pub validation_attempts : ℕ
  pub successful_validations : ℕ
  pub failed_validations : ℕ
  pub load_attempts : ℕ
  pub successful_loads : ℕ
  pub failed_loads : ℕ
  pub last_entry : ℕ
  pub last_program_header_count : ℕ
  pub last_file_size : ℕ
  pub last_load_segment_offset : ℕ
  pub last_load_segment_vaddr : ℕ
  pub last_load_segment_file_size : ℕ
  pub last_load_segment_memory_size : ℕ
  pub last_status : Status
  pub last_path : List ℕ

-- `elf32_initialize`
unfoldable pub initialize : ElfInfo → ElfInfo
initialize n = record {
  initialized = true;
  validation_attempts = 0;
  successful_validations = 0;
  failed_validations = 0;
  load_attempts = 0;
  successful_loads = 0;
  failed_loads = 0;
  last_entry = 0;
  last_program_header_count = 0;
  last_file_size = 0;
  last_load_segment_offset = 0;
  last_load_segment_vaddr = 0;
  last_load_segment_file_size = 0;
  last_load_segment_memory_size = 0;
  last_status = ok;
  last_path = set n.last_path 0 0;
}

-- The first four tests on the bytes: the magic number.
abbrev pub has_magic : Header → Bool
has_magic h =
    (byte_at h.ident 0 == 0x7F)
    && ((byte_at h.ident 1 == b'E') && ((byte_at h.ident 2 == b'L') && (byte_at h.ident 3 == b'F')))

-- The tests for this machine.
abbrev pub is_supported : Header → Bool
is_supported h =
    (byte_at h.ident 4 == 1)
    && ((byte_at h.ident 5 == 1)
        && ((byte_at h.ident 6 == 1) && ((h.type == 2) && ((h.machine == 3) && (h.version == 1)))))

-- The tests on the table of program headers: it lies in the file.
unfoldable pub has_table : Header → ℕ → Bool
has_table h size =
    if ltb 0 h.program_header_count
    then (h.program_header_entry_size == program_header_bytes)
      && (ltb h.program_header_offset size
          && leb (h.program_header_count * h.program_header_entry_size % u32_mod)
              (size - h.program_header_offset))
    else true

-- The tests of `elf32_validate_from_node` on the file's bytes, for a file of `size` bytes.
unfoldable pub check_header : Header → ℕ → Status
check_header h size =
    if not (has_magic h)
    then invalid_state
    else if not (is_supported h)
    then unsupported
    else if not (h.header_size == header_bytes)
    then invalid_state
    else if not (has_table h size)
    then invalid_state
    else ok

-- The bytes of a node's data, and whether it is not null.
abbrev pub file_bytes : NodeInfo → List ℕ
file_bytes i = elim i.contents [ none ↦ [] | some bytes ↦ bytes ]

abbrev pub has_data : NodeInfo → Bool
has_data i = elim i.contents [ none ↦ false | some bytes ↦ true ]

-- The status of `elf32_validate_from_node` on a node: its tests on the node, then those on the bytes.
unfoldable pub check_file : NodeInfo → Status
unfolding check_header header_of
check_file i =
    if not (is_file i.type)
    then invalid_argument
    else if not (has_data i) || ltb i.size header_bytes
    then invalid_state
    else check_header (header_of (file_bytes i)) i.size

abbrev pub noted_result : ElfInfo → NodeInfo → Status → ElfInfo
noted_result n i s =
    if is_success s
    then record n {
      successful_validations = inc32 n.successful_validations;
      last_entry = (header_of (file_bytes i)).entry;
      last_program_header_count = (header_of (file_bytes i)).program_header_count;
      last_status = ok;
    }
    else record n { failed_validations = inc32 n.failed_validations; last_status = s }

-- `elf32_validate_from_node`: its status and the new counters; a null node is `none`.
unfoldable pub validate_from_node : ElfInfo → Option NodeInfo → Status × ElfInfo
unfolding check_file
validate_from_node n none = (invalid_argument, n)
validate_from_node n (some i) = (
  check_file i,
  noted_result
      (record n {
        validation_attempts = inc32 n.validation_attempts;
        last_file_size = i.size;
        last_entry = 0;
        last_program_header_count = 0;
        last_path = string_copy n.last_path i.path 128;
      })
      i (check_file i),
)

-- What the loop over the program headers finds.
pub data Selected : Type 0 where
  nothing : Selected
  several : Selected
  segment : ProgramHeader → Selected

-- What a later header makes of what was selected before.
abbrev pub select : Selected → ProgramHeader → Selected
select several p = several
select nothing p = if p.type == 1 then segment p else nothing
select (segment q) p = if p.type == 1 then several else segment q

-- The loop over the program headers, from the one at `at` on, with `n` left.
unfoldable pub select_segment : ℕ → List ℕ → ℕ → ℕ → Selected → Selected
unfolding program_header_at
select_segment zero bytes at entry_size s = s
select_segment (suc n) bytes at entry_size s =
    select_segment n bytes (at + entry_size) entry_size (select s (program_header_at bytes at))

-- The tests on the segment: the status of `elf32_load_from_node` up to `ring3_load_user_image`.
unfoldable pub check_segment : Header → ProgramHeader → ℕ → Status
check_segment h p size =
    if not (p.virtual_address == 0x10000000)
    then unsupported
    else if ltb h.entry p.virtual_address
    then invalid_state
    else if leb (add32 p.virtual_address p.memory_size) h.entry
    then invalid_state
    else if p.file_size == 0
    then invalid_state
    else if ltb p.memory_size p.file_size
    then invalid_state
    else if ltb 4096 p.memory_size
    then unsupported
    else if leb size p.offset
    then invalid_state
    else if ltb (size - p.offset) p.file_size
    then invalid_state
    else ok
