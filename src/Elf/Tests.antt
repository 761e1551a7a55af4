-- ===== src/Elf/Tests.antt =====
-- A small executable, and what elf32.c makes of it.
use liam_os.Base.{
  Bool, List, Status, [], arith, if◌then◌else◌, ltb, ok, refl, some, suc, true, unsupported, zero,
  ℕ, ◌&&◌, ◌<◌, ◌∷◌, ◌≡◌,
}
use liam_os.Vfs.{NodeInfo, file}
use liam_os.Elf.{
  ElfInfo, byte_at, check_segment, has_table, header_of, select_segment, validate_from_node,
}
use liam_os.Elf.Load.{basename, basename_from, load_from_node}
use liam_os.Elf.Safety.{Accepted, HoldsBytes, load_from_node-Accepted}

-- One loadable segment of one byte, at offset 84.
abbrev tiny : List ℕ
tiny =
    127 ∷ 69 ∷ 76 ∷ 70 ∷ 1 ∷ 1 ∷ 1 ∷ 0 ∷ 0 ∷ 0 ∷ 0 ∷ 0 ∷ 0 ∷ 0 ∷ 0 ∷ 0 ∷ 2 ∷ 0 ∷ 3 ∷ 0 ∷ 1 ∷ 0 ∷ 0
    ∷ 0 ∷ 0 ∷ 0 ∷ 0 ∷ 16 ∷ 52 ∷ 0 ∷ 0 ∷ 0 ∷ 0 ∷ 0 ∷ 0 ∷ 0 ∷ 0 ∷ 0 ∷ 0 ∷ 0 ∷ 52 ∷ 0 ∷ 32 ∷ 0 ∷ 1 ∷ 0
    ∷ 0 ∷ 0 ∷ 0 ∷ 0 ∷ 0 ∷ 0 ∷ 1 ∷ 0 ∷ 0 ∷ 0 ∷ 84 ∷ 0 ∷ 0 ∷ 0 ∷ 0 ∷ 0 ∷ 0 ∷ 16 ∷ 0 ∷ 0 ∷ 0 ∷ 0 ∷ 1
    ∷ 0 ∷ 0 ∷ 0 ∷ 8 ∷ 0 ∷ 0 ∷ 0 ∷ 5 ∷ 0 ∷ 0 ∷ 0 ∷ 0 ∷ 16 ∷ 0 ∷ 0 ∷ 195 ∷ []

abbrev tiny_file : NodeInfo
tiny_file = record {
  name = some (b't' ∷ []);
  path = b'/' ∷ b't' ∷ [];
  type = file;
  contents = some tiny;
  size = 85;
  mode = 0;
  flags = 0;
}

abbrev cold : ElfInfo
cold = record {
  initialized = true;
  validation_attempts = 0;
  successful_validations = 0;
  failed_validations = 0;
  load_attempts = 0;
  successful_loads = 0;
  failed_loads = 0;
  last_entry = 0;
  last_program_header_count = 0;
  last_file_size = 0;
  last_load_segment_offset = 0;
  last_load_segment_vaddr = 0;
  last_load_segment_file_size = 0;
  last_load_segment_memory_size = 0;
  last_status = ok;
  last_path = [];
}

-- It takes what fits a page.
abbrev fits_page : List ℕ → ℕ → Status × ℕ
fits_page bytes size = (if ltb 4096 size then unsupported else ok, 0x10002000)

accepts : (load_from_node fits_page cold (some tiny_file)).0 ≡ ok
unfolding load_from_node validate_from_node select_segment check_segment has_table
accepts = refl

named : basename (b'/' ∷ b'b' ∷ b'/' ∷ b't' ∷ []) ≡ b't' ∷ []
unfolding basename_from
named = refl

all_bytes : List ℕ → Bool
all_bytes [] = true
all_bytes (c ∷ s) = ltb c 256 && all_bytes s

byte_at-lt : (s : List ℕ) (k : ℕ) → all_bytes s ≡ true → byte_at s k < 256
unfolding all_bytes
byte_at-lt [] k h = omega arith
byte_at-lt (c ∷ s) zero h = ground (arith, h)
byte_at-lt (c ∷ s) (suc k) h = byte_at-lt s k (ground (arith, h))

tiny-HoldsBytes : HoldsBytes tiny_file
unfolding all_bytes
tiny-HoldsBytes k = byte_at-lt tiny k refl

load_from_node-Accepted_example :
    Accepted fits_page tiny_file (header_of tiny) (load_from_node fits_page cold (some tiny_file))
load_from_node-Accepted_example =
    load_from_node-Accepted fits_page cold tiny_file tiny-HoldsBytes accepts
