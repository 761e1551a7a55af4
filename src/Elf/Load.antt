-- ===== src/Elf/Load.antt =====
-- core/kernel/loader/elf32.c: `elf32_load_from_node`.
use liam_os.Base.{
  List, Option, Status, [], drop, if◌then◌else◌, inc32, invalid_argument, invalid_state, is_success,
  none, not, not_initialized, ok, some, unsupported, ℕ, ◌&&◌, ◌==◌, ◌∷◌,
}
use liam_os.Str.{first, string_copy}
use liam_os.Elf.{
  ElfInfo, Header, ProgramHeader, Selected, check_segment, file_bytes, header_of, nothing, segment,
  select_segment, several, validate_from_node,
}
use liam_os.Vfs.{NodeInfo}

-- `user_image_t`; its kind is always USER_IMAGE_KIND_ELF here.
pub record UserImage : Type 0 where
  pub path : List ℕ
  pub name : List ℕ
  pub entry : ℕ
  pub user_stack_top : ℕ
  pub image_size : ℕ
  pub flags : ℕ

-- The loop of `elf32_basename`
unfoldable pub basename_from : List ℕ → List ℕ → List ℕ
basename_from last [] = last
basename_from last (c ∷ s) =
    let later = basename_from (if (c == b'/') && not (first s == 0) then s else last) s in
    if c == 0 then last else later

-- `elf32_basename`
abbrev pub basename : List ℕ → List ℕ
basename path = basename_from path path

-- `elf32_load_fail`
abbrev pub load_fail : ElfInfo → Status → Status × Option UserImage × ElfInfo
load_fail n s = (s, none, record n { failed_loads = inc32 n.failed_loads; last_status = s })

-- What is noted of a load that succeeds.
abbrev pub note_load : ElfInfo → NodeInfo → Header → ProgramHeader → ElfInfo
note_load n i h p = record n {
  successful_loads = inc32 n.successful_loads;
  last_entry = h.entry;
  last_program_header_count = h.program_header_count;
  last_file_size = i.size;
  last_load_segment_offset = p.offset;
  last_load_segment_vaddr = p.virtual_address;
  last_load_segment_file_size = p.file_size;
  last_load_segment_memory_size = p.memory_size;
  last_status = ok;
}

-- `ring3_load_user_image` gets the bytes from the segment on and its size, and gives a status and the
-- top of the user stack.
module _ (ring3_load : List ℕ → ℕ → Status × ℕ) where
  -- Once the segment has passed its tests
  unfoldable pub load_segment :
      ElfInfo → NodeInfo → Header → ProgramHeader → Status × ℕ → Status × Option UserImage × ElfInfo
  load_segment n i h p (s, stack_top) = if not (is_success s) then load_fail n s else (
    ok,
    some (record {
      path = i.path;
      name = basename i.path;
      entry = h.entry;
      user_stack_top = stack_top;
      image_size = p.memory_size;
      flags = 0;
    }),
    note_load n i h p,
  )

  -- Once the loop has ended
  unfoldable pub load_selected :
      ElfInfo → NodeInfo → Header → Selected → Status × Option UserImage × ElfInfo
  unfolding load_segment
  load_selected n i h nothing = load_fail n invalid_state
  load_selected n i h several = load_fail n unsupported
  load_selected n i h (segment p) =
      let s = check_segment h p i.size in
      if not (is_success s)
      then load_fail n s
      else load_segment n i h p (ring3_load (drop p.offset (file_bytes i)) p.file_size)

  -- Once the header is valid
  unfoldable pub load_valid : ElfInfo → NodeInfo → Header → Status × Option UserImage × ElfInfo
  unfolding load_selected
  load_valid n i h =
      if h.program_header_count == 0
      then load_fail n invalid_state
      else load_selected n i h (
          select_segment h.program_header_count (file_bytes i) h.program_header_offset
            h.program_header_entry_size nothing)

  unfoldable pub load_checked : NodeInfo → Status × ElfInfo → Status × Option UserImage × ElfInfo
  unfolding load_valid
  load_checked i (s, n) =
      if not (is_success s) then load_fail n s else load_valid n i (header_of (file_bytes i))

  -- `elf32_load_from_node`: the status, the image and the new counters.
  unfoldable pub load_from_node : ElfInfo → Option NodeInfo → Status × Option UserImage × ElfInfo
  unfolding load_checked
  load_from_node n none = (invalid_argument, none, n)
  load_from_node n (some i) =
      let noted = record n {
        load_attempts = inc32 n.load_attempts;
        last_path = string_copy n.last_path i.path 128;
      } in
      if not n.initialized
      then (not_initialized, none, n)
      else load_checked i (validate_from_node noted (some i))
