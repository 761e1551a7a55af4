-- ===== src/Elf/Safety.antt =====
-- An executable that `elf32_load_from_node` accepts stays inside its file and its page.
use liam_os.Base.{
  ==→≢, List, Option, Status, already_exists, ap, arith, busy, corruption_detected, drop, if_cases,
  inc32, invalid_argument, invalid_state, is_success, ltb, not, not_found, not_initialized, ok,
  out_of_memory, permission_denied, refl, some, subst, sym, timeout, true, u32_mod, unknown,
  unsupported, ℕ, ◌%◌, ◌*◌, ◌+◌, ◌-◌, ◌<◌, ◌==◌, ◌^◌, ◌||◌, ◌∙◌, ◌≡◌, ◌≢◌, ◌≤◌,
}
use liam_os.Elf.{
  ElfInfo, Header, ProgramHeader, Selected, byte_at, check_file, check_header, check_segment,
  file_bytes, has_data, has_table, header_bytes, header_of, nothing, program_header_at, segment,
  several, validate_from_node,
}
use liam_os.Elf.Selection.{Selects, select_segment-Selects}
use liam_os.Elf.Load.{
  UserImage, load_checked, load_from_node, load_segment, load_selected, load_valid,
}
use liam_os.Str.{string_copy}
use liam_os.Vfs.{NodeInfo, is_file}

-- The program header with number `k` of a file.
abbrev pub header_at : NodeInfo → Header → ℕ → ProgramHeader
header_at i h k =
    program_header_at (file_bytes i) (h.program_header_offset + k * h.program_header_entry_size)

-- The header with number `k` is the only one of the table that is loadable (PT_LOAD, 1).
pub record IsOnlyLoadable (i : NodeInfo) (h : Header) (k : ℕ) : Type 0 where
  pub in_table : k < h.program_header_count
  pub loadable : (header_at i h k).type ≡ 1
  pub no_other : (j : ℕ) → j < h.program_header_count → j ≢ k → (header_at i h j).type ≢ 1

-- What an accepted file owes, for its header and the segment that was chosen.
pub record IsSafe (i : NodeInfo) (h : Header) (p : ProgramHeader) : Type 0 where
  pub table_inside :
      h.program_header_offset + h.program_header_count * h.program_header_entry_size ≤ i.size
  pub at_user_code : p.virtual_address ≡ 0x10000000
  pub segment_inside : p.offset + p.file_size ≤ i.size
  pub not_empty : 0 < p.file_size
  pub in_memory : p.file_size ≤ p.memory_size
  pub in_page : p.memory_size ≤ 4096
  pub entry_inside : (0x10000000 ≤ h.entry) × (h.entry < 0x10000000 + p.memory_size)

check_segment_sound :
    (h : Header) (p : ProgramHeader) (size : ℕ)
    → check_segment h p size ≡ ok
    → (p.virtual_address ≡ 0x10000000)
      × (p.offset + p.file_size ≤ size)
      × (0 < p.file_size)
      × (p.file_size ≤ p.memory_size)
      × (p.memory_size ≤ 4096)
      × (0x10000000 ≤ h.entry)
      × (h.entry < 0x10000000 + p.memory_size)
unfolding check_segment
check_segment_sound h p size e = ground (arith, e)

check_header_table : (h : Header) (size : ℕ) → check_header h size ≡ ok → has_table h size ≡ true
unfolding check_header
check_header_table h size e = ground (arith, e)

has_table_sound :
    (h : Header) (size : ℕ)
    → has_table h size ≡ true
    → h.program_header_count ≢ 0
    → (h.program_header_entry_size ≡ 32)
      × (h.program_header_offset < size)
      × (h.program_header_count * h.program_header_entry_size % u32_mod
          ≤ size - h.program_header_offset)
unfolding has_table
has_table_sound h size e n = ground (arith, e, n)

table_fits :
    (count entry_size offset size : ℕ)
    → entry_size ≡ 32
    → count < 2 ^ 16
    → offset < size
    → count * entry_size % u32_mod ≤ size - offset
    → offset + count * entry_size ≤ size
table_fits count entry_size offset size e small lt le =
    rw e (omega (arith, subst (λ z. count * z % u32_mod ≤ size - offset) e le))

success_ok : (s : Status) → is_success s ≡ true → s ≡ ok
success_ok ok h = refl
success_ok unknown h = cc
success_ok invalid_argument h = cc
success_ok not_found h = cc
success_ok out_of_memory h = cc
success_ok already_exists h = cc
success_ok not_initialized h = cc
success_ok busy h = cc
success_ok permission_denied h = cc
success_ok unsupported h = cc
success_ok invalid_state h = cc
success_ok corruption_detected h = cc
success_ok timeout h = cc

checked_header :
    (i : NodeInfo) → check_file i ≡ ok → check_header (header_of (file_bytes i)) i.size ≡ ok
unfolding check_file
checked_header i =
    if_cases (λ s. s ≡ ok → check_header (header_of (file_bytes i)) i.size ≡ ok)
      (not (is_file i.type)) (λ _ e. cc)
      (λ _.
        if_cases (λ s. s ≡ ok → check_header (header_of (file_bytes i)) i.size ≡ ok)
          (not (has_data i) || ltb i.size header_bytes) (λ _ e. cc) (λ _ e. e))

-- Every element of the file's data is a byte.
abbrev pub HoldsBytes : NodeInfo → Type 0
HoldsBytes i = (k : ℕ) → byte_at (file_bytes i) k < 256

count_small :
    (i : NodeInfo) → HoldsBytes i → (header_of (file_bytes i)).program_header_count < 2 ^ 16
unfolding header_of
count_small i bytes = omega (arith, bytes 44, bytes 45)

module _ (ring3_load : List ℕ → ℕ → Status × ℕ) where
  -- The segment `p` is safe, was copied to the program's page, and the image returned is its.
  abbrev pub LoadedWith :
      NodeInfo → Header → ProgramHeader → Status × Option UserImage × ElfInfo → Type 0
  LoadedWith i h p r =
      IsSafe i h p
      × ((ring3_load (drop p.offset (file_bytes i)) p.file_size).0 ≡ ok)
      × ((image : UserImage) × (r.1 ≡ some image)
          × (image.entry ≡ h.entry)
          × (image.image_size ≡ p.memory_size))

  -- An accepted file is loaded with the only loadable segment of its table.
  abbrev pub Accepted : NodeInfo → Header → Status × Option UserImage × ElfInfo → Type 0
  Accepted i h r = (k : ℕ) × IsOnlyLoadable i h k × LoadedWith i h (header_at i h k) r

  abbrev Loads : NodeInfo → Header → Status × Option UserImage × ElfInfo → Type 0
  Loads i h r = r.0 ≡ ok → Accepted i h r

  load_segment-Loads :
      (n : ElfInfo) (i : NodeInfo) (h : Header) (p : ProgramHeader)
      → IsSafe i h p
      → let r =
          load_segment ring3_load n i h p (ring3_load (drop p.offset (file_bytes i)) p.file_size) in
        r.0 ≡ ok → LoadedWith i h p r
  unfolding load_segment
  load_segment-Loads n i h p safe =
      let s = (ring3_load (drop p.offset (file_bytes i)) p.file_size).0 in
      if_cases (λ (r : Status × Option UserImage × ElfInfo). r.0 ≡ ok → LoadedWith i h p r)
        (not (is_success s)) (λ bad e. absurd (ground (arith, bad, ap is_success e)))
        (λ good e. (safe, success_ok s (ground (arith, good)), (_, refl, refl, refl)))

  load_selected-Loads :
      (n : ElfInfo) (i : NodeInfo) (h : Header) (s : Selected)
      → h.program_header_offset + h.program_header_count * h.program_header_entry_size ≤ i.size
      → Selects
          (file_bytes i)
          h.program_header_count
          h.program_header_offset
          h.program_header_entry_size
          nothing
          s
      → Loads i h (load_selected ring3_load n i h s)
  unfolding load_selected
  load_selected-Loads n i h nothing table l = λ e. cc
  load_selected-Loads n i h several table l = λ e. cc
  load_selected-Loads n i h (segment p) table (k, lt, same, loads, others) =
      let s = check_segment h p i.size in
      if_cases (Loads i h) (not (is_success s))
        (λ bad e. absurd (ground (arith, bad, ap is_success e)))
        (λ good e.
          let c = check_segment_sound h p i.size (success_ok s (ground (arith, good))) in
          let r =
            load_segment ring3_load n i h p
              (ring3_load (drop p.offset (file_bytes i)) p.file_size) in
          (
            k,
            record {
              in_table = lt;
              loadable = ap (λ (x : ProgramHeader). x.type) (sym same) ∙ loads;
              no_other = others;
            },
            subst (λ q. LoadedWith i h q r) same
                (load_segment-Loads n i h p
                  (record {
                    table_inside = table;
                    at_user_code = c.0;
                    segment_inside = c.1;
                    not_empty = c.2;
                    in_memory = c.3;
                    in_page = c.4;
                    entry_inside = (c.5, c.6);
                  })
                  e),
          ))

  load_valid-Loads :
      (n : ElfInfo) (i : NodeInfo) (h : Header)
      → h.program_header_count < 2 ^ 16
      → check_header h i.size ≡ ok
      → Loads i h (load_valid ring3_load n i h)
  unfolding load_valid
  load_valid-Loads n i h small valid =
      if_cases (Loads i h) (h.program_header_count == 0) (λ empty e. cc)
        (λ more.
          let t = has_table_sound h i.size (check_header_table h i.size valid) (==→≢ _ _ more) in
          load_selected-Loads n i h _
            (table_fits h.program_header_count h.program_header_entry_size h.program_header_offset
              i.size t.0 small t.1 t.2)
            (select_segment-Selects h.program_header_count (file_bytes i) h.program_header_offset
              h.program_header_entry_size nothing))

  load_from_node-Loads :
      (n : ElfInfo) (i : NodeInfo)
      → HoldsBytes i
      → Loads i (header_of (file_bytes i)) (load_from_node ring3_load n (some i))
  unfolding load_from_node load_checked validate_from_node
  load_from_node-Loads n i bytes =
      let noted = record n {
        load_attempts = inc32 n.load_attempts;
        last_path = string_copy n.last_path i.path 128;
      } in
      if_cases (Loads i (header_of (file_bytes i))) (not n.initialized) (λ _ e. cc)
        (λ _.
          if_cases (Loads i (header_of (file_bytes i))) (not (is_success (check_file i)))
            (λ bad e. absurd (ground (arith, bad, ap is_success e)))
            (λ good.
              load_valid-Loads (validate_from_node noted (some i)).1 i (header_of (file_bytes i))
                (count_small i bytes)
                (checked_header i (success_ok (check_file i) (ground (arith, good))))))

  -- `elf32_load_from_node` of a file of bytes gives KERNEL_OK only if the whole table of program
  -- headers lies in the file and has exactly one loadable segment (PT_LOAD). That segment lies in the
  -- file, is not empty, is linked for the page of user code, and takes at most that page, with the
  -- entry point in it. `ring3_load_user_image`, given the file's bytes from the segment on and its
  -- size, succeeded, and the image that is returned has that entry and that size.
  pub load_from_node-Accepted :
      (n : ElfInfo) (i : NodeInfo)
      → HoldsBytes i
      → (load_from_node ring3_load n (some i)).0 ≡ ok
      → Accepted i (header_of (file_bytes i)) (load_from_node ring3_load n (some i))
  load_from_node-Accepted n i bytes = load_from_node-Loads n i bytes
