-- ===== src/Vmm/Mapping.antt =====
-- `vmm_map_page` and `vmm_unmap_page` against what the page walk finds afterwards.
use liam_os.Base.{
  ==→≢, Bool, ap, arith, false, if_cases, if◌then◌else◌, not, page_align_down, refl, subst, true,
  update, ℕ, ◌&&◌, ◌*◌, ◌+◌, ◌<◌, ◌==◌, ◌^◌, ◌||◌, ◌∙◌, ◌≡◌,
}
use liam_os.Vmm.Slots.{slots_apart}
use liam_os.Vmm.Invariant.{
  IsValid, SameTables, SameTables-IsValid, entry_at, page_entry_at, table_at,
}
use liam_os.Vmm.Tables.{Keeps, get_or_create-Keeps, get_or_create-Provides}
use liam_os.Vmm.{
  Vmm, directory_index, flags_are_valid, get_or_create_page_table, install, is_present, map_page,
  note_alignment, page_offset, table_index, unmap_page,
}

-- Two addresses lie in one page exactly when they share both indices.
pub same_page :
    (a b : ℕ)
    → a < 2 ^ 32
    → b < 2 ^ 32
    → (page_align_down a == page_align_down b)
      ≡ ((directory_index a == directory_index b) && (table_index a == table_index b))
same_page a b h k = ground arith

pub aligned_indices :
    (a : ℕ)
    → (directory_index (page_align_down a) ≡ directory_index a)
      × (table_index (page_align_down a) ≡ table_index a)
aligned_indices a = omega arith

-- A write of `word` to entry `k` of the table that directory entry `d` names.
module _ {v : Vmm} (s : IsValid v) (d k word : ℕ) (d_lt : d < 1024) (k_lt : k < 1024)
    (present : is_present (entry_at v d) ≡ true) where
  abbrev pub written : Vmm
  written = record v { memory = update v.memory (table_at v d + 4 * k) word }

  written-SameTables : SameTables v written
  written-SameTables = record {
    directory_eq = refl;
    pmm_eq = refl;
    present_eq = λ i h. ap is_present (same i h);
    table_eq = λ i h. ap page_align_down (same i h);
  }
    where
      same : (i : ℕ) → i < 1024 → entry_at written i ≡ entry_at v i
      same i h = ground (
        arith,
        slots_apart v.directory (table_at v d) i k s.directory_aligned (omega arith) h k_lt,
        s.tables_not_directory d d_lt present,
      )

  pub written-IsValid : IsValid written
  written-IsValid = SameTables-IsValid written-SameTables s

  -- Only the entry that was written reads differently.
  pub written_entry :
      (i j : ℕ)
      → i < 1024
      → j < 1024
      → page_entry_at written i j ≡ (if (i == d) && (j == k) then word else page_entry_at v i j)
  written_entry i j h m = ground (
    arith,
    written-SameTables.present_eq i h,
    written-SameTables.table_eq i h,
    slots_apart (table_at v i) (table_at v d) j k (omega arith) (omega arith) m k_lt,
    s.tables_apart i d h d_lt,
    present,
  )

-- A change of the counters alone.
record SameCore (v w : Vmm) : Type 0 where
  directory_eq : w.directory ≡ v.directory
  memory_eq : w.memory ≡ v.memory
  pmm_eq : w.pmm ≡ v.pmm
  initialized_eq : w.initialized ≡ v.initialized

SameCore-Keeps : {v w : Vmm} → SameCore v w → IsValid v → Keeps v w
SameCore-Keeps {v} {w} c s = record {
  valid =
      SameTables-IsValid
        (record {
          directory_eq = c.directory_eq;
          pmm_eq = c.pmm_eq;
          present_eq = λ i h. rw (c.memory_eq, c.directory_eq) refl;
          table_eq = λ i h. rw (c.memory_eq, c.directory_eq) refl;
        })
        s;
  entries = λ i k h m. rw (c.memory_eq, c.directory_eq) refl;
  initialized = c.initialized_eq;
}

Keeps-trans : {u v w : Vmm} → Keeps u v → Keeps v w → Keeps u w
Keeps-trans a b = record {
  valid = b.valid;
  entries = λ i k h m. b.entries i k h m ∙ a.entries i k h m;
  initialized = b.initialized ∙ a.initialized;
}

counted :
    {v w : Vmm}
    → w.directory ≡ v.directory
    → w.memory ≡ v.memory
    → w.pmm ≡ v.pmm
    → w.initialized ≡ v.initialized
    → IsValid v
    → Keeps v w
counted d m p i =
    SameCore-Keeps (record { directory_eq = d; memory_eq = m; pmm_eq = p; initialized_eq = i })

note_alignment-Keeps :
    {v : Vmm} (virtual physical : ℕ) → IsValid v → Keeps v (note_alignment v virtual physical)
unfolding note_alignment
note_alignment-Keeps {v} virtual physical s =
    if_cases (Keeps v) (not (page_offset virtual == 0) || not (page_offset physical == 0))
      (λ _. counted refl refl refl refl s) (λ _. counted refl refl refl refl s)

-- What `vmm_map_page` owes, given what it returned.
pub record Maps (v : Vmm) (virtual word : ℕ) (r : Bool × Vmm) : Type 0 where
  pub valid : IsValid r.1
  pub entries :
      (i k : ℕ)
      → i < 1024
      → k < 1024
      → page_entry_at r.1 i k ≡ (
          if r.0 && ((i == directory_index virtual) && (k == table_index virtual))
          then word
          else page_entry_at v i k)
  pub initialized : r.1.initialized ≡ v.initialized

Keeps-Maps : {v w : Vmm} (virtual word : ℕ) → Keeps v w → Maps v virtual word (false, w)
Keeps-Maps virtual word k = record {
  valid = k.valid;
  entries = k.entries;
  initialized = k.initialized;
}

install-Maps :
    {v w : Vmm} (virtual physical flags : ℕ)
    → Keeps v w
    → is_present (entry_at w (directory_index virtual)) ≡ true
    → Maps v virtual
        (physical + 1 + flags)
        (true, install w (table_at w (directory_index virtual)) virtual physical flags)
unfolding install
install-Maps {v} {w} virtual physical flags keep present =
    let d_lt : directory_index virtual < 1024 = omega arith in
    let k_lt : table_index virtual < 1024 = omega arith in
    let word = physical + 1 + flags in
    let same = counted refl refl refl refl (
      written-IsValid keep.valid (directory_index virtual) (table_index virtual) word d_lt k_lt
        present) in
    record {
      valid = same.valid;
      entries = λ i k h m.
          same.entries i k h m
          ∙ written_entry keep.valid (directory_index virtual) (table_index virtual) word d_lt k_lt
              present i k h m
          ∙ ap
              (λ e.
                if (i == directory_index virtual) && (k == table_index virtual) then word else e)
              (keep.entries i k h m);
      initialized = keep.initialized;
    }

pub map_page-Maps :
    {v : Vmm} (virtual physical flags : ℕ)
    → IsValid v
    → Maps v
        (page_align_down virtual)
        (page_align_down physical + 1 + flags)
        (map_page v virtual physical flags)
unfolding map_page
map_page-Maps {v} virtual physical flags s =
    if_cases M (not v.initialized) (λ _. Keeps-Maps _ _ (counted refl refl refl refl s))
      (λ _.
        if_cases M (not (flags_are_valid flags))
          (λ _. Keeps-Maps _ _ (counted refl refl refl refl s))
          (λ _.
            if_cases M (r.0 == 0)
              (λ _. Keeps-Maps _ _ (Keeps-trans kept (counted refl refl refl refl kept.valid)))
              (λ found.
                let p =
                  get_or_create-Provides n.valid (page_align_down virtual) flags (==→≢ _ _ found) in
                subst
                  (λ t. Maps v (page_align_down virtual) (page_align_down physical + 1 + flags) (
                    true,
                    install r.1 t (page_align_down virtual) (page_align_down physical) flags,
                  ))
                  p.table (install-Maps _ _ flags kept p.present))))
  where
    M : Bool × Vmm → Type 0
    M = Maps v (page_align_down virtual) (page_align_down physical + 1 + flags)

    n : Keeps v (note_alignment v virtual physical)
    n = note_alignment-Keeps virtual physical s

    r : ℕ × Vmm
    r = get_or_create_page_table (note_alignment v virtual physical) (page_align_down virtual) flags

    kept : Keeps v r.1
    kept = Keeps-trans n (get_or_create-Keeps n.valid (page_align_down virtual) flags)

pub unmap_page-Maps :
    {v : Vmm} (virtual : ℕ) → IsValid v → Maps v (page_align_down virtual) 0 (unmap_page v virtual)
unfolding unmap_page
unmap_page-Maps {v} virtual s =
    let d_lt : directory_index (page_align_down virtual) < 1024 = omega arith in
    let k_lt : table_index (page_align_down virtual) < 1024 = omega arith in
    if_cases (Maps v (page_align_down virtual) 0) (not v.initialized)
      (λ _. Keeps-Maps _ _ (counted refl refl refl refl s))
      (λ _.
        if_cases (Maps v (page_align_down virtual) 0)
          (not (is_present (entry_at v (directory_index (page_align_down virtual)))))
          (λ _. Keeps-Maps _ _ (counted refl refl refl refl s))
          (λ there.
            let present : is_present (entry_at v (directory_index (page_align_down virtual)))
                ≡ true =
              ground (arith, there) in
            if_cases (Maps v (page_align_down virtual) 0)
              (not (
                is_present (
                  v.memory (
                    table_at v (directory_index (page_align_down virtual))
                    + 4 * table_index (page_align_down virtual)))))
              (λ _. Keeps-Maps _ _ (counted refl refl refl refl s))
              (λ _.
                let same = counted refl refl refl refl (
                  written-IsValid s _ (table_index (page_align_down virtual)) 0 d_lt k_lt
                    present) in
                record {
                  valid = same.valid;
                  entries = λ i k h m.
                      same.entries i k h m ∙ written_entry s _ _ 0 d_lt k_lt present i k h m;
                  initialized = refl;
                })))
