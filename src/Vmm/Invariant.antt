-- ===== src/Vmm/Invariant.antt =====
-- The invariant of the page tables, and that finding or creating a table keeps it and every mapping.
use liam_os.Base.{
  arith, false, if◌then◌else◌, page_align_down, page_size, refl, sym, true, ℕ, ◌%◌, ◌*◌, ◌+◌, ◌<◌,
  ◌∙◌, ◌≡◌, ◌≢◌,
}
use liam_os.Pmm.Invariant.{IsValid as IsPmmValid}
use liam_os.Pmm.Available.{is_available}
use liam_os.Vmm.Slots.{slots_apart}
use liam_os.Vmm.{Vmm, directory_index, is_present, reuse_page_table, table_index}

-- Directory entry `i`, and the table that it points to.
abbrev pub entry_at : Vmm → ℕ → ℕ
entry_at v i = v.memory (v.directory + 4 * i)

abbrev pub table_at : Vmm → ℕ → ℕ
table_at v i = page_align_down (entry_at v i)

-- The directory and the tables in use are pairwise distinct pages that the allocator will not hand
-- out.
pub record IsValid (v : Vmm) : Type 0 where
  pub directory_aligned : v.directory % page_size ≡ 0
  pub pmm_valid : IsPmmValid v.pmm
  pub directory_kept : is_available v.pmm v.directory ≡ false
  pub tables_kept :
      (i : ℕ)
      → i < 1024
      → is_present (entry_at v i) ≡ true
      → is_available v.pmm (table_at v i) ≡ false
  pub tables_apart :
      (i j : ℕ)
      → i < 1024
      → j < 1024
      → is_present (entry_at v i) ≡ true
      → is_present (entry_at v j) ≡ true
      → table_at v i ≡ table_at v j
      → i ≡ j
  pub tables_not_directory :
      (i : ℕ) → i < 1024 → is_present (entry_at v i) ≡ true → table_at v i ≢ v.directory

-- The page's entry in its table, and 0 where the directory has no table.
abbrev pub page_entry_at : Vmm → ℕ → ℕ → ℕ
page_entry_at v i k = if is_present (entry_at v i) then v.memory (table_at v i + 4 * k) else 0

abbrev pub page_entry : Vmm → ℕ → ℕ
page_entry v address = page_entry_at v (directory_index address) (table_index address)

-- What `vmm_get_or_create_page_table` owes for directory entry `d`, when it returns table `t` and
-- state `w` from state `v`.
pub record Provides (v : Vmm) (d t : ℕ) (w : Vmm) : Type 0 where
  pub valid : IsValid w
  pub present : is_present (entry_at w d) ≡ true
  pub table : table_at w d ≡ t
  pub entries : (i k : ℕ) → i < 1024 → k < 1024 → page_entry_at w i k ≡ page_entry_at v i k
  pub initialized : w.initialized ≡ v.initialized
  pub mapped : w.mapped_pages ≡ v.mapped_pages

-- The two states see the same tables through the same directory.
pub record SameTables (v w : Vmm) : Type 0 where
  pub directory_eq : w.directory ≡ v.directory
  pub pmm_eq : w.pmm ≡ v.pmm
  pub present_eq : (i : ℕ) → i < 1024 → is_present (entry_at w i) ≡ is_present (entry_at v i)
  pub table_eq : (i : ℕ) → i < 1024 → table_at w i ≡ table_at v i

pub SameTables-IsValid : {v w : Vmm} → SameTables v w → IsValid v → IsValid w
SameTables-IsValid {v} {w} f s = record {
  directory_aligned = rw f.directory_eq s.directory_aligned;
  pmm_valid = rw f.pmm_eq s.pmm_valid;
  directory_kept = rw (f.directory_eq, f.pmm_eq) s.directory_kept;
  tables_kept =
      λ i h p. rw (f.pmm_eq, f.table_eq i h) (s.tables_kept i h (sym (f.present_eq i h) ∙ p));
  tables_apart = λ i j h k p q e.
      s.tables_apart i j h k (sym (f.present_eq i h) ∙ p) (sym (f.present_eq j k) ∙ q)
        (sym (f.table_eq i h) ∙ e ∙ f.table_eq j k);
  tables_not_directory = λ i h p e.
      s.tables_not_directory i h (sym (f.present_eq i h) ∙ p)
        (sym (f.table_eq i h) ∙ e ∙ f.directory_eq);
}

module _ {v : Vmm} (s : IsValid v) (d : ℕ) (d_lt : d < 1024) where
  -- A new value for entry `d` that has its table and its present bit changes no entry's.
  reused-SameTables :
      (entry : ℕ)
      → is_present (entry_at v d) ≡ true
      → is_present entry ≡ true
      → page_align_down entry ≡ table_at v d
      → SameTables v (reuse_page_table v (v.directory + 4 * d) entry).1
  unfolding reuse_page_table
  reused-SameTables entry old new same = record {
    directory_eq = refl;
    pmm_eq = refl;
    present_eq = λ i h. ground arith;
    table_eq = λ i h. ground arith;
  }

  pub reused :
      (entry : ℕ)
      → is_present (entry_at v d) ≡ true
      → is_present entry ≡ true
      → page_align_down entry ≡ table_at v d
      → Provides v d (page_align_down entry) (reuse_page_table v (v.directory + 4 * d) entry).1
  unfolding reuse_page_table
  reused entry old new same =
      let f = reused-SameTables entry old new same in
      record {
        valid = SameTables-IsValid f s;
        present = ground arith;
        table = ground arith;
        entries = λ i k h m. ground (
          arith,
          f.present_eq i h,
          f.table_eq i h,
          s.tables_not_directory i h,
          slots_apart (table_at v i) v.directory k d,
          s.directory_aligned,
        );
        initialized = refl;
        mapped = refl;
      }
