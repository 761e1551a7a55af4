-- ===== src/Vmm/Tables.antt =====
-- `vmm_get_or_create_page_table`: a new table keeps the invariant and every mapping.
use liam_os.Base.{
  ==→≡, ==→≢, Bool-cases, arith, false, if_cases, if◌then◌else◌, inl, inr, page_align_down,
  page_size, refl, true, ℕ, ◌%◌, ◌*◌, ◌+◌, ◌<◌, ◌==◌, ◌∙◌, ◌≡◌, ◌≢◌,
}
use liam_os.Pmm.{Pmm, alloc_page}
use liam_os.Pmm.Invariant.{IsValid as IsPmmValid, alloc_page-IsValid}
use liam_os.Pmm.Available.{is_available, is_available-alloc_page}
use liam_os.Pmm.Ownership.{alloc_page-fails}
use liam_os.Vmm.Slots.{clear_from-inside, clear_from-outside, slots_apart}
use liam_os.Vmm.Invariant.{
  IsValid, Provides, SameTables-IsValid, entry_at, page_entry_at, reused, table_at,
}
use liam_os.Vmm.{
  Vmm, adopt_page, create_page_table, directory_index, get_or_create_page_table, is_present,
  is_user, reuse_page_table, set_user, user_flag,
}

-- The new directory entry: present, and pointing to the page.
new_entry :
    (page flags : ℕ)
    → page % page_size ≡ 0
    → (is_present (page_align_down page + 1 + 2 + user_flag flags) ≡ true)
      × (page_align_down (page_align_down page + 1 + 2 + user_flag flags) ≡ page)
new_entry page flags a = ground arith

-- Entry `d` of a valid directory has no table, and the allocator, now in state `q`, gave `page`.
module _ {v : Vmm} (s : IsValid v) (d : ℕ) (d_lt : d < 1024) (flags page : ℕ) (q : Pmm)
    (absent : is_present (entry_at v d) ≡ false) (real : page ≢ 0) (aligned : page % page_size ≡ 0)
    (was : is_available v.pmm page ≡ true)
    (now : (x : ℕ) → is_available q x ≡ (if x == page then false else is_available v.pmm x))
    (pmm_valid : IsPmmValid q) where
  abbrev created : Vmm
  created = adopt_page v (v.directory + 4 * d) flags page q

  page_not_directory : page ≢ v.directory
  page_not_directory e = ground (arith, s.directory_kept)

  page_not_table : (i : ℕ) → i < 1024 → is_present (entry_at v i) ≡ true → page ≢ table_at v i
  page_not_table i h p e = ground (arith, s.tables_kept i h p)

  created_entry :
      (i : ℕ)
      → i < 1024
      → entry_at created i
        ≡ (if i == d then page_align_down page + 1 + 2 + user_flag flags else entry_at v i)
  unfolding adopt_page
  created_entry i h = ground (
    arith,
    clear_from-outside page 0 1024 v.memory v.directory i aligned s.directory_aligned
        page_not_directory h (omega arith),
  )

  created_tables :
      (i : ℕ)
      → i < 1024
      → (is_present (entry_at created i) ≡ (if i == d then true else is_present (entry_at v i)))
        × (table_at created i ≡ (if i == d then page else table_at v i))
  created_tables i h = rw (created_entry i h) (ground (arith, new_entry page flags aligned))

  created-IsValid : IsValid created
  unfolding adopt_page
  created-IsValid = record {
    directory_aligned = s.directory_aligned;
    pmm_valid = pmm_valid;
    directory_kept = ground (arith, now v.directory, s.directory_kept);
    tables_kept =
        λ i h p. ground (arith, created_tables i h, now (table_at created i), s.tables_kept i h, p);
    tables_apart = λ i j h k p r e. ground (
      arith,
      created_tables i h,
      created_tables j k,
      page_not_table i h,
      page_not_table j k,
      s.tables_apart i j h k,
      p,
      r,
      e,
    );
    tables_not_directory = λ i h p e.
        ground (arith, created_tables i h, s.tables_not_directory i h, page_not_directory, p, e);
  }

  -- A word of a table: 0 in the new one, and unchanged in the others.
  created_word :
      (t k : ℕ)
      → t % page_size ≡ 0
      → k < 1024
      → t ≢ v.directory
      → created.memory (t + 4 * k) ≡ (if t == page then 0 else v.memory (t + 4 * k))
  unfolding adopt_page
  created_word t k a h n = elim (Bool-cases (t == page)) [
    | inl here ↦
        let e : t ≡ page = ==→≡ _ _ here in
        rw e (
          ground (
            arith,
            slots_apart page v.directory k d aligned s.directory_aligned h d_lt,
            page_not_directory,
            clear_from-inside page 0 1024 v.memory k (omega arith) (omega arith),
          ))
    | inr away ↦ ground (
      arith,
      slots_apart t v.directory k d a s.directory_aligned h d_lt,
      clear_from-outside page 0 1024 v.memory t k aligned a,
    )
  ]

  created_entries :
      (i k : ℕ) → i < 1024 → k < 1024 → page_entry_at created i k ≡ page_entry_at v i k
  created_entries i k h m = ground (
    arith,
    created_tables i h,
    created_word (table_at created i) k (omega arith) m,
    page_not_table i h,
    page_not_directory,
    s.tables_not_directory i h,
    absent,
  )

  created-Provides : Provides v d page created
  unfolding adopt_page
  created-Provides = record {
    valid = created-IsValid;
    present = ground (arith, created_tables d d_lt);
    table = ground (arith, created_tables d d_lt);
    entries = created_entries;
    initialized = refl;
    mapped = refl;
  }

-- The user bit that `vmm_map_page` adds to a directory entry changes neither the present bit nor the
-- table's address.
added_user :
    (flags entry : ℕ)
    → (is_present (if is_user flags then set_user entry else entry) ≡ is_present entry)
      × (page_align_down (if is_user flags then set_user entry else entry) ≡ page_align_down entry)
added_user flags entry = ground arith

create-Provides :
    {v : Vmm} (s : IsValid v) (d : ℕ) (d_lt : d < 1024) (flags : ℕ)
    → is_present (entry_at v d) ≡ false
    → let r = create_page_table v (v.directory + 4 * d) flags (alloc_page v.pmm) in
      r.0 ≢ 0 → Provides v d r.0 r.1
unfolding create_page_table
create-Provides {v} s d d_lt flags absent =
    if_cases (λ (r : ℕ × Vmm). r.0 ≢ 0 → Provides v d r.0 r.1) ((alloc_page v.pmm).0 == 0)
      (λ _ real. absurd (real refl))
      (λ page _.
        let got : (alloc_page v.pmm).0 ≢ 0 = ==→≢ _ _ page in
        let a = is_available-alloc_page v.pmm 0 s.pmm_valid got in
        created-Provides s d d_lt flags _ _ absent got a.1 a.0
          (λ x. (is_available-alloc_page v.pmm x s.pmm_valid got).2)
          (alloc_page-IsValid s.pmm_valid))

-- Whenever `vmm_get_or_create_page_table` returns a table, it is the one that the directory now
-- names for the address, the invariant holds, and every page entry reads as before.
pub get_or_create-Provides :
    {v : Vmm} (s : IsValid v) (address flags : ℕ)
    → let r = get_or_create_page_table v address flags in
      r.0 ≢ 0 → Provides v (directory_index address) r.0 r.1
unfolding get_or_create_page_table reuse_page_table
get_or_create-Provides {v} s address flags =
    if_cases (λ (r : ℕ × Vmm). r.0 ≢ 0 → Provides v (directory_index address) r.0 r.1)
      (is_present (entry_at v (directory_index address)))
      (λ there _.
        let u = added_user flags (entry_at v (directory_index address)) in
        reused s (directory_index address) (omega arith) _ there (u.0 ∙ there) u.1)
      (λ absent. create-Provides s (directory_index address) (omega arith) flags absent)

-- The invariant holds and every page entry reads as before, also when no table was returned.
pub record Keeps (v w : Vmm) : Type 0 where
  pub valid : IsValid w
  pub entries : (i k : ℕ) → i < 1024 → k < 1024 → page_entry_at w i k ≡ page_entry_at v i k
  pub initialized : w.initialized ≡ v.initialized

Provides-Keeps : {v w : Vmm} {d t : ℕ} → Provides v d t w → Keeps v w
Provides-Keeps p = record { valid = p.valid; entries = p.entries; initialized = p.initialized }

create-Keeps :
    {v : Vmm} (s : IsValid v) (d : ℕ) (d_lt : d < 1024) (flags : ℕ)
    → is_present (entry_at v d) ≡ false
    → Keeps v (create_page_table v (v.directory + 4 * d) flags (alloc_page v.pmm)).1
unfolding create_page_table
create-Keeps {v} s d d_lt flags absent =
    if_cases (λ (r : ℕ × Vmm). Keeps v r.1) ((alloc_page v.pmm).0 == 0)
      (λ null. record {
        valid =
            SameTables-IsValid
              (record {
                directory_eq = refl;
                pmm_eq = (alloc_page-fails v.pmm s.pmm_valid).1 (==→≡ _ _ null);
                present_eq = λ i h. refl;
                table_eq = λ i h. refl;
              })
              s;
        entries = λ i k h m. refl;
        initialized = refl;
      })
      (λ page.
        let got : (alloc_page v.pmm).0 ≢ 0 = ==→≢ _ _ page in
        let a = is_available-alloc_page v.pmm 0 s.pmm_valid got in
        Provides-Keeps (
          created-Provides s d d_lt flags _ _ absent got a.1 a.0
            (λ x. (is_available-alloc_page v.pmm x s.pmm_valid got).2)
            (alloc_page-IsValid s.pmm_valid)))

pub get_or_create-Keeps :
    {v : Vmm} (s : IsValid v) (address flags : ℕ)
    → Keeps v (get_or_create_page_table v address flags).1
unfolding get_or_create_page_table reuse_page_table
get_or_create-Keeps {v} s address flags =
    if_cases (λ (r : ℕ × Vmm). Keeps v r.1) (is_present (entry_at v (directory_index address)))
      (λ there.
        let u = added_user flags (entry_at v (directory_index address)) in
        Provides-Keeps (reused s (directory_index address) (omega arith) _ there (u.0 ∙ there) u.1))
      (λ absent. create-Keeps s (directory_index address) (omega arith) flags absent)
