-- ===== src/Vmm/Audit.antt =====
-- core/kernel/memory/vmm.c: `vmm_audit`, which counts what the page tables hold.
use liam_os.Base.{
  if◌then◌else◌, inc32, ltb, not, page_align_down, suc, zero, ℕ, ◌&&◌, ◌*◌, ◌+◌, ◌==◌,
}
use liam_os.Vmm.{Vmm, is_mapped, is_present, is_user, is_writable, table_entries}

-- `vmm_audit_info_t`
pub record AuditInfo : Type 0 where
  pub audits_run : ℕ
  pub issues_found : ℕ
  pub present_directory_entries : ℕ
  pub present_page_entries : ℕ
  pub writable_page_entries : ℕ
  pub user_page_entries : ℕ
  pub invalid_directory_entries : ℕ
  pub invalid_page_table_addresses : ℕ
  pub last_mapping_missing : ℕ

-- `vmm_clear_audit_snapshot`
abbrev pub clear_audit_snapshot : AuditInfo → AuditInfo
clear_audit_snapshot a = record {
  audits_run = a.audits_run;
  issues_found = 0;
  present_directory_entries = 0;
  present_page_entries = 0;
  writable_page_entries = 0;
  user_page_entries = 0;
  invalid_directory_entries = 0;
  invalid_page_table_addresses = 0;
  last_mapping_missing = 0;
}

-- What `vmm_initialize` does to it.
abbrev pub initialize_audit : AuditInfo → AuditInfo
initialize_audit a = clear_audit_snapshot (record a { audits_run = 0 })

-- `vmm_audit_record_issue`, for each of the three counters that it is called with.
abbrev pub invalid_directory : AuditInfo → AuditInfo
invalid_directory a = record a {
  issues_found = inc32 a.issues_found;
  invalid_directory_entries = inc32 a.invalid_directory_entries;
}

abbrev pub invalid_page_table : AuditInfo → AuditInfo
invalid_page_table a = record a {
  issues_found = inc32 a.issues_found;
  invalid_page_table_addresses = inc32 a.invalid_page_table_addresses;
}

abbrev pub missing_mapping : AuditInfo → AuditInfo
missing_mapping a = record a {
  issues_found = inc32 a.issues_found;
  last_mapping_missing = inc32 a.last_mapping_missing;
}

-- The body of the loop over a page table
unfoldable pub audit_page_entry : ℕ → AuditInfo → AuditInfo
audit_page_entry entry a = if not (is_present entry) then a else record a {
  present_page_entries = inc32 a.present_page_entries;
  writable_page_entries =
      if is_writable entry then inc32 a.writable_page_entries else a.writable_page_entries;
  user_page_entries = if is_user entry then inc32 a.user_page_entries else a.user_page_entries;
}

-- The loop over a page table, from entry `k` with `n` rounds left.
unfoldable pub audit_table : ℕ → (ℕ → ℕ) → ℕ → ℕ → AuditInfo → AuditInfo
unfolding audit_page_entry
audit_table zero memory table k a = a
audit_table (suc n) memory table k a =
    audit_table n memory table (k + 1) (audit_page_entry (memory (table + 4 * k)) a)

-- The body of the loop over the directory
unfoldable pub audit_directory_entry : (ℕ → ℕ) → ℕ → AuditInfo → AuditInfo
unfolding audit_table
audit_directory_entry memory entry a =
    let b = record a { present_directory_entries = inc32 a.present_directory_entries } in
    if not (is_present entry)
    then a
    else if page_align_down entry == 0
    then invalid_page_table b
    else audit_table table_entries memory (page_align_down entry) 0 b

-- The loop over the directory
unfoldable pub audit_directory : ℕ → Vmm → ℕ → AuditInfo → AuditInfo
unfolding audit_directory_entry
audit_directory zero v i a = a
audit_directory (suc n) v i a =
    audit_directory n v (i + 1) (audit_directory_entry v.memory (v.memory (v.directory + 4 * i)) a)

-- The last test of `vmm_audit`
unfoldable pub audit_last : Vmm → AuditInfo → AuditInfo
audit_last v a =
    if ltb 0 v.mapped_pages && not (is_mapped v v.last_mapped_virtual_address)
    then missing_mapping a
    else a

abbrev pub with_issues : AuditInfo → ℕ × AuditInfo
with_issues a = (a.issues_found, a)

-- `vmm_audit`
unfoldable pub audit : Vmm → AuditInfo → ℕ × AuditInfo
audit v a =
    let noted = clear_audit_snapshot (record a { audits_run = inc32 a.audits_run }) in
    if not v.initialized
    then with_issues (invalid_directory noted)
    else if v.directory == 0
    then with_issues (invalid_directory noted)
    else with_issues (audit_last v (audit_directory table_entries v 0 noted))
