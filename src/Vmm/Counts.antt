-- ===== src/Vmm/Counts.antt =====
-- What `vmm_audit` counts, against sums over the entries.
use liam_os.Base.{
  Bool, false, if◌then◌else◌, inc32, ltb, not, suc, true, zero, ℕ, ◌&&◌, ◌*◌, ◌+◌, ◌==◌,
}
use liam_os.Vmm.{Vmm, is_mapped, is_present, table_entries}
use liam_os.Vmm.Invariant.{entry_at, table_at}
use liam_os.Vmm.Audit.{AuditInfo, clear_audit_snapshot}

abbrev pub bit : Bool → ℕ
bit true = 1
bit false = 0

-- f i + f (i + 1) + ..., n terms.
unfoldable pub sum_from : (ℕ → ℕ) → ℕ → ℕ → ℕ
sum_from f i zero = 0
sum_from f i (suc n) = f i + sum_from f (i + 1) n

-- The present entries of the table at an address.
unfoldable pub present_in : (ℕ → ℕ) → ℕ → ℕ
present_in memory table = sum_from (λ k. bit (is_present (memory (table + 4 * k)))) 0 table_entries

-- The present entries of all the tables that the directory names.
abbrev pub pages_at : Vmm → ℕ → ℕ
pages_at v i =
    if is_present (entry_at v i) && not (table_at v i == 0)
    then present_in v.memory (table_at v i)
    else 0

abbrev pub bad_at : Vmm → ℕ → ℕ
bad_at v i = bit (is_present (entry_at v i) && (table_at v i == 0))

-- Whether the page that was mapped last is gone, though pages are mapped.
abbrev pub stale : Vmm → ℕ
stale v = bit (ltb 0 v.mapped_pages && not (is_mapped v v.last_mapped_virtual_address))

abbrev fresh : AuditInfo → AuditInfo
fresh a = clear_audit_snapshot (record a { audits_run = inc32 a.audits_run })
