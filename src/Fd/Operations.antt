-- ===== src/Fd/Operations.antt =====
-- What open, read and close do to the table, when they succeed and when they fail.
use liam_os.Base.{
  List, Option, Option-cases, Status, ap, arith, false, if_cases, inl, inr, invalid_state, length,
  none, not, ok, out_of_memory, refl, set, some, subst, sym, true, ℕ, ◌<◌, ◌≡◌, ◌≢◌, ◌≤◌,
}
use liam_os.Vfs.{Node, Vfs, info, is_file, lookup}
use liam_os.Vfs.Lookup.{IsConsistent, answer, lookup-IsConsistent}
use liam_os.Fd.Slots.{IsValid, allocate_slot_full, allocate_slot_sound}
use liam_os.Fd.{
  FileSlot, World, allocate_slot, fail_open, first_process_file, max_open_files, note_open,
  open_current, open_found, open_node, open_with, slot_at,
}

-- The lookup has found a file.
abbrev pub IsFile : Status × Option Node → Type 0
IsFile looked_up = (n : Node) × (looked_up ≡ (ok, some n)) × (is_file (info n).type ≡ true)

-- What an open owes: a fresh slot for a file that the lookup found, or an untouched table. It
-- succeeds when there is such a file and a slot.
pub record Opens (files : List FileSlot) (looked_up : Status × Option Node) (flags : ℕ)
    (r : Status × Option ℕ × World) : Type 0 where
  pub kept : r.0 ≢ ok → (r.1 ≡ none) × (r.2.files ≡ some files)
  pub missing : r.1 ≡ none → r.0 ≢ ok
  pub succeeds :
      (j : ℕ)
      → IsFile looked_up
      → first_process_file ≤ j
      → j < max_open_files
      → (slot_at files j).used ≡ false
      → r.0 ≡ ok
  pub opened :
      (fd : ℕ)
      → r.1 ≡ some fd
      → (r.0 ≡ ok)
        × (first_process_file ≤ fd)
        × (fd < max_open_files)
        × ((slot_at files fd).used ≡ false)
        × ((n : Node) × (looked_up ≡ (ok, some n))
            × (is_file (info n).type ≡ true)
            × (r.2.files
                ≡ some (
                    set files fd
                      (record { used = true; node = some n; offset = 0; flags = flags }))))
  pub lowest :
      (fd j : ℕ) → r.1 ≡ some fd → first_process_file ≤ j → j < fd → (slot_at files j).used ≡ true

-- What an equation of two lookups says.
same_node : (n m : Node) → ◌≡◌ {A = Status × Option Node} (ok, some n) (ok, some m) → n ≡ m
same_node n m e = cc

no_node : (s : Status) (m : Node) → ◌≡◌ {A = Status × Option Node} (s, none) (ok, some m) → ⊥
no_node s m e = cc

refused :
    (w : World) (files : List FileSlot) (looked_up : Status × Option Node) (flags : ℕ) (s : Status)
    → w.files ≡ some files
    → s ≢ ok
    → ((j : ℕ)
        → IsFile looked_up
        → first_process_file ≤ j
        → j < max_open_files
        → (slot_at files j).used ≡ false
        → s ≡ ok)
    → Opens files looked_up flags (fail_open w s)
refused w files hit flags s e n wins = record {
  kept = λ _. (refl, e);
  missing = λ _. n;
  succeeds = wins;
  opened = λ fd h. cc;
  lowest = λ fd j h. cc;
}

open_node-Opens :
    (w : World) (files : List FileSlot) (n : Node) (flags : ℕ)
    → w.files ≡ some files
    → length files ≡ max_open_files
    → Opens files (ok, some n) flags (open_node w files n flags)
unfolding open_node
open_node-Opens w files n flags e len =
    if_cases (Opens files (ok, some n) flags) (not (is_file (info n).type))
      (λ other.
        refused w files (ok, some n) flags invalid_state e (λ p. cc)
          (λ j f lo hi free.
            absurd
              (ground (arith, other, ap (λ m. is_file (info m).type) (same_node n f.0 f.1), f.2))))
      (λ is. elim (Option-cases (allocate_slot files)) [
        | inl full ↦
            rw (full, open_node)
              (refused w files (ok, some n) flags out_of_memory e (λ p. cc)
                (λ j f lo hi free.
                  absurd (ground (arith, free, allocate_slot_full files len full j lo hi))))
        | inr (fd, got) ↦
            let a = allocate_slot_sound files fd len got in
            rw (got, open_node)
              (record {
                kept = λ p. absurd (p refl);
                missing = λ p. cc;
                succeeds = λ j f lo hi free. refl;
                opened = λ fd' h.
                    let same : fd ≡ fd' = ground arith in
                    rw (← same) (refl, a.0, a.1, a.2, (n, refl, ground (arith, is), refl));
                lowest = λ fd' j h lo hi. a.3 j lo (ground arith);
              })
      ])

open_found-Opens :
    (w : World) (files : List FileSlot) (flags : ℕ) (r : Status × Option Node × Vfs)
    → w.files ≡ some files
    → length files ≡ max_open_files
    → IsConsistent (answer r)
    → Opens files (answer r) flags (open_found w files flags r)
unfolding open_found
open_found-Opens w files flags (s, none, v) e len c =
    refused (record w { vfs = v }) files (s, none) flags s e (c.missing refl)
      (λ j f lo hi free. absurd (no_node s f.0 f.1))
open_found-Opens w files flags (s, some n, v) e len c =
    let is_ok : s ≡ ok = c.present (λ p. cc) in
    rw is_ok (open_node-Opens (record w { vfs = v }) files n flags e len)

-- `fd_table_open_current` of a process with a valid table succeeds exactly when the lookup finds a
-- file and some slot from 3 to 15 is free. On success it gives the lowest free descriptor from 3 on,
-- whose slot now holds that file, at offset 0 and with the flags that were asked for, and no other
-- slot changes. On failure it gives no descriptor and no slot changes.
pub open_current-Opens :
    (w : World) (files : List FileSlot) (path : List ℕ) (flags : ℕ)
    → w.files ≡ some files
    → w.fds.initialized ≡ true
    → IsValid files
    → Opens files (answer (lookup w.vfs (some path))) flags (open_current w (some path) flags)
unfolding open_current open_with
open_current-Opens w files path flags e init v =
    if_cases (Opens files (answer (lookup w.vfs (some path))) flags) (not w.fds.initialized)
      (λ n. absurd (ground arith))
      (λ _.
        let noted = record w { fds = note_open w.fds (some path) } in
        subst
          (λ f.
            Opens files (answer (lookup w.vfs (some path))) flags
              (open_with noted f (some path) flags))
          (sym e)
          (open_found-Opens noted files flags (lookup w.vfs (some path)) e v.capacity
            (lookup-IsConsistent w.vfs path)))
