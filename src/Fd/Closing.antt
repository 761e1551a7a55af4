-- ===== src/Fd/Closing.antt =====
-- `fd_table_close_current`, and that every operation keeps the table valid.
use liam_os.Base.{
  Bool-cases, List, Status, ap, arith, false, get_or-set_self, if_cases, if_false, if◌then◌else◌,
  inc32, inl, inr, invalid_argument, length, length-set, not, not_initialized, ok, refl, set, some,
  true, ℕ, ◌<◌, ◌∙◌, ◌≡◌, ◌≤◌,
}
use liam_os.Fd.Slots.{IsValid}
use liam_os.Fd.{
  FileSlot, World, close_current, close_with, closed, fail_fd_read, first_process_file, is_bad_fd,
  max_open_files, read_current, read_with, slot_at,
}

-- A descriptor that is good names a slot from 3 to 15 that is in use.
good_fd :
    (files : List FileSlot) (fd : ℕ)
    → is_bad_fd files fd ≡ false
    → (first_process_file ≤ fd) × (fd < max_open_files) × ((slot_at files fd).used ≡ true)
unfolding is_bad_fd
good_fd files fd h = (ground arith, ground arith, ground arith)

closed_fd :
    (files : List FileSlot) (fd : ℕ) → fd < length files → is_bad_fd (set files fd closed) fd ≡ true
unfolding is_bad_fd
closed_fd files fd h = ground (arith, get_or-set_self files fd closed closed h)

close_with-some :
    (w : World) (files : List FileSlot) (fd : ℕ)
    → w.files ≡ some files
    → length files ≡ max_open_files
    → let r = close_with w (some files) fd in
      (r.0 ≡ (if is_bad_fd files fd then invalid_argument else ok))
      × (r.1.files ≡ some (if is_bad_fd files fd then files else set files fd closed))
      × (r.1.fds.initialized ≡ w.fds.initialized)
unfolding close_with
close_with-some w files fd e len = elim (Bool-cases (is_bad_fd files fd)) [
  | inl bad ↦ rw bad (refl, e, refl)
  | inr good ↦ rw good (refl, refl, refl)
]

close_current-some :
    (w : World) (files : List FileSlot) (fd : ℕ)
    → w.fds.initialized ≡ true
    → w.files ≡ some files
    → length files ≡ max_open_files
    → let r = close_current w fd in
      (r.0 ≡ (if is_bad_fd files fd then invalid_argument else ok))
      × (r.1.files ≡ some (if is_bad_fd files fd then files else set files fd closed))
      × (r.1.fds.initialized ≡ true)
unfolding close_current
close_current-some w files fd init e len =
    let noted = record w {
      fds = record (w.fds) { close_attempts = inc32 w.fds.close_attempts; last_fd = fd };
    } in
    let run : close_current w fd ≡ close_with noted (some files) fd =
      if_false (not w.fds.initialized) _ _ (ground (arith, init))
      ∙ ap (λ f. close_with noted f fd) e in
    let c = close_with-some noted files fd e len in rw run (c.0, c.1, c.2 ∙ init)

-- The table after the close.
abbrev pub left : List FileSlot → ℕ → List FileSlot
left files fd = if is_bad_fd files fd then files else set files fd closed

left_bad :
    (files : List FileSlot) (fd : ℕ)
    → length files ≡ max_open_files
    → is_bad_fd (left files fd) fd ≡ true
left_bad files fd len = elim (Bool-cases (is_bad_fd files fd)) [
  | inl bad ↦ rw bad bad
  | inr good ↦ rw good (closed_fd files fd (omega (arith, good_fd files fd good, len)))
]

length-left : (files : List FileSlot) (fd : ℕ) → length (left files fd) ≡ length files
length-left files fd =
    if_cases (λ l. length l ≡ length files) (is_bad_fd files fd) (λ _. refl)
      (λ _. length-set files fd closed)

read_bad :
    (w : World) (files : List FileSlot) (fd len : ℕ) (buffer : List ℕ)
    → w.fds.initialized ≡ true
    → w.files ≡ some files
    → is_bad_fd files fd ≡ true
    → (read_current w fd (some buffer) len).0 ≡ invalid_argument
unfolding read_current read_with
read_bad w files fd len buffer init e bad =
    let noted = record w {
      fds = record (w.fds) { read_attempts = inc32 w.fds.read_attempts; last_fd = fd };
    } in
    ap (λ r. r.0)
      (if_false (not w.fds.initialized) (fail_fd_read noted not_initialized buffer)
          (read_with noted w.files fd (some buffer) len) (ground (arith, init))
        ∙ ap (λ f. read_with noted f fd (some buffer) len) e)
    ∙ rw bad refl

-- A descriptor of a process is open: it is from 3 to 15, and its slot is in use.
abbrev pub IsInUse : List FileSlot → ℕ → Type 0
IsInUse files fd =
    (first_process_file ≤ fd) × (fd < max_open_files) × ((slot_at files fd).used ≡ true)

used_fd : (files : List FileSlot) (fd : ℕ) → IsInUse files fd → is_bad_fd files fd ≡ false
unfolding is_bad_fd
used_fd files fd (low, high, used) = ground (arith, used)

-- What `fd_table_close_current` does to the table, and what is left for later calls.
pub record Closes (files : List FileSlot) (fd : ℕ) (r : Status × World) : Type 0 where
  pub freed : IsInUse files fd → (r.0 ≡ ok) × (r.1.files ≡ some (set files fd closed))
  pub refused : ¬ IsInUse files fd → (r.0 ≡ invalid_argument) × (r.1.files ≡ some files)
  pub not_again : (close_current r.1 fd).0 ≡ invalid_argument
  pub not_read :
      (len : ℕ) (buffer : List ℕ) → (read_current r.1 fd (some buffer) len).0 ≡ invalid_argument

-- Closing a descriptor succeeds exactly if it is open, that is from 3 to 15 with its slot in use, and
-- frees its slot and no other; otherwise it gives KERNEL_ERROR_INVALID_ARGUMENT and changes no slot.
-- Afterwards both closing and reading the descriptor give KERNEL_ERROR_INVALID_ARGUMENT.
pub close_current-Closes :
    (w : World) (files : List FileSlot) (fd : ℕ)
    → w.fds.initialized ≡ true
    → w.files ≡ some files
    → IsValid files
    → Closes files fd (close_current w fd)
close_current-Closes w files fd init e v =
    let c = close_current-some w files fd init e v.capacity in
    let room : length (left files fd) ≡ max_open_files = length-left files fd ∙ v.capacity in
    let bad = left_bad files fd v.capacity in
    let again = close_current-some (close_current w fd).1 (left files fd) fd c.2 c.1 room in
    record {
      freed =
          λ used. (c.0 ∙ rw (used_fd files fd used) refl, c.1 ∙ rw (used_fd files fd used) refl);
      refused = λ free. elim (Bool-cases (is_bad_fd files fd)) [
        | inl it ↦ (c.0 ∙ rw it refl, c.1 ∙ rw it refl)
        | inr good ↦ absurd (free (good_fd files fd good))
      ];
      not_again = again.0 ∙ rw bad refl;
      not_read =
          λ len buffer. read_bad (close_current w fd).1 (left files fd) fd len buffer c.2 c.1 bad;
    }
