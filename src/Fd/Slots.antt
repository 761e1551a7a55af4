-- ===== src/Fd/Slots.antt =====
-- Which slot `fd_table_allocate_slot` finds, and the table's invariant under a write to one slot.
use liam_os.Base.{
  ==→≡, ==→≢, Bool, Bool-cases, List, Option, [], ap, arith, drop, false, get_or-set_ne,
  get_or-set_self, if_cases, if◌then◌else◌, inl, inr, length, length-drop, length-set, none, refl,
  set, some, subst, suc, sym, true, zero, ℕ, ◌+◌, ◌-◌, ◌<◌, ◌==◌, ◌∙◌, ◌∷◌, ◌≡◌, ◌≤◌,
}
use liam_os.Vfs.{Node, info, is_file}
use liam_os.Fd.{
  FileSlot, allocate_slot, closed, find_slot, first_process_file, max_open_files, slot_at,
}

abbrev pub holds_file : Option Node → Bool
holds_file none = false
holds_file (some n) = is_file (info n).type

-- A process's table: 16 slots, the first three never used, and a file in every slot in use.
pub record IsValid (files : List FileSlot) : Type 0 where
  pub capacity : length files ≡ max_open_files
  pub reserved : (fd : ℕ) → fd < first_process_file → (slot_at files fd).used ≡ false
  pub held : (fd : ℕ) → (slot_at files fd).used ≡ true → holds_file (slot_at files fd).node ≡ true

-- The slots before the one that is found are in use, and it is not.
find_slot_sound :
    (slots : List FileSlot) (i fd : ℕ)
    → find_slot i slots ≡ some fd
    → (k : ℕ) × (fd ≡ i + k)
      × (k < length slots)
      × ((slot_at slots k).used ≡ false)
      × ((j : ℕ) → j < k → (slot_at slots j).used ≡ true)
unfolding find_slot
find_slot_sound [] i fd h = cc
find_slot_sound (s ∷ slots) i fd h = elim (Bool-cases s.used) [
  | inl in_use ↦
      let r = find_slot_sound slots (i + 1) fd (ground (arith, h, in_use)) in
      (
        suc r.0,
        omega (arith, r.1),
        omega (arith, r.2),
        r.3,
        elim [ zero ↦ λ _. in_use | suc j ↦ λ l. r.4 j (omega arith) ],
      )
  | inr free ↦ (0, ground (arith, h, free), omega arith, free, λ j l. absurd (omega arith))
]

-- Only a full table has no slot to give.
find_slot_full :
    (slots : List FileSlot) (i : ℕ)
    → find_slot i slots ≡ none
    → (j : ℕ) → j < length slots
    → (slot_at slots j).used ≡ true
unfolding find_slot
find_slot_full [] i h j l = absurd (omega arith)
find_slot_full (s ∷ slots) i h zero l = ground arith
find_slot_full (s ∷ slots) i h (suc j) l =
    find_slot_full slots (i + 1) (ground arith) j (omega arith)

slot_at-drop :
    (n : ℕ) (files : List FileSlot) (k : ℕ) → slot_at (drop n files) k ≡ slot_at files (n + k)
slot_at-drop zero files k = ap (slot_at files) (omega arith)
slot_at-drop (suc n) [] k = refl
slot_at-drop (suc n) (s ∷ files) k =
    let e : suc n + k ≡ suc (n + k) = omega arith in rw e (slot_at-drop n files k)

shifted :
    (files : List FileSlot) (j : ℕ)
    → 3 ≤ j
    → (slot_at files j).used ≡ (slot_at (drop 3 files) (j - 3)).used
shifted files j h =
    let e : 3 + (j - 3) ≡ j = omega arith in
    sym (ap (λ t. t.used) (slot_at-drop 3 files (j - 3) ∙ ap (slot_at files) e))

-- The slot that `fd_table_allocate_slot` gives is the lowest free one from 3 on.
pub allocate_slot_sound :
    (files : List FileSlot) (fd : ℕ)
    → length files ≡ max_open_files
    → allocate_slot files ≡ some fd
    → (first_process_file ≤ fd)
      × (fd < max_open_files)
      × ((slot_at files fd).used ≡ false)
      × ((j : ℕ) → first_process_file ≤ j → j < fd → (slot_at files j).used ≡ true)
unfolding allocate_slot
allocate_slot_sound files fd len h =
    let r = find_slot_sound (drop 3 files) 3 fd h in
    let at = slot_at-drop 3 files r.0 in
    (
      omega (arith, r.1),
      omega (arith, r.1, r.2, length-drop 3 files),
      rw (sym r.1) at (sym (ap (λ t. t.used) at) ∙ r.3),
      λ j lo hi. shifted files j lo ∙ r.4 (j - 3) (omega (arith, r.1)),
    )

-- Only if every slot from 3 on is in use does it give none.
pub allocate_slot_full :
    (files : List FileSlot)
    → length files ≡ max_open_files
    → allocate_slot files ≡ none
    → (j : ℕ) → first_process_file ≤ j
    → j < max_open_files
    → (slot_at files j).used ≡ true
unfolding allocate_slot
allocate_slot_full files len h j lo hi =
    shifted files j lo
    ∙ find_slot_full (drop 3 files) 3 h (j - 3) (omega (arith, length-drop 3 files))

-- Reading a slot after a write to one in range.
pub slot_at-set :
    (files : List FileSlot) (fd j : ℕ) (s : FileSlot)
    → fd < length files
    → slot_at (set files fd s) j ≡ (if j == fd then s else slot_at files j)
slot_at-set files fd j s h = elim (Bool-cases (j == fd)) [
  | inl here ↦
      let e : j ≡ fd = ==→≡ _ _ here in
      rw here (ap (slot_at (set files fd s)) e ∙ get_or-set_self files fd s closed h)
  | inr away ↦ rw away (get_or-set_ne files fd j s closed (λ e. ==→≢ _ _ away (sym e)))
]

-- A write of a slot that is closed or holds a file keeps the invariant.
pub set-IsValid :
    (files : List FileSlot) (fd : ℕ) (s : FileSlot)
    → IsValid files
    → first_process_file ≤ fd
    → fd < max_open_files
    → (s.used ≡ true → holds_file s.node ≡ true)
    → IsValid (set files fd s)
set-IsValid files fd s v lo hi good =
    let at = λ (j : ℕ). slot_at-set files fd j s (omega (arith, v.capacity)) in
    record {
      capacity = length-set files fd s ∙ v.capacity;
      reserved = λ j h. ap (λ t. t.used) (at j) ∙ ground (arith, v.reserved j h);
      held = λ j.
          subst (λ t. t.used ≡ true → holds_file t.node ≡ true) (sym (at j))
            (if_cases (λ (t : FileSlot). t.used ≡ true → holds_file t.node ≡ true) (j == fd)
              (λ _. good) (λ _. v.held j));
    }
