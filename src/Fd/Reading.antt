-- ===== src/Fd/Reading.antt =====
-- Reading an open file through its descriptor: one read, and reading to the end.
use mathlib.Core.Path.{ap₂}
use liam_os.Base.{
  List, add32, ap, arith, drop, false, get_or-set_self, if_cases, if_false, inc32, length,
  length-set, not, ok, refl, set, some, subst, sym, take, true, ℕ, ◌++◌, ◌+◌, ◌<◌, ◌^◌, ◌∙◌, ◌≡◌,
  ◌≤◌,
}
use liam_os.Vfs.{Node, NodeInfo, Vfs, info, is_file}
use liam_os.Vfs.Files.{read_contents, read_node}
use liam_os.Vfs.Reading.{chunk, read_contents_lem}
use liam_os.Fd.{
  FileSlot, World, closed, first_process_file, is_bad_fd, max_open_files, read_current, read_done,
  read_slot, read_with, slot_at,
}

-- Descriptor `fd` of the current process is open at `offset` on a file of `bytes`.
pub record IsOpen (w : World) (fd : ℕ) (i : NodeInfo) (bytes : List ℕ) (offset : ℕ) : Type 0 where
  pub files : List FileSlot
  pub node : Node
  pub fds_ready : w.fds.initialized ≡ true
  pub vfs_ready : w.vfs.initialized ≡ true
  pub has_files : w.files ≡ some files
  pub room : length files ≡ max_open_files
  pub not_reserved : first_process_file ≤ fd
  pub in_table : fd < max_open_files
  pub in_use : (slot_at files fd).used ≡ true
  pub names : (slot_at files fd).node ≡ some node
  pub described : info node ≡ i
  pub regular : is_file i.type ≡ true
  pub data_there : i.contents ≡ some bytes
  pub data_long : i.size ≤ length bytes
  pub size_small : i.size < 2 ^ 32
  pub at : (slot_at files fd).offset ≡ offset
  pub inside : offset ≤ i.size

-- The counters after a read that succeeds.
abbrev read_vfs : Vfs → Vfs
read_vfs v = record v { read_attempts = inc32 v.read_attempts; last_status = ok }

read_node-ok :
    (v : Vfs) (n : Node) (offset len : ℕ) (buffer : List ℕ)
    → v.initialized ≡ true
    → is_file (info n).type ≡ true
    → read_node v (some n) offset (some buffer) len
      ≡ (ok, read_contents (info n) offset buffer len, read_vfs v)
unfolding read_node
read_node-ok v n offset len buffer init is =
    if_cases (λ r. r ≡ (ok, read_contents (info n) offset buffer len, read_vfs v))
      (not v.initialized) (λ h. absurd (ground arith))
      (λ _.
        if_cases (λ r. r ≡ (ok, read_contents (info n) offset buffer len, read_vfs v))
          (is_file (info n).type) (λ _. refl) (λ h. absurd (cc)))

abbrev read_world : World → List FileSlot → ℕ → ℕ → World
read_world w files fd count = record w {
  vfs = read_vfs w.vfs;
  files =
      some (
        set files fd
          (record (slot_at files fd) { offset = add32 (slot_at files fd).offset count }));
  fds = record (w.fds) {
    read_attempts = inc32 w.fds.read_attempts;
    last_fd = fd;
    successful_reads = inc32 w.fds.successful_reads;
    last_status = ok;
  };
}

is_good_fd :
    (files : List FileSlot) (fd : ℕ)
    → first_process_file ≤ fd
    → fd < max_open_files
    → (slot_at files fd).used ≡ true
    → is_bad_fd files fd ≡ false
unfolding is_bad_fd
is_good_fd files fd lo hi u = rw u (ground arith)

-- One `fd_table_read_current`: what `vfs_read_node` gives at the slot's offset.
read_current_step :
    (w : World) (fd len offset : ℕ) (i : NodeInfo) (bytes buffer : List ℕ)
    (o : IsOpen w fd i bytes offset)
    → read_current w fd (some buffer) len ≡ (
      ok,
      read_contents i offset buffer len,
      read_world w o.files fd (read_contents i offset buffer len).0,
    )
unfolding read_current read_with read_slot read_done
read_current_step w fd len offset i bytes buffer o =
    if_false (not w.fds.initialized) _ _ (ground (arith, o.fds_ready))
    ∙ ap (λ f. read_with noted f fd (some buffer) len) o.has_files
    ∙ if_false (is_bad_fd o.files fd) _ _ (is_good_fd o.files fd o.not_reserved o.in_table o.in_use)
    ∙ ap (λ n. read_slot noted o.files fd n buffer len) o.names
    ∙ if_false (not (is_file (info o.node).type)) _ _ (rw (o.described, o.regular) refl)
    ∙ ap (read_done noted o.files fd) (
        read_node-ok w.vfs o.node (slot_at o.files fd).offset len buffer o.vfs_ready
          (rw o.described o.regular))
    ∙ ap₂
        (λ j a. (
          ok,
          read_contents j a buffer len,
          read_world w o.files fd (read_contents j a buffer len).0,
        ))
        o.described o.at
  where
    noted : World
    noted = record w {
      fds = record (w.fds) { read_attempts = inc32 w.fds.read_attempts; last_fd = fd };
    }

-- After it the descriptor is open further on.
read_world-IsOpen :
    (w : World) (fd count offset : ℕ) (i : NodeInfo) (bytes : List ℕ)
    (o : IsOpen w fd i bytes offset)
    → offset + count ≤ i.size
    → IsOpen (read_world w o.files fd count) fd i bytes (offset + count)
read_world-IsOpen w fd count offset i bytes o h =
    let slot = record (slot_at o.files fd) { offset = add32 (slot_at o.files fd).offset count } in
    let here : slot_at (set o.files fd slot) fd ≡ slot =
      get_or-set_self o.files fd slot closed (omega (arith, o.room, o.in_table)) in
    record {
      files = set o.files fd slot;
      node = o.node;
      fds_ready = o.fds_ready;
      vfs_ready = o.vfs_ready;
      has_files = refl;
      room = length-set o.files fd slot ∙ o.room;
      not_reserved = o.not_reserved;
      in_table = o.in_table;
      in_use = ap (λ t. t.used) here ∙ o.in_use;
      names = ap (λ t. t.node) here ∙ o.names;
      described = o.described;
      regular = o.regular;
      data_there = o.data_there;
      data_long = o.data_long;
      size_small = o.size_small;
      at = ap (λ t. t.offset) here ∙ omega (arith, o.at, o.size_small, h);
      inside = h;
    }

-- One read through an open descriptor: it copies the next chunk of the file to the front of the
-- buffer, reports its length, and moves the descriptor's offset on by that much.
pub read_current-IsOpen :
    (w : World) (fd len offset : ℕ) (i : NodeInfo) (bytes buffer : List ℕ)
    → IsOpen w fd i bytes offset
    → chunk i offset len ≤ length buffer
    → let r = read_current w fd (some buffer) len in
      (r.0 ≡ ok)
      × (r.1.0 ≡ chunk i offset len)
      × (r.1.1 ≡ take (chunk i offset len) (drop offset bytes) ++ drop (chunk i offset len) buffer)
      × IsOpen r.2 fd i bytes (offset + chunk i offset len)
read_current-IsOpen w fd len offset i bytes buffer o room =
    let c = read_contents_lem i bytes buffer offset len o.data_there o.data_long room in
    rw (read_current_step w fd len offset i bytes buffer o) (
      refl,
      c.0,
      c.1,
      subst (λ n. IsOpen (read_world w o.files fd n) fd i bytes (offset + chunk i offset len))
          (sym c.0)
          (read_world-IsOpen w fd (chunk i offset len) offset i bytes o (omega (arith, o.inside))),
    )
