-- ===== src/Fd/Tests.antt =====
-- Runs of fd_table.c's functions, and its theorems at concrete inputs.
use liam_os.Base.{List, [], ap, arith, ok, refl, replicate, set, some, suc, true, zero, ℕ, ◌∷◌, ◌≡◌}
use liam_os.Str.{string_copy, string_length}
use liam_os.Vfs.Files.{read_contents, read_node}
use liam_os.Vfs.Lookup.{answer}
use liam_os.Vfs.{Node, NodeInfo, Vfs, child, directory, file, find_child, lookup, nil, node, walk}
use liam_os.Fd.Slots.{IsValid, set-IsValid}
use liam_os.Fd.Operations.{Opens, open_current-Opens}
use liam_os.Fd.Reading.{IsOpen, read_current-IsOpen}
use liam_os.Fd.Cat.{read_all, read_all-IsOpen}
use liam_os.Fd.Closing.{close_current-Closes}
use liam_os.Fd.{FileSlot, World, close_current, closed, open_current, read_current, slot_at}

abbrev greeting : List ℕ
greeting = 72 ∷ 105 ∷ 33 ∷ []

abbrev greeting_info : NodeInfo
greeting_info = record {
  name = some (b'h' ∷ []);
  path = [];
  type = file;
  contents = some greeting;
  size = 3;
  mode = 0;
  flags = 0;
}

abbrev greeting_node : Node
greeting_node = node greeting_info nil

-- The root directory with the file h.
abbrev small_vfs : Vfs
small_vfs = record {
  root = some (node (record greeting_info { type = directory }) (child greeting_node nil));
  initialized = true;
  mounted_nodes = 2;
  lookup_attempts = 0;
  lookup_failures = 0;
  read_attempts = 0;
  read_failures = 0;
  last_status = ok;
  last_path = [];
}

-- The file h at offset 1 in slot 3.
abbrev open_slot : FileSlot
open_slot = record { used = true; node = some greeting_node; offset = 1; flags = 0 }

abbrev one_open : List FileSlot
one_open = set (replicate 16 closed) 3 open_slot

abbrev reader : World
reader = record {
  fds = record {
    initialized = true;
    open_attempts = 1;
    successful_opens = 1;
    failed_opens = 0;
    read_attempts = 0;
    successful_reads = 0;
    failed_reads = 0;
    close_attempts = 0;
    successful_closes = 0;
    failed_closes = 0;
    last_status = ok;
    last_fd = 3;
    last_path = [];
  };
  vfs = small_vfs;
  files = some one_open;
}

slot_at-replicate : (n fd : ℕ) → slot_at (replicate n closed) fd ≡ closed
slot_at-replicate zero fd = refl
slot_at-replicate (suc n) zero = refl
slot_at-replicate (suc n) (suc fd) = slot_at-replicate n fd

empty-IsValid : IsValid (replicate 16 closed)
empty-IsValid = record {
  capacity = refl;
  reserved = λ fd h. ap (λ t. t.used) (slot_at-replicate 16 fd);
  held = λ fd h. absurd (ground (arith, h, ap (λ t. t.used) (slot_at-replicate 16 fd)));
}

one_open-IsValid : IsValid one_open
one_open-IsValid =
    set-IsValid (replicate 16 closed) 3 open_slot empty-IsValid (omega arith) (omega arith)
      (λ _. refl)

reader-IsOpen : IsOpen reader 3 greeting_info greeting 1
reader-IsOpen = record {
  files = one_open;
  node = greeting_node;
  fds_ready = refl;
  vfs_ready = refl;
  has_files = refl;
  room = refl;
  not_reserved = omega arith;
  in_table = omega arith;
  in_use = refl;
  names = refl;
  described = refl;
  regular = refl;
  data_there = refl;
  data_long = omega arith;
  size_small = omega arith;
  at = refl;
  inside = omega arith;
}

-- /h
abbrev greeting_path : List ℕ
greeting_path = b'/' ∷ b'h' ∷ []

-- The next free slot is 4, since 3 is in use.
opens : (open_current reader (some greeting_path) 1).1 ≡ some 4
unfolding open_current lookup string_copy walk find_child string_length
opens = refl

reads : (read_current reader 3 (some (0 ∷ 0 ∷ [])) 2).1 ≡ (2, 105 ∷ 33 ∷ [])
unfolding read_current read_node read_contents
reads = refl

open_current-Opens_example :
    Opens one_open
      (answer (lookup small_vfs (some greeting_path)))
      1
      (open_current reader (some greeting_path) 1)
open_current-Opens_example =
    open_current-Opens reader one_open greeting_path 1 refl refl one_open-IsValid

read_current-IsOpen_example : (read_current reader 3 (some (0 ∷ 0 ∷ [])) 2).1.0 ≡ 2
read_current-IsOpen_example =
    (read_current-IsOpen reader 3 2 1 greeting_info greeting (0 ∷ 0 ∷ []) reader-IsOpen
      (omega arith)).1

read_all-IsOpen_example : read_all 4 reader 3 1 ≡ 105 ∷ 33 ∷ []
read_all-IsOpen_example =
    read_all-IsOpen 4 reader 3 1 1 greeting_info greeting reader-IsOpen (omega arith) (omega arith)

close_current-Closes_example : (close_current reader 3).0 ≡ ok
close_current-Closes_example =
    ((close_current-Closes reader one_open 3 refl refl one_open-IsValid).freed
      (omega arith, omega arith, refl)).0
