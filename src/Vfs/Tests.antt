-- ===== src/Vfs/Tests.antt =====
-- Runs of vfs.c's functions, and its theorems at concrete inputs.
use liam_os.Base.{List, [], arith, none, ok, refl, replicate, some, true, ℕ, ◌∷◌, ◌≡◌}
use liam_os.Str.{string_copy, string_length}
use liam_os.Vfs.Lookup.{answer, expected, lookup-expected}
use liam_os.Vfs.Files.{read_contents}
use liam_os.Vfs.Reading.{read_contents_lem}
use liam_os.Vfs.{
  Node, NodeInfo, Vfs, child, count_nodes_recursive, directory, file, find_child, gap, lookup, nil,
  node, walk,
}

abbrev motd_info : NodeInfo
motd_info = record {
  name = some (b'm' ∷ b'o' ∷ []);
  path = [];
  type = file;
  contents = some (72 ∷ 105 ∷ 33 ∷ []);
  size = 3;
  mode = 0;
  flags = 0;
}

abbrev dir_info : NodeInfo
dir_info = record motd_info { name = some (b'e' ∷ []); type = directory; contents = none; size = 0 }

-- / with a null child and the directory e, which holds the file mo.
abbrev motd : Node
motd = node motd_info nil

abbrev tree : Node
tree = node dir_info (gap (child (node dir_info (child motd nil)) nil))

abbrev mounted : Vfs
mounted = record {
  root = some tree;
  initialized = true;
  mounted_nodes = 3;
  lookup_attempts = 0;
  lookup_failures = 0;
  read_attempts = 0;
  read_failures = 0;
  last_status = ok;
  last_path = replicate 128 0;
}

-- //e/mo
abbrev motd_path : List ℕ
motd_path = b'/' ∷ b'/' ∷ b'e' ∷ b'/' ∷ b'm' ∷ b'o' ∷ []

finds : answer (lookup mounted (some motd_path)) ≡ (ok, some motd)
unfolding lookup walk string_copy find_child string_length
finds = refl

counts : count_nodes_recursive tree ≡ 3
unfolding count_nodes_recursive
counts = refl

lookup-expected_example : answer (lookup mounted (some motd_path)) ≡ expected mounted.root motd_path
lookup-expected_example = lookup-expected mounted motd_path refl

read_contents_lem_example :
    let r = read_contents motd_info 1 (0 ∷ 0 ∷ 0 ∷ []) 9 in (r.0 ≡ 2) × (r.1 ≡ 105 ∷ 33 ∷ 0 ∷ [])
read_contents_lem_example =
    read_contents_lem motd_info (72 ∷ 105 ∷ 33 ∷ []) (0 ∷ 0 ∷ 0 ∷ []) 1 9 refl (omega arith)
      (omega arith)
