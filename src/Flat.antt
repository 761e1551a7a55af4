-- ===== src/Flat.antt =====
-- core/kernel/loader/flat_binary.c: programs that are one run of code. `ring3_load_user_image` is a
-- parameter, as in Elf/Load.antt: it gets the bytes and the size.
use liam_os.Base.{
  Bool, List, Option, Status, arith, if◌then◌else◌, inc32, invalid_argument, invalid_state,
  is_success, none, not, not_initialized, ok, set, some, true, ℕ, ◌&&◌, ◌==◌, ◌||◌, ◌↔◌, ◌≡◌,
}
use liam_os.Str.{string_copy}
use liam_os.Vfs.{NodeInfo, is_file}
use liam_os.Elf.{file_bytes, has_data}
use liam_os.Elf.Load.{UserImage, basename}

-- `flat_binary_loader_info_t`
pub record FlatInfo : Type 0 where
  pub initialized : Bool
  pub load_attempts : ℕ
  pub successful_loads : ℕ
  pub failed_loads : ℕ
  pub last_image_size : ℕ
  pub last_entry : ℕ
  pub last_stack_top : ℕ
  pub last_status : Status
  pub last_path : List ℕ

-- `ring3_loaded_image_t`
pub record LoadedImage : Type 0 where
  pub entry : ℕ
  pub user_stack_top : ℕ
  pub image_size : ℕ

-- `flat_binary_loader_initialize`
unfoldable pub initialize_flat : FlatInfo → FlatInfo
initialize_flat n = record {
  initialized = true;
  load_attempts = 0;
  successful_loads = 0;
  failed_loads = 0;
  last_image_size = 0;
  last_entry = 0;
  last_stack_top = 0;
  last_status = ok;
  last_path = set n.last_path 0 0;
}

abbrev fail_flat : FlatInfo → Status → Status × Option UserImage × FlatInfo
fail_flat n s = (s, none, record n { failed_loads = inc32 n.failed_loads; last_status = s })

-- `flat_binary_load_from_node` behind the load, whose result is stored when it succeeds
abbrev pub flat_loaded :
    FlatInfo → NodeInfo → Status × LoadedImage → Status × Option UserImage × FlatInfo
flat_loaded n i (s, l) = if not (is_success s) then fail_flat n s else (
  ok,
  some (record {
    path = i.path;
    name = basename i.path;
    entry = l.entry;
    user_stack_top = l.user_stack_top;
    image_size = l.image_size;
    flags = 0;
  }),
  record n {
    successful_loads = inc32 n.successful_loads;
    last_image_size = l.image_size;
    last_entry = l.entry;
    last_stack_top = l.user_stack_top;
    last_status = ok;
  },
)

flat_loaded-ok_iff :
    (n : FlatInfo) (i : NodeInfo) (r : Status × LoadedImage)
    → ((flat_loaded n i r).0 ≡ ok) ↔ (is_success r.0 ≡ true)
flat_loaded-ok_iff n i (s, l) = (ground arith, ground arith)

module _ (ring3_load : List ℕ → ℕ → Status × LoadedImage) where
  -- `flat_binary_load_from_node`: the status, the image and the new counters.
  unfoldable pub load_flat : FlatInfo → Option NodeInfo → Status × Option UserImage × FlatInfo
  load_flat n none =
      if not n.initialized then (not_initialized, none, n) else fail_flat n invalid_argument
  load_flat n (some i) =
      let noted : FlatInfo = record n {
        load_attempts = inc32 n.load_attempts;
        last_path = string_copy n.last_path i.path 64;
      } in
      if not n.initialized
      then (not_initialized, none, n)
      else if not (is_file i.type) || (not (has_data i) || (i.size == 0))
      then fail_flat noted invalid_state
      else flat_loaded noted i (ring3_load (file_bytes i) i.size)

  -- A load succeeds exactly with a loader that is initialized, on a file with bytes, when the copy to
  -- the program's page does.
  pub load_flat-ok_iff :
      (n : FlatInfo) (i : NodeInfo)
      → (load_flat n (some i)).0 ≡ ok ↔ (
          n.initialized
            && (is_file i.type && (has_data i && not (i.size == 0)))
            && is_success (ring3_load (file_bytes i) i.size).0
          ≡ true)
  unfolding load_flat
  load_flat-ok_iff n i =
      let h : FlatInfo = record n {
        load_attempts = inc32 n.load_attempts;
        last_path = string_copy n.last_path i.path 64;
      } in
      let (to, from) = flat_loaded-ok_iff h i (ring3_load (file_bytes i) i.size) in
      (ground (arith, to, from), ground (arith, to, from))
