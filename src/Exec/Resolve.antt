-- ===== src/Exec/Resolve.antt =====
-- core/kernel/core/user_image.c: loading a registered program. The copy to the program's page is a
-- parameter, with the results that the two loaders take of it.
use liam_os.Base.{
  List, Option, Status, [], arith, false, if_cases, if◌then◌else◌, inc32, is_success, none, not,
  not_found, refl, some, unsupported, ℕ, ◌∷◌, ◌≡◌,
}
use liam_os.Str.{string_copy, string_equals}
use liam_os.Vfs.{Node, NodeInfo, Vfs, info, lookup}
use liam_os.Elf.{ElfInfo}
use liam_os.Elf.Load.{UserImage, load_from_node}
use liam_os.Flat.{FlatInfo, LoadedImage, load_flat}
use liam_os.Exec.{
  ImageInfo, ImageKind, Registered, elf, embedded, flat_binary, last_path_max, node_found,
  registered_images, resolve_registered_node,
}

-- The image counters, the file system and the counters of the two loaders.
pub record LoaderState : Type 0 where
  pub images : ImageInfo
  pub vfs : Vfs
  pub flat : FlatInfo
  pub elf_info : ElfInfo

-- The end of `user_image_resolve` with a failure.
abbrev pub fail_resolve : LoaderState → Status → Status × Option UserImage × LoaderState
fail_resolve w s = (
  s,
  none,
  record w {
    images = record (w.images) {
      resolve_failures = inc32 w.images.resolve_failures;
      last_status = s;
    };
  },
)

-- The end of `user_image_resolve` with the result of the load.
abbrev pub resolved :
    LoaderState → Status → Option UserImage → Status × Option UserImage × LoaderState
resolved w s image =
    if not (is_success s)
    then fail_resolve w s
    else (s, image, record w { images = record (w.images) { last_status = s } })

abbrev flat_done :
    LoaderState → Status × Option UserImage × FlatInfo → Status × Option UserImage × LoaderState
flat_done w (s, image, n) = resolved (record w { flat = n }) s image

abbrev elf_done :
    LoaderState → Status × Option UserImage × ElfInfo → Status × Option UserImage × LoaderState
elf_done w (s, image, n) = resolved (record w { elf_info = n }) s image

-- What `user_image_resolve` notes first.
abbrev noted_resolve : LoaderState → List ℕ → LoaderState
noted_resolve w path = record w {
  images = record (w.images) {
    resolve_attempts = inc32 w.images.resolve_attempts;
    last_path = string_copy w.images.last_path path last_path_max;
  };
}

module _ (flat_load : List ℕ → ℕ → Status × LoadedImage) (elf_load : List ℕ → ℕ → Status × ℕ) where
  -- The `switch` of `user_image_load_registered`
  unfoldable pub load_kind :
      LoaderState → ImageKind → NodeInfo → Status × Option UserImage × LoaderState
  unfolding load_flat load_from_node
  load_kind w flat_binary i = flat_done w (load_flat flat_load w.flat (some i))
  load_kind w elf i = elf_done w (load_from_node elf_load w.elf_info (some i))
  load_kind w embedded i = fail_resolve w unsupported

  -- `user_image_load_registered` behind the lookup
  abbrev pub load_found :
      LoaderState
      → Registered
      → Status × Option Node × Vfs
      → Status × Option UserImage × LoaderState
  load_found w r (s, none, v) = fail_resolve (record w { vfs = v }) s
  load_found w r (s, some n, v) = load_kind (record w { vfs = v }) r.kind (info n)

  -- The loop of `user_image_resolve`
  unfoldable pub resolve_among :
      List Registered → LoaderState → List ℕ → Status × Option UserImage × LoaderState
  unfolding resolve_registered_node load_kind
  resolve_among [] w path = fail_resolve w not_found
  resolve_among (r ∷ rs) w path =
      let later = resolve_among rs w path in
      if string_equals path r.path then load_found w r (resolve_registered_node w.vfs r) else later

  -- `user_image_resolve` of a path that is not null
  unfoldable pub resolve_image : LoaderState → List ℕ → Status × Option UserImage × LoaderState
  unfolding resolve_among registered_images
  resolve_image w path = resolve_among registered_images (noted_resolve w path) path

-- What the failures are after a call with this status.
abbrev Counts : LoaderState → Status × Option UserImage × LoaderState → Type 0
Counts w r =
    r.2.images.resolve_failures
    ≡ (if is_success r.0 then w.images.resolve_failures else inc32 w.images.resolve_failures)

resolved-Counts :
    (w : LoaderState) (s : Status) (image : Option UserImage) → Counts w (resolved w s image)
resolved-Counts w s image = ground arith

fail_resolve-Counts :
    (w : LoaderState) (s : Status) → is_success s ≡ false → Counts w (fail_resolve w s)
fail_resolve-Counts w s h = ground (arith, h)

-- A lookup that finds nothing has failed.
node_found-fails :
    (r : Status × Option Node × Vfs) → (node_found r).1 ≡ none → is_success (node_found r).0 ≡ false
node_found-fails (s, none, v) h = ground arith
node_found-fails (s, some n, v) h = ground (arith, h)

module _ (flat_load : List ℕ → ℕ → Status × LoadedImage) (elf_load : List ℕ → ℕ → Status × ℕ) where
  load_kind-Counts :
      (w : LoaderState) (k : ImageKind) (i : NodeInfo)
      → Counts w (load_kind flat_load elf_load w k i)
  unfolding load_kind
  load_kind-Counts w flat_binary i =
      let r = load_flat flat_load w.flat (some i) in
      resolved-Counts (record w { flat = r.2 }) r.0 r.1
  load_kind-Counts w elf i =
      let r = load_from_node elf_load w.elf_info (some i) in
      resolved-Counts (record w { elf_info = r.2 }) r.0 r.1
  load_kind-Counts w embedded i = refl

  load_found-Counts :
      (w : LoaderState) (g : Registered) (r : Status × Option Node × Vfs)
      → (r.1 ≡ none → is_success r.0 ≡ false)
      → Counts w (load_found flat_load elf_load w g r)
  load_found-Counts w g (s, none, v) h = fail_resolve-Counts (record w { vfs = v }) s (h refl)
  load_found-Counts w g (s, some n, v) h = load_kind-Counts (record w { vfs = v }) g.kind (info n)

  resolve_among-Counts :
      (rs : List Registered) (w : LoaderState) (path : List ℕ)
      → Counts w (resolve_among flat_load elf_load rs w path)
  unfolding resolve_among resolve_registered_node
  resolve_among-Counts [] w path = refl
  resolve_among-Counts (r ∷ rs) w path =
      if_cases (Counts w) (string_equals path r.path)
        (λ _.
          load_found-Counts w r (resolve_registered_node w.vfs r)
            (node_found-fails (lookup w.vfs (some r.path))))
        (λ _. resolve_among-Counts rs w path)

  -- Resolving a path counts a failure exactly when it gives no success.
  pub resolve_image-failures :
      (w : LoaderState) (path : List ℕ)
      → let r = resolve_image flat_load elf_load w path in
        r.2.images.resolve_failures
        ≡ (if is_success r.0 then w.images.resolve_failures else inc32 w.images.resolve_failures)
  unfolding resolve_image
  resolve_image-failures w path = resolve_among-Counts registered_images (noted_resolve w path) path
