-- ===== src/Vmm/Translation.antt =====
-- The address translation that `vmm_map_page` and `vmm_unmap_page` leave behind, as
-- `vmm_get_physical_address`, `vmm_is_mapped` and `vmm_validate_mapping` report it.
use mathlib.Core.Path.{ap₂}
use liam_os.Base.{
  Bool, add32, ap, arith, false, if_cases, if◌then◌else◌, not, page_align_down, refl, sym, true, ℕ,
  ≡→==, ◌&&◌, ◌+◌, ◌<◌, ◌==◌, ◌^◌, ◌∙◌, ◌≡◌,
}
use liam_os.Vmm.Invariant.{IsValid, page_entry}
use liam_os.Vmm.Mapping.{Maps, aligned_indices, map_page-Maps, same_page, unmap_page-Maps}
use liam_os.Vmm.{
  Vmm, directory_index, flags_are_valid, get_physical_address, has_flags, is_mapped, is_present,
  map_page, page_offset, table_index, unmap_page, validate_mapping,
}

-- What the page walk of the three queries comes to.
get_physical_address_walk :
    (v : Vmm) (a : ℕ)
    → get_physical_address v a ≡ (
        if v.initialized && is_present (page_entry v a)
        then add32 (page_align_down (page_entry v a)) (page_offset a)
        else 0)
unfolding get_physical_address
get_physical_address_walk v a = ground (arith, aligned_indices a)

is_mapped_walk : (v : Vmm) (a : ℕ) → is_mapped v a ≡ (v.initialized && is_present (page_entry v a))
unfolding is_mapped
is_mapped_walk v a = ground (arith, aligned_indices a)

validate_mapping_walk :
    (v : Vmm) (a expected : ℕ)
    → validate_mapping v a expected ≡ (
        v.initialized
        && (flags_are_valid expected
            && (is_present (page_entry v a) && has_flags (page_entry v a) expected)))
unfolding validate_mapping
validate_mapping_walk v a expected = ground (arith, aligned_indices a)

-- What a call that maps or unmaps `virtual` leaves of the entry of the page of `a`.
entry_after :
    {v : Vmm} {r : Bool × Vmm} (virtual word a : ℕ)
    → virtual < 2 ^ 32
    → a < 2 ^ 32
    → Maps v (page_align_down virtual) word r
    → page_entry r.1 a
      ≡ (if r.0 && (page_align_down a == page_align_down virtual) then word else page_entry v a)
entry_after {v} {r} virtual word a h k m =
    m.entries (directory_index a) (table_index a) (omega arith) (omega arith)
    ∙ ground (arith, aligned_indices virtual, same_page a virtual k h)

map_page_success :
    (v : Vmm) (virtual physical flags : ℕ)
    → (map_page v virtual physical flags).0 ≡ true
    → (v.initialized ≡ true) × (flags_are_valid flags ≡ true)
unfolding map_page
map_page_success v virtual physical flags =
    if_cases
      (λ (r : Bool × Vmm). r.0 ≡ true → (v.initialized ≡ true) × (flags_are_valid flags ≡ true))
      (not v.initialized) (λ _ h. cc)
      (λ i.
        if_cases
          (λ (r : Bool × Vmm). r.0 ≡ true → (v.initialized ≡ true) × (flags_are_valid flags ≡ true))
          (not (flags_are_valid flags)) (λ _ h. cc) (λ f _. (ground arith, ground arith)))

-- A present entry's frame: the word that `vmm_map_page` writes.
mapped_word :
    (physical flags : ℕ)
    → flags_are_valid flags ≡ true
    → (is_present (page_align_down physical + 1 + flags) ≡ true)
      × (page_align_down (page_align_down physical + 1 + flags) ≡ page_align_down physical)
      × (has_flags (page_align_down physical + 1 + flags) flags ≡ true)
mapped_word physical flags f = (ground arith, ground arith, ground arith)

-- The translation of an address of a page with entry `e`, and whether there is one.
abbrev translate : Bool → ℕ → ℕ → ℕ
translate i e a = if i && is_present e then add32 (page_align_down e) (page_offset a) else 0

translate-map :
    (i done hit : Bool) (e physical flags a : ℕ)
    → (done ≡ true → (i ≡ true) × (flags_are_valid flags ≡ true))
    → translate i (if done && hit then page_align_down physical + 1 + flags else e) a
      ≡ (if done && hit then add32 (page_align_down physical) (page_offset a) else translate i e a)
translate-map i false hit e physical flags a f = refl
translate-map i true false e physical flags a f = refl
translate-map i true true e physical flags a f =
    let w = mapped_word physical flags (f refl).1 in rw ((f refl).0, w.0, w.1) refl

translate-unmap :
    (i hit : Bool) (e a : ℕ)
    → translate i (if hit then 0 else e) a ≡ (if hit then 0 else translate i e a)
translate-unmap i false e a = refl
translate-unmap false true e a = refl
translate-unmap true true e a = refl

unmap_page-success : (v : Vmm) (virtual : ℕ) → (unmap_page v virtual).0 ≡ is_mapped v virtual
unfolding unmap_page is_mapped
unmap_page-success v virtual = ground arith

present-map :
    (i done hit : Bool) (e physical flags : ℕ)
    → (done ≡ true → (i ≡ true) × (flags_are_valid flags ≡ true))
    → (i && is_present (if done && hit then page_align_down physical + 1 + flags else e))
      ≡ (if done && hit then true else i && is_present e)
present-map i false hit e physical flags f = refl
present-map i true false e physical flags f = refl
present-map i true true e physical flags f =
    let w = mapped_word physical flags (f refl).1 in rw ((f refl).0, w.0) refl

-- `vmm_map_page` keeps the page tables apart, whatever it returns.
-- When it succeeds, addresses of the page translate to the physical page with the same offset; when
-- it fails, they translate as before. Addresses of other pages always translate as before.
pub get_physical_address-map_page :
    (v : Vmm) (virtual physical flags a : ℕ)
    → IsValid v
    → virtual < 2 ^ 32
    → a < 2 ^ 32
    → let r = map_page v virtual physical flags in
      IsValid r.1
      × (get_physical_address r.1 a ≡ (
          if r.0 && (page_align_down a == page_align_down virtual)
          then add32 (page_align_down physical) (page_offset a)
          else get_physical_address v a))
get_physical_address-map_page v virtual physical flags a s h k =
    let r = map_page v virtual physical flags in
    let m = map_page-Maps virtual physical flags s in
    let word = page_align_down physical + 1 + flags in
    (
      m.valid,
      get_physical_address_walk r.1 a
          ∙ ap₂ (λ i e. translate i e a) m.initialized (entry_after virtual word a h k m)
          ∙ translate-map v.initialized r.0 (page_align_down a == page_align_down virtual)
              (page_entry v a) physical flags a (map_page_success v virtual physical flags)
          ∙ ap
              (λ t.
                if r.0 && (page_align_down a == page_align_down virtual)
                then add32 (page_align_down physical) (page_offset a)
                else t)
              (sym (get_physical_address_walk v a)),
    )

granted :
    (i : Bool) (e physical flags : ℕ)
    → i ≡ true
    → flags_are_valid flags ≡ true
    → e ≡ page_align_down physical + 1 + flags
    → (i && (flags_are_valid flags && (is_present e && has_flags e flags))) ≡ true
granted i e physical flags p f h =
    let w = mapped_word physical flags f in rw (p, f, h, w.0, w.2) refl

-- In a valid state, after a successful `vmm_map_page` the page is mapped with the flags that were asked for; other
-- pages are mapped as before.
pub is_mapped-map_page :
    (v : Vmm) (virtual physical flags a : ℕ)
    → IsValid v
    → virtual < 2 ^ 32
    → a < 2 ^ 32
    → let r = map_page v virtual physical flags in
      (is_mapped r.1 a
        ≡ (if r.0 && (page_align_down a == page_align_down virtual) then true else is_mapped v a))
      × (r.0 ≡ true → validate_mapping r.1 virtual flags ≡ true)
is_mapped-map_page v virtual physical flags a s h k =
    let r = map_page v virtual physical flags in
    let m = map_page-Maps virtual physical flags s in
    let word = page_align_down physical + 1 + flags in
    (
      is_mapped_walk r.1 a
          ∙ ap₂ (λ i e. i && is_present e) m.initialized (entry_after virtual word a h k m)
          ∙ present-map v.initialized r.0 (page_align_down a == page_align_down virtual)
              (page_entry v a) physical flags (map_page_success v virtual physical flags)
          ∙ ap (λ t. if r.0 && (page_align_down a == page_align_down virtual) then true else t)
              (sym (is_mapped_walk v a)),
      λ done.
          let u = map_page_success v virtual physical flags done in
          let here : page_entry r.1 virtual ≡ word =
            entry_after virtual word virtual h h m
            ∙ rw (done, ≡→== (page_align_down virtual) (page_align_down virtual) refl) refl in
          validate_mapping_walk r.1 virtual flags
          ∙ granted r.1.initialized (page_entry r.1 virtual) physical flags (m.initialized ∙ u.0)
              u.1 here,
    )

-- In a valid state `vmm_unmap_page` keeps it valid and succeeds exactly on the pages that are mapped, and afterwards that page has no
-- translation, while every other page has the one that it had.
pub get_physical_address-unmap_page :
    (v : Vmm) (virtual a : ℕ)
    → IsValid v
    → virtual < 2 ^ 32
    → a < 2 ^ 32
    → let r = unmap_page v virtual in
      IsValid r.1
      × (r.0 ≡ is_mapped v virtual)
      × (get_physical_address r.1 a ≡ (
          if r.0 && (page_align_down a == page_align_down virtual)
          then 0
          else get_physical_address v a))
get_physical_address-unmap_page v virtual a s h k =
    let r = unmap_page v virtual in
    let m = unmap_page-Maps virtual s in
    (
      m.valid,
      unmap_page-success v virtual,
      get_physical_address_walk r.1 a
          ∙ ap₂ (λ i e. translate i e a) m.initialized (entry_after virtual 0 a h k m)
          ∙ translate-unmap v.initialized (r.0 && (page_align_down a == page_align_down virtual))
              (page_entry v a) a
          ∙ ap (λ t. if r.0 && (page_align_down a == page_align_down virtual) then 0 else t)
              (sym (get_physical_address_walk v a)),
    )
