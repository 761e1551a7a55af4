-- ===== src/Pmm/Regions.antt =====
-- core/kernel/memory/pmm.c: the region that `pmm_initialize` chooses, against the entries of the map.
use liam_os.Base.{
  ==→≡, ==→≢, Bool-cases, add32, ap, arith, inl, inr, ltb, page_size, some, suc, sym, tests, zero,
  ℕ, ◌%◌, ◌-◌, ◌<◌, ◌==◌, ◌^◌, ◌∙◌, ◌≡◌, ◌≢◌, ◌≤◌,
}
use liam_os.Pmm.{MapEntry, Pmm, add_region, align_up, one_mib, scan, usable_base}

-- A region that ends at least a page below the end of the address space.
abbrev pub EndsLow : MapEntry → Type 0
EndsLow e = add32 (e.base_addr % 2 ^ 32) (e.length % 2 ^ 32) < 2 ^ 32 - page_size

-- The address of the entry with number `k` of the map.
unfoldable pub entry_at : (ℕ → MapEntry) → ℕ → ℕ → ℕ
entry_at memory current zero = current
entry_at memory current (suc k) = entry_at memory (add32 current (add32 (memory current).size 4)) k

-- The map reaches to the entry with number `k`.
abbrev pub Reaches : (ℕ → MapEntry) → ℕ → ℕ → ℕ → Type 0
Reaches memory current end k = (j : ℕ) → j ≤ k → entry_at memory current j < end

-- The end of the region, as the kernel reads it.
abbrev pub region_end : MapEntry → ℕ
region_end e = add32 (e.base_addr % 2 ^ 32) (e.length % 2 ^ 32)

-- Usable memory that holds an address on a page boundary, at 1 MiB or above and behind the kernel.
pub record HasRoom (kernel_end : ℕ) (e : MapEntry) (page : ℕ) : Type 0 where
  pub usable : e.type ≡ 1
  pub aligned : page % page_size ≡ 0
  pub above_mib : one_mib ≤ page
  pub behind_kernel : kernel_end ≤ page
  pub inside : (e.base_addr % 2 ^ 32 ≤ page) × (page < region_end e)

-- The allocator's region lies in the entry.
pub record LiesIn (p : Pmm) (e : MapEntry) : Type 0 where
  pub usable : e.type ≡ 1
  pub begins : e.base_addr % 2 ^ 32 ≤ p.allocation_start
  pub ends : p.allocation_end ≡ region_end e

add_region-HasRoom :
    (kernel_end : ℕ) (e : MapEntry) (p : Pmm) (page : ℕ)
    → kernel_end % page_size ≡ 0
    → EndsLow e
    → HasRoom kernel_end e page
    → (add_region kernel_end e p).allocation_start ≢ 0
unfolding add_region usable_base align_up
add_region-HasRoom kernel_end e p page k low r =
    ground (arith, r.usable, r.aligned, r.above_mib, r.behind_kernel, r.inside)

add_region-keeps :
    (kernel_end : ℕ) (e : MapEntry) (p : Pmm)
    → p.allocation_start ≢ 0
    → ((add_region kernel_end e p).allocation_start ≡ p.allocation_start)
      × ((add_region kernel_end e p).allocation_end ≡ p.allocation_end)
unfolding add_region
add_region-keeps kernel_end e p n = ground arith

add_region-LiesIn :
    (kernel_end : ℕ) (e : MapEntry) (p : Pmm)
    → p.allocation_start ≡ 0
    → EndsLow e
    → (add_region kernel_end e p).allocation_start ≢ 0
    → LiesIn (add_region kernel_end e p) e
unfolding add_region usable_base align_up
add_region-LiesIn kernel_end e p z low n = ground arith

-- Once a region is chosen, it stays.
scan-keeps :
    (fuel : ℕ) (memory : ℕ → MapEntry) (kernel_end current end : ℕ) (p : Pmm) {q : Pmm}
    → p.allocation_start ≢ 0
    → scan fuel memory kernel_end current end p ≡ some q
    → (q.allocation_start ≡ p.allocation_start) × (q.allocation_end ≡ p.allocation_end)
unfolding scan
scan-keeps zero memory kernel_end current end p n h = cc
scan-keeps (suc fuel) memory kernel_end current end p {q} n h =
    elim (Bool-cases (ltb current end)) [
      | inl more ↦
          let k = add_region-keeps kernel_end (memory current) p n in
          let ih =
            scan-keeps fuel memory kernel_end _ end _ (λ e. n (sym k.0 ∙ e)) (rw more at h) in
          (ih.0 ∙ k.0, ih.1 ∙ k.1)
      | inr done ↦
          let e : p ≡ q = ground arith in
          (ap (λ r. r.allocation_start) (sym e), ap (λ r. r.allocation_end) (sym e))
    ]

-- An entry with room, as far as the map reaches, is not passed over.
pub scan-finds :
    (fuel : ℕ) (memory : ℕ → MapEntry) (kernel_end current end : ℕ) (p : Pmm) {q : Pmm}
    → kernel_end % page_size ≡ 0
    → ((a : ℕ) → EndsLow (memory a))
    → scan fuel memory kernel_end current end p ≡ some q
    → (k page : ℕ) → Reaches memory current end k
    → HasRoom kernel_end (memory (entry_at memory current k)) page
    → q.allocation_start ≢ 0
unfolding scan entry_at
scan-finds zero memory kernel_end current end p aligned low h k page reach room = cc
scan-finds (suc fuel) memory kernel_end current end p {q} aligned low h zero page reach room =
    elim (Bool-cases (ltb current end)) [
      | inl more ↦ λ e.
          let n =
            add_region-HasRoom kernel_end (memory current) p page aligned (low current) room in
          n (sym (scan-keeps fuel memory kernel_end _ end _ n (rw more at h)).0 ∙ e)
      | inr done ↦ absurd (ground (arith, done, reach 0))
    ]
scan-finds (suc fuel) memory kernel_end current end p {q} aligned low h (suc k) page reach room =
    elim (Bool-cases (ltb current end)) [
      | inl more ↦
          scan-finds fuel memory kernel_end _ end _ aligned low (rw more at h) k page
            (λ j le. reach (suc j) (omega (arith, le))) room
      | inr done ↦ absurd (ground (arith, done, reach 0))
    ]

-- A region that is chosen lies in an entry of the map.
pub scan-LiesIn :
    (fuel : ℕ) (memory : ℕ → MapEntry) (kernel_end current end : ℕ) (p : Pmm) {q : Pmm}
    → ((a : ℕ) → EndsLow (memory a))
    → p.allocation_start ≡ 0
    → scan fuel memory kernel_end current end p ≡ some q
    → q.allocation_start ≢ 0
    → (k : ℕ) × Reaches memory current end k × LiesIn q (memory (entry_at memory current k))
unfolding scan entry_at
scan-LiesIn zero memory kernel_end current end p low z h n = cc
scan-LiesIn (suc fuel) memory kernel_end current end p {q} low z h n =
    elim (Bool-cases (ltb current end)) [
      | inl more ↦
          let r = add_region kernel_end (memory current) p in
          elim (Bool-cases (r.allocation_start == 0)) [
            | inl none_yet ↦
                let ih =
                  scan-LiesIn fuel memory kernel_end _ end r low (==→≡ _ _ none_yet) (rw more at h)
                    n in
                (
                  suc ih.0,
                  elim [
                    | zero ↦ λ _. omega (tests, more)
                    | suc j ↦ λ le. ih.1 j (omega (arith, le))
                  ],
                  ih.2,
                )
            | inr chosen ↦
                let n' = ==→≢ _ _ chosen in
                let lies = add_region-LiesIn kernel_end (memory current) p z (low current) n' in
                let k = scan-keeps fuel memory kernel_end _ end r n' (rw more at h) in
                (
                  0,
                  elim [
                    | zero ↦ λ _. omega (tests, more)
                    | suc j ↦ λ le. absurd (omega (arith, le))
                  ],
                  record {
                    usable = lies.usable;
                    begins = rw k.0 lies.begins;
                    ends = k.1 ∙ lies.ends;
                  },
                )
          ]
      | inr done ↦
          let e : p ≡ q = ground arith in absurd (n (ap (λ r. r.allocation_start) (sym e) ∙ z))
    ]
