-- ===== src/Heap/Requests.antt =====
-- Sequences of calls of `kmalloc` and `kfree` of core/kernel/memory/heap.c.
use liam_os.Base.{
  Bool-cases, List, Option, [], arith, if_cases, inl, inr, none, not, refl, some, true, ℕ, ◌&&◌,
  ◌+◌, ◌-◌, ◌<◌, ◌==◌, ◌^◌, ◌∷◌, ◌≡◌, ◌≤◌,
}
use liam_os.Heap.{Block, Heap, HeapStats, align_up8, recalculate_stats}
use liam_os.Heap.Growth.{grow}
use liam_os.Heap.Operations.{empty_heap, initialize, kfree, kmalloc}
use liam_os.Vmm.{Vmm}
use liam_os.Heap.Tiles.{Tiles, live, Tiles-le}
use liam_os.Heap.Validity.{IsValid, recalculate_stats-HasSameRange, retiled}
use liam_os.Heap.Growing.{grow_lem}
use liam_os.Heap.Grants.{Allocates, kmalloc_lem}
use liam_os.Heap.Freeing.{kfree-IsValid}

pub data Request : Type 0 where
  allocate : ℕ → Request
  release : ℕ → Request

-- The fuel of `kmalloc`: more than the heap's range has pages.
abbrev pub kmalloc_fuel : ℕ
kmalloc_fuel = 4097

abbrev heap_of : Heap → Option (ℕ × Heap) → Heap
heap_of h none = h
heap_of h (some (p, g)) = g

unfoldable pub serve : Heap → Request → Heap
serve h (allocate size) = heap_of h (kmalloc kmalloc_fuel h size)
serve h (release p) = kfree h p

unfoldable pub serve_all : Heap → List Request → Heap
unfolding serve
serve_all h [] = h
serve_all h (r ∷ rs) = serve_all (serve h r) rs

-- The sizes that do not wrap when they are rounded up.
abbrev pub AreSmall : List Request → Type 0
AreSmall [] = Unit {0}
AreSmall (allocate size ∷ rs) = (size < 2 ^ 32 - 7) × AreSmall rs
AreSmall (release p ∷ rs) = AreSmall rs

-- No two payloads share a byte, and each lies in the pages of the heap.
pub record AreDisjoint (h : Heap) : Type 0 where
  pub inside :
      (p n : ℕ) → live h.blocks p ≡ some n → (0xC1000010 ≤ p) × (p + n ≤ h.stats.next_virtual_page)
  pub disjoint :
      (p q m n : ℕ) → live h.blocks p ≡ some m → live h.blocks q ≡ some n → p < q → p + m ≤ q

some_inj : (m n : ℕ) → some m ≡ some n → m ≡ n
some_inj m n e = cc

live-inside :
    (a : ℕ) (bs : List Block) (e p n : ℕ)
    → Tiles a bs e
    → live bs p ≡ some n
    → (a + 16 ≤ p) × (p + n ≤ e)
live-inside a [] e p n t l = absurd (cc)
live-inside a (b ∷ bs) e p n (h1, h2, h3, h4, t) l =
    let le = Tiles-le (a + 16 + b.size) bs e t in
    elim (Bool-cases (b.used && (b.address + 16 == p))) [
      | inl h ↦
          let size : b.size ≡ n = some_inj b.size n (ground (arith, l, h)) in
          ground (arith, h, h1, le, size)
      | inr h ↦
          let (above, below) = live-inside (a + 16 + b.size) bs e p n t (ground (arith, l, h)) in
          (omega (arith, above), below)
    ]

live-disjoint :
    (a : ℕ) (bs : List Block) (e p q m n : ℕ)
    → Tiles a bs e
    → live bs p ≡ some m
    → live bs q ≡ some n
    → p < q
    → p + m ≤ q
live-disjoint a [] e p q m n t l k lt = absurd (cc)
live-disjoint a (b ∷ bs) e p q m n (h1, h2, h3, h4, t) l k lt =
    elim (Bool-cases (b.used && (b.address + 16 == p))) [
      | inl h ↦
          let size : b.size ≡ m = some_inj b.size m (ground (arith, l, h)) in
          let (above, below) =
            live-inside (a + 16 + b.size) bs e q n t (ground (arith, k, h, lt)) in
          ground (arith, h, h1, size, above)
      | inr h ↦
          let l' : live bs p ≡ some m = ground (arith, l, h) in
          let (above, below) = live-inside (a + 16 + b.size) bs e p m t l' in
          live-disjoint (a + 16 + b.size) bs e p q m n t l' (ground (arith, k, h1, above, lt)) lt
    ]

IsValid-AreDisjoint : (h : Heap) → IsValid h → AreDisjoint h
IsValid-AreDisjoint h i = record {
  inside = λ p n l. live-inside 0xC1000000 h.blocks h.stats.next_virtual_page p n i.tiles l;
  disjoint = λ p q m n l k lt.
      live-disjoint 0xC1000000 h.blocks h.stats.next_virtual_page p q m n i.tiles l k lt;
}

empty_heap-IsValid : (v : Vmm) → IsValid (empty_heap v)
empty_heap-IsValid v = record {
  range = record { start_range = refl; end_range = refl };
  low = omega arith;
  high = omega arith;
  page = refl;
  total = refl;
  tiles = refl;
}

initialize-IsValid : (h : Heap) → IsValid (initialize h)
unfolding initialize
initialize-IsValid h =
    let (done, g) = grow (empty_heap h.vmm) 4080 in
    let (i, _, _) = grow_lem (empty_heap h.vmm) 4080 (empty_heap-IsValid h.vmm) in
    let s : HeapStats = record (g.stats) { initialized = true } in
    let same = recalculate_stats-HasSameRange s g.blocks in
    if_cases IsValid (not done) (λ _. i)
      (λ _.
        retiled g (record g { stats = recalculate_stats s g.blocks }) i
          (record {
            same_start = same.same_start;
            same_end = same.same_end;
            same_next = same.same_next;
            same_total = same.same_total;
          })
          i.tiles)

Allocates-IsValid :
    (h : Heap) (size : ℕ) (r : Option (ℕ × Heap)) → Allocates h size r → IsValid (heap_of h r)
Allocates-IsValid h size none a = absurd a
Allocates-IsValid h size (some (p, g)) (i, _) = i

serve_all-IsValid :
    (h : Heap) (rs : List Request) → IsValid h → AreSmall rs → IsValid (serve_all h rs)
unfolding serve_all
serve_all-IsValid h [] i small = i
serve_all-IsValid h (allocate size ∷ rs) i (small, rest) =
    serve_all-IsValid (serve h (allocate size)) rs
      (unfold serve in
        Allocates-IsValid h (align_up8 size) (kmalloc kmalloc_fuel h size)
          (kmalloc_lem kmalloc_fuel h size i small (omega (arith, i.low))))
      rest
serve_all-IsValid h (release p ∷ rs) i small =
    serve_all-IsValid (serve h (release p)) rs (unfold serve in kfree-IsValid h p i) small

-- After `heap_initialize` and any sequence of calls of `kmalloc`, each of fewer than 2 ^ 32 - 7
-- bytes, and of `kfree`, whatever their pointers, the live payloads lie in the heap's pages and no
-- two of them share a byte. No memory manager's answer is assumed.
pub serve_all-AreDisjoint :
    (h : Heap) (rs : List Request) → AreSmall rs → AreDisjoint (serve_all (initialize h) rs)
serve_all-AreDisjoint h rs small =
    IsValid-AreDisjoint (serve_all (initialize h) rs)
      (serve_all-IsValid (initialize h) rs (initialize-IsValid h) small)
