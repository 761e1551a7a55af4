-- ===== src/Fd/Cat.antt =====
-- A program that reads a file to its end through a descriptor, as core/userland's `cat` does.
use mathlib.Core.Path.{ap₂}
use liam_os.Base.{
  List, Status, [], ap, arith, drop, if_cases, if◌then◌else◌, length, length-drop, length-replicate,
  length-take, ok, refl, replicate, some, suc, sym, take, tests, zero, ℕ, ◌++◌, ◌+◌, ◌-◌, ◌<◌, ◌==◌,
  ◌∙◌, ◌∷◌, ◌≡◌, ◌≤◌,
}
use liam_os.Vfs.{NodeInfo}
use liam_os.Vfs.Reading.{chunk}
use liam_os.Fd.Reading.{IsOpen, read_current-IsOpen}
use liam_os.Fd.{World, read_current}

-- Reads of `len` bytes until one gives none; the bytes that they gave, in order.
pub read_all : ℕ → World → ℕ → ℕ → List ℕ
read_all zero w fd len = []
read_all (suc fuel) w fd len =
    let (s, (count, buffer), w') = read_current w fd (some (replicate len 0)) len in
    let later = read_all fuel w' fd len in if count == 0 then [] else take count buffer ++ later

take_chunk : (n : ℕ) (xs ys : List ℕ) → n ≤ length xs → take n (take n xs ++ ys) ≡ take n xs
take_chunk zero xs ys h = refl
take_chunk (suc n) [] ys h = absurd (omega arith)
take_chunk (suc n) (x ∷ xs) ys h = ap (λ l. x ∷ l) (take_chunk n xs ys (omega arith))

drop_nil : (n : ℕ) → drop {A = ℕ} n [] ≡ []
drop_nil zero = refl
drop_nil (suc n) = refl

take_cut : (c s : ℕ) (xs : List ℕ) → c ≤ s → take s xs ≡ take c xs ++ drop c (take s xs)
take_cut zero s xs h = refl
take_cut (suc c) zero xs h = absurd (omega arith)
take_cut (suc c) (suc s) [] h = refl
take_cut (suc c) (suc s) (x ∷ xs) h = ap (λ l. x ∷ l) (take_cut c s xs (omega arith))

-- The bytes of a file from an offset on: a chunk, and those from the chunk's end on.
drop_cut :
    (o c s : ℕ) (xs : List ℕ)
    → o + c ≤ s
    → drop o (take s xs) ≡ take c (drop o xs) ++ drop (o + c) (take s xs)
drop_cut zero c s xs h = let e : 0 + c ≡ c = omega arith in rw e (take_cut c s xs (omega arith))
drop_cut (suc o) c zero xs h = absurd (omega arith)
drop_cut (suc o) zero (suc s) [] h = sym (drop_nil (suc o + 0))
drop_cut (suc o) (suc c) (suc s) [] h = sym (drop_nil (suc o + suc c))
drop_cut (suc o) c (suc s) (x ∷ xs) h =
    let e : suc o + c ≡ suc (o + c) = omega arith in rw e (drop_cut o c s xs (omega arith))

drop_all : (n : ℕ) (xs : List ℕ) → length xs ≤ n → drop n xs ≡ []
drop_all zero [] h = refl
drop_all zero (x ∷ xs) h = absurd (omega arith)
drop_all (suc n) [] h = refl
drop_all (suc n) (x ∷ xs) h = drop_all n xs (omega arith)

-- Reading an open file until a read gives nothing ends after at most as many reads as bytes are left
-- and one more, and yields exactly the bytes from the descriptor's offset to the end of the file, in
-- order.
pub read_all-IsOpen :
    (fuel : ℕ) (w : World) (fd len offset : ℕ) (i : NodeInfo) (bytes : List ℕ)
    → IsOpen w fd i bytes offset
    → 0 < len
    → i.size - offset < fuel
    → read_all fuel w fd len ≡ drop offset (take i.size bytes)
unfolding read_all
read_all-IsOpen zero w fd len offset i bytes o pos enough = absurd (omega arith)
read_all-IsOpen (suc fuel) w fd len offset i bytes o pos enough =
    if_cases (λ l. l ≡ drop offset (take i.size bytes)) (r.1.0 == 0)
      (λ done. sym (
        drop_all offset (take i.size bytes)
          (omega (tests, done, facts.1, length-take i.size bytes, o.inside, o.data_long))))
      (λ more.
        ap₂ (λ a b. a ++ b)
          (ap₂ take facts.1 facts.2
            ∙ take_chunk c (drop offset bytes) _
                (omega (arith, length-drop offset bytes, o.data_long, o.inside)))
          (read_all-IsOpen fuel r.2 fd len (offset + c) i bytes facts.3 pos
            (omega (tests, more, facts.1, o.inside, enough)))
        ∙ sym (drop_cut offset c i.size bytes (omega (arith, o.inside))))
  where
    c : ℕ
    c = chunk i offset len

    r : Status × (ℕ × List ℕ) × World
    r = read_current w fd (some (replicate len 0)) len

    facts :
        (r.0 ≡ ok)
        × (r.1.0 ≡ c)
        × (r.1.1 ≡ take c (drop offset bytes) ++ drop c (replicate len 0))
        × IsOpen r.2 fd i bytes (offset + c)
    facts =
        read_current-IsOpen w fd len offset i bytes (replicate len 0) o
          (omega (arith, length-replicate {A = ℕ} len 0))
