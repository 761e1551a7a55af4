-- ===== src/Vfs/Reading.antt =====
-- `vfs_read_node` against the file's bytes.
use liam_os.Base.{
  List, [], ap, arith, drop, false, if_cases, leb, length, length-drop, min, refl, some, suc, take,
  zero, ℕ, ◌++◌, ◌-◌, ◌<◌, ◌==◌, ◌||◌, ◌∷◌, ◌≡◌, ◌≤◌,
}
use liam_os.Vfs.Files.{bytes_to_read, copy_bytes, read_contents}
use liam_os.Vfs.{NodeInfo}

copy_bytes_lem :
    (n : ℕ) (bytes buffer : List ℕ)
    → n ≤ length bytes
    → n ≤ length buffer
    → copy_bytes n bytes buffer ≡ take n bytes ++ drop n buffer
unfolding copy_bytes
copy_bytes_lem zero bytes buffer h k = refl
copy_bytes_lem (suc n) [] buffer h k = absurd (omega arith)
copy_bytes_lem (suc n) (c ∷ bytes) [] h k = absurd (omega arith)
copy_bytes_lem (suc n) (c ∷ bytes) (b ∷ buffer) h k =
    ap (λ l. c ∷ l) (copy_bytes_lem n bytes buffer (omega arith) (omega arith))

bytes_to_read_lem : (len available : ℕ) → bytes_to_read len available ≡ min (min len available) 512
unfolding bytes_to_read
bytes_to_read_lem len available = ground arith

-- How much one read gives: what was asked for, at most what follows the offset, at most 512.
abbrev pub chunk : NodeInfo → ℕ → ℕ → ℕ
chunk i offset len = min (min len (i.size - offset)) 512

-- A read of a file whose data is really `size` bytes long copies the next chunk of it into the front
-- of the buffer, leaves the rest of the buffer alone, and reports the chunk's length; at or beyond the
-- end, and for length 0, that is 0. No byte outside the file or the buffer is touched.
pub read_contents_lem :
    (i : NodeInfo) (bytes buffer : List ℕ) (offset len : ℕ)
    → i.contents ≡ some bytes
    → i.size ≤ length bytes
    → chunk i offset len ≤ length buffer
    → let r = read_contents i offset buffer len in
      (r.0 ≡ chunk i offset len)
      × (r.1 ≡ take (chunk i offset len) (drop offset bytes) ++ drop (chunk i offset len) buffer)
unfolding read_contents
read_contents_lem i bytes buffer offset len has fits room =
    rw (has, read_contents)
      (if_cases
        (λ (r : ℕ × List ℕ).
          (r.0 ≡ chunk i offset len)
          × (r.1
              ≡ take (chunk i offset len) (drop offset bytes) ++ drop (chunk i offset len) buffer))
        (leb i.size offset || (len == 0))
        (λ none_left.
          let z : chunk i offset len ≡ 0 = ground (arith, none_left) in rw z (refl, refl))
        (λ more. rw (bytes_to_read_lem len (i.size - offset)) (
          refl,
          copy_bytes_lem (chunk i offset len) (drop offset bytes) buffer
              (omega (arith, length-drop offset bytes, ground_offset more)) room,
        )))
  where
    ground_offset : (leb i.size offset || (len == 0)) ≡ false → offset < i.size
    ground_offset more = ground (arith, more)
