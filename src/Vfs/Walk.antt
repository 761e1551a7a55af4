-- ===== src/Vfs/Walk.antt =====
-- The path walk of `vfs_lookup` against the path's components.
use liam_os.Base.{
  ==→≡, ==→≢, Bool, Bool-cases, List, Option, Option-cases, [], arith, drop, false, if◌then◌else◌,
  inl, inr, invalid_state, length, length-drop, none, not_found, refl, some, suc, sym, take, true,
  zero, ℕ, ◌&&◌, ◌<◌, ◌==◌, ◌∙◌, ◌∷◌, ◌≡◌, ◌≢◌, ◌≤◌,
}
use liam_os.Str.{first, string_length}
use liam_os.Str.Text.{text}
use liam_os.Vfs.{
  Found, Node, NodeInfo, Nodes, child, failed, find_child, find_in, found, gap, info, is_directory,
  is_named, nil, node, on_found, same_bytes, segment_length, skip_slashes, walk,
}

-- A path up to its 0 byte, cut at every '/': the segment that it begins with, and the later
-- segments that are not empty.
abbrev push : List ℕ × List (List ℕ) → List (List ℕ)
push ([], later) = later
push (c ∷ seg, later) = (c ∷ seg) ∷ later

unfoldable pub split : List ℕ → List ℕ × List (List ℕ)
split [] = ([], [])
split (c ∷ s) =
    let (seg, later) = split s in
    if c == 0 then ([], []) else if c == b'/' then ([], push (seg, later)) else (c ∷ seg, later)

unfoldable pub components : List ℕ → List (List ℕ)
unfolding split
components s = push (split s)

-- Equality of lists of bytes.
unfoldable pub is_same : List ℕ → List ℕ → Bool
is_same [] [] = true
is_same [] (d ∷ ds) = false
is_same (c ∷ cs) [] = false
is_same (c ∷ cs) (d ∷ ds) = (c == d) && is_same cs ds

-- Whether a child's name, up to its 0 byte, is the segment.
unfoldable pub is_called : Option (List ℕ) → List ℕ → Bool
unfolding is_same
is_called none seg = false
is_called (some n) seg = is_same (text n) seg

-- The first child whose name is the segment.
unfoldable pub child_named : Nodes → List ℕ → Option Node
unfolding is_called
child_named nil seg = none
child_named (gap cs) seg = child_named cs seg
child_named (child c cs) seg =
    let later = child_named cs seg in if is_called (info c).name seg then some c else later

-- The specification: from a node down the components, one child after the other.
unfoldable pub resolve : Node → List (List ℕ) → Found
unfolding child_named
resolve n [] = found n
resolve (node i cs) (seg ∷ segs) =
    if is_directory i.type
    then elim (child_named cs seg) [ none ↦ failed not_found | some next ↦ resolve next segs ]
    else failed invalid_state

-- What follows a segment, and the segment itself, in terms of its length.
split_segment : (s : List ℕ) → (split s).0 ≡ take (segment_length s) s
unfolding split segment_length
split_segment [] = refl
split_segment (c ∷ s) = ground (arith, split_segment s)

split_later : (s : List ℕ) → (split s).1 ≡ components (drop (segment_length s) s)
unfolding split segment_length components
split_later [] = refl
split_later (c ∷ s) = ground (arith, split_later s)

components_skip : (s : List ℕ) → components (skip_slashes s) ≡ components s
unfolding components skip_slashes
components_skip [] = refl
components_skip (c ∷ s) = ground (arith, components_skip s)

-- Past the slashes a path ends or begins with a component.
components-first :
    (s : List ℕ)
    → first s ≢ 0
    → first s ≢ b'/'
    → components s ≡ take (segment_length s) s ∷ components (drop (segment_length s) s)
unfolding components segment_length
components-first [] h k = absurd (h refl)
components-first (c ∷ s) h k = ground (arith, split_segment s, split_later s)

first-skip_slashes : (s : List ℕ) → first (skip_slashes s) ≢ b'/'
unfolding skip_slashes
first-skip_slashes [] e = omega (arith, e)
first-skip_slashes (c ∷ s) e = ground (arith, first-skip_slashes s)

-- The length that is left falls with every round.
length_skip : (s : List ℕ) → length (skip_slashes s) ≤ length s
unfolding skip_slashes
length_skip [] = omega arith
length_skip (c ∷ s) = ground (arith, length_skip s)

length_segment :
    (s : List ℕ) → first s ≢ 0 → first s ≢ b'/' → length (drop (segment_length s) s) < length s
unfolding segment_length
length_segment [] h k = absurd (h refl)
length_segment (c ∷ s) h k = ground (arith, length-drop (segment_length s) s)

-- The length test and the comparison of `vfs_find_child` come to equality of the name's text and the
-- segment.
same_name :
    (n s : List ℕ)
    → (if string_length n == segment_length s then same_bytes (segment_length s) n s else false)
      ≡ is_same (text n) (take (segment_length s) s)
unfolding segment_length string_length same_bytes is_same
same_name [] [] = refl
same_name [] (d ∷ s) = ground arith
same_name (c ∷ n) [] = ground arith
same_name (c ∷ n) (d ∷ s) = ground (arith, same_name n s)

is_named-is_called :
    (name : Option (List ℕ)) (s : List ℕ)
    → is_named name s (segment_length s) ≡ is_called name (take (segment_length s) s)
unfolding is_named is_called
is_named-is_called none s = refl
is_named-is_called (some n) s = same_name n s

find_in-child_named :
    (cs : Nodes) (s : List ℕ)
    → find_in cs s (segment_length s) ≡ child_named cs (take (segment_length s) s)
unfolding find_in child_named
find_in-child_named nil s = refl
find_in-child_named (gap cs) s = find_in-child_named cs s
find_in-child_named (child c cs) s =
    rw (is_named-is_called (info c).name s, find_in-child_named cs s) refl

components_end : (s : List ℕ) → first s ≡ 0 → components s ≡ []
unfolding components
components_end [] h = refl
components_end (c ∷ s) h = ground arith

-- One round of the walk, for the rounds that follow it.
walk_step :
    (i : NodeInfo) (cs : Nodes) (s : List ℕ) (segs : List (List ℕ)) (go_on : Node → Option Found)
    → ((next : Node) → go_on next ≡ some (resolve next segs))
    → on_found (find_child (node i cs) s (segment_length s)) go_on
      ≡ some (resolve (node i cs) (take (segment_length s) s ∷ segs))
unfolding find_child resolve
walk_step i cs s segs go_on ih =
    rw (find_in-child_named cs s) (elim (Bool-cases (is_directory i.type)) [
      | inl dir ↦ rw dir (elim (Option-cases (child_named cs (take (segment_length s) s))) [
        | inl e ↦ rw (e, resolve) refl
        | inr (next, e) ↦ rw (e, resolve) (ih next)
      ])
      | inr other ↦ rw other refl
    ])

-- With fuel for the whole path the walk ends, and finds what the components lead to.
pub walk-resolve :
    (fuel : ℕ) (current : Node) (path : List ℕ)
    → length path < fuel
    → walk fuel current path ≡ some (resolve current (components path))
unfolding walk resolve
walk-resolve zero current path h = absurd (omega arith)
walk-resolve (suc fuel) (node i cs) path h = elim (Bool-cases (first path == 0)) [
  | inl done ↦ rw done (rw (components_end path (==→≡ _ _ done)) refl)
  | inr more ↦ rw more (elim (Bool-cases (first (skip_slashes path) == 0)) [
    | inl done ↦
        rw done (
          rw (sym (components_skip path) ∙ components_end (skip_slashes path) (==→≡ _ _ done)) refl)
    | inr segment ↦
        let s = skip_slashes path in
        let n : first s ≢ 0 = ==→≢ _ _ segment in
        let k : first s ≢ b'/' = first-skip_slashes path in
        rw segment (
          rw (sym (components_skip path) ∙ components-first s n k) (
            walk_step i cs s (components (drop (segment_length s) s)) _ (λ next.
              walk-resolve fuel next (drop (segment_length s) s)
                (omega (arith, length_skip path, length_segment s n k)))))
  ])
]
