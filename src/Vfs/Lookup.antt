-- ===== src/Vfs/Lookup.antt =====
-- `vfs_lookup` as a whole.
use liam_os.Base.{
  List, Option, Option-cases, Status, [], ap, arith, false, if_cases, if◌then◌else◌, inl, inr,
  invalid_argument, length, none, not, not_initialized, ok, refl, some, subst, suc, sym, true, ℕ,
  ◌==◌, ◌∙◌, ◌∷◌, ◌≡◌, ◌≢◌, ◌≤◌,
}
use liam_os.Str.{first, rest}
use liam_os.Vfs.Walk.{child_named, components, resolve, walk-resolve}
use liam_os.Vfs.{
  Found, Node, Vfs, failed, finish, found, is_directory, lookup, lookup_from, node, path_is_root,
}

-- The status and the node that a result stands for.
abbrev pub reply : Found → Status × Option Node
reply (failed s) = (s, none)
reply (found n) = (ok, some n)

abbrev pub answer : Status × Option Node × Vfs → Status × Option Node
answer (s, n, v) = (s, n)

-- The answer of the specification: an absolute path is resolved from the root.
unfoldable pub expected : Option Node → List ℕ → Status × Option Node
unfolding resolve components
expected none path = (not_initialized, none)
expected (some r) path =
    if first path == b'/' then reply (resolve r (components path)) else (invalid_argument, none)

answer-finish : (v : Vfs) (f : Found) → answer (finish v (some f)) ≡ reply f
answer-finish v (failed s) = refl
answer-finish v (found n) = refl

root_components : (path : List ℕ) → path_is_root path ≡ true → components path ≡ []
unfolding components
root_components [] h = refl
root_components (c ∷ []) h = ground arith
root_components (c ∷ d ∷ s) h = ground arith

components-rest :
    (path : List ℕ) → (first path == b'/') ≡ true → components path ≡ components (rest path)
unfolding components
components-rest [] h = cc
components-rest (c ∷ s) h = ground arith

length-rest : (s : List ℕ) → length (rest s) ≤ length s
length-rest [] = omega arith
length-rest (c ∷ s) = omega arith

expected_absolute :
    (r : Node) (path : List ℕ)
    → not (first path == b'/') ≡ false
    → expected (some r) path ≡ reply (resolve r (components path))
unfolding expected
expected_absolute r path h = ground arith

expected_relative :
    (r : Node) (path : List ℕ)
    → not (first path == b'/') ≡ true
    → (invalid_argument, none) ≡ expected (some r) path
unfolding expected
expected_relative r path h = ground arith

lookup_from-expected :
    (v : Vfs) (r : Option Node) (path : List ℕ) → answer (lookup_from v r path) ≡ expected r path
unfolding lookup_from expected resolve
lookup_from-expected v none path = refl
lookup_from-expected v (some r) path =
    if_cases (λ x. answer x ≡ expected (some r) path) (not (first path == b'/'))
      (λ relative. expected_relative r path relative)
      (λ absolute.
        let at_root = expected_absolute r path absolute in
        if_cases (λ x. answer x ≡ expected (some r) path) (path_is_root path)
          (λ root. sym (at_root ∙ ap (λ c. reply (resolve r c)) (root_components path root)))
          (λ deeper.
            ap (λ f. answer (finish v f))
              (walk-resolve (suc (length path)) r (rest path) (omega (arith, length-rest path)))
            ∙ answer-finish v (resolve r (components (rest path)))
            ∙ sym (
                at_root
                ∙ ap (λ c. reply (resolve r c)) (components-rest path (ground (arith, absolute))))))

-- Once the file system is initialized, `vfs_lookup` of an absolute path answers what following the
-- path's components from the root gives: empty components are skipped, and a component leads to the
-- first child whose name, up to its 0 byte, is equal to it; without a root it answers KERNEL_ERROR_NOT_INITIALIZED, and for a relative path
-- KERNEL_ERROR_INVALID_ARGUMENT.
pub lookup-expected :
    (v : Vfs) (path : List ℕ)
    → v.initialized ≡ true
    → answer (lookup v (some path)) ≡ expected v.root path
unfolding lookup
lookup-expected v path i =
    if_cases (λ x. answer x ≡ expected v.root path) (not v.initialized) (λ n. absurd (ground arith))
      (λ _. lookup_from-expected _ v.root path)

-- A status and a node go together: KERNEL_OK exactly with a node.
pub record IsConsistent (a : Status × Option Node) : Type 0 where
  pub missing : a.1 ≡ none → a.0 ≢ ok
  pub present : a.1 ≢ none → a.0 ≡ ok

resolve-IsConsistent : (n : Node) (segs : List (List ℕ)) → IsConsistent (reply (resolve n segs))
unfolding resolve
resolve-IsConsistent n [] = record { missing = λ h. cc; present = λ _. refl }
resolve-IsConsistent (node i cs) (seg ∷ segs) =
    if_cases (λ f. IsConsistent (reply f)) (is_directory i.type)
      (λ _. elim (Option-cases (child_named cs seg)) [
        | inl e ↦ rw (e, resolve) (record { missing = λ _ h. cc; present = λ h. absurd (h refl) })
        | inr (next, e) ↦ rw (e, resolve) (resolve-IsConsistent next segs)
      ])
      (λ _. record { missing = λ _ h. cc; present = λ h. absurd (h refl) })

expected-IsConsistent : (r : Option Node) (path : List ℕ) → IsConsistent (expected r path)
unfolding expected
expected-IsConsistent none path = record { missing = λ _ h. cc; present = λ h. absurd (h refl) }
expected-IsConsistent (some r) path =
    if_cases IsConsistent (first path == b'/') (λ _. resolve-IsConsistent r (components path))
      (λ _. record { missing = λ _ h. cc; present = λ h. absurd (h refl) })

pub lookup-IsConsistent : (v : Vfs) (path : List ℕ) → IsConsistent (answer (lookup v (some path)))
unfolding lookup
lookup-IsConsistent v path =
    if_cases (λ x. IsConsistent (answer x)) (not v.initialized)
      (λ _. record { missing = λ _ h. cc; present = λ h. absurd (h refl) })
      (λ _.
        subst IsConsistent (sym (lookup_from-expected _ v.root path))
          (expected-IsConsistent v.root path))
