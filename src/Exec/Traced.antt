-- ===== src/Exec/Traced.antt =====
-- core/kernel/core/exec.c against the relation `Calls` of Process/Calls.antt.
use liam_os.Base.{
  List, Option, Status, [], if_cases, is_success, none, not, refl, some, subst, sym, ℕ, ◌+◌, ◌<◌,
  ◌^◌, ◌∷◌, ◌≡◌,
}
use liam_os.Str.{string_equals}
use liam_os.Process.{Table}
use liam_os.Vfs.{Node, Vfs}
use liam_os.Process.Calls.{Calls, creates, loads, passes}
use liam_os.Process.Lifecycle.{create}
use liam_os.Process.Arguments.{configure_arguments, configure_image_path}
use liam_os.Exec.{
  ExecState, Registered, UserImage, arguments_done, exec_create, image_done, image_found,
  lookup_among, lookup_image, noted_exec, noted_lookup, path_done, process_created,
  registered_images, resolve_registered_node,
}

image_found-table :
    (w : ExecState) (r : Registered) (f : Status × Option Node × Vfs)
    → (image_found w r f).2.table ≡ w.table
image_found-table w r (s, none, v) = refl
image_found-table w r (s, some n, v) = refl

lookup_among-table :
    (rs : List Registered) (w : ExecState) (path : List ℕ)
    → (lookup_among rs w path).2.table ≡ w.table
unfolding lookup_among
lookup_among-table [] w path = refl
lookup_among-table (r ∷ rs) w path =
    if_cases (λ (o : Status × Option UserImage × ExecState). o.2.table ≡ w.table)
      (not (string_equals path r.path)) (λ _. lookup_among-table rs w path)
      (λ _. image_found-table w r (resolve_registered_node w.vfs r))

pub lookup_image-table : (w : ExecState) (path : List ℕ) → (lookup_image w path).2.table ≡ w.table
unfolding lookup_image
lookup_image-table w path = lookup_among-table registered_images (noted_lookup w path) path

arguments_done-Calls :
    {t : Table} (w : ExecState) (i : ℕ) (r : Status × Table)
    → Calls t r.1
    → Calls t (arguments_done w i r).2.table
arguments_done-Calls {t} w i (s, u) c =
    if_cases (λ (o : Status × Option ℕ × ExecState). Calls t o.2.table) (not (is_success s))
      (λ _. c) (λ _. c)

path_done-Calls :
    {t : Table} (w : ExecState) (i : ℕ) (arguments : Option (List ℕ)) (r : Status × Table)
    → Calls t r.1
    → Calls t (path_done w i arguments r).2.table
path_done-Calls {t} w i arguments (s, u) c =
    if_cases (λ (o : Status × Option ℕ × ExecState). Calls t o.2.table) (not (is_success s))
      (λ _. c)
      (λ _.
        arguments_done-Calls w i (configure_arguments u (some i) arguments)
          (passes (some i) arguments c))

process_created-Calls :
    {t : Table} (w : ExecState) (path : List ℕ) (arguments : Option (List ℕ))
    (r : Status × Option ℕ × Table)
    → Calls t r.2
    → Calls t (process_created w path arguments r).2.table
process_created-Calls w path arguments (s, none, u) c = c
process_created-Calls {t} w path arguments (s, some i, u) c =
    if_cases (λ (o : Status × Option ℕ × ExecState). Calls t o.2.table) (not (is_success s))
      (λ _. c)
      (λ _.
        path_done-Calls w i arguments (configure_image_path u (some i) (some path))
          (loads (some i) (some path) c))

image_done-Calls :
    {t : Table} (path : List ℕ) (arguments : Option (List ℕ))
    (r : Status × Option UserImage × ExecState)
    → Calls t r.2.table
    → r.2.table.next_pid + 1 < 2 ^ 32
    → Calls t (image_done path arguments r).2.table
image_done-Calls path arguments (s, none, w) c small = c
image_done-Calls path arguments (s, some m, w) c small =
    process_created-Calls w path arguments (create w.table (some m.name) m.entry m.user_stack_top)
      (creates (some m.name) m.entry m.user_stack_top small c)

-- Making a process of a program is no call, or a creation, and then its path and its arguments.
pub exec_create-Calls :
    {t : Table} (w : ExecState) (path : List ℕ) (arguments : Option (List ℕ))
    → Calls t w.table
    → w.table.next_pid + 1 < 2 ^ 32
    → Calls t (exec_create w path arguments).2.table
unfolding exec_create
exec_create-Calls {t} w path arguments c small =
    let same = lookup_image-table (noted_exec w path) path in
    image_done-Calls path arguments (lookup_image (noted_exec w path) path)
      (subst (λ u. Calls t u) (sym same) c)
      (subst (λ (u : Table). u.next_pid + 1 < 2 ^ 32) (sym same) small)
