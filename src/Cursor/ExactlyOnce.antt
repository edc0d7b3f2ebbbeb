-- ===== src/Cursor/ExactlyOnce.antt =====
-- The promise of the ledger for one run: whatever happens to attempts, the windows that committed
-- updates have consumed are the first `next_offset` windows of the manifest, each once, in order.
use acvjepa_project.Prelude.Int.{int_eq}
use mathlib.Core.List.{append-nil, append_assoc}
use acvjepa_project.Prelude.Table.{count-append}
use acvjepa_project.Prelude.{
  string_eq, nat_eq, ◌==◌, All, String, ◌≡◌, refl, Bool, List, [], ◌∷◌, ◌++◌, arith,
}
use acvjepa_project.Cursor.{Ledger}
use acvjepa_project.Cursor.Storage.{Files}
use acvjepa_project.Cursor.Kept.{performs-consumes, step-Kept}
use acvjepa_project.Cursor.Schedule.{
  Op, step, consumes, run, performs, consumed, performed, times_in, IsConsistent, HasOneOrder,
}
use acvjepa_project.Prelude.Hashing.{Hashing}

windows_kept :
    (h : Hashing) (fs : Files) (key d : String) (ids : List String) (os : List Op) (l : Ledger)
    (xs : List String)
    → All (HasOneOrder h d ids) os
    → IsConsistent key d ids l xs
    → IsConsistent key d ids (run h fs os l) (xs ++ consumed h fs key os l)
unfolding run consumed
windows_kept h fs key d ids [] l xs one v = rw append-nil v
windows_kept h fs key d ids (o ∷ os) l xs one v = rw (← append_assoc) (
    windows_kept h fs key d ids os (step h fs o l) (xs ++ consumes h fs key o l) one.1
      (step-Kept h fs key d ids o l xs one.0 v))

work_kept :
    (h : Hashing) (fs : Files) (key d : String) (ids : List String) (os : List Op) (l : Ledger)
    (xs : List String) (id : String)
    → All (HasOneOrder h d ids) os
    → IsConsistent key d ids l xs
    → times_in id (performed h fs key os l) ≡ times_in id (consumed h fs key os l)
unfolding performed consumed
work_kept h fs key d ids [] l xs id one v = refl
work_kept h fs key d ids (o ∷ os) l xs id one v =
    let now = performs-consumes h fs key d ids o l xs id v in
    let later =
      work_kept h fs key d ids os (step h fs o l) (xs ++ consumes h fs key o l) id one.1
        (step-Kept h fs key d ids o l xs one.0 v) in
    let is : String → Bool = λ x. x == id in
    let left = count-append is (performs h fs key o l) (performed h fs key os (step h fs o l)) in
    let right = count-append is (consumes h fs key o l) (consumed h fs key os (step h fs o l)) in
    omega (arith, now, later, left, right)

-- From a ledger in which the run has consumed `xs`, the first windows of its manifest up to its
-- cursor, any schedule of calls, on this and on other runs, failing or not, leads to a ledger in
-- which `xs` and the ranges of the committed attempts, in the order of their commits, are again the
-- first windows up to the cursor; and the work that the committed plans give to their ranks is these
-- ranges, each work id as often; provided that no reserving call brings another order of work with the
-- same digest.
pub run-IsConsistent :
    (h : Hashing) (fs : Files) (key d : String) (ids : List String) (os : List Op) (l : Ledger)
    (xs : List String)
    → All (HasOneOrder h d ids) os
    → IsConsistent key d ids l xs
    → IsConsistent key d ids (run h fs os l) (xs ++ consumed h fs key os l)
      × ((id : String)
          → times_in id (performed h fs key os l) ≡ times_in id (consumed h fs key os l))
run-IsConsistent h fs key d ids os l xs one v =
    (windows_kept h fs key d ids os l xs one v, λ id. work_kept h fs key d ids os l xs id one v)
