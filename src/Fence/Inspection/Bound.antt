-- ===== src/Fence/Inspection/Bound.antt =====
-- `inspectProjectChildWriterRecoveries`: which reservations it reports, and how many.
use titra.Common.{
  ℕ_eq, ℕ, suc, ◌+◌, ◌≤◌, ◌≡◌, refl, Bool, true, false, Option, none, some, List, [], ◌∷◌, arith,
  Text, List_eq, contains, leb→le, if◌then◌else◌, length, Stored, missing, held, junk, Result, ok,
  throw,
}
use titra.Common.Collection.{Collection}
use titra.Fence.Project.{FenceError, Entry, Project, elements}
use titra.Fence.Recovery.{Report, Deployment, selected}
use titra.Fence.Inspection.Ids.{
  IsAscending, reservation_ids-IsAscending, names_reservation, contains-reservation_ids,
}
use titra.Fence.Inspection.Previews.{ArePreviews, preview_each-ArePreviews}
use titra.Fence.Inspection.{
  Inspection, untracked, inspected, count_of, is_bounded, is_inspectable, insert_id, add_id,
  writer_ids, entry_ids, reservation_ids, inspection_of, preview_each, inspect_project,
  inspect_project_child_writer_recoveries,
}

length-insert_id : (id : Text) (ids : List Text) → length (insert_id id ids) ≤ suc (length ids)
unfolding insert_id
length-insert_id id [] = omega arith
length-insert_id id (x ∷ xs) = ground (arith, length-insert_id id xs)

length-add_id : (id : Stored Text) (ids : List Text) → length (add_id id ids) ≤ suc (length ids)
unfolding add_id
length-add_id (held id) ids = length-insert_id id ids
length-add_id missing ids = omega arith
length-add_id (junk m) ids = omega arith

length-writer_ids : (ws : List (Stored Text)) → length (writer_ids ws) ≤ length ws
unfolding writer_ids
length-writer_ids [] = omega arith
length-writer_ids (w ∷ ws) = omega (arith, length-add_id w (writer_ids ws), length-writer_ids ws)

length-entry_ids :
    (es : List Entry) (ids : List Text) → length (entry_ids es ids) ≤ length es + length ids
unfolding entry_ids
length-entry_ids [] ids = omega arith
length-entry_ids (e ∷ es) ids =
    omega (arith, length-add_id e.reservation_id (entry_ids es ids), length-entry_ids es ids)

length-elements {ℓ} :
    {A : Type ℓ} (field : Stored (List A))
    → is_bounded (count_of field) ≡ true
    → length (elements field) ≤ 64
unfolding count_of is_bounded
length-elements missing h = omega arith
length-elements (held xs) h = leb→le (length xs) 64 h
length-elements (junk m) h = cc

length-reservation_ids : (p : Project) → is_inspectable p ≡ true → length (reservation_ids p) ≤ 128
unfolding reservation_ids is_inspectable
length-reservation_ids p h = omega (
  arith,
  length-entry_ids (elements p.lifecycle_writer_metadata)
      (writer_ids (elements p.lifecycle_writers)),
  length-writer_ids (elements p.lifecycle_writers),
  length-elements p.lifecycle_writers (ground arith),
  length-elements p.lifecycle_writer_metadata (ground arith),
)

inspection_of-inspected :
    (p : Project) (r : Result FenceError (List Report)) {w m : ℕ} {reports : List Report}
    → inspection_of p r ≡ ok (inspected w m reports)
    → r ≡ ok reports
unfolding inspection_of
inspection_of-inspected p (throw e) h = cc
inspection_of-inspected p (ok rs) h = cc

module _ (projects : Collection Project) where
  open projects use {Db, find}

  length-ArePreviews :
      (selector : Project → Bool) (project_id : Text) (d : Deployment) (others : ℕ → Db → Db)
      (k : ℕ) (db : Db) (ids : List Text) (reports : List Report)
      → ArePreviews projects selector project_id d others k db ids reports
      → length reports ≡ length ids
  length-ArePreviews selector project_id d others k db [] [] h = refl
  length-ArePreviews selector project_id d others k db [] (r ∷ rs) h = absurd h
  length-ArePreviews selector project_id d others k db (id ∷ ids) [] h = absurd h
  length-ArePreviews selector project_id d others k db (id ∷ ids) (r ∷ rs) (_, h) =
      omega (arith, length-ArePreviews selector project_id d others (suc k) (others k db) ids rs h)

  inspect_project-bounded :
      (selector : Project → Bool) (project_id : Text) (d : Deployment) (others : ℕ → Db → Db)
      (project : Option Project) (db : Db) {w m : ℕ} {reports : List Report}
      → (inspect_project projects selector project_id d others project db).0
        ≡ ok (inspected w m reports)
      → (p : Project) × (project ≡ some p)
        × (is_inspectable p ≡ true)
        × ArePreviews projects selector project_id d others 1 db (reservation_ids p) reports
  unfolding inspect_project
  inspect_project-bounded selector id d others none db h = cc
  inspect_project-bounded selector id d others (some p) db {w = w} {m = m} {reports = reports} h =
      shaped (is_inspectable p) refl h
    where
      each : Result FenceError (List Report) × Db
      each = preview_each projects selector id d others 1 (reservation_ids p) db

      shaped :
          (b : Bool)
          → is_inspectable p ≡ b
          → (if◌then◌else◌ {A = Result FenceError Inspection × Db} b
              (inspection_of p each.0, each.1)
              (
                ok (
                    untracked
                      (count_of p.lifecycle_writers)
                      (count_of p.lifecycle_writer_metadata)),
                db,
              )).0
            ≡ ok (inspected w m reports)
          → (q : Project) × (◌≡◌ {A = Option Project} (some p) (some q))
            × (is_inspectable q ≡ true)
            × ArePreviews projects selector id d others 1 db (reservation_ids q) reports
      shaped false b e = cc
      shaped true b e = (
        p,
        refl,
        b,
        preview_each-ArePreviews projects selector id d others 1 (reservation_ids p) db
            (inspection_of-inspected p _ e),
      )

  -- An inspection that succeeds has exactly one report for each reservation that the project names,
  -- in its writers or in their metadata: the identifiers that it goes through are those, in ascending
  -- order and so each once, and the reports are their previews in this order, from one read after
  -- another, each telling of no other reservation. There are at most 128, and the project has no lock
  -- and is of a valid shape.
  pub inspect-bounded :
      (selector : Project → Bool) (project_id : Text) (d : Deployment) (others : ℕ → Db → Db)
      (db : Db) (id : Text) {w m : ℕ} {reports : List Report}
      → (inspect_project_child_writer_recoveries projects selector project_id d others db).0
        ≡ ok (inspected w m reports)
      → (p : Project) × (find (others 0 db) ≡ some p)
        × (is_inspectable p ≡ true)
        × (contains id (reservation_ids p) ≡ names_reservation p id)
        × IsAscending (reservation_ids p)
        × ArePreviews projects selector project_id d others 1
            (others 0 db)
            (reservation_ids p)
            reports
        × (length reports ≤ 128)
  unfolding inspect_project_child_writer_recoveries selected
  inspect-bounded selector project_id d others db id {reports = reports} h =
      let (p, found, shaped, previews) =
        inspect_project-bounded selector project_id d others _ (others 0 db) h in
      let counted =
        length-ArePreviews selector project_id d others 1 (others 0 db) (reservation_ids p) reports
          previews in
      (
        p,
        read_project (find (others 0 db)) found,
        shaped,
        contains-reservation_ids p id,
        reservation_ids-IsAscending p,
        previews,
        omega (arith, counted, length-reservation_ids p shaped),
      )
    where
      read_project : (o : Option Project) {p : Project} → selected selector o ≡ some p → o ≡ some p
      read_project none e = cc
      read_project (some q) e = ground arith
