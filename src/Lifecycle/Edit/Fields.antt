-- ===== src/Lifecycle/Edit/Fields.antt =====
-- The fields of an edit are details of a project, and none of them is its revision.
use titra.Common.{
  ◌≡◌, refl, sym, subst, ◌∙◌, Bool, true, false, not, ◌||◌, Option, List, [], ◌∷◌, Text, codes,
  List_eq, ℕ_eq, Option_eq, ◌==◌, ==→≡, contains, beq_list, All, arith, inl, inr, Bool-cases,
  Result, ok, throw, ◌>>◌, throw_if-eq-ok,
}
use titra.Lifecycle.{Value, Project, Value_eq, project_invalid, with_field}
use titra.Lifecycle.Details.{
  project_detail_fields, Body, malformed, body, entry, keys, validate_project_detail,
  validate_fields, validate_project_details_body, or_null,
}
use titra.Lifecycle.Snapshot.{ok-injective}
use titra.Lifecycle.Edit.{write_detail, write_details}

abbrev pub IsDetail : Text → Type 0
IsDetail f = contains f project_detail_fields ≡ true

chain-eq-ok :
    {E B : Type 0} (m : Result E (Unit {0})) (k : Result E B) {y : B}
    → (m >> k) ≡ ok y
    → (m ≡ ok tt) × (k ≡ ok y)
chain-eq-ok (throw e) k h = cc
chain-eq-ok (ok u) k h = (refl, h)

validate_project_detail-IsDetail :
    (f : Text) (v : Option Value) → validate_project_detail f v ≡ ok tt → IsDetail f
unfolding validate_project_detail
validate_project_detail-IsDetail f v h =
    let (listed, valid) =
      throw_if-eq-ok (not (contains f project_detail_fields)) project_invalid _ h in
    negated (contains f project_detail_fields) listed
  where
    negated : (b : Bool) → not b ≡ false → b ≡ true
    negated b k = ground (arith, k)

-- The fields of a body that is accepted are details.
validate_fields-IsDetail :
    (fields : List Text) (expected changes : List (Text × Value))
    → validate_fields fields expected changes ≡ ok tt
    → All IsDetail fields
unfolding validate_fields
validate_fields-IsDetail [] expected changes h = tt
validate_fields-IsDetail (f ∷ fs) expected changes h =
    let (both, rest) =
      chain-eq-ok
        (validate_project_detail f (entry f expected)
          >> validate_project_detail f (entry f changes))
        (validate_fields fs expected changes) h in
    let (first, second) =
      chain-eq-ok (validate_project_detail f (entry f expected))
        (validate_project_detail f (entry f changes)) both in
    (
      validate_project_detail-IsDetail f (entry f expected) first,
      validate_fields-IsDetail fs expected changes rest,
    )

pub body-IsDetail :
    (edit : Body) (fields : List Text)
    → validate_project_details_body edit ≡ ok fields
    → All IsDetail fields
unfolding validate_project_details_body
body-IsDetail malformed fields h = cc
body-IsDetail (body expected changes) fields h =
    let (checked, same) = chain-eq-ok _ (ok (keys changes)) h in
    let (_, valid) = chain-eq-ok _ (validate_fields (keys changes) expected changes) checked in
    subst (All IsDetail) (ok-injective [] (keys changes) fields same)
      (validate_fields-IsDetail (keys changes) expected changes valid)

-- No detail is the revision.
pub revision-not_detail : (f : Text) → IsDetail f → (codes "projectRevision" == f) ≡ false
unfolding contains beq_list
revision-not_detail f h = elim (Bool-cases (codes "projectRevision" == f)) [
  | inl same ↦ absurd (outside (subst IsDetail (sym (==→≡ (codes "projectRevision") f same)) h))
  | inr other ↦ other
]
  where
    outside : IsDetail (codes "projectRevision") → ⊥
    outside k = cc

write_detail-revision :
    (f : Text) (v : Value) (p : Project)
    → IsDetail f
    → write_detail f v p (codes "projectRevision") ≡ p (codes "projectRevision")
unfolding write_detail with_field contains beq_list
write_detail-revision f v p h = elim (Bool-cases (f == codes "description")) [
  | inl described ↦ rw described refl
  | inr other ↦ elim (Bool-cases (f == codes "startDate" || f == codes "endDate")) [
    | inl dated ↦ rw (other, dated, revision-not_detail f h) refl
    | inr plain ↦ rw (other, plain, revision-not_detail f h) refl
  ]
]

pub write_details-revision :
    (fs : List Text) (changes : List (Text × Value)) (p : Project)
    → All IsDetail fs
    → write_details fs changes p (codes "projectRevision") ≡ p (codes "projectRevision")
unfolding write_details
write_details-revision [] changes p h = refl
write_details-revision (f ∷ fs) changes p (hf, h) =
    write_details-revision fs changes (write_detail f (or_null (entry f changes)) p) h
    ∙ write_detail-revision f (or_null (entry f changes)) p hf
