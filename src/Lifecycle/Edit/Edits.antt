-- ===== src/Lifecycle/Edit/Edits.antt =====
-- What a change of `editProjectDetails` has done.
use titra.Common.{
  ℕ, ◌≡◌, refl, sym, ap, subst, ◌∙◌, Bool, true, false, not, ◌&&◌, ◌||◌, Option, none, some, List,
  Text, codes, List_eq, ℕ_eq, Option_eq, ◌==◌, any, All-keep, All, arith, length, inl, inr,
  Bool-cases, if◌then◌else◌, Result, ok, throw, throw_if, ◌>>◌, >>=-eq-ok,
}
use titra.Common.Collection.{Collection, Updated-one}
use titra.Revision.{project, resource_revision_etag, matches_resource_revision}
use titra.Lifecycle.{
  Value, Project, Value_eq, LifecycleError, project_invalid, project_write_conflict,
  is_project_administrator, project_snapshot_selector, inc_revision, found, may_write,
  is_last_revision, resource_of,
}
use titra.Lifecycle.Details.{normalize_detail, Body, entry, validate_project_details_body}
use titra.Lifecycle.Snapshot.{
  MayWrite, MayWrite-snapshot, may_write-eq-ok, ok-injective, conflict_unless_one-eq-ok,
  revision_after-tag,
}
use titra.Lifecycle.Edit.{
  Plan, Edited, candidate, is_reversed, changed_fields, write_details, edit_update, edit_write,
  looked_up, current_details, edit_answer, edit_checks, edit_checked, edit_project_details,
  expected_of, changes_of,
}
use titra.Lifecycle.Edit.Fields.{IsDetail, body-IsDetail, write_details-revision}

three_guards-eq-ok :
    {A : Type 0} (a b c : Bool) (e e' e'' : LifecycleError) (x y : A)
    → (((throw_if a e >> throw_if b e') >> throw_if c e'') >> ok x) ≡ ok y
    → (a ≡ false) × (b ≡ false) × (x ≡ y)
three_guards-eq-ok true b c e e' e'' x y h = cc
three_guards-eq-ok false true c e e' e'' x y h = cc
three_guards-eq-ok false false true e e' e'' x y h = cc
three_guards-eq-ok false false false e e' e'' x y h = (refl, refl, ok-injective x x y h)

-- What the checks have found of a plan.
record Checked (user_id : Text) (expected : Option ℕ) (plan : Plan) : Type 0 where
  may : MayWrite user_id expected plan.snapshot
  details : All IsDetail plan.fields
  ordered :
      is_reversed (candidate plan (codes "startDate")) (candidate plan (codes "endDate")) ≡ false

edit_checks-Checked :
    (project_id user_id : Text) (edit : Body) (expected : Option ℕ) (stored : Option Project)
    (plan : Plan)
    → edit_checks project_id user_id edit expected stored ≡ ok plan
    → Checked user_id expected plan × (plan.changes ≡ changes_of edit)
unfolding edit_checks
edit_checks-Checked project_id user_id edit expected stored plan h =
    let (fields, accepted, rest) = >>=-eq-ok (validate_project_details_body edit) _ h in
    let (p, allowed, rest') =
      >>=-eq-ok (may_write is_project_administrator user_id (found project_id stored)) _ rest in
    let made : Plan = record {
      snapshot = p;
      fields = fields;
      expected = expected_of edit;
      changes = changes_of edit;
    } in
    let (matching, ordered, same) =
      three_guards-eq-ok
        (not (matches_resource_revision project (some (resource_of p)) expected)
          || any (λ f. not (some (normalize_detail p f) == entry f (expected_of edit))) fields)
        (is_reversed (candidate made (codes "startDate")) (candidate made (codes "endDate")))
        (not (length (changed_fields made) == 0) && is_last_revision p) project_write_conflict
        project_invalid project_write_conflict made plan rest' in
    let (_, admin, unlocked) =
      may_write-eq-ok is_project_administrator user_id (found project_id stored) p allowed in
    subst (λ x. Checked user_id expected x × (x.changes ≡ changes_of edit)) same
      (
        record {
          may = record {
            administrator = admin;
            unlocked = unlocked;
            current =
                left (matches_resource_revision project (some (resource_of p)) expected) _ matching;
          };
          details = body-IsDetail edit fields accepted;
          ordered = ordered;
        },
        refl,
      )
  where
    left : (a b : Bool) → (not a || b) ≡ false → a ≡ true
    left a b h = ground (arith, h)

-- An edited project: `before` was stored when the write came, `after` is stored since.
pub record EditWrite (user_id : Text) (expected : Option ℕ) (changes : List (Text × Value))
    (answer : Edited) (before after : Project) : Type 0 where
  pub allowed : MayWrite user_id expected before
  pub written : inc_revision (write_details answer.changed_fields changes before) ≡ some after
  pub tagged : resource_revision_etag project (some (resource_of after)) ≡ some answer.etag

edit_answer-eq-ok :
    (plan : Plan) (tag : Option Text) (answer : Edited)
    → edit_answer plan tag ≡ ok answer
    → (tag ≡ some answer.etag) × (answer.changed_fields ≡ changed_fields plan)
edit_answer-eq-ok plan none answer h = cc
edit_answer-eq-ok plan (some tag) answer h =
    let same =
      ok-injective answer
        (record {
          changed_fields = changed_fields plan;
          current = current_details plan;
          etag = tag;
        })
        answer h in
    (ap (λ a. some (Edited.etag a)) same, sym (ap Edited.changed_fields same))

looked_up-eq-ok :
    (plan : Plan) (stored : Option Project) (answer : Edited)
    → looked_up plan stored ≡ ok answer
    → answer.changed_fields ≡ changed_fields plan
looked_up-eq-ok plan none answer h = cc
looked_up-eq-ok plan (some stored) answer h =
    elim (Bool-cases (project_snapshot_selector plan.snapshot stored)) [
      | inl same ↦ (edit_answer-eq-ok plan tag answer (subst (λ b. guarded b ≡ ok answer) same h)).1
      | inr other ↦ absurd (refused (subst (λ b. guarded b ≡ ok answer) other h))
    ]
  where
    tag : Option Text
    tag = resource_revision_etag project (some (resource_of plan.snapshot))

    guarded : Bool → Result LifecycleError Edited
    guarded b = if b then edit_answer plan tag else throw project_write_conflict

    refused : throw project_write_conflict ≡ ok answer → ⊥
    refused k = cc

module _ (projects : Collection Project) where
  open projects use {Db, find, update_one, update_one_lem}

  edit_write-changed :
      (user_id : Text) (expected : Option ℕ) (plan : Plan) (changing : Bool) (db : Db)
      (answer : Edited)
      → Checked user_id expected plan
      → not (length (changed_fields plan) == 0) ≡ changing
      → (edit_write projects changing plan db).0 ≡ ok answer
      → (length answer.changed_fields == 0) ≡ false
      → (before : Project) × (after : Project) × (find db ≡ some before)
        × (find (edit_write projects changing plan db).1 ≡ some after)
        × EditWrite user_id expected plan.changes answer before after
  unfolding edit_write edit_update
  edit_write-changed user_id expected plan false db answer checked idle h k = absurd (
      contrary (length (changed_fields plan) == 0) idle
        (subst (λ fs. (length fs == 0) ≡ false) (looked_up-eq-ok plan (find db) answer h) k))
    where
      contrary : (b : Bool) → not b ≡ false → b ≡ false → ⊥
      contrary b x y = ground (arith, x, y)
  edit_write-changed user_id expected plan true db answer checked busy h k =
      let (one, answered) =
        conflict_unless_one-eq-ok (update_one (edit_update plan) db).0 _ answer h in
      let (tag, fields) = edit_answer-eq-ok plan _ answer answered in
      let (before, after, stored, selected, modified, now) =
        Updated-one (edit_update plan) (find db) (find (update_one (edit_update plan) db).1) _
          (update_one_lem (edit_update plan) db) one in
      let changed = write_details (changed_fields plan) plan.changes before in
      (
        before,
        after,
        stored,
        now,
        record {
          allowed = MayWrite-snapshot user_id expected plan.snapshot before selected checked.may;
          written =
              subst (λ fs. inc_revision (write_details fs plan.changes before) ≡ some after)
                (sym fields) modified;
          tagged =
              revision_after-tag plan.snapshot before after changed selected
                (write_details-revision (changed_fields plan) plan.changes before
                  (changed-IsDetail plan checked))
                modified
              ∙ tag;
        },
      )
    where
      changed-IsDetail :
          (plan : Plan) → Checked user_id expected plan → All IsDetail (changed_fields plan)
      changed-IsDetail plan checked =
          unfold changed_fields in
          (All-keep (λ f. not (entry f plan.expected == entry f plan.changes)) IsDetail plan.fields
            checked.details)

  -- Where `editProjectDetails` answers that it changed fields, the project that was stored when its
  -- one write came was unlocked, at the revision that the caller expected and administered by the
  -- caller. The fields that the answer names have been given the values of the body, the revision is
  -- the next one, and the answer's tag is the tag of what is stored.
  pub edit_project_details-changed :
      (project_id user_id : Text) (edit : Body) (expected : Option ℕ) (others : ℕ → Db → Db)
      (db : Db) (answer : Edited)
      → (edit_project_details projects project_id user_id edit expected others db).0 ≡ ok answer
      → (length answer.changed_fields == 0) ≡ false
      → (before : Project) × (after : Project) × (find (others 1 (others 0 db)) ≡ some before)
        × (find (edit_project_details projects project_id user_id edit expected others db).1
            ≡ some after)
        × EditWrite user_id expected (changes_of edit) answer before after
  unfolding edit_project_details edit_checked
  edit_project_details-changed project_id user_id edit expected others db answer h k =
      from (edit_checks project_id user_id edit expected (find (others 0 db))) refl h
    where
      from :
          (checks : Result LifecycleError Plan)
          → edit_checks project_id user_id edit expected (find (others 0 db)) ≡ checks
          → (edit_checked projects checks others (others 0 db)).0 ≡ ok answer
          → (before : Project) × (after : Project) × (find (others 1 (others 0 db)) ≡ some before)
            × (find (edit_checked projects checks others (others 0 db)).1 ≡ some after)
            × EditWrite user_id expected (changes_of edit) answer before after
      from (throw e) made answered = cc
      from (ok plan) made answered =
          let checked =
            edit_checks-Checked project_id user_id edit expected (find (others 0 db)) plan made in
          let (before, after, stored, now, write) =
            edit_write-changed user_id expected plan (not (length (changed_fields plan) == 0))
              (others 1 (others 0 db)) answer checked.0 refl answered k in
          (
            before,
            after,
            stored,
            now,
            subst (λ cs. EditWrite user_id expected cs answer before after) checked.1 write,
          )
