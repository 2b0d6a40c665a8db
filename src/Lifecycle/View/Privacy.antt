-- ===== src/Lifecycle/View/Privacy.antt =====
-- What a caller who is no member learns of a project.
use titra.Common.{
  ◌≡◌, refl, ap, ◌∙◌, Bool, false, not, Option, none, some, List, [], ◌∷◌, Text, codes, List_eq,
  ℕ_eq, contains, beq_list, All, if◌then◌else◌,
}
use titra.Lifecycle.{Project, is_true, is_project_member, can_view_project}
use titra.Lifecycle.Details.{normalize_detail}
use titra.Lifecycle.View.{Payload, public_payload, serialize_project_for_caller}

-- The fields that anyone may see of a public project.
abbrev pub public_fields : List Text
public_fields =
    codes "_id"
    ∷ codes "name"
    ∷ codes "description"
    ∷ codes "desc"
    ∷ codes "color"
    ∷ codes "archived"
    ∷ codes "public"
    ∷ codes "notbillable"
    ∷ codes "startDate"
    ∷ codes "endDate"
    ∷ []

-- Two projects that agree on some fields.
abbrev pub Agree : List Text → Project → Project → Type 0
Agree fields p q = All (λ f. p f ≡ q f) fields

public_payload-Agree :
    (p q : Project) → Agree public_fields p q → public_payload p ≡ public_payload q
unfolding public_payload normalize_detail contains beq_list
public_payload-Agree p q
      (
        id,
        (
          name,
          (description, (desc, (color, (archived, (visible, (notbillable, (start, (end, _)))))))),
        ),
      ) =
    rw (id, name, description, desc, color, archived, visible, notbillable, start, end) refl

-- Two projects that agree on the public fields look the same to a caller who is a member of neither:
-- nothing of the other fields is disclosed.
pub serialize_project_for_caller-Agree :
    (p q : Project) (user_id : Text)
    → Agree public_fields p q
    → is_project_member p user_id ≡ false
    → is_project_member q user_id ≡ false
    → serialize_project_for_caller (some p) user_id ≡ serialize_project_for_caller (some q) user_id
unfolding serialize_project_for_caller can_view_project
serialize_project_for_caller-Agree p q user_id same outside outside' =
    rw (serialize_project_for_caller, outside, outside')
      ((ap (λ v. shown (is_true v) (public_payload p)) same.1.1.1.1.1.1.0
        ∙ ap (shown (is_true (q (codes "public")))) (public_payload-Agree p q same)))
  where
    shown : Bool → Payload → Option Payload
    shown visible payload = if not visible then none else some payload
