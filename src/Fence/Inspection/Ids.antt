-- ===== src/Fence/Inspection/Ids.antt =====
-- The identifiers that an inspection goes through: `[...new Set(...)].sort()`.
use titra.Common.{
  ◌≡◌, refl, ◌∙◌, inl, inr, Bool, true, false, ◌||◌, List, [], ◌∷◌, arith, Text, ℕ_eq, List_eq,
  ◌==◌, ==→≡, contains, any, All, Bool-cases, is_before, is_before-transitive, is_before-total,
  Stored, missing, held, junk,
}
use titra.Fence.Project.{Entry, Project, elements}
use titra.Fence.Inspection.{insert_id, add_id, writer_ids, entry_ids, reservation_ids}

-- Each identifier is before all that follow it, so none occurs twice.
abbrev pub IsAscending : List Text → Type 0
IsAscending [] = Unit
IsAscending (x ∷ xs) = All (λ y. is_before x y ≡ true) xs × IsAscending xs

insert_id-All :
    (P : Text → Type 0) (id : Text) (ids : List Text) → P id → All P ids → All P (insert_id id ids)
unfolding insert_id
insert_id-All P id [] h k = (h, tt)
insert_id-All P id (x ∷ xs) h (hx, k) = elim (Bool-cases (id == x)) [
  | inl same ↦ rw same (hx, k)
  | inr differ ↦ elim (Bool-cases (is_before id x)) [
    | inl before ↦ rw (differ, before) (h, (hx, k))
    | inr after ↦ rw (differ, after) (hx, insert_id-All P id xs h k)
  ]
]

All-after :
    (s t : Text) (ids : List Text)
    → is_before s t ≡ true
    → All (λ y. is_before t y ≡ true) ids
    → All (λ y. is_before s y ≡ true) ids
All-after s t [] h k = tt
All-after s t (x ∷ xs) h (hx, k) = (is_before-transitive s t x h hx, All-after s t xs h k)

insert_id-IsAscending :
    (id : Text) (ids : List Text) → IsAscending ids → IsAscending (insert_id id ids)
unfolding insert_id
insert_id-IsAscending id [] h = (tt, tt)
insert_id-IsAscending id (x ∷ xs) (hx, h) = elim (Bool-cases (id == x)) [
  | inl same ↦ rw same (hx, h)
  | inr differ ↦ elim (Bool-cases (is_before id x)) [
    | inl before ↦ rw (differ, before) ((before, All-after id x xs before hx), (hx, h))
    | inr after ↦
        rw (differ, after)
          (
            insert_id-All (λ y. is_before x y ≡ true) id xs (is_before-total id x differ after) hx,
            insert_id-IsAscending id xs h,
          )
  ]
]

add_id-IsAscending :
    (id : Stored Text) (ids : List Text) → IsAscending ids → IsAscending (add_id id ids)
unfolding add_id
add_id-IsAscending (held id) ids h = insert_id-IsAscending id ids h
add_id-IsAscending missing ids h = h
add_id-IsAscending (junk m) ids h = h

writer_ids-IsAscending : (ws : List (Stored Text)) → IsAscending (writer_ids ws)
unfolding writer_ids
writer_ids-IsAscending [] = tt
writer_ids-IsAscending (w ∷ ws) = add_id-IsAscending w (writer_ids ws) (writer_ids-IsAscending ws)

entry_ids-IsAscending :
    (es : List Entry) (ids : List Text) → IsAscending ids → IsAscending (entry_ids es ids)
unfolding entry_ids
entry_ids-IsAscending [] ids h = h
entry_ids-IsAscending (e ∷ es) ids h =
    add_id-IsAscending e.reservation_id (entry_ids es ids) (entry_ids-IsAscending es ids h)

pub reservation_ids-IsAscending : (p : Project) → IsAscending (reservation_ids p)
unfolding reservation_ids
reservation_ids-IsAscending p =
    entry_ids-IsAscending (elements p.lifecycle_writer_metadata) _
      (writer_ids-IsAscending (elements p.lifecycle_writers))

-- Whether a stored value is the identifier, and whether a reservation of the project has it.
abbrev pub is_id : Text → Stored Text → Bool
is_id id (held x) = x == id
is_id id _ = false

abbrev pub names_reservation : Project → Text → Bool
names_reservation p id =
    any (λ e. is_id id e.reservation_id) (elements p.lifecycle_writer_metadata)
    || any (is_id id) (elements p.lifecycle_writers)

contains-insert_id :
    (k id : Text) (ids : List Text) → contains k (insert_id id ids) ≡ (id == k || contains k ids)
unfolding insert_id contains
contains-insert_id k id [] = ground arith
contains-insert_id k id (x ∷ xs) = elim (Bool-cases (id == x)) [
  | inl same ↦ rw (same, ==→≡ id x same) (ground arith)
  | inr differ ↦ elim (Bool-cases (is_before id x)) [
    | inl before ↦ rw (differ, before) (ground arith)
    | inr after ↦ rw (differ, after) (ground (arith, contains-insert_id k id xs))
  ]
]

contains-add_id :
    (k : Text) (id : Stored Text) (ids : List Text)
    → contains k (add_id id ids) ≡ (is_id k id || contains k ids)
unfolding add_id
contains-add_id k (held id) ids = contains-insert_id k id ids
contains-add_id k missing ids = refl
contains-add_id k (junk m) ids = refl

contains-writer_ids :
    (k : Text) (ws : List (Stored Text)) → contains k (writer_ids ws) ≡ any (is_id k) ws
unfolding writer_ids any contains
contains-writer_ids k [] = refl
contains-writer_ids k (w ∷ ws) =
    contains-add_id k w (writer_ids ws) ∙ rw (contains-writer_ids k ws) refl

contains-entry_ids :
    (k : Text) (es : List Entry) (ids : List Text)
    → contains k (entry_ids es ids) ≡ (any (λ e. is_id k e.reservation_id) es || contains k ids)
unfolding entry_ids any
contains-entry_ids k [] ids = refl
contains-entry_ids k (e ∷ es) ids =
    contains-add_id k e.reservation_id (entry_ids es ids)
    ∙ ground (arith, contains-entry_ids k es ids)

pub contains-reservation_ids :
    (p : Project) (id : Text) → contains id (reservation_ids p) ≡ names_reservation p id
unfolding reservation_ids
contains-reservation_ids p id =
    contains-entry_ids id (elements p.lifecycle_writer_metadata) _
    ∙ rw (contains-writer_ids id (elements p.lifecycle_writers)) refl
