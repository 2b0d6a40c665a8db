-- ===== src/Revision/TimecardDate.antt =====
-- imports/utils/timecardRevision.js: entity tags of a time entry's date, and the selector that fails
-- when a field of its date changed.
use titra.Common.{
  ℕ, ◌≤◌, ◌≡◌, refl, subst, Bool, true, false, ◌&&◌, Option, none, some, ◌++◌, arith, Text, codes,
  ℕ_eq, List_eq, Stored_eq, ◌==◌, ==→≡, beq_list, leb, if◌then◌else◌, Bool-cases, inl, inr, Stored,
  missing, held, junk, value,
}
use mathlib.Core.Option.{some-injective}
use titra.Revision.{max_safe, trim, match_revision, revision_is}
use titra.Revision.Decimal.{decimal, decimal-canonical}
use titra.Revision.RoundTrip.{
  match_revision-decimal, trim_quoted, beq_list-prefix, digits_not_legacy,
}

abbrev pub date_revision_prefix : Text
date_revision_prefix = codes "\"titra-date-revision-"

abbrev pub legacy_date_revision_etag : Text
legacy_date_revision_etag = date_revision_prefix ++ codes "legacy\""

-- The fields of a time entry that its date consists of.
pub record Timecard : Type 0 where
  pub id : Text
  pub date : Stored ℕ
  pub date_only : Stored Text
  pub start_time : Stored Text
  pub date_revision : Stored ℕ

-- `timecardDateStateSelector`; a query for a missing field asks that it does not exist. (A stored
-- `null`, for which a query also takes a missing field, is left out.)
unfoldable pub timecard_date_state_selector : Timecard → Timecard → Bool
timecard_date_state_selector timecard stored =
    stored.id == timecard.id
    && stored.date == timecard.date
    && stored.date_only == timecard.date_only
    && stored.start_time == timecard.start_time
    && stored.date_revision == timecard.date_revision

unfoldable pub date_etag_of : Stored ℕ → Option Text
date_etag_of missing = some legacy_date_revision_etag
date_etag_of (held n) =
    if leb n max_safe then some (date_revision_prefix ++ (decimal n ++ codes "\"")) else none
date_etag_of (junk _) = none

unfoldable pub timecard_date_revision_etag : Option Timecard → Option Text
unfolding date_etag_of
timecard_date_revision_etag none = some legacy_date_revision_etag
timecard_date_revision_etag (some t) = date_etag_of t.date_revision

abbrev as_revision : Option ℕ → Option (Option ℕ)
as_revision none = none
as_revision (some n) = some (some n)

-- `some none` is the `null` of a time entry without a revision.
unfoldable pub parse_timecard_date_revision_etag : Stored Text → Option (Option ℕ)
unfolding trim match_revision
parse_timecard_date_revision_etag (held header) =
    let normalized = trim header in
    if normalized == legacy_date_revision_etag
    then some none
    else as_revision (match_revision date_revision_prefix normalized)
parse_timecard_date_revision_etag _ = none

unfoldable pub matches_timecard_date_revision : Option Timecard → Option ℕ → Bool
unfolding revision_is
matches_timecard_date_revision none none = true
matches_timecard_date_revision none (some n) = false
matches_timecard_date_revision (some t) expected = revision_is t.date_revision expected

parse_legacy : parse_timecard_date_revision_etag (held legacy_date_revision_etag) ≡ some none
unfolding parse_timecard_date_revision_etag beq_list
parse_legacy = refl

parse_revision :
    (n : ℕ)
    → n ≤ max_safe
    → parse_timecard_date_revision_etag (held (date_revision_prefix ++ (decimal n ++ codes "\"")))
      ≡ some (some n)
unfolding parse_timecard_date_revision_etag
parse_revision n h =
    rw
      (
        trim_quoted (codes "titra-date-revision-" ++ decimal n),
        beq_list-prefix date_revision_prefix (decimal n ++ codes "\"") (codes "legacy\""),
        digits_not_legacy (decimal n) (decimal-canonical n),
        match_revision-decimal date_revision_prefix n h,
      )
      refl

parse-date_etag_of :
    (field : Stored ℕ) {tag : Text}
    → date_etag_of field ≡ some tag
    → (parse_timecard_date_revision_etag (held tag) ≡ some (value field))
      × (revision_is field (value field) ≡ true)
unfolding date_etag_of revision_is
parse-date_etag_of missing h = (
  subst (λ t. parse_timecard_date_revision_etag (held t) ≡ some none) (some-injective _ _ h)
      parse_legacy,
  refl,
)
parse-date_etag_of (held n) h = elim (Bool-cases (leb n max_safe)) [
  | inl safe ↦ (
    subst (λ t. parse_timecard_date_revision_etag (held t) ≡ some (some n))
        (some-injective _ _ (rw safe at h)) (parse_revision n (ground arith)),
    ground arith,
  )
  | inr large ↦ cc (rw large at h)
]
parse-date_etag_of (junk m) h = cc

-- The date tag that the server made for a time entry is read back as a revision that the entry
-- matches, and so does every entry that its state selector finds.
pub matches-date_etag :
    (t stored : Timecard) {tag : Text}
    → timecard_date_revision_etag (some t) ≡ some tag
    → timecard_date_state_selector t stored ≡ true
    → (expected : Option ℕ) × (parse_timecard_date_revision_etag (held tag) ≡ some expected)
      × (matches_timecard_date_revision (some t) expected ≡ true)
      × (matches_timecard_date_revision (some stored) expected ≡ true)
unfolding timecard_date_revision_etag matches_timecard_date_revision timecard_date_state_selector
matches-date_etag t stored h found =
    let (parsed, accepted) = parse-date_etag_of t.date_revision h in
    let same = ==→≡ stored.date_revision t.date_revision (ground arith) in
    (value t.date_revision, parsed, accepted, rw same accepted)
