-- ===== src/Revision/Tests.antt =====
-- Entity tags of one timer and of one project.
use titra.Common.{
  beq_stored, ℕ, ◌≡◌, ◌≢◌, refl, true, Option, none, some, Text, codes, beq_list, missing, held,
  ◌==◌, List_eq, ℕ_eq, if◌then◌else◌,
}
use titra.Revision.{
  timer, project, Resource, etag_of, resource_revision_etag, parse_resource_revision_etag,
  matches_resource_revision,
}
use titra.Revision.Decimal.{decimal}
use titra.Revision.TimecardDate.{
  Timecard, timecard_date_state_selector, timecard_date_revision_etag,
  parse_timecard_date_revision_etag, matches_timecard_date_revision, matches-date_etag,
}
use titra.Revision.RoundTrip.{matches-etag, parse_other_kind}

-- A user with the given timer revision and no other field.
abbrev user : ℕ → Resource
user n field = if field == codes "timerRevision" then held n else missing

abbrev tag : Text
tag = codes "\"titra-timer-revision-42\""

user_etag : resource_revision_etag timer (some (user 42)) ≡ some tag
unfolding resource_revision_etag beq_list decimal
user_etag = refl

timer_tag : etag_of timer (held 42) ≡ some tag
unfolding etag_of decimal
timer_tag = refl

matches-etag_example :
    (expected : Option ℕ) × (parse_resource_revision_etag timer (held tag) ≡ some expected)
    × (matches_resource_revision timer (some (user 42)) expected ≡ true)
matches-etag_example = matches-etag timer (user 42) user_etag

kinds_differ : timer ≢ project
kinds_differ e = cc

parse_other_kind_example : parse_resource_revision_etag project (held tag) ≡ none
parse_other_kind_example = parse_other_kind timer project (held 42) kinds_differ timer_tag

abbrev entry : Timecard
entry = record {
  id = codes "t1";
  date = held 86_400_000;
  date_only = held (codes "1970-01-02");
  start_time = missing;
  date_revision = held 7;
}

entry_etag : timecard_date_revision_etag (some entry) ≡ some (codes "\"titra-date-revision-7\"")
unfolding timecard_date_revision_etag decimal
entry_etag = refl

entry_found : timecard_date_state_selector entry entry ≡ true
unfolding timecard_date_state_selector beq_list beq_stored
entry_found = refl

matches-date_etag_example :
    (expected : Option ℕ) × (parse_timecard_date_revision_etag
        (held (codes "\"titra-date-revision-7\""))
      ≡ some expected)
    × (matches_timecard_date_revision (some entry) expected ≡ true)
    × (matches_timecard_date_revision (some entry) expected ≡ true)
matches-date_etag_example = matches-date_etag entry entry entry_etag entry_found
