-- ===== src/Revision.antt =====
-- imports/utils/resourceRevision.js: entity tags of the revision counters that the API exchanges in
-- `ETag` and `If-Match`. A thrown TypeError is `none` in `Option`; the kinds that `assertKind`
-- refuses have no constructor.
pub mod Decimal
pub mod RoundTrip
pub mod TimecardDate
mod Tests
use titra.Common.{
  ℕ, zero, suc, ◌-◌, ◌^◌, Bool, true, false, not, ◌&&◌, ◌||◌, Option, none, some, List, [], ◌∷◌,
  ◌++◌, Text, codes, ◌==◌, List_eq, ℕ_eq, ltb, leb, eqb, if◌then◌else◌, Stored, missing, held, junk,
  exists,
}
use mathlib.Core.List.{reverse}
use Decimal.{decimal, read, is_canonical}

-- `Number.MAX_SAFE_INTEGER`
abbrev pub max_safe : ℕ
max_safe = 9007199254740991

pub data Kind : Type 0 where
  project project_task task_suggestion timer : Kind

abbrev pub kind_name : Kind → Text
kind_name project = codes "project"
kind_name project_task = codes "project-task"
kind_name task_suggestion = codes "task-suggestion"
kind_name timer = codes "timer"

-- The revision fields of a document, by name.
abbrev pub Resource : Type 0
Resource = Text → Stored ℕ

unfoldable pub revision_field_for : Kind → Text
revision_field_for project = codes "projectRevision"
revision_field_for project_task = codes "projectTaskRevision"
revision_field_for task_suggestion = codes "taskSuggestionRevision"
revision_field_for timer = codes "timerRevision"

-- `"titra-${kind}-revision-`
abbrev pub tag_prefix : Kind → Text
tag_prefix kind = codes "\"titra-" ++ kind_name kind ++ codes "-revision-"

abbrev pub legacy_tag : Kind → Text
legacy_tag kind = tag_prefix kind ++ codes "legacy\""

unfoldable pub etag_of : Kind → Stored ℕ → Option Text
etag_of kind missing = some (legacy_tag kind)
etag_of kind (held n) =
    if leb n max_safe then some (tag_prefix kind ++ (decimal n ++ codes "\"")) else none
etag_of kind (junk _) = none

unfoldable pub resource_revision_etag : Kind → Option Resource → Option Text
unfolding etag_of revision_field_for
resource_revision_etag kind none = some (legacy_tag kind)
resource_revision_etag kind (some resource) = etag_of kind (resource (revision_field_for kind))

-- The white space that `String.prototype.trim` removes.
unfoldable pub is_space : ℕ → Bool
is_space c =
    (leb 9 c && leb c 13)
    || eqb c 32
    || eqb c 160
    || eqb c 0x1680
    || (leb 0x2000 c && leb c 0x200a)
    || eqb c 0x2028
    || eqb c 0x2029
    || eqb c 0x202f
    || eqb c 0x205f
    || eqb c 0x3000
    || eqb c 0xfeff

unfoldable pub trim_left : Text → Text
unfolding is_space
trim_left [] = []
trim_left (c ∷ s) = elim (is_space c) [ true ↦ trim_left s | false ↦ c ∷ s ]

unfoldable pub trim : Text → Text
unfolding trim_left
trim s = reverse (trim_left (reverse (trim_left s)))

-- What follows a prefix.
unfoldable pub strip_prefix : Text → Text → Option Text
strip_prefix [] s = some s
strip_prefix (p ∷ ps) [] = none
strip_prefix (p ∷ ps) (c ∷ s) = if eqb p c then strip_prefix ps s else none

-- What precedes the closing quotation mark, `…"$`.
unfoldable pub strip_quote : Text → Option Text
strip_quote [] = none
strip_quote (c ∷ []) = if eqb c b'"' then some [] else none
strip_quote (c ∷ d ∷ s) = elim (strip_quote (d ∷ s)) [ none ↦ none | some r ↦ some (c ∷ r) ]

infixl 5 ◌>>=◌
abbrev ◌>>=◌ : {A B : Type 0} → Option A → (A → Option B) → Option B
none >>= f = none
some a >>= f = f a

-- `^"titra-${kind}-revision-(0|[1-9]\d*)"$`, and the integer that the group spells, if it is safe.
unfoldable pub match_revision : Text → Text → Option ℕ
unfolding strip_prefix strip_quote is_canonical read
match_revision prefix normalized = do
  rest ← strip_prefix prefix normalized
  digits ← strip_quote rest
  if is_canonical digits && leb (read digits) max_safe then some (read digits) else none

-- `some none` is the `null` of a legacy document.
unfoldable pub parse_resource_revision_etag : Kind → Stored Text → Option (Option ℕ)
unfolding trim match_revision
parse_resource_revision_etag kind (held header) =
    let normalized = trim header in
    if normalized == legacy_tag kind
    then some none
    else do revision ← match_revision (tag_prefix kind) normalized; some (some revision)
parse_resource_revision_etag kind _ = none

unfoldable pub revision_is : Stored ℕ → Option ℕ → Bool
revision_is field none = not (exists field)
revision_is missing (some n) = false
revision_is (held m) (some n) = eqb m n
revision_is (junk _) (some n) = false

unfoldable pub matches_resource_revision : Kind → Option Resource → Option ℕ → Bool
unfolding revision_is revision_field_for
matches_resource_revision kind none expected = false
matches_resource_revision kind (some resource) expected =
    revision_is (resource (revision_field_for kind)) expected
