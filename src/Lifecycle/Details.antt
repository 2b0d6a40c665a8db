-- ===== src/Lifecycle/Details.antt =====
-- The fields that may be edited: `normalizeDetail`, `validateProjectDetail` and
-- `validateProjectDetailsBody`, with `projectDescriptionText` of imports/utils/userContentSecurity.js.
use titra.Common.{
  ℕ, Bool, true, false, not, ◌&&◌, ◌||◌, Option, none, some, List, [], ◌∷◌, ◌++◌, map, Text, codes,
  List_eq, ℕ_eq, ◌==◌, contains, every, leb, ltb, if◌then◌else◌, length, take, sort_keys, Result,
  ok, throw, throw_if, ◌>>◌,
}
use titra.Revision.{trim}
use titra.Calendar.DateOnly.{is_date_only, iso_date}
use titra.Calendar.Civil.{civil_of_instant}
use titra.Lifecycle.{
  Value, null, text, number, fraction, boolean, date, delta, Project, LifecycleError,
  project_invalid, is_true,
}

abbrev pub project_detail_fields : List Text
project_detail_fields =
    codes "name"
    ∷ codes "description"
    ∷ codes "color"
    ∷ codes "customer"
    ∷ codes "rate"
    ∷ codes "budget"
    ∷ codes "startDate"
    ∷ codes "endDate"
    ∷ codes "public"
    ∷ codes "notbillable"
    ∷ []

abbrev pub is_high : ℕ → Bool
is_high c = leb 0xd800 c && leb c 0xdbff

abbrev pub is_low : ℕ → Bool
is_low c = leb 0xdc00 c && leb c 0xdfff

-- `isWellFormed`: every surrogate is one of a pair.
unfoldable pub is_well_formed : Text → Bool
is_well_formed [] = true
is_well_formed (c ∷ []) = not (is_high c) && not (is_low c)
is_well_formed (c ∷ d ∷ s) = elim (is_high c) [
  | true ↦ is_low d && is_well_formed s
  | false ↦ not (is_low c) && is_well_formed (d ∷ s)
]

-- `[...value]`
unfoldable pub code_points : Text → List Text
code_points [] = []
code_points (c ∷ []) = (c ∷ []) ∷ []
code_points (c ∷ d ∷ s) = elim (is_high c && is_low d) [
  | true ↦ (c ∷ d ∷ []) ∷ code_points s
  | false ↦ (c ∷ []) ∷ code_points (d ∷ s)
]

unfoldable pub concat : List Text → Text
concat [] = []
concat (s ∷ ss) = s ++ concat ss

abbrev pub max_description : ℕ
max_description = 50000

-- `[...value].slice(0, 50000).join('')`
unfoldable pub first_code_points : Text → Text
unfolding code_points concat take
first_code_points s = concat (take max_description (code_points s))

-- The loop over `ops`, which ends once the output is long enough.
unfoldable pub add_inserts : Text → List (Option Text) → Text
unfolding is_well_formed code_points
add_inserts output [] = output
add_inserts output (none ∷ ops) = add_inserts output ops
add_inserts output (some s ∷ ops) = elim (is_well_formed s) [
  | false ↦ add_inserts output ops
  | true ↦ elim (leb max_description (length (code_points (output ++ s)))) [
    | true ↦ output ++ s
    | false ↦ add_inserts (output ++ s) ops
  ]
]

unfoldable pub project_description_text : Value → Text
unfolding first_code_points add_inserts
project_description_text (text s) = if is_well_formed s then first_code_points s else []
project_description_text (delta ops) = first_code_points (add_inserts [] ops)
project_description_text _ = []

-- `value ?? null`
abbrev pub or_null : Option Value → Value
or_null none = null
or_null (some v) = v

abbrev pub description_detail : Value → Value
description_detail null = null
description_detail v = text (project_description_text v)

abbrev pub first_present : Option Value → Option Value → Value
first_present none b = or_null b
first_present (some null) b = or_null b
first_present (some v) b = v

abbrev pub date_detail : Value → Value
date_detail (date t) = text (iso_date (civil_of_instant t))
date_detail v = v

abbrev pub dated_fields : List Text
dated_fields = codes "rate" ∷ codes "budget" ∷ codes "startDate" ∷ codes "endDate" ∷ []

abbrev pub flag_fields : List Text
flag_fields = codes "public" ∷ codes "notbillable" ∷ []

unfoldable pub normalize_detail : Project → Text → Value
unfolding contains project_description_text iso_date civil_of_instant
normalize_detail p field =
    if field == codes "description"
    then description_detail (first_present (p (codes "description")) (p (codes "desc")))
    else if contains field dated_fields
    then date_detail (or_null (p field))
    else if contains field flag_fields
    then boolean (is_true (p field))
    else or_null (p field)

-- `typeof value === 'string' && value.isWellFormed() && [...value].length <= most`
unfoldable pub is_string_of : ℕ → Option Value → Bool
unfolding is_well_formed code_points
is_string_of most (some (text s)) = is_well_formed s && leb (length (code_points s)) most
is_string_of most _ = false

abbrev pub is_null : Option Value → Bool
is_null (some null) = true
is_null _ = false

abbrev pub is_blank : Option Value → Bool
is_blank (some (text s)) = length (trim s) == 0
is_blank _ = false

abbrev pub is_hex : ℕ → Bool
is_hex c = leb b'0' c && leb c b'9' || leb b'a' c && leb c b'f' || leb b'A' c && leb c b'F'

-- `/^#[\da-f]{6}$/i`
unfoldable pub is_color : Option Value → Bool
unfolding every
is_color (some (text (c ∷ digits))) = c == b'#' && length digits == 6 && every is_hex digits
is_color _ = false

abbrev pub is_amount : Option Value → Bool
is_amount (some (number n)) = true
is_amount (some (fraction n)) = true
is_amount _ = false

abbrev pub is_date : Option Value → Bool
is_date (some (text s)) = is_date_only s
is_date _ = false

abbrev pub is_boolean : Option Value → Bool
is_boolean (some (boolean b)) = true
is_boolean _ = false

-- The test of a field's value.
unfoldable pub is_valid_detail : Text → Option Value → Bool
unfolding is_string_of trim is_color contains is_date_only
is_valid_detail field value =
    if field == codes "name"
    then is_string_of 200 value && not (is_blank value)
    else if field == codes "description"
    then is_null value || is_string_of max_description value
    else if field == codes "color"
    then is_null value || is_color value
    else if field == codes "customer"
    then is_null value || is_string_of 500 value
    else if field == codes "rate" || field == codes "budget"
    then is_null value || is_amount value
    else if field == codes "startDate" || field == codes "endDate"
    then is_null value || is_date value
    else is_boolean value

-- `validateProjectDetail`. An absent value is refused by each test, so the last check of the source
-- has nothing left to refuse.
unfoldable pub validate_project_detail : Text → Option Value → Result LifecycleError (Unit {0})
unfolding is_valid_detail contains
validate_project_detail field value =
    throw_if (not (contains field project_detail_fields)) project_invalid
    >> throw_if (not (is_valid_detail field value)) project_invalid

-- The body of an edit; `malformed` where it does not consist of two plain objects `expected` and
-- `changes`.
pub data Body : Type 0 where
  malformed : Body
  body : (expected changes : List (Text × Value)) → Body

unfoldable pub entry : Text → List (Text × Value) → Option Value
entry field [] = none
entry field ((name, value) ∷ entries) = if name == field then some value else entry field entries

unfoldable pub validate_fields :
    List Text → (expected changes : List (Text × Value)) → Result LifecycleError (Unit {0})
unfolding validate_project_detail entry
validate_fields [] expected changes = ok tt
validate_fields (field ∷ fields) expected changes =
    validate_project_detail field (entry field expected)
    >> validate_project_detail field (entry field changes)
    >> validate_fields fields expected changes

abbrev pub keys : List (Text × Value) → List Text
keys entries = sort_keys (map (λ e. e.0) entries)

unfoldable pub validate_project_details_body : Body → Result LifecycleError (List Text)
unfolding validate_fields sort_keys
validate_project_details_body malformed = throw project_invalid
validate_project_details_body (body expected changes) =
    throw_if
      (length changes == 0
        || ltb (length project_detail_fields) (length changes)
        || not (keys expected == keys changes))
      project_invalid
    >> validate_fields (keys changes) expected changes
    >> ok (keys changes)
