-- ===== src/Limits.antt =====
-- imports/utils/limitParameter.js and pageParameter.js, which read the limit and the page of a list
-- from the address, and the server's own checks of them: normalizeBoundedPagination of
-- imports/utils/resourceLimits.js and the check of imports/utils/detailedTimeQuery.js.
pub mod Accepted
mod Tests
use titra.Common.{
  ℕ, ◌-◌, ◌*◌, Bool, true, false, not, ◌&&◌, ◌||◌, Option, none, some, [], ◌∷◌, Text, codes,
  List_eq, ℕ_eq, ◌==◌, every, length, leb, ltb, min, if◌then◌else◌,
}
use titra.Revision.Decimal.{is_digit, read, decimal}

-- A parameter: absent, a string, an integer by its sign and size, or another value.
pub data Parameter : Type 0 where
  absent : Parameter
  string : Text → Parameter
  integer : (negative : Bool) → ℕ → Parameter
  another : Parameter

abbrev pub default_limit_parameter : ℕ
default_limit_parameter = 25

abbrev pub max_detailed_limit : ℕ
max_detailed_limit = 500

abbrev pub max_working_time_rows : ℕ
max_working_time_rows = 500

abbrev pub max_detailed_page : ℕ
max_detailed_page = 10000

abbrev pub max_resource_page : ℕ
max_resource_page = 10000

abbrev pub max_limit_parameter : ℕ
max_limit_parameter = min max_detailed_limit max_working_time_rows

abbrev pub max_page_parameter : ℕ
max_page_parameter = min max_detailed_page max_resource_page

-- `/^[1-9]\d{0,n}$/`
unfoldable pub is_short_number : ℕ → Text → Bool
unfolding every
is_short_number n [] = false
is_short_number n (c ∷ cs) = leb b'1' c && leb c b'9' && leb (length cs) n && every is_digit cs

abbrev pub within : ℕ → ℕ → ℕ → ℕ
within most fallback n = if leb 1 n && leb n most then n else fallback

unfoldable pub normalize_limit_parameter : Parameter → ℕ
unfolding is_short_number read
normalize_limit_parameter (string s) =
    if s == codes "-1"
    then max_limit_parameter
    else if is_short_number 2 s
    then within max_limit_parameter default_limit_parameter (read s)
    else default_limit_parameter
normalize_limit_parameter (integer false n) = within max_limit_parameter default_limit_parameter n
normalize_limit_parameter (integer true n) =
    if n == 1 then max_limit_parameter else default_limit_parameter
normalize_limit_parameter _ = default_limit_parameter

unfoldable pub normalize_page_parameter : Parameter → ℕ
unfolding is_short_number read
normalize_page_parameter (string s) =
    if is_short_number 4 s then within max_page_parameter 1 (read s) else 1
normalize_page_parameter (integer false n) = within max_page_parameter 1 n
normalize_page_parameter _ = 1

pub record Paging : Type 0 where
  pub limit : ℕ
  pub page : ℕ
  pub skip : ℕ

-- A page of null or 0 is the first.
abbrev pub page_or_first : Parameter → Parameter
page_or_first absent = integer false 1
page_or_first (integer false n) = if n == 0 then integer false 1 else integer false n
page_or_first p = p

abbrev pub paging_of : ℕ → ℕ → Parameter → Parameter → Option Paging
paging_of max_limit max_page (integer false limit) (integer false page) =
    if leb 1 limit && leb limit max_limit && leb 1 page && leb page max_page
    then some (record { limit = limit; page = page; skip = (page - 1) * limit })
    else none
paging_of max_limit max_page _ _ = none

-- `normalizeBoundedPagination`; `none` where it throws.
unfoldable pub normalize_bounded_pagination : Parameter → Parameter → ℕ → ℕ → Option Paging
normalize_bounded_pagination limit page max_limit max_page =
    paging_of max_limit max_page limit (page_or_first page)

abbrev pub detailed_of : ℕ → ℕ → Option (Option ℕ × ℕ)
detailed_of limit page =
    if leb 1 limit && leb limit max_detailed_limit && leb page max_detailed_page
    then some (some limit, if ltb 1 page then (page - 1) * limit else 0)
    else none

-- `normalizeDetailedPagination`, the limit and what is skipped; `none` where it throws.
unfoldable pub normalize_detailed_pagination : Parameter → Parameter → Option (Option ℕ × ℕ)
normalize_detailed_pagination absent absent = some (none, 0)
normalize_detailed_pagination (integer false limit) absent = detailed_of limit 0
normalize_detailed_pagination (integer false limit) (integer false page) = detailed_of limit page
normalize_detailed_pagination _ _ = none
