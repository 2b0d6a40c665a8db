-- ===== src/Pagination.antt =====
-- server/apiPagination.js: pages of time entries by keyset, their cursors and options, and the bounds
-- of the other reads.
pub mod Cursor
pub mod RoundTrip
pub mod Options
pub mod Page
pub mod Keyset
pub mod Walk
pub mod Bounds
mod Tests
use titra.Common.{ℕ, ◌^◌, ◌-◌, Bool, ◌&&◌, ◌||◌, Text, ltb, eqb, is_before}

pub data PageError : Type 0 where
  invalid_cursor : PageError
  cursor_query_mismatch : PageError
  invalid_page_options : PageError
  invalid_page_limit : PageError
  date_range_too_large : PageError
  legacy_result_too_large : PageError
  type_error : PageError

-- What entries are sorted by, `{ date: 1, _id: 1 }`.
pub record Key : Type 0 where
  pub date : ℕ
  pub id : Text

-- `previous.date < item.date || (previous.date === item.date && previous._id < item._id)`
unfoldable pub key_before : Key → Key → Bool
unfolding is_before
key_before k l = ltb k.date l.date || (eqb k.date l.date && is_before k.id l.id)

abbrev pub default_page_limit : ℕ
default_page_limit = 200

abbrev pub max_page_limit : ℕ
max_page_limit = 500

abbrev pub max_cursor_length : ℕ
max_cursor_length = 2048

abbrev pub max_safe_integer : ℕ
max_safe_integer = 2 ^ 53 - 1

-- The test of `assertPositiveLimit`.
abbrev pub is_bad_limit : ℕ → Bool
is_bad_limit n = ltb n 1 || ltb max_safe_integer n
