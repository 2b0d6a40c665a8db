-- ===== src/Pagination/Page.antt =====
-- `selectorAfter` and `fetchTimeentryPage`, and the bounds of the other reads.
use titra.Common.{
  ℕ, suc, ◌+◌, ◌-◌, ◌/◌, Bool, true, not, ◌&&◌, Option, none, some, List, [], ◌∷◌, Text, ltb, take,
  last, length, Result, ok, throw_if, ◌>>=◌, ◌>>◌,
}
use titra.Calendar.Civil.{day_ms}
use titra.Calendar.DateOnly.{Range}
use titra.Pagination.{
  PageError, date_range_too_large, legacy_result_too_large, type_error, Key, key_before,
  is_bad_limit,
}
use titra.Pagination.Cursor.{Codec, encode_cursor}
use titra.Pagination.Options.{Query, parse_page_options}

-- What a page says of itself; `version` and `consistency` are constants.
pub record Page (Doc : Type 0) : Type 0 where
  pub items : List Doc
  pub limit : ℕ
  pub returned : ℕ
  pub complete : Bool
  pub next_cursor : Option Text

-- `assertDateRangeLimit` of two valid dates.
unfoldable pub assert_date_range_limit : Range → ℕ → Result PageError ℕ
assert_date_range_limit range max_days =
    let days = (range.end_date - range.start_date) / day_ms + 1 in
    throw_if (is_bad_limit max_days) type_error
    >> throw_if (ltb range.end_date range.start_date) type_error
    >> throw_if (ltb max_days days) date_range_too_large
    >> ok days

module _ {Doc : Type 0} (key_of : Doc → Key) where
  -- The selector of the documents after a key.
  unfoldable pub selector_after : (Doc → Bool) → Option Key → Doc → Bool
  unfolding key_before
  selector_after base none d = base d
  selector_after base (some key) d = base d && key_before key (key_of d)

  -- The items are checked to be in order.
  unfoldable pub is_ordered : List Doc → Bool
  unfolding key_before
  is_ordered [] = true
  is_ordered (x ∷ []) = true
  is_ordered (x ∷ y ∷ ys) = key_before (key_of x) (key_of y) && is_ordered (y ∷ ys)

  module _ {Scope : Type 0} (codec : Codec Scope) where
    unfoldable pub next_cursor : Scope → Bool → Option Doc → Result PageError (Option Text)
    unfolding encode_cursor
    next_cursor scope true (some d) = encode_cursor codec scope (key_of d) >>= λ c. ok (some c)
    next_cursor scope _ _ = ok none

    -- What the documents, one more than the limit at most, become.
    unfoldable pub page_of : Scope → ℕ → List Doc → Result PageError (Page Doc)
    unfolding is_ordered next_cursor take last
    page_of scope limit documents =
        throw_if (not (is_ordered (take limit documents))) type_error
        >> (next_cursor scope (ltb limit (length documents)) (last (take limit documents))
            >>= λ next. ok (record {
              items = take limit documents;
              limit = limit;
              returned = length (take limit documents);
              complete = not (ltb limit (length documents));
              next_cursor = next;
            }))

    -- `fetchTimeentryPage`; `find selector limit` is the callback, sorted by date and id.
    unfoldable pub fetch_timeentry_page :
        ((Doc → Bool) → ℕ → List Doc)
        → (Doc → Bool)
        → Scope
        → Query
        → ℕ
        → ℕ
        → Result PageError (Page Doc)
    unfolding parse_page_options selector_after page_of
    fetch_timeentry_page find base scope query default_limit max_limit =
        parse_page_options codec query scope default_limit max_limit >>= λ options.
        page_of scope options.limit (find (selector_after base options.after) (suc options.limit))

-- `fetchBoundedLegacyList`, and `fetchBoundedAggregationList` with the pipeline as `find`.
unfoldable pub fetch_bounded_legacy_list :
    {Doc : Type 0} → (ℕ → List Doc) → ℕ → Result PageError (List Doc)
fetch_bounded_legacy_list find max_limit =
    throw_if (is_bad_limit max_limit) type_error
    >> throw_if (ltb max_limit (length (find (suc max_limit)))) legacy_result_too_large
    >> ok (find (suc max_limit))
