-- ===== src/Pagination/Options.antt =====
-- `parsePageOptions`.
use titra.Common.{
  ℕ, Bool, false, not, ◌&&◌, ◌||◌, Option, none, some, List, [], ◌∷◌, map, Text, List_eq, ℕ_eq,
  ◌==◌, leb, ltb, every, any, keep, length, codes, Result, ok, throw_if, ◌>>=◌, ◌>>◌,
}
use titra.Revision.Decimal.{is_digit, read}
use titra.Pagination.{
  PageError, invalid_page_options, invalid_page_limit, type_error, Key, max_safe_integer,
  is_bad_limit,
}
use titra.Pagination.Cursor.{Codec, decode_cursor}

-- The names and values of URLSearchParams.
abbrev pub Query : Type 0
Query = List (Text × Text)

pub record PageOptions : Type 0 where
  pub limit : ℕ
  pub after : Option Key

abbrev pub limit_key : Text
limit_key = codes "limit"

abbrev pub cursor_key : Text
cursor_key = codes "cursor"

-- `queryValues`
unfoldable pub query_values : Text → Query → List Text
unfolding keep
query_values name query = map (λ kv. kv.1) (keep (λ kv. kv.0 == name) query)

-- `/^[1-9][0-9]*$/`
unfoldable pub is_positive_integer : Text → Bool
unfolding every
is_positive_integer [] = false
is_positive_integer (c ∷ cs) = leb b'1' c && leb c b'9' && every is_digit cs

-- The limit of the query, where it has one.
unfoldable pub page_limit : ℕ → ℕ → List Text → Result PageError ℕ
unfolding is_positive_integer read
page_limit default_limit max_limit [] = ok default_limit
page_limit default_limit max_limit (s ∷ _) =
    throw_if (not (is_positive_integer s)) invalid_page_limit
    >> throw_if (ltb max_safe_integer (read s) || ltb max_limit (read s)) invalid_page_limit
    >> ok (read s)

module _ {Scope : Type 0} (codec : Codec Scope) where
  unfoldable pub page_after : Scope → List Text → Result PageError (Option Key)
  unfolding decode_cursor
  page_after scope [] = ok none
  page_after scope (c ∷ _) = decode_cursor codec scope c >>= λ key. ok (some key)

  unfoldable pub parse_page_options : Query → Scope → ℕ → ℕ → Result PageError PageOptions
  unfolding query_values page_limit page_after any
  parse_page_options query scope default_limit max_limit =
      throw_if
        (is_bad_limit default_limit
          || ltb max_safe_integer max_limit
          || ltb max_limit default_limit)
        type_error
      >> throw_if (any (λ kv. not (kv.0 == cursor_key || kv.0 == limit_key)) query)
          invalid_page_options
      >> throw_if
          (ltb 1 (length (query_values limit_key query))
            || ltb 1 (length (query_values cursor_key query)))
          invalid_page_options
      >> (page_limit default_limit max_limit (query_values limit_key query) >>= λ limit.
          page_after scope (query_values cursor_key query) >>= λ after.
          ok (record { limit = limit; after = after }))
