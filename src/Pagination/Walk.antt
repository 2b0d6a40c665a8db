-- ===== src/Pagination/Walk.antt =====
-- A client that follows the cursors of one query.
pub mod Complete
use titra.Common.{
  ℕ, zero, suc, ◌+◌, ◌≤◌, ◌<◌, ◌≡◌, refl, sym, ap, subst, ◌∙◌, Bool, true, false, not, ◌&&◌, ◌||◌,
  Option, none, some, List, [], ◌∷◌, ◌++◌, arith, Text, List_eq, ℕ_eq, ◌==◌, beq_list, ltb, any,
  keep, last, take, drop, length, length-append, take-drop, take_all, length-take_full,
  take-take-suc, length-take_le, append_assoc, All, if◌then◌else◌, ◌⊎◌, inl, inr, Bool-cases, codes,
  Result, ok, throw, ◌>>=◌, ◌>>◌, throw_if,
}
use titra.Calendar.Instant.{last_instant}
use titra.Pagination.{Key, PageError, type_error, is_bad_limit, max_safe_integer}
use titra.Pagination.Cursor.{Codec, is_bad_id, encode_cursor, decode_cursor}
use titra.Pagination.RoundTrip.{IsCodec, decode_cursor-encode_cursor}
use titra.Pagination.Options.{
  Query, PageOptions, cursor_key, limit_key, query_values, page_limit, page_after,
  parse_page_options,
}
use titra.Pagination.Page.{
  Page, selector_after, is_ordered, next_cursor, page_of, fetch_timeentry_page,
}
use titra.Pagination.Keyset.{
  IsSorted, keep-IsSorted, selector_after-cuts, is_ordered-take, last-split, last-exists,
  All-middle,
}

-- A request that names no limit, the first or with a cursor.
abbrev pub cursors_of : Option Text → List Text
cursors_of none = []
cursors_of (some c) = c ∷ []

abbrev pub query_of : Option Text → Query
query_of none = []
query_of (some c) = (cursor_key, c) ∷ []

abbrev pub all_items : {Doc : Type 0} → List (Page Doc) → List Doc
all_items [] = []
all_items (p ∷ ps) = p.items ++ all_items ps

-- The keys that cursors are made of.
pub record IsKey {Scope : Type 0} (codec : Codec Scope) (scope : Scope) (key : Key) : Type 0 where
  pub laws : IsCodec codec scope key
  pub has_id : is_bad_id key.id ≡ false
  pub dated : key.date ≤ last_instant

-- The collection's documents, sorted by date and id.
abbrev pub find_in : {Doc : Type 0} → List Doc → (Doc → Bool) → ℕ → List Doc
find_in docs selector n = take n (keep selector docs)

later : (n : ℕ) → ltb n (suc n) ≡ true
later n = ground arith

module _ {Doc Scope : Type 0} (key_of : Doc → Key) (codec : Codec Scope) (docs : List Doc)
    (base : Doc → Bool) (scope : Scope) (limit max_limit : ℕ) where
  -- The pages from a cursor on, until one has no next cursor. It fails if the rounds run out.
  unfoldable pub walk : ℕ → Option Text → Result PageError (List (Page Doc))
  unfolding fetch_timeentry_page keep take
  walk zero cursor = throw type_error
  walk (suc rounds) cursor =
      fetch_timeentry_page key_of codec (find_in docs) base scope (query_of cursor) limit max_limit
      >>= λ page. elim (page.next_cursor) [
        | none ↦ ok (page ∷ [])
        | some next ↦ walk rounds (some next) >>= λ pages. ok (page ∷ pages)
      ]

  module _ (positive : 1 ≤ limit) (allowed : limit ≤ max_limit)
      (safe : max_limit ≤ max_safe_integer) where
    usable : (is_bad_limit limit || ltb max_safe_integer max_limit || ltb max_limit limit) ≡ false
    usable = ground (arith, positive, allowed, safe)

    abbrev parsed : Result PageError (Option Key) → Result PageError PageOptions
    parsed r = r >>= λ a. ok (record { limit = limit; after = a })

    parse_page_options-cursor :
        (cursor : Option Text) (after : Option Key)
        → page_after codec scope (cursors_of cursor) ≡ ok after
        → parse_page_options codec (query_of cursor) scope limit max_limit
          ≡ ok (record { limit = limit; after = after })
    unfolding parse_page_options query_values any keep page_limit beq_list
    parse_page_options-cursor none after h = rw (parse_page_options, usable) (ap parsed h)
    parse_page_options-cursor (some c) after h = rw (parse_page_options, usable) (ap parsed h)

    pub fetch-page :
        (cursor : Option Text) (after : Option Key) (rest : List Doc)
        → page_after codec scope (cursors_of cursor) ≡ ok after
        → keep (selector_after key_of base after) docs ≡ rest
        → fetch_timeentry_page key_of codec
            (find_in docs)
            base
            scope
            (query_of cursor)
            limit
            max_limit
          ≡ page_of key_of codec scope limit (take (suc limit) rest)
    unfolding fetch_timeentry_page
    fetch-page cursor after rest h selected =
        rw (fetch_timeentry_page, parse_page_options-cursor cursor after h)
          (ap (λ ds. page_of key_of codec scope limit (take (suc limit) ds)) selected)

  pub page_of-last :
      (rest : List Doc)
      → IsSorted key_of rest
      → length rest ≤ limit
      → page_of key_of codec scope limit (take (suc limit) rest)
        ≡ ok (record {
          items = rest;
          limit = limit;
          returned = length rest;
          complete = true;
          next_cursor = none;
        })
  unfolding page_of next_cursor
  page_of-last rest sorted fits =
      rw
        (
          page_of,
          take_all (suc limit) rest (omega (arith, fits)),
          take_all limit rest fits,
          subst (λ xs. is_ordered key_of xs ≡ true) (take_all limit rest fits)
              (is_ordered-take key_of limit rest sorted),
          within,
        )
        refl
    where
      within : ltb limit (length rest) ≡ false
      within = ground (arith, fits)

  pub page_of-more :
      (rest : List Doc) (l : Doc) (cursor : Text)
      → IsSorted key_of rest
      → limit < length rest
      → last (take limit rest) ≡ some l
      → encode_cursor codec scope (key_of l) ≡ ok cursor
      → page_of key_of codec scope limit (take (suc limit) rest)
        ≡ ok (record {
          items = take limit rest;
          limit = limit;
          returned = length (take limit rest);
          complete = false;
          next_cursor = some cursor;
        })
  unfolding page_of next_cursor
  page_of-more rest l cursor sorted more at made =
      rw
        (
          page_of,
          take-take-suc limit rest,
          is_ordered-take key_of limit rest sorted,
          beyond,
          at,
          made,
        )
        refl
    where
      beyond : ltb limit (length (take (suc limit) rest)) ≡ true
      beyond =
          subst (λ n. ltb limit n ≡ true)
            (sym (length-take_full (suc limit) rest (omega (arith, more)))) (later limit)
