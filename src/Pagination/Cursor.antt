-- ===== src/Pagination/Cursor.antt =====
-- `encodeCursor` and `decodeCursor`.
use titra.Common.{
  ℕ, Bool, false, not, ◌&&◌, ◌||◌, Option, none, some, List, [], ◌∷◌, ◌++◌, map, Text, List_eq,
  Option_eq, ℕ_eq, ◌==◌, leb, ltb, if◌then◌else◌, every, length, sort_keys, codes, Result, ok,
  throw, throw_if, ◌>>◌,
}
use titra.Revision.Decimal.{is_digit}
use titra.Calendar.Instant.{iso_text, iso_parse}
use titra.Pagination.{
  PageError, invalid_cursor, cursor_query_mismatch, type_error, Key, max_cursor_length,
}

-- A parsed cursor as far as the code looks into it.
pub data Member : Type 0 where
  text : Text → Member
  number : ℕ → Member
  another : Member

pub data Json : Type 0 where
  object : List (Text × Member) → Json
  no_object : Json

-- Node.js: `JSON.stringify` and `JSON.parse` (absent where it throws), `Buffer.from(text, 'utf8')
-- .toString('base64url')`, `Buffer.from(value, 'base64url').toString('utf8')` and the same buffer
-- `.toString('base64url')`, and `scopeDigest` of the scopes that it accepts.
pub record Codec (Scope : Type 0) : Type 0 where
  pub stringify : Json → Text
  pub parse : Text → Option Json
  pub to_base64url : Text → Text
  pub from_base64url : Text → Text
  pub again : Text → Text
  pub scope_digest : Scope → Text

-- `CURSOR_PATTERN`
unfoldable pub is_cursor_char : ℕ → Bool
is_cursor_char c =
    is_digit c || leb b'A' c && leb c b'Z' || leb b'a' c && leb c b'z' || c == b'_' || c == b'-'

unfoldable pub join : List Text → Text
join [] = []
join (x ∷ []) = x
join (x ∷ y ∷ ys) = x ++ (b',' ∷ join (y ∷ ys))

unfoldable pub member : Text → List (Text × Member) → Option Member
member key [] = none
member key ((name, value) ∷ fields) = if name == key then some value else member key fields

abbrev pub as_text : Option Member → Option Text
as_text (some (text s)) = some s
as_text _ = none

abbrev pub is_number : ℕ → Option Member → Bool
is_number n (some (number m)) = m == n
is_number n _ = false

abbrev pub key_v : Text
key_v = b'v' ∷ []

abbrev pub key_q : Text
key_q = b'q' ∷ []

abbrev pub key_d : Text
key_d = b'd' ∷ []

abbrev pub key_i : Text
key_i = b'i' ∷ []

abbrev pub cursor_json : Text → Text → Text → Json
cursor_json q d i =
    object ((key_v, number 1) ∷ (key_q, text q) ∷ (key_d, text d) ∷ (key_i, text i) ∷ [])

-- `!id || id.length > 128`
abbrev pub is_bad_id : Text → Bool
is_bad_id i = length i == 0 || ltb 128 (length i)

abbrev key_of_parts : Option ℕ → Text → Result PageError Key
key_of_parts none i = throw invalid_cursor
key_of_parts (some t) i = ok (record { date = t; id = i })

-- The key of a date and an id that are strings.
abbrev read_parts : Option Text → Option Text → Result PageError Key
read_parts (some d) (some i) =
    throw_if (is_bad_id i) cursor_query_mismatch >> key_of_parts (iso_parse d) i
read_parts _ _ = throw cursor_query_mismatch

-- The checks of a parsed cursor of a query with the digest `q`.
unfoldable pub read_cursor : Text → Json → Result PageError Key
unfolding iso_parse sort_keys join member
read_cursor q no_object = throw cursor_query_mismatch
read_cursor q (object fields) =
    throw_if (not (join (sort_keys (map (λ f. f.0) fields)) == codes "d,i,q,v"))
      cursor_query_mismatch
    >> throw_if (not (is_number 1 (member key_v fields))) cursor_query_mismatch
    >> throw_if (not (as_text (member key_q fields) == some q)) cursor_query_mismatch
    >> read_parts (as_text (member key_d fields)) (as_text (member key_i fields))

module _ {Scope : Type 0} (codec : Codec Scope) where
  -- `encodeCursor` of a valid date.
  unfoldable pub encode_cursor : Scope → Key → Result PageError Text
  unfolding iso_text
  encode_cursor scope key =
      throw_if (is_bad_id key.id) type_error
      >> ok (
          codec.to_base64url
            (codec.stringify (cursor_json (codec.scope_digest scope) (iso_text key.date) key.id)))

  abbrev read_parsed : Scope → Option Json → Result PageError Key
  read_parsed scope none = throw invalid_cursor
  read_parsed scope (some j) = read_cursor (codec.scope_digest scope) j

  -- `decodeCursor` of a string.
  unfoldable pub decode_cursor : Scope → Text → Result PageError Key
  unfolding is_cursor_char read_cursor every
  decode_cursor scope value =
      throw_if
        (length value == 0
          || ltb max_cursor_length (length value)
          || not (every is_cursor_char value))
        invalid_cursor
      >> throw_if (not (codec.again value == value)) invalid_cursor
      >> read_parsed scope (codec.parse (codec.from_base64url value))
