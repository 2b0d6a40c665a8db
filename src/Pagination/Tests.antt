-- ===== src/Pagination/Tests.antt =====
-- Three entries of two days in pages of two, and the theorems at them.
use titra.Common.{
  ℕ, suc, ◌≤◌, ◌+◌, ◌*◌, ◌-◌, ◌≡◌, refl, Bool, true, false, Option, none, some, List, [], ◌∷◌, ◌++◌,
  map, Text, codes, ℕ_eq, List_eq, ◌==◌, beq_list, ltb, if◌then◌else◌, take, drop, keep, All,
  length, every, is_before, ok, throw, arith,
}
use titra.Calendar.Civil.{day_ms, civil_of_days}
use titra.Calendar.Instant.{iso_text}
use titra.Calendar.DateOnly.{Range, day_number, parse_utc, iso_date, date_only_range}
use titra.Pagination.{
  cursor_query_mismatch, date_range_too_large, legacy_result_too_large, Key, key_before,
}
use titra.Pagination.Cursor.{
  Codec, Json, object, no_object, cursor_json, key_q, key_d, key_i, member, as_text, is_cursor_char,
  encode_cursor, decode_cursor,
}
use titra.Pagination.RoundTrip.{IsCodec, decode_cursor-encode_cursor, decode_cursor-another_query}
use titra.Pagination.Page.{Page, assert_date_range_limit, fetch_bounded_legacy_list}
use titra.Pagination.Walk.{walk, all_items}
use titra.Pagination.Walk.Complete.{walk_complete}
use titra.Pagination.Bounds.{assert_date_range_limit-days, fetch_bounded_legacy_list-whole}

-- Encodings with the documented behaviour at these entries: the digest, the date and the id one after
-- the other, with two letters for the characters that base64url has not.
abbrev letter : ℕ → ℕ
letter c = if c == b':' then b'x' else if c == b'.' then b'y' else c

abbrev character : ℕ → ℕ
character c = if c == b'x' then b':' else if c == b'y' then b'.' else c

abbrev or_empty : Option Text → Text
or_empty none = []
or_empty (some s) = s

abbrev stringify_parts : Json → Text
stringify_parts no_object = []
stringify_parts (object fields) =
    or_empty (as_text (member key_q fields))
    ++ (or_empty (as_text (member key_d fields)) ++ or_empty (as_text (member key_i fields)))

abbrev digest : ℕ → Text
digest scope =
    (48 + scope) ∷ codes "00112233445566778899aabbccddeeff00112233445566778899aabbccddeef"

abbrev codec : Codec ℕ
codec = record {
  stringify = stringify_parts;
  parse = λ s. some (cursor_json (take 64 s) (take 24 (drop 64 s)) (drop 88 s));
  to_base64url = map letter;
  from_base64url = map character;
  again = λ s. map letter (map character s);
  scope_digest = digest;
}

abbrev entry_1 : Key
entry_1 = record { date = 739_310 * day_ms; id = codes "a1" }

abbrev entry_2 : Key
entry_2 = record { date = 739_310 * day_ms; id = codes "b2" }

abbrev entry_3 : Key
entry_3 = record { date = 739_311 * day_ms; id = codes "a3" }

entry_1-IsCodec : IsCodec codec 1 entry_1
unfolding iso_text civil_of_days iso_date member every is_cursor_char take drop beq_list
entry_1-IsCodec = record {
  decoded = refl;
  parsed = refl;
  canonical = refl;
  letters = refl;
  not_empty = omega arith;
  short = omega arith;
  digest_size = refl;
}

entry_2-IsCodec : IsCodec codec 1 entry_2
unfolding iso_text civil_of_days iso_date member every is_cursor_char take drop beq_list
entry_2-IsCodec = record {
  decoded = refl;
  parsed = refl;
  canonical = refl;
  letters = refl;
  not_empty = omega arith;
  short = omega arith;
  digest_size = refl;
}

entry_3-IsCodec : IsCodec codec 1 entry_3
unfolding iso_text civil_of_days iso_date member every is_cursor_char take drop beq_list
entry_3-IsCodec = record {
  decoded = refl;
  parsed = refl;
  canonical = refl;
  letters = refl;
  not_empty = omega arith;
  short = omega arith;
  digest_size = refl;
}

abbrev entries : List Key
entries = entry_1 ∷ entry_2 ∷ entry_3 ∷ []

abbrev everything : Key → Bool
everything _ = true

decode_cursor-encode_cursor_example :
    (value : Text) × (encode_cursor codec 1 entry_1 ≡ ok value)
    × (decode_cursor codec 1 value ≡ ok entry_1)
decode_cursor-encode_cursor_example =
    decode_cursor-encode_cursor codec 1 entry_1 entry_1-IsCodec (omega arith) refl

digests_differ : (digest 1 == digest 2) ≡ false
unfolding beq_list
digests_differ = refl

decode_cursor-another_query_example :
    (value : Text) × (encode_cursor codec 1 entry_1 ≡ ok value)
    × (decode_cursor codec 2 value ≡ throw cursor_query_mismatch)
decode_cursor-another_query_example =
    decode_cursor-another_query codec 1 2 entry_1 entry_1-IsCodec (omega arith) refl digests_differ

entry_1-first : (key_before entry_1 entry_2 ≡ true) × (key_before entry_1 entry_3 ≡ true)
unfolding key_before is_before
entry_1-first = (refl, refl)

entry_2-before : key_before entry_2 entry_3 ≡ true
unfolding key_before is_before
entry_2-before = refl

walk_complete_example :
    (pages : List (Page Key)) × (walk
        (λ d. d)
        codec
        entries
        everything
        1
        2
        500
        (suc (length (keep everything entries)))
        none
      ≡ ok pages)
    × (all_items pages ≡ keep everything entries)
    × All (λ p. length p.items ≤ 2) pages
walk_complete_example =
    walk_complete (λ d. d) codec entries everything 1 2 500 (omega arith) (omega arith)
      (omega arith) ((entry_1-first.0, (entry_1-first.1, tt)), ((entry_2-before, tt), (tt, tt)))
      (
        record { laws = entry_1-IsCodec; has_id = refl; dated = omega arith },
        (
          record { laws = entry_2-IsCodec; has_id = refl; dated = omega arith },
          (record { laws = entry_3-IsCodec; has_id = refl; dated = omega arith }, tt),
        ),
      )

abbrev year_of_days : Range
year_of_days = record {
  start_date = 739_310 * day_ms;
  end_date = 739_311 * day_ms - 1 + 366 * day_ms;
}

first_number : day_number (codes "2024-02-29") ≡ some 739_310
unfolding day_number beq_list parse_utc iso_date civil_of_days
first_number = refl

second_number : day_number (codes "2025-03-01") ≡ some 739_676
unfolding day_number beq_list parse_utc iso_date civil_of_days
second_number = refl

year_range : date_only_range (codes "2024-02-29") (codes "2025-03-01") ≡ some year_of_days
unfolding date_only_range beq_list parse_utc iso_date civil_of_days
year_range = refl

assert_date_range_limit-days_example : assert_date_range_limit year_of_days 366 ≡ (
    if ltb 366 (739_676 - 739_310 + 1)
    then throw date_range_too_large
    else ok (739_676 - 739_310 + 1))
assert_date_range_limit-days_example =
    assert_date_range_limit-days (codes "2024-02-29") (codes "2025-03-01") 739_310 739_676
      year_of_days 366 first_number second_number year_range refl

fetch_bounded_legacy_list-whole_example :
    fetch_bounded_legacy_list (λ n. take n entries) 2
    ≡ (if ltb 2 (length entries) then throw legacy_result_too_large else ok entries)
fetch_bounded_legacy_list-whole_example = fetch_bounded_legacy_list-whole entries 2 refl
