-- ===== src/Pagination/RoundTrip.antt =====
-- A cursor that was made is read back by the query that it was made for, and by no other.
use titra.Common.{
  ℕ, ◌+◌, ◌*◌, ◌≤◌, ◌≡◌, refl, sym, subst, ap, ◌∙◌, true, false, not, ◌||◌, some, arith, Text,
  List_eq, Option_eq, ℕ_eq, ◌==◌, ==_self, beq_list, beq_option, sort_keys, ltb, every, length, ok,
  throw,
}
use titra.Calendar.Instant.{iso_text, iso_parse, last_instant, iso_parse-iso_text, length-iso_text}
use titra.Pagination.{cursor_query_mismatch, Key, max_cursor_length}
use titra.Pagination.Cursor.{
  Codec, Json, cursor_json, is_cursor_char, join, member, is_bad_id, read_cursor, encode_cursor,
  decode_cursor,
}

-- The text of a cursor.
abbrev pub cursor_text : {Scope : Type 0} → Codec Scope → Scope → Key → Text
cursor_text codec scope key =
    codec.stringify (cursor_json (codec.scope_digest scope) (iso_text key.date) key.id)

-- What Node.js documents of its encodings, at the cursor of a key. A character takes at most six
-- bytes as JSON, and three bytes make four characters. A digest is 64 hexadecimal digits.
pub record IsCodec {Scope : Type 0} (codec : Codec Scope) (scope : Scope) (key : Key) : Type 0 where
  pub decoded :
      codec.from_base64url (codec.to_base64url (cursor_text codec scope key))
      ≡ cursor_text codec scope key
  pub parsed :
      codec.parse (cursor_text codec scope key)
      ≡ some (cursor_json (codec.scope_digest scope) (iso_text key.date) key.id)
  pub canonical :
      codec.again (codec.to_base64url (cursor_text codec scope key))
      ≡ codec.to_base64url (cursor_text codec scope key)
  pub letters : every is_cursor_char (codec.to_base64url (cursor_text codec scope key)) ≡ true
  pub not_empty : 1 ≤ length (codec.to_base64url (cursor_text codec scope key))
  pub short :
      length (codec.to_base64url (cursor_text codec scope key))
      ≤ 8 * (length (codec.scope_digest scope) + length (iso_text key.date) + length key.id) + 64
  pub digest_size : length (codec.scope_digest scope) ≡ 64

-- The members that the code reads of a cursor that it made.
read_cursor-made :
    (q d i : Text) (t : ℕ)
    → is_bad_id i ≡ false
    → iso_parse d ≡ some t
    → read_cursor q (cursor_json q d i) ≡ ok (record { date = t; id = i })
unfolding read_cursor sort_keys join member beq_list beq_option
read_cursor-made q d i t good parsed = rw (==_self q, good, parsed) refl

-- A cursor of another query's digest is refused.
read_cursor-other :
    (q q' d i : Text)
    → (q == q') ≡ false
    → read_cursor q' (cursor_json q d i) ≡ throw cursor_query_mismatch
unfolding read_cursor sort_keys join member beq_list beq_option
read_cursor-other q q' d i differs = rw differs refl

module _ {Scope : Type 0} (codec : Codec Scope) where
  decode_cursor-accepts :
      (scope : Scope) (value : Text) (j : Json)
      → 1 ≤ length value
      → length value ≤ max_cursor_length
      → every is_cursor_char value ≡ true
      → codec.again value ≡ value
      → codec.parse (codec.from_base64url value) ≡ some j
      → decode_cursor codec scope value ≡ read_cursor (codec.scope_digest scope) j
  unfolding decode_cursor
  decode_cursor-accepts scope value j some_length fits letters canonical parsed =
      rw
        (
          decode_cursor,
          usable,
          subst (λ v. (v == value) ≡ true) (sym canonical) (==_self value),
          parsed,
        )
        refl
    where
      usable :
          (length value == 0
            || ltb max_cursor_length (length value)
            || not (every is_cursor_char value))
          ≡ false
      usable = ground (arith, some_length, fits, letters)

  encode_cursor-good :
      (scope : Scope) (key : Key)
      → is_bad_id key.id ≡ false
      → encode_cursor codec scope key
        ≡ ok (
            codec.to_base64url
              (codec.stringify (cursor_json (codec.scope_digest scope) (iso_text key.date) key.id)))
  unfolding encode_cursor
  encode_cursor-good scope key good = rw (encode_cursor, good) refl

  -- What decoding a made cursor comes to.
  decode_cursor-made :
      (scope scope' : Scope) (key : Key)
      → IsCodec codec scope key
      → key.date ≤ last_instant
      → is_bad_id key.id ≡ false
      → (value : Text) × (encode_cursor codec scope key ≡ ok value)
        × (decode_cursor codec scope' value
            ≡ read_cursor
                (codec.scope_digest scope')
                (cursor_json (codec.scope_digest scope) (iso_text key.date) key.id))
  decode_cursor-made scope scope' key laws within good =
      let q = codec.scope_digest scope in
      let d = iso_text key.date in
      let made = codec.to_base64url (codec.stringify (cursor_json q d key.id)) in
      (
        made,
        encode_cursor-good scope key good,
        decode_cursor-accepts scope' made (cursor_json q d key.id) laws.not_empty
            (ground (arith, good, laws.short, laws.digest_size, length-iso_text key.date within))
            laws.letters laws.canonical (ap codec.parse laws.decoded ∙ laws.parsed),
      )

  -- The cursor of an entry with an id of 1 to 128 characters, at an instant up to the year 9999, is
  -- decoded to the entry's date and id by a query of the same scope.
  pub decode_cursor-encode_cursor :
      (scope : Scope) (key : Key)
      → IsCodec codec scope key
      → key.date ≤ last_instant
      → is_bad_id key.id ≡ false
      → (value : Text) × (encode_cursor codec scope key ≡ ok value)
        × (decode_cursor codec scope value ≡ ok key)
  decode_cursor-encode_cursor scope key laws within good =
      let (value, made, comes_to) = decode_cursor-made scope scope key laws within good in
      (
        value,
        made,
        comes_to
            ∙ read_cursor-made (codec.scope_digest scope) (iso_text key.date) key.id key.date good
                (iso_parse-iso_text key.date within),
      )

  -- A query whose scope has another digest refuses the cursor.
  pub decode_cursor-another_query :
      (scope scope' : Scope) (key : Key)
      → IsCodec codec scope key
      → key.date ≤ last_instant
      → is_bad_id key.id ≡ false
      → (codec.scope_digest scope == codec.scope_digest scope') ≡ false
      → (value : Text) × (encode_cursor codec scope key ≡ ok value)
        × (decode_cursor codec scope' value ≡ throw cursor_query_mismatch)
  decode_cursor-another_query scope scope' key laws within good differs =
      let (value, made, comes_to) = decode_cursor-made scope scope' key laws within good in
      (
        value,
        made,
        comes_to
            ∙ read_cursor-other (codec.scope_digest scope) (codec.scope_digest scope')
                (iso_text key.date) key.id differs,
      )
