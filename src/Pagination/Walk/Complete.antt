-- ===== src/Pagination/Walk/Complete.antt =====
-- The pages of a walk are all the documents of the query.
use titra.Common.{
  ℕ, zero, suc, ◌≤◌, ◌<◌, ◌≡◌, refl, sym, ap, subst, ◌∙◌, Bool, true, false, Option, none, some,
  List, [], ◌∷◌, ◌++◌, arith, Text, keep, last, take, drop, length, length-append, take-drop,
  length-take_full, length-take_le, append_assoc, All, All-keep, inl, inr, lt-cases, ok,
}
use titra.Pagination.{Key, max_safe_integer}
use titra.Pagination.Cursor.{Codec, encode_cursor, decode_cursor}
use titra.Pagination.RoundTrip.{decode_cursor-encode_cursor}
use titra.Pagination.Options.{page_after}
use titra.Pagination.Page.{Page, selector_after}
use titra.Pagination.Keyset.{
  IsSorted, keep-IsSorted, selector_after-cuts, last-split, last-exists, All-middle,
}
use titra.Pagination.Walk.{
  IsKey, cursors_of, all_items, walk, fetch-page, page_of-last, page_of-more,
}

module _ {Doc Scope : Type 0} (key_of : Doc → Key) (codec : Codec Scope) (docs : List Doc)
    (base : Doc → Bool) (scope : Scope) (limit max_limit : ℕ) (positive : 1 ≤ limit)
    (allowed : limit ≤ max_limit) (safe : max_limit ≤ max_safe_integer)
    (sorted : IsSorted key_of docs) (keys : All (λ d. IsKey codec scope (key_of d)) docs) where
  -- A place in the walk: `front` has been read and `rest` is left.
  record At (cursor : Option Text) (front rest : List Doc) : Type 0 where
    after : Option Key
    decoded : page_after codec scope (cursors_of cursor) ≡ ok after
    selected : keep (selector_after key_of base after) docs ≡ rest
    matching : keep base docs ≡ front ++ rest

  rest-IsSorted :
      {cursor : Option Text} {front rest : List Doc} → At cursor front rest → IsSorted key_of rest
  rest-IsSorted at =
      subst (IsSorted key_of) at.selected
        (keep-IsSorted key_of (selector_after key_of base at.after) docs sorted)

  -- A page that is not the last ends in a document whose cursor leads on.
  record Turn (front rest : List Doc) : Type 0 where
    doc : Doc
    cursor : Text
    ends : last (take limit rest) ≡ some doc
    made : encode_cursor codec scope (key_of doc) ≡ ok cursor
    leads : At (some cursor) (front ++ take limit rest) (drop limit rest)

  page_after-decoded :
      (cursor : Text) (key : Key)
      → decode_cursor codec scope cursor ≡ ok key
      → page_after codec scope (cursor ∷ []) ≡ ok (some key)
  unfolding page_after
  page_after-decoded cursor key h = rw h refl

  turn :
      (cursor : Option Text) (front rest : List Doc)
      → At cursor front rest
      → limit < length rest
      → Turn front rest
  turn cursor front rest at more =
      let (l, ends) =
        last_of_page (take limit rest) (length-take_full limit rest (omega (arith, more))) in
      let (init, split) = last-split (take limit rest) l ends in
      let cut : keep base docs ≡ (front ++ init) ++ (l ∷ drop limit rest) =
        at.matching
        ∙ ap (λ ds. front ++ ds) (sym (take-drop limit rest))
        ∙ ap (λ ds. front ++ (ds ++ drop limit rest)) split
        ∙ ap (λ ds. front ++ ds) (append_assoc init (l ∷ []) (drop limit rest))
        ∙ sym (append_assoc front init (l ∷ drop limit rest)) in
      let key =
        All-middle (λ d. IsKey codec scope (key_of d)) (front ++ init) l (drop limit rest)
          (subst (All (λ d. IsKey codec scope (key_of d))) cut
            (All-keep base (λ d. IsKey codec scope (key_of d)) docs keys)) in
      let (value, made, decoded) =
        decode_cursor-encode_cursor codec scope (key_of l) key.laws key.dated key.has_id in
      record {
        doc = l;
        cursor = value;
        ends = ends;
        made = made;
        leads = record {
          after = some (key_of l);
          decoded = page_after-decoded value (key_of l) decoded;
          selected =
              selector_after-cuts key_of base docs (front ++ init) l (drop limit rest) sorted cut;
          matching =
              at.matching
              ∙ ap (λ ds. front ++ ds) (sym (take-drop limit rest))
              ∙ sym (append_assoc front (take limit rest) (drop limit rest));
        };
      }
    where
      last_of_page : (page : List Doc) → length page ≡ limit → (l : Doc) × (last page ≡ some l)
      last_of_page [] h = absurd (omega (arith, h, positive))
      last_of_page (x ∷ xs) h = last-exists x xs

  -- What a walk from a place in it gives.
  record Walked (rounds : ℕ) (cursor : Option Text) (rest : List Doc) : Type 0 where
    pages : List (Page Doc)
    result : walk key_of codec docs base scope limit max_limit rounds cursor ≡ ok pages
    items : all_items pages ≡ rest
    bounded : All (λ p. length p.items ≤ limit) pages

  walk-from :
      (rounds : ℕ) (cursor : Option Text) (front rest : List Doc)
      → At cursor front rest
      → length rest < rounds
      → Walked rounds cursor rest
  unfolding walk
  walk-from zero cursor front rest at enough = absurd (omega (arith, enough))
  walk-from (suc rounds) cursor front rest at enough =
      let first =
        fetch-page key_of codec docs base scope limit max_limit positive allowed safe cursor
          at.after rest at.decoded at.selected in
      elim (lt-cases limit (length rest)) [
        | inr fits ↦
            let page =
              page_of-last key_of codec docs base scope limit max_limit rest (rest-IsSorted at)
                fits in
            record {
              pages =
                  record {
                    items = rest;
                    limit = limit;
                    returned = length rest;
                    complete = true;
                    next_cursor = none;
                  }
                  ∷ [];
              result = rw (walk, first, page) refl;
              items = append_nil rest;
              bounded = (fits, tt);
            }
        | inl more ↦
            let next = turn cursor front rest at more in
            let page =
              page_of-more key_of codec docs base scope limit max_limit rest next.doc next.cursor
                (rest-IsSorted at) more next.ends next.made in
            let later =
              walk-from rounds (some next.cursor) (front ++ take limit rest) (drop limit rest)
                next.leads (shorter rest enough more) in
            record {
              pages =
                  record {
                    items = take limit rest;
                    limit = limit;
                    returned = length (take limit rest);
                    complete = false;
                    next_cursor = some next.cursor;
                  }
                  ∷ later.pages;
              result = rw (walk, first, page, later.result) refl;
              items = ap (λ ds. take limit rest ++ ds) later.items ∙ take-drop limit rest;
              bounded = (length-take_le limit rest, later.bounded);
            }
      ]
    where
      append_nil : (ds : List Doc) → ds ++ [] ≡ ds
      append_nil [] = refl
      append_nil (d ∷ ds) = ap (λ t. d ∷ t) (append_nil ds)

      shorter :
          (ds : List Doc)
          → length ds < suc rounds
          → limit < length ds
          → length (drop limit ds) < rounds
      shorter ds below more = omega (
        arith,
        below,
        positive,
        length-append (take limit ds) (drop limit ds),
        length-take_full limit ds (omega (arith, more)),
        ap length (take-drop limit ds),
      )

  -- A client that asks for the first page and then follows the cursors is never refused. It receives
  -- every document that the query matches exactly once and in order, in pages of at most the limit,
  -- and comes to a page without a cursor in at most one request per document and one more. The
  -- documents are in the order of date and id and do not change meanwhile; their ids have 1 to 128
  -- characters and their dates lie in the years up to 9999.
  pub walk_complete :
      (pages : List (Page Doc)) × (walk key_of codec docs base scope limit max_limit
          (suc (length (keep base docs)))
          none
        ≡ ok pages)
      × (all_items pages ≡ keep base docs)
      × All (λ p. length p.items ≤ limit) pages
  walk_complete =
      let walked =
        walk-from (suc (length (keep base docs))) none [] (keep base docs)
          (record { after = none; decoded = start; selected = all_selected; matching = refl })
          (omega arith) in
      (walked.pages, walked.result, walked.items, walked.bounded)
    where
      start : page_after codec scope [] ≡ ok none
      start = unfold page_after in refl

      all_selected : keep (selector_after key_of base none) docs ≡ keep base docs
      all_selected = unfold selector_after in refl
