-- ===== src/Common/Collection.antt =====
-- The part of a MongoDB collection that one document makes up: the driver is not code of the
-- repository, so its operations are parameters, with the documented behaviour that the code uses.
use mathlib.Core.Path.{◌≡◌, refl}
use native.Mathlib.Omega.{arith}
use mathlib.Core.Bool.{Bool, true, false}
use mathlib.Core.Option.{Option, none, some}
use Prim.Native.Nat.{ℕ}

-- What the driver answers to `updateOne`: a matched count, or a rejected promise.
pub data Reply : Type 0 where
  matched : ℕ → Reply
  rejected : Reply

-- A selector as the test that it makes of a document, and a modifier as its effect (`none` where
-- the server refuses it, as `$inc` of a field that is no number).
pub record Update (Doc : Type 0) : Type 0 where
  pub selector : Doc → Bool
  pub modifier : Doc → Option Doc

module _ {Doc : Type 0} where
  -- The document after the update took effect, or nothing if it does not fit.
  abbrev pub effect : Update Doc → Option Doc → Option Doc
  effect u none = none
  effect u (some d) = elim (u.selector d) [ true ↦ u.modifier d | false ↦ none ]

  -- `updateOne` is atomic on a document. An acknowledged count of one means that the document
  -- fitted and was replaced, zero that it did not fit and stayed; a rejected promise leaves open
  -- whether the update took effect.
  pub data Updated (u : Update Doc) (before after : Option Doc) : Reply → Type 0 where
    applied :
        (d : Doc) → effect u before ≡ some d → after ≡ some d → Updated u before after (matched 1)
    unmatched : effect u before ≡ none → after ≡ before → Updated u before after (matched 0)
    lost_applied :
        (d : Doc) → effect u before ≡ some d → after ≡ some d → Updated u before after rejected
    lost : after ≡ before → Updated u before after rejected

-- What the driver answers to `findOneAndUpdate` with `returnDocument: 'after'`: the document as it is
-- after the update, `none` for `null`, or a rejected promise.
pub data FoundReply (Doc : Type 0) : Type 0 where
  returned : Option Doc → FoundReply Doc
  refused : FoundReply Doc

module _ {Doc : Type 0} where
  pub data Returned (u : Update Doc) (before after : Option Doc) : FoundReply Doc → Type 0 where
    applied :
        (d : Doc)
        → effect u before ≡ some d
        → after ≡ some d
        → Returned u before after (returned (some d))
    unmatched : effect u before ≡ none → after ≡ before → Returned u before after (returned none)
    lost_applied :
        (d : Doc) → effect u before ≡ some d → after ≡ some d → Returned u before after refused
    lost : after ≡ before → Returned u before after refused

  -- Whether a selector fits the document.
  abbrev pub fits : (Doc → Bool) → Option Doc → Bool
  fits selector none = false
  fits selector (some d) = selector d

  -- `deleteOne`, in the same way.
  pub data Deleted (selector : Doc → Bool) (before after : Option Doc) : Reply → Type 0 where
    removed : fits selector before ≡ true → after ≡ none → Deleted selector before after (matched 1)
    unfit :
        fits selector before ≡ false → after ≡ before → Deleted selector before after (matched 0)
    lost_removed :
        fits selector before ≡ true → after ≡ none → Deleted selector before after rejected
    lost : after ≡ before → Deleted selector before after rejected

-- What `insertOne` answers under a unique index on what names the document: success, a duplicate-key
-- error, or another rejection, after which the document may have been inserted all the same.
pub data InsertReply : Type 0 where
  inserted duplicate insert_rejected : InsertReply

module _ {Doc : Type 0} where
  pub data Inserted (d : Doc) (before after : Option Doc) : InsertReply → Type 0 where
    fresh : before ≡ none → after ≡ some d → Inserted d before after inserted
    taken : (e : Doc) → before ≡ some e → after ≡ before → Inserted d before after duplicate
    lost_fresh : before ≡ none → after ≡ some d → Inserted d before after insert_rejected
    lost : after ≡ before → Inserted d before after insert_rejected

pub record Collection (Doc : Type 0) : Type 1 where
  pub Db : Type 0
  pub find : Db → Option Doc
  pub update_one : Update Doc → Db → Reply × Db
  pub find_one_and_update : Update Doc → Db → FoundReply Doc × Db
  pub delete_one : (Doc → Bool) → Db → Reply × Db
  pub insert_one : Doc → Db → InsertReply × Db
  pub update_one_lem :
      (u : Update Doc) (db : Db)
      → Updated u (find db) (find (update_one u db).1) (update_one u db).0
  pub find_one_and_update_lem :
      (u : Update Doc) (db : Db)
      → Returned u (find db) (find (find_one_and_update u db).1) (find_one_and_update u db).0
  pub delete_one_lem :
      (selector : Doc → Bool) (db : Db)
      → Deleted selector (find db) (find (delete_one selector db).1) (delete_one selector db).0
  pub insert_one_lem :
      (d : Doc) (db : Db) → Inserted d (find db) (find (insert_one d db).1) (insert_one d db).0

module _ {Doc : Type 0} where
  -- A matched count of one is given for a document that fitted, and is the document's change.
  pub Updated-one :
      (u : Update Doc) (before after : Option Doc) (r : Reply)
      → Updated u before after r
      → r ≡ matched 1
      → (s : Doc) × (d : Doc) × (before ≡ some s)
        × (u.selector s ≡ true)
        × (u.modifier s ≡ some d)
        × (after ≡ some d)
  Updated-one u before after r (Updated.applied d e a) h = taken before d e a
    where
      taken :
          (b : Option Doc) (d : Doc)
          → effect u b ≡ some d
          → after ≡ some d
          → (s : Doc) × (d : Doc) × (b ≡ some s)
            × (u.selector s ≡ true)
            × (u.modifier s ≡ some d)
            × (after ≡ some d)
      taken none d e a = cc
      taken (some s) d e a = (s, d, refl, ground arith, ground arith, a)
  Updated-one u before after r (Updated.unmatched e a) h = ground arith
  Updated-one u before after r (Updated.lost_applied d e a) h = cc
  Updated-one u before after r (Updated.lost a) h = cc

  -- A document that `findOneAndUpdate` gave back is the change of one that fitted.
  pub Returned-some :
      (u : Update Doc) (before after : Option Doc) (d : Doc)
      → Returned u before after (returned (some d))
      → (s : Doc) × (before ≡ some s)
        × (u.selector s ≡ true)
        × (u.modifier s ≡ some d)
        × (after ≡ some d)
  Returned-some u before after _ (Returned.applied d e a) = changed before e
    where
      changed :
          (b : Option Doc)
          → effect u b ≡ some d
          → (s : Doc) × (b ≡ some s)
            × (u.selector s ≡ true)
            × (u.modifier s ≡ some d)
            × (after ≡ some d)
      changed none e = cc
      changed (some s) e = (s, refl, ground arith, ground arith, a)

  -- The document and the whole database of one document, with a driver that always answers.
  abbrev pub acknowledge : Option Doc → Option Doc → Reply × Option Doc
  acknowledge none db = (matched 0, db)
  acknowledge (some d) db = (matched 1, some d)

  acknowledge-Updated :
      (u : Update Doc) (db changed : Option Doc)
      → effect u db ≡ changed
      → Updated u db (acknowledge changed db).1 (acknowledge changed db).0
  acknowledge-Updated u db none e = Updated.unmatched e refl
  acknowledge-Updated u db (some d) e = Updated.applied d e refl

  pub acknowledged :
      (u : Update Doc) (db : Option Doc)
      → Updated u db (acknowledge (effect u db) db).1 (acknowledge (effect u db) db).0
  acknowledged u db = acknowledge-Updated u db (effect u db) refl

  abbrev pub give_back : Option Doc → Option Doc → FoundReply Doc × Option Doc
  give_back none db = (returned none, db)
  give_back (some d) db = (returned (some d), some d)

  give_back-Returned :
      (u : Update Doc) (db changed : Option Doc)
      → effect u db ≡ changed
      → Returned u db (give_back changed db).1 (give_back changed db).0
  give_back-Returned u db none e = Returned.unmatched e refl
  give_back-Returned u db (some d) e = Returned.applied d e refl

  pub given_back :
      (u : Update Doc) (db : Option Doc)
      → Returned u db (give_back (effect u db) db).1 (give_back (effect u db) db).0
  given_back u db = give_back-Returned u db (effect u db) refl

  abbrev pub take_out : Bool → Option Doc → Reply × Option Doc
  take_out true db = (matched 1, none)
  take_out false db = (matched 0, db)

  take_out-Deleted :
      (selector : Doc → Bool) (db : Option Doc) (fit : Bool)
      → fits selector db ≡ fit
      → Deleted selector db (take_out fit db).1 (take_out fit db).0
  take_out-Deleted selector db true e = removed e refl
  take_out-Deleted selector db false e = unfit e refl

  pub taken_out :
      (selector : Doc → Bool) (db : Option Doc)
      → Deleted selector db (take_out (fits selector db) db).1 (take_out (fits selector db) db).0
  taken_out selector db = take_out-Deleted selector db (fits selector db) refl

  abbrev pub put_in : Doc → Option Doc → InsertReply × Option Doc
  put_in d none = (inserted, some d)
  put_in d (some e) = (duplicate, some e)

  pub put_in-Inserted : (d : Doc) (db : Option Doc) → Inserted d db (put_in d db).1 (put_in d db).0
  put_in-Inserted d none = fresh refl refl
  put_in-Inserted d (some e) = taken e refl refl

-- An instance of the interface, which shows that its laws can hold.
abbrev pub single : (Doc : Type 0) → Collection Doc
single Doc = record {
  Db = Option Doc;
  find = λ db. db;
  update_one = λ u db. acknowledge (effect u db) db;
  find_one_and_update = λ u db. give_back (effect u db) db;
  delete_one = λ selector db. take_out (fits selector db) db;
  insert_one = put_in;
  update_one_lem = acknowledged;
  insert_one_lem = put_in-Inserted;
  find_one_and_update_lem = given_back;
  delete_one_lem = taken_out;
}
