-- ===== src/Webhook/Claims.antt =====
-- What a successful claim did to the receipt.
use titra.Common.{
  ℕ, ◌≤◌, ◌≡◌, refl, sym, ap, ◌∙◌, subst, Bool, true, false, Option, none, some, arith, Text, ℕ_eq,
  List_eq, Option_eq, ==→≡, leb→le, eqb_iff, Result, ok, throw,
}
use titra.Common.Collection.{
  Collection, Reply, matched, rejected, InsertReply, Inserted, fresh, inserted, duplicate,
  insert_rejected, Updated-one,
}
use titra.Webhook.Receipts.{
  WebhookError, Status, pending, processed, failed, Receipt, is_status, is_lapsed, same_receipt,
  reclaim_selector, reclaim_modifier, reclaim_update,
}
use titra.Webhook.Store.{
  Claim, Claimed, claimed, validate_claim, new_receipt, Decision, conflicts, touches_processed,
  touches_pending, reclaims, decide_claim, answer_touch, answer_reclaim, claim_decided,
  claim_existing, claim_inserted, claim_valid, claim,
}

-- A receipt that a new delivery may take over: its processing failed, or its lease has lapsed.
pub data IsFree (now : ℕ) (r : Receipt) : Type 0 where
  was_failed : r.status ≡ failed → IsFree now r
  was_lapsed :
      (until : ℕ) → r.status ≡ pending → r.lease_until ≡ some until → until ≤ now → IsFree now r

is_status-eq : (s t : Status) → is_status s t ≡ true → s ≡ t
unfolding is_status
is_status-eq pending pending e = refl
is_status-eq processed processed e = refl
is_status-eq failed failed e = refl
is_status-eq pending processed e = cc
is_status-eq pending failed e = cc
is_status-eq processed pending e = cc
is_status-eq processed failed e = cc
is_status-eq failed pending e = cc
is_status-eq failed processed e = cc

is_lapsed-some :
    (lease : Option ℕ) (now : ℕ)
    → is_lapsed lease now ≡ true
    → (until : ℕ) × (lease ≡ some until) × (until ≤ now)
unfolding is_lapsed
is_lapsed-some none now e = cc
is_lapsed-some (some until) now e = (until, refl, leb→le until now e)

-- What the query of a reclaim found.
pub reclaim_selector-IsFree :
    (existing : Receipt) (digest : Text) (now : ℕ) (r : Receipt)
    → reclaim_selector existing digest now r ≡ true
    → IsFree now r × (r.event_timestamp ≡ existing.event_timestamp) × (r.payload_digest ≡ digest)
unfolding reclaim_selector same_receipt
reclaim_selector-IsFree existing digest now r e = (
  free (is_status r.status failed) refl,
  ==→≡ r.event_timestamp existing.event_timestamp (ground arith),
  ==→≡ r.payload_digest digest (ground arith),
)
  where
    free : (f : Bool) → is_status r.status failed ≡ f → IsFree now r
    free true h = was_failed (is_status-eq r.status failed h)
    free false h =
        let (until, leased, lapsed) = is_lapsed-some r.lease_until now (ground arith) in
        was_lapsed until (is_status-eq r.status pending (ground arith)) leased lapsed

-- The one write of a claim that was granted. The receipt was inserted where there was none, or a
-- free receipt of the same digest and of the answered timestamp was taken over.
pub data Taken (c : Claim) (id : ℕ) (token : Text) (now timestamp : ℕ)
    (first second after : Option Receipt) : Type 0 where
  new :
      c.event_timestamp ≡ some timestamp
      → first ≡ none
      → after ≡ some (new_receipt id c token timestamp now)
      → Taken c id token now timestamp first second after
  again :
      (r : Receipt)
      → second ≡ some r
      → IsFree now r
      → r.payload_digest ≡ c.payload_digest
      → r.event_timestamp ≡ some timestamp
      → after ≡ some (reclaim_modifier token now r)
      → Taken c id token now timestamp first second after

answer_reclaim-claimed :
    (token : Text) (timestamp : Option ℕ) (reply : Reply) {t : Text} {s : ℕ}
    → answer_reclaim token timestamp reply ≡ ok (claimed t s)
    → (reply ≡ matched 1) × (timestamp ≡ some s) × (t ≡ token)
unfolding answer_reclaim
answer_reclaim-claimed token timestamp rejected e = cc
answer_reclaim-claimed token none (matched n) e = cc
answer_reclaim-claimed token (some s) (matched n) e = ground (arith, eqb_iff n 1)

validate_claim-ok :
    (c : Claim) (token : Text) (clock : Option ℕ) {timestamp now : ℕ}
    → validate_claim c token clock ≡ ok (timestamp, now)
    → (c.event_timestamp ≡ some timestamp) × (clock ≡ some now)
unfolding validate_claim
validate_claim-ok c token clock e = ground arith

abbrev answered_at : Result WebhookError Claimed → ℕ
answered_at (ok (claimed _ s)) = s
answered_at _ = 0

module _ (receipts : Collection Receipt) where
  open receipts use {Db, find, insert_one, insert_one_lem, update_one, update_one_lem}

  claim_decided-claimed :
      (c : Claim) (id : ℕ) (token : Text) (now : ℕ) (existing : Receipt) (d : Decision)
      (others : Db → Db) (db : Db) (first : Option Receipt) {t : Text} {s : ℕ}
      → (claim_decided receipts c token now existing d others db).0 ≡ ok (claimed t s)
      → (t ≡ token)
        × Taken c id token now s first
            (find (others db))
            (find (claim_decided receipts c token now existing d others db).1)
  unfolding claim_decided answer_touch reclaim_update
  claim_decided-claimed c id token now existing conflicts others db first e = cc
  claim_decided-claimed c id token now existing touches_processed others db first e = ground arith
  claim_decided-claimed c id token now existing touches_pending others db first e = ground arith
  claim_decided-claimed c id token now existing reclaims others db first e =
      let u = reclaim_update existing c.payload_digest token now in
      let before = others db in
      let (acked, stamped, same) = answer_reclaim-claimed token existing.event_timestamp _ e in
      let (r, d, found, fits, modified, left) =
        Updated-one u (find before) (find (update_one u before).1) _ (update_one_lem u before)
          acked in
      let (free, event, digest) = reclaim_selector-IsFree existing c.payload_digest now r fits in
      (same, again r found free digest (event ∙ stamped) (left ∙ sym modified))

  claim_existing-claimed :
      (c : Claim) (id : ℕ) (token : Text) (now : ℕ) (existing : Option Receipt) (others : Db → Db)
      (db : Db) (first : Option Receipt) {t : Text} {s : ℕ}
      → (claim_existing receipts c token now existing others db).0 ≡ ok (claimed t s)
      → (t ≡ token)
        × Taken c id token now s first
            (find (others db))
            (find (claim_existing receipts c token now existing others db).1)
  unfolding claim_existing
  claim_existing-claimed c id token now none others db first e = cc
  claim_existing-claimed c id token now (some x) others db first e =
      claim_decided-claimed c id token now x (decide_claim c now x) others db first e

  claim_inserted-claimed :
      (c : Claim) (id : ℕ) (token : Text) (timestamp now : ℕ) (reply : InsertReply)
      (others : ℕ → Db → Db) (db : Db) (first : Option Receipt) {t : Text} {s : ℕ}
      → c.event_timestamp ≡ some timestamp
      → Inserted (new_receipt id c token timestamp now) first (find db) reply
      → (claim_inserted receipts c token timestamp now reply others db).0 ≡ ok (claimed t s)
      → (t ≡ token)
        × Taken c id token now s first
            (find (others 2 (others 1 db)))
            (find (claim_inserted receipts c token timestamp now reply others db).1)
  unfolding claim_inserted
  claim_inserted-claimed c id token timestamp now inserted others db first {s = s} event
        (fresh absent left) e =
      (
        cc,
        subst (λ z. Taken c id token now z first (find (others 2 (others 1 db))) (find db))
            (ap answered_at e) (new event absent left),
      )
  claim_inserted-claimed c id token timestamp now insert_rejected others db first event i e = cc
  claim_inserted-claimed c id token timestamp now duplicate others db first event i e =
      claim_existing-claimed c id token now (find (others 1 db)) (others 2) (others 1 db) first e

  claim_valid-claimed :
      (c : Claim) (id : ℕ) (token : Text) (clock : Option ℕ) (v : Result WebhookError (ℕ × ℕ))
      (others : ℕ → Db → Db) (db : Db) {t : Text} {s : ℕ}
      → validate_claim c token clock ≡ v
      → (claim_valid receipts c id token v others db).0 ≡ ok (claimed t s)
      → (timestamp : ℕ) × (now : ℕ) × (clock ≡ some now)
        × (t ≡ token)
        × Taken c id token now s
            (find (others 0 db))
            (find (
              others 2
                (others 1 (insert_one (new_receipt id c token timestamp now) (others 0 db)).1)))
            (find (claim_valid receipts c id token v others db).1)
  unfolding claim_valid
  claim_valid-claimed c id token clock (throw x) others db v e = cc
  claim_valid-claimed c id token clock (ok (timestamp, now)) others db v e =
      let (event, read) = validate_claim-ok c token clock v in
      let r = new_receipt id c token timestamp now in
      let inserting = insert_one r (others 0 db) in
      let (same, taken) =
        claim_inserted-claimed c id token timestamp now inserting.0 others inserting.1
          (find (others 0 db)) event (insert_one_lem r (others 0 db)) e in
      (timestamp, now, read, same, taken)

  -- A delivery that is told to process an event has the receipt for itself: by the reading of its
  -- clock, either its insertion made the receipt where there was none, or it took over a receipt of
  -- the same payload whose processing had failed or whose lease had lapsed, right before the write
  -- and whatever other deliveries did meanwhile; the token is its own, and the timestamp that it is
  -- told is that of the first delivery.
  pub claim-claimed :
      (c : Claim) (id : ℕ) (token : Text) (clock : Option ℕ) (others : ℕ → Db → Db) (db : Db)
      {t : Text} {s : ℕ}
      → (claim receipts c id token clock others db).0 ≡ ok (claimed t s)
      → (timestamp : ℕ) × (now : ℕ) × (clock ≡ some now)
        × (t ≡ token)
        × Taken c id token now s
            (find (others 0 db))
            (find (
              others 2
                (others 1 (insert_one (new_receipt id c token timestamp now) (others 0 db)).1)))
            (find (claim receipts c id token clock others db).1)
  unfolding claim
  claim-claimed c id token clock others db e =
      claim_valid-claimed c id token clock (validate_claim c token clock) others db refl e
