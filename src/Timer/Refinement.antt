-- ===== src/Timer/Refinement.antt =====
-- A start or a stop that a client is told of is one write of `Step`, at one instant, on the document
-- as it stood right before the write, whatever other requests do while the handler waits.
use titra.Common.{
  ℕ, zero, suc, ◌≡◌, ◌≢◌, refl, sym, ap, ◌∙◌, Bool, true, false, Option, none, some, List, arith,
  Text, ℕ_eq, List_eq, Stored_eq, beq_stored_iff, Stored, missing, held, junk, Result, ok, throw,
  Result-cases, >>=-eq-ok, inl, inr, checked-eq-ok, subst, held-injective,
}
use mathlib.Core.Bool.{false≢true}
use mathlib.Core.Option.{some-injective}
use titra.Common.Collection.{Collection, Reply, matched, rejected, Updated-one}
use titra.Revision.{timer, etag_of}
use titra.Timer.Profile.{
  TimerError, HistoryEntry, HistoryEntry_eq, Payload, payload_of, timer_etag,
  retained_timer_start_history, Response, Profile, Metadata, increment, respond,
  validate_operation_id,
}
use titra.Timer.Start.{
  Decision, answer, begin, decide_start, start_modifier, start_update, start_idle, next_revision,
  start_lost, start_written, start_decided, start_read, start_timer_atomic,
  timer_start_snapshot_selector,
}
use titra.Timer.Replay.{decide_start_idle, decide_start-Begun}

-- `changed` in an answer is what the handler passed on.
payload_of_lem :
    (t : Stored ℕ) (u : Profile) (now : Option ℕ) (changed : Bool) {p : Payload}
    → payload_of t u now changed ≡ ok p
    → (p.changed ≡ changed) × (t ≡ held p.start_time)
unfolding payload_of
payload_of_lem (held n) u now changed e = ground arith
payload_of_lem missing u now changed e = cc
payload_of_lem (junk m) u now changed e = cc

timer_etag-eq-ok :
    (revision : Stored ℕ) {tag : Text}
    → timer_etag revision ≡ ok tag
    → etag_of timer revision ≡ some tag
unfolding timer_etag
timer_etag-eq-ok revision e = ground arith

pub respond_lem :
    (u : Profile) (now : Option ℕ) (changed : Bool) {r : Response}
    → respond u now changed ≡ ok r
    → (r.payload.changed ≡ changed)
      × (etag_of timer u.timer_revision ≡ some r.etag)
      × (u.timer ≡ held r.payload.start_time)
unfolding respond
respond_lem u now changed e =
    let (p, ep, e') = >>=-eq-ok (payload_of u.timer u now changed) _ e in
    let (tag, et, e'') = >>=-eq-ok (timer_etag u.timer_revision) _ e' in
    let facts = payload_of_lem u.timer u now changed ep in
    let tagged = timer_etag-eq-ok u.timer_revision et in ground (arith, facts, tagged, e'')

-- An answer after a write that matched nothing says that nothing was changed.
start_lost_changed :
    (operation_id : Text) (start_time : ℕ) (now : Option ℕ) (current : Option Profile)
    {r : Response}
    → start_lost operation_id start_time now current ≡ ok r
    → r.payload.changed ≡ false
unfolding start_lost
start_lost_changed op t now none e = cc
start_lost_changed op t now (some u) {r} e = ground (arith, respond_lem u now false {r = r})

-- The snapshot selector accepts only a document that the same decision is made on.
snapshot-decide_start :
    (user stored : Profile) (operation_id : Text) (now : ℕ) (entries : List (Stored HistoryEntry))
    → timer_start_snapshot_selector user operation_id now stored ≡ true
    → decide_start operation_id (some now) user ≡ ok (begin now entries)
    → (decide_start operation_id (some now) stored ≡ ok (begin now entries))
      × (stored.timer_revision ≡ user.timer_revision)
unfolding timer_start_snapshot_selector decide_start
snapshot-decide_start user stored op now entries fits e = ground (
  arith,
  decide_start_idle op (some now) now user entries e,
  beq_stored_iff stored.timer user.timer,
  beq_stored_iff stored.timer_id user.timer_id,
  beq_stored_iff stored.timer_revision user.timer_revision,
  beq_stored_iff stored.timer_start_history user.timer_start_history,
)

-- What the write of a start leaves behind: the document `stored` as it stood right before the write
-- passes every check of a start at `now`, the document that is left is its change, and the answer
-- has the entity tag of that document.
pub record StartWrite (operation_id : Text) (metadata : Metadata) (now : ℕ)
    (before after : Option Profile) (response : Response) : Type 0 where
  pub stored : Profile
  pub written : Profile
  pub entries : List (Stored HistoryEntry)
  pub found : before ≡ some stored
  pub decided : decide_start operation_id (some now) stored ≡ ok (begin now entries)
  pub modified : start_modifier operation_id metadata now entries stored ≡ some written
  pub left : after ≡ some written
  pub tagged : etag_of timer written.timer_revision ≡ some response.etag
  pub timed : response.payload.start_time ≡ now

increment-next_revision : (r : Stored ℕ) {s : Stored ℕ} → increment r ≡ some s → next_revision r ≡ s
unfolding increment next_revision
increment-next_revision missing e = some-injective _ _ e
increment-next_revision (held n) e = some-injective _ _ e
increment-next_revision (junk m) e = cc

start_modifier-revision :
    (operation_id : Text) (metadata : Metadata) (now : ℕ) (entries : List (Stored HistoryEntry))
    (stored : Profile) {written : Profile}
    → start_modifier operation_id metadata now entries stored ≡ some written
    → next_revision stored.timer_revision ≡ written.timer_revision
unfolding start_modifier
start_modifier-revision op m now entries stored {written} e =
    increment-next_revision stored.timer_revision (ground arith)

start_idle-none :
    (operation_id : Text) (history : Stored (List (Stored HistoryEntry))) (d : Decision)
    → start_idle operation_id none history ≢ ok d
unfolding start_idle
start_idle-none op history d e = cc

decide_start_clock :
    (operation_id : Text) (clock : Option ℕ) (user : Profile) {start_time : ℕ}
    {entries : List (Stored HistoryEntry)}
    → decide_start operation_id clock user ≡ ok (begin start_time entries)
    → clock ≡ some start_time
decide_start_clock op none user {start_time = t} {entries} e =
    absurd
      (start_idle-none op user.timer_start_history _ (decide_start_idle op none t user entries e).1)
decide_start_clock op (some now) user {start_time = t} {entries} e =
    ap some (sym (decide_start-Begun op now t user entries e).instant)

start_idle-ne-answer :
    (operation_id : Text) (clock : Option ℕ) (history : Stored (List (Stored HistoryEntry)))
    (r : Response)
    → start_idle operation_id clock history ≢ ok (answer r)
unfolding start_idle
start_idle-ne-answer op none history r e = cc
start_idle-ne-answer op (some now) history r e =
    elim (Result-cases (retained_timer_start_history history (some now))) [
      | inl (kept, ek) ↦ ground (arith, ek)
      | inr (x, ex) ↦ ground (arith, ex)
    ]

decide_start_answer :
    (operation_id : Text) (clock : Option ℕ) (user : Profile) {r : Response}
    → decide_start operation_id clock user ≡ ok (answer r)
    → r.payload.changed ≡ false
unfolding decide_start
decide_start_answer op clock user {r} e = ground (
  arith,
  respond_lem user clock false {r = r},
  start_idle-ne-answer op clock user.timer_start_history r,
)

module _ (users : Collection Profile) where
  open users use {Db, find, update_one, update_one_lem}

  -- A start that says that it changed something had its write acknowledged.
  start_written_changed :
      (operation_id : Text) (start_time : ℕ) (later : Option ℕ) (others : Db → Db)
      (startd : Profile) (written : Reply × Db) {r : Response}
      → (start_written users operation_id start_time later others startd written).0 ≡ ok r
      → r.payload.changed ≡ true
      → (written.0 ≡ matched 1)
        × (respond startd (some start_time) true ≡ ok r)
        × ((start_written users operation_id start_time later others startd written).1 ≡ written.1)
  unfolding start_written
  start_written_changed op t later others s (matched (suc zero), db) e c = (refl, e, refl)
  start_written_changed op t later others s (matched _, db) e c =
      absurd (false≢true (sym (start_lost_changed op t later (find (others db)) e) ∙ c))
  start_written_changed op t later others s (rejected, db) e c = cc

  start_decided_changed :
      (operation_id : Text) (metadata : Metadata) (clock : Option ℕ) (later : Option ℕ)
      (others : ℕ → Db → Db) (user : Profile) (d : Result TimerError Decision) (db : Db)
      {r : Response}
      → decide_start operation_id clock user ≡ d
      → (start_decided users operation_id metadata later others user d db).0 ≡ ok r
      → r.payload.changed ≡ true
      → (now : ℕ) × (clock ≡ some now)
        × StartWrite operation_id metadata now
            (find (others 1 db))
            (find (start_decided users operation_id metadata later others user d db).1)
            r
  unfolding start_decided
  start_decided_changed op m clock later others user (throw x) db h e c = cc
  start_decided_changed op m clock later others user (ok (answer a)) db h e c =
      absurd (false≢true (ground (arith, decide_start_answer op clock user h)))
  start_decided_changed op m clock later others user (ok (begin t entries)) db {r} h e c =
      let update = start_update op m t entries user in
      let before = others 1 db in
      let (acked, responded, same_db) =
        start_written_changed op t later (others 2) _ (update_one update before) e c in
      let (stored, written, found, fits, modified, left) =
        Updated-one update (find before) (find (update_one update before).1) _
          (update_one_lem update before) acked in
      let clocked = decide_start_clock op clock user h in
      let decided = subst (λ k. decide_start op k user ≡ ok (begin t entries)) clocked h in
      let (again, same) = snapshot-decide_start user stored op t entries fits decided in
      let (_, tagged, timed) = respond_lem _ (some t) true responded in
      (
        t,
        clocked,
        record {
          stored = stored;
          written = written;
          entries = entries;
          found = found;
          decided = again;
          modified = modified;
          left = ap find same_db ∙ left;
          tagged =
              subst (λ v. etag_of timer v ≡ some r.etag)
                (ap next_revision (sym same)
                  ∙ start_modifier-revision op m t entries stored modified)
                tagged;
          timed = held-injective (sym timed);
        },
      )

  start_read_changed :
      (operation_id : Text) (metadata : Metadata) (clock : ℕ → Option ℕ) (others : ℕ → Db → Db)
      (user : Option Profile) (db : Db) {r : Response}
      → (start_read users operation_id metadata clock others user db).0 ≡ ok r
      → r.payload.changed ≡ true
      → (now : ℕ) × (clock 0 ≡ some now)
        × StartWrite operation_id metadata now
            (find (others 1 db))
            (find (start_read users operation_id metadata clock others user db).1)
            r
  unfolding start_read
  start_read_changed op m clock others none db e c = cc
  start_read_changed op m clock others (some user) db e c =
      start_decided_changed op m (clock 0) (clock 1) others user (decide_start op (clock 0) user) db
        refl e c

  -- A start that tells its client `changed: true` made exactly one write of the user's document, at
  -- the first reading of its clock: the document as it stood right before the write, after all that
  -- other requests did while the handler waited, passes every check of a start, what is stored then
  -- is that document with the timer started, and the entity tag in the answer is that of the stored
  -- revision.
  pub start_timer_atomic_changed :
      (operation_id : Text) (metadata : Metadata) (clock : ℕ → Option ℕ) (others : ℕ → Db → Db)
      (db : Db) {r : Response}
      → (start_timer_atomic users operation_id metadata clock others db).0 ≡ ok r
      → r.payload.changed ≡ true
      → (now : ℕ) × (clock 0 ≡ some now)
        × StartWrite operation_id metadata now
            (find (others 1 (others 0 db)))
            (find (start_timer_atomic users operation_id metadata clock others db).1)
            r
  unfolding start_timer_atomic
  start_timer_atomic_changed op m clock others db {r} e c =
      let read = others 0 db in
      let rest = start_read users op m clock others (find read) read in
      let same = checked-eq-ok (validate_operation_id op) read rest e in
      let (now, clocked, write) =
        start_read_changed op m clock others (find read) read (ap (λ x. x.0) (sym same) ∙ e) c in
      (
        now,
        clocked,
        subst (λ x. StartWrite op m now (find (others 1 read)) (find x.1) r) (sym same) write,
      )
