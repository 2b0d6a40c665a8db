-- ===== src/Timer/Recovery.antt =====
-- A stop whose answer was lost is answered again from its receipt, and never stops a second timer.
use titra.Common.{
  ℕ, ◌-◌, ◌≤◌, ◌≡◌, ◌≢◌, refl, sym, ap, ◌∙◌, subst, true, false, Option, some, arith, ◌++◌, codes,
  Text, ℕ_eq, List_eq, Option_eq, Stored_eq, ◌==◌, beq_stored_iff, beq_option_iff, Stored, missing,
  held, junk, ok, throw_if, ◌>>◌, >>=-eq-ok, throw_if-eq-ok, Option-cases, le→leb, inl, inr,
}
use titra.Revision.Decimal.{decimal}
use titra.Revision.{timer, tag_prefix, etag_of, max_safe, revision_is}
use titra.Timer.Profile.{
  Payload, Response, Receipt, Profile, timer_write_conflict, payload_of, timer_etag, increment,
}
use titra.Timer.Stop.{
  answer, finish, receipt_answer, stopped_timer_receipt, timer_id_is, stopped_revision_of,
  stop_idle, stop_active, stop_conflicts, stop_finish, decide_stop, stop_modifier, stopped_profile,
}

-- What a stop that is let through has checked, and the receipt that it writes.
pub record Finished (timer_id : Option Text) (expected : Option ℕ) (now : ℕ) (u : Profile)
    (receipt : Receipt) : Type 0 where
  pub start : ℕ
  pub running : u.timer ≡ held start
  pub expects : revision_is u.timer_revision expected ≡ true
  pub names : timer_id_is u.timer_id timer_id ≡ true
  pub advances : u.timer_revision ≢ held max_safe
  pub same_id : receipt.timer_id ≡ timer_id
  pub same_expected : receipt.expected_revision ≡ expected
  pub next : receipt.stopped_revision ≡ stopped_revision_of u.timer_revision
  pub lasted : receipt.payload.duration ≡ some (now - start)
  pub dated : receipt.payload.stopped_at ≡ some (some now)
  pub reported : receipt.payload.changed ≡ true

payload_of_held :
    (t : Stored ℕ) (u : Profile) (now : ℕ) {p : Payload}
    → payload_of t u (some now) true ≡ ok p
    → (start : ℕ) × (t ≡ held start) × (p.duration ≡ some (now - start)) × (p.changed ≡ true)
unfolding payload_of
payload_of_held (held start) u now e = (start, refl, ground arith, ground arith)
payload_of_held missing u now e = cc
payload_of_held (junk m) u now e = cc

stop_idle-ne-finish :
    (timer_id : Option Text) (expected : Option ℕ) (u : Profile) (receipt : Receipt)
    → stop_idle timer_id expected u ≢ ok (finish receipt)
unfolding stop_idle
stop_idle-ne-finish id expected u receipt e =
    let (recovered, _, e') = >>=-eq-ok (stopped_timer_receipt u id expected) _ e in
    ground (arith, e')

pub decide_stop_active :
    (timer_id : Option Text) (expected now : Option ℕ) (u : Profile) (receipt : Receipt)
    → decide_stop timer_id expected now u ≡ ok (finish receipt)
    → stop_active timer_id expected now u ≡ ok (finish receipt)
unfolding decide_stop
decide_stop_active id expected now u receipt e =
    ground (arith, stop_idle-ne-finish id expected u receipt)

pub stop_active-Finished :
    (timer_id : Option Text) (expected : Option ℕ) (now : ℕ) (u : Profile) (receipt : Receipt)
    → stop_active timer_id expected (some now) u ≡ ok (finish receipt)
    → Finished timer_id expected now u receipt
unfolding stop_active stop_finish stop_conflicts
stop_active-Finished id expected now u receipt e =
    let finished = stop_finish id expected (some now) u in
    let full = u.timer_revision == held max_safe in
    let (matching, e₁) =
      throw_if-eq-ok (stop_conflicts id expected u) timer_write_conflict
        (throw_if full timer_write_conflict >> finished) e in
    let (room, e₂) = throw_if-eq-ok full timer_write_conflict finished e₁ in
    let (p, ep, e₃) = >>=-eq-ok (payload_of u.timer u (some now) true) _ e₂ in
    let (start, running, lasted, reported) = payload_of_held u.timer u now ep in
    record {
      start = start;
      running = running;
      expects = ground arith;
      names = ground arith;
      advances = λ h. ground (arith, beq_stored_iff u.timer_revision (held max_safe));
      same_id = ground (arith, e₃);
      same_expected = ground (arith, e₃);
      next = ground (arith, e₃);
      lasted = ground (arith, e₃, lasted);
      dated = ground (arith, e₃);
      reported = ground (arith, e₃, reported);
    }

stopped_room : (n : ℕ) → held n ≢ held max_safe → n ≢ max_safe
stopped_room n ne e = ne (ap held e)

-- The entity tag of the stored revision after a stop.
stopped_tag :
    (revision : Stored ℕ) {after : Stored ℕ} {tag : Text}
    → revision ≢ held max_safe
    → etag_of timer revision ≡ some tag
    → increment revision ≡ some after
    → (after ≡ held (stopped_revision_of revision)) × (stopped_revision_of revision ≤ max_safe)
unfolding etag_of increment stopped_revision_of
stopped_tag missing ne e i = (ground arith, omega arith)
stopped_tag (held n) ne e i = ground (arith, stopped_room n ne)
stopped_tag (junk m) ne e i = cc

receipt_answer_lem :
    (receipt : Receipt) (timer_id : Option Text) (expected : Option ℕ) (start now : ℕ) (tag : Text)
    → receipt.timer_id ≡ timer_id
    → receipt.expected_revision ≡ expected
    → receipt.payload.duration ≡ some (now - start)
    → receipt.payload.stopped_at ≡ some (some now)
    → receipt.stopped_revision ≤ max_safe
    → timer_etag (held receipt.stopped_revision) ≡ ok tag
    → receipt_answer (held receipt) timer_id expected
      ≡ ok (some (record { payload = record receipt.payload { changed = false }; etag = tag }))
unfolding receipt_answer
receipt_answer_lem receipt id expected start now tag same_id same_expected lasted dated safe
      tagged =
    ground
      (arith, beq_option_iff receipt.timer_id id, beq_option_iff receipt.expected_revision expected)

stop_modifier_lem :
    (receipt : Receipt) (stored : Profile) {written : Profile}
    → stop_modifier receipt stored ≡ some written
    → (revision : Stored ℕ) × (increment stored.timer_revision ≡ some revision)
      × (stopped_profile receipt revision stored ≡ written)
unfolding stop_modifier
stop_modifier_lem receipt stored m = elim (Option-cases (increment stored.timer_revision)) [
  | inl e ↦ cc (rw (e, stop_modifier) at m)
  | inr (revision, e) ↦ (revision, e, ground (arith, e))
]

etag_of_safe : (n : ℕ) → n ≤ max_safe → (tag : Text) × (etag_of timer (held n) ≡ some tag)
unfolding etag_of
etag_of_safe n h = (tag_prefix timer ++ (decimal n ++ codes "\""), rw (le→leb n max_safe h))

timer_etag_of :
    (revision : Stored ℕ) {tag : Text}
    → etag_of timer revision ≡ some tag
    → timer_etag revision ≡ ok tag
unfolding timer_etag
timer_etag_of revision e = rw (e, timer_etag)

-- On a document that a stop left, the receipt decides.
decide_stopped :
    (timer_id : Option Text) (expected later : Option ℕ) (receipt : Receipt) (revision : Stored ℕ)
    (stored : Profile) (response : Response)
    → receipt_answer (held receipt) timer_id expected ≡ ok (some response)
    → decide_stop timer_id expected later (stopped_profile receipt revision stored)
      ≡ ok (answer response)
unfolding decide_stop stop_idle stopped_profile
decide_stopped id expected later receipt revision stored response e = rw e

-- A stop that was let through is answered again. Whatever the clock reads then, the same call on the
-- document that the stop left returns the receipt's payload (start, duration and stop time of the
-- first call) with `changed: false`, and the entity tag of the stored revision.
pub decide_stop_again :
    (timer_id : Option Text) (expected : Option ℕ) (now : ℕ) (later : Option ℕ)
    (stored written : Profile) (receipt : Receipt) (before : Text)
    → decide_stop timer_id expected (some now) stored ≡ ok (finish receipt)
    → stop_modifier receipt stored ≡ some written
    → etag_of timer stored.timer_revision ≡ some before
    → (tag : Text) × (etag_of timer written.timer_revision ≡ some tag)
      × (decide_stop timer_id expected later written
          ≡ ok (
              answer (record { payload = record receipt.payload { changed = false }; etag = tag })))
unfolding stopped_profile
decide_stop_again id expected now later stored written receipt before e m t =
    let f =
      stop_active-Finished id expected now stored receipt
        (decide_stop_active id expected (some now) stored receipt e) in
    let (revision, advanced, same) = stop_modifier_lem receipt stored m in
    let (next, safe) = stopped_tag stored.timer_revision f.advances t advanced in
    let (tag, tagged) = etag_of_safe receipt.stopped_revision (omega (arith, f.next, safe)) in
    let answered =
      receipt_answer_lem receipt id expected f.start now tag f.same_id f.same_expected f.lasted
        f.dated (omega (arith, f.next, safe))
        (timer_etag_of (held receipt.stopped_revision) tagged) in
    (
      tag,
      subst (λ w. etag_of timer w.timer_revision ≡ some tag) same
          (subst (λ r. etag_of timer r ≡ some tag) (ap held f.next ∙ sym next) tagged),
      subst
          (λ w.
            decide_stop id expected later w
            ≡ ok (
                answer
                  (record { payload = record receipt.payload { changed = false }; etag = tag })))
          same (decide_stopped id expected later receipt revision stored _ answered),
    )
