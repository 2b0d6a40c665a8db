-- ===== src/Timer/Replay.antt =====
-- The writes that the timer handlers make to a user's document, in any interleaving, and what the
-- start history guarantees across them.
use titra.Common.{
  ℕ, ◌+◌, ◌≤◌, ◌<◌, ◌≡◌, refl, subst, sym, ap, ◌∙◌, ◌≢◌, true, false, Option, some, List, [], ◌∷◌,
  ◌++◌, map, arith, Text, ℕ_eq, List_eq, ==_self, length, length-append, any, any-append, Stored,
  held, ok, held-injective,
}
use mathlib.Core.Bool.{false≢true}
use titra.Timer.Profile.{
  Receipt, HistoryEntry, Profile, Metadata, max_timer_start_history, active_timer,
  timer_start_replay_retention_ms, timer_start_history_grace_ms,
}
use titra.Timer.Start.{
  begin, is_live_operation, lists_live_operation, start_idle, decide_start, start_modifier,
}
use titra.Timer.Stop.{decide_stop, stop_modifier, finish}
use titra.Timer.History.{Begun, start_idle-Begun, retained_live, any_live_operation, consumed_until}

-- A write at the instant `now` of the writer's clock. A write to other fields of the document
-- leaves the timer fields alone.
pub data Step (now : ℕ) (u : Profile) : Profile → Type 0 where
  started :
      {v : Profile} (operation_id : Text) (metadata : Metadata)
      (entries : List (Stored HistoryEntry))
      → decide_start operation_id (some now) u ≡ ok (begin now entries)
      → start_modifier operation_id metadata now entries u ≡ some v
      → Step now u v
  stopped :
      {v : Profile} (timer_id : Option Text) (expected_revision : Option ℕ) (receipt : Receipt)
      → decide_stop timer_id expected_revision (some now) u ≡ ok (finish receipt)
      → stop_modifier receipt u ≡ some v
      → Step now u v
  edited : {v : Profile} → v ≡ u → Step now u v

-- Any number of writes, by clocks that need not agree, none of them past `limit`.
pub data Run (limit : ℕ) (u : Profile) : Profile → Type 0 where
  here : Run limit u u
  next : {v w : Profile} (now : ℕ) → Run limit u v → now ≤ limit → Step now v w → Run limit u w

-- A start begins only on an idle timer, by `start_idle`.
pub decide_start_idle :
    (operation_id : Text) (now : Option ℕ) (start_time : ℕ) (u : Profile)
    (entries : List (Stored HistoryEntry))
    → decide_start operation_id now u ≡ ok (begin start_time entries)
    → (active_timer u ≡ false)
      × (start_idle operation_id now u.timer_start_history ≡ ok (begin start_time entries))
unfolding decide_start
decide_start_idle op now t u entries e = ground arith

pub decide_start-Begun :
    (operation_id : Text) (now start_time : ℕ) (u : Profile) (entries : List (Stored HistoryEntry))
    → decide_start operation_id (some now) u ≡ ok (begin start_time entries)
    → Begun operation_id now start_time u.timer_start_history entries
decide_start-Begun op now t u entries e =
    start_idle-Begun op now t u.timer_start_history entries
      (decide_start_idle op (some now) t u entries e).1

start_modifier-history :
    (operation_id : Text) (metadata : Metadata) (start_time : ℕ)
    (entries : List (Stored HistoryEntry)) (u : Profile) {v : Profile}
    → start_modifier operation_id metadata start_time entries u ≡ some v
    → v.timer_start_history ≡ held entries
unfolding start_modifier
start_modifier-history op m t entries u e = ground arith

stop_modifier-history :
    (receipt : Receipt) (u : Profile) {v : Profile}
    → stop_modifier receipt u ≡ some v
    → v.timer_start_history ≡ u.timer_start_history
unfolding stop_modifier
stop_modifier-history receipt u e = ground arith

live_in_begun :
    (operation_id other : Text) (now limit : ℕ) (u : Profile) (entries : List (Stored HistoryEntry))
    → now ≤ limit
    → lists_live_operation operation_id limit u.timer_start_history ≡ true
    → decide_start other (some now) u ≡ ok (begin now entries)
    → lists_live_operation operation_id limit (held entries) ≡ true
unfolding lists_live_operation
live_in_begun op other now limit u entries h live e =
    let b = decide_start-Begun other now now u entries e in
    rw (b.written, any-append, retained_live u.timer_start_history now limit op h live b.retained)

any_live_append :
    (operation_id : Text) (limit : ℕ) (xs : List (Stored HistoryEntry)) (e : HistoryEntry)
    → e.operation_id ≡ operation_id
    → limit < e.expires_at
    → any (is_live_operation operation_id limit) (xs ++ (held e ∷ [])) ≡ true
unfolding any
any_live_append op limit [] e same later = ground (arith, ==_self op)
any_live_append op limit (x ∷ xs) e same later = ground (arith, any_live_append op limit xs e)

live_when_begun :
    (operation_id : Text) (now limit : ℕ) (u : Profile) (entries : List (Stored HistoryEntry))
    → limit < now + timer_start_replay_retention_ms + timer_start_history_grace_ms
    → decide_start operation_id (some now) u ≡ ok (begin now entries)
    → lists_live_operation operation_id limit (held entries) ≡ true
unfolding lists_live_operation
live_when_begun op now limit u entries h e =
    let b = decide_start-Begun op now now u entries e in
    rw b.written (any_live_append op limit (map held b.kept) (consumed_until op now) refl h)

Step-live :
    (operation_id : Text) (limit : ℕ) {now : ℕ} {u v : Profile}
    → now ≤ limit
    → Step now u v
    → lists_live_operation operation_id limit u.timer_start_history ≡ true
    → lists_live_operation operation_id limit v.timer_start_history ≡ true
Step-live op limit {now} {u} h (started other metadata entries decided written) live =
    rw (start_modifier-history other metadata now entries u written)
      (live_in_begun op other now limit u entries h live decided)
Step-live op limit {now} {u} h (stopped id expected receipt decided written) live =
    rw (stop_modifier-history receipt u written) live
Step-live op limit {now} {u} h (edited same) live = rw same live

Run-live :
    (operation_id : Text) {limit : ℕ} {u v : Profile}
    → Run limit u v
    → lists_live_operation operation_id limit u.timer_start_history ≡ true
    → lists_live_operation operation_id limit v.timer_start_history ≡ true
Run-live op here live = live
Run-live op {limit} (next now r h s) live = Step-live op limit h s (Run-live op r live)

-- An operation that started a timer at the instant `now` never starts another: whatever other
-- writes follow, by clocks that may disagree but stay within the seven days of retention and the
-- day of grace, the same operation is not let through again at an instant within them.
pub start_at_most_once :
    (operation_id : Text) (metadata : Metadata) (now limit again start_time : ℕ) (u v w : Profile)
    (entries later : List (Stored HistoryEntry))
    → limit < now + timer_start_replay_retention_ms + timer_start_history_grace_ms
    → decide_start operation_id (some now) u ≡ ok (begin now entries)
    → start_modifier operation_id metadata now entries u ≡ some v
    → Run limit v w
    → again ≤ limit
    → decide_start operation_id (some again) w ≢ ok (begin start_time later)
start_at_most_once op metadata now limit again t u v w entries later h decided written run near e =
    let live = Run-live op run (
      rw (start_modifier-history op metadata now entries u written)
        (live_when_begun op now limit u entries h decided)) in
    let b = decide_start-Begun op again t w later e in
    let seen =
      any_live_operation b.kept limit op
        (retained_live w.timer_start_history again limit op near live b.retained) in
    false≢true (sym b.fresh ∙ seen)

-- A history that the server wrote has at most 4096 entries.
abbrev pub HasBoundedHistory : Profile → Type 0
HasBoundedHistory u =
    (entries : List (Stored HistoryEntry))
    → u.timer_start_history ≡ held entries
    → length entries ≤ max_timer_start_history

length-map_held :
    (xs : List HistoryEntry) → length (map {B = Stored HistoryEntry} held xs) ≡ length xs
length-map_held [] = refl
length-map_held (x ∷ xs) = omega (arith, length-map_held xs)

-- No write grows the start history past 4096 entries, in whatever order the handlers write.
pub Run-HasBoundedHistory :
    {limit : ℕ} {u v : Profile} → Run limit u v → HasBoundedHistory u → HasBoundedHistory v
Run-HasBoundedHistory here bounded = bounded
Run-HasBoundedHistory (next now r h (edited same)) bounded =
    subst HasBoundedHistory (sym same) (Run-HasBoundedHistory r bounded)
Run-HasBoundedHistory (next now r h (stopped {v = w} id expected receipt decided written)) bounded =
    λ entries e.
      Run-HasBoundedHistory r bounded entries (sym (stop_modifier-history receipt _ written) ∙ e)
Run-HasBoundedHistory (next now r h (started op metadata entries decided written)) bounded = λ xs e.
    let b = decide_start-Begun op now now _ entries decided in
    let same =
      held-injective (sym (start_modifier-history op metadata now entries _ written) ∙ e) in
    omega (
      arith,
      ap length same,
      ap length b.written,
      length-append (map held b.kept) (held (consumed_until op now) ∷ []),
      length-map_held b.kept,
      b.room,
    )
