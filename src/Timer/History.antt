-- ===== src/Timer/History.antt =====
-- Consumed operation identifiers: what the start history guarantees across any interleaving.
use titra.Common.{
  ℕ, ◌+◌, ◌≤◌, ◌<◌, ◌≡◌, true, false, some, List, [], ◌∷◌, ◌++◌, map, arith, Text, ℕ_eq, List_eq,
  Stored_eq, length, any, Stored, missing, held, junk, ok, Result-cases, inl, inr,
}
use titra.Timer.Profile.{
  timer_start_replay_retention_ms, timer_start_history_grace_ms, max_timer_start_history,
  HistoryEntry, HistoryEntry_eq, retained_from, retained_timer_start_history,
}
use titra.Timer.Start.{begin, is_operation, is_live_operation, lists_live_operation, start_idle}

-- What is retained holds each entry that has not expired.
retained_from_live :
    (entries : List (Stored HistoryEntry)) (now limit : ℕ) (operation_id : Text)
    {kept : List HistoryEntry}
    → now ≤ limit
    → any (is_live_operation operation_id limit) entries ≡ true
    → retained_from entries now ≡ ok kept
    → any (is_live_operation operation_id limit) (map held kept) ≡ true
unfolding retained_from any
retained_from_live [] now limit op h live e = cc
retained_from_live (held x ∷ rest) now limit op {kept} h live e =
    elim (Result-cases (retained_from rest now)) [
      | inl (k, ek) ↦ ground (arith, ek, retained_from_live rest now limit op {kept = k} h)
      | inr (x, ex) ↦ ground (arith, ex)
    ]
retained_from_live (missing ∷ rest) now limit op h live e = cc
retained_from_live (junk m ∷ rest) now limit op h live e = cc

abbrev pub consumed_until : Text → ℕ → HistoryEntry
consumed_until operation_id start_time = record {
  operation_id = operation_id;
  expires_at = start_time + timer_start_replay_retention_ms + timer_start_history_grace_ms;
}

-- What a start that is let through has checked, and the history that it writes.
pub record Begun (operation_id : Text) (now start_time : ℕ)
    (history : Stored (List (Stored HistoryEntry))) (entries : List (Stored HistoryEntry))
    : Type 0 where
  pub kept : List HistoryEntry
  pub retained : retained_timer_start_history history (some now) ≡ ok kept
  pub fresh : any (is_operation operation_id) kept ≡ false
  pub room : length kept < max_timer_start_history
  pub instant : start_time ≡ now
  pub written : entries ≡ map held kept ++ (held (consumed_until operation_id now) ∷ [])

pub start_idle-Begun :
    (operation_id : Text) (now start_time : ℕ) (history : Stored (List (Stored HistoryEntry)))
    (entries : List (Stored HistoryEntry))
    → start_idle operation_id (some now) history ≡ ok (begin start_time entries)
    → Begun operation_id now start_time history entries
unfolding start_idle
start_idle-Begun op now t history entries e =
    elim (Result-cases (retained_timer_start_history history (some now))) [
      | inl (k, ek) ↦ record {
        kept = k;
        retained = ek;
        fresh = ground (arith, ek);
        room = ground (arith, ek);
        instant = ground (arith, ek);
        written = ground (arith, ek);
      }
      | inr (x, ex) ↦ ground (arith, ex)
    ]

pub retained_live :
    (history : Stored (List (Stored HistoryEntry))) (now limit : ℕ) (operation_id : Text)
    {kept : List HistoryEntry}
    → now ≤ limit
    → lists_live_operation operation_id limit history ≡ true
    → retained_timer_start_history history (some now) ≡ ok kept
    → any (is_live_operation operation_id limit) (map held kept) ≡ true
unfolding lists_live_operation retained_timer_start_history
retained_live missing now limit op h live e = cc
retained_live (held xs) now limit op {kept} h live e =
    ground (arith, retained_from_live xs now limit op {kept = kept} h)
retained_live (junk m) now limit op h live e = cc

pub any_live_operation :
    (kept : List HistoryEntry) (limit : ℕ) (operation_id : Text)
    → any (is_live_operation operation_id limit) (map held kept) ≡ true
    → any (is_operation operation_id) kept ≡ true
unfolding any
any_live_operation [] limit op h = cc
any_live_operation (x ∷ kept) limit op h = ground (arith, any_live_operation kept limit op)
