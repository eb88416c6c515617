-- ===== src/Sqllog/Poll.antt =====
-- pkg/logstructured/sqllog/sql.go: one round of the poll loop, which hands new rows to the watches in
-- the order of their revisions, and the filter of one watch.
use kine.Prelude.{
  ℕ, ◌+◌, Bool, true, false, not, ◌&&◌, Option, none, some, List, [], ◌∷◌, Bytes, ◌==◌, ltb,
  if◌then◌else◌, length,
}
use kine.Types.{Event, in_range}
use kine.Logstructured.Store.{mod_of}

abbrev pub key_of : Event → Bytes
key_of e = elim e.kv [ none ↦ [] | some kv ↦ kv.key ]

-- What a round does about a missing revision: nothing is missing, retry soon, or write a fill row.
pub data Gap : Type 0 where
  no_gap : Gap
  retry : ℕ → Gap
  fill : ℕ → Gap

-- The variables of the loop over the events, and the rest of `sequential` from here on.
pub record Polled : Type 0 where
  pub rev : ℕ
  pub save_last : Bool
  pub sequential : List (Option Event)
  pub gap : Gap

abbrev pub nils : List Event → List (Option Event)
nils [] = []
nils (e ∷ events) = none ∷ nils events

-- `sequential[i] = event`, except for a fill row
abbrev pub broadcast : (Bytes → Bool) → Event → Option Event
broadcast is_fill e = if is_fill (key_of e) then none else some e

abbrev pub taken : Option Event → Polled → Polled
taken o p = record p { sequential = o ∷ p.sequential }

abbrev pub stopped : ℕ → Bool → List Event → Gap → Polled
stopped rev save_last events gap = record {
  rev = rev;
  save_last = save_last;
  sequential = nils events;
  gap = gap;
}

-- `elapsed` is the test of canSkipRevision on the clock: more than a second since `skip` was set.
unfoldable pub can_skip_revision : ℕ → ℕ → Bool → Bool
can_skip_revision rev skip elapsed = (rev == skip) && elapsed

-- the loop over the events; `skip` is set only where the loop ends
unfoldable pub poll_loop : (Bytes → Bool) → ℕ → Bool → List Event → ℕ → Bool → Polled
unfolding can_skip_revision
poll_loop is_fill skip elapsed [] rev save_last = stopped rev save_last [] no_gap
poll_loop is_fill skip elapsed (e ∷ events) rev save_last =
    let next = rev + 1 in
    let more =
      taken (broadcast is_fill e) (poll_loop is_fill skip elapsed events (mod_of e) true) in
    if mod_of e == next
    then more
    else if can_skip_revision next skip elapsed
    then more
    else if not (skip == next)
    then stopped rev save_last (e ∷ events) (retry next)
    else stopped rev save_last (e ∷ events) (fill next)

-- the variables that outlive a round
pub record Poll : Type 0 where
  pub poll_revision : ℕ
  pub skip : ℕ

abbrev pub skip_after : ℕ → Gap → ℕ
skip_after skip no_gap = skip
skip_after skip (retry next) = next
skip_after skip (fill next) = skip

-- One round with the rows that `After` has returned: what is sent to the broadcaster, if anything,
-- and the gap that was met.
unfoldable pub poll_round :
    (Bytes → Bool) → Bool → List Event → Poll → (Option (List (Option Event)) × Gap) × Poll
unfolding poll_loop
poll_round is_fill elapsed events p =
    let out = poll_loop is_fill p.skip elapsed events p.poll_revision false in
    (
      (if out.save_last then some out.sequential else none, out.gap),
      record {
        poll_revision = if out.save_last then out.rev else p.poll_revision;
        skip = skip_after p.skip out.gap;
      },
    )

-- `InRange` of an event that may be nil
abbrev pub event_in_range : Option Event → Bytes → Bytes → Bool
event_in_range none key end = false
event_in_range (some e) key end = in_range e key end

abbrev pub filter_loop : List (Option Event) → Bytes → Bytes → List (Option Event)
filter_loop [] key end = []
filter_loop (o ∷ events) key end =
    let rest = filter_loop events key end in if event_in_range o key end then o ∷ rest else rest

-- `filter`, with its shortcut for one event
unfoldable pub filter : List (Option Event) → Bytes → Bytes → List (Option Event) × Bool
filter (o ∷ []) key end = if event_in_range o key end then (o ∷ [], true) else ([], false)
filter events key end = let kept = filter_loop events key end in (kept, ltb 0 (length kept))
