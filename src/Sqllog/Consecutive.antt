-- ===== src/Sqllog/Consecutive.antt =====
-- The rounds of the poll loop of pkg/logstructured/sqllog/sql.go against a description of what they
-- send: the rows whose revisions follow each other without a gap.
use kine.Prelude.{
  ℕ, suc, ◌+◌, ◌≡◌, refl, ap, ◌∙◌, inl, inr, Bool, true, false, not, ◌||◌, Option, List, [], ◌∷◌,
  ◌++◌, Bytes, ◌==◌, ltb, if◌then◌else◌, length, select, map, arith, Bool-cases, ==_iff,
}
use kine.Types.{Event}
use kine.Logstructured.Store.{mod_of}
use kine.Sqllog.Poll.{
  Polled, Gap, no_gap, retry, fill, nils, broadcast, taken, stopped, poll_loop, can_skip_revision,
  event_in_range, filter_loop, filter,
}

-- The events up to the first gap after `rev`, and those behind it.
abbrev pub consecutive : ℕ → List Event → List Event
consecutive rev [] = []
consecutive rev (e ∷ events) =
    let rest = consecutive (mod_of e) events in if mod_of e == rev + 1 then e ∷ rest else []

abbrev pub behind : ℕ → List Event → List Event
behind rev [] = []
behind rev (e ∷ events) =
    let rest = behind (mod_of e) events in if mod_of e == rev + 1 then rest else e ∷ events

-- the gap in front of what is left
abbrev pub gap_at : ℕ → ℕ → List Event → Gap
gap_at skip rev [] = no_gap
gap_at skip rev (e ∷ events) = if skip == rev + 1 then fill (rev + 1) else retry (rev + 1)

abbrev pub is_some {ℓ} : {A : Type ℓ} → List A → Bool
is_some [] = false
is_some (x ∷ xs) = true

-- the round as it should be
abbrev pub spec_loop : (Bytes → Bool) → ℕ → List Event → ℕ → Bool → Polled
spec_loop is_fill skip events rev save_last =
    let sent = consecutive rev events in
    let left = behind rev events in
    record {
      rev = rev + length sent;
      save_last = save_last || is_some sent;
      sequential = map (broadcast is_fill) sent ++ nils left;
      gap = gap_at skip (rev + length sent) left;
    }

polled_ext :
    (p q : Polled)
    → p.rev ≡ q.rev
    → p.save_last ≡ q.save_last
    → p.sequential ≡ q.sequential
    → p.gap ≡ q.gap
    → p ≡ q
polled_ext p q r l s g = λ i. record { rev = r i; save_last = l i; sequential = s i; gap = g i }

pub impatient : (rev skip : ℕ) → can_skip_revision rev skip false ≡ false
unfolding can_skip_revision
impatient rev skip = ground arith

stopped-gap_at :
    (skip rev : ℕ) (save_last : Bool) (e : Event) (events : List Event)
    → (if not (skip == rev + 1)
        then stopped rev save_last (e ∷ events) (retry (rev + 1))
        else stopped rev save_last (e ∷ events) (fill (rev + 1)))
      ≡ stopped rev save_last (e ∷ events) (gap_at skip rev (e ∷ events))
stopped-gap_at skip rev save_last e events = elim (Bool-cases (skip == rev + 1)) [
  | inl known ↦ rw known refl
  | inr new ↦ rw new refl
]

or_false : (b : Bool) → b ≡ (b || false)
or_false true = refl
or_false false = refl

or_true : (b : Bool) → true ≡ (b || true)
or_true true = refl
or_true false = refl

-- While less than a second has passed since the last gap was first met, the loop of a poll over
-- the rows that it has read hands on exactly the rows that follow the polled revision without a
-- gap, fill rows as nil and the rest of the slice nil, moves to the last of them, and reports the
-- gap behind them: to be retried when it is new, to be filled when it was met before.
pub poll_loop-eq-spec_loop :
    (is_fill : Bytes → Bool) (skip : ℕ) (events : List Event) (rev : ℕ) (save_last : Bool)
    → poll_loop is_fill skip false events rev save_last
      ≡ spec_loop is_fill skip events rev save_last
unfolding poll_loop can_skip_revision
poll_loop-eq-spec_loop is_fill skip [] rev save_last =
    polled_ext _ _ (omega arith) (or_false save_last) refl refl
poll_loop-eq-spec_loop is_fill skip (e ∷ events) rev save_last =
    elim (Bool-cases (mod_of e == rev + 1)) [
      | inl follows ↦
          let next : mod_of e ≡ rev + 1 = (==_iff (mod_of e) (rev + 1)).0 follows in
          let n = length (consecutive (mod_of e) events) in
          let far : mod_of e + n ≡ rev + suc n = omega (arith, next) in
          rw follows (
            ap (taken (broadcast is_fill e))
              (poll_loop-eq-spec_loop is_fill skip events (mod_of e) true)
            ∙ polled_ext _ _ far (or_true save_last) refl
                (ap (λ m. gap_at skip m (behind (mod_of e) events)) far))
      | inr gap ↦
          let still : rev ≡ rev + 0 = omega arith in
          rw (gap, impatient (rev + 1) skip)
            (stopped-gap_at skip rev save_last e events
              ∙ polled_ext _ _ still (or_false save_last) refl
                  (ap (λ m. gap_at skip m (e ∷ events)) still))
    ]

filter_loop-select :
    (events : List (Option Event)) (key end : Bytes)
    → filter_loop events key end ≡ select (λ o. event_in_range o key end) events
filter_loop-select [] key end = refl
filter_loop-select (o ∷ events) key end = elim (Bool-cases (event_in_range o key end)) [
  | inl hit ↦ rw hit (ap (◌∷◌ o) (filter_loop-select events key end))
  | inr miss ↦ rw miss (filter_loop-select events key end)
]

-- The filter of a watch of the SQL log, its shortcut for one event included, keeps exactly the
-- events that are not nil and in the range, in their order, and says whether there is one.
pub filter-select :
    (events : List (Option Event)) (key end : Bytes)
    → filter events key end ≡ (
      select (λ o. event_in_range o key end) events,
      ltb 0 (length (select (λ o. event_in_range o key end) events)),
    )
unfolding filter
filter-select [] key end = ground arith
filter-select (o ∷ []) key end = elim (Bool-cases (event_in_range o key end)) [
  | inl hit ↦ rw hit (ground arith)
  | inr miss ↦ rw miss (ground arith)
]
filter-select (o ∷ o' ∷ events) key end =
    ap (λ kept. (kept, ltb 0 (length kept))) (filter_loop-select (o ∷ o' ∷ events) key end)
