-- ===== src/Memory/Runs.antt =====
-- Histories of calls on the in-memory backend of pkg/drivers/memory/memory.go.
use kine.Prelude.{
  ℕ, ◌+◌, ◌≡◌, refl, sym, subst, inl, inr, true, false, Option, none, some, List, [], ◌∷◌, ltb, leb,
  Bytes, arith, Bool-cases,
}
use kine.Memory.Tree.{OrderedMap}
use kine.Memory.Entry.{Entry}
use kine.Memory.State.{Memory, new}
use kine.Memory.Writes.{create, update, delete}
use kine.Memory.Compaction.{compact}
use kine.Types.{Error, future_rev, compacted}
use kine.Memory.CompactedKeys.{compact_lem}
use kine.Memory.Invariant.{Inv}
use kine.Memory.Preserved.{new-Inv, create-Inv, update-Inv, delete-Inv, compact-Inv}

pub data Call : Type 0 where
  creates : Bytes → Bytes → ℕ → Call
  updates : Bytes → Bytes → ℕ → ℕ → Call
  deletes : Bytes → ℕ → Call
  compacts : ℕ → Call

module _ (bt : OrderedMap (List Entry)) where
  unfoldable pub step : Memory bt → Call → Memory bt
  step m (creates key value lease) = (create bt key value lease m).1
  step m (updates key value revision lease) = (update bt key value revision lease m).1
  step m (deletes key revision) = (delete bt key revision m).1
  step m (compacts revision) = (compact bt revision m).1

  unfoldable pub run : Memory bt → List Call → Memory bt
  unfolding step
  run m [] = m
  run m (c ∷ calls) = run (step m c) calls

  abbrev pub counted : Option Error → ℕ
  counted none = 1
  counted (some e) = 0

  -- 1 for a compaction that the backend accepts, 0 for every other call
  abbrev pub accepted : Memory bt → Call → ℕ
  accepted m (creates _ _ _) = 0
  accepted m (updates _ _ _ _) = 0
  accepted m (deletes _ _) = 0
  accepted m (compacts revision) = counted (compact bt revision m).0.1

  unfoldable pub compactions : Memory bt → List Call → ℕ
  unfolding step
  compactions m [] = 0
  compactions m (c ∷ calls) = accepted m c + compactions (step m c) calls

  compact_future :
      (revision : ℕ) (m : Memory bt)
      → ltb m.current_revision revision ≡ true
      → compact bt revision m ≡ ((0, some future_rev), m)
  unfolding compact
  compact_future revision m e = rw e refl

  compact_old :
      (revision : ℕ) (m : Memory bt)
      → ltb m.current_revision revision ≡ false
      → leb revision m.compact_revision ≡ true
      → compact bt revision m ≡ ((0, some compacted), m)
  unfolding compact
  compact_old revision m e h = rw (e, h) refl

  plus_zero : (n : ℕ) (m : Memory bt) → Inv bt n m → Inv bt (n + 0) m
  plus_zero n m v = subst (λ k. Inv bt k m) (omega arith) v

  compacts-Inv :
      (n : ℕ) (m : Memory bt) (revision : ℕ)
      → Inv bt n m
      → Inv bt (n + counted (compact bt revision m).0.1) (compact bt revision m).1
  compacts-Inv n m revision v = elim (Bool-cases (ltb m.current_revision revision)) [
    | inl future ↦ rw (compact_future revision m future) (plus_zero n m v)
    | inr there ↦ elim (Bool-cases (leb revision m.compact_revision)) [
      | inl old ↦ rw (compact_old revision m there old) (plus_zero n m v)
      | inr new ↦
          let none_err : (compact bt revision m).0.1 ≡ none =
            rw (compact_lem bt revision m (ground arith) (ground arith)) refl in
          subst (λ o. Inv bt (n + counted o) (compact bt revision m).1) (sym none_err)
            (compact-Inv bt n m revision v (ground arith) (ground arith))
    ]
  ]

  step-Inv : (n : ℕ) (m : Memory bt) (c : Call) → Inv bt n m → Inv bt (n + accepted m c) (step m c)
  unfolding step
  step-Inv n m (creates key value lease) v = plus_zero n _ (create-Inv bt n m v key value lease)
  step-Inv n m (updates key value revision lease) v =
      plus_zero n _ (update-Inv bt n m v key value revision lease)
  step-Inv n m (deletes key revision) v = plus_zero n _ (delete-Inv bt n m v key revision)
  step-Inv n m (compacts revision) v = compacts-Inv n m revision v

  run-Inv :
      (n : ℕ) (m : Memory bt) (calls : List Call)
      → Inv bt n m
      → Inv bt (n + compactions m calls) (run m calls)
  unfolding run compactions
  run-Inv n m [] v = plus_zero n m v
  run-Inv n m (c ∷ calls) v =
      subst (λ k. Inv bt k (run (step m c) calls)) (omega arith)
        (run-Inv (n + accepted m c) (step m c) calls (step-Inv n m c v))

  -- After any sequence of `Create`, `Update`, `Delete` and `Compact` calls from the empty store
  -- the invariant holds: the log has every revision from its oldest to the current one, the oldest
  -- is the compact revision plus one less the number of accepted compactions, and every history
  -- rises, has only its own key and stays within the current revision.
  pub run-new-Inv : (calls : List Call) → Inv bt (compactions (new bt) calls) (run (new bt) calls)
  run-new-Inv calls =
      subst (λ n. Inv bt n (run (new bt) calls)) (omega arith)
        (run-Inv 0 (new bt) calls (new-Inv bt))
