-- ===== src/Sqllog/Compaction.antt =====
-- pkg/logstructured/sqllog/sql.go: one transaction of the compaction.
use kine.Prelude.{
  ℕ, ◌-◌, ◌≤◌, ◌<◌, ◌≡◌, ◌⊎◌, false, not, Option, none, some, Bytes, codes, ◌==◌, ltb, leb,
  if◌then◌else◌, min,
}
use kine.Types.{Error, compacted, other}

-- BeginTx of the interface Dialect, and the methods of the interface Transaction that the compactions
-- call.
-- A transaction works on the state of the database; a rollback leaves the state from before it.
pub record Transaction (S : Type 0) : Type 0 where
  pub begin_tx : S → Option Error × S
  pub current_revision : S → (ℕ × Option Error) × S
  pub get_compact_revision : S → (ℕ × Option Error) × S
  pub compact : ℕ → S → (ℕ × Option Error) × S
  pub set_compact_revision : ℕ → S → Option Error × S
  pub commit : S → Option Error × S

-- `safeRev` is not below 0, as the subtraction stops there.
unfoldable pub safe_compact_rev : ℕ → ℕ → ℕ → ℕ
safe_compact_rev target_compact_rev current_rev compact_min_retain =
    let safe_rev = current_rev - compact_min_retain in
    if ltb target_compact_rev safe_rev then target_compact_rev else safe_rev

-- an error of `fmt.Errorf`, without the error that it wraps
abbrev failed : Bytes → ℕ × ℕ × Option Error
failed what = (0, 0, some (other what))

module _ {S : Type 0} (t : Transaction S) (compact_min_retain : ℕ) where
  -- The parts of `compact`, each from a result on; `s` is the state to roll back to.
  abbrev compact_set : ℕ → ℕ → S → Option Error × S → (ℕ × ℕ × Option Error) × S
  compact_set target current s (some e, s') =
      (failed (codes "failed to record compact revision"), s)
  compact_set target current s (none, s') = ((target, current, none), s')

  abbrev compact_deleted : ℕ → ℕ → S → (ℕ × Option Error) × S → (ℕ × ℕ × Option Error) × S
  compact_deleted target current s ((_, some e), s') = (failed (codes "failed to compact"), s)
  compact_deleted target current s ((_, none), s') =
      compact_set target current s (t.set_compact_revision target s')

  abbrev compact_checked : ℕ → ℕ → ℕ → S → (ℕ × Option Error) × S → (ℕ × ℕ × Option Error) × S
  compact_checked compact_rev target current s ((_, some e), s') =
      (failed (codes "failed to get compact revision"), s)
  compact_checked compact_rev target current s ((db_compact_rev, none), s') =
      let target' = safe_compact_rev target current compact_min_retain in
      if not (compact_rev == db_compact_rev)
      then ((db_compact_rev, current, some compacted), s)
      else if leb target' compact_rev
      then ((db_compact_rev, current, some compacted), s)
      else compact_deleted target' current s (t.compact target' s')

  abbrev compact_current : ℕ → ℕ → S → (ℕ × Option Error) × S → (ℕ × ℕ × Option Error) × S
  compact_current compact_rev target s ((_, some e), s') =
      (failed (codes "failed to get current revision"), s)
  compact_current compact_rev target s ((current, none), s') =
      compact_checked compact_rev target current s (t.get_compact_revision s')

  abbrev compact_begun : ℕ → ℕ → S → Option Error × S → (ℕ × ℕ × Option Error) × S
  compact_begun compact_rev target s (some e, s') =
      (failed (codes "failed to begin transaction"), s)
  compact_begun compact_rev target s (none, s') =
      compact_current compact_rev target s (t.current_revision s')

  unfoldable pub compact : ℕ → ℕ → S → (ℕ × ℕ × Option Error) × S
  compact compact_rev target s = compact_begun compact_rev target s (t.begin_tx s)

  -- where a compaction to `target` may end
  abbrev pub goal : ℕ → ℕ → ℕ
  goal target current = min target (current - compact_min_retain)

  -- The reads of the transaction: its newest and its compact revision.
  abbrev pub Reads : S → ℕ → ℕ → S → Type 0
  Reads s current db_compact_rev s3 =
      (s1 : S) × (s2 : S) × (t.begin_tx s ≡ (none, s1))
      × (t.current_revision s1 ≡ ((current, none), s2))
      × (t.get_compact_revision s2 ≡ ((db_compact_rev, none), s3))

  -- the call that failed
  pub data Broken (compact_rev target : ℕ) (s : S) : Type 0 where
    no_begin : (e : Error) (s1 : S) → t.begin_tx s ≡ (some e, s1) → Broken compact_rev target s
    no_current :
        (e : Error) (n : ℕ) (s1 s2 : S)
        → t.begin_tx s ≡ (none, s1)
        → t.current_revision s1 ≡ ((n, some e), s2)
        → Broken compact_rev target s
    no_compact_rev :
        (e : Error) (n current : ℕ) (s1 s2 s3 : S)
        → t.begin_tx s ≡ (none, s1)
        → t.current_revision s1 ≡ ((current, none), s2)
        → t.get_compact_revision s2 ≡ ((n, some e), s3)
        → Broken compact_rev target s
    no_delete :
        (e : Error) (n current : ℕ) (s3 s4 : S)
        → Reads s current compact_rev s3
        → t.compact (goal target current) s3 ≡ ((n, some e), s4)
        → Broken compact_rev target s
    no_record :
        (e : Error) (n current : ℕ) (s3 s4 s5 : S)
        → Reads s current compact_rev s3
        → t.compact (goal target current) s3 ≡ ((n, none), s4)
        → t.set_compact_revision (goal target current) s4 ≡ (some e, s5)
        → Broken compact_rev target s

  -- Nothing is to be done: others have compacted, or the goal is not above the compact revision.
  abbrev pub Refused : ℕ → ℕ → S → ℕ → ℕ → Type 0
  Refused compact_rev target s db_compact_rev current =
      (s3 : S) × Reads s current db_compact_rev s3
      × (((compact_rev == db_compact_rev) ≡ false) ⊎ (goal target current ≤ compact_rev))

  -- The rows were deleted, and the revision recorded, at the goal.
  abbrev pub Committed : ℕ → ℕ → S → ℕ → ℕ → S → Type 0
  Committed compact_rev target s compacted_rev current s' =
      (rows : ℕ) × (s3 : S) × (s4 : S) × Reads s current compact_rev s3
      × (t.compact compacted_rev s3 ≡ ((rows, none), s4))
      × (t.set_compact_revision compacted_rev s4 ≡ (none, s'))
      × (compact_rev < compacted_rev)
      × (compacted_rev ≡ goal target current)

  -- how `compact` may end
  abbrev pub Outcome : ℕ → ℕ → S → (ℕ × ℕ × Option Error) × S → Type 0
  Outcome compact_rev target s r =
      ((r.0.0 ≡ 0)
        × (r.0.1 ≡ 0)
        × (r.1 ≡ s)
        × Broken compact_rev target s
        × ((what : Bytes) × (r.0.2 ≡ some (other what))))
      ⊎ ((r.0.2 ≡ some compacted) × (r.1 ≡ s) × Refused compact_rev target s r.0.0 r.0.1)
      ⊎ ((r.0.2 ≡ none) × Committed compact_rev target s r.0.0 r.0.1 r.1)
