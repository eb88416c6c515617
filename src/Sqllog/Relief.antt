-- ===== src/Sqllog/Relief.antt =====
-- pkg/logstructured/sqllog/kubehz_relief.go: the compaction that the quota asks for.
use kine.Prelude.{
  ℕ, zero, suc, ◌+◌, ◌-◌, Bool, true, false, ◌||◌, Option, none, some, List, [], ◌∷◌, ◌++◌, ltb,
  leb, min, if◌then◌else◌,
}
use kine.Types.{Error}
use kine.Quota.Relief.{ReliefResult}
use kine.Sqllog.Compaction.{Transaction}

-- What failed. `joinRelief` is the append of lists, and nil the empty one.
pub data ReliefError : Type 0 where
  refreshing beginning reading_current reading_compact compacting recording : ReliefError
  commit_unknown after_compacting : ReliefError

-- the results of reliefBatch
pub record Batch : Type 0 where
  pub done : Bool
  pub rows : ℕ
  pub to : ℕ
  pub head : ℕ
  pub err : Option ReliefError

abbrev pub failed_batch : ℕ → ReliefError → Batch
failed_batch head e = record { done = true; rows = 0; to = 0; head = head; err = some e }

abbrev pub no_result : ReliefResult
no_result = record { rows = 0; compacted_to = 0; head = 0; stale = false; refreshed = false }

abbrev pub errors_of : Option ReliefError → List ReliefError
errors_of none = []
errors_of (some e) = e ∷ []

-- `errors.Is(err, errCommitUnknown)`
abbrev pub is_commit_unknown : Option ReliefError → Bool
is_commit_unknown (some commit_unknown) = true
is_commit_unknown (some _) = false
is_commit_unknown none = false

abbrev pub is_set : Option ReliefError → Bool
is_set none = false
is_set (some e) = true

-- what the loop of RelieveQuota does with a batch
abbrev pub add_batch : ReliefResult → Batch → ReliefResult
add_batch res b = record res {
  rows = res.rows + b.rows;
  compacted_to = if ltb 0 b.to then b.to else res.compacted_to;
  head = if ltb 0 b.head then b.head else res.head;
}

abbrev pub is_last : Batch → Bool
is_last b = is_set b.err || b.done

-- `s` is the state that a rollback goes back to.
module _ {S : Type 0} (t : Transaction S) (batch_size : ℕ) where
  abbrev pub committed_batch : ℕ → ℕ → ℕ → ℕ → Option Error × S → Batch × S
  committed_batch goal current rows batch (some e, s') = (failed_batch current commit_unknown, s')
  committed_batch goal current rows batch (none, s') =
      (record { done = leb goal batch; rows = rows; to = batch; head = current; err = none }, s')

  abbrev pub recorded_batch : ℕ → ℕ → ℕ → ℕ → S → Option Error × S → Batch × S
  recorded_batch goal current rows batch s (some e, s') = (failed_batch current recording, s)
  recorded_batch goal current rows batch s (none, s') =
      committed_batch goal current rows batch (t.commit s')

  abbrev pub compacted_batch : ℕ → ℕ → ℕ → S → (ℕ × Option Error) × S → Batch × S
  compacted_batch goal current batch s ((rows, some e), s') = (failed_batch current compacting, s)
  compacted_batch goal current batch s ((rows, none), s') =
      recorded_batch goal current rows batch s (t.set_compact_revision batch s')

  -- the revision that one batch compacts to
  abbrev pub batch_to : ℕ → ℕ → ℕ
  batch_to goal compact_rev = if ltb 0 batch_size then min goal (compact_rev + batch_size) else goal

  abbrev pub batch_from : ℕ → ℕ → S → (ℕ × Option Error) × S → Batch × S
  batch_from target current s ((compact_rev, some e), s') =
      (failed_batch current reading_compact, s)
  batch_from target current s ((compact_rev, none), s') =
      let goal = min target (current - 1) in
      if leb goal compact_rev
      then (record { done = true; rows = 0; to = compact_rev; head = current; err = none }, s)
      else compacted_batch goal current (batch_to goal compact_rev) s
          (t.compact (batch_to goal compact_rev) s')

  abbrev pub batch_below : ℕ → S → (ℕ × Option Error) × S → Batch × S
  batch_below target s ((current, some e), s') = (failed_batch 0 reading_current, s)
  batch_below target s ((current, none), s') =
      batch_from target current s (t.get_compact_revision s')

  abbrev pub batch_begun : ℕ → S → Option Error × S → Batch × S
  batch_begun target s (some e, s') = (failed_batch 0 beginning, s)
  batch_begun target s (none, s') = batch_below target s (t.current_revision s')

  abbrev pub relief_batch : ℕ → S → Batch × S
  relief_batch target s = batch_begun target s (t.begin_tx s)

  -- The loop of RelieveQuota; the last Boolean tells that it has ended.
  unfoldable pub relief_loop :
      ℕ → ℕ → ReliefResult → S → (ReliefResult × Option ReliefError × Bool) × S
  relief_loop zero target res s = ((res, none, false), s)
  relief_loop (suc fuel) target res s =
      let (b, s') = relief_batch target s in
      let rest = relief_loop fuel target (add_batch res b) s' in
      if is_last b then ((add_batch res b, b.err, true), s') else rest

  -- `refresh_stats` is the optional method RefreshStats of the dialect, `polled` the revision that the
  -- poller has sent, and `start_polling` the call that starts one.
  module _ (refresh_stats : Option (S → Option Error × S)) (post_compact : S → Option Error × S)
      (start_polling : S → S) where
    abbrev pub has_stats : Bool
    has_stats = elim refresh_stats [ none ↦ false | some f ↦ true ]

    abbrev pub refreshed : Option Error × S → (ReliefResult × List ReliefError) × S
    refreshed (some e, s) = ((no_result, refreshing ∷ []), s)
    refreshed (none, s) = ((record no_result { refreshed = true }, []), s)

    abbrev pub refresh_only : S → (ReliefResult × List ReliefError) × S
    refresh_only s = elim refresh_stats [ none ↦ refreshed (none, s) | some f ↦ refreshed (f s) ]

    abbrev pub post_compacted :
        ReliefResult → Option ReliefError → Option Error × S → (ReliefResult × List ReliefError) × S
    post_compacted res err (some e, s) = ((res, errors_of err ++ after_compacting ∷ []), s)
    post_compacted res err (none, s) = ((res, errors_of err), s)

    -- from the end of the loop on
    abbrev pub relieved :
        (ReliefResult × Option ReliefError × Bool) × S → (ReliefResult × List ReliefError) × S
    relieved ((res, err, ended), s) =
        let changed = ltb 0 res.rows in
        let res' =
          if changed || is_commit_unknown err then record res { stale = has_stats } else res in
        if changed then post_compacted res' err (post_compact s) else ((res', errors_of err), s)

    unfoldable pub relieve_quota : ℕ → ℕ → Bool → S → (ReliefResult × List ReliefError) × S
    unfolding relief_loop
    relieve_quota polled target true s = refresh_only s
    relieve_quota polled target false s =
        let goal = min target polled in
        let loop = relief_loop (goal + 1) goal no_result s in
        if leb polled 0 then ((no_result, []), start_polling s) else relieved loop
