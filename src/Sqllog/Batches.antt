-- ===== src/Sqllog/Batches.antt =====
-- compactIter of pkg/logstructured/sqllog/sql.go: a compaction in batches.
use kine.Prelude.{
  min, max, ◌⊎◌, ◌*◌, ℕ, zero, suc, ◌+◌, ◌-◌, ◌≤◌, ◌<◌, ◌≡◌, Bool, true, false, not, ◌&&◌, Option,
  none, some, ◌==◌, ltb, if◌then◌else◌,
}
use kine.Types.{Error}

-- The variables of the loop, and the state of the database.
pub record Batches (S : Type 0) : Type 0 where
  pub iter_compact_rev : ℕ
  pub compacted_rev : ℕ
  pub current_rev : ℕ
  pub iter_count : ℕ
  pub err : Option Error
  pub state : S

module _ {S : Type 0} (compact : ℕ → ℕ → S → (ℕ × ℕ × Option Error) × S) (batch_size : ℕ) where
  -- the next target
  abbrev pub iter_target : ℕ → ℕ → ℕ
  iter_target target iter = let next = iter + batch_size in if ltb target next then target else next

  -- one pass of the loop, up to the test of the error
  abbrev pub compacted_batch : ℕ → (ℕ × ℕ × Option Error) × S → Batches S → Batches S
  compacted_batch iter ((compacted, current, err), s) v =
      let valid = not (compacted == 0) && not (current == 0) in
      record {
        iter_compact_rev = iter;
        compacted_rev = if valid then compacted else v.compacted_rev;
        current_rev = if valid then current else v.current_rev;
        iter_count = v.iter_count;
        err = err;
        state = s;
      }

  -- `break` on an error, and the count of the batches otherwise
  abbrev pub counted_batch : Batches S → Batches S
  counted_batch v = record v { iter_count = v.iter_count + 1 }

  abbrev pub is_failed : Option Error → Bool
  is_failed none = false
  is_failed (some e) = true

  unfoldable pub batch : ℕ → Batches S → Batches S
  batch target v =
      let iter = iter_target target v.iter_compact_rev in
      compacted_batch iter (compact v.compacted_rev iter v.state) v

  unfoldable pub batches : ℕ → ℕ → Batches S → Batches S
  unfolding batch
  batches zero target v = v
  batches (suc fuel) target v =
      let v' = batch target v in
      let rest = batches fuel target (counted_batch v') in
      if ltb v.iter_compact_rev target then (if is_failed v'.err then v' else rest) else v

  abbrev pub first_batch : ℕ → S → Batches S
  first_batch compact_rev s = record {
    iter_compact_rev = compact_rev;
    compacted_rev = compact_rev;
    current_rev = 0;
    iter_count = 0;
    err = none;
    state = s;
  }

  abbrev pub next_target : ℕ → ℕ → Batches S → ℕ × ℕ
  next_target compact_rev target v =
      if ltb 0 v.current_rev then (v.compacted_rev, v.current_rev) else (compact_rev, target)

  -- the passes that were made
  abbrev pub passes : Batches S → ℕ
  passes v = if is_failed v.err then v.iter_count + 1 else v.iter_count

  -- how far this many passes come
  abbrev pub reached : ℕ → ℕ → ℕ → ℕ
  reached compact_rev target n = max compact_rev (min target (compact_rev + n * batch_size))

  module _ (K : S → Type 0) (Q : ℕ → S → Type 0) (compact_rev target : ℕ) where
    -- `K` holds of the state, and the loop has come as far as its passes; it ended on an error, or had
    -- nothing to do, or has the target behind it and what a compaction to it brings about.
    pub record Ended (v : Batches S) : Type 0 where
      pub kept : K v.state
      pub come : v.iter_compact_rev ≡ reached compact_rev target (passes v)
      pub result :
          (is_failed v.err ≡ true)
          ⊎ ((target ≤ compact_rev) × (passes v ≡ 0))
          ⊎ ((v.iter_compact_rev ≡ target) × Q target v.state)

    -- between two passes
    record Going (v : Batches S) : Type 0 where
      kept : K v.state
      come : v.iter_compact_rev ≡ reached compact_rev target v.iter_count
      fine : v.err ≡ none
      brought : (v.iter_count ≡ 0) ⊎ ((compact_rev < target) × Q v.iter_compact_rev v.state)

  -- `postCompact`, whose error is only logged, runs if a batch succeeded
  module _ (post_compact : S → S) where
    unfoldable pub compact_iter : ℕ → ℕ → S → (ℕ × ℕ) × S
    unfolding batches
    compact_iter compact_rev target s =
        let v = batches (target - compact_rev) target (first_batch compact_rev s) in
        (
          next_target compact_rev target v,
          if ltb 0 v.iter_count then post_compact v.state else v.state,
        )
