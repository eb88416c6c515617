-- ===== src/Sqllog/ReliefLoop.antt =====
-- pkg/logstructured/sqllog/kubehz_relief.go: over transactions that do not fail, the loop of the relief
-- ends at its target.
use kine.Prelude.{
  inl, inr, ◌⊎◌, ℕ, zero, suc, ◌+◌, ◌-◌, ◌≤◌, ◌<◌, ◌≡◌, refl, sym, subst, ◌∙◌, Bool, true, false,
  Option, none, ltb, leb, min, max, if◌then◌else◌, if_cases, leb→le, lt→ltb, Bool-cases, inl, inr,
  arith,
}
use kine.Quota.Relief.{ReliefResult}
use kine.Sqllog.Compaction.{Transaction}
use kine.Sqllog.Relief.{ReliefError, Batch, add_batch, is_last, relief_batch, batch_to, relief_loop}

-- Transactions that do not fail. A compaction deletes rows up to its revision only (CompactSQL of the
-- dialects), so that the newest revision, which is the largest id, stays if it is above. The compact
-- revision is the one that was recorded last. `is_clean` tells that the rows that a compaction to a revision
-- deletes are not there.
pub record LawfulTransaction {S : Type 0} (t : Transaction S) : Type 1 where
  pub revision : S → ℕ
  pub compact_rev : S → ℕ
  pub deleted : ℕ → S → ℕ
  pub after_compact : ℕ → S → S
  pub after_set : ℕ → S → S
  pub begins : (s : S) → t.begin_tx s ≡ (none, s)
  pub reads_current : (s : S) → t.current_revision s ≡ ((revision s, none), s)
  pub reads_compact : (s : S) → t.get_compact_revision s ≡ ((compact_rev s, none), s)
  pub compacts : (r : ℕ) (s : S) → t.compact r s ≡ ((deleted r s, none), after_compact r s)
  pub sets : (r : ℕ) (s : S) → t.set_compact_revision r s ≡ (none, after_set r s)
  pub commits : (s : S) → t.commit s ≡ (none, s)
  pub compact_keeps : (r : ℕ) (s : S) → r < revision s → revision (after_compact r s) ≡ revision s
  pub set_keeps : (r : ℕ) (s : S) → revision (after_set r s) ≡ revision s
  pub is_clean : ℕ → S → Type 0
  pub compact_cleans : (r : ℕ) (s : S) → is_clean r (after_compact r s)
  pub set_keeps_clean : (r n : ℕ) (s : S) → is_clean n s → is_clean n (after_set r s)
  pub set_records : (r : ℕ) (s : S) → compact_rev (after_set r s) ≡ r

module _ {S : Type 0} (t : Transaction S) (batch_size : ℕ) (lawful : LawfulTransaction t) where
  -- where the pass is to end
  abbrev pub goal_of : ℕ → S → ℕ
  goal_of target s = min target (lawful.revision s - 1)

  abbrev batch_of : ℕ → S → ℕ
  batch_of target s = batch_to t batch_size (goal_of target s) (lawful.compact_rev s)

  abbrev after_batch : ℕ → S → S
  after_batch r s = lawful.after_set r (lawful.after_compact r s)

  -- a batch that has something to do, and one that has not
  abbrev worked : ℕ → S → Batch
  worked target s = record {
    done = leb (goal_of target s) (batch_of target s);
    rows = lawful.deleted (batch_of target s) s;
    to = batch_of target s;
    head = lawful.revision s;
    err = none;
  }

  batch-eq_more :
      (target : ℕ) (s : S)
      → leb (goal_of target s) (lawful.compact_rev s) ≡ false
      → relief_batch t batch_size target s ≡ (worked target s, after_batch (batch_of target s) s)
  batch-eq_more target s more =
      rw
        (
          lawful.begins s,
          lawful.reads_current s,
          lawful.reads_compact s,
          more,
          lawful.compacts (batch_of target s) s,
          lawful.sets (batch_of target s) (lawful.after_compact (batch_of target s) s),
          lawful.commits (after_batch (batch_of target s) s),
        )
        refl

  batch-eq_done :
      (target : ℕ) (s : S)
      → leb (goal_of target s) (lawful.compact_rev s) ≡ true
      → relief_batch t batch_size target s ≡ (
        record {
          done = true;
          rows = 0;
          to = lawful.compact_rev s;
          head = lawful.revision s;
          err = none;
        },
        s,
      )
  batch-eq_done target s over =
      rw (lawful.begins s, lawful.reads_current s, lawful.reads_compact s, over) refl

  -- The loop has ended without an error, as far as it may go.
  abbrev pub Finished : ℕ → S → (ReliefResult × Option ReliefError × Bool) × S → Type 0
  Finished target s ((res, err, ended), s') =
      (err ≡ none)
      × (ended ≡ true)
      × (lawful.revision s' ≡ lawful.revision s)
      × (lawful.compact_rev s' ≡ max (lawful.compact_rev s) (goal_of target s))
      × (res.head ≡ lawful.revision s)
      × (res.compacted_to ≡ lawful.compact_rev s')

  -- one round of the loop
  abbrev round : ℕ → ℕ → ReliefResult → Batch × S → (ReliefResult × Option ReliefError × Bool) × S
  round fuel target res (b, s') =
      if is_last b
      then ((add_batch res b, b.err, true), s')
      else relief_loop t batch_size fuel target (add_batch res b) s'

  relief_loop-round :
      (fuel target : ℕ) (res : ReliefResult) (s : S)
      → relief_loop t batch_size (suc fuel) target res s
        ≡ round fuel target res (relief_batch t batch_size target s)
  unfolding relief_loop
  relief_loop-round fuel target res s = refl

  batch_of-rises :
      (target : ℕ) (s : S)
      → leb (goal_of target s) (lawful.compact_rev s) ≡ false
      → (lawful.compact_rev s < batch_of target s) × (batch_of target s ≤ goal_of target s)
  batch_of-rises target s more =
      if_cases (λ r. (lawful.compact_rev s < r) × (r ≤ goal_of target s)) (ltb 0 batch_size) _ _
        (λ p. ground (arith, more, p)) (λ p. ground (arith, more))

  Finished-later :
      (target : ℕ) (s s' : S) (x : (ReliefResult × Option ReliefError × Bool) × S)
      → lawful.revision s' ≡ lawful.revision s
      → lawful.compact_rev s ≤ lawful.compact_rev s'
      → lawful.compact_rev s' ≤ goal_of target s
      → Finished target s' x
      → Finished target s x
  Finished-later target s s' x same up low (a, b, c, d, e, f) =
      (a, b, c ∙ same, omega (arith, d, same, up, low), e ∙ same, f)

  after_batch-revision :
      (r : ℕ) (s : S)
      → r < lawful.revision s
      → lawful.revision (after_batch r s) ≡ lawful.revision s
  after_batch-revision r s below =
      lawful.set_keeps r (lawful.after_compact r s) ∙ lawful.compact_keeps r s below

  after_batch-compact_rev : (r : ℕ) (s : S) → lawful.compact_rev (after_batch r s) ≡ r
  after_batch-compact_rev r s = lawful.set_records r (lawful.after_compact r s)

  picked : (to old : ℕ) → 0 < to → (if ltb 0 to then to else old) ≡ to
  picked to old p = rw (lt→ltb 0 to p) refl

  pub relief_loop-Finished :
      (fuel target : ℕ) (res : ReliefResult) (s : S)
      → 0 < lawful.revision s
      → goal_of target s < fuel + lawful.compact_rev s + 1
      → res.compacted_to ≤ lawful.compact_rev s
      → 0 < fuel
      → Finished target s (relief_loop t batch_size fuel target res s)
  relief_loop-Finished zero target res s pos enough low f = absurd (omega (arith, f))
  relief_loop-Finished (suc fuel) target res s pos enough low f =
      subst (Finished target s) (sym (relief_loop-round fuel target res s))
        (elim (Bool-cases (leb (goal_of target s) (lawful.compact_rev s))) [
          | inl over ↦
              subst (λ x. Finished target s (round fuel target res x))
                (sym (batch-eq_done target s over))
                (refl, refl, refl, ground (arith, over), ground (arith, pos), ground (arith, low))
          | inr more ↦
              let r = batch_of target s in
              let s' = after_batch r s in
              let rises = batch_of-rises target s more in
              let same = after_batch-revision r s (omega (arith, pos, rises)) in
              let now = after_batch-compact_rev r s in
              subst (λ x. Finished target s (round fuel target res x))
                (sym (batch-eq_more target s more))
                (if_cases (Finished target s) (leb (goal_of target s) r) _ _
                  (λ last. (
                    refl,
                    refl,
                    same,
                    omega (arith, now, rises, leb→le (goal_of target s) r last),
                    ground (arith, pos),
                    picked r res.compacted_to (omega (arith, rises)) ∙ sym now,
                  ))
                  (λ further.
                    Finished-later target s s'
                      (relief_loop t batch_size fuel target (add_batch res (worked target s)) s')
                      same (omega (arith, now, rises)) (omega (arith, now, rises))
                      (relief_loop-Finished fuel target (add_batch res (worked target s)) s'
                        (omega (arith, pos, same)) (omega (arith, enough, now, rises, same))
                        (omega (arith, picked r res.compacted_to (omega (arith, rises)), now))
                        (ground (arith, further, enough, rises)))))
        ])

  -- The compact revision is still the one from the start, or all up to it is deleted.
  abbrev pub Tidy : ℕ → S → Type 0
  Tidy old s = (lawful.compact_rev s ≡ old) ⊎ lawful.is_clean (lawful.compact_rev s) s

  after_batch-Tidy : (old r : ℕ) (s : S) → Tidy old (after_batch r s)
  after_batch-Tidy old r s = inr (
      subst (λ n. lawful.is_clean n (after_batch r s)) (sym (after_batch-compact_rev r s))
        (lawful.set_keeps_clean r r (lawful.after_compact r s) (lawful.compact_cleans r s)))

  pub relief_loop-Tidy :
      (fuel old target : ℕ) (res : ReliefResult) (s : S)
      → Tidy old s
      → Tidy old (relief_loop t batch_size fuel target res s).1
  unfolding relief_loop
  relief_loop-Tidy zero old target res s h = h
  relief_loop-Tidy (suc fuel) old target res s h =
      elim (Bool-cases (leb (goal_of target s) (lawful.compact_rev s))) [
        | inl over ↦
            subst (λ x. Tidy old (round fuel target res x).1) (sym (batch-eq_done target s over)) h
        | inr more ↦
            let r = batch_of target s in
            let s' = after_batch r s in
            subst (λ x. Tidy old (round fuel target res x).1) (sym (batch-eq_more target s more))
              (if_cases (λ (x : (ReliefResult × Option ReliefError × Bool) × S). Tidy old x.1)
                (leb (goal_of target s) r) _ _ (λ _. after_batch-Tidy old r s)
                (λ _.
                  relief_loop-Tidy fuel old target (add_batch res (worked target s)) s'
                    (after_batch-Tidy old r s)))
      ]
