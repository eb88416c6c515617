-- ===== src/Sqllog/Relieved.antt =====
-- pkg/logstructured/sqllog/kubehz_relief.go: over transactions that do not fail, a pass of the relief
-- ends at its target.
use kine.Prelude.{
  subst, ℕ, ◌+◌, ◌<◌, ◌≡◌, refl, sym, ◌∙◌, Bool, true, false, ◌||◌, ◌⊎◌, Option, none, some, List,
  [], ◌∷◌, ltb, leb, min, max, if◌then◌else◌, if_cases, inl, inr, arith,
}
use kine.Types.{Error}
use kine.Quota.Relief.{ReliefResult}
use kine.Sqllog.Compaction.{Transaction}
use kine.Sqllog.Relief.{
  ReliefError, after_compacting, no_result, relief_loop, relieve_quota, relieved, post_compacted,
  has_stats,
}
use kine.Sqllog.ReliefLoop.{
  LawfulTransaction, goal_of, Finished, relief_loop-Finished, Tidy, relief_loop-Tidy,
}

module _ {S : Type 0} (t : Transaction S) (batch_size : ℕ) (lawful : LawfulTransaction t) where
  module _ (refresh_stats : Option (S → Option Error × S)) (post_compact : S → Option Error × S)
      (start_polling : S → S)
      (keeps_revision : (s : S) → lawful.revision (post_compact s).1 ≡ lawful.revision s)
      (keeps_compact : (s : S) → lawful.compact_rev (post_compact s).1 ≡ lawful.compact_rev s)
      (keeps_clean : (n : ℕ) (s : S)
        → lawful.is_clean n s
        → lawful.is_clean n (post_compact s).1) where
    -- The pass has compacted as far as `goal`, and says so; only the step after it can have failed.
    abbrev pub Relieved : ℕ → S → (ReliefResult × List ReliefError) × S → Type 0
    Relieved goal s r =
        (lawful.revision r.1 ≡ lawful.revision s)
        × (lawful.compact_rev r.1 ≡ max (lawful.compact_rev s) (goal_of t batch_size lawful goal s))
        × (r.0.0.head ≡ lawful.revision s)
        × (r.0.0.compacted_to ≡ lawful.compact_rev r.1)
        × ((r.0.1 ≡ []) ⊎ (r.0.1 ≡ after_compacting ∷ []))

    post-Relieved :
        (goal : ℕ) (s s' : S) (res : ReliefResult) (r : Option Error × S)
        → lawful.revision r.1 ≡ lawful.revision s'
        → lawful.compact_rev r.1 ≡ lawful.compact_rev s'
        → Finished t batch_size lawful goal s ((res, none, true), s')
        → Relieved goal s
            (post_compacted t batch_size refresh_stats post_compact start_polling res none r)
    post-Relieved goal s s' res (some e, s'') a b (_, _, c, d, h, k) =
        (a ∙ c, b ∙ d, h, k ∙ sym b, inr refl)
    post-Relieved goal s s' res (none, s'') a b (_, _, c, d, h, k) =
        (a ∙ c, b ∙ d, h, k ∙ sym b, inl refl)

    relieved-Relieved :
        (goal : ℕ) (s : S) (x : (ReliefResult × Option ReliefError × Bool) × S)
        → Finished t batch_size lawful goal s x
        → Relieved goal s (relieved t batch_size refresh_stats post_compact start_polling x)
    relieved-Relieved goal s ((res, some e, ended), s') (q, _, _, _, _, _) = cc q
    relieved-Relieved goal s ((res, none, ended), s') (_, _, c, d, h, k) =
        if_cases
          (λ (r : ReliefResult). Relieved goal s (
            if ltb 0 res.rows
            then post_compacted t batch_size refresh_stats post_compact start_polling r none
                (post_compact s')
            else ((r, []), s')))
          (ltb 0 res.rows || false) _ res
          (λ _.
            ends
              (record res {
                stale = has_stats t batch_size refresh_stats post_compact start_polling;
              })
              (refl, refl, c, d, h, k))
          (λ _. ends res (refl, refl, c, d, h, k))
      where
        ends :
            (r : ReliefResult)
            → Finished t batch_size lawful goal s ((r, none, true), s')
            → Relieved goal s (
                if ltb 0 res.rows
                then post_compacted t batch_size refresh_stats post_compact start_polling r none
                    (post_compact s')
                else ((r, []), s'))
        ends r f =
            if_cases (Relieved goal s) (ltb 0 res.rows) _ _
              (λ _.
                post-Relieved goal s s' r (post_compact s') (keeps_revision s') (keeps_compact s')
                  f)
              (λ _. (f.2, f.3, f.4, f.5, inl refl))

    post_compacted-state :
        (res : ReliefResult) (err : Option ReliefError) (r : Option Error × S)
        → (post_compacted t batch_size refresh_stats post_compact start_polling res err r).1 ≡ r.1
    post_compacted-state res err (none, s) = refl
    post_compacted-state res err (some e, s) = refl

    post_compact-Tidy :
        (old : ℕ) (s : S)
        → Tidy t batch_size lawful old s
        → Tidy t batch_size lawful old (post_compact s).1
    post_compact-Tidy old s (inl same) = inl (keeps_compact s ∙ same)
    post_compact-Tidy old s (inr clean) = inr (
        subst (λ n. lawful.is_clean n (post_compact s).1) (sym (keeps_compact s))
          (keeps_clean (lawful.compact_rev s) s clean))

    relieved-Tidy :
        (old : ℕ) (x : (ReliefResult × Option ReliefError × Bool) × S)
        → Tidy t batch_size lawful old x.1
        → Tidy t batch_size lawful old
            (relieved t batch_size refresh_stats post_compact start_polling x).1
    relieved-Tidy old ((res, err, ended), s) h =
        if_cases (λ (r : (ReliefResult × List ReliefError) × S). Tidy t batch_size lawful old r.1)
          (ltb 0 res.rows) _ _
          (λ _.
            subst (Tidy t batch_size lawful old) (sym (post_compacted-state _ err (post_compact s)))
              (post_compact-Tidy old s h))
          (λ _. h)

    -- Over transactions that do not fail, with a poller that has sent a revision and a database
    -- with a row, the compaction of RelieveQuota ends, with batches of any size: the compact
    -- revision is then the larger of the old one and the smallest of the target, the polled
    -- revision and the one before the newest; the newest revision is as it was; both are reported;
    -- only the step after the compaction can have failed; and unless the compact revision is the
    -- old one, the rows that a compaction to it deletes are gone.
    pub relieve_quota-Relieved :
        (polled target : ℕ) (s : S)
        → 0 < polled
        → 0 < lawful.revision s
        → Relieved (min target polled) s (
            relieve_quota t batch_size refresh_stats post_compact start_polling polled target false
              s)
          × Tidy t batch_size lawful
              (lawful.compact_rev s)
              (relieve_quota t batch_size refresh_stats post_compact start_polling polled target
                false s).1
    unfolding relieve_quota relief_loop
    relieve_quota-Relieved polled target s some_sent some_row =
        let goal = min target polled in
        let loop = relief_loop t batch_size (goal + 1) goal no_result s in
        rw (no_start polled some_sent) (
          relieved-Relieved goal s loop (
              relief_loop-Finished t batch_size lawful (goal + 1) goal no_result s some_row
                (omega arith) (omega arith) (omega arith)),
          relieved-Tidy (lawful.compact_rev s) loop (
              relief_loop-Tidy t batch_size lawful (goal + 1) (lawful.compact_rev s) goal no_result
                s (inl refl)),
        )
      where
        no_start : (n : ℕ) → 0 < n → leb n 0 ≡ false
        no_start n h = ground (arith, h)
