-- ===== src/Sqllog/Refinement.antt =====
-- pkg/logstructured/sqllog/sql.go: over a database that answers its queries, the operations of the log
-- return what the revisions and the rows of the database say, however they are read.
use kine.Prelude.{
  ℕ, ◌≡◌, refl, sym, subst, inl, inr, Bool, true, false, not, Option, none, [], Bytes, ltb, ◌==◌,
  if◌then◌else◌, Bool-cases, arith, lt→ltb,
}
use kine.Types.{Event, Error}
use kine.Sqllog.Rows.{events_of}
use kine.Sqllog.Dialect.{Dialect}
use kine.Sqllog.Log.{SqlLog, count, counted, append, inserted, kv_or_empty, sql_log}
use kine.Sqllog.Answers.{LawfulDialect, answer, answer_after, Fresh, Answered, Appended, from_eq}
use kine.Sqllog.Reads.{list-Answered, after-Answered}

module _ {D : Type 0} (d : Dialect D) (lawful : LawfulDialect d) (manual : Bool)
    (iterate : ℕ → ℕ → D → (ℕ × ℕ) × D) where
  counted-answer :
      (revision rev compact number : ℕ) (s : SqlLog D)
      → (revision == 0) ≡ false
      → counted d (λ n. n) manual iterate revision s ((rev, compact, number, none), s.db)
        ≡ (answer revision rev compact 0 number, s)
  counted-answer revision rev compact number s some_rev =
      rw (lt→ltb 0 revision (ground (arith, some_rev))) (elim (Bool-cases (ltb rev revision)) [
        | inl future ↦ rw future refl
        | inr past ↦ rw past (elim (Bool-cases (ltb revision compact)) [
          | inl old ↦ rw old refl
          | inr new ↦ rw new refl
        ])
      ])

  not_above : (rev : ℕ) → ltb rev 0 ≡ false
  not_above rev = ground arith

  count-Answered :
      (key end : Bytes) (revision : ℕ) (s : SqlLog D)
      → Fresh d lawful s
      → Answered d lawful s (count d (λ n. n) manual iterate key end revision s) (
          answer revision
            (lawful.revision s.db)
            (lawful.compact s.db)
            0
            (lawful.number_at (d.translate_start_key key) end revision s.db))
  unfolding count
  count-Answered key end revision s f =
      let key' = d.translate_start_key key in
      let rev = lawful.revision s.db in
      elim (Bool-cases (revision == 0)) [
        | inl now ↦
            from_eq d lawful s s _ _
              (rw (now, lawful.counts_now key' end s.db)
                (subst
                  (λ n.
                    ◌≡◌ {A = (ℕ × ℕ × Option Error) × SqlLog D}
                      ((rev, lawful.number_at key' end 0 s.db, none), s)
                      (answer n rev (lawful.compact s.db) 0 (lawful.number_at key' end n s.db), s))
                  {x = 0} {y = revision} (ground (arith, now)) (rw (not_above rev) refl)))
              refl f
        | inr at_rev ↦
            from_eq d lawful s s _ _
              (rw (at_rev, lawful.counts_at key' end revision s.db)
                (counted-answer revision rev (lawful.compact s.db) _ s at_rev))
              refl f
      ]

  append-Appended :
      (e : Event) (s : SqlLog D)
      → Fresh d lawful s
      → Appended d lawful s (append d (λ n. n) manual iterate e s)
  unfolding append
  append-Appended e s f =
      let kv = kv_or_empty e.kv in
      let prev = kv_or_empty e.prev_kv in
      let P = λ (r : (ℕ × Option Error) × D).
        Appended d lawful s (inserted d (λ n. n) manual iterate s.current_rev s r) in
      elim (lawful.inserts kv.key e.create e.delete kv.create_revision prev.mod_revision kv.lease
        kv.value s.db) [
          | inl (err, q) ↦ subst P (sym q) (f, inl (err, refl, refl))
          | inr (s', q) ↦
              subst P (sym q) (rw (same (s.current_rev)) (inr refl, inr (refl, refl, refl)))
        ]
    where
      same : (n : ℕ) → (n == n) ≡ true
      same n = ground arith

  -- Over a database whose queries answer and whose rows all carry its newest and its compact
  -- revision, with a cached revision that is unknown or the newest one and no other goroutine
  -- moving it, List, After and Count return at every revision what these two revisions and the
  -- rows say (a future revision, a compacted one, or the events or their number), whether the
  -- revisions come with the rows or are read apart, and leave the database as it was and the cache
  -- right; Append fails and changes nothing of the database, or returns the newest revision after
  -- it, which is then cached.
  pub sql_log-Answered :
      (key end : Bytes) (limit revision : ℕ) (deleted keys_only : Bool) (e : Event) (s : SqlLog D)
      → Fresh d lawful s
      → Answered d lawful s
          ((sql_log d (λ n. n) manual iterate).list key end limit revision deleted keys_only s)
          (answer revision (lawful.revision s.db) (lawful.compact s.db) [] (
            events_of (not keys_only) false (
              if revision == 0
              then lawful.rows_now (d.translate_start_key key) end limit deleted keys_only s.db
              else lawful.rows_at
                  (d.translate_start_key key)
                  end
                  limit
                  revision
                  deleted
                  keys_only
                  s.db)))
        × Answered d lawful s ((sql_log d (λ n. n) manual iterate).after key end revision limit s) (
            answer_after revision
              (lawful.revision s.db)
              (lawful.compact s.db)
              (events_of true true (lawful.rows_after key end revision limit s.db)))
        × Answered d lawful s ((sql_log d (λ n. n) manual iterate).count key end revision s) (
            answer revision
              (lawful.revision s.db)
              (lawful.compact s.db)
              0
              (lawful.number_at (d.translate_start_key key) end revision s.db))
        × Appended d lawful s ((sql_log d (λ n. n) manual iterate).append e s)
  sql_log-Answered key end limit revision deleted keys_only e s f = (
    list-Answered d lawful manual iterate key end limit revision deleted keys_only s f,
    after-Answered d lawful manual iterate key end revision limit s f,
    count-Answered key end revision s f,
    append-Appended e s f,
  )
