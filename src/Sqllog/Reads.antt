-- ===== src/Sqllog/Reads.antt =====
-- pkg/logstructured/sqllog/sql.go: List and After over a database that answers its queries.
use kine.Prelude.{
  ℕ, ◌≡◌, refl, ap, ◌∙◌, inl, inr, Bool, true, false, not, ◌&&◌, Option, none, List, [], ◌∷◌, Bytes,
  ltb, leb, ◌==◌, if◌then◌else◌, Bool-cases, All, arith, le→leb,
}
use kine.Types.{Event, Error}
use kine.Sqllog.Rows.{
  Columns, rows_of, scanned, Stamped, events_of, rows_to_events-rows_of, rows_loop,
}
use kine.Sqllog.Dialect.{Dialect}
use kine.Sqllog.Log.{
  SqlLog, current_revision, after, after_rows, after_events, after_checked, after_current, list,
  list_rows, list_events, list_checked, is_empty,
}
use kine.Sqllog.Answers.{
  LawfulDialect, answer, answer_after, Fresh, Answered, and_false, current_lem, from_eq,
}

module _ {D : Type 0} (d : Dialect D) (lawful : LawfulDialect d) (manual : Bool)
    (iterate : ℕ → ℕ → D → (ℕ × ℕ) × D) where
  list_checked-answer :
      (revision rev compact : ℕ) (events : List Event) (s : SqlLog D)
      → list_checked d (λ n. n) manual iterate revision rev compact events s
        ≡ (answer revision rev compact [] events, s)
  list_checked-answer revision rev compact events s = elim (Bool-cases (ltb rev revision)) [
    | inl future ↦ rw future refl
    | inr past ↦ rw past (elim (Bool-cases (ltb 0 revision && ltb revision compact)) [
      | inl old ↦ rw old refl
      | inr new ↦ rw new refl
    ])
  ]

  after_checked-answer :
      (revision rev compact : ℕ) (events : List Event) (s : SqlLog D)
      → (leb revision 0 && is_empty events) ≡ false
      → after_checked d (λ n. n) manual iterate revision rev compact events none s
        ≡ (answer_after revision rev compact events, s)
  after_checked-answer revision rev compact events s some_row =
      rw some_row (elim (Bool-cases (ltb 0 revision && ltb revision compact)) [
        | inl old ↦ rw old refl
        | inr new ↦ rw new refl
      ])

  list_found :
      (revision : ℕ) (keys_only : Bool) (s : SqlLog D) (cs : List Columns)
      → Fresh d lawful s
      → All (Stamped (lawful.revision s.db) (lawful.compact s.db)) cs
      → Answered d lawful s
          (list_rows d (λ n. n) manual iterate revision keys_only s ((rows_of cs, none), s.db))
          (answer revision
            (lawful.revision s.db)
            (lawful.compact s.db)
            []
            (events_of (not keys_only) false cs))
  unfolding rows_loop
  list_found revision keys_only s [] f h =
      from_eq d lawful s (record s { current_rev = lawful.revision s.db }) _ _
        (rw (current_lem d lawful manual iterate s f, lawful.reads_compact s.db)
          (list_checked-answer revision (lawful.revision s.db) (lawful.compact s.db) [] _))
        refl (inr refl)
  list_found revision keys_only s (c ∷ cs) f h =
      from_eq d lawful s s _ _
        (ap (list_events d (λ n. n) manual iterate revision s)
            (rows_to_events-rows_of (not keys_only) false c cs _ _ h)
          ∙ list_checked-answer revision (lawful.revision s.db) (lawful.compact s.db) _ s)
        refl f

  pub list-Answered :
      (key end : Bytes) (limit revision : ℕ) (deleted keys_only : Bool) (s : SqlLog D)
      → Fresh d lawful s
      → Answered d lawful s
          (list d (λ n. n) manual iterate key end limit revision deleted keys_only s)
          (answer revision (lawful.revision s.db) (lawful.compact s.db) [] (
            events_of (not keys_only) false (
              if revision == 0
              then lawful.rows_now (d.translate_start_key key) end limit deleted keys_only s.db
              else lawful.rows_at
                  (d.translate_start_key key)
                  end
                  limit
                  revision
                  deleted
                  keys_only
                  s.db)))
  unfolding list
  list-Answered key end limit revision deleted keys_only s f =
      let key' = d.translate_start_key key in
      elim (Bool-cases (revision == 0)) [
        | inl now ↦
            rw (now, lawful.reads_now key' end limit deleted keys_only s.db)
              (list_found revision keys_only s _ f
                (lawful.now_Stamped key' end limit deleted keys_only s.db))
        | inr then' ↦
            rw (then', lawful.reads_at key' end limit revision deleted keys_only s.db)
              (list_found revision keys_only s _ f
                (lawful.at_Stamped key' end limit revision deleted keys_only s.db))
      ]

  after_events_empty :
      (revision rev compact : ℕ) (err : Option Error) (s : SqlLog D)
      → ltb 0 revision ≡ true
      → after_events d (λ n. n) manual iterate revision s (rev, compact, [], err)
        ≡ after_current d
            (λ n. n)
            manual
            iterate
            revision
            (current_revision d (λ n. n) manual iterate s)
  after_events_empty revision rev compact err s from = rw (ap (λ b. b && true) from) refl

  after_found :
      (revision : ℕ) (s : SqlLog D) (cs : List Columns)
      → Fresh d lawful s
      → All (Stamped (lawful.revision s.db) (lawful.compact s.db)) cs
      → Answered d lawful s
          (after_rows d (λ n. n) manual iterate revision s ((rows_of cs, none), s.db))
          (answer_after revision
            (lawful.revision s.db)
            (lawful.compact s.db)
            (events_of true true cs))
  unfolding rows_loop
  after_found revision s [] f h = elim (Bool-cases (ltb 0 revision)) [
    | inl from ↦
        from_eq d lawful s (record s { current_rev = lawful.revision s.db }) _ _
          (after_events_empty revision 0 0 none s from
            ∙ rw (current_lem d lawful manual iterate s f, lawful.reads_compact s.db)
                (after_checked-answer revision (lawful.revision s.db) (lawful.compact s.db) [] _
                  (ground (arith, from))))
          refl (inr refl)
    | inr all ↦
        from_eq d lawful s s _
          (answer_after revision (lawful.revision s.db) (lawful.compact s.db) [])
          (rw (all, le→leb revision 0 (ground (arith, all))) refl) refl f
  ]
  after_found revision s (c ∷ cs) f h =
      from_eq d lawful s s _ _
        (ap (after_events d (λ n. n) manual iterate revision s)
            (rows_to_events-rows_of true true c cs _ _ h)
          ∙ with_row (events_of true true cs))
        refl f
    where
      with_row :
          (events : List Event)
          → after_events d
              (λ n. n)
              manual
              iterate
              revision
              s
              (lawful.revision s.db, lawful.compact s.db, scanned true true c ∷ events, none)
            ≡ (
              answer_after revision
                  (lawful.revision s.db)
                  (lawful.compact s.db)
                  (scanned true true c ∷ events),
              s,
            )
      with_row events = rw (and_false (ltb 0 revision)) (
          after_checked-answer revision (lawful.revision s.db) (lawful.compact s.db)
            (scanned true true c ∷ events) s (and_false (leb revision 0)))

  pub after-Answered :
      (key end : Bytes) (revision limit : ℕ) (s : SqlLog D)
      → Fresh d lawful s
      → Answered d lawful s (after d (λ n. n) manual iterate key end revision limit s) (
          answer_after revision
            (lawful.revision s.db)
            (lawful.compact s.db)
            (events_of true true (lawful.rows_after key end revision limit s.db)))
  unfolding after
  after-Answered key end revision limit s f =
      rw (lawful.reads_after key end revision limit s.db)
        (after_found revision s _ f (lawful.after_Stamped key end revision limit s.db))
