-- ===== src/Sqllog/LogExamples.antt =====
-- The theorem about the operations of pkg/logstructured/sqllog/sql.go at a concrete database, and
-- errors that they do not report.
use kine.Prelude.{
  ℕ, ◌+◌, ◌≡◌, refl, inl, inr, ◌⊎◌, true, false, Option, none, some, List, [], ◌∷◌, codes, leb,
  ◌==◌, if◌then◌else◌, if_cases, Bool-cases, All,
}
use kine.Types.{Error, key_exists, future_rev, canceled}
use kine.Logstructured.Store.{create_event}
use kine.Sqllog.Rows.{Columns, rows_of, Stamped, events_of, rows_loop}
use kine.Sqllog.Dialect.{Dialect}
use kine.Sqllog.Log.{SqlLog, sql_log, after, compact}
use kine.Sqllog.Answers.{LawfulDialect, Answered, Appended, answer, answer_after}
use kine.Sqllog.Refinement.{sql_log-Answered}

-- A database of one key, whose newest row is its revision.
abbrev row : ℕ → Columns
row s = record {
  current_rev = some s;
  compact_rev = none;
  mod_revision = s;
  key = codes "/a";
  create = false;
  delete = false;
  create_revision = 1;
  prev_revision = 1;
  lease = 0;
  value = codes "2";
  old_value = codes "1";
}

abbrev rows_from : ℕ → ℕ → List Columns
rows_from rev s = if leb s rev then [] else row s ∷ []

abbrev one_key : Dialect ℕ
one_key = record {
  list_current = λ key end limit deleted keys_only s. ((rows_of (row s ∷ []), none), s);
  list = λ key end limit rev deleted keys_only s. ((rows_of (row s ∷ []), none), s);
  count_current = λ key end s. ((s, 1, none), s);
  count = λ key end rev s. ((s, 0, 1, none), s);
  current_revision = λ s. ((s, none), s);
  after = λ key end rev limit s. ((rows_of (rows_from rev s), none), s);
  insert = λ key create delete created prev lease value s.
      if prev == s then ((s + 1, none), s + 1) else ((0, some key_exists), s);
  get_compact_revision = λ s. ((0, none), s);
  get_size = λ s. ((0, none), s);
  translate_start_key = λ key. key;
}

insert_cases :
    (prev s : ℕ)
    → ((err : Error) × (◌≡◌ {A = (ℕ × Option Error) × ℕ}
          (if prev == s then ((s + 1, none), s + 1) else ((0, some key_exists), s))
          ((0, some err), s)))
      ⊎ ((s' : ℕ) × (◌≡◌ {A = (ℕ × Option Error) × ℕ}
            (if prev == s then ((s + 1, none), s + 1) else ((0, some key_exists), s))
            ((s', none), s')))
insert_cases prev s = elim (Bool-cases (prev == s)) [
  | inl fits ↦ inr (s + 1, rw fits refl)
  | inr stale ↦ inl (key_exists, rw stale refl)
]

abbrev lawful_one_key : LawfulDialect one_key
lawful_one_key = record {
  revision = λ s. s;
  compact = λ s. 0;
  rows_now = λ key end limit deleted keys_only s. row s ∷ [];
  rows_at = λ key end limit rev deleted keys_only s. row s ∷ [];
  rows_after = λ key end rev limit s. rows_from rev s;
  number_at = λ key end rev s. 1;
  now_Stamped = λ key end limit deleted keys_only s. ((refl, refl), tt);
  at_Stamped = λ key end limit rev deleted keys_only s. ((refl, refl), tt);
  after_Stamped = λ key end rev limit s.
      if_cases (All (Stamped s 0)) (leb s rev) [] (row s ∷ []) (λ _. tt) (λ _. ((refl, refl), tt));
  reads_now = λ key end limit deleted keys_only s. refl;
  reads_at = λ key end limit rev deleted keys_only s. refl;
  reads_after = λ key end rev limit s. refl;
  counts_now = λ key end s. refl;
  counts_at = λ key end rev s. refl;
  reads_revision = λ s. refl;
  reads_compact = λ s. refl;
  inserts = λ key create delete created prev lease value s. insert_cases prev s;
}

-- compactIter that does nothing
abbrev idle : ℕ → ℕ → ℕ → (ℕ × ℕ) × ℕ
idle compact_rev target s = ((compact_rev, target), s)

abbrev at_seven : SqlLog ℕ
at_seven = record { current_rev = 0; db = 7 }

sql_log-Answered_example :
    Answered one_key lawful_one_key at_seven
      ((sql_log one_key (λ n. n) true idle).list (codes "/a") [] 1 7 false false at_seven)
      (answer 7 7 0 [] (events_of true false (row 7 ∷ [])))
    × Answered one_key lawful_one_key at_seven
        ((sql_log one_key (λ n. n) true idle).after (codes "/a") [] 7 1 at_seven)
        (answer_after 7 7 0 [])
    × Answered one_key lawful_one_key at_seven
        ((sql_log one_key (λ n. n) true idle).count (codes "/a") [] 7 at_seven)
        (answer 7 7 0 0 1)
    × Appended one_key lawful_one_key at_seven (
        (sql_log one_key (λ n. n) true idle).append
          (create_event (codes "/a") (codes "3") 0 7)
          at_seven)
sql_log-Answered_example =
    sql_log-Answered one_key lawful_one_key true idle (codes "/a") [] 1 7 false false
      (create_event (codes "/a") (codes "3") 0 7) at_seven (inl refl)

-- a database that cannot read the rows of After
abbrev unreadable : Dialect ℕ
unreadable = record one_key { after = λ key end rev limit s. ((inl canceled ∷ [], none), s) }

-- After from a revision on then returns no event and no error.
after-unreadable : (after unreadable (λ n. n) true idle [] [] 3 0 at_seven).0 ≡ (7, [], none)
unfolding after rows_loop
after-unreadable = refl

-- a database whose current revision cannot be read
abbrev silent : Dialect ℕ
silent = record one_key { current_revision = λ s. ((0, some canceled), s) }

-- Compact then calls the target a future revision.
compact-silent : (compact silent (λ n. n) true idle 3 at_seven).0 ≡ (0, some future_rev)
unfolding compact
compact-silent = refl
