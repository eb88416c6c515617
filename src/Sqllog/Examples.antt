-- ===== src/Sqllog/Examples.antt =====
-- The theorems about the poll loop of pkg/logstructured/sqllog/sql.go at concrete rows.
use kine.Prelude.{
  All, if_cases, ltb→lt, ltb, lt→ltb, length, if◌then◌else◌, ◌≤◌, ◌<◌, ◌-◌, arith, ℕ, ◌≡◌, refl,
  Bool, true, false, none, some, List, [], ◌∷◌, Bytes, codes, str_eq,
}
use kine.Types.{Event, empty_kv}
use kine.Sqllog.Poll.{Poll, retry, fill, poll_loop, poll_round}
use kine.Sqllog.Consecutive.{spec_loop, poll_loop-eq-spec_loop}
use kine.Sqllog.Compaction.{Transaction, compact}
use kine.Sqllog.Relief.{relieve_quota}
use kine.Sqllog.ReliefLoop.{LawfulTransaction, Tidy}
use kine.Sqllog.Relieved.{Relieved, relieve_quota-Relieved}
use kine.Sqllog.Gaps.{poll_round-fill}

abbrev row : Bytes → ℕ → Event
row key revision = record {
  delete = false;
  create = true;
  kv = some (record empty_kv { key = key; mod_revision = revision });
  prev_kv = none;
}

abbrev is_fill : Bytes → Bool
is_fill key = str_eq key (codes "gap-6")

-- Revision 8 is not there yet.
abbrev rows : List Event
rows = row (codes "/a") 5 ∷ row (codes "gap-6") 6 ∷ row (codes "/b") 7 ∷ row (codes "/a") 9 ∷ []

abbrev poll : Poll
poll = record { poll_revision = 4; skip = 0 }

poll_loop-eq-spec_loop_example :
    poll_loop is_fill 0 false rows 4 false ≡ spec_loop is_fill 0 rows 4 false
poll_loop-eq-spec_loop_example = poll_loop-eq-spec_loop is_fill 0 rows 4 false

poll_round-fill_example :
    ((poll_round is_fill false rows poll).0.1 ≡ retry 8)
    × (poll_round is_fill false (row (codes "/a") 9 ∷ []) (poll_round is_fill false rows poll).1
        ≡ ((none, fill 8), record { poll_revision = 7; skip = 8 }))
poll_round-fill_example = poll_round-fill is_fill rows poll (row (codes "/a") 9) [] refl refl

-- A database of the ids of its rows, the newest first, and its compact revision. A compaction deletes all
-- rows up to its revision.
abbrev Tables : Type 0
Tables = List ℕ × ℕ

abbrev newest_id : List ℕ → ℕ
newest_id [] = 0
newest_id (id ∷ ids) = id

abbrev above : ℕ → List ℕ → List ℕ
above r [] = []
above r (id ∷ ids) = let rest = above r ids in if ltb r id then id ∷ rest else rest

abbrev database : Transaction Tables
database = record {
  begin_tx = λ s. (none, s);
  current_revision = λ s. ((newest_id s.0, none), s);
  get_compact_revision = λ s. ((s.1, none), s);
  compact = λ rev s. ((length s.0 - length (above rev s.0), none), (above rev s.0, s.1));
  set_compact_revision = λ rev s. (none, (s.0, rev));
  commit = λ s. (none, s);
}

abbrev tables : Tables
tables = (45 ∷ 44 ∷ 12 ∷ 7 ∷ [], 5)

abbrev HasNewest : Tables → Type 0
HasNewest s = newest_id s.0 ≡ 45

above-newest : (r : ℕ) (ids : List ℕ) → r < newest_id ids → newest_id (above r ids) ≡ newest_id ids
above-newest r [] h = refl
above-newest r (id ∷ ids) h = rw (lt→ltb r id h) refl

-- what is recorded by a compaction that succeeds
abbrev Recorded : ℕ → Tables → Type 0
Recorded r s = s.1 ≤ r

above-All : (r : ℕ) (ids : List ℕ) → All (λ id. r < id) (above r ids)
above-All r [] = tt
above-All r (id ∷ ids) =
    if_cases (All (λ n. r < n)) (ltb r id) _ (above r ids)
      (λ more. (ltb→lt r id more, above-All r ids)) (λ _. above-All r ids)

abbrev lawful_database : LawfulTransaction database
lawful_database = record {
  revision = λ s. newest_id s.0;
  compact_rev = λ s. s.1;
  deleted = λ r s. length s.0 - length (above r s.0);
  after_compact = λ r s. (above r s.0, s.1);
  after_set = λ r s. (s.0, r);
  begins = λ s. refl;
  reads_current = λ s. refl;
  reads_compact = λ s. refl;
  compacts = λ r s. refl;
  sets = λ r s. refl;
  commits = λ s. refl;
  compact_keeps = λ r s below. above-newest r s.0 below;
  set_keeps = λ r s. refl;
  is_clean = λ r s. All (λ id. r < id) s.0;
  compact_cleans = λ r s. above-All r s.0;
  set_keeps_clean = λ r n s h. h;
  set_records = λ r s. refl;
}

relieve_quota-Relieved_example :
    Relieved database 10 lawful_database none
      (λ s. (none, s))
      (λ s. s)
      (λ s. refl)
      (λ s. refl)
      (λ n s h. h)
      40
      tables
      (relieve_quota database 10 none (λ s. (none, s)) (λ s. s) 40 50 false tables)
    × Tidy database 10 lawful_database 5
        (relieve_quota database 10 none (λ s. (none, s)) (λ s. s) 40 50 false tables).1
relieve_quota-Relieved_example =
    relieve_quota-Relieved database 10 lawful_database none (λ s. (none, s)) (λ s. s) (λ s. refl)
      (λ s. refl) (λ n s h. h) 40 50 tables (omega arith) (omega arith)
