-- ===== src/Logstructured/Examples.antt =====
-- The theorems about the writes of pkg/logstructured over the log of pkg/logstructured/sqllog, with a
-- table that is a list of rows, and about its watches.
use kine.Prelude.{
  ℕ, ◌+◌, ◌≡◌, refl, ◌⊎◌, inl, inr, Bool, true, false, not, ◌&&◌, Option, none, some, List, [], ◌∷◌,
  Bytes, codes, ◌==◌, if◌then◌else◌, if_cases, Bool-cases, str_eq, length, arith, All,
}
use kine.Types.{Event, Error, key_exists, empty_kv}
use kine.Logstructured.Store.{create, update, delete}
use kine.Logstructured.Races.{spec_update, update-eq-spec_update}
use kine.Logstructured.RacesOfKeys.{
  spec_create, spec_delete, create-eq-spec_create, delete-eq-spec_delete,
}
use kine.Logstructured.Watch.{Watching, watching, Rising, concat, sent, sent-Rising}
use kine.Sqllog.Rows.{Columns, Stamped, rows_of}
use kine.Sqllog.Dialect.{Dialect}
use kine.Sqllog.Answers.{LawfulDialect}
use kine.Sqllog.Lawful.{KeyedDialect, shown, sql_log-LawfulLog}
use kine.Sqllog.Log.{SqlLog, sql_log}
use kine.Logstructured.Log.{Log}
use kine.Logstructured.Lawful.{LawfulLog}

-- the newest row first
abbrev Table : Type 0
Table = List Columns

abbrev newest_id : Table → ℕ
newest_id [] = 0
newest_id (c ∷ rows) = c.mod_revision

abbrev newest_row : Bytes → Table → Option Columns
newest_row key [] = none
newest_row key (c ∷ rows) =
    let rest = newest_row key rows in if str_eq c.key key then some c else rest

abbrev with_revisions : Table → Option Columns → Option Columns
with_revisions s none = none
with_revisions s (some c) = some (record c { current_rev = some (newest_id s); compact_rev = none })

abbrev has_next : Table → Bytes → ℕ → Bool
has_next [] key prev = false
has_next (c ∷ rows) key prev =
    let rest = has_next rows key prev in
    if str_eq c.key key && (c.prev_revision == prev) then true else rest

abbrev current_row : Bytes → Bool → Table → List Columns
current_row key deleted s = shown deleted (with_revisions s (newest_row key s))

abbrev new_row : Bytes → Bool → Bool → ℕ → ℕ → ℕ → Bytes → Table → Columns
new_row key made gone created prev lease value s = record {
  current_rev = none;
  compact_rev = none;
  mod_revision = newest_id s + 1;
  key = key;
  create = made;
  delete = gone;
  create_revision = created;
  prev_revision = prev;
  lease = lease;
  value = value;
  old_value = [];
}

abbrev insert_row : Bytes → Bool → Bool → ℕ → ℕ → ℕ → Bytes → Table → (ℕ × Option Error) × Table
insert_row key made gone created prev lease value s =
    if has_next s key prev
    then ((0, some key_exists), s)
    else ((newest_id s + 1, none), new_row key made gone created prev lease value s ∷ s)

abbrev table : Dialect Table
table = record {
  list_current =
      λ key end limit deleted keys_only s. ((rows_of (current_row key deleted s), none), s);
  list = λ key end limit rev deleted keys_only s. ((rows_of (current_row key deleted s), none), s);
  count_current = λ key end s. ((newest_id s, length s, none), s);
  count = λ key end rev s. ((newest_id s, 0, length s, none), s);
  current_revision = λ s. ((newest_id s, none), s);
  after = λ key end rev limit s. ((rows_of [], none), s);
  insert = insert_row;
  get_compact_revision = λ s. ((0, none), s);
  get_size = λ s. ((length s, none), s);
  translate_start_key = λ key. key;
}

shown-Stamped :
    (s : Table) (deleted : Bool) (o : Option Columns)
    → All (Stamped (newest_id s) 0) (shown deleted (with_revisions s o))
shown-Stamped s deleted none = tt
shown-Stamped s deleted (some c) =
    if_cases (All (Stamped (newest_id s) 0)) (c.delete && not deleted) [] _ (λ _. tt)
      (λ _. ((refl, refl), tt))

insert_cases :
    (key : Bytes) (made gone : Bool) (created prev lease : ℕ) (value : Bytes) (s : Table)
    → ((err : Error) × (insert_row key made gone created prev lease value s ≡ ((0, some err), s)))
      ⊎ ((s' : Table) × (insert_row key made gone created prev lease value s
            ≡ ((newest_id s', none), s')))
insert_cases key made gone created prev lease value s = elim (Bool-cases (has_next s key prev)) [
  | inl there ↦ inl (key_exists, rw there refl)
  | inr free ↦ inr (new_row key made gone created prev lease value s ∷ s, rw free refl)
]

abbrev lawful_table : LawfulDialect table
lawful_table = record {
  revision = newest_id;
  compact = λ s. 0;
  rows_now = λ key end limit deleted keys_only s. current_row key deleted s;
  rows_at = λ key end limit rev deleted keys_only s. current_row key deleted s;
  rows_after = λ key end rev limit s. [];
  number_at = λ key end rev s. length s;
  now_Stamped = λ key end limit deleted keys_only s. shown-Stamped s deleted (newest_row key s);
  at_Stamped = λ key end limit rev deleted keys_only s. shown-Stamped s deleted (newest_row key s);
  after_Stamped = λ key end rev limit s. tt;
  reads_now = λ key end limit deleted keys_only s. refl;
  reads_at = λ key end limit rev deleted keys_only s. refl;
  reads_after = λ key end rev limit s. refl;
  counts_now = λ key end s. refl;
  counts_at = λ key end rev s. refl;
  reads_revision = λ s. refl;
  reads_compact = λ s. refl;
  inserts = insert_cases;
}

abbrev keyed_table : KeyedDialect table lawful_table
keyed_table = record {
  newest = λ s key. with_revisions s (newest_row key s);
  is_followed = has_next;
  unique = key_exists;
  next = λ s. newest_id s + 1;
  lists_newest = λ key deleted keys_only s. refl;
  insert_followed = λ key made gone created prev lease value s there. rw there refl;
  insert_next = λ key made gone created prev lease value s free. rw free refl;
  next_above = λ s. omega arith;
}

abbrev no_compaction : ℕ → ℕ → Table → (ℕ × ℕ) × Table
no_compaction c r s = ((c, r), s)

abbrev log : Log (SqlLog Table)
log = sql_log table (λ n. n) false no_compaction

abbrev log_law : LawfulLog log
log_law = sql_log-LawfulLog table lawful_table keyed_table false no_compaction

-- Another client writes `/b` in between, and the poller sees it.
abbrev other_write : SqlLog Table → SqlLog Table
other_write s =
    let db = (insert_row (codes "/b") true false 0 0 0 (codes "2") s.db).1 in
    record { current_rev = newest_id db; db = db }

-- `/a` at revision 1
abbrev start : SqlLog Table
start = record { current_rev = 1; db = (insert_row (codes "/a") true false 0 0 0 (codes "1") []).1 }

update-eq-spec_update_example :
    update log other_write (codes "/a") (codes "3") 1 0 start
    ≡ spec_update log log_law other_write (λ s c. refl) (codes "/a") (codes "3") 1 0 start
update-eq-spec_update_example =
    update-eq-spec_update log log_law other_write (λ s c. refl) (codes "/a") (codes "3") 1 0 start
      refl

create-eq-spec_create_example :
    create log other_write (codes "/b") (codes "3") 0 start
    ≡ spec_create log log_law other_write (λ s c. refl) (codes "/b") (codes "3") 0 start
create-eq-spec_create_example =
    create-eq-spec_create log log_law other_write (λ s c. refl) (codes "/b") (codes "3") 0 start
      refl

delete-eq-spec_delete_example :
    delete log other_write (codes "/a") 1 start
    ≡ spec_delete log log_law other_write (λ s c. refl) (codes "/a") 1 start
delete-eq-spec_delete_example =
    delete-eq-spec_delete log log_law other_write (λ s c. refl) (codes "/a") 1 start refl

abbrev event_at : ℕ → Event
event_at revision = record {
  delete = false;
  create = true;
  kv = some (record empty_kv { key = codes "/a"; mod_revision = revision });
  prev_kv = none;
}

-- The channel brings the events 4 and 5 again, which were read first.
abbrev resumed : Watching
resumed = watching 3 5 (event_at 4 ∷ event_at 5 ∷ []) 0 0 none

sent-Rising_example :
    Rising 0 (concat (sent resumed ((event_at 4 ∷ event_at 5 ∷ []) ∷ (event_at 6 ∷ []) ∷ [])))
sent-Rising_example =
    sent-Rising resumed ((event_at 4 ∷ event_at 5 ∷ []) ∷ (event_at 6 ∷ []) ∷ []) (omega arith)
      (omega arith) (omega arith)
