-- ===== src/Sqllog/Lawful.antt =====
-- pkg/logstructured/sqllog/sql.go: the log of SQLLog as one that pkg/logstructured relies on.
use kine.Prelude.{
  ltb, All, arith, ℕ, ◌<◌, ◌≡◌, refl, sym, ap, ◌∙◌, inr, Bool, true, false, not, ◌&&◌, Option, none,
  some, List, [], ◌∷◌, Bytes, if◌then◌else◌, Bool-cases, inl,
}
use kine.Types.{KeyValue, Event, Error}
use kine.Logstructured.Lawful.{Row, found, LawfulLog}
use kine.Sqllog.Rows.{
  rows_of, rows_loop, rows_to_events-rows_of, Stamped, Columns, scanned_kv, scanned_prev, events_of,
}
use kine.Sqllog.Dialect.{Dialect}
use kine.Sqllog.Log.{SqlLog, sql_log, list, append, inserted, list_checked, list_rows, list_events}
use kine.Sqllog.Answers.{LawfulDialect, current_lem}

-- the newest row of a key, unless it is a tombstone that is not asked for
abbrev pub shown : Bool → Option Columns → List Columns
shown deleted none = []
shown deleted (some c) = if c.delete && not deleted then [] else c ∷ []

-- What is relied on in the statements by key: a list of the current rows of one key has its newest row,
-- and an insert fails if the key has a row with the same previous revision (the unique index of name and
-- prev_revision), and else returns an id above the newest one.
pub record KeyedDialect {D : Type 0} (d : Dialect D) (lawful : LawfulDialect d) : Type 0 where
  pub newest : D → Bytes → Option Columns
  pub is_followed : D → Bytes → ℕ → Bool
  pub unique : Error
  pub next : D → ℕ
  pub lists_newest :
      (key : Bytes) (deleted keys_only : Bool) (s : D)
      → lawful.rows_now (d.translate_start_key key) [] 1 deleted keys_only s
        ≡ shown deleted (newest s key)
  pub insert_followed :
      (key : Bytes) (create delete : Bool) (created prev lease : ℕ) (value : Bytes) (s : D)
      → is_followed s key prev ≡ true
      → d.insert key create delete created prev lease value s ≡ ((0, some unique), s)
  pub insert_next :
      (key : Bytes) (create delete : Bool) (created prev lease : ℕ) (value : Bytes) (s : D)
      → is_followed s key prev ≡ false
      → (d.insert key create delete created prev lease value s).0 ≡ (next s, none)
  pub next_above : (s : D) → lawful.revision s < next s

-- the row as pkg/logstructured sees it
abbrev pub row_of_columns : Columns → Row
row_of_columns c = record {
  create = c.create;
  delete = c.delete;
  kv = scanned_kv true c;
  prev = if c.create then none else some (scanned_prev false c);
}

abbrev pub row_of_newest : Option Columns → Option Row
row_of_newest none = none
row_of_newest (some c) = some (row_of_columns c)

events_of-shown :
    (deleted keys_only : Bool) (o : Option Columns)
    → events_of (not keys_only) false (shown deleted o) ≡ found deleted keys_only (row_of_newest o)
events_of-shown deleted keys_only none = refl
events_of-shown deleted keys_only (some c) = elim (Bool-cases (c.delete && not deleted)) [
  | inl gone ↦ rw gone refl
  | inr there ↦ rw there (elim (Bool-cases keys_only) [ inl k ↦ rw k refl | inr k ↦ rw k refl ])
]

module _ {D : Type 0} (d : Dialect D) (lawful : LawfulDialect d) (keyed : KeyedDialect d lawful)
    (manual : Bool) (iterate : ℕ → ℕ → D → (ℕ × ℕ) × D) where
  -- the cache has the newest revision
  abbrev pub IsCurrent : SqlLog D → Type 0
  IsCurrent s = s.current_rev ≡ lawful.revision s.db

  pub current-same :
      (s : SqlLog D)
      → IsCurrent s
      → (sql_log d (λ n. n) manual iterate).current_revision s ≡ ((lawful.revision s.db, none), s)
  current-same s c =
      current_lem d lawful manual iterate s (inr c)
      ∙ ap (λ n. ((lawful.revision s.db, none), record s { current_rev = n })) (sym c)

  list_checked-zero :
      (rev compact : ℕ) (events : List Event) (s : SqlLog D)
      → list_checked d (λ n. n) manual iterate 0 rev compact events s ≡ ((rev, events, none), s)
  list_checked-zero rev compact events s = let low : ltb rev 0 ≡ false = ground arith in rw low refl

  list_rows-newest :
      (keys_only : Bool) (s : SqlLog D) (cs : List Columns)
      → IsCurrent s
      → All (Stamped (lawful.revision s.db) (lawful.compact s.db)) cs
      → list_rows d (λ n. n) manual iterate 0 keys_only s ((rows_of cs, none), s.db)
        ≡ ((lawful.revision s.db, events_of (not keys_only) false cs, none), s)
  unfolding rows_loop
  list_rows-newest keys_only s [] c h =
      rw (current-same s c, lawful.reads_compact s.db)
        (list_checked-zero (lawful.revision s.db) (lawful.compact s.db) [] s)
  list_rows-newest keys_only s (x ∷ cs) c h =
      ap (list_events d (λ n. n) manual iterate 0 s)
        (rows_to_events-rows_of (not keys_only) false x cs _ _ h)
      ∙ list_checked-zero (lawful.revision s.db) (lawful.compact s.db) _ s

  pub list-newest :
      (s : SqlLog D) (key : Bytes) (deleted keys_only : Bool)
      → IsCurrent s
      → list d (λ n. n) manual iterate key [] 1 0 deleted keys_only s ≡ (
        (
          lawful.revision s.db,
          found deleted keys_only (row_of_newest (keyed.newest s.db key)),
          none,
        ),
        s,
      )
  unfolding list
  list-newest s key deleted keys_only c =
      let key' = d.translate_start_key key in
      ap (list_rows d (λ n. n) manual iterate 0 keys_only s)
        (lawful.reads_now key' [] 1 deleted keys_only s.db)
      ∙ list_rows-newest keys_only s _ c (lawful.now_Stamped key' [] 1 deleted keys_only s.db)
      ∙ ap (λ cs. ((lawful.revision s.db, events_of (not keys_only) false cs, none), s))
          (keyed.lists_newest key deleted keys_only s.db)
      ∙ ap (λ es. ((lawful.revision s.db, es, none), s))
          (events_of-shown deleted keys_only (keyed.newest s.db key))

  pub append_followed :
      (s : SqlLog D) (e : Event) (kv prev : KeyValue)
      → e.kv ≡ some kv
      → e.prev_kv ≡ some prev
      → keyed.is_followed s.db kv.key prev.mod_revision ≡ true
      → append d (λ n. n) manual iterate e s ≡ ((0, some keyed.unique), s)
  unfolding append
  append_followed s e kv prev k p there =
      rw
        (
          k,
          p,
          keyed.insert_followed kv.key e.create e.delete kv.create_revision prev.mod_revision
              kv.lease kv.value s.db there,
        )
        refl

  inserted-result :
      (s : SqlLog D) (r : (ℕ × Option Error) × D)
      → r.0 ≡ (keyed.next s.db, none)
      → (inserted d (λ n. n) manual iterate s.current_rev s r).0 ≡ (keyed.next s.db, none)
  inserted-result s ((rev, none), db) q = q
  inserted-result s ((rev, some e), db) q = cc q

  pub append_next :
      (s : SqlLog D) (e : Event) (kv prev : KeyValue)
      → e.kv ≡ some kv
      → e.prev_kv ≡ some prev
      → keyed.is_followed s.db kv.key prev.mod_revision ≡ false
      → (append d (λ n. n) manual iterate e s).0 ≡ (keyed.next s.db, none)
  unfolding append
  append_next s e kv prev k p free =
      rw (k, p)
        (inserted-result s _ (
          keyed.insert_next kv.key e.create e.delete kv.create_revision prev.mod_revision kv.lease
            kv.value s.db free))

  -- The log over such a database, while its cache has the newest revision.
  abbrev pub sql_log-LawfulLog : LawfulLog (sql_log d (λ n. n) manual iterate)
  sql_log-LawfulLog = record {
    is_current = IsCurrent;
    revision = λ s. lawful.revision s.db;
    newest = λ s key. row_of_newest (keyed.newest s.db key);
    is_followed = λ s key prev. keyed.is_followed s.db key prev;
    unique = keyed.unique;
    next = λ s. keyed.next s.db;
    current_revision-revision = current-same;
    list-newest = list-newest;
    append_followed = append_followed;
    append_next = append_next;
    next_above = λ s. keyed.next_above s.db;
  }
