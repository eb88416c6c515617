-- ===== src/Sqllog/Rows.antt =====
-- pkg/logstructured/sqllog/sql.go: RowsToEvents and scan, which make events of the rows of a query.
use kine.Prelude.{
  ℕ, ◌≡◌, refl, ◌⊎◌, inl, inr, Bool, ◌&&◌, Option, none, some, List, [], ◌∷◌, Bytes, if◌then◌else◌,
  All,
}
use kine.Types.{KeyValue, Event, Error}

-- The columns of a row, in the order of `dests`; the first two can be null.
pub record Columns : Type 0 where
  pub current_rev : Option ℕ
  pub compact_rev : Option ℕ
  pub mod_revision : ℕ
  pub key : Bytes
  pub create : Bool
  pub delete : Bool
  pub create_revision : ℕ
  pub prev_revision : ℕ
  pub lease : ℕ
  pub value : Bytes
  pub old_value : Bytes

-- sql.Rows: each row, or the error of its Scan
abbrev pub Rows : Type 0
Rows = List (Error ⊎ Columns)

-- the field `Int64` of a NullInt64
abbrev pub int64_of : Option ℕ → ℕ
int64_of none = 0
int64_of (some n) = n

-- the KeyValue and the event that `scan` makes; the values are columns only if they were asked for
abbrev pub scanned_kv : Bool → Columns → KeyValue
scanned_kv val c = record {
  key = c.key;
  value = if val then c.value else [];
  version = 0;
  create_revision = if c.create then c.mod_revision else c.create_revision;
  mod_revision = c.mod_revision;
  lease = c.lease;
}

abbrev pub scanned_prev : Bool → Columns → KeyValue
scanned_prev val c = record {
  key = c.key;
  value = if val then c.old_value else [];
  version = 0;
  create_revision = c.create_revision;
  mod_revision = c.prev_revision;
  lease = c.lease;
}

abbrev pub scanned : Bool → Bool → Columns → Event
scanned val prev c = record {
  delete = c.delete;
  create = c.create;
  kv = some (scanned_kv val c);
  prev_kv = if c.create then none else some (scanned_prev (val && prev) c);
}

-- an event put before those of the rest of the rows, unless a row of the rest fails
abbrev pub consed : Event → ℕ × ℕ × List Event × Option Error → ℕ × ℕ × List Event × Option Error
consed e (rev, compact, events, none) = (rev, compact, e ∷ events, none)
consed e (rev, compact, events, some err) = (0, 0, [], some err)

-- the loop of RowsToEvents; the last row's revisions remain
unfoldable pub rows_loop : Bool → Bool → Rows → ℕ → ℕ → ℕ × ℕ × List Event × Option Error
rows_loop val prev [] rev compact = (rev, compact, [], none)
rows_loop val prev (inl e ∷ rows) rev compact = (0, 0, [], some e)
rows_loop val prev (inr c ∷ rows) rev compact =
    consed (scanned val prev c)
      (rows_loop val prev rows (int64_of c.current_rev) (int64_of c.compact_rev))

abbrev pub rows_to_events : Bool → Bool → Rows → ℕ × ℕ × List Event × Option Error
rows_to_events val prev rows = rows_loop val prev rows 0 0

-- rows that all can be read, and carry the same two revisions
abbrev pub rows_of : List Columns → Rows
rows_of [] = []
rows_of (c ∷ cs) = inr c ∷ rows_of cs

abbrev pub Stamped : ℕ → ℕ → Columns → Type 0
Stamped rev compact c = (int64_of c.current_rev ≡ rev) × (int64_of c.compact_rev ≡ compact)

abbrev pub events_of : Bool → Bool → List Columns → List Event
events_of val prev [] = []
events_of val prev (c ∷ cs) = scanned val prev c ∷ events_of val prev cs

rows_loop-rows_of :
    (val prev : Bool) (cs : List Columns) (rev compact : ℕ)
    → All (Stamped rev compact) cs
    → rows_loop val prev (rows_of cs) rev compact ≡ (rev, compact, events_of val prev cs, none)
unfolding rows_loop
rows_loop-rows_of val prev [] rev compact h = refl
rows_loop-rows_of val prev (c ∷ cs) rev compact h =
    rw (h.0.0, h.0.1) (rw (rows_loop-rows_of val prev cs rev compact h.1) refl)

-- With a row, the two revisions are those of the rows.
pub rows_to_events-rows_of :
    (val prev : Bool) (c : Columns) (cs : List Columns) (rev compact : ℕ)
    → All (Stamped rev compact) (c ∷ cs)
    → rows_to_events val prev (rows_of (c ∷ cs)) ≡ (rev, compact, events_of val prev (c ∷ cs), none)
unfolding rows_loop
rows_to_events-rows_of val prev c cs rev compact h =
    rw (h.0.0, h.0.1) (rw (rows_loop-rows_of val prev cs rev compact h.1) refl)
