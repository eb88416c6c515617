-- ===== src/Sqllog/Log.antt =====
-- pkg/logstructured/sqllog/sql.go: the operations of the log on the database, without the channel that
-- wakes the poll loop. `currentRev` is a cache of the newest revision, 0 while it is not known.
use kine.Prelude.{
  ℕ, Bool, true, false, ◌&&◌, not, Option, none, some, List, [], ◌∷◌, Bytes, ltb, leb, ◌==◌,
  if◌then◌else◌,
}
use kine.Types.{KeyValue, Event, Error, empty_kv, compacted, future_rev}
use kine.Logstructured.Log.{Log}
use kine.Sqllog.Rows.{rows_to_events, Rows}
use kine.Sqllog.Dialect.{Dialect}

pub record SqlLog (D : Type 0) : Type 0 where
  pub current_rev : ℕ
  pub db : D

abbrev pub is_empty : List Event → Bool
is_empty [] = true
is_empty (e ∷ events) = false

-- `e.KV` or `&KeyValue{}`
abbrev pub kv_or_empty : Option KeyValue → KeyValue
kv_or_empty none = empty_kv
kv_or_empty (some kv) = kv

-- `others` is what other goroutines make of `currentRev` between its load and the compare-and-swap;
-- `iterate` is compactIter, and `manual` tells that automatic compaction is off.
module _ {D : Type 0} (d : Dialect D) (others : ℕ → ℕ) (manual : Bool)
    (iterate : ℕ → ℕ → D → (ℕ × ℕ) × D) where
  -- `s.currentRev.CompareAndSwap(old, rev)`
  abbrev pub swapped : ℕ → ℕ → SqlLog D → Bool × SqlLog D
  swapped old rev s =
      let now = others s.current_rev in
      if now == old
      then (true, record s { current_rev = rev })
      else (false, record s { current_rev = now })

  abbrev pub swap_result : ℕ → Bool × SqlLog D → (ℕ × Option Error) × SqlLog D
  swap_result rev (true, s) = ((rev, none), s)
  swap_result rev (false, s) = ((s.current_rev, none), s)

  abbrev pub fetched : SqlLog D → (ℕ × Option Error) × D → (ℕ × Option Error) × SqlLog D
  fetched s ((rev, some e), db) = ((rev, some e), record s { db = db })
  fetched s ((rev, none), db) = swap_result rev (swapped 0 rev (record s { db = db }))

  abbrev pub current_revision : SqlLog D → (ℕ × Option Error) × SqlLog D
  current_revision s =
      if not (s.current_rev == 0)
      then ((s.current_rev, none), s)
      else fetched s (d.current_revision s.db)

  -- a call of the dialect
  abbrev pub called : {A : Type 0} → SqlLog D → A × D → A × SqlLog D
  called s (a, db) = (a, record s { db = db })

  abbrev pub compact_revision : SqlLog D → (ℕ × Option Error) × SqlLog D
  compact_revision s = called s (d.get_compact_revision s.db)

  -- The end of After, from the two revisions on.
  abbrev pub after_checked :
      ℕ → ℕ → ℕ → List Event → Option Error → SqlLog D → (ℕ × List Event × Option Error) × SqlLog D
  after_checked revision rev compact events err s =
      if ltb 0 revision && ltb revision compact
      then ((rev, [], some compacted), s)
      else ((rev, events, err), s)

  -- The revisions are read one after the other; the error of the rows is overwritten.
  abbrev pub after_compact :
      ℕ → ℕ → (ℕ × Option Error) × SqlLog D → (ℕ × List Event × Option Error) × SqlLog D
  after_compact revision rev ((compact, some e), s) = ((0, [], some e), s)
  after_compact revision rev ((compact, none), s) = after_checked revision rev compact [] none s

  abbrev pub after_current :
      ℕ → (ℕ × Option Error) × SqlLog D → (ℕ × List Event × Option Error) × SqlLog D
  after_current revision ((rev, some e), s) = ((0, [], some e), s)
  after_current revision ((rev, none), s) = after_compact revision rev (compact_revision s)

  abbrev pub after_events :
      ℕ → SqlLog D → ℕ × ℕ × List Event × Option Error → (ℕ × List Event × Option Error) × SqlLog D
  after_events revision s (rev, compact, events, err) =
      if ltb 0 revision && is_empty events
      then after_current revision (current_revision s)
      else after_checked revision rev compact events err s

  abbrev pub after_rows :
      ℕ → SqlLog D → (Rows × Option Error) × D → (ℕ × List Event × Option Error) × SqlLog D
  after_rows revision s ((rows, some e), db) = ((0, [], some e), record s { db = db })
  after_rows revision s ((rows, none), db) =
      after_events revision (record s { db = db }) (rows_to_events true true rows)

  unfoldable pub after :
      Bytes → Bytes → ℕ → ℕ → SqlLog D → (ℕ × List Event × Option Error) × SqlLog D
  after key end revision limit s = after_rows revision s (d.after key end revision limit s.db)

  -- The end of List, from the two revisions on.
  abbrev pub list_checked :
      ℕ → ℕ → ℕ → List Event → SqlLog D → (ℕ × List Event × Option Error) × SqlLog D
  list_checked revision rev compact events s =
      if ltb rev revision
      then ((rev, [], some future_rev), s)
      else if ltb 0 revision && ltb revision compact
      then ((rev, [], some compacted), s)
      else ((rev, events, none), s)

  abbrev pub list_compact :
      ℕ → ℕ → (ℕ × Option Error) × SqlLog D → (ℕ × List Event × Option Error) × SqlLog D
  list_compact revision rev ((compact, some e), s) = ((0, [], some e), s)
  list_compact revision rev ((compact, none), s) = list_checked revision rev compact [] s

  abbrev pub list_current_rev :
      ℕ → (ℕ × Option Error) × SqlLog D → (ℕ × List Event × Option Error) × SqlLog D
  list_current_rev revision ((rev, some e), s) = ((0, [], some e), s)
  list_current_rev revision ((rev, none), s) = list_compact revision rev (compact_revision s)

  abbrev pub list_events :
      ℕ → SqlLog D → ℕ × ℕ × List Event × Option Error → (ℕ × List Event × Option Error) × SqlLog D
  list_events revision s (rev, compact, events, some e) = ((0, [], some e), s)
  list_events revision s (rev, compact, [], none) = list_current_rev revision (current_revision s)
  list_events revision s (rev, compact, e ∷ events, none) =
      list_checked revision rev compact (e ∷ events) s

  abbrev pub list_rows :
      ℕ → Bool → SqlLog D → (Rows × Option Error) × D → (ℕ × List Event × Option Error) × SqlLog D
  list_rows revision keys_only s ((rows, some e), db) = ((0, [], some e), record s { db = db })
  list_rows revision keys_only s ((rows, none), db) =
      list_events revision (record s { db = db }) (rows_to_events (not keys_only) false rows)

  unfoldable pub list :
      Bytes → Bytes → ℕ → ℕ → Bool → Bool → SqlLog D → (ℕ × List Event × Option Error) × SqlLog D
  list key end limit revision include_deleted keys_only s =
      let key' = d.translate_start_key key in
      list_rows revision keys_only s (
        if revision == 0
        then d.list_current key' end limit include_deleted keys_only s.db
        else d.list key' end limit revision include_deleted keys_only s.db)

  abbrev pub counted :
      ℕ → SqlLog D → (ℕ × ℕ × ℕ × Option Error) × D → (ℕ × ℕ × Option Error) × SqlLog D
  counted revision s ((rev, compact, rows, some e), db) = ((0, 0, some e), record s { db = db })
  counted revision s ((rev, compact, rows, none), db) =
      if ltb rev revision
      then ((rev, 0, some future_rev), record s { db = db })
      else if ltb revision compact
      then ((rev, 0, some compacted), record s { db = db })
      else ((rev, rows, none), record s { db = db })

  unfoldable pub count : Bytes → Bytes → ℕ → SqlLog D → (ℕ × ℕ × Option Error) × SqlLog D
  count key end revision s =
      let key' = d.translate_start_key key in
      if revision == 0
      then called s (d.count_current key' end s.db)
      else counted revision s (d.count key' end revision s.db)

  -- `current` is the load of `currentRev` before the insert
  abbrev pub inserted : ℕ → SqlLog D → (ℕ × Option Error) × D → (ℕ × Option Error) × SqlLog D
  inserted current s ((rev, some e), db) = ((0, some e), record s { db = db })
  inserted current s ((rev, none), db) =
      ((rev, none), (swapped current rev (record s { db = db })).1)

  unfoldable pub append : Event → SqlLog D → (ℕ × Option Error) × SqlLog D
  append e s =
      let kv = kv_or_empty e.kv in
      let prev = kv_or_empty e.prev_kv in
      inserted s.current_rev s (
        d.insert kv.key e.create e.delete kv.create_revision prev.mod_revision kv.lease kv.value
          s.db)

  unfoldable pub db_size : SqlLog D → (ℕ × Option Error) × SqlLog D
  db_size s = called s (d.get_size s.db)

  -- The errors of the two reads are not looked at.
  abbrev pub compact_from : ℕ → ℕ → (ℕ × Option Error) × SqlLog D → (ℕ × Option Error) × SqlLog D
  compact_from target current ((compact_rev, err), s) =
      if leb target compact_rev
      then ((0, some compacted), s)
      else if manual
      then current_revision (called s (iterate compact_rev target s.db)).1
      else ((current, none), s)

  abbrev pub compact_to : ℕ → (ℕ × Option Error) × SqlLog D → (ℕ × Option Error) × SqlLog D
  compact_to target ((current, err), s) =
      if ltb current target
      then ((0, some future_rev), s)
      else compact_from target current (compact_revision s)

  unfoldable pub compact : ℕ → SqlLog D → (ℕ × Option Error) × SqlLog D
  compact target s = compact_to target (current_revision s)

  -- the log that pkg/logstructured is given
  abbrev pub sql_log : Log (SqlLog D)
  sql_log = record {
    compact_revision = compact_revision;
    current_revision = current_revision;
    list = list;
    count = count;
    after = after;
    append = append;
    db_size = db_size;
    compact = compact;
  }
