-- ===== src/Memory/Compaction.antt =====
-- pkg/drivers/memory/memory.go: Compact.
use kine.Prelude.{
  ℕ, ◌-◌, not, Option, none, some, List, [], ◌∷◌, ◌++◌, Bytes, ltb, leb, ◌==◌, if◌then◌else◌,
  length, drop,
}
use kine.Types.{Error, compacted, future_rev}
use kine.Memory.Tree.{OrderedMap}
use kine.Memory.Entry.{Entry, new_hist, clear_first, clear_log}
use kine.Memory.State.{Memory}

module _ (bt : OrderedMap (List Entry)) where
  -- the state that the closure of `Scan` writes
  pub record Scan : Type 0 where
    pub keys : bt.Map
    pub log : List Entry
    pub to_remove : List Bytes

  unfoldable pub scan_item : ℕ → Bytes → List Entry → Scan → Scan
  unfolding clear_first clear_log
  scan_item revision key hist s =
      let hist' = new_hist revision hist in
      if length hist' == 0
      then record s { to_remove = s.to_remove ++ key ∷ [] }
      else if not (length hist' == length hist)
      then record s { keys = bt.set s.keys key (clear_first hist'); log = clear_log hist' s.log }
      else s

  unfoldable pub scan_loop : ℕ → List (Bytes × List Entry) → Scan → Scan
  scan_loop revision [] s = s
  scan_loop revision ((key, hist) ∷ items) s =
      scan_loop revision items (scan_item revision key hist s)

  unfoldable pub delete_keys : List Bytes → bt.Map → bt.Map
  delete_keys [] keys = keys
  delete_keys (k ∷ to_remove) keys = delete_keys to_remove (bt.delete keys k)

  unfoldable pub compact : ℕ → Memory bt → (ℕ × Option Error) × Memory bt
  compact revision m =
      if ltb m.current_revision revision
      then ((0, some future_rev), m)
      else if leb revision m.compact_revision
      then ((0, some compacted), m)
      else (let s =
            scan_loop revision (bt.scan m.keys)
              (record { keys = m.keys; log = m.log; to_remove = [] }) in
          let cut = revision - m.compact_revision - 1 in
          (
            (m.current_revision, none),
            record m {
              keys = delete_keys s.to_remove s.keys;
              log = if ltb 0 cut then drop cut s.log else s.log;
              compact_revision = revision;
            },
          ))
