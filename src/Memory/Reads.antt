-- ===== src/Memory/Reads.antt =====
-- pkg/drivers/memory/memory.go: List, Get and Count.
use kine.Prelude.{
  ℕ, Bool, true, ◌&&◌, Option, none, some, List, [], ◌∷◌, ◌++◌, Bytes, ltb, leb, if◌then◌else◌,
  length,
}
use kine.Types.{KeyValue, Error, compacted, future_rev}
use kine.Memory.Tree.{OrderedMap}
use kine.Memory.Entry.{listed_kv, past_end, first_kv, Entry, live}
use kine.Memory.State.{Memory, latest, at_revision}

module _ (bt : OrderedMap (List Entry)) where
  -- the entry of key `k` that a read at `revision` looks at
  unfoldable pub read : Memory bt → Bytes → ℕ → Option Entry
  read m k revision = if ltb 0 revision then at_revision bt m k revision else latest bt m k

  unfoldable pub list_loop :
      Memory bt
      → Bytes
      → Bytes
      → ℕ
      → ℕ
      → Bool
      → List (Bytes × List Entry)
      → List KeyValue
      → List KeyValue
  list_loop m key end limit revision keys_only [] kvs = kvs
  list_loop m key end limit revision keys_only ((k, _) ∷ items) kvs =
      let kvs' : List KeyValue = elim (live (read m k revision)) [
        | none ↦ kvs
        | some e ↦ kvs ++ listed_kv keys_only e ∷ []
      ] in
      let rest = list_loop m key end limit revision keys_only items kvs' in
      if past_end key end k
      then kvs
      else if ltb 0 limit && leb limit (length kvs')
      then kvs'
      else rest

  unfoldable pub list : Bytes → Bytes → ℕ → ℕ → Bool → Memory bt → ℕ × List KeyValue × Option Error
  list key end limit revision keys_only m =
      let rev = m.current_revision in
      let kvs = list_loop m key end limit revision keys_only (bt.seek m.keys key) [] in
      if ltb 0 revision
      then (if ltb rev revision
          then (rev, [], some future_rev)
          else if ltb revision m.compact_revision
          then (rev, [], some compacted)
          else (revision, kvs, none))
      else (rev, kvs, none)

  unfoldable pub get : Bytes → ℕ → Bool → Memory bt → ℕ × Option KeyValue × Option Error
  get key revision keys_only m =
      let (rev, kvs, err) = list key [] 1 revision keys_only m in
      elim err [ some e ↦ (rev, none, some e) | none ↦ (rev, first_kv kvs, none) ]

  unfoldable pub count : Bytes → Bytes → ℕ → Memory bt → ℕ × ℕ × Option Error
  count key end revision m =
      let (rev, kvs, err) = list key end 0 revision true m in
      elim err [ some e ↦ (rev, 0, some e) | none ↦ (rev, length kvs, none) ]
