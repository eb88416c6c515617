-- ===== src/Memory/Writes.antt =====
-- pkg/drivers/memory/memory.go: Create, Update, Delete and Start. Each holds the lock from its first
-- line to its last, so it is one step: a function from the state to the results and the state.
use kine.Prelude.{
  ℕ, Bool, true, false, ◌&&◌, not, Option, none, some, List, Bytes, ◌==◌, if◌then◌else◌,
}
use kine.Types.{KeyValue, Error, key_exists, health_key, health_val}
use kine.Memory.Tree.{OrderedMap}
use kine.Memory.Entry.{
  prev_rev, created_entry, updated_entry, deleted_entry, Entry, to_key_value, live,
}
use kine.Memory.State.{Memory, latest, next_revision, append_entry}

module _ (bt : OrderedMap (List Entry)) where
  unfoldable pub create : Bytes → Bytes → ℕ → Memory bt → (ℕ × Option Error) × Memory bt
  create key value lease m = elim (live (latest bt m key)) [
    | some e ↦ ((m.current_revision, some key_exists), m)
    | none ↦
        let rev = next_revision bt m in
        (
          (rev, none),
          append_entry bt m (created_entry rev key value lease (prev_rev (latest bt m key))),
        )
  ]

  unfoldable pub update :
      Bytes → Bytes → ℕ → ℕ → Memory bt → (ℕ × Option KeyValue × Bool × Option Error) × Memory bt
  unfolding to_key_value
  update key value revision lease m = elim (live (latest bt m key)) [
    | none ↦ ((m.current_revision, none, false, none), m)
    | some e ↦
        if e.revision == revision
        then (let rev = next_revision bt m in
            let e' = updated_entry rev key value lease e in
            ((rev, some (to_key_value e'), true, none), append_entry bt m e'))
        else ((m.current_revision, some (to_key_value e), false, none), m)
  ]

  unfoldable pub delete :
      Bytes → ℕ → Memory bt → (ℕ × Option KeyValue × Bool × Option Error) × Memory bt
  unfolding to_key_value
  delete key revision m = elim (live (latest bt m key)) [
    | none ↦ ((m.current_revision, none, false, none), m)
    | some e ↦
        if not (revision == 0) && not (e.revision == revision)
        then ((m.current_revision, some (to_key_value e), false, none), m)
        else (let rev = next_revision bt m in
            ((rev, some (to_key_value e), true, none), append_entry bt m (deleted_entry rev key e)))
  ]

  -- `Start`, without the goroutine of the ttl package
  unfoldable pub start : Memory bt → Memory bt
  start m =
      let (_, m') = create health_key health_val 0 m in
      let (_, m'') = update health_key health_val 1 0 m' in m''
