-- ===== src/Memory/State.antt =====
-- pkg/drivers/memory/memory.go: the state, and the helpers whose callers hold the lock.
use kine.Prelude.{
  ℕ, ◌+◌, ◌-◌, Option, none, some, List, [], ◌∷◌, ◌++◌, Bytes, ltb, if◌then◌else◌, length,
  get_last?,
}
use kine.Memory.Tree.{OrderedMap}
use kine.Memory.Entry.{Entry, prev_of, at_loop, entries_size}

-- `e.prev = hist[len(hist)-1]`, if there is one
abbrev pub linked : Option Entry → Entry → Entry
linked none e = e
linked (some last) e = record e { prev = prev_of (some last) }

module _ (bt : OrderedMap (List Entry)) where
  -- `notify_ch` numbers the channels: a channel is closed once a later one has taken its place.
  pub record Memory : Type 0 where
    pub current_revision : ℕ
    pub compact_revision : ℕ
    pub log : List Entry
    pub keys : bt.Map
    pub notify_ch : ℕ

  unfoldable pub new : Memory
  new = record {
    current_revision = 0;
    compact_revision = 0;
    log = [];
    keys = bt.empty;
    notify_ch = 0;
  }

  unfoldable pub db_size : Memory → ℕ
  unfolding entries_size
  db_size m = entries_size m.log

  abbrev pub next_revision : Memory → ℕ
  next_revision m = m.current_revision + 1

  unfoldable pub broadcast : Memory → Memory
  broadcast m = record m { notify_ch = m.notify_ch + 1 }

  -- `hist, _ := m.keys.Get(key)`: a key that is not there has the nil slice
  abbrev pub history : Memory → Bytes → List Entry
  history m key = elim (bt.get m.keys key) [ none ↦ [] | some hist ↦ hist ]

  unfoldable pub latest : Memory → Bytes → Option Entry
  latest m key = get_last? (history m key)

  -- `nextRevision` and `appendEntry`: each caller takes the revision and appends under one lock.
  unfoldable pub append_entry : Memory → Entry → Memory
  unfolding broadcast
  append_entry m e =
      let hist = history m e.key in
      let e' = linked (get_last? hist) e in
      broadcast (record m {
        current_revision = e.revision;
        log = m.log ++ e' ∷ [];
        keys = bt.set m.keys e.key (hist ++ e' ∷ []);
      })

  unfoldable pub at_revision : Memory → Bytes → ℕ → Option Entry
  unfolding at_loop
  at_revision m key revision = at_loop revision (history m key) none

  unfoldable pub log_index_after : Memory → ℕ → ℕ
  log_index_after m rev =
      let i = rev - m.compact_revision in if ltb (length m.log) i then length m.log else i
