-- ===== src/Ttl/Held.antt =====
-- pkg/ttl/ttl.go: what the code relies on in the queue, and where a key in the map can stand.
use kine.Prelude.{ℕ, ◌≡◌, ◌⊎◌, true, false, some, List, Bytes, str_eq, All, Among}
use kine.Ttl.Store.{Store, Entry, load}
use kine.Ttl.Loops.{
  Queue, Handler, waiting, got, found, expired, deleted, Looper, reading, saving, adding, State,
  version,
}

-- What the code relies on in the queue: a key that was added is returned, however often others are
-- added or finished, until Get returns it.
pub record LawfulQueue {Q : Type 0} (q : Queue Q) : Type 0 where
  pub pending_added : (k : Bytes) (d : ℕ) (s : Q) → q.pending k (q.add_after k d s) ≡ true
  pub pending_more :
      (k key : Bytes) (d : ℕ) (s : Q)
      → q.pending k s ≡ true
      → q.pending k (q.add_after key d s) ≡ true
  pub pending_taken :
      (k key : Bytes) (s : Q)
      → str_eq key k ≡ false
      → q.pending k s ≡ true
      → q.pending k (q.taken key s) ≡ true
  pub pending_done :
      (k key : Bytes) (s : Q) → q.pending k s ≡ true → q.pending k (q.done key s) ≡ true

-- `handle` works on the key, or the other loop is about to add it.
abbrev pub Handles : Handler → Bytes → Type 0
Handles waiting k = ⊥
Handles (got key) k = key ≡ k
Handles (found key) k = key ≡ k
Handles (expired key) k = key ≡ k
Handles (deleted key) k = key ≡ k

abbrev pub Adds : Looper → Bytes → Type 0
Adds reading k = ⊥
Adds (saving kv) k = ⊥
Adds (adding key after) k = key ≡ k

-- the pointer that `handle` has is to an entry of the map
abbrev pub Points : Handler → Store → Type 0
Points (found key) store = (e : Entry) × (load store key ≡ some e)
Points (expired key) store = (e : Entry) × (load store key ≡ some e)
Points waiting store = Unit
Points (got key) store = Unit
Points (deleted key) store = Unit

abbrev pub Saves : Looper → List (Bytes × ℕ) → Type 0
Saves (saving kv) seen = Among (version kv) seen
Saves reading seen = Unit
Saves (adding key after) seen = Unit

module _ {Q : Type 0} (q : Queue Q) where
  abbrev pub Busy : State Q → Bytes → Type 0
  Busy y k = (q.pending k y.queue ≡ true) ⊎ Handles y.handler k ⊎ Adds y.looper k

  pub record Tracked (y : State Q) : Type 0 where
    pub busy : (k : Bytes) (e : Entry) → load y.store k ≡ some e → Busy y k
    pub entries_seen :
        (k : Bytes) (e : Entry) → load y.store k ≡ some e → Among (k, e.mod_revision) y.seen
    pub calls_seen : All (λ c. Among c y.seen) y.calls
    pub points : Points y.handler y.store
    pub saves : Saves y.looper y.seen
