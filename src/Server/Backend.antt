-- ===== src/Server/Backend.antt =====
-- The interface `Backend` of pkg/server/types.go, as the handlers use it: each method takes the state
-- and returns its results and the state after it. The in-memory backend fills it.
use kine.Prelude.{ℕ, Bool, Option, none, List, Bytes}
use kine.Types.{KeyValue, Error}
use kine.Memory.Tree.{OrderedMap}
use kine.Memory.Entry.{Entry}
use kine.Memory.State.{Memory}
use kine.Memory.Writes
use kine.Memory.Reads
use kine.Memory.Compaction
use kine.Memory.State

pub record Backend (S : Type 0) : Type 0 where
  pub get : Bytes → ℕ → Bool → S → (ℕ × Option KeyValue × Option Error) × S
  pub create : Bytes → Bytes → ℕ → S → (ℕ × Option Error) × S
  pub delete : Bytes → ℕ → S → (ℕ × Option KeyValue × Bool × Option Error) × S
  pub list : Bytes → Bytes → ℕ → ℕ → Bool → S → (ℕ × List KeyValue × Option Error) × S
  pub count : Bytes → Bytes → ℕ → S → (ℕ × ℕ × Option Error) × S
  pub update : Bytes → Bytes → ℕ → ℕ → S → (ℕ × Option KeyValue × Bool × Option Error) × S
  pub db_size : S → (ℕ × Option Error) × S
  pub compact : ℕ → S → (ℕ × Option Error) × S

abbrev pub memory_backend : (bt : OrderedMap (List Entry)) → Backend (Memory bt)
memory_backend bt = record {
  get = λ key revision keys_only m. (Reads.get bt key revision keys_only m, m);
  create = Writes.create bt;
  delete = Writes.delete bt;
  list =
      λ key end limit revision keys_only m. (Reads.list bt key end limit revision keys_only m, m);
  count = λ key end revision m. (Reads.count bt key end revision m, m);
  update = Writes.update bt;
  db_size = λ m. ((State.db_size bt m, none), m);
  compact = Compaction.compact bt;
}
