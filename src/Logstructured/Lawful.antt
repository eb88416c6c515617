-- ===== src/Logstructured/Lawful.antt =====
-- What pkg/logstructured relies on in its log: the newest event of each key, and an append that does not
-- fit if an event of its key follows the same revision already (a database has the pair of a key and a
-- previous revision once; a compaction can delete the event that follows). Sqllog/Lawful has the log of
-- pkg/logstructured/sqllog as one.
use kine.Prelude.{
  ℕ, ◌<◌, ◌≡◌, Bool, true, false, not, ◌&&◌, Option, none, some, List, [], ◌∷◌, Bytes,
  if◌then◌else◌,
}
use kine.Types.{KeyValue, Event, Error}
use kine.Logstructured.Log.{Log}

pub record Row : Type 0 where
  pub create : Bool
  pub delete : Bool
  pub kv : KeyValue
  pub prev : Option KeyValue

abbrev pub event_of : Bool → Row → Event
event_of keys_only row = record {
  delete = row.delete;
  create = row.create;
  kv = some (if keys_only then record row.kv { value = [] } else row.kv);
  prev_kv = row.prev;
}

-- what a list of one key returns
abbrev pub found : Bool → Bool → Option Row → List Event
found include_deletes keys_only none = []
found include_deletes keys_only (some row) =
    if row.delete && not include_deletes then [] else event_of keys_only row ∷ []

pub record LawfulLog {S : Type 0} (log : Log S) : Type 1 where
  -- the states where the log knows its newest revision
  pub is_current : S → Type 0
  pub revision : S → ℕ
  pub newest : S → Bytes → Option Row
  -- whether an event of the key is there whose previous revision is this one
  pub is_followed : S → Bytes → ℕ → Bool
  -- the error of an append that does not fit, and the revision of one that does
  pub unique : Error
  pub next : S → ℕ
  pub current_revision-revision :
      (s : S) → is_current s → log.current_revision s ≡ ((revision s, none), s)
  pub list-newest :
      (s : S) (key : Bytes) (include_deletes keys_only : Bool)
      → is_current s
      → log.list key [] 1 0 include_deletes keys_only s
        ≡ ((revision s, found include_deletes keys_only (newest s key), none), s)
  pub append_followed :
      (s : S) (e : Event) (kv prev : KeyValue)
      → e.kv ≡ some kv
      → e.prev_kv ≡ some prev
      → is_followed s kv.key prev.mod_revision ≡ true
      → log.append e s ≡ ((0, some unique), s)
  pub append_next :
      (s : S) (e : Event) (kv prev : KeyValue)
      → e.kv ≡ some kv
      → e.prev_kv ≡ some prev
      → is_followed s kv.key prev.mod_revision ≡ false
      → (log.append e s).0 ≡ (next s, none)
  pub next_above : (s : S) → revision s < next s
