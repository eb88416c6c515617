-- ===== src/Memory/Entry.antt =====
-- pkg/drivers/memory/memory.go: the entries of the log, and the loops over one history or log.
use kine.Prelude.{
  ℕ, zero, suc, ◌+◌, Bool, true, false, not, ◌&&◌, ◌||◌, Option, none, some, List, [], ◌∷◌, ◌++◌,
  Bytes, str_eq, str_ge, str_lt, leb, ◌==◌, if◌then◌else◌, length, drop,
}
use kine.Types.{KeyValue, Event, non_empty, empty_kv}

-- `toKeyValue` is all that is ever read through `prev`, and the fields that it reads are never
-- written again, so `prev` is the KeyValue of the entry that it points to.
pub record Entry : Type 0 where
  pub revision : ℕ
  pub key : Bytes
  pub value : Bytes
  pub create_revision : ℕ
  pub version : ℕ
  pub prev_revision : ℕ
  pub lease : ℕ
  pub created : Bool
  pub deleted : Bool
  pub prev : Option KeyValue

unfoldable pub to_key_value : Entry → KeyValue
to_key_value e = record {
  key = e.key;
  value = e.value;
  create_revision = e.create_revision;
  mod_revision = e.revision;
  version = e.version;
  lease = e.lease;
}

-- `if latest != nil && !latest.deleted`: the entry that a reader may see
abbrev pub live : Option Entry → Option Entry
live none = none
live (some e) = if e.deleted then none else some e

abbrev pub prev_of : Option Entry → Option KeyValue
unfolding to_key_value
prev_of none = none
prev_of (some e) = some (to_key_value e)

-- the loop of `atRevision`
unfoldable pub at_loop : ℕ → List Entry → Option Entry → Option Entry
at_loop revision [] result = result
at_loop revision (e ∷ hist) result =
    let rest = at_loop revision hist (some e) in if leb e.revision revision then rest else result

-- the loop of `Compact` over one history: the index of the floor, `none` for -1
unfoldable pub floor_loop : ℕ → List Entry → ℕ → Option ℕ → Option ℕ
floor_loop revision [] i floor = floor
floor_loop revision (e ∷ hist) i floor =
    let rest = floor_loop revision hist (i + 1) (some i) in
    if leb e.revision revision then rest else floor

abbrev pub get_elem? {ℓ} : {A : Type ℓ} → List A → ℕ → Option A
get_elem? [] i = none
get_elem? (x ∷ xs) zero = some x
get_elem? (x ∷ xs) (suc i) = get_elem? xs i

-- the `switch` of `Compact`; a floor is an index of the history
abbrev cut_at : List Entry → ℕ → Option Entry → List Entry
cut_at hist i none = hist
cut_at hist i (some floor) = if floor.deleted then drop (i + 1) hist else drop i hist

unfoldable pub new_hist_at : List Entry → Option ℕ → List Entry
new_hist_at hist none = hist
new_hist_at hist (some i) = cut_at hist i (get_elem? hist i)

unfoldable pub new_hist : ℕ → List Entry → List Entry
unfolding floor_loop new_hist_at
new_hist revision hist = new_hist_at hist (floor_loop revision hist 0 none)

-- `newHist[0].prev = nil`, seen from the history and, since the entry is shared, from the log
unfoldable pub clear_first : List Entry → List Entry
clear_first [] = []
clear_first (e ∷ hist) = record e { prev = none } ∷ hist

unfoldable pub clear_prev : ℕ → List Entry → List Entry
clear_prev revision [] = []
clear_prev revision (e ∷ log) =
    (if e.revision == revision then record e { prev = none } else e) ∷ clear_prev revision log

unfoldable pub clear_log : List Entry → List Entry → List Entry
unfolding clear_prev
clear_log [] log = log
clear_log (e ∷ hist) log = clear_prev e.revision log

unfoldable pub entries_size : List Entry → ℕ
entries_size [] = 0
entries_size (e ∷ log) = length e.key + length e.value + 64 + entries_size log

-- the body of the watcher's loop over the log: the events that match, and the last revision
unfoldable pub to_event : Entry → Event
unfolding to_key_value
to_event e = record {
  create = e.created;
  delete = e.deleted;
  kv = some (to_key_value e);
  prev_kv = elim e.prev [
    | none ↦ some (record empty_kv { mod_revision = e.prev_revision })
    | some kv ↦ some kv
  ];
}

-- the test of the watcher, in the order in which memory.go writes it
abbrev pub watched : Bytes → Bytes → Entry → Bool
watched key end e =
    str_eq key [] || (non_empty end && str_ge e.key key && str_lt e.key end) || str_eq e.key key

unfoldable pub batch_loop : Bytes → Bytes → List Entry → List Event → ℕ → List Event × ℕ
unfolding to_event
batch_loop key end [] batch last_seen = (batch, last_seen)
batch_loop key end (e ∷ log) batch last_seen =
    batch_loop key end log (if watched key end e then batch ++ to_event e ∷ [] else batch)
      e.revision

abbrev pub prev_rev : Option Entry → ℕ
prev_rev none = 0
prev_rev (some e) = e.revision

abbrev pub created_entry : ℕ → Bytes → Bytes → ℕ → ℕ → Entry
created_entry rev key value lease prev_revision = record {
  revision = rev;
  key = key;
  value = value;
  create_revision = rev;
  version = 1;
  prev_revision = prev_revision;
  lease = lease;
  created = true;
  deleted = false;
  prev = none;
}

abbrev pub updated_entry : ℕ → Bytes → Bytes → ℕ → Entry → Entry
updated_entry rev key value lease latest = record {
  revision = rev;
  key = key;
  value = value;
  create_revision = latest.create_revision;
  version = latest.version + 1;
  prev_revision = latest.revision;
  lease = lease;
  created = false;
  deleted = false;
  prev = none;
}

abbrev pub deleted_entry : ℕ → Bytes → Entry → Entry
deleted_entry rev key latest = record {
  revision = rev;
  key = key;
  value = latest.value;
  create_revision = latest.create_revision;
  version = latest.version;
  prev_revision = latest.revision;
  lease = latest.lease;
  created = false;
  deleted = true;
  prev = none;
}

abbrev pub listed_kv : Bool → Entry → KeyValue
unfolding to_key_value
listed_kv keys_only e = if keys_only then record (to_key_value e) { value = [] } else to_key_value e

-- `(end == "" && k != key) || (end != "" && k >= end)`
abbrev pub past_end : Bytes → Bytes → Bytes → Bool
past_end key end k = (str_eq end [] && not (str_eq k key)) || (non_empty end && str_ge k end)

abbrev pub first_kv : List KeyValue → Option KeyValue
first_kv [] = none
first_kv (kv ∷ kvs) = some kv
