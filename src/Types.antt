-- ===== src/Types.antt =====
-- pkg/server/types.go: the data that the backends and the request handlers share.
-- Revisions, versions, leases, limits and counts are Go `int64`s; they are native numbers here, so
-- a request with a negative one is outside the model.
use kine.Prelude.{
  ℕ, Bool, false, ◌&&◌, ◌||◌, Option, none, some, Bytes, codes, str_eq, str_lt, str_ge, [], not,
}

-- The errors of the package: `other` stands for any error that the code passes on unread.
pub data Error : Type 0 where
  not_supported invalid_watch key_exists compacted future_rev no_space canceled unhealthy : Error
  unsupported : Bytes → Error
  other : Bytes → Error

abbrev pub health_key : Bytes
health_key = codes "/registry/health"

abbrev pub health_val : Bytes
health_val = codes "{\"health\":\"true\"}"

pub record KeyValue : Type 0 where
  pub key : Bytes
  pub value : Bytes
  pub version : ℕ
  pub create_revision : ℕ
  pub mod_revision : ℕ
  pub lease : ℕ

-- `&KeyValue{}`
abbrev pub empty_kv : KeyValue
empty_kv = record {
  key = [];
  value = [];
  version = 0;
  create_revision = 0;
  mod_revision = 0;
  lease = 0;
}

-- `KV` and `PrevKV` are pointers: `none` is nil.
pub record Event : Type 0 where
  pub delete : Bool
  pub create : Bool
  pub kv : Option KeyValue
  pub prev_kv : Option KeyValue

abbrev pub non_empty : Bytes → Bool
non_empty s = not (str_eq s [])

-- `key == "" || (end != "" && k >= key && k < end) || k == key`
unfoldable pub key_in_range : Bytes → Bytes → Bytes → Bool
key_in_range key end k =
    str_eq key [] || (non_empty end && str_ge k key && str_lt k end) || str_eq k key

-- Event.InRange; the receiver is not nil
unfoldable pub in_range : Event → Bytes → Bytes → Bool
in_range e key end = elim e.kv [ none ↦ false | some kv ↦ key_in_range key end kv.key ]
