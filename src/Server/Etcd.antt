-- ===== src/Server/Etcd.antt =====
-- What etcd does for the transactions that Kubernetes sends (pkg/server/create.go, update.go and
-- delete.go recognise them), on the abstract store: compare the mod revision of a key, 0 for a key
-- that is not there, then run one operation, with its options. The requests are of one key, at the
-- current revision, and their leases are granted; a put that ignores its value or its lease is of a key
-- that is there.
use kine.Prelude.{
  ℕ, ◌+◌, ◌≡◌, Bool, true, false, not, ◌&&◌, ◌||◌, Option, none, some, [], ◌∷◌, Bytes, ◌==◌, leb,
  if◌then◌else◌, length,
}
use kine.Types.{KeyValue}
use kine.Memory.Refinement.{View, put, next_kv}
use kine.Server.Request.{
  Compare, compare_mod, compare_equal, target_mod_revision, PutRequest, RangeRequest,
  DeleteRangeRequest, request_put, request_range, request_delete_range, TxnRequest, TxnResponse,
  response_put, response_range, response_delete_range, MvccKeyValue,
}
use kine.Server.Convert.{to_kv, to_kvs_one}

abbrev compare_revision : Bytes → ℕ → Compare
compare_revision key revision = record {
  target = compare_mod;
  result = compare_equal;
  key = key;
  target_union = target_mod_revision revision;
}

-- The three transactions: put a key that is not there; put a key, or delete it, if it has the
-- revision, and else read it.
abbrev pub create_txn : PutRequest → TxnRequest
create_txn put = record {
  compare = compare_revision put.key 0 ∷ [];
  success = request_put put ∷ [];
  failure = [];
}

abbrev pub update_txn : ℕ → PutRequest → RangeRequest → TxnRequest
update_txn revision put rng = record {
  compare = compare_revision put.key revision ∷ [];
  success = request_put put ∷ [];
  failure = request_range rng ∷ [];
}

abbrev pub delete_txn : ℕ → DeleteRangeRequest → RangeRequest → TxnRequest
delete_txn revision del rng = record {
  compare = compare_revision del.key revision ∷ [];
  success = request_delete_range del ∷ [];
  failure = request_range rng ∷ [];
}

abbrev pub mod_revision_at : View → Bytes → ℕ
mod_revision_at v key = elim (v.at key) [ none ↦ 0 | some kv ↦ kv.mod_revision ]

-- the KeyValue that a put leaves
abbrev pub put_kv : PutRequest → View → KeyValue
put_kv r v = elim (v.at r.key) [
  | none ↦ record {
    key = r.key;
    value = r.value;
    version = 1;
    create_revision = v.revision + 1;
    mod_revision = v.revision + 1;
    lease = r.lease;
  }
  | some kv ↦
      next_kv (v.revision + 1) r.key (if r.ignore_value then kv.value else r.value)
        (if r.ignore_lease then kv.lease else r.lease) kv
]

abbrev kv_of_option : Option KeyValue → Option MvccKeyValue
kv_of_option none = none
kv_of_option (some kv) = some (to_kv kv)

abbrev pub etcd_put : PutRequest → View → TxnResponse × View
etcd_put r v = (
  record {
    header = v.revision + 1;
    succeeded = true;
    responses =
        response_put (v.revision + 1) (if r.prev_kv then kv_of_option (v.at r.key) else none) ∷ [];
  },
  put r.key (some (put_kv r v)) v,
)

-- A bound of 0 is none.
abbrev pub within : ℕ → ℕ → ℕ → Bool
within low high n = leb low n && (high == 0 || leb n high)

abbrev pub is_selected : RangeRequest → KeyValue → Bool
is_selected rng kv =
    within rng.min_mod_revision rng.max_mod_revision kv.mod_revision
    && within rng.min_create_revision rng.max_create_revision kv.create_revision

-- The bounds and `count_only` leave the count as it is.
abbrev pub ranged : RangeRequest → Option KeyValue → Option KeyValue
ranged rng none = none
ranged rng (some kv) =
    if rng.count_only || not (is_selected rng kv)
    then none
    else some (if rng.keys_only then record kv { value = [] } else kv)

abbrev pub etcd_range : RangeRequest → View → TxnResponse × View
etcd_range rng v = (
  record {
    header = v.revision;
    succeeded = false;
    responses =
        response_range v.revision (to_kvs_one (ranged rng (v.at rng.key)))
          (length (to_kvs_one (v.at rng.key)))
        ∷ [];
  },
  v,
)

-- A delete of a key that is not there takes no revision.
abbrev pub etcd_delete : DeleteRangeRequest → View → TxnResponse × View
etcd_delete r v = elim (v.at r.key) [
  | none ↦ (
    record {
      header = v.revision;
      succeeded = true;
      responses = response_delete_range v.revision [] 0 ∷ [];
    },
    v,
  )
  | some kv ↦ (
    record {
      header = v.revision + 1;
      succeeded = true;
      responses =
          response_delete_range (v.revision + 1) (if r.prev_kv then to_kv kv ∷ [] else []) 1 ∷ [];
    },
    put r.key none v,
  )
]

abbrev pub etcd_create_txn : PutRequest → View → TxnResponse × View
etcd_create_txn r v =
    if mod_revision_at v r.key == 0
    then etcd_put r v
    else (record { header = v.revision; succeeded = false; responses = [] }, v)

abbrev pub etcd_update_txn : ℕ → PutRequest → RangeRequest → View → TxnResponse × View
etcd_update_txn revision r rng v =
    if mod_revision_at v r.key == revision then etcd_put r v else etcd_range rng v

abbrev pub etcd_delete_txn : ℕ → DeleteRangeRequest → RangeRequest → View → TxnResponse × View
etcd_delete_txn revision r rng v =
    if mod_revision_at v r.key == revision then etcd_delete r v else etcd_range rng v

-- The options of a put are off.
pub record IsPlainPut (r : PutRequest) : Type 0 where
  pub prev_kv : r.prev_kv ≡ false
  pub ignore_value : r.ignore_value ≡ false
  pub ignore_lease : r.ignore_lease ≡ false

-- A range of the key alone, at the current revision, without options.
pub record IsPlainRange (key : Bytes) (rng : RangeRequest) : Type 0 where
  pub key_same : rng.key ≡ key
  pub range_end : rng.range_end ≡ []
  pub revision : rng.revision ≡ 0
  pub keys_only : rng.keys_only ≡ false
  pub count_only : rng.count_only ≡ false
  pub min_mod_revision : rng.min_mod_revision ≡ 0
  pub max_mod_revision : rng.max_mod_revision ≡ 0
  pub min_create_revision : rng.min_create_revision ≡ 0
  pub max_create_revision : rng.max_create_revision ≡ 0
