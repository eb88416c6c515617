-- ===== src/Server/Plain.antt =====
-- What etcd does for the transactions of pkg/server/create.go, update.go and delete.go when their options
-- are off.
use kine.Prelude.{
  ℕ, ◌+◌, ◌≡◌, refl, ap, inl, inr, true, false, Option, none, some, [], ◌∷◌, Bytes, ◌==◌, arith,
  Option-cases, length, leb, if◌then◌else◌,
}
use kine.Types.{KeyValue}
use kine.Memory.Refinement.{View, put, next_kv}
use kine.Server.Request.{
  PutRequest, RangeRequest, DeleteRangeRequest, TxnResponse, response_put, response_range,
  response_delete_range,
}
use kine.Server.Convert.{to_kv, to_kvs_one}
use kine.Server.Etcd.{
  mod_revision_at, etcd_put, etcd_range, etcd_create_txn, etcd_update_txn, etcd_delete_txn, put_kv,
  ranged, IsPlainPut, IsPlainRange,
}

-- the same without the options
abbrev pub plain_kv : PutRequest → View → KeyValue
plain_kv r v = elim (v.at r.key) [
  | none ↦ record {
    key = r.key;
    value = r.value;
    version = 1;
    create_revision = v.revision + 1;
    mod_revision = v.revision + 1;
    lease = r.lease;
  }
  | some kv ↦ next_kv (v.revision + 1) r.key r.value r.lease kv
]

abbrev pub plain_put : PutRequest → View → TxnResponse × View
plain_put r v = (
  record {
    header = v.revision + 1;
    succeeded = true;
    responses = response_put (v.revision + 1) none ∷ [];
  },
  put r.key (some (plain_kv r v)) v,
)

abbrev pub plain_range : Bytes → View → TxnResponse × View
plain_range key v =
    let kvs = to_kvs_one (v.at key) in
    (
      record {
        header = v.revision;
        succeeded = false;
        responses = response_range v.revision kvs (length kvs) ∷ [];
      },
      v,
    )

abbrev pub plain_delete : Bytes → View → TxnResponse × View
plain_delete key v = elim (v.at key) [
  | none ↦ (
    record {
      header = v.revision;
      succeeded = true;
      responses = response_delete_range v.revision [] 0 ∷ [];
    },
    v,
  )
  | some kv ↦ (
    record {
      header = v.revision + 1;
      succeeded = true;
      responses = response_delete_range (v.revision + 1) (to_kv kv ∷ []) 1 ∷ [];
    },
    put key none v,
  )
]

abbrev pub plain_create_txn : PutRequest → View → TxnResponse × View
plain_create_txn r v =
    if mod_revision_at v r.key == 0
    then plain_put r v
    else (record { header = v.revision; succeeded = false; responses = [] }, v)

abbrev pub plain_update_txn : ℕ → PutRequest → View → TxnResponse × View
plain_update_txn revision r v =
    if mod_revision_at v r.key == revision then plain_put r v else plain_range r.key v

abbrev pub plain_delete_txn : ℕ → DeleteRangeRequest → View → TxnResponse × View
plain_delete_txn revision r v =
    if mod_revision_at v r.key == revision then plain_delete r.key v else plain_range r.key v

etcd_put-plain : (r : PutRequest) (v : View) → IsPlainPut r → etcd_put r v ≡ plain_put r v
etcd_put-plain r v p = rw (p.prev_kv) (elim (Option-cases (v.at r.key)) [
  | inl e ↦ rw (put_kv, plain_kv, e) refl
  | inr (kv, e) ↦ rw (put_kv, plain_kv, e, p.ignore_value, p.ignore_lease) refl
])

etcd_range-plain :
    (key : Bytes) (rng : RangeRequest) (v : View)
    → IsPlainRange key rng
    → etcd_range rng v ≡ plain_range key v
etcd_range-plain key rng v p = rw (p.key_same) (
    ap
      (λ o. (
        record {
          header = v.revision;
          succeeded = false;
          responses =
              response_range v.revision (to_kvs_one o) (length (to_kvs_one (v.at key))) ∷ [];
        },
        v,
      ))
      (ranged-plain (v.at key)))
  where
    leb_zero : (n : ℕ) → leb 0 n ≡ true
    leb_zero n = ground arith

    ranged-plain : (o : Option KeyValue) → ranged rng o ≡ o
    ranged-plain none = refl
    ranged-plain (some kv) =
        rw
          (
            p.count_only,
            p.keys_only,
            p.min_mod_revision,
            p.max_mod_revision,
            p.min_create_revision,
            p.max_create_revision,
            leb_zero kv.mod_revision,
            leb_zero kv.create_revision,
          )
          refl

pub create_txn-plain :
    (r : PutRequest) (v : View) → IsPlainPut r → etcd_create_txn r v ≡ plain_create_txn r v
create_txn-plain r v p i =
    if mod_revision_at v r.key == 0
    then etcd_put-plain r v p i
    else (record { header = v.revision; succeeded = false; responses = [] }, v)

pub update_txn-plain :
    (revision : ℕ) (r : PutRequest) (rng : RangeRequest) (v : View)
    → IsPlainPut r
    → IsPlainRange r.key rng
    → etcd_update_txn revision r rng v ≡ plain_update_txn revision r v
update_txn-plain revision r rng v p q i =
    if mod_revision_at v r.key == revision
    then etcd_put-plain r v p i
    else etcd_range-plain r.key rng v q i

-- with the previous KeyValue
abbrev pub with_prev_kv : DeleteRangeRequest → DeleteRangeRequest
with_prev_kv r = record r { prev_kv = true }

pub delete_txn-plain :
    (revision : ℕ) (r : DeleteRangeRequest) (rng : RangeRequest) (v : View)
    → IsPlainRange r.key rng
    → etcd_delete_txn revision (with_prev_kv r) rng v ≡ plain_delete_txn revision r v
delete_txn-plain revision r rng v q i =
    if mod_revision_at v r.key == revision
    then plain_delete r.key v
    else etcd_range-plain r.key rng v q i
