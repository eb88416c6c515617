-- ===== src/Server/TxnSpecs.antt =====
-- The replies of pkg/server/create.go, delete.go and update.go to the results of the abstract store,
-- against what etcd does for the transaction.
use kine.Prelude.{
  ℕ, ◌+◌, ◌<◌, ◌≡◌, refl, inl, inr, true, false, Option, none, some, Bytes, ◌==◌, arith, Bool-cases,
  Option-cases,
}
use kine.Types.{KeyValue}
use kine.Memory.Entry.{Entry, listed_kv}
use kine.Memory.Refinement.{View, spec_create, spec_update, spec_delete}
use kine.Server.Request.{PutRequest, DeleteRangeRequest, ok}
use kine.Server.Convert.{to_kvs_one}
use kine.Server.Txn.{create_reply, update_reply, delete_reply}
use kine.Server.Etcd.{mod_revision_at}
use kine.Server.Plain.{
  plain_kv, plain_put, plain_range, plain_delete, plain_create_txn, plain_update_txn,
  plain_delete_txn,
}

-- A KeyValue at the key has a positive mod revision.
abbrev pub Positive : View → Bytes → Type 0
Positive v key = (kv : KeyValue) → v.at key ≡ some kv → 0 < kv.mod_revision

-- Create of the abstract store with the handler's reply, against the transaction.
pub create_txn_lem :
    (r : PutRequest) (v : View)
    → Positive v r.key
    → (create_reply
          (spec_create r.key r.value r.lease v).0.0
          (spec_create r.key r.value r.lease v).0.1
        ≡ ok (plain_create_txn r v).0)
      × ((spec_create r.key r.value r.lease v).1 ≡ (plain_create_txn r v).1)
create_txn_lem r v p = elim (Option-cases (v.at r.key)) [
  | inl e ↦ (
    rw (spec_create, plain_create_txn, mod_revision_at, plain_put, plain_kv, e) refl,
    rw (spec_create, plain_create_txn, mod_revision_at, plain_put, plain_kv, e) refl,
  )
  | inr (kv, e) ↦
      let ne : (kv.mod_revision == 0) ≡ false = ground (arith, p kv e) in
      (
        rw (spec_create, plain_create_txn, mod_revision_at, plain_put, plain_kv, e, ne) refl,
        rw (spec_create, plain_create_txn, mod_revision_at, plain_put, plain_kv, e, ne) refl,
      )
]

pub delete_txn_lem :
    (revision : ℕ) (r : DeleteRangeRequest) (v : View)
    → 0 < revision
    → (delete_reply (spec_delete r.key revision v).0 ≡ ok (plain_delete_txn revision r v).0)
      × ((spec_delete r.key revision v).1 ≡ (plain_delete_txn revision r v).1)
unfolding to_kvs_one
delete_txn_lem revision r v p =
    let nz : (revision == 0) ≡ false = ground (arith, p) in
    let zn : (0 == revision) ≡ false = ground (arith, p) in
    elim (Option-cases (v.at r.key)) [
      | inl e ↦ (
        rw (spec_delete, plain_delete_txn, mod_revision_at, plain_delete, plain_range, e, zn) refl,
        rw (spec_delete, plain_delete_txn, mod_revision_at, plain_delete, plain_range, e, zn) refl,
      )
      | inr (kv, e) ↦ elim (Bool-cases (kv.mod_revision == revision)) [
        | inl hit ↦ (
          rw (spec_delete, plain_delete_txn, mod_revision_at, plain_delete, plain_range, e, nz, hit)
              refl,
          rw (spec_delete, plain_delete_txn, mod_revision_at, plain_delete, plain_range, e, nz, hit)
              refl,
        )
        | inr miss ↦ (
          rw
              (
                spec_delete, plain_delete_txn, mod_revision_at, plain_delete, plain_range, e, nz,
                miss,
              )
              refl,
          rw
              (
                spec_delete, plain_delete_txn, mod_revision_at, plain_delete, plain_range, e, nz,
                miss,
              )
              refl,
        )
      ]
    ]

pub update_txn_lem :
    (revision : ℕ) (r : PutRequest) (v : View)
    → 0 < revision
    → (update_reply (spec_update r.key r.value revision r.lease v).0
        ≡ ok (plain_update_txn revision r v).0)
      × ((spec_update r.key r.value revision r.lease v).1 ≡ (plain_update_txn revision r v).1)
unfolding to_kvs_one
update_txn_lem revision r v p =
    let zn : (0 == revision) ≡ false = ground (arith, p) in
    elim (Option-cases (v.at r.key)) [
      | inl e ↦ (
        rw (spec_update, plain_update_txn, mod_revision_at, plain_put, plain_range, plain_kv, e, zn)
            refl,
        rw (spec_update, plain_update_txn, mod_revision_at, plain_put, plain_range, plain_kv, e, zn)
            refl,
      )
      | inr (kv, e) ↦ elim (Bool-cases (kv.mod_revision == revision)) [
        | inl hit ↦ (
          rw
              (
                spec_update, plain_update_txn, mod_revision_at, plain_put, plain_range, plain_kv, e,
                hit,
              )
              refl,
          rw
              (
                spec_update, plain_update_txn, mod_revision_at, plain_put, plain_range, plain_kv, e,
                hit,
              )
              refl,
        )
        | inr miss ↦ (
          rw
              (
                spec_update, plain_update_txn, mod_revision_at, plain_put, plain_range, plain_kv, e,
                miss,
              )
              refl,
          rw
              (
                spec_update, plain_update_txn, mod_revision_at, plain_put, plain_range, plain_kv, e,
                miss,
              )
              refl,
        )
      ]
    ]

-- The update of a key that is not there, at revision 0.
pub update_missing_lem :
    (r : PutRequest) (v : View)
    → v.at r.key ≡ none
    → (update_reply (v.revision + 1, none, true, none) ≡ ok (plain_update_txn 0 r v).0)
      × ((spec_create r.key r.value r.lease v).1 ≡ (plain_update_txn 0 r v).1)
update_missing_lem r v e = (
  rw (plain_update_txn, mod_revision_at, plain_put, plain_kv, e) refl,
  rw (spec_create, plain_update_txn, mod_revision_at, plain_put, plain_kv, e) refl,
)

-- `shown_kv` of an entry that has been found live
unfoldable pub seen : Option Entry → Option KeyValue
seen o = elim o [ none ↦ none | some e ↦ some (listed_kv false e) ]
