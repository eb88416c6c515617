-- ===== src/Server/Txn.antt =====
-- pkg/server/limited.go, create.go, delete.go, update.go and compact.go: the transactions that are
-- recognised, and what is done for each.
use kine.Prelude.{
  ℕ, Bool, true, false, Option, none, some, [], ◌∷◌, Bytes, codes, ◌==◌, if◌then◌else◌, length, ℤ,
  pos, int_eq, int64_suc,
}
use kine.Types.{KeyValue, Error, key_exists, not_supported, unsupported}
use kine.Server.Version.{compact_rev_key, compact_rev_api, encode_version, decode_version}
use kine.Server.Request.{
  PutRequest, TxnRequest, TxnResponse, response_put, response_range, response_delete_range, Reply,
  ok, fail,
}
use kine.Server.Backend.{Backend}
use kine.Server.Convert.{to_kvs_one}
use kine.Server.Shapes.{is_create, is_delete, is_update, is_compact}

abbrev pub put_response : ℕ → TxnResponse
put_response rev = record { header = rev; succeeded = true; responses = response_put rev none ∷ [] }

-- the response with the range of one key, after a comparison that failed
abbrev pub range_response : ℕ → Option KeyValue → TxnResponse
range_response rev kv = record {
  header = rev;
  succeeded = false;
  responses = response_range rev (to_kvs_one kv) (length (to_kvs_one kv)) ∷ [];
}

abbrev pub create_reply : ℕ → Option Error → Reply TxnResponse
create_reply rev err = elim err [
  | some key_exists ↦ ok (record { header = rev; succeeded = false; responses = [] })
  | some e ↦ fail e
  | none ↦ ok (put_response rev)
]

abbrev pub delete_reply : ℕ × Option KeyValue × Bool × Option Error → Reply TxnResponse
delete_reply (rev, kv, found, err) =
    let kvs = to_kvs_one kv in
    elim err [
      | some e ↦ fail e
      | none ↦
          if found
          then ok (record {
            header = rev;
            succeeded = true;
            responses = response_delete_range rev kvs (length kvs) ∷ [];
          })
          else ok (range_response rev kv)
    ]

abbrev pub update_reply : ℕ × Option KeyValue × Bool × Option Error → Reply TxnResponse
update_reply (rev, kv, done, err) = elim err [
  | some e ↦ fail e
  | none ↦ if done then ok (put_response rev) else ok (range_response rev kv)
]

module _ {S : Type 0} (b : Backend S) where
  unfoldable pub create : PutRequest → S → Reply TxnResponse × S
  create put s =
      if put.ignore_lease
      then (fail (unsupported (codes "ignoreLease")), s)
      else if put.ignore_value
      then (fail (unsupported (codes "ignoreValue")), s)
      else if put.prev_kv
      then (fail (unsupported (codes "prevKv")), s)
      else (let ((rev, err), s') = b.create put.key put.value put.lease s in
          (create_reply rev err, s'))

  unfoldable pub delete : Bytes → ℕ → S → Reply TxnResponse × S
  delete key revision s = let (r, s') = b.delete key revision s in (delete_reply r, s')

  -- the two halves of `update`: the call of the backend, and the response
  abbrev pub after_create :
      Bytes → (ℕ × Option Error) × S → (ℕ × Option KeyValue × Bool × Option Error) × S
  after_create key ((rev, some key_exists), s) =
      let ((rev', kv, err), s') = b.get key rev false s in ((rev', kv, false, err), s')
  after_create key ((rev, some e), s) = ((rev, none, true, some e), s)
  after_create key ((rev, none), s) = ((rev, none, true, none), s)

  unfoldable pub update_call :
      ℕ → Bytes → Bytes → ℕ → S → (ℕ × Option KeyValue × Bool × Option Error) × S
  update_call rev key value lease s =
      if rev == 0
      then after_create key (b.create key value lease s)
      else b.update key value rev lease s

  unfoldable pub update : ℕ → Bytes → Bytes → ℕ → S → Reply TxnResponse × S
  unfolding update_call
  update rev key value lease s =
      let (r, s') = update_call rev key value lease s in (update_reply r, s')

  abbrev pub stored_version : Option KeyValue → ℤ × Bytes → ℤ × Bytes
  stored_version none old = old
  stored_version (some kv) old = decode_version kv.value

  abbrev pub stored_revision : Option KeyValue → ℕ
  stored_revision none = 0
  stored_revision (some kv) = kv.mod_revision

  -- the response of a comparison that failed
  abbrev pub version_response : ℕ → ℤ × Bytes → TxnResponse
  version_response rev (version, value) = record {
    header = rev;
    succeeded = false;
    responses =
        response_range 0
          (record {
            key = compact_rev_key;
            create_revision = 0;
            mod_revision = 0;
            version = version;
            value = value;
            lease = 0;
          }
            ∷ [])
          1
        ∷ [];
  }

  -- `Create` or `Update` of the substitute key
  unfoldable pub compact_write : ℤ → Bytes → ℕ → S → (ℕ × Option Error) × S
  compact_write version value mod_rev s =
      if int_eq version (pos 0)
      then b.create compact_rev_api value 0 s
      else (let ((rev, _, _, err), s') = b.update compact_rev_api value mod_rev 0 s in
          ((rev, err), s'))

  -- `Get` after a write that failed
  abbrev pub compact_reread :
      ℤ × Bytes → (ℕ × Option KeyValue × Option Error) × S → Reply TxnResponse × S
  compact_reread old ((rev, kv, some e), s) = (fail e, s)
  compact_reread old ((rev, kv, none), s) = (ok (version_response rev (stored_version kv old)), s)

  -- after the write
  abbrev pub compact_result : ℤ × Bytes → (ℕ × Option Error) × S → Reply TxnResponse × S
  compact_result old ((rev, none), s) =
      (ok (record { header = rev; succeeded = true; responses = [] }), s)
  compact_result old ((_, some _), s) = compact_reread old (b.get compact_rev_api 0 false s)

  -- after the first `Get`
  abbrev pub compact_got :
      ℤ → Bytes → (ℕ × Option KeyValue × Option Error) × S → Reply TxnResponse × S
  compact_got wanted value ((rev, kv, some e), s) = (fail e, s)
  compact_got wanted value ((rev, kv, none), s) =
      let old = stored_version kv (pos 0, []) in
      if int_eq wanted old.0
      then compact_result old
          (compact_write old.0 (encode_version (int64_suc old.0) value) (stored_revision kv) s)
      else (ok (version_response rev old), s)

  unfoldable pub compact : ℤ → Bytes → S → Reply TxnResponse × S
  compact wanted value s = compact_got wanted value (b.get compact_rev_api 0 false s)

  abbrev pub txn_compact : Option (ℤ × Bytes) → S → Reply TxnResponse × S
  txn_compact (some (ver, value)) s = compact ver value s
  txn_compact none s = (fail not_supported, s)

  abbrev pub txn_update :
      Option (ℕ × Bytes × Bytes × ℕ) → Option (ℤ × Bytes) → S → Reply TxnResponse × S
  txn_update (some (rev, key, value, lease)) o s = update rev key value lease s
  txn_update none o s = txn_compact o s

  abbrev pub txn_delete :
      Option (ℕ × Bytes)
      → Option (ℕ × Bytes × Bytes × ℕ)
      → Option (ℤ × Bytes)
      → S
      → Reply TxnResponse × S
  txn_delete (some (rev, key)) o o' s = delete key rev s
  txn_delete none o o' s = txn_update o o' s

  abbrev pub txn_create :
      Option PutRequest
      → Option (ℕ × Bytes)
      → Option (ℕ × Bytes × Bytes × ℕ)
      → Option (ℤ × Bytes)
      → S
      → Reply TxnResponse × S
  txn_create (some put) o o' o'' s = create put s
  txn_create none o o' o'' s = txn_delete o o' o'' s

  -- `Txn`
  unfoldable pub txn : TxnRequest → S → Reply TxnResponse × S
  txn r s = txn_create (is_create r) (is_delete r) (is_update r) (is_compact r) s
