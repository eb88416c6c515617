-- ===== src/Server/Examples.antt =====
-- The theorems about the handlers of pkg/server at concrete inputs.
use mathlib.Core.Option
use kine.Prelude.{
  ℕ, ◌≡◌, refl, true, false, none, some, [], ◌∷◌, Bytes, codes, if◌then◌else◌, arith, pos,
  int64_suc, parse_int, uint_loop, ◌+◌,
}
use kine.Types.{KeyValue}
use kine.Memory.Entry.{
  to_key_value, floor_loop, new_hist_at, new_hist, clear_first, clear_prev, clear_log,
}
use kine.Memory.State.{Memory, new, append_entry, latest, broadcast}
use kine.Memory.Writes.{create, update, delete}
use kine.Memory.Compaction.{compact, scan_item, scan_loop, delete_keys}
use kine.Memory.SortedMap.{insert_item, remove_item}
use kine.Memory.Runs.{creates, run, step, compactions, run-new-Inv}
use kine.Memory.Invariant.{Inv}
use kine.Memory.Listing.{listing}
use kine.Memory.Refinement.{view}
use kine.Memory.Examples.{bt, m0, m0-Inv}
use kine.Server.Version.{
  compact_rev_api, encode_version, decode_version, decode_version-encode_version, cut,
}
use kine.Server.Request.{PutRequest, RangeRequest, DeleteRangeRequest, ok}
use kine.Server.Backend.{memory_backend}
use kine.Server.Convert.{to_kv}
use kine.Server.Etcd.{
  create_txn, update_txn, delete_txn, etcd_create_txn, etcd_update_txn, etcd_delete_txn, IsPlainPut,
  IsPlainRange,
}
use kine.Server.Members.{authority_url}
use kine.Server.Plain.{with_prev_kv}
use kine.Server.Shapes
use kine.Server.Txn
use kine.Server.TxnRefinement.{Serves, txn-create, txn-update, txn-delete}
use kine.Server.Range
use kine.Server.Pages.{answer_page}
use kine.Server.RangeListing.{range-list}
use kine.Server.Existing.{put-stale, compact-stored}

decode_version-encode_version_example :
    decode_version (encode_version (pos 12) (codes "a|b")) ≡ (pos 12, codes "a|b")
decode_version-encode_version_example =
    decode_version-encode_version (pos 12) (codes "a|b") (omega arith)

-- etcd v3.5 sends the list of addresses; else the scheme is put before the authority.
listed_addresses :
    authority_url (some (codes "#initially=[10.0.0.1:2379;10.0.0.2:2379]" ∷ [])) (codes "http")
    ≡ codes "10.0.0.1:2379,10.0.0.2:2379"
listed_addresses = refl

second_scheme :
    authority_url (some (codes "http://a" ∷ [])) (codes "http") ≡ codes "http://http://a"
second_scheme = refl

no_metadata : authority_url none (codes "http") ≡ codes "http://127.0.0.1:2379"
no_metadata = refl

abbrev put_of : Bytes → Bytes → PutRequest
put_of key value = record {
  key = key;
  value = value;
  lease = 0;
  prev_kv = false;
  ignore_value = false;
  ignore_lease = false;
}

abbrev range_of : Bytes → Bytes → ℕ → RangeRequest
range_of key end limit = record {
  key = key;
  range_end = end;
  limit = limit;
  revision = 0;
  sort_order = 0;
  sort_target = 0;
  serializable = false;
  keys_only = false;
  count_only = false;
  min_mod_revision = 0;
  max_mod_revision = 0;
  min_create_revision = 0;
  max_create_revision = 0;
}

abbrev delete_of : Bytes → DeleteRangeRequest
delete_of key = record { key = key; range_end = []; prev_kv = false }

txn-create_example :
    Serves bt
      (Txn.txn (memory_backend bt) (create_txn (put_of (codes "/c") (codes "7"))) m0)
      (etcd_create_txn (put_of (codes "/c") (codes "7")) (view bt m0))
txn-create_example = txn-create bt 1 (put_of (codes "/c") (codes "7")) m0 m0-Inv refl refl refl

abbrev is_plain_put : (key value : Bytes) → IsPlainPut (put_of key value)
is_plain_put key value = record { prev_kv = refl; ignore_value = refl; ignore_lease = refl }

abbrev is_plain_range : (key : Bytes) → IsPlainRange key (range_of key [] 0)
is_plain_range key = record {
  key_same = refl;
  range_end = refl;
  revision = refl;
  keys_only = refl;
  count_only = refl;
  min_mod_revision = refl;
  max_mod_revision = refl;
  min_create_revision = refl;
  max_create_revision = refl;
}

txn-update_example :
    Serves bt
      (Txn.txn
        (memory_backend bt)
        (update_txn 3 (put_of (codes "/b") (codes "7")) (range_of (codes "/b") [] 0))
        m0)
      (etcd_update_txn 3
        (put_of (codes "/b") (codes "7"))
        (range_of (codes "/b") [] 0)
        (view bt m0))
txn-update_example =
    txn-update bt 1 3 (put_of (codes "/b") (codes "7")) (range_of (codes "/b") [] 0) m0 m0-Inv
      (is_plain_put (codes "/b") (codes "7")) (is_plain_range (codes "/b"))

txn-delete_example :
    Serves bt
      (Txn.txn
        (memory_backend bt)
        (delete_txn 3 (delete_of (codes "/b")) (range_of (codes "/b") [] 0))
        m0)
      (etcd_delete_txn 3
        (with_prev_kv (delete_of (codes "/b")))
        (range_of (codes "/b") [] 0)
        (view bt m0))
txn-delete_example =
    txn-delete bt 3 (delete_of (codes "/b")) (range_of (codes "/b") [] 0) m0 (omega arith) refl
      (is_plain_range (codes "/b"))

-- A put that is to keep the value of its key is an update with the value of the request, and the range of
-- another key is the range of the put's: the options are dropped.
keeps_no_value :
    (rng : RangeRequest)
    → Txn.txn
        (memory_backend bt)
        (update_txn 3 (record (put_of (codes "/b") (codes "7")) { ignore_value = true }) rng)
        m0
      ≡ Txn.txn
          (memory_backend bt)
          (update_txn 3 (put_of (codes "/b") (codes "7")) (range_of (codes "/b") [] 0))
          m0
unfolding Txn.txn Shapes.is_create Shapes.is_delete Shapes.is_update Shapes.is_compact
keeps_no_value rng = refl

range-list_example : Range.range (memory_backend bt) (range_of (codes "/") (codes "0") 1) m0 ≡ (
  answer_page 1 0 m0.current_revision m0.compact_revision
      (listing bt (codes "/") (codes "0") 0 0 false m0),
  m0,
)
unfolding Range.refused
range-list_example = range-list bt 1 (range_of (codes "/") (codes "0") 1) m0 m0-Inv refl refl refl

-- `/b` is at revision 3 of 5.
abbrev stale_kv : KeyValue
stale_kv = record {
  key = codes "/b";
  value = codes "3";
  version = 2;
  create_revision = 1;
  mod_revision = 3;
  lease = 0;
}

put-stale_example : Range.put (memory_backend bt) (put_of (codes "/b") (codes "7")) m0 ≡ (
  (
    some (record {
      header = m0.current_revision;
      prev_kv = if false then some (to_kv stale_kv) else none;
    }),
    none,
  ),
  m0,
)
unfolding run step create update delete compact new append_entry scan_loop delete_keys latest
    broadcast scan_item to_key_value floor_loop new_hist_at new_hist clear_first clear_prev
    clear_log insert_item remove_item
put-stale_example =
    put-stale bt 1 (put_of (codes "/b") (codes "7")) m0 stale_kv m0-Inv refl refl refl refl

abbrev m2 : Memory bt
m2 = run bt (new bt) (creates compact_rev_api (codes "1|5") 0 ∷ [])

m2-Inv : Inv bt 0 m2
unfolding run step create update delete compact new append_entry scan_loop delete_keys latest
    broadcast scan_item to_key_value floor_loop new_hist_at new_hist clear_first clear_prev
    clear_log insert_item remove_item compactions
m2-Inv = run-new-Inv bt (creates compact_rev_api (codes "1|5") 0 ∷ [])

abbrev stored_kv : KeyValue
stored_kv = record {
  key = compact_rev_api;
  value = codes "1|5";
  version = 1;
  create_revision = 1;
  mod_revision = 1;
  lease = 0;
}

stored_pos : (decode_version stored_kv.value).0 ≡ pos 1
unfolding decode_version cut parse_int uint_loop
stored_pos = refl

compact-stored_example :
    ((Txn.compact (memory_backend bt) (pos 1) (codes "6") m2).0
      ≡ ok (record { header = m2.current_revision + 1; succeeded = true; responses = [] }))
    × (Option.map
          (λ k. decode_version k.value)
          ((view bt (Txn.compact (memory_backend bt) (pos 1) (codes "6") m2).1).at compact_rev_api)
        ≡ some (int64_suc (pos 1), codes "6"))
unfolding run step create update delete compact new append_entry scan_loop delete_keys latest
    broadcast scan_item to_key_value floor_loop new_hist_at new_hist clear_first clear_prev
    clear_log insert_item remove_item
compact-stored_example =
    compact-stored bt 0 m2 (codes "6") stored_kv (pos 1) m2-Inv refl stored_pos (omega arith) refl
