-- ===== src/Server/Range.antt =====
-- pkg/server/limited.go, get.go, list.go, put.go and kv.go: the requests that read a key or a range,
-- and Put.
use kine.Prelude.{
  ℕ, ◌+◌, Bool, true, false, not, ◌&&◌, Option, none, some, List, [], ◌∷◌, Bytes, codes, str_eq,
  ltb, ◌==◌, if◌then◌else◌, length, take,
}
use kine.Types.{KeyValue, Error, key_exists, unsupported, other}
use kine.Server.Version.{compact_rev_key, compact_rev_api}
use kine.Server.Request.{RangeRequest, PutRequest, MvccKeyValue, Reply, ok, fail}
use kine.Server.Backend.{Backend}
use kine.Server.Convert.{to_kv_or_nil, to_kvs}

-- RangeResponse of limited.go, with the KeyValues of the backend; `none` is nil
pub record RangeResponse : Type 0 where
  pub header : ℕ
  pub kvs : List KeyValue
  pub more : Bool
  pub count : ℕ

-- etcdserverpb.RangeResponse
pub record EtcdRangeResponse : Type 0 where
  pub header : ℕ
  pub kvs : List MvccKeyValue
  pub more : Bool
  pub count : ℕ

-- etcdserverpb.PutResponse
pub record PutResponse : Type 0 where
  pub header : ℕ
  pub prev_kv : Option MvccKeyValue

abbrev pub one_kv : ℕ → Option KeyValue → RangeResponse
one_kv rev none = record { header = rev; kvs = []; more = false; count = 0 }
one_kv rev (some kv) = record { header = rev; kvs = kv ∷ []; more = false; count = 1 }

-- the redirection of the compact key
abbrev pub redirected : Bytes → Bytes
redirected key = if str_eq key compact_rev_key then compact_rev_api else key

-- the guards of KVServerBridge.Range, in their order
unfoldable pub refused : RangeRequest → Option Error
refused r =
    if not (r.max_create_revision == 0)
    then some (unsupported (codes "maxCreateRevision"))
    else if not (r.sort_order == 0)
    then some (unsupported (codes "sortOrder"))
    else if not (r.sort_target == 0)
    then some (unsupported (codes "sortTarget"))
    else if r.serializable
    then some (unsupported (codes "serializable"))
    else if not (r.min_mod_revision == 0)
    then some (unsupported (codes "minModRevision"))
    else if not (r.min_create_revision == 0)
    then some (unsupported (codes "minCreateRevision"))
    else if not (r.max_create_revision == 0)
    then some (unsupported (codes "maxCreateRevision"))
    else if not (r.max_mod_revision == 0)
    then some (unsupported (codes "maxModRevision"))
    else none

-- what KVServerBridge.Range makes of the two results of LimitedServer.Range
abbrev pub range_reply : Option RangeResponse × Option Error → Reply EtcdRangeResponse
range_reply (_, some e) = fail e
range_reply (some resp, none) =
    ok
      (record { header = resp.header; kvs = to_kvs resp.kvs; more = resp.more; count = resp.count })
range_reply (none, none) = ok (record { header = 0; kvs = []; more = false; count = 0 })

module _ {S : Type 0} (b : Backend S) where
  unfoldable pub get : RangeRequest → S → (Option RangeResponse × Option Error) × S
  get r s =
      if ltb 1 r.limit
      then ((none, some (unsupported (codes "limit"))), s)
      else (let ((rev, kv, err), s') = b.get (redirected r.key) r.revision r.keys_only s in
          ((some (one_kv rev kv), err), s'))

  -- from the result of `List` on: count the whole range if more than the limit was there
  abbrev pub list_more :
      RangeRequest
      → (ℕ × List KeyValue × Option Error) × S
      → (Option RangeResponse × Option Error) × S
  list_more r ((rev, kvs, err), s) =
      if ltb 0 r.limit && ltb r.limit (length kvs)
      then (let revision = if r.revision == 0 then rev else r.revision in
          let ((rev', count, err'), s') = b.count r.key r.range_end revision s in
          (
            (
              some (record { header = rev'; kvs = take r.limit kvs; more = true; count = count }),
              err',
            ),
            s',
          ))
      else ((some (record { header = rev; kvs = kvs; more = false; count = length kvs }), err), s)

  unfoldable pub list : RangeRequest → S → (Option RangeResponse × Option Error) × S
  list r s =
      if length r.range_end == 0
      then ((none, some (other (codes "invalid range end length of 0"))), s)
      else if r.count_only
      then (let ((rev, count, err), s') = b.count r.key r.range_end r.revision s in
          ((some (record { header = rev; kvs = []; more = false; count = count }), err), s'))
      else (let limit = if ltb 0 r.limit then r.limit + 1 else r.limit in
          list_more r (b.list r.key r.range_end limit r.revision r.keys_only s))

  -- LimitedServer.Range
  unfoldable pub limited_range : RangeRequest → S → (Option RangeResponse × Option Error) × S
  unfolding get list
  limited_range r s = if length r.range_end == 0 then get r s else list r s

  -- KVServerBridge.Range, after and with its guards
  abbrev pub range_unless : Option Error → RangeRequest → S → Reply EtcdRangeResponse × S
  range_unless (some e) r s = (fail e, s)
  range_unless none r s = let (resp, s') = limited_range r s in (range_reply resp, s')

  unfoldable pub range : RangeRequest → S → Reply EtcdRangeResponse × S
  range r s = range_unless (refused r) r s

  -- Put after `Create` has found the key
  abbrev pub put_existing :
      Bytes
      → PutRequest
      → (ℕ × Option KeyValue × Option Error) × S
      → (Option PutResponse × Option Error) × S
  put_existing key r ((rev, kv, some e), s) = ((none, some e), s)
  put_existing key r ((rev, kv, none), s) =
      let ((rev', _, _, err), s') = b.update key r.value rev r.lease s in
      (
        (
          some (record { header = rev'; prev_kv = if r.prev_kv then to_kv_or_nil kv else none }),
          err,
        ),
        s',
      )

  abbrev pub put_created :
      Bytes → PutRequest → (ℕ × Option Error) × S → (Option PutResponse × Option Error) × S
  put_created key r ((rev, some key_exists), s) = put_existing key r (b.get key rev false s)
  put_created key r ((rev, some e), s) =
      ((some (record { header = rev; prev_kv = none }), some e), s)
  put_created key r ((rev, none), s) = ((some (record { header = rev; prev_kv = none }), none), s)

  -- LimitedServer.Put
  unfoldable pub put : PutRequest → S → (Option PutResponse × Option Error) × S
  put r s =
      if r.ignore_value
      then ((none, some (unsupported (codes "ignoreValue"))), s)
      else if r.ignore_lease
      then ((none, some (unsupported (codes "ignoreLease"))), s)
      else (let key = redirected r.key in put_created key r (b.create key r.value r.lease s))

  -- LimitedServer.Compact: the response is returned with the error, too
  unfoldable pub compact : ℕ → S → (ℕ × Option Error) × S
  compact revision s = b.compact revision s
