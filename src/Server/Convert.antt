-- ===== src/Server/Convert.antt =====
-- pkg/server/kv.go: the messages made of the backend's values.
use kine.Prelude.{Option, none, some, List, [], ◌∷◌, str_eq, if◌then◌else◌, pos}
use kine.Types.{KeyValue}
use kine.Server.Version.{compact_rev_key, compact_rev_api, decode_version}
use kine.Server.Request.{MvccKeyValue}

-- `toKV` of a value that is not nil
unfoldable pub to_kv : KeyValue → MvccKeyValue
to_kv kv =
    let ret : MvccKeyValue = record {
      key = kv.key;
      create_revision = kv.create_revision;
      mod_revision = kv.mod_revision;
      version = pos kv.version;
      value = kv.value;
      lease = kv.lease;
    } in
    let (version, value) = decode_version kv.value in
    if str_eq ret.key compact_rev_api
    then record ret { key = compact_rev_key; version = version; value = value }
    else ret

unfoldable pub to_kvs : List KeyValue → List MvccKeyValue
to_kvs [] = []
to_kvs (kv ∷ kvs) = to_kv kv ∷ to_kvs kvs

-- `toKVs(kv)` of one value that may be nil
unfoldable pub to_kvs_one : Option KeyValue → List MvccKeyValue
unfolding to_kv
to_kvs_one none = []
to_kvs_one (some kv) = to_kv kv ∷ []

-- `toKV(kv)` of a value that may be nil
abbrev pub to_kv_or_nil : Option KeyValue → Option MvccKeyValue
unfolding to_kv
to_kv_or_nil none = none
to_kv_or_nil (some kv) = some (to_kv kv)
