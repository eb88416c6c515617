-- ===== src/Server/Request.antt =====
-- The messages of the etcd API (go.etcd.io/etcd/api/v3, etcdserverpb and mvccpb) that pkg/server reads
-- and writes, with the fields that it uses. A message field that is nil has no value here: the
-- generated getters answer for it.
use kine.Prelude.{ℕ, Bool, Option, none, some, List, Bytes, ℤ, pos}
use kine.Types.{Error}

pub data CompareTarget : Type 0 where
  compare_version compare_create compare_mod compare_value compare_lease : CompareTarget

pub data CompareResult : Type 0 where
  compare_equal compare_greater compare_less compare_not_equal : CompareResult

-- the `oneof` of a Compare
pub data TargetUnion : Type 0 where
  target_version : ℤ → TargetUnion
  target_create_revision : ℕ → TargetUnion
  target_mod_revision : ℕ → TargetUnion
  target_value : Bytes → TargetUnion
  target_lease : ℕ → TargetUnion

pub record Compare : Type 0 where
  pub target : CompareTarget
  pub result : CompareResult
  pub key : Bytes
  pub target_union : TargetUnion

abbrev pub get_mod_revision : Compare → ℕ
get_mod_revision c = elim c.target_union [ target_mod_revision r ↦ r | _ ↦ 0 ]

abbrev pub get_version : Compare → ℤ
get_version c = elim c.target_union [ target_version v ↦ v | _ ↦ pos 0 ]

pub record PutRequest : Type 0 where
  pub key : Bytes
  pub value : Bytes
  pub lease : ℕ
  pub prev_kv : Bool
  pub ignore_value : Bool
  pub ignore_lease : Bool

-- `sort_order` and `sort_target` are enumerations, with 0 for the default.
pub record RangeRequest : Type 0 where
  pub key : Bytes
  pub range_end : Bytes
  pub limit : ℕ
  pub revision : ℕ
  pub sort_order : ℕ
  pub sort_target : ℕ
  pub serializable : Bool
  pub keys_only : Bool
  pub count_only : Bool
  pub min_mod_revision : ℕ
  pub max_mod_revision : ℕ
  pub min_create_revision : ℕ
  pub max_create_revision : ℕ

pub record DeleteRangeRequest : Type 0 where
  pub key : Bytes
  pub range_end : Bytes
  pub prev_kv : Bool

-- What is in a nested transaction is never read.
pub data RequestOp : Type 0 where
  request_range : RangeRequest → RequestOp
  request_put : PutRequest → RequestOp
  request_delete_range : DeleteRangeRequest → RequestOp
  request_txn : RequestOp

abbrev pub get_request_range : RequestOp → Option RangeRequest
get_request_range op = elim op [ request_range r ↦ some r | _ ↦ none ]

abbrev pub get_request_put : RequestOp → Option PutRequest
get_request_put op = elim op [ request_put r ↦ some r | _ ↦ none ]

abbrev pub get_request_delete_range : RequestOp → Option DeleteRangeRequest
get_request_delete_range op = elim op [ request_delete_range r ↦ some r | _ ↦ none ]

pub record TxnRequest : Type 0 where
  pub compare : List Compare
  pub success : List RequestOp
  pub failure : List RequestOp

-- mvccpb.KeyValue
pub record MvccKeyValue : Type 0 where
  pub key : Bytes
  pub create_revision : ℕ
  pub mod_revision : ℕ
  pub version : ℤ
  pub value : Bytes
  pub lease : ℕ

-- A header is its revision.
pub data ResponseOp : Type 0 where
  response_put : ℕ → Option MvccKeyValue → ResponseOp
  response_range : ℕ → List MvccKeyValue → ℕ → ResponseOp
  response_delete_range : ℕ → List MvccKeyValue → ℕ → ResponseOp

pub record TxnResponse : Type 0 where
  pub header : ℕ
  pub succeeded : Bool
  pub responses : List ResponseOp

-- A handler that returns nil with each error, and a response otherwise.
pub data Reply {ℓ} (A : Type ℓ) : Type ℓ where
  ok : A → Reply A
  fail : Error → Reply A
