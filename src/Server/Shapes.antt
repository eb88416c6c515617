-- ===== src/Server/Shapes.antt =====
-- pkg/server/create.go, delete.go, update.go and compact.go: the transactions that are recognised.
use kine.Prelude.{
  ℕ, Bool, true, false, ◌&&◌, Option, none, some, List, [], ◌∷◌, Bytes, str_eq, ◌==◌, if◌then◌else◌,
  ℤ,
}
use kine.Server.Version.{compact_rev_key}
use kine.Server.Request.{
  Compare, compare_mod, compare_version, compare_equal, get_mod_revision, get_version, PutRequest,
  RequestOp, get_request_range, get_request_put, get_request_delete_range, TxnRequest,
}

abbrev pub is_mod_equal : Compare → Bool
is_mod_equal c =
    elim c.target [ compare_mod ↦ true | _ ↦ false ]
    && elim c.result [ compare_equal ↦ true | _ ↦ false ]

abbrev pub is_version_equal : Compare → Bool
is_version_equal c =
    elim c.target [ compare_version ↦ true | _ ↦ false ]
    && elim c.result [ compare_equal ↦ true | _ ↦ false ]

-- `x`, if both tests for nil pass
abbrev pub both {ℓ κ μ} :
    {A : Type ℓ} {B : Type κ} {C : Type μ} → Option A → Option B → (A → B → Option C) → Option C
both none b f = none
both (some a) none f = none
both (some a) (some b) f = f a b

abbrev pub create_shape : List Compare → List RequestOp → List RequestOp → Option PutRequest
create_shape (c ∷ []) (op ∷ []) [] =
    if is_mod_equal c && (get_mod_revision c == 0) then get_request_put op else none
create_shape _ _ _ = none

unfoldable pub is_create : TxnRequest → Option PutRequest
is_create txn = create_shape txn.compare txn.success txn.failure

abbrev pub delete_shape : List Compare → List RequestOp → List RequestOp → Option (ℕ × Bytes)
delete_shape [] (op ∷ op' ∷ []) [] =
    both (get_request_range op) (get_request_delete_range op') (λ _ rng. some (0, rng.key))
delete_shape (c ∷ []) (op ∷ []) (op' ∷ []) =
    if is_mod_equal c
    then both (get_request_range op') (get_request_delete_range op)
        (λ _ rng. some (get_mod_revision c, rng.key))
    else none
delete_shape _ _ _ = none

unfoldable pub is_delete : TxnRequest → Option (ℕ × Bytes)
is_delete txn = delete_shape txn.compare txn.success txn.failure

abbrev pub update_shape :
    List Compare → List RequestOp → List RequestOp → Option (ℕ × Bytes × Bytes × ℕ)
update_shape (c ∷ []) (op ∷ []) (op' ∷ []) =
    if is_mod_equal c
    then both (get_request_put op) (get_request_range op')
        (λ put _. some (get_mod_revision c, c.key, put.value, put.lease))
    else none
update_shape _ _ _ = none

unfoldable pub is_update : TxnRequest → Option (ℕ × Bytes × Bytes × ℕ)
is_update txn = update_shape txn.compare txn.success txn.failure

abbrev pub compact_shape : List Compare → List RequestOp → List RequestOp → Option (ℤ × Bytes)
compact_shape (c ∷ []) (op ∷ []) (op' ∷ []) =
    if is_version_equal c && str_eq c.key compact_rev_key
    then both (get_request_put op) (get_request_range op')
        (λ put _. some (get_version c, put.value))
    else none
compact_shape _ _ _ = none

unfoldable pub is_compact : TxnRequest → Option (ℤ × Bytes)
is_compact txn = compact_shape txn.compare txn.success txn.failure
