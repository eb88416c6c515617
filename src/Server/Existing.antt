-- ===== src/Server/Existing.antt =====
-- The writes of the in-memory backend at a key that is there, as Put of pkg/server/put.go and the
-- compact transaction of pkg/server/compact.go meet them.
use kine.Prelude.{
  ℕ, ◌+◌, ◌≡◌, refl, ap, ◌∙◌, true, false, Option, none, some, List, [], Bytes, ◌==◌, if◌then◌else◌,
  arith, ℤ, pos, negsuc, IsInt64, int_eq, int64_suc, int64_bound, ==_iff, if_cases, str_eq_refl,
}
use mathlib.Core.Option
use kine.Types.{KeyValue, key_exists}
use kine.Memory.Tree.{OrderedMap}
use kine.Memory.Entry.{Entry, live, to_key_value, listed_kv}
use kine.Memory.State.{Memory, latest}
use kine.Memory.Invariant.{Inv}
use kine.Memory.Writes
use kine.Memory.Reads
use kine.Memory.Lookup.{get-eq-answer_kv}
use kine.Memory.Refinement.{view, next_kv, put, spec_update, update-Refines}
use kine.Server.Request.{PutRequest, ok}
use kine.Server.Backend.{memory_backend}
use kine.Server.Convert.{to_kv}
use kine.Server.TxnRefinement.{get-current}
use kine.Server.Range
use kine.Server.Txn
use kine.Server.Version.{
  compact_rev_api, decode_version, encode_version, decode_version-encode_version,
}

module _ (bt : OrderedMap (List Entry)) where
  -- The entry of a KeyValue that is there.
  found :
      (m : Memory bt) (key : Bytes) (kv : KeyValue)
      → (view bt m).at key ≡ some kv
      → (x : Entry) × (live (latest bt m key) ≡ some x) × (to_key_value x ≡ kv)
  unfolding to_key_value
  found m key kv e = go (live (latest bt m key)) e
    where
      go :
          (o : Option Entry)
          → elim o [ none ↦ none | some e ↦ some (listed_kv false e) ] ≡ some kv
          → (x : Entry) × (o ≡ some x) × (to_key_value x ≡ kv)
      go none z = absurd (ground (arith, z))
      go (some x) z = (x, refl, cc)

  create_found :
      (m : Memory bt) (key value : Bytes) (lease : ℕ) (kv : KeyValue)
      → (view bt m).at key ≡ some kv
      → Writes.create bt key value lease m ≡ ((m.current_revision, some key_exists), m)
  unfolding Writes.create
  create_found m key value lease kv e =
      let (x, l, _) = found m key kv e in rw (Writes.create, l) refl

  update_stale :
      (m : Memory bt) (key value : Bytes) (revision lease : ℕ) (kv : KeyValue)
      → (view bt m).at key ≡ some kv
      → (kv.mod_revision == revision) ≡ false
      → Writes.update bt key value revision lease m
        ≡ ((m.current_revision, some kv, false, none), m)
  unfolding Writes.update to_key_value
  update_stale m key value revision lease kv e stale =
      let (x, l, k) = found m key kv e in
      let miss : (x.revision == revision) ≡ false =
        ap (λ y. y.mod_revision == revision) k ∙ stale in
      rw (Writes.update, l, miss) (ap (λ y. ((m.current_revision, some y, false, none), m)) k)

  -- In a state of the in-memory backend with the invariant, `Put` of a key that is live at a mod
  -- revision other than the current revision, without the options that are refused, returns the
  -- current revision and no error, and leaves the state unchanged.
  pub put-stale :
      (n : ℕ) (r : PutRequest) (m : Memory bt) (kv : KeyValue)
      → Inv bt n m
      → r.ignore_value ≡ false
      → r.ignore_lease ≡ false
      → (view bt m).at (Range.redirected r.key) ≡ some kv
      → (kv.mod_revision == m.current_revision) ≡ false
      → Range.put (memory_backend bt) r m ≡ (
        (
          some (record {
            header = m.current_revision;
            prev_kv = if r.prev_kv then some (to_kv kv) else none;
          }),
          none,
        ),
        m,
      )
  unfolding Range.put to_kv
  put-stale n r m kv v nv nl e stale =
      let key = Range.redirected r.key in
      rw
        (
          nv,
          nl,
          create_found m key r.value r.lease kv e,
          get-current bt n m key v,
          e,
          update_stale m key r.value m.current_revision r.lease kv e stale,
        )
        refl

int_eq_refl : (v : ℤ) → int_eq v v ≡ true
int_eq_refl (pos n) = ground arith
int_eq_refl (negsuc n) = ground arith

IsInt64-int64_suc : (v : ℤ) → IsInt64 v → IsInt64 (int64_suc v)
IsInt64-int64_suc (pos n) h =
    if_cases IsInt64 (n + 1 == int64_bound) _ _ (λ _. h) (λ ne. ground (arith, h, ne))
IsInt64-int64_suc (negsuc n) h =
    if_cases IsInt64 (n == 0) _ _ (λ _. omega arith) (λ ne. omega (arith, h))

module _ (bt : OrderedMap (List Entry)) where
  update_fresh :
      (m : Memory bt) (key value : Bytes) (lease : ℕ) (kv : KeyValue)
      → (view bt m).at key ≡ some kv
      → ((Writes.update bt key value kv.mod_revision lease m).0 ≡ (
        m.current_revision + 1,
        some (next_kv (m.current_revision + 1) key value lease kv),
        true,
        none,
      ))
        × ((view bt (Writes.update bt key value kv.mod_revision lease m).1).at key
            ≡ some (next_kv (m.current_revision + 1) key value lease kv))
  update_fresh m key value lease kv e =
      let u = update-Refines bt key value kv.mod_revision lease m in
      let spec : spec_update key value kv.mod_revision lease (view bt m) ≡ (
        (
          m.current_revision + 1,
          some (next_kv (m.current_revision + 1) key value lease kv),
          true,
          none,
        ),
        put key (some (next_kv (m.current_revision + 1) key value lease kv)) (view bt m),
      ) =
        rw (spec_update, e, (==_iff kv.mod_revision kv.mod_revision).1 refl) refl in
      (
        u.result ∙ ap (λ p. p.0) spec,
        ap (λ v. v.at key) (u.state ∙ ap (λ p. p.1) spec) ∙ rw (str_eq_refl key) refl,
      )

  get-zero :
      (m : Memory bt) (key : Bytes)
      → Reads.get bt key 0 false m ≡ (m.current_revision, (view bt m).at key, none)
  unfolding Reads.read
  get-zero m key = get-eq-answer_kv bt key 0 false m

  -- In a state of the in-memory backend with the invariant, a compact transaction whose version is
  -- an int64, not 0, and the one stored under the substitute key succeeds at the next revision,
  -- and then the version after it (wrapping around) is stored with the value of the request.
  pub compact-stored :
      (n : ℕ) (m : Memory bt) (value : Bytes) (kv : KeyValue) (version : ℤ)
      → Inv bt n m
      → (view bt m).at compact_rev_api ≡ some kv
      → (decode_version kv.value).0 ≡ version
      → IsInt64 version
      → int_eq version (pos 0) ≡ false
      → ((Txn.compact (memory_backend bt) version value m).0
          ≡ ok (record { header = m.current_revision + 1; succeeded = true; responses = [] }))
        × (Option.map
              (λ k. decode_version k.value)
              ((view bt (Txn.compact (memory_backend bt) version value m).1).at compact_rev_api)
            ≡ some (int64_suc version, value))
  unfolding Txn.compact Txn.compact_write
  compact-stored n m value kv version v e d i nz =
      let new_value = encode_version (int64_suc version) value in
      let (made, stored) = update_fresh m compact_rev_api new_value 0 kv e in
      let updated : ((memory_backend bt).update compact_rev_api new_value kv.mod_revision 0 m).0 ≡ (
        m.current_revision + 1,
        some (next_kv (m.current_revision + 1) compact_rev_api new_value 0 kv),
        true,
        none,
      ) =
        made in
      let run : Txn.compact (memory_backend bt) version value m ≡ (
        ok (record { header = m.current_revision + 1; succeeded = true; responses = [] }),
        (Writes.update bt compact_rev_api new_value kv.mod_revision 0 m).1,
      ) =
        rw (get-zero m compact_rev_api, e, d, int_eq_refl version, nz, made) refl in
      (
        ap (λ p. p.0) run,
        ap (λ p. Option.map (λ k. decode_version k.value) ((view bt p.1).at compact_rev_api)) run
            ∙ ap (Option.map (λ k. decode_version k.value)) stored
            ∙ ap some (
                decode_version-encode_version (int64_suc version) value
                  (IsInt64-int64_suc version i)),
      )
