-- ===== src/Server/TxnRefinement.antt =====
-- Txn of pkg/server/limited.go over the in-memory backend against what etcd does for the same
-- transaction.
use kine.Prelude.{
  subst, ℕ, ◌+◌, ◌<◌, ◌≡◌, refl, ap, sym, ◌∙◌, inl, inr, true, false, Option, none, some, List, [],
  ◌∷◌, Bytes, ◌==◌, arith, Bool-cases, Option-cases, ==_iff, All, All-get_last?,
}
use kine.Types.{KeyValue, key_exists}
use kine.Memory.Tree.{OrderedMap}
use kine.Memory.Entry.{Entry, live, to_key_value, listed_kv}
use kine.Memory.State.{Memory, history, latest}
use kine.Memory.History.{Rising}
use kine.Memory.Invariant.{Inv}
use kine.Memory.Reads.{read, get}
use kine.Memory.Listing.{shown_kv}
use kine.Memory.Lookup.{answer_kv, get-eq-answer_kv, read-current}
use kine.Memory.Refinement.{
  View, view, Refines, spec_create, create-Refines, update-Refines, delete-Refines,
}
use kine.Memory.Writes
use kine.Server.Request.{PutRequest, RangeRequest, DeleteRangeRequest, TxnResponse, Reply, ok}
use kine.Server.Backend.{memory_backend}
use kine.Server.Txn.{
  txn, create, update, update_call, after_create, delete, create_reply, update_reply, delete_reply,
}
use kine.Server.Shapes.{is_create, is_update, is_delete}
use kine.Server.Etcd.{
  create_txn, update_txn, delete_txn, mod_revision_at, etcd_create_txn, etcd_update_txn,
  etcd_delete_txn, IsPlainPut, IsPlainRange,
}
use kine.Server.Plain.{
  plain_update_txn, plain_range, create_txn-plain, update_txn-plain, delete_txn-plain, with_prev_kv,
}
use kine.Server.TxnSpecs.{
  Positive, create_txn_lem, delete_txn_lem, update_txn_lem, update_missing_lem, seen,
}

module _ (bt : OrderedMap (List Entry)) where
  -- A reply and a state of the handler, and those of etcd.
  abbrev pub Serves : Reply TxnResponse × Memory bt → TxnResponse × View → Type 0
  Serves actual spec = Refines bt actual (ok spec.0, spec.1)

  Rising-Positive :
      (lo hi : ℕ) (hist : List Entry) → Rising lo hi hist → All (λ e. 0 < e.revision) hist
  Rising-Positive lo hi [] r = tt
  Rising-Positive lo hi (e ∷ hist) r = (omega (arith, r.0), Rising-Positive e.revision hi hist r.2)

  shown_kv-positive :
      (o : Option Entry) (kv : KeyValue)
      → ((e : Entry) → o ≡ some e → 0 < e.revision)
      → shown_kv false o ≡ some kv
      → 0 < kv.mod_revision
  unfolding to_key_value
  shown_kv-positive none kv h e = absurd (ground (arith, e))
  shown_kv-positive (some x) kv h e = ground (arith, e, h x refl)

  view-Positive : (n : ℕ) (m : Memory bt) (key : Bytes) → Inv bt n m → Positive (view bt m) key
  unfolding latest
  view-Positive n m key v kv e =
      shown_kv-positive (latest bt m key) kv
        (λ x z.
          All-get_last? (λ e. 0 < e.revision) (history bt m key) x
            (Rising-Positive 0 m.current_revision (history bt m key) (v.rising key)) z)
        e

  -- In a state of the in-memory backend with the invariant, the transaction `if the mod revision
  -- of the key is 0 then put it`, without the options that are refused, gets the response that
  -- etcd gives for it, and leaves the abstract store that etcd leaves.
  pub txn-create :
      (n : ℕ) (r : PutRequest) (m : Memory bt)
      → Inv bt n m
      → r.ignore_lease ≡ false
      → r.ignore_value ≡ false
      → r.prev_kv ≡ false
      → Serves (txn (memory_backend bt) (create_txn r) m) (etcd_create_txn r (view bt m))
  unfolding txn create is_create
  txn-create n r m v nl nv np =
      let c = create-Refines bt r.key r.value r.lease m in
      let l = create_txn_lem r (view bt m) (view-Positive n m r.key v) in
      subst (Serves (txn (memory_backend bt) (create_txn r) m))
        (sym (
          create_txn-plain r (view bt m)
            (record { prev_kv = np; ignore_value = nv; ignore_lease = nl })))
        (rw (nl, nv, np)
          (record {
            result = ap (λ x. create_reply x.0 x.1) c.result ∙ l.0;
            state = c.state ∙ l.1;
          }))

  -- The transaction `if the mod revision of the key is r then delete it, else read it`, for
  -- positive r, a delete of one key and a range of that key alone, at the current revision and
  -- without options, over any state of the in-memory backend gets the response that etcd gives for
  -- it if it asks for the previous KeyValue, also if it does not, and leaves the abstract store
  -- that etcd leaves.
  pub txn-delete :
      (revision : ℕ) (r : DeleteRangeRequest) (rng : RangeRequest) (m : Memory bt)
      → 0 < revision
      → r.range_end ≡ []
      → IsPlainRange r.key rng
      → Serves
          (txn (memory_backend bt) (delete_txn revision r rng) m)
          (etcd_delete_txn revision (with_prev_kv r) rng (view bt m))
  unfolding txn delete is_create is_delete
  txn-delete revision r rng m p one plain =
      let d = delete-Refines bt r.key revision m in
      let l = delete_txn_lem revision r (view bt m) p in
      subst (Serves (txn (memory_backend bt) (delete_txn revision r rng) m))
        (sym (delete_txn-plain revision r rng (view bt m) plain))
        (record { result = ap delete_reply d.result ∙ l.0; state = d.state ∙ l.1 })

  create_present :
      (key value : Bytes) (lease : ℕ) (m : Memory bt) (x : Entry)
      → live (latest bt m key) ≡ some x
      → Writes.create bt key value lease m ≡ ((m.current_revision, some key_exists), m)
  unfolding Writes.create
  create_present key value lease m x e = rw (e, Writes.create) refl

  pub get-current :
      (n : ℕ) (m : Memory bt) (key : Bytes)
      → Inv bt n m
      → get bt key m.current_revision false m ≡ (m.current_revision, (view bt m).at key, none)
  unfolding read
  get-current n m key v =
      get-eq-answer_kv bt key m.current_revision false m
      ∙ ap
          (λ o.
            answer_kv m.current_revision m.current_revision m.compact_revision (shown_kv false o))
          (read-current bt n m key v)
      ∙ ground (arith, v.compact_at)

  update_call-missing :
      (r : PutRequest) (m : Memory bt)
      → (view bt m).at r.key ≡ none
      → Serves
          (
            update_reply
                (after_create
                  (memory_backend bt)
                  r.key
                  (Writes.create bt r.key r.value r.lease m)).0,
            (after_create (memory_backend bt) r.key (Writes.create bt r.key r.value r.lease m)).1,
          )
          (plain_update_txn 0 r (view bt m))
  update_call-missing r m missing =
      let c = create-Refines bt r.key r.value r.lease m in
      let made : (Writes.create bt r.key r.value r.lease m).0 ≡ (m.current_revision + 1, none) =
        c.result ∙ rw (spec_create, missing) refl in
      let after : after_create (memory_backend bt) r.key (Writes.create bt r.key r.value r.lease m)
          ≡ (
            (m.current_revision + 1, none, true, none),
            (Writes.create bt r.key r.value r.lease m).1,
          ) =
        ap
          (λ p.
            after_create (memory_backend bt) r.key
              (p, (Writes.create bt r.key r.value r.lease m).1))
          made in
      let spec = update_missing_lem r (view bt m) missing in
      record {
        result = ap (λ p. update_reply p.0) after ∙ spec.0;
        state = ap (λ p. view bt p.1) after ∙ c.state ∙ spec.1;
      }

  update_call-present :
      (n : ℕ) (r : PutRequest) (m : Memory bt) (x : Entry) (kv : KeyValue)
      → Inv bt n m
      → live (latest bt m r.key) ≡ some x
      → (view bt m).at r.key ≡ some kv
      → Serves
          (
            update_reply
                (after_create
                  (memory_backend bt)
                  r.key
                  (Writes.create bt r.key r.value r.lease m)).0,
            (after_create (memory_backend bt) r.key (Writes.create bt r.key r.value r.lease m)).1,
          )
          (plain_update_txn 0 r (view bt m))
  update_call-present n r m x kv v e seen =
      let ne : (kv.mod_revision == 0) ≡ false = ground (arith, view-Positive n m r.key v kv seen) in
      let spec : plain_update_txn 0 r (view bt m) ≡ plain_range r.key (view bt m) =
        rw (plain_update_txn, mod_revision_at, seen, ne) refl in
      rw (create_present r.key r.value r.lease m x e, get-current n m r.key v)
        (record { result = ap (λ p. ok p.0) (sym spec); state = ap (λ p. p.1) (sym spec) })

  txn-plain :
      (n : ℕ) (revision : ℕ) (r : PutRequest) (rng : RangeRequest) (m : Memory bt)
      → Inv bt n m
      → Serves
          (txn (memory_backend bt) (update_txn revision r rng) m)
          (plain_update_txn revision r (view bt m))
  unfolding txn update update_call is_create is_delete is_update seen
  txn-plain n revision r rng m v = elim (Bool-cases (revision == 0)) [
    | inl zero ↦ rw ((==_iff revision 0).0 zero) (elim (Option-cases (live (latest bt m r.key))) [
      | inl e ↦ update_call-missing r m (ap seen e)
      | inr (x, e) ↦ update_call-present n r m x (listed_kv false x) v e (ap seen e)
    ])
    | inr pos ↦
        let u = update-Refines bt r.key r.value revision r.lease m in
        let l = update_txn_lem revision r (view bt m) (ground (arith, pos)) in
        rw pos (record { result = ap update_reply u.result ∙ l.0; state = u.state ∙ l.1 })
  ]

  -- In a state of the in-memory backend with the invariant, the transaction `if the mod revision
  -- of the key is r then put it, else read it`, with a put whose options are off and a range of
  -- that key alone, at the current revision and without options, gets the response that etcd gives
  -- for it (with r = 0 for a key that is not there), and leaves the abstract store that etcd
  -- leaves.
  pub txn-update :
      (n : ℕ) (revision : ℕ) (r : PutRequest) (rng : RangeRequest) (m : Memory bt)
      → Inv bt n m
      → IsPlainPut r
      → IsPlainRange r.key rng
      → Serves
          (txn (memory_backend bt) (update_txn revision r rng) m)
          (etcd_update_txn revision r rng (view bt m))
  txn-update n revision r rng m v p q =
      subst (Serves (txn (memory_backend bt) (update_txn revision r rng) m))
        (sym (update_txn-plain revision r rng (view bt m) p q)) (txn-plain n revision r rng m v)
