-- ===== src/Ttl/Tracked.antt =====
-- pkg/ttl/ttl.go: what holds after every step of the two loops, in any order.
use kine.Prelude.{
  ℕ, ◌≡◌, refl, sym, subst, ap, ◌∙◌, ◌⊎◌, inl, inr, Bool, true, false, Option, some, ◌∷◌, Bytes,
  str_eq, str_eq→eq, All-map, Among, Bool-cases, if◌then◌else◌, ◌+◌,
}
use kine.Types.{KeyValue}
use kine.Ttl.Store.{Store, Entry, load, save, ttl_of, load-put}
use kine.Ttl.Loops.{
  Queue, Handler, waiting, got, found, expired, deleted, reading, saving, State, version, LoopStep,
  Reached, event, listed, saved, added, by_handler, by_loop, later, here, more,
}
use kine.Ttl.Held.{LawfulQueue, Handles, Adds, Points, Saves, Busy, Tracked}
use kine.Ttl.Handled.{HandlerStep-Tracked}

-- What is found after `save`.
module _ (now : ℕ) (kv : KeyValue) (store : Store) where
  saved_entry : Bool → Bytes → Option Entry
  saved_entry hit k =
      if hit
      then some (record { mod_revision = kv.mod_revision; expired_at = now + ttl_of kv })
      else load store k

  stays :
      (k : Bytes) (e : Entry)
      → str_eq kv.key k ≡ false
      → load (save now kv store) k ≡ some e
      → load store k ≡ some e
  unfolding saved_entry
  stays k e other l =
      subst (λ b. saved_entry b k ≡ some e) other (sym (load-put kv.key k _ store) ∙ l)

  renewed :
      (k : Bytes) (e : Entry)
      → str_eq kv.key k ≡ true
      → load (save now kv store) k ≡ some e
      → kv.mod_revision ≡ e.mod_revision
  unfolding saved_entry
  renewed k e same l =
      cc (subst (λ b. saved_entry b k ≡ some e) same (sym (load-put kv.key k _ store) ∙ l))

  present :
      (k : Bytes)
      → (e : Entry) × (load store k ≡ some e)
      → (e : Entry) × (load (save now kv store) k ≡ some e)
  present k (e, l) = elim (Bool-cases (str_eq kv.key k)) [
    | inl same ↦ (
      record { mod_revision = kv.mod_revision; expired_at = now + ttl_of kv },
      load-put kv.key k _ store ∙ rw same refl,
    )
    | inr other ↦ (e, load-put kv.key k _ store ∙ rw other l)
  ]

  Points-save : (h : Handler) → Points h store → Points h (save now kv store)
  Points-save waiting p = tt
  Points-save (got k) p = tt
  Points-save (found k) p = present k p
  Points-save (expired k) p = present k p
  Points-save (deleted k) p = tt

module _ {Q : Type 0} (q : Queue Q) (lawful : LawfulQueue q) where
  -- a KeyValue that one of the loops has met
  met :
      (y : State Q) (kv : KeyValue)
      → y.looper ≡ reading
      → Tracked q y
      → Tracked q (record y { looper = saving kv; seen = version kv ∷ y.seen })
  met y kv r t = record {
    busy = λ k e l. busy_met k (t.busy k e l);
    entries_seen = λ k e l. inr (t.entries_seen k e l);
    calls_seen = All-map _ _ (λ c w. inr w) y.calls t.calls_seen;
    points = t.points;
    saves = inl refl;
  }
    where
      busy_met : (k : Bytes) → Busy q y k → (q.pending k y.queue ≡ true) ⊎ Handles y.handler k ⊎ ⊥
      busy_met k (inl p) = inl p
      busy_met k (inr (inl w)) = inr (inl w)
      busy_met k (inr (inr a)) = absurd (subst (λ x. Adds x k) r a)

  LoopStep-Tracked : {y z : State Q} → LoopStep q y z → Tracked q y → Tracked q z
  LoopStep-Tracked {y} (event e kv r f n) t = met y kv r t
  LoopStep-Tracked {y} (listed kv r f) t = met y kv r t
  LoopStep-Tracked {y} (saved kv r) t = record {
    busy = λ k e l. elim (Bool-cases (str_eq kv.key k)) [
      | inl same ↦ inr (inr (str_eq→eq kv.key k same))
      | inr other ↦ busy_saved k (t.busy k e (stays y.now kv y.store k e other l))
    ];
    entries_seen = λ k e l. elim (Bool-cases (str_eq kv.key k)) [
      | inl same ↦
          subst (λ p. Among p y.seen)
            (ap (λ x. (x, kv.mod_revision)) (str_eq→eq kv.key k same)
              ∙ ap (λ n. (k, n)) (renewed y.now kv y.store k e same l))
            (subst (λ x. Saves x y.seen) r t.saves)
      | inr other ↦ t.entries_seen k e (stays y.now kv y.store k e other l)
    ];
    calls_seen = t.calls_seen;
    points = Points-save y.now kv y.store y.handler t.points;
    saves = tt;
  }
    where
      busy_saved :
          (k : Bytes)
          → Busy q y k
          → (q.pending k y.queue ≡ true) ⊎ Handles y.handler k ⊎ (kv.key ≡ k)
      busy_saved k (inl p) = inl p
      busy_saved k (inr (inl w)) = inr (inl w)
      busy_saved k (inr (inr a)) = absurd (subst (λ x. Adds x k) r a)
  LoopStep-Tracked {y} (added key d r) t = record {
    busy = λ k e l. busy_added k (t.busy k e l);
    entries_seen = t.entries_seen;
    calls_seen = t.calls_seen;
    points = t.points;
    saves = tt;
  }
    where
      busy_added :
          (k : Bytes)
          → Busy q y k
          → (q.pending k (q.add_after key d y.queue) ≡ true) ⊎ Handles y.handler k ⊎ ⊥
      busy_added k (inl p) = inl (lawful.pending_more k key d y.queue p)
      busy_added k (inr (inl w)) = inr (inl w)
      busy_added k (inr (inr a)) = inl (
          subst (λ x. q.pending x (q.add_after key d y.queue) ≡ true) (subst (λ x. Adds x k) r a)
            (lawful.pending_added key d y.queue))

  -- In whatever order the steps of the watch loop, of the seeding and of `handle` come, every key
  -- in the map is in the queue, or `handle` works on it, or it is about to be added; the entry
  -- that `handle` points to is in the map; and Delete is only called at a revision at which one of
  -- the loops has met the key with a lease, if the queue returns what was added to it.
  pub Reached-Tracked : {queue : Q} {now : ℕ} {y : State Q} → Reached q queue now y → Tracked q y
  Reached-Tracked here = record {
    busy = λ k e l. cc l;
    entries_seen = λ k e l. cc l;
    calls_seen = tt;
    points = tt;
    saves = tt;
  }
  Reached-Tracked (more r (by_handler s)) = HandlerStep-Tracked q lawful s (Reached-Tracked r)
  Reached-Tracked (more r (by_loop s)) = LoopStep-Tracked s (Reached-Tracked r)
  Reached-Tracked (more {y} r (later d e)) =
      let t = Reached-Tracked r in
      subst (Tracked q) (sym e) (record {
        busy = t.busy;
        entries_seen = t.entries_seen;
        calls_seen = t.calls_seen;
        points = t.points;
        saves = t.saves;
      })
