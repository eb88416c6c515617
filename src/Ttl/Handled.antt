-- ===== src/Ttl/Handled.antt =====
-- pkg/ttl/ttl.go: the steps of `handle` keep track of every key in the map.
use kine.Prelude.{
  ℕ, ◌≡◌, sym, subst, ◌∙◌, ◌⊎◌, inl, inr, true, false, none, some, Bytes, str_eq, str_eq→eq,
  str_eq_refl, Bool-cases, if◌then◌else◌, ◌-◌,
}
use kine.Ttl.Store.{Entry, load, remove, load-remove}
use kine.Ttl.Loops.{
  Queue, Handler, waiting, found, expired, deleted, State, HandlerStep, retry_interval, get,
  load_missing, load_found, not_expired, has_expired, delete_failed, delete_done, forget,
}
use kine.Ttl.Held.{LawfulQueue, Handles, Adds, Busy, Tracked}

module _ {Q : Type 0} (q : Queue Q) (lawful : LawfulQueue q) where
  -- What is still to be done for a key, when the queue has only gained keys and `handle` moves on.
  moves_on :
      (y : State Q) (queue : Q) (h h' : Handler)
      → y.handler ≡ h
      → ((k : Bytes) → q.pending k y.queue ≡ true → q.pending k queue ≡ true)
      → ((k : Bytes) → Handles h k → (q.pending k queue ≡ true) ⊎ Handles h' k)
      → (k : Bytes) → Busy q y k
      → (q.pending k queue ≡ true) ⊎ Handles h' k ⊎ Adds y.looper k
  moves_on y queue h h' e grow held k (inl p) = inl (grow k p)
  moves_on y queue h h' e grow held k (inr (inl w)) = elim (held k (subst (λ x. Handles x k) e w)) [
    | inl p ↦ inl p
    | inr w' ↦ inr (inl w')
  ]
  moves_on y queue h h' e grow held k (inr (inr a)) = inr (inr a)

  requeued :
      (key : Bytes) (d : ℕ) (s : Q) (k : Bytes)
      → key ≡ k
      → q.pending k (q.done key (q.add_after key d s)) ≡ true
  requeued key d s k e =
      lawful.pending_done k key (q.add_after key d s)
        (subst (λ x. q.pending x (q.add_after key d s) ≡ true) e (lawful.pending_added key d s))

  kept_pending :
      (key : Bytes) (d : ℕ) (s : Q) (k : Bytes)
      → q.pending k s ≡ true
      → q.pending k (q.done key (q.add_after key d s)) ≡ true
  kept_pending key d s k p =
      lawful.pending_done k key (q.add_after key d s) (lawful.pending_more k key d s p)

  pub HandlerStep-Tracked : {y z : State Q} → HandlerStep q y z → Tracked q y → Tracked q z
  HandlerStep-Tracked {y} (get key h p) t = record {
    busy = λ k e l. elim (Bool-cases (str_eq key k)) [
      | inl same ↦ inr (inl (str_eq→eq key k same))
      | inr other ↦ after_get k other (t.busy k e l)
    ];
    entries_seen = t.entries_seen;
    calls_seen = t.calls_seen;
    points = tt;
    saves = t.saves;
  }
    where
      after_get :
          (k : Bytes)
          → str_eq key k ≡ false
          → Busy q y k
          → (q.pending k (q.taken key y.queue) ≡ true) ⊎ (key ≡ k) ⊎ Adds y.looper k
      after_get k other (inl p) = inl (lawful.pending_taken k key y.queue other p)
      after_get k other (inr (inl w)) = absurd (subst (λ x. Handles x k) h w)
      after_get k other (inr (inr a)) = inr (inr a)
  HandlerStep-Tracked {y} (load_missing key h l0) t = record {
    busy = λ k e l. moves_on_missing k e l (t.busy k e l);
    entries_seen = t.entries_seen;
    calls_seen = t.calls_seen;
    points = tt;
    saves = t.saves;
  }
    where
      moves_on_missing :
          (k : Bytes) (e : Entry)
          → load y.store k ≡ some e
          → Busy q y k
          → (q.pending k (q.done key y.queue) ≡ true) ⊎ ⊥ ⊎ Adds y.looper k
      moves_on_missing k e l (inl p) = inl (lawful.pending_done k key y.queue p)
      moves_on_missing k e l (inr (inl w)) = absurd (cc (l, l0, subst (λ x. Handles x k) h w))
      moves_on_missing k e l (inr (inr a)) = inr (inr a)
  HandlerStep-Tracked {y} (load_found key e0 h l0) t = record {
    busy = λ k e l. moves_on y y.queue _ (found key) h (λ k p. p) (λ k w. inr w) k (t.busy k e l);
    entries_seen = t.entries_seen;
    calls_seen = t.calls_seen;
    points = (e0, l0);
    saves = t.saves;
  }
  HandlerStep-Tracked {y} (not_expired key e0 h l0 lt) t = record {
    busy = λ k e l.
        moves_on y _ _ waiting h (kept_pending key (e0.expired_at - y.now) y.queue)
          (λ k w. inl (requeued key (e0.expired_at - y.now) y.queue k w)) k (t.busy k e l);
    entries_seen = t.entries_seen;
    calls_seen = t.calls_seen;
    points = tt;
    saves = t.saves;
  }
  HandlerStep-Tracked {y} (has_expired key e0 h l0 lt) t = record {
    busy = λ k e l. moves_on y y.queue _ (expired key) h (λ k p. p) (λ k w. inr w) k (t.busy k e l);
    entries_seen = t.entries_seen;
    calls_seen = t.calls_seen;
    points = (e0, l0);
    saves = t.saves;
  }
  HandlerStep-Tracked {y} (delete_failed key e0 h l0) t = record {
    busy = λ k e l.
        moves_on y _ _ waiting h (kept_pending key retry_interval y.queue)
          (λ k w. inl (requeued key retry_interval y.queue k w)) k (t.busy k e l);
    entries_seen = t.entries_seen;
    calls_seen = (t.entries_seen key e0 l0, t.calls_seen);
    points = tt;
    saves = t.saves;
  }
  HandlerStep-Tracked {y} (delete_done key e0 h l0) t = record {
    busy = λ k e l. moves_on y y.queue _ (deleted key) h (λ k p. p) (λ k w. inr w) k (t.busy k e l);
    entries_seen = t.entries_seen;
    calls_seen = (t.entries_seen key e0 l0, t.calls_seen);
    points = tt;
    saves = t.saves;
  }
  HandlerStep-Tracked {y} (forget key h) t = record {
    busy = λ k e l. after_forget k e (still k e l) (t.busy k e (still k e l).1);
    entries_seen = λ k e l. t.entries_seen k e (still k e l).1;
    calls_seen = t.calls_seen;
    points = tt;
    saves = t.saves;
  }
    where
      still :
          (k : Bytes) (e : Entry)
          → load (remove key y.store) k ≡ some e
          → (str_eq key k ≡ false) × (load y.store k ≡ some e)
      still k e l = elim (Bool-cases (str_eq key k)) [
        | inl same ↦ absurd (cc (l, load-remove key k y.store, same))
        | inr other ↦ (
          other,
          subst (λ b. (if b then none else load y.store k) ≡ some e) other
              (sym (load-remove key k y.store) ∙ l),
        )
      ]

      after_forget :
          (k : Bytes) (e : Entry)
          → (str_eq key k ≡ false) × (load y.store k ≡ some e)
          → Busy q y k
          → (q.pending k (q.done key y.queue) ≡ true) ⊎ ⊥ ⊎ Adds y.looper k
      after_forget k e l (inl p) = inl (lawful.pending_done k key y.queue p)
      after_forget k e l (inr (inl w)) =
          absurd (cc (l.0, str_eq_refl k, subst (λ x. Handles x k) h w))
      after_forget k e l (inr (inr a)) = inr (inr a)
