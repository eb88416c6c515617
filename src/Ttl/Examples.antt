-- ===== src/Ttl/Examples.antt =====
-- The theorem about pkg/ttl/ttl.go at a concrete queue and run, and a run of the two loops that
-- deletes a key that was renewed.
use kine.Prelude.{
  ℕ, ◌≡◌, refl, inl, inr, Bool, true, false, none, some, List, [], ◌∷◌, Bytes, codes, str_eq,
  str_eq_refl, if◌then◌else◌, Bool-cases, subst, sym, str_eq→eq,
}
use kine.Types.{KeyValue, Event}
use kine.Ttl.Store.{leased, is_newer}
use kine.Ttl.Loops.{
  Queue, State, waiting, reading, adding, expired, deleted, Reached, here, more, by_handler,
  by_loop, later, get, load_found, has_expired, delete_done, forget, load_missing, event, saved,
  added,
}
use kine.Ttl.Held.{LawfulQueue, Tracked}
use kine.Ttl.Tracked.{Reached-Tracked}

abbrev has : Bytes → List Bytes → Bool
has k [] = false
has k (x ∷ xs) = let rest = has k xs in if str_eq x k then true else rest

abbrev without : Bytes → List Bytes → List Bytes
without k [] = []
without k (x ∷ xs) = let rest = without k xs in if str_eq x k then rest else x ∷ rest

-- the keys that wait, in any order
abbrev keys : Queue (List Bytes)
keys = record { add_after = λ k d s. k ∷ s; taken = without; done = λ k s. s; pending = has }

has-without :
    (k key : Bytes) (s : List Bytes)
    → str_eq key k ≡ false
    → has k s ≡ true
    → has k (without key s) ≡ true
has-without k key [] other h = h
has-without k key (x ∷ xs) other h = elim (Bool-cases (str_eq x key)) [
  | inl same ↦ rw same (
      has-without k key xs other (
        subst (λ b. (if b then true else has k xs) ≡ true)
          (subst (λ y. str_eq y k ≡ false) (sym (str_eq→eq x key same)) other) h))
  | inr differ ↦ rw differ (elim (Bool-cases (str_eq x k)) [
    | inl hit ↦ rw hit refl
    | inr miss ↦
        rw miss
          (has-without k key xs other (subst (λ b. (if b then true else has k xs) ≡ true) miss h))
  ])
]

keys-LawfulQueue : LawfulQueue keys
keys-LawfulQueue = record {
  pending_added = λ k d s. rw (str_eq_refl k) refl;
  pending_more = λ k key d s p. elim (Bool-cases (str_eq key k)) [
    | inl hit ↦ rw hit refl
    | inr miss ↦ rw miss p
  ];
  pending_taken = λ k key s other p. has-without k key s other p;
  pending_done = λ k key s p. p;
}

abbrev kv_at : ℕ → KeyValue
kv_at rev = record {
  key = codes "/a";
  value = [];
  version = 1;
  create_revision = 1;
  mod_revision = rev;
  lease = 5;
}

abbrev event_at : ℕ → Event
event_at rev = record { delete = false; create = false; kv = some (kv_at rev); prev_kv = none }

-- five seconds after the lease of revision 1, `handle` has found it elapsed
abbrev elapsed : State (List Bytes)
elapsed = record {
  store = (codes "/a", record { mod_revision = 1; expired_at = 5000000000 }) ∷ [];
  queue = [];
  handler = expired (codes "/a");
  looper = reading;
  now = 5000000000;
  seen = (codes "/a", 1) ∷ [];
  calls = [];
}

elapsed-Reached : Reached keys [] 0 elapsed
unfolding leased is_newer
elapsed-Reached =
    more
      (more
        (more
          (more
            (more
              (more (more here (by_loop (event (event_at 1) (kv_at 1) refl refl refl)))
                (by_loop (saved (kv_at 1) refl)))
              (by_loop (added (codes "/a") 5000000000 refl)))
            (later 5000000000 refl))
          (by_handler (get (codes "/a") refl refl)))
        (by_handler (
          load_found (codes "/a") (record { mod_revision = 1; expired_at = 5000000000 }) refl
            refl)))
      (by_handler (
        has_expired (codes "/a") (record { mod_revision = 1; expired_at = 5000000000 }) refl refl
          refl))

Reached-Tracked_example : Tracked keys elapsed
Reached-Tracked_example = Reached-Tracked keys keys-LawfulQueue elapsed-Reached

-- The lease is renewed at revision 2 before the call of Delete: the call is at revision 2, five seconds
-- before the new lease elapses.
abbrev renewed : State (List Bytes)
renewed = record {
  store = (codes "/a", record { mod_revision = 2; expired_at = 10000000000 }) ∷ [];
  queue = [];
  handler = deleted (codes "/a");
  looper = adding (codes "/a") 5000000000;
  now = 5000000000;
  seen = (codes "/a", 2) ∷ (codes "/a", 1) ∷ [];
  calls = (codes "/a", 2) ∷ [];
}

renewed-Reached : Reached keys [] 0 renewed
unfolding leased is_newer
renewed-Reached =
    more
      (more (more elapsed-Reached (by_loop (event (event_at 2) (kv_at 2) refl refl refl)))
        (by_loop (saved (kv_at 2) refl)))
      (by_handler (
        delete_done (codes "/a") (record { mod_revision = 2; expired_at = 10000000000 }) refl refl))

-- The lease is renewed after the call of Delete at revision 1, which changes nothing then: `handle` takes
-- the new entry out of the map, and when its key is returned again there is none. The key stays.
abbrev forgotten : State (List Bytes)
forgotten = record {
  store = [];
  queue = [];
  handler = waiting;
  looper = reading;
  now = 5000000000;
  seen = (codes "/a", 2) ∷ (codes "/a", 1) ∷ [];
  calls = (codes "/a", 1) ∷ [];
}

forgotten-Reached : Reached keys [] 0 forgotten
unfolding leased is_newer
forgotten-Reached =
    more
      (more
        (more
          (more
            (more
              (more
                (more elapsed-Reached (
                  by_handler (
                    delete_done (codes "/a") (record { mod_revision = 1; expired_at = 5000000000 })
                      refl refl)))
                (by_loop (event (event_at 2) (kv_at 2) refl refl refl)))
              (by_loop (saved (kv_at 2) refl)))
            (by_handler (forget (codes "/a") refl)))
          (by_loop (added (codes "/a") 5000000000 refl)))
        (by_handler (get (codes "/a") refl refl)))
      (by_handler (load_missing (codes "/a") refl refl))
