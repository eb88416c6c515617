-- ===== src/Server/WatchCancel.antt =====
-- The cancel responses of a watch stream of pkg/server/watch.go.
use kine.Prelude.{
  ℕ, ◌+◌, ◌≤◌, ◌≡◌, refl, sym, ap, ◌∙◌, inl, inr, Bool, true, false, not, ◌&&◌, Option, none, some,
  List, [], ◌∷◌, ◌++◌, ltb, leb, ◌==◌, if◌then◌else◌, arith, Bool-cases, if_cases, ==_iff, ℤ, pos,
  negsuc, int_eq,
}
use kine.Types.{Error, invalid_watch, compacted}
use kine.Server.Watch.{
  WatchResponse, WatchCreateRequest, Watching, Stream, send, cancel, cancel_early, cancel_response,
  remove, contains, remove_watch, create, create_at, watch_start, watch_round, is_sent, close,
  progress, progress_all, all_synced,
}
use kine.Server.WatchSteps.{
  Step, creates, starts, reads, cancels, closes, asks, broadcasts, others, Reachable, start, next,
}

abbrev pub bit : Bool → ℕ
bit true = 1
bit false = 0

-- the cancel responses for the watch `id`
abbrev is_cancel : ℕ → WatchResponse → Bool
is_cancel id wr = wr.canceled && int_eq wr.watch_id (pos id)

abbrev pub canceled : ℕ → List WatchResponse → ℕ
canceled id [] = 0
canceled id (wr ∷ rs) = canceled id rs + bit (is_cancel id wr)

canceled-append :
    (id : ℕ) (rs : List WatchResponse) (x : WatchResponse)
    → canceled id (rs ++ x ∷ []) ≡ canceled id rs + bit (is_cancel id x)
canceled-append id [] x = refl
canceled-append id (y ∷ rs) x = omega (arith, canceled-append id rs x)

-- What is counted does not depend on the header.
canceled-send :
    (id : ℕ) (wr : WatchResponse) (w : Stream)
    → canceled id (send wr w).sent ≡ canceled id w.sent + bit (is_cancel id wr)
unfolding send
canceled-send id wr w =
    if_cases {A = Stream} (λ s. canceled id s.sent ≡ canceled id w.sent + bit (is_cancel id wr))
      (ltb 0 wr.header) _ _
      (λ _.
        if_cases {A = Stream} (λ s. canceled id s.sent ≡ canceled id w.sent + bit (is_cancel id wr))
          (ltb w.max_revision wr.header) _ _ (λ _. canceled-append id w.sent wr)
          (λ _. canceled-append id w.sent _))
      (λ _. canceled-append id w.sent wr)

send-watches :
    (wr : WatchResponse) (w : Stream)
    → ((send wr w).watches ≡ w.watches) × ((send wr w).next_id ≡ w.next_id)
unfolding send
send-watches wr w =
    if_cases {A = Stream} (λ s. (s.watches ≡ w.watches) × (s.next_id ≡ w.next_id)) (ltb 0 wr.header)
      _ _
      (λ _.
        if_cases {A = Stream} (λ s. (s.watches ≡ w.watches) × (s.next_id ≡ w.next_id))
          (ltb w.max_revision wr.header) _ _ (λ _. (refl, refl)) (λ _. (refl, refl)))
      (λ _. (refl, refl))

-- A watch that is there has had no cancel response, and one that is gone at most one.
abbrev OnceAt : ℕ → Stream → Type 0
OnceAt id w = canceled id w.sent + bit (contains id w.watches) ≤ bit (leb id w.next_id)

send-OnceAt :
    (id : ℕ) (wr : WatchResponse) (w : Stream)
    → is_cancel id wr ≡ false
    → OnceAt id w
    → OnceAt id (send wr w)
send-OnceAt id wr w other h =
    let (same, same_id) = send-watches wr w in
    rw (canceled-send id wr w, other, same, same_id) (omega (arith, h))

contains-remove :
    (id k : ℕ) (ids : List ℕ)
    → contains id (remove k ids) ≡ (if k == id then false else contains id ids)
contains-remove id k [] = ground arith
contains-remove id k (i ∷ ids) = ground (arith, contains-remove id k ids)

cancel_early-OnceAt :
    (id : ℕ) (current : ℕ × Option Error) (e : Error) (w : Stream)
    → OnceAt id w
    → OnceAt id (cancel_early current e w)
unfolding cancel_early
cancel_early-OnceAt id (rev, some _) e w h = h
cancel_early-OnceAt id (rev, none) e w h = send-OnceAt id _ w refl h

create_at-OnceAt :
    (id : ℕ) (z : ℤ) (current : ℕ × Option Error) (r : WatchCreateRequest) (w : Stream)
    → OnceAt id w
    → OnceAt id (create_at z current r w).1
create_at-OnceAt id (pos n) current r w h = ground (arith, h)
create_at-OnceAt id (negsuc n) current r w h = cancel_early-OnceAt id current compacted w h

removed-OnceAt : (id k : ℕ) (w : Stream) → OnceAt id w → OnceAt id (remove_watch k w).1
unfolding remove_watch
removed-OnceAt id k w h = rw (contains-remove id k w.watches) (ground (arith, h))

cancel-OnceAt :
    (id k revision compact_rev : ℕ) (err : Option Error) (w : Stream)
    → OnceAt id w
    → OnceAt id (cancel k revision compact_rev err w)
unfolding cancel remove_watch
cancel-OnceAt id k revision compact_rev err w h =
    if_cases (OnceAt id) (not (contains k w.watches)) _ _ (λ _. removed-OnceAt id k w h)
      (λ there.
        let w' = (remove_watch k w).1 in
        let wr = cancel_response k revision compact_rev err in
        let (same, same_id) = send-watches wr w' in
        rw (canceled-send id wr w', same, same_id, contains-remove id k w.watches)
          (elim (Bool-cases (k == id)) [
            | inl e ↦
                let was : contains id w.watches ≡ true =
                  ap (λ i. contains i w.watches) (sym ((==_iff k id).0 e))
                  ∙ ground (arith, there) in
                rw e (ground (arith, h, was))
            | inr ne ↦ rw ne (omega (arith, h))
          ]))

progress_all-OnceAt :
    (id rev : ℕ) (err : Option Error) (synced : ℕ → Bool) (w : Stream)
    → OnceAt id w
    → OnceAt id (progress_all (rev, err) synced w)
unfolding progress_all
progress_all-OnceAt id rev (some e) synced w h =
    if_cases (OnceAt id) (not w.notify) _ _ (λ _. h) (λ _. h)
progress_all-OnceAt id rev none synced w h =
    let quiet : Stream = record w { notify = false } in
    if_cases (OnceAt id) (not w.notify) _ _ (λ _. h)
      (λ _.
        if_cases (OnceAt id) (all_synced synced w.progress) _ _ (λ _. send-OnceAt id _ quiet refl h)
          (λ _. h))

Step-OnceAt : (id : ℕ) {w w' : Stream} → Step w w' → OnceAt id w → OnceAt id w'
unfolding create watch_start watch_round close progress
Step-OnceAt id (creates current r w) h =
    if_cases {A = Option Watching × Stream} (λ x. OnceAt id x.1) (not (int_eq r.watch_id (pos 0))) _
      _ (λ _. cancel_early-OnceAt id current invalid_watch w h)
      (λ _. create_at-OnceAt id r.start_revision current r w h)
Step-OnceAt id (starts g w) h = send-OnceAt id _ w refl h
Step-OnceAt id (reads input g w) h =
    if_cases {A = Watching × Stream} (λ x. OnceAt id x.1) (is_sent input g) _ _
      (λ _. send-OnceAt id _ w refl h) (λ _. h)
Step-OnceAt id (cancels k revision compact_rev err w) h =
    cancel-OnceAt id k revision compact_rev err w h
Step-OnceAt id (closes w) h = omega (arith, h)
Step-OnceAt id (asks w) h = h
Step-OnceAt id (broadcasts current synced w) h =
    progress_all-OnceAt id current.0 current.1 synced w h
Step-OnceAt id (others ids w) h = ground (arith, h)

reachable-OnceAt : (id : ℕ) {w : Stream} → Reachable w → OnceAt id w
reachable-OnceAt id (start next_id) = omega arith
reachable-OnceAt id (next r s) = Step-OnceAt id s (reachable-OnceAt id r)

-- In every state that a watch stream reaches, each watch has been sent at most one cancel
-- response, and none while it is still in the map of watches.
pub reachable-canceled :
    (id : ℕ) (w : Stream) → Reachable w → canceled id w.sent + bit (contains id w.watches) ≤ 1
reachable-canceled id w r = ground (arith, reachable-OnceAt id r)
