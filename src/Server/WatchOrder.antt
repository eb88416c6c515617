-- ===== src/Server/WatchOrder.antt =====
-- The revisions that a watch stream of pkg/server/watch.go reports, and its cancel responses.
use kine.Prelude.{
  ℕ, ◌≤◌, ◌≡◌, refl, sym, subst, ◌⊎◌, inl, inr, Bool, false, not, Option, none, some, List, [], ◌∷◌,
  ◌++◌, ltb, All, All-append, arith, if_cases, ltb→lt, ℤ, pos, negsuc, int_eq,
}
use kine.Types.{Error, invalid_watch, compacted}
use kine.Server.Watch.{
  is_sent, WatchResponse, WatchCreateRequest, Watching, Stream, create_at, all_synced, send, cancel,
  cancel_early, contains, remove_watch, create, watch_start, watch_round, close, progress,
  progress_all,
}
use kine.Server.WatchSteps.{
  Step, creates, starts, reads, cancels, closes, asks, broadcasts, others, Reachable, start, next,
  opened,
}

-- The positive revisions of the headers do not fall.
abbrev pub Rises : List WatchResponse → Type 0
Rises [] = Unit
Rises (r ∷ rs) = All (λ x. (x.header ≡ 0) ⊎ (r.header ≤ x.header)) rs × Rises rs

abbrev Below : ℕ → List WatchResponse → Type 0
Below n rs = All (λ r. r.header ≤ n) rs

abbrev Orderly : Stream → Type 0
Orderly w = Below w.max_revision w.sent × Rises w.sent

Below-mono : (m n : ℕ) (rs : List WatchResponse) → m ≤ n → Below m rs → Below n rs
Below-mono m n [] le b = tt
Below-mono m n (r ∷ rs) le b = (omega (arith, le, b.0), Below-mono m n rs le b.1)

Rises-append :
    (rs : List WatchResponse) (x : WatchResponse)
    → Rises rs
    → (x.header ≡ 0) ⊎ Below x.header rs
    → Rises (rs ++ x ∷ [])
Rises-append [] x r h = (tt, tt)
Rises-append (y ∷ rs) x r (inl z) = (
  All-append (λ a. (a.header ≡ 0) ⊎ (y.header ≤ a.header)) rs (x ∷ []) r.0 (inl z, tt),
  Rises-append rs x r.1 (inl z),
)
Rises-append (y ∷ rs) x r (inr b) = (
  All-append (λ a. (a.header ≡ 0) ⊎ (y.header ≤ a.header)) rs (x ∷ []) r.0 (inr b.0, tt),
  Rises-append rs x r.1 (inr b.1),
)

send-Orderly : (wr : WatchResponse) (w : Stream) → Orderly w → Orderly (send wr w)
unfolding send
send-Orderly wr w (b, r) =
    if_cases Orderly (ltb 0 wr.header) _ _
      (λ p.
        if_cases Orderly (ltb w.max_revision wr.header) _ _
          (λ newer.
            let up =
              Below-mono w.max_revision wr.header w.sent
                (omega (arith, ltb→lt w.max_revision wr.header newer)) b in
            (
              All-append (λ x. x.header ≤ wr.header) w.sent (wr ∷ []) up (omega arith, tt),
              Rises-append w.sent wr r (inr up),
            ))
          (λ older. (
            All-append (λ x. x.header ≤ w.max_revision) w.sent _ b (omega arith, tt),
            Rises-append w.sent _ r (inr b),
          )))
      (λ z.
        let h : wr.header ≡ 0 = ground (arith, z) in
        (
          All-append (λ x. x.header ≤ w.max_revision) w.sent (wr ∷ []) b (omega (arith, h), tt),
          Rises-append w.sent wr r (inl h),
        ))

-- A property that `send` keeps, and that only reads what has been sent, is kept by every step.
module _ (P : Stream → Type 0) (sends : (wr : WatchResponse) (w : Stream) → P w → P (send wr w))
    (same : (w w' : Stream)
      → w'.max_revision ≡ w.max_revision
      → w'.sent ≡ w.sent
      → P w
      → P w') where
  cancel_early-kept :
      (current : ℕ × Option Error) (e : Error) (w : Stream) → P w → P (cancel_early current e w)
  unfolding cancel_early
  cancel_early-kept (rev, some _) e w p = p
  cancel_early-kept (rev, none) e w p = sends _ w p

  create_at-kept :
      (z : ℤ) (current : ℕ × Option Error) (r : WatchCreateRequest) (w : Stream)
      → P w
      → P (create_at z current r w).1
  create_at-kept (pos n) current r w p = same w _ refl refl p
  create_at-kept (negsuc n) current r w p = cancel_early-kept current compacted w p

  progress_all-kept :
      (rev : ℕ) (err : Option Error) (synced : ℕ → Bool) (w : Stream)
      → P w
      → P (progress_all (rev, err) synced w)
  unfolding progress_all
  progress_all-kept rev (some e) synced w p = if_cases P (not w.notify) _ _ (λ _. p) (λ _. p)
  progress_all-kept rev none synced w p =
      let quiet : Stream = record w { notify = false } in
      let p' = same w quiet refl refl p in
      if_cases P (not w.notify) _ _ (λ _. p)
        (λ _. if_cases P (all_synced synced w.progress) _ _ (λ _. sends _ quiet p') (λ _. p'))

  step-kept : {w w' : Stream} → Step w w' → P w → P w'
  unfolding create watch_start watch_round cancel remove_watch close progress
  step-kept (creates current r w) p =
      if_cases {A = Option Watching × Stream} (λ x. P x.1) (not (int_eq r.watch_id (pos 0))) _ _
        (λ _. cancel_early-kept current invalid_watch w p)
        (λ _. create_at-kept r.start_revision current r w p)
  step-kept (starts g w) p = sends _ w p
  step-kept (reads input g w) p =
      if_cases {A = Watching × Stream} (λ x. P x.1) (is_sent input g) _ _ (λ _. sends _ w p)
        (λ _. p)
  step-kept (cancels id revision compact_rev err w) p =
      if_cases P (not (contains id w.watches)) _ _ (λ _. same w _ refl refl p)
        (λ _. sends _ _ (same w _ refl refl p))
  step-kept (closes w) p = same w _ refl refl p
  step-kept (asks w) p = same w _ refl refl p
  step-kept (broadcasts current synced w) p = progress_all-kept current.0 current.1 synced w p
  step-kept (others ids w) p = same w _ refl refl p

  reachable-kept : ((next_id : ℕ) → P (opened next_id)) → {w : Stream} → Reachable w → P w
  reachable-kept p (start next_id) = p next_id
  reachable-kept p (next r s) = step-kept s (reachable-kept p r)

-- In every state that a watch stream reaches, by any order of create and cancel requests, rounds
-- of its watches, progress requests and progress broadcasts, with any revisions, the positive
-- revisions of the headers that were sent never fall.
pub reachable-Rises : (w : Stream) → Reachable w → Rises w.sent
reachable-Rises w r =
    (reachable-kept Orderly send-Orderly
      (λ w w' m s o.
        subst (λ l. Below w'.max_revision l × Rises l) (sym s)
          (subst (λ n. Below n w.sent × Rises w.sent) (sym m) o))
      (λ n. (tt, tt)) r).1
