-- ===== src/Quota/UpdateOutcome.antt =====
-- pkg/server/kubehz_quota.go: what Update of quotaBackend does, on every branch.
use kine.Prelude.{
  ℕ, ◌+◌, ◌-◌, ◌≤◌, ◌<◌, ◌≡◌, refl, ap, sym, subst, ◌⊎◌, inl, inr, Bool, true, false, ◌&&◌, ◌||◌,
  not, Option, none, some, Bytes, length, ltb, ◌==◌, min, if_cases, arith,
}
use kine.Types.{KeyValue, Error, no_space}
use kine.Server.Backend.{Backend}
use kine.Quota.Figures.{Figures, figure, reserve, release, settle, reserve_within}
use kine.Quota.Admission.{
  Limiter, Lanes, Guarded, Reason, is_error, update_cost, exact_cost, is_control,
  quota_growth_slack, quota_cleanup_bytes_burst, update, update_done, update_admitted, update_below,
  admit_read, update_reserved, update_allowed, ops_allowed, bytes_allowed, lane_cap,
}
use kine.Quota.Outcome.{
  charge_if, release-reserve, settle-reserve, below_cases, within_cases, allow_cases,
}

-- the update of a key that is read as `cur`, at a revision that matches
abbrev pub Matches : ℕ → ℕ × Option KeyValue × Option Error → KeyValue → Type 0
Matches revision (rev, kv, err) cur =
    (kv ≡ some cur) × (err ≡ none) × ((cur.mod_revision == revision) ≡ true)

-- no such key, or another revision: the compare-and-swap of the update is lost
abbrev pub Misses : ℕ → ℕ × Option KeyValue × Option Error → Type 0
Misses revision (rev, kv, err) =
    (err ≡ none)
    × ((kv ≡ none)
        ⊎ ((cur : KeyValue) × (kv ≡ some cur) × ((cur.mod_revision == revision) ≡ false)))

settle_zero : (wrote : Bool) (q : Figures) → settle 0 wrote q ≡ q
settle_zero true q =
    ap (λ w. record q { committed = w }) {x = q.committed + 0} {y = q.committed} (omega arith)
settle_zero false q =
    ap (λ w. record q { written = w }) {x = q.written - 0} {y = q.written} (omega arith)

module _ {L S : Type 0} (limiter : Limiter L) (clock : S → ℕ) (backend : Backend S) where
  -- what the buckets of a lane answer
  abbrev pub lane_ok : Bool → ℕ → Guarded L S → Bool
  lane_ok true cost g = (limiter.allow_n (clock g.inner) 1 g.lanes.control).0
  lane_ok false cost g =
      (limiter.allow_n (clock g.inner) 1 g.lanes.cleanup_ops).0
      && (limiter.allow_n (clock g.inner) (min cost quota_cleanup_bytes_burst)
          g.lanes.cleanup_bytes).0

  -- the results of Update, and the state after it
  abbrev Results : Type 0
  Results = (ℕ × Option KeyValue × Bool × Option Error) × Guarded L S

  abbrev wrote : ℕ × Option KeyValue × Bool × Option Error → Bool
  wrote (rev, kv, ok, err) = ok || is_error err

  -- The backend's own update, on the state `s`, and its cost if it wrote.
  abbrev Passes : Bytes → Bytes → ℕ → ℕ → ℕ → Figures → S → Results → Type 0
  Passes key value revision lease cost q s (r, g') =
      ((r, g'.inner) ≡ backend.update key value revision lease s)
      × (g'.figures ≡ charge_if (wrote r) cost q)

  -- at the limit, after the read `r` that left the state of `g`
  abbrev FullOutcome :
      Bytes → Bytes → ℕ → ℕ → ℕ × Option KeyValue × Option Error → Guarded L S → Results → Type 0
  FullOutcome key value revision lease r g (result, g') =
      -- refused
      ((result ≡ (0, none, false, some no_space))
        × (g'.inner ≡ g.inner)
        × (g'.figures ≡ g.figures)
        × ((is_error r.2 ≡ true)
            ⊎ ((cur : KeyValue) × Matches revision r cur
                × ((length cur.value + quota_growth_slack < length value)
                    ⊎ (lane_cap (is_control key value) g.figures
                        < figure (reserve (exact_cost key value cur) g.figures))
                    ⊎ (lane_ok (is_control key value) (exact_cost key value cur) g ≡ false)))))
      -- passed, with nothing to write
      ⊎ (Misses revision r
          × ((result, g'.inner) ≡ backend.update key value revision lease g.inner)
          × (g'.figures ≡ g.figures))
      -- passed in its lane
      ⊎ ((cur : KeyValue) × Matches revision r cur
          × (length value ≤ length cur.value + quota_growth_slack)
          × (figure (reserve (exact_cost key value cur) g.figures)
              ≤ lane_cap (is_control key value) g.figures)
          × (lane_ok (is_control key value) (exact_cost key value cur) g ≡ true)
          × Passes key value revision lease (exact_cost key value cur) g.figures g.inner
              (result, g'))

  -- below the limit, or at it
  abbrev pub UpdateOutcome : Bytes → Bytes → ℕ → ℕ → Guarded L S → Results → Type 0
  UpdateOutcome key value revision lease g result =
      ((figure g.figures < g.figures.limit)
        × Passes key value revision lease (update_cost key value) g.figures g.inner result)
      ⊎ ((g.figures.limit ≤ figure g.figures)
          × FullOutcome key value revision lease (backend.get key 0 false g.inner).0
              (record g { inner = (backend.get key 0 false g.inner).1 }) result)

  given_back {κ} :
      (P : (ℕ × Option Reason) × Guarded L S → Type κ) (cost : ℕ) (g : Guarded L S)
      (lanes : Lanes L) (reason : Reason)
      → P ((0, some reason), record g { lanes = lanes })
      → P (
        (0, some reason),
        record g { figures = release cost (reserve cost g.figures); lanes = lanes },
      )
  given_back P cost g lanes reason p =
      subst (λ q. P ((0, some reason), record g { figures = q; lanes = lanes }))
        (sym (release-reserve cost g.figures)) p

  -- The results of the lanes, with what they say of the caps and of the buckets.
  reserved_cases {κ} :
      (P : (ℕ × Option Reason) × Guarded L S → Type κ) (control : Bool) (cost : ℕ) (g : Guarded L S)
      → ((lanes : Lanes L)
          → figure (reserve cost g.figures) ≤ lane_cap control g.figures
          → lane_ok control cost g ≡ true
          → P ((cost, none), record g { figures = reserve cost g.figures; lanes = lanes }))
      → ((lanes : Lanes L) (reason : Reason)
          → (lane_cap control g.figures < figure (reserve cost g.figures))
            ⊎ (lane_ok control cost g ≡ false)
          → P ((0, some reason), record g { lanes = lanes }))
      → P (
          update_reserved limiter clock backend control cost g
            (reserve_within cost (lane_cap control g.figures) g.figures))
  reserved_cases P true cost g admitted refused =
      within_cases (λ r. P (update_reserved limiter clock backend true cost g r)) cost
        (lane_cap true g.figures) g.figures
        (λ fits.
          allow_cases
            (λ r. P (
              update_allowed limiter clock backend cost
                (record g { figures = reserve cost g.figures }) r))
            (limiter.allow_n (clock g.inner) 1 g.lanes.control)
            (λ l ok. admitted (record g.lanes { control = l }) fits ok)
            (λ l no_token.
              given_back P cost g (record g.lanes { control = l }) _ (refused _ _ (inr no_token))))
        (λ above. refused g.lanes _ (inl above))
  reserved_cases P false cost g admitted refused =
      within_cases (λ r. P (update_reserved limiter clock backend false cost g r)) cost
        (lane_cap false g.figures) g.figures
        (λ fits.
          allow_cases
            (λ r. P (
              ops_allowed limiter clock backend cost (record g { figures = reserve cost g.figures })
                r))
            (limiter.allow_n (clock g.inner) 1 g.lanes.cleanup_ops)
            (λ l ok.
              allow_cases
                (λ r. P (
                  bytes_allowed limiter clock backend cost
                    (record g {
                      figures = reserve cost g.figures;
                      lanes = record g.lanes { cleanup_ops = l };
                    })
                    r))
                (limiter.allow_n (clock g.inner) (min cost quota_cleanup_bytes_burst)
                  g.lanes.cleanup_bytes)
                (λ l' ok'.
                  admitted (record g.lanes { cleanup_ops = l; cleanup_bytes = l' }) fits
                    (ground (arith, ok, ok')))
                (λ l' no_token.
                  given_back P cost g (record g.lanes { cleanup_ops = l; cleanup_bytes = l' }) _
                    (refused _ _ (inr (ground (arith, ok, no_token))))))
            (λ l no_token.
              given_back P cost g (record g.lanes { cleanup_ops = l }) _
                (refused _ _ (inr (ground (arith, no_token))))))
        (λ above. refused g.lanes _ (inl above))

  done-Passes :
      (key value : Bytes) (revision lease cost : ℕ) (g : Guarded L S) (lanes : Lanes L)
      (r : (ℕ × Option KeyValue × Bool × Option Error) × S)
      → backend.update key value revision lease g.inner ≡ r
      → Passes key value revision lease cost g.figures g.inner (
          update_done limiter clock backend cost
            (record g { figures = reserve cost g.figures; lanes = lanes })
            r)
  done-Passes key value revision lease cost g lanes ((rev, kv, ok, err), s) e =
      (sym e, settle-reserve cost (ok || is_error err) g.figures)

  done_free :
      (key value : Bytes) (revision lease : ℕ) (g : Guarded L S)
      (r : (ℕ × Option KeyValue × Bool × Option Error) × S)
      → backend.update key value revision lease g.inner ≡ r
      → ((
        (update_done limiter clock backend 0 g r).0,
        (update_done limiter clock backend 0 g r).1.inner,
      )
          ≡ backend.update key value revision lease g.inner)
        × ((update_done limiter clock backend 0 g r).1.figures ≡ g.figures)
  done_free key value revision lease g ((rev, kv, ok, err), s) e =
      (sym e, settle_zero (ok || is_error err) g.figures)

  read-Outcome :
      (key value : Bytes) (revision lease : ℕ) (g : Guarded L S)
      (r : ℕ × Option KeyValue × Option Error)
      → FullOutcome key value revision lease r g (
          update_admitted limiter clock backend key value revision lease
            (admit_read limiter clock backend key value revision g r))
  read-Outcome key value revision lease g (rev, kv, some e) = inl (refl, refl, refl, inl refl)
  read-Outcome key value revision lease g (rev, none, none) =
      let free = done_free key value revision lease g _ refl in
      inr (inl ((refl, inl refl), free.0, free.1))
  read-Outcome key value revision lease g (rev, some cur, none) =
      let free = done_free key value revision lease g _ refl in
      let P = λ (a : (ℕ × Option Reason) × Guarded L S).
        FullOutcome key value revision lease (rev, some cur, none) g
          (update_admitted limiter clock backend key value revision lease a) in
      if_cases P (not (cur.mod_revision == revision)) _ _
        (λ t. inr (inl ((refl, inr (cur, refl, ground (arith, t))), free.0, free.1)))
        (λ f.
          if_cases P (ltb (length cur.value + quota_growth_slack) (length value)) _ _
            (λ t. inl (
              refl,
              refl,
              refl,
              inr (cur, (refl, refl, ground (arith, f)), inl (ground (arith, t))),
            ))
            (λ small.
              reserved_cases P (is_control key value) (exact_cost key value cur) g
                (λ lanes fits ok. inr (
                  inr (
                    cur,
                    (refl, refl, ground (arith, f)),
                    ground (arith, small),
                    fits,
                    ok,
                    done-Passes key value revision lease (exact_cost key value cur) g lanes _ refl,
                  )))
                (λ lanes reason why.
                  inl (refl, refl, refl, inr (cur, (refl, refl, ground (arith, f)), inr why)))))

  -- Update of the quota returns what the backend returns below the limit, with its cost charged if
  -- it wrote. At the limit, after one read of the key, it fails with the no-space error, with
  -- every counter as it was, only if the read fails, the value grows by more than the slack, the
  -- cap of its lane is exceeded or a bucket is empty; it passes free if the revision does not
  -- match; else it passes within all of these and charges the exact cost if it wrote.
  pub update-UpdateOutcome :
      (key value : Bytes) (revision lease : ℕ) (g : Guarded L S)
      → UpdateOutcome key value revision lease g
          (update limiter clock backend key value revision lease g)
  unfolding update
  update-UpdateOutcome key value revision lease g =
      below_cases
        (λ r.
          UpdateOutcome key value revision lease g
            (update_below limiter clock backend key value revision lease g r))
        (update_cost key value) g.figures
        (λ below.
          inl
            (below, done-Passes key value revision lease (update_cost key value) g g.lanes _ refl))
        (λ over. inr (
          over,
          read-Outcome key value revision lease
              (record g { inner = (backend.get key 0 false g.inner).1 })
              (backend.get key 0 false g.inner).0,
        ))
