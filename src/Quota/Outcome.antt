-- ===== src/Quota/Outcome.antt =====
-- pkg/server/kubehz_quota.go: what Create and Update of quotaBackend do, on every branch.
use kine.Prelude.{
  ℕ, ◌+◌, ◌-◌, ◌≤◌, ◌<◌, ◌≡◌, refl, ap, sym, subst, ◌⊎◌, inl, inr, Bool, true, false, ◌||◌, not,
  Option, some, Bytes, length, ltb, leb, if◌then◌else◌, if_cases, arith,
}
use kine.Types.{Error, no_space}
use kine.Server.Backend.{Backend}
use kine.Quota.Figures.{Figures, figure, reserve, release, settle, reserve_below, reserve_within}
use kine.Quota.Admission.{
  Limiter, Lanes, Reason, Guarded, is_key_exists, create_cost, is_control, is_control_key,
  quota_control_max_value, create, create_done, create_admitted, create_reserved, control_allowed,
  control_reserved, admit_control_create,
}

-- A put that counts: its cost is written and committed.
abbrev pub charge : ℕ → Figures → Figures
charge cost q = record q { written = q.written + cost; committed = q.committed + cost }

abbrev pub charge_if : Bool → ℕ → Figures → Figures
charge_if wrote cost q = if wrote then charge cost q else q

pub release-reserve : (cost : ℕ) (q : Figures) → release cost (reserve cost q) ≡ q
release-reserve cost q =
    ap (λ w. record q { written = w }) {x = q.written + cost - cost} {y = q.written} (omega arith)

-- A reservation that is settled has charged its cost, or nothing.
pub settle-reserve :
    (cost : ℕ) (wrote : Bool) (q : Figures)
    → settle cost wrote (reserve cost q) ≡ charge_if wrote cost q
settle-reserve cost true q = refl
settle-reserve cost false q = release-reserve cost q

-- The two results of a reservation, with what they say of the figure.
pub below_cases {κ} :
    (P : Bool × Figures → Type κ) (cost : ℕ) (q : Figures)
    → (figure q < q.limit → P (true, reserve cost q))
    → (q.limit ≤ figure q → P (false, q))
    → P (reserve_below cost q)
below_cases P cost q yes_case no_case =
    if_cases P (ltb (figure (reserve cost q) - cost) q.limit) _ _
      (λ t. yes_case (ground (arith, t)))
      (λ f. subst (λ x. P (false, x)) (sym (release-reserve cost q)) (no_case (ground (arith, f))))

pub within_cases {κ} :
    (P : Bool × Figures → Type κ) (cost limit : ℕ) (q : Figures)
    → (figure (reserve cost q) ≤ limit → P (true, reserve cost q))
    → (limit < figure (reserve cost q) → P (false, q))
    → P (reserve_within cost limit q)
within_cases P cost limit q yes_case no_case =
    if_cases P (leb (figure (reserve cost q)) limit) _ _ (λ t. yes_case (ground (arith, t)))
      (λ f. subst (λ x. P (false, x)) (sym (release-reserve cost q)) (no_case (ground (arith, f))))

-- a bucket's answer, with the equation
pub allow_cases {κ} :
    {L : Type 0} (P : Bool × L → Type κ) (r : Bool × L)
    → ((l : L) → r.0 ≡ true → P (true, l))
    → ((l : L) → r.0 ≡ false → P (false, l))
    → P r
allow_cases P (true, l) t f = t l refl
allow_cases P (false, l) t f = f l refl

module _ {L S : Type 0} (limiter : Limiter L) (clock : S → ℕ) (backend : Backend S) where
  -- what the bucket of the control lane answers
  abbrev pub control_ok : Guarded L S → Bool
  control_ok g = (limiter.allow_n (clock g.inner) 1 g.lanes.control).0

  -- The put has no room: it is refused, and neither the backend nor a counter has changed.
  abbrev CreateRefused : Bytes → Bytes → Guarded L S → (ℕ × Option Error) × Guarded L S → Type 0
  CreateRefused key value g (r, g') =
      (r ≡ (0, some no_space))
      × (g'.inner ≡ g.inner)
      × (g'.figures ≡ g.figures)
      × (g.figures.limit ≤ figure g.figures)
      × ((is_control key value ≡ false)
          ⊎ (g.figures.create_cap < figure (reserve (create_cost key value) g.figures))
          ⊎ (control_ok g ≡ false))

  abbrev CreatePassed : Bytes → Bytes → ℕ → Guarded L S → (ℕ × Option Error) × Guarded L S → Type 0
  CreatePassed key value lease g (r, g') =
      ((r, g'.inner) ≡ backend.create key value lease g.inner)
      × (g'.figures ≡ charge_if (not (is_key_exists r.1)) (create_cost key value) g.figures)
      × ((figure g.figures < g.figures.limit)
          ⊎ ((is_control key value ≡ true)
              × (figure (reserve (create_cost key value) g.figures) ≤ g.figures.create_cap)
              × (control_ok g ≡ true)))

  abbrev pub CreateOutcome :
      Bytes → Bytes → ℕ → Guarded L S → (ℕ × Option Error) × Guarded L S → Type 0
  CreateOutcome key value lease g r = CreateRefused key value g r ⊎ CreatePassed key value lease g r

  done-Passed :
      (key value : Bytes) (lease : ℕ) (g : Guarded L S) (lanes : Lanes L)
      (r : (ℕ × Option Error) × S)
      → backend.create key value lease g.inner ≡ r
      → (figure g.figures < g.figures.limit)
        ⊎ ((is_control key value ≡ true)
            × (figure (reserve (create_cost key value) g.figures) ≤ g.figures.create_cap)
            × (control_ok g ≡ true))
      → CreatePassed key value lease g (
          create_done limiter clock backend
            (create_cost key value)
            (record g { figures = reserve (create_cost key value) g.figures; lanes = lanes })
            r)
  done-Passed key value lease g lanes ((rev, err), s) e why =
      (sym e, settle-reserve (create_cost key value) (not (is_key_exists err)) g.figures, why)

  admit-Outcome :
      (key value : Bytes) (lease : ℕ) (g : Guarded L S)
      → g.figures.limit ≤ figure g.figures
      → CreateOutcome key value lease g (
          create_admitted limiter clock backend key value lease
            (create_cost key value)
            (admit_control_create limiter clock backend key value (create_cost key value) g))
  admit-Outcome key value lease g over =
      let cost = create_cost key value in
      let P = λ (a : Option Reason × Guarded L S).
        CreateOutcome key value lease g
          (create_admitted limiter clock backend key value lease cost a) in
      if_cases P (not (is_control_key key) || ltb quota_control_max_value (length value)) _ _
        (λ t. inl (refl, refl, refl, over, inl (ground (arith, t))))
        (λ f.
          within_cases (λ r. P (control_reserved limiter clock backend cost g r)) cost
            g.figures.create_cap g.figures
            (λ fits.
              allow_cases
                (λ r. P (
                  control_allowed limiter clock backend cost
                    (record g { figures = reserve cost g.figures }) r))
                (limiter.allow_n (clock g.inner) 1 g.lanes.control)
                (λ l ok. inr (
                  done-Passed key value lease g (record g.lanes { control = l }) _ refl
                    (inr (ground (arith, f), fits, ok))))
                (λ l ok. inl (refl, refl, release-reserve cost g.figures, over, inr (inr ok))))
            (λ above. inl (refl, refl, refl, over, inr (inl above))))

  -- Create of the quota, for every state, backend and bucket, either fails with the no-space
  -- error, with the backend and every counter as they were, only at the limit and only for a key
  -- or size outside the control lane, above its cap or without a token; or it returns what the
  -- backend returns, charges its cost unless the key exists, and was below the limit or had room
  -- and a token in the control lane.
  pub create-CreateOutcome :
      (key value : Bytes) (lease : ℕ) (g : Guarded L S)
      → CreateOutcome key value lease g (create limiter clock backend key value lease g)
  unfolding create
  create-CreateOutcome key value lease g =
      let cost = create_cost key value in
      below_cases
        (λ r.
          CreateOutcome key value lease g
            (create_reserved limiter clock backend key value lease cost g r))
        cost g.figures (λ below. inr (done-Passed key value lease g g.lanes _ refl (inl below)))
        (λ over. admit-Outcome key value lease g over)
