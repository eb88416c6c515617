-- ===== src/Quota/Target.antt =====
-- pkg/server/kubehz_quota.go: reliefTarget finds the newest revision that is old enough.
use kine.Prelude.{
  ℕ, ◌+◌, ◌≤◌, ◌≡◌, refl, ap, ◌⊎◌, inl, inr, false, Option, none, some, List, [], ◌∷◌, ◌++◌, length,
  drop, drop-append, All, arith, Bool-cases, ◌∙◌,
}
use kine.Quota.Relief.{TickRev, old_enough, newest_index, relief_target, first_rev}

abbrev pub IsYoung : ℕ → ℕ → TickRev → Type 0
IsYoung lag now r = old_enough lag now r ≡ false

-- Either no entry is old enough, and all are kept; or the target is that of the newest one that is,
-- and what is before it is dropped.
abbrev pub Target : ℕ → ℕ → List TickRev → ℕ × List TickRev → Type 0
Target lag now revs result =
    (All (IsYoung lag now) revs × (result ≡ (0, revs)))
    ⊎ ((dropped : List TickRev) × (r : TickRev) × (younger : List TickRev) × (revs
          ≡ dropped ++ r ∷ younger)
        × (r.at + lag ≤ now)
        × All (IsYoung lag now) younger
        × (result ≡ (r.rev, r ∷ younger)))

-- The loop, from the index `j` on.
loop :
    (lag now j : ℕ) (i : Option ℕ) (revs : List TickRev)
    → (All (IsYoung lag now) revs × (newest_index lag now j i revs ≡ i))
      ⊎ ((dropped : List TickRev) × (r : TickRev) × (younger : List TickRev) × (revs
            ≡ dropped ++ r ∷ younger)
          × (r.at + lag ≤ now)
          × All (IsYoung lag now) younger
          × (newest_index lag now j i revs ≡ some (j + length dropped)))
loop lag now j i [] = inl (tt, refl)
loop lag now j i (r ∷ rs) = elim (Bool-cases (old_enough lag now r)) [
  | inl old ↦ elim (loop lag now (j + 1) (some j) rs) [
    | inl (young, e) ↦
        inr ([], r, rs, refl, ground (arith, old), young, rw old (e ∙ ap some (omega arith)))
    | inr (dropped, r', younger, e, le, young, f) ↦
        inr (
          r ∷ dropped,
          r',
          younger,
          ap (λ l. r ∷ l) e,
          le,
          young,
          rw old (f ∙ ap some (omega arith)),
        )
  ]
  | inr new ↦ elim (loop lag now (j + 1) i rs) [
    | inl (young, e) ↦ inl ((new, young), rw new e)
    | inr (dropped, r', younger, e, le, young, f) ↦
        inr (
          r ∷ dropped,
          r',
          younger,
          ap (λ l. r ∷ l) e,
          le,
          young,
          rw new (f ∙ ap some (omega arith)),
        )
  ]
]

zero_add : (n : ℕ) → 0 + n ≡ n
zero_add n = omega arith

-- The loop of reliefTarget yields the revision of the newest entry that is as old as the lag, and
-- keeps that entry and the younger ones; if no entry is that old, it yields 0 and keeps all.
pub relief_target-Target :
    (lag now : ℕ) (revs : List TickRev) → Target lag now revs (relief_target lag now revs)
relief_target-Target lag now revs = elim (loop lag now 0 none revs) [
  | inl (young, e) ↦ inl (young, rw (e, relief_target) refl)
  | inr (dropped, r, younger, e, le, young, f) ↦ inr (
    dropped,
    r,
    younger,
    e,
    le,
    young,
    rw (f ∙ ap some (zero_add (length dropped)), relief_target)
        (ap (λ l. (first_rev l, l))
          (ap (drop (length dropped)) e ∙ drop-append dropped (r ∷ younger))),
  )
]
