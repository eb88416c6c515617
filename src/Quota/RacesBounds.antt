-- ===== src/Quota/RacesBounds.antt =====
-- pkg/server/kubehz_quota.go: how far puts that interleave can pass the limit.
use kine.Prelude.{
  All-parts, Among, ℕ, ◌+◌, ◌-◌, ◌≤◌, ◌≡◌, subst, true, List, [], ◌∷◌, ◌++◌, All, arith,
}
use kine.Quota.Figures.{Figures}
use kine.Quota.Races.{
  Test, below, within, keeps, bound, Put, loaded, reserved, Sampling, State, Move, add_kept, Run,
  kept,
}
use kine.Quota.RacesInvariant.{Run-Inv, Fits}

pub keeps-le :
    (limit : ℕ) (t : Test) (c fig : ℕ) → keeps limit t c fig ≡ true → fig ≤ bound limit t c
keeps-le limit below c fig h = ground (arith, h)
keeps-le limit (within cap) c fig h = ground (arith, h)

-- A put gets from its loads to its reservation by its test only.
let_through :
    {sampling : Sampling} {q : Figures} {t : Test} {c b l of c' : ℕ} {q' : Figures}
    → Move sampling q (loaded t c b l of) q' (reserved c' ∷ [])
    → keeps q.limit t c (l + (q.written + c) - b) ≡ true
let_through (add_kept h) = h

-- After any interleaving of the atomic steps of puts and samples from ordered counters, a put that
-- the next step reserves has read a live figure that was stored together with a base, and relative
-- to these two the bytes of all puts that were let through, its own included, stay within the
-- limit plus its own cost, or within the cap of its lane.
pub kept-le-bound :
    (q : Figures) {y : State}
    → q.written ≡ q.committed
    → q.base ≤ q.marks0
    → q.marks0 ≤ q.marks1
    → q.marks1 ≤ q.committed
    → Run q y
    → (before after : List Put) (t : Test) (c b l of : ℕ) {q' : Figures}
    → y.puts ≡ before ++ loaded t c b l of ∷ after
    → Move y.sampling y.figures (loaded t c b l of) q' (reserved c ∷ [])
    → Among (l, of) y.samples × (l + (kept y + c) ≤ bound y.figures.limit t c + of)
kept-le-bound q {y} a0 a1 a2 a3 r before after t c b l of e k =
    let inv = Run-Inv q a0 a1 a2 a3 r in
    let P = Fits _ y.samples in
    let own = (All-parts P before _ (subst (All P) e inv.fits)).1.0 in
    (
      own.1,
      omega (
        arith,
        own.0,
        inv.accounted,
        keeps-le y.figures.limit t c (l + (y.figures.written + c) - b) (let_through k),
      ),
    )
