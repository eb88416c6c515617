-- ===== src/Quota/PutRuns.antt =====
-- pkg/server/kubehz_quota.go: puts that interleave between two samples.
use kine.Prelude.{
  All-map, All-parts, ℕ, ◌+◌, ◌-◌, ◌≤◌, ◌≡◌, refl, subst, true, false, List, ◌∷◌, ◌++◌, All,
  All-append, arith, max,
}
use kine.Quota.Figures.{Figures, figure}
use kine.Quota.Races.{
  Test, bound, Put, began, based, loaded, refused, reserved, Sampling, State, Move, quiet,
  reserved_cost, total, kept, load_base, load_live, add_kept, add_refused, give_back, end, begin,
  move,
}
use kine.Quota.RacesInvariant.{Inv, quiet-Inv, PutStep-Inv, Move-Conserves, parts, new_parts}
use kine.Quota.RacesBounds.{keeps-le}

-- Steps of puts from a quiet state on, with the most that a put which has begun may come to.
pub data PutRun (q : Figures) : ℕ → State → Type 0 where
  here : PutRun q (figure q) (quiet q)
  begun :
      {m : ℕ} {y : State} (t : Test) (c : ℕ)
      → PutRun q m y
      → PutRun q (max m (bound q.limit t c)) (record y { puts = began t c ∷ y.puts })
  moved :
      {m : ℕ} {y : State} (before after now : List Put) (p : Put) (q' : Figures)
      → PutRun q m y
      → y.puts ≡ before ++ p ∷ after
      → Move y.sampling y.figures p q' now
      → PutRun q m (record y { figures = q'; puts = before ++ (now ++ after) })

-- What a put has loaded is what the counters still say, and it may come to `m` at most.
abbrev Current : Figures → ℕ → Put → Type 0
Current q m (began t c) = bound q.limit t c ≤ m
Current q m (based t c b) = (bound q.limit t c ≤ m) × (b ≡ q.base)
Current q m (loaded t c b l of) = (bound q.limit t c ≤ m) × (b ≡ q.base) × (l ≡ q.live)
Current q m (refused c) = Unit
Current q m (reserved c) = Unit

Current-mono : (q : Figures) (m m' : ℕ) → m ≤ m' → (p : Put) → Current q m p → Current q m' p
Current-mono q m m' le (began t c) h = omega (arith, h, le)
Current-mono q m m' le (based t c b) h = (omega (arith, h.0, le), h.1)
Current-mono q m m' le (loaded t c b l of) h = (omega (arith, h.0, le), h.1, h.2)
Current-mono q m m' le (refused c) h = tt
Current-mono q m m' le (reserved c) h = tt

record Within (q : Figures) (m : ℕ) (y : State) : Type 0 where
  same : (y.figures.limit ≡ q.limit) × (y.figures.live ≡ q.live) × (y.figures.base ≡ q.base)
  puts : All (Current q m) y.puts
  room : y.figures.live + kept y ≤ m + y.figures.base

Move-Current :
    (q0 : Figures) (m : ℕ) {s : Sampling} {q q' : Figures} {p : Put} {now : List Put}
    → Move s q p q' now
    → (q.live ≡ q0.live) × (q.base ≡ q0.base)
    → Current q0 m p
    → All (Current q0 m) now
Move-Current q0 m load_base e h = ((h, e.1), tt)
Move-Current q0 m load_live e h = ((h.0, h.1, e.0), tt)
Move-Current q0 m (add_kept k) e h = (tt, tt)
Move-Current q0 m (add_refused k) e h = (tt, tt)
Move-Current q0 m give_back e h = tt
Move-Current q0 m (end wrote) e h = tt

-- `rest` is what the other puts have reserved.
Move-room :
    (q0 : Figures) (m rest : ℕ) {s : Sampling} {q q' : Figures} {p : Put} {now : List Put}
    → Move s q p q' now
    → (q.limit ≡ q0.limit) × (q.live ≡ q0.live) × (q.base ≡ q0.base)
    → Current q0 m p
    → q.committed + reserved_cost p + rest ≤ q.written
    → q.live + (q.committed + reserved_cost p + rest) ≤ m + q.base
    → q.live + (q'.committed + total reserved_cost now + rest) ≤ m + q.base
Move-room q0 m rest load_base e h k r = omega (arith, r)
Move-room q0 m rest load_live e h k r = omega (arith, r)
Move-room q0 m rest {q = q} (add_kept {t} {c} {b} {l} ok) e h k r = omega (
  arith,
  e,
  h.0,
  h.1,
  h.2,
  k,
  subst (λ lim. l + (q.written + c) - b ≤ bound lim t c) e.0
      (keeps-le q.limit t c (l + (q.written + c) - b) ok),
)
Move-room q0 m rest (add_refused k') e h k r = omega (arith, r)
Move-room q0 m rest give_back e h k r = omega (arith, r)
Move-room q0 m rest (end true) e h k r = omega (arith, r)
Move-room q0 m rest (end false) e h k r = omega (arith, r)

run-Inv :
    (q : Figures) {m : ℕ} {y : State}
    → q.written ≡ q.committed
    → q.base ≤ q.marks0
    → q.marks0 ≤ q.marks1
    → q.marks1 ≤ q.committed
    → PutRun q m y
    → Inv y
run-Inv q a b c d here = quiet-Inv q a b c d
run-Inv q a b c d (begun t n r) = PutStep-Inv (begin t n) (run-Inv q a b c d r)
run-Inv q a b c d (moved before after now p q' r e m) =
    PutStep-Inv (move before after now p q' e m) (run-Inv q a b c d r)

run-Within :
    (q : Figures) {m : ℕ} {y : State}
    → q.written ≡ q.committed
    → q.base ≤ q.marks0
    → q.marks0 ≤ q.marks1
    → q.marks1 ≤ q.committed
    → PutRun q m y
    → Within q m y
run-Within q a b c d here = record {
  same = (refl, refl, refl);
  puts = tt;
  room = omega (arith, a, b, c, d);
}
run-Within q a b c d (begun {m} {y} t n r) =
    let w = run-Within q a b c d r in
    record {
      same = w.same;
      puts = (
        omega arith,
        All-map _ _ (Current-mono q m (max m (bound q.limit t n)) (omega arith)) y.puts w.puts,
      );
      room = omega (arith, w.room);
    }
run-Within q a b c d (moved {m} {y} before after now p q' r e mv) =
    let w = run-Within q a b c d r in
    let inv = run-Inv q a b c d r in
    let k = Move-Conserves mv in
    let halves = All-parts (Current q m) before (p ∷ after) (subst (All (Current q m)) e w.puts) in
    let room =
      Move-room q m (total reserved_cost before + total reserved_cost after) mv w.same halves.1.0
        (omega (arith, inv.accounted, parts y before after now p q' e mv inv reserved_cost))
        (omega (arith, w.room, parts y before after now p q' e mv inv reserved_cost)) in
    record {
      same = omega (arith, w.same, k.limit, k.live, k.base);
      puts = All-append (Current q m) before (now ++ after) halves.0 (
          All-append (Current q m) now after (Move-Current q m mv (w.same.1, w.same.2) halves.1.0)
            halves.1.1);
      room =
          omega
            (arith, room, k.live, k.base, new_parts y before after now p q' e mv inv reserved_cost);
    }

-- Between two samples, whatever puts interleave and however their loads, additions and returns of
-- a refused cost are ordered, the figure of the bytes that were let through never exceeds the
-- largest of its value at the start, the limit plus the cost of one put that has begun, and the
-- cap of one that has.
pub PutRun-kept-le :
    (q : Figures) {m : ℕ} {y : State}
    → q.written ≡ q.committed
    → q.base ≤ q.marks0
    → q.marks0 ≤ q.marks1
    → q.marks1 ≤ q.committed
    → PutRun q m y
    → q.live + kept y - q.base ≤ m
PutRun-kept-le q a b c d r = let w = run-Within q a b c d r in omega (arith, w.room, w.same)
