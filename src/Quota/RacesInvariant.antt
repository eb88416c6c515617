-- ===== src/Quota/RacesInvariant.antt =====
-- pkg/server/kubehz_quota.go: what holds of the counters after every atomic step.
use kine.Prelude.{
  All-parts, All-map, Among, ℕ, ◌+◌, ◌≤◌, ◌≡◌, refl, sym, subst, inl, inr, true, false, List, [],
  ◌∷◌, ◌++◌, All, All-append, arith,
}
use kine.Quota.Figures.{Figures}
use kine.Quota.Races.{
  Put, began, based, loaded, refused, reserved, Sampling, outside, marked, stored, State, own_base,
  Move, PutStep, SampleStep, quiet, Run, reserved_cost, refused_cost, total, load_base, load_live,
  add_kept, add_refused, give_back, end, begin, move, mark, fail, store_live, store_base,
  store_again, by_put, by_sample, here, then,
}

pub total-append : (f : Put → ℕ) (ps qs : List Put) → total f (ps ++ qs) ≡ total f ps + total f qs
total-append f [] qs = omega arith
total-append f (p ∷ ps) qs = omega (arith, total-append f ps qs)

-- What a put has loaded: a base that is not above the one of the live figure that it reads next, or
-- has read.
abbrev pub Fits : ℕ → List (ℕ × ℕ) → Put → Type 0
Fits own samples (based t c b) = b ≤ own
Fits own samples (loaded t c b l of) = (b ≤ of) × Among (l, of) samples
Fits own samples (began t c) = Unit
Fits own samples (refused c) = Unit
Fits own samples (reserved c) = Unit

Fits-mono :
    (own own' : ℕ) (samples : List (ℕ × ℕ))
    → own ≤ own'
    → (p : Put) → Fits own samples p
    → Fits own' samples p
Fits-mono own own' samples le (based t c b) h = omega (arith, h, le)
Fits-mono own own' samples le (loaded t c b l of) h = h
Fits-mono own own' samples le (began t c) h = tt
Fits-mono own own' samples le (refused c) h = tt
Fits-mono own own' samples le (reserved c) h = tt

Fits-more :
    (own : ℕ) (x : ℕ × ℕ) (samples : List (ℕ × ℕ)) (p : Put)
    → Fits own samples p
    → Fits own (x ∷ samples) p
Fits-more own x samples (based t c b) h = h
Fits-more own x samples (loaded t c b l of) h = (h.0, inr h.1)
Fits-more own x samples (began t c) h = tt
Fits-more own x samples (refused c) h = tt
Fits-more own x samples (reserved c) h = tt

-- the mark that a sample has loaded
abbrev pub Marked : Sampling → Figures → Type 0
Marked outside q = q.marks1 ≤ q.committed
Marked (marked m) q = (q.marks1 ≤ m) × (m ≤ q.committed)
Marked (stored m) q = (q.marks1 ≤ m) × (m ≤ q.committed)

pub record Inv (y : State) : Type 0 where
  pub accounted :
      y.figures.written
      ≡ y.figures.committed + total reserved_cost y.puts + total refused_cost y.puts
  pub ordered : (y.figures.base ≤ y.figures.marks0) × (y.figures.marks0 ≤ y.figures.marks1)
  pub mark_old : Marked y.sampling y.figures
  pub current : Among (y.figures.live, own_base y.sampling y.figures) y.samples
  pub fits : All (Fits (own_base y.sampling y.figures) y.samples) y.puts

pub quiet-Inv :
    (q : Figures)
    → q.written ≡ q.committed
    → q.base ≤ q.marks0
    → q.marks0 ≤ q.marks1
    → q.marks1 ≤ q.committed
    → Inv (quiet q)
quiet-Inv q a b c d = record {
  accounted = omega (arith, a);
  ordered = (b, c);
  mark_old = d;
  current = inl refl;
  fits = tt;
}

-- What a move of one put leaves as it was, and what it does to the sums.
pub record Conserves (sampling : Sampling) (q q' : Figures) (p : Put) (now : List Put)
    : Type 0 where
  pub limit : q'.limit ≡ q.limit
  pub live : q'.live ≡ q.live
  pub base : q'.base ≡ q.base
  pub marks0 : q'.marks0 ≡ q.marks0
  pub marks1 : q'.marks1 ≡ q.marks1
  pub rises : q.committed ≤ q'.committed
  pub sums :
      (rest : ℕ)
      → q.written ≡ q.committed + reserved_cost p + refused_cost p + rest
      → q'.written ≡ q'.committed + total reserved_cost now + total refused_cost now + rest

pub Move-Conserves :
    {sampling : Sampling} {q q' : Figures} {p : Put} {now : List Put}
    → Move sampling q p q' now
    → Conserves sampling q q' p now
Move-Conserves load_base = ground arith
Move-Conserves load_live = ground arith
Move-Conserves (add_kept h) = ground arith
Move-Conserves (add_refused h) = ground arith
Move-Conserves give_back = ground arith
Move-Conserves (end true) = ground arith
Move-Conserves (end false) = ground arith

Move-Fits :
    {sampling : Sampling} {q q' : Figures} {p : Put} {now : List Put} (samples : List (ℕ × ℕ))
    → Move sampling q p q' now
    → Among (q.live, own_base sampling q) samples
    → Fits (own_base sampling q) samples p
    → q.base ≤ q.marks0
    → All (Fits (own_base sampling q) samples) now
Move-Fits {sampling = outside} samples load_base current h le = (omega arith, tt)
Move-Fits {sampling = marked m} samples load_base current h le = (omega arith, tt)
Move-Fits {sampling = stored m} samples load_base current h le = (le, tt)
Move-Fits samples load_live current h le = ((h, current), tt)
Move-Fits samples (add_kept k) current h le = (tt, tt)
Move-Fits samples (add_refused k) current h le = (tt, tt)
Move-Fits samples give_back current h le = tt
Move-Fits samples (end wrote) current h le = tt

own_base-eq :
    (sampling : Sampling) (q q' : Figures)
    → q'.base ≡ q.base
    → q'.marks0 ≡ q.marks0
    → own_base sampling q' ≡ own_base sampling q
own_base-eq outside q q' e f = e
own_base-eq (marked m) q q' e f = e
own_base-eq (stored m) q q' e f = f

Marked-mono :
    (sampling : Sampling) (q q' : Figures)
    → q'.marks1 ≡ q.marks1
    → q.committed ≤ q'.committed
    → Marked sampling q
    → Marked sampling q'
Marked-mono outside q q' e le h = omega (arith, e, le, h)
Marked-mono (marked m) q q' e le h = omega (arith, e, le, h)
Marked-mono (stored m) q q' e le h = omega (arith, e, le, h)

module _ (y : State) (before after now : List Put) (p : Put) (q : Figures)
    (e : y.puts ≡ before ++ p ∷ after) (m : Move y.sampling y.figures p q now) (inv : Inv y) where
  pub parts : (f : Put → ℕ) → total f y.puts ≡ total f before + (f p + total f after)
  parts f =
      subst (λ ps. total f ps ≡ total f before + (f p + total f after)) (sym e)
        (total-append f before (p ∷ after))

  pub new_parts :
      (f : Put → ℕ)
      → total f (before ++ (now ++ after)) ≡ total f before + (total f now + total f after)
  new_parts f = omega (arith, total-append f before (now ++ after), total-append f now after)

  fit_parts :
      All (Fits (own_base y.sampling y.figures) y.samples) before
      × All (Fits (own_base y.sampling y.figures) y.samples) (p ∷ after)
  fit_parts =
      All-parts (Fits (own_base y.sampling y.figures) y.samples) before (p ∷ after)
        (subst (All (Fits (own_base y.sampling y.figures) y.samples)) e inv.fits)

  move-Inv : Inv (record y { figures = q; puts = before ++ (now ++ after) })
  move-Inv =
      let k = Move-Conserves m in
      let own = own_base-eq y.sampling y.figures q k.base k.marks0 in
      let P = Fits (own_base y.sampling y.figures) y.samples in
      record {
        accounted = omega (
          arith,
          new_parts reserved_cost,
          new_parts refused_cost,
          k.sums
              (total reserved_cost before
                + total reserved_cost after
                + (total refused_cost before + total refused_cost after))
              (omega (arith, inv.accounted, parts reserved_cost, parts refused_cost)),
        );
        ordered = omega (arith, inv.ordered, k.base, k.marks0, k.marks1);
        mark_old = Marked-mono y.sampling y.figures q k.marks1 k.rises inv.mark_old;
        current =
            subst (λ l. Among (l, own_base y.sampling q) y.samples) (sym k.live)
              (subst (λ o. Among (y.figures.live, o) y.samples) (sym own) inv.current);
        fits =
            subst (λ o. All (Fits o y.samples) (before ++ (now ++ after))) (sym own)
              (All-append P before (now ++ after) fit_parts.0 (
                All-append P now after
                  (Move-Fits y.samples m inv.current fit_parts.1.0 inv.ordered.0) fit_parts.1.1));
      }

pub PutStep-Inv : {y z : State} → PutStep y z → Inv y → Inv z
PutStep-Inv (begin t c) inv = record {
  accounted = omega (arith, inv.accounted);
  ordered = inv.ordered;
  mark_old = inv.mark_old;
  current = inv.current;
  fits = (tt, inv.fits);
}
PutStep-Inv {y} (move before after now p q e m) inv = move-Inv y before after now p q e m inv

-- A sample's step keeps what the puts have loaded, as the base that belongs to the live figure rises.
SampleStep-Inv : {y z : State} → SampleStep y z → Inv y → Inv z
SampleStep-Inv {y} (mark e) inv = record {
  accounted = inv.accounted;
  ordered = inv.ordered;
  mark_old = (subst (λ s. Marked s y.figures) e inv.mark_old, omega arith);
  current = subst (λ s. Among (y.figures.live, own_base s y.figures) y.samples) e inv.current;
  fits = subst (λ s. All (Fits (own_base s y.figures) y.samples) y.puts) e inv.fits;
}
SampleStep-Inv {y} (fail m e) inv =
    let old = subst (λ s. Marked s y.figures) e inv.mark_old in
    record {
      accounted = inv.accounted;
      ordered = inv.ordered;
      mark_old = omega (arith, old);
      current = subst (λ s. Among (y.figures.live, own_base s y.figures) y.samples) e inv.current;
      fits = subst (λ s. All (Fits (own_base s y.figures) y.samples) y.puts) e inv.fits;
    }
SampleStep-Inv {y} (store_live m size e) inv = record {
  accounted = inv.accounted;
  ordered = inv.ordered;
  mark_old = subst (λ s. Marked s y.figures) e inv.mark_old;
  current = inl refl;
  fits = All-map _ _ (Fits-more y.figures.marks0 (size, y.figures.marks0) y.samples) y.puts (
      All-map _ _ (Fits-mono y.figures.base y.figures.marks0 y.samples inv.ordered.0) y.puts
        (subst (λ s. All (Fits (own_base s y.figures) y.samples) y.puts) e inv.fits));
}
SampleStep-Inv {y} (store_base m e) inv =
    let old = subst (λ s. Marked s y.figures) e inv.mark_old in
    record {
      accounted = inv.accounted;
      ordered = (inv.ordered.1, old.0);
      mark_old = old.1;
      current = subst (λ s. Among (y.figures.live, own_base s y.figures) y.samples) e inv.current;
      fits = subst (λ s. All (Fits (own_base s y.figures) y.samples) y.puts) e inv.fits;
    }
SampleStep-Inv {y} (store_again size e) inv =
    let q = record y.figures { live = size } in
    let samples = (size, y.figures.base) ∷ y.samples in
    record {
      accounted = inv.accounted;
      ordered = inv.ordered;
      mark_old = subst (λ s. Marked s q) (sym e) (subst (λ s. Marked s y.figures) e inv.mark_old);
      current = subst (λ s. Among (size, own_base s q) samples) (sym e) (inl refl);
      fits =
          subst (λ s. All (Fits (own_base s q) samples) y.puts) (sym e)
            (All-map _ _ (Fits-more y.figures.base (size, y.figures.base) y.samples) y.puts
              (subst (λ s. All (Fits (own_base s y.figures) y.samples) y.puts) e inv.fits));
    }

pub Run-Inv :
    (q : Figures) {y : State}
    → q.written ≡ q.committed
    → q.base ≤ q.marks0
    → q.marks0 ≤ q.marks1
    → q.marks1 ≤ q.committed
    → Run q y
    → Inv y
Run-Inv q a b c d here = quiet-Inv q a b c d
Run-Inv q a b c d (then r (by_put s)) = PutStep-Inv s (Run-Inv q a b c d r)
Run-Inv q a b c d (then r (by_sample s)) = SampleStep-Inv s (Run-Inv q a b c d r)
