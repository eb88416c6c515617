-- ===== src/Nats/Split.antt =====
-- strings.Split and strings.Join with a separator of one byte.
use kine.Prelude.{
  ℕ, ◌≡◌, refl, ap, ◌∙◌, sym, true, false, List, [], ◌∷◌, ◌++◌, Bytes, ◌==◌, if◌then◌else◌,
  if_cases, Bool-cases, inl, inr, All, has_prefix, ◌&&◌, arith,
}

-- a byte put before the first part
abbrev pub prepend : ℕ → List Bytes → List Bytes
prepend c [] = (c ∷ []) ∷ []
prepend c (p ∷ ps) = (c ∷ p) ∷ ps

abbrev pub split : ℕ → Bytes → List Bytes
split sep [] = [] ∷ []
split sep (c ∷ s) = let rest = split sep s in if c == sep then [] ∷ rest else prepend c rest

abbrev pub join : ℕ → List Bytes → Bytes
join sep [] = []
join sep (p ∷ []) = p
join sep (p ∷ q ∷ ps) = p ++ sep ∷ join sep (q ∷ ps)

abbrev pub IsFree : ℕ → Bytes → Type 0
IsFree sep s = All (λ c. (c == sep) ≡ false) s

-- There is always a first part.
pub split-cons : (sep : ℕ) (s : Bytes) → (p : Bytes) × (ps : List Bytes) × (split sep s ≡ p ∷ ps)
split-cons sep [] = ([], [], refl)
split-cons sep (c ∷ s) =
    let (p, ps, e) = split-cons sep s in
    elim (Bool-cases (c == sep)) [
      | inl hit ↦ ([], split sep s, rw hit refl)
      | inr miss ↦ (c ∷ p, ps, rw miss (ap (prepend c) e))
    ]

join-prepend :
    (sep c : ℕ) (p : Bytes) (ps : List Bytes)
    → join sep (prepend c (p ∷ ps)) ≡ c ∷ join sep (p ∷ ps)
join-prepend sep c p [] = refl
join-prepend sep c p (q ∷ ps) = refl

join-empty :
    (sep : ℕ) (p : Bytes) (ps : List Bytes) → join sep ([] ∷ p ∷ ps) ≡ sep ∷ join sep (p ∷ ps)
join-empty sep p ps = refl

-- The parts of a string, joined, are the string.
pub join-split : (sep : ℕ) (s : Bytes) → join sep (split sep s) ≡ s
join-split sep [] = refl
join-split sep (c ∷ s) =
    let (p, ps, e) = split-cons sep s in
    let again = sym (ap (join sep) e) ∙ join-split sep s in
    elim (Bool-cases (c == sep)) [
      | inl hit ↦ rw hit (
          ap (λ l. join sep ([] ∷ l)) e
          ∙ ap (λ t. sep ∷ t) again
          ∙ ap (λ x. x ∷ s) {x = sep} {y = c} (ground (arith, hit)))
      | inr miss ↦
          rw miss
            (ap (λ l. join sep (prepend c l)) e ∙ join-prepend sep c p ps ∙ ap (λ t. c ∷ t) again)
    ]

same_byte : (n : ℕ) → (n == n) ≡ true
same_byte n = ground arith

split-append : (sep : ℕ) (p s : Bytes) → IsFree sep p → split sep (p ++ sep ∷ s) ≡ p ∷ split sep s
split-append sep [] s h = rw (same_byte sep) refl
split-append sep (c ∷ p) s h = rw (h.0, split-append sep p s h.1) refl

split_free : (sep : ℕ) (p : Bytes) → IsFree sep p → split sep p ≡ p ∷ []
split_free sep [] h = refl
split_free sep (c ∷ p) h = rw (h.0, split_free sep p h.1) refl

-- Parts without the separator, joined and split, are the parts.
pub split-join :
    (sep : ℕ) (p : Bytes) (ps : List Bytes)
    → All (IsFree sep) (p ∷ ps)
    → split sep (join sep (p ∷ ps)) ≡ p ∷ ps
split-join sep p [] h = split_free sep p h.0
split-join sep p (q ∷ ps) h =
    split-append sep p (join sep (q ∷ ps)) h.0 ∙ ap (λ l. p ∷ l) (split-join sep q ps h.1)

prepend-IsFree :
    (sep c : ℕ) (ps : List Bytes)
    → (c == sep) ≡ false
    → All (IsFree sep) ps
    → All (IsFree sep) (prepend c ps)
prepend-IsFree sep c [] miss h = ((miss, tt), tt)
prepend-IsFree sep c (p ∷ ps) miss h = ((miss, h.0), h.1)

pub split-IsFree : (sep : ℕ) (s : Bytes) → All (IsFree sep) (split sep s)
split-IsFree sep [] = (tt, tt)
split-IsFree sep (c ∷ s) =
    if_cases (All (IsFree sep)) (c == sep) ([] ∷ split sep s) (prepend c (split sep s))
      (λ hit. (tt, split-IsFree sep s))
      (λ miss. prepend-IsFree sep c (split sep s) miss (split-IsFree sep s))

other_byte : (a b : ℕ) → (b == a) ≡ false → (a == b) ≡ false
other_byte a b h = ground arith

-- A prefix without the separator is found in the first part, or not at all.
pub has_prefix-append :
    (sep : ℕ) (p s m : Bytes) → IsFree sep m → has_prefix (p ++ sep ∷ s) m ≡ has_prefix p m
has_prefix-append sep p s [] h = refl
has_prefix-append sep [] s (c ∷ m) h = rw (other_byte sep c h.0) refl
has_prefix-append sep (x ∷ p) s (c ∷ m) h =
    ap (λ b. (x == c) && b) (has_prefix-append sep p s m h.1)
