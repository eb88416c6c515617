-- ===== src/Memory/Trim.antt =====
-- Compact of pkg/drivers/memory/memory.go on one history: what is cut off, and that no read at the
-- compacted revision or above can tell.
use kine.Prelude.{
  ℕ, ◌+◌, ◌≤◌, ◌<◌, ◌≡◌, refl, ap, ◌∙◌, sym, subst, inl, inr, Option, none, some, List, [], ◌∷◌,
  ◌++◌, ltb, leb, if◌then◌else◌, length, drop, drop-append, arith, Bool-cases, get_last?,
  append_assoc, length-append, le→leb, ltb→lt, All, if_cases,
}
use kine.Memory.Entry.{Entry, live, at_loop, floor_loop, new_hist, new_hist_at, get_elem?}
use kine.Memory.History.{Rising, read_at}

abbrev restore : Option Entry → List Entry → List Entry
restore none hist = hist
restore (some f) hist = if f.deleted then hist else f ∷ hist

-- `new_hist` by recursion on the list, with the floor so far.
trimmed : ℕ → Option Entry → List Entry → List Entry
trimmed revision floor [] = restore floor []
trimmed revision floor (e ∷ hist) =
    let rest = trimmed revision (some e) hist in
    if leb e.revision revision then rest else restore floor (e ∷ hist)

get_elem?-append :
    (pre hist : List Entry) (f : Entry) → get_elem? (pre ++ f ∷ hist) (length pre) ≡ some f
get_elem?-append [] hist f = refl
get_elem?-append (x ∷ pre) hist f = get_elem?-append pre hist f

drop-append_suc :
    (pre hist : List Entry) (f : Entry) → drop (length pre + 1) (pre ++ f ∷ hist) ≡ hist
drop-append_suc pre hist f =
    let e : length pre + 1 ≡ length (pre ++ f ∷ []) = omega (arith, length-append pre (f ∷ [])) in
    rw (e, ← append_assoc pre (f ∷ []) hist) (drop-append (pre ++ f ∷ []) hist)

new_hist_at-floor :
    (pre hist : List Entry) (f : Entry)
    → new_hist_at (pre ++ f ∷ hist) (some (length pre)) ≡ restore (some f) hist
unfolding new_hist_at
new_hist_at-floor pre hist f =
    rw (get_elem?-append pre hist f, drop-append_suc pre hist f, drop-append pre (f ∷ hist))

floor-trimmed :
    (revision : ℕ) (pre hist : List Entry) (f : Entry)
    → new_hist_at (pre ++ f ∷ hist) (floor_loop revision hist (length pre + 1) (some (length pre)))
      ≡ trimmed revision (some f) hist
unfolding floor_loop trimmed
floor-trimmed revision pre [] f = new_hist_at-floor pre [] f
floor-trimmed revision pre (e ∷ hist) f = elim (Bool-cases (leb e.revision revision)) [
  | inl below ↦
      let n : length pre + 1 ≡ length (pre ++ f ∷ []) = omega (arith, length-append pre (f ∷ [])) in
      rw (below, n, ← append_assoc pre (f ∷ []) (e ∷ hist))
        (floor-trimmed revision (pre ++ f ∷ []) hist e)
  | inr above ↦ rw above (new_hist_at-floor pre (e ∷ hist) f)
]

new_hist-trimmed :
    (revision : ℕ) (hist : List Entry) → new_hist revision hist ≡ trimmed revision none hist
unfolding new_hist trimmed
new_hist-trimmed revision [] = refl
new_hist-trimmed revision (e ∷ hist) = elim (Bool-cases (leb e.revision revision)) [
  | inl below ↦ rw below (floor-trimmed revision [] hist e)
  | inr above ↦ rw above refl
]

-- The floor is not above the compacted revision.
abbrev FloorBelow : ℕ → Option Entry → Type 0
FloorBelow revision none = Unit
FloorBelow revision (some f) = f.revision ≤ revision

live-trimmed :
    (revision r : ℕ) (hist : List Entry) (o : Option Entry)
    → revision ≤ r
    → FloorBelow revision o
    → live (at_loop r (trimmed revision o hist) none) ≡ live (at_loop r hist o)
unfolding at_loop trimmed
live-trimmed revision r [] none le f = refl
live-trimmed revision r [] (some x) le f = ground arith
live-trimmed revision r (e ∷ hist) none le f =
    ground (arith, live-trimmed revision r hist (some e) le)
live-trimmed revision r (e ∷ hist) (some x) le f =
    ground (arith, live-trimmed revision r hist (some e) le)

-- The last entry is what a read at the newest revision finds.
last-at_loop :
    (lo hi : ℕ) (hist : List Entry) (o : Option Entry)
    → Rising lo hi hist
    → at_loop hi hist o ≡ elim (get_last? hist) [ none ↦ o | some e ↦ some e ]
unfolding at_loop
last-at_loop lo hi [] o r = refl
last-at_loop lo hi (e ∷ []) o r = ground arith
last-at_loop lo hi (e ∷ x ∷ hist) o r =
    rw (le→leb e.revision hi r.1) (last-at_loop e.revision hi (x ∷ hist) (some e) r.2)

or_none : (o : Option Entry) → elim o [ none ↦ none | some e ↦ some e ] ≡ o
or_none none = refl
or_none (some e) = refl

last?-at_loop :
    (lo hi : ℕ) (hist : List Entry) → Rising lo hi hist → get_last? hist ≡ at_loop hi hist none
last?-at_loop lo hi hist r = sym (last-at_loop lo hi hist none r ∙ or_none (get_last? hist))

Rising-below :
    (lo lo' hi : ℕ) (hist : List Entry) → lo' ≤ lo → Rising lo hi hist → Rising lo' hi hist
Rising-below lo lo' hi [] le r = tt
Rising-below lo lo' hi (e ∷ hist) le r = (omega arith, r.1, r.2)

Rising-restore :
    (lo hi : ℕ) (f : Entry) (hist : List Entry)
    → Rising lo hi (f ∷ hist)
    → Rising lo hi (restore (some f) hist)
Rising-restore lo hi f hist r = elim (Bool-cases f.deleted) [
  | inl gone ↦ rw gone (Rising-below f.revision lo hi hist (omega (arith, r.0)) r.2)
  | inr kept ↦ rw kept r
]

Rising-floor :
    (revision lo hi : ℕ) (f : Entry) (hist : List Entry)
    → Rising lo hi (f ∷ hist)
    → Rising lo hi (trimmed revision (some f) hist)
unfolding trimmed
Rising-floor revision lo hi f [] r = Rising-restore lo hi f [] r
Rising-floor revision lo hi f (e ∷ hist) r = elim (Bool-cases (leb e.revision revision)) [
  | inl below ↦
      rw below (Rising-floor revision lo hi e hist (omega (arith, r.0, r.2.0), r.2.1, r.2.2))
  | inr above ↦ rw above (Rising-restore lo hi f (e ∷ hist) r)
]

-- What is kept of a history rises as the history does.
pub Rising-new_hist :
    (revision lo hi : ℕ) (hist : List Entry)
    → Rising lo hi hist
    → Rising lo hi (new_hist revision hist)
unfolding trimmed
Rising-new_hist revision lo hi [] r = rw (new_hist-trimmed revision []) tt
Rising-new_hist revision lo hi (e ∷ hist) r =
    rw (new_hist-trimmed revision (e ∷ hist)) (elim (Bool-cases (leb e.revision revision)) [
      | inl below ↦ rw below (Rising-floor revision lo hi e hist r)
      | inr above ↦ rw above r
    ])

All-restore {κ} :
    (P : Entry → Type κ) (f : Entry) (hist : List Entry)
    → All P (f ∷ hist)
    → All P (restore (some f) hist)
All-restore P f hist a = if_cases (All P) f.deleted hist (f ∷ hist) (λ _. a.1) (λ _. a)

All-floor {κ} :
    (P : Entry → Type κ) (revision : ℕ) (f : Entry) (hist : List Entry)
    → All P (f ∷ hist)
    → All P (trimmed revision (some f) hist)
unfolding trimmed
All-floor P revision f [] a = All-restore P f [] a
All-floor P revision f (e ∷ hist) a =
    if_cases (All P) (leb e.revision revision) _ _ (λ _. All-floor P revision e hist a.1)
      (λ _. All-restore P f (e ∷ hist) a)

-- What is kept of a history was in it.
pub All-new_hist {κ} :
    (P : Entry → Type κ) (revision : ℕ) (hist : List Entry)
    → All P hist
    → All P (new_hist revision hist)
unfolding trimmed
All-new_hist P revision [] a = rw (new_hist-trimmed revision []) tt
All-new_hist P revision (e ∷ hist) a =
    subst (All P) (sym (new_hist-trimmed revision (e ∷ hist)))
      (if_cases (All P) (leb e.revision revision) _ _ (λ _. All-floor P revision e hist a) (λ _. a))

-- A read at the compacted revision or above, or of the newest entry, shows the same.
pub live-new_hist :
    (revision r lo hi : ℕ) (hist : List Entry)
    → Rising lo hi hist
    → revision ≤ hi
    → (0 < r → revision ≤ r)
    → live (read_at r (new_hist revision hist)) ≡ live (read_at r hist)
unfolding read_at
live-new_hist revision r lo hi hist rise le at = elim (Bool-cases (ltb 0 r)) [
  | inl p ↦ rw p (
      ap (λ h. live (at_loop r h none)) (new_hist-trimmed revision hist)
      ∙ live-trimmed revision r hist none (at (ltb→lt 0 r p)) tt)
  | inr z ↦ rw z (
      ap live
        (last?-at_loop lo hi (new_hist revision hist) (Rising-new_hist revision lo hi hist rise))
      ∙ ap (λ h. live (at_loop hi h none)) (new_hist-trimmed revision hist)
      ∙ live-trimmed revision hi hist none le tt
      ∙ ap live (sym (last?-at_loop lo hi hist rise)))
]
