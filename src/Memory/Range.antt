-- ===== src/Memory/Range.antt =====
-- The range `[key, end)` of an ascending list of items: what the iterator of `List` passes over.
use kine.Prelude.{
  ◌≡◌, refl, ap, ◌∙◌, sym, inl, inr, true, false, not, ◌&&◌, Option, none, List, [], ◌∷◌, Bytes,
  str_lt, str_ge, if◌then◌else◌, take_while, drop_while, arith, Bool-cases, str_eq_iff, str_eq_refl,
  str_lt_trans, str_trichotomy, str_lt-ne, str_eq_comm,
}
use kine.Types.{KeyValue}
use kine.Memory.Tree.{Above, Ascending}
use kine.Memory.Entry.{past_end}
use kine.Memory.Ordered.{collect, Every, collect-none, collect-skip, collect-hit}

-- `f` inside the range, and nothing outside.
abbrev pub ranged : Bytes → Bytes → (Bytes → Option KeyValue) → Bytes → Option KeyValue
ranged key end f k = if str_ge k key && not (past_end key end k) then f k else none

past_end_mono :
    (key end k j : Bytes)
    → str_lt k key ≡ false
    → str_lt k j ≡ true
    → past_end key end k ≡ true
    → past_end key end j ≡ true
past_end_mono key end k j ge lt past = ground (
  arith,
  str_trichotomy k key,
  str_lt_trans key k j,
  str_lt-ne key j,
  str_eq_comm j key,
  str_eq_iff k key,
  str_eq_refl key,
  str_lt_trans k j end,
)

ge_mono : (key k j : Bytes) → str_lt k key ≡ false → str_lt k j ≡ true → str_lt j key ≡ false
ge_mono key k j ge lt = ground (arith, str_lt_trans k j key)

module _ (key end : Bytes) (f : Bytes → Option KeyValue) (k : Bytes) where
  ranged-below : str_lt k key ≡ true → ranged key end f k ≡ none
  ranged-below e = rw e

  ranged-past : past_end key end k ≡ true → ranged key end f k ≡ none
  ranged-past e = elim (Bool-cases (str_lt k key)) [ inl b ↦ rw b | inr b ↦ rw (b, e) ]

  ranged-inside : str_lt k key ≡ false → past_end key end k ≡ false → f k ≡ ranged key end f k
  ranged-inside b e = rw (b, e)

module _ {V : Type 0} (key end : Bytes) (f : Bytes → Option KeyValue) where
  abbrev inside : List (Bytes × V) → List (Bytes × V)
  inside = take_while (λ p. not (past_end key end p.0))

  abbrev from_key : List (Bytes × V) → List (Bytes × V)
  from_key = drop_while (λ p. str_lt p.0 key)

  -- Behind an item past the end, all are.
  collect-past :
      (k : Bytes) (items : List (Bytes × V))
      → str_lt k key ≡ false
      → past_end key end k ≡ true
      → Above k items
      → Every (λ j. ranged key end f j ≡ none) items
  collect-past k [] ge past a = tt
  collect-past k ((j, v) ∷ items) ge past a = (
    ranged-past key end f j (past_end_mono key end k j ge a.0 past),
    collect-past k items ge past a.1,
  )

  collect-inside :
      (items : List (Bytes × V))
      → Ascending items
      → Every (λ k. str_lt k key ≡ false) items
      → collect f (inside items) ≡ collect (ranged key end f) items
  unfolding collect
  collect-inside [] a g = refl
  collect-inside ((k, v) ∷ items) a g = elim (Bool-cases (past_end key end k)) [
    | inl past ↦
        let e : inside ((k, v) ∷ items) ≡ [] = rw past in
        ap (collect f) e
        ∙ sym (
            collect-none (ranged key end f) ((k, v) ∷ items)
              (ranged-past key end f k past, collect-past k items g.0 past a.0))
    | inr within ↦
        let e : inside ((k, v) ∷ items) ≡ (k, v) ∷ inside items = rw within in
        ap (collect f) e
        ∙ collect-hit f (ranged key end f) k v (inside items) items
            (ranged-inside key end f k g.0 within) (collect-inside items a.1 g.1)
  ]

  Above-ge :
      (k : Bytes) (items : List (Bytes × V))
      → str_lt k key ≡ false
      → Above k items
      → Every (λ j. str_lt j key ≡ false) items
  Above-ge k [] ge a = tt
  Above-ge k ((j, v) ∷ items) ge a = (ge_mono key k j ge a.0, Above-ge k items ge a.1)

  -- The items from `Seek key` up to the end of the range hold what the range of all items does.
  pub collect_range :
      (items : List (Bytes × V))
      → Ascending items
      → collect f (inside (from_key items)) ≡ collect (ranged key end f) items
  collect_range [] a = collect-inside [] tt tt
  collect_range ((k, v) ∷ items) a = elim (Bool-cases (str_lt k key)) [
    | inl below ↦
        let e : from_key ((k, v) ∷ items) ≡ from_key items = rw below in
        ap (λ l. collect f (inside l)) e
        ∙ collect_range items a.1
        ∙ sym (collect-skip (ranged key end f) k v items (ranged-below key end f k below))
    | inr ge ↦
        let e : from_key ((k, v) ∷ items) ≡ (k, v) ∷ items = rw ge in
        ap (λ l. collect f (inside l)) e
        ∙ collect-inside ((k, v) ∷ items) a (ge, Above-ge k items ge a.0)
  ]
