-- ===== src/Memory/Ordered.antt =====
-- Lists of items in ascending order of their keys: what a range of them collects.
use kine.Prelude.{
  ◌≡◌, refl, ap, ◌∙◌, sym, subst, inl, inr, true, false, Option, none, some, List, [], ◌∷◌, Bytes,
  str_eq, str_lt, Bool-cases, str_eq_iff, str_lt_trans, str_trichotomy, str_lt-ne, str_eq_comm,
}
use kine.Types.{KeyValue}
use kine.Memory.Tree.{lookup, Above, Ascending}

module _ {V : Type 0} where
  -- The values of `f` at the keys of the items, in their order.
  unfoldable pub collect : (Bytes → Option KeyValue) → List (Bytes × V) → List KeyValue
  collect f [] = []
  collect f ((k, _) ∷ items) =
      let rest = collect f items in elim (f k) [ none ↦ rest | some kv ↦ kv ∷ rest ]

  abbrev pub Every : (Bytes → Type 0) → List (Bytes × V) → Type 0
  Every Q [] = Unit
  Every Q ((k, _) ∷ items) = Q k × Every Q items

  pub Every-map :
      (Q R : Bytes → Type 0)
      → ((k : Bytes) → Q k → R k)
      → (items : List (Bytes × V)) → Every Q items
      → Every R items
  Every-map Q R h [] e = tt
  Every-map Q R h ((k, _) ∷ items) e = (h k e.0, Every-map Q R h items e.1)

  pub Above-Every :
      (k : Bytes) (items : List (Bytes × V)) → Above k items → Every (λ j. str_lt k j ≡ true) items
  Above-Every k [] a = tt
  Above-Every k ((j, _) ∷ items) a = (a.0, Above-Every k items a.1)

  pub Above-trans :
      (k j : Bytes) (items : List (Bytes × V)) → str_lt k j ≡ true → Above j items → Above k items
  Above-trans k j [] h a = tt
  Above-trans k j ((i, _) ∷ items) h a = (str_lt_trans k j i h a.0, Above-trans k j items h a.1)

  -- A key below every key of the list is not in it.
  pub lookup-Above : (k : Bytes) (items : List (Bytes × V)) → Above k items → lookup k items ≡ none
  lookup-Above k [] a = refl
  lookup-Above k ((j, v) ∷ items) a =
      rw (str_eq_comm j k, str_lt-ne k j a.0) (lookup-Above k items a.1)

  lookup-miss :
      (k j : Bytes) (v : V) (items : List (Bytes × V))
      → str_eq j k ≡ false
      → lookup k items ≡ none
      → lookup k ((j, v) ∷ items) ≡ none
  lookup-miss k j v items ne e = rw ne e

  pub collect-none :
      (f : Bytes → Option KeyValue) (items : List (Bytes × V))
      → Every (λ k. f k ≡ none) items
      → collect f items ≡ []
  unfolding collect
  collect-none f [] e = refl
  collect-none f ((k, _) ∷ items) e = rw (collect, e.0) (collect-none f items e.1)

  pub collect-skip :
      (f : Bytes → Option KeyValue) (k : Bytes) (v : V) (items : List (Bytes × V))
      → f k ≡ none
      → collect f ((k, v) ∷ items) ≡ collect f items
  unfolding collect
  collect-skip f k v items e = rw (collect, e)

  pub collect-hit :
      (f g : Bytes → Option KeyValue) (k : Bytes) (v : V) (xs ys : List (Bytes × V))
      → f k ≡ g k
      → collect f xs ≡ collect g ys
      → collect f ((k, v) ∷ xs) ≡ collect g ((k, v) ∷ ys)
  unfolding collect
  collect-hit f g k v xs ys h e =
      ap (λ o. elim o [ none ↦ collect f xs | some kv ↦ kv ∷ collect f xs ]) h
      ∙ ap (λ rest. elim (g k) [ none ↦ rest | some kv ↦ kv ∷ rest ]) e

  abbrev pub Covers : (Bytes → Type 0) → (Bytes → Option KeyValue) → List (Bytes × V) → Type 0
  Covers Q f items = (k : Bytes) → Q k → lookup k items ≡ none → f k ≡ none

  -- `f` is `none` at the head: the tail covers what the list does.
  Covers-tail :
      (Q : Bytes → Type 0) (f : Bytes → Option KeyValue) (j : Bytes) (v : V)
      (items : List (Bytes × V))
      → f j ≡ none
      → Covers Q f ((j, v) ∷ items)
      → Covers Q f items
  Covers-tail Q f j v items fj c k q e = elim (Bool-cases (str_eq j k)) [
    | inl same ↦ subst (λ i. f i ≡ none) ((str_eq_iff j k).0 same) fj
    | inr ne ↦ c k q (lookup-miss k j v items ne e)
  ]

  -- Above the head, the tail covers what the list does.
  Covers-above :
      (Q : Bytes → Type 0) (f : Bytes → Option KeyValue) (j : Bytes) (v : V)
      (items : List (Bytes × V))
      → ((k : Bytes) → str_lt j k ≡ true → Q k)
      → Covers Q f ((j, v) ∷ items)
      → Covers (λ k. str_lt j k ≡ true) f items
  Covers-above Q f j v items up c k a e = c k (up k a) (lookup-miss k j v items (str_lt-ne j k a) e)

module _ {V W : Type 0} where
  pub collect-cons :
      (f : Bytes → Option KeyValue) (k : Bytes) (v : V) (w : W) (xs : List (Bytes × V))
      (ys : List (Bytes × W))
      → collect f xs ≡ collect f ys
      → collect f ((k, v) ∷ xs) ≡ collect f ((k, w) ∷ ys)
  unfolding collect
  collect-cons f k v w xs ys e = ap (λ rest. elim (f k) [ none ↦ rest | some kv ↦ kv ∷ rest ]) e

  -- Two ascending lists collect the same, if `f` is `none` at every key that either lacks.
  pub collect_ext :
      (Q : Bytes → Type 0) (f : Bytes → Option KeyValue)
      → ((j k : Bytes) → Q j → str_lt j k ≡ true → Q k)
      → (xs : List (Bytes × V)) (ys : List (Bytes × W)) → Ascending xs
      → Ascending ys
      → Every Q xs
      → Every Q ys
      → Covers Q f xs
      → Covers Q f ys
      → collect f xs ≡ collect f ys
  unfolding collect
  collect_ext Q f up [] ys ax ay ex ey cx cy =
      sym (collect-none f ys (Every-map Q (λ k. f k ≡ none) (λ k q. cx k q refl) ys ey))
  collect_ext Q f up (x ∷ xs) [] ax ay ex ey cx cy =
      collect-none f (x ∷ xs) (Every-map Q (λ k. f k ≡ none) (λ k q. cy k q refl) (x ∷ xs) ex)
  collect_ext Q f up ((j, v) ∷ xs) ((k, w) ∷ ys) ax ay ex ey cx cy = elim (str_trichotomy j k) [
    | inl lt ↦
        let fj = cy j ex.0 (lookup-Above j ((k, w) ∷ ys) (lt, Above-trans j k ys lt ay.0)) in
        collect-skip f j v xs fj
        ∙ collect_ext Q f up xs ((k, w) ∷ ys) ax.1 ay ex.1 ey (Covers-tail Q f j v xs fj cx) cy
    | inr (inl e) ↦ rw (← e) (
        collect-cons f j v w xs ys (
          collect_ext (λ i. str_lt j i ≡ true) f (str_lt_trans j) xs ys ax.1 ay.1
            (Above-Every j xs ax.0) (Above-Every j ys (subst (λ i. Above i ys) (sym e) ay.0))
            (Covers-above Q f j v xs (λ i. up j i ex.0) cx)
            (subst (λ i. Covers (λ x. str_lt i x ≡ true) f ys) (sym e)
              (Covers-above Q f k w ys (λ i. up k i ey.0) cy))))
    | inr (inr gt) ↦
        let fk = cx k ey.0 (lookup-Above k ((j, v) ∷ xs) (gt, Above-trans k j xs gt ax.0)) in
        collect_ext Q f up ((j, v) ∷ xs) ys ax ay.1 ex ey.1 cx (Covers-tail Q f k w ys fk cy)
        ∙ sym (collect-skip f k w ys fk)
  ]
