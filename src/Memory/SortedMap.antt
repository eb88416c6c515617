-- ===== src/Memory/SortedMap.antt =====
-- An ordered map that meets the interface of the tree: a list of items in ascending order.
use kine.Prelude.{
  ◌≡◌, refl, subst, true, false, none, some, List, [], ◌∷◌, Bytes, str_eq, str_lt, if◌then◌else◌,
  arith, if_cases, drop_while, str_trichotomy, str_eq_iff, str_eq→eq,
}
use kine.Memory.Tree.{OrderedMap, lookup, Above, Ascending}
use kine.Memory.Ordered.{Above-trans, lookup-Above}

after : (k j : Bytes) → str_eq j k ≡ false → str_lt k j ≡ false → str_lt j k ≡ true
after k j ne ge = ground (arith, str_trichotomy k j, str_eq_iff j k)

module _ {V : Type 0} where
  unfoldable pub insert_item : Bytes → V → List (Bytes × V) → List (Bytes × V)
  insert_item k v [] = (k, v) ∷ []
  insert_item k v ((j, w) ∷ m) =
      let rest = insert_item k v m in
      if str_eq j k then (k, v) ∷ m else if str_lt k j then (k, v) ∷ (j, w) ∷ m else (j, w) ∷ rest

  unfoldable pub remove_item : Bytes → List (Bytes × V) → List (Bytes × V)
  remove_item k [] = []
  remove_item k ((j, w) ∷ m) = let rest = remove_item k m in if str_eq j k then m else (j, w) ∷ rest

  Above-insert_item :
      (i k : Bytes) (v : V) (m : List (Bytes × V))
      → str_lt i k ≡ true
      → Above i m
      → Above i (insert_item k v m)
  unfolding insert_item
  Above-insert_item i k v [] h a = (h, tt)
  Above-insert_item i k v ((j, w) ∷ m) h a =
      if_cases (Above i) (str_eq j k) _ _ (λ _. (h, a.1))
        (λ _.
          if_cases (Above i) (str_lt k j) _ _ (λ _. (h, a))
            (λ _. (a.0, Above-insert_item i k v m h a.1)))

  pub insert_item-Ascending :
      (k : Bytes) (v : V) (m : List (Bytes × V)) → Ascending m → Ascending (insert_item k v m)
  unfolding insert_item
  insert_item-Ascending k v [] a = (tt, tt)
  insert_item-Ascending k v ((j, w) ∷ m) a =
      if_cases Ascending (str_eq j k) _ _
        (λ same. (subst (λ i. Above i m) (str_eq→eq j k same) a.0, a.1))
        (λ ne.
          if_cases Ascending (str_lt k j) _ _ (λ lt. ((lt, Above-trans k j m lt a.0), a))
            (λ ge.
              (Above-insert_item j k v m (after k j ne ge) a.0, insert_item-Ascending k v m a.1)))

  pub lookup-insert_item :
      (k i : Bytes) (v : V) (m : List (Bytes × V))
      → lookup i (insert_item k v m) ≡ (if str_eq k i then some v else lookup i m)
  unfolding insert_item
  lookup-insert_item k i v [] = refl
  lookup-insert_item k i v ((j, w) ∷ m) =
      ground (arith, lookup-insert_item k i v m, str_eq_iff j k, str_eq_iff j i, str_eq_iff k i)

  Above-remove_item : (i k : Bytes) (m : List (Bytes × V)) → Above i m → Above i (remove_item k m)
  unfolding remove_item
  Above-remove_item i k [] a = tt
  Above-remove_item i k ((j, w) ∷ m) a =
      if_cases (Above i) (str_eq j k) _ _ (λ _. a.1) (λ _. (a.0, Above-remove_item i k m a.1))

  pub remove_item-Ascending :
      (k : Bytes) (m : List (Bytes × V)) → Ascending m → Ascending (remove_item k m)
  unfolding remove_item
  remove_item-Ascending k [] a = tt
  remove_item-Ascending k ((j, w) ∷ m) a =
      if_cases Ascending (str_eq j k) _ _ (λ _. a.1)
        (λ _. (Above-remove_item j k m a.0, remove_item-Ascending k m a.1))

  pub lookup-remove_item :
      (k i : Bytes) (m : List (Bytes × V))
      → Ascending m
      → lookup i (remove_item k m) ≡ (if str_eq k i then none else lookup i m)
  unfolding remove_item
  lookup-remove_item k i [] a = ground arith
  lookup-remove_item k i ((j, w) ∷ m) a = ground (
    arith,
    lookup-remove_item k i m a.1,
    str_eq_iff j k,
    str_eq_iff j i,
    str_eq_iff k i,
    lookup-Above j m a.0,
  )

abbrev pub sorted_map : (V : Type 0) → OrderedMap V
sorted_map V = record {
  Map = (m : List (Bytes × V)) × Ascending m;
  empty = ([], tt);
  get = λ m k. lookup k m.0;
  set = λ m k v. (insert_item k v m.0, insert_item-Ascending k v m.0 m.1);
  delete = λ m k. (remove_item k m.0, remove_item-Ascending k m.0 m.1);
  scan = λ m. m.0;
  seek = λ m k. drop_while (λ p. str_lt p.0 k) m.0;
  get-empty = λ k. refl;
  get-set = λ m k j v. lookup-insert_item k j v m.0;
  get-delete = λ m k j. lookup-remove_item k j m.0 m.1;
  lookup-scan = λ m k. refl;
  scan-Ascending = λ m. m.1;
  seek_scan = λ m k. refl;
}
