-- ===== src/Memory/Tree.antt =====
-- github.com/tidwall/btree's `Map[string, V]`, as pkg/drivers/memory/memory.go uses it: an ordered
-- map from strings. The package is not part of the repository, so it is an interface: its methods,
-- and what its documentation says of them.
use kine.Prelude.{
  ◌≡◌, true, Option, none, some, List, [], ◌∷◌, Bytes, str_eq, str_lt, if◌then◌else◌, drop_while,
}

module _ {ℓ} {V : Type ℓ} where
  -- The value at a key of a list of pairs: the first one.
  abbrev pub lookup : Bytes → List (Bytes × V) → Option V
  lookup k [] = none
  lookup k ((j, v) ∷ m) = if str_eq j k then some v else lookup k m

  -- Every key is above `k`.
  abbrev pub Above : Bytes → List (Bytes × V) → Type 0
  Above k [] = Unit
  Above k ((j, v) ∷ m) = (str_lt k j ≡ true) × Above k m

  -- The keys ascend strictly.
  abbrev pub Ascending : List (Bytes × V) → Type 0
  Ascending [] = Unit
  Ascending ((j, v) ∷ m) = Above j m × Ascending m

pub record OrderedMap (V : Type 0) : Type 1 where
  pub Map : Type 0
  -- `NewMap`, `Get`, `Set`, `Delete`
  pub empty : Map
  pub get : Map → Bytes → Option V
  pub set : Map → Bytes → V → Map
  pub delete : Map → Bytes → Map
  -- The items that `Scan` visits, and those that an iterator visits from `Seek key` on.
  pub scan : Map → List (Bytes × V)
  pub seek : Map → Bytes → List (Bytes × V)
  pub get-empty : (k : Bytes) → get empty k ≡ none
  pub get-set :
      (m : Map) (k j : Bytes) (v : V) → get (set m k v) j ≡ (if str_eq k j then some v else get m j)
  pub get-delete :
      (m : Map) (k j : Bytes) → get (delete m k) j ≡ (if str_eq k j then none else get m j)
  -- `Scan` visits each item once, in ascending order of the keys.
  pub lookup-scan : (m : Map) (k : Bytes) → lookup k (scan m) ≡ get m k
  pub scan-Ascending : (m : Map) → Ascending (scan m)
  -- `Seek` moves to the first item whose key is not below the argument.
  pub seek_scan : (m : Map) (k : Bytes) → seek m k ≡ drop_while (λ p. str_lt p.0 k) (scan m)
