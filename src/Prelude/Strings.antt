-- ===== src/Prelude/Strings.antt =====
-- Go strings and byte slices as lists of bytes, with Go's `==` and its order on strings.
use Prim.Native.Nat.{ℕ}
use Prim.Native.Char.{code}
use Prim.Native.String.{String}
use mathlib.Core.Path.{◌≡◌, refl}
use mathlib.Core.Logic.{◌↔◌, ◌⊎◌, inl, inr}
use mathlib.Core.Bool.{Bool, true, false, ◌&&◌, not}
use mathlib.Core.List.{List, [], ◌∷◌}
use native.Mathlib.Omega.{arith}
use kine.Prelude.Bools.{ltb, ◌==◌, if◌then◌else◌}

abbrev pub Bytes : Type 0
Bytes = List ℕ

-- The bytes of an ASCII literal. `String` has its own `[]` and `∷`.
abbrev pub codes : String → Bytes
codes String.[] = []
codes (String.◌∷◌ c s) = code c ∷ codes s

-- `a == b` on Go strings, and `bytes.Equal`.
abbrev pub str_eq : Bytes → Bytes → Bool
str_eq [] [] = true
str_eq [] (y ∷ ys) = false
str_eq (x ∷ xs) [] = false
str_eq (x ∷ xs) (y ∷ ys) = (x == y) && str_eq xs ys

-- `a < b` on Go strings: lexicographic, byte by byte.
abbrev pub str_lt : Bytes → Bytes → Bool
str_lt [] [] = false
str_lt [] (y ∷ ys) = true
str_lt (x ∷ xs) [] = false
str_lt (x ∷ xs) (y ∷ ys) =
    let rest = str_lt xs ys in if ltb x y then true else if x == y then rest else false

-- `a >= b` is `!(a < b)`.
abbrev pub str_ge : Bytes → Bytes → Bool
str_ge a b = not (str_lt a b)

-- `strings.HasPrefix`, `bytes.HasPrefix`.
abbrev pub has_prefix : Bytes → Bytes → Bool
has_prefix s [] = true
has_prefix [] (p ∷ ps) = false
has_prefix (c ∷ s) (p ∷ ps) = (c == p) && has_prefix s ps

pub str_eq→eq : (a b : Bytes) → str_eq a b ≡ true → a ≡ b
str_eq→eq [] [] h = refl
str_eq→eq [] (y ∷ ys) h = cc
str_eq→eq (x ∷ xs) [] h = cc
str_eq→eq (x ∷ xs) (y ∷ ys) h = ground (arith, str_eq→eq xs ys)

pub str_eq_refl : (a : Bytes) → str_eq a a ≡ true
str_eq_refl [] = refl
str_eq_refl (x ∷ xs) = ground (arith, str_eq_refl xs)

pub str_eq_iff : (a b : Bytes) → (str_eq a b ≡ true) ↔ (a ≡ b)
str_eq_iff a b = (str_eq→eq a b, λ e. rw e (str_eq_refl b))

pub str_lt_irrefl : (a : Bytes) → str_lt a a ≡ false
str_lt_irrefl [] = refl
str_lt_irrefl (x ∷ xs) = ground (arith, str_lt_irrefl xs)

pub str_lt_trans : (a b c : Bytes) → str_lt a b ≡ true → str_lt b c ≡ true → str_lt a c ≡ true
str_lt_trans [] [] c h k = cc
str_lt_trans [] (y ∷ ys) [] h k = cc
str_lt_trans [] (y ∷ ys) (z ∷ zs) h k = refl
str_lt_trans (x ∷ xs) [] c h k = cc
str_lt_trans (x ∷ xs) (y ∷ ys) [] h k = cc
str_lt_trans (x ∷ xs) (y ∷ ys) (z ∷ zs) h k = ground (arith, str_lt_trans xs ys zs)

pub str_lt_asymm : (a b : Bytes) → str_lt a b ≡ true → str_lt b a ≡ false
str_lt_asymm [] [] h = refl
str_lt_asymm [] (y ∷ ys) h = refl
str_lt_asymm (x ∷ xs) [] h = cc
str_lt_asymm (x ∷ xs) (y ∷ ys) h = ground (arith, str_lt_asymm xs ys)

-- Any two strings are equal, or one is before the other.
pub str_trichotomy : (a b : Bytes) → (str_lt a b ≡ true) ⊎ (a ≡ b) ⊎ (str_lt b a ≡ true)
str_trichotomy [] [] = inr (inl refl)
str_trichotomy [] (y ∷ ys) = inl refl
str_trichotomy (x ∷ xs) [] = inr (inr refl)
str_trichotomy (x ∷ xs) (y ∷ ys) = ground (arith, str_trichotomy xs ys)

pub str_lt-ne : (a b : Bytes) → str_lt a b ≡ true → str_eq a b ≡ false
str_lt-ne [] [] h = cc
str_lt-ne [] (y ∷ ys) h = refl
str_lt-ne (x ∷ xs) [] h = refl
str_lt-ne (x ∷ xs) (y ∷ ys) h = ground (arith, str_lt-ne xs ys)

pub str_eq_comm : (a b : Bytes) → str_eq a b ≡ str_eq b a
str_eq_comm [] [] = refl
str_eq_comm [] (y ∷ ys) = refl
str_eq_comm (x ∷ xs) [] = refl
str_eq_comm (x ∷ xs) (y ∷ ys) = ground (arith, str_eq_comm xs ys)
