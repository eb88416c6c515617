-- ===== src/Prelude/Ints.antt =====
-- Signed integers over the native numbers, and Go's `int64` on them: `%d`, strconv.ParseInt to base
-- 10, and the successor that wraps around.
use Prim.Native.Nat.{ℕ, zero, suc, ◌+◌, ◌-◌, ◌*◌, ◌/◌, ◌%◌, ◌≤◌, ◌<◌}
use mathlib.Core.Path.{◌≡◌, refl, ap, sym, ◌∙◌}
use mathlib.Core.Logic.{inl, inr}
use mathlib.Core.Bool.{Bool, true, false, ◌&&◌}
use mathlib.Core.Option.{Option, none, some}
use mathlib.Core.List.{[], ◌∷◌, ◌++◌}
use native.Mathlib.Omega.{arith}
use kine.Prelude.Bools.{ltb, leb, ◌==◌, if◌then◌else◌, Bool-cases, ltb→lt}
use kine.Prelude.Lists.{All, All-append}
use kine.Prelude.Strings.{Bytes}

-- `negsuc n` is -(n + 1).
pub data ℤ : Type 0 where
  pos : ℕ → ℤ
  negsuc : ℕ → ℤ

abbrev pub int_eq : ℤ → ℤ → Bool
int_eq (pos a) (pos b) = a == b
int_eq (negsuc a) (negsuc b) = a == b
int_eq (pos a) (negsuc b) = false
int_eq (negsuc a) (pos b) = false

-- 2 ^ 63 and 2 ^ 64
abbrev pub int64_bound : ℕ
int64_bound = 9223372036854775808

abbrev pub uint64_bound : ℕ
uint64_bound = 18446744073709551616

-- the values of an `int64`
abbrev pub IsInt64 : ℤ → Type 0
IsInt64 (pos n) = n < int64_bound
IsInt64 (negsuc n) = n < int64_bound

-- `v + 1` on `int64`
abbrev pub int64_suc : ℤ → ℤ
int64_suc (pos n) = if n + 1 == int64_bound then negsuc n else pos (n + 1)
int64_suc (negsuc n) = if n == 0 then pos 0 else negsuc (n - 1)

-- `%d`: the digits of a number below 10 ^ fuel
unfoldable pub digits : ℕ → ℕ → Bytes
digits zero n = []
digits (suc fuel) n =
    let rest = digits fuel (n / 10) in
    if ltb n 10 then (48 + n) ∷ [] else rest ++ (48 + n % 10) ∷ []

-- an `int64` has at most 19 digits
unfoldable pub print_int : ℤ → Bytes
print_int (pos n) = digits 20 n
print_int (negsuc n) = 45 ∷ digits 20 (n + 1)

-- the loop of strconv.ParseUint: `none` is a syntax error; a value that is out of range ends it
unfoldable pub uint_loop : Bytes → ℕ → Option ℕ
uint_loop [] n = some n
uint_loop (c ∷ s) n =
    let n' = n * 10 + (c - 48) in
    let rest = uint_loop s n' in
    if leb 48 c && leb c 57
    then (if leb uint64_bound n' then some (uint64_bound - 1) else rest)
    else none

abbrev pub parse_uint : Bytes → Option ℕ
unfolding uint_loop
parse_uint [] = none
parse_uint (c ∷ s) = uint_loop (c ∷ s) 0

abbrev pub signed : Bool → Option ℕ → ℤ
signed neg none = pos 0
signed false (some n) = if leb int64_bound n then pos (int64_bound - 1) else pos n
signed true (some n) =
    if ltb int64_bound n then negsuc (int64_bound - 1) else if n == 0 then pos 0 else negsuc (n - 1)

-- `n, _ := strconv.ParseInt(s, 10, 64)`
unfoldable pub parse_int : Bytes → ℤ
parse_int [] = pos 0
parse_int (c ∷ s) =
    if c == 43
    then signed false (parse_uint s)
    else if c == 45
    then signed true (parse_uint s)
    else signed false (parse_uint (c ∷ s))

pub IsDigit : ℕ → Type 0
IsDigit c = (48 ≤ c) × (c ≤ 57)

digits-IsDigit : (fuel n : ℕ) → All IsDigit (digits fuel n)
unfolding digits IsDigit
digits-IsDigit zero n = tt
digits-IsDigit (suc fuel) n = elim (Bool-cases (ltb n 10)) [
  | inl small ↦ rw small (omega (arith, ltb→lt n 10 small), tt)
  | inr big ↦
      rw big (
        All-append IsDigit (digits fuel (n / 10)) _ (digits-IsDigit fuel (n / 10))
          (omega arith, tt))
]

uint_loop-append :
    (s : Bytes) (d n v : ℕ)
    → uint_loop s n ≡ some v
    → v * 10 + d < uint64_bound
    → d < 10
    → uint_loop (s ++ (48 + d) ∷ []) n ≡ some (v * 10 + d)
unfolding uint_loop
uint_loop-append [] d n v e h lt = ground arith
uint_loop-append (c ∷ s) d n v e h lt = ground (
  arith,
  λ (e : uint_loop s (n * 10 + (c - 48)) ≡ some v).
      uint_loop-append s d (n * 10 + (c - 48)) v e h lt,
)

abbrev pow10 : ℕ → ℕ
pow10 zero = 1
pow10 (suc k) = 10 * pow10 k

uint_loop-digits :
    (fuel n : ℕ) → n < pow10 fuel → n < uint64_bound → uint_loop (digits fuel n) 0 ≡ some n
unfolding digits uint_loop
uint_loop-digits zero n lt h = ap some (omega (arith, lt))
uint_loop-digits (suc fuel) n lt h = elim (Bool-cases (ltb n 10)) [
  | inl small ↦ rw small (ground arith)
  | inr big ↦ rw big (
      uint_loop-append (digits fuel (n / 10)) (n % 10) 0 (n / 10)
        (uint_loop-digits fuel (n / 10) (omega (arith, lt)) (omega (arith, h))) (omega (arith, h))
        (omega arith)
      ∙ ap some (omega arith))
]

-- A number starts with a digit.
digits-head : (fuel n : ℕ) → (c : ℕ) × (s : Bytes) × IsDigit c × (digits (suc fuel) n ≡ c ∷ s)
unfolding digits IsDigit
digits-head zero n = elim (Bool-cases (ltb n 10)) [
  | inl small ↦ (48 + n, [], omega (arith, ltb→lt n 10 small), rw small refl)
  | inr big ↦ (48 + n % 10, [], omega arith, rw big refl)
]
digits-head (suc fuel) n =
    let (c, s, d, e) = digits-head fuel (n / 10) in
    elim (Bool-cases (ltb n 10)) [
      | inl small ↦ (48 + n, [], omega (arith, ltb→lt n 10 small), rw small refl)
      | inr big ↦
          (c, s ++ (48 + n % 10) ∷ [], d, rw (big, digits) (ap (λ l. l ++ (48 + n % 10) ∷ []) e))
    ]

parse_uint-digits : (n : ℕ) → n ≤ int64_bound → parse_uint (digits 20 n) ≡ some n
unfolding parse_uint uint_loop
parse_uint-digits n le =
    let (c, s, d, e) = digits-head 19 n in
    ap parse_uint e
    ∙ sym (ap (λ t. uint_loop t 0) e)
    ∙ uint_loop-digits 20 n (omega (arith, le)) (omega (arith, le))

parse_int-digit :
    (c : ℕ) (s : Bytes) → IsDigit c → parse_int (c ∷ s) ≡ signed false (parse_uint (c ∷ s))
unfolding parse_int IsDigit
parse_int-digit c s d = ground (arith, d)

-- Printing an `int64` and parsing it gives it back.
pub parse_int-print_int : (v : ℤ) → IsInt64 v → parse_int (print_int v) ≡ v
unfolding parse_int print_int
parse_int-print_int (pos n) lt =
    let (c, s, d, e) = digits-head 19 n in
    ap parse_int e
    ∙ parse_int-digit c s d
    ∙ ap (λ t. signed false (parse_uint t)) (sym e)
    ∙ ap (signed false) (parse_uint-digits n (omega (arith, lt)))
    ∙ ground (arith, lt)
parse_int-print_int (negsuc n) lt =
    ap (signed true) (parse_uint-digits (n + 1) (omega (arith, lt))) ∙ ground (arith, lt)

digits-plain : (s : Bytes) → All IsDigit s → All (λ c. (c == 124) ≡ false) s
unfolding IsDigit
digits-plain [] a = tt
digits-plain (c ∷ s) a = (ground (arith, a.0), digits-plain s a.1)

-- No byte of a printed number is the separator `|`.
pub print_int-plain : (v : ℤ) → All (λ c. (c == 124) ≡ false) (print_int v)
unfolding print_int
print_int-plain (pos n) = digits-plain (digits 20 n) (digits-IsDigit 20 n)
print_int-plain (negsuc n) = (refl, digits-plain (digits 20 (n + 1)) (digits-IsDigit 20 (n + 1)))
