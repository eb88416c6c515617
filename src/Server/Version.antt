-- ===== src/Server/Version.antt =====
-- pkg/server/compact.go: the version that is stored in front of the value of the compact key.
use kine.Prelude.{
  ℕ, ◌≡◌, refl, ap, ◌∙◌, false, Option, none, some, [], ◌∷◌, ◌++◌, Bytes, codes, ◌==◌,
  if◌then◌else◌, All, arith, ℤ, IsInt64, print_int, parse_int, parse_int-print_int, print_int-plain,
}

abbrev pub compact_rev_key : Bytes
compact_rev_key = codes "compact_rev_key"

abbrev pub compact_rev_api : Bytes
compact_rev_api = codes "compact_rev_key_apiserver"

-- `bytes.Cut` at a separator of one byte: `none` is `ok == false`
abbrev cut_cons : ℕ → Option (Bytes × Bytes) → Option (Bytes × Bytes)
cut_cons c none = none
cut_cons c (some (before, after)) = some (c ∷ before, after)

unfoldable pub cut : ℕ → Bytes → Option (Bytes × Bytes)
cut sep [] = none
cut sep (c ∷ s) = let rest = cut sep s in if c == sep then some ([], s) else cut_cons c rest

-- `fmt.Appendf(nil, "%d|%s", version, value)`; 124 is `|`
unfoldable pub encode_version : ℤ → Bytes → Bytes
encode_version version value = print_int version ++ 124 ∷ value

abbrev decode_cut : Bytes → Option (Bytes × Bytes) → ℤ × Bytes
decode_cut value (some (ver, val)) = (parse_int ver, val)
decode_cut value none = (parse_int value, codes "0")

unfoldable pub decode_version : Bytes → ℤ × Bytes
unfolding cut
decode_version value = decode_cut value (cut 124 value)

cut-plain :
    (sep : ℕ) (s t : Bytes) → All (λ c. (c == sep) ≡ false) s → cut sep (s ++ sep ∷ t) ≡ some (s, t)
unfolding cut
cut-plain sep [] t a = ground arith
cut-plain sep (c ∷ s) t a = rw (a.0, cut-plain sep s t a.1) refl

cut-none : (sep : ℕ) (s : Bytes) → All (λ c. (c == sep) ≡ false) s → cut sep s ≡ none
unfolding cut
cut-none sep [] a = refl
cut-none sep (c ∷ s) a = rw (a.0, cut-none sep s a.1) refl

-- For every int64 version and every value, also one with the separator in it, DecodeVersion of
-- EncodeVersion is the version and the value.
pub decode_version-encode_version :
    (version : ℤ) (value : Bytes)
    → IsInt64 version
    → decode_version (encode_version version value) ≡ (version, value)
unfolding decode_version encode_version
decode_version-encode_version version value i =
    ap (decode_cut (print_int version ++ 124 ∷ value))
      (cut-plain 124 (print_int version) value (print_int-plain version))
    ∙ ap (λ v. (v, value)) (parse_int-print_int version i)

-- A stored value of an older release, the decimal form of an int64 alone, decodes to that version
-- with the value `0`.
decode_version-print_int :
    (version : ℤ) → IsInt64 version → decode_version (print_int version) ≡ (version, codes "0")
unfolding decode_version
decode_version-print_int version i =
    ap (decode_cut (print_int version)) (cut-none 124 (print_int version) (print_int-plain version))
    ∙ ap (λ v. (v, codes "0")) (parse_int-print_int version i)
