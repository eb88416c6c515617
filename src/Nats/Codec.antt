-- ===== src/Nats/Codec.antt =====
-- pkg/drivers/nats/codec.go: keyCodec, which turns keys into subjects of NATS. A subject that cannot be
-- made or read is none. The module github.com/shengdoushi/base58 is a parameter.
use kine.Prelude.{
  ℕ, Bool, not, ◌||◌, Option, none, some, List, [], ◌∷◌, ◌++◌, Bytes, codes, str_eq, has_prefix,
  if◌then◌else◌,
}
use kine.Nats.Split.{split, join}

-- base58.Encode and base58.Decode with the alphabet of Bitcoin
pub record Base58 : Type 0 where
  pub encode : Bytes → Bytes
  pub decode : Bytes → Option Bytes

abbrev pub no_root_prefix : Bytes
no_root_prefix = codes "meta"

-- `/` and `.`
abbrev pub slash : ℕ
slash = 47

abbrev pub dot : ℕ
dot = 46

-- `strings.TrimPrefix(key, "/")` and `strings.TrimSuffix(prefix, "/")`
abbrev pub trim_prefix : Bytes → Bytes
trim_prefix [] = []
trim_prefix (c ∷ s) = if has_prefix (c ∷ s) (slash ∷ []) then s else c ∷ s

abbrev pub trim_suffix : Bytes → Bytes
trim_suffix [] = []
trim_suffix (c ∷ s) =
    let rest = trim_suffix s in if str_eq (c ∷ s) (slash ∷ []) then [] else c ∷ rest

-- an empty part is written as a slash, and read back
abbrev pub written : Bytes → Bytes
written p = if str_eq p [] then slash ∷ [] else p

abbrev pub read_part : Bytes → Bytes
read_part p = if str_eq p (slash ∷ []) then [] else p

-- a part put before those that were read
abbrev pub put_part : Option Bytes → Option (List Bytes) → Option (List Bytes)
put_part none ps = none
put_part (some p) none = none
put_part (some p) (some ps) = some (read_part p ∷ ps)

-- the end of Decode
abbrev pub joined : Bool → Option (List Bytes) → Option Bytes
joined rooted none = none
joined rooted (some []) = none
joined rooted (some (p ∷ ps)) =
    let dk = join slash (p ∷ ps) in some (if rooted then slash ∷ dk else dk)

module _ (b : Base58) where
  abbrev pub encoded : List Bytes → List Bytes
  encoded [] = []
  encoded (p ∷ ps) = b.encode (written p) ∷ encoded ps

  -- There is always a part, so the test of their number does not fail.
  unfoldable pub encode : Bytes → Option Bytes
  encode key =
      let parts = encoded (split slash (trim_prefix key)) in
      if str_eq key [] || str_eq key (slash ∷ [])
      then none
      else some (join dot (if has_prefix key (slash ∷ []) then parts else no_root_prefix ∷ parts))

  unfoldable pub encode_range : Bytes → Option Bytes
  unfolding encode
  encode_range prefix =
      if str_eq prefix (slash ∷ [])
      then some (codes ">")
      else if str_eq prefix no_root_prefix
      then some (no_root_prefix ++ codes ".>")
      else elim (encode (trim_suffix prefix)) [ none ↦ none | some ek ↦ some (ek ++ codes ".>") ]

  abbrev pub decode_parts : List Bytes → Option (List Bytes)
  decode_parts [] = some []
  decode_parts (s ∷ ss) =
      let rest = decode_parts ss in
      if str_eq s no_root_prefix then rest else put_part (b.decode s) rest

  unfoldable pub decode : Bytes → Option Bytes
  decode key = joined (not (has_prefix key no_root_prefix)) (decode_parts (split dot key))
