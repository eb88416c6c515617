-- ===== src/Nats/Examples.antt =====
-- The theorem about pkg/drivers/nats/codec.go at a concrete encoding, and keys that are not decoded.
use kine.Prelude.{ℕ, ◌+◌, ◌-◌, ◌≡◌, refl, ap, none, some, [], ◌∷◌, Bytes, codes, arith}
use kine.Nats.Split.{IsFree}
use kine.Nats.Codec.{Base58, dot, encode, decode, encode_range}
use kine.Nats.RoundTrip.{LawfulBase58, decode-encode}

-- Each byte is moved past the dot.
abbrev up : Bytes → Bytes
up [] = []
up (c ∷ s) = (c + 47) ∷ up s

abbrev down : Bytes → Bytes
down [] = []
down (c ∷ s) = (c - 47) ∷ down s

abbrev moved : Base58
moved = record { encode = up; decode = λ s. some (down s) }

down-up : (s : Bytes) → down (up s) ≡ s
down-up [] = refl
down-up (c ∷ s) = cc (down-up s, back c)
  where
    back : (c : ℕ) → c + 47 - 47 ≡ c
    back c = omega arith

up-IsFree : (s : Bytes) → IsFree dot (up s)
up-IsFree [] = tt
up-IsFree (c ∷ s) = (ground arith, up-IsFree s)

moved-LawfulBase58 : LawfulBase58 moved
moved-LawfulBase58 = record { reads_back = λ p. ap some (down-up p); no_dot = up-IsFree }

-- `/` becomes the byte 94, and `a`, `b` and `c` become 144, 145 and 146.
decode-encode_example : decode moved (144 ∷ 46 ∷ 94 ∷ 46 ∷ 145 ∷ 146 ∷ []) ≡ some (codes "/a//bc")
unfolding encode
decode-encode_example =
    decode-encode moved moved-LawfulBase58 (codes "/a//bc") (144 ∷ 46 ∷ 94 ∷ 46 ∷ 145 ∷ 146 ∷ [])
      refl (refl, (refl, (refl, tt)))

-- A part whose encoding is the mark `meta` is lost, and one whose encoding begins with it takes the
-- leading slash away.
mark_lost :
    (encode moved (codes "/>6E2") ≡ some (codes "meta")) × (decode moved (codes "meta") ≡ none)
unfolding encode decode
mark_lost = (refl, refl)

slash_lost :
    (encode moved (codes "/>6E2>") ≡ some (codes "metam"))
    × (decode moved (codes "metam") ≡ some (codes ">6E2>"))
unfolding encode decode
slash_lost = (refl, refl)

range_of_all : encode_range moved (codes "/") ≡ some (codes ">")
unfolding encode_range
range_of_all = refl
