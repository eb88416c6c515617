-- ===== src/Nats/RoundTrip.antt =====
-- pkg/drivers/nats/codec.go: a key that was encoded is decoded again.
use kine.Prelude.{
  ◌≡◌, refl, ap, ◌∙◌, sym, subst, true, false, not, ◌||◌, some, List, [], ◌∷◌, Bytes, str_eq,
  str_eq→eq, has_prefix, Bool-cases, inl, inr, All, arith,
}
use kine.Nats.Split.{
  split, join, IsFree, split-cons, join-split, split-join, split-IsFree, has_prefix-append,
}
use kine.Nats.Codec.{
  Base58, no_root_prefix, slash, dot, trim_prefix, written, read_part, joined, encoded, encode,
  decode_parts, decode,
}

-- What the codec relies on: base58 reads back what it wrote, and writes no dot.
pub record LawfulBase58 (b : Base58) : Type 0 where
  pub reads_back : (p : Bytes) → b.decode (b.encode p) ≡ some p
  pub no_dot : (p : Bytes) → IsFree dot (b.encode p)

-- A part that is not taken for the mark of a key without a leading slash.
abbrev pub IsPlain : Base58 → Bytes → Type 0
IsPlain b p = has_prefix (b.encode (written p)) no_root_prefix ≡ false

read_part-written : (p : Bytes) → IsFree slash p → read_part (written p) ≡ p
read_part-written [] h = refl
read_part-written (c ∷ p) h = rw h.0 refl

plain_ne : (s : Bytes) → has_prefix s no_root_prefix ≡ false → str_eq s no_root_prefix ≡ false
plain_ne s h = elim (Bool-cases (str_eq s no_root_prefix)) [
  | inl same ↦
      absurd
        (cc (subst (λ x. has_prefix x no_root_prefix ≡ false) (str_eq→eq s no_root_prefix same) h))
  | inr other ↦ other
]

module _ (b : Base58) (lawful : LawfulBase58 b) where
  decode_parts-encoded :
      (ps : List Bytes)
      → All (IsPlain b) ps
      → All (IsFree slash) ps
      → decode_parts b (encoded b ps) ≡ some ps
  decode_parts-encoded [] h k = refl
  decode_parts-encoded (p ∷ ps) h k =
      rw
        (
          plain_ne (b.encode (written p)) h.0,
          lawful.reads_back (written p),
          decode_parts-encoded ps h.1 k.1,
          read_part-written p k.0,
        )
        refl

  encoded-IsFree : (ps : List Bytes) → All (IsFree dot) (encoded b ps)
  encoded-IsFree [] = tt
  encoded-IsFree (p ∷ ps) = (lawful.no_dot (written p), encoded-IsFree ps)

  has_prefix-join :
      (p : Bytes) (ps : List Bytes)
      → has_prefix (join dot (p ∷ ps)) no_root_prefix ≡ has_prefix p no_root_prefix
  has_prefix-join p [] = refl
  has_prefix-join p (q ∷ ps) =
      has_prefix-append dot p (join dot (q ∷ ps)) no_root_prefix (refl, (refl, (refl, (refl, tt))))

  decode-join :
      (p : Bytes) (ps : List Bytes)
      → All (IsFree dot) (p ∷ ps)
      → decode b (join dot (p ∷ ps))
        ≡ joined (not (has_prefix p no_root_prefix)) (decode_parts b (p ∷ ps))
  unfolding decode
  decode-join p ps h = rw (has_prefix-join p ps, split-join dot p ps h) refl

  rooted_key : (key : Bytes) → has_prefix key (slash ∷ []) ≡ true → slash ∷ trim_prefix key ≡ key
  rooted_key [] h = cc h
  rooted_key (c ∷ s) h = rw h (ap (λ x. x ∷ s) {x = slash} {y = c} (ground (arith, h)))

  plain_key : (key : Bytes) → has_prefix key (slash ∷ []) ≡ false → trim_prefix key ≡ key
  plain_key [] h = refl
  plain_key (c ∷ s) h = rw h refl

  decode_rooted :
      (key : Bytes)
      → has_prefix key (slash ∷ []) ≡ true
      → All (IsPlain b) (split slash (trim_prefix key))
      → decode b (join dot (encoded b (split slash (trim_prefix key)))) ≡ some key
  decode_rooted key root plain =
      let (p, ps, e) = split-cons slash (trim_prefix key) in
      let plain' = subst (All (IsPlain b)) e plain in
      ap (λ l. decode b (join dot (encoded b l))) e
      ∙ decode-join (b.encode (written p)) (encoded b ps) (encoded-IsFree (p ∷ ps))
      ∙ rw
          (
            plain'.0,
            decode_parts-encoded (p ∷ ps) plain'
                (subst (All (IsFree slash)) e (split-IsFree slash (trim_prefix key))),
          )
          (ap (λ s. some (slash ∷ s)) (sym (ap (join slash) e) ∙ join-split slash (trim_prefix key))
            ∙ ap some (rooted_key key root))

  decode_unrooted :
      (key : Bytes)
      → has_prefix key (slash ∷ []) ≡ false
      → All (IsPlain b) (split slash (trim_prefix key))
      → decode b (join dot (no_root_prefix ∷ encoded b (split slash (trim_prefix key)))) ≡ some key
  decode_unrooted key root plain =
      let (p, ps, e) = split-cons slash (trim_prefix key) in
      ap (λ l. decode b (join dot (no_root_prefix ∷ encoded b l))) e
      ∙ decode-join no_root_prefix (encoded b (p ∷ ps))
          ((refl, (refl, (refl, (refl, tt)))), encoded-IsFree (p ∷ ps))
      ∙ rw
          (decode_parts-encoded (p ∷ ps) (subst (All (IsPlain b)) e plain)
            (subst (All (IsFree slash)) e (split-IsFree slash (trim_prefix key))))
          (ap some (sym (ap (join slash) e) ∙ join-split slash (trim_prefix key))
            ∙ ap some (plain_key key root))

  -- If base58 reads back what it writes and writes no dot, a subject that keyCodec has made of a
  -- key is decoded to that key, with or without a leading slash, trailing and repeated slashes
  -- included, provided that the encoding of no part begins with `meta`.
  pub decode-encode :
      (key subject : Bytes)
      → encode b key ≡ some subject
      → All (IsPlain b) (split slash (trim_prefix key))
      → decode b subject ≡ some key
  unfolding encode
  decode-encode key subject e plain = elim (Bool-cases (str_eq key [] || str_eq key (slash ∷ []))) [
    | inl invalid ↦ absurd (cc (rw invalid at e))
    | inr valid ↦
        let e' = rw valid at e in
        elim (Bool-cases (has_prefix key (slash ∷ []))) [
          | inl root ↦
              subst (λ s. decode b s ≡ some key) (some_inj (rw root at e'))
                (decode_rooted key root plain)
          | inr bare ↦
              subst (λ s. decode b s ≡ some key) (some_inj (rw bare at e'))
                (decode_unrooted key bare plain)
        ]
  ]
    where
      some_inj : {x y : Bytes} → some x ≡ some y → x ≡ y
      some_inj q = cc q
