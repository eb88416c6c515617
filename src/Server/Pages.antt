-- ===== src/Server/Pages.antt =====
-- The pages of a range that pkg/server/list.go makes: the limit that it asks for, its test for more, and
-- the sizes of listings.
use kine.Prelude.{
  ℕ, zero, suc, ◌+◌, ◌≤◌, ◌<◌, ◌≡◌, refl, ap, ◌∙◌, inl, inr, Bool, true, false, not, ◌&&◌, Option,
  none, some, List, [], ◌∷◌, Bytes, str_ge, if◌then◌else◌, ltb, arith, Bool-cases, length, take,
}
use kine.Types.{KeyValue, Error, future_rev, compacted}
use kine.Memory.Entry.{Entry, live, listed_kv, past_end}
use kine.Memory.Ordered.{collect}
use kine.Memory.Range.{ranged}
use kine.Memory.Listing.{shown_kv, limited, answer}
use kine.Server.Request.{Reply, ok, fail}
use kine.Server.Convert.{to_kvs}
use kine.Server.Range.{EtcdRangeResponse}

-- A page of the range: at most `limit` KeyValues, 0 for all, and the number of all.
abbrev pub page : ℕ → ℕ → List KeyValue → EtcdRangeResponse
page limit rev kvs = record {
  header = rev;
  kvs = to_kvs (limited limit kvs);
  more = ltb 0 limit && ltb limit (length kvs);
  count = length kvs;
}

-- What is answered at a revision, given the two revisions of the state and all of the range.
abbrev pub answer_page : ℕ → ℕ → ℕ → ℕ → List KeyValue → Reply EtcdRangeResponse
answer_page limit revision current compact kvs =
    if ltb 0 revision
    then (if ltb current revision
        then fail future_rev
        else if ltb revision compact
        then fail compacted
        else ok (page limit revision kvs))
    else ok (page limit current kvs)

take-take : (n : ℕ) (xs : List KeyValue) → take n (take (suc n) xs) ≡ take n xs
take-take zero [] = refl
take-take zero (x ∷ xs) = refl
take-take (suc n) [] = refl
take-take (suc n) (x ∷ xs) = ap (◌∷◌ x) (take-take n xs)

length-take-more :
    (n : ℕ) (xs : List KeyValue) → ltb n (length (take (suc n) xs)) ≡ ltb n (length xs)
length-take-more zero [] = refl
length-take-more zero (x ∷ xs) = ground arith
length-take-more (suc n) [] = refl
length-take-more (suc n) (x ∷ xs) = ground (arith, length-take-more n xs)

take-short : (n : ℕ) (xs : List KeyValue) → ltb n (length xs) ≡ false → take (suc n) xs ≡ xs
take-short zero [] h = refl
take-short zero (x ∷ xs) h = absurd (ground (arith, h))
take-short (suc n) [] h = refl
take-short (suc n) (x ∷ xs) h = ap (◌∷◌ x) (take-short n xs (ground (arith, h)))

take-short_all : (n : ℕ) (xs : List KeyValue) → ltb n (length xs) ≡ false → take n xs ≡ xs
take-short_all zero [] h = refl
take-short_all zero (x ∷ xs) h = absurd (ground (arith, h))
take-short_all (suc n) [] h = refl
take-short_all (suc n) (x ∷ xs) h = ap (◌∷◌ x) (take-short_all n xs (ground (arith, h)))

-- the limit that `list` gives the backend, and its test of what comes back
abbrev pub asked : ℕ → ℕ
asked limit = if ltb 0 limit then limit + 1 else limit

abbrev pub has_more : ℕ → List KeyValue → Bool
has_more limit kvs = ltb 0 limit && ltb limit (length kvs)

limited-asked :
    (limit : ℕ) (kvs : List KeyValue)
    → ltb 0 limit ≡ true
    → limited (asked limit) kvs ≡ take (suc limit) kvs
limited-asked limit kvs h =
    let e : asked limit ≡ suc limit = rw h (omega arith) in
    let p : ltb 0 (suc limit) ≡ true = ground arith in ap (λ l. limited l kvs) e ∙ rw p refl

limited-unasked :
    (limit : ℕ) (kvs : List KeyValue) → ltb 0 limit ≡ false → limited (asked limit) kvs ≡ kvs
limited-unasked limit kvs h =
    let e : asked limit ≡ 0 = rw h (ground (arith, h)) in ap (λ l. limited l kvs) e

pub has_more-asked :
    (limit : ℕ) (kvs : List KeyValue)
    → has_more limit (limited (asked limit) kvs) ≡ has_more limit kvs
has_more-asked limit kvs = elim (Bool-cases (ltb 0 limit)) [
  | inl h ↦
      ap (has_more limit) (limited-asked limit kvs h)
      ∙ ap (λ b. ltb 0 limit && b) (length-take-more limit kvs)
  | inr h ↦ rw h refl
]

has_more-true : (limit : ℕ) (kvs : List KeyValue) → has_more limit kvs ≡ true → ltb 0 limit ≡ true
has_more-true limit kvs h = ground (arith, h)

pub take-asked :
    (limit : ℕ) (kvs : List KeyValue)
    → has_more limit kvs ≡ true
    → take limit (limited (asked limit) kvs) ≡ limited limit kvs
take-asked limit kvs h =
    let p = has_more-true limit kvs h in
    ap (take limit) (limited-asked limit kvs p) ∙ take-take limit kvs ∙ rw p refl

pub asked-short :
    (limit : ℕ) (kvs : List KeyValue)
    → has_more limit kvs ≡ false
    → (limited (asked limit) kvs ≡ kvs) × (limited limit kvs ≡ kvs)
asked-short limit kvs h = elim (Bool-cases (ltb 0 limit)) [
  | inl p ↦
      let short : ltb limit (length kvs) ≡ false = ground (arith, h, p) in
      (
        limited-asked limit kvs p ∙ take-short limit kvs short,
        rw p (take-short_all limit kvs short),
      )
  | inr z ↦ (limited-unasked limit kvs z, rw z refl)
]

unfoldable pub size : Option KeyValue → ℕ
size none = 0
size (some kv) = 1

collect_step :
    (a b : Option KeyValue) (xs ys : List KeyValue)
    → size a ≡ size b
    → length xs ≡ length ys
    → length (elim a [ none ↦ xs | some kv ↦ kv ∷ xs ])
      ≡ length (elim b [ none ↦ ys | some kv ↦ kv ∷ ys ])
unfolding size
collect_step none none xs ys e h = h
collect_step none (some b) xs ys e h = absurd (omega (arith, e))
collect_step (some a) none xs ys e h = absurd (omega (arith, e))
collect_step (some a) (some b) xs ys e h = omega (arith, h)

pub collect-size :
    {V : Type 0} (f g : Bytes → Option KeyValue) (items : List (Bytes × V))
    → ((k : Bytes) → size (f k) ≡ size (g k))
    → length (collect f items) ≡ length (collect g items)
unfolding collect
collect-size f g [] h = refl
collect-size f g ((k, v) ∷ items) h = collect_step (f k) (g k) _ _ (h k) (collect-size f g items h)

pub shown_kv-size : (a b : Bool) (o : Option Entry) → size (shown_kv a o) ≡ size (shown_kv b o)
unfolding size
shown_kv-size a b o = go (live o)
  where
    go :
        (l : Option Entry)
        → size (elim l [ none ↦ none | some e ↦ some (listed_kv a e) ])
          ≡ size (elim l [ none ↦ none | some e ↦ some (listed_kv b e) ])
    go none = refl
    go (some e) = refl

pub ranged-size :
    (key end : Bytes) (f g : Bytes → Option KeyValue) (k : Bytes)
    → size (f k) ≡ size (g k)
    → size (ranged key end f k) ≡ size (ranged key end g k)
ranged-size key end f g k h = elim (Bool-cases (str_ge k key && not (past_end key end k))) [
  | inl within ↦ rw within h
  | inr outside ↦ rw outside refl
]

unfoldable pub counted : ℕ × List KeyValue × Option Error → ℕ × ℕ × Option Error
counted (rev, kvs, err) = elim err [ some e ↦ (rev, 0, some e) | none ↦ (rev, length kvs, none) ]

pub counted-answer :
    (revision current compact : ℕ) (kvs : List KeyValue)
    → revision ≤ current
    → (0 < revision → compact ≤ revision)
    → counted (answer revision current compact kvs)
      ≡ (if ltb 0 revision then revision else current, length kvs, none)
unfolding counted
counted-answer revision current compact kvs le c = ground (arith, le, c)
