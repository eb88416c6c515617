-- ===== src/Memory/Listing.antt =====
-- List of pkg/drivers/memory/memory.go against a description of its result: the visible entries of
-- the range, in the order of their keys, cut at the limit.
use kine.Prelude.{
  ℕ, zero, suc, ◌≤◌, ◌<◌, ◌≡◌, refl, ap, ◌∙◌, sym, inl, inr, Bool, true, not, ◌&&◌, Option, none,
  some, List, [], ◌∷◌, ◌++◌, Bytes, ltb, leb, ltb→lt, if◌then◌else◌, length, take, take_while,
  arith, append_assoc, append-nil, Bool-cases, Option-cases, length-append,
}
use kine.Types.{KeyValue, Error, future_rev, compacted}
use kine.Memory.Tree.{OrderedMap, lookup}
use kine.Memory.Entry.{Entry, live, listed_kv, past_end}
use kine.Memory.State.{Memory}
use kine.Memory.History.{read_at, read_at-nil, read-eq-read_at}
use mathlib.Core.Path.{fun_ext}
use kine.Memory.Ordered.{collect, collect_ext, Every}
use kine.Memory.Range.{ranged, collect_range}
use kine.Memory.Reads.{read, list_loop, list}

-- A limit of 0 is no limit.
abbrev pub limited : ℕ → List KeyValue → List KeyValue
limited limit kvs = if ltb 0 limit then take limit kvs else kvs

take-length : (n : ℕ) (xs ys : List KeyValue) → length xs ≡ n → take n (xs ++ ys) ≡ xs
take-length zero [] ys e = refl
take-length zero (x ∷ xs) ys e = absurd (omega arith)
take-length (suc n) [] ys e = absurd (omega arith)
take-length (suc n) (x ∷ xs) ys e = ap (◌∷◌ x) (take-length n xs ys (omega arith))

take-all : (n : ℕ) (xs : List KeyValue) → length xs ≤ n → take n xs ≡ xs
take-all zero [] e = refl
take-all zero (x ∷ xs) e = absurd (omega arith)
take-all (suc n) [] e = refl
take-all (suc n) (x ∷ xs) e = ap (◌∷◌ x) (take-all n xs (omega arith))

limited-nil :
    (limit : ℕ) (kvs : List KeyValue)
    → (ltb 0 limit ≡ true → length kvs < limit)
    → limited limit (kvs ++ []) ≡ kvs
limited-nil limit kvs room = elim (Bool-cases (ltb 0 limit)) [
  | inl t ↦ rw (t, append-nil kvs) (take-all limit kvs (omega (arith, room t)))
  | inr t ↦ rw t (append-nil kvs)
]

-- The test of the limit after an item, against the cut of the whole list.
limited_step :
    (limit : ℕ) (kvs more rest : List KeyValue)
    → (ltb 0 limit ≡ true → length kvs ≤ limit)
    → ((ltb 0 limit ≡ true → length kvs < limit) → rest ≡ limited limit (kvs ++ more))
    → (if ltb 0 limit && leb limit (length kvs) then kvs else rest) ≡ limited limit (kvs ++ more)
limited_step limit kvs more rest room step = elim (Bool-cases (ltb 0 limit)) [
  | inl t ↦ elim (Bool-cases (leb limit (length kvs))) [
    | inl full ↦ rw (t, full) (sym (take-length limit kvs more (ground (arith, room t))))
    | inr space ↦ rw (t, space) (rw t at (step (λ _. ground arith)))
  ]
  | inr t ↦ rw t (rw t at (step (λ u. cc)))
]

abbrev pub shown_kv : Bool → Option Entry → Option KeyValue
shown_kv keys_only o = elim (live o) [ none ↦ none | some e ↦ some (listed_kv keys_only e) ]

-- What a read at `revision` answers, given the two revisions of the state and the entries found.
abbrev pub answer : ℕ → ℕ → ℕ → List KeyValue → ℕ × List KeyValue × Option Error
answer revision current compact kvs =
    if ltb 0 revision
    then (if ltb current revision
        then (current, [], some future_rev)
        else if ltb revision compact
        then (current, [], some compacted)
        else (revision, kvs, none))
    else (current, kvs, none)

pub Every-trivial : (items : List (Bytes × List Entry)) → Every (λ _. Unit) items
Every-trivial [] = tt
Every-trivial ((k, _) ∷ items) = (tt, Every-trivial items)

pub ranged-none :
    (key end : Bytes) (f : Bytes → Option KeyValue) (k : Bytes)
    → f k ≡ none
    → ranged key end f k ≡ none
ranged-none key end f k e = rw e (ground arith)

module _ (bt : OrderedMap (List Entry)) where
  -- What a reader at `revision` sees at the key `k`.
  abbrev pub shown : Memory bt → ℕ → Bool → Bytes → Option KeyValue
  shown m revision keys_only k = shown_kv keys_only (read bt m k revision)

  list_loop-eq-limited :
      (m : Memory bt) (key end : Bytes) (limit revision : ℕ) (keys_only : Bool)
      (items : List (Bytes × List Entry)) (kvs : List KeyValue)
      → (ltb 0 limit ≡ true → length kvs < limit)
      → list_loop bt m key end limit revision keys_only items kvs
        ≡ limited limit (
            kvs
            ++ collect
                (shown m revision keys_only)
                (take_while (λ p. not (past_end key end p.0)) items))
  unfolding list_loop collect
  list_loop-eq-limited m key end limit revision keys_only [] kvs room =
      sym (limited-nil limit kvs room)
  list_loop-eq-limited m key end limit revision keys_only ((k, h) ∷ items) kvs room =
      elim (Bool-cases (past_end key end k)) [
        | inl past ↦ rw past (sym (limited-nil limit kvs room))
        | inr within ↦ elim (Option-cases (live (read bt m k revision))) [
          | inl hidden ↦
              rw (within, collect, hidden)
                (limited_step limit kvs _ _ (λ t. omega (arith, room t))
                  (list_loop-eq-limited m key end limit revision keys_only items kvs))
          | inr (e, seen) ↦
              rw (within, collect, seen)
                (limited_step limit (kvs ++ listed_kv keys_only e ∷ [])
                    (collect (shown m revision keys_only)
                      (take_while (λ p. not (past_end key end p.0)) items))
                    _ (λ t. omega (arith, room t, length-append kvs (listed_kv keys_only e ∷ [])))
                    (list_loop-eq-limited m key end limit revision keys_only items
                      (kvs ++ listed_kv keys_only e ∷ []))
                  ∙ ap (limited limit) (
                      append_assoc kvs (listed_kv keys_only e ∷ []) (
                        collect (shown m revision keys_only)
                          (take_while (λ p. not (past_end key end p.0)) items))))
        ]
      ]

  -- The visible entries of the range in the order of their keys, cut at the limit.
  abbrev pub listing : Bytes → Bytes → ℕ → ℕ → Bool → Memory bt → List KeyValue
  listing key end limit revision keys_only m =
      limited limit (collect (ranged key end (shown m revision keys_only)) (bt.scan m.keys))

  pub list_loop-eq-listing :
      (key end : Bytes) (limit revision : ℕ) (keys_only : Bool) (m : Memory bt)
      → list_loop bt m key end limit revision keys_only (bt.seek m.keys key) []
        ≡ listing key end limit revision keys_only m
  list_loop-eq-listing key end limit revision keys_only m =
      list_loop-eq-limited m key end limit revision keys_only (bt.seek m.keys key) []
        (λ t. ltb→lt 0 limit t)
      ∙ ap
          (λ items. limited limit (
            collect (shown m revision keys_only)
              (take_while (λ p. not (past_end key end p.0)) items)))
          (bt.seek_scan m.keys key)
      ∙ ap (limited limit) (
          collect_range key end (shown m revision keys_only) (bt.scan m.keys)
            (bt.scan-Ascending m.keys))

  -- For every range, limit, revision and state, `List` returns the future-revision error above the
  -- current revision, the compacted error below the compact revision, and otherwise the revision
  -- with the live entries of the range at that revision, in the order of their keys, cut at the
  -- limit (0 is no limit).
  pub list-eq-answer :
      (key end : Bytes) (limit revision : ℕ) (keys_only : Bool) (m : Memory bt)
      → list bt key end limit revision keys_only m
        ≡ answer revision m.current_revision m.compact_revision
            (listing key end limit revision keys_only m)
  unfolding list
  list-eq-answer key end limit revision keys_only m =
      ap (answer revision m.current_revision m.compact_revision)
        (list_loop-eq-listing key end limit revision keys_only m)

  -- A key with no history shows nothing.
  pub shown-missing :
      (m : Memory bt) (revision : ℕ) (keys_only : Bool) (k : Bytes)
      → lookup k (bt.scan m.keys) ≡ none
      → shown m revision keys_only k ≡ none
  shown-missing m revision keys_only k e = ap (shown_kv keys_only) (
      read-eq-read_at bt m k revision
      ∙ ap (λ o. read_at revision (elim o [ none ↦ [] | some hist ↦ hist ]))
          (sym (bt.lookup-scan m.keys k) ∙ e)
      ∙ read_at-nil revision)

  -- Two states that show the same at every key list the same.
  pub listing_ext :
      (key end : Bytes) (limit revision : ℕ) (keys_only : Bool) (m n : Memory bt)
      → ((k : Bytes) → shown m revision keys_only k ≡ shown n revision keys_only k)
      → listing key end limit revision keys_only m ≡ listing key end limit revision keys_only n
  listing_ext key end limit revision keys_only m n h = ap (limited limit) (
      collect_ext (λ _. Unit) (ranged key end (shown m revision keys_only)) (λ _ _ q _. q)
        (bt.scan m.keys) (bt.scan n.keys) (bt.scan-Ascending m.keys) (bt.scan-Ascending n.keys)
        (Every-trivial _) (Every-trivial _)
        (λ k _ e.
          ranged-none key end (shown m revision keys_only) k
            (shown-missing m revision keys_only k e))
        (λ k _ e.
          ranged-none key end (shown m revision keys_only) k
            (h k ∙ shown-missing n revision keys_only k e))
      ∙ ap (λ f. collect (ranged key end f) (bt.scan n.keys)) (fun_ext h))
