-- ===== src/Memory/Lookup.antt =====
-- Get of pkg/drivers/memory/memory.go: what is there at one key.
use kine.Prelude.{
  ℕ, ◌≤◌, ◌≡◌, refl, ap, ◌∙◌, inl, inr, Bool, true, false, Option, none, some, List, [], ◌∷◌, Bytes,
  str_eq, str_ge, ltb, if◌then◌else◌, arith, get_last?, Bool-cases, str_eq_refl, str_eq_comm,
  str_lt_irrefl,
}
use kine.Types.{KeyValue, Error, future_rev, compacted}
use kine.Memory.Tree.{OrderedMap, lookup}
use kine.Memory.Entry.{Entry, at_loop, first_kv}
use kine.Memory.State.{Memory, history, latest}
use kine.Memory.History.{Rising, read_at, read-eq-read_at}
use kine.Memory.Invariant.{Inv}
use kine.Memory.Ordered.{collect, collect_ext}
use kine.Memory.Range.{ranged}
use kine.Memory.Reads.{read, get}
use kine.Memory.Listing.{
  shown, shown-missing, ranged-none, Every-trivial, limited, listing, answer, list-eq-answer,
}

-- What a lookup at `revision` answers, given the two revisions of the state and what is shown.
abbrev pub answer_kv : ℕ → ℕ → ℕ → Option KeyValue → ℕ × Option KeyValue × Option Error
answer_kv revision current compact kv =
    if ltb 0 revision
    then (if ltb current revision
        then (current, none, some future_rev)
        else if ltb revision compact
        then (current, none, some compacted)
        else (revision, kv, none))
    else (current, kv, none)

abbrev pub to_list : Option KeyValue → List KeyValue
to_list none = []
to_list (some kv) = kv ∷ []

first_kv-limited : (o : Option KeyValue) → first_kv (limited 1 (to_list o)) ≡ o
first_kv-limited none = refl
first_kv-limited (some kv) = refl

collect-one : (f : Bytes → Option KeyValue) (k : Bytes) → collect f ((k, true) ∷ []) ≡ to_list (f k)
unfolding collect
collect-one f k = go (f k)
  where
    go : (o : Option KeyValue) → elim o [ none ↦ [] | some kv ↦ kv ∷ [] ] ≡ to_list o
    go none = refl
    go (some kv) = refl

ranged_self : (key : Bytes) (f : Bytes → Option KeyValue) → ranged key [] f key ≡ f key
ranged_self key f = rw (str_lt_irrefl key, str_eq_refl key) refl

ranged-other :
    (key : Bytes) (f : Bytes → Option KeyValue) (k : Bytes)
    → str_eq key k ≡ false
    → ranged key [] f k ≡ none
ranged-other key f k ne = elim (Bool-cases (str_ge k key)) [
  | inl ge ↦ rw (ge, str_eq_comm k key, ne) refl
  | inr lt ↦ rw lt refl
]

answered : ℕ × List KeyValue × Option Error → ℕ × Option KeyValue × Option Error
answered r = elim r.2 [ some e ↦ (r.0, none, some e) | none ↦ (r.0, first_kv r.1, none) ]

answered-answer :
    (revision current compact : ℕ) (kvs : List KeyValue)
    → answered (answer revision current compact kvs)
      ≡ answer_kv revision current compact (first_kv kvs)
unfolding answered
answered-answer revision current compact kvs = ground arith

lookup-one : (key k : Bytes) → lookup k ((key, true) ∷ []) ≡ none → str_eq key k ≡ false
lookup-one key k e = ground (arith, e)

at_loop-all :
    (revision lo hi : ℕ) (e : Entry) (hist : List Entry) (o : Option Entry)
    → hi ≤ revision
    → Rising lo hi (e ∷ hist)
    → at_loop revision (e ∷ hist) o ≡ get_last? (e ∷ hist)
unfolding at_loop
at_loop-all revision lo hi e [] o le r = ground (arith, r.1)
at_loop-all revision lo hi e (x ∷ hist) o le r =
    ground (arith, r.1, at_loop-all revision e.revision hi x hist (some e) le r.2)

read_at-current :
    (current : ℕ) (hist : List Entry)
    → Rising 0 current hist
    → read_at current hist ≡ get_last? hist
unfolding read_at at_loop
read_at-current current [] r = ground arith
read_at-current current (e ∷ hist) r =
    ground (arith, at_loop-all current 0 current e hist none (omega arith) r)

module _ (bt : OrderedMap (List Entry)) where
  -- A read at the current revision finds what a read without a revision does.
  pub read-current :
      (n : ℕ) (m : Memory bt) (k : Bytes)
      → Inv bt n m
      → read bt m k m.current_revision ≡ read bt m k 0
  unfolding read latest read_at
  read-current n m k v =
      read-eq-read_at bt m k m.current_revision
      ∙ read_at-current m.current_revision (history bt m k) (v.rising k)

  -- The range of one key.
  pub listing-one :
      (key : Bytes) (limit revision : ℕ) (keys_only : Bool) (m : Memory bt)
      → listing bt key [] limit revision keys_only m
        ≡ limited limit (to_list (shown bt m revision keys_only key))
  listing-one key limit revision keys_only m =
      let f = shown bt m revision keys_only in
      ap (limited limit) (
        collect_ext (λ _. Unit) (ranged key [] f) (λ _ _ q _. q) (bt.scan m.keys) ((key, true) ∷ [])
          (bt.scan-Ascending m.keys) (tt, tt) (Every-trivial (bt.scan m.keys)) (tt, tt)
          (λ k _ e. ranged-none key [] f k (shown-missing bt m revision keys_only k e))
          (λ k _ e. ranged-other key f k (lookup-one key k e))
        ∙ collect-one (ranged key [] f) key
        ∙ ap to_list (ranged_self key f))

  -- For every key, revision and state, `Get` answers with the error of the revision, or with the
  -- revision and what is live at the key there.
  pub get-eq-answer_kv :
      (key : Bytes) (revision : ℕ) (keys_only : Bool) (m : Memory bt)
      → get bt key revision keys_only m
        ≡ answer_kv revision m.current_revision m.compact_revision
            (shown bt m revision keys_only key)
  unfolding get answered
  get-eq-answer_kv key revision keys_only m =
      ap answered (
        list-eq-answer bt key [] 1 revision keys_only m
        ∙ ap (answer revision m.current_revision m.compact_revision)
            (listing-one key 1 revision keys_only m))
      ∙ answered-answer revision m.current_revision m.compact_revision
          (limited 1 (to_list (shown bt m revision keys_only key)))
      ∙ ap (answer_kv revision m.current_revision m.compact_revision)
          (first_kv-limited (shown bt m revision keys_only key))
