-- ===== src/Quota/Races.antt =====
-- pkg/server/kubehz_quota.go: puts and samples that interleave, one atomic load, store or addition at
-- a time.
use kine.Prelude.{ℕ, ◌+◌, ◌-◌, ◌≡◌, Bool, true, false, List, [], ◌∷◌, ◌++◌, ltb, leb}
use kine.Quota.Figures.{Figures, reserve, release, settle}

-- the test of reserveBelow, and that of reserveWithin under a cap
pub data Test : Type 0 where
  below : Test
  within : (cap : ℕ) → Test

-- `fig` is the figure with the cost of the put.
abbrev pub keeps : ℕ → Test → ℕ → ℕ → Bool
keeps limit below cost fig = ltb (fig - cost) limit
keeps limit (within cap) cost fig = leb fig cap

-- what the bytes that were let through may come to after such a put
abbrev pub bound : ℕ → Test → ℕ → ℕ
bound limit below cost = limit + cost
bound limit (within cap) cost = cap

-- Where a put stands: before the loads of `figure`, after that of the base, after that of the live
-- figure, refused with its cost still added, and reserved. `of` is the base that belongs to the live
-- figure `live`, which no code reads.
pub data Put : Type 0 where
  began : (test : Test) (cost : ℕ) → Put
  based : (test : Test) (cost base : ℕ) → Put
  loaded : (test : Test) (cost base live of : ℕ) → Put
  refused : (cost : ℕ) → Put
  reserved : (cost : ℕ) → Put

-- Where `sample` stands: outside, after the load of its mark, and between its two stores.
pub data Sampling : Type 0 where
  outside : Sampling
  marked : (mark : ℕ) → Sampling
  stored : (mark : ℕ) → Sampling

-- `samples` are the live figures that were ever stored, each with its base.
pub record State : Type 0 where
  pub figures : Figures
  pub puts : List Put
  pub sampling : Sampling
  pub samples : List (ℕ × ℕ)

-- the base that belongs to the live figure
abbrev pub own_base : Sampling → Figures → ℕ
own_base outside q = q.base
own_base (marked mark) q = q.base
own_base (stored mark) q = q.marks0

-- One step of one put, in the order of `figure`, of reserveBelow or reserveWithin, and of `settle`. A put
-- that is over leaves the list.
pub data Move (sampling : Sampling) (q : Figures) : Put → Figures → List Put → Type 0 where
  load_base : {t : Test} {c : ℕ} → Move sampling q (began t c) q (based t c q.base ∷ [])
  load_live :
      {t : Test} {c b : ℕ}
      → Move sampling q (based t c b) q (loaded t c b q.live (own_base sampling q) ∷ [])
  add_kept :
      {t : Test} {c b l of : ℕ}
      → keeps q.limit t c (l + (q.written + c) - b) ≡ true
      → Move sampling q (loaded t c b l of) (reserve c q) (reserved c ∷ [])
  add_refused :
      {t : Test} {c b l of : ℕ}
      → keeps q.limit t c (l + (q.written + c) - b) ≡ false
      → Move sampling q (loaded t c b l of) (reserve c q) (refused c ∷ [])
  give_back : {c : ℕ} → Move sampling q (refused c) (release c q) []
  end : {c : ℕ} (wrote : Bool) → Move sampling q (reserved c) (settle c wrote q) []

-- the steps of the puts, in any order
pub data PutStep (y : State) : State → Type 0 where
  begin : (t : Test) (c : ℕ) → PutStep y (record y { puts = began t c ∷ y.puts })
  move :
      (before after now : List Put) (p : Put) (q : Figures)
      → y.puts ≡ before ++ p ∷ after
      → Move y.sampling y.figures p q now
      → PutStep y (record y { figures = q; puts = before ++ (now ++ after) })

-- The steps of `sample`: the mark, a failed read, the two stores, and the store of a sample that does
-- not advance.
pub data SampleStep (y : State) : State → Type 0 where
  mark : y.sampling ≡ outside → SampleStep y (record y { sampling = marked y.figures.committed })
  fail : (m : ℕ) → y.sampling ≡ marked m → SampleStep y (record y { sampling = outside })
  store_live :
      (m size : ℕ)
      → y.sampling ≡ marked m
      → SampleStep y (record y {
        figures = record y.figures { live = size };
        sampling = stored m;
        samples = (size, y.figures.marks0) ∷ y.samples;
      })
  store_base :
      (m : ℕ)
      → y.sampling ≡ stored m
      → SampleStep y (record y {
        figures = record y.figures {
          base = y.figures.marks0;
          marks0 = y.figures.marks1;
          marks1 = m;
        };
        sampling = outside;
      })
  store_again :
      (size : ℕ)
      → y.sampling ≡ outside
      → SampleStep y (record y {
        figures = record y.figures { live = size };
        samples = (size, y.figures.base) ∷ y.samples;
      })

pub data Step (y z : State) : Type 0 where
  by_put : PutStep y z → Step y z
  by_sample : SampleStep y z → Step y z

-- with no put in flight and no sample under way
abbrev pub quiet : Figures → State
quiet q = record { figures = q; puts = []; sampling = outside; samples = (q.live, q.base) ∷ [] }

pub data Run (q : Figures) : State → Type 0 where
  here : Run q (quiet q)
  then : {y z : State} → Run q y → Step y z → Run q z

-- the cost that a put has reserved, and the one that it has still to give back
abbrev pub reserved_cost : Put → ℕ
reserved_cost (reserved c) = c
reserved_cost _ = 0

abbrev pub refused_cost : Put → ℕ
refused_cost (refused c) = c
refused_cost _ = 0

abbrev pub total : (Put → ℕ) → List Put → ℕ
total f [] = 0
total f (p ∷ ps) = f p + total f ps

-- the bytes of the puts that were let through, and not given back
abbrev pub kept : State → ℕ
kept y = y.figures.committed + total reserved_cost y.puts
