-- ===== src/Memory/History.antt =====
-- The history of one key: what a read of it returns, and how an append and a compaction change it.
use kine.Prelude.{
  ℕ, ◌≤◌, ◌<◌, ◌≡◌, refl, Option, none, some, List, [], ◌∷◌, ◌++◌, Bytes, ltb, if◌then◌else◌, arith,
  get_last?,
}
use kine.Memory.Tree.{OrderedMap}
use kine.Memory.Entry.{Entry, at_loop}
use kine.Memory.State.{Memory, history, latest, at_revision}
use kine.Memory.Reads.{read}

-- The entry of a history that a read at `revision` looks at.
unfoldable pub read_at : ℕ → List Entry → Option Entry
unfolding at_loop
read_at revision hist = if ltb 0 revision then at_loop revision hist none else get_last? hist

pub read-eq-read_at :
    (bt : OrderedMap (List Entry)) (m : Memory bt) (k : Bytes) (revision : ℕ)
    → read bt m k revision ≡ read_at revision (history bt m k)
unfolding read read_at latest at_revision
read-eq-read_at bt m k revision = refl

pub read_at-nil : (revision : ℕ) → read_at revision [] ≡ none
unfolding read_at
read_at-nil revision = ground arith

-- The revisions rise strictly from above `lo`, and none is above `hi`.
abbrev pub Rising : ℕ → ℕ → List Entry → Type 0
Rising lo hi [] = Unit
Rising lo hi (e ∷ hist) = (lo < e.revision) × (e.revision ≤ hi) × Rising e.revision hi hist

pub Rising-append :
    (lo hi : ℕ) (hist : List Entry) (e : Entry)
    → Rising lo hi hist
    → lo ≤ hi
    → hi < e.revision
    → Rising lo e.revision (hist ++ e ∷ [])
Rising-append lo hi [] e r le h = omega arith
Rising-append lo hi (x ∷ hist) e r le h =
    (r.0, omega arith, Rising-append x.revision hi hist e r.2 r.1 h)

at_loop-above :
    (revision lo hi : ℕ) (hist : List Entry) (o : Option Entry)
    → revision ≤ lo
    → Rising lo hi hist
    → at_loop revision hist o ≡ o
unfolding at_loop
at_loop-above revision lo hi [] o le r = refl
at_loop-above revision lo hi (e ∷ hist) o le r = ground arith

-- A later entry does not change what a read in the past finds.
at_loop-append :
    (revision : ℕ) (hist : List Entry) (e : Entry) (o : Option Entry)
    → revision < e.revision
    → at_loop revision (hist ++ e ∷ []) o ≡ at_loop revision hist o
unfolding at_loop
at_loop-append revision [] e o h = ground arith
at_loop-append revision (x ∷ hist) e o h = ground (arith, at_loop-append revision hist e (some x) h)

-- At the newest revision and above, a read finds the last entry.
at_loop-last :
    (revision lo hi : ℕ) (hist : List Entry) (e : Entry) (o : Option Entry)
    → hi ≤ revision
    → Rising lo hi hist
    → e.revision ≤ revision
    → at_loop revision (hist ++ e ∷ []) o ≡ some e
unfolding at_loop
at_loop-last revision lo hi [] e o h r k = ground arith
at_loop-last revision lo hi (x ∷ hist) e o h r k =
    ground (arith, at_loop-last revision x.revision hi hist e (some x) h r.2 k)

pub read_at-append_old :
    (revision : ℕ) (hist : List Entry) (e : Entry)
    → 0 < revision
    → revision < e.revision
    → read_at revision (hist ++ e ∷ []) ≡ read_at revision hist
unfolding read_at
read_at-append_old revision hist e p h = ground (arith, at_loop-append revision hist e none h)
