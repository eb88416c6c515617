-- ===== src/Memory/Snapshots.antt =====
-- Reads in the past, of pkg/drivers/memory/memory.go: a write does not change them, and a
-- compaction changes only those that it makes fail.
use kine.Prelude.{
  ℕ, ◌+◌, ◌≤◌, ◌<◌, ◌≡◌, refl, ap, ◌∙◌, sym, subst, inl, inr, Bool, true, false, ◌&&◌, Option, none,
  some, List, [], ◌∷◌, ltb, leb, if◌then◌else◌, Bytes, arith, Bool-cases, get_last?, if_cases,
  str_eq, str_eq→eq,
}
use kine.Types.{KeyValue, compacted}
use kine.Memory.Tree.{OrderedMap}
use kine.Memory.Entry.{Entry, new_hist, clear_first, at_loop, listed_kv, to_key_value}
use kine.Memory.State.{Memory, history, append_entry, linked}
use kine.Memory.Writes.{create, update, delete}
use kine.Memory.Reads.{list}
use kine.Memory.Compaction.{compact}
use kine.Memory.History.{Rising, read_at, read-eq-read_at, read_at-append_old}
use kine.Memory.Trim.{live-new_hist}
use kine.Memory.CompactedKeys.{compact_lem, outcome}
use kine.Memory.Invariant.{Inv, history-append_entry, linked-revision, slice}
use kine.Memory.Preserved.{create_cases, update_cases, delete_cases, outcome_cases, history-compact}
use kine.Memory.Listing.{shown, shown_kv, listing, listing_ext, answer, list-eq-answer}

-- `prev` is not shown.
shown_kv-at_loop :
    (keys_only : Bool) (revision : ℕ) (hist : List Entry) (o p : Option Entry)
    → shown_kv keys_only o ≡ shown_kv keys_only p
    → shown_kv keys_only (at_loop revision hist o) ≡ shown_kv keys_only (at_loop revision hist p)
unfolding at_loop
shown_kv-at_loop keys_only revision [] o p h = h
shown_kv-at_loop keys_only revision (e ∷ hist) o p h =
    if_cases
      (λ x.
        shown_kv keys_only x
        ≡ shown_kv keys_only
            (if leb e.revision revision then at_loop revision hist (some e) else p))
      (leb e.revision revision) _ _ (λ t. rw t refl) (λ t. rw t h)

cleared : Entry → Entry
cleared e = record e { prev = none }

shown_kv-cleared :
    (keys_only : Bool) (e : Entry)
    → shown_kv keys_only (some (cleared e)) ≡ shown_kv keys_only (some e)
unfolding cleared to_key_value
shown_kv-cleared keys_only e = ground arith

shown_kv-last :
    (keys_only : Bool) (e : Entry) (hist : List Entry)
    → shown_kv keys_only (get_last? (cleared e ∷ hist)) ≡ shown_kv keys_only (get_last? (e ∷ hist))
shown_kv-last keys_only e [] = shown_kv-cleared keys_only e
shown_kv-last keys_only e (x ∷ hist) = refl

shown_kv-clear_first :
    (keys_only : Bool) (revision : ℕ) (hist : List Entry)
    → shown_kv keys_only (read_at revision (clear_first hist))
      ≡ shown_kv keys_only (read_at revision hist)
unfolding clear_first read_at at_loop cleared
shown_kv-clear_first keys_only revision [] = refl
shown_kv-clear_first keys_only revision (e ∷ hist) =
    if_cases (λ o. shown_kv keys_only o ≡ shown_kv keys_only (read_at revision (e ∷ hist)))
      (ltb 0 revision) _ _
      (λ t. rw t (
        if_cases
          (λ o.
            shown_kv keys_only o
            ≡ shown_kv keys_only
                (if leb e.revision revision then at_loop revision hist (some e) else none))
          (leb e.revision revision) _ _
          (λ u. rw u (shown_kv-at_loop keys_only revision hist _ _ (shown_kv-cleared keys_only e)))
          (λ u. rw u refl)))
      (λ t. rw t (shown_kv-last keys_only e hist))

answer_past :
    (revision current current' compact : ℕ) (kvs : List KeyValue)
    → 0 < revision
    → revision ≤ current
    → revision ≤ current'
    → compact ≤ revision
    → answer revision current compact kvs ≡ answer revision current' compact kvs
answer_past revision current current' compact kvs p a b c = ground arith

answer_compacted :
    (revision current compact : ℕ) (kvs : List KeyValue)
    → (ltb 0 revision && ltb revision compact) ≡ true
    → compact ≤ current
    → answer revision current compact kvs ≡ (current, [], some compacted)
answer_compacted revision current compact kvs h le = ground arith

answer_kept :
    (revision current compact compact' : ℕ) (kvs : List KeyValue)
    → (ltb 0 revision && ltb revision compact') ≡ false
    → compact < compact'
    → answer revision current compact' kvs ≡ answer revision current compact kvs
answer_kept revision current compact compact' kvs h lt = ground arith

above :
    (revision at : ℕ) → 0 < revision → (ltb 0 revision && ltb revision at) ≡ false → at ≤ revision
above revision at p h = ground arith

shown-new_hist :
    (keys_only : Bool) (at revision lo hi : ℕ) (hist : List Entry)
    → Rising lo hi hist
    → at ≤ hi
    → (0 < revision → at ≤ revision)
    → shown_kv keys_only (read_at revision (new_hist at hist))
      ≡ shown_kv keys_only (read_at revision hist)
shown-new_hist keys_only at revision lo hi hist rise le h =
    ap (λ (o : Option Entry). elim o [ none ↦ none | some e ↦ some (listed_kv keys_only e) ])
      (live-new_hist at revision lo hi hist rise le h)

module _ (bt : OrderedMap (List Entry)) where
  shown-read_at :
      (m : Memory bt) (revision : ℕ) (keys_only : Bool) (k : Bytes)
      → shown bt m revision keys_only k ≡ shown_kv keys_only (read_at revision (history bt m k))
  shown-read_at m revision keys_only k = ap (shown_kv keys_only) (read-eq-read_at bt m k revision)

  -- An append of the next revision changes nothing that a reader of an older one sees.
  pub shown-append_entry :
      (m : Memory bt) (e : Entry) (revision : ℕ) (keys_only : Bool) (k : Bytes)
      → e.revision ≡ m.current_revision + 1
      → 0 < revision
      → revision ≤ m.current_revision
      → shown bt (append_entry bt m e) revision keys_only k ≡ shown bt m revision keys_only k
  shown-append_entry m e revision keys_only k h p le =
      let last = linked (get_last? (history bt m e.key)) e in
      let newer : revision < last.revision =
        omega (arith, linked-revision (get_last? (history bt m e.key)) e) in
      shown-read_at (append_entry bt m e) revision keys_only k
      ∙ ap (λ l. shown_kv keys_only (read_at revision l)) (history-append_entry bt m e k)
      ∙ if_cases
          (λ l.
            shown_kv keys_only (read_at revision l)
            ≡ shown_kv keys_only (read_at revision (history bt m k)))
          (str_eq e.key k) _ _
          (λ same.
            ap (shown_kv keys_only) (read_at-append_old revision (history bt m e.key) last p newer)
            ∙ ap (λ j. shown_kv keys_only (read_at revision (history bt m j)))
                (str_eq→eq e.key k same))
          (λ _. refl)
      ∙ sym (shown-read_at m revision keys_only k)

  list_ext :
      (key end : Bytes) (limit revision : ℕ) (keys_only : Bool) (m n : Memory bt)
      → ((k : Bytes) → shown bt n revision keys_only k ≡ shown bt m revision keys_only k)
      → list bt key end limit revision keys_only n
        ≡ answer revision n.current_revision n.compact_revision
            (listing bt key end limit revision keys_only m)
  list_ext key end limit revision keys_only m n h =
      list-eq-answer bt key end limit revision keys_only n
      ∙ ap (answer revision n.current_revision n.compact_revision)
          (listing_ext bt key end limit revision keys_only n m h)

  -- What a write may do to the reads of a revision that is there and not compacted.
  abbrev pub SameRead : ℕ → Memory bt → Memory bt → Type 0
  SameRead revision m n =
      (key end : Bytes) (limit : ℕ) (keys_only : Bool)
      → list bt key end limit revision keys_only n ≡ list bt key end limit revision keys_only m

  list-append_entry :
      (m : Memory bt) (revision : ℕ)
      → 0 < revision
      → revision ≤ m.current_revision
      → m.compact_revision ≤ revision
      → (e : Entry) → e.revision ≡ m.current_revision + 1
      → SameRead revision m (append_entry bt m e)
  list-append_entry m revision p le c e h key end limit keys_only =
      list_ext key end limit revision keys_only m (append_entry bt m e)
        (λ k. shown-append_entry m e revision keys_only k h p le)
      ∙ unfold append_entry in
        answer_past revision e.revision m.current_revision m.compact_revision _ p (omega (arith, h))
          le c
        ∙ sym (list-eq-answer bt key end limit revision keys_only m)

  module _ (m : Memory bt) (revision : ℕ) (p : 0 < revision) (le : revision ≤ m.current_revision)
      (c : m.compact_revision ≤ revision) where
    -- A revision that is positive, at most the current one and not below the compact revision
    -- keeps its reads: whatever `Create`, `Update` or `Delete` does to the state, `List` at that
    -- revision returns the same for every range, limit and keysOnly.
    pub list_stable :
        (key value : Bytes) (at lease : ℕ)
        → SameRead revision m (create bt key value lease m).1
          × SameRead revision m (update bt key value at lease m).1
          × SameRead revision m (delete bt key at m).1
    list_stable key value at lease =
        let same : SameRead revision m m = λ a b l o. refl in
        let step = list-append_entry m revision p le c in
        (
          create_cases bt (SameRead revision m) m same step key value lease,
          update_cases bt (SameRead revision m) m same step key value at lease,
          delete_cases bt (SameRead revision m) m same step key at,
        )

  pub shown-compact :
      (n : ℕ) (m : Memory bt) (at revision : ℕ) (keys_only : Bool) (k : Bytes)
      → Inv bt n m
      → at ≤ m.current_revision
      → m.compact_revision < at
      → (0 < revision → at ≤ revision)
      → shown bt (compact bt at m).1 revision keys_only k ≡ shown bt m revision keys_only k
  shown-compact n m at revision keys_only k v le lt h =
      shown-read_at (compact bt at m).1 revision keys_only k
      ∙ ap (λ l. shown_kv keys_only (read_at revision l)) (history-compact bt at m k le lt)
      ∙ go (bt.get m.keys k) refl
      ∙ sym (shown-read_at m revision keys_only k)
    where
      go :
          (o : Option (List Entry))
          → bt.get m.keys k ≡ o
          → shown_kv keys_only
              (read_at revision (slice (elim o [ none ↦ none | some hist ↦ outcome at hist ])))
            ≡ shown_kv keys_only (read_at revision (slice (bt.get m.keys k)))
      go none e = rw e refl
      go (some hist) e =
          let trimmed =
            shown-new_hist keys_only at revision 0 m.current_revision hist
              (subst (λ x. Rising 0 m.current_revision (slice x)) e (v.rising k)) le h in
          rw e (
            outcome_cases bt
              (λ l.
                shown_kv keys_only (read_at revision l)
                ≡ shown_kv keys_only (read_at revision hist))
              at hist (λ z. ap (λ l. shown_kv keys_only (read_at revision l)) (sym z) ∙ trimmed)
              refl (shown_kv-clear_first keys_only revision (new_hist at hist) ∙ trimmed))

  -- In a state with the invariant, an accepted `Compact` makes every `List` at a positive revision
  -- below its target fail with the compacted error, and leaves the result of every other `List` as
  -- it was.
  pub list-compact :
      (n : ℕ) (m : Memory bt) (at : ℕ) (key end : Bytes) (limit revision : ℕ) (keys_only : Bool)
      → Inv bt n m
      → at ≤ m.current_revision
      → m.compact_revision < at
      → list bt key end limit revision keys_only (compact bt at m).1 ≡ (
          if ltb 0 revision && ltb revision at
          then (m.current_revision, [], some compacted)
          else list bt key end limit revision keys_only m)
  list-compact n m at key end limit revision keys_only v le lt =
      elim (Bool-cases (ltb 0 revision && ltb revision at)) [
        | inl below ↦ rw below (
            list-eq-answer bt key end limit revision keys_only (compact bt at m).1
            ∙ rw (compact_lem bt at m le lt)
                (answer_compacted revision m.current_revision at _ below le))
        | inr kept ↦ rw kept (
            list_ext key end limit revision keys_only m (compact bt at m).1 (λ k.
              shown-compact n m at revision keys_only k v le lt (λ p. above revision at p kept))
            ∙ rw (compact_lem bt at m le lt)
                (answer_kept revision m.current_revision m.compact_revision at _ kept lt)
            ∙ sym (list-eq-answer bt key end limit revision keys_only m))
      ]
