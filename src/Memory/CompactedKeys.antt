-- ===== src/Memory/CompactedKeys.antt =====
-- Compact of pkg/drivers/memory/memory.go on the map of the keys: the scan trims each history once.
use kine.Prelude.{
  ℕ, ◌-◌, ◌≤◌, ◌<◌, ◌≡◌, refl, ap, ◌∙◌, sym, subst, inl, inr, Bool, false, not, ◌||◌, Option, none,
  some, List, [], ◌∷◌, ◌++◌, ltb, leb, ◌==◌, if◌then◌else◌, length, drop, Bytes, arith, Bool-cases,
  str_eq, str_eq_refl, str_eq→eq,
}
use kine.Memory.Tree.{OrderedMap, lookup, Above, Ascending}
use kine.Memory.Ordered.{lookup-Above}
use kine.Memory.Entry.{Entry, new_hist, clear_first}
use kine.Memory.State.{Memory}
use kine.Memory.Compaction.{Scan, scan_item, scan_loop, delete_keys, compact}

abbrev pub contains : Bytes → List Bytes → Bool
contains k [] = false
contains k (j ∷ ks) = str_eq j k || contains k ks

contains-append :
    (k j : Bytes) (ks : List Bytes) → contains k (ks ++ j ∷ []) ≡ (contains k ks || str_eq j k)
contains-append k j [] = ground arith
contains-append k j (i ∷ ks) = ground (arith, contains-append k j ks)

pub ltb_ge : (a b : ℕ) → b ≤ a → ltb a b ≡ false
ltb_ge a b h = ground arith

pub leb_lt : (a b : ℕ) → b < a → leb a b ≡ false
leb_lt a b h = ground arith

-- The history that the closure of the scan leaves in the map; `none` if it writes nothing.
abbrev pub kept : ℕ → List Entry → List Entry
kept revision hist =
    let hist' = new_hist revision hist in
    if not (length hist' == length hist) then clear_first hist' else hist

-- What the scan and the removals leave of a history in the map.
abbrev pub outcome : ℕ → List Entry → Option (List Entry)
outcome revision hist =
    if length (new_hist revision hist) == 0 then none else some (kept revision hist)

module _ (bt : OrderedMap (List Entry)) where
  get-delete_keys :
      (ks : List Bytes) (m : bt.Map) (k : Bytes)
      → bt.get (delete_keys bt ks m) k ≡ (if contains k ks then none else bt.get m k)
  unfolding delete_keys
  get-delete_keys [] m k = refl
  get-delete_keys (j ∷ ks) m k =
      get-delete_keys ks (bt.delete m j) k ∙ ground (arith, bt.get-delete m j k)

module _ (bt : OrderedMap (List Entry)) (revision : ℕ) (key : Bytes) (hist : List Entry)
    (s : Scan bt) (k : Bytes) where
  get-scan_item_ne :
      str_eq key k ≡ false → bt.get (scan_item bt revision key hist s).keys k ≡ bt.get s.keys k
  unfolding scan_item
  get-scan_item_ne ne =
      ground (arith, bt.get-set s.keys key k (clear_first (new_hist revision hist)))

  contains-scan_item_ne :
      str_eq key k ≡ false
      → contains k (scan_item bt revision key hist s).to_remove ≡ contains k s.to_remove
  unfolding scan_item
  contains-scan_item_ne ne = ground (arith, contains-append k key s.to_remove)

module _ (bt : OrderedMap (List Entry)) where
  -- The map at `k` once the keys to remove are deleted.
  abbrev final : Scan bt → Bytes → Option (List Entry)
  final s k = if contains k s.to_remove then none else bt.get s.keys k

  final-scan_item :
      (revision : ℕ) (key : Bytes) (hist : List Entry) (s : Scan bt)
      → bt.get s.keys key ≡ some hist
      → contains key s.to_remove ≡ false
      → final (scan_item bt revision key hist s) key ≡ outcome revision hist
  unfolding scan_item
  final-scan_item revision key hist s h c = ground (
    arith,
    bt.get-set s.keys key key (clear_first (new_hist revision hist)),
    str_eq_refl key,
    contains-append key key s.to_remove,
  )

  final-scan_item_ne :
      (revision : ℕ) (key : Bytes) (hist : List Entry) (s : Scan bt) (k : Bytes)
      → str_eq key k ≡ false
      → final (scan_item bt revision key hist s) k ≡ final s k
  final-scan_item_ne revision key hist s k ne =
      rw
        (
          contains-scan_item_ne bt revision key hist s k ne,
          get-scan_item_ne bt revision key hist s k ne,
        )
        refl

  -- The items are still as the scan found them.
  abbrev Untouched : List (Bytes × List Entry) → Scan bt → Type 0
  Untouched items s =
      (k : Bytes) (hist : List Entry)
      → lookup k items ≡ some hist
      → (bt.get s.keys k ≡ some hist) × (contains k s.to_remove ≡ false)

  Untouched-tail :
      (revision : ℕ) (key : Bytes) (hist : List Entry) (items : List (Bytes × List Entry))
      (s : Scan bt)
      → Above key items
      → Untouched ((key, hist) ∷ items) s
      → Untouched items (scan_item bt revision key hist s)
  Untouched-tail revision key hist items s a u k h e = elim (Bool-cases (str_eq key k)) [
    | inl same ↦
        let e' : lookup key items ≡ some h = rw (str_eq→eq key k same) e in
        cc (e', lookup-Above key items a)
    | inr ne ↦
        let at = u k h (rw ne e) in
        (
          get-scan_item_ne bt revision key hist s k ne ∙ at.0,
          contains-scan_item_ne bt revision key hist s k ne ∙ at.1,
        )
  ]

  final-scan_loop :
      (revision : ℕ) (items : List (Bytes × List Entry)) (s : Scan bt) (k : Bytes)
      → Ascending items
      → Untouched items s
      → final (scan_loop bt revision items s) k
        ≡ elim (lookup k items) [ none ↦ final s k | some hist ↦ outcome revision hist ]
  unfolding scan_loop
  final-scan_loop revision [] s k a u = refl
  final-scan_loop revision ((key, hist) ∷ items) s k a u =
      final-scan_loop revision items (scan_item bt revision key hist s) k a.1
        (Untouched-tail revision key hist items s a.0 u)
      ∙ elim (Bool-cases (str_eq key k)) [
        | inl same ↦
            let at = u key hist (rw (str_eq_refl key) refl) in
            subst
              (λ j.
                elim (lookup j items) [
                  | none ↦ final (scan_item bt revision key hist s) j
                  | some h ↦ outcome revision h
                ]
                ≡ elim (lookup j ((key, hist) ∷ items)) [
                  | none ↦ final s j
                  | some h ↦ outcome revision h
                ])
              (str_eq→eq key k same)
              (rw (lookup-Above key items a.0, str_eq_refl key)
                (final-scan_item revision key hist s at.0 at.1))
        | inr ne ↦ rw ne (
            ap
              (λ (o : Option (List Entry)). elim (lookup k items) [
                | none ↦ o
                | some h ↦ outcome revision h
              ])
              (final-scan_item_ne revision key hist s k ne))
      ]

  abbrev pub scanned : ℕ → Memory bt → Scan bt
  scanned revision m =
      scan_loop bt revision (bt.scan m.keys) (record { keys = m.keys; log = m.log; to_remove = [] })

  -- `Compact` at a revision that it accepts.
  pub compact_lem :
      (revision : ℕ) (m : Memory bt)
      → revision ≤ m.current_revision
      → m.compact_revision < revision
      → compact bt revision m ≡ (
        (m.current_revision, none),
        record m {
          keys = delete_keys bt (scanned revision m).to_remove (scanned revision m).keys;
          log =
              if ltb 0 (revision - m.compact_revision - 1)
              then drop (revision - m.compact_revision - 1) (scanned revision m).log
              else (scanned revision m).log;
          compact_revision = revision;
        },
      )
  unfolding compact
  compact_lem revision m le lt =
      rw (ltb_ge m.current_revision revision le, leb_lt revision m.compact_revision lt) refl

  -- After `Compact` each key has what the switch keeps of its history, and no other key is there.
  pub get-compact :
      (revision : ℕ) (m : Memory bt) (k : Bytes)
      → revision ≤ m.current_revision
      → m.compact_revision < revision
      → bt.get (compact bt revision m).1.keys k
        ≡ elim (bt.get m.keys k) [ none ↦ none | some hist ↦ outcome revision hist ]
  unfolding compact
  get-compact revision m k le lt =
      let s0 : Scan bt = record { keys = m.keys; log = m.log; to_remove = [] } in
      let s1 = scan_loop bt revision (bt.scan m.keys) s0 in
      rw (ltb_ge m.current_revision revision le, leb_lt revision m.compact_revision lt)
        (get-delete_keys bt s1.to_remove s1.keys k
          ∙ final-scan_loop revision (bt.scan m.keys) s0 k (bt.scan-Ascending m.keys)
              (λ j h e. (sym (bt.lookup-scan m.keys j) ∙ e, refl))
          ∙ rw (bt.lookup-scan m.keys k) (by_get (bt.get m.keys k) (bt.get m.keys k) refl))
    where
      by_get :
          (o p : Option (List Entry))
          → p ≡ o
          → elim o [ none ↦ p | some hist ↦ outcome revision hist ]
            ≡ elim o [ none ↦ none | some hist ↦ outcome revision hist ]
      by_get none p e = e
      by_get (some h) p e = refl
