-- ===== src/Memory/Preserved.antt =====
-- Every operation of pkg/drivers/memory/memory.go keeps the invariant of its state.
use kine.Prelude.{
  ℕ, ◌+◌, ◌-◌, ◌≤◌, ◌<◌, ◌≡◌, refl, ap, sym, subst, inl, inr, true, false, not, ◌&&◌, Option, none,
  some, List, [], ◌∷◌, ltb, ◌==◌, length, drop, Bytes, arith, Bool-cases, Option-cases, All,
  if_cases,
}
use kine.Memory.Tree.{OrderedMap}
use kine.Memory.Entry.{Entry, live, new_hist, clear_first}
use kine.Memory.State.{Memory, history, latest, append_entry, new}
use kine.Memory.Writes.{create, update, delete}
use kine.Memory.Compaction.{Scan, scan_item, scan_loop, compact}
use kine.Memory.History.{Rising}
use kine.Memory.Trim.{Rising-new_hist, All-new_hist}
use kine.Memory.CompactedKeys.{outcome, get-compact, compact_lem, scanned}
use kine.Memory.Invariant.{
  Inv, Dense, Dense-length, Dense-drop, Dense-clear_log, append_entry-Inv, slice,
}

ltb_zero : (n : ℕ) → ltb 0 n ≡ false → n ≡ 0
ltb_zero n h = ground arith

length_zero : (hist : List Entry) → (length hist == 0) ≡ true → hist ≡ []
length_zero [] e = refl
length_zero (x ∷ hist) e = ground arith

module _ (bt : OrderedMap (List Entry)) where
  module _ {ℓ} (P : Memory bt → Type ℓ) (m : Memory bt) (same : P m)
      (appended : (e : Entry) → e.revision ≡ m.current_revision + 1 → P (append_entry bt m e)) where
    pub create_cases : (key value : Bytes) (lease : ℕ) → P (create bt key value lease m).1
    unfolding create
    create_cases key value lease = elim (Option-cases (live (latest bt m key))) [
      | inl e ↦ rw (e, create) (appended _ refl)
      | inr (x, e) ↦ rw (e, create) same
    ]

    pub update_cases :
        (key value : Bytes) (revision lease : ℕ) → P (update bt key value revision lease m).1
    unfolding update
    update_cases key value revision lease = elim (Option-cases (live (latest bt m key))) [
      | inl e ↦ rw (e, update) same
      | inr (x, e) ↦ elim (Bool-cases (x.revision == revision)) [
        | inl hit ↦ rw (e, update, hit) (appended _ refl)
        | inr miss ↦ rw (e, update, miss) same
      ]
    ]

    pub delete_cases : (key : Bytes) (revision : ℕ) → P (delete bt key revision m).1
    unfolding delete
    delete_cases key revision = elim (Option-cases (live (latest bt m key))) [
      | inl e ↦ rw (e, delete) same
      | inr (x, e) ↦ elim (Bool-cases (not (revision == 0) && not (x.revision == revision))) [
        | inl miss ↦ rw (e, delete, miss) same
        | inr hit ↦ rw (e, delete, hit) (appended _ refl)
      ]
    ]

  pub new-Inv : Inv bt 0 (new bt)
  unfolding new
  new-Inv = record {
    oldest = 1;
    oldest_at = omega arith;
    log = omega arith;
    compactions = omega arith;
    compact_at = omega arith;
    rising = λ k. subst (λ o. Rising 0 0 (slice o)) (sym (bt.get-empty k)) tt;
    keyed = λ k. subst (λ o. All (λ e. e.key ≡ k) (slice o)) (sym (bt.get-empty k)) tt;
  }

  module _ (n : ℕ) (m : Memory bt) (v : Inv bt n m) where
    pub create-Inv : (key value : Bytes) (lease : ℕ) → Inv bt n (create bt key value lease m).1
    create-Inv = create_cases (Inv bt n) m v (λ e. append_entry-Inv bt n m e v)

    pub update-Inv :
        (key value : Bytes) (revision lease : ℕ) → Inv bt n (update bt key value revision lease m).1
    update-Inv = update_cases (Inv bt n) m v (λ e. append_entry-Inv bt n m e v)

    pub delete-Inv : (key : Bytes) (revision : ℕ) → Inv bt n (delete bt key revision m).1
    delete-Inv = delete_cases (Inv bt n) m v (λ e. append_entry-Inv bt n m e v)

  scan_item-Dense :
      (revision first last : ℕ) (key : Bytes) (hist : List Entry) (s : Scan bt)
      → Dense first s.log last
      → Dense first (scan_item bt revision key hist s).log last
  unfolding scan_item
  scan_item-Dense revision first last key hist s d =
      ground (arith, Dense-clear_log first last (new_hist revision hist) s.log d)

  scan_loop-Dense :
      (revision first last : ℕ) (items : List (Bytes × List Entry)) (s : Scan bt)
      → Dense first s.log last
      → Dense first (scan_loop bt revision items s).log last
  unfolding scan_loop
  scan_loop-Dense revision first last [] s d = d
  scan_loop-Dense revision first last ((key, hist) ∷ items) s d =
      scan_loop-Dense revision first last items (scan_item bt revision key hist s)
        (scan_item-Dense revision first last key hist s d)

  -- A property of what is kept of a history.
  pub outcome_cases {ℓ} :
      (P : List Entry → Type ℓ) (revision : ℕ) (hist : List Entry)
      → (new_hist revision hist ≡ [] → P [])
      → P hist
      → P (clear_first (new_hist revision hist))
      → P (slice (outcome revision hist))
  outcome_cases P revision hist none_left same cut =
      if_cases (λ o. P (slice o)) (length (new_hist revision hist) == 0) _ _
        (λ z. none_left (length_zero (new_hist revision hist) z))
        (λ _.
          if_cases P (not (length (new_hist revision hist) == length hist)) _ _ (λ _. cut)
            (λ _. same))

  pub history-compact :
      (revision : ℕ) (m : Memory bt) (k : Bytes)
      → revision ≤ m.current_revision
      → m.compact_revision < revision
      → history bt (compact bt revision m).1 k
        ≡ slice (elim (bt.get m.keys k) [ none ↦ none | some hist ↦ outcome revision hist ])
  history-compact revision m k le lt = ap slice (get-compact bt revision m k le lt)

  Rising-clear_first :
      (lo hi : ℕ) (hist : List Entry) → Rising lo hi hist → Rising lo hi (clear_first hist)
  unfolding clear_first
  Rising-clear_first lo hi [] r = tt
  Rising-clear_first lo hi (e ∷ hist) r = r

  keyed-clear_first :
      (k : Bytes) (hist : List Entry)
      → All (λ e. e.key ≡ k) hist
      → All (λ e. e.key ≡ k) (clear_first hist)
  unfolding clear_first
  keyed-clear_first k [] a = tt
  keyed-clear_first k (e ∷ hist) a = a

  -- A property that every kept history inherits holds of the histories after `Compact`.
  pub compact_cases {ℓ} :
      (P : List Entry → Type ℓ) (revision : ℕ) (m : Memory bt) (k : Bytes)
      → revision ≤ m.current_revision
      → m.compact_revision < revision
      → P []
      → P (history bt m k)
      → ((hist : List Entry) → P hist → P (clear_first (new_hist revision hist)))
      → P (history bt (compact bt revision m).1 k)
  compact_cases P revision m k le lt none_left same cut =
      subst P (sym (history-compact revision m k le lt)) (go (bt.get m.keys k) same)
    where
      go :
          (o : Option (List Entry))
          → P (slice o)
          → P (slice (elim o [ none ↦ none | some hist ↦ outcome revision hist ]))
      go none p = p
      go (some hist) p = outcome_cases P revision hist (λ _. none_left) p (cut hist p)

  compact-Dense :
      (n : ℕ) (m : Memory bt) (revision : ℕ)
      → (v : Inv bt n m) → revision ≤ m.current_revision
      → m.compact_revision < revision
      → Dense
          (v.oldest + (revision - m.compact_revision - 1))
          (compact bt revision m).1.log
          (compact bt revision m).1.current_revision
  compact-Dense n m revision v le lt =
      let cut = revision - m.compact_revision - 1 in
      let log = (scanned bt revision m).log in
      let d =
        scan_loop-Dense revision v.oldest m.current_revision (bt.scan m.keys)
          (record { keys = m.keys; log = m.log; to_remove = [] }) v.log in
      rw (compact_lem bt revision m le lt) (
        if_cases (λ l. Dense (v.oldest + cut) l m.current_revision) (ltb 0 cut) (drop cut log) log
          (λ _.
            Dense-drop cut v.oldest m.current_revision log d
              (omega (arith, Dense-length v.oldest m.current_revision log d, v.oldest_at)))
          (λ z. subst (λ k. Dense k log m.current_revision) (omega (arith, ltb_zero cut z)) d))

  -- An accepted `Compact` keeps the invariant and counts one more compaction.
  pub compact-Inv :
      (n : ℕ) (m : Memory bt) (revision : ℕ)
      → Inv bt n m
      → revision ≤ m.current_revision
      → m.compact_revision < revision
      → Inv bt (n + 1) (compact bt revision m).1
  compact-Inv n m revision v le lt =
      let cut = revision - m.compact_revision - 1 in
      let at = compact_lem bt revision m le lt in
      record {
        oldest = v.oldest + cut;
        oldest_at = rw at (omega (arith, v.oldest_at));
        log = compact-Dense n m revision v le lt;
        compactions = rw at (omega (arith, v.compactions));
        compact_at = rw at (omega arith);
        rising = λ k.
            subst (λ r. Rising 0 r (history bt (compact bt revision m).1 k)) (rw at)
              (compact_cases (Rising 0 m.current_revision) revision m k le lt tt (v.rising k)
                (λ hist r.
                  Rising-clear_first 0 m.current_revision (new_hist revision hist)
                    (Rising-new_hist revision 0 m.current_revision hist r)));
        keyed = λ k.
            compact_cases (All (λ e. e.key ≡ k)) revision m k le lt tt (v.keyed k) (λ hist a.
              keyed-clear_first k (new_hist revision hist)
                (All-new_hist (λ e. e.key ≡ k) revision hist a));
      }
