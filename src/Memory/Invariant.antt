-- ===== src/Memory/Invariant.antt =====
-- What every operation of pkg/drivers/memory/memory.go keeps true of the state.
use kine.Prelude.{
  ℕ, zero, suc, ◌+◌, ◌≤◌, ◌≡◌, refl, ap, ◌∙◌, sym, subst, Bool, true, false, Option, none, some,
  List, [], ◌∷◌, ◌++◌, if◌then◌else◌, length, drop, Bytes, arith, get_last?, All, All-append,
  str_eq, str_eq→eq, if_cases,
}
use kine.Memory.Tree.{OrderedMap}
use kine.Memory.Entry.{Entry, clear_prev, clear_log}
use kine.Memory.State.{Memory, history, append_entry, linked}
use kine.Memory.History.{Rising, Rising-append}

-- The revisions of a log are consecutive, from `first` up to `last`.
abbrev pub Dense : ℕ → List Entry → ℕ → Type 0
Dense first [] last = first ≡ last + 1
Dense first (e ∷ log) last = (e.revision ≡ first) × Dense (first + 1) log last

pub Dense-length :
    (first last : ℕ) (log : List Entry) → Dense first log last → first + length log ≡ last + 1
Dense-length first last [] d = omega arith
Dense-length first last (e ∷ log) d = omega (arith, Dense-length (first + 1) last log d.1)

pub Dense-append :
    (first last : ℕ) (log : List Entry) (e : Entry)
    → Dense first log last
    → e.revision ≡ last + 1
    → Dense first (log ++ e ∷ []) e.revision
Dense-append first last [] e d h = (omega (arith, d, h), omega (arith, d, h))
Dense-append first last (x ∷ log) e d h = (d.0, Dense-append (first + 1) last log e d.1 h)

pub Dense-drop :
    (n first last : ℕ) (log : List Entry)
    → Dense first log last
    → n ≤ length log
    → Dense (first + n) (drop n log) last
Dense-drop zero first last log d h = subst (λ k. Dense k log last) (omega arith) d
Dense-drop (suc n) first last [] d h = absurd (omega arith)
Dense-drop (suc n) first last (x ∷ log) d h =
    subst (λ k. Dense k (drop n log) last) (omega arith)
      (Dense-drop n (first + 1) last log d.1 (omega arith))

pub Dense-clear_prev :
    (first last r : ℕ) (log : List Entry)
    → Dense first log last
    → Dense first (clear_prev r log) last
unfolding clear_prev
Dense-clear_prev first last r [] d = d
Dense-clear_prev first last r (e ∷ log) d =
    (ground (arith, d.0), Dense-clear_prev (first + 1) last r log d.1)

pub Dense-clear_log :
    (first last : ℕ) (hist log : List Entry)
    → Dense first log last
    → Dense first (clear_log hist log) last
unfolding clear_log
Dense-clear_log first last [] log d = d
Dense-clear_log first last (e ∷ hist) log d = Dense-clear_prev first last e.revision log d

-- `hist, _ := m.keys.Get(key)`
abbrev pub slice : Option (List Entry) → List Entry
slice o = elim o [ none ↦ [] | some hist ↦ hist ]

pub linked-revision : (o : Option Entry) (e : Entry) → (linked o e).revision ≡ e.revision
linked-revision none e = refl
linked-revision (some x) e = refl

linked-key : (o : Option Entry) (e : Entry) → (linked o e).key ≡ e.key
linked-key none e = refl
linked-key (some x) e = refl

module _ (bt : OrderedMap (List Entry)) where
  -- `n` is the number of compactions so far. The log begins `n` revisions before the first one
  -- above `compact_revision`.
  pub record Inv (n : ℕ) (m : Memory bt) : Type 0 where
    pub oldest : ℕ
    pub oldest_at : oldest + n ≡ m.compact_revision + 1
    pub log : Dense oldest m.log m.current_revision
    pub compactions : n ≤ m.compact_revision
    pub compact_at : m.compact_revision ≤ m.current_revision
    pub rising : (k : Bytes) → Rising 0 m.current_revision (history bt m k)
    pub keyed : (k : Bytes) → All (λ e. e.key ≡ k) (history bt m k)

  slice-if :
      (b : Bool) (hist : List Entry) (o : Option (List Entry))
      → slice (if b then some hist else o) ≡ (if b then hist else slice o)
  slice-if true hist o = refl
  slice-if false hist o = refl

  -- The history of a key after an append.
  pub history-append_entry :
      (m : Memory bt) (e : Entry) (k : Bytes)
      → history bt (append_entry bt m e) k ≡ (
          if str_eq e.key k
          then history bt m e.key ++ linked (get_last? (history bt m e.key)) e ∷ []
          else history bt m k)
  unfolding append_entry
  history-append_entry m e k =
      ap slice (
        bt.get-set m.keys e.key k
          (history bt m e.key ++ linked (get_last? (history bt m e.key)) e ∷ []))
      ∙ slice-if (str_eq e.key k) _ (bt.get m.keys k)

  Rising-last :
      (lo hi hi' : ℕ) (hist : List Entry) → hi ≤ hi' → Rising lo hi hist → Rising lo hi' hist
  Rising-last lo hi hi' [] le r = tt
  Rising-last lo hi hi' (e ∷ hist) le r =
      (r.0, omega (arith, r.1), Rising-last e.revision hi hi' hist le r.2)

  append_entry-Rising :
      (n : ℕ) (m : Memory bt) (e : Entry)
      → Inv n m
      → e.revision ≡ m.current_revision + 1
      → (k : Bytes)
      → Rising 0 (append_entry bt m e).current_revision (history bt (append_entry bt m e) k)
  append_entry-Rising n m e v h k =
      let last = linked (get_last? (history bt m e.key)) e in
      let at = linked-revision (get_last? (history bt m e.key)) e in
      subst (Rising 0 (append_entry bt m e).current_revision) (sym (history-append_entry m e k)) (
        unfold append_entry in
        if_cases (Rising 0 e.revision) (str_eq e.key k) _ _
          (λ _.
            subst (λ r. Rising 0 r (history bt m e.key ++ last ∷ [])) at
              (Rising-append 0 m.current_revision (history bt m e.key) last (v.rising e.key)
                (omega arith) (omega (arith, at, h))))
          (λ _.
            Rising-last 0 m.current_revision e.revision (history bt m k) (omega (arith, h))
              (v.rising k)))

  append_entry-keyed :
      (n : ℕ) (m : Memory bt) (e : Entry)
      → Inv n m
      → (k : Bytes) → All (λ x. x.key ≡ k) (history bt (append_entry bt m e) k)
  append_entry-keyed n m e v k =
      let last = linked (get_last? (history bt m e.key)) e in
      subst (All (λ x. x.key ≡ k)) (sym (history-append_entry m e k)) (
        if_cases (All (λ x. x.key ≡ k)) (str_eq e.key k) _ _
          (λ same.
            let e' = str_eq→eq e.key k same in
            All-append (λ x. x.key ≡ k) (history bt m e.key) (last ∷ [])
              (subst (λ j. All (λ x. x.key ≡ j) (history bt m e.key)) e' (v.keyed e.key))
              (linked-key (get_last? (history bt m e.key)) e ∙ e', tt))
          (λ _. v.keyed k))

  -- The append of the next revision keeps the invariant.
  pub append_entry-Inv :
      (n : ℕ) (m : Memory bt) (e : Entry)
      → Inv n m
      → e.revision ≡ m.current_revision + 1
      → Inv n (append_entry bt m e)
  append_entry-Inv n m e v h = record {
    oldest = v.oldest;
    oldest_at = unfold append_entry in v.oldest_at;
    log =
        unfold append_entry in
        subst (Dense v.oldest (m.log ++ linked (get_last? (history bt m e.key)) e ∷ []))
          (linked-revision (get_last? (history bt m e.key)) e)
          (Dense-append v.oldest m.current_revision m.log
            (linked (get_last? (history bt m e.key)) e) v.log
            (linked-revision (get_last? (history bt m e.key)) e ∙ h));
    compactions = unfold append_entry in v.compactions;
    compact_at = unfold append_entry in omega (arith, v.compact_at, h);
    rising = λ k. append_entry-Rising n m e v h k;
    keyed = λ k. append_entry-keyed n m e v k;
  }
