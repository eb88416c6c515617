-- ===== src/Memory/Refinement.antt =====
-- The in-memory backend of pkg/drivers/memory/memory.go as a map from keys to their newest
-- KeyValues, with a revision: what Create, Update, Delete and Compact do to it.
use mathlib.Core.Path.{fun_ext}
use kine.Prelude.{
  ℕ, ◌+◌, ◌≤◌, ◌<◌, ◌≡◌, refl, ap, ◌∙◌, Bool, true, false, not, ◌&&◌, Option, none, some, List,
  ◌==◌, if◌then◌else◌, Bytes, inl, inr, arith, Bool-cases, Option-cases, get_last?, if_cases,
  str_eq, get_last?-append,
}
use kine.Types.{KeyValue, Error, key_exists}
use kine.Memory.Tree.{OrderedMap}
use kine.Memory.Entry.{Entry, live, to_key_value}
use kine.Memory.State.{Memory, history, append_entry, linked, latest}
use kine.Memory.Writes.{create, update, delete}
use kine.Memory.Compaction.{compact}
use kine.Memory.Invariant.{Inv, history-append_entry}
use kine.Memory.CompactedKeys.{compact_lem}
use kine.Memory.Listing.{shown_kv}
use kine.Memory.Reads.{read}
use kine.Memory.Snapshots.{shown-compact}

-- The abstract store: the revision, and the live KeyValue of each key.
pub record View : Type 0 where
  pub revision : ℕ
  pub at : Bytes → Option KeyValue

abbrev pub put : Bytes → Option KeyValue → View → View
put key kv v = record { revision = v.revision + 1; at = λ k. if str_eq key k then kv else v.at k }

-- A key that is there is not created again; else the revision rises by one and the key is there.
abbrev pub spec_create : Bytes → Bytes → ℕ → View → (ℕ × Option Error) × View
spec_create key value lease v = elim (v.at key) [
  | some kv ↦ ((v.revision, some key_exists), v)
  | none ↦ (
    (v.revision + 1, none),
    put key
        (some (record {
          key = key;
          value = value;
          version = 1;
          create_revision = v.revision + 1;
          mod_revision = v.revision + 1;
          lease = lease;
        }))
        v,
  )
]

abbrev pub next_kv : ℕ → Bytes → Bytes → ℕ → KeyValue → KeyValue
next_kv rev key value lease kv = record {
  key = key;
  value = value;
  version = kv.version + 1;
  create_revision = kv.create_revision;
  mod_revision = rev;
  lease = lease;
}

-- Compare and swap on the revision of the key.
abbrev pub spec_update :
    Bytes → Bytes → ℕ → ℕ → View → (ℕ × Option KeyValue × Bool × Option Error) × View
spec_update key value revision lease v = elim (v.at key) [
  | none ↦ ((v.revision, none, false, none), v)
  | some kv ↦
      if kv.mod_revision == revision
      then (let kv' = next_kv (v.revision + 1) key value lease kv in
          ((v.revision + 1, some kv', true, none), put key (some kv') v))
      else ((v.revision, some kv, false, none), v)
]

-- Revision 0 deletes whatever is there.
abbrev pub spec_delete : Bytes → ℕ → View → (ℕ × Option KeyValue × Bool × Option Error) × View
spec_delete key revision v = elim (v.at key) [
  | none ↦ ((v.revision, none, false, none), v)
  | some kv ↦
      if not (revision == 0) && not (kv.mod_revision == revision)
      then ((v.revision, some kv, false, none), v)
      else ((v.revision + 1, some kv, true, none), put key none v)
]

module _ (bt : OrderedMap (List Entry)) where
  abbrev pub view : Memory bt → View
  view m = record { revision = m.current_revision; at = λ k. shown_kv false (latest bt m k) }

  -- A result and a state of the code, and those of the specification.
  pub record Refines {R : Type 0} (actual : R × Memory bt) (spec : R × View) : Type 0 where
    pub result : actual.0 ≡ spec.0
    pub state : view actual.1 ≡ spec.1

  shown_kv-linked :
      (o : Option Entry) (e : Entry) → shown_kv false (some (linked o e)) ≡ shown_kv false (some e)
  unfolding to_key_value
  shown_kv-linked none e = refl
  shown_kv-linked (some x) e = ground arith

  at-append_entry :
      (m : Memory bt) (e : Entry) (k : Bytes)
      → (view (append_entry bt m e)).at k
        ≡ (if str_eq e.key k then shown_kv false (some e) else (view m).at k)
  unfolding latest
  at-append_entry m e k =
      ap (λ l. shown_kv false (get_last? l)) (history-append_entry bt m e k)
      ∙ if_cases
          (λ l.
            shown_kv false (get_last? l)
            ≡ (if str_eq e.key k then shown_kv false (some e) else (view m).at k))
          (str_eq e.key k) _ _
          (λ t. rw t (
            ap (shown_kv false)
              (get_last?-append (history bt m e.key) (linked (get_last? (history bt m e.key)) e))
            ∙ shown_kv-linked (get_last? (history bt m e.key)) e))
          (λ t. rw t refl)

  view-append_entry :
      (m : Memory bt) (e : Entry)
      → e.revision ≡ m.current_revision + 1
      → view (append_entry bt m e) ≡ put e.key (shown_kv false (some e)) (view m)
  view-append_entry m e h =
      let r : (append_entry bt m e).current_revision ≡ m.current_revision + 1 =
        unfold append_entry in h in
      λ i. record { revision = r i; at = fun_ext (at-append_entry m e) i }

  -- In every state `Create` returns what the abstract store (a revision, and one live KeyValue per
  -- key) returns, and leaves the state that the abstract store has: a live key is not created
  -- again, any other is stored with version 1 at the next revision.
  pub create-Refines :
      (key value : Bytes) (lease : ℕ) (m : Memory bt)
      → Refines (create bt key value lease m) (spec_create key value lease (view m))
  unfolding create to_key_value
  create-Refines key value lease m = elim (Option-cases (live (latest bt m key))) [
    | inl e ↦
        rw (e, create, spec_create) (record { result = refl; state = view-append_entry m _ refl })
    | inr (x, e) ↦ rw (e, create, spec_create) (record { result = refl; state = refl })
  ]

  -- In every state `Update` is the compare-and-swap of the abstract store: only a live key whose
  -- mod revision is the given one is written, its version rises by one and its create revision
  -- stays; on failure the result carries the live KeyValue and nothing changes.
  pub update-Refines :
      (key value : Bytes) (revision lease : ℕ) (m : Memory bt)
      → Refines
          (update bt key value revision lease m)
          (spec_update key value revision lease (view m))
  unfolding update to_key_value
  update-Refines key value revision lease m = elim (Option-cases (live (latest bt m key))) [
    | inl e ↦ rw (e, update, spec_update) (record { result = refl; state = refl })
    | inr (x, e) ↦ elim (Bool-cases (x.revision == revision)) [
      | inl hit ↦
          rw (e, update, spec_update, hit)
            (record { result = refl; state = view-append_entry m _ refl })
      | inr miss ↦ rw (e, update, spec_update, miss) (record { result = refl; state = refl })
    ]
  ]

  -- In every state `Delete` is the conditional delete of the abstract store: revision 0 deletes
  -- whatever is live, another revision only the KeyValue with that mod revision; a missing key is
  -- reported with ok false.
  pub delete-Refines :
      (key : Bytes) (revision : ℕ) (m : Memory bt)
      → Refines (delete bt key revision m) (spec_delete key revision (view m))
  unfolding delete to_key_value
  delete-Refines key revision m = elim (Option-cases (live (latest bt m key))) [
    | inl e ↦ rw (e, delete, spec_delete) (record { result = refl; state = refl })
    | inr (x, e) ↦ elim (Bool-cases (not (revision == 0) && not (x.revision == revision))) [
      | inl miss ↦ rw (e, delete, spec_delete, miss) (record { result = refl; state = refl })
      | inr hit ↦
          rw (e, delete, spec_delete, hit)
            (record { result = refl; state = view-append_entry m _ refl })
    ]
  ]

  -- In a state with the invariant, an accepted `Compact` changes nothing of the abstract store:
  -- the revision and every live KeyValue stay.
  pub view-compact :
      (n : ℕ) (m : Memory bt) (revision : ℕ)
      → Inv bt n m
      → revision ≤ m.current_revision
      → m.compact_revision < revision
      → view (compact bt revision m).1 ≡ view m
  unfolding read
  view-compact n m revision v le lt =
      let r : (compact bt revision m).1.current_revision ≡ m.current_revision =
        rw (compact_lem bt revision m le lt) refl in
      λ i. record {
        revision = r i;
        at =
            fun_ext
              (λ k. shown-compact bt n m revision 0 false k v le lt (λ z. absurd (omega arith))) i;
      }
