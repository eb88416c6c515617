-- ===== src/Ttl/Store.antt =====
-- pkg/ttl/ttl.go: the entries by key, and what is read of events and pages. Each access holds the lock, so
-- it is one step; times are nanoseconds. The map is an association list with one entry for a key.
use kine.Prelude.{
  ℕ, ◌+◌, ◌*◌, ◌≡◌, refl, Bool, true, false, ◌||◌, Option, none, some, List, [], ◌∷◌, Bytes, str_eq,
  ltb, leb, if◌then◌else◌, Bool-cases, inl, inr, str_eq→eq, str_eq_comm, subst, ◌∙◌,
}
use kine.Types.{KeyValue, Event}

pub record Entry : Type 0 where
  pub mod_revision : ℕ
  pub expired_at : ℕ

abbrev pub Store : Type 0
Store = List (Bytes × Entry)

abbrev pub load : Store → Bytes → Option Entry
load [] key = none
load ((k, e) ∷ rest) key = let found = load rest key in if str_eq k key then some e else found

abbrev pub put : Bytes → Entry → Store → Store
put key entry [] = (key, entry) ∷ []
put key entry ((k, e) ∷ rest) =
    let more = put key entry rest in if str_eq k key then (key, entry) ∷ rest else (k, e) ∷ more

-- `delete(store, key)`
abbrev pub remove : Bytes → Store → Store
remove key [] = []
remove key ((k, e) ∷ rest) =
    let more = remove key rest in if str_eq k key then more else (k, e) ∷ more

-- `time.Duration(kv.Lease) * time.Second`
abbrev pub ttl_of : KeyValue → ℕ
ttl_of kv = kv.lease * 1000000000

-- `save` at the time `now`; an entry that is there is changed in place
abbrev pub save : ℕ → KeyValue → Store → Store
save now kv store =
    put kv.key (record { mod_revision = kv.mod_revision; expired_at = now + ttl_of kv }) store

-- the KeyValue of an event that the loop of Run does not skip
unfoldable pub leased : Event → Option KeyValue
leased e = elim e.kv [
  | none ↦ none
  | some kv ↦ if e.delete || leb kv.lease 0 then none else some kv
]

-- `stored == nil || kv.ModRevision > stored.modRevision`
unfoldable pub is_newer : KeyValue → Option Entry → Bool
is_newer kv none = true
is_newer kv (some e) = ltb e.mod_revision kv.mod_revision

apart : (j k key : Bytes) → str_eq j k ≡ true → str_eq j key ≡ false → str_eq key k ≡ false
apart j k key hit other =
    subst (λ x. str_eq key x ≡ false) (str_eq→eq j k hit) (str_eq_comm key j ∙ other)

-- What is found after a store, and after a removal.
pub load-put :
    (key k : Bytes) (e : Entry) (store : Store)
    → load (put key e store) k ≡ (if str_eq key k then some e else load store k)
load-put key k e [] = refl
load-put key k e ((j, e') ∷ rest) = elim (Bool-cases (str_eq j key)) [
  | inl same ↦ rw same (elim (Bool-cases (str_eq key k)) [
    | inl hit ↦ rw hit refl
    | inr miss ↦ rw (miss, str_eq→eq j key same, miss) refl
  ])
  | inr other ↦ rw other (elim (Bool-cases (str_eq j k)) [
    | inl hit ↦ rw (hit, apart j k key hit other) refl
    | inr miss ↦ rw miss (load-put key k e rest)
  ])
]

pub load-remove :
    (key k : Bytes) (store : Store)
    → load (remove key store) k ≡ (if str_eq key k then none else load store k)
load-remove key k [] = elim (Bool-cases (str_eq key k)) [
  | inl hit ↦ rw hit refl
  | inr miss ↦ rw miss refl
]
load-remove key k ((j, e') ∷ rest) = elim (Bool-cases (str_eq j key)) [
  | inl same ↦ rw same (
      load-remove key k rest ∙ elim (Bool-cases (str_eq key k)) [
        | inl hit ↦ rw hit refl
        | inr miss ↦ rw (miss, str_eq→eq j key same, miss) refl
      ])
  | inr other ↦ rw other (elim (Bool-cases (str_eq j k)) [
    | inl hit ↦ rw (hit, apart j k key hit other) refl
    | inr miss ↦ rw miss (load-remove key k rest)
  ])
]
