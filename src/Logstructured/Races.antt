-- ===== src/Logstructured/Races.antt =====
-- The writes of pkg/logstructured/logstructured.go over a lawful log, whatever other clients do between
-- the read and the append.
use kine.Prelude.{
  ℕ, ◌≡◌, refl, ap, inl, inr, Bool, true, false, not, Option, none, some, Bytes, ◌==◌,
  if◌then◌else◌, arith, Bool-cases, Option-cases,
}
use kine.Types.{KeyValue, Event, Error}
use kine.Logstructured.Log.{Log}
use kine.Logstructured.Store.{
  update, get_event, got, adjust_revision, adjust_write, update_appended, update_failed,
  update_event,
}
use kine.Logstructured.Lawful.{Row, event_of, found, LawfulLog}

abbrev pub live_row : Option Row → Option Row
live_row none = none
live_row (some row) = if row.delete then none else some row

abbrev pub kv_of_row : Option Row → Option KeyValue
kv_of_row none = none
kv_of_row (some row) = some row.kv

module _ {S : Type 0} (log : Log S) (law : LawfulLog log) (between : S → S)
    (keeps : (s : S) → law.is_current s → law.is_current (between s)) where
  -- the KeyValue that an update writes at a revision
  abbrev pub updated : ℕ → Bytes → Bytes → ℕ → KeyValue → KeyValue
  updated rev key value lease kv = record {
    key = key;
    value = value;
    version = 0;
    create_revision = kv.create_revision;
    mod_revision = rev;
    lease = lease;
  }

  -- An update tests twice: the key must be live at the revision when it is read, and no event may follow
  -- it when the log is appended to. Else the answer is what is live, and nothing is written.
  abbrev pub spec_update :
      Bytes → Bytes → ℕ → ℕ → S → (ℕ × Option KeyValue × Bool × Option Error) × S
  spec_update key value revision lease s = elim (live_row (law.newest s key)) [
    | none ↦ ((law.revision s, none, false, none), s)
    | some row ↦
        let s' = between s in
        let event = update_event key value lease (event_of false row) in
        if not (row.kv.mod_revision == revision)
        then ((law.revision s, some row.kv, false, none), s)
        else if law.is_followed s' key row.kv.mod_revision
        then ((law.revision s', kv_of_row (live_row (law.newest s' key)), false, none), s')
        else (
          (law.next s', some (updated (law.next s') key value lease row.kv), true, none),
          (log.append event s').1,
        )
  ]

  pub adjust_revision-zero :
      (s : S) → law.is_current s → adjust_revision log (0, s) ≡ (law.revision s, s)
  unfolding adjust_revision
  adjust_revision-zero s c = rw (law.current_revision-revision s c) refl

  pub adjust_revision-same :
      (s : S) → law.is_current s → adjust_revision log (law.revision s, s) ≡ (law.revision s, s)
  unfolding adjust_revision
  adjust_revision-same s c = elim (Bool-cases (law.revision s == 0)) [
    | inl z ↦ rw (z, law.current_revision-revision s c) refl
    | inr nz ↦ rw nz refl
  ]

  pub get_event-newest :
      (s : S) (key : Bytes) (include_deletes keys_only : Bool)
      → law.is_current s
      → get_event log key 0 include_deletes keys_only s
        ≡ got log ((law.revision s, found include_deletes keys_only (law.newest s key), none), s)
  unfolding get_event
  get_event-newest s key include_deletes keys_only c =
      rw (law.list-newest s key include_deletes keys_only c) refl

  pub adjust_revision-next : (s s' : S) → adjust_revision log (law.next s, s') ≡ (law.next s, s')
  unfolding adjust_revision
  adjust_revision-next s s' =
      let nz : (law.next s == 0) ≡ false = ground (arith, law.next_above s) in rw nz refl

  pub appended :
      (s : S) (e : Event) (kv prev : KeyValue)
      → e.kv ≡ some kv
      → e.prev_kv ≡ some prev
      → law.is_followed s kv.key prev.mod_revision ≡ false
      → log.append e s ≡ ((law.next s, none), (log.append e s).1)
  appended s e kv prev k p fits =
      ap (λ r. (r, (log.append e s).1)) (law.append_next s e kv prev k p fits)

  -- The answer after an append that did not fit.
  update_failed-newest :
      (key : Bytes) (s : S) (o : Option Row)
      → law.is_current s
      → adjust_write log
          (update_failed log between (got log ((law.revision s, found false false o, none), s)))
        ≡ ((law.revision s, kv_of_row (live_row o), false, none), s)
  update_failed-newest key s none c = rw (adjust_revision-same s c) refl
  update_failed-newest key s (some row) c = elim (Bool-cases row.delete) [
    | inl gone ↦ rw (gone, adjust_revision-same s c) refl
    | inr there ↦ rw (there, adjust_revision-same s c) refl
  ]

  -- The second half of an update, at the state that the others have left.
  update_appended-cas :
      (key value : Bytes) (lease : ℕ) (row : Row) (s : S)
      → law.is_current s
      → let e = update_event key value lease (event_of false row) in
        adjust_write log (update_appended log between key e.kv (log.append e s)) ≡ (
          if law.is_followed s key row.kv.mod_revision
          then ((law.revision s, kv_of_row (live_row (law.newest s key)), false, none), s)
          else (
            (law.next s, some (updated (law.next s) key value lease row.kv), true, none),
            (log.append e s).1,
          ))
  update_appended-cas key value lease row s c =
      let e = update_event key value lease (event_of false row) in
      elim (Bool-cases (law.is_followed s key row.kv.mod_revision)) [
        | inr fits ↦
            rw (appended s e _ _ refl refl fits, fits, adjust_revision-next s (log.append e s).1)
              refl
        | inl lost ↦
            rw
              (
                law.append_followed s e _ _ refl refl lost,
                lost,
                get_event-newest s key false false c,
              )
              (update_failed-newest key s (law.newest s key) c)
      ]

  -- Over a lawful log that knows its newest revision, whatever other clients do to the log between
  -- the read and the append of an `Update`, if it then knows its newest revision again, it writes
  -- exactly if the key was live at the given revision when it was read and no event of the key
  -- follows that revision when the log is appended to; it then returns the new revision with a
  -- KeyValue that keeps the create revision, and otherwise what is live, and the log stays as the
  -- others left it.
  pub update-eq-spec_update :
      (key value : Bytes) (revision lease : ℕ) (s : S)
      → law.is_current s
      → update log between key value revision lease s ≡ spec_update key value revision lease s
  unfolding update
  update-eq-spec_update key value revision lease s c = elim (Option-cases (law.newest s key)) [
    | inl e ↦
        rw (get_event-newest s key false false c, spec_update, e, adjust_revision-zero s c) refl
    | inr (row, e) ↦ elim (Bool-cases row.delete) [
      | inl gone ↦
          rw (get_event-newest s key false false c, spec_update, e, gone, adjust_revision-zero s c)
            refl
      | inr there ↦ elim (Bool-cases (row.kv.mod_revision == revision)) [
        | inr stale ↦
            rw
              (
                get_event-newest s key false false c,
                spec_update,
                e,
                there,
                stale,
                adjust_revision-same s c,
              )
              refl
        | inl hit ↦
            rw (get_event-newest s key false false c, spec_update, e, there, hit)
              (update_appended-cas key value lease row (between s) (keeps s c))
      ]
    ]
  ]
