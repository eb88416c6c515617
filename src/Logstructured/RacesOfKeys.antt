-- ===== src/Logstructured/RacesOfKeys.antt =====
-- Create and Delete of pkg/logstructured/logstructured.go over a lawful log, whatever other clients do
-- between the read and the append.
use kine.Prelude.{
  ℕ, ◌≡◌, refl, inl, inr, Bool, true, false, not, ◌&&◌, Option, none, some, Bytes, ◌==◌,
  if◌then◌else◌, Bool-cases, Option-cases,
}
use kine.Types.{KeyValue, Error, key_exists}
use kine.Logstructured.Log.{Log}
use kine.Logstructured.Store.{
  create, delete, got, adjust_write, adjust_create, delete_appended, delete_failed, create_event,
  delete_event,
}
use kine.Logstructured.Lawful.{Row, event_of, found, LawfulLog}
use kine.Logstructured.Races.{
  adjust_revision-zero, adjust_revision-same, adjust_revision-next, get_event-newest, appended,
}

-- the newest KeyValue, or the one that was read before
abbrev pub kv_after : KeyValue → Option Row → KeyValue
kv_after kv none = kv
kv_after kv (some row) = row.kv

module _ {S : Type 0} (log : Log S) (law : LawfulLog log) (between : S → S)
    (keeps : (s : S) → law.is_current s → law.is_current (between s)) where
  -- An append of a new key after the event at `prev`, at the state that the others have left.
  abbrev pub append_after : ℕ → Bytes → Bytes → ℕ → S → (ℕ × Option Error) × S
  append_after prev key value lease s =
      if law.is_followed s key prev
      then ((law.revision s, some law.unique), s)
      else ((law.next s, none), (log.append (create_event key value lease prev) s).1)

  -- A create needs a key that is not live, and no event after its newest one when the log is appended to.
  abbrev pub spec_create_at : Option Row → Bytes → Bytes → ℕ → S → (ℕ × Option Error) × S
  spec_create_at none key value lease s = append_after 0 key value lease (between s)
  spec_create_at (some row) key value lease s =
      if row.delete
      then append_after row.kv.mod_revision key value lease (between s)
      else ((law.revision s, some key_exists), s)

  abbrev pub spec_create : Bytes → Bytes → ℕ → S → (ℕ × Option Error) × S
  spec_create key value lease s = spec_create_at (law.newest s key) key value lease s

  create_appended-cas :
      (key value : Bytes) (lease prev : ℕ) (s : S)
      → law.is_current s
      → let e = create_event key value lease prev in
        adjust_create log (log.append e s) ≡ append_after prev key value lease s
  create_appended-cas key value lease prev s c =
      let e = create_event key value lease prev in
      elim (Bool-cases (law.is_followed s key prev)) [
        | inr fits ↦
            rw
              (
                appended log law between keeps s e _ _ refl refl fits,
                fits,
                adjust_revision-next log law between keeps s (log.append e s).1,
              )
              refl
        | inl lost ↦
            rw
              (
                law.append_followed s e _ _ refl refl lost,
                lost,
                adjust_revision-zero log law between keeps s c,
              )
              refl
      ]

  -- Over a lawful log that knows its newest revision, whatever other clients do between the read
  -- and the append of a `Create`, if it then knows its newest revision again, it fails with the
  -- key-exists error if the key was live when it was read, writes if no event of the key follows
  -- the newest one that was read (or follows none, if there was none) when the log is appended to,
  -- and otherwise returns the error of the log and writes nothing.
  pub create-eq-spec_create :
      (key value : Bytes) (lease : ℕ) (s : S)
      → law.is_current s
      → create log between key value lease s ≡ spec_create key value lease s
  unfolding create
  create-eq-spec_create key value lease s c = elim (Option-cases (law.newest s key)) [
    | inl e ↦
        rw (get_event-newest log law between keeps s key true true c, spec_create, e)
          (create_appended-cas key value lease 0 (between s) (keeps s c))
    | inr (row, e) ↦ elim (Bool-cases row.delete) [
      | inl gone ↦
          rw (get_event-newest log law between keeps s key true true c, spec_create, e, gone)
            (create_appended-cas key value lease row.kv.mod_revision (between s) (keeps s c))
      | inr there ↦
          rw
            (
              get_event-newest log law between keeps s key true true c,
              spec_create,
              e,
              there,
              adjust_revision-zero log law between keeps s c,
            )
            refl
    ]
  ]

  -- A delete of a key that never was is reported as done. Else the key must be live, at the revision
  -- unless that is 0, and no event may follow it when the log is appended to.
  abbrev pub spec_delete : Bytes → ℕ → S → (ℕ × Option KeyValue × Bool × Option Error) × S
  spec_delete key revision s = elim (law.newest s key) [
    | none ↦ ((law.revision s, none, true, none), s)
    | some row ↦
        let s' = between s in
        if row.delete
        then ((law.revision s, none, false, none), s)
        else if not (revision == 0) && not (row.kv.mod_revision == revision)
        then ((law.revision s, some row.kv, false, none), s)
        else if law.is_followed s' key row.kv.mod_revision
        then ((law.revision s', some (kv_after row.kv (law.newest s' key)), false, none), s')
        else (
          (law.next s', some row.kv, true, none),
          (log.append (delete_event key (event_of false row)) s').1,
        )
  ]

  delete_failed-newest :
      (row : Row) (s : S) (o : Option Row)
      → law.is_current s
      → adjust_write log (
          delete_failed log between 0
            (event_of false row)
            (got log ((law.revision s, found true false o, none), s)))
        ≡ ((law.revision s, some (kv_after row.kv o), false, none), s)
  delete_failed-newest row s none c = rw (adjust_revision-zero log law between keeps s c) refl
  delete_failed-newest row s (some r) c = elim (Bool-cases r.delete) [
    | inl gone ↦ rw (gone, adjust_revision-same log law between keeps s c) refl
    | inr there ↦ rw (there, adjust_revision-same log law between keeps s c) refl
  ]

  delete_appended-cas :
      (key : Bytes) (row : Row) (s : S)
      → law.is_current s
      → let e = delete_event key (event_of false row) in
        adjust_write log (delete_appended log between key (event_of false row) (log.append e s)) ≡ (
          if law.is_followed s key row.kv.mod_revision
          then ((law.revision s, some (kv_after row.kv (law.newest s key)), false, none), s)
          else ((law.next s, some row.kv, true, none), (log.append e s).1))
  delete_appended-cas key row s c =
      let e = delete_event key (event_of false row) in
      elim (Bool-cases (law.is_followed s key row.kv.mod_revision)) [
        | inr fits ↦
            rw
              (
                appended log law between keeps s e _ _ refl refl fits,
                fits,
                adjust_revision-next log law between keeps s (log.append e s).1,
              )
              refl
        | inl lost ↦
            rw
              (
                law.append_followed s e _ _ refl refl lost,
                lost,
                get_event-newest log law between keeps s key true false c,
              )
              (delete_failed-newest row s (law.newest s key) c)
      ]

  -- Over a lawful log that knows its newest revision, whatever other clients do between the read
  -- and the append of a `Delete`, if it then knows its newest revision again, a key without any
  -- event is reported as deleted, one that is not live or not at the given positive revision is
  -- not deleted, and otherwise the delete is written exactly if no event of the key follows the
  -- one that was read when the log is appended to; if one does, the newest KeyValue is returned
  -- with no error, and the log stays as the others left it.
  pub delete-eq-spec_delete :
      (key : Bytes) (revision : ℕ) (s : S)
      → law.is_current s
      → delete log between key revision s ≡ spec_delete key revision s
  unfolding delete
  delete-eq-spec_delete key revision s c = elim (Option-cases (law.newest s key)) [
    | inl e ↦
        rw
          (
            get_event-newest log law between keeps s key true false c,
            spec_delete,
            e,
            adjust_revision-same log law between keeps s c,
          )
          refl
    | inr (row, e) ↦ elim (Bool-cases row.delete) [
      | inl gone ↦
          rw
            (
              get_event-newest log law between keeps s key true false c,
              spec_delete,
              e,
              gone,
              adjust_revision-same log law between keeps s c,
            )
            refl
      | inr there ↦
          elim (Bool-cases (not (revision == 0) && not (row.kv.mod_revision == revision))) [
            | inl miss ↦
                rw
                  (
                    get_event-newest log law between keeps s key true false c,
                    spec_delete,
                    e,
                    there,
                    miss,
                    adjust_revision-same log law between keeps s c,
                  )
                  refl
            | inr hit ↦
                rw
                  (
                    get_event-newest log law between keeps s key true false c,
                    spec_delete,
                    e,
                    there,
                    hit,
                  )
                  (delete_appended-cas key row (between s) (keeps s c))
          ]
    ]
  ]
