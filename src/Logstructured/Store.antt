-- ===== src/Logstructured/Store.antt =====
-- pkg/logstructured/logstructured.go: the operations. A write reads the newest event of its key and
-- then appends; `between` is what other clients and processes do to the log between the two calls.
use kine.Prelude.{
  ℕ, Bool, true, false, not, ◌&&◌, Option, none, some, List, [], ◌∷◌, Bytes, leb, ◌==◌,
  if◌then◌else◌,
}
use kine.Types.{KeyValue, Event, Error, key_exists, empty_kv}
use kine.Logstructured.Log.{Log}

abbrev pub kv_of : Option Event → Option KeyValue
kv_of none = none
kv_of (some e) = e.kv

-- `event.KV.ModRevision`, of an event whose `KV` is not nil
abbrev pub mod_of : Event → ℕ
mod_of e = elim e.kv [ none ↦ 0 | some kv ↦ kv.mod_revision ]

abbrev pub create_of : Event → ℕ
create_of e = elim e.kv [ none ↦ 0 | some kv ↦ kv.create_revision ]

abbrev pub head_event : List Event → Option Event
head_event [] = none
head_event (e ∷ events) = some e

abbrev pub create_event : Bytes → Bytes → ℕ → ℕ → Event
create_event key value lease prev = record {
  delete = false;
  create = true;
  kv = some (record empty_kv { key = key; value = value; lease = lease });
  prev_kv = some (record empty_kv { mod_revision = prev });
}

abbrev pub update_event : Bytes → Bytes → ℕ → Event → Event
update_event key value lease e = record {
  delete = false;
  create = false;
  kv =
      some (record empty_kv {
        key = key;
        value = value;
        create_revision = create_of e;
        lease = lease;
      });
  prev_kv = some (record empty_kv { mod_revision = mod_of e });
}

abbrev pub delete_event : Bytes → Event → Event
delete_event key e = record {
  delete = true;
  create = false;
  kv = some (record empty_kv { key = key });
  prev_kv = some (record empty_kv { mod_revision = mod_of e });
}

-- `updateEvent.KV.ModRevision = rev`
abbrev pub stamped : ℕ → Option KeyValue → Option KeyValue
stamped rev none = none
stamped rev (some kv) = some (record kv { mod_revision = rev })

abbrev pub kvs_of : List Event → List (Option KeyValue)
kvs_of [] = []
kvs_of (e ∷ events) = e.kv ∷ kvs_of events

-- `filter`
unfoldable pub filter : List Event → ℕ → List Event
filter [] rev = []
filter (e ∷ events) rev =
    let rest = filter events rev in if leb (mod_of e) rev then rest else e ∷ events

module _ {S : Type 0} (log : Log S) where
  -- the first two results of `get`, and its error
  abbrev pub got : (ℕ × List Event × Option Error) × S → (ℕ × Option Event × Option Error) × S
  got ((rev, events, some e), s) = ((0, none, some e), s)
  got ((rev, events, none), s) = ((rev, head_event events, none), s)

  unfoldable pub get_event : Bytes → ℕ → Bool → Bool → S → (ℕ × Option Event × Option Error) × S
  get_event key revision include_deletes keys_only s =
      got (log.list key [] 1 revision include_deletes keys_only s)

  abbrev pub adjusted : ℕ → (ℕ × Option Error) × S → ℕ × S
  adjusted rev ((new_rev, none), s) = (new_rev, s)
  adjusted rev ((new_rev, some e), s) = (rev, s)

  unfoldable pub adjust_revision : ℕ × S → ℕ × S
  adjust_revision (rev, s) =
      if not (rev == 0) then (rev, s) else adjusted rev (log.current_revision s)

  -- the deferred calls of `adjustRevision`, on the first of the results
  abbrev pub adjust_get :
      (ℕ × Option KeyValue × Option Error) × S → (ℕ × Option KeyValue × Option Error) × S
  adjust_get ((rev, kv, err), s) =
      let (rev', s') = adjust_revision (rev, s) in ((rev', kv, err), s')

  abbrev pub adjust_create : (ℕ × Option Error) × S → (ℕ × Option Error) × S
  adjust_create ((rev, err), s) = let (rev', s') = adjust_revision (rev, s) in ((rev', err), s')

  abbrev pub adjust_write :
      (ℕ × Option KeyValue × Bool × Option Error) × S
      → (ℕ × Option KeyValue × Bool × Option Error) × S
  adjust_write ((rev, kv, done, err), s) =
      let (rev', s') = adjust_revision (rev, s) in ((rev', kv, done, err), s')

  unfoldable pub get : Bytes → ℕ → Bool → S → (ℕ × Option KeyValue × Option Error) × S
  get key revision keys_only s =
      let ((rev, event, err), s') = get_event key revision false keys_only s in
      adjust_get ((rev, kv_of event, err), s')

  module _ (between : S → S) where
    abbrev pub create_got :
        Bytes → Bytes → ℕ → (ℕ × Option Event × Option Error) × S → (ℕ × Option Error) × S
    create_got key value lease ((rev, event, some e), s) = ((0, some e), s)
    create_got key value lease ((rev, none, none), s) =
        log.append (create_event key value lease 0) (between s)
    create_got key value lease ((rev, some event, none), s) =
        if not event.delete
        then ((0, some key_exists), s)
        else log.append (create_event key value lease (mod_of event)) (between s)

    unfoldable pub create : Bytes → Bytes → ℕ → S → (ℕ × Option Error) × S
    create key value lease s =
        adjust_create (create_got key value lease (get_event key 0 true true s))

    -- `Delete` after a failed append, whose revision is `rev`: the result of the second `get`
    abbrev pub delete_failed :
        ℕ
        → Event
        → (ℕ × Option Event × Option Error) × S
        → (ℕ × Option KeyValue × Bool × Option Error) × S
    delete_failed rev event ((latest_rev, latest, some e), s) = ((rev, event.kv, false, none), s)
    delete_failed rev event ((latest_rev, none, none), s) = ((rev, event.kv, false, none), s)
    delete_failed rev event ((latest_rev, some latest, none), s) =
        ((latest_rev, latest.kv, false, none), s)

    abbrev pub delete_appended :
        Bytes → Event → (ℕ × Option Error) × S → (ℕ × Option KeyValue × Bool × Option Error) × S
    delete_appended key event ((rev, none), s) = ((rev, event.kv, true, none), s)
    delete_appended key event ((rev, some e), s) =
        delete_failed rev event (get_event key 0 true false s)

    abbrev pub delete_got :
        Bytes
        → ℕ
        → (ℕ × Option Event × Option Error) × S
        → (ℕ × Option KeyValue × Bool × Option Error) × S
    delete_got key revision ((rev, event, some e), s) = ((0, none, false, some e), s)
    delete_got key revision ((rev, none, none), s) = ((rev, none, true, none), s)
    delete_got key revision ((rev, some event, none), s) =
        if event.delete
        then ((rev, none, false, none), s)
        else if not (revision == 0) && not (mod_of event == revision)
        then ((rev, event.kv, false, none), s)
        else delete_appended key event (log.append (delete_event key event) (between s))

    unfoldable pub delete : Bytes → ℕ → S → (ℕ × Option KeyValue × Bool × Option Error) × S
    delete key revision s = adjust_write (delete_got key revision (get_event key 0 true false s))

    -- `Update` after a failed append
    abbrev pub update_failed :
        (ℕ × Option Event × Option Error) × S → (ℕ × Option KeyValue × Bool × Option Error) × S
    update_failed ((rev, event, err), s) = ((rev, kv_of event, false, err), s)

    abbrev pub update_appended :
        Bytes
        → Option KeyValue
        → (ℕ × Option Error) × S
        → (ℕ × Option KeyValue × Bool × Option Error) × S
    update_appended key kv ((rev, none), s) = ((rev, stamped rev kv, true, none), s)
    update_appended key kv ((rev, some e), s) = update_failed (get_event key 0 false false s)

    abbrev pub update_got :
        Bytes
        → Bytes
        → ℕ
        → ℕ
        → (ℕ × Option Event × Option Error) × S
        → (ℕ × Option KeyValue × Bool × Option Error) × S
    update_got key value revision lease ((rev, event, some e), s) = ((0, none, false, some e), s)
    update_got key value revision lease ((rev, none, none), s) = ((0, none, false, none), s)
    update_got key value revision lease ((rev, some event, none), s) =
        if not (mod_of event == revision)
        then ((rev, event.kv, false, none), s)
        else (let e = update_event key value lease event in
            update_appended key e.kv (log.append e (between s)))

    unfoldable pub update :
        Bytes → Bytes → ℕ → ℕ → S → (ℕ × Option KeyValue × Bool × Option Error) × S
    update key value revision lease s =
        adjust_write (update_got key value revision lease (get_event key 0 false false s))

  unfoldable pub list :
      Bytes → Bytes → ℕ → ℕ → Bool → S → (ℕ × List (Option KeyValue) × Option Error) × S
  list key end limit revision keys_only s =
      let ((rev, events, err), s') = log.list key end limit revision false keys_only s in
      ((rev, kvs_of events, err), s')

  unfoldable pub count : Bytes → Bytes → ℕ → S → (ℕ × ℕ × Option Error) × S
  count key end revision s = log.count key end revision s
