-- ===== src/Memory/Examples.antt =====
-- The theorems about pkg/drivers/memory/memory.go at concrete inputs.
use kine.Prelude.{
  ℕ, ◌≤◌, ◌≡◌, refl, true, false, ◌&&◌, some, List, [], ◌∷◌, ltb, if◌then◌else◌, codes, arith,
  get_last?,
}
use kine.Types.{compacted}
use kine.Memory.Tree.{OrderedMap}
use kine.Memory.Entry.{
  Entry, to_event, created_entry, to_key_value, floor_loop, new_hist_at, new_hist, clear_first,
  clear_prev, clear_log,
}
use kine.Memory.State.{Memory, new, append_entry, latest, broadcast, linked, history}
use kine.Memory.Writes.{create, update, delete}
use kine.Memory.Reads.{list}
use kine.Memory.Compaction.{compact, scan_item, scan_loop, delete_keys}
use kine.Memory.Watching.{Watcher, watch_round, ready}
use kine.Memory.Invariant.{Inv}
use kine.Memory.SortedMap.{sorted_map, insert_item, remove_item}
use kine.Memory.Runs.{
  Call, creates, updates, deletes, compacts, run, compactions, run-new-Inv, step,
}
use kine.Memory.Listing.{answer, listing, list-eq-answer}
use kine.Memory.Lookup.{answer_kv, get-eq-answer_kv}
use kine.Memory.Listing.{shown}
use kine.Memory.Reads.{get}
use kine.Memory.Snapshots.{SameRead, list_stable, list-compact}
use kine.Memory.Refinement.{
  Refines, view, spec_create, spec_update, spec_delete, create-Refines, update-Refines,
  delete-Refines, view-compact,
}
use kine.Memory.Delivery.{
  Catchup, watch_round-Catchup, watch_round-replays, watch_round-append_entry, events_of,
}

abbrev pub bt : OrderedMap (List Entry)
bt = sorted_map (List Entry)

abbrev calls : List Call
calls =
    creates (codes "/b") (codes "1") 0
    ∷ creates (codes "/a") (codes "2") 5
    ∷ updates (codes "/b") (codes "3") 1 0
    ∷ deletes (codes "/a") 2
    ∷ compacts 2
    ∷ creates (codes "/a") (codes "4") 0
    ∷ []

abbrev pub m0 : Memory bt
m0 = run bt (new bt) calls

run-new-Inv_example : Inv bt (compactions bt (new bt) calls) (run bt (new bt) calls)
run-new-Inv_example = run-new-Inv bt calls

pub m0-current : m0.current_revision ≡ 5
unfolding run step create update delete compact new append_entry scan_loop delete_keys latest
    broadcast scan_item to_key_value floor_loop new_hist_at new_hist clear_first clear_prev
    clear_log insert_item remove_item
m0-current = refl

m0-compact : m0.compact_revision ≡ 2
unfolding run step create update delete compact new append_entry scan_loop delete_keys latest
    broadcast scan_item to_key_value floor_loop new_hist_at new_hist clear_first clear_prev
    clear_log insert_item remove_item
m0-compact = refl

pub m0-Inv : Inv bt 1 m0
unfolding compactions run step create update delete compact new append_entry scan_loop delete_keys
    latest broadcast scan_item to_key_value floor_loop new_hist_at new_hist clear_first clear_prev
    clear_log insert_item remove_item
m0-Inv = run-new-Inv bt calls

-- the same calls without the compaction
abbrev m1 : Memory bt
m1 =
    run bt (new bt) (creates (codes "/b") (codes "1") 0 ∷ updates (codes "/b") (codes "3") 1 0 ∷ [])

m1-Inv : Inv bt 0 m1
unfolding compactions run step create update delete compact new append_entry scan_loop delete_keys
    latest broadcast scan_item to_key_value floor_loop new_hist_at new_hist clear_first clear_prev
    clear_log insert_item remove_item
m1-Inv =
    run-new-Inv bt (creates (codes "/b") (codes "1") 0 ∷ updates (codes "/b") (codes "3") 1 0 ∷ [])

m1-current : m1.current_revision ≡ 2
unfolding run step create update delete compact new append_entry scan_loop delete_keys latest
    broadcast scan_item to_key_value floor_loop new_hist_at new_hist clear_first clear_prev
    clear_log insert_item remove_item
m1-current = refl

m1-compact : m1.compact_revision ≡ 0
unfolding run step create update delete compact new append_entry scan_loop delete_keys latest
    broadcast scan_item to_key_value floor_loop new_hist_at new_hist clear_first clear_prev
    clear_log insert_item remove_item
m1-compact = refl

m1-notify_ch : m1.notify_ch ≡ 2
unfolding run step create update delete compact new append_entry scan_loop delete_keys latest
    broadcast scan_item to_key_value floor_loop new_hist_at new_hist clear_first clear_prev
    clear_log insert_item remove_item
m1-notify_ch = refl

list-eq-answer_example :
    list bt (codes "/a") (codes "/c") 1 3 false m0
    ≡ answer 3 m0.current_revision m0.compact_revision
        (listing bt (codes "/a") (codes "/c") 1 3 false m0)
list-eq-answer_example = list-eq-answer bt (codes "/a") (codes "/c") 1 3 false m0

list_stable_example :
    SameRead bt 3 m0 (create bt (codes "/c") (codes "5") 0 m0).1
    × SameRead bt 3 m0 (update bt (codes "/c") (codes "5") 3 0 m0).1
    × SameRead bt 3 m0 (delete bt (codes "/c") 3 m0).1
list_stable_example =
    list_stable bt m0 3 (omega arith) (omega (arith, m0-current)) (omega (arith, m0-compact))
      (codes "/c") (codes "5") 3 0

list-compact_example : list bt (codes "/a") (codes "/c") 0 3 false (compact bt 4 m0).1 ≡ (
    if ltb 0 3 && ltb 3 4
    then (m0.current_revision, [], some compacted)
    else list bt (codes "/a") (codes "/c") 0 3 false m0)
list-compact_example =
    list-compact bt 1 m0 4 (codes "/a") (codes "/c") 0 3 false m0-Inv (omega (arith, m0-current))
      (omega (arith, m0-compact))

create-Refines_example :
    Refines bt
      (create bt (codes "/a") (codes "5") 0 m0)
      (spec_create (codes "/a") (codes "5") 0 (view bt m0))
create-Refines_example = create-Refines bt (codes "/a") (codes "5") 0 m0

update-Refines_example :
    Refines bt
      (update bt (codes "/b") (codes "5") 3 0 m0)
      (spec_update (codes "/b") (codes "5") 3 0 (view bt m0))
update-Refines_example = update-Refines bt (codes "/b") (codes "5") 3 0 m0

delete-Refines_example :
    Refines bt (delete bt (codes "/b") 0 m0) (spec_delete (codes "/b") 0 (view bt m0))
delete-Refines_example = delete-Refines bt (codes "/b") 0 m0

view-compact_example : view bt (compact bt 4 m0).1 ≡ view bt m0
view-compact_example =
    view-compact bt 1 m0 4 m0-Inv (omega (arith, m0-current)) (omega (arith, m0-compact))

abbrev all_keys : ℕ → ℕ → Watcher bt
all_keys last_seen notify_ch = record {
  key = [];
  end = [];
  last_seen = last_seen;
  notify_ch = notify_ch;
}

watch_round-Catchup_example : Catchup bt 1 (all_keys 4 0) m0
watch_round-Catchup_example =
    watch_round-Catchup bt 1 (all_keys 4 0) m0 m0-Inv (omega (arith, m0-compact))
      (omega (arith, m0-current))

watch_round-replays_example :
    (e : Entry) × (more : List Entry) × (e.revision ≤ 5)
    × ((watch_round bt (all_keys 5 0) m0).0 ≡ to_event e ∷ events_of [] [] more)
watch_round-replays_example =
    watch_round-replays bt 0 (all_keys 5 0) m0 m0-Inv (omega (arith, m0-compact))
      (omega (arith, m0-current)) refl

abbrev next_entry : Entry
next_entry = created_entry 3 (codes "/d") (codes "6") 0 0

watch_round-append_entry_example :
    ((watch_round bt (all_keys 2 2) (append_entry bt m1 next_entry)).0
      ≡ events_of [] [] (linked (get_last? (history bt m1 (codes "/d"))) next_entry ∷ []))
    × ((watch_round bt (all_keys 2 2) (append_entry bt m1 next_entry)).1.last_seen ≡ 3)
    × (ready bt (all_keys 2 2) (append_entry bt m1 next_entry) ≡ true)
watch_round-append_entry_example =
    watch_round-append_entry bt (all_keys 2 2) m1 next_entry m1-Inv (omega (arith, m1-current))
      (omega (arith, m1-notify_ch)) (omega (arith, m1-current))

get-eq-answer_kv_example :
    get bt (codes "/b") 4 false m0
    ≡ answer_kv 4 m0.current_revision m0.compact_revision (shown bt m0 4 false (codes "/b"))
get-eq-answer_kv_example = get-eq-answer_kv bt (codes "/b") 4 false m0
