-- ===== src/Server/WatchExamples.antt =====
-- The theorems about the watch streams of pkg/server/watch.go at a concrete stream.
use kine.Prelude.{ℕ, ◌+◌, ◌≤◌, none, some, [], ◌∷◌, codes, true, false, pos}
use kine.Types.{Event}
use kine.Server.Watch.{
  Stream, Watching, WatchCreateRequest, read_events, read_progress, create, watch_start,
  watch_round, cancel, contains,
}
use kine.Server.WatchSteps.{creates, starts, reads, cancels, Reachable, start, next, opened}
use kine.Server.WatchOrder.{Rises, reachable-Rises}
use kine.Server.WatchCancel.{canceled, bit, reachable-canceled}

abbrev request : WatchCreateRequest
request = record {
  key = codes "/a";
  range_end = codes "/b";
  start_revision = pos 4;
  progress_notify = true;
  watch_id = pos 0;
}

abbrev watching : Watching
watching = record { id = 8; key = codes "/a"; end = codes "/b"; start_revision = 4; max_rev = 0 }

abbrev event : ℕ → Event
event revision = record {
  delete = false;
  create = true;
  kv = some (record {
    key = codes "/a";
    value = codes "1";
    version = 1;
    create_revision = revision;
    mod_revision = revision;
    lease = 0;
  });
  prev_kv = none;
}

-- A watch is made, told, and canceled twice; a late round of it reports an older revision.
abbrev w1 : Stream
w1 = (create (6, none) request (opened 7)).1

abbrev w2 : Stream
w2 = watch_start watching w1

abbrev w3 : Stream
w3 = (watch_round (read_events (event 6 ∷ [])) watching w2).1

abbrev w4 : Stream
w4 = (watch_round (read_progress 5) watching w3).1

abbrev w5 : Stream
w5 = cancel 8 9 0 none (cancel 8 7 0 none w4)

w5-Reachable : Reachable w5
w5-Reachable =
    next
      (next
        (next
          (next (next (next (start 7) (creates (6, none) request (opened 7))) (starts watching w1))
            (reads (read_events (event 6 ∷ [])) watching w2))
          (reads (read_progress 5) watching w3))
        (cancels 8 7 0 none w4))
      (cancels 8 9 0 none (cancel 8 7 0 none w4))

reachable-Rises_example : Rises w5.sent
reachable-Rises_example = reachable-Rises w5 w5-Reachable

reachable-canceled_example : canceled 8 w5.sent + bit (contains 8 w5.watches) ≤ 1
reachable-canceled_example = reachable-canceled 8 w5 w5-Reachable
