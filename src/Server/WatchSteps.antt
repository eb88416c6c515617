-- ===== src/Server/WatchSteps.antt =====
-- The steps of one watch stream of pkg/server/watch.go, in any order: requests of the client, rounds
-- of its watches, and the timers.
use kine.Prelude.{ℕ, ◌+◌, Bool, false, Option, []}
use kine.Types.{Error}
use kine.Server.Watch.{
  Stream, Watching, WatchCreateRequest, Input, create, watch_start, watch_round, cancel, close,
  progress, progress_all,
}

-- a stream that was just opened, after `next_id` watches of others
abbrev pub opened : ℕ → Stream
opened next_id = record {
  next_id = next_id;
  watches = [];
  progress = [];
  notify = false;
  max_revision = 0;
  sent = [];
}

pub data Step : Stream → Stream → Type 0 where
  creates :
      (current : ℕ × Option Error) (r : WatchCreateRequest) (w : Stream)
      → Step w (create current r w).1
  starts : (g : Watching) (w : Stream) → Step w (watch_start g w)
  reads : (input : Input) (g : Watching) (w : Stream) → Step w (watch_round input g w).1
  cancels :
      (id revision compact_rev : ℕ) (err : Option Error) (w : Stream)
      → Step w (cancel id revision compact_rev err w)
  closes : (w : Stream) → Step w (close w)
  asks : (w : Stream) → Step w (progress w)
  broadcasts :
      (current : ℕ × Option Error) (synced : ℕ → Bool) (w : Stream)
      → Step w (progress_all current synced w)
  -- other streams take ids from the counter
  others : (ids : ℕ) (w : Stream) → Step w (record w { next_id = w.next_id + ids })

pub data Reachable : Stream → Type 0 where
  start : (next_id : ℕ) → Reachable (opened next_id)
  next : {w w' : Stream} → Reachable w → Step w w' → Reachable w'
