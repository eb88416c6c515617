-- ===== src/Memory/Watching.antt =====
-- pkg/drivers/memory/memory.go: Watch, and its goroutine.
use kine.Prelude.{
  ℕ, ◌-◌, Bool, ◌&&◌, Option, none, some, List, [], Bytes, ltb, leb, ◌==◌, if◌then◌else◌, drop,
}
use kine.Types.{Event}
use kine.Memory.Tree.{OrderedMap}
use kine.Memory.Entry.{Entry, batch_loop}
use kine.Memory.State.{Memory, log_index_after}

module _ (bt : OrderedMap (List Entry)) where
  -- The goroutine of `Watch`: its range, the last revision that it has sent, and the channel that
  -- it waits on.
  pub record Watcher : Type 0 where
    pub key : Bytes
    pub end : Bytes
    pub last_seen : ℕ
    pub notify_ch : ℕ

  -- the results of `Watch`: the two revisions, and the goroutine unless the stream is closed
  pub record WatchResult : Type 0 where
    pub current_revision : ℕ
    pub compact_revision : ℕ
    pub watcher : Option Watcher

  unfoldable pub watch : Bytes → Bytes → ℕ → Memory bt → WatchResult
  watch key end start_revision m =
      if ltb 0 start_revision && leb start_revision m.compact_revision
      then record {
        current_revision = m.current_revision;
        compact_revision = m.compact_revision;
        watcher = none;
      }
      else record {
        current_revision = if start_revision == 0 then m.current_revision else start_revision;
        compact_revision = 0;
        watcher = some (record {
          key = key;
          end = end;
          last_seen = if start_revision == 0 then m.current_revision else start_revision - 1;
          notify_ch = m.notify_ch;
        });
      }

  -- One round of the goroutine: take the channel, scan the log, send the batch.
  unfoldable pub watch_round : Watcher → Memory bt → List Event × Watcher
  watch_round w m =
      let (batch, last_seen) =
        batch_loop w.key w.end (drop (log_index_after bt m w.last_seen) m.log) [] w.last_seen in
      (batch, record w { last_seen = last_seen; notify_ch = m.notify_ch })

  -- `case <-notifyCh`: the channel that the goroutine holds has been closed
  unfoldable pub ready : Watcher → Memory bt → Bool
  ready w m = ltb w.notify_ch m.notify_ch
