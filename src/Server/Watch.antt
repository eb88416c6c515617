-- ===== src/Server/Watch.antt =====
-- pkg/server/watch.go: one watch stream, its watches and the responses that are sent on it. Each
-- method that holds the lock of the watcher or of the server is one step.
use kine.Prelude.{
  ℕ, ◌+◌, Bool, true, false, not, ◌&&◌, Option, none, some, List, [], ◌∷◌, ◌++◌, Bytes, ltb, leb,
  ◌==◌, if◌then◌else◌, str_eq, ℤ, pos, negsuc, int_eq, map, select, get_last?,
}
use kine.Types.{Event, Error, invalid_watch, compacted}
use kine.Server.Version.{compact_rev_key, compact_rev_api}
use kine.Server.Request.{MvccKeyValue}
use kine.Server.Convert.{to_kv_or_nil}

-- mvccpb.Event; `deleted` is the type DELETE
pub record MvccEvent : Type 0 where
  pub deleted : Bool
  pub kv : Option MvccKeyValue
  pub prev_kv : Option MvccKeyValue

pub record WatchResponse : Type 0 where
  pub header : ℕ
  pub watch_id : ℤ
  pub created : Bool
  pub canceled : Bool
  pub compact_revision : ℕ
  pub cancel_reason : Option Error
  pub events : List MvccEvent

-- `&etcdserverpb.WatchResponse{Header: txnHeader(revision), WatchId: id}`
abbrev pub response : ℕ → ℤ → WatchResponse
response revision id = record {
  header = revision;
  watch_id = id;
  created = false;
  canceled = false;
  compact_revision = 0;
  cancel_reason = none;
  events = [];
}

unfoldable pub to_event : Event → MvccEvent
to_event e = record {
  deleted = e.delete;
  kv = to_kv_or_nil e.kv;
  prev_kv = if e.create then none else to_kv_or_nil e.prev_kv;
}

unfoldable pub to_events : List Event → List MvccEvent
to_events events = map to_event events

-- The state of the stream. `watches` and `progress` are the keys of the two maps, `sent` what the
-- client has been sent, `next_id` the counter `watchID`, which all streams share.
pub record Stream : Type 0 where
  pub next_id : ℕ
  pub watches : List ℕ
  pub progress : List ℕ
  pub notify : Bool
  pub max_revision : ℕ
  pub sent : List WatchResponse

-- server.Send
unfoldable pub send : WatchResponse → Stream → Stream
send wr w =
    if ltb 0 wr.header
    then (if ltb w.max_revision wr.header
        then record w { max_revision = wr.header; sent = w.sent ++ wr ∷ [] }
        else record w { sent = w.sent ++ record wr { header = w.max_revision } ∷ [] })
    else record w { sent = w.sent ++ wr ∷ [] }

abbrev pub contains : ℕ → List ℕ → Bool
contains id [] = false
contains id (i ∷ ids) = let rest = contains id ids in if i == id then true else rest

abbrev pub remove : ℕ → List ℕ → List ℕ
remove id ids = select (λ i. not (i == id)) ids

-- `removeWatch`: whether the watch was there, and the stream without it
unfoldable pub remove_watch : ℕ → Stream → Bool × Stream
remove_watch id w = (
  contains id w.watches,
  record w { progress = remove id w.progress; watches = remove id w.watches },
)

abbrev pub cancel_response : ℕ → ℕ → ℕ → Option Error → WatchResponse
cancel_response id revision compact_rev err = record {
  header = revision;
  watch_id = pos id;
  created = false;
  canceled = true;
  compact_revision = compact_rev;
  cancel_reason = err;
  events = [];
}

unfoldable pub cancel : ℕ → ℕ → ℕ → Option Error → Stream → Stream
cancel id revision compact_rev err w =
    let (was, w') = remove_watch id w in
    if not was then w' else send (cancel_response id revision compact_rev err) w'

-- `CancelEarly`, given the result of `CurrentRevision`; clientv3.InvalidWatchID is -1
unfoldable pub cancel_early : ℕ × Option Error → Error → Stream → Stream
cancel_early (rev, some _) early w = w
cancel_early (rev, none) early w =
    send
      (record {
        header = rev;
        watch_id = negsuc 0;
        created = true;
        canceled = true;
        compact_revision = 0;
        cancel_reason = some early;
        events = [];
      })
      w

pub record WatchCreateRequest : Type 0 where
  pub key : Bytes
  pub range_end : Bytes
  pub start_revision : ℤ
  pub progress_notify : Bool
  pub watch_id : ℤ

-- The goroutine that `Create` starts.
pub record Watching : Type 0 where
  pub id : ℕ
  pub key : Bytes
  pub end : Bytes
  pub start_revision : ℕ
  pub max_rev : ℕ

-- a start revision that is not negative
abbrev pub create_at : ℤ → ℕ × Option Error → WatchCreateRequest → Stream → Option Watching × Stream
create_at (negsuc _) current r w = (none, cancel_early current compacted w)
create_at (pos start) current r w =
    let id = w.next_id + 1 in
    (
      some (record {
        id = id;
        key = if str_eq r.key compact_rev_key then compact_rev_api else r.key;
        end = r.range_end;
        start_revision = start;
        max_rev = 0;
      }),
      record w {
        next_id = id;
        watches = id ∷ w.watches;
        progress = if r.progress_notify then id ∷ w.progress else w.progress;
      },
    )

-- `Create`, given the result of `CurrentRevision`; clientv3.AutoWatchID is 0
unfoldable pub create : ℕ × Option Error → WatchCreateRequest → Stream → Option Watching × Stream
unfolding cancel_early
create current r w =
    if not (int_eq r.watch_id (pos 0))
    then (none, cancel_early current invalid_watch w)
    else create_at r.start_revision current r w

-- the first response of the goroutine
unfoldable pub watch_start : Watching → Stream → Stream
watch_start g w = send (record (response 0 (pos g.id)) { created = true }) w

-- What the goroutine reads: events, those that were queued included, or a number on the progress
-- channel.
pub data Input : Type 0 where
  read_events : List Event → Input
  read_progress : ℕ → Input

abbrev pub input_events : Input → List Event
input_events (read_events events) = events
input_events (read_progress rev) = []

-- the mod revision of the last event, 0 for none
abbrev pub last_revision : Option Event → ℕ
last_revision none = 0
last_revision (some e) = elim e.kv [ none ↦ 0 | some kv ↦ kv.mod_revision ]

abbrev pub input_revision : ℕ → Input → ℕ
input_revision max_rev (read_events events) = last_revision (get_last? events)
input_revision max_rev (read_progress rev) = if leb max_rev rev then rev else 0

abbrev pub is_empty {ℓ} : {A : Type ℓ} → List A → Bool
is_empty [] = true
is_empty (x ∷ xs) = false

-- Whether a round sends: an answer to a progress request of revision 0, or events before the start
-- revision, are not sent.
abbrev pub is_sent : Input → Watching → Bool
is_sent input g =
    not (input_revision g.max_rev input == 0)
    && (if is_empty (input_events input)
        then true
        else leb g.start_revision (input_revision g.max_rev input))

-- one round of the loop
unfoldable pub watch_round : Input → Watching → Stream → Watching × Stream
watch_round input g w =
    let revision = input_revision g.max_rev input in
    let events = input_events input in
    if is_sent input g
    then (
      record g { max_rev = revision },
      send (record (response revision (pos g.id)) { events = to_events events }) w,
    )
    else (g, w)

unfoldable pub close : Stream → Stream
close w = record w { progress = []; watches = [] }

unfoldable pub progress : Stream → Stream
progress w = record w { notify = true }

-- Whether every watch that asked for progress is at its select, so that it takes what is put on its
-- channel; `synced` says which are.
abbrev pub all_synced : (ℕ → Bool) → List ℕ → Bool
all_synced synced [] = true
all_synced synced (id ∷ ids) = let rest = all_synced synced ids in if synced id then rest else false

unfoldable pub progress_all : ℕ × Option Error → (ℕ → Bool) → Stream → Stream
progress_all (rev, err) synced w = if not w.notify then w else elim err [
  | some e ↦ w
  | none ↦
      let w' : Stream = record w { notify = false } in
      if all_synced synced w'.progress then send (response rev (negsuc 0)) w' else w'
]
