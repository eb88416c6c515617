-- ===== src/Broadcaster/Channels.antt =====
-- pkg/broadcaster/broadcaster.go: the subscribers' channels. What is done under the lock is one step;
-- the order in which the loops meet the subscribers does not matter, since they do not share anything.
use kine.Prelude.{
  ℕ, zero, suc, ◌+◌, ◌-◌, ◌≡◌, Bool, true, false, Option, none, some, List, [], ◌∷◌, ◌++◌, map, ltb,
  length, if◌then◌else◌,
}
use kine.Types.{Error}

abbrev pub channel_size : ℕ
channel_size = 100

-- A channel that Subscribe has made. `is_open` tells that it is in the map `subs`: `unsub` closes it and
-- deletes it from there at once. `slow` counts the goroutines that are to unsubscribe it because it was
-- full. `received` is what its reader has taken, and `streamed` what `stream` has met since it was made.
pub record Channel (E : Type 0) : Type 0 where
  pub is_open : Bool
  pub buffer : List E
  pub slow : ℕ
  pub received : List E
  pub streamed : List E

-- every channel that was made, in the order of the calls
pub record Broadcaster (E : Type 0) : Type 0 where
  pub running : Bool
  pub channels : List (Channel E)

module _ {E : Type 0} where
  abbrev pub new_channel : Channel E
  new_channel = record { is_open = true; buffer = []; slow = 0; received = []; streamed = [] }

  abbrev pub new_broadcaster : Broadcaster E
  new_broadcaster = record { running = false; channels = [] }

  -- the argument is the error of `connect`
  abbrev pub start : Option Error → Broadcaster E → Option Error × Broadcaster E
  start (some e) b = (some e, b)
  start none b = (none, record b { running = true })

  abbrev pub add_channel : Option Error × Broadcaster E → Option Error × Broadcaster E
  add_channel (some e, b) = (some e, b)
  add_channel (none, b) = (none, record b { channels = b.channels ++ new_channel ∷ [] })

  abbrev pub subscribe : Option Error → Broadcaster E → Option Error × Broadcaster E
  subscribe err b = if b.running then add_channel (none, b) else add_channel (start err b)

  abbrev pub unsub : Channel E → Channel E
  unsub c = if c.is_open then record c { is_open = false } else c

  -- the goroutine of a slow consumer
  abbrev pub slow_unsub : Channel E → Channel E
  slow_unsub c = unsub (record c { slow = c.slow - 1 })

  abbrev pub meet : E → Channel E → Channel E
  meet item c = record c { streamed = c.streamed ++ item ∷ [] }

  abbrev pub send_item : E → Channel E → Channel E
  send_item item c =
      if ltb (length c.buffer) channel_size
      then record (meet item c) { buffer = c.buffer ++ item ∷ [] }
      else record (meet item c) { slow = c.slow + 1 }

  abbrev pub send_open : E → Channel E → Channel E
  send_open item c = if c.is_open then send_item item c else c

  -- the body of the loop of `stream`, and what follows the loop
  abbrev pub stream_item : E → Broadcaster E → Broadcaster E
  stream_item item b = record b { channels = map (send_open item) b.channels }

  abbrev pub stream_end : Broadcaster E → Broadcaster E
  stream_end b = record { running = false; channels = map unsub b.channels }

  -- a reader takes the first item, if there is one
  abbrev pub receive_from : List E → Channel E → Channel E
  receive_from [] c = c
  receive_from (item ∷ rest) c = record c { buffer = rest; received = c.received ++ item ∷ [] }

  abbrev pub receive : Channel E → Channel E
  receive c = receive_from c.buffer c

  -- something is done to one channel
  abbrev pub at : (Channel E → Channel E) → ℕ → List (Channel E) → List (Channel E)
  at f i [] = []
  at f zero (c ∷ cs) = f c ∷ cs
  at f (suc i) (c ∷ cs) = c ∷ at f i cs

  -- The context of a subscriber may end at any time. There is a stream while `running` is set.
  pub data Step (b : Broadcaster E) : Broadcaster E → Type 0 where
    subscribed : (err : Option Error) → Step b (subscribe err b).1
    streamed_item : (item : E) → b.running ≡ true → Step b (stream_item item b)
    stream_ended : b.running ≡ true → Step b (stream_end b)
    canceled : (i : ℕ) → Step b (record b { channels = at unsub i b.channels })
    dropped : (i : ℕ) → Step b (record b { channels = at slow_unsub i b.channels })
    received_item : (i : ℕ) → Step b (record b { channels = at receive i b.channels })

  pub data Reached : Broadcaster E → Type 0 where
    here : Reached new_broadcaster
    more : {b b' : Broadcaster E} → Reached b → Step b b' → Reached b'
