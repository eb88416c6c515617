-- ===== src/Ttl/Loops.antt =====
-- pkg/ttl/ttl.go: the loop of Run and the goroutine of `handle`, one access to the shared map, the queue
-- or the backend at a time. The queue is the one of k8s.io/client-go/util/workqueue.
use kine.Prelude.{ℕ, ◌+◌, ◌-◌, ◌≡◌, Bool, true, false, none, some, List, [], ◌∷◌, Bytes, ltb}
use kine.Types.{KeyValue, Event}
use kine.Ttl.Store.{Store, Entry, load, remove, save, leased, is_newer, ttl_of}

-- 250 ms
abbrev pub retry_interval : ℕ
retry_interval = 250000000

-- AddAfter, the state after Get has returned a key, and Done. `pending` tells whether Get will return the
-- key, now or later.
pub record Queue (Q : Type 0) : Type 0 where
  pub add_after : Bytes → ℕ → Q → Q
  pub taken : Bytes → Q → Q
  pub done : Bytes → Q → Q
  pub pending : Bytes → Q → Bool

-- `deleted` also follows a call that ended with context.Canceled.
-- Where `handle` stands: before Get, with a key, with its entry, past the test of the time, and past the
-- call of Delete. The entry is a pointer; only `handle` takes entries out of the map, so that what it
-- points to is what the map has.
pub data Handler : Type 0 where
  waiting : Handler
  got : (key : Bytes) → Handler
  found : (key : Bytes) → Handler
  expired : (key : Bytes) → Handler
  deleted : (key : Bytes) → Handler

-- Where the loop of Run or of `seed` stands: between two KeyValues, before `save`, before AddAfter.
pub data Looper : Type 0 where
  reading : Looper
  saving : (kv : KeyValue) → Looper
  adding : (key : Bytes) (after : ℕ) → Looper

-- `now` is the clock. `seen` are the leased KeyValues that the loops have met, and `calls` the calls of
-- Delete, each with its revision.
pub record State (Q : Type 0) : Type 0 where
  pub store : Store
  pub queue : Q
  pub handler : Handler
  pub looper : Looper
  pub now : ℕ
  pub seen : List (Bytes × ℕ)
  pub calls : List (Bytes × ℕ)

abbrev pub version : KeyValue → Bytes × ℕ
version kv = (kv.key, kv.mod_revision)

module _ {Q : Type 0} (q : Queue Q) where
  pub data HandlerStep (y : State Q) : State Q → Type 0 where
    get :
        (key : Bytes)
        → y.handler ≡ waiting
        → q.pending key y.queue ≡ true
        → HandlerStep y (record y { queue = q.taken key y.queue; handler = got key })
    load_missing :
        (key : Bytes)
        → y.handler ≡ got key
        → load y.store key ≡ none
        → HandlerStep y (record y { queue = q.done key y.queue; handler = waiting })
    load_found :
        (key : Bytes) (e : Entry)
        → y.handler ≡ got key
        → load y.store key ≡ some e
        → HandlerStep y (record y { handler = found key })
    not_expired :
        (key : Bytes) (e : Entry)
        → y.handler ≡ found key
        → load y.store key ≡ some e
        → ltb y.now e.expired_at ≡ true
        → HandlerStep y (record y {
          queue = q.done key (q.add_after key (e.expired_at - y.now) y.queue);
          handler = waiting;
        })
    has_expired :
        (key : Bytes) (e : Entry)
        → y.handler ≡ found key
        → load y.store key ≡ some e
        → ltb y.now e.expired_at ≡ false
        → HandlerStep y (record y { handler = expired key })
    delete_failed :
        (key : Bytes) (e : Entry)
        → y.handler ≡ expired key
        → load y.store key ≡ some e
        → HandlerStep y (record y {
          queue = q.done key (q.add_after key retry_interval y.queue);
          handler = waiting;
          calls = (key, e.mod_revision) ∷ y.calls;
        })
    delete_done :
        (key : Bytes) (e : Entry)
        → y.handler ≡ expired key
        → load y.store key ≡ some e
        → HandlerStep y
            (record y { handler = deleted key; calls = (key, e.mod_revision) ∷ y.calls })
    forget :
        (key : Bytes)
        → y.handler ≡ deleted key
        → HandlerStep y
            (record y { store = remove key y.store; queue = q.done key y.queue; handler = waiting })

  pub data LoopStep (y : State Q) : State Q → Type 0 where
    -- an event of the watch
    event :
        (e : Event) (kv : KeyValue)
        → y.looper ≡ reading
        → leased e ≡ some kv
        → is_newer kv (load y.store kv.key) ≡ true
        → LoopStep y (record y { looper = saving kv; seen = version kv ∷ y.seen })
    -- a KeyValue of a page of `seed`
    listed :
        (kv : KeyValue)
        → y.looper ≡ reading
        → ltb 0 kv.lease ≡ true
        → LoopStep y (record y { looper = saving kv; seen = version kv ∷ y.seen })
    saved :
        (kv : KeyValue)
        → y.looper ≡ saving kv
        → LoopStep y
            (record y { store = save y.now kv y.store; looper = adding kv.key (ttl_of kv) })
    added :
        (key : Bytes) (after : ℕ)
        → y.looper ≡ adding key after
        → LoopStep y (record y { queue = q.add_after key after y.queue; looper = reading })

  pub data Step (y z : State Q) : Type 0 where
    by_handler : HandlerStep y z → Step y z
    by_loop : LoopStep y z → Step y z
    later : (d : ℕ) → z ≡ record y { now = y.now + d } → Step y z

  abbrev pub initial : Q → ℕ → State Q
  initial queue now = record {
    store = [];
    queue = queue;
    handler = waiting;
    looper = reading;
    now = now;
    seen = [];
    calls = [];
  }

  pub data Reached (queue : Q) (now : ℕ) : State Q → Type 0 where
    here : Reached queue now (initial queue now)
    more : {y z : State Q} → Reached queue now y → Step y z → Reached queue now z
