-- ===== src/Memory/Delivery.antt =====
-- The watcher of pkg/drivers/memory/memory.go: which part of the log a round reads, and what it
-- sends.
use kine.Prelude.{
  ℕ, suc, ◌+◌, ◌-◌, ◌≤◌, ◌≡◌, refl, ap, ◌∙◌, subst, true, List, [], ◌∷◌, ◌++◌, Bytes, inl, inr,
  arith, Bool-cases, map, select, append_assoc, append-nil, drop, length, get_last?, lt→ltb,
  drop-append,
}
use kine.Types.{Event}
use kine.Memory.Tree.{OrderedMap}
use kine.Memory.Entry.{Entry, to_event, watched, batch_loop}
use kine.Memory.State.{Memory, append_entry, linked, log_index_after, history}
use kine.Memory.Watching.{Watcher, watch_round, ready}
use kine.Memory.Invariant.{Inv, Dense, Dense-length, Dense-drop, append_entry-Inv}

-- The events of a log in a range, in the order of the log.
abbrev pub events_of : Bytes → Bytes → List Entry → List Event
events_of key end log = map to_event (select (watched key end) log)

abbrev last_of : ℕ → List Entry → ℕ
last_of last_seen [] = last_seen
last_of last_seen (e ∷ log) = last_of e.revision log

batch_loop-eq :
    (key end : Bytes) (log : List Entry) (batch : List Event) (last_seen : ℕ)
    → batch_loop key end log batch last_seen
      ≡ (batch ++ events_of key end log, last_of last_seen log)
unfolding batch_loop
batch_loop-eq key end [] batch last_seen = rw (append-nil batch) refl
batch_loop-eq key end (e ∷ log) batch last_seen = elim (Bool-cases (watched key end e)) [
  | inl hit ↦ rw hit (
      batch_loop-eq key end log (batch ++ to_event e ∷ []) e.revision
      ∙ rw (append_assoc batch (to_event e ∷ []) (events_of key end log)) refl)
  | inr miss ↦ rw miss (batch_loop-eq key end log batch e.revision)
]

last_of-Dense :
    (first last last_seen : ℕ) (log : List Entry)
    → Dense first log last
    → (log ≡ [] → last_seen ≡ last)
    → last_of last_seen log ≡ last
last_of-Dense first last last_seen [] d h = h refl
last_of-Dense first last last_seen (e ∷ log) d h =
    last_of-Dense (first + 1) last e.revision log d.1
      (λ z. omega (arith, d.0, subst (λ l. Dense (first + 1) l last) z d.1))

module _ (bt : OrderedMap (List Entry)) where
  -- The part of the log that a round reads.
  abbrev pub pending : Watcher bt → Memory bt → List Entry
  pending w m = drop (log_index_after bt m w.last_seen) m.log

  log_index_after_lem :
      (n : ℕ) (m : Memory bt) (v : Inv bt n m) (rev : ℕ)
      → rev ≤ m.current_revision
      → log_index_after bt m rev ≡ rev - m.compact_revision
  unfolding log_index_after
  log_index_after_lem n m v rev le =
      ground (arith, Dense-length v.oldest m.current_revision m.log v.log, v.oldest_at)

  -- What a round does after `n` compactions. It reads the log from the revision that lies `n`
  -- below the first one that the watcher has not seen, sends the events of that part, and has then
  -- seen the current revision.
  pub record Catchup (n : ℕ) (w : Watcher bt) (m : Memory bt) : Type 0 where
    pub reads : Dense (w.last_seen + 1 - n) (pending w m) m.current_revision
    pub sends : (watch_round bt w m).0 ≡ events_of w.key w.end (pending w m)
    pub sees : (watch_round bt w m).1.last_seen ≡ m.current_revision

  -- In a state with the invariant after n accepted compactions, a round of a watcher that has seen
  -- at least the compact and at most the current revision reads the log from the revision n below
  -- the first that it has not seen, sends the events of that part that match its range, and has
  -- then seen the current revision.
  pub watch_round-Catchup :
      (n : ℕ) (w : Watcher bt) (m : Memory bt)
      → Inv bt n m
      → m.compact_revision ≤ w.last_seen
      → w.last_seen ≤ m.current_revision
      → Catchup n w m
  watch_round-Catchup n w m v from to = record {
    reads = reads;
    sends =
        unfold watch_round in
        ap (λ p. p.0) (batch_loop-eq w.key w.end (pending w m) [] w.last_seen);
    sees =
        unfold watch_round in
        ap (λ p. p.1) (batch_loop-eq w.key w.end (pending w m) [] w.last_seen)
        ∙ last_of-Dense (w.last_seen + 1 - n) m.current_revision w.last_seen (pending w m) reads
            (λ z.
              let none_left =
                subst (λ l. Dense (w.last_seen + 1 - n) l m.current_revision) z reads in
              omega arith);
  }
    where
      reads : Dense (w.last_seen + 1 - n) (pending w m) m.current_revision
      reads = rw (log_index_after_lem n m v w.last_seen to) (
          subst (λ k. Dense k (drop (w.last_seen - m.compact_revision) m.log) m.current_revision)
            (omega (arith, v.oldest_at))
            (Dense-drop (w.last_seen - m.compact_revision) v.oldest m.current_revision m.log v.log
              (omega (arith, v.oldest_at, Dense-length v.oldest m.current_revision m.log v.log))))

  -- In a state with the invariant and no accepted compaction, a watcher that has seen the current
  -- revision and whose channel is not newer than the state's is woken by the append of an entry
  -- with the next revision, is sent the event of that entry if its range has the key and nothing
  -- else, and has then seen its revision.
  pub watch_round-append_entry :
      (w : Watcher bt) (m : Memory bt) (e : Entry)
      → Inv bt 0 m
      → w.last_seen ≡ m.current_revision
      → w.notify_ch ≤ m.notify_ch
      → e.revision ≡ m.current_revision + 1
      → ((watch_round bt w (append_entry bt m e)).0
          ≡ events_of w.key w.end (linked (get_last? (history bt m e.key)) e ∷ []))
        × ((watch_round bt w (append_entry bt m e)).1.last_seen ≡ e.revision)
        × (ready bt w (append_entry bt m e) ≡ true)
  watch_round-append_entry w m e v seen ch h =
      let last = linked (get_last? (history bt m e.key)) e in
      let m' = append_entry bt m e in
      let current : m'.current_revision ≡ e.revision = unfold append_entry in refl in
      let compact : m'.compact_revision ≡ m.compact_revision = unfold append_entry in refl in
      let round =
        watch_round-Catchup 0 w m' (append_entry-Inv bt 0 m e v h)
          (omega (arith, v.compact_at, compact)) (omega (arith, current)) in
      let at : log_index_after bt m' w.last_seen ≡ length m.log =
        log_index_after_lem 0 m' (append_entry-Inv bt 0 m e v h) w.last_seen
          (omega (arith, current))
        ∙ omega (
          arith,
          compact,
          v.oldest_at,
          v.compact_at,
          Dense-length v.oldest m.current_revision m.log v.log,
        ) in
      let log : m'.log ≡ m.log ++ last ∷ [] = unfold append_entry in refl in
      let rest : pending w m' ≡ last ∷ [] = rw (at, log) (drop-append m.log (last ∷ [])) in
      (
        round.sends ∙ ap (events_of w.key w.end) rest,
        round.sees ∙ current,
        unfold ready append_entry in lt→ltb w.notify_ch (m.notify_ch + 1) (omega arith),
      )

  replayed :
      (n : ℕ) (end : Bytes) (last_seen current : ℕ) (log : List Entry)
      → last_seen ≤ current
      → suc n ≤ last_seen
      → Dense (last_seen + 1 - suc n) log current
      → (e : Entry) × (more : List Entry) × (e.revision ≤ last_seen)
        × (events_of [] end log ≡ to_event e ∷ events_of [] end more)
  replayed n end last_seen current [] to pos d = absurd (omega arith)
  replayed n end last_seen current (e ∷ log) to pos d = (e, log, omega (arith, d.0), refl)

  -- In a state with the invariant after at least one accepted compaction, each round of a watcher
  -- of every key that has seen at least the compact and at most the current revision starts with
  -- the event of a log entry whose revision it has already seen.
  pub watch_round-replays :
      (n : ℕ) (w : Watcher bt) (m : Memory bt)
      → Inv bt (suc n) m
      → m.compact_revision ≤ w.last_seen
      → w.last_seen ≤ m.current_revision
      → w.key ≡ []
      → (e : Entry) × (more : List Entry) × (e.revision ≤ w.last_seen)
        × ((watch_round bt w m).0 ≡ to_event e ∷ events_of [] w.end more)
  watch_round-replays n w m v from to all =
      let round = watch_round-Catchup (suc n) w m v from to in
      let (e, more, old, sent) =
        replayed n w.end w.last_seen m.current_revision (pending w m) to
          (omega (arith, v.compactions)) round.reads in
      (e, more, old, round.sends ∙ ap (λ k. events_of k w.end (pending w m)) all ∙ sent)
