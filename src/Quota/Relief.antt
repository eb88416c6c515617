-- ===== src/Quota/Relief.antt =====
-- pkg/server/kubehz_quota.go: the sampler, which reads the figures and, while the database is full, has
-- its history compacted. Times and durations are nanoseconds; the gauges and the log lines are left out.
use kine.Prelude.{
  ℕ, ◌+◌, ◌-◌, ◌*◌, Bool, true, false, ◌&&◌, not, Option, none, some, List, [], ◌∷◌, ◌++◌, length,
  drop, ltb, leb, if◌then◌else◌,
}
use kine.Types.{KeyValue, Error, health_key, health_val}
use kine.Server.Backend.{Backend}
use kine.Quota.Figures.{Figures, is_full, publish, SizeSource, sample}
use kine.Quota.Admission.{is_error}

abbrev pub seconds : ℕ → ℕ
seconds n = n * 1000000000

abbrev pub quota_refresh_settle : ℕ
quota_refresh_settle = seconds 15

abbrev pub quota_refresh_tries : ℕ
quota_refresh_tries = 3

abbrev pub quota_refresh_pause : ℕ
quota_refresh_pause = seconds 600

pub record TickRev : Type 0 where
  pub at : ℕ
  pub rev : ℕ

pub record ReliefResult : Type 0 where
  pub rows : ℕ
  pub compacted_to : ℕ
  pub head : ℕ
  pub stale : Bool
  pub refreshed : Bool

pub record QuotaRelief (S : Type 0) : Type 0 where
  pub relieve_quota : ℕ → Bool → S → (ReliefResult × Option Error) × S
  pub stats_owed : S → Bool

-- The fields of Quota that the relief uses.
pub record Relief : Type 0 where
  pub lag : ℕ
  pub revs : List TickRev
  pub refresh_owed : Bool
  pub last_delete : ℕ
  pub refresh_fails : ℕ
  pub refresh_paused : ℕ

-- The time of a field that is not set is before every time of the clock.
abbrev pub new_relief : ℕ → Relief
new_relief lag = record {
  lag = lag;
  revs = [];
  refresh_owed = false;
  last_delete = 0;
  refresh_fails = 0;
  refresh_paused = 0;
}

abbrev pub refresh_due : ℕ → Relief → Bool
refresh_due now r =
    r.refresh_owed && leb quota_refresh_settle (now - r.last_delete) && leb r.refresh_paused now

abbrev pub settling : ℕ → Relief → Bool
settling now r =
    r.refresh_owed && ltb (now - r.last_delete) quota_refresh_settle && leb r.refresh_paused now

-- `now.Sub(r.at) >= q.lag`
abbrev pub old_enough : ℕ → ℕ → TickRev → Bool
old_enough lag now r = leb (r.at + lag) now

-- the loop of reliefTarget: `j` is the next index, and `i` is none for -1
abbrev pub newest_index : ℕ → ℕ → ℕ → Option ℕ → List TickRev → Option ℕ
newest_index lag now j i [] = i
newest_index lag now j i (r ∷ rs) =
    newest_index lag now (j + 1) (if old_enough lag now r then some j else i) rs

abbrev pub first_rev : List TickRev → ℕ
first_rev [] = 0
first_rev (r ∷ rs) = r.rev

-- the target, and the entries that are kept
abbrev pub relief_target : ℕ → ℕ → List TickRev → ℕ × List TickRev
relief_target lag now revs = elim (newest_index lag now 0 none revs) [
  | none ↦ (0, revs)
  | some i ↦ (first_rev (drop i revs), drop i revs)
]

-- the quota, as the goroutine of the sampler sees it, and the world around it
pub record Sampled (S : Type 0) : Type 0 where
  pub figures : Figures
  pub relief : Relief
  pub inner : S

-- what a marker of the head costs
abbrev pub mark_cost : ℕ
mark_cost = length health_key + 2 * length health_val

module _ {S : Type 0} (ctx_err : S → Bool) (clock : S → ℕ) (live_source : SizeSource S)
    (physical : Option (SizeSource S)) (backend : Backend S)
    (current_revision : S → (ℕ × Option Error) × S) (relieve_source : QuotaRelief S) where
  -- `_ = q.sample(ctx, live, physical, false)`
  abbrev pub sample_again : Sampled S → Sampled S
  sample_again q =
      let ((err, figures), s) = sample ctx_err live_source physical false q.figures q.inner in
      record q { figures = figures; inner = s }

  abbrev pub refresh_failed : Sampled S → Sampled S
  refresh_failed q =
      let fails = q.relief.refresh_fails + 1 in
      if leb quota_refresh_tries fails
      then record q {
        relief = record q.relief {
          refresh_fails = 0;
          refresh_paused = clock q.inner + quota_refresh_pause;
        };
      }
      else record q { relief = record q.relief { refresh_fails = fails } }

  abbrev pub refresh_done : Sampled S → (ReliefResult × Option Error) × S → Sampled S
  refresh_done q ((res, err), s) =
      if res.refreshed
      then sample_again (record q {
        relief = record q.relief { refresh_owed = false; refresh_fails = 0 };
        inner = s;
      })
      else if ctx_err s
      then record q { inner = s }
      else refresh_failed (record q { inner = s })

  abbrev pub refresh : Sampled S → Sampled S
  refresh q = refresh_done q (relieve_source.relieve_quota 0 true q.inner)

  abbrev pub counted : Sampled S → S → Sampled S
  counted q s = record q {
    figures = record q.figures {
      written = q.figures.written + mark_cost;
      committed = q.figures.committed + mark_cost;
    };
    inner = s;
  }

  -- from the read of the health key on
  abbrev pub mark_got : Sampled S → (ℕ × Option KeyValue × Option Error) × S → Sampled S
  mark_got q ((_, _, some e), s) = record q { inner = s }
  mark_got q ((_, none, none), s) = counted q (backend.create health_key health_val 0 s).1
  mark_got q ((_, some kv, none), s) =
      counted q (backend.update health_key health_val kv.mod_revision 0 s).1

  abbrev pub mark_head : Sampled S → Sampled S
  mark_head q = mark_got q (backend.get health_key 0 false q.inner)

  -- `q` is the quota after the figure has been read again
  abbrev pub wants_mark : ℕ → ReliefResult → Option Error → Sampled S → Bool
  wants_mark target res err q =
      ltb 0 res.head
      && leb res.head target
      && not (is_error err)
      && leb (res.head - 1) res.compacted_to
      && is_full q.figures
      && not (ctx_err q.inner)

  abbrev pub relieve_done : ℕ → Sampled S → (ReliefResult × Option Error) × S → Sampled S
  relieve_done target q ((res, err), s) =
      let relief =
        if res.stale
        then record q.relief { refresh_owed = true; last_delete = clock s }
        else q.relief in
      let q' = record q { relief = relief; inner = s } in
      let q'' = if ltb 0 res.rows then sample_again q' else q' in
      if wants_mark target res err q'' then mark_head q'' else q''

  abbrev pub relieve : ℕ → Sampled S → Sampled S
  relieve target q = relieve_done target q (relieve_source.relieve_quota target false q.inner)

  -- the `switch` of `tick`
  abbrev pub tick_pass : ℕ → ℕ → Sampled S → Sampled S
  tick_pass now target q =
      if refresh_due now q.relief
      then refresh q
      else if settling now q.relief
      then q
      else if is_full q.figures && ltb 0 target
      then relieve target q
      else q

  abbrev pub tick_targeted : ℕ → ℕ → Sampled S → ℕ × List TickRev → Sampled S
  tick_targeted now current q (target, revs) =
      let owed = if relieve_source.stats_owed q.inner then true else q.relief.refresh_owed in
      tick_pass now target (record q {
        relief = record q.relief {
          revs = revs ++ record { at = now; rev = current } ∷ [];
          refresh_owed = owed;
        };
      })

  abbrev pub tick_current : Sampled S → (ℕ × Option Error) × S → Sampled S
  tick_current q ((_, some e), s) = record q { inner = s }
  tick_current q ((current, none), s) =
      tick_targeted (clock s) current (record q { inner = s })
        (relief_target q.relief.lag (clock s) q.relief.revs)

  abbrev pub tick_sampled : Sampled S → (Option Error × Figures) × S → Sampled S
  tick_sampled q ((some e, figures), s) =
      if ctx_err s
      then record q { figures = figures; inner = s }
      else tick_current (record q { figures = publish figures; inner = s }) (current_revision s)
  tick_sampled q ((none, figures), s) =
      tick_current (record q { figures = figures; inner = s }) (current_revision s)

  -- `tick` of a quota whose relief is enabled
  abbrev pub relieved_tick : Sampled S → Sampled S
  relieved_tick q = tick_sampled q (sample ctx_err live_source physical true q.figures q.inner)

module _ {S : Type 0} (ctx_err : S → Bool) (clock : S → ℕ) (live_source : SizeSource S)
    (physical : Option (SizeSource S)) (backend : Backend S)
    (current_revision : S → (ℕ × Option Error) × S) where
  -- the sample of a tick without relief
  abbrev pub plain_tick : Sampled S → (Option Error × Figures) × S → Sampled S
  plain_tick q ((some e, figures), s) = record q {
    figures = if ctx_err s then figures else publish figures;
    inner = s;
  }
  plain_tick q ((none, figures), s) = record q { figures = figures; inner = s }

  unfoldable pub tick : Option (QuotaRelief S) → Sampled S → Sampled S
  tick none q = plain_tick q (sample ctx_err live_source physical true q.figures q.inner)
  tick (some relief) q =
      relieved_tick ctx_err clock live_source physical backend current_revision relief q
