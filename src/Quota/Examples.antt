-- ===== src/Quota/Examples.antt =====
-- The theorems about pkg/server/kubehz_quota.go at concrete inputs.
use kine.Prelude.{
  Among, ℕ, ◌+◌, ◌-◌, ◌≤◌, ◌≡◌, refl, leb, true, false, none, some, List, [], ◌∷◌, Bytes, codes,
  arith, pos,
}
use kine.Types.{KeyValue, no_space}
use kine.Server.Backend.{Backend}
use kine.Quota.Figures.{Figures, no_figures, reserve}
use kine.Quota.Admission.{Limiter, Lanes, Guarded, is_control_key, create, update}
use kine.Quota.Outcome.{CreateOutcome, create-CreateOutcome}
use kine.Quota.UpdateOutcome.{UpdateOutcome, update-UpdateOutcome}
use kine.Quota.Relief.{TickRev, QuotaRelief, relief_target, tick}
use kine.Quota.Invariant.{IsSound}
use kine.Quota.Reached.{
  System, new_system, put, ticked, as_guarded, as_sampled, Reached-IsSound, create_step,
  update_step, tick_step, then, here,
}
use kine.Quota.Target.{Target, relief_target-Target}
use kine.Quota.Races.{
  Test, below, within, bound, began, based, loaded, reserved, State, quiet, Run, kept, by_put,
  begin, move, load_base, load_live, add_kept,
}
use kine.Quota.Races
use kine.Quota.RacesBounds.{kept-le-bound}
use kine.Quota.PutRuns.{PutRun, begun, moved, PutRun-kept-le}

-- A bucket is a number of tokens, which no time fills.
abbrev bucket : Limiter ℕ
bucket = record { allow_n = λ now n l. (leb n l, l - n) }

abbrev lanes : Lanes ℕ
lanes = record { control = 1; cleanup_ops = 1; cleanup_bytes = 100 }

-- A store that has one value of ten bytes for each key, at revision 1, and counts what it is asked to write.
abbrev stored_kv : Bytes → KeyValue
stored_kv key = record {
  key = key;
  value = codes "0123456789";
  version = 1;
  create_revision = 1;
  mod_revision = 1;
  lease = 0;
}

abbrev counting : Backend ℕ
counting = record {
  get = λ key revision keys_only n. ((1, some (stored_kv key), none), n);
  create = λ key value lease n. ((n, none), n + 1);
  delete = λ key revision n. ((n, none, true, none), n + 1);
  list = λ key end limit revision keys_only n. ((n, [], none), n);
  count = λ key end revision n. ((n, 0, none), n);
  update = λ key value revision lease n. ((n, none, true, none), n + 1);
  db_size = λ n. ((0, none), n);
  compact = λ revision n. ((n, none), n);
}

-- ten bytes below a limit of 100, and above it
abbrev small : Figures
small = record no_figures {
  limit = 100;
  ceiling = 1000;
  create_cap = 200;
  cleanup_cap = 500;
  live = 90;
}

abbrev full : Figures
full = record small { live = 100 }

abbrev guarded : Figures → Guarded ℕ ℕ
guarded q = record { figures = q; lanes = lanes; inner = 1 }

refused :
    create bucket (λ n. n) counting (codes "/a") (codes "1") 0 (guarded full)
    ≡ ((0, some no_space), guarded full)
unfolding create is_control_key
refused = refl

create-CreateOutcome_example :
    CreateOutcome bucket
      (λ n. n)
      counting
      (codes "/registry/leases/a")
      (codes "1")
      0
      (guarded full)
      (create bucket (λ n. n) counting (codes "/registry/leases/a") (codes "1") 0 (guarded full))
create-CreateOutcome_example =
    create-CreateOutcome bucket (λ n. n) counting (codes "/registry/leases/a") (codes "1") 0
      (guarded full)

update-UpdateOutcome_example :
    UpdateOutcome bucket
      (λ n. n)
      counting
      (codes "/a")
      (codes "123")
      1
      0
      (guarded full)
      (update bucket (λ n. n) counting (codes "/a") (codes "123") 1 0 (guarded full))
update-UpdateOutcome_example =
    update-UpdateOutcome bucket (λ n. n) counting (codes "/a") (codes "123") 1 0 (guarded full)

abbrev tick_revs : List TickRev
tick_revs =
    record { at = 10; rev = 3 } ∷ record { at = 40; rev = 5 } ∷ record { at = 70; rev = 9 } ∷ []

relief_target-Target_example : Target 100 150 tick_revs (relief_target 100 150 tick_revs)
relief_target-Target_example = relief_target-Target 100 150 tick_revs

target_at_40 : (relief_target 100 150 tick_revs).0 ≡ 5
target_at_40 = refl

abbrev relieving : QuotaRelief ℕ
relieving = record {
  relieve_quota = λ target refresh n. (
    (
      record {
        rows = 2;
        compacted_to = target;
        head = target + 1;
        stale = true;
        refreshed = refresh;
      },
      none,
    ),
    n + 1,
  );
  stats_owed = λ n. false;
}

-- A create, an update and a tick of a quota of 100 bytes.

-- a quota of 100 bytes after a create, an update and a tick
abbrev y0 : System ℕ ℕ
y0 = new_system (pos 100) 120 lanes 1

abbrev y1 : System ℕ ℕ
y1 = put y0 (create bucket (λ n. n) counting (codes "/a") (codes "1") 0 (as_guarded y0)).1

abbrev y2 : System ℕ ℕ
y2 = put y1 (update bucket (λ n. n) counting (codes "/a") (codes "123") 1 0 (as_guarded y1)).1

abbrev y3 : System ℕ ℕ
y3 = ticked y2 (
    tick (λ n. false) (λ n. n) (λ n. ((90, none), n)) none counting (λ n. ((n, none), n))
      (some relieving) (as_sampled y2))

Reached-IsSound_example : IsSound y3.figures y3.relief
Reached-IsSound_example =
    Reached-IsSound bucket (λ n. false) (λ n. n) (λ n. ((90, none), n)) none counting
      (λ n. ((n, none), n)) (some relieving) (pos 100) 120 lanes 1
      (then
        (then (then here (create_step (codes "/a") (codes "1") 0))
          (update_step (codes "/a") (codes "123") 1 0))
        tick_step)

-- One put of 5 bytes is reserved, and one of 20 has loaded its figures.
abbrev loaded_state : State
loaded_state = record {
  figures = reserve 5 small;
  puts = loaded below 20 0 90 0 ∷ reserved 5 ∷ [];
  sampling = Races.outside;
  samples = (90, 0) ∷ [];
}

abbrev two_puts : Run small loaded_state
two_puts =
    Run.then
      (Run.then
        (Run.then
          (Run.then
            (Run.then
              (Run.then (Run.then Run.here (by_put (begin below 5)))
                (by_put (move [] [] _ _ _ refl load_base)))
              (by_put (move [] [] _ _ _ refl load_live)))
            (by_put (move [] [] _ _ _ refl (add_kept refl))))
          (by_put (begin below 20)))
        (by_put (move [] (reserved 5 ∷ []) _ _ _ refl load_base)))
      (by_put (move [] (reserved 5 ∷ []) _ _ _ refl load_live))

kept-le-bound_example : Among {A = ℕ × ℕ} (90, 0) ((90, 0) ∷ []) × (90 + (5 + 20) ≤ 120 + 0)
kept-le-bound_example =
    kept-le-bound small refl (omega arith) (omega arith) (omega arith) two_puts [] (reserved 5 ∷ [])
      below 20 0 90 0 refl (add_kept refl)

abbrev kept_state : State
kept_state = record {
  figures = reserve 20 small;
  puts = reserved 20 ∷ [];
  sampling = Races.outside;
  samples = (90, 0) ∷ [];
}

abbrev one_kept : PutRun small 120 kept_state
one_kept =
    moved [] [] _ _ _
      (moved [] [] _ _ _ (moved [] [] _ _ _ (begun below 20 PutRun.here) refl load_base) refl
        load_live)
      refl (add_kept refl)

PutRun-kept-le_example : 90 + 20 - 0 ≤ 120
PutRun-kept-le_example =
    PutRun-kept-le small refl (omega arith) (omega arith) (omega arith) one_kept
