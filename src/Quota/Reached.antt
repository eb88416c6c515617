-- ===== src/Quota/Reached.antt =====
-- pkg/server/kubehz_quota.go: what the puts and the ticks of a quota reach, one after another.
use kine.Prelude.{ℕ, Bool, Option, Bytes, ℤ, arith}
use kine.Types.{Error}
use kine.Server.Backend.{Backend}
use kine.Quota.Figures.{Figures, new_figures, SizeSource}
use kine.Quota.Admission.{Limiter, Lanes, Guarded, create, update}
use kine.Quota.Relief.{Relief, Sampled, QuotaRelief, new_relief, tick}
use kine.Quota.Invariant.{
  IsSound, new_figures-IsSettled, create-IsSettled, update-IsSettled, tick-IsSound,
}

-- the quota and the backend inside
pub record System (L S : Type 0) : Type 0 where
  pub figures : Figures
  pub lanes : Lanes L
  pub relief : Relief
  pub inner : S

abbrev pub as_guarded : {L S : Type 0} → System L S → Guarded L S
as_guarded y = record { figures = y.figures; lanes = y.lanes; inner = y.inner }

abbrev pub as_sampled : {L S : Type 0} → System L S → Sampled S
as_sampled y = record { figures = y.figures; relief = y.relief; inner = y.inner }

abbrev pub put : {L S : Type 0} → System L S → Guarded L S → System L S
put y g = record y { figures = g.figures; lanes = g.lanes; inner = g.inner }

abbrev pub ticked : {L S : Type 0} → System L S → Sampled S → System L S
ticked y q = record y { figures = q.figures; relief = q.relief; inner = q.inner }

-- NewQuota, with its buckets, around a backend
abbrev pub new_system : {L S : Type 0} → ℤ → ℕ → Lanes L → S → System L S
new_system limit lag lanes s = record {
  figures = new_figures limit;
  lanes = lanes;
  relief = new_relief lag;
  inner = s;
}

module _ {L S : Type 0} (limiter : Limiter L) (ctx_err : S → Bool) (clock : S → ℕ)
    (live_source : SizeSource S) (physical : Option (SizeSource S)) (backend : Backend S)
    (current_revision : S → (ℕ × Option Error) × S) (relief : Option (QuotaRelief S)) where
  -- One operation. What the wrapper passes on, and whatever else happens in the world, is `other`.
  pub data Step (y : System L S) : System L S → Type 0 where
    create_step :
        (key value : Bytes) (lease : ℕ)
        → Step y (put y (create limiter clock backend key value lease (as_guarded y)).1)
    update_step :
        (key value : Bytes) (revision lease : ℕ)
        → Step y (put y (update limiter clock backend key value revision lease (as_guarded y)).1)
    tick_step : Step y (
        ticked y
          (tick ctx_err clock live_source physical backend current_revision relief (as_sampled y)))
    other : (s : S) → Step y (record y { inner = s })

  pub data Reached (init : System L S) : System L S → Type 0 where
    here : Reached init init
    then : {y z : System L S} → Reached init y → Step y z → Reached init z

  Step-IsSound :
      {y z : System L S} → Step y z → IsSound y.figures y.relief → IsSound z.figures z.relief
  Step-IsSound {y} (create_step key value lease) h = record {
    counters = create-IsSettled key value lease limiter clock backend (as_guarded y) h.counters;
    fails_capped = h.fails_capped;
  }
  Step-IsSound {y} (update_step key value revision lease) h = record {
    counters =
        update-IsSettled key value revision lease limiter clock backend (as_guarded y) h.counters;
    fails_capped = h.fails_capped;
  }
  Step-IsSound {y} tick_step h =
      tick-IsSound ctx_err clock live_source physical backend current_revision relief (as_sampled y)
        h
  Step-IsSound (other s) h = h

  -- After any sequence of creates, updates and ticks of a new quota, with any change of the world
  -- between them, the base is at most the older mark, the marks rise and are at most the committed
  -- bytes, every reservation is settled, the caps are at most the ceiling, and fewer than three
  -- refreshes have failed in a row since the last pause.
  pub Reached-IsSound :
      (limit : ℤ) (lag : ℕ) (lanes : Lanes L) (s : S) {y : System L S}
      → Reached (new_system limit lag lanes s) y
      → IsSound y.figures y.relief
  Reached-IsSound limit lag lanes s here = record {
    counters = new_figures-IsSettled limit;
    fails_capped = omega arith;
  }
  Reached-IsSound limit lag lanes s (then r st) =
      Step-IsSound st (Reached-IsSound limit lag lanes s r)
