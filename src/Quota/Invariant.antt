-- ===== src/Quota/Invariant.antt =====
-- pkg/server/kubehz_quota.go: what holds of the counters of a quota between its operations.
use kine.Prelude.{
  ℕ, ◌≤◌, ◌<◌, ◌≡◌, sym, subst, inl, inr, Bool, true, false, Option, none, some, Bytes,
  if◌then◌else◌, if_cases, ltb, arith, ℤ, ◌&&◌,
}
use kine.Types.{KeyValue, Error, health_key}
use kine.Server.Backend.{Backend}
use kine.Quota.Figures.{
  Figures, new_figures, is_full, SizeSource, sample, sample_live, sample_physical, advanced,
  observe, observe_physical, publish,
}
use kine.Quota.Admission.{Limiter, Guarded, create, update}
use kine.Quota.Outcome.{charge_if, create-CreateOutcome}
use kine.Quota.UpdateOutcome.{update-UpdateOutcome}
use kine.Quota.Relief.{
  Relief, Sampled, QuotaRelief, ReliefResult, tick, plain_tick, tick_sampled, tick_current,
  tick_pass, relieve_done, refresh_done, refresh_failed, sample_again, mark_got, mark_cost,
  quota_refresh_tries, refresh_due, settling, wants_mark,
}

-- The base and the marks are earlier values of the committed bytes, and every reservation is settled.
pub record IsSettled (q : Figures) : Type 0 where
  pub base_old : q.base ≤ q.marks0
  pub marks_rise : q.marks0 ≤ q.marks1
  pub mark_old : q.marks1 ≤ q.committed
  pub settled : q.committed ≡ q.written
  pub low_caps : (q.create_cap ≤ q.ceiling) × (q.cleanup_cap ≤ q.ceiling) × (q.limit ≤ q.ceiling)

pub new_figures-IsSettled : (limit : ℤ) → IsSettled (new_figures limit)
unfolding new_figures
new_figures-IsSettled limit = ground arith

pub charge_if-IsSettled :
    (wrote : Bool) (cost : ℕ) (q : Figures) → IsSettled q → IsSettled (charge_if wrote cost q)
charge_if-IsSettled true cost q h = ground arith
charge_if-IsSettled false cost q h = h

observe-IsSettled : (size : ℕ) (q : Figures) → IsSettled q → IsSettled (observe size q)
observe-IsSettled size q h = ground arith

advanced-IsSettled :
    (advance : Bool) (size : ℕ) (q : Figures)
    → IsSettled q
    → IsSettled (advanced advance q.committed size q)
advanced-IsSettled true size q h = ground arith
advanced-IsSettled false size q h = ground arith

-- Between two passes fewer refreshes have failed in a row than pause the refresh.
pub record IsSound (q : Figures) (r : Relief) : Type 0 where
  pub counters : IsSettled q
  pub fails_capped : r.refresh_fails < quota_refresh_tries

module _ {S : Type 0} (ctx_err : S → Bool) (clock : S → ℕ) (live_source : SizeSource S)
    (physical : Option (SizeSource S)) where
  live-IsSettled :
      (advance : Bool) (q : Figures) (r : (ℕ × Option Error) × S)
      → IsSettled q
      → IsSettled (sample_live ctx_err live_source advance q.committed q r).0.1
  live-IsSettled advance q ((size, some e), s) h = h
  live-IsSettled advance q ((size, none), s) h =
      observe-IsSettled size (advanced advance q.committed size q)
        (advanced-IsSettled advance size q h)

  physical-IsSettled :
      (advance : Bool) (q : Figures) (r : (ℕ × Option Error) × S)
      → IsSettled q
      → IsSettled (sample_physical ctx_err live_source advance q.committed q r).0.1
  physical-IsSettled advance q ((size, some e), s) h =
      if_cases (λ (x : (Option Error × Figures) × S). IsSettled x.0.1) (ctx_err s) _ _ (λ _. h)
        (λ _. live-IsSettled advance q (live_source s) h)
  physical-IsSettled advance q ((size, none), s) h =
      live-IsSettled advance (observe_physical size q) (live_source s) (ground arith)

  sample-IsSettled :
      (physical : Option (SizeSource S)) (advance : Bool) (q : Figures) (s : S)
      → IsSettled q
      → IsSettled (sample ctx_err live_source physical advance q s).0.1
  sample-IsSettled none advance q s h = live-IsSettled advance q (live_source s) h
  sample-IsSettled (some p) advance q s h = physical-IsSettled advance q (p s) h

abbrev Sound : {S : Type 0} → Sampled S → Type 0
Sound q = IsSound q.figures q.relief

module _ {S : Type 0} (ctx_err : S → Bool) (clock : S → ℕ) (live_source : SizeSource S)
    (physical : Option (SizeSource S)) (backend : Backend S)
    (current_revision : S → (ℕ × Option Error) × S) (relieve_source : QuotaRelief S) where
  again-Sound :
      (q : Sampled S)
      → Sound q
      → Sound (
          sample_again ctx_err clock live_source physical backend current_revision relieve_source q)
  again-Sound q h = record {
    counters =
        sample-IsSettled ctx_err clock live_source physical physical false q.figures q.inner
          h.counters;
    fails_capped = h.fails_capped;
  }

  failed-Sound :
      (q : Sampled S)
      → Sound q
      → Sound (
          refresh_failed ctx_err clock live_source physical backend current_revision relieve_source
            q)
  failed-Sound q h = record { counters = ground (arith, h.counters); fails_capped = ground arith }

  refresh-Sound :
      (q : Sampled S) (r : (ReliefResult × Option Error) × S)
      → Sound q
      → Sound (
          refresh_done ctx_err clock live_source physical backend current_revision relieve_source q
            r)
  refresh-Sound q ((res, err), s) h =
      if_cases Sound res.refreshed _ _
        (λ _. again-Sound _ (record { counters = h.counters; fails_capped = omega arith }))
        (λ _.
          if_cases Sound (ctx_err s) _ _ (λ _. h) (λ _. failed-Sound (record q { inner = s }) h))

  mark-Sound :
      (q : Sampled S) (r : (ℕ × Option KeyValue × Option Error) × S)
      → Sound q
      → Sound
          (mark_got ctx_err clock live_source physical backend current_revision relieve_source q r)
  mark-Sound q ((rev, kv, some e), s) h = h
  mark-Sound q ((rev, none, none), s) h = record {
    counters = charge_if-IsSettled true mark_cost q.figures h.counters;
    fails_capped = h.fails_capped;
  }
  mark-Sound q ((rev, some kv, none), s) h = record {
    counters = charge_if-IsSettled true mark_cost q.figures h.counters;
    fails_capped = h.fails_capped;
  }

  relieve-Sound :
      (target : ℕ) (q : Sampled S) (r : (ReliefResult × Option Error) × S)
      → Sound q
      → Sound (
          relieve_done ctx_err clock live_source physical backend current_revision relieve_source
            target q r)
  relieve-Sound target q ((res, err), s) h =
      let relief =
        if res.stale
        then record q.relief { refresh_owed = true; last_delete = clock s }
        else q.relief in
      let q' = record q { relief = relief; inner = s } in
      let again =
        sample_again ctx_err clock live_source physical backend current_revision relieve_source
          q' in
      let q'' = if ltb 0 res.rows then again else q' in
      let sound =
        if_cases (λ (x : Relief). IsSound q.figures x) res.stale _ q.relief
          (λ _. record { counters = h.counters; fails_capped = h.fails_capped }) (λ _. h) in
      let sound'' =
        if_cases Sound (ltb 0 res.rows) again q' (λ _. again-Sound q' sound) (λ _. sound) in
      if_cases Sound
        (wants_mark ctx_err clock live_source physical backend current_revision relieve_source
          target res err q'')
        _ _ (λ _. mark-Sound q'' (backend.get health_key 0 false q''.inner) sound'') (λ _. sound'')

  pass-Sound :
      (now target : ℕ) (q : Sampled S)
      → Sound q
      → Sound (
          tick_pass ctx_err clock live_source physical backend current_revision relieve_source now
            target q)
  pass-Sound now target q h =
      if_cases Sound (refresh_due now q.relief) _ _
        (λ _. refresh-Sound q (relieve_source.relieve_quota 0 true q.inner) h)
        (λ _.
          if_cases Sound (settling now q.relief) _ _ (λ _. h)
            (λ _.
              if_cases Sound (is_full q.figures && ltb 0 target) _ _
                (λ _. relieve-Sound target q (relieve_source.relieve_quota target false q.inner) h)
                (λ _. h)))

  current-Sound :
      (q : Sampled S) (r : (ℕ × Option Error) × S)
      → Sound q
      → Sound (
          tick_current ctx_err clock live_source physical backend current_revision relieve_source q
            r)
  current-Sound q ((rev, some e), s) h = h
  current-Sound q ((rev, none), s) h =
      pass-Sound (clock s) _ _ (record { counters = h.counters; fails_capped = h.fails_capped })

  sampled-Sound :
      (q : Sampled S) (r : (Option Error × Figures) × S)
      → IsSettled r.0.1
      → q.relief.refresh_fails < quota_refresh_tries
      → Sound (
          tick_sampled ctx_err clock live_source physical backend current_revision relieve_source q
            r)
  sampled-Sound q ((some e, figures), s) h lt =
      if_cases Sound (ctx_err s) _ _ (λ _. record { counters = h; fails_capped = lt })
        (λ _.
          current-Sound (record q { figures = publish figures; inner = s }) (current_revision s)
            (record { counters = ground (arith, h); fails_capped = lt }))
  sampled-Sound q ((none, figures), s) h lt =
      current-Sound (record q { figures = figures; inner = s }) (current_revision s)
        (record { counters = h; fails_capped = lt })

-- The tick as a whole.
pub tick-IsSound :
    {S : Type 0} (ctx_err : S → Bool) (clock : S → ℕ) (live_source : SizeSource S)
    (physical : Option (SizeSource S)) (backend : Backend S)
    (current_revision : S → (ℕ × Option Error) × S) (relief : Option (QuotaRelief S))
    (q : Sampled S)
    → Sound q
    → Sound (tick ctx_err clock live_source physical backend current_revision relief q)
unfolding tick
tick-IsSound ctx_err clock live_source physical backend current_revision none q h =
    plain (sample ctx_err live_source physical true q.figures q.inner) (
      sample-IsSettled ctx_err clock live_source physical physical true q.figures q.inner
        h.counters)
  where
    plain :
        (r : (Option Error × Figures) × _)
        → IsSettled r.0.1
        → Sound (plain_tick ctx_err clock live_source physical backend current_revision q r)
    plain ((some e, figures), s) settled = record {
      counters =
          if_cases IsSettled (ctx_err s) figures (publish figures) (λ _. settled)
            (λ _. ground (arith, settled));
      fails_capped = h.fails_capped;
    }
    plain ((none, figures), s) settled = record {
      counters = settled;
      fails_capped = h.fails_capped;
    }
tick-IsSound ctx_err clock live_source physical backend current_revision (some relief) q h =
    sampled-Sound ctx_err clock live_source physical backend current_revision relief q
      (sample ctx_err live_source physical true q.figures q.inner)
      (sample-IsSettled ctx_err clock live_source physical physical true q.figures q.inner
        h.counters)
      h.fails_capped

-- The puts.
pub create-IsSettled :
    {L S : Type 0} (key value : Bytes) (lease : ℕ) (limiter : Limiter L) (clock : S → ℕ)
    (backend : Backend S) (g : Guarded L S)
    → IsSettled g.figures
    → IsSettled (create limiter clock backend key value lease g).1.figures
create-IsSettled key value lease limiter clock backend g h =
    elim (create-CreateOutcome limiter clock backend key value lease g) [
      | inl refused ↦ subst IsSettled (sym refused.2) h
      | inr passed ↦ subst IsSettled (sym passed.1) (charge_if-IsSettled _ _ g.figures h)
    ]

pub update-IsSettled :
    {L S : Type 0} (key value : Bytes) (revision lease : ℕ) (limiter : Limiter L) (clock : S → ℕ)
    (backend : Backend S) (g : Guarded L S)
    → IsSettled g.figures
    → IsSettled (update limiter clock backend key value revision lease g).1.figures
update-IsSettled key value revision lease limiter clock backend g h =
    elim (update-UpdateOutcome limiter clock backend key value revision lease g) [
      | inl below ↦ subst IsSettled (sym below.1.1) (charge_if-IsSettled _ _ g.figures h)
      | inr full ↦ elim full.1 [
        | inl refused ↦ subst IsSettled (sym refused.2) h
        | inr (inl missed) ↦ subst IsSettled (sym missed.2) h
        | inr (inr lane) ↦ subst IsSettled (sym lane.5.1) (charge_if-IsSettled _ _ g.figures h)
      ]
    ]
