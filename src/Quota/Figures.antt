-- ===== src/Quota/Figures.antt =====
-- pkg/server/kubehz_quota.go: the figures that the limit compares. An atomic counter is a number here,
-- an `int64` that is not negative; the gauges and the log lines are left out.
use kine.Prelude.{
  ℕ, ◌+◌, ◌-◌, ◌*◌, Bool, true, false, ◌&&◌, Option, none, some, ltb, leb, if◌then◌else◌, ℤ, pos,
  negsuc,
}
use kine.Types.{Error}

-- 64 << 20, 16 << 20 and 32 << 20
abbrev pub quota_ceiling_margin : ℕ
quota_ceiling_margin = 67108864

abbrev pub quota_create_margin : ℕ
quota_create_margin = 16777216

abbrev pub quota_control_reserve : ℕ
quota_control_reserve = 33554432

-- The fields of Quota that the figure and its thresholds are made of. `marks0` is the older mark.
pub record Figures : Type 0 where
  pub limit : ℕ
  pub ceiling : ℕ
  pub create_cap : ℕ
  pub cleanup_cap : ℕ
  pub live : ℕ
  pub physical : ℕ
  pub written : ℕ
  pub committed : ℕ
  pub base : ℕ
  pub full : Bool
  pub marks0 : ℕ
  pub marks1 : ℕ

-- `max(limit, 0)`
abbrev pub at_least_zero : ℤ → ℕ
at_least_zero (pos n) = n
at_least_zero (negsuc n) = 0

abbrev pub no_figures : Figures
no_figures = record {
  limit = 0;
  ceiling = 0;
  create_cap = 0;
  cleanup_cap = 0;
  live = 0;
  physical = 0;
  written = 0;
  committed = 0;
  base = 0;
  full = false;
  marks0 = 0;
  marks1 = 0;
}

-- The figures of NewQuota.
unfoldable pub new_figures : ℤ → Figures
new_figures limit =
    let l = at_least_zero limit in
    if ltb 0 l
    then record no_figures {
      limit = l;
      ceiling = 2 * l + quota_ceiling_margin;
      create_cap = l + quota_create_margin;
      cleanup_cap = 2 * l + quota_ceiling_margin - quota_control_reserve;
    }
    else no_figures

abbrev pub figure : Figures → ℕ
figure q = q.live + q.written - q.base

abbrev pub is_full : Figures → Bool
is_full q = ltb 0 q.limit && leb q.limit (figure q)

-- `q.written.Add(cost)`, and Add(-cost)
abbrev pub reserve : ℕ → Figures → Figures
reserve cost q = record q { written = q.written + cost }

abbrev pub release : ℕ → Figures → Figures
release cost q = record q { written = q.written - cost }

abbrev pub reserve_below : ℕ → Figures → Bool × Figures
reserve_below cost q =
    let q' = reserve cost q in
    if ltb (figure q' - cost) q.limit then (true, q') else (false, release cost q')

abbrev pub reserve_within : ℕ → ℕ → Figures → Bool × Figures
reserve_within cost limit q =
    let q' = reserve cost q in
    if leb (figure q') limit then (true, q') else (false, release cost q')

abbrev pub settle : ℕ → Bool → Figures → Figures
settle cost wrote q = if wrote then record q { committed = q.committed + cost } else release cost q

abbrev pub publish : Figures → Figures
publish q = record q { full = leb q.limit (figure q) }

abbrev pub observe : ℕ → Figures → Figures
observe live q = let q' = record q { live = live } in if leb q.limit 0 then q' else publish q'

abbrev pub observe_physical : ℕ → Figures → Figures
observe_physical size q = record q { physical = size }

-- The stores of `sample` after its reads: the live figure before the base.
abbrev pub advanced : Bool → ℕ → ℕ → Figures → Figures
advanced advance mark size q =
    let q' = record q { live = size } in
    if advance then record q' { base = q'.marks0; marks0 = q'.marks1; marks1 = mark } else q'

-- SizeSource: a figure, read in the world
abbrev pub SizeSource : Type 0 → Type 0
SizeSource S = S → (ℕ × Option Error) × S

-- `ctx_err s` is `ctx.Err() != nil`; a query has its own deadline, which its error stands for.
module _ {S : Type 0} (ctx_err : S → Bool) (live_source : SizeSource S) where
  abbrev pub sample_live :
      Bool → ℕ → Figures → (ℕ × Option Error) × S → (Option Error × Figures) × S
  sample_live advance mark q ((size, some e), s) = ((some e, q), s)
  sample_live advance mark q ((size, none), s) =
      ((none, observe size (advanced advance mark size q)), s)

  abbrev pub sample_physical :
      Bool → ℕ → Figures → (ℕ × Option Error) × S → (Option Error × Figures) × S
  sample_physical advance mark q ((size, some e), s) =
      if ctx_err s then ((some e, q), s) else sample_live advance mark q (live_source s)
  sample_physical advance mark q ((size, none), s) =
      sample_live advance mark (observe_physical size q) (live_source s)

  abbrev pub sample : Option (SizeSource S) → Bool → Figures → S → (Option Error × Figures) × S
  sample none advance q s = sample_live advance q.committed q (live_source s)
  sample (some physical) advance q s = sample_physical advance q.committed q (physical s)
