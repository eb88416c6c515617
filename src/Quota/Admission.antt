-- ===== src/Quota/Admission.antt =====
-- pkg/server/kubehz_quota.go: quotaBackend, the wrapper that admits or refuses the puts of a backend.
-- The methods that it does not override are the backend's own. The metrics are left out.
use kine.Prelude.{
  ℕ, ◌+◌, ◌*◌, Bool, true, false, ◌&&◌, ◌||◌, not, Option, none, some, List, [], ◌∷◌, Bytes, codes,
  has_prefix, length, ltb, leb, ◌==◌, min, if◌then◌else◌,
}
use kine.Types.{KeyValue, Error, no_space, key_exists}
use kine.Server.Version.{compact_rev_api}
use kine.Server.Backend.{Backend}
use kine.Quota.Figures.{Figures, reserve_below, reserve_within, release, settle}

-- golang.org/x/time/rate: AllowN of a Limiter, at a time and for a number of tokens
pub record Limiter (L : Type 0) : Type 0 where
  pub allow_n : ℕ → ℕ → L → Bool × L

-- the buckets of a Quota
pub record Lanes (L : Type 0) : Type 0 where
  pub control : L
  pub cleanup_ops : L
  pub cleanup_bytes : L

-- quotaBackend: the quota, and the backend inside
pub record Guarded (L S : Type 0) : Type 0 where
  pub figures : Figures
  pub lanes : Lanes L
  pub inner : S

abbrev pub quota_growth_slack : ℕ
quota_growth_slack = 64

-- 4 << 10
abbrev pub quota_control_max_value : ℕ
quota_control_max_value = 4096

-- 16 << 20
abbrev pub quota_cleanup_bytes_burst : ℕ
quota_cleanup_bytes_burst = 16777216

abbrev pub quota_control_prefixes : List Bytes
quota_control_prefixes =
    codes "/registry/leases/" ∷ codes "/registry/masterleases/" ∷ compact_rev_api ∷ []

abbrev has_prefix_of : List Bytes → Bytes → Bool
has_prefix_of [] key = false
has_prefix_of (p ∷ ps) key =
    let rest = has_prefix_of ps key in if has_prefix key p then true else rest

unfoldable pub is_control_key : Bytes → Bool
is_control_key key = has_prefix_of quota_control_prefixes key

-- the label of a refusal
pub data Reason : Type 0 where
  on_create on_ceiling on_rate on_read on_growth : Reason

-- `errors.Is(err, ErrKeyExists)`
abbrev pub is_key_exists : Option Error → Bool
is_key_exists (some key_exists) = true
is_key_exists (some _) = false
is_key_exists none = false

abbrev pub is_error : Option Error → Bool
is_error none = false
is_error (some e) = true

abbrev pub create_cost : Bytes → Bytes → ℕ
create_cost key value = length key + length value

-- the cost of an update below the limit, and the exact one
abbrev pub update_cost : Bytes → Bytes → ℕ
update_cost key value = length key + 2 * length value

abbrev pub exact_cost : Bytes → Bytes → KeyValue → ℕ
exact_cost key value cur = length key + length value + length cur.value

abbrev pub is_control : Bytes → Bytes → Bool
is_control key value = is_control_key key && leb (length value) quota_control_max_value

-- `limit` of admitUpdate
abbrev pub lane_cap : Bool → Figures → ℕ
lane_cap control q = if control then q.ceiling else q.cleanup_cap

-- `clock` is `time.Now()`.
module _ {L S : Type 0} (limiter : Limiter L) (clock : S → ℕ) (backend : Backend S) where
  abbrev pub control_allowed : ℕ → Guarded L S → Bool × L → Option Reason × Guarded L S
  control_allowed cost g (false, l) = (
    some on_rate,
    record g { figures = release cost g.figures; lanes = record g.lanes { control = l } },
  )
  control_allowed cost g (true, l) = (none, record g { lanes = record g.lanes { control = l } })

  -- from the reservation of a control put on
  abbrev pub control_reserved : ℕ → Guarded L S → Bool × Figures → Option Reason × Guarded L S
  control_reserved cost g (false, q) = (some on_ceiling, record g { figures = q })
  control_reserved cost g (true, q) =
      control_allowed cost (record g { figures = q })
        (limiter.allow_n (clock g.inner) 1 g.lanes.control)

  abbrev pub admit_control_create : Bytes → Bytes → ℕ → Guarded L S → Option Reason × Guarded L S
  admit_control_create key value cost g =
      if not (is_control_key key) || ltb quota_control_max_value (length value)
      then (some on_create, g)
      else control_reserved cost g (reserve_within cost g.figures.create_cap g.figures)

  abbrev pub create_done :
      ℕ → Guarded L S → (ℕ × Option Error) × S → (ℕ × Option Error) × Guarded L S
  create_done cost g ((rev, err), s) = (
    (rev, err),
    record g { figures = settle cost (not (is_key_exists err)) g.figures; inner = s },
  )

  abbrev pub create_admitted :
      Bytes → Bytes → ℕ → ℕ → Option Reason × Guarded L S → (ℕ × Option Error) × Guarded L S
  create_admitted key value lease cost (some reason, g) = ((0, some no_space), g)
  create_admitted key value lease cost (none, g) =
      create_done cost g (backend.create key value lease g.inner)

  abbrev pub create_reserved :
      Bytes → Bytes → ℕ → ℕ → Guarded L S → Bool × Figures → (ℕ × Option Error) × Guarded L S
  create_reserved key value lease cost g (true, q) =
      create_admitted key value lease cost (none, record g { figures = q })
  create_reserved key value lease cost g (false, q) =
      create_admitted key value lease cost
        (admit_control_create key value cost (record g { figures = q }))

  unfoldable pub create : Bytes → Bytes → ℕ → Guarded L S → (ℕ × Option Error) × Guarded L S
  create key value lease g =
      let cost = create_cost key value in
      create_reserved key value lease cost g (reserve_below cost g.figures)

  -- the end of `admitUpdate` in the cleanup lane: the bucket of bytes, and before it that of operations
  abbrev pub bytes_allowed : ℕ → Guarded L S → Bool × L → (ℕ × Option Reason) × Guarded L S
  bytes_allowed cost g (false, l) = (
    (0, some on_rate),
    record g { figures = release cost g.figures; lanes = record g.lanes { cleanup_bytes = l } },
  )
  bytes_allowed cost g (true, l) =
      ((cost, none), record g { lanes = record g.lanes { cleanup_bytes = l } })

  abbrev pub ops_allowed : ℕ → Guarded L S → Bool × L → (ℕ × Option Reason) × Guarded L S
  ops_allowed cost g (false, l) = (
    (0, some on_rate),
    record g { figures = release cost g.figures; lanes = record g.lanes { cleanup_ops = l } },
  )
  ops_allowed cost g (true, l) =
      bytes_allowed cost (record g { lanes = record g.lanes { cleanup_ops = l } })
        (limiter.allow_n (clock g.inner) (min cost quota_cleanup_bytes_burst) g.lanes.cleanup_bytes)

  abbrev pub update_allowed : ℕ → Guarded L S → Bool × L → (ℕ × Option Reason) × Guarded L S
  update_allowed cost g (false, l) = (
    (0, some on_rate),
    record g { figures = release cost g.figures; lanes = record g.lanes { control = l } },
  )
  update_allowed cost g (true, l) =
      ((cost, none), record g { lanes = record g.lanes { control = l } })

  abbrev pub update_reserved :
      Bool → ℕ → Guarded L S → Bool × Figures → (ℕ × Option Reason) × Guarded L S
  update_reserved control cost g (false, q) = ((0, some on_ceiling), record g { figures = q })
  update_reserved true cost g (true, q) =
      update_allowed cost (record g { figures = q })
        (limiter.allow_n (clock g.inner) 1 g.lanes.control)
  update_reserved false cost g (true, q) =
      ops_allowed cost (record g { figures = q })
        (limiter.allow_n (clock g.inner) 1 g.lanes.cleanup_ops)

  abbrev pub admit_read :
      Bytes
      → Bytes
      → ℕ
      → Guarded L S
      → ℕ × Option KeyValue × Option Error
      → (ℕ × Option Reason) × Guarded L S
  admit_read key value revision g (_, _, some e) = ((0, some on_read), g)
  admit_read key value revision g (_, none, none) = ((0, none), g)
  admit_read key value revision g (_, some cur, none) =
      let cost = exact_cost key value cur in
      let control = is_control key value in
      if not (cur.mod_revision == revision)
      then ((0, none), g)
      else if ltb (length cur.value + quota_growth_slack) (length value)
      then ((0, some on_growth), g)
      else update_reserved control cost g
          (reserve_within cost (lane_cap control g.figures) g.figures)

  abbrev pub admit_got :
      Bytes
      → Bytes
      → ℕ
      → Guarded L S
      → (ℕ × Option KeyValue × Option Error) × S
      → (ℕ × Option Reason) × Guarded L S
  admit_got key value revision g (r, s) = admit_read key value revision (record g { inner = s }) r

  abbrev pub admit_update : Bytes → Bytes → ℕ → Guarded L S → (ℕ × Option Reason) × Guarded L S
  admit_update key value revision g =
      admit_got key value revision g (backend.get key 0 false g.inner)

  abbrev pub update_done :
      ℕ
      → Guarded L S
      → (ℕ × Option KeyValue × Bool × Option Error) × S
      → (ℕ × Option KeyValue × Bool × Option Error) × Guarded L S
  update_done cost g ((rev, kv, ok, err), s) = (
    (rev, kv, ok, err),
    record g { figures = settle cost (ok || is_error err) g.figures; inner = s },
  )

  abbrev pub update_admitted :
      Bytes
      → Bytes
      → ℕ
      → ℕ
      → (ℕ × Option Reason) × Guarded L S
      → (ℕ × Option KeyValue × Bool × Option Error) × Guarded L S
  update_admitted key value revision lease ((cost, some reason), g) =
      ((0, none, false, some no_space), g)
  update_admitted key value revision lease ((cost, none), g) =
      update_done cost g (backend.update key value revision lease g.inner)

  abbrev pub update_below :
      Bytes
      → Bytes
      → ℕ
      → ℕ
      → Guarded L S
      → Bool × Figures
      → (ℕ × Option KeyValue × Bool × Option Error) × Guarded L S
  update_below key value revision lease g (true, q) =
      update_admitted key value revision lease
        ((update_cost key value, none), record g { figures = q })
  update_below key value revision lease g (false, q) =
      update_admitted key value revision lease
        (admit_update key value revision (record g { figures = q }))

  unfoldable pub update :
      Bytes
      → Bytes
      → ℕ
      → ℕ
      → Guarded L S
      → (ℕ × Option KeyValue × Bool × Option Error) × Guarded L S
  update key value revision lease g =
      update_below key value revision lease g (reserve_below (update_cost key value) g.figures)

  -- a method that the wrapper does not override
  abbrev pub passed : {A : Type 0} → (S → A × S) → Guarded L S → A × Guarded L S
  passed f g = let (a, s) = f g.inner in (a, record g { inner = s })

  abbrev pub unguarded : Backend (Guarded L S)
  unguarded = record {
    get = λ key revision keys_only. passed (backend.get key revision keys_only);
    create = λ key value lease. passed (backend.create key value lease);
    delete = λ key revision. passed (backend.delete key revision);
    list =
        λ key end limit revision keys_only. passed (backend.list key end limit revision keys_only);
    count = λ key end revision. passed (backend.count key end revision);
    update = λ key value revision lease. passed (backend.update key value revision lease);
    db_size = passed backend.db_size;
    compact = λ revision. passed (backend.compact revision);
  }

  abbrev pub quota_backend : Backend (Guarded L S)
  quota_backend = record unguarded { create = create; update = update }

  -- WithQuota, of a quota that is there: without a limit, the backend itself
  unfoldable pub with_quota : Figures → Backend (Guarded L S)
  with_quota q = if leb q.limit 0 then unguarded else quota_backend
