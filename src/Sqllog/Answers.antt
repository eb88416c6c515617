-- ===== src/Sqllog/Answers.antt =====
-- pkg/logstructured/sqllog/sql.go: what the log relies on in its database, and what its reads are to
-- answer.
use kine.Prelude.{
  ℕ, ◌≡◌, refl, sym, ap, subst, ◌⊎◌, inl, inr, Bool, true, false, ◌&&◌, Option, none, some, List,
  [], Bytes, ltb, leb, ◌==◌, if◌then◌else◌, Bool-cases, All, arith,
}
use kine.Types.{Event, Error, compacted, future_rev}
use kine.Sqllog.Rows.{Columns, rows_of, Stamped}
use kine.Sqllog.Dialect.{Dialect}
use kine.Sqllog.Log.{SqlLog, current_revision, is_empty}

-- What the log relies on: the queries do not fail and change nothing, each row carries the newest and
-- the compact revision, and an insert returns the newest revision after it, or fails and changes nothing.
pub record LawfulDialect {D : Type 0} (d : Dialect D) : Type 0 where
  pub revision : D → ℕ
  pub compact : D → ℕ
  pub rows_now : Bytes → Bytes → ℕ → Bool → Bool → D → List Columns
  pub rows_at : Bytes → Bytes → ℕ → ℕ → Bool → Bool → D → List Columns
  pub rows_after : Bytes → Bytes → ℕ → ℕ → D → List Columns
  pub number_at : Bytes → Bytes → ℕ → D → ℕ
  pub now_Stamped :
      (key end : Bytes) (limit : ℕ) (deleted keys_only : Bool) (s : D)
      → All (Stamped (revision s) (compact s)) (rows_now key end limit deleted keys_only s)
  pub at_Stamped :
      (key end : Bytes) (limit rev : ℕ) (deleted keys_only : Bool) (s : D)
      → All (Stamped (revision s) (compact s)) (rows_at key end limit rev deleted keys_only s)
  pub after_Stamped :
      (key end : Bytes) (rev limit : ℕ) (s : D)
      → All (Stamped (revision s) (compact s)) (rows_after key end rev limit s)
  pub reads_now :
      (key end : Bytes) (limit : ℕ) (deleted keys_only : Bool) (s : D)
      → d.list_current key end limit deleted keys_only s
        ≡ ((rows_of (rows_now key end limit deleted keys_only s), none), s)
  pub reads_at :
      (key end : Bytes) (limit rev : ℕ) (deleted keys_only : Bool) (s : D)
      → d.list key end limit rev deleted keys_only s
        ≡ ((rows_of (rows_at key end limit rev deleted keys_only s), none), s)
  pub reads_after :
      (key end : Bytes) (rev limit : ℕ) (s : D)
      → d.after key end rev limit s ≡ ((rows_of (rows_after key end rev limit s), none), s)
  pub counts_now :
      (key end : Bytes) (s : D)
      → d.count_current key end s ≡ ((revision s, number_at key end 0 s, none), s)
  pub counts_at :
      (key end : Bytes) (rev : ℕ) (s : D)
      → d.count key end rev s ≡ ((revision s, compact s, number_at key end rev s, none), s)
  pub reads_revision : (s : D) → d.current_revision s ≡ ((revision s, none), s)
  pub reads_compact : (s : D) → d.get_compact_revision s ≡ ((compact s, none), s)
  pub inserts :
      (key : Bytes) (create delete : Bool) (created prev lease : ℕ) (value : Bytes) (s : D)
      → ((err : Error) × (d.insert key create delete created prev lease value s
            ≡ ((0, some err), s)))
        ⊎ ((s' : D) × (d.insert key create delete created prev lease value s
              ≡ ((revision s', none), s')))

pub and_false : (b : Bool) → (b && false) ≡ false
and_false true = refl
and_false false = refl

-- What a read at a revision is answered, above the newest one, below the compact one, and else.
abbrev pub answer : {A : Type 0} → ℕ → ℕ → ℕ → A → A → ℕ × A × Option Error
answer revision rev compact nothing found =
    if ltb rev revision
    then (rev, nothing, some future_rev)
    else if ltb 0 revision && ltb revision compact
    then (rev, nothing, some compacted)
    else (rev, found, none)

-- After reports no revision if it was not asked from one on and there is no row.
abbrev pub answer_after : ℕ → ℕ → ℕ → List Event → ℕ × List Event × Option Error
answer_after revision rev compact events =
    if leb revision 0 && is_empty events
    then (0, [], none)
    else if ltb 0 revision && ltb revision compact
    then (rev, [], some compacted)
    else (rev, events, none)

module _ {D : Type 0} (d : Dialect D) (lawful : LawfulDialect d) where
  -- the cache is empty, or has the newest revision
  abbrev pub Fresh : SqlLog D → Type 0
  Fresh s = (s.current_rev ≡ 0) ⊎ (s.current_rev ≡ lawful.revision s.db)

  -- the result, with the database as it was and the cache fresh
  abbrev pub Answered : {A : Type 0} → SqlLog D → A × SqlLog D → A → Type 0
  Answered s (r, s') a = (r ≡ a) × (s'.db ≡ s.db) × Fresh s'

  -- An append fails and changes nothing of the database, or returns the newest revision after it.
  abbrev pub Appended : SqlLog D → (ℕ × Option Error) × SqlLog D → Type 0
  Appended s ((rev, err), s') =
      Fresh s'
      × (((e : Error) × (err ≡ some e) × (s'.db ≡ s.db))
          ⊎ ((err ≡ none) × (rev ≡ lawful.revision s'.db) × (s'.current_rev ≡ rev)))

  pub from_eq :
      {A : Type 0} (s s' : SqlLog D) (r : A × SqlLog D) (a : A)
      → r ≡ (a, s')
      → s'.db ≡ s.db
      → Fresh s'
      → Answered s r a
  from_eq s s' r a e same f = subst (λ x. Answered s x a) (sym e) (refl, same, f)

module _ {D : Type 0} (d : Dialect D) (lawful : LawfulDialect d) (manual : Bool)
    (iterate : ℕ → ℕ → D → (ℕ × ℕ) × D) where
  pub current_lem :
      (s : SqlLog D)
      → Fresh d lawful s
      → current_revision d (λ n. n) manual iterate s
        ≡ ((lawful.revision s.db, none), record s { current_rev = lawful.revision s.db })
  current_lem s f = elim (Bool-cases (s.current_rev == 0)) [
    | inl unknown ↦ rw (unknown, lawful.reads_revision s.db, unknown) refl
    | inr known ↦ rw known (ap (λ n. ((n, none), record s { current_rev = n })) (cached known f))
  ]
    where
      cached :
          (s.current_rev == 0) ≡ false → Fresh d lawful s → s.current_rev ≡ lawful.revision s.db
      cached known (inl z) = absurd (ground (arith, known, z))
      cached known (inr e) = e
