-- ===== src/Logstructured/Watch.antt =====
-- Watch of pkg/logstructured/logstructured.go: the events that were there, and then those that the
-- channel of the log brings.
use kine.Prelude.{
  ℕ, ◌-◌, ◌≤◌, ◌<◌, ◌≡◌, refl, ap, sym, inl, inr, true, false, Option, none, some, List, [], ◌∷◌,
  ◌++◌, Bytes, ltb, leb, if◌then◌else◌, arith, Bool-cases, All, select, map,
}
use kine.Types.{Event, Error, compacted, canceled, unhealthy}
use kine.Logstructured.Log.{Log}
use kine.Logstructured.Store.{mod_of, filter}

-- What `Watch` returns, and what its goroutine starts with.
pub record Watching : Type 0 where
  pub current_revision : ℕ
  pub compact_revision : ℕ
  pub error : Option Error
  pub first : List Event
  pub last_revision : ℕ

-- `if revision > 1 { revision-- }`
abbrev pub watch_from : ℕ → ℕ
watch_from revision = if ltb 1 revision then revision - 1 else revision

abbrev pub last_of_first : ℕ → ℕ → List Event → ℕ
last_of_first revision rev [] = revision
last_of_first revision rev (e ∷ kvs) = rev

abbrev pub watching : ℕ → ℕ → List Event → ℕ → ℕ → Option Error → Watching
watching revision rev kvs current compact err = record {
  current_revision = current;
  compact_revision = compact;
  error = err;
  first = kvs;
  last_revision = last_of_first revision rev kvs;
}

module _ {S : Type 0} (log : Log S) where
  -- after the call of `After` with `revision`
  abbrev pub watch_after : ℕ → (ℕ × List Event × Option Error) × S → Watching × S
  watch_after revision ((rev, kvs, none), s) = (watching revision rev kvs 0 0 none, s)
  watch_after revision ((rev, kvs, some canceled), s) = (watching revision rev kvs 0 0 none, s)
  watch_after revision ((rev, kvs, some compacted), s) =
      let ((compact, _), s') = log.compact_revision s in
      (watching revision rev kvs rev compact none, s')
  watch_after revision ((rev, kvs, some e), s) = (watching revision rev kvs 0 0 (some unhealthy), s)

  unfoldable pub watch : Bytes → Bytes → ℕ → S → Watching × S
  watch key end revision s =
      let revision' = watch_from revision in watch_after revision' (log.after key end revision' 0 s)

abbrev filtered : ℕ → List (List Event) → List (List Event)
filtered rev batches = map (λ events. filter events rev) batches

-- `if len(kvs) > 0 { result <- kvs }`
abbrev pub with_first : List Event → List (List Event) → List (List Event)
with_first [] rest = rest
with_first (e ∷ kvs) rest = (e ∷ kvs) ∷ rest

-- What the goroutine sends, when the channel of the log brings `batches`.
unfoldable pub sent : Watching → List (List Event) → List (List Event)
sent w batches = with_first w.first (filtered w.last_revision batches)

abbrev pub concat {ℓ} : {A : Type ℓ} → List (List A) → List A
concat [] = []
concat (xs ∷ xss) = xs ++ concat xss

-- The mod revisions rise strictly from above `lo`.
abbrev pub Rising : ℕ → List Event → Type 0
Rising lo [] = Unit
Rising lo (e ∷ events) = (lo < mod_of e) × Rising (mod_of e) events

abbrev newer : ℕ → List Event → List Event
newer rev events = select (λ e. ltb rev (mod_of e)) events

Rising-lower : (lo lo' : ℕ) (events : List Event) → lo' ≤ lo → Rising lo events → Rising lo' events
Rising-lower lo lo' [] le r = tt
Rising-lower lo lo' (e ∷ events) le r = (omega (arith, le, r.0), r.1)

Rising-left : (lo : ℕ) (xs ys : List Event) → Rising lo (xs ++ ys) → Rising lo xs
Rising-left lo [] ys r = tt
Rising-left lo (e ∷ xs) ys r = (r.0, Rising-left (mod_of e) xs ys r.1)

Rising-right : (lo : ℕ) (xs ys : List Event) → Rising lo (xs ++ ys) → Rising lo ys
Rising-right lo [] ys r = r
Rising-right lo (e ∷ xs) ys r =
    Rising-lower (mod_of e) lo ys (omega (arith, r.0)) (Rising-right (mod_of e) xs ys r.1)

Rising-append :
    (lo hi : ℕ) (xs ys : List Event)
    → lo ≤ hi
    → Rising lo xs
    → All (λ e. mod_of e ≤ hi) xs
    → Rising hi ys
    → Rising lo (xs ++ ys)
Rising-append lo hi [] ys le r a s = Rising-lower hi lo ys le s
Rising-append lo hi (e ∷ xs) ys le r a s = (r.0, Rising-append (mod_of e) hi xs ys a.0 r.1 a.1 s)

newer-all :
    (rev lo : ℕ) (events : List Event) → rev ≤ lo → Rising lo events → newer rev events ≡ events
newer-all rev lo [] le r = refl
newer-all rev lo (e ∷ events) le r =
    let up : ltb rev (mod_of e) ≡ true = ground (arith, r.0, le) in
    rw up (ap (◌∷◌ e) (newer-all rev (mod_of e) events (omega (arith, r.0, le)) r.1))

filter-eq-newer :
    (rev lo : ℕ) (events : List Event) → Rising lo events → filter events rev ≡ newer rev events
unfolding filter
filter-eq-newer rev lo [] r = refl
filter-eq-newer rev lo (e ∷ events) r = elim (Bool-cases (leb (mod_of e) rev)) [
  | inl old ↦
      let not_up : ltb rev (mod_of e) ≡ false = ground (arith, old) in
      rw (old, not_up) (filter-eq-newer rev (mod_of e) events r.1)
  | inr new ↦
      let up : ltb rev (mod_of e) ≡ true = ground (arith, new) in
      rw (new, up) (ap (◌∷◌ e) (sym (newer-all rev (mod_of e) events (ground (arith, new)) r.1)))
]

Rising-newer : (rev lo : ℕ) (events : List Event) → Rising lo events → Rising rev (newer rev events)
Rising-newer rev lo [] r = tt
Rising-newer rev lo (e ∷ events) r = elim (Bool-cases (ltb rev (mod_of e))) [
  | inl up ↦
      rw (up, newer-all rev (mod_of e) events (ground (arith, up)) r.1) (ground (arith, up), r.1)
  | inr old ↦ rw old (Rising-newer rev (mod_of e) events r.1)
]

newer-append : (rev : ℕ) (xs ys : List Event) → newer rev (xs ++ ys) ≡ newer rev xs ++ newer rev ys
newer-append rev [] ys = refl
newer-append rev (e ∷ xs) ys = elim (Bool-cases (ltb rev (mod_of e))) [
  | inl up ↦ rw up (ap (◌∷◌ e) (newer-append rev xs ys))
  | inr old ↦ rw old (newer-append rev xs ys)
]

concat-filtered :
    (rev lo : ℕ) (batches : List (List Event))
    → Rising lo (concat batches)
    → concat (filtered rev batches) ≡ newer rev (concat batches)
concat-filtered rev lo [] r = refl
concat-filtered rev lo (events ∷ batches) r =
    rw
      (
        filter-eq-newer rev lo events (Rising-left lo events (concat batches) r),
        concat-filtered rev lo batches (Rising-right lo events (concat batches) r),
      )
      (sym (newer-append rev events (concat batches)))

with_first-Rising :
    (first : List Event) (rev : ℕ) (batches : List (List Event))
    → Rising 0 first
    → All (λ e. mod_of e ≤ rev) first
    → Rising 0 (concat batches)
    → Rising 0 (concat (with_first first (filtered rev batches)))
with_first-Rising [] rev batches f a r = rw (concat-filtered rev 0 batches r) (
    Rising-lower rev 0 (newer rev (concat batches)) (omega arith)
      (Rising-newer rev 0 (concat batches) r))
with_first-Rising (e ∷ kvs) rev batches f a r = rw (concat-filtered rev 0 batches r) (
    Rising-append 0 rev (e ∷ kvs) (newer rev (concat batches)) (omega arith) f a
      (Rising-newer rev 0 (concat batches) r))

-- If the events that `Watch` reads first rise strictly up to the last revision, and all events
-- that the channel of the log then brings rise strictly, then everything that the watch sends
-- rises strictly: no event comes twice or out of order, although the channel was opened before the
-- first read.
pub sent-Rising :
    (w : Watching) (batches : List (List Event))
    → Rising 0 w.first
    → All (λ e. mod_of e ≤ w.last_revision) w.first
    → Rising 0 (concat batches)
    → Rising 0 (concat (sent w batches))
unfolding sent
sent-Rising w batches f a r = with_first-Rising w.first w.last_revision batches f a r
