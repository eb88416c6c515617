-- ===== src/Sqllog/Gaps.antt =====
-- Two rounds of the poll loop of pkg/logstructured/sqllog/sql.go at a missing revision.
use kine.Prelude.{
  ℕ, suc, ◌+◌, ◌≡◌, refl, ap, sym, ◌∙◌, inl, inr, Bool, false, ◌||◌, none, List, [], ◌∷◌, Bytes,
  ◌==◌, if◌then◌else◌, length, arith, Bool-cases, ==_iff,
}
use kine.Types.{Event}
use kine.Logstructured.Store.{mod_of}
use kine.Sqllog.Poll.{Poll, retry, fill, poll_loop, poll_round, skip_after}
use kine.Sqllog.Consecutive.{
  consecutive, behind, gap_at, is_some, poll_loop-eq-spec_loop, impatient,
}

abbrev head_mod : List Event → ℕ
head_mod [] = 0
head_mod (e ∷ events) = mod_of e

-- Nothing more follows at the gap.
consecutive-behind :
    (rev : ℕ) (events : List Event) (e : Event) (left : List Event)
    → behind rev events ≡ e ∷ left
    → (mod_of e == rev + length (consecutive rev events) + 1) ≡ false
consecutive-behind rev [] e left h = absurd (ground (arith, h))
consecutive-behind rev (x ∷ events) e left h = elim (Bool-cases (mod_of x == rev + 1)) [
  | inl follows ↦
      let next : mod_of x ≡ rev + 1 = (==_iff (mod_of x) (rev + 1)).0 follows in
      let h' : behind (mod_of x) events ≡ e ∷ left = rw follows at h in
      let ih = consecutive-behind (mod_of x) events e left h' in
      let n = length (consecutive (mod_of x) events) in
      let far : mod_of x + n + 1 ≡ rev + suc n + 1 = omega (arith, next) in
      rw follows (ap (λ k. mod_of e == k) (sym far) ∙ ih)
  | inr gap ↦
      let h' : x ∷ events ≡ e ∷ left = rw gap at h in
      let still : rev + 0 + 1 ≡ rev + 1 = omega arith in
      rw gap (ap (λ k. mod_of e == k) still ∙ ap (λ k. k == rev + 1) (sym (ap head_mod h')) ∙ gap)
]

abbrev pub reached : Poll → List Event → ℕ
reached p events = p.poll_revision + length (consecutive p.poll_revision events)

reached-if :
    (n : ℕ) (xs : List Event) → (if false || is_some xs then n + length xs else n) ≡ n + length xs
reached-if n [] = omega arith
reached-if n (x ∷ xs) = refl

poll_round-reached :
    (is_fill : Bytes → Bool) (events : List Event) (p : Poll)
    → (poll_round is_fill false events p).1 ≡ record {
      poll_revision = reached p events;
      skip = skip_after p.skip (gap_at p.skip (reached p events) (behind p.poll_revision events));
    }
unfolding poll_round
poll_round-reached is_fill events p =
    rw (poll_loop-eq-spec_loop is_fill p.skip events p.poll_revision false) (λ i. record {
      poll_revision = reached-if p.poll_revision (consecutive p.poll_revision events) i;
      skip = skip_after p.skip (gap_at p.skip (reached p events) (behind p.poll_revision events));
    })

-- The round after one that has just met the gap.
poll_round-known :
    (is_fill : Bytes → Bool) (rev : ℕ) (e : Event) (left : List Event)
    → (mod_of e == rev + 1) ≡ false
    → poll_round is_fill false (e ∷ left) (record { poll_revision = rev; skip = rev + 1 })
      ≡ ((none, fill (rev + 1)), record { poll_revision = rev; skip = rev + 1 })
unfolding poll_round poll_loop
poll_round-known is_fill rev e left gap =
    rw (gap, impatient (rev + 1) (rev + 1), (==_iff (rev + 1) (rev + 1)).1 refl) refl

-- If a round of the poll loop stops in front of a revision that is missing and was not noted
-- before, it asks for a retry; the next round, if it still finds the rows behind the gap and less
-- than a second has passed, sends nothing, stays where it is, and writes the fill row for the
-- missing revision.
pub poll_round-fill :
    (is_fill : Bytes → Bool) (events : List Event) (p : Poll) (e : Event) (left : List Event)
    → behind p.poll_revision events ≡ e ∷ left
    → (p.skip == reached p events + 1) ≡ false
    → ((poll_round is_fill false events p).0.1 ≡ retry (reached p events + 1))
      × (poll_round is_fill false (e ∷ left) (poll_round is_fill false events p).1 ≡ (
        (none, fill (reached p events + 1)),
        record { poll_revision = reached p events; skip = reached p events + 1 },
      ))
unfolding poll_round
poll_round-fill is_fill events p e left h new =
    let n = reached p events in
    let gap : gap_at p.skip n (behind p.poll_revision events) ≡ retry (n + 1) =
      ap (gap_at p.skip n) h ∙ rw new refl in
    (
      ap (λ o. o.gap) (poll_loop-eq-spec_loop is_fill p.skip events p.poll_revision false) ∙ gap,
      ap (poll_round is_fill false (e ∷ left)) (
            poll_round-reached is_fill events p
            ∙ ap (λ g. record { poll_revision = n; skip = skip_after p.skip g }) gap)
          ∙ poll_round-known is_fill n e left (consecutive-behind p.poll_revision events e left h),
    )
