-- ===== src/Server/RangeListing.antt =====
-- Range of pkg/server/kv.go over the in-memory backend: pages of a range, with the number of all its
-- keys.
use mathlib.Core.Path.{fun_ext}
use kine.Prelude.{
  ℕ, ◌≤◌, ◌<◌, ◌≡◌, refl, ap, sym, ◌∙◌, inl, inr, Bool, true, false, Option, none, some, List, [],
  Bytes, ◌==◌, if◌then◌else◌, ltb, arith, Bool-cases, if_cases, length,
}
use kine.Types.{KeyValue, Error, future_rev, compacted}
use kine.Memory.Tree.{OrderedMap}
use kine.Memory.Entry.{Entry}
use kine.Memory.State.{Memory}
use kine.Memory.Invariant.{Inv}
use kine.Memory.Ordered.{collect}
use kine.Memory.Range.{ranged}
use kine.Memory.Reads
use kine.Memory.Listing.{shown, shown_kv, limited, listing, answer, list-eq-answer}
use kine.Memory.Lookup.{read-current}
use kine.Server.Request.{RangeRequest, ok, fail}
use kine.Server.Backend.{memory_backend}
use kine.Server.Range.{RangeResponse, refused, range_reply, list_more, list, limited_range, range}
use kine.Server.Pages.{
  page, answer_page, asked, has_more, has_more-asked, take-asked, asked-short, collect-size,
  shown_kv-size, ranged-size, counted, counted-answer,
}

module _ (bt : OrderedMap (List Entry)) where
  -- Without their values, and at the current revision instead of none, as many are listed.
  listing-size :
      (key end : Bytes) (revision : ℕ) (keys_only : Bool) (m : Memory bt)
      → length (listing bt key end 0 revision true m)
        ≡ length (listing bt key end 0 revision keys_only m)
  listing-size key end revision keys_only m =
      collect-size (ranged key end (shown bt m revision true))
        (ranged key end (shown bt m revision keys_only)) (bt.scan m.keys)
        (λ k.
          ranged-size key end (shown bt m revision true) (shown bt m revision keys_only) k
            (shown_kv-size true keys_only (Reads.read bt m k revision)))

  listing-current :
      (n : ℕ) (key end : Bytes) (keys_only : Bool) (m : Memory bt)
      → Inv bt n m
      → listing bt key end 0 m.current_revision keys_only m ≡ listing bt key end 0 0 keys_only m
  listing-current n key end keys_only m v =
      ap (λ f. collect (ranged key end f) (bt.scan m.keys))
        (fun_ext (λ k. ap (shown_kv keys_only) (read-current bt n m k v)))

  count-listing :
      (key end : Bytes) (revision : ℕ) (m : Memory bt)
      → revision ≤ m.current_revision
      → (0 < revision → m.compact_revision ≤ revision)
      → Reads.count bt key end revision m ≡ (
        if ltb 0 revision then revision else m.current_revision,
        length (listing bt key end 0 revision true m),
        none,
      )
  unfolding Reads.count counted
  count-listing key end revision m le c =
      ap counted (list-eq-answer bt key end 0 revision true m)
      ∙ counted-answer revision m.current_revision m.compact_revision
          (listing bt key end 0 revision true m) le c

  list_more-page :
      (r : RangeRequest) (m : Memory bt) (rev : ℕ) (kvs : List KeyValue)
      → Reads.count bt r.key r.range_end (if r.revision == 0 then rev else r.revision) m
        ≡ (rev, length kvs, none)
      → range_reply
          (list_more (memory_backend bt) r ((rev, limited (asked r.limit) kvs, none), m)).0
        ≡ ok (page r.limit rev kvs)
  list_more-page r m rev kvs h = elim (Bool-cases (has_more r.limit kvs)) [
    | inl more ↦
        let some_more = has_more-asked r.limit kvs ∙ more in
        rw (some_more, more, h, take-asked r.limit kvs more) refl
    | inr short ↦
        let no_more = has_more-asked r.limit kvs ∙ short in
        let (e, e') = asked-short r.limit kvs short in rw (no_more, short, e, e') refl
  ]

  list_more-fail :
      (r : RangeRequest) (m : Memory bt) (rev : ℕ) (e : Error)
      → range_reply (list_more (memory_backend bt) r ((rev, [], some e), m)).0 ≡ fail e
  list_more-fail r m rev e =
      let none_more : has_more r.limit [] ≡ false = ground arith in rw none_more refl

  list_more-state :
      (r : RangeRequest) (m : Memory bt) (rev : ℕ) (kvs : List KeyValue) (err : Option Error)
      → (list_more (memory_backend bt) r ((rev, kvs, err), m)).1 ≡ m
  list_more-state r m rev kvs err =
      if_cases {A = (Option RangeResponse × Option Error) × Memory bt} (λ p. p.1 ≡ m)
        (has_more r.limit kvs) _ _ (λ _. refl) (λ _. refl)

  -- the number of keys at the revision that the page is of
  count-zero :
      (n : ℕ) (key end : Bytes) (keys_only : Bool) (m : Memory bt)
      → Inv bt n m
      → Reads.count bt key end m.current_revision m
        ≡ (m.current_revision, length (listing bt key end 0 0 keys_only m), none)
  count-zero n key end keys_only m v =
      count-listing key end m.current_revision m (omega arith) (λ _. v.compact_at)
      ∙ ap (λ rev. (rev, length (listing bt key end 0 m.current_revision true m), none))
          (ground arith)
      ∙ ap (λ l. (m.current_revision, l, none))
          (listing-size key end m.current_revision keys_only m
            ∙ ap length (listing-current n key end keys_only m v))

  count-kept :
      (key end : Bytes) (revision : ℕ) (keys_only : Bool) (m : Memory bt)
      → ltb 0 revision ≡ true
      → revision ≤ m.current_revision
      → m.compact_revision ≤ revision
      → Reads.count bt key end revision m
        ≡ (revision, length (listing bt key end 0 revision keys_only m), none)
  count-kept key end revision keys_only m pos le c =
      count-listing key end revision m le (λ _. c)
      ∙ ap (λ rev. (rev, length (listing bt key end 0 revision true m), none)) (rw pos refl)
      ∙ ap (λ l. (revision, l, none)) (listing-size key end revision keys_only m)

  -- the answer of the backend, by the outcomes of the revision
  answered_page :
      (n : ℕ) (r : RangeRequest) (m : Memory bt) (full : List KeyValue)
      → Inv bt n m
      → full ≡ listing bt r.key r.range_end 0 r.revision r.keys_only m
      → range_reply
          (list_more (memory_backend bt) r (
            answer r.revision m.current_revision m.compact_revision (limited (asked r.limit) full),
            m,
          )).0
        ≡ answer_page r.limit r.revision m.current_revision m.compact_revision full
  answered_page n r m full v e = elim (Bool-cases (ltb 0 r.revision)) [
    | inr nowhere ↦
        let z : r.revision ≡ 0 = ground (arith, nowhere) in
        let zb : (r.revision == 0) ≡ true = ground (arith, nowhere) in
        rw nowhere (
          list_more-page r m m.current_revision full (
            rw zb (
              count-zero n r.key r.range_end r.keys_only m v
              ∙ ap (λ l. (m.current_revision, length l, none))
                  (ap (λ rev. listing bt r.key r.range_end 0 rev r.keys_only m) (sym z) ∙ sym e))))
    | inl pos ↦ rw pos (elim (Bool-cases (ltb m.current_revision r.revision)) [
      | inl future ↦ rw future (list_more-fail r m m.current_revision future_rev)
      | inr past ↦ rw past (elim (Bool-cases (ltb r.revision m.compact_revision)) [
        | inl old ↦ rw old (list_more-fail r m m.current_revision compacted)
        | inr kept ↦
            let nz : (r.revision == 0) ≡ false = ground (arith, pos) in
            rw kept (
              list_more-page r m r.revision full (
                rw nz (
                  count-kept r.key r.range_end r.revision r.keys_only m pos (ground (arith, past))
                    (ground (arith, kept))
                  ∙ ap (λ l. (r.revision, length l, none)) (sym e))))
      ])
    ])
  ]

  -- In a state of the in-memory backend with the invariant, a range request with a range end that
  -- is neither refused nor only for the count is answered with the error of its revision, or with
  -- the first `limit` KeyValues of the listing at the revision (all for 0), `More` exactly if
  -- there are more, `Count` the number of all of them, and the revision as header; the state
  -- stays.
  pub range-list :
      (n : ℕ) (r : RangeRequest) (m : Memory bt)
      → Inv bt n m
      → refused r ≡ none
      → (length r.range_end == 0) ≡ false
      → r.count_only ≡ false
      → range (memory_backend bt) r m ≡ (
        answer_page r.limit r.revision m.current_revision m.compact_revision
            (listing bt r.key r.range_end 0 r.revision r.keys_only m),
        m,
      )
  unfolding range limited_range list
  range-list n r m v nr ne nc =
      let full = listing bt r.key r.range_end 0 r.revision r.keys_only m in
      let got =
        answer r.revision m.current_revision m.compact_revision (limited (asked r.limit) full) in
      rw (nr, ne, nc, list-eq-answer bt r.key r.range_end (asked r.limit) r.revision r.keys_only m)
        (λ i. (answered_page n r m full v refl i, list_more-state r m got.0 got.1 got.2 i))
