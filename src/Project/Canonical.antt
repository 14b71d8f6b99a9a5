-- ===== src/Project/Canonical.antt =====
-- Which record `reconcile_root_records` of src/service/project.rs keeps.
use mercury_cortex_core.Common.Integers.{le_int, le_int_total, le_int_trans}
use mercury_cortex_core.Common.{
  subst, ap, suc, ◌≡◌, refl, ◌⊎◌, inl, inr, Bool, true, false, ◌&&◌, List, [], ◌∷◌, Option, none,
  some, arith, length, all, any, Bool-cases,
}
use mercury_cortex_core.Text.{Text}
use mercury_cortex_core.Records.{Values}
use mercury_cortex_core.Project.Reconcile.{
  record_updated_at, has_id, take_id, place_record, sort_records, pick_newest, canonical,
}

module _ {V : Type 0} (values : Values V) where
  -- No record of the list is newer.
  abbrev pub newest : V → List V → Bool
  newest c others =
      all (λ r. le_int (record_updated_at values r) (record_updated_at values c)) others

  -- The records are the one that is kept and the others.
  pub record Split (rs : List V) (c : V) (others : List V) : Type 0 where
    pub same : (p : V → Bool) → all p rs ≡ (p c && all p others)
    pub count : length rs ≡ suc (length others)

  all-place_record :
      (p : V → Bool) (r : V) (rs : List V) → all p (place_record values r rs) ≡ (p r && all p rs)
  unfolding place_record
  all-place_record p r [] = refl
  all-place_record p r (s ∷ rs) = ground (arith, all-place_record p r rs)

  length-place_record : (r : V) (rs : List V) → length (place_record values r rs) ≡ suc (length rs)
  unfolding place_record
  length-place_record r [] = refl
  length-place_record r (s ∷ rs) = ground (arith, length-place_record r rs)

  all-sort_records : (p : V → Bool) (rs : List V) → all p (sort_records values rs) ≡ all p rs
  unfolding sort_records
  all-sort_records p [] = refl
  all-sort_records p (r ∷ rs) =
      ground (arith, all-place_record p r (sort_records values rs), all-sort_records p rs)

  length-sort_records : (rs : List V) → length (sort_records values rs) ≡ length rs
  unfolding sort_records
  length-sort_records [] = refl
  length-sort_records (r ∷ rs) =
      ground (arith, length-place_record r (sort_records values rs), length-sort_records rs)

  -- The head of the sorted list.
  pub HeadNewest : List V → Type 0
  HeadNewest [] = Unit
  HeadNewest (c ∷ others) = newest c others ≡ true

  newest-le :
      (c d : V) (rs : List V)
      → le_int (record_updated_at values c) (record_updated_at values d) ≡ true
      → newest c rs ≡ true
      → newest d rs ≡ true
  newest-le c d [] h n = refl
  newest-le c d (r ∷ rs) h n = ground (
    arith,
    newest-le c d rs,
    le_int_trans (record_updated_at values r) (record_updated_at values c)
        (record_updated_at values d),
  )

  place_record-HeadNewest :
      (r : V) (rs : List V) → HeadNewest rs → HeadNewest (place_record values r rs)
  unfolding place_record HeadNewest
  place_record-HeadNewest r [] h = refl
  place_record-HeadNewest r (s ∷ rs) h = ground (
    arith,
    newest-le s r rs,
    le_int_total (record_updated_at values s) (record_updated_at values r),
    all-place_record (λ x. le_int (record_updated_at values x) (record_updated_at values s)) r rs,
  )

  sort_records-HeadNewest : (rs : List V) → HeadNewest (sort_records values rs)
  unfolding sort_records HeadNewest
  sort_records-HeadNewest [] = tt
  sort_records-HeadNewest (r ∷ rs) =
      place_record-HeadNewest r (sort_records values rs) (sort_records-HeadNewest rs)

  pick_newest-Split :
      (r : V) (rs : List V)
      → (c : V) × (others : List V) × (pick_newest values (r ∷ rs) ≡ some (c, others))
        × (Split (r ∷ rs) c others × (newest c others ≡ true))
  unfolding pick_newest HeadNewest
  pick_newest-Split r rs = picked (sort_records values (r ∷ rs)) refl
    where
      picked :
          (sorted : List V)
          → sort_records values (r ∷ rs) ≡ sorted
          → (c : V) × (others : List V) × (pick_newest values (r ∷ rs) ≡ some (c, others))
            × (Split (r ∷ rs) c others × (newest c others ≡ true))
      picked [] e = absurd (ground (arith, length-sort_records (r ∷ rs)))
      picked (c ∷ others) e = (
        c,
        others,
        rw (pick_newest, e),
        (
          record {
            same = λ p. ground (arith, all-sort_records p (r ∷ rs));
            count = ground (arith, length-sort_records (r ∷ rs));
          },
          subst HeadNewest e (sort_records-HeadNewest (r ∷ rs)),
        ),
      )

  -- The first record with the id, if there is one.
  take_id-Split :
      (pid : Text) (rs : List V)
      → ((c : V) × (others : List V) × (take_id values pid rs ≡ some (c, others))
          × (Split rs c others × (has_id values pid c ≡ true)))
        ⊎ ((take_id values pid rs ≡ none) × (any (has_id values pid) rs ≡ false))
  unfolding take_id
  take_id-Split pid [] = inr (refl, refl)
  take_id-Split pid (r ∷ rs) = elim (Bool-cases (has_id values pid r)) [
    | inl h ↦ inl (r, rs, rw (take_id, h), (record { same = λ p. refl; count = refl }, h))
    | inr h ↦ elim (take_id-Split pid rs) [
      | inl (c, others, e, (s, g)) ↦ inl (
        c,
        r ∷ others,
        rw (take_id, h, e),
        (record { same = λ p. ground (arith, s.same p); count = ap suc s.count }, g),
      )
      | inr (e, g) ↦ inr (rw (take_id, h, e), rw (h, g))
    ]
  ]

  -- Of one or more records at a root path one is kept, and the others are those that are left. It has
  -- the id of the config, or no record has that id and no other record is newer.
  pub canonical-Split :
      (pid : Option Text) (r : V) (rs : List V)
      → (c : V) × (others : List V) × (canonical values pid (r ∷ rs) ≡ some (c, others))
        × (Split (r ∷ rs) c others
            × (((i : Text) × (pid ≡ some i) × (has_id values i c ≡ true))
                ⊎ (((i : Text) → pid ≡ some i → any (has_id values i) (r ∷ rs) ≡ false)
                    × (newest c others ≡ true))))
  unfolding canonical
  canonical-Split none r rs =
      let (c, others, e, (s, n)) = pick_newest-Split r rs in
      (c, others, e, (s, inr ((λ i h. cc h), n)))
  canonical-Split (some pid) r rs = elim (take_id-Split pid (r ∷ rs)) [
    | inl (c, others, e, (s, g)) ↦ (c, others, rw (canonical, e), (s, inl (pid, refl, g)))
    | inr (e, g) ↦
        let (c, others, e', (s, n)) = pick_newest-Split r rs in
        (c, others, rw (canonical, e, e'), (s, inr ((λ i h. cc (h, g)), n)))
  ]
