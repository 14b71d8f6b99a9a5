-- ===== src/Cache/Refinement.antt =====
-- Every operation of cache.rs keeps the invariant, panics never, and does on the view what a list of
-- entries in the order of use does.
use mercury_cortex_core.Common.{
  ℕ, ◌-◌, ◌<◌, ◌≡◌, refl, sym, ◌∙◌, ap, ap₂, true, false, List, ◌∷◌, Option, none, some, arith,
  length, take_of_length-le, take-cons, if◌then◌else◌, take, Bool-cases, Option-cases, inl, inr,
  leb, le_of_leb, lt_of_not_leb,
}
use mercury_cortex_core.Common.Maps.{
  lookup, contains_key, insert, remove, Unique, lookup-insert, lookup-remove, length-insert,
  length-remove, Unique-insert, Unique-remove,
}
use mercury_cortex_core.Text.{Text, text_eq, text_eq_iff}
use mercury_cortex_core.Cache.{FileEntry, FileMap, LruCache, get, put, make_room, new}
use mercury_cortex_core.Cache.Order.{
  mem, without, move_to_front-mem, mem-without_ne, mem-without_self, Distinct-without,
  length-without, Popped, nonempty-Popped,
}
use mercury_cortex_core.Cache.View.{
  Inv, Items, view, drop_key, entries, entries-without, entries-insert_absent,
  entries-remove_absent, entries-take, length-view, length-entries, find, touch, store,
  find-entries, drop_key_absent,
}

pub new-Inv : (cap : ℕ) → 0 < cap → Inv (new cap)
unfolding new lookup mem
new-Inv cap h = record {
  positive = h;
  bounded = omega arith;
  sized = refl;
  unique = tt;
  distinct = tt;
  same = λ k. refl;
}

reorder-same :
    (k j : Text) (order : List Text)
    → mem k order ≡ true
    → mem j (k ∷ without k order) ≡ mem j order
unfolding mem
reorder-same k j order h = elim (Bool-cases (text_eq k j)) [
  | inl e ↦ ground (arith, text_eq_iff k j)
  | inr n ↦ ground (arith, mem-without_ne j k order n)
]

-- A key that is present moves to the front.
module _ (k : Text) (c : LruCache) (i : Inv c) (h : mem k c.order ≡ true) where
  Inv-reorder :
      (m : FileMap)
      → length m ≡ length c.map
      → Unique text_eq text_eq_iff m
      → ((j : Text) → contains_key text_eq j m ≡ contains_key text_eq j c.map)
      → Inv (record c { map = m; order = k ∷ without k c.order })
  Inv-reorder m sized unique same = record {
    positive = i.positive;
    bounded = omega (arith, i.bounded, length-without k c.order i.distinct h);
    sized = omega (arith, i.sized, length-without k c.order i.distinct h);
    unique = unique;
    distinct = (mem-without_self k c.order, Distinct-without k c.order i.distinct);
    same = λ j. same j ∙ i.same j ∙ sym (reorder-same k j c.order h);
  }

-- What `make_room` leaves is a valid cache with a free place, the oldest entry gone if it was full.
record Roomy (c c' : LruCache) : Type 0 where
  valid : Inv c'
  room : length c'.order < c.capacity
  kept : view c' ≡ take (c.capacity - 1) (view c)
  capacity : c'.capacity ≡ c.capacity
  fewer : (j : Text) → mem j c.order ≡ false → mem j c'.order ≡ false

after_room : LruCache → LruCache
after_room c = record c { map = (make_room c).0; order = (make_room c).1 }

-- The full cache loses the entry that `pop_back` names.
module _ (c : LruCache) (i : Inv c) (last : Text) (rest : List Text) (p : Popped c.order last rest)
    (full : length c.order ≡ c.capacity) where
  smaller : LruCache
  smaller = record c { map = remove text_eq last c.map; order = rest }

  last-mem : mem last c.order ≡ true
  last-mem = ground (arith, p.members last, text_eq_iff last last)

  same-smaller : (j : Text) → contains_key text_eq j (remove text_eq last c.map) ≡ mem j rest
  same-smaller j = elim (Bool-cases (text_eq last j)) [
    | inl e ↦ ground (
      arith,
      lookup-remove text_eq text_eq_iff last j c.map,
      (p.distinct i.distinct).1,
      text_eq_iff last j,
    )
    | inr n ↦ ground (arith, lookup-remove text_eq text_eq_iff last j c.map, i.same j, p.members j)
  ]

  sized-smaller : length (remove text_eq last c.map) ≡ length rest
  sized-smaller = ground (
    arith,
    i.same last,
    last-mem,
    length-remove text_eq text_eq_iff last c.map i.unique,
    i.sized,
    p.count,
  )

  view-smaller : view smaller ≡ take (c.capacity - 1) (view c)
  unfolding view smaller
  view-smaller =
      entries-remove_absent last c.map rest (p.distinct i.distinct).1
      ∙ ap (entries c.map) p.prefix
      ∙ entries-take (length c.order - 1) c.map c.order
      ∙ ap (λ n. take (n - 1) (entries c.map c.order)) full

  Roomy-smaller : Roomy c smaller
  unfolding smaller
  Roomy-smaller = record {
    valid = record {
      positive = i.positive;
      bounded = omega (arith, i.bounded, p.count);
      sized = sized-smaller;
      unique = Unique-remove text_eq text_eq_iff last c.map i.unique;
      distinct = (p.distinct i.distinct).0;
      same = same-smaller;
    };
    room = omega (arith, p.count, full);
    kept = unfold smaller in view-smaller;
    capacity = refl;
    fewer = λ j h. ground (arith, p.members j);
  }

after_room-Roomy : (c : LruCache) → Inv c → Roomy c (after_room c)
unfolding after_room make_room
after_room-Roomy c i = elim (Bool-cases (leb c.capacity (length c.map))) [
  | inl full ↦
      let (last, rest, p) =
        nonempty-Popped c.order (
          omega
            (arith, i.positive, i.bounded, i.sized, le_of_leb c.capacity (length c.map) full)) in
      rw (full, p.popped)
        (unfold smaller in
          Roomy-smaller c i last rest p
            (omega (arith, i.bounded, i.sized, le_of_leb c.capacity (length c.map) full)))
  | inr space ↦ rw space (record {
    valid = i;
    room = ground (arith, i.sized);
    kept = sym (
        take_of_length-le (c.capacity - 1) (view c)
          (omega (arith, length-view c, i.sized, lt_of_not_leb c.capacity (length c.map) space)));
    capacity = refl;
    fewer = λ j h. h;
  })
]

-- What an operation that does not panic leaves: a valid cache of the same capacity with that view.
pub record Leaves (c c' : LruCache) (spec : Items) : Type 0 where
  pub valid : Inv c'
  pub capacity : c'.capacity ≡ c.capacity
  pub items : view c' ≡ spec

-- The new entry goes in front of a cache with a free place.
Leaves-add :
    (k : Text) (v : FileEntry) (c c' : LruCache)
    → Inv c
    → mem k c.order ≡ false
    → Roomy c c'
    → Leaves c
        (record c' { map = insert text_eq k v c'.map; order = k ∷ c'.order })
        (store c.capacity k v (view c))
unfolding view store
Leaves-add k v c c' i absent r = record {
  valid = record {
    positive = omega (arith, i.positive, r.capacity);
    bounded = omega (arith, r.room, r.capacity);
    sized = ground (
      arith,
      length-insert text_eq text_eq_iff k v c'.map,
      r.valid.same k,
      r.fewer k absent,
      r.valid.sized,
    );
    unique = Unique-insert text_eq text_eq_iff k v c'.map r.valid.unique;
    distinct = (r.fewer k absent, r.valid.distinct);
    same = λ j.
        unfold mem in
        ground (arith, lookup-insert text_eq text_eq_iff k j v c'.map, r.valid.same j);
  };
  capacity = r.capacity;
  items =
      ap₂ (λ (x : Option FileEntry) (xs : Items). (k, x) ∷ xs)
        (ground (arith, lookup-insert text_eq text_eq_iff k k v c'.map, text_eq_iff k k))
        (entries-insert_absent k v c'.map c'.order (r.fewer k absent) ∙ r.kept)
      ∙ sym (take-cons c.capacity (k, some v) (view c) i.positive)
      ∙ ap (λ xs. take c.capacity ((k, some v) ∷ xs))
          (sym (drop_key_absent k c.map c.order absent));
}

put-hit :
    (k : Text) (v : FileEntry) (c : LruCache)
    → Inv c
    → mem k c.order ≡ true
    → Leaves c
        (record c { map = insert text_eq k v c.map; order = k ∷ without k c.order })
        (store c.capacity k v (view c))
unfolding view store entries
put-hit k v c i h = record {
  valid =
      Inv-reorder k c i h (insert text_eq k v c.map)
        (ground (arith, length-insert text_eq text_eq_iff k v c.map, i.same k))
        (Unique-insert text_eq text_eq_iff k v c.map i.unique)
        (λ j.
          ground (arith, lookup-insert text_eq text_eq_iff k j v c.map, i.same k, text_eq_iff k j));
  capacity = refl;
  items =
      ap₂ (λ (x : Option FileEntry) (xs : Items). (k, x) ∷ xs)
        (ground (arith, lookup-insert text_eq text_eq_iff k k v c.map, text_eq_iff k k))
        (entries-insert_absent k v c.map (without k c.order) (mem-without_self k c.order)
          ∙ entries-without k c.map c.order)
      ∙ sym (
          take_of_length-le c.capacity ((k, some v) ∷ drop_key k (entries c.map c.order)) (
            omega (
              arith,
              i.bounded,
              i.sized,
              length-without k c.order i.distinct h,
              ap length (entries-without k c.map c.order),
              length-entries c.map (without k c.order),
            )));
}

-- `put` never panics. It keeps the invariant and the capacity, and on the view it stores the entry
-- in front, in place of an older one for the key, and keeps the entries that fit.
pub put-Leaves :
    (k : Text) (v : FileEntry) (c : LruCache)
    → Inv c
    → (c' : LruCache) × (put k v c ≡ some c') × Leaves c c' (store c.capacity k v (view c))
unfolding put after_room
put-Leaves k v c i = elim (Bool-cases (mem k c.order)) [
  | inl h ↦ (
    record c { map = insert text_eq k v c.map; order = k ∷ without k c.order },
    ground (arith, i.same k, move_to_front-mem k c.order i.distinct h),
    put-hit k v c i h,
  )
  | inr h ↦ (
    record (after_room c) {
      map = insert text_eq k v (after_room c).map;
      order = k ∷ (after_room c).order;
    },
    ground (arith, i.same k),
    Leaves-add k v c (after_room c) i h (after_room-Roomy c i),
  )
]

get-hit :
    (k : Text) (v : FileEntry) (c : LruCache)
    → Inv c
    → mem k c.order ≡ true
    → lookup text_eq k c.map ≡ some v
    → Leaves c (record c { order = k ∷ without k c.order }) ((k, some v) ∷ drop_key k (view c))
unfolding view entries
get-hit k v c i h e = record {
  valid = Inv-reorder k c i h c.map refl i.unique (λ j. refl);
  capacity = refl;
  items =
      ap₂ (λ (x : Option FileEntry) (xs : Items). (k, x) ∷ xs) e (entries-without k c.map c.order);
}

find-view :
    (k : Text) (c : LruCache)
    → find k (view c) ≡ (if mem k c.order then lookup text_eq k c.map else none)
unfolding view
find-view k c = find-entries k c.map c.order

-- `get` never panics. It keeps the invariant and the capacity, returns what the view holds for the
-- key, and moves the entry that it finds to the front of the view.
pub get-Leaves :
    (k : Text) (c : LruCache)
    → Inv c
    → (c' : LruCache) × (get k c ≡ some (c', find k (view c))) × Leaves c c' (touch k (view c))
unfolding get touch
get-Leaves k c i = elim (Option-cases (lookup text_eq k c.map)) [
  | inl e ↦
      let miss : find k (view c) ≡ none = ground (arith, find-view k c, i.same k) in
      (c, ground arith, rw (miss, touch) (record { valid = i; capacity = refl; items = refl }))
  | inr (v, e) ↦
      let h : mem k c.order ≡ true = ground (arith, i.same k) in
      let hit : find k (view c) ≡ some v = ground (arith, find-view k c) in
      (
        record c { order = k ∷ without k c.order },
        ground (arith, move_to_front-mem k c.order i.distinct h),
        rw (hit, touch) (get-hit k v c i h e),
      )
]
