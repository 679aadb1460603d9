-- ===== src/Connector/Claims/Earliest.antt =====
-- ClaimNextOutboxItem takes the oldest eligible item.
use mathlib.Core.List.{Memᴰ}
use genesis.Prelude.{
  ℕ, zero, suc, ◌≤◌, String, ◌≡◌, refl, true, false, some, none, inl, inr, List, [], ◌∷◌, arith,
  All, ltb, Bool-cases, Option-cases,
}
use genesis.Prelude.Dict.{values, put}
use genesis.Connector.Types.{Time, Duration, ns, neg, ConnectorOutboxItem}
use genesis.Connector.Ids.{Host}
use genesis.Connector.Store.{OutboxStore, Io, or_clock, delivery_eligible}
use genesis.Connector.Claims.{
  claim_next_outbox_item, leased, insert_by_created, sort_by_created, first_eligible,
}

abbrev Items : Type 0
Items = List ConnectorOutboxItem

abbrev IsSorted : Items → Type 0
IsSorted [] = Unit
IsSorted (x ∷ xs) = All (λ y. x.created_at ≤ y.created_at) xs × IsSorted xs

module _ (P : ConnectorOutboxItem → Type 0) where
  All-insert :
      (x : ConnectorOutboxItem) (xs : Items) → P x → All P xs → All P (insert_by_created x xs)
  unfolding insert_by_created
  All-insert x [] p ps = (p, tt)
  All-insert x (y ∷ ys) p ps = elim (Bool-cases (ltb y.created_at x.created_at)) [
    | inl e ↦ rw e (ps.0, All-insert x ys p ps.1)
    | inr e ↦ rw e (p, ps)
  ]

  All-of_insert :
      (x : ConnectorOutboxItem) (xs : Items) → All P (insert_by_created x xs) → P x × All P xs
  unfolding insert_by_created
  All-of_insert x [] ps = ps
  All-of_insert x (y ∷ ys) ps = elim (Bool-cases (ltb y.created_at x.created_at)) [
    | inl e ↦
        let qs : All P (y ∷ insert_by_created x ys) = rw e at ps in
        let (p, rest) = All-of_insert x ys qs.1 in (p, (qs.0, rest))
    | inr e ↦ let qs : All P (x ∷ y ∷ ys) = rw e at ps in qs
  ]

  All-of_sort : (xs : Items) → All P (sort_by_created xs) → All P xs
  unfolding sort_by_created
  All-of_sort [] ps = tt
  All-of_sort (x ∷ xs) ps =
      let (p, rest) = All-of_insert x (sort_by_created xs) ps in (p, All-of_sort xs rest)

All-weaken :
    (a b : ℕ) (xs : Items) → a ≤ b → All (λ y. b ≤ y.created_at) xs → All (λ y. a ≤ y.created_at) xs
All-weaken a b [] h ps = tt
All-weaken a b (x ∷ xs) h ps = (omega arith, All-weaken a b xs h ps.1)

insert-IsSorted :
    (x : ConnectorOutboxItem) (xs : Items) → IsSorted xs → IsSorted (insert_by_created x xs)
unfolding insert_by_created
insert-IsSorted x [] s = (tt, tt)
insert-IsSorted x (y ∷ ys) s = elim (Bool-cases (ltb y.created_at x.created_at)) [
  | inl e ↦ rw e (
    All-insert (λ z. y.created_at ≤ z.created_at) x ys (ground arith) s.0,
    insert-IsSorted x ys s.1,
  )
  | inr e ↦ rw e ((ground arith, All-weaken x.created_at y.created_at ys (ground arith) s.0), s)
]

sort-IsSorted : (xs : Items) → IsSorted (sort_by_created xs)
unfolding sort_by_created
sort-IsSorted [] = tt
sort-IsSorted (x ∷ xs) = insert-IsSorted x (sort_by_created xs) (sort-IsSorted xs)

mem_swap :
    {a x y : ConnectorOutboxItem} {xs ys : Items}
    → (Memᴰ a xs → Memᴰ a (x ∷ ys))
    → Memᴰ a (y ∷ xs)
    → Memᴰ a (x ∷ y ∷ ys)
mem_swap f (Memᴰ.head p) = Memᴰ.tail (Memᴰ.head p)
mem_swap {x = x} {y = y} {ys = ys} f (Memᴰ.tail q) = under (f q)
  where
    under : {a : ConnectorOutboxItem} → Memᴰ a (x ∷ ys) → Memᴰ a (x ∷ y ∷ ys)
    under (Memᴰ.head p) = Memᴰ.head p
    under (Memᴰ.tail r) = Memᴰ.tail (Memᴰ.tail r)

mem-of_insert :
    (a x : ConnectorOutboxItem) (xs : Items) → Memᴰ a (insert_by_created x xs) → Memᴰ a (x ∷ xs)
unfolding insert_by_created
mem-of_insert a x [] m = m
mem-of_insert a x (y ∷ ys) m = elim (Bool-cases (ltb y.created_at x.created_at)) [
  | inl e ↦
      let n : Memᴰ a (y ∷ insert_by_created x ys) = rw e at m in mem_swap (mem-of_insert a x ys) n
  | inr e ↦ rw e at m
]

mem-of_sort : (a : ConnectorOutboxItem) (xs : Items) → Memᴰ a (sort_by_created xs) → Memᴰ a xs
unfolding sort_by_created
mem-of_sort a [] m = m
mem-of_sort a (x ∷ xs) m = again (mem-of_sort a xs) (mem-of_insert a x (sort_by_created xs) m)
  where
    again :
        (Memᴰ a (sort_by_created xs) → Memᴰ a xs)
        → Memᴰ a (x ∷ sort_by_created xs)
        → Memᴰ a (x ∷ xs)
    again f (Memᴰ.head p) = Memᴰ.head p
    again f (Memᴰ.tail q) = Memᴰ.tail (f q)

-- `item` is among `xs`, eligible, and no eligible item of `xs` is older.
abbrev pub IsOldestEligible : Time → ConnectorOutboxItem → Items → Type 0
IsOldestEligible now item xs =
    Memᴰ item xs
    × (delivery_eligible item now ≡ true)
    × All (λ x. delivery_eligible x now ≡ true → item.created_at ≤ x.created_at) xs

older :
    (now : Time) (item x : ConnectorOutboxItem) (ys : Items)
    → item ≡ x
    → All (λ y. x.created_at ≤ y.created_at) ys
    → All (λ y. delivery_eligible y now ≡ true → item.created_at ≤ y.created_at) ys
older now item x [] e ps = tt
older now item x (y ∷ ys) e ps = (λ _. ground arith, older now item x ys e ps.1)

first_eligible_lem :
    (now : Time) (xs : Items) (item : ConnectorOutboxItem)
    → IsSorted xs
    → first_eligible now xs ≡ some item
    → IsOldestEligible now item xs
unfolding first_eligible
first_eligible_lem now [] item s h = cc
first_eligible_lem now (x ∷ xs) item s h = elim (Bool-cases (delivery_eligible x now)) [
  | inl e ↦
      let same : item ≡ x = ground arith in
      (Memᴰ.head same, rw same e, (λ _. ground arith, older now item x xs same s.0))
  | inr e ↦
      let h' : first_eligible now xs ≡ some item = rw e at h in
      let (m, el, rest) = first_eligible_lem now xs item s.1 h' in
      (Memᴰ.tail m, el, (λ e'. cc, rest))
]

first_eligible-none :
    (now : Time) (xs : Items)
    → first_eligible now xs ≡ none
    → All (λ x. delivery_eligible x now ≡ false) xs
unfolding first_eligible
first_eligible-none now [] h = tt
first_eligible-none now (x ∷ xs) h = elim (Bool-cases (delivery_eligible x now)) [
  | inl e ↦ absurd (ground arith)
  | inr e ↦ let h' : first_eligible now xs ≡ none = rw e at h in (e, first_eligible-none now xs h')
]

module _ (h : Host) (io : Io) (clock now : Time) (owner : String) where
  -- A granted ClaimNextOutboxItem had a positive duration, and leases an item of the store that is
  -- eligible and that no eligible item is older than; it writes that item with its lease and
  -- nothing else.
  pub claim_next_oldest :
      (d : Duration) (s : OutboxStore)
      → (claim_next_outbox_item h io clock now owner d s).0.1 ≡ true
      → (item : ConnectorOutboxItem) × (ttl : ℕ) × (d ≡ ns ttl)
        × IsOldestEligible (or_clock clock now) item (values s.items)
        × (claim_next_outbox_item h io clock now owner d s ≡ (
          (leased h owner (or_clock clock now) ttl item, true),
          none,
          record s {
            items = put s.items item.outbox_id (leased h owner (or_clock clock now) ttl item);
          },
        ))
  unfolding claim_next_outbox_item
  claim_next_oldest (ns zero) s granted = ground arith
  claim_next_oldest (ns (suc n)) s granted =
      elim (Option-cases (first_eligible (or_clock clock now) (sort_by_created (values s.items)))) [
        | inl e ↦ ground arith
        | inr (item, e) ↦
            let (m, el, rest) =
              first_eligible_lem (or_clock clock now) (sort_by_created (values s.items)) item
                (sort-IsSorted (values s.items)) e in
            (
              item,
              suc n,
              refl,
              (mem-of_sort item (values s.items) m, el, All-of_sort _ (values s.items) rest),
              ground arith,
            )
      ]
  claim_next_oldest (neg n) s granted = ground arith

  -- A ClaimNextOutboxItem that grants nothing and reports no error found no eligible item, and
  -- leaves the store as it was.
  pub claim_next_nothing :
      (d : Duration) (s : OutboxStore)
      → (claim_next_outbox_item h io clock now owner d s).0.1 ≡ false
      → (claim_next_outbox_item h io clock now owner d s).1 ≡ none
      → All (λ x. delivery_eligible x (or_clock clock now) ≡ false) (values s.items)
        × ((claim_next_outbox_item h io clock now owner d s).2 ≡ s)
  unfolding claim_next_outbox_item
  claim_next_nothing (ns zero) s refused no_error = ground arith
  claim_next_nothing (ns (suc n)) s refused no_error =
      elim (Option-cases (first_eligible (or_clock clock now) (sort_by_created (values s.items)))) [
        | inl e ↦ (
          All-of_sort _ (values s.items)
              (first_eligible-none (or_clock clock now) (sort_by_created (values s.items)) e),
          ground arith,
        )
        | inr (item, e) ↦ ground arith
      ]
  claim_next_nothing (neg n) s refused no_error = ground arith
