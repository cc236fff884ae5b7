-- ===== src/Schedule/Laws.antt =====
-- What `pick_host` returns: a placeable host that no other placeable host precedes, and nothing
-- only when no host is placeable.
use qarax.Base.{
  ℕ, ◌+◌, ◌^◌, ◌≢◌, ◌<◌, ◌≡◌, refl, ◌↔◌, Bool, true, false, Option, none, some, List, [], ◌∷◌, Memᴰ,
  filter, mem-filter_of, of_mem-filter, Ordering, is_le, swap, IsPreorder, then_cmp-IsPreorder,
  flip-IsPreorder, on-IsPreorder, trivial-IsPreorder, cmp_text-IsPreorder, compare-IsPreorder,
  arith, Bool-cases, Option-cases, Text, if◌then◌else◌, inl, inr, nat_ord,
}
use mathlib.Core.List.Memᴰ
use qarax.Db.{Host, Db}
use qarax.Schedule.{
  Double, PlacementPolicy, SchedulingRequest, SchedulingSettings, cmp_bool_desc, count_tagged,
  by_labels, by_affinity, by_spread, by_policy, by_name, cmp_load, by_load, before, eligible,
  first_by, pick_host, contains_labels, key_of, elem,
}
use qarax.Schedule.Placeable.{IsPlaceable, eligible_iff}

-- PostgreSQL documents that doubles are totally ordered.
pub record IsOrdered (d : Double) : Type 0 where
  pub total : (a b : d.F) → d.le a b ≡ false → d.le b a ≡ true
  pub trans : (a b c : d.F) → d.le a b ≡ true → d.le b c ≡ true → d.le a c ≡ true

bool_desc-IsPreorder : IsPreorder cmp_bool_desc
bool_desc-IsPreorder = record { flip = λ a b. ground arith; trans = λ a b c h k. ground arith }

key_of-IsPreorder :
    {A : Type 0} {cmp : A → A → Ordering} (tags : List Text)
    → IsPreorder cmp
    → IsPreorder {A = A} (λ a b. key_of tags (cmp a b))
key_of-IsPreorder [] p = trivial-IsPreorder
key_of-IsPreorder (t ∷ ts) p = p

module _ {F : Type 0} (db : Db F) (policy : PlacementPolicy) where
  by_labels-IsPreorder : IsPreorder {A = Host F} (by_labels policy)
  unfolding by_labels
  by_labels-IsPreorder =
      on-IsPreorder
        (λ (h : Host F). contains_labels h.placement_labels policy.preferred_host_labels)
        bool_desc-IsPreorder

  by_affinity-IsPreorder : IsPreorder (by_affinity db policy)
  unfolding by_affinity
  by_affinity-IsPreorder =
      key_of-IsPreorder policy.affinity_tags
        (flip-IsPreorder (on-IsPreorder (count_tagged db policy.affinity_tags) compare-IsPreorder))

  by_spread-IsPreorder : IsPreorder (by_spread db policy)
  unfolding by_spread
  by_spread-IsPreorder =
      key_of-IsPreorder policy.spread_tags
        (on-IsPreorder (count_tagged db policy.spread_tags) compare-IsPreorder)

by_policy-IsPreorder :
    {F : Type 0} (db : Db F) (policy : Option PlacementPolicy) → IsPreorder (by_policy db policy)
unfolding by_policy
by_policy-IsPreorder db none = trivial-IsPreorder
by_policy-IsPreorder db (some policy) =
    then_cmp-IsPreorder (by_labels-IsPreorder db policy)
      (then_cmp-IsPreorder (by_affinity-IsPreorder db policy) (by_spread-IsPreorder db policy))

cmp_load-IsPreorder : (d : Double) → IsOrdered d → IsPreorder (cmp_load d)
unfolding cmp_load
cmp_load-IsPreorder d o = record { flip = flips; trans = transits }
  where
    flips : (a b : Option d.F) → cmp_load d b a ≡ swap (cmp_load d a b)
    flips none none = refl
    flips none (some y) = refl
    flips (some x) none = refl
    flips (some x) (some y) = ground (arith, o.total x y, o.total y x)

    transits :
        (a b c : Option d.F)
        → is_le (cmp_load d a b) ≡ true
        → is_le (cmp_load d b c) ≡ true
        → is_le (cmp_load d a c) ≡ true
    transits none none c h k = k
    transits none (some y) c h k = ground arith
    transits (some x) b none h k = refl
    transits (some x) none (some z) h k = ground arith
    transits (some x) (some y) (some z) h k =
        ground (arith, o.trans x y z, o.total x y, o.total y z, o.total x z)

before-IsPreorder :
    (d : Double)
    → IsOrdered d
    → (db : Db d.F) (request : SchedulingRequest) → IsPreorder (before d db request)
unfolding before by_load by_name
before-IsPreorder d o db request =
    then_cmp-IsPreorder (by_policy-IsPreorder db request.placement_policy) (
      then_cmp-IsPreorder
        (on-IsPreorder (λ (h : Host d.F). h.load_average) (cmp_load-IsPreorder d o))
        (on-IsPreorder (λ (h : Host d.F). h.name) cmp_text-IsPreorder))

-- `first_by` returns a least element.
abbrev IsFirst {ℓ} : {A : Type ℓ} → (A → A → Ordering) → List A → Option A → Type ℓ
IsFirst {A} cmp xs none = (a : A) → ¬ Memᴰ a xs
IsFirst {A} cmp xs (some x) = Memᴰ x xs × ((a : A) → Memᴰ a xs → is_le (cmp x a) ≡ true)

module _ {ℓ} {A : Type ℓ} {cmp : A → A → Ordering} (p : IsPreorder cmp) where
  is_le_refl : (a : A) → is_le (cmp a a) ≡ true
  is_le_refl a = ground (arith, p.flip a a)

  keep-IsFirst :
      (x y : A) (xs : List A) (r : Option A)
      → IsFirst cmp xs (some y)
      → IsFirst cmp (x ∷ xs) (if is_le (cmp x y) then some x else some y)
  keep-IsFirst x y xs r least = elim (Bool-cases (is_le (cmp x y))) [
    | inl le ↦ rw le (
      Memᴰ.head refl,
      λ a m. elim (Memᴰ.cases_cons m) [
        | inl e ↦ rw e (is_le_refl x)
        | inr m' ↦ p.trans x y a le (least.1 a m')
      ],
    )
    | inr gt' ↦ rw gt' (
      Memᴰ.tail least.0,
      λ a m. elim (Memᴰ.cases_cons m) [
        | inl e ↦ rw e (ground (arith, p.flip x y))
        | inr m' ↦ least.1 a m'
      ],
    )
  ]

  first_by-IsFirst : (xs : List A) → IsFirst cmp xs (first_by cmp xs)
  unfolding first_by
  first_by-IsFirst [] = λ a m. Memᴰ.not-nil m
  first_by-IsFirst (x ∷ xs) = go (first_by cmp xs) (first_by-IsFirst xs)
    where
      go :
          (r : Option A)
          → IsFirst cmp xs r
          → IsFirst cmp
              (x ∷ xs)
              (elim r [ none ↦ some x | some y ↦ if is_le (cmp x y) then some x else some y ])
      go none h = (
        Memᴰ.head refl,
        λ a m. elim (Memᴰ.cases_cons m) [ inl e ↦ rw e (is_le_refl x) | inr m' ↦ absurd (h a m') ],
      )
      go (some y) h = keep-IsFirst x y xs (some y) h

module _ (d : Double) (db : Db d.F) (locked : ℕ → Bool) (request : SchedulingRequest)
    (config : SchedulingSettings d.F) where
  -- The hosts that the request can be placed on.
  abbrev pub Candidate : Host d.F → Type 0
  Candidate h = Memᴰ h db.hosts × IsPlaceable d db locked request config h

  abbrev pub Picks : Option (Host d.F) → Type 0
  Picks none = (h : Host d.F) → ¬ Candidate h
  Picks (some h) =
      Candidate h
      × ((other : Host d.F) → Candidate other → is_le (before d db request h other) ≡ true)

module _ (d : Double) (db : Db d.F) (locked : ℕ → Bool) (request : SchedulingRequest)
    (config : SchedulingSettings d.F)
    (bound : request.disk_bytes + config.disk_headroom_bytes < 2 ^ 63) where
  Candidate-iff :
      (h : Host d.F)
      → Memᴰ h (filter (eligible d db locked request config) db.hosts)
        ↔ Candidate d db locked request config h
  Candidate-iff h = (
    λ m.
        let r = of_mem-filter (eligible d db locked request config) db.hosts m in
        (r.0, (eligible_iff d db locked request config h bound).0 r.1),
    λ c.
        mem-filter_of (eligible d db locked request config) c.0
          ((eligible_iff d db locked request config h bound).1 c.1),
  )

module _ (d : Double) (o : IsOrdered d) (db : Db d.F) (locked : ℕ → Bool)
    (request : SchedulingRequest) (config : SchedulingSettings d.F)
    (bound : request.disk_bytes + config.disk_headroom_bytes < 2 ^ 63) where
  Picks-of-IsFirst :
      (r : Option (Host d.F))
      → IsFirst (before d db request) (filter (eligible d db locked request config) db.hosts) r
      → Picks d db locked request config r
  Picks-of-IsFirst none f = λ h c. f h ((Candidate-iff d db locked request config bound h).1 c)
  Picks-of-IsFirst (some h) f = (
    (Candidate-iff d db locked request config bound h).0 f.0,
    λ other c. f.1 other ((Candidate-iff d db locked request config bound other).1 c),
  )

  -- Where doubles are totally ordered and the disk sum does not wrap: a host that the query returns
  -- meets every condition of the request and no candidate precedes it in the query's order; and the
  -- query returns nothing only when no host of the table meets the conditions.
  pub pick_host-Picks : Picks d db locked request config (pick_host d db locked request config)
  unfolding pick_host
  pick_host-Picks = Picks-of-IsFirst _ (first_by-IsFirst (before-IsPreorder d o db request) _)

first_by-mem {ℓ} :
    {A : Type ℓ} (cmp : A → A → Ordering) (xs : List A) {x : A}
    → first_by cmp xs ≡ some x
    → Memᴰ x xs
unfolding first_by
first_by-mem cmp [] h = cc
first_by-mem {A = A} cmp (x ∷ xs) {x = y} h = go (first_by cmp xs) (λ z e. first_by-mem cmp xs e) h
  where
    go :
        (r : Option A)
        → ((z : A) → r ≡ some z → Memᴰ z xs)
        → (elim r [ none ↦ some x | some z ↦ if is_le (cmp x z) then some x else some z ]) ≡ some y
        → Memᴰ y (x ∷ xs)
    go none ih e = Memᴰ.head (cc e)
    go (some z) ih e = elim (Bool-cases (is_le (cmp x z))) [
      | inl t ↦ Memᴰ.head (ground arith)
      | inr f ↦ Memᴰ.tail (ih y (ground arith))
    ]

eligible-elem :
    (d : Double) (db : Db d.F) (locked : ℕ → Bool) (request : SchedulingRequest)
    (config : SchedulingSettings d.F) (h : Host d.F)
    → eligible d db locked request config h ≡ true
    → elem h.id request.excluded_host_ids ≡ false
unfolding eligible
eligible-elem d db locked request config h e = ground arith

-- A host that was picked is a row of the table that the request does not exclude.
pub pick_host-mem :
    (d : Double) (db : Db d.F) (locked : ℕ → Bool) (request : SchedulingRequest)
    (config : SchedulingSettings d.F) {h : Host d.F}
    → pick_host d db locked request config ≡ some h
    → Memᴰ h db.hosts × (elem h.id request.excluded_host_ids ≡ false)
unfolding pick_host
pick_host-mem d db locked request config {h} e =
    let r =
      of_mem-filter (eligible d db locked request config) db.hosts
        (first_by-mem (before d db request) _ e) in
    (r.0, eligible-elem d db locked request config h r.1)

not_none-if {ℓ} : {A : Type ℓ} (b : Bool) (x y : A) → (if b then some x else some y) ≢ none
not_none-if true x y h = cc
not_none-if false x y h = cc

first_by-none {ℓ} :
    {A : Type ℓ} (cmp : A → A → Ordering) (xs : List A)
    → first_by cmp xs ≡ none
    → (a : A) → ¬ Memᴰ a xs
unfolding first_by
first_by-none cmp [] h a m = Memᴰ.not-nil m
first_by-none cmp (x ∷ xs) h a m = elim (Option-cases (first_by cmp xs)) [
  | inl e ↦ absurd (ground (arith, e))
  | inr (y, e) ↦ not_none-if (is_le (cmp x y)) x y (rw (e, first_by) at h)
]

-- Nothing is returned only if no host can take the request.
pub pick_host-none :
    (d : Double) (db : Db d.F) (locked : ℕ → Bool) (request : SchedulingRequest)
    (config : SchedulingSettings d.F)
    → request.disk_bytes + config.disk_headroom_bytes < 2 ^ 63
    → pick_host d db locked request config ≡ none
    → (h : Host d.F) → ¬ Candidate d db locked request config h
unfolding pick_host
pick_host-none d db locked request config bound e h c =
    first_by-none (before d db request) _ e h
      ((Candidate-iff d db locked request config bound h).1 c)

-- A host that was picked is a candidate.
pub pick_host-Candidate :
    (d : Double) (db : Db d.F) (locked : ℕ → Bool) (request : SchedulingRequest)
    (config : SchedulingSettings d.F)
    → request.disk_bytes + config.disk_headroom_bytes < 2 ^ 63
    → {h : Host d.F} → pick_host d db locked request config ≡ some h
    → Candidate d db locked request config h
unfolding pick_host
pick_host-Candidate d db locked request config bound {h} e =
    (Candidate-iff d db locked request config bound h).0 (first_by-mem (before d db request) _ e)
