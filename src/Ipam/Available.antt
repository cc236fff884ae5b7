-- ===== src/Ipam/Available.antt =====
-- What `next_available_ip` finds.
use qarax.Base.{
  ℕ, zero, suc, ◌+◌, ◌-◌, ◌%◌, ◌^◌, ◌≤◌, ◌<◌, ◌≡◌, refl, ap, ◌∙◌, sym, inl, inr, Bool, true, false,
  Option, none, some, List, [], Text, arith, Bool-cases, ltb, if◌then◌else◌, subst, ◌==◌, nat_ord,
}
use qarax.Schedule.{if_some}
use qarax.Ipam.{
  parse_subnet, first_usable, unusable, first_addr, broadcast_addr, next_available,
  next_available_ip, formatted, is_gateway, gateway_u32, dhcp_bounds, dhcp_range, format_ip,
  compute_dhcp_range,
}

-- The first address of an interval that a test does not skip.
pub data FindsFirst (skip : ℕ → Bool) (lo hi : ℕ) : Option ℕ → Type 0 where
  found :
      (addr : ℕ)
      → lo ≤ addr
      → addr < hi
      → skip addr ≡ false
      → ((b : ℕ) → lo ≤ b → b < addr → skip b ≡ true)
      → FindsFirst skip lo hi (some addr)
  exhausted : ((b : ℕ) → lo ≤ b → b < hi → skip b ≡ true) → FindsFirst skip lo hi none

first_usable-FindsFirst :
    (skip : ℕ → Bool) (count addr : ℕ)
    → FindsFirst skip addr (addr + count) (first_usable skip count addr)
unfolding first_usable
first_usable-FindsFirst skip zero addr = exhausted (λ b l h. absurd (omega arith))
first_usable-FindsFirst skip (suc count) addr = elim (Bool-cases (skip addr)) [
  | inr f ↦ rw f (found addr (omega arith) (omega arith) f (λ b l h. absurd (omega arith)))
  | inl t ↦
      rw t (
        shift (first_usable skip count (addr + 1)) t
          (first_usable-FindsFirst skip count (addr + 1)))
]
  where
    at_or_after :
        (b : ℕ) → addr ≤ b → skip addr ≡ true → (addr + 1 ≤ b → skip b ≡ true) → skip b ≡ true
    at_or_after b l t k = elim (Bool-cases (ltb addr b)) [
      | inl later ↦ k (ground (arith, later))
      | inr here ↦
          let same : addr ≡ b = ground (arith, here) in subst (λ (n : ℕ). skip n ≡ true) same t
    ]

    shift :
        (r : Option ℕ)
        → skip addr ≡ true
        → FindsFirst skip (addr + 1) (addr + 1 + count) r
        → FindsFirst skip addr (addr + suc count) r
    shift r t (found a l h s before) =
        found a (omega (arith, l)) (omega (arith, h)) s
          (λ b k j. at_or_after b k t (λ q. before b q j))
    shift r t (exhausted none_free) =
        exhausted (λ b k j. at_or_after b k t (λ q. none_free b q (omega (arith, j))))

-- The interval of a loop `lo..hi`, which is empty where `hi` is not above `lo`.
range-FindsFirst :
    (skip : ℕ → Bool) (lo hi : ℕ) (r : Option ℕ)
    → FindsFirst skip lo (lo + (hi - lo)) r
    → FindsFirst skip lo hi r
range-FindsFirst skip lo hi r (found a l h s before) = found a l (omega (arith, l, h)) s before
range-FindsFirst skip lo hi r (exhausted none_free) =
    exhausted (λ b l h. none_free b l (omega (arith, l, h)))

next_available-eq :
    (subnet : Text) (gateway : Option Text) (allocated : List Text) (base prefix_len : ℕ)
    → parse_subnet subnet ≡ some (base, prefix_len)
    → next_available subnet gateway allocated
      ≡ first_usable
          (unusable gateway allocated)
          (broadcast_addr base prefix_len - first_addr base prefix_len)
          (first_addr base prefix_len)
unfolding next_available
next_available-eq subnet gateway allocated base prefix_len h = rw (h, next_available) refl

-- The call runs the loop between the two bounds of the code.
pub next_available_ip-FindsFirst :
    (subnet : Text) (gateway : Option Text) (allocated : List Text) (base prefix_len : ℕ)
    → parse_subnet subnet ≡ some (base, prefix_len)
    → (r : Option ℕ) × (next_available_ip subnet gateway allocated ≡ formatted r)
      × FindsFirst
          (unusable gateway allocated)
          (first_addr base prefix_len)
          (broadcast_addr base prefix_len)
          r
unfolding next_available_ip
next_available_ip-FindsFirst subnet gateway allocated base prefix_len h =
    let skip = unusable gateway allocated in
    let lo = first_addr base prefix_len in
    let hi = broadcast_addr base prefix_len in
    (
      first_usable skip (hi - lo) lo,
      ap formatted (next_available-eq subnet gateway allocated base prefix_len h),
      range-FindsFirst skip lo hi _ (first_usable-FindsFirst skip (hi - lo) lo),
    )

one_gateway :
    (gateway : Option Text) (a : ℕ)
    → is_gateway gateway a ≡ true
    → is_gateway gateway (a + 1) ≡ false
one_gateway gateway a h = other (gateway_u32 gateway) h
  where
    other : (g : Option ℕ) → if_some (λ x. a == x) g ≡ true → if_some (λ x. (a + 1) == x) g ≡ false
    other none k = cc
    other (some x) k = ground arith

unusable-nil : (gateway : Option Text) (a : ℕ) → unusable gateway [] a ≡ is_gateway gateway a
unfolding unusable
unusable-nil gateway a = ground arith

start_lem :
    (b : Bool) (lo : ℕ)
    → lo + 1 < 2 ^ 32
    → (if b then (lo + 1) % 2 ^ 32 else lo) ≡ (if b then lo + 1 else lo)
start_lem true lo h = omega (arith, h)
start_lem false lo h = refl

first_usable-two :
    (skip : ℕ → Bool) (count a : ℕ)
    → 1 < count
    → (skip a ≡ true → skip (a + 1) ≡ false)
    → first_usable skip count a ≡ some (if skip a then a + 1 else a)
unfolding first_usable
first_usable-two skip zero a h k = absurd (omega arith)
first_usable-two skip (suc zero) a h k = absurd (omega arith)
first_usable-two skip (suc (suc count)) a h k = elim (Bool-cases (skip a)) [
  | inl t ↦ rw (t, k t) refl
  | inr f ↦ rw f refl
]

dhcp_bounds-eq :
    (subnet : Text) (gateway : Option Text) (base prefix_len : ℕ)
    → parse_subnet subnet ≡ some (base, prefix_len)
    → dhcp_bounds subnet gateway
      ≡ some (
        (if is_gateway gateway (first_addr base prefix_len)
            then (first_addr base prefix_len + 1) % 2 ^ 32
            else first_addr base prefix_len),
        (broadcast_addr base prefix_len + 2 ^ 32 - 1) % 2 ^ 32,
      )
unfolding dhcp_bounds
dhcp_bounds-eq subnet gateway base prefix_len h = rw (h, dhcp_bounds) refl

-- Where a subnet has at least two addresses for hosts, the range that is given to the DHCP server
-- starts at the address which `next_available_ip` gives out first, and ends below the broadcast
-- address.
pub compute_dhcp_range-next_available :
    (subnet : Text) (gateway : Option Text) (base prefix_len : ℕ)
    → parse_subnet subnet ≡ some (base, prefix_len)
    → first_addr base prefix_len + 1 < broadcast_addr base prefix_len
    → broadcast_addr base prefix_len < 2 ^ 32
    → (start end : ℕ) × (compute_dhcp_range subnet gateway ≡ (format_ip start, format_ip end))
      × (next_available_ip subnet gateway [] ≡ some (format_ip start))
      × (end + 1 ≡ broadcast_addr base prefix_len)
unfolding compute_dhcp_range next_available_ip
compute_dhcp_range-next_available subnet gateway base prefix_len h room bound =
    let lo = first_addr base prefix_len in
    let hi = broadcast_addr base prefix_len in
    let skip = unusable gateway [] in
    (
      if skip lo then lo + 1 else lo,
      (hi + 2 ^ 32 - 1) % 2 ^ 32,
      ap dhcp_range (
          dhcp_bounds-eq subnet gateway base prefix_len h
          ∙ ap (λ (x : ℕ). some (x, (hi + 2 ^ 32 - 1) % 2 ^ 32))
              (rw (unusable-nil gateway lo)
                (start_lem (is_gateway gateway lo) lo (omega (arith, room, bound))))),
      ap formatted (
          next_available-eq subnet gateway [] base prefix_len h
          ∙ (first_usable-two skip (hi - lo) lo (omega (arith, room)) (λ t.
              unusable-nil gateway (lo + 1)
              ∙ one_gateway gateway lo (sym (unusable-nil gateway lo) ∙ t)))),
      omega (arith, room, bound),
    )
