-- ===== src/Ipam/Lowest.antt =====
-- `next_available_ip` against what an address for a host is.

use native.Mathlib.Nat.{div-add-mod', div-eq_of_lt-le, add-mul}
use qarax.Base.{
  ℕ, ◌+◌, ◌-◌, ◌*◌, ◌/◌, ◌%◌, ◌^◌, ◌≤◌, ◌<◌, ◌≡◌, ◌≢◌, ap, ◌∙◌, sym, inl, inr, true, false, Option,
  none, some, List, ◌++◌, Memᴰ, Text, codes, text_ord, nat_ord, ◌==◌, ==_iff, or_true, arith,
  Bool-cases, ltb, ltb→lt,
}
use qarax.Schedule.{if_some}
use qarax.Schedule.Tests.{elem_iff}
use qarax.Ipam.{
  parse_subnet, unusable, first_addr, broadcast_addr, network_addr, host_bits, next_available_ip,
  formatted, gateway_u32, format_ip,
}
use qarax.Ipam.Available.{FindsFirst, found, exhausted, next_available_ip-FindsFirst}

-- An address for a host of the subnet: it agrees with the subnet's address but for the last bits, which
-- are neither all zeros nor all ones, and it is neither the gateway's nor listed as allocated.
pub record IsFree (gateway : Option Text) (allocated : List Text) (base prefix_len addr : ℕ)
    : Type 0 where
  pub in_subnet : addr / 2 ^ (32 - prefix_len) ≡ base / 2 ^ (32 - prefix_len)
  pub not_network : 0 < addr % 2 ^ (32 - prefix_len)
  pub not_broadcast : addr % 2 ^ (32 - prefix_len) + 1 < 2 ^ (32 - prefix_len)
  pub not_gateway : gateway_u32 gateway ≢ some addr
  pub not_allocated : ¬ Memᴰ (format_ip addr) allocated
  pub not_suffixed : ¬ Memᴰ (format_ip addr ++ codes "/32") allocated

pub data FindsLowest (gateway : Option Text) (allocated : List Text) (base prefix_len : ℕ)
    : Option ℕ → Type 0 where
  lowest :
      (addr : ℕ)
      → IsFree gateway allocated base prefix_len addr
      → ((b : ℕ) → IsFree gateway allocated base prefix_len b → addr ≤ b)
      → FindsLowest gateway allocated base prefix_len (some addr)
  none_free :
      ((b : ℕ) → ¬ IsFree gateway allocated base prefix_len b)
      → FindsLowest gateway allocated base prefix_len none

module _ (size base addr : ℕ) where
  -- The last bits of an address of the block.
  in_block-bounds :
      addr / size ≡ base / size
      → 0 < addr % size
      → addr % size + 1 < size
      → (base / size * size + 1 ≤ addr) × (addr < base / size * size + (size - 1))
  in_block-bounds same low high =
      let split = div-add-mod' addr size in
      let product = ap (λ q. q * size) same in
      (omega (arith, split, product, low, high), omega (arith, split, product, low, high))

  bounds-in_block :
      base / size * size + 1 ≤ addr
      → addr < base / size * size + (size - 1)
      → (addr / size ≡ base / size) × (0 < addr % size) × (addr % size + 1 < size)
  bounds-in_block low high =
      let next = add-mul (base / size) 1 size in
      let same : addr / size ≡ base / size =
        div-eq_of_lt-le size (omega (arith, low)) (omega (arith, next, high)) in
      let split = div-add-mod' addr size in
      let product = ap (λ q. q * size) same in
      (same, omega (arith, split, product, low, high), omega (arith, split, product, low, high))

host_bits_lem :
    (prefix_len : ℕ) → 1 ≤ prefix_len → prefix_len ≤ 32 → host_bits prefix_len ≡ 32 - prefix_len
host_bits_lem prefix_len low high = omega (arith, low, high)

module _ (gateway : Option Text) (allocated : List Text) (addr : ℕ) where
  usable-free :
      unusable gateway allocated addr ≡ false
      → (gateway_u32 gateway ≢ some addr)
        × (¬ Memᴰ (format_ip addr) allocated)
        × (¬ Memᴰ (format_ip addr ++ codes "/32") allocated)
  unfolding unusable
  usable-free h = (
    λ e. differ (sym ((or_true _ _).1 (inl (gateway-same (gateway_u32 gateway) e))) ∙ h),
    λ m.
        differ
          (sym ((or_true _ _).1 (inr ((or_true _ _).1 (inl ((elem_iff _ allocated).1 m))))) ∙ h),
    λ m.
        differ
          (sym ((or_true _ _).1 (inr ((or_true _ _).1 (inr ((elem_iff _ allocated).1 m))))) ∙ h),
  )
    where
      differ : true ≡ false → ⊥
      differ q = cc q

      gateway-same : (g : Option ℕ) → g ≡ some addr → if_some (λ x. addr == x) g ≡ true
      gateway-same none e = cc e
      gateway-same (some x) e = (==_iff addr x).1 (cc e)

  free-usable :
      (gateway_u32 gateway ≢ some addr)
      → (¬ Memᴰ (format_ip addr) allocated)
      → (¬ Memᴰ (format_ip addr ++ codes "/32") allocated)
      → unusable gateway allocated addr ≡ false
  unfolding unusable
  free-usable g a b = elim (Bool-cases (unusable gateway allocated addr)) [
    | inr f ↦ f
    | inl t ↦ elim ((or_true _ _).0 t) [
      | inl u ↦ absurd (g (gateway-same (gateway_u32 gateway) u))
      | inr u ↦ elim ((or_true _ _).0 u) [
        | inl v ↦ absurd (a ((elem_iff _ allocated).0 v))
        | inr v ↦ absurd (b ((elem_iff _ allocated).0 v))
      ]
    ]
  ]
    where
      gateway-same : (g : Option ℕ) → if_some (λ x. addr == x) g ≡ true → g ≡ some addr
      gateway-same none e = cc e
      gateway-same (some x) e = ap some (sym ((==_iff addr x).0 e))

module _ (gateway : Option Text) (allocated : List Text) (base prefix_len : ℕ)
    (shortest : 1 ≤ prefix_len) (longest : prefix_len ≤ 32)
    (room : base / 2 ^ (32 - prefix_len) * 2 ^ (32 - prefix_len) + 1 < 2 ^ 32) where
  abbrev size : ℕ
  size = 2 ^ (32 - prefix_len)

  first_lem : first_addr base prefix_len ≡ base / size * size + 1
  unfolding network_addr
  first_lem =
      ap (λ k. (base / 2 ^ k * 2 ^ k + 1) % 2 ^ 32) (host_bits_lem prefix_len shortest longest)
      ∙ omega (arith, room)

  last_lem : broadcast_addr base prefix_len ≡ base / size * size + (size - 1)
  unfolding broadcast_addr network_addr
  last_lem =
      ap (λ k. base / 2 ^ k * 2 ^ k + (2 ^ k - 1)) (host_bits_lem prefix_len shortest longest)

  found-IsFree :
      (addr : ℕ)
      → first_addr base prefix_len ≤ addr
      → addr < broadcast_addr base prefix_len
      → unusable gateway allocated addr ≡ false
      → IsFree gateway allocated base prefix_len addr
  found-IsFree addr low high usable =
      let (same, above, below) =
        bounds-in_block size base addr (omega (arith, low, first_lem))
          (omega (arith, high, last_lem)) in
      let (g, a, b) = usable-free gateway allocated addr usable in
      record {
        in_subnet = same;
        not_network = above;
        not_broadcast = below;
        not_gateway = g;
        not_allocated = a;
        not_suffixed = b;
      }

  IsFree-found :
      (addr : ℕ)
      → IsFree gateway allocated base prefix_len addr
      → (first_addr base prefix_len ≤ addr)
        × (addr < broadcast_addr base prefix_len)
        × (unusable gateway allocated addr ≡ false)
  IsFree-found addr p =
      let (low, high) = in_block-bounds size base addr p.in_subnet p.not_network p.not_broadcast in
      (
        omega (arith, low, first_lem),
        omega (arith, high, last_lem),
        free-usable gateway allocated addr p.not_gateway p.not_allocated p.not_suffixed,
      )

  of_FindsFirst :
      (r : Option ℕ)
      → FindsFirst
          (unusable gateway allocated)
          (first_addr base prefix_len)
          (broadcast_addr base prefix_len)
          r
      → FindsLowest gateway allocated base prefix_len r
  of_FindsFirst r (found addr low high usable before) =
      lowest addr (found-IsFree addr low high usable) (λ b p.
        let (l, h, u) = IsFree-found b p in
        elim (Bool-cases (ltb b addr)) [
          | inr f ↦ ground (arith, f)
          | inl t ↦ absurd (differ (sym (before b l (ltb→lt b addr t)) ∙ u))
        ])
    where
      differ : true ≡ false → ⊥
      differ q = cc q
  of_FindsFirst r (exhausted taken) =
      none_free (λ b p. let (l, h, u) = IsFree-found b p in differ (sym (taken b l h) ∙ u))
    where
      differ : true ≡ false → ⊥
      differ q = cc q

  -- For a subnet that is read as an address and a prefix of 1 to 32 bits, whose first address after its
  -- own is an address, the call answers with the lowest address of the subnet that is neither its own nor
  -- its broadcast address nor the gateway's and is not allocated, and with nothing only where there is
  -- none.
  pub next_available_ip-FindsLowest :
      (subnet : Text)
      → parse_subnet subnet ≡ some (base, prefix_len)
      → (r : Option ℕ) × (next_available_ip subnet gateway allocated ≡ formatted r)
        × FindsLowest gateway allocated base prefix_len r
  next_available_ip-FindsLowest subnet h =
      let (r, e, first) = next_available_ip-FindsFirst subnet gateway allocated base prefix_len h in
      (r, e, of_FindsFirst r first)
