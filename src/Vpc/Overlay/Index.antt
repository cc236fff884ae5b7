-- ===== src/Vpc/Overlay/Index.antt =====
-- The addresses of a VPC's hosts: each host's place in the order gives it an address of its own.

use qarax.Base.{
  ℕ, zero, suc, ◌+◌, ◌^◌, ◌<◌, ◌≡◌, sym, ap, ◌∙◌, inl, inr, some, List, [], ◌∷◌, ◌++◌, Memᴰ, length,
  Text, codes, ◌==◌, nat_ord, ==_iff, ==_refl, Result, ok, ◌>>=◌, to_string, to_string-injective,
  arith, Bool-cases, Option-cases, leb,
}
use qarax.Vpc.{AttachedNetwork}
use qarax.Vpc.Overlay.{
  World, position, ok_or, missing_host, overlay_vni, overlay_octets, overlay_ip, vpc_participants,
  sorted_host_ids,
}

pub position-lt : (host : ℕ) (xs : List ℕ) {i : ℕ} → position host xs ≡ some i → i < length xs
unfolding position
position-lt host [] h = cc
position-lt host (x ∷ xs) {i} h = elim (Bool-cases (x == host)) [
  | inl t ↦ ground (arith, t)
  | inr f ↦ elim (Option-cases (position host xs)) [
    | inl none' ↦ ground (arith, f, none')
    | inr (j, is) ↦ ground (arith, f, is, position-lt host xs is)
  ]
]

pub position-injective :
    (a b : ℕ) (xs : List ℕ) {i : ℕ} → position a xs ≡ some i → position b xs ≡ some i → a ≡ b
unfolding position
position-injective a b [] h k = cc
position-injective a b (x ∷ xs) {i = zero} h k = ground (arith, ==_iff x a, ==_iff x b)
position-injective a b (x ∷ xs) {i = suc i} h k = ground (arith, position-injective a b xs {i = i})

pub position-mem : (host : ℕ) {xs : List ℕ} → Memᴰ host xs → (i : ℕ) × (position host xs ≡ some i)
unfolding position
position-mem host (Memᴰ.head {x = x} {xs = xs} e) = (0, rw (← e, ==_refl host, position))
position-mem host (Memᴰ.tail {x = x} {xs = xs} m) = elim (Bool-cases (x == host)) [
  | inl t ↦ (0, rw (t, position))
  | inr f ↦ let (i, is) = position-mem host m in (suc i, rw (f, is, position))
]

append-cancel_left : (xs : Text) {ys zs : Text} → xs ++ ys ≡ xs ++ zs → ys ≡ zs
append-cancel_left [] e = e
append-cancel_left (x ∷ xs) {ys} {zs} e = append-cancel_left xs (ground arith)

-- The address that a host has in a VPC: both the local address that the host is given, and the
-- next hop of the routes to it, are meant to be this one.
unfoldable pub host_overlay_ip : World → List AttachedNetwork → Text → ℕ → Result Text
host_overlay_ip w attached vpc_name host = do
  index ←
      ok_or (position host (sorted_host_ids (vpc_participants attached vpc_name)))
        (missing_host vpc_name)
  overlay_ip w vpc_name index

module _ (w : World) (vpc_name : Text) where
  abbrev address : ℕ → Text
  address i =
      codes "100."
      ++ (to_string (overlay_octets w vpc_name).0
          ++ (codes "."
              ++ (to_string (overlay_octets w vpc_name).1 ++ (codes "." ++ to_string (i + 1)))))

  overlay_ip-address : (i : ℕ) {ip : Text} → overlay_ip w vpc_name i ≡ ok ip → address i ≡ ip
  unfolding overlay_ip
  overlay_ip-address i h = elim (Bool-cases (leb 254 i)) [
    | inl t ↦ absurd (ground (arith, t))
    | inr f ↦ ok-injective (rw (f, overlay_ip) at h)
  ]
    where
      ok-injective : {a b : Text} → ok a ≡ ok b → a ≡ b
      ok-injective e = cc

  address-injective : (i j : ℕ) → address i ≡ address j → i ≡ j
  address-injective i j e =
      let e1 = append-cancel_left (codes "100.") e in
      let e2 = append-cancel_left (to_string (overlay_octets w vpc_name).0) e1 in
      let e3 = append-cancel_left (codes ".") e2 in
      let e4 = append-cancel_left (to_string (overlay_octets w vpc_name).1) e3 in
      let e5 = to_string-injective (i + 1) (j + 1) (append-cancel_left (codes ".") e4) in
      omega arith

  -- In one VPC two hosts never have the same overlay address.
  pub host_overlay_ip_unique :
      (attached : List AttachedNetwork) (a b : ℕ) {ip : Text}
      → host_overlay_ip w attached vpc_name a ≡ ok ip
      → host_overlay_ip w attached vpc_name b ≡ ok ip
      → a ≡ b
  unfolding host_overlay_ip
  host_overlay_ip_unique attached a b {ip} h k = elim (Option-cases (position a order)) [
    | inl na ↦ absurd (ground (arith, na))
    | inr (i, ia) ↦ elim (Option-cases (position b order)) [
      | inl nb ↦ absurd (ground (arith, nb))
      | inr (j, jb) ↦
          let ei = overlay_ip-address i (rw (ia, host_overlay_ip) at h) in
          let ej = overlay_ip-address j (rw (jb, host_overlay_ip) at k) in
          position-injective a b order ia (jb ∙ ap some (address-injective j i (ej ∙ sym ei)))
    ]
  ]
    where
      order : List ℕ
      order = sorted_host_ids (vpc_participants attached vpc_name)

  -- A VXLAN network identifier has 24 bits and is not 0, where the seed consists of bytes.
  pub overlay_vni_bounds :
      ((k : ℕ) → w.overlay_seed vpc_name k < 256)
      → (0 < overlay_vni w vpc_name) × (overlay_vni w vpc_name < 2 ^ 24)
  unfolding overlay_vni
  overlay_vni_bounds bytes =
      (ground (arith, bytes 0, bytes 1, bytes 2), ground (arith, bytes 0, bytes 1, bytes 2))
