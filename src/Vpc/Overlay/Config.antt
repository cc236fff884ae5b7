-- ===== src/Vpc/Overlay/Config.antt =====
-- The overlay that a host is sent for a VPC.
use mathlib.Core.List.Memᴰ
use qarax.Base.{
  ◌^◌, ◌%◌, ℕ, ◌≡◌, refl, sym, subst, ap, ◌∙◌, ◌≢◌, inl, inr, ◌&&◌, not, Option, none, some, List,
  [], ◌++◌, Memᴰ, length, filter, Text, codes, ◌==◌, nat_ord, text_ord, pair_ord, ==_iff, ==_refl,
  ok, guard, arith, Bool-cases, leb, and_true, mem-filter_of, of_mem-filter, mem-collect, >>=-eq_ok,
}
use qarax.Schedule.Tests.{if_some_eq_iff}
use qarax.Vpc.{AttachedNetwork}
use qarax.Vpc.Overlay.{
  World, VpcOverlayConfig, in_vpc, Participants, vpc_participants, sorted_host_ids, position, ok_or,
  host_limit, missing_host, overlay_ip, overlay_ip_cidr, resolve_underlay_ip, Peers, add_peers,
  overlay_for, Cache,
}
use qarax.Vpc.Overlay.Index.{host_overlay_ip}
use qarax.Vpc.Overlay.Routes.{Routes, of_add_peers, add_peers-mem, ok_or-some}

of_participants :
    (attached : List AttachedNetwork) (vpc : Text) (host : ℕ) (as' : List AttachedNetwork)
    {a : AttachedNetwork}
    → Memᴰ (host, as') (vpc_participants attached vpc)
    → Memᴰ a as'
    → Memᴰ a attached × (a.network.vpc_name ≡ some vpc) × (a.host_id ≡ host)
unfolding vpc_participants in_vpc
of_participants attached vpc host as' {a} m m' =
    let (h, mh, e) =
      Memᴰ.of_map
        (λ (host : ℕ).
          (host, filter (λ (a : AttachedNetwork). in_vpc vpc a && (a.host_id == host)) attached))
        _ m in
    let n =
      of_mem-filter (λ (a : AttachedNetwork). in_vpc vpc a && (a.host_id == h)) attached
        (subst (λ (y : ℕ × List AttachedNetwork). Memᴰ a y.1) (sym e) m') in
    let t = (and_true (in_vpc vpc a) (a.host_id == h)).0 n.1 in
    (
      n.0,
      (if_some_eq_iff a.network.vpc_name vpc).0 t.0,
      (==_iff a.host_id h).0 t.1 ∙ ap (λ (y : ℕ × List AttachedNetwork). y.0) e,
    )

mem_participants :
    (attached : List AttachedNetwork) (vpc : Text) (a : AttachedNetwork)
    → Memᴰ a attached
    → a.network.vpc_name ≡ some vpc
    → (as' : List AttachedNetwork) × Memᴰ (a.host_id, as') (vpc_participants attached vpc)
      × Memᴰ a as'
unfolding vpc_participants in_vpc
mem_participants attached vpc a m inside =
    let member = (if_some_eq_iff a.network.vpc_name vpc).1 inside in
    (
      filter (λ b. in_vpc vpc b && (b.host_id == a.host_id)) attached,
      Memᴰ.map
          (λ (host : ℕ).
            (host, filter (λ (b : AttachedNetwork). in_vpc vpc b && (b.host_id == host)) attached))
          (mem-collect
            (Memᴰ.map (λ (b : AttachedNetwork). b.host_id) (mem-filter_of (in_vpc vpc) m member))),
      mem-filter_of (λ (b : AttachedNetwork). in_vpc vpc b && (b.host_id == a.host_id)) m
          ((and_true _ _).1 (member, ==_refl a.host_id)),
    )

-- What an overlay's configuration says of the VPC.
pub record Joins (w : World) (attached : List AttachedNetwork) (host : ℕ) (vpc : Text)
    (c : VpcOverlayConfig) : Type 0 where
  pub local_ip : Text
  pub is_local : host_overlay_ip w attached vpc host ≡ ok local_ip
  pub has_cidr : c.local_overlay_cidr ≡ local_ip ++ codes "/24"
  pub leads :
      (subnet via : Text)
      → Memᴰ (subnet, via) c.routes
      → (a : AttachedNetwork) × Memᴰ a attached
        × (a.network.vpc_name ≡ some vpc)
        × (a.host_id ≢ host)
        × (a.network.subnet ≡ subnet)
        × (host_overlay_ip w attached vpc a.host_id ≡ ok via)
  pub covers :
      (a : AttachedNetwork)
      → Memᴰ a attached
      → a.network.vpc_name ≡ some vpc
      → a.host_id ≢ host
      → (via : Text) × Memᴰ (a.network.subnet, via) c.routes
        × (host_overlay_ip w attached vpc a.host_id ≡ ok via)

module _ (w : World) (attached : List AttachedNetwork) (host : ℕ) (vpc : Text) where
  abbrev parts : Participants
  parts = vpc_participants attached vpc

  abbrev order : List ℕ
  order = sorted_host_ids parts

  overlay_ip_at :
      (h : ℕ) {i : ℕ} {ip : Text}
      → position h order ≡ some i
      → overlay_ip w vpc i ≡ ok ip
      → host_overlay_ip w attached vpc h ≡ ok ip
  unfolding host_overlay_ip
  overlay_ip_at h p e = rw (p, host_overlay_ip) e

  Joins-of :
      (i : ℕ) (ip : Text) (p : Peers) {q : Peers} (c : VpcOverlayConfig)
      → position host order ≡ some i
      → overlay_ip w vpc i ≡ ok ip
      → p.routes ≡ []
      → add_peers w vpc host order parts p ≡ ok q
      → c.local_overlay_cidr ≡ ip ++ codes "/24"
      → c.routes ≡ q.routes
      → Joins w attached host vpc c
  Joins-of i ip p {q} c placed is_ip start h cidr routes = record {
    local_ip = ip;
    is_local = overlay_ip_at host placed is_ip;
    has_cidr = cidr;
    leads = λ subnet via m.
        elim (of_add_peers w vpc order host parts p (subnet, via) h (rw routes at m)) [
          | inl old ↦ absurd (Memᴰ.not-nil (rw start at old))
          | inr r ↦
              let (ma, inside, same) =
                of_participants attached vpc r.remote r.attachments r.participates r.attached in
              (
                r.attachment,
                ma,
                inside,
                (λ e. r.differs (sym same ∙ e)),
                sym (ap (λ (y : Text × Text). y.0) r.is_route),
                overlay_ip_at r.attachment.host_id
                    (ap (λ (y : ℕ). position y order) same ∙ r.placed)
                    (r.addressed ∙ ap (λ (y : Text × Text). ok y.1) (sym r.is_route)),
              )
        ];
    covers = λ a ma inside differs.
        let (as', mp, m') = mem_participants attached vpc a ma inside in
        let (via, index, mr, at, addr) = add_peers-mem w vpc order host p h mp differs m' in
        (via, rw routes mr, overlay_ip_at a.host_id at addr);
  }

  ok-injective {ℓ} : {A : Type ℓ} {a b : A} → ok a ≡ ok b → a ≡ b
  ok-injective e = cc

  abbrev cidr_of : Option VpcOverlayConfig → Text
  cidr_of none = []
  cidr_of (some c) = c.local_overlay_cidr

  abbrev routes_of : Option VpcOverlayConfig → Routes
  routes_of none = []
  routes_of (some c) = c.routes

  -- The overlay that a host is sent for a VPC gives the host its own address in the VPC, and its
  -- routes are exactly: for each subnet attached on another host of the VPC, a route over the
  -- address which that other host has, that is, the local address in the overlay it is itself sent
  -- from the same attachments.
  pub overlay_for-Joins :
      (address : Text) (port : ℕ) (cache : Cache) {c : VpcOverlayConfig} {cache' : Cache}
      → overlay_for w attached host address port vpc cache ≡ ok (some c, cache')
      → Joins w attached host vpc c
  unfolding overlay_for overlay_ip_cidr
  overlay_for-Joins address port cache {c} h = elim (Bool-cases (leb (length parts) 1)) [
    | inl alone ↦ absurd (ground (arith, alone))
    | inr several ↦
        let h0 = rw (several, overlay_for) at h in
        let (_, _, h1) = >>=-eq_ok (guard (not (leb 255 (length order))) (host_limit vpc)) _ h0 in
        let (i, e2, h2) = >>=-eq_ok (ok_or (position host order) (missing_host vpc)) _ h1 in
        let (resolved, e3, h3) =
          >>=-eq_ok (resolve_underlay_ip w cache address (port % 2 ^ 16)) _ h2 in
        let (cidr, e4, h4) = >>=-eq_ok (overlay_ip_cidr w vpc i) _ h3 in
        let start : Peers = record { cache = resolved.1; underlay_ips = []; routes = [] } in
        let (peers, e5, h5) = >>=-eq_ok (add_peers w vpc host order parts start) _ h4 in
        let sent = ap (λ (t : Option VpcOverlayConfig × Cache). t.0) (ok-injective (sym h5)) in
        let (ip, e6, h6) = >>=-eq_ok (overlay_ip w vpc i) _ e4 in
        Joins-of i ip start c (ok_or-some (position host order) (missing_host vpc) e2) e6 refl e5
          (ap cidr_of sent ∙ ok-injective (sym h6)) (ap routes_of sent)
  ]
