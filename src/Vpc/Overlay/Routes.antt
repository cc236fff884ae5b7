-- ===== src/Vpc/Overlay/Routes.antt =====
-- The routes of an overlay: one for each subnet of each other host, over that host's own address.

use qarax.Base.{
  ◌^◌, ◌%◌, ℕ, ◌≡◌, refl, sym, subst, ap, ◌∙◌, ◌≢◌, ◌⊎◌, inl, inr, Option, none, some, List, [],
  ◌∷◌, Memᴰ, Text, ◌==◌, nat_ord, text_ord, pair_ord, ==_iff, Error, Result, ok, err, arith,
  Bool-cases, insert, mem-insert_self, mem-insert_of, of_mem-insert, >>=-eq_ok,
}
use qarax.Vpc.{AttachedNetwork}
use qarax.Vpc.Overlay.{
  World, Participants, position, ok_or, missing_host, overlay_ip, resolve_underlay_ip, Peers,
  add_routes, add_peer, add_peers,
}

abbrev pub Routes : Type 0
Routes = List (Text × Text)

add_routes-keeps :
    (via : Text) (as' : List AttachedNetwork) {routes : Routes} {e : Text × Text}
    → Memᴰ e routes
    → Memᴰ e (add_routes via as' routes)
unfolding add_routes
add_routes-keeps via [] m = m
add_routes-keeps via (a ∷ rest) m =
    add_routes-keeps via rest (mem-insert_of (a.network.subnet, via) m)

add_routes-mem :
    (via : Text) {a : AttachedNetwork} {as' : List AttachedNetwork} (routes : Routes)
    → Memᴰ a as'
    → Memᴰ (a.network.subnet, via) (add_routes via as' routes)
unfolding add_routes
add_routes-mem via {a} routes (Memᴰ.head {x = x} {xs = xs} e) =
    rw e (add_routes-keeps via xs (mem-insert_self (x.network.subnet, via) routes))
add_routes-mem via routes (Memᴰ.tail {x = x} {xs = xs} m) =
    add_routes-mem via (insert (x.network.subnet, via) routes) m

-- A route of the result was there before, or is to a subnet of an attachment.
abbrev RouteOf : Text → List AttachedNetwork → Text × Text → Type 0
RouteOf via as' e = (a : AttachedNetwork) × Memᴰ a as' × (e ≡ (a.network.subnet, via))

of_add_routes :
    (via : Text) (as' : List AttachedNetwork) (routes : Routes) (e : Text × Text)
    → Memᴰ e (add_routes via as' routes)
    → Memᴰ e routes ⊎ RouteOf via as' e
unfolding add_routes
of_add_routes via [] routes e m = inl m
of_add_routes via (a ∷ rest) routes e m =
    elim (of_add_routes via rest (insert (a.network.subnet, via) routes) e m) [
      | inl m' ↦ elim (of_mem-insert (a.network.subnet, via) routes m') [
        | inl is ↦ inr (a, Memᴰ.head refl, is)
        | inr old ↦ inl old
      ]
      | inr (b, mb, is) ↦ inr (b, Memᴰ.tail mb, is)
    ]

pub ok_or-some {ℓ} : {A : Type ℓ} (o : Option A) (e : Error) {a : A} → ok_or o e ≡ ok a → o ≡ some a
ok_or-some none e h = cc
ok_or-some (some b) e h = cc

module _ (w : World) (vpc_name : Text) (host_order : List ℕ) where
  -- What one successful step adds.
  record Added (remote : ℕ) (as' : List AttachedNetwork) (before after : Peers) : Type 0 where
    via : Text
    index : ℕ
    placed : position remote host_order ≡ some index
    addressed : overlay_ip w vpc_name index ≡ ok via
    added : after.routes ≡ add_routes via as' before.routes

  abbrev routes_of : Result Peers → Routes
  routes_of (ok p) = p.routes
  routes_of (err e) = []

  add_peer-Added :
      (remote : ℕ) (as' : List AttachedNetwork) (p : Peers) {q : Peers}
      → add_peer w vpc_name host_order remote as' p ≡ ok q
      → Added remote as' p q
  unfolding add_peer
  add_peer-Added remote [] p h = cc
  add_peer-Added remote (first ∷ rest) p {q} h =
      let (resolved, e1, h1) =
        >>=-eq_ok (resolve_underlay_ip w p.cache first.host_address (first.host_port % 2 ^ 16)) _
          h in
      let (index, e2, h2) =
        >>=-eq_ok (ok_or (position remote host_order) (missing_host vpc_name)) _ h1 in
      let (via, e3, h3) = >>=-eq_ok (overlay_ip w vpc_name index) _ h2 in
      record {
        via = via;
        index = index;
        placed = ok_or-some (position remote host_order) (missing_host vpc_name) e2;
        addressed = e3;
        added = ap (λ (r : Result Peers). routes_of r) (sym h3);
      }

  -- A step of the loop: a participant that is the host is passed over.
  data PeerStep (host remote : ℕ) (as' : List AttachedNetwork) (rest : Participants) (p q : Peers)
      : Type 0 where
    own :
        remote ≡ host
        → add_peers w vpc_name host host_order rest p ≡ ok q
        → PeerStep host remote as' rest p q
    other :
        (between : Peers)
        → remote ≢ host
        → Added remote as' p between
        → add_peers w vpc_name host host_order rest between ≡ ok q
        → PeerStep host remote as' rest p q

  peer_step :
      (host remote : ℕ) (as' : List AttachedNetwork) (rest : Participants) (p : Peers) {q : Peers}
      → add_peers w vpc_name host host_order ((remote, as') ∷ rest) p ≡ ok q
      → PeerStep host remote as' rest p q
  unfolding add_peers
  peer_step host remote as' rest p h = elim (Bool-cases (remote == host)) [
    | inl same ↦ own ((==_iff remote host).0 same) (rw (same, add_peers) at h)
    | inr differs ↦
        let (between, e, h') =
          >>=-eq_ok (add_peer w vpc_name host_order remote as' p) _
            (rw (differs, add_peers) at h) in
        other between (λ e'. ground (arith, e')) (add_peer-Added remote as' p e) h'
  ]

  add_peers-keeps :
      (host : ℕ) (parts : Participants) (p : Peers) {q : Peers} {e : Text × Text}
      → add_peers w vpc_name host host_order parts p ≡ ok q
      → Memᴰ e p.routes
      → Memᴰ e q.routes
  unfolding add_peers
  add_peers-keeps host [] p {e = e} h m = subst (λ (r : Routes). Memᴰ e r) (ap routes_of h) m
  add_peers-keeps host ((remote, as') ∷ rest) p h m = elim (peer_step host remote as' rest p h) [
    | own same h' ↦ add_peers-keeps host rest p h' m
    | other between differs a h' ↦
        add_peers-keeps host rest between h' (rw a.added (add_routes-keeps a.via as' m))
  ]

  -- A route to a subnet of another participant, over that participant's address.
  pub record RouteTo (host : ℕ) (parts : Participants) (e : Text × Text) : Type 0 where
    pub remote : ℕ
    pub attachments : List AttachedNetwork
    pub attachment : AttachedNetwork
    pub via : Text
    pub index : ℕ
    pub participates : Memᴰ (remote, attachments) parts
    pub attached : Memᴰ attachment attachments
    pub differs : remote ≢ host
    pub is_route : e ≡ (attachment.network.subnet, via)
    pub placed : position remote host_order ≡ some index
    pub addressed : overlay_ip w vpc_name index ≡ ok via

  later :
      {host : ℕ} {x : ℕ × List AttachedNetwork} {parts : Participants} {e : Text × Text}
      → RouteTo host parts e
      → RouteTo host (x ∷ parts) e
  later r = record {
    remote = r.remote;
    attachments = r.attachments;
    attachment = r.attachment;
    via = r.via;
    index = r.index;
    participates = Memᴰ.tail r.participates;
    attached = r.attached;
    differs = r.differs;
    is_route = r.is_route;
    placed = r.placed;
    addressed = r.addressed;
  }

  pub of_add_peers :
      (host : ℕ) (parts : Participants) (p : Peers) {q : Peers} (e : Text × Text)
      → add_peers w vpc_name host host_order parts p ≡ ok q
      → Memᴰ e q.routes
      → Memᴰ e p.routes ⊎ RouteTo host parts e
  unfolding add_peers
  of_add_peers host [] p e h m = inl (subst (λ (r : Routes). Memᴰ e r) (ap routes_of (sym h)) m)
  of_add_peers host ((remote, as') ∷ rest) p e h m = elim (peer_step host remote as' rest p h) [
    | own same h' ↦ elim (of_add_peers host rest p e h' m) [
      | inl old ↦ inl old
      | inr r ↦ inr (later r)
    ]
    | other between differs a h' ↦ elim (of_add_peers host rest between e h' m) [
      | inr r ↦ inr (later r)
      | inl m' ↦ elim (of_add_routes a.via as' p.routes e (rw a.added at m')) [
        | inl old ↦ inl old
        | inr (attachment, attached, is) ↦ inr (record {
          remote = remote;
          attachments = as';
          attachment = attachment;
          via = a.via;
          index = a.index;
          participates = Memᴰ.head refl;
          attached = attached;
          differs = differs;
          is_route = is;
          placed = a.placed;
          addressed = a.addressed;
        })
      ]
    ]
  ]

  abbrev pub Reaches : Routes → AttachedNetwork → ℕ → Type 0
  Reaches routes a remote =
      (via : Text) × (index : ℕ) × Memᴰ (a.network.subnet, via) routes
      × (position remote host_order ≡ some index)
      × (overlay_ip w vpc_name index ≡ ok via)

  pub add_peers-mem :
      (host : ℕ) {remote : ℕ} {as' : List AttachedNetwork} {parts : Participants} (p : Peers)
      {q : Peers} {a : AttachedNetwork}
      → add_peers w vpc_name host host_order parts p ≡ ok q
      → Memᴰ (remote, as') parts
      → remote ≢ host
      → Memᴰ a as'
      → Reaches q.routes a remote
  add_peers-mem host {remote} {as'} p {q} {a} h (Memᴰ.head {x = x} {xs = rest} e) ne m =
      elim (peer_step host x.0 x.1 rest p h) [
        | own same h' ↦ absurd (ne (ap (λ (y : ℕ × List AttachedNetwork). y.0) e ∙ same))
        | other between differs added h' ↦ (
          added.via,
          added.index,
          add_peers-keeps host rest between h' (
              rw added.added (
                add_routes-mem added.via p.routes
                  (subst (λ (y : ℕ × List AttachedNetwork). Memᴰ a y.1) e m))),
          ap (λ (y : ℕ × List AttachedNetwork). position y.0 host_order) e ∙ added.placed,
          added.addressed,
        )
      ]
  add_peers-mem host p h (Memᴰ.tail {x = x} {xs = rest} m') ne m =
      elim (peer_step host x.0 x.1 rest p h) [
        | own same h' ↦ add_peers-mem host p h' m' ne m
        | other between differs added h' ↦ add_peers-mem host between h' m' ne m
      ]
