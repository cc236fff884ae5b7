-- ===== src/Failover/Target.antt =====
-- The host that a failover settles on, and the pools of the VM's disks.
use mathlib.Core.List.Memᴰ
use qarax.Base.{
  ℕ, ◌^◌, ◌<◌, ◌≡◌, refl, ap, ◌∙◌, sym, subst, ◌≢◌, inl, inr, ◌⊎◌, Bool, true, false, Option, some,
  none, List, [], ◌∷◌, Memᴰ, map, nat_ord, arith, mem-filter_of, mem_of_any, Bool-cases,
  Option-cases, collect, mem-collect, ==_iff, and_true, ◌==◌, ◌&&◌, Result, ok, err, Result-cases,
  Text, sqlx, if◌then◌else◌,
}
use qarax.Db.{Vm, Host, is_up}
use qarax.Schedule.{Double, GpuRequest, PlacementPolicy, SchedulingRequest, elem}
use qarax.Schedule.Tests.{elem_iff}
use qarax.Lifecycle.Commit.{StoragePool}
use qarax.Control.{Store, World, query, lift, tick}
use qarax.Control.Rules.{of_bind, of_query}
use qarax.Failover.{
  Inventory, VmDisk, StorageObject, filter_map, ensure_shared, is_shared, pools_of_objects,
  shared_disk_pool_ids, search, host_has_pool, find_target, request_of, round_at, ended,
}
use qarax.Relocate.{
  has_all_pools, pools_verdict, accept, evacuation_scheduling_request, pick_failover_host, Round,
}
use qarax.Relocate.Laws.{choose_sound}
use qarax.Schedule.Laws.{pick_host-Candidate}
use qarax.Failover.Quiet.{Quiet, request-Quiet}

pub mem-filter_map :
    {A B : Type 0} (f : A → Option B) {x : A} {y : B} {xs : List A}
    → Memᴰ x xs
    → f x ≡ some y
    → Memᴰ y (filter_map f xs)
unfolding filter_map
mem-filter_map f {x} {y} (Memᴰ.head {x = z} {xs = r} e) h =
    rw (sym (ap f e) ∙ h, filter_map) (Memᴰ.head refl)
mem-filter_map f {x} {y} (Memᴰ.tail {x = z} {xs = r} m) h = elim (Option-cases (f z)) [
  | inl n ↦ rw (n, filter_map) (mem-filter_map f m h)
  | inr s ↦ rw (s.1, filter_map) (Memᴰ.tail (mem-filter_map f m h))
]

ensure_shared-all :
    (pools : List StoragePool) {p : StoragePool}
    → ensure_shared pools ≡ ok tt
    → Memᴰ p pools
    → is_shared p.pool_type ≡ true
unfolding ensure_shared
ensure_shared-all [] h m = absurd (Memᴰ.not-nil m)
ensure_shared-all (q ∷ qs) {p} h m = elim (Bool-cases (is_shared q.pool_type)) [
  | inr f ↦ cc (rw (f, ensure_shared) at h)
  | inl t ↦ elim (Memᴰ.cases_cons m) [
    | inl e ↦ ap (λ (x : StoragePool). is_shared x.pool_type) e ∙ t
    | inr r ↦ ensure_shared-all qs (rw (t, ensure_shared) at h) r
  ]
]

-- The pool of an object is required, and is shared.
pub record Requires {F : Type 0} (inv : Inventory F) (required : List ℕ) (o : StorageObject)
    : Type 0 where
  pub listed : Memᴰ o.storage_pool_id required
  pub shared :
      (p : StoragePool)
      → Memᴰ p inv.storage_pools
      → p.id ≡ o.storage_pool_id
      → is_shared p.pool_type ≡ true

-- The object is the base or the upper layer of a disk.
abbrev pub Backs : VmDisk → StorageObject → Type 0
Backs disk o = (disk.storage_object_id ≡ some o.id) ⊎ (disk.upper_storage_object_id ≡ some o.id)

module _ {F : Type 0} (w : World) (inv : Inventory F) where
  pools-Requires :
      (ids : List ℕ) (s : Store F) {required : List ℕ} {t : Store F}
      → pools_of_objects w inv ids s ≡ (ok required, t)
      → (o : StorageObject) → Memᴰ o inv.storage_objects
      → Memᴰ o.id ids
      → Requires inv required o
  unfolding pools_of_objects
  pools-Requires [] s h o m k = absurd (Memᴰ.not-nil k)
  pools-Requires (id ∷ ids) s {required} h o m k =
      let (objects, u, a, h1) = of_bind (query w _) _ s h in
      let (pools, v, b, h2) = of_bind (query w _) _ u h1 in
      let (checked, x, c, h3) = of_bind (lift _) _ v h2 in
      let is_objects = of_query w _ s a in
      let is_pools = of_query w _ u b in
      let found =
        subst (λ (os : List StorageObject). Memᴰ o os) (sym is_objects)
          (mem-filter_of (λ (o : StorageObject). elem o.id (id ∷ ids)) m ((elem_iff o.id _).1 k)) in
      let pool = mem-collect (Memᴰ.map (λ (o : StorageObject). o.storage_pool_id) found) in
      record {
        listed = subst (λ (ps : List ℕ). Memᴰ o.storage_pool_id ps) (same h3) pool;
        shared = λ p n e. ensure_shared-all pools (checks c) (
            subst (λ (ps : List StoragePool). Memᴰ p ps) (sym is_pools)
              (mem-filter_of
                (λ (p : StoragePool).
                  elem p.id (collect (map (λ (o : StorageObject). o.storage_pool_id) objects)))
                n ((elem_iff p.id _).1 (rw e pool))));
      }
    where
      same :
          {G : Type 0} {xs ys : List ℕ} {y z : Store G}
          → ◌≡◌ {A = Result (List ℕ) × Store G} (ok xs, y) (ok ys, z)
          → xs ≡ ys
      same q = cc q

      checks :
          {G : Type 0} {r : Result (Unit {0})} {x : Unit {0}} {y z : Store G}
          → ◌≡◌ {A = Result (Unit {0}) × Store G} (r, y) (ok x, z)
          → r ≡ ok tt
      checks q = ap (λ (p : Result (Unit {0}) × Store _). p.0) q

  pub shared-Requires :
      (vm : Vm) (s : Store F) {required : List ℕ} {t : Store F}
      → shared_disk_pool_ids w inv vm s ≡ (ok required, t)
      → (disk : VmDisk) → Memᴰ disk inv.vm_disks
      → disk.vm_id ≡ vm.id
      → (o : StorageObject) → Memᴰ o inv.storage_objects
      → Backs disk o
      → Requires inv required o
  unfolding shared_disk_pool_ids
  shared-Requires vm s h disk m of_vm o n backs =
      let (disks, u, a, h1) = of_bind (query w _) _ s h in
      let listed =
        subst (λ (ds : List VmDisk). Memᴰ disk ds) (sym (of_query w _ s a))
          (mem-filter_of (λ (d : VmDisk). d.vm_id == vm.id) m
            ((==_iff disk.vm_id vm.id).1 of_vm)) in
      pools-Requires _ u h1 o n (
        mem-collect (elim backs [
          | inl e ↦
              Memᴰ.append_left _ (mem-filter_map (λ (d : VmDisk). d.storage_object_id) listed e)
          | inr e ↦
              Memᴰ.append_right _
                (mem-filter_map (λ (d : VmDisk). d.upper_storage_object_id) listed e)
        ]))

has_all_pools-each :
    (has_pool : ℕ → ℕ → Result Bool) (host : ℕ) (pools : List ℕ) {pool : ℕ}
    → has_all_pools has_pool host pools ≡ ok true
    → Memᴰ pool pools
    → has_pool host pool ≡ ok true
unfolding has_all_pools
has_all_pools-each has_pool host [] h m = absurd (Memᴰ.not-nil m)
has_all_pools-each has_pool host (p ∷ ps) {pool} h m = elim (Result-cases (has_pool host p)) [
  | inr e ↦ cc (rw (e.1, has_all_pools) at h)
  | inl b ↦ elim (Bool-cases b.0) [
    | inr f ↦ absurd (refused (rw (b.1, f, has_all_pools) at h))
    | inl t ↦ elim (Memᴰ.cases_cons m) [
      | inl e ↦ ap (has_pool host) e ∙ (b.1 ∙ ap ok t)
      | inr r ↦ has_all_pools-each has_pool host ps (rw (b.1, t, has_all_pools) at h) r
    ]
  ]
]
  where
    refused : ok false ≡ ok true → ⊥
    refused q = cc q

-- What a failover asks of the host.
pub record Suits (F : Type 0) (inv : Inventory F) (hosts : List (Host F)) (dead_host_id : ℕ)
    (required : List ℕ) (target : Host F) : Type 0 where
  pub known : Memᴰ target hosts
  pub up : is_up target.status ≡ true
  pub elsewhere : target.id ≢ dead_host_id
  pub attached :
      (pool : ℕ)
      → Memᴰ pool required
      → (r : ℕ × ℕ) × Memᴰ r inv.host_storage_pools × (r.0 ≡ target.id) × (r.1 ≡ pool)

pools_verdict-accept :
    {A : Type 0} (a b : A) (r : Result Bool)
    → pools_verdict a r ≡ accept b
    → (a ≡ b) × (r ≡ ok true)
pools_verdict-accept a b (ok true) h = (ground arith, refl)
pools_verdict-accept a b (ok false) h = cc
pools_verdict-accept a b (err e) h = cc

pub ended-ok : {A : Type 0} {a : A} (o : Option (Result A)) → ended o ≡ ok a → o ≡ some (ok a)
ended-ok none h = cc h
ended-ok (some r) h = ap some h

module _ (d : Double) (inv : Inventory d.F)
    (bound : inv.scheduling.disk_headroom_bytes < 2 ^ 63) where
  open d use {F}

  attached-row :
      (s : Store F) (n host_id pool_id : ℕ)
      → host_has_pool d inv s n host_id pool_id ≡ ok true
      → (r : ℕ × ℕ) × Memᴰ r inv.host_storage_pools × (r.0 ≡ host_id) × (r.1 ≡ pool_id)
  attached-row s n host_id pool_id h =
      elim (Bool-cases (inv.pool_answers s.calls n host_id pool_id)) [
        | inr f ↦ cc (rw f at h)
        | inl t ↦
            let r =
              mem_of_any (λ (r : ℕ × ℕ). (r.0 == host_id) && (r.1 == pool_id))
                inv.host_storage_pools (value (rw t at h)) in
            let both = (and_true (r.0.0 == host_id) (r.0.1 == pool_id)).0 r.2 in
            (r.0, r.1, (==_iff r.0.0 host_id).0 both.0, (==_iff r.0.1 pool_id).0 both.1)
      ]
    where
      value : {b : Bool} → ok b ≡ ok true → b ≡ true
      value q = cc q

  search-Suits :
      (vm : Vm) (networks : List ℕ) (architecture : Option Text) (policy : Option PlacementPolicy)
      (dead_host_id : ℕ) (gpu : Option GpuRequest) (required : List ℕ) (s : Store F)
      {target : Host F}
      → search d inv
          (evacuation_scheduling_request vm networks architecture policy dead_host_id gpu)
          vm.name
          required
          s
        ≡ some (ok target)
      → Suits F inv s.hosts dead_host_id required target
  unfolding search pick_failover_host evacuation_scheduling_request
  search-Suits vm networks architecture policy dead_host_id gpu required s {target} h =
      let c = choose_sound d (round_at d inv s) _ _ _ _ _ _ _ _ h in
      let read = the_round (inv.round_answers s.calls c.at) c.reads in
      let placed =
        pick_host-Candidate d c.read.db c.read.locked _ inv.scheduling (omega (arith, bound))
          c.picks in
      let (same, pools) = pools_verdict-accept c.candidate target _ c.accepts in
      let ne = λ (e : c.candidate.id ≡ dead_host_id).
        placed.1.not_excluded
          (subst (λ (i : ℕ). Memᴰ i c.without) (sym e) (c.keeps dead_host_id (Memᴰ.head refl))) in
      subst (λ (h : Host F). Suits F inv s.hosts dead_host_id required h) same
        (record {
          known = subst (λ (r : Round F). Memᴰ c.candidate r.db.hosts) read placed.0;
          up = ap is_up placed.1.up;
          elsewhere = ne;
          attached = λ pool m.
              attached-row s c.at c.candidate.id pool
                (has_all_pools-each (host_has_pool d inv s c.at) c.candidate.id required pools m);
        })
    where
      the_round : {r x : Round F} (b : Bool) → (if b then ok x else err sqlx) ≡ ok r → r ≡ x
      the_round true q = cc q
      the_round false q = cc q

  pub find_target-Suits :
      (w : World) (vm : Vm) (dead_host_id : ℕ) (gpu : Option GpuRequest) (required : List ℕ)
      (s : Store F) {target : Host F} {t : Store F}
      → find_target d inv w vm dead_host_id required gpu s ≡ (ok target, t)
      → Suits F inv s.hosts dead_host_id required target
  unfolding find_target request_of
  find_target-Suits w vm dead_host_id gpu required s {target} h =
      let (request, u, a, h1) = of_bind (request_of d inv w vm dead_host_id gpu) _ s h in
      let (networks, v, b, h2) = of_bind (query w _) _ s a in
      let quiet : Quiet s u =
        subst (λ (r : Result SchedulingRequest × Store F). Quiet s r.1) a
          (request-Quiet d inv w vm dead_host_id gpu s) in
      subst (λ (hosts : List (Host F)). Suits F inv hosts dead_host_id required target) quiet.hosts
        (search-Suits vm _ _ _ dead_host_id gpu required u (found request u h2 h1))
    where
      found :
          {x : SchedulingRequest} {v t : Store F} {target : Host F} (request : SchedulingRequest)
          (u : Store F)
          → ◌≡◌ {A = Result SchedulingRequest × Store F} (ok x, v) (ok request, u)
          → ◌≡◌ {A = Result (Host F) × Store F}
              (ended (search d inv request vm.name required u), tick u)
              (ok target, t)
          → search d inv x vm.name required u ≡ some (ok target)
      found request u p q =
          ap (λ r. search d inv r vm.name required u) (same p)
          ∙ ended-ok _ (ap (λ (r : Result (Host F) × Store F). r.0) q)
        where
          same :
              {x y : SchedulingRequest} {v u : Store F}
              → ◌≡◌ {A = Result SchedulingRequest × Store F} (ok x, v) (ok y, u)
              → x ≡ y
          same e = cc e
