-- ===== src/Migration/Checks.antt =====
-- What the checks of a migration guarantee.
use mathlib.Core.List.Memᴰ
use qarax.Base.{
  ℕ, ◌≡◌, ◌≢◌, ap, ◌∙◌, sym, subst, inl, inr, true, false, ◌&&◌, not, Option, some, none, List, [],
  ◌∷◌, Memᴰ, filter, map, collect, mem-collect, mem-filter_of, mem_of_any, mem-sort_by, nat_ord,
  ◌==◌, ==_iff, and_true, Bool-cases, Error, Result, ok, guard,
}
use qarax.Db.{Vm, Host, HostGpu}
use qarax.Schedule.{elem}
use qarax.Schedule.Tests.{elem_iff, not-true_iff}
use qarax.Control.{Store, World, query, lift, find_host, some_or}
use qarax.Control.Rules.{Within, bind-Within, query-Within, some_or-Within, of_query}
use qarax.Control.Reads.{Reads-frame, host_gpus-Reads, of_read, of_lift, guard-true}
use qarax.Lifecycle.{ensure_host_matches_architecture, persisted_vm_architecture}
use qarax.Lifecycle.Commit.{StoragePool}
use qarax.Gpus.{list_by_vm, holds, by_pci_address}
use qarax.Failover.{Inventory, VmDisk, StorageObject, filter_map, is_shared}
use qarax.Failover.Target.{Backs, mem-filter_map}
use qarax.Migration.{
  check_pools, check_objects, require_by_id, is_nil, check_disks, check_no_gpus, check_move,
}

-- The pools of the disk's objects are shared, and attached to the host.
abbrev pub Movable : {F : Type 0} → Inventory F → ℕ → VmDisk → Type 0
Movable inv host_id disk =
    (o : StorageObject)
    → Memᴰ o inv.storage_objects
    → Backs disk o
    → (p : StoragePool) → Memᴰ p inv.storage_pools
    → p.id ≡ o.storage_pool_id
    → (is_shared p.pool_type ≡ true)
      × ((r : ℕ × ℕ) × Memᴰ r inv.host_storage_pools × (r.0 ≡ host_id) × (r.1 ≡ p.id))

module _ {F : Type 0} (w : World) (inv : Inventory F) where
  pub require_by_id-found :
      (host_id : ℕ) (s : Store F) {h : Host F} {t : Store F}
      → require_by_id w inv host_id s ≡ (ok h, t)
      → find_host host_id s.hosts ≡ some h
  unfolding require_by_id
  require_by_id-found host_id s e =
      let (found, u, a, r, k) = of_read (query w _) _ s (query-Within Reads-frame w _) e in
      sym (of_query w _ s a) ∙ present found u _ k
    where
      present :
          {G : Type 0} {h : Host F} {t : Store G} (o : Option (Host F)) (u : Store G) (e : Error)
          → ◌≡◌ {A = Result (Host F) × Store G} (some_or o e u) (ok h, t)
          → o ≡ some h
      present none u e q = cc q
      present (some x) u e q = cc q

  pub require_by_id-Reads : (host_id : ℕ) → Within Reads-frame (require_by_id w inv host_id)
  unfolding require_by_id
  require_by_id-Reads host_id =
      bind-Within Reads-frame (query w _) _ (query-Within Reads-frame w _)
        (λ found. some_or-Within Reads-frame found _)

  module _ (host_id : ℕ) (unsupported missing : StoragePool → Error) where
    check_pools-Reads :
        (pools : List StoragePool)
        → Within Reads-frame (check_pools w inv host_id unsupported missing pools)
    unfolding check_pools
    check_pools-Reads [] = Reads-frame.stay
    check_pools-Reads (pool ∷ pools) =
        bind-Within Reads-frame (lift (guard (is_shared pool.pool_type) (unsupported pool))) _
          Reads-frame.stay
          (λ shared.
            bind-Within Reads-frame (query w _) _ (query-Within Reads-frame w _) (λ has_pool.
              bind-Within Reads-frame (lift (guard has_pool (missing pool))) _ Reads-frame.stay
                (λ attached. check_pools-Reads pools)))

    check_pools-each :
        (pools : List StoragePool) (s : Store F) {u : Unit {0}} {t : Store F}
        → check_pools w inv host_id unsupported missing pools s ≡ (ok u, t)
        → (p : StoragePool) → Memᴰ p pools
        → (is_shared p.pool_type ≡ true)
          × ((r : ℕ × ℕ) × Memᴰ r inv.host_storage_pools × (r.0 ≡ host_id) × (r.1 ≡ p.id))
    unfolding check_pools
    check_pools-each [] s h p m = absurd (Memᴰ.not-nil m)
    check_pools-each (q ∷ qs) s h p m =
        let (x, u, a, r1, h1) =
          of_read (lift (guard (is_shared q.pool_type) (unsupported q))) _ s Reads-frame.stay h in
        let (has_pool, v, b, r2, h2) = of_read (query w _) _ u (query-Within Reads-frame w _) h1 in
        let (y, z, c, r3, h3) =
          of_read (lift (guard has_pool (missing q))) _ v Reads-frame.stay h2 in
        elim (Memᴰ.cases_cons m) [
          | inr n ↦ check_pools-each qs z h3 p n
          | inl e ↦
              let row =
                mem_of_any (λ (r : ℕ × ℕ). (r.0 == host_id) && (r.1 == q.id)) inv.host_storage_pools
                  (sym (of_query w _ u b) ∙ guard-true has_pool _ (of_lift _ v c)) in
              let both = (and_true (row.0.0 == host_id) (row.0.1 == q.id)).0 row.2 in
              (
                ap (λ (x : StoragePool). is_shared x.pool_type) e ∙ guard-true _ _ (of_lift _ s a),
                (
                  row.0,
                  row.1,
                  (==_iff row.0.0 host_id).0 both.0,
                  (==_iff row.0.1 q.id).0 both.1 ∙ sym (ap (λ (x : StoragePool). x.id) e),
                ),
              )
        ]

    check_objects-Reads :
        (ids : List ℕ) → Within Reads-frame (check_objects w inv host_id unsupported missing ids)
    unfolding check_objects
    check_objects-Reads [] = Reads-frame.stay
    check_objects-Reads (id ∷ ids) =
        bind-Within Reads-frame (query w _) _ (query-Within Reads-frame w _) (λ objects.
          bind-Within Reads-frame (query w _) _ (query-Within Reads-frame w _)
            (λ pools. check_pools-Reads pools))

    check_objects-each :
        (ids : List ℕ) (s : Store F) {u : Unit {0}} {t : Store F}
        → check_objects w inv host_id unsupported missing ids s ≡ (ok u, t)
        → (o : StorageObject) → Memᴰ o inv.storage_objects
        → Memᴰ o.id ids
        → (p : StoragePool) → Memᴰ p inv.storage_pools
        → p.id ≡ o.storage_pool_id
        → (is_shared p.pool_type ≡ true)
          × ((r : ℕ × ℕ) × Memᴰ r inv.host_storage_pools × (r.0 ≡ host_id) × (r.1 ≡ p.id))
    unfolding check_objects
    check_objects-each [] s h o m k p n e = absurd (Memᴰ.not-nil k)
    check_objects-each (id ∷ ids) s h o m k p n e =
        let (objects, u, a, r1, h1) = of_read (query w _) _ s (query-Within Reads-frame w _) h in
        let (pools, v, b, r2, h2) = of_read (query w _) _ u (query-Within Reads-frame w _) h1 in
        let found =
          subst (λ (os : List StorageObject). Memᴰ o os) (sym (of_query w _ s a))
            (mem-filter_of (λ (o : StorageObject). elem o.id (id ∷ ids)) m
              ((elem_iff o.id _).1 k)) in
        let listed = mem-collect (Memᴰ.map (λ (o : StorageObject). o.storage_pool_id) found) in
        check_pools-each pools v h2 p (
          subst (λ (ps : List StoragePool). Memᴰ p ps) (sym (of_query w _ u b))
            (mem-filter_of
              (λ (p : StoragePool).
                elem p.id (collect (map (λ (o : StorageObject). o.storage_pool_id) objects)))
              n ((elem_iff p.id _).1 (rw e listed))))

  no_gpu_held :
      (vm_id : ℕ) (gpus : List HostGpu)
      → is_nil (list_by_vm vm_id gpus) ≡ true
      → (g : HostGpu) → Memᴰ g gpus
      → holds vm_id g ≡ false
  unfolding list_by_vm
  no_gpu_held vm_id gpus h g m = elim (Bool-cases (holds vm_id g)) [
    | inr f ↦ f
    | inl t ↦ absurd (
        some_row _
          (mem-sort_by by_pci_address (filter (holds vm_id) gpus) (mem-filter_of (holds vm_id) m t))
          h)
  ]
    where
      some_row : (xs : List HostGpu) → Memᴰ g xs → is_nil xs ≡ true → ⊥
      some_row [] k e = Memᴰ.not-nil k
      some_row (x ∷ xs) k e = cc e

  check_disks-Reads : (vm_id host_id : ℕ) → Within Reads-frame (check_disks w inv vm_id host_id)
  unfolding check_disks
  check_disks-Reads vm_id host_id =
      bind-Within Reads-frame (query w _) _ (query-Within Reads-frame w _) (λ disks.
        bind-Within Reads-frame (check_objects w inv host_id _ _ _) _
          (check_objects-Reads host_id _ _ _) (λ based. check_objects-Reads host_id _ _ _))

  check_disks-Movable :
      (vm_id host_id : ℕ) (s : Store F) {u : Unit {0}} {t : Store F}
      → check_disks w inv vm_id host_id s ≡ (ok u, t)
      → (disk : VmDisk) → Memᴰ disk inv.vm_disks
      → disk.vm_id ≡ vm_id
      → Movable inv host_id disk
  unfolding check_disks
  check_disks-Movable vm_id host_id s h disk m of_vm o n backs p k e =
      let (disks, s1, e1, r1, h1) = of_read (query w _) _ s (query-Within Reads-frame w _) h in
      let (x, s2, e2, r2, h2) =
        of_read
          (check_objects w inv host_id _ _ (filter_map (λ (d : VmDisk). d.storage_object_id) disks))
          _ s1 (check_objects-Reads host_id _ _ _) h1 in
      let listed =
        subst (λ (ds : List VmDisk). Memᴰ disk ds) (sym (of_query w _ s e1))
          (mem-filter_of (λ (d : VmDisk). d.vm_id == vm_id) m
            ((==_iff disk.vm_id vm_id).1 of_vm)) in
      elim backs [
        | inl base ↦
            check_objects-each host_id _ _ _ s1 e2 o n
              (mem-filter_map (λ (d : VmDisk). d.storage_object_id) listed base) p k e
        | inr upper ↦
            check_objects-each host_id _ _ _ s2 h2 o n
              (mem-filter_map (λ (d : VmDisk). d.upper_storage_object_id) listed upper) p k e
      ]

  check_no_gpus-Reads : (vm_id : ℕ) → Within Reads-frame (check_no_gpus w inv vm_id)
  unfolding check_no_gpus
  check_no_gpus-Reads vm_id =
      bind-Within Reads-frame (query w _) _ (query-Within Reads-frame w _)
        (λ gpus. Reads-frame.stay)

  check_no_gpus-none :
      (vm_id : ℕ) (s : Store F) {u : Unit {0}} {t : Store F}
      → check_no_gpus w inv vm_id s ≡ (ok u, t)
      → (g : HostGpu) → Memᴰ g s.host_gpus
      → holds vm_id g ≡ false
  unfolding check_no_gpus
  check_no_gpus-none vm_id s h g m =
      let (gpus, s1, e1, r1, h1) = of_read (query w _) _ s (query-Within Reads-frame w _) h in
      no_gpu_held vm_id s.host_gpus
        (ap is_nil (sym (of_query w _ s e1)) ∙ guard-true (is_nil gpus) _ (of_lift _ s1 h1)) g m

  pub check_move-Reads :
      (vm_id : ℕ) (vm : Vm) (source target : Host F)
      → Within Reads-frame (check_move w inv vm_id vm source target)
  unfolding check_move
  check_move-Reads vm_id vm source target =
      bind-Within Reads-frame (lift (guard (not (source.id == target.id)) _)) _ Reads-frame.stay
        (λ elsewhere.
          bind-Within Reads-frame
            (lift (ensure_host_matches_architecture target (persisted_vm_architecture vm))) _
            Reads-frame.stay
            (λ matches.
              bind-Within Reads-frame (check_no_gpus w inv vm_id) _ (check_no_gpus-Reads vm_id)
                (λ none_held.
                  bind-Within Reads-frame (check_disks w inv vm_id target.id) _
                    (check_disks-Reads vm_id target.id) (λ movable. Reads-frame.ticks))))

  pub check_move_sound :
      (vm_id : ℕ) (vm : Vm) (source target : Host F) (s : Store F) {u : Unit {0}} {t : Store F}
      → check_move w inv vm_id vm source target s ≡ (ok u, t)
      → (source.id ≢ target.id)
        × ((g : HostGpu) → Memᴰ g s.host_gpus → holds vm_id g ≡ false)
        × ((disk : VmDisk)
            → Memᴰ disk inv.vm_disks
            → disk.vm_id ≡ vm_id
            → Movable inv target.id disk)
  unfolding check_move
  check_move_sound vm_id vm source target s h =
      let (x1, s1, e1, r1, h1) =
        of_read (lift (guard (not (source.id == target.id)) _)) _ s Reads-frame.stay h in
      let (x2, s2, e2, r2, h2) =
        of_read (lift (ensure_host_matches_architecture target (persisted_vm_architecture vm))) _ s1
          Reads-frame.stay h1 in
      let (x3, s3, e3, r3, h3) =
        of_read (check_no_gpus w inv vm_id) _ s2 (check_no_gpus-Reads vm_id) h2 in
      let (x4, s4, e4, r4, h4) =
        of_read (check_disks w inv vm_id target.id) _ s3 (check_disks-Reads vm_id target.id) h3 in
      (
        λ same. differ (
            sym ((not-true_iff _).0 (guard-true _ _ (of_lift _ s e1)))
            ∙ (==_iff source.id target.id).1 same),
        λ g m. check_no_gpus-none vm_id s2 e3 g (
            subst (λ (gs : List HostGpu). Memᴰ g gs)
              (sym (host_gpus-Reads r1) ∙ sym (host_gpus-Reads r2)) m),
        check_disks-Movable vm_id target.id s3 e4,
      )
    where
      differ : false ≡ true → ⊥
      differ q = cc q
