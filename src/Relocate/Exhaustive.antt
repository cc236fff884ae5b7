-- ===== src/Relocate/Exhaustive.antt =====
-- While the tables do not change, the loop finds a host whenever some candidate is accepted.
use mathlib.Core.List.Memᴰ
use qarax.Base.{
  ℕ, zero, suc, ◌+◌, ◌^◌, ◌≤◌, ◌<◌, ◌≡◌, refl, sym, subst, ap, ◌≢◌, inl, inr, Option, some, List,
  [], ◌∷◌, ◌++◌, Memᴰ, Text, nat_ord, Error, Result, ok, err, arith, Option-cases, Bool-cases, map,
  length, ==_iff, ◌==◌,
}
use qarax.Db.{Host}
use qarax.Schedule.{Double, SchedulingRequest, SchedulingSettings, pick_host}
use qarax.Schedule.Laws.{Candidate, pick_host-mem, pick_host-none, pick_host-Candidate}
use qarax.Relocate.{Verdict, accept, fail, Round, choose, or_last}
use qarax.Relocate.Laws.{
  Verdict-cases, accepted, rejected, failed, missing, choose_total, choose_sound,
}

ok_injective : {F : Type 0} {r t : Round F} → ok r ≡ ok t → r ≡ t
ok_injective h = cc

module _ {ℓ} (d : Double) {A : Type ℓ} (r : Round d.F) (config : SchedulingSettings d.F)
    (base : SchedulingRequest) (name : Text) (try : Host d.F → Verdict A)
    (bound : base.disk_bytes + config.disk_headroom_bytes < 2 ^ 63)
    (key : (h k : Host d.F) → Memᴰ h r.db.hosts → Memᴰ k r.db.hosts → h.id ≡ k.id → h ≡ k) where
  open d use {F}

  abbrev pub Serves : List ℕ → Host F → Type 0
  Serves excluded = Candidate d r.db r.locked (record base { excluded_host_ids = excluded }) config

  not_appended : {x y : ℕ} (xs : List ℕ) → ¬ Memᴰ x xs → x ≢ y → ¬ Memᴰ x (xs ++ y ∷ [])
  not_appended xs n ne m = elim (Memᴰ.append_cases xs m) [
    | inl m' ↦ n m'
    | inr m' ↦ ne (Memᴰ.eq_of_singleton m')
  ]

  still-Serves :
      (excluded : List ℕ) (c h : Host F)
      → h.id ≢ c.id
      → Serves excluded h
      → Serves (excluded ++ c.id ∷ []) h
  still-Serves excluded c h ne s = (
    s.0,
    record {
      unlocked = s.1.unlocked;
      up = s.1.up;
      has_storage = s.1.has_storage;
      not_excluded = not_appended excluded s.1.not_excluded ne;
      attached = s.1.attached;
      runs_architecture = s.1.runs_architecture;
      admitted = s.1.admitted;
      memory = s.1.memory;
      cpus = s.1.cpus;
      healthy = s.1.healthy;
      disk = s.1.disk;
      gpus = s.1.gpus;
    },
  )

  -- A loop that ends in an error while no verdict is a failure has tried every host that serves.
  pub choose_exhaustive :
      ((h : Host F) (e : Error) → try h ≢ fail e)
      → (fuel round : ℕ) (excluded : List ℕ) (last : Option Text) {e : Error}
      → choose d (λ _. ok r) config base name (λ _. try) fuel round excluded last ≡ some (err e)
      → (h : Host F) → Serves excluded h
      → (a : A) → try h ≢ accept a
  unfolding choose
  choose_exhaustive sure zero round excluded last e h s a acc = cc
  choose_exhaustive sure (suc fuel) round excluded last e h s a acc =
      elim (Option-cases
        (pick_host d r.db r.locked (record base { excluded_host_ids = excluded }) config)) [
          | inl nobody ↦
              pick_host-none d r.db r.locked (record base { excluded_host_ids = excluded }) config
                bound nobody h s
          | inr (c, picks) ↦ elim (Verdict-cases (try c)) [
            | accepted b v ↦ ground (arith, picks, v)
            | failed x v ↦ sure c x v
            | rejected reason v ↦ elim (Bool-cases (h.id == c.id)) [
              | inl same ↦
                  let seen =
                    pick_host-mem d r.db r.locked (record base { excluded_host_ids = excluded })
                      config picks in
                  cc (ap try (key h c s.0 seen.0 ((==_iff h.id c.id).0 same)), v, acc)
              | inr other ↦
                  choose_exhaustive sure fuel (suc round) (excluded ++ c.id ∷ [])
                    (or_last reason last) (rw (picks, v, choose) at e) h
                    (still-Serves excluded c h (λ eq'. ground (arith, eq')) s) a acc
            ]
          ]
        ]

  Serves-with_fewer :
      (excluded without : List ℕ) (c : Host F)
      → ((i : ℕ) → Memᴰ i excluded → Memᴰ i without)
      → Serves without c
      → Serves excluded c
  Serves-with_fewer excluded without c keeps s = (
    s.0,
    record {
      unlocked = s.1.unlocked;
      up = s.1.up;
      has_storage = s.1.has_storage;
      not_excluded = λ m. s.1.not_excluded (keeps c.id m);
      attached = s.1.attached;
      runs_architecture = s.1.runs_architecture;
      admitted = s.1.admitted;
      memory = s.1.memory;
      cpus = s.1.cpus;
      healthy = s.1.healthy;
      disk = s.1.disk;
      gpus = s.1.gpus;
    },
  )

  missing-le-length : (ids excluded : List ℕ) → missing ids excluded ≤ length ids
  missing-le-length [] excluded = omega arith
  missing-le-length (i ∷ ids) excluded = ground (arith, missing-le-length ids excluded)

  length-map-id : (hs : List (Host F)) → length (map (λ h. h.id) hs) ≡ length hs
  length-map-id [] = refl
  length-map-id (h ∷ hs) = omega (arith, length-map-id hs)

  abbrev pub Finds : List ℕ → Result A → Type ℓ
  Finds excluded (ok a) = (c : Host F) × Serves excluded c × (try c ≡ accept a)
  Finds excluded (err e) = (h : Host F) → Serves excluded h → (a : A) → try h ≢ accept a

  -- The loop's result, whichever it is: an accepted host that serves, or an error that means that
  -- there is none.
  pub choose_complete :
      ((h : Host F) (e : Error) → try h ≢ fail e)
      → (fuel : ℕ) (excluded : List ℕ) (last : Option Text) → length r.db.hosts < fuel
      → (result : Result A) × (choose d (λ _. ok r) config base name (λ _. try) fuel 0 excluded last
          ≡ some result)
        × Finds excluded result
  choose_complete sure fuel excluded last enough =
      let ids = map (λ (h : Host F). h.id) r.db.hosts in
      let (result, ends) =
        choose_total d (λ _. ok r) config base name (λ _. try) ids
          (λ round r' e h m.
            Memᴰ.map (λ (h : Host F). h.id)
              (subst (λ (t : Round F). Memᴰ h t.db.hosts) (ok_injective (sym e)) m))
          fuel 0 excluded last
          (omega (arith, missing-le-length ids excluded, length-map-id r.db.hosts)) in
      (result, ends, finds result ends)
    where
      finds :
          (result : Result A)
          → choose d (λ _. ok r) config base name (λ _. try) fuel 0 excluded last ≡ some result
          → Finds excluded result
      finds (err e) ends = choose_exhaustive sure fuel 0 excluded last ends
      finds (ok a) ends =
          let c =
            choose_sound d (λ _. ok r) config base name (λ _. try) fuel 0 excluded last ends in
          (
            c.candidate,
            Serves-with_fewer excluded c.without c.candidate c.keeps (
                pick_host-Candidate d r.db r.locked (record base { excluded_host_ids = c.without })
                  config bound
                  (subst
                    (λ (t : Round F).
                      pick_host d t.db t.locked (record base { excluded_host_ids = c.without })
                        config
                      ≡ some c.candidate)
                    (ok_injective (sym c.reads)) c.picks)),
            c.accepts,
          )
