-- ===== src/Relocate/Laws.antt =====
-- The loop ends, returns only what was accepted, and misses nothing.
use mathlib.Core.List.Memᴰ
use qarax.Base.{
  ℕ, zero, suc, ◌≤◌, ◌<◌, ◌≡◌, refl, ap, ◌∙◌, inl, inr, false, not, ◌||◌, Option, some, List, [],
  ◌∷◌, ◌++◌, Memᴰ, count_if, Text, ◌==◌, nat_ord, ==_refl, Error, Result, ok, err, arith,
  Option-cases, Result-cases,
}
use qarax.Db.{Host}
use qarax.Schedule.{Double, SchedulingRequest, SchedulingSettings, pick_host, elem}
use qarax.Schedule.Laws.{pick_host-mem}
use qarax.Relocate.{Verdict, accept, reject, fail, Round, choose, or_last, no_destination}

-- To split on a verdict and keep the equation.
pub data VerdictCases {ℓ} {A : Type ℓ} (v : Verdict A) : Type ℓ where
  accepted : (a : A) → v ≡ accept a → VerdictCases v
  rejected : (reason : Option Text) → v ≡ reject reason → VerdictCases v
  failed : (e : Error) → v ≡ fail e → VerdictCases v

pub Verdict-cases {ℓ} : {A : Type ℓ} (v : Verdict A) → VerdictCases v
Verdict-cases (accept a) = accepted a refl
Verdict-cases (reject reason) = rejected reason refl
Verdict-cases (fail e) = failed e refl

elem-append_last : (i x : ℕ) (xs : List ℕ) → elem i (xs ++ x ∷ []) ≡ (elem i xs || (x == i))
elem-append_last i x [] = ground arith
elem-append_last i x (y ∷ ys) = ground (arith, elem-append_last i x ys)

-- How many of the identifiers are not excluded yet.
abbrev pub missing : List ℕ → List ℕ → ℕ
missing ids excluded = count_if (λ i. not (elem i excluded)) ids

missing-append_le :
    (x : ℕ) (ids excluded : List ℕ) → missing ids (excluded ++ x ∷ []) ≤ missing ids excluded
missing-append_le x [] excluded = omega arith
missing-append_le x (i ∷ ids) excluded =
    ground (arith, elem-append_last i x excluded, missing-append_le x ids excluded)

missing-append_lt :
    {x : ℕ} {ids : List ℕ} (excluded : List ℕ)
    → Memᴰ x ids
    → elem x excluded ≡ false
    → missing ids (excluded ++ x ∷ []) < missing ids excluded
missing-append_lt {x} excluded (Memᴰ.head {x = i} {xs = ids} e) new =
    ground (arith, e, elem-append_last i x excluded, missing-append_le x ids excluded, ==_refl x)
missing-append_lt {x} excluded (Memᴰ.tail {x = i} {xs = ids} m) new =
    ground (arith, elem-append_last i x excluded, missing-append_lt excluded m new)

module _ {ℓ} (d : Double) {A : Type ℓ} (world : ℕ → Result (Round d.F))
    (config : SchedulingSettings d.F) (base : SchedulingRequest) (name : Text)
    (try : ℕ → Host d.F → Verdict A) where
  open d use {F}

  -- The query that the loop makes in a round.
  abbrev pub query : Round F → List ℕ → Option (Host F)
  query r excluded = pick_host d r.db r.locked (record base { excluded_host_ids = excluded }) config

  -- The hosts of all rounds are among the identifiers.
  abbrev pub Within : List ℕ → Type 0
  Within ids =
      (round : ℕ) (r : Round F)
      → world round ≡ ok r
      → (h : Host F) → Memᴰ h r.db.hosts
      → Memᴰ h.id ids

  -- Where every host of every round is one of the listed identifiers, and the fuel exceeds the
  -- number of those not excluded yet, the loop ends with a result.
  pub choose_total :
      (ids : List ℕ)
      → Within ids
      → (fuel round : ℕ) (excluded : List ℕ) (last : Option Text) → missing ids excluded < fuel
      → (r : Result A) × (choose d world config base name try fuel round excluded last ≡ some r)
  unfolding choose
  choose_total ids w zero round excluded last h = absurd (omega arith)
  choose_total ids w (suc fuel) round excluded last h = elim (Result-cases (world round)) [
    | inr (e, fails) ↦ (err e, rw (fails, choose))
    | inl (r, reads) ↦ elim (Option-cases (query r excluded)) [
      | inl nobody ↦ (err (no_destination name last), rw (reads, nobody, choose))
      | inr (c, picks) ↦ elim (Verdict-cases (try round c)) [
        | accepted a e ↦ (ok a, rw (reads, picks, e, choose))
        | failed x e ↦ (err x, rw (reads, picks, e, choose))
        | rejected reason e ↦
            let seen =
              pick_host-mem d r.db r.locked (record base { excluded_host_ids = excluded }) config
                picks in
            let fewer = missing-append_lt excluded (w round r reads c seen.0) seen.1 in
            let rest =
              choose_total ids w fuel (suc round) (excluded ++ c.id ∷ []) (or_last reason last)
                (omega arith) in
            (rest.0, rw (reads, picks, e, choose) rest.1)
      ]
    ]
  ]

  -- The query and the acceptance that a result stems from: made in one round, with all that was
  -- excluded before still excluded.
  pub record Chosen (round : ℕ) (excluded : List ℕ) (a : A) : Type ℓ where
    pub at : ℕ
    pub read : Round F
    pub candidate : Host F
    pub without : List ℕ
    pub reads : world at ≡ ok read
    pub picks : query read without ≡ some candidate
    pub accepts : try at candidate ≡ accept a
    pub keeps : (i : ℕ) → Memᴰ i excluded → Memᴰ i without

  pub choose_sound :
      (fuel round : ℕ) (excluded : List ℕ) (last : Option Text) {a : A}
      → choose d world config base name try fuel round excluded last ≡ some (ok a)
      → Chosen round excluded a
  unfolding choose
  choose_sound zero round excluded last h = cc
  choose_sound (suc fuel) round excluded last {a} h = elim (Result-cases (world round)) [
    | inr (e, fails) ↦ absurd (ground (arith, fails))
    | inl (r, reads) ↦ elim (Option-cases (query r excluded)) [
      | inl nobody ↦ absurd (ground (arith, reads, nobody))
      | inr (c, picks) ↦ elim (Verdict-cases (try round c)) [
        | accepted b e ↦ record {
          at = round;
          read = r;
          candidate = c;
          without = excluded;
          reads = reads;
          picks = picks;
          accepts = e ∙ ap accept (ground (arith, reads, picks, e));
          keeps = λ i m. m;
        }
        | failed x e ↦ absurd (ground (arith, reads, picks, e))
        | rejected reason e ↦
            let c' =
              choose_sound fuel (suc round) (excluded ++ c.id ∷ []) (or_last reason last)
                (rw (reads, picks, e, choose) at h) in
            record {
              at = c'.at;
              read = c'.read;
              candidate = c'.candidate;
              without = c'.without;
              reads = c'.reads;
              picks = c'.picks;
              accepts = c'.accepts;
              keeps = λ i m. c'.keeps i (Memᴰ.append_left (c.id ∷ []) m);
            }
      ]
    ]
  ]
