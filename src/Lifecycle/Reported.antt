-- ===== src/Lifecycle/Reported.antt =====
-- What the monitor of the VMs writes, against what the host says.
use qarax.Base.{
  ℕ, zero, suc, ◌≡◌, refl, ◌≢◌, inl, inr, true, false, Option, some, none, Bool-cases, ◌⊎◌, ◌<◌,
  ==_iff, ◌==◌, subst, Text, codes, arith, nat_ord, sym, ap, ◌∙◌, ==_refl, text_ord, if◌then◌else◌,
}
use qarax.Db.{VmStatus}
use qarax.Lifecycle.{same_status, status_name}
use qarax.Lifecycle.Monitor.{
  VmInfo, state, missing, no_answer, is_watched, status_when_missing_on_node, status_of_created,
  proto_status_to_db, changed_to, observed,
}

-- A status that is a step of the control plane's own work.
abbrev pub IsInner : VmStatus → Type 0
IsInner VmStatus.pending = Unit
IsInner VmStatus.migrating = Unit
IsInner VmStatus.committing = Unit
IsInner _ = ⊥

-- The control plane works on the VM.
abbrev pub IsBusy : VmStatus → Type 0
IsBusy VmStatus.migrating = Unit
IsBusy VmStatus.committing = Unit
IsBusy _ = ⊥

-- What the host says where a VM gets the status.
abbrev pub Says : VmStatus → VmInfo → Type 0
Says VmStatus.created info = info ≡ state 1
Says VmStatus.running info = info ≡ state 2
Says VmStatus.paused info = info ≡ state 3
Says VmStatus.shutdown info = (info ≡ state 4) ⊎ (info ≡ state 1)
Says VmStatus.unknown info = (info ≡ missing) ⊎ ((n : ℕ) × (info ≡ state n) × ((n ≡ 0) ⊎ (4 < n)))
Says _ info = ⊥

-- What the host says gives no reason to change the status.
pub data Agrees : VmStatus → VmInfo → Type 0 where
  silent : {previous : VmStatus} → Agrees previous no_answer
  undeployed : Agrees VmStatus.created missing
  as_created : Agrees VmStatus.created (state 1)
  as_running : Agrees VmStatus.running (state 2)
  as_paused : Agrees VmStatus.paused (state 3)

-- What the monitor does with a VM of status `previous`.
pub data Sound (previous : VmStatus) (info : VmInfo) : Option VmStatus → Type 0 where
  keeps : Agrees previous info → Sound previous info none
  writes :
      (status : VmStatus)
      → status ≢ previous
      → info ≢ no_answer
      → ¬ IsInner status
      → (status ≡ VmStatus.created → IsBusy previous × (info ≡ state 1))
      → (previous ≡ VmStatus.created → info ≢ missing)
      → Says status info
      → Sound previous info (some status)

-- A watched VM becomes created only from a status that is created or busy.
status_of_created-IsBusy :
    (previous : VmStatus)
    → is_watched previous ≡ true
    → status_of_created previous ≢ previous
    → status_of_created previous ≡ VmStatus.created
    → IsBusy previous
unfolding status_of_created
status_of_created-IsBusy VmStatus.running h n e = cc e
status_of_created-IsBusy VmStatus.paused h n e = cc e
status_of_created-IsBusy VmStatus.shutdown h n e = cc e
status_of_created-IsBusy VmStatus.unknown h n e = cc h
status_of_created-IsBusy VmStatus.pending h n e = cc h
status_of_created-IsBusy VmStatus.created h n e = n refl
status_of_created-IsBusy VmStatus.migrating h n e = tt
status_of_created-IsBusy VmStatus.committing h n e = tt

status_of_created-IsInner : (previous : VmStatus) → ¬ IsInner (status_of_created previous)
unfolding status_of_created
status_of_created-IsInner VmStatus.running h = h
status_of_created-IsInner VmStatus.paused h = h
status_of_created-IsInner VmStatus.shutdown h = h
status_of_created-IsInner VmStatus.created h = h
status_of_created-IsInner VmStatus.unknown h = h
status_of_created-IsInner VmStatus.pending h = h
status_of_created-IsInner VmStatus.migrating h = h
status_of_created-IsInner VmStatus.committing h = h

proto-Sound :
    (status : ℕ) (previous : VmStatus)
    → is_watched previous ≡ true
    → (¬ IsInner (proto_status_to_db status previous))
      × (proto_status_to_db status previous ≢ previous
          → proto_status_to_db status previous ≡ VmStatus.created
          → IsBusy previous × (state status ≡ state 1))
unfolding proto_status_to_db
proto-Sound zero previous h = (λ x. x, λ n e. cc e)
proto-Sound (suc zero) previous h =
    (status_of_created-IsInner previous, λ n e. (status_of_created-IsBusy previous h n e, refl))
proto-Sound (suc (suc zero)) previous h = (λ x. x, λ n e. cc e)
proto-Sound (suc (suc (suc zero))) previous h = (λ x. x, λ n e. cc e)
proto-Sound (suc (suc (suc (suc zero)))) previous h = (λ x. x, λ n e. cc e)
proto-Sound (suc (suc (suc (suc (suc k))))) previous h = (λ x. x, λ n e. cc e)

missing-Sound :
    (previous : VmStatus)
    → is_watched previous ≡ true
    → Sound previous missing (status_when_missing_on_node previous)
unfolding status_when_missing_on_node
missing-Sound VmStatus.created h = keeps undeployed
missing-Sound VmStatus.running h =
    writes VmStatus.unknown (λ e. cc e) (λ e. cc e) (λ x. x) (λ e. cc e) (λ e. cc e) (inl refl)
missing-Sound VmStatus.paused h =
    writes VmStatus.unknown (λ e. cc e) (λ e. cc e) (λ x. x) (λ e. cc e) (λ e. cc e) (inl refl)
missing-Sound VmStatus.migrating h =
    writes VmStatus.unknown (λ e. cc e) (λ e. cc e) (λ x. x) (λ e. cc e) (λ e. cc e) (inl refl)
missing-Sound VmStatus.committing h =
    writes VmStatus.unknown (λ e. cc e) (λ e. cc e) (λ x. x) (λ e. cc e) (λ e. cc e) (inl refl)
missing-Sound VmStatus.shutdown h = cc
missing-Sound VmStatus.unknown h = cc
missing-Sound VmStatus.pending h = cc

-- The status with a name.
of_name : Text → VmStatus
of_name name =
    if name == codes "pending"
    then VmStatus.pending
    else if name == codes "created"
    then VmStatus.created
    else if name == codes "running"
    then VmStatus.running
    else if name == codes "paused"
    then VmStatus.paused
    else if name == codes "shutdown"
    then VmStatus.shutdown
    else if name == codes "migrating"
    then VmStatus.migrating
    else if name == codes "committing"
    then VmStatus.committing
    else VmStatus.unknown

of_name-status_name : (status : VmStatus) → of_name (status_name status) ≡ status
unfolding of_name status_name
of_name-status_name VmStatus.unknown = refl
of_name-status_name VmStatus.pending = refl
of_name-status_name VmStatus.created = refl
of_name-status_name VmStatus.running = refl
of_name-status_name VmStatus.paused = refl
of_name-status_name VmStatus.shutdown = refl
of_name-status_name VmStatus.migrating = refl
of_name-status_name VmStatus.committing = refl

same_status-same : (a b : VmStatus) → same_status a b ≡ true → a ≡ b
same_status-same a b h =
    sym (of_name-status_name a)
    ∙ (ap of_name ((==_iff (status_name a) (status_name b)).0 h) ∙ of_name-status_name b)

unwatched : (previous : VmStatus) → is_watched previous ≡ true → VmStatus.unknown ≢ previous
unwatched previous h e = cc (ap is_watched e, h)

as_of_created :
    (previous : VmStatus)
    → is_watched previous ≡ true
    → status_of_created previous ≡ previous
    → Agrees previous (state 1)
unfolding status_of_created
as_of_created VmStatus.created h e = as_created
as_of_created VmStatus.running h e = cc e
as_of_created VmStatus.paused h e = cc e
as_of_created VmStatus.shutdown h e = cc h
as_of_created VmStatus.unknown h e = cc
as_of_created VmStatus.pending h e = cc
as_of_created VmStatus.migrating h e = cc e
as_of_created VmStatus.committing h e = cc e

proto-Agrees :
    (status : ℕ) (previous : VmStatus)
    → is_watched previous ≡ true
    → proto_status_to_db status previous ≡ previous
    → Agrees previous (state status)
unfolding proto_status_to_db
proto-Agrees zero previous h e = absurd (unwatched previous h e)
proto-Agrees (suc zero) previous h e = as_of_created previous h e
proto-Agrees (suc (suc zero)) previous h e = subst (λ p. Agrees p (state 2)) e as_running
proto-Agrees (suc (suc (suc zero))) previous h e = subst (λ p. Agrees p (state 3)) e as_paused
proto-Agrees (suc (suc (suc (suc zero)))) previous h e = cc (ap is_watched e, h)
proto-Agrees (suc (suc (suc (suc (suc k))))) previous h e = absurd (unwatched previous h e)

proto-Says :
    (status : ℕ) (previous : VmStatus)
    → is_watched previous ≡ true
    → Says (proto_status_to_db status previous) (state status)
unfolding proto_status_to_db status_of_created
proto-Says zero previous h = inr (0, refl, inl refl)
proto-Says (suc zero) VmStatus.created h = refl
proto-Says (suc zero) VmStatus.migrating h = refl
proto-Says (suc zero) VmStatus.committing h = refl
proto-Says (suc zero) VmStatus.running h = inr refl
proto-Says (suc zero) VmStatus.paused h = inr refl
proto-Says (suc zero) VmStatus.shutdown h = inr refl
proto-Says (suc zero) VmStatus.unknown h = cc
proto-Says (suc zero) VmStatus.pending h = cc
proto-Says (suc (suc zero)) previous h = refl
proto-Says (suc (suc (suc zero))) previous h = refl
proto-Says (suc (suc (suc (suc zero)))) previous h = inl refl
proto-Says (suc (suc (suc (suc (suc k))))) previous h =
    inr (suc (suc (suc (suc (suc k)))), refl, inr (omega arith))

changed_to-Sound :
    (previous live : VmStatus) (status : ℕ)
    → ¬ IsInner live
    → (live ≢ previous → live ≡ VmStatus.created → IsBusy previous × (state status ≡ state 1))
    → (live ≡ previous → Agrees previous (state status))
    → Says live (state status)
    → Sound previous (state status) (changed_to previous live)
changed_to-Sound previous live status outer busy agrees says =
    elim (Bool-cases (same_status live previous)) [
      | inl t ↦ rw t (keeps (agrees (same_status-same live previous t)))
      | inr f ↦ rw f (writes live (other f) (λ e. cc e) outer (busy (other f)) (λ e q. cc q) says)
    ]
  where
    true_false : true ≡ false → ⊥
    true_false h = cc h

    other : same_status live previous ≡ false → live ≢ previous
    other f e =
        true_false
          (sym (==_refl (status_name previous)) ∙ (ap (λ v. same_status v previous) (sym e) ∙ f))

-- A VM that the monitor watches keeps its status only where the host has not answered, does not
-- know a created VM, or reports a created, running or paused VM as what it is; a status is
-- written only where the host has answered and the status is a new one; pending, migrating or
-- committing are never written; created is written only where the host reports that status and
-- the VM was migrating or committing; and a created VM is left alone that its host does not know;
-- each status that is written is the one that the host reports, but that a VM reported as created
-- may become shutdown, and unknown stands for a VM that the host does not know or reports with
-- another number.
pub observed-Sound :
    (previous : VmStatus) (info : VmInfo)
    → is_watched previous ≡ true
    → Sound previous info (observed previous info)
unfolding observed
observed-Sound previous no_answer h = keeps silent
observed-Sound previous missing h = missing-Sound previous h
observed-Sound previous (state status) h =
    changed_to-Sound previous (proto_status_to_db status previous) status
      (proto-Sound status previous h).0 (proto-Sound status previous h).1
      (proto-Agrees status previous h) (proto-Says status previous h)
