-- ===== src/Contract/CheckpointEndpoints/AnyCaller.antt =====
-- Who may change the service fee.
use mx_delegation_sc.Base.{
  ℕ, zero, suc, ◌≡◌, refl, ap, ◌∙◌, ◌+◌, not, ◌==◌, leb, Bool, true, false, Option, none, some, ltb,
  if◌then◌else◌,
}
use mx_delegation_sc.Base.Outcome.{Result, ok, err, Error, ◌>>=◌, require}
use mx_delegation_sc.Contract.State.{
  Env, Contract, ComputeAllRewardsData, GlobalOpCheckpoint, idle, modify_total_delegation_cap,
  change_service_fee, below_gas, ModifyDelegationCapStep, ModifyTotalDelegationCapData, is_none,
  is_global_op_in_progress, new_compute_data,
}
use mx_delegation_sc.Contract.Settings.{percentage_denominator}
use mx_delegation_sc.Contract.Checkpoint.{
  compute_next_user, compute_all_loop, compute_all_rewards, restart_if_stale, give_remainder,
  modify_cap_by_step, continue_modify_total_delegation_cap_step, continue_global_operation_step,
  continue_loop, continue_global_operation, OperationCompletionStatus, completed,
  interrupted_before_out_of_gas, stop_at_gas_limit, StepResult, interrupted_at, proceed_to,
}
use mx_delegation_sc.Contract.RewardState.{load_updated_user_rewards, add_new_rewards}
use mx_delegation_sc.Contract.CheckpointEndpoints.{set_service_fee_endpoint}

-- Equal continuations give equal results.
bind_ext :
    {A B : Type 0} (m : Result A) (f g : A → Result B)
    → ((a : A) → f a ≡ g a)
    → (m >>= f) ≡ (m >>= g)
bind_ext (ok a) f g h = h a
bind_ext (err e) f g h = refl

elim_ext :
    {A : Type 0} (b : Bool) {x x' y y' : A}
    → x ≡ x'
    → y ≡ y'
    → elim b [ true ↦ x | false ↦ y ] ≡ elim b [ true ↦ x' | false ↦ y' ]
elim_ext true p q = p
elim_ext false p q = q

if_ext :
    {A : Type 0} (b : Bool) {x x' y y' : A}
    → x ≡ x'
    → y ≡ y'
    → (if b then x else y) ≡ (if b then x' else y')
if_ext true p q = p
if_ext false p q = q

module _ (env : Env) (other : ℕ) where
  abbrev env' : Env
  env' = record env { caller = other }

  next-caller :
      (d : ComputeAllRewardsData) (c : Contract)
      → compute_next_user env' d c ≡ compute_next_user env d c
  unfolding compute_next_user load_updated_user_rewards add_new_rewards
  next-caller d c = refl

  loop-caller :
      (k fuel n : ℕ) (d : ComputeAllRewardsData) (c : Contract)
      → compute_all_loop k fuel n env' d c ≡ compute_all_loop k fuel n env d c
  unfolding compute_all_loop
  loop-caller k zero n d c = refl
  loop-caller k (suc fuel) n d c =
      elim_ext (ltb d.last_id c.users.num_users)
        (elim_ext (below_gas env k stop_at_gas_limit n) refl
          (bind_ext (compute_next_user env d c) _ _ (λ p. loop-caller k fuel (suc n) p.0 p.1)))
        refl

  all-caller :
      (k : ℕ) (d : ComputeAllRewardsData) (c : Contract)
      → compute_all_rewards k env' d c ≡ compute_all_rewards k env d c
  unfolding compute_all_rewards restart_if_stale give_remainder
  all-caller k d c =
      ap
        (λ (m : Result (Bool × ComputeAllRewardsData × Contract)). m >>= λ p. elim p.0 [
          | true ↦ ok (some p.1, p.2)
          | false ↦ give_remainder env p.1 p.2 >>= λ c''. ok (none, c'')
        ])
        (loop-caller k (c.users.num_users + 1) 0 (restart_if_stale env d) c)

  modify-caller :
      (step : ModifyDelegationCapStep) (k : ℕ) (d : ModifyTotalDelegationCapData) (c : Contract)
      → modify_cap_by_step step k env' d c ≡ modify_cap_by_step step k env d c
  unfolding modify_cap_by_step
  modify-caller (ModifyDelegationCapStep.compute_all_rewards car) k d c =
      ap
        (λ (m : Result (Option ComputeAllRewardsData × Contract)). m >>= λ p. elim p.0 [
          | some car' ↦
              interrupted_at (record d { step = ModifyDelegationCapStep.compute_all_rewards car' })
                p.1
          | none ↦ proceed_to ModifyDelegationCapStep.swap_waiting_to_active d p.1
        ])
        (all-caller k car c)
  modify-caller ModifyDelegationCapStep.swap_waiting_to_active k d c = refl
  modify-caller ModifyDelegationCapStep.swap_unstaked_to_deferred_payment k d c = refl
  modify-caller ModifyDelegationCapStep.swap_active_to_deferred_payment k d c = refl

  step-caller :
      (k : ℕ) (orc : GlobalOpCheckpoint) (c : Contract)
      → continue_global_operation_step k env' orc c ≡ continue_global_operation_step k env orc c
  unfolding continue_global_operation_step continue_modify_total_delegation_cap_step
  step-caller k idle c = refl
  step-caller k (modify_total_delegation_cap d) c = modify-caller d.step k d c
  step-caller k (change_service_fee new_fee data_) c =
      ap
        (λ (m : Result (Option ComputeAllRewardsData × Contract)). m >>= λ p. elim p.0 [
          | some data' ↦ ok (interrupted_before_out_of_gas, change_service_fee new_fee data', p.1)
          | none ↦ ok (
            completed,
            idle,
            record p.1 { settings = record p.1.settings { service_fee = new_fee } },
          )
        ])
        (all-caller k data_ c)

  continue-caller :
      (fuel k : ℕ) (status : OperationCompletionStatus) (orc : GlobalOpCheckpoint) (c : Contract)
      → continue_loop fuel k env' status orc c ≡ continue_loop fuel k env status orc c
  unfolding continue_loop
  continue-caller zero k status orc c = refl
  continue-caller (suc fuel) k interrupted_before_out_of_gas orc c = refl
  continue-caller (suc fuel) k completed orc c = elim_ext (is_none orc) refl (
      ap (λ (m : StepResult). m >>= λ p. continue_loop fuel (suc k) env' p.0 p.1 p.2)
        (step-caller k orc c)
      ∙ bind_ext (continue_global_operation_step k env orc c) _ _
          (λ p. continue-caller fuel (suc k) p.0 p.1 p.2))

  operation-caller :
      (orc : GlobalOpCheckpoint) (c : Contract)
      → continue_global_operation env' orc c ≡ continue_global_operation env orc c
  unfolding continue_global_operation
  operation-caller orc c =
      ap (λ (m : StepResult). m >>= λ p. ok (p.0, record p.2 { global_op = p.1 }))
        (continue-caller 5 0 completed orc c)

-- `setServiceFee` does the same whoever calls it, on every branch: no part of it depends on the
-- caller.
pub set_service_fee_endpoint-any_caller :
    (service_fee other : ℕ) (env : Env) (c : Contract)
    → set_service_fee_endpoint service_fee (record env { caller = other }) c
      ≡ set_service_fee_endpoint service_fee env c
unfolding set_service_fee_endpoint
set_service_fee_endpoint-any_caller service_fee other env c =
    bind_ext (require (leb service_fee percentage_denominator) Error.service_fee_out_of_range) _ _
      λ _.
        bind_ext (require (not (is_global_op_in_progress c)) Error.global_op_in_progress) _ _ λ _.
          if_ext (c.settings.service_fee == service_fee) refl (
            if_ext c.settings.bootstrap_mode refl (
              operation-caller env other
                (change_service_fee service_fee (new_compute_data env.cumulated_rewards)) c))
