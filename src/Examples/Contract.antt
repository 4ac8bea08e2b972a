-- ===== src/Examples/Contract.antt =====
-- Users, nodes and the whole contract: runs on small states, and the theorems applied to them.
use mx_delegation_sc.Base.{
  ℕ, ◌+◌, ◌<◌, ◌≤◌, ◌≡◌, ◌⊎◌, ◌==◌, if◌then◌else◌, refl, true, false, [], ◌∷◌, none, some, arith,
  length,
}
use mx_delegation_sc.Base.Outcome.{ok}
use mx_delegation_sc.Funds.Types.{FundDescription, FundType, default_item}
use mx_delegation_sc.Funds.Store.{Funds, backwards}
use mx_delegation_sc.Funds.Convert.{checkpoint_step}
use mx_delegation_sc.Funds.Transf.{dust_filter}
use mx_delegation_sc.Contract.DustCleanup.{to_withdraw_only}
use mx_delegation_sc.Contract.DustCleanup.Stale.{checkpoint_step-stale}
use mx_delegation_sc.Funds.Create.{increase_fund_balance}
use mx_delegation_sc.Users.{
  Users, no_users, get_or_create_user, update_user_address, user_ids_without_address,
}
use mx_delegation_sc.Users.Registry.{
  IsRegistry, counted, updated_address, unknown_addresses, get_or_create_user-IsRegistry,
  update_user_address-IsRegistry,
}
use mx_delegation_sc.Nodes.Config.{Nodes, NodeState}
use mx_delegation_sc.Nodes.Activation.{
  call_err, stake, unstake_nodes, stake_nodes, set_all, auction_stake_callback,
  perform_unstake_nodes, auction_unstake_callback,
}
use mx_delegation_sc.Nodes.Rollback.{stake_nodes-rollback, perform_unstake_nodes-rollback}
use mx_delegation_sc.Contract.State.{Env, Contract, Settings, blank_contract}
use mx_delegation_sc.Contract.View.{get_user_stake_of_type}
use mx_delegation_sc.Contract.Stake.{validate_user_minimum_stake, total_of}
use mx_delegation_sc.Contract.Stake.Minimum.{validate_user_minimum_stake-passes}
use mx_delegation_sc.Contract.RewardState.{
  UserRewardData, split_service_reward, load_updated_user_rewards, store_rewards,
  compute_one_user_reward, claim_rewards,
}
use mx_delegation_sc.Contract.RewardState.Claim.{
  claim_rewards-eq-ok, split_service_reward-sum, compute_one_user_reward-idempotent,
}
use mx_delegation_sc.Contract.Checkpoint.{completed}
use mx_delegation_sc.Contract.CheckpointEndpoints.{
  set_service_fee_endpoint, modify_total_delegation_cap_endpoint,
}
use mx_delegation_sc.Contract.CheckpointEndpoints.BootstrapEnd.{
  available, modify_total_delegation_cap_endpoint-keeps_cap,
}
use mx_delegation_sc.Contract.CheckpointEndpoints.AnyCaller.{set_service_fee_endpoint-any_caller}
use mx_delegation_sc.Examples.Storage.{two_funds, active_funds}

no_users-IsRegistry : IsRegistry no_users
no_users-IsRegistry = record {
  bound = λ a. omega arith;
  injective = λ a b pos e. absurd (omega arith);
  back = λ i a e. cc e;
}

get_or_create_user-IsRegistry_example :
    (0 < (get_or_create_user 77 no_users).0)
    × ((get_or_create_user 77 no_users).1.user_id 77 ≡ (get_or_create_user 77 no_users).0)
    × ((get_or_create_user 77 no_users).1.user_address (get_or_create_user 77 no_users).0 ≡ some 77)
    × ((a : ℕ) → (a ≡ 77) ⊎ ((get_or_create_user 77 no_users).1.user_id a ≡ no_users.user_id a))
    × IsRegistry (get_or_create_user 77 no_users).1
get_or_create_user-IsRegistry_example =
    get_or_create_user-IsRegistry 77 no_users no_users-IsRegistry (omega arith)

abbrev one_user : Users
one_user = (get_or_create_user 77 no_users).1

one_user-IsRegistry : IsRegistry one_user
one_user-IsRegistry =
    (get_or_create_user-IsRegistry 77 no_users no_users-IsRegistry (omega arith)).4

-- The address of user 1 is lost.
abbrev without_address : Users
without_address = record one_user { user_address = λ _. none }

without_address-IsRegistry : IsRegistry without_address
without_address-IsRegistry = record {
  bound = one_user-IsRegistry.bound;
  injective = one_user-IsRegistry.injective;
  back = λ i a e. cc e;
}

update_user_address-IsRegistry_example :
    ((i : ℕ)
      → (update_user_address (77 ∷ 78 ∷ []) without_address).1.user_address i
        ≡ updated_address (77 ∷ 78 ∷ []) without_address.user_id i (without_address.user_address i))
    × (length (user_ids_without_address (update_user_address (77 ∷ 78 ∷ []) without_address).1)
          + (update_user_address (77 ∷ 78 ∷ []) without_address).0.num_updated
        ≡ length (user_ids_without_address without_address))
    × ((update_user_address (77 ∷ 78 ∷ []) without_address).0.num_not_found
        ≡ unknown_addresses (77 ∷ 78 ∷ []) without_address.user_id)
    × (counted (update_user_address (77 ∷ 78 ∷ []) without_address).0
        ≡ length {A = ℕ} (77 ∷ 78 ∷ []))
    × ((update_user_address (77 ∷ 78 ∷ []) without_address).1.user_id ≡ without_address.user_id)
    × ((update_user_address (77 ∷ 78 ∷ []) without_address).1.num_users ≡ without_address.num_users)
    × IsRegistry (update_user_address (77 ∷ 78 ∷ []) without_address).1
update_user_address-IsRegistry_example =
    update_user_address-IsRegistry (77 ∷ 78 ∷ []) without_address without_address-IsRegistry

-- User 1 gets the address back.
address_restored : (update_user_address (77 ∷ 78 ∷ []) without_address).1.user_address 1 ≡ some 77
unfolding update_user_address get_or_create_user
address_restored = refl

-- Two nodes, with the keys 501 and 502.
abbrev two_nodes : Nodes
two_nodes = record {
  num_nodes = 2;
  bls_to_id = λ k. if k == 501 then 1 else if k == 502 then 2 else 0;
  id_to_bls = λ i. if i == 1 then 501 else if i == 2 then 502 else 0;
  signature = λ i. 900 + i;
  state = λ _. NodeState.inactive;
}

abbrev pending_nodes : Nodes
pending_nodes = set_all NodeState.pending_activation (1 ∷ 2 ∷ []) two_nodes

two_staked :
    stake_nodes 5000 (501 ∷ 502 ∷ []) two_nodes
    ≡ ok (stake (1 ∷ 2 ∷ []) ((501, 901) ∷ (502, 902) ∷ []) 5000, pending_nodes)
unfolding stake_nodes set_all
two_staked = refl

stake_nodes-rollback_example :
    (auction_stake_callback (1 ∷ 2 ∷ []) call_err pending_nodes).state 2 ≡ two_nodes.state 2
stake_nodes-rollback_example =
    stake_nodes-rollback 5000 (501 ∷ 502 ∷ []) (1 ∷ 2 ∷ []) ((501, 901) ∷ (502, 902) ∷ []) two_nodes
      pending_nodes two_staked 2

abbrev active_nodes : Nodes
active_nodes = set_all NodeState.active (1 ∷ 2 ∷ []) two_nodes

abbrev leaving_nodes : Nodes
leaving_nodes = set_all NodeState.pending_deactivation (2 ∷ []) active_nodes

one_leaving :
    perform_unstake_nodes false (2 ∷ []) (502 ∷ []) active_nodes
    ≡ ok (unstake_nodes (2 ∷ []) (502 ∷ []), leaving_nodes)
unfolding perform_unstake_nodes set_all
one_leaving = refl

perform_unstake_nodes-rollback_example :
    (auction_unstake_callback 40 (2 ∷ []) call_err leaving_nodes).state 2 ≡ active_nodes.state 2
perform_unstake_nodes-rollback_example =
    perform_unstake_nodes-rollback false 40 (2 ∷ []) (502 ∷ []) (unstake_nodes (2 ∷ []) (502 ∷ []))
      active_nodes leaving_nodes one_leaving 2

-- A contract whose owner, user 1 at the address 77, has staked nothing; nobody has.
abbrev small_env : Env
small_env = record {
  caller = 77;
  owner = 77;
  block_nonce = 20;
  cumulated_rewards = 1000;
  sc_balance = 5000;
  gas_left = λ _ _. 500_000_000;
  not_paused = true;
  claim_rewards_on = true;
  continue_global_operation_on = true;
}

abbrev small_settings : Settings
small_settings = record blank_contract.settings {
  service_fee = 1000;
  total_delegation_cap = 130;
  min_stake = 100;
}

abbrev small_contract : Contract
small_contract = record blank_contract {
  users = one_user;
  settings = small_settings;
  funds = two_funds;
}

abbrev due : UserRewardData
due = record { reward_checkpoint = 1000; unclaimed_rewards = 1000 }

owner_due : load_updated_user_rewards 1 small_env small_contract ≡ ok due
unfolding load_updated_user_rewards increase_fund_balance
owner_due = refl

owner_known : small_contract.users.user_id small_env.caller ≡ 1
unfolding get_or_create_user
owner_known = refl

caller_due :
    load_updated_user_rewards (small_contract.users.user_id 77) small_env small_contract ≡ ok due
unfolding load_updated_user_rewards increase_fund_balance get_or_create_user
caller_due = refl

claim_rewards-eq-ok_example :
    (c' : Contract) × (claim_rewards small_env small_contract ≡ ok c')
    × ((v : ℕ)
        → c'.rewards.checkpoint v ≡ (
            if v == small_contract.users.user_id 77
            then due.reward_checkpoint
            else small_contract.rewards.checkpoint v))
    × (c'.rewards.sent_rewards ≡ small_contract.rewards.sent_rewards + 1000)
    × (c'.sent ≡ (if due.unclaimed_rewards == 0 then [] else (77, 1000) ∷ []))
    × ((v : ℕ)
        → c'.rewards.unclaimed v ≡ (
            if v == small_contract.users.user_id 77 then 0 else small_contract.rewards.unclaimed v))
    × (c'.funds ≡ small_contract.funds)
claim_rewards-eq-ok_example =
    claim_rewards-eq-ok small_env small_contract due refl refl (λ e. omega (arith, owner_known, e))
      refl caller_due

compute_one_user_reward-idempotent_example :
    (compute_one_user_reward 1 small_env small_contract ≡ ok (store_rewards 1 due small_contract))
    × (load_updated_user_rewards 1 small_env (store_rewards 1 due small_contract) ≡ ok due)
compute_one_user_reward-idempotent_example =
    compute_one_user_reward-idempotent 1 small_env small_contract due owner_due

split_service_reward-sum_example :
    (service : ℕ) × (delegators : ℕ) × (split_service_reward 999 small_settings
      ≡ ok (service, delegators))
    × (service + delegators ≤ 999)
    × (999 ≤ service + delegators + 1)
split_service_reward-sum_example = split_service_reward-sum 999 small_settings (omega arith)

-- User 1 has 100 active and user 2 has 30.
abbrev with_active : Contract
with_active = record small_contract { funds = active_funds }

some_active : with_active.settings.min_stake ≤ total_of FundType.active with_active
unfolding increase_fund_balance get_user_stake_of_type
some_active = omega arith

validate_user_minimum_stake-passes_example : validate_user_minimum_stake 2 with_active ≡ ok tt
validate_user_minimum_stake-passes_example =
    validate_user_minimum_stake-passes 2 with_active some_active

-- User 2 has 30 active, below the minimum of 100, and nothing waiting.
left_below_minimum :
    get_user_stake_of_type 2 FundType.waiting active_funds
      + get_user_stake_of_type 2 FundType.active active_funds
    ≡ 30
unfolding increase_fund_balance get_user_stake_of_type
left_below_minimum = refl

set_service_fee_endpoint-any_caller_example :
    set_service_fee_endpoint 2000 (record small_env { caller = 78 }) small_contract
    ≡ set_service_fee_endpoint 2000 small_env small_contract
set_service_fee_endpoint-any_caller_example =
    set_service_fee_endpoint-any_caller 2000 78 small_env small_contract

-- The same contract in bootstrap mode: 130 are waiting, and the cap is 1000.
abbrev bootstrapping : Contract
bootstrapping = record small_contract {
  settings = record small_settings { total_delegation_cap = 1000; bootstrap_mode = true };
}

modify_total_delegation_cap_endpoint-keeps_cap_example :
    (c' : Contract) × (modify_total_delegation_cap_endpoint
        (available bootstrapping)
        small_env
        bootstrapping
      ≡ ok (completed, c'))
    × (c'.settings.total_delegation_cap ≡ 1000)
    × (c'.settings.bootstrap_mode ≡ false)
    × (c'.funds ≡ two_funds)
modify_total_delegation_cap_endpoint-keeps_cap_example =
    modify_total_delegation_cap_endpoint-keeps_cap small_env bootstrapping refl refl refl

-- What is available is far below the old cap.
available_130 : available bootstrapping ≡ 130
unfolding increase_fund_balance get_user_stake_of_type
available_130 = refl

-- User 1 also has 100 to withdraw, as the fund 3; no fund has the id 9.
abbrev withdrawable : Funds
withdrawable = increase_fund_balance 1 FundDescription.withdraw_only 100 two_funds

ninth_cleared : withdrawable.fund_by_id 9 ≡ default_item
unfolding increase_fund_balance
ninth_cleared = refl

third_first : (withdrawable.ftype FundType.withdraw_only).first ≡ 3
unfolding increase_fund_balance
third_first = refl

checkpoint_step-stale_example :
    (s' : Funds) × (checkpoint_step backwards (dust_filter 50 to_withdraw_only) 9 withdrawable tt
      ≡ ok (0, s', tt))
    × ((s'.ftype FundType.withdraw_only).first ≡ 0)
    × ((s'.ftype FundType.withdraw_only).last ≡ 0)
    × ((s'.ftype FundType.withdraw_only).total_balance
        ≡ (withdrawable.ftype FundType.withdraw_only).total_balance)
checkpoint_step-stale_example = checkpoint_step-stale 9 50 withdrawable ninth_cleared (omega arith)
