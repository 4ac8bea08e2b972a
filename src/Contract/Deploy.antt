-- ===== src/Contract/Deploy.antt =====
-- latest_full/src/lib.rs and latest_update/src/lib.rs: the constructor of a new contract, and what
-- runs when an old one is upgraded.
use mx_delegation_sc.Base.{ℕ, ◌+◌, true, ◌==◌, leb, if◌then◌else◌}
use mx_delegation_sc.Base.Outcome.{Result, ok, Error, ◌>>=◌, ◌>>◌, require}
use mx_delegation_sc.Funds.Types.{FundType}
use mx_delegation_sc.Users.{set_user_id, set_user_address}
use mx_delegation_sc.Contract.State.{Env, Contract}
use mx_delegation_sc.Contract.Settings.{
  percentage_denominator, owner_user_id, set_owner_min_stake_share_validated,
}
use mx_delegation_sc.Contract.View.{get_user_stake_of_type}
use mx_delegation_sc.Contract.Stake.{total_of}
use mx_delegation_sc.Contract.Checkpoint.{set_total_delegation_cap}

-- `init` of latest_full, on the storage that it finds.
unfoldable pub init :
    (auction_addr service_fee owner_min_stake_share n_blocks_before_unbond : ℕ)
    (minimum_stake total_delegation_cap : ℕ)
    → Env
    → Contract
    → Result Contract
unfolding set_owner_min_stake_share_validated
init auction_addr service_fee share n_blocks minimum_stake cap env c = do
  let users =
      set_user_address owner_user_id env.caller (set_user_id env.caller owner_user_id c.users)
  require (leb service_fee percentage_denominator) Error.service_fee_out_of_range
  st ←
      set_owner_min_stake_share_validated share
        (record c.settings { auction_addr = auction_addr; service_fee = service_fee })
  ok (record c {
    users = record users { num_users = 1 };
    settings = record st {
      n_blocks_before_unbond = n_blocks;
      min_stake = minimum_stake;
      total_delegation_cap = cap;
      bootstrap_mode = true;
    };
  })

-- `init` of latest_update.
unfoldable pub update_total_delegation_cap_if_necessary : Contract → Contract
unfolding get_user_stake_of_type
update_total_delegation_cap_if_necessary c =
    if c.settings.total_delegation_cap == 0
    then set_total_delegation_cap (total_of FundType.active c + total_of FundType.un_staked c) c
    else c
