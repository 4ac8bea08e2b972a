-- ===== src/Contract/Stake/Minimum.antt =====
-- The minimum that a delegator's remaining stake is checked against.
use mx_delegation_sc.Base.{ℕ, ◌+◌, ◌≤◌, ◌≡◌, refl, Bool, true, false, ◌||◌, arith, ◌==◌, leb}
use mx_delegation_sc.Base.Outcome.{Error, ok, require}
use mx_delegation_sc.Funds.Types.{FundType}
use mx_delegation_sc.Contract.State.{Contract}
use mx_delegation_sc.Contract.View.{get_user_stake_of_type}
use mx_delegation_sc.Contract.Stake.{validate_user_minimum_stake, total_of}

-- Once the active stake of all delegators together reaches the minimum, the check of what remains of
-- one delegator's stake passes for every delegator, whatever is left of it.
pub validate_user_minimum_stake-passes :
    (u : ℕ) (c : Contract)
    → c.settings.min_stake ≤ total_of FundType.active c
    → validate_user_minimum_stake u c ≡ ok tt
unfolding validate_user_minimum_stake
validate_user_minimum_stake-passes u c h =
    let enough : leb c.settings.min_stake
          (get_user_stake_of_type u FundType.waiting c.funds + total_of FundType.active c)
        ≡ true =
      ground arith in
    rw enough
      (either (get_user_stake_of_type u FundType.waiting c.funds + total_of FundType.active c == 0))
  where
    either : (b : Bool) → require (b || true) Error.remaining_below_minimum ≡ ok tt
    either true = refl
    either false = refl
