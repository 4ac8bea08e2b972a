-- ===== src/Contract/StakeEndpoints/FromWaiting.antt =====
-- latest/src/user_stake_endpoints.rs: `unStake` of an amount that the waiting list covers.
use mx_delegation_sc.Base.{
  ℕ, ◌+◌, ◌-◌, ◌^◌, ◌≤◌, ◌<◌, ◌≡◌, refl, ◌⊎◌, inl, inr, Bool, true, false, arith, length, ltb, leb,
  not, ◌==◌, min, Bool-cases, ap, ◌∙◌, eq→==, if◌then◌else◌,
}
use mx_delegation_sc.Base.Outcome.{Result, Error, require, ok, ◌>>=◌, ◌>>◌}
use mx_delegation_sc.Funds.Types.{FundType, type_eq}
use mx_delegation_sc.Funds.Store.{Funds}
use mx_delegation_sc.Funds.Transf.{swap_user_waiting_to_withdraw_only}
use mx_delegation_sc.Funds.Repr.{ids, of_user, Queues, Repr}
use mx_delegation_sc.Funds.Repr.Moved.{UserMoved}
use mx_delegation_sc.Funds.Repr.SwapUser.{swap_user_waiting_to_withdraw_only-Repr}
use mx_delegation_sc.Contract.State.{Env, Contract, is_global_op_in_progress}
use mx_delegation_sc.Contract.View.{get_user_stake_of_type}
use mx_delegation_sc.Contract.Stake.{set_funds, validate_unstake_amount}
use mx_delegation_sc.Contract.StakeEndpoints.{unstake_endpoint, unstake_active}

validate_unstake_amount-ok :
    (u amount : ℕ) (c : Contract)
    → amount
      ≤ get_user_stake_of_type u FundType.waiting c.funds
        + get_user_stake_of_type u FundType.active c.funds
    → (amount
        ≡ get_user_stake_of_type u FundType.waiting c.funds
          + get_user_stake_of_type u FundType.active c.funds)
      ⊎ (c.settings.min_stake ≤ amount)
    → validate_unstake_amount u amount c ≡ ok tt
unfolding validate_unstake_amount
validate_unstake_amount-ok u amount c below enough =
    let whole =
      get_user_stake_of_type u FundType.waiting c.funds
      + get_user_stake_of_type u FundType.active c.funds in
    let covered : ltb whole amount ≡ false = ground arith in
    elim (Bool-cases (amount == whole)) [
      | inl all ↦ rw (covered, all) refl
      | inr part ↦
          let above : leb c.settings.min_stake amount ≡ true = ground (arith, part, enough) in
          rw (covered, part, above) refl
    ]

-- What follows the guards of `unStake`.
abbrev after_guards : ℕ → ℕ → Env → Contract → Result Contract
after_guards u amount env c = do
  (remaining, s) ← swap_user_waiting_to_withdraw_only u amount c.funds
  if remaining == 0 then ok (set_funds s c) else unstake_active u remaining env (set_funds s c)

unstake_endpoint-after_guards :
    (amount : ℕ) (env : Env) (c : Contract)
    → env.not_paused ≡ true
    → is_global_op_in_progress c ≡ false
    → (c.users.user_id env.caller == 0) ≡ false
    → validate_unstake_amount (c.users.user_id env.caller) amount c ≡ ok tt
    → unstake_endpoint amount env c ≡ after_guards (c.users.user_id env.caller) amount env c
unfolding unstake_endpoint
unstake_endpoint-after_guards amount env c unpaused no_op positive valid =
    let u = c.users.user_id env.caller in
    let swap = after_guards u amount env c in
    let checked = validate_unstake_amount u amount c >> swap in
    let by_known : Bool → Result Contract =
      λ b. require (not b) Error.only_delegators_can_unstake >> checked in
    let by_op : Bool → Result Contract =
      λ b. require (not b) Error.global_op_in_progress >> by_known (u == 0) in
    ap (λ b. require b Error.contract_paused >> by_op (is_global_op_in_progress c)) unpaused
    ∙ ap by_op no_op
    ∙ ap by_known positive
    ∙ ap (λ v. v >> swap) valid

-- Not paused, with no global operation under way, under the invariant and with an id left for each
-- item of the caller's waiting list: a known caller whose waiting stake covers the amount, which is
-- either at least the minimum stake or the caller's whole waiting and active stake, unstakes
-- successfully. Only the storage of the funds changes: exactly the amount goes from the caller's
-- waiting to the caller's withdraw-only list, every other total is as before, and the invariant is
-- kept. What the caller keeps of waiting and active stake is the rest, whether or not it is below the
-- minimum stake.
pub unstake_endpoint-from_waiting :
    (amount : ℕ) (env : Env) (c : Contract) {q : Queues}
    → Repr c.funds q
    → c.funds.f_max_id + length (ids (of_user (c.users.user_id env.caller) (q FundType.waiting)))
      < 2 ^ 32
    → env.not_paused ≡ true
    → is_global_op_in_progress c ≡ false
    → 0 < c.users.user_id env.caller
    → amount ≤ get_user_stake_of_type (c.users.user_id env.caller) FundType.waiting c.funds
    → (amount
        ≡ get_user_stake_of_type (c.users.user_id env.caller) FundType.waiting c.funds
          + get_user_stake_of_type (c.users.user_id env.caller) FundType.active c.funds)
      ⊎ (c.settings.min_stake ≤ amount)
    → (s' : Funds) × (q' : Queues) × (unstake_endpoint amount env c ≡ ok (set_funds s' c))
      × Repr s' q'
      × UserMoved
          (c.users.user_id env.caller)
          FundType.waiting
          FundType.withdraw_only
          amount
          c.funds
          s'
      × (get_user_stake_of_type (c.users.user_id env.caller) FundType.waiting s'
            + get_user_stake_of_type (c.users.user_id env.caller) FundType.active s'
            + amount
          ≡ get_user_stake_of_type (c.users.user_id env.caller) FundType.waiting c.funds
            + get_user_stake_of_type (c.users.user_id env.caller) FundType.active c.funds)
unfolding type_eq get_user_stake_of_type
unstake_endpoint-from_waiting amount env c r room unpaused no_op known covered enough =
    let u = c.users.user_id env.caller in
    let positive : (u == 0) ≡ false = ground arith in
    let valid = validate_unstake_amount-ok u amount c (omega (arith, covered)) enough in
    let (s', q', e, r', moved) = swap_user_waiting_to_withdraw_only-Repr u amount c.funds r room in
    let stake = (c.funds.fuser u FundType.waiting).total_balance in
    let enough_waiting : amount ≤ stake = rw positive at (covered) in
    let spent : amount - stake ≡ 0 = omega (arith, enough_waiting) in
    let least : min amount stake ≡ amount = omega (arith, enough_waiting) in
    let moved' : UserMoved u FundType.waiting FundType.withdraw_only amount c.funds s' =
      rw least at moved in
    let own : (u == u) ≡ true = eq→== u u refl in
    (
      s',
      q',
      unstake_endpoint-after_guards amount env c unpaused no_op positive valid ∙ rw (e, spent) refl,
      r',
      moved',
      rw positive (
          omega (
            arith,
            rw own at (moved'.1 u FundType.waiting),
            rw own at (moved'.1 u FundType.active),
          )),
    )
