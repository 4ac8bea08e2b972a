-- ===== src/Contract/CheckpointEndpoints/BootstrapEnd.antt =====
-- The end of bootstrap mode by a change of the delegation cap.
use mx_delegation_sc.Base.{ℕ, ◌+◌, ◌≡◌, refl, true, false, arith, ◌==◌, ltb, eq→==, le→ltb}
use mx_delegation_sc.Base.Outcome.{ok}
use mx_delegation_sc.Funds.Types.{FundType}
use mx_delegation_sc.Contract.State.{Env, Contract, is_global_op_in_progress}
use mx_delegation_sc.Contract.Stake.{total_of, set_bootstrap_mode}
use mx_delegation_sc.Contract.Checkpoint.{completed}
use mx_delegation_sc.Contract.CheckpointEndpoints.{
  modify_total_delegation_cap_endpoint, modify_cap_in_bootstrap, change_cap,
}

-- What is active, waiting and unstaked together: the most that the cap can be.
abbrev pub available : Contract → ℕ
available c =
    total_of FundType.active c + total_of FundType.waiting c + total_of FundType.un_staked c

-- In bootstrap mode, the owner's call that sets the cap to exactly what is available completes and
-- ends bootstrap mode, but keeps the old cap, whatever it was, and moves no funds.
pub modify_total_delegation_cap_endpoint-keeps_cap :
    (env : Env) (c : Contract)
    → env.caller ≡ env.owner
    → is_global_op_in_progress c ≡ false
    → c.settings.bootstrap_mode ≡ true
    → (c' : Contract) × (modify_total_delegation_cap_endpoint (available c) env c
        ≡ ok (completed, c'))
      × (c'.settings.total_delegation_cap ≡ c.settings.total_delegation_cap)
      × (c'.settings.bootstrap_mode ≡ false)
      × (c'.funds ≡ c.funds)
unfolding modify_total_delegation_cap_endpoint modify_cap_in_bootstrap change_cap
modify_total_delegation_cap_endpoint-keeps_cap env c owner idle_now bootstrap =
    let by_owner : (env.caller == env.owner) ≡ true = eq→== env.caller env.owner owner in
    let within : ltb (available c) (available c) ≡ false =
      le→ltb (available c) (available c) (omega arith) in
    let same : (available c == available c) ≡ true = eq→== (available c) (available c) refl in
    (
      set_bootstrap_mode false c,
      rw (by_owner, idle_now, bootstrap, within, same) refl,
      refl,
      refl,
      refl,
    )
