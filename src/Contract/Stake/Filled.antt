-- ===== src/Contract/Stake/Filled.antt =====
-- latest/src/user_stake_state.rs: `process_stake` once the delegation cap is filled.
use mx_delegation_sc.Base.{
  ℕ, ◌+◌, ◌^◌, ◌≤◌, ◌<◌, ◌≡◌, refl, sym, ap, ◌∙◌, false, List, [], ◌∷◌, ◌++◌, arith, length, ◌||◌,
  ◌==◌, has, inl, inr, Bool-cases, if◌then◌else◌,
}
use mx_delegation_sc.Base.Outcome.{ok, ◌>>◌}
use mx_delegation_sc.Funds.Types.{FundDescription, FundType, fund_type, type_eq}
use mx_delegation_sc.Funds.Store.{Funds}
use mx_delegation_sc.Funds.AffectedUsers.{max_affected_users}
use mx_delegation_sc.Funds.Create.{can_coalesce}
use mx_delegation_sc.Users.{get_or_create_user}
use mx_delegation_sc.Funds.Repr.{Entry, ids, Queues, Repr}
use mx_delegation_sc.Funds.Repr.Grow.{push_queue}
use mx_delegation_sc.Funds.Repr.Rebalance.{set_balance, set_balances}
use mx_delegation_sc.Funds.Repr.Increase.{increase_queue}
use mx_delegation_sc.Funds.Repr.DryRun.{users_of}
use mx_delegation_sc.Funds.Repr.Totals.{increase_queue-other, increase_queue-length}
use mx_delegation_sc.Contract.State.{Env, Contract}
use mx_delegation_sc.Contract.View.{get_user_stake_of_type, get_user_total_stake}
use mx_delegation_sc.Contract.RewardState.InOrder.{RewardsInOrder}
use mx_delegation_sc.Contract.Stake.{
  total_of, process_stake, validate_delegation_cap_invariant, use_waiting_to_replace_unstaked,
}
use mx_delegation_sc.Contract.Stake.Bootstrap.{
  with_waiting, create_waiting-Repr, create_waiting-total, create_waiting-total_stake,
  create_waiting-max,
}
use mx_delegation_sc.Contract.Stake.Regular.{
  cap_check, validate_delegation_cap_invariant-check, use_waiting_to_replace_unstaked-Swapped,
}

users_of-set_balance : (id b : ℕ) (es : List Entry) → users_of (set_balance id b es) ≡ users_of es
users_of-set_balance id b [] = refl
users_of-set_balance id b (e ∷ es) = ground (arith, users_of-set_balance id b es)

has-users_of-push :
    (es : List Entry) (e : Entry)
    → has 0 (users_of es) ≡ false
    → 0 < e.user
    → has 0 (users_of (es ++ e ∷ [])) ≡ false
has-users_of-push [] e known pos = ground arith
has-users_of-push (x ∷ es) e known pos = ground (arith, known, has-users_of-push es e)

-- A new fund of a known user leaves the list with known users only.
increase_queue-users :
    (u : ℕ) (d : FundDescription) (amount : ℕ) (s : Funds) (q : Queues) (x : FundType)
    → 0 < u
    → has 0 (users_of (q x)) ≡ false
    → has 0 (users_of (increase_queue u d amount s q x)) ≡ false
unfolding increase_queue push_queue set_balances
increase_queue-users u d amount s q x pos known = elim (Bool-cases (amount == 0)) [
  | inl nothing ↦ rw nothing known
  | inr something ↦ elim (Bool-cases (can_coalesce u d s)) [
    | inl joined ↦ rw (something, joined) (ap (has 0) (users_of-set_balance _ _ (q x)) ∙ known)
    | inr apart ↦ elim (Bool-cases (type_eq x (fund_type d))) [
      | inl same ↦ rw (something, apart, same) (has-users_of-push (q x) _ known pos)
      | inr miss ↦ rw (something, apart, miss) known
    ]
  ]
]

process_stake-swap :
    (payment : ℕ) (env : Env) (c : Contract)
    → validate_delegation_cap_invariant (with_waiting payment env c) ≡ ok tt
    → process_stake payment env c ≡ use_waiting_to_replace_unstaked env (with_waiting payment env c)
unfolding process_stake
process_stake-swap payment env c valid =
    ap (λ v. v >> use_waiting_to_replace_unstaked env (with_waiting payment env c)) valid

-- Outside bootstrap mode, for a registry that gives the caller an id above zero, under the invariant,
-- with two ids more than the unstaked and waiting funds left and room for the users of the two lists,
-- every waiting fund of a known user, a fee that is a share, a cap above zero and no user who has
-- seen rewards that did not arrive: where the check of the delegation cap passes, `process_stake`
-- succeeds and the check passes afterwards. The total stake of the caller and of the contract grows
-- by the payment, and that of every other user is as before. The invariant and the conditions on
-- the rewards are kept.
pub process_stake-regular :
    (payment : ℕ) (env : Env) (c : Contract) {q : Queues}
    → Repr c.funds q
    → c.funds.f_max_id + length (ids (q FundType.un_staked)) + length (ids (q FundType.waiting)) + 2
      < 2 ^ 32
    → length (ids (q FundType.un_staked)) ≤ max_affected_users
    → length (ids (q FundType.waiting)) < max_affected_users
    → RewardsInOrder env c
    → has 0 (users_of (q FundType.waiting)) ≡ false
    → 0 < (get_or_create_user env.caller c.users).0
    → c.settings.bootstrap_mode ≡ false
    → validate_delegation_cap_invariant c ≡ ok tt
    → (c' : Contract) × (q' : Queues) × (process_stake payment env c ≡ ok c')
      × Repr c'.funds q'
      × RewardsInOrder env c'
      × (validate_delegation_cap_invariant c' ≡ ok tt)
      × ((v : ℕ)
          → get_user_total_stake v c'.funds
            ≡ get_user_total_stake v c.funds
              + (if v == 0 || v == (get_or_create_user env.caller c.users).0 then payment else 0))
unfolding get_user_stake_of_type type_eq fund_type
process_stake-regular payment env c {q} r free few_unstaked few_waiting h known caller regular
      valid =
    let u = (get_or_create_user env.caller c.users).0 in
    let d = FundDescription.waiting env.block_nonce in
    let first : c.funds.f_max_id + 1 < 2 ^ 32 = omega (arith, free) in
    let c1 : Contract = with_waiting payment env c in
    let r1 = create_waiting-Repr env.block_nonce u payment c.funds r first in
    let kept : increase_queue u d payment c.funds q FundType.un_staked ≡ q FundType.un_staked =
      increase_queue-other u d payment c.funds r FundType.un_staked refl in
    let same = ap (λ z. length (ids z)) kept in
    let longer = increase_queue-length u d payment c.funds r FundType.waiting in
    let total = create_waiting-total env.block_nonce u payment c.funds r first in
    let top = create_waiting-max env.block_nonce u payment c.funds first in
    let staked : total_of FundType.active c1 + total_of FundType.un_staked c1
        ≡ total_of FundType.active c + total_of FundType.un_staked c =
      omega (arith, total FundType.active, total FundType.un_staked) in
    let valid1 : validate_delegation_cap_invariant c1 ≡ ok tt =
      validate_delegation_cap_invariant-check c1
      ∙ ap (cap_check c.settings) staked
      ∙ sym (validate_delegation_cap_invariant-check c)
      ∙ valid in
    let (c', q', e, r', h', w, check) =
      use_waiting_to_replace_unstaked-Swapped env c1 r1
        (record {
          free_ids = omega (arith, free, same, longer, top);
          few_unstaked = omega (arith, same);
          few_waiting = omega (arith, longer);
        })
        (record { fee = h.fee; cap = h.cap; seen = h.seen })
        (increase_queue-users u d payment c.funds q FundType.waiting caller known) regular in
    (
      c',
      q',
      process_stake-swap payment env c valid1 ∙ e,
      r',
      h',
      check ∙ valid1,
      λ v. w.users v ∙ create_waiting-total_stake env.block_nonce u payment c.funds r first v,
    )
