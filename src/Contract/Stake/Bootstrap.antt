-- ===== src/Contract/Stake/Bootstrap.antt =====
-- latest/src/user_stake_state.rs: `process_stake` while the delegation cap is not filled.
use mx_delegation_sc.Base.{
  ℕ, ◌+◌, ◌^◌, ◌≤◌, ◌<◌, ◌≡◌, refl, true, arith, min, length, ltb, ◌||◌, ◌==◌, ◌&&◌, if◌then◌else◌,
  inl, inr, Bool-cases, ap, ◌∙◌, lt→ltb,
}
use mx_delegation_sc.Base.Outcome.{ok}
use mx_delegation_sc.Funds.Types.{FundDescription, FundType, fund_type, type_eq}
use mx_delegation_sc.Funds.Store.{Funds}
use mx_delegation_sc.Funds.AffectedUsers.{max_affected_users}
use mx_delegation_sc.Funds.Transf.{create_waiting}
use mx_delegation_sc.Users.{get_or_create_user}
use mx_delegation_sc.Funds.Repr.{ids, Queues, Repr}
use mx_delegation_sc.Funds.Repr.Increase.{
  increase_queue, increase_fund_balance-Repr, increase_fund_balance-max,
}
use mx_delegation_sc.Funds.Repr.Totals.{
  increase_queue-total, increase_queue-user_total, increase_queue-other, increase_queue-length,
}
use mx_delegation_sc.Contract.State.{Env, Contract}
use mx_delegation_sc.Contract.View.{get_user_stake_of_type, get_user_total_stake}
use mx_delegation_sc.Contract.Stake.{
  total_of, process_stake, fill_delegation_cap, validate_delegation_cap_invariant,
  use_waiting_to_replace_unstaked,
}
use mx_delegation_sc.Contract.Stake.Cap.{Filled, fill_delegation_cap-Filled, stake_of}

-- What `create_waiting` does to the totals in the headers.
module _ (nonce u payment : ℕ) (s : Funds) {q : Queues} (r : Repr s q)
    (room : s.f_max_id + 1 < 2 ^ 32) where
  abbrev s' : Funds
  s' = create_waiting nonce u payment s

  abbrev q' : Queues
  q' = increase_queue u (FundDescription.waiting nonce) payment s q

  pub create_waiting-Repr : Repr s' q'
  unfolding create_waiting
  create_waiting-Repr =
      increase_fund_balance-Repr u (FundDescription.waiting nonce) payment s r room

  pub create_waiting-total :
      (x : FundType)
      → stake_of x s' ≡ stake_of x s + (if type_eq x FundType.waiting then payment else 0)
  unfolding fund_type
  create_waiting-total x =
      rw (create_waiting-Repr.type_total x, r.type_total x)
        (increase_queue-total u (FundDescription.waiting nonce) payment s r x)

  pub create_waiting-user_total :
      (v : ℕ) (x : FundType)
      → (s'.fuser v x).total_balance
        ≡ (s.fuser v x).total_balance
          + (if v == u && type_eq x FundType.waiting then payment else 0)
  unfolding fund_type
  create_waiting-user_total v x =
      rw (create_waiting-Repr.user_total v x, r.user_total v x)
        (increase_queue-user_total u (FundDescription.waiting nonce) payment s r v x)

  pub create_waiting-total_stake :
      (v : ℕ)
      → get_user_total_stake v s'
        ≡ get_user_total_stake v s + (if v == 0 || v == u then payment else 0)
  unfolding get_user_total_stake get_user_stake_of_type type_eq
  create_waiting-total_stake v = elim (Bool-cases (v == 0)) [
    | inl contract ↦ rw contract (
        omega (
          arith,
          create_waiting-total FundType.withdraw_only,
          create_waiting-total FundType.waiting,
          create_waiting-total FundType.active,
          create_waiting-total FundType.un_staked,
          create_waiting-total FundType.deferred_payment,
        ))
    | inr user ↦ rw user (
        ground (
          arith,
          create_waiting-user_total v FundType.withdraw_only,
          create_waiting-user_total v FundType.waiting,
          create_waiting-user_total v FundType.active,
          create_waiting-user_total v FundType.un_staked,
          create_waiting-user_total v FundType.deferred_payment,
        ))
  ]

pub create_waiting-max :
    (nonce u payment : ℕ) (s : Funds)
    → s.f_max_id + 1 < 2 ^ 32
    → (create_waiting nonce u payment s).f_max_id ≤ s.f_max_id + 1
unfolding create_waiting
create_waiting-max nonce u payment s room =
    increase_fund_balance-max u (FundDescription.waiting nonce) payment s room

-- A filled contract has the cap invariant of its mode.
Filled-validate_delegation_cap_invariant :
    (c c' : Contract) → Filled c c' → validate_delegation_cap_invariant c' ≡ ok tt
unfolding validate_delegation_cap_invariant
Filled-validate_delegation_cap_invariant c c' f =
    let cap = c.settings.total_delegation_cap in
    let sum = total_of FundType.active c + total_of FundType.waiting c in
    rw (f.mode, f.cap, f.active, f.un_staked)
      (elim (Bool-cases (ltb sum cap)) [
        | inl below ↦
            let strict : ltb (min cap sum + 0) cap ≡ true = ground (arith, below) in
            rw (below, strict) refl
        | inr above ↦
            let whole : (min cap sum + 0 == cap) ≡ true = ground (arith, above) in
            rw (above, whole) refl
      ])

-- The contract once the caller's payment is a waiting fund.
abbrev pub with_waiting : ℕ → Env → Contract → Contract
with_waiting payment env c =
    let (u, users) = get_or_create_user env.caller c.users in
    record c { users = users; funds = create_waiting env.block_nonce u payment c.funds }

process_stake-fill :
    (payment : ℕ) (env : Env) (c : Contract)
    → c.settings.bootstrap_mode ≡ true
    → ltb
        (total_of FundType.active (with_waiting payment env c)
          + total_of FundType.un_staked (with_waiting payment env c))
        c.settings.total_delegation_cap
      ≡ true
    → process_stake payment env c ≡ fill_delegation_cap (with_waiting payment env c)
unfolding process_stake use_waiting_to_replace_unstaked validate_delegation_cap_invariant
process_stake-fill payment env c boot valid = rw (boot, valid) refl

-- In bootstrap mode, under the invariant, with two ids more than the unstaked and waiting funds left,
-- with room for the users of the two lists, and with active and unstaked stake below the cap:
-- `process_stake` succeeds for every payment. It fills the cap from the waiting stake, the payment
-- included, as far as that goes; the check of the delegation cap passes afterwards, whichever mode the
-- contract is in then; the caller is registered. The total stake of the caller and of the contract
-- grows by the payment, and that of every other user is as before. The invariant is kept.
pub process_stake-bootstrap :
    (payment : ℕ) (env : Env) (c : Contract) {q : Queues}
    → Repr c.funds q
    → c.funds.f_max_id + length (ids (q FundType.un_staked)) + length (ids (q FundType.waiting)) + 2
      < 2 ^ 32
    → length (ids (q FundType.un_staked)) ≤ max_affected_users
    → length (ids (q FundType.waiting)) < max_affected_users
    → c.settings.bootstrap_mode ≡ true
    → total_of FundType.active c + total_of FundType.un_staked c < c.settings.total_delegation_cap
    → (c' : Contract) × (q' : Queues) × (process_stake payment env c ≡ ok c')
      × Repr c'.funds q'
      × (validate_delegation_cap_invariant c' ≡ ok tt)
      × (c'.users ≡ (get_or_create_user env.caller c.users).1)
      × (total_of FundType.active c'
          ≡ min c.settings.total_delegation_cap
              (total_of FundType.active c + total_of FundType.waiting c + payment))
      × ((v : ℕ)
          → get_user_total_stake v c'.funds
            ≡ get_user_total_stake v c.funds
              + (if v == 0 || v == (get_or_create_user env.caller c.users).0 then payment else 0))
unfolding get_user_stake_of_type type_eq fund_type
process_stake-bootstrap payment env c {q} r free few_unstaked few_waiting boot below =
    let u = (get_or_create_user env.caller c.users).0 in
    let users = (get_or_create_user env.caller c.users).1 in
    let d = FundDescription.waiting env.block_nonce in
    let first : c.funds.f_max_id + 1 < 2 ^ 32 = omega (arith, free) in
    let c1 : Contract = with_waiting payment env c in
    let r1 = create_waiting-Repr env.block_nonce u payment c.funds r first in
    let kept : increase_queue u d payment c.funds q FundType.un_staked ≡ q FundType.un_staked =
      increase_queue-other u d payment c.funds r FundType.un_staked refl in
    let same = ap (λ z. length (ids z)) kept in
    let longer = increase_queue-length u d payment c.funds r FundType.waiting in
    let total = create_waiting-total env.block_nonce u payment c.funds r first in
    let top = create_waiting-max env.block_nonce u payment c.funds first in
    let active1 : total_of FundType.active c1 ≡ total_of FundType.active c =
      omega (arith, total FundType.active) in
    let unstaked1 : total_of FundType.un_staked c1 ≡ total_of FundType.un_staked c =
      omega (arith, total FundType.un_staked) in
    let waiting1 : total_of FundType.waiting c1 ≡ total_of FundType.waiting c + payment =
      omega (arith, total FundType.waiting) in
    let valid : ltb (total_of FundType.active c1 + total_of FundType.un_staked c1)
          c.settings.total_delegation_cap
        ≡ true =
      lt→ltb _ _ (omega (arith, active1, unstaked1, below)) in
    let (c', q', e, r', filled) =
      fill_delegation_cap-Filled c1 r1
        (record {
          free_ids = omega (arith, free, same, longer, top);
          few_unstaked = omega (arith, same);
          few_waiting = omega (arith, longer);
        })
        boot (omega (arith, active1)) in
    (
      c',
      q',
      process_stake-fill payment env c boot valid ∙ e,
      r',
      Filled-validate_delegation_cap_invariant c1 c' filled,
      filled.registry,
      filled.active ∙ ap (min c.settings.total_delegation_cap) (omega (arith, active1, waiting1)),
      λ v. filled.users v ∙ create_waiting-total_stake env.block_nonce u payment c.funds r first v,
    )
