-- ===== src/Examples/Storage.antt =====
-- Small storages: none of the funds of fund_module.rs, one, and two.
use mx_delegation_sc.Base.{◌≡◌, refl, [], arith}
use mx_delegation_sc.Funds.Types.{FundDescription}
use mx_delegation_sc.Funds.Store.{Funds, empty_funds}
use mx_delegation_sc.Funds.Create.{increase_fund_balance}
use mx_delegation_sc.Funds.Repr.{Queues, Repr}
use mx_delegation_sc.Funds.Repr.Increase.{increase_queue, increase_fund_balance-Repr}

abbrev pub no_queues : Queues
no_queues _ = []

pub empty_funds-Repr : Repr empty_funds no_queues
empty_funds-Repr = record {
  type_links = λ t. (refl, refl);
  user_links = λ u t. (refl, refl);
  type_total = λ t. refl;
  user_total = λ u t. refl;
  holds = λ t. tt;
  distinct = λ t. tt;
  cleared = λ x pos out. refl;
}

-- User 1 has 100 in the waiting list since block 5, and then user 2 has 30 since block 6.
abbrev pub one_fund : Funds
one_fund = increase_fund_balance 1 (FundDescription.waiting 5) 100 empty_funds

abbrev pub one_queue : Queues
one_queue = increase_queue 1 (FundDescription.waiting 5) 100 empty_funds no_queues

pub one_fund-Repr : Repr one_fund one_queue
one_fund-Repr =
    increase_fund_balance-Repr 1 (FundDescription.waiting 5) 100 empty_funds empty_funds-Repr
      (omega arith)

abbrev pub two_funds : Funds
two_funds = increase_fund_balance 2 (FundDescription.waiting 6) 30 one_fund

abbrev pub two_queue : Queues
two_queue = increase_queue 2 (FundDescription.waiting 6) 30 one_fund one_queue

pub one-max_id : one_fund.f_max_id ≡ 1
unfolding increase_fund_balance
one-max_id = refl

pub two_funds-Repr : Repr two_funds two_queue
two_funds-Repr =
    increase_fund_balance-Repr 2 (FundDescription.waiting 6) 30 one_fund one_fund-Repr
      (omega (arith, one-max_id))

pub two-max_id : two_funds.f_max_id ≡ 2
unfolding increase_fund_balance
two-max_id = refl

-- User 1 has 100 active and user 2 has 30.
abbrev pub active_funds : Funds
active_funds =
    increase_fund_balance 2 FundDescription.active 30
      (increase_fund_balance 1 FundDescription.active 100 empty_funds)

abbrev active_queue : Queues
active_queue = increase_queue 1 FundDescription.active 100 empty_funds no_queues

abbrev pub active_queues : Queues
active_queues =
    increase_queue 2 FundDescription.active 30
      (increase_fund_balance 1 FundDescription.active 100 empty_funds) active_queue

first_active-max_id : (increase_fund_balance 1 FundDescription.active 100 empty_funds).f_max_id ≡ 1
unfolding increase_fund_balance
first_active-max_id = refl

pub active_funds-Repr : Repr active_funds active_queues
active_funds-Repr =
    increase_fund_balance-Repr 2 FundDescription.active 30
      (increase_fund_balance 1 FundDescription.active 100 empty_funds)
      (increase_fund_balance-Repr 1 FundDescription.active 100 empty_funds empty_funds-Repr
        (omega arith))
      (omega (arith, first_active-max_id))

-- User 1 has 40 unstaked since block 7.
abbrev pub unstaked_funds : Funds
unstaked_funds = increase_fund_balance 1 (FundDescription.un_staked 7) 40 empty_funds

abbrev pub unstaked_queues : Queues
unstaked_queues = increase_queue 1 (FundDescription.un_staked 7) 40 empty_funds no_queues

pub unstaked_funds-Repr : Repr unstaked_funds unstaked_queues
unstaked_funds-Repr =
    increase_fund_balance-Repr 1 (FundDescription.un_staked 7) 40 empty_funds empty_funds-Repr
      (omega arith)
