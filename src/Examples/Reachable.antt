-- ===== src/Examples/Reachable.antt =====
-- Storages that are reached in two and in three steps.
use mx_delegation_sc.Base.{ℕ, ◌≤◌, ◌≡◌, refl, true, List, [], ◌∷◌, arith}
use mx_delegation_sc.Base.Outcome.{Result, ok, err}
use mx_delegation_sc.Funds.Types.{FundType}
use mx_delegation_sc.Funds.Store.{Funds, empty_funds}
use mx_delegation_sc.Funds.Create.{increase_fund_balance}
use mx_delegation_sc.Funds.Delete.{delete_fund_from_type_list, delete_fund_from_user_list}
use mx_delegation_sc.Funds.Query.{
  query_sum_funds_by_type, query_sum_funds_by_user_type, count_fund_items_by_type,
}
use mx_delegation_sc.Funds.Transf.{never, create_waiting, swap_waiting_to_active}
use mx_delegation_sc.Funds.Repr.PerUser.{sum_users}
use mx_delegation_sc.Funds.Reachable.{HalfFree, FewOf, FundsStep, Reachable, Reachable-totals}
use mx_delegation_sc.Examples.Storage.{one_fund, two_funds}

-- User 1 stakes 100 and user 2 stakes 30.
first_stake : create_waiting 5 1 100 empty_funds ≡ one_fund
unfolding create_waiting
first_stake = refl

second_stake : create_waiting 6 2 30 one_fund ≡ two_funds
unfolding create_waiting
second_stake = refl

one-HalfFree : HalfFree one_fund
unfolding increase_fund_balance
one-HalfFree = omega arith

two-HalfFree : HalfFree two_funds
unfolding increase_fund_balance
two-HalfFree = omega arith

two_waiting : FewOf FundType.waiting two_funds
unfolding count_fund_items_by_type increase_fund_balance
two_waiting = (2, refl, omega arith)

two-Reachable : Reachable two_funds
two-Reachable =
    Reachable.next
      (Reachable.next Reachable.start (omega arith) (FundsStep.stake 5 1 100 first_stake))
      one-HalfFree (FundsStep.stake 6 2 30 second_stake)

-- 110 of the 130 become active.
abbrev storage_of : Result (List ℕ × ℕ × Funds) → Funds
storage_of (ok (affected, left, s)) = s
storage_of (err error) = empty_funds

abbrev activated_funds : Funds
activated_funds = storage_of (swap_waiting_to_active 110 never two_funds)

activation : swap_waiting_to_active 110 never two_funds ≡ ok (1 ∷ 2 ∷ [], 0, activated_funds)
unfolding swap_waiting_to_active increase_fund_balance delete_fund_from_type_list
    delete_fund_from_user_list
activation = refl

activated-Reachable : Reachable activated_funds
activated-Reachable =
    Reachable.next two-Reachable two-HalfFree
      (FundsStep.activate 110 never (1 ∷ 2 ∷ []) 0 two_waiting activation)

users_upto_2 : (x : ℕ) → (two_funds.fund_by_id x).user_id ≤ 2
unfolding increase_fund_balance
users_upto_2 x = ground arith

Reachable-totals_example :
    (query_sum_funds_by_type FundType.waiting (λ _ _. true) two_funds
      ≡ ok (two_funds.ftype FundType.waiting).total_balance)
    × ((u : ℕ)
        → query_sum_funds_by_user_type u FundType.waiting (λ _. true) two_funds
          ≡ ok (two_funds.fuser u FundType.waiting).total_balance)
    × (sum_users 2 (λ u. (two_funds.fuser u FundType.waiting).total_balance)
        ≡ (two_funds.ftype FundType.waiting).total_balance)
Reachable-totals_example = Reachable-totals 2 FundType.waiting two-Reachable users_upto_2
