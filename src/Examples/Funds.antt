-- ===== src/Examples/Funds.antt =====
-- The funds: what the code does to two storages, and the theorems applied to them.
use mx_delegation_sc.Base.{
  ℕ, ◌+◌, ◌≡◌, ◌&&◌, ◌==◌, if◌then◌else◌, refl, Bool, true, false, List, [], ◌∷◌, some, arith, has,
  min,
}
use mx_delegation_sc.Base.Outcome.{Result, ok, ◌>>=◌}
use mx_delegation_sc.Funds.Types.{FundDescription, FundType, FundItem, fund_type, type_eq}
use mx_delegation_sc.Funds.Store.{Funds, set_fund}
use mx_delegation_sc.Funds.Create.{increase_fund_balance}
use mx_delegation_sc.Funds.Delete.{
  delete_fund_from_type_list, delete_fund_from_user_list, delete_fund, decrease_fund_balance,
  split_convert_individual_fund, Decreased,
}
use mx_delegation_sc.Funds.Query.{
  query_sum_funds_by_type, query_sum_funds_by_user_type, count_fund_items_by_type,
  count_fund_items_by_user_type,
}
use mx_delegation_sc.Funds.Transf.{swap_waiting_to_active, never}
use mx_delegation_sc.Funds.AffectedUsers.{affected_users_sort_dedup}
use mx_delegation_sc.Funds.AffectedUsers.Sorted.{
  StrictlyAscending, affected_users_sort_dedup-StrictlyAscending,
}
use mx_delegation_sc.Funds.Repr.{ids, of_user, Queues, Repr}
use mx_delegation_sc.Funds.Repr.Increase.{increase_queue, increase_fund_balance-Repr}
use mx_delegation_sc.Funds.Repr.Decrease.{
  decrease_queue, delete_fund-Repr, decrease_fund_balance-Repr,
}
use mx_delegation_sc.Funds.Repr.Shrink.{remove_entries}
use mx_delegation_sc.Funds.Repr.SplitConvert.{
  limit_after, limit_of, split_convert_individual_fund-Repr,
}
use mx_delegation_sc.Funds.Repr.Walk.{
  total_where, count_where, query_sum_funds_by_type-eq-ok, query_sum_funds_by_user_type-eq-ok,
}
use mx_delegation_sc.Examples.Storage.{two_funds, two_queue, two_funds-Repr, two-max_id}

second_queued : has 2 (ids (two_queue (fund_type (two_funds.fund_by_id 2).fund_desc))) ≡ true
unfolding increase_fund_balance increase_queue
second_queued = refl

not_active : type_eq FundType.active (fund_type (two_funds.fund_by_id 2).fund_desc) ≡ false
unfolding increase_fund_balance
not_active = refl

waiting_sum : query_sum_funds_by_type FundType.waiting (λ _ _. true) two_funds ≡ ok 130
unfolding increase_fund_balance query_sum_funds_by_type
waiting_sum = refl

-- 110 of the waiting funds become active: all of user 1's and 10 of user 2's.
abbrev totals_of : List ℕ × ℕ × Funds → Result (List ℕ × ℕ × List ℕ)
totals_of (affected, left, s) = ok (
  affected,
  left,
  (s.ftype FundType.waiting).total_balance
      ∷ (s.fuser 1 FundType.active).total_balance
      ∷ (s.fuser 2 FundType.active).total_balance
      ∷ [],
)

swap_waiting_to_active_totals :
    (swap_waiting_to_active 110 never two_funds >>= totals_of)
    ≡ ok (1 ∷ 2 ∷ [], 0, 20 ∷ 100 ∷ 10 ∷ [])
unfolding increase_fund_balance swap_waiting_to_active delete_fund_from_type_list
    delete_fund_from_user_list
swap_waiting_to_active_totals = refl

split_convert_individual_fund-Repr_example :
    (n : ℕ) × (item : FundItem) × (s' : Funds) × (q' : Queues) × (n
      ≡ min (limit_of (some 10) (two_funds.fund_by_id 2).balance) (two_funds.fund_by_id 2).balance)
    × (split_convert_individual_fund
          (some 10)
          FundDescription.active
          (two_funds.fund_by_id 2)
          two_funds
        ≡ ok (n, limit_after (some 10) (two_funds.fund_by_id 2).balance, item, s'))
    × Repr (set_fund 2 item s') q'
    × ((x : FundType)
        → ((set_fund 2 item s').ftype x).total_balance
            + (if type_eq x (fund_type (two_funds.fund_by_id 2).fund_desc) then n else 0)
          ≡ (two_funds.ftype x).total_balance + (if type_eq x FundType.active then n else 0))
    × ((v : ℕ) (x : FundType)
        → ((set_fund 2 item s').fuser v x).total_balance
            + (if v == (two_funds.fund_by_id 2).user_id
                  && type_eq x (fund_type (two_funds.fund_by_id 2).fund_desc)
                then n
                else 0)
          ≡ (two_funds.fuser v x).total_balance
            + (if v == (two_funds.fund_by_id 2).user_id && type_eq x FundType.active then n else 0))
unfolding fund_type
split_convert_individual_fund-Repr_example =
    split_convert_individual_fund-Repr 2 (some 10) FundDescription.active two_funds two_funds-Repr
      second_queued not_active (omega (arith, two-max_id))

increase_fund_balance-Repr_example :
    Repr
      (increase_fund_balance 1 FundDescription.withdraw_only 7 two_funds)
      (increase_queue 1 FundDescription.withdraw_only 7 two_funds two_queue)
increase_fund_balance-Repr_example =
    increase_fund_balance-Repr 1 FundDescription.withdraw_only 7 two_funds two_funds-Repr
      (omega (arith, two-max_id))

decrease_fund_balance-Repr_example :
    (d : Decreased) × (decrease_fund_balance 10 (two_funds.fund_by_id 2) two_funds ≡ ok d)
    × (d.extracted ≡ min 10 (two_funds.fund_by_id 2).balance)
    × (d.extracted + d.amount ≡ 10)
    × (d.item.user_id ≡ (two_funds.fund_by_id 2).user_id)
    × (d.funds.f_max_id ≡ two_funds.f_max_id)
    × Repr (set_fund 2 d.item d.funds) (decrease_queue 2 10 two_funds two_queue)
decrease_fund_balance-Repr_example =
    decrease_fund_balance-Repr 2 10 two_funds two_funds-Repr second_queued

delete_fund-Repr_example :
    (item : FundItem) × (s' : Funds) × (delete_fund (two_funds.fund_by_id 2) two_funds
      ≡ ok ((two_funds.fund_by_id 2).balance, item, s'))
    × (item.user_id ≡ (two_funds.fund_by_id 2).user_id)
    × (s'.f_max_id ≡ two_funds.f_max_id)
    × Repr (set_fund 2 item s') (remove_entries 2 two_queue)
delete_fund-Repr_example = delete_fund-Repr 2 two_funds two_funds-Repr second_queued

abbrev only_user_two : ℕ → FundDescription → Bool
only_user_two u d = u == 2

abbrev every_fund : FundDescription → Bool
every_fund d = true

query_sum_funds_by_type-eq-ok_example :
    (query_sum_funds_by_type FundType.waiting only_user_two two_funds
      ≡ ok (total_where only_user_two (two_queue FundType.waiting)))
    × (count_fund_items_by_type FundType.waiting
          (λ f. only_user_two f.user_id f.fund_desc)
          two_funds
        ≡ ok (count_where only_user_two (two_queue FundType.waiting)))
    × (query_sum_funds_by_type FundType.waiting (λ _ _. true) two_funds
        ≡ ok (two_funds.ftype FundType.waiting).total_balance)
query_sum_funds_by_type-eq-ok_example =
    query_sum_funds_by_type-eq-ok only_user_two FundType.waiting two_funds-Repr

query_sum_funds_by_user_type-eq-ok_example :
    (query_sum_funds_by_user_type 2 FundType.waiting every_fund two_funds
      ≡ ok (total_where (λ _. every_fund) (of_user 2 (two_queue FundType.waiting))))
    × (count_fund_items_by_user_type 2 FundType.waiting every_fund two_funds
        ≡ ok (count_where (λ _. every_fund) (of_user 2 (two_queue FundType.waiting))))
    × (query_sum_funds_by_user_type 2 FundType.waiting (λ _. true) two_funds
        ≡ ok (two_funds.fuser 2 FundType.waiting).total_balance)
query_sum_funds_by_user_type-eq-ok_example =
    query_sum_funds_by_user_type-eq-ok every_fund 2 FundType.waiting two_funds-Repr

affected_users_sort_dedup-StrictlyAscending_example :
    StrictlyAscending (affected_users_sort_dedup (3 ∷ 1 ∷ 3 ∷ 2 ∷ []))
    × ((b : ℕ)
        → has b (affected_users_sort_dedup (3 ∷ 1 ∷ 3 ∷ 2 ∷ [])) ≡ has b (3 ∷ 1 ∷ 3 ∷ 2 ∷ []))
affected_users_sort_dedup-StrictlyAscending_example =
    affected_users_sort_dedup-StrictlyAscending (3 ∷ 1 ∷ 3 ∷ 2 ∷ [])
