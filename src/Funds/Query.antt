-- ===== src/Funds/Query.antt =====
-- user-fund-storage/src/fund_module.rs: the loops that only read. Each runs on fuel, as the loops
-- that write do; `foreach` hands the visited items over as a list, in the order of the visits.
use mx_delegation_sc.Base.{ℕ, zero, suc, ◌+◌, Bool, true, false, ◌==◌, if◌then◌else◌, List, [], ◌∷◌}
use mx_delegation_sc.Base.Outcome.{Result, ok, err, Error, ◌>>=◌}
use mx_delegation_sc.Funds.Types.{FundDescription, FundType, FundItem}
use mx_delegation_sc.Funds.Store.{Funds, SwapDirection, forwards}
use mx_delegation_sc.Funds.Convert.{
  loop_fuel, type_successor, user_successor, first_id_of_type, first_id_of_user_type,
}

-- The items that a walk from `id` visits.
unfoldable pub walk : (FundItem → ℕ) → ℕ → ℕ → Funds → Result (List FundItem)
walk successor zero id s = err Error.out_of_fuel
walk successor (suc fuel) id s = elim (id == 0) [
  | true ↦ ok []
  | false ↦
      walk successor fuel (successor (s.fund_by_id id)) s >>= λ rest. ok (s.fund_by_id id ∷ rest)
]

unfoldable pub foreach_fund_by_type : FundType → SwapDirection → Funds → Result (List FundItem)
unfolding walk first_id_of_type
foreach_fund_by_type t direction s =
    walk (type_successor direction) (loop_fuel s) (first_id_of_type t direction s) s

unfoldable pub foreach_fund_by_user_type :
    ℕ → FundType → SwapDirection → Funds → Result (List FundItem)
unfolding walk first_id_of_user_type
foreach_fund_by_user_type u t direction s =
    walk (user_successor direction) (loop_fuel s) (first_id_of_user_type u t direction s) s

-- The accumulators of the summing and the counting loops.
unfoldable pub sum_balances : (FundItem → Bool) → List FundItem → ℕ
sum_balances filter [] = 0
sum_balances filter (f ∷ fs) = (if filter f then f.balance else 0) + sum_balances filter fs

unfoldable pub count_items : (FundItem → Bool) → List FundItem → ℕ
count_items filter [] = 0
count_items filter (f ∷ fs) = (if filter f then 1 else 0) + count_items filter fs

unfoldable pub query_sum_funds_by_type : FundType → (ℕ → FundDescription → Bool) → Funds → Result ℕ
unfolding foreach_fund_by_type sum_balances
query_sum_funds_by_type t filter s = do
  fs ← foreach_fund_by_type t forwards s
  ok (sum_balances (λ f. filter f.user_id f.fund_desc) fs)

unfoldable pub query_sum_funds_by_user_type :
    ℕ → FundType → (FundDescription → Bool) → Funds → Result ℕ
unfolding foreach_fund_by_user_type sum_balances
query_sum_funds_by_user_type u t filter s = do
  fs ← foreach_fund_by_user_type u t forwards s
  ok (sum_balances (λ f. filter f.fund_desc) fs)

unfoldable pub count_fund_items_by_type : FundType → (FundItem → Bool) → Funds → Result ℕ
unfolding foreach_fund_by_type count_items
count_fund_items_by_type t filter s = do
  fs ← foreach_fund_by_type t forwards s
  ok (count_items filter fs)

unfoldable pub count_fund_items_by_user_type :
    ℕ → FundType → (FundDescription → Bool) → Funds → Result ℕ
unfolding foreach_fund_by_user_type count_items
count_fund_items_by_user_type u t filter s = do
  fs ← foreach_fund_by_user_type u t forwards s
  ok (count_items (λ f. filter f.fund_desc) fs)

-- `for id in 1..=max`: the ids from the largest down; the sum does not depend on the order.
unfoldable pub sum_below : (ℕ → FundDescription → Bool) → ℕ → Funds → ℕ
sum_below filter zero s = 0
sum_below filter (suc n) s =
    let f = s.fund_by_id (suc n) in
    (if filter f.user_id f.fund_desc then f.balance else 0) + sum_below filter n s

unfoldable pub query_sum_all_funds_brute_force : (ℕ → FundDescription → Bool) → Funds → ℕ
unfolding sum_below
query_sum_all_funds_brute_force filter s = sum_below filter s.f_max_id s
