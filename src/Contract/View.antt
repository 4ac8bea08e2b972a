-- ===== src/Contract/View.antt =====
-- user-fund-storage/src/fund_view_module.rs: what the contract shows of the stakes. The totals of
-- a type are those of the user id 0, which no user has. Reading an address that was never written
-- is the framework's business: `missing` is what it gives.
use mx_delegation_sc.Base.{ℕ, zero, suc, ◌+◌, List, [], ◌∷◌, ◌++◌, none, some, ◌==◌, if◌then◌else◌}
use mx_delegation_sc.Base.Outcome.{Result, ok, ◌>>=◌}
use mx_delegation_sc.Funds.Types.{FundDescription, FundType, FundItem}
use mx_delegation_sc.Funds.Store.{Funds, forwards}
use mx_delegation_sc.Funds.Query.{
  foreach_fund_by_type, foreach_fund_by_user_type, query_sum_funds_by_user_type,
}
use mx_delegation_sc.Funds.Transf.{is_eligible}
use mx_delegation_sc.Users.{Users, is_empty_user_address}

abbrev pub user_stake_totals_id : ℕ
user_stake_totals_id = 0

unfoldable pub get_user_stake_of_type : ℕ → FundType → Funds → ℕ
get_user_stake_of_type u t s =
    if u == user_stake_totals_id then (s.ftype t).total_balance else (s.fuser u t).total_balance

unfoldable pub get_user_total_stake : ℕ → Funds → ℕ
unfolding get_user_stake_of_type
get_user_total_stake u s =
    get_user_stake_of_type u FundType.withdraw_only s
    + get_user_stake_of_type u FundType.waiting s
    + get_user_stake_of_type u FundType.active s
    + get_user_stake_of_type u FundType.un_staked s
    + get_user_stake_of_type u FundType.deferred_payment s

unfoldable pub get_total_stake : Funds → ℕ
unfolding get_user_total_stake
get_total_stake = get_user_total_stake user_stake_totals_id

unfoldable pub get_user_total_stake_endpoint : ℕ → Users → Funds → ℕ
unfolding get_user_total_stake
get_user_total_stake_endpoint address us s =
    let id = us.user_id address in if id == 0 then 0 else get_user_total_stake id s

unfoldable pub get_user_stake_of_type_by_address : ℕ → FundType → Users → Funds → ℕ
unfolding get_user_stake_of_type
get_user_stake_of_type_by_address address t us s =
    let id = us.user_id address in if id == 0 then 0 else get_user_stake_of_type id t s

-- `StakeByTypeResult`
pub record StakeByType : Type 0 where
  pub withdraw_only : ℕ
  pub waiting : ℕ
  pub active : ℕ
  pub un_staked : ℕ
  pub deferred_payment : ℕ

unfoldable pub get_user_stake_by_type : ℕ → Funds → StakeByType
unfolding get_user_stake_of_type
get_user_stake_by_type u s = record {
  withdraw_only = get_user_stake_of_type u FundType.withdraw_only s;
  waiting = get_user_stake_of_type u FundType.waiting s;
  active = get_user_stake_of_type u FundType.active s;
  un_staked = get_user_stake_of_type u FundType.un_staked s;
  deferred_payment = get_user_stake_of_type u FundType.deferred_payment s;
}

unfoldable pub get_user_stake_by_type_endpoint : ℕ → Users → Funds → StakeByType
unfolding get_user_stake_by_type
get_user_stake_by_type_endpoint address us s =
    let id = us.user_id address in
    if id == 0
    then record { withdraw_only = 0; waiting = 0; active = 0; un_staked = 0; deferred_payment = 0 }
    else get_user_stake_by_type id s

unfoldable pub eligible_deferred_payment : ℕ → ℕ → ℕ → Funds → Result ℕ
unfolding query_sum_funds_by_user_type
eligible_deferred_payment nonce u n_blocks_before_claim s =
    query_sum_funds_by_user_type u FundType.deferred_payment
      (is_eligible nonce n_blocks_before_claim) s

-- The balance and the block of each deferred payment; other items of the list are passed over.
unfoldable pub deferred_entries : List FundItem → List (ℕ × ℕ)
deferred_entries [] = []
deferred_entries (f ∷ fs) =
    let rest = deferred_entries fs in
    elim f.fund_desc [
      | FundDescription.deferred_payment created ↦ (f.balance, created) ∷ rest
      | _ ↦ rest
    ]

unfoldable pub get_user_deferred_payment_list : ℕ → Users → Funds → Result (List (ℕ × ℕ))
unfolding foreach_fund_by_user_type deferred_entries
get_user_deferred_payment_list address us s =
    let id = us.user_id address in
    if id == 0
    then ok []
    else (foreach_fund_by_user_type id FundType.deferred_payment forwards s >>= λ fs.
        ok (deferred_entries fs))

module _ (missing : Result ℕ) where
  unfoldable pub get_user_address : ℕ → Users → Result ℕ
  get_user_address id us = elim (us.user_address id) [ none ↦ missing | some a ↦ ok a ]

  unfoldable pub all_user_stakes : ℕ → Users → Funds → Result (List (ℕ × StakeByType))
  unfolding get_user_address get_user_stake_by_type
  all_user_stakes zero us s = ok []
  all_user_stakes (suc n) us s = do
    before ← all_user_stakes n us s
    address ← get_user_address (suc n) us
    ok (before ++ (address, get_user_stake_by_type (suc n) s) ∷ [])

  unfoldable pub get_all_user_stake_by_type : Users → Funds → Result (List (ℕ × StakeByType))
  unfolding all_user_stakes
  get_all_user_stake_by_type us s = all_user_stakes us.num_users us s

  unfoldable pub waiting_entries : Users → List FundItem → Result (List (ℕ × ℕ × ℕ))
  unfolding get_user_address
  waiting_entries us [] = ok []
  waiting_entries us (f ∷ fs) = elim f.fund_desc [
    | FundDescription.waiting created ↦ do
      address ← get_user_address f.user_id us
      rest ← waiting_entries us fs
      ok ((address, f.balance, created) ∷ rest)
    | _ ↦ waiting_entries us fs
  ]

  unfoldable pub get_full_waiting_list : Users → Funds → Result (List (ℕ × ℕ × ℕ))
  unfolding foreach_fund_by_type waiting_entries
  get_full_waiting_list us s = do
    fs ← foreach_fund_by_type FundType.waiting forwards s
    waiting_entries us fs

  -- A user with no address is shown under the zero address.
  unfoldable pub active_entries : Users → List FundItem → Result (List (ℕ × ℕ))
  unfolding get_user_address
  active_entries us [] = ok []
  active_entries us (f ∷ fs) = elim f.fund_desc [
    | FundDescription.active ↦ do
      address ← if is_empty_user_address f.user_id us then ok 0 else get_user_address f.user_id us
      rest ← active_entries us fs
      ok ((address, f.balance) ∷ rest)
    | _ ↦ active_entries us fs
  ]

  unfoldable pub get_full_active_list : Users → Funds → Result (List (ℕ × ℕ))
  unfolding foreach_fund_by_type active_entries
  get_full_active_list us s = do
    fs ← foreach_fund_by_type FundType.active forwards s
    active_entries us fs
