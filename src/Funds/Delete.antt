-- ===== src/Funds/Delete.antt =====
-- user-fund-storage/src/fund_module.rs: removal of funds. The item is the caller's copy, which it
-- writes back at the end; the storage of the neighbours and of the list headers changes here.
use mx_delegation_sc.Base.{ℕ, ◌-◌, ◌==◌, if◌then◌else◌, leb, Option, none, some}
use mx_delegation_sc.Base.Outcome.{Result, ok, ◌>>=◌, sub_big}
use mx_delegation_sc.Funds.Types.{FundDescription, FundItem, FundsListInfo, fund_type}
use mx_delegation_sc.Funds.Store.{Funds, set_fund, update_fund, set_type_list, set_user_list}
use mx_delegation_sc.Funds.Create.{increase_fund_balance}

unfoldable pub delete_fund_from_type_list :
    FundItem → FundsListInfo → Funds → FundItem × FundsListInfo × Funds
unfolding set_fund
delete_fund_from_type_list item l s =
    let p = item.type_list_prev in
    let n = item.type_list_next in
    let s1 = if p == 0 then s else update_fund p (λ prev. record prev { type_list_next = n }) s in
    let s2 = if n == 0 then s1 else update_fund n (λ next. record next { type_list_prev = p }) s1 in
    (
      record item { type_list_prev = 0; type_list_next = 0 },
      record l { first = if p == 0 then n else l.first; last = if n == 0 then p else l.last },
      s2,
    )

unfoldable pub delete_fund_from_user_list :
    FundItem → FundsListInfo → Funds → FundItem × FundsListInfo × Funds
unfolding set_fund
delete_fund_from_user_list item l s =
    let p = item.user_list_prev in
    let n = item.user_list_next in
    let s1 = if p == 0 then s else update_fund p (λ prev. record prev { user_list_next = n }) s in
    let s2 = if n == 0 then s1 else update_fund n (λ next. record next { user_list_prev = p }) s1 in
    (
      record item { user_list_prev = 0; user_list_next = 0 },
      record l { first = if p == 0 then n else l.first; last = if n == 0 then p else l.last },
      s2,
    )

-- The old balance, the item with its balance and links cleared, and the storage.
unfoldable pub delete_fund : FundItem → Funds → Result (ℕ × FundItem × Funds)
delete_fund item s = do
  let t = fund_type item.fund_desc
  let tl = s.ftype t
  type_total ← sub_big tl.total_balance item.balance
  let (item1, tl1, s1) =
      delete_fund_from_type_list item (record tl { total_balance = type_total }) s
  let s2 = set_type_list t tl1 s1
  let ul = s2.fuser item.user_id t
  user_total ← sub_big ul.total_balance item.balance
  let (item2, ul1, s3) =
      delete_fund_from_user_list item1 (record ul { total_balance = user_total }) s2
  ok (item2.balance, record item2 { balance = 0 }, set_user_list item.user_id t ul1 s3)

-- What `decrease_fund_balance` leaves: how much was extracted, what is left of the amount, the
-- item, and the storage.
pub record Decreased : Type 0 where
  pub extracted : ℕ
  pub amount : ℕ
  pub item : FundItem
  pub funds : Funds

unfoldable pub take_part : ℕ → FundItem → Funds → Result Decreased
unfolding set_type_list set_user_list fund_type
take_part amount item s = do
  let t = fund_type item.fund_desc
  balance ← sub_big item.balance amount
  let tl = s.ftype t
  type_total ← sub_big tl.total_balance amount
  let s1 = set_type_list t (record tl { total_balance = type_total }) s
  let ul = s1.fuser item.user_id t
  user_total ← sub_big ul.total_balance amount
  let s2 = set_user_list item.user_id t (record ul { total_balance = user_total }) s1
  ok (record {
    extracted = amount;
    amount = 0;
    item = record item { balance = balance };
    funds = s2;
  })

unfoldable pub take_all : ℕ → FundItem → Funds → Result Decreased
unfolding delete_fund
take_all amount item s = do
  left ← sub_big amount item.balance
  (old, item', s') ← delete_fund item s
  ok (record { extracted = old; amount = left; item = item'; funds = s' })

unfoldable pub decrease_fund_balance : ℕ → FundItem → Funds → Result Decreased
unfolding take_part take_all
decrease_fund_balance amount item s =
    if leb item.balance amount then take_all amount item s else take_part amount item s

-- The dry run's counterpart, on the optional limit.
unfoldable pub decrease_max_amount : Option ℕ → FundItem → Option ℕ
decrease_max_amount none item = none
decrease_max_amount (some max_amount) item =
    some (if leb max_amount item.balance then 0 else max_amount - item.balance)

-- Takes from the item as much as the limit allows: its whole balance where there is no limit.
unfoldable pub extract_fund : Option ℕ → FundItem → Funds → Result (ℕ × Option ℕ × FundItem × Funds)
unfolding decrease_fund_balance delete_fund
extract_fund none item s = do (old, item', s') ← delete_fund item s; ok (old, none, item', s')
extract_fund (some max_amount) item s = do
  d ← decrease_fund_balance max_amount item s
  ok (d.extracted, some d.amount, d.item, d.funds)

unfoldable pub split_convert_individual_fund :
    Option ℕ → FundDescription → FundItem → Funds → Result (ℕ × Option ℕ × FundItem × Funds)
unfolding extract_fund increase_fund_balance
split_convert_individual_fund opt_max_amount transformed item s = do
  (extracted, opt', item', s') ← extract_fund opt_max_amount item s
  ok (extracted, opt', item', increase_fund_balance item'.user_id transformed extracted s')
