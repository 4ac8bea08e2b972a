-- ===== src/Funds/Create.antt =====
-- user-fund-storage/src/fund_module.rs: new funds. A function that takes `&mut FundItem` returns
-- the item beside the storage.
use mx_delegation_sc.Base.{ℕ, ◌+◌, Bool, false, ◌==◌, if◌then◌else◌, add_usize}
use mx_delegation_sc.Funds.Types.{
  FundDescription, FundItem, fund_type, allow_coalesce, desc_eq, is_default_list,
}
use mx_delegation_sc.Funds.Store.{Funds, set_fund, update_fund, set_type_list, set_user_list}

unfoldable pub add_fund_to_type_list : ℕ → FundItem → Funds → FundItem × Funds
unfolding is_default_list
add_fund_to_type_list id new_fund_item s =
    let t = fund_type new_fund_item.fund_desc in
    let l = s.ftype t in
    let total = l.total_balance + new_fund_item.balance in
    if is_default_list l
    then (
      new_fund_item,
      set_type_list t (record l { first = id; last = id; total_balance = total }) s,
    )
    else (
      record new_fund_item { type_list_prev = l.last },
      set_type_list t (record l { last = id; total_balance = total })
          (update_fund l.last (λ prev. record prev { type_list_next = id }) s),
    )

unfoldable pub add_fund_to_user_list : ℕ → FundItem → Funds → FundItem × Funds
unfolding is_default_list
add_fund_to_user_list id new_fund_item s =
    let t = fund_type new_fund_item.fund_desc in
    let u = new_fund_item.user_id in
    let l = s.fuser u t in
    let total = l.total_balance + new_fund_item.balance in
    if is_default_list l
    then (
      new_fund_item,
      set_user_list u t (record l { first = id; last = id; total_balance = total }) s,
    )
    else (
      record new_fund_item { user_list_prev = l.last },
      set_user_list u t (record l { last = id; total_balance = total })
          (update_fund l.last (λ prev. record prev { user_list_next = id }) s),
    )

abbrev pub fresh_item : ℕ → FundDescription → ℕ → FundItem
fresh_item user_id fund_desc balance = record {
  fund_desc = fund_desc;
  user_id = user_id;
  balance = balance;
  type_list_next = 0;
  type_list_prev = 0;
  user_list_next = 0;
  user_list_prev = 0;
}

-- The two insertions and the write of the new item, once its id is reserved.
unfoldable pub insert_fund : ℕ → FundItem → Funds → Funds
unfolding add_fund_to_type_list add_fund_to_user_list set_fund
insert_fund id item s =
    let (item', s') = add_fund_to_type_list id item s in
    let (item'', s'') = add_fund_to_user_list id item' s' in set_fund id item'' s''

unfoldable pub create_fund : ℕ → FundDescription → ℕ → Funds → Funds
unfolding insert_fund
create_fund user_id fund_desc balance s =
    if balance == 0
    then s
    else (let id = add_usize s.f_max_id 1 in
        insert_fund id (fresh_item user_id fund_desc balance) (record s { f_max_id = id }))

-- The closure on the last item of the user's list: the balance and both totals grow. The updates of
-- the three slots nest, so the last item is written after the type list, and the user list last.
unfoldable pub coalesce_fund : ℕ → FundDescription → ℕ → Funds → Funds
unfolding set_fund set_type_list set_user_list fund_type
coalesce_fund user_id fund_desc amount s =
    let t = fund_type fund_desc in
    let ul = s.fuser user_id t in
    let last_item = s.fund_by_id ul.last in
    let u = fund_type last_item.fund_desc in
    let tl = s.ftype u in
    set_user_list user_id t (record ul { total_balance = ul.total_balance + amount })
      (set_fund ul.last (record last_item { balance = last_item.balance + amount })
        (set_type_list u (record tl { total_balance = tl.total_balance + amount }) s))

-- Whether the last item of the user's list takes the amount.
unfoldable pub can_coalesce : ℕ → FundDescription → Funds → Bool
unfolding allow_coalesce fund_type is_default_list desc_eq
can_coalesce user_id fund_desc s =
    let t = fund_type fund_desc in
    let ul = s.fuser user_id t in
    if allow_coalesce t
    then if is_default_list ul then false else desc_eq (s.fund_by_id ul.last).fund_desc fund_desc
    else false

unfoldable pub increase_fund_balance : ℕ → FundDescription → ℕ → Funds → Funds
unfolding create_fund can_coalesce coalesce_fund
increase_fund_balance user_id fund_desc amount s =
    if amount == 0
    then s
    else if can_coalesce user_id fund_desc s
    then coalesce_fund user_id fund_desc amount s
    else create_fund user_id fund_desc amount s
