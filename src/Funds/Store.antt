-- ===== src/Funds/Store.antt =====
-- The storage of user-fund-storage/src/fund_module.rs, and its reads and writes. A storage slot
-- that was never written reads as the default; a list header's default is its zero value, and a
-- fund item that counts as default is stored as the empty value.
use mx_delegation_sc.Base.{ℕ, ◌==◌, ◌&&◌, if◌then◌else◌}
use mx_delegation_sc.Funds.Types.{
  FundType, FundItem, FundsListInfo, is_default_item, default_item, default_list, type_eq,
}

pub record Funds : Type 0 where
  pub fund_by_id : ℕ → FundItem
  pub f_max_id : ℕ
  pub ftype : FundType → FundsListInfo
  pub fuser : ℕ → FundType → FundsListInfo

abbrev pub empty_funds : Funds
empty_funds = record {
  fund_by_id = λ _. default_item;
  f_max_id = 0;
  ftype = λ _. default_list;
  fuser = λ _ _. default_list;
}

-- `self.fund_by_id(id).set(item)`
unfoldable pub set_fund : ℕ → FundItem → Funds → Funds
unfolding is_default_item
set_fund id item s = record s {
  fund_by_id = λ x.
      if x == id then (if is_default_item item then default_item else item) else s.fund_by_id x;
}

-- `self.fund_by_id(id).update(f)`
abbrev pub update_fund : ℕ → (FundItem → FundItem) → Funds → Funds
update_fund id f s = set_fund id (f (s.fund_by_id id)) s

unfoldable pub set_type_list : FundType → FundsListInfo → Funds → Funds
unfolding type_eq
set_type_list t l s = record s { ftype = λ x. if type_eq x t then l else s.ftype x }

unfoldable pub set_user_list : ℕ → FundType → FundsListInfo → Funds → Funds
unfolding type_eq
set_user_list u t l s = record s { fuser = λ v x. if v == u && type_eq x t then l else s.fuser v x }

pub data SwapDirection : Type 0 where
  forwards backwards : SwapDirection
