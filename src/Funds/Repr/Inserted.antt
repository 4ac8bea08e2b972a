-- ===== src/Funds/Repr/Inserted.antt =====
-- The storage after `insert_fund` of a fresh item, by its links, its data and its headers.
use mx_delegation_sc.Base.{
  ℕ, ◌+◌, ◌<◌, ◌≡◌, ap, ◌∙◌, true, false, ◌&&◌, arith, ◌==◌, if◌then◌else◌, inl, inr, Bool-cases,
}
use mx_delegation_sc.Funds.Types.{
  FundDescription, FundType, FundItem, FundsListInfo, fund_type, type_eq, is_default_list,
}
use mx_delegation_sc.Funds.Store.{Funds, set_fund}
use mx_delegation_sc.Funds.Create.{
  insert_fund, fresh_item, add_fund_to_type_list, add_fund_to_user_list,
}
use mx_delegation_sc.Funds.Repr.Insert.{
  not_default, set_fund-get, add_type-item, add_type-headers, add_type-rest, add_type-own,
  add_user-item, add_user-headers, add_user-rest, add_user-own,
}

default-last : (l : FundsListInfo) → is_default_list l ≡ true → l.last ≡ 0
unfolding is_default_list
default-last l h = ground arith

-- A real id is never the last of an empty list, so the test of the header can be left out.
linked-last :
    {A : Type 0} (l : FundsListInfo) (x : ℕ) (g r : A)
    → 0 < x
    → (if is_default_list l then g else if x == l.last then r else g)
      ≡ (if x == l.last then r else g)
linked-last l x g r px = elim (Bool-cases (is_default_list l)) [
  | inl empty ↦
      let miss : (x == l.last) ≡ false = ground (arith, default-last l empty) in rw (empty, miss)
  | inr full ↦ rw full
]

module _ (id : ℕ) (pos : 0 < id) (u : ℕ) (d : FundDescription) (b : ℕ) (some_balance : 0 < b)
    (s : Funds) where
  abbrev pub fresh : FundItem
  fresh = fresh_item u d b

  abbrev pub inserted : Funds
  inserted = insert_fund id fresh s

  abbrev pub old_type_list : FundsListInfo
  old_type_list = s.ftype (fund_type d)

  abbrev pub old_user_list : FundsListInfo
  old_user_list = s.fuser u (fund_type d)

  abbrev half : Funds
  half = (add_fund_to_type_list id fresh s).1

  abbrev half_item : FundItem
  half_item = record fresh { type_list_prev = old_type_list.last }

  abbrev full : Funds
  full = (add_fund_to_user_list id half_item half).1

  abbrev full_item : FundItem
  full_item = record half_item { user_list_prev = old_user_list.last }

  half-own : (add_fund_to_type_list id fresh s).0 ≡ half_item
  half-own = add_type-own id pos fresh s ∙ ground (arith, default-last old_type_list)

  half-user : (v : ℕ) (x : FundType) → half.fuser v x ≡ s.fuser v x
  half-user v x = ap (λ (g : ℕ → FundType → FundsListInfo). g v x) (add_type-rest id pos fresh s).0

  full-own : (add_fund_to_user_list id half_item half).0 ≡ full_item
  full-own =
      add_user-own id pos half_item half
      ∙ rw (half-user u (fund_type d)) (ground (arith, default-last old_user_list))

  inserted-set : inserted ≡ set_fund id full_item full
  unfolding insert_fund
  inserted-set = rw (half-own, full-own)

  abbrev pub after_type : ℕ → FundItem
  after_type x =
      if x == old_type_list.last
      then record (s.fund_by_id x) { type_list_next = id }
      else s.fund_by_id x

  abbrev pub after_user : ℕ → FundItem
  after_user x =
      if x == old_user_list.last
      then record (after_type x) { user_list_next = id }
      else after_type x

  half-item : (x : ℕ) → 0 < x → half.fund_by_id x ≡ after_type x
  half-item x px = add_type-item id pos fresh s x ∙ linked-last old_type_list x _ _ px

  full-at : (x : ℕ) → 0 < x → full.fund_by_id x ≡ after_user x
  full-at x px =
      add_user-item id pos half_item half x
      ∙ rw (half-user u (fund_type d), half-item x px) (linked-last old_user_list x _ _ px)

  pub inserted-item :
      (x : ℕ) → 0 < x → inserted.fund_by_id x ≡ (if x == id then full_item else after_user x)
  inserted-item x px =
      rw inserted-set
        (set_fund-get id full_item full x (not_default full_item (omega arith)) ∙ rw (full-at x px))

  pub inserted-type :
      (x : FundType)
      → inserted.ftype x ≡ (
          if type_eq x (fund_type d)
          then record {
            total_balance = old_type_list.total_balance + b;
            first = if is_default_list old_type_list then id else old_type_list.first;
            last = id;
          }
          else s.ftype x)
  unfolding set_fund
  inserted-type x = rw inserted-set (
      ap (λ (g : FundType → FundsListInfo). g x) (add_user-rest id pos half_item half).0
      ∙ add_type-headers id pos fresh s x)

  pub inserted-user :
      (v : ℕ) (x : FundType)
      → inserted.fuser v x ≡ (
          if v == u && type_eq x (fund_type d)
          then record {
            total_balance = old_user_list.total_balance + b;
            first = if is_default_list old_user_list then id else old_user_list.first;
            last = id;
          }
          else s.fuser v x)
  unfolding set_fund
  inserted-user v x =
      rw inserted-set
        (add_user-headers id pos half_item half v x ∙ rw (half-user u (fund_type d), half-user v x))

  pub inserted-max : inserted.f_max_id ≡ s.f_max_id
  unfolding set_fund
  inserted-max =
      rw inserted-set ((add_user-rest id pos half_item half).1 ∙ (add_type-rest id pos fresh s).1)
