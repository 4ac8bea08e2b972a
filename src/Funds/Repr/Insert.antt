-- ===== src/Funds/Repr/Insert.antt =====
-- What `insert_fund` writes, item by item and header by header.
use mx_delegation_sc.Base.{
  ℕ, ◌+◌, ◌<◌, ◌≡◌, sym, ap, ◌∙◌, ◌&&◌, false, arith, ◌==◌, if◌then◌else◌, inl, inr, Bool-cases,
  ==→eq,
}
use mx_delegation_sc.Funds.Types.{
  FundType, FundItem, FundsListInfo, fund_type, type_eq, is_default_list, is_default_item,
}
use mx_delegation_sc.Funds.Store.{Funds, set_fund, set_type_list, set_user_list}
use mx_delegation_sc.Funds.Create.{add_fund_to_type_list, add_fund_to_user_list}

-- An item that is linked or has a balance is stored as it is.
pub not_default :
    (f : FundItem)
    → 0 < f.balance + f.type_list_next + f.type_list_prev + f.user_list_next + f.user_list_prev
    → is_default_item f ≡ false
unfolding is_default_item
not_default f h = ground arith

pub set_fund-get :
    (id : ℕ) (f : FundItem) (s : Funds) (x : ℕ)
    → is_default_item f ≡ false
    → (set_fund id f s).fund_by_id x ≡ (if x == id then f else s.fund_by_id x)
unfolding set_fund
set_fund-get id f s x h = rw h

pub if-eq :
    {A : Type 0} (x l : ℕ) (g : ℕ → A) (y : A)
    → (if x == l then g l else y) ≡ (if x == l then g x else y)
if-eq x l g y = elim (Bool-cases (x == l)) [
  | inl hit ↦ rw hit (ap g (sym (==→eq x l hit)))
  | inr miss ↦ rw miss
]

module _ (id : ℕ) (pos : 0 < id) (f : FundItem) (s : Funds) where
  abbrev pub t : FundType
  t = fund_type f.fund_desc

  abbrev pub tl : FundsListInfo
  tl = s.ftype t

  abbrev pub ul : FundsListInfo
  ul = s.fuser f.user_id t

  abbrev pub type_linked : ℕ → FundItem → FundItem
  type_linked x g =
      if is_default_list tl then g else if x == tl.last then record g { type_list_next = id } else g

  abbrev pub user_linked : ℕ → FundItem → FundItem
  user_linked x g =
      if is_default_list ul then g else if x == ul.last then record g { user_list_next = id } else g

  pub add_type-item :
      (x : ℕ) → (add_fund_to_type_list id f s).1.fund_by_id x ≡ type_linked x (s.fund_by_id x)
  unfolding add_fund_to_type_list set_type_list
  add_type-item x = elim (Bool-cases (is_default_list tl)) [
    | inl empty ↦ rw empty
    | inr full ↦ rw full (
        set_fund-get tl.last (record (s.fund_by_id tl.last) { type_list_next = id }) s x
          (not_default _ (omega arith))
        ∙ if-eq x tl.last (λ y. record (s.fund_by_id y) { type_list_next = id }) (s.fund_by_id x))
  ]

  pub add_type-headers :
      (x : FundType)
      → (add_fund_to_type_list id f s).1.ftype x ≡ (
          if type_eq x t
          then record {
            total_balance = tl.total_balance + f.balance;
            first = if is_default_list tl then id else tl.first;
            last = id;
          }
          else s.ftype x)
  unfolding add_fund_to_type_list set_type_list set_fund
  add_type-headers x = elim (Bool-cases (is_default_list tl)) [
    | inl empty ↦ rw empty
    | inr full ↦ rw full
  ]

  pub add_type-rest :
      ((add_fund_to_type_list id f s).1.fuser ≡ s.fuser)
      × ((add_fund_to_type_list id f s).1.f_max_id ≡ s.f_max_id)
  unfolding add_fund_to_type_list set_type_list set_fund
  add_type-rest = elim (Bool-cases (is_default_list tl)) [
    | inl empty ↦ (rw empty, rw empty)
    | inr full ↦ (rw full, rw full)
  ]

  pub add_type-own :
      (add_fund_to_type_list id f s).0
      ≡ (if is_default_list tl then f else record f { type_list_prev = tl.last })
  unfolding add_fund_to_type_list
  add_type-own = elim (Bool-cases (is_default_list tl)) [
    | inl empty ↦ rw empty
    | inr full ↦ rw full
  ]

  pub add_user-item :
      (x : ℕ) → (add_fund_to_user_list id f s).1.fund_by_id x ≡ user_linked x (s.fund_by_id x)
  unfolding add_fund_to_user_list set_user_list
  add_user-item x = elim (Bool-cases (is_default_list ul)) [
    | inl empty ↦ rw empty
    | inr full ↦ rw full (
        set_fund-get ul.last (record (s.fund_by_id ul.last) { user_list_next = id }) s x
          (not_default _ (omega arith))
        ∙ if-eq x ul.last (λ y. record (s.fund_by_id y) { user_list_next = id }) (s.fund_by_id x))
  ]

  pub add_user-headers :
      (v : ℕ) (x : FundType)
      → (add_fund_to_user_list id f s).1.fuser v x ≡ (
          if v == f.user_id && type_eq x t
          then record {
            total_balance = ul.total_balance + f.balance;
            first = if is_default_list ul then id else ul.first;
            last = id;
          }
          else s.fuser v x)
  unfolding add_fund_to_user_list set_user_list set_fund
  add_user-headers v x = elim (Bool-cases (is_default_list ul)) [
    | inl empty ↦ rw empty
    | inr full ↦ rw full
  ]

  pub add_user-rest :
      ((add_fund_to_user_list id f s).1.ftype ≡ s.ftype)
      × ((add_fund_to_user_list id f s).1.f_max_id ≡ s.f_max_id)
  unfolding add_fund_to_user_list set_user_list set_fund
  add_user-rest = elim (Bool-cases (is_default_list ul)) [
    | inl empty ↦ (rw empty, rw empty)
    | inr full ↦ (rw full, rw full)
  ]

  pub add_user-own :
      (add_fund_to_user_list id f s).0
      ≡ (if is_default_list ul then f else record f { user_list_prev = ul.last })
  unfolding add_fund_to_user_list
  add_user-own = elim (Bool-cases (is_default_list ul)) [
    | inl empty ↦ rw empty
    | inr full ↦ rw full
  ]
