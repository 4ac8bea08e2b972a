-- ===== src/Funds/Types.antt =====
-- user-fund-storage/src/types: what a fund item is, and the header of a list of them.
use mx_delegation_sc.Base.{ℕ, ◌≡◌, ◌≢◌, Bool, true, false, List, [], ◌∷◌, ◌&&◌, ◌==◌, arith}

pub data FundDescription : Type 0 where
  withdraw_only : FundDescription
  waiting : (created : ℕ) → FundDescription
  pending_act active_failed active : FundDescription
  un_staked : (created : ℕ) → FundDescription
  deferred_payment : (created : ℕ) → FundDescription

pub data FundType : Type 0 where
  withdraw_only waiting pending_act active_failed active un_staked deferred_payment : FundType

-- `FundType::ALL_TYPES`
abbrev pub all_types : List FundType
all_types =
    FundType.withdraw_only ∷ FundType.waiting ∷ FundType.active ∷ FundType.un_staked
    ∷ FundType.deferred_payment ∷ []

unfoldable pub allow_coalesce : FundType → Bool
allow_coalesce FundType.withdraw_only = true
allow_coalesce FundType.deferred_payment = true
allow_coalesce _ = false

unfoldable pub is_stake : FundType → Bool
is_stake FundType.waiting = true
is_stake FundType.active = true
is_stake FundType.un_staked = true
is_stake _ = false

unfoldable pub funds_in_contract : FundType → Bool
funds_in_contract FundType.withdraw_only = true
funds_in_contract FundType.waiting = true
funds_in_contract FundType.deferred_payment = true
funds_in_contract _ = false

unfoldable pub fund_type : FundDescription → FundType
fund_type FundDescription.withdraw_only = FundType.withdraw_only
fund_type (FundDescription.waiting _) = FundType.waiting
fund_type FundDescription.pending_act = FundType.pending_act
fund_type FundDescription.active_failed = FundType.active_failed
fund_type FundDescription.active = FundType.active
fund_type (FundDescription.un_staked _) = FundType.un_staked
fund_type (FundDescription.deferred_payment _) = FundType.deferred_payment

-- The derived `==` of the two enums.
unfoldable pub type_eq : FundType → FundType → Bool
type_eq FundType.withdraw_only FundType.withdraw_only = true
type_eq FundType.waiting FundType.waiting = true
type_eq FundType.pending_act FundType.pending_act = true
type_eq FundType.active_failed FundType.active_failed = true
type_eq FundType.active FundType.active = true
type_eq FundType.un_staked FundType.un_staked = true
type_eq FundType.deferred_payment FundType.deferred_payment = true
type_eq _ _ = false

unfoldable pub desc_eq : FundDescription → FundDescription → Bool
desc_eq FundDescription.withdraw_only FundDescription.withdraw_only = true
desc_eq (FundDescription.waiting a) (FundDescription.waiting b) = a == b
desc_eq FundDescription.pending_act FundDescription.pending_act = true
desc_eq FundDescription.active_failed FundDescription.active_failed = true
desc_eq FundDescription.active FundDescription.active = true
desc_eq (FundDescription.un_staked a) (FundDescription.un_staked b) = a == b
desc_eq (FundDescription.deferred_payment a) (FundDescription.deferred_payment b) = a == b
desc_eq _ _ = false

pub record FundItem : Type 0 where
  pub fund_desc : FundDescription
  pub user_id : ℕ
  pub balance : ℕ
  pub type_list_next : ℕ
  pub type_list_prev : ℕ
  pub user_list_next : ℕ
  pub user_list_prev : ℕ

pub record FundsListInfo : Type 0 where
  pub total_balance : ℕ
  pub first : ℕ
  pub last : ℕ

-- `EncodeDefault` and `DecodeDefault`: what is stored as the empty value, and what that reads as.
unfoldable pub is_default_item : FundItem → Bool
is_default_item f =
    f.balance == 0
    && f.type_list_next == 0
    && f.type_list_prev == 0
    && f.user_list_next == 0
    && f.user_list_prev == 0

abbrev pub default_item : FundItem
default_item = record {
  fund_desc = FundDescription.withdraw_only;
  user_id = 0;
  balance = 0;
  type_list_next = 0;
  type_list_prev = 0;
  user_list_next = 0;
  user_list_prev = 0;
}

unfoldable pub is_default_list : FundsListInfo → Bool
is_default_list l = l.total_balance == 0 && l.first == 0 && l.last == 0

abbrev pub default_list : FundsListInfo
default_list = record { total_balance = 0; first = 0; last = 0 }

pub type_eq→eq : (a b : FundType) → type_eq a b ≡ true → a ≡ b
unfolding type_eq
type_eq→eq a b h = ground arith

pub type_eq_refl : (a : FundType) → type_eq a a ≡ true
unfolding type_eq
type_eq_refl a = ground arith

pub type_eq_sym : (a b : FundType) → type_eq a b ≡ type_eq b a
unfolding type_eq
type_eq_sym a b = ground arith

pub ne→type_eq : (a b : FundType) → a ≢ b → type_eq a b ≡ false
unfolding type_eq
ne→type_eq a b h = ground arith

pub desc_eq→eq : (a b : FundDescription) → desc_eq a b ≡ true → a ≡ b
unfolding desc_eq
desc_eq→eq a b h = ground arith
