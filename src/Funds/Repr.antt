-- ===== src/Funds/Repr.antt =====
-- What the storage of fund_module.rs stands for: for each type a queue of entries, in the order in
-- which they were created. A user's list of a type is the part of the queue that is the user's.
pub mod Insert
pub mod Inserted
pub mod Facts
pub mod Grow
pub mod Rebalance
pub mod Increase
pub mod Deleted
pub mod Shrink
pub mod Decrease
pub mod Walk
pub mod Commute
pub mod Totals
pub mod SplitConvert
pub mod PerUser
pub mod Ends
pub mod DestroyAll
pub mod Limits
pub mod Moved
pub mod ConvertUser
pub mod SwapUser
pub mod Order
pub mod ConvertType
pub mod SwapType
pub mod DryRun
use mx_delegation_sc.Base.{
  ℕ, ◌+◌, ◌≤◌, ◌<◌, ◌≡◌, Bool, true, false, List, [], ◌∷◌, ◌++◌, arith, ◌==◌, if◌then◌else◌, has,
}
use mx_delegation_sc.Funds.Types.{
  FundDescription, FundType, FundItem, fund_type, type_eq, default_item,
}
use mx_delegation_sc.Funds.Store.{Funds}
use mx_delegation_sc.Funds.Links.{Links, Nodup}

pub record Entry : Type 0 where
  pub id : ℕ
  pub user : ℕ
  pub desc : FundDescription
  pub balance : ℕ

abbrev pub ids : List Entry → List ℕ
ids [] = []
ids (e ∷ es) = e.id ∷ ids es

abbrev pub total : List Entry → ℕ
total [] = 0
total (e ∷ es) = e.balance + total es

abbrev pub of_user : ℕ → List Entry → List Entry
of_user u [] = []
of_user u (e ∷ es) = if e.user == u then e ∷ of_user u es else of_user u es

abbrev pub Queues : Type 0
Queues = FundType → List Entry

abbrev pub tnext : Funds → ℕ → ℕ
tnext s x = (s.fund_by_id x).type_list_next

abbrev pub tprev : Funds → ℕ → ℕ
tprev s x = (s.fund_by_id x).type_list_prev

abbrev pub unext : Funds → ℕ → ℕ
unext s x = (s.fund_by_id x).user_list_next

abbrev pub uprev : Funds → ℕ → ℕ
uprev s x = (s.fund_by_id x).user_list_prev

-- The stored item of an entry holds the entry's data.
pub record Holds (s : Funds) (t : FundType) (e : Entry) : Type 0 where
  pub desc : (s.fund_by_id e.id).fund_desc ≡ e.desc
  pub user : (s.fund_by_id e.id).user_id ≡ e.user
  pub balance : (s.fund_by_id e.id).balance ≡ e.balance
  pub type : fund_type e.desc ≡ t
  pub positive : 0 < e.balance
  pub id_positive : 0 < e.id
  pub id_bound : e.id ≤ s.f_max_id

abbrev pub AllHold : Funds → FundType → List Entry → Type 0
AllHold s t [] = Unit {0}
AllHold s t (e ∷ es) = Holds s t e × AllHold s t es

-- The storage stands for the queues: the links of both families of lists lead through them, the
-- headers hold the sums of the balances, and an item that is in no queue is cleared.
pub record Repr (s : Funds) (q : Queues) : Type 0 where
  pub type_links :
      (t : FundType) → Links (tnext s) (tprev s) 0 (s.ftype t).first (ids (q t)) (s.ftype t).last
  pub user_links :
      (u : ℕ) (t : FundType)
      → Links (unext s) (uprev s) 0 (s.fuser u t).first (ids (of_user u (q t))) (s.fuser u t).last
  pub type_total : (t : FundType) → (s.ftype t).total_balance ≡ total (q t)
  pub user_total : (u : ℕ) (t : FundType) → (s.fuser u t).total_balance ≡ total (of_user u (q t))
  pub holds : (t : FundType) → AllHold s t (q t)
  pub distinct : (t : FundType) → Nodup (ids (q t))
  pub cleared :
      (x : ℕ) → 0 < x → ((t : FundType) → has x (ids (q t)) ≡ false) → s.fund_by_id x ≡ default_item
