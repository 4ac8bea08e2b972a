-- ===== src/Funds/Repr/SplitConvert.antt =====
-- `split_convert_individual_fund`, with the write of the item that the caller's `update` ends in:
-- part of a queued fund, or all of it, moves to a list of another type.
use mx_delegation_sc.Base.{
  ℕ, ◌+◌, ◌-◌, ◌^◌, ◌≤◌, ◌<◌, ◌≡◌, ◌≢◌, refl, true, false, ◌&&◌, Option, none, some, arith, ◌==◌,
  if◌then◌else◌, has, inl, inr, leb, min, ◌⊎◌,
}
use mathlib.Core.Path.{subst}
use mx_delegation_sc.Base.Outcome.{ok}
use mx_delegation_sc.Funds.Types.{FundDescription, FundType, FundItem, fund_type, type_eq}
use mx_delegation_sc.Funds.Store.{Funds, set_fund}
use mx_delegation_sc.Funds.Create.{increase_fund_balance}
use mx_delegation_sc.Funds.Delete.{extract_fund, split_convert_individual_fund}
use mx_delegation_sc.Funds.Repr.{ids, total, of_user, Queues, Repr}
use mx_delegation_sc.Funds.Repr.Facts.{last_of_type, last_of_user, has-of_user, id_bounds, foreign}
use mx_delegation_sc.Funds.Repr.Commute.{increase_comm}
use mx_delegation_sc.Funds.Repr.Increase.{
  increase_queue, increase_fund_balance-Repr, increase_fund_balance-max,
}
use mx_delegation_sc.Funds.Repr.Decrease.{
  decrease_queue, delete_fund-Repr, decrease_fund_balance-Repr,
}
use mx_delegation_sc.Funds.Repr.Shrink.{remove_entries, ids-remove_entry}
use mx_delegation_sc.Funds.Repr.Rebalance.{set_balances, ids-set_balance}
use mx_delegation_sc.Funds.Links.Delete.{has-remove}
use mx_delegation_sc.Funds.Repr.Totals.{
  decrease_queue-total, decrease_queue-user_total, increase_queue-other, increase_queue-total,
  increase_queue-user_total,
}

-- The limit as an amount: without one, the whole balance.
abbrev pub limit_of : Option ℕ → ℕ → ℕ
limit_of none balance = balance
limit_of (some max_amount) balance = max_amount

abbrev pub limit_after : Option ℕ → ℕ → Option ℕ
limit_after none balance = none
limit_after (some max_amount) balance = some (max_amount - balance)

module _ (id : ℕ) (s : Funds) {q : Queues} (r : Repr s q)
    (m : has id (ids (q (fund_type (s.fund_by_id id).fund_desc))) ≡ true) where
  abbrev f : FundItem
  f = s.fund_by_id id

  -- Under the invariant `extract_fund` of a queued fund succeeds, and takes the smaller of the limit
  -- and the balance, or the whole balance where there is no limit.
  extract_fund-Repr :
      (opt : Option ℕ)
      → (item : FundItem) × (s' : Funds) × (extract_fund opt f s
          ≡ ok (min (limit_of opt f.balance) f.balance, limit_after opt f.balance, item, s'))
        × (item.user_id ≡ f.user_id)
        × (s'.f_max_id ≡ s.f_max_id)
        × Repr (set_fund id item s') (decrease_queue id (limit_of opt f.balance) s q)
  unfolding extract_fund decrease_queue
  extract_fund-Repr none =
      let (item, s', e, user, top, r') = delete_fund-Repr id s r m in
      let whole : min f.balance f.balance ≡ f.balance = omega arith in
      let all : leb f.balance f.balance ≡ true = ground arith in
      (item, s', rw (e, whole), user, top, rw all r')
  extract_fund-Repr (some amount) =
      let (d, e, taken, sum, user, top, r') = decrease_fund_balance-Repr id amount s r m in
      let left : d.amount ≡ amount - f.balance = omega arith in
      (d.item, d.funds, rw (e, taken, left), user, top, r')

  has-decrease_queue :
      (n a : ℕ) (x : FundType)
      → has a (ids (decrease_queue id n s q x)) ≡ true
      → has a (ids (q x)) ≡ true
  unfolding decrease_queue remove_entries set_balances
  has-decrease_queue n a x h = ground (
    arith,
    ids-remove_entry id (q x),
    has-remove a id (ids (q x)),
    ids-set_balance id (f.balance - n) (q x),
  )

  module _ (opt : Option ℕ) (target : FundDescription)
      (other : type_eq (fund_type target) (fund_type f.fund_desc) ≡ false)
      (room : s.f_max_id + 1 < 2 ^ 32) where
    abbrev extracted : ℕ
    extracted = min (limit_of opt f.balance) f.balance

    -- The last id of a list of the target type is not the converted fund.
    not_last :
        (last : ℕ)
        → (last ≡ 0)
          ⊎ (has last (ids (decrease_queue id (limit_of opt f.balance) s q (fund_type target)))
              ≡ true)
        → last ≢ id
    not_last last h e = elim h [
      | inl is_zero ↦
          absurd (omega (arith, (id_bounds s _ (q (fund_type f.fund_desc)) id (r.holds _) m).0))
      | inr inside ↦
          let here : has id (ids (q (fund_type target))) ≡ true =
            has-decrease_queue (limit_of opt f.balance) id (fund_type target) (rw e at inside) in
          ground
            (arith, foreign r id id (fund_type f.fund_desc) (fund_type target) other here (inr m))
    ]

    pub split_convert-Repr :
        (item : FundItem) × (s' : Funds) × (q' : Queues) × (split_convert_individual_fund opt target
            f s
          ≡ ok (extracted, limit_after opt f.balance, item, s'))
        × Repr (set_fund id item s') q'
        × (s'.f_max_id ≤ s.f_max_id + 1)
        × ((x : FundType)
            → type_eq x (fund_type target) ≡ false
            → q' x ≡ decrease_queue id (limit_of opt f.balance) s q x)
        × ((x : FundType)
            → total (q' x) + (if type_eq x (fund_type f.fund_desc) then extracted else 0)
              ≡ total (q x) + (if type_eq x (fund_type target) then extracted else 0))
        × ((v : ℕ) (x : FundType)
            → total (of_user v (q' x))
                + (if v == f.user_id && type_eq x (fund_type f.fund_desc) then extracted else 0)
              ≡ total (of_user v (q x))
                + (if v == f.user_id && type_eq x (fund_type target) then extracted else 0))
    unfolding split_convert_individual_fund set_fund
    split_convert-Repr =
        let (item, s1, e, user, top, r1) = extract_fund-Repr opt in
        let n = limit_of opt f.balance in
        let q1 = decrease_queue id n s q in
        let z = set_fund id item s1 in
        let comm : increase_fund_balance f.user_id target extracted z
            ≡ set_fund id item (increase_fund_balance f.user_id target extracted s1) =
          increase_comm id item f.user_id target extracted s1
            (not_last _ (elim (last_of_user r1 f.user_id (fund_type target)) [
              | inl is_zero ↦ inl is_zero
              | inr inside ↦ inr (has-of_user _ f.user_id (q1 (fund_type target)) inside)
            ]))
            (not_last _ (last_of_type r1 (fund_type target)))
            (omega (arith, top, (id_bounds s _ (q (fund_type f.fund_desc)) id (r.holds _) m).1)) in
        (
          item,
          increase_fund_balance f.user_id target extracted s1,
          increase_queue f.user_id target extracted z q1,
          rw (e, user),
          subst (λ y. Repr y (increase_queue f.user_id target extracted z q1)) comm
              (increase_fund_balance-Repr f.user_id target extracted z r1 (omega (arith, top))),
          omega (
            arith,
            top,
            increase_fund_balance-max f.user_id target extracted s1 (omega (arith, top)),
          ),
          increase_queue-other f.user_id target extracted z r1,
          λ x. omega (
            arith,
            increase_queue-total f.user_id target extracted z r1 x,
            decrease_queue-total id n s r m x,
          ),
          λ v x. omega (
            arith,
            increase_queue-user_total f.user_id target extracted z r1 v x,
            decrease_queue-user_total id n s r m v x,
          ),
        )

-- Under the invariant, with an id left, `split_convert_individual_fund` of a fund that is in a queue
-- into another type succeeds: what it converts is the smaller of the limit and the balance, or the
-- whole balance without a limit. The storage, with the item written back, keeps the invariant. In
-- the headers, the total of the source type falls and that of the target type rises by what was
-- converted, those of the fund's user with them; every other total is as before.
pub split_convert_individual_fund-Repr :
    (id : ℕ) (opt : Option ℕ) (target : FundDescription) (s : Funds) {q : Queues}
    → Repr s q
    → has id (ids (q (fund_type (s.fund_by_id id).fund_desc))) ≡ true
    → type_eq (fund_type target) (fund_type (s.fund_by_id id).fund_desc) ≡ false
    → s.f_max_id + 1 < 2 ^ 32
    → (n : ℕ) × (item : FundItem) × (s' : Funds) × (q' : Queues) × (n
        ≡ min (limit_of opt (s.fund_by_id id).balance) (s.fund_by_id id).balance)
      × (split_convert_individual_fund opt target (s.fund_by_id id) s
          ≡ ok (n, limit_after opt (s.fund_by_id id).balance, item, s'))
      × Repr (set_fund id item s') q'
      × ((x : FundType)
          → ((set_fund id item s').ftype x).total_balance
              + (if type_eq x (fund_type (s.fund_by_id id).fund_desc) then n else 0)
            ≡ (s.ftype x).total_balance + (if type_eq x (fund_type target) then n else 0))
      × ((v : ℕ) (x : FundType)
          → ((set_fund id item s').fuser v x).total_balance
              + (if v == (s.fund_by_id id).user_id
                    && type_eq x (fund_type (s.fund_by_id id).fund_desc)
                  then n
                  else 0)
            ≡ (s.fuser v x).total_balance
              + (if v == (s.fund_by_id id).user_id && type_eq x (fund_type target) then n else 0))
split_convert_individual_fund-Repr id opt target s r m other room =
    let (item, s', q', e, r', top, sources, by_type, by_user) =
      split_convert-Repr id s r m opt target other room in
    (
      extracted id s r m opt target other room,
      item,
      s',
      q',
      refl,
      e,
      r',
      λ x. rw (r'.type_total x, r.type_total x) (by_type x),
      λ v x. rw (r'.user_total v x, r.user_total v x) (by_user v x),
    )
