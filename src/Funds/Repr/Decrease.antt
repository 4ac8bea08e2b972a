-- ===== src/Funds/Repr/Decrease.antt =====
-- `delete_fund`, `decrease_fund_balance` and `extract_fund` of a queued fund, each with the write
-- of the item that the caller's `update` ends in.
use mx_delegation_sc.Base.{
  ℕ, ◌+◌, ◌-◌, ◌≤◌, ◌<◌, ◌≡◌, refl, true, false, arith, leb, has, inl, inr, Bool-cases,
  if◌then◌else◌, min,
}
use mx_delegation_sc.Base.Outcome.{ok, sub_big-eq-ok}
use mx_delegation_sc.Funds.Types.{FundType, FundItem, fund_type}
use mx_delegation_sc.Funds.Store.{Funds, set_fund, set_type_list, set_user_list}
use mx_delegation_sc.Funds.Delete.{
  delete_fund, take_part, take_all, decrease_fund_balance, Decreased,
}
use mx_delegation_sc.Funds.Repr.{ids, of_user, Queues, Repr}
use mx_delegation_sc.Funds.Repr.Rebalance.{
  set_balance, set_balance_absent, set_balances, rebalanced, rebalanced-Repr, has-of_user_own,
  AllHold-of_user,
}
use mx_delegation_sc.Funds.Repr.Deleted.{cleared_item, without, removed-max}
use mx_delegation_sc.Funds.Repr.Shrink.{
  remove_entry, remove_entry_absent, remove_entries, removed-Repr, delete_fund-ok,
  total-remove_entry,
}

-- The queues once `amount` is taken from the fund `id`, which goes where nothing is left of it.
unfoldable pub decrease_queue : ℕ → ℕ → Funds → Queues → Queues
decrease_queue id amount s q =
    let balance = (s.fund_by_id id).balance in
    if leb balance amount then remove_entries id q else set_balances id (balance - amount) q

pub decrease_queue-whole :
    (id amount : ℕ) (s : Funds) (q : Queues) (t : FundType)
    → leb (s.fund_by_id id).balance amount ≡ true
    → decrease_queue id amount s q t ≡ remove_entry id (q t)
unfolding decrease_queue remove_entries
decrease_queue-whole id amount s q t all = rw all

pub decrease_queue-part :
    (id amount : ℕ) (s : Funds) (q : Queues) (t : FundType)
    → leb (s.fund_by_id id).balance amount ≡ false
    → decrease_queue id amount s q t ≡ set_balance id ((s.fund_by_id id).balance - amount) (q t)
unfolding decrease_queue set_balances
decrease_queue-part id amount s q t part = rw part

-- A queue without the fund is as before.
pub decrease_queue-absent :
    (id amount : ℕ) (s : Funds) (q : Queues) (x : FundType)
    → has id (ids (q x)) ≡ false
    → decrease_queue id amount s q x ≡ q x
unfolding decrease_queue remove_entries set_balances
decrease_queue-absent id amount s q x out =
    elim (Bool-cases (leb (s.fund_by_id id).balance amount)) [
      | inl all ↦ rw all (remove_entry_absent id (q x) out)
      | inr part ↦ rw part (set_balance_absent id _ (q x) out)
    ]

module _ (id : ℕ) (s : Funds) {q : Queues} (r : Repr s q)
    (m : has id (ids (q (fund_type (s.fund_by_id id).fund_desc))) ≡ true) where
  abbrev f : FundItem
  f = s.fund_by_id id

  abbrev t : FundType
  t = fund_type f.fund_desc

  le-type_total : f.balance ≤ (s.ftype t).total_balance
  le-type_total = omega (arith, r.type_total t, total-remove_entry s t id (q t) (r.holds t) m)

  le-user_total : f.balance ≤ (s.fuser f.user_id t).total_balance
  le-user_total = omega (
    arith,
    r.user_total f.user_id t,
    total-remove_entry s t id (of_user f.user_id (q t))
        (AllHold-of_user s t f.user_id (q t) (r.holds t))
        (has-of_user_own s t id (q t) (r.holds t) m),
  )

  abbrev parted : ℕ → Funds
  parted amount =
      set_user_list f.user_id t
        (record (s.fuser f.user_id t) {
          total_balance = (s.fuser f.user_id t).total_balance - amount;
        })
        (set_type_list t (record (s.ftype t) { total_balance = (s.ftype t).total_balance - amount })
          s)

  take_part-eq-ok :
      (amount : ℕ)
      → amount ≤ f.balance
      → take_part amount f s
        ≡ ok (record {
          extracted = amount;
          amount = 0;
          item = record f { balance = f.balance - amount };
          funds = parted amount;
        })
  unfolding take_part set_type_list
  take_part-eq-ok amount h = rw (
    sub_big-eq-ok f.balance amount h,
    sub_big-eq-ok (s.ftype t).total_balance amount (omega (arith, le-type_total)),
    sub_big-eq-ok (s.fuser f.user_id t).total_balance amount (omega (arith, le-user_total)),
  )

  parted-Repr :
      (amount : ℕ)
      → amount < f.balance
      → Repr
          (set_fund id (record f { balance = f.balance - amount }) (parted amount))
          (set_balances id (f.balance - amount) q)
  unfolding rebalanced
  parted-Repr amount h =
      rebalanced-Repr id (f.balance - amount) _ _ s r t m (omega arith)
        (omega (arith, le-type_total)) (omega (arith, le-user_total))

-- Under the invariant `delete_fund` of a fund that is in a queue never underflows: it returns the
-- fund's balance, the item stays its user's, the largest id does not change and, once the caller has
-- written the item back, the storage stands for the queues without the fund's entry.
pub delete_fund-Repr :
    (id : ℕ) (s : Funds) {q : Queues}
    → Repr s q
    → has id (ids (q (fund_type (s.fund_by_id id).fund_desc))) ≡ true
    → (item : FundItem) × (s' : Funds) × (delete_fund (s.fund_by_id id) s
        ≡ ok ((s.fund_by_id id).balance, item, s'))
      × (item.user_id ≡ (s.fund_by_id id).user_id)
      × (s'.f_max_id ≡ s.f_max_id)
      × Repr (set_fund id item s') (remove_entries id q)
unfolding set_fund
delete_fund-Repr id s r m = (
  cleared_item id s,
  without id s,
  delete_fund-ok id s r m,
  refl,
  removed-max id s,
  removed-Repr id s r m,
)

-- Under the invariant `decrease_fund_balance` of a fund that is in a queue succeeds: it extracts
-- the smaller of the amount and the balance and returns what is left of the amount; the item stays
-- its user's, the largest id does not change, and the storage, with the item written back, stands
-- for the queues without that much.
pub decrease_fund_balance-Repr :
    (id amount : ℕ) (s : Funds) {q : Queues}
    → Repr s q
    → has id (ids (q (fund_type (s.fund_by_id id).fund_desc))) ≡ true
    → (d : Decreased) × (decrease_fund_balance amount (s.fund_by_id id) s ≡ ok d)
      × (d.extracted ≡ min amount (s.fund_by_id id).balance)
      × (d.extracted + d.amount ≡ amount)
      × (d.item.user_id ≡ (s.fund_by_id id).user_id)
      × (d.funds.f_max_id ≡ s.f_max_id)
      × Repr (set_fund id d.item d.funds) (decrease_queue id amount s q)
unfolding decrease_fund_balance decrease_queue take_all set_fund set_user_list set_type_list
decrease_fund_balance-Repr id amount s r m =
    let f = s.fund_by_id id in
    elim (Bool-cases (leb f.balance amount)) [
      | inl all ↦ (
        record {
          extracted = f.balance;
          amount = amount - f.balance;
          item = cleared_item id s;
          funds = without id s;
        },
        rw (all, sub_big-eq-ok amount f.balance (ground arith), delete_fund-ok id s r m),
        ground arith,
        ground arith,
        refl,
        removed-max id s,
        rw all (removed-Repr id s r m),
      )
      | inr part ↦ (
        record {
          extracted = amount;
          amount = 0;
          item = record f { balance = f.balance - amount };
          funds = parted id s r m amount;
        },
        rw part (take_part-eq-ok id s r m amount (ground arith)),
        ground arith,
        omega arith,
        refl,
        refl,
        rw part (parted-Repr id s r m amount (ground arith)),
      )
    ]
