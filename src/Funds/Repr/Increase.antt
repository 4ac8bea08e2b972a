-- ===== src/Funds/Repr/Increase.antt =====
-- `increase_fund_balance` of fund_module.rs, on the storage and on the queues.
use mx_delegation_sc.Base.{
  ℕ, ◌+◌, ◌^◌, ◌≤◌, ◌<◌, ◌≡◌, true, false, List, [], ◌∷◌, arith, ◌==◌, if◌then◌else◌, has, inl, inr,
  Bool-cases, add_usize,
}
use mx_delegation_sc.Funds.Types.{FundDescription, FundType, fund_type, desc_eq→eq, is_default_list}
use mx_delegation_sc.Funds.Store.{Funds, set_fund, set_user_list, set_type_list}
use mx_delegation_sc.Funds.Repr.Insert.{add_type-rest, add_user-rest}
use mx_delegation_sc.Funds.Create.{
  add_fund_to_type_list, create_fund, insert_fund, fresh_item, can_coalesce, coalesce_fund,
  increase_fund_balance,
}
use mx_delegation_sc.Funds.Repr.{Entry, ids, of_user, Queues, AllHold, Repr}
use mx_delegation_sc.Funds.Repr.Facts.{id_bounds, last-mem_of_user, has-of_user, user-of_mem}
use mx_delegation_sc.Funds.Repr.Grow.{push_queue, insert_fund-Repr}
use mx_delegation_sc.Funds.Repr.Rebalance.{set_balances, rebalanced, rebalanced-Repr}

-- The queues after `increase_fund_balance`: the last item of the user's list takes the amount, or a
-- new entry does.
unfoldable pub increase_queue : ℕ → FundDescription → ℕ → Funds → Queues → Queues
unfolding can_coalesce set_balances push_queue
increase_queue u d amount s q =
    let last = (s.fuser u (fund_type d)).last in
    if amount == 0
    then q
    else if can_coalesce u d s
    then set_balances last ((s.fund_by_id last).balance + amount) q
    else push_queue (record { id = s.f_max_id + 1; user = u; desc = d; balance = amount }) q

-- With another largest id the queues are the same, as long as it does not fall.
reserve-Repr :
    (s : Funds) {q : Queues} (n : ℕ)
    → s.f_max_id ≤ n
    → Repr s q
    → Repr (record s { f_max_id = n }) q
reserve-Repr s {q} n h r = record {
  type_links = r.type_links;
  user_links = r.user_links;
  type_total = r.type_total;
  user_total = r.user_total;
  holds = λ t. go t (q t) (r.holds t);
  distinct = r.distinct;
  cleared = r.cleared;
}
  where
    go :
        (t : FundType) (es : List Entry) → AllHold s t es → AllHold (record s { f_max_id = n }) t es
    go t [] hs = tt
    go t (e ∷ es) (x, hs) = (
      record {
        desc = x.desc;
        user = x.user;
        balance = x.balance;
        type = x.type;
        positive = x.positive;
        id_positive = x.id_positive;
        id_bound = omega (arith, x.id_bound);
      },
      go t es hs,
    )

unused-above :
    (s : Funds) {q : Queues} (r : Repr s q) (id : ℕ) (x : FundType)
    → s.f_max_id < id
    → has id (ids (q x)) ≡ false
unused-above s {q} r id x h = elim (Bool-cases (has id (ids (q x)))) [
  | inl inside ↦ absurd (omega (arith, (id_bounds s x (q x) id (r.holds x) inside).1))
  | inr out ↦ out
]

module _ (u : ℕ) (d : FundDescription) (amount : ℕ) (s : Funds) {q : Queues} (r : Repr s q)
    (some_amount : 0 < amount) where
  create_insert-Repr :
      s.f_max_id + 1 < 2 ^ 32
      → Repr
          (insert_fund
            (add_usize s.f_max_id 1)
            (fresh_item u d amount)
            (record s { f_max_id = add_usize s.f_max_id 1 }))
          (push_queue (record { id = s.f_max_id + 1; user = u; desc = d; balance = amount }) q)
  create_insert-Repr room =
      let id : ℕ = s.f_max_id + 1 in
      let kept : add_usize s.f_max_id 1 ≡ id = omega arith in
      rw kept (
        insert_fund-Repr id (omega arith) u d amount some_amount (record s { f_max_id = id })
          (omega arith) (reserve-Repr s id (omega arith) r)
          (λ x. unused-above s r id x (omega arith)))

  module _ (yes_coalesce : can_coalesce u d s ≡ true) where
    abbrev last : ℕ
    last = (s.fuser u (fund_type d)).last

    not_empty : is_default_list (s.fuser u (fund_type d)) ≡ false
    unfolding can_coalesce
    not_empty = ground arith

    pub last-mem : has last (ids (of_user u (q (fund_type d)))) ≡ true
    last-mem = last-mem_of_user r u (fund_type d) not_empty

    pub last-desc : (s.fund_by_id last).fund_desc ≡ d
    unfolding can_coalesce
    last-desc = ground (arith, desc_eq→eq (s.fund_by_id last).fund_desc d)

    pub last-user : (s.fund_by_id last).user_id ≡ u
    last-user =
        user-of_mem s (fund_type d) (q (fund_type d)) u last (r.holds (fund_type d)) last-mem

    coalesce-eq-rebalanced :
        coalesce_fund u d amount s
        ≡ rebalanced last
            ((s.fund_by_id last).balance + amount)
            ((s.ftype (fund_type d)).total_balance + amount)
            ((s.fuser u (fund_type d)).total_balance + amount)
            s
    unfolding coalesce_fund rebalanced
    coalesce-eq-rebalanced = rw (last-desc, last-user)

    coalesce_fund-Repr :
        Repr
          (coalesce_fund u d amount s)
          (set_balances last ((s.fund_by_id last).balance + amount) q)
    coalesce_fund-Repr = rw coalesce-eq-rebalanced (
        rebalanced-Repr last _ _ _ s r (fund_type d) (has-of_user last u (q (fund_type d)) last-mem)
          (omega arith) (omega arith) (rw last-user (omega arith)))

-- The invariant of the storage is kept, and the queues change as `increase_queue` says.
pub increase_fund_balance-Repr :
    (u : ℕ) (d : FundDescription) (amount : ℕ) (s : Funds) {q : Queues}
    → Repr s q
    → s.f_max_id + 1 < 2 ^ 32
    → Repr (increase_fund_balance u d amount s) (increase_queue u d amount s q)
unfolding increase_fund_balance increase_queue
increase_fund_balance-Repr u d amount s r room = elim (Bool-cases (amount == 0)) [
  | inl zero_amount ↦ rw zero_amount r
  | inr some_amount ↦
      let pos : 0 < amount = ground arith in
      elim (Bool-cases (can_coalesce u d s)) [
        | inl coalesce ↦ rw (some_amount, coalesce) (coalesce_fund-Repr u d amount s r pos coalesce)
        | inr create ↦ rw (some_amount, create) (create_insert-Repr u d amount s r pos room)
      ]
]

-- At most one id is used up.
pub increase_fund_balance-max :
    (u : ℕ) (d : FundDescription) (amount : ℕ) (s : Funds)
    → s.f_max_id + 1 < 2 ^ 32
    → (increase_fund_balance u d amount s).f_max_id ≤ s.f_max_id + 1
unfolding increase_fund_balance create_fund insert_fund coalesce_fund set_fund set_user_list
    set_type_list
increase_fund_balance-max u d amount s room =
    let id = add_usize s.f_max_id 1 in
    let pos : 0 < id = omega arith in
    let item = fresh_item u d amount in
    let s1 = record s { f_max_id = id } in
    ground (
      arith,
      add_type-rest id pos item s1,
      add_user-rest id pos (add_fund_to_type_list id item s1).0
          (add_fund_to_type_list id item s1).1,
    )
