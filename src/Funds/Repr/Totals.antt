-- ===== src/Funds/Repr/Totals.antt =====
-- What `increase_queue` and `decrease_queue` do to the sums of the balances, for the whole list of a
-- type and for a user's part of it.
use mx_delegation_sc.Base.{
  ℕ, ◌+◌, ◌-◌, ◌<◌, ◌≤◌, ◌≡◌, refl, true, false, ◌&&◌, List, [], ◌∷◌, ◌++◌, length, arith, ◌==◌,
  if◌then◌else◌, has, inl, inr, Bool-cases, leb, min,
}
use mx_delegation_sc.Funds.Types.{FundDescription, FundType, fund_type, type_eq, type_eq→eq}
use mx_delegation_sc.Funds.Store.{Funds}
use mx_delegation_sc.Funds.Create.{can_coalesce}
use mx_delegation_sc.Funds.Repr.{Entry, ids, total, of_user, Queues, Repr}
use mx_delegation_sc.Funds.Repr.Facts.{
  total-append, of_user-append, foreign, foreign_user, of_user-Nodup, has-of_user,
}
use mx_delegation_sc.Funds.Repr.Grow.{push_queue}
use mx_delegation_sc.Funds.Repr.Rebalance.{
  set_balances, ids-set_balance, of_user-set_balance, total-set_balance, total-set_balance_absent,
  set_balance_absent, AllHold-of_user, has-of_user_own,
}
use mx_delegation_sc.Funds.Repr.Increase.{increase_queue, last-mem, last-user}
use mx_delegation_sc.Funds.Repr.Shrink.{
  remove_entries, remove_entry_absent, of_user-remove_entry, total-remove_entry,
}
use mx_delegation_sc.Funds.Repr.Decrease.{decrease_queue}

length-push : (es : List Entry) (e : Entry) → length (ids (es ++ e ∷ [])) ≡ length (ids es) + 1
length-push [] e = refl
length-push (x ∷ es) e = omega (arith, length-push es e)

same_pair : (v u : ℕ) (x t : FundType) → (v == u && type_eq x t) ≡ true → (v ≡ u) × (x ≡ t)
same_pair v u x t h = ground (arith, type_eq→eq x t)

-- The entry of a queued fund gets another balance.
module _ (id b : ℕ) (s : Funds) {q : Queues} (r : Repr s q) (t : FundType)
    (m : has id (ids (q t)) ≡ true) where
  abbrev old : ℕ
  old = (s.fund_by_id id).balance

  abbrev u : ℕ
  u = (s.fund_by_id id).user_id

  absent : (x : FundType) → type_eq x t ≡ false → has id (ids (q x)) ≡ false
  absent x ne = elim (Bool-cases (has id (ids (q x)))) [
    | inl inside ↦ ground (arith, foreign r id id t x ne inside (inr m))
    | inr out ↦ out
  ]

  mu : has id (ids (of_user u (q t))) ≡ true
  mu = has-of_user_own s t id (q t) (r.holds t) m

  absent_user :
      (v : ℕ) (x : FundType)
      → (v == u && type_eq x t) ≡ false
      → has id (ids (of_user v (q x))) ≡ false
  absent_user v x ne = elim (Bool-cases (has id (ids (of_user v (q x))))) [
    | inl inside ↦ ground (arith, foreign_user r id id u v t x ne inside (inr mu))
    | inr out ↦ out
  ]

  set_balances-total :
      (x : FundType)
      → total (set_balances id b q x) + (if type_eq x t then old else 0)
        ≡ total (q x) + (if type_eq x t then b else 0)
  unfolding set_balances
  set_balances-total x = elim (Bool-cases (type_eq x t)) [
    | inl same ↦
        rw (same, type_eq→eq x t same)
          (total-set_balance s t id b (q t) (r.holds t) (r.distinct t) m)
    | inr miss ↦ rw miss (ground (arith, total-set_balance_absent id b (q x), absent x miss))
  ]

  set_balances-user_total :
      (v : ℕ) (x : FundType)
      → total (of_user v (set_balances id b q x)) + (if v == u && type_eq x t then old else 0)
        ≡ total (of_user v (q x)) + (if v == u && type_eq x t then b else 0)
  unfolding set_balances
  set_balances-user_total v x = elim (Bool-cases (v == u && type_eq x t)) [
    | inl same ↦
        rw
          (
            same,
            of_user-set_balance v id b (q x),
            (same_pair v u x t same).0,
            (same_pair v u x t same).1,
          )
          (total-set_balance s t id b (of_user u (q t)) (AllHold-of_user s t u (q t) (r.holds t))
            (of_user-Nodup u (q t) (r.distinct t)) mu)
    | inr miss ↦
        rw (miss, of_user-set_balance v id b (q x))
          (ground (arith, total-set_balance_absent id b (of_user v (q x)), absent_user v x miss))
  ]

  pub remove_entries-total :
      (x : FundType)
      → total (remove_entries id q x) + (if type_eq x t then old else 0) ≡ total (q x)
  unfolding remove_entries
  remove_entries-total x = elim (Bool-cases (type_eq x t)) [
    | inl same ↦ rw (same, type_eq→eq x t same) (total-remove_entry s t id (q t) (r.holds t) m)
    | inr miss ↦ rw miss (ground (arith, remove_entry_absent id (q x), absent x miss))
  ]

  pub remove_entries-user_total :
      (v : ℕ) (x : FundType)
      → total (of_user v (remove_entries id q x)) + (if v == u && type_eq x t then old else 0)
        ≡ total (of_user v (q x))
  unfolding remove_entries
  remove_entries-user_total v x = elim (Bool-cases (v == u && type_eq x t)) [
    | inl same ↦
        rw
          (
            same,
            of_user-remove_entry v id (q x) (r.distinct x),
            (same_pair v u x t same).0,
            (same_pair v u x t same).1,
          )
          (total-remove_entry s t id (of_user u (q t)) (AllHold-of_user s t u (q t) (r.holds t)) mu)
    | inr miss ↦
        rw (miss, of_user-remove_entry v id (q x) (r.distinct x))
          (ground (arith, remove_entry_absent id (of_user v (q x)), absent_user v x miss))
  ]

module _ (id amount : ℕ) (s : Funds) {q : Queues} (r : Repr s q) where
  abbrev f_type : FundType
  f_type = fund_type (s.fund_by_id id).fund_desc

  module _ (m : has id (ids (q f_type)) ≡ true) where
    pub decrease_queue-total :
        (x : FundType)
        → total (decrease_queue id amount s q x)
            + (if type_eq x f_type then min amount (s.fund_by_id id).balance else 0)
          ≡ total (q x)
    unfolding decrease_queue
    decrease_queue-total x = elim (Bool-cases (leb (s.fund_by_id id).balance amount)) [
      | inl all ↦ rw all (ground (arith, remove_entries-total id 0 s r f_type m x))
      | inr part ↦ rw part (
          ground (arith, set_balances-total id ((s.fund_by_id id).balance - amount) s r f_type m x))
    ]

    pub decrease_queue-user_total :
        (v : ℕ) (x : FundType)
        → total (of_user v (decrease_queue id amount s q x))
            + (if v == (s.fund_by_id id).user_id && type_eq x f_type
                then min amount (s.fund_by_id id).balance
                else 0)
          ≡ total (of_user v (q x))
    unfolding decrease_queue
    decrease_queue-user_total v x = elim (Bool-cases (leb (s.fund_by_id id).balance amount)) [
      | inl all ↦ rw all (ground (arith, remove_entries-user_total id 0 s r f_type m v x))
      | inr part ↦ rw part (
          ground (
            arith,
            set_balances-user_total id ((s.fund_by_id id).balance - amount) s r f_type m v x,
          ))
    ]

module _ (u : ℕ) (d : FundDescription) (amount : ℕ) (s : Funds) {q : Queues} (r : Repr s q) where
  abbrev t : FundType
  t = fund_type d

  abbrev last : ℕ
  last = (s.fuser u t).last

  pub increase_queue-total :
      (x : FundType)
      → total (increase_queue u d amount s q x) ≡ total (q x) + (if type_eq x t then amount else 0)
  unfolding increase_queue push_queue
  increase_queue-total x = elim (Bool-cases (amount == 0)) [
    | inl nothing ↦ rw nothing (ground arith)
    | inr something ↦ elim (Bool-cases (can_coalesce u d s)) [
      | inl joined ↦
          let pos : 0 < amount = ground arith in
          let m = has-of_user last u (q t) (last-mem u d amount s r pos joined) in
          rw (something, joined)
            (ground
              (arith, set_balances-total last ((s.fund_by_id last).balance + amount) s r t m x))
      | inr apart ↦
          rw (something, apart)
            (ground (
              arith,
              total-append (q x)
                  (record { id = s.f_max_id + 1; user = u; desc = d; balance = amount } ∷ []),
            ))
    ]
  ]

  pub increase_queue-user_total :
      (v : ℕ) (x : FundType)
      → total (of_user v (increase_queue u d amount s q x))
        ≡ total (of_user v (q x)) + (if v == u && type_eq x t then amount else 0)
  unfolding increase_queue push_queue
  increase_queue-user_total v x = elim (Bool-cases (amount == 0)) [
    | inl nothing ↦ rw nothing (ground arith)
    | inr something ↦ elim (Bool-cases (can_coalesce u d s)) [
      | inl joined ↦
          let pos : 0 < amount = ground arith in
          let m = has-of_user last u (q t) (last-mem u d amount s r pos joined) in
          rw (something, joined)
            (ground (
              arith,
              last-user u d amount s r pos joined,
              set_balances-user_total last ((s.fund_by_id last).balance + amount) s r t m v x,
            ))
      | inr apart ↦
          let e : Entry = record { id = s.f_max_id + 1; user = u; desc = d; balance = amount } in
          rw (something, apart)
            (ground (
              arith,
              of_user-append v (q x) (e ∷ []),
              total-append (of_user v (q x)) (of_user v (e ∷ [])),
            ))
    ]
  ]

  -- The queues of the other types stay as they are.
  pub increase_queue-length :
      (x : FundType) → length (ids (increase_queue u d amount s q x)) ≤ length (ids (q x)) + 1
  unfolding increase_queue push_queue set_balances
  increase_queue-length x = elim (Bool-cases (amount == 0)) [
    | inl nothing ↦ rw nothing (omega arith)
    | inr something ↦ elim (Bool-cases (can_coalesce u d s)) [
      | inl joined ↦ rw (something, joined, ids-set_balance last _ (q x)) (omega arith)
      | inr apart ↦ elim (Bool-cases (type_eq x t)) [
        | inl same ↦ rw (something, apart, same) (omega (arith, length-push (q x) _))
        | inr miss ↦ rw (something, apart, miss) (omega arith)
      ]
    ]
  ]

  pub increase_queue-other :
      (x : FundType) → type_eq x t ≡ false → increase_queue u d amount s q x ≡ q x
  unfolding increase_queue push_queue set_balances
  increase_queue-other x other = elim (Bool-cases (amount == 0)) [
    | inl nothing ↦ rw nothing refl
    | inr something ↦ elim (Bool-cases (can_coalesce u d s)) [
      | inl joined ↦
          let pos : 0 < amount = ground arith in
          let m = has-of_user last u (q t) (last-mem u d amount s r pos joined) in
          rw (something, joined) (set_balance_absent last _ (q x) (absent last 0 s r t m x other))
      | inr apart ↦ rw (something, apart, other) refl
    ]
  ]
