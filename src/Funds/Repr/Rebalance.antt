-- ===== src/Funds/Repr/Rebalance.antt =====
-- An item changes its balance, and the two headers follow: what is common to the coalescing of
-- `increase_fund_balance` and to the partial case of `decrease_fund_balance`.
use mx_delegation_sc.Base.{
  ℕ, ◌+◌, ◌<◌, ◌≡◌, refl, sym, ap, true, false, ◌&&◌, List, [], ◌∷◌, arith, ◌==◌, if◌then◌else◌,
  has, inl, inr, Bool-cases, ==→eq,
}
use mx_delegation_sc.Funds.Types.{FundType, FundItem, fund_type, type_eq, type_eq→eq, type_eq_refl}
use mx_delegation_sc.Funds.Store.{Funds, set_fund, set_type_list, set_user_list}
use mx_delegation_sc.Funds.Links.{Nodup, Links-frame}
use mx_delegation_sc.Funds.Repr.{
  Entry, ids, total, of_user, Queues, AllHold, Repr, tnext, tprev, unext, uprev,
}
use mx_delegation_sc.Funds.Repr.Insert.{not_default}
use mx_delegation_sc.Funds.Repr.Facts.{
  of_user-Nodup, type-of_mem, user-of_mem, has-of_user, one_type,
}

abbrev pub set_balance : ℕ → ℕ → List Entry → List Entry
set_balance id b [] = []
set_balance id b (e ∷ es) =
    (if e.id == id then record e { balance = b } else e) ∷ set_balance id b es

unfoldable pub set_balances : ℕ → ℕ → Queues → Queues
set_balances id b q x = set_balance id b (q x)

pub ids-set_balance : (id b : ℕ) (es : List Entry) → ids (set_balance id b es) ≡ ids es
ids-set_balance id b [] = refl
ids-set_balance id b (e ∷ es) = ground (arith, ids-set_balance id b es)

pub of_user-set_balance :
    (u id b : ℕ) (es : List Entry)
    → of_user u (set_balance id b es) ≡ set_balance id b (of_user u es)
of_user-set_balance u id b [] = refl
of_user-set_balance u id b (e ∷ es) = elim (Bool-cases (e.user == u)) [
  | inl mine ↦ elim (Bool-cases (e.id == id)) [
    | inl hit ↦ rw (hit, mine, of_user-set_balance u id b es, hit)
    | inr miss ↦ rw (miss, mine, of_user-set_balance u id b es, miss)
  ]
  | inr other ↦ elim (Bool-cases (e.id == id)) [
    | inl hit ↦ rw (hit, other, of_user-set_balance u id b es)
    | inr miss ↦ rw (miss, other, of_user-set_balance u id b es)
  ]
]

pub total-set_balance_absent :
    (id b : ℕ) (es : List Entry) → has id (ids es) ≡ false → total (set_balance id b es) ≡ total es
total-set_balance_absent id b [] out = refl
total-set_balance_absent id b (e ∷ es) out = ground (arith, total-set_balance_absent id b es)

pub set_balance_absent :
    (id b : ℕ) (es : List Entry) → has id (ids es) ≡ false → set_balance id b es ≡ es
set_balance_absent id b [] out = refl
set_balance_absent id b (e ∷ es) out = ground (arith, set_balance_absent id b es)

pub total-set_balance :
    (s : Funds) (t : FundType) (id b : ℕ) (es : List Entry)
    → AllHold s t es
    → Nodup (ids es)
    → has id (ids es) ≡ true
    → total (set_balance id b es) + (s.fund_by_id id).balance ≡ total es + b
total-set_balance s t id b [] h d m = cc
total-set_balance s t id b (e ∷ es) (h, hs) (out, d) m =
    ground (arith, h.balance, total-set_balance s t id b es hs d, total-set_balance_absent id b es)

pub AllHold-of_user :
    (s : Funds) (t : FundType) (u : ℕ) (es : List Entry)
    → AllHold s t es
    → AllHold s t (of_user u es)
AllHold-of_user s t u [] h = tt
AllHold-of_user s t u (e ∷ es) (h, hs) = elim (Bool-cases (e.user == u)) [
  | inl mine ↦ rw mine (h, AllHold-of_user s t u es hs)
  | inr other ↦ rw other (AllHold-of_user s t u es hs)
]

-- A member is in the part of its user.
pub has-of_user_own :
    (s : Funds) (t : FundType) (id : ℕ) (es : List Entry)
    → AllHold s t es
    → has id (ids es) ≡ true
    → has id (ids (of_user (s.fund_by_id id).user_id es)) ≡ true
has-of_user_own s t id [] h m = cc
has-of_user_own s t id (e ∷ es) (h, hs) m = ground (arith, h.user, has-of_user_own s t id es hs)

-- The storage with the new balance and the new sums.
unfoldable pub rebalanced : (id b type_total user_total : ℕ) → Funds → Funds
unfolding set_fund set_type_list set_user_list fund_type
rebalanced id b type_total user_total s =
    let f = s.fund_by_id id in
    let t = fund_type f.fund_desc in
    set_fund id (record f { balance = b })
      (set_user_list f.user_id t (record (s.fuser f.user_id t) { total_balance = user_total })
        (set_type_list t (record (s.ftype t) { total_balance = type_total }) s))

module _ (id b type_total user_total : ℕ) (s : Funds) {q : Queues} (r : Repr s q) (t : FundType)
    (m : has id (ids (q t)) ≡ true) (some_balance : 0 < b)
    (e1 : type_total + (s.fund_by_id id).balance ≡ (s.ftype t).total_balance + b)
    (e2 : user_total + (s.fund_by_id id).balance
      ≡ (s.fuser (s.fund_by_id id).user_id t).total_balance + b) where
  abbrev f : FundItem
  f = s.fund_by_id id

  abbrev u : ℕ
  u = f.user_id

  abbrev s' : Funds
  s' = rebalanced id b type_total user_total s

  own_type : fund_type f.fund_desc ≡ t
  own_type = type-of_mem s t (q t) id (r.holds t) m

  new-item :
      (x : ℕ) → s'.fund_by_id x ≡ (if x == id then record f { balance = b } else s.fund_by_id x)
  unfolding rebalanced
  new-item x = let stored = not_default (record f { balance = b }) (omega arith) in rw stored

  new-type :
      (x : FundType)
      → s'.ftype x
        ≡ (if type_eq x t then record (s.ftype t) { total_balance = type_total } else s.ftype x)
  unfolding rebalanced
  new-type x = rw own_type

  new-user :
      (v : ℕ) (x : FundType)
      → s'.fuser v x ≡ (
          if v == u && type_eq x t
          then record (s.fuser u t) { total_balance = user_total }
          else s.fuser v x)
  unfolding rebalanced
  new-user v x = rw own_type

  same_links :
      (x : ℕ)
      → (tnext s' x ≡ tnext s x)
        × (tprev s' x ≡ tprev s x)
        × (unext s' x ≡ unext s x)
        × (uprev s' x ≡ uprev s x)
  same_links x = ground (arith, new-item x)

  same_type_ends :
      (x : FundType)
      → ((s'.ftype x).first ≡ (s.ftype x).first) × ((s'.ftype x).last ≡ (s.ftype x).last)
  same_type_ends x = ground (arith, new-type x, type_eq→eq x t)

  same_user_ends :
      (v : ℕ) (x : FundType)
      → ((s'.fuser v x).first ≡ (s.fuser v x).first) × ((s'.fuser v x).last ≡ (s.fuser v x).last)
  same_user_ends v x = ground (arith, new-user v x, type_eq→eq x t)

  other_type : (x : FundType) → type_eq x t ≡ false → has id (ids (q x)) ≡ false
  other_type x ne = elim (Bool-cases (has id (ids (q x)))) [
    | inl inside ↦
        let both : x ≡ t = one_type r id t x m inside in
        cc (type_eq_refl x, ne, ap (type_eq x) both)
    | inr out ↦ out
  ]

  own_total : total (set_balance id b (q t)) ≡ type_total
  own_total =
      omega (arith, total-set_balance s t id b (q t) (r.holds t) (r.distinct t) m, r.type_total t)

  own_user_total : total (set_balance id b (of_user u (q t))) ≡ user_total
  own_user_total = omega (
    arith,
    total-set_balance s t id b (of_user u (q t)) (AllHold-of_user s t u (q t) (r.holds t))
        (of_user-Nodup u (q t) (r.distinct t)) (has-of_user_own s t id (q t) (r.holds t) m),
    r.user_total u t,
  )

  other_part :
      (v : ℕ) (x : FundType)
      → (v == u && type_eq x t) ≡ false
      → has id (ids (of_user v (q x))) ≡ false
  other_part v x ne = elim (Bool-cases (has id (ids (of_user v (q x))))) [
    | inl inside ↦
        let same : x ≡ t = one_type r id t x m (has-of_user id v (q x) inside) in
        let tested : type_eq x t ≡ true = rw same (type_eq_refl t) in
        ground (arith, user-of_mem s x (q x) v id (r.holds x) inside)
    | inr out ↦ out
  ]

  same_pair : (v : ℕ) (x : FundType) → (v == u && type_eq x t) ≡ true → (v ≡ u) × (x ≡ t)
  same_pair v x h = ground (arith, type_eq→eq x t)

  new_holds : (x : FundType) (es : List Entry) → AllHold s x es → AllHold s' x (set_balance id b es)
  new_holds x [] h = tt
  new_holds x (e ∷ es) (h, hs) = elim (Bool-cases (e.id == id)) [
    | inl hit ↦ rw hit (
      record {
        desc = ground (arith, new-item e.id, h.desc, ==→eq e.id id hit);
        user = ground (arith, new-item e.id, h.user, ==→eq e.id id hit);
        balance = ground (arith, new-item e.id);
        type = h.type;
        positive = some_balance;
        id_positive = h.id_positive;
        id_bound = unfold rebalanced in h.id_bound;
      },
      new_holds x es hs,
    )
    | inr miss ↦ rw miss (
      record {
        desc = ground (arith, new-item e.id, h.desc);
        user = ground (arith, new-item e.id, h.user);
        balance = ground (arith, new-item e.id, h.balance);
        type = h.type;
        positive = h.positive;
        id_positive = h.id_positive;
        id_bound = unfold rebalanced in h.id_bound;
      },
      new_holds x es hs,
    )
  ]

  -- The queues with the new balance are represented.
  pub rebalanced-Repr : Repr s' (set_balances id b q)
  unfolding set_balances
  rebalanced-Repr = record {
    type_links = λ x.
        rw (ids-set_balance id b (q x), (same_type_ends x).0, (same_type_ends x).1)
          (Links-frame 0 _ (ids (q x)) _ (λ a i. (same_links a).0) (λ a i. (same_links a).1)
            (r.type_links x));
    user_links = λ v x.
        rw
          (
            of_user-set_balance v id b (q x),
            ids-set_balance id b (of_user v (q x)),
            (same_user_ends v x).0,
            (same_user_ends v x).1,
          )
          (Links-frame 0 _ (ids (of_user v (q x))) _ (λ a i. (same_links a).2)
            (λ a i. (same_links a).3) (r.user_links v x));
    type_total = λ x. elim (Bool-cases (type_eq x t)) [
      | inl same ↦ rw (new-type x, same, type_eq→eq x t same) (sym own_total)
      | inr miss ↦
          rw (new-type x, miss, total-set_balance_absent id b (q x) (other_type x miss))
            (r.type_total x)
    ];
    user_total = λ v x. elim (Bool-cases (v == u && type_eq x t)) [
      | inl same ↦
          rw
            (
              new-user v x,
              of_user-set_balance v id b (q x),
              same,
              (same_pair v x same).0,
              (same_pair v x same).1,
            )
            (sym own_user_total)
      | inr miss ↦
          rw
            (
              new-user v x,
              of_user-set_balance v id b (q x),
              miss,
              total-set_balance_absent id b (of_user v (q x)) (other_part v x miss),
            )
            (r.user_total v x)
    ];
    holds = λ x. new_holds x (q x) (r.holds x);
    distinct = λ x. rw (ids-set_balance id b (q x)) (r.distinct x);
    cleared = λ a pa out.
        let gone : (x : FundType) → has a (ids (q x)) ≡ false =
          λ x. rw (ids-set_balance id b (q x)) at (out x) in
        ground (arith, new-item a, gone t, r.cleared a pa gone);
  }
