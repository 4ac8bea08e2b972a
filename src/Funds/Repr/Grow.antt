-- ===== src/Funds/Repr/Grow.antt =====
-- `insert_fund` (the end of `create_fund` in fund_module.rs), on the storage and on the queues.
use mx_delegation_sc.Base.{
  ℕ, ◌≤◌, ◌<◌, ◌≡◌, ◌≢◌, sym, ap, ◌∙◌, inl, inr, true, false, ◌&&◌, ◌||◌, [], ◌∷◌, ◌++◌, arith,
  ◌==◌, if◌then◌else◌, has, has-append, Bool-cases, ne→==,
}
use mathlib.Core.Path.{subst}
use mx_delegation_sc.Funds.Types.{
  FundDescription, FundType, FundsListInfo, fund_type, type_eq, type_eq→eq, type_eq_refl,
  default_item,
}
use mx_delegation_sc.Funds.Store.{Funds}
use mx_delegation_sc.Funds.Links.{Links, Nodup, Links-frame}
use mx_delegation_sc.Funds.Links.Push.{Links-push}
use mx_delegation_sc.Funds.Repr.{
  Entry, ids, total, of_user, Queues, AllHold, Repr, tnext, tprev, unext, uprev,
}
use mx_delegation_sc.Funds.Repr.Inserted.{
  inserted, inserted-item, inserted-type, inserted-user, inserted-max,
}
use mx_delegation_sc.Funds.Repr.Facts.{
  ids-append, total-append, of_user-append, has-of_user, of_user-Nodup, snoc-Nodup, id_bounds,
  AllHold-frame, AllHold-append, type_list_empty, user_list_empty, not_last_of_type,
  not_last_of_user, last_of_type, last_of_user,
}
use mathlib.Core.List.{append-nil}

-- One more entry at the end of its queue.
unfoldable pub push_queue : Entry → Queues → Queues
push_queue e q x = if type_eq x (fund_type e.desc) then q x ++ e ∷ [] else q x

module _ (id : ℕ) (pos : 0 < id) (u : ℕ) (d : FundDescription) (b : ℕ) (some_balance : 0 < b)
    (s : Funds) (bound : id ≤ s.f_max_id) {q : Queues} (r : Repr s q)
    (unused : (x : FundType) → has id (ids (q x)) ≡ false) where
  abbrev t : FundType
  t = fund_type d

  abbrev e : Entry
  e = record { id = id; user = u; desc = d; balance = b }

  abbrev s' : Funds
  s' = inserted id pos u d b some_balance s

  abbrev q' : Queues
  q' = push_queue e q

  abbrev tl : FundsListInfo
  tl = s.ftype t

  abbrev ul : FundsListInfo
  ul = s.fuser u t

  own-links :
      (tnext s' id ≡ 0) × (tprev s' id ≡ tl.last) × (unext s' id ≡ 0) × (uprev s' id ≡ ul.last)
  own-links = ground (arith, inserted-item id pos u d b some_balance s id pos)

  own-data :
      ((s'.fund_by_id id).fund_desc ≡ d)
      × ((s'.fund_by_id id).user_id ≡ u)
      × ((s'.fund_by_id id).balance ≡ b)
  own-data = ground (arith, inserted-item id pos u d b some_balance s id pos)

  module _ (x : ℕ) (px : 0 < x) (ne : x ≢ id) where
    other-tnext : tnext s' x ≡ (if x == tl.last then id else tnext s x)
    other-tnext = ground (arith, inserted-item id pos u d b some_balance s x px)

    other-unext : unext s' x ≡ (if x == ul.last then id else unext s x)
    other-unext = ground (arith, inserted-item id pos u d b some_balance s x px)

    other-prevs : (tprev s' x ≡ tprev s x) × (uprev s' x ≡ uprev s x)
    other-prevs = ground (arith, inserted-item id pos u d b some_balance s x px)

    other-data :
        ((s'.fund_by_id x).fund_desc ≡ (s.fund_by_id x).fund_desc)
        × ((s'.fund_by_id x).user_id ≡ (s.fund_by_id x).user_id)
        × ((s'.fund_by_id x).balance ≡ (s.fund_by_id x).balance)
    other-data = ground (arith, inserted-item id pos u d b some_balance s x px)

  -- What the old facts say of a member of a queue.
  member-pos : (x : FundType) (a : ℕ) → has a (ids (q x)) ≡ true → 0 < a
  member-pos x a m = (id_bounds s x (q x) a (r.holds x) m).0

  member-ne : (x : FundType) (a : ℕ) → has a (ids (q x)) ≡ true → a ≢ id
  member-ne x a m e = ground (arith, unused x)

  own_type-Links : Links (tnext s') (tprev s') 0 (s'.ftype t).first (ids (q' t)) (s'.ftype t).last
  unfolding push_queue
  own_type-Links =
      rw
        (
          inserted-type id pos u d b some_balance s t,
          type_eq_refl t,
          ids-append,
          type_list_empty r t,
        )
        (Links-push (tnext s) (tprev s) (tnext s') (tprev s') id 0 tl.first (ids (q t)) tl.last
          (r.type_links t) (r.distinct t) pos own-links.0 own-links.1
          (λ a m. other-tnext a (member-pos t a m) (member-ne t a m))
          (λ a m. (other-prevs a (member-pos t a m) (member-ne t a m)).0))

  other_type-Links :
      (x : FundType)
      → type_eq x t ≡ false
      → Links (tnext s') (tprev s') 0 (s'.ftype x).first (ids (q' x)) (s'.ftype x).last
  unfolding push_queue
  other_type-Links x ne =
      rw (inserted-type id pos u d b some_balance s x, ne)
        (Links-frame 0 (s.ftype x).first (ids (q x)) (s.ftype x).last
          (λ a m. ground (
            arith,
            other-tnext a (member-pos x a m) (member-ne x a m),
            not_last_of_type r a t x ne m,
          ))
          (λ a m. (other-prevs a (member-pos x a m) (member-ne x a m)).0) (r.type_links x))

  -- A user's part of the new queue.
  part-push :
      (v : ℕ) (x : FundType)
      → of_user v (q' x)
        ≡ (if v == u && type_eq x t then of_user v (q x) ++ e ∷ [] else of_user v (q x))
  unfolding push_queue
  part-push v x = elim (Bool-cases (type_eq x t)) [
    | inl same ↦ rw (same, of_user-append) (ground (arith, append-nil (of_user v (q x))))
    | inr miss ↦ rw miss (ground arith)
  ]

  own_user-Links :
      Links
        (unext s')
        (uprev s')
        0
        (s'.fuser u t).first
        (ids (of_user u (q' t)))
        (s'.fuser u t).last
  own_user-Links =
      let here : (u == u && type_eq t t) ≡ true = ground (arith, type_eq_refl t) in
      rw
        (
          inserted-user id pos u d b some_balance s u t,
          part-push u t,
          here,
          ids-append,
          user_list_empty r u t,
        )
        (Links-push (unext s) (uprev s) (unext s') (uprev s') id 0 ul.first (ids (of_user u (q t)))
          ul.last (r.user_links u t) (of_user-Nodup u (q t) (r.distinct t)) pos own-links.2
          own-links.3
          (λ a m.
            let i = has-of_user a u (q t) m in other-unext a (member-pos t a i) (member-ne t a i))
          (λ a m.
            let i = has-of_user a u (q t) m in
            (other-prevs a (member-pos t a i) (member-ne t a i)).1))

  other_user-Links :
      (v : ℕ) (x : FundType)
      → (v == u && type_eq x t) ≡ false
      → Links
          (unext s')
          (uprev s')
          0
          (s'.fuser v x).first
          (ids (of_user v (q' x)))
          (s'.fuser v x).last
  other_user-Links v x ne =
      rw (inserted-user id pos u d b some_balance s v x, part-push v x, ne)
        (Links-frame 0 (s.fuser v x).first (ids (of_user v (q x))) (s.fuser v x).last
          (λ a m.
            let i = has-of_user a v (q x) m in
            ground (
              arith,
              other-unext a (member-pos x a i) (member-ne x a i),
              not_last_of_user r a u v t x ne m,
            ))
          (λ a m.
            let i = has-of_user a v (q x) m in
            (other-prevs a (member-pos x a i) (member-ne x a i)).1)
          (r.user_links v x))

  same_pair : (v : ℕ) (x : FundType) → (v == u && type_eq x t) ≡ true → (v ≡ u) × (x ≡ t)
  same_pair v x h = ground (arith, type_eq→eq x t)

  new_type_total : (x : FundType) → (s'.ftype x).total_balance ≡ total (q' x)
  unfolding push_queue
  new_type_total x = elim (Bool-cases (type_eq x t)) [
    | inl same ↦
        rw (inserted-type id pos u d b some_balance s x, same, total-append)
          (ground (arith, r.type_total t, type_eq→eq x t same))
    | inr miss ↦ rw (inserted-type id pos u d b some_balance s x, miss) (r.type_total x)
  ]

  new_user_total : (v : ℕ) (x : FundType) → (s'.fuser v x).total_balance ≡ total (of_user v (q' x))
  new_user_total v x = elim (Bool-cases (v == u && type_eq x t)) [
    | inl same ↦
        rw (inserted-user id pos u d b some_balance s v x, part-push v x, same, total-append)
          (ground (arith, r.user_total u t, same_pair v x same))
    | inr miss ↦
        rw (inserted-user id pos u d b some_balance s v x, part-push v x, miss) (r.user_total v x)
  ]

  old_holds : (x : FundType) → AllHold s' x (q x)
  old_holds x =
      AllHold-frame s s' x (q x) (omega (arith, inserted-max id pos u d b some_balance s))
        (λ a m. (other-data a (member-pos x a m) (member-ne x a m)).0)
        (λ a m. (other-data a (member-pos x a m) (member-ne x a m)).1)
        (λ a m. (other-data a (member-pos x a m) (member-ne x a m)).2) (r.holds x)

  new_holds : (x : FundType) → AllHold s' x (q' x)
  unfolding push_queue
  new_holds x = elim (Bool-cases (type_eq x t)) [
    | inl same ↦ rw same (
        AllHold-append s' x (q x) (e ∷ []) (old_holds x) (
          record {
            desc = own-data.0;
            user = own-data.1;
            balance = own-data.2;
            type = sym (type_eq→eq x t same);
            positive = some_balance;
            id_positive = pos;
            id_bound = omega (arith, inserted-max id pos u d b some_balance s);
          },
          tt,
        ))
    | inr miss ↦ rw miss (old_holds x)
  ]

  new_distinct : (x : FundType) → Nodup (ids (q' x))
  unfolding push_queue
  new_distinct x = elim (Bool-cases (type_eq x t)) [
    | inl same ↦ rw (same, ids-append) (snoc-Nodup id (ids (q x)) (r.distinct x) (unused x))
    | inr miss ↦ rw miss (r.distinct x)
  ]

  -- What is in no new queue was in no old one, and is not the new item.
  absent-push :
      (a : ℕ) (x : FundType)
      → has a (ids (q' x)) ≡ false
      → (has a (ids (q x)) ≡ false) × (type_eq x t ≡ true → a ≢ id)
  unfolding push_queue
  absent-push a x h = elim (Bool-cases (type_eq x t)) [
    | inl same ↦
        let whole : (has a (ids (q x)) || has a (id ∷ [])) ≡ false =
          sym (has-append a (ids (q x)) (id ∷ []))
          ∙ ap (has a) (sym (ids-append (q x) (e ∷ [])))
          ∙ (rw same at h) in
        (ground arith, ground arith)
    | inr miss ↦ (rw miss at h, λ same. cc)
  ]

  new_cleared :
      (a : ℕ)
      → 0 < a
      → ((x : FundType) → has a (ids (q' x)) ≡ false)
      → s'.fund_by_id a ≡ default_item
  new_cleared a pa out =
      let ne : a ≢ id = (absent-push a t (out t)).1 (type_eq_refl t) in
      let gone : (x : FundType) → has a (ids (q x)) ≡ false = λ x. (absent-push a x (out x)).0 in
      let not_type_last : (a == tl.last) ≡ false = ground (arith, last_of_type r t, gone t) in
      let not_user_last : (a == ul.last) ≡ false =
        ground (arith, last_of_user r u t, has-of_user a u (q t), gone t) in
      inserted-item id pos u d b some_balance s a pa
      ∙ rw (ne→== a id ne, not_user_last, not_type_last) (r.cleared a pa gone)

  -- The invariant is kept, and the queues have one more entry.
  pub insert_fund-Repr : Repr s' q'
  insert_fund-Repr = record {
    type_links = λ x. elim (Bool-cases (type_eq x t)) [
      | inl same ↦
          subst
            (λ y. Links (tnext s') (tprev s') 0 (s'.ftype y).first (ids (q' y)) (s'.ftype y).last)
            (sym (type_eq→eq x t same)) own_type-Links
      | inr miss ↦ other_type-Links x miss
    ];
    user_links = λ v x. elim (Bool-cases (v == u && type_eq x t)) [
      | inl same ↦
          subst
            (λ y.
              Links (unext s') (uprev s') 0 (s'.fuser v y).first (ids (of_user v (q' y)))
                (s'.fuser v y).last)
            (sym (same_pair v x same).1)
            (subst
              (λ w.
                Links (unext s') (uprev s') 0 (s'.fuser w t).first (ids (of_user w (q' t)))
                  (s'.fuser w t).last)
              (sym (same_pair v x same).0) own_user-Links)
      | inr miss ↦ other_user-Links v x miss
    ];
    type_total = new_type_total;
    user_total = new_user_total;
    holds = new_holds;
    distinct = new_distinct;
    cleared = new_cleared;
  }
