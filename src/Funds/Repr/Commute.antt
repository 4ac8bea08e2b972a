-- ===== src/Funds/Repr/Commute.antt =====
-- The write of an item and `increase_fund_balance`, in either order. A closure of `update` that
-- converts an item moves the balance before the item itself is written.
use mx_delegation_sc.Base.{
  ℕ, ◌+◌, ◌≡◌, ◌≢◌, refl, sym, ap, ◌∙◌, fun_ext, arith, ◌==◌, inl, inr, Bool-cases, ne→==,
  add_usize,
}
use mx_delegation_sc.Funds.Types.{FundDescription, FundItem, fund_type, is_default_list}
use mx_delegation_sc.Funds.Store.{Funds, set_fund, update_fund, set_type_list, set_user_list}
use mx_delegation_sc.Funds.Create.{
  add_fund_to_type_list, add_fund_to_user_list, fresh_item, insert_fund, create_fund, can_coalesce,
  coalesce_fund, increase_fund_balance,
}

pub set_fund_comm :
    (a b : ℕ) (f g : FundItem) (s : Funds)
    → b ≢ a
    → set_fund a f (set_fund b g s) ≡ set_fund b g (set_fund a f s)
unfolding set_fund
set_fund_comm a b f g s ne =
    ap (λ (h : ℕ → FundItem). record s { fund_by_id = h }) (fun_ext λ x. ground arith)

module _ (id : ℕ) (it : FundItem) where
  abbrev put : Funds → Funds
  put s = set_fund id it s

  pub item-kept : (l : ℕ) (s : Funds) → l ≢ id → (put s).fund_by_id l ≡ s.fund_by_id l
  unfolding set_fund
  item-kept l s ne = rw (ne→== l id ne)

  update_comm :
      (l : ℕ) (g : FundItem → FundItem) (s : Funds)
      → l ≢ id
      → update_fund l g (put s) ≡ put (update_fund l g s)
  update_comm l g s ne =
      ap (λ x. set_fund l (g x) (put s)) (item-kept l s ne)
      ∙ sym (set_fund_comm id l it (g (s.fund_by_id l)) s ne)

  add_type_comm :
      (n : ℕ) (x : FundItem) (s : Funds)
      → (s.ftype (fund_type x.fund_desc)).last ≢ id
      → add_fund_to_type_list n x (put s)
        ≡ ((add_fund_to_type_list n x s).0, put (add_fund_to_type_list n x s).1)
  unfolding add_fund_to_type_list set_fund set_type_list
  add_type_comm n x s ne = elim (Bool-cases (is_default_list (s.ftype (fund_type x.fund_desc)))) [
    | inl empty ↦ rw empty refl
    | inr linked ↦ rw linked (
        ap
          (λ (z : Funds). (
            record x { type_list_prev = (s.ftype (fund_type x.fund_desc)).last },
            set_type_list (fund_type x.fund_desc)
                (record (s.ftype (fund_type x.fund_desc)) {
                  last = n;
                  total_balance = (s.ftype (fund_type x.fund_desc)).total_balance + x.balance;
                })
                z,
          ))
          (update_comm (s.ftype (fund_type x.fund_desc)).last
            (λ prev. record prev { type_list_next = n }) s ne))
  ]

  add_user_comm :
      (n : ℕ) (x : FundItem) (s : Funds)
      → (s.fuser x.user_id (fund_type x.fund_desc)).last ≢ id
      → add_fund_to_user_list n x (put s)
        ≡ ((add_fund_to_user_list n x s).0, put (add_fund_to_user_list n x s).1)
  unfolding add_fund_to_user_list set_fund set_user_list
  add_user_comm n x s ne =
      elim (Bool-cases (is_default_list (s.fuser x.user_id (fund_type x.fund_desc)))) [
        | inl empty ↦ rw empty refl
        | inr linked ↦ rw linked (
            ap
              (λ (z : Funds). (
                record x { user_list_prev = (s.fuser x.user_id (fund_type x.fund_desc)).last },
                set_user_list x.user_id (fund_type x.fund_desc)
                    (record (s.fuser x.user_id (fund_type x.fund_desc)) {
                      last = n;
                      total_balance =
                          (s.fuser x.user_id (fund_type x.fund_desc)).total_balance + x.balance;
                    })
                    z,
              ))
              (update_comm (s.fuser x.user_id (fund_type x.fund_desc)).last
                (λ prev. record prev { user_list_next = n }) s ne))
      ]

  add_type-keeps :
      (n : ℕ) (x : FundItem) (s : Funds)
      → ((add_fund_to_type_list n x s).0.user_id ≡ x.user_id)
        × ((add_fund_to_type_list n x s).0.fund_desc ≡ x.fund_desc)
        × ((add_fund_to_type_list n x s).1.fuser ≡ s.fuser)
  unfolding add_fund_to_type_list set_fund set_type_list
  add_type-keeps n x s = elim (Bool-cases (is_default_list (s.ftype (fund_type x.fund_desc)))) [
    | inl empty ↦ rw empty (refl, refl, refl)
    | inr linked ↦ rw linked (refl, refl, refl)
  ]

  insert_comm :
      (n : ℕ) (x : FundItem) (s : Funds)
      → n ≢ id
      → (s.ftype (fund_type x.fund_desc)).last ≢ id
      → (s.fuser x.user_id (fund_type x.fund_desc)).last ≢ id
      → insert_fund n x (put s) ≡ put (insert_fund n x s)
  unfolding insert_fund
  insert_comm n x s ne ht hu =
      let first = add_fund_to_type_list n x s in
      let kept = add_type-keeps n x s in
      let hu' : (first.1.fuser first.0.user_id (fund_type first.0.fund_desc)).last ≢ id =
        rw (kept.0, kept.1, kept.2) hu in
      let second = add_fund_to_user_list n first.0 first.1 in
      ap
        (λ (p : FundItem × Funds).
          let (item'', s'') = add_fund_to_user_list n p.0 p.1 in set_fund n item'' s'')
        (add_type_comm n x s ht)
      ∙ ap (λ (p : FundItem × Funds). set_fund n p.0 p.1) (add_user_comm n first.0 first.1 hu')
      ∙ sym (set_fund_comm id n it second.0 second.1 ne)

  module _ (u : ℕ) (d : FundDescription) (a : ℕ) (s : Funds) where
    abbrev last : ℕ
    last = (s.fuser u (fund_type d)).last

    can_coalesce-put : last ≢ id → can_coalesce u d (put s) ≡ can_coalesce u d s
    unfolding can_coalesce set_fund
    can_coalesce-put ne = rw (ne→== last id ne)

    coalesce_comm : last ≢ id → coalesce_fund u d a (put s) ≡ put (coalesce_fund u d a s)
    unfolding coalesce_fund set_user_list set_type_list
    coalesce_comm ne =
        let l = s.fund_by_id last in
        let f = fund_type l.fund_desc in
        let tl = record (s.ftype f) { total_balance = (s.ftype f).total_balance + a } in
        let ul = record (s.fuser u (fund_type d)) {
          total_balance = (s.fuser u (fund_type d)).total_balance + a;
        } in
        ap
          (λ (x : FundItem).
            let tl' = s.ftype (fund_type x.fund_desc) in
            set_user_list u (fund_type d) ul (
              set_fund last (record x { balance = x.balance + a })
                (set_type_list (fund_type x.fund_desc)
                  (record tl' { total_balance = tl'.total_balance + a }) (put s))))
          (item-kept last s ne)
        ∙ ap (set_user_list u (fund_type d) ul) (
            sym (
              set_fund_comm id last it (record l { balance = l.balance + a }) (set_type_list f tl s)
                ne))

    -- Writing another item first makes no difference to `increase_fund_balance`.
    pub increase_comm :
        last ≢ id
        → (s.ftype (fund_type d)).last ≢ id
        → add_usize s.f_max_id 1 ≢ id
        → increase_fund_balance u d a (put s) ≡ put (increase_fund_balance u d a s)
    unfolding increase_fund_balance create_fund
    increase_comm hu ht hn = elim (Bool-cases (a == 0)) [
      | inl nothing ↦ rw nothing refl
      | inr something ↦ elim (Bool-cases (can_coalesce u d s)) [
        | inl joined ↦ rw (something, can_coalesce-put hu, joined) (coalesce_comm hu)
        | inr apart ↦
            rw (something, can_coalesce-put hu, apart)
              (insert_comm (add_usize s.f_max_id 1) (fresh_item u d a)
                (record s { f_max_id = add_usize s.f_max_id 1 }) hn ht hu)
      ]
    ]
