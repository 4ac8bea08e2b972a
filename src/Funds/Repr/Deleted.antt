-- ===== src/Funds/Repr/Deleted.antt =====
-- What `delete_fund` writes, item by item and header by header.
use mx_delegation_sc.Base.{
  ℕ, ◌-◌, ◌≤◌, ◌<◌, ◌≡◌, ◌≢◌, refl, ap, ◌∙◌, Bool, true, false, ◌&&◌, arith, ◌==◌, if◌then◌else◌,
  inl, inr, Bool-cases,
}
use mx_delegation_sc.Base.Outcome.{ok, sub_big-eq-ok}
use mx_delegation_sc.Funds.Types.{
  FundType, FundItem, FundsListInfo, fund_type, type_eq, default_item, is_default_item,
}
use mx_delegation_sc.Funds.Store.{Funds, set_fund, update_fund, set_type_list, set_user_list}
use mx_delegation_sc.Funds.Delete.{
  delete_fund_from_type_list, delete_fund_from_user_list, delete_fund,
}
use mx_delegation_sc.Funds.Repr.Insert.{not_default, set_fund-get, if-eq}

-- An update that leaves an item with a balance is read back.
update-get :
    (l : ℕ) (g : FundItem → FundItem) (s : Funds) (x : ℕ)
    → 0 < (g (s.fund_by_id l)).balance
    → (update_fund l g s).fund_by_id x ≡ (if x == l then g (s.fund_by_id x) else s.fund_by_id x)
update-get l g s x h =
    set_fund-get l (g (s.fund_by_id l)) s x (not_default (g (s.fund_by_id l)) (omega arith))
    ∙ if-eq x l (λ y. g (s.fund_by_id y)) (s.fund_by_id x)

-- An update that is skipped at the id 0 touches no real id either way.
update-real :
    (l : ℕ) (g : FundItem → FundItem) (s : Funds) (x : ℕ)
    → 0 < x
    → (l ≢ 0 → 0 < (g (s.fund_by_id l)).balance)
    → (if l == 0 then s else update_fund l g s).fund_by_id x
      ≡ (if x == l then g (s.fund_by_id x) else s.fund_by_id x)
update-real l g s x px h = elim (Bool-cases (l == 0)) [
  | inl none_there ↦ let miss : (x == l) ≡ false = ground arith in rw (none_there, miss)
  | inr there ↦ rw there (update-get l g s x (h (ground arith)))
]

update-headers :
    (b : Bool) (l : ℕ) (g : FundItem → FundItem) (s : Funds)
    → ((if b then s else update_fund l g s).ftype ≡ s.ftype)
      × ((if b then s else update_fund l g s).fuser ≡ s.fuser)
      × ((if b then s else update_fund l g s).f_max_id ≡ s.f_max_id)
unfolding set_fund
update-headers true l g s = (refl, refl, refl)
update-headers false l g s = (refl, refl, refl)

module _ (f : FundItem) (l : FundsListInfo) (s : Funds) where
  abbrev pub type_bypassed : ℕ → FundItem
  type_bypassed x =
      let g =
        if x == f.type_list_prev
        then record (s.fund_by_id x) { type_list_next = f.type_list_next }
        else s.fund_by_id x in
      if x == f.type_list_next then record g { type_list_prev = f.type_list_prev } else g

  abbrev pub user_bypassed : ℕ → FundItem
  user_bypassed x =
      let g =
        if x == f.user_list_prev
        then record (s.fund_by_id x) { user_list_next = f.user_list_next }
        else s.fund_by_id x in
      if x == f.user_list_next then record g { user_list_prev = f.user_list_prev } else g

  delete_type-item :
      (x : ℕ)
      → 0 < x
      → (f.type_list_prev ≢ 0 → 0 < (s.fund_by_id f.type_list_prev).balance)
      → (f.type_list_next ≢ 0 → 0 < (s.fund_by_id f.type_list_next).balance)
      → (delete_fund_from_type_list f l s).2.fund_by_id x ≡ type_bypassed x
  unfolding delete_fund_from_type_list
  delete_type-item x px hp hn =
      update-real f.type_list_next (λ p. record p { type_list_prev = f.type_list_prev }) _ x px
        (λ ne.
          rw
            (update-real f.type_list_prev (λ p. record p { type_list_next = f.type_list_next }) s
              f.type_list_next (omega arith) hp)
            (ground (arith, hn ne)))
      ∙ rw (
          update-real f.type_list_prev (λ p. record p { type_list_next = f.type_list_next }) s x px
            hp)

  delete_type-headers :
      ((delete_fund_from_type_list f l s).2.ftype ≡ s.ftype)
      × ((delete_fund_from_type_list f l s).2.fuser ≡ s.fuser)
      × ((delete_fund_from_type_list f l s).2.f_max_id ≡ s.f_max_id)
  unfolding delete_fund_from_type_list
  delete_type-headers =
      let first =
        update-headers (f.type_list_prev == 0) f.type_list_prev
          (λ p. record p { type_list_next = f.type_list_next }) s in
      let second =
        update-headers (f.type_list_next == 0) f.type_list_next
          (λ p. record p { type_list_prev = f.type_list_prev }) _ in
      (second.0 ∙ first.0, second.1 ∙ first.1, second.2 ∙ first.2)

  delete_user-item :
      (x : ℕ)
      → 0 < x
      → (f.user_list_prev ≢ 0 → 0 < (s.fund_by_id f.user_list_prev).balance)
      → (f.user_list_next ≢ 0 → 0 < (s.fund_by_id f.user_list_next).balance)
      → (delete_fund_from_user_list f l s).2.fund_by_id x ≡ user_bypassed x
  unfolding delete_fund_from_user_list
  delete_user-item x px hp hn =
      update-real f.user_list_next (λ p. record p { user_list_prev = f.user_list_prev }) _ x px
        (λ ne.
          rw
            (update-real f.user_list_prev (λ p. record p { user_list_next = f.user_list_next }) s
              f.user_list_next (omega arith) hp)
            (ground (arith, hn ne)))
      ∙ rw (
          update-real f.user_list_prev (λ p. record p { user_list_next = f.user_list_next }) s x px
            hp)

  delete_user-headers :
      ((delete_fund_from_user_list f l s).2.ftype ≡ s.ftype)
      × ((delete_fund_from_user_list f l s).2.fuser ≡ s.fuser)
      × ((delete_fund_from_user_list f l s).2.f_max_id ≡ s.f_max_id)
  unfolding delete_fund_from_user_list
  delete_user-headers =
      let first =
        update-headers (f.user_list_prev == 0) f.user_list_prev
          (λ p. record p { user_list_next = f.user_list_next }) s in
      let second =
        update-headers (f.user_list_next == 0) f.user_list_next
          (λ p. record p { user_list_prev = f.user_list_prev }) _ in
      (second.0 ∙ first.0, second.1 ∙ first.1, second.2 ∙ first.2)

module _ (id : ℕ) (s : Funds) where
  abbrev pub doomed : FundItem
  doomed = s.fund_by_id id

  abbrev pub doomed_type : FundType
  doomed_type = fund_type doomed.fund_desc

  abbrev pub type_header : FundsListInfo
  type_header = s.ftype doomed_type

  abbrev pub user_header : FundsListInfo
  user_header = s.fuser doomed.user_id doomed_type

  abbrev pub new_type_header : FundsListInfo
  new_type_header = record {
    total_balance = type_header.total_balance - doomed.balance;
    first = if doomed.type_list_prev == 0 then doomed.type_list_next else type_header.first;
    last = if doomed.type_list_next == 0 then doomed.type_list_prev else type_header.last;
  }

  abbrev pub new_user_header : FundsListInfo
  new_user_header = record {
    total_balance = user_header.total_balance - doomed.balance;
    first = if doomed.user_list_prev == 0 then doomed.user_list_next else user_header.first;
    last = if doomed.user_list_next == 0 then doomed.user_list_prev else user_header.last;
  }

  abbrev reduced_type_header : FundsListInfo
  reduced_type_header = record type_header {
    total_balance = type_header.total_balance - doomed.balance;
  }

  abbrev reduced_user_header : FundsListInfo
  reduced_user_header = record user_header {
    total_balance = user_header.total_balance - doomed.balance;
  }

  abbrev step1 : Funds
  step1 = (delete_fund_from_type_list doomed reduced_type_header s).2

  abbrev step2 : Funds
  step2 = set_type_list doomed_type new_type_header step1

  abbrev unlinked : FundItem
  unlinked = record doomed { type_list_prev = 0; type_list_next = 0 }

  abbrev step3 : Funds
  step3 = (delete_fund_from_user_list unlinked reduced_user_header step2).2

  abbrev pub without : Funds
  without = set_user_list doomed.user_id doomed_type new_user_header step3

  abbrev pub cleared_item : FundItem
  cleared_item = record unlinked { balance = 0; user_list_prev = 0; user_list_next = 0 }

  -- The storage once the caller has written the cleared item back.
  abbrev pub removed : Funds
  removed = set_fund id cleared_item without

  step2-user : (v : ℕ) (x : FundType) → step2.fuser v x ≡ s.fuser v x
  unfolding set_type_list
  step2-user v x =
      ap (λ (g : ℕ → FundType → FundsListInfo). g v x)
        (delete_type-headers doomed reduced_type_header s).1

  deleted_type :
      delete_fund_from_type_list doomed reduced_type_header s ≡ (unlinked, new_type_header, step1)
  unfolding delete_fund_from_type_list
  deleted_type = refl

  deleted_user :
      delete_fund_from_user_list unlinked reduced_user_header step2
      ≡ (record unlinked { user_list_prev = 0; user_list_next = 0 }, new_user_header, step3)
  unfolding delete_fund_from_user_list
  deleted_user = refl

  pub delete_fund-eq-ok :
      doomed.balance ≤ type_header.total_balance
      → doomed.balance ≤ user_header.total_balance
      → delete_fund doomed s ≡ ok (doomed.balance, cleared_item, without)
  unfolding delete_fund
  delete_fund-eq-ok ht hu = rw (
    sub_big-eq-ok type_header.total_balance doomed.balance ht,
    deleted_type,
    step2-user doomed.user_id doomed_type,
    sub_big-eq-ok user_header.total_balance doomed.balance hu,
    deleted_user,
  )

  module _ (tp : doomed.type_list_prev ≢ 0 → 0 < (s.fund_by_id doomed.type_list_prev).balance)
      (tn : doomed.type_list_next ≢ 0 → 0 < (s.fund_by_id doomed.type_list_next).balance)
      (up : doomed.user_list_prev ≢ 0 → 0 < (s.fund_by_id doomed.user_list_prev).balance)
      (un : doomed.user_list_next ≢ 0 → 0 < (s.fund_by_id doomed.user_list_next).balance) where
    step2-item : (x : ℕ) → 0 < x → step2.fund_by_id x ≡ type_bypassed doomed type_header s x
    unfolding set_type_list
    step2-item x px = delete_type-item doomed _ s x px tp tn

    step2-balance :
        (x : ℕ) → (x ≢ 0 → 0 < (s.fund_by_id x).balance) → x ≢ 0 → 0 < (step2.fund_by_id x).balance
    step2-balance x h ne = ground (arith, step2-item x (omega arith), h ne)

    abbrev pub both_bypassed : ℕ → FundItem
    both_bypassed x =
        let t = type_bypassed doomed type_header s x in
        let g =
          if x == doomed.user_list_prev
          then record t { user_list_next = doomed.user_list_next }
          else t in
        if x == doomed.user_list_next
        then record g { user_list_prev = doomed.user_list_prev }
        else g

    step3-item : (x : ℕ) → 0 < x → step3.fund_by_id x ≡ both_bypassed x
    step3-item x px =
        delete_user-item unlinked _ step2 x px (step2-balance doomed.user_list_prev up)
          (step2-balance doomed.user_list_next un)
        ∙ rw (step2-item x px)

    pub removed-item :
        (x : ℕ) → 0 < x → removed.fund_by_id x ≡ (if x == id then default_item else both_bypassed x)
    unfolding set_fund set_user_list is_default_item
    removed-item x px = rw (step3-item x px)

  pub removed-type :
      (x : FundType)
      → removed.ftype x ≡ (if type_eq x doomed_type then new_type_header else s.ftype x)
  unfolding set_fund set_user_list set_type_list
  removed-type x =
      ap (λ (g : FundType → FundsListInfo). g x)
        (delete_user-headers unlinked reduced_user_header step2).0
      ∙ rw (
          ap (λ (g : FundType → FundsListInfo). g x)
            (delete_type-headers doomed reduced_type_header s).0)

  pub removed-user :
      (v : ℕ) (x : FundType)
      → removed.fuser v x
        ≡ (if v == doomed.user_id && type_eq x doomed_type then new_user_header else s.fuser v x)
  unfolding set_fund set_user_list
  removed-user v x = rw (
    ap (λ (g : ℕ → FundType → FundsListInfo). g v x)
        (delete_user-headers unlinked reduced_user_header step2).1,
    step2-user v x,
  )

  pub removed-max : removed.f_max_id ≡ s.f_max_id
  unfolding set_fund set_user_list set_type_list
  removed-max =
      (delete_user-headers unlinked reduced_user_header step2).2
      ∙ (delete_type-headers doomed reduced_type_header s).2
