-- ===== src/Contract/DustCleanup/Stale.antt =====
-- The dust cleanup of the waiting list, continued at a fund that is gone.
use mx_delegation_sc.Base.{ℕ, ap, ◌∙◌, none, ◌-◌, ◌<◌, ◌≡◌, refl, true, arith, ltb, lt→ltb}
use mx_delegation_sc.Base.Outcome.{ok, sub_big-eq-ok}
use mx_delegation_sc.Funds.Types.{FundType, FundsListInfo, default_item, FundItem, FundDescription}
use mx_delegation_sc.Funds.Store.{Funds, backwards, set_fund, set_type_list, set_user_list}
use mx_delegation_sc.Funds.Delete.{
  delete_fund, delete_fund_from_type_list, delete_fund_from_user_list, extract_fund,
  split_convert_individual_fund,
}
use mx_delegation_sc.Funds.Convert.{checkpoint_step}
use mx_delegation_sc.Funds.Transf.{dust_filter}
use mx_delegation_sc.Contract.DustCleanup.{to_withdraw_only}

abbrev emptied : FundsListInfo → FundsListInfo
emptied l = record l { total_balance = l.total_balance - 0; first = 0; last = 0 }

abbrev emptied_lists : Funds → Funds
emptied_lists s =
    (set_user_list 0 FundType.withdraw_only (emptied (s.fuser 0 FundType.withdraw_only))
      (set_type_list FundType.withdraw_only (emptied (s.ftype FundType.withdraw_only)) s))

split_convert-default :
    (s : Funds)
    → split_convert_individual_fund none FundDescription.withdraw_only default_item s
      ≡ ok (0, none, default_item, emptied_lists s)
unfolding split_convert_individual_fund extract_fund delete_fund delete_fund_from_type_list
    delete_fund_from_user_list set_type_list set_user_list
split_convert-default s = rw (
  sub_big-eq-ok (s.ftype FundType.withdraw_only).total_balance 0 (omega arith),
  sub_big-eq-ok (s.fuser 0 FundType.withdraw_only).total_balance 0 (omega arith),
)

-- A step of the dust cleanup at a fund that was cleared in the meantime returns to the start of the
-- list, but takes that fund for one to withdraw: the list of all funds to withdraw loses both its
-- ends and keeps its total.
pub checkpoint_step-stale :
    (id limit : ℕ) (s : Funds)
    → s.fund_by_id id ≡ default_item
    → 0 < limit
    → (s' : Funds) × (checkpoint_step backwards (dust_filter limit to_withdraw_only) id s tt
        ≡ ok (0, s', tt))
      × ((s'.ftype FundType.withdraw_only).first ≡ 0)
      × ((s'.ftype FundType.withdraw_only).last ≡ 0)
      × ((s'.ftype FundType.withdraw_only).total_balance
          ≡ (s.ftype FundType.withdraw_only).total_balance)
unfolding checkpoint_step set_fund set_user_list set_type_list
checkpoint_step-stale id limit s h pos =
    let converted : split_convert_individual_fund none FundDescription.withdraw_only
          (s.fund_by_id id) s
        ≡ ok (0, none, default_item, emptied_lists s) =
      ap (λ item. split_convert_individual_fund none FundDescription.withdraw_only item s) h
      ∙ split_convert-default s in
    let small : ltb (s.fund_by_id id).balance limit ≡ true =
      ap (λ (item : FundItem). ltb item.balance limit) h ∙ lt→ltb 0 limit pos in
    let start : (s.fund_by_id id).type_list_prev ≡ 0 =
      ap (λ (item : FundItem). item.type_list_prev) h in
    (
      set_fund id default_item (emptied_lists s),
      rw (small, converted, start),
      refl,
      refl,
      omega arith,
    )
