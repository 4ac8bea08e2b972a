-- ===== src/Funds/Repr/SwapUser.antt =====
-- `split_convert_max_by_user` of fund_module.rs, and the conversions of fund_transf_module.rs that
-- call it for one user and convert every fund that they meet.
use mx_delegation_sc.Base.{
  ℕ, ◌+◌, ◌-◌, ◌^◌, ◌<◌, ◌≡◌, refl, ap, ◌⊎◌, inl, inr, Bool, true, false, Option, some, arith, min,
  length,
}
use mx_delegation_sc.Base.Outcome.{ok}
use mx_delegation_sc.Funds.Types.{FundDescription, FundType, fund_type, type_eq}
use mx_delegation_sc.Funds.Store.{Funds, SwapDirection, forwards, backwards}
use mx_delegation_sc.Funds.Convert.{loop_fuel, first_id_of_user_type, split_convert_max_by_user}
use mx_delegation_sc.Funds.Transf.{
  never, swap_user_active_to_unstaked, swap_user_waiting_to_withdraw_only,
}
use mx_delegation_sc.Funds.Repr.{ids, of_user, Queues, Repr, unext, uprev}
use mx_delegation_sc.Funds.Repr.SplitConvert.{limit_of, limit_after}
use mx_delegation_sc.Funds.Repr.Walk.{user_fuel}
use mx_delegation_sc.Funds.Repr.Ends.{end_of, Links-ends}
use mx_delegation_sc.Funds.Repr.ConvertUser.{convert_user_loop-Repr}
use mx_delegation_sc.Funds.Repr.Moved.{ConvertsAll, UserMoved, UserMoved-of_Moved}

first_id_of_user_type-end :
    {s : Funds} {q : Queues} (r : Repr s q) (u : ℕ) (t : FundType) (direction : SwapDirection)
    → first_id_of_user_type u t direction s ≡ end_of direction (ids (of_user u (q t)))
unfolding first_id_of_user_type
first_id_of_user_type-end {s} r u t forwards =
    (Links-ends (unext s) (uprev s) _ _ _ (r.user_links u t)).0
first_id_of_user_type-end {s} r u t backwards =
    (Links-ends (unext s) (uprev s) _ _ _ (r.user_links u t)).1

uninterrupted : {P : Type 0} → P ⊎ ((m : ℕ) × (never m ≡ true)) → P
uninterrupted (inl p) = p
uninterrupted (inr (m, e)) = cc

-- Under the invariant, with an id left for each item in use, and for a closure that converts every
-- fund of the source type to one target type, `split_convert_max_by_user` returns: what it says to
-- have transformed went, in the headers, from the user's source list to the user's target list, no
-- other total changed, the rest of the limit is what was not transformed, and the invariant is kept.
-- Unless interrupted, it transforms as much as the limit and the user's total allow.
pub split_convert_max_by_user-Repr :
    (opt_max : Option ℕ) (u : ℕ) (source target : FundType) (direction : SwapDirection)
    (filter_transform : FundDescription → Option FundDescription) (interrupt : ℕ → Bool) (s : Funds)
    {q : Queues}
    → Repr s q
    → s.f_max_id + length (ids (of_user u (q source))) < 2 ^ 32
    → ConvertsAll source target filter_transform
    → type_eq target source ≡ false
    → (k : ℕ) × (s' : Funds) × (q' : Queues) × (split_convert_max_by_user opt_max u source direction
          filter_transform interrupt s
        ≡ ok (k, limit_after opt_max k, s'))
      × Repr s' q'
      × UserMoved u source target k s s'
      × ((k
            ≡ min
                (limit_of opt_max (s.fuser u source).total_balance)
                (s.fuser u source).total_balance)
          ⊎ ((m : ℕ) × (interrupt m ≡ true)))
unfolding split_convert_max_by_user
split_convert_max_by_user-Repr opt_max u source target direction filter_transform interrupt s r room
      converts other =
    let (k, id', s', q', e, r', moved, done) =
      convert_user_loop-Repr u source target direction filter_transform interrupt converts other
        (loop_fuel s) 0 0 opt_max s r (user_fuel r u source) room in
    (
      k,
      s',
      q',
      rw (first_id_of_user_type-end r u source direction, e)
          (ap (λ (z : ℕ). ok (z, limit_after opt_max k, s')) (omega arith)),
      r',
      UserMoved-of_Moved u source target k r r' moved,
      rw (r.user_total u source) done,
    )

-- Under the invariant, with an id left for each item in use, `swap_user_active_to_unstaked` returns
-- what of the amount the user's active total does not cover, and the smaller of the two went from the
-- user's active to the user's unstaked list; every other total in the headers is as before, and the
-- invariant is kept.
pub swap_user_active_to_unstaked-Repr :
    (nonce u amount : ℕ) (s : Funds) {q : Queues}
    → Repr s q
    → s.f_max_id + length (ids (of_user u (q FundType.active))) < 2 ^ 32
    → (s' : Funds) × (q' : Queues) × (swap_user_active_to_unstaked nonce u amount s
        ≡ ok (amount - (s.fuser u FundType.active).total_balance, s'))
      × Repr s' q'
      × UserMoved u FundType.active FundType.un_staked
          (min amount (s.fuser u FundType.active).total_balance)
          s
          s'
unfolding swap_user_active_to_unstaked fund_type type_eq
swap_user_active_to_unstaked-Repr nonce u amount s r room =
    let (k, s', q', e, r', moved, done) =
      split_convert_max_by_user-Repr (some amount) u FundType.active FundType.un_staked forwards
        (λ _. some (FundDescription.un_staked nonce)) never s r room
        (λ d h. (FundDescription.un_staked nonce, refl, refl)) refl in
    let all = uninterrupted done in
    (s', q', rw e (ap (λ z. ok (z, s')) (omega (arith, all))), r', rw all at moved)

-- Under the invariant, with an id left for each item in use, `swap_user_waiting_to_withdraw_only`
-- returns what of the amount the user's waiting total does not cover, and the smaller of the two went
-- from the user's waiting to the user's withdraw-only list; every other total in the headers is as
-- before, and the invariant is kept.
pub swap_user_waiting_to_withdraw_only-Repr :
    (u amount : ℕ) (s : Funds) {q : Queues}
    → Repr s q
    → s.f_max_id + length (ids (of_user u (q FundType.waiting))) < 2 ^ 32
    → (s' : Funds) × (q' : Queues) × (swap_user_waiting_to_withdraw_only u amount s
        ≡ ok (amount - (s.fuser u FundType.waiting).total_balance, s'))
      × Repr s' q'
      × UserMoved u FundType.waiting FundType.withdraw_only
          (min amount (s.fuser u FundType.waiting).total_balance)
          s
          s'
unfolding swap_user_waiting_to_withdraw_only fund_type type_eq
swap_user_waiting_to_withdraw_only-Repr u amount s r room =
    let (k, s', q', e, r', moved, done) =
      split_convert_max_by_user-Repr (some amount) u FundType.waiting FundType.withdraw_only
        backwards (λ _. some FundDescription.withdraw_only) never s r room
        (λ d h. (FundDescription.withdraw_only, refl, refl)) refl in
    let all = uninterrupted done in
    (s', q', rw e (ap (λ z. ok (z, s')) (omega (arith, all))), r', rw all at moved)
