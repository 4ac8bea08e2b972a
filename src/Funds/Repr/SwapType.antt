-- ===== src/Funds/Repr/SwapType.antt =====
-- `split_convert_max_by_type` of fund_module.rs, and the conversions of fund_transf_module.rs that
-- call it for all users and convert every fund that they meet.
use mx_delegation_sc.Base.{
  ℕ, ◌+◌, ◌-◌, ◌^◌, ◌≤◌, ◌<◌, ◌≡◌, refl, ap, ◌⊎◌, inl, inr, Bool, true, false, List, [], Option,
  some, arith, min, length,
}
use mx_delegation_sc.Base.Outcome.{ok}
use mx_delegation_sc.Funds.Types.{FundDescription, FundType, fund_type, type_eq}
use mx_delegation_sc.Funds.Store.{Funds, SwapDirection, forwards, backwards}
use mx_delegation_sc.Funds.Convert.{
  loop_fuel, first_id_of_type, FilterTransform, split_convert_max_by_type,
}
use mx_delegation_sc.Funds.AffectedUsers.{max_affected_users, affected_users_sort_dedup}
use mx_delegation_sc.Funds.AffectedUsers.Sorted.{affected_users_sort_dedup-StrictlyAscending}
use mx_delegation_sc.Funds.Transf.{
  swap_waiting_to_active, swap_unstaked_to_deferred_payment, swap_active_to_deferred_payment,
  unstaked_to_deferred,
}
use mx_delegation_sc.Funds.Repr.{ids, Queues, Repr, tnext, tprev}
use mx_delegation_sc.Funds.Repr.SplitConvert.{limit_of, limit_after}
use mx_delegation_sc.Funds.Repr.Walk.{type_fuel}
use mx_delegation_sc.Funds.Repr.Ends.{end_of, Links-ends}
use mx_delegation_sc.Funds.Repr.Order.{toward, spend}
use mx_delegation_sc.Funds.Repr.Moved.{ConvertsItems, TypeTotalsMoved, UserGave, Apart}
use mx_delegation_sc.Funds.Repr.ConvertType.{convert_type_loop-Repr}

pub first_id_of_type-end :
    {s : Funds} {q : Queues} (r : Repr s q) (t : FundType) (direction : SwapDirection)
    → first_id_of_type t direction s ≡ end_of direction (ids (q t))
unfolding first_id_of_type
first_id_of_type-end {s} r t forwards = (Links-ends (tnext s) (tprev s) _ _ _ (r.type_links t)).0
first_id_of_type-end {s} r t backwards = (Links-ends (tnext s) (tprev s) _ _ _ (r.type_links t)).1

uninterrupted :
    {P : Type 0} (interrupt : ℕ → Bool)
    → ((m : ℕ) → interrupt m ≡ false)
    → P ⊎ ((m : ℕ) × (interrupt m ≡ true))
    → P
uninterrupted interrupt calm (inl p) = p
uninterrupted interrupt calm (inr (m, e)) = cc (calm m, e)

-- Under the invariant, with an id left for each item in use, at most 10000 items in the source list,
-- and for a closure that converts every item of the source type to one target type,
-- `split_convert_max_by_type` returns. In the headers an amount went from the source type to the
-- target type, the rest of the limit is what did not, and no other total by type changed; for each
-- user an amount of the user's own did, nothing for those outside the affected users it returns. The
-- invariant is kept, the lists of the other types are as before, and at most one id is used for each
-- item of the source list. The amount is taken from the end of the source list at which the
-- direction starts: whole funds first, the next one split if need be, the others left as they were,
-- in their order. Unless interrupted, it converts what the limit and the total allow.
pub split_convert_max_by_type-Repr :
    (opt_max : Option ℕ) (source target : FundType) (direction : SwapDirection)
    (filter_transform : FilterTransform) (interrupt : ℕ → Bool) (s : Funds) {q : Queues}
    → Repr s q
    → s.f_max_id + length (ids (q source)) < 2 ^ 32
    → length (ids (q source)) ≤ max_affected_users
    → ConvertsItems source target filter_transform
    → type_eq target source ≡ false
    → (k : ℕ) × (affected : List ℕ) × (s' : Funds) × (q' : Queues) × (split_convert_max_by_type
          opt_max source direction filter_transform interrupt false s
        ≡ ok (affected, limit_after opt_max k, s'))
      × Repr s' q'
      × TypeTotalsMoved source target k s s'
      × ((v : ℕ) → UserGave source target s s' affected v)
      × Apart source target q q'
      × (s'.f_max_id ≤ s.f_max_id + length (ids (q source)))
      × (toward direction (q' source) ≡ spend k (toward direction (q source)))
      × ((k ≡ min (limit_of opt_max (s.ftype source).total_balance) (s.ftype source).total_balance)
          ⊎ ((m : ℕ) × (interrupt m ≡ true)))
unfolding split_convert_max_by_type
split_convert_max_by_type-Repr opt_max source target direction filter_transform interrupt s r room
      few converts other =
    let (k, id', affected, s', q', e, r', moved, gave, keep, others, top, order, done) =
      convert_type_loop-Repr source target direction filter_transform interrupt converts other
        (loop_fuel s) 0 [] opt_max s r (type_fuel r source) room (omega arith) in
    (
      k,
      affected_users_sort_dedup affected,
      s',
      q',
      rw (first_id_of_type-end r source direction, e) refl,
      r',
      λ x. rw (r'.type_total x, r.type_total x) (moved x),
      λ v.
          let (a, by_user, who) = gave v in
          (
            a,
            λ x. rw (r'.user_total v x, r.user_total v x) (by_user x),
            rw ((affected_users_sort_dedup-StrictlyAscending affected).1 v) who,
          ),
      others,
      top,
      order,
      rw (r.type_total source) done,
    )

-- Without an interruption, under the invariant, with an id left for each item in use and at most
-- 10000 of them in the waiting list: `swap_waiting_to_active` returns what the waiting total does
-- not cover of the amount, and the smaller of the two became active; no other total by type changed.
-- Each user's waiting total fell, and active total rose, by one amount, which is nothing for a user
-- who is not among those returned. The invariant is kept, and the amount is taken from the start of
-- the waiting list: whole funds first, the next one split if need be, the later
-- ones left as they were.
pub swap_waiting_to_active-Repr :
    (amount : ℕ) (interrupt : ℕ → Bool) (s : Funds) {q : Queues}
    → Repr s q
    → s.f_max_id + length (ids (q FundType.waiting)) < 2 ^ 32
    → length (ids (q FundType.waiting)) ≤ max_affected_users
    → ((m : ℕ) → interrupt m ≡ false)
    → (affected : List ℕ) × (s' : Funds) × (q' : Queues) × (swap_waiting_to_active amount interrupt
          s
        ≡ ok (affected, amount - (s.ftype FundType.waiting).total_balance, s'))
      × Repr s' q'
      × TypeTotalsMoved FundType.waiting FundType.active
          (min amount (s.ftype FundType.waiting).total_balance)
          s
          s'
      × ((v : ℕ) → UserGave FundType.waiting FundType.active s s' affected v)
      × (toward forwards (q' FundType.waiting)
          ≡ spend
              (min amount (s.ftype FundType.waiting).total_balance)
              (toward forwards (q FundType.waiting)))
unfolding swap_waiting_to_active fund_type type_eq
swap_waiting_to_active-Repr amount interrupt s r room few calm =
    let (k, affected, s', q', e, r', moved, gave, others, top, order, done) =
      split_convert_max_by_type-Repr (some amount) FundType.waiting FundType.active forwards
        (λ _. some FundDescription.active) interrupt s r room few
        (λ item h. (FundDescription.active, refl, refl)) refl in
    let all = uninterrupted interrupt calm done in
    (
      affected,
      s',
      q',
      rw e (ap (λ z. ok (affected, z, s')) (omega (arith, all))),
      r',
      rw all at moved,
      gave,
      rw all at order,
    )

pub unstaked_to_deferred-converts :
    (d : FundDescription)
    → fund_type d ≡ FundType.un_staked
    → (d' : FundDescription) × (unstaked_to_deferred d ≡ some d')
      × (fund_type d' ≡ FundType.deferred_payment)
unfolding fund_type
unstaked_to_deferred-converts (FundDescription.un_staked created) h =
    (FundDescription.deferred_payment created, refl, refl)
unstaked_to_deferred-converts FundDescription.withdraw_only h = cc
unstaked_to_deferred-converts (FundDescription.waiting created) h = cc
unstaked_to_deferred-converts FundDescription.pending_act h = cc
unstaked_to_deferred-converts FundDescription.active_failed h = cc
unstaked_to_deferred-converts FundDescription.active h = cc
unstaked_to_deferred-converts (FundDescription.deferred_payment created) h = cc

-- Without an interruption, under the invariant, with an id left for each item in use and at most
-- 10000 of them in the unstaked list: `swap_unstaked_to_deferred_payment` returns what the unstaked
-- total does not cover of the amount, and the smaller of the two became deferred payments; no other
-- total by type changed, and each user's two totals changed by one amount. The invariant is kept, the
-- lists of the other types are as before, and at most one id is used for each item unstaked before.
-- The amount is taken from the start of the unstaked list: whole funds first, the next one split
-- if need be, the later ones left as they were.
pub swap_unstaked_to_deferred_payment-Repr :
    (amount : ℕ) (interrupt : ℕ → Bool) (s : Funds) {q : Queues}
    → Repr s q
    → s.f_max_id + length (ids (q FundType.un_staked)) < 2 ^ 32
    → length (ids (q FundType.un_staked)) ≤ max_affected_users
    → ((m : ℕ) → interrupt m ≡ false)
    → (affected : List ℕ) × (s' : Funds) × (q' : Queues) × (swap_unstaked_to_deferred_payment amount
          interrupt s
        ≡ ok (amount - (s.ftype FundType.un_staked).total_balance, s'))
      × Repr s' q'
      × TypeTotalsMoved FundType.un_staked FundType.deferred_payment
          (min amount (s.ftype FundType.un_staked).total_balance)
          s
          s'
      × ((v : ℕ) → UserGave FundType.un_staked FundType.deferred_payment s s' affected v)
      × Apart FundType.un_staked FundType.deferred_payment q q'
      × (s'.f_max_id ≤ s.f_max_id + length (ids (q FundType.un_staked)))
      × (toward forwards (q' FundType.un_staked)
          ≡ spend
              (min amount (s.ftype FundType.un_staked).total_balance)
              (toward forwards (q FundType.un_staked)))
unfolding swap_unstaked_to_deferred_payment type_eq
swap_unstaked_to_deferred_payment-Repr amount interrupt s r room few calm =
    let (k, affected, s', q', e, r', moved, gave, others, top, order, done) =
      split_convert_max_by_type-Repr (some amount) FundType.un_staked FundType.deferred_payment
        forwards (λ item. unstaked_to_deferred item.fund_desc) interrupt s r room few
        (λ item h. unstaked_to_deferred-converts item.fund_desc h) refl in
    let all = uninterrupted interrupt calm done in
    (
      affected,
      s',
      q',
      rw e (ap (λ z. ok (z, s')) (omega (arith, all))),
      r',
      rw all at moved,
      gave,
      others,
      top,
      rw all at order,
    )

-- Without an interruption, under the invariant, with an id left for each item in use and at most
-- 10000 of them in the active list: `swap_active_to_deferred_payment` returns what the active total
-- does not cover of the amount, and the smaller of the two became deferred payments; no other total
-- by type changed, and each user's two totals changed by one amount. The invariant is kept, and the
-- amount is taken from the end of the active list: whole funds first, the next one split if need be,
-- the earlier ones left as they were.
pub swap_active_to_deferred_payment-Repr :
    (nonce amount : ℕ) (interrupt : ℕ → Bool) (s : Funds) {q : Queues}
    → Repr s q
    → s.f_max_id + length (ids (q FundType.active)) < 2 ^ 32
    → length (ids (q FundType.active)) ≤ max_affected_users
    → ((m : ℕ) → interrupt m ≡ false)
    → (affected : List ℕ) × (s' : Funds) × (q' : Queues) × (swap_active_to_deferred_payment nonce
          amount interrupt s
        ≡ ok (amount - (s.ftype FundType.active).total_balance, s'))
      × Repr s' q'
      × TypeTotalsMoved FundType.active FundType.deferred_payment
          (min amount (s.ftype FundType.active).total_balance)
          s
          s'
      × ((v : ℕ) → UserGave FundType.active FundType.deferred_payment s s' affected v)
      × (toward backwards (q' FundType.active)
          ≡ spend
              (min amount (s.ftype FundType.active).total_balance)
              (toward backwards (q FundType.active)))
unfolding swap_active_to_deferred_payment fund_type type_eq
swap_active_to_deferred_payment-Repr nonce amount interrupt s r room few calm =
    let (k, affected, s', q', e, r', moved, gave, others, top, order, done) =
      split_convert_max_by_type-Repr (some amount) FundType.active FundType.deferred_payment
        backwards (λ _. some (FundDescription.deferred_payment nonce)) interrupt s r room few
        (λ item h. (FundDescription.deferred_payment nonce, refl, refl)) refl in
    let all = uninterrupted interrupt calm done in
    (
      affected,
      s',
      q',
      rw e (ap (λ z. ok (z, s')) (omega (arith, all))),
      r',
      rw all at moved,
      gave,
      rw all at order,
    )
