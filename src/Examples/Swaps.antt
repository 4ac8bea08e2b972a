-- ===== src/Examples/Swaps.antt =====
-- The conversions and the destruction of funds, on small storages.
use mx_delegation_sc.Base.{
  ℕ, ◌+◌, ◌-◌, ◌^◌, ◌≤◌, ◌<◌, ◌≡◌, ◌⊎◌, ◌&&◌, ◌==◌, if◌then◌else◌, refl, true, false, List, some,
  arith, min, length,
}
use mx_delegation_sc.Base.Outcome.{ok}
use mx_delegation_sc.Funds.Types.{FundDescription, FundType, fund_type, type_eq}
use mx_delegation_sc.Funds.Store.{Funds, forwards, backwards}
use mx_delegation_sc.Funds.Create.{increase_fund_balance}
use mx_delegation_sc.Funds.Convert.{
  destroy_all_for_user, split_convert_max_by_type, split_convert_max_by_user,
}
use mx_delegation_sc.Funds.AffectedUsers.{max_affected_users}
use mx_delegation_sc.Funds.Transf.{
  never, swap_user_active_to_unstaked, swap_waiting_to_active, swap_user_waiting_to_withdraw_only,
  swap_unstaked_to_deferred_payment, swap_active_to_deferred_payment,
  get_affected_users_of_swap_waiting_to_active,
}
use mx_delegation_sc.Funds.Repr.{ids, of_user, Queues, Repr}
use mx_delegation_sc.Funds.Repr.Increase.{increase_queue}
use mx_delegation_sc.Funds.Repr.SplitConvert.{limit_of, limit_after}
use mx_delegation_sc.Funds.Repr.Order.{toward, spend}
use mx_delegation_sc.Funds.Repr.Moved.{UserMoved, TypeTotalsMoved, UserGave, Apart}
use mx_delegation_sc.Funds.Repr.DestroyAll.{destroy_all_for_user-Repr}
use mx_delegation_sc.Funds.Repr.SwapUser.{
  split_convert_max_by_user-Repr, swap_user_active_to_unstaked-Repr,
  swap_user_waiting_to_withdraw_only-Repr,
}
use mx_delegation_sc.Funds.Repr.SwapType.{
  split_convert_max_by_type-Repr, swap_waiting_to_active-Repr,
  swap_unstaked_to_deferred_payment-Repr, swap_active_to_deferred_payment-Repr,
}
use mx_delegation_sc.Funds.Repr.DryRun.{
  get_affected_users_of_swap_waiting_to_active-swap_waiting_to_active,
}
use mx_delegation_sc.Examples.Storage.{
  two_funds, two_queue, two_funds-Repr, active_funds, active_queues, active_funds-Repr,
  unstaked_funds, unstaked_queues, unstaked_funds-Repr,
}

-- The ids in use, and those still free.
waiting_room : two_funds.f_max_id + length (ids (two_queue FundType.waiting)) < 2 ^ 32
unfolding increase_fund_balance increase_queue
waiting_room = omega arith

waiting_few : length (ids (two_queue FundType.waiting)) ≤ max_affected_users
unfolding increase_queue increase_fund_balance
waiting_few = omega arith

user_waiting_room :
    two_funds.f_max_id + length (ids (of_user 1 (two_queue FundType.waiting))) < 2 ^ 32
unfolding increase_fund_balance increase_queue
user_waiting_room = omega arith

active_room : active_funds.f_max_id + length (ids (active_queues FundType.active)) < 2 ^ 32
unfolding increase_fund_balance increase_queue
active_room = omega arith

active_few : length (ids (active_queues FundType.active)) ≤ max_affected_users
unfolding increase_queue increase_fund_balance
active_few = omega arith

user_active_room :
    active_funds.f_max_id + length (ids (of_user 1 (active_queues FundType.active))) < 2 ^ 32
unfolding increase_fund_balance increase_queue
user_active_room = omega arith

unstaked_room : unstaked_funds.f_max_id + length (ids (unstaked_queues FundType.un_staked)) < 2 ^ 32
unfolding increase_fund_balance increase_queue
unstaked_room = omega arith

unstaked_few : length (ids (unstaked_queues FundType.un_staked)) ≤ max_affected_users
unfolding increase_queue increase_fund_balance
unstaked_few = omega arith

destroy_all_for_user-Repr_example :
    (k : ℕ) × (s' : Funds) × (q' : Queues) × (destroy_all_for_user 1 FundType.waiting never
        two_funds
      ≡ ok (k, s'))
    × Repr s' q'
    × ((x : FundType)
        → (s'.ftype x).total_balance + (if type_eq x FundType.waiting then k else 0)
          ≡ (two_funds.ftype x).total_balance)
    × ((v : ℕ) (x : FundType)
        → (s'.fuser v x).total_balance + (if v == 1 && type_eq x FundType.waiting then k else 0)
          ≡ (two_funds.fuser v x).total_balance)
    × ((k ≡ (two_funds.fuser 1 FundType.waiting).total_balance) ⊎ ((n : ℕ) × (never n ≡ true)))
destroy_all_for_user-Repr_example =
    destroy_all_for_user-Repr 1 FundType.waiting never two_funds two_funds-Repr

split_convert_max_by_user-Repr_example :
    (k : ℕ) × (s' : Funds) × (q' : Queues) × (split_convert_max_by_user
        (some 60)
        1
        FundType.waiting
        backwards
        (λ _. some FundDescription.active)
        never
        two_funds
      ≡ ok (k, limit_after (some 60) k, s'))
    × Repr s' q'
    × UserMoved 1 FundType.waiting FundType.active k two_funds s'
    × ((k
          ≡ min
              (limit_of (some 60) (two_funds.fuser 1 FundType.waiting).total_balance)
              (two_funds.fuser 1 FundType.waiting).total_balance)
        ⊎ ((m : ℕ) × (never m ≡ true)))
unfolding fund_type type_eq
split_convert_max_by_user-Repr_example =
    split_convert_max_by_user-Repr (some 60) 1 FundType.waiting FundType.active backwards
      (λ _. some FundDescription.active) never two_funds two_funds-Repr user_waiting_room
      (λ d h. (FundDescription.active, refl, refl)) refl

swap_user_active_to_unstaked-Repr_example :
    (s' : Funds) × (q' : Queues) × (swap_user_active_to_unstaked 9 1 60 active_funds
      ≡ ok (60 - (active_funds.fuser 1 FundType.active).total_balance, s'))
    × Repr s' q'
    × UserMoved 1 FundType.active FundType.un_staked
        (min 60 (active_funds.fuser 1 FundType.active).total_balance)
        active_funds
        s'
swap_user_active_to_unstaked-Repr_example =
    swap_user_active_to_unstaked-Repr 9 1 60 active_funds active_funds-Repr user_active_room

swap_user_waiting_to_withdraw_only-Repr_example :
    (s' : Funds) × (q' : Queues) × (swap_user_waiting_to_withdraw_only 1 60 two_funds
      ≡ ok (60 - (two_funds.fuser 1 FundType.waiting).total_balance, s'))
    × Repr s' q'
    × UserMoved 1 FundType.waiting FundType.withdraw_only
        (min 60 (two_funds.fuser 1 FundType.waiting).total_balance)
        two_funds
        s'
swap_user_waiting_to_withdraw_only-Repr_example =
    swap_user_waiting_to_withdraw_only-Repr 1 60 two_funds two_funds-Repr user_waiting_room

split_convert_max_by_type-Repr_example :
    (k : ℕ) × (affected : List ℕ) × (s' : Funds) × (q' : Queues) × (split_convert_max_by_type
        (some 110)
        FundType.waiting
        forwards
        (λ _. some FundDescription.active)
        never
        false
        two_funds
      ≡ ok (affected, limit_after (some 110) k, s'))
    × Repr s' q'
    × TypeTotalsMoved FundType.waiting FundType.active k two_funds s'
    × ((v : ℕ) → UserGave FundType.waiting FundType.active two_funds s' affected v)
    × Apart FundType.waiting FundType.active two_queue q'
    × (s'.f_max_id ≤ two_funds.f_max_id + length (ids (two_queue FundType.waiting)))
    × (toward forwards (q' FundType.waiting)
        ≡ spend (k) (toward forwards (two_queue FundType.waiting)))
    × ((k
          ≡ min
              (limit_of (some 110) (two_funds.ftype FundType.waiting).total_balance)
              (two_funds.ftype FundType.waiting).total_balance)
        ⊎ ((m : ℕ) × (never m ≡ true)))
unfolding fund_type type_eq
split_convert_max_by_type-Repr_example =
    split_convert_max_by_type-Repr (some 110) FundType.waiting FundType.active forwards
      (λ _. some FundDescription.active) never two_funds two_funds-Repr waiting_room waiting_few
      (λ item h. (FundDescription.active, refl, refl)) refl

swap_waiting_to_active-Repr_example :
    (affected : List ℕ) × (s' : Funds) × (q' : Queues) × (swap_waiting_to_active 110 never two_funds
      ≡ ok (affected, 110 - (two_funds.ftype FundType.waiting).total_balance, s'))
    × Repr s' q'
    × TypeTotalsMoved FundType.waiting FundType.active
        (min 110 (two_funds.ftype FundType.waiting).total_balance)
        two_funds
        s'
    × ((v : ℕ) → UserGave FundType.waiting FundType.active two_funds s' affected v)
    × (toward forwards (q' FundType.waiting)
        ≡ spend
            (min 110 (two_funds.ftype FundType.waiting).total_balance)
            (toward forwards (two_queue FundType.waiting)))
swap_waiting_to_active-Repr_example =
    swap_waiting_to_active-Repr 110 never two_funds two_funds-Repr waiting_room waiting_few
      (λ m. refl)

swap_unstaked_to_deferred_payment-Repr_example :
    (affected : List ℕ) × (s' : Funds) × (q' : Queues) × (swap_unstaked_to_deferred_payment 25 never
        unstaked_funds
      ≡ ok (25 - (unstaked_funds.ftype FundType.un_staked).total_balance, s'))
    × Repr s' q'
    × TypeTotalsMoved FundType.un_staked FundType.deferred_payment
        (min 25 (unstaked_funds.ftype FundType.un_staked).total_balance)
        unstaked_funds
        s'
    × ((v : ℕ) → UserGave FundType.un_staked FundType.deferred_payment unstaked_funds s' affected v)
    × Apart FundType.un_staked FundType.deferred_payment unstaked_queues q'
    × (s'.f_max_id ≤ unstaked_funds.f_max_id + length (ids (unstaked_queues FundType.un_staked)))
    × (toward forwards (q' FundType.un_staked)
        ≡ spend
            (min 25 (unstaked_funds.ftype FundType.un_staked).total_balance)
            (toward forwards (unstaked_queues FundType.un_staked)))
swap_unstaked_to_deferred_payment-Repr_example =
    swap_unstaked_to_deferred_payment-Repr 25 never unstaked_funds unstaked_funds-Repr unstaked_room
      unstaked_few (λ m. refl)

swap_active_to_deferred_payment-Repr_example :
    (affected : List ℕ) × (s' : Funds) × (q' : Queues) × (swap_active_to_deferred_payment 9 50 never
        active_funds
      ≡ ok (50 - (active_funds.ftype FundType.active).total_balance, s'))
    × Repr s' q'
    × TypeTotalsMoved FundType.active FundType.deferred_payment
        (min 50 (active_funds.ftype FundType.active).total_balance)
        active_funds
        s'
    × ((v : ℕ) → UserGave FundType.active FundType.deferred_payment active_funds s' affected v)
    × (toward backwards (q' FundType.active)
        ≡ spend
            (min 50 (active_funds.ftype FundType.active).total_balance)
            (toward backwards (active_queues FundType.active)))
swap_active_to_deferred_payment-Repr_example =
    swap_active_to_deferred_payment-Repr 9 50 never active_funds active_funds-Repr active_room
      active_few (λ m. refl)

get_affected_users_of_swap_waiting_to_active-swap_waiting_to_active_example :
    (affected : List ℕ) × (left : ℕ) × (s' : Funds) × (swap_waiting_to_active 110 never two_funds
      ≡ ok (affected, left, s'))
    × (get_affected_users_of_swap_waiting_to_active 110 never two_funds ≡ ok (affected, left))
get_affected_users_of_swap_waiting_to_active-swap_waiting_to_active_example =
    get_affected_users_of_swap_waiting_to_active-swap_waiting_to_active 110 never two_funds
      two_funds-Repr waiting_room waiting_few
