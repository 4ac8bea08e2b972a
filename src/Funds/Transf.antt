-- ===== src/Funds/Transf.antt =====
-- user-fund-storage/src/fund_transf_module.rs: the conversions that the contract performs.
-- `nonce` is the current block nonce.
use mx_delegation_sc.Base.{
  ℕ, Bool, true, false, ltb, leb, if◌then◌else◌, add_u64, List, Option, none, some,
}
use mx_delegation_sc.Base.Outcome.{Result, ok, ◌>>=◌}
use mx_delegation_sc.Funds.Types.{FundDescription, FundType}
use mx_delegation_sc.Funds.Store.{Funds, forwards, backwards}
use mx_delegation_sc.Funds.Create.{increase_fund_balance}
use mx_delegation_sc.Funds.Convert.{
  EffectfulFilter, split_convert_max_by_type, split_convert_max_by_type_with_checkpoint,
  split_convert_max_by_user, destroy_all_for_user,
}

-- `|| false`
abbrev pub never : ℕ → Bool
never _ = false

-- What a limit that was given as `Some` holds at the end.
abbrev pub left_of : Option ℕ → ℕ
left_of none = 0
left_of (some n) = n

unfoldable pub create_waiting : ℕ → ℕ → ℕ → Funds → Funds
unfolding increase_fund_balance
create_waiting nonce user_id balance s =
    increase_fund_balance user_id (FundDescription.waiting nonce) balance s

unfoldable pub liquidate_all_withdraw_only : ℕ → (ℕ → Bool) → Funds → Result (ℕ × Funds)
unfolding destroy_all_for_user
liquidate_all_withdraw_only user_id interrupt s =
    destroy_all_for_user user_id FundType.withdraw_only interrupt s

unfoldable pub swap_user_active_to_unstaked : ℕ → ℕ → ℕ → Funds → Result (ℕ × Funds)
unfolding split_convert_max_by_user
swap_user_active_to_unstaked nonce user_id amount s = do
  (_, opt, s') ←
      split_convert_max_by_user (some amount) user_id FundType.active forwards
        (λ _. some (FundDescription.un_staked nonce)) never s
  ok (left_of opt, s')

unfoldable pub swap_waiting_to_active : ℕ → (ℕ → Bool) → Funds → Result (List ℕ × ℕ × Funds)
unfolding split_convert_max_by_type
swap_waiting_to_active remaining interrupt s = do
  (affected, opt, s') ←
      split_convert_max_by_type (some remaining) FundType.waiting forwards
        (λ _. some FundDescription.active) interrupt false s
  ok (affected, left_of opt, s')

unfoldable pub swap_user_waiting_to_withdraw_only : ℕ → ℕ → Funds → Result (ℕ × Funds)
unfolding split_convert_max_by_user
swap_user_waiting_to_withdraw_only user_id remaining s = do
  (_, opt, s') ←
      split_convert_max_by_user (some remaining) user_id FundType.waiting backwards
        (λ _. some FundDescription.withdraw_only) never s
  ok (left_of opt, s')

-- The closure of `swap_dust`: only funds below the limit reach the caller's closure.
abbrev pub dust_filter : {E : Type 0} → ℕ → EffectfulFilter E → EffectfulFilter E
dust_filter dust_limit filter_transform item s e =
    if ltb item.balance dust_limit then filter_transform item s e else ok (none, e)

unfoldable pub swap_dust :
    {E : Type 0}
    → ℕ
    → ℕ
    → FundType
    → EffectfulFilter E
    → (ℕ → Bool)
    → Funds
    → E
    → Result (ℕ × Funds × E)
unfolding split_convert_max_by_type_with_checkpoint
swap_dust current_id dust_limit source_type filter_transform interrupt s e =
    split_convert_max_by_type_with_checkpoint current_id source_type backwards
      (dust_filter dust_limit filter_transform) interrupt s e

unfoldable pub get_affected_users_of_swap_waiting_to_active :
    ℕ → (ℕ → Bool) → Funds → Result (List ℕ × ℕ)
unfolding split_convert_max_by_type
get_affected_users_of_swap_waiting_to_active amount interrupt s = do
  (affected, opt, _) ←
      split_convert_max_by_type (some amount) FundType.waiting forwards
        (λ _. some FundDescription.active) interrupt true s
  ok (affected, left_of opt)

abbrev pub unstaked_to_deferred : FundDescription → Option FundDescription
unstaked_to_deferred (FundDescription.un_staked created) =
    some (FundDescription.deferred_payment created)
unstaked_to_deferred _ = none

unfoldable pub swap_unstaked_to_deferred_payment : ℕ → (ℕ → Bool) → Funds → Result (ℕ × Funds)
unfolding split_convert_max_by_type
swap_unstaked_to_deferred_payment remaining interrupt s = do
  (_, opt, s') ←
      split_convert_max_by_type (some remaining) FundType.un_staked forwards
        (λ item. unstaked_to_deferred item.fund_desc) interrupt false s
  ok (left_of opt, s')

unfoldable pub swap_active_to_deferred_payment : ℕ → ℕ → (ℕ → Bool) → Funds → Result (ℕ × Funds)
unfolding split_convert_max_by_type
swap_active_to_deferred_payment nonce remaining interrupt s = do
  (_, opt, s') ←
      split_convert_max_by_type (some remaining) FundType.active backwards
        (λ _. some (FundDescription.deferred_payment nonce)) interrupt false s
  ok (left_of opt, s')

-- Whether a deferred payment can be claimed; the sum of the two block counts wraps round.
abbrev pub is_eligible : ℕ → ℕ → FundDescription → Bool
is_eligible nonce n_blocks_before_claim (FundDescription.deferred_payment created) =
    leb (add_u64 created n_blocks_before_claim) nonce
is_eligible nonce n_blocks_before_claim _ = false

unfoldable pub swap_eligible_deferred_to_withdraw :
    ℕ → ℕ → ℕ → (ℕ → Bool) → Funds → Result (ℕ × Funds)
unfolding split_convert_max_by_user
swap_eligible_deferred_to_withdraw nonce user_id n_blocks_before_claim interrupt s = do
  (total, _, s') ←
      split_convert_max_by_user none user_id FundType.deferred_payment forwards
        (λ d.
          if is_eligible nonce n_blocks_before_claim d
          then some FundDescription.withdraw_only
          else none)
        interrupt s
  ok (total, s')
