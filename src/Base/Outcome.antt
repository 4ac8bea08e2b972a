-- ===== src/Base/Outcome.antt =====
-- What a call of the contract returns. A panic rolls the transaction back, so it carries no state.
-- Each `sc_panic!` and `require!` of the modelled code has its own error; `underflow` is the panic
-- of the framework's unsigned subtraction, and `out_of_fuel` marks a loop of the model that was
-- given too few rounds. The last three are errors of the framework's decoder.
use Prim.Native.Nat.{ℕ, ◌-◌, ◌≤◌}
use mathlib.Core.Path.{◌≡◌, refl}
use mathlib.Core.Bool.{Bool, true, false}
use mx_delegation_sc.Base.Tests.{ltb, le→ltb, if◌then◌else◌}

pub data Error : Type 0 where
  underflow division_by_zero out_of_fuel : Error
  affected_user_capacity_exceeded bad_user_id : Error
  only_owner unknown_caller contract_paused feature_off : Error
  node_already_registered node_not_registered only_inactive_removed : Error
  unknown_node node_not_inactive node_not_active node_not_unbondable : Error
  node_not_pending_unbond no_bls_keys capacity_exceeded : Error
  stake_below_minimum unstake_below_minimum unstake_above_stake : Error
  only_delegators_can_unstake remaining_below_minimum : Error
  error_active_to_unstaked error_unstaked_to_deferred error_waiting_to_active : Error
  delegation_cap_violated owner_stake_too_low : Error
  global_op_in_progress bootstrap_mode not_enough_funds : Error
  cap_above_available unstaked_present service_fee_out_of_range share_out_of_range : Error
  invalid_value input_too_short input_too_long : Error

-- An operation's value, or the error that it panics with.
pub data Result {ℓ} (A : Type ℓ) : Type ℓ where
  ok : (value : A) → Result A
  err : (error : Error) → Result A

-- `BigUint` subtraction panics below zero.
abbrev pub sub_big : ℕ → ℕ → Result ℕ
sub_big a b = if ltb a b then err Error.underflow else ok (a - b)

pub sub_big-eq-ok : (a b : ℕ) → b ≤ a → sub_big a b ≡ ok (a - b)
sub_big-eq-ok a b h = rw (le→ltb a b h)

-- `require!(condition, message)`
abbrev pub require : (condition : Bool) → (message : Error) → Result (Unit {0})
require false message = err message
require true message = ok tt

module _ {ℓ κ} {A : Type ℓ} {B : Type κ} where
  infixl 5 ◌>>=◌
  abbrev pub ◌>>=◌ : Result A → (A → Result B) → Result B
  err error >>= rest = err error
  ok value >>= rest = rest value

  -- What a successful sequence says of its first part.
  pub >>=-eq-ok :
      (first : Result A) (rest : A → Result B) {b : B}
      → (first >>= rest) ≡ ok b
      → (value : A) × (first ≡ ok value) × (rest value ≡ ok b)
  >>=-eq-ok (err error) rest e = cc
  >>=-eq-ok (ok value) rest e = (value, refl, e)

infixl 5 ◌>>◌
abbrev pub ◌>>◌ {κ} : {B : Type κ} → Result (Unit {0}) → Result B → Result B
check >> rest = check >>= λ _. rest
