-- ===== src/Contract/Settings.antt =====
-- latest/src/settings.rs: the constants, and the settings that the owner changes.
use mx_delegation_sc.Base.{ℕ, leb}
use mx_delegation_sc.Base.Outcome.{Result, ok, Error, ◌>>◌, require}
use mx_delegation_sc.Contract.State.{Env, Settings, Contract, only_owner}

abbrev pub percentage_denominator : ℕ
percentage_denominator = 10000

abbrev pub owner_user_id : ℕ
owner_user_id = 1

abbrev pub set_settings : (Settings → Settings) → Contract → Contract
set_settings f c = record c { settings = f c.settings }

unfoldable pub set_owner_min_stake_share_validated : ℕ → Settings → Result Settings
set_owner_min_stake_share_validated share st = do
  require (leb share percentage_denominator) Error.share_out_of_range
  ok (record st { owner_min_stake_share = share })

unfoldable pub set_n_blocks_before_unbond_endpoint : ℕ → Env → Contract → Result Contract
set_n_blocks_before_unbond_endpoint n env c = do
  only_owner env
  ok (set_settings (λ st. record st { n_blocks_before_unbond = n }) c)

unfoldable pub set_minimum_stake_endpoint : ℕ → Env → Contract → Result Contract
set_minimum_stake_endpoint n env c = do
  only_owner env
  ok (set_settings (λ st. record st { min_stake = n }) c)
