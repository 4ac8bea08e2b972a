-- ===== src/Codec/Kind.antt =====
-- user-fund-storage/fuzz/old_serialization/fund_type.rs: `FundType` and its codec.
use mx_delegation_sc.Base.{ℕ, List, ◌==◌, if◌then◌else◌}
use mx_delegation_sc.Base.Outcome.{Result, ok, err, Error, ◌>>=◌}
use mx_delegation_sc.Codec.{Framework}
use mx_delegation_sc.Codec.Description.{
  OldFundDescription, discr_withdraw_only, discr_waiting, discr_active, discr_unstaked,
  discr_def_payment,
}

pub data OldFundType : Type 0 where
  withdraw_only waiting active un_staked deferred_payment : OldFundType

-- `FundType::discriminant`
unfoldable pub type_discriminant : OldFundType → ℕ
type_discriminant OldFundType.withdraw_only = discr_withdraw_only
type_discriminant OldFundType.waiting = discr_waiting
type_discriminant OldFundType.active = discr_active
type_discriminant OldFundType.un_staked = discr_unstaked
type_discriminant OldFundType.deferred_payment = discr_def_payment

-- `FundDescription::fund_type` and `discriminant`
unfoldable pub old_fund_type : OldFundDescription → OldFundType
old_fund_type OldFundDescription.withdraw_only = OldFundType.withdraw_only
old_fund_type (OldFundDescription.waiting _) = OldFundType.waiting
old_fund_type OldFundDescription.active = OldFundType.active
old_fund_type (OldFundDescription.un_staked _) = OldFundType.un_staked
old_fund_type (OldFundDescription.deferred_payment _) = OldFundType.deferred_payment

unfoldable pub description_discriminant : OldFundDescription → ℕ
unfolding type_discriminant old_fund_type
description_discriminant d = type_discriminant (old_fund_type d)

module _ (fw : Framework) where
  unfoldable pub dep_encode : OldFundType → List ℕ → Result (List ℕ)
  dep_encode OldFundType.withdraw_only dest = ok (fw.push_byte discr_withdraw_only dest)
  dep_encode OldFundType.waiting dest = ok (fw.push_byte discr_waiting dest)
  dep_encode OldFundType.active dest = ok (fw.push_byte discr_active dest)
  dep_encode OldFundType.un_staked dest = ok (fw.push_byte discr_unstaked dest)
  dep_encode OldFundType.deferred_payment dest = ok (fw.push_byte discr_def_payment dest)

  unfoldable pub top_encode : OldFundType → Result (List ℕ)
  unfolding dep_encode
  top_encode t = fw.top_encode_from_nested (dep_encode t)

  unfoldable pub dep_encode_or_exit : OldFundType → List ℕ → Result (List ℕ)
  dep_encode_or_exit OldFundType.withdraw_only dest = ok (fw.push_byte discr_withdraw_only dest)
  dep_encode_or_exit OldFundType.waiting dest = ok (fw.push_byte discr_waiting dest)
  dep_encode_or_exit OldFundType.active dest = ok (fw.push_byte discr_active dest)
  dep_encode_or_exit OldFundType.un_staked dest = ok (fw.push_byte discr_unstaked dest)
  dep_encode_or_exit OldFundType.deferred_payment dest = ok (fw.push_byte discr_def_payment dest)

  unfoldable pub top_encode_or_exit : OldFundType → Result (List ℕ)
  unfolding dep_encode_or_exit
  top_encode_or_exit t = fw.top_encode_from_nested_or_exit (dep_encode_or_exit t)

  -- The `match` on the discriminant.
  unfoldable pub decode_by_discriminant : ℕ → List ℕ → Result (OldFundType × List ℕ)
  decode_by_discriminant discriminant rest =
      if discriminant == discr_withdraw_only
      then ok (OldFundType.withdraw_only, rest)
      else if discriminant == discr_waiting
      then ok (OldFundType.waiting, rest)
      else if discriminant == discr_active
      then ok (OldFundType.active, rest)
      else if discriminant == discr_unstaked
      then ok (OldFundType.un_staked, rest)
      else if discriminant == discr_def_payment
      then ok (OldFundType.deferred_payment, rest)
      else err Error.invalid_value

  unfoldable pub dep_decode : List ℕ → Result (OldFundType × List ℕ)
  unfolding decode_by_discriminant
  dep_decode input = do
    (discriminant, rest) ← fw.read_byte input
    decode_by_discriminant discriminant rest

  unfoldable pub top_decode : List ℕ → Result OldFundType
  unfolding dep_decode
  top_decode input = fw.top_decode_from_nested dep_decode input

  -- The `match` on the discriminant.
  unfoldable pub decode_by_discriminant_or_exit : ℕ → List ℕ → Result (OldFundType × List ℕ)
  decode_by_discriminant_or_exit discriminant rest =
      if discriminant == discr_withdraw_only
      then ok (OldFundType.withdraw_only, rest)
      else if discriminant == discr_waiting
      then ok (OldFundType.waiting, rest)
      else if discriminant == discr_active
      then ok (OldFundType.active, rest)
      else if discriminant == discr_unstaked
      then ok (OldFundType.un_staked, rest)
      else if discriminant == discr_def_payment
      then ok (OldFundType.deferred_payment, rest)
      else err Error.invalid_value

  unfoldable pub dep_decode_or_exit : List ℕ → Result (OldFundType × List ℕ)
  unfolding decode_by_discriminant_or_exit
  dep_decode_or_exit input = do
    (discriminant, rest) ← fw.read_byte_or_exit input
    decode_by_discriminant_or_exit discriminant rest

  unfoldable pub top_decode_or_exit : List ℕ → Result OldFundType
  unfolding dep_decode_or_exit
  top_decode_or_exit input = fw.top_decode_from_nested_or_exit dep_decode_or_exit input
