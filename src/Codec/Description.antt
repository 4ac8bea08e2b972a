-- ===== src/Codec/Description.antt =====
-- user-fund-storage/fuzz/old_serialization/fund_type.rs: `FundDescription` and its codec.
use mx_delegation_sc.Base.{ℕ, List, ◌==◌, if◌then◌else◌}
use mx_delegation_sc.Base.Outcome.{Result, ok, err, Error, ◌>>=◌}
use mx_delegation_sc.Codec.{Framework}

pub data OldFundDescription : Type 0 where
  withdraw_only : OldFundDescription
  waiting : (created : ℕ) → OldFundDescription
  active : OldFundDescription
  un_staked : (created : ℕ) → OldFundDescription
  deferred_payment : (created : ℕ) → OldFundDescription

abbrev pub discr_withdraw_only : ℕ
discr_withdraw_only = 0

abbrev pub discr_waiting : ℕ
discr_waiting = 1

abbrev pub discr_active : ℕ
discr_active = 4

abbrev pub discr_unstaked : ℕ
discr_unstaked = 5

abbrev pub discr_def_payment : ℕ
discr_def_payment = 6

module _ (fw : Framework) where
  unfoldable pub dep_encode : OldFundDescription → List ℕ → Result (List ℕ)
  dep_encode OldFundDescription.withdraw_only dest = ok (fw.push_byte discr_withdraw_only dest)
  dep_encode (OldFundDescription.waiting created) dest =
      fw.u64.dep_encode created (fw.push_byte discr_waiting dest)
  dep_encode OldFundDescription.active dest = ok (fw.push_byte discr_active dest)
  dep_encode (OldFundDescription.un_staked created) dest =
      fw.u64.dep_encode created (fw.push_byte discr_unstaked dest)
  dep_encode (OldFundDescription.deferred_payment created) dest =
      fw.u64.dep_encode created (fw.push_byte discr_def_payment dest)

  unfoldable pub top_encode : OldFundDescription → Result (List ℕ)
  unfolding dep_encode
  top_encode d = fw.top_encode_from_nested (dep_encode d)

  unfoldable pub dep_encode_or_exit : OldFundDescription → List ℕ → Result (List ℕ)
  dep_encode_or_exit OldFundDescription.withdraw_only dest =
      ok (fw.push_byte discr_withdraw_only dest)
  dep_encode_or_exit (OldFundDescription.waiting created) dest =
      fw.u64.dep_encode_or_exit created (fw.push_byte discr_waiting dest)
  dep_encode_or_exit OldFundDescription.active dest = ok (fw.push_byte discr_active dest)
  dep_encode_or_exit (OldFundDescription.un_staked created) dest =
      fw.u64.dep_encode_or_exit created (fw.push_byte discr_unstaked dest)
  dep_encode_or_exit (OldFundDescription.deferred_payment created) dest =
      fw.u64.dep_encode_or_exit created (fw.push_byte discr_def_payment dest)

  unfoldable pub top_encode_or_exit : OldFundDescription → Result (List ℕ)
  unfolding dep_encode_or_exit
  top_encode_or_exit d = fw.top_encode_from_nested_or_exit (dep_encode_or_exit d)

  -- The data behind a discriminant.
  unfoldable pub decode_created :
      (ℕ → OldFundDescription) → List ℕ → Result (OldFundDescription × List ℕ)
  decode_created make input = do (created, rest) ← fw.u64.dep_decode input; ok (make created, rest)

  -- The `match` on the discriminant.
  unfoldable pub decode_by_discriminant : ℕ → List ℕ → Result (OldFundDescription × List ℕ)
  unfolding decode_created
  decode_by_discriminant discriminant rest =
      if discriminant == discr_withdraw_only
      then ok (OldFundDescription.withdraw_only, rest)
      else if discriminant == discr_waiting
      then decode_created OldFundDescription.waiting rest
      else if discriminant == discr_active
      then ok (OldFundDescription.active, rest)
      else if discriminant == discr_unstaked
      then decode_created OldFundDescription.un_staked rest
      else if discriminant == discr_def_payment
      then decode_created OldFundDescription.deferred_payment rest
      else err Error.invalid_value

  unfoldable pub dep_decode : List ℕ → Result (OldFundDescription × List ℕ)
  unfolding decode_by_discriminant
  dep_decode input = do
    (discriminant, rest) ← fw.read_byte input
    decode_by_discriminant discriminant rest

  unfoldable pub top_decode : List ℕ → Result OldFundDescription
  unfolding dep_decode
  top_decode input = fw.top_decode_from_nested dep_decode input

  -- The data behind a discriminant.
  unfoldable pub decode_created_or_exit :
      (ℕ → OldFundDescription) → List ℕ → Result (OldFundDescription × List ℕ)
  decode_created_or_exit make input = do
    (created, rest) ← fw.u64.dep_decode_or_exit input
    ok (make created, rest)

  -- The `match` on the discriminant.
  unfoldable pub decode_by_discriminant_or_exit : ℕ → List ℕ → Result (OldFundDescription × List ℕ)
  unfolding decode_created_or_exit
  decode_by_discriminant_or_exit discriminant rest =
      if discriminant == discr_withdraw_only
      then ok (OldFundDescription.withdraw_only, rest)
      else if discriminant == discr_waiting
      then decode_created_or_exit OldFundDescription.waiting rest
      else if discriminant == discr_active
      then ok (OldFundDescription.active, rest)
      else if discriminant == discr_unstaked
      then decode_created_or_exit OldFundDescription.un_staked rest
      else if discriminant == discr_def_payment
      then decode_created_or_exit OldFundDescription.deferred_payment rest
      else err Error.invalid_value

  unfoldable pub dep_decode_or_exit : List ℕ → Result (OldFundDescription × List ℕ)
  unfolding decode_by_discriminant_or_exit
  dep_decode_or_exit input = do
    (discriminant, rest) ← fw.read_byte_or_exit input
    decode_by_discriminant_or_exit discriminant rest

  unfoldable pub top_decode_or_exit : List ℕ → Result OldFundDescription
  unfolding dep_decode_or_exit
  top_decode_or_exit input = fw.top_decode_from_nested_or_exit dep_decode_or_exit input
