-- ===== src/Codec/State.antt =====
-- node-storage/fuzz/old_serialization/node_state.rs. The states are those of the contract.
use mx_delegation_sc.Base.{ℕ, List, ◌==◌, if◌then◌else◌}
use mx_delegation_sc.Base.Outcome.{Result, ok, err, Error, ◌>>=◌}
use mx_delegation_sc.Nodes.Config.{NodeState}
use mx_delegation_sc.Codec.{Framework}

module _ (fw : Framework) where
  unfoldable pub dep_encode : NodeState → List ℕ → Result (List ℕ)
  dep_encode NodeState.inactive dest = ok (fw.push_byte 0 dest)
  dep_encode NodeState.pending_activation dest = ok (fw.push_byte 1 dest)
  dep_encode NodeState.activation_failed dest = ok (fw.push_byte 2 dest)
  dep_encode NodeState.active dest = ok (fw.push_byte 3 dest)
  dep_encode NodeState.pending_deactivation dest = ok (fw.push_byte 4 dest)
  dep_encode (NodeState.un_bond_period started) dest =
      fw.u64.dep_encode started (fw.push_byte 5 dest)
  dep_encode (NodeState.pending_un_bond unbond_started) dest =
      fw.u64.dep_encode unbond_started (fw.push_byte 6 dest)
  dep_encode NodeState.removed dest = ok (fw.push_byte 7 dest)

  unfoldable pub top_encode : NodeState → Result (List ℕ)
  unfolding dep_encode
  top_encode state = fw.top_encode_from_nested (dep_encode state)

  unfoldable pub dep_encode_or_exit : NodeState → List ℕ → Result (List ℕ)
  dep_encode_or_exit NodeState.inactive dest = ok (fw.push_byte 0 dest)
  dep_encode_or_exit NodeState.pending_activation dest = ok (fw.push_byte 1 dest)
  dep_encode_or_exit NodeState.activation_failed dest = ok (fw.push_byte 2 dest)
  dep_encode_or_exit NodeState.active dest = ok (fw.push_byte 3 dest)
  dep_encode_or_exit NodeState.pending_deactivation dest = ok (fw.push_byte 4 dest)
  dep_encode_or_exit (NodeState.un_bond_period started) dest =
      fw.u64.dep_encode_or_exit started (fw.push_byte 5 dest)
  dep_encode_or_exit (NodeState.pending_un_bond unbond_started) dest =
      fw.u64.dep_encode_or_exit unbond_started (fw.push_byte 6 dest)
  dep_encode_or_exit NodeState.removed dest = ok (fw.push_byte 7 dest)

  unfoldable pub top_encode_or_exit : NodeState → Result (List ℕ)
  unfolding dep_encode_or_exit
  top_encode_or_exit state = fw.top_encode_from_nested_or_exit (dep_encode_or_exit state)

  -- The data behind a discriminant.
  unfoldable pub decode_started : (ℕ → NodeState) → List ℕ → Result (NodeState × List ℕ)
  decode_started make input = do (started, rest) ← fw.u64.dep_decode input; ok (make started, rest)

  -- The `match` on the discriminant.
  unfoldable pub decode_by_discriminant : ℕ → List ℕ → Result (NodeState × List ℕ)
  unfolding decode_started
  decode_by_discriminant discriminant rest =
      if discriminant == 0
      then ok (NodeState.inactive, rest)
      else if discriminant == 1
      then ok (NodeState.pending_activation, rest)
      else if discriminant == 2
      then ok (NodeState.activation_failed, rest)
      else if discriminant == 3
      then ok (NodeState.active, rest)
      else if discriminant == 4
      then ok (NodeState.pending_deactivation, rest)
      else if discriminant == 5
      then decode_started NodeState.un_bond_period rest
      else if discriminant == 6
      then decode_started NodeState.pending_un_bond rest
      else if discriminant == 7
      then ok (NodeState.removed, rest)
      else err Error.invalid_value

  unfoldable pub dep_decode : List ℕ → Result (NodeState × List ℕ)
  unfolding decode_by_discriminant
  dep_decode input = do
    (discriminant, rest) ← fw.read_byte input
    decode_by_discriminant discriminant rest

  unfoldable pub top_decode : List ℕ → Result NodeState
  unfolding dep_decode
  top_decode input = fw.top_decode_from_nested dep_decode input

  -- The data behind a discriminant.
  unfoldable pub decode_started_or_exit : (ℕ → NodeState) → List ℕ → Result (NodeState × List ℕ)
  decode_started_or_exit make input = do
    (started, rest) ← fw.u64.dep_decode_or_exit input
    ok (make started, rest)

  -- The `match` on the discriminant.
  unfoldable pub decode_by_discriminant_or_exit : ℕ → List ℕ → Result (NodeState × List ℕ)
  unfolding decode_started_or_exit
  decode_by_discriminant_or_exit discriminant rest =
      if discriminant == 0
      then ok (NodeState.inactive, rest)
      else if discriminant == 1
      then ok (NodeState.pending_activation, rest)
      else if discriminant == 2
      then ok (NodeState.activation_failed, rest)
      else if discriminant == 3
      then ok (NodeState.active, rest)
      else if discriminant == 4
      then ok (NodeState.pending_deactivation, rest)
      else if discriminant == 5
      then decode_started_or_exit NodeState.un_bond_period rest
      else if discriminant == 6
      then decode_started_or_exit NodeState.pending_un_bond rest
      else if discriminant == 7
      then ok (NodeState.removed, rest)
      else err Error.invalid_value

  unfoldable pub dep_decode_or_exit : List ℕ → Result (NodeState × List ℕ)
  unfolding decode_by_discriminant_or_exit
  dep_decode_or_exit input = do
    (discriminant, rest) ← fw.read_byte_or_exit input
    decode_by_discriminant_or_exit discriminant rest

  unfoldable pub top_decode_or_exit : List ℕ → Result NodeState
  unfolding dep_decode_or_exit
  top_decode_or_exit input = fw.top_decode_from_nested_or_exit dep_decode_or_exit input
