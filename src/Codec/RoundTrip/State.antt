-- ===== src/Codec/RoundTrip/State.antt =====
-- `NodeState` of node_state.rs is read back as it was written.
use mx_delegation_sc.Base.{refl}
use mx_delegation_sc.Nodes.Config.{NodeState}
use mx_delegation_sc.Codec.{Framework, Documented, FitsU64}
use mx_delegation_sc.Codec.State
use mx_delegation_sc.Codec.RoundTrip.{RoundTrip, bare, numbered}

-- The nonce in a state is a 64-bit number.
abbrev pub Fits : NodeState → Type 0
Fits (NodeState.un_bond_period started) = FitsU64 started
Fits (NodeState.pending_un_bond unbond_started) = FitsU64 unbond_started
Fits _ = Unit {0}

-- With the framework as documented, a `NodeState` whose nonce has 64 bits is written, by either
-- variant of `dep_encode`, as bytes that either variant of `dep_decode` takes off an input, leaving
-- the rest, and decodes to the same state.
pub state-RoundTrip :
    (fw : Framework)
    → Documented fw
    → (st : NodeState) → Fits st
    → RoundTrip
        (State.dep_encode fw)
        (State.dep_encode_or_exit fw)
        (State.dep_decode fw)
        (State.dep_decode_or_exit fw)
        st
unfolding State.dep_encode State.dep_encode_or_exit State.dep_decode State.dep_decode_or_exit
state-RoundTrip fw doc NodeState.inactive fits =
    bare fw doc (State.decode_by_discriminant fw) (State.decode_by_discriminant_or_exit fw) 0
      NodeState.inactive (λ rest. refl) (λ rest. refl)
state-RoundTrip fw doc NodeState.pending_activation fits =
    bare fw doc (State.decode_by_discriminant fw) (State.decode_by_discriminant_or_exit fw) 1
      NodeState.pending_activation (λ rest. refl) (λ rest. refl)
state-RoundTrip fw doc NodeState.activation_failed fits =
    bare fw doc (State.decode_by_discriminant fw) (State.decode_by_discriminant_or_exit fw) 2
      NodeState.activation_failed (λ rest. refl) (λ rest. refl)
state-RoundTrip fw doc NodeState.active fits =
    bare fw doc (State.decode_by_discriminant fw) (State.decode_by_discriminant_or_exit fw) 3
      NodeState.active (λ rest. refl) (λ rest. refl)
state-RoundTrip fw doc NodeState.pending_deactivation fits =
    bare fw doc (State.decode_by_discriminant fw) (State.decode_by_discriminant_or_exit fw) 4
      NodeState.pending_deactivation (λ rest. refl) (λ rest. refl)
state-RoundTrip fw doc (NodeState.un_bond_period started) fits =
    numbered fw doc (State.decode_by_discriminant fw) (State.decode_by_discriminant_or_exit fw) 5
      NodeState.un_bond_period started fits (λ rest. refl) (λ rest. refl)
state-RoundTrip fw doc (NodeState.pending_un_bond started) fits =
    numbered fw doc (State.decode_by_discriminant fw) (State.decode_by_discriminant_or_exit fw) 6
      NodeState.pending_un_bond started fits (λ rest. refl) (λ rest. refl)
state-RoundTrip fw doc NodeState.removed fits =
    bare fw doc (State.decode_by_discriminant fw) (State.decode_by_discriminant_or_exit fw) 7
      NodeState.removed (λ rest. refl) (λ rest. refl)
