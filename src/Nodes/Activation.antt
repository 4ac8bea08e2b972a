-- ===== src/Nodes/Activation.antt =====
-- latest/src/node_activation.rs: the endpoints and callbacks that move a node through its states.
-- An endpoint ends in an asynchronous call to the auction contract, which it returns beside the
-- nodes; the callback runs in a later transaction. The guards that read the rest of the contract
-- come in as Booleans.
use mx_delegation_sc.Base.{
  ℕ, zero, suc, Bool, true, false, not, List, [], ◌∷◌, ◌++◌, Option, none, some, ◌==◌,
  if◌then◌else◌,
}
use mx_delegation_sc.Base.Outcome.{Result, ok, err, Error, ◌>>=◌, ◌>>◌, require}
use mx_delegation_sc.Nodes.Config.{
  NodeState, Nodes, is_inactive, is_active, push_node_id, set_node_state, split_node_ids_by_err,
}

-- The calls of auction_proxy.rs, with the node ids that the callback gets.
pub data AuctionCall : Type 0 where
  stake : (node_ids : List ℕ) (keys_signatures : List (ℕ × ℕ)) (amount : ℕ) → AuctionCall
  unstake unstake_nodes unbond_nodes : (node_ids keys : List ℕ) → AuctionCall
  claim : AuctionCall
  unjail : (keys : List ℕ) (fine : ℕ) → AuctionCall
  unstake_tokens unbond_tokens : (amount : ℕ) → AuctionCall

-- `ManagedAsyncCallResult`: the statuses, or an error.
pub data CallResult : Type 0 where
  call_ok : List (ℕ × ℕ) → CallResult
  call_err : CallResult

unfoldable pub stake_nodes_loop :
    List ℕ → List ℕ → List (ℕ × ℕ) → Nodes → Result (List ℕ × List (ℕ × ℕ) × Nodes)
unfolding push_node_id set_node_state
stake_nodes_loop [] ids pairs ns = ok (ids, pairs, ns)
stake_nodes_loop (key ∷ keys) ids pairs ns = do
  let id = ns.bls_to_id key
  require (not (id == 0)) Error.unknown_node
  require (is_inactive (ns.state id)) Error.node_not_inactive
  ids' ← push_node_id ids id
  stake_nodes_loop keys ids' (pairs ++ (key, ns.signature id) ∷ [])
      (set_node_state id NodeState.pending_activation ns)

-- `stake_nodes` behind its guards, and `perform_stake_nodes`.
unfoldable pub stake_nodes : ℕ → List ℕ → Nodes → Result (AuctionCall × Nodes)
unfolding stake_nodes_loop
stake_nodes amount_to_stake keys ns = do
  (ids, pairs, ns') ← stake_nodes_loop keys [] [] ns
  ok (stake ids pairs amount_to_stake, ns')

unfoldable pub set_all : NodeState → List ℕ → Nodes → Nodes
unfolding set_node_state
set_all st [] ns = ns
set_all st (id ∷ ids) ns = set_all st ids (set_node_state id st ns)

unfoldable pub auction_stake_callback_ok : List ℕ → Nodes → Nodes
unfolding set_all
auction_stake_callback_ok ids ns = set_all NodeState.active ids ns

unfoldable pub auction_stake_callback_fail : List ℕ → Nodes → Nodes
unfolding set_all
auction_stake_callback_fail ids ns = set_all NodeState.inactive ids ns

unfoldable pub auction_stake_callback : List ℕ → CallResult → Nodes → Nodes
unfolding auction_stake_callback_ok auction_stake_callback_fail split_node_ids_by_err
auction_stake_callback ids (call_ok statuses) ns =
    let (oks, fails) = split_node_ids_by_err ids statuses ns in
    auction_stake_callback_fail fails (auction_stake_callback_ok oks ns)
auction_stake_callback ids call_err ns = auction_stake_callback_fail ids ns

unfoldable pub known_node_ids : List ℕ → List ℕ → Nodes → Result (List ℕ)
unfolding push_node_id
known_node_ids [] ids ns = ok ids
known_node_ids (key ∷ keys) ids ns = do
  let id = ns.bls_to_id key
  require (not (id == 0)) Error.unknown_node
  ids' ← push_node_id ids id
  known_node_ids keys ids' ns

unfoldable pub deactivate_all : List ℕ → Nodes → Result Nodes
unfolding set_node_state
deactivate_all [] ns = ok ns
deactivate_all (id ∷ ids) ns = do
  require (is_active (ns.state id)) Error.node_not_active
  deactivate_all ids (set_node_state id NodeState.pending_deactivation ns)

unfoldable pub perform_unstake_nodes : Bool → List ℕ → List ℕ → Nodes → Result (AuctionCall × Nodes)
unfolding deactivate_all
perform_unstake_nodes unstake_tokens? ids keys ns = do
  ns' ← deactivate_all ids ns
  ok (if unstake_tokens? then unstake ids keys else unstake_nodes ids keys, ns')

-- Shared by `unStakeNodes` and `unStakeNodesAndTokens`.
unfoldable pub unstake_nodes_impl :
    (is_owner in_progress : Bool) → Bool → List ℕ → Nodes → Result (AuctionCall × Nodes)
unfolding known_node_ids perform_unstake_nodes
unstake_nodes_impl is_owner in_progress unstake_tokens? keys ns = do
  require is_owner Error.only_owner
  require (not in_progress) Error.global_op_in_progress
  ids ← known_node_ids keys [] ns
  perform_unstake_nodes unstake_tokens? ids keys ns

unfoldable pub auction_unstake_callback_ok : ℕ → List ℕ → Nodes → Nodes
unfolding set_all
auction_unstake_callback_ok nonce ids ns = set_all (NodeState.un_bond_period nonce) ids ns

unfoldable pub auction_unstake_callback_fail : List ℕ → Nodes → Nodes
unfolding set_all
auction_unstake_callback_fail ids ns = set_all NodeState.active ids ns

unfoldable pub auction_unstake_callback : ℕ → List ℕ → CallResult → Nodes → Nodes
unfolding auction_unstake_callback_ok auction_unstake_callback_fail split_node_ids_by_err
auction_unstake_callback nonce ids (call_ok statuses) ns =
    let (oks, fails) = split_node_ids_by_err ids statuses ns in
    auction_unstake_callback_fail fails (auction_unstake_callback_ok nonce oks ns)
auction_unstake_callback nonce ids call_err ns = auction_unstake_callback_fail ids ns

unfoldable pub force_node_unbond_period_loop : List ℕ → Nodes → Result Nodes
unfolding set_node_state
force_node_unbond_period_loop [] ns = ok ns
force_node_unbond_period_loop (key ∷ keys) ns = do
  let id = ns.bls_to_id key
  require (not (id == 0)) Error.unknown_node
  force_node_unbond_period_loop keys (set_node_state id (NodeState.un_bond_period 0) ns)

unfoldable pub force_node_unbond_period : Bool → List ℕ → Nodes → Result Nodes
unfolding force_node_unbond_period_loop
force_node_unbond_period is_owner keys ns = do
  require is_owner Error.only_owner
  force_node_unbond_period_loop keys ns

unfoldable pub start_unbond : ℕ → NodeState → Nodes → Bool × Nodes
unfolding set_node_state
start_unbond id (NodeState.un_bond_period started) ns =
    (true, set_node_state id (NodeState.pending_un_bond started) ns)
start_unbond id _ ns = (false, ns)

unfoldable pub prepare_node_for_unbond_if_possible : ℕ → Nodes → Bool × Nodes
unfolding start_unbond
prepare_node_for_unbond_if_possible id ns = start_unbond id (ns.state id) ns

unfoldable pub unbond_specific_loop : List ℕ → List ℕ → Nodes → Result (List ℕ × Nodes)
unfolding prepare_node_for_unbond_if_possible push_node_id
unbond_specific_loop [] ids ns = ok (ids, ns)
unbond_specific_loop (key ∷ keys) ids ns = do
  let id = ns.bls_to_id key
  require (not (id == 0)) Error.unknown_node
  let (possible, ns') = prepare_node_for_unbond_if_possible id ns
  require possible Error.node_not_unbondable
  ids' ← push_node_id ids id
  unbond_specific_loop keys ids' ns'

abbrev pub is_empty : List ℕ → Bool
is_empty [] = true
is_empty (_ ∷ _) = false

unfoldable pub unbond_specific_nodes_endpoint :
    (is_owner in_progress : Bool) → List ℕ → Nodes → Result (AuctionCall × Nodes)
unfolding unbond_specific_loop
unbond_specific_nodes_endpoint is_owner in_progress keys ns = do
  require is_owner Error.only_owner
  require (not in_progress) Error.global_op_in_progress
  require (not (is_empty keys)) Error.no_bls_keys
  (ids, ns') ← unbond_specific_loop keys [] ns
  ok (unbond_nodes ids keys, ns')

-- `while node_id >= 1`, from the last node down.
unfoldable pub unbond_all_loop : ℕ → List ℕ → List ℕ → Nodes → Result (List ℕ × List ℕ × Nodes)
unfolding prepare_node_for_unbond_if_possible push_node_id
unbond_all_loop zero ids keys ns = ok (ids, keys, ns)
unbond_all_loop (suc n) ids keys ns = do
  let (possible, ns') = prepare_node_for_unbond_if_possible (suc n) ns
  let pushed : Result (List ℕ × List ℕ) = elim possible [
    | true ↦ push_node_id ids (suc n) >>= λ ids'. ok (ids', keys ++ ns'.id_to_bls (suc n) ∷ [])
    | false ↦ ok (ids, keys)
  ]
  (ids', keys') ← pushed
  unbond_all_loop n ids' keys' ns'

unfoldable pub unbond_all_possible_nodes :
    (is_owner in_progress : Bool) → Nodes → Result (Option AuctionCall × Nodes)
unfolding unbond_all_loop
unbond_all_possible_nodes is_owner in_progress ns = do
  require is_owner Error.only_owner
  require (not in_progress) Error.global_op_in_progress
  (ids, keys, ns') ← unbond_all_loop ns.num_nodes [] [] ns
  ok (if is_empty ids then none else some (unbond_nodes ids keys), ns')

unfoldable pub auction_unbond_callback_ok : List ℕ → Nodes → Nodes
unfolding set_all
auction_unbond_callback_ok ids ns = set_all NodeState.inactive ids ns

unfoldable pub revert_unbond : ℕ → NodeState → Nodes → Result Nodes
unfolding set_node_state
revert_unbond id (NodeState.pending_un_bond unbond_started) ns =
    ok (set_node_state id (NodeState.un_bond_period unbond_started) ns)
revert_unbond id _ ns = err Error.node_not_pending_unbond

unfoldable pub auction_unbond_callback_fail : List ℕ → Nodes → Result Nodes
unfolding revert_unbond
auction_unbond_callback_fail [] ns = ok ns
auction_unbond_callback_fail (id ∷ ids) ns =
    revert_unbond id (ns.state id) ns >>= auction_unbond_callback_fail ids

unfoldable pub auction_unbond_callback : List ℕ → CallResult → Nodes → Result Nodes
unfolding auction_unbond_callback_ok auction_unbond_callback_fail split_node_ids_by_err
auction_unbond_callback ids (call_ok statuses) ns =
    let (oks, fails) = split_node_ids_by_err ids statuses ns in
    auction_unbond_callback_fail fails (auction_unbond_callback_ok oks ns)
auction_unbond_callback ids call_err ns = auction_unbond_callback_fail ids ns

unfoldable pub claim_unused_funds : (is_owner in_progress : Bool) → Result AuctionCall
claim_unused_funds is_owner in_progress = do
  require is_owner Error.only_owner
  require (not in_progress) Error.global_op_in_progress
  ok claim

unfoldable pub all_active : List ℕ → Nodes → Result (Unit {0})
all_active [] ns = ok tt
all_active (key ∷ keys) ns = do
  let id = ns.bls_to_id key
  require (not (id == 0)) Error.unknown_node
  require (is_active (ns.state id)) Error.node_not_active
  all_active keys ns

unfoldable pub unjail_nodes : Bool → List ℕ → ℕ → Nodes → Result AuctionCall
unfolding all_active
unjail_nodes is_owner keys fine_payment ns = do
  require is_owner Error.only_owner
  all_active keys ns
  ok (unjail keys fine_payment)
