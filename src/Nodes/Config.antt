-- ===== src/Nodes/Config.antt =====
-- node-storage/src: the state of each node, and node_config.rs. A BLS key or signature is a number,
-- of which the code only asks whether it equals another.
use mx_delegation_sc.Base.{
  ℕ, zero, suc, Bool, true, false, not, List, [], ◌∷◌, ◌++◌, Option, none, some, ◌==◌, ltb,
  if◌then◌else◌, add_usize, has, length,
}
use mx_delegation_sc.Base.Outcome.{Result, ok, err, Error, ◌>>=◌, ◌>>◌, require}

pub data NodeState : Type 0 where
  inactive pending_activation activation_failed active pending_deactivation : NodeState
  un_bond_period : (started : ℕ) → NodeState
  pending_un_bond : (unbond_started : ℕ) → NodeState
  removed : NodeState

abbrev pub discriminant : NodeState → ℕ
discriminant NodeState.inactive = 0
discriminant NodeState.pending_activation = 1
discriminant NodeState.activation_failed = 2
discriminant NodeState.active = 3
discriminant NodeState.pending_deactivation = 4
discriminant (NodeState.un_bond_period _) = 5
discriminant (NodeState.pending_un_bond _) = 6
discriminant NodeState.removed = 7

-- `get_node_state(id) == state`, for the states with no data that the code compares with.
abbrev pub is_inactive : NodeState → Bool
is_inactive NodeState.inactive = true
is_inactive _ = false

abbrev pub is_active : NodeState → Bool
is_active NodeState.active = true
is_active _ = false

abbrev pub is_removed : NodeState → Bool
is_removed NodeState.removed = true
is_removed _ = false

pub record Nodes : Type 0 where
  pub num_nodes : ℕ
  pub bls_to_id : ℕ → ℕ
  pub id_to_bls : ℕ → ℕ
  pub signature : ℕ → ℕ
  pub state : ℕ → NodeState

abbrev pub no_nodes : Nodes
no_nodes = record {
  num_nodes = 0;
  bls_to_id = λ _. 0;
  id_to_bls = λ _. 0;
  signature = λ _. 0;
  state = λ _. NodeState.inactive;
}

abbrev pub max_nodes_per_operation : ℕ
max_nodes_per_operation = 100

-- `node_ids.push(id)`: a full array panics.
unfoldable pub push_node_id : List ℕ → ℕ → Result (List ℕ)
push_node_id ids id =
    if ltb (length ids) max_nodes_per_operation
    then ok (ids ++ id ∷ [])
    else err Error.capacity_exceeded

unfoldable pub set_node_state : ℕ → NodeState → Nodes → Nodes
set_node_state id st ns = record ns { state = λ i. if i == id then st else ns.state i }

abbrev pub set_node_signature : ℕ → ℕ → Nodes → Nodes
set_node_signature id sig ns = record ns {
  signature = λ i. if i == id then sig else ns.signature i;
}

unfoldable pub get_node_signature_endpoint : ℕ → Nodes → Option ℕ
get_node_signature_endpoint key ns =
    let id = ns.bls_to_id key in if id == 0 then none else some (ns.signature id)

unfoldable pub get_node_state_endpoint : ℕ → Nodes → NodeState
get_node_state_endpoint key ns =
    let id = ns.bls_to_id key in if id == 0 then NodeState.removed else ns.state id

unfoldable pub node_states_below : ℕ → Nodes → List (ℕ × ℕ)
node_states_below zero ns = []
node_states_below (suc n) ns =
    node_states_below n ns ++ (ns.id_to_bls (suc n), discriminant (ns.state (suc n))) ∷ []

unfoldable pub get_all_node_states : Nodes → List (ℕ × ℕ)
unfolding node_states_below
get_all_node_states ns = node_states_below ns.num_nodes ns

abbrev pub unbond_started_of : NodeState → Option ℕ
unbond_started_of (NodeState.un_bond_period started) = some started
unbond_started_of _ = none

unfoldable pub get_node_bl_nonce_of_unstake_endpoint : ℕ → Nodes → Option ℕ
get_node_bl_nonce_of_unstake_endpoint key ns =
    let id = ns.bls_to_id key in if id == 0 then none else unbond_started_of (ns.state id)

-- One round of `add_nodes`. The count is a local variable until the loop is over.
unfoldable pub register_node : ℕ → ℕ → ℕ → Nodes → Nodes
unfolding set_node_state
register_node id key sig ns = set_node_signature id sig (
    set_node_state id NodeState.inactive (record ns {
      bls_to_id = λ k. if k == key then id else ns.bls_to_id k;
      id_to_bls = λ i. if i == id then key else ns.id_to_bls i;
    }))

unfoldable pub add_node : ℕ → ℕ → ℕ → Nodes → Result (ℕ × Nodes)
unfolding register_node
add_node num_nodes key sig ns =
    let id = ns.bls_to_id key in
    if id == 0
    then (let n = add_usize num_nodes 1 in ok (n, register_node n key sig ns))
    else if is_removed (ns.state id)
    then ok (num_nodes, set_node_signature id sig (set_node_state id NodeState.inactive ns))
    else err Error.node_already_registered

unfoldable pub add_nodes_loop : ℕ → List (ℕ × ℕ) → Nodes → Result (ℕ × Nodes)
unfolding add_node
add_nodes_loop num_nodes [] ns = ok (num_nodes, ns)
add_nodes_loop num_nodes ((key, sig) ∷ rest) ns =
    add_node num_nodes key sig ns >>= λ (n, ns'). add_nodes_loop n rest ns'

-- `is_owner` is the test of `#[only_owner]`.
unfoldable pub add_nodes : Bool → List (ℕ × ℕ) → Nodes → Result Nodes
unfolding add_nodes_loop
add_nodes is_owner pairs ns = do
  require is_owner Error.only_owner
  (n, ns') ← add_nodes_loop ns.num_nodes pairs ns
  ok (record ns' { num_nodes = n })

unfoldable pub remove_nodes_loop : List ℕ → Nodes → Result Nodes
unfolding set_node_state
remove_nodes_loop [] ns = ok ns
remove_nodes_loop (key ∷ rest) ns = do
  let id = ns.bls_to_id key
  require (not (id == 0)) Error.node_not_registered
  require (is_inactive (ns.state id)) Error.only_inactive_removed
  remove_nodes_loop rest (set_node_state id NodeState.removed ns)

unfoldable pub remove_nodes : Bool → List ℕ → Nodes → Result Nodes
unfolding remove_nodes_loop
remove_nodes is_owner keys ns = do require is_owner Error.only_owner; remove_nodes_loop keys ns

-- `swap_remove(pos)` at the first position of `id`: the last element takes its place.
unfoldable pub last_or : ℕ → List ℕ → ℕ
last_or d [] = d
last_or d (x ∷ xs) = last_or x xs

unfoldable pub drop_last : List ℕ → List ℕ
drop_last [] = []
drop_last (x ∷ []) = []
drop_last (x ∷ y ∷ r) = x ∷ drop_last (y ∷ r)

-- Behind the head, where the head stays.
unfoldable pub swap_remove : ℕ → List ℕ → List ℕ
unfolding last_or drop_last
swap_remove id [] = []
swap_remove id (x ∷ []) = if x == id then [] else x ∷ []
swap_remove id (x ∷ y ∷ r) =
    let rest = x ∷ swap_remove id (y ∷ r) in
    if x == id then last_or y r ∷ drop_last (y ∷ r) else rest

-- The nodes that succeeded and those that failed. A status is the pair of a key and an error code.
unfoldable pub split_node_ids_loop : List ℕ → List ℕ → List (ℕ × ℕ) → Nodes → List ℕ × List ℕ
unfolding swap_remove
split_node_ids_loop oks fails [] ns = (oks, fails)
split_node_ids_loop oks fails ((key, status) ∷ rest) ns =
    let id = ns.bls_to_id key in
    let moved = if status == 0 then false else has id oks in
    split_node_ids_loop (if moved then swap_remove id oks else oks)
      (if moved then fails ++ id ∷ [] else fails) rest ns

unfoldable pub split_node_ids_by_err : List ℕ → List (ℕ × ℕ) → Nodes → List ℕ × List ℕ
unfolding split_node_ids_loop
split_node_ids_by_err ids statuses ns = split_node_ids_loop ids [] statuses ns
