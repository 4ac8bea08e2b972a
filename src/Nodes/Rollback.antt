-- ===== src/Nodes/Rollback.antt =====
-- The callbacks of node_activation.rs for a call that the auction contract rejected, after the
-- endpoint that made the call.
use mx_delegation_sc.Base.{
  ℕ, ◌≡◌, ◌⊎◌, inl, inr, refl, ap, sym, ◌∙◌, Bool, true, false, not, ◌||◌, List, [], ◌∷◌, ◌++◌,
  arith, ◌==◌, if◌then◌else◌, has, has-append, Bool-cases, ==→eq,
}
use mx_delegation_sc.Base.Outcome.{ok, Error, require, >>=-eq-ok}
use mx_delegation_sc.Nodes.Config.{
  NodeState, Nodes, is_inactive, is_active, push_node_id, set_node_state,
}
use mx_delegation_sc.Nodes.Activation.{
  AuctionCall, call_err, stake, stake_nodes_loop, stake_nodes, set_all, auction_stake_callback,
  auction_stake_callback_fail, deactivate_all, perform_unstake_nodes, auction_unstake_callback,
  auction_unstake_callback_fail,
}

-- The state of every node after `set_all`.
set_all-state :
    (st : NodeState) (ids : List ℕ) (ns : Nodes) (i : ℕ)
    → (set_all st ids ns).state i ≡ (if has i ids then st else ns.state i)
unfolding set_all set_node_state
set_all-state st [] ns i = refl
set_all-state st (id ∷ ids) ns i = set_all-state st ids (set_node_state id st ns) i ∙ ground arith

is_inactive→eq : (st : NodeState) → is_inactive st ≡ true → st ≡ NodeState.inactive
is_inactive→eq st e = ground arith

is_active→eq : (st : NodeState) → is_active st ≡ true → st ≡ NodeState.active
is_active→eq st e = ground arith

require-ok : (b : Bool) (e : Error) → {x : Unit {0}} → require b e ≡ ok x → b ≡ true
require-ok true e h = refl
require-ok false e h = cc

push-ok : (ids ids' : List ℕ) (id : ℕ) → push_node_id ids id ≡ ok ids' → ids' ≡ ids ++ id ∷ []
unfolding push_node_id
push-ok ids ids' id h = ground arith

-- What the loop of `stakeNodes` did to node i: it was gathered, and then inactive or there before,
-- or it was left alone.
abbrev Traced : List ℕ → List ℕ → NodeState → NodeState → ℕ → Type 0
Traced ids ids' before after i =
    ((has i ids' ≡ true) × ((has i ids ≡ true) ⊎ (before ≡ NodeState.inactive)))
    ⊎ ((has i ids' ≡ false) × (has i ids ≡ false) × (after ≡ before))

Traced-step :
    (id : ℕ) (ids ids1 ids' : List ℕ) (i : ℕ) (ns : Nodes) (after : NodeState)
    → ns.state id ≡ NodeState.inactive
    → ids1 ≡ ids ++ id ∷ []
    → Traced ids1 ids' ((set_node_state id NodeState.pending_activation ns).state i) after i
    → Traced ids ids' (ns.state i) after i
unfolding set_node_state
Traced-step id ids ids1 ids' i ns after was grown rest =
    let member : has i ids1 ≡ (has i ids || has i (id ∷ [])) =
      ap (has i) grown ∙ has-append i ids (id ∷ []) in
    elim (Bool-cases (i == id)) [
      | inl hit ↦
          let here : ns.state i ≡ NodeState.inactive = ap ns.state (==→eq i id hit) ∙ was in
          ground arith
      | inr miss ↦ ground arith
    ]

stake_loop-Traced :
    (keys ids : List ℕ) (pairs : List (ℕ × ℕ)) (ns : Nodes) (ids' : List ℕ) (pairs' : List (ℕ × ℕ))
    (ns' : Nodes)
    → stake_nodes_loop keys ids pairs ns ≡ ok (ids', pairs', ns')
    → (i : ℕ) → Traced ids ids' (ns.state i) (ns'.state i) i
unfolding stake_nodes_loop
stake_loop-Traced [] ids pairs ns ids' pairs' ns' e i =
    let same : ids ≡ ids' = cc e in
    let kept : ns ≡ ns' = cc e in
    elim (Bool-cases (has i ids)) [
      | inl old ↦ inl (rw (sym same) old, inl old)
      | inr new ↦ inr (rw (sym same) new, new, ap (λ (n : Nodes). n.state i) (sym kept))
    ]
stake_loop-Traced (key ∷ keys) ids pairs ns ids' pairs' ns' e i =
    let id = ns.bls_to_id key in
    let (x, known, f1) = >>=-eq-ok (require (not (id == 0)) Error.unknown_node) _ e in
    let (y, idle, f2) =
      >>=-eq-ok (require (is_inactive (ns.state id)) Error.node_not_inactive) _ f1 in
    let (ids1, pushed, f3) = >>=-eq-ok (push_node_id ids id) _ f2 in
    let was : ns.state id ≡ NodeState.inactive = is_inactive→eq _ (require-ok _ _ idle) in
    let grown : ids1 ≡ ids ++ id ∷ [] = push-ok ids ids1 id pushed in
    let rest =
      stake_loop-Traced keys ids1 (pairs ++ (key, ns.signature id) ∷ [])
        (set_node_state id NodeState.pending_activation ns) ids' pairs' ns' f3 i in
    Traced-step id ids ids1 ids' i ns (ns'.state i) was grown rest

-- Where the auction contract rejects the call of `stakeNodes`, the callback leaves every node in
-- the state it had before the endpoint.
pub stake_nodes-rollback :
    (amount : ℕ) (keys ids : List ℕ) (pairs : List (ℕ × ℕ)) (ns ns' : Nodes)
    → stake_nodes amount keys ns ≡ ok (stake ids pairs amount, ns')
    → (i : ℕ) → (auction_stake_callback ids call_err ns').state i ≡ ns.state i
unfolding stake_nodes auction_stake_callback auction_stake_callback_fail
stake_nodes-rollback amount keys ids pairs ns ns' e i =
    let ((ids1, pairs1, ns1), loop, end) = >>=-eq-ok (stake_nodes_loop keys [] [] ns) _ e in
    let same_ids : ids1 ≡ ids = cc end in
    let same_nodes : ns1 ≡ ns' = cc end in
    let traced = stake_loop-Traced keys [] [] ns ids1 pairs1 ns1 loop i in
    set_all-state NodeState.inactive ids ns' i
    ∙ rw (sym same_ids, sym same_nodes)
        (elim traced [
          | inl (gathered, from) ↦ ground arith
          | inr (apart, new, rest) ↦ ground arith
        ])

deactivate_step :
    (id : ℕ) (ids : List ℕ) (i : ℕ) (ns : Nodes) (after : NodeState)
    → ns.state id ≡ NodeState.active
    → (((has i ids ≡ true)
          × ((set_node_state id NodeState.pending_deactivation ns).state i ≡ NodeState.active))
        ⊎ ((has i ids ≡ false)
            × (after ≡ (set_node_state id NodeState.pending_deactivation ns).state i)))
    → ((has i (id ∷ ids) ≡ true) × (ns.state i ≡ NodeState.active))
      ⊎ ((has i (id ∷ ids) ≡ false) × (after ≡ ns.state i))
unfolding set_node_state
deactivate_step id ids i ns after was rest = elim (Bool-cases (i == id)) [
  | inl hit ↦ inl (ground arith, ap ns.state (==→eq i id hit) ∙ was)
  | inr miss ↦ ground arith
]

deactivate-traced :
    (ids : List ℕ) (ns ns' : Nodes)
    → deactivate_all ids ns ≡ ok ns'
    → (i : ℕ)
    → ((has i ids ≡ true) × (ns.state i ≡ NodeState.active))
      ⊎ ((has i ids ≡ false) × (ns'.state i ≡ ns.state i))
unfolding deactivate_all
deactivate-traced [] ns ns' e i =
    let kept : ns ≡ ns' = cc e in inr (refl, ap (λ (n : Nodes). n.state i) (sym kept))
deactivate-traced (id ∷ ids) ns ns' e i =
    let (x, active_now, f1) =
      >>=-eq-ok (require (is_active (ns.state id)) Error.node_not_active) _ e in
    let was : ns.state id ≡ NodeState.active = is_active→eq _ (require-ok _ _ active_now) in
    let rest =
      deactivate-traced ids (set_node_state id NodeState.pending_deactivation ns) ns' f1 i in
    deactivate_step id ids i ns (ns'.state i) was rest

-- Where the auction contract rejects the call that unstakes nodes, the callback leaves every node
-- in the state it had before.
pub perform_unstake_nodes-rollback :
    (unstake_tokens? : Bool) (nonce : ℕ) (ids keys : List ℕ) (call : AuctionCall) (ns ns' : Nodes)
    → perform_unstake_nodes unstake_tokens? ids keys ns ≡ ok (call, ns')
    → (i : ℕ) → (auction_unstake_callback nonce ids call_err ns').state i ≡ ns.state i
unfolding perform_unstake_nodes auction_unstake_callback auction_unstake_callback_fail
perform_unstake_nodes-rollback unstake_tokens? nonce ids keys call ns ns' e i =
    let (ns1, loop, end) = >>=-eq-ok (deactivate_all ids ns) _ e in
    let same_nodes : ns1 ≡ ns' = cc end in
    let traced = deactivate-traced ids ns ns1 loop i in
    set_all-state NodeState.active ids ns' i ∙ rw (sym same_nodes) (ground arith)
