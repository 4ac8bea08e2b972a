-- ===== src/Contract/Stake/Regular.antt =====
-- latest/src/user_stake_state.rs: waiting stake replaces unstaked stake once the cap is filled.
use mx_delegation_sc.Base.{
  ℕ, ◌+◌, ◌-◌, ◌^◌, ◌≤◌, ◌<◌, ◌≡◌, refl, sym, ap, ◌∙◌, false, List, [], ◌∷◌, arith, min, length,
  ltb, ◌==◌, has, inl, inr, Bool-cases, if◌then◌else◌,
}
use mx_delegation_sc.Base.Outcome.{Result, Error, ok, err, require, ◌>>=◌, ◌>>◌}
use mx_delegation_sc.Funds.Types.{FundType, type_eq}
use mx_delegation_sc.Funds.Store.{Funds}
use mx_delegation_sc.Funds.AffectedUsers.{max_affected_users}
use mx_delegation_sc.Funds.Transf.{
  swap_unstaked_to_deferred_payment, never, swap_waiting_to_active,
  get_affected_users_of_swap_waiting_to_active,
}
use mx_delegation_sc.Funds.Repr.{ids, Queues, Repr}
use mx_delegation_sc.Funds.Repr.SwapType.{
  swap_waiting_to_active-Repr, swap_unstaked_to_deferred_payment-Repr,
}
use mx_delegation_sc.Funds.Repr.DryRun.{users_of, both_runs}
use mx_delegation_sc.Contract.State.{Env, Settings, Rewards, Contract}
use mx_delegation_sc.Contract.Settings.{owner_user_id}
use mx_delegation_sc.Contract.View.{get_user_stake_of_type, get_user_total_stake}
use mx_delegation_sc.Contract.RewardState.{compute_one_user_reward}
use mx_delegation_sc.Contract.RewardState.InOrder.{RewardsInOrder, compute_one_user_reward-ok}
use mx_delegation_sc.Contract.Stake.{
  fill_delegation_cap, validate_delegation_cap_invariant, set_funds, total_of, compute_rewards_of,
  swap_waiting_to_active_compute_rewards, swap_waiting_and_unstaked,
  use_waiting_to_replace_unstaked,
}
use mx_delegation_sc.Contract.Stake.Cap.{
  HasRoom, move-total_stake, waiting_to_active-KeepsSum, unstaked_to_deferred-KeepsSum,
}

compute_rewards_of-step :
    (u : ℕ) (us : List ℕ) (env : Env) (c : Contract)
    → (u == 0) ≡ false
    → compute_rewards_of (u ∷ us) env c
      ≡ (compute_one_user_reward u env c >>= compute_rewards_of us env)
unfolding compute_rewards_of
compute_rewards_of-step u us env c pos =
    ap
      (λ b.
        if b
        then err Error.bad_user_id
        else (compute_one_user_reward u env c >>= compute_rewards_of us env))
      pos

compute_rewards_of-nil : (env : Env) (c : Contract) → compute_rewards_of [] env c ≡ ok c
unfolding compute_rewards_of
compute_rewards_of-nil env c = refl

pub compute_rewards_of-ok :
    (us : List ℕ) (env : Env) (c : Contract)
    → has 0 us ≡ false
    → RewardsInOrder env c
    → (r : Rewards) × (compute_rewards_of us env c ≡ ok (record c { rewards = r }))
      × RewardsInOrder env (record c { rewards = r })
compute_rewards_of-ok [] env c known h = (c.rewards, compute_rewards_of-nil env c, h)
compute_rewards_of-ok (u ∷ us) env c known h =
    let pos : (u == 0) ≡ false = ground arith in
    let (r1, e1, h1) = compute_one_user_reward-ok u env c h in
    let (r2, e2, h2) = compute_rewards_of-ok us env (record c { rewards = r1 }) (ground arith) h1 in
    (r2, compute_rewards_of-step u us env c pos ∙ rw e1 e2, h2)

abbrev rest_of : Result (List ℕ × ℕ × Funds) → ℕ
rest_of (ok (affected, rest, s)) = rest
rest_of (err error) = 0

-- `swappable` went from waiting to active and from unstaked to deferred payment.
pub record Swapped (swappable : ℕ) (c c' : Contract) : Type 0 where
  pub active : total_of FundType.active c' ≡ total_of FundType.active c + swappable
  pub waiting : total_of FundType.waiting c' + swappable ≡ total_of FundType.waiting c
  pub un_staked : total_of FundType.un_staked c' + swappable ≡ total_of FundType.un_staked c
  pub deferred :
      total_of FundType.deferred_payment c' ≡ total_of FundType.deferred_payment c + swappable
  pub settings : c'.settings ≡ c.settings
  pub users : (v : ℕ) → get_user_total_stake v c'.funds ≡ get_user_total_stake v c.funds

-- The two halves of the replacement, as the code has them.
abbrev activate : List ℕ → ℕ → ℕ → Env → Contract → Result Contract
activate affected remaining swappable env c = do
  require (remaining == 0) Error.error_waiting_to_active
  c1 ← compute_one_user_reward owner_user_id env c
  c2 ← compute_rewards_of affected env c1
  (_, remaining', s) ← swap_waiting_to_active swappable never c2.funds
  require (remaining' == 0) Error.error_waiting_to_active
  ok (set_funds s c2)

abbrev compute_and_activate : ℕ → Env → Contract → Result Contract
compute_and_activate swappable env c = do
  (affected, remaining) ← get_affected_users_of_swap_waiting_to_active swappable never c.funds
  activate affected remaining swappable env c

abbrev defer_then_activate : ℕ → Env → Contract → Result Contract
defer_then_activate swappable env c = do
  (remaining, s) ← swap_unstaked_to_deferred_payment swappable never c.funds
  require (remaining == 0) Error.error_unstaked_to_deferred
  compute_and_activate swappable env (set_funds s c)

swap_waiting_and_unstaked-halves :
    (swappable : ℕ) (env : Env) (c : Contract)
    → swap_waiting_and_unstaked swappable env c ≡ defer_then_activate swappable env c
unfolding swap_waiting_and_unstaked swap_waiting_to_active_compute_rewards
swap_waiting_and_unstaked-halves swappable env c = refl

swap_waiting_and_unstaked-Swapped :
    (swappable : ℕ) (env : Env) (c : Contract) {q : Queues}
    → Repr c.funds q
    → HasRoom c.funds q
    → RewardsInOrder env c
    → has 0 (users_of (q FundType.waiting)) ≡ false
    → swappable ≤ total_of FundType.waiting c
    → swappable ≤ total_of FundType.un_staked c
    → (c' : Contract) × (q' : Queues) × (swap_waiting_and_unstaked swappable env c ≡ ok c')
      × Repr c'.funds q'
      × RewardsInOrder env c'
      × Swapped swappable c c'
unfolding get_user_stake_of_type type_eq
swap_waiting_and_unstaked-Swapped swappable env c {q} r room h known some_waiting some_unstaked =
    let (aff1, s1, q1, e1, r1, moved1, gave1, others1, top1, order1) =
      swap_unstaked_to_deferred_payment-Repr swappable never c.funds r
        (omega (arith, room.free_ids)) room.few_unstaked (λ m. refl) in
    let same : q1 FundType.waiting ≡ q FundType.waiting = others1 FundType.waiting refl refl in
    let as_long = ap (λ z. length (ids z)) same in
    let free : s1.f_max_id + length (ids (q1 FundType.waiting)) < 2 ^ 32 =
      omega (arith, room.free_ids, top1, as_long) in
    let few : length (ids (q1 FundType.waiting)) ≤ max_affected_users =
      omega (arith, room.few_waiting, as_long) in
    let (aff2, s2, q2, e2, r2, moved2, gave2, order2) =
      swap_waiting_to_active-Repr swappable never s1 r1 free few (λ m. refl) in
    let (affected, left, s2', run, dry, users) = both_runs swappable never s1 r1 free few in
    let known1 : has 0 (users_of (q1 FundType.waiting)) ≡ false =
      ap (λ z. has 0 (users_of z)) same ∙ known in
    let known2 : has 0 affected ≡ false = elim (Bool-cases (has 0 affected)) [
      | inl inside ↦ cc (users 0 inside, known1)
      | inr outside ↦ outside
    ] in
    let (rw1, ok1, h1) =
      compute_one_user_reward-ok owner_user_id env (set_funds s1 c)
        (record { fee = h.fee; cap = h.cap; seen = h.seen }) in
    let (rw2, ok2, h2) =
      compute_rewards_of-ok affected env (record c { funds = s1; rewards = rw1 }) known2 h1 in
    let none_left : left ≡ swappable - (s1.ftype FundType.waiting).total_balance =
      ap rest_of (sym run ∙ e2) in
    let waiting1 = moved1 FundType.waiting in
    let spent1 : swappable - (c.funds.ftype FundType.un_staked).total_balance ≡ 0 =
      omega (arith, some_unstaked) in
    let spent2 : swappable - (s1.ftype FundType.waiting).total_balance ≡ 0 =
      omega (arith, waiting1, some_waiting) in
    let left_zero : left ≡ 0 = none_left ∙ spent2 in
    let c' : Contract = record c { funds = s2; rewards = rw2 } in
    (
      c',
      q2,
      swap_waiting_and_unstaked-halves swappable env c
          ∙ rw (e1, spent1, dry, left_zero, ok1, ok2, e2, spent2) refl,
      r2,
      record { fee = h2.fee; cap = h2.cap; seen = h2.seen },
      record {
        active =
            omega (arith, moved1 FundType.active, moved2 FundType.active, waiting1, some_waiting);
        waiting = omega (arith, moved2 FundType.waiting, waiting1, some_waiting);
        un_staked =
            omega (arith, moved1 FundType.un_staked, moved2 FundType.un_staked, some_unstaked);
        deferred = omega (
          arith,
          moved1 FundType.deferred_payment,
          moved2 FundType.deferred_payment,
          some_unstaked,
        );
        settings = refl;
        users = λ v.
            move-total_stake _ _ waiting_to_active-KeepsSum _ aff2 s1 s2 moved2 gave2 v
            ∙ move-total_stake _ _ unstaked_to_deferred-KeepsSum _ aff1 c.funds s1 moved1 gave1 v;
      },
    )

-- The check of the delegation cap reads the settings and one sum.
abbrev pub cap_check : Settings → ℕ → Result (Unit {0})
cap_check st staked =
    let cap = st.total_delegation_cap in
    require (if st.bootstrap_mode then ltb staked cap else staked == cap)
      Error.delegation_cap_violated

pub validate_delegation_cap_invariant-check :
    (c : Contract)
    → validate_delegation_cap_invariant c
      ≡ cap_check c.settings (total_of FundType.active c + total_of FundType.un_staked c)
unfolding validate_delegation_cap_invariant
validate_delegation_cap_invariant-check c = refl

Swapped-validate_delegation_cap_invariant :
    (swappable : ℕ) (c c' : Contract)
    → Swapped swappable c c'
    → validate_delegation_cap_invariant c' ≡ validate_delegation_cap_invariant c
Swapped-validate_delegation_cap_invariant swappable c c' w =
    let staked = total_of FundType.active c' + total_of FundType.un_staked c' in
    validate_delegation_cap_invariant-check c'
    ∙ ap (λ st. cap_check st staked) w.settings
    ∙ ap (cap_check c.settings) (omega (arith, w.active, w.un_staked))
    ∙ sym (validate_delegation_cap_invariant-check c)

use_waiting_to_replace_unstaked-mode :
    (env : Env) (c : Contract)
    → c.settings.bootstrap_mode ≡ false
    → use_waiting_to_replace_unstaked env c ≡ (
        let swappable = min (total_of FundType.waiting c) (total_of FundType.un_staked c) in
        if swappable == 0 then ok c else swap_waiting_and_unstaked swappable env c)
unfolding use_waiting_to_replace_unstaked
use_waiting_to_replace_unstaked-mode env c regular =
    let swappable = min (total_of FundType.waiting c) (total_of FundType.un_staked c) in
    ap
      (λ b.
        if b
        then fill_delegation_cap c
        else (if swappable == 0 then ok c else swap_waiting_and_unstaked swappable env c))
      regular

-- Outside bootstrap mode, under the invariant, with ids left for the unstaked and the waiting funds,
-- at most 10000 of each, every waiting fund of a known user, a fee that is a share, a cap above zero
-- and no user who has seen rewards that did not arrive: `use_waiting_to_replace_unstaked` succeeds.
-- The smaller of the waiting and the unstaked stake goes from waiting to active and from unstaked to
-- deferred payment, no user's total stake changes, nor do the settings, and the check of the
-- delegation cap has the outcome that it had before. The conditions on the rewards and the invariant
-- are kept.
pub use_waiting_to_replace_unstaked-Swapped :
    (env : Env) (c : Contract) {q : Queues}
    → Repr c.funds q
    → HasRoom c.funds q
    → RewardsInOrder env c
    → has 0 (users_of (q FundType.waiting)) ≡ false
    → c.settings.bootstrap_mode ≡ false
    → (c' : Contract) × (q' : Queues) × (use_waiting_to_replace_unstaked env c ≡ ok c')
      × Repr c'.funds q'
      × RewardsInOrder env c'
      × Swapped (min (total_of FundType.waiting c) (total_of FundType.un_staked c)) c c'
      × (validate_delegation_cap_invariant c' ≡ validate_delegation_cap_invariant c)
use_waiting_to_replace_unstaked-Swapped env c {q} r room h known regular =
    let swappable = min (total_of FundType.waiting c) (total_of FundType.un_staked c) in
    let mode = use_waiting_to_replace_unstaked-mode env c regular in
    elim (Bool-cases (swappable == 0)) [
      | inl nothing ↦ (
        c,
        q,
        mode ∙ rw nothing refl,
        r,
        h,
        record {
          active = ground arith;
          waiting = ground arith;
          un_staked = ground arith;
          deferred = ground arith;
          settings = refl;
          users = λ v. refl;
        },
        refl,
      )
      | inr something ↦
          let (c', q', e, r', h', w) =
            swap_waiting_and_unstaked-Swapped swappable env c r room h known (omega arith)
              (omega arith) in
          (
            c',
            q',
            mode ∙ rw something e,
            r',
            h',
            w,
            Swapped-validate_delegation_cap_invariant swappable c c' w,
          )
    ]
