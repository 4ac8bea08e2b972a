-- ===== src/Contract/Stake/Cap.antt =====
-- latest/src/user_stake_state.rs: the delegation cap in bootstrap mode.
use mx_delegation_sc.Base.{
  ℕ, ◌+◌, ◌-◌, ◌^◌, ◌≤◌, ◌<◌, ◌≡◌, refl, ap, ◌∙◌, true, false, List, arith, min, length, ltb, ◌==◌,
  if◌then◌else◌, inl, inr, Bool-cases,
}
use mx_delegation_sc.Base.Outcome.{ok}
use mx_delegation_sc.Funds.Types.{FundType, type_eq}
use mx_delegation_sc.Funds.Store.{Funds}
use mx_delegation_sc.Funds.AffectedUsers.{max_affected_users}
use mx_delegation_sc.Funds.Transf.{never}
use mx_delegation_sc.Funds.Repr.{ids, Queues, Repr}
use mx_delegation_sc.Funds.Repr.Moved.{TypeTotalsMoved, UserGave}
use mx_delegation_sc.Funds.Repr.SwapType.{
  swap_waiting_to_active-Repr, swap_unstaked_to_deferred_payment-Repr,
}
use mx_delegation_sc.Contract.State.{Contract}
use mx_delegation_sc.Contract.View.{get_user_stake_of_type, get_user_total_stake}
use mx_delegation_sc.Contract.Stake.{set_funds, set_bootstrap_mode, total_of, fill_delegation_cap}

-- What the loops over the unstaked and the waiting funds need.
pub record HasRoom (s : Funds) (q : Queues) : Type 0 where
  pub free_ids :
      s.f_max_id + length (ids (q FundType.un_staked)) + length (ids (q FundType.waiting)) < 2 ^ 32
  pub few_unstaked : length (ids (q FundType.un_staked)) ≤ max_affected_users
  pub few_waiting : length (ids (q FundType.waiting)) ≤ max_affected_users

-- The contract once the cap is filled: all that was unstaked is a deferred payment, the waiting
-- funds are active up to the cap, and the bootstrap mode ends with the cap reached.
pub record Filled (c c' : Contract) : Type 0 where
  pub withdraw_only : total_of FundType.withdraw_only c' ≡ total_of FundType.withdraw_only c
  pub deferred :
      total_of FundType.deferred_payment c'
      ≡ total_of FundType.deferred_payment c + total_of FundType.un_staked c
  pub un_staked : total_of FundType.un_staked c' ≡ 0
  pub active :
      total_of FundType.active c'
      ≡ min c.settings.total_delegation_cap
          (total_of FundType.active c + total_of FundType.waiting c)
  pub waiting :
      total_of FundType.waiting c' + total_of FundType.active c'
      ≡ total_of FundType.waiting c + total_of FundType.active c
  pub cap : c'.settings.total_delegation_cap ≡ c.settings.total_delegation_cap
  pub registry : c'.users ≡ c.users
  pub mode :
      c'.settings.bootstrap_mode
      ≡ ltb
          (total_of FundType.active c + total_of FundType.waiting c)
          c.settings.total_delegation_cap
  pub users : (v : ℕ) → get_user_total_stake v c'.funds ≡ get_user_total_stake v c.funds

abbrev pub five : (FundType → ℕ) → ℕ
five f =
    f FundType.withdraw_only
    + f FundType.waiting
    + f FundType.active
    + f FundType.un_staked
    + f FundType.deferred_payment

abbrev pub Shifted : (source target : FundType) (a : ℕ) (f f' : FundType → ℕ) → Type 0
Shifted source target a f f' =
    (x : FundType)
    → f' x + (if type_eq x source then a else 0) ≡ f x + (if type_eq x target then a else 0)

abbrev pub KeepsSum : (source target : FundType) → Type 0
KeepsSum source target =
    (a : ℕ) (f f' : FundType → ℕ) → Shifted source target a f f' → five f' ≡ five f

pub unstaked_to_deferred-KeepsSum : KeepsSum FundType.un_staked FundType.deferred_payment
unfolding type_eq
unstaked_to_deferred-KeepsSum a f f' h = omega (
  arith,
  h FundType.withdraw_only,
  h FundType.waiting,
  h FundType.active,
  h FundType.un_staked,
  h FundType.deferred_payment,
)

pub waiting_to_active-KeepsSum : KeepsSum FundType.waiting FundType.active
unfolding type_eq
waiting_to_active-KeepsSum a f f' h = omega (
  arith,
  h FundType.withdraw_only,
  h FundType.waiting,
  h FundType.active,
  h FundType.un_staked,
  h FundType.deferred_payment,
)

-- A move between two of the five types changes nobody's total stake, nor that of the contract.
pub move-total_stake :
    (source target : FundType) (sums : KeepsSum source target) (k : ℕ) (affected : List ℕ)
    (s s' : Funds)
    → TypeTotalsMoved source target k s s'
    → ((v : ℕ) → UserGave source target s s' affected v)
    → (v : ℕ) → get_user_total_stake v s' ≡ get_user_total_stake v s
unfolding get_user_total_stake get_user_stake_of_type
move-total_stake source target sums k affected s s' moved gave v = elim (Bool-cases (v == 0)) [
  | inl contract ↦ rw contract (sums k _ _ moved)
  | inr user ↦ let (a, by_type, who) = gave v in rw user (sums a _ _ by_type)
]

abbrev pub stake_of : FundType → Funds → ℕ
stake_of t s = (s.ftype t).total_balance

reached :
    (cap a w a1 w1 : ℕ) → a1 ≡ a → w1 ≡ w → ((cap - a1) - w1 == 0) ≡ true → false ≡ ltb (a + w) cap
reached cap a w a1 w1 same same' h = ground (arith, same, same', h)

missed :
    (cap a w a1 w1 : ℕ) → a1 ≡ a → w1 ≡ w → ((cap - a1) - w1 == 0) ≡ false → true ≡ ltb (a + w) cap
missed cap a w a1 w1 same same' h = ground (arith, same, same', h)

moves-Filled :
    (c c' : Contract) (s1 : Funds)
    → TypeTotalsMoved FundType.un_staked FundType.deferred_payment
        (min (stake_of FundType.un_staked c.funds) (stake_of FundType.un_staked c.funds))
        c.funds
        s1
    → TypeTotalsMoved FundType.waiting FundType.active
        (min
          (c.settings.total_delegation_cap - stake_of FundType.active s1)
          (stake_of FundType.waiting s1))
        s1
        c'.funds
    → stake_of FundType.active c.funds ≤ c.settings.total_delegation_cap
    → c'.settings.total_delegation_cap ≡ c.settings.total_delegation_cap
    → c'.users ≡ c.users
    → c'.settings.bootstrap_mode
      ≡ ltb
          (stake_of FundType.active c.funds + stake_of FundType.waiting c.funds)
          c.settings.total_delegation_cap
    → ((v : ℕ) → get_user_total_stake v c'.funds ≡ get_user_total_stake v c.funds)
    → Filled c c'
unfolding get_user_stake_of_type type_eq
moves-Filled c c' s1 moved1 moved2 below cap registry mode users = record {
  withdraw_only = omega (arith, moved1 FundType.withdraw_only, moved2 FundType.withdraw_only);
  deferred = omega (arith, moved1 FundType.deferred_payment, moved2 FundType.deferred_payment);
  un_staked = omega (arith, moved1 FundType.un_staked, moved2 FundType.un_staked);
  active = ground (arith, moved1 FundType.active, moved2 FundType.active, moved1 FundType.waiting);
  waiting = omega (
    arith,
    moved1 FundType.active,
    moved2 FundType.active,
    moved1 FundType.waiting,
    moved2 FundType.waiting,
  );
  cap = cap;
  registry = registry;
  mode = mode;
  users = users;
}

pub fill_delegation_cap-Filled :
    (c : Contract) {q : Queues}
    → Repr c.funds q
    → HasRoom c.funds q
    → c.settings.bootstrap_mode ≡ true
    → total_of FundType.active c ≤ c.settings.total_delegation_cap
    → (c' : Contract) × (q' : Queues) × (fill_delegation_cap c ≡ ok c')
      × Repr c'.funds q'
      × Filled c c'
unfolding fill_delegation_cap get_user_stake_of_type type_eq
fill_delegation_cap-Filled c {q} r room boot below =
    let unstaked = total_of FundType.un_staked c in
    let (aff1, s1, q1, e1, r1, moved1, gave1, others1, top1, order1) =
      swap_unstaked_to_deferred_payment-Repr unstaked never c.funds r (omega (arith, room.free_ids))
        room.few_unstaked (λ m. refl) in
    let same = ap (λ z. length (ids z)) (others1 FundType.waiting refl refl) in
    let active1 : (s1.ftype FundType.active).total_balance ≡ total_of FundType.active c =
      omega (arith, moved1 FundType.active) in
    let waiting1 : (s1.ftype FundType.waiting).total_balance ≡ total_of FundType.waiting c =
      omega (arith, moved1 FundType.waiting) in
    let fillable = c.settings.total_delegation_cap - (s1.ftype FundType.active).total_balance in
    let (aff2, s2, q2, e2, r2, moved2, gave2, order2) =
      swap_waiting_to_active-Repr fillable never s1 r1 (omega (arith, room.free_ids, top1, same))
        (omega (arith, room.few_waiting, same)) (λ m. refl) in
    let spent : unstaked - (c.funds.ftype FundType.un_staked).total_balance ≡ 0 = omega arith in
    let enough : ltb c.settings.total_delegation_cap (s1.ftype FundType.active).total_balance
        ≡ false =
      ground (arith, active1) in
    let users : (v : ℕ) → get_user_total_stake v s2 ≡ get_user_total_stake v c.funds = λ v.
      move-total_stake _ _ waiting_to_active-KeepsSum _ aff2 s1 s2 moved2 gave2 v
      ∙ move-total_stake _ _ unstaked_to_deferred-KeepsSum _ aff1 c.funds s1 moved1 gave1 v in
    let left = fillable - (s1.ftype FundType.waiting).total_balance in
    elim (Bool-cases (left == 0)) [
      | inl full ↦ (
        set_bootstrap_mode false (set_funds s2 c),
        q2,
        rw (e1, spent, enough, e2, full) refl,
        r2,
        moves-Filled c _ s1 moved1 moved2 below refl refl (reached _ _ _ _ _ active1 waiting1 full)
            users,
      )
      | inr partial ↦ (
        set_funds s2 c,
        q2,
        rw (e1, spent, enough, e2, partial) refl,
        r2,
        moves-Filled c _ s1 moved1 moved2 below refl refl
            (boot ∙ missed _ _ _ _ _ active1 waiting1 partial) users,
      )
    ]
