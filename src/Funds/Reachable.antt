-- ===== src/Funds/Reachable.antt =====
-- The storages that the operations of fund_module.rs and fund_transf_module.rs lead to, from the
-- empty one. Left out are the conversion of deferred payments by their age and the dust cleanup,
-- whose filters pass over some of the funds.
use mx_delegation_sc.Base.{
  ℕ, ◌+◌, ◌^◌, ◌≤◌, ◌<◌, ◌≡◌, refl, sym, ◌∙◌, Bool, true, List, [], ◌∷◌, some, arith, length,
}
use mathlib.Core.Path.{subst}
use mx_delegation_sc.Base.Outcome.{Result, ok}
use mx_delegation_sc.Funds.Types.{FundDescription, FundType, fund_type, type_eq}
use mx_delegation_sc.Funds.Store.{Funds, empty_funds, forwards, backwards}
use mx_delegation_sc.Funds.AffectedUsers.{max_affected_users}
use mx_delegation_sc.Funds.Query.{
  query_sum_funds_by_type, query_sum_funds_by_user_type, count_fund_items_by_type,
}
use mx_delegation_sc.Funds.Transf.{
  left_of, unstaked_to_deferred, create_waiting, liquidate_all_withdraw_only,
  swap_waiting_to_active, swap_user_active_to_unstaked, swap_user_waiting_to_withdraw_only,
  swap_unstaked_to_deferred_payment, swap_active_to_deferred_payment,
}
use mx_delegation_sc.Funds.Repr.{Entry, ids, of_user, Queues, Repr}
use mx_delegation_sc.Funds.Repr.Increase.{increase_queue, increase_fund_balance-Repr}
use mx_delegation_sc.Funds.Repr.Walk.{
  type_fuel, user_fuel, count_where, query_sum_funds_by_type-eq-ok,
  query_sum_funds_by_user_type-eq-ok,
}
use mx_delegation_sc.Funds.Repr.SplitConvert.{limit_after}
use mx_delegation_sc.Funds.Repr.PerUser.{sum_users, type_total-sum_users}
use mx_delegation_sc.Funds.Repr.DestroyAll.{destroy_all_for_user-Repr}
use mx_delegation_sc.Funds.Repr.SwapUser.{
  swap_user_active_to_unstaked-Repr, swap_user_waiting_to_withdraw_only-Repr,
}
use mx_delegation_sc.Funds.Repr.SwapType.{
  split_convert_max_by_type-Repr, unstaked_to_deferred-converts,
}

-- At most half of the ids are used up, so that every fund can be split.
abbrev pub HalfFree : Funds → Type 0
HalfFree s = s.f_max_id + s.f_max_id + 1 < 2 ^ 32

-- The list of the type has at most as many items as users can be noted.
abbrev pub FewOf : FundType → Funds → Type 0
FewOf t s = (n : ℕ) × (count_fund_items_by_type t (λ _. true) s ≡ ok n) × (n ≤ max_affected_users)

-- One operation that returns. A closure `interrupt` may stop those that walk a whole list.
pub data FundsStep (s s' : Funds) : Type 0 where
  stake : (nonce u amount : ℕ) → create_waiting nonce u amount s ≡ s' → FundsStep s s'
  withdraw_waiting :
      (u amount left : ℕ)
      → swap_user_waiting_to_withdraw_only u amount s ≡ ok (left, s')
      → FundsStep s s'
  unstake :
      (nonce u amount left : ℕ)
      → swap_user_active_to_unstaked nonce u amount s ≡ ok (left, s')
      → FundsStep s s'
  liquidate :
      (u paid : ℕ) (interrupt : ℕ → Bool)
      → liquidate_all_withdraw_only u interrupt s ≡ ok (paid, s')
      → FundsStep s s'
  activate :
      (amount : ℕ) (interrupt : ℕ → Bool) (affected : List ℕ) (left : ℕ)
      → FewOf FundType.waiting s
      → swap_waiting_to_active amount interrupt s ≡ ok (affected, left, s')
      → FundsStep s s'
  defer_unstaked :
      (amount : ℕ) (interrupt : ℕ → Bool) (left : ℕ)
      → FewOf FundType.un_staked s
      → swap_unstaked_to_deferred_payment amount interrupt s ≡ ok (left, s')
      → FundsStep s s'
  defer_active :
      (nonce amount : ℕ) (interrupt : ℕ → Bool) (left : ℕ)
      → FewOf FundType.active s
      → swap_active_to_deferred_payment nonce amount interrupt s ≡ ok (left, s')
      → FundsStep s s'

pub data Reachable : Funds → Type 0 where
  start : Reachable empty_funds
  next : {s s' : Funds} → Reachable s → HalfFree s → FundsStep s s' → Reachable s'

landed :
    {A : Type 0} (m : Result (A × Funds)) {a a' : A} {s s' : Funds} {q : Queues}
    → m ≡ ok (a, s)
    → m ≡ ok (a', s')
    → Repr s q
    → Repr s' q
landed m {a} {a'} {s} {s'} {q} e e' r = subst (λ z. Repr z q) (cc (e, e')) r

activated :
    {m : Result (List ℕ × ℕ × Funds)} {a a' : List ℕ} {k k' : ℕ} {s s' : Funds}
    → m ≡ ok (a, k, s)
    → m ≡ ok (a', k', s')
    → s ≡ s'
activated e e' = cc (e, e')

abbrev no_queues : Queues
no_queues _ = []

empty_funds-Repr : Repr empty_funds no_queues
empty_funds-Repr = record {
  type_links = λ t. (refl, refl);
  user_links = λ u t. (refl, refl);
  type_total = λ t. refl;
  user_total = λ u t. refl;
  holds = λ t. tt;
  distinct = λ t. tt;
  cleared = λ x pos out. refl;
}

count_where-all : (es : List Entry) → count_where (λ _ _. true) es ≡ length (ids es)
count_where-all [] = refl
count_where-all (e ∷ es) = ground (arith, count_where-all es)

ok-number : {m n : ℕ} → ok m ≡ ok n → m ≡ n
ok-number e = cc

few_items :
    (t : FundType) (s : Funds) {q : Queues}
    → Repr s q
    → FewOf t s
    → length (ids (q t)) ≤ max_affected_users
few_items t s {q} r (n, e, few) =
    let counted = (query_sum_funds_by_type-eq-ok (λ _ _. true) t r).1 in
    let same : n ≡ length (ids (q t)) = ok-number (sym e ∙ counted) ∙ count_where-all (q t) in
    omega (arith, same)

type_room :
    (t : FundType) (s : Funds) {q : Queues}
    → Repr s q
    → HalfFree s
    → s.f_max_id + length (ids (q t)) < 2 ^ 32
type_room t s r free = omega (arith, type_fuel r t)

user_room :
    (u : ℕ) (t : FundType) (s : Funds) {q : Queues}
    → Repr s q
    → HalfFree s
    → s.f_max_id + length (ids (of_user u (q t))) < 2 ^ 32
user_room u t s r free = omega (arith, user_fuel r u t)

module _ (s : Funds) {q : Queues} (r : Repr s q) (free : HalfFree s) (interrupt : ℕ → Bool) where
  activate-Repr :
      (amount : ℕ)
      → FewOf FundType.waiting s
      → (affected : List ℕ) × (left : ℕ) × (s' : Funds) × (q' : Queues) × (swap_waiting_to_active
            amount interrupt s
          ≡ ok (affected, left, s'))
        × Repr s' q'
  unfolding swap_waiting_to_active fund_type type_eq
  activate-Repr amount few =
      let (k, affected, s', q', e, r', moved, gave, others, top, order, done) =
        split_convert_max_by_type-Repr (some amount) FundType.waiting FundType.active forwards
          (λ _. some FundDescription.active) interrupt s r (type_room FundType.waiting s r free)
          (few_items FundType.waiting s r few) (λ item h. (FundDescription.active, refl, refl))
          refl in
      (affected, left_of (limit_after (some amount) k), s', q', rw e refl, r')

  defer_unstaked-Repr :
      (amount : ℕ)
      → FewOf FundType.un_staked s
      → (left : ℕ) × (s' : Funds) × (q' : Queues) × (swap_unstaked_to_deferred_payment amount
            interrupt s
          ≡ ok (left, s'))
        × Repr s' q'
  unfolding swap_unstaked_to_deferred_payment type_eq
  defer_unstaked-Repr amount few =
      let (k, affected, s', q', e, r', moved, gave, others, top, order, done) =
        split_convert_max_by_type-Repr (some amount) FundType.un_staked FundType.deferred_payment
          forwards (λ item. unstaked_to_deferred item.fund_desc) interrupt s r
          (type_room FundType.un_staked s r free) (few_items FundType.un_staked s r few)
          (λ item h. unstaked_to_deferred-converts item.fund_desc h) refl in
      (left_of (limit_after (some amount) k), s', q', rw e refl, r')

  defer_active-Repr :
      (nonce amount : ℕ)
      → FewOf FundType.active s
      → (left : ℕ) × (s' : Funds) × (q' : Queues) × (swap_active_to_deferred_payment nonce amount
            interrupt s
          ≡ ok (left, s'))
        × Repr s' q'
  unfolding swap_active_to_deferred_payment fund_type type_eq
  defer_active-Repr nonce amount few =
      let (k, affected, s', q', e, r', moved, gave, others, top, order, done) =
        split_convert_max_by_type-Repr (some amount) FundType.active FundType.deferred_payment
          backwards (λ _. some (FundDescription.deferred_payment nonce)) interrupt s r
          (type_room FundType.active s r free) (few_items FundType.active s r few)
          (λ item h. (FundDescription.deferred_payment nonce, refl, refl)) refl in
      (left_of (limit_after (some amount) k), s', q', rw e refl, r')

create_waiting-kept :
    (nonce u amount : ℕ) (s : Funds) {q : Queues}
    → Repr s q
    → HalfFree s
    → (q' : Queues) × Repr (create_waiting nonce u amount s) q'
unfolding create_waiting
create_waiting-kept nonce u amount s {q} r free = (
  increase_queue u (FundDescription.waiting nonce) amount s q,
  increase_fund_balance-Repr u (FundDescription.waiting nonce) amount s r (omega (arith, free)),
)

liquidate-kept :
    (u : ℕ) (interrupt : ℕ → Bool) (s : Funds) {q : Queues}
    → Repr s q
    → (paid : ℕ) × (s' : Funds) × (q' : Queues) × (liquidate_all_withdraw_only u interrupt s
        ≡ ok (paid, s'))
      × Repr s' q'
unfolding liquidate_all_withdraw_only
liquidate-kept u interrupt s r =
    let (k, s', q', e, r', by_type, by_user, whole) =
      destroy_all_for_user-Repr u FundType.withdraw_only interrupt s r in
    (k, s', q', e, r')

FundsStep-Repr :
    {s s' : Funds} {q : Queues}
    → FundsStep s s'
    → HalfFree s
    → Repr s q
    → (q' : Queues) × Repr s' q'
FundsStep-Repr {s} (stake nonce u amount e) free r =
    let (q', r') = create_waiting-kept nonce u amount s r free in (q', subst (λ z. Repr z q') e r')
FundsStep-Repr {s} (withdraw_waiting u amount left e) free r =
    let (s1, q1, e1, r1, more) =
      swap_user_waiting_to_withdraw_only-Repr u amount s r
        (user_room u FundType.waiting s r free) in
    (q1, landed _ e1 e r1)
FundsStep-Repr {s} (unstake nonce u amount left e) free r =
    let (s1, q1, e1, r1, more) =
      swap_user_active_to_unstaked-Repr nonce u amount s r (user_room u FundType.active s r free) in
    (q1, landed _ e1 e r1)
FundsStep-Repr {s} (liquidate u paid interrupt e) free r =
    let (k, s1, q1, e1, r1) = liquidate-kept u interrupt s r in (q1, landed _ e1 e r1)
FundsStep-Repr {s} (activate amount interrupt affected left few e) free r =
    let (a, k, s1, q1, e1, r1) = activate-Repr s r free interrupt amount few in
    (q1, subst (λ z. Repr z q1) (activated e1 e) r1)
FundsStep-Repr {s} (defer_unstaked amount interrupt left few e) free r =
    let (k, s1, q1, e1, r1) = defer_unstaked-Repr s r free interrupt amount few in
    (q1, landed _ e1 e r1)
FundsStep-Repr {s} (defer_active nonce amount interrupt left few e) free r =
    let (k, s1, q1, e1, r1) = defer_active-Repr s r free interrupt nonce amount few in
    (q1, landed _ e1 e r1)

Reachable-Repr : {s : Funds} → Reachable s → (q : Queues) × Repr s q
Reachable-Repr start = (no_queues, empty_funds-Repr)
Reachable-Repr (next before free step) =
    let (q, r) = Reachable-Repr before in FundsStep-Repr step free r

-- In every storage that is reached from the empty one by these operations, with every operation at
-- most half of the ids used up, and at most 10000 items in the list that an operation for all users
-- walks: the summing loop over the list of a type returns the total of its header, that over a user's
-- list of a type returns the total of that header, and, where no fund belongs to a user id above n,
-- the totals of the user ids from 0 to n add up to the total of the type.
pub Reachable-totals :
    (n : ℕ) (t : FundType) {s : Funds}
    → Reachable s
    → ((x : ℕ) → (s.fund_by_id x).user_id ≤ n)
    → (query_sum_funds_by_type t (λ _ _. true) s ≡ ok (s.ftype t).total_balance)
      × ((u : ℕ) → query_sum_funds_by_user_type u t (λ _. true) s ≡ ok (s.fuser u t).total_balance)
      × (sum_users n (λ u. (s.fuser u t).total_balance) ≡ (s.ftype t).total_balance)
Reachable-totals n t {s} reached bound =
    let (q, r) = Reachable-Repr reached in
    (
      (query_sum_funds_by_type-eq-ok (λ _ _. true) t r).2,
      λ u. (query_sum_funds_by_user_type-eq-ok (λ _. true) u t r).2,
      type_total-sum_users n t s r bound,
    )
