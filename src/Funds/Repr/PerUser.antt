-- ===== src/Funds/Repr/PerUser.antt =====
-- The total of a type against the totals of its users.
use mx_delegation_sc.Base.{
  ℕ, zero, suc, ◌+◌, ◌≤◌, ◌<◌, ◌≡◌, refl, ◌∙◌, List, [], ◌∷◌, arith, ◌==◌, if◌then◌else◌, inl, inr,
  Bool-cases,
}
use mx_delegation_sc.Funds.Types.{FundType}
use mx_delegation_sc.Funds.Store.{Funds}
use mx_delegation_sc.Funds.Repr.{Entry, total, of_user, Queues, AllHold, Repr}

-- The sum over the user ids from 0 to n.
abbrev pub sum_users : ℕ → (ℕ → ℕ) → ℕ
sum_users zero f = f 0
sum_users (suc n) f = sum_users n f + f (suc n)

sum_users_cong : (n : ℕ) (f g : ℕ → ℕ) → ((u : ℕ) → f u ≡ g u) → sum_users n f ≡ sum_users n g
sum_users_cong zero f g h = h 0
sum_users_cong (suc n) f g h = rw (sum_users_cong n f g h, h (suc n))

sum_users_zero : (n : ℕ) → sum_users n (λ _. 0) ≡ 0
sum_users_zero zero = refl
sum_users_zero (suc n) = omega (arith, sum_users_zero n)

-- One user's share grows: the sum grows by as much, if the user is among those summed.
sum_users-above :
    (n k b : ℕ) (f : ℕ → ℕ)
    → n < k
    → sum_users n (λ u. if k == u then b + f u else f u) ≡ sum_users n f
sum_users-above zero k b f h = ground arith
sum_users-above (suc n) k b f h = ground (arith, sum_users-above n k b f)

sum_users-add :
    (n k b : ℕ) (f : ℕ → ℕ)
    → k ≤ n
    → sum_users n (λ u. if k == u then b + f u else f u) ≡ b + sum_users n f
sum_users-add zero k b f h = ground arith
sum_users-add (suc n) k b f h = elim (Bool-cases (k == suc n)) [
  | inl last ↦ rw last (omega (arith, sum_users-above n k b f (ground arith)))
  | inr before ↦ rw before (omega (arith, sum_users-add n k b f (ground arith)))
]

total-of_user_cons :
    (e : Entry) (es : List Entry) (u : ℕ)
    → total (of_user u (e ∷ es))
      ≡ (if e.user == u then e.balance + total (of_user u es) else total (of_user u es))
total-of_user_cons e es u = ground arith

total-sum_users :
    (n : ℕ) (s : Funds) (t : FundType) (es : List Entry)
    → AllHold s t es
    → ((x : ℕ) → (s.fund_by_id x).user_id ≤ n)
    → sum_users n (λ u. total (of_user u es)) ≡ total es
total-sum_users n s t [] h bound = sum_users_zero n
total-sum_users n s t (e ∷ es) (h, hs) bound =
    sum_users_cong n _ _ (total-of_user_cons e es)
    ∙ sum_users-add n e.user e.balance (λ u. total (of_user u es))
        (ground (arith, h.user, bound e.id))
    ∙ rw (total-sum_users n s t es hs bound) refl

-- Under the invariant, where no fund belongs to a user id above n, the header total of a type is the
-- sum of the header totals of that type of the user ids from 0 to n.
pub type_total-sum_users :
    (n : ℕ) (t : FundType) (s : Funds) {q : Queues}
    → Repr s q
    → ((x : ℕ) → (s.fund_by_id x).user_id ≤ n)
    → sum_users n (λ u. (s.fuser u t).total_balance) ≡ (s.ftype t).total_balance
type_total-sum_users n t s {q} r bound =
    sum_users_cong n _ _ (λ u. r.user_total u t)
    ∙ total-sum_users n s t (q t) (r.holds t) bound
    ∙ rw (r.type_total t) refl
