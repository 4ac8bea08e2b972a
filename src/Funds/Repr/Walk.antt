-- ===== src/Funds/Repr/Walk.antt =====
-- The loops of fund_module.rs that read a whole list, against the queues.
use mx_delegation_sc.Base.{
  ℕ, zero, suc, ◌+◌, ◌≤◌, ◌<◌, ◌≡◌, refl, ◌∙◌, ap, Bool, true, false, List, [], ◌∷◌, arith, ◌==◌,
  if◌then◌else◌, has, length,
}
use mx_delegation_sc.Base.Outcome.{ok, ◌>>=◌}
use mx_delegation_sc.Funds.Types.{FundDescription, FundType, FundItem}
use mx_delegation_sc.Funds.Store.{Funds, forwards}
use mx_delegation_sc.Funds.Convert.{
  loop_fuel, type_successor, user_successor, first_id_of_type, first_id_of_user_type,
}
use mx_delegation_sc.Funds.Query.{
  walk, foreach_fund_by_type, foreach_fund_by_user_type, sum_balances, count_items,
  query_sum_funds_by_type, query_sum_funds_by_user_type, count_fund_items_by_type,
  count_fund_items_by_user_type,
}
use mx_delegation_sc.Funds.Links.{Links, Nodup, remove}
use mx_delegation_sc.Funds.Links.Delete.{remove-Nodup, has-remove, has-remove_self}
use mx_delegation_sc.Funds.Repr.{Entry, ids, total, of_user, Queues, AllHold, Repr, tprev, uprev}
use mx_delegation_sc.Funds.Repr.Facts.{id_bounds, of_user-Nodup, has-of_user}
use mx_delegation_sc.Funds.Repr.Rebalance.{AllHold-of_user}

pub length-remove : (a : ℕ) (xs : List ℕ) → has a xs ≡ true → length xs ≡ suc (length (remove a xs))
length-remove a [] m = cc
length-remove a (x ∷ xs) m = ground (arith, length-remove a xs)

remove_absent : (a : ℕ) (xs : List ℕ) → has a xs ≡ false → remove a xs ≡ xs
remove_absent a [] m = refl
remove_absent a (x ∷ xs) m = ground (arith, remove_absent a xs)

-- There are at most n different numbers from 1 to n.
pub Nodup-length :
    (n : ℕ) (xs : List ℕ)
    → Nodup xs
    → ((x : ℕ) → has x xs ≡ true → (0 < x) × (x ≤ n))
    → length xs ≤ n
Nodup-length zero [] d h = omega arith
Nodup-length zero (x ∷ xs) d h = absurd (omega (arith, h x (ground arith)))
Nodup-length (suc n) xs d h =
    let smaller =
      Nodup-length n (remove (suc n) xs) (remove-Nodup (suc n) xs d)
        λ x m. ground (arith, h x (has-remove x (suc n) xs m), has-remove_self (suc n) xs d) in
    ground (arith, length-remove (suc n) xs, remove_absent (suc n) xs)

abbrev pub items : Funds → List ℕ → List FundItem
items s [] = []
items s (x ∷ xs) = s.fund_by_id x ∷ items s xs

walk-step :
    (successor : FundItem → ℕ) (s : Funds) (fuel id : ℕ)
    → (id == 0) ≡ false
    → walk successor (suc fuel) id s ≡ (
        walk successor fuel (successor (s.fund_by_id id)) s >>= λ rest. ok (s.fund_by_id id ∷ rest))
unfolding walk
walk-step successor s fuel id more =
    ap
      (λ b. elim b [
        | true ↦ ok []
        | false ↦ walk successor fuel (successor (s.fund_by_id id)) s >>= λ rest.
            ok (s.fund_by_id id ∷ rest)
      ])
      more

-- A walk along links that lead through `xs` visits the items of `xs`.
pub walk-eq-ok :
    (successor : FundItem → ℕ) (pv : ℕ → ℕ) (s : Funds) (before first : ℕ) (xs : List ℕ) (last : ℕ)
    (fuel : ℕ)
    → Links (λ x. successor (s.fund_by_id x)) pv before first xs last
    → length xs < fuel
    → walk successor fuel first s ≡ ok (items s xs)
unfolding walk
walk-eq-ok successor pv s before first xs last zero h room = absurd (omega arith)
walk-eq-ok successor pv s before first [] last (suc fuel) (e, end) room = rw e
walk-eq-ok successor pv s before first (x ∷ xs) last (suc fuel) (e, pos, back, rest) room =
    let more : (x == 0) ≡ false = ground arith in
    rw (
      e,
      walk-step successor s fuel x more,
      walk-eq-ok successor pv s x (successor (s.fund_by_id x)) xs last fuel rest (omega arith),
    )

-- The balances, or the number, of the entries that a test accepts.
abbrev pub total_where : (ℕ → FundDescription → Bool) → List Entry → ℕ
total_where filter [] = 0
total_where filter (e ∷ es) =
    (if filter e.user e.desc then e.balance else 0) + total_where filter es

abbrev pub count_where : (ℕ → FundDescription → Bool) → List Entry → ℕ
count_where filter [] = 0
count_where filter (e ∷ es) = (if filter e.user e.desc then 1 else 0) + count_where filter es

sum_balances-items :
    (filter : ℕ → FundDescription → Bool) (s : Funds) (t : FundType) (es : List Entry)
    → AllHold s t es
    → sum_balances (λ f. filter f.user_id f.fund_desc) (items s (ids es)) ≡ total_where filter es
unfolding sum_balances
sum_balances-items filter s t [] h = refl
sum_balances-items filter s t (e ∷ es) (h, hs) =
    rw (h.user, h.desc, h.balance, sum_balances-items filter s t es hs)

count_items-items :
    (filter : ℕ → FundDescription → Bool) (s : Funds) (t : FundType) (es : List Entry)
    → AllHold s t es
    → count_items (λ f. filter f.user_id f.fund_desc) (items s (ids es)) ≡ count_where filter es
unfolding count_items
count_items-items filter s t [] h = refl
count_items-items filter s t (e ∷ es) (h, hs) =
    rw (h.user, h.desc, count_items-items filter s t es hs)

total_where-all : (es : List Entry) → total_where (λ _ _. true) es ≡ total es
total_where-all [] = refl
total_where-all (e ∷ es) = rw (total_where-all es)

module _ {s : Funds} {q : Queues} (r : Repr s q) where
  pub type_fuel : (t : FundType) → length (ids (q t)) < loop_fuel s
  type_fuel t = omega (
    arith,
    Nodup-length s.f_max_id (ids (q t)) (r.distinct t) (λ x m. id_bounds s t (q t) x (r.holds t) m),
  )

  pub user_fuel : (u : ℕ) (t : FundType) → length (ids (of_user u (q t))) < loop_fuel s
  user_fuel u t = omega (
    arith,
    Nodup-length s.f_max_id (ids (of_user u (q t))) (of_user-Nodup u (q t) (r.distinct t))
        (λ x m. id_bounds s t (q t) x (r.holds t) (has-of_user x u (q t) m)),
  )

  foreach_fund_by_type-eq-ok :
      (t : FundType) → foreach_fund_by_type t forwards s ≡ ok (items s (ids (q t)))
  unfolding foreach_fund_by_type first_id_of_type
  foreach_fund_by_type-eq-ok t =
      walk-eq-ok (type_successor forwards) (tprev s) s 0 (s.ftype t).first (ids (q t))
        (s.ftype t).last (loop_fuel s) (r.type_links t) (type_fuel t)

  foreach_fund_by_user_type-eq-ok :
      (u : ℕ) (t : FundType)
      → foreach_fund_by_user_type u t forwards s ≡ ok (items s (ids (of_user u (q t))))
  unfolding foreach_fund_by_user_type first_id_of_user_type
  foreach_fund_by_user_type-eq-ok u t =
      walk-eq-ok (user_successor forwards) (uprev s) s 0 (s.fuser u t).first (ids (of_user u (q t)))
        (s.fuser u t).last (loop_fuel s) (r.user_links u t) (user_fuel u t)

-- Under the invariant, the summing and the counting loop over the list of a type end within their
-- fuel, with the sum of the balances and with the number of the queue's entries that the test
-- accepts; without a test the sum is the total of the list's header.
pub query_sum_funds_by_type-eq-ok :
    {s : Funds} {q : Queues} (filter : ℕ → FundDescription → Bool) (t : FundType)
    → Repr s q
    → (query_sum_funds_by_type t filter s ≡ ok (total_where filter (q t)))
      × (count_fund_items_by_type t (λ f. filter f.user_id f.fund_desc) s
          ≡ ok (count_where filter (q t)))
      × (query_sum_funds_by_type t (λ _ _. true) s ≡ ok (s.ftype t).total_balance)
unfolding query_sum_funds_by_type count_fund_items_by_type
query_sum_funds_by_type-eq-ok {s} {q} filter t r = (
  rw (foreach_fund_by_type-eq-ok r t) (ap ok (sum_balances-items filter s t (q t) (r.holds t))),
  rw (foreach_fund_by_type-eq-ok r t) (ap ok (count_items-items filter s t (q t) (r.holds t))),
  rw (foreach_fund_by_type-eq-ok r t, r.type_total t)
      (ap ok (sum_balances-items (λ _ _. true) s t (q t) (r.holds t) ∙ total_where-all (q t))),
)

-- Under the invariant, the summing and the counting loop over a user's list of a type end within
-- their fuel, with the sum of the balances and with the number of the entries of the user's part of
-- the queue that the test accepts; without a test the sum is the total of that list's header.
pub query_sum_funds_by_user_type-eq-ok :
    {s : Funds} {q : Queues} (filter : FundDescription → Bool) (u : ℕ) (t : FundType)
    → Repr s q
    → (query_sum_funds_by_user_type u t filter s ≡ ok (total_where (λ _. filter) (of_user u (q t))))
      × (count_fund_items_by_user_type u t filter s
          ≡ ok (count_where (λ _. filter) (of_user u (q t))))
      × (query_sum_funds_by_user_type u t (λ _. true) s ≡ ok (s.fuser u t).total_balance)
unfolding query_sum_funds_by_user_type count_fund_items_by_user_type
query_sum_funds_by_user_type-eq-ok {s} {q} filter u t r =
    let own = of_user u (q t) in
    let held = AllHold-of_user s t u (q t) (r.holds t) in
    (
      rw (foreach_fund_by_user_type-eq-ok r u t)
          (ap ok (sum_balances-items (λ _. filter) s t own held)),
      rw (foreach_fund_by_user_type-eq-ok r u t)
          (ap ok (count_items-items (λ _. filter) s t own held)),
      rw (foreach_fund_by_user_type-eq-ok r u t, r.user_total u t)
          (ap ok (sum_balances-items (λ _ _. true) s t own held ∙ total_where-all own)),
    )
