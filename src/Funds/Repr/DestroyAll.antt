-- ===== src/Funds/Repr/DestroyAll.antt =====
-- `destroy_all_for_user` of fund_module.rs: the loop that deletes a user's funds of one type. It is
-- always at the first fund that is left.
use mx_delegation_sc.Base.{
  ℕ, zero, suc, ◌+◌, ◌<◌, ◌≡◌, sym, ap, ◌∙◌, ◌⊎◌, inl, inr, Bool, true, false, ◌||◌, ◌&&◌, List, [],
  arith, ◌==◌, if◌then◌else◌, has, length, Bool-cases,
}
use mx_delegation_sc.Base.Outcome.{ok}
use mx_delegation_sc.Funds.Types.{FundType, FundItem, type_eq, type_eq_refl}
use mx_delegation_sc.Funds.Store.{Funds, set_fund, forwards}
use mx_delegation_sc.Funds.Delete.{delete_fund}
use mx_delegation_sc.Funds.Convert.{loop_fuel, destroy_loop, destroy_all_for_user}
use mx_delegation_sc.Funds.Links.{remove}
use mx_delegation_sc.Funds.Repr.{ids, total, of_user, Queues, Repr, unext, uprev}
use mx_delegation_sc.Funds.Repr.Facts.{has-of_user, mem-of_user, of_user-Nodup}
use mx_delegation_sc.Funds.Repr.Shrink.{
  remove_entry, remove_entries, ids-remove_entry, of_user-remove_entry,
}
use mx_delegation_sc.Funds.Repr.Decrease.{delete_fund-Repr}
use mx_delegation_sc.Funds.Repr.Totals.{remove_entries-total, remove_entries-user_total}
use mx_delegation_sc.Funds.Repr.Walk.{length-remove, user_fuel}
use mx_delegation_sc.Funds.Repr.Ends.{end_of, Links-ends, end-mem, link-end, total-nil}

module _ (u : ℕ) (t : FundType) (interrupt : ℕ → Bool) where
  -- `k` left the user's list, and nothing else changed; unless interrupted, all of it did.
  abbrev Destroyed : Queues → Queues → ℕ → Type 0
  Destroyed q q' k =
      ((x : FundType) → total (q' x) + (if type_eq x t then k else 0) ≡ total (q x))
      × ((v : ℕ) (x : FundType)
          → total (of_user v (q' x)) + (if v == u && type_eq x t then k else 0)
            ≡ total (of_user v (q x)))
      × ((k ≡ total (of_user u (q t))) ⊎ ((n : ℕ) × (interrupt n ≡ true)))

  mine : Queues → List ℕ
  mine q = ids (of_user u (q t))

  destroy-step :
      (fuel n id tot : ℕ) (s : Funds) {balance : ℕ} {item : FundItem} {s' : Funds}
      → (id == 0 || interrupt n) ≡ false
      → delete_fund (s.fund_by_id id) s ≡ ok (balance, item, s')
      → destroy_loop interrupt (suc fuel) n id tot s
        ≡ destroy_loop interrupt fuel (suc n) (unext s id) (tot + balance) (set_fund id item s')
  unfolding destroy_loop
  destroy-step fuel n id tot s more e = rw (destroy_loop, more, e)

  destroy-stop :
      (fuel n id tot : ℕ) (s : Funds)
      → (id == 0 || interrupt n) ≡ true
      → destroy_loop interrupt (suc fuel) n id tot s ≡ ok (tot, s)
  unfolding destroy_loop
  destroy-stop fuel n id tot s stop = rw (destroy_loop, stop)

  module _ (n tot : ℕ) (s : Funds) {q : Queues} (r : Repr s q) where
    abbrev xs : List ℕ
    xs = ids (of_user u (q t))

    abbrev id : ℕ
    id = end_of forwards xs

    at_end : ((id ≡ 0) × (xs ≡ [])) ⊎ ((0 < id) × (has id xs ≡ true))
    at_end = end-mem (unext s) (uprev s) forwards _ xs _ (r.user_links u t)

    -- A loop that stops has destroyed all of the list, or was interrupted.
    stopped : (id == 0 || interrupt n) ≡ true → Destroyed q q 0
    stopped stop = (
      λ x. ground arith,
      λ v x. ground arith,
      elim at_end [
        | inl (is_zero, none_left) ↦ inl (omega (arith, total-nil (of_user u (q t)) none_left))
        | inr (pos, inside) ↦ inr (n, ground arith)
      ],
    )

    -- The first round: the first fund is deleted, and the next is the first of what is left.
    round :
        (id == 0 || interrupt n) ≡ false
        → (s' : Funds) × (q' : Queues) × ((fuel : ℕ)
            → destroy_loop interrupt (suc fuel) n id tot s
              ≡ destroy_loop interrupt fuel
                  (suc n)
                  (end_of forwards (ids (of_user u (q' t))))
                  (tot + (s.fund_by_id id).balance)
                  s')
          × Repr s' q'
          × (length xs ≡ suc (length (ids (of_user u (q' t)))))
          × ((x : FundType)
              → total (q' x) + (if type_eq x t then (s.fund_by_id id).balance else 0) ≡ total (q x))
          × ((v : ℕ) (x : FundType)
              → total (of_user v (q' x))
                  + (if v == u && type_eq x t then (s.fund_by_id id).balance else 0)
                ≡ total (of_user v (q x)))
    unfolding remove_entries
    round more =
        let inside : has id xs ≡ true = elim at_end [
          | inl (is_zero, none_left) ↦ ground arith
          | inr (pos, inside) ↦ inside
        ] in
        let (own, user, m) = mem-of_user r id u t inside in
        let (item, s1, e, kept, top, r') = delete_fund-Repr id s r m in
        let rest : ids (of_user u (remove_entry id (q t))) ≡ remove id xs =
          rw (of_user-remove_entry u id (q t) (r.distinct t))
            (ids-remove_entry id (of_user u (q t))) in
        let next : unext s id ≡ end_of forwards (remove id xs) =
          link-end (unext s) (uprev s) forwards _ xs _ (r.user_links u t)
            (of_user-Nodup u (q t) (r.distinct t)) inside in
        (
          set_fund id item s1,
          remove_entries id q,
          λ fuel.
              destroy-step fuel n id tot s more e
              ∙ ap
                  (λ z.
                    destroy_loop interrupt fuel (suc n) z (tot + (s.fund_by_id id).balance)
                      (set_fund id item s1))
                  (next ∙ sym (ap (end_of forwards) rest)),
          r',
          rw rest (length-remove id xs inside),
          remove_entries-total id 0 s r t (has-of_user id u (q t) inside),
          λ v x.
              rw user at (remove_entries-user_total id 0 s r t (has-of_user id u (q t) inside) v x),
        )

  destroy_loop-Repr :
      (fuel n tot : ℕ) (s : Funds) {q : Queues}
      → Repr s q
      → length (ids (of_user u (q t))) < fuel
      → (k : ℕ) × (s' : Funds) × (q' : Queues) × (destroy_loop interrupt fuel n
            (end_of forwards (ids (of_user u (q t))))
            tot
            s
          ≡ ok (tot + k, s'))
        × Repr s' q'
        × Destroyed q q' k
  destroy_loop-Repr zero n tot s {q} r room = absurd (omega arith)
  destroy_loop-Repr (suc fuel) n tot s {q} r room =
      elim (Bool-cases (end_of forwards (ids (of_user u (q t))) == 0 || interrupt n)) [
        | inl stop ↦ (
          0,
          s,
          q,
          rw (destroy-stop fuel n _ tot s stop) (ap (λ z. ok (z, s)) (omega arith)),
          r,
          stopped n tot s r stop,
        )
        | inr more ↦
            let (s1, q1, e, r1, shorter, by_type, by_user) = round n tot s r more in
            let b = (s.fund_by_id (id n tot s r)).balance in
            let (k, s', q', e', r', (by_type', by_user', whole)) =
              destroy_loop-Repr fuel (suc n) (tot + b) s1 r1 (omega arith) in
            (
              b + k,
              s',
              q',
              e fuel ∙ e' ∙ ap (λ z. ok (z, s')) (omega arith),
              r',
              (
                λ x. ground (arith, by_type x, by_type' x),
                λ v x. ground (arith, by_user v x, by_user' v x),
                elim whole [
                  | inl all ↦ inl (ground (arith, by_user u t, type_eq_refl t))
                  | inr stop ↦ inr stop
                ],
              ),
            )
      ]

-- Under the invariant, `destroy_all_for_user` returns for every limit of rounds that its closure
-- sets: the sum it returns is what the user's total of that type, and the total of the type, lost;
-- every other total is as before and the invariant is kept. Unless the closure interrupted the loop,
-- that sum is the whole of the user's total.
pub destroy_all_for_user-Repr :
    (u : ℕ) (t : FundType) (interrupt : ℕ → Bool) (s : Funds) {q : Queues}
    → Repr s q
    → (k : ℕ) × (s' : Funds) × (q' : Queues) × (destroy_all_for_user u t interrupt s ≡ ok (k, s'))
      × Repr s' q'
      × ((x : FundType)
          → (s'.ftype x).total_balance + (if type_eq x t then k else 0) ≡ (s.ftype x).total_balance)
      × ((v : ℕ) (x : FundType)
          → (s'.fuser v x).total_balance + (if v == u && type_eq x t then k else 0)
            ≡ (s.fuser v x).total_balance)
      × ((k ≡ (s.fuser u t).total_balance) ⊎ ((n : ℕ) × (interrupt n ≡ true)))
unfolding destroy_all_for_user
destroy_all_for_user-Repr u t interrupt s r =
    let (k, s', q', e, r', (by_type, by_user, whole)) =
      destroy_loop-Repr u t interrupt (loop_fuel s) 0 0 s r (user_fuel r u t) in
    let (first, last) = Links-ends (unext s) (uprev s) _ _ _ (r.user_links u t) in
    (
      k,
      s',
      q',
      rw first (e ∙ ap (λ z. ok (z, s')) (omega arith)),
      r',
      λ x. rw (r'.type_total x, r.type_total x) (by_type x),
      λ v x. rw (r'.user_total v x, r.user_total v x) (by_user v x),
      rw (r.user_total u t) whole,
    )
