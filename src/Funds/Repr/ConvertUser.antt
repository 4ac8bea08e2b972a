-- ===== src/Funds/Repr/ConvertUser.antt =====
-- `split_convert_max_by_user` of fund_module.rs, for a closure that converts every fund of the
-- source type: the loop is always at the end of what is left of the user's list.
use mx_delegation_sc.Base.{
  ℕ, zero, suc, ◌+◌, ◌-◌, ◌^◌, ◌≤◌, ◌<◌, ◌≡◌, refl, sym, ap, ◌∙◌, ◌⊎◌, inl, inr, Bool, true, false,
  ◌||◌, List, [], Option, some, arith, ◌==◌, has, length, leb, Bool-cases,
}
use mx_delegation_sc.Base.Outcome.{ok}
use mx_delegation_sc.Funds.Types.{
  FundDescription, FundType, FundItem, fund_type, type_eq, type_eq_sym,
}
use mx_delegation_sc.Funds.Store.{Funds, set_fund, SwapDirection, forwards, backwards}
use mx_delegation_sc.Funds.Delete.{split_convert_individual_fund}
use mx_delegation_sc.Funds.Convert.{
  UserSwap, convert_user_step, convert_user_loop, user_successor, is_drained,
}
use mx_delegation_sc.Funds.Links.{remove}
use mx_delegation_sc.Funds.Repr.{ids, total, of_user, Queues, Repr, unext, uprev}
use mx_delegation_sc.Funds.Repr.Facts.{mem-of_user, of_user-Nodup}
use mx_delegation_sc.Funds.Repr.Shrink.{ids-remove_entry, of_user-remove_entry, total-remove_entry}
use mx_delegation_sc.Funds.Repr.Rebalance.{AllHold-of_user}
use mx_delegation_sc.Funds.Repr.Decrease.{decrease_queue-whole}
use mx_delegation_sc.Funds.Repr.SplitConvert.{limit_of, limit_after, split_convert-Repr}
use mx_delegation_sc.Funds.Repr.Walk.{length-remove}
use mx_delegation_sc.Funds.Repr.Ends.{end_of, link_of, end-mem, link-end, total-nil}
use mx_delegation_sc.Funds.Repr.Moved.{ConvertsAll, Moved, Moved-trans, Moved-source}
use mx_delegation_sc.Funds.Repr.Limits.{
  within, limit_after-within, limit_after_twice, limit_after_zero, within_zero, within_drained,
  within-whole, within-part,
}

abbrev swap_at : (opt : Option ℕ) (id total_transformed : ℕ) → Funds → UserSwap
swap_at opt id total_transformed s = record {
  opt_max = opt;
  id = id;
  total_transformed = total_transformed;
  funds = s;
}

user_successor-link :
    (direction : SwapDirection) (s : Funds) (id : ℕ)
    → user_successor direction (s.fund_by_id id) ≡ link_of direction (unext s) (uprev s) id
user_successor-link forwards s id = refl
user_successor-link backwards s id = refl

module _ (u : ℕ) (t t' : FundType) (direction : SwapDirection)
    (filter_transform : FundDescription → Option FundDescription) (interrupt : ℕ → Bool) where
  abbrev stops : ℕ → UserSwap → Bool
  stops n st = st.id == 0 || interrupt n || is_drained st.opt_max

  convert_user-stop :
      (fuel n : ℕ) (st : UserSwap)
      → 0 < fuel
      → stops n st ≡ true
      → convert_user_loop direction filter_transform interrupt fuel n st ≡ ok st
  unfolding convert_user_loop
  convert_user-stop zero n st enough stop = absurd (omega arith)
  convert_user-stop (suc fuel) n st enough stop = rw (convert_user_loop, stop)

  convert_user-step :
      (fuel n : ℕ) (st : UserSwap) {d : FundDescription} {k : ℕ} {opt : Option ℕ} {item : FundItem}
      {s' : Funds}
      → stops n st ≡ false
      → filter_transform (st.funds.fund_by_id st.id).fund_desc ≡ some d
      → split_convert_individual_fund st.opt_max d (st.funds.fund_by_id st.id) st.funds
        ≡ ok (k, opt, item, s')
      → convert_user_loop direction filter_transform interrupt (suc fuel) n st
        ≡ convert_user_loop direction filter_transform interrupt fuel (suc n) (record {
          opt_max = opt;
          id = user_successor direction (st.funds.fund_by_id st.id);
          total_transformed = st.total_transformed + k;
          funds = set_fund st.id item s';
        })
  unfolding convert_user_loop convert_user_step
  convert_user-step fuel n st more e1 e2 = rw (convert_user_loop, more, convert_user_step, e1, e2)

  ended :
      (id : ℕ) (s : Funds) {opt opt' : Option ℕ} {tot tot' : ℕ}
      → opt ≡ opt'
      → tot ≡ tot'
      → ok (swap_at opt id tot s) ≡ ok (swap_at opt' id tot' s)
  ended id s e1 e2 = rw (e1, e2)

  module _ (converts : ConvertsAll t t' filter_transform) (other : type_eq t' t ≡ false) where
    module _ (n tot : ℕ) (opt : Option ℕ) (s : Funds) {q : Queues} (r : Repr s q) where
      abbrev xs : List ℕ
      xs = ids (of_user u (q t))

      abbrev id : ℕ
      id = end_of direction xs

      abbrev start : UserSwap
      start = record { opt_max = opt; id = id; total_transformed = tot; funds = s }

      abbrev b : ℕ
      b = (s.fund_by_id id).balance

      at_end : ((id ≡ 0) × (xs ≡ [])) ⊎ ((0 < id) × (has id xs ≡ true))
      at_end = end-mem (unext s) (uprev s) direction _ xs _ (r.user_links u t)

      -- A loop that stops is at the end of the list, was interrupted, or has used up the limit.
      stopped :
          stops n start ≡ true
          → (0 ≡ within opt (total (of_user u (q t)))) ⊎ ((m : ℕ) × (interrupt m ≡ true))
      stopped stop = elim (Bool-cases (is_drained opt)) [
        | inl drained ↦ inl (sym (within_drained opt _ drained))
        | inr wet ↦ elim at_end [
          | inl (is_zero, none_left) ↦
              inl (rw (total-nil (of_user u (q t)) none_left) (sym (within_zero opt)))
          | inr (pos, inside) ↦ inr (n, ground arith)
        ]
      ]

      -- The first round converts the fund at the end of the list. Either it is whole, and the next
      -- is at the end of what is left, or the limit is used up.
      round :
          stops n start ≡ false
          → s.f_max_id + length xs < 2 ^ 32
          → (s' : Funds) × (q' : Queues) × (id' : ℕ) × ((fuel : ℕ)
              → convert_user_loop direction filter_transform interrupt (suc fuel) n start
                ≡ convert_user_loop direction filter_transform interrupt fuel (suc n) (record {
                  opt_max = limit_after opt b;
                  id = id';
                  total_transformed = tot + within opt b;
                  funds = s';
                }))
            × Repr s' q'
            × (s'.f_max_id ≤ s.f_max_id + 1)
            × (0 < length xs)
            × (b ≤ total (of_user u (q t)))
            × Moved u t t' q q' (within opt b)
            × (((leb b (limit_of opt b) ≡ true)
                  × (id' ≡ end_of direction (ids (of_user u (q' t))))
                  × (length xs ≡ suc (length (ids (of_user u (q' t))))))
                ⊎ (leb b (limit_of opt b) ≡ false))
      unfolding set_fund
      round more room =
          let inside : has id xs ≡ true = elim at_end [
            | inl (is_zero, none_left) ↦ ground arith
            | inr (pos, inside) ↦ inside
          ] in
          let (own, user, m) = mem-of_user r id u t inside in
          let (d, e1, target) = converts (s.fund_by_id id).fund_desc own in
          let apart : type_eq (fund_type d) (fund_type (s.fund_by_id id).fund_desc) ≡ false =
            rw (target, own) other in
          let (item, s1, q1, e2, r1, top, sources, by_type, by_user) =
            split_convert-Repr id s r m opt d apart (omega (arith, length-remove id xs inside)) in
          let next : user_successor direction (s.fund_by_id id) ≡ end_of direction (remove id xs) =
            user_successor-link direction s id
            ∙ link-end (unext s) (uprev s) direction _ xs _ (r.user_links u t)
                (of_user-Nodup u (q t) (r.distinct t)) inside in
          let rest : leb b (limit_of opt b) ≡ true → ids (of_user u (q1 t)) ≡ remove id xs = λ all.
            ap (λ y. ids (of_user u y))
              (sources t (rw target (type_eq_sym t t' ∙ other))
                ∙ decrease_queue-whole id (limit_of opt b) s q t all)
            ∙ ap ids (of_user-remove_entry u id (q t) (r.distinct t))
            ∙ ids-remove_entry id (of_user u (q t)) in
          (
            set_fund id item s1,
            q1,
            user_successor direction (s.fund_by_id id),
            λ fuel. convert_user-step fuel n start more e1 e2,
            r1,
            top,
            omega (arith, length-remove id xs inside),
            omega (
              arith,
              total-remove_entry s t id (of_user u (q t)) (AllHold-of_user s t u (q t) (r.holds t))
                  inside,
            ),
            (λ x. rw (own, target) at (by_type x), λ v x. rw (own, user, target) at (by_user v x)),
            elim (Bool-cases (leb b (limit_of opt b))) [
              | inl all ↦ inl (
                all,
                next ∙ sym (ap (end_of direction) (rest all)),
                rw (rest all) (length-remove id xs inside),
              )
              | inr part ↦ inr part
            ],
          )

    pub convert_user_loop-Repr :
        (fuel n tot : ℕ) (opt : Option ℕ) (s : Funds) {q : Queues}
        → Repr s q
        → length (ids (of_user u (q t))) < fuel
        → s.f_max_id + length (ids (of_user u (q t))) < 2 ^ 32
        → (k : ℕ) × (id' : ℕ) × (s' : Funds) × (q' : Queues) × (convert_user_loop direction
              filter_transform interrupt fuel n
              (record {
                opt_max = opt;
                id = end_of direction (ids (of_user u (q t)));
                total_transformed = tot;
                funds = s;
              })
            ≡ ok (record {
              opt_max = limit_after opt k;
              id = id';
              total_transformed = tot + k;
              funds = s';
            }))
          × Repr s' q'
          × Moved u t t' q q' k
          × ((k ≡ within opt (total (of_user u (q t)))) ⊎ ((m : ℕ) × (interrupt m ≡ true)))
    convert_user_loop-Repr zero n tot opt s r fuel_enough room = absurd (omega arith)
    convert_user_loop-Repr (suc fuel) n tot opt s {q} r fuel_enough room =
        elim (Bool-cases (stops n (start n tot opt s r))) [
          | inl stop ↦ (
            0,
            end_of direction (ids (of_user u (q t))),
            s,
            q,
            convert_user-stop (suc fuel) n (start n tot opt s r) (omega arith) stop
                ∙ ended _ s (sym (limit_after_zero opt)) (omega arith),
            r,
            (λ x. ground arith, λ v x. ground arith),
            stopped n tot opt s r stop,
          )
          | inr more ↦
              let (s1, q1, id', e, r1, top, some_left, covered, moved, which) =
                round n tot opt s r more room in
              let source_target : type_eq t t' ≡ false = type_eq_sym t t' ∙ other in
              let b0 = b n tot opt s r in
              elim which [
                | inl (all, at_next, shorter) ↦
                    let (whole, rest) = within-whole opt b0 (total (of_user u (q1 t))) all in
                    let sum : b0 + total (of_user u (q1 t)) ≡ total (of_user u (q t)) =
                      omega (arith, whole, Moved-source u t t' q q1 _ source_target moved) in
                    let (k, id'', s', q', e', r', moved', done) =
                      convert_user_loop-Repr fuel (suc n) (tot + within opt b0) (limit_after opt b0)
                        s1 r1 (omega arith) (omega arith) in
                    (
                      within opt b0 + k,
                      id'',
                      s',
                      q',
                      e fuel
                          ∙ ap
                              (λ z.
                                convert_user_loop direction filter_transform interrupt fuel (suc n)
                                  (swap_at (limit_after opt b0) z (tot + within opt b0) s1))
                              at_next
                          ∙ e'
                          ∙ ended id'' s'
                              (ap (λ o. limit_after o k) (limit_after-within opt b0)
                                ∙ limit_after_twice opt (within opt b0) k)
                              (omega arith),
                      r',
                      Moved-trans u t t' q q1 q' _ k moved moved',
                      elim done [
                        | inl all_done ↦
                            inl (omega (arith, whole, all_done, rest, ap (within opt) sum))
                        | inr stop ↦ inr stop
                      ],
                    )
                | inr part ↦
                    let sum : b0 + (total (of_user u (q t)) - b0) ≡ total (of_user u (q t)) =
                      omega (arith, covered) in
                    let (drained, same) = within-part opt b0 (total (of_user u (q t)) - b0) part in
                    (
                      within opt b0,
                      id',
                      s1,
                      q1,
                      e fuel
                          ∙ convert_user-stop fuel (suc n) _ (omega arith) (ground (arith, drained))
                          ∙ ended id' s1 (limit_after-within opt b0) refl,
                      r1,
                      moved,
                      inl (same ∙ ap (within opt) sum),
                    )
              ]
        ]
