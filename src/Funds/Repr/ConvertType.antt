-- ===== src/Funds/Repr/ConvertType.antt =====
-- `split_convert_max_by_type` of fund_module.rs, for a closure that converts every item of the
-- source type: the loop is always at the end of what is left of the list.
use mx_delegation_sc.Base.{
  ℕ, zero, suc, ◌+◌, ◌-◌, ◌^◌, ◌≤◌, ◌<◌, ◌≡◌, refl, sym, ap, ◌∙◌, ◌⊎◌, inl, inr, Bool, true, false,
  ◌||◌, List, [], ◌∷◌, ◌++◌, Option, some, arith, ◌==◌, has, has-append, length, length-append, leb,
  ltb, lt→ltb, Bool-cases,
}
use mx_delegation_sc.Base.Outcome.{ok}
use mx_delegation_sc.Funds.Types.{
  FundDescription, FundType, FundItem, fund_type, type_eq, type_eq_sym,
}
use mx_delegation_sc.Funds.Store.{Funds, set_fund, SwapDirection, forwards, backwards}
use mx_delegation_sc.Funds.Delete.{split_convert_individual_fund}
use mx_delegation_sc.Funds.Convert.{
  TypeSwap, FilterTransform, convert_item, convert_type_step, convert_type_loop, type_successor,
  is_drained,
}
use mx_delegation_sc.Funds.AffectedUsers.{try_push, max_affected_users}
use mx_delegation_sc.Funds.Links.{remove}
use mx_delegation_sc.Funds.Repr.{ids, total, Queues, Repr, tnext, tprev}
use mx_delegation_sc.Funds.Repr.Facts.{type-of_mem, apart_mem}
use mx_delegation_sc.Funds.Repr.Shrink.{remove_entry, ids-remove_entry, total-remove_entry}
use mx_delegation_sc.Funds.Repr.Decrease.{
  decrease_queue-whole, decrease_queue-part, decrease_queue-absent,
}
use mx_delegation_sc.Funds.Repr.SplitConvert.{limit_of, limit_after, split_convert-Repr}
use mx_delegation_sc.Funds.Repr.Walk.{length-remove}
use mx_delegation_sc.Funds.Repr.Ends.{end_of, link_of, end-mem, link-end, total-nil}
use mx_delegation_sc.Funds.Repr.Moved.{
  ConvertsItems, TypeMoved, TypeMoved-trans, TypeMoved-source, Gave, Gave-none, Gave-one,
  Gave-trans, Apart,
}
use mx_delegation_sc.Funds.Repr.Order.{toward, spend, spend_zero, spend-remove, spend-split}
use mx_delegation_sc.Funds.Repr.Limits.{
  within, limit_after-within, limit_after_twice, limit_after_zero, within_zero, within_drained,
  within-whole, within-limit, within-part,
}

abbrev pub swap_at : (opt : Option ℕ) (id : ℕ) (affected : List ℕ) → Funds → TypeSwap
swap_at opt id affected s = record { opt_max = opt; id = id; affected = affected; funds = s }

type_successor-link :
    (direction : SwapDirection) (s : Funds) (id : ℕ)
    → type_successor direction (s.fund_by_id id) ≡ link_of direction (tnext s) (tprev s) id
type_successor-link forwards s id = refl
type_successor-link backwards s id = refl

module _ (t t' : FundType) (direction : SwapDirection) (filter_transform : FilterTransform)
    (interrupt : ℕ → Bool) where
  abbrev stops : ℕ → TypeSwap → Bool
  stops n st = st.id == 0 || interrupt n || is_drained st.opt_max

  convert_type-stop :
      (fuel n : ℕ) (st : TypeSwap)
      → 0 < fuel
      → stops n st ≡ true
      → convert_type_loop direction filter_transform interrupt false fuel n st ≡ ok st
  unfolding convert_type_loop
  convert_type-stop zero n st enough stop = absurd (omega arith)
  convert_type-stop (suc fuel) n st enough stop = rw (convert_type_loop, stop)

  convert_type-step :
      (fuel n : ℕ) (st : TypeSwap) {d : FundDescription} {k : ℕ} {opt : Option ℕ} {item : FundItem}
      {s' : Funds}
      → stops n st ≡ false
      → length st.affected < max_affected_users
      → filter_transform (st.funds.fund_by_id st.id) ≡ some d
      → split_convert_individual_fund st.opt_max d (st.funds.fund_by_id st.id) st.funds
        ≡ ok (k, opt, item, s')
      → convert_type_loop direction filter_transform interrupt false (suc fuel) n st
        ≡ convert_type_loop direction filter_transform interrupt false fuel (suc n) (record {
          opt_max = opt;
          id = type_successor direction (st.funds.fund_by_id st.id);
          affected = st.affected ++ (st.funds.fund_by_id st.id).user_id ∷ [];
          funds = set_fund st.id item s';
        })
  unfolding convert_type_loop convert_type_step convert_item try_push
  convert_type-step fuel n st more few e1 e2 =
      let pushes : ltb (length st.affected) max_affected_users ≡ true = lt→ltb _ _ few in
      rw (convert_type_loop, more, convert_type_step, pushes, e1, e2)

  ended :
      (id : ℕ) (s : Funds) {opt opt' : Option ℕ} (affected : List ℕ)
      → opt ≡ opt'
      → ok (swap_at opt id affected s) ≡ ok (swap_at opt' id affected s)
  ended id s affected e = rw e

  module _ (converts : ConvertsItems t t' filter_transform) (other : type_eq t' t ≡ false) where
    module _ (n : ℕ) (affected : List ℕ) (opt : Option ℕ) (s : Funds) {q : Queues}
        (r : Repr s q) where
      abbrev xs : List ℕ
      xs = ids (q t)

      abbrev id : ℕ
      id = end_of direction xs

      abbrev start : TypeSwap
      start = record { opt_max = opt; id = id; affected = affected; funds = s }

      abbrev b : ℕ
      b = (s.fund_by_id id).balance

      at_end : ((id ≡ 0) × (xs ≡ [])) ⊎ ((0 < id) × (has id xs ≡ true))
      at_end = end-mem (tnext s) (tprev s) direction _ xs _ (r.type_links t)

      -- A loop that stops is at the end of the list, was interrupted, or has used up the limit.
      stopped :
          stops n start ≡ true → (0 ≡ within opt (total (q t))) ⊎ ((m : ℕ) × (interrupt m ≡ true))
      stopped stop = elim (Bool-cases (is_drained opt)) [
        | inl drained ↦ inl (sym (within_drained opt _ drained))
        | inr wet ↦ elim at_end [
          | inl (is_zero, none_left) ↦ inl (rw (total-nil (q t) none_left) (sym (within_zero opt)))
          | inr (pos, inside) ↦ inr (n, ground arith)
        ]
      ]

      -- The first round converts the fund at the end of the list. Either it is whole, and the next
      -- is at the end of what is left, or the limit is used up.
      pub round :
          stops n start ≡ false
          → s.f_max_id + length xs < 2 ^ 32
          → length affected + length xs ≤ max_affected_users
          → (s' : Funds) × (q' : Queues) × (id' : ℕ) × ((fuel : ℕ)
              → convert_type_loop direction filter_transform interrupt false (suc fuel) n start
                ≡ convert_type_loop direction filter_transform interrupt false fuel
                    (suc n)
                    (record {
                      opt_max = limit_after opt b;
                      id = id';
                      affected = affected ++ (s.fund_by_id id).user_id ∷ [];
                      funds = s';
                    }))
            × Repr s' q'
            × (s'.f_max_id ≤ s.f_max_id + 1)
            × (0 < length xs)
            × (b ≤ total (q t))
            × TypeMoved t t' q q' (within opt b)
            × ((v : ℕ) → Gave t t' q q' (affected ++ (s.fund_by_id id).user_id ∷ []) v)
            × Apart t t' q q'
            × (leb b (limit_of opt b) ≡ true
                → (k : ℕ)
                → spend k (toward direction (q' t))
                  ≡ spend (within opt b + k) (toward direction (q t)))
            × (leb b (limit_of opt b) ≡ false
                → toward direction (q' t) ≡ spend (within opt b) (toward direction (q t)))
            × (((leb b (limit_of opt b) ≡ true)
                  × (q' t ≡ remove_entry id (q t))
                  × (id' ≡ end_of direction (ids (q' t)))
                  × (length xs ≡ suc (length (ids (q' t)))))
                ⊎ (leb b (limit_of opt b) ≡ false))
      unfolding set_fund
      round more room few =
          let inside : has id xs ≡ true = elim at_end [
            | inl (is_zero, none_left) ↦ ground arith
            | inr (pos, inside) ↦ inside
          ] in
          let own : fund_type (s.fund_by_id id).fund_desc ≡ t =
            type-of_mem s t (q t) id (r.holds t) inside in
          let m : has id (ids (q (fund_type (s.fund_by_id id).fund_desc))) ≡ true = rw own inside in
          let (d, e1, target) = converts (s.fund_by_id id) own in
          let apart : type_eq (fund_type d) (fund_type (s.fund_by_id id).fund_desc) ≡ false =
            rw (target, own) other in
          let (item, s1, q1, e2, r1, top, sources, by_type, by_user) =
            split_convert-Repr id s r m opt d apart (omega (arith, length-remove id xs inside)) in
          let next : type_successor direction (s.fund_by_id id) ≡ end_of direction (remove id xs) =
            type_successor-link direction s id
            ∙ link-end (tnext s) (tprev s) direction _ xs _ (r.type_links t) (r.distinct t)
                inside in
          let left : leb b (limit_of opt b) ≡ true → q1 t ≡ remove_entry id (q t) = λ all.
            sources t (rw target (type_eq_sym t t' ∙ other))
            ∙ decrease_queue-whole id (limit_of opt b) s q t all in
          let rest : leb b (limit_of opt b) ≡ true → ids (q1 t) ≡ remove id xs =
            λ all. ap ids (left all) ∙ ids-remove_entry id (q t) in
          (
            set_fund id item s1,
            q1,
            type_successor direction (s.fund_by_id id),
            λ fuel.
                convert_type-step fuel n start more (omega (arith, length-remove id xs inside)) e1
                  e2,
            r1,
            top,
            omega (arith, length-remove id xs inside),
            omega (arith, total-remove_entry s t id (q t) (r.holds t) inside),
            λ x. rw (own, target) at (by_type x),
            λ v. Gave-one t t' q q1 _ _ affected v λ x. rw (own, target) at (by_user v x),
            λ x ne ne'.
                sources x (rw target ne')
                ∙ decrease_queue-absent id _ s q x (apart_mem r id t x inside ne),
            λ all k.
                ap (λ z. spend k (toward direction z)) (left all)
                ∙ spend-remove s t direction k (q t) (r.holds t) (r.distinct t) inside
                ∙ ap (λ n. spend (n + k) (toward direction (q t)))
                    (sym (within-whole opt b 0 all).0),
            λ part.
                ap (toward direction) (
                  sources t (rw target (type_eq_sym t t' ∙ other))
                  ∙ decrease_queue-part id (limit_of opt b) s q t part)
                ∙ spend-split s t direction (limit_of opt b) (q t) (r.holds t) (r.distinct t) inside
                    part
                ∙ ap (λ n. spend n (toward direction (q t))) (sym (within-limit opt b part)),
            elim (Bool-cases (leb b (limit_of opt b))) [
              | inl all ↦ inl (
                all,
                left all,
                next ∙ sym (ap (end_of direction) (rest all)),
                rw (rest all) (length-remove id xs inside),
              )
              | inr part ↦ inr part
            ],
          )

    pub convert_type_loop-Repr :
        (fuel n : ℕ) (affected : List ℕ) (opt : Option ℕ) (s : Funds) {q : Queues}
        → Repr s q
        → length (ids (q t)) < fuel
        → s.f_max_id + length (ids (q t)) < 2 ^ 32
        → length affected + length (ids (q t)) ≤ max_affected_users
        → (k : ℕ) × (id' : ℕ) × (affected' : List ℕ) × (s' : Funds) × (q' : Queues)
          × (convert_type_loop direction filter_transform interrupt false fuel n
                (swap_at opt (end_of direction (ids (q t))) affected s)
              ≡ ok (swap_at (limit_after opt k) id' affected' s'))
          × Repr s' q'
          × TypeMoved t t' q q' k
          × ((v : ℕ) → Gave t t' q q' affected' v)
          × ((v : ℕ) → has v affected ≡ true → has v affected' ≡ true)
          × Apart t t' q q'
          × (s'.f_max_id ≤ s.f_max_id + length (ids (q t)))
          × (toward direction (q' t) ≡ spend k (toward direction (q t)))
          × ((k ≡ within opt (total (q t))) ⊎ ((m : ℕ) × (interrupt m ≡ true)))
    convert_type_loop-Repr zero n affected opt s r fuel_enough room few = absurd (omega arith)
    convert_type_loop-Repr (suc fuel) n affected opt s {q} r fuel_enough room few =
        elim (Bool-cases (stops n (start n affected opt s r))) [
          | inl stop ↦ (
            0,
            end_of direction (ids (q t)),
            affected,
            s,
            q,
            convert_type-stop (suc fuel) n (start n affected opt s r) (omega arith) stop
                ∙ ended _ s affected (sym (limit_after_zero opt)),
            r,
            λ x. ground arith,
            λ v. Gave-none t t' q affected v,
            λ v h. h,
            λ x ne ne'. refl,
            omega arith,
            spend_zero s t direction (q t) (r.holds t) (r.distinct t),
            stopped n affected opt s r stop,
          )
          | inr more ↦
              let (
                s1, q1, id', e, r1, top, some_left, covered, moved, gave, others, in_order, in_part,
                which,
              ) =
                round n affected opt s r more room few in
              let source_target : type_eq t t' ≡ false = type_eq_sym t t' ∙ other in
              let b0 = b n affected opt s r in
              let user = (s.fund_by_id (id n affected opt s r)).user_id in
              let affected1 = affected ++ user ∷ [] in
              let keep : (v : ℕ) → has v affected ≡ true → has v affected1 ≡ true =
                λ v h. ground (arith, has-append v affected (user ∷ [])) in
              elim which [
                | inl (all, left, at_next, shorter) ↦
                    let (whole, rest) = within-whole opt b0 (total (q1 t)) all in
                    let sum : b0 + total (q1 t) ≡ total (q t) =
                      omega (arith, whole, TypeMoved-source t t' q q1 _ source_target moved) in
                    let (
                      k, id'', affected', s', q', e', r', moved', gave', keep', others', top',
                      order', done,
                    ) =
                      convert_type_loop-Repr fuel (suc n) affected1 (limit_after opt b0) s1 r1
                        (omega arith) (omega arith)
                        (omega (arith, length-append affected (user ∷ []))) in
                    (
                      within opt b0 + k,
                      id'',
                      affected',
                      s',
                      q',
                      e fuel
                          ∙ ap
                              (λ z.
                                convert_type_loop direction filter_transform interrupt false fuel
                                  (suc n) (swap_at (limit_after opt b0) z affected1 s1))
                              at_next
                          ∙ e'
                          ∙ ended id'' s' affected' (
                              ap (λ o. limit_after o k) (limit_after-within opt b0)
                              ∙ limit_after_twice opt (within opt b0) k),
                      r',
                      TypeMoved-trans t t' q q1 q' _ k moved moved',
                      λ v.
                          Gave-trans t t' q q1 q' affected1 affected' v (keep' v) (gave v)
                            (gave' v),
                      λ v h. keep' v (keep v h),
                      λ x ne ne'. others' x ne ne' ∙ others x ne ne',
                      omega (arith, top, top'),
                      order' ∙ in_order all k,
                      elim done [
                        | inl all_done ↦
                            inl (omega (arith, whole, all_done, rest, ap (within opt) sum))
                        | inr stop ↦ inr stop
                      ],
                    )
                | inr part ↦
                    let sum : b0 + (total (q t) - b0) ≡ total (q t) = omega (arith, covered) in
                    let (drained, same) = within-part opt b0 (total (q t) - b0) part in
                    (
                      within opt b0,
                      id',
                      affected1,
                      s1,
                      q1,
                      e fuel
                          ∙ convert_type-stop fuel (suc n) _ (omega arith) (ground (arith, drained))
                          ∙ ended id' s1 affected1 (limit_after-within opt b0),
                      r1,
                      moved,
                      gave,
                      keep,
                      others,
                      omega (arith, top),
                      in_part part,
                      inl (same ∙ ap (within opt) sum),
                    )
              ]
        ]
