-- ===== src/Funds/Repr/DryRun.antt =====
-- The dry run of `split_convert_max_by_type`, which the contract uses to find the users that a swap
-- will affect before it performs the swap: both visit the same items of the list.
use mx_delegation_sc.Base.{
  ℕ, zero, suc, ◌+◌, ◌^◌, ◌≤◌, ◌<◌, ◌≡◌, refl, sym, ap, ◌∙◌, ◌⊎◌, inl, inr, Bool, true, false, ◌||◌,
  List, [], ◌∷◌, ◌++◌, Option, none, some, arith, ◌==◌, if◌then◌else◌, has, length, length-append,
  append-nil, append-snoc, leb, ltb, lt→ltb, fun_ext, Bool-cases,
}
use mathlib.Core.Path.{subst}
use mx_delegation_sc.Base.Outcome.{Result, ok}
use mx_delegation_sc.Funds.Types.{FundDescription, FundType, FundItem, fund_type, type_eq}
use mx_delegation_sc.Funds.Store.{Funds, set_fund, forwards}
use mx_delegation_sc.Funds.Delete.{decrease_max_amount}
use mx_delegation_sc.Funds.Convert.{
  loop_fuel, split_convert_max_by_type, TypeSwap, FilterTransform, convert_item, convert_type_step,
  convert_type_loop, is_drained,
}
use mx_delegation_sc.Funds.AffectedUsers.{try_push, max_affected_users, affected_users_sort_dedup}
use mx_delegation_sc.Funds.AffectedUsers.Sorted.{affected_users_sort_dedup-StrictlyAscending}
use mx_delegation_sc.Funds.Transf.{
  left_of, swap_waiting_to_active, get_affected_users_of_swap_waiting_to_active,
}
use mx_delegation_sc.Funds.Repr.Walk.{type_fuel}
use mx_delegation_sc.Funds.Repr.SwapType.{first_id_of_type-end}
use mx_delegation_sc.Funds.Links.{Links}
use mx_delegation_sc.Funds.Repr.{Entry, ids, Queues, AllHold, Repr, tnext, tprev}
use mx_delegation_sc.Funds.Repr.Insert.{not_default}
use mx_delegation_sc.Funds.Repr.SplitConvert.{limit_of, limit_after}
use mx_delegation_sc.Funds.Repr.ConvertType.{swap_at, round}
use mx_delegation_sc.Funds.Repr.Ends.{end_of}
use mx_delegation_sc.Funds.Repr.Limits.{within-part}
use mx_delegation_sc.Funds.Repr.Moved.{ConvertsItems}

-- The users of the entries that a loop visits, and what is left of its limit.
abbrev pub visited : (ℕ → Bool) → ℕ → Option ℕ → List Entry → List ℕ
visited interrupt n opt [] = []
visited interrupt n opt (e ∷ es) =
    let rest = visited interrupt (suc n) (limit_after opt e.balance) es in
    if interrupt n || is_drained opt then [] else e.user ∷ rest

abbrev pub unused : (ℕ → Bool) → ℕ → Option ℕ → List Entry → Option ℕ
unused interrupt n opt [] = opt
unused interrupt n opt (e ∷ es) =
    let rest = unused interrupt (suc n) (limit_after opt e.balance) es in
    if interrupt n || is_drained opt then opt else rest

decrease_max_amount-limit :
    (opt : Option ℕ) (item : FundItem) → decrease_max_amount opt item ≡ limit_after opt item.balance
unfolding decrease_max_amount
decrease_max_amount-limit none item = refl
decrease_max_amount-limit (some m) item = ap some (ground arith)

-- Writing a stored item back changes nothing.
set_fund-same :
    (id : ℕ) (s : Funds) → 0 < (s.fund_by_id id).balance → set_fund id (s.fund_by_id id) s ≡ s
unfolding set_fund
set_fund-same id s pos =
    ap (λ (h : ℕ → FundItem). record s { fund_by_id = h })
      (fun_ext λ x. ground (arith, not_default (s.fund_by_id id)))

visited-drained :
    (interrupt : ℕ → Bool) (n : ℕ) (opt : Option ℕ) (es : List Entry)
    → is_drained opt ≡ true
    → (visited interrupt n opt es ≡ []) × (unused interrupt n opt es ≡ opt)
visited-drained interrupt n opt [] drained = (refl, refl)
visited-drained interrupt n opt (e ∷ es) drained =
    (ground (arith, drained), ground (arith, drained))

loop-stop :
    (filter_transform : FilterTransform) (interrupt : ℕ → Bool) (dry_run : Bool) (fuel n : ℕ)
    (st : TypeSwap)
    → 0 < fuel
    → (st.id == 0 || interrupt n || is_drained st.opt_max) ≡ true
    → convert_type_loop forwards filter_transform interrupt dry_run fuel n st ≡ ok st
unfolding convert_type_loop
loop-stop filter_transform interrupt dry_run zero n st enough stop = absurd (omega arith)
loop-stop filter_transform interrupt dry_run (suc fuel) n st enough stop =
    rw (convert_type_loop, stop)

module _ (t t' : FundType) (filter_transform : FilterTransform) (interrupt : ℕ → Bool)
    (converts : ConvertsItems t t' filter_transform) where
  dry-step :
      (fuel n : ℕ) (opt : Option ℕ) (id : ℕ) (affected : List ℕ) (s : Funds)
      → (id == 0 || interrupt n || is_drained opt) ≡ false
      → length affected < max_affected_users
      → 0 < (s.fund_by_id id).balance
      → fund_type (s.fund_by_id id).fund_desc ≡ t
      → convert_type_loop forwards filter_transform interrupt true
          (suc fuel)
          n
          (swap_at opt id affected s)
        ≡ convert_type_loop forwards filter_transform interrupt true fuel (suc n) (
            swap_at
              (limit_after opt (s.fund_by_id id).balance)
              (tnext s id)
              (affected ++ (s.fund_by_id id).user_id ∷ [])
              s)
  unfolding convert_type_loop convert_type_step convert_item try_push
  dry-step fuel n opt id affected s more few pos own =
      let (d, e, target) = converts (s.fund_by_id id) own in
      let pushes : ltb (length affected) max_affected_users ≡ true = lt→ltb _ _ few in
      rw (
        convert_type_loop,
        more,
        convert_type_step,
        pushes,
        e,
        decrease_max_amount-limit opt (s.fund_by_id id),
        set_fund-same id s pos,
      )

  dry-loop :
      (es : List Entry) (fuel n : ℕ) (opt : Option ℕ) (before first last : ℕ) (affected : List ℕ)
      (s : Funds)
      → Links (tnext s) (tprev s) before first (ids es) last
      → AllHold s t es
      → length (ids es) < fuel
      → length affected + length (ids es) ≤ max_affected_users
      → (id' : ℕ) × (convert_type_loop forwards filter_transform interrupt true fuel n
            (swap_at opt first affected s)
          ≡ ok (swap_at (unused interrupt n opt es) id' (affected ++ visited interrupt n opt es) s))
  dry-loop es zero n opt before first last affected s links holds enough few = absurd (omega arith)
  dry-loop [] (suc fuel) n opt before first last affected s links holds enough few =
      let stop : (first == 0 || interrupt n || is_drained opt) ≡ true = ground (arith, links.0) in
      (
        first,
        loop-stop filter_transform interrupt true (suc fuel) n (swap_at opt first affected s)
              (omega arith) stop
            ∙ ap (λ z. ok (swap_at opt first z s)) (sym (append-nil affected)),
      )
  dry-loop (e ∷ es) (suc fuel) n opt before first last affected s (at, pos, back, rest) (h, hs)
        enough few =
      elim (Bool-cases (interrupt n || is_drained opt)) [
        | inl stop ↦ rw stop (
          first,
          loop-stop filter_transform interrupt true (suc fuel) n (swap_at opt first affected s)
                (omega arith) (ground (arith, stop))
              ∙ ap (λ z. ok (swap_at opt first z s)) (sym (append-nil affected)),
        )
        | inr more ↦
            let (id', e') =
              dry-loop es fuel (suc n) (limit_after opt e.balance) e.id (tnext s e.id) last
                (affected ++ e.user ∷ []) s rest hs (omega arith)
                (omega (arith, length-append affected (e.user ∷ []))) in
            let step =
              dry-step fuel n opt e.id affected s (ground (arith, more)) (omega arith)
                (rw h.balance h.positive) (rw h.desc h.type) in
            rw (more, at)
              (
                id',
                (rw (h.balance, h.user) at step)
                    ∙ e'
                    ∙ ap
                        (λ z. ok (
                          swap_at (unused interrupt (suc n) (limit_after opt e.balance) es) id' z
                            s))
                        (append-snoc affected e.user
                          (visited interrupt (suc n) (limit_after opt e.balance) es)),
              )
      ]

  module _ (other : type_eq t' t ≡ false) where
    first-round :
        (n : ℕ) (opt : Option ℕ) (affected : List ℕ) (s : Funds) {q : Queues} (e : Entry)
        (es : List Entry)
        → Repr s q
        → q t ≡ e ∷ es
        → (interrupt n || is_drained opt) ≡ false
        → s.f_max_id + length (ids (e ∷ es)) < 2 ^ 32
        → length affected + length (ids (e ∷ es)) ≤ max_affected_users
        → (s' : Funds) × (q' : Queues) × (id' : ℕ) × ((fuel : ℕ)
            → convert_type_loop forwards filter_transform interrupt false
                (suc fuel)
                n
                (swap_at opt e.id affected s)
              ≡ convert_type_loop forwards filter_transform interrupt false fuel
                  (suc n)
                  (swap_at (limit_after opt e.balance) id' (affected ++ e.user ∷ []) s'))
          × Repr s' q'
          × (s'.f_max_id ≤ s.f_max_id + 1)
          × (((q' t ≡ es) × (id' ≡ end_of forwards (ids es)))
              ⊎ (is_drained (limit_after opt e.balance) ≡ true))
    first-round n opt affected s {q} e es r same more room few =
        let (h, hs) : AllHold s t (e ∷ es) = rw same at (r.holds t) in
        let at : end_of forwards (ids (q t)) ≡ e.id = ap (λ z. end_of forwards (ids z)) same in
        let (
          s1, q1, id', step, r1, top, some_left, covered, moved, gave, others, in_order, in_part,
          which,
        ) =
          round t t' forwards filter_transform interrupt converts other n affected opt s r
            (rw at (ground (arith, more, h.id_positive))) (rw same room) (rw same few) in
        let bal : (s.fund_by_id (end_of forwards (ids (q t)))).balance ≡ e.balance =
          ap (λ z. (s.fund_by_id z).balance) at ∙ h.balance in
        let user : (s.fund_by_id (end_of forwards (ids (q t)))).user_id ≡ e.user =
          ap (λ z. (s.fund_by_id z).user_id) at ∙ h.user in
        let next : ℕ → ℕ → ℕ → Result TypeSwap = λ fuel b v.
          convert_type_loop forwards filter_transform interrupt false fuel (suc n)
            (swap_at (limit_after opt b) id' (affected ++ v ∷ []) s1) in
        (
          s1,
          q1,
          id',
          λ fuel.
              ap
                (λ z.
                  convert_type_loop forwards filter_transform interrupt false (suc fuel) n
                    (swap_at opt z affected s))
                (sym at)
              ∙ step fuel
              ∙ ap (λ b. next fuel b (s.fund_by_id (end_of forwards (ids (q t)))).user_id) bal
              ∙ ap (λ v. next fuel e.balance v) user,
          r1,
          top,
          elim which [
            | inl (all, left, at_next, shorter) ↦
                let rest : q1 t ≡ es = left ∙ (rw (at, same) (ground arith)) in
                inl (rest, at_next ∙ ap (λ z. end_of forwards (ids z)) rest)
            | inr part ↦
                inr
                  (within-part opt e.balance 0
                    (subst (λ b. leb b (limit_of opt b) ≡ false) bal part)).0
          ],
        )

    real-loop :
        (es : List Entry) (fuel n : ℕ) (opt : Option ℕ) (affected : List ℕ) (s : Funds) {q : Queues}
        → Repr s q
        → q t ≡ es
        → length (ids es) < fuel
        → s.f_max_id + length (ids es) < 2 ^ 32
        → length affected + length (ids es) ≤ max_affected_users
        → (id' : ℕ) × (s' : Funds) × (convert_type_loop forwards filter_transform interrupt false
              fuel n
              (swap_at opt (end_of forwards (ids es)) affected s)
            ≡ ok (
                swap_at
                  (unused interrupt n opt es)
                  id'
                  (affected ++ visited interrupt n opt es)
                  s'))
    real-loop es zero n opt affected s r same enough room few = absurd (omega arith)
    real-loop [] (suc fuel) n opt affected s r same enough room few = (
      0,
      s,
      loop-stop filter_transform interrupt false (suc fuel) n (swap_at opt 0 affected s)
            (omega arith) refl
          ∙ ap (λ z. ok (swap_at opt 0 z s)) (sym (append-nil affected)),
    )
    real-loop (e ∷ es) (suc fuel) n opt affected s {q} r same enough room few =
        elim (Bool-cases (interrupt n || is_drained opt)) [
          | inl stop ↦ rw stop (
            e.id,
            s,
            loop-stop filter_transform interrupt false (suc fuel) n (swap_at opt e.id affected s)
                  (omega arith) (ground (arith, stop))
                ∙ ap (λ z. ok (swap_at opt e.id z s)) (sym (append-nil affected)),
          )
          | inr more ↦
              let opt1 = limit_after opt e.balance in
              let (s1, q1, id1, step, r1, top, which) =
                first-round n opt affected s e es r same more room few in
              elim which [
                | inl (left, at_next) ↦
                    let (id', s', go) =
                      real-loop es fuel (suc n) opt1 (affected ++ e.user ∷ []) s1 r1 left
                        (omega arith) (omega arith)
                        (omega (arith, length-append affected (e.user ∷ []))) in
                    rw more (
                      id',
                      s',
                      step fuel
                          ∙ ap
                              (λ z.
                                convert_type_loop forwards filter_transform interrupt false fuel
                                  (suc n) (swap_at opt1 z (affected ++ e.user ∷ []) s1))
                              at_next
                          ∙ go
                          ∙ ap (λ z. ok (swap_at (unused interrupt (suc n) opt1 es) id' z s'))
                              (append-snoc affected e.user (visited interrupt (suc n) opt1 es)),
                    )
                | inr drained ↦
                    let (none_more, all_used) = visited-drained interrupt (suc n) opt1 es drained in
                    rw (more, none_more, all_used)
                      (
                        id1,
                        s1,
                        step fuel
                            ∙ loop-stop filter_transform interrupt false fuel (suc n)
                                (swap_at opt1 id1 (affected ++ e.user ∷ []) s1) (omega arith)
                                (ground (arith, drained)),
                      )
              ]
        ]

-- A loop visits users of the list only.
abbrev pub users_of : List Entry → List ℕ
users_of [] = []
users_of (e ∷ es) = e.user ∷ users_of es

visited-users_of :
    (interrupt : ℕ → Bool) (n : ℕ) (opt : Option ℕ) (es : List Entry) (v : ℕ)
    → has v (visited interrupt n opt es) ≡ true
    → has v (users_of es) ≡ true
visited-users_of interrupt n opt [] v m = m
visited-users_of interrupt n opt (e ∷ es) v m =
    ground (arith, m, visited-users_of interrupt (suc n) (limit_after opt e.balance) es v)

-- The run and the dry run, and the users that they return.
pub both_runs :
    (amount : ℕ) (interrupt : ℕ → Bool) (s : Funds) {q : Queues}
    → Repr s q
    → s.f_max_id + length (ids (q FundType.waiting)) < 2 ^ 32
    → length (ids (q FundType.waiting)) ≤ max_affected_users
    → (affected : List ℕ) × (left : ℕ) × (s' : Funds) × (swap_waiting_to_active amount interrupt s
        ≡ ok (affected, left, s'))
      × (get_affected_users_of_swap_waiting_to_active amount interrupt s ≡ ok (affected, left))
      × ((v : ℕ) → has v affected ≡ true → has v (users_of (q FundType.waiting)) ≡ true)
unfolding swap_waiting_to_active get_affected_users_of_swap_waiting_to_active
    split_convert_max_by_type fund_type type_eq
both_runs amount interrupt s {q} r room few =
    let t = FundType.waiting in
    let filter : FilterTransform = λ _. some FundDescription.active in
    let converts : ConvertsItems t FundType.active filter =
      λ item h. (FundDescription.active, refl, refl) in
    let (last1, s', real) =
      real-loop t FundType.active filter interrupt converts refl (q t) (loop_fuel s) 0 (some amount)
        [] s r refl (type_fuel r t) room (omega arith) in
    let (last2, dry) =
      dry-loop t FundType.active filter interrupt converts (q t) (loop_fuel s) 0 (some amount) 0
        (end_of forwards (ids (q t))) _ [] s
        (rw (first_id_of_type-end r t forwards) at (r.type_links t)) (r.holds t) (type_fuel r t)
        (omega arith) in
    (
      affected_users_sort_dedup (visited interrupt 0 (some amount) (q t)),
      left_of (unused interrupt 0 (some amount) (q t)),
      s',
      rw (first_id_of_type-end r t forwards, real) refl,
      rw (first_id_of_type-end r t forwards, dry) refl,
      λ v m. visited-users_of interrupt 0 (some amount) (q t) v (
          rw
            ((affected_users_sort_dedup-StrictlyAscending
                (visited interrupt 0 (some amount) (q t))).1
              v)
            at (m)),
    )

-- Under the invariant, with an id left for each item in use and at most 10000 of them in the waiting
-- list: `get_affected_users_of_swap_waiting_to_active` and `swap_waiting_to_active`, from the same
-- storage, with the same amount and the same answers of the closure `interrupt`, return the same
-- users and the same rest of the amount.
pub get_affected_users_of_swap_waiting_to_active-swap_waiting_to_active :
    (amount : ℕ) (interrupt : ℕ → Bool) (s : Funds) {q : Queues}
    → Repr s q
    → s.f_max_id + length (ids (q FundType.waiting)) < 2 ^ 32
    → length (ids (q FundType.waiting)) ≤ max_affected_users
    → (affected : List ℕ) × (left : ℕ) × (s' : Funds) × (swap_waiting_to_active amount interrupt s
        ≡ ok (affected, left, s'))
      × (get_affected_users_of_swap_waiting_to_active amount interrupt s ≡ ok (affected, left))
get_affected_users_of_swap_waiting_to_active-swap_waiting_to_active amount interrupt s r room few =
    let (affected, left, s', run, dry, users) = both_runs amount interrupt s r room few in
    (affected, left, s', run, dry)
