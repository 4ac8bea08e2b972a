-- ===== src/Funds/Repr/Shrink.antt =====
-- `delete_fund` of fund_module.rs with the write of the cleared item, on the storage and on the
-- queues.
use mx_delegation_sc.Base.{
  ℕ, ◌+◌, ◌<◌, ◌≡◌, ◌≢◌, ◌⊎◌, refl, sym, ◌∙◌, true, false, ◌&&◌, List, [], ◌∷◌, arith, ◌==◌,
  if◌then◌else◌, has, inl, inr, Bool-cases,
}
use mathlib.Core.Path.{subst}
use mx_delegation_sc.Funds.Types.{
  FundType, FundItem, fund_type, type_eq, type_eq→eq, type_eq_refl, default_item,
}
use mx_delegation_sc.Funds.Store.{Funds}
use mx_delegation_sc.Base.Outcome.{ok}
use mx_delegation_sc.Funds.Delete.{delete_fund}
use mx_delegation_sc.Funds.Links.{Links, Nodup, Links-frame, remove, next-mem, prev-mem}
use mx_delegation_sc.Funds.Links.Delete.{
  Links-delete, remove-Nodup, has-remove_ne, has-remove_self, has-remove,
}
use mx_delegation_sc.Funds.Repr.{
  Entry, ids, total, of_user, Queues, AllHold, Repr, tnext, tprev, unext, uprev,
}
use mx_delegation_sc.Funds.Repr.Facts.{
  id_bounds, balance_pos, has-of_user, of_user-Nodup, foreign, foreign_user, AllHold-frame,
}
use mx_delegation_sc.Funds.Repr.Rebalance.{has-of_user_own, AllHold-of_user}
use mx_delegation_sc.Funds.Repr.Deleted.{
  removed, removed-item, removed-type, removed-user, removed-max, delete_fund-eq-ok, cleared_item,
  without,
}

abbrev pub remove_entry : ℕ → List Entry → List Entry
remove_entry id [] = []
remove_entry id (e ∷ es) = if e.id == id then es else e ∷ remove_entry id es

unfoldable pub remove_entries : ℕ → Queues → Queues
remove_entries id q x = remove_entry id (q x)

pub ids-remove_entry : (id : ℕ) (es : List Entry) → ids (remove_entry id es) ≡ remove id (ids es)
ids-remove_entry id [] = refl
ids-remove_entry id (e ∷ es) = ground (arith, ids-remove_entry id es)

pub remove_entry_absent :
    (id : ℕ) (es : List Entry) → has id (ids es) ≡ false → remove_entry id es ≡ es
remove_entry_absent id [] out = refl
remove_entry_absent id (e ∷ es) out = ground (arith, remove_entry_absent id es)

pub of_user-remove_entry :
    (u id : ℕ) (es : List Entry)
    → Nodup (ids es)
    → of_user u (remove_entry id es) ≡ remove_entry id (of_user u es)
of_user-remove_entry u id [] d = refl
of_user-remove_entry u id (e ∷ es) (out, d) = ground (
  arith,
  of_user-remove_entry u id es d,
  remove_entry_absent id (of_user u es),
  has-of_user e.id u es,
)

pub total-remove_entry :
    (s : Funds) (t : FundType) (id : ℕ) (es : List Entry)
    → AllHold s t es
    → has id (ids es) ≡ true
    → total (remove_entry id es) + (s.fund_by_id id).balance ≡ total es
total-remove_entry s t id [] h m = cc
total-remove_entry s t id (e ∷ es) (h, hs) m =
    ground (arith, h.balance, total-remove_entry s t id es hs)

AllHold-remove_entry :
    (s : Funds) (t : FundType) (id : ℕ) (es : List Entry)
    → AllHold s t es
    → AllHold s t (remove_entry id es)
AllHold-remove_entry s t id [] h = h
AllHold-remove_entry s t id (e ∷ es) (h, hs) = ground (arith, h, AllHold-remove_entry s t id es hs)

module _ (id : ℕ) (s : Funds) {q : Queues} (r : Repr s q)
    (m : has id (ids (q (fund_type (s.fund_by_id id).fund_desc))) ≡ true) where
  abbrev f : FundItem
  f = s.fund_by_id id

  abbrev t : FundType
  t = fund_type f.fund_desc

  abbrev u : ℕ
  u = f.user_id

  abbrev s' : Funds
  s' = removed id s

  mu : has id (ids (of_user u (q t))) ≡ true
  mu = has-of_user_own s t id (q t) (r.holds t) m

  prev_type : (tprev s id ≡ 0) ⊎ (has (tprev s id) (ids (q t)) ≡ true)
  prev_type = prev-mem (tnext s) (tprev s) 0 _ (ids (q t)) _ id (r.type_links t) m

  next_type : (tnext s id ≡ 0) ⊎ (has (tnext s id) (ids (q t)) ≡ true)
  next_type = next-mem (tnext s) (tprev s) 0 _ (ids (q t)) _ id (r.type_links t) m

  prev_user : (uprev s id ≡ 0) ⊎ (has (uprev s id) (ids (of_user u (q t))) ≡ true)
  prev_user = prev-mem (unext s) (uprev s) 0 _ (ids (of_user u (q t))) _ id (r.user_links u t) mu

  next_user : (unext s id ≡ 0) ⊎ (has (unext s id) (ids (of_user u (q t))) ≡ true)
  next_user = next-mem (unext s) (uprev s) 0 _ (ids (of_user u (q t))) _ id (r.user_links u t) mu

  neighbour_type :
      (a : ℕ) → (a ≡ 0) ⊎ (has a (ids (q t)) ≡ true) → a ≢ 0 → 0 < (s.fund_by_id a).balance
  neighbour_type a h ne = ground (arith, balance_pos s t (q t) a (r.holds t))

  neighbour_user :
      (a : ℕ)
      → (a ≡ 0) ⊎ (has a (ids (of_user u (q t))) ≡ true)
      → a ≢ 0
      → 0 < (s.fund_by_id a).balance
  neighbour_user a h ne = ground (arith, balance_pos s t (q t) a (r.holds t), has-of_user a u (q t))

  after :
      (x : ℕ)
      → 0 < x
      → x ≢ id
      → (tnext s' x ≡ (if x == tprev s id then tnext s id else tnext s x))
        × (tprev s' x ≡ (if x == tnext s id then tprev s id else tprev s x))
        × (unext s' x ≡ (if x == uprev s id then unext s id else unext s x))
        × (uprev s' x ≡ (if x == unext s id then uprev s id else uprev s x))
        × ((s'.fund_by_id x).fund_desc ≡ (s.fund_by_id x).fund_desc)
        × ((s'.fund_by_id x).user_id ≡ (s.fund_by_id x).user_id)
        × ((s'.fund_by_id x).balance ≡ (s.fund_by_id x).balance)
  after x px ne = ground (
    arith,
    removed-item id s (neighbour_type _ prev_type) (neighbour_type _ next_type)
        (neighbour_user _ prev_user) (neighbour_user _ next_user) x px,
  )

  member-pos : (x : FundType) (a : ℕ) → has a (ids (q x)) ≡ true → 0 < a
  member-pos x a i = (id_bounds s x (q x) a (r.holds x) i).0

  no_zero : (x : FundType) → has 0 (ids (q x)) ≡ false
  no_zero x = elim (Bool-cases (has 0 (ids (q x)))) [
    | inl inside ↦ absurd (omega (arith, member-pos x 0 inside))
    | inr out ↦ out
  ]

  no_zero_user : (v : ℕ) (x : FundType) → has 0 (ids (of_user v (q x))) ≡ false
  no_zero_user v x = elim (Bool-cases (has 0 (ids (of_user v (q x))))) [
    | inl inside ↦ absurd (omega (arith, member-pos x 0 (has-of_user 0 v (q x) inside)))
    | inr out ↦ out
  ]

  own_type-Links :
      Links
        (tnext s')
        (tprev s')
        0
        (s'.ftype t).first
        (ids (remove_entry id (q t)))
        (s'.ftype t).last
  own_type-Links =
      rw (removed-type id s t, type_eq_refl t, ids-remove_entry id (q t))
        (Links-delete (tnext s) (tprev s) (tnext s') (tprev s') id 0 _ (ids (q t)) _
          (r.type_links t) (r.distinct t) (no_zero t) m
          (
            λ x i ne. (after x (member-pos t x i) ne).0,
            λ x i ne. (after x (member-pos t x i) ne).1,
          ))

  own_user-Links :
      Links
        (unext s')
        (uprev s')
        0
        (s'.fuser u t).first
        (ids (remove_entry id (of_user u (q t))))
        (s'.fuser u t).last
  own_user-Links =
      let here : (u == u && type_eq t t) ≡ true = ground (arith, type_eq_refl t) in
      rw (removed-user id s u t, here, ids-remove_entry id (of_user u (q t)))
        (Links-delete (unext s) (uprev s) (unext s') (uprev s') id 0 _ (ids (of_user u (q t))) _
          (r.user_links u t) (of_user-Nodup u (q t) (r.distinct t)) (no_zero_user u t) mu
          (
            λ x i ne. (after x (member-pos t x (has-of_user x u (q t) i)) ne).2,
            λ x i ne. (after x (member-pos t x (has-of_user x u (q t) i)) ne).3,
          ))

  absent : (y : FundType) → type_eq y t ≡ false → has id (ids (q y)) ≡ false
  absent y n = elim (Bool-cases (has id (ids (q y)))) [
    | inl inside ↦ ground (arith, foreign r id id t y n inside (inr m))
    | inr out ↦ out
  ]

  absent_user :
      (v : ℕ) (y : FundType)
      → (v == u && type_eq y t) ≡ false
      → has id (ids (of_user v (q y))) ≡ false
  absent_user v y n = elim (Bool-cases (has id (ids (of_user v (q y))))) [
    | inl inside ↦ ground (arith, foreign_user r id id u v t y n inside (inr mu))
    | inr out ↦ out
  ]

  other_type-Links :
      (x : FundType)
      → type_eq x t ≡ false
      → Links
          (tnext s')
          (tprev s')
          0
          (s'.ftype x).first
          (ids (remove_entry id (q x)))
          (s'.ftype x).last
  other_type-Links x ne =
      rw (removed-type id s x, ne, remove_entry_absent id (q x) (absent x ne))
        (Links-frame 0 _ (ids (q x)) _
          (λ a i. ground (
            arith,
            after a (member-pos x a i),
            foreign r a id t x ne i (inr m),
            foreign r a (tprev s id) t x ne i prev_type,
          ))
          (λ a i. ground (
            arith,
            after a (member-pos x a i),
            foreign r a id t x ne i (inr m),
            foreign r a (tnext s id) t x ne i next_type,
          ))
          (r.type_links x))

  other_user-Links :
      (v : ℕ) (x : FundType)
      → (v == u && type_eq x t) ≡ false
      → Links
          (unext s')
          (uprev s')
          0
          (s'.fuser v x).first
          (ids (remove_entry id (of_user v (q x))))
          (s'.fuser v x).last
  other_user-Links v x ne =
      rw (removed-user id s v x, ne, remove_entry_absent id (of_user v (q x)) (absent_user v x ne))
        (Links-frame 0 _ (ids (of_user v (q x))) _
          (λ a i. ground (
            arith,
            after a (member-pos x a (has-of_user a v (q x) i)),
            foreign_user r a id u v t x ne i (inr mu),
            foreign_user r a (uprev s id) u v t x ne i prev_user,
          ))
          (λ a i. ground (
            arith,
            after a (member-pos x a (has-of_user a v (q x) i)),
            foreign_user r a id u v t x ne i (inr mu),
            foreign_user r a (unext s id) u v t x ne i next_user,
          ))
          (r.user_links v x))

  same_pair : (v : ℕ) (x : FundType) → (v == u && type_eq x t) ≡ true → (v ≡ u) × (x ≡ t)
  same_pair v x h = ground (arith, type_eq→eq x t)

  new_type_total : (x : FundType) → (s'.ftype x).total_balance ≡ total (remove_entry id (q x))
  new_type_total x = elim (Bool-cases (type_eq x t)) [
    | inl same ↦
        rw (removed-type id s x, same, type_eq→eq x t same)
          (omega (arith, r.type_total t, total-remove_entry s t id (q t) (r.holds t) m))
    | inr miss ↦
        rw (removed-type id s x, miss, remove_entry_absent id (q x) (absent x miss))
          (r.type_total x)
  ]

  new_user_total :
      (v : ℕ) (x : FundType)
      → (s'.fuser v x).total_balance ≡ total (remove_entry id (of_user v (q x)))
  new_user_total v x = elim (Bool-cases (v == u && type_eq x t)) [
    | inl same ↦
        rw (removed-user id s v x, same, (same_pair v x same).0, (same_pair v x same).1)
          (omega (
            arith,
            r.user_total u t,
            total-remove_entry s t id (of_user u (q t)) (AllHold-of_user s t u (q t) (r.holds t))
                mu,
          ))
    | inr miss ↦
        rw
          (
            removed-user id s v x,
            miss,
            remove_entry_absent id (of_user v (q x)) (absent_user v x miss),
          )
          (r.user_total v x)
  ]

  -- What is left in a queue was there before, and is not the removed entry.
  left-mem :
      (x : FundType) (a : ℕ)
      → has a (ids (remove_entry id (q x))) ≡ true
      → (has a (ids (q x)) ≡ true) × (a ≢ id)
  left-mem x a i =
      let j : has a (remove id (ids (q x))) ≡ true = rw (ids-remove_entry id (q x)) at i in
      (
        has-remove a id (ids (q x)) j,
        λ e. ground (arith, has-remove_self id (ids (q x)) (r.distinct x)),
      )

  new_holds : (x : FundType) → AllHold s' x (remove_entry id (q x))
  new_holds x =
      AllHold-frame s s' x (remove_entry id (q x)) (omega (arith, removed-max id s))
        (λ a i. let l = left-mem x a i in (after a (member-pos x a l.0) l.1).4)
        (λ a i. let l = left-mem x a i in (after a (member-pos x a l.0) l.1).5)
        (λ a i. let l = left-mem x a i in (after a (member-pos x a l.0) l.1).6)
        (AllHold-remove_entry s x id (q x) (r.holds x))

  new_distinct : (x : FundType) → Nodup (ids (remove_entry id (q x)))
  new_distinct x = rw (ids-remove_entry id (q x)) (remove-Nodup id (ids (q x)) (r.distinct x))

  new_cleared :
      (a : ℕ)
      → 0 < a
      → ((x : FundType) → has a (ids (remove_entry id (q x))) ≡ false)
      → s'.fund_by_id a ≡ default_item
  new_cleared a pa out = elim (Bool-cases (a == id)) [
    | inl hit ↦ ground (
      arith,
      removed-item id s (neighbour_type _ prev_type) (neighbour_type _ next_type)
          (neighbour_user _ prev_user) (neighbour_user _ next_user) a pa,
    )
    | inr miss ↦
        let gone : (x : FundType) → has a (ids (q x)) ≡ false =
          λ x. ground (arith, has-remove_ne a id (ids (q x)), ids-remove_entry id (q x), out x) in
        let n1 : (a == tprev s id) ≡ false = ground (arith, prev_type, gone t) in
        let n2 : (a == tnext s id) ≡ false = ground (arith, next_type, gone t) in
        let n3 : (a == uprev s id) ≡ false =
          ground (arith, prev_user, has-of_user a u (q t), gone t) in
        let n4 : (a == unext s id) ≡ false =
          ground (arith, next_user, has-of_user a u (q t), gone t) in
        removed-item id s (neighbour_type _ prev_type) (neighbour_type _ next_type)
          (neighbour_user _ prev_user) (neighbour_user _ next_user) a pa
        ∙ rw (miss, n1, n2, n3, n4) (r.cleared a pa gone)
  ]

  -- Deleting a queued fund, and writing the cleared item back, keeps the storage well formed; the
  -- fund's entry leaves its queue.
  pub removed-Repr : Repr s' (remove_entries id q)
  unfolding remove_entries
  removed-Repr = record {
    type_links = λ x. elim (Bool-cases (type_eq x t)) [
      | inl same ↦
          subst
            (λ y.
              Links (tnext s') (tprev s') 0 (s'.ftype y).first (ids (remove_entry id (q y)))
                (s'.ftype y).last)
            (sym (type_eq→eq x t same)) own_type-Links
      | inr miss ↦ other_type-Links x miss
    ];
    user_links = λ v x.
        rw (of_user-remove_entry v id (q x) (r.distinct x))
          (elim (Bool-cases (v == u && type_eq x t)) [
            | inl same ↦
                subst
                  (λ y.
                    Links (unext s') (uprev s') 0 (s'.fuser v y).first
                      (ids (remove_entry id (of_user v (q y)))) (s'.fuser v y).last)
                  (sym (same_pair v x same).1)
                  (subst
                    (λ w.
                      Links (unext s') (uprev s') 0 (s'.fuser w t).first
                        (ids (remove_entry id (of_user w (q t)))) (s'.fuser w t).last)
                    (sym (same_pair v x same).0) own_user-Links)
            | inr miss ↦ other_user-Links v x miss
          ]);
    type_total = new_type_total;
    user_total = λ v x. rw (of_user-remove_entry v id (q x) (r.distinct x)) (new_user_total v x);
    holds = new_holds;
    distinct = new_distinct;
    cleared = new_cleared;
  }

  -- `delete_fund` of a queued fund does not underflow: it returns the fund's whole balance.
  pub delete_fund-ok : delete_fund f s ≡ ok (f.balance, cleared_item id s, without id s)
  delete_fund-ok =
      delete_fund-eq-ok id s
        (omega (arith, r.type_total t, total-remove_entry s t id (q t) (r.holds t) m))
        (omega (
          arith,
          r.user_total u t,
          total-remove_entry s t id (of_user u (q t)) (AllHold-of_user s t u (q t) (r.holds t)) mu,
        ))
