-- ===== src/Funds/Repr/Facts.antt =====
-- Lists of entries, and what the representation says of the members of a queue.
use mx_delegation_sc.Base.{
  ℕ, ◌+◌, ◌≤◌, ◌<◌, ◌≡◌, refl, ap, sym, ◌∙◌, ◌&&◌, ◌⊎◌, inl, inr, true, false, List, [], ◌∷◌, ◌++◌,
  arith, ◌==◌, has, has-append, ne→==, Bool-cases,
}
use mx_delegation_sc.Funds.Types.{FundType, fund_type, type_eq, type_eq_refl, is_default_list}
use mx_delegation_sc.Funds.Store.{Funds}
use mx_delegation_sc.Funds.Links.{Links, Nodup, last-mem}
use mx_delegation_sc.Funds.Links.Push.{is_nil}
use mx_delegation_sc.Funds.Repr.{
  Entry, ids, total, of_user, Queues, AllHold, Repr, tnext, tprev, unext, uprev,
}

pub ids-append : (xs ys : List Entry) → ids (xs ++ ys) ≡ ids xs ++ ids ys
ids-append [] ys = refl
ids-append (x ∷ xs) ys = rw (ids-append xs ys)

pub total-append : (xs ys : List Entry) → total (xs ++ ys) ≡ total xs + total ys
total-append [] ys = omega arith
total-append (x ∷ xs) ys = omega (arith, total-append xs ys)

pub of_user-append :
    (u : ℕ) (xs ys : List Entry) → of_user u (xs ++ ys) ≡ of_user u xs ++ of_user u ys
of_user-append u [] ys = refl
of_user-append u (x ∷ xs) ys = ground (arith, of_user-append u xs ys)

pub has-of_user :
    (a u : ℕ) (es : List Entry) → has a (ids (of_user u es)) ≡ true → has a (ids es) ≡ true
has-of_user a u [] h = h
has-of_user a u (e ∷ es) h = ground (arith, has-of_user a u es)

pub of_user-Nodup : (u : ℕ) (es : List Entry) → Nodup (ids es) → Nodup (ids (of_user u es))
of_user-Nodup u [] d = d
of_user-Nodup u (e ∷ es) (out, d) = ground (arith, of_user-Nodup u es d, has-of_user e.id u es)

pub snoc-Nodup : (a : ℕ) (xs : List ℕ) → Nodup xs → has a xs ≡ false → Nodup (xs ++ a ∷ [])
snoc-Nodup a [] d out = (refl, tt)
snoc-Nodup a (x ∷ xs) (o, d) out = ground (arith, snoc-Nodup a xs d, has-append x xs (a ∷ []))

-- A member's item has the type of the queue, and the user whose part it is in.
pub type-of_mem :
    (s : Funds) (t : FundType) (es : List Entry) (a : ℕ)
    → AllHold s t es
    → has a (ids es) ≡ true
    → fund_type (s.fund_by_id a).fund_desc ≡ t
type-of_mem s t [] a h m = cc
type-of_mem s t (e ∷ es) a (h, hs) m = ground (arith, h.desc, h.type, type-of_mem s t es a hs)

pub user-of_mem :
    (s : Funds) (t : FundType) (es : List Entry) (u a : ℕ)
    → AllHold s t es
    → has a (ids (of_user u es)) ≡ true
    → (s.fund_by_id a).user_id ≡ u
user-of_mem s t [] u a h m = cc
user-of_mem s t (e ∷ es) u a (h, hs) m = ground (arith, h.user, user-of_mem s t es u a hs)

pub id_bounds :
    (s : Funds) (t : FundType) (es : List Entry) (a : ℕ)
    → AllHold s t es
    → has a (ids es) ≡ true
    → (0 < a) × (a ≤ s.f_max_id)
id_bounds s t [] a h m = cc
id_bounds s t (e ∷ es) a (h, hs) m =
    ground (arith, h.id_positive, h.id_bound, id_bounds s t es a hs)

pub balance_pos :
    (s : Funds) (t : FundType) (es : List Entry) (a : ℕ)
    → AllHold s t es
    → has a (ids es) ≡ true
    → 0 < (s.fund_by_id a).balance
balance_pos s t [] a h m = cc
balance_pos s t (e ∷ es) a (h, hs) m =
    ground (arith, h.positive, h.balance, balance_pos s t es a hs)

-- The data of the members, where another storage keeps them.
pub AllHold-frame :
    (s s' : Funds) (t : FundType) (es : List Entry)
    → s.f_max_id ≤ s'.f_max_id
    → ((x : ℕ) → has x (ids es) ≡ true → (s'.fund_by_id x).fund_desc ≡ (s.fund_by_id x).fund_desc)
    → ((x : ℕ) → has x (ids es) ≡ true → (s'.fund_by_id x).user_id ≡ (s.fund_by_id x).user_id)
    → ((x : ℕ) → has x (ids es) ≡ true → (s'.fund_by_id x).balance ≡ (s.fund_by_id x).balance)
    → AllHold s t es
    → AllHold s' t es
AllHold-frame s s' t [] m d u b h = h
AllHold-frame s s' t (e ∷ es) m d u b (h, hs) = (
  record {
    desc = ground (arith, h.desc, d e.id);
    user = ground (arith, h.user, u e.id);
    balance = ground (arith, h.balance, b e.id);
    type = h.type;
    positive = h.positive;
    id_positive = h.id_positive;
    id_bound = omega (arith, h.id_bound);
  },
  AllHold-frame s s' t es m (λ x i. d x (ground arith)) (λ x i. u x (ground arith))
      (λ x i. b x (ground arith)) hs,
)

pub AllHold-append :
    (s : Funds) (t : FundType) (xs ys : List Entry)
    → AllHold s t xs
    → AllHold s t ys
    → AllHold s t (xs ++ ys)
AllHold-append s t [] ys hx hy = hy
AllHold-append s t (x ∷ xs) ys (h, hs) hy = (h, AllHold-append s t xs ys hs hy)

last-of_Links :
    (nx pv : ℕ → ℕ) (first : ℕ) (xs : List ℕ) (last : ℕ)
    → Links nx pv 0 first xs last
    → (last ≡ 0) ⊎ (has last xs ≡ true)
last-of_Links nx pv first [] last h = inl (h.1)
last-of_Links nx pv first (x ∷ xs) last h = inr (last-mem nx pv 0 first x xs last h)

last-mem_of_nonempty :
    (nx pv : ℕ → ℕ) (first : ℕ) (xs : List ℕ) (last : ℕ)
    → Links nx pv 0 first xs last
    → is_nil xs ≡ false
    → has last xs ≡ true
last-mem_of_nonempty nx pv first [] last h e = cc
last-mem_of_nonempty nx pv first (x ∷ xs) last h e = last-mem nx pv 0 first x xs last h

empty-of_Links :
    (nx pv : ℕ → ℕ) (first n : ℕ) (es : List Entry) (last : ℕ)
    → Links nx pv 0 first (ids es) last
    → n ≡ total es
    → is_default_list (record { total_balance = n; first = first; last = last }) ≡ is_nil (ids es)
unfolding is_default_list
empty-of_Links nx pv first n [] last h e = ground arith
empty-of_Links nx pv first n (x ∷ es) last h e = ground arith

module _ {s : Funds} {q : Queues} (r : Repr s q) where
  -- The header of a list is default exactly where the list is empty.
  pub type_list_empty : (t : FundType) → is_default_list (s.ftype t) ≡ is_nil (ids (q t))
  type_list_empty t =
      empty-of_Links (tnext s) (tprev s) _ _ (q t) _ (r.type_links t) (r.type_total t)

  pub user_list_empty :
      (u : ℕ) (t : FundType) → is_default_list (s.fuser u t) ≡ is_nil (ids (of_user u (q t)))
  user_list_empty u t =
      empty-of_Links (unext s) (uprev s) _ _ (of_user u (q t)) _ (r.user_links u t)
        (r.user_total u t)

  pub last_of_type :
      (t : FundType) → ((s.ftype t).last ≡ 0) ⊎ (has (s.ftype t).last (ids (q t)) ≡ true)
  last_of_type t = last-of_Links (tnext s) (tprev s) _ (ids (q t)) _ (r.type_links t)

  pub last_of_user :
      (u : ℕ) (t : FundType)
      → ((s.fuser u t).last ≡ 0) ⊎ (has (s.fuser u t).last (ids (of_user u (q t))) ≡ true)
  last_of_user u t =
      last-of_Links (unext s) (uprev s) _ (ids (of_user u (q t))) _ (r.user_links u t)

  pub last-mem_of_user :
      (u : ℕ) (t : FundType)
      → is_default_list (s.fuser u t) ≡ false
      → has (s.fuser u t).last (ids (of_user u (q t))) ≡ true
  last-mem_of_user u t e =
      last-mem_of_nonempty (unext s) (uprev s) _ (ids (of_user u (q t))) _ (r.user_links u t)
        (sym (user_list_empty u t) ∙ e)

  -- A member of a user's list, or of a type's, is a fund of that user and type, in its queue.
  pub mem-of_user :
      (a u : ℕ) (t : FundType)
      → has a (ids (of_user u (q t))) ≡ true
      → (fund_type (s.fund_by_id a).fund_desc ≡ t)
        × ((s.fund_by_id a).user_id ≡ u)
        × (has a (ids (q (fund_type (s.fund_by_id a).fund_desc))) ≡ true)
  mem-of_user a u t m =
      let inside = has-of_user a u (q t) m in
      let own = type-of_mem s t (q t) a (r.holds t) inside in
      (own, user-of_mem s t (q t) u a (r.holds t) m, rw own inside)

  -- An id is in the queue of one type only.
  pub one_type :
      (a : ℕ) (t x : FundType) → has a (ids (q t)) ≡ true → has a (ids (q x)) ≡ true → x ≡ t
  one_type a t x m n =
      ground (arith, type-of_mem s t (q t) a (r.holds t) m, type-of_mem s x (q x) a (r.holds x) n)

  -- What is 0 or in one queue is no member of another.
  pub foreign :
      (a b : ℕ) (t x : FundType)
      → type_eq x t ≡ false
      → has a (ids (q x)) ≡ true
      → (b ≡ 0) ⊎ (has b (ids (q t)) ≡ true)
      → (a == b) ≡ false
  foreign a b t x ne m h = ne→== _ _ λ e. elim h [
    | inl is_zero ↦ absurd (omega (arith, (id_bounds s x (q x) a (r.holds x) m).0))
    | inr inside ↦
        let both : x ≡ t = one_type a t x (rw e inside) m in
        cc (type_eq_refl x, ne, ap (type_eq x) both)
  ]

  pub apart_mem :
      (a : ℕ) (t x : FundType)
      → has a (ids (q t)) ≡ true
      → type_eq x t ≡ false
      → has a (ids (q x)) ≡ false
  apart_mem a t x m ne = elim (Bool-cases (has a (ids (q x)))) [
    | inl inside ↦
        let both : x ≡ t = one_type a t x m inside in cc (type_eq_refl x, ne, ap (type_eq x) both)
    | inr out ↦ out
  ]

  pub foreign_user :
      (a b u v : ℕ) (t x : FundType)
      → (v == u && type_eq x t) ≡ false
      → has a (ids (of_user v (q x))) ≡ true
      → (b ≡ 0) ⊎ (has b (ids (of_user u (q t))) ≡ true)
      → (a == b) ≡ false
  foreign_user a b u v t x ne m h = ne→== _ _ λ e.
      let inner = has-of_user a v (q x) m in
      elim h [
        | inl is_zero ↦ absurd (omega (arith, (id_bounds s x (q x) a (r.holds x) inner).0))
        | inr inside ↦
            let here : has a (ids (of_user u (q t))) ≡ true = rw e inside in
            let both : x ≡ t = one_type a t x (has-of_user a u (q t) here) inner in
            let same : v ≡ u = ground (
              arith,
              user-of_mem s t (q t) u a (r.holds t) here,
              user-of_mem s x (q x) v a (r.holds x) m,
            ) in
            let tested : type_eq x t ≡ true = rw both (type_eq_refl t) in ground arith
      ]

  -- The last id of a type, or of a user's list, is no member of another list.
  pub not_last_of_type :
      (a : ℕ) (t x : FundType)
      → type_eq x t ≡ false
      → has a (ids (q x)) ≡ true
      → (a == (s.ftype t).last) ≡ false
  not_last_of_type a t x ne m = foreign a _ t x ne m (last_of_type t)

  pub not_last_of_user :
      (a u v : ℕ) (t x : FundType)
      → (v == u && type_eq x t) ≡ false
      → has a (ids (of_user v (q x))) ≡ true
      → (a == (s.fuser u t).last) ≡ false
  not_last_of_user a u v t x ne m = foreign_user a _ u v t x ne m (last_of_user u t)
