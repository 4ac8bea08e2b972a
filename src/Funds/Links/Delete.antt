-- ===== src/Funds/Links/Delete.antt =====
-- Taking an item out of a linked list, as `delete_fund_from_type_list` and
-- `delete_fund_from_user_list` do.
use mx_delegation_sc.Base.{
  ℕ, ◌≡◌, ◌≢◌, refl, inl, inr, true, false, List, [], ◌∷◌, arith, ◌==◌, if◌then◌else◌, has,
  Bool-cases, ==→eq,
}
use mathlib.Core.Path.{subst}
use mx_delegation_sc.Funds.Links.{Nodup, Links, remove, Links-frame, next-mem, prev-first}

pub has-remove : (a x : ℕ) (xs : List ℕ) → has a (remove x xs) ≡ true → has a xs ≡ true
has-remove a x [] h = h
has-remove a x (y ∷ ys) h = ground (arith, has-remove a x ys)

pub remove-Nodup : (x : ℕ) (xs : List ℕ) → Nodup xs → Nodup (remove x xs)
remove-Nodup x [] d = d
remove-Nodup x (y ∷ ys) (out, d) = ground (arith, remove-Nodup x ys d, has-remove y x ys)

pub has-remove_self : (x : ℕ) (xs : List ℕ) → Nodup xs → has x (remove x xs) ≡ false
has-remove_self x [] d = refl
has-remove_self x (y ∷ ys) (out, d) = ground (arith, has-remove_self x ys d)

pub has-remove_ne : (a x : ℕ) (xs : List ℕ) → a ≢ x → has a (remove x xs) ≡ has a xs
has-remove_ne a x [] ne = refl
has-remove_ne a x (y ∷ ys) ne = ground (arith, has-remove_ne a x ys ne)

module _ (nx pv nx' pv' : ℕ → ℕ) (a : ℕ) where
  -- The neighbours of the removed item point at each other; no other link changes.
  abbrev Bypass : List ℕ → Type 0
  Bypass xs =
      ((x : ℕ) → has x xs ≡ true → x ≢ a → nx' x ≡ (if x == pv a then nx a else nx x))
      × ((x : ℕ) → has x xs ≡ true → x ≢ a → pv' x ≡ (if x == nx a then pv a else pv x))

  Links-delete_head :
      (before : ℕ) (xs : List ℕ) (last : ℕ)
      → Links nx pv a (nx a) xs last
      → Nodup xs
      → has a xs ≡ false
      → has before xs ≡ false
      → pv a ≡ before
      → Bypass xs
      → Links nx' pv' before (nx a) xs (if nx a == 0 then pv a else last)
  Links-delete_head before [] last (e, end) d na nb p by = ground arith
  Links-delete_head before (x ∷ xs) last (e, px, back, rest) (out, d) na nb p (hn, hp) =
      let kept : nx' x ≡ nx x = ground (arith, hn x) in
      let same_last : (if nx a == 0 then pv a else last) ≡ last = ground arith in
      (
        e,
        px,
        ground (arith, hp x),
        rw (kept, same_last)
            (Links-frame x (nx x) xs last (λ y m. ground (arith, hn y))
              (λ y m. ground (arith, hp y)) rest),
      )

  pub Links-delete :
      (before first : ℕ) (xs : List ℕ) (last : ℕ)
      → Links nx pv before first xs last
      → Nodup xs
      → has before xs ≡ false
      → has a xs ≡ true
      → Bypass xs
      → Links nx' pv' before
          (if pv a == before then nx a else first)
          (remove a xs)
          (if nx a == 0 then pv a else last)
  Links-delete before first [] last h d nb m by = cc
  Links-delete before first (x ∷ xs) last (e, px, back, rest) (out, d) nb m (hn, hp) =
      elim (Bool-cases (x == a)) [
        | inl hit ↦
            let same : x ≡ a = ==→eq x a hit in
            let head : (if pv a == before then nx a else first) ≡ nx a = ground arith in
            rw (head, hit)
              (Links-delete_head before xs last
                (subst (λ z. Links nx pv z (nx z) xs last) same rest) d (ground arith)
                (ground arith) (ground arith)
                (λ y i. hn y (ground arith), λ y i. hp y (ground arith)))
        | inr miss ↦
            let inside : has a xs ≡ true = ground arith in
            let whole =
              prev-first nx pv before first (x ∷ xs) last a (e, px, back, rest) (out, d) nb m in
            let head : (if pv a == before then nx a else first) ≡ first = ground arith in
            let link : nx' x ≡ (if pv a == x then nx a else nx x) = ground (arith, hn x) in
            let behind : pv' x ≡ before =
              ground (arith, hp x, next-mem nx pv x (nx x) xs last a rest inside) in
            rw (head, miss)
              (
                e,
                px,
                behind,
                rw link (
                    Links-delete x (nx x) xs last rest d out inside
                      (λ y i. hn y (ground arith), λ y i. hp y (ground arith))),
              )
      ]
