-- ===== src/Funds/Links/Push.antt =====
-- Adding at the end of a linked list, as `add_fund_to_type_list` and `add_fund_to_user_list` do.
use mx_delegation_sc.Base.{
  ℕ, ◌<◌, ◌≡◌, Bool, true, false, List, [], ◌∷◌, ◌++◌, arith, ◌==◌, if◌then◌else◌, has,
}
use mx_delegation_sc.Funds.Links.{Nodup, Links, SameOn, last-mem}

abbrev pub is_nil : List ℕ → Bool
is_nil [] = true
is_nil (_ ∷ _) = false

module _ (nx pv nx' pv' : ℕ → ℕ) (id : ℕ) where
  -- The old last item leads to the new one; no other link changes.
  pub Links-push :
      (before first : ℕ) (xs : List ℕ) (last : ℕ)
      → Links nx pv before first xs last
      → Nodup xs
      → 0 < id
      → nx' id ≡ 0
      → pv' id ≡ last
      → ((x : ℕ) → has x xs ≡ true → nx' x ≡ (if x == last then id else nx x))
      → SameOn xs pv pv'
      → Links nx' pv' before (if is_nil xs then id else first) (xs ++ id ∷ []) id
  Links-push before first [] last h d pos n p hn hp = ground arith
  Links-push before first (x ∷ []) last (e, px, back, end) d pos n p hn hp =
      ground (arith, hn x, hp x)
  Links-push before first (x ∷ y ∷ xs) last (e, px, back, rest) (out, d) pos n p hn hp =
      let old = last-mem nx pv x (nx x) y xs last rest in
      let kept : nx' x ≡ nx x = ground (arith, hn x) in
      (
        e,
        px,
        ground (arith, hp x),
        rw kept (
            Links-push x (nx x) (y ∷ xs) last rest d pos n p (λ z m. hn z (ground arith))
              (λ z m. hp z (ground arith))),
      )
