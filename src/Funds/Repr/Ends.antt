-- ===== src/Funds/Repr/Ends.antt =====
-- The end of a list at which a loop of fund_module.rs starts: its first id for `Forwards`, its last
-- for `Backwards`. A loop that removes what it visits is always at that end of what is left.
use mx_delegation_sc.Base.{ℕ, ◌<◌, ◌≡◌, ◌⊎◌, inl, inr, refl, true, List, [], ◌∷◌, arith, has}
use mx_delegation_sc.Funds.Store.{SwapDirection, forwards, backwards}
use mx_delegation_sc.Funds.Links.{Nodup, Links, remove, Links-positive}
use mx_delegation_sc.Funds.Repr.{Entry, ids, total}

-- The last id of a list, or what stands before it.
abbrev pub final_or : ℕ → List ℕ → ℕ
final_or before [] = before
final_or before (x ∷ xs) = final_or x xs

abbrev pub end_of : SwapDirection → List ℕ → ℕ
end_of forwards [] = 0
end_of forwards (x ∷ xs) = x
end_of backwards xs = final_or 0 xs

pub total-nil : (es : List Entry) → ids es ≡ [] → total es ≡ 0
total-nil [] e = refl
total-nil (x ∷ es) e = cc

has-final_or : (before x : ℕ) (xs : List ℕ) → has (final_or before (x ∷ xs)) (x ∷ xs) ≡ true
has-final_or before x [] = ground arith
has-final_or before x (y ∷ xs) = ground (arith, has-final_or x y xs)

module _ (nx pv : ℕ → ℕ) where
  Links-last :
      (before first : ℕ) (xs : List ℕ) (last : ℕ)
      → Links nx pv before first xs last
      → last ≡ final_or before xs
  Links-last before first [] last h = h.1
  Links-last before first (x ∷ xs) last (e, pos, back, rest) = Links-last x (nx x) xs last rest

  pub Links-first :
      (before first : ℕ) (xs : List ℕ) (last : ℕ)
      → Links nx pv before first xs last
      → first ≡ end_of forwards xs
  Links-first before first [] last h = h.0
  Links-first before first (x ∷ xs) last h = h.0

  pub Links-ends :
      (first : ℕ) (xs : List ℕ) (last : ℕ)
      → Links nx pv 0 first xs last
      → (first ≡ end_of forwards xs) × (last ≡ end_of backwards xs)
  Links-ends first [] last h = h
  Links-ends first (x ∷ xs) last (e, pos, back, rest) = (e, Links-last x (nx x) xs last rest)

  -- What precedes the last id is the last of the others.
  prev-final_or :
      (before first x : ℕ) (xs : List ℕ) (last : ℕ)
      → Links nx pv before first (x ∷ xs) last
      → Nodup (x ∷ xs)
      → pv (final_or x xs) ≡ final_or before (remove (final_or x xs) (x ∷ xs))
  prev-final_or before first x [] last (e, pos, back, end) d = ground arith
  prev-final_or before first x (y ∷ xs) last (e, pos, back, rest) (out, d) =
      ground (arith, prev-final_or x (nx x) y xs last rest d, has-final_or x y xs)

abbrev pub link_of : SwapDirection → (nx pv : ℕ → ℕ) → ℕ → ℕ
link_of forwards nx pv = nx
link_of backwards nx pv = pv

module _ (nx pv : ℕ → ℕ) where
  -- An end is a member, but for the empty list.
  pub end-mem :
      (direction : SwapDirection) (first : ℕ) (xs : List ℕ) (last : ℕ)
      → Links nx pv 0 first xs last
      → ((end_of direction xs ≡ 0) × (xs ≡ []))
        ⊎ ((0 < end_of direction xs) × (has (end_of direction xs) xs ≡ true))
  end-mem forwards first [] last h = inl (refl, refl)
  end-mem forwards first (x ∷ xs) last (e, pos, back, rest) = inr (pos, ground arith)
  end-mem backwards first [] last h = inl (refl, refl)
  end-mem backwards first (x ∷ xs) last h =
      let m = has-final_or 0 x xs in
      inr (Links-positive nx pv 0 first (x ∷ xs) last (final_or x xs) h m, m)

  -- From the end, the link of the direction leads to the end of what is left without it.
  pub link-end :
      (direction : SwapDirection) (first : ℕ) (xs : List ℕ) (last : ℕ)
      → Links nx pv 0 first xs last
      → Nodup xs
      → has (end_of direction xs) xs ≡ true
      → link_of direction nx pv (end_of direction xs)
        ≡ end_of direction (remove (end_of direction xs) xs)
  link-end direction first [] last h d m = cc
  link-end forwards first (x ∷ xs) last (e, pos, back, rest) d m =
      ground (arith, Links-first nx pv x (nx x) xs last rest)
  link-end backwards first (x ∷ xs) last h d m = prev-final_or nx pv 0 first x xs last h d
