-- ===== src/Funds/Links.antt =====
-- Doubly linked lists of ids, as fund_module.rs links its items: `nx` and `pv` are the links, 0 ends
-- a list on either side. Both families of lists, by type and by user, are of this kind.
pub mod Push
pub mod Delete
use mx_delegation_sc.Base.{
  ℕ, ◌<◌, ◌≡◌, ◌⊎◌, inl, inr, Bool, true, false, List, [], ◌∷◌, arith, ◌==◌, if◌then◌else◌, has,
}

abbrev pub Nodup : List ℕ → Type 0
Nodup [] = Unit {0}
Nodup (x ∷ xs) = (has x xs ≡ false) × Nodup xs

abbrev pub remove : ℕ → List ℕ → List ℕ
remove a [] = []
remove a (x ∷ xs) = if x == a then xs else x ∷ remove a xs

-- From `first`, behind `before`, the links lead through `xs` to `last`.
abbrev pub Links : (nx pv : ℕ → ℕ) (before first : ℕ) → List ℕ → ℕ → Type 0
Links nx pv before first [] last = (first ≡ 0) × (last ≡ before)
Links nx pv before first (x ∷ xs) last =
    (first ≡ x) × (0 < x) × (pv x ≡ before) × Links nx pv x (nx x) xs last

-- Two links agree on the members of a list.
abbrev pub SameOn : List ℕ → (ℕ → ℕ) → (ℕ → ℕ) → Type 0
SameOn xs f g = (x : ℕ) → has x xs ≡ true → g x ≡ f x

pub Links-frame :
    {nx pv nx' pv' : ℕ → ℕ} (before first : ℕ) (xs : List ℕ) (last : ℕ)
    → SameOn xs nx nx'
    → SameOn xs pv pv'
    → Links nx pv before first xs last
    → Links nx' pv' before first xs last
Links-frame before first [] last hn hp h = h
Links-frame {nx} {nx'} before first (x ∷ xs) last hn hp (e, pos, back, rest) =
    let same_next : nx' x ≡ nx x = hn x (ground arith) in
    (
      e,
      pos,
      ground (arith, hp x),
      rw same_next (
          Links-frame x (nx x) xs last (λ y m. hn y (ground arith)) (λ y m. hp y (ground arith))
            rest),
    )

module _ (nx pv : ℕ → ℕ) where
  pub Links-positive :
      (before first : ℕ) (xs : List ℕ) (last a : ℕ)
      → Links nx pv before first xs last
      → has a xs ≡ true
      → 0 < a
  Links-positive before first [] last a h m = cc
  Links-positive before first (x ∷ xs) last a (e, pos, back, rest) m =
      ground (arith, Links-positive x (nx x) xs last a rest)

  -- What follows a member is a member, or nothing.
  pub next-mem :
      (before first : ℕ) (xs : List ℕ) (last a : ℕ)
      → Links nx pv before first xs last
      → has a xs ≡ true
      → (nx a ≡ 0) ⊎ (has (nx a) xs ≡ true)
  next-mem before first [] last a h m = cc
  next-mem before first (x ∷ []) last a (e, pos, back, end) m = inl (ground arith)
  next-mem before first (x ∷ y ∷ xs) last a (e, pos, back, rest) m =
      ground (arith, next-mem x (nx x) (y ∷ xs) last a rest)

  -- What precedes a member is a member, or what stands before the list.
  pub prev-mem :
      (before first : ℕ) (xs : List ℕ) (last a : ℕ)
      → Links nx pv before first xs last
      → has a xs ≡ true
      → (pv a ≡ before) ⊎ (has (pv a) xs ≡ true)
  prev-mem before first [] last a h m = cc
  prev-mem before first (x ∷ xs) last a (e, pos, back, rest) m =
      ground (arith, prev-mem x (nx x) xs last a rest)

  -- The last id is a member.
  pub last-mem :
      (before first x : ℕ) (xs : List ℕ) (last : ℕ)
      → Links nx pv before first (x ∷ xs) last
      → has last (x ∷ xs) ≡ true
  last-mem before first x [] last (e, pos, back, end) = ground arith
  last-mem before first x (y ∷ xs) last (e, pos, back, rest) =
      ground (arith, last-mem x (nx x) y xs last rest)

  -- A member has `before` behind it exactly where it is the first.
  pub prev-first :
      (before first : ℕ) (xs : List ℕ) (last a : ℕ)
      → Links nx pv before first xs last
      → Nodup xs
      → has before xs ≡ false
      → has a xs ≡ true
      → (pv a == before) ≡ (a == first)
  prev-first before first [] last a h d nb m = cc
  prev-first before first (x ∷ xs) last a (e, pos, back, rest) (out, d) nb m =
      ground (arith, prev-mem x (nx x) xs last a rest)
