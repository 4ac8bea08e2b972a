-- ===== src/Funds/Repr/Limits.antt =====
-- The optional limit of a conversion loop, as the loop uses it up.
use mx_delegation_sc.Base.{ℕ, ◌+◌, ◌≡◌, refl, ap, Option, none, some, arith, true, false, min, leb}
use mx_delegation_sc.Funds.Convert.{is_drained}
use mx_delegation_sc.Funds.Repr.SplitConvert.{limit_of, limit_after}

-- What a list of this total gives under the limit.
abbrev pub within : Option ℕ → ℕ → ℕ
within opt total = min (limit_of opt total) total

pub limit_after-within :
    (opt : Option ℕ) (b : ℕ) → limit_after opt b ≡ limit_after opt (within opt b)
limit_after-within none b = refl
limit_after-within (some m) b = ap some (omega arith)

pub limit_after_twice :
    (opt : Option ℕ) (a b : ℕ) → limit_after (limit_after opt a) b ≡ limit_after opt (a + b)
limit_after_twice none a b = refl
limit_after_twice (some m) a b = ap some (omega arith)

pub limit_after_zero : (opt : Option ℕ) → limit_after opt 0 ≡ opt
limit_after_zero none = refl
limit_after_zero (some m) = ap some (omega arith)

pub within_zero : (opt : Option ℕ) → within opt 0 ≡ 0
within_zero none = omega arith
within_zero (some m) = omega arith

pub within_drained : (opt : Option ℕ) (total : ℕ) → is_drained opt ≡ true → within opt total ≡ 0
within_drained none total d = cc
within_drained (some m) total d = ground arith

-- An item that the limit covers, and then the rest of the list.
pub within-whole :
    (opt : Option ℕ) (b rest : ℕ)
    → leb b (limit_of opt b) ≡ true
    → (within opt b ≡ b) × (b + within (limit_after opt b) rest ≡ within opt (b + rest))
within-whole none b rest h = (omega arith, omega arith)
within-whole (some m) b rest h = (ground arith, ground arith)

-- An item that the limit does not cover gives the limit.
pub within-limit :
    (opt : Option ℕ) (b : ℕ) → leb b (limit_of opt b) ≡ false → within opt b ≡ limit_of opt b
within-limit none b h = ground arith
within-limit (some m) b h = ground arith

-- An item that the limit does not cover uses it up.
pub within-part :
    (opt : Option ℕ) (b rest : ℕ)
    → leb b (limit_of opt b) ≡ false
    → (is_drained (limit_after opt b) ≡ true) × (within opt b ≡ within opt (b + rest))
within-part none b rest h = ground arith
within-part (some m) b rest h = (ground arith, ground arith)
