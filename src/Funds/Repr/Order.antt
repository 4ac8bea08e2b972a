-- ===== src/Funds/Repr/Order.antt =====
-- The order in which a loop of fund_module.rs takes the funds of a list, and what is left of the list
-- once it took an amount: funds at the front are used up, and the next one is split.
use mx_delegation_sc.Base.{
  ℕ, ◌+◌, ◌-◌, ◌≡◌, refl, ap, true, false, List, [], ◌∷◌, ◌++◌, arith, ◌==◌, leb, has, eq→==, ne→==,
  if◌then◌else◌,
}
use mx_delegation_sc.Funds.Types.{FundType}
use mx_delegation_sc.Funds.Store.{Funds, SwapDirection, forwards, backwards}
use mx_delegation_sc.Funds.Links.{Nodup}
use mx_delegation_sc.Funds.Repr.{Entry, ids, AllHold, Holds}
use mx_delegation_sc.Funds.Repr.Rebalance.{set_balance, set_balance_absent}
use mx_delegation_sc.Funds.Repr.Shrink.{remove_entry}
use mx_delegation_sc.Funds.Repr.Ends.{end_of}

-- The list from the end at which the loop starts.
abbrev pub toward : SwapDirection → List Entry → List Entry
toward forwards es = es
toward backwards [] = []
toward backwards (e ∷ es) = toward backwards es ++ e ∷ []

-- What is left once `k` is taken from the front.
abbrev pub spend : ℕ → List Entry → List Entry
spend k [] = []
spend k (e ∷ es) =
    let rest = spend (k - e.balance) es in
    if leb e.balance k then rest else record e { balance = e.balance - k } ∷ es

-- The entry at which the loop starts, and what taking it out or changing it does.
pub record Front (s : Funds) (t : FundType) (direction : SwapDirection) (es : List Entry)
    (e : Entry) (rest : List Entry) : Type 0 where
  pub seen : toward direction es ≡ e ∷ rest
  pub at_end : end_of direction (ids es) ≡ e.id
  pub inside : has e.id (ids es) ≡ true
  pub holds : Holds s t e
  pub removed : toward direction (remove_entry e.id es) ≡ rest
  pub changed : (b : ℕ) → toward direction (set_balance e.id b es) ≡ record e { balance = b } ∷ rest

ne_of_has : (a b : ℕ) (xs : List ℕ) → has a xs ≡ false → has b xs ≡ true → (a == b) ≡ false
ne_of_has a b xs out inside = ne→== a b λ p. cc (ap (λ z. has z xs) p, out, inside)

pub front :
    (s : Funds) (t : FundType) (direction : SwapDirection) (x : Entry) (es : List Entry)
    → AllHold s t (x ∷ es)
    → Nodup (ids (x ∷ es))
    → (e : Entry) × (rest : List Entry) × Front s t direction (x ∷ es) e rest
front s t forwards x es (h, hs) (out, distinct) =
    let own : (x.id == x.id) ≡ true = eq→== x.id x.id refl in
    (
      x,
      es,
      record {
        seen = refl;
        at_end = refl;
        inside = ground arith;
        holds = h;
        removed = rw own refl;
        changed =
            λ b. rw own (ap (λ z. record x { balance = b } ∷ z) (set_balance_absent x.id b es out));
      },
    )
front s t backwards x [] (h, hs) (out, distinct) =
    let own : (x.id == x.id) ≡ true = eq→== x.id x.id refl in
    (
      x,
      [],
      record {
        seen = refl;
        at_end = refl;
        inside = ground arith;
        holds = h;
        removed = rw own refl;
        changed = λ b. rw own refl;
      },
    )
front s t backwards x (y ∷ ys) (h, hs) (out, distinct) =
    let (e, rest, f) = front s t backwards y ys hs distinct in
    let apart : (x.id == e.id) ≡ false = ne_of_has x.id e.id (ids (y ∷ ys)) out f.inside in
    (
      e,
      rest ++ x ∷ [],
      record {
        seen = ap (λ z. z ++ x ∷ []) f.seen;
        at_end = f.at_end;
        inside = ground (arith, f.inside);
        holds = f.holds;
        removed = rw apart (ap (λ z. z ++ x ∷ []) f.removed);
        changed = λ b. rw apart (ap (λ z. z ++ x ∷ []) (f.changed b));
      },
    )

-- Nothing is taken.
pub spend_zero :
    (s : Funds) (t : FundType) (direction : SwapDirection) (es : List Entry)
    → AllHold s t es
    → Nodup (ids es)
    → toward direction es ≡ spend 0 (toward direction es)
spend_zero s t forwards [] h d = refl
spend_zero s t backwards [] h d = refl
spend_zero s t direction (x ∷ es) h d =
    let (e, rest, f) = front s t direction x es h d in
    let kept : leb e.balance 0 ≡ false = ground (arith, f.holds.positive) in
    let same : e.balance ≡ e.balance - 0 = omega arith in
    rw f.seen (rw kept (ap (λ b. record e { balance = b } ∷ rest) same))

-- The fund at the front is taken whole, and then `k` from what is left.
pub spend-whole :
    (k : ℕ) (e : Entry) (rest : List Entry) → spend k rest ≡ spend (e.balance + k) (e ∷ rest)
spend-whole k e rest =
    let all : leb e.balance (e.balance + k) ≡ true = ground arith in
    let same : k ≡ (e.balance + k) - e.balance = omega arith in rw all (ap (λ n. spend n rest) same)

-- The fund at the front is split.
pub spend-part :
    (k : ℕ) (e : Entry) (rest : List Entry)
    → leb e.balance k ≡ false
    → record e { balance = e.balance - k } ∷ rest ≡ spend k (e ∷ rest)
spend-part k e rest part = rw part refl

not_inside : (a : ℕ) → has a [] ≡ true → ⊥
not_inside a m = cc

module _ (s : Funds) (t : FundType) (direction : SwapDirection) where
  abbrev first : List Entry → ℕ
  first es = end_of direction (ids es)

  remove_first :
      (k : ℕ) (es : List Entry) (e : Entry) (rest : List Entry)
      → Front s t direction es e rest
      → spend k (toward direction (remove_entry (first es) es))
        ≡ spend ((s.fund_by_id (first es)).balance + k) (toward direction es)
  remove_first k es e rest f =
      rw (f.at_end, f.holds.balance, f.removed, f.seen) (spend-whole k e rest)

  split_first :
      (k : ℕ) (es : List Entry) (e : Entry) (rest : List Entry)
      → Front s t direction es e rest
      → leb (s.fund_by_id (first es)).balance k ≡ false
      → toward direction (set_balance (first es) ((s.fund_by_id (first es)).balance - k) es)
        ≡ spend k (toward direction es)
  split_first k es e rest f part =
      let part' : leb e.balance k ≡ false = rw (f.at_end, f.holds.balance) at (part) in
      rw (f.at_end, f.holds.balance, f.changed (e.balance - k), f.seen) (spend-part k e rest part')

  -- Taking the first fund out, and then `k`.
  pub spend-remove :
      (k : ℕ) (es : List Entry)
      → AllHold s t es
      → Nodup (ids es)
      → has (first es) (ids es) ≡ true
      → spend k (toward direction (remove_entry (first es) es))
        ≡ spend ((s.fund_by_id (first es)).balance + k) (toward direction es)
  spend-remove k [] h d m = absurd (not_inside 0 m)
  spend-remove k (x ∷ es) h d m =
      let (e, rest, f) = front s t direction x es h d in remove_first k (x ∷ es) e rest f

  -- Taking a part of the first fund.
  pub spend-split :
      (k : ℕ) (es : List Entry)
      → AllHold s t es
      → Nodup (ids es)
      → has (first es) (ids es) ≡ true
      → leb (s.fund_by_id (first es)).balance k ≡ false
      → toward direction (set_balance (first es) ((s.fund_by_id (first es)).balance - k) es)
        ≡ spend k (toward direction es)
  spend-split k [] h d m part = absurd (not_inside 0 m)
  spend-split k (x ∷ es) h d m part =
      let (e, rest, f) = front s t direction x es h d in split_first k (x ∷ es) e rest f part
