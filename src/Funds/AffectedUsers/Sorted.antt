-- ===== src/Funds/AffectedUsers/Sorted.antt =====
-- What affected_user_id_vec.rs makes of the users that a swap touched.
use mx_delegation_sc.Base.{ℕ, ◌≤◌, ◌<◌, ◌≡◌, refl, ◌∙◌, ◌||◌, List, [], ◌∷◌, arith, ◌==◌, has}
use mx_delegation_sc.Funds.AffectedUsers.{
  insert_sorted, sort_unstable, dedup_after, partition_dedup, affected_users_sort_dedup,
}

-- No element is below `low`, and each is at least its predecessor.
abbrev Ascending : ℕ → List ℕ → Type 0
Ascending low [] = Unit {0}
Ascending low (x ∷ xs) = (low ≤ x) × Ascending x xs

-- Each element is above its predecessor, and all are above `low`.
abbrev pub StrictlyAbove : ℕ → List ℕ → Type 0
StrictlyAbove low [] = Unit {0}
StrictlyAbove low (x ∷ xs) = (low < x) × StrictlyAbove x xs

abbrev pub StrictlyAscending : List ℕ → Type 0
StrictlyAscending [] = Unit {0}
StrictlyAscending (x ∷ xs) = StrictlyAbove x xs

insert_sorted-Ascending :
    (low a : ℕ) (xs : List ℕ) → Ascending low xs → low ≤ a → Ascending low (insert_sorted a xs)
unfolding insert_sorted
insert_sorted-Ascending low a [] h le = (le, tt)
insert_sorted-Ascending low a (x ∷ xs) (lx, h) le = ground (arith, insert_sorted-Ascending x a xs h)

sort_unstable-Ascending : (xs : List ℕ) → Ascending 0 (sort_unstable xs)
unfolding sort_unstable
sort_unstable-Ascending [] = tt
sort_unstable-Ascending (x ∷ xs) =
    insert_sorted-Ascending 0 x (sort_unstable xs) (sort_unstable-Ascending xs) (omega arith)

has-insert_sorted : (b a : ℕ) (xs : List ℕ) → has b (insert_sorted a xs) ≡ (b == a || has b xs)
unfolding insert_sorted
has-insert_sorted b a [] = ground arith
has-insert_sorted b a (x ∷ xs) = ground (arith, has-insert_sorted b a xs)

has-sort_unstable : (b : ℕ) (xs : List ℕ) → has b (sort_unstable xs) ≡ has b xs
unfolding sort_unstable
has-sort_unstable b [] = refl
has-sort_unstable b (x ∷ xs) =
    ground (arith, has-insert_sorted b x (sort_unstable xs), has-sort_unstable b xs)

dedup_after-StrictlyAbove :
    (a : ℕ) (xs : List ℕ) → Ascending a xs → StrictlyAbove a (dedup_after a xs)
unfolding dedup_after
dedup_after-StrictlyAbove a [] h = tt
dedup_after-StrictlyAbove a (x ∷ xs) (le, h) = ground (arith, dedup_after-StrictlyAbove x xs h)

has-dedup_after :
    (b a : ℕ) (xs : List ℕ) → (b == a || has b (dedup_after a xs)) ≡ (b == a || has b xs)
unfolding dedup_after
has-dedup_after b a [] = refl
has-dedup_after b a (x ∷ xs) = ground (arith, has-dedup_after b x xs)

-- The affected users are strictly ascending, so without repetition, and are the users that were
-- pushed, no fewer and no others.
pub affected_users_sort_dedup-StrictlyAscending :
    (users : List ℕ)
    → StrictlyAscending (affected_users_sort_dedup users)
      × ((b : ℕ) → has b (affected_users_sort_dedup users) ≡ has b users)
unfolding affected_users_sort_dedup partition_dedup
affected_users_sort_dedup-StrictlyAscending users = (
  strict (sort_unstable users) (sort_unstable-Ascending users),
  λ b. same b (sort_unstable users) ∙ has-sort_unstable b users,
)
  where
    strict : (xs : List ℕ) → Ascending 0 xs → StrictlyAscending (partition_dedup xs)
    strict [] h = tt
    strict (x ∷ xs) (le, h) = dedup_after-StrictlyAbove x xs h

    same : (b : ℕ) (xs : List ℕ) → has b (partition_dedup xs) ≡ has b xs
    same b [] = refl
    same b (x ∷ xs) = has-dedup_after b x xs
