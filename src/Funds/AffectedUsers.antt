-- ===== src/Funds/AffectedUsers.antt =====
-- user-fund-storage/src/types/affected_user_id_vec.rs: the users that a swap touches, sorted and
-- without repetition. The standard library's unstable sort of numbers has one result, the sorted
-- list, which an insertion sort computes; `partition_dedup` keeps the first of equal neighbours.
pub mod Sorted
use mx_delegation_sc.Base.{
  ℕ, ◌+◌, ◌≤◌, ◌<◌, ◌≡◌, refl, Bool, true, false, ◌||◌, List, [], ◌∷◌, ◌++◌, arith, leb, ltb, ◌==◌,
  if◌then◌else◌, length, has,
}
use mx_delegation_sc.Base.Outcome.{Result, ok, err, Error}

abbrev pub max_affected_users : ℕ
max_affected_users = 10000

-- `affected_users.try_push(user_id).unwrap_or_else(panic)`
unfoldable pub try_push : List ℕ → ℕ → Result (List ℕ)
try_push users user_id =
    if ltb (length users) max_affected_users
    then ok (users ++ user_id ∷ [])
    else err Error.affected_user_capacity_exceeded

unfoldable pub insert_sorted : ℕ → List ℕ → List ℕ
insert_sorted a [] = a ∷ []
insert_sorted a (x ∷ xs) = if leb a x then a ∷ x ∷ xs else x ∷ insert_sorted a xs

unfoldable pub sort_unstable : List ℕ → List ℕ
unfolding insert_sorted
sort_unstable [] = []
sort_unstable (x ∷ xs) = insert_sorted x (sort_unstable xs)

-- The rest of a list behind `a`, without what repeats its predecessor.
unfoldable pub dedup_after : ℕ → List ℕ → List ℕ
dedup_after a [] = []
dedup_after a (x ∷ xs) = let rest = dedup_after x xs in if x == a then rest else x ∷ rest

unfoldable pub partition_dedup : List ℕ → List ℕ
unfolding dedup_after
partition_dedup [] = []
partition_dedup (x ∷ xs) = x ∷ dedup_after x xs

unfoldable pub affected_users_sort_dedup : List ℕ → List ℕ
unfolding sort_unstable partition_dedup
affected_users_sort_dedup users = partition_dedup (sort_unstable users)
