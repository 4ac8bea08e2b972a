-- ===== src/Users.antt =====
-- user-fund-storage/src/user_data.rs: user ids and addresses. An address is a number, of which the
-- code only asks whether it equals another; `user_id` reads 0 where it was never written, and
-- `user_address` is `none` there.
pub mod Registry
use mx_delegation_sc.Base.{
  ℕ, zero, suc, ◌+◌, Bool, true, false, List, [], ◌∷◌, ◌++◌, Option, none, some, ◌==◌,
  if◌then◌else◌, add_usize,
}

pub record Users : Type 0 where
  pub user_id : ℕ → ℕ
  pub user_address : ℕ → Option ℕ
  pub num_users : ℕ

abbrev pub no_users : Users
no_users = record { user_id = λ _. 0; user_address = λ _. none; num_users = 0 }

abbrev pub set_user_id : ℕ → ℕ → Users → Users
set_user_id address id u = record u { user_id = λ a. if a == address then id else u.user_id a }

abbrev pub set_user_address : ℕ → ℕ → Users → Users
set_user_address id address u = record u {
  user_address = λ i. if i == id then some address else u.user_address i;
}

abbrev pub is_empty_user_address : ℕ → Users → Bool
is_empty_user_address id u = elim (u.user_address id) [ none ↦ true | some _ ↦ false ]

unfoldable pub new_user : Users → ℕ × Users
new_user u = let n = add_usize u.num_users 1 in (n, record u { num_users = n })

unfoldable pub get_or_create_user : ℕ → Users → ℕ × Users
unfolding new_user
get_or_create_user address u =
    let id = u.user_id address in
    if id == 0
    then (let (n, u') = new_user u in (n, set_user_address n address (set_user_id address n u')))
    else if is_empty_user_address id u
    then (id, set_user_address id address u)
    else (id, u)

-- The three counts that `updateUserAddress` returns: updated, not updated, not found.
pub record UpdateCounts : Type 0 where
  pub num_updated : ℕ
  pub num_not_updated : ℕ
  pub num_not_found : ℕ

unfoldable pub update_one : ℕ → UpdateCounts × Users → UpdateCounts × Users
update_one address (c, u) =
    let id = u.user_id address in
    if id == 0
    then (record c { num_not_found = c.num_not_found + 1 }, u)
    else if is_empty_user_address id u
    then (record c { num_updated = c.num_updated + 1 }, set_user_address id address u)
    else (record c { num_not_updated = c.num_not_updated + 1 }, u)

unfoldable pub update_loop : List ℕ → UpdateCounts × Users → UpdateCounts × Users
unfolding update_one
update_loop [] st = st
update_loop (address ∷ rest) st = update_loop rest (update_one address st)

unfoldable pub update_user_address : List ℕ → Users → UpdateCounts × Users
unfolding update_loop
update_user_address addresses u =
    update_loop addresses (record { num_updated = 0; num_not_updated = 0; num_not_found = 0 }, u)

unfoldable pub ids_without_address : ℕ → Users → List ℕ
ids_without_address zero u = []
ids_without_address (suc n) u =
    let rest = ids_without_address n u in
    if is_empty_user_address (suc n) u then rest ++ suc n ∷ [] else rest

unfoldable pub user_ids_without_address : Users → List ℕ
unfolding ids_without_address
user_ids_without_address u = ids_without_address u.num_users u
