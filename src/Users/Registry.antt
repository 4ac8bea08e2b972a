-- ===== src/Users/Registry.antt =====
-- What the maps of user_data.rs keep to: ids are handed out in order, no two addresses share one,
-- and the address that is stored for an id has that id.
use mx_delegation_sc.Base.{
  ℕ, ◌+◌, ◌^◌, ◌≤◌, ◌<◌, ◌≡◌, refl, ap, true, false, List, [], ◌∷◌, ◌++◌, Option, none, some, ◌==◌,
  add_usize, zero, suc, ltb, if◌then◌else◌, length-append, sym, Bool, ◌∙◌, arith, length, inl, inr,
  Bool-cases, Option-cases, ◌⊎◌,
}
use mx_delegation_sc.Users.{
  Users, UpdateCounts, get_or_create_user, is_empty_user_address, set_user_address, set_user_id,
  update_one, update_loop, update_user_address, ids_without_address, user_ids_without_address,
}

pub record IsRegistry (u : Users) : Type 0 where
  pub bound : (a : ℕ) → u.user_id a ≤ u.num_users
  pub injective : (a b : ℕ) → 0 < u.user_id a → u.user_id a ≡ u.user_id b → a ≡ b
  pub back : (i a : ℕ) → u.user_address i ≡ some a → (u.user_id a ≡ i) × (0 < i)

address-cases :
    (id : ℕ) (u : Users)
    → (is_empty_user_address id u ≡ true)
      ⊎ ((b : ℕ) × (u.user_address id ≡ some b) × (is_empty_user_address id u ≡ false))
address-cases id u = elim (Option-cases (u.user_address id)) [
  | inl missing ↦ inl (ap (λ o. elim o [ none ↦ true | some _ ↦ false ]) missing)
  | inr (b, found) ↦ inr (b, found, ap (λ o. elim o [ none ↦ true | some _ ↦ false ]) found)
]

some-injective : (a b : ℕ) → some a ≡ some b → a ≡ b
some-injective a b e = cc

set_user_address-IsRegistry :
    (address : ℕ) (u : Users)
    → IsRegistry u
    → 0 < u.user_id address
    → IsRegistry (set_user_address (u.user_id address) address u)
set_user_address-IsRegistry address u r pos = record {
  bound = r.bound;
  injective = r.injective;
  back = λ i a e. ground (arith, r.back i a, some-injective address a);
}

register-IsRegistry :
    (address : ℕ) (u : Users)
    → IsRegistry u
    → u.user_id address ≡ 0
    → IsRegistry (
        set_user_address
          (u.num_users + 1)
          address
          (set_user_id address (u.num_users + 1) (record u { num_users = u.num_users + 1 })))
register-IsRegistry address u r absent = record {
  bound = λ a. ground (arith, r.bound a);
  injective = λ a b pos e. ground (arith, r.bound a, r.bound b, r.injective a b);
  back = λ i a e. ground (arith, r.back i a, some-injective address a);
}

-- On a well-formed registry with an id left, `get_or_create_user` returns a positive id which is
-- from then on the id of the address and has the address stored; it keeps the registry well formed
-- and the id of every other address.
pub get_or_create_user-IsRegistry :
    (address : ℕ) (u : Users)
    → IsRegistry u
    → u.num_users + 1 < 2 ^ 32
    → (0 < (get_or_create_user address u).0)
      × ((get_or_create_user address u).1.user_id address ≡ (get_or_create_user address u).0)
      × ((get_or_create_user address u).1.user_address (get_or_create_user address u).0
          ≡ some address)
      × ((a : ℕ) → (a ≡ address) ⊎ ((get_or_create_user address u).1.user_id a ≡ u.user_id a))
      × IsRegistry (get_or_create_user address u).1
unfolding get_or_create_user
get_or_create_user-IsRegistry address u r room = elim (Bool-cases (u.user_id address == 0)) [
  | inl absent ↦
      let kept : add_usize u.num_users 1 ≡ u.num_users + 1 = omega arith in
      rw (absent, kept)
        (
          omega arith,
          ground arith,
          ground arith,
          λ a. ground arith,
          register-IsRegistry address u r (ground arith),
        )
  | inr present ↦ elim (address-cases (u.user_id address) u) [
    | inl missing ↦
        rw (present, missing)
          (
            ground arith,
            refl,
            ground arith,
            λ a. inr refl,
            set_user_address-IsRegistry address u r (ground arith),
          )
    | inr (b, found, filled) ↦
        let same : b ≡ address =
          r.injective b address (ground (arith, r.back (u.user_id address) b found))
            (r.back (u.user_id address) b found).0 in
        rw (present, filled) (ground arith, refl, rw (found, same), λ a. inr refl, r)
  ]
]

update_one-IsRegistry :
    (address : ℕ) (c : UpdateCounts) (u : Users)
    → IsRegistry u
    → IsRegistry (update_one address (c, u)).1
unfolding update_one
update_one-IsRegistry address c u r = elim (Bool-cases (u.user_id address == 0)) [
  | inl absent ↦ rw absent r
  | inr present ↦ elim (address-cases (u.user_id address) u) [
    | inl missing ↦ rw (present, missing) (set_user_address-IsRegistry address u r (ground arith))
    | inr (b, found, filled) ↦ rw (present, filled) r
  ]
]

abbrev pub counted : UpdateCounts → ℕ
counted c = c.num_updated + c.num_not_updated + c.num_not_found

update_one-counted :
    (address : ℕ) (c : UpdateCounts) (u : Users)
    → (counted (update_one address (c, u)).0 ≡ counted c + 1)
      × ((update_one address (c, u)).1.user_id ≡ u.user_id)
      × ((update_one address (c, u)).1.num_users ≡ u.num_users)
unfolding update_one
update_one-counted address c u = elim (Bool-cases (u.user_id address == 0)) [
  | inl absent ↦ rw absent (omega arith, refl, refl)
  | inr present ↦ elim (address-cases (u.user_id address) u) [
    | inl missing ↦ rw (present, missing) (omega arith, refl, refl)
    | inr (b, found, filled) ↦ rw (present, filled) (omega arith, refl, refl)
  ]
]

-- The first of the addresses whose id is `i`.
abbrev pub first_of : List ℕ → (ℕ → ℕ) → ℕ → Option ℕ
first_of [] user_id i = none
first_of (a ∷ rest) user_id i = if user_id a == i then some a else first_of rest user_id i

-- What the address of the id `i` is to be: an address that is stored stays, an empty one becomes the
-- first of the given addresses that has the id. The id 0 stands for unknown addresses.
abbrev pub updated_address : List ℕ → (ℕ → ℕ) → ℕ → Option ℕ → Option ℕ
updated_address addresses user_id i none = if i == 0 then none else first_of addresses user_id i
updated_address addresses user_id i (some b) = some b

-- How many of the addresses have no id.
abbrev pub unknown_addresses : List ℕ → (ℕ → ℕ) → ℕ
unknown_addresses [] user_id = 0
unknown_addresses (a ∷ rest) user_id =
    (if user_id a == 0 then 1 else 0) + unknown_addresses rest user_id

updated_address-cons :
    (a : ℕ) (rest : List ℕ) (user_id : ℕ → ℕ) (i : ℕ) (o : Option ℕ)
    → updated_address rest user_id i (updated_address (a ∷ []) user_id i o)
      ≡ updated_address (a ∷ rest) user_id i o
updated_address-cons a rest user_id i (some b) = refl
updated_address-cons a rest user_id i none = elim (Bool-cases (i == 0)) [
  | inl no_id ↦ rw (no_id, no_id) refl
  | inr id ↦ elim (Bool-cases (user_id a == i)) [
    | inl first ↦ rw (id, first) refl
    | inr later ↦ rw (id, later, id) refl
  ]
]

updated_address-nil : (user_id : ℕ → ℕ) (i : ℕ) (o : Option ℕ) → updated_address [] user_id i o ≡ o
updated_address-nil user_id i none = ground arith
updated_address-nil user_id i (some b) = refl

abbrev is_missing : Option ℕ → Bool
is_missing o = elim o [ none ↦ true | some _ ↦ false ]

without-zero : (u : Users) → ids_without_address 0 u ≡ []
unfolding ids_without_address
without-zero u = refl

without-suc :
    (n : ℕ) (u : Users)
    → ids_without_address (suc n) u ≡ (
        if is_empty_user_address (suc n) u
        then ids_without_address n u ++ suc n ∷ []
        else ids_without_address n u)
unfolding ids_without_address
without-suc n u = refl

-- An id that gets its address is no longer among those without.
ids_without_address-filled :
    (n id address : ℕ) (u : Users)
    → 0 < id
    → is_empty_user_address id u ≡ true
    → length (ids_without_address n (set_user_address id address u)) + (if ltb n id then 0 else 1)
      ≡ length (ids_without_address n u)
ids_without_address-filled zero id address u pos empty =
    let past : ltb 0 id ≡ true = ground arith in
    rw (without-zero u, without-zero (set_user_address id address u), past) refl
ids_without_address-filled (suc n) id address u pos empty =
    let before = ids_without_address-filled n id address u pos empty in
    let empty_after : (b : Bool)
        → (suc n == id) ≡ b
        → is_empty_user_address (suc n) (set_user_address id address u)
          ≡ is_missing (if b then some address else u.user_address (suc n)) =
      λ b. ap (λ z. is_missing (if z then some address else u.user_address (suc n))) in
    let longer = length-append (ids_without_address n u) (suc n ∷ []) in
    let longer' =
      length-append (ids_without_address n (set_user_address id address u)) (suc n ∷ []) in
    elim (Bool-cases (suc n == id)) [
      | inl here ↦
          let at_id : suc n ≡ id = ground arith in
          let empty_here : is_empty_user_address (suc n) u ≡ true =
            ap (λ z. is_empty_user_address z u) at_id ∙ empty in
          let past : ltb (suc n) id ≡ false = ground arith in
          let ahead : ltb n id ≡ true = ground arith in
          rw
            (
              without-suc n u,
              without-suc n (set_user_address id address u),
              empty_after true here,
              past,
              empty_here,
            )
            (omega (arith, longer, rw ahead at before))
      | inr other ↦
          let step : ltb (suc n) id ≡ ltb n id = ground arith in
          elim (Bool-cases (is_empty_user_address (suc n) u)) [
            | inl missing ↦
                rw
                  (
                    without-suc n u,
                    without-suc n (set_user_address id address u),
                    empty_after false other,
                    missing,
                    step,
                  )
                  (omega (arith, longer, longer', before))
            | inr filled ↦
                rw
                  (
                    without-suc n u,
                    without-suc n (set_user_address id address u),
                    empty_after false other,
                    filled,
                    step,
                  )
                  before
          ]
    ]

module _ (address : ℕ) (user_id : ℕ → ℕ) (i : ℕ) where
  address_of_unknown :
      (o : Option ℕ)
      → (user_id address == 0) ≡ true
      → o ≡ updated_address (address ∷ []) user_id i o
  address_of_unknown none h = ground arith
  address_of_unknown (some b) h = refl

  address_of_missing :
      (o : Option ℕ)
      → (user_id address == 0) ≡ false
      → ((i == user_id address) ≡ true → is_missing o ≡ true)
      → (if i == user_id address then some address else o)
        ≡ updated_address (address ∷ []) user_id i o
  address_of_missing none h empty = ground arith
  address_of_missing (some b) h empty = ground (arith, empty)

  address_of_filled :
      (o : Option ℕ)
      → ((user_id address == i) ≡ true → is_missing o ≡ false)
      → o ≡ updated_address (address ∷ []) user_id i o
  address_of_filled none filled = ground (arith, filled)
  address_of_filled (some b) filled = refl

update_one-effect :
    (address : ℕ) (c : UpdateCounts) (u : Users)
    → IsRegistry u
    → ((i : ℕ)
        → (update_one address (c, u)).1.user_address i
          ≡ updated_address (address ∷ []) u.user_id i (u.user_address i))
      × (length (user_ids_without_address (update_one address (c, u)).1)
            + (update_one address (c, u)).0.num_updated
          ≡ length (user_ids_without_address u) + c.num_updated)
      × ((update_one address (c, u)).0.num_not_found
          ≡ c.num_not_found + unknown_addresses (address ∷ []) u.user_id)
unfolding update_one user_ids_without_address
update_one-effect address c u r = elim (Bool-cases (u.user_id address == 0)) [
  | inl absent ↦
      rw absent
        (λ i. address_of_unknown address u.user_id i (u.user_address i) absent, refl, omega arith)
  | inr present ↦ elim (address-cases (u.user_id address) u) [
    | inl missing ↦
        let filled =
          ids_without_address-filled u.num_users (u.user_id address) address u (ground arith)
            missing in
        let bound : ltb u.num_users (u.user_id address) ≡ false = ground (arith, r.bound address) in
        rw (present, missing)
          (
            λ i. address_of_missing address u.user_id i (u.user_address i) present λ h.
                let at_id : i ≡ u.user_id address = ground arith in
                ap (λ z. is_empty_user_address z u) at_id ∙ missing,
            omega (arith, rw bound at filled),
            omega arith,
          )
    | inr (b, found, filled) ↦
        rw (present, filled)
          (
            λ i. address_of_filled address u.user_id i (u.user_address i) λ h.
                let at_id : i ≡ u.user_id address = ground arith in
                ap (λ z. is_empty_user_address z u) at_id ∙ filled,
            refl,
            omega arith,
          )
  ]
]

-- What the loop does to the registry and to the three counts.
pub record Updated (addresses : List ℕ) (c : UpdateCounts) (u : Users) (c' : UpdateCounts)
    (u' : Users) : Type 0 where
  pub address :
      (i : ℕ) → u'.user_address i ≡ updated_address addresses u.user_id i (u.user_address i)
  pub updated :
      length (user_ids_without_address u') + c'.num_updated
      ≡ length (user_ids_without_address u) + c.num_updated
  pub not_found : c'.num_not_found ≡ c.num_not_found + unknown_addresses addresses u.user_id
  pub all : counted c' ≡ counted c + length addresses
  pub same_ids : u'.user_id ≡ u.user_id
  pub same_number : u'.num_users ≡ u.num_users

update_loop-Updated :
    (addresses : List ℕ) (c : UpdateCounts) (u : Users)
    → IsRegistry u
    → Updated addresses c u (update_loop addresses (c, u)).0 (update_loop addresses (c, u)).1
      × IsRegistry (update_loop addresses (c, u)).1
unfolding update_loop
update_loop-Updated [] c u r = (
  record {
    address = λ i. sym (updated_address-nil u.user_id i (u.user_address i));
    updated = refl;
    not_found = omega arith;
    all = omega arith;
    same_ids = refl;
    same_number = refl;
  },
  r,
)
update_loop-Updated (a ∷ rest) c u r =
    let next = update_one a (c, u) in
    let (counts, ids, number) = update_one-counted a c u in
    let (address, updated, not_found) = update_one-effect a c u r in
    let (w, r') = update_loop-Updated rest next.0 next.1 (update_one-IsRegistry a c u r) in
    (
      record {
        address = λ i.
            w.address i
            ∙ ap (λ f. updated_address rest f i (next.1.user_address i)) ids
            ∙ ap (updated_address rest u.user_id i) (address i)
            ∙ updated_address-cons a rest u.user_id i (u.user_address i);
        updated = omega (arith, w.updated, updated);
        not_found = omega (arith, w.not_found, not_found, ap (unknown_addresses rest) ids);
        all = omega (arith, w.all, counts);
        same_ids = w.same_ids ∙ ids;
        same_number = w.same_number ∙ number;
      },
      r',
    )

-- On a well-formed registry, `updateUserAddress` keeps it well formed, leaves every address its id,
-- and changes only the addresses that are stored for an id: one that is there stays, and where there
-- is none, the first of the given addresses that has the id is stored. The count of updates is by how
-- many the ids without address became fewer, that of addresses not found is the number of given
-- addresses without id, and the three counts add up to the number of the given addresses.
pub update_user_address-IsRegistry :
    (addresses : List ℕ) (u : Users)
    → IsRegistry u
    → ((i : ℕ)
        → (update_user_address addresses u).1.user_address i
          ≡ updated_address addresses u.user_id i (u.user_address i))
      × (length (user_ids_without_address (update_user_address addresses u).1)
            + (update_user_address addresses u).0.num_updated
          ≡ length (user_ids_without_address u))
      × ((update_user_address addresses u).0.num_not_found ≡ unknown_addresses addresses u.user_id)
      × (counted (update_user_address addresses u).0 ≡ length addresses)
      × ((update_user_address addresses u).1.user_id ≡ u.user_id)
      × ((update_user_address addresses u).1.num_users ≡ u.num_users)
      × IsRegistry (update_user_address addresses u).1
unfolding update_user_address
update_user_address-IsRegistry addresses u r =
    let (w, r') =
      update_loop-Updated addresses
        (record { num_updated = 0; num_not_updated = 0; num_not_found = 0 }) u r in
    (
      w.address,
      omega (arith, w.updated),
      omega (arith, w.not_found),
      omega (arith, w.all),
      w.same_ids,
      w.same_number,
      r',
    )
