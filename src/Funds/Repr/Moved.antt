-- ===== src/Funds/Repr/Moved.antt =====
-- What a conversion of a user's funds does to the sums of the balances, of the queues and in the
-- headers.
use mx_delegation_sc.Base.{
  ℕ, ◌+◌, ◌≡◌, refl, ◌⊎◌, inl, inr, true, false, ◌&&◌, List, [], ◌∷◌, ◌++◌, Option, some, arith,
  ◌==◌, if◌then◌else◌, has, has-append, Bool-cases,
}
use mx_delegation_sc.Funds.Types.{
  FundDescription, FundType, FundItem, fund_type, type_eq, type_eq_refl,
}
use mx_delegation_sc.Funds.Store.{Funds}
use mx_delegation_sc.Funds.Repr.{total, of_user, Queues, Repr}

-- The closure converts every description of the source type to one of the target type.
abbrev pub ConvertsAll : (t t' : FundType) → (FundDescription → Option FundDescription) → Type 0
ConvertsAll t t' filter_transform =
    (d : FundDescription)
    → fund_type d ≡ t
    → (d' : FundDescription) × (filter_transform d ≡ some d') × (fund_type d' ≡ t')

module _ (u : ℕ) (t t' : FundType) where
  -- What `k` moved from the user's list of the source type to that of the target type.
  abbrev pub Moved : Queues → Queues → ℕ → Type 0
  Moved q q' k =
      ((x : FundType)
        → total (q' x) + (if type_eq x t then k else 0)
          ≡ total (q x) + (if type_eq x t' then k else 0))
      × ((v : ℕ) (x : FundType)
          → total (of_user v (q' x)) + (if v == u && type_eq x t then k else 0)
            ≡ total (of_user v (q x)) + (if v == u && type_eq x t' then k else 0))

  pub Moved-trans : (q q1 q2 : Queues) (a b : ℕ) → Moved q q1 a → Moved q1 q2 b → Moved q q2 (a + b)
  Moved-trans q q1 q2 a b (by_type, by_user) (by_type', by_user') =
      (λ x. ground (arith, by_type x, by_type' x), λ v x. ground (arith, by_user v x, by_user' v x))

  pub Moved-source :
      (q q' : Queues) (k : ℕ)
      → type_eq t t' ≡ false
      → Moved q q' k
      → total (of_user u (q' t)) + k ≡ total (of_user u (q t))
  Moved-source q q' k other (by_type, by_user) = ground (arith, by_user u t, type_eq_refl t)

-- The headers after `k` of the user's went from one type to another: every other total is as before.
abbrev pub UserMoved : (u : ℕ) (source target : FundType) (k : ℕ) → Funds → Funds → Type 0
UserMoved u source target k s s' =
    ((x : FundType)
      → (s'.ftype x).total_balance + (if type_eq x source then k else 0)
        ≡ (s.ftype x).total_balance + (if type_eq x target then k else 0))
    × ((v : ℕ) (x : FundType)
        → (s'.fuser v x).total_balance + (if v == u && type_eq x source then k else 0)
          ≡ (s.fuser v x).total_balance + (if v == u && type_eq x target then k else 0))

pub UserMoved-of_Moved :
    (u : ℕ) (source target : FundType) (k : ℕ) {s s' : Funds} {q q' : Queues}
    → Repr s q
    → Repr s' q'
    → Moved u source target q q' k
    → UserMoved u source target k s s'
UserMoved-of_Moved u source target k r r' (by_type, by_user) = (
  λ x. rw (r'.type_total x, r.type_total x) (by_type x),
  λ v x. rw (r'.user_total v x, r.user_total v x) (by_user v x),
)

-- The closure converts every item of the source type to a description of the target type.
abbrev pub ConvertsItems : (t t' : FundType) → (FundItem → Option FundDescription) → Type 0
ConvertsItems t t' filter_transform =
    (item : FundItem)
    → fund_type item.fund_desc ≡ t
    → (d' : FundDescription) × (filter_transform item ≡ some d') × (fund_type d' ≡ t')

module _ (t t' : FundType) where
  -- What `k` moved from the source type to the target type.
  abbrev pub TypeMoved : Queues → Queues → ℕ → Type 0
  TypeMoved q q' k =
      (x : FundType)
      → total (q' x) + (if type_eq x t then k else 0)
        ≡ total (q x) + (if type_eq x t' then k else 0)

  -- What a user has changed only by an amount that moved between the user's lists of the two types,
  -- and which is nothing unless the user is among the affected.
  abbrev pub Gave : Queues → Queues → List ℕ → ℕ → Type 0
  Gave q q' affected v =
      (a : ℕ) × ((x : FundType)
        → total (of_user v (q' x)) + (if type_eq x t then a else 0)
          ≡ total (of_user v (q x)) + (if type_eq x t' then a else 0))
      × ((a ≡ 0) ⊎ (has v affected ≡ true))

  -- The queues of the other types are as before.
  abbrev pub Apart : Queues → Queues → Type 0
  Apart q q' = (x : FundType) → type_eq x t ≡ false → type_eq x t' ≡ false → q' x ≡ q x

  pub TypeMoved-trans :
      (q q1 q2 : Queues) (a b : ℕ) → TypeMoved q q1 a → TypeMoved q1 q2 b → TypeMoved q q2 (a + b)
  TypeMoved-trans q q1 q2 a b first second x = ground (arith, first x, second x)

  pub TypeMoved-source :
      (q q' : Queues) (k : ℕ)
      → type_eq t t' ≡ false
      → TypeMoved q q' k
      → total (q' t) + k ≡ total (q t)
  TypeMoved-source q q' k other moved = ground (arith, moved t, type_eq_refl t)

  pub Gave-none : (q : Queues) (affected : List ℕ) (v : ℕ) → Gave q q affected v
  Gave-none q affected v = (0, λ x. ground arith, inl refl)

  -- One conversion of `u`, who is then noted.
  pub Gave-one :
      (q q' : Queues) (k u : ℕ) (affected : List ℕ) (v : ℕ)
      → ((x : FundType)
          → total (of_user v (q' x)) + (if v == u && type_eq x t then k else 0)
            ≡ total (of_user v (q x)) + (if v == u && type_eq x t' then k else 0))
      → Gave q q' (affected ++ u ∷ []) v
  Gave-one q q' k u affected v h = elim (Bool-cases (v == u)) [
    | inl same ↦ (k, λ x. ground (arith, h x), inr (ground (arith, has-append v affected (u ∷ []))))
    | inr miss ↦ (0, λ x. ground (arith, h x), inl refl)
  ]

  pub Gave-trans :
      (q q1 q2 : Queues) (affected affected' : List ℕ) (v : ℕ)
      → (has v affected ≡ true → has v affected' ≡ true)
      → Gave q q1 affected v
      → Gave q1 q2 affected' v
      → Gave q q2 affected' v
  Gave-trans q q1 q2 affected affected' v keep (a, first, who) (b, second, who') = (
    a + b,
    λ x. ground (arith, first x, second x),
    elim (Bool-cases (has v affected')) [
      | inl inside ↦ inr inside
      | inr out ↦ inl (ground (arith, who, who', keep))
    ],
  )

-- The same of the headers.
abbrev pub TypeTotalsMoved : (source target : FundType) (k : ℕ) → Funds → Funds → Type 0
TypeTotalsMoved source target k s s' =
    (x : FundType)
    → (s'.ftype x).total_balance + (if type_eq x source then k else 0)
      ≡ (s.ftype x).total_balance + (if type_eq x target then k else 0)

abbrev pub UserGave : (source target : FundType) → Funds → Funds → List ℕ → ℕ → Type 0
UserGave source target s s' affected v =
    (a : ℕ) × ((x : FundType)
      → (s'.fuser v x).total_balance + (if type_eq x source then a else 0)
        ≡ (s.fuser v x).total_balance + (if type_eq x target then a else 0))
    × ((a ≡ 0) ⊎ (has v affected ≡ true))
