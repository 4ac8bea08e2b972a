-- ===== src/Funds/Convert.antt =====
-- user-fund-storage/src/fund_module.rs: the loops that walk a list and convert its items. A loop
-- runs on fuel: the largest id in use, plus one, is enough for the items of one list. `interrupt`
-- stands for the closure of that name: `interrupt n` is its answer at the loop's n-th round.
use mx_delegation_sc.Base.{
  ℕ, zero, suc, ◌+◌, Bool, true, false, ◌||◌, ◌==◌, if◌then◌else◌, List, [], Option, none, some,
}
use mx_delegation_sc.Base.Outcome.{Result, ok, err, Error, ◌>>=◌}
use mx_delegation_sc.Funds.Types.{FundDescription, FundType, FundItem}
use mx_delegation_sc.Funds.Store.{Funds, set_fund, SwapDirection, forwards, backwards}
use mx_delegation_sc.Funds.Delete.{delete_fund, decrease_max_amount, split_convert_individual_fund}
use mx_delegation_sc.Funds.AffectedUsers.{try_push, affected_users_sort_dedup}

abbrev pub loop_fuel : Funds → ℕ
loop_fuel s = s.f_max_id + 1

abbrev pub is_drained : Option ℕ → Bool
is_drained none = false
is_drained (some max_amount) = max_amount == 0

abbrev pub type_successor : SwapDirection → FundItem → ℕ
type_successor forwards item = item.type_list_next
type_successor backwards item = item.type_list_prev

abbrev pub user_successor : SwapDirection → FundItem → ℕ
user_successor forwards item = item.user_list_next
user_successor backwards item = item.user_list_prev

unfoldable pub first_id_of_type : FundType → SwapDirection → Funds → ℕ
first_id_of_type t forwards s = (s.ftype t).first
first_id_of_type t backwards s = (s.ftype t).last

unfoldable pub first_id_of_user_type : ℕ → FundType → SwapDirection → Funds → ℕ
first_id_of_user_type u t forwards s = (s.fuser u t).first
first_id_of_user_type u t backwards s = (s.fuser u t).last

-- The variables of the loop by type.
pub record TypeSwap : Type 0 where
  pub opt_max : Option ℕ
  pub id : ℕ
  pub affected : List ℕ
  pub funds : Funds

abbrev pub FilterTransform : Type 0
FilterTransform = FundItem → Option FundDescription

-- What the closure of `update` does with one item that passed the filter.
unfoldable pub convert_item :
    Bool → Option ℕ → FundDescription → FundItem → Funds → Result (Option ℕ × FundItem × Funds)
unfolding decrease_max_amount split_convert_individual_fund
convert_item true opt_max transformed item s = ok (decrease_max_amount opt_max item, item, s)
convert_item false opt_max transformed item s = do
  (_, opt_max', item', s') ← split_convert_individual_fund opt_max transformed item s
  ok (opt_max', item', s')

unfoldable pub convert_type_step :
    SwapDirection → FilterTransform → Bool → TypeSwap → Result TypeSwap
unfolding convert_item try_push set_fund
convert_type_step direction filter_transform dry_run st = do
  let item = st.funds.fund_by_id st.id
  affected ← try_push st.affected item.user_id
  let next_id = type_successor direction item
  let changed : Result (Option ℕ × FundItem × Funds) = elim (filter_transform item) [
    | none ↦ ok (st.opt_max, item, st.funds)
    | some transformed ↦ convert_item dry_run st.opt_max transformed item st.funds
  ]
  (opt_max, item', s') ← changed
  ok (record {
    opt_max = opt_max;
    id = next_id;
    affected = affected;
    funds = set_fund st.id item' s';
  })

-- `while id > 0 && !interrupt()`, with the `break` once the limit is used up.
unfoldable pub convert_type_loop :
    SwapDirection → FilterTransform → (ℕ → Bool) → Bool → ℕ → ℕ → TypeSwap → Result TypeSwap
unfolding convert_type_step
convert_type_loop direction filter_transform interrupt dry_run zero n st = err Error.out_of_fuel
convert_type_loop direction filter_transform interrupt dry_run (suc fuel) n st =
    elim (st.id == 0 || interrupt n || is_drained st.opt_max) [
      | true ↦ ok st
      | false ↦ convert_type_step direction filter_transform dry_run st >>= λ st'.
          convert_type_loop direction filter_transform interrupt dry_run fuel (suc n) st'
    ]

-- The affected users, what is left of the limit, and the storage.
unfoldable pub split_convert_max_by_type :
    Option ℕ
    → FundType
    → SwapDirection
    → FilterTransform
    → (ℕ → Bool)
    → Bool
    → Funds
    → Result (List ℕ × Option ℕ × Funds)
unfolding convert_type_loop first_id_of_type affected_users_sort_dedup
split_convert_max_by_type opt_max source_type direction filter_transform interrupt dry_run s = do
  st ← convert_type_loop direction filter_transform interrupt dry_run (loop_fuel s) 0 (record {
    opt_max = opt_max;
    id = first_id_of_type source_type direction s;
    affected = [];
    funds = s;
  })
  ok (affected_users_sort_dedup st.affected, st.opt_max, st.funds)

-- The loop with a checkpoint. Its closure may have effects of its own, on the rest of the storage
-- `E`, and reads the funds as they are when it is called.
abbrev pub EffectfulFilter : Type 0 → Type 0
EffectfulFilter E = FundItem → Funds → E → Result (Option FundDescription × E)

module _ {E : Type 0} where
  unfoldable pub checkpoint_step :
      SwapDirection → EffectfulFilter E → ℕ → Funds → E → Result (ℕ × Funds × E)
  unfolding split_convert_individual_fund set_fund
  checkpoint_step direction filter_transform id s e = do
    let item = s.fund_by_id id
    let next_id = type_successor direction item
    (transformed?, e') ← filter_transform item s e
    let changed : Result (FundItem × Funds) = elim transformed? [
      | none ↦ ok (item, s)
      | some transformed ↦ do
        (_, _, item', s') ← split_convert_individual_fund none transformed item s
        ok (item', s')
    ]
    (item', s') ← changed
    ok (next_id, set_fund id item' s', e')

  unfoldable pub checkpoint_loop :
      SwapDirection
      → EffectfulFilter E
      → (ℕ → Bool)
      → ℕ
      → ℕ
      → ℕ
      → Funds
      → E
      → Result (ℕ × Funds × E)
  unfolding checkpoint_step
  checkpoint_loop direction filter_transform interrupt zero n id s e = err Error.out_of_fuel
  checkpoint_loop direction filter_transform interrupt (suc fuel) n id s e =
      elim (id == 0 || interrupt n) [
        | true ↦ ok (id, s, e)
        | false ↦ checkpoint_step direction filter_transform id s e >>= λ (id', s', e').
            checkpoint_loop direction filter_transform interrupt fuel (suc n) id' s' e'
      ]

  unfoldable pub split_convert_max_by_type_with_checkpoint :
      ℕ
      → FundType
      → SwapDirection
      → EffectfulFilter E
      → (ℕ → Bool)
      → Funds
      → E
      → Result (ℕ × Funds × E)
  unfolding checkpoint_loop first_id_of_type
  split_convert_max_by_type_with_checkpoint current_id source_type direction filter_transform
        interrupt s e =
      let start =
        if current_id == 0 then first_id_of_type source_type direction s else current_id in
      checkpoint_loop direction filter_transform interrupt (loop_fuel s) 0 start s e

-- The variables of the loop by user.
pub record UserSwap : Type 0 where
  pub opt_max : Option ℕ
  pub id : ℕ
  pub total_transformed : ℕ
  pub funds : Funds

unfoldable pub convert_user_step :
    SwapDirection → (FundDescription → Option FundDescription) → UserSwap → Result UserSwap
unfolding split_convert_individual_fund set_fund
convert_user_step direction filter_transform st =
    let item = st.funds.fund_by_id st.id in
    let next_id = user_successor direction item in
    elim (filter_transform item.fund_desc) [
      | none ↦ ok (record st { id = next_id; funds = set_fund st.id item st.funds })
      | some transformed ↦ do
        (extracted, opt_max, item', s') ←
            split_convert_individual_fund st.opt_max transformed item st.funds
        ok (record {
          opt_max = opt_max;
          id = next_id;
          total_transformed = st.total_transformed + extracted;
          funds = set_fund st.id item' s';
        })
    ]

unfoldable pub convert_user_loop :
    SwapDirection
    → (FundDescription → Option FundDescription)
    → (ℕ → Bool)
    → ℕ
    → ℕ
    → UserSwap
    → Result UserSwap
unfolding convert_user_step
convert_user_loop direction filter_transform interrupt zero n st = err Error.out_of_fuel
convert_user_loop direction filter_transform interrupt (suc fuel) n st =
    elim (st.id == 0 || interrupt n || is_drained st.opt_max) [
      | true ↦ ok st
      | false ↦ convert_user_step direction filter_transform st >>= λ st'.
          convert_user_loop direction filter_transform interrupt fuel (suc n) st'
    ]

-- How much was transformed, what is left of the limit, and the storage.
unfoldable pub split_convert_max_by_user :
    Option ℕ
    → ℕ
    → FundType
    → SwapDirection
    → (FundDescription → Option FundDescription)
    → (ℕ → Bool)
    → Funds
    → Result (ℕ × Option ℕ × Funds)
unfolding convert_user_loop first_id_of_user_type
split_convert_max_by_user opt_max user_id source_type direction filter_transform interrupt s = do
  st ← convert_user_loop direction filter_transform interrupt (loop_fuel s) 0 (record {
    opt_max = opt_max;
    id = first_id_of_user_type user_id source_type direction s;
    total_transformed = 0;
    funds = s;
  })
  ok (st.total_transformed, st.opt_max, st.funds)

unfoldable pub destroy_loop : (ℕ → Bool) → ℕ → ℕ → ℕ → ℕ → Funds → Result (ℕ × Funds)
unfolding delete_fund set_fund
destroy_loop interrupt zero n id total s = err Error.out_of_fuel
destroy_loop interrupt (suc fuel) n id total s = elim (id == 0 || interrupt n) [
  | true ↦ ok (total, s)
  | false ↦ delete_fund (s.fund_by_id id) s >>= λ (balance, item', s').
      destroy_loop interrupt fuel (suc n) (s.fund_by_id id).user_list_next (total + balance)
        (set_fund id item' s')
]

unfoldable pub destroy_all_for_user : ℕ → FundType → (ℕ → Bool) → Funds → Result (ℕ × Funds)
unfolding destroy_loop
destroy_all_for_user user_id source_type interrupt s =
    destroy_loop interrupt (loop_fuel s) 0 (s.fuser user_id source_type).first 0 s
