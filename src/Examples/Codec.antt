-- ===== src/Examples/Codec.antt =====
-- The round trips of the codecs, for a framework whose outputs hold a whole number in each cell.
use mx_delegation_sc.Base.{
  ℕ, ◌≡◌, refl, ap, true, ltb, lt→ltb, inl, inr, Bool-cases, ◌^◌, if◌then◌else◌, List, [], ◌∷◌,
  ◌++◌, arith,
}
use mx_delegation_sc.Base.Outcome.{Result, ok, err, Error, ◌>>=◌}
use mx_delegation_sc.Funds.Types.{FundsListInfo}
use mx_delegation_sc.Nodes.Config.{NodeState}
use mx_delegation_sc.Codec.{Primitive, Framework, ReadsBack, Documented, FitsU64, FitsUsize}
use mx_delegation_sc.Codec.Description.{OldFundDescription}
use mx_delegation_sc.Codec.Item.{OldFundItem, is_zero_value, zero_value}
use mx_delegation_sc.Codec.Description
use mx_delegation_sc.Codec.Item
use mx_delegation_sc.Codec.ListInfo
use mx_delegation_sc.Codec.State
use mx_delegation_sc.Codec.RoundTrip.{RoundTrip}
use mx_delegation_sc.Codec.RoundTrip.Description.{
  description-RoundTrip, description-dep_decode-Encoded, Encoded,
}
use mx_delegation_sc.Codec.RoundTrip.Item.{item-top_RoundTrip}
use mx_delegation_sc.Codec.RoundTrip.ListInfo.{list-top_RoundTrip}
use mx_delegation_sc.Codec.RoundTrip.State.{state-RoundTrip}

abbrev write_cell : ℕ → List ℕ → Result (List ℕ)
write_cell x dest = ok (dest ++ x ∷ [])

abbrev read_cell : List ℕ → Result (ℕ × List ℕ)
read_cell [] = err Error.input_too_short
read_cell (x ∷ rest) = ok (x, rest)

abbrev cell : Primitive
cell = record {
  dep_encode = write_cell;
  dep_encode_or_exit = write_cell;
  dep_decode = read_cell;
  dep_decode_or_exit = read_cell;
}

abbrev all_read : {A : Type 0} → A → List ℕ → Result A
all_read v [] = ok v
all_read v (x ∷ rest) = err Error.input_too_long

abbrev cells : Framework
cells = record {
  push_byte = λ b dest. dest ++ b ∷ [];
  read_byte = read_cell;
  read_byte_or_exit = read_cell;
  u64 = cell;
  usize = cell;
  big_uint = cell;
  top_encode_from_nested = λ f. f [];
  top_encode_from_nested_or_exit = λ f. f [];
  top_decode_from_nested = λ f bytes. f bytes >>= λ (v, rest). all_read v rest;
  top_decode_from_nested_or_exit = λ f bytes. f bytes >>= λ (v, rest). all_read v rest;
}

cell-ReadsBack : (fits : ℕ → Type 0) → ReadsBack cell fits
cell-ReadsBack fits = record {
  bytes = λ x. x ∷ [];
  writes = λ x dest h. refl;
  writes_or_exit = λ x dest h. refl;
  reads = λ x rest h. refl;
  reads_or_exit = λ x rest h. refl;
}

cells-Documented : Documented cells
cells-Documented = record {
  pushes = λ b dest. refl;
  reads = λ b rest. refl;
  reads_or_exit = λ b rest. refl;
  short = refl;
  u64 = cell-ReadsBack FitsU64;
  usize = cell-ReadsBack FitsUsize;
  big_uint = cell-ReadsBack (λ _. Unit {0});
  big_uint_short = refl;
  writes_top = λ f. refl;
  reads_top = λ f bytes v e. rw e refl;
}

description-RoundTrip_example :
    RoundTrip
      (Description.dep_encode cells)
      (Description.dep_encode_or_exit cells)
      (Description.dep_decode cells)
      (Description.dep_decode_or_exit cells)
      (OldFundDescription.waiting 5)
description-RoundTrip_example =
    description-RoundTrip cells cells-Documented (OldFundDescription.waiting 5) (omega arith)

-- The same cells, where a 64-bit number has to fit.
abbrev read_u64 : List ℕ → Result (ℕ × List ℕ)
read_u64 [] = err Error.input_too_short
read_u64 (x ∷ rest) = if ltb x (2 ^ 64) then ok (x, rest) else err Error.invalid_value

abbrev bounded_cells : Framework
bounded_cells = record cells {
  u64 = record cell { dep_decode = read_u64; dep_decode_or_exit = read_u64 };
}

read_u64-ok : (x : ℕ) (rest : List ℕ) → FitsU64 x → read_u64 (x ∷ rest) ≡ ok (x, rest)
read_u64-ok x rest h = let fits : ltb x (2 ^ 64) ≡ true = lt→ltb _ _ h in rw fits refl

bounded-Documented : Documented bounded_cells
bounded-Documented = record {
  pushes = λ b dest. refl;
  reads = λ b rest. refl;
  reads_or_exit = λ b rest. refl;
  short = refl;
  u64 = record {
    bytes = λ x. x ∷ [];
    writes = λ x dest h. refl;
    writes_or_exit = λ x dest h. refl;
    reads = read_u64-ok;
    reads_or_exit = read_u64-ok;
  };
  usize = cell-ReadsBack FitsUsize;
  big_uint = cell-ReadsBack (λ _. Unit {0});
  big_uint_short = refl;
  writes_top = λ f. refl;
  reads_top = λ f bytes v e. rw e refl;
}

ok-injective : (v w : ℕ × List ℕ) → ok v ≡ ok w → v ≡ w
ok-injective v w e = cc

not_ok : {error : Error} (v : ℕ × List ℕ) → err error ≡ ok v → ⊥
not_ok v e = cc

read_u64-only :
    (input : List ℕ) (x : ℕ) (rest : List ℕ)
    → read_u64 input ≡ ok (x, rest)
    → (input ≡ x ∷ rest) × FitsU64 x
read_u64-only [] x rest e = absurd (not_ok (x, rest) e)
read_u64-only (y ∷ ys) x rest e = elim (Bool-cases (ltb y (2 ^ 64))) [
  | inl fits ↦
      let same = ok-injective (y, ys) (x, rest) (rw fits at (e)) in
      (ap (λ v. v.0 ∷ v.1) same, ground (arith, fits, ap (λ v. v.0) same))
  | inr large ↦ absurd (not_ok (x, rest) (rw large at (e)))
]

five_decoded :
    Description.dep_decode bounded_cells (5 ∷ 20 ∷ 9 ∷ [])
    ≡ ok (OldFundDescription.un_staked 20, 9 ∷ [])
unfolding Description.dep_decode
five_decoded = refl

description-dep_decode-Encoded_example :
    Encoded bounded_cells (5 ∷ 20 ∷ 9 ∷ []) (OldFundDescription.un_staked 20) (9 ∷ [])
unfolding bounded-Documented
description-dep_decode-Encoded_example =
    description-dep_decode-Encoded bounded_cells bounded-Documented read_u64-only (5 ∷ 20 ∷ 9 ∷ [])
      (OldFundDescription.un_staked 20) (9 ∷ []) five_decoded

-- User 3 has 100 waiting since block 5, between two other items of the list.
abbrev an_item : OldFundItem
an_item = record {
  fund_desc = OldFundDescription.waiting 5;
  user_id = 3;
  balance = 100;
  type_list_next = 9;
  type_list_prev = 7;
  user_list_next = 0;
  user_list_prev = 0;
}

item-top_RoundTrip_example :
    ((bytes : List ℕ) × (Item.top_encode cells an_item ≡ ok bytes)
      × (Item.top_decode cells bytes ≡ ok (if is_zero_value an_item then zero_value else an_item)))
    × RoundTrip
        (Item.dep_encode cells)
        (Item.dep_encode_or_exit cells)
        (Item.dep_decode cells)
        (Item.dep_decode_or_exit cells)
        an_item
item-top_RoundTrip_example =
    item-top_RoundTrip cells cells-Documented an_item
      (omega arith, omega arith, omega arith, omega arith, omega arith, omega arith)

abbrev a_list : FundsListInfo
a_list = record { total_balance = 130; first = 1; last = 2 }

list-top_RoundTrip_example :
    ((bytes : List ℕ) × (ListInfo.top_encode cells a_list ≡ ok bytes)
      × (ListInfo.top_decode cells bytes ≡ ok a_list))
    × RoundTrip
        (ListInfo.dep_encode cells)
        (ListInfo.dep_encode_or_exit cells)
        (ListInfo.dep_decode cells)
        (ListInfo.dep_decode_or_exit cells)
        a_list
list-top_RoundTrip_example =
    list-top_RoundTrip cells cells-Documented a_list (omega arith) (omega arith)

state-RoundTrip_example :
    RoundTrip
      (State.dep_encode cells)
      (State.dep_encode_or_exit cells)
      (State.dep_decode cells)
      (State.dep_decode_or_exit cells)
      (NodeState.un_bond_period 77)
state-RoundTrip_example =
    state-RoundTrip cells cells-Documented (NodeState.un_bond_period 77) (omega arith)
