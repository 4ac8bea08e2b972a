-- ===== src/Codec/Item.antt =====
-- user-fund-storage/fuzz/old_serialization/fund_item.rs. At the top level the empty value stands for
-- an item with no balance and no links.
use mx_delegation_sc.Base.{ℕ, Bool, List, [], ◌&&◌, ◌==◌, if◌then◌else◌, length}
use mx_delegation_sc.Base.Outcome.{Result, ok, ◌>>=◌}
use mx_delegation_sc.Codec.{Framework}
use mx_delegation_sc.Codec.Description.{OldFundDescription}
use mx_delegation_sc.Codec.Description

pub record OldFundItem : Type 0 where
  pub fund_desc : OldFundDescription
  pub user_id : ℕ
  pub balance : ℕ
  pub type_list_next : ℕ
  pub type_list_prev : ℕ
  pub user_list_next : ℕ
  pub user_list_prev : ℕ

unfoldable pub is_zero_value : OldFundItem → Bool
is_zero_value item =
    item.balance == 0
    && item.type_list_next == 0
    && item.type_list_prev == 0
    && item.user_list_next == 0
    && item.user_list_prev == 0

unfoldable pub zero_value : OldFundItem
zero_value = record {
  fund_desc = OldFundDescription.withdraw_only;
  user_id = 0;
  balance = 0;
  type_list_next = 0;
  type_list_prev = 0;
  user_list_next = 0;
  user_list_prev = 0;
}

module _ (fw : Framework) where
  unfoldable pub dep_encode : OldFundItem → List ℕ → Result (List ℕ)
  dep_encode item dest = do
    dest1 ← Description.dep_encode fw item.fund_desc dest
    dest2 ← fw.usize.dep_encode item.user_id dest1
    dest3 ← fw.big_uint.dep_encode item.balance dest2
    dest4 ← fw.usize.dep_encode item.type_list_next dest3
    dest5 ← fw.usize.dep_encode item.type_list_prev dest4
    dest6 ← fw.usize.dep_encode item.user_list_next dest5
    fw.usize.dep_encode item.user_list_prev dest6

  unfoldable pub top_encode : OldFundItem → Result (List ℕ)
  unfolding dep_encode is_zero_value
  top_encode item =
      if is_zero_value item then ok [] else fw.top_encode_from_nested (dep_encode item)

  unfoldable pub dep_encode_or_exit : OldFundItem → List ℕ → Result (List ℕ)
  dep_encode_or_exit item dest = do
    dest1 ← Description.dep_encode_or_exit fw item.fund_desc dest
    dest2 ← fw.usize.dep_encode_or_exit item.user_id dest1
    dest3 ← fw.big_uint.dep_encode_or_exit item.balance dest2
    dest4 ← fw.usize.dep_encode_or_exit item.type_list_next dest3
    dest5 ← fw.usize.dep_encode_or_exit item.type_list_prev dest4
    dest6 ← fw.usize.dep_encode_or_exit item.user_list_next dest5
    fw.usize.dep_encode_or_exit item.user_list_prev dest6

  unfoldable pub top_encode_or_exit : OldFundItem → Result (List ℕ)
  unfolding dep_encode_or_exit is_zero_value
  top_encode_or_exit item =
      if is_zero_value item
      then ok []
      else fw.top_encode_from_nested_or_exit (dep_encode_or_exit item)

  unfoldable pub dep_decode : List ℕ → Result (OldFundItem × List ℕ)
  dep_decode input = do
    (fund_desc, rest1) ← Description.dep_decode fw input
    (user_id, rest2) ← fw.usize.dep_decode rest1
    (balance, rest3) ← fw.big_uint.dep_decode rest2
    (type_list_next, rest4) ← fw.usize.dep_decode rest3
    (type_list_prev, rest5) ← fw.usize.dep_decode rest4
    (user_list_next, rest6) ← fw.usize.dep_decode rest5
    (user_list_prev, rest7) ← fw.usize.dep_decode rest6
    ok (
      record {
        fund_desc = fund_desc;
        user_id = user_id;
        balance = balance;
        type_list_next = type_list_next;
        type_list_prev = type_list_prev;
        user_list_next = user_list_next;
        user_list_prev = user_list_prev;
      },
      rest7,
    )

  unfoldable pub top_decode : List ℕ → Result OldFundItem
  unfolding dep_decode zero_value
  top_decode input =
      if length input == 0 then ok zero_value else fw.top_decode_from_nested dep_decode input

  unfoldable pub dep_decode_or_exit : List ℕ → Result (OldFundItem × List ℕ)
  dep_decode_or_exit input = do
    (fund_desc, rest1) ← Description.dep_decode_or_exit fw input
    (user_id, rest2) ← fw.usize.dep_decode_or_exit rest1
    (balance, rest3) ← fw.big_uint.dep_decode_or_exit rest2
    (type_list_next, rest4) ← fw.usize.dep_decode_or_exit rest3
    (type_list_prev, rest5) ← fw.usize.dep_decode_or_exit rest4
    (user_list_next, rest6) ← fw.usize.dep_decode_or_exit rest5
    (user_list_prev, rest7) ← fw.usize.dep_decode_or_exit rest6
    ok (
      record {
        fund_desc = fund_desc;
        user_id = user_id;
        balance = balance;
        type_list_next = type_list_next;
        type_list_prev = type_list_prev;
        user_list_next = user_list_next;
        user_list_prev = user_list_prev;
      },
      rest7,
    )

  unfoldable pub top_decode_or_exit : List ℕ → Result OldFundItem
  unfolding dep_decode_or_exit zero_value
  top_decode_or_exit input =
      if length input == 0
      then ok zero_value
      else fw.top_decode_from_nested_or_exit dep_decode_or_exit input
