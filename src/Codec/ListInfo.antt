-- ===== src/Codec/ListInfo.antt =====
-- user-fund-storage/fuzz/old_serialization/fund_list_info.rs.
use mx_delegation_sc.Base.{ℕ, Bool, List, [], ◌&&◌, ◌==◌, if◌then◌else◌, length}
use mx_delegation_sc.Base.Outcome.{Result, ok, ◌>>=◌}
use mx_delegation_sc.Funds.Types.{FundsListInfo}
use mx_delegation_sc.Codec.{Framework}

unfoldable pub list_is_empty : FundsListInfo → Bool
list_is_empty l = l.total_balance == 0 && l.first == 0 && l.last == 0

unfoldable pub zero_list : FundsListInfo
zero_list = record { total_balance = 0; first = 0; last = 0 }

module _ (fw : Framework) where
  unfoldable pub dep_encode : FundsListInfo → List ℕ → Result (List ℕ)
  dep_encode l dest = do
    dest1 ← fw.big_uint.dep_encode l.total_balance dest
    dest2 ← fw.usize.dep_encode l.first dest1
    fw.usize.dep_encode l.last dest2

  unfoldable pub top_encode : FundsListInfo → Result (List ℕ)
  unfolding dep_encode list_is_empty
  top_encode l = if list_is_empty l then ok [] else fw.top_encode_from_nested (dep_encode l)

  unfoldable pub dep_encode_or_exit : FundsListInfo → List ℕ → Result (List ℕ)
  dep_encode_or_exit l dest = do
    dest1 ← fw.big_uint.dep_encode_or_exit l.total_balance dest
    dest2 ← fw.usize.dep_encode_or_exit l.first dest1
    fw.usize.dep_encode_or_exit l.last dest2

  unfoldable pub top_encode_or_exit : FundsListInfo → Result (List ℕ)
  unfolding dep_encode_or_exit list_is_empty
  top_encode_or_exit l =
      if list_is_empty l then ok [] else fw.top_encode_from_nested_or_exit (dep_encode_or_exit l)

  unfoldable pub dep_decode : List ℕ → Result (FundsListInfo × List ℕ)
  dep_decode input = do
    (total_balance, rest1) ← fw.big_uint.dep_decode input
    (first, rest2) ← fw.usize.dep_decode rest1
    (last, rest3) ← fw.usize.dep_decode rest2
    ok (record { total_balance = total_balance; first = first; last = last }, rest3)

  unfoldable pub top_decode : List ℕ → Result FundsListInfo
  unfolding dep_decode zero_list
  top_decode input =
      if length input == 0 then ok zero_list else fw.top_decode_from_nested dep_decode input

  unfoldable pub dep_decode_or_exit : List ℕ → Result (FundsListInfo × List ℕ)
  dep_decode_or_exit input = do
    (total_balance, rest1) ← fw.big_uint.dep_decode_or_exit input
    (first, rest2) ← fw.usize.dep_decode_or_exit rest1
    (last, rest3) ← fw.usize.dep_decode_or_exit rest2
    ok (record { total_balance = total_balance; first = first; last = last }, rest3)

  unfoldable pub top_decode_or_exit : List ℕ → Result FundsListInfo
  unfolding dep_decode_or_exit zero_list
  top_decode_or_exit input =
      if length input == 0
      then ok zero_list
      else fw.top_decode_from_nested_or_exit dep_decode_or_exit input
