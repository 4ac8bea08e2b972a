-- ===== src/Codec/RoundTrip/Item.antt =====
-- `FundItem` of fund_item.rs is read back as it was written; at the top level an item without a
-- balance and links is read back as the zero value.
use mx_delegation_sc.Base.{
  ℕ, ◌≡◌, refl, sym, ap, ◌∙◌, inl, inr, false, List, [], ◌∷◌, ◌++◌, arith, ◌==◌, if◌then◌else◌,
  length, Bool-cases, append-nil,
}
use mx_delegation_sc.Base.Outcome.{ok, err, Error}
use mx_delegation_sc.Codec.{Framework, Documented, FitsUsize}
use mx_delegation_sc.Codec.Description
use mx_delegation_sc.Codec.Item.{OldFundItem, is_zero_value, zero_value}
use mx_delegation_sc.Codec.Item
use mx_delegation_sc.Codec.RoundTrip.{
  RoundTrip, Writes-then, Reads-then, made-Reads, made-Reads_or_exit,
}
use mx_delegation_sc.Codec.RoundTrip.Description.{Fits, description-RoundTrip}

-- The nonce has 64 bits, and the ids have 32.
abbrev pub ItemFits : OldFundItem → Type 0
ItemFits item =
    Fits item.fund_desc
    × FitsUsize item.user_id
    × FitsUsize item.type_list_next
    × FitsUsize item.type_list_prev
    × FitsUsize item.user_list_next
    × FitsUsize item.user_list_prev

item-RoundTrip :
    (fw : Framework)
    → Documented fw
    → (item : OldFundItem) → ItemFits item
    → RoundTrip
        (Item.dep_encode fw)
        (Item.dep_encode_or_exit fw)
        (Item.dep_decode fw)
        (Item.dep_decode_or_exit fw)
        item
unfolding Item.dep_encode Item.dep_encode_or_exit Item.dep_decode Item.dep_decode_or_exit
item-RoundTrip fw doc item (fd, fu, fa, fb, fc, fe) =
    let (d, w, w', r, r') = description-RoundTrip fw doc item.fund_desc fd in
    let t6 : List ℕ = doc.usize.bytes item.user_list_prev in
    let t5 : List ℕ = doc.usize.bytes item.user_list_next ++ t6 in
    let t4 : List ℕ = doc.usize.bytes item.type_list_prev ++ t5 in
    let t3 : List ℕ = doc.usize.bytes item.type_list_next ++ t4 in
    let t2 : List ℕ = doc.big_uint.bytes item.balance ++ t3 in
    let t1 : List ℕ = doc.usize.bytes item.user_id ++ t2 in
    (
      d ++ t1,
      Writes-then (Description.dep_encode fw item.fund_desc) _ d t1 w (
          Writes-then (fw.usize.dep_encode item.user_id) _ (doc.usize.bytes item.user_id) t2
            (λ dest. doc.usize.writes item.user_id dest fu)
            (Writes-then (fw.big_uint.dep_encode item.balance) _ (doc.big_uint.bytes item.balance)
              t3 (λ dest. doc.big_uint.writes item.balance dest tt)
              (Writes-then (fw.usize.dep_encode item.type_list_next) _
                (doc.usize.bytes item.type_list_next) t4
                (λ dest. doc.usize.writes item.type_list_next dest fa)
                (Writes-then (fw.usize.dep_encode item.type_list_prev) _
                  (doc.usize.bytes item.type_list_prev) t5
                  (λ dest. doc.usize.writes item.type_list_prev dest fb)
                  (Writes-then (fw.usize.dep_encode item.user_list_next) _
                    (doc.usize.bytes item.user_list_next) t6
                    (λ dest. doc.usize.writes item.user_list_next dest fc)
                    (λ dest. doc.usize.writes item.user_list_prev dest fe)))))),
      Writes-then (Description.dep_encode_or_exit fw item.fund_desc) _ d t1 w' (
          Writes-then (fw.usize.dep_encode_or_exit item.user_id) _ (doc.usize.bytes item.user_id) t2
            (λ dest. doc.usize.writes_or_exit item.user_id dest fu)
            (Writes-then (fw.big_uint.dep_encode_or_exit item.balance) _
              (doc.big_uint.bytes item.balance) t3
              (λ dest. doc.big_uint.writes_or_exit item.balance dest tt)
              (Writes-then (fw.usize.dep_encode_or_exit item.type_list_next) _
                (doc.usize.bytes item.type_list_next) t4
                (λ dest. doc.usize.writes_or_exit item.type_list_next dest fa)
                (Writes-then (fw.usize.dep_encode_or_exit item.type_list_prev) _
                  (doc.usize.bytes item.type_list_prev) t5
                  (λ dest. doc.usize.writes_or_exit item.type_list_prev dest fb)
                  (Writes-then (fw.usize.dep_encode_or_exit item.user_list_next) _
                    (doc.usize.bytes item.user_list_next) t6
                    (λ dest. doc.usize.writes_or_exit item.user_list_next dest fc)
                    (λ dest. doc.usize.writes_or_exit item.user_list_prev dest fe)))))),
      Reads-then (Description.dep_decode fw) _ item.fund_desc item d t1 r (
          Reads-then fw.usize.dep_decode _ item.user_id item (doc.usize.bytes item.user_id) t2
            (λ rest. doc.usize.reads item.user_id rest fu)
            (Reads-then fw.big_uint.dep_decode _ item.balance item (doc.big_uint.bytes item.balance)
              t3 (λ rest. doc.big_uint.reads item.balance rest tt)
              (Reads-then fw.usize.dep_decode _ item.type_list_next item
                (doc.usize.bytes item.type_list_next) t4
                (λ rest. doc.usize.reads item.type_list_next rest fa)
                (Reads-then fw.usize.dep_decode _ item.type_list_prev item
                  (doc.usize.bytes item.type_list_prev) t5
                  (λ rest. doc.usize.reads item.type_list_prev rest fb)
                  (Reads-then fw.usize.dep_decode _ item.user_list_next item
                    (doc.usize.bytes item.user_list_next) t6
                    (λ rest. doc.usize.reads item.user_list_next rest fc)
                    (made-Reads fw.usize doc.usize item.user_list_prev fe
                      (λ x. record item { user_list_prev = x }))))))),
      Reads-then (Description.dep_decode_or_exit fw) _ item.fund_desc item d t1 r' (
          Reads-then fw.usize.dep_decode_or_exit _ item.user_id item (doc.usize.bytes item.user_id)
            t2 (λ rest. doc.usize.reads_or_exit item.user_id rest fu)
            (Reads-then fw.big_uint.dep_decode_or_exit _ item.balance item
              (doc.big_uint.bytes item.balance) t3
              (λ rest. doc.big_uint.reads_or_exit item.balance rest tt)
              (Reads-then fw.usize.dep_decode_or_exit _ item.type_list_next item
                (doc.usize.bytes item.type_list_next) t4
                (λ rest. doc.usize.reads_or_exit item.type_list_next rest fa)
                (Reads-then fw.usize.dep_decode_or_exit _ item.type_list_prev item
                  (doc.usize.bytes item.type_list_prev) t5
                  (λ rest. doc.usize.reads_or_exit item.type_list_prev rest fb)
                  (Reads-then fw.usize.dep_decode_or_exit _ item.user_list_next item
                    (doc.usize.bytes item.user_list_next) t6
                    (λ rest. doc.usize.reads_or_exit item.user_list_next rest fc)
                    (made-Reads_or_exit fw.usize doc.usize item.user_list_prev fe
                      (λ x. record item { user_list_prev = x }))))))),
    )

-- No input that is decoded is empty.
nonempty :
    (fw : Framework)
    → Documented fw
    → (item : OldFundItem) (bytes : List ℕ) → Item.dep_decode fw bytes ≡ ok (item, [])
    → (length bytes == 0) ≡ false
unfolding Item.dep_decode Description.dep_decode
nonempty fw doc item [] e =
    let failed : Item.dep_decode fw [] ≡ err Error.input_too_short = rw doc.short refl in
    cc (failed, e)
nonempty fw doc item (x ∷ bytes) e = ground arith

-- With the framework as documented, `top_encode` of a `FundItem` whose nonce has 64 bits and whose
-- ids have 32 succeeds, and `top_decode` of its bytes gives the item back, or the zero value for an
-- item without a balance and links. Below the top level, either variant of `dep_encode` writes bytes
-- that either variant of `dep_decode` takes off an input and decodes to the same item, always.
pub item-top_RoundTrip :
    (fw : Framework)
    → Documented fw
    → (item : OldFundItem) → ItemFits item
    → ((bytes : List ℕ) × (Item.top_encode fw item ≡ ok bytes)
        × (Item.top_decode fw bytes ≡ ok (if is_zero_value item then zero_value else item)))
      × RoundTrip
          (Item.dep_encode fw)
          (Item.dep_encode_or_exit fw)
          (Item.dep_decode fw)
          (Item.dep_decode_or_exit fw)
          item
unfolding Item.top_encode Item.top_decode
item-top_RoundTrip fw doc item fits =
    let (bytes, w, w', r, r') = item-RoundTrip fw doc item fits in
    let back : Item.dep_decode fw bytes ≡ ok (item, []) =
      ap (Item.dep_decode fw) (sym (append-nil bytes)) ∙ r [] in
    (
      elim (Bool-cases (is_zero_value item)) [
        | inl cleared ↦ ([], rw cleared, rw cleared)
        | inr stored ↦ (
          bytes,
          rw stored (doc.writes_top (Item.dep_encode fw item) ∙ w []),
          rw (stored, nonempty fw doc item bytes back)
              (doc.reads_top (Item.dep_decode fw) bytes item back),
        )
      ],
      (bytes, w, w', r, r'),
    )
