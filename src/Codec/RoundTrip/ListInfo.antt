-- ===== src/Codec/RoundTrip/ListInfo.antt =====
-- `FundsListInfo` of fund_list_info.rs is read back as it was written.
use mx_delegation_sc.Base.{
  ℕ, ◌≡◌, refl, sym, ap, ◌∙◌, inl, inr, true, false, List, [], ◌∷◌, ◌++◌, arith, ◌==◌, length,
  Bool-cases, append-nil,
}
use mx_delegation_sc.Base.Outcome.{ok, err, Error}
use mx_delegation_sc.Funds.Types.{FundsListInfo}
use mx_delegation_sc.Codec.{Framework, Documented, FitsUsize}
use mx_delegation_sc.Codec.ListInfo.{list_is_empty, zero_list}
use mx_delegation_sc.Codec.ListInfo
use mx_delegation_sc.Codec.RoundTrip.{
  RoundTrip, Writes-then, Reads-then, made-Reads, made-Reads_or_exit,
}

list-RoundTrip :
    (fw : Framework)
    → Documented fw
    → (l : FundsListInfo) → FitsUsize l.first
    → FitsUsize l.last
    → RoundTrip
        (ListInfo.dep_encode fw)
        (ListInfo.dep_encode_or_exit fw)
        (ListInfo.dep_decode fw)
        (ListInfo.dep_decode_or_exit fw)
        l
unfolding ListInfo.dep_encode ListInfo.dep_encode_or_exit ListInfo.dep_decode
    ListInfo.dep_decode_or_exit
list-RoundTrip fw doc l ff fl =
    let t0 : List ℕ = doc.big_uint.bytes l.total_balance in
    let t2 : List ℕ = doc.usize.bytes l.last in
    let t1 : List ℕ = doc.usize.bytes l.first ++ t2 in
    let make : ℕ → FundsListInfo = λ x. record l { last = x } in
    (
      t0 ++ t1,
      Writes-then (fw.big_uint.dep_encode l.total_balance) _ t0 t1
          (λ dest. doc.big_uint.writes l.total_balance dest tt)
          (Writes-then (fw.usize.dep_encode l.first) _ (doc.usize.bytes l.first) t2
            (λ dest. doc.usize.writes l.first dest ff) (λ dest. doc.usize.writes l.last dest fl)),
      Writes-then (fw.big_uint.dep_encode_or_exit l.total_balance) _ t0 t1
          (λ dest. doc.big_uint.writes_or_exit l.total_balance dest tt)
          (Writes-then (fw.usize.dep_encode_or_exit l.first) _ (doc.usize.bytes l.first) t2
            (λ dest. doc.usize.writes_or_exit l.first dest ff)
            (λ dest. doc.usize.writes_or_exit l.last dest fl)),
      Reads-then fw.big_uint.dep_decode _ l.total_balance l t0 t1
          (λ rest. doc.big_uint.reads l.total_balance rest tt)
          (Reads-then fw.usize.dep_decode _ l.first l (doc.usize.bytes l.first) t2
            (λ rest. doc.usize.reads l.first rest ff)
            (made-Reads fw.usize doc.usize l.last fl make)),
      Reads-then fw.big_uint.dep_decode_or_exit _ l.total_balance l t0 t1
          (λ rest. doc.big_uint.reads_or_exit l.total_balance rest tt)
          (Reads-then fw.usize.dep_decode_or_exit _ l.first l (doc.usize.bytes l.first) t2
            (λ rest. doc.usize.reads_or_exit l.first rest ff)
            (made-Reads_or_exit fw.usize doc.usize l.last fl make)),
    )

-- No input that is decoded is empty.
nonempty :
    (fw : Framework)
    → Documented fw
    → (l : FundsListInfo) (bytes : List ℕ) → ListInfo.dep_decode fw bytes ≡ ok (l, [])
    → (length bytes == 0) ≡ false
unfolding ListInfo.dep_decode
nonempty fw doc l [] e =
    let failed : ListInfo.dep_decode fw [] ≡ err Error.input_too_short =
      rw doc.big_uint_short refl in
    cc (failed, e)
nonempty fw doc l (x ∷ bytes) e = ground arith

empty-zero : (l : FundsListInfo) → list_is_empty l ≡ true → l ≡ zero_list
unfolding list_is_empty zero_list
empty-zero l e = ground arith

-- With the framework as documented, `top_encode` of a `FundsListInfo` whose ends have 32 bits
-- succeeds, and `top_decode` of its bytes gives it back. Below the top level, either variant of
-- `dep_encode` writes bytes that either variant of `dep_decode` takes off an input and decodes to
-- the same header.
pub list-top_RoundTrip :
    (fw : Framework)
    → Documented fw
    → (l : FundsListInfo) → FitsUsize l.first
    → FitsUsize l.last
    → ((bytes : List ℕ) × (ListInfo.top_encode fw l ≡ ok bytes)
        × (ListInfo.top_decode fw bytes ≡ ok l))
      × RoundTrip
          (ListInfo.dep_encode fw)
          (ListInfo.dep_encode_or_exit fw)
          (ListInfo.dep_decode fw)
          (ListInfo.dep_decode_or_exit fw)
          l
unfolding ListInfo.top_encode ListInfo.top_decode
list-top_RoundTrip fw doc l ff fl =
    let (bytes, w, w', r, r') = list-RoundTrip fw doc l ff fl in
    let back : ListInfo.dep_decode fw bytes ≡ ok (l, []) =
      ap (ListInfo.dep_decode fw) (sym (append-nil bytes)) ∙ r [] in
    (
      elim (Bool-cases (list_is_empty l)) [
        | inl blank ↦ ([], rw blank, ap ok (sym (empty-zero l blank)))
        | inr stored ↦ (
          bytes,
          rw stored (doc.writes_top (ListInfo.dep_encode fw l) ∙ w []),
          rw (nonempty fw doc l bytes back) (doc.reads_top (ListInfo.dep_decode fw) bytes l back),
        )
      ],
      (bytes, w, w', r, r'),
    )
