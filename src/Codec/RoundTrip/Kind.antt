-- ===== src/Codec/RoundTrip/Kind.antt =====
-- `FundType` of fund_type.rs is read back as it was written.
use mx_delegation_sc.Base.{refl}
use mx_delegation_sc.Codec.{Framework, Documented}
use mx_delegation_sc.Codec.Kind.{OldFundType}
use mx_delegation_sc.Codec.Kind
use mx_delegation_sc.Codec.RoundTrip.{RoundTrip, bare}

-- With the framework as documented, a `FundType` is written, by either variant of `dep_encode`, as
-- bytes that either variant of `dep_decode` takes off an input and decodes to the same type.
pub kind-RoundTrip :
    (fw : Framework)
    → Documented fw
    → (t : OldFundType)
    → RoundTrip
        (Kind.dep_encode fw)
        (Kind.dep_encode_or_exit fw)
        (Kind.dep_decode fw)
        (Kind.dep_decode_or_exit fw)
        t
unfolding Kind.dep_encode Kind.dep_encode_or_exit Kind.dep_decode Kind.dep_decode_or_exit
kind-RoundTrip fw doc OldFundType.withdraw_only =
    bare fw doc (Kind.decode_by_discriminant fw) (Kind.decode_by_discriminant_or_exit fw) 0
      OldFundType.withdraw_only (λ rest. refl) (λ rest. refl)
kind-RoundTrip fw doc OldFundType.waiting =
    bare fw doc (Kind.decode_by_discriminant fw) (Kind.decode_by_discriminant_or_exit fw) 1
      OldFundType.waiting (λ rest. refl) (λ rest. refl)
kind-RoundTrip fw doc OldFundType.active =
    bare fw doc (Kind.decode_by_discriminant fw) (Kind.decode_by_discriminant_or_exit fw) 4
      OldFundType.active (λ rest. refl) (λ rest. refl)
kind-RoundTrip fw doc OldFundType.un_staked =
    bare fw doc (Kind.decode_by_discriminant fw) (Kind.decode_by_discriminant_or_exit fw) 5
      OldFundType.un_staked (λ rest. refl) (λ rest. refl)
kind-RoundTrip fw doc OldFundType.deferred_payment =
    bare fw doc (Kind.decode_by_discriminant fw) (Kind.decode_by_discriminant_or_exit fw) 6
      OldFundType.deferred_payment (λ rest. refl) (λ rest. refl)
