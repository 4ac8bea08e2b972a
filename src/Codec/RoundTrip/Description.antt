-- ===== src/Codec/RoundTrip/Description.antt =====
-- `FundDescription` of fund_type.rs is read back as it was written, and no other discriminant is
-- read.
use mx_delegation_sc.Base.{
  ℕ, ◌≡◌, refl, ap, ◌∙◌, List, [], ◌∷◌, ◌++◌, arith, ◌==◌, inl, inr, Bool-cases,
}
use mathlib.Core.Path.{subst}
use mx_delegation_sc.Base.Outcome.{ok, err, Error, >>=-eq-ok}
use mx_delegation_sc.Codec.{Framework, Documented, FitsU64}
use mx_delegation_sc.Codec.Description.{
  OldFundDescription, discr_withdraw_only, discr_waiting, discr_active, discr_unstaked,
  discr_def_payment,
}
use mx_delegation_sc.Codec.Description
use mx_delegation_sc.Codec.RoundTrip.{RoundTrip, bare, numbered, tagged-Writes}

-- The nonce in a description is a 64-bit number.
abbrev pub Fits : OldFundDescription → Type 0
Fits OldFundDescription.withdraw_only = Unit {0}
Fits (OldFundDescription.waiting created) = FitsU64 created
Fits OldFundDescription.active = Unit {0}
Fits (OldFundDescription.un_staked created) = FitsU64 created
Fits (OldFundDescription.deferred_payment created) = FitsU64 created

-- With the framework as documented, a `FundDescription` whose nonce has 64 bits is written, by either
-- variant of `dep_encode`, as bytes that either variant of `dep_decode` takes off an input, leaving
-- the rest, and decodes to the same description.
pub description-RoundTrip :
    (fw : Framework)
    → Documented fw
    → (d : OldFundDescription) → Fits d
    → RoundTrip
        (Description.dep_encode fw)
        (Description.dep_encode_or_exit fw)
        (Description.dep_decode fw)
        (Description.dep_decode_or_exit fw)
        d
unfolding Description.dep_encode Description.dep_encode_or_exit Description.dep_decode
    Description.dep_decode_or_exit
description-RoundTrip fw doc OldFundDescription.withdraw_only fits =
    bare fw doc (Description.decode_by_discriminant fw)
      (Description.decode_by_discriminant_or_exit fw) 0 OldFundDescription.withdraw_only
      (λ rest. refl) (λ rest. refl)
description-RoundTrip fw doc (OldFundDescription.waiting created) fits =
    numbered fw doc (Description.decode_by_discriminant fw)
      (Description.decode_by_discriminant_or_exit fw) 1 OldFundDescription.waiting created fits
      (λ rest. refl) (λ rest. refl)
description-RoundTrip fw doc OldFundDescription.active fits =
    bare fw doc (Description.decode_by_discriminant fw)
      (Description.decode_by_discriminant_or_exit fw) 4 OldFundDescription.active (λ rest. refl)
      (λ rest. refl)
description-RoundTrip fw doc (OldFundDescription.un_staked created) fits =
    numbered fw doc (Description.decode_by_discriminant fw)
      (Description.decode_by_discriminant_or_exit fw) 5 OldFundDescription.un_staked created fits
      (λ rest. refl) (λ rest. refl)
description-RoundTrip fw doc (OldFundDescription.deferred_payment created) fits =
    numbered fw doc (Description.decode_by_discriminant fw)
      (Description.decode_by_discriminant_or_exit fw) 6 OldFundDescription.deferred_payment created
      fits (λ rest. refl) (λ rest. refl)

-- The bytes that an input begins with are those of the description, and the rest follows.
abbrev pub Encoded : (fw : Framework) (input : List ℕ) → OldFundDescription → List ℕ → Type 0
Encoded fw input d rest =
    Fits d
    × (taken : List ℕ) × (input ≡ taken ++ rest)
    × ((dest : List ℕ) → Description.dep_encode fw d dest ≡ ok (dest ++ taken))

abbrev Decoded : Type 0
Decoded = OldFundDescription × List ℕ

ok-injective : (v w : Decoded) → ok v ≡ ok w → v ≡ w
ok-injective v w e = cc

no_value : {error : Error} (v : Decoded) → err error ≡ ok v → ⊥
no_value v e = cc

module _ (fw : Framework) (doc : Documented fw) where
  carried :
      (input : List ℕ) (v w : Decoded)
      → ok v ≡ ok w
      → Encoded fw input v.0 v.1
      → Encoded fw input w.0 w.1
  carried input v w e h = subst (λ z. Encoded fw input z.0 z.1) (ok-injective v w e) h

  bare-Encoded :
      (b : ℕ) (r : List ℕ) (d : OldFundDescription)
      → Fits d
      → ((dest : List ℕ) → Description.dep_encode fw d dest ≡ ok (fw.push_byte b dest))
      → Encoded fw (b ∷ r) d r
  bare-Encoded b r d fits encodes =
      (fits, b ∷ [], refl, λ dest. encodes dest ∙ ap ok (doc.pushes b dest))

  created-Encoded :
      (b : ℕ) (r : List ℕ) (make : ℕ → OldFundDescription)
      → ((input : List ℕ) (x : ℕ) (rest : List ℕ)
          → fw.u64.dep_decode input ≡ ok (x, rest)
          → (input ≡ doc.u64.bytes x ++ rest) × FitsU64 x)
      → ((x : ℕ) → FitsU64 x → Fits (make x))
      → ((x : ℕ) (dest : List ℕ)
          → Description.dep_encode fw (make x) dest ≡ fw.u64.dep_encode x (fw.push_byte b dest))
      → (v : Decoded) → Description.decode_created fw make r ≡ ok v
      → Encoded fw (b ∷ r) v.0 v.1
  unfolding Description.decode_created
  created-Encoded b r make only fits encodes v e =
      let (y, e1, e2) = >>=-eq-ok (fw.u64.dep_decode r) _ e in
      let x = y.0 in
      let rest = y.1 in
      let (bytes, fit) = only r x rest e1 in
      carried (b ∷ r) (make x, rest) v e2
        (
          fits x fit,
          b ∷ doc.u64.bytes x,
          ap (λ z. b ∷ z) bytes,
          λ dest. encodes x dest ∙ tagged-Writes fw.u64 doc.u64 x fit fw doc b dest,
        )

  -- The five arms of the `match`, and the last one, which is an error.
  matched-Encoded :
      ((input : List ℕ) (x : ℕ) (rest : List ℕ)
        → fw.u64.dep_decode input ≡ ok (x, rest)
        → (input ≡ doc.u64.bytes x ++ rest) × FitsU64 x)
      → (b : ℕ) (r : List ℕ) (v : Decoded) → Description.decode_by_discriminant fw b r ≡ ok v
      → Encoded fw (b ∷ r) v.0 v.1
  unfolding Description.decode_by_discriminant Description.dep_encode
  matched-Encoded only b r v e = elim (Bool-cases (b == discr_withdraw_only)) [
    | inl is_withdraw_only ↦
        carried (b ∷ r) (OldFundDescription.withdraw_only, r) v (rw (is_withdraw_only) at (e))
          (bare-Encoded b r OldFundDescription.withdraw_only tt
            (λ dest. ap (λ z. ok (fw.push_byte z dest)) (ground (arith, is_withdraw_only))))
    | inr not_withdraw_only ↦ elim (Bool-cases (b == discr_waiting)) [
      | inl is_waiting ↦
          created-Encoded b r OldFundDescription.waiting only (λ x h. h)
            (λ x dest.
              ap (λ z. fw.u64.dep_encode x (fw.push_byte z dest)) (ground (arith, is_waiting)))
            v (rw (not_withdraw_only, is_waiting) at (e))
      | inr not_waiting ↦ elim (Bool-cases (b == discr_active)) [
        | inl is_active ↦
            carried (b ∷ r) (OldFundDescription.active, r) v
              (rw (not_withdraw_only, not_waiting, is_active) at (e))
              (bare-Encoded b r OldFundDescription.active tt
                (λ dest. ap (λ z. ok (fw.push_byte z dest)) (ground (arith, is_active))))
        | inr not_active ↦ elim (Bool-cases (b == discr_unstaked)) [
          | inl is_un_staked ↦
              created-Encoded b r OldFundDescription.un_staked only (λ x h. h)
                (λ x dest.
                  ap (λ z. fw.u64.dep_encode x (fw.push_byte z dest))
                    (ground (arith, is_un_staked)))
                v (rw (not_withdraw_only, not_waiting, not_active, is_un_staked) at (e))
          | inr not_un_staked ↦ elim (Bool-cases (b == discr_def_payment)) [
            | inl is_deferred_payment ↦
                created-Encoded b r OldFundDescription.deferred_payment only (λ x h. h)
                  (λ x dest.
                    ap (λ z. fw.u64.dep_encode x (fw.push_byte z dest))
                      (ground (arith, is_deferred_payment)))
                  v
                  (rw
                    (not_withdraw_only, not_waiting, not_active, not_un_staked, is_deferred_payment)
                    at (e))
            | inr not_deferred_payment ↦ absurd (
                no_value v (
                  rw
                    (
                      not_withdraw_only, not_waiting, not_active, not_un_staked,
                      not_deferred_payment,
                    )
                    at (e)))
          ]
        ]
      ]
    ]
  ]

-- With the framework as documented, and with a decoder of 64-bit numbers that accepts only what its
-- encoder writes: an input that `dep_decode` accepts begins with the bytes that `dep_encode` writes
-- for the description that it returns, whose nonce has 64 bits, and what it returns as the rest
-- follows them. So it refuses every input that does not begin with a written description, an empty
-- one and an unknown discriminant among them.
pub description-dep_decode-Encoded :
    (fw : Framework) (doc : Documented fw)
    → ((input : List ℕ) (x : ℕ) (rest : List ℕ)
        → fw.u64.dep_decode input ≡ ok (x, rest)
        → (input ≡ doc.u64.bytes x ++ rest) × FitsU64 x)
    → (input : List ℕ) (d : OldFundDescription) (rest : List ℕ)
    → Description.dep_decode fw input ≡ ok (d, rest)
    → Encoded fw input d rest
unfolding Description.dep_decode
description-dep_decode-Encoded fw doc only [] d rest e =
    absurd (no_value (d, rest) (rw doc.short at (e)))
description-dep_decode-Encoded fw doc only (b ∷ r) d rest e =
    matched-Encoded fw doc only b r (d, rest) (rw (doc.reads b r) at (e))
