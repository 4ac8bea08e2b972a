-- ===== src/Codec.antt =====
-- The hand-written codecs of user-fund-storage/fuzz/old_serialization and
-- node-storage/fuzz/old_serialization, which the fuzz targets hold against the derived ones. What
-- they call of the framework is the parameter `Framework`: bytes are appended to an output, and read
-- from the front of an input, which is returned with what is left of it. The variants that end in
-- `_or_exit` hand an error to a closure that never returns, which is an error here as well.
pub mod Description
pub mod Kind
pub mod Item
pub mod ListInfo
pub mod State
pub mod RoundTrip
use mx_delegation_sc.Base.{ℕ, ◌+◌, ◌^◌, ◌<◌, ◌≡◌, List, [], ◌∷◌, ◌++◌}
use mx_delegation_sc.Base.Outcome.{Result, ok, err, Error}

-- `NestedEncode` and `NestedDecode` of a type of numbers.
pub record Primitive : Type 0 where
  pub dep_encode : ℕ → List ℕ → Result (List ℕ)
  pub dep_encode_or_exit : ℕ → List ℕ → Result (List ℕ)
  pub dep_decode : List ℕ → Result (ℕ × List ℕ)
  pub dep_decode_or_exit : List ℕ → Result (ℕ × List ℕ)

pub record Framework : Type 1 where
  pub push_byte : ℕ → List ℕ → List ℕ
  pub read_byte : List ℕ → Result (ℕ × List ℕ)
  pub read_byte_or_exit : List ℕ → Result (ℕ × List ℕ)
  pub u64 : Primitive
  pub usize : Primitive
  pub big_uint : Primitive
  pub top_encode_from_nested : (List ℕ → Result (List ℕ)) → Result (List ℕ)
  pub top_encode_from_nested_or_exit : (List ℕ → Result (List ℕ)) → Result (List ℕ)
  pub top_decode_from_nested : {A : Type 0} → (List ℕ → Result (A × List ℕ)) → List ℕ → Result A
  pub top_decode_from_nested_or_exit :
      {A : Type 0} → (List ℕ → Result (A × List ℕ)) → List ℕ → Result A

-- A type of numbers writes bytes that it reads back, whatever comes before and after them.
pub record ReadsBack (p : Primitive) (fits : ℕ → Type 0) : Type 0 where
  pub bytes : ℕ → List ℕ
  pub writes : (x : ℕ) (dest : List ℕ) → fits x → p.dep_encode x dest ≡ ok (dest ++ bytes x)
  pub writes_or_exit :
      (x : ℕ) (dest : List ℕ) → fits x → p.dep_encode_or_exit x dest ≡ ok (dest ++ bytes x)
  pub reads : (x : ℕ) (rest : List ℕ) → fits x → p.dep_decode (bytes x ++ rest) ≡ ok (x, rest)
  pub reads_or_exit :
      (x : ℕ) (rest : List ℕ) → fits x → p.dep_decode_or_exit (bytes x ++ rest) ≡ ok (x, rest)

abbrev pub FitsU64 : ℕ → Type 0
FitsU64 x = x < 2 ^ 64

abbrev pub FitsUsize : ℕ → Type 0
FitsUsize x = x < 2 ^ 32

-- The documented behaviour of the framework: a top-level value is its nested encoding, and decoding
-- it fails where bytes are left over.
pub record Documented (fw : Framework) : Type 1 where
  pub pushes : (b : ℕ) (dest : List ℕ) → fw.push_byte b dest ≡ dest ++ b ∷ []
  pub reads : (b : ℕ) (rest : List ℕ) → fw.read_byte (b ∷ rest) ≡ ok (b, rest)
  pub reads_or_exit : (b : ℕ) (rest : List ℕ) → fw.read_byte_or_exit (b ∷ rest) ≡ ok (b, rest)
  pub short : fw.read_byte [] ≡ err Error.input_too_short
  pub u64 : ReadsBack fw.u64 FitsU64
  pub usize : ReadsBack fw.usize FitsUsize
  pub big_uint : ReadsBack fw.big_uint (λ _. Unit {0})
  pub big_uint_short : fw.big_uint.dep_decode [] ≡ err Error.input_too_short
  pub writes_top : (f : List ℕ → Result (List ℕ)) → fw.top_encode_from_nested f ≡ f []
  pub reads_top :
      {A : Type 0} (f : List ℕ → Result (A × List ℕ)) (bytes : List ℕ) (v : A)
      → f bytes ≡ ok (v, [])
      → fw.top_decode_from_nested f bytes ≡ ok v
