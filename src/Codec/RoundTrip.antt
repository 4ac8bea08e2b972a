-- ===== src/Codec/RoundTrip.antt =====
-- What a codec writes, it reads back: encoders and decoders in sequence, and the round trips of the
-- types.
pub mod Description
pub mod Kind
pub mod Item
pub mod ListInfo
pub mod State
use mx_delegation_sc.Base.{ℕ, ◌≡◌, refl, ◌∙◌, ap, List, [], ◌∷◌, ◌++◌, append_assoc, append-snoc}
use mx_delegation_sc.Base.Outcome.{Result, ok, err, ◌>>=◌}
use mx_delegation_sc.Codec.{Primitive, Framework, ReadsBack, Documented, FitsU64}

-- The encoder appends the bytes, and the decoder takes them off and gives the value.
abbrev pub Writes : (List ℕ → Result (List ℕ)) → List ℕ → Type 0
Writes f bytes = (dest : List ℕ) → f dest ≡ ok (dest ++ bytes)

abbrev pub Reads : {A : Type 0} → (List ℕ → Result (A × List ℕ)) → A → List ℕ → Type 0
Reads f v bytes = (rest : List ℕ) → f (bytes ++ rest) ≡ ok (v, rest)

pub Writes-then :
    (f g : List ℕ → Result (List ℕ)) (a b : List ℕ)
    → Writes f a
    → Writes g b
    → Writes (λ dest. f dest >>= g) (a ++ b)
Writes-then f g a b first second dest =
    rw (first dest, second (dest ++ a)) (ap ok (append_assoc dest a b))

pub Reads-then :
    {A B : Type 0} (f : List ℕ → Result (A × List ℕ)) (k : A × List ℕ → Result (B × List ℕ)) (x : A)
    (v : B) (a b : List ℕ)
    → Reads f x a
    → Reads (λ rest. k (x, rest)) v b
    → Reads (λ input. f input >>= k) v (a ++ b)
Reads-then f k x v a b first second rest =
    ap (λ z. f z >>= k) (append_assoc a b rest) ∙ rw (first (b ++ rest)) (second rest)

-- The bytes that a value is written as, for both variants of the codec.
abbrev pub RoundTrip :
    {A : Type 0}
    → (encode encode_or_exit : A → List ℕ → Result (List ℕ))
    → (decode decode_or_exit : List ℕ → Result (A × List ℕ)) → A
    → Type 0
RoundTrip encode encode_or_exit decode decode_or_exit v =
    (bytes : List ℕ) × Writes (encode v) bytes
    × Writes (encode_or_exit v) bytes
    × Reads decode v bytes
    × Reads decode_or_exit v bytes

-- A number, and a value that is made from it.
module _ (p : Primitive) {fits : ℕ → Type 0} (back : ReadsBack p fits) (x : ℕ) (h : fits x) where
  pub made-Reads :
      {B : Type 0} (make : ℕ → B)
      → Reads
          (λ input. p.dep_decode input >>= λ (y, rest). ok (make y, rest))
          (make x)
          (back.bytes x)
  made-Reads make rest = rw (back.reads x rest h)

  pub made-Reads_or_exit :
      {B : Type 0} (make : ℕ → B)
      → Reads
          (λ input. p.dep_decode_or_exit input >>= λ (y, rest). ok (make y, rest))
          (make x)
          (back.bytes x)
  made-Reads_or_exit make rest = rw (back.reads_or_exit x rest h)

  module _ (fw : Framework) (doc : Documented fw) (b : ℕ) where
    pub tagged-Writes : Writes (λ dest. p.dep_encode x (fw.push_byte b dest)) (b ∷ back.bytes x)
    tagged-Writes dest =
        ap (p.dep_encode x) (doc.pushes b dest)
        ∙ back.writes x (dest ++ b ∷ []) h
        ∙ ap ok (append-snoc dest b (back.bytes x))

    pub tagged-Writes_or_exit :
        Writes (λ dest. p.dep_encode_or_exit x (fw.push_byte b dest)) (b ∷ back.bytes x)
    tagged-Writes_or_exit dest =
        ap (p.dep_encode_or_exit x) (doc.pushes b dest)
        ∙ back.writes_or_exit x (dest ++ b ∷ []) h
        ∙ ap ok (append-snoc dest b (back.bytes x))

-- A discriminant, and what the `match` on it reads behind it.
module _ (fw : Framework) (doc : Documented fw) {A : Type 0}
    (body : ℕ → List ℕ → Result (A × List ℕ)) (b : ℕ) (v : A) (bytes : List ℕ)
    (inner : Reads (body b) v bytes) where
  pub byte-Reads : Reads (λ input. fw.read_byte input >>= λ (d, rest). body d rest) v (b ∷ bytes)
  byte-Reads rest = rw (doc.reads b (bytes ++ rest)) (inner rest)

  pub byte-Reads_or_exit :
      Reads (λ input. fw.read_byte_or_exit input >>= λ (d, rest). body d rest) v (b ∷ bytes)
  byte-Reads_or_exit rest = rw (doc.reads_or_exit b (bytes ++ rest)) (inner rest)

-- A constructor without data, and one with a 64-bit number: `body` is the `match` on the
-- discriminant `b`, in either variant.
module _ (fw : Framework) (doc : Documented fw) {A : Type 0}
    (body body_or_exit : ℕ → List ℕ → Result (A × List ℕ)) (b : ℕ) where
  pub bare :
      (v : A)
      → Reads (body b) v []
      → Reads (body_or_exit b) v []
      → (bytes : List ℕ) × Writes (λ dest. ok (fw.push_byte b dest)) bytes
        × Writes (λ dest. ok (fw.push_byte b dest)) bytes
        × Reads (λ input. fw.read_byte input >>= λ (d, rest). body d rest) v bytes
        × Reads (λ input. fw.read_byte_or_exit input >>= λ (d, rest). body_or_exit d rest) v bytes
  bare v read read_or_exit = (
    b ∷ [],
    λ dest. ap ok (doc.pushes b dest),
    λ dest. ap ok (doc.pushes b dest),
    byte-Reads fw doc body b v [] read,
    byte-Reads_or_exit fw doc body_or_exit b v [] read_or_exit,
  )

  pub numbered :
      (make : ℕ → A) (x : ℕ)
      → FitsU64 x
      → ((rest : List ℕ)
          → body b rest ≡ (fw.u64.dep_decode rest >>= λ (y, left). ok (make y, left)))
      → ((rest : List ℕ)
          → body_or_exit b rest
            ≡ (fw.u64.dep_decode_or_exit rest >>= λ (y, left). ok (make y, left)))
      → (bytes : List ℕ) × Writes (λ dest. fw.u64.dep_encode x (fw.push_byte b dest)) bytes
        × Writes (λ dest. fw.u64.dep_encode_or_exit x (fw.push_byte b dest)) bytes
        × Reads (λ input. fw.read_byte input >>= λ (d, rest). body d rest) (make x) bytes
        × Reads
            (λ input. fw.read_byte_or_exit input >>= λ (d, rest). body_or_exit d rest)
            (make x)
            bytes
  numbered make x fits read read_or_exit = (
    b ∷ doc.u64.bytes x,
    tagged-Writes fw.u64 doc.u64 x fits fw doc b,
    tagged-Writes_or_exit fw.u64 doc.u64 x fits fw doc b,
    byte-Reads fw doc body b (make x) (doc.u64.bytes x)
        (λ rest. read _ ∙ made-Reads fw.u64 doc.u64 x fits make rest),
    byte-Reads_or_exit fw doc body_or_exit b (make x) (doc.u64.bytes x)
        (λ rest. read_or_exit _ ∙ made-Reads_or_exit fw.u64 doc.u64 x fits make rest),
  )
