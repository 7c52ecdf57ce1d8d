-- ===== src/Common/Fallible.antt =====
-- Results that are `-1` or NULL on failure, in sequence; and the bytes written to a caller's buffer.
use grpc_c.Common.{
  ℕ, ◌≤◌, ◌≡◌, refl, arith, Option, none, some, List, [], ◌∷◌, ◌++◌, length, leb, if◌then◌else◌,
}

infixl 5 ◌>>=◌
abbrev pub ◌>>=◌ {ℓ κ} : {A : Type ℓ} {B : Type κ} → Option A → (A → Option B) → Option B
none >>= f = none
some a >>= f = f a

-- `if (pos >= output_len) return -1; output[pos++] = byte;` where `out` is what was written so far.
unfoldable pub put : ℕ → List ℕ → ℕ → Option (List ℕ)
put output_len out byte = if leb output_len (length out) then none else some (out ++ byte ∷ [])

-- A whole text in a buffer, or -1.
unfoldable pub fitting : ℕ → List ℕ → Option (List ℕ)
fitting output_len bytes = if leb (length bytes) output_len then some bytes else none

pub fitting-some :
    (len : ℕ) (text bytes : List ℕ)
    → fitting len text ≡ some bytes
    → (bytes ≡ text) × (length text ≤ len)
unfolding fitting
fitting-some len text bytes e = ground arith

-- A sequence that succeeds has a first step that does.
pub >>=-eq-some {ℓ κ} :
    {A : Type ℓ} {B : Type κ} (m : Option A) (f : A → Option B) {b : B}
    → (m >>= f) ≡ some b
    → (a : A) × (m ≡ some a) × (f a ≡ some b)
>>=-eq-some none f e = cc
>>=-eq-some (some a) f e = (a, refl, e)

-- An `int` result that is 0 or -1.
pub data Status : Type 0 where
  success failure : Status
