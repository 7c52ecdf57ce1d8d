-- ===== src/Observability/Tracing/Tags.antt =====
-- The identifiers and the tags of a span (src/observability.c).
use grpc_c.Common.{
  ℕ, zero, suc, ◌+◌, ◌%◌, ◌≤◌, ◌<◌, ◌≡◌, refl, sym, ap, arith, true, ◌⊎◌, inl, inr, Option, none,
  some, List, [], ◌∷◌, ◌++◌, length, leb, length-append, get_elem?, All, Bool-cases,
}
use grpc_c.Common.Fallible.{success, failure}
use grpc_c.Common.Memory.{Alloc, strlen}
use grpc_c.Observability.Metrics.{copied}
use grpc_c.Observability.Tracing.{
  Span, Tag, add_tag, Rand, Time, generate_id, digits_from, hex_digit, charset, seed,
}

-- The array of tags has room for them; it is not there as long as the capacity is 0.
unfoldable pub IsFitting : Span → Type 0
IsFitting span = length span.tags ≤ span.tags_capacity

-- What add_tag does: it fails and changes nothing, or it returns 0 and puts one tag behind the
-- others, whose strings are NULL where they could not be copied. In each case the tags fit in
-- their array, whose capacity never shrinks.
pub add_tag-IsFitting :
    (alloc : Alloc) (k : ℕ) (span : Span) (key value : Option (List ℕ))
    → IsFitting span
    → IsFitting (add_tag alloc k span key value).0
      × (span.tags_capacity ≤ (add_tag alloc k span key value).0.tags_capacity)
      × ((add_tag alloc k span key value ≡ (span, failure))
          ⊎ ((tag : Tag) × ((add_tag alloc k span key value).0.tags ≡ span.tags ++ tag ∷ [])
              × ((add_tag alloc k span key value).1 ≡ success)))
unfolding add_tag IsFitting
add_tag-IsFitting alloc k span none value fits = (fits, omega arith, inl refl)
add_tag-IsFitting alloc k span (some key) none fits = (fits, omega arith, inl refl)
add_tag-IsFitting alloc k span (some key) (some value) fits =
    let tag : ℕ → Tag = λ i. record {
      key = copied (alloc i) key;
      value = copied (alloc (i + 1)) value;
      value_length = strlen value;
    } in
    let longer : (t : Tag) → length (span.tags ++ t ∷ []) ≡ length span.tags + 1 =
      λ t. length-append span.tags (t ∷ []) in
    elim (Bool-cases (leb span.tags_capacity (length span.tags))) [
      | inl full ↦ elim (Bool-cases (alloc k)) [
        | inl granted ↦
            rw (full, granted)
              (ground (arith, full, longer (tag (k + 1))), ground arith, inr (_, refl, refl))
        | inr refused ↦ rw (full, refused) (fits, omega arith, inl refl)
      ]
      | inr room ↦ rw room (ground (arith, room, longer (tag k)), omega arith, inr (_, refl, refl))
    ]

abbrev pub IsHex : ℕ → Type 0
IsHex c = ((48 ≤ c) × (c < 58)) ⊎ ((97 ≤ c) × (c < 103))

charset-IsHex : All IsHex charset
charset-IsHex = ground arith

hex_digit-IsHex : (n : ℕ) → n < 16 → IsHex (hex_digit n)
unfolding hex_digit
hex_digit-IsHex n small = get_elem-All charset n charset-IsHex small
  where
    get_elem-All :
        (xs : List ℕ) (i : ℕ)
        → All IsHex xs
        → i < length xs
        → IsHex (elim (get_elem? xs i) [ none ↦ 0 | some c ↦ c ])
    get_elem-All [] i h small = absurd (omega arith)
    get_elem-All (x ∷ xs) zero h small = h.0
    get_elem-All (x ∷ xs) (suc i) h small = get_elem-All xs i h.1 (omega arith)

digits_from-IsHex :
    (rand : Rand) (s i n : ℕ)
    → (length (digits_from rand s i n) ≡ n) × All IsHex (digits_from rand s i n)
unfolding digits_from
digits_from-IsHex rand s i zero = (refl, tt)
digits_from-IsHex rand s i (suc n) =
    let rest = digits_from-IsHex rand s (i + 1) n in
    (ap suc rest.0, (hex_digit-IsHex (rand s i % 16) (omega arith), rest.1))

-- An identifier is 16 hexadecimal digits, whatever rand answers; one is made wherever memory is
-- granted, and the same one at two times with the same seed.
pub generate_id-IsHex :
    (rand : Rand) (tv tv' : Time)
    → seed tv ≡ seed tv'
    → (id : List ℕ) × (generate_id rand true tv ≡ some id)
      × (generate_id rand true tv' ≡ some id)
      × (length id ≡ 16)
      × All IsHex id
unfolding generate_id
generate_id-IsHex rand tv tv' same = (
  digits_from rand (seed tv) 0 16,
  refl,
  ap (λ n. some (digits_from rand n 0 16)) (sym same),
  (digits_from-IsHex rand (seed tv) 0 16).0,
  (digits_from-IsHex rand (seed tv) 0 16).1,
)
