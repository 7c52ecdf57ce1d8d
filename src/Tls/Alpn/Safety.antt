-- ===== src/Tls/Alpn/Safety.antt =====
-- The callback on any bytes that a client sends, well formed or not (src/grpc_tls.c).
use grpc_c.Common.{
  ℕ, zero, suc, ◌+◌, ◌%◌, ◌^◌, ◌≤◌, ◌<◌, ◌≡◌, refl, ap, ◌∙◌, arith, Bool, true, false, ◌&&◌, some,
  List, [], ◌∷◌, length, ltb, ◌==◌, Bool-cases, inl, inr, All,
}
use grpc_c.Transport.{returns}
use grpc_c.Tls.Alpn.{Selected, chosen, noack, byte_at, is_h2, alpn_loop, alpn_select}
use grpc_c.Tls.Alpn.Selection.{alpn_loop-round, alpn_loop-end}

-- The bytes that were chosen are "h2", both inside the buffer.
abbrev pub IsSound : List ℕ → Selected → Type 0
IsSound bytes noack = Unit {0}
IsSound bytes (chosen i n) =
    (n ≡ 2) × (byte_at bytes i ≡ returns 104) × (byte_at bytes (i + 1) ≡ returns 50)

byte_at-inside :
    (bytes : List ℕ) (i : ℕ)
    → All (λ b. b < 256) bytes
    → i < length bytes
    → (b : ℕ) × (byte_at bytes i ≡ returns b) × (b < 256)
unfolding byte_at
byte_at-inside [] i h inside = absurd (omega arith)
byte_at-inside (x ∷ xs) zero h inside = (x, refl, h.0)
byte_at-inside (x ∷ xs) (suc i) h inside = byte_at-inside xs i h.1 (omega arith)

-- A protocol that does not fit.
alpn_loop-cut :
    (fuel : ℕ) (bytes : List ℕ) (i len : ℕ)
    → i < length bytes
    → length bytes < i + 1 + len
    → i + 1 + len < 2 ^ 32
    → byte_at bytes i ≡ returns len
    → alpn_loop (suc fuel) bytes i ≡ some (returns noack)
unfolding alpn_loop
alpn_loop-cut fuel bytes i len inside over small head =
    let whole : (i + 1 + len) % 2 ^ 32 ≡ i + 1 + len = omega arith in ground (arith, whole, head)

-- Two bytes inside the buffer are compared.
is_h2-inside :
    (bytes : List ℕ) (i : ℕ)
    → All (λ b. b < 256) bytes
    → i + 1 < length bytes
    → (same : Bool) × (is_h2 bytes i ≡ returns same)
      × (same ≡ true → (byte_at bytes i ≡ returns 104) × (byte_at bytes (i + 1) ≡ returns 50))
unfolding is_h2
is_h2-inside bytes i h inside =
    let (a, first, _) = byte_at-inside bytes i h (omega arith) in
    let (b, second, _) = byte_at-inside bytes (i + 1) h inside in
    (
      a == 104 && b == 50,
      rw (is_h2, first, second) refl,
      λ both. (first ∙ ap returns (head a b both), second ∙ ap returns (tail a b both)),
    )
  where
    head : (a b : ℕ) → (a == 104 && b == 50) ≡ true → a ≡ 104
    head a b both = ground (arith, both)

    tail : (a b : ℕ) → (a == 104 && b == 50) ≡ true → b ≡ 50
    tail a b both = ground (arith, both)

alpn_loop-IsSound :
    (fuel : ℕ) (bytes : List ℕ) (i : ℕ)
    → All (λ b. b < 256) bytes
    → length bytes + 256 < 2 ^ 32
    → length bytes < i + fuel
    → i ≤ length bytes
    → (r : Selected) × (alpn_loop fuel bytes i ≡ some (returns r)) × IsSound bytes r
alpn_loop-IsSound zero bytes i h small enough within = absurd (omega arith)
alpn_loop-IsSound (suc fuel) bytes i h small enough within =
    elim (Bool-cases (ltb i (length bytes))) [
      | inr over ↦ (noack, alpn_loop-end fuel bytes i (ground (arith, over)), tt)
      | inl inside ↦
          let here : i < length bytes = ground (arith, inside) in
          let (len, head, byte) = byte_at-inside bytes i h here in
          elim (Bool-cases (ltb (length bytes) (i + 1 + len))) [
            | inl cut ↦ (
              noack,
              alpn_loop-cut fuel bytes i len here (ground (arith, cut)) (omega arith) head,
              tt,
            )
            | inr fits ↦
                let room : i + 1 + len ≤ length bytes = ground (arith, fits) in
                let rest = alpn_loop-IsSound fuel bytes (i + 1 + len) h small (omega arith) room in
                elim (Bool-cases (len == 2)) [
                  | inr other ↦ (
                    rest.0,
                    alpn_loop-round fuel bytes i len false room (omega arith) head (inl other)
                        ∙ rw other rest.1,
                    rest.2,
                  )
                  | inl two ↦
                      let pair : len ≡ 2 = ground (arith, two) in
                      let (same, tail, sure) = is_h2-inside bytes (i + 1) h (omega arith) in
                      let round =
                        alpn_loop-round fuel bytes i len same room (omega arith) head (inr tail) in
                      elim (Bool-cases same) [
                        | inl it ↦ (
                          chosen (i + 1) 2,
                          round ∙ rw (two, it) refl,
                          (refl, (sure it).0, (sure it).1),
                        )
                        | inr differs ↦ (rest.0, round ∙ rw (two, differs) rest.1, rest.2)
                      ]
                ]
          ]
    ]

-- On every buffer of bytes that leaves room for one more length in an unsigned int, the callback
-- comes to its end and reads no byte outside the buffer; if it chooses a protocol, that is two
-- bytes inside the buffer that are "h2".
pub alpn_select-IsSound :
    (bytes : List ℕ)
    → All (λ b. b < 256) bytes
    → length bytes + 256 < 2 ^ 32
    → (r : Selected) × (alpn_select bytes ≡ some (returns r)) × IsSound bytes r
unfolding alpn_select
alpn_select-IsSound bytes h small =
    alpn_loop-IsSound (length bytes + 1) bytes 0 h small (omega arith) (omega arith)
