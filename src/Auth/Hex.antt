-- ===== src/Auth/Hex.antt =====
-- The printing of bytes, `hex_encode` of crates/qaas-core/src/auth.rs, can be read back.
use queue_as_a_service.Base.{
  ℕ, ◌+◌, ◌-◌, ◌*◌, ◌/◌, ◌%◌, ◌<◌, ◌≡◌, refl, ap, arith, List, [], ◌∷◌, All, ltb, if◌then◌else◌,
  length,
}
use queue_as_a_service.Types.{Text}
use queue_as_a_service.Auth.{hex_digit, hex_encode}

-- The value of a lower-case digit.
pub digit_value : ℕ → ℕ
digit_value c = if ltb c 97 then c - 48 else c - 87

-- The bytes that pairs of digits stand for, an independent reading of the text.
abbrev pub hex_decode : Text → List ℕ
hex_decode (a ∷ b ∷ rest) = (digit_value a * 16 + digit_value b) ∷ hex_decode rest
hex_decode _ = []

digit_value-hex_digit : (d : ℕ) → d < 16 → digit_value (hex_digit d) ≡ d
unfolding digit_value hex_digit
digit_value-hex_digit d h = ground (arith, h)

-- Bytes that are printed are read back, and each takes two characters.
pub hex_decode-hex_encode :
    (bytes : List ℕ)
    → All (λ b. b < 256) bytes
    → (hex_decode (hex_encode bytes) ≡ bytes) × (length (hex_encode bytes) ≡ 2 * length bytes)
unfolding hex_encode
hex_decode-hex_encode [] _ = (refl, refl)
hex_decode-hex_encode (b ∷ bs) (h, hs) =
    let (back, long) = hex_decode-hex_encode bs hs in
    (
      rw
          (
            digit_value-hex_digit (b / 16) (omega (arith, h)),
            digit_value-hex_digit (b % 16) (omega arith),
            back,
          )
          (ap (λ x. x ∷ bs) (omega arith)),
      omega (arith, long),
    )
