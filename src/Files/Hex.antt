-- ===== src/Files/Hex.antt =====
-- The hash string determines the hash.
use tapi2p.Base.{
  ℕ, ◌+◌, ◌-◌, ◌*◌, ◌/◌, ◌%◌, ◌<◌, ◌≡◌, refl, ap, ap₂, ◌∙◌, List, [], ◌∷◌, ltb, if◌then◌else◌,
  length, take_all, arith,
}
use tapi2p.Files.{sha_digest_length, hex_digit, hex_bytes, sha_to_str}

-- Every element is a byte.
abbrev pub Bytes : List ℕ → Type 0
Bytes [] = Unit {0}
Bytes (b ∷ bs) = (b < 256) × Bytes bs

-- A reader of the string, by the digits' values.
abbrev pub digit_value : ℕ → ℕ
digit_value c = if ltb c b'a' then c - b'0' else c - b'a' + 10

abbrev pub of_hex : List ℕ → List ℕ
of_hex [] = []
of_hex (a ∷ []) = []
of_hex (a ∷ b ∷ cs) = (16 * digit_value a + digit_value b) ∷ of_hex cs

digit_value-hex_digit : (n : ℕ) → n < 16 → digit_value (hex_digit n) ≡ n
digit_value-hex_digit n h = ground arith

byte-digits :
    (b : ℕ) → b < 256 → 16 * digit_value (hex_digit (b / 16)) + digit_value (hex_digit (b % 16)) ≡ b
byte-digits b h =
    ap₂ (λ (x y : ℕ). 16 * x + y) (digit_value-hex_digit (b / 16) (omega arith))
      (digit_value-hex_digit (b % 16) (omega arith))
    ∙ omega arith

of_hex-hex_bytes : (bs : List ℕ) → Bytes bs → of_hex (hex_bytes bs) ≡ bs
unfolding hex_bytes
of_hex-hex_bytes [] h = refl
of_hex-hex_bytes (b ∷ bs) h = ap₂ ◌∷◌ (byte-digits b h.0) (of_hex-hex_bytes bs h.1)

length-hex_bytes : (bs : List ℕ) → length (hex_bytes bs) ≡ 2 * length bs
unfolding hex_bytes
length-hex_bytes [] = refl
length-hex_bytes (b ∷ bs) = omega (arith, length-hex_bytes bs)

-- The string of a hash of SHA_DIGEST_LENGTH bytes has two digits for each byte, and reads back as
-- the hash.
pub of_hex-sha_to_str :
    (sha : List ℕ)
    → Bytes sha
    → length sha ≡ sha_digest_length
    → (of_hex (sha_to_str sha) ≡ sha) × (length (sha_to_str sha) ≡ 40)
unfolding sha_to_str
of_hex-sha_to_str sha h l = (
  ap (λ (t : List ℕ). of_hex (hex_bytes t)) (take_all sha sha_digest_length l)
      ∙ of_hex-hex_bytes sha h,
  ap (λ (t : List ℕ). length (hex_bytes t)) (take_all sha sha_digest_length l)
      ∙ omega (arith, length-hex_bytes sha),
)
