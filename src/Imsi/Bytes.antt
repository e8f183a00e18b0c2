-- ===== src/Imsi/Bytes.antt =====
-- utils/include/pgw_utils/imsi.h: the two nibbles of a byte, and the digits that they stand for.
use pgw.Base.{
  ℕ, ◌+◌, ◌*◌, ◌/◌, ◌%◌, ◌<◌, ◌≡◌, refl, true, bit_and, [], ◌∷◌, arith, ==_iff, ◌==◌, if◌then◌else◌,
  passes, passes_lem, Bool, ◌-◌,
}
use pgw.Imsi.{pack, byte_digits, digit_value}
use pgw.Imsi.Valid.{IsDigit}

low_nibbles : passes (λ b. bit_and b 0x0F == b % 16) 256 ≡ true
unfolding passes
low_nibbles = refl

bit_and-low : (b : ℕ) → b < 256 → bit_and b 0x0F ≡ b % 16
bit_and-low b h = (==_iff _ (b % 16)).0 (passes_lem _ 256 low_nibbles b h)

-- Whether a high nibble packs with every low one.
abbrev packs : ℕ → Bool
packs second = passes (λ first. pack second first == second * 16 + first) 16

packs_all : passes packs 16 ≡ true
unfolding passes pack
packs_all = refl

-- Two nibbles side by side.
pub pack_lem :
    (second first : ℕ) → second < 16 → first < 16 → pack second first ≡ second * 16 + first
pack_lem second first hs hf =
    (==_iff _ (second * 16 + first)).0
      (passes_lem _ 16 (passes_lem packs 16 packs_all second hs) first hf)

-- The low nibble gives the first digit; the high one the second, unless it is the filler.
pub byte_digits_lem :
    (b : ℕ)
    → b < 256
    → byte_digits b ≡ (48 + b % 16) ∷ (if b / 16 == 15 then [] else (48 + b / 16) ∷ [])
unfolding byte_digits
byte_digits_lem b h = ground (arith, bit_and-low b h, bit_and-low (b / 16) (omega arith))

pub digit_value_lem :
    (c : ℕ) → IsDigit c → (digit_value c ≡ c - 48) × (48 + digit_value c ≡ c) × (digit_value c < 10)
unfolding digit_value
digit_value_lem c d = omega arith

-- A byte that holds two decimal digits.
pub pack_digits :
    (a b : ℕ)
    → IsDigit a
    → IsDigit b
    → (pack (digit_value b) (digit_value a) < 160)
      × (pack (digit_value b) (digit_value a) / 16 < 10)
pack_digits a b da db = omega (
  arith,
  digit_value_lem a da,
  digit_value_lem b db,
  pack_lem (digit_value b) (digit_value a) (omega (arith, digit_value_lem b db))
      (omega (arith, digit_value_lem a da)),
)

pub digit_value-digit : (d : ℕ) → d < 16 → digit_value (48 + d) ≡ d
unfolding digit_value
digit_value-digit d h = omega arith
