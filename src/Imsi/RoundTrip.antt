-- ===== src/Imsi/RoundTrip.antt =====
-- utils/include/pgw_utils/imsi.h: `to_bcd` and `from_bcd` undo one another.
use pgw.Base.{
  ℕ, ◌/◌, ◌%◌, ◌<◌, ◌≡◌, refl, ◌↔◌, List, [], ◌∷◌, arith, All, subst, ◌∙◌, Text, returns,
}
use pgw.Imsi.{from_bcd, to_bcd, digit_value}
use pgw.Imsi.Valid.{IsDigit, IsValid}
use pgw.Imsi.Bytes.{pack_lem, digit_value_lem, pack_digits, digit_value-digit}
use pgw.Imsi.Encode.{pairs, to_bcd-pairs}
use pgw.Imsi.Decode.{
  IsPacket-IsValid, IsPacket, from_bcd-IsPacket, IsValid-IsPacket, IsByte, decoded, IsNibbles,
}

pub pairs-IsByte : (s : Text) → All IsDigit s → All IsByte (pairs s)
unfolding pairs
pairs-IsByte [] h = tt
pairs-IsByte (a ∷ []) h =
    omega (arith, digit_value_lem a h.0, pack_lem 0xF (digit_value a) (omega arith))
pairs-IsByte (a ∷ b ∷ s) h = (omega (arith, pack_digits a b h.0 h.1.0), pairs-IsByte s h.1.1)

pub decoded-pairs : (s : Text) → All IsDigit s → decoded (pairs s) ≡ s
unfolding pairs decoded
decoded-pairs [] h = refl
decoded-pairs (a ∷ []) h = ground (arith, digit_value_lem a h.0, pack_lem 0xF (digit_value a))
decoded-pairs (a ∷ b ∷ s) h = ground (
  arith,
  digit_value_lem a h.0,
  digit_value_lem b h.1.0,
  pack_lem (digit_value b) (digit_value a),
  decoded-pairs s h.1.1,
)

-- What `to_bcd` writes for a valid IMSI are bytes, and `from_bcd` reads the IMSI back from them.
pub from_bcd-to_bcd :
    (s : Text)
    → IsValid s
    → (from_bcd (to_bcd (record { digits = s })) ≡ returns (record { digits = s }))
      × All IsByte (to_bcd (record { digits = s }))
from_bcd-to_bcd s v =
    let back = decoded-pairs s v.decimal in
    let bytes = pairs-IsByte s v.decimal in
    rw (to_bcd-pairs s)
      (from_bcd-IsPacket (pairs s) bytes (IsValid-IsPacket _ (rw back v)) ∙ rw back, bytes)

-- The filler stands at most in the last byte.
abbrev pub IsPadded : List ℕ → Type 0
IsPadded [] = Unit
IsPadded (b ∷ []) = Unit
IsPadded (b ∷ c ∷ bs) = (b / 16 < 10) × IsPadded (c ∷ bs)

pub pairs-IsPadded : (s : Text) → All IsDigit s → IsPadded (pairs s)
unfolding pairs
pairs-IsPadded [] h = tt
pairs-IsPadded (a ∷ []) h = tt
pairs-IsPadded (a ∷ b ∷ []) h = tt
pairs-IsPadded (a ∷ b ∷ c ∷ []) h = ((pack_digits a b h.0 h.1.0).1, tt)
pairs-IsPadded (a ∷ b ∷ c ∷ d ∷ s) h =
    ((pack_digits a b h.0 h.1.0).1, pairs-IsPadded (c ∷ d ∷ s) h.1.1)

pub pairs-decoded :
    (bytes : List ℕ)
    → All IsByte bytes
    → All IsNibbles bytes
    → IsPadded bytes
    → pairs (decoded bytes) ≡ bytes
unfolding pairs decoded
pairs-decoded [] h n p = refl
pairs-decoded (b ∷ []) h n p = ground (
  arith,
  digit_value-digit (b % 16),
  digit_value-digit (b / 16),
  pack_lem (b / 16) (b % 16),
  pack_lem 0xF (b % 16),
)
pairs-decoded (b ∷ c ∷ bs) h n p = ground (
  arith,
  digit_value-digit (b % 16),
  digit_value-digit (b / 16),
  pack_lem (b / 16) (b % 16),
  pairs-decoded (c ∷ bs) h.1 n.1 p.1,
)

-- A packet of an IMSI is the one that `to_bcd` writes for that IMSI exactly if it has no filler before
-- its last byte.
pub to_bcd-decoded :
    (bytes : List ℕ)
    → All IsByte bytes
    → IsPacket bytes
    → (to_bcd (record { digits = decoded bytes }) ≡ bytes) ↔ IsPadded bytes
to_bcd-decoded bytes h packet = rw (to_bcd-pairs (decoded bytes)) (
  (λ e. subst IsPadded e (pairs-IsPadded _ (IsPacket-IsValid bytes packet).decimal)),
  pairs-decoded bytes h packet.nibbles,
)
