-- ===== src/Imsi/Decode.antt =====
-- utils/include/pgw_utils/imsi.h: `from_bcd` against the digits that the nibbles of a packet stand for.
use pgw.Base.{
  ℕ, ◌+◌, ◌/◌, ◌%◌, ◌<◌, ◌≤◌, ◌≡◌, refl, ◌⊎◌, inl, inr, List, [], ◌∷◌, ◌++◌, arith, length, All,
  true, false, append_assoc, append-nil, ap, sym, ◌∙◌, ◌==◌, if◌then◌else◌, Text, returns,
  terminates, ite, if_pos, if_neg, Bool-cases,
}
use pgw.Imsi.{byte_digits, decode_loop, from_bcd, max_digits}
use pgw.Imsi.Valid.{IsDigit, IsValid, IsValid-dec, make-IsValid, make-not_IsValid}
use pgw.Imsi.Bytes.{byte_digits_lem}

abbrev pub IsByte : ℕ → Type 0
IsByte b = b < 256

-- The digits of a packet: low nibble, then the high one unless it is the filler 15.
unfoldable pub decoded : List ℕ → Text
decoded [] = []
decoded (b ∷ bs) = (48 + b % 16) ∷ (if b / 16 == 15 then decoded bs else (48 + b / 16) ∷ decoded bs)

-- Both nibbles are decimal, or the high one is the filler.
abbrev pub IsNibbles : ℕ → Type 0
IsNibbles b = (b % 16 < 10) × ((b / 16 < 10) ⊎ (b / 16 ≡ 15))

abbrev pub count_digits : List ℕ → ℕ
count_digits [] = 0
count_digits (b ∷ bs) = (if b / 16 == 15 then 1 else 2) + count_digits bs

-- A datagram that codes an IMSI: decimal nibbles, one to fifteen digits.
pub record IsPacket (bytes : List ℕ) : Type 0 where
  pub nibbles : All IsNibbles bytes
  pub nonempty : 0 < count_digits bytes
  pub short : count_digits bytes ≤ max_digits

decode_loop-decoded :
    (result : Text) (bytes : List ℕ)
    → All IsByte bytes
    → decode_loop result bytes ≡ result ++ decoded bytes
unfolding decode_loop decoded
decode_loop-decoded result [] h = sym (append-nil result)
decode_loop-decoded result (b ∷ bs) h =
    decode_loop-decoded (result ++ byte_digits b) bs h.1
    ∙ append_assoc result (byte_digits b) (decoded bs)
    ∙ ap (◌++◌ result) (ground (arith, byte_digits_lem b h.0))

length-decoded : (bytes : List ℕ) → length (decoded bytes) ≡ count_digits bytes
unfolding decoded
length-decoded [] = refl
length-decoded (b ∷ bs) = ground (arith, length-decoded bs)

decoded-IsDigit : (bytes : List ℕ) → All IsNibbles bytes → All IsDigit (decoded bytes)
unfolding decoded
decoded-IsDigit [] h = tt
decoded-IsDigit (b ∷ bs) h = ground (arith, decoded-IsDigit bs h.1)

module _ (b : ℕ) (bs : List ℕ) where
  filled :
      (b / 16 == 15) ≡ true
      → (All IsDigit (decoded bs) → All IsNibbles bs)
      → All IsDigit (decoded (b ∷ bs))
      → All IsNibbles (b ∷ bs)
  unfolding decoded
  filled e rec h = ground (arith, rec (ground arith))

  full :
      (b / 16 == 15) ≡ false
      → (All IsDigit (decoded bs) → All IsNibbles bs)
      → All IsDigit (decoded (b ∷ bs))
      → All IsNibbles (b ∷ bs)
  unfolding decoded
  full e rec h = ground (arith, rec (ground arith))

IsDigit-IsNibbles : (bytes : List ℕ) → All IsDigit (decoded bytes) → All IsNibbles bytes
unfolding decoded
IsDigit-IsNibbles [] h = tt
IsDigit-IsNibbles (b ∷ bs) h = elim (Bool-cases (b / 16 == 15)) [
  | inl e ↦ filled b bs e (IsDigit-IsNibbles bs) h
  | inr e ↦ full b bs e (IsDigit-IsNibbles bs) h
]

pub IsPacket-IsValid : (bytes : List ℕ) → IsPacket bytes → IsValid (decoded bytes)
IsPacket-IsValid bytes p = record {
  nonempty = omega (arith, length-decoded bytes);
  short = omega (arith, length-decoded bytes);
  decimal = decoded-IsDigit bytes p.nibbles;
}

pub IsValid-IsPacket : (bytes : List ℕ) → IsValid (decoded bytes) → IsPacket bytes
IsValid-IsPacket bytes v = record {
  nibbles = IsDigit-IsNibbles bytes v.decimal;
  nonempty = omega (arith, length-decoded bytes);
  short = omega (arith, length-decoded bytes);
}

pub IsPacket-dec : (bytes : List ℕ) → Dec (IsPacket bytes)
IsPacket-dec bytes = elim (IsValid-dec (decoded bytes)) [
  | yes v ↦ yes (IsValid-IsPacket bytes v)
  | no n ↦ no (λ p. n (IsPacket-IsValid bytes p))
]

pub from_bcd-IsPacket :
    (bytes : List ℕ)
    → All IsByte bytes
    → IsPacket bytes
    → from_bcd bytes ≡ returns (record { digits = decoded bytes })
unfolding from_bcd
from_bcd-IsPacket bytes h p =
    rw (decode_loop-decoded [] bytes h, make-IsValid _ (IsPacket-IsValid bytes p))

pub from_bcd-not_IsPacket :
    (bytes : List ℕ) → All IsByte bytes → ¬ IsPacket bytes → from_bcd bytes ≡ terminates
unfolding from_bcd
from_bcd-not_IsPacket bytes h n =
    rw (decode_loop-decoded [] bytes h, make-not_IsValid _ (λ v. n (IsValid-IsPacket bytes v)))

-- A packet of an IMSI is decoded to its digits; at any other packet the `noexcept` function lets an
-- exception out, and the process ends. The packet consists of bytes.
pub from_bcd_lem :
    (bytes : List ℕ)
    → All IsByte bytes
    → from_bcd bytes
      ≡ ite (IsPacket-dec bytes) (returns (record { digits = decoded bytes })) terminates
from_bcd_lem bytes h = elim (IsPacket-dec bytes) [
  | yes p ↦ rw (if_pos _ p) (from_bcd-IsPacket bytes h p)
  | no n ↦ rw (if_neg _ n) (from_bcd-not_IsPacket bytes h n)
]
