-- ===== src/Imsi/Tests.antt =====
-- utils/include/pgw_utils/imsi.h and tests/imsi_test.cpp: runs of the coding, and the theorems at inputs.
use pgw.Base.{ℕ, ◌≡◌, refl, List, [], ◌∷◌, Text, codes, returns, throws, terminates, arith, All}
use pgw.Imsi.{make, to_bcd, from_bcd}
use pgw.Imsi.Valid.{IsValid, make-IsValid}
use pgw.Imsi.Decode.{IsByte}
use pgw.Imsi.RoundTrip.{from_bcd-to_bcd}

abbrev odd_imsi : Text
odd_imsi = codes "12345"

-- tests/imsi_test.cpp, OddLengthEncoding.
odd_length_encoding : to_bcd (record { digits = odd_imsi }) ≡ 0x21 ∷ 0x43 ∷ 0xF5 ∷ []
unfolding to_bcd
odd_length_encoding = refl

-- The example of README.md.
readme_encoding :
    to_bcd (record { digits = codes "123456789012345" })
    ≡ 0x21 ∷ 0x43 ∷ 0x65 ∷ 0x87 ∷ 0x09 ∷ 0x21 ∷ 0x43 ∷ 0xF5 ∷ []
unfolding to_bcd
readme_encoding = refl

too_long : make (codes "1234567890123456") ≡ throws (codes "Invalid IMSI string")
unfolding make
too_long = refl

odd_imsi-IsValid : IsValid odd_imsi
odd_imsi-IsValid = omega arith

-- An empty datagram decodes to the empty text.
empty_datagram : from_bcd [] ≡ terminates
unfolding from_bcd make
empty_datagram = refl

make-odd_imsi : make odd_imsi ≡ returns (record { digits = odd_imsi })
make-odd_imsi = make-IsValid odd_imsi odd_imsi-IsValid

from_bcd-to_bcd_example :
    (from_bcd (to_bcd (record { digits = odd_imsi })) ≡ returns (record { digits = odd_imsi }))
    × All IsByte (to_bcd (record { digits = odd_imsi }))
from_bcd-to_bcd_example = from_bcd-to_bcd odd_imsi odd_imsi-IsValid

-- A filler in the first byte: "12" in two bytes, where one would do.
abbrev filled : List ℕ
filled = 0xF1 ∷ 0xF2 ∷ []

from_bcd-filled : from_bcd filled ≡ returns (record { digits = codes "12" })
unfolding from_bcd make
from_bcd-filled = refl
