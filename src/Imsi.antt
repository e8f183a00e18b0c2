-- ===== src/Imsi.antt =====
-- utils/include/pgw_utils/imsi.h: the IMSI class, its check, and its BCD coding.
-- A byte is a number below 256; `uint8_t` arithmetic keeps its `% 256`.
pub mod Valid
pub mod Bytes
pub mod Encode
pub mod Decode
pub mod RoundTrip
pub mod Packets
mod Tests
use pgw.Base.{
  ℕ, zero, suc, ◌+◌, ◌-◌, ◌*◌, ◌/◌, ◌%◌, bit_and, bit_or, Bool, true, false, ◌||◌, Option, none,
  some, List, [], ◌∷◌, ◌++◌, ltb, ◌==◌, if◌then◌else◌, length, get_or, set, replicate, Text,
  is_empty, codes, Outcome, returns, throws, terminates, no_except,
}

abbrev pub max_digits : ℕ
max_digits = 15

pub record Imsi : Type 0 where
  pub digits : Text

-- `std::string::find_first_not_of`: the position of the first byte that is not in `set`.
contains : Text → ℕ → Bool
contains [] c = false
contains (d ∷ ds) c = (d == c) || contains ds c

find_first_not_of : ℕ → Text → Text → Option ℕ
find_first_not_of i allowed [] = none
find_first_not_of i allowed (c ∷ cs) =
    let rest = find_first_not_of (i + 1) allowed cs in if contains allowed c then rest else some i

is_some : Option ℕ → Bool
is_some none = false
is_some (some i) = true

-- The constructor: it throws `std::invalid_argument`, or stores the text.
unfoldable pub make : Text → Outcome Imsi
unfolding contains find_first_not_of is_empty is_some
make s =
    if is_empty s
      || ltb max_digits (length s)
      || is_some (find_first_not_of 0 (codes "1234567890") s)
    then throws (codes "Invalid IMSI string")
    else returns (record { digits = s })

-- `uint8_t d = c - '0'`.
unfoldable pub digit_value : ℕ → ℕ
digit_value c = (c + 256 - b'0') % 256

-- `bcd[i / 2] = (second << 4) | first`, a byte.
unfoldable pub pack : ℕ → ℕ → ℕ
pack second first = bit_or (second * 16) first % 256

-- The loop of `to_bcd` and the odd digit after it, with a round of fuel for each digit.
encode_loop : ℕ → Text → ℕ → List ℕ → List ℕ
encode_loop zero digits i bcd = bcd
encode_loop (suc fuel) digits i bcd =
    let first = digit_value (get_or digits i 0) in
    let second = digit_value (get_or digits (i + 1) 0) in
    let next = encode_loop fuel digits (i + 2) (set bcd (i / 2) (pack second first)) in
    if ltb (i + 1) (length digits)
    then next
    else if ltb i (length digits)
    then set bcd (i / 2) (pack 0xF first)
    else bcd

unfoldable pub to_bcd : Imsi → List ℕ
unfolding encode_loop digit_value pack
to_bcd imsi =
    let size = length imsi.digits in
    encode_loop (size + 1) imsi.digits 0 (replicate ((size + 1) / 2) 0)

-- What one byte appends to the text of `from_bcd`.
unfoldable pub byte_digits : ℕ → Text
byte_digits b =
    let second = bit_and b 0x0F in
    let first = bit_and (b / 16) 0x0F in
    (b'0' + second) ∷ (if first == 0xF then [] else (b'0' + first) ∷ [])

decode_loop : Text → List ℕ → Text
decode_loop result [] = result
decode_loop result (b ∷ bs) = decode_loop (result ++ byte_digits b) bs

-- `from_bcd` is `noexcept`, and its last line calls the constructor, which may throw.
unfoldable pub from_bcd : List ℕ → Outcome Imsi
unfolding decode_loop byte_digits
from_bcd bytes = no_except (make (decode_loop [] bytes))
