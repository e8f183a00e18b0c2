-- ===== src/Imsi/Encode.antt =====
-- utils/include/pgw_utils/imsi.h: the index loop of `to_bcd` against a recursion over the text.
use pgw.Base.{
  ℕ, zero, suc, ◌+◌, ◌*◌, ◌/◌, ◌<◌, ◌≡◌, refl, true, List, [], ◌∷◌, ◌++◌, arith, length,
  length-append, append_assoc, get_or-append_add, get_or-append_length, set-append_length,
  replicate, Text, ltb,
}
use pgw.Imsi.{pack, digit_value, encode_loop, to_bcd}

-- BCD of a text by pairs of digits: low nibble first, an odd last digit under the filler 0xF.
unfoldable pub pairs : Text → List ℕ
pairs [] = []
pairs (a ∷ []) = pack 0xF (digit_value a) ∷ []
pairs (a ∷ b ∷ rest) = pack (digit_value b) (digit_value a) ∷ pairs rest

ltb-two : (pre rest : Text) (a b : ℕ) → ltb (length pre + 1) (length (pre ++ a ∷ b ∷ rest)) ≡ true
ltb-two pre rest a b = ground (arith, length-append pre (a ∷ b ∷ rest))

encode_loop-pairs :
    (fuel : ℕ) (pre rest : Text) (out : List ℕ)
    → length pre ≡ length out * 2
    → length rest < fuel
    → encode_loop fuel (pre ++ rest) (length pre) (out ++ replicate ((length rest + 1) / 2) 0)
      ≡ out ++ pairs rest
unfolding encode_loop pairs
encode_loop-pairs zero pre rest out e h = absurd (omega arith)
encode_loop-pairs (suc fuel) pre [] out e h = ground (arith, length-append pre [])
encode_loop-pairs (suc fuel) pre (a ∷ []) out e h =
    let half : length pre / 2 ≡ length out = omega arith in
    ground (
      arith,
      half,
      length-append pre (a ∷ []),
      get_or-append_length pre [] a 0,
      set-append_length out [] 0 (pack 0xF (digit_value a)),
    )
encode_loop-pairs (suc fuel) pre (a ∷ b ∷ rest) out e h =
    let v = pack (digit_value b) (digit_value a) in
    let half : length pre / 2 ≡ length out = omega arith in
    let more : (length (a ∷ b ∷ rest) + 1) / 2 ≡ suc ((length rest + 1) / 2) = omega arith in
    let grown : length (pre ++ a ∷ b ∷ []) ≡ length pre + 2 =
      omega (arith, length-append pre (a ∷ b ∷ [])) in
    let ih =
      encode_loop-pairs fuel (pre ++ a ∷ b ∷ []) rest (out ++ v ∷ [])
        (omega (arith, grown, length-append out (v ∷ []))) (omega arith) in
    let first = get_or-append_length pre (b ∷ rest) a 0 in
    let second = get_or-append_add pre (a ∷ b ∷ rest) 1 0 in
    rw
      (
        more,
        half,
        first,
        second,
        set-append_length out (replicate ((length rest + 1) / 2) 0) 0 v,
        ltb-two pre rest a b,
      )
      (rw
        (
          grown,
          append_assoc pre (a ∷ b ∷ []) rest,
          append_assoc out (v ∷ []) (pairs rest),
          append_assoc out (v ∷ []) (replicate ((length rest + 1) / 2) 0),
        )
        at ih)

-- The loop ends with its fuel left, and computes the pairs.
pub to_bcd-pairs : (s : Text) → to_bcd (record { digits = s }) ≡ pairs s
unfolding to_bcd
to_bcd-pairs s = encode_loop-pairs (length s + 1) [] s [] refl (omega arith)

length-pairs : (s : Text) → length (pairs s) ≡ (length s + 1) / 2
unfolding pairs
length-pairs [] = refl
length-pairs (c ∷ []) = refl
length-pairs (c ∷ d ∷ s) = omega (arith, length-pairs s)

-- Two digits to a byte, the last alone if it must be.
pub length-to_bcd : (s : Text) → length (to_bcd (record { digits = s })) ≡ (length s + 1) / 2
length-to_bcd s = rw (to_bcd-pairs s) (length-pairs s)
