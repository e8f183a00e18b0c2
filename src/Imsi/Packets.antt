-- ===== src/Imsi/Packets.antt =====
-- utils/include/pgw_utils/imsi.h: the types that `to_bcd` and `from_bcd` connect.
use pgw.Base.{
  subst, ℕ, ◌≡◌, refl, sym, ap, ◌∙◌, ◌⊎◌, inl, inr, List, [], ◌∷◌, All, Text, returns, arith, ◌<◌,
  ◌/◌,
}
use pgw.Imsi.{from_bcd, to_bcd}
use pgw.Imsi.Valid.{IsDigit, IsValid}
use pgw.Imsi.Encode.{pairs, to_bcd-pairs}
use pgw.Imsi.Decode.{
  IsByte, IsNibbles, IsPacket, decoded, from_bcd-IsPacket, IsPacket-IsValid, IsValid-IsPacket,
}
use pgw.Imsi.RoundTrip.{IsPadded, pairs-IsByte, pairs-IsPadded, pairs-decoded, decoded-pairs}
use mathlib.Core.HLevel.{Σ_prop_path}
use native.Mathlib.Bridge.{le_prop}
use native.Mathlib.Nat.{ℕ_set}
use std.Path.{transport, transport⁻¹}
use std.Equiv.{Iso, iso_to_equiv}
use std.Univalence.{ua, ua-β, ua-β⁻¹}

-- Bytes that code an IMSI with no filler before the last of them.
pub record IsNormal (bytes : List ℕ) : Type 0 where
  pub all_bytes : All IsByte bytes
  pub packet : IsPacket bytes
  pub padded : IsPadded bytes

abbrev pub Subscriber : Type 0
Subscriber = (s : Text) × IsValid s

abbrev pub Packet : Type 0
Packet = (bytes : List ℕ) × IsNormal bytes

All_prop {ℓ κ} :
    {A : Type ℓ} (P : A → Type κ) → ((x : A) → IsProp (P x)) → (xs : List A) → IsProp (All P xs)
All_prop P h [] u v = refl
All_prop P h (x ∷ xs) u v = λ i. (h x u.0 v.0 i, All_prop P h xs u.1 v.1 i)

IsDigit-prop : (c : ℕ) → IsProp (IsDigit c)
IsDigit-prop c u v = λ i. (le_prop u.0 v.0 i, le_prop u.1 v.1 i)

IsValid-prop : (s : Text) → IsProp (IsValid s)
IsValid-prop s u v = λ i. record {
  nonempty = le_prop u.nonempty v.nonempty i;
  short = le_prop u.short v.short i;
  decimal = All_prop IsDigit IsDigit-prop s u.decimal v.decimal i;
}

high_prop : (h : ℕ) → IsProp ((h < 10) ⊎ (h ≡ 15))
high_prop h (inl p) (inl q) = λ i. inl (le_prop p q i)
high_prop h (inl p) (inr q) = absurd (omega (arith, p, q))
high_prop h (inr p) (inl q) = absurd (omega (arith, p, q))
high_prop h (inr p) (inr q) = λ i. inr (ℕ_set h 15 p q i)

IsNibbles-prop : (b : ℕ) → IsProp (IsNibbles b)
IsNibbles-prop b u v = λ i. (le_prop u.0 v.0 i, high_prop (b / 16) u.1 v.1 i)

IsPacket-prop : (bytes : List ℕ) → IsProp (IsPacket bytes)
IsPacket-prop bytes u v = λ i. record {
  nibbles = All_prop IsNibbles IsNibbles-prop bytes u.nibbles v.nibbles i;
  nonempty = le_prop u.nonempty v.nonempty i;
  short = le_prop u.short v.short i;
}

IsPadded-prop : (bytes : List ℕ) → IsProp (IsPadded bytes)
IsPadded-prop [] u v = refl
IsPadded-prop (b ∷ []) u v = refl
IsPadded-prop (b ∷ c ∷ bs) u v = λ i. (le_prop u.0 v.0 i, IsPadded-prop (c ∷ bs) u.1 v.1 i)

IsNormal-prop : (bytes : List ℕ) → IsProp (IsNormal bytes)
IsNormal-prop bytes u v = λ i. record {
  all_bytes = All_prop IsByte (λ b. le_prop) bytes u.all_bytes v.all_bytes i;
  packet = IsPacket-prop bytes u.packet v.packet i;
  padded = IsPadded-prop bytes u.padded v.padded i;
}

encode : Subscriber → Packet
encode (s, v) = (
  pairs s,
  record {
    all_bytes = pairs-IsByte s v.decimal;
    packet = IsValid-IsPacket (pairs s) (subst IsValid (sym (decoded-pairs s v.decimal)) v);
    padded = pairs-IsPadded s v.decimal;
  },
)

decode : Packet → Subscriber
decode (bytes, n) = (decoded bytes, IsPacket-IsValid bytes n.packet)

codec : Iso Subscriber Packet
unfolding encode decode
codec = record {
  fun = encode;
  inv = decode;
  rinv = λ b.
      Σ_prop_path IsNormal-prop (pairs-decoded b.0 b.1.all_bytes b.1.packet.nibbles b.1.padded);
  linv = λ s. Σ_prop_path IsValid-prop (decoded-pairs s.0 s.1.decimal);
}

-- The valid IMSIs and the packets in normal form are one type: `to_bcd` goes one way along the path between them,
-- and `from_bcd` the other.
pub Subscriber-Packet :
    (p : Subscriber ≡ Packet) × ((s : Subscriber)
      → (transport p s).0 ≡ to_bcd (record { digits = s.0 }))
    × ((b : Packet) → from_bcd b.0 ≡ returns (record { digits = (transport⁻¹ p b).0 }))
unfolding encode decode codec
Subscriber-Packet = (
  ua (iso_to_equiv codec),
  (λ s. ap (λ b. b.0) (ua-β (iso_to_equiv codec) s) ∙ sym (to_bcd-pairs s.0)),
  (λ b.
      from_bcd-IsPacket b.0 b.1.all_bytes b.1.packet
      ∙ ap (λ s. returns (record { digits = s.0 })) (sym (ua-β⁻¹ (iso_to_equiv codec) b))),
)
