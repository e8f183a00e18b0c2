-- ===== src/Imsi/Valid.antt =====
-- utils/include/pgw_utils/imsi.h: which texts the IMSI constructor accepts.
use pgw.Base.{
  ℕ, ◌+◌, ◌≤◌, ◌<◌, ◌≡◌, refl, true, false, ◌||◌, none, [], ◌∷◌, arith, ltb, length, All, is_empty,
  Text, codes, returns, throws, Bool-cases, Option-cases, ◌⊎◌, inl, inr,
}
use pgw.Imsi.{make, contains, find_first_not_of, max_digits}

abbrev pub IsDigit : ℕ → Type 0
IsDigit c = (b'0' ≤ c) × (c ≤ b'9')

-- One to fifteen decimal digits.
pub record IsValid (s : Text) : Type 0 where
  pub nonempty : 0 < length s
  pub short : length s ≤ max_digits
  pub decimal : All IsDigit s

contains-digit : (c : ℕ) → IsDigit c → contains (codes "1234567890") c ≡ true
unfolding contains
contains-digit c d = ground arith

IsDigit-contains : (c : ℕ) → contains (codes "1234567890") c ≡ true → IsDigit c
unfolding contains
IsDigit-contains c h = ground arith

-- The search for another byte fails exactly on a text of digits.
find-none : (i : ℕ) (s : Text) → find_first_not_of i (codes "1234567890") s ≡ none → All IsDigit s
unfolding find_first_not_of
find-none i [] h = tt
find-none i (c ∷ s) h = elim (Bool-cases (contains (codes "1234567890") c)) [
  | inl d ↦ (IsDigit-contains c d, find-none (i + 1) s (rw (d, find_first_not_of) at h))
  | inr d ↦ ground arith
]

none-find : (i : ℕ) (s : Text) → All IsDigit s → find_first_not_of i (codes "1234567890") s ≡ none
unfolding find_first_not_of
none-find i [] h = refl
none-find i (c ∷ s) h = rw (contains-digit c h.0, find_first_not_of) (none-find (i + 1) s h.1)

-- On a valid text the constructor returns, and `str()` is the text.
pub make-IsValid : (s : Text) → IsValid s → make s ≡ returns (record { digits = s })
unfolding make
make-IsValid s v = ground (arith, none-find 0 s v.decimal)

-- A text that the constructor does not refuse is valid.
make-cases : (s : Text) → (make s ≡ throws (codes "Invalid IMSI string")) ⊎ IsValid s
unfolding make
make-cases s = elim (Option-cases (find_first_not_of 0 (codes "1234567890") s)) [
  | inl e ↦ elim (Bool-cases (is_empty s || ltb max_digits (length s))) [
    | inl refused ↦ inl (ground arith)
    | inr passed ↦ inr (record {
      nonempty = nonempty s (ground arith);
      short = ground arith;
      decimal = find-none 0 s e;
    })
  ]
  | inr (i, e) ↦ inl (ground arith)
]
  where
    nonempty : (t : Text) → is_empty t ≡ false → 0 < length t
    nonempty [] h = cc
    nonempty (c ∷ cs) h = omega arith

-- On any other text it throws.
pub make-not_IsValid : (s : Text) → ¬ IsValid s → make s ≡ throws (codes "Invalid IMSI string")
make-not_IsValid s n = elim (make-cases s) [ inl e ↦ e | inr v ↦ absurd (n v) ]

pub IsValid-dec : (s : Text) → Dec (IsValid s)
IsValid-dec s = elim (make-cases s) [
  | inl e ↦ no (λ v. ground (arith, make-IsValid s v))
  | inr v ↦ yes v
]
