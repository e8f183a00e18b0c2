-- ===== src/Generator.antt =====
-- imsi_generator/main.cpp: `generate_random_imsi`. The numbers that the distribution draws are an argument.
mod Tests
use pgw.Base.{
  ℕ, zero, suc, ◌+◌, ◌-◌, ◌<◌, ◌≤◌, ◌≡◌, refl, arith, List, [], ◌∷◌, ◌++◌, Bool-cases, inl, inr,
  All-append, Text, codes, length, length-append, All, if◌then◌else◌, ltb, Bool, true, false,
}
use pgw.Imsi.Valid.{IsDigit, IsValid}
use pgw.Cdr.{to_string}
use pgw.Cdr.Format.{to_string-digit}

-- The loop of at most `fuel` rounds; `draws` are what `dist(rng)` yields, and 0 past their end.
unfoldable pub fill_up : ℕ → (ℕ → ℕ) → Text → Text
fill_up zero draws imsi = imsi
fill_up (suc fuel) draws imsi =
    let rest = fill_up fuel (λ i. draws (suc i)) (imsi ++ to_string (draws 0)) in
    if ltb (length imsi) 15 then rest else imsi

-- Each round adds a byte or more, so that ten rounds and the test after them are enough for what is missing after "00101".
unfoldable pub generate_random_imsi : (ℕ → ℕ) → Text
generate_random_imsi draws = fill_up 11 draws (codes "00101")

append-IsDigit :
    (imsi : Text) (n : ℕ)
    → n < 10
    → All IsDigit imsi
    → (length (imsi ++ to_string n) ≡ length imsi + 1) × All IsDigit (imsi ++ to_string n)
append-IsDigit imsi n h v = rw (to_string-digit n h) (
  length-append imsi ((48 + n) ∷ []),
  All-append IsDigit imsi ((48 + n) ∷ []) v (omega arith, tt),
)

fill_up_lem :
    (fuel : ℕ) (draws : ℕ → ℕ) (imsi : Text)
    → ((i : ℕ) → draws i < 10)
    → All IsDigit imsi
    → length imsi ≤ 15
    → 15 ≤ length imsi + fuel
    → (length (fill_up fuel draws imsi) ≡ 15) × All IsDigit (fill_up fuel draws imsi)
unfolding fill_up
fill_up_lem zero draws imsi d v short enough = (omega (arith, short, enough), v)
fill_up_lem (suc fuel) draws imsi d v short enough = elim (Bool-cases (ltb (length imsi) 15)) [
  | inl e ↦
      let longer = append-IsDigit imsi (draws 0) (d 0) v in
      let later =
        fill_up_lem fuel (λ i. draws (suc i)) (imsi ++ to_string (draws 0)) (λ i. d (suc i))
          longer.1 (ground (arith, e, longer.0)) (ground (arith, enough, longer.0)) in
      rw (e) later
  | inr e ↦ rw (e) (ground (arith, e, short), v)
]

-- As long as the draws are decimal digits, the generator ends with an IMSI of fifteen digits, which is valid.
pub generate_random_imsi-IsValid :
    (draws : ℕ → ℕ)
    → ((i : ℕ) → draws i < 10)
    → (length (generate_random_imsi draws) ≡ 15) × IsValid (generate_random_imsi draws)
unfolding generate_random_imsi
generate_random_imsi-IsValid draws d =
    let q = fill_up_lem 11 draws (codes "00101") d (omega arith) (omega arith) (omega arith) in
    (q.0, record { nonempty = omega (arith, q.0); short = omega (arith, q.0); decimal = q.1 })
