-- ===== src/Cdr/Format.antt =====
-- src/cdr_writer.cpp: what can be read back from a line of the CDR file.
use pgw.Base.{
  ℕ, suc, ◌+◌, ◌/◌, ◌%◌, ◌<◌, ◌≤◌, ◌≡◌, ◌≢◌, refl, ◌==◌, List, [], ◌∷◌, ◌++◌, Text, codes,
  if◌then◌else◌, arith, All,
}
use pgw.Imsi.Valid.{IsDigit, IsValid}
use pgw.Sessions.State.{SessionAction, created}
use pgw.Cdr.{
  digits_of, action_to_string, milliseconds_text, to_string, Calendar, format_timestamp,
  format_record,
}

-- Three digits that stand for the number.
abbrev pub IsThreeDigits : ℕ → Text → Type 0
IsThreeDigits n t = t ≡ (b'0' + n / 100) ∷ (b'0' + n / 10 % 10) ∷ (b'0' + n % 10) ∷ []

digits_of-one : (fuel n : ℕ) → n < 10 → digits_of (suc fuel) n ≡ (b'0' + n % 10) ∷ []
unfolding digits_of
digits_of-one fuel n h = ground arith

digits_of-more :
    (fuel n : ℕ) → 10 ≤ n → digits_of (suc fuel) n ≡ digits_of fuel (n / 10) ++ (b'0' + n % 10) ∷ []
unfolding digits_of
digits_of-more fuel n h = ground arith

to_string-digits_of : (n : ℕ) → to_string n ≡ digits_of 19 n
unfolding to_string
to_string-digits_of n = refl

pub to_string-digit : (n : ℕ) → n < 10 → to_string n ≡ (b'0' + n) ∷ []
to_string-digit n h = ground (arith, to_string-digits_of n, digits_of-one 18 n)

-- The milliseconds are always written with three digits.
pub milliseconds_text_lem : (n : ℕ) → n < 1000 → IsThreeDigits n (milliseconds_text n)
unfolding milliseconds_text
milliseconds_text_lem n h = ground (
  arith,
  to_string-digits_of n,
  digits_of-one 18 n,
  digits_of-more 18 n,
  digits_of-one 17 (n / 10),
  digits_of-more 17 (n / 10),
  digits_of-one 16 (n / 10 / 10),
)

-- The text before the first comma grows by a byte.
extend : ℕ → List Text → List Text
extend c [] = (c ∷ []) ∷ []
extend c (f ∷ fs) = (c ∷ f) ∷ fs

-- Cuts a text at its commas.
unfoldable pub fields : Text → List Text
unfolding extend
fields [] = [] ∷ []
fields (c ∷ cs) = let rest = fields cs in if c == b',' then [] ∷ rest else extend c rest

abbrev pub HasNoComma : Text → Type 0
HasNoComma = All (λ c. c ≢ b',')

fields-comma : (t r : Text) → HasNoComma t → fields (t ++ b',' ∷ r) ≡ t ∷ fields r
unfolding fields
fields-comma [] r h = refl
fields-comma (c ∷ t) r h = ground (arith, fields-comma t r h.1)

fields-last : (t : Text) → HasNoComma t → fields t ≡ t ∷ []
unfolding fields
fields-last [] h = refl
fields-last (c ∷ t) h = ground (arith, fields-last t h.1)

no_comma-append : (s t : Text) → HasNoComma s → HasNoComma t → HasNoComma (s ++ t)
no_comma-append [] t hs ht = ht
no_comma-append (c ∷ s) t hs ht = (hs.0, no_comma-append s t hs.1 ht)

IsDigit-no_comma : (s : Text) → All IsDigit s → HasNoComma s
IsDigit-no_comma [] h = tt
IsDigit-no_comma (c ∷ s) h = (omega arith, IsDigit-no_comma s h.1)

action-no_comma : (a : SessionAction) → HasNoComma (action_to_string a)
unfolding action_to_string
action-no_comma created = omega arith
action-no_comma _ = omega arith

timestamp-no_comma :
    (calendar : Calendar) (tp : ℕ)
    → HasNoComma (calendar (tp / 1000000000))
    → HasNoComma (format_timestamp calendar tp)
unfolding format_timestamp
timestamp-no_comma calendar tp h =
    no_comma-append (calendar (tp / 1000000000)) _ h
      (rw (milliseconds_text_lem (tp / 1000000 % 1000) (omega arith)) (omega arith))

-- A line of the CDR file has three fields: the timestamp, the IMSI and the action. The calendar writes no
-- comma, and the IMSI is valid.
pub fields-format_record :
    (calendar : Calendar) (imsi : Text) (action : SessionAction) (timestamp : ℕ)
    → HasNoComma (calendar (timestamp / 1000000000))
    → IsValid imsi
    → fields (format_record calendar imsi action timestamp)
      ≡ format_timestamp calendar timestamp ∷ imsi ∷ action_to_string action ∷ []
unfolding format_record
fields-format_record calendar imsi action timestamp h v = rw (
  fields-comma _ (imsi ++ (codes "," ++ action_to_string action))
      (timestamp-no_comma calendar timestamp h),
  fields-comma imsi (action_to_string action) (IsDigit-no_comma imsi v.decimal),
  fields-last _ (action-no_comma action),
)

-- Different actions are written differently.
pub action_to_string-injective :
    (a b : SessionAction) → action_to_string a ≡ action_to_string b → a ≡ b
unfolding action_to_string
action_to_string-injective a b h = ground arith
