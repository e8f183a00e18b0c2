-- ===== src/Cdr/Tests.antt =====
-- src/cdr_writer.cpp: a line of the CDR file, and the theorems at inputs.
use pgw.Base.{◌≡◌, refl, [], ◌∷◌, Text, codes, arith}
use pgw.Imsi.Valid.{IsValid}
use pgw.Sessions.State.{created, timeout}
use pgw.Cdr.{
  Calendar, action_to_string, to_string, milliseconds_text, format_timestamp, format_record,
}
use pgw.Cdr.Format.{fields, fields-format_record}

-- A calendar that knows one second.
abbrev noon : Calendar
noon s = codes "2024-01-15 14:30:25"

abbrev subscriber : Text
subscriber = codes "123456789012345"

subscriber-IsValid : IsValid subscriber
subscriber-IsValid = omega arith

-- The first line of the example in README.md.
readme_record :
    format_record noon subscriber created 123000000
    ≡ codes "2024-01-15 14:30:25.123,123456789012345,CREATED"
unfolding format_record format_timestamp milliseconds_text to_string action_to_string
readme_record = refl

fields-format_record_example :
    fields (format_record noon subscriber timeout 7000000)
    ≡ format_timestamp noon 7000000 ∷ subscriber ∷ action_to_string timeout ∷ []
fields-format_record_example =
    fields-format_record noon subscriber timeout 7000000 (omega arith) subscriber-IsValid
