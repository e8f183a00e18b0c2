-- ===== src/Cdr/Reading.antt =====
-- src/cdr_writer.cpp: a reader of the CDR file, which the format in README.md allows. It keeps the IMSI and the action of
-- each line, and passes over what is no record, as the header is.
use pgw.Base.{
  ℕ, ◌≡◌, refl, List, [], ◌∷◌, ◌++◌, map, Option, none, some, Text, codes, Text_discrete,
  ℕ_discrete, ite, All, ap, ◌∙◌,
}
use pgw.Imsi.Valid.{IsValid}
use pgw.Sessions.State.{SessionAction, SessionEvent, created, rejected, timeout, graceful_shutdown}
use pgw.Sessions.Lifecycle.{Entry, entry_of}
use pgw.Sessions.Subjects.{HasSubject}
use pgw.Cdr.{Calendar, action_to_string, cdr_callback, new_writer}
use pgw.Cdr.Lines.{record_of, cdr_callback-new_writer}
use pgw.Cdr.Format.{fields, HasNoComma, fields-format_record}

unfoldable pub read_action : Text → Option SessionAction
read_action t = ite (Text_discrete t (codes "CREATED")) (some created) (
    ite (Text_discrete t (codes "REJECTED")) (some rejected) (
      ite (Text_discrete t (codes "TIMEOUT")) (some timeout)
        (ite (Text_discrete t (codes "GRACEFUL_SHUTDOWN")) (some graceful_shutdown) none)))

-- The entry of a line that was cut at its commas.
unfoldable pub read_fields : List Text → List Entry
read_fields (time ∷ imsi ∷ action ∷ []) = elim (read_action action) [
  | none ↦ []
  | some a ↦ (imsi, a) ∷ []
]
read_fields _ = []

unfoldable pub read_lines : List Text → List Entry
read_lines [] = []
read_lines (line ∷ rest) = read_fields (fields line) ++ read_lines rest

read_action-action_to_string : (a : SessionAction) → read_action (action_to_string a) ≡ some a
unfolding read_action action_to_string Text_discrete ℕ_discrete
read_action-action_to_string created = refl
read_action-action_to_string rejected = refl
read_action-action_to_string timeout = refl
read_action-action_to_string graceful_shutdown = refl

abbrev pub WritesNoComma : Calendar → Type 0
WritesNoComma calendar = (second : ℕ) → HasNoComma (calendar second)

read_fields-record_of :
    (calendar : Calendar) (e : SessionEvent)
    → WritesNoComma calendar
    → IsValid e.imsi
    → read_fields (fields (record_of calendar e)) ≡ entry_of e ∷ []
unfolding read_fields
read_fields-record_of calendar e c v =
    rw
      (
        fields-format_record calendar e.imsi e.action e.timestamp (c _) v,
        read_fields,
        read_action-action_to_string e.action,
      )
      refl

read_lines-records :
    (calendar : Calendar) (es : List SessionEvent)
    → WritesNoComma calendar
    → All HasSubject es
    → read_lines (map (record_of calendar) es) ≡ map entry_of es
unfolding read_lines
read_lines-records calendar [] c v = refl
read_lines-records calendar (e ∷ es) c v =
    rw (read_fields-record_of calendar e c v.0, read_lines-records calendar es c v.1) refl

read_header :
    (rest : List Text)
    → read_lines (codes "# CDR Log - Format: timestamp,IMSI,action" ∷ rest) ≡ read_lines rest
unfolding read_lines read_fields read_action fields Text_discrete ℕ_discrete
read_header rest = refl

-- From the file that a new writer makes of events about valid subscribers, with a calendar that writes no comma, their IMSIs
-- and actions are read back, in order.
pub read_lines-cdr_callback :
    (calendar : Calendar) (es : List SessionEvent)
    → WritesNoComma calendar
    → All HasSubject es
    → read_lines (cdr_callback calendar es new_writer).lines ≡ map entry_of es
read_lines-cdr_callback calendar es c v =
    ap read_lines (cdr_callback-new_writer calendar es).0
    ∙ read_header (map (record_of calendar) es)
    ∙ read_lines-records calendar es c v
