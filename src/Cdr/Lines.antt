-- ===== src/Cdr/Lines.antt =====
-- src/cdr_writer.cpp: the CDR file is the header and a line for each event, in order.
use pgw.Base.{
  ℕ, ◌+◌, ◌%◌, ◌^◌, ◌≡◌, refl, true, List, [], ◌∷◌, ◌++◌, map, Text, codes, arith, length,
  append_assoc, append-nil, ap, sym, ◌∙◌,
}
use pgw.Sessions.State.{SessionEvent}
use pgw.Cdr.{Writer, Calendar, new_writer, write_record, write_line, cdr_callback, format_record}

abbrev pub record_of : Calendar → SessionEvent → Text
record_of calendar e = format_record calendar e.imsi e.action e.timestamp

write_record_lem :
    (calendar : Calendar) (e : SessionEvent) (w : Writer)
    → w.has_logger ≡ true
    → ((write_record calendar e w).has_logger ≡ true)
      × ((write_record calendar e w).lines ≡ w.lines ++ record_of calendar e ∷ [])
      × ((write_record calendar e w).total_records ≡ (w.total_records + 1) % 2 ^ 64)
unfolding write_record write_line
write_record_lem calendar e w h = ground arith

-- From a count `k` of records on, kept in a `size_t`.
cdr_callback_from :
    (calendar : Calendar) (es : List SessionEvent) (w : Writer) (k : ℕ)
    → w.has_logger ≡ true
    → w.total_records ≡ k % 2 ^ 64
    → ((cdr_callback calendar es w).lines ≡ w.lines ++ map (record_of calendar) es)
      × ((cdr_callback calendar es w).total_records ≡ (k + length es) % 2 ^ 64)
unfolding cdr_callback
cdr_callback_from calendar [] w k h t = (sym (append-nil w.lines), omega arith)
cdr_callback_from calendar (e ∷ es) w k h t =
    let (logs, lines, total) = write_record_lem calendar e w h in
    let (later, counted) =
      cdr_callback_from calendar es (write_record calendar e w) (k + 1) logs (omega arith) in
    (
      later
          ∙ ap (λ l. l ++ map (record_of calendar) es) lines
          ∙ append_assoc w.lines (record_of calendar e ∷ []) (map (record_of calendar) es),
      omega arith,
    )

-- A new writer that gets events through its callback writes the header and then one line for each event, in
-- the order of the events, and counts the events, modulo 2 ^ 64.
pub cdr_callback-new_writer :
    (calendar : Calendar) (es : List SessionEvent)
    → ((cdr_callback calendar es new_writer).lines
        ≡ codes "# CDR Log - Format: timestamp,IMSI,action" ∷ map (record_of calendar) es)
      × ((cdr_callback calendar es new_writer).total_records ≡ length es % 2 ^ 64)
unfolding new_writer
cdr_callback-new_writer calendar es =
    let (lines, total) = cdr_callback_from calendar es new_writer 0 refl (omega arith) in
    (lines, omega arith)
