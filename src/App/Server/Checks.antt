-- ===== src/App/Server/Checks.antt =====
-- `handle_check_subscriber` of src/http_server.cpp while the server runs, beside the CDR file.
use pgw.Base.{◌≡◌, arith, ◌↔◌, true, false, Text, codes, Option, some, returns, find}
use pgw.Json.{JsonLibrary}
use pgw.Logger.{Spdlog, Logging}
use pgw.Cdr.{Calendar}
use pgw.Cdr.Reading.{read_lines, WritesNoComma}
use pgw.Sessions.State.{Manager, Session}
use pgw.Sessions.Requests.{session_exists}
use pgw.Sessions.Lifecycle.{follow}
use pgw.Http.{text_plain, handle_check_subscriber}
use pgw.Http.Handlers.{IsNamed, exists-find, handle_check_subscriber-active}
use pgw.App.{Components, construct}
use pgw.App.Server.{Server, new_server, Serves}
use pgw.App.Server.Records.{cdr_file, construct-cdr_file}

find-exists :
    (imsi : Text) (m : Manager) (t : Session)
    → find imsi m.sessions ≡ some t
    → session_exists imsi m ≡ true
unfolding session_exists
find-exists imsi m t e = ground (arith, e)

-- At any time while the application that was constructed serves, with a calendar that writes no comma, the answer to
-- `/check_subscriber` is "active" exactly if the body is JSON with a string "imsi" of whom the lines of the CDR file, read
-- back, tell last that a session was created.
pub construct-check_subscriber :
    (json : JsonLibrary) (spdlog : Spdlog) (l : Logging) (file : Option Text) (c : Components)
    (calendar : Calendar) (body : Text) {s : Server}
    → construct json spdlog l file ≡ returns c
    → WritesNoComma calendar
    → Serves (new_server c.pool c.session_manager) s
    → (handle_check_subscriber json body s.manager ≡ text_plain 200 (codes "active")) ↔ (
        (imsi : Text) × IsNamed json body imsi
        × (follow imsi (some false) (read_lines (cdr_file calendar c s)) ≡ some true))
construct-check_subscriber json spdlog l file c calendar body {s} h comma r = (
  (λ active.
      let (imsi, named, t, found) = (handle_check_subscriber-active json body s.manager).0 active in
      let exists = find-exists imsi s.manager t found in
      let told = construct-cdr_file json spdlog l file c calendar imsi h comma r in
      (imsi, named, cc (told, exists))),
  (λ (imsi, named, last).
      let told = construct-cdr_file json spdlog l file c calendar imsi h comma r in
      let exists : session_exists imsi s.manager ≡ true = cc (told, last) in
      let (t, found) = exists-find imsi s.manager exists in
      (handle_check_subscriber-active json body s.manager).1 (imsi, named, t, found)),
)
