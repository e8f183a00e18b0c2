-- ===== src/App/Server/Records.antt =====
-- The CDR file of the running server: what the callback has written of the events of the manager.
use pgw.Base.{
  ℕ, ◌≡◌, refl, sym, ap, subst, true, false, List, [], some, Option, Text, count, IsDistinct, ◌∙◌,
  returns,
}
use pgw.Json.{JsonLibrary}
use pgw.Logger.{Spdlog, Logging}
use pgw.Cdr.{Calendar, new_writer, cdr_callback}
use pgw.Cdr.Reading.{read_lines, WritesNoComma, read_lines-cdr_callback}
use pgw.Sessions.State.{init}
use pgw.Sessions.Requests.{session_exists}
use pgw.Sessions.Invariant.{init-Inv}
use pgw.Sessions.Lifecycle.{follow}
use pgw.Sessions.Lifecycle.Told.{follow-session_exists}
use pgw.Sessions.Subjects.{Run-HaveSubjects}
use pgw.Dispatcher.Workers.{Pool}
use pgw.App.{Components, construct, init_components, load_blacklist}
use pgw.App.Construction.{construct-made, load_blacklist-IsDistinct}
use pgw.App.Server.{Server, new_server, Serves}
use pgw.App.Server.Histories.{Serves-Run}

-- The lines of the file of a writer at the start.
abbrev pub cdr_file : Calendar → Components → Server → List Text
cdr_file calendar c s = (cdr_callback calendar s.manager.delivered c.cdr_writer).lines

new_server-file :
    (calendar : Calendar) (p : Pool) (limit rate : ℕ) (blacklist : List Text) {s : Server}
    (k : Text)
    → WritesNoComma calendar
    → IsDistinct blacklist
    → Serves (new_server p (init limit rate blacklist true)) s
    → follow k
        (some false)
        (read_lines (cdr_callback calendar s.manager.delivered new_writer).lines)
      ≡ some (session_exists k s.manager)
unfolding init count
new_server-file calendar p limit rate blacklist {s} k comma distinct r =
    let history = Serves-Run p (init limit rate blacklist true) r in
    let about = Run-HaveSubjects history (init-Inv limit rate blacklist true distinct) tt in
    ap (follow k (some false)) (read_lines-cdr_callback calendar s.manager.delivered comma about)
    ∙ follow-session_exists limit rate blacklist k distinct history refl

-- Whatever requests come and in whatever order the threads of the running server go on after the application was
-- constructed, with a calendar that writes no comma: what is read back from the lines of the CDR file tells of every
-- subscriber, by CREATED and TIMEOUT or GRACEFUL_SHUTDOWN in turns, whether the manager has a session for them.
pub construct-cdr_file :
    (json : JsonLibrary) (spdlog : Spdlog) (l : Logging) (file : Option Text) (c : Components)
    (calendar : Calendar) (k : Text) {s : Server}
    → construct json spdlog l file ≡ returns c
    → WritesNoComma calendar
    → Serves (new_server c.pool c.session_manager) s
    → follow k (some false) (read_lines (cdr_file calendar c s)) ≡ some (session_exists k s.manager)
unfolding init_components
construct-cdr_file json spdlog l file c calendar k {s} h comma r =
    let (u, v, w, made) = construct-made json spdlog l file c h in
    let start = subst (λ d. Serves (new_server d.pool d.session_manager) s) (sym made) r in
    subst
      (λ d.
        follow k (some false) (read_lines (cdr_file calendar d s))
        ≡ some (session_exists k s.manager))
      made
      (new_server-file calendar _ w.session_timeout_sec w.shutdown_rate
        (load_blacklist json file []) k comma (load_blacklist-IsDistinct json file) start)
