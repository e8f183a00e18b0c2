-- ===== src/App/Server/Tests.antt =====
-- src/pgw_server_app.cpp: the theorems on the running server, at servers that read one datagram.
use pgw.Base.{
  ◌≡◌, ◌↔◌, refl, inl, arith, Bool, true, false, [], ◌∷◌, none, some, Text, codes, find, total,
  insert, member, count, set_insert, Text_discrete, ℕ_discrete,
}
use pgw.Imsi.{make, from_bcd}
use pgw.Events.{Address, UdpEvent, udp}
use pgw.Config.{load_json}
use pgw.Logger.Components.{nothing}
use pgw.Sessions.State.{Manager, Instant, init, new_session, emit_event}
use pgw.Sessions.Requests.{blacklisted, is_imsi, check_blacklist, open_session, session_exists}
use pgw.Sessions.Threads.{begin_create}
use pgw.Sessions.Lifecycle.{follow}
use pgw.Cdr.{Calendar, new_writer}
use pgw.Cdr.Reading.{read_lines}
use pgw.Dispatcher.{respond, response_text}
use pgw.Dispatcher.Workers.{new_pool, move, handling, polling, takes}
use pgw.App.{
  blacklist_array, init_components, load_blacklist, insert_loaded, insert_array, insert_strings,
}
use pgw.App.Blacklist.{IsListed}
use pgw.App.Tests.{listed, one_text, spdlog, components, construct-one_text}
use pgw.App.Server.{
  enter, refuses, Server, new_server, request, assign, checked, Serve, queues, works, admits,
  answers, Serves, at_start, after,
}
use pgw.App.Server.Answers.{from_chosen, to_chosen, IsAnswered, Serves-IsAnswered}
use pgw.App.Server.Verdicts.{IsJudged}
use pgw.App.Server.Verdicts.Counts.{Serves-IsJudged}
use pgw.App.Server.Records.{cdr_file, construct-cdr_file}
use pgw.App.Server.Checks.{construct-check_subscriber}
use pgw.Http.{text_plain, handle_check_subscriber}
use pgw.Http.Handlers.{IsNamed}
use pgw.App.Server.Refusals.{construct-refused}
use pgw.App.Server.Completion.{Serves-complete}
use pgw.App.Server.Completion.Readable.{AreReadable}
use pgw.App.Server.Completion.Rounds.{Proceeds, at_head}

abbrev client : Address
client = record { s_addr = 2130706433; sin_port = 5000 }

abbrev everyone : Address → Bool
everyone a = true

abbrev manager : Manager
manager = init 30 20 (listed ∷ []) true

-- The packet codes the IMSI "12".
abbrev one_datagram : (s : Server) → (t : Server) × Serve s t
one_datagram s = (_, queues s (0x21 ∷ []) client)

abbrev busy : Server
busy = (one_datagram (new_server (new_pool 1) manager)).0

abbrev way : Serves (new_server (new_pool 1) manager) busy
way = after at_start (one_datagram (new_server (new_pool 1) manager)).1

busy-AreReadable : AreReadable busy.pool
unfolding new_pool from_bcd make
busy-AreReadable = record { queued = ((record { digits = codes "12" }, refl), tt); held = (tt, tt) }

listed-IsListed : IsListed one_text listed (some listed)
unfolding load_json blacklist_array
listed-IsListed = (listed, listed ∷ [], refl, refl, inl refl)

-- A subscriber whom nobody refuses, and the request for them.
abbrev free : Text
free = codes "12"

abbrev event : UdpEvent
event = request (0x21 ∷ []) client

abbrev now : Instant
now = record { steady = 5; system = 5; ticks = λ left. 5 }

abbrev start : Server
start = new_server components.pool components.session_manager

-- The request is read and taken by the first of the workers, which admits and answers it.
abbrev received : Server
received = (one_datagram start).0

abbrev taken : Server
taken = record received {
  pool = record (move received.pool 0 (handling (udp event))) {
    queue = [];
    taken = udp event ∷ [];
  };
}

abbrev admitted : Server
admitted = record taken {
  manager = (checked now free taken.manager).0;
  calls = assign taken.calls 0 (some free);
}

abbrev answered : Server
answered = record admitted {
  pool = move admitted.pool 0 polling;
  manager = (open_session now free admitted.manager).0;
  calls = assign admitted.calls 0 none;
  sent = respond event (response_text (open_session now free admitted.manager).1);
}

opened : Unit {0}
unfolding find member count Text_discrete ℕ_discrete insert new_session emit_event init
    init_components new_pool from_bcd make is_imsi check_blacklist open_session begin_create respond
    response_text load_blacklist load_json blacklist_array insert_loaded insert_array insert_strings
    set_insert new_writer
opened = tt

answered-way : Serves start answered
unfolding opened
answered-way =
    after
      (after
        (after (after at_start (one_datagram start).1)
          (works received (takes received.pool 0 (udp event) [] refl refl refl) tt))
        (admits taken 0 event (record { digits = free }) now refl refl refl refl))
      (answers admitted 0 event free now refl refl)

Serves-IsAnswered_example : IsAnswered everyone answered
unfolding init_components
Serves-IsAnswered_example = Serves-IsAnswered everyone 20 components.session_manager answered-way

abbrev noon : Calendar
noon s = codes "2024-01-15 14:30:25"

construct-cdr_file_example :
    follow free (some false) (read_lines (cdr_file noon components answered))
    ≡ some (session_exists free answered.manager)
construct-cdr_file_example =
    construct-cdr_file one_text spdlog nothing (some listed) components noon free construct-one_text
      (λ second. omega arith) answered-way

answered-exists : session_exists free answered.manager ≡ true
unfolding opened session_exists
answered-exists = refl

construct-refused_example : find listed answered.manager.sessions ≡ none
construct-refused_example =
    construct-refused one_text spdlog nothing (some listed) components listed construct-one_text
      listed-IsListed answered-way

Serves-complete_example :
    (t : Server) × Proceeds busy t
    × (t.received ≡ busy.received)
    × (t.pool.queue ≡ [])
    × ((chosen : Address → Bool)
        → total (from_chosen chosen) t.received ≡ total (to_chosen chosen) t.sent)
unfolding new_pool
Serves-complete_example = Serves-complete 1 manager busy 0 way (at_head refl) busy-AreReadable

-- The library reads the body as the subscriber's text.
construct-check_subscriber_example :
    (handle_check_subscriber one_text free answered.manager ≡ text_plain 200 (codes "active")) ↔ (
      (imsi : Text) × IsNamed one_text free imsi
      × (follow imsi (some false) (read_lines (cdr_file noon components answered)) ≡ some true))
construct-check_subscriber_example =
    construct-check_subscriber one_text spdlog nothing (some listed) components noon free
      construct-one_text (λ second. omega arith) answered-way

-- A request for the subscriber whom the blacklist names.
abbrev barred : UdpEvent
barred = request (0x00 ∷ 0x01 ∷ 0x01 ∷ 0x21 ∷ 0x43 ∷ 0x65 ∷ 0x87 ∷ 0xF9 ∷ []) client

abbrev asked : Server
asked = record start { pool = enter start.pool (udp barred); received = client ∷ [] }

abbrev held : Server
held = record asked {
  pool = record (move asked.pool 0 (handling (udp barred))) { queue = []; taken = udp barred ∷ [] };
}

abbrev refused : Server
refused = record held {
  pool = move held.pool 0 polling;
  manager = (checked now listed held.manager).0;
  sent = respond barred (response_text blacklisted);
}

refused-way : Serves start refused
unfolding opened
refused-way =
    after
      (after (after at_start (queues start barred.bytes client))
        (works asked (takes asked.pool 0 (udp barred) [] refl refl refl) tt))
      (refuses held 0 barred (record { digits = listed }) now refl refl refl refl)

refused-sent : refused.sent ≡ record { text = codes "rejected"; client = client } ∷ []
unfolding opened
refused-sent = refl

Serves-IsJudged_example : IsJudged everyone components.session_manager.blacklist refused
unfolding init_components
Serves-IsJudged_example = Serves-IsJudged everyone 20 components.session_manager refused-way
