-- ===== src/App/Server/Verdicts.antt =====
-- What the answers of the running server say: events for subscribers on a blacklist, and answers that refuse.
pub mod Blacklists
pub mod Calls
pub mod Counts
use pgw.Base.{
  ℕ, ◌+◌, ◌≡◌, Bool, List, Text, codes, Text_discrete, ite, Outcome, returns, throws, terminates,
  if◌then◌else◌, member, total,
}
use pgw.Imsi.{Imsi, from_bcd}
use pgw.Events.{Address, UdpEvent, HttpEvent, Event, udp, http, Response}
use pgw.Dispatcher.Workers.{Pc, handling}
use pgw.App.Server.{Server}
use pgw.App.Server.Answers.{owed, to_chosen, from_chosen}

module _ (chosen : Address → Bool) (blacklist : List Text) where
  abbrev pub judged : Outcome Imsi → UdpEvent → ℕ
  judged (returns imsi) event = if member imsi.digits blacklist then owed chosen (udp event) else 0
  judged (throws what) event = 0
  judged terminates event = 0

  -- The refusals that an event calls for.
  abbrev pub bad : Event → ℕ
  bad (udp event) = judged (from_bcd event.bytes) event
  bad (http event) = 0

  abbrev pub bad_by : Pc → ℕ
  bad_by (handling e) = bad e
  bad_by _ = 0

  abbrev pub refusal_to : Response → ℕ
  refusal_to r = ite (Text_discrete r.text (codes "rejected")) (to_chosen chosen r) 0

  -- The balance of refusals: answers, events in hand and datagrams queued, against datagrams read and events taken.
  abbrev pub IsJudged : Server → Type 0
  IsJudged s =
      total refusal_to s.sent + total bad_by s.pool.workers + total (owed chosen) s.pool.arrived
      ≡ total (from_chosen chosen) s.received + total bad s.pool.taken
