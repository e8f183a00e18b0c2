-- ===== src/Sessions/Spec.antt =====
-- What SessionManager promises its clients: a partial map of sessions, a set of refused subscribers and a
-- log, with no order of entries and no keys in a table. Refinement proves that the code keeps to it.
use pgw.Base.{Bool, true, false, List, [], ◌∷◌, ◌++◌, Option, none, some, Text, ite, Text_discrete}
use pgw.Imsi.Valid.{IsValid-dec}
use pgw.Sessions.State.{Session, SessionEvent, SessionAction, Instant, new_session}
use pgw.Sessions.Requests.{CreateResult, already_exists, blacklisted}

pub record View : Type 0 where
  pub active : Text → Option Session
  pub banned : Text → Bool
  pub log : List SessionEvent

abbrev pub put {ℓ} : {A : Type ℓ} → Text → A → (Text → A) → Text → A
put k a f j = ite (Text_discrete k j) a (f j)

pub data Call : Type 0 where
  create touch : Instant → Text → Call
  exists remove ban unban check : Text → Call

pub data Reply : Type 0 where
  result : CreateResult → Reply
  answer : Bool → Reply
  done : Reply

abbrev pub is_there : Option Session → Bool
is_there none = false
is_there (some s) = true

unfoldable pub log_event : Instant → Text → SessionAction → View → View
log_event now imsi a v = record v {
  log = v.log ++ record { imsi = imsi; action = a; timestamp = now.system } ∷ [];
}

unfoldable pub refresh : Instant → Session → Session
refresh now s = record s { last_activity = now.steady }

-- A valid subscriber that is not refused.
unfoldable pub spec_open : Instant → Text → View → View × Reply
unfolding log_event refresh new_session
spec_open now imsi v = elim (v.active imsi) [
  | none ↦ (
    log_event now imsi SessionAction.created
        (record v { active = put imsi (some (new_session now imsi)) v.active }),
    result CreateResult.created,
  )
  | some s ↦ (record v { active = put imsi (some (refresh now s)) v.active }, result already_exists)
]

unfoldable pub spec_admit : Instant → Text → View → View × Reply
spec_admit now imsi v = elim (v.banned imsi) [
  | true ↦ (log_event now imsi SessionAction.rejected v, result blacklisted)
  | false ↦ spec_open now imsi v
]

-- Anything but an IMSI is refused with no trace.
unfoldable pub spec_create : Instant → Text → View → View × Reply
spec_create now imsi v = ite (IsValid-dec imsi) (spec_admit now imsi v) (v, result blacklisted)

unfoldable pub spec_touch : Instant → Text → View → View × Reply
unfolding refresh
spec_touch now imsi v = elim (v.active imsi) [
  | none ↦ (v, done)
  | some s ↦ (record v { active = put imsi (some (refresh now s)) v.active }, done)
]

unfoldable pub spec : Call → View → View × Reply
unfolding spec_create spec_touch
spec (create now imsi) v = spec_create now imsi v
spec (touch now imsi) v = spec_touch now imsi v
spec (exists imsi) v = (v, answer (is_there (v.active imsi)))
spec (remove imsi) v =
    (record v { active = put imsi none v.active }, answer (is_there (v.active imsi)))
spec (ban imsi) v = (record v { banned = put imsi true v.banned }, done)
spec (unban imsi) v = (record v { banned = put imsi false v.banned }, done)
spec (check imsi) v = (v, answer (v.banned imsi))

unfoldable pub spec_run : List Call → View → View × List Reply
spec_run [] v = (v, [])
spec_run (c ∷ cs) v =
    let (w, reply) = spec c v in let (u, replies) = spec_run cs w in (u, reply ∷ replies)
