-- ===== src/Sessions/Requests.antt =====
-- src/session_manager.cpp: the calls that other threads make. Each section under a mutex is a function
-- of its own, and a call composes them.
use pgw.Base.{
  Bool, true, false, none, some, Text, if◌then◌else◌, find, insert, erase, member, set_insert,
  set_erase, returns, throws, terminates,
}
use pgw.Imsi.{make}
use pgw.Sessions.State.{Manager, Instant, SessionAction, new_session, emit_event}

pub data CreateResult : Type 0 where
  created already_exists blacklisted : CreateResult

-- `try { IMSI imsi_obj(imsi); } catch (...)`: whether the constructor returned.
unfoldable pub is_imsi : Text → Bool
is_imsi imsi = elim (make imsi) [ returns i ↦ true | throws e ↦ false | terminates ↦ false ]

-- The section under `blacklist_mutex_`: whether the subscriber is refused.
unfoldable pub check_blacklist : Instant → Text → Manager → Manager × Bool
check_blacklist now imsi m =
    if member imsi m.blacklist
    then (emit_event now.system imsi SessionAction.rejected m, true)
    else (m, false)

-- The section under `sessions_mutex_`.
unfoldable pub open_session : Instant → Text → Manager → Manager × CreateResult
open_session now imsi m = elim (find imsi m.sessions) [
  | some s ↦ (
    record m { sessions = insert imsi (record s { last_activity = now.steady }) m.sessions },
    already_exists,
  )
  | none ↦ (
    emit_event now.system imsi SessionAction.created
        (record m { sessions = insert imsi (new_session now imsi) m.sessions }),
    CreateResult.created,
  )
]

unfoldable pub create_session : Instant → Text → Manager → Manager × CreateResult
create_session now imsi m =
    if is_imsi imsi
    then (let (checked, refused) = check_blacklist now imsi m in
        if refused then (checked, blacklisted) else open_session now imsi checked)
    else (m, blacklisted)

unfoldable pub session_exists : Text → Manager → Bool
session_exists imsi m = elim (find imsi m.sessions) [ none ↦ false | some s ↦ true ]

unfoldable pub remove_session : Text → Manager → Manager × Bool
remove_session imsi m = elim (find imsi m.sessions) [
  | none ↦ (m, false)
  | some s ↦ (record m { sessions = erase imsi m.sessions }, true)
]

unfoldable pub add_to_blacklist : Text → Manager → Manager
add_to_blacklist imsi m = record m { blacklist = set_insert imsi m.blacklist }

unfoldable pub remove_from_blacklist : Text → Manager → Manager
remove_from_blacklist imsi m = record m { blacklist = set_erase imsi m.blacklist }

unfoldable pub is_blacklisted : Text → Manager → Bool
is_blacklisted imsi m = member imsi m.blacklist

unfoldable pub update_session_activity : Instant → Text → Manager → Manager
update_session_activity now imsi m = elim (find imsi m.sessions) [
  | none ↦ m
  | some s ↦ record m {
    sessions = insert imsi (record s { last_activity = now.steady }) m.sessions;
  }
]
