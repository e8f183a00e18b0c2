-- ===== src/Sessions/Locks.antt =====
-- src/session_manager.cpp: the sections of the class by what they lock and touch. The event callback and the atomic flags
-- synchronise themselves and are no places here; a section without a lock is one of `start_graceful_shutdown`.
use pgw.Base.{
  length, ◌≡◌, refl, arith, Bool, true, false, ◌&&◌, List, [], ◌∷◌, Option, none, some, Text,
  Option-cases, Bool-cases, inl, inr, ◌⊎◌, ◌∙◌, keys, find, keys-insert_present,
}
use pgw.Sessions.State.{later, Manager, Instant, emit_event}
use pgw.Sessions.Requests.{
  check_blacklist, open_session, remove_session, add_to_blacklist, remove_from_blacklist,
  update_session_activity,
}
use pgw.Sessions.Cleanup.{reap, reap_one}
use pgw.Sessions.Shutdown.{Begin, start_graceful_shutdown, pick, remove_picked}
use pgw.Sessions.Threads.{started}

pub data Mutex : Type 0 where
  sessions_mutex blacklist_mutex : Mutex

pub data Mode : Type 0 where
  shared exclusive : Mode

-- What is not atomic: the map, the activities of its sessions, the set, the handle of the shutdown's thread.
pub data Place : Type 0 where
  sessions activities blacklist shutdown_handle : Place

pub data Access : Type 0 where
  reads writes : Access

pub data Site : Type 0 where
  checks opens exists removes bans unbans asks updates collects reaps picks drops starts : Site

unfoldable pub lock : Site → Option (Mutex × Mode)
lock checks = some (blacklist_mutex, shared)
lock opens = some (sessions_mutex, exclusive)
lock exists = some (sessions_mutex, shared)
lock removes = some (sessions_mutex, exclusive)
lock bans = some (blacklist_mutex, exclusive)
lock unbans = some (blacklist_mutex, exclusive)
lock asks = some (blacklist_mutex, shared)
lock updates = some (sessions_mutex, shared)
lock collects = some (sessions_mutex, shared)
lock reaps = some (sessions_mutex, exclusive)
lock picks = some (sessions_mutex, shared)
lock drops = some (sessions_mutex, exclusive)
lock starts = none

-- Erasing a session destroys its activity.
unfoldable pub touches : Site → Place → Option Access
touches checks blacklist = some reads
touches opens sessions = some writes
touches opens activities = some writes
touches exists sessions = some reads
touches removes sessions = some writes
touches removes activities = some writes
touches bans blacklist = some writes
touches unbans blacklist = some writes
touches asks blacklist = some reads
touches updates sessions = some reads
touches updates activities = some writes
touches collects sessions = some reads
touches collects activities = some reads
touches reaps sessions = some writes
touches reaps activities = some writes
touches picks sessions = some reads
touches drops sessions = some writes
touches drops activities = some writes
touches starts shutdown_handle = some writes
touches _ _ = none

-- Two locks that two threads can hold at once.
abbrev pub compatible : Option (Mutex × Mode) → Option (Mutex × Mode) → Bool
compatible (some (sessions_mutex, exclusive)) (some (sessions_mutex, m)) = false
compatible (some (sessions_mutex, shared)) (some (sessions_mutex, exclusive)) = false
compatible (some (blacklist_mutex, exclusive)) (some (blacklist_mutex, m)) = false
compatible (some (blacklist_mutex, shared)) (some (blacklist_mutex, exclusive)) = false
compatible _ _ = true

abbrev pub conflict : Option Access → Option Access → Bool
conflict (some writes) (some a) = true
conflict (some reads) (some writes) = true
conflict _ _ = false

-- The C++ data race: two threads, one place, one write or more, no lock between them.
unfoldable pub races_on : Place → Site → Site → Bool
races_on p a b = compatible (lock a) (lock b) && conflict (touches a p) (touches b p)

-- The section on a manager; `picks` and `starts` as far as they change it.
unfoldable pub section : Site → Instant → Text → List Text → Begin → Manager → Manager
section checks now imsi expired begin m = (check_blacklist now imsi m).0
section opens now imsi expired begin m = (open_session now imsi m).0
section exists now imsi expired begin m = m
section removes now imsi expired begin m = (remove_session imsi m).0
section bans now imsi expired begin m = add_to_blacklist imsi m
section unbans now imsi expired begin m = remove_from_blacklist imsi m
section asks now imsi expired begin m = m
section updates now imsi expired begin m = update_session_activity now imsi m
section collects now imsi expired begin m = m
section reaps now imsi expired begin m = reap now expired m
section picks now imsi expired begin m = (pick begin m).0
section drops now imsi expired begin m = remove_picked now.system imsi m
section starts now imsi expired begin m = started (start_graceful_shutdown m) m

-- The pairs of sections that race: `update_session_activity` with itself and with the cleanup's first look, on an activity,
-- and two starts of the graceful shutdown, on the handle of its thread.
abbrev pub known : Place → Site → Site → Bool
known activities updates updates = true
known activities updates collects = true
known activities collects updates = true
known shutdown_handle starts starts = true
known _ _ _ = false

-- A place is as it was. The activities stand in the entries of the map, whose keys are the map's own.
abbrev pub IsUntouched : Place → Manager → Manager → Type 0
IsUntouched sessions m n = keys n.sessions ≡ keys m.sessions
IsUntouched activities m n = n.sessions ≡ m.sessions
IsUntouched blacklist m n = n.blacklist ≡ m.blacklist
IsUntouched shutdown_handle m n = n.graceful_joinable ≡ m.graceful_joinable

abbrev pub is_write : Option Access → Bool
is_write (some writes) = true
is_write _ = false

update-keys :
    (now : Instant) (imsi : Text) (m : Manager)
    → keys (update_session_activity now imsi m).sessions ≡ keys m.sessions
unfolding update_session_activity
update-keys now imsi m = elim (Option-cases (find imsi m.sessions)) [
  | inl e ↦ ground (arith, e)
  | inr (s, e) ↦
      ground (
        arith,
        e,
        keys-insert_present imsi (record s { last_activity = now.steady }) s m.sessions e,
      )
]

pub reap-kept :
    (now : Instant) (expired : List Text) (m : Manager)
    → ((reap now expired m).blacklist ≡ m.blacklist)
      × ((reap now expired m).graceful_joinable ≡ m.graceful_joinable)
unfolding reap reap_one emit_event
reap-kept now [] m = (refl, refl)
reap-kept now (imsi ∷ rest) m =
    ground (arith, reap-kept now rest (reap_one (later now (length rest)) imsi m))

section-IsUntouched :
    (site : Site) (p : Place) (now : Instant) (imsi : Text) (expired : List Text) (begin : Begin)
    (m : Manager)
    → is_write (touches site p) ≡ false
    → IsUntouched p m (section site now imsi expired begin m)
unfolding touches section check_blacklist open_session remove_session add_to_blacklist
    remove_from_blacklist update_session_activity pick remove_picked start_graceful_shutdown
    emit_event
section-IsUntouched site p now imsi expired begin m h =
    ground (arith, update-keys now imsi m, reap-kept now expired m)

races_on_lem : (p : Place) (a b : Site) → races_on p a b ≡ known p a b
unfolding races_on lock touches
races_on_lem p a b = ground arith

write-alone :
    (p : Place) (a b : Site)
    → compatible (lock a) (lock b) ≡ true
    → races_on p a b ≡ false
    → is_write (touches a p) ≡ true
    → touches b p ≡ none
unfolding races_on lock touches
write-alone p a b c r w = ground arith

-- Two threads race on a place exactly in the known pairs of sections. In any other pair that two threads can be in at once, the
-- one leaves the place as it is, whatever its arguments, or the other does not touch it.
pub races_on-section :
    (p : Place) (a b : Site) (now : Instant) (imsi : Text) (expired : List Text) (begin : Begin)
    (m : Manager)
    → compatible (lock a) (lock b) ≡ true
    → (races_on p a b ≡ known p a b)
      × ((known p a b ≡ true)
          ⊎ (IsUntouched p m (section a now imsi expired begin m) ⊎ (touches b p ≡ none)))
races_on-section p a b now imsi expired begin m c = (
  races_on_lem p a b,
  elim (Bool-cases (known p a b)) [
    | inl k ↦ inl k
    | inr k ↦ inr (elim (Bool-cases (is_write (touches a p))) [
      | inl w ↦ inr (write-alone p a b c (races_on_lem p a b ∙ k) w)
      | inr r ↦ inl (section-IsUntouched a p now imsi expired begin m r)
    ])
  ],
)
