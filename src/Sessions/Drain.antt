-- ===== src/Sessions/Drain.antt =====
-- src/session_manager.cpp: `graceful_shutdown_thread` empties the manager, at its rate.
use pgw.Base.{
  ◌∙◌, ap, ℕ, zero, suc, ◌+◌, ◌*◌, ◌/◌, ◌<◌, ◌≡◌, ◌≢◌, refl, true, false, List, [], ◌∷◌, none, some,
  Text, arith, find, erase, keys, count, length, is_empty, length-erase, Option-cases, inl, inr,
  count-keys-erase,
}
use pgw.Imsi.Valid.{IsValid}
use pgw.Sessions.State.{
  Manager, Session, SessionAction, emit_event, count_events, SessionAction_discrete, created,
  rejected, timeout, graceful_shutdown,
}
use pgw.Sessions.Shutdown.{
  Begin, pick, remove_picked, shutdown_loop, graceful_shutdown_thread, finished, sleep_duration,
}
use pgw.Sessions.Invariant.{Inv, remove_picked-Inv}
use pgw.Sessions.Accounting.{emit_event-counts}

-- What the standard says of `begin()`: there is a first entry unless the map is empty, and it is in the map.
pub record IsBegin (begin : Begin) : Type 0 where
  pub exhausts : (t : List (Text × Session)) → begin t ≡ none → t ≡ []
  pub present : (t : List (Text × Session)) (k : Text) → begin t ≡ some k → find k t ≢ none

-- A manager that shuts down, with a callback.
pub record IsDraining (m : Manager) : Type 0 where
  pub inv : Inv m
  pub active : m.graceful_shutdown_active ≡ true
  pub alive : m.running ≡ true
  pub listening : m.has_callback ≡ true

valid-is_empty : (s : Text) → IsValid s → is_empty s ≡ false
unfolding is_empty
valid-is_empty [] v = absurd (omega arith)
valid-is_empty (c ∷ s) v = refl

emit_event-flags :
    (system : ℕ) (imsi : Text) (a : SessionAction) (m : Manager)
    → ((emit_event system imsi a m).running ≡ m.running)
      × ((emit_event system imsi a m).graceful_shutdown_active ≡ m.graceful_shutdown_active)
unfolding emit_event
emit_event-flags system imsi a m = ground arith

module _ (system : ℕ) (imsi : Text) (s : Session) (m : Manager)
    (here : find imsi m.sessions ≡ some s) where
  remove_picked-IsDraining : IsDraining m → IsDraining (remove_picked system imsi m)
  unfolding remove_picked
  remove_picked-IsDraining v = ground (
    arith,
    remove_picked-Inv system imsi m v.inv,
    emit_event-flags system imsi graceful_shutdown (record m { sessions = erase imsi m.sessions }),
    emit_event-counts imsi system imsi graceful_shutdown graceful_shutdown
        (record m { sessions = erase imsi m.sessions }) v.listening,
  )

  -- A round takes one session away and reports it.
  remove_picked-counts :
      (k : Text)
      → m.has_callback ≡ true
      → (length (remove_picked system imsi m).sessions + 1 ≡ length m.sessions)
        × (count_events k graceful_shutdown (remove_picked system imsi m).delivered
              + count k (keys (remove_picked system imsi m).sessions)
            ≡ count_events k graceful_shutdown m.delivered + count k (keys m.sessions))
  unfolding remove_picked SessionAction_discrete
  remove_picked-counts k h = ground (
    arith,
    length-erase imsi m.sessions s here,
    count-keys-erase imsi k m.sessions s here,
    emit_event-counts k system imsi graceful_shutdown graceful_shutdown
        (record m { sessions = erase imsi m.sessions }) h,
  )

  remove_picked-others :
      (k : Text) (a : SessionAction)
      → a ≢ graceful_shutdown
      → m.has_callback ≡ true
      → count_events k a (remove_picked system imsi m).delivered ≡ count_events k a m.delivered
  unfolding remove_picked SessionAction_discrete
  remove_picked-others k created n h = ground (
    arith,
    emit_event-counts k system imsi graceful_shutdown created
        (record m { sessions = erase imsi m.sessions }) h,
  )
  remove_picked-others k rejected n h = ground (
    arith,
    emit_event-counts k system imsi graceful_shutdown rejected
        (record m { sessions = erase imsi m.sessions }) h,
  )
  remove_picked-others k timeout n h = ground (
    arith,
    emit_event-counts k system imsi graceful_shutdown timeout
        (record m { sessions = erase imsi m.sessions }) h,
  )
  remove_picked-others k graceful_shutdown n h = absurd (n refl)

-- The manager after the shutdown of `m`: no session, the flag cleared, an event for each session, and no other.
pub record IsDrained (m n : Manager) : Type 0 where
  pub empty : n.sessions ≡ []
  pub inactive : n.graceful_shutdown_active ≡ false
  pub reported :
      (k : Text)
      → count_events k graceful_shutdown n.delivered
        ≡ count_events k graceful_shutdown m.delivered + count k (keys m.sessions)
  pub others :
      (k : Text) (a : SessionAction)
      → a ≢ graceful_shutdown
      → count_events k a n.delivered ≡ count_events k a m.delivered

module _ (begin : Begin) (pause : ℕ) (clock : ℕ → ℕ) (fuel waited : ℕ) (m : Manager)
    (v : IsDraining m) where
  loop_ends :
      begin m.sessions ≡ none
      → shutdown_loop begin (suc fuel) pause clock waited m
        ≡ some (record m { graceful_shutdown_active = false }, waited)
  unfolding shutdown_loop pick
  loop_ends e = ground arith

  loop_goes_on :
      (imsi : Text)
      → begin m.sessions ≡ some imsi
      → is_empty imsi ≡ false
      → shutdown_loop begin (suc fuel) pause clock waited m
        ≡ shutdown_loop begin fuel pause clock (waited + pause) (remove_picked (clock fuel) imsi m)
  unfolding shutdown_loop pick
  loop_goes_on imsi e h = ground arith

IsDrained-empty :
    (m : Manager) → m.sessions ≡ [] → IsDrained m (record m { graceful_shutdown_active = false })
unfolding count
IsDrained-empty m e = record {
  empty = e;
  inactive = refl;
  reported = λ k. rw e (omega arith);
  others = λ k a n. refl;
}

drain_time : (waited pause l n : ℕ) → l + 1 ≡ n → waited + pause + l * pause ≡ waited + n * pause
drain_time waited pause l n h = rw (← h) (omega arith)

module _ (begin : Begin) (law : IsBegin begin) (pause : ℕ) (clock : ℕ → ℕ) where
  -- The loop ends by itself, if the fuel is more than the number of sessions.
  shutdown_loop_lem :
      (fuel waited : ℕ) (m : Manager)
      → IsDraining m
      → length m.sessions < fuel
      → (n : Manager) × (shutdown_loop begin fuel pause clock waited m
          ≡ some (n, waited + length m.sessions * pause))
        × IsDrained m n
  shutdown_loop_lem zero waited m v h = absurd (omega arith)
  shutdown_loop_lem (suc fuel) waited m v h = elim (Option-cases (begin m.sessions)) [
    | inl e ↦ (
      record m { graceful_shutdown_active = false },
      ground (arith, loop_ends begin pause clock fuel waited m v e, law.exhausts m.sessions e),
      IsDrained-empty m (law.exhausts m.sessions e),
    )
    | inr (imsi, e) ↦ elim (Option-cases (find imsi m.sessions)) [
      | inl h' ↦ absurd (law.present m.sessions imsi e h')
      | inr (s, here) ↦
          let system = clock fuel in
          let m' = remove_picked system imsi m in
          let (n, done, drained) =
            shutdown_loop_lem fuel (waited + pause) m'
              (remove_picked-IsDraining system imsi s m here v)
              (omega (arith, remove_picked-counts system imsi s m here imsi v.listening)) in
          let nonempty = valid-is_empty imsi (v.inv.table.named imsi s here).1 in
          (
            n,
            rw (loop_goes_on begin pause clock fuel waited m v imsi e nonempty) (
                done
                ∙ ap (λ t. some (n, t))
                    (drain_time waited pause (length m'.sessions) (length m.sessions)
                      (remove_picked-counts system imsi s m here imsi v.listening).0)),
            record {
              empty = drained.empty;
              inactive = drained.inactive;
              reported = λ k. omega (
                arith,
                drained.reported k,
                remove_picked-counts system imsi s m here k v.listening,
              );
              others = λ k a n.
                  drained.others k a n
                  ∙ remove_picked-others system imsi s m here k a n v.listening;
            },
          )
    ]
  ]

-- Started with a rate other than zero, and with fuel for each session and one round more, and left
-- alone, the thread ends: no session is left, the flag is cleared, each session has got one
-- GRACEFUL_SHUTDOWN event, and the thread has waited 1000 / rate milliseconds (rounded down) for each.
pub graceful_shutdown_thread_lem :
    (begin : Begin)
    → IsBegin begin
    → (clock : ℕ → ℕ) (fuel : ℕ) (m : Manager) → IsDraining m
    → m.shutdown_rate ≢ 0
    → length m.sessions < fuel
    → (n : Manager) × (graceful_shutdown_thread begin fuel clock m
        ≡ finished n (length m.sessions * (1000 / m.shutdown_rate)))
      × IsDrained m n
unfolding graceful_shutdown_thread sleep_duration
graceful_shutdown_thread_lem begin law clock fuel m v rate h =
    let (n, done, drained) =
      shutdown_loop_lem begin law (1000 / m.shutdown_rate) clock fuel 0 m v h in
    (n, ground (arith, done), drained)
