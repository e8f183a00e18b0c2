-- ===== src/Http/Lifecycle.antt =====
-- src/http_server.cpp: `start`, `stop` and the destructor, in any order, the server's thread, and the detached threads.
use pgw.Base.{
  ◌-◌, ◌≡◌, refl, arith, Bool, true, false, ℕ, List, [], ◌∷◌, Outcome, returns, terminates, ◌>>=◌,
}
use pgw.Http.{
  HttpServer, new_server, start, stop, listen_ended, delayed_exchange, delayed_join, destroy,
}

-- What befalls the server before its destructor: a call of `start` or `stop`, the two steps of a detached thread's call,
-- and the end of `listen`. A detached thread that comes later uses a server that is gone.
pub data Happening : Type 0 where
  started stopped detached_exchange detached_join ended : Happening

unfoldable pub undergo : Happening → HttpServer → Outcome HttpServer
undergo started s = start s
undergo stopped s = returns (stop s)
undergo detached_exchange s = returns (delayed_exchange s)
undergo detached_join s = returns (delayed_join s)
undergo ended s = returns (listen_ended s)

unfoldable pub undergo_all : List Happening → HttpServer → Outcome HttpServer
undergo_all [] s = returns s
undergo_all (h ∷ hs) s = undergo h s >>= undergo_all hs

-- The phases of a server: no thread; a thread that listens; one that a detached thread is about to join; one that nobody
-- will join, since `listen` came back by itself; and the end of the process.
pub data Phase : Type 0 where
  off on joining stuck clashed : Phase

unfoldable pub follow : Happening → Phase → Phase
follow started off = on
follow started on = on
follow started joining = clashed
follow started stuck = clashed
follow stopped on = off
follow detached_exchange on = joining
follow detached_join joining = off
follow ended on = stuck
follow _ phase = phase

unfoldable pub follow_all : List Happening → Phase → Phase
follow_all [] phase = phase
follow_all (h ∷ hs) phase = follow_all hs (follow h phase)

-- How the destructor ends in a phase: with no thread left behind, or with the process.
abbrev pub Ends : Phase → Outcome HttpServer → Type 0
Ends off o = (t : HttpServer) × (o ≡ returns t) × (t.running ≡ false) × (t.joinable ≡ false)
Ends on o = (t : HttpServer) × (o ≡ returns t) × (t.running ≡ false) × (t.joinable ≡ false)
Ends joining o = o ≡ terminates
Ends stuck o = o ≡ terminates
Ends clashed o = o ≡ terminates

-- The flag and the thread agree.
abbrev pub IsOrderly : HttpServer → Type 0
IsOrderly s = s.running ≡ s.joinable

-- The server of a phase.
abbrev in_phase : (running joinable stopping : Bool) → ℕ → HttpServer
in_phase running joinable stopping pending = record {
  running = running;
  joinable = joinable;
  shutdown_requested = false;
  stopping = stopping;
  pending_stops = pending;
}

abbrev server : Phase → ℕ → Outcome HttpServer
server off pending = returns (in_phase false false false pending)
server on pending = returns (in_phase true true false pending)
server joining pending = returns (in_phase false true true pending)
server stuck pending = returns (in_phase false true false pending)
server clashed pending = terminates

-- The phase says how the history goes on and ends.
abbrev Goes : List Happening → Phase → Type 0
Goes hs phase =
    (pending : ℕ) → Ends (follow_all hs phase) (server phase pending >>= undergo_all hs >>= destroy)

ends : (phase : Phase) → Goes [] phase
unfolding undergo_all follow_all destroy stop
ends off k = (in_phase false false false k, refl, refl, refl)
ends on k = (in_phase false false false k, refl, refl, refl)
ends joining k = refl
ends stuck k = refl
ends clashed k = refl

follow-Ends : (hs : List Happening) (phase : Phase) → Goes hs phase
unfolding undergo_all follow_all undergo follow start stop delayed_exchange delayed_join
    listen_ended
follow-Ends [] phase k = ends phase k
follow-Ends (started ∷ hs) off k = follow-Ends hs on k
follow-Ends (started ∷ hs) on k = follow-Ends hs on k
follow-Ends (started ∷ hs) joining k = follow-Ends hs clashed k
follow-Ends (started ∷ hs) stuck k = follow-Ends hs clashed k
follow-Ends (stopped ∷ hs) off k = follow-Ends hs off k
follow-Ends (stopped ∷ hs) on k = follow-Ends hs off k
follow-Ends (stopped ∷ hs) joining k = follow-Ends hs joining k
follow-Ends (stopped ∷ hs) stuck k = follow-Ends hs stuck k
follow-Ends (detached_exchange ∷ hs) off k = follow-Ends hs off (k - 1)
follow-Ends (detached_exchange ∷ hs) on k = follow-Ends hs joining k
follow-Ends (detached_exchange ∷ hs) joining k = follow-Ends hs joining (k - 1)
follow-Ends (detached_exchange ∷ hs) stuck k = follow-Ends hs stuck (k - 1)
follow-Ends (detached_join ∷ hs) off k = follow-Ends hs off k
follow-Ends (detached_join ∷ hs) on k = follow-Ends hs on k
follow-Ends (detached_join ∷ hs) joining k = follow-Ends hs off (k - 1)
follow-Ends (detached_join ∷ hs) stuck k = follow-Ends hs stuck k
follow-Ends (ended ∷ hs) off k = follow-Ends hs off k
follow-Ends (ended ∷ hs) on k = follow-Ends hs stuck k
follow-Ends (ended ∷ hs) joining k = follow-Ends hs joining k
follow-Ends (ended ∷ hs) stuck k = follow-Ends hs stuck k
follow-Ends (started ∷ hs) clashed k = follow-Ends hs clashed k
follow-Ends (stopped ∷ hs) clashed k = follow-Ends hs clashed k
follow-Ends (detached_exchange ∷ hs) clashed k = follow-Ends hs clashed k
follow-Ends (detached_join ∷ hs) clashed k = follow-Ends hs clashed k
follow-Ends (ended ∷ hs) clashed k = follow-Ends hs clashed k

-- Whatever starts, stops and steps of detached threads befall a new server, in whatever order, and whenever `listen` comes
-- back, the process ends, at the latest in the server's destructor, exactly if a start came or the destructor comes between
-- a detached thread's exchange and its `join` or after a `listen` that came back by itself. Else the destructor leaves no
-- thread behind.
pub undergo_all-destroy :
    (hs : List Happening) → Ends (follow_all hs off) (undergo_all hs new_server >>= destroy)
undergo_all-destroy hs = follow-Ends hs off 0

-- If `listen` fails after a start, the destructor ends the process, and so does another start: the thread is never joined,
-- since `stop` returns at once.
pub listen_ended-start :
    (s t : HttpServer)
    → IsOrderly s
    → start s ≡ returns t
    → (stop (listen_ended t) ≡ listen_ended t)
      × (destroy (listen_ended t) ≡ terminates)
      × (start (listen_ended t) ≡ terminates)
unfolding start stop destroy listen_ended
listen_ended-start s t o e = ground (arith, o, e)
