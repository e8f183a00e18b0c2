-- ===== src/Http/Handlers.antt =====
-- src/http_server.cpp: `handle_check_subscriber` and `handle_stop`.
use pgw.Base.{
  ◌≡◌, refl, ap, ◌∙◌, Bool-cases, Option-cases, inl, inr, ◌↔◌, arith, true, List, Text, codes,
  Option, none, some, returns, terminates, find,
}
use pgw.Json.{JsonLibrary}
use pgw.Sessions.State.{Manager, Session}
use pgw.Sessions.Requests.{session_exists}
use pgw.Sessions.Shutdown.{start_graceful_shutdown}
use pgw.Sessions.Restart.{start_graceful_shutdown-again}
use pgw.Sessions.Interleaving.{Run}
use pgw.Http.{
  HttpResponse, HttpServer, text_plain, imsi_field, check_field, check_parsed,
  handle_check_subscriber, handle_stop,
}

pub exists-find :
    (imsi : Text) (m : Manager)
    → session_exists imsi m ≡ true
    → (s : Session) × (find imsi m.sessions ≡ some s)
unfolding session_exists
exists-find imsi m h = elim (Option-cases (find imsi m.sessions)) [
  | inl e ↦ ground (arith, e)
  | inr (s, e) ↦ (s, e)
]

field-active :
    (field : Option Text) (m : Manager)
    → check_field field m ≡ text_plain 200 (codes "active")
    → (imsi : Text) × (field ≡ some imsi) × (s : Session) × (find imsi m.sessions ≡ some s)
unfolding check_field
field-active none m h = cc
field-active (some imsi) m h = elim (Bool-cases (session_exists imsi m)) [
  | inl e ↦ let (t, found) = exists-find imsi m e in (imsi, refl, t, found)
  | inr e ↦ ground (arith, e)
]

field-answer :
    (imsi : Text) (m : Manager) (s : Session)
    → find imsi m.sessions ≡ some s
    → check_field (some imsi) m ≡ text_plain 200 (codes "active")
unfolding check_field session_exists
field-answer imsi m s e = ground (arith, e)

module _ (json : JsonLibrary) where
  -- The request names a subscriber.
  abbrev pub IsNamed : Text → Text → Type 0
  IsNamed body imsi =
      (value : json.Value) × (json.parse body ≡ some value) × (imsi_field json value ≡ some imsi)

  parsed-active :
      (parsed : Option json.Value) (m : Manager)
      → check_parsed json parsed m ≡ text_plain 200 (codes "active")
      → (value : json.Value) × (parsed ≡ some value)
        × (imsi : Text) × (imsi_field json value ≡ some imsi)
        × (s : Session) × (find imsi m.sessions ≡ some s)
  unfolding check_parsed
  parsed-active none m h = cc
  parsed-active (some value) m h =
      let (imsi, named, t, found) = field-active (imsi_field json value) m h in
      (value, refl, imsi, named, t, found)

  -- "active" is the answer exactly if the body is JSON with a string "imsi" for which a session is open.
  pub handle_check_subscriber-active :
      (body : Text) (m : Manager)
      → (handle_check_subscriber json body m ≡ text_plain 200 (codes "active"))
        ↔ ((imsi : Text) × IsNamed body imsi × (s : Session) × (find imsi m.sessions ≡ some s))
  unfolding handle_check_subscriber check_parsed
  handle_check_subscriber-active body m = (
    (λ h.
        let (value, e, imsi, named, t, found) = parsed-active (json.parse body) m h in
        (imsi, (value, e, named), t, found)),
    (λ (imsi, (value, e, named), t, found).
        ap (λ p. check_parsed json p m) e
        ∙ ap (λ f. check_field f m) named
        ∙ field-answer imsi m t found),
  )

handle_stop-starts :
    (s : HttpServer) (m n : Manager) (t : HttpServer) (answer : HttpResponse)
    → handle_stop s m ≡ returns (t, n, answer)
    → start_graceful_shutdown m ≡ returns n
unfolding handle_stop start_graceful_shutdown
handle_stop-starts s m n t answer h = ground (arith, h)

-- A second `/stop` ends the process, whatever sections of other threads came between, as long as the destructor of the
-- manager did not run; the `catch` clause does not help.
pub handle_stop-handle_stop :
    (s : HttpServer) (m n : Manager) (t : HttpServer) (answer : HttpResponse) (later : HttpServer)
    → (gone : List Text) (o : Manager) → handle_stop s m ≡ returns (t, n, answer)
    → Run n gone o
    → o.running ≡ true
    → handle_stop later o ≡ terminates
unfolding handle_stop
handle_stop-handle_stop s m n t answer later gone o h run up =
    rw (start_graceful_shutdown-again m n gone o (handle_stop-starts s m n t answer h) run up)
