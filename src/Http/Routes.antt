-- ===== src/Http/Routes.antt =====
-- src/http_server.cpp: the constructor's settings and `setup_routes`. Which handler a request meets is the library's choice
-- among those that were registered, and so is its answer if it meets none.
use pgw.Base.{
  if_pos, if_neg, ℕ, ◌≡◌, ◌≢◌, refl, sym, ap, ◌∙◌, List, [], ◌∷◌, ◌++◌, Text, Text_discrete, codes,
  Option, none, some, find, ite, Outcome, returns,
}
use pgw.Json.{JsonLibrary}
use pgw.Sessions.State.{Manager}
use pgw.Http.{HttpServer, HttpResponse, handle_check_subscriber, handle_stop}

pub data Route : Type 0 where
  check_subscriber stop : Route

-- What `httplib::Server` was told: times in seconds.
pub record Settings : Type 0 where
  pub posts : List (Text × Route)
  pub default_headers : List (Text × Text)
  pub read_timeout : ℕ
  pub write_timeout : ℕ
  pub idle_interval : ℕ

-- The handler before routing only logs, and passes every request on.
unfoldable pub setup_routes : Settings → Settings
setup_routes server = record server {
  posts =
      server.posts ++ (codes "/check_subscriber", check_subscriber) ∷ (codes "/stop", stop) ∷ [];
}

-- The library's server as it is made, in the constructor's body.
unfoldable pub configure : Settings → Settings
configure server = record (setup_routes server) {
  default_headers =
      (codes "Server", codes "PGW-Server/1.0")
      ∷ (codes "Content-Type", codes "application/json")
      ∷ [];
  read_timeout = 30;
  write_timeout = 30;
  idle_interval = 1;
}

-- The handlers as lambdas of the routes.
unfoldable pub handle :
    JsonLibrary
    → Route
    → Text
    → HttpServer
    → Manager
    → Outcome (HttpServer × Manager × HttpResponse)
handle json check_subscriber body s m = returns (s, m, handle_check_subscriber json body m)
handle json stop body s m = handle_stop s m

-- httplib: the handler for the path of a POST request, and the answer without one.
pub record Routing : Type 0 where
  pub dispatch : List (Text × Route) → Text → Option Route
  pub unrouted : Text → HttpResponse

-- The first handler of a literal path is the one that is chosen.
pub record IsRouting (r : Routing) : Type 0 where
  pub first : (posts : List (Text × Route)) (path : Text) → r.dispatch posts path ≡ find path posts

abbrev pub routed :
    JsonLibrary
    → Routing
    → Option Route
    → Text
    → Text
    → HttpServer
    → Manager
    → Outcome (HttpServer × Manager × HttpResponse)
routed json r none path body s m = returns (s, m, r.unrouted path)
routed json r (some route) path body s m = handle json route body s m

-- A POST request.
unfoldable pub serve :
    JsonLibrary
    → Routing
    → Settings
    → Text
    → Text
    → HttpServer
    → Manager
    → Outcome (HttpServer × Manager × HttpResponse)
serve json r server path body s m = routed json r (r.dispatch server.posts path) path body s m

-- A server of the library without handlers.
abbrev pub unconfigured : Settings
unconfigured = record {
  posts = [];
  default_headers = [];
  read_timeout = 5;
  write_timeout = 5;
  idle_interval = 0;
}

routes-found :
    (path : Text)
    → find path (configure unconfigured).posts
      ≡ ite
          (Text_discrete (codes "/check_subscriber") path)
          (some check_subscriber)
          (ite (Text_discrete (codes "/stop") path) (some stop) none)
unfolding configure setup_routes find
routes-found path = refl

-- With the routes of the constructor, a POST request to any path but "/stop" changes neither the server nor the
-- sessions: it is answered by `handle_check_subscriber` if the path is "/check_subscriber", and by the library
-- otherwise.
pub serve-unchanged :
    (json : JsonLibrary) (r : Routing) (path body : Text) (s : HttpServer) (m : Manager)
    → IsRouting r
    → path ≢ codes "/stop"
    → serve json r (configure unconfigured) path body s m
      ≡ returns (
        s,
        m,
        ite
            (Text_discrete (codes "/check_subscriber") path)
            (handle_check_subscriber json body m)
            (r.unrouted path),
      )
unfolding serve handle
serve-unchanged json r path body s m law n = elim (Text_discrete (codes "/check_subscriber") path) [
  | yes y ↦
      ap (λ o. routed json r o path body s m)
        (law.first _ path
          ∙ routes-found path
          ∙ if_pos (Text_discrete (codes "/check_subscriber") path) y _ _)
      ∙ ap (λ a. returns (s, m, a))
          (sym (if_pos (Text_discrete (codes "/check_subscriber") path) y _ _))
  | no x ↦
      ap (λ o. routed json r o path body s m)
        (law.first _ path
          ∙ routes-found path
          ∙ if_neg (Text_discrete (codes "/check_subscriber") path) x _ _
          ∙ if_neg (Text_discrete (codes "/stop") path) (λ e. n (sym e)) _ _)
      ∙ ap (λ a. returns (s, m, a))
          (sym (if_neg (Text_discrete (codes "/check_subscriber") path) x _ _))
]
