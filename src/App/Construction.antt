-- ===== src/App/Construction.antt =====
-- src/pgw_server_app.cpp: what the constructor of the application leaves, when it returns.
use pgw.Base.{
  ◌≡◌, arith, List, [], ◌∷◌, ◌++◌, Text, Option, none, some, Outcome, returns, throws, terminates,
  count, IsDistinct, set_insert, count-set_insert, bind-returns, Option-cases, inl, inr, Bool-cases,
}
use pgw.Json.{JsonLibrary}
use pgw.Logger.{Spdlog, Logging, register_logger}
use pgw.Config.{UdpConfig, HttpConfig, SessionConfig, load_json, load_configs}
use pgw.Cdr.{Writer, new_writer, make_writer, cdr_logger}
use pgw.App.{
  insert_strings, blacklist_array, insert_array, insert_loaded, load_blacklist, Components,
  setup_logging, init_components, construct,
}

make_writer-new_writer :
    (spdlog : Spdlog) (file : Text) (l m : Logging) (w : Writer)
    → make_writer spdlog file l ≡ returns (w, m)
    → w ≡ new_writer
unfolding make_writer
make_writer-new_writer spdlog file l m w h = elim (Bool-cases (spdlog.opens file)) [
  | inl o ↦
      let opened = rw (o, make_writer) at h in
      let (n, e, q) =
        bind-returns
          (register_logger (cdr_logger l) (record l { sinks = l.sinks ++ spdlog.initial ∷ [] })) _
          (w, m) opened in
      cc q
  | inr o ↦ absurd (ground (arith, o, h))
]

module _ (json : JsonLibrary) where
  -- The parts are those of `init_components`, with a new writer, of some configuration.
  pub construct-made :
      (spdlog : Spdlog) (l : Logging) (file : Option Text) (c : Components)
      → construct json spdlog l file ≡ returns c
      → (u : UdpConfig) × (v : HttpConfig) × (w : SessionConfig) × (init_components new_writer u v w
            (load_blacklist json file [])
          ≡ c)
  unfolding construct
  construct-made spdlog l file c h =
      let ((u, v, w), e, q) = bind-returns (load_configs json file) _ c h in
      let (logging, d, r) = bind-returns (setup_logging spdlog u v l) _ c q in
      let ((writer, registered), o, z) =
        bind-returns (make_writer spdlog w.cdr_file logging) _ c r in
      let made : init_components writer u v w (load_blacklist json file []) ≡ c = cc z in
      let fresh = make_writer-new_writer spdlog w.cdr_file logging registered writer o in
      (u, v, w, cc (made, fresh))

  insert_strings-IsDistinct :
      (values : List json.Value) (blacklist : List Text)
      → IsDistinct blacklist
      → IsDistinct (insert_strings json values blacklist)
  unfolding insert_strings
  insert_strings-IsDistinct [] blacklist d = d
  insert_strings-IsDistinct (v ∷ rest) blacklist d = elim (Option-cases (json.as_string v)) [
    | inl e ↦ rw (e, insert_strings) (insert_strings-IsDistinct rest blacklist d)
    | inr (imsi, e) ↦
        rw (e, insert_strings)
          (insert_strings-IsDistinct rest (set_insert imsi blacklist)
            (λ k. count-set_insert imsi k blacklist d))
  ]

  insert_array-IsDistinct :
      (values : Option (List json.Value)) → IsDistinct (insert_array json values [])
  unfolding insert_array count
  insert_array-IsDistinct none = λ k. omega arith
  insert_array-IsDistinct (some values) = insert_strings-IsDistinct values [] (λ k. omega arith)

  insert_loaded-IsDistinct : (j : Outcome json.Value) → IsDistinct (insert_loaded json j [])
  unfolding insert_loaded count
  insert_loaded-IsDistinct (returns j) = insert_array-IsDistinct (blacklist_array json j)
  insert_loaded-IsDistinct (throws what) = λ k. omega arith
  insert_loaded-IsDistinct terminates = λ k. omega arith

  -- No text is loaded twice.
  pub load_blacklist-IsDistinct : (file : Option Text) → IsDistinct (load_blacklist json file [])
  unfolding load_blacklist
  load_blacklist-IsDistinct file = insert_loaded-IsDistinct (load_json json file)
