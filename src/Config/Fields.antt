-- ===== src/Config/Fields.antt =====
-- src/server_config.h and config_loader.h: what a configuration that was read says of the file.
use pgw.Base.{
  ℕ, ◌≡◌, subst, ◌∙◌, ap, arith, Text, codes, Option, some, Option-cases, inl, inr, Outcome,
  returns, bind-returns, bind3-returns, bind4-returns,
}
use pgw.Json.{JsonLibrary}
use pgw.Config.{
  UdpConfig, HttpConfig, SessionConfig, at, get_text, get_unsigned, text_at, unsigned_at,
  udp_from_json, http_from_json, session_from_json, load_json, load_config, load_configs,
}

module _ (json : JsonLibrary) where
  -- The field is there, and holds the string or the number.
  abbrev pub HasText : Text → json.Value → Text → Type 0
  HasText key j t = (v : json.Value) × (json.member_of key j ≡ some v) × (json.as_string v ≡ some t)

  abbrev pub HasUnsigned : ℕ → Text → json.Value → ℕ → Type 0
  HasUnsigned width key j n =
      (v : json.Value) × (json.member_of key j ≡ some v) × (json.as_unsigned width v ≡ some n)

  at-returns :
      (key : Text) (j v : json.Value) → at json key j ≡ returns v → json.member_of key j ≡ some v
  unfolding at
  at-returns key j v h = elim (Option-cases (json.member_of key j)) [
    | inl e ↦ ground (arith, e)
    | inr (w, e) ↦ ground (arith, e)
  ]

  get_text-returns :
      (key : Text) (v : json.Value) (t : Text)
      → get_text json key v ≡ returns t
      → json.as_string v ≡ some t
  unfolding get_text
  get_text-returns key v t h = elim (Option-cases (json.as_string v)) [
    | inl e ↦ ground (arith, e)
    | inr (w, e) ↦ ground (arith, e)
  ]

  get_unsigned-returns :
      (width : ℕ) (key : Text) (v : json.Value) (n : ℕ)
      → get_unsigned json width key v ≡ returns n
      → json.as_unsigned width v ≡ some n
  unfolding get_unsigned
  get_unsigned-returns width key v n h = elim (Option-cases (json.as_unsigned width v)) [
    | inl e ↦ ground (arith, e)
    | inr (w, e) ↦ ground (arith, e)
  ]

  text_at-returns :
      (key : Text) (j : json.Value) (t : Text) → text_at json key j ≡ returns t → HasText key j t
  text_at-returns key j t h =
      let (v, e, g) = bind-returns (at json key j) (get_text json key) t h in
      (v, at-returns key j v e, get_text-returns key v t g)

  unsigned_at-returns :
      (width : ℕ) (key : Text) (j : json.Value) (n : ℕ)
      → unsigned_at json width key j ≡ returns n
      → HasUnsigned width key j n
  unsigned_at-returns width key j n h =
      let (v, e, g) = bind-returns (at json key j) (get_unsigned json width key) n h in
      (v, at-returns key j v e, get_unsigned-returns width key v n g)

  pub record IsSession (j : json.Value) (cfg : SessionConfig) : Type 0 where
    pub timeout : HasUnsigned 16 (codes "session_timeout_sec") j cfg.session_timeout_sec
    pub cdr : HasText (codes "cdr_file") j cfg.cdr_file
    pub threads : HasUnsigned 16 (codes "threads_count") j cfg.threads_count
    pub rate : HasUnsigned 64 (codes "shutdown_rate") j cfg.shutdown_rate

  IsSession-fields :
      (j : json.Value) (cfg : SessionConfig)
      → session_from_json json j ≡ returns cfg
      → IsSession j cfg
  unfolding session_from_json
  IsSession-fields j cfg h =
      let (t, c, n, r, et, ec, en, er, q) =
        bind4-returns (unsigned_at json 16 (codes "session_timeout_sec") j)
          (text_at json (codes "cdr_file") j) (unsigned_at json 16 (codes "threads_count") j)
          (unsigned_at json 64 (codes "shutdown_rate") j)
          (λ t c n r. record {
            session_timeout_sec = t;
            cdr_file = c;
            threads_count = n;
            shutdown_rate = r;
          })
          cfg h in
      record {
        timeout =
            unsigned_at-returns 16 _ j cfg.session_timeout_sec
              (et ∙ ap (λ s. returns s.session_timeout_sec) q);
        cdr = text_at-returns _ j cfg.cdr_file (ec ∙ ap (λ s. returns s.cdr_file) q);
        threads =
            unsigned_at-returns 16 _ j cfg.threads_count (en ∙ ap (λ s. returns s.threads_count) q);
        rate =
            unsigned_at-returns 64 _ j cfg.shutdown_rate (er ∙ ap (λ s. returns s.shutdown_rate) q);
      }

  pub record IsUdp (j : json.Value) (cfg : UdpConfig) : Type 0 where
    pub ip : HasText (codes "udp_ip") j cfg.ip
    pub port : HasUnsigned 16 (codes "udp_port") j cfg.port
    pub log_level : HasText (codes "udp_log_level") j cfg.log_level
    pub log_file : HasText (codes "udp_log_file") j cfg.log_file

  IsUdp-fields :
      (j : json.Value) (cfg : UdpConfig) → udp_from_json json j ≡ returns cfg → IsUdp j cfg
  unfolding udp_from_json
  IsUdp-fields j cfg h =
      let (i, p, l, f, ei, ep, el, ef, q) =
        bind4-returns (text_at json (codes "udp_ip") j) (unsigned_at json 16 (codes "udp_port") j)
          (text_at json (codes "udp_log_level") j) (text_at json (codes "udp_log_file") j)
          (λ i p l f. record { ip = i; port = p; log_level = l; log_file = f }) cfg h in
      record {
        ip = text_at-returns _ j cfg.ip (ei ∙ ap (λ s. returns s.ip) q);
        port = unsigned_at-returns 16 _ j cfg.port (ep ∙ ap (λ s. returns s.port) q);
        log_level = text_at-returns _ j cfg.log_level (el ∙ ap (λ s. returns s.log_level) q);
        log_file = text_at-returns _ j cfg.log_file (ef ∙ ap (λ s. returns s.log_file) q);
      }

  pub record IsHttp (j : json.Value) (cfg : HttpConfig) : Type 0 where
    pub port : HasUnsigned 16 (codes "http_port") j cfg.port
    pub log_level : HasText (codes "http_log_level") j cfg.log_level
    pub log_file : HasText (codes "http_log_file") j cfg.log_file

  IsHttp-fields :
      (j : json.Value) (cfg : HttpConfig) → http_from_json json j ≡ returns cfg → IsHttp j cfg
  unfolding http_from_json
  IsHttp-fields j cfg h =
      let (p, l, f, ep, el, ef, q) =
        bind3-returns (unsigned_at json 16 (codes "http_port") j)
          (text_at json (codes "http_log_level") j) (text_at json (codes "http_log_file") j)
          (λ p l f. record { port = p; log_level = l; log_file = f }) cfg h in
      record {
        port = unsigned_at-returns 16 _ j cfg.port (ep ∙ ap (λ s. returns s.port) q);
        log_level = text_at-returns _ j cfg.log_level (el ∙ ap (λ s. returns s.log_level) q);
        log_file = text_at-returns _ j cfg.log_file (ef ∙ ap (λ s. returns s.log_file) q);
      }

  load_config-returns :
      {A : Type 0} (from_json : json.Value → Outcome A) (file : Option Text) (cfg : A)
      → load_config json from_json file ≡ returns cfg
      → (j : json.Value) × (load_json json file ≡ returns j) × (from_json j ≡ returns cfg)
  unfolding load_config
  load_config-returns from_json file cfg h = bind-returns (load_json json file) from_json cfg h

  -- The configurations are read only from a JSON file in which each of their eleven fields stands, with the right type, and
  -- they hold what the fields do: no default of a record is ever used.
  pub load_configs-fields :
      (file : Option Text) (u : UdpConfig) (h : HttpConfig) (s : SessionConfig)
      → load_configs json file ≡ returns (u, h, s)
      → (j : json.Value) × (load_json json file ≡ returns j)
        × IsUdp j u
        × IsHttp j h
        × IsSession j s
  unfolding load_configs
  load_configs-fields file u h s e =
      let (v, g, t, ev, eg, et, q) =
        bind3-returns (load_config json (udp_from_json json) file)
          (load_config json (http_from_json json) file)
          (load_config json (session_from_json json) file) (λ v g t. (v, g, t)) (u, h, s) e in
      let (j, ej, fu) =
        load_config-returns (udp_from_json json) file u (ev ∙ ap (λ p. returns p.0) q) in
      let (k, ek, fh) =
        load_config-returns (http_from_json json) file h (eg ∙ ap (λ p. returns p.1) q) in
      let (l, el, fs) =
        load_config-returns (session_from_json json) file s (et ∙ ap (λ p. returns p.2) q) in
      let same_http : k ≡ j = cc (ek, ej) in
      let same_session : l ≡ j = cc (el, ej) in
      (
        j,
        ej,
        IsUdp-fields j u fu,
        subst (λ x. IsHttp x h) same_http (IsHttp-fields k h fh),
        subst (λ x. IsSession x s) same_session (IsSession-fields l s fs),
      )
