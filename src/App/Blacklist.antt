-- ===== src/App/Blacklist.antt =====
-- src/pgw_server_app.cpp: which subscribers the application refuses.
use pgw.Base.{
  ◌≡◌, refl, sym, subst, ap, ◌↔◌, ◌⊎◌, inl, inr, arith, true, List, [], ◌∷◌, Text, Option, none,
  some, Option-cases, Outcome, returns, throws, terminates, member, set_insert, member-set_insert,
}
use pgw.Json.{JsonLibrary}
use pgw.Logger.{Spdlog, Logging}
use pgw.Config.{load_json}
use pgw.Sessions.State.{init}
use pgw.App.{
  insert_strings, blacklist_array, insert_array, insert_loaded, load_blacklist, Components,
  init_components, construct,
}
use pgw.App.Construction.{construct-made}

module _ (json : JsonLibrary) where
  -- A value of the list reads as the text.
  abbrev pub IsAmong : Text → List json.Value → Type 0
  IsAmong t [] = ⊥
  IsAmong t (v ∷ rest) = (json.as_string v ≡ some t) ⊎ IsAmong t rest

  member-insert_strings :
      (t : Text) (values : List json.Value) (blacklist : List Text)
      → (member t (insert_strings json values blacklist) ≡ true)
        ↔ (IsAmong t values ⊎ (member t blacklist ≡ true))
  unfolding insert_strings
  member-insert_strings t [] blacklist = ground arith
  member-insert_strings t (v ∷ rest) blacklist = elim (Option-cases (json.as_string v)) [
    | inl e ↦ ground (arith, e, member-insert_strings t rest blacklist)
    | inr (imsi, e) ↦ ground (
      arith,
      e,
      member-insert_strings t rest (set_insert imsi blacklist),
      member-set_insert imsi t blacklist,
    )
  ]

  -- The file is JSON with an array "blacklist" among whose strings the text is.
  abbrev pub IsListed : Text → Option Text → Type 0
  IsListed t file =
      (j : json.Value) × (values : List json.Value) × (load_json json file ≡ returns j)
      × (blacklist_array json j ≡ some values)
      × IsAmong t values

  insert_array-IsListed :
      (t : Text) (values : Option (List json.Value))
      → (member t (insert_array json values []) ≡ true)
        ↔ ((vs : List json.Value) × (values ≡ some vs) × IsAmong t vs)
  unfolding insert_array member
  insert_array-IsListed t none = (cc, (λ (vs, e, a). cc e))
  insert_array-IsListed t (some values) = (
    (λ h. elim ((member-insert_strings t values []).0 h) [
      | inl a ↦ (values, refl, a)
      | inr b ↦ cc b
    ]),
    (λ (vs, e, a).
        let same : vs ≡ values = cc e in
        (member-insert_strings t values []).1 (inl (subst (IsAmong t) same a))),
  )

  loaded-IsListed :
      (t : Text) (file : Outcome json.Value)
      → (member t (insert_loaded json file []) ≡ true) ↔ (
          (j : json.Value) × (vs : List json.Value) × (file ≡ returns j)
          × (blacklist_array json j ≡ some vs)
          × IsAmong t vs)
  unfolding insert_loaded member
  loaded-IsListed t (returns j) = (
    (λ h.
        let (vs, e, a) = (insert_array-IsListed t (blacklist_array json j)).0 h in
        (j, vs, refl, e, a)),
    (λ (k, vs, q, e, a). (insert_array-IsListed t (blacklist_array json j)).1 (vs, cc (q, e), a)),
  )
  loaded-IsListed t (throws w) = (cc, (λ (k, vs, q, e, a). cc q))
  loaded-IsListed t terminates = (cc, (λ (k, vs, q, e, a). cc q))

  -- The manager that the constructor makes refuses exactly the texts that are strings in the array "blacklist" of the file.
  pub construct-blacklist :
      (spdlog : Spdlog) (l : Logging) (file : Option Text) (c : Components) (t : Text)
      → construct json spdlog l file ≡ returns c
      → (member t c.session_manager.blacklist ≡ true) ↔ IsListed t file
  unfolding init_components load_blacklist init
  construct-blacklist spdlog l file c t h =
      let (u, v, w, made) = construct-made json spdlog l file c h in
      let same : c.session_manager.blacklist ≡ insert_loaded json (load_json json file) [] =
        ap (λ d. d.session_manager.blacklist) (sym made) in
      subst (λ b. (member t b ≡ true) ↔ IsListed t file) (sym same)
        (loaded-IsListed t (load_json json file))
