-- ===== src/Logger/Components.antt =====
-- utils/logger_config.cpp: the functions that configure loggers, their errors and what they keep.
use pgw.Base.{
  ap, ◌>>=◌, Bool-cases, bind-returns, returns, throws, codes, subst, ℕ, ◌<◌, ◌≡◌, refl, min, Bool,
  true, false, inl, inr, [], ◌∷◌, Text, Option, none, some, find, insert, count, ◌∙◌, length,
  get_or, length-set, arith,
}
use pgw.Logger.{
  get_logger, named, is_there, Spdlog, set_default_logger, register_logger, logger_exists,
  open_sink, Level, Logger, Logging, string_to_level, register_file_sink, find_existing_file_sink,
  locked, looked_up, make_sink, configure_logger, choose_sink, attach, configure_component_logger,
}
use pgw.Logger.Levels.{
  IsSound, IsFound, IsHeardIn, looked_up-IsFound, make_sink-IsSound, attach-AreHeard,
  attach-IsHeardIn,
}

-- A step that returns a sound state and the number of one of its sinks.
abbrev IsOpened : Logging × ℕ → Type 0
IsOpened r = IsSound r.0 × (r.1 < length r.0.sinks)

open_sink-IsOpened :
    (spdlog : Spdlog) (level : Level) (file : Text) (l : Logging) (r : Logging × ℕ)
    → IsSound l
    → open_sink spdlog level file l ≡ returns r
    → IsOpened r
unfolding open_sink
open_sink-IsOpened spdlog level file l r v e = elim (Bool-cases (spdlog.opens file)) [
  | inl o ↦
      let same : make_sink level file l ≡ r = ground (arith, e, o) in
      subst IsOpened same (make_sink-IsSound level file l v)
  | inr o ↦ absurd (ground (arith, e, o))
]

choose_sink-IsOpened :
    (spdlog : Spdlog) (file : Text) (l : Logging) (found : Option ℕ) (r : Logging × ℕ)
    → IsFound (l, found)
    → choose_sink spdlog file (l, found) ≡ returns r
    → IsOpened r
choose_sink-IsOpened spdlog file l none r v e =
    open_sink-IsOpened spdlog spdlog.initial file l r v.0 e
choose_sink-IsOpened spdlog file l (some sink) r v e =
    let same : (l, sink) ≡ r = cc e in subst IsOpened same (v.0, v.1 sink refl)

attach-IsSound :
    (level : Level) (l : Logging) (sink : ℕ) → IsSound l → IsSound (attach level l sink)
unfolding attach
attach-IsSound level l sink v = record {
  heard = attach-AreHeard level l sink v.heard;
  distinct = v.distinct;
  registered = λ f i e.
      omega
        (arith, v.registered f i e, length-set l.sinks sink (min (get_or l.sinks sink 0) level));
}

register_logger-IsSound :
    (g : Logger) (l m : Logging)
    → IsSound l
    → IsHeardIn l g
    → register_logger g l ≡ returns m
    → IsSound m
unfolding register_logger
register_logger-IsSound g l m v h e = elim (Bool-cases (logger_exists g.name l)) [
  | inl x ↦ absurd (ground (arith, e, x))
  | inr x ↦
      let same : record l { loggers = g ∷ l.loggers } ≡ m = ground (arith, e, x) in
      subst IsSound same
        (record { heard = (h, v.heard); registered = v.registered; distinct = v.distinct })
]

pub configure_component_logger-IsSound :
    (spdlog : Spdlog) (name file level : Text) (l m : Logging)
    → IsSound l
    → configure_component_logger spdlog name file level l ≡ returns m
    → IsSound m
unfolding configure_component_logger find_existing_file_sink
configure_component_logger-IsSound spdlog name file level l m v e =
    let r = looked_up spdlog.alive file l (find file l.registry) in
    let found = looked_up-IsFound spdlog.alive file l (find file l.registry) v refl in
    let ((n, sink), chosen, registered) = bind-returns (choose_sink spdlog file r) _ m e in
    let (w, k) = choose_sink-IsOpened spdlog file r.0 r.1 (n, sink) found chosen in
    register_logger-IsSound _ (attach (string_to_level level) n sink) m
      (attach-IsSound (string_to_level level) n sink w)
      (attach-IsHeardIn name (string_to_level level) n sink k) registered

-- Before the first call: spdlog's own default logger has no file, and is passed over.
abbrev pub nothing : Logging
nothing = record { console = 0; sinks = []; registry = []; loggers = [] }

-- After the first call: one logger, and one sink.
abbrev pub first : Text → Text → Text → Logging
first file level name = record {
  console = string_to_level level;
  sinks = string_to_level level ∷ [];
  registry = (file, 0) ∷ [];
  loggers = record { name = name; level = string_to_level level; sink = 0 } ∷ [];
}

pub first-IsSound : (file level name : Text) → IsSound (first file level name)
unfolding find count
first-IsSound file level name = record {
  heard = (record { there = omega arith; file = omega arith; screen = omega arith }, tt);
  distinct = λ k. ground arith;
  registered = λ f i e. ground (arith, e);
}

pub configure_logger-first :
    (spdlog : Spdlog) (file level name : Text)
    → spdlog.opens file ≡ true
    → configure_logger spdlog file level name nothing ≡ returns (first file level name)
unfolding configure_logger open_sink set_default_logger make_sink register_file_sink insert find
configure_logger-first spdlog file level name o = rw (o, open_sink)

configure_logger-unopened :
    (spdlog : Spdlog) (file level name : Text) (l : Logging)
    → spdlog.opens file ≡ false
    → configure_logger spdlog file level name l ≡ throws (codes "Failed opening file")
unfolding configure_logger open_sink
configure_logger-unopened spdlog file level name l o = rw (o, open_sink)

pub configure_logger-IsSound :
    (spdlog : Spdlog) (file level name : Text) (m : Logging)
    → configure_logger spdlog file level name nothing ≡ returns m
    → IsSound m
configure_logger-IsSound spdlog file level name m e = elim (Bool-cases (spdlog.opens file)) [
  | inr o ↦ cc (configure_logger-unopened spdlog file level name nothing o, e)
  | inl o ↦
      let same : first file level name ≡ m =
        cc (configure_logger-first spdlog file level name o, e) in
      subst IsSound same (first-IsSound file level name)
]

-- What a component needs of the file and of its name to get a logger.
choose_sink-returns :
    (spdlog : Spdlog) (file : Text) (l : Logging) (found : Option ℕ)
    → spdlog.opens file ≡ true
    → (r : Logging × ℕ) × (choose_sink spdlog file (l, found) ≡ returns r)
      × (r.0.loggers ≡ l.loggers)
unfolding open_sink make_sink register_file_sink
choose_sink-returns spdlog file l none o =
    (make_sink spdlog.initial file l, rw (o, open_sink), refl)
choose_sink-returns spdlog file l (some sink) o = ((l, sink), refl, refl)

looked_up-loggers :
    (alive : ℕ → Bool) (file : Text) (l : Logging) (found : Option ℕ)
    → (looked_up alive file l found).0.loggers ≡ l.loggers
looked_up-loggers alive file l none = refl
looked_up-loggers alive file l (some sink) = elim (Bool-cases (alive sink)) [
  | inl e ↦ rw (e, locked) refl
  | inr e ↦ rw (e, locked) refl
]

register_logger-free :
    (g : Logger) (l : Logging)
    → named g.name l.loggers ≡ none
    → register_logger g l ≡ returns (record l { loggers = g ∷ l.loggers })
unfolding register_logger logger_exists get_logger
register_logger-free g l free = rw (free, is_there) refl

attach-loggers :
    (level : Level) (l : Logging) (sink : ℕ) → (attach level l sink).loggers ≡ l.loggers
unfolding attach
attach-loggers level l sink = refl

-- A component whose file can be opened and whose name is new gets a logger of its level, before those that there are.
pub configure_component_logger-returns :
    (spdlog : Spdlog) (name file level : Text) (l : Logging)
    → spdlog.opens file ≡ true
    → named name l.loggers ≡ none
    → (m : Logging) × (sink : ℕ) × (configure_component_logger spdlog name file level l ≡ returns m)
      × (m.loggers ≡ record { name = name; level = string_to_level level; sink = sink } ∷ l.loggers)
unfolding configure_component_logger find_existing_file_sink
configure_component_logger-returns spdlog name file level l o free =
    let found = looked_up spdlog.alive file l (find file l.registry) in
    let ((n, sink), e, kept) = choose_sink-returns spdlog file found.0 found.1 o in
    let same : (attach (string_to_level level) n sink).loggers ≡ l.loggers =
      attach-loggers (string_to_level level) n sink
      ∙ kept
      ∙ looked_up-loggers spdlog.alive file l (find file l.registry) in
    let g : Logger = record { name = name; level = string_to_level level; sink = sink } in
    let t = attach (string_to_level level) n sink in
    (
      record t { loggers = g ∷ t.loggers },
      sink,
      ap
            (λ c. c >>= (λ r.
              register_logger (record { name = name; level = string_to_level level; sink = r.1 })
                (attach (string_to_level level) r.0 r.1)))
            e
          ∙ register_logger-free g t (ap (named name) same ∙ free),
      ap (λ gs. g ∷ gs) same,
    )
