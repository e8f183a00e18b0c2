-- ===== src/Json.antt =====
-- The JSON library (nlohmann::json) as src/http_server.cpp, src/pgw_server_app.cpp and the configuration use it:
-- an interface, whose implementation is not part of the repository.
use pgw.Base.{ℕ, List, Text, Option}

-- `parse` throws `parse_error` at `none`; `member_of` is `contains` and `operator[]`, and `at`, which throws at
-- `none`; the others are the tests `is_string`, `is_array` and the readings of a value that passes them. A number
-- is read at a width, and throws at `none`.
pub record JsonLibrary : Type 1 where
  pub Value : Type 0
  pub parse : Text → Option Value
  pub member_of : Text → Value → Option Value
  pub as_string : Value → Option Text
  pub as_array : Value → Option (List Value)
  pub as_unsigned : ℕ → Value → Option ℕ
