-- ===== src/Config/Tests.antt =====
-- src/server_config.h: the theorems at inputs. The JSON library here has one value, an object of itself.
use pgw.Base.{◌≡◌, refl, Text, codes, none, some, returns}
use pgw.Json.{JsonLibrary}
use pgw.Config.{
  UdpConfig, HttpConfig, SessionConfig, load_configs, load_config, load_json, udp_from_json,
  http_from_json, session_from_json, at, get_text, get_unsigned,
}
use pgw.Config.Fields.{IsUdp, IsHttp, IsSession, load_configs-fields}

abbrev any : JsonLibrary
any = record {
  Value = Text;
  parse = λ body. some body;
  member_of = λ key value. some value;
  as_string = λ value. some value;
  as_array = λ value. none;
  as_unsigned = λ width value. some 1;
}

abbrev file : Text
file = codes "x"

abbrev udp_config : UdpConfig
udp_config = record { ip = file; port = 1; log_level = file; log_file = file }

abbrev http_config : HttpConfig
http_config = record { port = 1; log_level = file; log_file = file }

abbrev session_config : SessionConfig
session_config = record {
  session_timeout_sec = 1;
  cdr_file = file;
  threads_count = 1;
  shutdown_rate = 1;
}

loaded : load_configs any (some file) ≡ returns (udp_config, http_config, session_config)
unfolding load_configs load_config load_json udp_from_json http_from_json session_from_json at
    get_text get_unsigned
loaded = refl

load_configs-fields_example :
    (j : Text) × (load_json any (some file) ≡ returns j)
    × IsUdp any j udp_config
    × IsHttp any j http_config
    × IsSession any j session_config
load_configs-fields_example =
    load_configs-fields any (some file) udp_config http_config session_config loaded
