-- ===== src/Config/Tests.antt =====
-- The configuration's theorems at concrete inputs.
use kv_store_v.Base.{◌≡◌, ◌++◌, [], refl, arith, codes, some, length, find}
use kv_store_v.Config.Json.{quoted}
use kv_store_v.Config.File.{extract_string_value, file_config_provider, load, Agrees, load-Agrees}
use kv_store_v.Config.File.Field.{extract_string_value-field}

load-Agrees_example :
    Agrees (load (some (codes "{\"currentLocation\": \"x\"}")) (file_config_provider []))
load-Agrees_example =
    load-Agrees (some (codes "{\"currentLocation\": \"x\"}")) (file_config_provider [])

first :
    find
      (codes "{"
        ++ (quoted (codes "kind") ++ (codes ":\"" ++ (codes "v1" ++ (codes "\"" ++ codes "}")))))
      (quoted (codes "kind"))
      0
    ≡ length (codes "{")
unfolding find
first = refl

extract_string_value-field_example :
    extract_string_value
      (codes "{"
        ++ (quoted (codes "kind") ++ (codes ":\"" ++ (codes "v1" ++ (codes "\"" ++ codes "}")))))
      (codes "kind")
    ≡ some (codes "v1")
extract_string_value-field_example =
    extract_string_value-field (codes "{") (codes "kind") (codes "v1") (codes "}") first
      (ground arith) (ground arith) (omega arith)
