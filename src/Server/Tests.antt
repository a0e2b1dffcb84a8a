-- ===== src/Server/Tests.antt =====
-- The server's theorems at concrete inputs.
use kv_store_v.Base.{
  ℕ, ◌≡◌, refl, [], ◌∷◌, Option, none, Bytes, codes, if◌then◌else◌, equal, to_string, Result, ok,
  throw, invalid_argument,
}
use kv_store_v.Base.Integers.{ℤ, pos, negsuc}
use kv_store_v.Server.{Options, default_options}
use kv_store_v.Server.Startup.{Environment, service_config, start, main}
use kv_store_v.Server.Overrides.{Holds, IsServed, main-IsServed}
use kv_store_v.Server.Arguments.{command_line, given, main-command_line}

-- It reads three numbers.
stoi : Bytes → Result (ℤ × ℕ)
unfolding equal
stoi value =
    if equal value (codes "80")
    then ok (pos 80, 2)
    else if equal value (codes "4")
    then ok (pos 4, 1)
    else if equal value (codes "-1")
    then ok (negsuc 0, 2)
    else throw invalid_argument

abbrev env : Environment
env = record {
  bind_ip = codes "10.0.0.1";
  port = codes "80";
  processor_group = [];
  current_location = codes "westus";
  configuration_store = codes "store";
  configuration_container = codes "container";
  domain_suffix = [];
}

abbrev no_files : Bytes → Option Bytes
no_files path = none

main-IsServed_example :
    Holds (IsServed stoi env no_files) (main stoi env no_files (codes "--threads" ∷ codes "4" ∷ []))
main-IsServed_example = main-IsServed stoi env no_files (codes "--threads" ∷ codes "4" ∷ [])

abbrev options : Options
options = record default_options { port = pos 80; num_threads = pos 4; host = codes "::" }

main-command_line_example :
    main stoi env no_files (command_line options)
    ≡ start stoi env no_files
        (given options)
        (service_config stoi env no_files (codes "service-config.json"))
unfolding stoi to_string
main-command_line_example = main-command_line stoi env no_files options refl refl refl
