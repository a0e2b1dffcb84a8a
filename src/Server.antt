-- ===== src/Server.antt =====
-- KVService/src/server.cpp: the command line of the service, the environment's overrides, and what main starts.
-- std::stoi is an argument: the number and the count of characters it read, or its exception. Console
-- output, the signal handlers, the NUMA calls and RunServer itself are left out.
pub mod Startup
pub mod Arguments
pub mod Overrides
mod Tests
use kv_store_v.Base.{
  ℕ, ◌+◌, Bool, true, false, not, ◌&&◌, ◌||◌, List, [], ◌∷◌, ◌++◌, Option, none, some,
  if◌then◌else◌, leb, ltb, ◌==◌, Bytes, codes, empty, equal, length, Result, ok, throw, Exn,
}
use kv_store_v.Base.Integers.{ℤ, pos, negsuc, int_text, is_natural}
use kv_store_v.Config.{ServiceConfig, default_config, is_valid}
use kv_store_v.Config.File.{file_config_provider, load}

pub data LogLevel : Type 0 where
  error_level information_level verbose_level : LogLevel

pub data HttpTransportProtocol : Type 0 where
  winhttp libcurl : HttpTransportProtocol

-- The variables that the arguments set.
pub record Options : Type 0 where
  pub host : Bytes
  pub port : ℤ
  pub num_threads : ℤ
  pub log_level : LogLevel
  pub transport : HttpTransportProtocol
  pub enable_sdk_logging : Bool
  pub enable_multi_nic : Bool
  pub enable_numa_spread : Bool
  pub processor_group : ℤ
  pub enable_metrics_logging : Bool
  pub metrics_endpoint : Bytes
  pub instrumentation_key : Bytes
  pub config_file_path : Bytes
  pub host_explicit : Bool
  pub port_explicit : Bool
  pub processor_group_explicit : Bool

abbrev pub default_options : Options
default_options = record {
  host = codes "0.0.0.0";
  port = pos 50051;
  num_threads = pos 0;
  log_level = information_level;
  transport = libcurl;
  enable_sdk_logging = false;
  enable_multi_nic = true;
  enable_numa_spread = true;
  processor_group = negsuc 0;
  enable_metrics_logging = true;
  metrics_endpoint = [];
  instrumentation_key = [];
  config_file_path = codes "service-config.json";
  host_explicit = false;
  port_explicit = false;
  processor_group_explicit = false;
}

-- main goes on, returns a status, or lets an exception out.
pub data Next {ℓ} (A : Type ℓ) : Type ℓ where
  go : A → Next A
  leave : ℕ → Next A
  crash : Exn → Next A

-- The tests of the loop, in order. The options of `Valued` take the next argument.
pub data Valued : Type 0 where
  config_option port_option host_option threads_option log_level_option transport_option : Valued
  processor_group_option metrics_endpoint_option instrumentation_key_option : Valued

pub data Kind : Type 0 where
  help unknown : Kind
  flag : (Options → Options) → Kind
  valued : Valued → Kind

unfoldable pub kind : Bytes → Kind
kind arg =
    if equal arg (codes "--help") || equal arg (codes "-h")
    then help
    else if equal arg (codes "--config")
    then valued config_option
    else if equal arg (codes "--port")
    then valued port_option
    else if equal arg (codes "--host")
    then valued host_option
    else if equal arg (codes "--threads")
    then valued threads_option
    else if equal arg (codes "--log-level")
    then valued log_level_option
    else if equal arg (codes "--transport")
    then valued transport_option
    else if equal arg (codes "--enable-sdk-logging")
    then flag (λ o. record o { enable_sdk_logging = true })
    else if equal arg (codes "--disable-multi-nic")
    then flag (λ o. record o { enable_multi_nic = false })
    else if equal arg (codes "--disable-numa-spread")
    then flag (λ o. record o { enable_numa_spread = false })
    else if equal arg (codes "--processor-group")
    then valued processor_group_option
    else if equal arg (codes "--disable-metrics")
    then flag (λ o. record o { enable_metrics_logging = false })
    else if equal arg (codes "--metrics-endpoint")
    then valued metrics_endpoint_option
    else if equal arg (codes "--instrumentation-key")
    then valued instrumentation_key_option
    else unknown

abbrev pub number : Result (ℤ × ℕ) → (ℤ → Options) → Next Options
number (ok (n, read)) set = go (set n)
number (throw e) set = crash e

unfoldable pub set_log_level : Bytes → Options → Next Options
set_log_level level o =
    if equal level (codes "error")
    then go (record o { log_level = error_level })
    else if equal level (codes "info")
    then go (record o { log_level = information_level })
    else if equal level (codes "verbose")
    then go (record o { log_level = verbose_level })
    else leave 1

unfoldable pub set_transport : Bytes → Options → Next Options
set_transport name o =
    if equal name (codes "winhttp")
    then go (record o { transport = winhttp })
    else if equal name (codes "libcurl")
    then go (record o { transport = libcurl })
    else leave 1

module _ (stoi : Bytes → Result (ℤ × ℕ)) where
  unfoldable pub set_value : Valued → Bytes → Options → Next Options
  set_value config_option value o = go (record o { config_file_path = value })
  set_value port_option value o =
      number (stoi value) (λ n. record o { port = n; port_explicit = true })
  set_value host_option value o = go (record o { host = value; host_explicit = true })
  set_value threads_option value o = number (stoi value) (λ n. record o { num_threads = n })
  set_value log_level_option value o = set_log_level value o
  set_value transport_option value o = set_transport value o
  set_value processor_group_option value o = number (stoi value) (λ n. record o {
    processor_group = n;
    enable_numa_spread = false;
    processor_group_explicit = true;
  })
  set_value metrics_endpoint_option value o = go (record o { metrics_endpoint = value })
  set_value instrumentation_key_option value o = go (record o { instrumentation_key = value })

  -- The loop over the arguments; an option whose value is still to come waits. Without a value it is unknown.
  unfoldable pub parse_args : List Bytes → Option Valued → Options → Next Options
  parse_args [] none o = go o
  parse_args [] (some option) o = leave 1
  parse_args (arg ∷ rest) none o = elim (kind arg) [
    | help ↦ leave 0
    | unknown ↦ leave 1
    | flag set ↦ parse_args rest none (set o)
    | valued option ↦ parse_args rest (some option) o
  ]
  parse_args (value ∷ rest) (some option) o = elim (set_value option value o) [
    | go o' ↦ parse_args rest none o'
    | leave status ↦ leave status
    | crash e ↦ crash e
  ]

  abbrev pub whole_number : Bytes → Result (ℤ × ℕ) → Option ℤ
  whole_number value (ok (n, read)) = if read == length value then some n else none
  whole_number value (throw e) = none

  unfoldable pub try_parse_int : Bytes → Option ℤ
  try_parse_int value = if empty value then none else whole_number value (stoi value)
