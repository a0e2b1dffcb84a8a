-- ===== src/Server/Startup.antt =====
-- KVService/src/server.cpp: the environment's overrides, the configuration, and what main starts. A variable
-- that is not set is empty; the file's content is a function of its path.
use kv_store_v.Base.{
  ℕ, Bool, true, false, not, ◌&&◌, List, ◌++◌, Option, none, some, if◌then◌else◌, leb, ltb, Bytes,
  codes, empty, Result,
}
use kv_store_v.Base.Integers.{ℤ, pos, negsuc, int_text, is_natural}
use kv_store_v.Config.{ServiceConfig, default_config, is_valid}
use kv_store_v.Config.File.{FileConfigProvider, file_config_provider, load}
use kv_store_v.Server.{Options, default_options, Next, go, leave, crash, parse_args, try_parse_int}

-- The variables KV_BIND_IP, KV_PORT, KV_PROCESSOR_GROUP, KV_CURRENT_LOCATION, KV_CONFIGURATION_STORE,
-- KV_CONFIGURATION_CONTAINER and KV_DOMAIN_SUFFIX.
pub record Environment : Type 0 where
  pub bind_ip : Bytes
  pub port : Bytes
  pub processor_group : Bytes
  pub current_location : Bytes
  pub configuration_store : Bytes
  pub configuration_container : Bytes
  pub domain_suffix : Bytes

-- The variable, unless it is empty.
abbrev pub or_default : Bytes → Bytes → Bytes
or_default variable default = if empty variable then default else variable

abbrev pub override_host : Environment → Options → Options
override_host env o =
    if o.host_explicit then o else record o { host = or_default env.bind_ip o.host }

abbrev pub in_port_range : ℤ → Bool
in_port_range (pos n) = ltb 0 n && leb n 65535
in_port_range (negsuc n) = false

abbrev pub set_port : Option ℤ → Options → Options
set_port none o = o
set_port (some n) o = if in_port_range n then record o { port = n } else o

abbrev pub set_group : Option ℤ → Options → Options
set_group none o = o
set_group (some n) o = record o {
  processor_group = n;
  enable_numa_spread = if is_natural n then false else o.enable_numa_spread;
}

abbrev pub override_config : Environment → ServiceConfig → ServiceConfig
override_config env c = record {
  current_location = or_default env.current_location c.current_location;
  configuration_store = or_default env.configuration_store c.configuration_store;
  configuration_container = or_default env.configuration_container c.configuration_container;
  domain_suffix = or_default env.domain_suffix c.domain_suffix;
}

-- The loaded configuration, or the default one.
abbrev pub loaded_config : Bool × FileConfigProvider → ServiceConfig
loaded_config (true, p) = p.config
loaded_config (false, p) = default_config

-- The arguments of RunServer, and those of the metrics' Initialize, if it is called.
pub record Started : Type 0 where
  pub address : Bytes
  pub config : ServiceConfig
  pub options : Options
  pub metrics : Option (Bytes × Bytes)

abbrev pub metrics_of : Options → Option (Bytes × Bytes)
metrics_of o =
    if not (empty o.metrics_endpoint) && not (empty o.instrumentation_key)
    then some (o.metrics_endpoint, o.instrumentation_key)
    else none

module _ (stoi : Bytes → Result (ℤ × ℕ)) (env : Environment) (files : Bytes → Option Bytes) where
  unfoldable pub override_port : Options → Options
  unfolding try_parse_int
  override_port o = if o.port_explicit then o else set_port (try_parse_int stoi env.port) o

  unfoldable pub override_group : Options → Options
  unfolding try_parse_int
  override_group o =
      if o.processor_group_explicit then o else set_group (try_parse_int stoi env.processor_group) o

  unfoldable pub override_options : Options → Options
  unfolding override_port override_group
  override_options o = override_group (override_port (override_host env o))

  unfoldable pub service_config : Bytes → ServiceConfig
  unfolding load
  service_config path =
      let provider = file_config_provider path in
      override_config env (loaded_config (load (files provider.config_file_path) provider))

  -- From the check of the configuration on.
  unfoldable pub start : Options → ServiceConfig → Next Started
  start o config =
      if not (is_valid config)
      then leave 1
      else go (record {
        address = o.host ++ (codes ":" ++ int_text o.port);
        config = config;
        options = o;
        metrics = metrics_of o;
      })

  unfoldable pub after_arguments : Next Options → Next Started
  unfolding override_options service_config start
  after_arguments (go o) =
      start (override_options o) (service_config (override_options o).config_file_path)
  after_arguments (leave status) = leave status
  after_arguments (crash e) = crash e

  -- main, up to RunServer; the arguments come without the program's name.
  unfoldable pub main : List Bytes → Next Started
  unfolding parse_args after_arguments
  main args = after_arguments (parse_args stoi args none default_options)
