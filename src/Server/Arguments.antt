-- ===== src/Server/Arguments.antt =====
-- Every setting can be given on the command line.
use kv_store_v.Base.{
  ℕ, ◌≡◌, refl, ap, ◌∙◌, arith, Bool, true, false, not, List, [], ◌∷◌, Option, none, if◌then◌else◌,
  Bytes, codes, equal, length, Result, ok,
}
use kv_store_v.Base.Integers.{ℤ, int_text}
use kv_store_v.Server.{
  LogLevel, error_level, information_level, verbose_level, HttpTransportProtocol, winhttp, libcurl,
  Options, default_options, go, Valued, valued, config_option, port_option, host_option,
  threads_option, log_level_option, transport_option, processor_group_option,
  metrics_endpoint_option, instrumentation_key_option, kind, set_log_level, set_transport,
  set_value, parse_args,
}
use kv_store_v.Server.Startup.{
  Environment, override_options, override_port, override_group, service_config, start,
  after_arguments, main,
}

abbrev pub level_text : LogLevel → Bytes
level_text error_level = codes "error"
level_text information_level = codes "info"
level_text verbose_level = codes "verbose"

abbrev pub transport_text : HttpTransportProtocol → Bytes
transport_text winhttp = codes "winhttp"
transport_text libcurl = codes "libcurl"

abbrev pub flag_if : Bool → Bytes → List Bytes → List Bytes
flag_if on name rest = if on then name ∷ rest else rest

abbrev pub flags_of : Options → List Bytes
flags_of o = flag_if o.enable_sdk_logging (codes "--enable-sdk-logging") (
    flag_if (not o.enable_multi_nic) (codes "--disable-multi-nic")
      (flag_if (not o.enable_metrics_logging) (codes "--disable-metrics") []))

-- The arguments for all settings.
abbrev pub command_line : Options → List Bytes
command_line o =
    codes "--config"
    ∷ o.config_file_path
    ∷ codes "--port"
    ∷ int_text o.port
    ∷ codes "--host"
    ∷ o.host
    ∷ codes "--threads"
    ∷ int_text o.num_threads
    ∷ codes "--log-level"
    ∷ level_text o.log_level
    ∷ codes "--transport"
    ∷ transport_text o.transport
    ∷ codes "--metrics-endpoint"
    ∷ o.metrics_endpoint
    ∷ codes "--instrumentation-key"
    ∷ o.instrumentation_key
    ∷ codes "--processor-group"
    ∷ int_text o.processor_group
    ∷ flags_of o

-- The options as they are after all of them were given.
abbrev pub given : Options → Options
given o = record o {
  enable_numa_spread = false;
  host_explicit = true;
  port_explicit = true;
  processor_group_explicit = true;
}

module _ (stoi : Bytes → Result (ℤ × ℕ)) where
  abbrev pub IsRead : ℤ → Type 0
  IsRead n = stoi (int_text n) ≡ ok (n, length (int_text n))

  read_flags :
      (o : Options) (sdk nic metrics : Bool)
      → parse_args stoi
          (flag_if sdk (codes "--enable-sdk-logging") (
            flag_if
              (not nic)
              (codes "--disable-multi-nic")
              (flag_if (not metrics) (codes "--disable-metrics") [])))
          none
          (record o {
            enable_sdk_logging = false;
            enable_multi_nic = true;
            enable_metrics_logging = true;
          })
        ≡ go (record o {
          enable_sdk_logging = sdk;
          enable_multi_nic = nic;
          enable_metrics_logging = metrics;
        })
  unfolding parse_args kind equal
  read_flags o true true true = refl
  read_flags o true true false = refl
  read_flags o true false true = refl
  read_flags o true false false = refl
  read_flags o false true true = refl
  read_flags o false true false = refl
  read_flags o false false true = refl
  read_flags o false false false = refl

  read_value :
      (name value : Bytes) (option : Valued) (rest : List Bytes) (o o' : Options)
      → kind name ≡ valued option
      → set_value stoi option value o ≡ go o'
      → parse_args stoi (name ∷ value ∷ rest) none o ≡ parse_args stoi rest none o'
  unfolding parse_args
  read_value name value option rest o o' is_valued is_set = ground (arith, is_valued, is_set)

  port_read :
      (n : ℤ) (o : Options)
      → IsRead n
      → set_value stoi port_option (int_text n) o ≡ go (record o { port = n; port_explicit = true })
  unfolding set_value
  port_read n o h = rw h refl

  threads_read :
      (n : ℤ) (o : Options)
      → IsRead n
      → set_value stoi threads_option (int_text n) o ≡ go (record o { num_threads = n })
  unfolding set_value
  threads_read n o h = rw h refl

  group_read :
      (n : ℤ) (o : Options)
      → IsRead n
      → set_value stoi processor_group_option (int_text n) o
        ≡ go (record o {
          processor_group = n;
          enable_numa_spread = false;
          processor_group_explicit = true;
        })
  unfolding set_value
  group_read n o h = rw h refl

  level_read :
      (l : LogLevel) (o : Options)
      → set_log_level (level_text l) o ≡ go (record o { log_level = l })
  unfolding set_log_level equal
  level_read error_level o = refl
  level_read information_level o = refl
  level_read verbose_level o = refl

  transport_read :
      (t : HttpTransportProtocol) (o : Options)
      → set_transport (transport_text t) o ≡ go (record o { transport = t })
  unfolding set_transport equal
  transport_read winhttp o = refl
  transport_read libcurl o = refl

  -- If std::stoi reads back the port, the number of threads and the processor group as std::to_string prints
  -- them, then the arguments that give every setting are parsed to exactly these settings, as given explicitly
  -- and without the NUMA spread, which a processor group turns off.
  pub parse_args-command_line :
      (o : Options)
      → IsRead o.port
      → IsRead o.num_threads
      → IsRead o.processor_group
      → parse_args stoi (command_line o) none default_options ≡ go (given o)
  unfolding kind equal set_value
  parse_args-command_line o port threads group =
      read_value (codes "--config") o.config_file_path config_option _ _ _ refl refl
      ∙ (read_value (codes "--port") (int_text o.port) port_option _ _ _ refl
            (port_read o.port with_path port)
          ∙ (read_value (codes "--host") o.host host_option _ _ _ refl refl
              ∙ (read_value (codes "--threads") (int_text o.num_threads) threads_option _ _ _ refl
                    (threads_read o.num_threads with_host threads)
                  ∙ (read_value (codes "--log-level") (level_text o.log_level) log_level_option _ _
                        _ refl (level_read o.log_level _)
                      ∙ (read_value (codes "--transport") (transport_text o.transport)
                            transport_option _ _ _ refl (transport_read o.transport _)
                          ∙ (read_value (codes "--metrics-endpoint") o.metrics_endpoint
                                metrics_endpoint_option _ _ _ refl refl
                              ∙ (read_value (codes "--instrumentation-key") o.instrumentation_key
                                    instrumentation_key_option _ _ _ refl refl
                                  ∙ (read_value (codes "--processor-group")
                                        (int_text o.processor_group) processor_group_option _ _ _
                                        refl (group_read o.processor_group with_all group)
                                      ∙ read_flags (given o) o.enable_sdk_logging o.enable_multi_nic
                                          o.enable_metrics_logging))))))))
    where
      with_path : Options
      with_path = record default_options { config_file_path = o.config_file_path }

      with_host : Options
      with_host = record with_path {
        port = o.port;
        port_explicit = true;
        host = o.host;
        host_explicit = true;
      }

      with_all : Options
      with_all = record with_host {
        num_threads = o.num_threads;
        log_level = o.log_level;
        transport = o.transport;
        metrics_endpoint = o.metrics_endpoint;
        instrumentation_key = o.instrumentation_key;
      }

  -- With all settings given, and the numbers read back as above, main is not influenced by KV_BIND_IP, KV_PORT
  -- and KV_PROCESSOR_GROUP: it starts with exactly the given settings and the configuration of the given path,
  -- or leaves with 1 if that configuration, with its variables, is not valid.
  pub main-command_line :
      (env : Environment) (files : Bytes → Option Bytes) (o : Options)
      → IsRead o.port
      → IsRead o.num_threads
      → IsRead o.processor_group
      → main stoi env files (command_line o)
        ≡ start stoi env files (given o) (service_config stoi env files o.config_file_path)
  unfolding main after_arguments override_options override_port override_group
  main-command_line env files o port threads group =
      ap (after_arguments stoi env files) (parse_args-command_line o port threads group)
