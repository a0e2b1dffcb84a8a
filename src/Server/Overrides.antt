-- ===== src/Server/Overrides.antt =====
-- What holds of the options and the configuration whenever the server is started.
use kv_store_v.Base.{
  ℕ, ◌≡◌, refl, ◌⊎◌, inl, inr, true, false, not, List, [], ◌∷◌, ◌++◌, Option, none, some, if-cases,
  arith, Bytes, codes, Result, ok, throw,
}
use kv_store_v.Base.Integers.{ℤ, pos, negsuc, int_text, is_natural}
use kv_store_v.Config.{is_valid}
use kv_store_v.Server.{
  Options, default_options, Next, go, leave, crash, Kind, help, unknown, flag, valued, Valued,
  config_option, port_option, host_option, threads_option, log_level_option, transport_option,
  processor_group_option, metrics_endpoint_option, instrumentation_key_option, kind, number,
  set_log_level, set_transport, set_value, parse_args, try_parse_int,
}
use kv_store_v.Server.Startup.{
  Environment, in_port_range, set_port, set_group, override_host, override_port, override_group,
  override_options, service_config, Started, start, after_arguments, main,
}

-- A port that was not given is in range; with a processor group, threads are not spread over NUMA nodes.
pub record IsConsistent (o : Options) : Type 0 where
  pub port_fits : (o.port_explicit ≡ true) ⊎ (in_port_range o.port ≡ true)
  pub pinned : (o.enable_numa_spread ≡ false) ⊎ (is_natural o.processor_group ≡ false)

abbrev pub Holds {ℓ κ} : {A : Type ℓ} → (A → Type κ) → Next A → Type κ
Holds P (go a) = P a
Holds P (leave status) = Unit
Holds P (crash e) = Unit

IsSound : Kind → Type 0
IsSound help = Unit
IsSound unknown = Unit
IsSound (valued option) = Unit
IsSound (flag set) = (o : Options) → IsConsistent o → IsConsistent (set o)

kind-IsSound : (arg : Bytes) → IsSound (kind arg)
unfolding kind IsSound
kind-IsSound arg = ground arith

module _ (stoi : Bytes → Result (ℤ × ℕ)) where
  set_value-IsConsistent :
      (option : Valued) (value : Bytes) (o : Options)
      → IsConsistent o
      → Holds IsConsistent (set_value stoi option value o)
  unfolding set_value set_log_level set_transport
  set_value-IsConsistent config_option value o h = record {
    port_fits = h.port_fits;
    pinned = h.pinned;
  }
  set_value-IsConsistent port_option value o h = by (stoi value)
    where
      by :
          (r : Result (ℤ × ℕ))
          → Holds IsConsistent (number r (λ n. record o { port = n; port_explicit = true }))
      by (ok (n, read)) = record { port_fits = inl refl; pinned = h.pinned }
      by (throw e) = tt
  set_value-IsConsistent host_option value o h = record {
    port_fits = h.port_fits;
    pinned = h.pinned;
  }
  set_value-IsConsistent threads_option value o h = by (stoi value)
    where
      by : (r : Result (ℤ × ℕ)) → Holds IsConsistent (number r (λ n. record o { num_threads = n }))
      by (ok (n, read)) = record { port_fits = h.port_fits; pinned = h.pinned }
      by (throw e) = tt
  set_value-IsConsistent log_level_option value o h = ground (arith, h)
  set_value-IsConsistent transport_option value o h = ground (arith, h)
  set_value-IsConsistent processor_group_option value o h = by (stoi value)
    where
      by :
          (r : Result (ℤ × ℕ))
          → Holds IsConsistent (
              number r (λ n. record o {
                processor_group = n;
                enable_numa_spread = false;
                processor_group_explicit = true;
              }))
      by (ok (n, read)) = record { port_fits = h.port_fits; pinned = inl refl }
      by (throw e) = tt
  set_value-IsConsistent metrics_endpoint_option value o h = record {
    port_fits = h.port_fits;
    pinned = h.pinned;
  }
  set_value-IsConsistent instrumentation_key_option value o h = record {
    port_fits = h.port_fits;
    pinned = h.pinned;
  }

  -- The rest of the loop keeps the options consistent.
  RestHolds : List Bytes → Type 0
  RestHolds rest =
      (waits : Option Valued) (o : Options)
      → IsConsistent o
      → Holds IsConsistent (parse_args stoi rest waits o)

  kind_step :
      (rest : List Bytes) (k : Kind) (o : Options)
      → RestHolds rest
      → IsSound k
      → IsConsistent o
      → Holds IsConsistent (elim k as (λ x. Next Options) [
        | help ↦ leave 0
        | unknown ↦ leave 1
        | flag set ↦ parse_args stoi rest none (set o)
        | valued option ↦ parse_args stoi rest (some option) o
      ])
  unfolding RestHolds IsSound
  kind_step rest help o next sound h = tt
  kind_step rest unknown o next sound h = tt
  kind_step rest (flag set) o next sound h = next none (set o) (sound o h)
  kind_step rest (valued option) o next sound h = next (some option) o h

  value_step :
      (rest : List Bytes) (n : Next Options)
      → RestHolds rest
      → Holds IsConsistent n
      → Holds IsConsistent (elim n as (λ x. Next Options) [
        | go o' ↦ parse_args stoi rest none o'
        | leave status ↦ leave status
        | crash e ↦ crash e
      ])
  unfolding RestHolds
  value_step rest (go o') next sound = next none o' sound
  value_step rest (leave status) next sound = tt
  value_step rest (crash e) next sound = tt

  parse_args-IsConsistent : (args : List Bytes) → RestHolds args
  unfolding parse_args RestHolds
  parse_args-IsConsistent [] none o h = h
  parse_args-IsConsistent [] (some option) o h = tt
  parse_args-IsConsistent (arg ∷ rest) none o h =
      kind_step rest (kind arg) o (parse_args-IsConsistent rest) (kind-IsSound arg) h
  parse_args-IsConsistent (value ∷ rest) (some option) o h =
      value_step rest (set_value stoi option value o) (parse_args-IsConsistent rest)
        (set_value-IsConsistent option value o h)

  module _ (env : Environment) (files : Bytes → Option Bytes) where
    set_port-IsConsistent :
        (n : Option ℤ) (o : Options) → IsConsistent o → IsConsistent (set_port n o)
    set_port-IsConsistent none o h = h
    set_port-IsConsistent (some n) o h =
        if-cases IsConsistent (in_port_range n)
          (λ fits. record { port_fits = inr fits; pinned = h.pinned }) (λ _. h)

    set_group-IsConsistent :
        (n : Option ℤ) (o : Options) → IsConsistent o → IsConsistent (set_group n o)
    set_group-IsConsistent none o h = h
    set_group-IsConsistent (some (pos n)) o h = record {
      port_fits = h.port_fits;
      pinned = inl refl;
    }
    set_group-IsConsistent (some (negsuc n)) o h = record {
      port_fits = h.port_fits;
      pinned = inr refl;
    }

    override_options-IsConsistent :
        (o : Options) → IsConsistent o → IsConsistent (override_options stoi env files o)
    unfolding override_options override_port override_group
    override_options-IsConsistent o h =
        let named : IsConsistent (override_host env o) =
          if-cases IsConsistent o.host_explicit (λ _. h)
            (λ _. record { port_fits = h.port_fits; pinned = h.pinned }) in
        let ported : IsConsistent (override_port stoi env files (override_host env o)) =
          if-cases IsConsistent (override_host env o).port_explicit (λ _. named)
            (λ _.
              set_port-IsConsistent (try_parse_int stoi env.port) (override_host env o) named) in
        if-cases IsConsistent
          (override_port stoi env files (override_host env o)).processor_group_explicit
          (λ _. ported)
          (λ _. set_group-IsConsistent (try_parse_int stoi env.processor_group) _ ported)

    -- What RunServer is called with.
    pub record IsServed (s : Started) : Type 0 where
      pub configured : is_valid s.config ≡ true
      pub consistent : IsConsistent s.options
      pub addressed : s.address ≡ s.options.host ++ (codes ":" ++ int_text s.options.port)

    -- Whatever the arguments, the environment and the configuration file are: if the server is started, its
    -- configuration is valid, a port that no argument gave is between 1 and 65535, with a processor group
    -- from 0 on threads are not spread over NUMA nodes, and the address is the host, a colon and the port.
    pub main-IsServed : (args : List Bytes) → Holds IsServed (main stoi env files args)
    unfolding main after_arguments start RestHolds
    main-IsServed args = by (parse_args stoi args none default_options) (
        parse_args-IsConsistent args none default_options
          (record { port_fits = inr refl; pinned = inr refl }))
      where
        by :
            (n : Next Options)
            → Holds IsConsistent n
            → Holds IsServed (after_arguments stoi env files n)
        by (go o) h =
            if-cases (Holds IsServed)
              (not (
                is_valid (
                  service_config stoi env files
                    (override_options stoi env files o).config_file_path)))
              (λ _. tt)
              (λ v. record {
                configured = ground (arith, v);
                consistent = override_options-IsConsistent o h;
                addressed = refl;
              })
        by (leave status) h = tt
        by (crash e) h = tt
