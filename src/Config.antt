-- ===== src/Config.antt =====
-- KVService/include/ServiceConfig.h: the service's configuration and its validation.
pub mod Json
pub mod File
mod Tests
use kv_store_v.Base.{
  Bool, not, ◌&&◌, [], ◌++◌, ◌≡◌, ◌↔◌, true, refl, arith, Bytes, codes, empty, if◌then◌else◌,
}

pub record ServiceConfig : Type 0 where
  pub current_location : Bytes
  pub configuration_store : Bytes
  pub configuration_container : Bytes
  pub domain_suffix : Bytes

abbrev pub default_config : ServiceConfig
default_config = record {
  current_location = [];
  configuration_store = [];
  configuration_container = [];
  domain_suffix = codes ".blob.core.windows.net";
}

unfoldable pub is_valid : ServiceConfig → Bool
is_valid c =
    not (empty c.current_location)
    && not (empty c.configuration_store)
    && not (empty c.configuration_container)
    && not (empty c.domain_suffix)

unfoldable pub get_validation_error : ServiceConfig → Bytes
get_validation_error c =
    if empty c.current_location
    then codes "currentLocation is required"
    else if empty c.configuration_store
    then codes "configurationStore is required"
    else if empty c.configuration_container
    then codes "configurationContainer is required"
    else if empty c.domain_suffix
    then codes "domainSuffix is required"
    else []

unfoldable pub get_configuration_store_url : ServiceConfig → Bytes
get_configuration_store_url c = codes "https://" ++ (c.configuration_store ++ c.domain_suffix)

-- A configuration is valid exactly if there is no validation error to report.
pub is_valid_iff : (c : ServiceConfig) → (is_valid c ≡ true) ↔ (get_validation_error c ≡ [])
unfolding is_valid get_validation_error
is_valid_iff c = ground arith
