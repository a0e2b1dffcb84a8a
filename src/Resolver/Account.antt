-- ===== src/Resolver/Account.antt =====
-- The account configuration of KVService/src/StorageDatabaseResolver.cpp and its parser, and the answer of
-- KVService/include/IAccountResolver.h.
use kv_store_v.Base.{
  Bool, true, false, List, [], if◌then◌else◌, Option, none, some, Bytes, codes, empty, Dict,
}
use kv_store_v.Resolver.Json.{extract_string_value, extract_region_storage_map}

pub record PromptAccountConfig : Type 0 where
  pub prompt_account_id : Bytes
  pub prompt_account_name : Bytes
  pub location : Bytes
  pub kind : Bytes
  pub region_storage_map : Dict (List Bytes)
  pub success : Bool
  pub error : Bytes

pub record AccountInfo : Type 0 where
  pub account_url : Bytes
  pub container_name : Bytes
  pub success : Bool
  pub error : Bytes

abbrev pub empty_account : PromptAccountConfig
empty_account = record {
  prompt_account_id = [];
  prompt_account_name = [];
  location = [];
  kind = [];
  region_storage_map = [];
  success = false;
  error = [];
}

abbrev pub empty_info : AccountInfo
empty_info = record { account_url = []; container_name = []; success = false; error = [] }

abbrev pub text_or : Bytes → Option Bytes → Bytes
text_or otherwise none = otherwise
text_or otherwise (some text) = text

-- From the region map on.
abbrev pub with_regions : Option (Dict (List Bytes)) → PromptAccountConfig → PromptAccountConfig
with_regions none config = record config {
  error = codes "Failed to parse regionStorageMap from account config";
}
with_regions (some region_map) config =
    if empty region_map
    then record config { error = codes "regionStorageMap is empty in account config" }
    else record config { region_storage_map = region_map; success = true }

unfoldable pub parse_account_config_json : Bytes → PromptAccountConfig
parse_account_config_json json =
    with_regions (extract_region_storage_map json) (record empty_account {
      prompt_account_id = text_or [] (extract_string_value json (codes "promptAccountId"));
      prompt_account_name = text_or [] (extract_string_value json (codes "promptAccountName"));
      location = text_or [] (extract_string_value json (codes "location"));
      kind = text_or [] (extract_string_value json (codes "kind"));
    })
