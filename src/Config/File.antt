-- ===== src/Config/File.antt =====
-- KVService/src/FileConfigProvider.cpp: the configuration is read from a JSON file. The file's content is
-- an argument, `none` if it cannot be opened.
pub mod Field
use kv_store_v.Base.{
  ℕ, ◌+◌, ◌<◌, ◌≡◌, ◌≢◌, refl, ap, ◌∙◌, Bool, true, false, not, ◌&&◌, [], ◌∷◌, ◌++◌, ◌==◌, leb,
  if◌then◌else◌, if-cases, ==-false, arith, Option, none, some, Bytes, codes, empty, Lacks, length,
  take, drop, npos, find, length-append, take-length-append, append_assoc,
}
use kv_store_v.Base.Text.Search.{index_of-append, find_in, drop_in}
use kv_store_v.Config.{ServiceConfig, is_valid, get_validation_error, default_config}
use kv_store_v.Config.Json.{quote_end, quoted, quote_end-Lacks}

-- Every backslash in front of `c` is dropped, once per pair.
unfoldable pub unescape : ℕ → Bytes → Bytes
unescape c [] = []
unescape c (x ∷ []) = x ∷ []
unescape c (x ∷ y ∷ s) =
    let rest = unescape c (y ∷ s) in
    let behind = unescape c s in if x == b'\\' && y == c then c ∷ behind else x ∷ rest

-- `none` is the result false, which leaves the out parameter alone. The positions that are used are
-- below the length, so that substr does not throw.
unfoldable pub extract_string_value : Bytes → Bytes → Option Bytes
unfolding find quote_end unescape
extract_string_value json key =
    let search_key = quoted key in
    let key_pos = find json search_key 0 in
    let colon_pos = find json (codes ":") (key_pos + length search_key) in
    let start_quote = find json (codes "\"") (colon_pos + 1) in
    let behind = drop (start_quote + 1) json in
    let size = quote_end b'"' behind in
    if key_pos == npos
    then none
    else if colon_pos == npos
    then none
    else if start_quote == npos
    then none
    else if leb (length json) (start_quote + 1 + size)
    then none
    else some (unescape b'\\' (unescape b'"' (take size behind)))

pub record FileConfigProvider : Type 0 where
  pub config_file_path : Bytes
  pub config : ServiceConfig
  pub is_loaded : Bool
  pub last_error : Bytes

-- FileConfigProvider(configFilePath)
abbrev pub file_config_provider : Bytes → FileConfigProvider
file_config_provider path = record {
  config_file_path = if empty path then codes "service-config.json" else path;
  config = default_config;
  is_loaded = false;
  last_error = [];
}

abbrev pub with_error : Bytes → FileConfigProvider → Bool × FileConfigProvider
with_error text p = (false, record p { last_error = text })

-- if (!ExtractStringValue(...)) { lastError_ = ...; return false; }, then the rest of the function.
unfoldable pub require :
    Option Bytes
    → Bytes
    → (Bytes → ServiceConfig → ServiceConfig)
    → FileConfigProvider
    → (FileConfigProvider → Bool × FileConfigProvider)
    → Bool × FileConfigProvider
require none field set p next = with_error (codes "Missing required field: " ++ field) p
require (some text) field set p next = next (record p { config = set text p.config })

-- An optional field keeps its value when it is missing.
abbrev pub set_suffix : Option Bytes → ServiceConfig → ServiceConfig
set_suffix none c = c
set_suffix (some text) c = record c { domain_suffix = text }

-- Fields that were found stay set when a later one is missing.
unfoldable pub parse_json : Bytes → FileConfigProvider → Bool × FileConfigProvider
parse_json json p =
    let location = extract_string_value json (codes "currentLocation") in
    let store = extract_string_value json (codes "configurationStore") in
    let container = extract_string_value json (codes "configurationContainer") in
    let suffix = extract_string_value json (codes "domainSuffix") in
    require location (codes "currentLocation") (λ v c. record c { current_location = v }) p
      λ p1.
        require store (codes "configurationStore") (λ v c. record c { configuration_store = v }) p1
          λ p2.
            require container (codes "configurationContainer")
              (λ v c. record c { configuration_container = v }) p2
              λ p3. (true, record p3 { config = set_suffix suffix p3.config })

unfoldable pub load : Option Bytes → FileConfigProvider → Bool × FileConfigProvider
load file p =
    let cleared : FileConfigProvider = record p { is_loaded = false; last_error = [] } in
    elim file [
      | none ↦
          with_error (codes "Failed to open configuration file: " ++ p.config_file_path) cleared
      | some content ↦
          if empty content
          then with_error (codes "Configuration file is empty: " ++ p.config_file_path) cleared
          else (let (parsed, q) = parse_json content cleared in
              if not parsed
              then (false, q)
              else if not (is_valid q.config)
              then with_error (codes "Invalid configuration: " ++ get_validation_error q.config) q
              else (true, record q { is_loaded = true }))
    ]

-- What a result of Load tells of the provider.
abbrev pub Agrees : Bool × FileConfigProvider → Type 0
Agrees (true, p) = (p.is_loaded ≡ true) × (is_valid p.config ≡ true) × (p.last_error ≡ [])
Agrees (false, p) = (p.is_loaded ≡ false) × (p.last_error ≢ [])

-- What a result of ParseJson tells while nothing is loaded.
record Parses (r : Bool × FileConfigProvider) : Type 0 where
  pub unloaded : r.1.is_loaded ≡ false
  pub error_set : (r.0 ≡ true → r.1.last_error ≡ []) × (r.0 ≡ false → r.1.last_error ≢ [])

abbrev IsClear : FileConfigProvider → Type 0
IsClear p = (p.is_loaded ≡ false) × (p.last_error ≡ [])

require-Parses :
    (found : Option Bytes) (field : Bytes) (set : Bytes → ServiceConfig → ServiceConfig)
    (p : FileConfigProvider) (next : FileConfigProvider → Bool × FileConfigProvider)
    → IsClear p
    → ((q : FileConfigProvider) → IsClear q → Parses (next q))
    → Parses (require found field set p next)
unfolding require
require-Parses none field set p next h k = record {
  unloaded = h.0;
  error_set = (λ e. cc, λ e d. cc);
}
require-Parses (some text) field set p next h k = k (record p { config = set text p.config }) h

parse_json-Parses : (json : Bytes) (p : FileConfigProvider) → IsClear p → Parses (parse_json json p)
unfolding parse_json
parse_json-Parses json p h = require-Parses _ _ _ p _ h λ p1 h1.
    require-Parses _ _ _ p1 _ h1 λ p2 h2.
      require-Parses _ _ _ p2 _ h2
        λ p3 h3. record { unloaded = h3.0; error_set = (λ e. h3.1, λ (e : true ≡ false). cc) }

-- If Load returns true, the configuration is loaded and valid and no error is set; if it returns false,
-- nothing is loaded, whatever was before, and an error is set.
pub load-Agrees : (file : Option Bytes) (p : FileConfigProvider) → Agrees (load file p)
unfolding load
load-Agrees none p = (refl, λ e. cc)
load-Agrees (some content) p =
    let cleared : FileConfigProvider = record p { is_loaded = false; last_error = [] } in
    if-cases Agrees (empty content) (λ _. (refl, λ e. cc))
      (λ _. validated (parse_json content cleared) (parse_json-Parses content cleared (refl, refl)))
  where
    validated :
        (r : Bool × FileConfigProvider)
        → Parses r
        → Agrees (
            if not r.0
            then (false, r.1)
            else if not (is_valid r.1.config)
            then with_error (codes "Invalid configuration: " ++ get_validation_error r.1.config) r.1
            else (true, record r.1 { is_loaded = true }))
    validated (false, q) h = (h.unloaded, h.error_set.1 refl)
    validated (true, q) h =
        if-cases Agrees (not (is_valid q.config)) (λ _. (h.unloaded, λ e. cc))
          (λ v. (refl, ground (arith, v), h.error_set.0 refl))
