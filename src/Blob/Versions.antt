-- ===== src/Blob/Versions.antt =====
-- ParseAdditionalVersions and SerializeAdditionalVersions of
-- KVService/src/AzureStorageKVStoreLibV2.cpp. Positions are size_t values, so that a `find` that
-- fails yields npos and `npos + 8` wraps around, as in the code.
pub mod RoundTrip
pub mod Loop
use kv_store_v.Base.{
  ℕ, zero, suc, ◌+◌, List, [], ◌∷◌, ◌++◌, ◌==◌, ltb, ◌||◌, if◌then◌else◌, Bytes, codes, empty,
  equal, npos, find, substr, length, Result, ok, ◌>>=◌, add64, sub64, to_string, stoull,
}

pub record AdditionalVersion : Type 0 where
  pub hash : ℕ
  pub parent_hash : ℕ
  pub location : Bytes

-- The characters behind `key`, whose length is `width`, up to the next quote.
unfoldable pub quoted_field : Bytes → Bytes → ℕ → Result Bytes
unfolding find substr
quoted_field obj key width =
    let start = add64 (find obj key 0) width in
    let end = find obj (codes "\"") start in substr obj start (sub64 end start)

unfoldable pub parse_version : Bytes → Result AdditionalVersion
parse_version obj = do
  hash_str ← quoted_field obj (codes "\"hash\":\"") 8
  parent_str ← quoted_field obj (codes "\"parentHash\":\"") 14
  location ← quoted_field obj (codes "\"location\":\"") 12
  hash ← stoull hash_str
  parent_hash ← stoull parent_str
  ok (record { hash = hash; parent_hash = parent_hash; location = location })

-- The loop; every round moves `pos`, so the length of the text is enough fuel.
unfoldable pub parse_loop : ℕ → Bytes → ℕ → List AdditionalVersion → Result (List AdditionalVersion)
unfolding find substr
parse_loop zero json pos versions = ok versions
parse_loop (suc fuel) json pos versions =
    let start = find json (codes "{\"hash\":") pos in
    let end = find json (codes "}") start in
    if ltb pos (length json)
    then (if start == npos || end == npos then ok versions else (do
      obj ← substr json start (sub64 end start + 1)
      version ← parse_version obj
      parse_loop fuel json (end + 1) (versions ++ version ∷ [])))
    else ok versions

unfoldable pub parse_additional_versions : Bytes → Result (List AdditionalVersion)
parse_additional_versions json =
    if empty json || equal json (codes "[]") then ok [] else parse_loop (length json) json 0 []

unfoldable pub serialize_version : AdditionalVersion → Bytes
serialize_version v =
    codes "{\"hash\":\""
    ++ (to_string v.hash
        ++ (codes "\",\"parentHash\":\""
            ++ (to_string v.parent_hash
                ++ (codes "\",\"location\":\"" ++ (v.location ++ codes "\"}")))))

-- The rounds of the loop from index 1 on, and the closing bracket.
unfoldable pub serialize_rest : List AdditionalVersion → Bytes
serialize_rest [] = codes "]"
serialize_rest (v ∷ vs) = codes "," ++ (serialize_version v ++ serialize_rest vs)

unfoldable pub serialize_additional_versions : List AdditionalVersion → Bytes
serialize_additional_versions [] = codes "[]"
serialize_additional_versions (v ∷ vs) = codes "[" ++ (serialize_version v ++ serialize_rest vs)
