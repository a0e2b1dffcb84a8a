-- ===== src/Config/Json.antt =====
-- The closing quote of a JSON text, as KVService/src/FileConfigProvider.cpp and
-- KVService/src/StorageDatabaseResolver.cpp look for it, and where it stands behind plain text.
use kv_store_v.Base.{
  ℕ, suc, ◌≡◌, ◌≢◌, not, ◌&&◌, [], ◌∷◌, ◌++◌, ◌==◌, if◌then◌else◌, arith, Bytes, codes, Lacks,
  length,
}

-- The bytes up to the first quote that does not follow a backslash; `prev` is the byte in front.
unfoldable pub quote_end : ℕ → Bytes → ℕ
quote_end prev [] = 0
quote_end prev (c ∷ s) =
    let rest = suc (quote_end c s) in if c == b'"' && not (prev == b'\\') then 0 else rest

-- "\"" + key + "\""
abbrev pub quoted : Bytes → Bytes
quoted key = codes "\"" ++ (key ++ codes "\"")

-- Behind text without quotes and backslashes, that is the end of the text.
pub quote_end-Lacks :
    (v rest : Bytes) (prev : ℕ)
    → prev ≢ b'\\'
    → Lacks b'"' v
    → Lacks b'\\' v
    → quote_end prev (v ++ b'"' ∷ rest) ≡ length v
unfolding quote_end
quote_end-Lacks [] rest prev p q b = ground arith
quote_end-Lacks (c ∷ v) rest prev p q b = ground (arith, quote_end-Lacks v rest c b.0 q.1 b.1)
