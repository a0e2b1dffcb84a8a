-- ===== src/Blob/Name.antt =====
-- EncodeTokensToBlobName and DecodeBlobNameToTokens of KVService/include/AzureStorageKVStoreLibV2.h,
-- and GenerateGuid of KVService/src/AzureStorageKVStoreLibV2.cpp.
use kv_store_v.Base.{
  ℕ, zero, suc, ◌+◌, ◌*◌, ◌/◌, ◌%◌, ◌^◌, ◌<◌, ◌≡◌, refl, List, [], ◌∷◌, ◌++◌, map, Bytes, arith,
  All, codes, ltb, if◌then◌else◌,
}

-- Azure's URL-safe base 64. It is not part of the repository; what the code relies on is that
-- decoding undoes encoding on bytes.
pub record Base64Url : Type 0 where
  pub encode : Bytes → Bytes
  pub decode : Bytes → Bytes
  pub decode-encode : (bytes : Bytes) → All (λ b. b < 256) bytes → decode (encode bytes) ≡ bytes

-- One round of the encoder: static_cast<uint32_t>, then four bytes, the highest first.
unfoldable pub token_bytes : ℕ → Bytes
token_bytes t =
    let token = t % 2 ^ 32 in
    (token / 2 ^ 24 % 256) ∷ (token / 2 ^ 16 % 256) ∷ (token / 2 ^ 8 % 256) ∷ (token % 256) ∷ []

unfoldable pub tokens_bytes : List ℕ → Bytes
unfolding token_bytes
tokens_bytes [] = []
tokens_bytes (t ∷ ts) = token_bytes t ++ tokens_bytes ts

-- The decoder's loop: whole groups of four, the rest is dropped.
unfoldable pub bytes_tokens : Bytes → List ℕ
bytes_tokens (a ∷ b ∷ c ∷ d ∷ rest) = (a * 2 ^ 24 + b * 2 ^ 16 + c * 2 ^ 8 + d) ∷ bytes_tokens rest
bytes_tokens _ = []

-- `std::hex` with setw(16) and setfill('0')
unfoldable pub hex_digit : ℕ → ℕ
hex_digit d = if ltb d 10 then 48 + d else 87 + d

unfoldable pub hex : ℕ → ℕ → Bytes
unfolding hex_digit
hex zero n = []
hex (suc k) n = hex k (n / 16) ++ hex_digit (n % 16) ∷ []

-- The two random words are arguments.
unfoldable pub generate_guid : ℕ → ℕ → Bytes
unfolding hex
generate_guid part1 part2 = hex 16 part1 ++ codes "-" ++ hex 16 part2

module _ (base64 : Base64Url) where
  unfoldable pub encode_tokens_to_blob_name : List ℕ → Bytes
  encode_tokens_to_blob_name tokens = base64.encode (tokens_bytes tokens)

  unfoldable pub decode_blob_name_to_tokens : Bytes → List ℕ
  decode_blob_name_to_tokens name = bytes_tokens (base64.decode name)

tokens_bytes-lt : (ts : List ℕ) → All (λ b. b < 256) (tokens_bytes ts)
unfolding tokens_bytes
tokens_bytes-lt [] = tt
tokens_bytes-lt (t ∷ ts) =
    (omega arith, (omega arith, (omega arith, (omega arith, tokens_bytes-lt ts))))

token_value :
    (t : ℕ)
    → t % 2 ^ 32 / 2 ^ 24 % 256 * 2 ^ 24
        + t % 2 ^ 32 / 2 ^ 16 % 256 * 2 ^ 16
        + t % 2 ^ 32 / 2 ^ 8 % 256 * 2 ^ 8
        + t % 2 ^ 32 % 256
      ≡ t % 2 ^ 32
token_value t = omega arith

bytes_tokens-tokens_bytes :
    (ts : List ℕ) → bytes_tokens (tokens_bytes ts) ≡ map (λ t. t % 2 ^ 32) ts
unfolding tokens_bytes bytes_tokens
bytes_tokens-tokens_bytes [] = refl
bytes_tokens-tokens_bytes (t ∷ ts) = rw (token_value t, bytes_tokens-tokens_bytes ts)

-- Decoding a blob name gives the tokens back modulo 2 ^ 32: each token keeps exactly its low 32 bits.
pub decode-encode_tokens :
    (base64 : Base64Url) (ts : List ℕ)
    → decode_blob_name_to_tokens base64 (encode_tokens_to_blob_name base64 ts)
      ≡ map (λ t. t % 2 ^ 32) ts
unfolding encode_tokens_to_blob_name decode_blob_name_to_tokens
decode-encode_tokens base64 ts =
    rw (base64.decode-encode (tokens_bytes ts) (tokens_bytes-lt ts)) (bytes_tokens-tokens_bytes ts)
