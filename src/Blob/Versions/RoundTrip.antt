-- ===== src/Blob/Versions/RoundTrip.antt =====
-- The parser of the version list reads back what the serializer writes.
use kv_store_v.Base.{
  ℕ, suc, ◌+◌, ◌<◌, ◌≡◌, refl, ap, sym, ◌∙◌, false, [], ◌∷◌, ◌++◌, append_assoc, some, arith, Bytes,
  codes, Lacks, word, add64, sub64, find, index_of, starts_with, length, length-append, All, ok,
  IsDigit, to_string, to_string-digits, stoull-to_string,
}
use kv_store_v.Base.Text.Search.{
  shift, index_of-append, index_of-cons, index_of-Lacks, index_of_byte, find_at, substr_at,
}
use kv_store_v.Blob.Versions.{AdditionalVersion, quoted_field, parse_version, serialize_version}

pub digits-Lacks : (q : ℕ) (ds : Bytes) → 57 < q → All IsDigit ds → Lacks q ds
digits-Lacks q [] h d = tt
digits-Lacks q (c ∷ ds) h d = (ground arith, digits-Lacks q ds h d.1)

quote_digits : (ds : Bytes) → All IsDigit ds → Lacks b'"' ds
quote_digits [] d = tt
quote_digits (c ∷ ds) d = (ground arith, quote_digits ds d.1)

quoted_field_lem :
    (obj pre key value post : Bytes) (width : ℕ)
    → obj ≡ pre ++ (key ++ (value ++ b'"' ∷ post))
    → index_of key obj ≡ some (length pre)
    → Lacks b'"' value
    → length obj < word
    → width ≡ length key
    → quoted_field obj key width ≡ ok value
unfolding quoted_field
quoted_field_lem obj pre key value post width shape at lacks fits w =
    rw (found, start, end, len) (rw whole (substr_at (pre ++ key) value (b'"' ∷ post)))
  where
    whole : obj ≡ (pre ++ key) ++ (value ++ b'"' ∷ post)
    whole = shape ∙ sym (append_assoc pre key (value ++ b'"' ∷ post))

    size : length obj ≡ length (pre ++ key) + (length value + suc (length post))
    size = omega (
      arith,
      ap length whole,
      length-append (pre ++ key) (value ++ b'"' ∷ post),
      length-append value (b'"' ∷ post),
    )

    found : find obj key 0 ≡ length pre
    found = ground (arith, find_at [] obj key (length pre) at)

    start : add64 (length pre) width ≡ length (pre ++ key)
    start = omega (arith, length-append pre key, size)

    end : find obj (b'"' ∷ []) (length (pre ++ key)) ≡ length (pre ++ key) + length value
    end = rw whole (
        find_at (pre ++ key) (value ++ b'"' ∷ post) (b'"' ∷ []) (length value)
          (index_of_byte b'"' value post lacks))

    len : sub64 (length (pre ++ key) + length value) (length (pre ++ key)) ≡ length value
    len = omega (arith, size)

-- A key that starts by a quote and a letter beyond `h` is not met in what stands in front of it.
module _ (k : ℕ) (ks : Bytes) (letter : 104 < k) where
  pass_open :
      (t : Bytes)
      → index_of (b'"' ∷ k ∷ ks) (codes "{\"hash\":" ++ t) ≡ shift 8 (index_of (b'"' ∷ k ∷ ks) t)
  unfolding index_of
  pass_open t = ground arith

  not_in_number :
      (ds t : Bytes)
      → All IsDigit ds
      → starts_with (b'"' ∷ k ∷ ks) (b'"' ∷ (ds ++ b'"' ∷ t)) ≡ false
  unfolding starts_with
  not_in_number [] t d = ground arith
  not_in_number (c ∷ ds) t d = ground arith

  pass_number :
      (ds t : Bytes)
      → All IsDigit ds
      → index_of (b'"' ∷ k ∷ ks) (b'"' ∷ (ds ++ b'"' ∷ b',' ∷ t))
        ≡ shift (length ds + 3) (index_of (b'"' ∷ k ∷ ks) t)
  pass_number ds t d = ground (
    arith,
    index_of-cons (b'"' ∷ k ∷ ks) b'"' (ds ++ b'"' ∷ b',' ∷ t) (not_in_number ds (b',' ∷ t) d),
    index_of-Lacks b'"' (k ∷ ks) ds (b'"' ∷ b',' ∷ t) (quote_digits ds d),
    pass_quote,
  )
    where
      pass_quote : index_of (b'"' ∷ k ∷ ks) (b'"' ∷ b',' ∷ t) ≡ shift 2 (index_of (b'"' ∷ k ∷ ks) t)
      pass_quote = unfold index_of in ground arith

pass_parent :
    (ks t : Bytes)
    → index_of (b'"' ∷ b'l' ∷ ks) (codes "\"parentHash\":" ++ t)
      ≡ shift 13 (index_of (b'"' ∷ b'l' ∷ ks) t)
unfolding index_of
pass_parent ks t = ground arith

-- What a version must satisfy to be written faithfully: hashes are uint64, and the location, which the
-- serializer does not escape, has no quote and no closing brace.
pub record IsWritable (v : AdditionalVersion) : Type 0 where
  pub hash_fits : v.hash < word
  pub parent_fits : v.parent_hash < word
  pub no_quote : Lacks b'"' v.location
  pub no_brace : Lacks b'}' v.location

module _ (v : AdditionalVersion) (w : IsWritable v)
    (fits : length (serialize_version v) < word) where
  abbrev h_str : Bytes
  h_str = to_string v.hash

  abbrev p_str : Bytes
  p_str = to_string v.parent_hash

  abbrev from_location : Bytes
  from_location = codes "\"location\":\"" ++ (v.location ++ codes "\"}")

  abbrev from_parent : Bytes
  from_parent = codes "\"parentHash\":\"" ++ (p_str ++ (codes "\"," ++ from_location))

  hash_field : quoted_field (serialize_version v) (codes "\"hash\":\"") 8 ≡ ok h_str
  unfolding serialize_version
  hash_field =
      quoted_field_lem (serialize_version v) (codes "{") (codes "\"hash\":\"") h_str
        (b',' ∷ from_parent) 8 refl (unfold index_of in refl)
        (quote_digits h_str (to_string-digits v.hash)) fits refl

  abbrev parent_key : Bytes
  parent_key = codes "\"parentHash\":\""

  abbrev location_key : Bytes
  location_key = codes "\"location\":\""

  abbrev location_rest : Bytes
  location_rest = codes "ocation\":\""

  abbrev parent_rest : Bytes
  parent_rest = codes "arentHash\":\""

  at_parent :
      index_of parent_key (serialize_version v)
      ≡ some (length (codes "{\"hash\":\"" ++ (h_str ++ codes "\",")))
  unfolding serialize_version
  at_parent = ground (
    arith,
    pass_open b'p' parent_rest (omega arith) (b'"' ∷ (h_str ++ b'"' ∷ b',' ∷ from_parent)),
    pass_number b'p' parent_rest (omega arith) h_str from_parent (to_string-digits v.hash),
    index_of-append parent_key (p_str ++ (codes "\"," ++ from_location)),
    length-append h_str (codes "\","),
  )

  at_location :
      index_of location_key (serialize_version v)
      ≡ some (
          length (
            codes "{\"hash\":\""
            ++ (h_str ++ (codes "\",\"parentHash\":\"" ++ (p_str ++ codes "\",")))))
  unfolding serialize_version
  at_location = ground (
    arith,
    pass_open b'l' location_rest (omega arith) (b'"' ∷ (h_str ++ b'"' ∷ b',' ∷ from_parent)),
    pass_number b'l' location_rest (omega arith) h_str from_parent (to_string-digits v.hash),
    pass_parent location_rest (b'"' ∷ (p_str ++ b'"' ∷ b',' ∷ from_location)),
    pass_number b'l' location_rest (omega arith) p_str from_location
        (to_string-digits v.parent_hash),
    index_of-append location_key (v.location ++ codes "\"}"),
    length-append h_str (codes "\",\"parentHash\":\"" ++ (p_str ++ codes "\",")),
    length-append p_str (codes "\","),
  )

  parent_field : quoted_field (serialize_version v) (codes "\"parentHash\":\"") 14 ≡ ok p_str
  unfolding serialize_version
  parent_field =
      quoted_field_lem (serialize_version v) (codes "{\"hash\":\"" ++ (h_str ++ codes "\","))
        (codes "\"parentHash\":\"") p_str (b',' ∷ from_location) 14 (simp append_assoc) at_parent
        (quote_digits p_str (to_string-digits v.parent_hash)) fits refl

  location_field : quoted_field (serialize_version v) location_key 12 ≡ ok v.location
  unfolding serialize_version
  location_field =
      quoted_field_lem (serialize_version v)
        (codes "{\"hash\":\""
          ++ (h_str ++ (codes "\",\"parentHash\":\"" ++ (p_str ++ codes "\","))))
        location_key v.location (codes "}") 12 (simp append_assoc) at_location w.no_quote fits refl

  pub parse-serialize_version : parse_version (serialize_version v) ≡ ok v
  unfolding parse_version
  parse-serialize_version = rw (
    hash_field,
    parent_field,
    location_field,
    stoull-to_string v.hash w.hash_fits,
    stoull-to_string v.parent_hash w.parent_fits,
  )
