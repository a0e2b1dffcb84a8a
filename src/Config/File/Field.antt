-- ===== src/Config/File/Field.antt =====
-- A plain field of the configuration file is read back.
use kv_store_v.Base.{
  ℕ, ◌+◌, ◌<◌, ◌≡◌, refl, ap, ◌∙◌, false, [], ◌∷◌, ◌++◌, ◌==◌, leb, ==-false, arith, some, Bytes,
  codes, Lacks, length, drop, npos, find, length-append, take-length-append, append_assoc,
}
use kv_store_v.Base.Text.Search.{index_of-append, find_in, drop_in}
use kv_store_v.Config.Json.{quoted, quote_end-Lacks}
use kv_store_v.Config.File.{unescape, extract_string_value}

unescape-Lacks : (c : ℕ) (v : Bytes) → Lacks b'\\' v → unescape c v ≡ v
unfolding unescape
unescape-Lacks c [] h = refl
unescape-Lacks c (x ∷ []) h = refl
unescape-Lacks c (x ∷ y ∷ s) h = ground (arith, unescape-Lacks c (y ∷ s) h.1)

-- A field that stands in the text as `"key":"value"` is read back: `pre` is the text in front of the key's
-- first occurrence, the value has no quote and no backslash, and the text is shorter than npos.
pub extract_string_value-field :
    (pre key value rest : Bytes)
    → let json = pre ++ (quoted key ++ (codes ":\"" ++ (value ++ (codes "\"" ++ rest)))) in
      find json (quoted key) 0 ≡ length pre
      → Lacks b'"' value
      → Lacks b'\\' value
      → length json < npos
      → extract_string_value json key ≡ some value
unfolding extract_string_value
extract_string_value-field pre key value rest first q b fits = rw (
  first,
  colon,
  quote,
  text,
  quote_end-Lacks value rest b'"' (λ e. cc) q b,
  take-length-append value (codes "\"" ++ rest),
  unescape-Lacks b'"' value b,
  unescape-Lacks b'\\' value b,
  below (length pre) (omega (arith, measure)),
  below (length pre + length (quoted key)) (omega (arith, measure)),
  below (length pre + length (quoted key) + 1) (omega (arith, measure)),
  inside,
)
  where
    body : Bytes
    body = value ++ (codes "\"" ++ rest)

    json : Bytes
    json = pre ++ (quoted key ++ (codes ":\"" ++ body))

    n : ℕ
    n = length pre + length (quoted key)

    split : (t : Bytes) → (pre ++ quoted key) ++ t ≡ pre ++ (quoted key ++ t)
    split t = append_assoc pre (quoted key) t

    colon :
        find json (codes ":") (length pre + length (quoted key)) ≡ length pre + length (quoted key)
    colon =
        find_in (pre ++ quoted key) (codes ":\"" ++ body) json (codes ":") n
          (split (codes ":\"" ++ body)) (length-append pre (quoted key))
          (index_of-append (codes ":") (codes "\"" ++ body))

    quote :
        find json (codes "\"") (length pre + length (quoted key) + 1)
        ≡ length pre + length (quoted key) + 1
    quote =
        find_in (pre ++ (quoted key ++ codes ":")) (codes "\"" ++ body) json (codes "\"") (n + 1)
          (append_assoc pre (quoted key ++ codes ":") (codes "\"" ++ body)
            ∙ ap (λ (t : Bytes). pre ++ t)
                (append_assoc (quoted key) (codes ":") (codes "\"" ++ body)))
          (omega (
            arith,
            length-append pre (quoted key ++ codes ":"),
            length-append (quoted key) (codes ":"),
          ))
          (index_of-append (codes "\"") body)

    text : drop (length pre + length (quoted key) + 1 + 1) json ≡ body
    text =
        drop_in (pre ++ (quoted key ++ codes ":\"")) body json (n + 1 + 1)
          (append_assoc pre (quoted key ++ codes ":\"") body
            ∙ ap (λ (t : Bytes). pre ++ t) (append_assoc (quoted key) (codes ":\"") body))
          (omega (
            arith,
            length-append pre (quoted key ++ codes ":\""),
            length-append (quoted key) (codes ":\""),
          ))

    measure :
        length json ≡ length pre + length (quoted key) + 1 + 1 + (length value + 1 + length rest)
    measure = omega (
      arith,
      length-append pre (quoted key ++ (codes ":\"" ++ body)),
      length-append (quoted key) (codes ":\"" ++ body),
      length-append value (codes "\"" ++ rest),
    )

    below : (i : ℕ) → i < length json → (i == npos) ≡ false
    below i h = ==-false i npos (omega (arith, fits, h))

    inside : leb (length json) (length pre + length (quoted key) + 1 + 1 + length value) ≡ false
    inside = ground (arith, measure)
