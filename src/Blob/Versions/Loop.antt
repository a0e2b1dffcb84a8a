-- ===== src/Blob/Versions/Loop.antt =====
-- The loop of the parser over a whole serialized list.
use kv_store_v.Base.{
  ℕ, zero, suc, ◌+◌, ◌<◌, ◌≤◌, ◌≡◌, ◌≢◌, refl, ap, ◌∙◌, false, List, [], ◌∷◌, ◌++◌, append_assoc,
  append-nil, some, arith, Bytes, codes, Lacks, npos, find, substr, index_of, starts_with, equal,
  empty, length, length-append, drop-length-append, All, All-append, ok, to_string,
  to_string-digits,
}
use kv_store_v.Base.Text.Search.{index_of-cons, index_of_byte, find_at, substr_at}
use kv_store_v.Blob.Versions.{
  AdditionalVersion, parse_loop, parse_additional_versions, serialize_version, serialize_rest,
  serialize_additional_versions,
}
use kv_store_v.Blob.Versions.RoundTrip.{IsWritable, digits-Lacks, parse-serialize_version}

-- A version without its closing brace.
version_body : AdditionalVersion → Bytes
version_body v =
    codes "{\"hash\":\""
    ++ (to_string v.hash
        ++ (codes "\",\"parentHash\":\""
            ++ (to_string v.parent_hash
                ++ (codes "\",\"location\":\"" ++ (v.location ++ codes "\"")))))

serialize-body : (v : AdditionalVersion) → serialize_version v ≡ version_body v ++ codes "}"
unfolding serialize_version version_body
serialize-body v = simp append_assoc

body-Lacks : (v : AdditionalVersion) → IsWritable v → Lacks b'}' (version_body v)
unfolding version_body
body-Lacks v w = All-append _ (codes "{\"hash\":\"") _ (omega arith) (
    All-append _ (to_string v.hash) _
      (digits-Lacks b'}' (to_string v.hash) (omega arith) (to_string-digits v.hash))
      (All-append _ (codes "\",\"parentHash\":\"") _ (omega arith) (
        All-append _ (to_string v.parent_hash) _
          (digits-Lacks b'}' (to_string v.parent_hash) (omega arith)
            (to_string-digits v.parent_hash))
          (All-append _ (codes "\",\"location\":\"") _ (omega arith)
            (All-append _ v.location _ w.no_brace (omega arith))))))

key-object :
    (v : AdditionalVersion) (rest : Bytes)
    → index_of (codes "{\"hash\":") (serialize_version v ++ rest) ≡ some 0
unfolding serialize_version
key-object v rest = unfold index_of in refl

-- One round reads one version, behind a byte `c` that opens no object.
module _ (pre : Bytes) (c : ℕ) (v : AdditionalVersion) (rest : Bytes) (acc : List AdditionalVersion)
    (other : c ≢ b'{') (w : IsWritable v)
    (fits : length (pre ++ c ∷ (serialize_version v ++ rest)) < npos) where
  abbrev whole : Bytes
  whole = pre ++ c ∷ (serialize_version v ++ rest)

  size : length whole ≡ length pre + suc (length (serialize_version v) + length rest)
  size = omega (
    arith,
    length-append pre (c ∷ (serialize_version v ++ rest)),
    length-append (serialize_version v) rest,
  )

  body_size : length (serialize_version v) ≡ length (version_body v) + 1
  body_size =
      omega (arith, ap length (serialize-body v), length-append (version_body v) (codes "}"))

  start_lem : find whole (codes "{\"hash\":") (length pre) ≡ length pre + 1
  start_lem = find_at pre (c ∷ (serialize_version v ++ rest)) (codes "{\"hash\":") 1 (
      ground (
        arith,
        index_of-cons (codes "{\"hash\":") c (serialize_version v ++ rest)
            (unfold starts_with in ground arith),
        key-object v rest,
      ))

  end_lem : find whole (codes "}") (length pre + 1) ≡ length pre + length (serialize_version v)
  end_lem = rw (behind, at_brace) (found ∙ omega (arith, behind, body_size))
    where
      behind : length pre + 1 ≡ length (pre ++ c ∷ [])
      behind = omega (arith, length-append pre (c ∷ []))

      at_brace : whole ≡ (pre ++ c ∷ []) ++ (version_body v ++ b'}' ∷ rest)
      at_brace = rw (serialize-body v) (simp append_assoc)

      found :
          find
            ((pre ++ c ∷ []) ++ (version_body v ++ b'}' ∷ rest))
            (codes "}")
            (length (pre ++ c ∷ []))
          ≡ length (pre ++ c ∷ []) + length (version_body v)
      found =
          find_at (pre ++ c ∷ []) (version_body v ++ b'}' ∷ rest) (codes "}")
            (length (version_body v)) (index_of_byte b'}' (version_body v) rest (body-Lacks v w))

  object_lem :
      substr whole (length pre + 1) (length (serialize_version v)) ≡ ok (serialize_version v)
  object_lem = rw (behind, split) (substr_at (pre ++ c ∷ []) (serialize_version v) rest)
    where
      behind : length pre + 1 ≡ length (pre ++ c ∷ [])
      behind = omega (arith, length-append pre (c ∷ []))

      split : whole ≡ (pre ++ c ∷ []) ++ (serialize_version v ++ rest)
      split = simp append_assoc

  parse_loop_round :
      (fuel : ℕ)
      → parse_loop (suc fuel) whole (length pre) acc
        ≡ parse_loop fuel whole (length pre + length (serialize_version v) + 1) (acc ++ v ∷ [])
  unfolding parse_loop
  parse_loop_round fuel = ground (
    arith,
    start_lem,
    end_lem,
    object_lem,
    body_size,
    size,
    parse-serialize_version v w (omega (arith, size)),
  )

length-serialize_rest : (vs : List AdditionalVersion) → length vs ≤ length (serialize_rest vs)
unfolding serialize_rest
length-serialize_rest [] = omega arith
length-serialize_rest (v ∷ vs) =
    omega (arith, length-append (serialize_version v) (serialize_rest vs), length-serialize_rest vs)

parse_loop-nil :
    (fuel : ℕ) (pre : Bytes) (acc : List AdditionalVersion)
    → parse_loop fuel (pre ++ codes "]") (length pre) acc ≡ ok acc
unfolding parse_loop
parse_loop-nil zero pre acc = refl
parse_loop-nil (suc fuel) pre acc = ground (arith, none_left)
  where
    none_left : find (pre ++ codes "]") (codes "{\"hash\":") (length pre) ≡ npos
    none_left = unfold find in ground (arith, drop-length-append pre (codes "]"))

parse_loop-rest :
    (vs : List AdditionalVersion) (pre : Bytes) (acc : List AdditionalVersion) (fuel : ℕ)
    → length vs ≤ fuel
    → All IsWritable vs
    → length (pre ++ serialize_rest vs) < npos
    → parse_loop fuel (pre ++ serialize_rest vs) (length pre) acc ≡ ok (acc ++ vs)
unfolding serialize_rest
parse_loop-rest [] pre acc fuel enough ws fits = rw (append-nil acc) (parse_loop-nil fuel pre acc)
parse_loop-rest (v ∷ vs) pre acc zero enough ws fits = absurd (omega arith)
parse_loop-rest (v ∷ vs) pre acc (suc fuel) enough ws fits =
    parse_loop_round pre b',' v (serialize_rest vs) acc (omega arith) ws.0 fits fuel
    ∙ rw (split, count)
        (parse_loop-rest vs (pre ++ b',' ∷ serialize_version v) (acc ++ v ∷ []) fuel (omega arith)
            ws.1 (rw split at fits)
          ∙ ap ok (append_assoc acc (v ∷ []) vs))
  where
    split :
        pre ++ b',' ∷ (serialize_version v ++ serialize_rest vs)
        ≡ (pre ++ b',' ∷ serialize_version v) ++ serialize_rest vs
    split = simp append_assoc

    count :
        length pre + length (serialize_version v) + 1 ≡ length (pre ++ b',' ∷ serialize_version v)
    count = omega (arith, length-append pre (b',' ∷ serialize_version v))

parse_loop-serialized :
    (v : AdditionalVersion) (vs : List AdditionalVersion) (fuel : ℕ)
    → length vs ≤ fuel
    → All IsWritable (v ∷ vs)
    → length (serialize_additional_versions (v ∷ vs)) < npos
    → parse_loop (suc fuel) (serialize_additional_versions (v ∷ vs)) 0 [] ≡ ok (v ∷ vs)
unfolding serialize_additional_versions
parse_loop-serialized v vs fuel enough ws fits =
    parse_loop_round [] b'[' v (serialize_rest vs) [] (omega arith) ws.0 fits fuel
    ∙ rw count
        (parse_loop-rest vs (codes "[" ++ serialize_version v) (v ∷ []) fuel enough ws.1 fits)
  where
    count : 0 + length (serialize_version v) + 1 ≡ length (codes "[" ++ serialize_version v)
    count = omega arith

not_brackets :
    (v : AdditionalVersion) (vs : List AdditionalVersion)
    → equal (serialize_additional_versions (v ∷ vs)) (codes "[]") ≡ false
unfolding equal serialize_additional_versions serialize_version
not_brackets v vs = refl

-- Reading back what was written: if every version is writable and the text is shorter than npos, the
-- parser returns exactly the list that was serialized, in its order.
pub parse-serialize :
    (vs : List AdditionalVersion)
    → All IsWritable vs
    → length (serialize_additional_versions vs) < npos
    → parse_additional_versions (serialize_additional_versions vs) ≡ ok vs
unfolding parse_additional_versions
parse-serialize [] ws fits = unfold serialize_additional_versions equal in refl
parse-serialize (v ∷ vs) ws fits = ground (
  arith,
  not_brackets v vs,
  nonempty,
  parse_loop-serialized v vs (length (serialize_version v ++ serialize_rest vs)) enough ws fits,
)
  where
    nonempty :
        (empty (serialize_additional_versions (v ∷ vs)) ≡ false)
        × (length (serialize_additional_versions (v ∷ vs))
            ≡ suc (length (serialize_version v ++ serialize_rest vs)))
    nonempty = unfold serialize_additional_versions in (refl, refl)

    enough : length vs ≤ length (serialize_version v ++ serialize_rest vs)
    enough =
        omega
          (arith, length-append (serialize_version v) (serialize_rest vs), length-serialize_rest vs)
