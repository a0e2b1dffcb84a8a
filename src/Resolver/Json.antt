-- ===== src/Resolver/Json.antt =====
-- The JSON helpers of KVService/src/StorageDatabaseResolver.cpp. Positions that are used are below the
-- length of the text, so that substr does not throw. The loops over positions run on the length of
-- their text, which every round's position passes by at least one.
use kv_store_v.Base.{
  ℕ, zero, suc, ◌+◌, ◌-◌, not, ◌||◌, List, [], ◌∷◌, ◌==◌, ltb, if◌then◌else◌, Option, none, some,
  Bytes, codes, empty, length, take, drop, npos, find, starts_with, Dict, insert,
}
use kv_store_v.Base.Decimal.{skip_space}
use kv_store_v.Config.Json.{quote_end, quoted}

-- The value, from behind the colon and the white space.
unfoldable pub string_value : Bytes → Option Bytes
unfolding quote_end starts_with
string_value [] = none
string_value (c ∷ s) =
    let size = quote_end b'"' s in
    if starts_with (codes "null") (c ∷ s)
    then some []
    else if not (c == b'"')
    then none
    else if ltb size (length s)
    then some (take size s)
    else none

unfoldable pub extract_string_value : Bytes → Bytes → Option Bytes
unfolding find string_value skip_space
extract_string_value json key =
    let search_key = quoted key in
    let key_pos = find json search_key 0 in
    let colon_pos = find json (codes ":") (key_pos + length search_key) in
    if key_pos == npos
    then none
    else if colon_pos == npos
    then none
    else string_value (skip_space (drop (colon_pos + 1) json))

-- The brace count behind one more byte.
abbrev pub count_brace : ℕ → ℕ → ℕ
count_brace c n = if c == b'{' then n + 1 else if c == b'}' then n - 1 else n

abbrev pub one_more : Option ℕ → Option ℕ
one_more none = none
one_more (some n) = some (suc n)

-- How many bytes bring a count of open braces to 0.
unfoldable pub closing_brace : ℕ → Bytes → Option ℕ
closing_brace zero s = some 0
closing_brace (suc n) [] = none
closing_brace (suc n) (c ∷ s) = one_more (closing_brace (count_brace c (suc n)) s)

-- The texts between quotes, from position `pos` on.
unfoldable pub elements : ℕ → Bytes → ℕ → List Bytes
unfolding find
elements zero content pos = []
elements (suc fuel) content pos =
    let elem_start = find content (codes "\"") pos in
    let elem_end = find content (codes "\"") (elem_start + 1) in
    let rest = elements fuel content (elem_end + 1) in
    if not (ltb pos (length content)) || elem_start == npos || elem_end == npos
    then []
    else take (elem_end - elem_start - 1) (drop (elem_start + 1) content) ∷ rest

-- The next region's name and accounts, and the position behind its array; `none` ends the loop.
unfoldable pub region_at : Bytes → ℕ → Option (Bytes × List Bytes × ℕ)
unfolding find elements
region_at content pos =
    let quote_start = find content (codes "\"") pos in
    let quote_stop = find content (codes "\"") (quote_start + 1) in
    let array_start = find content (codes "[") quote_stop in
    let array_end = find content (codes "]") array_start in
    let array_content = take (array_end - array_start - 1) (drop (array_start + 1) content) in
    if not (ltb pos (length content))
      || quote_start == npos
      || quote_stop == npos
      || array_start == npos
      || array_end == npos
    then none
    else some (
      take (quote_stop - quote_start - 1) (drop (quote_start + 1) content),
      elements (length array_content) array_content 0,
      array_end + 1,
    )

-- A region without accounts is left out.
unfoldable pub add_region : Bytes → List Bytes → Dict (List Bytes) → Dict (List Bytes)
add_region name accounts region_map =
    if empty accounts then region_map else insert name accounts region_map

-- The rounds of the loop, from position `pos` on.
unfoldable pub regions : ℕ → Bytes → ℕ → Dict (List Bytes) → Dict (List Bytes)
regions zero content pos region_map = region_map
regions (suc fuel) content pos region_map = elim (region_at content pos) [
  | none ↦ region_map
  | some region ↦ regions fuel content region.2 (add_region region.0 region.1 region_map)
]

-- mapContent, the text between the braces.
unfoldable pub map_content : Bytes → Option Bytes
unfolding find closing_brace
map_content json =
    let search_key = codes "\"regionStorageMap\"" in
    let key_pos = find json search_key 0 in
    let brace_pos = find json (codes "{") (key_pos + length search_key) in
    let behind = drop (brace_pos + 1) json in
    if key_pos == npos
    then none
    else if brace_pos == npos
    then none
    else elim (closing_brace 1 behind) [ none ↦ none | some size ↦ some (take (size - 1) behind) ]

-- !regionMap.empty()
abbrev pub some_regions : Dict (List Bytes) → Option (Dict (List Bytes))
some_regions region_map = if empty region_map then none else some region_map

abbrev pub parse_regions : Option Bytes → Option (Dict (List Bytes))
parse_regions none = none
parse_regions (some content) = some_regions (regions (length content) content 0 [])

-- `none` is the result false.
unfoldable pub extract_region_storage_map : Bytes → Option (Dict (List Bytes))
extract_region_storage_map json = parse_regions (map_content json)
