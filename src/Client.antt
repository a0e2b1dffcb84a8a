-- ===== src/Client.antt =====
-- KVClient/src/KVStoreGrpcClient.cpp: the client turns an account URL back into a resource name. The
-- positions that are used are below the length of the URL, so that substr does not throw.
pub mod Calls
pub mod Stream
mod Tests
use kv_store_v.Base.{
  ℕ, ◌+◌, ◌-◌, ◌<◌, ◌≡◌, refl, sym, ap, ◌∙◌, [], ◌∷◌, ◌++◌, ◌==◌, ==-false, some, if◌then◌else◌,
  arith, Bytes, codes, Lacks, length, length-append, take, take-length-append, drop,
  drop-length-append, append_assoc, npos, find, index_of, subst,
}
use kv_store_v.Base.Text.Search.{index_of-Lacks, index_of-append, index_of_byte, find_at, shift}
use kv_store_v.Resolver.Memory.{InMemoryAccountResolver, build_account_url}

unfoldable pub extract_resource_name : Bytes → Bytes
unfolding find
extract_resource_name account_url =
    let scheme_end = find account_url (codes "://") 0 in
    let start = scheme_end + 3 in
    let end = find account_url (codes ".") start in
    if scheme_end == npos
    then account_url
    else if end == npos
    then drop start account_url
    else take (end - start) (drop start account_url)

module _ (scheme name suffix : Bytes) (no_colon : Lacks b':' scheme) (no_dot : Lacks b'.' name)
    (fits : length ((scheme ++ codes "://") ++ (name ++ b'.' ∷ suffix)) < npos) where
  abbrev url : Bytes
  url = (scheme ++ codes "://") ++ (name ++ b'.' ∷ suffix)

  scheme_found : find url (codes "://") 0 ≡ length scheme
  scheme_found =
      find_at [] url (codes "://") (length scheme) (
        ap (λ (t : Bytes). index_of (codes "://") t)
          (append_assoc scheme (codes "://") (name ++ b'.' ∷ suffix))
        ∙ (index_of-Lacks b':' (codes "//") scheme (codes "://" ++ (name ++ b'.' ∷ suffix)) no_colon
            ∙ (ap (shift (length scheme)) (index_of-append (codes "://") (name ++ b'.' ∷ suffix))
                ∙ ap some (omega arith))))
      ∙ omega arith

  front_length : length (scheme ++ codes "://") ≡ length scheme + 3
  front_length = omega (arith, length-append scheme (codes "://"))

  dot_found : find url (codes ".") (length scheme + 3) ≡ length scheme + 3 + length name
  dot_found =
      ap (find url (codes ".")) (sym front_length)
      ∙ (find_at (scheme ++ codes "://") (name ++ b'.' ∷ suffix) (codes ".") (length name)
            (index_of_byte b'.' name suffix no_dot)
          ∙ ap (λ (n : ℕ). n + length name) front_length)

  behind : drop (length scheme + 3) url ≡ name ++ b'.' ∷ suffix
  behind =
      ap (λ (n : ℕ). drop n url) (sym front_length)
      ∙ drop-length-append (scheme ++ codes "://") (name ++ b'.' ∷ suffix)

  extract-url : extract_resource_name url ≡ name
  unfolding extract_resource_name
  extract-url = rw (
    scheme_found,
    dot_found,
    behind,
    ==-false (length scheme) npos (omega (arith, sizes)),
    ==-false (length scheme + 3 + length name) npos (omega (arith, sizes)),
    width,
    take-length-append name (b'.' ∷ suffix),
  )
    where
      sizes : length url ≡ length scheme + 3 + (length name + (1 + length suffix))
      sizes = omega (
        arith,
        front_length,
        length-append (scheme ++ codes "://") (name ++ b'.' ∷ suffix),
        length-append name (b'.' ∷ suffix),
      )

      width : length scheme + 3 + length name - (length scheme + 3) ≡ length name
      width = omega arith

-- The client recovers the resource name from the URL that the in-memory resolver builds for it, if the URL
-- scheme has no colon, the name no dot, the DNS suffix starts with a dot, and the URL is shorter than npos.
pub extract_resource_name-build_account_url :
    {Store : Type 0} (name suffix : Bytes) (r : InMemoryAccountResolver Store)
    → Lacks b':' r.url_scheme
    → Lacks b'.' name
    → r.blob_dns_suffix ≡ b'.' ∷ suffix
    → length (build_account_url name r) < npos
    → extract_resource_name (build_account_url name r) ≡ name
unfolding build_account_url
extract_resource_name-build_account_url name suffix r no_colon no_dot dotted fits =
    ap extract_resource_name same
    ∙ extract-url r.url_scheme name suffix no_colon no_dot
        (subst (λ (t : Bytes). length t < npos) same fits)
  where
    same : build_account_url name r ≡ (r.url_scheme ++ codes "://") ++ (name ++ b'.' ∷ suffix)
    same = rw dotted (sym (append_assoc r.url_scheme (codes "://") (name ++ b'.' ∷ suffix)))
