-- ===== src/Store/MultiNic.antt =====
-- KVService/src/AzureStorageKVStoreLibV2.cpp: MultiNicSocketCallback. The operating system is an argument:
-- the socket that the k-th attempt creates, if any, and whether a socket can be bound to an interface.
-- What the shared index is when it is loaded and when the exchange succeeds is an argument too.
pub mod Bound
mod Tests
use kv_store_v.Base.{
  ℕ, zero, suc, ◌+◌, ◌-◌, ◌%◌, ◌<◌, ◌≤◌, ◌≡◌, refl, sym, ap, ◌∙◌, ◌⊎◌, inl, inr, Bool, true, false,
  not, ◌||◌, List, [], ◌∷◌, ◌++◌, Option, none, some, if◌then◌else◌, if-cases, ltb, ==_self, ◌==◌,
  arith, Bytes, empty, length, All,
}

-- The value that the exchange stores after `current`.
unfoldable pub next_index : ℕ → ℕ → ℕ
next_index num_nics current = if ltb (current + 1) num_nics then current + 1 else 0

-- The start index and the shared index afterwards: the exchange that succeeds has seen `current`, while the
-- start index stays the one that was loaded.
abbrev pub take_index : ℕ → ℕ → ℕ → ℕ × ℕ
unfolding next_index
take_index num_nics loaded current = (loaded, next_index num_nics current)

-- What the attempts did: the socket that was bound with its interface, the sockets that were created and closed,
-- and the interfaces that were tried.
pub record Attempts : Type 0 where
  pub bound : Option (ℕ × ℕ)
  pub opened : List ℕ
  pub closed : List ℕ
  pub tried : List ℕ

abbrev pub no_attempts : Attempts
no_attempts = record { bound = none; opened = []; closed = []; tried = [] }

abbrev pub bind_or_close : Bool → ℕ → ℕ → Attempts → Attempts
bind_or_close true fd index rest = record {
  bound = some (fd, index);
  opened = fd ∷ [];
  closed = [];
  tried = index ∷ [];
}
bind_or_close false fd index rest = record {
  bound = rest.bound;
  opened = fd ∷ rest.opened;
  closed = fd ∷ rest.closed;
  tried = index ∷ rest.tried;
}

abbrev pub attempt_with : (ℕ → ℕ → Bool) → Option ℕ → ℕ → Attempts → Attempts
attempt_with binds none index rest = rest
attempt_with binds (some fd) index rest = bind_or_close (binds fd index) fd index rest

module _ (socket : ℕ → Option ℕ) (binds : ℕ → ℕ → Bool) (num_nics start_index : ℕ) where
  -- The loop from `attempt` on, with `n` rounds left.
  unfoldable pub try_interfaces : ℕ → ℕ → Attempts
  try_interfaces zero attempt = no_attempts
  try_interfaces (suc n) attempt =
      attempt_with binds (socket attempt) ((start_index + attempt) % num_nics)
        (try_interfaces n (suc attempt))

-- The callback's result, `none` for CURL_SOCKET_BAD.
abbrev pub returned_socket : Option ℕ → Attempts → Option ℕ
returned_socket default r = elim r.bound [ none ↦ default | some found ↦ some found.0 ]

-- The socket and the shared index afterwards; `is_connection` tells that the purpose is CURLSOCKTYPE_IPCXN.
unfoldable pub multi_nic_socket_callback :
    (ℕ → Option ℕ) → (ℕ → ℕ → Bool) → List Bytes → Bool → ℕ → ℕ → Option ℕ × ℕ
unfolding try_interfaces take_index
multi_nic_socket_callback socket binds nic_ips is_connection loaded current =
    let num_nics = length nic_ips in
    let (start_index, stored) = take_index num_nics loaded current in
    if not is_connection || empty nic_ips then (socket 0, current) else (
      returned_socket (socket num_nics)
          (try_interfaces socket binds num_nics start_index num_nics 0),
      stored,
    )
