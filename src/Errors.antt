-- ===== src/Errors.antt =====
-- pkg/moqttransport/errors.go, with the sentinels of quic_manager.go and data_track_handler.go.
-- An error value is compared by identity: a sentinel is its own, an allocated one has an address.
pub mod Messages
use mcp_moqt_transport.Base.{ℕ, ◌≡◌, refl, ◌⊎◌, inl, inr, Bool, false, String, str_eq, ◌==◌}

pub data Sentinel : Type 0 where
  invalid_role invalid_addr invalid_alpn connection_closed session_not_found : Sentinel
  track_not_found timeout tls_config quic_config discovery_failed subscribe_failed : Sentinel
  no_publisher no_subscriber invalid_data_track ack_timeout heartbeat_failed : Sentinel
  max_retries_exceeded not_retryable : Sentinel
  pool_closed no_available_connection pool_full message_too_large : Sentinel

-- The position in the declarations: distinct `errors.New` values are distinct pointers.
abbrev pub code : Sentinel → ℕ
code invalid_role = 0
code invalid_addr = 1
code invalid_alpn = 2
code connection_closed = 3
code session_not_found = 4
code track_not_found = 5
code timeout = 6
code tls_config = 7
code quic_config = 8
code discovery_failed = 9
code subscribe_failed = 10
code no_publisher = 11
code no_subscriber = 12
code invalid_data_track = 13
code ack_timeout = 14
code heartbeat_failed = 15
code max_retries_exceeded = 16
code not_retryable = 17
code pool_closed = 18
code no_available_connection = 19
code pool_full = 20
code message_too_large = 21

-- `foreign` is an error of other packages (a context's, quic-go's, json's), by its address;
-- `text` a fresh `errors.New` or `fmt.Errorf` with no cause, `wrap` a `fmt.Errorf` with `%w`,
-- `transport` a `*TransportError` and `retryable` a `*RetryableError` at an address.
pub data Error : Type 0 where
  sentinel : Sentinel → Error
  foreign : ℕ → Error
  text : String → Error
  wrap : String → Error → Error
  transport : ℕ → String → String → Error → Error
  retryable : ℕ → Bool → Error → Error

pub data Result {ℓ} (A : Type ℓ) : Type ℓ where
  ok : A → Result A
  err : Error → Result A

-- `err == target` for a sentinel target.
abbrev pub is_sentinel : Sentinel → Error → Bool
is_sentinel s (sentinel t) = code t == code s
is_sentinel s _ = false

-- `errors.Is` for a sentinel target: the error itself, or one that it wraps.
unfoldable pub is : Sentinel → Error → Bool
is s (sentinel t) = is_sentinel s (sentinel t)
is s (foreign n) = false
is s (text m) = false
is s (wrap m e) = is s e
is s (transport a op role e) = is s e
is s (retryable a b e) = is s e

unfoldable pub is_timeout : Error → Bool
unfolding is
is_timeout e = is timeout e

unfoldable pub is_connection_closed : Error → Bool
unfolding is
is_connection_closed e = is connection_closed e

-- `errors.As` into a *TransportError finds the outermost one of the chain.
unfoldable pub is_temporary : Error → Bool
is_temporary (sentinel t) = false
is_temporary (foreign n) = false
is_temporary (text m) = false
is_temporary (wrap m e) = is_temporary e
is_temporary (transport a op role e) = str_eq role "temporary"
is_temporary (retryable a b e) = is_temporary e

pub Result-cases {ℓ} :
    {A : Type ℓ} (r : Result A) → ((e : Error) × (r ≡ err e)) ⊎ ((a : A) × (r ≡ ok a))
Result-cases (err e) = inl (e, refl)
Result-cases (ok a) = inr (a, refl)
