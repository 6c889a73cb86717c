-- ===== src/Quic.antt =====
-- pkg/moqttransport/quic_manager.go, the QUIC configuration: the transport's own record, its
-- conversion, and the builder. `QuicConfig` holds the fields of `quic.Config` that the code sets; a
-- new one has them at zero. Durations are nanoseconds. The builder changes its config in place and
-- returns itself, so a method is a function on the config.
use mcp_moqt_transport.Base.{
  ℕ, ◌≡◌, refl, ap, ◌∙◌, arith, Bool, true, false, Option, none, some, List, [], ◌∷◌, ◌++◌,
  if◌then◌else◌, ltb,
}
use mcp_moqt_transport.Base.Word.{lt_64}

pub record QuicConnectionConfig : Type 0 where
  pub max_idle_timeout : ℕ
  pub keep_alive_period : ℕ
  pub max_incoming_streams : ℕ
  pub max_incoming_uni_streams : ℕ
  pub enable_datagrams : Bool
  pub initial_stream_receive_window : ℕ
  pub initial_connection_receive_window : ℕ
  pub max_stream_receive_window : ℕ
  pub max_connection_receive_window : ℕ
  pub allow_0rtt : Bool

unfoldable pub default_quic_connection_config : QuicConnectionConfig
default_quic_connection_config = record {
  max_idle_timeout = 30000000000;
  keep_alive_period = 15000000000;
  max_incoming_streams = 100;
  max_incoming_uni_streams = 100;
  enable_datagrams = true;
  initial_stream_receive_window = 1048576;
  initial_connection_receive_window = 1048576;
  max_stream_receive_window = 6291456;
  max_connection_receive_window = 15728640;
  allow_0rtt = false;
}

pub record QuicConfig : Type 0 where
  pub handshake_idle_timeout : ℕ
  pub max_idle_timeout : ℕ
  pub keep_alive_period : ℕ
  pub max_incoming_streams : ℕ
  pub max_incoming_uni_streams : ℕ
  pub enable_datagrams : Bool
  pub initial_stream_receive_window : ℕ
  pub initial_connection_receive_window : ℕ
  pub max_stream_receive_window : ℕ
  pub max_connection_receive_window : ℕ
  pub allow_0rtt : Bool

unfoldable pub to_quic_config : QuicConnectionConfig → QuicConfig
to_quic_config c = record {
  handshake_idle_timeout = 0;
  max_idle_timeout = c.max_idle_timeout;
  keep_alive_period = c.keep_alive_period;
  max_incoming_streams = c.max_incoming_streams;
  max_incoming_uni_streams = c.max_incoming_uni_streams;
  enable_datagrams = c.enable_datagrams;
  initial_stream_receive_window = c.initial_stream_receive_window;
  initial_connection_receive_window = c.initial_connection_receive_window;
  max_stream_receive_window = c.max_stream_receive_window;
  max_connection_receive_window = c.max_connection_receive_window;
  allow_0rtt = c.allow_0rtt;
}

unfoldable pub new_quic_config_builder : QuicConfig
new_quic_config_builder = record {
  handshake_idle_timeout = 0;
  max_idle_timeout = 0;
  keep_alive_period = 0;
  max_incoming_streams = 0;
  max_incoming_uni_streams = 0;
  enable_datagrams = true;
  initial_stream_receive_window = 0;
  initial_connection_receive_window = 0;
  max_stream_receive_window = 0;
  max_connection_receive_window = 0;
  allow_0rtt = false;
}

-- `quicConfigToPoolConfig` of client.go: a field that is set, by being positive, replaces the base's.
abbrev pub positive_or : ℕ → ℕ → ℕ
positive_or value base = if lt_64 0 value then value else base

abbrev pub nonzero_or : ℕ → ℕ → ℕ
nonzero_or value base = if ltb 0 value then value else base

unfoldable pub quic_config_to_pool_config :
    Option QuicConfig → QuicConnectionConfig → QuicConnectionConfig
quic_config_to_pool_config none base = base
quic_config_to_pool_config (some src) base = record {
  max_idle_timeout = positive_or src.max_idle_timeout base.max_idle_timeout;
  keep_alive_period = positive_or src.keep_alive_period base.keep_alive_period;
  max_incoming_streams = positive_or src.max_incoming_streams base.max_incoming_streams;
  max_incoming_uni_streams = positive_or src.max_incoming_uni_streams base.max_incoming_uni_streams;
  enable_datagrams = src.enable_datagrams;
  initial_stream_receive_window =
      nonzero_or src.initial_stream_receive_window base.initial_stream_receive_window;
  initial_connection_receive_window =
      nonzero_or src.initial_connection_receive_window base.initial_connection_receive_window;
  max_stream_receive_window =
      nonzero_or src.max_stream_receive_window base.max_stream_receive_window;
  max_connection_receive_window =
      nonzero_or src.max_connection_receive_window base.max_connection_receive_window;
  allow_0rtt = src.allow_0rtt;
}

-- The calls of the builder's methods.
pub data Setting : Type 0 where
  with_max_idle_timeout with_keep_alive_period : ℕ → Setting
  with_max_incoming_streams with_max_incoming_uni_streams : ℕ → Setting
  with_datagrams : Bool → Setting
  with_initial_stream_receive_window with_initial_connection_receive_window : ℕ → Setting
  with_max_stream_receive_window with_max_connection_receive_window : ℕ → Setting
  with_0rtt : Bool → Setting

unfoldable pub apply : Setting → QuicConfig → QuicConfig
apply (with_max_idle_timeout d) c = record c { max_idle_timeout = d }
apply (with_keep_alive_period d) c = record c { keep_alive_period = d }
apply (with_max_incoming_streams n) c = record c { max_incoming_streams = n }
apply (with_max_incoming_uni_streams n) c = record c { max_incoming_uni_streams = n }
apply (with_datagrams enabled) c = record c { enable_datagrams = enabled }
apply (with_initial_stream_receive_window n) c = record c { initial_stream_receive_window = n }
apply (with_initial_connection_receive_window n) c = record c {
  initial_connection_receive_window = n;
}
apply (with_max_stream_receive_window n) c = record c { max_stream_receive_window = n }
apply (with_max_connection_receive_window n) c = record c { max_connection_receive_window = n }
apply (with_0rtt enabled) c = record c { allow_0rtt = enabled }

-- A chain of calls, the first one first.
unfoldable pub apply_all : List Setting → QuicConfig → QuicConfig
unfolding apply
apply_all [] c = c
apply_all (s ∷ rest) c = apply_all rest (apply s c)

unfoldable pub build : List Setting → QuicConfig
unfolding apply_all new_quic_config_builder
build settings = apply_all settings new_quic_config_builder

-- One call for each field of a configuration.
abbrev pub settings_of : QuicConnectionConfig → List Setting
settings_of c =
    with_max_idle_timeout c.max_idle_timeout
    ∷ with_keep_alive_period c.keep_alive_period
    ∷ with_max_incoming_streams c.max_incoming_streams
    ∷ with_max_incoming_uni_streams c.max_incoming_uni_streams
    ∷ with_datagrams c.enable_datagrams
    ∷ with_initial_stream_receive_window c.initial_stream_receive_window
    ∷ with_initial_connection_receive_window c.initial_connection_receive_window
    ∷ with_max_stream_receive_window c.max_stream_receive_window
    ∷ with_max_connection_receive_window c.max_connection_receive_window
    ∷ with_0rtt c.allow_0rtt
    ∷ []

apply_all-append :
    (xs ys : List Setting) (c : QuicConfig) → apply_all (xs ++ ys) c ≡ apply_all ys (apply_all xs c)
unfolding apply_all
apply_all-append [] ys c = refl
apply_all-append (x ∷ xs) ys c = apply_all-append xs ys (apply x c)

-- No method sets the handshake's timeout.
apply-handshake :
    (s : Setting) (c : QuicConfig) → (apply s c).handshake_idle_timeout ≡ c.handshake_idle_timeout
unfolding apply
apply-handshake s c = ground arith

apply_all-handshake :
    (xs : List Setting) (c : QuicConfig)
    → (apply_all xs c).handshake_idle_timeout ≡ c.handshake_idle_timeout
unfolding apply_all
apply_all-handshake [] c = refl
apply_all-handshake (x ∷ xs) c = apply_all-handshake xs (apply x c) ∙ apply-handshake x c

-- The builder reaches what `ToQUICConfig` makes of any configuration: a call for each of its fields
-- builds it, whatever was called on the builder before.
build-settings_of :
    (before : List Setting) (c : QuicConnectionConfig)
    → build (before ++ settings_of c) ≡ to_quic_config c
unfolding build apply_all apply to_quic_config new_quic_config_builder
build-settings_of before c =
    apply_all-append before (settings_of c) new_quic_config_builder
    ∙ ap (λ n. record (to_quic_config c) { handshake_idle_timeout = n })
        (apply_all-handshake before new_quic_config_builder)
