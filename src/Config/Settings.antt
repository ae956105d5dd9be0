-- ===== src/Config/Settings.antt =====
-- v4/config/config.go, loader.go and the defaults of parse.go. Durations are nanoseconds; a byte size
-- is its number of bytes. The YAML reader is not part of the source.
use relay_x.Prelude.{
  ℕ, ◌++◌, ◌*◌, ◌^◌, Bool, true, ◌&&◌, ◌||◌, Text, codes, text_eq, is_blank, if◌then◌else◌,
}
use relay_x.Prelude.Int.{ℤ, pos, leb_ℤ, ltb_ℤ, integer}
use relay_x.Errors.{Err, nil, plain, wrapped, Result, ok, err}
use relay_x.Config.Range.{PortRange, parse_port_range}

pub record GatewayConfig : Type 0 where
  pub tcp_port : ℤ
  pub max_connections : ℤ
  pub auth_timeout : ℤ
  pub shutdown_timeout : ℤ

pub record ZeroMqConfig : Type 0 where
  pub port_range : Text
  pub sndhwm : ℤ
  pub rcvhwm : ℤ
  pub sndbuf : ℤ
  pub rcvbuf : ℤ
  pub linger : ℤ
  pub reconnect_ivl : ℤ

pub record GoSrtConfig : Type 0 where
  pub port_range : Text
  pub latency : ℤ
  pub maxbw : ℤ
  pub ipttl : ℤ

pub record LoggingConfig : Type 0 where
  pub level : Text
  pub format : Text
  pub output : Text
  pub file_path : Text
  pub max_size : ℤ
  pub max_age : ℤ
  pub compress : Bool

pub record Config : Type 0 where
  pub gateway : GatewayConfig
  pub zero_mq : ZeroMqConfig
  pub go_srt : GoSrtConfig
  pub logging : LoggingConfig

abbrev pub second : ℕ
second = 10 ^ 9

unfoldable pub default_config : Config
default_config = record {
  gateway = record {
    tcp_port = pos 5555;
    max_connections = pos 10000;
    auth_timeout = pos (30 * second);
    shutdown_timeout = pos (10 * second);
  };
  zero_mq = record {
    port_range = codes "2300-2320";
    sndhwm = pos 10000;
    rcvhwm = pos 10000;
    sndbuf = pos (2 * 1024 * 1024);
    rcvbuf = pos (2 * 1024 * 1024);
    linger = pos 0;
    reconnect_ivl = pos 100;
  };
  go_srt = record {
    port_range = codes "2350-2380";
    latency = pos 120;
    maxbw = pos 0;
    ipttl = pos 64;
  };
  logging = record {
    level = codes "info";
    format = codes "json";
    output = codes "file";
    file_path = codes "/var/log/gateway.log";
    max_size = pos (100 * 1024 * 1024);
    max_age = pos 7;
    compress = true;
  };
}

-- A range that does not parse is reported under its setting's name, else `rest` decides.
abbrev pub range_error : Text → Result PortRange → Err → Err
range_error label (err e) rest = wrapped label e
range_error label (ok r) rest = rest

-- The output that `Validate` checks: it fills in the default in its own copy of the configuration.
abbrev pub output_of : LoggingConfig → Text
output_of l = if is_blank l.output then codes "file" else l.output

-- A duration in a message is left as its number of nanoseconds.
unfoldable pub validate : Config → Err
unfolding parse_port_range
validate c =
    if leb_ℤ c.gateway.tcp_port (pos 0) || ltb_ℤ (pos 65535) c.gateway.tcp_port
    then plain (codes "invalid gateway.tcp_port: " ++ integer c.gateway.tcp_port)
    else if leb_ℤ c.gateway.max_connections (pos 0)
    then plain (codes "invalid gateway.max_connections: " ++ integer c.gateway.max_connections)
    else if leb_ℤ c.gateway.auth_timeout (pos 0)
    then plain (codes "invalid gateway.auth_timeout: " ++ integer c.gateway.auth_timeout)
    else if leb_ℤ c.gateway.shutdown_timeout (pos 0)
    then plain (codes "invalid gateway.shutdown_timeout: " ++ integer c.gateway.shutdown_timeout)
    else range_error (codes "invalid zeromq.port_range") (parse_port_range c.zero_mq.port_range) (
        range_error (codes "invalid gosrt.port_range") (parse_port_range c.go_srt.port_range) (
          if text_eq (output_of c.logging) (codes "file") && is_blank c.logging.file_path
          then plain (codes "logging.file_path is required when output=file")
          else nil))

-- `Load`, of what reading the file gives and of what the YAML reader makes of the text and the
-- defaults.
abbrev pub validated : Config → Err → Result Config
validated c nil = ok c
validated c e = err e

abbrev pub unmarshalled : Result Config → Result Config
unmarshalled (err e) = err (wrapped (codes "unmarshal yaml") e)
unmarshalled (ok c) = validated c (validate c)

unfoldable pub load : (Text → Config → Result Config) → Result Text → Result Config
unfolding validate default_config
load unmarshal (err e) = err (wrapped (codes "read config file") e)
load unmarshal (ok raw) = unmarshalled (unmarshal raw default_config)
