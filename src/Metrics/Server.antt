-- ===== src/Metrics/Server.antt =====
-- src/metrics.rs, `run_server`, and the registration of the metrics at their first use.
pub mod Statics
pub mod Registry
use twilight_dispatch.Prelude.{ℕ, ◌%◌, ◌^◌}
use twilight_dispatch.Prelude.Text.{Text}
use twilight_dispatch.Models.{Fault, Result, ok, err, ApiError, empty, addr_parse, hyper}
use twilight_dispatch.Exec.{Exec, lift, map_err, with_error, ◌>>=◌, ◌>>◌}
use twilight_dispatch.Config.{Config}

-- `IpAddr::from_str`, and `Server::bind` with `serve`, which returns when the server ends.
pub record HttpServer : Type 1 where
  pub State : Type 0
  pub IpAddr : Type 0
  pub from_str : Text → Result Fault IpAddr
  pub bind_and_serve : IpAddr → ℕ → State → Result Fault (Unit {0}) × State

module _ (server : HttpServer) where
  open server use {State, from_str, bind_and_serve}

  -- The port is cast to 16 bits. A server that ends is an error too.
  unfoldable pub run_server : Config → Exec State (Unit {0})
  run_server config = do
    ip ← lift (map_err addr_parse (from_str config.prometheus_host))
    with_error hyper (bind_and_serve ip (config.prometheus_port % 2 ^ 16))
    lift (err empty)
