-- ===== src/Relay/Booting/Tests.antt =====
-- A data plane of two empty servers, which is started with small port ranges and stopped again.
use relay_x.Prelude.{some, none, ◌==◌, if◌then◌else◌, ◌≡◌, refl, [], ◌∷◌, codes}
use relay_x.Errors.{Err, nil, plain, wrap, code_conflict, ok, err}
use relay_x.Ports.Defs.{zmq, srt, idle_pool, count_up}
use relay_x.Config.Range.{parse_port_range}
use relay_x.Config.Settings.{Config, default_config}
use relay_x.Relay.Tcp.{Server, new_server, start_port}
use relay_x.Relay.Srt.{SrtServer, new_srt_server, srt_start_port}
use relay_x.Relay.Booting.{Plane, Around, Orders, range_ports, start_each, start_plane}
use relay_x.Relay.Booting.Starting.{Outcome, start_plane_lem}

abbrev around_zmq : Around Server
around_zmq = record { listen = λ port. ok port; others = λ port s. s }

abbrev around_srt : Around SrtServer
around_srt = record { listen = λ port. ok port; others = λ port s. s }

abbrev narrow : Config
narrow = record default_config {
  zero_mq = record default_config.zero_mq { port_range = codes "2300-2301" };
  go_srt = record default_config.go_srt { port_range = codes "x" };
}

abbrev plane : Plane
plane = record {
  zmq = new_server (idle_pool zmq 2300 2301);
  srt = new_srt_server (idle_pool srt 2350 2350);
}

abbrev booted : Plane
booted = (start_plane narrow around_zmq around_srt plane).0

booted_well : start_plane narrow around_zmq around_srt plane ≡ (booted, nil)
unfolding start_plane start_each start_port srt_start_port parse_port_range count_up default_config
    new_server new_srt_server
booted_well = refl

start_plane_lem_example :
    Outcome narrow around_zmq around_srt (start_plane narrow around_zmq around_srt plane)
start_plane_lem_example =
    start_plane_lem narrow around_zmq around_srt plane (λ p q s h. h) (λ p q s h. h)

-- Where listening fails at port 2301, the start ends there: port 2300 has a listener, and SRT has none.
abbrev refusing : Around Server
refusing = record {
  listen = λ port. if port == 2301 then err (plain (codes "in use")) else ok port;
  others = λ port s. s;
}

abbrev stopped_early : Plane × Err
stopped_early = start_plane narrow refusing around_srt plane

stopped_early_at :
    (stopped_early.1 ≡ wrap code_conflict (codes "tcp listen failed") (plain (codes "in use")))
    × (stopped_early.0.zmq.listeners 2300 ≡ some 2300)
    × (stopped_early.0.srt.listeners 0 ≡ none)
unfolding start_plane start_each start_port srt_start_port parse_port_range count_up default_config
    new_server new_srt_server
stopped_early_at = (refl, refl, refl)

-- The narrow range has two ports, and the one that does not parse stands for port 0.
narrow_ports : range_ports (parse_port_range narrow.zero_mq.port_range) ≡ 2300 ∷ 2301 ∷ []
unfolding parse_port_range count_up default_config
narrow_ports = refl

broken_ports : range_ports (parse_port_range narrow.go_srt.port_range) ≡ 0 ∷ []
unfolding parse_port_range count_up default_config
broken_ports = refl

abbrev zmq_orders : Orders
zmq_orders = record { listeners = 2300 ∷ 2301 ∷ []; pending_s = []; pending_c = []; sessions = [] }

abbrev srt_orders : Orders
srt_orders = record { listeners = 0 ∷ []; pending_s = []; pending_c = []; sessions = [] }

-- Between the two locks a connection at an SRT port is refused.
abbrev arriving : Plane → Plane
arriving p = record p { srt = record p.srt { closed = 4 ∷ p.srt.closed } }
