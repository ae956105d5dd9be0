-- ===== src/Relay/Booting.antt =====
-- v4/relay/manager.go: starting and stopping the data plane. The loops that `Start` begins in the background
-- are left out; what they and others do between the locks of a port's start is an argument.
pub mod Loops
pub mod Ranges
pub mod Starting
pub mod Stopping
mod Tests
use relay_x.Prelude.{ℕ, suc, ◌-◌, List, [], ◌∷◌}
use relay_x.Prelude.Int.{pos_part}
use relay_x.Errors.{Err, nil, Result, ok, err}
use relay_x.Ports.Defs.{count_up}
use relay_x.Config.Range.{PortRange, parse_port_range}
use relay_x.Config.Settings.{Config}
use relay_x.Relay.Tcp.{Server, each, start_port, stop_all, stop_listener, stop_session}
use relay_x.Relay.Srt.{
  SrtServer, srt_start_port, srt_stop_listener, srt_stop_s, srt_stop_c, srt_stop_session,
}

-- The configuration is an argument; the context and the metrics are left out.
pub record Plane : Type 0 where
  pub zmq : Server
  pub srt : SrtServer

-- `Start` does not look at the error of `ParsePortRange`, and then has the range from 0 to 0.
abbrev pub range_ports : Result PortRange → List ℕ
range_ports (err e) = 0 ∷ []
range_ports (ok r) = count_up (pos_part r.start) (suc (pos_part r.end) - pos_part r.start)

abbrev pub unless_failed {ℓ} : {S : Type ℓ} → (S → S × Err) → S × Err → S × Err
unless_failed next (s, nil) = next s
unless_failed next (s, e) = (s, e)

-- A loop of `Start`; `start` starts a port.
unfoldable pub start_each {ℓ} : {S : Type ℓ} → (ℕ → S → S × Err) → List ℕ → S → S × Err
start_each start [] s = (s, nil)
start_each start (port ∷ ports) s = unless_failed (start_each start ports) (start port s)

-- What listening at a port gives, and what others do meanwhile.
pub record Around (S : Type 0) : Type 0 where
  pub listen : ℕ → Result ℕ
  pub others : ℕ → S → S

-- `Start`
unfoldable pub start_plane : Config → Around Server → Around SrtServer → Plane → Plane × Err
unfolding start_each start_port srt_start_port parse_port_range count_up
start_plane cfg z t p =
    let (zmq, e) =
      start_each (λ port. start_port port (z.listen port) (z.others port))
        (range_ports (parse_port_range cfg.zero_mq.port_range)) p.zmq in
    let (srt, f) =
      start_each (λ port. srt_start_port port (t.listen port) (t.others port))
        (range_ports (parse_port_range cfg.go_srt.port_range)) p.srt in
    unless_failed (λ q. (record q { srt = srt }, f)) (record p { zmq = zmq }, e)

-- The keys of the four maps of a server, in the orders in which Go visits them.
pub record Orders : Type 0 where
  pub listeners : List ℕ
  pub pending_s : List ℕ
  pub pending_c : List ℕ
  pub sessions : List ℕ

abbrev pub srt_stop_all : Orders → SrtServer → SrtServer
srt_stop_all o s = each srt_stop_session o.sessions (
    each srt_stop_c o.pending_c
      (each srt_stop_s o.pending_s (each srt_stop_listener o.listeners s)))

-- `Stop`. What others do between the locks of the two servers is an argument; ending the context, and waiting
-- for the loops that then end, is left out.
unfoldable pub stop_plane : Orders → Orders → (Plane → Plane) → Plane → Plane
unfolding stop_all each srt_stop_listener srt_stop_s srt_stop_c srt_stop_session
stop_plane z t others p =
    let q =
      others (record p { zmq = stop_all z.listeners z.pending_s z.pending_c z.sessions p.zmq }) in
    record q { srt = srt_stop_all t q.srt }
