-- ===== src/Slots/Tests.antt =====
-- A relay with the slots of the ports 2300 and 2301. Texts stand for IP addresses.
use relay_x.Prelude.{ℕ, ◌≡◌, refl, Bool, true, false, none, some, List, [], ◌∷◌, codes, text_eq}
use relay_x.Prelude.Int.{pos}
use relay_x.Prelude.Sorting.{sort}
use relay_x.Errors.{ok}
use relay_x.Leases.{
  PortManager, PortAcquire, PortGrant, new_port_manager, reserve_port, acquire_from_ready,
}
use relay_x.Leases.Acquire.{quiet}
use relay_x.Slots.{UdpAddr, Waiting, PortSlot, RelayServer, new_slot, unknown, set_slot}
use relay_x.Slots.Peers.{udp_addr_equal, udp_packet}
use relay_x.Slots.Valid.{starting, ending, packeting, sweeping}
use relay_x.Slots.Accepting.{Event, acting, accepting}
use relay_x.Slots.Udp.{SlotApart, Routes, udp_packet_lem}
use relay_x.Slots.Snapshot.{PortStateSnapshot, snapshot_port_state}
use relay_x.Slots.Granting.{Grantable, granted_slot}

abbrev back_end : Waiting
back_end = record { conn = 10; client_id = codes "be" }

abbrev front_end : Waiting
front_end = record { conn = 11; client_id = [] }

abbrev first_peer : UdpAddr
first_peer = record { ip = some (codes "a"); port = 5; zone = [] }

abbrev second_peer : UdpAddr
second_peer = record { ip = some (codes "b"); port = 5; zone = [] }

abbrev script : List Event
script =
    acting (starting 2300 (ok 1) (ok 2))
    ∷ accepting [] 2300 20 unknown back_end
    ∷ accepting (packeting 2300 first_peer 3 ∷ []) 2300 20 unknown front_end
    ∷ accepting [] 2300 21 unknown front_end
    ∷ acting
        (ending 2300 true (record { session = 20; fe_conn = 11; be_conn = 10; be_id = codes "be" }))
    ∷ acting (sweeping 2300 90 60)
    ∷ []

abbrev two_peers : PortSlot
two_peers = record (new_slot 1 2) { udp_a = some first_peer; udp_b = some second_peer }

abbrev relay : RelayServer
relay =
    set_slot 2300 two_peers
      (set_slot 2301 (new_slot 3 4) (record { slots = λ port. none; closed = []; stopped = [] }))

two_peers-SlotApart : SlotApart text_eq two_peers
unfolding udp_addr_equal text_eq
two_peers-SlotApart = refl

udp_packet_lem_example :
    (slot : PortSlot) × ((udp_packet text_eq 2300 second_peer 4 relay).0 ≡ set_slot 2300 slot relay)
    × Routes text_eq
        (some first_peer)
        (some second_peer)
        second_peer
        two_peers
        (slot, (udp_packet text_eq 2300 second_peer 4 relay).1)
udp_packet_lem_example =
    udp_packet_lem text_eq 2300 second_peer 4 relay two_peers refl two_peers-SlotApart
      (codes "b", refl)

abbrev request : PortAcquire
request = record { request_id = codes "r"; need_zmq = true; need_srt = true; ttl_seconds = pos 0 }

abbrev open_conn : Waiting → Bool
open_conn w = false

abbrev order : List ℕ
order = 2300 ∷ 2301 ∷ []

abbrev reserved : PortManager × PortGrant
reserved = reserve_port (some 7) request 2301 (codes "s") 5 new_port_manager

abbrev seen : RelayServer × PortStateSnapshot
seen = snapshot_port_state open_conn order relay

granted :
    acquire_from_ready quiet seen.1.ready_ports seen.1.empty_ports
      (some 7)
      request
      (codes "s")
      5
      new_port_manager
    ≡ (reserved.0, ok reserved.1)
unfolding acquire_from_ready new_port_manager snapshot_port_state sort
granted = refl

granted_slot_example : Grantable order seen.0 new_port_manager reserved.1.zmq_port
granted_slot_example =
    granted_slot open_conn order relay (some 7) request (codes "s") 5 new_port_manager granted
