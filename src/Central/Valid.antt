-- ===== src/Central/Valid.antt =====
-- v3/control/hub.go: what every handler keeps.
use relay_x.Prelude.{
  ◌||◌, ℕ, ◌≡◌, refl, Bool, true, false, Option, none, some, List, [], ◌∷◌, Text, arith, ◌==◌,
  ==_iff, if◌then◌else◌, ltb, if_both,
}
use relay_x.Prelude.Assoc.{lookup, text_key, number_key}
use relay_x.Prelude.Sorting.{elem}
use relay_x.Leases.{Reservation, PortManager, owner_set, keys_of}
use relay_x.Leases.Valid as Maps
use relay_x.Leases.Valid.{owns}
use relay_x.Leases.Delete.{release_all_for_owner-IsValid}
use relay_x.Leases.Owner.{Fewer, release_all_for_owner-Fewer, release_all_for_owner_lem}
use relay_x.Slots.{RelayServer, start_relay_port, reset_port}
use relay_x.Slots.Valid as Ports
use relay_x.Slots.Valid.{IsValidSlot, At, starting, resetting, act-IsValid}
use relay_x.Slots.Snapshot.{PortStateSnapshot, snapshot_port_state}
use relay_x.Slots.Cleaning.{snapshot_port_state-IsValid}
use relay_x.Central.Ranges.{PortAlloc, set_ranges}
use relay_x.Central.{
  Message, World, Central, without, unregister_client, close_client, fails, send, send_or_close,
  send_all, still_open, broadcast, with_snapshot, start_port_at, start_ports, state_sent,
  given_back, port_state, port_release,
}

abbrev pub no_ip : Text → Text → Bool
no_ip a b = false

-- The leases and the slots are valid, and the owner of a lease is a client of the hub, or one of those
-- whose handler asked for a lease after it had left.
pub record IsValid (late : ℕ → Bool) (s : Central) : Type 0 where
  pub leases : Maps.IsValid s.leases
  pub slots : Ports.IsValid s.relay
  pub owned :
      (sid : Text) {r : Reservation} {o : ℕ}
      → lookup sid s.leases.by_session ≡ some r
      → r.owner ≡ some o
      → (elem o s.clients || late o) ≡ true

pub elem-without :
    (q c : ℕ) (l : List ℕ) → elem q l ≡ true → (c == q) ≡ false → elem q (without c l) ≡ true
unfolding elem
elem-without q c [] h n = h
elem-without q c (d ∷ ds) h n =
    ground (arith, elem-without q c ds, ==_iff d c, ==_iff d q, ==_iff c q)

module _ {late : ℕ → Bool} where
  sending-IsValid :
      (s : Central) (log : List (ℕ × Message))
      → IsValid late s
      → IsValid late (record s { sent = log })
  sending-IsValid s log v = record { leases = v.leases; slots = v.slots; owned = v.owned }

  pub send-IsValid :
      (w : World) (c : ℕ) (m : Message) (s : Central) → IsValid late s → IsValid late (send w c m s)
  send-IsValid w c m s v =
      if_both (IsValid late) (fails w c s) v (sending-IsValid s ((c, m) ∷ s.sent) v)

  unregister_client-IsValid :
      (c : ℕ) (s : Central) → IsValid late s → IsValid late (unregister_client c s)
  unfolding unregister_client
  unregister_client-IsValid c s v = record {
    leases = release_all_for_owner-IsValid (keys_of (owner_set c s.leases)) c s.leases v.leases;
    slots = v.slots;
    owned = λ sid {r} {o} h e.
        let other = release_all_for_owner_lem c s.leases sid r v.leases h in
        let before =
          v.owned sid
            (release_all_for_owner-Fewer (keys_of (owner_set c s.leases)) c s.leases sid r h) e in
        ground (arith, before, elem-without o c s.clients, ==_iff c o, ==_iff o c);
  }

  pub close_client-IsValid :
      (c : ℕ) (s : Central) → IsValid late s → IsValid late (close_client c s)
  unfolding close_client
  close_client-IsValid c s v = if_both (IsValid late) (elem c s.closed) v (
      unregister_client-IsValid c (record s { closed = c ∷ s.closed })
        (record { leases = v.leases; slots = v.slots; owned = v.owned }))

  send_all-IsValid :
      (w : World) (cs : List ℕ) (m : Message) (s : Central)
      → IsValid late s
      → IsValid late (send_all w cs m s)
  unfolding send_all
  send_all-IsValid w [] m s v = v
  send_all-IsValid w (c ∷ cs) m s v = send_all-IsValid w cs m (send_or_close w c m s) (
      if_both (IsValid late) (fails w c s) (close_client-IsValid c s v)
        (sending-IsValid s ((c, m) ∷ s.sent) v))

  pub broadcast-IsValid :
      (w : World) (m : Message) (s : Central) → IsValid late s → IsValid late (broadcast w m s)
  unfolding broadcast
  broadcast-IsValid w m s v = send_all-IsValid w (still_open s.closed s.clients) m s v

  -- The relay changes alone.
  pub relay-IsValid :
      (s : Central) (relay : RelayServer)
      → IsValid late s
      → Ports.IsValid relay
      → IsValid late (record s { relay = relay })
  relay-IsValid s relay v k = record { leases = v.leases; slots = k; owned = v.owned }

  pub with_snapshot-IsValid :
      (w : World) (next : PortStateSnapshot → Central → Central) (s : Central)
      → ((n : PortStateSnapshot) (t : Central)
          → IsValid late t
          → t.leases ≡ s.leases
          → t.clients ≡ s.clients
          → IsValid late (next n t))
      → IsValid late s
      → IsValid late (with_snapshot w next s)
  with_snapshot-IsValid w next s f v =
      let (relay, n) = snapshot_port_state w.gone w.order s.relay in
      f n (record s { relay = relay })
        (relay-IsValid s relay v (snapshot_port_state-IsValid w.gone w.order s.relay v.slots)) refl
        refl

  pub state_sent-IsValid :
      (w : World) (s : Central) → IsValid late s → IsValid late (state_sent w s)
  state_sent-IsValid w s v =
      with_snapshot-IsValid w (λ n. broadcast w (port_state n)) s
        (λ n t k e f. broadcast-IsValid w (port_state n) t k) v

  pub start_port_at-IsValid :
      (w : World) (port : ℕ) (s : Central) → IsValid late s → IsValid late (start_port_at w port s)
  start_port_at-IsValid w port s v =
      relay-IsValid s (start_relay_port port (w.listen port).0 (w.listen port).1 s.relay).0 v
        (act-IsValid no_ip (starting port (w.listen port).0 (w.listen port).1) s.relay v.slots)

  pub start_ports-IsValid :
      (w : World) (ps : List ℕ) (s : Central) → IsValid late s → IsValid late (start_ports w ps s)
  start_ports-IsValid w [] s v = v
  start_ports-IsValid w (p ∷ ps) s v =
      start_ports-IsValid w ps (if ltb 0 p then start_port_at w p s else s)
        (if_both (IsValid late) (ltb 0 p) (start_port_at-IsValid w p s v) v)

  -- The leases change alone, to fewer of them.
  pub fewer-IsValid :
      (s : Central) (pm : PortManager)
      → IsValid late s
      → Maps.IsValid pm
      → Fewer s.leases pm
      → IsValid late (record s { leases = pm })
  fewer-IsValid s pm v k f = record {
    leases = k;
    slots = v.slots;
    owned = λ sid {r} {o} h e. v.owned sid (f sid r h) e;
  }

  pub set_ranges-IsValid :
      (config p : PortAlloc) (s : Central)
      → IsValid late s
      → IsValid late (record s { leases = set_ranges config p s.leases })
  unfolding set_ranges
  set_ranges-IsValid config p s v =
      fewer-IsValid s (set_ranges config p s.leases) v
        (record {
          sessions = v.leases.sessions;
          leases = v.leases.leases;
          owners = v.leases.owners;
        })
        (λ sid r h. h)

  pub given_back-IsValid :
      (w : World) (sid : Text) (out : PortManager × Option ℕ) (s : Central)
      → IsValid late s
      → Maps.IsValid out.0
      → Fewer s.leases out.0
      → IsValid late (given_back w sid out s)
  given_back-IsValid w sid (pm, none) s v k f = fewer-IsValid s pm v k f
  given_back-IsValid w sid (pm, some port) s v k f =
      let s1 = record s { leases = pm } in
      let v1 = fewer-IsValid s pm v k f in
      let s2 = record s1 { relay = reset_port port s.relay } in
      let v2 =
        relay-IsValid s1 (reset_port port s.relay) v1
          (act-IsValid no_ip (resetting port) s.relay v.slots) in
      if_both (IsValid late) (ltb 0 port)
        (state_sent-IsValid w (broadcast w (port_release sid) s2)
          (broadcast-IsValid w (port_release sid) s2 v2))
        v1
