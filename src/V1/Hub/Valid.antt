-- ===== src/V1/Hub/Valid.antt =====
-- v1/control/hub.go: the invariant of the hub, and the calls that keep it.
use relay_x.Prelude.{
  ℕ, ◌≤◌, ◌≡◌, refl, ◌∙◌, ◌⊎◌, inl, inr, Bool, true, false, ◌||◌, Option, none, some, List, [], ◌∷◌,
  Text, arith, length, ◌==◌, ==_iff, if_both,
}
use relay_x.Prelude.Assoc.{lookup, text_key}
use relay_x.Prelude.Sorting.{elem}
use relay_x.Leases.{present}
use relay_x.Central.{without}
use relay_x.Central.Valid.{elem-without}
use relay_x.Slots.{Role, be, fe, unknown}
use relay_x.V1.Leases.{Reservation, PortManager}
use relay_x.V1.Leases.Valid as Maps
use relay_x.V1.Leases.Valid.{owned_by}
use relay_x.V1.Leases.Owner.{release_all_for_owner-IsValid, release_all_for_owner_left}
use relay_x.V1.Relay.{RelayServer, snapshot_port_state, PortStateSnapshot}
use relay_x.V1.Relay.Valid as Ports
use relay_x.V1.Relay.Valid.{looking, stopping, act-IsValid}
use relay_x.V1.Reaper.{
  Reaper, schedule_one, schedule_kill, cancel_found, cancel_kill, begin_next, begin_kill, end_next,
  end_kill,
}
use relay_x.V1.Hub.{
  Message, World, Hub, leases_ended, timed, unregister, close_client, fails, send, send_or_close,
  send_all, let_in, broadcast_to_role, with_relay, with_snapshot, state_sent, port_state,
}

abbrev pub is_client : ℕ → Hub → Bool
is_client c s = elem c s.fe_clients || elem c s.be_clients

-- The leases and the ports are valid, the owner of a lease is a client of the hub, or one of those whose
-- handler asked for a lease after it had left, and there are at most so many front ends and back ends.
pub record IsValid (late : ℕ → Bool) (few_fe few_be : ℕ) (s : Hub) : Type 0 where
  pub leases : Maps.IsValid s.leases
  pub ports : Ports.IsValid s.reaper.relay
  pub owned :
      (sid : Text) {r : Reservation}
      → lookup sid s.leases.by_session ≡ some r
      → (is_client r.owner s || late r.owner) ≡ true
  pub fe_fit : length s.fe_clients ≤ few_fe
  pub be_fit : length s.be_clients ≤ few_be

pub length-without : (c : ℕ) (l : List ℕ) → length (without c l) ≤ length l
length-without c [] = omega arith
length-without c (d ∷ ds) = ground (arith, length-without c ds)

schedule_one-IsValid :
    (port timer : ℕ) (t : Reaper)
    → Ports.IsValid t.relay
    → Ports.IsValid (schedule_one port timer t).relay
unfolding schedule_one
schedule_one-IsValid port timer t v =
    if_both (λ (u : Reaper). Ports.IsValid u.relay) (present (t.pending_kills port)) v v

schedule_kill-IsValid :
    (ports : List (ℕ × ℕ)) (t : Reaper)
    → Ports.IsValid t.relay
    → Ports.IsValid (schedule_kill ports t).relay
unfolding schedule_kill
schedule_kill-IsValid [] t v = v
schedule_kill-IsValid ((port, timer) ∷ ports) t v =
    schedule_kill-IsValid ports (schedule_one port timer t) (schedule_one-IsValid port timer t v)

snapshot-IsValid :
    (w : World) (s : RelayServer)
    → Ports.IsValid s
    → Ports.IsValid (snapshot_port_state w.alive w.waiting_order w.listening_order s).0
unfolding snapshot_port_state
snapshot-IsValid w s v = act-IsValid (looking w.alive w.waiting_order) s v

cancel_found-relay :
    (o : Option ℕ) (port : ℕ) (t : Reaper) → (cancel_found o port t).relay ≡ t.relay
cancel_found-relay none port t = refl
cancel_found-relay (some timer) port t = refl

pub cancel_kill-relay : (ports : List ℕ) (t : Reaper) → (cancel_kill ports t).relay ≡ t.relay
unfolding cancel_kill
cancel_kill-relay [] t = refl
cancel_kill-relay (port ∷ ports) t =
    cancel_kill-relay ports (cancel_found (t.pending_kills port) port t)
    ∙ cancel_found-relay (t.pending_kills port) port t

begin_next-relay : (l : List (ℕ × ℕ)) (t : Reaper) → (begin_next l t).relay ≡ t.relay
begin_next-relay [] t = refl
begin_next-relay ((timer, port) ∷ l) t = refl

end_next-IsValid :
    (l : List ℕ) (t : Reaper) → Ports.IsValid t.relay → Ports.IsValid (end_next l t).relay
end_next-IsValid [] t v = v
end_next-IsValid (port ∷ l) t v = act-IsValid (stopping port) t.relay v

module _ {late : ℕ → Bool} (few_fe few_be : ℕ) where
  pub sending-IsValid :
      (s : Hub) (log : List (ℕ × Message))
      → IsValid late few_fe few_be s
      → IsValid late few_fe few_be (record s { sent = log })
  sending-IsValid s log v = record {
    leases = v.leases;
    ports = v.ports;
    owned = v.owned;
    fe_fit = v.fe_fit;
    be_fit = v.be_fit;
  }

  pub reaper-IsValid :
      (s : Hub) (reaper : Reaper)
      → IsValid late few_fe few_be s
      → Ports.IsValid reaper.relay
      → IsValid late few_fe few_be (record s { reaper = reaper })
  reaper-IsValid s reaper v k = record {
    leases = v.leases;
    ports = k;
    owned = v.owned;
    fe_fit = v.fe_fit;
    be_fit = v.be_fit;
  }

  pub send-IsValid :
      (w : World) (c : ℕ) (m : Message) (s : Hub)
      → IsValid late few_fe few_be s
      → IsValid late few_fe few_be (send w c m s)
  send-IsValid w c m s v =
      if_both (IsValid late few_fe few_be) (fails w c s) v (sending-IsValid s ((c, m) ∷ s.sent) v)

  -- A client leaves, and its leases.
  left-IsValid :
      (c : ℕ) (fes bes : List ℕ) (s : Hub)
      → ((q : ℕ) → elem q s.fe_clients ≡ true → (c == q) ≡ false → elem q fes ≡ true)
      → ((q : ℕ) → elem q s.be_clients ≡ true → (c == q) ≡ false → elem q bes ≡ true)
      → length fes ≤ length s.fe_clients
      → length bes ≤ length s.be_clients
      → IsValid late few_fe few_be s
      → IsValid late few_fe few_be
          (leases_ended c (record s { fe_clients = fes; be_clients = bes }))
  left-IsValid c fes bes s f g m n v = record {
    leases = release_all_for_owner-IsValid (some c) s.leases v.leases;
    ports = v.ports;
    owned = λ sid {r} h.
        let (before, other) = release_all_for_owner_left c s.leases sid r v.leases h in
        ground
          (arith, v.owned sid before, f r.owner, g r.owner, ==_iff c r.owner, ==_iff r.owner c);
    fe_fit = ground (arith, v.fe_fit);
    be_fit = ground (arith, v.be_fit);
  }

  pub relay-IsValid :
      (s : Hub) (relay : RelayServer)
      → IsValid late few_fe few_be s
      → Ports.IsValid relay
      → IsValid late few_fe few_be (with_relay relay s)
  relay-IsValid s relay v k = reaper-IsValid s (record s.reaper { relay = relay }) v k

  pub unregister-IsValid :
      (w : World) (c : ℕ) (r : Role) (s : Hub)
      → IsValid late few_fe few_be s
      → IsValid late few_fe few_be (unregister w c r s)
  unfolding unregister
  unregister-IsValid w c fe s v =
      if_both (IsValid late few_fe few_be) (elem c s.fe_clients)
        (left-IsValid c (without c s.fe_clients) s.be_clients s (λ q. elem-without q c s.fe_clients)
          (λ q h n. h) (length-without c s.fe_clients) (omega arith) v)
        v
  unregister-IsValid w c be s v =
      let reaper = schedule_kill (timed w (s.allocated c)) s.reaper in
      if_both (IsValid late few_fe few_be) (elem c s.be_clients)
        (left-IsValid c s.fe_clients (without c s.be_clients) (record s { reaper = reaper })
          (λ q h n. h) (λ q. elem-without q c s.be_clients) (omega arith)
          (length-without c s.be_clients)
          (reaper-IsValid s reaper v
            (schedule_kill-IsValid (timed w (s.allocated c)) s.reaper v.ports)))
        v
  unregister-IsValid w c unknown s v = v

  pub close_client-IsValid :
      (w : World) (c : ℕ) (r : Role) (s : Hub)
      → IsValid late few_fe few_be s
      → IsValid late few_fe few_be (close_client w c r s)
  unfolding close_client
  close_client-IsValid w c r s v = if_both (IsValid late few_fe few_be) (elem c s.closed) v (
      unregister-IsValid w c r (record s { closed = c ∷ s.closed })
        (record {
          leases = v.leases;
          ports = v.ports;
          owned = v.owned;
          fe_fit = v.fe_fit;
          be_fit = v.be_fit;
        }))

  send_all-IsValid :
      (w : World) (r : Role) (cs : List ℕ) (m : Message) (s : Hub)
      → IsValid late few_fe few_be s
      → IsValid late few_fe few_be (send_all w r cs m s)
  unfolding send_all
  send_all-IsValid w r [] m s v = v
  send_all-IsValid w r (c ∷ cs) m s v = send_all-IsValid w r cs m (send_or_close w r c m s) (
      if_both (IsValid late few_fe few_be) (fails w c s) (close_client-IsValid w c r s v)
        (sending-IsValid s ((c, m) ∷ s.sent) v))

  pub broadcast-IsValid :
      (w : World) (r : Role) (m : Message) (s : Hub)
      → IsValid late few_fe few_be s
      → IsValid late few_fe few_be (broadcast_to_role w r m s)
  unfolding broadcast_to_role
  broadcast-IsValid w fe m s v = send_all-IsValid w fe (let_in s.authed s.fe_clients) m s v
  broadcast-IsValid w be m s v = send_all-IsValid w be (let_in s.authed s.be_clients) m s v
  broadcast-IsValid w unknown m s v = send_all-IsValid w be (let_in s.authed s.be_clients) m s v

  -- What follows a snapshot finds the leases and the clients as they were.
  pub with_snapshot-IsValid :
      (w : World) (next : PortStateSnapshot → Hub → Hub) (s : Hub)
      → ((n : PortStateSnapshot) (relay : RelayServer)
          → IsValid late few_fe few_be (with_relay relay s)
          → IsValid late few_fe few_be (next n (with_relay relay s)))
      → IsValid late few_fe few_be s
      → IsValid late few_fe few_be (with_snapshot w next s)
  with_snapshot-IsValid w next s f v =
      let (relay, n) =
        snapshot_port_state w.alive w.waiting_order w.listening_order s.reaper.relay in
      f n relay (relay-IsValid s relay v (snapshot-IsValid w s.reaper.relay v.ports))

  pub state_sent-IsValid :
      (w : World) (c : ℕ) (s : Hub)
      → IsValid late few_fe few_be s
      → IsValid late few_fe few_be (state_sent w c s)
  state_sent-IsValid w c s v =
      with_snapshot-IsValid w (λ n. send w c (port_state n)) s
        (λ n relay k. send-IsValid w c (port_state n) (with_relay relay s) k) v

  -- The leases change alone; each lease is one of before, or a client's.
  pub leases-IsValid :
      (pm : PortManager) (s : Hub)
      → Maps.IsValid pm
      → ((sid : Text) (r : Reservation)
          → lookup sid pm.by_session ≡ some r
          → (lookup sid s.leases.by_session ≡ some r)
            ⊎ ((is_client r.owner s || late r.owner) ≡ true))
      → IsValid late few_fe few_be s
      → IsValid late few_fe few_be (record s { leases = pm })
  leases-IsValid pm s k f v = record {
    leases = k;
    ports = v.ports;
    owned = λ sid {r} h. elim (f sid r h) [ inl before ↦ v.owned sid before | inr client ↦ client ];
    fe_fit = v.fe_fit;
    be_fit = v.be_fit;
  }

  pub begin_kill-IsValid :
      (s : Hub)
      → IsValid late few_fe few_be s
      → IsValid late few_fe few_be (record s { reaper = begin_kill s.reaper })
  unfolding begin_kill
  begin_kill-IsValid s v =
      reaper-IsValid s (begin_next s.reaper.fired s.reaper) v
        (rw (begin_next-relay s.reaper.fired s.reaper) v.ports)

  pub end_kill-IsValid :
      (s : Hub)
      → IsValid late few_fe few_be s
      → IsValid late few_fe few_be (record s { reaper = end_kill s.reaper })
  unfolding end_kill
  end_kill-IsValid s v =
      reaper-IsValid s (end_next s.reaper.begun s.reaper) v
        (end_next-IsValid s.reaper.begun s.reaper v.ports)
