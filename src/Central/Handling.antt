-- ===== src/Central/Handling.antt =====
-- v3/control/hub.go: what any handlers, connections and disconnections leave true.
use relay_x.Prelude.{
  ◌||◌, ℕ, ◌≡◌, refl, sym, ap, ◌∙◌, inl, inr, Bool, true, false, Option, none, some, List, ◌∷◌,
  Text, arith, Bool-cases, ◌==◌, ==_iff,
}
use relay_x.Prelude.Assoc.{lookup, text_key, number_key, lookup-insert, insert}
use relay_x.Prelude.Sorting.{elem}
use relay_x.Errors.{Result, ok, err, error_text}
use relay_x.Leases.{
  Reservation, PortManager, PortAcquire, PortGrant, new_port_manager, acquire_from_ready,
  reserve_port, release, sweep,
}
use relay_x.Leases.Valid as Maps
use relay_x.Leases.Valid.{owns}
use relay_x.Leases.Acquire.{quiet, Acquired, acquire_from_ready_lem, acquire-IsValid}
use relay_x.Leases.Delete.{release-IsValid, sweep-IsValid}
use relay_x.Leases.Owner.{release-Fewer, sweep-Fewer}
use relay_x.Slots.{new_relay_server}
use relay_x.Central.Ranges.{set_ranges, ports_of}
use relay_x.Central.{
  World, Central, new_central, without, close_client, send, broadcast, start_port_at, start_ports,
  Request, registering, pinging, exchanging, allocating, acquiring, releasing, querying, unreadable,
  granted, acquired, handle, connect, port_state, port_grant, port_alloc, key_exchange, auth_ok,
  no_grant, pong,
}
use relay_x.Leases.{reservation_of}
use relay_x.Slots.Accepting.{Event, event, event-IsValid}
use relay_x.Central.Valid.{
  IsValid, send-IsValid, elem-without, close_client-IsValid, broadcast-IsValid, relay-IsValid,
  with_snapshot-IsValid, state_sent-IsValid, start_port_at-IsValid, start_ports-IsValid,
  fewer-IsValid, set_ranges-IsValid, given_back-IsValid,
}

-- A new session id is one that no lease has.
abbrev pub IsNew : Request → Central → Type 0
IsNew (acquiring req sid now) s = lookup sid s.leases.by_session ≡ none
IsNew _ s = Unit {0}

-- A client of the hub may ask for a lease, and so may a client that has left, where it is one of `late`: its
-- handler goes on with what it has read, as long as its connection gives more.
abbrev pub MayAsk : (ℕ → Bool) → ℕ → Request → Central → Type 0
MayAsk late c (acquiring req sid now) s = (elem c s.clients || late c) ≡ true
MayAsk late c _ s = Unit {0}

pub elem-cons_without : (q c : ℕ) (l : List ℕ) → elem q l ≡ true → elem q (c ∷ without c l) ≡ true
unfolding elem
elem-cons_without q c l h = elim (Bool-cases (c == q)) [
  | inl e ↦ rw e refl
  | inr e ↦ rw e (elem-without q c l h e)
]

-- What happens to the hub: a client connects, a handler takes a message of its client, which may have left
-- the hub, a connection ends, leases expire, or the relay's slots change.
pub data Step (late : ℕ → Bool) (s t : Central) : Type 0 where
  connecting : (w : World) (c : ℕ) → t ≡ connect w c s → Step late s t
  requesting :
      (w : World) (c : ℕ) (r : Request)
      → IsNew r s
      → MayAsk late c r s
      → t ≡ handle w c r s
      → Step late s t
  disconnecting : (c : ℕ) → t ≡ close_client c s → Step late s t
  expiring :
      (order : List Text) (now : ℕ)
      → t ≡ record s { leases = sweep order now s.leases }
      → Step late s t
  relaying :
      (ip_equal : Text → Text → Bool) (e : Event)
      → t ≡ record s { relay = event ip_equal e s.relay }
      → Step late s t

pub data Reach (late : ℕ → Bool) : Central → Type 0 where
  start : Reach late new_central
  next : {s t : Central} → Reach late s → Step late s t → Reach late t

not_owned : (c o : ℕ) (f : ℕ → Bool) → f c ≡ false → f o ≡ true → (o == c) ≡ false
not_owned c o f h k = elim (Bool-cases (o == c)) [
  | inl e ↦ absurd (ground (arith, ap f ((==_iff o c).0 e)))
  | inr e ↦ e
]

reserved_in :
    (c : ℕ) (req : PortAcquire) (port : ℕ) (sid : Text) (now : ℕ) (s : Central) (pm : PortManager)
    (g : PortGrant)
    → (pm, g) ≡ reserve_port (some c) req port sid now s.leases
    → pm.by_session ≡ insert sid (reservation_of (some c) req port sid now) s.leases.by_session
unfolding reserve_port
reserved_in c req port sid now s pm g e = ap (λ t. t.0.by_session) e

module _ {late : ℕ → Bool} where
  -- One more lease, of a client.
  new_lease-IsValid :
      (s : Central) (pm : PortManager) (sid : Text) (q : Reservation) (c : ℕ)
      → IsValid late s
      → Maps.IsValid pm
      → pm.by_session ≡ insert sid q s.leases.by_session
      → q.owner ≡ some c
      → (elem c s.clients || late c) ≡ true
      → IsValid late (record s { leases = pm })
  new_lease-IsValid s pm sid q c v k e h m = record {
    leases = k;
    slots = v.slots;
    owned = λ t {r} {o} f g. ground (
      arith,
      ap (lookup t) e,
      lookup-insert sid t q s.leases.by_session,
      v.owned t {r = r} {o = o},
    );
  }

  granted-IsValid :
      (w : World) (c : ℕ) (req : PortAcquire) (sid : Text) (now : ℕ) (ready empty : List ℕ)
      (out : PortManager × Result PortGrant) (s : Central)
      → Acquired (some c) req sid now s.leases ready empty out
      → Maps.IsValid out.0
      → (elem c s.clients || late c) ≡ true
      → IsValid late s
      → IsValid late (granted w c req out s)
  granted-IsValid w c req sid now ready empty (pm, err e) s (_, _, same) k m v =
      send-IsValid w c (no_grant req.request_id (error_text e)) (record s { leases = pm })
        (fewer-IsValid s pm v k (λ t r h. ap (λ x. lookup t x.by_session) (sym same) ∙ h))
  granted-IsValid w c req sid now ready empty (pm, ok g) s (port, _, e) k m v =
      let s1 = record s { leases = pm } in
      let v1 : IsValid late s1 =
        new_lease-IsValid s pm sid (reservation_of (some c) req port sid now) c v k
          (reserved_in c req port sid now s pm g e) refl m in
      let s2 = start_port_at w g.zmq_port s1 in
      broadcast-IsValid w (port_grant g) (send w c (port_grant g) s2)
        (send-IsValid w c (port_grant g) s2 (start_port_at-IsValid w g.zmq_port s1 v1))

  acquired-IsValid :
      (w : World) (c : ℕ) (req : PortAcquire) (sid : Text) (now : ℕ) (s : Central)
      → lookup sid s.leases.by_session ≡ none
      → (elem c s.clients || late c) ≡ true
      → IsValid late s
      → IsValid late (acquired w c req sid now s)
  acquired-IsValid w c req sid now s f m v =
      with_snapshot-IsValid w
        (λ n t.
          granted w c req
            (acquire_from_ready quiet n.ready_ports n.empty_ports (some c) req sid now t.leases) t)
        s
        (λ n t k e g.
          granted-IsValid w c req sid now n.ready_ports n.empty_ports
            (acquire_from_ready quiet n.ready_ports n.empty_ports (some c) req sid now t.leases) t
            (acquire_from_ready_lem (some c) req sid now t.leases n.ready_ports n.empty_ports)
            (acquire-IsValid (some c) req sid now t.leases n.ready_ports n.empty_ports k.leases
              (ap (λ x. lookup sid x.by_session) e ∙ f))
            (ap (λ x. elem c x || late c) g ∙ m) k)
        v

  handle-IsValid :
      (w : World) (c : ℕ) (r : Request) (s : Central)
      → IsNew r s
      → MayAsk late c r s
      → IsValid late s
      → IsValid late (handle w c r s)
  unfolding handle
  handle-IsValid w c registering s f m v = v
  handle-IsValid w c (pinging p recv now) s f m v =
      send-IsValid w c (pong (record p { server_recv_time = recv; server_send_time = now })) s v
  handle-IsValid w c (exchanging p) s f m v = broadcast-IsValid w (key_exchange p) s v
  handle-IsValid w c (allocating p) s f m v =
      let s1 = record s { leases = set_ranges w.config p s.leases } in
      let s2 = start_ports w (ports_of w.config p) s1 in
      let v2 = start_ports-IsValid w (ports_of w.config p) s1 (set_ranges-IsValid w.config p s v) in
      state_sent-IsValid w (broadcast w (port_alloc p) s2)
        (broadcast-IsValid w (port_alloc p) s2 v2)
  handle-IsValid w c (acquiring req sid now) s f m v = acquired-IsValid w c req sid now s f m v
  handle-IsValid w c (releasing sid) s f m v =
      given_back-IsValid w sid (release (some c) sid s.leases) s v
        (release-IsValid (some c) sid s.leases v.leases) (release-Fewer (some c) sid s.leases)
  handle-IsValid w c querying s f m v =
      with_snapshot-IsValid w (λ n. send w c (port_state n)) s
        (λ n t k e g. send-IsValid w c (port_state n) t k) v
  handle-IsValid w c unreadable s f m v = v

  connect-IsValid :
      (w : World) (c : ℕ) (s : Central) → IsValid late s → IsValid late (connect w c s)
  unfolding connect
  connect-IsValid w c s v =
      let s1 = record s { clients = c ∷ without c s.clients } in
      let v1 : IsValid late s1 = record {
        leases = v.leases;
        slots = v.slots;
        owned = λ sid {r} {o} h e. ground (arith, v.owned sid h e, elem-cons_without o c s.clients);
      } in
      let s2 = send w c auth_ok s1 in
      let s3 = send w c (port_alloc w.config) s2 in
      with_snapshot-IsValid w (λ n. send w c (port_state n)) s3
        (λ n t k e g. send-IsValid w c (port_state n) t k)
        (send-IsValid w c (port_alloc w.config) s2 (send-IsValid w c auth_ok s1 v1))

  Step-IsValid : {s t : Central} → Step late s t → IsValid late s → IsValid late t
  Step-IsValid {s} (connecting w c e) v = rw e (connect-IsValid w c s v)
  Step-IsValid {s} (requesting w c r f m e) v = rw e (handle-IsValid w c r s f m v)
  Step-IsValid {s} (disconnecting c e) v = rw e (close_client-IsValid c s v)
  Step-IsValid {s} (expiring order now e) v = rw e (
      fewer-IsValid s (sweep order now s.leases) v (sweep-IsValid order now s.leases v.leases)
        (sweep-Fewer order now s.leases))
  Step-IsValid {s} (relaying ip_equal x e) v =
      rw e (relay-IsValid s (event ip_equal x s.relay) v (event-IsValid ip_equal x s.relay v.slots))

  Reach-IsValid : {s : Central} → Reach late s → IsValid late s
  unfolding new_central new_port_manager new_relay_server lookup
  Reach-IsValid start = record {
    leases = record { sessions = λ s h. cc; leases = λ p h. cc; owners = λ o s. refl };
    slots = λ port. tt;
    owned = λ sid h e. cc;
  }
  Reach-IsValid (next r x) = Step-IsValid x (Reach-IsValid r)

-- After any connections, messages, disconnections, sweeps of the leases and events at the relay's ports, in
-- any order, each handler undisturbed: the maps of the leases agree, the relay's slots are valid, and a
-- client that is not of the hub has no lease, unless it is one of `late`, whose handlers may ask for a lease
-- after their clients have left.
pub Reach-Central :
    (late : ℕ → Bool) {s : Central}
    → Reach late s
    → IsValid late s
      × ((c : ℕ) (sid : Text) (r : Reservation)
          → elem c s.clients ≡ false
          → late c ≡ false
          → lookup sid s.leases.by_session ≡ some r
          → owns c r.owner ≡ false)
Reach-Central late {s} reach =
    (Reach-IsValid reach, λ c sid r n l h. none_left c sid r n l h r.owner refl)
  where
    none_left :
        (c : ℕ) (sid : Text) (r : Reservation)
        → elem c s.clients ≡ false
        → late c ≡ false
        → lookup sid s.leases.by_session ≡ some r
        → (o : Option ℕ) → r.owner ≡ o
        → owns c o ≡ false
    none_left c sid r n l h none e = refl
    none_left c sid r n l h (some o) e =
        not_owned c o (λ x. elem x s.clients || late x) (ground (arith, n, l))
          ((Reach-IsValid reach).owned sid h e)
