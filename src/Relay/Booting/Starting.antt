-- ===== src/Relay/Booting/Starting.antt =====
-- v4/relay/manager.go: what `Start` leaves of the data plane.
use relay_x.Prelude.{
  false, ◌⊎◌, ℕ, ◌≡◌, refl, sym, true, inl, inr, Bool-cases, List, arith, ==_iff, codes,
}
use relay_x.Errors.{Err, nil, plain, wrapped, coded, Result, ok, err, code_conflict}
use relay_x.Config.Range.{parse_port_range}
use relay_x.Config.Settings.{Config}
use relay_x.Relay.Tcp.{Server, present, start_port}
use relay_x.Relay.Srt.{SrtServer, srt_start_port}
use relay_x.Relay.Listening.{wrap_not_nil}
use relay_x.Relay.Booting.Loops.{Refusal, Started, start_each-Started}
use relay_x.Relay.Booting.Ranges.{configured, RefusedIn, Refused-RefusedIn, all-configured}
use relay_x.Relay.Booting.{Plane, range_ports, unless_failed, start_each, Around, start_plane}

-- What others do meanwhile stops no listener.
abbrev pub Keeps : Around Server → Type 0
Keeps w =
    (p q : ℕ) (s : Server)
    → present (s.listeners q) ≡ true
    → present ((w.others p s).listeners q) ≡ true

abbrev pub KeepsSrt : Around SrtServer → Type 0
KeepsSrt w =
    (p q : ℕ) (s : SrtServer)
    → present (s.listeners q) ≡ true
    → present ((w.others p s).listeners q) ≡ true

start_port-Keeps :
    (w : Around Server) (p q : ℕ) (s : Server)
    → Keeps w
    → present (s.listeners q) ≡ true
    → present ((start_port p (w.listen p) (w.others p) s).0.listeners q) ≡ true
unfolding start_port
start_port-Keeps w p q s k h = go (w.listen p)
  where
    go : (r : Result ℕ) → present ((start_port p r (w.others p) s).0.listeners q) ≡ true
    go (err e) = ground (arith, k p q s)
    go (ok ln) = ground (arith, k p q s)

srt_start_port-Keeps :
    (w : Around SrtServer) (p q : ℕ) (s : SrtServer)
    → KeepsSrt w
    → present (s.listeners q) ≡ true
    → present ((srt_start_port p (w.listen p) (w.others p) s).0.listeners q) ≡ true
unfolding srt_start_port
srt_start_port-Keeps w p q s k h = go (w.listen p)
  where
    go : (r : Result ℕ) → present ((srt_start_port p r (w.others p) s).0.listeners q) ≡ true
    go (err e) = ground (arith, k p q s)
    go (ok ln) = ground (arith, k p q s)

start_port-on :
    (w : Around Server) (p : ℕ) (s : Server)
    → let t = start_port p (w.listen p) (w.others p) s in
      ((t.1 ≡ nil) × (present (t.0.listeners p) ≡ true))
      ⊎ Refusal (codes "tcp listen failed") (w.listen p) t.1
unfolding start_port
start_port-on w p s = elim (Bool-cases (present (s.listeners p))) [
  | inl h ↦ inl (rw h refl, rw h h)
  | inr h ↦ go (w.listen p) h
]
  where
    go :
        (r : Result ℕ)
        → present (s.listeners p) ≡ false
        → let t = start_port p r (w.others p) s in
          ((t.1 ≡ nil) × (present (t.0.listeners p) ≡ true))
          ⊎ Refusal (codes "tcp listen failed") r t.1
    go (err e) h = inr record { cause = e; refused = refl; reported = rw h refl }
    go (ok ln) h = inl (ground arith, ground (arith, ==_iff p p))

srt_start_port-on :
    (w : Around SrtServer) (p : ℕ) (s : SrtServer)
    → let t = srt_start_port p (w.listen p) (w.others p) s in
      ((t.1 ≡ nil) × (present (t.0.listeners p) ≡ true))
      ⊎ Refusal (codes "srt listen failed") (w.listen p) t.1
unfolding srt_start_port
srt_start_port-on w p s = elim (Bool-cases (present (s.listeners p))) [
  | inl h ↦ inl (rw h refl, rw h h)
  | inr h ↦ go (w.listen p) h
]
  where
    go :
        (r : Result ℕ)
        → present (s.listeners p) ≡ false
        → let t = srt_start_port p r (w.others p) s in
          ((t.1 ≡ nil) × (present (t.0.listeners p) ≡ true))
          ⊎ Refusal (codes "srt listen failed") r t.1
    go (err e) h = inr record { cause = e; refused = refl; reported = rw h refl }
    go (ok ln) h = inl (ground arith, ground (arith, ==_iff p p))

-- The outcome of a start with a configuration.
abbrev pub Outcome : Config → Around Server → Around SrtServer → Plane × Err → Type 0
Outcome cfg z w r =
    let zmq_range = parse_port_range cfg.zero_mq.port_range in
    let srt_range = parse_port_range cfg.go_srt.port_range in
    ((r.1 ≡ nil)
      × ((q : ℕ) → configured zmq_range q ≡ true → present (r.0.zmq.listeners q) ≡ true)
      × ((q : ℕ) → configured srt_range q ≡ true → present (r.0.srt.listeners q) ≡ true))
    ⊎ (RefusedIn (codes "tcp listen failed") z.listen zmq_range r.1
        ⊎ RefusedIn (codes "srt listen failed") w.listen srt_range r.1)

-- Where no listener is stopped meanwhile, `Start` reports no error and leaves a listener at every port of
-- the two configured ranges, each of its server, or it reports why listening failed at a port of a range.
-- A range that does not parse counts as port 0.
pub start_plane_lem :
    (cfg : Config) (z : Around Server) (w : Around SrtServer) (p : Plane)
    → Keeps z
    → KeepsSrt w
    → Outcome cfg z w (start_plane cfg z w p)
unfolding start_plane
start_plane_lem cfg z w p k l =
    go (start_each start_zmq zmq_ports p.zmq) (start_each start_srt srt_ports p.srt)
      (start_each-Started start_zmq (λ q s. present (s.listeners q)) _ z.listen (start_port-on z)
        (λ q q' s. start_port-Keeps z q q' s k) zmq_ports p.zmq)
      (start_each-Started start_srt (λ q s. present (s.listeners q)) _ w.listen
        (srt_start_port-on w) (λ q q' s. srt_start_port-Keeps w q q' s l) srt_ports p.srt)
  where
    start_zmq : ℕ → Server → Server × Err
    start_zmq port = start_port port (z.listen port) (z.others port)

    start_srt : ℕ → SrtServer → SrtServer × Err
    start_srt port = srt_start_port port (w.listen port) (w.others port)

    zmq_ports : List ℕ
    zmq_ports = range_ports (parse_port_range cfg.zero_mq.port_range)

    srt_ports : List ℕ
    srt_ports = range_ports (parse_port_range cfg.go_srt.port_range)

    go :
        (a : Server × Err) (b : SrtServer × Err)
        → Started
            (λ q. present (a.0.listeners q))
            zmq_ports
            (codes "tcp listen failed")
            z.listen
            a.1
        → Started
            (λ q. present (b.0.listeners q))
            srt_ports
            (codes "srt listen failed")
            w.listen
            b.1
        → Outcome cfg z w
            (unless_failed (λ q. (record q { srt = b.0 }, b.1)) (record p { zmq = a.0 }, a.1))
    go (s, nil) (t, f) (inl (n, on)) (inl (m, up)) = inl (
      m,
      all-configured (λ q. present (s.listeners q)) cfg.zero_mq.port_range on,
      all-configured (λ q. present (t.listeners q)) cfg.go_srt.port_range up,
    )
    go (s, nil) (t, f) (inl (n, on)) (inr x) =
        inr (inr (Refused-RefusedIn _ w.listen cfg.go_srt.port_range f x))
    go (s, nil) (t, f) (inr x) y = absurd (
        wrap_not_nil code_conflict (codes "tcp listen failed") x.refusal.cause
          (sym x.refusal.reported))
    go (s, plain m) b (inl (n, on)) y = cc
    go (s, plain m) b (inr x) y =
        inr (inl (Refused-RefusedIn _ z.listen cfg.zero_mq.port_range _ x))
    go (s, wrapped m f) b (inl (n, on)) y = cc
    go (s, wrapped m f) b (inr x) y =
        inr (inl (Refused-RefusedIn _ z.listen cfg.zero_mq.port_range _ x))
    go (s, coded c m f) b (inl (n, on)) y = cc
    go (s, coded c m f) b (inr x) y =
        inr (inl (Refused-RefusedIn _ z.listen cfg.zero_mq.port_range _ x))
