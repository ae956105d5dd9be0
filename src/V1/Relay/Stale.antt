-- ===== src/V1/Relay/Stale.antt =====
-- v1/relay/server.go: the callback of an old session, after its port was stopped and started again.
use relay_x.Prelude.{ℕ, ◌≡◌, refl, true, false, Option, none, some, Text, arith, ◌==◌, ==_iff}
use relay_x.Errors.{ok}
use relay_x.Slots.{Waiting, be, fe, PipeSession}
use relay_x.V1.Relay.{RelayServer, start_relay_port, admit, on_stop, stop_port}

-- A port at which nobody waits and no session runs.
abbrev pub IsQuiet : ℕ → RelayServer → Type 0
IsQuiet port s = (s.busy port ≡ false) × (s.pending_be port ≡ none) × (s.pending_fe port ≡ none)

-- A back end and a front end come to a quiet port: a session starts, and nothing is closed or stopped.
pub record Starts (port y : ℕ) (b f : Waiting) (s : RelayServer)
    (out : RelayServer × Option PipeSession) : Type 0 where
  pub session : out.0.sessions port ≡ some y
  pub busy : out.0.busy port ≡ true
  pub be_gone : out.0.pending_be port ≡ none
  pub fe_gone : out.0.pending_fe port ≡ none
  pub stopped_kept : out.0.stopped ≡ s.stopped
  pub closed_kept : out.0.closed ≡ s.closed
  pub given :
      out.1 ≡ some (record { session = y; fe_conn = f.conn; be_conn = b.conn; be_id = b.client_id })

pub two_admitted :
    (port y : ℕ) (b f : Waiting) (s : RelayServer)
    → IsQuiet port s
    → Starts port y b f s (admit fe port y f (admit be port y b s).0)
unfolding admit
two_admitted port y b f s (n, e, g) =
    let self : (port == port) ≡ true = ground (arith, ==_iff port port) in
    rw n (
      rw (e, g)
        (rw n (
          rw self (record {
            session = rw self refl;
            busy = rw self refl;
            be_gone = rw self refl;
            fe_gone = g;
            stopped_kept = refl;
            closed_kept = refl;
            given = refl;
          }))))

module _ (port ln : ℕ) (protocol : Text) (b1 f1 b2 f2 : Waiting) (x : PipeSession) (y z : ℕ)
    (s : RelayServer) where
  -- The port is stopped and started again, and a back end and a front end start session `y` at it.
  abbrev pub restarted : RelayServer
  restarted =
      (admit fe port y f1
        (admit be port y b1 (start_relay_port port protocol (ok ln) (stop_port port s)).0).0).0

  -- Then the callback of the old session runs, and another two connections come.
  abbrev pub displaced : RelayServer × Option PipeSession
  displaced = admit fe port z f2 (admit be port z b2 (on_stop port false x restarted)).0

  -- The port is quiet when it is stopped and started again, and again when the old callback has run.
  IsQuiet-start : IsQuiet port (start_relay_port port protocol (ok ln) (stop_port port s)).0
  unfolding start_relay_port stop_port
  IsQuiet-start =
      let self : (port == port) ≡ true = ground (arith, ==_iff port port) in
      (rw self (rw self refl), rw self (rw self refl), rw self (rw self refl))

  IsQuiet-again : IsQuiet port (on_stop port false x restarted)
  unfolding on_stop
  IsQuiet-again =
      let self : (port == port) ≡ true = ground (arith, ==_iff port port) in
      let t =
        two_admitted port y b1 f1 (start_relay_port port protocol (ok ln) (stop_port port s)).0
          IsQuiet-start in
      (rw self refl, rw self t.be_gone, t.fe_gone)

  -- A session whose port was stopped and started again frees the port when its callback runs, though a
  -- newer session runs there: the next two connections start a third session, the port forgets the
  -- second, and the second was never stopped.
  pub displaced_lem :
      (restarted.sessions port ≡ some y)
      × (restarted.busy port ≡ true)
      × (displaced.0.sessions port ≡ some z)
      × (displaced.0.stopped ≡ restarted.stopped)
      × (displaced.0.closed ≡ restarted.closed)
  unfolding on_stop
  displaced_lem =
      let t =
        two_admitted port y b1 f1 (start_relay_port port protocol (ok ln) (stop_port port s)).0
          IsQuiet-start in
      let u = two_admitted port z b2 f2 (on_stop port false x restarted) IsQuiet-again in
      (t.session, t.busy, u.session, u.stopped_kept, u.closed_kept)
