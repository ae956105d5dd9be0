-- ===== src/Relay/Forget.antt =====
-- v4/relay/srt_server.go: with its SRT connections forgotten, the server of the SRT ports is the server
-- of the TCP ports.
use relay_x.Prelude.{
  ℕ, map, ◌≡◌, refl, ap, ◌∙◌, inl, inr, Option, none, some, List, [], ◌∷◌, Text, arith, Map, put,
  fun_ext, Bool-cases,
}
use relay_x.Ports.Defs.{release}
use relay_x.Ports.Lifecycle
use relay_x.Ports.Lifecycle.{Op}
use relay_x.Relay.Tcp.{
  Session, Server, handle_conn, mismatched, enqueue, try_pair, maintain_s, maintain_c,
  stop_listener, stop_pending_s, stop_pending_c, stop_session,
}
use relay_x.Relay.Valid.{
  Act, enqueuing, pairing, ending, freeing, maintaining_s, maintaining_c, stopping_listener,
  stopping_s, stopping_c, stopping_session, closing, pooling, act, acts,
}
use relay_x.Errors.{Result, ok, err}
use relay_x.Relay.Hello.{DataHello}
use relay_x.Relay.Srt.{
  srt_handle_conn, SrtPending, SrtSession, SrtServer, srt_close, srt_enqueue, srt_try_pair,
  srt_maintain_s, srt_maintain_c, srt_stop_listener, srt_stop_s, srt_stop_c, srt_stop_session,
  bc_of, session_in,
}

abbrev pub forget : SrtServer → Server
forget s = record {
  pool = s.pool;
  listeners = s.listeners;
  pending_s = λ port. bc_of (s.pending_s port);
  pending_c = λ port. bc_of (s.pending_c port);
  sessions = λ port. session_in (s.sessions port);
  closed = s.closed;
  stopped = s.stopped;
}

-- The atomic steps. A connection that waits comes with its SRT connection.
pub data SrtAct : Type 0 where
  arriving : ℕ → Text → SrtPending → SrtAct
  acting : Act → SrtAct

abbrev pub srt_act : SrtAct → SrtServer → SrtServer
srt_act (arriving port role p) s = srt_enqueue port role p s
srt_act (acting (enqueuing port role c)) s = srt_enqueue port role (record { raw = c; bc = c }) s
srt_act (acting (pairing port)) s = srt_try_pair port s
srt_act (acting (ending port)) s = record s { sessions = put s.sessions port none }
srt_act (acting (freeing port session)) s = record s { pool = (release port session s.pool).0 }
srt_act (acting (maintaining_s port now)) s = srt_maintain_s port now s
srt_act (acting (maintaining_c port now)) s = srt_maintain_c port now s
srt_act (acting (stopping_listener port)) s = srt_stop_listener port s
srt_act (acting (stopping_s port)) s = srt_stop_s port s
srt_act (acting (stopping_c port)) s = srt_stop_c port s
srt_act (acting (stopping_session port)) s = srt_stop_session port s
srt_act (acting (closing c)) s = srt_close c s
srt_act (acting (pooling op)) s = record s { pool = Lifecycle.step op s.pool }

-- The step of the TCP server.
abbrev pub forget_act : SrtAct → Act
forget_act (arriving port role p) = enqueuing port role p.bc
forget_act (acting a) = a

bc_of-put :
    (m : Map SrtPending) (k : ℕ) (v : Option SrtPending)
    → Path (Map ℕ) (λ j. bc_of (put m k v j)) (put (λ j. bc_of (m j)) k (bc_of v))
bc_of-put m k v = fun_ext (λ j. ground arith)

session_in-put :
    (m : Map SrtSession) (k : ℕ) (v : Option SrtSession)
    → Path
        (Map Session)
        (λ j. session_in (put m k v j))
        (put (λ j. session_in (m j)) k (session_in v))
session_in-put m k v = fun_ext (λ j. ground arith)

forget-srt_enqueue :
    (port : ℕ) (role : Text) (p : SrtPending) (s : SrtServer)
    → forget (srt_enqueue port role p s) ≡ enqueue port role p.bc (forget s)
unfolding srt_enqueue enqueue
forget-srt_enqueue port role p s =
    ground (arith, bc_of-put s.pending_s port (some p), bc_of-put s.pending_c port (some p))

forget-srt_try_pair :
    (port : ℕ) (s : SrtServer) → forget (srt_try_pair port s) ≡ try_pair port (forget s)
unfolding srt_try_pair try_pair
forget-srt_try_pair port s = ground (
  arith,
  bc_of-put s.pending_s port none,
  bc_of-put s.pending_c port none,
  λ (x : SrtSession). session_in-put s.sessions port (some x),
)

forget-srt_maintain_s :
    (port now : ℕ) (s : SrtServer)
    → forget (srt_maintain_s port now s) ≡ maintain_s port now (forget s)
unfolding srt_maintain_s maintain_s
forget-srt_maintain_s port now s = ground (arith, bc_of-put s.pending_s port none)

forget-srt_maintain_c :
    (port now : ℕ) (s : SrtServer)
    → forget (srt_maintain_c port now s) ≡ maintain_c port now (forget s)
unfolding srt_maintain_c maintain_c
forget-srt_maintain_c port now s = ground (arith, bc_of-put s.pending_c port none)

forget-srt_act : (a : SrtAct) (s : SrtServer) → forget (srt_act a s) ≡ act (forget_act a) (forget s)
unfolding srt_stop_listener srt_stop_s srt_stop_c srt_stop_session stop_listener stop_pending_s
    stop_pending_c stop_session
forget-srt_act (arriving port role p) s = forget-srt_enqueue port role p s
forget-srt_act (acting (enqueuing port role c)) s =
    forget-srt_enqueue port role (record { raw = c; bc = c }) s
forget-srt_act (acting (pairing port)) s = forget-srt_try_pair port s
forget-srt_act (acting (ending port)) s = ground (arith, session_in-put s.sessions port none)
forget-srt_act (acting (freeing port session)) s = refl
forget-srt_act (acting (maintaining_s port now)) s = forget-srt_maintain_s port now s
forget-srt_act (acting (maintaining_c port now)) s = forget-srt_maintain_c port now s
forget-srt_act (acting (stopping_listener port)) s = refl
forget-srt_act (acting (stopping_s port)) s = ground (arith, bc_of-put s.pending_s port none)
forget-srt_act (acting (stopping_c port)) s = ground (arith, bc_of-put s.pending_c port none)
forget-srt_act (acting (stopping_session port)) s =
    ground (arith, session_in-put s.sessions port none)
forget-srt_act (acting (closing c)) s = refl
forget-srt_act (acting (pooling op)) s = refl

pub srt_acts : List SrtAct → SrtServer → SrtServer
srt_acts [] s = s
srt_acts (a ∷ rest) s = srt_acts rest (srt_act a s)

-- Whatever the SRT server and its surroundings do step by step, with the SRT connections forgotten it
-- is at each moment the TCP server after the same steps: the same connections wait and are closed,
-- the same sessions run, and the pool is the same.
pub forget-srt_acts :
    (l : List SrtAct) (s : SrtServer) → forget (srt_acts l s) ≡ acts (map forget_act l) (forget s)
unfolding srt_acts acts
forget-srt_acts [] s = refl
forget-srt_acts (a ∷ rest) s =
    forget-srt_acts rest (srt_act a s) ∙ ap (acts (map forget_act rest)) (forget-srt_act a s)

-- An SRT connection is greeted, refused and queued as a connection of the TCP server.
pub forget-srt_handle_conn :
    (port c raw : ℕ) (hello : Result DataHello) (m : SrtServer → SrtServer) (n : Server → Server)
    (s : SrtServer)
    → ((t : SrtServer) → forget (m t) ≡ n (forget t))
    → forget (srt_handle_conn port c (some raw) hello m s) ≡ handle_conn port c hello n (forget s)
unfolding srt_handle_conn handle_conn
forget-srt_handle_conn port c raw (err e) m n s h = refl
forget-srt_handle_conn port c raw (ok g) m n s h =
    elim (Bool-cases (mismatched (s.pool.alloc port) g.session_id)) [
      | inl e ↦ rw e refl
      | inr e ↦ rw e (
          forget-srt_enqueue port g.role (record { raw = raw; bc = c }) (m s)
          ∙ ap (enqueue port g.role c) (h s))
    ]
