-- ===== src/Relay/Listening.antt =====
-- v4/relay/tcp_server.go: `StartPort`.
use relay_x.Prelude.{ℕ, Option, ◌≡◌, ◌≢◌, refl, true, none, some, Text, codes, arith}
use relay_x.Errors.{Err, nil, Result, ok, err, plain, wrapped, coded, wrap, code_conflict}
use relay_x.Relay.Tcp.{Server, present, start_port}

pub wrap_not_nil : (n : ℕ) (msg : Text) (e : Err) → wrap n msg e ≢ nil
wrap_not_nil n msg nil h = cc
wrap_not_nil n msg (plain m) h = cc
wrap_not_nil n msg (wrapped m e) h = cc
wrap_not_nil n msg (coded c m e) h = cc

start_port-present :
    (port : ℕ) (listen : Result ℕ) (meanwhile : Server → Server) (s : Server) {t : Server}
    → start_port port listen meanwhile s ≡ (t, nil)
    → present (t.listeners port) ≡ true
unfolding start_port
start_port-present port (err e) meanwhile s h =
    ground (arith, wrap_not_nil code_conflict (codes "tcp listen failed") e)
start_port-present port (ok ln) meanwhile s h = ground arith

present_not_none : (o : Option ℕ) → present o ≡ true → o ≢ none
present_not_none none h k = cc
present_not_none (some n) h k = cc

-- Whatever listening gives and whatever others do between the two locks: where `StartPort` reports
-- no error, the port has a listener, and to start it once more does nothing and reports no error.
pub start_port_lem :
    (port : ℕ) (listen again : Result ℕ) (meanwhile later : Server → Server) (s : Server)
    {t : Server}
    → start_port port listen meanwhile s ≡ (t, nil)
    → (t.listeners port ≢ none) × (start_port port again later t ≡ (t, nil))
unfolding start_port
start_port_lem port listen again meanwhile later s {t} h =
    let p = start_port-present port listen meanwhile s h in
    (present_not_none (t.listeners port) p, rw p refl)
