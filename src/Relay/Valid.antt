-- ===== src/Relay/Valid.antt =====
-- v4/relay/tcp_server.go: the server's invariant under every interleaving of its atomic steps.
use relay_x.Prelude.{
  ℕ, ◌≡◌, refl, ◌⊎◌, inl, inr, true, Option, none, some, List, [], ◌∷◌, Text, arith, put,
  Option-cases,
}
use relay_x.Ports.Defs.{Pool, release}
use relay_x.Ports.Valid
use relay_x.Ports.Valid.{mark_occupied-IsValid, release-IsValid, touch_reservation-IsValid}
use relay_x.Ports.Lifecycle
use relay_x.Ports.Lifecycle.{Op, step-IsValid}
use relay_x.Relay.Tcp.{
  Session, Server, new_server, close, present, enqueue, try_pair, maintain_s, maintain_c,
  stop_listener, stop_pending_s, stop_pending_c, stop_session,
}

abbrev At : ℕ → Option Session → Type 0
At port none = Unit {0}
At port (some x) = x.port ≡ port

-- While a port has a session no connection waits on it, and the session is that port's.
pub record IsValid (s : Server) : Type 0 where
  pub pool : Valid.IsValid s.pool
  pub settled :
      (port : ℕ)
      → present (s.sessions port) ≡ true
      → (s.pending_s port ≡ none) × (s.pending_c port ≡ none)
  pub labelled : (port : ℕ) → At port (s.sessions port)

-- The atomic steps of the server's goroutines, and those that the control plane and the sweep take
-- on the pool.
pub data Act : Type 0 where
  enqueuing : ℕ → Text → ℕ → Act
  pairing : ℕ → Act
  ending : ℕ → Act
  freeing : ℕ → Text → Act
  maintaining_s : ℕ → ℕ → Act
  maintaining_c : ℕ → ℕ → Act
  stopping_listener : ℕ → Act
  stopping_s : ℕ → Act
  stopping_c : ℕ → Act
  stopping_session : ℕ → Act
  closing : ℕ → Act
  pooling : Op → Act

abbrev pub act : Act → Server → Server
act (enqueuing port role c) s = enqueue port role c s
act (pairing port) s = try_pair port s
act (ending port) s = record s { sessions = put s.sessions port none }
act (freeing port session) s = record s { pool = (release port session s.pool).0 }
act (maintaining_s port now) s = maintain_s port now s
act (maintaining_c port now) s = maintain_c port now s
act (stopping_listener port) s = stop_listener port s
act (stopping_s port) s = stop_pending_s port s
act (stopping_c port) s = stop_pending_c port s
act (stopping_session port) s = stop_session port s
act (closing c) s = close c s
act (pooling op) s = record s { pool = Lifecycle.step op s.pool }

enqueue-IsValid :
    (port : ℕ) (role : Text) (c : ℕ) (s : Server) → IsValid s → IsValid (enqueue port role c s)
unfolding enqueue
enqueue-IsValid port role c s v = record {
  pool = ground (arith, v.pool);
  settled = λ q h. ground (arith, v.settled q);
  labelled = λ q. ground (arith, v.labelled q);
}

try_pair-IsValid : (port : ℕ) (s : Server) → IsValid s → IsValid (try_pair port s)
unfolding try_pair
try_pair-IsValid port s v = elim (Option-cases (s.pool.alloc port)) [
  | inl e ↦ record {
    pool = ground (arith, v.pool);
    settled = λ q h. ground (arith, v.settled q);
    labelled = λ q. ground (arith, v.labelled q);
  }
  | inr (a, e) ↦ record {
    pool = ground (arith, v.pool, mark_occupied-IsValid port a.session_id s.pool);
    settled = λ q h. ground (arith, v.settled q);
    labelled = λ q. ground (arith, v.labelled q);
  }
]

maintain_s-IsValid : (port now : ℕ) (s : Server) → IsValid s → IsValid (maintain_s port now s)
unfolding maintain_s
maintain_s-IsValid port now s v = elim (Option-cases (s.pool.alloc port)) [
  | inl e ↦ record {
    pool = ground (arith, v.pool);
    settled = λ q h. ground (arith, v.settled q);
    labelled = λ q. ground (arith, v.labelled q);
  }
  | inr (a, e) ↦ record {
    pool = ground (arith, v.pool, touch_reservation-IsValid port a.session_id now s.pool);
    settled = λ q h. ground (arith, v.settled q);
    labelled = λ q. ground (arith, v.labelled q);
  }
]

maintain_c-IsValid : (port now : ℕ) (s : Server) → IsValid s → IsValid (maintain_c port now s)
unfolding maintain_c
maintain_c-IsValid port now s v = elim (Option-cases (s.pool.alloc port)) [
  | inl e ↦ record {
    pool = ground (arith, v.pool);
    settled = λ q h. ground (arith, v.settled q);
    labelled = λ q. ground (arith, v.labelled q);
  }
  | inr (a, e) ↦ record {
    pool = ground (arith, v.pool, touch_reservation-IsValid port a.session_id now s.pool);
    settled = λ q h. ground (arith, v.settled q);
    labelled = λ q. ground (arith, v.labelled q);
  }
]

-- Steps that take connections or sessions away, and leave the pool alone.
fewer-IsValid :
    {s : Server} (t : Server)
    → IsValid s
    → t.pool ≡ s.pool
    → ((q : ℕ) → (t.pending_s q ≡ s.pending_s q) ⊎ (t.pending_s q ≡ none))
    → ((q : ℕ) → (t.pending_c q ≡ s.pending_c q) ⊎ (t.pending_c q ≡ none))
    → ((q : ℕ) → (t.sessions q ≡ s.sessions q) ⊎ (t.sessions q ≡ none))
    → IsValid t
fewer-IsValid {s} t v p a b c = record {
  pool = rw p v.pool;
  settled = λ q h. ground (arith, v.settled q, a q, b q, c q);
  labelled = λ q. ground (arith, v.labelled q, c q);
}

act-IsValid : (a : Act) (s : Server) → IsValid s → IsValid (act a s)
unfolding stop_listener stop_pending_s stop_pending_c stop_session
act-IsValid (enqueuing port role c) s v = enqueue-IsValid port role c s v
act-IsValid (pairing port) s v = try_pair-IsValid port s v
act-IsValid (ending port) s v =
    fewer-IsValid (act (ending port) s) v refl (λ q. inl refl) (λ q. inl refl) (λ q. ground arith)
act-IsValid (freeing port session) s v = record {
  pool = release-IsValid port session s.pool v.pool;
  settled = v.settled;
  labelled = v.labelled;
}
act-IsValid (maintaining_s port now) s v = maintain_s-IsValid port now s v
act-IsValid (maintaining_c port now) s v = maintain_c-IsValid port now s v
act-IsValid (stopping_listener port) s v =
    fewer-IsValid (stop_listener port s) v refl (λ q. inl refl) (λ q. inl refl) (λ q. inl refl)
act-IsValid (stopping_s port) s v =
    fewer-IsValid (stop_pending_s port s) v refl (λ q. ground arith) (λ q. inl refl) (λ q. inl refl)
act-IsValid (stopping_c port) s v =
    fewer-IsValid (stop_pending_c port s) v refl (λ q. inl refl) (λ q. ground arith) (λ q. inl refl)
act-IsValid (stopping_session port) s v =
    fewer-IsValid (stop_session port s) v refl (λ q. inl refl) (λ q. inl refl) (λ q. ground arith)
act-IsValid (closing c) s v =
    fewer-IsValid (close c s) v refl (λ q. inl refl) (λ q. inl refl) (λ q. inl refl)
act-IsValid (pooling op) s v = record {
  pool = step-IsValid op s.pool v.pool;
  settled = v.settled;
  labelled = v.labelled;
}

unfoldable pub acts : List Act → Server → Server
acts [] s = s
acts (a ∷ rest) s = acts rest (act a s)

acts-IsValid : (l : List Act) (s : Server) → IsValid s → IsValid (acts l s)
unfolding acts
acts-IsValid [] s v = v
acts-IsValid (a ∷ rest) s v = acts-IsValid rest (act a s) (act-IsValid a s v)

-- From a new server over a valid pool, after any interleaving of the atomic steps of accepted
-- connections, pairings, ended sessions, maintenance, shutdown, and of the control plane and the
-- sweep on the pool: the pool is valid, and a port that has a session has that port's session and
-- no connection waiting.
pub acts-new_server : (l : List Act) (p : Pool) → Valid.IsValid p → IsValid (acts l (new_server p))
unfolding new_server
acts-new_server l p v =
    acts-IsValid l (new_server p)
      (record { pool = v; settled = λ port h. cc; labelled = λ port. tt })
