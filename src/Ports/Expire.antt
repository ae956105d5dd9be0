-- ===== src/Ports/Expire.antt =====
-- v4/ports/pool.go: what a sweep of expired reservations frees.
use relay_x.Prelude.{
  ℕ, ◌+◌, true, false, Bool, ◌&&◌, ◌≡◌, refl, Option, none, some, List, [], ◌∷◌, ◌++◌, is_blank,
  arith, ltb, ◌==◌, if◌then◌else◌,
}
use relay_x.Prelude.Sorting.{elem}
use relay_x.Status.{idle, reserved}
use relay_x.Ports.Defs.{Pool, Allocation, is_state, expire_port, release_expired}
use relay_x.Ports.Valid.{IsValid}

-- A reservation that the sweep at `now` drops: it has no session, or is older than `max_age`.
abbrev pub is_stale : ℕ → ℕ → Option Allocation → Bool
is_stale now max_age none = true
is_stale now max_age (some a) =
    if is_blank a.session_id then true else ltb (a.reserved_at + max_age) now

abbrev pub drops : ℕ → ℕ → Pool → ℕ → Bool
drops now max_age p q = is_state reserved (p.state q) && is_stale now max_age (p.alloc q)

expire_port_at :
    (now max_age port : ℕ) (p : Pool) (q : ℕ)
    → let p' = (expire_port now max_age port p).0 in
      (p'.state q ≡ (if port == q && drops now max_age p q then some idle else p.state q))
      × (p'.alloc q ≡ (if port == q && drops now max_age p q then none else p.alloc q))
unfolding expire_port
expire_port_at now max_age port p q = (ground arith, ground arith)

release_expired_at :
    (order : List ℕ) (now max_age : ℕ) (p : Pool) (q : ℕ)
    → let p' = (release_expired order now max_age p).0 in
      (p'.state q ≡ (if elem q order && drops now max_age p q then some idle else p.state q))
      × (p'.alloc q ≡ (if elem q order && drops now max_age p q then none else p.alloc q))
unfolding release_expired elem
release_expired_at [] now max_age p q = (refl, refl)
release_expired_at (port ∷ order) now max_age p q = ground (
  arith,
  expire_port_at now max_age port p q,
  release_expired_at order now max_age (expire_port now max_age port p).0 q,
)

release_expired-ports :
    (order : List ℕ) (now max_age : ℕ) (p : Pool)
    → let p' = (release_expired order now max_age p).0 in (p'.kind ≡ p.kind) × (p'.ports ≡ p.ports)
unfolding release_expired expire_port
release_expired-ports [] now max_age p = (refl, refl)
release_expired-ports (port ∷ order) now max_age p =
    ground (arith, release_expired-ports order now max_age (expire_port now max_age port p).0)

-- What the sweep reports of a port: the allocation of a reservation that is too old.
abbrev report_alloc : ℕ → ℕ → Option Allocation → List Allocation
report_alloc now max_age none = []
report_alloc now max_age (some a) =
    if is_blank a.session_id then [] else if ltb (a.reserved_at + max_age) now then a ∷ [] else []

abbrev report : ℕ → ℕ → Pool → ℕ → List Allocation
report now max_age p q =
    if is_state reserved (p.state q) then report_alloc now max_age (p.alloc q) else []

abbrev pub reports : List ℕ → ℕ → ℕ → Pool → List Allocation
reports [] now max_age p = []
reports (q ∷ qs) now max_age p = report now max_age p q ++ reports qs now max_age p

-- A key of a map comes up once.
abbrev pub Distinct : List ℕ → Type 0
Distinct [] = Unit {0}
Distinct (q ∷ qs) = (elem q qs ≡ false) × Distinct qs

reports-expire_port :
    (qs : List ℕ) (now max_age port : ℕ) (p : Pool)
    → elem port qs ≡ false
    → reports qs now max_age (expire_port now max_age port p).0 ≡ reports qs now max_age p
unfolding elem
reports-expire_port [] now max_age port p h = refl
reports-expire_port (q ∷ qs) now max_age port p h =
    ground (arith, expire_port_at now max_age port p q, reports-expire_port qs now max_age port p)

expire_port-report :
    (now max_age port : ℕ) (p : Pool)
    → (expire_port now max_age port p).1 ≡ report now max_age p port
unfolding expire_port
expire_port-report now max_age port p = ground arith

release_expired-reports :
    (order : List ℕ) (now max_age : ℕ) (p : Pool)
    → Distinct order
    → (release_expired order now max_age p).1 ≡ reports order now max_age p
unfolding release_expired
release_expired-reports [] now max_age p d = refl
release_expired-reports (port ∷ order) now max_age p (fresh, d) = ground (
  arith,
  expire_port-report now max_age port p,
  release_expired-reports order now max_age (expire_port now max_age port p).0 d,
  reports-expire_port order now max_age port p fresh,
)

-- A sweep at `now` over all the ports of a valid pool, each once: a port is freed exactly when it
-- is reserved and its reservation is older than `max_age` or has no session; every other port keeps
-- its status and allocation; and the sweep returns the too old allocations that have a session, in
-- the order of the visits.
pub release_expired_lem :
    (order : List ℕ) (now max_age : ℕ) (p : Pool)
    → IsValid p
    → Distinct order
    → ((q : ℕ) → elem q order ≡ elem q p.ports)
    → let (p', released) = release_expired order now max_age p in
      ((q : ℕ) → p'.state q ≡ (if drops now max_age p q then some idle else p.state q))
      × ((q : ℕ) → p'.alloc q ≡ (if drops now max_age p q then none else p.alloc q))
      × (released ≡ reports order now max_age p)
release_expired_lem order now max_age p v d all = (
  λ q. ground (arith, release_expired_at order now max_age p q, all q, v.known q),
  λ q. ground (arith, release_expired_at order now max_age p q, all q, v.known q),
  release_expired-reports order now max_age p d,
)
