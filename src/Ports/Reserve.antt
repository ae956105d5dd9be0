-- ===== src/Ports/Reserve.antt =====
-- v4/ports/pool.go: which port `Reserve` takes, and that `Release` undoes it.
use relay_x.Prelude.{
  ℕ, suc, ◌≤◌, true, ◌≡◌, ◌≢◌, Option, none, some, List, [], ◌∷◌, Text, codes, text_eq_refl, arith,
  put, put_same, put-put, Option-cases, inl, inr, ◌⊎◌,
}
use relay_x.Prelude.Sorting.{elem}
use relay_x.Errors.{Result, nil, ok, err, new, code_unavailable}
use relay_x.Status.{PortStatus, idle, reserved}
use relay_x.Ports.Defs.{Pool, Allocation, first_idle, reserve, release, reservation}
use relay_x.Ports.Valid.{IsValid, Rising, first_idle-idle}

first_idle-elem :
    (state : ℕ → Option PortStatus) (ps : List ℕ) {q : ℕ}
    → first_idle state ps ≡ some q
    → elem q ps ≡ true
unfolding first_idle elem
first_idle-elem state [] h = cc
first_idle-elem state (p ∷ ps) {q} h = ground (arith, first_idle-elem state ps {q = q})

first_idle-none :
    (state : ℕ → Option PortStatus) (ps : List ℕ) (q : ℕ)
    → first_idle state ps ≡ none
    → elem q ps ≡ true
    → state q ≢ some idle
unfolding first_idle elem
first_idle-none state [] q h e = cc
first_idle-none state (p ∷ ps) q h e = ground (arith, first_idle-none state ps q)

pub Rising-elem : (lo : ℕ) (ps : List ℕ) (q : ℕ) → Rising lo ps → elem q ps ≡ true → lo ≤ q
unfolding elem
Rising-elem lo [] q r e = cc
Rising-elem lo (p ∷ ps) q r e = ground (arith, Rising-elem (suc p) ps q r.1)

first_idle_lowest :
    (state : ℕ → Option PortStatus) (lo : ℕ) (ps : List ℕ) (q r : ℕ)
    → Rising lo ps
    → first_idle state ps ≡ some q
    → elem r ps ≡ true
    → state r ≡ some idle
    → q ≤ r
unfolding first_idle elem
first_idle_lowest state lo [] q r o h e i = cc
first_idle_lowest state lo (p ∷ ps) q r o h e i =
    ground (arith, first_idle_lowest state (suc p) ps q r o.1, Rising-elem (suc p) ps r o.1)

-- The two outcomes of `Reserve`.
abbrev pub Reserves : Pool → Text → Text → Text → ℕ → Pool × Result Allocation → Type 0
Reserves p session server client now out =
    (((q : ℕ) → elem q p.ports ≡ true → p.state q ≢ some idle)
      × (out ≡ (p, err (new code_unavailable (codes "no available port")))))
    ⊎ ((port : ℕ) × (elem port p.ports ≡ true)
        × (p.state port ≡ some idle)
        × ((q : ℕ) → elem q p.ports ≡ true → p.state q ≡ some idle → port ≤ q)
        × (out ≡ (
          record p {
            state = put p.state port (some reserved);
            alloc = put p.alloc port (some (reservation p port session server client now));
          },
          ok (reservation p port session server client now),
        )))

-- In a valid pool `Reserve` fails, with the code for unavailable and the pool unchanged, exactly
-- when no port is idle; otherwise it takes the lowest idle port, writes that port's status and
-- allocation and nothing else, and returns the allocation with the ids and the time given.
pub reserve_lem :
    (session server client : Text) (now : ℕ) (p : Pool)
    → IsValid p
    → Reserves p session server client now (reserve session server client now p)
unfolding reserve
reserve_lem session server client now p v = elim (Option-cases (first_idle p.state p.ports)) [
  | inl e ↦ inl (λ q. first_idle-none p.state p.ports q e, rw e)
  | inr (port, e) ↦ inr (
    port,
    first_idle-elem p.state p.ports e,
    first_idle-idle p.state p.ports e,
    λ q. first_idle_lowest p.state 1 p.ports port q v.rising e,
    rw e,
  )
]

-- The status and the allocation of an idle port, taken and given back.
pub undo_write :
    (p : Pool) (port : ℕ) (a : Option Allocation)
    → IsValid p
    → p.state port ≡ some idle
    → record p {
      state = put (put p.state port (some reserved)) port (some idle);
      alloc = put (put p.alloc port a) port none;
    }
      ≡ p
undo_write p port a v h = ground (
  arith,
  v.held port,
  put-put p.state port (some reserved) (some idle),
  put_same p.state port (some idle),
  put-put p.alloc port a none,
  put_same p.alloc port none,
)

-- Releasing what was just reserved, under the session that reserved it, succeeds and gives back
-- the very pool from before, for a valid pool.
pub release-reserve :
    (session server client : Text) (now : ℕ) (p : Pool) {q : Pool} {a : Allocation}
    → IsValid p
    → reserve session server client now p ≡ (q, ok a)
    → release a.port session q ≡ (p, nil)
unfolding release
release-reserve session server client now p {q} {a} v h =
    elim (reserve_lem session server client now p v) [
      | inl (_, e) ↦ ground arith
      | inr (port, _, i, _, e) ↦ ground (
        arith,
        text_eq_refl session,
        undo_write p port (some (reservation p port session server client now)) v i,
      )
    ]
