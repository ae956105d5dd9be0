-- ===== src/Ports/Lifecycle.antt =====
-- v4/ports/pool.go: the calls that change a pool as one step function, and the life of a port.
use relay_x.Prelude.{
  ℕ, ◌≡◌, refl, ◌≢◌, Option, some, List, [], ◌∷◌, Text, text_eq_iff, arith, inl, inr, ◌⊎◌,
  Option-cases,
}
use relay_x.Prelude.Int.{ℤ}
use relay_x.Errors.{ok}
use relay_x.Status.{PortStatus, idle, occupied, reserved, blocked}
use relay_x.Ports.Defs.{
  Kind, Allocation, Pool, new_pool, first_idle, reserve, mark_occupied, release, block,
  touch_reservation, expire_port, release_expired,
}
use relay_x.Ports.Valid.{
  IsValid, new_pool-IsValid, first_idle-idle, reserve-IsValid, mark_occupied-IsValid,
  release-IsValid, block-IsValid, touch_reservation-IsValid, release_expired-IsValid,
}

pub data Op : Type 0 where
  reserving : Text → Text → Text → ℕ → Op
  occupying : ℕ → Text → Op
  releasing : ℕ → Text → Op
  blocking : ℕ → Text → Op
  touching : ℕ → Text → ℕ → Op
  expiring : List ℕ → ℕ → ℕ → Op

unfoldable pub step : Op → Pool → Pool
step (reserving session server client now) p = (reserve session server client now p).0
step (occupying port session) p = (mark_occupied port session p).0
step (releasing port session) p = (release port session p).0
step (blocking port reason) p = (block port reason p).0
step (touching port session now) p = touch_reservation port session now p
step (expiring order now max_age) p = (release_expired order now max_age p).0

unfoldable pub run : List Op → Pool → Pool
unfolding step
run [] p = p
run (op ∷ ops) p = run ops (step op p)

pub step-IsValid : (op : Op) (p : Pool) → IsValid p → IsValid (step op p)
unfolding step
step-IsValid (reserving session server client now) p v =
    reserve-IsValid session server client now p v
step-IsValid (occupying port session) p v = mark_occupied-IsValid port session p v
step-IsValid (releasing port session) p v = release-IsValid port session p v
step-IsValid (blocking port reason) p v = block-IsValid port reason p v
step-IsValid (touching port session now) p v = touch_reservation-IsValid port session now p v
step-IsValid (expiring order now max_age) p v = release_expired-IsValid order now max_age p v

run-IsValid : (ops : List Op) (p : Pool) → IsValid p → IsValid (run ops p)
unfolding run
run-IsValid [] p v = v
run-IsValid (op ∷ ops) p v = run-IsValid ops (step op p) (step-IsValid op p v)

-- A pool that `NewPool` makes is valid after any calls of its methods: the ports rise strictly and
-- lie in 1 to 65535, exactly they have a status, and a port has an allocation, of the pool's kind
-- and of that port, exactly while it is reserved or occupied.
pub run-new_pool :
    (kind : Kind) (start end : ℤ) (ops : List Op) {p : Pool}
    → new_pool kind start end ≡ ok p
    → IsValid (run ops p)
run-new_pool kind start end ops {p} h = run-IsValid ops p (new_pool-IsValid kind start end h)

-- The moves of one port.
pub data Move : Option PortStatus → Option PortStatus → Type 0 where
  stay : {s : Option PortStatus} → Move s s
  take : Move (some idle) (some reserved)
  occupy : Move (some reserved) (some occupied)
  free : {s : PortStatus} → Move (some s) (some idle)
  quarantine : {s : PortStatus} → Move (some s) (some blocked)

reserve-Move :
    (session server client : Text) (now : ℕ) (p : Pool) (q : ℕ)
    → Move (p.state q) ((reserve session server client now p).0.state q)
unfolding reserve
reserve-Move session server client now p q = elim (Option-cases (first_idle p.state p.ports)) [
  | inl e ↦ rw e stay
  | inr (r, e) ↦ rw e (grind (arith, first_idle-idle p.state p.ports e, stay, take))
]

mark_occupied-Move :
    (port : ℕ) (session : Text) (p : Pool) (q : ℕ)
    → Move (p.state q) ((mark_occupied port session p).0.state q)
unfolding mark_occupied
mark_occupied-Move port session p q = grind (arith, stay, occupy)

release-Move :
    (port : ℕ) (session : Text) (p : Pool) (q : ℕ)
    → Move (p.state q) ((release port session p).0.state q)
unfolding release
release-Move port session p q = grind (arith, stay, free)

block-Move :
    (port : ℕ) (reason : Text) (p : Pool) (q : ℕ)
    → Move (p.state q) ((block port reason p).0.state q)
unfolding block
block-Move port reason p q = grind (arith, stay, quarantine)

touch_reservation-state :
    (port : ℕ) (session : Text) (now : ℕ) (p : Pool)
    → (touch_reservation port session now p).state ≡ p.state
unfolding touch_reservation
touch_reservation-state port session now p = ground arith

-- A round of the expiry loop frees a reserved port or does nothing.
expire_port-state :
    (now max_age port : ℕ) (p : Pool) (q : ℕ)
    → let p' = (expire_port now max_age port p).0 in
      (p'.state q ≡ p.state q) ⊎ ((p.state q ≡ some reserved) × (p'.state q ≡ some idle))
unfolding expire_port
expire_port-state now max_age port p q = ground arith

release_expired-state :
    (order : List ℕ) (now max_age : ℕ) (p : Pool) (q : ℕ)
    → let p' = (release_expired order now max_age p).0 in
      (p'.state q ≡ p.state q) ⊎ ((p.state q ≡ some reserved) × (p'.state q ≡ some idle))
unfolding release_expired
release_expired-state [] now max_age p q = inl refl
release_expired-state (port ∷ order) now max_age p q =
    let p1 = (expire_port now max_age port p).0 in
    ground
      (arith, expire_port-state now max_age port p q, release_expired-state order now max_age p1 q)

-- Every call moves every port along the life of a port: from idle to reserved, from reserved to
-- occupied, from any known status to idle or to blocked, or not at all. A port that the pool does
-- not have stays unknown.
pub step-Move : (op : Op) (p : Pool) (q : ℕ) → Move (p.state q) ((step op p).state q)
unfolding step
step-Move (reserving session server client now) p q = reserve-Move session server client now p q
step-Move (occupying port session) p q = mark_occupied-Move port session p q
step-Move (releasing port session) p q = release-Move port session p q
step-Move (blocking port reason) p q = block-Move port reason p q
step-Move (touching port session now) p q = rw (touch_reservation-state port session now p) stay
step-Move (expiring order now max_age) p q = elim (release_expired-state order now max_age p q) [
  | inl e ↦ rw e stay
  | inr (e, f) ↦ rw (e, f) free
]

-- A call that names another session, and not the empty one, changes nothing of a port that a
-- session holds: it does not occupy, free or refresh it.
pub foreign_session :
    (port : ℕ) (session : Text) (now : ℕ) (p : Pool) {a : Allocation}
    → p.alloc port ≡ some a
    → session ≢ []
    → a.session_id ≢ session
    → ((mark_occupied port session p).0 ≡ p)
      × ((release port session p).0 ≡ p)
      × (touch_reservation port session now p ≡ p)
unfolding mark_occupied release touch_reservation
foreign_session port session now p {a} h n e = (
  ground (arith, text_eq_iff a.session_id session),
  ground (arith, text_eq_iff a.session_id session),
  ground (arith, text_eq_iff a.session_id session),
)
