-- ===== src/Ports/Valid.antt =====
-- v4/ports/pool.go: the invariant of a pool, kept by every operation.
use relay_x.Prelude.{
  ℕ, zero, suc, ◌+◌, ◌-◌, ◌≤◌, ◌<◌, ◌≡◌, refl, Bool, true, false, not, ◌&&◌, Option, none, some,
  List, [], ◌∷◌, Text, leb, arith, inl, inr, Option-cases, put, put_same,
}
use relay_x.Prelude.Int.{ℤ, pos_part}
use relay_x.Prelude.Sorting.{elem}
use relay_x.Errors.{ok}
use relay_x.Status.{PortStatus, idle, occupied, reserved, blocked}
use relay_x.Ports.Defs.{
  Kind, Allocation, Pool, is_none, count_up, idle_pool, new_pool, reservation, touch, first_idle,
  reserve, mark_occupied, release, block, touch_reservation, expire_port, release_expired,
}

-- The statuses in which a port belongs to a session.
abbrev pub is_held : Option PortStatus → Bool
is_held (some reserved) = true
is_held (some occupied) = true
is_held _ = false

-- The ports rise strictly from the bound.
abbrev pub Rising : ℕ → List ℕ → Type 0
Rising lo [] = Unit {0}
Rising lo (p ∷ ps) = (lo ≤ p) × Rising (suc p) ps

abbrev pub Labelled : Kind → ℕ → Option Allocation → Type 0
Labelled kind q none = Unit {0}
Labelled kind q (some a) = (a.kind ≡ kind) × (a.port ≡ q)

pub record IsValid (p : Pool) : Type 0 where
  pub rising : Rising 1 p.ports
  pub in_range : (q : ℕ) → elem q p.ports ≡ true → q ≤ 65535
  pub known : (q : ℕ) → is_none (p.state q) ≡ not (elem q p.ports)
  pub held : (q : ℕ) → is_none (p.alloc q) ≡ not (is_held (p.state q))
  pub labelled : (q : ℕ) → Labelled p.kind q (p.alloc q)

pub elem-count_up : (q i n : ℕ) → elem q (count_up i n) ≡ (leb i q && leb (q + 1) (i + n))
unfolding elem count_up
elem-count_up q i zero = ground arith
elem-count_up q i (suc n) = ground (arith, elem-count_up q (i + 1) n)

pub Rising-mono : {m n : ℕ} (ps : List ℕ) → m ≤ n → Rising n ps → Rising m ps
Rising-mono [] h r = tt
Rising-mono (p ∷ ps) h r = (omega arith, r.1)

pub count_up-Rising : (i n : ℕ) → Rising i (count_up i n)
unfolding count_up
count_up-Rising i zero = tt
count_up-Rising i (suc n) =
    (omega arith, Rising-mono (count_up (i + 1) n) (omega arith) (count_up-Rising (i + 1) n))

-- A pool of idle ports is valid.
idle_pool-IsValid :
    (kind : Kind) (s e : ℕ) → 0 < s → s ≤ e → e ≤ 65535 → IsValid (idle_pool kind s e)
idle_pool-IsValid kind s e h k l = record {
  rising = Rising-mono (count_up s (suc e - s)) h (count_up-Rising s (suc e - s));
  in_range = λ q. ground (arith, elem-count_up q s (suc e - s));
  known = λ q. ground (arith, elem-count_up q s (suc e - s));
  held = λ q. ground arith;
  labelled = λ q. tt;
}

-- What `NewPool` accepts is a valid pool.
pub new_pool-IsValid :
    (kind : Kind) (start end : ℤ) {p : Pool} → new_pool kind start end ≡ ok p → IsValid p
unfolding new_pool
new_pool-IsValid kind start end h =
    ground (arith, idle_pool-IsValid kind (pos_part start) (pos_part end))

pub first_idle-idle :
    (state : ℕ → Option PortStatus) (ps : List ℕ) {q : ℕ}
    → first_idle state ps ≡ some q
    → state q ≡ some idle
unfolding first_idle
first_idle-idle state [] h = cc
first_idle-idle state (p ∷ ps) {q} h = ground (arith, first_idle-idle state ps {q = q})

-- A write of one known port that keeps the status and the allocation in step.
pub write-IsValid :
    (p : Pool) (port : ℕ) (s : PortStatus) (a : Option Allocation)
    → IsValid p
    → is_none (p.state port) ≡ false
    → is_none a ≡ not (is_held (some s))
    → Labelled p.kind port a
    → IsValid (record p { state = put p.state port (some s); alloc = put p.alloc port a })
write-IsValid p port s a v k h l = record {
  rising = v.rising;
  in_range = v.in_range;
  known = λ q. ground (arith, v.known q, v.known port);
  held = λ q. ground (arith, v.held q);
  labelled = λ q. ground (arith, v.labelled q);
}

pub reserve-IsValid :
    (session server client : Text) (now : ℕ) (p : Pool)
    → IsValid p
    → IsValid (reserve session server client now p).0
unfolding reserve
reserve-IsValid session server client now p v = elim (Option-cases (first_idle p.state p.ports)) [
  | inl e ↦ rw e v
  | inr (q, e) ↦ rw e (
      write-IsValid p q reserved (some (reservation p q session server client now)) v
        (ground (arith, first_idle-idle p.state p.ports e)) refl (refl, refl))
]

pub mark_occupied-IsValid :
    (port : ℕ) (session : Text) (p : Pool) → IsValid p → IsValid (mark_occupied port session p).0
unfolding mark_occupied
mark_occupied-IsValid port session p v = ground (
  arith,
  put_same p.alloc port (p.alloc port),
  write-IsValid p port occupied (p.alloc port) v,
  v.held port,
  v.labelled port,
)

pub release-IsValid :
    (port : ℕ) (session : Text) (p : Pool) → IsValid p → IsValid (release port session p).0
unfolding release
release-IsValid port session p v = ground (arith, write-IsValid p port idle none v)

pub block-IsValid :
    (port : ℕ) (reason : Text) (p : Pool) → IsValid p → IsValid (block port reason p).0
unfolding block
block-IsValid port reason p v = ground (arith, write-IsValid p port blocked none v)

touch-IsValid :
    (port : ℕ) (session : Text) (now : ℕ) (p : Pool) (a : Option Allocation)
    → p.alloc port ≡ a
    → p.state port ≡ some reserved
    → IsValid p
    → IsValid (touch port session now p a)
touch-IsValid port session now p none e r v = v
touch-IsValid port session now p (some a) e r v = ground (
  arith,
  put_same p.state port (some reserved),
  write-IsValid p port reserved (some (record a { reserved_at = now })) v,
  v.labelled port,
)

pub touch_reservation-IsValid :
    (port : ℕ) (session : Text) (now : ℕ) (p : Pool)
    → IsValid p
    → IsValid (touch_reservation port session now p)
unfolding touch_reservation
touch_reservation-IsValid port session now p v =
    ground (arith, touch-IsValid port session now p (p.alloc port) refl)

expire_port-IsValid :
    (now max_age port : ℕ) (p : Pool) → IsValid p → IsValid (expire_port now max_age port p).0
unfolding expire_port
expire_port-IsValid now max_age port p v = ground (arith, write-IsValid p port idle none v)

pub release_expired-IsValid :
    (order : List ℕ) (now max_age : ℕ) (p : Pool)
    → IsValid p
    → IsValid (release_expired order now max_age p).0
unfolding release_expired
release_expired-IsValid [] now max_age p v = v
release_expired-IsValid (port ∷ order) now max_age p v =
    release_expired-IsValid order now max_age (expire_port now max_age port p).0
      (expire_port-IsValid now max_age port p v)
