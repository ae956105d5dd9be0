-- ===== src/Ports/Tests.antt =====
-- Runs of a pool of three ports, and the pool's theorems at them.
use relay_x.Prelude.{ℕ, ◌≡◌, refl, some, List, [], ◌∷◌, codes, arith, text_eq}
use relay_x.Prelude.Int.{pos}
use relay_x.Prelude.Sorting.{elem}
use relay_x.Errors.{ok}
use relay_x.Status.{occupied}
use relay_x.Ports.Defs.{
  Pool, Allocation, zmq, idle_pool, new_pool, reserve, mark_occupied, release_expired, snapshot,
  reservation,
}
use relay_x.Ports.Valid.{IsValid, new_pool-IsValid}
use relay_x.Ports.Lifecycle.{
  Op, reserving, occupying, expiring, step, run, run-new_pool, Move, step-Move,
}
use relay_x.Ports.Reserve.{Reserves, reserve_lem}
use relay_x.Ports.Expire.{reports, release_expired_lem}

abbrev three : Pool
three = idle_pool zmq 2300 2302

three_made : new_pool zmq (pos 2300) (pos 2302) ≡ ok three
unfolding new_pool
three_made = refl

three-IsValid : IsValid three
three-IsValid = new_pool-IsValid zmq (pos 2300) (pos 2302) three_made

-- A reservation at time 10, by session "s".
abbrev held : Pool
held = (reserve (codes "s") (codes "be") (codes "fe") 10 three).0

abbrev first : Allocation
first = reservation three 2300 (codes "s") (codes "be") (codes "fe") 10

reserve_first : reserve (codes "s") (codes "be") (codes "fe") 10 three ≡ (held, ok first)
unfolding reserve new_pool
reserve_first = refl

abbrev calls : List Op
calls =
    reserving (codes "s") (codes "be") (codes "fe") 10
    ∷ occupying 2300 (codes "s")
    ∷ reserving (codes "t") (codes "be") (codes "fe") 20
    ∷ expiring (2301 ∷ 2300 ∷ 2302 ∷ []) 90 50
    ∷ []

calls_leave_one : (run calls three).state 2300 ≡ some occupied
unfolding run step reserve mark_occupied release_expired new_pool text_eq
calls_leave_one = refl

run-new_pool_example : IsValid (run calls three)
run-new_pool_example = run-new_pool zmq (pos 2300) (pos 2302) calls three_made

held-IsValid : IsValid held
unfolding step run
held-IsValid =
    run-new_pool zmq (pos 2300) (pos 2302) (reserving (codes "s") (codes "be") (codes "fe") 10 ∷ [])
      three_made

reserve_lem_example :
    Reserves three
      (codes "s")
      (codes "be")
      (codes "fe")
      10
      (reserve (codes "s") (codes "be") (codes "fe") 10 three)
reserve_lem_example = reserve_lem (codes "s") (codes "be") (codes "fe") 10 three three-IsValid

abbrev visits : List ℕ
visits = 2301 ∷ 2302 ∷ 2300 ∷ []

visits_all : (q : ℕ) → elem q visits ≡ elem q held.ports
unfolding elem reserve new_pool
visits_all q = ground arith

release_expired_lem_example : (release_expired visits 90 50 held).1 ≡ reports visits 90 50 held
unfolding elem
release_expired_lem_example =
    (release_expired_lem visits 90 50 held held-IsValid (refl, (refl, (refl, tt))) visits_all).2

-- The reservation of time 10 is older than 50 at time 90.
reports_first : reports visits 90 50 held ≡ first ∷ []
unfolding reserve new_pool
reports_first = refl

snapshot_held : ((snapshot held).idle_count ≡ 2) × ((snapshot held).reserved_ports ≡ 2300 ∷ [])
unfolding snapshot reserve new_pool
snapshot_held = (refl, refl)

step-Move_example : Move (held.state 2300) ((step (occupying 2300 (codes "s")) held).state 2300)
step-Move_example = step-Move (occupying 2300 (codes "s")) held 2300
