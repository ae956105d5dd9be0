-- ===== src/Relay/Duplex/Tests.antt =====
-- A session whose front end sends two bytes, of which its back end takes one; and one that is silent.
use relay_x.Prelude.{◌≡◌, ◌<◌, ◌-◌, ◌*◌, refl, inl, true, false, [], ◌∷◌, arith}
use relay_x.Relay.Pipe.{Round, no_error, pipe}
use relay_x.Relay.Flows.{IsHonest}
use relay_x.Relay.Duplex.{
  fe_to_be, be_to_fe, Duplex, new_duplex, stop_duplex, run_round, finish, check_heartbeat, second,
}
use relay_x.Relay.Duplex.Safe as Safe
use relay_x.Relay.Duplex.Safe.{Reach, start, next, running, finishing, Reach-Duplex}
use relay_x.Relay.Duplex.Ending.{rest_of, check_heartbeat_ends}

abbrev round : Round
round = record {
  ctx_done = false;
  done = false;
  data_read = 1 ∷ 2 ∷ [];
  read_error = no_error;
  now = 3;
  taken = 1;
  write_failed = true;
}

round-IsHonest : IsHonest round
round-IsHonest = record { bounded = omega arith; whole = λ h. cc }

abbrev ended : Duplex
ended = finish (run_round be_to_fe round (run_round fe_to_be round (new_duplex 8 9 0)))

ended_called : (ended.called ≡ 1) × (ended.closed ≡ 9 ∷ 8 ∷ [])
unfolding finish run_round new_duplex stop_duplex pipe
ended_called = (refl, refl)

Reach-Duplex_example : Safe.IsValid ended
Reach-Duplex_example = Reach-Duplex (
    next
      (next (next (start 8 9 0) (running fe_to_be round round-IsHonest refl))
        (running be_to_fe round round-IsHonest refl))
      (finishing refl))

silent : 6 * second < 7 * second - (new_duplex 8 9 0).fe_flow.last_read
unfolding new_duplex
silent = omega arith

check_heartbeat_ends_example :
    let t = rest_of round round (check_heartbeat (7 * second) (new_duplex 8 9 0)) in
    (t.closed ≡ t.be ∷ t.fe ∷ []) × (t.called ≡ 1)
check_heartbeat_ends_example =
    check_heartbeat_ends (7 * second) round round (new_duplex 8 9 0) (Reach-Duplex (start 8 9 0))
      (inl silent)
