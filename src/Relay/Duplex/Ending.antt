-- ===== src/Relay/Duplex/Ending.antt =====
-- v4/relay/session.go and manager.go: a session that was silent for too long ends.
use relay_x.Prelude.{
  ℕ, ◌<◌, ◌≤◌, ◌-◌, ◌*◌, ◌≡◌, refl, ap, ◌⊎◌, true, ◌||◌, ◌&&◌, [], ◌∷◌, ltb, arith, if_either,
}
use relay_x.Relay.Pipe.{Round}
use relay_x.Relay.Duplex.{
  Way, fe_to_be, be_to_fe, Duplex, stop_duplex, end_way, run_round, finish, check_heartbeat, second,
}
use relay_x.Relay.Duplex.Safe.{IsValid, stop_duplex-IsValid, end_way-IsValid, finish-IsValid}

-- When a session is stopped, a round of a direction ends its goroutine and does nothing else.
run_round_stopped :
    (way : Way) (r : Round) (s : Duplex) → s.done ≡ true → run_round way r s ≡ end_way way s
unfolding run_round
run_round_stopped fe_to_be r s d =
    if_either (λ t. t ≡ end_way fe_to_be s) s.fe_ended (λ e. ap (λ b. record s { fe_ended = b }) e)
      (λ e.
        if_either (λ t. t ≡ end_way fe_to_be s) (r.ctx_done || s.done) (λ h. refl)
          (λ h. absurd (ground arith)))
run_round_stopped be_to_fe r s d =
    if_either (λ t. t ≡ end_way be_to_fe s) s.be_ended (λ e. ap (λ b. record s { be_ended = b }) e)
      (λ e.
        if_either (λ t. t ≡ end_way be_to_fe s) (r.ctx_done || s.done) (λ h. refl)
          (λ h. absurd (ground arith)))

finish_called :
    (s : Duplex) → s.fe_ended ≡ true → s.be_ended ≡ true → s.called ≤ 1 → (finish s).called ≡ 1
unfolding finish
finish_called s a b n =
    if_either (λ (t : Duplex). t.called ≡ 1) (s.fe_ended && s.be_ended && ltb s.called 1)
      (λ e. ground arith) (λ e. ground arith)

finish_done : (s : Duplex) → s.done ≡ true → (finish s).done ≡ true
unfolding finish stop_duplex
finish_done s d =
    if_either (λ (t : Duplex). t.done ≡ true) (s.fe_ended && s.be_ended && ltb s.called 1)
      (λ e. if_either (λ (t : Duplex). t.done ≡ true) s.done (λ h. h) (λ h. refl)) (λ e. d)

-- The rest of a session that is stopped: whatever a round of each direction does, its end calls the
-- callback.
abbrev pub rest_of : Round → Round → Duplex → Duplex
rest_of q r s = finish (run_round be_to_fe r (run_round fe_to_be q s))

rest_of-IsValid :
    (q r : Round) (s : Duplex)
    → IsValid s
    → s.done ≡ true
    → IsValid (rest_of q r s) × ((rest_of q r s).done ≡ true) × ((rest_of q r s).called ≡ 1)
rest_of-IsValid q r s v d =
    let s1 = end_way fe_to_be s in
    let s2 = end_way be_to_fe s1 in
    let v2 = end_way-IsValid be_to_fe s1 (end_way-IsValid fe_to_be s v) in
    rw (run_round_stopped fe_to_be q s d) (
      rw (run_round_stopped be_to_fe r s1 d)
        (finish-IsValid s2 v2, finish_done s2 d, finish_called s2 refl refl v.once))

stop_duplex-done : (s : Duplex) → (stop_duplex s).done ≡ true
unfolding stop_duplex
stop_duplex-done s = if_either (λ (t : Duplex). t.done ≡ true) s.done (λ h. h) (λ h. refl)

check_heartbeat_done :
    (now : ℕ) (s : Duplex)
    → (6 * second < now - s.fe_flow.last_read) ⊎ (6 * second < now - s.be_flow.last_read)
    → check_heartbeat now s ≡ stop_duplex s
unfolding check_heartbeat
check_heartbeat_done now s h =
    if_either (λ t. t ≡ stop_duplex s)
      (ltb (6 * second) (now - s.fe_flow.last_read) || ltb (6 * second) (now - s.be_flow.last_read))
      (λ e. refl) (λ e. absurd (ground arith))

-- A session as the steps leave it, from one of whose ends nothing was read for more than six seconds, when
-- its heartbeats are checked: after one more round of each direction, whatever the connections do in it, the
-- end of the session has closed both connections, each once, and its callback was called, once.
pub check_heartbeat_ends :
    (now : ℕ) (q r : Round) (s : Duplex)
    → IsValid s
    → (6 * second < now - s.fe_flow.last_read) ⊎ (6 * second < now - s.be_flow.last_read)
    → let t = rest_of q r (check_heartbeat now s) in (t.closed ≡ t.be ∷ t.fe ∷ []) × (t.called ≡ 1)
check_heartbeat_ends now q r s v h =
    let (k, d, c) =
      rest_of-IsValid q r (stop_duplex s) (stop_duplex-IsValid s v) (stop_duplex-done s) in
    rw (check_heartbeat_done now s h) (k.shut d, c)
