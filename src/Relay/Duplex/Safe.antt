-- ===== src/Relay/Duplex/Safe.antt =====
-- v4/relay/session.go: what holds of a session however its goroutines, the heartbeat check and the calls of
-- `Stop` interleave.
use relay_x.Prelude.{
  ℕ, ◌≤◌, ◌+◌, ◌*◌, ◌≡◌, refl, ◌∙◌, Bool, true, false, ◌||◌, ◌&&◌, [], ◌∷◌, ltb, arith, if_both,
  if_either,
}
use relay_x.Relay.Pipe.{Round, Flow, pipe}
use relay_x.Relay.Flows.{IsHonest, IsFaithful, pipe-IsFaithful, pipe-new_flow}
use relay_x.Relay.Duplex.{
  Way, fe_to_be, be_to_fe, Duplex, new_duplex, stop_duplex, with_flow, end_way, after_round,
  run_round, finish, check_heartbeat, last_read_ages, second,
}

-- A direction is faithful, and while its goroutine runs it has delivered what it read.
pub record IsValidWay (f : Flow) (ended : Bool) : Type 0 where
  pub faithful : IsFaithful f
  pub running : ended ≡ false → f.stopped ≡ false

-- Both directions; the connections are open, or both were closed, once, by `Stop`; and the callback was
-- called at most once, and not before the session stopped and both goroutines ended.
pub record IsValid (s : Duplex) : Type 0 where
  pub fe_way : IsValidWay s.fe_flow s.fe_ended
  pub be_way : IsValidWay s.be_flow s.be_ended
  pub opened : s.done ≡ false → s.closed ≡ []
  pub shut : s.done ≡ true → s.closed ≡ s.be ∷ s.fe ∷ []
  pub once : s.called ≤ 1
  pub last : s.called ≡ 1 → (s.done ≡ true) × (s.fe_ended ≡ true) × (s.be_ended ≡ true)

pub stop_duplex-IsValid : (s : Duplex) → IsValid s → IsValid (stop_duplex s)
unfolding stop_duplex
stop_duplex-IsValid s v =
    if_either IsValid s.done (λ e. v)
      (λ e. record {
        fe_way = v.fe_way;
        be_way = v.be_way;
        opened = λ h. cc;
        shut = λ h. rw (v.opened e) refl;
        once = v.once;
        last = λ h. (refl, (v.last h).1, (v.last h).2);
      })

pub end_way-IsValid : (way : Way) (s : Duplex) → IsValid s → IsValid (end_way way s)
end_way-IsValid fe_to_be s v = record {
  fe_way = record { faithful = v.fe_way.faithful; running = λ h. cc };
  be_way = v.be_way;
  opened = v.opened;
  shut = v.shut;
  once = v.once;
  last = λ h. ((v.last h).0, refl, (v.last h).2);
}
end_way-IsValid be_to_fe s v = record {
  fe_way = v.fe_way;
  be_way = record { faithful = v.be_way.faithful; running = λ h. cc };
  opened = v.opened;
  shut = v.shut;
  once = v.once;
  last = λ h. ((v.last h).0, (v.last h).1, refl);
}

-- What a round does to the flow of its direction.
one_round :
    (r : Round) (f : Flow) (ended : Bool)
    → IsHonest r
    → ended ≡ false
    → IsValidWay f ended
    → IsFaithful (pipe (r ∷ []) f)
one_round r f ended h e v =
    pipe-IsFaithful (r ∷ []) f (h, tt)
      (record { faithful = v.faithful; even = v.faithful.complete (v.running e) })

fe_moved :
    (f : Flow) (s : Duplex)
    → IsFaithful f
    → f.stopped ≡ false
    → IsValid s
    → IsValid (with_flow fe_to_be f s)
fe_moved f s w n v = record {
  fe_way = record { faithful = w; running = λ h. n };
  be_way = v.be_way;
  opened = v.opened;
  shut = v.shut;
  once = v.once;
  last = v.last;
}

be_moved :
    (f : Flow) (s : Duplex)
    → IsFaithful f
    → f.stopped ≡ false
    → IsValid s
    → IsValid (with_flow be_to_fe f s)
be_moved f s w n v = record {
  fe_way = v.fe_way;
  be_way = record { faithful = w; running = λ h. n };
  opened = v.opened;
  shut = v.shut;
  once = v.once;
  last = v.last;
}

ended_moved :
    (way : Way) (f : Flow) (s : Duplex)
    → IsFaithful f
    → IsValid s
    → IsValid (end_way way (with_flow way f s))
ended_moved fe_to_be f s w v = record {
  fe_way = record { faithful = w; running = λ h. cc };
  be_way = v.be_way;
  opened = v.opened;
  shut = v.shut;
  once = v.once;
  last = λ h. ((v.last h).0, refl, (v.last h).2);
}
ended_moved be_to_fe f s w v = record {
  fe_way = v.fe_way;
  be_way = record { faithful = w; running = λ h. cc };
  opened = v.opened;
  shut = v.shut;
  once = v.once;
  last = λ h. ((v.last h).0, (v.last h).1, refl);
}

after_round-IsValid :
    (way : Way) (f : Flow) (s : Duplex)
    → IsFaithful f
    → (f.stopped ≡ false → IsValid (with_flow way f s))
    → IsValid s
    → IsValid (after_round way f s)
after_round-IsValid way f s w k v =
    if_either IsValid f.stopped
      (λ e. stop_duplex-IsValid (end_way way (with_flow way f s)) (ended_moved way f s w v)) k

pub run_round-IsValid :
    (way : Way) (r : Round) (s : Duplex) → IsHonest r → IsValid s → IsValid (run_round way r s)
unfolding run_round
run_round-IsValid fe_to_be r s h v =
    if_either IsValid s.fe_ended (λ e. v)
      (λ e.
        let q = record r { done = s.done } in
        let w =
          one_round q s.fe_flow s.fe_ended (record { bounded = h.bounded; whole = h.whole }) e
            v.fe_way in
        if_both IsValid (r.ctx_done || s.done) (end_way-IsValid fe_to_be s v) (
          after_round-IsValid fe_to_be (pipe (q ∷ []) s.fe_flow) s w
            (λ n. fe_moved (pipe (q ∷ []) s.fe_flow) s w n v) v))
run_round-IsValid be_to_fe r s h v =
    if_either IsValid s.be_ended (λ e. v)
      (λ e.
        let q = record r { done = s.done } in
        let w =
          one_round q s.be_flow s.be_ended (record { bounded = h.bounded; whole = h.whole }) e
            v.be_way in
        if_both IsValid (r.ctx_done || s.done) (end_way-IsValid be_to_fe s v) (
          after_round-IsValid be_to_fe (pipe (q ∷ []) s.be_flow) s w
            (λ n. be_moved (pipe (q ∷ []) s.be_flow) s w n v) v))

-- What `Stop` leaves of a session.
stop_duplex_done :
    (s : Duplex)
    → ((stop_duplex s).done ≡ true)
      × ((stop_duplex s).fe_ended ≡ s.fe_ended)
      × ((stop_duplex s).be_ended ≡ s.be_ended)
unfolding stop_duplex
stop_duplex_done s =
    if_either
      (λ (t : Duplex). (t.done ≡ true) × (t.fe_ended ≡ s.fe_ended) × (t.be_ended ≡ s.be_ended))
      s.done (λ e. (e, refl, refl)) (λ e. (refl, refl, refl))

called-IsValid :
    (s t : Duplex)
    → s.fe_ended ≡ true
    → s.be_ended ≡ true
    → s.called ≡ 0
    → (t.done ≡ true) × (t.fe_ended ≡ s.fe_ended) × (t.be_ended ≡ s.be_ended)
    → IsValid t
    → IsValid (record t { called = s.called + 1 })
called-IsValid s t a b c (d, e, f) v = record {
  fe_way = v.fe_way;
  be_way = v.be_way;
  opened = v.opened;
  shut = v.shut;
  once = omega arith;
  last = λ h. (d, e ∙ a, f ∙ b);
}

pub finish-IsValid : (s : Duplex) → IsValid s → IsValid (finish s)
unfolding finish
finish-IsValid s v =
    if_either IsValid (s.fe_ended && s.be_ended && ltb s.called 1)
      (λ e.
        called-IsValid s (stop_duplex s) (ground arith) (ground arith) (ground arith)
          (stop_duplex_done s) (stop_duplex-IsValid s v))
      (λ e. v)

pub check_heartbeat-IsValid : (now : ℕ) (s : Duplex) → IsValid s → IsValid (check_heartbeat now s)
unfolding check_heartbeat
check_heartbeat-IsValid now s v =
    let (fe_age, be_age) = last_read_ages now s in
    if_both IsValid (ltb (6 * second) fe_age || ltb (6 * second) be_age) (stop_duplex-IsValid s v) v

-- What happens to a session: a round of a direction, in which `Write` keeps the contract of `io.Writer`; a
-- call of `Stop`; the end of `Start`; or a check of its heartbeats.
pub data Step (s t : Duplex) : Type 0 where
  running : (way : Way) (r : Round) → IsHonest r → t ≡ run_round way r s → Step s t
  stopping : t ≡ stop_duplex s → Step s t
  finishing : t ≡ finish s → Step s t
  checking : (now : ℕ) → t ≡ check_heartbeat now s → Step s t

pub data Reach : Duplex → Type 0 where
  start : (fe be now : ℕ) → Reach (new_duplex fe be now)
  next : {s t : Duplex} → Reach s → Step s t → Reach t

Step-IsValid : {s t : Duplex} → Step s t → IsValid s → IsValid t
Step-IsValid {s} (running way r h e) v = rw e (run_round-IsValid way r s h v)
Step-IsValid {s} (stopping e) v = rw e (stop_duplex-IsValid s v)
Step-IsValid {s} (finishing e) v = rw e (finish-IsValid s v)
Step-IsValid {s} (checking now e) v = rw e (check_heartbeat-IsValid now s v)

-- However the two directions of a new session, calls of `Stop`, checks of its heartbeats and its end
-- interleave: each direction delivers what it reads in order, all of it until it stops; both connections
-- are closed exactly when the session is stopped, each once; and the callback is called at most once, and
-- only after the session stopped and both goroutines ended. In every round `Write` keeps its contract.
pub Reach-Duplex : {s : Duplex} → Reach s → IsValid s
unfolding new_duplex pipe
Reach-Duplex (start fe be now) = record {
  fe_way = record { faithful = pipe-new_flow [] now tt; running = λ h. refl };
  be_way = record { faithful = pipe-new_flow [] now tt; running = λ h. refl };
  opened = λ h. refl;
  shut = λ h. cc;
  once = omega arith;
  last = λ h. absurd (omega arith);
}
Reach-Duplex (next r step) = Step-IsValid step (Reach-Duplex r)
