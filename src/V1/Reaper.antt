-- ===== src/V1/Reaper.antt =====
-- v1/control/reaper.go: the ports that are stopped some time after their back end has left, over
-- V1.Relay. A timer is a number. An expired timer calls `executeKill` in a goroutine of its own, which
-- takes two locks one after the other; so a kill is first running, then fired, then begun.
use relay_x.Prelude.{
  ℕ, ◌≡◌, refl, ap, ◌∙◌, true, Option, none, some, List, [], ◌∷◌, Map, put, arith, ◌==◌, ==_iff,
  if◌then◌else◌, fun_ext,
}
use relay_x.Leases.{present}
use relay_x.V1.Relay.{RelayServer, stop_port, logged, get_session}

pub record Reaper : Type 0 where
  pub pending_kills : Map ℕ
  pub running : List (ℕ × ℕ)
  pub fired : List (ℕ × ℕ)
  pub begun : List ℕ
  pub relay : RelayServer

-- A session, if there is one, is stopped.
abbrev pub stop_session : ℕ → RelayServer → RelayServer
stop_session port s = record s { stopped = logged (get_session port s) s.stopped }

-- A round of the loop of `ScheduleKill`, with its new timer.
unfoldable pub schedule_one : ℕ → ℕ → Reaper → Reaper
unfolding get_session
schedule_one port timer s = if present (s.pending_kills port) then s else record s {
  pending_kills = put s.pending_kills port (some timer);
  running = (timer, port) ∷ s.running;
  relay = stop_session port s.relay;
}

unfoldable pub schedule_kill : List (ℕ × ℕ) → Reaper → Reaper
unfolding schedule_one
schedule_kill [] s = s
schedule_kill ((port, timer) ∷ ports) s = schedule_kill ports (schedule_one port timer s)

-- `timer.Stop`: a timer that has expired is not among those that run.
abbrev pub without_timer : ℕ → List (ℕ × ℕ) → List (ℕ × ℕ)
without_timer timer [] = []
without_timer timer ((t, port) ∷ l) =
    let rest = without_timer timer l in if t == timer then rest else (t, port) ∷ rest

abbrev pub cancel_found : Option ℕ → ℕ → Reaper → Reaper
cancel_found none port s = s
cancel_found (some timer) port s = record s {
  pending_kills = put s.pending_kills port none;
  running = without_timer timer s.running;
}

-- `CancelKill`
unfoldable pub cancel_kill : List ℕ → Reaper → Reaper
cancel_kill [] s = s
cancel_kill (port ∷ ports) s = cancel_kill ports (cancel_found (s.pending_kills port) port s)

abbrev pub ports_with : ℕ → List (ℕ × ℕ) → List (ℕ × ℕ)
ports_with timer [] = []
ports_with timer ((t, port) ∷ l) =
    let rest = ports_with timer l in if t == timer then (t, port) ∷ rest else rest

abbrev pub joined : List (ℕ × ℕ) → List (ℕ × ℕ) → List (ℕ × ℕ)
joined [] m = m
joined (x ∷ l) m = x ∷ joined l m

-- A timer expires.
unfoldable pub expire : ℕ → Reaper → Reaper
expire timer s = record s {
  running = without_timer timer s.running;
  fired = joined (ports_with timer s.running) s.fired;
}

abbrev pub begin_next : List (ℕ × ℕ) → Reaper → Reaper
begin_next [] s = s
begin_next ((timer, port) ∷ rest) s = record s {
  fired = rest;
  pending_kills = put s.pending_kills port none;
  begun = port ∷ s.begun;
}

-- The first lock of `executeKill`, of the latest timer that fired.
unfoldable pub begin_kill : Reaper → Reaper
begin_kill s = begin_next s.fired s

abbrev pub end_next : List ℕ → Reaper → Reaper
end_next [] s = s
end_next (port ∷ rest) s = record s { begun = rest; relay = stop_port port s.relay }

-- Its call of `StopPort`.
unfoldable pub end_kill : Reaper → Reaper
unfolding stop_port
end_kill s = end_next s.begun s

module _ (port timer : ℕ) (s : Reaper) where
  self : (port == port) ≡ true
  self = ground (arith, ==_iff port port)

  same_timer : (timer == timer) ≡ true
  same_timer = ground (arith, ==_iff timer timer)

  scheduled_lem :
      s.pending_kills port ≡ none
      → schedule_kill ((port, timer) ∷ []) s ≡ record s {
        pending_kills = put s.pending_kills port (some timer);
        running = (timer, port) ∷ s.running;
        relay = stop_session port s.relay;
      }
  unfolding schedule_kill schedule_one
  scheduled_lem h = rw h refl

  put_back :
      s.pending_kills port ≡ none
      → put (put s.pending_kills port (some timer)) port none ≡ s.pending_kills
  put_back h = fun_ext (λ j. ground (arith, ==_iff port j))

  -- A kill of a port that has none, with a new timer, that is cancelled before its timer expires leaves
  -- nothing of the schedule behind, but for the session, which was stopped at once.
  pub cancel_kill-schedule_kill :
      s.pending_kills port ≡ none
      → without_timer timer s.running ≡ s.running
      → cancel_kill (port ∷ []) (schedule_kill ((port, timer) ∷ []) s)
        ≡ record s { relay = stop_session port s.relay }
  unfolding cancel_kill
  cancel_kill-schedule_kill h n = rw (scheduled_lem h) (
      rw self (
        rw same_timer (
          ap
            (λ p. record s {
              pending_kills = p;
              running = without_timer timer s.running;
              relay = stop_session port s.relay;
            })
            (put_back h)
          ∙ ap (λ r. record s { running = r; relay = stop_session port s.relay }) n)))

  -- A kill is scheduled for a port that has none, with a new timer, and cancelled after its timer has expired
  -- but before `executeKill` has its lock: it is carried out all the same, so that the port, which the back end
  -- has back, is stopped.
  pub late_cancel :
      s.pending_kills port ≡ none
      → without_timer timer s.running ≡ s.running
      → let cancelled =
          cancel_kill (port ∷ []) (expire timer (schedule_kill ((port, timer) ∷ []) s)) in
        (cancelled.pending_kills port ≡ none)
        × (cancelled.running ≡ s.running)
        × ((end_kill (begin_kill cancelled)).relay ≡ stop_port port (stop_session port s.relay))
  unfolding cancel_kill expire begin_kill end_kill
  late_cancel h n =
      rw (scheduled_lem h)
        (rw self (rw same_timer (rw self refl, ap (without_timer timer) n ∙ n, refl)))
