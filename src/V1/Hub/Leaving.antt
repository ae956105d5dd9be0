-- ===== src/V1/Hub/Leaving.antt =====
-- v1/control/hub.go: what is left of a back end when its connection ends.
use relay_x.Prelude.{
  ℕ, ◌≡◌, refl, sym, ap, ◌∙◌, true, false, inl, inr, some, List, [], ◌∷◌, Text, arith, Bool-cases,
  ◌==◌, ==_iff,
}
use relay_x.Prelude.Assoc.{lookup, text_key}
use relay_x.Prelude.Sorting.{elem}
use relay_x.Leases.{present}
use relay_x.Slots.{Role, be}
use relay_x.Central.{without}
use relay_x.V1.Leases.{Reservation}
use relay_x.V1.Leases.Valid as Maps
use relay_x.V1.Leases.Owner.{release_all_for_owner_left}
use relay_x.V1.Reaper.{Reaper, schedule_one, schedule_kill}
use relay_x.V1.Hub.{World, Hub, timed, leases_ended, unregister, close_client}

elem-without_same : (c : ℕ) (l : List ℕ) → elem c (without c l) ≡ false
unfolding elem
elem-without_same c [] = refl
elem-without_same c (d ∷ l) = ground (arith, elem-without_same c l, ==_iff d c, ==_iff c d)

-- A kill that is scheduled stays so, and one more is.
schedule_one_kept :
    (port timer q : ℕ) (t : Reaper)
    → present (t.pending_kills q) ≡ true
    → present ((schedule_one port timer t).pending_kills q) ≡ true
unfolding schedule_one
schedule_one_kept port timer q t h = ground (arith)

schedule_one_new :
    (port timer : ℕ) (t : Reaper) → present ((schedule_one port timer t).pending_kills port) ≡ true
unfolding schedule_one
schedule_one_new port timer t = ground (arith, ==_iff port port)

schedule_kill_kept :
    (ports : List (ℕ × ℕ)) (q : ℕ) (t : Reaper)
    → present (t.pending_kills q) ≡ true
    → present ((schedule_kill ports t).pending_kills q) ≡ true
unfolding schedule_kill
schedule_kill_kept [] q t h = h
schedule_kill_kept ((port, timer) ∷ ports) q t h =
    schedule_kill_kept ports q (schedule_one port timer t) (schedule_one_kept port timer q t h)

scheduled :
    (w : World) (ports : List ℕ) (q : ℕ) (t : Reaper)
    → elem q ports ≡ true
    → present ((schedule_kill (timed w ports) t).pending_kills q) ≡ true
unfolding schedule_kill elem
scheduled w [] q t h = cc
scheduled w (port ∷ ports) q t h = elim (Bool-cases (port == q)) [
  | inl e ↦
      let same : port ≡ q = (==_iff port q).0 e in
      schedule_kill_kept (timed w ports) q (schedule_one port (w.timer port) t) (
        ap (λ p. present ((schedule_one port (w.timer port) t).pending_kills p)) (sym same)
        ∙ schedule_one_new port (w.timer port) t)
  | inr e ↦
      scheduled w ports q (schedule_one port (w.timer port) t)
        (ground (arith, ==_iff q port, ==_iff port q))
]

elem-head : (c : ℕ) (l : List ℕ) → elem c (c ∷ l) ≡ true
unfolding elem
elem-head c l = ground (arith, ==_iff c c)

closed_again :
    (u : World) (c : ℕ) (r : Role) (s : Hub) → elem c s.closed ≡ true → close_client u c r s ≡ s
unfolding close_client
closed_again u c r s h = rw h refl

abbrev left_of : World → ℕ → Hub → Hub
left_of w c s = leases_ended c (record s {
  be_clients = without c s.be_clients;
  closed = c ∷ s.closed;
  reaper = schedule_kill (timed w (s.allocated c)) s.reaper;
})

be_left :
    (w : World) (c : ℕ) (s : Hub)
    → elem c s.closed ≡ false
    → elem c s.be_clients ≡ true
    → close_client w c be s ≡ left_of w c s
unfolding close_client unregister
be_left w c s n m = rw n (rw m refl)

-- When the connection ends of a back end that the hub has and that is not closed yet, where the maps of the
-- leases agree: the hub has it no more; the leases that are left were there before and are others'; for
-- every port that it had set up a kill is pending; and another call of `Close`, whoever makes it, changes
-- nothing.
pub close_client_lem :
    (w : World) (c : ℕ) (s : Hub)
    → Maps.IsValid s.leases
    → elem c s.closed ≡ false
    → elem c s.be_clients ≡ true
    → let left = close_client w c be s in
      (elem c left.be_clients ≡ false)
      × ((sid : Text) (r : Reservation)
          → lookup sid left.leases.by_session ≡ some r
          → (lookup sid s.leases.by_session ≡ some r) × ((r.owner == c) ≡ false))
      × ((port : ℕ)
          → elem port (s.allocated c) ≡ true
          → present (left.reaper.pending_kills port) ≡ true)
      × ((u : World) (r : Role) → close_client u c r left ≡ left)
close_client_lem w c s v n m = rw (be_left w c s n m) (
  elem-without_same c s.be_clients,
  λ sid r h. release_all_for_owner_left c s.leases sid r v h,
  λ port h. scheduled w (s.allocated c) port s.reaper h,
  λ u r. closed_again u c r (left_of w c s) (elem-head c s.closed),
)
