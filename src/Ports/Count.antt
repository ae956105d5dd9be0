-- ===== src/Ports/Count.antt =====
-- v4/ports/pool.go: what `Snapshot` reports.
use relay_x.Prelude.{
  ℕ, ◌+◌, true, false, ◌&&◌, ◌||◌, ◌==◌, ◌≡◌, refl, Option, List, [], ◌∷◌, arith, length,
  length-append,
}
use relay_x.Prelude.Sorting.{elem, length-sort, elem-sort, sort-SortedFrom, SortedFrom, elem-append}
use relay_x.Status.{PortStatus, idle, reserved, occupied, blocked}
use relay_x.Ports.Defs.{
  Pool, Snapshot, is_state, is_none, count_port, count_ports, no_ports, snapshot,
}
use relay_x.Ports.Valid.{IsValid}

abbrev total_count : Snapshot → ℕ
total_count s = s.idle_count + s.reserved_count + s.occupied_count + s.blocked_count

-- The port list of a snapshot that goes with a status, and its count.
abbrev pub listed : PortStatus → Snapshot → List ℕ
listed idle s = s.idle_ports
listed reserved s = s.reserved_ports
listed occupied s = s.occupied_ports
listed blocked s = s.blocked_ports

abbrev pub counted : PortStatus → Snapshot → ℕ
counted idle s = s.idle_count
counted reserved s = s.reserved_count
counted occupied s = s.occupied_count
counted blocked s = s.blocked_count

elem-count_port :
    (k : PortStatus) (o : Option PortStatus) (q port : ℕ) (s : Snapshot)
    → elem q (listed k (count_port o port s)) ≡ (elem q (listed k s) || (port == q && is_state k o))
unfolding count_port elem
elem-count_port k o q port s = ground (arith, elem-append q (listed k s) (port ∷ []))

elem-count_ports :
    (k : PortStatus) (state : ℕ → Option PortStatus) (ps : List ℕ) (q : ℕ) (s : Snapshot)
    → elem q (listed k (count_ports state ps s))
      ≡ (elem q (listed k s) || (elem q ps && is_state k (state q)))
unfolding count_ports elem
elem-count_ports k state [] q s = ground arith
elem-count_ports k state (p ∷ ps) q s = ground (
  arith,
  elem-count_ports k state ps q (count_port (state p) p s),
  elem-count_port k (state p) q p s,
)

length-count_port :
    (k : PortStatus) (o : Option PortStatus) (port : ℕ) (s : Snapshot)
    → length (listed k s) ≡ counted k s
    → length (listed k (count_port o port s)) ≡ counted k (count_port o port s)
unfolding count_port
length-count_port k o port s h = ground (arith, length-append (listed k s) (port ∷ []))

length-count_ports :
    (k : PortStatus) (state : ℕ → Option PortStatus) (ps : List ℕ) (s : Snapshot)
    → length (listed k s) ≡ counted k s
    → length (listed k (count_ports state ps s)) ≡ counted k (count_ports state ps s)
unfolding count_ports
length-count_ports k state [] s h = h
length-count_ports k state (p ∷ ps) s h =
    length-count_ports k state ps (count_port (state p) p s) (length-count_port k (state p) p s h)

total-count_port :
    (o : Option PortStatus) (port : ℕ) (s : Snapshot)
    → is_none o ≡ false
    → total_count (count_port o port s) ≡ total_count s + 1
unfolding count_port
total-count_port o port s h = ground arith

total-count_ports :
    (state : ℕ → Option PortStatus) (ps : List ℕ) (s : Snapshot)
    → ((q : ℕ) → elem q ps ≡ true → is_none (state q) ≡ false)
    → total_count (count_ports state ps s) ≡ total_count s + length ps
unfolding count_ports elem
total-count_ports state [] s h = omega arith
total-count_ports state (p ∷ ps) s h = omega (
  arith,
  total-count_port (state p) p s (h p (ground arith)),
  total-count_ports state ps (count_port (state p) p s) (λ q e. h q (ground arith)),
)

-- The snapshot of a valid pool counts every port once, under its status: the four counts add up to
-- the total, which is the number of ports; and for each status the count is the length of the port
-- list, the list is sorted, and it holds exactly the ports of the pool that have the status.
pub snapshot_lem :
    (p : Pool)
    → IsValid p
    → let s = snapshot p in
      (s.idle_count + s.reserved_count + s.occupied_count + s.blocked_count ≡ s.total)
      × (s.total ≡ length p.ports)
      × ((k : PortStatus) → length (listed k s) ≡ counted k s)
      × ((k : PortStatus) → SortedFrom 0 (listed k s))
      × ((k : PortStatus) (q : ℕ)
          → elem q (listed k s) ≡ (elem q p.ports && is_state k (p.state q)))
unfolding snapshot elem
snapshot_lem p v = (
  omega (
    arith,
    total-count_ports p.state p.ports (no_ports p.kind) (λ q e. ground (arith, v.known q)),
  ),
  refl,
  counts,
  sorted,
  members,
)
  where
    s : Snapshot
    s = count_ports p.state p.ports (no_ports p.kind)

    counts : (k : PortStatus) → length (listed k (snapshot p)) ≡ counted k (snapshot p)
    counts k =
        ground
          (arith, length-sort (listed k s), length-count_ports k p.state p.ports (no_ports p.kind))

    sorted : (k : PortStatus) → SortedFrom 0 (listed k (snapshot p))
    sorted idle = sort-SortedFrom s.idle_ports
    sorted reserved = sort-SortedFrom s.reserved_ports
    sorted occupied = sort-SortedFrom s.occupied_ports
    sorted blocked = sort-SortedFrom s.blocked_ports

    members :
        (k : PortStatus) (q : ℕ)
        → elem q (listed k (snapshot p)) ≡ (elem q p.ports && is_state k (p.state q))
    members k q =
        ground
          (arith, elem-sort q (listed k s), elem-count_ports k p.state p.ports q (no_ports p.kind))
