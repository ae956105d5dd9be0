-- ===== src/Central/Ranges.antt =====
-- v3/control/port_manager.go: the ports of the ranges that a client may set.
use relay_x.Prelude.{
  ℕ, zero, suc, ◌+◌, ◌-◌, ◌<◌, ◌≡◌, refl, sym, ◌∙◌, Bool, ◌&&◌, ◌||◌, List, [], ◌∷◌, ◌++◌, arith,
  leb, ltb, ◌==◌, ==_iff, if◌then◌else◌, Bool-cases, inl, inr,
}
use relay_x.Prelude.Int.{ℤ, pos, negsuc, pos_part, leb_ℤ, ltb_ℤ}
use relay_x.Prelude.Sorting.{sort, elem, elem-sort, elem-append, SortedFrom, sort-SortedFrom}
use relay_x.Leases.{PortManager}

pub record PortAlloc : Type 0 where
  pub zmq_start_port : ℤ
  pub zmq_end_port : ℤ
  pub srt_start_port : ℤ
  pub srt_end_port : ℤ

unfoldable pub ports_from : ℕ → ℕ → List ℕ
ports_from p zero = []
ports_from p (suc n) = p ∷ ports_from (suc p) n

-- `addRange`: what it appends.
unfoldable pub add_range : ℤ → ℤ → List ℕ
unfolding ports_from
add_range start end =
    if leb_ℤ start (pos 0) || leb_ℤ end (pos 0) || ltb_ℤ end start
    then []
    else ports_from (pos_part start) (suc (pos_part end) - pos_part start)

abbrev pub dedup_from : ℕ → List ℕ → List ℕ
dedup_from last [] = []
dedup_from last (x ∷ xs) = let rest = dedup_from x xs in if x == last then rest else x ∷ rest

abbrev dedup : List ℕ → List ℕ
dedup [] = []
dedup (x ∷ xs) = x ∷ dedup_from x xs

unfoldable pub dedup_ints : List ℕ → List ℕ
unfolding sort
dedup_ints xs = dedup (sort xs)

unfoldable pub union_ports_from_ranges : PortAlloc → List ℕ
unfolding add_range dedup_ints
union_ports_from_ranges p =
    dedup_ints
      (add_range p.zmq_start_port p.zmq_end_port ++ add_range p.srt_start_port p.srt_end_port)

-- The ports of a request, or those of the configuration if it has none.
abbrev pub or_configured : List ℕ → PortAlloc → List ℕ
or_configured [] config = union_ports_from_ranges config
or_configured (p ∷ ps) config = p ∷ ps

abbrev pub ports_of : PortAlloc → PortAlloc → List ℕ
ports_of config p = or_configured (union_ports_from_ranges p) config

-- `SetRanges`
unfoldable pub set_ranges : PortAlloc → PortAlloc → PortManager → PortManager
unfolding union_ports_from_ranges sort
set_ranges config p pm = record pm { ports = sort (ports_of config p) }

-- Each element is greater than the one before it.
abbrev pub IsStrict : List ℕ → Type 0
IsStrict [] = Unit {0}
IsStrict (x ∷ []) = Unit {0}
IsStrict (x ∷ y ∷ ys) = (x < y) × IsStrict (y ∷ ys)

abbrev pub in_range : ℤ → ℤ → ℕ → Bool
in_range start end q = ltb_ℤ (pos 0) start && leb_ℤ start (pos q) && leb_ℤ (pos q) end

elem-ports_from : (p n q : ℕ) → elem q (ports_from p n) ≡ (leb p q && ltb q (p + n))
unfolding elem ports_from
elem-ports_from p zero q = ground arith
elem-ports_from p (suc n) q = ground (arith, elem-ports_from (suc p) n q, ==_iff p q)

elem-add_range : (s e : ℤ) (q : ℕ) → elem q (add_range s e) ≡ in_range s e q
unfolding add_range elem
elem-add_range (pos s) (pos e) q = ground (arith, elem-ports_from s (suc e - s) q)
elem-add_range (pos s) (negsuc e) q = ground arith
elem-add_range (negsuc s) (pos e) q = ground arith
elem-add_range (negsuc s) (negsuc e) q = ground arith

elem-dedup_from :
    (q last : ℕ) (xs : List ℕ)
    → (last == q || elem q (dedup_from last xs)) ≡ (last == q || elem q xs)
unfolding elem
elem-dedup_from q last [] = refl
elem-dedup_from q last (x ∷ xs) =
    ground (arith, elem-dedup_from q x xs, ==_iff x last, ==_iff x q, ==_iff last q)

elem-dedup_ints : (q : ℕ) (xs : List ℕ) → elem q (dedup_ints xs) ≡ elem q xs
unfolding dedup_ints elem
elem-dedup_ints q xs = go (sort xs) ∙ elem-sort q xs
  where
    go : (ys : List ℕ) → elem q (dedup ys) ≡ elem q ys
    go [] = refl
    go (y ∷ ys) = elem-dedup_from q y ys

dedup_from-IsStrict :
    (last : ℕ) (xs : List ℕ) → SortedFrom last xs → IsStrict (last ∷ dedup_from last xs)
dedup_from-IsStrict last [] h = tt
dedup_from-IsStrict last (x ∷ xs) (h, t) = elim (Bool-cases (x == last)) [
  | inl e ↦
      let same : x ≡ last = ground (arith, ==_iff x last) in
      rw e (rw (sym same) (dedup_from-IsStrict x xs t))
  | inr e ↦ rw e (ground (arith, ==_iff x last), dedup_from-IsStrict x xs t)
]

dedup_ints-IsStrict : (xs : List ℕ) → IsStrict (dedup_ints xs)
unfolding dedup_ints
dedup_ints-IsStrict xs = go (sort xs) (sort-SortedFrom xs)
  where
    go : (ys : List ℕ) → SortedFrom 0 ys → IsStrict (dedup ys)
    go [] h = tt
    go (y ∷ ys) (h, t) = dedup_from-IsStrict y ys t

-- The ports of a request are exactly the positive ones in its two ranges, each listed once, in order.
pub union_ports_from_ranges_lem :
    (p : PortAlloc)
    → IsStrict (union_ports_from_ranges p)
      × ((q : ℕ)
          → elem q (union_ports_from_ranges p) ≡ (
              in_range p.zmq_start_port p.zmq_end_port q
              || in_range p.srt_start_port p.srt_end_port q))
unfolding union_ports_from_ranges
union_ports_from_ranges_lem p =
    let z = add_range p.zmq_start_port p.zmq_end_port in
    let s = add_range p.srt_start_port p.srt_end_port in
    (
      dedup_ints-IsStrict (z ++ s),
      λ q.
          elem-dedup_ints q (z ++ s)
          ∙ elem-append q z s
          ∙ ground (
            arith,
            elem-add_range p.zmq_start_port p.zmq_end_port q,
            elem-add_range p.srt_start_port p.srt_end_port q,
          ),
    )
