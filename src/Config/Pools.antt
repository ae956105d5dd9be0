-- ===== src/Config/Pools.antt =====
-- v4/config/parse.go and loader.go: what an accepted configuration promises to the port pools.
use relay_x.Prelude.{
  ℕ, suc, ◌-◌, ◌&&◌, ◌≡◌, refl, List, [], ◌∷◌, Option, none, some, Bool, ◌||◌, ◌++◌, if◌then◌else◌,
  false, Text, codes, trim_space, arith, Bool-cases, inl, inr, true,
}
use relay_x.Prelude.Int.{ℤ, pos, negsuc, leb_ℤ, ltb_ℤ, integer}
use relay_x.Errors.{Err, Result, ok, err, plain, nil}
use relay_x.Ports.Defs.{Pool, Kind, count_up, idle_pool, new_pool}
use relay_x.Ports.Valid.{Rising, elem-count_up, Rising-mono, count_up-Rising}
use relay_x.Status.{idle}
use relay_x.Prelude.Sorting.{elem}
use relay_x.Config.Numbers.{atoi, split}
use relay_x.Config.Range.{
  PortRange, bad_values, in_range, with_end, with_start, of_parts, parse_port_range,
}
use relay_x.Config.Settings.{Config, range_error, validate}

abbrev IsGood : Result PortRange → Type 0
IsGood (err e) = Unit {0}
IsGood (ok r) = bad_values r.start r.end ≡ false

in_range-IsGood : (start end : ℤ) → IsGood (in_range start end)
in_range-IsGood start end = elim (Bool-cases (bad_values start end)) [
  | inl e ↦ rw e tt
  | inr e ↦ rw e e
]

with_end-IsGood : (start : ℤ) (text : Text) (o : Option ℤ) → IsGood (with_end start text o)
with_end-IsGood start text none = tt
with_end-IsGood start text (some end) = in_range-IsGood start end

with_start-IsGood : (first second : Text) (o : Option ℤ) → IsGood (with_start first second o)
with_start-IsGood first second none = tt
with_start-IsGood first second (some start) =
    with_end-IsGood start second (atoi (trim_space second))

of_parts-IsGood : (s : Text) (parts : List Text) → IsGood (of_parts s parts)
of_parts-IsGood s [] = tt
of_parts-IsGood s (first ∷ []) = tt
of_parts-IsGood s (first ∷ second ∷ []) = with_start-IsGood first second (atoi (trim_space first))
of_parts-IsGood s (first ∷ second ∷ third ∷ rest) = tt

parse_port_range-IsGood : (text : Text) → IsGood (parse_port_range text)
unfolding parse_port_range
parse_port_range-IsGood text = of_parts-IsGood (trim_space text) (split b'-' (trim_space text))

-- A pool of the kind, of exactly the ports between two numbers, in their order, all idle and with no
-- allocation.
pub record IsFresh (kind : Kind) (s e : ℤ) (p : Pool) : Type 0 where
  pub of_kind : p.kind ≡ kind
  pub ports : (q : ℕ) → elem q p.ports ≡ (leb_ℤ s (pos q) && leb_ℤ (pos q) e)
  pub state : (q : ℕ) → p.state q ≡ (if leb_ℤ s (pos q) && leb_ℤ (pos q) e then some idle else none)
  pub alloc : (q : ℕ) → p.alloc q ≡ none
  pub sorted : Rising 0 p.ports

idle_pool-IsFresh : (kind : Kind) (s e : ℕ) → IsFresh kind (pos s) (pos e) (idle_pool kind s e)
idle_pool-IsFresh kind s e = record {
  of_kind = refl;
  ports = λ q. ground (arith, elem-count_up q s (suc e - s));
  state = λ q. ground arith;
  alloc = λ q. refl;
  sorted = Rising-mono (count_up s (suc e - s)) (omega arith) (count_up-Rising s (suc e - s));
}

of_good :
    (kind : Kind) (s e : ℤ)
    → bad_values s e ≡ false
    → (leb_ℤ (pos 1) s ≡ true)
      × (leb_ℤ s e ≡ true)
      × (leb_ℤ e (pos 65535) ≡ true)
      × ((p : Pool) × (new_pool kind s e ≡ ok p) × IsFresh kind s e p)
unfolding new_pool
of_good kind (pos s) (pos e) g = (
  ground arith,
  ground arith,
  ground arith,
  (idle_pool kind s e, ground arith, idle_pool-IsFresh kind s e),
)
of_good kind (pos s) (negsuc e) g = ground arith
of_good kind (negsuc s) e g = ground arith

-- A port range that parses is within the ports from 1 to 65535 and not empty, and makes a pool of exactly
-- its ports, in rising order, all of them idle.
pub new_pool-parse_port_range :
    (kind : Kind) (text : Text) {r : PortRange}
    → parse_port_range text ≡ ok r
    → (leb_ℤ (pos 1) r.start ≡ true)
      × (leb_ℤ r.start r.end ≡ true)
      × (leb_ℤ r.end (pos 65535) ≡ true)
      × ((p : Pool) × (new_pool kind r.start r.end ≡ ok p) × IsFresh kind r.start r.end p)
new_pool-parse_port_range kind text {r} h =
    of_good kind r.start r.end (rw h at (parse_port_range-IsGood text))

range_error_nil :
    (label : Text) (r : Result PortRange) {rest : Err}
    → range_error label r rest ≡ nil
    → (x : PortRange) × (r ≡ ok x) × (rest ≡ nil)
range_error_nil label (err e) h = cc
range_error_nil label (ok x) h = (x, refl, h)

checked_nil : (b : Bool) (m : Text) (rest : Err) → (if b then plain m else rest) ≡ nil → rest ≡ nil
checked_nil false m rest h = h
checked_nil true m rest h = cc

-- A configuration that passes the checks has two port ranges that parse.
pub validate_ranges :
    (c : Config)
    → validate c ≡ nil
    → (z : PortRange) × (s : PortRange) × (parse_port_range c.zero_mq.port_range ≡ ok z)
      × (parse_port_range c.go_srt.port_range ≡ ok s)
unfolding validate
validate_ranges c h =
    let g = c.gateway in
    let h1 =
      checked_nil (leb_ℤ g.tcp_port (pos 0) || ltb_ℤ (pos 65535) g.tcp_port)
        (codes "invalid gateway.tcp_port: " ++ integer g.tcp_port) _ h in
    let h2 =
      checked_nil (leb_ℤ g.max_connections (pos 0))
        (codes "invalid gateway.max_connections: " ++ integer g.max_connections) _ h1 in
    let h3 =
      checked_nil (leb_ℤ g.auth_timeout (pos 0))
        (codes "invalid gateway.auth_timeout: " ++ integer g.auth_timeout) _ h2 in
    let h4 =
      checked_nil (leb_ℤ g.shutdown_timeout (pos 0))
        (codes "invalid gateway.shutdown_timeout: " ++ integer g.shutdown_timeout) _ h3 in
    let (z, p, k) =
      range_error_nil (codes "invalid zeromq.port_range") (parse_port_range c.zero_mq.port_range)
        h4 in
    let (s, q, l) =
      range_error_nil (codes "invalid gosrt.port_range") (parse_port_range c.go_srt.port_range) k in
    (z, s, p, q)
