-- ===== src/Relay/Booting/Ranges.antt =====
-- v4/relay/manager.go and v4/config/parse.go: the ports that the loops of `Start` go through.
use relay_x.Prelude.{Text, ℕ, ◌≡◌, refl, sym, ◌∙◌, true, Bool, arith, ◌==◌, ==_iff, ◌&&◌, suc, ◌-◌}
use relay_x.Prelude.Int.{ℤ, pos, negsuc, pos_part, leb_ℤ}
use relay_x.Prelude.Sorting.{elem}
use relay_x.Errors.{Err, Result, ok, err}
use relay_x.Ports.Defs.{count_up, zmq}
use relay_x.Ports.Valid.{elem-count_up}
use relay_x.Config.Range.{PortRange, parse_port_range}
use relay_x.Config.Pools.{new_pool-parse_port_range}
use relay_x.Relay.Booting.Loops.{Refusal, Refused, all, all-elem}
use relay_x.Relay.Booting.{range_ports}

-- The ports of a configured range, by its two ends; one that does not parse stands for port 0.
abbrev pub configured : Result PortRange → ℕ → Bool
configured (err e) q = q == 0
configured (ok r) q = leb_ℤ r.start (pos q) && leb_ℤ (pos q) r.end

pub range_ports-configured :
    (text : Text) (q : ℕ)
    → elem q (range_ports (parse_port_range text)) ≡ configured (parse_port_range text) q
unfolding elem
range_ports-configured text q = go (parse_port_range text) refl
  where
    of_range :
        (s e : ℤ)
        → leb_ℤ (pos 1) s ≡ true
        → leb_ℤ s e ≡ true
        → elem q (count_up (pos_part s) (suc (pos_part e) - pos_part s))
          ≡ (leb_ℤ s (pos q) && leb_ℤ (pos q) e)
    of_range (pos s) (pos e) h k = ground (arith, elem-count_up q s (suc e - s))
    of_range (pos s) (negsuc e) h k = ground arith
    of_range (negsuc s) e h k = ground arith

    go :
        (r : Result PortRange) → parse_port_range text ≡ r → elem q (range_ports r) ≡ configured r q
    go (err e) h = ground (arith, ==_iff 0 q, ==_iff q 0)
    go (ok r) h =
        let (low, high, _, _) = new_pool-parse_port_range zmq text h in
        of_range r.start r.end low high

-- The error `f` says, with the message `msg`, why listening failed at a port of a configured range.
pub record RefusedIn (msg : Text) (listen : ℕ → Result ℕ) (range : Result PortRange) (f : Err)
    : Type 0 where
  pub port : ℕ
  pub among : configured range port ≡ true
  pub refusal : Refusal msg (listen port) f

pub Refused-RefusedIn :
    (msg : Text) (listen : ℕ → Result ℕ) (text : Text) (f : Err)
    → Refused msg listen (range_ports (parse_port_range text)) f
    → RefusedIn msg listen (parse_port_range text) f
Refused-RefusedIn msg listen text f x = record {
  port = x.port;
  among = sym (range_ports-configured text x.port) ∙ x.among;
  refusal = x.refusal;
}

pub all-configured :
    (test : ℕ → Bool) (text : Text)
    → all test (range_ports (parse_port_range text)) ≡ true
    → (q : ℕ) → configured (parse_port_range text) q ≡ true
    → test q ≡ true
all-configured test text h q m =
    all-elem test (range_ports (parse_port_range text)) q h (range_ports-configured text q ∙ m)
