-- ===== src/Config/Tests.antt =====
-- The default configuration and its port ranges.
use relay_x.Prelude.{true, ◌≡◌, ◌≤◌, ◌<◌, ◌^◌, text_eq, refl, decimal, codes, some, none}
use relay_x.Prelude.Int.{pos, leb_ℤ}
use relay_x.Errors.{ok, nil}
use relay_x.Ports.Defs.{Pool, zmq, new_pool}
use relay_x.Config.Numbers.{itoa}
use relay_x.Config.Range.{parse_port_range}
use relay_x.Config.Settings.{default_config, validate}
use relay_x.Config.Itoa.{itoa-decimal}
use relay_x.Config.Pools.{IsFresh, new_pool-parse_port_range}

default_valid : validate default_config ≡ nil
unfolding validate default_config text_eq
default_valid = refl

spaced : parse_port_range (codes " 2300 - 2302 ") ≡ ok (record { start = pos 2300; end = pos 2302 })
unfolding parse_port_range
spaced = refl

new_pool-parse_port_range_example :
    (leb_ℤ (pos 1) (pos 2300) ≡ true)
    × (leb_ℤ (pos 2300) (pos 2302) ≡ true)
    × (leb_ℤ (pos 2302) (pos 65535) ≡ true)
    × ((p : Pool) × (new_pool zmq (pos 2300) (pos 2302) ≡ ok p)
        × IsFresh zmq (pos 2300) (pos 2302) p)
new_pool-parse_port_range_example = new_pool-parse_port_range zmq (codes " 2300 - 2302 ") spaced

itoa-decimal_example :
    (2300 < 10 ^ 16 → itoa (pos 2300) ≡ some (decimal 2300))
    × (10 ^ 16 ≤ 2300 → itoa (pos 2300) ≡ none)
itoa-decimal_example = itoa-decimal 2300
