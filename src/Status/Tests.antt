-- ===== src/Status/Tests.antt =====
-- The status parsers at concrete texts.
use relay_x.Prelude.{◌≡◌, refl, codes, text_eq, trim_space}
use relay_x.Errors.{ok}
use relay_x.Status.{running, parse_gateway}

running_parsed : parse_gateway (codes " Running\t") ≡ ok running
unfolding parse_gateway text_eq trim_space
running_parsed = refl
