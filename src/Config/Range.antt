-- ===== src/Config/Range.antt =====
-- v4/config/parse.go: port ranges.
use relay_x.Prelude.{
  Bool, ◌||◌, ◌++◌, List, [], ◌∷◌, Option, none, some, Text, codes, trim_space, quoted,
  if◌then◌else◌,
}
use relay_x.Prelude.Int.{ℤ, pos, leb_ℤ, ltb_ℤ, integer}
use relay_x.Errors.{Result, ok, err, plain}
use relay_x.Config.Numbers.{atoi, split}

pub record PortRange : Type 0 where
  pub start : ℤ
  pub end : ℤ

-- `start <= 0 || end <= 0 || end < start || end > 65535`
abbrev pub bad_values : ℤ → ℤ → Bool
bad_values start end =
    leb_ℤ start (pos 0) || leb_ℤ end (pos 0) || ltb_ℤ end start || ltb_ℤ (pos 65535) end

-- The last checks, on the two numbers.
abbrev pub in_range : ℤ → ℤ → Result PortRange
in_range start end =
    if bad_values start end
    then err
        (plain (codes "invalid port_range values: " ++ integer start ++ codes "-" ++ integer end))
    else ok (record { start = start; end = end })

abbrev pub with_end : ℤ → Text → Option ℤ → Result PortRange
with_end start text none = err (plain (codes "invalid port_range end: " ++ quoted text))
with_end start text (some end) = in_range start end

abbrev pub with_start : Text → Text → Option ℤ → Result PortRange
with_start first second none = err (plain (codes "invalid port_range start: " ++ quoted first))
with_start first second (some start) = with_end start second (atoi (trim_space second))

-- By the number of parts.
abbrev pub of_parts : Text → List Text → Result PortRange
of_parts s (first ∷ second ∷ []) = with_start first second (atoi (trim_space first))
of_parts s _ = err (plain (codes "invalid port_range: " ++ quoted s))

unfoldable pub parse_port_range : Text → Result PortRange
unfolding split atoi trim_space
parse_port_range text = let s = trim_space text in of_parts s (split b'-' s)
