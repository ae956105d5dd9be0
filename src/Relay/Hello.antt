-- ===== src/Relay/Hello.antt =====
-- v4/relay/hello.go: the first line of a data connection. What `json.Unmarshal` makes of the rest of
-- the line is an argument.
use relay_x.Prelude.{
  Bool, ◌&&◌, ◌||◌, not, [], ◌∷◌, ◌++◌, Option, none, some, Text, codes, text_eq, is_blank,
  trim_space, quoted, map, ◌==◌, if◌then◌else◌, ℕ, leb, ◌+◌,
}
use relay_x.Errors.{Result, ok, err, new, wrap, plain, code_bad_request}

pub record DataHello : Type 0 where
  pub role : Text
  pub session_id : Text
  pub id : Text

abbrev pub hello_prefix : Text
hello_prefix = codes "V4HELLO "

-- `strings.HasPrefix` and `strings.TrimPrefix`: the rest after the prefix.
unfoldable pub strip_prefix : Text → Text → Option Text
strip_prefix [] s = some s
strip_prefix (p ∷ ps) [] = none
strip_prefix (p ∷ ps) (c ∷ s) = let rest = strip_prefix ps s in if p == c then rest else none

-- `strings.ToLower`, on ASCII letters; a role with any other upper case letter is refused.
unfoldable pub to_lower : ℕ → ℕ
to_lower c = if leb b'A' c && leb c b'Z' then c + 32 else c

-- The fields as the checks see them.
abbrev pub normal : DataHello → DataHello
normal h = record {
  role = map to_lower (trim_space h.role);
  session_id = trim_space h.session_id;
  id = trim_space h.id;
}

abbrev pub bad_fields : DataHello → Bool
bad_fields h =
    (not (text_eq h.role (codes "server")) && not (text_eq h.role (codes "client")))
    || is_blank h.session_id
    || is_blank h.id

abbrev pub checked : Result DataHello → Result DataHello
checked (err e) = err (wrap code_bad_request (codes "invalid hello json") e)
checked (ok h) =
    if bad_fields (normal h)
    then err (new code_bad_request (codes "invalid hello fields"))
    else ok (normal h)

abbrev pub decoded : (Text → Result DataHello) → Text → Option Text → Result DataHello
decoded decode line none =
    err (wrap code_bad_request (codes "missing hello prefix") (plain (codes "got=" ++ quoted line)))
decoded decode line (some raw) = checked (decode raw)

-- `ReadHello`, of what reading a line gave.
unfoldable pub read_hello : (Text → Result DataHello) → Result Text → Result DataHello
unfolding strip_prefix
read_hello decode (err e) = err (wrap code_bad_request (codes "read hello failed") e)
read_hello decode (ok line) =
    let t = trim_space line in decoded decode t (strip_prefix hello_prefix t)
