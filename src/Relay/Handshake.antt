-- ===== src/Relay/Handshake.antt =====
-- v4/relay/hello.go: which first lines are accepted.
use relay_x.Prelude.{
  ◌≡◌, ◌≢◌, refl, ◌⊎◌, inl, inr, Bool-cases, Option, none, some, [], ◌∷◌, ◌++◌, false, Text, codes,
  text_eq_iff, trim_space, is_blank, quoted, arith,
}
use relay_x.Errors.{
  Err, nil, plain, wrapped, coded, new, Result, ok, err, code, code_bad_request, wrap,
}
use relay_x.Relay.Hello.{
  DataHello, hello_prefix, strip_prefix, normal, bad_fields, checked, decoded, read_hello,
}

strip_prefix-append : (p s : Text) {r : Text} → strip_prefix p s ≡ some r → s ≡ p ++ r
unfolding strip_prefix
strip_prefix-append [] s h = cc
strip_prefix-append (c ∷ p) [] h = cc
strip_prefix-append (c ∷ p) (d ∷ s) {r} h = ground (arith, strip_prefix-append p s {r = r})

code-wrap : (msg : Text) (e : Err) → code (wrap code_bad_request msg e) ≡ code_bad_request
unfolding code
code-wrap msg nil = refl
code-wrap msg (plain m) = refl
code-wrap msg (wrapped m e) = refl
code-wrap msg (coded c m e) = refl

new-bad_request : code (new code_bad_request (codes "invalid hello fields")) ≡ code_bad_request
unfolding code
new-bad_request = refl

-- The two roles, and a session and an id that are not blank.
abbrev pub IsGood : DataHello → Type 0
IsGood h =
    ((h.role ≡ codes "server") ⊎ (h.role ≡ codes "client")) × (h.session_id ≢ []) × (h.id ≢ [])

-- The two outcomes of the handshake.
abbrev pub Handshake : (Text → Result DataHello) → Result Text → Result DataHello → Type 0
Handshake decode r (err e) = code e ≡ code_bad_request
Handshake decode r (ok h) =
    IsGood h
    × ((line : Text) × (raw : Text) × (g : DataHello) × (r ≡ ok line)
        × (trim_space line ≡ hello_prefix ++ raw)
        × (decode raw ≡ ok g)
        × (h ≡ normal g))

not_blank : (s : Text) → is_blank s ≡ false → s ≢ []
not_blank [] h k = cc
not_blank (c ∷ s) h k = cc

bad_fields-IsGood : (h : DataHello) → bad_fields h ≡ false → IsGood h
bad_fields-IsGood h e = (
  ground (arith, text_eq_iff h.role (codes "server"), text_eq_iff h.role (codes "client")),
  not_blank h.session_id (ground arith),
  not_blank h.id (ground arith),
)

checked-Handshake :
    (decode : Text → Result DataHello) (line raw : Text) (d : Result DataHello)
    → trim_space line ≡ hello_prefix ++ raw
    → decode raw ≡ d
    → Handshake decode (ok line) (checked d)
checked-Handshake decode line raw (err e) t k = code-wrap (codes "invalid hello json") e
checked-Handshake decode line raw (ok g) t k = elim (Bool-cases (bad_fields (normal g))) [
  | inl e ↦ rw e new-bad_request
  | inr e ↦ rw e (bad_fields-IsGood (normal g) e, (line, raw, g, refl, t, k, refl))
]

decoded-Handshake :
    (decode : Text → Result DataHello) (line : Text) (o : Option Text)
    → strip_prefix hello_prefix (trim_space line) ≡ o
    → Handshake decode (ok line) (decoded decode (trim_space line) o)
decoded-Handshake decode line none e =
    code-wrap (codes "missing hello prefix") (plain (codes "got=" ++ quoted (trim_space line)))
decoded-Handshake decode line (some raw) e =
    checked-Handshake decode line raw (decode raw)
      (strip_prefix-append hello_prefix (trim_space line) e) refl

-- Every refused handshake is an error with the code for bad requests. An accepted one comes from a
-- line that, without the white space around it, is the prefix and a text that decodes to the fields
-- given, trimmed and with the role in lower case; the role is server or client, and the session and
-- the id are not empty.
pub read_hello_lem :
    (decode : Text → Result DataHello) (r : Result Text) → Handshake decode r (read_hello decode r)
unfolding read_hello
read_hello_lem decode (err e) = code-wrap (codes "read hello failed") e
read_hello_lem decode (ok line) =
    decoded-Handshake decode line (strip_prefix hello_prefix (trim_space line)) refl
