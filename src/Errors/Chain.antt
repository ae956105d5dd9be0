-- ===== src/Errors/Chain.antt =====
-- v4/errors/errors.go: what the code of an error survives.
use relay_x.Prelude.{◌≡◌, refl, Text, arith}
use relay_x.Errors.{Err, nil, plain, wrapped, coded, as_coded, with_message, code}

-- For every error, nil and wrapped ones included, `WithMessage` keeps the code that `Code`
-- reports.
pub code-with_message : (e : Err) (msg : Text) → code (with_message e msg) ≡ code e
unfolding code with_message
code-with_message nil msg = refl
code-with_message (plain m) msg = refl
code-with_message (wrapped m e) msg = ground (arith, as_coded e)
code-with_message (coded c m e) msg = refl
