-- ===== src/Errors.antt =====
-- v4/errors/errors.go: errors with codes. `nil` is Go's nil error, `plain` an error of another
-- package, `wrapped` what `fmt.Errorf("%s: %w")` returns.
pub mod Chain
use relay_x.Prelude.{ℕ, [], ◌++◌, Text, codes, decimal}

pub data Err : Type 0 where
  nil : Err
  plain : Text → Err
  wrapped : Text → Err → Err
  coded : ℕ → Text → Err → Err

-- What a function with the results `(T, error)` returns: the error of `err` is not nil.
pub data Result {ℓ} (A : Type ℓ) : Type ℓ where
  ok : A → Result A
  err : Err → Result A

abbrev pub code_internal : ℕ
code_internal = 500

abbrev pub code_auth_failed : ℕ
code_auth_failed = 501

abbrev pub code_bad_request : ℕ
code_bad_request = 502

abbrev pub code_conflict : ℕ
code_conflict = 503

abbrev pub code_unavailable : ℕ
code_unavailable = 504

abbrev pub code_no_port_timeout : ℕ
code_no_port_timeout = 505

abbrev pub new : ℕ → Text → Err
new code msg = coded code msg nil

abbrev pub wrap : ℕ → Text → Err → Err
wrap code msg nil = coded code msg nil
wrap code msg e = coded code msg e

-- `Unwrap`, also of an error made by `%w`.
unfoldable pub unwrap : Err → Err
unwrap nil = nil
unwrap (plain m) = nil
unwrap (wrapped m e) = e
unwrap (coded c m e) = e

-- `errors.As(err, &ce)` finds the first coded error of the chain.
unfoldable pub as_coded : Err → Err
as_coded nil = nil
as_coded (plain m) = nil
as_coded (wrapped m e) = as_coded e
as_coded (coded c m e) = coded c m e

relabel : Text → Err → Err → Err
relabel msg whole (coded c m e) = coded c msg e
relabel msg whole _ = wrapped msg whole

unfoldable pub with_message : Err → Text → Err
unfolding as_coded relabel
with_message nil msg = nil
with_message (plain m) msg = wrapped msg (plain m)
with_message (wrapped m e) msg = relabel msg (wrapped m e) (as_coded e)
with_message (coded c m e) msg = coded c msg e

code_found : Err → ℕ
code_found (coded c m e) = c
code_found _ = code_internal

unfoldable pub code : Err → ℕ
unfolding as_coded code_found
code nil = 0
code e = code_found (as_coded e)

-- `Error`
unfoldable pub error_text : Err → Text
error_text nil = []
error_text (plain m) = m
error_text (wrapped m e) = m ++ codes ": " ++ error_text e
error_text (coded c m nil) = decimal c ++ codes " " ++ m
error_text (coded c m e) = decimal c ++ codes " " ++ m ++ codes ": " ++ error_text e
