-- ===== src/Relay/Booting/Loops.antt =====
-- v4/relay/manager.go: the loops of `Start`, over any way to start a port.
use relay_x.Prelude.{
  ap, ◌∙◌, Bool-cases, ◌==◌, Text, ◌&&◌, ◌⊎◌, ℕ, ◌≡◌, refl, sym, true, inl, inr, Bool, List, [],
  ◌∷◌, arith, ==_iff,
}
use relay_x.Prelude.Sorting.{elem}
use relay_x.Errors.{Err, nil, plain, wrapped, coded, Result, err, wrap, code_conflict}
use relay_x.Relay.Listening.{wrap_not_nil}
use relay_x.Relay.Booting.{unless_failed, start_each}

-- The error `f` of a start says, with the message `msg`, why listening failed.
pub record Refusal (msg : Text) (listen : Result ℕ) (f : Err) : Type 0 where
  pub cause : Err
  pub refused : listen ≡ err cause
  pub reported : f ≡ wrap code_conflict msg cause

pub record Refused (msg : Text) (listen : ℕ → Result ℕ) (ports : List ℕ) (f : Err) : Type 0 where
  pub port : ℕ
  pub among : elem port ports ≡ true
  pub refusal : Refusal msg (listen port) f

pub all {ℓ} : {A : Type ℓ} → (A → Bool) → List A → Bool
all test [] = true
all test (x ∷ xs) = test x && all test xs

pub all-elem :
    (test : ℕ → Bool) (ps : List ℕ) (q : ℕ) → all test ps ≡ true → elem q ps ≡ true → test q ≡ true
unfolding all elem
all-elem test [] q h m = cc
all-elem test (p ∷ ps) q h m = elim (Bool-cases (p == q)) [
  | inl e ↦ ap test (sym ((==_iff p q).0 e)) ∙ ground arith
  | inr e ↦ all-elem test ps q (ground arith) (ground arith)
]

-- Either every port is on and there is no error, or listening at one of the ports failed.
abbrev pub Started : (ℕ → Bool) → List ℕ → Text → (ℕ → Result ℕ) → Err → Type 0
Started on ports msg listen f = ((f ≡ nil) × (all on ports ≡ true)) ⊎ Refused msg listen ports f

now :
    {msg : Text} {listen : ℕ → Result ℕ} {f : Err} (p : ℕ) (ps : List ℕ)
    → Refusal msg (listen p) f
    → Refused msg listen (p ∷ ps) f
unfolding elem
now p ps x = record { port = p; among = ground (arith, ==_iff p p); refusal = x }

later :
    {msg : Text} {listen : ℕ → Result ℕ} {f : Err} {ps : List ℕ} (p : ℕ)
    → Refused msg listen ps f
    → Refused msg listen (p ∷ ps) f
unfolding elem
later p x = record { port = x.port; among = ground (arith, x.among); refusal = x.refusal }

-- A loop of starts, where a start turns its port on or reports why not, and none turns a port off.
module _ {S : Type 0} (start : ℕ → S → S × Err) (on : ℕ → S → Bool) (msg : Text)
    (listen : ℕ → Result ℕ)
    (starts : (p : ℕ) (s : S)
      → (((start p s).1 ≡ nil) × (on p (start p s).0 ≡ true))
        ⊎ Refusal msg (listen p) (start p s).1)
    (keeps : (p q : ℕ) (s : S) → on q s ≡ true → on q (start p s).0 ≡ true) where
  start_each-Keeps :
      (ps : List ℕ) (q : ℕ) (s : S) → on q s ≡ true → on q (start_each start ps s).0 ≡ true
  unfolding start_each
  start_each-Keeps [] q s h = h
  start_each-Keeps (p ∷ ps) q s h = go (start p s) (λ u. start_each-Keeps ps q u) (keeps p q s h)
    where
      go :
          (r : S × Err)
          → ((u : S) → on q u ≡ true → on q (start_each start ps u).0 ≡ true)
          → on q r.0 ≡ true
          → on q (unless_failed (start_each start ps) r).0 ≡ true
      go (t, nil) rest k = rest t k
      go (t, plain m) rest k = k
      go (t, wrapped m e) rest k = k
      go (t, coded n m e) rest k = k

  pub start_each-Started :
      (ps : List ℕ) (s : S)
      → Started (λ q. on q (start_each start ps s).0) ps msg listen (start_each start ps s).1
  unfolding start_each all
  start_each-Started [] s = inl (refl, refl)
  start_each-Started (p ∷ ps) s =
      go (start p s) (starts p s) (λ u. start_each-Started ps u) (λ u. start_each-Keeps ps p u)
    where
      go :
          (r : S × Err)
          → ((r.1 ≡ nil) × (on p r.0 ≡ true)) ⊎ Refusal msg (listen p) r.1
          → ((u : S)
              → Started
                  (λ q. on q (start_each start ps u).0)
                  ps
                  msg
                  listen
                  (start_each start ps u).1)
          → ((u : S) → on p u ≡ true → on p (start_each start ps u).0 ≡ true)
          → let t = unless_failed (start_each start ps) r in
            Started (λ q. on q t.0) (p ∷ ps) msg listen t.1
      go (u, nil) (inl (n, o)) rest kept = elim (rest u) [
        | inl (m, every) ↦ inl (m, rw (kept u o) every)
        | inr x ↦ inr (later p x)
      ]
      go (u, nil) (inr x) rest kept =
          absurd (wrap_not_nil code_conflict msg x.cause (sym x.reported))
      go (u, plain m) (inl (n, o)) rest kept = cc
      go (u, plain m) (inr x) rest kept = inr (now p ps x)
      go (u, wrapped m e) (inl (n, o)) rest kept = cc
      go (u, wrapped m e) (inr x) rest kept = inr (now p ps x)
      go (u, coded c m e) (inl (n, o)) rest kept = cc
      go (u, coded c m e) (inr x) rest kept = inr (now p ps x)
