-- ===== src/Control/Once.antt =====
-- v4/control/server.go: one try of a pairing, on every branch.
use relay_x.Prelude.{ℕ, ◌≡◌, refl, sym, ◌∙◌, ◌⊎◌, inl, inr, List, [], ◌∷◌, Text, arith}
use relay_x.Errors.{Err, Result, ok, err}
use relay_x.Ports.Valid
use relay_x.Control.Protocol.{PairRequest, PairGrant}
use relay_x.Control.Hub.{Hub, Client}
use relay_x.Control.Pairing.{
  Candidate, pair_with, pair_among, pair_best, try_pair_once, eligible, sort_candidates, candidates,
}
use relay_x.Control.Grant.{Granted, pair_with_failed, pair_with-Granted}
use relay_x.Control.Choice.{IsChoice, sort_candidates-IsChoice}

-- The three ways that a try can go.
abbrev Outcome : Client → PairRequest → Text → ℕ → Hub → Hub × Result PairGrant → Type 0
Outcome c pr session now h out =
    ((e : Err) × (out ≡ (h, err e)))
    ⊎ ((s : Client) × IsChoice h (eligible pr h) s × (out ≡ pair_with s c pr session now h))

pair_best-Outcome :
    (cs : List Candidate) (c : Client) (pr : PairRequest) (session : Text) (now : ℕ) (h : Hub)
    → sort_candidates (candidates h (eligible pr h)) ≡ cs
    → Outcome c pr session now h (pair_best cs c pr session now h)
pair_best-Outcome [] c pr session now h e = inl (_, refl)
pair_best-Outcome (best ∷ rest) c pr session now h e =
    inr (best.server, sort_candidates-IsChoice h (eligible pr h) best rest e, refl)

pair_among-Outcome :
    (ss : List Client) (c : Client) (pr : PairRequest) (session : Text) (now : ℕ) (h : Hub)
    → eligible pr h ≡ ss
    → Outcome c pr session now h (pair_among ss c pr session now h)
pair_among-Outcome [] c pr session now h e = inl (_, refl)
pair_among-Outcome (s ∷ ss) c pr session now h e =
    pair_best-Outcome (sort_candidates (candidates h (s ∷ ss))) c pr session now h (rw e)

try_pair_once-Outcome :
    (c : Client) (pr : PairRequest) (session : Text) (now : ℕ) (h : Hub)
    → Outcome c pr session now h (try_pair_once c pr session now h)
unfolding try_pair_once
try_pair_once-Outcome c pr session now h =
    pair_among-Outcome (eligible pr h) c pr session now h refl

module _ (c : Client) (pr : PairRequest) (session : Text) (now : ℕ) (h : Hub)
    (z : Valid.IsValid h.zmq_pool) (t : Valid.IsValid h.srt_pool) where
  -- A try that fails, for whatever reason, leaves the hub as it was, both port pools included: a
  -- ZMQ port that was already reserved is given back. The pools are valid before.
  pub try_pair_once_failed :
      {h' : Hub} {e : Err} → try_pair_once c pr session now h ≡ (h', err e) → h' ≡ h
  try_pair_once_failed {h'} {e} r = elim (try_pair_once-Outcome c pr session now h) [
    | inl (f, a) ↦ ground arith
    | inr (s, _, a) ↦ ground (arith, pair_with_failed s c pr session now h z t h' e)
  ]

  -- A try that succeeds grants the choice: an eligible server with capacity left, with none that
  -- has more, and the least id among equals. The grant carries the ids and tokens of the two; of
  -- each pool it holds port 0, or, where that was asked for, a port that was idle and is now
  -- reserved for the session, with nothing else of the hub changed. It was asked for one at least.
  pub try_pair_once-Granted :
      {h' : Hub} {g : PairGrant}
      → try_pair_once c pr session now h ≡ (h', ok g)
      → (s : Client) × IsChoice h (eligible pr h) s × Granted s c pr session now h h' g
  try_pair_once-Granted {h'} {g} r = elim (try_pair_once-Outcome c pr session now h) [
    | inl (f, a) ↦ absurd (ground arith)
    | inr (s, choice, a) ↦ (s, choice, pair_with-Granted s c pr session now h z t h' g (sym a ∙ r))
  ]
