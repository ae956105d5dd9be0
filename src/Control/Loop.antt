-- ===== src/Control/Loop.antt =====
-- v4/control/server.go: the loop of tries.
use relay_x.Prelude.{
  ℕ, zero, suc, ◌+◌, ◌<◌, ◌≡◌, refl, ◌⊎◌, inl, inr, ◌≢◌, true, false, List, [], ◌∷◌, Text, arith,
  subst, Bool-cases, ◌==◌, ==_iff, codes,
}
use relay_x.Prelude.Assoc.{lookup, text_key}
use relay_x.Errors.{Err, Result, ok, err, code, error_text, code_unavailable, code_no_port_timeout}
use relay_x.Control.Protocol.{PairRequest, PairGrant, Outgoing, pair_grant, pair_error}
use relay_x.Control.Hub.{Hub, Client}
use relay_x.Control.Pairing.{
  Surroundings, try_pair_once, to_server, tried, pair_loop_from, pair_loop,
}

-- The tries numbered from `i` up to `k` found no port, and took the hub from one state to the other: each
-- began at the hub that the one before and the sleep after it left, and none found the context done.
pub data Misses (w : Surroundings) (c : Client) (pr : PairRequest)
    : ℕ → Hub → ℕ → Hub → Type 0 where
  none_yet : (i : ℕ) (h : Hub) → Misses w c pr i h i h
  one_more :
      (i k : ℕ) (h h' last : Hub) (e : Err)
      → w.done i ≡ false
      → try_pair_once c pr (w.new_id i) (w.now i) h ≡ (h', err e)
      → code e ≡ code_unavailable
      → Misses w c pr (i + 1) (w.asleep i h') k last
      → Misses w c pr i h k last

-- How the loop ends, with its tries numbered from `lo` up to `hi`, where the tries before the last one found
-- no port: the context was done at the last try and nothing is sent; or that try made a grant, which goes to
-- the client and, if it is still registered then, to the server; or it failed otherwise, and the client
-- alone is told its error; or no try found a port, and the client is told so.
pub data Ends (w : Surroundings) (c : Client) (pr : PairRequest) (hi lo : ℕ) (h : Hub)
    : Hub × List (ℕ × Outgoing) → Type 0 where
  cancelled :
      (k : ℕ) (h1 : Hub)
      → Misses w c pr lo h k h1
      → k < hi
      → w.done k ≡ true
      → Ends w c pr hi lo h (h1, [])
  granted :
      (k : ℕ) (h1 h2 : Hub) (g : PairGrant)
      → Misses w c pr lo h k h1
      → k < hi
      → w.done k ≡ false
      → try_pair_once c pr (w.new_id k) (w.now k) h1 ≡ (h2, ok g)
      → Ends w c pr hi lo h (
        w.meanwhile k h2,
        (c.conn, pair_grant g) ∷ to_server (lookup g.server_id (w.meanwhile k h2).servers) g,
      )
  refused :
      (k : ℕ) (h1 h2 : Hub) (e : Err)
      → Misses w c pr lo h k h1
      → k < hi
      → w.done k ≡ false
      → try_pair_once c pr (w.new_id k) (w.now k) h1 ≡ (h2, err e)
      → code e ≢ code_unavailable
      → Ends w c pr hi lo h (h2, (c.conn, pair_error (code e) (error_text e)) ∷ [])
  exhausted :
      (h1 : Hub)
      → Misses w c pr lo h hi h1
      → Ends w c pr hi lo h
          (h1, (c.conn, pair_error code_no_port_timeout (codes "no port available")) ∷ [])

-- One more try before them, which found no port.
missed :
    {w : Surroundings} {c : Client} {pr : PairRequest} {hi : ℕ} {out : Hub × List (ℕ × Outgoing)}
    (lo : ℕ) (h h' : Hub) (e : Err)
    → w.done lo ≡ false
    → try_pair_once c pr (w.new_id lo) (w.now lo) h ≡ (h', err e)
    → code e ≡ code_unavailable
    → Ends w c pr hi (lo + 1) (w.asleep lo h') out
    → Ends w c pr hi lo h out
missed lo h h' e d t u (cancelled k h1 m l x) = cancelled k h1 (one_more lo k h h' h1 e d t u m) l x
missed lo h h' e d t u (granted k h1 h2 g m l x y) =
    granted k h1 h2 g (one_more lo k h h' h1 e d t u m) l x y
missed lo h h' e d t u (refused k h1 h2 f m l x y z) =
    refused k h1 h2 f (one_more lo k h h' h1 e d t u m) l x y z
missed {hi = hi} lo h h' e d t u (exhausted h1 m) = exhausted h1 (one_more lo hi h h' h1 e d t u m)

tried-Ends :
    (again : Hub → Hub × List (ℕ × Outgoing)) (w : Surroundings) (c : Client) (pr : PairRequest)
    (hi lo : ℕ) (h : Hub) (out : Hub × Result PairGrant)
    → lo < hi
    → w.done lo ≡ false
    → try_pair_once c pr (w.new_id lo) (w.now lo) h ≡ out
    → ((h1 : Hub) → Ends w c pr hi (lo + 1) (w.asleep lo h1) (again h1))
    → Ends w c pr hi lo h (tried again (w.meanwhile lo) c out)
tried-Ends again w c pr hi lo h (h', ok g) l d e rest = granted lo h h' g (none_yet lo h) l d e
tried-Ends again w c pr hi lo h (h', err e) l d r rest =
    elim (Bool-cases (code e == code_unavailable)) [
      | inl u ↦ rw u (missed lo h h' e d r ((==_iff (code e) code_unavailable).0 u) (rest h'))
      | inr u ↦ rw u (refused lo h h' e (none_yet lo h) l d r (ground arith))
    ]

pair_loop_from-Ends :
    (n i : ℕ) (w : Surroundings) (c : Client) (pr : PairRequest) (h : Hub)
    → Ends w c pr (i + n) i h (pair_loop_from n i w c pr h)
unfolding pair_loop_from
pair_loop_from-Ends zero i w c pr h =
    exhausted h (subst (λ k. Misses w c pr i h k h) (omega arith) (none_yet i h))
pair_loop_from-Ends (suc n) i w c pr h = elim (Bool-cases (w.done i)) [
  | inl d ↦ rw d (cancelled i h (none_yet i h) (omega arith) d)
  | inr d ↦ rw d (
      tried-Ends (λ h1. pair_loop_from n (i + 1) w c pr (w.asleep i h1)) w c pr (i + suc n) i h
        (try_pair_once c pr (w.new_id i) (w.now i) h) (omega arith) d refl
        (λ h1. shift (w.asleep i h1) (pair_loop_from-Ends n (i + 1) w c pr (w.asleep i h1))))
]
  where
    shift :
        (h1 : Hub) {out : Hub × List (ℕ × Outgoing)}
        → Ends w c pr (i + 1 + n) (i + 1) h1 out
        → Ends w c pr (i + suc n) (i + 1) h1 out
    shift h1 {out} e = subst (λ k. Ends w c pr k (i + 1) h1 out) (omega arith) e

pub pair_loop-Ends :
    (w : Surroundings) (c : Client) (pr : PairRequest) (h : Hub)
    → Ends w c pr 50 0 h (pair_loop w c pr h)
unfolding pair_loop
pair_loop-Ends w c pr h = pair_loop_from-Ends 50 0 w c pr h

-- Where the context is done at none of the 50 tries, the client gets one reply, a grant or an
-- error, and it is the first message sent.
pub pair_loop_replies :
    (w : Surroundings) (c : Client) (pr : PairRequest) (h : Hub)
    → ((k : ℕ) → k < 50 → w.done k ≡ false)
    → let out = (pair_loop w c pr h).1 in
      ((g : PairGrant) × (rest : List (ℕ × Outgoing)) × (out ≡ (c.conn, pair_grant g) ∷ rest))
      ⊎ ((n : ℕ) × (text : Text) × (out ≡ (c.conn, pair_error n text) ∷ []))
pair_loop_replies w c pr h live = reply (pair_loop-Ends w c pr h)
  where
    reply :
        {out : Hub × List (ℕ × Outgoing)}
        → Ends w c pr 50 0 h out
        → ((g : PairGrant) × (rest : List (ℕ × Outgoing)) × (out.1 ≡ (c.conn, pair_grant g) ∷ rest))
          ⊎ ((n : ℕ) × (text : Text) × (out.1 ≡ (c.conn, pair_error n text) ∷ []))
    reply (cancelled k h1 m l d) = absurd (ground (arith, live k))
    reply (granted k h1 h2 g m l d e) = inl (g, _, refl)
    reply (refused k h1 h2 e m l d t u) = inr (_, _, refl)
    reply (exhausted h1 m) = inr (_, _, refl)
