-- ===== src/Control/Kept.antt =====
-- v4/control/server.go: a try of a pairing changes the port pools alone, and keeps them valid.
use relay_x.Prelude.{ℕ, ◌≡◌, refl, Bool, true, false, ◌&&◌, List, [], ◌∷◌, Text, ◌==◌, if_both}
use relay_x.Prelude.Assoc.{text_key, number_key}
use relay_x.Errors.{Result, ok, err}
use relay_x.Ports.Defs.{Pool, Allocation, reserve}
use relay_x.Ports.Valid as Ports
use relay_x.Ports.Valid.{reserve-IsValid, release-IsValid}
use relay_x.Control.Protocol.{PairRequest, PairGrant}
use relay_x.Control.Hub.{Hub, Client}
use relay_x.Control.Pairing.{
  Candidate, taken, reserve_port, srt_reserved, zmq_reserved, pair_with, pair_best, pair_among,
  try_pair_once, eligible, candidates, sort_candidates,
}
use relay_x.Control.Register as Maps
use relay_x.Control.Register.{register-IsValid, unregister-IsValid, validate_and_register_iff}

-- The hub with other pools, which are valid.
pub record Kept (h h' : Hub) : Type 0 where
  pub same : h' ≡ record h { zmq_pool = h'.zmq_pool; srt_pool = h'.srt_pool }
  pub zmq : Ports.IsValid h'.zmq_pool
  pub srt : Ports.IsValid h'.srt_pool

taken-pool : (r : Pool × Result Allocation) → (taken r).0 ≡ r.0
taken-pool (q, ok a) = refl
taken-pool (q, err e) = refl

reserve_port-IsValid :
    (need : Bool) (session server client : Text) (now : ℕ) (p : Pool)
    → Ports.IsValid p
    → Ports.IsValid (reserve_port need session server client now p).0
unfolding reserve_port
reserve_port-IsValid false session server client now p v = v
reserve_port-IsValid true session server client now p v =
    rw (taken-pool (reserve session server client now p))
      (reserve-IsValid session server client now p v)

srt_reserved-Kept :
    (s c : Client) (pr : PairRequest) (session : Text) (port : ℕ) (z : Pool) (r : Pool × Result ℕ)
    (h : Hub)
    → Ports.IsValid z
    → Ports.IsValid r.0
    → Kept h (srt_reserved s c pr session port z r h).0
srt_reserved-Kept s c pr session port z (q, err e) h v w = record {
  same = refl;
  zmq = if_both Ports.IsValid (port == 0) v (release-IsValid port session z v);
  srt = w;
}
srt_reserved-Kept s c pr session port z (q, ok n) h v w =
    if_both (λ (t : Hub × Result PairGrant). Kept h t.0) (port == 0 && n == 0)
      (record { same = refl; zmq = v; srt = w }) (record { same = refl; zmq = v; srt = w })

zmq_reserved-Kept :
    (s c : Client) (pr : PairRequest) (session : Text) (now : ℕ) (r : Pool × Result ℕ) (h : Hub)
    → Ports.IsValid r.0
    → Ports.IsValid h.srt_pool
    → Kept h (zmq_reserved s c pr session now r h).0
zmq_reserved-Kept s c pr session now (z, err e) h v w = record { same = refl; zmq = v; srt = w }
zmq_reserved-Kept s c pr session now (z, ok port) h v w =
    srt_reserved-Kept s c pr session port z
      (reserve_port pr.need_srt session s.id c.id now h.srt_pool) h v
      (reserve_port-IsValid pr.need_srt session s.id c.id now h.srt_pool w)

module _ (c : Client) (pr : PairRequest) (session : Text) (now : ℕ) (h : Hub)
    (z : Ports.IsValid h.zmq_pool) (t : Ports.IsValid h.srt_pool) where
  pair_best-Kept : (cs : List Candidate) → Kept h (pair_best cs c pr session now h).0
  unfolding pair_with
  pair_best-Kept [] = record { same = refl; zmq = z; srt = t }
  pair_best-Kept (best ∷ rest) =
      zmq_reserved-Kept best.server c pr session now
        (reserve_port pr.need_zmq session best.server.id c.id now h.zmq_pool) h
        (reserve_port-IsValid pr.need_zmq session best.server.id c.id now h.zmq_pool z) t

  pair_among-Kept : (ss : List Client) → Kept h (pair_among ss c pr session now h).0
  pair_among-Kept [] = record { same = refl; zmq = z; srt = t }
  pair_among-Kept (s ∷ ss) = pair_best-Kept (sort_candidates (candidates h (s ∷ ss)))

  pub try_pair_once-Kept : Kept h (try_pair_once c pr session now h).0
  unfolding try_pair_once
  try_pair_once-Kept = pair_among-Kept (eligible pr h)

-- Other pools change nothing of the maps.
pub Kept-IsValid : (h h' : Hub) → Kept h h' → Maps.IsValid h → Maps.IsValid h'
Kept-IsValid h h' k v =
    rw k.same (record { bounded = v.bounded; servers = v.servers; fe = v.fe; clients = v.clients })
