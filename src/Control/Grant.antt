-- ===== src/Control/Grant.antt =====
-- v4/control/server.go: what one try of a pairing does to the two port pools.
use relay_x.Prelude.{
  ℕ, ◌<◌, ◌≡◌, refl, ◌⊎◌, inl, inr, Bool, true, false, some, Text, arith, put, ◌==◌, if◌then◌else◌,
}
use relay_x.Errors.{Err, Result, ok, err, code, code_unavailable}
use relay_x.Status.{idle, reserved}
use relay_x.Ports.Defs.{Pool, release, reservation}
use relay_x.Ports.Valid.{Rising}
use relay_x.Ports.Valid
use relay_x.Ports.Reserve.{reserve_lem, release-reserve, Rising-elem}
use relay_x.Control.Protocol.{PairRequest, PairGrant}
use relay_x.Control.Hub.{Hub, Client}
use relay_x.Control.Pairing.{reserve_port, grant_of, pair_with}

-- How a pool gives a port to a session: not at all, or an idle port that becomes reserved.
abbrev pub Took : Bool → Text → Text → Text → ℕ → Pool → Pool → ℕ → Type 0
Took need session server client now p p' port =
    ((need ≡ false) × (p' ≡ p) × (port ≡ 0))
    ⊎ ((need ≡ true)
        × (0 < port)
        × (p.state port ≡ some idle)
        × (p' ≡ record p {
          state = put p.state port (some reserved);
          alloc = put p.alloc port (some (reservation p port session server client now));
        }))

module _ (session server client : Text) (now : ℕ) (p : Pool) (v : Valid.IsValid p) where
  reserve_port-Took :
      (need : Bool) (p' : Pool) (port : ℕ)
      → reserve_port need session server client now p ≡ (p', ok port)
      → Took need session server client now p p' port
  unfolding reserve_port
  reserve_port-Took false p' port h = inl (refl, ground arith, ground arith)
  reserve_port-Took true p' port h = elim (reserve_lem session server client now p v) [
    | inl (_, e) ↦ ground arith
    | inr (q, known, i, _, e) ↦
        inr
          (refl, ground (arith, Rising-elem 1 p.ports q v.rising known), ground arith, ground arith)
  ]

  reserve_port_failed :
      (need : Bool) (p' : Pool) (e : Err)
      → reserve_port need session server client now p ≡ (p', err e)
      → (p' ≡ p) × (code e ≡ code_unavailable)
  unfolding reserve_port code
  reserve_port_failed false p' e h = (cc, cc)
  reserve_port_failed true p' e h = elim (reserve_lem session server client now p v) [
    | inl (_, f) ↦ (ground arith, ground arith)
    | inr (q, _, i, _, f) ↦ (ground arith, ground arith)
  ]

  reserve_port_undone :
      (need : Bool) (p' : Pool) (port : ℕ)
      → reserve_port need session server client now p ≡ (p', ok port)
      → (if port == 0 then p' else (release port session p').0) ≡ p
  unfolding reserve_port
  reserve_port_undone false p' port h = ground arith
  reserve_port_undone true p' port h = elim (reserve_lem session server client now p v) [
    | inl (_, e) ↦ ground arith
    | inr (q, known, i, _, e) ↦ ground (
      arith,
      Rising-elem 1 p.ports q v.rising known,
      release-reserve session server client now p v e,
    )
  ]

-- What a successful try leaves: the pools with the ports of the grant reserved for it.
abbrev pub Granted : Client → Client → PairRequest → Text → ℕ → Hub → Hub → PairGrant → Type 0
Granted s c pr session now h h' g =
    (g ≡ grant_of s c pr session g.zmq_port g.srt_port)
    × Took pr.need_zmq session s.id c.id now h.zmq_pool h'.zmq_pool g.zmq_port
    × Took pr.need_srt session s.id c.id now h.srt_pool h'.srt_pool g.srt_port
    × ((pr.need_zmq ≡ true) ⊎ (pr.need_srt ≡ true))
    × (h' ≡ record h { zmq_pool = h'.zmq_pool; srt_pool = h'.srt_pool })

module _ (s c : Client) (pr : PairRequest) (session : Text) (now : ℕ) (h : Hub)
    (z : Valid.IsValid h.zmq_pool) (t : Valid.IsValid h.srt_pool) where
  zmq_step : Pool × Result ℕ
  zmq_step = reserve_port pr.need_zmq session s.id c.id now h.zmq_pool

  srt_step : Pool × Result ℕ
  srt_step = reserve_port pr.need_srt session s.id c.id now h.srt_pool

  Result-cases :
      (r : Pool × Result ℕ)
      → ((p : Pool) × (port : ℕ) × (r ≡ (p, ok port))) ⊎ ((p : Pool) × (e : Err) × (r ≡ (p, err e)))
  Result-cases (p, ok port) = inl (p, port, refl)
  Result-cases (p, err e) = inr (p, e, refl)

  pub pair_with_failed :
      (h' : Hub) (e : Err) → pair_with s c pr session now h ≡ (h', err e) → h' ≡ h
  unfolding pair_with zmq_step srt_step
  pair_with_failed h' e r = elim (Result-cases zmq_step) [
    | inr (p, f, a) ↦
        ground (arith, reserve_port_failed session s.id c.id now h.zmq_pool z pr.need_zmq p f a)
    | inl (p, port, a) ↦ elim (Result-cases srt_step) [
      | inr (q, f, b) ↦ ground (
        arith,
        reserve_port_undone session s.id c.id now h.zmq_pool z pr.need_zmq p port a,
        reserve_port_failed session s.id c.id now h.srt_pool t pr.need_srt q f b,
      )
      | inl (q, port2, b) ↦ ground (
        arith,
        reserve_port-Took session s.id c.id now h.zmq_pool z pr.need_zmq p port a,
        reserve_port-Took session s.id c.id now h.srt_pool t pr.need_srt q port2 b,
      )
    ]
  ]

  pub pair_with-Granted :
      (h' : Hub) (g : PairGrant)
      → pair_with s c pr session now h ≡ (h', ok g)
      → Granted s c pr session now h h' g
  unfolding pair_with zmq_step srt_step
  pair_with-Granted h' g r = elim (Result-cases zmq_step) [
    | inr (p, f, a) ↦ ground arith
    | inl (p, port, a) ↦ elim (Result-cases srt_step) [
      | inr (q, f, b) ↦ ground arith
      | inl (q, port2, b) ↦ ground (
        arith,
        reserve_port-Took session s.id c.id now h.zmq_pool z pr.need_zmq p port a,
        reserve_port-Took session s.id c.id now h.srt_pool t pr.need_srt q port2 b,
      )
    ]
  ]
