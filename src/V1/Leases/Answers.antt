-- ===== src/V1/Leases/Answers.antt =====
-- v1/control/port_manager.go: what an acquire answers, and what it leaves of the leases.
use relay_x.Prelude.{
  true, ◌∙◌, not, ◌&&◌, ℕ, ◌+◌, ◌<◌, ◌≡◌, ◌≢◌, refl, ◌⊎◌, inl, inr, Bool, false, Option, none, some,
  List, [], ◌∷◌, Text, text_eq, text_eq_iff, arith, ◌==◌, ==_iff, if◌then◌else◌,
}
use relay_x.Prelude.Int.{ℤ, pos, negsuc, pos_part, ltb_ℤ}
use relay_x.Prelude.Assoc.{lookup, insert, text_key, number_key, lookup-insert}
use relay_x.Errors.{Result, ok, err}
use relay_x.Leases.{PortAcquire, PortGrant, present}
use relay_x.V1.Leases.{
  is_free, Reservation, PortManager, sweep_locked, refusal, reservation_of, grant_of, reserve,
  acquire, acquire_from_ready, ttl_of,
}
use relay_x.V1.Leases.Valid.{IsValid, owner_set, lookup-put_port}
use relay_x.V1.Leases.Acquire.{FirstFree, FirstFree-lookup, reservation_of-HasOnePort}
use relay_x.V1.Leases.Sweeping.{IsSwept, among, sweep_locked-IsSwept}
use relay_x.V1.Leases.Outcome.{Outcome, acquire-Outcome}

-- A candidate that is a port, not leased and not busy.
abbrev pub is_open : (ℕ → Bool) → ℤ → PortManager → Bool
is_open busy p pm =
    ltb_ℤ (pos 0) p && not (present (lookup (pos_part p) pm.by_port)) && not (busy (pos_part p))

-- The first candidate that is open.
abbrev pub FirstOpen : (ℕ → Bool) → List ℤ → PortManager → Option ℕ → Type 0
FirstOpen busy [] pm port = port ≡ none
FirstOpen busy (p ∷ ps) pm port =
    ((is_open busy p pm ≡ true) × (port ≡ some (pos_part p)))
    ⊎ ((is_open busy p pm ≡ false) × FirstOpen busy ps pm port)

is_free-is_open :
    (busy : ℕ → Bool) (p : ℤ) (pm : PortManager) → is_open busy p pm ≡ is_free busy p pm
unfolding is_free
is_free-is_open busy (pos n) pm = ground arith
is_free-is_open busy (negsuc n) pm = ground arith

FirstFree-FirstOpen :
    (busy : ℕ → Bool) (ps : List ℤ) (pm : PortManager) (port : Option ℕ)
    → FirstFree busy ps pm port
    → FirstOpen busy ps pm port
FirstFree-FirstOpen busy [] pm port h = h
FirstFree-FirstOpen busy (p ∷ ps) pm port (inl (e, f)) = inl (is_free-is_open busy p pm ∙ e, f)
FirstFree-FirstOpen busy (p ∷ ps) pm port (inr (e, f)) =
    inr (is_free-is_open busy p pm ∙ e, FirstFree-FirstOpen busy ps pm port f)

-- A lease of a port for a request, until the time it was asked at and its time to live.
abbrev pub lease : ℕ → PortAcquire → ℕ → Text → ℕ → Reservation
lease o req port sid now = record {
  owner = o;
  request_id = req.request_id;
  session_id = sid;
  zmq_port = if req.need_zmq then port else 0;
  srt_port = if req.need_zmq then 0 else port;
  expires_at = now + ttl_of req.ttl_seconds;
}

-- One more lease than before, which is found by its session, its port and its owner, and is the grant.
pub record IsLeased (o : ℕ) (req : PortAcquire) (port : ℕ) (sid : Text) (now : ℕ)
    (before after : PortManager) (g : PortGrant) : Type 0 where
  pub sessions :
      (s : Text)
      → lookup s after.by_session
        ≡ (if text_eq sid s then some (lease o req port sid now) else lookup s before.by_session)
  pub ports :
      (q : ℕ) → lookup q after.by_port ≡ (if port == q then some sid else lookup q before.by_port)
  pub owned : lookup sid (owner_set o after) ≡ some tt
  pub request : g.request_id ≡ req.request_id
  pub session : g.session_id ≡ sid
  pub zmq_port : g.zmq_port ≡ (if req.need_zmq then port else 0)
  pub srt_port : g.srt_port ≡ (if req.need_srt then port else 0)
  pub expires_at : g.expires_at ≡ pos (now + ttl_of req.ttl_seconds)

-- A request is answered with an error, which changes nothing where nobody asks, or not for one kind of port;
-- else the leases that have run out go, and it gets the first candidate that is free, or an error where none
-- is.
abbrev pub Answer :
    Option ℕ
    → PortAcquire
    → Text
    → ℕ
    → (ℕ → Bool)
    → List ℤ
    → PortManager
    → PortManager × Result PortGrant
    → Type 0
Answer owner req sid now busy candidates pm (qm, err e) =
    (((owner ≡ none) ⊎ (req.need_zmq ≡ req.need_srt)) × (qm ≡ pm))
    ⊎ ((owner ≢ none)
        × (req.need_zmq ≢ req.need_srt)
        × IsSwept now pm qm
        × FirstOpen busy candidates qm none)
Answer owner req sid now busy candidates pm (qm, ok g) =
    (o : ℕ) × (port : ℕ) × (swept : PortManager) × (owner ≡ some o)
    × (req.need_zmq ≢ req.need_srt)
    × IsSwept now pm swept
    × FirstOpen busy candidates swept (some port)
    × IsLeased o req port sid now swept qm g

refusal-some :
    (owner : Option ℕ) (req : PortAcquire)
    → refusal owner req ≢ none
    → (owner ≡ none) ⊎ (req.need_zmq ≡ req.need_srt)
refusal-some none req h = inl refl
refusal-some (some o) req h = inr (ground arith)

refusal-none :
    (owner : Option ℕ) (req : PortAcquire)
    → refusal owner req ≡ none
    → (owner ≢ none) × (req.need_zmq ≢ req.need_srt)
refusal-none none req h = cc
refusal-none (some o) req h = (λ e. cc, λ e. ground arith)

reserve-IsLeased :
    (o : ℕ) (req : PortAcquire) (port : ℕ) (sid : Text) (now : ℕ) (pm : PortManager)
    → 0 < port
    → req.need_zmq ≢ req.need_srt
    → IsLeased o req port sid now pm
        (reserve (reservation_of o req port sid now) pm)
        (grant_of (reservation_of o req port sid now))
unfolding reserve
reserve-IsLeased o req port sid now pm h n =
    let r = reservation_of o req port sid now in
    let (one, e) = reservation_of-HasOnePort o req port sid now h in
    record {
      sessions = λ s. lookup-insert sid s r pm.by_session;
      ports = λ q. ground (arith, lookup-put_port r q sid pm.by_port one, e);
      owned = ground (
        arith,
        lookup-insert o o (insert sid tt (owner_set o pm)) pm.by_owner,
        lookup-insert sid sid tt (owner_set o pm),
        text_eq_iff sid sid,
        ==_iff o o,
      );
      request = refl;
      session = refl;
      zmq_port = refl;
      srt_port = ground (arith, n);
      expires_at = refl;
    }

module _ (owner : Option ℕ) (req : PortAcquire) (order : List Text) (sid : Text) (now : ℕ)
    (busy : ℕ → Bool) (pm : PortManager) (v : IsValid pm)
    (every : (s : Text) → among s order ≡ false → lookup s pm.by_session ≡ none) where
  Outcome-Answer :
      (candidates : List ℤ) (out : PortManager × Result PortGrant)
      → Outcome owner req order sid now busy candidates pm out
      → Answer owner req sid now busy candidates pm out
  Outcome-Answer candidates (qm, err e) (inl (r, k)) = inl (refusal-some owner req r, k)
  Outcome-Answer candidates (qm, err e) (inr (r, k, f)) =
      let (n, m) = refusal-none owner req r in
      inr (
        n,
        m,
        rw k (sweep_locked-IsSwept order now pm v every),
        FirstFree-FirstOpen busy candidates qm none f,
      )
  Outcome-Answer candidates (qm, ok g) (o, port, e, r, f, k, l) =
      let swept = sweep_locked order now pm in
      let (n, m) = refusal-none owner req r in
      (
        o,
        port,
        swept,
        e,
        m,
        sweep_locked-IsSwept order now pm v every,
        FirstFree-FirstOpen busy candidates swept (some port) f,
        rw k (
            rw l (
              reserve-IsLeased o req port sid now swept
                (FirstFree-lookup busy candidates swept port f).0 m)),
      )

  -- Both acquires answer as `Answer` says, where the maps of the leases agree and the sweep visits every
  -- session: one with the ports of the ranges as candidates, the other with the ready ports of the relay, of
  -- the one kind that is asked for.
  pub acquire_lem :
      (zmq_ready srt_ready : List ℤ)
      → Answer owner req sid now busy
          (if req.need_zmq then pm.zmq_ports else pm.srt_ports)
          pm
          (acquire owner req order sid now busy pm)
        × Answer owner req sid now busy
            (if req.need_zmq then zmq_ready else srt_ready)
            pm
            (acquire_from_ready owner req order sid now busy zmq_ready srt_ready pm)
  acquire_lem zmq_ready srt_ready =
      let (ranged, ready) = acquire-Outcome owner req order sid now busy zmq_ready srt_ready pm in
      (Outcome-Answer _ _ ranged, Outcome-Answer _ _ ready)
