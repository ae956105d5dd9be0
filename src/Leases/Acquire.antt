-- ===== src/Leases/Acquire.antt =====
-- v3/control/port_manager.go: acquiring a lease with nothing in between.
use relay_x.Prelude.{
  ℕ, ◌≡◌, refl, ap, ◌∙◌, ◌⊎◌, inl, inr, true, false, ◌&&◌, Bool-cases, Option, none, some, List, [],
  ◌∷◌, Text, text_eq, text_eq_iff, arith, ==_iff, if◌then◌else◌,
}
use relay_x.Prelude.Assoc.{lookup, insert, text_key, number_key, lookup-insert}
use relay_x.Errors.{Result, ok, err}
use relay_x.Leases.{
  Reservation, PortManager, PortAcquire, PortGrant, set_in, is_port_available, reservation_of,
  put_owned, reserve_port, scan, acquired, or_acquire, acquire, acquire_from_ready,
}
use relay_x.Leases.Valid.{owns, owned_by, IsValid}

put_owned_lem :
    (owner : Option ℕ) (o : ℕ) (sid s : Text) (r : Reservation)
    (m : List (ℕ × List (Text × Reservation)))
    → lookup s (set_in (lookup o (put_owned owner sid r m)))
      ≡ (if owns o owner && text_eq sid s then some r else lookup s (set_in (lookup o m)))
put_owned_lem none o sid s r m = refl
put_owned_lem (some a) o sid s r m = ground (
  arith,
  ==_iff a o,
  lookup-insert a o (insert sid r (set_in (lookup a m))) m,
  lookup-insert sid s r (set_in (lookup a m)),
)

module _ (owner : Option ℕ) (req : PortAcquire) (port : ℕ) (sid : Text) (now : ℕ) (pm : PortManager)
    (v : IsValid pm) (fresh : lookup sid pm.by_session ≡ none)
    (free : lookup port pm.by_port ≡ none) where
  sessions_kept :
      (s : Text) {q : Reservation}
      → lookup s (insert sid (reservation_of owner req port sid now) pm.by_session) ≡ some q
      → (q.session_id ≡ s)
        × (lookup q.port (insert port (reservation_of owner req port sid now) pm.by_port) ≡ some q)
  sessions_kept s {q} h = ground (
    arith,
    lookup-insert sid s (reservation_of owner req port sid now) pm.by_session,
    lookup-insert port q.port (reservation_of owner req port sid now) pm.by_port,
    text_eq_iff sid s,
    ==_iff port q.port,
    v.sessions s {r = q},
  )

  leases_kept :
      (p : ℕ) {q : Reservation}
      → lookup p (insert port (reservation_of owner req port sid now) pm.by_port) ≡ some q
      → (q.port ≡ p)
        × (lookup q.session_id (insert sid (reservation_of owner req port sid now) pm.by_session)
            ≡ some q)
  leases_kept p {q} h = ground (
    arith,
    lookup-insert port p (reservation_of owner req port sid now) pm.by_port,
    lookup-insert sid q.session_id (reservation_of owner req port sid now) pm.by_session,
    text_eq_iff sid q.session_id,
    ==_iff port p,
    v.leases p {r = q},
  )

  owners_kept :
      (o : ℕ) (s : Text)
      → lookup s (
          set_in
            (lookup o (put_owned owner sid (reservation_of owner req port sid now) pm.by_owner)))
        ≡ owned_by o (lookup s (insert sid (reservation_of owner req port sid now) pm.by_session))
  owners_kept o s =
      put_owned_lem owner o sid s (reservation_of owner req port sid now) pm.by_owner
      ∙ ground (
        arith,
        lookup-insert sid s (reservation_of owner req port sid now) pm.by_session,
        text_eq_iff sid s,
        v.owners o s,
      )

  reserve_port-IsValid : IsValid (reserve_port owner req port sid now pm).0
  unfolding reserve_port
  reserve_port-IsValid = record {
    sessions = sessions_kept;
    leases = leases_kept;
    owners = owners_kept;
  }

-- Nobody does anything between the locks of an acquire.
abbrev pub quiet : ℕ → PortManager → PortManager
quiet port pm = pm

abbrev pub AllLeased : PortManager → List ℕ → Type 0
AllLeased pm [] = Unit {0}
AllLeased pm (p ∷ ps) = (is_port_available p pm ≡ false) × AllLeased pm ps

-- The first of the ports that is not leased.
abbrev pub FirstFree : PortManager → List ℕ → ℕ → Type 0
FirstFree pm [] port = ⊥
FirstFree pm (p ∷ ps) port =
    ((p ≡ port) × (is_port_available port pm ≡ true))
    ⊎ ((is_port_available p pm ≡ false) × FirstFree pm ps port)

module _ (owner : Option ℕ) (req : PortAcquire) (sid : Text) (now : ℕ) (pm : PortManager) where
  -- What a scan of some ports gives.
  abbrev pub Scanned : List ℕ → PortManager × Option PortGrant → Type 0
  Scanned ports (qm, none) = AllLeased pm ports × (qm ≡ pm)
  Scanned ports (qm, some g) =
      (port : ℕ) × FirstFree pm ports port × ((qm, g) ≡ reserve_port owner req port sid now pm)

  later-Scanned :
      (p : ℕ) (ps : List ℕ) (out : PortManager × Option PortGrant)
      → is_port_available p pm ≡ false
      → Scanned ps out
      → Scanned (p ∷ ps) out
  later-Scanned p ps (qm, none) e h = ((e, h.0), h.1)
  later-Scanned p ps (qm, some g) e (port, f, r) = (port, inr (e, f), r)

  scan-Scanned : (ports : List ℕ) → Scanned ports (scan quiet ports owner req sid now pm)
  unfolding scan
  scan-Scanned [] = (tt, refl)
  scan-Scanned (p ∷ ps) = elim (Bool-cases (is_port_available p pm)) [
    | inl e ↦ rw e (p, inl (refl, e), refl)
    | inr e ↦ rw e (later-Scanned p ps (scan quiet ps owner req sid now pm) e (scan-Scanned ps))
  ]

  -- What an acquire from the two lists of ports gives.
  abbrev pub Acquired : List ℕ → List ℕ → PortManager × Result PortGrant → Type 0
  Acquired ready empty (qm, err e) = AllLeased pm ready × AllLeased pm empty × (qm ≡ pm)
  Acquired ready empty (qm, ok g) =
      (port : ℕ) × (FirstFree pm ready port ⊎ (AllLeased pm ready × FirstFree pm empty port))
      × ((qm, g) ≡ reserve_port owner req port sid now pm)

  empty-Acquired :
      (ready empty : List ℕ) (out : PortManager × Option PortGrant)
      → AllLeased pm ready
      → Scanned empty out
      → Acquired ready empty (acquired out)
  empty-Acquired ready empty (qm, none) h (a, e) = (h, a, e)
  empty-Acquired ready empty (qm, some g) h (port, f, e) = (port, inr (h, f), e)

  ready-Acquired :
      (ready empty : List ℕ) (out : PortManager × Option PortGrant)
      → Scanned ready out
      → Acquired ready empty (or_acquire (acquire quiet empty owner req sid now) out)
  unfolding acquire
  ready-Acquired ready empty (qm, none) (h, e) =
      rw e
        (empty-Acquired ready empty (scan quiet empty owner req sid now pm) h (scan-Scanned empty))
  ready-Acquired ready empty (qm, some g) (port, f, e) = (port, inl f, e)

  -- With nothing in between, an acquire leases the first port that is not leased, of the ports with a
  -- connection that waits, and where these are all leased of the ports without one; only where all
  -- are leased it fails, and then it changes nothing.
  pub acquire_from_ready_lem :
      (ready empty : List ℕ)
      → Acquired ready empty (acquire_from_ready quiet ready empty owner req sid now pm)
  unfolding acquire_from_ready
  acquire_from_ready_lem ready empty =
      ready-Acquired ready empty (scan quiet ready owner req sid now pm) (scan-Scanned ready)

FirstFree-free :
    (pm : PortManager) (ports : List ℕ) (port : ℕ)
    → FirstFree pm ports port
    → is_port_available port pm ≡ true
FirstFree-free pm [] port h = absurd h
FirstFree-free pm (p ∷ ps) port (inl (e, h)) = h
FirstFree-free pm (p ∷ ps) port (inr (e, h)) = FirstFree-free pm ps port h

not_leased :
    (port : ℕ) (pm : PortManager) → is_port_available port pm ≡ true → lookup port pm.by_port ≡ none
unfolding is_port_available
not_leased port pm h = ground arith

free_port :
    (pm : PortManager) (ready empty : List ℕ) (port : ℕ)
    → FirstFree pm ready port ⊎ (AllLeased pm ready × FirstFree pm empty port)
    → lookup port pm.by_port ≡ none
free_port pm ready empty port (inl f) = not_leased port pm (FirstFree-free pm ready port f)
free_port pm ready empty port (inr (a, f)) = not_leased port pm (FirstFree-free pm empty port f)

Acquired-IsValid :
    (owner : Option ℕ) (req : PortAcquire) (sid : Text) (now : ℕ) (pm : PortManager)
    (ready empty : List ℕ) (out : PortManager × Result PortGrant)
    → IsValid pm
    → lookup sid pm.by_session ≡ none
    → Acquired owner req sid now pm ready empty out
    → IsValid out.0
Acquired-IsValid owner req sid now pm ready empty (qm, err e) v f (a, b, c) = rw c v
Acquired-IsValid owner req sid now pm ready empty (qm, ok g) v f (port, h, e) =
    rw (ap (λ t. t.0) e)
      (reserve_port-IsValid owner req port sid now pm v f (free_port pm ready empty port h))

pub acquire-IsValid :
    (owner : Option ℕ) (req : PortAcquire) (sid : Text) (now : ℕ) (pm : PortManager)
    (ready empty : List ℕ)
    → IsValid pm
    → lookup sid pm.by_session ≡ none
    → IsValid (acquire_from_ready quiet ready empty owner req sid now pm).0
acquire-IsValid owner req sid now pm ready empty v f =
    Acquired-IsValid owner req sid now pm ready empty
      (acquire_from_ready quiet ready empty owner req sid now pm) v f
      (acquire_from_ready_lem owner req sid now pm ready empty)
