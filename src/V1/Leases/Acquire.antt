-- ===== src/V1/Leases/Acquire.antt =====
-- v1/control/port_manager.go: sweeps, and acquiring a lease.
use relay_x.Prelude.{
  ℕ, ◌<◌, ◌≡◌, refl, sym, ap, ◌∙◌, ◌⊎◌, inl, inr, Bool, true, false, Bool-cases, Option, none, some,
  List, [], ◌∷◌, Text, text_eq, text_eq_iff, arith, ==_iff, subst,
}
use relay_x.Prelude.Int.{ℤ, pos, negsuc, pos_part}
use relay_x.Prelude.Assoc.{lookup, insert, text_key, number_key, lookup-insert, lookup-delete}
use relay_x.Leases.{PortAcquire}
use relay_x.V1.Leases.{
  Reservation, PortManager, set_in, put_port, delete_found, expired, sweep_locked, is_free,
  pick_free_port, reservation_of, reserve, reserved, acquire_of, delete_reservation,
}
use relay_x.V1.Leases.Valid.{
  port_of, HasOnePort, holds, owned_by, owner_set, IsValid, lookup-put_port,
}
use relay_x.V1.Leases.Delete.{live_of, delete_found-IsValid}

pub expired-some :
    (now : ℕ) (q : Option Reservation) (r : Reservation) → expired now q ≡ some r → q ≡ some r
expired-some now none r h = cc
expired-some now (some q) r h = ground arith

pub sweep_locked-IsValid :
    (order : List Text) (now : ℕ) (pm : PortManager)
    → IsValid pm
    → IsValid (sweep_locked order now pm)
unfolding sweep_locked
sweep_locked-IsValid [] now pm v = v
sweep_locked-IsValid (sid ∷ order) now pm v =
    let found = expired now (lookup sid pm.by_session) in
    sweep_locked-IsValid order now (delete_found found pm) (
      delete_found-IsValid found pm
        (λ r e. live_of sid pm r v (expired-some now (lookup sid pm.by_session) r e)) v)

-- A new reservation of a port that no session has.
module _ (r : Reservation) (pm : PortManager) (v : IsValid pm) (one : HasOnePort r)
    (fresh : lookup r.session_id pm.by_session ≡ none)
    (free : lookup (port_of r) pm.by_port ≡ none) where
  sessions_kept :
      (s : Text) {q : Reservation}
      → lookup s (insert r.session_id r pm.by_session) ≡ some q
      → (q.session_id ≡ s)
        × HasOnePort q
        × (lookup
              (port_of q)
              (put_port r.srt_port r.session_id (put_port r.zmq_port r.session_id pm.by_port))
            ≡ some s)
  sessions_kept s {q} h = elim (Bool-cases (text_eq r.session_id s)) [
    | inl e ↦
        let same : r.session_id ≡ s = (text_eq_iff r.session_id s).0 e in
        let it : r ≡ q = ground (arith, lookup-insert r.session_id s r pm.by_session) in
        (
          sym (ap (λ x. x.session_id) it) ∙ same,
          subst HasOnePort it one,
          lookup-put_port r (port_of q) r.session_id pm.by_port one
              ∙ ground (arith, ==_iff (port_of r) (port_of q), ap port_of it),
        )
    | inr e ↦
        let before : lookup s pm.by_session ≡ some q =
          ground (arith, lookup-insert r.session_id s r pm.by_session) in
        let (f, o, g) = v.sessions s before in
        (
          f,
          o,
          lookup-put_port r (port_of q) r.session_id pm.by_port one
              ∙ ground (arith, ==_iff (port_of r) (port_of q), ap (λ p. lookup p pm.by_port)),
        )
  ]

  leases_kept :
      (p : ℕ) {s : Text}
      → lookup p (put_port r.srt_port r.session_id (put_port r.zmq_port r.session_id pm.by_port))
        ≡ some s
      → holds p (lookup s (insert r.session_id r pm.by_session)) ≡ true
  leases_kept p {s} h = ground (
    arith,
    lookup-put_port r p r.session_id pm.by_port one,
    lookup-insert r.session_id s r pm.by_session,
    text_eq_iff r.session_id s,
    v.leases p {s = s},
  )

  owners_kept :
      (o : ℕ) (s : Text)
      → lookup s (
          set_in
            (lookup o (insert r.owner (insert r.session_id tt (owner_set r.owner pm)) pm.by_owner)))
        ≡ owned_by o (lookup s (insert r.session_id r pm.by_session))
  owners_kept o s = ground (
    arith,
    lookup-insert r.owner o (insert r.session_id tt (owner_set r.owner pm)) pm.by_owner,
    lookup-insert r.session_id s tt (owner_set r.owner pm),
    lookup-insert r.session_id s r pm.by_session,
    text_eq_iff r.session_id s,
    ==_iff r.owner o,
    v.owners o s,
    v.owners r.owner s,
    fresh,
  )

  reserve-IsValid : IsValid (reserve r pm)
  unfolding reserve
  reserve-IsValid = record { sessions = sessions_kept; leases = leases_kept; owners = owners_kept }

-- Deleting takes no session in.
pub delete_found-none :
    (o : Option Reservation) (pm : PortManager) (s : Text)
    → lookup s pm.by_session ≡ none
    → lookup s (delete_found o pm).by_session ≡ none
unfolding delete_reservation
delete_found-none none pm s h = h
delete_found-none (some r) pm s h = ground (arith, lookup-delete r.session_id s pm.by_session)

sweep_locked-none :
    (order : List Text) (now : ℕ) (pm : PortManager) (s : Text)
    → lookup s pm.by_session ≡ none
    → lookup s (sweep_locked order now pm).by_session ≡ none
unfolding sweep_locked
sweep_locked-none [] now pm s h = h
sweep_locked-none (sid ∷ order) now pm s h =
    let found = expired now (lookup sid pm.by_session) in
    sweep_locked-none order now (delete_found found pm) s (delete_found-none found pm s h)

-- The first of the candidates that is positive, not leased and not busy.
abbrev pub FirstFree : (ℕ → Bool) → List ℤ → PortManager → Option ℕ → Type 0
FirstFree busy [] pm port = port ≡ none
FirstFree busy (p ∷ ps) pm port =
    ((is_free busy p pm ≡ true) × (port ≡ some (pos_part p)))
    ⊎ ((is_free busy p pm ≡ false) × FirstFree busy ps pm port)

pub pick_free_port-FirstFree :
    (busy : ℕ → Bool) (ps : List ℤ) (pm : PortManager)
    → FirstFree busy ps pm (pick_free_port busy ps pm)
unfolding pick_free_port
pick_free_port-FirstFree busy [] pm = refl
pick_free_port-FirstFree busy (p ∷ ps) pm = elim (Bool-cases (is_free busy p pm)) [
  | inl e ↦ rw e (inl (refl, refl))
  | inr e ↦ rw e (inr (refl, pick_free_port-FirstFree busy ps pm))
]

is_free-lookup :
    (busy : ℕ → Bool) (p : ℤ) (pm : PortManager)
    → is_free busy p pm ≡ true
    → (0 < pos_part p) × (lookup (pos_part p) pm.by_port ≡ none) × (busy (pos_part p) ≡ false)
unfolding is_free
is_free-lookup busy (pos n) pm h = (ground arith, ground arith, ground arith)
is_free-lookup busy (negsuc n) pm h = (ground arith, ground arith, ground arith)

pub FirstFree-lookup :
    (busy : ℕ → Bool) (ps : List ℤ) (pm : PortManager) (port : ℕ)
    → FirstFree busy ps pm (some port)
    → (0 < port) × (lookup port pm.by_port ≡ none) × (busy port ≡ false)
FirstFree-lookup busy [] pm port h = cc
FirstFree-lookup busy (p ∷ ps) pm port (inl (e, f)) =
    let same : port ≡ pos_part p = ground arith in rw same (is_free-lookup busy p pm e)
FirstFree-lookup busy (p ∷ ps) pm port (inr (e, f)) = FirstFree-lookup busy ps pm port f

pub reservation_of-HasOnePort :
    (o : ℕ) (req : PortAcquire) (port : ℕ) (sid : Text) (now : ℕ)
    → 0 < port
    → HasOnePort (reservation_of o req port sid now)
      × (port_of (reservation_of o req port sid now) ≡ port)
reservation_of-HasOnePort o req port sid now h = elim (Bool-cases req.need_zmq) [
  | inl e ↦ rw e (inl (h, refl), omega arith)
  | inr e ↦ rw e (inr (refl, h), omega arith)
]

module _ (o : ℕ) (req : PortAcquire) (order : List Text) (sid : Text) (now : ℕ) (busy : ℕ → Bool)
    (candidates : List ℤ) (none_left : Text) (pm : PortManager) where
  abbrev swept : PortManager
  swept = sweep_locked order now pm

  reserved-IsValid :
      (port : Option ℕ)
      → FirstFree busy candidates swept port
      → IsValid swept
      → lookup sid swept.by_session ≡ none
      → IsValid (reserved o req sid now none_left swept port).0
  reserved-IsValid none f v n = v
  reserved-IsValid (some port) f v n =
      let (p, l, b) = FirstFree-lookup busy candidates swept port f in
      let (one, e) = reservation_of-HasOnePort o req port sid now p in
      reserve-IsValid (reservation_of o req port sid now) swept v one n
        (ap (λ q. lookup q swept.by_port) e ∙ l)

pub acquire_of-IsValid :
    (refused : Option Text) (owner : Option ℕ) (req : PortAcquire) (order : List Text) (sid : Text)
    (now : ℕ) (busy : ℕ → Bool) (candidates : List ℤ) (none_left : Text) (pm : PortManager)
    → IsValid pm
    → lookup sid pm.by_session ≡ none
    → IsValid (acquire_of refused owner req order sid now busy candidates none_left pm).0
acquire_of-IsValid (some text) owner req order sid now busy candidates none_left pm v n = v
acquire_of-IsValid none none req order sid now busy candidates none_left pm v n = v
acquire_of-IsValid none (some o) req order sid now busy candidates none_left pm v n =
    reserved-IsValid o req order sid now busy candidates none_left pm
      (pick_free_port busy candidates (sweep_locked order now pm))
      (pick_free_port-FirstFree busy candidates (sweep_locked order now pm))
      (sweep_locked-IsValid order now pm v) (sweep_locked-none order now pm sid n)
