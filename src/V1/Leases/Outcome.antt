-- ===== src/V1/Leases/Outcome.antt =====
-- v1/control/port_manager.go: what an acquire gives on each of its branches.
use relay_x.Prelude.{
  ℕ, ◌≡◌, ◌≢◌, refl, sym, ap, ◌∙◌, ◌⊎◌, inl, inr, Bool, Bool-cases, Option, none, some, List, [],
  ◌∷◌, Text, text_eq, arith, if◌then◌else◌, codes,
}
use relay_x.Prelude.Int.{ℤ}
use relay_x.Prelude.Assoc.{lookup, text_key, number_key, lookup-insert, lookup-delete}
use relay_x.Errors.{Result, ok, err}
use relay_x.Leases.{PortAcquire, PortGrant}
use relay_x.V1.Leases.{
  Reservation, PortManager, delete_found, expired, sweep_locked, pick_free_port, refusal,
  reservation_of, grant_of, reserve, reserved, acquire_of, delete_reservation, acquire,
  acquire_from_ready,
}
use relay_x.V1.Leases.Acquire.{FirstFree, pick_free_port-FirstFree}

-- What an acquire gives: an error that changes nothing where the request is refused; an error after
-- the sweep where no candidate is free; or a lease, of the first free candidate.
abbrev pub Outcome :
    Option ℕ
    → PortAcquire
    → List Text
    → Text
    → ℕ
    → (ℕ → Bool)
    → List ℤ
    → PortManager
    → PortManager × Result PortGrant
    → Type 0
Outcome owner req order sid now busy candidates pm (qm, err e) =
    ((refusal owner req ≢ none) × (qm ≡ pm))
    ⊎ ((refusal owner req ≡ none)
        × (qm ≡ sweep_locked order now pm)
        × FirstFree busy candidates qm none)
Outcome owner req order sid now busy candidates pm (qm, ok g) =
    (o : ℕ) × (port : ℕ) × (owner ≡ some o)
    × (refusal owner req ≡ none)
    × FirstFree busy candidates (sweep_locked order now pm) (some port)
    × (qm ≡ reserve (reservation_of o req port sid now) (sweep_locked order now pm))
    × (g ≡ grant_of (reservation_of o req port sid now))

reserved-Outcome :
    (o : ℕ) (req : PortAcquire) (order : List Text) (sid : Text) (now : ℕ) (busy : ℕ → Bool)
    (candidates : List ℤ) (none_left : Text) (pm : PortManager) (port : Option ℕ)
    → refusal (some o) req ≡ none
    → FirstFree busy candidates (sweep_locked order now pm) port
    → Outcome
        (some o)
        req
        order
        sid
        now
        busy
        candidates
        pm
        (reserved o req sid now none_left (sweep_locked order now pm) port)
reserved-Outcome o req order sid now busy candidates none_left pm none r f = inr (r, refl, f)
reserved-Outcome o req order sid now busy candidates none_left pm (some port) r f =
    (o, port, refl, r, f, refl, refl)

acquire_of-Outcome :
    (refused : Option Text) (owner : Option ℕ) (req : PortAcquire) (order : List Text) (sid : Text)
    (now : ℕ) (busy : ℕ → Bool) (candidates : List ℤ) (none_left : Text) (pm : PortManager)
    → refusal owner req ≡ refused
    → Outcome owner req order sid now busy candidates pm
        (acquire_of refused owner req order sid now busy candidates none_left pm)
acquire_of-Outcome (some text) owner req order sid now busy candidates none_left pm e =
    inl (λ h. cc, refl)
acquire_of-Outcome none none req order sid now busy candidates none_left pm e = cc
acquire_of-Outcome none (some o) req order sid now busy candidates none_left pm e =
    reserved-Outcome o req order sid now busy candidates none_left pm
      (pick_free_port busy candidates (sweep_locked order now pm)) e
      (pick_free_port-FirstFree busy candidates (sweep_locked order now pm))

-- Both acquires refuse, fail or lease as `Outcome` says: one with the ports of the ranges as candidates,
-- the other with the ready ports of the relay, of the one kind that is asked for.
pub acquire-Outcome :
    (owner : Option ℕ) (req : PortAcquire) (order : List Text) (sid : Text) (now : ℕ)
    (busy : ℕ → Bool) (zmq_ready srt_ready : List ℤ) (pm : PortManager)
    → Outcome owner req order sid now busy
        (if req.need_zmq then pm.zmq_ports else pm.srt_ports)
        pm
        (acquire owner req order sid now busy pm)
      × Outcome owner req order sid now busy
          (if req.need_zmq then zmq_ready else srt_ready)
          pm
          (acquire_from_ready owner req order sid now busy zmq_ready srt_ready pm)
unfolding acquire acquire_from_ready
acquire-Outcome owner req order sid now busy zmq_ready srt_ready pm = (
  acquire_of-Outcome (refusal owner req) owner req order sid now busy
      (if req.need_zmq then pm.zmq_ports else pm.srt_ports)
      (if req.need_zmq then codes "无可用zmq端口" else codes "无可用srt端口") pm refl,
  acquire_of-Outcome (refusal owner req) owner req order sid now busy
      (if req.need_zmq then zmq_ready else srt_ready)
      (if req.need_zmq then codes "无可用已激活zmq端口" else codes "无可用已激活srt端口") pm refl,
)

delete_found_before :
    (o : Option Reservation) (pm : PortManager) (s : Text) (r : Reservation)
    → lookup s (delete_found o pm).by_session ≡ some r
    → lookup s pm.by_session ≡ some r
unfolding delete_reservation
delete_found_before none pm s r h = h
delete_found_before (some q) pm s r h = ground (arith, lookup-delete q.session_id s pm.by_session)

pub sweep_locked_before :
    (order : List Text) (now : ℕ) (pm : PortManager) (s : Text) (r : Reservation)
    → lookup s (sweep_locked order now pm).by_session ≡ some r
    → lookup s pm.by_session ≡ some r
unfolding sweep_locked
sweep_locked_before [] now pm s r h = h
sweep_locked_before (sid ∷ order) now pm s r h =
    let found = expired now (lookup sid pm.by_session) in
    delete_found_before found pm s r (sweep_locked_before order now (delete_found found pm) s r h)

-- A lease after an acquire was there before, or is its owner's.
pub Outcome-before :
    (c : ℕ) (req : PortAcquire) (order : List Text) (sid : Text) (now : ℕ) (busy : ℕ → Bool)
    (candidates : List ℤ) (pm : PortManager) (out : PortManager × Result PortGrant) (s : Text)
    (r : Reservation)
    → Outcome (some c) req order sid now busy candidates pm out
    → lookup s out.0.by_session ≡ some r
    → (lookup s pm.by_session ≡ some r) ⊎ (r.owner ≡ c)
unfolding reserve
Outcome-before c req order sid now busy candidates pm (qm, err e) s r (inl (n, k)) h =
    inl (ap (λ m. lookup s m.by_session) (sym k) ∙ h)
Outcome-before c req order sid now busy candidates pm (qm, err e) s r (inr (n, k, f)) h =
    inl (sweep_locked_before order now pm s r (ap (λ m. lookup s m.by_session) (sym k) ∙ h))
Outcome-before c req order sid now busy candidates pm (qm, ok g) s r (o, port, e, n, f, k, l) h =
    let swept = sweep_locked order now pm in
    let q = reservation_of o req port sid now in
    let found : (if text_eq sid s then some q else lookup s swept.by_session) ≡ some r =
      sym (lookup-insert sid s q swept.by_session) ∙ ap (λ m. lookup s m.by_session) (sym k) ∙ h in
    elim (Bool-cases (text_eq sid s)) [
      | inl t ↦ inr (ground arith)
      | inr t ↦ inl (sweep_locked_before order now pm s r (ground arith))
    ]
