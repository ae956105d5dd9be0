-- ===== src/V1/Leases/Delete.antt =====
-- v1/control/port_manager.go: deleting a reservation keeps the maps consistent.
use relay_x.Prelude.{
  ℕ, ◌≡◌, refl, ap, ◌∙◌, inl, inr, true, ◌&&◌, Bool-cases, Option, none, some, List, [], ◌∷◌, Text,
  text_eq, text_eq_iff, arith, ◌==◌, ==_iff, if◌then◌else◌,
}
use relay_x.Prelude.Assoc.{lookup, delete, text_key, number_key, lookup-insert, lookup-delete}
use relay_x.Leases.{is_empty}
use relay_x.V1.Leases.{
  Reservation, PortManager, Sids, set_in, drop_port, drop_sid, delete_reservation, delete_found,
}
use relay_x.V1.Leases.Valid.{port_of, HasOnePort, holds, owned_by, IsValid, lookup-drop_port}

lookup-is_empty : (s : Text) (set : Sids) → is_empty set ≡ true → lookup s set ≡ none
unfolding lookup
lookup-is_empty s [] h = refl
lookup-is_empty s ((k, v) ∷ set) h = cc

drop_sid_lem :
    (old : Option Sids) (a o : ℕ) (sid s : Text) (m : List (ℕ × Sids))
    → lookup a m ≡ old
    → lookup s (set_in (lookup o (drop_sid old a sid m)))
      ≡ (if a == o && text_eq sid s then none else lookup s (set_in (lookup o m)))
unfolding lookup
drop_sid_lem none a o sid s m e = ground (arith, ==_iff a o)
drop_sid_lem (some set) a o sid s m e = elim (Bool-cases (is_empty (delete sid set))) [
  | inl f ↦ rw f (
      ground (
        arith,
        ==_iff a o,
        lookup-delete a o m,
        lookup-delete sid s set,
        lookup-is_empty s (delete sid set) f,
      ))
  | inr f ↦
      rw f
        (ground (arith, ==_iff a o, lookup-insert a o (delete sid set) m, lookup-delete sid s set))
]

module _ (r : Reservation) (pm : PortManager) (v : IsValid pm)
    (live : lookup r.session_id pm.by_session ≡ some r) where
  one : HasOnePort r
  one = let (e, o, f) = v.sessions r.session_id live in o

  sessions_left :
      (s : Text) {q : Reservation}
      → lookup s (delete r.session_id pm.by_session) ≡ some q
      → (q.session_id ≡ s)
        × HasOnePort q
        × (lookup (port_of q) (drop_port r.srt_port (drop_port r.zmq_port pm.by_port)) ≡ some s)
  sessions_left s {q} h =
      let before : lookup s pm.by_session ≡ some q =
        ground (arith, lookup-delete r.session_id s pm.by_session) in
      let (e, o, f) = v.sessions s before in
      (
        e,
        o,
        ground (
          arith,
          lookup-delete r.session_id s pm.by_session,
          lookup-drop_port r (port_of q) pm.by_port one,
          text_eq_iff r.session_id s,
          ==_iff (port_of r) (port_of q),
          v.sessions r.session_id live,
        ),
      )

  leases_left :
      (p : ℕ) {s : Text}
      → lookup p (drop_port r.srt_port (drop_port r.zmq_port pm.by_port)) ≡ some s
      → holds p (lookup s (delete r.session_id pm.by_session)) ≡ true
  leases_left p {s} h = ground (
    arith,
    lookup-delete r.session_id s pm.by_session,
    lookup-drop_port r p pm.by_port one,
    text_eq_iff r.session_id s,
    ==_iff (port_of r) p,
    v.leases p {s = s},
    ap (lookup s) refl,
    live,
  )

  owners_left :
      (o : ℕ) (s : Text)
      → lookup s (
          set_in
            (lookup o (drop_sid (lookup r.owner pm.by_owner) r.owner r.session_id pm.by_owner)))
        ≡ owned_by o (lookup s (delete r.session_id pm.by_session))
  owners_left o s =
      drop_sid_lem (lookup r.owner pm.by_owner) r.owner o r.session_id s pm.by_owner refl
      ∙ ground (
        arith,
        lookup-delete r.session_id s pm.by_session,
        text_eq_iff r.session_id s,
        ==_iff r.owner o,
        v.owners o s,
        live,
      )

  pub delete_reservation-IsValid : IsValid (delete_reservation r pm)
  unfolding delete_reservation
  delete_reservation-IsValid = record {
    sessions = sessions_left;
    leases = leases_left;
    owners = owners_left;
  }

pub live_of :
    (sid : Text) (pm : PortManager) (r : Reservation)
    → IsValid pm
    → lookup sid pm.by_session ≡ some r
    → lookup r.session_id pm.by_session ≡ some r
live_of sid pm r v e = ap (λ s. lookup s pm.by_session) (v.sessions sid e).0 ∙ e

pub delete_found-IsValid :
    (o : Option Reservation) (pm : PortManager)
    → ((r : Reservation) → o ≡ some r → lookup r.session_id pm.by_session ≡ some r)
    → IsValid pm
    → IsValid (delete_found o pm)
delete_found-IsValid none pm f v = v
delete_found-IsValid (some r) pm f v = delete_reservation-IsValid r pm v (f r refl)
