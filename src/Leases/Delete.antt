-- ===== src/Leases/Delete.antt =====
-- v3/control/port_manager.go: deleting reservations keeps the three maps consistent.
use relay_x.Prelude.{
  ℕ, ◌≡◌, refl, sym, ap, ◌∙◌, inl, inr, true, ◌&&◌, Bool-cases, Option, none, some, List, [], ◌∷◌,
  Text, text_eq, text_eq_iff, arith, ◌==◌, ==_iff, if◌then◌else◌,
}
use relay_x.Prelude.Assoc.{lookup, delete, text_key, number_key, lookup-insert, lookup-delete}
use relay_x.Leases.{
  Reservation, PortManager, owner_set, set_in, drop_from, drop_owned, is_empty, delete_reservation,
  delete_found, release, released, release_all_for_owner, expired, sweep, foreign,
}
use relay_x.Leases.Valid.{owns, owned_by, IsValid}

abbrev Sets : Type 0
Sets = List (ℕ × List (Text × Reservation))

lookup-is_empty :
    (s : Text) (set : List (Text × Reservation)) → is_empty set ≡ true → lookup s set ≡ none
unfolding lookup
lookup-is_empty s [] h = refl
lookup-is_empty s ((k, v) ∷ set) h = cc

drop_from_lem :
    (old : Option (List (Text × Reservation))) (a o : ℕ) (sid s : Text) (m : Sets)
    → lookup a m ≡ old
    → lookup s (set_in (lookup o (drop_from old a sid m)))
      ≡ (if a == o && text_eq sid s then none else lookup s (set_in (lookup o m)))
unfolding lookup
drop_from_lem none a o sid s m e = ground (arith, ==_iff a o)
drop_from_lem (some set) a o sid s m e = elim (Bool-cases (is_empty (delete sid set))) [
  | inl f ↦ rw f (
      ground (
        arith,
        ==_iff a o,
        lookup-delete a o m,
        lookup-delete sid s set,
        lookup-is_empty s (delete sid set) f,
      ))
  | inr f ↦
      rw f
        (ground (arith, ==_iff a o, lookup-insert a o (delete sid set) m, lookup-delete sid s set))
]

drop_owned_lem :
    (owner : Option ℕ) (o : ℕ) (sid s : Text) (m : Sets)
    → lookup s (set_in (lookup o (drop_owned owner sid m)))
      ≡ (if owns o owner && text_eq sid s then none else lookup s (set_in (lookup o m)))
drop_owned_lem none o sid s m = refl
drop_owned_lem (some a) o sid s m = drop_from_lem (lookup a m) a o sid s m refl

module _ (r : Reservation) (pm : PortManager) (v : IsValid pm)
    (live : lookup r.session_id pm.by_session ≡ some r) where
  sessions_left :
      (s : Text) {q : Reservation}
      → lookup s (delete r.session_id pm.by_session) ≡ some q
      → (q.session_id ≡ s) × (lookup q.port (delete r.port pm.by_port) ≡ some q)
  sessions_left s {q} h = ground (
    arith,
    lookup-delete r.session_id s pm.by_session,
    lookup-delete r.port q.port pm.by_port,
    text_eq_iff r.session_id s,
    ==_iff r.port q.port,
    v.sessions s {r = q},
    v.sessions r.session_id {r = r},
  )

  leases_left :
      (p : ℕ) {q : Reservation}
      → lookup p (delete r.port pm.by_port) ≡ some q
      → (q.port ≡ p) × (lookup q.session_id (delete r.session_id pm.by_session) ≡ some q)
  leases_left p {q} h = ground (
    arith,
    lookup-delete r.port p pm.by_port,
    lookup-delete r.session_id q.session_id pm.by_session,
    text_eq_iff r.session_id q.session_id,
    ==_iff r.port p,
    v.leases p {r = q},
    v.sessions r.session_id {r = r},
  )

  owners_left :
      (o : ℕ) (s : Text)
      → lookup s (set_in (lookup o (drop_owned r.owner r.session_id pm.by_owner)))
        ≡ owned_by o (lookup s (delete r.session_id pm.by_session))
  owners_left o s =
      drop_owned_lem r.owner o r.session_id s pm.by_owner
      ∙ ground (
        arith,
        lookup-delete r.session_id s pm.by_session,
        text_eq_iff r.session_id s,
        v.owners o s,
      )

  pub delete_reservation-IsValid : IsValid (delete_reservation r pm)
  unfolding delete_reservation
  delete_reservation-IsValid = record {
    sessions = sessions_left;
    leases = leases_left;
    owners = owners_left;
  }

pub live_of :
    (sid : Text) (pm : PortManager) (r : Reservation)
    → IsValid pm
    → lookup sid pm.by_session ≡ some r
    → lookup r.session_id pm.by_session ≡ some r
live_of sid pm r v e = ap (λ s. lookup s pm.by_session) (v.sessions sid e).0 ∙ e

pub owned_by-some :
    (o : ℕ) (q : Option Reservation) (r : Reservation) → owned_by o q ≡ some r → q ≡ some r
owned_by-some o none r h = cc
owned_by-some o (some q) r h = ground arith

pub expired-some :
    (now : ℕ) (q : Option Reservation) (r : Reservation) → expired now q ≡ some r → q ≡ some r
expired-some now none r h = cc
expired-some now (some q) r h = ground arith

pub release-IsValid :
    (owner : Option ℕ) (sid : Text) (pm : PortManager)
    → IsValid pm
    → IsValid (release owner sid pm).0
unfolding release
release-IsValid owner sid pm v = go (lookup sid pm.by_session) refl
  where
    go : (o : Option Reservation) → lookup sid pm.by_session ≡ o → IsValid (released owner o pm).0
    go none e = v
    go (some r) e = elim (Bool-cases (foreign r.owner owner)) [
      | inl f ↦ rw f v
      | inr f ↦ rw f (delete_reservation-IsValid r pm v (live_of sid pm r v e))
    ]

pub delete_found-IsValid :
    (o : Option Reservation) (pm : PortManager)
    → ((r : Reservation) → o ≡ some r → lookup r.session_id pm.by_session ≡ some r)
    → IsValid pm
    → IsValid (delete_found o pm)
delete_found-IsValid none pm h v = v
delete_found-IsValid (some r) pm h v = delete_reservation-IsValid r pm v (h r refl)

pub release_all_for_owner-IsValid :
    (order : List Text) (o : ℕ) (pm : PortManager)
    → IsValid pm
    → IsValid (release_all_for_owner order o pm)
unfolding release_all_for_owner
release_all_for_owner-IsValid [] o pm v = v
release_all_for_owner-IsValid (sid ∷ order) o pm v =
    release_all_for_owner-IsValid order o (delete_found (lookup sid (owner_set o pm)) pm) (
      delete_found-IsValid (lookup sid (owner_set o pm)) pm
        (λ r e.
          live_of sid pm r v
            (owned_by-some o (lookup sid pm.by_session) r (sym (v.owners o sid) ∙ e)))
        v)

pub sweep-IsValid :
    (order : List Text) (now : ℕ) (pm : PortManager) → IsValid pm → IsValid (sweep order now pm)
unfolding sweep
sweep-IsValid [] now pm v = v
sweep-IsValid (sid ∷ order) now pm v =
    sweep-IsValid order now (delete_found (expired now (lookup sid pm.by_session)) pm) (
      delete_found-IsValid (expired now (lookup sid pm.by_session)) pm
        (λ r e. live_of sid pm r v (expired-some now (lookup sid pm.by_session) r e)) v)
