-- ===== src/V1/Leases/Owner.antt =====
-- v1/control/port_manager.go: the releases.
use relay_x.Prelude.{
  ℕ, ◌≡◌, refl, ap, ◌∙◌, inl, inr, Bool, true, false, Bool-cases, Option, none, some, List, [], ◌∷◌,
  Text, text_eq, text_eq_iff, arith, ◌==◌, ==_iff, if◌then◌else◌, if_both, is_blank,
}
use relay_x.Prelude.Int.{ℤ, pos, pos_part, leb_ℤ}
use relay_x.Prelude.Assoc.{lookup, delete, text_key, number_key, lookup-delete}
use relay_x.Leases.{is_empty}
use relay_x.Leases.Owner.{has_text}
use relay_x.V1.Leases.{
  Reservation, PortManager, Sids, delete_reservation, delete_found, release, released, keys_of,
  release_each, release_all_for_owner, port_freed, freed_by, release_by_port,
}
use relay_x.V1.Leases.Valid.{owned_by, owner_set, IsValid}
use relay_x.V1.Leases.Delete.{live_of, delete_found-IsValid, delete_reservation-IsValid}

pub release-IsValid :
    (owner : Option ℕ) (sid : Text) (pm : PortManager)
    → IsValid pm
    → IsValid (release owner sid pm).0
unfolding release
release-IsValid none sid pm v = v
release-IsValid (some o) sid pm v = elim (Bool-cases (is_blank sid)) [
  | inl b ↦ rw b v
  | inr b ↦ rw b (go (lookup sid pm.by_session) refl)
]
  where
    go :
        (found : Option Reservation)
        → lookup sid pm.by_session ≡ found
        → IsValid (released o found pm).0
    go none e = v
    go (some r) e = elim (Bool-cases (r.owner == o)) [
      | inl f ↦ rw f (delete_reservation-IsValid r pm v (live_of sid pm r v e))
      | inr f ↦ rw f v
    ]

release_each-IsValid :
    (order : List Text) (pm : PortManager) → IsValid pm → IsValid (release_each order pm).0
unfolding release_each
release_each-IsValid [] pm v = v
release_each-IsValid (sid ∷ order) pm v =
    release_each-IsValid order (delete_found (lookup sid pm.by_session) pm)
      (delete_found-IsValid (lookup sid pm.by_session) pm (λ r e. live_of sid pm r v e) v)

found_before :
    (o : Option Reservation) (pm : PortManager) (s : Text) (r : Reservation)
    → lookup s (delete_found o pm).by_session ≡ some r
    → lookup s pm.by_session ≡ some r
unfolding delete_reservation
found_before none pm s r h = h
found_before (some q) pm s r h = ground (arith, lookup-delete q.session_id s pm.by_session)

left_before :
    (order : List Text) (pm : PortManager) (s : Text) (r : Reservation)
    → lookup s (release_each order pm).0.by_session ≡ some r
    → lookup s pm.by_session ≡ some r
unfolding release_each
left_before [] pm s r h = h
left_before (sid ∷ order) pm s r h =
    let found = lookup sid pm.by_session in
    found_before found pm s r (left_before order (delete_found found pm) s r h)

not_found_after :
    (sid s : Text) (pm : PortManager) (found : Option Reservation) (r : Reservation)
    → IsValid pm
    → lookup sid pm.by_session ≡ found
    → lookup s (delete_found found pm).by_session ≡ some r
    → text_eq sid s ≡ false
unfolding delete_reservation
not_found_after sid s pm none r v e h = ground (arith, text_eq_iff sid s)
not_found_after sid s pm (some q) r v e h =
    let (f, o, g) = v.sessions sid e in ground (arith, lookup-delete q.session_id s pm.by_session)

not_visited :
    (order : List Text) (pm : PortManager) (s : Text) (r : Reservation)
    → IsValid pm
    → lookup s (release_each order pm).0.by_session ≡ some r
    → has_text s order ≡ false
unfolding release_each
not_visited [] pm s r v h = refl
not_visited (sid ∷ order) pm s r v h =
    let found = lookup sid pm.by_session in
    let pm1 = delete_found found pm in
    let v1 = delete_found-IsValid found pm (λ q e. live_of sid pm q v e) v in
    let f = not_found_after sid s pm found r v refl (left_before order pm1 s r h) in
    let g = not_visited order pm1 s r v1 h in ground arith

visited : (s : Text) (m : Sids) → lookup s m ≡ some tt → has_text s (keys_of m) ≡ true
unfolding lookup
visited s [] h = cc
visited s ((sid, t) ∷ m) h = ground (arith, visited s m)

-- Nobody's lease is left when all of an owner's are released.
pub none_left :
    (o : ℕ) (pm : PortManager) (s : Text)
    → IsValid pm
    → owned_by o (lookup s (release_each (keys_of (owner_set o pm)) pm).0.by_session) ≡ none
none_left o pm s v = go (lookup s (release_each (keys_of (owner_set o pm)) pm).0.by_session) refl
  where
    go :
        (q : Option Reservation)
        → lookup s (release_each (keys_of (owner_set o pm)) pm).0.by_session ≡ q
        → owned_by o q ≡ none
    go none e = refl
    go (some r) e = elim (Bool-cases (r.owner == o)) [
      | inl w ↦
          let before = left_before (keys_of (owner_set o pm)) pm s r e in
          let mine : lookup s (owner_set o pm) ≡ some tt =
            v.owners o s ∙ ap (owned_by o) before ∙ rw w refl in
          absurd (
            ground (
              arith,
              visited s (owner_set o pm) mine,
              not_visited (keys_of (owner_set o pm)) pm s r v e,
            ))
      | inr w ↦ rw w refl
    ]

pub release_all_for_owner-IsValid :
    (owner : Option ℕ) (pm : PortManager) → IsValid pm → IsValid (release_all_for_owner owner pm).0
unfolding release_all_for_owner lookup
release_all_for_owner-IsValid none pm v = v
release_all_for_owner-IsValid (some o) pm v =
    let pm1 = (release_each (keys_of (owner_set o pm)) pm).0 in
    let v1 = release_each-IsValid (keys_of (owner_set o pm)) pm v in
    if_both (λ (t : PortManager × ℕ). IsValid t.0) (is_empty (owner_set o pm)) v
      (record {
        sessions = v1.sessions;
        leases = v1.leases;
        owners = λ a s.
            ground (
              arith,
              lookup-delete o a pm1.by_owner,
              ==_iff o a,
              v1.owners a s,
              none_left o pm s v,
            );
      })

port_freed-IsValid :
    (port : ℕ) (sid : Text) (pm : PortManager) (found : Option Reservation)
    → IsValid pm
    → lookup port pm.by_port ≡ some sid
    → lookup sid pm.by_session ≡ found
    → IsValid (port_freed port found pm)
port_freed-IsValid port sid pm none v e f = absurd (ground (arith, v.leases port e))
port_freed-IsValid port sid pm (some r) v e f =
    delete_reservation-IsValid r pm v (live_of sid pm r v f)

pub release_by_port-IsValid :
    (port : ℤ) (pm : PortManager) → IsValid pm → IsValid (release_by_port port pm)
unfolding release_by_port
release_by_port-IsValid port pm v =
    if_both IsValid (leb_ℤ port (pos 0)) v (go (lookup (pos_part port) pm.by_port) refl)
  where
    go :
        (o : Option Text)
        → lookup (pos_part port) pm.by_port ≡ o
        → IsValid (freed_by (pos_part port) o pm)
    go none e = v
    go (some sid) e =
        if_both IsValid (is_blank sid) v
          (port_freed-IsValid (pos_part port) sid pm (lookup sid pm.by_session) v e refl)

empty_lookup : (s : Text) (set : Sids) → is_empty set ≡ true → lookup s set ≡ none
unfolding lookup
empty_lookup s [] h = refl
empty_lookup s ((k, t) ∷ set) h = cc

-- What is left when an owner's leases are released was there before and is another's.
pub release_all_for_owner_left :
    (o : ℕ) (pm : PortManager) (s : Text) (r : Reservation)
    → IsValid pm
    → lookup s (release_all_for_owner (some o) pm).0.by_session ≡ some r
    → (lookup s pm.by_session ≡ some r) × ((r.owner == o) ≡ false)
unfolding release_all_for_owner
release_all_for_owner_left o pm s r v h = go (is_empty (owner_set o pm)) refl h
  where
    Left : PortManager × ℕ → Type 0
    Left t =
        lookup s t.0.by_session ≡ some r
        → (lookup s pm.by_session ≡ some r) × ((r.owner == o) ≡ false)

    pm1 : PortManager
    pm1 = (release_each (keys_of (owner_set o pm)) pm).0

    go :
        (b : Bool)
        → is_empty (owner_set o pm) ≡ b
        → Left (
            if b then (pm, 0) else (
              record pm1 { by_owner = delete o pm1.by_owner },
              (release_each (keys_of (owner_set o pm)) pm).1,
            ))
    go true e k = (k, ground (arith, v.owners o s, empty_lookup s (owner_set o pm) e))
    go false e k =
        (left_before (keys_of (owner_set o pm)) pm s r k, ground (arith, none_left o pm s v))

pub release_before :
    (owner : Option ℕ) (sid : Text) (pm : PortManager) (s : Text) (r : Reservation)
    → lookup s (release owner sid pm).0.by_session ≡ some r
    → lookup s pm.by_session ≡ some r
unfolding release delete_reservation
release_before none sid pm s r h = h
release_before (some o) sid pm s r h =
    if_both Before (is_blank sid) (λ k. k) (released_before (lookup sid pm.by_session)) h
  where
    Before : PortManager × Bool → Type 0
    Before t = lookup s t.0.by_session ≡ some r → lookup s pm.by_session ≡ some r

    released_before : (found : Option Reservation) → Before (released o found pm)
    released_before none k = k
    released_before (some q) k = ground (arith, lookup-delete q.session_id s pm.by_session)

port_freed_before :
    (port : ℕ) (found : Option Reservation) (pm : PortManager) (s : Text) (r : Reservation)
    → lookup s (port_freed port found pm).by_session ≡ some r
    → lookup s pm.by_session ≡ some r
port_freed_before port none pm s r h = h
port_freed_before port (some q) pm s r h = found_before (some q) pm s r h

pub release_by_port_before :
    (port : ℤ) (pm : PortManager) (s : Text) (r : Reservation)
    → lookup s (release_by_port port pm).by_session ≡ some r
    → lookup s pm.by_session ≡ some r
unfolding release_by_port
release_by_port_before port pm s r =
    if_both Before (leb_ℤ port (pos 0)) (λ h. h) (go (lookup (pos_part port) pm.by_port))
  where
    Before : PortManager → Type 0
    Before qm = lookup s qm.by_session ≡ some r → lookup s pm.by_session ≡ some r

    go : (o : Option Text) → Before (freed_by (pos_part port) o pm)
    go none h = h
    go (some sid) h =
        if_both Before (is_blank sid) (λ k. k)
          (port_freed_before (pos_part port) (lookup sid pm.by_session) pm s r) h
