-- ===== src/Leases/Owner.antt =====
-- v3/control/port_manager.go: calls that only take leases away, and the leases of one owner.
use relay_x.Prelude.{
  ℕ, ◌≡◌, refl, sym, ap, ◌∙◌, Bool, true, false, Option, none, some, List, [], ◌∷◌, Text, text_eq,
  text_eq_iff, arith, ◌||◌, Bool-cases, inl, inr,
}
use relay_x.Prelude.Assoc.{lookup, text_key, number_key, lookup-delete}
use relay_x.Leases.{
  Reservation, PortManager, release, released, delete_reservation, release_all_for_owner,
  delete_found, sweep, expired, owner_set, keys_of,
}
use relay_x.Leases.Valid.{IsValid, owns, owned_by}
use relay_x.Leases.Delete.{delete_found-IsValid, live_of, owned_by-some}

-- Each lease of the second is a lease of the first.
abbrev pub Fewer : PortManager → PortManager → Type 0
Fewer pm qm =
    (s : Text) (r : Reservation) → lookup s qm.by_session ≡ some r → lookup s pm.by_session ≡ some r

delete_reservation-Fewer : (q : Reservation) (pm : PortManager) → Fewer pm (delete_reservation q pm)
unfolding delete_reservation
delete_reservation-Fewer q pm s r h = ground (arith, lookup-delete q.session_id s pm.by_session)

delete_found-Fewer : (o : Option Reservation) (pm : PortManager) → Fewer pm (delete_found o pm)
delete_found-Fewer none pm s r h = h
delete_found-Fewer (some q) pm s r h = delete_reservation-Fewer q pm s r h

pub release_all_for_owner-Fewer :
    (order : List Text) (o : ℕ) (pm : PortManager) → Fewer pm (release_all_for_owner order o pm)
unfolding release_all_for_owner
release_all_for_owner-Fewer [] o pm s r h = h
release_all_for_owner-Fewer (sid ∷ order) o pm s r h =
    let found = lookup sid (owner_set o pm) in
    delete_found-Fewer found pm s r
      (release_all_for_owner-Fewer order o (delete_found found pm) s r h)

pub sweep-Fewer : (order : List Text) (now : ℕ) (pm : PortManager) → Fewer pm (sweep order now pm)
unfolding sweep
sweep-Fewer [] now pm s r h = h
sweep-Fewer (sid ∷ order) now pm s r h =
    let found = expired now (lookup sid pm.by_session) in
    delete_found-Fewer found pm s r (sweep-Fewer order now (delete_found found pm) s r h)

released-Fewer :
    (owner : Option ℕ) (o : Option Reservation) (pm : PortManager)
    → Fewer pm (released owner o pm).0
released-Fewer owner none pm s r h = h
released-Fewer owner (some q) pm s r h = ground (arith, delete_reservation-Fewer q pm s r)

pub release-Fewer :
    (owner : Option ℕ) (sid : Text) (pm : PortManager) → Fewer pm (release owner sid pm).0
unfolding release
release-Fewer owner sid pm s r h = released-Fewer owner (lookup sid pm.by_session) pm s r h

abbrev pub has_text : Text → List Text → Bool
has_text s [] = false
has_text s (t ∷ ts) = text_eq t s || has_text s ts

-- After a reservation of the owner is deleted, or where there was none, the owner has none under this
-- session.
gone_after :
    (o : ℕ) (sid s : Text) (pm : PortManager) (found : Option Reservation) {r : Reservation}
    → IsValid pm
    → owned_by o (lookup sid pm.by_session) ≡ found
    → lookup s (delete_found found pm).by_session ≡ some r
    → owns o r.owner ≡ true
    → text_eq sid s ≡ false
unfolding delete_reservation
gone_after o sid s pm none {r} v e h w = elim (Bool-cases (text_eq sid s)) [
  | inl t ↦
      let same : sid ≡ s = (text_eq_iff sid s).0 t in
      absurd (ground (arith, ap (λ x. lookup x pm.by_session) same))
  | inr f ↦ f
]
gone_after o sid s pm (some q) {r} v e h w = ground (
  arith,
  lookup-delete q.session_id s pm.by_session,
  v.sessions sid {r = q} (owned_by-some o (lookup sid pm.by_session) q e),
)

released_owner :
    (order : List Text) (o : ℕ) (pm : PortManager) (s : Text) {r : Reservation}
    → IsValid pm
    → lookup s (release_all_for_owner order o pm).by_session ≡ some r
    → owns o r.owner ≡ true
    → has_text s order ≡ false
unfolding release_all_for_owner
released_owner [] o pm s {r} v h w = refl
released_owner (sid ∷ order) o pm s {r} v h w =
    let found = lookup sid (owner_set o pm) in
    let pm1 = delete_found found pm in
    let v1 : IsValid pm1 =
      delete_found-IsValid found pm
        (λ q e.
          live_of sid pm q v
            (owned_by-some o (lookup sid pm.by_session) q (sym (v.owners o sid) ∙ e)))
        v in
    let f =
      gone_after o sid s pm found v (sym (v.owners o sid))
        (release_all_for_owner-Fewer order o pm1 s r h) w in
    let g = released_owner order o pm1 s v1 h w in ground arith

has_text-keys_of :
    (s : Text) (m : List (Text × Reservation)) (r : Reservation)
    → lookup s m ≡ some r
    → has_text s (keys_of m) ≡ true
unfolding lookup
has_text-keys_of s [] r h = cc
has_text-keys_of s ((sid, q) ∷ m) r h = ground (arith, has_text-keys_of s m r)

-- Releasing all leases of an owner leaves it none.
pub release_all_for_owner_lem :
    (o : ℕ) (pm : PortManager) (s : Text) (r : Reservation)
    → IsValid pm
    → lookup s (release_all_for_owner (keys_of (owner_set o pm)) o pm).by_session ≡ some r
    → owns o r.owner ≡ false
release_all_for_owner_lem o pm s r v h = elim (Bool-cases (owns o r.owner)) [
  | inl w ↦
      let before : lookup s pm.by_session ≡ some r =
        release_all_for_owner-Fewer (keys_of (owner_set o pm)) o pm s r h in
      let mine : lookup s (owner_set o pm) ≡ some r =
        v.owners o s ∙ ap (owned_by o) before ∙ rw w refl in
      absurd (
        ground (
          arith,
          has_text-keys_of s (owner_set o pm) r mine,
          released_owner (keys_of (owner_set o pm)) o pm s v h w,
        ))
  | inr w ↦ w
]
