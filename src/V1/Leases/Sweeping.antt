-- ===== src/V1/Leases/Sweeping.antt =====
-- v1/control/port_manager.go: what the sweep before an acquire leaves of the leases.
use relay_x.Prelude.{
  ℕ, ◌≡◌, refl, Bool, false, ◌||◌, Option, none, some, List, [], ◌∷◌, Text, text_eq, text_eq_iff,
  arith, leb, ◌==◌, if◌then◌else◌,
}
use relay_x.Prelude.Assoc.{lookup, text_key, number_key, lookup-delete}
use relay_x.V1.Leases.{
  Reservation, PortManager, delete_found, expired, sweep_locked, delete_reservation,
}
use relay_x.V1.Leases.Valid.{IsValid}
use relay_x.V1.Leases.Delete.{live_of, delete_found-IsValid}
use relay_x.V1.Leases.Acquire.{expired-some, sweep_locked-IsValid}

-- A lease that has not run out.
abbrev pub unexpired : ℕ → Option Reservation → Option Reservation
unexpired now none = none
unexpired now (some r) = if r.expires_at == 0 || leb now r.expires_at then some r else none

-- The leases are those of `pm` that have not run out, and their maps agree.
pub record IsSwept (now : ℕ) (pm q : PortManager) : Type 0 where
  pub valid : IsValid q
  pub lasting : (s : Text) → lookup s q.by_session ≡ unexpired now (lookup s pm.by_session)

-- The order has the session.
pub among : Text → List Text → Bool
among s [] = false
among s (t ∷ ts) = text_eq t s || among s ts

deleted_one :
    (now : ℕ) (sid s : Text) (pm : PortManager)
    → IsValid pm
    → lookup s (delete_found (expired now (lookup sid pm.by_session)) pm).by_session
      ≡ (if text_eq sid s then unexpired now (lookup s pm.by_session) else lookup s pm.by_session)
unfolding delete_reservation
deleted_one now sid s pm v = go (lookup sid pm.by_session) refl
  where
    go :
        (o : Option Reservation)
        → lookup sid pm.by_session ≡ o
        → lookup s (delete_found (expired now o) pm).by_session ≡ (
            if text_eq sid s
            then unexpired now (lookup s pm.by_session)
            else lookup s pm.by_session)
    go none h = ground (arith, text_eq_iff sid s)
    go (some r) h =
        ground (
          arith,
          text_eq_iff sid s,
          (v.sessions sid h).0,
          lookup-delete r.session_id s pm.by_session,
        )

unexpired_twice :
    (now : ℕ) (o : Option Reservation) → unexpired now (unexpired now o) ≡ unexpired now o
unexpired_twice now none = refl
unexpired_twice now (some r) = ground arith

lookup-sweep_locked :
    (order : List Text) (now : ℕ) (s : Text) (pm : PortManager)
    → IsValid pm
    → lookup s (sweep_locked order now pm).by_session
      ≡ (if among s order then unexpired now (lookup s pm.by_session) else lookup s pm.by_session)
unfolding sweep_locked among
lookup-sweep_locked [] now s pm v = refl
lookup-sweep_locked (sid ∷ order) now s pm v =
    let found = expired now (lookup sid pm.by_session) in
    let q = delete_found found pm in
    let w =
      delete_found-IsValid found pm
        (λ r e. live_of sid pm r v (expired-some now (lookup sid pm.by_session) r e)) v in
    ground (
      arith,
      lookup-sweep_locked order now s q w,
      deleted_one now sid s pm v,
      unexpired_twice now (lookup s pm.by_session),
    )

pub sweep_locked-IsSwept :
    (order : List Text) (now : ℕ) (pm : PortManager)
    → IsValid pm
    → ((s : Text) → among s order ≡ false → lookup s pm.by_session ≡ none)
    → IsSwept now pm (sweep_locked order now pm)
sweep_locked-IsSwept order now pm v all = record {
  valid = sweep_locked-IsValid order now pm v;
  lasting = λ s. ground (arith, lookup-sweep_locked order now s pm v, all s);
}
