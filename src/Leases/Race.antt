-- ===== src/Leases/Race.antt =====
-- v3/control/port_manager.go: what undisturbed calls keep, and what two acquires at once break.
use relay_x.Prelude.{
  ℕ, ◌≡◌, ◌≢◌, refl, sym, ap, ◌∙◌, true, false, Option, none, some, List, ◌∷◌, Text, text_eq,
  text_eq_iff, text_eq_refl, arith,
}
use relay_x.Prelude.Assoc.{lookup, insert, text_key, number_key, lookup-insert, lookup-delete}
use relay_x.Leases.{
  Reservation, PortManager, PortAcquire, new_port_manager, is_port_available, reservation_of,
  reserve_port, scan, acquire_from_ready, release, foreign, delete_reservation,
  release_all_for_owner, sweep,
}
use relay_x.Leases.Valid.{IsValid}
use relay_x.Leases.Delete.{release-IsValid, release_all_for_owner-IsValid, sweep-IsValid}
use relay_x.Leases.Acquire.{quiet, acquire-IsValid}

-- One undisturbed call of the port manager. A new session id is one that no lease has.
pub data Step (pm qm : PortManager) : Type 0 where
  acquiring :
      (ready empty : List ℕ) (owner : Option ℕ) (req : PortAcquire) (sid : Text) (now : ℕ)
      → lookup sid pm.by_session ≡ none
      → qm ≡ (acquire_from_ready quiet ready empty owner req sid now pm).0
      → Step pm qm
  releasing : (owner : Option ℕ) (sid : Text) → qm ≡ (release owner sid pm).0 → Step pm qm
  releasing_all : (order : List Text) (o : ℕ) → qm ≡ release_all_for_owner order o pm → Step pm qm
  sweeping : (order : List Text) (now : ℕ) → qm ≡ sweep order now pm → Step pm qm

pub data Reach : PortManager → Type 0 where
  start : Reach new_port_manager
  next : {pm qm : PortManager} → Reach pm → Step pm qm → Reach qm

Step-IsValid : {pm qm : PortManager} → Step pm qm → IsValid pm → IsValid qm
Step-IsValid {pm} (acquiring ready empty owner req sid now f e) v =
    rw e (acquire-IsValid owner req sid now pm ready empty v f)
Step-IsValid {pm} (releasing owner sid e) v = rw e (release-IsValid owner sid pm v)
Step-IsValid {pm} (releasing_all order o e) v = rw e (release_all_for_owner-IsValid order o pm v)
Step-IsValid {pm} (sweeping order now e) v = rw e (sweep-IsValid order now pm v)

Reach-IsValid : {pm : PortManager} → Reach pm → IsValid pm
unfolding new_port_manager lookup
Reach-IsValid start = record { sessions = λ s h. cc; leases = λ p h. cc; owners = λ o s. refl }
Reach-IsValid (next r s) = Step-IsValid s (Reach-IsValid r)

-- After any undisturbed calls on a new port manager its three maps agree, and two sessions whose
-- leases have the same port are the same session.
pub Reach-leases :
    {pm : PortManager}
    → Reach pm
    → IsValid pm
      × ((s t : Text) (q r : Reservation)
          → lookup s pm.by_session ≡ some q
          → lookup t pm.by_session ≡ some r
          → q.port ≡ r.port
          → s ≡ t)
Reach-leases {pm} reach = (v, same)
  where
    v : IsValid pm
    v = Reach-IsValid reach

    same :
        (s t : Text) (q r : Reservation)
        → lookup s pm.by_session ≡ some q
        → lookup t pm.by_session ≡ some r
        → q.port ≡ r.port
        → s ≡ t
    same s t q r h k e = ground (arith, v.sessions s {r = q}, v.sessions t {r = r})

taken_first :
    (m : ℕ → PortManager → PortManager) (p : ℕ) (rest empty : List ℕ) (o : Option ℕ)
    (req : PortAcquire) (sid : Text) (now : ℕ) (pm : PortManager)
    → is_port_available p pm ≡ true
    → (acquire_from_ready m (p ∷ rest) empty o req sid now pm).0
      ≡ (reserve_port o req p sid now (m p pm)).0
unfolding acquire_from_ready scan
taken_first m p rest empty o req sid now pm h = rw h refl

foreign_self : (o : Option ℕ) → foreign o o ≡ false
foreign_self none = refl
foreign_self (some a) = ground arith

found-insert :
    (s : Text) (r : Reservation) (m : List (Text × Reservation)) → lookup s (insert s r m) ≡ some r
found-insert s r m = lookup-insert s s r m ∙ rw (text_eq_refl s) refl

different : (a b : Text) → a ≢ b → text_eq a b ≡ false
different a b n = ground (arith, text_eq_iff a b)

module _ (p now : ℕ) (rest empty : List ℕ) (o1 o2 : Option ℕ) (req1 req2 : PortAcquire) (a b : Text)
    (pm : PortManager) where
  -- Between the check and the reservation of one acquire another runs from its start to its end.
  abbrev pub crossed : PortManager
  crossed =
      (acquire_from_ready (λ port s. (acquire_from_ready quiet (p ∷ rest) empty o2 req2 b now s).0)
        (p ∷ rest) empty o1 req1 a now pm).0

  both : PortManager
  both = (reserve_port o1 req1 p a now (reserve_port o2 req2 p b now pm).0).0

  crossed-both : is_port_available p pm ≡ true → crossed ≡ both
  unfolding both
  crossed-both h =
      taken_first (λ port s. (acquire_from_ready quiet (p ∷ rest) empty o2 req2 b now s).0) p rest
        empty o1 req1 a now pm h
      ∙ ap (λ s. (reserve_port o1 req1 p a now s).0)
          (taken_first quiet p rest empty o2 req2 b now pm h)

  first_lease : lookup a both.by_session ≡ some (reservation_of o1 req1 p a now)
  unfolding both reserve_port
  first_lease =
      found-insert a (reservation_of o1 req1 p a now)
        (insert b (reservation_of o2 req2 p b now) pm.by_session)

  second_lease : a ≢ b → lookup b both.by_session ≡ some (reservation_of o2 req2 p b now)
  unfolding both reserve_port
  second_lease n =
      lookup-insert a b (reservation_of o1 req1 p a now)
        (insert b (reservation_of o2 req2 p b now) pm.by_session)
      ∙ rw (different a b n) (found-insert b (reservation_of o2 req2 p b now) pm.by_session)

  after_release :
      a ≢ b → release o2 b both ≡ (delete_reservation (reservation_of o2 req2 p b now) both, some p)
  unfolding release
  after_release n = rw (second_lease n) (rw (foreign_self o2) refl)

  first_kept :
      a ≢ b
      → lookup a (delete_reservation (reservation_of o2 req2 p b now) both).by_session
        ≡ some (reservation_of o1 req1 p a now)
  unfolding delete_reservation
  first_kept n = lookup-delete b a both.by_session ∙ rw (different b a (λ e. n (sym e))) first_lease

  port_free : is_port_available p (delete_reservation (reservation_of o2 req2 p b now) both) ≡ true
  unfolding delete_reservation is_port_available
  port_free = ground (arith, lookup-delete p p both.by_port)

  -- Two acquires that cross on a port that is not leased both lease it. When the second of the two
  -- sessions then releases its lease, the port counts as not leased, though the first session still
  -- has its lease of it.
  pub crossed_leases :
      is_port_available p pm ≡ true
      → a ≢ b
      → (lookup a crossed.by_session ≡ some (reservation_of o1 req1 p a now))
        × (lookup b crossed.by_session ≡ some (reservation_of o2 req2 p b now))
        × ((release o2 b crossed).1 ≡ some p)
        × (lookup a (release o2 b crossed).0.by_session ≡ some (reservation_of o1 req1 p a now))
        × (is_port_available p (release o2 b crossed).0 ≡ true)
  crossed_leases h n = rw (crossed-both h) (
    first_lease,
    second_lease n,
    rw (after_release n) refl,
    rw (after_release n) (first_kept n),
    rw (after_release n) port_free,
  )
