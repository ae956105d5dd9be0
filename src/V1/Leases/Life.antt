-- ===== src/V1/Leases/Life.antt =====
-- v1/control/port_manager.go: what all calls keep. Each holds the mutex, so any interleaving of calls is a
-- sequence of them.
use relay_x.Prelude.{ℕ, ◌≡◌, refl, Bool, Option, none, some, List, Text}
use relay_x.Prelude.Int.{ℤ}
use relay_x.Prelude.Assoc.{lookup, text_key, number_key}
use relay_x.Leases.{PortAcquire}
use relay_x.Central.Ranges.{PortAlloc}
use relay_x.V1.Leases.{
  Reservation, PortManager, new_port_manager, set_ranges, sweep_locked, refusal, acquire,
  acquire_from_ready, release, release_all_for_owner, release_by_port,
}
use relay_x.V1.Leases.Valid.{IsValid, port_of}
use relay_x.V1.Leases.Acquire.{sweep_locked-IsValid, acquire_of-IsValid}
use relay_x.V1.Leases.Owner.{
  release-IsValid, release_all_for_owner-IsValid, release_by_port-IsValid,
}

-- A call. A new session id is one that no lease has; the relay's answers may be any.
pub data Call (pm qm : PortManager) : Type 0 where
  setting : (p : PortAlloc) → qm ≡ (set_ranges p pm).0 → Call pm qm
  acquiring :
      (owner : Option ℕ) (req : PortAcquire) (order : List Text) (sid : Text) (now : ℕ)
      (busy : ℕ → Bool)
      → lookup sid pm.by_session ≡ none
      → qm ≡ (acquire owner req order sid now busy pm).0
      → Call pm qm
  acquiring_ready :
      (owner : Option ℕ) (req : PortAcquire) (order : List Text) (sid : Text) (now : ℕ)
      (busy : ℕ → Bool) (zmq_ready srt_ready : List ℤ)
      → lookup sid pm.by_session ≡ none
      → qm ≡ (acquire_from_ready owner req order sid now busy zmq_ready srt_ready pm).0
      → Call pm qm
  releasing : (owner : Option ℕ) (sid : Text) → qm ≡ (release owner sid pm).0 → Call pm qm
  releasing_all : (owner : Option ℕ) → qm ≡ (release_all_for_owner owner pm).0 → Call pm qm
  freeing : (port : ℤ) → qm ≡ release_by_port port pm → Call pm qm
  sweeping : (order : List Text) (now : ℕ) → qm ≡ sweep_locked order now pm → Call pm qm

pub data Reach : PortManager → Type 0 where
  start : Reach new_port_manager
  next : {pm qm : PortManager} → Reach pm → Call pm qm → Reach qm

set_ranges-IsValid : (p : PortAlloc) (pm : PortManager) → IsValid pm → IsValid (set_ranges p pm).0
unfolding set_ranges
set_ranges-IsValid p pm v = record { sessions = v.sessions; leases = v.leases; owners = v.owners }

acquire-IsValid :
    (owner : Option ℕ) (req : PortAcquire) (order : List Text) (sid : Text) (now : ℕ)
    (busy : ℕ → Bool) (pm : PortManager)
    → lookup sid pm.by_session ≡ none
    → IsValid pm
    → IsValid (acquire owner req order sid now busy pm).0
unfolding acquire
acquire-IsValid owner req order sid now busy pm n v =
    acquire_of-IsValid (refusal owner req) owner req order sid now busy _ _ pm v n

acquire_from_ready-IsValid :
    (owner : Option ℕ) (req : PortAcquire) (order : List Text) (sid : Text) (now : ℕ)
    (busy : ℕ → Bool) (zmq_ready srt_ready : List ℤ) (pm : PortManager)
    → lookup sid pm.by_session ≡ none
    → IsValid pm
    → IsValid (acquire_from_ready owner req order sid now busy zmq_ready srt_ready pm).0
unfolding acquire_from_ready
acquire_from_ready-IsValid owner req order sid now busy zmq_ready srt_ready pm n v =
    acquire_of-IsValid (refusal owner req) owner req order sid now busy _ _ pm v n

pub Call-IsValid : {pm qm : PortManager} → Call pm qm → IsValid pm → IsValid qm
Call-IsValid {pm} (setting p e) v = rw e (set_ranges-IsValid p pm v)
Call-IsValid {pm} (acquiring owner req order sid now busy n e) v =
    rw e (acquire-IsValid owner req order sid now busy pm n v)
Call-IsValid {pm} (acquiring_ready owner req order sid now busy zmq_ready srt_ready n e) v =
    rw e (acquire_from_ready-IsValid owner req order sid now busy zmq_ready srt_ready pm n v)
Call-IsValid {pm} (releasing owner sid e) v = rw e (release-IsValid owner sid pm v)
Call-IsValid {pm} (releasing_all owner e) v = rw e (release_all_for_owner-IsValid owner pm v)
Call-IsValid {pm} (freeing port e) v = rw e (release_by_port-IsValid port pm v)
Call-IsValid {pm} (sweeping order now e) v = rw e (sweep_locked-IsValid order now pm v)

Reach-IsValid : {pm : PortManager} → Reach pm → IsValid pm
unfolding new_port_manager lookup
Reach-IsValid start = record { sessions = λ s h. cc; leases = λ p h. cc; owners = λ o s. refl }
Reach-IsValid (next r c) = Call-IsValid c (Reach-IsValid r)

-- After any calls, in whatever way they interleave, the three maps of the first port manager agree:
-- each lease is of one port of one kind, is found under that port and in the set of its owner; and two
-- sessions whose leases have the same port are the same session.
pub Reach-exclusive :
    {pm : PortManager}
    → Reach pm
    → IsValid pm
      × ((s t : Text) (q r : Reservation)
          → lookup s pm.by_session ≡ some q
          → lookup t pm.by_session ≡ some r
          → port_of q ≡ port_of r
          → s ≡ t)
Reach-exclusive {pm} reach = (Reach-IsValid reach, same)
  where
    same :
        (s t : Text) (q r : Reservation)
        → lookup s pm.by_session ≡ some q
        → lookup t pm.by_session ≡ some r
        → port_of q ≡ port_of r
        → s ≡ t
    same s t q r h k e =
        let (a, b, c) = (Reach-IsValid reach).sessions s h in
        let (d, f, g) = (Reach-IsValid reach).sessions t k in cc
