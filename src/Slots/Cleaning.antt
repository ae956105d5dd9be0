-- ===== src/Slots/Cleaning.antt =====
-- v3/relay/server.go: a snapshot keeps the slots valid.
use relay_x.Prelude.{ℕ, ◌≡◌, refl, ◌⊎◌, inl, inr, Bool, Option, none, some, List, [], ◌∷◌}
use relay_x.Slots.{Waiting, PortSlot, RelayServer}
use relay_x.Slots.Valid.{IsValidSlot, At, IsValid, set_slot-IsValid}
use relay_x.Slots.Snapshot.{kept_of, cleaned_at, cleanup_all, snapshot_port_state}

kept_none : (gone : Waiting → Bool) (o : Option Waiting) → o ≡ none → kept_of gone o ≡ none
kept_none gone none e = refl
kept_none gone (some w) e = cc

cleaned-IsValidSlot :
    (gone : Waiting → Bool) (slot : PortSlot)
    → IsValidSlot slot
    → IsValidSlot (record slot {
      pending_be = kept_of gone slot.pending_be;
      pending_fe = kept_of gone slot.pending_fe;
    })
cleaned-IsValidSlot gone slot v = record {
  busy = v.busy;
  settled = λ h.
      let (b, f) = v.settled h in
      (kept_none gone slot.pending_be b, kept_none gone slot.pending_fe f);
  one_side = side v.one_side;
  peers = v.peers;
}
  where
    side :
        (slot.pending_be ≡ none) ⊎ (slot.pending_fe ≡ none)
        → (kept_of gone slot.pending_be ≡ none) ⊎ (kept_of gone slot.pending_fe ≡ none)
    side (inl b) = inl (kept_none gone slot.pending_be b)
    side (inr f) = inr (kept_none gone slot.pending_fe f)

cleaned_at-IsValid :
    (gone : Waiting → Bool) (o : Option PortSlot) (port : ℕ) (s : RelayServer)
    → At IsValidSlot o
    → IsValid s
    → IsValid (cleaned_at gone o port s)
cleaned_at-IsValid gone none port s w v = v
cleaned_at-IsValid gone (some slot) port s w v =
    set_slot-IsValid port
      (record slot {
        pending_be = kept_of gone slot.pending_be;
        pending_fe = kept_of gone slot.pending_fe;
      })
      s (cleaned-IsValidSlot gone slot w) v

cleanup_all-IsValid :
    (gone : Waiting → Bool) (order : List ℕ) (s : RelayServer)
    → IsValid s
    → IsValid (cleanup_all gone order s)
unfolding cleanup_all
cleanup_all-IsValid gone [] s v = v
cleanup_all-IsValid gone (port ∷ order) s v =
    cleanup_all-IsValid gone order (cleaned_at gone (s.slots port) port s)
      (cleaned_at-IsValid gone (s.slots port) port s (v port) v)

pub snapshot_port_state-IsValid :
    (gone : Waiting → Bool) (order : List ℕ) (s : RelayServer)
    → IsValid s
    → IsValid (snapshot_port_state gone order s).0
unfolding snapshot_port_state
snapshot_port_state-IsValid gone order s v = cleanup_all-IsValid gone order s v
