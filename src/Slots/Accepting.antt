-- ===== src/Slots/Accepting.antt =====
-- v3/relay/server.go: accepting connections, with what others do between the two locks.
use relay_x.Prelude.{
  ℕ, ◌≡◌, refl, ◌⊎◌, inl, inr, Bool, true, false, Option, none, some, List, [], ◌∷◌, Text, arith,
}
use relay_x.Slots.{
  Waiting, PortSlot, RelayServer, set_slot, Role, be, fe, unknown, classified, admit_be, admit_fe,
  admitted, accepted, accept, start_relay_port, stop_port, reset_port, on_stop,
}
use relay_x.Slots.Peers.{udp_packet, udp_sweep}
use relay_x.Slots.Valid.{
  IsValidSlot, At, IsValid, set_slot-IsValid, Act, starting, stopping_port, resetting, ending,
  packeting, sweeping, act, act-IsValid,
}

abbrev pub is_busy : Option PortSlot → Bool
is_busy none = false
is_busy (some slot) = slot.tcp_busy

module _ (ip_equal : Text → Text → Bool) where
  -- Only accepting a connection makes a slot busy.
  act-is_busy :
      (a : Act) (s : RelayServer) (q : ℕ)
      → is_busy (s.slots q) ≡ false
      → is_busy ((act ip_equal a s).slots q) ≡ false
  unfolding start_relay_port stop_port reset_port on_stop udp_packet udp_sweep
  act-is_busy (starting port tcp udp) s q h = ground arith
  act-is_busy (stopping_port port) s q h = ground arith
  act-is_busy (resetting port) s q h = ground arith
  act-is_busy (ending port kept x) s q h = ground arith
  act-is_busy (packeting port addr now) s q h = ground arith
  act-is_busy (sweeping port now timeout) s q h = ground arith

module _ (port session : ℕ) (slot : PortSlot) (w : Waiting) (s : RelayServer) (v : IsValid s)
    (k : IsValidSlot slot) (free : slot.tcp_busy ≡ false) where
  paired-IsValid :
      (b f : Option Waiting)
      → b ≡ none
      → f ≡ none
      → IsValid (
          set_slot port
            (record slot {
              pending_be = b;
              pending_fe = f;
              tcp_session = some session;
              tcp_busy = true;
            })
            s)
  paired-IsValid b f e g =
      set_slot-IsValid port
        (record slot {
          pending_be = b;
          pending_fe = f;
          tcp_session = some session;
          tcp_busy = true;
        })
        s (record { busy = refl; settled = λ h. (e, g); one_side = inl e; peers = k.peers }) v

  waits-IsValid :
      (b f : Option Waiting)
      → (b ≡ none) ⊎ (f ≡ none)
      → IsValid (set_slot port (record slot { pending_be = b; pending_fe = f }) s)
  waits-IsValid b f o =
      set_slot-IsValid port (record slot { pending_be = b; pending_fe = f }) s
        (record { busy = k.busy; settled = λ h. cc; one_side = o; peers = k.peers }) v

  admit_be-IsValid :
      (b f : Option Waiting)
      → slot.pending_be ≡ b
      → slot.pending_fe ≡ f
      → IsValid (admit_be b f port session slot w s).0
  admit_be-IsValid (some b) f e g = v
  admit_be-IsValid none (some f) e g = paired-IsValid slot.pending_be none e refl
  admit_be-IsValid none none e g = waits-IsValid (some w) slot.pending_fe (inr g)

  admit_fe-IsValid :
      (b f : Option Waiting)
      → slot.pending_be ≡ b
      → slot.pending_fe ≡ f
      → IsValid (admit_fe b f port session slot w s).0
  admit_fe-IsValid b (some f) e g = v
  admit_fe-IsValid (some b) none e g = paired-IsValid none slot.pending_fe refl g
  admit_fe-IsValid none none e g = waits-IsValid slot.pending_be (some w) (inl e)

  slot_admitted-IsValid : (r : Role) → IsValid (admitted (some slot) r port session w s).0
  slot_admitted-IsValid be = admit_be-IsValid slot.pending_be slot.pending_fe refl refl
  slot_admitted-IsValid fe = admit_fe-IsValid slot.pending_be slot.pending_fe refl refl
  slot_admitted-IsValid unknown = v

admitted-IsValid :
    (o : Option PortSlot) (r : Role) (port session : ℕ) (w : Waiting) (s : RelayServer)
    → IsValid s
    → At IsValidSlot o
    → is_busy o ≡ false
    → IsValid (admitted o r port session w s).0
admitted-IsValid none r port session w s v k e = v
admitted-IsValid (some slot) r port session w s v k e =
    slot_admitted-IsValid port session slot w s v k e r

classified_free : (o : Option PortSlot) (r q : Role) → classified o r ≡ some q → is_busy o ≡ false
classified_free none r q h = cc
classified_free (some slot) r q h = ground arith

-- Steps of others, or a whole accept with steps of others in its middle.
pub data Event : Type 0 where
  acting : Act → Event
  accepting : List Act → ℕ → ℕ → Role → Waiting → Event

-- The steps of others between the two locks of an accept: at this port no other connection is
-- accepted meanwhile, as each port has one loop that accepts.
module _ (ip_equal : Text → Text → Bool) where
  unfoldable pub acts : List Act → RelayServer → RelayServer
  acts [] s = s
  acts (a ∷ l) s = acts l (act ip_equal a s)

  acts-IsValid : (l : List Act) (s : RelayServer) → IsValid s → IsValid (acts l s)
  unfolding acts
  acts-IsValid [] s v = v
  acts-IsValid (a ∷ l) s v = acts-IsValid l (act ip_equal a s) (act-IsValid ip_equal a s v)

  acts-is_busy :
      (l : List Act) (s : RelayServer) (q : ℕ)
      → is_busy (s.slots q) ≡ false
      → is_busy ((acts l s).slots q) ≡ false
  unfolding acts
  acts-is_busy [] s q h = h
  acts-is_busy (a ∷ l) s q h = acts-is_busy l (act ip_equal a s) q (act-is_busy ip_equal a s q h)

  abbrev pub event : Event → RelayServer → RelayServer
  event (acting a) s = act ip_equal a s
  event (accepting l port session r w) s = (accept (acts l) port session r w s).0

  accepted-IsValid :
      (l : List Act) (port session : ℕ) (r : Role) (w : Waiting) (s : RelayServer) (o : Option Role)
      → IsValid s
      → classified (s.slots port) r ≡ o
      → IsValid (accepted o (acts l) port session w s).0
  accepted-IsValid l port session r w s none v e = v
  accepted-IsValid l port session r w s (some q) v e =
      admitted-IsValid ((acts l s).slots port) q port session w (acts l s) (acts-IsValid l s v)
        (acts-IsValid l s v port) (acts-is_busy l s port (classified_free (s.slots port) r q e))

  pub event-IsValid : (e : Event) (s : RelayServer) → IsValid s → IsValid (event e s)
  unfolding accept
  event-IsValid (acting a) s v = act-IsValid ip_equal a s v
  event-IsValid (accepting l port session r w) s v =
      accepted-IsValid l port session r w s (classified (s.slots port) r) v refl

  pub events : List Event → RelayServer → RelayServer
  events [] s = s
  events (e ∷ l) s = events l (event e s)
