-- ===== src/V1/Hub/Run.antt =====
-- v1/control/hub.go: what any messages, connections, disconnections, timers and sweeps leave true.
use relay_x.Prelude.{
  ℕ, ◌<◌, ◌≡◌, refl, ap, inl, inr, Bool, true, false, Bool-cases, Option, none, some, List, ◌∷◌,
  Text, arith, length, if_both,
}
use relay_x.Prelude.Int.{ℤ, pos, negsuc, pos_part, leb_ℤ}
use relay_x.Prelude.Assoc.{lookup, text_key}
use relay_x.Slots.{Role, be, fe, unknown}
use relay_x.Central.{without}
use relay_x.Central.Handling.{elem-cons_without}
use relay_x.V1.Leases.{new_port_manager, sweep_locked, release_by_port}
use relay_x.V1.Leases.Outcome.{sweep_locked_before}
use relay_x.V1.Leases.Owner.{release_by_port_before}
use relay_x.V1.Leases.Life as Calls
use relay_x.V1.Leases.Life.{Call-IsValid, Reach-exclusive}
use relay_x.V1.Relay.{new_relay_server}
use relay_x.V1.Relay.Valid.{Act, act, act-IsValid}
use relay_x.V1.Reaper.{expire, begin_kill, end_kill}
use relay_x.V1.Hub.{
  World, Hub, new_hub, verify_auth, register, registered, connect, welcomed, close_client, fails,
  send, with_relay, auth_ok, port_alloc, port_state, state_changed, broadcast_to_role,
}
use relay_x.V1.Hub.Messages.{Request, handle}
use relay_x.V1.Hub.Valid.{
  IsValid, length-without, send-IsValid, reaper-IsValid, relay-IsValid, close_client-IsValid,
  broadcast-IsValid, with_snapshot-IsValid, state_sent-IsValid, leases-IsValid, begin_kill-IsValid,
  end_kill-IsValid,
}
use relay_x.V1.Hub.Handling.{IsNew, MayAsk, handle-IsValid}

fits : (max : ℤ) (n : ℕ) → leb_ℤ max (pos n) ≡ false → n < pos_part max
fits (pos m) n h = ground arith
fits (negsuc m) n h = ground arith

-- What happens to the hub: a client connects, a handler takes a message of its client, which may have left
-- the hub, a connection ends, a timer expires, a kill takes its first or its second lock, leases expire, the relay makes an atomic
-- step, or one of its two hooks runs. The limits of the configuration are the same throughout.
pub data Step (late : ℕ → Bool) (max_fe max_be : ℤ) (s t : Hub) : Type 0 where
  connecting :
      (w : World) (c : ℕ) (first : Option (Role × Text))
      → w.max_fe ≡ max_fe
      → w.max_be ≡ max_be
      → t ≡ (connect w c first s).0
      → Step late max_fe max_be s t
  requesting :
      (w : World) (c : ℕ) (r : Role) (q : Request)
      → IsNew q s
      → MayAsk late c q s
      → t ≡ handle w c r q s
      → Step late max_fe max_be s t
  disconnecting :
      (w : World) (c : ℕ) (r : Role) → t ≡ close_client w c r s → Step late max_fe max_be s t
  expiring :
      (timer : ℕ) → t ≡ record s { reaper = expire timer s.reaper } → Step late max_fe max_be s t
  beginning : t ≡ record s { reaper = begin_kill s.reaper } → Step late max_fe max_be s t
  ending : t ≡ record s { reaper = end_kill s.reaper } → Step late max_fe max_be s t
  sweeping :
      (order : List Text) (now : ℕ)
      → t ≡ record s { leases = sweep_locked order now s.leases }
      → Step late max_fe max_be s t
  freeing :
      (port : ℤ)
      → t ≡ record s { leases = release_by_port port s.leases }
      → Step late max_fe max_be s t
  telling : (w : World) → t ≡ state_changed w s → Step late max_fe max_be s t
  relaying : (a : Act) → t ≡ with_relay (act a s.reaper.relay) s → Step late max_fe max_be s t

pub data Reach (late : ℕ → Bool) (max_fe max_be : ℤ) : Hub → Type 0 where
  start : Reach late max_fe max_be new_hub
  next :
      {s t : Hub}
      → Reach late max_fe max_be s
      → Step late max_fe max_be s t
      → Reach late max_fe max_be t

module _ {late : ℕ → Bool} (max_fe max_be : ℤ) where
  welcomed-IsValid :
      (w : World) (c : ℕ) (r : Role) (s : Hub)
      → IsValid late (pos_part max_fe) (pos_part max_be) s
      → IsValid late (pos_part max_fe) (pos_part max_be) (welcomed w c r s)
  welcomed-IsValid w c fe s v =
      state_sent-IsValid (pos_part max_fe) (pos_part max_be) w c (send w c (port_alloc w.config) s)
        (send-IsValid (pos_part max_fe) (pos_part max_be) w c (port_alloc w.config) s v)
  welcomed-IsValid w c be s v = state_sent-IsValid (pos_part max_fe) (pos_part max_be) w c s v
  welcomed-IsValid w c unknown s v = v

  registered-IsValid :
      (w : World) (c : ℕ) (r : Role) (out : Hub × Bool)
      → IsValid late (pos_part max_fe) (pos_part max_be) out.0
      → IsValid late (pos_part max_fe) (pos_part max_be) (registered w c r out).0
  registered-IsValid w c r (s, false) v = v
  registered-IsValid w c r (s, true) v =
      if_both (λ (t : Hub × Bool). IsValid late (pos_part max_fe) (pos_part max_be) t.0)
        (fails w c s) v
        (welcomed-IsValid w c r (record s { authed = c ∷ s.authed; sent = (c, auth_ok) ∷ s.sent })
          (record {
            leases = v.leases;
            ports = v.ports;
            owned = v.owned;
            fe_fit = v.fe_fit;
            be_fit = v.be_fit;
          }))

  fe_registered :
      (c : ℕ) (s : Hub)
      → length s.fe_clients < pos_part max_fe
      → IsValid late (pos_part max_fe) (pos_part max_be) s
      → IsValid late
          (pos_part max_fe)
          (pos_part max_be)
          (record s { fe_clients = c ∷ without c s.fe_clients })
  fe_registered c s n v = record {
    leases = v.leases;
    ports = v.ports;
    owned = λ sid {r} h. ground (arith, v.owned sid h, elem-cons_without r.owner c s.fe_clients);
    fe_fit = ground (arith, length-without c s.fe_clients);
    be_fit = v.be_fit;
  }

  be_registered :
      (c : ℕ) (s : Hub)
      → length s.be_clients < pos_part max_be
      → IsValid late (pos_part max_fe) (pos_part max_be) s
      → IsValid late
          (pos_part max_fe)
          (pos_part max_be)
          (record s { be_clients = c ∷ without c s.be_clients })
  be_registered c s n v = record {
    leases = v.leases;
    ports = v.ports;
    owned = λ sid {r} h. ground (arith, v.owned sid h, elem-cons_without r.owner c s.be_clients);
    fe_fit = v.fe_fit;
    be_fit = ground (arith, length-without c s.be_clients);
  }

  register-IsValid :
      (w : World) (c : ℕ) (r : Role) (s : Hub)
      → w.max_fe ≡ max_fe
      → w.max_be ≡ max_be
      → IsValid late (pos_part max_fe) (pos_part max_be) s
      → IsValid late (pos_part max_fe) (pos_part max_be) (register w c r s).0
  unfolding register
  register-IsValid w c fe s e f v = elim (Bool-cases (leb_ℤ w.max_fe (pos (length s.fe_clients)))) [
    | inl h ↦ rw h v
    | inr h ↦
        rw h
          (fe_registered c s (ground (arith, fits w.max_fe (length s.fe_clients), ap pos_part e)) v)
  ]
  register-IsValid w c be s e f v = elim (Bool-cases (leb_ℤ w.max_be (pos (length s.be_clients)))) [
    | inl h ↦ rw h v
    | inr h ↦
        rw h
          (be_registered c s (ground (arith, fits w.max_be (length s.be_clients), ap pos_part f)) v)
  ]
  register-IsValid w c unknown s e f v = v

  connect-IsValid :
      (w : World) (c : ℕ) (first : Option (Role × Text)) (s : Hub)
      → w.max_fe ≡ max_fe
      → w.max_be ≡ max_be
      → IsValid late (pos_part max_fe) (pos_part max_be) s
      → IsValid late (pos_part max_fe) (pos_part max_be) (connect w c first s).0
  unfolding connect
  connect-IsValid w c none s e f v = v
  connect-IsValid w c (some (r, secret)) s e f v =
      if_both (λ (t : Hub × Bool). IsValid late (pos_part max_fe) (pos_part max_be) t.0)
        (verify_auth w secret)
        (registered-IsValid w c r (register w c r s) (register-IsValid w c r s e f v)) v

  state_changed-IsValid :
      (w : World) (s : Hub)
      → IsValid late (pos_part max_fe) (pos_part max_be) s
      → IsValid late (pos_part max_fe) (pos_part max_be) (state_changed w s)
  unfolding state_changed
  state_changed-IsValid w s v =
      with_snapshot-IsValid (pos_part max_fe) (pos_part max_be) w
        (λ n t. broadcast_to_role w fe (port_state n) (broadcast_to_role w be (port_state n) t)) s
        (λ n relay k.
          broadcast-IsValid (pos_part max_fe) (pos_part max_be) w fe (port_state n)
            (broadcast_to_role w be (port_state n) (with_relay relay s))
            (broadcast-IsValid (pos_part max_fe) (pos_part max_be) w be (port_state n)
              (with_relay relay s) k))
        v

  Step-IsValid :
      {s t : Hub}
      → Step late max_fe max_be s t
      → IsValid late (pos_part max_fe) (pos_part max_be) s
      → IsValid late (pos_part max_fe) (pos_part max_be) t
  unfolding expire
  Step-IsValid {s} (connecting w c first e f g) v = rw g (connect-IsValid w c first s e f v)
  Step-IsValid {s} (requesting w c r q f m e) v =
      rw e (handle-IsValid (pos_part max_fe) (pos_part max_be) w c r q s f m v)
  Step-IsValid {s} (disconnecting w c r e) v =
      rw e (close_client-IsValid (pos_part max_fe) (pos_part max_be) w c r s v)
  Step-IsValid {s} (expiring timer e) v =
      rw e (reaper-IsValid (pos_part max_fe) (pos_part max_be) s (expire timer s.reaper) v v.ports)
  Step-IsValid {s} (beginning e) v =
      rw e (begin_kill-IsValid (pos_part max_fe) (pos_part max_be) s v)
  Step-IsValid {s} (ending e) v = rw e (end_kill-IsValid (pos_part max_fe) (pos_part max_be) s v)
  Step-IsValid {s} (sweeping order now e) v = rw e (
      leases-IsValid (pos_part max_fe) (pos_part max_be) (sweep_locked order now s.leases) s
        (Call-IsValid (Calls.sweeping order now refl) v.leases)
        (λ sid r h. inl (sweep_locked_before order now s.leases sid r h)) v)
  Step-IsValid {s} (freeing port e) v = rw e (
      leases-IsValid (pos_part max_fe) (pos_part max_be) (release_by_port port s.leases) s
        (Call-IsValid (Calls.freeing port refl) v.leases)
        (λ sid r h. inl (release_by_port_before port s.leases sid r h)) v)
  Step-IsValid {s} (telling w e) v = rw e (state_changed-IsValid w s v)
  Step-IsValid {s} (relaying a e) v = rw e (
      relay-IsValid (pos_part max_fe) (pos_part max_be) s (act a s.reaper.relay) v
        (act-IsValid a s.reaper.relay v.ports))

  new_hub-IsValid : IsValid late (pos_part max_fe) (pos_part max_be) new_hub
  unfolding new_hub new_port_manager new_relay_server lookup
  new_hub-IsValid = record {
    leases = (Reach-exclusive Calls.start).0;
    ports = λ q. record { no_fe = refl; settled = λ h. cc; running = λ h. cc };
    owned = λ sid h. cc;
    fe_fit = omega arith;
    be_fit = omega arith;
  }

  -- From a new hub, after anything that happens to it in any order, each handler and each timer's lock
  -- undisturbed: the three maps of the leases agree and each lease is of one port; no front end waits at a
  -- port, and a busy port has a session and no back end that waits; every lease belongs to a client that the
  -- hub still has, or to one of `late`, whose handlers may ask for a lease after their clients have left; and
  -- there are at most as many front ends and back ends as the configuration allows.
  pub Reach-Hub :
      {s : Hub} → Reach late max_fe max_be s → IsValid late (pos_part max_fe) (pos_part max_be) s
  Reach-Hub start = new_hub-IsValid
  Reach-Hub (next r step) = Step-IsValid step (Reach-Hub r)
