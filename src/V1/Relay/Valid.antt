-- ===== src/V1/Relay/Valid.antt =====
-- v1/relay/server.go: what any interleaving of the atomic steps keeps.
use relay_x.Prelude.{
  ℕ, ◌≡◌, refl, sym, ap, ◌∙◌, inl, inr, Bool, true, false, Bool-cases, Option, none, some, List, [],
  ◌∷◌, ◌++◌, Text, put, arith, ◌==◌, ==_iff, if_both,
}
use relay_x.Errors.{Err, Result, ok, err}
use relay_x.Leases.{present}
use relay_x.Slots.{Waiting, Role, be, fe, unknown, PipeSession, is_session}
use relay_x.V1.Relay.{
  RelayServer, new_relay_server, set_at, close, start_relay_port, admit_be, admit_fe, admit,
  greeted, accept, on_stop, stop_port, looked_at, look_at_pending, is_port_busy,
}

-- No front end ever waits; where a port is busy no back end waits and there is a session.
pub record IsValidAt (busy : Bool) (session : Option ℕ) (b f : Option Waiting) : Type 0 where
  pub no_fe : f ≡ none
  pub settled : busy ≡ true → b ≡ none
  pub running : busy ≡ true → present session ≡ true

abbrev pub IsValid : RelayServer → Type 0
IsValid s = (q : ℕ) → IsValidAt (s.busy q) (s.sessions q) (s.pending_be q) (s.pending_fe q)

start-IsValid :
    (port : ℕ) (protocol : Text) (listen : Result ℕ) (s : RelayServer)
    → IsValid s
    → IsValid (start_relay_port port protocol listen s).0
unfolding start_relay_port
start-IsValid port protocol (err e) s v =
    if_both (λ (t : RelayServer × Err). IsValid t.0) (present (s.listeners port)) v v
start-IsValid port protocol (ok ln) s v =
    if_both (λ (t : RelayServer × Err). IsValid t.0) (present (s.listeners port)) v v

-- A step that changes one port.
abbrev changed : ℕ → Bool → Option ℕ → Option Waiting → RelayServer → RelayServer
changed port busy session b s = record s {
  busy = set_at s.busy port busy;
  sessions = put s.sessions port session;
  pending_be = put s.pending_be port b;
}

changed-IsValid :
    (port : ℕ) (busy : Bool) (session : Option ℕ) (b : Option Waiting) (s : RelayServer)
    → (busy ≡ true → b ≡ none)
    → (busy ≡ true → present session ≡ true)
    → IsValid s
    → IsValid (changed port busy session b s)
changed-IsValid port busy session b s f g v q = elim (Bool-cases (port == q)) [
  | inl e ↦ rw e (record { no_fe = (v q).no_fe; settled = f; running = g })
  | inr e ↦ rw e (v q)
]

admit_be-IsValid :
    (b f : Option Waiting) (port session : ℕ) (w : Waiting) (s : RelayServer)
    → s.pending_be port ≡ b
    → s.pending_fe port ≡ f
    → s.busy port ≡ false
    → IsValid s
    → IsValid (admit_be b f port session w s).0
admit_be-IsValid (some b) f port session w s e g n v = v
admit_be-IsValid none (some f) port session w s e g n v = absurd (ground (arith, (v port).no_fe))
admit_be-IsValid none none port session w s e g n v = waits
  where
    waits : IsValid (record s { pending_be = put s.pending_be port (some w) })
    waits q = elim (Bool-cases (port == q)) [
      | inl h ↦
          let free : s.busy q ≡ false = ap s.busy (sym ((==_iff port q).0 h)) ∙ n in
          rw h (record { no_fe = (v q).no_fe; settled = λ k. cc; running = (v q).running })
      | inr h ↦ rw h (v q)
    ]

admit_fe-IsValid :
    (b : Option Waiting) (port session : ℕ) (w : Waiting) (s : RelayServer)
    → IsValid s
    → IsValid (admit_fe b port session w s).0
admit_fe-IsValid none port session w s v = v
admit_fe-IsValid (some b) port session w s v =
    changed-IsValid port true (some session) none s (λ h. refl) (λ h. refl) v

pub admit-IsValid :
    (r : Role) (port session : ℕ) (w : Waiting) (s : RelayServer)
    → IsValid s
    → IsValid (admit r port session w s).0
unfolding admit
admit-IsValid be port session w s v = elim (Bool-cases (s.busy port)) [
  | inl e ↦ rw e v
  | inr e ↦
      rw e (admit_be-IsValid (s.pending_be port) (s.pending_fe port) port session w s refl refl e v)
]
admit-IsValid fe port session w s v =
    if_both (λ (t : RelayServer × Option PipeSession). IsValid t.0) (s.busy port) v
      (admit_fe-IsValid (s.pending_be port) port session w s v)
admit-IsValid unknown port session w s v = v

on_stop-IsValid :
    (port : ℕ) (kept : Bool) (x : PipeSession) (s : RelayServer)
    → IsValid s
    → IsValid (on_stop port kept x s)
unfolding on_stop
on_stop-IsValid port kept x s v q = elim (Bool-cases (port == q)) [
  | inl e ↦ rw e (record { no_fe = (v q).no_fe; settled = λ h. cc; running = λ h. cc })
  | inr e ↦ rw e (record {
    no_fe = (v q).no_fe;
    settled = (v q).settled;
    running = λ h.
        if_both (λ (m : ℕ → Option ℕ). present (m q) ≡ true)
          (is_session x.session (s.sessions port)) (rw e ((v q).running h)) ((v q).running h);
  })
]

stop_port-IsValid : (port : ℕ) (s : RelayServer) → IsValid s → IsValid (stop_port port s)
unfolding stop_port
stop_port-IsValid port s v q = elim (Bool-cases (port == q)) [
  | inl e ↦ rw e (record { no_fe = refl; settled = λ h. refl; running = λ h. cc })
  | inr e ↦ rw e (v q)
]

looked_at-IsValid :
    (alive : Waiting → Bool) (o : Option Waiting) (port : ℕ) (s : RelayServer)
    → IsValid s
    → IsValid (looked_at alive o port s)
looked_at-IsValid alive none port s v = v
looked_at-IsValid alive (some w) port s v = if_both IsValid (alive w) v gone
  where
    gone :
        IsValid (record s { pending_be = put s.pending_be port none; closed = w.conn ∷ s.closed })
    gone q = elim (Bool-cases (port == q)) [
      | inl e ↦ rw e (record { no_fe = (v q).no_fe; settled = λ h. refl; running = (v q).running })
      | inr e ↦ rw e (v q)
    ]

look_at_pending-IsValid :
    (alive : Waiting → Bool) (order : List ℕ) (s : RelayServer)
    → IsValid s
    → IsValid (look_at_pending alive order s)
unfolding look_at_pending
look_at_pending-IsValid alive [] s v = v
look_at_pending-IsValid alive (port ∷ order) s v =
    look_at_pending-IsValid alive order (looked_at alive (s.pending_be port) port s)
      (looked_at-IsValid alive (s.pending_be port) port s v)

-- The atomic steps, each under one lock. A round of `acceptLoop` is a refusal, or other steps and then an
-- admission.
pub data Act : Type 0 where
  starting : ℕ → Text → Result ℕ → Act
  refusing : ℕ → Act
  admitting : Role → ℕ → ℕ → Waiting → Act
  ending : ℕ → Bool → PipeSession → Act
  stopping : ℕ → Act
  looking : (Waiting → Bool) → List ℕ → Act

abbrev pub act : Act → RelayServer → RelayServer
act (starting port protocol listen) s = (start_relay_port port protocol listen s).0
act (refusing c) s = close c s
act (admitting r port session w) s = (admit r port session w s).0
act (ending port kept x) s = on_stop port kept x s
act (stopping port) s = stop_port port s
act (looking alive order) s = look_at_pending alive order s

pub acts : List Act → RelayServer → RelayServer
acts [] s = s
acts (a ∷ l) s = acts l (act a s)

pub act-IsValid : (a : Act) (s : RelayServer) → IsValid s → IsValid (act a s)
act-IsValid (starting port protocol listen) s v = start-IsValid port protocol listen s v
act-IsValid (refusing c) s v = v
act-IsValid (admitting r port session w) s v = admit-IsValid r port session w s v
act-IsValid (ending port kept x) s v = on_stop-IsValid port kept x s v
act-IsValid (stopping port) s v = stop_port-IsValid port s v
act-IsValid (looking alive order) s v = look_at_pending-IsValid alive order s v

acts-IsValid : (l : List Act) (s : RelayServer) → IsValid s → IsValid (acts l s)
unfolding acts
acts-IsValid [] s v = v
acts-IsValid (a ∷ l) s v = acts-IsValid l (act a s) (act-IsValid a s v)

acts-append : (l m : List Act) (s : RelayServer) → acts (l ++ m) s ≡ acts m (acts l s)
unfolding acts
acts-append [] m s = refl
acts-append (a ∷ l) m s = acts-append l m (act a s)

greeted-acts :
    (l : List Act) (port session : ℕ) (r : Role) (w : Waiting) (s : RelayServer)
    → (m : List Act) × ((greeted r (acts l) port session w s).0 ≡ acts m s)
unfolding acts
greeted-acts l port session be w s = (
  l ++ admitting be port session w ∷ [],
  sym (acts-append l (admitting be port session w ∷ []) s),
)
greeted-acts l port session fe w s = (
  l ++ admitting fe port session w ∷ [],
  sym (acts-append l (admitting fe port session w ∷ []) s),
)
greeted-acts l port session unknown w s =
    (l ++ refusing w.conn ∷ [], sym (acts-append l (refusing w.conn ∷ []) s))

accepted :
    (l : List Act) (port session : ℕ) (r : Role) (w : Waiting) (s : RelayServer)
    → (m : List Act) × ((accept (acts l) port session r w s).0 ≡ acts m s)
unfolding accept acts
accepted l port session r w s =
    if_both (λ (t : RelayServer × Option PipeSession). (m : List Act) × (t.0 ≡ acts m s))
      (is_port_busy port s) (refusing w.conn ∷ [], refl) (greeted-acts l port session r w s)

-- In the first relay, after any atomic steps in any order: no front end ever waits at a port; and a port
-- that is busy has a session and no back end that waits. A whole round of the loop that accepts, with any
-- steps of others in its middle, is such steps.
pub acts-new_relay_server :
    ((l : List Act) → IsValid (acts l new_relay_server))
    × ((l : List Act) (port session : ℕ) (r : Role) (w : Waiting) (s : RelayServer)
        → (m : List Act) × ((accept (acts l) port session r w s).0 ≡ acts m s))
unfolding new_relay_server
acts-new_relay_server = (
  λ l.
      acts-IsValid l new_relay_server
        (λ q. record { no_fe = refl; settled = λ h. cc; running = λ h. cc }),
  accepted,
)
