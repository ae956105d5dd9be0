-- ===== src/Relay/Booting/Stopping.antt =====
-- v4/relay/manager.go: what `Stop` leaves of the data plane.
use relay_x.Prelude.{
  some, codes, text_eq, ℕ, ◌≡◌, refl, ap, ◌∙◌, false, none, List, [], ◌∷◌, Map, put, arith, ==_iff,
  if◌then◌else◌,
}
use relay_x.Prelude.Sorting.{elem}
use relay_x.Relay.Tcp.{
  enqueue, Server, each, stop_all, stop_listener, stop_pending_s, stop_pending_c, stop_session,
}
use relay_x.Relay.Srt.{SrtServer}
use relay_x.Relay.Booting.{Plane, Orders, stop_plane}

-- A loop that takes its ports out of a map, or leaves the map alone.
module _ {S V : Type 0} (f : ℕ → S → S) (m : S → Map V) where
  each-cleared :
      ((p : ℕ) (s : S) → m (f p s) ≡ put (m s) p none)
      → (ps : List ℕ) (s : S) (q : ℕ) → m (each f ps s) q ≡ (if elem q ps then none else m s q)
  unfolding each elem
  each-cleared h [] s q = refl
  each-cleared h (p ∷ ps) s q =
      ground (
        arith,
        each-cleared h ps (f p s) q,
        ap (λ (x : Map V). x q) (h p s),
        ==_iff p q,
        ==_iff q p,
      )

  each-same : ((p : ℕ) (s : S) → m (f p s) ≡ m s) → (ps : List ℕ) (s : S) → m (each f ps s) ≡ m s
  unfolding each
  each-same h [] s = refl
  each-same h (p ∷ ps) s = each-same h ps (f p s) ∙ h p s

-- The orders visit every key of the four maps, and so leave them empty.
abbrev pub Visits {ℓ} : {V : Type ℓ} → List ℕ → Map V → Type ℓ
Visits order m = (q : ℕ) → elem q order ≡ false → m q ≡ none

pub record VisitsServer (o : Orders) (s : Server) : Type 0 where
  pub listeners : Visits o.listeners s.listeners
  pub pending_s : Visits o.pending_s s.pending_s
  pub pending_c : Visits o.pending_c s.pending_c
  pub sessions : Visits o.sessions s.sessions

pub record VisitsSrt (o : Orders) (s : SrtServer) : Type 0 where
  pub listeners : Visits o.listeners s.listeners
  pub pending_s : Visits o.pending_s s.pending_s
  pub pending_c : Visits o.pending_c s.pending_c
  pub sessions : Visits o.sessions s.sessions

visited :
    {V : Type 0} (order : List ℕ) (m m' : Map V) (q : ℕ)
    → m' q ≡ (if elem q order then none else m q)
    → Visits order m
    → m' q ≡ none
visited order m m' q h v = ground (arith, h, v q)

-- A server with no listener, no waiting connection and no session at a port.
abbrev pub IsEmptyAt : ℕ → Server → Type 0
IsEmptyAt q s =
    (s.listeners q ≡ none) × (s.pending_s q ≡ none) × (s.pending_c q ≡ none) × (s.sessions q ≡ none)

abbrev pub IsEmptySrtAt : ℕ → SrtServer → Type 0
IsEmptySrtAt q s =
    (s.listeners q ≡ none) × (s.pending_s q ≡ none) × (s.pending_c q ≡ none) × (s.sessions q ≡ none)

stop_all-empty :
    (o : Orders) (s : Server)
    → VisitsServer o s
    → (q : ℕ) → IsEmptyAt q (stop_all o.listeners o.pending_s o.pending_c o.sessions s)
unfolding stop_all stop_listener stop_pending_s stop_pending_c stop_session
stop_all-empty o s v q =
    let s1 = each stop_listener o.listeners s in
    let s2 = each stop_pending_s o.pending_s s1 in
    let s3 = each stop_pending_c o.pending_c s2 in
    let s4 = each stop_session o.sessions s3 in
    (
      visited o.listeners s.listeners s4.listeners q
          (ap (λ x. x q)
              (each-same stop_session (λ t. t.listeners) (λ p t. refl) o.sessions s3
                ∙ each-same stop_pending_c (λ t. t.listeners) (λ p t. refl) o.pending_c s2
                ∙ each-same stop_pending_s (λ t. t.listeners) (λ p t. refl) o.pending_s s1)
            ∙ each-cleared stop_listener (λ t. t.listeners) (λ p t. refl) o.listeners s q)
          v.listeners,
      visited o.pending_s s.pending_s s4.pending_s q
          (ap (λ x. x q)
              (each-same stop_session (λ t. t.pending_s) (λ p t. refl) o.sessions s3
                ∙ each-same stop_pending_c (λ t. t.pending_s) (λ p t. refl) o.pending_c s2)
            ∙ each-cleared stop_pending_s (λ t. t.pending_s) (λ p t. refl) o.pending_s s1 q
            ∙ ap (λ x. if elem q o.pending_s then none else x q)
                (each-same stop_listener (λ t. t.pending_s) (λ p t. refl) o.listeners s))
          v.pending_s,
      visited o.pending_c s.pending_c s4.pending_c q
          (ap (λ x. x q) (each-same stop_session (λ t. t.pending_c) (λ p t. refl) o.sessions s3)
            ∙ each-cleared stop_pending_c (λ t. t.pending_c) (λ p t. refl) o.pending_c s2 q
            ∙ ap (λ x. if elem q o.pending_c then none else x q)
                (each-same stop_pending_s (λ t. t.pending_c) (λ p t. refl) o.pending_s s1
                  ∙ each-same stop_listener (λ t. t.pending_c) (λ p t. refl) o.listeners s))
          v.pending_c,
      visited o.sessions s.sessions s4.sessions q
          (each-cleared stop_session (λ t. t.sessions) (λ p t. refl) o.sessions s3 q
            ∙ ap (λ x. if elem q o.sessions then none else x q)
                (each-same stop_pending_c (λ t. t.sessions) (λ p t. refl) o.pending_c s2
                  ∙ each-same stop_pending_s (λ t. t.sessions) (λ p t. refl) o.pending_s s1
                  ∙ each-same stop_listener (λ t. t.sessions) (λ p t. refl) o.listeners s))
          v.sessions,
    )

-- What others do between the two locks leaves a TCP port empty that was. It need not: a connection whose
-- first message is being read, or a port that is being started, comes in whether or not `Stop` was there.
abbrev pub StaysEmpty : ℕ → (Plane → Plane) → Plane → Type 0
StaysEmpty q others p = IsEmptyAt q p.zmq → IsEmptyAt q (others p).zmq

-- The TCP servers once `Stop` is done with them.
abbrev pub stopped_zmq : Orders → Plane → Plane
stopped_zmq z p = record p { zmq = stop_all z.listeners z.pending_s z.pending_c z.sessions p.zmq }

-- A connection that `handleConn` lets in after `Stop` waits at its port, and nothing stops it any more.
enqueue-stop_plane :
    (z w : Orders) (p : Plane) (q c : ℕ)
    → VisitsServer z p.zmq
    → (enqueue q (codes "server") c (stop_plane z w (λ t. t) p).zmq).pending_s q ≡ some c
unfolding stop_plane enqueue text_eq
enqueue-stop_plane z w p q c v =
    let (l, s, d, n) = stop_all-empty z p.zmq v q in ground (arith, ==_iff q q, l, s, d, n)
