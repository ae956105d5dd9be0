-- ===== src/Control/Register.antt =====
-- v4/control/server.go: the invariant of the hub's three maps, and what registering does.
use relay_x.Prelude.{
  ℕ, ◌≤◌, ◌≡◌, ◌≢◌, ◌↔◌, ◌⊎◌, inl, inr, true, false, Option, none, some, [], Text, length, arith,
  text_eq_iff, Option-cases,
}
use relay_x.Prelude.Int.{pos, pos_part, ◌≤ℤ◌, leb_ℤ}
use relay_x.Prelude.Assoc.{
  lookup, text_key, number_key, lookup-insert, lookup-delete, length-insert_new, length-delete,
  delete-insert,
}
use relay_x.Errors.{nil}
use relay_x.Status.{approved}
use relay_x.Control.Hub.{
  Hub, Client, admitted, is_server, is_client, validate_and_register, unregister,
}

abbrev pub InServers : Hub → Text → Option Client → Type 0
InServers h id none = Unit {0}
InServers h id (some c) =
    (c.id ≡ id)
    × (is_server c.role ≡ true)
    × (c.auth ≡ approved)
    × (pos 1 ≤ℤ c.max_conn)
    × (lookup c.conn h.clients ≡ some c)

abbrev pub InFe : Hub → Text → Option Client → Type 0
InFe h id none = Unit {0}
InFe h id (some c) =
    (c.id ≡ id)
    × (is_client c.role ≡ true)
    × (c.auth ≡ approved)
    × (lookup c.conn h.clients ≡ some c)

abbrev pub InClients : Hub → ℕ → Option Client → Type 0
InClients h conn none = Unit {0}
InClients h conn (some c) =
    (c.conn ≡ conn)
    × ((is_server c.role ≡ true) × (lookup c.id h.servers ≡ some c)
        ⊎ (is_client c.role ≡ true) × (lookup c.id h.fe ≡ some c))

pub record IsValid (h : Hub) : Type 0 where
  pub bounded : length h.clients ≤ pos_part h.max_connections
  pub servers : (id : Text) → InServers h id (lookup id h.servers)
  pub fe : (id : Text) → InFe h id (lookup id h.fe)
  pub clients : (conn : ℕ) → InClients h conn (lookup conn h.clients)

module _ (c : Client) (h : Hub) (fresh : lookup c.conn h.clients ≡ none) (v : IsValid h) where
  register-bounded :
      let h' = (validate_and_register c h).0 in length h'.clients ≤ pos_part h'.max_connections
  unfolding validate_and_register
  register-bounded = ground (arith, v.bounded, length-insert_new c.conn (admitted c) h.clients)

  register-servers :
      (id : Text) → let h' = (validate_and_register c h).0 in InServers h' id (lookup id h'.servers)
  unfolding validate_and_register
  register-servers id = elim (Option-cases (lookup id h.servers)) [
    | inl e ↦ ground (
      arith,
      v.servers id,
      lookup-insert c.id id (admitted c) h.servers,
      text_eq_iff c.id id,
      lookup-insert c.conn c.conn (admitted c) h.clients,
    )
    | inr (d, e) ↦ ground (
      arith,
      v.servers id,
      lookup-insert c.id id (admitted c) h.servers,
      text_eq_iff c.id id,
      lookup-insert c.conn c.conn (admitted c) h.clients,
      lookup-insert c.conn d.conn (admitted c) h.clients,
    )
  ]

  register-fe : (id : Text) → let h' = (validate_and_register c h).0 in InFe h' id (lookup id h'.fe)
  unfolding validate_and_register
  register-fe id = elim (Option-cases (lookup id h.fe)) [
    | inl e ↦ ground (
      arith,
      v.fe id,
      lookup-insert c.id id (admitted c) h.fe,
      text_eq_iff c.id id,
      lookup-insert c.conn c.conn (admitted c) h.clients,
    )
    | inr (d, e) ↦ ground (
      arith,
      v.fe id,
      lookup-insert c.id id (admitted c) h.fe,
      text_eq_iff c.id id,
      lookup-insert c.conn c.conn (admitted c) h.clients,
      lookup-insert c.conn d.conn (admitted c) h.clients,
    )
  ]

  register-clients :
      (conn : ℕ)
      → let h' = (validate_and_register c h).0 in InClients h' conn (lookup conn h'.clients)
  unfolding validate_and_register
  register-clients conn = elim (Option-cases (lookup conn h.clients)) [
    | inl e ↦ ground (
      arith,
      v.clients conn,
      lookup-insert c.conn conn (admitted c) h.clients,
      lookup-insert c.id c.id (admitted c) h.servers,
      lookup-insert c.id c.id (admitted c) h.fe,
      text_eq_iff c.id c.id,
    )
    | inr (d, e) ↦ ground (
      arith,
      v.clients conn,
      lookup-insert c.conn conn (admitted c) h.clients,
      lookup-insert c.id c.id (admitted c) h.servers,
      lookup-insert c.id c.id (admitted c) h.fe,
      lookup-insert c.id d.id (admitted c) h.servers,
      lookup-insert c.id d.id (admitted c) h.fe,
      text_eq_iff c.id c.id,
      text_eq_iff c.id d.id,
    )
  ]

module _ (c : Client) (h : Hub) (there : lookup c.conn h.clients ≡ some c) (v : IsValid h) where
  unregister-servers :
      (id : Text) → let h' = unregister c h in InServers h' id (lookup id h'.servers)
  unfolding unregister
  unregister-servers id = elim (Option-cases (lookup id h.servers)) [
    | inl e ↦ ground (arith, v.servers id, lookup-delete c.id id h.servers, text_eq_iff c.id id)
    | inr (d, e) ↦ ground (
      arith,
      v.servers id,
      v.clients c.conn,
      lookup-delete c.id id h.servers,
      text_eq_iff c.id id,
      lookup-delete c.conn d.conn h.clients,
    )
  ]

  unregister-fe : (id : Text) → let h' = unregister c h in InFe h' id (lookup id h'.fe)
  unfolding unregister
  unregister-fe id = elim (Option-cases (lookup id h.fe)) [
    | inl e ↦ ground (arith, v.fe id, lookup-delete c.id id h.fe, text_eq_iff c.id id)
    | inr (d, e) ↦ ground (
      arith,
      v.fe id,
      v.clients c.conn,
      lookup-delete c.id id h.fe,
      text_eq_iff c.id id,
      lookup-delete c.conn d.conn h.clients,
    )
  ]

  unregister-clients :
      (conn : ℕ) → let h' = unregister c h in InClients h' conn (lookup conn h'.clients)
  unfolding unregister
  unregister-clients conn = elim (Option-cases (lookup conn h.clients)) [
    | inl e ↦ ground (arith, v.clients conn, lookup-delete c.conn conn h.clients)
    | inr (d, e) ↦ ground (
      arith,
      v.clients conn,
      v.clients c.conn,
      lookup-delete c.conn conn h.clients,
      lookup-delete c.id d.id h.servers,
      lookup-delete c.id d.id h.fe,
      text_eq_iff c.id d.id,
    )
  ]

-- Registering a client on a connection that the hub does not have, whatever the outcome, keeps the
-- hub valid: at most `MaxConnections` clients; each entry of the two id maps is an approved client
-- of that id and role, a server with a capacity of at least 1; and the map of the connections holds
-- exactly the clients of the two id maps, each under its own connection.
pub register-IsValid :
    (c : Client) (h : Hub)
    → lookup c.conn h.clients ≡ none
    → IsValid h
    → IsValid (validate_and_register c h).0
register-IsValid c h fresh v = record {
  bounded = register-bounded c h fresh v;
  servers = register-servers c h fresh v;
  fe = register-fe c h fresh v;
  clients = register-clients c h fresh v;
}

-- Removing a client that the hub holds keeps the hub valid.
pub unregister-IsValid :
    (c : Client) (h : Hub) → lookup c.conn h.clients ≡ some c → IsValid h → IsValid (unregister c h)
unfolding unregister
unregister-IsValid c h there v = record {
  bounded = ground (arith, v.bounded, length-delete c.conn h.clients);
  servers = unregister-servers c h there v;
  fe = unregister-fe c h there v;
  clients = unregister-clients c h there v;
}

-- A registration that succeeds on a connection that the hub did not have is undone by `unregister`:
-- the hub is again the very one from before.
pub unregister-register :
    (c : Client) (h : Hub) {h' : Hub}
    → lookup c.conn h.clients ≡ none
    → validate_and_register c h ≡ (h', nil)
    → unregister (admitted c) h' ≡ h
unfolding validate_and_register unregister
unregister-register c h fresh e = ground (
  arith,
  delete-insert c.conn (admitted c) h.clients,
  delete-insert c.id (admitted c) h.servers,
  delete-insert c.id (admitted c) h.fe,
  lookup-insert c.id c.id (admitted c) h.servers,
  lookup-insert c.id c.id (admitted c) h.fe,
  text_eq_iff c.id c.id,
)

-- Whom a hub takes in.
pub record Admits (c : Client) (h : Hub) : Type 0 where
  pub id : c.id ≢ []
  pub token : c.token ≢ []
  pub role : (is_server c.role ≡ true) ⊎ (is_client c.role ≡ true)
  pub room : leb_ℤ h.max_connections (pos (length h.clients)) ≡ false
  pub free_server : is_server c.role ≡ true → lookup c.id h.servers ≡ none
  pub free_client : is_client c.role ≡ true → lookup c.id h.fe ≡ none

-- A registration succeeds exactly for a client with an id, a token and one of the two roles, while
-- there is room, under an id that no client of its role has; and one that fails changes nothing.
pub validate_and_register_iff :
    (c : Client) (h : Hub)
    → (((validate_and_register c h).1 ≡ nil) ↔ Admits c h)
      × ((validate_and_register c h).1 ≢ nil → (validate_and_register c h).0 ≡ h)
unfolding validate_and_register
validate_and_register_iff c h = ((λ e. ground arith, λ a. ground arith), λ n. ground arith)
