-- ===== src/V1/Hub/Leak.antt =====
-- v1/control/hub.go: what the handler of a connection leaves behind where the answer to the registration
-- cannot be sent.
use relay_x.Prelude.{
  ℕ, suc, ◌≡◌, refl, ap, ◌∙◌, true, false, inl, inr, some, List, [], ◌∷◌, Text, arith, length,
  Bool-cases, ==_iff,
}
use relay_x.Prelude.Int.{pos, leb_ℤ}
use relay_x.Prelude.Sorting.{elem}
use relay_x.Slots.{fe}
use relay_x.Central.{without}
use relay_x.V1.Hub.{World, Hub, verify_auth, register, connect}

without_new : (c : ℕ) (l : List ℕ) → elem c l ≡ false → without c l ≡ l
unfolding elem
without_new c [] n = refl
without_new c (x ∷ l) n = ground (arith, without_new c l, ==_iff x c, ==_iff c x, ap (λ m. x ∷ m))

room : (n : ℕ) → leb_ℤ (pos (suc n)) (pos n) ≡ false
room n = ground arith

full : (n : ℕ) → leb_ℤ (pos (suc n)) (pos (suc n)) ≡ true
full n = ground arith

module _ (w : World) (c : ℕ) (s : Hub) where
  abbrev taken : Hub
  taken = record s { fe_clients = c ∷ s.fe_clients }

  register_last :
      elem c s.fe_clients ≡ false
      → w.max_fe ≡ pos (suc (length s.fe_clients))
      → register w c fe s ≡ (taken, true)
  unfolding register
  register_last n m = rw m (
      rw (room (length s.fe_clients))
        (ap (λ l. (record s { fe_clients = c ∷ l }, true)) (without_new c s.fe_clients n)))

  register_full :
      (d : ℕ) → w.max_fe ≡ pos (suc (length s.fe_clients)) → register w d fe taken ≡ (taken, false)
  unfolding register
  register_full d m = rw m (rw (full (length s.fe_clients)) refl)

-- A new front end that has the secret takes the last place, and the first answer to it cannot be sent: it
-- keeps the place though its handler has ended, and as long as nothing else happens no other front end is let
-- in, whatever its secret.
pub connect-place :
    (w u : World) (c d : ℕ) (secret other : Text) (s : Hub)
    → verify_auth w secret ≡ true
    → elem c s.fe_clients ≡ false
    → w.max_fe ≡ pos (suc (length s.fe_clients))
    → u.max_fe ≡ w.max_fe
    → w.broken c ≡ true
    → let left = record s { fe_clients = c ∷ s.fe_clients } in
      (connect w c (some (fe, secret)) s ≡ (left, false))
      × (connect u d (some (fe, other)) left ≡ (left, false))
unfolding connect
connect-place w u c d secret other s a n m e b = (
  rw a (rw (register_last w c s n m) (ground arith)),
  elim (Bool-cases (verify_auth u other)) [
    | inl h ↦ rw h (rw (register_full u c s d (e ∙ m)) refl)
    | inr h ↦ rw h refl
  ],
)
