-- ===== src/Relay/Flows.antt =====
-- v4/relay/session.go: the bytes that one direction of a session carries.
use relay_x.Prelude.{
  ℕ, ◌+◌, ◌%◌, ◌^◌, ◌≤◌, ◌≡◌, refl, ap, false, ◌||◌, List, [], ◌∷◌, ◌++◌, length, take, drop,
  take-append-drop, length-append, length-take, Bool-cases, inl, inr, arith,
}
use mathlib.Core.List.{append_assoc}
use relay_x.Relay.Pipe.{
  ReadError, no_error, timeout, eof, closed, other, Round, Flow, moved, stop, after_read, transfer,
  pipe, new_flow,
}

-- What `io.Writer` asks of `Write`: it takes no more than it is given, and all of it unless it fails.
pub record IsHonest (r : Round) : Type 0 where
  pub bounded : r.taken ≤ length r.data_read
  pub whole : r.write_failed ≡ false → r.taken ≡ length r.data_read

abbrev pub AllHonest : List Round → Type 0
AllHonest [] = Unit {0}
AllHonest (r ∷ rs) = IsHonest r × AllHonest rs

-- The counters count, and what was delivered is a prefix of what was read, all of it until the
-- session is stopped.
pub record IsFaithful (f : Flow) : Type 0 where
  pub counted_in : f.in_count ≡ length f.received % 2 ^ 64
  pub counted_out : f.out_count ≡ length f.delivered % 2 ^ 64
  pub ordered : (missing : List ℕ) × (f.received ≡ f.delivered ++ missing)
  pub complete : f.stopped ≡ false → f.received ≡ f.delivered

-- Before a round, everything read was delivered.
pub record IsEven (f : Flow) : Type 0 where
  pub faithful : IsFaithful f
  pub even : f.received ≡ f.delivered

take-all : (s : List ℕ) → take (length s) s ≡ s
take-all [] = refl
take-all (b ∷ s) = ap (λ t. b ∷ t) (take-all s)

take_whole : (n : ℕ) (s : List ℕ) → n ≡ length s → take n s ≡ s
take_whole n s e = rw e (take-all s)

stop-IsFaithful : (f : Flow) → IsFaithful f → IsFaithful (stop f)
stop-IsFaithful f v = record {
  counted_in = v.counted_in;
  counted_out = v.counted_out;
  ordered = v.ordered;
  complete = λ h. cc;
}

added :
    (a n : ℕ) (s t : List ℕ)
    → a ≡ length s % 2 ^ 64
    → n ≡ length t
    → (a + n) % 2 ^ 64 ≡ length (s ++ t) % 2 ^ 64
added a n s t h k = omega (arith, length-append s t)

taken_length : (n : ℕ) (s : List ℕ) → n ≤ length s → n ≡ length (take n s)
taken_length n s h = omega (arith, length-take n s)

moved-stopped : (r : Round) (f : Flow) → IsHonest r → IsEven f → IsFaithful (stop (moved r f))
moved-stopped r f h v = record {
  counted_in =
      added f.in_count (length r.data_read) f.received r.data_read v.faithful.counted_in refl;
  counted_out =
      added f.out_count r.taken f.delivered (take r.taken r.data_read) v.faithful.counted_out
        (taken_length r.taken r.data_read h.bounded);
  ordered = (drop r.taken r.data_read, split_here);
  complete = λ k. cc;
}
  where
    split_here :
        f.received ++ r.data_read
        ≡ (f.delivered ++ take r.taken r.data_read) ++ drop r.taken r.data_read
    split_here =
        rw (append_assoc f.delivered (take r.taken r.data_read) (drop r.taken r.data_read))
          (rw (take-append-drop r.taken r.data_read) (ap (λ s. s ++ r.data_read) v.even))

moved-IsEven :
    (r : Round) (f : Flow) → IsHonest r → r.write_failed ≡ false → IsEven f → IsEven (moved r f)
moved-IsEven r f h w v = record {
  faithful = record {
    counted_in = (moved-stopped r f h v).counted_in;
    counted_out = (moved-stopped r f h v).counted_out;
    ordered = (moved-stopped r f h v).ordered;
    complete = λ k. same;
  };
  even = same;
}
  where
    same : f.received ++ r.data_read ≡ f.delivered ++ take r.taken r.data_read
    same = rw (take_whole r.taken r.data_read (h.whole w)) (ap (λ s. s ++ r.data_read) v.even)

module _ (again : Flow → Flow) (holds : (g : Flow) → IsEven g → IsFaithful (again g)) where
  after_read-IsFaithful : (e : ReadError) (g : Flow) → IsEven g → IsFaithful (after_read again e g)
  after_read-IsFaithful no_error g w = holds g w
  after_read-IsFaithful timeout g w = holds g w
  after_read-IsFaithful eof g w = stop-IsFaithful g w.faithful
  after_read-IsFaithful closed g w = stop-IsFaithful g w.faithful
  after_read-IsFaithful other g w = stop-IsFaithful g w.faithful

  transfer-IsFaithful :
      (r : Round) (s : List ℕ) (f : Flow)
      → IsHonest r
      → IsEven f
      → IsFaithful (transfer again r s f)
  transfer-IsFaithful r [] f h v = after_read-IsFaithful r.read_error f v
  transfer-IsFaithful r (b ∷ s) f h v = elim (Bool-cases r.write_failed) [
    | inl w ↦ rw w (moved-stopped r f h v)
    | inr w ↦ rw w (after_read-IsFaithful r.read_error (moved r f) (moved-IsEven r f h w v))
  ]

pub pipe-IsFaithful :
    (rs : List Round) (f : Flow) → AllHonest rs → IsEven f → IsFaithful (pipe rs f)
unfolding pipe
pipe-IsFaithful [] f h v = v.faithful
pipe-IsFaithful (r ∷ rs) f h v = elim (Bool-cases (r.ctx_done || r.done)) [
  | inl e ↦ rw e v.faithful
  | inr e ↦
      rw e (transfer-IsFaithful (pipe rs) (λ g w. pipe-IsFaithful rs g h.1 w) r r.data_read f h.0 v)
]

-- Where `Write` keeps the contract of `io.Writer` in every round, a direction of a new session
-- delivers the bytes that it reads in their order, none twice and none left out in between, has
-- delivered all of them until it stops the session, and counts both modulo 2 ^ 64. This holds after
-- any number of rounds, with any errors and any ends of the context and of the session.
pub pipe-new_flow : (rs : List Round) (now : ℕ) → AllHonest rs → IsFaithful (pipe rs (new_flow now))
pipe-new_flow rs now h = pipe-IsFaithful rs (new_flow now) h (record {
  faithful = record {
    counted_in = omega arith;
    counted_out = omega arith;
    ordered = ([], refl);
    complete = λ k. refl;
  };
  even = refl;
})
