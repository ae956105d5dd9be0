-- ===== src/Control/Choice.antt =====
-- v4/control/server.go: which server `tryPairOnce` chooses.
use relay_x.Prelude.{◌≡◌, refl, ◌⊎◌, inl, inr, true, false, List, [], ◌∷◌, Text, arith, Bool-cases}
use relay_x.Prelude.Int.{pos, ◌≤ℤ◌, leb_ℤ}
use relay_x.Control.Hub.{Hub, Client}
use relay_x.Control.Pairing.{
  Candidate, remaining_of, candidates, text_lt, before, insert_candidate, sort_candidates,
}

text_lt_irrefl : (s : Text) → text_lt s s ≡ false
unfolding text_lt
text_lt_irrefl [] = refl
text_lt_irrefl (a ∷ s) = ground (arith, text_lt_irrefl s)

text_lt_asym : (r s : Text) → text_lt r s ≡ true → text_lt s r ≡ false
unfolding text_lt
text_lt_asym [] [] h = refl
text_lt_asym [] (b ∷ s) h = refl
text_lt_asym (a ∷ r) [] h = cc
text_lt_asym (a ∷ r) (b ∷ s) h = ground (arith, text_lt_asym r s)

text_lt_neg_trans : (r s t : Text) → text_lt r s ≡ false → text_lt s t ≡ false → text_lt r t ≡ false
unfolding text_lt
text_lt_neg_trans r s [] h k = ground arith
text_lt_neg_trans r [] (c ∷ t) h k = cc
text_lt_neg_trans [] (b ∷ s) (c ∷ t) h k = cc
text_lt_neg_trans (a ∷ r) (b ∷ s) (c ∷ t) h k = ground (arith, text_lt_neg_trans r s t)

before_irrefl : (a : Candidate) → before a a ≡ false
unfolding before
before_irrefl a = ground (arith, text_lt_irrefl a.server.id)

before_asym : (a b : Candidate) → before a b ≡ true → before b a ≡ false
unfolding before
before_asym a b h = ground (arith, text_lt_asym a.server.id b.server.id)

before_neg_trans :
    (a b c : Candidate) → before a b ≡ false → before b c ≡ false → before a c ≡ false
unfolding before
before_neg_trans a b c h k = ground (arith, text_lt_neg_trans a.server.id b.server.id c.server.id)

abbrev pub All {ℓ κ} : {A : Type ℓ} → (A → Type κ) → List A → Type κ
All P [] = Unit
All P (x ∷ xs) = P x × All P xs

All-map {ℓ κ μ} :
    {A : Type ℓ} (P : A → Type κ) (Q : A → Type μ) (xs : List A)
    → ((x : A) → P x → Q x)
    → All P xs
    → All Q xs
All-map P Q [] f h = tt
All-map P Q (x ∷ xs) f h = (f x h.0, All-map P Q xs f h.1)

-- None of the candidates comes before the head of the list.
abbrev Leads : List Candidate → List Candidate → Type 0
Leads [] cs = cs ≡ []
Leads (b ∷ ds) cs = All (λ d. before d b ≡ false) cs

insert_candidate-Leads :
    (c : Candidate) (ds cs : List Candidate) → Leads ds cs → Leads (insert_candidate c ds) (c ∷ cs)
unfolding insert_candidate
insert_candidate-Leads c [] cs h = rw h (before_irrefl c, tt)
insert_candidate-Leads c (b ∷ ds) cs h = elim (Bool-cases (before b c)) [
  | inl e ↦ rw e (before_asym b c e, h)
  | inr e ↦ rw e (
    before_irrefl c,
    All-map (λ d. before d b ≡ false) (λ d. before d c ≡ false) cs
        (λ d k. before_neg_trans d b c k e) h,
  )
]

sort_candidates-Leads : (cs : List Candidate) → Leads (sort_candidates cs) cs
unfolding sort_candidates
sort_candidates-Leads [] = refl
sort_candidates-Leads (c ∷ cs) =
    insert_candidate-Leads c (sort_candidates cs) cs (sort_candidates-Leads cs)

insert_candidate-All :
    (P : Candidate → Type 0) (c : Candidate) (ds : List Candidate)
    → P c
    → All P ds
    → All P (insert_candidate c ds)
unfolding insert_candidate
insert_candidate-All P c [] h k = (h, tt)
insert_candidate-All P c (d ∷ ds) h k = elim (Bool-cases (before d c)) [
  | inl e ↦ rw e (k.0, insert_candidate-All P c ds h k.1)
  | inr e ↦ rw e (h, k)
]

sort_candidates-All :
    (P : Candidate → Type 0) (cs : List Candidate) → All P cs → All P (sort_candidates cs)
unfolding sort_candidates
sort_candidates-All P [] h = tt
sort_candidates-All P (c ∷ cs) h =
    insert_candidate-All P c (sort_candidates cs) h.0 (sort_candidates-All P cs h.1)

abbrev pub Among : Client → List Client → Type 0
Among a [] = ⊥
Among a (x ∷ xs) = (a ≡ x) ⊎ Among a xs

-- A candidate is one of the servers, with its remaining capacity, which is positive.
abbrev IsCandidate : Hub → List Client → Candidate → Type 0
IsCandidate h ss d =
    (d.remaining ≡ remaining_of h d.server) × (pos 1 ≤ℤ d.remaining) × Among d.server ss

candidates-IsCandidate : (h : Hub) (ss : List Client) → All (IsCandidate h ss) (candidates h ss)
unfolding candidates
candidates-IsCandidate h [] = tt
candidates-IsCandidate h (s ∷ ss) =
    let weaker : All (IsCandidate h (s ∷ ss)) (candidates h ss) =
      All-map (IsCandidate h ss) (IsCandidate h (s ∷ ss)) (candidates h ss)
        (λ d k. (k.0, k.1, inr k.2)) (candidates-IsCandidate h ss) in
    elim (Bool-cases (leb_ℤ (remaining_of h s) (pos 0))) [
      | inl e ↦ rw e weaker
      | inr e ↦ rw e ((refl, ground arith, inl refl), weaker)
    ]

-- What holds of all candidates holds of a server with capacity left.
candidates_cover :
    (P : Candidate → Type 0) (h : Hub) (ss : List Client) (t : Client)
    → All P (candidates h ss)
    → Among t ss
    → (leb_ℤ (remaining_of h t) (pos 0) ≡ true)
      ⊎ P (record { server = t; remaining = remaining_of h t })
unfolding candidates
candidates_cover P h [] t a m = absurd m
candidates_cover P h (s ∷ ss) t a m = elim (Bool-cases (leb_ℤ (remaining_of h s) (pos 0))) [
  | inl e ↦ elim m [ inl i ↦ inl (rw i e) | inr n ↦ candidates_cover P h ss t (rw e at a) n ]
  | inr e ↦ elim m [
    | inl i ↦ inr (rw i (rw e at a).0)
    | inr n ↦ candidates_cover P h ss t (rw e at a).1 n
  ]
]

-- The server that a pairing uses: it has capacity left, no eligible server has more, and among
-- those with as much no id comes before its own.
pub record IsChoice (h : Hub) (ss : List Client) (s : Client) : Type 0 where
  pub eligible : Among s ss
  pub capacity : pos 1 ≤ℤ remaining_of h s
  pub most : (t : Client) → Among t ss → remaining_of h t ≤ℤ remaining_of h s
  pub first :
      (t : Client) → Among t ss → remaining_of h t ≡ remaining_of h s → text_lt t.id s.id ≡ false

-- A server that does not come before the choice.
outranked :
    (h : Hub) (best : Candidate) (t : Client)
    → best.remaining ≡ remaining_of h best.server
    → pos 1 ≤ℤ best.remaining
    → (leb_ℤ (remaining_of h t) (pos 0) ≡ true)
      ⊎ (before (record { server = t; remaining = remaining_of h t }) best ≡ false)
    → (remaining_of h t ≤ℤ remaining_of h best.server)
      × (remaining_of h t ≡ remaining_of h best.server → text_lt t.id best.server.id ≡ false)
unfolding before
outranked h best t r p c = (ground arith, λ e. ground arith)

-- The first of the sorted candidates is the choice.
pub sort_candidates-IsChoice :
    (h : Hub) (ss : List Client) (best : Candidate) (rest : List Candidate)
    → sort_candidates (candidates h ss) ≡ best ∷ rest
    → IsChoice h ss best.server
sort_candidates-IsChoice h ss best rest e = record {
  eligible = isc.2;
  capacity = rw isc.0 at isc.1;
  most = λ t m. (rank t m).0;
  first = λ t m. (rank t m).1;
}
  where
    isc : IsCandidate h ss best
    isc =
        (rw e at (
          sort_candidates-All (IsCandidate h ss) (candidates h ss) (candidates-IsCandidate h ss))).0

    leads : Leads (best ∷ rest) (candidates h ss)
    leads = rw e at (sort_candidates-Leads (candidates h ss))

    rank :
        (t : Client)
        → Among t ss
        → (remaining_of h t ≤ℤ remaining_of h best.server)
          × (remaining_of h t ≡ remaining_of h best.server → text_lt t.id best.server.id ≡ false)
    rank t m =
        outranked h best t isc.0 isc.1
          (candidates_cover (λ d. before d best ≡ false) h ss t leads m)
