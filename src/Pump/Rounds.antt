-- ===== src/Pump/Rounds.antt =====
-- wl2kax25.c: what the loop carries in each direction.
use paclink_unix.Common.{
  ℕ, ◌≤◌, ◌≡◌, refl, sym, ap, ◌∙◌, false, List, [], ◌∷◌, ◌++◌, append-nil, append_assoc, All,
  All-append, length, take, concat,
}
use paclink_unix.Pump.{
  write_loop, Incoming, not_ready, read_failed, got, Polled, ready, Carried, Outcome, left, exited,
  pumping, serve, round, pump,
}
use paclink_unix.Pump.Chunk.{Accepts, write_loop-Sends}

abbrev first : {A B : Type 0} → A × B → A
first p = p.0

abbrev second : {A B : Type 0} → A × B → B
second p = p.1

-- The bytes that a direction brings
abbrev pub bytes_of : Incoming → List ℕ
bytes_of not_ready = []
bytes_of read_failed = []
bytes_of (got s answers) = s

-- No end of the stream, and all that is read is taken by the writes.
abbrev pub Flows : ℕ → Incoming → Type 0
Flows paclen not_ready = Unit
Flows paclen read_failed = Unit
Flows paclen (got [] answers) = ⊥
Flows paclen (got (c ∷ s) answers) = Accepts paclen (length (c ∷ s)) answers

abbrev Round : Type 0
Round = Incoming × Incoming

abbrev pub polls_of : List Round → List Polled
polls_of [] = []
polls_of ((inbound, outbound) ∷ rounds) = ready inbound outbound false ∷ polls_of rounds

abbrev pub inbound_of : List Round → List ℕ
inbound_of [] = []
inbound_of ((inbound, outbound) ∷ rounds) = bytes_of inbound ++ inbound_of rounds

abbrev pub outbound_of : List Round → List ℕ
outbound_of [] = []
outbound_of ((inbound, outbound) ∷ rounds) = bytes_of outbound ++ outbound_of rounds

abbrev Fits : ℕ → List ℕ → Type 0
Fits paclen p = length p ≤ paclen

take_all : (s : List ℕ) → take (length s) s ≡ s
take_all [] = refl
take_all (c ∷ s) = ap (λ l. c ∷ l) (take_all s)

concat-append : (xs ys : List (List ℕ)) → concat (xs ++ ys) ≡ concat xs ++ concat ys
concat-append [] ys = refl
concat-append (x ∷ xs) ys =
    ap (λ l. x ++ l) (concat-append xs ys) ∙ sym (append_assoc x (concat xs) (concat ys))

module _ (paclen : ℕ) where
  -- A direction that flows adds its bytes, and the loop goes on.
  serve-Flows :
      (at_end : Outcome) (i : Incoming)
      → Flows paclen i
      → (packets : List (List ℕ)) × (serve at_end paclen i ≡ (packets, pumping))
        × (concat packets ≡ bytes_of i)
        × All (Fits paclen) packets
  unfolding serve
  serve-Flows at_end not_ready h = ([], refl, refl, tt)
  serve-Flows at_end read_failed h = ([], refl, refl, tt)
  serve-Flows at_end (got [] answers) h = elim h [ ]
  serve-Flows at_end (got (c ∷ s) answers) h =
      let w = write_loop paclen (c ∷ s) answers 0 (length (c ∷ s)) in
      let (done, joined, sizes) = write_loop-Sends paclen (c ∷ s) 0 (length (c ∷ s)) h in
      (w.packets, rw (done, serve), joined ∙ take_all (c ∷ s), sizes)

  -- What a round of two such directions leaves
  abbrev after : Carried → List (List ℕ) → List (List ℕ) → Carried
  after k p q = record { to_child = k.to_child ++ p; to_radio = k.to_radio ++ q }

  round-Flows :
      (inbound outbound : Incoming) (k : Carried) (p q : List (List ℕ))
      → serve exited paclen inbound ≡ (p, pumping)
      → serve left paclen outbound ≡ (q, pumping)
      → round paclen inbound outbound false k ≡ (after k p q, pumping)
  unfolding round
  round-Flows inbound outbound k p q e f =
      rw (ap second e, round) (rw (ap second f) (rw (ap first e) (rw (ap first f))))

  pump-round :
      (inbound outbound : Incoming) (polls : List Polled) (k k' : Carried)
      → round paclen inbound outbound false k ≡ (k', pumping)
      → pump paclen (ready inbound outbound false ∷ polls) k ≡ pump paclen polls k'
  unfolding pump
  pump-round inbound outbound polls k k' e = rw (ap second e, pump) (rw (ap first e))

  joined_behind :
      (a p : List (List ℕ)) (s r : List ℕ)
      → concat p ≡ s
      → concat (a ++ p) ++ r ≡ concat a ++ (s ++ r)
  joined_behind a p s r e =
      ap (λ l. l ++ r) (concat-append a p ∙ ap (λ l. concat a ++ l) e) ∙ append_assoc (concat a) s r

  -- While neither stream ends and the writes take all that is read, the loop of wl2kax25's parent
  -- process is two channels that lose, add and reorder nothing: behind any number of rounds the
  -- bytes written to the child are those that the radio brought, in their order, and the other way
  -- round, and no packet has more than paclen bytes. A chunk's writes may take any part of what
  -- they are asked, at least a byte; every packet written before has at most paclen bytes.
  pub pump-Flows :
      (rounds : List Round) (polls : List Polled) (k : Carried)
      → All (λ (r : Round). Flows paclen r.0 × Flows paclen r.1) rounds
      → All (Fits paclen) k.to_child
      → All (Fits paclen) k.to_radio
      → (k' : Carried) × (pump paclen (polls_of rounds ++ polls) k ≡ pump paclen polls k')
        × (concat k'.to_child ≡ concat k.to_child ++ inbound_of rounds)
        × (concat k'.to_radio ≡ concat k.to_radio ++ outbound_of rounds)
        × All (Fits paclen) k'.to_child
        × All (Fits paclen) k'.to_radio
  pump-Flows [] polls k h f g =
      (k, refl, sym (append-nil (concat k.to_child)), sym (append-nil (concat k.to_radio)), f, g)
  pump-Flows ((inbound, outbound) ∷ rounds) polls k h f g =
      let (p, e, joined, sizes) = serve-Flows exited inbound h.0.0 in
      let (q, e', joined', sizes') = serve-Flows left outbound h.0.1 in
      let (k', run, child, radio, f', g') =
        pump-Flows rounds polls (after k p q) h.1 (All-append (Fits paclen) k.to_child p f sizes)
          (All-append (Fits paclen) k.to_radio q g sizes') in
      (
        k',
        pump-round inbound outbound (polls_of rounds ++ polls) k (after k p q)
              (round-Flows inbound outbound k p q e e')
            ∙ run,
        child ∙ joined_behind k.to_child p (bytes_of inbound) (inbound_of rounds) joined,
        radio ∙ joined_behind k.to_radio q (bytes_of outbound) (outbound_of rounds) joined',
        f',
        g',
      )
