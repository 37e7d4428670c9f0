-- ===== src/Session/Ends.antt =====
-- wl2k.c: the ends of the session's loops.
use paclink_unix.Common.{
  ℕ, zero, suc, ◌≤◌, ◌<◌, ◌≡◌, refl, sym, subst, inl, inr, Bool, true, false, Option, none, some,
  List, [], ◌∷◌, arith, ◌==◌, if◌then◌else◌, Bool-cases, length,
}
use paclink_unix.Strutil.{strbegins}
use paclink_unix.Stream.{Read, Reader}
use paclink_unix.Transfer.Ends.{Ends}
use paclink_unix.Mid.Hash.{Database}
use paclink_unix.Session.{
  World, Run, ok, exited, stuck, Action, then_run, ◌>>=◌, return, fail, write, tgetline, is_dropped,
  wl2kgetline, until_nul, next_line, receive,
}
use paclink_unix.Session.Outbound.{dodelete, skip_lines}

-- A run that is one of the program's, with at most `n` bytes of the input left.
abbrev pub Stops : {D : Database} {A : Type 0} → ℕ → Run D A → Type 0
Stops n (ok a w) = length w.input ≤ n
Stops n (exited w) = Unit
Stops n stuck = ⊥

pub Stops-le : {D : Database} {A : Type 0} (n k : ℕ) (r : Run D A) → n ≤ k → Stops n r → Stops k r
Stops-le n k (ok a w) h e = omega arith
Stops-le n k (exited w) h e = tt
Stops-le n k stuck h e = e

pub Stops-then :
    {D : Database} {A B : Type 0} (n : ℕ) (r : Run D A) (f : A → Action D B)
    → Stops n r
    → ((a : A) (w : World D) → length w.input ≤ n → Stops n (f a w))
    → Stops n (then_run r f)
Stops-then n (ok a w) f e k = k a w e
Stops-then n (exited w) f e k = tt
Stops-then n stuck f e k = e

then_run_assoc :
    {D : Database} {A B C : Type 0} (r : Run D A) (g : A → Action D B) (f : B → Action D C)
    → then_run (then_run r g) f ≡ then_run r (λ a w. then_run (g a w) f)
then_run_assoc (ok a w) g f = refl
then_run_assoc (exited w) g f = refl
then_run_assoc stuck g f = refl

pub Stops-if :
    {D : Database} {A : Type 0} (n : ℕ) (b : Bool) (r q : Run D A)
    → Stops n r
    → Stops n q
    → Stops n (if b then r else q)
Stops-if n true r q h k = h
Stops-if n false r q h k = k

-- An action that comes to an end whatever the input is.
abbrev pub IsStopping : {D : Database} {A : Type 0} → Action D A → Type 0
IsStopping m = (w : World _) → Stops (length w.input) (m w)

pub bind-IsStopping :
    {D : Database} {A B : Type 0} (m : Action D A) (f : A → Action D B)
    → IsStopping m
    → ((a : A) → IsStopping (f a))
    → IsStopping (m >>= f)
bind-IsStopping m f h k w =
    Stops-then (length w.input) (m w) f (h w)
      (λ a v l. Stops-le (length v.input) (length w.input) (f a v) l (k a v))

pub if-IsStopping :
    {D : Database} {A : Type 0} (b : Bool) (m k : Action D A)
    → IsStopping m
    → IsStopping k
    → IsStopping (if b then m else k)
if-IsStopping true m k h l = h
if-IsStopping false m k h l = l

pub return-IsStopping : (D : Database) {A : Type 0} (a : A) → IsStopping {D = D} (return a)
return-IsStopping D a w = omega arith

pub fail-IsStopping : (D : Database) (A : Type 0) → IsStopping {D = D} {A = A} fail
fail-IsStopping D A w = tt

pub write-IsStopping : (D : Database) (s : List ℕ) → IsStopping {D = D} (write s)
unfolding write
write-IsStopping D s w = omega arith

pub dodelete-IsStopping : (D : Database) → IsStopping {D = D} dodelete
unfolding dodelete
dodelete-IsStopping D w = omega arith

-- A line with less behind it than `n` bytes, or none.
abbrev pub LeavesLess : ℕ → Option (List ℕ × List ℕ) → Type 0
LeavesLess n none = Unit
LeavesLess n (some r) = length r.1 < n

LeavesLess-suc : (n : ℕ) (r : Option (List ℕ × List ℕ)) → LeavesLess n r → LeavesLess (suc n) r
LeavesLess-suc n none h = tt
LeavesLess-suc n (some r) h = omega arith

-- What `tgetline` leaves is shorter than what it got.
tgetline_shorter : (t i : ℕ) (s : List ℕ) → LeavesLess (length s) (tgetline t i s)
unfolding tgetline
tgetline_shorter t i [] = tt
tgetline_shorter t i (c ∷ s) =
    on_rest (tgetline t i s) (LeavesLess-suc (length s) _ (tgetline_shorter t i s))
  where
    on_rest :
        (rest : Option (List ℕ × List ℕ))
        → LeavesLess (suc (length s)) rest
        → LeavesLess (suc (length s)) (
            if is_dropped t i c
            then rest
            else (if c == t
                then some ([], s)
                else (if c == i
                    then rest
                    else elim rest [ none ↦ none | some (line, s') ↦ some (c ∷ line, s') ])))
    on_rest none h = ground arith
    on_rest (some r) h = ground arith

module _ (D : Database) where
  -- A line read leaves less of the input.
  pub wl2kgetline_shorter :
      {B : Type 0} (f : Option (List ℕ) → Action D B) (w : World D)
      → Stops (length w.input) (f none (record w { input = [] }))
      → ((line : List ℕ) (v : World D)
          → length v.input < length w.input
          → Stops (length w.input) (f (some line) v))
      → Stops (length w.input) (then_run (wl2kgetline w) f)
  unfolding wl2kgetline
  wl2kgetline_shorter {B = B} f w none_case some_case =
      on_read (tgetline 13 10 w.input) (tgetline_shorter 13 10 w.input)
    where
      on_read :
          (r : Option (List ℕ × List ℕ))
          → LeavesLess (length w.input) r
          → Stops (length w.input) (
              then_run {A = Option (List ℕ)}
                (elim r [
                  | none ↦ ok none (record w { input = [] })
                  | some (line, s) ↦ ok (some (until_nul line)) (record w { input = s })
                ])
                f)
      on_read none h = none_case
      on_read (some r) h = some_case (until_nul r.0) (record w { input = r.1 }) h

  pub next_line_shorter :
      {B : Type 0} (f : List ℕ → Action D B) (w : World D)
      → ((line : List ℕ) (v : World D)
          → length v.input < length w.input
          → Stops (length w.input) (f line v))
      → Stops (length w.input) ((next_line >>= f) w)
  unfolding next_line
  next_line_shorter f w h =
      let assoc = then_run_assoc (wl2kgetline w) _ f in
      subst (Stops (length w.input)) (sym assoc) (wl2kgetline_shorter _ w tt h)

  next_line-IsStopping : IsStopping {D = D} next_line
  unfolding next_line
  next_line-IsStopping w = wl2kgetline_shorter _ w tt (λ line v l. omega arith)

  pub skip_lines-Stops :
      (fuel : ℕ) (prefix line : List ℕ) (w : World D)
      → length w.input < fuel
      → Stops (length w.input) (skip_lines fuel prefix line w)
  unfolding skip_lines
  skip_lines-Stops zero prefix line w h = elim h [ ]
  skip_lines-Stops (suc fuel) prefix line w h = elim (Bool-cases (strbegins line prefix)) [
    | inl more ↦ rw more (
        next_line_shorter (skip_lines fuel prefix) w (λ next v l.
          Stops-le (length v.input) (length w.input) _ (omega arith)
            (skip_lines-Stops fuel prefix next v (omega arith))))
    | inr done ↦ rw done (omega arith)
  ]

  pub receive-IsStopping :
      {A : Type 0} (r : Reader A)
      → ((s : List ℕ) → Ends (length s) (r s))
      → IsStopping (receive {D = D} r)
  unfolding receive
  receive-IsStopping {A = A} r h w = on_end (r w.input) (h w.input)
    where
      on_end :
          (o : Read A)
          → Ends (length w.input) o
          → Stops (length w.input) (elim o [
            | Read.ok a s ↦ ok a (record w { input = s })
            | Read.null s ↦ exited (record w { input = s })
            | Read.exited ↦ exited (record w { input = [] })
            | Read.stuck ↦ stuck
          ])
      on_end (Read.ok a s) e = e
      on_end (Read.null s) e = tt
      on_end Read.exited e = tt
      on_end Read.stuck e = e
