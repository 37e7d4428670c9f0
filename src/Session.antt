-- ===== src/Session.antt =====
-- wl2k.c: the session with the other station. This file has its state, and reading and writing
-- lines (tgetline, wl2kgetline); the two directions stand in the modules below.
pub mod Outbound
pub mod Inbound
pub mod Agreement
pub mod Exchange
pub mod Round
pub mod Again
pub mod Ends
use paclink_unix.Common.{
  ℕ, Bool, not, ◌&&◌, ◌||◌, Option, none, some, List, [], ◌∷◌, ◌++◌, leb, ◌==◌, if◌then◌else◌,
}
use paclink_unix.Proposal.{Proposal}
use paclink_unix.Mid.Hash.{Database}
use paclink_unix.Stream.{Read, Reader}

-- `input` is what the connection still brings before its end, `output` what has been written to it.
-- The proposal list is split where `nproplist` points: `before` from its head, `next` from there on.
-- `unlinked` are the paths of deleted files and `delivered` the messages given to sendmail, in order.
pub record World (D : Database) : Type 0 where
  pub input : List ℕ
  pub output : List ℕ
  pub before : List Proposal
  pub next : List Proposal
  pub unlinked : List (List ℕ)
  pub delivered : List (List ℕ)
  pub mids : D.Db

-- `exited` is `exit(EXIT_FAILURE)`; `stuck` is no result of the program: a loop of the model has
-- run out of rounds.
pub data Run (D : Database) (A : Type 0) : Type 0 where
  ok : A → World D → Run D A
  exited : World D → Run D A
  stuck : Run D A

abbrev pub Action : Database → Type 0 → Type 0
Action D A = World D → Run D A

abbrev pub then_run : {D : Database} {A B : Type 0} → Run D A → (A → Action D B) → Run D B
then_run (ok a w) f = f a w
then_run (exited w) f = exited w
then_run stuck f = stuck

infixl 5 ◌>>=◌ ◌>>◌
abbrev pub ◌>>=◌ : {D : Database} {A B : Type 0} → Action D A → (A → Action D B) → Action D B
◌>>=◌ m f w = then_run (m w) f

abbrev pub ◌>>◌ : {D : Database} {B : Type 0} → Action D (Unit {0}) → Action D B → Action D B
m >> k = m >>= λ _. k

abbrev pub return : {D : Database} {A : Type 0} → A → Action D A
return a w = ok a w

abbrev pub fail : {D : Database} {A : Type 0} → Action D A
fail w = exited w

-- `fprintf(ofp, ...)`; the connection takes what is written.
unfoldable pub write : {D : Database} → List ℕ → Action D (Unit {0})
write s w = ok tt (record w { output = w.output ++ s })

-- The string that C sees in a buffer.
unfoldable pub until_nul : List ℕ → List ℕ
until_nul [] = []
until_nul (c ∷ s) = let rest = until_nul s in if c == 0 then [] else c ∷ rest

-- The bytes that `tgetline` leaves out: the record separator, and what is no ASCII.
unfoldable pub is_dropped : ℕ → ℕ → ℕ → Bool
is_dropped terminator ignore c =
    c == 0x1e || (leb 128 c && (not (c == terminator) && not (c == ignore)))

-- `none` is the end of the stream before a terminator. The line's buffer gets all the memory that it
-- wants, and the timeout, whose handler ends the process, does not strike.
unfoldable pub tgetline : ℕ → ℕ → List ℕ → Option (List ℕ × List ℕ)
tgetline terminator ignore [] = none
tgetline terminator ignore (c ∷ s) =
    let rest = tgetline terminator ignore s in
    let kept : Option (List ℕ × List ℕ) = elim rest [
      | none ↦ none
      | some (line, s') ↦ some (c ∷ line, s')
    ] in
    if is_dropped terminator ignore c
    then rest
    else (if c == terminator then some ([], s) else (if c == ignore then rest else kept))

-- `none` is NULL.
unfoldable pub wl2kgetline : {D : Database} → Action D (Option (List ℕ))
wl2kgetline w = elim (tgetline 13 10 w.input) [
  | none ↦ ok none (record w { input = [] })
  | some (line, s) ↦ ok (some (until_nul line)) (record w { input = s })
]

-- A line, or the exit on a closed connection.
unfoldable pub next_line : {D : Database} → Action D (List ℕ)
next_line = do line ← wl2kgetline; elim line [ none ↦ fail | some s ↦ return s ]

-- A function of `Stream` on the connection; its NULL is answered by an exit.
unfoldable pub receive : {D : Database} {A : Type 0} → Reader A → Action D A
receive r w = elim (r w.input) [
  | Read.ok a s ↦ ok a (record w { input = s })
  | Read.null s ↦ exited (record w { input = s })
  | Read.exited ↦ exited (record w { input = [] })
  | Read.stuck ↦ stuck
]
