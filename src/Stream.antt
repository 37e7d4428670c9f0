-- ===== src/Stream.antt =====
-- Reading from the connection: wl2k.c's getrawchar, and what a function that reads can come to.
use paclink_unix.Common.{ℕ, Bool, List, [], ◌∷◌, if◌then◌else◌}

-- `ok` is a result, with the bytes of the stream behind it; `null` is the result NULL. `exited` is
-- `exit(EXIT_FAILURE)`; `stuck` is no result of the program: a loop of the model has run out of fuel.
pub data Read {ℓ} (A : Type ℓ) : Type ℓ where
  ok : A → List ℕ → Read A
  null : List ℕ → Read A
  exited : Read A
  stuck : Read A

-- A step takes the bytes that are still to come before the end of the stream.
abbrev pub Reader : Type 0 → Type 0
Reader A = List ℕ → Read A

abbrev pub then_read : {A B : Type 0} → Read A → (A → Reader B) → Read B
then_read (ok a rest) f = f a rest
then_read (null rest) f = null rest
then_read exited f = exited
then_read stuck f = stuck

infixl 5 ◌>>=◌ ◌>>◌
abbrev pub ◌>>=◌ : {A B : Type 0} → Reader A → (A → Reader B) → Reader B
◌>>=◌ r f s = then_read (r s) f

abbrev pub ◌>>◌ : {B : Type 0} → Reader (Unit {0}) → Reader B → Reader B
r >> k = r >>= λ _. k

abbrev pub return : {A : Type 0} → A → Reader A
return a s = ok a s

-- `if (!test) return NULL;`
abbrev pub require : Bool → Reader (Unit {0})
require b s = if b then ok tt s else null s

-- `ungetc(c, fp)`
abbrev pub unget : ℕ → Reader (Unit {0})
unget c s = ok tt (c ∷ s)

-- The end of the stream is a lost connection, on which the program exits.
abbrev pub getrawchar : Reader ℕ
getrawchar [] = exited
getrawchar (c ∷ s) = ok c s
