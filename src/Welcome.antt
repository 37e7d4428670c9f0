-- ===== src/Welcome.antt =====
-- wl2kax25d.c: what main prints to the caller in front of wl2kd_exchange, with print_esc_char and
-- print_esc_string, which print the welcome message.
pub mod RoundTrip
use paclink_unix.Common.{
  ℕ, Bool, false, Option, none, some, List, [], ◌∷◌, ◌++◌, ◌==◌, if◌then◌else◌, codes,
}
use paclink_unix.Handshake.{my_sid}

-- What is printed, and whether the string came to its end, the process to its, or the loop to the
-- byte behind the string's NUL.
pub data Ending : Type 0 where
  finished exited astray : Ending

pub record Printed : Type 0 where
  pub output : List ℕ
  pub ending : Ending

abbrev pub in_front : List ℕ → Printed → Printed
in_front s p = record p { output = s ++ p.output }

-- `none` is an exit.
unfoldable pub print_esc_char : Bool → ℕ → Option (List ℕ)
print_esc_char xlate c =
    if c == b'a'
    then some (7 ∷ [])
    else (if c == b'b'
        then some (8 ∷ [])
        else (if c == b'c'
            then none
            else (if c == b'f'
                then some (12 ∷ [])
                else (if c == b'n'
                    then some (10 ∷ [])
                    else (if c == b'r'
                        then some (13 ∷ (if xlate then 10 ∷ [] else []))
                        else (if c == b't' then some (9 ∷ []) else some (c ∷ [])))))))

abbrev backslash : ℕ
backslash = 92

-- A backslash at the end has the NUL as its character, and the loop goes on behind it.
unfoldable pub print_esc_string : Bool → List ℕ → Printed
unfolding print_esc_char
print_esc_string xlate [] = record { output = []; ending = finished }
print_esc_string xlate (c ∷ []) =
    if c == backslash
    then record { output = 0 ∷ []; ending = astray }
    else record { output = c ∷ []; ending = finished }
print_esc_string xlate (c ∷ d ∷ s) =
    let behind = print_esc_string xlate s in
    let next = print_esc_string xlate (d ∷ s) in
    let escaped : Printed = elim (print_esc_char xlate d) [
      | none ↦ record { output = []; ending = exited }
      | some out ↦ in_front out behind
    ] in
    if c == backslash then escaped else in_front (c ∷ []) next

-- The station identifier, the square and the welcome message; `none` is NULL.
unfoldable pub greeting : List ℕ → Option (List ℕ) → Option (List ℕ) → Printed
unfolding print_esc_string
greeting version gridsquare welcomemsg =
    let grid : List ℕ = elim gridsquare [ none ↦ codes "XXyyzz" | some g ↦ g ] in
    let message : List ℕ = elim welcomemsg [ none ↦ codes "Welcome" ++ 13 ∷ [] | some m ↦ m ] in
    in_front (my_sid version ++ 13 ∷ (codes "(am|em:h1,g:" ++ (grid ++ (codes ")" ++ 13 ∷ []))))
      (print_esc_string false message)
