-- ===== src/Station/Caller.antt =====
-- wl2k.c and wl2kax25d.c: two stations that run this program greet each other. This file has what the
-- caller makes of the daemon's greeting, and the next what the daemon makes of the answer.
pub mod Answer
use paclink_unix.Common.{
  ℕ, ◌≤◌, ◌≡◌, refl, sym, ap, ◌∙◌, ◌≢◌, true, false, none, some, List, [], ◌∷◌, ◌++◌, append_assoc,
  arith, All, All-append, codes,
}
use paclink_unix.Strutil.{strbegins, strncmp_zero, strchr}
use paclink_unix.Strutil.Search.{Without, Without-strchr}
use paclink_unix.Number.{decimal}
use paclink_unix.Mid.Hash.{Database}
use paclink_unix.Session.{World, ok}
use paclink_unix.Session.Inbound.Lines.{IsPlain}
use paclink_unix.Handshake.{my_sid, my_codes, parse_inboundsid, send_secure_login_response}
use paclink_unix.Handshake.Laws.{parse_inboundsid-my_sid}
use paclink_unix.Station.{Config, Host, has_char, qtc, answer_prompt, p2p_startmsg, handshake}
use paclink_unix.Station.Login.{
  Closes, Greets, ready, identifies, banner, sent_lines, handshake-Greets,
}
use paclink_unix.Welcome.{print_esc_string, greeting, finished, Printed}

-- A byte of a callsign, a square or a version: of those from '-' to 'z' no '[' and no ';'
abbrev pub IsWord : ℕ → Type 0
IsWord c = (b'-' ≤ c) × (c ≤ b'z') × (c ≢ b'[') × (c ≢ b';')

pub words-IsPlain : (s : List ℕ) → All IsWord s → All IsPlain s
words-IsPlain [] h = tt
words-IsPlain (c ∷ s) h = (ground (arith, h.0), words-IsPlain s h.1)

pub words-Without : (s : List ℕ) → All IsWord s → Without b'[' s
words-Without [] h = tt
words-Without (c ∷ s) h = (h.0.2, words-Without s h.1)

pub has_char-Without : (c : ℕ) (s : List ℕ) → Without c s → has_char c s ≡ false
unfolding has_char
has_char-Without c s h = rw (Without-strchr c s h, has_char)

abbrev pub Calm : List ℕ → Type 0
Calm s = All IsPlain s × Without b'[' s

pub Calm-append : (s t : List ℕ) → Calm s → Calm t → Calm (s ++ t)
Calm-append s t (p, n) (q, m) = (All-append IsPlain s t p q, All-append (λ d. d ≢ b'[') s t n m)

pub words-Calm : (s : List ℕ) → All IsWord s → Calm s
words-Calm s h = (words-IsPlain s h, words-Without s h)

abbrev square_line : List ℕ → List ℕ
square_line grid = codes "(am|em:h1,g:" ++ (grid ++ codes ")")

-- A call's first byte is no semicolon.
call-unmarked :
    (call rest : List ℕ) → All IsWord call → strbegins (call ++ b' ' ∷ rest) (codes ";") ≡ false
unfolding strbegins strncmp_zero
call-unmarked [] rest h = refl
call-unmarked (c ∷ call) rest h = ground (arith, h.0)

module _ (version grid caller daemon : List ℕ) (square : All IsWord grid) (one : All IsWord caller)
    (other : All IsWord daemon) (versioned : All IsWord version) where
  abbrev prompt : List ℕ
  prompt = caller ++ (codes " de " ++ (daemon ++ codes ">"))

  abbrev lines : List (List ℕ)
  lines = my_sid version ∷ square_line grid ∷ codes "Welcome" ∷ codes "No Traffic" ∷ []

  prompt-Calm : Calm prompt
  prompt-Calm = Calm-append caller (codes " de " ++ (daemon ++ codes ">")) (words-Calm caller one) (
      Calm-append (codes " de ") (daemon ++ codes ">") (ground arith, ground arith)
        (Calm-append daemon (codes ">") (words-Calm daemon other) (ground arith, ground arith)))

  prompt-Closes : Closes b'>' prompt
  prompt-Closes = record {
    unbracketed = has_char-Without b'[' prompt prompt-Calm.1;
    unmarked = call-unmarked caller (codes "de " ++ (daemon ++ codes ">")) one;
    closed = (
      caller ++ (codes " de " ++ daemon),
      ap (λ l. caller ++ l) (sym (append_assoc (codes " de ") daemon (codes ">")))
          ∙ sym (append_assoc caller (codes " de " ++ daemon) (codes ">")),
    );
  }

  square-Calm : Calm (square_line grid)
  square-Calm =
      Calm-append (codes "(am|em:h1,g:") (grid ++ codes ")") (ground arith, ground arith)
        (Calm-append grid (codes ")") (words-Calm grid square) (ground arith, ground arith))

  square-Closes : Closes b')' (square_line grid)
  unfolding strbegins strncmp_zero
  square-Closes = record {
    unbracketed = has_char-Without b'[' (square_line grid) square-Calm.1;
    unmarked = refl;
    closed =
        (codes "(am|em:h1,g:" ++ grid, sym (append_assoc (codes "(am|em:h1,g:") grid (codes ")")));
  }

  pub sid-IsPlain : All IsPlain (my_sid version)
  unfolding my_sid
  sid-IsPlain =
      All-append IsPlain (codes "[UnixLINK-") (version ++ (my_codes ++ codes "]")) (ground arith) (
        All-append IsPlain version (my_codes ++ codes "]") (words-IsPlain version versioned)
          (ground arith))

  pub sid-bracketed : has_char b'[' (my_sid version) ≡ true
  unfolding my_sid has_char strchr
  sid-bracketed = refl

  lines-Greets : Greets none [] lines my_codes []
  unfolding has_char strchr strbegins strncmp_zero
  lines-Greets =
      identifies (my_sid version) my_codes sid-bracketed (parse_inboundsid-my_sid version) (
        banner b')' (square_line grid) (λ e. omega arith) square-Closes
          (banner b'e' (codes "Welcome") (λ e. omega arith)
            (record { unbracketed = refl; unmarked = refl; closed = (codes "Welcom", refl) })
            (banner b'c' (codes "No Traffic") (λ e. omega arith)
              (record { unbracketed = refl; unmarked = refl; closed = (codes "No Traffi", refl) })
              (ready my_codes []))))

  pub read_greeting :
      (H : Host) (cfg : Config) (D : Database) (w : World D) (rest : List ℕ)
      → w.input ≡ sent_lines lines (prompt ++ 13 ∷ rest)
      → handshake H cfg D w
        ≡ ok prompt
            (record w { input = rest; output = w.output ++ answer_prompt H cfg my_codes [] })
  read_greeting H cfg D w rest e =
      handshake-Greets H cfg D w lines prompt rest my_codes [] lines-Greets
        (sid-IsPlain, (square-Calm.0, (ground arith, (ground arith, tt)))) prompt-Calm.0
        prompt-Closes e

  -- What the daemon writes are these lines.
  pub greeting-lines :
      (H : Host) (cfg : Config)
      → H.version ≡ version
      → cfg.targetcall ≡ caller
      → cfg.mycall ≡ daemon
      → (greeting H.version (some grid) none).output ++ p2p_startmsg H cfg 0 0
        ≡ sent_lines lines (prompt ++ 13 ∷ [])
  unfolding greeting p2p_startmsg print_esc_string
  greeting-lines H cfg v t d = rw (v, t, d) (simp append_assoc)
