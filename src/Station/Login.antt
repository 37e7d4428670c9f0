-- ===== src/Station/Login.antt =====
-- wl2k.c: what handshake does on the lines of a server's greeting.
use paclink_unix.Common.{
  ℕ, zero, suc, ◌≤◌, ◌<◌, ◌≡◌, refl, ap, ◌∙◌, ◌≢◌, true, false, Option, none, some, List, [], ◌∷◌,
  ◌++◌, arith, ◌==◌, All, length, length-append, codes,
}
use paclink_unix.Strutil.{strbegins, strncmp_zero}
use paclink_unix.Mid.Hash.{Database}
use paclink_unix.Session.{World, ok, Action, write}
use paclink_unix.Session.Inbound.Lines.{IsPlain, next_line-plain}
use paclink_unix.Handshake.{parse_inboundsid}
use paclink_unix.Station.{
  Config, Host, more, greeted, has_char, last_byte, challenge_of, answer_prompt, with_codes,
  at_prompt, handshake_line, greeting_loop, handshake,
}

-- A line without a bracket that is no remark, and ends in `c`
pub record Closes (c : ℕ) (line : List ℕ) : Type 0 where
  pub unbracketed : has_char b'[' line ≡ false
  pub unmarked : strbegins line (codes ";") ≡ false
  pub closed : (s : List ℕ) × (line ≡ s ++ c ∷ [])

-- The lines in front of the prompt: `Greets o c ls sid ch` says that a station with the codes `o` and
-- the challenge `c` at hand has, behind the lines `ls`, the codes `sid` and the challenge `ch`.
pub data Greets : Option (List ℕ) → List ℕ → List (List ℕ) → List ℕ → List ℕ → Type 0 where
  ready : (sid c : List ℕ) → Greets (some sid) c [] sid c
  identifies :
      (line s : List ℕ) {o : Option (List ℕ)} {c sid ch : List ℕ} {ls : List (List ℕ)}
      → has_char b'[' line ≡ true
      → parse_inboundsid line ≡ some s
      → Greets (some s) c ls sid ch
      → Greets o c (line ∷ ls) sid ch
  challenges :
      (new : List ℕ) {o : Option (List ℕ)} {c sid ch : List ℕ} {ls : List (List ℕ)}
      → has_char b'[' (codes ";PQ: " ++ new) ≡ false
      → length new ≡ 8
      → Greets o new ls sid ch
      → Greets o c ((codes ";PQ: " ++ new) ∷ ls) sid ch
  remarks :
      (line : List ℕ) {o : Option (List ℕ)} {c sid ch : List ℕ} {ls : List (List ℕ)}
      → has_char b'[' line ≡ false
      → strbegins line (codes ";") ≡ true
      → strncmp_zero 5 line (codes ";PQ: ") ≡ false
      → Greets o c ls sid ch
      → Greets o c (line ∷ ls) sid ch
  banner :
      (x : ℕ) (line : List ℕ) {o : Option (List ℕ)} {c sid ch : List ℕ} {ls : List (List ℕ)}
      → x ≢ b'>'
      → Closes x line
      → Greets o c ls sid ch
      → Greets o c (line ∷ ls) sid ch

-- The lines as they come over the connection, with `rest` behind them
abbrev pub sent_lines : List (List ℕ) → List ℕ → List ℕ
sent_lines [] rest = rest
sent_lines (l ∷ ls) rest = l ++ 13 ∷ sent_lines ls rest

pub length-sent_lines :
    (ls : List (List ℕ)) (rest : List ℕ) → length ls ≤ length (sent_lines ls rest)
length-sent_lines [] rest = omega arith
length-sent_lines (l ∷ ls) rest =
    ground (arith, length-append l (13 ∷ sent_lines ls rest), length-sent_lines ls rest)

last_byte-append : (b c : ℕ) (s : List ℕ) → last_byte b (s ++ c ∷ []) ≡ c
unfolding last_byte
last_byte-append b c [] = refl
last_byte-append b c (d ∷ s) = last_byte-append d c s

module _ (H : Host) (cfg : Config) (D : Database) where
  on_sid :
      (w : World D) (line s : List ℕ) (o : Option (List ℕ)) (c : List ℕ)
      → has_char b'[' line ≡ true
      → parse_inboundsid line ≡ some s
      → handshake_line H cfg D line o c w ≡ ok (more (some s) c) w
  unfolding handshake_line with_codes
  on_sid w line s o c h e = rw (h, handshake_line) (rw (e, with_codes))

  on_challenge :
      (w : World D) (new : List ℕ) (o : Option (List ℕ)) (c : List ℕ)
      → has_char b'[' (codes ";PQ: " ++ new) ≡ false
      → length new ≡ 8
      → handshake_line H cfg D (codes ";PQ: " ++ new) o c w ≡ ok (more o new) w
  unfolding handshake_line challenge_of strbegins strncmp_zero
  on_challenge w new o c h e = rw (h, handshake_line) (rw e)

  on_remark :
      (w : World D) (line : List ℕ) (o : Option (List ℕ)) (c : List ℕ)
      → has_char b'[' line ≡ false
      → strbegins line (codes ";") ≡ true
      → strncmp_zero 5 line (codes ";PQ: ") ≡ false
      → handshake_line H cfg D line o c w ≡ ok (more o c) w
  unfolding handshake_line challenge_of
  on_remark w line o c h k e = rw (h, handshake_line) (rw k (rw (e, challenge_of)))

  on_banner :
      (w : World D) (x : ℕ) (line : List ℕ) (o : Option (List ℕ)) (c : List ℕ)
      → x ≢ b'>'
      → Closes x line
      → handshake_line H cfg D line o c w ≡ ok (more o c) w
  unfolding handshake_line
  on_banner w x line o c h k =
      let (s, e) = k.closed in
      let ends : last_byte (H.byte_before w.input) line ≡ x =
        ap (last_byte (H.byte_before w.input)) e ∙ last_byte-append (H.byte_before w.input) x s in
      let other : (x == b'>') ≡ false = ground (arith, h) in
      rw (k.unbracketed, handshake_line) (rw k.unmarked (rw ends (rw other)))

  on_prompt :
      (w : World D) (line sid c : List ℕ)
      → Closes b'>' line
      → handshake_line H cfg D line (some sid) c w
        ≡ ok (greeted line) (record w { output = w.output ++ answer_prompt H cfg sid c })
  unfolding handshake_line at_prompt write
  on_prompt w line sid c k =
      let (s, e) = k.closed in
      let ends : last_byte (H.byte_before w.input) line ≡ b'>' =
        ap (last_byte (H.byte_before w.input)) e
        ∙ last_byte-append (H.byte_before w.input) b'>' s in
      rw (k.unbracketed, handshake_line) (rw k.unmarked (rw ends))

  abbrev loop : ℕ → Option (List ℕ) → List ℕ → Action D (List ℕ)
  loop = greeting_loop H cfg D (handshake_line H cfg D)

  -- A line that the loop goes on behind
  pass :
      (fuel : ℕ) (w : World D) (line s : List ℕ) (o o' : Option (List ℕ)) (c c' : List ℕ)
      → All IsPlain line
      → w.input ≡ line ++ 13 ∷ s
      → handshake_line H cfg D line o c (record w { input = s })
        ≡ ok (more o' c') (record w { input = s })
      → loop (suc fuel) o c w ≡ loop fuel o' c' (record w { input = s })
  unfolding greeting_loop
  pass fuel w line s o o' c c' p e h = rw (next_line-plain D w line s p e, greeting_loop) (rw h)

  finish :
      (fuel : ℕ) (w : World D) (line s sid c : List ℕ)
      → All IsPlain line
      → w.input ≡ line ++ 13 ∷ s
      → Closes b'>' line
      → loop (suc fuel) (some sid) c w
        ≡ ok line (record w { input = s; output = w.output ++ answer_prompt H cfg sid c })
  unfolding greeting_loop
  finish fuel w line s sid c p e k =
      rw (next_line-plain D w line s p e, greeting_loop)
        (rw (on_prompt (record w { input = s }) line sid c k))

  loop-Greets :
      (fuel : ℕ) (w : World D) (prompt rest : List ℕ) {o : Option (List ℕ)} {c sid ch : List ℕ}
      {ls : List (List ℕ)}
      → Greets o c ls sid ch
      → All (All IsPlain) ls
      → All IsPlain prompt
      → Closes b'>' prompt
      → w.input ≡ sent_lines ls (prompt ++ 13 ∷ rest)
      → length ls < fuel
      → loop fuel o c w
        ≡ ok prompt (record w { input = rest; output = w.output ++ answer_prompt H cfg sid ch })
  loop-Greets zero w prompt rest g p q k e l = elim l [ ]
  loop-Greets (suc fuel) w prompt rest (ready sid c) p q k e l =
      finish fuel w prompt rest sid c q e k
  loop-Greets (suc fuel) w prompt rest (identifies line s h m g) p q k e l =
      pass fuel w line _ _ (some s) _ _ p.0 e (on_sid _ line s _ _ h m)
      ∙ loop-Greets fuel (record w { input = _ }) prompt rest g p.1 q k refl (omega arith)
  loop-Greets (suc fuel) w prompt rest (challenges new h m g) p q k e l =
      pass fuel w (codes ";PQ: " ++ new) _ _ _ _ new p.0 e (on_challenge _ new _ _ h m)
      ∙ loop-Greets fuel (record w { input = _ }) prompt rest g p.1 q k refl (omega arith)
  loop-Greets (suc fuel) w prompt rest (remarks line h m n g) p q k e l =
      pass fuel w line _ _ _ _ _ p.0 e (on_remark _ line _ _ h m n)
      ∙ loop-Greets fuel (record w { input = _ }) prompt rest g p.1 q k refl (omega arith)
  loop-Greets (suc fuel) w prompt rest (banner x line h m g) p q k e l =
      pass fuel w line _ _ _ _ _ p.0 e (on_banner _ x line _ _ h m)
      ∙ loop-Greets fuel (record w { input = _ }) prompt rest g p.1 q k refl (omega arith)

  -- On the lines of a server's greeting handshake reads up to the prompt and no further, returns
  -- the prompt, and writes the answer for the codes of the last station identifier and for the last
  -- challenge of eight bytes: lines with a bracket are identifiers whose codes parse_inboundsid
  -- accepts, other lines that begin with a semicolon are challenges or remarks, and the rest is a
  -- banner unless it ends in '>', which is the prompt and comes behind an identifier. All lines are
  -- ASCII without control bytes that tgetline drops.
  pub handshake-Greets :
      (w : World D) (ls : List (List ℕ)) (prompt rest sid challenge : List ℕ)
      → Greets none [] ls sid challenge
      → All (All IsPlain) ls
      → All IsPlain prompt
      → Closes b'>' prompt
      → w.input ≡ sent_lines ls (prompt ++ 13 ∷ rest)
      → handshake H cfg D w
        ≡ ok prompt
            (record w { input = rest; output = w.output ++ answer_prompt H cfg sid challenge })
  unfolding handshake
  handshake-Greets w ls prompt rest sid challenge g p q k e =
      loop-Greets (suc (length w.input)) w prompt rest g p q k e
        (omega (arith, ap length e, length-sent_lines ls (prompt ++ 13 ∷ rest)))
