-- ===== src/Station/Caller/Answer.antt =====
-- wl2k.c and wl2kax25d.c: what the daemon makes of the caller's answer to its greeting.
use paclink_unix.Common.{
  ℕ, suc, ◌≤◌, ◌≡◌, refl, ap, ◌∙◌, true, false, Option, none, some, List, [], ◌∷◌, ◌++◌,
  append_assoc, arith, All, length, length-append, take-all, codes,
}
use paclink_unix.Strutil.{strbegins, strncmp_zero, strchr}
use paclink_unix.Mid.Hash.{Database}
use paclink_unix.Session.{World, ok}
use paclink_unix.Session.Outbound.{skip_lines}
use paclink_unix.Session.Inbound.Lines.{next_line-plain}
use paclink_unix.Handshake.{my_sid, my_codes, has_sub, send_secure_login_response}
use paclink_unix.Handshake.Laws.{parse_inboundsid-my_sid}
use paclink_unix.Station.{
  Config, Host, more, greeted, has_char, qtc, own_call, answer_prompt, with_codes, caller_line,
  behind_forwards, greeting_loop, handshake_no_secure_login,
}
use paclink_unix.Station.Caller.{
  IsWord, Calm, Calm-append, words-Calm, has_char-Without, sid-IsPlain,
}

strncmp_zero_prefix : (p s : List ℕ) → strncmp_zero (length p) (p ++ s) p ≡ true
unfolding strncmp_zero
strncmp_zero_prefix [] s = refl
strncmp_zero_prefix (c ∷ p) s = rw (strncmp_zero_prefix p s) (ground arith)

has_sub_begins : (s p : List ℕ) → strbegins s p ≡ true → has_sub s p ≡ true
unfolding has_sub
has_sub_begins [] p h = h
has_sub_begins (c ∷ s) p h = rw (h, has_sub)

has_sub_append : (front p behind : List ℕ) → has_sub (front ++ (p ++ behind)) p ≡ true
unfolding has_sub strbegins
has_sub_append [] p behind = has_sub_begins (p ++ behind) p (strncmp_zero_prefix p behind)
has_sub_append (c ∷ front) p behind = rw (has_sub_append front p behind, has_sub) (ground arith)

-- The caller's identification
abbrev pub identity : List ℕ → List ℕ → List ℕ → List ℕ
identity caller daemon square =
    codes ">; " ++ (daemon ++ (codes " DE " ++ (caller ++ (codes " (" ++ (square ++ codes ")")))))

module _ (caller daemon square version : List ℕ) (one : All IsWord caller)
    (other : All IsWord daemon) (squared : All IsWord square) (versioned : All IsWord version) where
  abbrev text : List ℕ
  text = identity caller daemon square

  abbrev answer_line : List ℕ
  answer_line = codes "; " ++ text

  text-Calm : Calm answer_line
  text-Calm =
      Calm-append (codes "; >; ")
        (daemon ++ (codes " DE " ++ (caller ++ (codes " (" ++ (square ++ codes ")")))))
        (ground arith, ground arith)
        (Calm-append daemon (codes " DE " ++ (caller ++ (codes " (" ++ (square ++ codes ")"))))
          (words-Calm daemon other)
          (Calm-append (codes " DE ") (caller ++ (codes " (" ++ (square ++ codes ")")))
            (ground arith, ground arith)
            (Calm-append caller (codes " (" ++ (square ++ codes ")")) (words-Calm caller one) (
              Calm-append (codes " (") (square ++ codes ")") (ground arith, ground arith)
                (Calm-append square (codes ")") (words-Calm square squared)
                  (ground arith, ground arith))))))

  no_challenge :
      (md5 : List ℕ → ℕ → ℕ) (v : List ℕ) (secret : Option (List ℕ))
      → send_secure_login_response md5 v [] secret ≡ ([], false)
  unfolding send_secure_login_response
  no_challenge md5 v none = refl
  no_challenge md5 v (some s) = refl

  module _ (H : Host) (cfg : Config) where
    qtc-text :
        cfg.mycall ≡ caller
        → cfg.targetcall ≡ daemon
        → cfg.gridsquare ≡ some square
        → length text ≤ 62
        → qtc H cfg ≡ text
    unfolding qtc
    qtc-text c d g small = rw (c, qtc) (rw d (rw g (take-all 62 text small)))

    -- The caller's answer
    pub answer-lines :
        H.version ≡ version
        → cfg.mycall ≡ caller
        → cfg.targetcall ≡ daemon
        → cfg.gridsquare ≡ some square
        → length text ≤ 62
        → answer_prompt H cfg my_codes [] ≡ answer_line ++ 13 ∷ (my_sid version ++ 13 ∷ [])
    unfolding answer_prompt has_char strchr
    answer-lines v c d g small =
        rw (no_challenge H.md5 H.version cfg.wl2k_password, answer_prompt)
          (rw (qtc-text c d g small) (rw v (simp append_assoc)))

  abbrev own : List ℕ
  own = daemon ++ (codes " DE " ++ (caller ++ codes " "))

  own-shorter : length text ≤ 62 → length own ≤ 62
  own-shorter small =
      let rest = square ++ codes ")" in
      omega (
        arith,
        small,
        length-append daemon (codes " DE " ++ (caller ++ (codes " (" ++ rest))),
        length-append caller (codes " (" ++ rest),
        length-append square (codes ")"),
        length-append daemon (codes " DE " ++ (caller ++ codes " ")),
        length-append caller (codes " "),
      )

  around_own : answer_line ≡ codes "; >; " ++ (own ++ (codes "(" ++ (square ++ codes ")")))
  around_own = simp append_assoc

  module _ (H : Host) (cfg : Config) (c : cfg.targetcall ≡ caller) (d : cfg.mycall ≡ daemon)
      (small : length text ≤ 62) where
    own_call-own : own_call H cfg ≡ own
    unfolding own_call
    own_call-own = rw (c, own_call) (rw d (take-all 62 own (own-shorter small)))

    holds_own : has_sub answer_line (own_call H cfg) ≡ true
    holds_own = rw own_call-own (
        ap (λ l. has_sub l own) around_own
        ∙ has_sub_append (codes "; >; ") own (codes "(" ++ (square ++ codes ")")))

    module _ (D : Database) (n : ℕ) where
      on_answer :
          (w : World D) → behind_forwards H cfg D n answer_line none [] w ≡ ok (more none []) w
      unfolding behind_forwards caller_line skip_lines strbegins strncmp_zero
      on_answer w = rw (has_char-Without b'[' answer_line text-Calm.1, caller_line) (rw holds_own)

      on_sid :
          (w : World D)
          → behind_forwards H cfg D n (my_sid version) none [] w ≡ ok (greeted (my_sid version)) w
      unfolding behind_forwards caller_line with_codes skip_lines strbegins strncmp_zero my_sid
          has_char strchr
      on_sid w = rw (parse_inboundsid-my_sid version, with_codes)

      two_rounds :
          (fuel : ℕ) (w : World D) (rest : List ℕ)
          → w.input ≡ answer_line ++ 13 ∷ (my_sid version ++ 13 ∷ rest)
          → greeting_loop H cfg D (behind_forwards H cfg D n) (suc (suc fuel)) none [] w
            ≡ ok (my_sid version) (record w { input = rest })
      unfolding greeting_loop
      two_rounds fuel w rest e =
          let w₁ : World D = record w { input = my_sid version ++ 13 ∷ rest } in
          let w₂ : World D = record w { input = rest } in
          rw
            (
              next_line-plain D w answer_line (my_sid version ++ 13 ∷ rest) text-Calm.0 e,
              greeting_loop,
            )
            (rw (on_answer w₁) (
              rw
                (next_line-plain D w₁ (my_sid version) rest
                  (sid-IsPlain version [] [] [] tt tt tt versioned) refl)
                (rw (on_sid w₂))))

      pub read_answer :
          (w : World D) (rest : List ℕ)
          → w.input ≡ answer_line ++ 13 ∷ (my_sid version ++ 13 ∷ rest)
          → handshake_no_secure_login H cfg D n w ≡ ok (my_sid version) (record w { input = rest })
      unfolding handshake_no_secure_login
      read_answer w rest e =
          let tail = text ++ 13 ∷ (my_sid version ++ 13 ∷ rest) in
          let long : suc (length w.input) ≡ suc (suc (suc (length tail))) = ap suc (ap length e) in
          ap (λ fuel. greeting_loop H cfg D (behind_forwards H cfg D n) fuel none [] w) long
          ∙ two_rounds (suc (length tail)) w rest e
