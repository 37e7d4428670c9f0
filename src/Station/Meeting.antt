-- ===== src/Station/Meeting.antt =====
-- wl2k.c and wl2kax25d.c: the whole greeting of a caller and a daemon that both run this program.
use paclink_unix.Common.{
  ℕ, ◌≤◌, ◌≡◌, refl, ap, ◌∙◌, none, some, List, [], ◌∷◌, ◌++◌, append_assoc, All, length, codes,
}
use paclink_unix.Mid.Hash.{Database}
use paclink_unix.Session.{World, ok}
use paclink_unix.Handshake.{my_sid, my_codes}
use paclink_unix.Station.{
  Config, Host, answer_prompt, handshake, handshake_no_secure_login, p2p_startmsg,
}
use paclink_unix.Station.Caller.{IsWord, read_greeting, greeting-lines}
use paclink_unix.Station.Caller.Answer.{identity, answer-lines, read_answer}
use paclink_unix.Welcome.{greeting}

-- A caller and a daemon whose calls, squares and versions are words, and who call each other; the
-- caller's identification fits in its 62 bytes.
pub record Meet (H : Host) (cfg : Config) (H' : Host) (cfg' : Config) (square grid : List ℕ)
    : Type 0 where
  pub called : cfg.targetcall ≡ cfg'.mycall
  pub calling : cfg'.targetcall ≡ cfg.mycall
  pub placed : cfg.gridsquare ≡ some square
  pub caller : All IsWord cfg.mycall
  pub daemon : All IsWord cfg'.mycall
  pub squared : All IsWord square
  pub gridded : All IsWord grid
  pub versions : All IsWord H.version × All IsWord H'.version
  pub short : length (identity cfg.mycall cfg'.mycall square) ≤ 62

-- A caller and a daemon that both run this program complete their greeting: on what the daemon
-- prints, its identifier, square, default welcome message and the start message for an empty
-- outbox, handshake returns the prompt and has read all of it; on what it has then written,
-- handshake_no_secure_login returns with the caller's identifier, and the rest is unread. The calls
-- are each other's; calls, squares and versions are of bytes from '-' to 'z' other than '[' and
-- ';'; the caller's square is set, and its identification has at most 62 bytes.
pub handshake-handshake_no_secure_login :
    (H : Host) (cfg : Config) (H' : Host) (cfg' : Config) (square grid : List ℕ) (D D' : Database)
    (w : World D)
    → Meet H cfg H' cfg' square grid
    → w.input ≡ (greeting H'.version (some grid) none).output ++ p2p_startmsg H' cfg' 0 0
    → (prompt out : List ℕ) × (handshake H cfg D w
        ≡ ok prompt (record w { input = []; output = w.output ++ out }))
      × ((v : World D') (rest : List ℕ)
          → v.input ≡ out ++ rest
          → handshake_no_secure_login H' cfg' D' 0 v
            ≡ ok (my_sid H.version) (record v { input = rest }))
handshake-handshake_no_secure_login H cfg H' cfg' square grid D D' w m e =
    let lines =
      greeting-lines H'.version grid cfg.mycall cfg'.mycall m.gridded m.caller m.daemon m.versions.1
        H' cfg' refl m.calling refl in
    let answer =
      answer-lines cfg.mycall cfg'.mycall square H.version m.caller m.daemon m.squared m.versions.0
        H cfg refl refl m.called m.placed m.short in
    (
      _,
      answer_prompt H cfg my_codes [],
      read_greeting H'.version grid cfg.mycall cfg'.mycall m.gridded m.caller m.daemon m.versions.1
          H cfg D w [] (e ∙ lines),
      λ v rest h.
          read_answer cfg.mycall cfg'.mycall square H.version m.caller m.daemon m.squared
            m.versions.0 H' cfg' m.calling refl m.short D' 0 v rest
            (h
              ∙ ap (λ l. l ++ rest) answer
              ∙ append_assoc (codes "; " ++ identity cfg.mycall cfg'.mycall square)
                  (13 ∷ (my_sid H.version ++ 13 ∷ [])) rest
              ∙ ap (λ l. (codes "; " ++ identity cfg.mycall cfg'.mycall square) ++ 13 ∷ l)
                  (append_assoc (my_sid H.version) (13 ∷ []) rest)),
    )
