-- ===== src/Station.antt =====
-- wl2k.c: the greetings of the two stations, and the exchanges that call everything else: handshake,
-- handshake_no_secure_login, p2p_startmsg, wl2k_wait_for_response, wl2k_exchange and wl2kd_exchange.
pub mod Ends
pub mod Peer
pub mod Login
pub mod Caller
pub mod Meeting
use paclink_unix.Common.{
  ℕ, zero, suc, ◌+◌, ◌%◌, ◌^◌, Bool, true, false, Option, none, some, List, [], ◌∷◌, ◌++◌, ◌==◌,
  if◌then◌else◌, length, take, drop, codes,
}
use paclink_unix.Buffer.{Buffer}
use paclink_unix.Strutil.{strbegins, strncmp_zero, strchr}
use paclink_unix.Number.{decimal}
use paclink_unix.Proposal.{Proposal}
use paclink_unix.Mid.Hash.{Database}
use paclink_unix.Mid.{Done, success, failure, halt, expire_mids}
use paclink_unix.Session.{
  World, Run, ok, exited, stuck, Action, then_run, ◌>>=◌, ◌>>◌, return, fail, write, next_line,
}
use paclink_unix.Session.Outbound.{skip_lines, b2outboundproposal, is_empty}
use paclink_unix.Session.Inbound.{Services, inbound_parser}
use paclink_unix.Handshake.{parse_inboundsid, my_sid, has_sub, send_secure_login_response}
use paclink_unix.Outbox.{Entry, collected, abandoned, undetermined, prepare_outbound_proposals}

-- The fields of cfg_t that these functions use; `none` is NULL.
pub record Config : Type 0 where
  pub mycall : List ℕ
  pub targetcall : List ℕ
  pub gridsquare : Option (List ℕ)
  pub wl2k_password : Option (List ℕ)

-- What is not under the program's control: the package's version, md5_buffer, what printf makes of
-- NULL, the byte in front of a line's buffer, which an empty line brings into play and which may
-- differ from line to line, and version_1_Encode.
pub record Host : Type 0 where
  pub version : List ℕ
  pub md5 : List ℕ → ℕ → ℕ
  pub null_text : List ℕ
  pub byte_before : List ℕ → ℕ
  pub version_1_encode : Buffer → Option Buffer

-- `strchr(s, c) != NULL`
unfoldable pub has_char : ℕ → List ℕ → Bool
has_char c s = elim (strchr c s) [ none ↦ false | some t ↦ true ]

-- `s[strlen(s) - 1]`, where `before` stands in front of `s`
unfoldable pub last_byte : ℕ → List ℕ → ℕ
last_byte before [] = before
last_byte before (c ∷ s) = last_byte c s

-- The challenge behind ";PQ: " if it has eight bytes
unfoldable pub challenge_of : List ℕ → List ℕ → List ℕ
challenge_of line challenge =
    if strncmp_zero 5 line (codes ";PQ: ")
    then (if length (drop 5 line) == 8 then drop 5 line else challenge)
    else challenge

-- What a line makes of a greeting: on with these codes and this challenge, or done with the line.
pub data Greeting : Type 0 where
  more : Option (List ℕ) → List ℕ → Greeting
  greeted : List ℕ → Greeting

-- What `select` and, on a timeout, getpeername say
pub data Poll : Type 0 where
  select_failed : Bool → Poll
  input_active : Poll
  timed_out : Bool → Poll

-- The argument of `select_failed` is whether the error is EBADF, and that of `timed_out` what
-- isax25connected returns. `none` is a wait that goes on.
unfoldable pub wl2k_wait_for_response : List Poll → Option Bool
wl2k_wait_for_response [] = none
wl2k_wait_for_response (select_failed true ∷ ps) = some false
wl2k_wait_for_response (select_failed false ∷ ps) = wl2k_wait_for_response ps
wl2k_wait_for_response (input_active ∷ ps) = some true
wl2k_wait_for_response (timed_out false ∷ ps) = some false
wl2k_wait_for_response (timed_out true ∷ ps) = wl2k_wait_for_response ps

-- The sum of the sizes, an unsigned long
unfoldable pub oprop_usize : List Proposal → ℕ
oprop_usize [] = 0
oprop_usize (p ∷ ps) = (p.usize + oprop_usize ps) % 2 ^ 64

module _ (H : Host) (cfg : Config) where
  -- `qtcbuf`
  unfoldable pub qtc : List ℕ
  qtc =
      let grid : List ℕ = elim cfg.gridsquare [ none ↦ H.null_text | some g ↦ g ] in
      take 62 (
        codes ">; "
        ++ (cfg.targetcall
            ++ (codes " DE " ++ (cfg.mycall ++ (codes " (" ++ (grid ++ codes ")"))))))

  -- What is sent at the prompt of a station with these codes
  unfoldable pub answer_prompt : List ℕ → List ℕ → List ℕ
  answer_prompt sid challenge =
      let (out, sent_pr) = send_secure_login_response H.md5 H.version challenge cfg.wl2k_password in
      let identity : List ℕ = if has_char b'I' sid then codes "; " ++ (qtc ++ 13 ∷ []) else [] in
      let own_sid : List ℕ = if sent_pr then [] else my_sid H.version ++ 13 ∷ [] in
      out ++ (identity ++ own_sid)

  -- The same of handshake_no_secure_login, for `n` proposals
  unfoldable pub answer_caller : ℕ → List ℕ → List ℕ
  answer_caller n sid =
      let identity : List ℕ =
        codes "; "
        ++ (cfg.targetcall
            ++ (codes " DE " ++ (cfg.mycall ++ (codes " QTC " ++ (decimal n ++ 13 ∷ []))))) in
      (if has_char b'I' sid then identity else []) ++ (my_sid H.version ++ 13 ∷ [])

  -- `strbuf`
  unfoldable pub own_call : List ℕ
  own_call = take 62 (cfg.mycall ++ (codes " DE " ++ (cfg.targetcall ++ codes " ")))

  -- What p2p_startmsg writes
  unfoldable pub p2p_startmsg : ℕ → ℕ → List ℕ
  p2p_startmsg zero usize =
      codes "No Traffic"
      ++ 13 ∷ (cfg.targetcall ++ (codes " de " ++ (cfg.mycall ++ b'>' ∷ 13 ∷ [])))
  p2p_startmsg (suc n) usize =
      cfg.targetcall
      ++ (codes " de "
          ++ (cfg.mycall
              ++ (codes " QTC "
                  ++ (decimal (suc n)
                      ++ (codes " msg "
                          ++ (decimal ((usize + 18) % 2 ^ 64) ++ (codes " char>" ++ 13 ∷ [])))))))

  module _ (D : Database) where
    -- A greeting's codes, or the exit on a bad station identifier
    unfoldable pub with_codes : List ℕ → (List ℕ → Action D Greeting) → Action D Greeting
    with_codes line f = elim (parse_inboundsid line) [ none ↦ fail | some sid ↦ f sid ]

    unfoldable pub at_prompt : Option (List ℕ) → (List ℕ → List ℕ) → List ℕ → Action D Greeting
    at_prompt none answer line = fail
    at_prompt (some sid) answer line = do write (answer sid); return (greeted line)

    -- The body of handshake's loop
    unfoldable pub handshake_line : List ℕ → Option (List ℕ) → List ℕ → Action D Greeting
    handshake_line line sid challenge w =
        let pass : Run D Greeting = return (more sid challenge) w in
        let challenged : Run D Greeting = return (more sid (challenge_of line challenge)) w in
        let prompt : Run D Greeting = at_prompt sid (λ s. answer_prompt s challenge) line w in
        let identified : Run D Greeting =
          with_codes line (λ s. return (more (some s) challenge)) w in
        if has_char b'[' line
        then identified
        else (if strbegins line (codes ";")
            then challenged
            else (if last_byte (H.byte_before w.input) line == b'>' then prompt else pass))

    -- The body of handshake_no_secure_login's loop
    unfoldable pub caller_line : ℕ → List ℕ → Option (List ℕ) → Action D Greeting
    caller_line n line sid w =
        let pass : Run D Greeting = return (more sid []) w in
        let prompt : Run D Greeting = at_prompt sid (answer_caller n) line w in
        let identified : Run D Greeting = with_codes line (λ s. return (greeted line)) w in
        if has_char b'[' line
        then identified
        else (if strbegins line (codes ";")
            then (if has_sub line own_call then pass else return (greeted line) w)
            else (if last_byte (H.byte_before w.input) line == b'>' then prompt else pass))

    unfoldable pub greeting_loop :
        (List ℕ → Option (List ℕ) → List ℕ → Action D Greeting)
        → ℕ
        → Option (List ℕ)
        → List ℕ
        → Action D (List ℕ)
    greeting_loop body zero sid challenge = λ w. stuck
    greeting_loop body (suc fuel) sid challenge = do
      line ← next_line
      g ← body line sid challenge
      elim g [
        | more sid' challenge' ↦ greeting_loop body fuel sid' challenge'
        | greeted s ↦ return s
      ]

    -- Each round reads a line, which takes a byte at least.
    unfoldable pub handshake : Action D (List ℕ)
    handshake w = greeting_loop handshake_line (suc (length w.input)) none [] w

    -- The lines of forwarded mail are passed over in front of every line.
    unfoldable pub behind_forwards : ℕ → List ℕ → Option (List ℕ) → List ℕ → Action D Greeting
    behind_forwards n line₀ sid challenge w =
        (do line ← skip_lines (suc (length w.input)) (codes ";FW:") line₀; caller_line n line sid) w

    unfoldable pub handshake_no_secure_login : ℕ → Action D (List ℕ)
    handshake_no_secure_login n w =
        greeting_loop (behind_forwards n) (suc (length w.input)) none [] w

    module _ (S : Services) where
      unfoldable pub expire : Action D (Unit {0})
      expire w =
          let (r, db) = expire_mids D S.now w.mids in
          let w' = record w { mids = db } in
          elim r [ success ↦ ok tt w' | failure ↦ exited w' | halt ↦ exited w' ]

      -- `oproplist = prepare_outbound_proposals(bp2p, yourcall)`, for these entries of the outbox
      unfoldable pub prepare : Bool → Option (List Entry) → Action D (List Proposal)
      prepare bp2p outbox w =
          elim (prepare_outbound_proposals H.version_1_encode bp2p cfg.targetcall outbox) [
            | abandoned ↦ exited w
            | undetermined ↦ stuck
            | collected ps ↦ ok ps (record w { before = []; next = ps })
          ]

      -- The wait for the other station, whose polls these are
      unfoldable pub when_active : List Poll → Action D (Unit {0})
      when_active polls =
          let parse : Action D (Unit {0}) = (do going ← inbound_parser D S; return tt) in
          elim (wl2k_wait_for_response polls) [
            | none ↦ λ w. stuck
            | some active ↦ if active then parse else return tt
          ]

      unfoldable pub wl2k_exchange : Option (List Entry) → List Poll → Action D (Unit {0})
      wl2k_exchange outbox polls = do
        expire
        ps ← prepare false outbox
        line ← handshake
        going ← b2outboundproposal line
        if going then when_active polls else return tt

      unfoldable pub wl2kd_exchange : Option (List Entry) → Action D (Unit {0})
      wl2kd_exchange outbox = do
        expire
        ps ← prepare true outbox
        write (p2p_startmsg (length ps) (oprop_usize ps))
        line ← handshake_no_secure_login (length ps)
        going ← inbound_parser D S
        if going then (do more_to_do ← b2outboundproposal line; return tt) else return tt
