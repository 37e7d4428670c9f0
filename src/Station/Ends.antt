-- ===== src/Station/Ends.antt =====
-- wl2k.c: the ends of the greetings and of the two exchanges.
use paclink_unix.Common.{
  ℕ, zero, suc, ◌≤◌, ◌<◌, ◌≡◌, refl, ◌≢◌, Bool, true, false, Option, none, some, List, [], arith,
  ◌==◌, length, codes,
}
use paclink_unix.Strutil.{strbegins}
use paclink_unix.Proposal.{Proposal}
use paclink_unix.Mid.Hash.{Database}
use paclink_unix.Mid.{Done, success, failure, halt, expire_mids}
use paclink_unix.Session.{World, Run, ok, exited, stuck, Action, return, fail}
use paclink_unix.Session.Outbound.Ends.{outbound-IsStopping}
use paclink_unix.Session.Inbound.{Services, inbound_parser}
use paclink_unix.Session.Inbound.Ends.{inbound_parser-Stops}
use paclink_unix.Session.Ends.{
  Stops, Stops-le, Stops-then, Stops-if, IsStopping, bind-IsStopping, if-IsStopping,
  return-IsStopping, fail-IsStopping, write-IsStopping, next_line_shorter, skip_lines-Stops,
}
use paclink_unix.Handshake.{parse_inboundsid, has_sub}
use paclink_unix.Outbox.{
  Entry, Collected, collected, abandoned, undetermined, prepare_outbound_proposals,
}
use paclink_unix.Outbox.Proposals.{IsSettledOutbox, prepare_outbound_proposals-determined}
use paclink_unix.Station.{
  Config, Host, Greeting, more, greeted, Poll, wl2k_wait_for_response, has_char, last_byte,
  challenge_of, own_call, with_codes, at_prompt, handshake_line, caller_line, greeting_loop,
  handshake, behind_forwards, handshake_no_secure_login, expire, prepare, when_active,
  wl2k_exchange, wl2kd_exchange,
}

module _ (H : Host) (cfg : Config) (D : Database) where
  with_codes-IsStopping :
      (line : List ℕ) (f : List ℕ → Action D Greeting)
      → ((s : List ℕ) → IsStopping (f s))
      → IsStopping (with_codes H cfg D line f)
  unfolding with_codes
  with_codes-IsStopping line f h = by_codes (parse_inboundsid line)
    where
      by_codes :
          (o : Option (List ℕ))
          → IsStopping {D = D}
              (elim o as (λ _. Action D Greeting) [ none ↦ fail | some sid ↦ f sid ])
      by_codes none = fail-IsStopping D Greeting
      by_codes (some sid) = h sid

  at_prompt-IsStopping :
      (sid : Option (List ℕ)) (answer : List ℕ → List ℕ) (line : List ℕ)
      → IsStopping (at_prompt H cfg D sid answer line)
  unfolding at_prompt
  at_prompt-IsStopping none answer line = fail-IsStopping D Greeting
  at_prompt-IsStopping (some sid) answer line =
      bind-IsStopping _ _ (write-IsStopping D (answer sid))
        (λ _. return-IsStopping D (greeted line))

  handshake_line-IsStopping :
      (line : List ℕ) (sid : Option (List ℕ)) (challenge : List ℕ)
      → IsStopping (handshake_line H cfg D line sid challenge)
  unfolding handshake_line
  handshake_line-IsStopping line sid challenge w =
      Stops-if (length w.input) (has_char b'[' line) _ _
        (with_codes-IsStopping line _ (λ s. return-IsStopping D (more (some s) challenge)) w)
        (Stops-if (length w.input) (strbegins line (codes ";")) _ _
          (return-IsStopping D (more sid (challenge_of line challenge)) w)
          (Stops-if (length w.input) (last_byte (H.byte_before w.input) line == b'>') _ _
            (at_prompt-IsStopping sid _ line w) (return-IsStopping D (more sid challenge) w)))

  caller_line-IsStopping :
      (n : ℕ) (line : List ℕ) (sid : Option (List ℕ)) → IsStopping (caller_line H cfg D n line sid)
  unfolding caller_line
  caller_line-IsStopping n line sid w =
      Stops-if (length w.input) (has_char b'[' line) _ _
        (with_codes-IsStopping line _ (λ s. return-IsStopping D (greeted line)) w)
        (Stops-if (length w.input) (strbegins line (codes ";")) _ _
          (Stops-if (length w.input) (has_sub line (own_call H cfg)) _ _
            (return-IsStopping D (more sid []) w) (return-IsStopping D (greeted line) w))
          (Stops-if (length w.input) (last_byte (H.byte_before w.input) line == b'>') _ _
            (at_prompt-IsStopping sid _ line w) (return-IsStopping D (more sid []) w)))

  behind_forwards-IsStopping :
      (n : ℕ) (line : List ℕ) (sid : Option (List ℕ)) (challenge : List ℕ)
      → IsStopping (behind_forwards H cfg D n line sid challenge)
  unfolding behind_forwards
  behind_forwards-IsStopping n line₀ sid challenge w =
      Stops-then (length w.input) _ _
        (skip_lines-Stops D (suc (length w.input)) (codes ";FW:") line₀ w (omega arith))
        (λ line v l.
          Stops-le (length v.input) (length w.input) _ l (caller_line-IsStopping n line sid v))

  -- A greeting comes to an end on every input, when each of its rounds does.
  greeting_loop-Stops :
      (body : List ℕ → Option (List ℕ) → List ℕ → Action D Greeting)
      → ((line : List ℕ) (sid : Option (List ℕ)) (challenge : List ℕ)
          → IsStopping (body line sid challenge))
      → (fuel : ℕ) (sid : Option (List ℕ)) (challenge : List ℕ) (w : World D)
      → length w.input < fuel
      → Stops (length w.input) (greeting_loop H cfg D body fuel sid challenge w)
  unfolding greeting_loop
  greeting_loop-Stops body h zero sid challenge w l = elim l [ ]
  greeting_loop-Stops body h (suc fuel) sid challenge w l = next_line_shorter D _ w (λ line v k.
      Stops-le (length v.input) (length w.input) _ (omega arith) (
        Stops-then (length v.input) (body line sid challenge v) _ (h line sid challenge v) (λ g u j.
          by_greeting g v u j
            (λ sid' challenge'. greeting_loop-Stops body h fuel sid' challenge' u (omega arith)))))
    where
      by_greeting :
          (g : Greeting) (v u : World D)
          → length u.input ≤ length v.input
          → ((s : Option (List ℕ)) (c : List ℕ)
              → Stops (length u.input) (greeting_loop H cfg D body fuel s c u))
          → Stops (length v.input) (
              elim g as (λ _. Action D (List ℕ)) [
                | more s c ↦ greeting_loop H cfg D body fuel s c
                | greeted s ↦ return s
              ]
                u)
      by_greeting (more s c) v u j k = Stops-le (length u.input) (length v.input) _ j (k s c)
      by_greeting (greeted s) v u j k = j

  handshake-IsStopping : IsStopping (handshake H cfg D)
  unfolding handshake
  handshake-IsStopping w =
      greeting_loop-Stops (handshake_line H cfg D) handshake_line-IsStopping (suc (length w.input))
        none [] w (omega arith)

  no_secure_login-IsStopping : (n : ℕ) → IsStopping (handshake_no_secure_login H cfg D n)
  unfolding handshake_no_secure_login
  no_secure_login-IsStopping n w =
      greeting_loop-Stops (behind_forwards H cfg D n) (behind_forwards-IsStopping n)
        (suc (length w.input)) none [] w (omega arith)

  module _ (S : Services) where
    expire-IsStopping : IsStopping (expire H cfg D S)
    unfolding expire
    expire-IsStopping w = by_result (expire_mids D S.now w.mids).0
      where
        w' : World D
        w' = record w { mids = (expire_mids D S.now w.mids).1 }

        by_result :
            (r : Done)
            → Stops (length w.input) (elim r as (λ _. Run D (Unit {0})) [
              | success ↦ ok tt w'
              | failure ↦ exited w'
              | halt ↦ exited w'
            ])
        by_result success = omega arith
        by_result failure = tt
        by_result halt = tt

    prepare-IsStopping :
        (bp2p : Bool) (outbox : Option (List Entry))
        → IsSettledOutbox H.version_1_encode bp2p cfg.targetcall outbox
        → IsStopping (prepare H cfg D S bp2p outbox)
    unfolding prepare
    prepare-IsStopping bp2p outbox settled w =
        by_proposals (prepare_outbound_proposals H.version_1_encode bp2p cfg.targetcall outbox) (
          prepare_outbound_proposals-determined H.version_1_encode bp2p cfg.targetcall outbox
            settled)
      where
        by_proposals :
            (o : Collected)
            → o ≢ undetermined
            → Stops (length w.input) (elim o as (λ _. Run D (List Proposal)) [
              | abandoned ↦ exited w
              | undetermined ↦ stuck
              | collected ps ↦ ok ps (record w { before = []; next = ps })
            ])
        by_proposals abandoned d = tt
        by_proposals undetermined d = d refl
        by_proposals (collected ps) d = omega arith

    when_active-IsStopping :
        (polls : List Poll) (b : Bool)
        → wl2k_wait_for_response polls ≡ some b
        → IsStopping (when_active H cfg D S polls)
    unfolding when_active
    when_active-IsStopping polls b h =
        rw (h, when_active)
          (if-IsStopping b _ _
            (bind-IsStopping (inbound_parser D S) _ (inbound_parser-Stops D S)
              (λ _. return-IsStopping D tt))
            (return-IsStopping D tt))

    -- For every outbox whose files have fewer than 2 ^ 32 bytes, whatever the other station sends,
    -- and whatever the database and the programs that are called answer, wl2k_exchange comes to an
    -- end, a return or an exit of the process, once the wait for the other station's response is
    -- over: it never reads more than the input has, and none of the model's loops runs out of
    -- rounds. That version_1_Encode, version_1_Decode and wl2mime come to an end is taken for
    -- granted.
    pub wl2k_exchange-Stops :
        (outbox : Option (List Entry)) (polls : List Poll) (b : Bool)
        → IsSettledOutbox H.version_1_encode false cfg.targetcall outbox
        → wl2k_wait_for_response polls ≡ some b
        → (w : World D) → Stops (length w.input) (wl2k_exchange H cfg D S outbox polls w)
    unfolding wl2k_exchange
    wl2k_exchange-Stops outbox polls b settled h = bind-IsStopping _ _ expire-IsStopping (λ _.
        bind-IsStopping _ _ (prepare-IsStopping false outbox settled) (λ ps.
          bind-IsStopping _ _ handshake-IsStopping (λ line.
            bind-IsStopping _ _ (outbound-IsStopping D line) (λ going.
              if-IsStopping going _ _ (when_active-IsStopping polls b h)
                (return-IsStopping D tt)))))

    -- For every outbox whose files have fewer than 2 ^ 32 bytes, wl2kd_exchange, which does not
    -- wait, comes on every input to a return or an exit, and never reads more than the input has,
    -- where memory that it has freed still has what stood in it. That version_1_Encode,
    -- version_1_Decode and wl2mime come to an end is taken for granted.
    pub wl2kd_exchange-Stops :
        (outbox : Option (List Entry)) (w : World D)
        → IsSettledOutbox H.version_1_encode true cfg.targetcall outbox
        → Stops (length w.input) (wl2kd_exchange H cfg D S outbox w)
    unfolding wl2kd_exchange
    wl2kd_exchange-Stops outbox w settled =
        bind-IsStopping _ _ expire-IsStopping
          (λ _. bind-IsStopping _ _ (prepare-IsStopping true outbox settled) (λ ps.
            bind-IsStopping _ _ (write-IsStopping D _) (λ _.
              bind-IsStopping _ _ (no_secure_login-IsStopping (length ps)) (λ line.
                bind-IsStopping _ _ (inbound_parser-Stops D S) (λ going.
                  if-IsStopping going _ _
                    (bind-IsStopping _ _ (outbound-IsStopping D line) (λ _. return-IsStopping D tt))
                    (return-IsStopping D tt))))))
          w
