-- ===== src/Setup/Telnet/Login.antt =====
-- wl2ktelnet.c: the dialogue with the telnet host, and what main sends in it.
use paclink_unix.Common.{
  ℕ, zero, suc, ◌≤◌, ◌<◌, ◌≡◌, refl, ap, true, false, List, [], ◌∷◌, ◌++◌, arith, All, length,
  length-append, codes,
}
use paclink_unix.Strutil.{strncmp_zero}
use paclink_unix.Mid.Hash.{Database}
use paclink_unix.Session.{World, ok, write}
use paclink_unix.Session.Inbound.Lines.{IsPlain, next_line-plain}
use paclink_unix.Station.Login.{sent_lines, length-sent_lines}
use paclink_unix.Setup.Telnet.{await, telnet_login}

-- A plain line that is not the one that is waited for, and one that is
abbrev pub IsOther : List ℕ → List ℕ → Type 0
IsOther prompt line = All IsPlain line × (strncmp_zero (length prompt) prompt line ≡ false)

abbrev pub IsAwaited : List ℕ → List ℕ → Type 0
IsAwaited prompt line = All IsPlain line × (strncmp_zero (length prompt) prompt line ≡ true)

module _ (D : Database) where
  await-IsAwaited :
      (fuel : ℕ) (prompt : List ℕ) (ls : List (List ℕ)) (line rest : List ℕ) (w : World D)
      → All (IsOther prompt) ls
      → IsAwaited prompt line
      → w.input ≡ sent_lines ls (line ++ 13 ∷ rest)
      → length ls < fuel
      → await D fuel prompt w ≡ ok tt (record w { input = rest })
  unfolding await
  await-IsAwaited zero prompt ls line rest w h k e l = elim l [ ]
  await-IsAwaited (suc fuel) prompt [] line rest w h k e l =
      rw (next_line-plain D w line rest k.0 e, await) (rw k.1)
  await-IsAwaited (suc fuel) prompt (other ∷ ls) line rest w h k e l =
      rw (next_line-plain D w other (sent_lines ls (line ++ 13 ∷ rest)) h.0.0 e, await)
        (rw h.0.1 (
          await-IsAwaited fuel prompt ls line rest
            (record w { input = sent_lines ls (line ++ 13 ∷ rest) }) h.1 k refl (omega arith)))

  enough : (ls : List (List ℕ)) (s t : List ℕ) → s ≡ sent_lines ls t → length ls < suc (length s)
  enough ls s t e = omega (arith, ap length e, length-sent_lines ls t)

  behind : (ls : List (List ℕ)) (t : List ℕ) → length t ≤ length (sent_lines ls t)
  behind [] t = omega arith
  behind (l ∷ ls) t = omega (arith, length-append l (13 ∷ sent_lines ls t), behind ls t)

  -- wl2ktelnet answers the first line that begins with "Callsign" by a dot and its callsign, and
  -- the first line behind it that begins with "Password" by the password, each with CR and LF; it
  -- sends nothing to the lines in between, and leaves what follows unread. All lines are ASCII
  -- without bytes that tgetline drops.
  pub telnet_login-IsAwaited :
      (call secret : List ℕ) (w : World D) (before between : List (List ℕ))
      (first second rest : List ℕ)
      → All (IsOther (codes "Callsign")) before
      → IsAwaited (codes "Callsign") first
      → All (IsOther (codes "Password")) between
      → IsAwaited (codes "Password") second
      → w.input ≡ sent_lines before (first ++ 13 ∷ sent_lines between (second ++ 13 ∷ rest))
      → telnet_login D call secret w
        ≡ ok tt (record w {
          input = rest;
          output = (w.output ++ b'.' ∷ (call ++ 13 ∷ 10 ∷ [])) ++ (secret ++ 13 ∷ 10 ∷ []);
        })
  unfolding telnet_login write
  telnet_login-IsAwaited call secret w before between first second rest h f k g e =
      let rest₁ = sent_lines between (second ++ 13 ∷ rest) in
      let w₁ : World D = record w {
        input = rest₁;
        output = w.output ++ b'.' ∷ (call ++ 13 ∷ 10 ∷ []);
      } in
      let asked =
        await-IsAwaited (suc (length w.input)) (codes "Callsign") before first rest₁ w h f e
          (enough before w.input (first ++ 13 ∷ rest₁) e) in
      let longer : length rest₁ ≤ length w.input = omega (
        arith,
        ap length e,
        behind before (first ++ 13 ∷ rest₁),
        length-append first (13 ∷ rest₁),
      ) in
      let answered =
        await-IsAwaited (suc (length w.input)) (codes "Password") between second rest w₁ k g refl
          (omega (arith, longer, enough between rest₁ (second ++ 13 ∷ rest) refl)) in
      rw (asked, telnet_login) (rw answered)
