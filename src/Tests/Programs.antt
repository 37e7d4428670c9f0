-- ===== src/Tests/Programs.antt =====
-- Runs of the main programs' parts.
use paclink_unix.Common.{
  ℕ, ◌≤◌, ◌≡◌, refl, false, Option, none, some, List, [], ◌∷◌, ◌++◌, arith, if◌then◌else◌, All,
  length, codes, concat,
}
use paclink_unix.Conf.{strcmp_zero}
use paclink_unix.Strutil.{strncmp_zero, isspace}
use paclink_unix.Session.{World, ok}
use paclink_unix.Number.{skip_spaces, read_sign, read_digits, digit_value}
use paclink_unix.Setup.{usage, number_of, number_or}
use paclink_unix.Setup.Radio.{verbose, port, timeout, loadconfig}
use paclink_unix.Setup.Radio.Missing.{shows_config, loadconfig-usage}
use paclink_unix.Setup
use paclink_unix.Welcome
use paclink_unix.Setup.Telnet.{telnet_login}
use paclink_unix.Setup.Telnet.Login.{telnet_login-IsAwaited}
use paclink_unix.Station.Login.{sent_lines}
use paclink_unix.Pump.{wrote, would_block, write_loop, not_ready, got, Carried, pump}
use paclink_unix.Pump.Chunk.{all_written, part, Sends, write_loop-would_block}
use paclink_unix.Pump.Rounds.{polls_of, pump-Flows}
use paclink_unix.Welcome.{finished, print_esc_string}
use paclink_unix.Welcome.RoundTrip.{written_text, print_esc_string-written_text}
use paclink_unix.Tests.Hash.{log_hash}
use paclink_unix.Tests.Station.{station}

-- A file that sets mycall
abbrev settings : List ℕ → Option (List ℕ)
settings name = if strcmp_zero name (codes "mycall") then some (codes "n1") else none

loadconfig-usage_example :
    loadconfig (codes "me") settings (verbose ∷ port (codes "p") ∷ timeout (codes "9") ∷ []) []
    ≡ usage
unfolding number_of number_or strcmp_zero read_digits read_sign skip_spaces isspace digit_value
    shows_config
loadconfig-usage_example =
    loadconfig-usage (codes "me") settings (verbose ∷ port (codes "p") ∷ timeout (codes "9") ∷ [])
      (codes "n1") 120 refl refl (tt, (tt, ((9, refl), tt)))

abbrev hello : World log_hash
hello = record station {
  input =
      sent_lines (codes "Hi" ∷ [])
        (codes "Callsign :" ++ 13 ∷ sent_lines [] (codes "Password :" ++ 13 ∷ codes "x"));
}

telnet_login-IsAwaited_example :
    telnet_login log_hash (codes "N1") (codes "p") hello
    ≡ ok tt (record hello {
      input = codes "x";
      output = ([] ++ b'.' ∷ (codes "N1" ++ 13 ∷ 10 ∷ [])) ++ (codes "p" ++ 13 ∷ 10 ∷ []);
    })
unfolding strncmp_zero
telnet_login-IsAwaited_example =
    telnet_login-IsAwaited log_hash (codes "N1") (codes "p") hello (codes "Hi" ∷ []) []
      (codes "Callsign :") (codes "Password :") (codes "x") ((ground arith, refl), tt)
      (ground arith, refl) tt (ground arith, refl) refl

-- Three bytes, of which the first goes out and the second write would block
write_loop-would_block_example :
    Sends 255
      (1 ∷ 1 ∷ 2 ∷ 3 ∷ [])
      (write_loop 255 (1 ∷ 2 ∷ 3 ∷ []) (wrote 1 ∷ would_block ∷ wrote 3 ∷ []) 0 3)
write_loop-would_block_example =
    write_loop-would_block 255 1 (2 ∷ 3 ∷ []) 0 1 (omega arith) refl
      (part 3 2 (omega arith) (omega arith) (omega arith) (all_written []))

pump-Flows_example :
    (k' : Carried) × (pump 255
        (polls_of ((got (7 ∷ 8 ∷ []) (wrote 1 ∷ wrote 1 ∷ []), not_ready) ∷ []) ++ [])
        (record { to_child = []; to_radio = [] })
      ≡ pump 255 [] k')
    × (concat k'.to_child ≡ 7 ∷ 8 ∷ [])
    × (concat k'.to_radio ≡ [])
    × All (λ (p : List ℕ). length p ≤ 255) k'.to_child
    × All (λ (p : List ℕ). length p ≤ 255) k'.to_radio
pump-Flows_example =
    pump-Flows 255 ((got (7 ∷ 8 ∷ []) (wrote 1 ∷ wrote 1 ∷ []), not_ready) ∷ []) []
      (record { to_child = []; to_radio = [] })
      (
        (
          part 1 1 (omega arith) (omega arith) (omega arith)
              (part 1 0 (omega arith) (omega arith) (omega arith) (all_written [])),
          tt,
        ),
        tt,
      )
      tt tt

print_esc_string-written_text_example :
    print_esc_string false (written_text (codes "Hi" ++ 13 ∷ []))
    ≡ record { output = codes "Hi" ++ 13 ∷ []; ending = finished }
print_esc_string-written_text_example = print_esc_string-written_text (codes "Hi" ++ 13 ∷ [])

-- A backslash at the end
trailing_backslash :
    print_esc_string false (codes "Hi" ++ 92 ∷ [])
    ≡ record { output = codes "Hi" ++ 0 ∷ []; ending = Welcome.astray }
unfolding print_esc_string
trailing_backslash = refl

-- Two rates, with 13 as B9600 and 15 as B38400
abbrev rates : List (List ℕ × ℕ)
rates = (codes "9600", 13) ∷ (codes "38400", 15) ∷ []

abbrev serial_options : List Setup.Serial.Flag
serial_options =
    Setup.Serial.target_call (codes "n2")
    ∷ Setup.Serial.device (codes "d")
    ∷ Setup.Serial.modem_type (codes "p4dragon")
    ∷ []
