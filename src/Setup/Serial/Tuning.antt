-- ===== src/Setup/Serial/Tuning.antt =====
-- wl2kserial.c: the baud rate and the modem that loadconfig chooses.
use paclink_unix.Common.{ℕ, ◌≡◌, ◌≢◌, ◌⊎◌, Bool, List, if◌then◌else◌}
use paclink_unix.Setup.{Loading, loaded, usage, no_mycall, displayed}
use paclink_unix.Setup.Serial.{Serial, find_baud, find_modem, scsmodem_ptciipro, scsmodem_p4dragon}

abbrev by_test : Bool → Bool → ℕ
by_test a b = if a then 1 else (if b then 2 else 0)

-- A modem of the table, with the rate that belongs to it: 38400 for the P4dragon, and the rate of a
-- name in the table for the PTC-IIpro, which is not 0
pub record IsTuned (baudrates : List (List ℕ × ℕ)) (b38400 : ℕ) (c : Serial) : Type 0 where
  pub known : find_modem c.modem_name ≡ c.modem
  pub supported : (c.modem ≡ scsmodem_ptciipro) ⊎ (c.modem ≡ scsmodem_p4dragon)
  pub dragon : c.modem ≡ scsmodem_p4dragon → c.baudrate ≡ b38400
  pub pro : c.modem ≡ scsmodem_ptciipro → c.baudrate ≡ find_baud baudrates c.baud_name
  pub listed : find_baud baudrates c.baud_name ≢ 0
  pub running : c.baudrate ≢ 0

module _ (baudrates : List (List ℕ × ℕ)) (b9600 b38400 : ℕ) where
  abbrev pub Tuned : Loading Serial → Type 0
  Tuned (loaded c) = IsTuned baudrates b38400 c
  Tuned usage = Unit
  Tuned no_mycall = Unit
  Tuned displayed = Unit

  abbrev Half : Serial → Type 0
  Half c =
      (find_modem c.modem_name ≡ c.modem)
      × (find_baud baudrates c.baud_name ≢ 0)
      × (((c.modem ≡ 2) × (c.baudrate ≡ b38400))
          ⊎ ((c.modem ≡ 1) × (c.baudrate ≡ find_baud baudrates c.baud_name)))
