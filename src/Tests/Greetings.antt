-- ===== src/Tests/Greetings.antt =====
-- Runs of wl2k.c's greetings and exchanges.
use paclink_unix.Common.{ℕ, ◌≡◌, refl, true, none, some, List, [], ◌∷◌, ◌++◌, arith, length, codes}
use paclink_unix.Strutil.{strchr, strupper, strbegins, strncmp_zero}
use paclink_unix.Handshake.{my_sid, parse_inboundsid, last_from, before_last, has_sub}
use paclink_unix.Session.{World, ok, return, write, ◌>>=◌, ◌>>◌}
use paclink_unix.Session.Ends.{Stops}
use paclink_unix.Session.Inbound.{inbound_parser}
use paclink_unix.Welcome
use paclink_unix.Station.Meeting.{Meet, handshake-handshake_no_secure_login}
use paclink_unix.Station.{
  has_char, wl2k_wait_for_response, Config, Host, answer_prompt, handshake,
  handshake_no_secure_login, input_active, timed_out, wl2k_exchange, wl2kd_exchange, expire,
  prepare, p2p_startmsg, oprop_usize,
}
use paclink_unix.Station.Ends.{wl2k_exchange-Stops, wl2kd_exchange-Stops}
use paclink_unix.Station.Peer.{wl2kd_exchange_lem}
use paclink_unix.Station.Login.{
  Greets, ready, identifies, challenges, remarks, banner, sent_lines, handshake-Greets,
}
use paclink_unix.Tests.Codec.{encoder}
use paclink_unix.Tests.Hash.{log_hash}
use paclink_unix.Tests.Logins.{length_hash}
use paclink_unix.Tests.Station.{services, station}

abbrev host : Host
host = record {
  version = codes "0";
  md5 = length_hash;
  null_text = codes "(null)";
  byte_before = λ s. 0;
  version_1_encode = encoder;
}

abbrev config : Config
config = record {
  mycall = codes "N1";
  targetcall = codes "N2";
  gridsquare = none;
  wl2k_password = some (codes "p");
}

wl2k_exchange-Stops_example : Stops (length station.input) (
    wl2k_exchange host config log_hash services
      (some [])
      (timed_out true ∷ input_active ∷ [])
      station)
unfolding wl2k_wait_for_response
wl2k_exchange-Stops_example =
    wl2k_exchange-Stops host config log_hash services (some []) (timed_out true ∷ input_active ∷ [])
      true tt refl station

wl2kd_exchange-Stops_example :
    Stops (length station.input) (wl2kd_exchange host config log_hash services (some []) station)
wl2kd_exchange-Stops_example =
    wl2kd_exchange-Stops host config log_hash services (some []) station tt

wl2kd_exchange_lem_example :
    wl2kd_exchange host config log_hash services (some []) station
    ≡ (do
      expire host config log_hash services
      ps ← prepare host config log_hash services true (some [])
      write (p2p_startmsg host config (length ps) (oprop_usize ps))
      line ← handshake_no_secure_login host config log_hash (length ps)
      going ← inbound_parser log_hash services
      return tt)
        station
wl2kd_exchange_lem_example = wl2kd_exchange_lem log_hash services host config (some []) station

-- "[W-B2FI$]", "Hi", ";PQ: 12345678", ";x"
abbrev greeting : List (List ℕ)
greeting = codes "[W-B2FI$]" ∷ codes "Hi" ∷ (codes ";PQ: " ++ codes "12345678") ∷ codes ";x" ∷ []

abbrev greeted_station : World log_hash
greeted_station = record station { input = sent_lines greeting (codes "W>" ++ 13 ∷ []) }

greeting-Greets : Greets none [] greeting (codes "-B2FI$") (codes "12345678")
unfolding has_char strchr parse_inboundsid last_from before_last has_sub strbegins strncmp_zero
    strupper
greeting-Greets = identifies (codes "[W-B2FI$]") (codes "-B2FI$") refl refl (
    banner b'i' (codes "Hi") (λ e. omega arith)
      (record { unbracketed = refl; unmarked = refl; closed = (codes "H", refl) })
      (challenges (codes "12345678") refl refl
        (remarks (codes ";x") refl refl refl (ready (codes "-B2FI$") (codes "12345678")))))

handshake-Greets_example :
    handshake host config log_hash greeted_station
    ≡ ok (codes "W>") (record station {
      input = [];
      output = answer_prompt host config (codes "-B2FI$") (codes "12345678");
    })
unfolding has_char strchr strbegins
handshake-Greets_example =
    handshake-Greets host config log_hash greeted_station greeting (codes "W>") [] (codes "-B2FI$")
      (codes "12345678") greeting-Greets (ground arith) (ground arith)
      (record { unbracketed = refl; unmarked = refl; closed = (codes "W", refl) }) refl

-- The caller N1 in a square, and the daemon N2 that it calls
abbrev caller : Config
caller = record {
  mycall = codes "N1";
  targetcall = codes "N2";
  gridsquare = some (codes "cn88");
  wl2k_password = none;
}

abbrev daemon : Config
daemon = record config { mycall = codes "N2"; targetcall = codes "N1" }

abbrev called_station : World log_hash
called_station = record station {
  input =
      (Welcome.greeting host.version (some (codes "cn87")) none).output
      ++ p2p_startmsg host daemon 0 0;
}

caller-daemon-Meet : Meet host caller host daemon (codes "cn88") (codes "cn87")
caller-daemon-Meet = record {
  called = refl;
  calling = refl;
  placed = refl;
  caller = ground arith;
  daemon = ground arith;
  squared = ground arith;
  gridded = ground arith;
  versions = (ground arith, ground arith);
  short = omega arith;
}

handshake-handshake_no_secure_login_example :
    (prompt out : List ℕ) × (handshake host caller log_hash called_station
      ≡ ok prompt (record station { input = []; output = out }))
    × ((v : World log_hash) (rest : List ℕ)
        → v.input ≡ out ++ rest
        → handshake_no_secure_login host daemon log_hash 0 v
          ≡ ok (my_sid host.version) (record v { input = rest }))
handshake-handshake_no_secure_login_example =
    handshake-handshake_no_secure_login host caller host daemon (codes "cn88") (codes "cn87")
      log_hash log_hash called_station caller-daemon-Meet refl
