-- ===== src/Tests/Mids.antt =====
-- Runs of mid.c on a small database.
use paclink_unix.Common.{ℕ, ◌≡◌, refl, ◌≢◌, true, some, List, [], ◌∷◌, arith}
use paclink_unix.Mid.Hash.{stamp, same}
use paclink_unix.Mid.{
  found, check_mid, record_mid, expire_mids, success, walk, generate_mid, generate_loop, fill,
  midchar, Generated,
}
use paclink_unix.Mid.Expiry.{check_mid-record_mid, expire_mids_lem, survivor}
use paclink_unix.Mid.Generate.{IsNew, generate_mid-IsNew}
use paclink_unix.Tests.Hash.{log_hash, Log, look, logged, without}

abbrev old_id : List ℕ
old_id = b'O' ∷ b'L' ∷ b'D' ∷ []

abbrev new_id : List ℕ
new_id = b'N' ∷ b'E' ∷ b'W' ∷ []

-- "OLD" received at the time 0, and "NEW" fifty days later
abbrev two_ids : Log
two_ids = (new_id, some (stamp 4320000)) ∷ (old_id, some (stamp 0)) ∷ []

abbrev later_on : ℕ
later_on = 4320100

recorded : (record_mid log_hash 100 new_id []).0 ≡ success
unfolding record_mid
recorded = refl

different : new_id ≢ old_id
different e = ground arith

check_mid-record_mid_example :
    ((check_mid log_hash 200 new_id (record_mid log_hash 100 new_id []).1).0 ≡ found)
    × ((check_mid log_hash 200 old_id (record_mid log_hash 100 new_id []).1).0
        ≡ (check_mid log_hash 200 old_id []).0)
check_mid-record_mid_example =
    check_mid-record_mid log_hash 100 200 new_id old_id [] recorded (λ d. refl) different

cleaned : (expire_mids log_hash later_on two_ids).0 ≡ success
unfolding expire_mids walk logged without same look
cleaned = refl

expire_mids_lem_example :
    look (expire_mids log_hash later_on two_ids).1 old_id
    ≡ survivor log_hash later_on (look two_ids old_id)
expire_mids_lem_example = expire_mids_lem log_hash later_on two_ids old_id cleaned

abbrev callsign : List ℕ
callsign = b'N' ∷ b'1' ∷ b'A' ∷ []

-- "AAAAAAAA_N1A"
abbrev first_id : List ℕ
first_id = b'A' ∷ b'A' ∷ b'A' ∷ b'A' ∷ b'A' ∷ b'A' ∷ b'A' ∷ b'A' ∷ b'_' ∷ callsign

generated : (generate_mid log_hash (λ n. 0) 3 100 callsign true two_ids).0 ≡ Generated.mid first_id
unfolding generate_mid generate_loop fill midchar check_mid record_mid same look
generated = refl

generate_mid-IsNew_example :
    (after : Log) × IsNew log_hash 100 callsign first_id two_ids after
    × ((generate_mid log_hash (λ n. 0) 3 100 callsign true two_ids).1
        ≡ (record_mid log_hash 100 first_id after).1)
generate_mid-IsNew_example =
    generate_mid-IsNew log_hash (λ n. 0) 3 100 callsign true two_ids first_id generated
