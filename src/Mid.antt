-- ===== src/Mid.antt =====
-- mid.c: the database of message ids that have been received, and new message ids. Berkeley DB is
-- not part of the repository: it is the parameter `Database`, with the laws that its manual gives.
-- The clock, which a call reads once for each entry, stands still during one call.
pub mod Hash
pub mod Expiry
pub mod Generate
use paclink_unix.Common.{
  ℕ, zero, suc, ◌+◌, ◌-◌, ◌*◌, ◌%◌, Bool, none, some, List, [], ◌∷◌, ◌++◌, ltb, if◌then◌else◌,
  length,
}
use paclink_unix.Proposal.{mid_maxlen}
use paclink_unix.Mid.Hash.{Entry, stamp, corrupt, Database}

-- `MID_EXPIREDAYS * 24 * 60 * 60`
abbrev pub expire_secs : ℕ
expire_secs = 30 * 24 * 60 * 60

-- `difftime(now, stored) > ...`; the difference may be negative.
abbrev pub is_expired : ℕ → ℕ → Bool
is_expired now stored = ltb (stored + expire_secs) now

-- The results of `check_mid`: 1, 0 and -1; `halted` is its exit on a corrupt database.
pub data Check : Type 0 where
  found not_found failed halted : Check

-- The results of `record_mid` and `expire_mids`: 0, -1 and the exit.
pub data Done : Type 0 where
  success failure halt : Done

module _ (D : Database) where
  open D use {Db, opens, put_works, get, put, del, entries}

  unfoldable pub record_mid : ℕ → List ℕ → Db → Done × Db
  record_mid now mid db =
      if opens db
      then (if put_works db then (success, put db mid (stamp now)) else (failure, db))
      else (failure, db)

  unfoldable pub check_mid : ℕ → List ℕ → Db → Check × Db
  check_mid now mid db =
      let answer : Check × Db = elim (get db mid) [
        | none ↦ (not_found, db)
        | some corrupt ↦ (halted, db)
        | some (stamp stored) ↦
            if is_expired now stored then (not_found, del db mid) else (found, db)
      ] in
      if opens db then answer else (failed, db)

  -- The cursor's walk over the entries. Deleting an entry does not disturb the walk.
  unfoldable pub walk : ℕ → List (List ℕ × Entry) → Db → Done × Db
  walk now [] db = (success, db)
  walk now ((mid, corrupt) ∷ rest) db = (halt, db)
  walk now ((mid, stamp stored) ∷ rest) db =
      walk now rest (if is_expired now stored then del db mid else db)

  unfoldable pub expire_mids : ℕ → Db → Done × Db
  expire_mids now db = if opens db then walk now (entries db) db else (failure, db)

-- `midchars`: the capital letters, then the digits
unfoldable pub midchar : ℕ → ℕ
midchar n = if ltb n 26 then b'A' + n else b'0' + (n - 26)

abbrev pub callsign_maxlen : ℕ
callsign_maxlen = 6

-- `stuck` is no result of the program: the rounds of the model have run out.
pub data Generated : Type 0 where
  null : Generated
  mid : List ℕ → Generated
  halt : Generated
  stuck : Generated

-- `random()` is the parameter: the n-th call's result.
module _ (D : Database) (random : ℕ → ℕ) where
  open D use {Db}

  -- The `for` loop that fills `n` bytes, from the k-th call of `random` on.
  unfoldable pub fill : ℕ → ℕ → List ℕ
  fill zero k = []
  fill (suc n) k = midchar (random k % 36) ∷ fill n (suc k)

  unfoldable pub generate_loop : ℕ → ℕ → ℕ → ℕ → List ℕ → Bool → Db → Generated × Db
  generate_loop zero now rlen k callsign record_it db = (stuck, db)
  generate_loop (suc fuel) now rlen k callsign record_it db =
      let id = fill rlen k ++ b'_' ∷ callsign in
      let (r, db') = check_mid D now id db in
      let again = generate_loop fuel now rlen (k + rlen) callsign record_it db' in
      let fresh : Generated × Db =
        if record_it then (mid id, (record_mid D now id db').1) else (mid id, db') in
      elim r [ found ↦ again | not_found ↦ fresh | failed ↦ (null, db') | halted ↦ (halt, db') ]

  -- `rlen` is `MID_MAXLEN - 1 - clen`, and at least 5 for a callsign that passes the first test.
  unfoldable pub generate_mid : ℕ → ℕ → List ℕ → Bool → Db → Generated × Db
  generate_mid fuel now callsign record_it db =
      let clen = length callsign in
      let rlen = mid_maxlen - 1 - clen in
      if ltb callsign_maxlen clen
      then (null, db)
      else (if ltb rlen 1 then (null, db) else generate_loop fuel now rlen 0 callsign record_it db)
