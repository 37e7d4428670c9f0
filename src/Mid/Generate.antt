-- ===== src/Mid/Generate.antt =====
-- mid.c: the message ids that generate_mid makes.
use paclink_unix.Common.{
  ℕ, zero, suc, ◌+◌, ◌-◌, ◌%◌, ◌≤◌, ◌<◌, ◌≡◌, refl, ap, subst, ◌⊎◌, inl, inr, Bool, false, List,
  ◌∷◌, ◌++◌, arith, ltb, if◌then◌else◌, Bool-cases, All, length, length-append,
}
use paclink_unix.Proposal.{mid_maxlen}
use paclink_unix.Mid.Hash.{Database}
use paclink_unix.Mid.{
  Check, found, not_found, failed, halted, check_mid, record_mid, midchar, Generated, fill,
  generate_loop, generate_mid, callsign_maxlen,
}
use paclink_unix.Mid.Expiry.{check_mid_found}

-- A capital letter or a digit.
abbrev pub IsMidchar : ℕ → Type 0
IsMidchar c = (b'A' ≤ c) × (c ≤ b'Z') ⊎ (b'0' ≤ c) × (c ≤ b'9')

midchar-IsMidchar : (n : ℕ) → n < 36 → IsMidchar (midchar n)
unfolding midchar
midchar-IsMidchar n h = elim (Bool-cases (ltb n 26)) [
  | inl letter ↦ rw letter (inl (ground arith))
  | inr digit ↦ rw digit (inr (ground arith))
]

-- What a new id is: twelve bytes, letters and digits, an underscore and the callsign, and
-- `check_mid` has answered "not found" for it on the database `before`, from which it left `after`.
pub record IsNew (D : Database) (now : ℕ) (callsign id : List ℕ) (before after : D.Db)
    : Type 0 where
  pub front : List ℕ
  pub shape : id ≡ front ++ b'_' ∷ callsign
  pub random_part : All IsMidchar front
  pub full : length id ≡ mid_maxlen
  pub unused : check_mid D now id before ≡ (not_found, after)

module _ (D : Database) (random : ℕ → ℕ) where
  open D use {Db}

  fill-IsMidchar : (n k : ℕ) → All IsMidchar (fill D random n k) × (length (fill D random n k) ≡ n)
  unfolding fill
  fill-IsMidchar zero k = (tt, refl)
  fill-IsMidchar (suc n) k =
      let (chars, len) = fill-IsMidchar n (suc k) in
      ((midchar-IsMidchar (random k % 36) (omega arith), chars), ap suc len)

  abbrev candidate : ℕ → ℕ → List ℕ → List ℕ
  candidate rlen k callsign = fill D random rlen k ++ b'_' ∷ callsign

  candidate-IsNew :
      (now rlen k : ℕ) (callsign : List ℕ) (db : Db)
      → rlen + 1 + length callsign ≡ mid_maxlen
      → (check_mid D now (candidate rlen k callsign) db).0 ≡ not_found
      → IsNew D now callsign
          (candidate rlen k callsign)
          db
          (check_mid D now (candidate rlen k callsign) db).1
  candidate-IsNew now rlen k callsign db e r =
      let (chars, len) = fill-IsMidchar rlen k in
      record {
        front = fill D random rlen k;
        shape = refl;
        random_part = chars;
        full = omega (arith, length-append (fill D random rlen k) (b'_' ∷ callsign));
        unused = ap (λ c. (c, (check_mid D now (candidate rlen k callsign) db).1)) r;
      }

  generate_loop-IsNew :
      (fuel now rlen k : ℕ) (callsign : List ℕ) (record_it : Bool) (db : Db) (id : List ℕ)
      → rlen + 1 + length callsign ≡ mid_maxlen
      → (generate_loop D random fuel now rlen k callsign record_it db).0 ≡ Generated.mid id
      → (after : Db) × IsNew D now callsign id db after
        × ((generate_loop D random fuel now rlen k callsign record_it db).1
            ≡ (if record_it then (record_mid D now id after).1 else after))
  unfolding generate_loop
  generate_loop-IsNew zero now rlen k callsign record_it db id e h = cc
  generate_loop-IsNew (suc fuel) now rlen k callsign record_it db id e h =
      by_answer (check_mid D now this db).0 refl
        (generate_loop-IsNew fuel now rlen (k + rlen) callsign record_it after id e)
    where
      this : List ℕ
      this = candidate rlen k callsign

      after : Db
      after = (check_mid D now this db).1

      Goal : Db → Generated × Db → Type 0
      Goal from r =
          (after : Db) × IsNew D now callsign id from after
          × (r.1 ≡ (if record_it then (record_mid D now id after).1 else after))

      by_answer :
          (r : Check)
          → (check_mid D now this db).0 ≡ r
          → ((generate_loop D random fuel now rlen (k + rlen) callsign record_it after).0
                ≡ Generated.mid id
              → Goal after
                  (generate_loop D random fuel now rlen (k + rlen) callsign record_it after))
          → Goal db (generate_loop D random (suc fuel) now rlen k callsign record_it db)
      by_answer found r again =
          rw (r, generate_loop)
            (subst
              (λ d.
                Goal d (generate_loop D random fuel now rlen (k + rlen) callsign record_it after))
              (check_mid_found D now db this r) (again (rw (r, generate_loop) at h)))
      by_answer not_found r again =
          let same : this ≡ id = ground (arith, r, h) in
          (
            after,
            subst (λ j. IsNew D now callsign j db after) same
                (candidate-IsNew now rlen k callsign db e r),
            rw (r, generate_loop) (ground (arith, same)),
          )
      by_answer failed e again = cc (rw (e, generate_loop) at h)
      by_answer halted e again = cc (rw (e, generate_loop) at h)

  -- An id that generate_mid returns has twelve bytes, random capital letters and digits, then an
  -- underscore and the callsign, and check_mid says of it that it is not in the database that
  -- generate_mid was given. With bRecordMid the database behind is the one that record_mid leaves
  -- of that check's, and otherwise the check's own.
  pub generate_mid-IsNew :
      (fuel now : ℕ) (callsign : List ℕ) (record_it : Bool) (db : Db) (id : List ℕ)
      → (generate_mid D random fuel now callsign record_it db).0 ≡ Generated.mid id
      → (after : Db) × IsNew D now callsign id db after
        × ((generate_mid D random fuel now callsign record_it db).1
            ≡ (if record_it then (record_mid D now id after).1 else after))
  unfolding generate_mid
  generate_mid-IsNew fuel now callsign record_it db id h =
      elim (Bool-cases (ltb callsign_maxlen (length callsign))) [
        | inl long ↦ cc (rw long at h)
        | inr fits ↦
            let room : ltb (mid_maxlen - 1 - length callsign) 1 ≡ false = ground arith in
            rw (fits, room)
              (generate_loop-IsNew fuel now (mid_maxlen - 1 - length callsign) 0 callsign record_it
                db id (ground arith) (rw (fits, room) at h))
      ]
