-- ===== src/Mid/Expiry.antt =====
-- mid.c: record_mid, check_mid and expire_mids, and the thirty days of an id.
use paclink_unix.Common.{
  ℕ, ◌≡◌, refl, ap, subst, ◌∙◌, ◌≢◌, ◌⊎◌, inl, inr, true, false, Option, none, some, List, [], ◌∷◌,
  arith, if◌then◌else◌, Bool-cases, All,
}
use paclink_unix.Mid.Hash.{Entry, stamp, corrupt, Database, same, same→eq, same_refl, Has}
use paclink_unix.Mid.{
  is_expired, found, not_found, failed, halted, success, record_mid, check_mid, walk, expire_mids,
}

same_ne : (s t : List ℕ) → s ≢ t → same s t ≡ false
same_ne s t ne = elim (Bool-cases (same s t)) [ inl e ↦ absurd (ne (same→eq s t e)) | inr e ↦ e ]

module _ (D : Database) where
  open D use {
    Db, opens, put_works, get, put, del, entries, get-put, get-del, entries-sound, entries-complete,
  }

  -- After record_mid has succeeded at a time, check_mid at a later time answers "found" as long as
  -- the thirty days are not over and "not found" from then on, and of any other id it answers as
  -- before. The database can be opened.
  pub check_mid-record_mid :
      (t now : ℕ) (mid other : List ℕ) (db : Db)
      → (record_mid D t mid db).0 ≡ success
      → ((d : Db) → opens d ≡ true)
      → mid ≢ other
      → ((check_mid D now mid (record_mid D t mid db).1).0
          ≡ (if is_expired now t then not_found else found))
        × ((check_mid D now other (record_mid D t mid db).1).0 ≡ (check_mid D now other db).0)
  unfolding record_mid check_mid
  check_mid-record_mid t now mid other db h open_ok ne =
      let apart : same mid other ≡ false = same_ne mid other ne in
      let new = put db mid (stamp t) in
      ground (
        arith,
        open_ok db,
        open_ok new,
        get-put db mid mid (stamp t),
        same_refl mid,
        get-put db mid other (stamp t),
      )

  -- The walk leaves an id alone whose entries are not expired.
  walk_keeps :
      (now : ℕ) (es : List (List ℕ × Entry)) (db : Db) (k : List ℕ)
      → All (λ (e : List ℕ × Entry). (s : ℕ) → e.1 ≡ stamp s → is_expired now s ≡ true → e.0 ≢ k) es
      → get (walk D now es db).1 k ≡ get db k
  unfolding walk
  walk_keeps now [] db k h = refl
  walk_keeps now ((mid, corrupt) ∷ es) db k h = refl
  walk_keeps now ((mid, stamp s) ∷ es) db k h = elim (Bool-cases (is_expired now s)) [
    | inl old ↦
        rw (old, walk)
          (walk_keeps now es (del db mid) k h.1
            ∙ rw (get-del db mid k, same_ne mid k (h.0 s refl old)))
    | inr young ↦ rw (young, walk) (walk_keeps now es db k h.1)
  ]

  -- An id that has gone is not brought back.
  walk_gone :
      (now : ℕ) (es : List (List ℕ × Entry)) (db : Db) (k : List ℕ)
      → get db k ≡ none
      → get (walk D now es db).1 k ≡ none
  unfolding walk
  walk_gone now [] db k h = h
  walk_gone now ((mid, corrupt) ∷ es) db k h = h
  walk_gone now ((mid, stamp s) ∷ es) db k h = elim (Bool-cases (is_expired now s)) [
    | inl old ↦ rw (old, walk) (walk_gone now es (del db mid) k (ground (arith, get-del db mid k)))
    | inr young ↦ rw (young, walk) (walk_gone now es db k h)
  ]

  walk_drops :
      (now : ℕ) (es : List (List ℕ × Entry)) (db : Db) (k : List ℕ) (s : ℕ)
      → Has k (stamp s) es
      → is_expired now s ≡ true
      → (walk D now es db).0 ≡ success
      → get (walk D now es db).1 k ≡ none
  unfolding walk
  walk_drops now [] db k s h old done = elim h [ ]
  walk_drops now ((mid, corrupt) ∷ es) db k s h old done = cc
  walk_drops now ((mid, stamp t) ∷ es) db k s (inl here) old done =
      let same_time : t ≡ s = cc (here.1) in
      rw (same_time, old, walk)
        (walk_gone now es (del db mid) k (rw (here.0, get-del db k k, same_refl k)))
  walk_drops now ((mid, stamp t) ∷ es) db k s (inr later) old done =
      walk_drops now es _ k s later old done

  other_keys :
      (now : ℕ) (db : Db) (k : List ℕ) (es : List (List ℕ × Entry))
      → ((s : ℕ) → get db k ≡ some (stamp s) → is_expired now s ≡ true → ⊥)
      → All (λ (e : List ℕ × Entry). get db e.0 ≡ some e.1) es
      → All (λ (e : List ℕ × Entry). (s : ℕ) → e.1 ≡ stamp s → is_expired now s ≡ true → e.0 ≢ k) es
  other_keys now db k [] young h = tt
  other_keys now db k (e ∷ es) young h = (
    λ s is old key. young s (subst (λ j. get db j ≡ some (stamp s)) key (h.0 ∙ ap some is)) old,
    other_keys now db k es young h.1,
  )

  -- What is left of an id's entry after a clean-up at the time `now`.
  abbrev pub survivor : ℕ → Option Entry → Option Entry
  survivor now none = none
  survivor now (some corrupt) = some corrupt
  survivor now (some (stamp s)) = if is_expired now s then none else some (stamp s)

  expire-walk :
      (now : ℕ) (db : Db) (k : List ℕ) (o : Option Entry)
      → get db k ≡ o
      → (walk D now (entries db) db).0 ≡ success
      → get (walk D now (entries db) db).1 k ≡ survivor now o
  expire-walk now db k none e done =
      walk_keeps now (entries db) db k
        (other_keys now db k (entries db) (λ s h old. cc) (entries-sound db))
      ∙ e
  expire-walk now db k (some corrupt) e done =
      walk_keeps now (entries db) db k
        (other_keys now db k (entries db) (λ s h old. cc) (entries-sound db))
      ∙ e
  expire-walk now db k (some (stamp s)) e done = elim (Bool-cases (is_expired now s)) [
    | inl old ↦
        rw old (walk_drops now (entries db) db k s (entries-complete db k (stamp s) e) old done)
    | inr young ↦ rw young (
        walk_keeps now (entries db) db k
          (other_keys now db k (entries db) (λ t h old. ground arith) (entries-sound db))
        ∙ e)
  ]

  -- When expire_mids succeeds, every id has exactly the entry that it had, except that those older
  -- than thirty days are gone.
  pub expire_mids_lem :
      (now : ℕ) (db : Db) (k : List ℕ)
      → (expire_mids D now db).0 ≡ success
      → get (expire_mids D now db).1 k ≡ survivor now (get db k)
  unfolding expire_mids
  expire_mids_lem now db k h = elim (Bool-cases (opens db)) [
    | inl o ↦ rw o (expire-walk now db k (get db k) refl (rw o at h))
    | inr o ↦ cc (rw o at h)
  ]

  check_mid_answer :
      (now : ℕ) (db : Db) (mid : List ℕ) (o : Option Entry)
      → get db mid ≡ o
      → ((check_mid D now mid db).0 ≡ found) × ((check_mid D now mid db).1 ≡ db)
        ⊎ ((check_mid D now mid db).0 ≡ not_found) × (get (check_mid D now mid db).1 mid ≡ none)
        ⊎ (((check_mid D now mid db).0 ≡ failed) ⊎ ((check_mid D now mid db).0 ≡ halted))
          × ((check_mid D now mid db).1 ≡ db)
  unfolding check_mid
  check_mid_answer now db mid none e = ground arith
  check_mid_answer now db mid (some corrupt) e = ground arith
  check_mid_answer now db mid (some (stamp s)) e = ground (arith, get-del db mid mid, same_refl mid)

  -- An id that is found stays where it is.
  pub check_mid_found :
      (now : ℕ) (db : Db) (mid : List ℕ)
      → (check_mid D now mid db).0 ≡ found
      → (check_mid D now mid db).1 ≡ db
  check_mid_found now db mid h = ground (arith, check_mid_answer now db mid (get db mid) refl)

  check_mid_other :
      (now : ℕ) (db : Db) (mid other : List ℕ)
      → mid ≢ other
      → get (check_mid D now mid db).1 other ≡ get db other
  unfolding check_mid
  check_mid_other now db mid other ne = ground (arith, same_ne mid other ne, get-del db mid other)

  -- check_mid finds the id and leaves the database alone, or answers "not found" and the id is not
  -- in the database any more, or cannot answer and leaves the database alone. In each case every
  -- other id keeps its entry.
  pub check_mid_state :
      (now : ℕ) (db : Db) (mid other : List ℕ)
      → mid ≢ other
      → (((check_mid D now mid db).0 ≡ found) × ((check_mid D now mid db).1 ≡ db)
          ⊎ ((check_mid D now mid db).0 ≡ not_found) × (get (check_mid D now mid db).1 mid ≡ none)
          ⊎ (((check_mid D now mid db).0 ≡ failed) ⊎ ((check_mid D now mid db).0 ≡ halted))
            × ((check_mid D now mid db).1 ≡ db))
        × (get (check_mid D now mid db).1 other ≡ get db other)
  check_mid_state now db mid other ne =
      (check_mid_answer now db mid (get db mid) refl, check_mid_other now db mid other ne)
