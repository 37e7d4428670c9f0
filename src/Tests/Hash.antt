-- ===== src/Tests/Hash.antt =====
-- A database in memory: the list of its changes, the last one first, where `none` is a deletion.
use paclink_unix.Common.{
  ℕ, ◌≡◌, refl, inl, inr, true, false, Option, none, some, List, [], ◌∷◌, arith, if◌then◌else◌,
  Bool-cases, All,
}
use paclink_unix.Buffer.{Memory}
use paclink_unix.Mid.Hash.{Entry, same, same→eq, Has, Database, same_refl}

abbrev pub full_memory : Memory
full_memory = record { grants = λ n. true; junk = λ n. 0 }

abbrev pub Log : Type 0
Log = List (List ℕ × Option Entry)

unfoldable pub look : Log → List ℕ → Option Entry
look [] k = none
look ((j, o) ∷ d) k = let rest = look d k in if same j k then o else rest

-- The entries whose key is not `k`.
unfoldable pub without : List ℕ → List (List ℕ × Entry) → List (List ℕ × Entry)
without k [] = []
without k (e ∷ es) = let rest = without k es in if same k e.0 then rest else e ∷ rest

unfoldable pub logged : Log → List (List ℕ × Entry)
logged [] = []
logged ((j, none) ∷ d) = without j (logged d)
logged ((j, some v) ∷ d) = (j, v) ∷ without j (logged d)

without_sound :
    (j : List ℕ) (o : Option Entry) (d : Log) (es : List (List ℕ × Entry))
    → All (λ (e : List ℕ × Entry). look d e.0 ≡ some e.1) es
    → All (λ (e : List ℕ × Entry). look ((j, o) ∷ d) e.0 ≡ some e.1) (without j es)
unfolding without look
without_sound j o d [] h = tt
without_sound j o d (e ∷ es) h = elim (Bool-cases (same j e.0)) [
  | inl here ↦ rw here (without_sound j o d es h.1)
  | inr other ↦ rw other (rw (other, look) h.0, without_sound j o d es h.1)
]

pub logged_sound : (d : Log) → All (λ (e : List ℕ × Entry). look d e.0 ≡ some e.1) (logged d)
unfolding logged look
logged_sound [] = tt
logged_sound ((j, none) ∷ d) = without_sound j none d (logged d) (logged_sound d)
logged_sound ((j, some v) ∷ d) =
    (rw (same_refl j), without_sound j (some v) d (logged d) (logged_sound d))

without-keeps :
    (j k : List ℕ) (v : Entry) (es : List (List ℕ × Entry))
    → same j k ≡ false
    → Has k v es
    → Has k v (without j es)
unfolding without
without-keeps j k v [] h m = m
without-keeps j k v (e ∷ es) h (inl here) =
    let other : same j e.0 ≡ false = rw (here.0) h in rw other (inl here)
without-keeps j k v (e ∷ es) h (inr later) = elim (Bool-cases (same j e.0)) [
  | inl same_key ↦ rw same_key (without-keeps j k v es h later)
  | inr other ↦ rw other (inr (without-keeps j k v es h later))
]

pub logged_complete : (d : Log) (k : List ℕ) (v : Entry) → look d k ≡ some v → Has k v (logged d)
unfolding logged look
logged_complete [] k v h = cc
logged_complete ((j, none) ∷ d) k v h = elim (Bool-cases (same j k)) [
  | inl here ↦ absurd (cc (rw here at h))
  | inr other ↦ without-keeps j k v (logged d) other (logged_complete d k v (rw other at h))
]
logged_complete ((j, some u) ∷ d) k v h = elim (Bool-cases (same j k)) [
  | inl here ↦ inl (same→eq j k here, ground (arith, rw here at h))
  | inr other ↦ inr (without-keeps j k v (logged d) other (logged_complete d k v (rw other at h)))
]

pub look-put :
    (d : Log) (k j : List ℕ) (o : Option Entry)
    → look ((k, o) ∷ d) j ≡ (if same k j then o else look d j)
unfolding look
look-put d k j o = refl

abbrev pub log_hash : Database
log_hash = record {
  Db = Log;
  opens = λ d. true;
  put_works = λ d. true;
  get = look;
  put = λ d k v. (k, some v) ∷ d;
  del = λ d k. (k, none) ∷ d;
  entries = logged;
  get-put = λ d k j v. look-put d k j (some v);
  get-del = λ d k j. look-put d k j none;
  entries-sound = logged_sound;
  entries-complete = logged_complete;
}
