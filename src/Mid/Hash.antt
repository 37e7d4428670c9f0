-- ===== src/Mid/Hash.antt =====
-- Berkeley DB as mid.c uses it: a hash of entries by key, under the names of its methods.
use paclink_unix.Common.{
  ℕ, ◌≡◌, refl, ap₂, ◌⊎◌, Bool, true, false, Option, none, some, List, [], ◌∷◌, arith, ◌==◌,
  if◌then◌else◌, All,
}

-- A stored time, or data of another size than a `time_t`.
pub data Entry : Type 0 where
  stamp : ℕ → Entry
  corrupt : Entry

-- Equality of keys, byte by byte.
unfoldable pub same : List ℕ → List ℕ → Bool
same [] [] = true
same [] (d ∷ t) = false
same (c ∷ s) [] = false
same (c ∷ s) (d ∷ t) = let rest = same s t in if c == d then rest else false

pub same→eq : (s t : List ℕ) → same s t ≡ true → s ≡ t
unfolding same
same→eq [] [] h = refl
same→eq [] (d ∷ t) h = cc
same→eq (c ∷ s) [] h = cc
same→eq (c ∷ s) (d ∷ t) h = ap₂ ◌∷◌ (ground arith) (same→eq s t (ground arith))

pub same_refl : (s : List ℕ) → same s s ≡ true
unfolding same
same_refl [] = refl
same_refl (c ∷ s) = ground (arith, same_refl s)

-- The entry of a key is among a list of entries.
abbrev pub Has : List ℕ → Entry → List (List ℕ × Entry) → Type 0
Has k v [] = ⊥
Has k v (e ∷ es) = ((e.0 ≡ k) × (e.1 ≡ v)) ⊎ Has k v es

-- `opens` is the success of db_create and open, `put_works` that of put. `entries` is what a cursor
-- runs through: each entry that `get` finds, once, and nothing else.
pub record Database : Type 1 where
  pub Db : Type 0
  pub opens : Db → Bool
  pub put_works : Db → Bool
  pub get : Db → List ℕ → Option Entry
  pub put : Db → List ℕ → Entry → Db
  pub del : Db → List ℕ → Db
  pub entries : Db → List (List ℕ × Entry)
  pub get-put :
      (d : Db) (k j : List ℕ) (v : Entry)
      → get (put d k v) j ≡ (if same k j then some v else get d j)
  pub get-del : (d : Db) (k j : List ℕ) → get (del d k) j ≡ (if same k j then none else get d j)
  pub entries-sound : (d : Db) → All (λ (e : List ℕ × Entry). get d e.0 ≡ some e.1) (entries d)
  pub entries-complete : (d : Db) (k : List ℕ) (v : Entry) → get d k ≡ some v → Has k v (entries d)
