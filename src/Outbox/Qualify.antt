-- ===== src/Outbox/Qualify.antt =====
-- wl2k.c: which messages p2p_qualify lets pass.
use paclink_unix.Common.{
  ℕ, ◌≡◌, refl, sym, ap, subst, ◌∙◌, ◌≢◌, ◌↔◌, ◌⊎◌, inl, inr, Bool, true, false, not, none, some,
  List, [], ◌∷◌, ◌++◌, arith, if◌then◌else◌, Bool-cases, Option-cases, All, codes,
}
use paclink_unix.Strutil.{strbegins, strncmp_zero, strupper, strchr, cut_at, islower, toupper}
use paclink_unix.Strutil.Laws.{cut_at_stop}
use paclink_unix.Strutil.Search.{Without, strchr-none, Without-strchr, strchr-some, strchr-append}
use paclink_unix.Conf.{strcmp_zero}
use paclink_unix.Conf.RoundTrip.{strcmp_zero_refl, strcmp_zero_eq}
use paclink_unix.Outbox.{header_value, address_qualifies, to_qualifies, line_qualifies, p2p_qualify}

-- An address that lets a message pass to the station `remotecall`: it has no at sign, or one, and in
-- front of that stands the station's callsign, in either case.
abbrev pub AddressFits : List ℕ → List ℕ → Type 0
AddressFits remotecall address =
    Without b'@' address
    ⊎ ((call host : List ℕ) × (address ≡ call ++ b'@' ∷ host)
        × Without b'@' call
        × Without b'@' host
        × (strupper call ≡ remotecall))

-- The value of a "To:" line that lets a message pass has a colon, and such an address behind it.
abbrev pub ValueFits : List ℕ → List ℕ → Type 0
ValueFits remotecall value =
    (kind address : List ℕ) × (value ≡ kind ++ b':' ∷ address)
    × Without b':' kind
    × AddressFits remotecall address

-- A line that lets a message pass
abbrev pub LineFits : List ℕ → List ℕ → Type 0
LineFits remotecall line =
    (strbegins line (codes "To:") ≡ true → ValueFits remotecall (header_value 3 line))
    × (strbegins line (codes "Cc:") ≡ false)

strupper-append : (s t : List ℕ) → strupper (s ++ t) ≡ strupper s ++ strupper t
unfolding strupper
strupper-append [] t = refl
strupper-append (c ∷ s) t =
    ap (λ (l : List ℕ). (if islower c then toupper c else c) ∷ l) (strupper-append s t)

upper_other : (c : ℕ) → c ≢ b'@' → (if islower c then toupper c else c) ≢ b'@'
unfolding islower toupper
upper_other c h e = ground (arith, h)

strupper-Without : (s : List ℕ) → Without b'@' s → Without b'@' (strupper s)
unfolding strupper
strupper-Without [] h = tt
strupper-Without (c ∷ s) h = (upper_other c h.0, strupper-Without s h.1)

-- The callsign in front of the at sign
before_at :
    (call host : List ℕ)
    → Without b'@' call
    → cut_at b'@' (strupper (call ++ b'@' ∷ host)) ≡ strupper call
unfolding strupper islower
before_at call host h =
    rw (strupper-append call (b'@' ∷ host))
      (cut_at_stop b'@' (strupper call) (strupper host) (strupper-Without call h))

not-true : (b : Bool) → not b ≡ true → b ≡ false
not-true true h = cc
not-true false h = refl

module _ (remotecall : List ℕ) where
  one_at :
      (call host : List ℕ)
      → Without b'@' call
      → Without b'@' host
      → address_qualifies remotecall (call ++ b'@' ∷ host) ≡ strcmp_zero (strupper call) remotecall
  unfolding address_qualifies
  one_at call host f g =
      rw (strchr-append b'@' call host f, address_qualifies)
        (rw (Without-strchr b'@' host g) (rw (before_at call host f)))

  two_ats :
      (call host more : List ℕ)
      → Without b'@' call
      → strchr b'@' host ≡ some more
      → address_qualifies remotecall (call ++ b'@' ∷ host) ≡ false
  unfolding address_qualifies
  two_ats call host more f e = rw (strchr-append b'@' call host f, address_qualifies) (rw e)

  address_split :
      (call host : List ℕ)
      → Without b'@' call
      → address_qualifies remotecall (call ++ b'@' ∷ host) ≡ true
      → Without b'@' host × (strupper call ≡ remotecall)
  address_split call host f h = elim (Option-cases (strchr b'@' host)) [
    | inl absent ↦
        let g = strchr-none b'@' host absent in
        (g, strcmp_zero_eq (strupper call) remotecall (sym (one_at call host f g) ∙ h))
    | inr (more, at) ↦ cc (two_ats call host more f at)
  ]

  address_sound : (a : List ℕ) → address_qualifies remotecall a ≡ true → AddressFits remotecall a
  address_sound a h = elim (Option-cases (strchr b'@' a)) [
    | inl absent ↦ inl (strchr-none b'@' a absent)
    | inr (np, at) ↦
        let (call, host, e, _, f) = strchr-some b'@' a np at in
        let (g, same) =
          address_split call host f (subst (λ s. address_qualifies remotecall s ≡ true) e h) in
        inr (call, host, e, f, g, same)
  ]

  address_complete : (a : List ℕ) → AddressFits remotecall a → address_qualifies remotecall a ≡ true
  unfolding address_qualifies
  address_complete a (inl free) = rw (Without-strchr b'@' a free, address_qualifies)
  address_complete a (inr (call, host, e, f, g, same)) =
      subst (λ s. address_qualifies remotecall s ≡ true) (sym e)
        (one_at call host f g
          ∙ ap (λ (s : List ℕ). strcmp_zero s remotecall) same
          ∙ strcmp_zero_refl remotecall)

  behind_colon :
      (kind address : List ℕ)
      → Without b':' kind
      → to_qualifies remotecall (kind ++ b':' ∷ address) ≡ address_qualifies remotecall address
  unfolding to_qualifies
  behind_colon kind address f = rw (strchr-append b':' kind address f, to_qualifies)

  no_colon : (v : List ℕ) → strchr b':' v ≡ none → to_qualifies remotecall v ≡ false
  unfolding to_qualifies
  no_colon v e = rw (e, to_qualifies)

  value_sound : (v : List ℕ) → to_qualifies remotecall v ≡ true → ValueFits remotecall v
  value_sound v h = elim (Option-cases (strchr b':' v)) [
    | inl absent ↦ cc (no_colon v absent)
    | inr (sp, at) ↦
        let (kind, address, e, _, f) = strchr-some b':' v sp at in
        (
          kind,
          address,
          e,
          f,
          address_sound address (
              sym (behind_colon kind address f)
              ∙ subst (λ s. to_qualifies remotecall s ≡ true) e h),
        )
  ]

  value_complete : (v : List ℕ) → ValueFits remotecall v → to_qualifies remotecall v ≡ true
  value_complete v (kind, address, e, f, fits) =
      ap (to_qualifies remotecall) e ∙ behind_colon kind address f ∙ address_complete address fits

  -- A "To:" line is no "Cc:" line.
  to-ne-cc : (l : List ℕ) → strbegins l (codes "To:") ≡ true → strbegins l (codes "Cc:") ≡ false
  unfolding strbegins strncmp_zero
  to-ne-cc [] h = cc
  to-ne-cc (c ∷ l) h = ground arith

  line_sound : (l : List ℕ) → line_qualifies remotecall l ≡ true → LineFits remotecall l
  unfolding line_qualifies
  line_sound l h = elim (Bool-cases (strbegins l (codes "To:"))) [
    | inl to ↦ (λ _. value_sound (header_value 3 l) (rw to at h), to-ne-cc l to)
    | inr other ↦ (λ to. cc, not-true (strbegins l (codes "Cc:")) (rw other at h))
  ]

  line_complete : (l : List ℕ) → LineFits remotecall l → line_qualifies remotecall l ≡ true
  unfolding line_qualifies
  line_complete l h = elim (Bool-cases (strbegins l (codes "To:"))) [
    | inl to ↦ rw (to, line_qualifies) (value_complete (header_value 3 l) (h.0 to))
    | inr other ↦ rw (other, line_qualifies) (rw h.1)
  ]

  p2p_stop :
      (l : List ℕ) (ls : List (List ℕ))
      → line_qualifies remotecall l ≡ false
      → p2p_qualify remotecall (l ∷ ls) ≡ false
  unfolding p2p_qualify
  p2p_stop l ls e = rw (e, p2p_qualify)

  p2p_sound : (ls : List (List ℕ)) → p2p_qualify remotecall ls ≡ true → All (LineFits remotecall) ls
  unfolding p2p_qualify
  p2p_sound [] h = tt
  p2p_sound (l ∷ ls) h = elim (Bool-cases (line_qualifies remotecall l)) [
    | inl good ↦ (line_sound l good, p2p_sound ls (rw good at h))
    | inr bad ↦ cc (p2p_stop l ls bad)
  ]

  p2p_complete :
      (ls : List (List ℕ)) → All (LineFits remotecall) ls → p2p_qualify remotecall ls ≡ true
  unfolding p2p_qualify
  p2p_complete [] h = refl
  p2p_complete (l ∷ ls) h = rw (line_complete l h.0, p2p_qualify) (p2p_complete ls h.1)

  -- p2p_qualify lets exactly the messages pass that have no line that begins with "Cc:" and of
  -- which every line that begins with "To:" has a colon in its value and behind it an address
  -- without an at sign, or one with a single at sign and in front of that, with small letters as
  -- capitals, the callsign of the other station.
  pub p2p_qualify_iff :
      (ls : List (List ℕ)) → (p2p_qualify remotecall ls ≡ true) ↔ All (LineFits remotecall) ls
  p2p_qualify_iff ls = (p2p_sound ls, p2p_complete ls)
