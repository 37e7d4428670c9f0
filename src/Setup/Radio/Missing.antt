-- ===== src/Setup/Radio/Missing.antt =====
-- wl2kax25.c: loadconfig without a callsign to call.
use paclink_unix.Common.{
  ℕ, ◌≡◌, refl, sym, ap, subst, ◌∙◌, Bool, true, false, ◌||◌, Option, none, some, List, [], ◌∷◌,
  if◌then◌else◌, All, codes,
}
use paclink_unix.Setup.{loaded, usage, displayed, number_of, number_or, or_else}
use paclink_unix.Setup.Radio.{
  Radio, Flag, version, verbose, config, send_only, help, unknown, target_call, timeout,
  email_address, wl2k_passwd, port, defaults, from_file, apply_flag, apply_flags, add_path, check,
  loadconfig,
}

-- An option that getopt_long knows, but for a callsign or the version
abbrev pub NamesNoCall : Flag → Type 0
NamesNoCall version = ⊥
NamesNoCall help = ⊥
NamesNoCall unknown = ⊥
NamesNoCall (target_call s) = ⊥
NamesNoCall (timeout s) = (secs : ℕ) × (number_of 32 s ≡ some secs)
NamesNoCall f = Unit

abbrev pub is_config : Flag → Bool
is_config config = true
is_config f = false

-- The configuration is asked for.
unfoldable pub shows_config : List Flag → Bool
shows_config [] = false
shows_config (f ∷ fs) = is_config f || shows_config fs

-- No callsign to call, no wish for the version, and for the configuration as `shown` says
record IsLost (shown : Bool) (c : Radio) : Type 0 where
  nobody : c.targetcall ≡ none
  asked : c.flags.display_config ≡ shown
  working : c.flags.display_version ≡ false

or_false : (b : Bool) → (b || false) ≡ b
or_false true = refl
or_false false = refl

or_true : (b : Bool) → (b || true) ≡ true
or_true true = refl
or_true false = refl

or_assoc : (a b c : Bool) → (a || (b || c)) ≡ ((a || b) || c)
or_assoc true b c = refl
or_assoc false b c = refl

kept :
    (b : Bool) (c c' : Radio)
    → c'.targetcall ≡ c.targetcall
    → c'.flags.display_config ≡ c.flags.display_config
    → c'.flags.display_version ≡ c.flags.display_version
    → IsLost b c
    → IsLost (b || false) c'
kept b c c' t s v l = record {
  nobody = t ∙ l.nobody;
  asked = s ∙ l.asked ∙ sym (or_false b);
  working = v ∙ l.working;
}

apply_flag-IsLost :
    (f : Flag) (b : Bool) (c : Radio)
    → NamesNoCall f
    → IsLost b c
    → (c' : Radio) × (apply_flag f c ≡ some c') × IsLost (b || is_config f) c'
unfolding apply_flag
apply_flag-IsLost version b c n l = elim n [ ]
apply_flag-IsLost help b c n l = elim n [ ]
apply_flag-IsLost unknown b c n l = elim n [ ]
apply_flag-IsLost (target_call s) b c n l = elim n [ ]
apply_flag-IsLost verbose b c n l = (_, refl, kept b c _ refl refl refl l)
apply_flag-IsLost config b c n l =
    (_, refl, record { nobody = l.nobody; asked = sym (or_true b); working = l.working })
apply_flag-IsLost send_only b c n l = (_, refl, kept b c _ refl refl refl l)
apply_flag-IsLost (email_address s) b c n l = (_, refl, kept b c _ refl refl refl l)
apply_flag-IsLost (wl2k_passwd s) b c n l = (_, refl, kept b c _ refl refl refl l)
apply_flag-IsLost (port s) b c n l = (_, refl, kept b c _ refl refl refl l)
apply_flag-IsLost (timeout s) b c (secs, e) l =
    (record c { timeoutsecs = secs }, rw (e, apply_flag), kept b c _ refl refl refl l)

apply_flags-IsLost :
    (fs : List Flag) (b : Bool) (c : Radio)
    → All NamesNoCall fs
    → IsLost b c
    → (c' : Radio) × (apply_flags fs c ≡ some c') × IsLost (b || shows_config fs) c'
unfolding apply_flags shows_config
apply_flags-IsLost [] b c n l = (c, refl, kept b c c refl refl refl l)
apply_flags-IsLost (f ∷ fs) b c n l =
    let (c₁, taken, l₁) = apply_flag-IsLost f b c n.0 l in
    let (c', rest, l') = apply_flags-IsLost fs (b || is_config f) c₁ n.1 l₁ in
    (
      c',
      rw (taken, apply_flags) rest,
      subst (λ d. IsLost d c') (sym (or_assoc b (is_config f) (shows_config fs))) l',
    )

check-IsLost : (b : Bool) (c : Radio) → IsLost b c → check c ≡ (if b then displayed else usage)
unfolding check
check-IsLost b c l = rw (l.working, check) (rw l.asked (rw l.nobody))

module _ (cuserid : List ℕ) (get : List ℕ → Option (List ℕ)) where
  -- What the file gives, with this timeout
  abbrev filled : ℕ → Radio
  filled secs = record (defaults cuserid) {
    mycall = get (codes "mycall");
    emailaddr = or_else (get (codes "email")) (defaults cuserid).emailaddr;
    ax25port = or_else (get (codes "ax25port")) (defaults cuserid).ax25port;
    wl2k_password = or_else (get (codes "wl2k-password")) (defaults cuserid).wl2k_password;
    gridsquare = or_else (get (codes "gridsquare")) (defaults cuserid).gridsquare;
    timeoutsecs = secs;
  }

  from_file-IsLost :
      (mine : List ℕ) (secs : ℕ)
      → get (codes "mycall") ≡ some mine
      → number_or 32 120 (get (codes "timeout")) ≡ some secs
      → (c : Radio) × (from_file get (defaults cuserid) ≡ loaded c) × IsLost false c
  unfolding from_file defaults
  from_file-IsLost mine secs own timed = (
    filled secs,
    rw (own, from_file) (rw timed (ap (λ m. loaded (record (filled secs) { mycall = m })) own)),
    record { nobody = refl; asked = refl; working = refl },
  )

  -- Without a callsign to call, neither as an option nor as an argument, loadconfig of wl2kax25.c
  -- ends in the usage, or in the display of the configuration if this is among the options. The
  -- file sets mycall, its timeout is a number if it has one, and the options are known ones, the
  -- version not among them, with numbers for timeouts.
  pub loadconfig-usage :
      (fs : List Flag) (mine : List ℕ) (secs : ℕ)
      → get (codes "mycall") ≡ some mine
      → number_or 32 120 (get (codes "timeout")) ≡ some secs
      → All NamesNoCall fs
      → loadconfig cuserid get fs [] ≡ (if shows_config fs then displayed else usage)
  unfolding loadconfig add_path
  loadconfig-usage fs mine secs own timed n =
      let (c, read, l) = from_file-IsLost mine secs own timed in
      let (c', taken, l') = apply_flags-IsLost fs false c n l in
      rw (read, loadconfig) (rw taken (check-IsLost (shows_config fs) c' l'))
