-- ===== src/Session/Outbound/Deferred.antt =====
-- wl2k.c: what becomes of a proposal that the other station wants later.
use paclink_unix.Common.{ℕ, ◌≡◌, refl, ◌∙◌, ◌⊎◌, inl, inr, true, some, List, [], ◌∷◌, ◌++◌}
use paclink_unix.Strutil.{isspace}
use paclink_unix.Number.{skip_spaces}
use paclink_unix.Proposal.{Proposal}
use paclink_unix.Transfer.{putcompressed, returned}
use paclink_unix.Mid.Hash.{Database}
use paclink_unix.Session.{World, ok}
use paclink_unix.Session.Outbound.{
  outgoing, answer_of, later, answers, transmit, transmit_one, handle_answers, dodelete, delete_all,
  delete_one, doomed,
}
use paclink_unix.Session.Outbound.Answers.{answered, answers_simple}

-- The letters for "later".
abbrev pub IsLater : ℕ → Type 0
IsLater c = (c ≡ b'L') ⊎ (c ≡ b'l') ⊎ (c ≡ b'=')

later_letter : (c : ℕ) → IsLater c → (answer_of c ≡ later) × (skip_spaces (c ∷ []) ≡ c ∷ [])
unfolding answer_of skip_spaces isspace
later_letter c (inl e) = rw e (refl, refl)
later_letter c (inr (inl e)) = rw e (refl, refl)
later_letter c (inr (inr e)) = rw e (refl, refl)

-- A proposal that is alone in the list and is answered by "later", L, l or =, is sent at once, like
-- an accepted one, if putcompressed can send it; its file stays until dodelete, which then deletes
-- it.
pub handle_answers-later :
    (D : Database) (c : ℕ) (p : Proposal) (w : World D) (out path : List ℕ)
    → IsLater c
    → p.path ≡ some path
    → w.before ≡ []
    → putcompressed (outgoing (answered later p)) ≡ returned out
    → (w' : World D) × (handle_answers (b'F' ∷ b'S' ∷ b' ' ∷ c ∷ []) (p ∷ []) w ≡ ok tt w')
      × (w'.output ≡ w.output ++ out)
      × (w'.unlinked ≡ w.unlinked)
      × (w'' : World D) × (dodelete w' ≡ ok tt w'')
      × (w''.unlinked ≡ w.unlinked ++ path ∷ [])
unfolding handle_answers transmit transmit_one dodelete delete_all doomed delete_one
handle_answers-later D c p w out path h has_path alone sent =
    let (is_later, text) = later_letter c h in
    let read : answers 0 (c ∷ []) (p ∷ []) ≡ some (answered later p ∷ []) =
      answers_simple (c ∷ []) (p ∷ []) (inr (inr is_later), tt) ∙ rw is_later in
    let gone = record (answered later p) { delete = true } in
    (
      record w { output = w.output ++ out; before = w.before ++ gone ∷ []; next = [] },
      rw (text, read, handle_answers) (rw (sent, transmit_one)),
      refl,
      refl,
      record w {
        output = w.output ++ out;
        before = (delete_all (w.before ++ gone ∷ [])).0;
        next = [];
        unlinked = w.unlinked ++ (delete_all (w.before ++ gone ∷ [])).1;
      },
      refl,
      rw alone (rw has_path),
    )
