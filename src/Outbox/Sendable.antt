-- ===== src/Outbox/Sendable.antt =====
-- wl2k.c: the proposals of the outbox are such as the session of Session.Round and
-- Session.Inbound.Offer asks for.
use paclink_unix.Common.{
  ℕ, zero, suc, ◌^◌, ◌≤◌, ◌<◌, ◌≡◌, sym, ap₂, subst, ◌≢◌, inl, inr, Bool, Option, none, some, List,
  [], ◌∷◌, arith, Bool-cases, All, length, take, drop, codes,
}
use paclink_unix.Buffer.{Memory, Buffer}
use paclink_unix.Lzhuf
use paclink_unix.Buffer.Contents.{IsValid, contents}
use paclink_unix.Lzhuf.Encode
use paclink_unix.Lzhuf.Tree.{Huffman}
use paclink_unix.Lzhuf.Window.{Window}
use paclink_unix.Lzhuf.Encode.Output.{version_1_encode-IsValid}
use paclink_unix.Strutil.{isspace, strbegins, strzapcc, cut_at}
use paclink_unix.Strutil.Laws.{cut_at_free, cut_at_keeps}
use paclink_unix.Number.{skip_spaces}
use paclink_unix.Conf.{text_lines}
use paclink_unix.Proposal.{Proposal, mid_maxlen}
use paclink_unix.Session.Outbound.{outgoing}
use paclink_unix.Session.Inbound.Lines.{IsPlain}
use paclink_unix.Session.Inbound.Offer.{IsLineOffer}
use paclink_unix.Session.Exchange.{IsSendable, message_of}
use paclink_unix.Outbox.{
  strings_of, lines_of, header_value, Entry, collected, title_of, or_no_subject,
  prepare_outbound_proposals,
}
use paclink_unix.Outbox.Proposals.{
  Qualifies, IsProposalOf, Outbox, done, skip, offer, prepare_outbound_proposals_some,
}

-- `c` is what version_1_Encode returns for `u`, with some memory, and the window, the tree and the
-- total that earlier calls have left.
abbrev pub IsMade : Buffer → Buffer → Type 0
IsMade u c =
    (m : Memory) × (window : Window) × (tree : Huffman) × (codesize : ℕ)
    × (Lzhuf.Encode.version_1_encode m window tree codesize u ≡ some c)

-- The bytes of such a result
abbrev pub IsEncoded : List ℕ → Type 0
IsEncoded s = (u : Buffer) × (c : Buffer) × IsMade u c × (contents c ≡ s)

-- Whatever `version_1_encode` returns is the result of that function.
abbrev pub IsEncoder : (Buffer → Option Buffer) → Type 0
IsEncoder version_1_encode = (u c : Buffer) → version_1_encode u ≡ some c → IsMade u c

made-IsValid :
    (u c : Buffer)
    → IsMade u c
    → c.dlen < 2 ^ 32
    → IsValid c × (6 ≤ c.dlen) × All (λ x. x < 256) (contents c)
made-IsValid u c (m, window, tree, codesize, h) small =
    version_1_encode-IsValid m window tree codesize u c h small

-- A file whose name is that of a message, and which reads as a valid buffer
pub record IsMessageFile (e : Entry) : Type 0 where
  pub plain : All IsPlain e.d_name
  pub unspaced : All (λ c. c ≢ b' ') e.d_name
  pub valid : (ubuf : Buffer) → e.readfile ≡ some ubuf → IsValid ubuf

module _ (P : ℕ → Type 0) where
  skip-All : (s : List ℕ) → All P s → All P (skip_spaces s)
  unfolding skip_spaces
  skip-All [] h = tt
  skip-All (c ∷ s) h = elim (Bool-cases (isspace c)) [
    | inl space ↦ rw (space, skip_spaces) (skip-All s h.1)
    | inr other ↦ rw (other, skip_spaces) h
  ]

  take-All : (n : ℕ) (s : List ℕ) → All P s → All P (take n s)
  take-All zero s h = tt
  take-All (suc n) [] h = tt
  take-All (suc n) (c ∷ s) h = (h.0, take-All n s h.1)

  drop-All : (n : ℕ) (s : List ℕ) → All P s → All P (drop n s)
  drop-All zero s h = h
  drop-All (suc n) [] h = tt
  drop-All (suc n) (c ∷ s) h = drop-All n s h.1

  header_value-All : (n : ℕ) (l : List ℕ) → All P l → All P (header_value n l)
  unfolding header_value strzapcc
  header_value-All n l h = take-All 80 (skip_spaces (drop n (strzapcc l))) (
      skip-All (drop n (strzapcc l))
        (drop-All n (strzapcc l) (cut_at_keeps P 10 (cut_at 13 l) (cut_at_keeps P 13 l h))))

  -- What holds of the bytes of every line holds of those of the title.
  title_of-All :
      (ls : List (List ℕ)) (t : Option (List ℕ))
      → All (All P) ls
      → All P (or_no_subject t)
      → All P (or_no_subject (title_of t ls))
  unfolding title_of
  title_of-All [] t h k = k
  title_of-All (l ∷ ls) t h k = elim (Bool-cases (strbegins l (codes "Subject:"))) [
    | inl subject ↦
        rw (subject, title_of)
          (title_of-All ls (some (header_value 8 l)) h.1 (header_value-All 8 l h.0))
    | inr other ↦ rw (other, title_of) (title_of-All ls t h.1 k)
  ]

abbrev NonZero : ℕ → Type 0
NonZero c = c ≢ 0

strings_of-NonZero : (ls : List (List ℕ)) → All (All NonZero) (strings_of ls)
strings_of-NonZero [] = tt
strings_of-NonZero (l ∷ ls) = (cut_at_free 0 l, strings_of-NonZero ls)

positive : (s : List ℕ) → All NonZero s → All (λ c. 0 < c) s
positive [] h = tt
positive (c ∷ s) h = (ground (arith, h.0), positive s h.1)

no_subject-NonZero : (s : List ℕ) → All (λ c. 0 < c) s → All NonZero s
no_subject-NonZero [] h = tt
no_subject-NonZero (c ∷ s) h = ((λ e. omega arith), no_subject-NonZero s h.1)

title-positive : (b : Buffer) → All (λ c. 0 < c) (or_no_subject (title_of none (lines_of b)))
title-positive b = positive (or_no_subject (title_of none (lines_of b))) (
    title_of-All NonZero (lines_of b) none (strings_of-NonZero (text_lines (contents b)))
      (no_subject-NonZero (codes "No subject") (omega arith)))

module _ (version_1_encode : Buffer → Option Buffer) (bp2p : Bool) (remotecall : List ℕ)
    (encoder : IsEncoder version_1_encode) where
  offer_of :
      (e : Entry) (ubuf cbuf : Buffer) (p : Proposal)
      → IsMessageFile e
      → Qualifies version_1_encode bp2p remotecall e ubuf
      → IsProposalOf version_1_encode bp2p remotecall e ubuf cbuf p
      → p.csize < 2 ^ 32
      → IsLineOffer p
  offer_of e ubuf cbuf p f q made fits =
      let u = f.valid ubuf q.read in
      let (v, _, _) =
        made-IsValid ubuf cbuf (encoder ubuf cbuf made.encoded) (omega (arith, made.csize)) in
      record {
        offer = record {
          coded = made.code;
          typed = inr made.kind;
          short = subst (λ s. length s ≤ mid_maxlen) (sym made.mid) q.short;
          plain = subst (All (λ c. c ≢ b' ')) (sym made.mid) f.unspaced;
          usize_fits = omega arith;
          csize_fits = omega arith;
        };
        plain = subst (All IsPlain) (sym made.mid) f.plain;
      }

  IsSendable-of :
      (e : Entry) (ubuf cbuf : Buffer) (p : Proposal)
      → IsProposalOf version_1_encode bp2p remotecall e ubuf cbuf p
      → p.csize < 2 ^ 32
      → IsSendable IsEncoded p
  unfolding outgoing
  IsSendable-of e ubuf cbuf p made fits =
      let whose = encoder ubuf cbuf made.encoded in
      let (v, six, bytes) = made-IsValid ubuf cbuf whose (omega (arith, made.csize)) in
      let message : message_of p ≡ contents cbuf =
        ap₂ (λ (n : ℕ) (o : Option Buffer). take n (elim o [ none ↦ [] | some b ↦ b.block ]))
          made.csize made.compressed in
      record {
        titled =
            subst (λ o. All (λ c. 0 < c) (elim o [ none ↦ [] | some t ↦ t ])) (sym made.title)
              (title-positive ubuf);
        from_start = made.offset;
        counted =
            subst (λ o. p.csize ≤ length (elim o [ none ↦ [] | some b ↦ b.block ]))
              (sym made.compressed) (omega arith);
        bytes = subst (All (λ c. c < 256)) (sym message) bytes;
        long = omega arith;
        fits = omega arith;
        packed = (ubuf, cbuf, whose, sym message);
      }

  Outbox-IsSendable :
      {es : List Entry} {ps : List Proposal}
      → Outbox version_1_encode bp2p remotecall es ps
      → All IsMessageFile es
      → All (λ (p : Proposal). p.csize < 2 ^ 32) ps
      → All IsLineOffer ps × All (IsSendable IsEncoded) ps
  Outbox-IsSendable done f k = (tt, tt)
  Outbox-IsSendable (skip e _ o) f k = Outbox-IsSendable o f.1 k
  Outbox-IsSendable (offer e ubuf cbuf p q made o) f k =
      let (offers, sendable) = Outbox-IsSendable o f.1 k.1 in
      (
        (offer_of e ubuf cbuf p f.0 q made k.0, offers),
        (IsSendable-of e ubuf cbuf p made k.0, sendable),
      )

  -- Every proposal that prepare_outbound_proposals makes with version_1_Encode of lzhuf_1.c,
  -- whatever memory and statics that function finds at each call, meets what the theorems about a
  -- session ask of the sending station, if its compressed size is below 2 ^ 32: its line is one
  -- that parse_proposal reads, its title has no NUL, and its message is sent from the start, is as
  -- long as the proposal says, at least six bytes, below 256 each, and a result of
  -- version_1_Encode. File names are plain and have no space, and files are read into valid
  -- buffers.
  pub prepare_outbound_proposals-IsSendable :
      (es : List Entry) (ps : List Proposal)
      → All IsMessageFile es
      → prepare_outbound_proposals version_1_encode bp2p remotecall (some es) ≡ collected ps
      → All (λ (p : Proposal). p.csize < 2 ^ 32) ps
      → All IsLineOffer ps × All (IsSendable IsEncoded) ps
  prepare_outbound_proposals-IsSendable es ps f h k =
      Outbox-IsSendable (prepare_outbound_proposals_some version_1_encode bp2p remotecall es ps h) f
        k
