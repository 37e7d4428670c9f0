-- ===== src/Outbox/Proposals.antt =====
-- wl2k.c: the proposals that prepare_outbound_proposals makes of the outbox.
use paclink_unix.Common.{
  ℕ, ◌^◌, ◌≤◌, ◌<◌, ◌≡◌, refl, sym, ap, subst, ◌∙◌, ◌≢◌, ◌⊎◌, inl, inr, Bool, true, false, not,
  ◌&&◌, ◌||◌, Option, none, some, List, [], ◌∷◌, arith, ltb, leb, Bool-cases, Option-cases, All,
  length,
}
use paclink_unix.Buffer.{Buffer}
use paclink_unix.Proposal.{Proposal, mid_maxlen}
use paclink_unix.Outbox.{
  lines_of, p2p_qualify, Entry, read_through, title_of, or_no_subject, Prepared, skipped, exited,
  proposed, unsettled, Collected, collected, abandoned, undetermined, propose, prepare_entry,
  prepare_entries, prepare_outbound_proposals,
}
use paclink_unix.Outbox.Qualify.{LineFits, p2p_qualify_iff}

module _ (version_1_encode : Buffer → Option Buffer) (bp2p : Bool) (remotecall : List ℕ) where
  -- A regular file whose name can be a message id, and for a peer one that is addressed to it
  pub record Qualifies (e : Entry) (ubuf : Buffer) : Type 0 where
    pub short : length e.d_name ≤ mid_maxlen
    pub regular : e.is_regular ≡ true
    pub read : e.readfile ≡ some ubuf
    pub addressed : bp2p ≡ true → All (LineFits remotecall) (lines_of ubuf)

  -- The proposal of a file
  pub record IsProposalOf (e : Entry) (ubuf cbuf : Buffer) (p : Proposal) : Type 0 where
    pub encoded : version_1_encode ubuf ≡ some cbuf
    pub code : p.code ≡ b'C'
    pub kind : p.kind ≡ b'E'
    pub mid : p.mid ≡ e.d_name
    pub usize : p.usize ≡ ubuf.dlen
    pub csize : p.csize ≡ cbuf.dlen
    pub path : p.path ≡ some e.d_name
    pub uncompressed : p.ubuf ≡ some (read_through ubuf)
    pub compressed : p.cbuf ≡ some cbuf
    pub title : p.title ≡ some (or_no_subject (title_of none (lines_of ubuf)))
    pub offset : p.offset ≡ 0
    pub accepted : p.accepted ≡ false
    pub delete : p.delete ≡ false

  -- A list of proposals for the entries of a directory: one for each file that qualifies, in order
  pub data Outbox : List Entry → List Proposal → Type 0 where
    done : Outbox [] []
    skip :
        (e : Entry) {es : List Entry} {ps : List Proposal}
        → ((ubuf : Buffer) → ¬ Qualifies e ubuf)
        → Outbox es ps
        → Outbox (e ∷ es) ps
    offer :
        (e : Entry) (ubuf cbuf : Buffer) (p : Proposal) {es : List Entry} {ps : List Proposal}
        → Qualifies e ubuf
        → IsProposalOf e ubuf cbuf p
        → Outbox es ps
        → Outbox (e ∷ es) (p ∷ ps)

  -- A file of the outbox that can be read and encoded, of less than 2 ^ 32 bytes, and what is freed of
  -- it still readable; other entries need nothing.
  pub record IsReadable (e : Entry) : Type 0 where
    pub read : (ubuf : Buffer) × (e.readfile ≡ some ubuf)
    pub small : (ubuf : Buffer) → e.readfile ≡ some ubuf → ubuf.dlen < 2 ^ 32
    pub still_there : e.still_there ≡ true
    pub encodes :
        (ubuf : Buffer)
        → e.readfile ≡ some ubuf
        → (cbuf : Buffer) × (version_1_encode ubuf ≡ some cbuf)

  abbrev pub IsReadableFile : Entry → Type 0
  IsReadableFile e = length e.d_name ≤ mid_maxlen → e.is_regular ≡ true → IsReadable e

  -- What one entry comes to
  abbrev Comes : Entry → Prepared → Type 0
  Comes e skipped = (ubuf : Buffer) → ¬ Qualifies e ubuf
  Comes e exited =
      (length e.d_name ≤ mid_maxlen)
      × (e.is_regular ≡ true)
      × ((e.readfile ≡ none)
          ⊎ ((ubuf : Buffer) × (e.readfile ≡ some ubuf) × (version_1_encode ubuf ≡ none)))
  Comes e unsettled =
      (length e.d_name ≤ mid_maxlen)
      × (e.is_regular ≡ true)
      × (ubuf : Buffer) × (e.readfile ≡ some ubuf)
      × ((2 ^ 32 ≤ ubuf.dlen) ⊎ ((bp2p ≡ true) × (e.still_there ≡ false)))
  Comes e (proposed p) = (ubuf cbuf : Buffer) × Qualifies e ubuf × IsProposalOf e ubuf cbuf p

  proposal_of :
      (e : Entry) (ubuf cbuf : Buffer)
      → version_1_encode ubuf ≡ some cbuf
      → IsProposalOf e ubuf cbuf (record {
        code = b'C';
        kind = b'E';
        mid = e.d_name;
        usize = ubuf.dlen;
        csize = cbuf.dlen;
        path = some e.d_name;
        ubuf = some (read_through ubuf);
        cbuf = some cbuf;
        title = some (or_no_subject (title_of none (lines_of ubuf)));
        offset = 0;
        accepted = false;
        delete = false;
      })
  proposal_of e ubuf cbuf made = record {
    encoded = made;
    code = refl;
    kind = refl;
    mid = refl;
    usize = refl;
    csize = refl;
    path = refl;
    uncompressed = refl;
    compressed = refl;
    title = refl;
    offset = refl;
    accepted = refl;
    delete = refl;
  }

  propose-Comes :
      (e : Entry) (ubuf : Buffer)
      → Qualifies e ubuf
      → Comes e (propose version_1_encode bp2p remotecall e.d_name ubuf)
  unfolding propose
  propose-Comes e ubuf q = elim (Option-cases (version_1_encode ubuf)) [
    | inl failed ↦ rw (failed, propose) (q.short, q.regular, inr (ubuf, q.read, failed))
    | inr (cbuf, made) ↦ rw (made, propose) (ubuf, cbuf, q, proposal_of e ubuf cbuf made)
  ]

  some_injective : {b c : Buffer} → some b ≡ some c → b ≡ c
  some_injective h = cc

  -- A peer's message that is not addressed to it does not qualify.
  not_addressed :
      (e : Entry) (ubuf : Buffer)
      → e.readfile ≡ some ubuf
      → (bp2p && not (p2p_qualify remotecall (lines_of ubuf))) ≡ true
      → (u : Buffer) → ¬ Qualifies e u
  not_addressed e ubuf read h u q =
      let same : u ≡ ubuf = some_injective (sym q.read ∙ read) in
      let peer : bp2p ≡ true = ground arith in
      let fits : p2p_qualify remotecall (lines_of u) ≡ true =
        (p2p_qualify_iff remotecall (lines_of u)).1 (q.addressed peer) in
      let out : p2p_qualify remotecall (lines_of ubuf) ≡ true =
        subst (λ v. p2p_qualify remotecall (lines_of v) ≡ true) same fits in
      ground arith

  addressed_if :
      (ubuf : Buffer)
      → (bp2p && not (p2p_qualify remotecall (lines_of ubuf))) ≡ false
      → bp2p ≡ true
      → All (LineFits remotecall) (lines_of ubuf)
  addressed_if ubuf h peer = (p2p_qualify_iff remotecall (lines_of ubuf)).0 (ground arith)

  abbrev prepare : Entry → Prepared
  prepare = prepare_entry version_1_encode bp2p remotecall

  abbrev out_of_place : Entry → Bool
  out_of_place e = ltb mid_maxlen (length e.d_name) || not e.is_regular

  abbrev misses : Buffer → Bool
  misses ubuf = bp2p && not (p2p_qualify remotecall (lines_of ubuf))

  prepare_misplaced : (e : Entry) → out_of_place e ≡ true → prepare e ≡ skipped
  unfolding prepare_entry
  prepare_misplaced e bad = rw (bad, prepare_entry)

  prepare_unread : (e : Entry) → out_of_place e ≡ false → e.readfile ≡ none → prepare e ≡ exited
  unfolding prepare_entry
  prepare_unread e good unread = rw (good, prepare_entry) (rw unread)

  prepare_huge :
      (e : Entry) (ubuf : Buffer)
      → out_of_place e ≡ false
      → e.readfile ≡ some ubuf
      → leb (2 ^ 32) ubuf.dlen ≡ true
      → prepare e ≡ unsettled
  unfolding prepare_entry
  prepare_huge e ubuf good read huge = rw (good, prepare_entry) (rw read (rw huge))

  prepare_lost :
      (e : Entry) (ubuf : Buffer)
      → out_of_place e ≡ false
      → e.readfile ≡ some ubuf
      → leb (2 ^ 32) ubuf.dlen ≡ false
      → misses ubuf ≡ true
      → e.still_there ≡ false
      → prepare e ≡ unsettled
  unfolding prepare_entry
  prepare_lost e ubuf good read fits other lost =
      rw (good, prepare_entry) (rw read (rw fits (rw other (rw lost))))

  prepare_missing :
      (e : Entry) (ubuf : Buffer)
      → out_of_place e ≡ false
      → e.readfile ≡ some ubuf
      → leb (2 ^ 32) ubuf.dlen ≡ false
      → misses ubuf ≡ true
      → e.still_there ≡ true
      → prepare e ≡ skipped
  unfolding prepare_entry
  prepare_missing e ubuf good read fits other kept =
      rw (good, prepare_entry) (rw read (rw fits (rw other (rw kept))))

  prepare_ours :
      (e : Entry) (ubuf : Buffer)
      → out_of_place e ≡ false
      → e.readfile ≡ some ubuf
      → leb (2 ^ 32) ubuf.dlen ≡ false
      → misses ubuf ≡ false
      → prepare e ≡ propose version_1_encode bp2p remotecall e.d_name ubuf
  unfolding prepare_entry
  prepare_ours e ubuf good read fits ours = rw (good, prepare_entry) (rw read (rw fits (rw ours)))

  misplaced : (e : Entry) → out_of_place e ≡ true → (u : Buffer) → ¬ Qualifies e u
  misplaced e bad u q = ground arith

  prepare_read :
      (e : Entry) (ubuf : Buffer)
      → out_of_place e ≡ false
      → e.readfile ≡ some ubuf
      → leb (2 ^ 32) ubuf.dlen ≡ false
      → Comes e (prepare e)
  prepare_read e ubuf good read fits = elim (Bool-cases (misses ubuf)) [
    | inl other ↦ elim (Bool-cases e.still_there) [
      | inl kept ↦
          subst (Comes e) (sym (prepare_missing e ubuf good read fits other kept))
            (not_addressed e ubuf read other)
      | inr lost ↦
          subst (Comes e) (sym (prepare_lost e ubuf good read fits other lost))
            (ground arith, ground arith, ubuf, read, inr (ground arith, lost))
    ]
    | inr ours ↦ subst (Comes e) (sym (prepare_ours e ubuf good read fits ours)) (
        propose-Comes e ubuf (record {
          short = ground arith;
          regular = ground arith;
          read = read;
          addressed = addressed_if ubuf ours;
        }))
  ]

  prepare_entry-Comes : (e : Entry) → Comes e (prepare e)
  prepare_entry-Comes e = elim (Bool-cases (out_of_place e)) [
    | inl bad ↦ subst (Comes e) (sym (prepare_misplaced e bad)) (misplaced e bad)
    | inr good ↦ elim (Option-cases e.readfile) [
      | inl unread ↦
          subst (Comes e) (sym (prepare_unread e good unread))
            (ground arith, ground arith, inl unread)
      | inr (ubuf, read) ↦ elim (Bool-cases (leb (2 ^ 32) ubuf.dlen)) [
        | inl huge ↦
            subst (Comes e) (sym (prepare_huge e ubuf good read huge))
              (ground arith, ground arith, ubuf, read, inl (ground arith))
        | inr fits ↦ prepare_read e ubuf good read fits
      ]
    ]
  ]

  abbrev prepare_all : List Entry → Collected
  prepare_all = prepare_entries version_1_encode bp2p remotecall

  abbrev in_front : Proposal → Collected → Collected
  in_front p o = elim o [
    | abandoned ↦ abandoned
    | undetermined ↦ undetermined
    | collected ps ↦ collected (p ∷ ps)
  ]

  collected_injective : {ps qs : List Proposal} → collected ps ≡ collected qs → ps ≡ qs
  collected_injective h = cc

  all_skipped :
      (e : Entry) (es : List Entry) → prepare e ≡ skipped → prepare_all (e ∷ es) ≡ prepare_all es
  unfolding prepare_entries
  all_skipped e es h = rw (h, prepare_entries)

  all_exited : (e : Entry) (es : List Entry) → prepare e ≡ exited → prepare_all (e ∷ es) ≡ abandoned
  unfolding prepare_entries
  all_exited e es h = rw (h, prepare_entries)

  all_unsettled :
      (e : Entry) (es : List Entry) → prepare e ≡ unsettled → prepare_all (e ∷ es) ≡ undetermined
  unfolding prepare_entries
  all_unsettled e es h = rw (h, prepare_entries)

  all_proposed :
      (e : Entry) (es : List Entry) (p : Proposal)
      → prepare e ≡ proposed p
      → prepare_all (e ∷ es) ≡ in_front p (prepare_all es)
  unfolding prepare_entries
  all_proposed e es p h = rw (h, prepare_entries)

  step :
      (e : Entry) (es : List Entry) (ps : List Proposal) (r : Prepared)
      → prepare e ≡ r
      → Comes e r
      → ((qs : List Proposal) → prepare_all es ≡ collected qs → Outbox es qs)
      → prepare_all (e ∷ es) ≡ collected ps
      → Outbox (e ∷ es) ps
  step e es ps skipped k c ih h = skip e c (ih ps (sym (all_skipped e es k) ∙ h))
  step e es ps exited k c ih h = cc (all_exited e es k)
  step e es ps unsettled k c ih h = cc (all_unsettled e es k)
  step e es ps (proposed p) k (ubuf, cbuf, q, made) ih h = by_rest (prepare_all es) refl
    where
      by_rest : (r : Collected) → prepare_all es ≡ r → Outbox (e ∷ es) ps
      by_rest abandoned f = cc (all_proposed e es p k, ap (in_front p) f)
      by_rest undetermined f = cc (all_proposed e es p k, ap (in_front p) f)
      by_rest (collected qs) f =
          subst (Outbox (e ∷ es))
            (collected_injective (sym (all_proposed e es p k ∙ ap (in_front p) f) ∙ h))
            (offer e ubuf cbuf p q made (ih qs f))

  prepare_entries-Outbox :
      (es : List Entry) (ps : List Proposal) → prepare_all es ≡ collected ps → Outbox es ps
  unfolding prepare_entries
  prepare_entries-Outbox [] [] h = done
  prepare_entries-Outbox [] (p ∷ ps) h = cc
  prepare_entries-Outbox (e ∷ es) ps h =
      step e es ps (prepare e) refl (prepare_entry-Comes e) (prepare_entries-Outbox es) h

  pub prepare_outbound_proposals_some :
      (es : List Entry) (ps : List Proposal)
      → prepare_outbound_proposals version_1_encode bp2p remotecall (some es) ≡ collected ps
      → Outbox es ps
  unfolding prepare_outbound_proposals
  prepare_outbound_proposals_some es ps h = prepare_entries-Outbox es ps h

  not_exited : (e : Entry) → IsReadableFile e → ¬ Comes e exited
  not_exited e f (short, regular, inl unread) = let (ubuf, read) = (f short regular).read in cc
  not_exited e f (short, regular, inr (ubuf, read, failed)) =
      let (cbuf, made) = (f short regular).encodes ubuf read in cc

  not_unsettled : (e : Entry) → IsReadableFile e → ¬ Comes e unsettled
  not_unsettled e f (short, regular, ubuf, read, inl huge) =
      let small = (f short regular).small ubuf read in omega arith
  not_unsettled e f (short, regular, ubuf, read, inr (peer, lost)) =
      let kept = (f short regular).still_there in cc

  returns_behind :
      (e : Entry) (es : List Entry) (r : Prepared)
      → prepare e ≡ r
      → Comes e r
      → IsReadableFile e
      → (ps : List Proposal) × (prepare_all es ≡ collected ps)
      → (ps : List Proposal) × (prepare_all (e ∷ es) ≡ collected ps)
  returns_behind e es skipped k c f (ps, h) = (ps, all_skipped e es k ∙ h)
  returns_behind e es exited k c f h = elim (not_exited e f c) [ ]
  returns_behind e es unsettled k c f h = elim (not_unsettled e f c) [ ]
  returns_behind e es (proposed p) k c f (ps, h) =
      (p ∷ ps, all_proposed e es p k ∙ ap (in_front p) h)

  prepare_entries_returns :
      (es : List Entry)
      → All IsReadableFile es
      → (ps : List Proposal) × (prepare_all es ≡ collected ps)
  unfolding prepare_entries
  prepare_entries_returns [] f = ([], refl)
  prepare_entries_returns (e ∷ es) f =
      returns_behind e es (prepare e) refl (prepare_entry-Comes e) f.0
        (prepare_entries_returns es f.1)

  -- A file of less than 2 ^ 32 bytes, and for a peer what is freed of it still readable
  pub record IsSettled (e : Entry) : Type 0 where
    pub small : (ubuf : Buffer) → e.readfile ≡ some ubuf → ubuf.dlen < 2 ^ 32
    pub still_there : bp2p ≡ true → e.still_there ≡ true

  settled : (e : Entry) → IsSettled e → ¬ Comes e unsettled
  settled e s (short, regular, ubuf, read, inl huge) = let small = s.small ubuf read in omega arith
  settled e s (short, regular, ubuf, read, inr (peer, lost)) = let kept = s.still_there peer in cc

  determined_behind :
      (e : Entry) (es : List Entry) (r : Prepared)
      → prepare e ≡ r
      → Comes e r
      → IsSettled e
      → prepare_all es ≢ undetermined
      → prepare_all (e ∷ es) ≢ undetermined
  determined_behind e es skipped k c s h u = h (sym (all_skipped e es k) ∙ u)
  determined_behind e es exited k c s h u = cc (all_exited e es k)
  determined_behind e es unsettled k c s h u = settled e s c
  determined_behind e es (proposed p) k c s h u = by_rest (prepare_all es) refl
    where
      by_rest : (r : Collected) → prepare_all es ≡ r → ⊥
      by_rest abandoned f = cc (all_proposed e es p k, ap (in_front p) f)
      by_rest undetermined f = h f
      by_rest (collected qs) f = cc (all_proposed e es p k, ap (in_front p) f)

  prepare_entries-determined : (es : List Entry) → All IsSettled es → prepare_all es ≢ undetermined
  unfolding prepare_entries
  prepare_entries-determined [] s u = cc
  prepare_entries-determined (e ∷ es) s u =
      determined_behind e es (prepare e) refl (prepare_entry-Comes e) s.0
        (prepare_entries-determined es s.1) u

  abbrev pub IsSettledOutbox : Option (List Entry) → Type 0
  IsSettledOutbox none = Unit
  IsSettledOutbox (some es) = All IsSettled es

  pub prepare_outbound_proposals-determined :
      (outbox : Option (List Entry))
      → IsSettledOutbox outbox
      → prepare_outbound_proposals version_1_encode bp2p remotecall outbox ≢ undetermined
  unfolding prepare_outbound_proposals
  prepare_outbound_proposals-determined none s u = cc
  prepare_outbound_proposals-determined (some es) s u = prepare_entries-determined es s u

  -- When every regular file of the outbox whose name has at most twelve bytes can be read, has
  -- fewer than 2 ^ 32 bytes and can be encoded, and freed memory still has what stood in it,
  -- prepare_outbound_proposals succeeds, and its list has one proposal for each entry that
  -- qualifies and none for another, in the directory's order: a regular file whose name has at most
  -- twelve bytes and, for a peer, of which every line fits. The proposal is of kind E, not yet
  -- accepted, with the file's name as id, the encoder's result and both sizes, and as title the
  -- last subject line's value or "No subject".
  pub prepare_outbound_proposals-Outbox :
      (es : List Entry)
      → All IsReadableFile es
      → (ps : List Proposal) × (prepare_outbound_proposals version_1_encode bp2p remotecall
            (some es)
          ≡ collected ps)
        × Outbox es ps
  unfolding prepare_outbound_proposals
  prepare_outbound_proposals-Outbox es f =
      let (ps, h) = prepare_entries_returns es f in (ps, h, prepare_entries-Outbox es ps h)
