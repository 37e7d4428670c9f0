-- ===== src/Outbox.antt =====
-- wl2k.c: p2p_qualify and prepare_outbound_proposals, which make proposals of the files in the outbox.
pub mod Qualify
pub mod Proposals
pub mod Sendable
use paclink_unix.Common.{
  ℕ, ◌^◌, Bool, true, false, not, ◌&&◌, ◌||◌, Option, none, some, List, [], ◌∷◌, map, ltb, leb,
  if◌then◌else◌, length, take, drop, codes,
}
use paclink_unix.Buffer.{Buffer}
use paclink_unix.Buffer.Contents.{contents}
use paclink_unix.Strutil.{strbegins, strupper, strzapcc, strchr, cut_at}
use paclink_unix.Number.{skip_spaces}
use paclink_unix.Conf.{text_lines, strcmp_zero}
use paclink_unix.Proposal.{Proposal, mid_maxlen}

-- The strings that buffer_getline returns, one after the other; Conf.Tokens has that these are they.
abbrev pub strings_of : List (List ℕ) → List (List ℕ)
strings_of = map (cut_at 0)

abbrev pub lines_of : Buffer → List (List ℕ)
lines_of b = strings_of (text_lines (contents b))

-- What stands behind a header's name of `n` bytes, up to 80 bytes of it
unfoldable pub header_value : ℕ → List ℕ → List ℕ
header_value n line = take 80 (skip_spaces (drop n (strzapcc line)))

-- Whether the address of a "To:" line lets a message pass
unfoldable pub address_qualifies : List ℕ → List ℕ → Bool
address_qualifies remotecall callsign = elim (strchr b'@' callsign) [
  | none ↦ true
  | some np ↦ elim (strchr b'@' (drop 1 np)) [
    | none ↦ strcmp_zero (cut_at b'@' (strupper callsign)) remotecall
    | some more ↦ false
  ]
]

-- The same of what stands behind the line's name
unfoldable pub to_qualifies : List ℕ → List ℕ → Bool
unfolding address_qualifies
to_qualifies remotecall cp = elim (strchr b':' cp) [
  | none ↦ false
  | some sp ↦ address_qualifies remotecall (drop 1 sp)
]

unfoldable pub line_qualifies : List ℕ → List ℕ → Bool
unfolding to_qualifies header_value
line_qualifies remotecall line =
    if strbegins line (codes "To:")
    then to_qualifies remotecall (header_value 3 line)
    else not (strbegins line (codes "Cc:"))

unfoldable pub p2p_qualify : List ℕ → List (List ℕ) → Bool
unfolding line_qualifies
p2p_qualify remotecall [] = true
p2p_qualify remotecall (l ∷ ls) =
    let rest = p2p_qualify remotecall ls in if line_qualifies remotecall l then rest else false

-- An entry of the directory: whether `stat` says that it is a regular file, and what buffer_readfile
-- makes of it, a buffer to be read from its start, and whether the memory of its proposal, once it is
-- freed, still has what stood in it: `buffer_free(prop->ubuf)` reads it behind `free(prop)`.
pub record Entry : Type 0 where
  pub d_name : List ℕ
  pub is_regular : Bool
  pub readfile : Option Buffer
  pub still_there : Bool

-- The title of the last "Subject:" line
unfoldable pub title_of : Option (List ℕ) → List (List ℕ) → Option (List ℕ)
unfolding header_value
title_of title [] = title
title_of title (l ∷ ls) =
    title_of (if strbegins l (codes "Subject:") then some (header_value 8 l) else title) ls

abbrev pub or_no_subject : Option (List ℕ) → List ℕ
or_no_subject none = codes "No subject"
or_no_subject (some t) = t

-- A buffer that has been read to its end
abbrev pub read_through : Buffer → Buffer
read_through b = record b { i = b.dlen }

-- What an entry comes to. `unsettled` is no result of the program: the file has 2 ^ 32 bytes or more,
-- so that the position of the buffer, which has 32 bits, wraps round, and the loops that read it come
-- to no end; or freed memory was read that has changed.
pub data Prepared : Type 0 where
  skipped exited unsettled : Prepared
  proposed : Proposal → Prepared

-- What a directory comes to, with `abandoned` for an exit
pub data Collected : Type 0 where
  collected : List Proposal → Collected
  abandoned undetermined : Collected

-- `version_1_encode` is version_1_Encode, which rewinds the buffer
-- that it is given and which Lzhuf.Encode has, `bp2p` whether the caller is a station and not a server.
module _ (version_1_encode : Buffer → Option Buffer) (bp2p : Bool) (remotecall : List ℕ) where
  unfoldable pub propose : List ℕ → Buffer → Prepared
  unfolding title_of
  propose name ubuf = elim (version_1_encode ubuf) [
    | none ↦ exited
    | some cbuf ↦ proposed (record {
      code = b'C';
      kind = b'E';
      mid = name;
      usize = ubuf.dlen;
      csize = cbuf.dlen;
      path = some name;
      ubuf = some (read_through ubuf);
      cbuf = some cbuf;
      title = some (or_no_subject (title_of none (lines_of ubuf)));
      offset = 0;
      accepted = false;
      delete = false;
    })
  ]

  unfoldable pub prepare_entry : Entry → Prepared
  unfolding propose p2p_qualify
  prepare_entry e =
      let prepare : Prepared = elim e.readfile [
        | none ↦ exited
        | some ubuf ↦
            (if leb (2 ^ 32) ubuf.dlen
              then unsettled
              else (if bp2p && not (p2p_qualify remotecall (lines_of ubuf))
                  then (if e.still_there then skipped else unsettled)
                  else propose e.d_name ubuf))
      ] in
      if ltb mid_maxlen (length e.d_name) || not e.is_regular then skipped else prepare

  -- The entries of the directory, in the order of readdir
  unfoldable pub prepare_entries : List Entry → Collected
  unfolding prepare_entry
  prepare_entries [] = collected []
  prepare_entries (e ∷ es) = elim (prepare_entry e) [
    | skipped ↦ prepare_entries es
    | exited ↦ abandoned
    | unsettled ↦ undetermined
    | proposed p ↦ elim (prepare_entries es) [
      | abandoned ↦ abandoned
      | undetermined ↦ undetermined
      | collected ps ↦ collected (p ∷ ps)
    ]
  ]

  -- `none` is an outbox that cannot be opened.
  unfoldable pub prepare_outbound_proposals : Option (List Entry) → Collected
  unfolding prepare_entries
  prepare_outbound_proposals none = abandoned
  prepare_outbound_proposals (some es) = prepare_entries es
