-- ===== src/Filter.antt =====
-- mail.wl2k.c: the filter that puts a mail into the outbox as a Winlink message.
pub mod Kept
use paclink_unix.Common.{
  Bool, true, false, Option, none, some, List, [], ◌∷◌, if◌then◌else◌, drop, codes,
}
use paclink_unix.Strutil.{strcasebegins, strzapcc, cut_at}
use paclink_unix.Number.{skip_spaces}
use paclink_unix.Conf.{text_lines}
use paclink_unix.Mime.{Bytes, Message}
use paclink_unix.Mime.ToWinlink.{System, Converted, null, fault, buffer, mime2wl}

-- A file in the outbox, by its name and contents, the exit of the process, or the read through NULL
-- of a callsign that is not set
pub data Stored : Type 0 where
  stored : Bytes → Bytes → Stored
  exited null_read : Stored

-- What `getopt` returns
pub data Flag : Type 0 where
  no_record unknown : Flag

-- `bRecordMid`; `none` is an exit by `usage`.
unfoldable pub record_of : Bool → List Flag → Option Bool
record_of record_mid [] = some record_mid
record_of record_mid (no_record ∷ fs) = record_of false fs
record_of record_mid (unknown ∷ fs) = none

-- `writable` says whether the file can be opened and takes all bytes.
module _ (writable : Bytes → Bool) where
  -- The file's name is the first line behind "Mid:".
  unfoldable pub store : Bytes → Stored
  store text = elim (text_lines text) [
    | [] ↦ exited
    | line ∷ lines ↦
        (let mid = cut_at 0 line in
          let name = strzapcc (skip_spaces (drop 4 mid)) in
          let kept : Stored = if writable name then stored name text else exited in
          if strcasebegins mid (codes "Mid:") then kept else exited)
  ]

  -- `mycall` is what conf_get has found, `generate_mid` what mime2wl gets of that function.
  unfoldable pub mail_wl2k :
      System → (Bool → Bytes → Option Bytes) → Option Bytes → List Flag → Message → Stored
  unfolding store record_of
  mail_wl2k sys generate_mid mycall fs msg =
      let posted : Bool → Bytes → Stored = λ recorded call.
        elim (mime2wl sys (generate_mid recorded call) msg) [
          | null ↦ exited
          | fault ↦ null_read
          | buffer text ↦ store text
        ] in
      elim (record_of true fs) [
        | none ↦ exited
        | some recorded ↦ elim mycall [ none ↦ null_read | some call ↦ posted recorded call ]
      ]
