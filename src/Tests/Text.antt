-- ===== src/Tests/Text.antt =====
-- Runs of buffer.c and strutil.c on small texts.
use paclink_unix.Common.{◌≡◌, refl, some, [], ◌∷◌, arith}
use paclink_unix.Buffer.{Buffer, null, line, getline}
use paclink_unix.Buffer.Contents.{IsValid, remaining}
use paclink_unix.Buffer.Lines.{getline_reads, getline_end}
use paclink_unix.Tests.Hash.{full_memory}

-- "A\nB" in a block of four bytes
abbrev two_lines : Buffer
two_lines = record { block = b'A' ∷ 10 ∷ b'B' ∷ 0 ∷ []; alen = 4; dlen = 3; i = 0 }

two_lines-IsValid : IsValid two_lines
two_lines-IsValid = record {
  sized = refl;
  some_room = omega arith;
  within = omega arith;
  small = omega arith;
  position = omega arith;
}

-- the same, read to its end
abbrev all_read : Buffer
all_read = record { block = b'A' ∷ 10 ∷ b'B' ∷ 0 ∷ []; alen = 4; dlen = 3; i = 3 }

all_read-IsValid : IsValid all_read
all_read-IsValid = record {
  sized = refl;
  some_room = omega arith;
  within = omega arith;
  small = omega arith;
  position = omega arith;
}

getline_reads_example :
    (b' : Buffer) × (getline full_memory two_lines 10 ≡ some (line (b'A' ∷ 10 ∷ []), b'))
    × IsValid b'
    × (remaining b' ≡ b'B' ∷ [])
getline_reads_example =
    getline_reads full_memory (λ n. refl) two_lines 10 b'A' (10 ∷ b'B' ∷ []) two_lines-IsValid
      (omega arith) refl
      ((omega arith, omega arith), ((omega arith, omega arith), ((omega arith, omega arith), tt)))

getline_end_example : getline full_memory all_read 10 ≡ some (null, all_read)
getline_end_example = getline_end full_memory (λ n. refl) all_read 10 all_read-IsValid refl
