-- ===== src/Transfer/RoundTrip.antt =====
-- wl2k.c: getcompressed on what putcompressed writes.
use paclink_unix.Common.{
  ℕ, zero, suc, ◌+◌, ◌-◌, ◌%◌, ◌^◌, ◌≤◌, ◌<◌, ◌≡◌, refl, ap₂, ◌∙◌, true, false, some, List, [], ◌∷◌,
  ◌++◌, append_assoc, arith, ltb, All, length, take, length-append, take-le,
}
use paclink_unix.Buffer.{Memory, Buffer, new}
use paclink_unix.Buffer.Contents.{IsValid, contents, new_granted, new-IsValid}
use paclink_unix.Buffer.Write.{stored}
use paclink_unix.Stream.{ok}
use paclink_unix.Transfer.{
  read_chunks, read_header, getcompressed, is_start, put_header, put_chunks, putcompressed,
  returned, complement, chreot,
}
use paclink_unix.Number.{decimal, digits}
use paclink_unix.Transfer.Blocks.{
  read_field_text, put_chunks-length, put_chunks-append, read_chunks-put_chunks,
}

take-All : (n : ℕ) (xs : List ℕ) → All (λ c. 0 < c) xs → All (λ c. 0 < c) (take n xs)
take-All zero xs h = tt
take-All (suc n) [] h = tt
take-All (suc n) (x ∷ xs) h = (h.0, take-All n xs h.1)

-- The header of a message that is sent from its start.
read_header-put_header :
    (title s : List ℕ)
    → All (λ c. 0 < c) title
    → length title ≤ 80
    → read_header (put_header title (b'0' ∷ []) ++ s) ≡ ok (title, b'0' ∷ []) s
unfolding read_header put_header
read_header-put_header title s h l =
    let len : (length title + 1 + 2) % 256 ≡ 3 + length title = omega arith in
    rw (len, append_assoc)
      (rw (read_field_text 80 (3 + length title) 3 title (b'0' ∷ 0 ∷ s) h l refl)
        (rw (read_field_text 6 2 1 (b'0' ∷ []) s (omega arith, tt) (omega arith) (omega arith))))

stored-bytes : (xs : List ℕ) → All (λ c. c < 256) xs → stored xs ≡ xs
stored-bytes [] h = refl
stored-bytes (x ∷ xs) h = ap₂ ◌∷◌ (omega arith) (stored-bytes xs h.1)

getcompressed_header :
    (m : Memory) (title s : List ℕ) (b : Buffer)
    → new m ≡ some b
    → All (λ c. 0 < c) title
    → length title ≤ 80
    → getcompressed m (put_header title (b'0' ∷ []) ++ s) ≡ read_chunks m (suc (length s)) b 0 s
unfolding getcompressed is_start
getcompressed_header m title s b made h l =
    rw (made, getcompressed) (rw (read_header-put_header title s h l))

-- What stands behind the message in its block does not matter.
putcompressed-append :
    (title message junk : List ℕ)
    → putcompressed
        (record { title = title; offset = 0; csize = length message; data_bytes = message ++ junk })
      ≡ putcompressed
          (record { title = title; offset = 0; csize = length message; data_bytes = message })
unfolding putcompressed
putcompressed-append title message junk =
    rw (put_chunks-append (length message - 0) message junk (length message - 0) 0 (omega arith))

module _ (m : Memory) (all : (n : ℕ) → m.grants n ≡ true) where
  message_received :
      (title message rest : List ℕ)
      → All (λ c. 0 < c) title
      → All (λ c. c < 256) message
      → 6 ≤ length message
      → length message < 2 ^ 32
      → (out : List ℕ) × (b : Buffer) × (putcompressed
            (record { title = title; offset = 0; csize = length message; data_bytes = message })
          ≡ returned out)
        × (getcompressed m (out ++ rest) ≡ ok b rest)
        × IsValid b
        × (contents b ≡ message)
        × (b.i ≡ 0)
  unfolding putcompressed decimal digits
  message_received title message rest ht hm lo hi =
      let header = put_header (take 80 title) (b'0' ∷ []) in
      let (blocks, total) = put_chunks (length message) message (length message) 0 in
      let end = chreot ∷ complement total ∷ [] in
      let (b₀, made, fresh, empty, none_yet) = new_granted m all in
      let (b, run, sent) =
        read_chunks-put_chunks m all (length message)
          (suc (length (blocks ++ chreot ∷ complement total ∷ rest))) message (length message) 0 b₀
          rest refl (omega arith)
          (omega (
            arith,
            put_chunks-length (length message) message (length message) 0 refl (omega arith),
            length-append blocks (chreot ∷ complement total ∷ rest),
          ))
          fresh (omega arith) in
      let whole : length message - 0 ≡ length message = omega arith in
      let long : ltb (length message) 6 ≡ false = ground arith in
      let inside : ltb (length message) 0 ≡ false = ground arith in
      (
        header ++ (blocks ++ end),
        b,
        rw (long, inside, whole),
        rw (append_assoc, append_assoc)
            (getcompressed_header m (take 80 title) (blocks ++ chreot ∷ complement total ∷ rest) b₀
                made (take-All 80 title ht) (take-le 80 title)
              ∙ run),
        sent.valid,
        sent.holds ∙ rw empty (stored-bytes message hm),
        sent.position ∙ (new-IsValid m made).2,
      )

  -- A message of at least six bytes, at the front of its block and sent from its start by
  -- putcompressed under a title with no NUL, is written whole, and whatever follows it on the
  -- connection, getcompressed returns a valid buffer, at its start, with exactly the message's
  -- bytes, and leaves what follows. Memory is granted, and the message has fewer than 2 ^ 32 bytes.
  pub getcompressed-putcompressed :
      (title message junk rest : List ℕ)
      → All (λ c. 0 < c) title
      → All (λ c. c < 256) message
      → 6 ≤ length message
      → length message < 2 ^ 32
      → (out : List ℕ) × (b : Buffer) × (putcompressed (record {
        title = title;
        offset = 0;
        csize = length message;
        data_bytes = message ++ junk;
      })
          ≡ returned out)
        × (getcompressed m (out ++ rest) ≡ ok b rest)
        × IsValid b
        × (contents b ≡ message)
        × (b.i ≡ 0)
  getcompressed-putcompressed title message junk rest ht hm lo hi =
      let (out, b, sent, got, valid, holds, start) =
        message_received title message rest ht hm lo hi in
      (out, b, putcompressed-append title message junk ∙ sent, got, valid, holds, start)
