-- ===== src/Pump.antt =====
-- wl2kax25.c: the loop of the parent process, which carries bytes between the radio's socket and the
-- process that runs the exchange.
pub mod Chunk
pub mod Rounds
use paclink_unix.Common.{
  ℕ, zero, suc, ◌+◌, ◌-◌, Bool, List, [], ◌∷◌, ◌++◌, leb, if◌then◌else◌, length, take, drop,
}

-- What `write` answers: a number of bytes from 1 up, -1 with EAGAIN, or 0 or another error.
pub data Written : Type 0 where
  wrote : ℕ → Written
  would_block refused : Written

-- The packets that were written, and how the loop of the writes ended: with all bytes, by its `break`,
-- in front of the array, or not yet.
pub data Ending : Type 0 where
  complete given_up before_array unanswered : Ending

pub record Writes : Type 0 where
  pub packets : List (List ℕ)
  pub ending : Ending

unfoldable pub min : ℕ → ℕ → ℕ
min m n = if leb m n then m else n

-- `pbuf` stands at the index `at` of `array`, and `len` bytes are to be written. EAGAIN counts as -1
-- bytes written.
unfoldable pub write_loop : ℕ → List ℕ → List Written → ℕ → ℕ → Writes
unfolding min
write_loop paclen array answers at zero = record { packets = []; ending = complete }
write_loop paclen array [] at (suc len) = record { packets = []; ending = unanswered }
write_loop paclen array (wrote n ∷ answers) at (suc len) =
    let rest = write_loop paclen array answers (at + n) (suc len - n) in
    record rest { packets = take n (take (min paclen (suc len)) (drop at array)) ∷ rest.packets }
write_loop paclen array (would_block ∷ answers) zero (suc len) = record {
  packets = [];
  ending = before_array;
}
write_loop paclen array (would_block ∷ answers) (suc at) (suc len) =
    write_loop paclen array answers at (suc (suc len))
write_loop paclen array (refused ∷ answers) at (suc len) = record {
  packets = [];
  ending = given_up;
}

-- What `read` gives on a descriptor that is ready, with the answers to the writes that follow; no
-- bytes are the end of the stream.
pub data Incoming : Type 0 where
  not_ready read_failed : Incoming
  got : List ℕ → List Written → Incoming

-- What `poll` answers: EINTR, another error, or the two descriptors, and after their service whether
-- the timeout has struck.
pub data Polled : Type 0 where
  interrupted poll_failed : Polled
  ready : Incoming → Incoming → Bool → Polled

-- What has been written to the child process and to the radio
pub record Carried : Type 0 where
  pub to_child : List (List ℕ)
  pub to_radio : List (List ℕ)

-- How the loop ends: by a `break`, by an exit, with a write from outside the array, in a write that
-- is not answered, or not yet.
pub data Outcome : Type 0 where
  left exited astray writing pumping : Outcome

-- One direction: what it adds, and whether the loop goes on; `at_end` is the stream's end.
unfoldable pub serve : Outcome → ℕ → Incoming → List (List ℕ) × Outcome
serve at_end paclen not_ready = ([], pumping)
serve at_end paclen read_failed = ([], pumping)
serve at_end paclen (got [] answers) = ([], at_end)
serve at_end paclen (got (c ∷ s) answers) =
    let w = write_loop paclen (c ∷ s) answers 0 (length (c ∷ s)) in
    elim w.ending [
      | complete ↦ (w.packets, pumping)
      | given_up ↦ (w.packets, pumping)
      | before_array ↦ (w.packets, astray)
      | unanswered ↦ (w.packets, writing)
    ]

unfoldable pub round : ℕ → Incoming → Incoming → Bool → Carried → Carried × Outcome
unfolding serve
round paclen inbound outbound struck k =
    let (more, on) = serve exited paclen inbound in
    let k₁ = record k { to_child = k.to_child ++ more } in
    let (more', on') = serve left paclen outbound in
    let k₂ = record k₁ { to_radio = k₁.to_radio ++ more' } in
    elim on [
      | pumping ↦ elim on' [
        | pumping ↦ if struck then (k₂, left) else (k₂, pumping)
        | left ↦ (k₂, left)
        | exited ↦ (k₂, exited)
        | astray ↦ (k₂, astray)
        | writing ↦ (k₂, writing)
      ]
      | left ↦ (k₁, left)
      | exited ↦ (k₁, exited)
      | astray ↦ (k₁, astray)
      | writing ↦ (k₁, writing)
    ]

unfoldable pub pump : ℕ → List Polled → Carried → Carried × Outcome
unfolding round
pump paclen [] k = (k, pumping)
pump paclen (interrupted ∷ polls) k = (k, left)
pump paclen (poll_failed ∷ polls) k = (k, exited)
pump paclen (ready inbound outbound struck ∷ polls) k =
    let (k', on) = round paclen inbound outbound struck k in
    let rest = pump paclen polls k' in
    elim on [
      | pumping ↦ rest
      | left ↦ (k', left)
      | exited ↦ (k', exited)
      | astray ↦ (k', astray)
      | writing ↦ (k', writing)
    ]
