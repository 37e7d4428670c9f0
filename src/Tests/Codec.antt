-- ===== src/Tests/Codec.antt =====
-- Runs of lzhuf_1.c: version_1_Encode and version_1_Decode on a text of one byte, with all statics zero
-- and all memory granted.
use paclink_unix.Common.{
  ℕ, ◌≤◌, ◌<◌, ◌≡◌, refl, sym, ap, ap₂, ◌∙◌, Option, none, some, List, [], ◌∷◌, ◌++◌, arith, All,
  length, drop, take-append-drop, codes,
}
use paclink_unix.Buffer
use paclink_unix.Buffer.{Buffer}
use paclink_unix.Buffer.Contents.{IsValid, contents, length-contents}
use paclink_unix.Lzhuf
use paclink_unix.Lzhuf.Decode
use paclink_unix.Lzhuf.Encode
use paclink_unix.Lzhuf.Encode.Output.{version_1_encode-IsValid}
use paclink_unix.Lzhuf.Decode.{Decoded}
use paclink_unix.Lzhuf.Tree.{Huffman}
use paclink_unix.Lzhuf.Window.{Window}
use paclink_unix.Tests.Hash.{full_memory}

-- The arrays before the first call
abbrev pub zeros : Huffman
zeros = record { freq = λ i. 0; prnt = λ i. 0; son = λ i. 0 }

abbrev pub zero_window : Window
zero_window = record {
  text_buf = λ i. 0;
  lson = λ i. 0;
  rson = λ i. 0;
  dad = λ i. 0;
  match_position = 0;
  match_length = 0;
}

-- What the callers see of version_1_Decode's result
abbrev pub result_of : Decoded Buffer → Option Buffer
result_of (Lzhuf.Decode.ok b) = some b
result_of (Lzhuf.Decode.null crc) = none
result_of Lzhuf.Decode.exited = none
result_of Lzhuf.Decode.fault = none
result_of Lzhuf.Decode.stuck = none

abbrev pub decoder : Buffer → Option Buffer
decoder b = result_of (Lzhuf.Decode.version_1_decode full_memory (λ i. 0) zeros b)

abbrev pub encoder : Buffer → Option Buffer
encoder b = Lzhuf.Encode.version_1_encode full_memory zero_window zeros 0 b

-- The text "A"
abbrev pub text : Buffer
text = record { block = b'A' ∷ []; alen = 1; dlen = 1; i = 0 }

-- What becomes of it: the CRC, the size, and nine bits
abbrev pub message : List ℕ
message = 60 ∷ 110 ∷ 1 ∷ 0 ∷ 0 ∷ 0 ∷ 230 ∷ 128 ∷ []

abbrev pub message_buffer : Buffer
message_buffer = record { block = message; alen = 8; dlen = 8; i = 0 }

abbrev some_buffer : List ℕ → ℕ → Buffer
some_buffer junk n = record { block = message ++ junk; alen = n; dlen = 8; i = 0 }

decodes : (junk : List ℕ) (n : ℕ) → decoder (some_buffer junk n) ≡ some text
unfolding Lzhuf.Decode.version_1_decode Lzhuf.Decode.read_size Lzhuf.Crc.crc_fgetc Buffer.iterchar
    Lzhuf.Decode.decode Buffer.new Lzhuf.Decode.decode_loop Lzhuf.Decode.start_decoder
    Lzhuf.Decode.decode_one Lzhuf.Decode.decode_char Lzhuf.Decode.descend Lzhuf.Tree.start_huff
    Lzhuf.Tree.start_nodes Lzhuf.Tree.store Lzhuf.Bits.get_bit Lzhuf.Bits.refill
    Lzhuf.Bits.refill_once Lzhuf.Tree.start_leaves Buffer.addchar Buffer.fresh_bytes Buffer.grow
    Buffer.put Lzhuf.Crc.updcrc Lzhuf.Decode.emit Lzhuf.Tables.crctab Lzhuf.Tree.adopt
    Lzhuf.Tree.collect_leaves Lzhuf.Tree.connect_prnt Lzhuf.Tree.connect_sons Lzhuf.Tree.exchange
    Lzhuf.Tree.insert_at Lzhuf.Tree.reconst Lzhuf.Tree.search_down Lzhuf.Tree.search_up
    Lzhuf.Tree.update Lzhuf.Tree.update_loop Lzhuf.Tree.update_node Lzhuf.Window.store_range
decodes junk n = refl

-- The decoder takes every valid buffer that holds the message, at its start.
pub decoder_lem : (b : Buffer) → IsValid b → b.i ≡ 0 → contents b ≡ message → decoder b ≡ some text
decoder_lem b valid start holds =
    let size : b.dlen ≡ 8 = sym (length-contents valid) ∙ ap length holds in
    let split : b.block ≡ message ++ drop b.dlen b.block =
      sym (take-append-drop b.dlen b.block) ∙ ap (λ s. s ++ drop b.dlen b.block) holds in
    let same : b ≡ some_buffer (drop b.dlen b.block) b.alen = same_fields b _ split size start in
    ap decoder same ∙ decodes (drop b.dlen b.block) b.alen
  where
    same_fields :
        (b : Buffer) (s : List ℕ)
        → b.block ≡ s
        → b.dlen ≡ 8
        → b.i ≡ 0
        → b ≡ record { block = s; alen = b.alen; dlen = 8; i = 0 }
    same_fields b s e f g =
        ap (λ (s : List ℕ). record { block = s; alen = b.alen; dlen = b.dlen; i = b.i }) e
        ∙ ap₂ (λ (n k : ℕ). record { block = s; alen = b.alen; dlen = n; i = k }) f g

encodes : encoder text ≡ some message_buffer
unfolding Lzhuf.Encode.version_1_encode Lzhuf.Encode.encode Buffer.new Lzhuf.Encode.put_size
    Lzhuf.Bits.put_byte Lzhuf.Crc.crc_fputc Buffer.addchar Buffer.put Buffer.grow
    Lzhuf.Encode.encode_text Lzhuf.Encode.insert_before Lzhuf.Window.insert_node
    Lzhuf.Window.insert_loop Lzhuf.Tree.store Lzhuf.Encode.load Buffer.iterchar Buffer.rewind
    Lzhuf.Window.store_range Buffer.fresh_bytes Lzhuf.Bits.encode_end Lzhuf.Bits.put_first
    Lzhuf.Bits.put_second Lzhuf.Bits.putcode Lzhuf.Crc.updcrc Lzhuf.Encode.climb
    Lzhuf.Encode.copy_loop Lzhuf.Encode.encode_char Lzhuf.Encode.encode_loop
    Lzhuf.Encode.encode_position Lzhuf.Encode.encode_round Lzhuf.Encode.encode_step
    Lzhuf.Encode.replace_byte Lzhuf.Encode.shift_in Lzhuf.Encode.shift_out Lzhuf.Tables.crctab
    Lzhuf.Tables.p_code Lzhuf.Tables.p_len Lzhuf.Tree.adopt Lzhuf.Tree.collect_leaves
    Lzhuf.Tree.connect_prnt Lzhuf.Tree.connect_sons Lzhuf.Tree.exchange Lzhuf.Tree.insert_at
    Lzhuf.Tree.reconst Lzhuf.Tree.search_down Lzhuf.Tree.search_up Lzhuf.Tree.start_huff
    Lzhuf.Tree.start_leaves Lzhuf.Tree.start_nodes Lzhuf.Tree.update Lzhuf.Tree.update_loop
    Lzhuf.Tree.update_node Lzhuf.Window.compare_from Lzhuf.Window.delete_node Lzhuf.Window.distance
    Lzhuf.Window.init_tree Lzhuf.Window.lift_rightmost Lzhuf.Window.note_match Lzhuf.Window.relink
    Lzhuf.Window.replace_node Lzhuf.Window.rightmost Lzhuf.Window.take_right
encodes = refl

-- "To: SMTP:n1@x", "Subject: Hi"
abbrev pub file : Buffer
file = record {
  block = codes "To: SMTP:n1@x" ++ 13 ∷ 10 ∷ (codes "Subject: Hi" ++ 13 ∷ 10 ∷ []);
  alen = 28;
  dlen = 28;
  i = 0;
}

-- What becomes of it, with the room behind it
abbrev pub packed : Buffer
packed = record {
  block =
      227 ∷ 245 ∷ 28 ∷ 0 ∷ 0 ∷ 0 ∷ 240 ∷ 126 ∷ 248 ∷ 218 ∷ 206 ∷ 255 ∷ 103 ∷ 23 ∷ 185 ∷ 135 ∷ 250
      ∷ 222 ∷ 243 ∷ 1 ∷ 51 ∷ 57 ∷ 108 ∷ 16 ∷ 31 ∷ 119 ∷ 219 ∷ 227 ∷ 239 ∷ 0 ∷ 177 ∷ 133 ∷ 212 ∷ 250
      ∷ 221 ∷ 92 ∷ 128 ∷ 0 ∷ 0 ∷ 0 ∷ 0 ∷ 0 ∷ 0 ∷ 0 ∷ 0 ∷ 0 ∷ 0 ∷ 0 ∷ 0 ∷ 0 ∷ 0 ∷ 0 ∷ 0 ∷ 0 ∷ 0 ∷ 0
      ∷ 0 ∷ 0 ∷ 0 ∷ 0 ∷ 0 ∷ 0 ∷ 0 ∷ 0 ∷ [];
  alen = 64;
  dlen = 37;
  i = 0;
}

pub encodes_file : encoder file ≡ some packed
unfolding Lzhuf.Encode.version_1_encode Lzhuf.Encode.encode Buffer.new Lzhuf.Encode.put_size
    Lzhuf.Bits.put_byte Lzhuf.Crc.crc_fputc Buffer.addchar Buffer.put Buffer.grow
    Lzhuf.Encode.encode_text Lzhuf.Encode.insert_before Lzhuf.Window.insert_node
    Lzhuf.Window.insert_loop Lzhuf.Tree.store Lzhuf.Encode.load Buffer.iterchar Buffer.rewind
    Lzhuf.Window.store_range Buffer.fresh_bytes Lzhuf.Bits.encode_end Lzhuf.Bits.put_first
    Lzhuf.Bits.put_second Lzhuf.Bits.putcode Lzhuf.Crc.updcrc Lzhuf.Encode.climb
    Lzhuf.Encode.copy_loop Lzhuf.Encode.encode_char Lzhuf.Encode.encode_loop
    Lzhuf.Encode.encode_position Lzhuf.Encode.encode_round Lzhuf.Encode.encode_step
    Lzhuf.Encode.replace_byte Lzhuf.Encode.shift_in Lzhuf.Encode.shift_out Lzhuf.Tables.crctab
    Lzhuf.Tables.p_code Lzhuf.Tables.p_len Lzhuf.Tree.adopt Lzhuf.Tree.collect_leaves
    Lzhuf.Tree.connect_prnt Lzhuf.Tree.connect_sons Lzhuf.Tree.exchange Lzhuf.Tree.insert_at
    Lzhuf.Tree.reconst Lzhuf.Tree.search_down Lzhuf.Tree.search_up Lzhuf.Tree.start_huff
    Lzhuf.Tree.start_leaves Lzhuf.Tree.start_nodes Lzhuf.Tree.update Lzhuf.Tree.update_loop
    Lzhuf.Tree.update_node Lzhuf.Window.compare_from Lzhuf.Window.delete_node Lzhuf.Window.distance
    Lzhuf.Window.init_tree Lzhuf.Window.lift_rightmost Lzhuf.Window.note_match Lzhuf.Window.relink
    Lzhuf.Window.replace_node Lzhuf.Window.rightmost Lzhuf.Window.take_right
encodes_file = refl

version_1_encode-IsValid_example :
    IsValid message_buffer × (6 ≤ 8) × All (λ x. x < 256) (contents message_buffer)
version_1_encode-IsValid_example =
    version_1_encode-IsValid full_memory zero_window zeros 0 text message_buffer encodes
      (omega arith)
