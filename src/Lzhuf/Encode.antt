-- ===== src/Lzhuf/Encode.antt =====
-- lzhuf_1.c: EncodeChar, EncodePosition, Encode and version_1_Encode.
pub mod Output
use paclink_unix.Common.{
  ℕ, zero, suc, ◌+◌, ◌-◌, ◌*◌, ◌/◌, ◌%◌, ◌^◌, not, ◌&&◌, Option, none, some, ltb, leb, ◌==◌,
  if◌then◌else◌, get_or,
}
use paclink_unix.Buffer.{Memory, Buffer, new, addchar, iterchar, rewind}
use paclink_unix.Lzhuf.Tables.{p_len, p_code}
use paclink_unix.Lzhuf.Bits.{Sink, put_byte, putcode, encode_end}
use paclink_unix.Lzhuf.Tree.{Array, store, Huffman, start_huff, update, table_size, root}
use paclink_unix.Lzhuf.Window.{
  Window, window_size, lookahead, threshold, store_range, init_tree, insert_node, delete_node,
}

-- EncodeChar's climb from the leaf to the root: the code, its length. `none` is the error "input file
-- too big", a node that is its own parent, and a climb longer than the table.
unfoldable pub climb : ℕ → Array → ℕ → ℕ → ℕ → Option (ℕ × ℕ)
climb zero prnt k i j = none
climb (suc fuel) prnt k i j =
    let i' = if k % 2 == 1 then i / 2 + 0x8000 else i / 2 in
    let up = prnt k in
    let more = climb fuel prnt up i' (j + 1) in
    if (k == up) && not (k == root) then none else (if up == root then some (i', j + 1) else more)

-- `none` ends the encoding: -1, or a step that the model has no rounds for.
module _ (m : Memory) where
  -- The result of Putcode is not looked at.
  unfoldable pub encode_char : ℕ → Huffman → Sink → Option (Huffman × Sink)
  encode_char c h s = elim (climb table_size h.prnt (h.prnt (c + table_size)) 0 0) [
    | none ↦ none
    | some (i, j) ↦ elim (update c h) [ none ↦ none | some h' ↦ some (h', (putcode m j i s).1) ]
  ]

  unfoldable pub encode_position : ℕ → Sink → Option Sink
  encode_position c s =
      let (ok₁, s₁) = putcode m (get_or p_len (c / 64) 0) (get_or p_code (c / 64) 0 * 2 ^ 8) s in
      let (ok₂, s₂) = putcode m 6 (c % 64 * 2 ^ 10) s₁ in
      if ok₁ then (if ok₂ then some s₂ else none) else none

  -- The locals of Encode.
  pub record Encoder : Type 0 where
    pub inbuf : Buffer
    pub sink : Sink
    pub tree : Huffman
    pub window : Window
    pub len : ℕ
    pub r : ℕ
    pub s : ℕ

  -- A literal, or the length and position of a match.
  unfoldable pub encode_step : Encoder → Option Encoder
  encode_step e =
      let n = if ltb e.len e.window.match_length then e.len else e.window.match_length in
      let literal : Option Encoder = elim (encode_char (e.window.text_buf e.r) e.tree e.sink) [
        | none ↦ none
        | some (h, t) ↦
            some (record e { tree = h; sink = t; window = record (e.window) { match_length = 1 } })
      ] in
      let matched : Option Encoder = elim (encode_char (255 - threshold + n) e.tree e.sink) [
        | none ↦ none
        | some (h, t) ↦ elim (encode_position e.window.match_position t) [
          | none ↦ none
          | some t' ↦
              some
                (record e { tree = h; sink = t'; window = record (e.window) { match_length = n } })
        ]
      ] in
      if leb n threshold then literal else matched

  -- `DeleteNode(s); text_buf[s] = c; if (s < F - 1) text_buf[s + N] = c;`
  unfoldable pub replace_byte : ℕ → ℕ → Window → Window
  replace_byte s c w =
      let w₁ = delete_node s w in
      let text = store w₁.text_buf s (c % 256) in
      record w₁ {
        text_buf = if ltb s (lookahead - 1) then store text (s + window_size) (c % 256) else text;
      }

  -- The `for` loop over the next bytes of the input, at most `n`: the encoder behind it, and how many
  -- rounds are left.
  unfoldable pub shift_in : ℕ → Encoder → Option (Encoder × ℕ)
  shift_in zero e = some (e, 0)
  shift_in (suc n) e =
      let (c, inbuf') = iterchar e.inbuf in
      let r' = (e.r + 1) % window_size in
      elim c [
        | none ↦ some (record e { inbuf = inbuf' }, suc n)
        | some x ↦ elim (insert_node r' (replace_byte e.s x e.window)) [
          | none ↦ none
          | some w ↦
              shift_in n
                (record e { inbuf = inbuf'; window = w; s = (e.s + 1) % window_size; r = r' })
        ]
      ]

  -- `while (i++ < last_match_length)`, where no byte is left.
  unfoldable pub shift_out : ℕ → Encoder → Option Encoder
  shift_out zero e = some e
  shift_out (suc n) e =
      let r' = (e.r + 1) % window_size in
      let w = delete_node e.s e.window in
      let len' = e.len - 1 in
      let inserted : Option Window = if len' == 0 then some w else insert_node r' w in
      elim inserted [
        | none ↦ none
        | some w' ↦
            shift_out n (record e { window = w'; len = len'; s = (e.s + 1) % window_size; r = r' })
      ]

  unfoldable pub encode_round : Encoder → Option Encoder
  encode_round e = elim (encode_step e) [
    | none ↦ none
    | some e₁ ↦ elim (shift_in e₁.window.match_length e₁) [
      | none ↦ none
      | some (e₂, left) ↦ shift_out left e₂
    ]
  ]

  -- `do ... while (len > 0)`: every round takes a byte at least out of the window or the input.
  unfoldable pub encode_loop : ℕ → Encoder → Option Encoder
  encode_loop zero e = none
  encode_loop (suc fuel) e = elim (encode_round e) [
    | none ↦ none
    | some e' ↦ let rest = encode_loop fuel e' in if e'.len == 0 then some e' else rest
  ]

  -- `for (len = 0; len < F && (c = buffer_iterchar(inbuf)) != EOF; len++) text_buf[r + len] = c;`
  unfoldable pub load : ℕ → ℕ → ℕ → Array → Buffer → ℕ × Array × Buffer
  load zero r len text b = (len, text, b)
  load (suc n) r len text b =
      let (c, b') = iterchar b in
      elim c [
        | none ↦ (len, text, b')
        | some x ↦ load n r (len + 1) (store text (r + len) (x % 256)) b'
      ]

  -- `for (i = 1; i <= F; i++) InsertNode(r - i);` from the `i` given
  unfoldable pub insert_before : ℕ → ℕ → ℕ → Window → Option Window
  insert_before zero i r w = some w
  insert_before (suc n) i r w = elim (insert_node (r - i) w) [
    | none ↦ none
    | some w' ↦ insert_before n (suc i) r w'
  ]

  -- `textsize` in four bytes, lowest first
  unfoldable pub put_size : ℕ → ℕ → Sink → Option Sink
  put_size zero size s = some s
  put_size (suc n) size s =
      let (ok, s') = put_byte m (size % 256) s in
      let rest = put_size n (size / 256) s' in if ok then rest else none

  -- The window and the arrays of the tree that an earlier call has left.
  module _ (window : Window) (tree : Huffman) where
    -- From StartHuff on; `inbuf` has been rewound.
    unfoldable pub encode_text : Buffer → Sink → Option Sink
    encode_text inbuf sink =
        let w = init_tree window in
        let r = window_size - lookahead in
        let (len, text, inbuf') = load lookahead r 0 (store_range 0 r b' ' w.text_buf) inbuf in
        elim (insert_before lookahead 1 r (record w { text_buf = text })) [
          | none ↦ none
          | some w₁ ↦ elim (insert_node r w₁) [
            | none ↦ none
            | some w₂ ↦
                elim (encode_loop (suc inbuf.dlen) (record {
                  inbuf = inbuf';
                  sink = sink;
                  tree = start_huff tree;
                  window = w₂;
                  len = len;
                  r = r;
                  s = 0;
                })) [
                  | none ↦ none
                  | some e ↦ let (ok, t) = encode_end m e.sink in if ok then some t else none
                ]
          ]
        ]

    -- The output and its CRC. `codesize` is the total that an earlier call has left.
    unfoldable pub encode : ℕ → Buffer → Option Sink
    encode codesize inbuf =
        let size = inbuf.dlen % 2 ^ 32 in
        elim (new m) [
          | none ↦ none
          | some outbuf ↦
              elim (put_size 4 size (record {
                outbuf = outbuf;
                crc = 0;
                putbuf = 0;
                putlen = 0;
                codesize = codesize;
              })) [
                | none ↦ none
                | some s ↦
                    let text = encode_text (rewind inbuf) s in if size == 0 then some s else text
              ]
        ]

    -- `while ((c = buffer_iterchar(tmpoutbuf)) != EOF)`, with NULL where a byte finds no room.
    unfoldable pub copy_loop : ℕ → Buffer → Buffer → Option Buffer
    copy_loop zero b s = none
    copy_loop (suc fuel) b s =
        let (c, s') = iterchar s in
        elim c [
          | none ↦ some b
          | some x ↦
              let (ok, b') = addchar m b x in
              let rest = copy_loop fuel b' s' in if ok then rest else none
        ]

    -- The CRC in two bytes, lowest first, and the encoding behind it.
    unfoldable pub version_1_encode : ℕ → Buffer → Option Buffer
    version_1_encode codesize inbuf = elim (encode codesize inbuf) [
      | none ↦ none
      | some t ↦ elim (new m) [
        | none ↦ none
        | some outbuf ↦
            let (ok₁, b₁) = addchar m outbuf (t.crc % 256) in
            let (ok₂, b₂) = addchar m b₁ (t.crc / 256 % 256) in
            let rest = copy_loop (suc t.outbuf.dlen) b₂ (rewind t.outbuf) in
            if ok₁ then (if ok₂ then rest else none) else none
      ]
    ]
