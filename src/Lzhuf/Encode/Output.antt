-- ===== src/Lzhuf/Encode/Output.antt =====
-- lzhuf_1.c: what version_1_Encode returns.
use Prim.Native.Nat.{bit_or}
use paclink_unix.Common.{
  ℕ, zero, suc, ◌+◌, ◌-◌, ◌*◌, ◌/◌, ◌%◌, ◌^◌, ◌≤◌, ◌<◌, ◌≡◌, refl, sym, subst, inl, inr, Bool, true,
  false, Option, none, some, [], ◌∷◌, arith, ltb, leb, ◌==◌, if◌then◌else◌, Bool-cases,
  Option-cases, All, All-append, get_or,
}
use paclink_unix.Buffer.{Memory, Buffer, new, addchar, put, grow, iterchar, rewind}
use paclink_unix.Buffer.Contents.{IsValid, contents, new-IsValid}
use paclink_unix.Buffer.Write.{addchar-IsValid, contents-addchar}
use paclink_unix.Lzhuf.Bits.{Sink, put_byte, put_second, put_first, putcode, encode_end}
use paclink_unix.Lzhuf.Crc.{crc_fputc}
use paclink_unix.Lzhuf.Tables.{p_len, p_code}
use paclink_unix.Lzhuf.Tree.{Huffman, update, table_size, start_huff}
use paclink_unix.Lzhuf.Window.{
  Window, window_size, lookahead, threshold, store_range, init_tree, insert_node, delete_node,
}
use paclink_unix.Lzhuf.Encode.{
  climb, replace_byte, load, insert_before, encode_char, encode_position, Encoder, encode_step,
  shift_in, shift_out, encode_round, encode_loop, put_size, encode_text, encode, copy_loop,
  version_1_encode,
}

-- What holds of a result, if there is one
abbrev Each : {A : Type 0} → (A → Type 0) → Option A → Type 0
Each P none = Unit
Each P (some x) = P x

-- The next step of a chain of such results
Each-bind :
    {A B : Type 0} (Q : A → Type 0) (P : B → Type 0) (o : Option A) (f : A → Option B)
    → Each Q o
    → ((x : A) → Q x → Each P (f x))
    → Each P (elim o as (λ _. Option B) [ none ↦ none | some x ↦ f x ])
Each-bind Q P none f q k = tt
Each-bind Q P (some x) f q k = k x q

abbrev Any : {A : Type 0} → A → Type 0
Any x = Unit

Each-Any : {A : Type 0} (o : Option A) → Each Any o
Each-Any none = tt
Each-Any (some x) = tt

Each-if :
    {A : Type 0} (P : A → Type 0) (b : Bool) (o q : Option A)
    → Each P o
    → Each P q
    → Each P (if b then o else q)
Each-if P true o q h k = h
Each-if P false o q h k = k

Each-le :
    {A : Type 0} (P Q : A → Type 0) (o : Option A) → ((x : A) → P x → Q x) → Each P o → Each Q o
Each-le P Q none k h = tt
Each-le P Q (some x) k h = k x h

Each-and :
    {A : Type 0} (P Q : A → Type 0) (o : Option A) → Each P o → Each Q o → Each (λ x. P x × Q x) o
Each-and P Q none h k = tt
Each-and P Q (some x) h k = (h, k)

abbrev Grows : Sink → Sink → Type 0
Grows s t = s.outbuf.dlen ≤ t.outbuf.dlen

module _ (m : Memory) where
  addchar_grows : (b : Buffer) (c : ℕ) → b.dlen ≤ (addchar m b c).1.dlen
  unfolding addchar put grow
  addchar_grows b c = ground arith

  put_byte-Grows : (c : ℕ) (s : Sink) → Grows s (put_byte m c s).1
  unfolding put_byte crc_fputc
  put_byte-Grows c s = addchar_grows s.outbuf c

  put_second-Grows : (l c : ℕ) (s : Sink) → Grows s (put_second m l c s).1
  unfolding put_second
  put_second-Grows l c s = ground (arith, put_byte-Grows s.putbuf s)

  put_first-Grows : (l c : ℕ) (s : Sink) → Grows s (put_first m l c s).1
  unfolding put_first
  put_first-Grows l c s =
      let t = record ((put_byte m (s.putbuf / 2 ^ 8) s).1) { putlen = (s.putlen + 248) % 256 } in
      ground (arith, put_byte-Grows (s.putbuf / 2 ^ 8) s, put_second-Grows l c t)

  putcode-Grows : (l c : ℕ) (s : Sink) → Grows s (putcode m l c s).1
  unfolding putcode
  putcode-Grows l c s =
      let t = record s {
        putbuf = bit_or s.putbuf (c / 2 ^ s.putlen);
        putlen = (s.putlen + l) % 256;
      } in
      ground (arith, put_first-Grows l c t)

  encode_char-Grows :
      (c : ℕ) (h : Huffman) (s : Sink) → Each (λ p. Grows s p.1) (encode_char m c h s)
  unfolding encode_char
  encode_char-Grows c h s =
      Each-bind Any _ (climb table_size h.prnt (h.prnt (c + table_size)) 0 0) _ (Each-Any _)
        (λ p _. Each-bind Any _ (update c h) _ (Each-Any _) (λ h' _. putcode-Grows p.1 p.0 s))

  encode_position-Grows : (c : ℕ) (s : Sink) → Each (Grows s) (encode_position m c s)
  unfolding encode_position
  encode_position-Grows c s =
      let (ok₁, s₁) = putcode m (get_or p_len (c / 64) 0) (get_or p_code (c / 64) 0 * 2 ^ 8) s in
      let first = putcode-Grows (get_or p_len (c / 64) 0) (get_or p_code (c / 64) 0 * 2 ^ 8) s in
      let second = putcode-Grows 6 (c % 64 * 2 ^ 10) s₁ in
      Each-if (Grows s) ok₁ _ none (Each-if (Grows s) _ (some _) none (omega arith) tt) tt

  encode_step-Grows : (e : Encoder m) → Each (λ e'. Grows e.sink e'.sink) (encode_step m e)
  unfolding encode_step
  encode_step-Grows e =
      let n = if ltb e.len e.window.match_length then e.len else e.window.match_length in
      Each-if _ (leb n threshold) _ _
        (Each-bind _ _ (encode_char m (e.window.text_buf e.r) e.tree e.sink) _
          (encode_char-Grows (e.window.text_buf e.r) e.tree e.sink) (λ p l. l))
        (Each-bind _ _ (encode_char m (255 - threshold + n) e.tree e.sink) _
          (encode_char-Grows (255 - threshold + n) e.tree e.sink)
          (λ p l.
            Each-bind _ _ (encode_position m e.window.match_position p.1) _
              (encode_position-Grows e.window.match_position p.1) (λ t k. omega arith)))

  shift_in_keeps :
      (n : ℕ) (e : Encoder m)
      → Each (λ p. p.0.sink.outbuf.dlen ≡ e.sink.outbuf.dlen) (shift_in m n e)
  unfolding shift_in
  shift_in_keeps zero e = refl
  shift_in_keeps (suc n) e = by_byte (shift_in_keeps n) (iterchar e.inbuf).0
    where
      by_byte :
          ((e' : Encoder m)
            → Each
                (λ (p : Encoder m × ℕ). p.0.sink.outbuf.dlen ≡ e'.sink.outbuf.dlen)
                (shift_in m n e'))
          → (c : Option ℕ)
          → Each
              (λ (p : Encoder m × ℕ). p.0.sink.outbuf.dlen ≡ e.sink.outbuf.dlen)
              (elim c as (λ _. Option (Encoder m × ℕ)) [
                | none ↦ some (record e { inbuf = (iterchar e.inbuf).1 }, suc n)
                | some x ↦
                    elim (insert_node ((e.r + 1) % window_size) (replace_byte m e.s x e.window))
                      as (λ _. Option (Encoder m × ℕ)) [
                        | none ↦ none
                        | some w ↦ shift_in m n (record e {
                          inbuf = (iterchar e.inbuf).1;
                          window = w;
                          s = (e.s + 1) % window_size;
                          r = (e.r + 1) % window_size;
                        })
                      ]
              ])
      by_byte next none = refl
      by_byte next (some x) =
          Each-bind Any _ (insert_node ((e.r + 1) % window_size) (replace_byte m e.s x e.window)) _
            (Each-Any _) (λ w _. next _)

  shift_out_keeps :
      (n : ℕ) (e : Encoder m)
      → Each (λ e'. e'.sink.outbuf.dlen ≡ e.sink.outbuf.dlen) (shift_out m n e)
  unfolding shift_out
  shift_out_keeps zero e = refl
  shift_out_keeps (suc n) e =
      let w = delete_node e.s e.window in
      let inserted : Option Window =
        if e.len - 1 == 0 then some w else insert_node ((e.r + 1) % window_size) w in
      Each-bind Any _ inserted _ (Each-Any _) (λ w' _. shift_out_keeps n _)

  encode_round-Grows : (e : Encoder m) → Each (λ e'. Grows e.sink e'.sink) (encode_round m e)
  unfolding encode_round
  encode_round-Grows e = Each-bind _ _ (encode_step m e) _ (encode_step-Grows e) (λ e₁ l.
      Each-bind _ _ (shift_in m e₁.window.match_length e₁) _
        (shift_in_keeps e₁.window.match_length e₁)
        (λ p k. Each-le _ _ (shift_out m p.1 p.0) (λ e' j. omega arith) (shift_out_keeps p.1 p.0)))

  encode_loop-Grows :
      (fuel : ℕ) (e : Encoder m) → Each (λ e'. Grows e.sink e'.sink) (encode_loop m fuel e)
  unfolding encode_loop
  encode_loop-Grows zero e = tt
  encode_loop-Grows (suc fuel) e =
      Each-bind _ _ (encode_round m e) _ (encode_round-Grows e) (λ e' l.
        Each-if _ (e'.len == 0) (some e') _ l
          (Each-le _ _ (encode_loop m fuel e') (λ e'' k. omega arith) (encode_loop-Grows fuel e')))

  encode_end-Grows : (s : Sink) → Grows s (encode_end m s).1
  unfolding encode_end
  encode_end-Grows s = ground (arith, put_byte-Grows (s.putbuf / 2 ^ 8) s)

  -- The size takes a byte each time.
  put_byte_one :
      (c : ℕ) (s : Sink)
      → (put_byte m c s).0 ≡ true
      → (put_byte m c s).1.outbuf.dlen ≡ s.outbuf.dlen + 1
  unfolding put_byte crc_fputc addchar put grow
  put_byte_one c s h = ground arith

  put_size_lem :
      (n size : ℕ) (s : Sink) → Each (λ t. t.outbuf.dlen ≡ s.outbuf.dlen + n) (put_size m n size s)
  unfolding put_size
  put_size_lem zero size s = omega arith
  put_size_lem (suc n) size s = elim (Bool-cases (put_byte m (size % 256) s).0) [
    | inl kept ↦
        rw (kept, put_size)
          (Each-le _ _ (put_size m n (size / 256) (put_byte m (size % 256) s).1)
            (λ t e. omega (arith, put_byte_one (size % 256) s kept))
            (put_size_lem n (size / 256) (put_byte m (size % 256) s).1))
    | inr lost ↦ rw (lost, put_size) tt
  ]

  encode_text-Grows :
      (window : Window) (tree : Huffman) (inbuf : Buffer) (sink : Sink)
      → Each (Grows sink) (encode_text m window tree inbuf sink)
  unfolding encode_text
  encode_text-Grows window tree inbuf sink =
      let w = init_tree window in
      let r = window_size - lookahead in
      let (len, text, inbuf') = load m lookahead r 0 (store_range 0 r b' ' w.text_buf) inbuf in
      Each-bind Any (Grows sink) (insert_before m lookahead 1 r (record w { text_buf = text })) _
        (Each-Any (insert_before m lookahead 1 r (record w { text_buf = text })))
        (λ w₁ _.
          Each-bind Any (Grows sink) (insert_node r w₁) _ (Each-Any (insert_node r w₁)) (λ w₂ _.
            (let e₀ : Encoder m = record {
              inbuf = inbuf';
              sink = sink;
              tree = start_huff tree;
              window = w₂;
              len = len;
              r = r;
              s = 0;
            } in
              Each-bind (λ (e : Encoder m). Grows sink e.sink) (Grows sink)
                (encode_loop m (suc inbuf.dlen) e₀) _ (encode_loop-Grows (suc inbuf.dlen) e₀)
                (λ e l.
                  Each-if (Grows sink) (encode_end m e.sink).0 (some (encode_end m e.sink).1) none
                    (omega (arith, encode_end-Grows e.sink)) tt))))

  encode_long :
      (window : Window) (tree : Huffman) (codesize : ℕ) (inbuf : Buffer)
      → Each (λ t. 4 ≤ t.outbuf.dlen) (encode m window tree codesize inbuf)
  unfolding encode
  encode_long window tree codesize inbuf =
      let size = inbuf.dlen % 2 ^ 32 in
      let long : Sink → Type 0 = λ t. 4 ≤ t.outbuf.dlen in
      Each-bind Any long (new m) _ (Each-Any (new m)) (λ outbuf _.
        (let s₀ : Sink = record {
          outbuf = outbuf;
          crc = 0;
          putbuf = 0;
          putlen = 0;
          codesize = codesize;
        } in
          Each-bind (λ (t : Sink). t.outbuf.dlen ≡ outbuf.dlen + 4) long (put_size m 4 size s₀) _
            (put_size_lem 4 size s₀)
            (λ s e.
              Each-if long (size == 0) (some s) (encode_text m window tree (rewind inbuf) s)
                (omega arith)
                (Each-le (Grows s) long (encode_text m window tree (rewind inbuf) s)
                  (λ t l. omega arith) (encode_text-Grows window tree (rewind inbuf) s)))))

  addchar_one :
      (b : Buffer) (c : ℕ) → (addchar m b c).0 ≡ true → (addchar m b c).1.dlen ≡ b.dlen + 1
  unfolding addchar put grow
  addchar_one b c h = ground arith

  -- A valid buffer of bytes
  abbrev IsGood : Buffer → Type 0
  IsGood b = IsValid b × All (λ c. c < 256) (contents b)

  addchar-IsGood :
      (b : Buffer) (c : ℕ)
      → (addchar m b c).0 ≡ true
      → b.dlen + 1 < 2 ^ 32
      → IsGood b
      → IsGood (addchar m b c).1
  addchar-IsGood b c kept small (valid, bytes) = (
    addchar-IsValid m b c valid small,
    subst (All (λ d. d < 256)) (sym (rw kept at (contents-addchar m b c valid)))
        (All-append (λ d. d < 256) (contents b) (c % 256 ∷ []) bytes (omega arith, tt)),
  )

  -- What the results of the copying loop are like
  abbrev Copies : Buffer → Buffer → Type 0
  Copies b c = (b.dlen ≤ c.dlen) × (c.dlen < 2 ^ 32 → IsGood b → IsGood c)

  Copies-then :
      (b : Buffer) (x : ℕ) (c : Buffer)
      → (addchar m b x).0 ≡ true
      → Copies (addchar m b x).1 c
      → (b.dlen + 1 ≤ c.dlen) × (c.dlen < 2 ^ 32 → IsGood b → IsGood c)
  Copies-then b x c kept (l, k) =
      let one = addchar_one b x kept in
      (omega arith, λ small good. k small (addchar-IsGood b x kept (omega arith) good))

  module _ (window : Window) (tree : Huffman) where
    copy_loop-Copies :
        (fuel : ℕ) (b s : Buffer) → Each (Copies b) (copy_loop m window tree fuel b s)
    unfolding copy_loop
    copy_loop-Copies zero b s = tt
    copy_loop-Copies (suc fuel) b s = elim (Option-cases (iterchar s).0) [
      | inl end ↦ rw (end, copy_loop) (omega arith, λ small good. good)
      | inr (x, more) ↦ elim (Bool-cases (addchar m b x).0) [
        | inl kept ↦
            rw (more, copy_loop)
              (rw kept (
                Each-le _ _ (copy_loop m window tree fuel (addchar m b x).1 (iterchar s).1)
                  (λ c k. let (l, g) = Copies-then b x c kept k in (omega arith, g))
                  (copy_loop-Copies fuel (addchar m b x).1 (iterchar s).1)))
        | inr lost ↦ rw (more, copy_loop) (rw lost tt)
      ]
    ]

    iterchar_reads :
        (s : Buffer)
        → s.i < s.dlen
        → s.i + 1 < 2 ^ 32
        → (x : ℕ) × ((iterchar s).0 ≡ some x)
          × ((iterchar s).1.i ≡ s.i + 1)
          × ((iterchar s).1.dlen ≡ s.dlen)
    unfolding iterchar
    iterchar_reads s l h =
        let inside : leb s.dlen s.i ≡ false = ground arith in
        rw (inside, iterchar) (get_or s.block s.i 0, refl, omega arith, refl)

    copy_loop_long :
        (k fuel : ℕ) (b s : Buffer)
        → s.i + k ≤ s.dlen
        → s.i + k < 2 ^ 32
        → Each (λ c. b.dlen + k ≤ c.dlen) (copy_loop m window tree fuel b s)
    unfolding copy_loop
    copy_loop_long zero fuel b s l h =
        Each-le _ _ (copy_loop m window tree fuel b s) (λ c k. omega (arith, k.0))
          (copy_loop-Copies fuel b s)
    copy_loop_long (suc k) zero b s l h = tt
    copy_loop_long (suc k) (suc fuel) b s l h =
        let (x, more, next, same) = iterchar_reads s (omega arith) (omega arith) in
        elim (Bool-cases (addchar m b x).0) [
          | inl kept ↦
              let one = addchar_one b x kept in
              rw (more, copy_loop)
                (rw kept (
                  Each-le _ _ (copy_loop m window tree fuel (addchar m b x).1 (iterchar s).1)
                    (λ c j. omega arith)
                    (copy_loop_long k fuel (addchar m b x).1 (iterchar s).1 (omega arith)
                      (omega arith))))
          | inr lost ↦ rw (more, copy_loop) (rw lost tt)
        ]

    version_1_encode-Copies :
        (codesize : ℕ) (inbuf : Buffer)
        → Each
            (λ c. (6 ≤ c.dlen) × (c.dlen < 2 ^ 32 → IsGood c))
            (version_1_encode m window tree codesize inbuf)
    unfolding version_1_encode rewind
    version_1_encode-Copies codesize inbuf =
        Each-bind {A = Sink} (λ (t : Sink). 4 ≤ t.outbuf.dlen) _ _ _
          (encode_long window tree codesize inbuf) (λ (t : Sink) four. by_new t four (new m) refl)
      where
        by_new :
            (t : Sink)
            → 4 ≤ t.outbuf.dlen
            → (o : Option Buffer) → new m ≡ o
            → Each
                (λ (c : Buffer). (6 ≤ c.dlen) × (c.dlen < 2 ^ 32 → IsGood c))
                (elim o as (λ _. Option Buffer) [
                  | none ↦ none
                  | some outbuf ↦
                      (let (ok₁, b₁) = addchar m outbuf (t.crc % 256) in
                        let (ok₂, b₂) = addchar m b₁ (t.crc / 256 % 256) in
                        let rest =
                          copy_loop m window tree (suc t.outbuf.dlen) b₂ (rewind t.outbuf) in
                        if ok₁ then (if ok₂ then rest else none) else none)
                ])
        by_new t four none h = tt
        by_new t four (some b) h = elim (Bool-cases (addchar m b (t.crc % 256)).0) [
          | inr lost ↦ rw lost tt
          | inl kept ↦
              let b₁ = (addchar m b (t.crc % 256)).1 in
              elim (Bool-cases (addchar m b₁ (t.crc / 256 % 256)).0) [
                | inr lost ↦ rw (kept, lost) tt
                | inl kept₁ ↦
                    let b₂ = (addchar m b₁ (t.crc / 256 % 256)).1 in
                    let (valid, empty, start) = new-IsValid m h in
                    let fresh : IsGood b = (valid, rw empty tt) in
                    rw (kept, kept₁)
                      (Each-and _ _
                        (copy_loop m window tree (suc t.outbuf.dlen) b₂ (rewind t.outbuf))
                        (Each-le _ _
                          (copy_loop m window tree (suc t.outbuf.dlen) b₂ (rewind t.outbuf))
                          (λ c l. omega (
                            arith,
                            addchar_one b (t.crc % 256) kept,
                            addchar_one b₁ (t.crc / 256 % 256) kept₁,
                          ))
                          (copy_loop_long 4 (suc t.outbuf.dlen) b₂ (rewind t.outbuf) four
                            (omega arith)))
                        (Each-le _ _
                          (copy_loop m window tree (suc t.outbuf.dlen) b₂ (rewind t.outbuf))
                          (λ c k small.
                            (let (l₂, g₂) = Copies-then b₁ (t.crc / 256 % 256) c kept₁ k in
                              let (l₁, g₁) = Copies-then b (t.crc % 256) c kept (omega arith, g₂) in
                              g₁ small fresh))
                          (copy_loop-Copies (suc t.outbuf.dlen) b₂ (rewind t.outbuf))))
              ]
        ]

    -- What version_1_Encode returns, whatever text, memory and statics it is given, has at least
    -- six bytes, and if it has fewer than 2 ^ 32, it is a valid buffer of bytes below 256.
    pub version_1_encode-IsValid :
        (codesize : ℕ) (inbuf c : Buffer)
        → version_1_encode m window tree codesize inbuf ≡ some c
        → c.dlen < 2 ^ 32
        → IsValid c × (6 ≤ c.dlen) × All (λ x. x < 256) (contents c)
    version_1_encode-IsValid codesize inbuf c h small =
        let (six, good) =
          subst (Each (λ c. (6 ≤ c.dlen) × (c.dlen < 2 ^ 32 → IsGood c))) h
            (version_1_encode-Copies codesize inbuf) in
        ((good small).0, six, (good small).1)
