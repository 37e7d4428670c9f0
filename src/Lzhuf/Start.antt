-- ===== src/Lzhuf/Start.antt =====
-- lzhuf_1.c: what makes the three arrays a Huffman tree, and the tree that StartHuff sets up.
use paclink_unix.Common.{
  ℕ, zero, suc, ◌+◌, ◌-◌, ◌/◌, ◌%◌, ◌≤◌, ◌<◌, ◌≡◌, refl, ◌⊎◌, inl, inr, Bool, true, false, not,
  ◌&&◌, ◌||◌, some, arith, ltb, leb, ◌==◌, if◌then◌else◌, Bool-cases, all_below, all_below_sound,
}
use paclink_unix.Lzhuf.Tree.{
  Huffman, start_leaves, start_nodes, start_huff, table_size, root, n_char, store,
}
use paclink_unix.Lzhuf.Tree.Links.{IsLinked}
use paclink_unix.Lzhuf.Encode.{climb}

-- The node at place `i`: its sons are a leaf, or two neighbours further down, and know it as their
-- parent; its frequency is the sum of theirs; the next place is no smaller; and below the root it is
-- a son of its own parent, which stands further up.
pub record IsNode (h : Huffman) (i : ℕ) : Type 0 where
  pub link : h.prnt (h.son i) ≡ i
  pub sons :
      (suc (h.son i) < i)
        × (h.prnt (suc (h.son i)) ≡ i)
        × (h.freq i ≡ h.freq (h.son i) + h.freq (suc (h.son i)))
      ⊎ (table_size ≤ h.son i) × (h.son i < table_size + n_char)
  pub sorted : h.freq i ≤ h.freq (suc i)
  pub parent :
      i < root
      → (i < h.prnt i) × (h.prnt i ≤ root) × ((h.son (h.prnt i) ≡ i) ⊎ (suc (h.son (h.prnt i)) ≡ i))

pub record IsTree (h : Huffman) : Type 0 where
  pub nodes : (i : ℕ) → i < table_size → IsNode h i
  pub leaves :
      (c : ℕ)
      → c < n_char
      → (h.prnt (c + table_size) < root) × (h.son (h.prnt (c + table_size)) ≡ c + table_size)
  pub top : h.prnt root ≡ 0
  pub mark : h.freq table_size ≡ 0xffff

node_ok : Huffman → ℕ → Bool
node_ok h i =
    let k = h.son i in
    let up = h.prnt i in
    (h.prnt k == i)
    && ((ltb (suc k) i && ((h.prnt (suc k) == i) && (h.freq i == h.freq k + h.freq (suc k)))
          || leb table_size k && ltb k (table_size + n_char))
        && (leb (h.freq i) (h.freq (suc i))
            && (not (ltb i root)
                || (ltb i up && (leb up root && ((h.son up == i) || (suc (h.son up) == i)))))))

leaf_ok : Huffman → ℕ → Bool
leaf_ok h c =
    ltb (h.prnt (c + table_size)) root && (h.son (h.prnt (c + table_size)) == c + table_size)

start_checked :
    (h : Huffman)
    → ((all_below 627 (node_ok (start_huff h)) ≡ true)
        × (all_below 314 (leaf_ok (start_huff h)) ≡ true))
      × (((start_huff h).prnt root ≡ 0) × ((start_huff h).freq table_size ≡ 0xffff))
unfolding node_ok leaf_ok start_huff start_nodes start_leaves store
start_checked h = ((refl, refl), (refl, refl))

node_ok-IsNode : (h : Huffman) (i : ℕ) → node_ok h i ≡ true → IsNode h i
unfolding node_ok
node_ok-IsNode h i e = record {
  link = ground (arith, e);
  sons = ground (arith, e);
  sorted = ground (arith, e);
  parent = λ l. ground (arith, e);
}

leaf_ok_lem :
    (h : Huffman) (c : ℕ)
    → leaf_ok h c ≡ true
    → (h.prnt (c + table_size) < root) × (h.son (h.prnt (c + table_size)) ≡ c + table_size)
unfolding leaf_ok
leaf_ok_lem h c e = ground (arith, e)

-- Whatever an earlier call has left in the arrays, StartHuff makes them a Huffman tree: sons and
-- parents agree, the frequencies are sums and are sorted, and every character has a leaf.
pub start_huff-IsTree : (h : Huffman) → IsTree (start_huff h)
start_huff-IsTree h =
    let ((nodes_ok, leaves_ok), (top, mark)) = start_checked h in
    record {
      nodes = λ i l.
          node_ok-IsNode (start_huff h) i
            (all_below_sound 627 (node_ok (start_huff h)) i nodes_ok l);
      leaves = λ c l.
          leaf_ok_lem (start_huff h) c (all_below_sound 314 (leaf_ok (start_huff h)) c leaves_ok l);
      top = top;
      mark = mark;
    }

-- In a Huffman tree the links are in step.
pub IsTree-IsLinked : (h : Huffman) → IsTree h → IsLinked h
IsTree-IsLinked h t = record {
  link = λ i l. (t.nodes i l).link;
  twin = λ i l inside. twin i l inside (t.nodes i l).sons;
}
  where
    twin :
        (i : ℕ)
        → i < table_size
        → h.son i < table_size
        → (suc (h.son i) < i)
            × (h.prnt (suc (h.son i)) ≡ i)
            × (h.freq i ≡ h.freq (h.son i) + h.freq (suc (h.son i)))
          ⊎ (table_size ≤ h.son i) × (h.son i < table_size + n_char)
        → h.prnt (suc (h.son i)) ≡ i
    twin i l inside (inl node) = node.1
    twin i l inside (inr leaf) = absurd (omega arith)

climb_ends :
    (h : Huffman)
    → IsTree h
    → (fuel k i j : ℕ) → k < root
    → root ≤ k + fuel
    → (code len : ℕ) × (climb fuel h.prnt k i j ≡ some (code, len))
      × (j < len)
      × (len ≤ j + (root - k))
unfolding climb
climb_ends h t zero k i j l f = absurd (omega arith)
climb_ends h t (suc fuel) k i j l f =
    let (higher, inside, _) = (t.nodes k (omega arith)).parent l in
    let up = h.prnt k in
    let i' = if k % 2 == 1 then i / 2 + 0x8000 else i / 2 in
    let moves : (k == up) ≡ false = ground arith in
    elim (Bool-cases (up == root)) [
      | inl there ↦ (i', j + 1, rw (moves, there, climb), omega arith, omega arith)
      | inr below ↦
          let lower : up < root = ground arith in
          let (code, len, run, more, short) =
            climb_ends h t fuel up i' (j + 1) lower (omega arith) in
          (code, len, rw (moves, below, climb) run, omega arith, omega arith)
    ]

-- In a Huffman tree the climb of EncodeChar from the leaf of any character reaches the root within
-- the table's size, so that the error "input file too big" does not occur.
pub climb-IsTree :
    (h : Huffman) (c : ℕ)
    → IsTree h
    → c < n_char
    → (code len : ℕ) × (climb table_size h.prnt (h.prnt (c + table_size)) 0 0 ≡ some (code, len))
      × (0 < len)
      × (len ≤ root)
climb-IsTree h c t l =
    let (code, len, run, some_bits, short) =
      climb_ends h t table_size (h.prnt (c + table_size)) 0 0 (t.leaves c l).0 (omega arith) in
    (code, len, run, some_bits, omega arith)
