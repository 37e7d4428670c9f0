-- ===== src/Lzhuf/Tree.antt =====
-- lzhuf_1.c: the adaptive Huffman tree, its setting up, rebuilding and updating.
pub mod Links
use paclink_unix.Common.{
  ℕ, zero, suc, ◌+◌, ◌-◌, ◌/◌, ◌%◌, ◌^◌, ◌&&◌, Option, none, some, ltb, leb, ◌==◌, if◌then◌else◌,
}

abbrev pub n_char : ℕ
n_char = 314

-- T, the size of the table, and R, the position of the root
abbrev pub table_size : ℕ
table_size = 627

abbrev pub root : ℕ
root = 626

abbrev pub max_freq : ℕ
max_freq = 0x8000

-- A C array, as the value at each index, and an assignment to one element.
abbrev pub Array : Type 0
Array = ℕ → ℕ

unfoldable pub store : Array → ℕ → ℕ → Array
store a i v = λ j. if j == i then v else a j

-- `freq` holds unsigned numbers of 32 bits; `prnt` and `son` hold indices.
pub record Huffman : Type 0 where
  pub freq : Array
  pub prnt : Array
  pub son : Array

-- The leaves: `for (i = 0; i < N_CHAR; i++)`, by the rounds left.
unfoldable pub start_leaves : ℕ → ℕ → Huffman → Huffman
start_leaves zero i h = h
start_leaves (suc n) i h = start_leaves n (suc i) (record {
  freq = store h.freq i 1;
  son = store h.son i (i + table_size);
  prnt = store h.prnt (i + table_size) i;
})

-- The inner nodes: `while (j <= R)`, by the rounds left.
unfoldable pub start_nodes : ℕ → ℕ → ℕ → Huffman → Huffman
start_nodes zero i j h = h
start_nodes (suc n) i j h = start_nodes n (i + 2) (suc j) (record {
  freq = store h.freq j ((h.freq i + h.freq (i + 1)) % 2 ^ 32);
  son = store h.son j i;
  prnt = store (store h.prnt (i + 1) j) i j;
})

unfoldable pub start_huff : Huffman → Huffman
start_huff h =
    let leaves = start_leaves n_char 0 h in
    let nodes = start_nodes (table_size - n_char) 0 n_char leaves in
    record nodes { freq = store nodes.freq table_size 0xffff; prnt = store nodes.prnt root 0 }

-- reconst, first part: the leaves move to the front, with half their frequency. `j` counts them.
unfoldable pub collect_leaves : ℕ → ℕ → ℕ → Huffman → Huffman
collect_leaves zero i j h = h
collect_leaves (suc n) i j h =
    let is_leaf = leb table_size (h.son i) in
    let moved = record h {
      freq = store h.freq j ((h.freq i + 1) % 2 ^ 32 / 2);
      son = store h.son j (h.son i);
    } in
    collect_leaves n (suc i) (if is_leaf then suc j else j) (if is_leaf then moved else h)

-- `for (k = j - 1; first < freq[k]; k--); k++;` from the k given. Below index 0 the search ends too.
unfoldable pub search_down : ℕ → Array → ℕ → ℕ
search_down first freq zero = if ltb first (freq 0) then 0 else 1
search_down first freq (suc k) =
    let rest = search_down first freq k in if ltb first (freq (suc k)) then rest else suc (suc k)

-- `memmove(&a[k + 1], &a[k], last)` with `last` for `j - k` elements, then `a[k] = v`
unfoldable pub insert_at : ℕ → ℕ → ℕ → Array → Array
insert_at k j v a = λ x. if x == k then v else (if ltb k x && leb x j then a (x - 1) else a x)

-- second part: `for (i = 0, j = N_CHAR; j < T; i += 2, j++)`
unfoldable pub connect_sons : ℕ → ℕ → ℕ → Huffman → Huffman
connect_sons zero i j h = h
connect_sons (suc n) i j h =
    let first = (h.freq i + h.freq (i + 1)) % 2 ^ 32 in
    let freq' = store h.freq j first in
    let k = search_down first freq' (j - 1) in
    connect_sons n (i + 2) (suc j)
      (record h { freq = insert_at k j first freq'; son = insert_at k j i h.son })

-- third part: `for (i = 0; i < T; i++)`
unfoldable pub connect_prnt : ℕ → ℕ → Huffman → Huffman
connect_prnt zero i h = h
connect_prnt (suc n) i h =
    let k = h.son i in
    connect_prnt n (suc i) (record h {
      prnt = if leb table_size k then store h.prnt k i else store (store h.prnt (k + 1) i) k i;
    })

unfoldable pub reconst : Huffman → Huffman
reconst h =
    connect_prnt table_size 0
      (connect_sons (table_size - n_char) 0 n_char (collect_leaves table_size 0 0 h))

-- `while (k > freq[++l]); l--;`: the last place from `l` on whose successor is not below `k`. The
-- mark at the end of `freq` stops the search, within as many rounds as the table has places.
unfoldable pub search_up : ℕ → ℕ → Array → ℕ → ℕ
search_up zero k freq l = l
search_up (suc n) k freq l =
    let rest = search_up n k freq (suc l) in if ltb (freq (suc l)) k then rest else l

-- `prnt[i] = l; if (i < T) prnt[i + 1] = l;`
unfoldable pub adopt : ℕ → ℕ → Array → Array
adopt i l prnt = let one = store prnt i l in if ltb i table_size then store one (i + 1) l else one

-- The exchange of the nodes `c` and `l`, where `k` is the new frequency of `c`.
unfoldable pub exchange : ℕ → ℕ → ℕ → Huffman → Huffman
exchange c l k h =
    let i = h.son c in
    let j = h.son l in
    record {
      freq = store (store h.freq c (h.freq l)) l k;
      prnt = adopt j c (adopt i l h.prnt);
      son = store (store h.son l i) c j;
    }

-- A round of update's loop at the node `c`: the new tree, and the node where `c` has come to stand.
unfoldable pub update_node : ℕ → Huffman → Huffman × ℕ
update_node c h =
    let k = (h.freq c + 1) % 2 ^ 32 in
    let h' = record h { freq = store h.freq c k } in
    let l = search_up table_size k h'.freq (c + 1) in
    if ltb (h'.freq (c + 1)) k then (exchange c l k h', l) else (h', c)

-- `do ... while ((c = prnt[c]) != 0)`; `none` is a climb longer than the table.
unfoldable pub update_loop : ℕ → ℕ → Huffman → Option Huffman
update_loop zero c h = none
update_loop (suc fuel) c h =
    let (h', c') = update_node c h in
    let up = h'.prnt c' in let more = update_loop fuel up h' in if up == 0 then some h' else more

unfoldable pub update : ℕ → Huffman → Option Huffman
update c h =
    let h' = if h.freq root == max_freq then reconst h else h in
    update_loop table_size (h'.prnt (c + table_size)) h'
