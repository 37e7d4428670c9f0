-- ===== src/Lzhuf/Window.antt =====
-- lzhuf_1.c: the window of the last bytes, and the search trees over its positions.
use paclink_unix.Common.{
  ℕ, zero, suc, ◌+◌, ◌-◌, ◌%◌, ◌^◌, Bool, true, ◌&&◌, Option, none, some, ltb, leb, ◌==◌,
  if◌then◌else◌,
}
use paclink_unix.Lzhuf.Tree.{Array, store}

-- N, F, THRESHOLD, NIL and RSONSZE
abbrev pub window_size : ℕ
window_size = 2048

abbrev pub lookahead : ℕ
lookahead = 60

abbrev pub threshold : ℕ
threshold = 2

abbrev pub nil : ℕ
nil = window_size

abbrev pub rson_size : ℕ
rson_size = window_size + 257

-- `match_position` is unsigned; the links are indices, with `nil` for none.
pub record Window : Type 0 where
  pub text_buf : Array
  pub lson : Array
  pub rson : Array
  pub dad : Array
  pub match_position : ℕ
  pub match_length : ℕ

-- `for (i = lo; i < hi; i++) a[i] = v;`
unfoldable pub store_range : ℕ → ℕ → ℕ → Array → Array
store_range lo hi v a = λ i. if leb lo i && ltb i hi then v else a i

unfoldable pub init_tree : Window → Window
init_tree w = record w {
  rson = store_range (window_size + 1) (rson_size + 1) nil w.rson;
  dad = store_range 0 window_size nil w.dad;
}

-- `for (i = from; i < F; i++) if ((cmp = key[i] - text_buf[p + i]) != 0) break;` by the rounds left:
-- the final `i`, and whether the final `cmp` is at least 0.
unfoldable pub compare_from : ℕ → Array → ℕ → ℕ → ℕ → Bool → ℕ × Bool
compare_from zero text key p i at_least = (i, at_least)
compare_from (suc n) text key p i at_least =
    let a = text (key + i) in
    let b = text (p + i) in
    let rest = compare_from n text key p (suc i) true in if a == b then rest else (i, leb b a)

-- `((r - p) & (N - 1)) - 1`, as an unsigned number
unfoldable pub distance : ℕ → ℕ → ℕ
distance r p = ((r + window_size - p) % window_size + 2 ^ 32 - 1) % 2 ^ 32

-- The two tests on a match of length `i` at `p`, without the break.
unfoldable pub note_match : ℕ → ℕ → ℕ → Window → Window
note_match r p i w =
    let longer =
      if ltb w.match_length i
      then record w { match_position = distance r p; match_length = i }
      else w in
    let nearer =
      if (i == longer.match_length) && ltb (distance r p) longer.match_position
      then record longer { match_position = distance r p }
      else longer in
    if ltb threshold i then nearer else w

-- `r` takes the place of `p` in the tree.
unfoldable pub replace_node : ℕ → ℕ → Window → Window
replace_node r p w =
    let dad₁ = store w.dad r (w.dad p) in
    let lson₁ = store w.lson r (w.lson p) in
    let rson₁ = store w.rson r (w.rson p) in
    let dad₂ = store dad₁ (lson₁ p) r in
    let dad₃ = store dad₂ (rson₁ p) r in
    let right = rson₁ (dad₃ p) == p in
    record w {
      lson = if right then lson₁ else store lson₁ (dad₃ p) r;
      rson = if right then store rson₁ (dad₃ p) r else rson₁;
      dad = store dad₃ p nil;
    }

-- The `for ( ; ; )` of InsertNode at the node `p`, with the sign of the last comparison. `none` is a
-- descent longer than the tree has nodes. A match of full length breaks, before the second test.
unfoldable pub insert_loop : ℕ → ℕ → ℕ → Bool → Window → Option Window
insert_loop zero r p right w = none
insert_loop (suc fuel) r p right w =
    let child = if right then w.rson p else w.lson p in
    let hang =
      if right
      then record w { rson = store w.rson p r; dad = store w.dad r p }
      else record w { lson = store w.lson p r; dad = store w.dad r p } in
    let (i, right') = compare_from (lookahead - 1) w.text_buf r child 1 right in
    let full = record w { match_position = distance r child; match_length = i } in
    let more = insert_loop fuel r child right' (note_match r child i w) in
    if child == nil
    then some hang
    else (if ltb w.match_length i && leb lookahead i
        then some (replace_node r child full)
        else more)

unfoldable pub insert_node : ℕ → Window → Option Window
insert_node r w =
    insert_loop (window_size + 1) r (window_size + 1 + w.text_buf r) true
      (record w { rson = store w.rson r nil; lson = store w.lson r nil; match_length = 0 })

-- `do { q = rson[q]; } while (rson[q] != NIL);` by rounds: the tree has no more than N nodes.
unfoldable pub rightmost : ℕ → Array → ℕ → ℕ
rightmost zero rson q = q
rightmost (suc n) rson q = let rest = rightmost n rson (rson q) in if rson q == nil then q else rest

-- The rightmost node below the left child of `p` is taken out and gets that child for its own.
unfoldable pub lift_rightmost : ℕ → ℕ → Window → Window
lift_rightmost p q w =
    let rson₁ = store w.rson (w.dad q) (w.lson q) in
    let dad₁ = store w.dad (w.lson q) (w.dad q) in
    let lson₁ = store w.lson q (w.lson p) in
    record w { rson = rson₁; lson = lson₁; dad = store dad₁ (lson₁ p) q }

-- The right subtree of `p` goes below `q`, which takes the place of `p`.
unfoldable pub take_right : ℕ → ℕ → Window → Window
take_right p q w =
    let rson₁ = store w.rson q (w.rson p) in
    record w { rson = rson₁; dad = store w.dad (rson₁ p) q }

unfoldable pub relink : ℕ → ℕ → Window → Window
relink p q w =
    let dad₁ = store w.dad q (w.dad p) in
    let right = w.rson (dad₁ p) == p in
    record w {
      rson = if right then store w.rson (dad₁ p) q else w.rson;
      lson = if right then w.lson else store w.lson (dad₁ p) q;
      dad = store dad₁ p nil;
    }

unfoldable pub delete_node : ℕ → Window → Window
delete_node p w =
    let left = w.lson p in
    let deep = rightmost window_size w.rson left in
    let both =
      if w.rson left == nil
      then relink p left (take_right p left w)
      else relink p deep (take_right p deep (lift_rightmost p deep w)) in
    if w.dad p == nil
    then w
    else (if w.rson p == nil
        then relink p left w
        else (if left == nil then relink p (w.rson p) w else both))
