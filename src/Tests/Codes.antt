-- ===== src/Tests/Codes.antt =====
-- Runs of lzhuf_1.c's tables and tree.
use Prim.Native.Nat.{bit_xor}
use paclink_unix.Common.{◌*◌, ◌%◌, ◌^◌, ◌≤◌, ◌<◌, ◌≡◌, refl, true, arith, ◌==◌, get_or}
use paclink_unix.Lzhuf.Tables.{crctab, d_code, d_len, p_len}
use paclink_unix.Lzhuf.Crc.{updcrc}
use paclink_unix.Lzhuf.Crc.Laws.{shift_steps, crctab_lem, updcrc_lem}
use paclink_unix.Lzhuf.Positions.{begins_code, positions_lem}
use paclink_unix.Lzhuf.Tree.Links.{IsLinked, update_node-IsLinked}
use paclink_unix.Lzhuf.Tree.{
  start_leaves, start_nodes, store, update_node, Huffman, start_huff, table_size,
}
use paclink_unix.Lzhuf.Start.{IsTree, IsTree-IsLinked, start_huff-IsTree}

crctab_lem_example : get_or crctab 200 0 ≡ shift_steps 8 51200
crctab_lem_example = crctab_lem 200 (omega arith)

updcrc_lem_example :
    (updcrc 7 4660 ≡ bit_xor 1192960 (shift_steps 8 (bit_xor 7 18 * 256)) % 2 ^ 16)
    × (updcrc 7 4660 < 2 ^ 16)
updcrc_lem_example = updcrc_lem 7 4660 (omega arith)

positions_lem_example :
    (begins_code 3 90 ≡ (get_or d_code 90 0 == 3))
    × (begins_code 3 90 ≡ true → get_or d_len 90 0 ≡ get_or p_len 3 0)
positions_lem_example = positions_lem 3 90 (omega arith) (omega arith)

-- The arrays before the first call, all zero
abbrev zeros : Huffman
zeros = record { freq = λ i. 0; prnt = λ i. 0; son = λ i. 0 }

start_huff-IsTree_example : IsTree (start_huff zeros)
start_huff-IsTree_example = start_huff-IsTree zeros

ones : (start_huff zeros).freq 5 ≡ 1
unfolding start_huff start_nodes start_leaves store
ones = refl

update_node-IsLinked_example :
    IsLinked (update_node 5 (start_huff zeros)).0
    × ((update_node 5 (start_huff zeros)).0.freq table_size ≡ 0xffff)
    × (5 ≤ (update_node 5 (start_huff zeros)).1)
    × ((update_node 5 (start_huff zeros)).1 < table_size)
update_node-IsLinked_example =
    update_node-IsLinked 5 (start_huff zeros)
      (IsTree-IsLinked (start_huff zeros) (start_huff-IsTree zeros)) (start_huff-IsTree zeros).mark
      (omega arith) (omega (arith, ones))
