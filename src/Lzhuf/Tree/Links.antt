-- ===== src/Lzhuf/Tree/Links.antt =====
-- lzhuf_1.c: sons and parents in update, and the exchange of two nodes.
use paclink_unix.Common.{
  ℕ, zero, suc, ◌+◌, ◌%◌, ◌^◌, ◌≤◌, ◌<◌, ◌≡◌, sym, ap, subst, ◌∙◌, ◌≢◌, inl, inr, true, arith, ltb,
  ◌==◌, Bool-cases, ==_iff,
}
use paclink_unix.Lzhuf.Tree.{
  Array, Huffman, store, adopt, exchange, search_up, update_node, table_size, root,
}

-- Every node is the parent of its son, and of the next node too where that son is not a leaf.
pub record IsLinked (h : Huffman) : Type 0 where
  pub link : (i : ℕ) → i < table_size → h.prnt (h.son i) ≡ i
  pub twin : (i : ℕ) → i < table_size → h.son i < table_size → h.prnt (suc (h.son i)) ≡ i

-- The same at one node.
abbrev LinkedAt : Huffman → ℕ → Type 0
LinkedAt h i = (h.prnt (h.son i) ≡ i) × (h.son i < table_size → h.prnt (suc (h.son i)) ≡ i)

LinkedAt-son :
    (h : Huffman) (i y : ℕ)
    → h.son i ≡ y
    → h.prnt y ≡ i
    → (y < table_size → h.prnt (suc y) ≡ i)
    → LinkedAt h i
LinkedAt-son h i y e p t =
    subst (λ z. (h.prnt z ≡ i) × (z < table_size → h.prnt (suc z) ≡ i)) (sym e) (p, t)

-- Different parents have different sons.
apart : (prnt : Array) (a b u v : ℕ) → prnt a ≡ u → prnt b ≡ v → u ≢ v → a ≢ b
apart prnt a b u v p q ne e = ne (sym p ∙ ap prnt e ∙ q)

adopt_here : (i l : ℕ) (prnt : Array) → adopt i l prnt i ≡ l
unfolding adopt store
adopt_here i l prnt = ground arith

adopt_twin : (i l : ℕ) (prnt : Array) → i < table_size → adopt i l prnt (suc i) ≡ l
unfolding adopt store
adopt_twin i l prnt h = ground arith

adopt_other :
    (i l y : ℕ) (prnt : Array) → y ≢ i → (i < table_size → y ≢ suc i) → adopt i l prnt y ≡ prnt y
unfolding adopt store
adopt_other i l y prnt ne far = ground (arith, ne, far)

store_here : (a : Array) (i v : ℕ) → store a i v i ≡ v
unfolding store
store_here a i v = ground arith

store_other : (a : Array) (i v x : ℕ) → x ≢ i → store a i v x ≡ a x
unfolding store
store_other a i v x ne = ground (arith, ne)

-- Two nodes and a third, in a linked tree: none of their sons or their sons' neighbours coincide.
module _ (h : Huffman) (linked : IsLinked h) where
  sons_apart :
      (x c : ℕ)
      → x < table_size
      → c < table_size
      → x ≢ c
      → (h.son x ≢ h.son c) × (h.son c < table_size → h.son x ≢ suc (h.son c))
  sons_apart x c xs cs ne = (
    apart h.prnt _ _ x c (linked.link x xs) (linked.link c cs) ne,
    λ inner. apart h.prnt _ _ x c (linked.link x xs) (linked.twin c cs inner) ne,
  )

  twins_apart :
      (x c : ℕ)
      → x < table_size
      → c < table_size
      → x ≢ c
      → h.son x < table_size
      → (suc (h.son x) ≢ h.son c) × (h.son c < table_size → suc (h.son x) ≢ suc (h.son c))
  twins_apart x c xs cs ne inside = (
    apart h.prnt _ _ x c (linked.twin x xs inside) (linked.link c cs) ne,
    λ inner. apart h.prnt _ _ x c (linked.twin x xs inside) (linked.twin c cs inner) ne,
  )

  -- After the exchange, a place `y` that belongs to neither node has the parent that it had.
  exchange_elsewhere :
      (c l k y : ℕ)
      → y ≢ h.son c
      → (h.son c < table_size → y ≢ suc (h.son c))
      → y ≢ h.son l
      → (h.son l < table_size → y ≢ suc (h.son l))
      → (exchange c l k h).prnt y ≡ h.prnt y
  unfolding exchange
  exchange_elsewhere c l k y n₁ n₂ n₃ n₄ =
      adopt_other (h.son l) c y _ n₃ n₄ ∙ adopt_other (h.son c) l y h.prnt n₁ n₂

  first-LinkedAt : (c l k : ℕ) → LinkedAt (exchange c l k h) c
  unfolding exchange
  first-LinkedAt c l k =
      LinkedAt-son (exchange c l k h) c (h.son l) (store_here _ c (h.son l))
        (adopt_here (h.son l) c _) (adopt_twin (h.son l) c _)

  second-LinkedAt :
      (c l k : ℕ) → c < table_size → l < table_size → c ≢ l → LinkedAt (exchange c l k h) l
  unfolding exchange
  second-LinkedAt c l k cs ls ne =
      let (far, farther) = sons_apart c l cs ls ne in
      LinkedAt-son (exchange c l k h) l (h.son c)
        (store_other _ c (h.son l) l (λ e. ne (sym e)) ∙ store_here h.son l (h.son c))
        (adopt_other (h.son l) c (h.son c) _ far farther ∙ adopt_here (h.son c) l h.prnt)
        (λ inside.
          (let (far₂, farther₂) = twins_apart c l cs ls ne inside in
            adopt_other (h.son l) c (suc (h.son c)) _ far₂ farther₂
            ∙ adopt_twin (h.son c) l h.prnt inside))

  third-LinkedAt :
      (c l k x : ℕ)
      → c < table_size
      → l < table_size
      → x < table_size
      → x ≢ c
      → x ≢ l
      → LinkedAt (exchange c l k h) x
  third-LinkedAt c l k x cs ls xs nc nl =
      let (a₁, a₂) = sons_apart x c xs cs nc in
      let (b₁, b₂) = sons_apart x l xs ls nl in
      LinkedAt-son (exchange c l k h) x (h.son x)
        (unfold exchange in store_other _ c (h.son l) x nc ∙ store_other h.son l (h.son c) x nl)
        (exchange_elsewhere c l k (h.son x) a₁ a₂ b₁ b₂ ∙ linked.link x xs)
        (λ inside.
          (let (c₁, c₂) = twins_apart x c xs cs nc inside in
            let (d₁, d₂) = twins_apart x l xs ls nl inside in
            exchange_elsewhere c l k (suc (h.son x)) c₁ c₂ d₁ d₂ ∙ linked.twin x xs inside))

  exchange-LinkedAt :
      (c l k x : ℕ)
      → c < table_size
      → l < table_size
      → c ≢ l
      → x < table_size
      → LinkedAt (exchange c l k h) x
  exchange-LinkedAt c l k x cs ls ne xs = elim (Bool-cases (x == c)) [
    | inl at_c ↦
        subst (LinkedAt (exchange c l k h)) (sym ((==_iff x c).0 at_c)) (first-LinkedAt c l k)
    | inr not_c ↦ elim (Bool-cases (x == l)) [
      | inl at_l ↦
          subst (LinkedAt (exchange c l k h)) (sym ((==_iff x l).0 at_l))
            (second-LinkedAt c l k cs ls ne)
      | inr not_l ↦ third-LinkedAt c l k x cs ls xs (λ e. ground arith) (λ e. ground arith)
    ]
  ]

  pub exchange-IsLinked :
      (c l k : ℕ) → c < table_size → l < table_size → c ≢ l → IsLinked (exchange c l k h)
  exchange-IsLinked c l k cs ls ne = record {
    link = λ x xs. (exchange-LinkedAt c l k x cs ls ne xs).0;
    twin = λ x xs. (exchange-LinkedAt c l k x cs ls ne xs).1;
  }

-- The search upwards stays in the table where the mark behind the table is not below `k`.
search_up_bounds :
    (n k : ℕ) (freq : Array) (l : ℕ)
    → k ≤ freq table_size
    → l < table_size
    → root ≤ l + n
    → (l ≤ search_up n k freq l) × (search_up n k freq l < table_size)
unfolding search_up
search_up_bounds zero k freq l m ls f = (omega arith, omega arith)
search_up_bounds (suc n) k freq l m ls f = elim (Bool-cases (ltb (freq (suc l)) k)) [
  | inl more ↦
      let inner : l ≢ root = λ e. ground (arith, ap (λ j. freq (suc j)) e) in
      let (lo, hi) = search_up_bounds n k freq (suc l) m (omega (arith, inner)) (omega arith) in
      rw (more, search_up) (omega arith, hi)
  | inr stop ↦ rw (stop, search_up) (omega arith, ls)
]

-- A change of frequencies leaves the links as they are.
freq-IsLinked : (h : Huffman) (freq : Array) → IsLinked h → IsLinked (record h { freq = freq })
freq-IsLinked h freq t = record { link = t.link; twin = t.twin }

exchange_mark :
    (h : Huffman) (c l k : ℕ)
    → c < table_size
    → l < table_size
    → (exchange c l k h).freq table_size ≡ h.freq table_size
unfolding exchange
exchange_mark h c l k cs ls =
    store_other _ l k table_size (λ e. omega arith)
    ∙ store_other h.freq c (h.freq l) table_size (λ e. omega arith)

-- One round of update at a node of a linked tree, whose frequency is below the mark behind the
-- table, leaves the tree linked (sons and parents in step) and the mark in its place; the node has
-- come to stand where it was or further up, inside the table.
pub update_node-IsLinked :
    (c : ℕ) (h : Huffman)
    → IsLinked h
    → h.freq table_size ≡ 0xffff
    → c < table_size
    → h.freq c < 0xffff
    → IsLinked (update_node c h).0
      × ((update_node c h).0.freq table_size ≡ 0xffff)
      × (c ≤ (update_node c h).1)
      × ((update_node c h).1 < table_size)
unfolding update_node
update_node-IsLinked c h t mark cs low = elim (Bool-cases (ltb (raised.freq (c + 1)) k)) [
  | inl moves ↦
      let below : c + 1 < table_size = omega (arith, last_stays moves) in
      let (up, inside) =
        search_up_bounds table_size k raised.freq (c + 1) (omega (arith, raised_mark)) below
          (omega arith) in
      rw (moves, update_node)
        (
          exchange-IsLinked raised raised-IsLinked c _ k cs inside (λ e. omega arith),
          exchange_mark raised c _ k cs inside ∙ raised_mark,
          omega arith,
          inside,
        )
  | inr stays ↦ rw (stays, update_node) (raised-IsLinked, raised_mark, omega arith, cs)
]
  where
    k : ℕ
    k = (h.freq c + 1) % 2 ^ 32

    raised : Huffman
    raised = record h { freq = store h.freq c k }

    raised-IsLinked : IsLinked raised
    raised-IsLinked = freq-IsLinked h (store h.freq c k) t

    raised_mark : raised.freq table_size ≡ 0xffff
    raised_mark = store_other h.freq c k table_size (λ e. omega arith) ∙ mark

    last_stays : ltb (raised.freq (c + 1)) k ≡ true → c + 1 ≢ table_size
    last_stays moves e =
        let top : raised.freq (c + 1) ≡ 0xffff = ap raised.freq e ∙ raised_mark in
        ground (arith, moves, top)
