-- ===== src/PtrList.antt =====
-- core/ptrlist.c, the list on which read_thread of core/core.c puts the peers that it will remove.
-- `none` is an access through NULL, or a walk that has not ended.
pub mod Laws
use tapi2p.Base.{ℕ, zero, suc, Option, none, some, List, [], ◌∷◌, ◌++◌, get_elem?, set, length}

-- struct node; a node is the index of its allocation.
pub record Node : Type 0 where
  pub item : ℕ
  pub next : Option ℕ

-- The nodes allocated so far, and the struct ptrlist.
pub record PtrList : Type 0 where
  pub nodes : List Node
  pub head : Option ℕ
  pub tail : Option ℕ

unfoldable pub list_new : PtrList
list_new = record { nodes = []; head = none; tail = none }

-- malloc leaves what stood there, `junk`.
abbrev pub new_node : Node → PtrList → PtrList
new_node junk l = record l { nodes = l.nodes ++ (junk ∷ []) }

-- l->tail->next = node
abbrev pub link_tail : ℕ → PtrList → Option PtrList
link_tail node l = elim l.tail [
  | none ↦ none
  | some t ↦ elim (get_elem? l.nodes t) [
    | none ↦ none
    | some n ↦ some (record l { nodes = set l.nodes t (record n { next = some node }) })
  ]
]

-- l->tail->item = item, l->tail->next = NULL
abbrev pub fill_tail : ℕ → Option PtrList → Option PtrList
fill_tail item none = none
fill_tail item (some l) = elim l.tail [
  | none ↦ none
  | some t ↦ some (record l { nodes = set l.nodes t (record { item = item; next = none }) })
]

-- list_add_node; in a list that is not empty `tail` stays where it is.
unfoldable pub list_add_node : Node → PtrList → ℕ → Option PtrList
list_add_node junk l item =
    let node = length l.nodes in
    elim l.head [
      | none ↦
          fill_tail item (some (record (new_node junk l) { head = some node; tail = some node }))
      | some h ↦ fill_tail item (link_tail node (new_node junk l))
    ]

-- The loop of read_thread over the nodes: their items, with fuel.
unfoldable pub items_from : ℕ → List Node → Option ℕ → Option (List ℕ)
items_from fuel nodes none = some []
items_from zero nodes (some i) = none
items_from (suc fuel) nodes (some i) = elim (get_elem? nodes i) [
  | none ↦ none
  | some n ↦ elim (items_from fuel nodes n.next) [ none ↦ none | some xs ↦ some (n.item ∷ xs) ]
]

-- The list that a round of read_thread leaves, which puts these items on it one after the other.
unfoldable pub add_all : Node → PtrList → List ℕ → Option PtrList
unfolding list_add_node
add_all junk l [] = some l
add_all junk l (x ∷ xs) = elim (list_add_node junk l x) [ none ↦ none | some m ↦ add_all junk m xs ]
