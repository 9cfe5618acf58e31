-- ===== src/PtrList/Laws.antt =====
-- What the list of the peers to remove has in it.
use tapi2p.Base.{ℕ, suc, ◌≡◌, refl, none, some, List, [], ◌∷◌, ◌++◌}
use tapi2p.PtrList.{Node, PtrList, list_new, list_add_node, items_from, add_all}

-- A list that has been added to: one node is reached, and the others are lost.
abbrev pub single : ℕ → List Node → PtrList
single x lost = record {
  nodes = record { item = x; next = none } ∷ lost;
  head = some 0;
  tail = some 0;
}

list_add_node-single :
    (junk : Node) (x y : ℕ) (lost : List Node)
    → list_add_node junk (single x lost) y ≡ some (single y (lost ++ (junk ∷ [])))
unfolding list_add_node
list_add_node-single junk x y lost = refl

add_all-single :
    (junk : Node) (x y : ℕ) (lost : List Node) (ys : List ℕ)
    → (more : List Node) × (add_all junk (single x lost) (ys ++ (y ∷ [])) ≡ some (single y more))
unfolding add_all
add_all-single junk x y lost [] = (_, refl)
add_all-single junk x y lost (z ∷ ys) = add_all-single junk z y (lost ++ (junk ∷ [])) ys

-- However many items are added to a new list, each addition succeeds, and the loop over the list
-- ends and sees the item that was added last, and no other.
pub items_from-add_all :
    (junk : Node) (xs : List ℕ) (x fuel : ℕ)
    → (l : PtrList) × (add_all junk list_new (xs ++ (x ∷ [])) ≡ some l)
      × (items_from (suc fuel) l.nodes l.head ≡ some (x ∷ []))
unfolding add_all items_from list_new
items_from-add_all junk [] x fuel = (single x [], refl, refl)
items_from-add_all junk (y ∷ ys) x fuel =
    let (more, e) = add_all-single junk y x [] ys in (single x more, e, refl)
