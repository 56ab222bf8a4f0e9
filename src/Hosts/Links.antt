-- ===== src/Hosts/Links.antt =====
-- include/list.h: the circular lists of nodes that point to each other, as far as
-- application/EVSP/src/EVSP_OBU_list.c uses them. A node is a number.
use vips_adaptive_traffi.Common.{
  ℕ, zero, suc, Option, some, none, List, [], ◌∷◌, ◌==◌, if◌then◌else◌,
}

pub record Links : Type 0 where
  pub next : ℕ → ℕ
  pub prev : ℕ → ℕ

-- An assignment to a field of a node.
abbrev pub point : (ℕ → ℕ) → ℕ → ℕ → ℕ → ℕ
point f node to n = if n == node then to else f n

abbrev pub set_next : ℕ → ℕ → Links → Links
set_next node to l = record l { next = point l.next node to }

abbrev pub set_prev : ℕ → ℕ → Links → Links
set_prev node to l = record l { prev = point l.prev node to }

-- `INIT_LIST_HEAD(head)`.
unfoldable pub init_list_head : ℕ → Links → Links
init_list_head head l = set_prev head head (set_next head head l)

-- `list_add_tail(node, head)`.
unfoldable pub list_add_tail : ℕ → ℕ → Links → Links
list_add_tail node head l =
    let prev = l.prev head in
    set_prev head node (set_prev node prev (set_next node head (set_next prev node l)))

-- `list_del(node)`.
unfoldable pub list_del : ℕ → Links → Links
list_del node l =
    let next = l.next node in let prev = l.prev node in set_next prev next (set_prev next prev l)

-- The nodes of the list from a node on to its head, if they come to an end.
unfoldable pub nodes_from : ℕ → Links → ℕ → ℕ → Option (List ℕ)
nodes_from zero l head n = none
nodes_from (suc fuel) l head n =
    let rest = nodes_from fuel l head (l.next n) in
    if n == head then some [] else elim rest [ none ↦ none | some ns ↦ some (n ∷ ns) ]

-- `list_for_each_entry_safe` visits these.
abbrev pub nodes_of : ℕ → Links → ℕ → Option (List ℕ)
nodes_of fuel l head = nodes_from fuel l head (l.next head)
