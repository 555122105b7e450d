-- ===== src/Module/Lookup.antt =====
-- Which node an inbound connection is from: `net_source_port` and `find_node` of module/net.c.
use monitor_merlin.Base.{
  ℕ, ◌+◌, ◌%◌, ◌^◌, ◌≡◌, refl, Bool, true, false, not, ◌&&◌, Option, none, some, List, [], ◌∷◌,
  ◌==◌, if◌then◌else◌,
}

-- The fields of a node that are read: its address, its port in the byte order of the host, whether it has a
-- valid UUID, and its flag MERLIN_NODE_FIXED_SRCPORT.
pub record Listed : Type 0 where
  pub ip : ℕ
  pub port : ℕ
  pub has_uuid : Bool
  pub fixed_srcport : Bool

-- An `unsigned short`
unfoldable pub net_source_port : ℕ → Listed → ℕ
net_source_port default_port n = (n.port + default_port) % 2 ^ 16

-- The node has the address and no UUID.
abbrev pub from_ip : ℕ → Listed → Bool
from_ip ip n = (n.ip == ip) && not n.has_uuid

-- The first node that fits but for its port.
unfoldable pub remember_first : Option Listed → Listed → Option Listed
remember_first (some first) n = some first
remember_first none n = if n.fixed_srcport then none else some n

-- The loop over the rest of the nodes.
unfoldable pub find_from : ℕ → ℕ → ℕ → Option Listed → List Listed → Option Listed
find_from default_port ip port first [] = first
find_from default_port ip port first (n ∷ nodes) =
    let rest = find_from default_port ip port first nodes in
    let later = find_from default_port ip port (remember_first first n) nodes in
    if not (from_ip ip n)
    then rest
    else if port == net_source_port default_port n
    then some n
    else later

-- `ip` and `port` are those of the connection.
unfoldable pub find_node : ℕ → ℕ → ℕ → List Listed → Option Listed
find_node default_port ip port nodes = find_from default_port ip port none nodes

module _ (default_port ip port : ℕ) where
  -- The address and the port are those of the node.
  abbrev pub exact : Listed → Bool
  exact n = from_ip ip n && (port == net_source_port default_port n)

  -- The address is, and the node may use any port.
  abbrev pub loose : Listed → Bool
  loose n = from_ip ip n && not n.fixed_srcport

  -- The first node of a kind.
  abbrev pub first_of : (Listed → Bool) → List Listed → Option Listed
  first_of p [] = none
  first_of p (n ∷ nodes) = if p n then some n else first_of p nodes

  abbrev pub or_else : Option Listed → Option Listed → Option Listed
  or_else none b = b
  or_else (some a) b = some a

  abbrev Agrees : List Listed → Option Listed → Type 0
  Agrees nodes first =
      find_from default_port ip port first nodes
      ≡ or_else (first_of exact nodes) (or_else first (first_of loose nodes))

  -- A turn of the loop, by the three tests of the node.
  turn_some :
      (a b f : Bool) (n x : Listed) (nodes : List Listed)
      → Agrees nodes (some x)
      → (if not a
          then find_from default_port ip port (some x) nodes
          else if b
          then some n
          else find_from default_port ip port (some x) nodes)
        ≡ or_else (if a && b then some n else first_of exact nodes) (some x)
  turn_some false b f n x nodes ih = ih
  turn_some true true f n x nodes ih = refl
  turn_some true false f n x nodes ih = ih

  turn_none :
      (a b f : Bool) (n : Listed) (nodes : List Listed)
      → ((first : Option Listed) → Agrees nodes first)
      → (if not a
          then find_from default_port ip port none nodes
          else if b
          then some n
          else find_from default_port ip port (if f then none else some n) nodes)
        ≡ or_else
            (if a && b then some n else first_of exact nodes)
            (if a && not f then some n else first_of loose nodes)
  turn_none false b f n nodes ih = ih none
  turn_none true true f n nodes ih = refl
  turn_none true false true n nodes ih = ih none
  turn_none true false false n nodes ih = ih (some n)

  find_from-first : (nodes : List Listed) (first : Option Listed) → Agrees nodes first
  unfolding find_from remember_first
  find_from-first [] none = refl
  find_from-first [] (some x) = refl
  find_from-first (n ∷ nodes) none =
      turn_none (from_ip ip n) (port == net_source_port default_port n) n.fixed_srcport n nodes
        (λ first. find_from-first nodes first)
  find_from-first (n ∷ nodes) (some x) =
      turn_some (from_ip ip n) (port == net_source_port default_port n) n.fixed_srcport n x nodes
        (find_from-first nodes (some x))

  -- `find_node` answers the first node whose address and port the connection has; if there is none, the first
  -- whose address it has and that does not use a fixed port; else NULL. Nodes with a UUID are never found.
  pub find_node-first :
      (nodes : List Listed)
      → find_node default_port ip port nodes ≡ or_else (first_of exact nodes) (first_of loose nodes)
  unfolding find_node
  find_node-first nodes = find_from-first nodes none
