-- ===== src/Pgroup/Takeover.antt =====
-- What `pgroup_reassign_checks` leaves each node with.
use monitor_merlin.Base.{
  ℕ, zero, suc, ◌+◌, ◌-◌, ◌^◌, ◌≤◌, ◌<◌, ◌≡◌, inl, inr, refl, sym, ap, ap₂, ◌∙◌, true, false, Bool,
  ◌&&◌, List, [], ◌∷◌, map, if◌then◌else◌, ◌==◌, arith, Bool-cases,
}
use monitor_merlin.Binlog.{sub32}
use monitor_merlin.Node.{is_connected}
use monitor_merlin.Pgroup.{Kind, host_check, service_check, Assigned, amount}
use monitor_merlin.Pgroup.Reassign.{
  Worker, Team, entry, plus, minus, update_first, reset_node, inherit_node, own_checks,
  reassign_group, reassign_groups, reassign_checks,
}

-- Whether our group inherits the checks of a group.
abbrev pub is_inherited : Team → Bool
is_inherited pg = (pg.active_nodes == 0) && pg.takeover

-- What a node with this peer id inherits of the groups, one after the other.
unfoldable pub inherited : ℕ → ℕ → Assigned → List Team → Assigned
inherited active peer_id sum [] = sum
inherited active peer_id sum (pg ∷ groups) =
    if is_inherited pg
    then inherited active peer_id (plus sum (entry pg.inherit active peer_id)) groups
    else inherited active peer_id sum groups

-- The checks that a node of ours has in the end.
unfoldable pub settled : ℕ → List Team → Worker → Worker
settled active groups node =
    if is_connected node.state
    then record node { extra = inherited active node.peer_id node.extra groups }
    else node

update_first-update_first :
    (n : ℕ) (f g : Worker → Worker) (nodes : List Worker)
    → update_first n f (update_first n g nodes) ≡ update_first n (λ x. f (g x)) nodes
unfolding update_first
update_first-update_first n f g [] = refl
update_first-update_first zero f g (node ∷ nodes) = refl
update_first-update_first (suc n) f g (node ∷ nodes) =
    ap (λ r. f (g node) ∷ r) (update_first-update_first n f g nodes)

update_first-eq :
    (n : ℕ) (f g : Worker → Worker) (nodes : List Worker)
    → ((x : Worker) → f x ≡ g x)
    → update_first n f nodes ≡ update_first n g nodes
unfolding update_first
update_first-eq n f g [] h = refl
update_first-eq zero f g (node ∷ nodes) h = refl
update_first-eq (suc n) f g (node ∷ nodes) h =
    ap₂ (λ a r. a ∷ r) (h node) (update_first-eq n f g nodes h)

update_first_same :
    (n : ℕ) (f : Worker → Worker) (nodes : List Worker)
    → ((x : Worker) → f x ≡ x)
    → update_first n f nodes ≡ nodes
unfolding update_first
update_first_same n f [] h = refl
update_first_same zero f (node ∷ nodes) h = refl
update_first_same (suc n) f (node ∷ nodes) h =
    ap₂ (λ a r. a ∷ r) (h node) (update_first_same n f nodes h)

settled_none : (active : ℕ) (node : Worker) → settled active [] node ≡ node
unfolding settled inherited
settled_none active node = elim (Bool-cases (is_connected node.state)) [
  | inl e ↦ rw e refl
  | inr e ↦ rw e refl
]

settled_inherited :
    (active : ℕ) (pg : Team) (groups : List Team) (node : Worker)
    → is_inherited pg ≡ true
    → settled active groups (inherit_node active pg node) ≡ settled active (pg ∷ groups) node
unfolding settled inherited inherit_node
settled_inherited active pg groups node h = elim (Bool-cases (is_connected node.state)) [
  | inl e ↦ rw (e, h, e) refl
  | inr e ↦ rw (e, e) refl
]

settled_other :
    (active : ℕ) (pg : Team) (groups : List Team) (node : Worker)
    → is_inherited pg ≡ false
    → settled active groups node ≡ settled active (pg ∷ groups) node
unfolding settled inherited
settled_other active pg groups node h = elim (Bool-cases (is_connected node.state)) [
  | inl e ↦ rw (e, h) refl
  | inr e ↦ rw e refl
]

module _ {A : Type 0} {B : Type 0} (f : A → B) (x y z : A) {c : B} where
  if_all :
      (a b : Bool) → f x ≡ c → f y ≡ c → f z ≡ c → f (if a then (if b then x else y) else z) ≡ c
  if_all true true hx hy hz = hx
  if_all true false hx hy hz = hy
  if_all false b hx hy hz = hz

  if_both : (a b : Bool) → a && b ≡ true → f x ≡ c → f (if a then (if b then x else y) else z) ≡ c
  if_both true true h hx = hx
  if_both true false h hx = cc h
  if_both false b h hx = cc h

  if_not_both :
      (a b : Bool)
      → a && b ≡ false
      → f y ≡ c
      → f z ≡ c
      → f (if a then (if b then x else y) else z) ≡ c
  if_not_both true true h hy hz = cc h
  if_not_both true false h hy hz = hy
  if_not_both false b h hy hz = hz

  if_first :
      (a b : Bool) → a ≡ true → f x ≡ c → f y ≡ c → f (if a then (if b then x else y) else z) ≡ c
  if_first true true h hx hy = hx
  if_first true false h hx hy = hy
  if_first false b h hx hy = cc h

  if_last : (a b : Bool) → a ≡ false → f z ≡ c → f (if a then (if b then x else y) else z) ≡ c
  if_last true b h hz = cc h
  if_last false b h hz = hz

-- The results of a turn for a group that our own inherits from, for one that it does not, and for
-- one with active nodes.
abbrev taken : Team → Team → Team × Team
taken own pg = (
  record own { nodes = update_first own.active_nodes (inherit_node own.active_nodes pg) own.nodes },
  pg,
)

abbrev left_alone : Team → Team → Team × Team
left_alone own pg = (own, pg)

abbrev shared : Team → Team → Team × Team
shared own pg = (
  record own { assigned = minus own.assigned pg.assigned },
  record pg { nodes = map (own_checks pg) pg.nodes },
)

active_kept : (own pg : Team) → (reassign_group own pg).0.active_nodes ≡ own.active_nodes
unfolding reassign_group
active_kept own pg =
    if_all (λ t. t.0.active_nodes) (taken own pg) (left_alone own pg) (shared own pg)
      (pg.active_nodes == 0) pg.takeover refl refl refl

nodes_inherited :
    (own pg : Team)
    → is_inherited pg ≡ true
    → (reassign_group own pg).0.nodes
      ≡ update_first own.active_nodes (inherit_node own.active_nodes pg) own.nodes
unfolding reassign_group
nodes_inherited own pg h =
    if_both (λ t. t.0.nodes) (taken own pg) (left_alone own pg) (shared own pg)
      (pg.active_nodes == 0) pg.takeover h refl

nodes_other :
    (own pg : Team) → is_inherited pg ≡ false → (reassign_group own pg).0.nodes ≡ own.nodes
unfolding reassign_group
nodes_other own pg h =
    if_not_both (λ t. t.0.nodes) (taken own pg) (left_alone own pg) (shared own pg)
      (pg.active_nodes == 0) pg.takeover h refl refl

reassign_groups-nodes :
    (own : Team) (groups : List Team)
    → (reassign_groups own groups).0.nodes
      ≡ update_first own.active_nodes (settled own.active_nodes groups) own.nodes
unfolding reassign_groups
reassign_groups-nodes own [] = sym (
    update_first_same own.active_nodes (settled own.active_nodes []) own.nodes
      (settled_none own.active_nodes))
reassign_groups-nodes own (pg ∷ groups) =
    reassign_groups-nodes (reassign_group own pg).0 groups ∙ elim (Bool-cases (is_inherited pg)) [
      | inl h ↦
          ap₂ (λ a nodes. update_first a (settled a groups) nodes) (active_kept own pg)
            (nodes_inherited own pg h)
          ∙ update_first-update_first own.active_nodes (settled own.active_nodes groups)
              (inherit_node own.active_nodes pg) own.nodes
          ∙ update_first-eq own.active_nodes _ (settled own.active_nodes (pg ∷ groups)) own.nodes
              (λ x. settled_inherited own.active_nodes pg groups x h)
      | inr h ↦
          ap₂ (λ a nodes. update_first a (settled a groups) nodes) (active_kept own pg)
            (nodes_other own pg h)
          ∙ update_first-eq own.active_nodes _ (settled own.active_nodes (pg ∷ groups)) own.nodes
              (λ x. settled_other own.active_nodes pg groups x h)
    ]

-- Each active node of our own group ends with the checks that the counters give it and, if it is
-- connected, with those that it inherits from the groups that have no active node and let others
-- take over, whatever it had before; the other nodes of our group stay as they were.
pub reassign_checks-nodes :
    (num_objects : Assigned) (own : Team) (groups : List Team)
    → (reassign_checks num_objects own groups).0.nodes
      ≡ update_first own.active_nodes
          (λ x. settled own.active_nodes groups (reset_node own.assign own.active_nodes x))
          own.nodes
unfolding reassign_checks
reassign_checks-nodes num_objects own groups =
    reassign_groups-nodes
      (record own {
        assigned = num_objects;
        nodes = update_first own.active_nodes (reset_node own.assign own.active_nodes) own.nodes;
      })
      groups
    ∙ update_first-update_first own.active_nodes (settled own.active_nodes groups)
        (reset_node own.assign own.active_nodes) own.nodes

-- The objects of the groups that have active nodes.
unfoldable pub delegated : Kind → List Team → ℕ
delegated kind [] = 0
delegated kind (pg ∷ groups) =
    (if pg.active_nodes == 0 then 0 else amount kind pg.assigned) + delegated kind groups

delegated_none : (kind : Kind) → delegated kind [] ≡ 0
unfolding delegated
delegated_none kind = refl

assigned_idle :
    (kind : Kind) (own pg : Team)
    → (pg.active_nodes == 0) ≡ true
    → amount kind (reassign_group own pg).0.assigned ≡ amount kind own.assigned
unfolding reassign_group
assigned_idle kind own pg h =
    if_first (λ t. amount kind t.0.assigned) (taken own pg) (left_alone own pg) (shared own pg)
      (pg.active_nodes == 0) pg.takeover h refl refl

amount-minus :
    (kind : Kind) (a b : Assigned) → amount kind (minus a b) ≡ sub32 (amount kind a) (amount kind b)
amount-minus host_check a b = refl
amount-minus service_check a b = refl

assigned_active :
    (kind : Kind) (own pg : Team)
    → (pg.active_nodes == 0) ≡ false
    → amount kind (reassign_group own pg).0.assigned
      ≡ sub32 (amount kind own.assigned) (amount kind pg.assigned)
unfolding reassign_group
assigned_active kind own pg h =
    if_last (λ t. amount kind t.0.assigned) (taken own pg) (left_alone own pg) (shared own pg)
      (pg.active_nodes == 0) pg.takeover h (amount-minus kind own.assigned pg.assigned)

delegated_idle :
    (kind : Kind) (pg : Team) (groups : List Team)
    → (pg.active_nodes == 0) ≡ true
    → delegated kind (pg ∷ groups) ≡ delegated kind groups
unfolding delegated
delegated_idle kind pg groups h = ground (arith, h)

delegated_active :
    (kind : Kind) (pg : Team) (groups : List Team)
    → (pg.active_nodes == 0) ≡ false
    → delegated kind (pg ∷ groups) ≡ amount kind pg.assigned + delegated kind groups
unfolding delegated
delegated_active kind pg groups h = ground (arith, h)

reassign_groups-assigned :
    (kind : Kind) (own : Team) (groups : List Team)
    → delegated kind groups ≤ amount kind own.assigned
    → amount kind own.assigned < 2 ^ 32
    → amount kind (reassign_groups own groups).0.assigned
      ≡ amount kind own.assigned - delegated kind groups
unfolding reassign_groups
reassign_groups-assigned kind own [] le lt = omega (arith, delegated_none kind)
reassign_groups-assigned kind own (pg ∷ groups) le lt =
    let next = (reassign_group own pg).0 in
    elim (Bool-cases (pg.active_nodes == 0)) [
      | inl h ↦
          let same = assigned_idle kind own pg h in
          let sum = delegated_idle kind pg groups h in
          omega (
            arith,
            same,
            sum,
            reassign_groups-assigned kind next groups (omega (arith, same, sum, le))
                (omega (arith, same, lt)),
          )
      | inr h ↦
          let less = assigned_active kind own pg h in
          let sum = delegated_active kind pg groups h in
          omega (
            arith,
            less,
            sum,
            le,
            lt,
            reassign_groups-assigned kind next groups (omega (arith, less, sum, le, lt))
                (omega (arith, less, lt)),
          )
    ]

-- Our own group ends with the objects that no group with active nodes has: their number is all
-- objects less those of these groups, when the sum of these does not exceed it, whatever our group
-- had before.
pub reassign_checks-assigned :
    (kind : Kind) (num_objects : Assigned) (own : Team) (groups : List Team)
    → delegated kind groups ≤ amount kind num_objects
    → amount kind num_objects < 2 ^ 32
    → amount kind (reassign_checks num_objects own groups).0.assigned
      ≡ amount kind num_objects - delegated kind groups
unfolding reassign_checks
reassign_checks-assigned kind num_objects own groups le lt =
    reassign_groups-assigned kind
      (record own {
        assigned = num_objects;
        nodes = update_first own.active_nodes (reset_node own.assign own.active_nodes) own.nodes;
      })
      groups le lt
