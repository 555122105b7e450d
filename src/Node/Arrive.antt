-- ===== src/Node/Arrive.antt =====
-- What `net_input` makes of the bytes that arrive.
use monitor_merlin.Base.{
  ℕ, zero, suc, ◌+◌, ◌<◌, ◌≡◌, refl, ap, ◌∙◌, inl, inr, Bool, true, false, Option, none, some, List,
  [], ◌∷◌, ◌++◌, append_assoc, arith, length, if◌then◌else◌, Bool-cases,
}
use monitor_merlin.Binlog.{Bytes}
use monitor_merlin.Node.{state_none}
use monitor_merlin.Node.Receive.{
  BufferQueue, QueueLaws, Intake, hang_up, node_get_event, after_handle, handle_all,
}
use monitor_merlin.Node.Framing.{AllFramed, Unfinished, stream}
use monitor_merlin.Node.Taking.{get-Unfinished, get_framed, Holds-taken, taken}

-- The packets are handled one after the other, until one of them disconnects the node.
abbrev pub deliver :
    {World : Type 0} → (World → Bytes → World × Bool) → World → List Bytes → World × Bool
deliver handle w [] = (w, false)
deliver handle w (e ∷ q) =
    let rest = deliver handle (handle w e).0 q in
    if (handle w e).1 then ((handle w e).0, true) else rest

pub deliver-append :
    {World : Type 0} (handle : World → Bytes → World × Bool) (w : World) (p q : List Bytes)
    → deliver handle w (p ++ q) ≡ (
        if (deliver handle w p).1
        then deliver handle w p
        else deliver handle (deliver handle w p).0 q)
deliver-append handle w [] q = refl
deliver-append handle w (e ∷ p) q = elim (Bool-cases (handle w e).1) [
  | inl shut ↦ rw shut refl
  | inr open' ↦ rw open' (deliver-append handle (handle w e).0 p q)
]

module _ (b : BufferQueue) (laws : QueueLaws b) {World : Type 0}
    (handle : World → Bytes → World × Bool) where
  open b use {Store}
  open laws use {Holds}

  -- The node afterwards: it was disconnected, or `rest` waits in its buffer.
  abbrev pub Left : Bool → Intake Store → Intake Store → Bytes → Type 0
  Left true l l' rest = (l'.has_sock ≡ false) × (l'.state ≡ state_none) × Holds l'.bq []
  Left false l l' rest = (l'.has_sock ≡ l.has_sock) × (l'.state ≡ l.state) × Holds l'.bq rest

  pub Left-hang_up : (l l' : Intake Store) (rest : Bytes) → Left true l (hang_up b l') rest
  unfolding hang_up
  Left-hang_up l l' rest = (refl, refl, laws.created)

  -- How the loop goes on after `node_get_event`.
  abbrev next : ℕ → ℕ → World → Intake Store × Option Bytes → Option ((World × Intake Store) × ℕ)
  next fuel k w (l', out) = elim out [
    | none ↦ some ((w, l'), k)
    | some pkt ↦ handle_all b handle fuel (k + 1) (after_handle b handle l' (handle w pkt))
  ]

  pub handle_all_stop :
      (fuel k : ℕ) (w : World) (l l' : Intake Store)
      → node_get_event b l ≡ (l', none)
      → handle_all b handle (suc fuel) k (w, l) ≡ some ((w, l'), k)
  unfolding handle_all
  handle_all_stop fuel k w l l' e = ap (next fuel k w) e

  pub handle_all_next :
      (fuel k : ℕ) (w : World) (l l' : Intake Store) (pkt : Bytes)
      → node_get_event b l ≡ (l', some pkt)
      → handle_all b handle (suc fuel) k (w, l)
        ≡ handle_all b handle fuel (k + 1) (after_handle b handle l' (handle w pkt))
  unfolding handle_all
  handle_all_next fuel k w l l' pkt e = ap (next fuel k w) e

  -- The loop ends, and this is what it leaves.
  abbrev pub Handles :
      Option ((World × Intake Store) × ℕ) → World × Bool → Intake Store → Bytes → Type 0
  Handles out done l rest =
      (l' : Intake Store) × (n : ℕ) × (out ≡ some ((done.0, l'), n)) × Left done.1 l l' rest

  handle_all_closed :
      (fuel k : ℕ) (w : World) (l l1 : Intake Store) (rest : Bytes)
      → Handles (handle_all b handle (suc fuel) k (w, hang_up b l1)) (w, true) l rest
  unfolding hang_up
  handle_all_closed fuel k w l l1 rest = (
    hang_up b l1,
    k,
    handle_all_stop fuel k w (hang_up b l1) (hang_up b l1)
        (get-Unfinished b laws (hang_up b l1) [] laws.created (inl (omega arith))),
    Left-hang_up l l1 rest,
  )

  abbrev pub after_both : World × Bool → World × Bool → World × Bool
  after_both one rest = if one.1 then (one.0, true) else rest

  pub after_first :
      (fuel k : ℕ) (l l1 : Intake Store) (one all : World × Bool) (rest : Bytes)
      → (one.1 ≡ false → Handles (handle_all b handle (suc fuel) k (one.0, l1)) all l rest)
      → Handles
          (handle_all b handle (suc fuel) k (after_handle b handle l1 one))
          (after_both one all)
          l
          rest
  unfolding after_handle
  after_first fuel k l l1 (w, true) all rest go = handle_all_closed fuel k w l l1 rest
  after_first fuel k l l1 (w, false) all rest go = go refl

  -- Another node with the same socket and state.
  pub Handles-as :
      (out : Option ((World × Intake Store) × ℕ)) (done : World × Bool) (l l1 : Intake Store)
      (rest : Bytes)
      → l1.has_sock ≡ l.has_sock
      → l1.state ≡ l.state
      → Handles out done l1 rest
      → Handles out done l rest
  Handles-as out (w, true) l l1 rest s t (l', n, e, x) = (l', n, e, x)
  Handles-as out (w, false) l l1 rest s t (l', n, e, (a, c, d)) = (l', n, e, (a ∙ s, c ∙ t, d))

  pub handle_all-Handles :
      (q : List Bytes) (rest : Bytes) (fuel k : ℕ) (w : World) (l : Intake Store)
      → length q < fuel
      → AllFramed q
      → Unfinished rest
      → Holds l.bq (stream q ++ rest)
      → Handles (handle_all b handle fuel k (w, l)) (deliver handle w q) l rest
  handle_all-Handles q rest zero k w l enough f u h = absurd (omega arith)
  handle_all-Handles [] rest (suc fuel) k w l enough f u h =
      (l, k, handle_all_stop fuel k w l l (get-Unfinished b laws l rest h u), (refl, refl, h))
  handle_all-Handles (e ∷ q) rest (suc zero) k w l enough f u h = absurd (omega arith)
  handle_all-Handles (e ∷ q) rest (suc (suc fuel)) k w l enough (f, fs) u h =
      let joined = rw (append_assoc e (stream q) rest) at h in
      let l1 = taken b laws l (length e) in
      rw
        (handle_all_next (suc fuel) k w l l1 e
          (get_framed b laws l e (stream q ++ rest) f.valid joined f.signed))
        (after_first fuel (k + 1) l l1 (handle w e) (deliver handle (handle w e).0 q) rest (λ go.
          Handles-as _ _ l l1 rest refl refl (
            handle_all-Handles q rest (suc fuel) (k + 1) (handle w e).0 l1 (omega arith) fs u
              (Holds-taken b laws l e (stream q ++ rest) f.valid joined))))
