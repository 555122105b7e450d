-- ===== src/Module/Fields.antt =====
-- What the sending writes into a packet leaves its type, code and selection as they are.
use monitor_merlin.Base.{
  ℕ, ◌+◌, ◌≤◌, ◌≡◌, refl, sym, ap, ◌∙◌, Bool, true, false, [], ◌∷◌, ◌++◌, arith, length, take, drop,
  drop-drop, drop-append_le, take-drop, length-take, length-append, length-drop,
}
use monitor_merlin.Binlog.{Bytes}
use monitor_merlin.Node.Packet.{value16, hdr_type, hdr_code, stamp}
use monitor_merlin.Node.Send.{mark}
use monitor_merlin.Module.Routing.{
  Site, Delivery, delivered, backlogged, lost, tried_with, hdr_selection, set_sent, ipc_send_event,
}

value16-append : (a x : Bytes) → 2 ≤ length a → value16 (a ++ x) ≡ value16 a
unfolding value16
value16-append (a ∷ b ∷ r) x h = refl
value16-append (a ∷ []) x h = absurd (omega arith)
value16-append [] x h = absurd (omega arith)

-- A field that lies before `n` does not depend on what follows.
field_front :
    (k n : ℕ) (p x : Bytes)
    → k + 2 ≤ n
    → n ≤ length p
    → value16 (drop k (take n p ++ x)) ≡ value16 (drop k p)
field_front k n p x h le =
    ap value16 (drop-append_le k (take n p) x (omega (arith, length-take n p, h, le)))
    ∙ value16-append (drop k (take n p)) x
        (omega (arith, length-drop k (take n p), length-take n p, h, le))
    ∙ sym (
        value16-append (drop k (take n p)) (drop n p)
          (omega (arith, length-drop k (take n p), length-take n p, h, le)))
    ∙ ap value16 (
        sym (drop-append_le k (take n p) (drop n p) (omega (arith, length-take n p, h, le)))
        ∙ ap (drop k) (take-drop n p))

-- Both have the same type, code and selection.
pub record Alike (p q : Bytes) : Type 0 where
  pub kind : hdr_type p ≡ hdr_type q
  pub code : hdr_code p ≡ hdr_code q
  pub selection : hdr_selection p ≡ hdr_selection q

pub Alike-front : (n : ℕ) (p x : Bytes) → 16 ≤ n → n ≤ length p → Alike (take n p ++ x) p
Alike-front n p x h le = record {
  kind = field_front 10 n p x (omega arith) le;
  code = field_front 12 n p x (omega arith) le;
  selection = field_front 14 n p x (omega arith) le;
}

Alike-mark : (p : Bytes) → Alike (mark p) p
unfolding mark
Alike-mark p = record {
  kind = refl;
  code = ap value16 (drop-drop 2 10 p);
  selection = ap value16 (drop-drop 4 10 p);
}

pub Alike-self : (p : Bytes) → Alike p p
Alike-self p = record { kind = refl; code = refl; selection = refl }

pub Alike-trans : (p q r : Bytes) → Alike p q → Alike q r → Alike p r
Alike-trans p q r a b = record {
  kind = a.kind ∙ b.kind;
  code = a.code ∙ b.code;
  selection = a.selection ∙ b.selection;
}

length-mark : (p : Bytes) → 10 ≤ length p → length (mark p) ≡ length p
unfolding mark
length-mark p h = omega (arith, length-drop 10 p)

length-set_sent : (t p : Bytes) → length t ≡ 16 → 36 ≤ length p → length (set_sent t p) ≡ length p
unfolding set_sent
length-set_sent t p h le = omega (
  arith,
  length-append (take 20 p) (t ++ drop 36 p),
  length-append t (drop 36 p),
  length-take 20 p,
  length-drop 36 p,
)

module _ (m : Site) (timed : (k : ℕ) → length (m.sent_at k) ≡ 16) where
  Alike-marked : (k : ℕ) (p : Bytes) → 76 ≤ length p → Alike (mark (set_sent (m.sent_at k) p)) p
  unfolding set_sent
  Alike-marked k p long =
      Alike-trans _ (set_sent (m.sent_at k) p) p (Alike-mark (set_sent (m.sent_at k) p))
        (Alike-front 20 p (m.sent_at k ++ drop 36 p) (omega arith) (omega arith))

  Alike-stamped :
      (k : ℕ) (p : Bytes) → 76 ≤ length p → Alike (stamp m.uuid (mark (set_sent (m.sent_at k) p))) p
  unfolding stamp
  Alike-stamped k p long =
      Alike-trans _ (mark (set_sent (m.sent_at k) p)) p
        (Alike-front 76 (mark (set_sent (m.sent_at k) p)) _ (omega arith) (
          omega (
            arith,
            long,
            length-set_sent (m.sent_at k) p (timed k) (omega arith),
            length-mark (set_sent (m.sent_at k) p)
                (omega (arith, long, length-set_sent (m.sent_at k) p (timed k) (omega arith))),
          )))
        (Alike-marked k p long)

  pub Alike-ipc_send_event : (k : ℕ) (p : Bytes) → 76 ≤ length p → Alike (ipc_send_event m k p).0 p
  unfolding ipc_send_event
  Alike-ipc_send_event k p long = by_delivery (m.daemon k)
    where
      by_delivery :
          (d : Delivery)
          → Alike
              ((elim d as (λ d'. Bytes × Bool) [
                | delivered ↦ (stamp m.uuid (mark (set_sent (m.sent_at k) p)), true)
                | backlogged tried ↦ (tried_with m tried (mark (set_sent (m.sent_at k) p)), true)
                | lost tried ↦ (tried_with m tried (mark (set_sent (m.sent_at k) p)), false)
              ]).0)
              p
      by_delivery delivered = Alike-stamped k p long
      by_delivery (backlogged true) = Alike-stamped k p long
      by_delivery (backlogged false) = Alike-marked k p long
      by_delivery (lost true) = Alike-stamped k p long
      by_delivery (lost false) = Alike-marked k p long
