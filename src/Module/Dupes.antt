-- ===== src/Module/Dupes.antt =====
-- `is_dupe` of module/hooks.c compares an event with what became of an earlier one on its way.
use mathlib.Core.Path.{subst}
use monitor_merlin.Base.{
  ℕ, zero, suc, ◌≤◌, ◌≡◌, ◌≢◌, refl, sym, ap, ap₂, ◌∙◌, ◌⊎◌, inl, inr, Bool, true, false, not, ◌&&◌,
  ◌||◌, List, [], ◌∷◌, ◌++◌, arith, take, ◌==◌, ==_iff, if◌then◌else◌, if_false, Bool-cases,
  replicate,
}
use monitor_merlin.Binlog.{Bytes, value32}
use monitor_merlin.Node.Config.{same_bytes}
use monitor_merlin.Node.Packet.{hdr_type, hdr_code, hdr_len, packet_size, stamp}
use monitor_merlin.Node.Send.{mark}
use monitor_merlin.Node.Receive.{signature}
use monitor_merlin.Node.Select.{Looked, null, outside, here, nodes_by_sel_id}
use monitor_merlin.Module.Routing.{
  Site, Sender, Answer, fine, Delivery, delivered, backlogged, lost, tried_with, hdr_selection,
  magic_nonet, magic_destination, has_dest, to_pollers, to_peers, to_masters, num_nodes,
  daemon_wants, not_int, blank, is_dupe, set_sent, ipc_send_event, remember, tell_daemon, send_to,
  send_if, send_magic, send_selected, send_normal, send_network, send_encoded, send_generic,
}

-- What `is_dupe` compares with carries the signature, or is the packet of zeros.
abbrev pub Marked : Bytes → Type 0
Marked last = (take 8 last ≡ signature) ⊎ (last ≡ blank)

-- An event that was not sent yet: no signature, and a body.
pub record Unsent (pkt : Bytes) : Type 0 where
  pub unsigned : take 8 pkt ≡ replicate 8 0
  pub some_body : hdr_len pkt ≢ 0
  pub len_le : hdr_len pkt ≤ 131072

and_both : (a b : Bool) → (a && b) ≡ true → (a ≡ true) × (b ≡ true)
and_both true b e = (refl, e)
and_both false b e = absurd (cc e)

same_bytes-eq : (x y : Bytes) → same_bytes x y ≡ true → x ≡ y
same_bytes-eq [] [] e = refl
same_bytes-eq [] (b ∷ y) e = absurd (cc e)
same_bytes-eq (a ∷ x) [] e = absurd (cc e)
same_bytes-eq (a ∷ x) (b ∷ y) e =
    let (head, rest) = and_both (a == b) (same_bytes x y) e in
    ap₂ (λ h t. h ∷ t) ((==_iff a b).0 head) (same_bytes-eq x y rest)

take-take : (k n : ℕ) (x : Bytes) → k ≤ n → take k (take n x) ≡ take k x
take-take zero n x h = refl
take-take (suc k) zero x h = absurd (omega arith)
take-take (suc k) (suc n) [] h = refl
take-take (suc k) (suc n) (a ∷ x) h = ap (λ t. a ∷ t) (take-take k n x (omega arith))

last_test :
    (a b c d : Bool)
    → (c ≡ true) ⊎ (d ≡ false)
    → (if a then false else if b then false else if c then false else d) ≡ false
last_test true b c d h = refl
last_test false true c d h = refl
last_test false false true d h = refl
last_test false false false d (inl h) = absurd (cc h)
last_test false false false d (inr h) = h

module _ (s : Sender) (pkt : Bytes) (u : Unsent pkt) where
  unlike :
      take 8 s.last_pkt ≡ signature
      → same_bytes (take (packet_size pkt) s.last_pkt) (take (packet_size pkt) pkt) ≡ false
  unlike signed =
      elim (Bool-cases
        (same_bytes (take (packet_size pkt) s.last_pkt) (take (packet_size pkt) pkt))) [
          | inr no_match ↦ no_match
          | inl match ↦ absurd (
              zeros (
                sym signed
                ∙ sym (take-take 8 (packet_size pkt) s.last_pkt large)
                ∙ ap (take 8) (same_bytes-eq _ _ match)
                ∙ take-take 8 (packet_size pkt) pkt large
                ∙ u.unsigned))
        ]
    where
      large : 8 ≤ packet_size pkt
      large = omega (arith, u.len_le)

      zeros : signature ≢ replicate 8 0
      zeros e = absurd (cc e)

  other_size : s.last_pkt ≡ blank → not (packet_size s.last_pkt == packet_size pkt) ≡ true
  unfolding value32
  other_size e = rw e (ground (arith, u.len_le, u.some_body))

  abbrev other_type : Bool
  other_type = not (hdr_type s.last_pkt == hdr_type pkt)

  abbrev differs : Bool
  differs = not (packet_size s.last_pkt == packet_size pkt)

  is_dupe-Marked : Marked s.last_pkt → is_dupe s pkt ≡ false
  unfolding is_dupe
  is_dupe-Marked (inl signed) =
      last_test (not s.check_dupes) other_type differs _ (inr (unlike signed))
  is_dupe-Marked (inr zeros) =
      last_test (not s.check_dupes) other_type differs _ (inl (other_size zeros))

either {ℓ κ} :
    {A : Type ℓ} (P : A → Type κ) (c : Bool) {x y : A} → P x → P y → P (if c then x else y)
either P true a b = a
either P false a b = b

-- What the sender remembers carries the signature, and it has seen as many duplicates as before.
abbrev pub Remembers : Sender → Sender → Type 0
Remembers s s' = Marked s'.last_pkt × (s'.dupes ≡ s.dupes)

-- The same, of what a part of `send_generic` leaves.
record Keeps (s : Sender) (out : Sender × Answer) : Type 0 where
  remembers : Remembers s out.0

module _ (m : Site) (s : Sender) where
  send_to-Remembers :
      (l : Sender) (nodes : List ℕ) (pkt : Bytes)
      → Remembers s l
      → Remembers s (send_to l nodes pkt)
  unfolding send_to
  send_to-Remembers l [] pkt r = r
  send_to-Remembers l (n ∷ nodes) pkt r =
      send_to-Remembers (record l { sent = l.sent ++ (n, pkt) ∷ [] }) nodes pkt r

  send_if-Remembers :
      (c : Bool) (l : Sender) (nodes : List ℕ) (pkt : Bytes)
      → Remembers s l
      → Remembers s (send_if c l nodes pkt)
  unfolding send_if
  send_if-Remembers true l nodes pkt r = send_to-Remembers l nodes pkt r
  send_if-Remembers false l nodes pkt r = r

  send_selected-Remembers :
      (l : Sender) (found : Looked (List ℕ)) (pkt : Bytes) (ok : Bool)
      → Remembers s l
      → Remembers s (send_selected l found pkt ok).0
  unfolding send_selected
  send_selected-Remembers l null pkt ok r = r
  send_selected-Remembers l outside pkt ok r = r
  send_selected-Remembers l (here nodes) pkt ok r = send_to-Remembers l nodes pkt r

  keeps : {out : Sender × Answer} → Remembers s out.0 → Keeps s out
  keeps r = record { remembers = r }

  send_magic-Remembers :
      (l : Sender) (pkt : Bytes) → Remembers s l → Remembers s (send_magic m l pkt)
  unfolding send_magic
  send_magic-Remembers l pkt r =
      let masters = send_if-Remembers (has_dest (hdr_selection pkt) to_masters) l m.masters pkt r in
      let peers = send_if-Remembers (has_dest (hdr_selection pkt) to_peers) _ m.peers pkt masters in
      send_if-Remembers (has_dest (hdr_selection pkt) to_pollers) _ m.pollers pkt peers

  send_normal-Keeps :
      (l : Sender) (pkt : Bytes) (ok : Bool) → Remembers s l → Keeps s (send_normal m l pkt ok)
  unfolding send_normal
  send_normal-Keeps l pkt ok r =
      let most = send_to-Remembers l (m.masters ++ m.peers) pkt r in
      either (Keeps s) _ (keeps (send_to-Remembers l (m.masters ++ (m.peers ++ m.pollers)) pkt r)) (
        either (Keeps s) _ (keeps most) (
          keeps (
            send_selected-Remembers _ (nodes_by_sel_id m.selections (hdr_selection pkt)) pkt ok
              most)))

  send_network-Keeps :
      (l : Sender) (pkt : Bytes) (ok : Bool) → Remembers s l → Keeps s (send_network m (l, pkt, ok))
  unfolding send_network
  send_network-Keeps l pkt ok r = either (Keeps s) (num_nodes m == 0) (keeps {out = (l, fine)} r) (
      either (Keeps s) (hdr_code pkt == magic_nonet) (keeps {out = (l, fine)} r) (
        either (Keeps s) (magic_destination (hdr_selection pkt))
          (keeps {out = (send_magic m l pkt, fine)} (send_magic-Remembers l pkt r))
          (send_normal-Keeps l pkt ok r)))

  daemon-Marked : (k : ℕ) (pkt : Bytes) → Marked (ipc_send_event m k pkt).0
  unfolding ipc_send_event stamp mark
  daemon-Marked k pkt = by_delivery (m.daemon k)
    where
      by_delivery :
          (d : Delivery)
          → Marked (
              (elim d as (λ d'. Bytes × Bool) [
                | delivered ↦ (stamp m.uuid (mark (set_sent (m.sent_at k) pkt)), true)
                | backlogged tried ↦ (tried_with m tried (mark (set_sent (m.sent_at k) pkt)), true)
                | lost tried ↦ (tried_with m tried (mark (set_sent (m.sent_at k) pkt)), false)
              ]).0)
      by_delivery delivered = inl refl
      by_delivery (backlogged true) = inl refl
      by_delivery (backlogged false) = inl refl
      by_delivery (lost true) = inl refl
      by_delivery (lost false) = inl refl

  remember-Remembers : (out : Bytes × Bool) → Marked out.0 → Remembers s (remember s out)
  unfolding remember
  remember-Remembers (p, true) h = (h, refl)
  remember-Remembers (p, false) h = (inr refl, refl)

  tell_daemon-Remembers : (pkt : Bytes) → Marked s.last_pkt → Remembers s (tell_daemon m s pkt).0
  unfolding tell_daemon
  tell_daemon-Remembers pkt h =
      either (λ (out : Sender × Bytes × Bool). Remembers s out.0) _
        (remember-Remembers (ipc_send_event m s.calls pkt) (daemon-Marked s.calls pkt)) (h, refl)

  send_encoded-Keeps :
      (pkt : Bytes) → Marked s.last_pkt → Unsent pkt → Keeps s (send_encoded m s pkt)
  unfolding send_encoded
  send_encoded-Keeps pkt h u =
      let t = tell_daemon m s pkt in
      either (Keeps s) _ (keeps (h, refl)) (
        subst (Keeps s) (sym (if_false _ _ (is_dupe-Marked s pkt u h)))
          (send_network-Keeps t.0 t.1 t.2 (tell_daemon-Remembers pkt h)))

  send_generic-Keeps :
      (encode : Bytes → Bytes) (pkt : Bytes)
      → Marked s.last_pkt
      → Unsent (encode pkt)
      → Keeps s (send_generic m encode s pkt)
  unfolding send_generic
  send_generic-Keeps encode pkt h u =
      either (Keeps s)
        ((num_nodes m == 0 || hdr_code pkt == magic_nonet)
          && not (daemon_wants m.callbacks (hdr_type pkt)))
        (keeps {out = (s, fine)} (h, refl))
        (either (Keeps s)
          (not_int (hdr_code pkt) == magic_nonet && not (daemon_wants m.callbacks (hdr_type pkt)))
          (keeps {out = (s, fine)} (h, refl)) (send_encoded-Keeps (encode pkt) h u))

-- A call of `send_generic`: the setting of `check_dupes`, `merlin_encode_event` for its body, and the packet.
pub record Call : Type 0 where
  pub check : Bool
  pub encode : Bytes → Bytes
  pub pkt : Bytes

unfoldable pub send_each : Site → Sender → List Call → Sender
send_each m s [] = s
send_each m s (c ∷ calls) =
    send_each m (send_generic m c.encode (record s { check_dupes = c.check }) c.pkt).0 calls

abbrev pub AllUnsent : List Call → Type 0
AllUnsent [] = Unit
AllUnsent (c ∷ calls) = Unsent (c.encode c.pkt) × AllUnsent calls

-- Events come without a signature and encode into a body of at most 128 KiB. From a sender that compares with
-- the packet of zeros, or with one that has a signature, whatever calls of `send_generic` are made, with
-- whatever settings of `check_dupes`: none of the events is taken for a duplicate.
pub send_each-no_dupes :
    (m : Site) (s : Sender) (calls : List Call)
    → Marked s.last_pkt
    → AllUnsent calls
    → (send_each m s calls).dupes ≡ s.dupes
unfolding send_each
send_each-no_dupes m s [] h u = refl
send_each-no_dupes m s (c ∷ calls) h (u, us) =
    let kept = send_generic-Keeps m (record s { check_dupes = c.check }) c.encode c.pkt h u in
    let (marked, same) = kept.remembers in
    send_each-no_dupes m (send_generic m c.encode (record s { check_dupes = c.check }) c.pkt).0
      calls marked us
    ∙ same
