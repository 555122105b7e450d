-- ===== src/Module/Destinations.antt =====
-- Which nodes get a packet of `send_generic` of module/hooks.c.
use monitor_merlin.Base.{
  ℕ, ◌≤◌, ◌≡◌, refl, sym, ap, ◌∙◌, ◌⊎◌, inl, inr, Bool, true, false, not, ◌&&◌, ◌||◌, ◌++◌,
  append-nil, arith, length, ◌==◌, if_true, if_false, Bool-cases,
}
use monitor_merlin.Binlog.{Bytes}
use monitor_merlin.Node.Packet.{hdr_type, hdr_code, hdr_len}
use monitor_merlin.Module.Routing.{
  Site, Sender, Answer, magic_nonet, num_nodes, daemon_wants, is_dupe, count_dupe, not_int,
  remember, tell_daemon, send_network, send_encoded, send_generic, ipc_send_event,
}
use monitor_merlin.Module.Recipients.{
  when, recipients, calls_of, send_network-sent, send_network-none,
}
use monitor_merlin.Module.Fields.{Alike, Alike-self, Alike-trans, Alike-ipc_send_event}

-- What `recipients` reads of a packet.
recipients-Alike : (m : Site) (p q : Bytes) → Alike p q → recipients m p ≡ recipients m q
recipients-Alike m p q a = rw (a.kind, a.selection) refl

module _ (m : Site) (timed : (k : ℕ) → length (m.sent_at k) ≡ 16) where
  remember-sent : (s : Sender) (out : Bytes × Bool) → (remember s out).sent ≡ s.sent
  unfolding remember
  remember-sent s (p, true) = refl
  remember-sent s (p, false) = refl

  -- The packet for the daemon goes to no other node, and leaves the packet with its fields.
  tell_daemon-sent :
      (s : Sender) (p : Bytes)
      → 76 ≤ length p
      → ((tell_daemon m s p).0.sent ≡ s.sent) × Alike (tell_daemon m s p).1 p
  unfolding tell_daemon
  tell_daemon-sent s p long = elim (Bool-cases (daemon_wants m.callbacks (hdr_type p))) [
    | inl told ↦
        rw told (
          remember-sent s (ipc_send_event m s.calls p),
          Alike-ipc_send_event m timed s.calls p long,
        )
    | inr spared ↦ rw spared (refl, Alike-self p)
  ]

  -- The tests that keep a packet from the network.
  abbrev pub passes : Sender → Bytes → Bool
  passes s p =
      not (num_nodes m == 0 || hdr_code p == magic_nonet)
      && (not (hdr_len p == 0) && not (is_dupe s p))

  abbrev Sends : Sender → Bytes → Sender → Type 0
  Sends s p s' =
      (p' : Bytes) × Alike p' p
      × (s'.sent ≡ s.sent ++ calls_of p' (when (passes s p) (recipients m p)))

  -- Nothing was sent, and nothing had to be.
  idle : (s s' : Sender) (p : Bytes) → s'.sent ≡ s.sent → passes s p ≡ false → Sends s p s'
  idle s s' p e no_pass = (
    p,
    Alike-self p,
    e
        ∙ sym (append-nil s.sent)
        ∙ ap (λ c. s.sent ++ calls_of p (when c (recipients m p))) (sym no_pass),
  )

  -- The packet that goes to the network after the one for the daemon.
  onward :
      (s : Sender) (p : Bytes)
      → 76 ≤ length p
      → (hdr_len p == 0) ≡ false
      → is_dupe s p ≡ false
      → Sends s p (send_network m (tell_daemon m s p)).0
  onward s p long whole fresh =
      let t = tell_daemon m s p in
      let (same, alike) = tell_daemon-sent s p long in
      elim (Bool-cases (num_nodes m == 0 || hdr_code p == magic_nonet)) [
        | inl shut ↦
            idle s (send_network m t).0 p
              (send_network-none m t.0 t.1 t.2
                  (ap (λ c. num_nodes m == 0 || c == magic_nonet) alike.code ∙ shut)
                ∙ same)
              (rw shut refl)
        | inr free ↦ (
          t.1,
          alike,
          send_network-sent m t.0 t.1 t.2
                (or_false (num_nodes m == 0) (hdr_code p == magic_nonet) free).0
                (ap (λ c. c == magic_nonet) alike.code
                  ∙ (or_false (num_nodes m == 0) (hdr_code p == magic_nonet) free).1)
              ∙ ap (λ x. x ++ calls_of t.1 (recipients m t.1)) same
              ∙ ap (λ x. s.sent ++ calls_of t.1 x) (recipients-Alike m t.1 p alike)
              ∙ ap (λ c. s.sent ++ calls_of t.1 (when c (recipients m p)))
                  (sym (passing _ _ _ free whole fresh)),
        )
      ]
    where
      or_false : (a b : Bool) → (a || b) ≡ false → (a ≡ false) × (b ≡ false)
      or_false false b e = (refl, e)
      or_false true b e = absurd (cc e)

      passing :
          (a b c : Bool) → a ≡ false → b ≡ false → c ≡ false → (not a && (not b && not c)) ≡ true
      passing a b c e f g = rw (e, f, g) refl

  failing : (a b c : Bool) → (b ≡ true) ⊎ (c ≡ true) → (not a && (not b && not c)) ≡ false
  failing true b c h = refl
  failing false true c h = refl
  failing false false true h = refl
  failing false false false (inl h) = absurd (cc h)
  failing false false false (inr h) = absurd (cc h)

  Sends-as :
      (s : Sender) (p : Bytes) {out out' : Sender × Answer}
      → out ≡ out'
      → Sends s p out'.0
      → Sends s p out.0
  Sends-as s p e (p', alike, same) = (p', alike, ap (λ (r : Sender × Answer). r.0.sent) e ∙ same)

  send_encoded-Sends : (s : Sender) (p : Bytes) → 76 ≤ length p → Sends s p (send_encoded m s p).0
  unfolding send_encoded
  send_encoded-Sends s p long = elim (Bool-cases (hdr_len p == 0)) [
    | inl empty ↦ Sends-as s p (if_true _ _ empty) (idle s s p refl (failing _ _ _ (inl empty)))
    | inr whole ↦ elim (Bool-cases (is_dupe s p)) [
      | inl dupe ↦
          Sends-as s p (if_false _ _ whole ∙ if_true _ _ dupe)
            (idle s (count_dupe s p) p (unfold count_dupe in refl) (failing _ _ _ (inr dupe)))
      | inr fresh ↦
          Sends-as s p (if_false _ _ whole ∙ if_false _ _ fresh) (onward s p long whole fresh)
    ]
  ]

  not_int-code : (n : ℕ) → (not_int n == magic_nonet) ≡ false
  not_int-code n = ground arith

  -- The first return of `send_generic`.
  abbrev unwanted : Bytes → Bool
  unwanted pkt =
      (num_nodes m == 0 || hdr_code pkt == magic_nonet)
      && not (daemon_wants m.callbacks (hdr_type pkt))

  send_generic_wanted :
      (encode : Bytes → Bytes) (s : Sender) (pkt : Bytes)
      → unwanted pkt ≡ false
      → send_generic m encode s pkt ≡ send_encoded m s (encode pkt)
  unfolding send_generic
  send_generic_wanted encode s pkt e =
      if_false _ _ e
      ∙ if_false _ _ (
          ap (λ c. c && not (daemon_wants m.callbacks (hdr_type pkt)))
            (not_int-code (hdr_code pkt)))

  unwanted_shut :
      (encode : Bytes → Bytes) (s : Sender) (pkt : Bytes)
      → Alike (encode pkt) pkt
      → unwanted pkt ≡ true
      → passes s (encode pkt) ≡ false
  unwanted_shut encode s pkt alike e =
      ap (λ c. not c && (not (hdr_len (encode pkt) == 0) && not (is_dupe s (encode pkt))))
        (ap (λ c. num_nodes m == 0 || c == magic_nonet) alike.code ∙ and_true _ _ e)
    where
      and_true : (a b : Bool) → (a && b) ≡ true → a ≡ true
      and_true true b h = refl
      and_true false b h = absurd (cc h)

  -- For a body that encodes into a packet with the same type, code and selection: exactly the nodes of
  -- `recipients` get the packet, in this order, unless there are no nodes, the packet is marked MAGIC_NONET,
  -- the body is empty or the packet is a duplicate; then no node gets it. So it does not matter for the network
  -- whether the daemon wants such packets.
  pub send_generic-Sends :
      (encode : Bytes → Bytes) (s : Sender) (pkt : Bytes)
      → 76 ≤ length (encode pkt)
      → Alike (encode pkt) pkt
      → (p' : Bytes) × Alike p' pkt
        × ((send_generic m encode s pkt).0.sent
            ≡ s.sent ++ calls_of p' (when (passes s (encode pkt)) (recipients m pkt)))
  unfolding send_generic
  send_generic-Sends encode s pkt long alike = elim (Bool-cases (unwanted pkt)) [
    | inl shut ↦ (
      pkt,
      Alike-self pkt,
      ap (λ (r : Sender × Answer). r.0.sent) (if_true _ _ shut)
          ∙ sym (append-nil s.sent)
          ∙ ap (λ c. s.sent ++ calls_of pkt (when c (recipients m pkt)))
              (sym (unwanted_shut encode s pkt alike shut)),
    )
    | inr open' ↦
        (let (p', alike', sent) = send_encoded-Sends s (encode pkt) long in
          (
            p',
            Alike-trans p' (encode pkt) pkt alike' alike,
            ap (λ (r : Sender × Answer). r.0.sent) (send_generic_wanted encode s pkt open')
                ∙ sent
                ∙ ap (λ x. s.sent ++ calls_of p' (when (passes s (encode pkt)) x))
                    (recipients-Alike m (encode pkt) pkt alike),
          ))
  ]
