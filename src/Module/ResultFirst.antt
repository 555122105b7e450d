-- ===== src/Module/ResultFirst.antt =====
-- A notification is sent right behind the check result that led to it.
use mathlib.Core.Path.{subst}
use monitor_merlin.Base.{
  ℕ, ◌≤◌, ◌≡◌, refl, sym, ap, ◌∙◌, false, ◌&&◌, none, some, List, [], ◌++◌, arith, length, if_false,
}
use monitor_merlin.Binlog.{Bytes}
use monitor_merlin.Node.Packet.{value16}
use monitor_merlin.Module.Routing.{Site, Sender}
use monitor_merlin.Module.Fields.{Alike}
use monitor_merlin.Module.Recipients.{when, recipients, calls_of}
use monitor_merlin.Module.Destinations.{passes, send_generic-Sends}
use monitor_merlin.Module.Hooks.{
  set_selection, new_packet, Broker, is_host_result, Origin, Reply, send, send_host_status,
  flush_held, flush_notification, processed, then_flush, on_check, hook_host_result, host_check,
  dispatch, merlin_mod_hook, dest_peers_masters, same_object,
}
use monitor_merlin.Module.Echo.{Encodes}

-- A packet for the masters and peers, as the hooks on results and notifications make it.
abbrev pub shared_packet : ℕ → Bytes
shared_packet cb = set_selection dest_peers_masters (new_packet cb)

abbrev pub partners : Site → List ℕ
partners m = m.masters ++ (m.peers ++ [])

partners_get : (m : Site) (cb : ℕ) → recipients m (shared_packet cb) ≡ partners m
unfolding set_selection new_packet value16
partners_get m cb = refl

long_shared : (cb : ℕ) → 128 ≤ length (shared_packet cb)
unfolding set_selection new_packet
long_shared cb = omega arith

module _ (m : Site) (timed : (k : ℕ) → length (m.sent_at k) ≡ 16) where
  -- The partners get a packet like that one, unless `send_generic` keeps it from the network.
  abbrev pub Shares : (Bytes → Bytes) → Sender → ℕ → List (ℕ × Bytes) → Type 0
  Shares encode s cb after =
      (p : Bytes) × Alike p (shared_packet cb)
      × (after
          ≡ s.sent ++ calls_of p (when (passes m timed s (encode (shared_packet cb))) (partners m)))

  send-Shares :
      (encode : Bytes → Bytes) (b : Broker) (cb : ℕ)
      → Encodes encode
      → Shares encode b.sender cb (send m encode b (shared_packet cb)).0.sender.sent
  unfolding send
  send-Shares encode b cb good =
      let (p, like, sent) =
        send_generic-Sends m timed encode b.sender (shared_packet cb)
          (good.keeps_header (shared_packet cb) (long_shared cb))
          (good.keeps_fields (shared_packet cb) (long_shared cb)) in
      (
        p,
        like,
        sent
            ∙ ap
                (λ r.
                  b.sender.sent
                  ++ calls_of p (when (passes m timed b.sender (encode (shared_packet cb))) r))
                (partners_get m cb),
      )

  -- First the result, then the notification that was held, which is held no more.
  abbrev pub ResultFirst :
      (Bytes → Bytes) → (Bytes → Bytes) → Broker → ℕ → ℕ → Sender → Broker → Type 0
  ResultFirst encode encode' b cb nb s after =
      (between : Sender) × Shares encode s cb between.sent
      × Shares encode' between nb after.sender.sent
      × (after.held ≡ none)

  flushed :
      (encode' : Bytes → Bytes) (b : Broker) (nb : ℕ)
      → b.held ≡ some (record { pkt = shared_packet nb; encode = encode' })
      → Encodes encode'
      → Shares encode' b.sender nb (flush_notification m b).sender.sent
        × ((flush_notification m b).held ≡ none)
  unfolding flush_held
  flushed encode' b nb held good =
      let (p, like, sent) = send-Shares encode' b nb good in
      (
        (p, like, ap (λ h. (flush_held m b h).sender.sent) held ∙ sent),
        ap (λ h. (flush_held m b h).held) held,
      )

  module _ (encode encode' : Bytes → Bytes) (good : Encodes encode) (good' : Encodes encode')
      (b : Broker) (o : Origin) (cb nb id : ℕ) (here : o.from_node ≡ false)
      (held : b.held ≡ some (record { pkt = shared_packet nb; encode = encode' })) where
    -- What was set for the sending of the status.
    abbrev pub host_sender : Sender
    host_sender = record b.sender { check_dupes = same_object b.last_host id }

    host_ready : Broker
    host_ready = record b { sender = host_sender; last_host = some id }

    -- A host check of our own was processed while a notification was held, made by the end of a notification. Where
    -- the encoding keeps the header, all masters and peers get the result, and then the notification, each unless
    -- `send_generic` keeps it from the network; no notification is held afterwards.
    pub host_check-ResultFirst :
        ResultFirst encode encode' b cb nb host_sender
          (merlin_mod_hook m encode b o cb (host_check id processed)).0
    unfolding merlin_mod_hook dispatch hook_host_result on_check send_host_status then_flush
        host_ready send
    host_check-ResultFirst =
        let b1 = (send m encode host_ready (shared_packet cb)).0 in
        let (second, empty) = flushed encode' b1 nb held good' in
        let go : (merlin_mod_hook m encode b o cb (host_check id processed))
            ≡ then_flush m (send m encode host_ready (shared_packet cb)) =
          if_false _ _ (ap (λ f. f && is_host_result o.received) here) in
        (
          b1.sender,
          send-Shares encode host_ready cb good,
          subst (λ (r : Broker × Reply). Shares encode' b1.sender nb r.0.sender.sent) (sym go)
              second,
          ap (λ (r : Broker × Reply). r.0.held) go ∙ empty,
        )
