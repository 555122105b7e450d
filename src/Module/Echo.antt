-- ===== src/Module/Echo.antt =====
-- Events that came from another node are not sent on by the hooks, and a notification follows its result.
use monitor_merlin.Base.{
  ℕ, ◌≤◌, ◌≡◌, refl, ap, ap₂, ◌∙◌, Bool, true, false, not, ◌&&◌, ◌||◌, List, [], ◌∷◌, ◌++◌,
  append-nil, arith, length, ◌==◌, if_true, if_false, Bool-cases, inl, inr,
}
use monitor_merlin.Binlog.{Bytes}
use monitor_merlin.Node.Packet.{hdr_code, value16}
use monitor_merlin.Module.Routing.{Site, Answer, fine, magic_nonet, num_nodes}
use monitor_merlin.Module.Notify.{Obeys, at_once, goes_on, cancelled}
use monitor_merlin.Module.Fields.{Alike}
use monitor_merlin.Module.Recipients.{when, recipients, calls_of}
use monitor_merlin.Module.Destinations.{send_generic-Sends}
use monitor_merlin.Module.Hooks.{
  set_code, new_packet, Broker, host_result, service_result, is_host_result, is_service_result,
  Origin, Reply, done, send, CheckEvent, precheck, processed, other, on_check, hook_host_result,
  hook_service_result, answered, Comment, hook_comment, hook_downtime, Command, ignored, global,
  servicegroup, on_object, on_hostgroup, for_owner, address_command, forward, hook_external_command,
  Callback, host_check, service_check, comment, downtime, command, contact_method, local_only,
  status, dispatch, merlin_mod_hook,
}

-- What is relied on of `merlin_encode_event`: it writes the length and the body, behind the other fields.
pub record Encodes (encode : Bytes → Bytes) : Type 0 where
  pub keeps_header : (p : Bytes) → 128 ≤ length p → 76 ≤ length (encode p)
  pub keeps_fields : (p : Bytes) → 128 ≤ length p → Alike (encode p) p

-- The callbacks whose events may come from another node; for a check, the event that is handled is a
-- check result or status of the same kind of object.
abbrev pub MayEcho : Callback → Origin → Type 0
MayEcho (host_check id e) o = o.received ≡ host_result
MayEcho (service_check id e) o = o.received ≡ service_result
MayEcho contact_method o = ⊥
MayEcho c o = Unit

module _ (m : Site) (timed : (k : ℕ) → length (m.sent_at k) ≡ 16) (encode : Bytes → Bytes)
    (good : Encodes encode) where
  -- A packet marked MAGIC_NONET goes to no node.
  send-nonet :
      (b : Broker) (pkt : Bytes)
      → 128 ≤ length pkt
      → hdr_code pkt ≡ magic_nonet
      → (send m encode b pkt).0.sender.sent ≡ b.sender.sent
  unfolding send
  send-nonet b pkt long marked =
      let alike = good.keeps_fields pkt long in
      let (p', like, sent) =
        send_generic-Sends m timed encode b.sender pkt (good.keeps_header pkt long) alike in
      sent
      ∙ ap (λ c. b.sender.sent ++ calls_of p' (when c (recipients m pkt)))
          (blocked (num_nodes m == 0) (hdr_code (encode pkt) == magic_nonet) _
            (ap (λ c. c == magic_nonet) (alike.code ∙ marked)))
      ∙ append-nil b.sender.sent
    where
      blocked : (a c d : Bool) → c ≡ true → (not (a || c) && d) ≡ false
      blocked true c d e = refl
      blocked false true d e = refl
      blocked false false d e = absurd (cc e)

  module _ (cb : ℕ) where
    long_quiet : 128 ≤ length (set_code magic_nonet (new_packet cb))
    unfolding set_code new_packet
    long_quiet = omega arith

    code_quiet : hdr_code (set_code magic_nonet (new_packet cb)) ≡ magic_nonet
    unfolding set_code new_packet value16
    code_quiet = refl

    quiet_sent :
        (b : Broker)
        → (send m encode b (set_code magic_nonet (new_packet cb))).0.sender.sent ≡ b.sender.sent
    quiet_sent b = send-nonet b (set_code magic_nonet (new_packet cb)) long_quiet code_quiet

    module _ (o : Origin) (away : o.from_node ≡ true) where
      on_check-silent :
          (st : Broker → Bytes → Broker × Answer) (b : Broker) (came : Bool) (e : CheckEvent)
          → came ≡ true
          → (on_check m st b came (new_packet cb) e).0.sender.sent ≡ b.sender.sent
      unfolding on_check
      on_check-silent st b came (precheck mine blocked) r = refl
      on_check-silent st b came other r = refl
      on_check-silent st b came processed r =
          ap (λ (x : Broker × Reply). x.0.sender.sent) (if_true _ _ r)

      forward-silent :
          (b : Broker) (c : Command) (obeys : Obeys)
          → (forward m encode b o (new_packet cb) c obeys).0.sender.sent ≡ b.sender.sent
      unfolding forward address_command
      forward-silent b c at_once = refl
      forward-silent b c goes_on =
          ap (λ p. (send m encode b p).0.sender.sent) (if_true _ _ away) ∙ quiet_sent b
      forward-silent b c cancelled =
          ap (λ p. (send m encode b p).0.sender.sent) (if_true _ _ away) ∙ quiet_sent b

      abbrev of_global : List ℕ → List ℕ → Broker → Broker × Reply
      of_global peers pollers b = elim peers [
        | ◌∷◌ n rest ↦ forward m encode b o (new_packet cb) global goes_on
        | [] ↦ elim pollers [
          | ◌∷◌ n rest ↦ forward m encode b o (new_packet cb) global goes_on
          | [] ↦ (b, done fine)
        ]
      ]

      global-silent :
          (peers pollers : List ℕ) (b : Broker)
          → (of_global peers pollers b).0.sender.sent ≡ b.sender.sent
      global-silent (n ∷ rest) pollers b = forward-silent b global goes_on
      global-silent [] (n ∷ rest) b = forward-silent b global goes_on
      global-silent [] [] b = refl

      command-silent :
          (b : Broker) (c : Command)
          → (hook_external_command m encode b o (new_packet cb) c).0.sender.sent ≡ b.sender.sent
      unfolding hook_external_command
      command-silent b ignored = refl
      command-silent b global = global-silent m.peers m.pollers b
      command-silent b servicegroup = forward-silent b servicegroup goes_on
      command-silent b (on_object found) = forward-silent b (on_object found) goes_on
      command-silent b (on_hostgroup found) = forward-silent b (on_hostgroup found) goes_on
      command-silent b (for_owner found obeys) = forward-silent b (for_owner found obeys) obeys

      comment-silent :
          (b : Broker) (c : Comment)
          → (hook_comment m encode b o (new_packet cb) c).0.sender.sent ≡ b.sender.sent
      unfolding hook_comment
      comment-silent b c = elim (Bool-cases c.is_add) [
        | inl add ↦ ap (λ (x : Broker × Reply). x.0.sender.sent) (if_true _ _ add)
        | inr later ↦
            ap (λ (x : Broker × Reply). x.0.sender.sent) (if_false _ _ later ∙ if_true _ _ away)
      ]

      -- While an event from another node is handled, a callback of one of these kinds sends nothing to any node:
      -- a comment, a downtime, an external command, a callback that is never sent, a status update, a host
      -- check where the event is a host check result or host status, and a service check where it is a service
      -- check result or service status. Times are 16 bytes, and the encoding keeps the other fields of the
      -- header.
      pub merlin_mod_hook-no_echo :
          (b : Broker) (c : Callback)
          → MayEcho c o
          → (merlin_mod_hook m encode b o cb c).0.sender.sent ≡ b.sender.sent
      unfolding merlin_mod_hook dispatch hook_host_result hook_service_result hook_downtime answered
      merlin_mod_hook-no_echo b (host_check id e) r =
          on_check-silent _ _ _ e (ap₂ (λ f g. f && is_host_result g) away r)
      merlin_mod_hook-no_echo b (service_check id e) r =
          on_check-silent _ _ _ e (ap₂ (λ f g. f && is_service_result g) away r)
      merlin_mod_hook-no_echo b (comment c) r =
          comment-silent (record b { sender = record b.sender { check_dupes = false } }) c
      merlin_mod_hook-no_echo b (downtime stopped selection) r =
          ap (λ (x : Broker × Reply). x.0.sender.sent) (if_true _ _ away)
      merlin_mod_hook-no_echo b (command c) r =
          command-silent (record b { sender = record b.sender { check_dupes = false } }) c
      merlin_mod_hook-no_echo b contact_method r = elim r [ ]
      merlin_mod_hook-no_echo b local_only r =
          quiet_sent (record b { sender = record b.sender { check_dupes = false } })
      merlin_mod_hook-no_echo b status r = refl
