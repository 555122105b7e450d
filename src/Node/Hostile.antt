-- ===== src/Node/Hostile.antt =====
-- `net_input` on bytes that are no stream of packets.
use native.Mathlib.Decide.{dec_lt}
use mathlib.Core.Path.{subst}
use monitor_merlin.Base.{
  ℕ, zero, suc, ◌+◌, ◌≤◌, ◌<◌, ◌≡◌, refl, ap, ◌∙◌, ◌⊎◌, inl, inr, Bool, true, false, Option, none,
  some, List, [], ◌∷◌, ◌++◌, append_assoc, arith, length, take, drop, ltb, length-drop,
  length-append, if_true, if_false, Bool-cases,
}
use monitor_merlin.Binlog.{Bytes}
use monitor_merlin.Node.Config.{same_bytes}
use monitor_merlin.Node.Packet.{Valid, hdr_size, hdr_len}
use monitor_merlin.Node.Send.{add64}
use monitor_merlin.Node.Receive.{
  BufferQueue, QueueLaws, Intake, Arrival, got, not_yet, failed, closed, signature, is_signed,
  hang_up, received, node_recv, unshifted, take_event, node_get_event, after_handle, handle_all,
  after_recv, net_input,
}
use monitor_merlin.Node.Framing.{AllFramed, stream}
use monitor_merlin.Node.Taking.{
  get-Unfinished, get_framed, get_forged, Holds-taken, taken, get_peeked, hdr_len-take,
}
use monitor_merlin.Node.Arrive.{
  deliver, Left-hang_up, handle_all_stop, handle_all_next, Handles, Handles-as, after_first,
  after_both,
}

-- What the socket gave.
abbrev pub bytes_of : Arrival → Bytes
bytes_of (got bytes) = bytes
bytes_of other = []

module _ (b : BufferQueue) (laws : QueueLaws b) where
  open b use {Store}
  open laws use {Holds}

  -- A packet was taken from the buffer, or none.
  Got : Intake Store → Bytes → Type 0
  Got l x =
      ((l' : Intake Store) × (node_get_event b l ≡ (l', none)))
      ⊎ ((l' : Intake Store) × (e : Bytes) × (y : Bytes) × (node_get_event b l ≡ (l', some e))
          × Holds l'.bq y
          × (length y < length x))

  take_event-Got :
      (l : Intake Store) (x : Bytes)
      → Holds l.bq x
      → hdr_size ≤ length x
      → hdr_size + hdr_len x ≤ length x
      → node_get_event b l ≡ take_event b l (take hdr_size x)
      → Got l x
  unfolding Got take_event unshifted
  take_event-Got l x h long whole e = elim (Bool-cases (is_signed (take hdr_size x))) [
    | inr forged ↦ inl (hang_up b l, e ∙ if_false _ _ forged)
    | inl signed ↦ inr (
      taken b laws l (hdr_size + hdr_len x),
      take (hdr_size + hdr_len x) x,
      drop (hdr_size + hdr_len x) x,
      e
          ∙ if_true _ _ signed
          ∙ ap
              (λ n.
                unshifted b (record l { events_read = add64 l.events_read 1 })
                  (b.unshift l.bq (hdr_size + n)))
              (hdr_len-take x long)
          ∙ ap
              (λ o.
                unshifted b (record l { events_read = add64 l.events_read 1 })
                  ((b.unshift l.bq (hdr_size + hdr_len x)).0, o))
              (laws.unshifts l.bq x (hdr_size + hdr_len x) h whole),
      laws.shortens l.bq x (hdr_size + hdr_len x) h whole,
      omega (arith, length-drop (hdr_size + hdr_len x) x, long),
    )
  ]

  get_Got : (l : Intake Store) (x : Bytes) → Holds l.bq x → Got l x
  unfolding Got
  get_Got l x h = elim (dec_lt (length x) hdr_size) [
    | yes short ↦ inl (l, get-Unfinished b laws l x h (inl short))
    | no long ↦ elim (dec_lt (length x) (hdr_size + hdr_len x)) [
      | yes more ↦ inl (l, get-Unfinished b laws l x h (inr more))
      | no whole ↦ take_event-Got l x h (omega (arith, long)) (omega (arith, whole)) (
          get_peeked b laws l x h (omega (arith, long))
          ∙ if_false {c = ltb (length x) (hdr_size + hdr_len x)} _ _ (ground (arith, whole)))
    ]
  ]

  module _ {World : Type 0} (handle : World → Bytes → World × Bool) where
    abbrev pub Ends : Option ((World × Intake Store) × ℕ) → Type 0
    Ends out = (done : (World × Intake Store) × ℕ) × (out ≡ some done)

    Holds-after :
        (l : Intake Store) (one : World × Bool) (y : Bytes)
        → Holds l.bq y
        → (z : Bytes) × Holds (after_handle b handle l one).1.bq z × (length z ≤ length y)
    unfolding after_handle hang_up
    Holds-after l (w, true) y h = ([], laws.created, omega arith)
    Holds-after l (w, false) y h = (y, h, omega arith)

    handle_all-Ends :
        (fuel k : ℕ) (w : World) (l : Intake Store) (x : Bytes)
        → Holds l.bq x
        → length x < fuel
        → Ends (handle_all b handle fuel k (w, l))
    unfolding after_handle Got
    handle_all-Ends zero k w l x h enough = absurd (omega arith)
    handle_all-Ends (suc fuel) k w l x h enough = elim (get_Got l x h) [
      | inl last ↦ (((w, last.0), k), handle_all_stop b laws handle fuel k w l last.0 last.1)
      | inr more ↦
          (let (l', e, y, gets, holds, shorter) = more in
            let (z, held, less) = Holds-after l' (handle w e) y holds in
            let (done, answer) =
              handle_all-Ends fuel (k + 1) (handle w e).0 (after_handle b handle l' (handle w e)).1
                z held (omega arith) in
            (done, handle_all_next b laws handle fuel k w l l' e gets ∙ answer))
    ]

    after_recv-Ends :
        (fuel later now : ℕ) (w : World) (l : Intake Store) (r : Bytes) (a : Arrival)
        → Holds l.bq r
        → length (r ++ bytes_of a) < fuel
        → Ends (after_recv b handle fuel later w (received b l now a))
    unfolding received after_recv
    after_recv-Ends fuel later now w l r (got bytes) h enough =
        handle_all-Ends fuel 0 w _ (r ++ bytes) (laws.pushed l.bq r bytes h) enough
    after_recv-Ends fuel later now w l r not_yet h enough =
        handle_all-Ends fuel 0 w _ r h (omega (arith, enough, length-append r []))
    after_recv-Ends fuel later now w l r failed h enough = (((w, hang_up b l), 0), refl)
    after_recv-Ends fuel later now w l r closed h enough = (((w, hang_up b l), 0), refl)

    -- Whatever the bytes in the buffer and those that the socket gives, with more fuel than there are of
    -- both, and whatever `handle_event` does: `net_input` ends.
    pub net_input-Ends :
        (fuel : ℕ) (w : World) (l : Intake Store) (now later : ℕ) (r : Bytes) (a : Arrival)
        → Holds l.bq r
        → length (r ++ bytes_of a) < fuel
        → Ends (net_input b handle fuel (w, l) now later a)
    unfolding net_input node_recv
    net_input-Ends fuel w l now later r a h enough = elim (Bool-cases l.has_sock) [
      | inl open' ↦
          (let (done, e) = after_recv-Ends fuel later now w l r a h enough in
            (done, ap (after_recv b handle fuel later w) (if_true _ _ open') ∙ e))
      | inr shut ↦ (
        ((w, l), 0),
        unfold after_recv in ap (after_recv b handle fuel later w) (if_false _ _ shut),
      )
    ]

    after_both_cons :
        (w : World) (e : Bytes) (q : List Bytes)
        → after_both b laws handle (handle w e) ((deliver handle (handle w e).0 q).0, true)
          ≡ ((deliver handle w (e ∷ q)).0, true)
    after_both_cons w e q = elim (Bool-cases (handle w e).1) [
      | inl shut ↦ rw shut refl
      | inr open' ↦ rw open' refl
    ]

    -- Packets of a stream that stand in the buffer, and behind them a whole one that does not start with the
    -- signature, with more fuel than packets: the loop of `net_input` ends; the packets of the stream are
    -- handed to `handle_event`, up to the first that disconnects the node, and nothing else is;
    -- the node is disconnected and its buffer emptied, whatever bytes came behind.
    pub handle_all-Refuses :
        (q : List Bytes) (bad y : Bytes) (fuel k : ℕ) (w : World) (l : Intake Store)
        → suc (length q) < fuel
        → AllFramed q
        → Valid bad
        → same_bytes (take 8 bad) signature ≡ false
        → Holds l.bq (stream q ++ (bad ++ y))
        → Handles b laws handle
            (handle_all b handle fuel k (w, l))
            ((deliver handle w q).0, true)
            l
            []
    handle_all-Refuses q bad y zero k w l enough f v forged h = absurd (omega arith)
    handle_all-Refuses q bad y (suc zero) k w l enough f v forged h = absurd (omega arith)
    handle_all-Refuses [] bad y (suc (suc fuel)) k w l enough f v forged h = (
      hang_up b l,
      k,
      handle_all_stop b laws handle (suc fuel) k w l (hang_up b l)
          (get_forged b laws l bad y v h forged),
      Left-hang_up b laws handle l l [],
    )
    handle_all-Refuses (e ∷ q) bad y (suc (suc fuel)) k w l enough (f, fs) v forged h =
        let held = rw (append_assoc e (stream q) (bad ++ y)) at h in
        let l1 = taken b laws l (length e) in
        rw
          (handle_all_next b laws handle (suc fuel) k w l l1 e
            (get_framed b laws l e (stream q ++ (bad ++ y)) f.valid held f.signed))
          (subst
            (λ d.
              Handles b laws handle
                (handle_all b handle (suc fuel) (k + 1) (after_handle b handle l1 (handle w e))) d l
                [])
            (after_both_cons w e q)
            (after_first b laws handle fuel (k + 1) l l1 (handle w e)
              ((deliver handle (handle w e).0 q).0, true) []
              (λ go.
                Handles-as b laws handle _ ((deliver handle (handle w e).0 q).0, true) l l1 [] refl
                  refl
                  (handle_all-Refuses q bad y (suc fuel) (k + 1) (handle w e).0 l1 (omega arith) fs
                    v forged (Holds-taken b laws l e (stream q ++ (bad ++ y)) f.valid held)))))
