-- ===== src/Node/Taking.antt =====
-- What `node_get_event` takes from the buffer queue of a node.
use native.Mathlib.Decide.{dec_lt}
use monitor_merlin.Base.{
  ℕ, ◌+◌, ◌≤◌, ◌≡◌, refl, sym, ap, ◌∙◌, inl, inr, true, false, none, some, [], ◌∷◌, ◌++◌, arith,
  length, take, drop, ltb, lt→ltb, length-append, length-take, take-length, drop-length, take-drop,
  if◌then◌else◌, if_true, if_false,
}
use monitor_merlin.Binlog.{Bytes}
use monitor_merlin.Node.Config.{same_bytes}
use monitor_merlin.Node.Packet.{Valid, hdr_size, hdr_len, hdr_len-append}
use monitor_merlin.Node.Send.{add64}
use monitor_merlin.Node.Receive.{
  BufferQueue, QueueLaws, Intake, signature, hang_up, unshifted, take_event, after_peek,
  node_get_event,
}
use monitor_merlin.Node.Framing.{Unfinished, take-take-append}

same_bytes_refl : (x : Bytes) → same_bytes x x ≡ true
same_bytes_refl [] = refl
same_bytes_refl (a ∷ x) = ground (arith, same_bytes_refl x)

pub hdr_len-take : (x : Bytes) → hdr_size ≤ length x → hdr_len (take hdr_size x) ≡ hdr_len x
hdr_len-take x h =
    sym (hdr_len-append (take hdr_size x) (drop hdr_size x) (omega (arith, length-take hdr_size x)))
    ∙ ap hdr_len (take-drop hdr_size x)

take-take-le : (n m : ℕ) (x : Bytes) → n ≤ m → m ≤ length x → take n (take m x) ≡ take n x
take-take-le n m x h k =
    sym (take-take-append n (take m x) (drop m x) (omega (arith, length-take m x, h, k)))
    ∙ ap (take n) (take-drop m x)

module _ (b : BufferQueue) (laws : QueueLaws b) where
  open b use {Store}
  open laws use {Holds}

  -- With a whole header in the buffer, the length in it decides.
  pub get_peeked :
      (l : Intake Store) (x : Bytes)
      → Holds l.bq x
      → hdr_size ≤ length x
      → node_get_event b l ≡ (
          if ltb (length x) (hdr_size + hdr_len x)
          then (l, none)
          else take_event b l (take hdr_size x))
  unfolding node_get_event after_peek
  get_peeked l x h whole =
      ap (after_peek b l) (laws.peeks l.bq x hdr_size h whole)
      ∙ ap
          (λ n.
            if ltb n (hdr_size + hdr_len (take hdr_size x))
            then (l, none)
            else take_event b l (take hdr_size x))
          (laws.counts l.bq x h)
      ∙ ap
          (λ n.
            if ltb (length x) (hdr_size + n) then (l, none) else take_event b l (take hdr_size x))
          (hdr_len-take x whole)

  -- A packet that has not arrived as a whole waits.
  pub get-Unfinished :
      (l : Intake Store) (x : Bytes) → Holds l.bq x → Unfinished x → node_get_event b l ≡ (l, none)
  unfolding node_get_event after_peek
  get-Unfinished l x h u = elim (dec_lt (length x) hdr_size) [
    | yes short ↦ ap (after_peek b l) (laws.peeks_short l.bq x hdr_size h short)
    | no long ↦
        get_peeked l x h (omega (arith, long))
        ∙ if_true _ _ (
            lt→ltb (length x) (hdr_size + hdr_len x)
              (elim u [ inl short ↦ absurd (long short) | inr more ↦ more ]))
  ]

  -- The node after the packet at the front, of `n` bytes, was taken from its buffer.
  abbrev pub taken : Intake Store → ℕ → Intake Store
  taken l n = record l { events_read = add64 l.events_read 1; bq = (b.unshift l.bq n).0 }

  -- A whole packet at the front of the buffer.
  module _ (l : Intake Store) (e y : Bytes) (v : Valid e) (h : Holds l.bq (e ++ y)) where
    len_eq : hdr_len (e ++ y) ≡ hdr_len e
    len_eq = hdr_len-append e y (omega (arith, v.whole))

    enough : ltb (length (e ++ y)) (hdr_size + hdr_len (e ++ y)) ≡ false
    enough = ground (arith, length-append e y, v.whole, len_eq)

    long : hdr_size ≤ length (e ++ y)
    long = omega (arith, length-append e y, v.whole)

    eight : take 8 (take hdr_size (e ++ y)) ≡ take 8 e
    eight =
        take-take-le 8 hdr_size (e ++ y) (omega arith) long
        ∙ take-take-append 8 e y (omega (arith, v.whole))

    size_eq : hdr_size + hdr_len (take hdr_size (e ++ y)) ≡ length e
    size_eq = omega (arith, v.whole, len_eq, hdr_len-take (e ++ y) long)

    get_front : node_get_event b l ≡ take_event b l (take hdr_size (e ++ y))
    get_front = get_peeked l (e ++ y) h long ∙ if_false _ _ enough

    whole_e : (b.unshift l.bq (length e)).1 ≡ some e
    whole_e =
        laws.unshifts l.bq (e ++ y) (length e) h (omega (arith, length-append e y))
        ∙ ap some (take-length e y)

    -- One that starts with the signature is taken,
    pub get_framed : take 8 e ≡ signature → node_get_event b l ≡ (taken l (length e), some e)
    unfolding take_event unshifted
    get_framed signed =
        get_front
        ∙ if_true _ _
            (ap (λ t. same_bytes t signature) (eight ∙ signed) ∙ same_bytes_refl signature)
        ∙ ap
            (λ n. unshifted b (record l { events_read = add64 l.events_read 1 }) (b.unshift l.bq n))
            size_eq
        ∙ ap
            (λ o.
              unshifted b (record l { events_read = add64 l.events_read 1 })
                ((b.unshift l.bq (length e)).0, o))
            whole_e

    -- and the buffer holds what follows it.
    pub Holds-taken : Holds (taken l (length e)).bq y
    Holds-taken =
        rw (drop-length e y) at
          (laws.shortens l.bq (e ++ y) (length e) h (omega (arith, length-append e y)))

    -- Any other ends the connection.
    pub get_forged :
        same_bytes (take 8 e) signature ≡ false → node_get_event b l ≡ (hang_up b l, none)
    unfolding take_event
    get_forged forged = get_front ∙ if_false _ _ (ap (λ t. same_bytes t signature) eight ∙ forged)
