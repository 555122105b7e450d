-- ===== src/Node/Framing.antt =====
-- Packets one behind the other in a stream of bytes, and what a part of the stream holds of them.
use monitor_merlin.Base.{
  ℕ, zero, suc, ◌+◌, ◌≤◌, ◌<◌, ◌≡◌, refl, sym, ap, ◌∙◌, ◌⊎◌, inl, inr, List, [], ◌∷◌, ◌++◌, map,
  append_assoc, arith, length, take, drop, length-append, length-take, drop-append_le, take-length,
  drop-length, take-drop,
}
use native.Mathlib.Decide.{dec_lt}
use monitor_merlin.Binlog.{Bytes}
use monitor_merlin.Node.Packet.{Valid, hdr_size, hdr_len, hdr_len-append, stamp, stamp-Valid}
use monitor_merlin.Node.Send.{mark}
use monitor_merlin.Node.Receive.{signature}

-- A packet as `node_send_event` sends it: its header says how long it is and starts with the signature.
pub record Framed (pkt : Bytes) : Type 0 where
  pub valid : Valid pkt
  pub signed : take 8 pkt ≡ signature

abbrev pub AllFramed : List Bytes → Type 0
AllFramed [] = Unit
AllFramed (e ∷ q) = Framed e × AllFramed q

-- The bytes of the packets, as the socket carries them.
abbrev pub stream : List Bytes → Bytes
stream [] = []
stream (e ∷ q) = e ++ stream q

pub stream-append : (p q : List Bytes) → stream (p ++ q) ≡ stream p ++ stream q
stream-append [] q = refl
stream-append (e ∷ p) q =
    ap (λ t. e ++ t) (stream-append p q) ∙ sym (append_assoc e (stream p) (stream q))

-- The first packet has not arrived as a whole, as far as its header tells.
abbrev pub Unfinished : Bytes → Type 0
Unfinished x = (length x < hdr_size) ⊎ (length x < hdr_size + hdr_len x)

pub take-take-append : (n : ℕ) (x y : Bytes) → n ≤ length x → take n (x ++ y) ≡ take n x
take-take-append zero x y h = refl
take-take-append (suc n) [] y h = absurd (omega arith)
take-take-append (suc n) (c ∷ x) y h = ap (λ t. c ∷ t) (take-take-append n x y (omega arith))

pub Unfinished-part : (e x z : Bytes) → Valid e → x ++ z ≡ e → length x < length e → Unfinished x
Unfinished-part e x z v parts short = elim (dec_lt (length x) hdr_size) [
  | yes h ↦ inl h
  | no h ↦
      inr
        (omega (arith, short, v.whole, h, hdr_len-append x z (omega (arith, h)), ap hdr_len parts))
]

pub Framed-mark : (e : Bytes) → Valid (mark e) → Framed (mark e)
unfolding mark
Framed-mark e v = record { valid = v; signed = refl }

pub Framed-stamp : (uuid e : Bytes) → length uuid ≤ 37 → Framed e → Framed (stamp uuid e)
unfolding stamp
Framed-stamp uuid e short f = record {
  valid = (stamp-Valid uuid e short f.valid).1;
  signed =
      take-take-append 8 (take 76 e) (uuid ++ drop (76 + length uuid) e)
        (omega (arith, length-take 76 e, f.valid.whole))
      ∙ sym (
          take-take-append 8 (take 76 e) (drop 76 e)
            (omega (arith, length-take 76 e, f.valid.whole)))
      ∙ ap (take 8) (take-drop 76 e)
      ∙ f.signed;
}

pub AllFramed-stamp :
    (uuid : Bytes) (q : List Bytes)
    → length uuid ≤ 37
    → AllFramed q
    → AllFramed (map (stamp uuid) q)
AllFramed-stamp uuid [] short f = tt
AllFramed-stamp uuid (e ∷ q) short (f, fs) =
    (Framed-stamp uuid e short f, AllFramed-stamp uuid q short fs)

-- The first part `x` of a stream of packets, where `z` is still to come: packets that are whole, and the
-- start of the next one.
pub record Parts (q : List Bytes) (x z : Bytes) : Type 0 where
  pub done : List Bytes
  pub left : List Bytes
  pub rest : Bytes
  pub split : done ++ left ≡ q
  pub framed : AllFramed done
  pub framed_left : AllFramed left
  pub read : x ≡ stream done ++ rest
  pub later : rest ++ z ≡ stream left
  pub unfinished : Unfinished rest

-- The packet at the front is not whole yet.
Parts-short :
    (e : Bytes) (q : List Bytes) (x z : Bytes)
    → AllFramed (e ∷ q)
    → x ++ z ≡ e ++ stream q
    → length x < length e
    → Parts (e ∷ q) x z
Parts-short e q x z (f, fs) eq short = record {
  done = [];
  left = e ∷ q;
  rest = x;
  split = refl;
  framed = tt;
  framed_left = (f, fs);
  read = refl;
  later = eq;
  unfinished = Unfinished-part e x (drop (length x) e) f.valid whole short;
}
  where
    front : x ≡ take (length x) e
    front =
        sym (take-length x z)
        ∙ ap (take (length x)) eq
        ∙ take-take-append (length x) e (stream q) (omega (arith, short))

    whole : x ++ drop (length x) e ≡ e
    whole = ap (λ t. t ++ drop (length x) e) front ∙ take-drop (length x) e

-- What follows a packet at the front that is whole.
after_first :
    (e : Bytes) (q : List Bytes) (x z : Bytes)
    → x ++ z ≡ e ++ stream q
    → length e ≤ length x
    → (drop (length e) x ++ z ≡ stream q) × (x ≡ e ++ drop (length e) x)
after_first e q x z eq long = (
  sym (drop-append_le (length e) x z long) ∙ ap (drop (length e)) eq ∙ drop-length e (stream q),
  sym (take-drop (length e) x) ∙ ap (λ t. t ++ drop (length e) x) front,
)
  where
    front : take (length e) x ≡ e
    front =
        sym (take-take-append (length e) x z long)
        ∙ ap (take (length e)) eq
        ∙ take-length e (stream q)

Parts-next :
    (e : Bytes) (q : List Bytes) (x x' z : Bytes)
    → Framed e
    → x ≡ e ++ x'
    → Parts q x' z
    → Parts (e ∷ q) x z
Parts-next e q x x' z f eq p = record {
  done = e ∷ p.done;
  left = p.left;
  rest = p.rest;
  split = ap (λ t. e ∷ t) p.split;
  framed = (f, p.framed);
  framed_left = p.framed_left;
  read = eq ∙ ap (λ t. e ++ t) p.read ∙ sym (append_assoc e (stream p.done) p.rest);
  later = p.later;
  unfinished = p.unfinished;
}

-- However a stream of packets is cut, its first part is some whole packets and the start of the next.
pub Parts-cut : (q : List Bytes) (x z : Bytes) → AllFramed q → x ++ z ≡ stream q → Parts q x z
Parts-cut [] x z f eq = record {
  done = [];
  left = [];
  rest = x;
  split = refl;
  framed = tt;
  framed_left = tt;
  read = refl;
  later = eq;
  unfinished = inl (omega (arith, length-append x z, ap (length {A = ℕ}) eq));
}
Parts-cut (e ∷ q) x z (f, fs) eq = elim (dec_lt (length x) (length e)) [
  | yes short ↦ Parts-short e q x z (f, fs) eq short
  | no long ↦
      (let (rest, front) = after_first e q x z eq (omega (arith, long)) in
        Parts-next e q x (drop (length e) x) z f front (Parts-cut q (drop (length e) x) z fs rest))
]
