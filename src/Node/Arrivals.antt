-- ===== src/Node/Arrivals.antt =====
-- A stream of packets that arrives in pieces: what the calls of `net_input` handle of it.
use monitor_merlin.Base.{
  ℕ, ◌<◌, ◌≡◌, refl, sym, ap, ◌∙◌, inl, inr, Bool, true, false, Option, none, some, List, [], ◌∷◌,
  ◌++◌, append-nil, append_assoc, arith, length, length-append, if_true, if_false, if◌then◌else◌,
}
use monitor_merlin.Binlog.{Bytes}
use monitor_merlin.Node.Packet.{hdr_len-append}
use monitor_merlin.Node.Send.{add64}
use monitor_merlin.Node.Receive.{
  BufferQueue, QueueLaws, Intake, got, received, node_recv, handle_all, after_recv, net_input,
}
use monitor_merlin.Node.Framing.{AllFramed, Unfinished, stream, Parts-cut}
use monitor_merlin.Node.Arrive.{
  deliver, deliver-append, Left, Handles, handle_all-Handles, Handles-as,
}

-- Some bytes that arrive, with the times that are noted.
pub record Piece : Type 0 where
  pub bytes : Bytes
  pub now : ℕ
  pub later : ℕ

abbrev pub joined : List Piece → Bytes
joined [] = []
joined (c ∷ cs) = c.bytes ++ joined cs

-- Whole packets are not the start of one.
finished : (q : List Bytes) → AllFramed q → Unfinished (stream q) → q ≡ []
finished [] f u = refl
finished (e ∷ q) (f, fs) (inl short) =
    absurd (omega (arith, short, length-append e (stream q), f.valid.whole))
finished (e ∷ q) (f, fs) (inr short) = absurd (
    omega (
      arith,
      short,
      length-append e (stream q),
      f.valid.whole,
      hdr_len-append e (stream q) (omega (arith, f.valid.whole)),
    ))

module _ (b : BufferQueue) {World : Type 0} (handle : World → Bytes → World × Bool) where
  open b use {Store}

  -- The event loop calls `net_input` once for each piece.
  unfoldable pub inputs : ℕ → World × Intake Store → List Piece → Option (World × Intake Store)
  inputs fuel s [] = some s
  inputs fuel s (c ∷ cs) = elim (net_input b handle fuel s c.now c.later (got c.bytes)) [
    | none ↦ none
    | some out ↦ inputs fuel out.0 cs
  ]

module _ (b : BufferQueue) (laws : QueueLaws b) {World : Type 0}
    (handle : World → Bytes → World × Bool) where
  open b use {Store}
  open laws use {Holds}

  abbrev onward :
      ℕ → List Piece → Option ((World × Intake Store) × ℕ) → Option (World × Intake Store)
  onward fuel cs o = elim o [ none ↦ none | some out ↦ inputs b handle fuel out.0 cs ]

  inputs_step :
      (fuel : ℕ) (w : World) (l : Intake Store) (c : Piece) (cs : List Piece) {w' : World}
      {l' : Intake Store} {n : ℕ}
      → net_input b handle fuel (w, l) c.now c.later (got c.bytes) ≡ some ((w', l'), n)
      → inputs b handle fuel (w, l) (c ∷ cs) ≡ inputs b handle fuel (w', l') cs
  unfolding inputs
  inputs_step fuel w l c cs e = ap (onward fuel cs) e

  net_input_closed :
      (fuel : ℕ) (w : World) (l : Intake Store) (c : Piece)
      → l.has_sock ≡ false
      → net_input b handle fuel (w, l) c.now c.later (got c.bytes) ≡ some ((w, l), 0)
  unfolding net_input node_recv after_recv
  net_input_closed fuel w l c shut = ap (after_recv b handle fuel c.later w) (if_false _ _ shut)

  -- Nothing is read from a node without a socket.
  inputs_closed :
      (fuel : ℕ) (w : World) (l : Intake Store) (cs : List Piece)
      → l.has_sock ≡ false
      → inputs b handle fuel (w, l) cs ≡ some (w, l)
  unfolding inputs
  inputs_closed fuel w l [] shut = refl
  inputs_closed fuel w l (c ∷ cs) shut =
      inputs_step fuel w l c cs (net_input_closed fuel w l c shut) ∙ inputs_closed fuel w l cs shut

  -- The node after `node_recv` of a piece, as the loop of `net_input` finds it.
  abbrev pub fed : Intake Store → Piece → Intake Store
  fed l c = record l {
    bq = b.push l.bq c.bytes;
    last_action = c.now;
    last_recv = c.later;
    bytes_read = add64 (add64 l.bytes_read (length c.bytes)) (length c.bytes);
  }

  pub net_input_got :
      (fuel : ℕ) (w : World) (l : Intake Store) (c : Piece)
      → l.has_sock ≡ true
      → net_input b handle fuel (w, l) c.now c.later (got c.bytes)
        ≡ handle_all b handle fuel 0 (w, fed l c)
  unfolding net_input node_recv received after_recv
  net_input_got fuel w l c open' = ap (after_recv b handle fuel c.later w) (if_true _ _ open')

  -- On a node with a socket and `r` in its buffer, for a piece that completes the packets `q` and starts
  -- another one, with more fuel than packets: `net_input` hands exactly these packets, in their order, to
  -- `handle_event`, up to the first that disconnects the node; if none does, the rest waits in the buffer.
  pub net_input-Handles :
      (q : List Bytes) (r rest : Bytes) (fuel : ℕ) (w : World) (l : Intake Store) (c : Piece)
      → AllFramed q
      → Unfinished rest
      → length q < fuel
      → l.has_sock ≡ true
      → Holds l.bq r
      → r ++ c.bytes ≡ stream q ++ rest
      → Handles b laws handle
          (net_input b handle fuel (w, l) c.now c.later (got c.bytes))
          (deliver handle w q)
          l
          rest
  net_input-Handles q r rest fuel w l c f u enough sock h eq = rw (net_input_got fuel w l c sock) (
      Handles-as b laws handle _ _ l (fed l c) rest refl refl (
        handle_all-Handles b laws handle q rest fuel 0 w (fed l c) enough f u
          (rw eq at (laws.pushed l.bq r c.bytes h))))

  abbrev pub Arrive : Option (World × Intake Store) → World × Bool → Intake Store → Type 0
  Arrive out done l =
      (l' : Intake Store) × (out ≡ some (done.0, l')) × Left b laws handle done.1 l l' []

  Arrive-as :
      (out out' : Option (World × Intake Store)) (done done' : World × Bool) (l l1 : Intake Store)
      → out' ≡ out
      → done' ≡ done
      → l1.has_sock ≡ l.has_sock
      → l1.state ≡ l.state
      → Arrive out done l1
      → Arrive out' done' l
  Arrive-as out out' (w, true) done' l l1 e d s t (l', x, y) = rw d (l', e ∙ x, y)
  Arrive-as out out' (w, false) done' l l1 e d s t (l', x, (y, z, h)) =
      rw d (l', e ∙ x, (y ∙ s, z ∙ t, h))

  -- After one piece, by what was handled of it.
  go_on :
      (fuel : ℕ) (cs : List Piece) (l l1 : Intake Store) (one : World × Bool) (rest : Bytes)
      (left : List Bytes)
      → Left b laws handle one.1 l l1 rest
      → (one.1 ≡ false
          → Left b laws handle false l l1 rest
          → Arrive (inputs b handle fuel (one.0, l1) cs) (deliver handle one.0 left) l)
      → Arrive
          (inputs b handle fuel (one.0, l1) cs)
          (if one.1 then one else deliver handle one.0 left)
          l
  go_on fuel cs l l1 (w, true) rest left (shut, none', empty) k =
      (l1, inputs_closed fuel w l1 cs shut, (shut, none', empty))
  go_on fuel cs l l1 (w, false) rest left h k = k refl h

  -- From a node with a socket whose buffer holds the start of a packet, however the stream of the packets
  -- `q` is cut into pieces, with more fuel than packets: the calls of `net_input` end, and hand exactly these
  -- packets, whole and in their order, to `handle_event`, up to the first that disconnects the node. If none
  -- does, the connection stays and the buffer is empty at the end.
  pub inputs-Arrive :
      (cs : List Piece) (q : List Bytes) (r : Bytes) (fuel : ℕ) (w : World) (l : Intake Store)
      → AllFramed q
      → length q < fuel
      → Unfinished r
      → l.has_sock ≡ true
      → Holds l.bq r
      → r ++ joined cs ≡ stream q
      → Arrive (inputs b handle fuel (w, l) cs) (deliver handle w q) l
  unfolding inputs
  inputs-Arrive [] q r fuel w l f enough u sock h eq =
      let all = sym (append-nil r) ∙ eq in
      let none_left = finished q f (rw all at u) in
      rw none_left (l, refl, (refl, refl, rw (all ∙ ap stream none_left) at h))
  inputs-Arrive (c ∷ cs) q r fuel w l f enough u sock h eq =
      let p = Parts-cut q (r ++ c.bytes) (joined cs) f (append_assoc r c.bytes (joined cs) ∙ eq) in
      let fewer = length-append p.done p.left ∙ refl in
      let size = ap (length {A = Bytes}) p.split in
      let (l1, n, e, x) =
        net_input-Handles p.done r p.rest fuel w l c p.framed p.unfinished
          (omega (arith, fewer, size, enough)) sock h p.read in
      Arrive-as _ _ _ _ l l (inputs_step fuel w l c cs e)
        (ap (deliver handle w) (sym p.split) ∙ deliver-append handle w p.done p.left) refl refl
        (go_on fuel cs l l1 (deliver handle w p.done) p.rest p.left x (λ go y.
          Arrive-as _ _ _ _ l l1 refl refl y.0 y.1 (
            inputs-Arrive cs p.left p.rest fuel (deliver handle w p.done).0 l1 p.framed_left
              (omega (arith, fewer, size, enough)) p.unfinished (y.0 ∙ sock) y.2 p.later)))
