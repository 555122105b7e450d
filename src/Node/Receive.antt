-- ===== src/Node/Receive.antt =====
-- How packets are taken from the bytes that a socket gives: `node_recv` and `node_get_event` of
-- shared/node.c, and `net_input` of module/net.c. The buffer queue is Naemon's.
use monitor_merlin.Base.{
  ℕ, zero, suc, ◌+◌, ◌≤◌, ◌<◌, ◌≡◌, Bool, false, Option, none, some, [], ◌∷◌, ◌++◌, length, take,
  drop, ltb, if◌then◌else◌,
}
use monitor_merlin.Binlog.{Bytes}
use monitor_merlin.Node.{NodeState, state_none}
use monitor_merlin.Node.Config.{same_bytes}
use monitor_merlin.Node.Packet.{hdr_size, hdr_len}
use monitor_merlin.Node.Send.{add64}

-- `nm_bufferqueue`: its operations that are called. `push` puts behind the others what
-- `nm_bufferqueue_read` got from the socket.
pub record BufferQueue : Type 1 where
  pub Store : Type 0
  pub create : Store
  pub push : Store → Bytes → Store
  pub available : Store → ℕ
  pub peek : Store → ℕ → Option Bytes
  pub unshift : Store → ℕ → Store × Option Bytes

-- The buffer queue is a first-in first-out queue of bytes, and answers an error, without a
-- change, when more bytes are asked for than it holds.
pub record QueueLaws (b : BufferQueue) : Type 1 where
  pub Holds : b.Store → Bytes → Type 0
  pub created : Holds b.create []
  pub pushed : (s : b.Store) (x y : Bytes) → Holds s x → Holds (b.push s y) (x ++ y)
  pub counts : (s : b.Store) (x : Bytes) → Holds s x → b.available s ≡ length x
  pub peeks :
      (s : b.Store) (x : Bytes) (n : ℕ) → Holds s x → n ≤ length x → b.peek s n ≡ some (take n x)
  pub peeks_short : (s : b.Store) (x : Bytes) (n : ℕ) → Holds s x → length x < n → b.peek s n ≡ none
  pub unshifts :
      (s : b.Store) (x : Bytes) (n : ℕ)
      → Holds s x
      → n ≤ length x
      → (b.unshift s n).1 ≡ some (take n x)
  pub shortens :
      (s : b.Store) (x : Bytes) (n : ℕ)
      → Holds s x
      → n ≤ length x
      → Holds (b.unshift s n).0 (drop n x)

-- What reading from the socket gives: some bytes, none yet, an error, or the end. `errno` is 0 before
-- the read.
pub data Arrival : Type 0 where
  got : Bytes → Arrival
  not_yet failed closed : Arrival

-- The fields of a node that count here, with the time of the last `recv`.
pub record Intake (Store : Type 0) : Type 0 where
  pub has_sock : Bool
  pub state : NodeState
  pub bq : Store
  pub last_recv : ℕ
  pub last_action : ℕ
  pub events_read : ℕ
  pub bytes_read : ℕ

-- MERLIN_SIGNATURE, the bytes of "MRLNEVT\0"
abbrev pub signature : Bytes
signature = 77 ∷ 82 ∷ 76 ∷ 78 ∷ 69 ∷ 86 ∷ 84 ∷ 0 ∷ []

-- `hdr.sig.id == MERLIN_SIGNATURE`
abbrev pub is_signed : Bytes → Bool
is_signed hdr = same_bytes (take 8 hdr) signature

module _ (b : BufferQueue) where
  open b use {Store}

  -- `node_disconnect`, which also replaces the buffer queue with an empty one.
  unfoldable pub hang_up : Intake Store → Intake Store
  hang_up l = record l { has_sock = false; state = state_none; last_recv = 0; bq = b.create }

  -- After `nm_bufferqueue_read` that gave some bytes; the node, and the count unless it is -1.
  unfoldable pub received : Intake Store → ℕ → Arrival → Intake Store × Option ℕ
  received l now (got bytes) = (
    record l {
      bq = b.push l.bq bytes;
      last_action = now;
      last_recv = now;
      bytes_read = add64 l.bytes_read (length bytes);
    },
    some (length bytes),
  )
  received l now not_yet = (l, some 0)
  received l now failed = (hang_up l, none)
  received l now closed = (hang_up l, none)

  unfoldable pub node_recv : Intake Store → ℕ → Arrival → Intake Store × Option ℕ
  node_recv l now a = if l.has_sock then received l now a else (l, none)

  -- After `nm_bufferqueue_unshift`. The node is not encrypted.
  unfoldable pub unshifted : Intake Store → Store × Option Bytes → Intake Store × Option Bytes
  unshifted l (s, some pkt) = (record l { bq = s }, some pkt)
  unshifted l (s, none) = (hang_up l, none)

  -- The test of the signature, and what follows.
  unfoldable pub take_event : Intake Store → Bytes → Intake Store × Option Bytes
  take_event l hdr =
      if is_signed hdr
      then unshifted (record l { events_read = add64 l.events_read 1 })
          (b.unshift l.bq (hdr_size + hdr_len hdr))
      else (hang_up l, none)

  -- After `nm_bufferqueue_peek` of a header.
  unfoldable pub after_peek : Intake Store → Option Bytes → Intake Store × Option Bytes
  after_peek l none = (l, none)
  after_peek l (some hdr) =
      if ltb (b.available l.bq) (hdr_size + hdr_len hdr) then (l, none) else take_event l hdr

  -- The node, and the packet unless it is NULL.
  unfoldable pub node_get_event : Intake Store → Intake Store × Option Bytes
  node_get_event l = after_peek l (b.peek l.bq hdr_size)

  -- `handle_event`: what it makes of the rest of the program, and whether it disconnects the node that
  -- sent the packet.
  module _ {World : Type 0} (handle : World → Bytes → World × Bool) where
    unfoldable pub after_handle : Intake Store → World × Bool → World × Intake Store
    after_handle l (w, shut) = (w, if shut then hang_up l else l)

    -- The loop of `net_input`, with fuel; `none` means that the fuel ran out.
    unfoldable pub handle_all : ℕ → ℕ → World × Intake Store → Option ((World × Intake Store) × ℕ)
    handle_all zero events (w, l) = none
    handle_all (suc fuel) events (w, l) =
        let (l', out) = node_get_event l in
        elim out [
          | none ↦ some ((w, l'), events)
          | some pkt ↦ handle_all fuel (events + 1) (after_handle l' (handle w pkt))
        ]

    -- After `node_recv`; the number of events is the answer.
    unfoldable pub after_recv :
        ℕ → ℕ → World → Intake Store × Option ℕ → Option ((World × Intake Store) × ℕ)
    after_recv fuel now w (l, none) = some ((w, l), 0)
    after_recv fuel now w (l, some len) =
        handle_all fuel 0 (w, record l { bytes_read = add64 l.bytes_read len; last_recv = now })

    unfoldable pub net_input :
        ℕ → World × Intake Store → ℕ → ℕ → Arrival → Option ((World × Intake Store) × ℕ)
    net_input fuel (w, l) now later a = after_recv fuel later w (node_recv l now a)
