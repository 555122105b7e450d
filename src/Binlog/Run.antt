-- ===== src/Binlog/Run.antt =====
-- Any sequence of additions and reads of a backlog keeps the order of the events.
use monitor_merlin.Base.{
  ℕ, ◌+◌, ◌^◌, ◌<◌, ◌≡◌, sym, ◌∙◌, ap, Bool, true, false, Option, none, some, List, [], ◌∷◌, ◌++◌,
  append_assoc, append-nil, arith, length, if◌then◌else◌,
}
use monitor_merlin.Binlog.{Bytes, Status, ok, enospc, Binlog, Os}
use monitor_merlin.Binlog.Log.{add, read}
use monitor_merlin.Binlog.Inv.{Works}
use monitor_merlin.Binlog.Fifo.{Queued, Queued-mono, has_room, add-fifo}
use monitor_merlin.Binlog.FifoRead.{first, read-fifo}

-- What a client does: add an event, or read one.
pub data Call : Type 0 where
  put : Bytes → Call
  get : Call

abbrev pub accepted : Status → Bytes → List Bytes → List Bytes
accepted ok b added = b ∷ added
accepted other b added = added

abbrev pub received : Option Bytes → List Bytes → List Bytes
received none got = got
received (some b) got = b ∷ got

-- The events that were taken in, those that were handed out, and the backlog after the calls.
unfoldable pub run : Os → Binlog → List Call → List Bytes × List Bytes × Binlog
run os bl [] = ([], [], bl)
run os bl (put b ∷ calls) =
    let (bl', ret) = add os bl b in
    let (added, got, end) = run os bl' calls in (accepted ret b added, got, end)
run os bl (get ∷ calls) =
    let (bl', ret, out) = read os bl in
    let (added, got, end) = run os bl' calls in (added, received out got, end)

abbrev pub SmallPuts : List Call → Type 0
SmallPuts [] = Unit
SmallPuts (put b ∷ calls) = (length b < 2 ^ 31) × SmallPuts calls
SmallPuts (get ∷ calls) = SmallPuts calls

first-received :
    (q got added q' : List Bytes)
    → (first q).2 ++ added ≡ got ++ q'
    → q ++ added ≡ received (first q).1 got ++ q'
first-received [] got added q' h = h
first-received (b ∷ q) got added q' h = ap (λ l. b ∷ l) h

accepted-append :
    (r : Bool) (q : List Bytes) (b : Bytes) (added end : List Bytes)
    → (if r then q ++ b ∷ [] else q) ++ added ≡ end
    → q ++ accepted (if r then ok else enospc) b added ≡ end
accepted-append true q b added end h = sym (append_assoc q (b ∷ []) added) ∙ h
accepted-append false q b added end h = h

-- On a system whose calls succeed, for events shorter than 2^31 bytes and fewer than 2^30 slots and
-- calls, whatever the calls: the events that were waiting, followed by those taken in, are the events that
-- were handed out followed by those that are waiting at the end, in the same order. So none is
-- lost, repeated or overtaken.
pub run-fifo :
    (os : Os) (bl : Binlog) (calls : List Call) {q : List Bytes} {n : ℕ}
    → Works os
    → Queued bl q n
    → SmallPuts calls
    → n + length calls < 2 ^ 30
    → let (added, got, end) = run os bl calls in
      (q' : List Bytes) × (q ++ added ≡ got ++ q') × Queued end q' (n + length calls)
unfolding run
run-fifo os bl [] {q} {n} w h small room = (q, append-nil q, Queued-mono h (omega arith))
run-fifo os bl (put b ∷ calls) {q} {n} w h small room =
    let (ret, h') = add-fifo os bl b w h small.0 (omega arith) in
    let (q', e, end) = run-fifo os (add os bl b).0 calls w h' small.1 (omega arith) in
    (q', rw ret (accepted-append (has_room bl b) q b _ _ e), Queued-mono end (omega arith))
run-fifo os bl (get ∷ calls) {q} {n} w h small room =
    let (ret, out, h') = read-fifo os bl w h (omega arith) in
    let (q', e, end) = run-fifo os (read os bl).0 calls w h' small (omega arith) in
    (q', rw out (first-received q _ _ q' e), Queued-mono end (omega arith))
