-- ===== src/Window.antt =====
-- backend/strategies/sliding_window.py: `SlidingWindowSender`. The acknowledgement listener and the
-- sweep act as a sequence of events, while the initial window is filled and after it. Times are
-- in milliseconds; the index of an acknowledgement is any integer.
pub mod Bounds
pub mod Delivery
pub mod Resent
pub mod Statistics
pub mod Stall
mod Tests
use distri_store.Prelude.{
  ℕ, ◌+◌, Bool, true, false, ◌&&◌, ◌||◌, not, List, [], ◌∷◌, ◌++◌, map, Str, Bytes, length, leb,
  ltb, ◌==◌, if◌then◌else◌,
}
use distri_store.Manifest.{ChunkInfo}

abbrev pub max_window_size : ℕ
max_window_size = 20

abbrev pub timeout_ms : ℕ
timeout_ms = 3000

abbrev pub max_retries : ℕ
max_retries = 5

pub record UnackedChunk : Type 0 where
  pub index : ℕ
  pub chunk_hash : Str
  pub body : Bytes
  pub timestamp : ℕ
  pub retries : ℕ

-- `negsuc n` is -(n + 1); a message without an index counts as -1.
pub data AckIndex : Type 0 where
  pos : ℕ → AckIndex
  negsuc : ℕ → AckIndex

unfoldable pub same_index : AckIndex → AckIndex → Bool
same_index (pos i) (pos j) = i == j
same_index (negsuc i) (negsuc j) = i == j
same_index _ _ = false

-- The dictionary of unacknowledged chunks is keyed by their index, and the set of acknowledged
-- indices is a list without repetitions. `wire` is what was sent, the newest first.
pub record Sender : Type 0 where
  pub window_size : ℕ
  pub total : ℕ
  pub send_idx : ℕ
  pub unacked : List UnackedChunk
  pub acked : List AckIndex
  pub done : Bool
  pub wire : List ℕ

unfoldable pub init : ℕ → ℕ → Sender
init window_size total = record {
  window_size = window_size;
  total = total;
  send_idx = 0;
  unacked = [];
  acked = [];
  done = false;
  wire = [];
}

unfoldable pub member : AckIndex → List AckIndex → Bool
member i [] = false
member i (j ∷ l) = same_index j i || member i l

-- `self._acked.add(i)`
unfoldable pub add : AckIndex → List AckIndex → List AckIndex
unfolding member
add i l = if member i l then l else i ∷ l

-- `i in self._unacked`
unfoldable pub pending : ℕ → List UnackedChunk → Bool
pending i [] = false
pending i (c ∷ l) = c.index == i || pending i l

-- `self._unacked[c.index] = c`
unfoldable pub put_chunk : UnackedChunk → List UnackedChunk → List UnackedChunk
put_chunk c [] = c ∷ []
put_chunk c (d ∷ l) = let rest = put_chunk c l in if d.index == c.index then c ∷ l else d ∷ rest

-- `del self._unacked[i]`; at most one entry has the index.
unfoldable pub drop_chunk : ℕ → List UnackedChunk → List UnackedChunk
drop_chunk i [] = []
drop_chunk i (d ∷ l) = let rest = drop_chunk i l in if d.index == i then rest else d ∷ rest

-- `_send_chunk`
unfoldable pub send_chunk : ℕ → ChunkInfo → Bytes → Sender → Sender
send_chunk now info body s = record s {
  unacked =
      put_chunk
        (record {
          index = info.index;
          chunk_hash = info.chunk_hash;
          body = body;
          timestamp = now;
          retries = 0;
        })
        s.unacked;
  wire = info.index ∷ s.wire;
}

-- The `while` that should slide the window: its body is `break`.
unfoldable pub slide : Sender → Sender
slide s = if ltb s.send_idx s.total && ltb (length s.unacked) s.window_size then s else s

unfoldable pub forget : AckIndex → List UnackedChunk → List UnackedChunk
unfolding pending drop_chunk
forget (pos i) l = if pending i l then drop_chunk i l else l
forget (negsuc i) l = l

-- `_handle_ack`
unfoldable pub handle_ack : AckIndex → Sender → Sender
unfolding forget add slide
handle_ack i s =
    let noted = record s { unacked = forget i s.unacked; acked = add i s.acked } in
    if leb s.total (length noted.acked) then record noted { done = true } else slide noted

-- Whether the sweep finds a chunk timed out.
unfoldable pub timed_out : ℕ → UnackedChunk → Bool
timed_out now c = ltb (c.timestamp + timeout_ms) now

-- The body of the sweep for one chunk.
unfoldable pub retry : ℕ → UnackedChunk → UnackedChunk
unfolding timed_out
retry now c =
    if timed_out now c && ltb c.retries max_retries
    then record c { retries = c.retries + 1; timestamp = now }
    else c

unfoldable pub resent : ℕ → List UnackedChunk → List ℕ
unfolding timed_out
resent now [] = []
resent now (c ∷ l) =
    if timed_out now c && ltb c.retries max_retries then c.index ∷ resent now l else resent now l

-- One round of `_sweep_loop`. A chunk whose retries are used up is passed over.
unfoldable pub sweep : ℕ → Sender → Sender
unfolding retry resent
sweep now s = record s {
  unacked = map (retry now) s.unacked;
  wire = resent now s.unacked ++ s.wire;
}

-- What the listener receives, and the rounds of the sweep.
pub data Event : Type 0 where
  acknowledged : AckIndex → Event
  other_message : Event
  connection_lost : Event
  swept : ℕ → Event

unfoldable pub react : Event → Sender → Sender
unfolding handle_ack sweep
react (acknowledged i) s = handle_ack i s
react other_message s = s
react connection_lost s = record s { done = true }
react (swept now) s = sweep now s

-- Once `_done` is set, the listener has ended, and the sweep ends when it wakes up or is cancelled.
unfoldable pub run : List Event → Sender → Sender
unfolding react
run [] s = s
run (e ∷ events) s = run events (if s.done then s else react e s)

-- `while self._send_idx < self._total and len(self._unacked) < self.window_size`, over the
-- chunks from `send_idx` on. `during i` is when chunk `i` is sent, and what the listener and the
-- sweep, which run already, do while that is awaited.
unfoldable pub fill : (ℕ → ℕ × List Event) → List (ChunkInfo × Bytes) → Sender → Sender
unfolding send_chunk run
fill during [] s = s
fill during ((info, body) ∷ rest) s =
    let (now, events) = during s.send_idx in
    let awaited = run events (send_chunk now info body s) in
    let filled = fill during rest (record awaited { send_idx = s.send_idx + 1 }) in
    if ltb (length s.unacked) s.window_size then filled else s

-- `send_all` up to its wait for `_done`.
unfoldable pub start : (ℕ → ℕ × List Event) → ℕ → List (ChunkInfo × Bytes) → Sender
unfolding init fill
start during window_size chunks = fill during chunks (init window_size (length chunks))

-- `sum(1 for idx in self._acked if idx in self._unacked_retries)`
unfoldable pub retried : AckIndex → List UnackedChunk → Bool
retried (negsuc i) l = false
retried (pos i) [] = false
retried (pos i) (c ∷ l) = (c.index == i && ltb 0 c.retries) || retried (pos i) l

unfoldable pub count_retried : List AckIndex → List UnackedChunk → ℕ
unfolding retried
count_retried [] l = 0
count_retried (i ∷ is) l = (if retried i l then 1 else 0) + count_retried is l

unfoldable pub retransmissions : Sender → ℕ
unfolding count_retried
retransmissions s = count_retried s.acked s.unacked
