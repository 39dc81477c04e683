-- ===== src/Channels.antt =====
-- src/io_channel.cpp: the byte channels of the host, a socket, stdout or a mirror of it in lines.
-- What the socket calls answer is an argument: whether a client is accepted, what `recv` and `send`
-- return. What goes to stdout, and to a client, is a list of bytes. The console window is left out.
pub mod Lines
pub mod Sockets
use tool_i8085_trace.Prelude.{
  length, ℕ, zero, suc, ◌+◌, Bool, true, false, not, ◌&&◌, ◌||◌, Option, none, some, List, [], ◌∷◌,
  ◌++◌, ltb, leb, ◌==◌, if◌then◌else◌, codes, same_text, take,
}
use Prim.Native.Nat.{ℕ}

-- What `recv` and a failing `send` tell: bytes, the end of the connection, or nothing yet.
pub data Received : Type 0 where
  bytes : List ℕ → Received
  closed : Received
  nothing_yet : Received

pub data SendResult : Type 0 where
  sent_some : ℕ → SendResult
  would_block : SendResult
  broken : SendResult

-- `TcpChannel`; `to_client` is what `send` was given, and `client` whether there is one.
pub record TcpChannel : Type 0 where
  pub listening : Bool
  pub client : Bool
  pub rxq : List ℕ
  pub txbuf : List ℕ
  pub to_client : List ℕ

-- `GdbtxChannel`; `out` is what has gone to stdout.
pub record GdbtxChannel : Type 0 where
  pub line : List ℕ
  pub idle_ticks : ℕ
  pub out : List ℕ

-- The part of `TcpChannel::tick` that takes a client, with all that has waited.
unfoldable pub accept_client : TcpChannel → Bool → TcpChannel
accept_client t accepted =
    if not t.client && t.listening && accepted
    then record t { client = true; txbuf = []; to_client = t.to_client ++ t.txbuf }
    else t

-- The part that reads, at most 64 bytes at once.
unfoldable pub receive : TcpChannel → Received → TcpChannel
receive t (bytes bs) = if t.client then record t { rxq = t.rxq ++ bs } else t
receive t closed = if t.client then record t { client = false } else t
receive t nothing_yet = t

unfoldable pub tcp_tick : TcpChannel → Bool → Received → TcpChannel
tcp_tick t accepted received = receive (accept_client t accepted) received

-- The loop of `read`: what is taken and what stays.
unfoldable pub take_front : ℕ → List ℕ → List ℕ × List ℕ
take_front zero q = ([], q)
take_front (suc maxlen) [] = ([], [])
take_front (suc maxlen) (b ∷ q) = let (front, rest) = take_front maxlen q in (b ∷ front, rest)

unfoldable pub tcp_read : TcpChannel → ℕ → TcpChannel × List ℕ
tcp_read t maxlen = let (front, rest) = take_front maxlen t.rxq in (record t { rxq = rest }, front)

-- The loop of `write` without a client: a full buffer drops the rest.
unfoldable pub buffer : ℕ → List ℕ → List ℕ → List ℕ
buffer limit txbuf [] = txbuf
buffer limit txbuf (b ∷ bs) = elim (ltb (length txbuf) limit) [
  | true ↦ buffer limit (txbuf ++ b ∷ []) bs
  | false ↦ txbuf
]

unfoldable pub tcp_write : TcpChannel → List ℕ → SendResult → TcpChannel
tcp_write t bs (sent_some n) =
    if t.client
    then record t { to_client = t.to_client ++ take n bs }
    else record t { txbuf = buffer 8192 t.txbuf bs }
tcp_write t bs would_block = if t.client then t else record t { txbuf = buffer 8192 t.txbuf bs }
tcp_write t bs broken =
    if t.client then record t { client = false } else record t { txbuf = buffer 8192 t.txbuf bs }

-- `GdbtxChannel::flush`
unfoldable pub flush : GdbtxChannel → GdbtxChannel
flush g = record { line = []; idle_ticks = 0; out = g.out ++ (g.line ++ 10 ∷ []) }

-- A tab or a printable character.
abbrev pub is_kept : ℕ → Bool
is_kept v = v == 9 || leb 0x20 v && leb v 0x7e

-- The body of the loop of `GdbtxChannel::write`.
unfoldable pub write_char : GdbtxChannel → ℕ → GdbtxChannel
write_char g v =
    if v == 10
    then flush g
    else if v == 13
    then record g { idle_ticks = 0 }
    else if is_kept v
    then (let longer = record g { line = g.line ++ v ∷ []; idle_ticks = 0 } in
        if leb 512 (length longer.line) then flush longer else longer)
    else record g { idle_ticks = 0 }

unfoldable pub gdbtx_write : GdbtxChannel → List ℕ → GdbtxChannel
gdbtx_write g [] = g
gdbtx_write g (v ∷ vs) = gdbtx_write (write_char g v) vs

-- `++idleTicks` is made only where the line is not empty.
unfoldable pub gdbtx_tick : GdbtxChannel → GdbtxChannel
gdbtx_tick g = elim g.line [
  | [] ↦ g
  | c ∷ cs ↦
      if leb 256 (g.idle_ticks + 1) then flush g else record g { idle_ticks = g.idle_ticks + 1 }
]

-- The destructor.
unfoldable pub gdbtx_close : GdbtxChannel → GdbtxChannel
gdbtx_close g = elim g.line [ [] ↦ g | c ∷ cs ↦ flush g ]

-- The kinds of `host_channel_open`, by the text before `=`.
pub data ChannelType : Type 0 where
  tcp : ChannelType
  window : ChannelType
  stdout : ChannelType
  gdbtx : ChannelType

unfoldable pub before_equals : List ℕ → List ℕ
before_equals [] = []
before_equals (c ∷ cs) = let rest = before_equals cs in if c == b'=' then [] else c ∷ rest

unfoldable pub channel_type : List ℕ → Option ChannelType
channel_type spec =
    let type = before_equals spec in
    if same_text type (codes "tcp")
    then some tcp
    else if same_text type (codes "window")
    then some window
    else if same_text type (codes "stdout")
    then some stdout
    else if same_text type (codes "gdbtx")
    then some gdbtx
    else none
