-- ===== src/Channels/Sockets.antt =====
-- src/io_channel.cpp: the two directions of the socket channel.
use tool_i8085_trace.Prelude.{
  length, ℕ, zero, suc, ◌+◌, ◌≤◌, ◌<◌, ◌≡◌, refl, sym, ap, ◌∙◌, inl, inr, Bool, true, false, List,
  [], ◌∷◌, ◌++◌, arith, ltb, if◌then◌else◌, Bool-cases, take,
}
use Prim.Native.Nat.{ℕ}
use mathlib.Core.Path.{subst}
use mathlib.Core.List.{append-nil, append_assoc}
use tool_i8085_trace.Channels.{
  Received, bytes, closed, nothing_yet, SendResult, sent_some, would_block, broken, TcpChannel,
  accept_client, receive, tcp_tick, take_front, tcp_read, buffer, tcp_write,
}

-- What the core and a plugin do to the channel, with the answers of the socket calls.
pub data Event : Type 0 where
  ticked : Bool → Received → Event
  read_up_to : ℕ → Event
  wrote : List ℕ → SendResult → Event

abbrev pub happen : TcpChannel → Event → TcpChannel
happen t (ticked accepted received) = tcp_tick t accepted received
happen t (read_up_to n) = (tcp_read t n).0
happen t (wrote bs result) = tcp_write t bs result

abbrev pub after : TcpChannel → List Event → TcpChannel
after t [] = t
after t (e ∷ es) = after (happen t e) es

-- The bytes that the plugin reads.
abbrev pub read_in : TcpChannel → List Event → List ℕ
read_in t [] = []
read_in t (read_up_to n ∷ es) = (tcp_read t n).1 ++ read_in (tcp_read t n).0 es
read_in t (ticked a r ∷ es) = read_in (tcp_tick t a r) es
read_in t (wrote bs r ∷ es) = read_in (tcp_write t bs r) es

-- The bytes that `recv` brings while there is a client.
abbrev pub brought : TcpChannel → Bool → Received → List ℕ
brought t a (bytes bs) = if (accept_client t a).client then bs else []
brought t a closed = []
brought t a nothing_yet = []

abbrev pub arriving : TcpChannel → List Event → List ℕ
arriving t [] = []
arriving t (ticked a r ∷ es) = brought t a r ++ arriving (tcp_tick t a r) es
arriving t (read_up_to n ∷ es) = arriving (tcp_read t n).0 es
arriving t (wrote bs r ∷ es) = arriving (tcp_write t bs r) es

take_front-append : (n : ℕ) (q : List ℕ) → (take_front n q).0 ++ (take_front n q).1 ≡ q
unfolding take_front
take_front-append zero q = refl
take_front-append (suc n) [] = refl
take_front-append (suc n) (b ∷ q) = ap (λ (t : List ℕ). b ∷ t) (take_front-append n q)

tick_rxq :
    (t : TcpChannel) (a : Bool) (r : Received) → (tcp_tick t a r).rxq ≡ t.rxq ++ brought t a r
unfolding tcp_tick receive accept_client
tick_rxq t a (bytes bs) = ground (arith, append-nil t.rxq)
tick_rxq t a closed = ground (arith, append-nil t.rxq)
tick_rxq t a nothing_yet = ground (arith, append-nil t.rxq)

write_rxq : (t : TcpChannel) (bs : List ℕ) (r : SendResult) → (tcp_write t bs r).rxq ≡ t.rxq
unfolding tcp_write
write_rxq t bs (sent_some n) = ground arith
write_rxq t bs would_block = ground arith
write_rxq t bs broken = ground arith

read_rxq : (t : TcpChannel) (n : ℕ) → (tcp_read t n).1 ++ (tcp_read t n).0.rxq ≡ t.rxq
unfolding tcp_read
read_rxq t n = take_front-append n t.rxq

-- The plugin reads what the client sends, in order and once: over any sequence of ticks, reads and
-- writes, whatever the socket answers, the bytes that were read followed by those that wait are
-- those that waited before followed by those that arrived.
pub read_in-arriving :
    (es : List Event) (t : TcpChannel) → read_in t es ++ (after t es).rxq ≡ t.rxq ++ arriving t es
read_in-arriving [] t = sym (append-nil t.rxq)
read_in-arriving (ticked a r ∷ es) t =
    read_in-arriving es (tcp_tick t a r)
    ∙ simp (tick_rxq t a r) (append_assoc t.rxq (brought t a r) (arriving (tcp_tick t a r) es))
read_in-arriving (wrote bs r ∷ es) t =
    read_in-arriving es (tcp_write t bs r) ∙ ground (arith, write_rxq t bs r)
read_in-arriving (read_up_to n ∷ es) t =
    let u = (tcp_read t n).0 in
    let ih = read_in-arriving es u in
    ground (
      arith,
      ih,
      read_rxq t n,
      append_assoc (tcp_read t n).1 (read_in u es) (after u es).rxq,
      append_assoc (tcp_read t n).1 u.rxq (arriving u es),
    )

length-append_one : (xs : List ℕ) (b : ℕ) → length (xs ++ b ∷ []) ≡ length xs + 1
length-append_one [] b = omega arith
length-append_one (x ∷ xs) b = omega (arith, length-append_one xs b)

take_short : (n : ℕ) (xs : List ℕ) → length xs ≤ n → take n xs ≡ xs
take_short zero [] h = refl
take_short zero (x ∷ xs) h = absurd (omega arith)
take_short (suc n) [] h = refl
take_short (suc n) (x ∷ xs) h = ap (λ (t : List ℕ). x ∷ t) (take_short n xs (omega arith))

take_full : (n : ℕ) (xs ys : List ℕ) → length xs ≡ n → take n (xs ++ ys) ≡ xs
take_full zero [] ys h = refl
take_full zero (x ∷ xs) ys h = absurd (omega arith)
take_full (suc n) [] ys h = absurd (omega arith)
take_full (suc n) (x ∷ xs) ys h = ap (λ (t : List ℕ). x ∷ t) (take_full n xs ys (omega arith))

buffer_full : (limit : ℕ) (bs txbuf : List ℕ) → limit ≤ length txbuf → buffer limit txbuf bs ≡ txbuf
unfolding buffer
buffer_full limit [] txbuf h = refl
buffer_full limit (b ∷ bs) txbuf h = ground arith

buffer_room :
    (limit b : ℕ) (bs txbuf : List ℕ)
    → length txbuf < limit
    → buffer limit txbuf (b ∷ bs) ≡ buffer limit (txbuf ++ b ∷ []) bs
unfolding buffer
buffer_room limit b bs txbuf h = ground arith

buffer_none : (limit : ℕ) (txbuf : List ℕ) → buffer limit txbuf [] ≡ txbuf
unfolding buffer
buffer_none limit txbuf = refl

buffer-take :
    (limit : ℕ) (bs txbuf : List ℕ)
    → length txbuf ≤ limit
    → buffer limit txbuf bs ≡ take limit (txbuf ++ bs)
buffer-take limit [] txbuf h =
    rw (buffer_none limit txbuf, append-nil txbuf) (sym (take_short limit txbuf h))
buffer-take limit (b ∷ bs) txbuf h = elim (Bool-cases (ltb (length txbuf) limit)) [
  | inl e ↦
      let room : length txbuf < limit = ground arith in
      rw (buffer_room limit b bs txbuf room) (
        buffer-take limit bs (txbuf ++ b ∷ []) (omega (arith, length-append_one txbuf b, room))
        ∙ ap (λ (t : List ℕ). take limit t) (append_assoc txbuf (b ∷ []) bs))
  | inr e ↦
      let full : length txbuf ≡ limit = ground arith in
      rw (buffer_full limit (b ∷ bs) txbuf (omega (arith, full)))
        (sym (take_full limit txbuf (b ∷ bs) full))
]

buffer-append :
    (limit : ℕ) (cs bs txbuf : List ℕ)
    → buffer limit (buffer limit txbuf cs) bs ≡ buffer limit txbuf (cs ++ bs)
buffer-append limit [] bs txbuf = ap (λ (t : List ℕ). buffer limit t bs) (buffer_none limit txbuf)
buffer-append limit (a ∷ cs) bs txbuf = elim (Bool-cases (ltb (length txbuf) limit)) [
  | inl e ↦
      let room : length txbuf < limit = ground arith in
      rw (buffer_room limit a cs txbuf room, buffer_room limit a (cs ++ bs) txbuf room)
        (buffer-append limit cs bs (txbuf ++ a ∷ []))
  | inr e ↦
      let full : limit ≤ length txbuf = ground arith in
      rw (buffer_full limit (a ∷ cs) txbuf full, buffer_full limit (a ∷ (cs ++ bs)) txbuf full)
        (buffer_full limit bs txbuf full)
]

abbrev pub concat : List (List ℕ) → List ℕ
concat [] = []
concat (bs ∷ rest) = bs ++ concat rest

abbrev pub writes : TcpChannel → List (List ℕ) → TcpChannel
writes t [] = t
writes t (bs ∷ rest) = writes (tcp_write t bs would_block) rest

unconnected_write :
    (t : TcpChannel) (bs : List ℕ)
    → t.client ≡ false
    → tcp_write t bs would_block ≡ record t { txbuf = buffer 8192 t.txbuf bs }
unfolding tcp_write
unconnected_write t bs h = ground arith

unconnected_writes :
    (rest : List (List ℕ)) (t : TcpChannel)
    → t.client ≡ false
    → writes t rest ≡ record t { txbuf = buffer 8192 t.txbuf (concat rest) }
unconnected_writes [] t h = simp (buffer_none 8192 t.txbuf) refl
unconnected_writes (bs ∷ rest) t h =
    let u : TcpChannel = record t { txbuf = buffer 8192 t.txbuf bs } in
    let ih = unconnected_writes rest u h in
    subst
      (λ (x : TcpChannel).
        writes x rest ≡ record t { txbuf = buffer 8192 t.txbuf (bs ++ concat rest) })
      (sym (unconnected_write t bs h))
      (ih
        ∙ ap (λ (q : List ℕ). record t { txbuf = q }) (buffer-append 8192 bs (concat rest) t.txbuf))

connected :
    (t : TcpChannel) (waiting wanted : List ℕ)
    → t.client ≡ false
    → t.listening ≡ true
    → waiting ≡ wanted
    → let u = accept_client (record t { txbuf = waiting }) true in
      (u.to_client ≡ t.to_client ++ wanted) × (u.txbuf ≡ [])
unfolding accept_client
connected t waiting wanted h l e = ground arith

-- A banner waits for its reader: what is written in any pieces before a client connects reaches the
-- client when it does, in order, up to the first 8192 bytes that wait; none is sent twice.
accept_client-writes :
    (rest : List (List ℕ)) (t : TcpChannel)
    → t.client ≡ false
    → t.listening ≡ true
    → length t.txbuf ≤ 8192
    → let u = accept_client (writes t rest) true in
      (u.to_client ≡ t.to_client ++ take 8192 (t.txbuf ++ concat rest)) × (u.txbuf ≡ [])
accept_client-writes rest t h l room =
    subst
      (λ (x : TcpChannel).
        ((accept_client x true).to_client ≡ t.to_client ++ take 8192 (t.txbuf ++ concat rest))
        × ((accept_client x true).txbuf ≡ []))
      (sym (unconnected_writes rest t h))
      (connected t (buffer 8192 t.txbuf (concat rest)) (take 8192 (t.txbuf ++ concat rest)) h l
        (buffer-take 8192 (concat rest) t.txbuf room))
