-- ===== src/Disk/Transfers.antt =====
-- src/disk_emu.cpp: what a program reads and writes through the ports.
use tool_i8085_trace.Prelude.{
  length, zero, suc, ◌+◌, ◌<◌, ◌≡◌, sym, ◌≢◌, Bool, true, ◌&&◌, none, some, List, [], ◌∷◌, ◌++◌,
  map, arith, ◌==◌, if◌then◌else◌,
}
use tool_i8085_trace.Prelude.{ℕ}
use mathlib.Core.List.{append-nil, append_assoc}
use tool_i8085_trace.Disk.{
  Stdio, Disk, port_cmd, port_data, cmd_open_read, cmd_open_write, cmd_read_byte, cmd_write_byte,
  cmd_close, status_ok, status_eof, status_error, read_byte, write_byte, rewind, disk_command,
  disk_io_write, disk_io_pre_read,
}

-- What stdio says of a stream that is read: fgetc gives the bytes of the file in order and then EOF,
-- and fseek to 0 begins again.
pub record ReadsStreams {F H : Type 0} (io : Stdio F H) : Type 0 where
  pub rest : F → H → List ℕ
  pub whole : F → H → List ℕ
  pub on_byte :
      (f : F) (h : H) (c : ℕ) (cs : List ℕ)
      → rest f h ≡ c ∷ cs
      → ((io.getc f h).1 ≡ some c)
        × (rest (io.getc f h).0 h ≡ cs)
        × (whole (io.getc f h).0 h ≡ whole f h)
        × (c < 256)
  pub on_end :
      (f : F) (h : H)
      → rest f h ≡ []
      → ((io.getc f h).1 ≡ none) × (whole (io.getc f h).0 h ≡ whole f h)
  pub on_rewind : (f : F) (h : H) → rest (io.rewind f h) h ≡ whole f h

-- What stdio says of a stream that is written: fputc appends where it succeeds.
pub record WritesStreams {F H : Type 0} (io : Stdio F H) : Type 0 where
  pub written : F → H → List ℕ
  pub on_putc :
      (f : F) (h : H) (c : ℕ)
      → (io.putc f h c).1 ≡ true
      → written (io.putc f h c).0 h ≡ written f h ++ c ∷ []

module _ {F H : Type 0} (io : Stdio F H) (memory : ℕ → ℕ) where
  -- `OUT 0xF0` with READ_BYTE
  abbrev pub ask_byte : Disk F H → Disk F H
  ask_byte d = disk_io_write io d memory port_cmd cmd_read_byte

  -- What `IN 0xF0` and `IN 0xF1` give.
  abbrev pub status_in : Disk F H → ℕ
  status_in d = disk_io_pre_read io d (λ a. 0) port_cmd port_cmd

  abbrev pub data_in : Disk F H → ℕ
  data_in d = disk_io_pre_read io d (λ a. 0) port_data port_data

  -- A number of rounds of READ_BYTE with both INs.
  abbrev pub read_rounds : ℕ → Disk F H → List (ℕ × ℕ)
  read_rounds zero d = []
  read_rounds (suc n) d = let e = ask_byte d in (status_in e, data_in e) ∷ read_rounds n e

  -- `OUT 0xF1` with a byte, `OUT 0xF0` with WRITE_BYTE.
  abbrev pub put_byte : Disk F H → ℕ → Disk F H
  put_byte d c =
      disk_io_write io (disk_io_write io d memory port_data c) memory port_cmd cmd_write_byte

  abbrev pub put_bytes : Disk F H → List ℕ → Disk F H
  put_bytes d [] = d
  put_bytes d (c ∷ cs) = put_bytes (put_byte d c) cs

  -- Every `IN 0xF0` behind a byte is 0.
  abbrev pub all_ok : Disk F H → List ℕ → Bool
  all_ok d [] = true
  all_ok d (c ∷ cs) = status_in (put_byte d c) == status_ok && all_ok (put_byte d c) cs

  module _ (r : ReadsStreams io) where
    -- READ_BYTE hands over a file byte by byte with status 0, and then 0 with the status for EOF: what
    -- a round for each byte that is left and one more give on an emulator with a file open to read.
    pub read_rounds-rest :
        (bs : List ℕ) (d : Disk F H) (h : H)
        → d.initialized ≡ true
        → d.read_fp ≡ some h
        → r.rest d.files h ≡ bs
        → read_rounds (length bs + 1) d ≡ map (λ c. (status_ok, c)) bs ++ (status_eof, 0) ∷ []
    unfolding disk_io_write disk_io_pre_read disk_command read_byte
    read_rounds-rest [] d h i f e = ground (arith, r.on_end d.files h e)
    read_rounds-rest (b ∷ bs) d h i f e =
        ground (arith, r.on_byte d.files h b bs e, read_rounds-rest bs (ask_byte d) h)

  module _ (w : WritesStreams io) where
    -- A program that has written bytes and has seen status 0 after each has written them all: on an
    -- emulator with a file open to write, the stream has them behind what it had.
    pub put_bytes-written :
        (bs : List ℕ) (d : Disk F H) (h : H)
        → d.initialized ≡ true
        → d.write_fp ≡ some h
        → all_ok d bs ≡ true
        → w.written (put_bytes d bs).files h ≡ w.written d.files h ++ bs
    unfolding disk_io_write disk_io_pre_read disk_command write_byte
    put_bytes-written [] d h i f e = sym (append-nil (w.written d.files h))
    put_bytes-written (b ∷ bs) d h i f e = ground (
      arith,
      w.on_putc d.files h b,
      put_bytes-written bs (put_byte d b) h,
      append_assoc (w.written d.files h) (b ∷ []) bs,
    )

  -- With no file open every command but the two opens and CLOSE is refused: the status is 0xFF,
  -- neither the files nor the registers for the name change, and no stream is opened. READ_BYTE also
  -- clears the data register.
  pub disk_command_refused :
      (d : Disk F H) (cmd : ℕ)
      → d.read_fp ≡ none
      → d.write_fp ≡ none
      → cmd ≢ cmd_open_read
      → cmd ≢ cmd_open_write
      → cmd ≢ cmd_close
      → disk_command io d memory cmd ≡ record d {
        status = status_error;
        data_byte = if cmd == cmd_read_byte then 0 else d.data_byte;
      }
  unfolding disk_command read_byte write_byte rewind
  disk_command_refused d cmd r w n1 n2 n5 = ground arith
