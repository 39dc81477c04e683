-- ===== src/Tests/DiskTests.antt =====
-- src/disk_emu.cpp: the theorems at a concrete file system.
use tool_i8085_trace.Prelude.{
  ℕ, ◌+◌, ◌-◌, ◌<◌, ◌≡◌, refl, true, Option, none, some, List, [], ◌∷◌, ◌++◌, map, arith, u8, codes,
}
use Prim.Native.Nat.{ℕ}
use tool_i8085_trace.Disk.{
  Stdio, Disk, port_cmd, cmd_open_write, disk_destroy, disk_io_write, disk_io_pre_read,
  disk_command, write_byte,
}
use tool_i8085_trace.Disk.Streams.{CountsStreams, Out, outs, outs-disk_destroy}
use tool_i8085_trace.Disk.Transfers.{
  ReadsStreams, WritesStreams, read_rounds, put_bytes, all_ok, read_rounds-rest, put_bytes-written,
  disk_command_refused,
}

-- One file: the number of open streams, what is left to read, all of it, and what was written.
abbrev Tape : Type 0
Tape = ℕ × List ℕ × List ℕ × List ℕ

abbrev get : Tape → Tape × Option ℕ
get (n, [], whole, out) = ((n, [], whole, out), none)
get (n, c ∷ cs, whole, out) = ((n, cs, whole, out), some (u8 c))

abbrev tape_io : Stdio Tape ℕ
tape_io = record {
  open_read = λ f p. ((f.0 + 1, f.2, f.2, f.3), some 1);
  open_write = λ f p. elim p [ [] ↦ (f, none) | c ∷ cs ↦ ((f.0 + 1, f.1, f.2, f.3), some 2) ];
  close = λ f h. (f.0 - 1, f.1, f.2, f.3);
  getc = λ f h. get f;
  putc = λ f h c. ((f.0, f.1, f.2, f.3 ++ c ∷ []), true);
  rewind = λ f h. (f.0, f.2, f.2, f.3);
}

get-streams : (f : Tape) → (get f).0.0 ≡ f.0
get-streams (n, [], whole, out) = refl
get-streams (n, c ∷ cs, whole, out) = refl

open_streams :
    (f : Tape) (p : List ℕ)
    → (tape_io.open_write f p).0.0
      ≡ elim (tape_io.open_write f p).1 [ none ↦ f.0 | some h ↦ f.0 + 1 ]
open_streams f [] = refl
open_streams f (c ∷ cs) = refl

abbrev tape_counts : CountsStreams tape_io
tape_counts = record {
  streams = λ f. f.0;
  on_open_read = λ f p. refl;
  on_open_write = open_streams;
  on_close = λ f h. refl;
  on_getc = λ f h. get-streams f;
  on_putc = λ f h c. refl;
  on_rewind = λ f h. refl;
}

get_byte :
    (f : Tape) (c : ℕ) (cs : List ℕ)
    → map u8 f.1 ≡ c ∷ cs
    → ((get f).1 ≡ some c)
      × (map u8 (get f).0.1 ≡ cs)
      × (map u8 (get f).0.2 ≡ map u8 f.2)
      × (c < 256)
get_byte (n, [], whole, out) c cs e = ground arith
get_byte (n, d ∷ ds, whole, out) c cs e = ground arith

get_end : (f : Tape) → map u8 f.1 ≡ [] → ((get f).1 ≡ none) × (map u8 (get f).0.2 ≡ map u8 f.2)
get_end (n, [], whole, out) e = ground arith
get_end (n, d ∷ ds, whole, out) e = ground arith

abbrev tape_reads : ReadsStreams tape_io
tape_reads = record {
  rest = λ f h. map u8 f.1;
  whole = λ f h. map u8 f.2;
  on_byte = λ f h c cs e. get_byte f c cs e;
  on_end = λ f h e. get_end f e;
  on_rewind = λ f h. refl;
}

abbrev tape_writes : WritesStreams tape_io
tape_writes = record { written = λ f h. f.3; on_putc = λ f h c e. refl }

abbrev drive : Disk Tape ℕ
drive = record {
  dir = codes "./disk/";
  read_fp = none;
  write_fp = none;
  addr_lo = 0;
  addr_hi = 0;
  data_byte = 0;
  status = 0;
  initialized = true;
  bytes_read = 0;
  bytes_written = 0;
  files = (3, 7 ∷ 9 ∷ [], 7 ∷ 9 ∷ [], []);
}

abbrev blank : ℕ → ℕ
blank a = 0

abbrev opens : List Out
opens = record { memory = blank; port = port_cmd; value = cmd_open_write } ∷ []

outs-disk_destroy_example :
    tape_counts.streams (disk_destroy tape_io (outs tape_io drive opens)).files ≡ 3
outs-disk_destroy_example = outs-disk_destroy tape_io tape_counts opens drive refl refl

read_rounds-rest_example :
    read_rounds tape_io blank 3 (record drive { read_fp = some 1 }) ≡ (0, 7) ∷ (0, 9) ∷ (1, 0) ∷ []
read_rounds-rest_example =
    read_rounds-rest tape_io blank tape_reads (7 ∷ 9 ∷ []) (record drive { read_fp = some 1 }) 1
      refl refl refl

all_ok_here : all_ok tape_io blank (record drive { write_fp = some 2 }) (5 ∷ 6 ∷ []) ≡ true
unfolding disk_io_write disk_io_pre_read disk_command write_byte
all_ok_here = refl

put_bytes-written_example :
    tape_writes.written
      (put_bytes tape_io blank (record drive { write_fp = some 2 }) (5 ∷ 6 ∷ [])).files
      2
    ≡ 5 ∷ 6 ∷ []
put_bytes-written_example =
    put_bytes-written tape_io blank tape_writes (5 ∷ 6 ∷ []) (record drive { write_fp = some 2 }) 2
      refl refl all_ok_here

disk_command_refused_example :
    disk_command tape_io drive blank 3 ≡ record drive { status = 0xff; data_byte = 0 }
disk_command_refused_example =
    disk_command_refused tape_io blank drive 3 refl refl (omega arith) (omega arith) (omega arith)
