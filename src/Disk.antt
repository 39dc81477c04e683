-- ===== src/Disk.antt =====
-- src/disk_emu.cpp, include/disk_emu.h: the disk emulator, four ports in front of the host's files.
-- The host's stdio is an argument: a file system of type F and streams of type H. A text is its
-- bytes. The names kept for the trace and the trace itself are left out.
pub mod Streams
pub mod Transfers
use tool_i8085_trace.Prelude.{
  zero, suc, ◌+◌, ◌*◌, ◌/◌, Bool, true, false, not, Option, none, some, List, [], ◌∷◌, ◌++◌, ltb,
  ◌==◌, if◌then◌else◌, u8, u16, u64,
}
use tool_i8085_trace.Prelude.{ℕ}
use tool_i8085_trace.Cpu.State.{store}
use tool_i8085_trace.Runtime.{DiskApi}

-- fopen for "rb" and "wb", fclose, fgetc (`none` for EOF), fputc (`false` for EOF) and fseek to 0.
pub record Stdio (F H : Type 0) : Type 0 where
  pub open_read : F → List ℕ → F × Option H
  pub open_write : F → List ℕ → F × Option H
  pub close : F → H → F
  pub getc : F → H → F × Option ℕ
  pub putc : F → H → ℕ → F × Bool
  pub rewind : F → H → F

-- `gDisk`, and the file system behind it.
pub record Disk (F H : Type 0) : Type 0 where
  pub dir : List ℕ
  pub read_fp : Option H
  pub write_fp : Option H
  pub addr_lo : ℕ
  pub addr_hi : ℕ
  pub data_byte : ℕ
  pub status : ℕ
  pub initialized : Bool
  pub bytes_read : ℕ
  pub bytes_written : ℕ
  pub files : F

-- Ports
abbrev pub port_cmd : ℕ
port_cmd = 0xf0

abbrev pub port_data : ℕ
port_data = 0xf1

abbrev pub port_adrl : ℕ
port_adrl = 0xf2

abbrev pub port_adrh : ℕ
port_adrh = 0xf3

-- Commands
abbrev pub cmd_open_read : ℕ
cmd_open_read = 1

abbrev pub cmd_open_write : ℕ
cmd_open_write = 2

abbrev pub cmd_read_byte : ℕ
cmd_read_byte = 3

abbrev pub cmd_write_byte : ℕ
cmd_write_byte = 4

abbrev pub cmd_close : ℕ
cmd_close = 5

abbrev pub cmd_rewind : ℕ
cmd_rewind = 6

-- Status
abbrev pub status_ok : ℕ
status_ok = 0

abbrev pub status_eof : ℕ
status_eof = 1

abbrev pub status_error : ℕ
status_error = 0xff

-- A slash at the end of a name that is not empty and has none.
unfoldable pub with_slash : List ℕ → List ℕ
with_slash [] = []
with_slash (c ∷ []) = if c == b'/' then c ∷ [] else c ∷ b'/' ∷ []
with_slash (c ∷ d ∷ cs) = c ∷ with_slash (d ∷ cs)

-- The loop of `extractFilename`, with the rounds left.
unfoldable pub name_at : (ℕ → ℕ) → ℕ → ℕ → List ℕ
name_at memory addr zero = []
name_at memory addr (suc left) =
    let c = memory (u16 addr) in
    let rest = name_at memory (addr + 1) left in if c == 0 then [] else c ∷ rest

unfoldable pub extract_filename : (ℕ → ℕ) → ℕ → ℕ → List ℕ
extract_filename memory addr len = name_at memory addr (if ltb len 255 then len else 255)

module _ {F H : Type 0} (io : Stdio F H) where
  unfoldable pub disk_init : Disk F H → Option (List ℕ) → Disk F H
  disk_init d dir = record d {
    dir = with_slash (elim dir [ none ↦ b'.' ∷ [] | some name ↦ name ]);
    read_fp = none;
    write_fp = none;
    addr_lo = 0;
    addr_hi = 0;
    data_byte = 0;
    status = status_ok;
    initialized = true;
    bytes_read = 0;
    bytes_written = 0;
  }

  abbrev pub close_fp : F → Option H → F
  close_fp files fp = elim fp [ none ↦ files | some h ↦ io.close files h ]

  unfoldable pub disk_destroy : Disk F H → Disk F H
  disk_destroy d = record d {
    files = close_fp (close_fp d.files d.read_fp) d.write_fp;
    read_fp = none;
    write_fp = none;
    initialized = false;
  }

  -- The path that a command names.
  abbrev pub path : Disk F H → (ℕ → ℕ) → List ℕ
  path d memory = d.dir ++ extract_filename memory (d.addr_hi * 256 + d.addr_lo) d.data_byte

  unfoldable pub open_read : Disk F H → (ℕ → ℕ) → Disk F H
  open_read d memory =
      let (files, fp) = io.open_read (close_fp d.files d.read_fp) (path d memory) in
      elim fp [
        | none ↦ record d { files = files; read_fp = none; status = status_error }
        | some h ↦ record d { files = files; read_fp = some h; status = status_ok; bytes_read = 0 }
      ]

  unfoldable pub open_write : Disk F H → (ℕ → ℕ) → Disk F H
  open_write d memory =
      let (files, fp) = io.open_write (close_fp d.files d.write_fp) (path d memory) in
      elim fp [
        | none ↦ record d { files = files; write_fp = none; status = status_error }
        | some h ↦ record d {
          files = files;
          write_fp = some h;
          status = status_ok;
          bytes_written = 0;
        }
      ]

  unfoldable pub read_byte : Disk F H → Disk F H
  read_byte d = elim d.read_fp [
    | none ↦ record d { status = status_error; data_byte = 0 }
    | some h ↦
        let (files, ch) = io.getc d.files h in
        elim ch [
          | none ↦ record d { files = files; status = status_eof; data_byte = 0 }
          | some c ↦ record d {
            files = files;
            status = status_ok;
            data_byte = u8 c;
            bytes_read = u64 (d.bytes_read + 1);
          }
        ]
  ]

  unfoldable pub write_byte : Disk F H → Disk F H
  write_byte d = elim d.write_fp [
    | none ↦ record d { status = status_error }
    | some h ↦
        let (files, done) = io.putc d.files h d.data_byte in
        if done
        then record d {
          files = files;
          status = status_ok;
          bytes_written = u64 (d.bytes_written + 1);
        }
        else record d { files = files; status = status_error }
  ]

  unfoldable pub close_all : Disk F H → Disk F H
  close_all d = record d {
    files = close_fp (close_fp d.files d.read_fp) d.write_fp;
    read_fp = none;
    write_fp = none;
    status = status_ok;
  }

  unfoldable pub rewind : Disk F H → Disk F H
  rewind d = elim d.read_fp [
    | none ↦ record d { status = status_error }
    | some h ↦ record d { files = io.rewind d.files h; status = status_ok; bytes_read = 0 }
  ]

  -- `diskCommand`
  unfoldable pub disk_command : Disk F H → (ℕ → ℕ) → ℕ → Disk F H
  disk_command d memory cmd =
      if cmd == cmd_open_read
      then open_read d memory
      else if cmd == cmd_open_write
      then open_write d memory
      else if cmd == cmd_read_byte
      then read_byte d
      else if cmd == cmd_write_byte
      then write_byte d
      else if cmd == cmd_close
      then close_all d
      else if cmd == cmd_rewind
      then rewind d
      else record d { status = status_error }

  unfoldable pub disk_io_write : Disk F H → (ℕ → ℕ) → ℕ → ℕ → Disk F H
  disk_io_write d memory port value =
      if not d.initialized
      then d
      else if port == port_cmd
      then disk_command d memory value
      else if port == port_data
      then record d { data_byte = value }
      else if port == port_adrl
      then record d { addr_lo = value }
      else if port == port_adrh
      then record d { addr_hi = value }
      else d

  unfoldable pub disk_io_pre_read : Disk F H → (ℕ → ℕ) → ℕ → ℕ → ℕ
  disk_io_pre_read d ports port =
      if not d.initialized
      then ports
      else if port == port_cmd
      then store ports port_cmd d.status
      else if port == port_data
      then store ports port_data d.data_byte
      else ports

  -- The emulator behind the run-time's hooks.
  abbrev pub disk_api : DiskApi (Disk F H)
  disk_api = record {
    active = λ d. d.initialized;
    on_io_write = disk_io_write;
    on_io_pre_read = disk_io_pre_read;
  }
