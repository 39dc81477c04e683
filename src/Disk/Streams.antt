-- ===== src/Disk/Streams.antt =====
-- src/disk_emu.cpp: the streams that the emulator holds, over any use of its ports.
use tool_i8085_trace.Prelude.{◌+◌, ◌-◌, ◌≡◌, Option, none, some, List, [], ◌∷◌, arith}
use tool_i8085_trace.Prelude.{ℕ}
use tool_i8085_trace.Disk.{
  Stdio, Disk, close_fp, path, open_read, open_write, read_byte, write_byte, close_all, rewind,
  disk_command, disk_io_write, disk_destroy,
}

-- What stdio says of the number of open streams: fopen adds one where it succeeds, fclose takes one
-- away, and the transfers leave it.
pub record CountsStreams {F H : Type 0} (io : Stdio F H) : Type 0 where
  pub streams : F → ℕ
  pub on_open_read :
      (f : F) (p : List ℕ)
      → streams (io.open_read f p).0
        ≡ elim (io.open_read f p).1 [ none ↦ streams f | some h ↦ streams f + 1 ]
  pub on_open_write :
      (f : F) (p : List ℕ)
      → streams (io.open_write f p).0
        ≡ elim (io.open_write f p).1 [ none ↦ streams f | some h ↦ streams f + 1 ]
  pub on_close : (f : F) (h : H) → streams (io.close f h) ≡ streams f - 1
  pub on_getc : (f : F) (h : H) → streams (io.getc f h).0 ≡ streams f
  pub on_putc : (f : F) (h : H) (c : ℕ) → streams (io.putc f h c).0 ≡ streams f
  pub on_rewind : (f : F) (h : H) → streams (io.rewind f h) ≡ streams f

abbrev pub one_if_open : {H : Type 0} → Option H → ℕ
one_if_open none = 0
one_if_open (some h) = 1

-- The streams that the emulator holds.
abbrev pub held : {F H : Type 0} → Disk F H → ℕ
held d = one_if_open d.read_fp + one_if_open d.write_fp

-- An OUT, with the memory that it finds.
pub record Out : Type 0 where
  pub memory : ℕ → ℕ
  pub port : ℕ
  pub value : ℕ

abbrev pub outs : {F H : Type 0} → Stdio F H → Disk F H → List Out → Disk F H
outs io d [] = d
outs io d (o ∷ os) = outs io (disk_io_write io d o.memory o.port o.value) os

module _ {F H : Type 0} (io : Stdio F H) (c : CountsStreams io) where
  -- All streams but those held are somebody else's.
  abbrev HoldsAll : Disk F H → ℕ → Type 0
  HoldsAll d others = c.streams d.files ≡ held d + others

  close_fp-streams :
      (f : F) (fp : Option H) → c.streams (close_fp io f fp) ≡ c.streams f - one_if_open fp
  close_fp-streams f none = omega arith
  close_fp-streams f (some h) = c.on_close f h

  open_read-HoldsAll :
      (d : Disk F H) (memory : ℕ → ℕ) (others : ℕ)
      → HoldsAll d others
      → HoldsAll (open_read io d memory) others
  unfolding open_read
  open_read-HoldsAll d memory others h =
      let f = close_fp io d.files d.read_fp in
      let p = path io d memory in
      ground (arith, c.on_open_read f p, close_fp-streams d.files d.read_fp)

  open_write-HoldsAll :
      (d : Disk F H) (memory : ℕ → ℕ) (others : ℕ)
      → HoldsAll d others
      → HoldsAll (open_write io d memory) others
  unfolding open_write
  open_write-HoldsAll d memory others h =
      let f = close_fp io d.files d.write_fp in
      let p = path io d memory in
      ground (arith, c.on_open_write f p, close_fp-streams d.files d.write_fp)

  read_byte-HoldsAll :
      (d : Disk F H) (others : ℕ) → HoldsAll d others → HoldsAll (read_byte io d) others
  unfolding read_byte
  read_byte-HoldsAll d others h = grind (arith, c.on_getc)

  write_byte-HoldsAll :
      (d : Disk F H) (others : ℕ) → HoldsAll d others → HoldsAll (write_byte io d) others
  unfolding write_byte
  write_byte-HoldsAll d others h = grind (arith, c.on_putc)

  close_all-HoldsAll :
      (d : Disk F H) (others : ℕ) → HoldsAll d others → HoldsAll (close_all io d) others
  unfolding close_all
  close_all-HoldsAll d others h = ground (
    arith,
    close_fp-streams d.files d.read_fp,
    close_fp-streams (close_fp io d.files d.read_fp) d.write_fp,
  )

  rewind-HoldsAll : (d : Disk F H) (others : ℕ) → HoldsAll d others → HoldsAll (rewind io d) others
  unfolding rewind
  rewind-HoldsAll d others h = grind (arith, c.on_rewind)

  disk_io_write-HoldsAll :
      (d : Disk F H) (o : Out) (others : ℕ)
      → HoldsAll d others
      → HoldsAll (disk_io_write io d o.memory o.port o.value) others
  unfolding disk_io_write disk_command
  disk_io_write-HoldsAll d o others h = ground (
    arith,
    open_read-HoldsAll d o.memory others,
    open_write-HoldsAll d o.memory others,
    read_byte-HoldsAll d others,
    write_byte-HoldsAll d others,
    close_all-HoldsAll d others,
    rewind-HoldsAll d others,
  )

  outs-HoldsAll :
      (os : List Out) (d : Disk F H) (others : ℕ)
      → HoldsAll d others
      → HoldsAll (outs io d os) others
  outs-HoldsAll [] d others h = h
  outs-HoldsAll (o ∷ os) d others h =
      outs-HoldsAll os (disk_io_write io d o.memory o.port o.value) others
        (disk_io_write-HoldsAll d o others h)

  -- No stream is leaked or closed twice: from an emulator that holds none, any sequence of OUTs, with
  -- opens that succeed or fail in any order, followed by `disk_emu_destroy`, leaves as many streams
  -- open as there were.
  pub outs-disk_destroy :
      (os : List Out) (d : Disk F H)
      → d.read_fp ≡ none
      → d.write_fp ≡ none
      → c.streams (disk_destroy io (outs io d os)).files ≡ c.streams d.files
  unfolding disk_destroy
  outs-disk_destroy os d r w =
      let e = outs io d os in
      ground (
        arith,
        outs-HoldsAll os d (c.streams d.files),
        close_fp-streams e.files e.read_fp,
        close_fp-streams (close_fp io e.files e.read_fp) e.write_fp,
      )
