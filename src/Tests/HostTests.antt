-- ===== src/Tests/HostTests.antt =====
-- src/io_channel.cpp and the option values of src/main.cpp: the theorems at concrete inputs.
use tool_i8085_trace.Prelude.{
  before_char, skip_prefix, take_sign, skip_spaces, is_space, digit_of, digit_value, digits_of,
}
use tool_i8085_trace.Prelude.{
  ◌≡◌, refl, true, false, some, List, [], ◌∷◌, ◌++◌, arith, strtoul, numeral, codes, same_text,
  starts_with, after_char,
}
use tool_i8085_trace.Tests.BoardTests.{timer}
use tool_i8085_trace.Runtime.{pit8254}
use tool_i8085_trace.Runtime.Wiring.{snapshot, find_pin}
use tool_i8085_trace.Prelude.{auto_base}
use tool_i8085_trace.Runtime.Wiring.Resolve.{resolve, resolve_chip_pin, search_pin, without_digits}
use tool_i8085_trace.Main.Options.{parse_timer, parse_code, named_code, to_lower}
use tool_i8085_trace.Channels.{bytes, GdbtxChannel, TcpChannel}
use tool_i8085_trace.Channels.Lines.{Event, IsProper, content, mirrored, mirrored-content}
use tool_i8085_trace.Channels.Sockets
use tool_i8085_trace.Channels.Sockets.{after, read_in, writes, read_in-arriving}

abbrev quiet : GdbtxChannel
quiet = record { line = codes "ok"; idle_ticks = 3; out = [] }

abbrev typed : List Event
typed =
    Event.written b'!'
    ∷ Event.ticked
    ∷ Event.written 13
    ∷ Event.written 10
    ∷ Event.written b'>'
    ∷ []

quiet-IsProper : IsProper quiet
quiet-IsProper = record { short = omega arith; line = (refl, (refl, tt)); out = tt }

mirrored-content_example :
    IsProper (mirrored quiet typed) × content (mirrored quiet typed) ≡ codes "ok!>"
mirrored-content_example = mirrored-content typed quiet quiet-IsProper

abbrev line_in : TcpChannel
line_in = record { listening = true; client = false; rxq = 1 ∷ []; txbuf = 5 ∷ []; to_client = [] }

every_minute :
    parse_timer (codes "r6.5:600")
    ≡ some (record { code = 65; period_cycles = 600; next_trigger_cycle = 600 })
unfolding parse_timer parse_code named_code to_lower before_char after_char same_text strtoul
    numeral skip_prefix take_sign skip_spaces is_space digit_of digit_value digits_of
every_minute = refl

abbrev traffic : List Sockets.Event
traffic = Sockets.ticked true (bytes (2 ∷ 3 ∷ [])) ∷ Sockets.read_up_to 2 ∷ []

read_in-arriving_example :
    read_in line_in traffic ++ (after line_in traffic).rxq ≡ 1 ∷ Sockets.arriving line_in traffic
read_in-arriving_example = read_in-arriving traffic line_in

out_found :
    resolve (pit8254 timer ∷ []) (codes "pit8254@0x10.OUT2")
    ≡ some (record { plugin = some 0; field = codes "OUT"; bit = 2; sub = codes "OUT2" }, true)
unfolding resolve resolve_chip_pin search_pin starts_with after_char before_char auto_base
    without_digits strtoul numeral skip_prefix take_sign skip_spaces is_space digit_of digit_value
    digits_of same_text snapshot find_pin
out_found = refl
