-- ===== src/Disasm/Templates.antt =====
-- src/i8085_disasm.c, `Disassemble8085Op`: what each case prints. A case of the switch is a template:
-- the characters in front of `$`, and how many bytes of operand are printed behind it.
use tool_i8085_trace.Prelude.{ℕ, List, [], ◌∷◌, ◌++◌, codes}
use tool_i8085_trace.Gdb.{hex_byte}

pub data Template : Type 0 where
  printed : List ℕ → Template
  printed_byte : List ℕ → Template
  printed_word : List ℕ → Template

abbrev pub texts_0 : List Template
texts_0 =
    printed (codes "NOP")
    ∷ printed_word (codes "LXI    B,#")
    ∷ printed (codes "STAX   B")
    ∷ printed (codes "INX    B")
    ∷ printed (codes "INR    B")
    ∷ printed (codes "DCR    B")
    ∷ printed_byte (codes "MVI    B,#")
    ∷ printed (codes "RLC")
    ∷ printed (codes "DSUB")
    ∷ printed (codes "DAD    B")
    ∷ printed (codes "LDAX   B")
    ∷ printed (codes "DCX    B")
    ∷ printed (codes "INR    C")
    ∷ printed (codes "DCR    C")
    ∷ printed_byte (codes "MVI    C,#")
    ∷ printed (codes "RRC")
    ∷ []

abbrev pub texts_1 : List Template
texts_1 =
    printed (codes "ARHL")
    ∷ printed_word (codes "LXI    D,#")
    ∷ printed (codes "STAX   D")
    ∷ printed (codes "INX    D")
    ∷ printed (codes "INR    D")
    ∷ printed (codes "DCR    D")
    ∷ printed_byte (codes "MVI    D,#")
    ∷ printed (codes "RAL")
    ∷ printed (codes "RDEL")
    ∷ printed (codes "DAD    D")
    ∷ printed (codes "LDAX   D")
    ∷ printed (codes "DCX    D")
    ∷ printed (codes "INR    E")
    ∷ printed (codes "DCR    E")
    ∷ printed_byte (codes "MVI    E,#")
    ∷ printed (codes "RAR")
    ∷ []

abbrev pub texts_2 : List Template
texts_2 =
    printed (codes "RIM")
    ∷ printed_word (codes "LXI    H,#")
    ∷ printed_word (codes "SHLD   ")
    ∷ printed (codes "INX    H")
    ∷ printed (codes "INR    H")
    ∷ printed (codes "DCR    H")
    ∷ printed_byte (codes "MVI    H,#")
    ∷ printed (codes "DAA")
    ∷ printed_byte (codes "LDHI   #")
    ∷ printed (codes "DAD    H")
    ∷ printed_word (codes "LHLD   ")
    ∷ printed (codes "DCX    H")
    ∷ printed (codes "INR    L")
    ∷ printed (codes "DCR    L")
    ∷ printed_byte (codes "MVI    L,#")
    ∷ printed (codes "CMA")
    ∷ []

abbrev pub texts_3 : List Template
texts_3 =
    printed (codes "SIM")
    ∷ printed_word (codes "LXI    SP,#")
    ∷ printed_word (codes "STA    ")
    ∷ printed (codes "INX    SP")
    ∷ printed (codes "INR    M")
    ∷ printed (codes "DCR    M")
    ∷ printed_byte (codes "MVI    M,#")
    ∷ printed (codes "STC")
    ∷ printed_byte (codes "LDSI   #")
    ∷ printed (codes "DAD    SP")
    ∷ printed_word (codes "LDA    ")
    ∷ printed (codes "DCX    SP")
    ∷ printed (codes "INR    A")
    ∷ printed (codes "DCR    A")
    ∷ printed_byte (codes "MVI    A,#")
    ∷ printed (codes "CMC")
    ∷ []

abbrev pub texts_4 : List Template
texts_4 =
    printed (codes "MOV    B,B")
    ∷ printed (codes "MOV    B,C")
    ∷ printed (codes "MOV    B,D")
    ∷ printed (codes "MOV    B,E")
    ∷ printed (codes "MOV    B,H")
    ∷ printed (codes "MOV    B,L")
    ∷ printed (codes "MOV    B,M")
    ∷ printed (codes "MOV    B,A")
    ∷ printed (codes "MOV    C,B")
    ∷ printed (codes "MOV    C,C")
    ∷ printed (codes "MOV    C,D")
    ∷ printed (codes "MOV    C,E")
    ∷ printed (codes "MOV    C,H")
    ∷ printed (codes "MOV    C,L")
    ∷ printed (codes "MOV    C,M")
    ∷ printed (codes "MOV    C,A")
    ∷ []

abbrev pub texts_5 : List Template
texts_5 =
    printed (codes "MOV    D,B")
    ∷ printed (codes "MOV    D,C")
    ∷ printed (codes "MOV    D,D")
    ∷ printed (codes "MOV    D,E")
    ∷ printed (codes "MOV    D,H")
    ∷ printed (codes "MOV    D,L")
    ∷ printed (codes "MOV    D,M")
    ∷ printed (codes "MOV    D,A")
    ∷ printed (codes "MOV    E,B")
    ∷ printed (codes "MOV    E,C")
    ∷ printed (codes "MOV    E,D")
    ∷ printed (codes "MOV    E,E")
    ∷ printed (codes "MOV    E,H")
    ∷ printed (codes "MOV    E,L")
    ∷ printed (codes "MOV    E,M")
    ∷ printed (codes "MOV    E,A")
    ∷ []

abbrev pub texts_6 : List Template
texts_6 =
    printed (codes "MOV    H,B")
    ∷ printed (codes "MOV    H,C")
    ∷ printed (codes "MOV    H,D")
    ∷ printed (codes "MOV    H,E")
    ∷ printed (codes "MOV    H,H")
    ∷ printed (codes "MOV    H,L")
    ∷ printed (codes "MOV    H,M")
    ∷ printed (codes "MOV    H,A")
    ∷ printed (codes "MOV    L,B")
    ∷ printed (codes "MOV    L,C")
    ∷ printed (codes "MOV    L,D")
    ∷ printed (codes "MOV    L,E")
    ∷ printed (codes "MOV    L,H")
    ∷ printed (codes "MOV    L,L")
    ∷ printed (codes "MOV    L,M")
    ∷ printed (codes "MOV    L,A")
    ∷ []

abbrev pub texts_7 : List Template
texts_7 =
    printed (codes "MOV    M,B")
    ∷ printed (codes "MOV    M,C")
    ∷ printed (codes "MOV    M,D")
    ∷ printed (codes "MOV    M,E")
    ∷ printed (codes "MOV    M,H")
    ∷ printed (codes "MOV    M,L")
    ∷ printed (codes "HLT")
    ∷ printed (codes "MOV    M,A")
    ∷ printed (codes "MOV    A,B")
    ∷ printed (codes "MOV    A,C")
    ∷ printed (codes "MOV    A,D")
    ∷ printed (codes "MOV    A,E")
    ∷ printed (codes "MOV    A,H")
    ∷ printed (codes "MOV    A,L")
    ∷ printed (codes "MOV    A,M")
    ∷ printed (codes "MOV    A,A")
    ∷ []

abbrev pub texts_8 : List Template
texts_8 =
    printed (codes "ADD    B")
    ∷ printed (codes "ADD    C")
    ∷ printed (codes "ADD    D")
    ∷ printed (codes "ADD    E")
    ∷ printed (codes "ADD    H")
    ∷ printed (codes "ADD    L")
    ∷ printed (codes "ADD    M")
    ∷ printed (codes "ADD    A")
    ∷ printed (codes "ADC    B")
    ∷ printed (codes "ADC    C")
    ∷ printed (codes "ADC    D")
    ∷ printed (codes "ADC    E")
    ∷ printed (codes "ADC    H")
    ∷ printed (codes "ADC    L")
    ∷ printed (codes "ADC    M")
    ∷ printed (codes "ADC    A")
    ∷ []

abbrev pub texts_9 : List Template
texts_9 =
    printed (codes "SUB    B")
    ∷ printed (codes "SUB    C")
    ∷ printed (codes "SUB    D")
    ∷ printed (codes "SUB    E")
    ∷ printed (codes "SUB    H")
    ∷ printed (codes "SUB    L")
    ∷ printed (codes "SUB    M")
    ∷ printed (codes "SUB    A")
    ∷ printed (codes "SBB    B")
    ∷ printed (codes "SBB    C")
    ∷ printed (codes "SBB    D")
    ∷ printed (codes "SBB    E")
    ∷ printed (codes "SBB    H")
    ∷ printed (codes "SBB    L")
    ∷ printed (codes "SBB    M")
    ∷ printed (codes "SBB    A")
    ∷ []

abbrev pub texts_a : List Template
texts_a =
    printed (codes "ANA    B")
    ∷ printed (codes "ANA    C")
    ∷ printed (codes "ANA    D")
    ∷ printed (codes "ANA    E")
    ∷ printed (codes "ANA    H")
    ∷ printed (codes "ANA    L")
    ∷ printed (codes "ANA    M")
    ∷ printed (codes "ANA    A")
    ∷ printed (codes "XRA    B")
    ∷ printed (codes "XRA    C")
    ∷ printed (codes "XRA    D")
    ∷ printed (codes "XRA    E")
    ∷ printed (codes "XRA    H")
    ∷ printed (codes "XRA    L")
    ∷ printed (codes "XRA    M")
    ∷ printed (codes "XRA    A")
    ∷ []

abbrev pub texts_b : List Template
texts_b =
    printed (codes "ORA    B")
    ∷ printed (codes "ORA    C")
    ∷ printed (codes "ORA    D")
    ∷ printed (codes "ORA    E")
    ∷ printed (codes "ORA    H")
    ∷ printed (codes "ORA    L")
    ∷ printed (codes "ORA    M")
    ∷ printed (codes "ORA    A")
    ∷ printed (codes "CMP    B")
    ∷ printed (codes "CMP    C")
    ∷ printed (codes "CMP    D")
    ∷ printed (codes "CMP    E")
    ∷ printed (codes "CMP    H")
    ∷ printed (codes "CMP    L")
    ∷ printed (codes "CMP    M")
    ∷ printed (codes "CMP    A")
    ∷ []

abbrev pub texts_c : List Template
texts_c =
    printed (codes "RNZ")
    ∷ printed (codes "POP    B")
    ∷ printed_word (codes "JNZ    ")
    ∷ printed_word (codes "JMP    ")
    ∷ printed_word (codes "CNZ    ")
    ∷ printed (codes "PUSH   B")
    ∷ printed_byte (codes "ADI    #")
    ∷ printed (codes "RST    0")
    ∷ printed (codes "RZ")
    ∷ printed (codes "RET")
    ∷ printed_word (codes "JZ     ")
    ∷ printed (codes "RSTV")
    ∷ printed_word (codes "CZ     ")
    ∷ printed_word (codes "CALL   ")
    ∷ printed_byte (codes "ACI    #")
    ∷ printed (codes "RST    1")
    ∷ []

abbrev pub texts_d : List Template
texts_d =
    printed (codes "RNC")
    ∷ printed (codes "POP    D")
    ∷ printed_word (codes "JNC    ")
    ∷ printed_byte (codes "OUT    #")
    ∷ printed_word (codes "CNC    ")
    ∷ printed (codes "PUSH   D")
    ∷ printed_byte (codes "SUI    #")
    ∷ printed (codes "RST    2")
    ∷ printed (codes "RC")
    ∷ printed (codes "SHLX")
    ∷ printed_word (codes "JC     ")
    ∷ printed_byte (codes "IN     #")
    ∷ printed_word (codes "CC     ")
    ∷ printed_word (codes "JNX5   ")
    ∷ printed_byte (codes "SBI    #")
    ∷ printed (codes "RST    3")
    ∷ []

abbrev pub texts_e : List Template
texts_e =
    printed (codes "RPO")
    ∷ printed (codes "POP    H")
    ∷ printed_word (codes "JPO    ")
    ∷ printed (codes "XTHL")
    ∷ printed_word (codes "CPO    ")
    ∷ printed (codes "PUSH   H")
    ∷ printed_byte (codes "ANI    #")
    ∷ printed (codes "RST    4")
    ∷ printed (codes "RPE")
    ∷ printed (codes "PCHL")
    ∷ printed_word (codes "JPE    ")
    ∷ printed (codes "XCHG")
    ∷ printed_word (codes "CPE     ")
    ∷ printed (codes "LHLX")
    ∷ printed_byte (codes "XRI    #")
    ∷ printed (codes "RST    5")
    ∷ []

abbrev pub texts_f : List Template
texts_f =
    printed (codes "RP")
    ∷ printed (codes "POP    PSW")
    ∷ printed_word (codes "JP     ")
    ∷ printed (codes "DI")
    ∷ printed_word (codes "CP     ")
    ∷ printed (codes "PUSH   PSW")
    ∷ printed_byte (codes "ORI    #")
    ∷ printed (codes "RST    6")
    ∷ printed (codes "RM")
    ∷ printed (codes "SPHL")
    ∷ printed_word (codes "JM     ")
    ∷ printed (codes "EI")
    ∷ printed_word (codes "CM     ")
    ∷ printed_word (codes "JX5    ")
    ∷ printed_byte (codes "CPI    #")
    ∷ printed (codes "RST    7")
    ∷ []

-- The cases in the order of the opcodes.
unfoldable pub templates : List Template
templates =
    (texts_0
      ++ (texts_1
          ++ (texts_2
              ++ (texts_3
                  ++ (texts_4
                      ++ (texts_5
                          ++ (texts_6
                              ++ (texts_7
                                  ++ (texts_8
                                      ++ (texts_9
                                          ++ (texts_a
                                              ++ (texts_b
                                                  ++ (texts_c
                                                      ++ (texts_d
                                                          ++ (texts_e ++ texts_f)))))))))))))))

-- The characters that a case prints for the two bytes behind the opcode; `%02x` is `hex_byte`.
unfoldable pub text : Template → ℕ → ℕ → List ℕ
text (printed t) b1 b2 = t
text (printed_byte t) b1 b2 = t ++ b'$' ∷ hex_byte b1
text (printed_word t) b1 b2 = t ++ b'$' ∷ (hex_byte b2 ++ hex_byte b1)
