-- ===== src/Disasm/Mnemonics.antt =====
-- The mnemonics of the 8085 by the bit fields of the opcode, stated apart from the switch of
-- src/i8085_disasm.c: the registers, operations and conditions are those of Cpu/Encoding, by which
-- the CPU executes.
use tool_i8085_trace.Prelude.{ℕ, List, [], ◌∷◌, ◌++◌, map, codes}
use tool_i8085_trace.Cpu.Encoding.Fields.{
  Reg, b, c, d, e, h, l, m, a, Operation, add, adc, sub, sbb, ana, xra, ora, cmp, Condition, nz, z,
  nc, cy, po, pe, p, mi,
}
use tool_i8085_trace.Disasm.Templates.{Template, printed, printed_byte, printed_word}

abbrev reg_name : Reg → List ℕ
reg_name b = codes "B"
reg_name c = codes "C"
reg_name d = codes "D"
reg_name e = codes "E"
reg_name h = codes "H"
reg_name l = codes "L"
reg_name m = codes "M"
reg_name a = codes "A"

abbrev operation_name : Operation → List ℕ
operation_name add = codes "ADD    "
operation_name adc = codes "ADC    "
operation_name sub = codes "SUB    "
operation_name sbb = codes "SBB    "
operation_name ana = codes "ANA    "
operation_name xra = codes "XRA    "
operation_name ora = codes "ORA    "
operation_name cmp = codes "CMP    "

-- The operation on the accumulator and a byte of the instruction.
abbrev immediate_name : Operation → List ℕ
immediate_name add = codes "ADI    #"
immediate_name adc = codes "ACI    #"
immediate_name sub = codes "SUI    #"
immediate_name sbb = codes "SBI    #"
immediate_name ana = codes "ANI    #"
immediate_name xra = codes "XRI    #"
immediate_name ora = codes "ORI    #"
immediate_name cmp = codes "CPI    #"

abbrev condition_name : Condition → List ℕ
condition_name nz = codes "NZ"
condition_name z = codes "Z"
condition_name nc = codes "NC"
condition_name cy = codes "C"
condition_name po = codes "PO"
condition_name pe = codes "PE"
condition_name p = codes "P"
condition_name mi = codes "M"

-- The blanks up to column 7; CPE stands one further.
abbrev pad : List ℕ → List ℕ
pad (i ∷ j ∷ k ∷ []) = i ∷ j ∷ k ∷ codes "    "
pad (i ∷ j ∷ []) = i ∷ j ∷ codes "     "
pad t = t

abbrev call_name : Condition → List ℕ
call_name pe = codes "CPE     "
call_name k = pad (b'C' ∷ condition_name k)

-- The codes 0 to 7 of a register, and the registers, operations and conditions in their order.
abbrev regs : List Reg
regs = b ∷ c ∷ d ∷ e ∷ h ∷ l ∷ m ∷ a ∷ []

-- 00DDD100, 00DDD101 and 00DDD110 with what the columns 0 to 3 and 7 of their eight opcodes are.
abbrev low_block : Reg → Template → Template → Template → Template → Template → List Template
low_block r c0 c1 c2 c3 c7 =
    c0
    ∷ c1
    ∷ c2
    ∷ c3
    ∷ printed (codes "INR    " ++ reg_name r)
    ∷ printed (codes "DCR    " ++ reg_name r)
    ∷ printed_byte (codes "MVI    " ++ (reg_name r ++ codes ",#"))
    ∷ c7
    ∷ []

-- A register pair: 00RP0001, 00RP0011, 00RP1001 and 00RP1011, with two of the pair's block that are
-- irregular in each half.
abbrev pair_blocks :
    List ℕ
    → Reg
    → Reg
    → Template
    → Template
    → Template
    → Template
    → Template
    → Template
    → List Template
pair_blocks pair even odd c0 store rotate c8 load rotate' =
    low_block even c0 (printed_word (codes "LXI    " ++ (pair ++ codes ",#"))) store
      (printed (codes "INX    " ++ pair)) rotate
    ++ low_block odd c8 (printed (codes "DAD    " ++ pair)) load (printed (codes "DCX    " ++ pair))
        rotate'

-- 01DDDSSS
abbrev moves_to : Reg → List Template
moves_to r = map (λ s. printed (codes "MOV    " ++ (reg_name r ++ (b',' ∷ reg_name s)))) regs

-- 01110SSS, where 01110110 is HLT.
abbrev moves_to_memory : List Template
moves_to_memory =
    map (λ s. printed (codes "MOV    M," ++ reg_name s)) (b ∷ c ∷ d ∷ e ∷ h ∷ l ∷ [])
    ++ printed (codes "HLT") ∷ printed (codes "MOV    M," ++ reg_name a) ∷ []

-- 10OOOSSS
abbrev operations_on : Operation → List Template
operations_on o = map (λ s. printed (operation_name o ++ reg_name s)) regs

-- 11CCC000, 11CCC010, 11CCC100, 11OOO110 and 11NNN111, with what columns 1, 3 and 5 are.
abbrev high_block : Condition → Operation → ℕ → Template → Template → Template → List Template
high_block k o digit c1 c3 c5 =
    printed (b'R' ∷ condition_name k)
    ∷ c1
    ∷ printed_word (pad (b'J' ∷ condition_name k))
    ∷ c3
    ∷ printed_word (call_name k)
    ∷ c5
    ∷ printed_byte (immediate_name o)
    ∷ printed (codes "RST    " ++ (digit ∷ []))
    ∷ []

abbrev flat : List (List Template) → List Template
flat [] = []
flat (ts ∷ rest) = ts ++ flat rest

-- The blocks 0x00, 0x10, 0x20 and 0x30.
abbrev pairs : List (List Template)
pairs =
    pair_blocks (codes "B") b c (printed (codes "NOP")) (printed (codes "STAX   B"))
      (printed (codes "RLC")) (printed (codes "DSUB")) (printed (codes "LDAX   B"))
      (printed (codes "RRC"))
    ∷ pair_blocks (codes "D") d e (printed (codes "ARHL")) (printed (codes "STAX   D"))
        (printed (codes "RAL")) (printed (codes "RDEL")) (printed (codes "LDAX   D"))
        (printed (codes "RAR"))
    ∷ pair_blocks (codes "H") h l (printed (codes "RIM")) (printed_word (codes "SHLD   "))
        (printed (codes "DAA")) (printed_byte (codes "LDHI   #")) (printed_word (codes "LHLD   "))
        (printed (codes "CMA"))
    ∷ pair_blocks (codes "SP") m a (printed (codes "SIM")) (printed_word (codes "STA    "))
        (printed (codes "STC")) (printed_byte (codes "LDSI   #")) (printed_word (codes "LDA    "))
        (printed (codes "CMC"))
    ∷ []

abbrev moves : List (List Template)
moves =
    moves_to b
    ∷ moves_to c
    ∷ moves_to d
    ∷ moves_to e
    ∷ moves_to h
    ∷ moves_to l
    ∷ moves_to_memory
    ∷ moves_to a
    ∷ []

abbrev operations : List (List Template)
operations = map operations_on (add ∷ adc ∷ sub ∷ sbb ∷ ana ∷ xra ∷ ora ∷ cmp ∷ [])

abbrev transfers : List (List Template)
transfers =
    high_block nz add b'0' (printed (codes "POP    B")) (printed_word (codes "JMP    "))
      (printed (codes "PUSH   B"))
    ∷ high_block z adc b'1' (printed (codes "RET")) (printed (codes "RSTV"))
        (printed_word (codes "CALL   "))
    ∷ high_block nc sub b'2' (printed (codes "POP    D")) (printed_byte (codes "OUT    #"))
        (printed (codes "PUSH   D"))
    ∷ high_block cy sbb b'3' (printed (codes "SHLX")) (printed_byte (codes "IN     #"))
        (printed_word (codes "JNX5   "))
    ∷ high_block po ana b'4' (printed (codes "POP    H")) (printed (codes "XTHL"))
        (printed (codes "PUSH   H"))
    ∷ high_block pe xra b'5' (printed (codes "PCHL")) (printed (codes "XCHG"))
        (printed (codes "LHLX"))
    ∷ high_block p ora b'6' (printed (codes "POP    PSW")) (printed (codes "DI"))
        (printed (codes "PUSH   PSW"))
    ∷ high_block mi cmp b'7' (printed (codes "SPHL")) (printed (codes "EI"))
        (printed_word (codes "JX5    "))
    ∷ []

-- All 256 in the order of their opcodes.
unfoldable pub instruction_set : List Template
instruction_set = flat pairs ++ (flat moves ++ (flat operations ++ flat transfers))
