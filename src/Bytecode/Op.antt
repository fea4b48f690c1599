-- ===== src/Bytecode/Op.antt =====
-- The opcode table and the mnemonics of `asm` blocks (src/compiler.rs: `mod op`,
-- `asm_mnemonic_to_op`).
use cubelang.Base.{ℕ, List, [], ◌∷◌, Option}
use cubelang.Base.Equal.{list_equal}
use cubelang.Base.Dict.{Dict, lookup}
use cubelang.Base.Text.{Text, lit}

abbrev pub create : ℕ
create = 0x00

abbrev pub destroy : ℕ
destroy = 0x01

abbrev pub assign : ℕ
assign = 0x02

abbrev pub add : ℕ
add = 0x03

abbrev pub sub : ℕ
sub = 0x04

abbrev pub mul : ℕ
mul = 0x05

abbrev pub div : ℕ
div = 0x06

abbrev pub transfer : ℕ
transfer = 0x07

abbrev pub copy : ℕ
copy = 0x08

abbrev pub push : ℕ
push = 0x09

abbrev pub pop : ℕ
pop = 0x0A

abbrev pub compare : ℕ
compare = 0x0B

abbrev pub query : ℕ
query = 0x0C

abbrev pub store : ℕ
store = 0x0D

abbrev pub recall : ℕ
recall = 0x0E

abbrev pub bind_role : ℕ
bind_role = 0x0F

abbrev pub unbind : ℕ
unbind = 0x10

abbrev pub cond : ℕ
cond = 0x11

abbrev pub loop : ℕ
loop = 0x12

abbrev pub call : ℕ
call = 0x13

abbrev pub jmp : ℕ
jmp = 0x14

abbrev pub label : ℕ
label = 0x15

abbrev pub remember : ℕ
remember = 0x21

abbrev pub sum : ℕ
sum = 0x34

abbrev pub unify : ℕ
unify = 0x35

abbrev pub inst : ℕ
inst = 0x36

abbrev pub gen : ℕ
gen = 0x37

abbrev pub newvar : ℕ
newvar = 0x38

abbrev pub return : ℕ
return = 0x39

abbrev pub make_array : ℕ
make_array = 0x3A

abbrev pub len : ℕ
len = 0x3B

abbrev pub index : ℕ
index = 0x3C

abbrev pub set_index : ℕ
set_index = 0x3D

abbrev pub skip : ℕ
skip = 0xFF

abbrev pub seq : ℕ
seq = 0x16

abbrev pub diff : ℕ
diff = 0x18

abbrev pub detect_pattern : ℕ
detect_pattern = 0x19

abbrev pub predict : ℕ
predict = 0x1A

abbrev pub match : ℕ
match = 0x1B

abbrev pub debate : ℕ
debate = 0x1C

abbrev pub discover : ℕ
discover = 0x1E

abbrev pub decode : ℕ
decode = 0x23

abbrev pub score : ℕ
score = 0x24

abbrev pub specialize : ℕ
specialize = 0x25

abbrev pub reward : ℕ
reward = 0x27

abbrev pub infer : ℕ
infer = 0x2A

abbrev pub merge : ℕ
merge = 0x2D

abbrev pub split : ℕ
split = 0x2E

abbrev pub filter : ℕ
filter = 0x2F

abbrev pub map_roles : ℕ
map_roles = 0x30

abbrev pub reduce : ℕ
reduce = 0x31

abbrev pub temporal_bind : ℕ
temporal_bind = 0x32

abbrev pub analogy : ℕ
analogy = 0x33

abbrev pub broadcast : ℕ
broadcast = 0x2B

abbrev pub explore : ℕ
explore = 0x26

abbrev pub forge : ℕ
forge = 0x28

abbrev pub ask : ℕ
ask = 0x1D

abbrev pub sync : ℕ
sync = 0x2C

abbrev pub forget : ℕ
forget = 0x22

-- Every constant of the table.
abbrev pub op_table : List ℕ
op_table =
    create ∷ destroy ∷ assign ∷ add ∷ sub ∷ mul ∷ div ∷ transfer ∷ copy ∷ push ∷ pop ∷ compare
    ∷ query ∷ store ∷ recall ∷ bind_role ∷ unbind ∷ cond ∷ loop ∷ call ∷ jmp ∷ label ∷ remember
    ∷ sum ∷ unify ∷ inst ∷ gen ∷ newvar ∷ return ∷ make_array ∷ len ∷ index ∷ set_index ∷ skip ∷ seq
    ∷ diff ∷ detect_pattern ∷ predict ∷ match ∷ debate ∷ discover ∷ decode ∷ score ∷ specialize
    ∷ reward ∷ infer ∷ merge ∷ split ∷ filter ∷ map_roles ∷ reduce ∷ temporal_bind ∷ analogy
    ∷ broadcast ∷ explore ∷ forge ∷ ask ∷ sync ∷ forget ∷ []

abbrev pub asm_table : Dict Text ℕ
asm_table =
    (lit "CREATE", create)
    ∷ (lit "DESTROY", destroy)
    ∷ (lit "ASSIGN", assign)
    ∷ (lit "ADD", add)
    ∷ (lit "SUB", sub)
    ∷ (lit "MUL", mul)
    ∷ (lit "DIV", div)
    ∷ (lit "TRANSFER", transfer)
    ∷ (lit "COPY", copy)
    ∷ (lit "PUSH", push)
    ∷ (lit "POP", pop)
    ∷ (lit "COMPARE", compare)
    ∷ (lit "QUERY", query)
    ∷ (lit "STORE", store)
    ∷ (lit "RECALL", recall)
    ∷ (lit "BIND_ROLE", bind_role)
    ∷ (lit "UNBIND", unbind)
    ∷ (lit "COND", cond)
    ∷ (lit "LOOP", loop)
    ∷ (lit "CALL", call)
    ∷ (lit "JMP", jmp)
    ∷ (lit "LABEL", label)
    ∷ (lit "REMEMBER", remember)
    ∷ (lit "SUM", sum)
    ∷ (lit "UNIFY", unify)
    ∷ (lit "INST", inst)
    ∷ (lit "GEN", gen)
    ∷ (lit "NEWVAR", newvar)
    ∷ (lit "RETURN", return)
    ∷ (lit "MAKE_ARRAY", make_array)
    ∷ (lit "LEN", len)
    ∷ (lit "INDEX", index)
    ∷ (lit "SKIP", skip)
    ∷ (lit "SEQ", seq)
    ∷ (lit "DIFF", diff)
    ∷ (lit "DETECT_PATTERN", detect_pattern)
    ∷ (lit "PREDICT", predict)
    ∷ (lit "MATCH", match)
    ∷ (lit "DEBATE", debate)
    ∷ (lit "DISCOVER", discover)
    ∷ (lit "DECODE", decode)
    ∷ (lit "SCORE", score)
    ∷ (lit "SPECIALIZE", specialize)
    ∷ (lit "REWARD", reward)
    ∷ (lit "INFER", infer)
    ∷ (lit "MERGE", merge)
    ∷ (lit "SPLIT", split)
    ∷ (lit "FILTER", filter)
    ∷ (lit "MAP_ROLES", map_roles)
    ∷ (lit "REDUCE", reduce)
    ∷ (lit "TEMPORAL_BIND", temporal_bind)
    ∷ (lit "ANALOGY", analogy)
    ∷ (lit "BROADCAST", broadcast)
    ∷ (lit "EXPLORE", explore)
    ∷ (lit "FORGE", forge)
    ∷ (lit "ASK", ask)
    ∷ (lit "SYNC", sync)
    ∷ (lit "FORGET", forget)
    ∷ []

unfoldable pub asm_mnemonic_to_op : Text → Option ℕ
asm_mnemonic_to_op mnemonic = lookup mnemonic asm_table
