-- ===== src/Bytecode/Ext.antt =====
-- The extended opcodes (src/ast.rs: `ExtOp`; src/compiler.rs: `ext_bytecode`,
-- `is_trace_only_ext_op`, `ext_name`).
use cubelang.Base.{ℕ, Bool, true, false}
use cubelang.Base.Text.{Text, lit}
use cubelang.Bytecode.Op

pub data ExtOp : Type 0 where
  infer map_roles filter score detect_pattern decode reduce merge split debate predict discover diff
        seq specialize reward match push sum compare temporal_bind analogy gen inst broadcast
        explore forge ask sync forget :
      ExtOp

unfoldable pub ext_bytecode : ExtOp → ℕ
ext_bytecode seq = Op.seq
ext_bytecode diff = Op.diff
ext_bytecode detect_pattern = Op.detect_pattern
ext_bytecode predict = Op.predict
ext_bytecode match = Op.match
ext_bytecode debate = Op.debate
ext_bytecode discover = Op.discover
ext_bytecode decode = Op.decode
ext_bytecode score = Op.score
ext_bytecode specialize = Op.specialize
ext_bytecode reward = Op.reward
ext_bytecode infer = Op.infer
ext_bytecode merge = Op.merge
ext_bytecode split = Op.split
ext_bytecode filter = Op.filter
ext_bytecode map_roles = Op.map_roles
ext_bytecode reduce = Op.reduce
ext_bytecode push = Op.push
ext_bytecode sum = Op.sum
ext_bytecode compare = Op.compare
ext_bytecode temporal_bind = Op.temporal_bind
ext_bytecode analogy = Op.analogy
ext_bytecode gen = Op.gen
ext_bytecode inst = Op.inst
ext_bytecode broadcast = Op.broadcast
ext_bytecode explore = Op.explore
ext_bytecode forge = Op.forge
ext_bytecode ask = Op.ask
ext_bytecode sync = Op.sync
ext_bytecode forget = Op.forget

unfoldable pub is_trace_only_ext_op : ExtOp → Bool
is_trace_only_ext_op infer = true
is_trace_only_ext_op map_roles = true
is_trace_only_ext_op filter = true
is_trace_only_ext_op score = true
is_trace_only_ext_op detect_pattern = true
is_trace_only_ext_op decode = true
is_trace_only_ext_op reduce = true
is_trace_only_ext_op merge = true
is_trace_only_ext_op split = true
is_trace_only_ext_op debate = true
is_trace_only_ext_op predict = true
is_trace_only_ext_op discover = true
is_trace_only_ext_op diff = true
is_trace_only_ext_op seq = true
is_trace_only_ext_op specialize = true
is_trace_only_ext_op reward = true
is_trace_only_ext_op match = true
is_trace_only_ext_op push = false
is_trace_only_ext_op sum = false
is_trace_only_ext_op compare = false
is_trace_only_ext_op temporal_bind = true
is_trace_only_ext_op analogy = true
is_trace_only_ext_op gen = true
is_trace_only_ext_op inst = true
is_trace_only_ext_op broadcast = true
is_trace_only_ext_op explore = true
is_trace_only_ext_op forge = true
is_trace_only_ext_op ask = false
is_trace_only_ext_op sync = true
is_trace_only_ext_op forget = false

unfoldable pub ext_name : ExtOp → Text
ext_name infer = lit "infer"
ext_name map_roles = lit "map_roles"
ext_name filter = lit "filter"
ext_name score = lit "score"
ext_name detect_pattern = lit "detect_pattern"
ext_name decode = lit "decode"
ext_name reduce = lit "reduce"
ext_name merge = lit "merge"
ext_name split = lit "split"
ext_name debate = lit "debate"
ext_name predict = lit "predict"
ext_name discover = lit "discover"
ext_name diff = lit "diff"
ext_name seq = lit "seq"
ext_name specialize = lit "specialize"
ext_name reward = lit "reward"
ext_name match = lit "match"
ext_name push = lit "push"
ext_name sum = lit "sum"
ext_name compare = lit "compare"
ext_name temporal_bind = lit "temporal_bind"
ext_name analogy = lit "analogy"
ext_name gen = lit "gen"
ext_name inst = lit "inst"
ext_name broadcast = lit "broadcast"
ext_name explore = lit "explore"
ext_name forge = lit "forge"
ext_name ask = lit "ask"
ext_name sync = lit "sync"
ext_name forget = lit "forget"
