-- ===== src/Examples.antt =====
-- Tests and concrete runs of the theorems: stand-ins for the parameters, small inputs, and each
-- theorem with hypotheses applied where they hold.
mod Parameters
mod Bytecode
mod Cubebin
mod Vsa
mod Memory
mod Knowledge
mod Machine
mod Frames
mod Compiler
mod Loader
mod Validator
