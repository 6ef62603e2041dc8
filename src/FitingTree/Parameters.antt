-- ===== src/FitingTree/Parameters.antt =====
-- index/FITing-tree/parameters.h, and the payload of index/common_index.hpp.
use viper_learned_index.Common.{ℕ, ◌-◌, Option, none, some, word}

-- `EPSILON`: how far a fresh model may miss.
abbrev pub epsilon_default : ℕ
epsilon_default = 8

-- `RESERVE`: the cells of a buffer, and the spare cells of a node.
abbrev pub reserve : ℕ
reserve = 64

-- A payload is the 64-bit offset of a `KeyValueOffset`; `NONE()` has all bits set.
abbrev pub none_offset : ℕ
none_offset = word - 1

-- The payload that the code returns for the result of a lookup.
abbrev pub payload_or_none : Option ℕ → ℕ
payload_or_none none = none_offset
payload_or_none (some v) = v
