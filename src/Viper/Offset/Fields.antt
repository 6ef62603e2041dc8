-- ===== src/Viper/Offset/Fields.antt =====
-- What `KeyValueOffset` keeps: the fields of an offset, and which offset is the tombstone.
use viper_learned_index.Common.{ℕ, ◌-◌, ◌^◌, ◌<◌, ◌≡◌, ◌≢◌, false, arith, ne→==, refl}
use viper_learned_index.FitingTree.Parameters.{none_offset}
use viper_learned_index.Viper.Offset.{
  pack, block_number, page_number, data_offset, get_offsets, is_tombstone,
}

-- The widths of the bit fields.
abbrev pub Fits : ℕ → ℕ → ℕ → Type 0
Fits b p t = (b < 2 ^ 45) × (p < 2 ^ 3) × (t < 2 ^ 16)

pub block_number-pack : (b p t : ℕ) → Fits b p t → block_number (pack b p t) ≡ b
unfolding pack block_number
block_number-pack b p t h = omega arith

pub page_number-pack : (b p t : ℕ) → Fits b p t → page_number (pack b p t) ≡ p
unfolding pack page_number
page_number-pack b p t h = omega arith

pub data_offset-pack : (b p t : ℕ) → Fits b p t → data_offset (pack b p t) ≡ t
unfolding pack data_offset
data_offset-pack b p t h = omega arith

-- A slot below the last one is never taken for the tombstone.
pub pack-ne-none_offset : (b p t : ℕ) → t < 2 ^ 16 - 1 → pack b p t ≢ none_offset
unfolding pack
pack-ne-none_offset b p t h e = omega arith

pub pack-fields : (o : ℕ) → o < 2 ^ 64 → pack (block_number o) (page_number o) (data_offset o) ≡ o
unfolding pack block_number page_number data_offset
pack-fields o h = omega arith

pub pack-lt : (b p t : ℕ) → pack b p t < 2 ^ 64
unfolding pack
pack-lt b p t = omega arith

pub block_number-lt : (o : ℕ) → block_number o < 2 ^ 45
unfolding block_number
block_number-lt o = omega arith

-- Packing keeps a block number, page number and slot that fit their bit fields, and for a slot below
-- the last one the offset is not the tombstone.
pub get_offsets-pack :
    (b p t : ℕ)
    → Fits b p t
    → (get_offsets (pack b p t) ≡ (b, p, t)) × (t < 2 ^ 16 - 1 → is_tombstone (pack b p t) ≡ false)
unfolding get_offsets is_tombstone
get_offsets-pack b p t h = (
  rw (block_number-pack b p t h, page_number-pack b p t h, data_offset-pack b p t h) refl,
  λ l. ne→== (pack b p t) none_offset (pack-ne-none_offset b p t l),
)
