-- ===== src/Viper/Tests/Offsets.antt =====
-- An offset in block 3, page 2, slot 7.
use viper_learned_index.Common.{◌+◌, ◌-◌, ◌*◌, ◌^◌, ◌<◌, ◌≡◌, refl, false, arith}
use viper_learned_index.Viper.Offset.{pack, get_offsets, is_tombstone}
use viper_learned_index.Viper.Offset.Fields.{get_offsets-pack}

packed : pack 3 2 7 ≡ 3 + 2 * 2 ^ 45 + 7 * 2 ^ 48
unfolding pack
packed = refl

get_offsets-pack_example :
    (get_offsets (pack 3 2 7) ≡ (3, 2, 7)) × (7 < 2 ^ 16 - 1 → is_tombstone (pack 3 2 7) ≡ false)
get_offsets-pack_example = get_offsets-pack 3 2 7 (omega arith, omega arith, omega arith)
