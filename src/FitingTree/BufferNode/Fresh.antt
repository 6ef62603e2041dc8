-- ===== src/FitingTree/BufferNode/Fresh.antt =====
-- The constructor of a `BufferNode` on the records of a segment.
use viper_learned_index.Common.{ℕ, ◌≡◌, refl, List, arith, length, take, drop, Returns}
use viper_learned_index.FitingTree.Float.{Float, IsMonotone}
use viper_learned_index.FitingTree.Records.{IsSorted}
use viper_learned_index.FitingTree.Segment.{Segment, own_intercept, Covers}
use viper_learned_index.FitingTree.Buffer
use viper_learned_index.FitingTree.Buffer.Point as BufferPoint
use viper_learned_index.FitingTree.InplaceNode.Fresh.{slice-eq, length-slice, slice-IsSorted}
use viper_learned_index.FitingTree.BufferNode.{BufferNode, new}
use viper_learned_index.FitingTree.BufferNode.Point.{IsValid}

module _ (F : Float) (m : IsMonotone F) (s : Segment F) (keys payloads : List ℕ) (start : ℕ)
    (sorted : IsSorted keys) (full : length keys ≡ length payloads)
    (c : Covers F m keys start s) where
  abbrev built : BufferNode F
  built = record {
    size = s.number;
    slope = s.slope;
    intercept = own_intercept F s start;
    keys = take s.number (drop start keys);
    payloads = take s.number (drop start payloads);
    buffer = Buffer.empty;
  }

  -- What the constructor promises.
  pub record Fresh (n : BufferNode F) : Type 0 where
    pub valid : IsValid F m n
    pub unbuffered : n.buffer ≡ Buffer.empty
    pub same_keys : n.keys ≡ take s.number (drop start keys)
    pub same_payloads : n.payloads ≡ take s.number (drop start payloads)

  -- From sorted arrays of one length, a node on the records that a segment covers is valid, holds exactly those records, and has an
  -- empty buffer.
  pub buffer_node_new_lem :
      Returns (new F s.number s.first_key s.slope s.intercept keys payloads start) Fresh
  unfolding new
  buffer_node_new_lem = (
    built,
    rw
        (
          slice-eq keys start s.number c.inside,
          slice-eq payloads start s.number (omega (arith, c.inside)),
        )
        refl,
    record {
      valid = record {
        filled = c.filled;
        keys_full = length-slice keys start s.number c.inside;
        payloads_full = length-slice payloads start s.number (omega (arith, c.inside));
        sorted = slice-IsSorted keys start s.number c.inside sorted;
        rising = c.rising;
        fits = c.fits;
        buffered = BufferPoint.empty-IsValid;
        apart = λ j v e. absurd (BufferPoint.empty-lookup j v e);
        above = λ j v e. absurd (BufferPoint.empty-lookup j v e);
      };
      unbuffered = refl;
      same_keys = refl;
      same_payloads = refl;
    },
  )
