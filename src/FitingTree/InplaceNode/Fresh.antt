-- ===== src/FitingTree/InplaceNode/Fresh.antt =====
-- The constructor of an `InPlaceNode` on the records of a segment.
use viper_learned_index.Common.{
  ℕ, ◌+◌, ◌≤◌, ◌<◌, ◌≡◌, refl, ap, some, List, arith, length, ◌!◌, le→leb, take, drop, length-take,
  length-drop, get_or-take, get_or-drop, Returns, ◌∙◌,
}
use viper_learned_index.FitingTree.Float.{Float, IsMonotone}
use viper_learned_index.FitingTree.Parameters.{epsilon_default, reserve}
use viper_learned_index.FitingTree.Records.{IsSorted}
use viper_learned_index.FitingTree.Segment.{Segment, own_intercept, Covers}
use viper_learned_index.FitingTree.InplaceNode.{InplaceNode, slice, new}
use viper_learned_index.FitingTree.InplaceNode.Model.{IsValid}

pub slice-eq :
    (cells : List ℕ) (start number : ℕ)
    → start + number ≤ length cells
    → slice cells start number ≡ some (take number (drop start cells))
unfolding slice
slice-eq cells start number h = rw (le→leb (start + number) (length cells) h) refl

module _ (cells : List ℕ) (start number : ℕ) (h : start + number ≤ length cells) where
  pub length-slice : length (take number (drop start cells)) ≡ number
  length-slice = omega (arith, length-take number (drop start cells), length-drop start cells)

  pub slice_at : (i : ℕ) → i < number → take number (drop start cells) ! i ≡ cells ! (start + i)
  slice_at i l = get_or-take number i 0 (drop start cells) l ∙ get_or-drop start i 0 cells

  pub slice_first : 0 < number → take number (drop start cells) ! 0 ≡ cells ! start
  slice_first l = let e : start + 0 ≡ start = omega arith in slice_at 0 l ∙ ap (λ i. cells ! i) e

  pub slice-IsSorted : IsSorted cells → IsSorted (take number (drop start cells))
  slice-IsSorted sorted i j before inside =
      let l : j < number = omega (arith, length-slice) in
      omega (
        arith,
        slice_at i (omega arith),
        slice_at j l,
        sorted (start + i) (start + j) (omega arith) (omega arith),
      )

module _ (F : Float) (m : IsMonotone F) (s : Segment F) (keys payloads : List ℕ) (start : ℕ)
    (sorted : IsSorted keys) (full : length keys ≡ length payloads)
    (c : Covers F m keys start s) where
  abbrev built : InplaceNode F
  built = record {
    size = s.number + reserve;
    epsilon = epsilon_default;
    number = s.number;
    slope = s.slope;
    intercept = own_intercept F s start;
    keys = take s.number (drop start keys);
    payloads = take s.number (drop start payloads);
  }

  -- What the constructor promises.
  pub record Fresh (n : InplaceNode F) : Type 0 where
    pub valid : IsValid F m n
    pub load : n.epsilon ≡ epsilon_default
    pub same_keys : n.keys ≡ take s.number (drop start keys)
    pub same_payloads : n.payloads ≡ take s.number (drop start payloads)

  -- From sorted arrays of one length, a node on the records that a segment covers is valid, and holds exactly those records.
  pub inplace_node_new_lem :
      Returns (new F s.number s.first_key s.slope s.intercept keys payloads start) Fresh
  unfolding new
  inplace_node_new_lem = (
    built,
    rw
        (
          slice-eq keys start s.number c.inside,
          slice-eq payloads start s.number (omega (arith, c.inside)),
        )
        refl,
    record {
      valid = record {
        filled = c.filled;
        keys_full = length-slice keys start s.number c.inside;
        payloads_full = length-slice payloads start s.number (omega (arith, c.inside));
        sorted = slice-IsSorted keys start s.number c.inside sorted;
        roomy = omega arith;
        rising = c.rising;
        fits = c.fits;
      };
      load = refl;
      same_keys = refl;
      same_payloads = refl;
    },
  )
