-- ===== src/FitingTree/InplaceNode/Model.antt =====
-- What keeps an `InPlaceNode` correct: its arrays, its capacity, and the error of its model.
use viper_learned_index.Common.{◌+◌, ◌<◌, ◌≡◌, length}
use viper_learned_index.FitingTree.Float.{Float, IsMonotone}
use viper_learned_index.FitingTree.Parameters.{epsilon_default, reserve}
use viper_learned_index.FitingTree.Records.{IsSorted}
use viper_learned_index.FitingTree.Search.Model.{FitsWithin}
use viper_learned_index.FitingTree.InplaceNode.{InplaceNode}

module _ (F : Float) (m : IsMonotone F) where
  pub record IsValid (n : InplaceNode F) : Type 0 where
    pub filled : 0 < n.number
    pub keys_full : length n.keys ≡ n.number
    pub payloads_full : length n.payloads ≡ n.number
    pub sorted : IsSorted n.keys
    pub roomy : n.number + reserve + epsilon_default ≡ n.size + n.epsilon
    pub rising : m.NonNegative n.slope
    pub fits : FitsWithin F n.slope n.intercept n.number n.epsilon n.keys
