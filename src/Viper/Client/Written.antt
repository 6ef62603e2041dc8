-- ===== src/Viper/Client/Written.antt =====
-- The state behind the first half of `put` is in order, and each client keeps its pages.
use viper_learned_index.Common.{ℕ, ◌≡◌, ◌≢◌, ◌⊎◌, inl, inr, sym, subst, ◌∙◌}
use viper_learned_index.Viper.Offset.{pack, block_number, page_number}
use viper_learned_index.Viper.Interface.{Env, IndexLaws}
use viper_learned_index.Viper.State.{Viper, Client, write_record}
use viper_learned_index.Viper.Valid.{Sizes, IsLive, Untouched, Owns, IsSound}
use viper_learned_index.Viper.Client.Write.{
  Inserted, IsOpen, written, pack-At, new-IsLive, old-IsLive, Inserted-IsAt,
}

module _ {I K V : Type 0} (E : Env I K V) where
  written-Untouched :
      (s : Viper I K V) (b p t : ℕ) (key : K) (value : V) (m : I) (b' p' : ℕ)
      → Sizes E
      → IsOpen E s b p t
      → Inserted E s.map_ m (E.get_key key) (pack b p t)
      → (b ≢ b') ⊎ (p ≢ p')
      → Untouched E s b' p'
      → Untouched E (written E s b p t key value m) b' p'
  written-Untouched s b p t key value m b' p' z h i d u n o a =
      elim (Inserted-IsAt E s b p t key value m n o i a) [
        | inl e ↦
            let x = pack-At E s b p t z h in
            let bb : block_number o ≡ b = subst (λ q. block_number q ≡ b) (sym e.1) x.0 in
            let pp : page_number o ≡ p = subst (λ q. page_number q ≡ p) (sym e.1) x.1 in
            elim d [ inl ne ↦ inl (λ f. ne (sym bb ∙ f)) | inr ne ↦ inr (λ f. ne (sym pp ∙ f)) ]
        | inr e ↦ u n o e.1
      ]

  -- A client that works on the block works on the page that is written.
  pub written-Owns :
      (s : Viper I K V) (b p t : ℕ) (key : K) (value : V) (m : I) (c : Client)
      → Sizes E
      → IsOpen E s b p t
      → Inserted E s.map_ m (E.get_key key) (pack b p t)
      → (b ≢ c.v_block_number) ⊎ (p ≡ c.v_page_number)
      → Owns E s c
      → Owns E (written E s b p t key value m) c
  unfolding write_record
  written-Owns s b p t key value m c z h i d w = record {
    based = w.based;
    placed = w.placed;
    block_lt = w.block_lt;
    handed_out = w.handed_out;
    page_lt = w.page_lt;
    processed = w.processed;
    fresh = λ q lt ne k.
        written-Untouched s b p t key value m c.v_block_number q z h i
          (elim d [ inl e ↦ inl e | inr e ↦ inr (λ f. ne (sym f ∙ e)) ]) (w.fresh q lt ne k);
  }

module _ {I K V : Type 0} (E : Env I K V) (L : IndexLaws E.index) where
  pub written-IsSound :
      (s : Viper I K V) (b p t : ℕ) (key : K) (value : V) (m : I)
      → Sizes E
      → IsOpen E s b p t
      → Inserted E s.map_ m (E.get_key key) (pack b p t)
      → L.IsValid m
      → IsSound E L s
      → IsSound E L (written E s b p t key value m)
  unfolding write_record
  written-IsSound s b p t key value m z h i v w = record {
    index_valid = v;
    entries = λ n o a. elim (Inserted-IsAt E s b p t key value m n o i a) [
      | inl e ↦
          let l = new-IsLive E s b p t key value m z h in
          subst (λ r. IsLive E (written E s b p t key value m) r o) (sym e.0)
            (subst (λ r. IsLive E (written E s b p t key value m) (E.get_key key) r) (sym e.1) l)
      | inr e ↦ old-IsLive E s b p t key value m n o h (w.entries n o e.1)
    ];
    no_free_blocks = w.no_free_blocks;
    some_block = w.some_block;
    current_le = w.current_le;
    current_page = w.current_page;
  }
