-- ===== src/Viper/Access/Move.antt =====
-- The whole of `update_access_information`.
use viper_learned_index.Common.{
  ℕ, ◌+◌, ◌%◌, ◌^◌, ◌<◌, ◌≡◌, refl, ◌≢◌, inl, inr, true, some, arith, ap, ◌∙◌, ◌==◌, ne→==, ==_iff,
  if◌then◌else◌, Returns, eq_cases,
}
use viper_learned_index.Viper.Page
use viper_learned_index.Viper.Offset.{block_number}
use viper_learned_index.Viper.Interface.{Env, IndexLaws}
use viper_learned_index.Viper.State.{Viper, Client, block_based}
use viper_learned_index.Viper.Access.{
  init_page, get_new_access_information, next_page, update_access_information,
}
use viper_learned_index.Viper.Access.Steps.{init_page-Kept, init_page-AllUnlocked}
use viper_learned_index.Viper.Access.Fresh.{Fresh, get_new_access_information_lem}
use viper_learned_index.Viper.Access.Next.{moved, moved-Owns, moved-Untouched}
use viper_learned_index.Viper.Valid.{Sizes, Owns, IsValid}
use viper_learned_index.Viper.Valid.Kept.{Kept-IsAt, Kept-view, Kept-Owns, Kept-IsSound}

module _ {I K V : Type 0} (E : Env I K V) (L : IndexLaws E.index) where
  abbrev counted : Client → Client
  counted c = record c { num_v_pages_processed = (c.num_v_pages_processed + 1) % 2 ^ 8 }

  -- The blocks of the other clients.
  abbrev pub Other : Client → ℕ → Type 0
  Other c b = b ≢ c.v_block_number

  next_run :
      (s : Viper I K V) (c : Client)
      → c.strategy ≡ block_based
      → next_page E c.strategy s c ≡ (
          if (c.num_v_pages_processed + 1) % 2 ^ 8 == E.num_pages_per_block
          then get_new_access_information E s (counted c)
          else some (s, moved E c))
  unfolding next_page
  next_run s c e = ap (λ p. next_page E p s c) e

  next_page_lem :
      (z : Sizes E) (s : Viper I K V) (c : Client)
      → block_number s.current_block_page + 1 < 2 ^ 45
      → IsValid E L s
      → Owns E s c
      → Returns (next_page E c.strategy s c) (Fresh E L s (Other c))
  next_page_lem z s c room v w =
      let z1 = z.few_pages in
      let l = w.processed in
      let n : (c.num_v_pages_processed + 1) % 2 ^ 8 ≡ c.num_v_pages_processed + 1 = omega arith in
      elim (eq_cases ((c.num_v_pages_processed + 1) % 2 ^ 8) E.num_pages_per_block) [
        | inl e ↦
            let f =
              get_new_access_information_lem E L (Other c) z s (counted c) room v.sound
                v.unlocked in
            (f.0, next_run s c w.based ∙ rw ((==_iff _ _).1 e) f.1, f.2)
        | inr e ↦
            let lt : c.num_v_pages_processed + 1 < E.num_pages_per_block = omega arith in
            (
              (s, moved E c),
              next_run s c w.based ∙ rw (ne→== _ _ e) refl,
              record {
                valid = v;
                owns = moved-Owns E z s c lt w;
                reads = refl;
                untouched = moved-Untouched E s c lt w;
                others = λ d wd ne. (wd, ne);
                current_le = omega arith;
              },
            )
      ]

  -- The client has a page on which each slot is free, the store reads as before, and the other
  -- clients keep their blocks.
  pub record Empty (s : Viper I K V) (c : Client) (r : Viper I K V × Client) : Type 0 where
    pub fresh : Fresh E L s (Other c) r
    pub free : (t : ℕ) → (r.0.v_blocks r.1.v_block_number r.1.v_page_number).free_slots t ≡ true

  all_free : (q : Viper I K V) (b p t : ℕ) → ((init_page q b p).v_blocks b p).free_slots t ≡ true
  unfolding init_page Page.init
  all_free q b p t = ground arith

  pub update_access_information_lem :
      (z : Sizes E) (s : Viper I K V) (c : Client)
      → block_number s.current_block_page + 1 < 2 ^ 45
      → IsValid E L s
      → Owns E s c
      → Returns (update_access_information E s c) (Empty s c)
  unfolding update_access_information
  update_access_information_lem z s c room v w =
      let f = next_page_lem z s c room v w in
      let q = f.0.0 in
      let d = f.0.1 in
      let x = f.2 in
      let k = init_page-Kept E q d.v_block_number d.v_page_number x.untouched in
      let i = init_page q d.v_block_number d.v_page_number in
      (
        (i, d),
        rw f.1 refl,
        record {
          fresh = record {
            valid = record {
              sound = Kept-IsSound E L q i k x.valid.sound;
              unlocked =
                  init_page-AllUnlocked E q d.v_block_number d.v_page_number x.valid.unlocked;
            };
            owns = Kept-Owns E q i d k x.owns;
            reads = Kept-view E q i k ∙ x.reads;
            untouched = λ n o a. x.untouched n o (Kept-IsAt E q i k n o a);
            others = λ e we ne. (let y = x.others e we ne in (Kept-Owns E q i e k y.0, y.1));
            current_le = let l = x.current_le in rw k.current_same l;
          };
          free = λ t. all_free q d.v_block_number d.v_page_number t;
        },
      )
