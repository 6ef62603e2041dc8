-- ===== src/Viper/Recovery/Threads.antt =====
-- The shares of the recovery threads cover the used blocks, and the store reads as before.
use Prim.Native.Nat.{min}
use viper_learned_index.Common.{
  ℕ, zero, suc, ◌+◌, ◌-◌, ◌*◌, ◌/◌, ◌≤◌, ◌<◌, ◌≡◌, refl, inl, inr, arith, Returns, lt_cases,
}
use viper_learned_index.Viper.Interface.{Env, IndexLaws}
use viper_learned_index.Viper.State.{Viper}
use viper_learned_index.Viper.Recovery.{recover_blocks, recover, recover_threads}
use viper_learned_index.Viper.Recovery.Rebuilt.{
  IsPart, IsCovered, Grows, Grows-refl, Grows-trans, AreTidy, IsCovered-Grows, recover_blocks_lem,
}

pub next_share : (i n : ℕ) → (i + 1) * n ≡ i * n + n
next_share i n = grind arith

pub shares : (k n : ℕ) → 0 < k → n < k * (n / k + 1)
shares k n h = grind arith

module _ {I K V : Type 0} (E : Env I K V) (L : IndexLaws E.index) (lost : ℕ → ℕ) where
  -- The used blocks from `lo` on, below `hi`.
  abbrev Shared : I → Viper I K V → ℕ → ℕ → Type 0
  Shared m s lo hi =
      (b p : ℕ)
      → lo ≤ b
      → b < hi
      → b < s.num_used_blocks
      → p < E.num_pages_per_block
      → IsCovered E L lost m (s.v_blocks b p)

  recover_lem :
      (s : Viper I K V) (per start : ℕ) (r : I × ℕ)
      → IsPart E L lost r.0
      → AreTidy E L lost s s.num_used_blocks
      → s.num_used_blocks ≤ s.num_v_blocks
      → Returns
          (recover E s start (min (start + per) s.num_used_blocks) r)
          λ q. Grows E L lost r.0 q.0 × Shared q.0 s start (start + per)
  unfolding recover recover_blocks
  recover_lem s per start r h tidy le = elim (lt_cases start s.num_used_blocks) [
    | inl lt ↦
        let e = min (start + per) s.num_used_blocks in
        let q =
          recover_blocks_lem E L lost s (e - start) start r h (λ b p x. tidy b p (omega arith))
            (omega arith) in
        (q.0, q.1, (q.2.0, λ b p x y z. q.2.1 b p x (omega arith)))
    | inr ge ↦
        let e : min (start + per) s.num_used_blocks - start ≡ 0 = omega arith in
        (r, rw e refl, (Grows-refl E L lost r.0 h, λ b p x y z. absurd (omega arith)))
  ]

  pub recover_threads_lem :
      (s : Viper I K V) (per rest i : ℕ) (r : I × ℕ)
      → IsPart E L lost r.0
      → AreTidy E L lost s s.num_used_blocks
      → s.num_used_blocks ≤ s.num_v_blocks
      → Returns
          (recover_threads E s s.num_used_blocks per rest i r)
          λ q. Grows E L lost r.0 q.0 × Shared q.0 s (i * per) ((i + rest) * per)
  unfolding recover_threads
  recover_threads_lem s per zero i r h tidy le = (
    r,
    refl,
    (
      Grows-refl E L lost r.0 h,
      λ b p x y z. absurd (let e : i + 0 ≡ i = omega arith in let y' = rw e at y in omega arith),
    ),
  )
  recover_threads_lem s per (suc rest) i r h tidy le =
      let f = recover_lem s per (i * per) r h tidy le in
      let q = recover_threads_lem s per rest (i + 1) f.0 f.2.0.part tidy le in
      let n = next_share i per in
      let e : i + 1 + rest ≡ i + suc rest = omega arith in
      (
        q.0,
        rw f.1 q.1,
        (
          Grows-trans E L lost r.0 f.0.0 q.0.0 f.2.0 q.2.0,
          λ b p x y z k. elim (lt_cases b (i * per + per)) [
            | inl lt ↦
                IsCovered-Grows E L lost f.0.0 q.0.0 (s.v_blocks b p) q.2.0 (f.2.1 b p x lt z k)
            | inr ge ↦ q.2.1 b p (omega arith) (rw e y) z k
          ],
        ),
      )
