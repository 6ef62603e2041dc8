-- ===== src/Viper/Tests/Restart.antt =====
-- A store with one record: it is opened again, and it takes another record.
use viper_learned_index.Common.{
  ℕ, ◌+◌, ◌≡◌, refl, inl, inr, true, false, not, some, arith, sym, subst, ◌==◌, if◌then◌else◌,
  some_inj, Returns, eq_cases, ne→==,
}
use viper_learned_index.FitingTree.Parameters.{none_offset}
use viper_learned_index.Viper.Lock.{is_locked, is_bit_set, used_bit}
use viper_learned_index.Viper.Page.{Page}
use viper_learned_index.Viper.Offset.{pack, block_number, page_number, data_offset}
use viper_learned_index.Viper.State.{Viper, Client, block_based, record_at}
use viper_learned_index.Viper.Valid.{IsAt, IsLive, Owns, view, IsSound, IsValid}
use viper_learned_index.Viper.Recovery.{recover_database}
use viper_learned_index.Viper.Recovery.Reads.{IsTidy, reopened, recover_database_lem}
use viper_learned_index.Viper.Client.{put}
use viper_learned_index.Viper.Client.Put.{Stored, put_lem}
use viper_learned_index.Viper.Tests.{table, table_laws, env}
use viper_learned_index.Viper.Tests.Store.{env-Sizes, blank, new_store}

abbrev full_page : Page ℕ ℕ
full_page = record { version_lock = 0xc2; free_slots = λ t. not (t == 0); records = λ t. (5, 50) }

abbrev used_store : Viper (ℕ → ℕ) ℕ ℕ
used_store = record new_store {
  map_ = λ n. if n == 5 then 0 else none_offset;
  v_blocks = λ b p. if b + p == 0 then full_page else blank;
  num_used_blocks = 1;
  current_block_page = 1;
}

-- The one entry of the index.
one_entry : (n o : ℕ) → IsAt env used_store n o → (n ≡ 5) × (o ≡ 0)
unfolding table
one_entry n o a =
    let e = some_inj (if n == 5 then 0 else none_offset) o a.0 in
    let ne = a.1 in (ground arith, ground arith)

IsLive-entry : IsLive env used_store 5 0
unfolding block_number page_number data_offset record_at
IsLive-entry = record {
  packed = omega arith;
  block_lt = omega arith;
  page_lt = omega arith;
  slot_lt = omega arith;
  handed_out = omega arith;
  is_used = refl;
  keyed = refl;
}

used_store-IsSound : IsSound env table_laws used_store
unfolding table_laws block_number page_number
used_store-IsSound = record {
  index_valid = tt;
  entries = λ n o a.
      (let e = one_entry n o a in
        subst (λ m. IsLive env used_store m o) (sym e.0)
          (subst (λ q. IsLive env used_store 5 q) (sym e.1) IsLive-entry));
  no_free_blocks = refl;
  some_block = omega arith;
  current_le = omega arith;
  current_page = omega arith;
}

first_page :
    (b p : ℕ)
    → is_bit_set (used_store.v_blocks b p).version_lock used_bit ≡ true
    → (b ≡ 0) × (p ≡ 0)
unfolding is_bit_set
first_page b p used = elim (eq_cases (b + p) 0) [
  | inl e ↦ (omega arith, omega arith)
  | inr ne ↦ absurd (bool_absurd (rw (ne→== (b + p) 0 ne) at used))
]
  where
    bool_absurd : false ≡ true → ⊥
    bool_absurd e = absurd cc

slot_zero : (t : ℕ) → not (t == 0) ≡ false → t ≡ 0
slot_zero t h = ground arith

first_entry :
    (b p t : ℕ)
    → b ≡ 0
    → p ≡ 0
    → (used_store.v_blocks b p).free_slots t ≡ false
    → table.get used_store.map_ ((used_store.v_blocks b p).records t).0 ≡ some (pack b p t)
unfolding table pack
first_entry b p t e f busy = let z : t ≡ 0 = slot_zero t (rw (e, f) at busy) in rw (e, f, z) refl

used_store-IsTidy : IsTidy env used_store
unfolding block_number page_number is_bit_set
used_store-IsTidy = record {
  indexed =
      λ b p t lb lp lt used busy. (let e = first_page b p used in first_entry b p t e.0 e.1 busy);
  in_used = λ n o a. (let e = (one_entry n o a).1 in rw e (omega arith, refl));
}

recover_database_example :
    Returns
      (recover_database env (reopened env used_store (λ n. none_offset)) 32)
      λ s'. view env s' ≡ view env used_store
unfolding table table_laws
recover_database_example =
    recover_database_lem env table_laws used_store used_store-IsSound used_store-IsTidy
      (λ n. none_offset) 32 tt (λ n. refl) (omega arith) (omega arith) (omega arith)

-- The client that wrote the record.
abbrev writer : Client
writer = record {
  strategy = block_based;
  v_block_number = 0;
  v_page_number = 0;
  has_block = true;
  end_v_block_number = 0;
  num_v_pages_processed = 0;
  op_count = 1;
  num_reclaimable_ops = 0;
  size_delta = 1;
}

writer-Owns : Owns env used_store writer
unfolding block_number page_number
writer-Owns = record {
  based = refl;
  placed = refl;
  block_lt = omega arith;
  handed_out = omega arith;
  page_lt = omega arith;
  processed = omega arith;
  fresh = λ p lt ne k n o a. (let e = (one_entry n o a).1 in rw e (inr (λ x. ne (sym x))));
}

used_store-IsValid : IsValid env table_laws used_store
unfolding is_locked
used_store-IsValid = record {
  sound = used_store-IsSound;
  unlocked = λ b p. elim (eq_cases (b + p) 0) [
    | inl e ↦ rw e (omega arith, refl)
    | inr e ↦ rw (ne→== (b + p) 0 e) (omega arith, refl)
  ];
}

put_example :
    Returns (put env used_store writer 5 51) (Stored env table_laws used_store writer 5 51)
unfolding block_number
put_example =
    put_lem env table_laws env-Sizes used_store writer 5 51 used_store-IsValid writer-Owns
      (omega arith)
