-- ===== src/Viper/System/Steps.antt =====
-- One call by one of the clients, and what it does to the map that the store stands for.
use viper_learned_index.Common.{
  ℕ, suc, ◌+◌, ◌%◌, ◌^◌, ◌≤◌, ◌<◌, ◌≡◌, refl, ◌≢◌, inl, inr, arith, ap, sym, subst, ◌∙◌, upd,
  upd_self, upd_other, Returns, eq_cases,
}
use viper_learned_index.Viper.Offset.{block_number}
use viper_learned_index.Viper.Interface.{Env, IndexLaws, IsTelling}
use viper_learned_index.Viper.State.{Viper, Client, PageStrategy}
use viper_learned_index.Viper.Access.{new_client, get_client}
use viper_learned_index.Viper.Valid.{Sizes, view, Owns, IsValid}
use viper_learned_index.Viper.Client.Put.{put_lem}
use viper_learned_index.Viper.Client.Get.{get_lem}
use viper_learned_index.Viper.Client.Remove.{remove_lem}
use viper_learned_index.Viper.Client.Update.{update_lem}
use viper_learned_index.Viper.Access.Fresh.{get_new_access_information_lem}
use viper_learned_index.Viper.Access.Steps.{active-Kept}
use viper_learned_index.Viper.Valid.Kept.{Kept-view, Kept-Owns, Kept-IsSound}
use viper_learned_index.Viper.System.Spec.{spec_step}
use viper_learned_index.Viper.System.{
  System, Call, connect, put, get, update, remove, Reply, connected, answer, found, clients_after,
  step,
}

module _ {I K V : Type 0} (E : Env I K V) (L : IndexLaws E.index) where
  pub record IsReady (y : System I K V) : Type 0 where
    pub valid : IsValid E L y.store
    pub owns : (i : ℕ) → i < y.num_clients → Owns E y.store (y.clients i)
    pub distinct :
        (i j : ℕ)
        → i < y.num_clients
        → j < y.num_clients
        → i ≢ j
        → (y.clients i).v_block_number ≢ (y.clients j).v_block_number

  -- A call is right: it ends, keeps the system ready, and does what the function does.
  pub record Does (y : System I K V) (call : Call K V) (r : System I K V × Reply V) : Type 0 where
    pub ready : IsReady r.0
    pub reads : view E r.0.store ≡ (spec_step E.get_key (view E y.store) call).0
    pub replies : r.1 ≡ (spec_step E.get_key (view E y.store) call).1
    pub count : r.0.num_clients ≡ clients_after y.num_clients call
    pub current_le :
        block_number r.0.store.current_block_page ≤ block_number y.store.current_block_page + 1

  pub IsReady-upd :
      (y : System I K V) (s : Viper I K V) (i n : ℕ) (c : Client)
      → IsReady y
      → IsValid E L s
      → Owns E s c
      → ((j : ℕ)
          → j < n
          → j ≢ i
          → (j < y.num_clients)
            × Owns E s (y.clients j)
            × ((y.clients j).v_block_number ≢ c.v_block_number))
      → IsReady (record y { store = s; clients = upd y.clients i c; num_clients = n })
  IsReady-upd y s i n c h v w others = record {
    valid = v;
    owns = λ j lj. elim (eq_cases j i) [
      | inl e ↦ subst (λ d. Owns E s d) (sym (at_self j e)) w
      | inr e ↦ subst (λ d. Owns E s d) (sym (upd_other y.clients i j c e)) (others j lj e).1
    ];
    distinct = λ j k lj lk ne. elim (eq_cases j i) [
      | inl e ↦
          let f : k ≢ i = λ x. ne (e ∙ sym x) in
          rw (at_self j e, upd_other y.clients i k c f) (λ x. (others k lk f).2 (sym x))
      | inr e ↦ elim (eq_cases k i) [
        | inl f ↦ rw (upd_other y.clients i j c e, at_self k f) (others j lj e).2
        | inr f ↦
            rw (upd_other y.clients i j c e, upd_other y.clients i k c f)
              (h.distinct j k (others j lj e).0 (others k lk f).0 ne)
      ]
    ];
  }
    where
      at_self : (j : ℕ) → j ≡ i → upd y.clients i c j ≡ c
      at_self j e = ap (upd y.clients i c) e ∙ upd_self y.clients i c

  pub put-step :
      (z : Sizes E) (t : IsTelling E.index) (y : System I K V) (i : ℕ) (key : K) (value : V)
      → IsReady y
      → block_number y.store.current_block_page + 1 < 2 ^ 45
      → i < y.num_clients
      → Returns (step E y (put i key value)) (Does y (put i key value))
  unfolding step spec_step clients_after
  put-step z t y i key value h room lt =
      let p = put_lem E L z y.store (y.clients i) key value h.valid (h.owns i lt) room in
      let x = p.2 in
      (
        (record y { store = p.0.0; clients = upd y.clients i p.0.1 }, answer p.0.2),
        rw p.1 refl,
        record {
          ready = IsReady-upd y p.0.0 i y.num_clients p.0.1 h x.valid x.owns λ j lj ne.
              (let q = x.others (y.clients j) (h.owns j lj) (h.distinct j i lj lt ne) in
                (lj, q.0, q.1));
          reads = x.reads;
          replies = ap answer (x.tells t);
          count = refl;
          current_le = x.current_le;
        },
      )

  pub remove-step :
      (y : System I K V) (i : ℕ) (key : K)
      → IsReady y
      → i < y.num_clients
      → Returns (step E y (remove i key)) (Does y (remove i key))
  unfolding step spec_step clients_after
  remove-step y i key h lt =
      let p = remove_lem E L y.store (y.clients i) key h.valid in
      let x = p.2 in
      (
        (record y { store = p.0.0; clients = upd y.clients i p.0.1 }, answer p.0.2),
        rw p.1 refl,
        record {
          ready =
              IsReady-upd y p.0.0 i y.num_clients p.0.1 h x.valid (x.owns (h.owns i lt)) λ j lj ne.
                (
                  lj,
                  x.keeps (y.clients j) (h.owns j lj),
                  λ e. h.distinct j i lj lt ne (e ∙ x.place),
                );
          reads = x.reads;
          replies = ap answer x.tells;
          count = refl;
          current_le = let e = ap block_number x.current_same in omega arith;
        },
      )

  pub update-step :
      (y : System I K V) (i : ℕ) (key : K) (f : V → V)
      → IsReady y
      → Returns (step E y (update i key f)) (Does y (update i key f))
  unfolding step spec_step clients_after
  update-step y i key f h =
      let p = update_lem E L y.store key f h.valid in
      let x = p.2 in
      (
        (record y { store = p.0.0 }, answer p.0.1),
        rw p.1 refl,
        record {
          ready = record {
            valid = x.valid;
            owns = λ j lj. x.keeps (y.clients j) (h.owns j lj);
            distinct = h.distinct;
          };
          reads = x.reads;
          replies = ap answer x.tells;
          count = refl;
          current_le = let e = ap block_number x.current_same in omega arith;
        },
      )

  pub get_step :
      (y : System I K V) (i : ℕ) (key : K)
      → IsReady y
      → Returns (step E y (get i key)) (Does y (get i key))
  unfolding step spec_step clients_after
  get_step y i key h = (
    (y, found (view E y.store (E.get_key key))),
    rw (get_lem E L y.store key h.valid) refl,
    record { ready = h; reads = refl; replies = refl; count = refl; current_le = omega arith },
  )

  pub connect_step :
      (z : Sizes E) (y : System I K V) (p : PageStrategy) (g : ℕ)
      → IsReady y
      → block_number y.store.current_block_page + 1 < 2 ^ 45
      → Returns (step E y (connect p g)) (Does y (connect p g))
  unfolding step spec_step clients_after get_client
  connect_step z y p g h room =
      let n = (y.store.num_active_clients + 1) % 2 ^ 8 in
      let s = record y.store { num_active_clients = n } in
      let k = active-Kept E y.store n in
      let q =
        get_new_access_information_lem E L (λ b. Unit) z s (new_client p g) room
          (Kept-IsSound E L y.store s k h.valid.sound) h.valid.unlocked in
      let x = q.2 in
      (
        (
          record y {
            store = q.0.0;
            clients = upd y.clients y.num_clients q.0.1;
            num_clients = suc y.num_clients;
          },
          connected,
        ),
        rw q.1 refl,
        record {
          ready =
              IsReady-upd y q.0.0 y.num_clients (suc y.num_clients) q.0.1 h x.valid x.owns
                λ j lj ne.
                  (let lt : j < y.num_clients = omega arith in
                    let w =
                      x.others (y.clients j) (Kept-Owns E y.store s (y.clients j) k (h.owns j lt))
                        tt in
                    (lt, w.0, w.1));
          reads = x.reads ∙ Kept-view E y.store s k;
          replies = refl;
          count = refl;
          current_le = x.current_le;
        },
      )
