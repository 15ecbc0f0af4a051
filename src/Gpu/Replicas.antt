-- ===== src/Gpu/Replicas.antt =====
-- The loops of internal/controller/gpu_manager.go over a packer: what they insert and remove.
use fa_st_gshare_autoscaler.Gpu.{insert_replicas}
use fa_st_gshare_autoscaler.Shelf.Calls.{
  Inserted, insert_rect-Inserted, insert_rect-IsValid, new_item, next-insert_rect,
}
use fa_st_gshare_autoscaler.Shelf.Invariant.{IsValid, find, find_congr}
use fa_st_gshare_autoscaler.Shelf.{Error, ShelfPacker, insert_rect}
use fa_st_gshare_autoscaler.Common.{
  int_eq, Bool, Eq-cases, Float, GoMap, Option-cases, Result-cases, [], add64, add64_parts, arith,
  err, inl, inr, insert, lookup, lookup-insert_ne, lookup-insert_self, neg_part, none, ok, one_sign,
  pos, pos_part, refl, some, subst, suc, sym, true, zero, ℕ, ℤ, ◌+◌, ◌<◌, ◌^◌, ◌∙◌, ◌≡◌, ◌≢◌,
}

module _ {F : Type 0} ⦃f : Float F⦄ where
  -- A rule for the loop of `AllocateAndCommitConfig`, over the replicas still to insert.
  pub insert_replicas_inv {ℓ} :
      (P Q : ShelfPacker F → GoMap ℤ Bool → ℤ → ℕ → Type ℓ) (quota : F) (sm : ℤ)
      → ((u : ShelfPacker F) (items : GoMap ℤ Bool) (n : ℤ) → P u items n 0 → Q u items n 0)
      → ((left : ℕ) (u : ShelfPacker F) (items : GoMap ℤ Bool) (n id : ℤ)
          → P u items n (suc left)
          → (insert_rect u quota sm).1 ≡ ok id
          → P (insert_rect u quota sm).0 (insert id true items) (add64 n (pos 1)) left)
      → ((left : ℕ) (u : ShelfPacker F) (items : GoMap ℤ Bool) (n : ℤ) (e : Error)
          → P u items n (suc left)
          → (insert_rect u quota sm).1 ≡ err e
          → Q (insert_rect u quota sm).0 items n (suc left))
      → (left : ℕ) (u : ShelfPacker F) (items : GoMap ℤ Bool) (n : ℤ) → P u items n left
      → (k : ℕ) × Q
          (insert_replicas left quota sm u items n).0
          (insert_replicas left quota sm u items n).1
          (insert_replicas left quota sm u items n).2
          k
  unfolding insert_replicas
  insert_replicas_inv P Q quota sm done more stop zero u items n h = (0, done u items n h)
  insert_replicas_inv P Q quota sm done more stop (suc left) u items n h =
      elim (Result-cases (insert_rect u quota sm).1) [
        | inl (id, e) ↦
            rw (e, insert_replicas)
              (insert_replicas_inv P Q quota sm done more stop left (insert_rect u quota sm).0
                (insert id true items) (add64 n (pos 1)) (more left u items n id h e))
        | inr (x, e) ↦ rw (e, insert_replicas) (suc left, stop left u items n x h e)
      ]

  -- During the loop: `total` replicas are wanted and `left` are not inserted; the config's items name
  -- what the loop has added to the packer `start`, and nothing else has changed.
  pub record Filling (start : ShelfPacker F) (total : ℕ) (u : ShelfPacker F) (items : GoMap ℤ Bool)
      (n : ℤ) (left : ℕ) : Type 0 where
    pub valid : IsValid u
    pub small : total < 2 ^ 63
    pub counted : pos_part n + left ≡ total
    pub nonneg : neg_part n ≡ 0
    pub held : (id : ℤ) (b : Bool) → lookup id items ≡ some b → find u id ≢ none
    pub added : (id : ℤ) (b : Bool) → lookup id items ≡ some b → find start id ≡ none
    pub kept : (id : ℤ) → lookup id items ≡ none → find u id ≡ find start id

  -- The same with ids enough for the replicas still to insert.
  pub record FillingOn (start : ShelfPacker F) (total : ℕ) (u : ShelfPacker F)
      (items : GoMap ℤ Bool) (n : ℤ) (left : ℕ) : Type 0 where
    pub filling : Filling start total u items n left
    pub ids_left : pos_part u.next_item_id + left < 2 ^ 63

  pub Filling-start :
      (u : ShelfPacker F) (total : ℕ)
      → IsValid u
      → pos_part u.next_item_id + total < 2 ^ 63
      → FillingOn u total u [] (pos 0) total
  unfolding lookup
  Filling-start u total v h = record {
    filling = record {
      valid = v;
      small = omega arith;
      counted = omega arith;
      nonneg = refl;
      held = λ id b e. ground arith;
      added = λ id b e. ground arith;
      kept = λ id e. refl;
    };
    ids_left = h;
  }

  module _ (start : ShelfPacker F) (total : ℕ) (quota : F) (sm : ℤ) where
    Filling-more :
        (left : ℕ) (u : ShelfPacker F) (items : GoMap ℤ Bool) (n id : ℤ)
        → FillingOn start total u items n (suc left)
        → (insert_rect u quota sm).1 ≡ ok id
        → FillingOn start total
            (insert_rect u quota sm).0
            (insert id true items)
            (add64 n (pos 1))
            left
    Filling-more left u items n id on e =
        let h = on.filling in
        let ids = on.ids_left in
        let next = next-insert_rect u quota sm h.valid (omega arith) in
        let count = add64_parts n (pos 1) in
        let (same, free, own, others) =
          subst (λ r. Inserted u (new_item u quota sm) ((insert_rect u quota sm).0, r)) e
            (insert_rect-Inserted u quota sm h.valid) in
        let fresh : find start id ≡ none = elim (Option-cases (lookup id items)) [
          | inl n' ↦ sym (h.kept id n') ∙ free
          | inr (b, p) ↦ absurd (h.held id b p free)
        ] in
        record {
          filling = record {
            valid = insert_rect-IsValid u quota sm h.valid (omega arith);
            small = h.small;
            counted =
                ground (arith, h.counted, h.nonneg, h.small, count, one_sign (add64 n (pos 1)));
            nonneg =
                ground (arith, h.counted, h.nonneg, h.small, count, one_sign (add64 n (pos 1)));
            held = λ x b p. elim (Eq-cases id x) [
              | inl hit ↦ λ q. ground (
                arith,
                subst (λ y. find (insert_rect u quota sm).0 y ≡ some (new_item u quota sm)) hit own,
              )
              | inr miss ↦ λ q.
                  h.held x b (sym (lookup-insert_ne id x true items miss) ∙ p)
                    (sym (others x miss) ∙ q)
            ];
            added = λ x b p. elim (Eq-cases id x) [
              | inl hit ↦ subst (λ y. find start y ≡ none) hit fresh
              | inr miss ↦ h.added x b (sym (lookup-insert_ne id x true items miss) ∙ p)
            ];
            kept = λ x p. elim (Eq-cases id x) [
              | inl hit ↦ ground (
                arith,
                subst (λ y. lookup y (insert id true items) ≡ some true) hit
                    (lookup-insert_self id true items),
              )
              | inr miss ↦
                  others x miss ∙ h.kept x (sym (lookup-insert_ne id x true items miss) ∙ p)
            ];
          };
          ids_left = omega arith;
        }

    Filling-stop :
        (left : ℕ) (u : ShelfPacker F) (items : GoMap ℤ Bool) (n : ℤ) (e : Error)
        → FillingOn start total u items n (suc left)
        → (insert_rect u quota sm).1 ≡ err e
        → Filling start total (insert_rect u quota sm).0 items n (suc left)
    Filling-stop left u items n x on e =
        let h = on.filling in
        let ids = on.ids_left in
        let next = next-insert_rect u quota sm h.valid (omega arith) in
        let (same, index, height) =
          subst (λ r. Inserted u (new_item u quota sm) ((insert_rect u quota sm).0, r)) e
            (insert_rect-Inserted u quota sm h.valid) in
        let unchanged = find_congr u (insert_rect u quota sm).0 same index in
        record {
          valid = insert_rect-IsValid u quota sm h.valid (omega arith);
          small = h.small;
          counted = h.counted;
          nonneg = h.nonneg;
          held = λ id b p q. h.held id b p (sym (unchanged id) ∙ q);
          added = h.added;
          kept = λ id p. unchanged id ∙ h.kept id p;
        }

  pub insert_replicas-Filling :
      (start : ShelfPacker F) (total : ℕ) (quota : F) (sm : ℤ)
      → IsValid start
      → pos_part start.next_item_id + total < 2 ^ 63
      → (k : ℕ) × Filling start total
          (insert_replicas total quota sm start [] (pos 0)).0
          (insert_replicas total quota sm start [] (pos 0)).1
          (insert_replicas total quota sm start [] (pos 0)).2
          k
  insert_replicas-Filling start total quota sm v h =
      insert_replicas_inv (FillingOn start total) (Filling start total) quota sm
        (λ u items n on. on.filling) (Filling-more start total quota sm)
        (Filling-stop start total quota sm) total start [] (pos 0) (Filling-start start total v h)
