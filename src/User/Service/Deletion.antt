-- ===== src/User/Service/Deletion.antt =====
-- What the deletion of a user leaves.
use whaticket_community.Prelude.{
  ℕ, ◌≡◌, ◌≢◌, ◌∙◌, ap, inl, inr, refl, Bool, true, false, none, arith, nat_beq, Bool-cases, subst,
}
use whaticket_community.Platform.{
  Result, ok, err, Result-cases, AppError, TxError, transaction-Ran, RolledBack, Ran, rolled_back,
  ran,
}
use whaticket_community.User.Store.{Store, Bcrypt, mapped, freed, orphaned}
use whaticket_community.User.Service.{
  World, publish, user_deleted, remove_user, deleted_user, delete_user, no_permission, delete_error,
}

module _ {S : Type 0} (tables : Store S) (crypt : Bcrypt) (ws : Bool) where
  module _ (id : ℕ) (w : World S) where
    -- The tables without the user, whose open tickets wait again.
    pub record Removed (t : S) : Type 0 where
      pub gone : tables.find id t ≡ none
      pub others : (j : ℕ) → id ≢ j → tables.find j t ≡ tables.find j w.store
      pub tickets :
          (j : ℕ)
          → tables.ticket j t ≡ mapped (orphaned id) (mapped (freed id) (tables.ticket j w.store))

    pub data Deletion (is_admin : Bool) : Result AppError (Unit {0}) × World S → Type 0 where
      forbidden : is_admin ≡ false → Deletion is_admin (err no_permission, w)
      kept :
          (e : TxError)
          → is_admin ≡ true
          → RolledBack tables.commits (remove_user tables crypt ws id) w.store e
          → Deletion is_admin (err (delete_error tables crypt ws e), w)
      removed :
          (t : S)
          → is_admin ≡ true
          → Removed t
          → Deletion is_admin
              (ok tt, publish tables crypt ws (user_deleted id) (record w { store = t }))

    remove-Removed : {t : S} → remove_user tables crypt ws id w.store ≡ ok (tt, t) → Removed t
    unfolding remove_user
    remove-Removed {t} h = elim (Result-cases (tables.free_tickets id w.store)) [
      | inr (e, x) ↦ absurd (ground (arith, x, h))
      | inl (u, x) ↦ elim (Result-cases (tables.remove id u)) [
        | inr (e, y) ↦ absurd (ground (arith, x, y, h))
        | inl ((v, rows), y) ↦ elim (Bool-cases (nat_beq rows 0)) [
          | inl z ↦ absurd (ground (arith, x, y, z, h))
          | inr z ↦
              let same : v ≡ t = ground (arith, x, y, z, h) in
              let freeing = λ (j : ℕ). tables.free_tickets_lem id w.store j x in
              let removing = λ (j : ℕ). tables.remove_lem id u j y in
              subst (λ (q : S). Removed q) same
                (record {
                  gone = (removing id).0 ∙ ground arith;
                  others = λ j n. (removing j).0 ∙ ground (arith, (freeing j).0);
                  tickets = λ j. (removing j).1 ∙ ap (mapped (orphaned id)) (freeing j).1;
                })
        ]
      ]
    ]

    deleted-Deletion :
        {p : Result TxError (Unit {0}) × S}
        → Ran tables.commits (remove_user tables crypt ws id) w.store p
        → Deletion true (deleted_user tables crypt ws id w p)
    deleted-Deletion (rolled_back e k) = kept e refl k
    deleted-Deletion (ran a t k) = removed t refl (remove-Removed k)

    -- `Delete` changes nothing and answers why, which is that no administrator asked or that the transaction
    -- failed; or an administrator asked for it: then the user is gone, all other users
    -- are as they were, every open ticket of the user is pending and nobody's, the user's other tickets
    -- keep their status and are nobody's, and no other ticket changes; the deletion is told of once.
    pub delete_user-Deletion :
        (is_admin : Bool) → Deletion is_admin (delete_user tables crypt ws id is_admin w)
    unfolding delete_user
    delete_user-Deletion false = forbidden refl
    delete_user-Deletion true =
        deleted-Deletion (transaction-Ran tables.commits (remove_user tables crypt ws id) w.store)
