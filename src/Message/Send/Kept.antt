-- ===== src/Message/Send/Kept.antt =====
-- Which messages are stored once a message was created.
use whaticket_community.Prelude.{
  ◌≡◌, ◌∙◌, subst, inl, inr, Bool, some, Bytes, bytes_beq, bytes_beq_iff, bytes_keyed, Bool-cases,
  arith,
}
use whaticket_community.Platform.{Result, ok, AppError}
use whaticket_community.Message.Service.{
  Message, Store, create_message, upserted, new_message, tell_created,
}
use whaticket_community.Message.Service
use whaticket_community.Message.Service.Stale.{
  Stored, Created, refused, not_read, not_told, created, tell_created-store,
}

module _ {S T : Type 0} (tables : Store S T) (ws : Bool) where
  -- A message of this id is stored.
  abbrev pub Known : Bytes → S → Type 0
  Known id s = (m : Message) × (tables.find id s ≡ some m)

  module _ (m : Message) (w : Service.World S T) where
    Stored-Known : {t : S} → Stored tables ws m w t → Known m.id t
    Stored-Known is = (_, is.row)

    Stored-keeps : {t : S} → Stored tables ws m w t → (id : Bytes) → Known id w.store → Known id t
    Stored-keeps {t} is id (n, f) = elim (Bool-cases (bytes_beq m.id id)) [
      | inl y ↦ subst (λ (i : Bytes). Known i t) ((bytes_beq_iff m.id id).0 y) (Stored-Known is)
      | inr k ↦ (n, is.others id (λ e. ground (arith, k, (bytes_beq_iff m.id id).1 e)) ∙ f)
    ]

    pub Created-keeps :
        {p : Result AppError Message × Service.World S T}
        → Created tables ws m w p
        → (id : Bytes) → Known id w.store
        → Known id p.1.store
    Created-keeps (refused e r) id k = k
    Created-keeps (not_read e t f is) id k = Stored-keeps is id k
    Created-keeps (not_told e u t f is) id k = Stored-keeps is id k
    Created-keeps (created u t x newest is shown) id k =
        rw (tell_created-store tables ws m w m.ticket_id _ (record w { store = t }))
          (Stored-keeps is id k)

    pub Created-Known :
        {p : Result AppError Message × Service.World S T} {a : Message}
        → Created tables ws m w p
        → p.0 ≡ ok a
        → Known m.id p.1.store
    Created-Known (refused e r) h = absurd (ground (arith, h))
    Created-Known (not_read e t f is) h = absurd (ground (arith, h))
    Created-Known (not_told e u t f is) h = absurd (ground (arith, h))
    Created-Known (created u t x newest is shown) h =
        rw (tell_created-store tables ws m w m.ticket_id _ (record w { store = t }))
          (Stored-Known is)
