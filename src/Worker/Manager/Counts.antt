-- ===== src/Worker/Manager/Counts.antt =====
-- How each method of the manager moves the wait group and the number of sessions.
use whaticket_community.Prelude.{
  Bytes, ℕ, suc, ◌+◌, ◌<◌, ◌≡◌, ◌≢◌, refl, true, none, some, List, arith, lookup, delete, keys,
  length, Distinct, lookup-insert, lookup-delete, insert-Distinct, delete-Distinct, length-insert,
  length-delete, nat_beq, nat_beq_iff, nat_keyed, Option-cases, Bool-cases, inl, inr,
}
use whaticket_community.Worker.Manager.{
  Session, Manager, AdvancedSettings, set, delete_session, wg_done, replaces, update_settings,
}

-- Every session has a client, and one that was made before `next`.
abbrev pub Fresh : ℕ → List (ℕ × Session) → Type 0
Fresh next sessions =
    (id : ℕ) (sess : Session)
    → lookup id sessions ≡ some sess
    → (k : ℕ) × (sess.client ≡ some k) × (k < next)

replaces_fresh :
    (old sess : Session) (k next : ℕ)
    → old.client ≡ some k
    → k < next
    → sess.client ≡ some next
    → replaces (some old) sess ≡ true
unfolding replaces
replaces_fresh old sess k next e h f = ground (arith, e, f)

-- A new client under an old connection takes the old session's place in the count.
pub set_counts :
    (id : ℕ) (sess : Session) (m : Manager) (next : ℕ)
    → Fresh next m.sessions
    → sess.client ≡ some next
    → (set id sess m).handler_wg + length m.sessions
      ≡ m.handler_wg + length (set id sess m).sessions
set_counts id sess m next h e = elim (Option-cases (lookup id m.sessions)) [
  | inl missing ↦ unfold set replaces in ground (arith, missing, length-insert id sess m.sessions)
  | inr (old, found) ↦
      let (k, c, lt) = h id old found in
      let r = replaces_fresh old sess k next c lt e in
      unfold set in ground (arith, found, r, length-insert id sess m.sessions)
]

pub set-Fresh :
    (id : ℕ) (sess : Session) (m : Manager) (next : ℕ)
    → Fresh next m.sessions
    → sess.client ≡ some next
    → Fresh (suc next) (set id sess m).sessions
unfolding set
set-Fresh id sess m next h e j s l = elim (Bool-cases (nat_beq id j)) [
  | inl same ↦ (next, ground (arith, same, lookup-insert j id sess m.sessions), omega arith)
  | inr other ↦
      let (k, c, lt) = h j s (ground (arith, other, lookup-insert j id sess m.sessions)) in
      (k, c, omega arith)
]

pub set-Distinct :
    (id : ℕ) (sess : Session) (m : Manager)
    → Distinct (keys m.sessions)
    → Distinct (keys (set id sess m).sessions)
unfolding set
set-Distinct id sess m d = insert-Distinct id sess m.sessions d

delete-lookup :
    (id j : ℕ) (sess : Session) (sessions : List (ℕ × Session))
    → lookup j (delete id sessions) ≡ some sess
    → lookup j sessions ≡ some sess
delete-lookup id j sess sessions l = ground (arith, lookup-delete j id sessions)

-- What a deletion that does not panic leaves.
pub record Deleted (id : ℕ) (m t : Manager) : Type 0 where
  pub gone : lookup id t.sessions ≡ none
  pub others :
      (j : ℕ) (sess : Session) → lookup j t.sessions ≡ some sess → lookup j m.sessions ≡ some sess
  pub counts : t.handler_wg + length m.sessions ≡ m.handler_wg + length t.sessions
  pub distinct : Distinct (keys t.sessions)

pub delete_session-Deleted :
    (id : ℕ) (m t : Manager)
    → Distinct (keys m.sessions)
    → delete_session id m ≡ some t
    → Deleted id m t
unfolding delete_session
delete_session-Deleted id m t d h = elim (Option-cases (lookup id m.sessions)) [
  | inl missing ↦ record {
    gone = ground (arith, missing);
    others = λ j sess l. ground (arith, missing);
    counts = ground (arith, missing);
    distinct = ground (arith, missing);
  }
  | inr (old, found) ↦
      let keep = delete-Distinct id m.sessions d in
      let gone = lookup-delete id id m.sessions in
      record {
        gone = ground (arith, found, gone);
        others = λ j sess l. ground (arith, found, lookup-delete j id m.sessions);
        counts = ground (arith, found, length-delete id m.sessions d);
        distinct = ground (arith, found, keep);
      }
]

pub delete_session-ne-none : (id : ℕ) (m : Manager) → 0 < m.handler_wg → delete_session id m ≢ none
unfolding delete_session
delete_session-ne-none id m h = ground arith

pub wg_done-ne-none : (m : Manager) → 0 < m.handler_wg → wg_done m ≢ none
unfolding wg_done
wg_done-ne-none m h = ground arith

pub wg_done_lem :
    (m t : Manager)
    → wg_done m ≡ some t
    → (t.sessions ≡ m.sessions) × (suc t.handler_wg ≡ m.handler_wg)
unfolding wg_done
wg_done_lem m t h = ground arith

-- New settings change no count and no client.
module _ (id : ℕ) (settings : AdvancedSettings) (mode : Bytes) (m : Manager) where
  pub update_settings_counts :
      let t = (update_settings id settings mode m).0 in
      (t.handler_wg ≡ m.handler_wg) × (length t.sessions ≡ length m.sessions)
  unfolding update_settings
  update_settings_counts = elim (Option-cases (lookup id m.sessions)) [
    | inl e ↦ (ground (arith, e), ground (arith, e))
    | inr (old, e) ↦
        (ground (arith, e), ground (arith, e, length-insert id (renewed old) m.sessions))
  ]
    where
      renewed : Session → Session
      renewed old = record old { settings = settings; media_mode = mode }

  pub update_settings-Distinct :
      Distinct (keys m.sessions) → Distinct (keys (update_settings id settings mode m).0.sessions)
  unfolding update_settings
  update_settings-Distinct d = elim (Option-cases (lookup id m.sessions)) [
    | inl e ↦ ground (arith, e)
    | inr (old, e) ↦ ground (
      arith,
      e,
      insert-Distinct id (record old { settings = settings; media_mode = mode }) m.sessions d,
    )
  ]

  pub lookup-update_settings :
      (j : ℕ) (sess : Session)
      → lookup j (update_settings id settings mode m).0.sessions ≡ some sess
      → (old : Session) × (lookup j m.sessions ≡ some old) × (sess.client ≡ old.client)
  unfolding update_settings
  lookup-update_settings j sess l = elim (Option-cases (lookup id m.sessions)) [
    | inl e ↦ (sess, ground (arith, e), refl)
    | inr (found, e) ↦
        let there = lookup-insert j id (renewed found) m.sessions in
        elim (Bool-cases (nat_beq id j)) [
          | inl same ↦
              (found, ground (arith, e, same, nat_beq_iff id j), ground (arith, e, same, there))
          | inr other ↦ (sess, ground (arith, e, other, there), refl)
        ]
  ]
    where
      renewed : Session → Session
      renewed old = record old { settings = settings; media_mode = mode }
