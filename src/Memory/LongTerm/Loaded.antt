-- ===== src/Memory/LongTerm/Loaded.antt =====
-- What a user's memory holds after updates, of the user and of others.
use mottainai_ia.Base.{
  ℕ, ◌≡◌, refl, sym, inl, inr, Bool, true, false, ◌&&◌, List, [], ◌∷◌, if◌then◌else◌, arith,
  Bool-cases,
}
use mottainai_ia.Base.Int.{ℤ, eqb_ℤ}
use mottainai_ia.Memory.Documents.{Memory, Stored}
use mottainai_ia.Memory.LongTerm.{
  belongs, no_memory, load_memory, Update, updated, apply_update, update_memory,
}

abbrev pub same_user : ℤ → ℤ → ℤ → ℤ → Bool
same_user e u e' u' = eqb_ℤ e e' && eqb_ℤ u u'

module _ (e u e' u' : ℤ) (change : Update) (now : ℕ) where
  belongs_both : (m : Stored) → belongs e u m ≡ true → belongs e' u' m ≡ same_user e u e' u'
  belongs_both m h = ground arith

  belongs_one :
      (m : Stored) → belongs e u m ≡ false → belongs e' u' m ≡ true → same_user e u e' u' ≡ false
  belongs_one m h g = ground arith

  load_hit :
      (e u : ℤ) (m : Stored) (db : List Stored)
      → belongs e u m ≡ true
      → load_memory e u (m ∷ db) ≡ m.memory
  unfolding load_memory
  load_hit e u m db h = rw (h, load_memory) refl

  load_miss :
      (e u : ℤ) (m : Stored) (db : List Stored)
      → belongs e u m ≡ false
      → load_memory e u (m ∷ db) ≡ load_memory e u db
  unfolding load_memory
  load_miss e u m db h = rw (h, load_memory) refl

  update_hit :
      (m : Stored) (db : List Stored)
      → belongs e u m ≡ true
      → update_memory e u change now (m ∷ db) ≡ updated change now m ∷ db
  unfolding update_memory
  update_hit m db h = rw h refl

  update_miss :
      (m : Stored) (db : List Stored)
      → belongs e u m ≡ false
      → update_memory e u change now (m ∷ db) ≡ m ∷ update_memory e u change now db
  unfolding update_memory
  update_miss m db h = rw h refl

  load_first :
      (memory : Memory) (at : ℕ)
      → load_memory e' u'
          (record { owner_empresa = e; owner_usuario = u; memory = memory; updated_at = at } ∷ [])
        ≡ (if same_user e u e' u' then memory else no_memory)
  unfolding load_memory
  load_first memory at = elim (Bool-cases (same_user e u e' u')) [
    | inl same ↦ rw (same, load_memory) refl
    | inr other ↦ rw (other, load_memory) refl
  ]

  -- An update changes what its own user loads, by the update, and what no other user loads.
  pub load_memory-update_memory :
      (db : List Stored)
      → load_memory e' u' (update_memory e u change now db) ≡ (
          if same_user e u e' u'
          then apply_update change (load_memory e u db)
          else load_memory e' u' db)
  unfolding update_memory load_memory
  load_memory-update_memory [] = load_first (apply_update change no_memory) now
  load_memory-update_memory (m ∷ db) = elim (Bool-cases (belongs e u m)) [
    | inl mine ↦ elim (Bool-cases (belongs e' u' m)) [
      | inl asked ↦
          rw
            (
              update_hit m db mine,
              load_hit e' u' (updated change now m) db asked,
              load_hit e u m db mine,
              sym (belongs_both m mine),
              asked,
            )
            refl
      | inr not_asked ↦
          rw
            (
              update_hit m db mine,
              load_miss e' u' (updated change now m) db not_asked,
              load_miss e' u' m db not_asked,
              sym (belongs_both m mine),
              not_asked,
            )
            refl
    ]
    | inr other ↦ elim (Bool-cases (belongs e' u' m)) [
      | inl asked ↦
          rw
            (
              update_miss m db other,
              load_hit e' u' m (update_memory e u change now db) asked,
              load_hit e' u' m db asked,
              belongs_one m other asked,
            )
            refl
      | inr not_asked ↦
          rw
            (
              update_miss m db other,
              load_miss e' u' m (update_memory e u change now db) not_asked,
              load_miss e' u' m db not_asked,
              load_miss e u m db other,
            )
            (load_memory-update_memory db)
    ]
  ]
