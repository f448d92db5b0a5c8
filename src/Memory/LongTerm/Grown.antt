-- ===== src/Memory/LongTerm/Grown.antt =====
-- The memory of a user over any sequence of updates by all users.
use mottainai_ia.Base.{
  ℕ, ◌≡◌, refl, sym, ◌∙◌, ap, subst, inl, inr, Bool, true, false, ◌||◌, List, [], ◌∷◌, ◌++◌, Option,
  none, some, if◌then◌else◌, arith, Bool-cases,
}
use mottainai_ia.Base.Int.{ℤ, eqb_ℤ_iff}
use mottainai_ia.Text.Case.{Str}
use mottainai_ia.Text.Search.{str_mem, str_eq}
use mottainai_ia.Memory.Documents.{Memory, Stored}
use mottainai_ia.Memory.LongTerm.{
  no_memory, load_memory, Update, add_to_set, apply_update, update_memory,
}
use mottainai_ia.Memory.LongTerm.Loaded.{same_user, load_memory-update_memory}

-- A call of `update_memory`.
pub record UpdateCall : Type 0 where
  pub empresa_id : ℤ
  pub usuario_id : ℤ
  pub change : Update
  pub now : ℕ

unfoldable pub run_updates : List UpdateCall → List Stored → List Stored
run_updates [] db = db
run_updates (c ∷ cs) db = run_updates cs (update_memory c.empresa_id c.usuario_id c.change c.now db)

-- A memory after the updates of its own user.
unfoldable pub own_updates : ℤ → ℤ → List UpdateCall → Memory → Memory
own_updates e u [] m = m
own_updates e u (c ∷ cs) m =
    own_updates e u cs
      (if same_user c.empresa_id c.usuario_id e u then apply_update c.change m else m)

same_user_sound : (e u e' u' : ℤ) → same_user e u e' u' ≡ true → (e ≡ e') × (u ≡ u')
same_user_sound e u e' u' h = ((eqb_ℤ_iff e e').0 (ground arith), (eqb_ℤ_iff u u').0 (ground arith))

own_first :
    (e u : ℤ) (c : UpdateCall) (db : List Stored)
    → load_memory e u (update_memory c.empresa_id c.usuario_id c.change c.now db) ≡ (
        if same_user c.empresa_id c.usuario_id e u
        then apply_update c.change (load_memory e u db)
        else load_memory e u db)
own_first e u c db = elim (Bool-cases (same_user c.empresa_id c.usuario_id e u)) [
  | inr other ↦
      load_memory-update_memory c.empresa_id c.usuario_id e u c.change c.now db ∙ rw other refl
  | inl same ↦
      let (ee, eu) = same_user_sound c.empresa_id c.usuario_id e u same in
      load_memory-update_memory c.empresa_id c.usuario_id e u c.change c.now db
      ∙ rw (same, ee, eu) refl
]

-- What a user loads is what the updates of that user made of it, in their order; the updates of
-- every other user, of the same company or not, leave no trace.
pub load_memory-run_updates :
    (e u : ℤ) (calls : List UpdateCall) (db : List Stored)
    → load_memory e u (run_updates calls db) ≡ own_updates e u calls (load_memory e u db)
unfolding run_updates own_updates
load_memory-run_updates e u [] db = refl
load_memory-run_updates e u (c ∷ cs) db =
    load_memory-run_updates e u cs (update_memory c.empresa_id c.usuario_id c.change c.now db)
    ∙ ap (own_updates e u cs) (own_first e u c db)

-- No text stands in the list twice.
abbrev pub NoRepeats : List Str → Type 0
NoRepeats [] = Unit
NoRepeats (x ∷ xs) = (str_mem x xs ≡ false) × NoRepeats xs

str_eq_comm : (s t : Str) → str_eq s t ≡ str_eq t s
unfolding str_eq
str_eq_comm [] [] = refl
str_eq_comm [] (d ∷ t) = refl
str_eq_comm (c ∷ s) [] = refl
str_eq_comm (c ∷ s) (d ∷ t) = ground (arith, str_eq_comm s t)

str_mem-snoc :
    (x y : Str) (xs : List Str) → str_mem x (xs ++ (y ∷ [])) ≡ (str_mem x xs || str_eq x y)
unfolding str_mem
str_mem-snoc x y [] = ground arith
str_mem-snoc x y (z ∷ xs) = ground (arith, str_mem-snoc x y xs)

NoRepeats-snoc :
    (xs : List Str) (y : Str) → NoRepeats xs → str_mem y xs ≡ false → NoRepeats (xs ++ (y ∷ []))
unfolding str_mem
NoRepeats-snoc [] y h new = (refl, tt)
NoRepeats-snoc (x ∷ xs) y h new = (
  ground (arith, str_mem-snoc x y xs, str_eq_comm x y, h.0),
  NoRepeats-snoc xs y h.1 (ground arith),
)

NoRepeats-add_to_set : (o : Option Str) (xs : List Str) → NoRepeats xs → NoRepeats (add_to_set o xs)
unfolding add_to_set
NoRepeats-add_to_set none xs h = h
NoRepeats-add_to_set (some []) xs h = h
NoRepeats-add_to_set (some (c ∷ s)) xs h = elim (Bool-cases (str_mem (c ∷ s) xs)) [
  | inl old ↦ rw old h
  | inr new ↦ rw new (NoRepeats-snoc xs (c ∷ s) h new)
]

abbrev pub WithoutRepeats : Memory → Type 0
WithoutRepeats m = NoRepeats m.preferences × NoRepeats m.facts

own-WithoutRepeats :
    (e u : ℤ) (calls : List UpdateCall) (m : Memory)
    → WithoutRepeats m
    → WithoutRepeats (own_updates e u calls m)
unfolding own_updates apply_update
own-WithoutRepeats e u [] m h = h
own-WithoutRepeats e u (c ∷ cs) m h =
    own-WithoutRepeats e u cs _ (step (same_user c.empresa_id c.usuario_id e u))
  where
    step : (b : Bool) → WithoutRepeats (if b then apply_update c.change m else m)
    step true = (
      NoRepeats-add_to_set c.change.new_preference m.preferences h.0,
      NoRepeats-add_to_set c.change.new_fact m.facts h.1,
    )
    step false = h

-- Whatever is learned, no preference and no fact of a user is ever stored twice.
pub load_memory-no_repeats :
    (e u : ℤ) (calls : List UpdateCall) → WithoutRepeats (load_memory e u (run_updates calls []))
unfolding load_memory
load_memory-no_repeats e u calls =
    subst WithoutRepeats (sym (load_memory-run_updates e u calls []))
      (own-WithoutRepeats e u calls no_memory (tt, tt))
