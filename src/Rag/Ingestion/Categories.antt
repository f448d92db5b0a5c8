-- ===== src/Rag/Ingestion/Categories.antt =====
-- The category that app/rag/ingestion.py files a source under.
use mottainai_ia.Base.{◌≡◌, refl, inl, inr, Bool, true, false, Bool-cases, if◌then◌else◌}
use mottainai_ia.Text.Case.{Str, codes, upper, strip}
use mottainai_ia.Text.Search.{str_mem, str_eq}
use mottainai_ia.Rag.Ingestion.{categories, category_for_source}

data Known : Str → Type 0 where
  manual : Known (codes "MANUAL")
  faq : Known (codes "FAQ")
  procedimento : Known (codes "PROCEDIMENTO")
  treinamento : Known (codes "TREINAMENTO")
  politica : Known (codes "POLITICA")

Known-choice : (b : Bool) (x y : Str) → Known x → Known y → Known (if b then x else y)
Known-choice true x y hx hy = hx
Known-choice false x y hx hy = hy

Known-listed : (x : Str) → Known x → str_mem x categories ≡ true
unfolding str_mem str_eq
Known-listed _ manual = refl
Known-listed _ faq = refl
Known-listed _ procedimento = refl
Known-listed _ treinamento = refl
Known-listed _ politica = refl

-- A source is filed under a category of the list, whatever its text.
category_for_source-known : (s : Str) → str_mem (category_for_source s) categories ≡ true
unfolding category_for_source
category_for_source-known s = elim (Bool-cases (str_mem (upper (strip s)) categories)) [
  | inl listed ↦ rw listed listed
  | inr other ↦ rw other (
      Known-listed _ (
        Known-choice _ _ _ faq (
          Known-choice _ _ _ procedimento
            (Known-choice _ _ _ treinamento (Known-choice _ _ _ politica manual)))))
]
