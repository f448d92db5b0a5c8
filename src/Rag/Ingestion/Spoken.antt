-- ===== src/Rag/Ingestion/Spoken.antt =====
-- Sentences of app/rag/ingestion.py in a row: what its loop makes of them one by one.
use mottainai_ia.Base.{
  map, ◌≡◌, refl, sym, ap, ◌∙◌, inl, inr, true, List, [], ◌∷◌, ◌++◌, append_assoc, All, Bool-cases,
  if◌then◌else◌,
}
use mottainai_ia.Text.Case.{Str, codes, strip}
use mottainai_ia.Text.Search.{has_code}
use mottainai_ia.Text.Split.{ends_in, join}
use mottainai_ia.Text.Trim.{solid_start, solid_start-append, strip-solid, strip-eq, ends_in-append}
use mottainai_ia.Rag.Ingestion.{nonempty, sentences, piece_of, joined, stripped}

-- A sentence with its full stop, which the splitter has cut off.
pub ended : Str → Str
ended s = if ends_in (codes ".!?") s then s else s ++ codes "."

-- Sentences in a row, with a space between them.
unfoldable pub spoken : List Str → Str
spoken group = join (codes " ") (map ended group)

-- A sentence that `stripped` has left.
abbrev pub Solid : Str → Type 0
Solid s = solid_start s ≡ true

pub stripped-Solid : (fields : List Str) → All Solid (stripped fields)
unfolding stripped
stripped-Solid [] = tt
stripped-Solid (f ∷ fields) = first (strip f) refl (stripped-Solid fields)
  where
    first :
        (t : Str) → strip f ≡ t → All Solid (stripped fields) → All Solid (stripped (f ∷ fields))
    first [] e rest = rw (stripped, e) rest
    first (c ∷ t) e rest = rw (stripped, e) (ap solid_start (sym e) ∙ strip-solid f c t e, rest)

pub sentences-Solid : (p : Str) → All Solid (sentences p)
unfolding sentences
sentences-Solid p = stripped-Solid _

-- It starts with no space and ends in a mark, so that `strip` leaves it as it is.
abbrev pub Whole : Str → Type 0
Whole s = (solid_start s ≡ true) × (ends_in (codes ".!?") s ≡ true)

ended-Whole : (s : Str) → Solid s → Whole (ended s)
unfolding ended ends_in has_code
ended-Whole s h = elim (Bool-cases (ends_in (codes ".!?") s)) [
  | inl marked ↦ rw marked (h, marked)
  | inr bare ↦
      rw bare (solid_start-append s (codes ".") h, ends_in-append (codes ".!?") s (codes ".") refl)
]

Whole-space : (s t : Str) → Whole s → Whole t → Whole (s ++ (32 ∷ t))
Whole-space s [] h k = absurd (cc k.0)
Whole-space s (c ∷ t) h k = (
  solid_start-append s (32 ∷ c ∷ t) h.0,
  ends_in-append (codes ".!?") s (32 ∷ c ∷ t) (ends_in-append (codes ".!?") (32 ∷ []) (c ∷ t) k.1),
)

pub spoken-Whole :
    (s : Str) (group : List Str) → Solid s → All Solid group → Whole (spoken (s ∷ group))
unfolding spoken join
spoken-Whole s [] h hs = ended-Whole s h
spoken-Whole s (t ∷ group) h hs =
    Whole-space (ended s) (spoken (t ∷ group)) (ended-Whole s h) (spoken-Whole t group hs.0 hs.1)

spoken-snoc :
    (s t : Str) (group : List Str)
    → spoken (s ∷ (group ++ (t ∷ []))) ≡ spoken (s ∷ group) ++ (32 ∷ ended t)
unfolding spoken join
spoken-snoc s t [] = refl
spoken-snoc s t (u ∷ group) =
    ap (λ x. ended s ++ (32 ∷ x)) (spoken-snoc u t group)
    ∙ sym (append_assoc (ended s) (32 ∷ spoken (u ∷ group)) (32 ∷ ended t))

joined-strip :
    (current piece : Str)
    → solid_start current ≡ true
    → joined current piece ≡ strip (current ++ (32 ∷ piece))
unfolding joined
joined-strip [] piece h = absurd (cc h)
joined-strip (c ∷ current) piece h = refl

-- A sentence more in the chunk.
pub joined-spoken :
    (s t : Str) (group : List Str)
    → Solid s
    → All Solid group
    → Solid t
    → joined (spoken (s ∷ group)) (ended t) ≡ spoken (s ∷ (group ++ (t ∷ [])))
joined-spoken s t group h hs k =
    let before = spoken-Whole s group h hs in
    let after = Whole-space (spoken (s ∷ group)) (ended t) before (ended-Whole t k) in
    joined-strip (spoken (s ∷ group)) (ended t) before.0
    ∙ strip-eq (spoken (s ∷ group) ++ (32 ∷ ended t)) after.0 after.1
    ∙ sym (spoken-snoc s t group)

pub solid-nonempty : (s : Str) → solid_start s ≡ true → nonempty s ≡ true
solid-nonempty [] h = absurd (cc h)
solid-nonempty (c ∷ s) h = refl

pub piece_of-ended : (s : Str) → piece_of s ≡ ended s
unfolding piece_of ended
piece_of-ended s = refl
