-- ===== src/Memory/Extractor/Kept.antt =====
-- What may enter the long-term memory.
use mottainai_ia.Base.{
  ◌≤◌, ◌≡◌, refl, ◌⊎◌, inl, inr, false, [], Option, none, some, length, length-take-le, take, All,
  arith, Bool-cases,
}
use mottainai_ia.Text.Case.{Str, codes}
use mottainai_ia.Text.Regex.{Regex, found, group_zero}
use mottainai_ia.Memory.Extractor.{
  sensitive, max_memory_length, rstrip, kept_group, unfit, kept, normalize, extract_memories,
  preference_pattern, fact_pattern,
}

-- A statement that may be stored.
abbrev pub Storable : Str → Type 0
Storable s = (length s ≤ max_memory_length) × (found sensitive s ≡ false)

kept_group-Storable : (o : Option Str) → All Storable (kept_group o) × (length (kept_group o) ≤ 1)
unfolding kept_group
kept_group-Storable none = (tt, omega arith)
kept_group-Storable (some group) =
    let value = take max_memory_length (rstrip (codes ".?! ") group) in
    elim (Bool-cases (found sensitive value)) [
      | inl bad ↦ rw bad (tt, omega arith)
      | inr good ↦ rw good (
        ((length-take-le max_memory_length (rstrip (codes ".?! ") group), good), tt),
        omega arith,
      )
    ]

kept-Storable : (r : Regex) (s : Str) → All Storable (kept r s) × (length (kept r s) ≤ 1)
unfolding kept
kept-Storable r s = kept_group-Storable (group_zero r s)

-- Every statement that a message leaves for the memory has at most 200 characters and holds no
-- personal number, address or secret word, and a message leaves at most one preference and one
-- fact; a message that holds such data itself leaves nothing.
pub extract_memories-Storable :
    (message : Str)
    → All Storable (extract_memories message).preferences
      × All Storable (extract_memories message).facts
      × (length (extract_memories message).preferences ≤ 1)
      × (length (extract_memories message).facts ≤ 1)
      × ((found sensitive (normalize message) ≡ false)
          ⊎ ((extract_memories message).preferences ≡ []) × ((extract_memories message).facts ≡ []))
unfolding extract_memories
extract_memories-Storable message = elim (Bool-cases (unfit message)) [
  | inl bad ↦ rw (bad, extract_memories) (tt, tt, omega arith, omega arith, inr (refl, refl))
  | inr fit ↦
      let (p, p1) = kept-Storable preference_pattern (normalize message) in
      let (f, f1) = kept-Storable fact_pattern (normalize message) in
      rw (fit, extract_memories) (p, f, p1, f1, inl (ground arith))
]
