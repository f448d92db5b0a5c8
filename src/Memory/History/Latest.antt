-- ===== src/Memory/History/Latest.antt =====
-- The records of a session: the newest of its messages, in the order in which they were written.
use mottainai_ia.Base.{
  ℕ, ◌+◌, ◌≤◌, ◌≡◌, ◌∙◌, refl, sym, ap, subst, Bool, List, [], ◌∷◌, ◌++◌, some, keep, find, count,
  length, length-append, min, max, All, All-append, reverse, reverse-cons, arith,
}
use mottainai_ia.Base.Int.{ℤ}
use mottainai_ia.Text.Case.{Str}
use mottainai_ia.Memory.Documents.{Conversation, Message, Chats}
use mottainai_ia.Memory.History.{
  Cursor, Pairwise, NoNewer, history_of, in_records, load_history_records,
}

count-append :
    (p : Message → Bool) (xs ys : List Message) → count p (xs ++ ys) ≡ count p xs + count p ys
count-append p [] ys = omega arith
count-append p (x ∷ xs) ys = ground (arith, count-append p xs ys)

count-reverse : (p : Message → Bool) (xs : List Message) → count p (reverse xs) ≡ count p xs
count-reverse p [] = refl
count-reverse p (x ∷ xs) =
    ap (count p) (reverse-cons x xs)
    ∙ ground (arith, count-append p (reverse xs) (x ∷ []), count-reverse p xs)

length-reverse : (xs : List Message) → length (reverse xs) ≡ length xs
length-reverse [] = refl
length-reverse (x ∷ xs) =
    ap length (reverse-cons x xs)
    ∙ omega (arith, length-append (reverse xs) (x ∷ []), length-reverse xs)

All-reverse : (P : Message → Type 0) (xs : List Message) → All P xs → All P (reverse xs)
All-reverse P [] h = tt
All-reverse P (x ∷ xs) h =
    subst (All P) (sym (reverse-cons x xs))
      (All-append P (reverse xs) (x ∷ []) (All-reverse P xs h.1) (h.0, tt))

Pairwise-snoc :
    (R : Message → Message → Type 0) (xs : List Message) (m : Message)
    → Pairwise R xs
    → All (λ x. R x m) xs
    → Pairwise R (xs ++ (m ∷ []))
Pairwise-snoc R [] m h g = (tt, tt)
Pairwise-snoc R (x ∷ xs) m h g =
    (All-append (λ y. R x y) xs (m ∷ []) h.0 (g.0, tt), Pairwise-snoc R xs m h.1 g.1)

Pairwise-reverse :
    (R : Message → Message → Type 0) (xs : List Message)
    → Pairwise (λ a b. R b a) xs
    → Pairwise R (reverse xs)
Pairwise-reverse R [] h = tt
Pairwise-reverse R (x ∷ xs) h =
    subst (Pairwise R) (sym (reverse-cons x xs))
      (Pairwise-snoc R (reverse xs) x (Pairwise-reverse R xs h.1) (All-reverse (λ y. R y x) xs h.0))

module _ (cursor : Cursor) (s : Str) (empresa_id usuario_id : ℤ) (limit : ℕ) (db : Chats) where
  abbrev pub records : List Message
  records = load_history_records cursor s empresa_id usuario_id limit db

  abbrev pub thread : Conversation → List Message
  thread conv = keep (in_records cursor conv.id empresa_id) db.messages

  -- The messages of a session that are shown are its newest, as many as asked for but at least 1
  -- and at most 100, in the order in which they were written: with the ones left out they make up
  -- the session, and none of those is newer than any that is shown.
  pub load_history_records-newest :
      (conv : Conversation)
      → find (history_of s empresa_id usuario_id) db.conversations ≡ some conv
      → (left : List Message) × ((p : Message → Bool)
          → count p records + count p left ≡ count p (thread conv))
        × (length records ≡ min (max 1 (min limit 100)) (length (thread conv)))
        × Pairwise NoNewer records
        × All (λ m. All (λ x. NoNewer x m) left) records
  unfolding load_history_records
  load_history_records-newest conv e =
      rw (e, load_history_records)
        (
          cursor.left n ms,
          λ p. omega (arith, count-reverse p (cursor.newest n ms), cursor.count_split n ms p),
          length-reverse (cursor.newest n ms) ∙ cursor.length_newest n ms one,
          Pairwise-reverse NoNewer (cursor.newest n ms) (cursor.newest_first n ms),
          All-reverse _ (cursor.newest n ms) (cursor.left_older n ms one),
        )
    where
      n : ℕ
      n = max 1 (min limit 100)

      ms : List Message
      ms = thread conv

      one : 1 ≤ n
      one = omega arith
