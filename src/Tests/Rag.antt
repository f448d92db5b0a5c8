-- ===== src/Tests/Rag.antt =====
-- The chunks of an uploaded document.
use mottainai_ia.Base.{
  ℕ, ◌≡◌, refl, inl, true, false, List, [], ◌∷◌, Option, none, some, some_inj, sym, ap, ◌∙◌, map,
  length, length-map, take,
}
use mottainai_ia.Base.Int.{pos}
use mottainai_ia.Text.Case.{Str, codes, strip, upper, lstrip, is_space}
use mottainai_ia.Text.Search.{starts_with, has_code, str_mem, str_eq}
use mottainai_ia.Text.Split.{split, split_from, ends_in, replace_code}
use mottainai_ia.Rag.Ingestion.{
  category_for_source, stripped, sentences, piece_of, joined, pack, chunks_of, all_chunks,
  paragraphs, split_into_chunks,
}
use mottainai_ia.Rag.Documents.{
  Knowledge, Upload, ingested, raised, deleted, owns, document_of, numbered, add_chunks,
  insert_document, ingest_document, delete_document,
}
use mottainai_ia.Rag.Documents.Sound.{IsFresh, IsSound, writes-IsSound}
use mottainai_ia.Rag.Documents.Removed.{delete_document-ingest}

abbrev text : Str
text = codes "Oi.\n\nAbre as 8. Fecha as 9! Domingo. Pois bem"

-- An exclamation mark inside a paragraph ends no sentence, so the third chunk exceeds the bound.
splits_text :
    split_into_chunks text 13
    ≡ codes "Oi." ∷ codes "Abre as 8." ∷ codes "Fecha as 9! Domingo." ∷ codes "Pois bem." ∷ []
unfolding split_into_chunks paragraphs all_chunks chunks_of pack joined piece_of sentences stripped
    split split_from ends_in replace_code strip lstrip is_space starts_with has_code
splits_text = refl

files_faq : category_for_source (codes " faq loja ") ≡ codes "FAQ"
unfolding category_for_source strip upper starts_with str_mem str_eq
files_faq = refl

-- A vector is the length of its text.
abbrev encode : List Str → Option (List ℕ)
encode ts = some (map length ts)

abbrev upload : Upload
upload = record {
  slug = codes "horario";
  title = codes "Horário";
  source = codes "faq";
  text = codes "Abre as 8.\n\nFecha as 21.";
  category = none;
  version = codes "1.0";
}

abbrev empty_base : Knowledge ℕ
empty_base = record { documents = []; chunks = [] }

abbrev filed : Knowledge ℕ
filed = record {
  documents = document_of (pos 7) upload 90 5 ∷ [];
  chunks =
      record {
        document_id = 5;
        number = 0;
        text = codes "Abre as 8.";
        embedding = some 10;
        created_at = 90;
      }
      ∷ record {
        document_id = 5;
        number = 1;
        text = codes "Fecha as 21.";
        embedding = some 12;
        created_at = 90;
      }
      ∷ [];
}

ingests_two : ingest_document encode (pos 7) upload none 90 5 empty_base ≡ (ingested 5 2, filed)
unfolding ingest_document insert_document add_chunks owns numbered category_for_source
    split_into_chunks paragraphs all_chunks chunks_of stripped split split_from strip lstrip upper
    is_space starts_with str_mem str_eq
ingests_two = refl

-- The second chunk is not inserted.
breaks_off :
    ingest_document encode (pos 7) upload (some 1) 90 5 empty_base
    ≡ (raised, record filed { chunks = take 1 filed.chunks })
unfolding ingest_document insert_document add_chunks owns numbered category_for_source
    split_into_chunks paragraphs all_chunks chunks_of stripped split split_from strip lstrip upper
    is_space starts_with str_mem str_eq
breaks_off = refl

-- A model that raises leaves the document alone, and the slug taken.
leaves_document :
    ingest_document (λ ts. none) (pos 7) upload none 90 5 empty_base
    ≡ (raised, record filed { chunks = [] })
unfolding ingest_document insert_document add_chunks owns numbered category_for_source
    split_into_chunks paragraphs all_chunks chunks_of stripped split split_from strip lstrip upper
    is_space starts_with str_mem str_eq
leaves_document = refl

delete_document-ingest_example :
    delete_document false (pos 7) (codes "horario") filed ≡ (deleted 2, empty_base)
delete_document-ingest_example =
    delete_document-ingest encode (pos 7) upload none 90 5 2 5 empty_base filed
      (λ ts vs e. ap length (sym (some_inj.0 e)) ∙ length-map length ts) tt (tt, tt) ingests_two

writes-IsSound_example :
    (IsFresh 6 filed → IsSound (ingest_document encode (pos 7) upload none 91 6 filed).1)
    × IsSound (delete_document true (pos 7) (codes "horario") filed).1
writes-IsSound_example =
    writes-IsSound encode (pos 7) upload none 91 6 true (codes "horario") filed
      ((tt, tt), (inl refl, (inl refl, tt)))
