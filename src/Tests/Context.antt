-- ===== src/Tests/Context.antt =====
-- A list of stock records, packed into a table.
use mottainai_ia.Base.{ℕ, ◌*◌, ◌≡◌, refl, ltb}
use mottainai_ia.Base.Int.{pos}
use mottainai_ia.Text.Case.{codes}
use mottainai_ia.Text.Search.{str_eq, str_mem}
use mottainai_ia.Text.Decimal.{str_ℕ, str_ℤ}
use mottainai_ia.Agents.Judge.{
  Json, integer, string, array, object, nil, cons, end, field, get_field,
}
use mottainai_ia.Agents.Context.{
  Printing, escape_code, escape, quoted, keys, context_json, cell, same_keys, is_shared,
  shared_fields, row_cells, table_of, pack_rows, pack_list, pack_records, model_context_json,
}
use mottainai_ia.Agents.Context.Reading.{is_table, NoTables, Denotes}
use mottainai_ia.Agents.Context.Lossless.{pack_records-Denotes}

abbrev printing : Printing ℕ
printing = record { float_repr = str_ℕ; is_smaller = λ m n. ltb (m * 100) (n * 85) }

abbrev stock : ℕ → Json ℕ
stock n = object (
    field (codes "loja") (string (codes "Distribuidora \"Norte\""))
      (field (codes "quantidade") (integer (pos n)) (field (codes "minimo") (integer (pos 5)) end)))

abbrev stocks : Json ℕ
stocks = array (cons (stock 1) (cons (stock 2) (cons (stock 30) nil)))

packs_stocks :
    model_context_json printing stocks
    ≡ codes
        "{\"format\":\"table\",\"columns\":[\"quantidade\"],\"rows\":[[1],[2],[30]],\"shared\":{\"loja\":\"Distribuidora \\\"Norte\\\"\",\"minimo\":5}}"
unfolding model_context_json context_json pack_records pack_list pack_rows table_of is_shared
    shared_fields row_cells cell get_field same_keys keys quoted escape escape_code str_eq str_mem
    str_ℤ
packs_stocks = refl

pack_records-Denotes_example : Denotes printing (pack_records printing stocks) stocks
unfolding NoTables is_table get_field str_eq
pack_records-Denotes_example =
    let row : NoTables (stock 1) = (refl, (tt, (tt, (tt, tt)))) in
    pack_records-Denotes printing stocks (row, (row, (row, tt)))
