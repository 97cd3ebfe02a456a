-- ===== src/Samples/Text.antt =====
-- SQL, CSV, numbers and patterns on concrete inputs.
use onprest.Prelude.{
  ℕ, ◌+◌, ◌*◌, ◌≤◌, ◌<◌, ◌≡◌, refl, true, false, List, [], ◌∷◌, ◌++◌, Option, none, some, Bytes,
  codes, arith, length,
}
use onprest.Sql.Regions.{
  protected_region_end, skip_quoted, starts_with, is_ident, is_postgres_escape_string_prefix,
}
use onprest.Sql.Regions.Bounds.{protected_region_end_bounds}
use onprest.Sql.Classify.{Classification, update, classify, parameters, has_single_sql_statement}
use onprest.Sql.Classify.Termination.{classify_total, parameters_total}
use onprest.Sql.Classify.Single.{classify-has_single}
use onprest.Sql.Bind.{BindResult, ok, build_sql}
use onprest.Sql.Bind.Agree.{Explains, build_sql_total, build_sql-parameters}
use onprest.Sql.Bind.Unchanged.{build_sql_unchanged}
use onprest.Contract.Integer.{Number, trim_left, trim_right, shifted}
use onprest.Contract.Integer.Value.{value_from, ten_to, shifted-value}
use onprest.Contract.Pattern.{Compiled, compile_pattern}
use onprest.Contract.Pattern.Termination.{compile_pattern_total}
use onprest.Contract.CsvOutput.{write_all}
use onprest.Contract.Pointer.{unescape_pointer}
use onprest.Contract.Pointer.Escape.{escape_pointer, unescape-escape_pointer}
use onprest.Contract.CsvOutput.Lines.{buffer, record_written}

abbrev output_query : Bytes
output_query = codes "/* a /* b */ ; */ UPDATE [x;] set y=1 OUTPUT z ; -- end"

abbrev output_class : Classification
output_class = record {
  keyword = codes "update";
  operation = update;
  single = true;
  returns_rows = true;
}

output_is_update : classify "sqlserver" output_query ≡ some output_class
unfolding classify
output_is_update = refl

classify-has_single_example : has_single_sql_statement "sqlserver" output_query ≡ some true
classify-has_single_example =
    classify-has_single "sqlserver" output_query refl output_class output_is_update

parameters_found :
    parameters "postgres" (codes "select :a::int, ':b', $x$ :c $x$, :d_1 -- :e")
    ≡ some (codes "a" ∷ codes "d_1" ∷ [])
unfolding parameters
parameters_found = refl

classify_total_example : (c : Classification) × (classify "sqlserver" output_query ≡ some c)
classify_total_example = classify_total "sqlserver" output_query

parameters_total_example : (names : List Bytes) × (parameters "oracle" output_query ≡ some names)
parameters_total_example = parameters_total "oracle" output_query

abbrev quoted_query : Bytes
quoted_query = codes "x = ':a' and :b"

quoted_region : protected_region_end "mysql" quoted_query 4 ≡ some 8
unfolding protected_region_end skip_quoted starts_with is_ident is_postgres_escape_string_prefix
quoted_region = refl

protected_region_end_bounds_example : (4 < 8) × (8 ≤ length quoted_query)
protected_region_end_bounds_example =
    protected_region_end_bounds "mysql" quoted_query 4 8 (omega arith) quoted_region

abbrev all_seven : Bytes → Option ℕ
all_seven name = some 7

abbrev bound_query : BindResult ℕ
bound_query = ok (record { out = codes "x = ':a' and $1"; args = 7 ∷ []; count = 1 })

query_is_bound : build_sql "postgres" quoted_query all_seven ≡ some bound_query
unfolding build_sql
query_is_bound = refl

quoted_names : parameters "postgres" quoted_query ≡ some (codes "b" ∷ [])
unfolding parameters
quoted_names = refl

build_sql-parameters_example :
    Explains "postgres" quoted_query all_seven bound_query (codes "b" ∷ [])
build_sql-parameters_example =
    build_sql-parameters "postgres" quoted_query all_seven bound_query (codes "b" ∷ [])
      query_is_bound quoted_names

build_sql_total_example :
    (r : BindResult ℕ) × (build_sql "postgres" quoted_query all_seven ≡ some r)
build_sql_total_example = build_sql_total "postgres" quoted_query all_seven

abbrev nameless_query : Bytes
nameless_query = codes "select a::int -- :b"

nameless : parameters "postgres" nameless_query ≡ some []
unfolding parameters
nameless = refl

build_sql_unchanged_example :
    build_sql "postgres" nameless_query all_seven
    ≡ some (ok (record { out = nameless_query; args = []; count = 0 }))
build_sql_unchanged_example =
    build_sql_unchanged "postgres" nameless_query all_seven (λ e. cc) nameless

-- `1.50e2` is 150.
abbrev hundred_fifty : Number
hundred_fifty = record { negative = false; digits = codes "15"; zeros = 1 }

hundred_fifty_read : shifted false (codes "1") (codes "50") 2 0 ≡ some hundred_fifty
unfolding shifted trim_left trim_right
hundred_fifty_read = refl

shifted-value_example :
    value_from 0 hundred_fifty.digits * ten_to hundred_fifty.zeros * ten_to (0 + 2)
    ≡ value_from 0 (codes "1" ++ codes "50") * ten_to 2
shifted-value_example =
    shifted-value false (codes "1") (codes "50") 2 0 hundred_fifty hundred_fifty_read

compile_pattern_total_example :
    (r : Compiled Bytes) × (compile_pattern (λ s. true) (λ s. true) some (codes "^[a-z]{1,3}\\/x$")
      ≡ some r)
compile_pattern_total_example =
    compile_pattern_total (λ s. true) (λ s. true) some (codes "^[a-z]{1,3}\\/x$")

record_written_example :
    write_all
      (buffer ℕ)
      (codes "a\r\n,b" ∷ codes "\n" ∷ [])
      (record { dest = codes "h"; last = 0; pending = false })
    ≡ (
      record { dest = codes "h" ++ (codes "a\r\n,b" ++ codes "\r\n"); last = 10; pending = true },
      none,
    )
record_written_example =
    record_written ℕ 97 (codes "\r\n,b") (codes "\n" ∷ []) (codes "a\r\n,b") (codes "h") 0 refl

unescape-escape_pointer_example :
    unescape_pointer (escape_pointer (codes "a/~1b")) ≡ some (codes "a/~1b")
unescape-escape_pointer_example = unescape-escape_pointer (codes "a/~1b")
