-- ===== src/Json/Sample.antt =====
-- A concrete codec for the tests: a plain printer in place of `json.dumps`, and the text itself in
-- place of its SHA-256.
use Prim.Native.String.{String, ◌++◌}
use Prim.Native.Nat.{ℕ, zero, suc}
use changebridge_cdc_migrati.Base.{true, false}
use changebridge_cdc_migrati.Base.Int.{pos, negsuc}
use changebridge_cdc_migrati.Json.{
  Json, null, bool, num, str, arr, obj, Items, nil, cons, Fields, end, field, Codec,
}

unfoldable pub tally : ℕ → String
tally zero = "."
tally (suc n) = "|" ++ tally n

unfoldable mutual
  unfolding tally

  pub print : Json → String
  print null = "null"
  print (bool true) = "true"
  print (bool false) = "false"
  print (num (pos n)) = tally n
  print (num (negsuc n)) = "-" ++ tally n
  print (str s) = "'" ++ (s ++ "'")
  print (arr xs) = "[" ++ print_items xs
  print (obj fs) = "{" ++ print_fields fs

  pub print_items : Items → String
  print_items nil = "]"
  print_items (cons x xs) = print x ++ ("," ++ print_items xs)

  pub print_fields : Fields → String
  print_fields end = "}"
  print_fields (field k x fs) = k ++ (":" ++ (print x ++ ("," ++ print_fields fs)))

abbrev pub sample : Codec
unfolding print
sample = record {
  dumps = λ _. print;
  loads = λ text. str text;
  sha256 = λ text. text;
  nfc = λ text. text;
}
