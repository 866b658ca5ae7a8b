-- ===== src/Quote.antt =====
-- Text written for other readers: SqlQuote of src/quackapi_queue.cpp and CsvEscapeField of
-- src/quackapi_server.cpp.
pub mod Laws
use quackapi.Base.{ℕ, Bool, List, [], ◌∷◌, ◌++◌, ◌||◌, any, ◌==◌, if◌then◌else◌}
use quackapi.Text.{Text}

-- The loop that writes a quote twice; 39 is the quote of SQL, 34 that of CSV.
unfoldable pub double_quote : ℕ → Text → Text
double_quote quote [] = []
double_quote quote (c ∷ s) =
    let rest = double_quote quote s in if c == quote then quote ∷ quote ∷ rest else c ∷ rest

abbrev pub quoted : ℕ → Text → Text
quoted quote s = quote ∷ double_quote quote s ++ quote ∷ []

unfoldable pub sql_quote : Text → Text
sql_quote s = quoted 39 s

abbrev pub needs_quote : ℕ → Bool
needs_quote c = c == 34 || c == b',' || c == 10 || c == 13

unfoldable pub csv_escape_field : Text → Text
csv_escape_field input = if any needs_quote input then quoted 34 input else input
