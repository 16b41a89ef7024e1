-- ===== src/Template/Render.antt =====
-- src/template/render.rs. Texts are lists of code points, and positions count these; the trimmed
-- white space is `char::is_whitespace`.
use messgr.Base.{
  ℕ, zero, suc, ◌+◌, Bool, ◌&&◌, ◌||◌, Option, none, some, List, [], ◌∷◌, ◌++◌, leb, if◌then◌else◌,
  ◌==◌, length, take, contains, lookup, nat_eq, string_eq, option_eq, list_eq,
}
use messgr.Store.Exec.{Result, ok, err}

abbrev pub Text : Type 0
Text = List ℕ

pub data RenderError : Type 0 where
  missing_variable unterminated_placeholder : Text → RenderError

abbrev pub brace_open : ℕ
brace_open = 123

abbrev pub brace_close : ℕ
brace_close = 125

abbrev pub drop : ℕ → Text → Text
drop zero xs = xs
drop (suc n) [] = []
drop (suc n) (x ∷ xs) = drop n xs

abbrev pub shift : Option ℕ → Option ℕ
shift none = none
shift (some n) = some (suc n)

-- `find("{{")` and `find("}}")`.
unfoldable pub find_double : ℕ → Text → Option ℕ
find_double c [] = none
find_double c (x ∷ []) = none
find_double c (x ∷ y ∷ rest) =
    if (x == c) && (y == c) then some 0 else shift (find_double c (y ∷ rest))

-- Unicode's `White_Space`.
abbrev pub is_whitespace : ℕ → Bool
is_whitespace c =
    (leb 9 c && leb c 13)
    || (leb 8192 c && leb c 8202)
    || contains c (32 ∷ 133 ∷ 160 ∷ 5760 ∷ 8232 ∷ 8233 ∷ 8239 ∷ 8287 ∷ 12288 ∷ [])

abbrev pub trim_start : Text → Text
trim_start [] = []
trim_start (c ∷ rest) =
    let trimmed = trim_start rest in if is_whitespace c then trimmed else c ∷ rest

abbrev pub attach : ℕ → Text → Text
attach c [] = if is_whitespace c then [] else c ∷ []
attach c (d ∷ rest) = c ∷ d ∷ rest

abbrev pub trim_end : Text → Text
trim_end [] = []
trim_end (c ∷ rest) = attach c (trim_end rest)

unfoldable pub trim : Text → Text
trim s = trim_end (trim_start s)

-- The `while let`, on a number of rounds, with `rest` and `result`.
unfoldable pub render_from : ℕ → List (Text × Text) → Text → Text → Option (Result RenderError Text)
unfolding find_double
render_from zero variables rest result = none
render_from (suc rounds) variables rest result = elim (find_double brace_open rest) [
  | none ↦ some (ok (result ++ rest))
  | some start ↦
      let after_open = drop (start + 2) rest in
      elim (find_double brace_close after_open) [
        | none ↦ some (err (unterminated_placeholder (drop start rest)))
        | some end ↦
            let key = trim (take end after_open) in
            elim (lookup key variables) [
              | none ↦ some (err (missing_variable key))
              | some value ↦
                  render_from rounds variables (drop (end + 2) after_open)
                    ((result ++ take start rest) ++ value)
            ]
      ]
]

-- A round takes two braces at least, so a round for each code point and one more are enough.
unfoldable pub render : Text → List (Text × Text) → Option (Result RenderError Text)
unfolding render_from
render body variables = render_from (suc (length body)) variables body []
