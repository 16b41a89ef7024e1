-- ===== src/Tests/Templates.antt =====
-- Tests of the rendering of templates.
use messgr.Base.{◌≡◌, refl, some, List, [], ◌∷◌, lookup}
use messgr.Store.Exec.{ok, err}
use messgr.Template.Render.{
  Text, unterminated_placeholder, missing_variable, render, render_from, find_double, trim,
}
use messgr.Template.Parts.{Parts, IsParts, closed, print, evaluate, render-print}
use messgr.Template.Split.{render-Parts}

-- "Hi {{ n }}."
abbrev pub greeting : Parts
greeting = record { placeholders = (72 ∷ 105 ∷ 32 ∷ [], 32 ∷ 110 ∷ 32 ∷ []) ∷ []; tail = 46 ∷ [] }

abbrev pub names : List (Text × Text)
names = (110 ∷ [], 74 ∷ 111 ∷ []) ∷ []

renders : render (print greeting) names ≡ some (ok (72 ∷ 105 ∷ 32 ∷ 74 ∷ 111 ∷ 46 ∷ []))
unfolding render render_from find_double trim lookup
renders = refl

misses : render (print greeting) [] ≡ some (err (missing_variable (110 ∷ [])))
unfolding render render_from find_double trim lookup
misses = refl

unterminated :
    render (72 ∷ 123 ∷ 123 ∷ 110 ∷ []) names
    ≡ some (err (unterminated_placeholder (123 ∷ 123 ∷ 110 ∷ [])))
unfolding render render_from find_double trim lookup
unterminated = refl

render-print_example : render (print greeting) names ≡ some (evaluate names greeting)
unfolding find_double
render-print_example =
    render-print names greeting (record { placeholders = ((refl, refl), tt); tail = closed refl })

render-Parts_example :
    (p : Parts) × IsParts p
    × (print greeting ≡ print p)
    × (render (print greeting) names ≡ some (evaluate names p))
render-Parts_example = render-Parts (print greeting) names
