-- ===== src/Template/Parts.antt =====
-- What `render` of src/template/render.rs does to a template, told by the template's parts.
use messgr.Base.{
  ℕ, zero, suc, ◌+◌, ◌≤◌, ◌<◌, ◌≡◌, refl, sym, ap, ◌∙◌, inl, inr, false, ◌&&◌, Option, none, some,
  List, [], ◌∷◌, ◌++◌, arith, ◌==◌, beq_refl, Bool-cases, Option-cases, length, take, All, lookup,
  nat_eq, string_eq, option_eq, list_eq,
}
use mathlib.Core.List.{append_assoc}
use messgr.Store.Exec.{Result, ok, err}
use messgr.Template.Render.{
  Text, RenderError, missing_variable, unterminated_placeholder, brace_open, brace_close, drop,
  shift, find_double, trim, render_from, render,
}

-- Literal text, each followed by the inside of a placeholder, and what is after the last one.
pub record Parts : Type 0 where
  pub placeholders : List (Text × Text)
  pub tail : Text

abbrev pub print_all : List (Text × Text) → Text → Text
print_all [] tail = tail
print_all ((literal, inner) ∷ rest) tail =
    literal ++ brace_open ∷ brace_open ∷ (inner ++ brace_close ∷ brace_close ∷ print_all rest tail)

abbrev pub print : Parts → Text
print p = print_all p.placeholders p.tail

-- The first double brace after the text is the one that ends it.
abbrev pub EndsAt : ℕ → Text → Type 0
EndsAt c xs = find_double c (xs ++ c ∷ c ∷ []) ≡ some (length xs)

pub data IsTail (tail : Text) : Type 0 where
  closed : find_double brace_open tail ≡ none → IsTail tail
  open_ :
      (start : ℕ)
      → find_double brace_open tail ≡ some start
      → find_double brace_close (drop (start + 2) tail) ≡ none
      → IsTail tail

abbrev pub IsPlaceholder : Text × Text → Type 0
IsPlaceholder p = EndsAt brace_open p.0 × EndsAt brace_close p.1

pub record IsParts (p : Parts) : Type 0 where
  pub placeholders : All IsPlaceholder p.placeholders
  pub tail : IsTail p.tail

abbrev pub before : Text → Result RenderError Text → Result RenderError Text
before xs (ok ys) = ok (xs ++ ys)
before xs (err e) = err e

-- The tail as it is, or the error of a placeholder that nothing closes.
abbrev pub evaluate_tail : Text → Result RenderError Text
evaluate_tail tail = elim (find_double brace_open tail) [
  | none ↦ ok tail
  | some start ↦ err (unterminated_placeholder (drop start tail))
]

abbrev pub substitute :
    Text → Text → Option Text → Result RenderError Text → Result RenderError Text
substitute key literal none rest = err (missing_variable key)
substitute key literal (some value) rest = before (literal ++ value) rest

-- Each placeholder replaced by the value of its trimmed key, or the first missing key.
unfoldable pub evaluate_all :
    List (Text × Text) → List (Text × Text) → Text → Result RenderError Text
evaluate_all variables [] tail = evaluate_tail tail
evaluate_all variables ((literal, inner) ∷ rest) tail =
    substitute (trim inner) literal (lookup (trim inner) variables)
      (evaluate_all variables rest tail)

abbrev pub evaluate : List (Text × Text) → Parts → Result RenderError Text
evaluate variables p = evaluate_all variables p.placeholders p.tail

-- Finding.

pub skip :
    (c x y : ℕ) (rest : Text)
    → ((x == c) && (y == c)) ≡ false
    → find_double c (x ∷ y ∷ rest) ≡ shift (find_double c (y ∷ rest))
unfolding find_double
skip c x y rest e = rw e refl

shift-some : (o : Option ℕ) (n : ℕ) → shift o ≡ some (suc n) → o ≡ some n
shift-some none n h = absurd (cc h)
shift-some (some m) n h = ground (arith, h)

find_double-first :
    (c : ℕ) (xs ys : Text) → EndsAt c xs → find_double c (xs ++ c ∷ c ∷ ys) ≡ some (length xs)
unfolding find_double
find_double-first c [] ys h = ground (arith, beq_refl c)
find_double-first c (x ∷ []) ys h = ground (arith, h, beq_refl c)
find_double-first c (x ∷ y ∷ xs) ys h = elim (Bool-cases ((x == c) && (y == c))) [
  | inl e ↦ ground (arith, h, e)
  | inr e ↦
      let later =
        shift-some (find_double c (y ∷ (xs ++ c ∷ c ∷ []))) (length (y ∷ xs))
          (sym (skip c x y _ e) ∙ h) in
      skip c x y _ e ∙ ap shift (find_double-first c (y ∷ xs) ys later)
]

take-append : (xs ys : Text) → take (length xs) (xs ++ ys) ≡ xs
take-append [] [] = refl
take-append [] (y ∷ ys) = refl
take-append (x ∷ xs) ys = ap (λ (zs : Text). x ∷ zs) (take-append xs ys)

drop-append : (xs ys : Text) → drop (length xs) (xs ++ ys) ≡ ys
drop-append [] ys = refl
drop-append (x ∷ xs) ys = drop-append xs ys

pub drop-past : (a b : ℕ) (xs ys : Text) → drop (length xs + 2) (xs ++ a ∷ b ∷ ys) ≡ ys
drop-past a b [] ys = refl
drop-past a b (x ∷ xs) ys =
    let next : suc (length xs) + 2 ≡ suc (length xs + 2) = omega arith in
    ap (λ n. drop n (x ∷ (xs ++ a ∷ b ∷ ys))) next ∙ drop-past a b xs ys

-- Rendering the parts.

before-before :
    (xs ys : Text) (r : Result RenderError Text) → before (xs ++ ys) r ≡ before xs (before ys r)
before-before xs ys (ok zs) = ap ok (append_assoc xs ys zs)
before-before xs ys (err e) = refl

abbrev fill :
    ℕ
    → List (Text × Text)
    → Text
    → Text
    → Text
    → Text
    → Option Text
    → Option (Result RenderError Text)
fill rounds variables result literal inner rest none = some (err (missing_variable (trim inner)))
fill rounds variables result literal inner rest (some value) =
    render_from rounds variables rest ((result ++ literal) ++ value)

filled : ℕ → List (Text × Text) → Text → Text → Text → Text → Option (Result RenderError Text)
filled rounds variables result literal inner rest =
    fill rounds variables result literal inner rest (lookup (trim inner) variables)

render_round :
    (rounds : ℕ) (variables : List (Text × Text)) (rest result : Text) {start end : ℕ}
    → find_double brace_open rest ≡ some start
    → find_double brace_close (drop (start + 2) rest) ≡ some end
    → render_from (suc rounds) variables rest result
      ≡ filled rounds variables result
          (take start rest)
          (take end (drop (start + 2) rest))
          (drop (end + 2) (drop (start + 2) rest))
unfolding render_from filled
render_round rounds variables rest result {start} {end} e f =
    elim (Option-cases (lookup (trim (take end (drop (start + 2) rest))) variables)) [
      | inl g ↦ rw (render_from, e, f, g) refl
      | inr (value, g) ↦ rw (render_from, e, f, g) refl
    ]

filled_in :
    (variables : List (Text × Text)) (literal inner : Text) (ps : List (Text × Text)) (tail : Text)
    (rounds : ℕ) (result : Text) (o : Option Text)
    → ((r : Text)
        → render_from rounds variables (print_all ps tail) r
          ≡ some (before r (evaluate_all variables ps tail)))
    → fill rounds variables result literal inner (print_all ps tail) o
      ≡ some (before result (substitute (trim inner) literal o (evaluate_all variables ps tail)))
filled_in variables literal inner ps tail rounds result none ih = refl
filled_in variables literal inner ps tail rounds result (some value) ih =
    ih ((result ++ literal) ++ value)
    ∙ ap some (
        ap (λ (t : Text). before t (evaluate_all variables ps tail))
          (append_assoc result literal value)
        ∙ before-before result (literal ++ value) (evaluate_all variables ps tail))

before_nothing : (r : Result RenderError Text) → before [] r ≡ r
before_nothing (ok xs) = refl
before_nothing (err e) = refl

pub length-append : (xs ys : Text) → length (xs ++ ys) ≡ length xs + length ys
length-append [] ys = omega arith
length-append (x ∷ xs) ys = let ih = length-append xs ys in omega arith

render_parts :
    (variables : List (Text × Text)) (ps : List (Text × Text)) (tail : Text)
    → All IsPlaceholder ps
    → IsTail tail
    → (rounds : ℕ) (result : Text) → length ps < rounds
    → render_from rounds variables (print_all ps tail) result
      ≡ some (before result (evaluate_all variables ps tail))
unfolding render_from evaluate_all filled lookup
render_parts variables ps tail h t zero result enough = absurd (omega arith)
render_parts variables [] tail h (closed e) (suc rounds) result enough =
    rw (render_from, evaluate_tail, e) refl
render_parts variables [] tail h (open_ start e f) (suc rounds) result enough =
    rw (render_from, evaluate_tail, e, f) refl
render_parts variables ((literal, inner) ∷ ps) tail h t (suc rounds) result enough =
    let more = print_all ps tail in
    let inside = inner ++ brace_close ∷ brace_close ∷ more in
    let opened = drop-past brace_open brace_open literal inside in
    let closed_at =
      ap (find_double brace_close) opened ∙ find_double-first brace_close inner more h.0.1 in
    let text = take-append literal (brace_open ∷ brace_open ∷ inside) in
    let key =
      ap (take (length inner)) opened ∙ take-append inner (brace_close ∷ brace_close ∷ more) in
    let rest = ap (drop (length inner + 2)) opened ∙ drop-past brace_close brace_close inner more in
    let ih = render_parts variables ps tail h.1 t rounds in
    render_round rounds variables _ result (find_double-first brace_open literal inside h.0.0)
      closed_at
    ∙ cc (text, key, rest)
    ∙ filled_in variables literal inner ps tail rounds result (lookup (trim inner) variables)
        (λ r. ih r (omega arith))

length-print_all : (ps : List (Text × Text)) (tail : Text) → length ps ≤ length (print_all ps tail)
length-print_all [] tail = omega arith
length-print_all ((literal, inner) ∷ ps) tail =
    let ih = length-print_all ps tail in
    let outer =
      length-append literal
        (brace_open ∷ brace_open ∷ (inner ++ brace_close ∷ brace_close ∷ print_all ps tail)) in
    let within = length-append inner (brace_close ∷ brace_close ∷ print_all ps tail) in omega arith

-- Rendering a template with these parts gives what their evaluation gives: the literal texts with the
-- values in between, or the error of the first key without a value or of the unclosed placeholder.
pub render-print :
    (variables : List (Text × Text)) (p : Parts)
    → IsParts p
    → render (print p) variables ≡ some (evaluate variables p)
unfolding render
render-print variables p h =
    let bound = length-print_all p.placeholders p.tail in
    render_parts variables p.placeholders p.tail h.placeholders h.tail (suc (length (print p))) []
      (omega arith)
    ∙ ap some (before_nothing (evaluate variables p))
