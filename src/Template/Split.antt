-- ===== src/Template/Split.antt =====
-- Every template of src/template/render.rs splits into parts.
use messgr.Base.{
  ℕ, zero, suc, ◌+◌, ◌<◌, ◌≡◌, refl, sym, ap, ◌∙◌, inl, inr, false, ◌&&◌, Option, none, some, List,
  [], ◌∷◌, ◌++◌, arith, ◌==◌, and_true, beq_refl, beq_eq, Bool-cases, Option-cases, length, nat_eq,
  string_eq, option_eq, list_eq,
}
use messgr.Template.Render.{Text, brace_open, brace_close, drop, shift, find_double, render}
use messgr.Template.Parts.{
  Parts, IsParts, IsTail, EndsAt, closed, open_, print, evaluate, render-print, drop-past, skip,
  length-append,
}

-- What a search found: the text before the first double brace, and the text after it.
record Found (c : ℕ) (text : Text) (n : ℕ) : Type 0 where
  pub xs : Text
  pub ys : Text
  pub split : text ≡ xs ++ c ∷ c ∷ ys
  pub size : n ≡ length xs
  pub first : EndsAt c xs

shift-pred : (o : Option ℕ) (n : ℕ) → shift o ≡ some n → (m : ℕ) × (o ≡ some m) × (n ≡ suc m)
shift-pred none n h = absurd (cc h)
shift-pred (some m) n h = (m, refl, ground (arith, h))

apart : (x y z c : ℕ) → y ≡ z → ((x == c) && (y == c)) ≡ false → ((x == c) && (z == c)) ≡ false
apart x y z c h e = ap (λ (k : ℕ). (x == c) && (k == c)) (sym h) ∙ e

extend :
    (c x y : ℕ) (xs ys rest : Text)
    → y ∷ rest ≡ xs ++ c ∷ c ∷ ys
    → ((x == c) && (y == c)) ≡ false
    → EndsAt c xs
    → EndsAt c (x ∷ xs)
extend c x y [] ys rest h e k = skip c x c _ (apart x y c c (cc h) e) ∙ ap shift k
extend c x y (z ∷ zs) ys rest h e k = skip c x z _ (apart x y z c (cc h) e) ∙ ap shift k

found : (c : ℕ) (text : Text) (n : ℕ) → find_double c text ≡ some n → Found c text n
unfolding find_double
found c [] n h = absurd (cc h)
found c (x ∷ []) n h = absurd (cc h)
found c (x ∷ y ∷ rest) n h = elim (Bool-cases ((x == c) && (y == c))) [
  | inl e ↦
      let (same_x, same_y) = and_true (x == c) (y == c) e in
      record {
        xs = [];
        ys = rest;
        split = cc (beq_eq x c same_x, beq_eq y c same_y);
        size = ground (arith, h, e);
        first = ground (arith, beq_refl c);
      }
  | inr e ↦
      let (m, at, is) = shift-pred (find_double c (y ∷ rest)) n (sym (skip c x y rest e) ∙ h) in
      let later = found c (y ∷ rest) m at in
      record {
        xs = x ∷ later.xs;
        ys = later.ys;
        split = ap (λ (t : Text). x ∷ t) later.split;
        size = is ∙ ap suc later.size;
        first = extend c x y later.xs later.ys rest later.split e later.first;
      }
]

-- Splitting, on as many rounds as there are code points.

record Splitting (text : Text) : Type 0 where
  pub parts : Parts
  pub valid : IsParts parts
  pub prints : text ≡ print parts

only_tail : (text : Text) → IsTail text → Splitting text
only_tail text t = record {
  parts = record { placeholders = []; tail = text };
  valid = record { placeholders = tt; tail = t };
  prints = refl;
}

prepend :
    (text : Text) (literal inner rest : Text)
    → EndsAt brace_open literal
    → EndsAt brace_close inner
    → text ≡ literal ++ brace_open ∷ brace_open ∷ (inner ++ brace_close ∷ brace_close ∷ rest)
    → Splitting rest
    → Splitting text
prepend text literal inner rest ho hc is s = record {
  parts = record { placeholders = (literal, inner) ∷ s.parts.placeholders; tail = s.parts.tail };
  valid = record { placeholders = ((ho, hc), s.valid.placeholders); tail = s.valid.tail };
  prints =
      is
      ∙ ap (λ r. literal ++ brace_open ∷ brace_open ∷ (inner ++ brace_close ∷ brace_close ∷ r))
          s.prints;
}

split : (rounds : ℕ) (text : Text) → length text < rounds → Splitting text
split zero text enough = absurd (omega arith)
split (suc rounds) text enough = elim (Option-cases (find_double brace_open text)) [
  | inl none_open ↦ only_tail text (closed none_open)
  | inr (start, e) ↦
      let opens = found brace_open text start e in
      let after =
        ap (λ n. drop (n + 2) text) opens.size
        ∙ ap (drop (length opens.xs + 2)) opens.split
        ∙ drop-past brace_open brace_open opens.xs opens.ys in
      elim (Option-cases (find_double brace_close opens.ys)) [
        | inl unclosed ↦
            only_tail text (open_ start e (ap (find_double brace_close) after ∙ unclosed))
        | inr (end, f) ↦
            let closes = found brace_close opens.ys end f in
            let is = opens.split ∙ ap (λ r. opens.xs ++ brace_open ∷ brace_open ∷ r) closes.split in
            let size =
              ap (λ (t : Text). length t) is
              ∙ length-append opens.xs (
                  brace_open ∷ brace_open ∷ (closes.xs ++ brace_close ∷ brace_close ∷ closes.ys)) in
            let size_in = length-append closes.xs (brace_close ∷ brace_close ∷ closes.ys) in
            prepend text opens.xs closes.xs closes.ys opens.first closes.first is
              (split rounds closes.ys (omega arith))
      ]
]

-- Every template splits into parts, and rendering it ends with what the evaluation of these parts
-- gives: `render` always returns, a text or one of its two errors.
pub render-Parts :
    (body : Text) (variables : List (Text × Text))
    → (p : Parts) × IsParts p
      × (body ≡ print p)
      × (render body variables ≡ some (evaluate variables p))
render-Parts body variables =
    let s = split (suc (length body)) body (omega arith) in
    (
      s.parts,
      s.valid,
      s.prints,
      ap (λ (t : Text). render t variables) s.prints ∙ render-print variables s.parts s.valid,
    )
