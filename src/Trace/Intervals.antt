-- ===== src/Trace/Intervals.antt =====
-- Rows whose intervals nest, as the spans of src/scnsim/benchmark/operations.py do.
use scnsim.Base.{String, List, [], ◌∷◌, ◌++◌, ◌≡◌, ◌⊎◌, inl, inr, Option, some}
use scnsim.Base.Eq.{string_eq}
use scnsim.Base.Int.{ℤ, ◌≤ℤ◌, le_trans}
use scnsim.Trace.Recorder.{Span}

-- A later row is the parent, and its interval covers the row's.
abbrev pub HasParent : Span → List Span → Type 0
HasParent row [] = ⊥
HasParent row (p ∷ rows) =
    ((row.parent_span_id ≡ some p.span_id)
      × (p.start_ns ≤ℤ row.start_ns)
      × (row.end_ns ≤ℤ p.end_ns))
    ⊎ HasParent row rows

-- Each row lies in the interval, and its parent is the enclosing span or a later row.
abbrev pub Nested : Option String → ℤ → ℤ → List Span → Type 0
Nested top lo hi [] = Unit
Nested top lo hi (row ∷ rows) =
    ((lo ≤ℤ row.start_ns) × (row.start_ns ≤ℤ row.end_ns) × (row.end_ns ≤ℤ hi))
    × ((row.parent_span_id ≡ top) ⊎ HasParent row rows)
    × Nested top lo hi rows

HasParent-append : (row : Span) (xs ys : List Span) → HasParent row xs → HasParent row (xs ++ ys)
HasParent-append row [] ys h = absurd h
HasParent-append row (x ∷ xs) ys (inl here) = inl here
HasParent-append row (x ∷ xs) ys (inr later) = inr (HasParent-append row xs ys later)

pub Nested-append :
    (top : Option String) (lo mid hi : ℤ) (xs ys : List Span)
    → lo ≤ℤ mid
    → mid ≤ℤ hi
    → Nested top lo mid xs
    → Nested top mid hi ys
    → Nested top lo hi (xs ++ ys)
Nested-append top lo mid hi [] [] a b hx hy = tt
Nested-append top lo mid hi [] (y ∷ ys) a b hx ((l, m, h), p, n) =
    ((le_trans lo mid y.start_ns a l, m, h), p, Nested-append top lo mid hi [] ys a b tt n)
Nested-append top lo mid hi (x ∷ xs) ys a b ((l, m, h), p, n) hy = (
  (l, m, le_trans x.end_ns mid hi h b),
  elim p [ inl up ↦ inl up | inr later ↦ inr (HasParent-append x xs ys later) ],
  Nested-append top lo mid hi xs ys a b n hy,
)

-- The interval may start earlier.
pub Nested-from :
    (top : Option String) (lo mid hi : ℤ) (xs : List Span)
    → lo ≤ℤ mid
    → Nested top mid hi xs
    → Nested top lo hi xs
Nested-from top lo mid hi [] a n = tt
Nested-from top lo mid hi (x ∷ xs) a ((l, m, h), p, n) =
    ((le_trans lo mid x.start_ns a l, m, h), p, Nested-from top lo mid hi xs a n)

-- The rows of a body, then the row of the span around it.
pub Nested-close :
    (top : Option String) (lo hi : ℤ) (row : Span) (xs : List Span)
    → lo ≤ℤ row.start_ns
    → row.start_ns ≤ℤ row.end_ns
    → row.end_ns ≤ℤ hi
    → row.parent_span_id ≡ top
    → Nested (some row.span_id) row.start_ns row.end_ns xs
    → Nested top lo hi (xs ++ row ∷ [])
Nested-close top lo hi row [] a b c e h = ((a, b, c), inl e, tt)
Nested-close top lo hi row (x ∷ xs) a b c e ((l, m, h), p, n) = (
  (le_trans lo row.start_ns x.start_ns a l, m, le_trans x.end_ns row.end_ns hi h c),
  elim p [
    | inl up ↦ inr (parent_last xs up l h)
    | inr later ↦ inr (HasParent-append x xs (row ∷ []) later)
  ],
  Nested-close top lo hi row xs a b c e n,
)
  where
    parent_last :
        (ys : List Span)
        → x.parent_span_id ≡ some row.span_id
        → row.start_ns ≤ℤ x.start_ns
        → x.end_ns ≤ℤ row.end_ns
        → HasParent x (ys ++ row ∷ [])
    parent_last [] up l h = inl (up, l, h)
    parent_last (y ∷ ys) up l h = inr (parent_last ys up l h)
