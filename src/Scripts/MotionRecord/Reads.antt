-- ===== src/Scripts/MotionRecord/Reads.antt =====
-- What read_motion_file collects, and when it fails.
use edm_project.Scripts.MotionRecord.Lists.{
  one, has, Extends, Appends, column, append_to-Extends, Extends-both,
}
use mathlib.Core.Option.{some-injective}
use mathlib.Core.List.{append-nil}
use edm_project.Prelude.{
  ◌≡◌, ◌∙◌, inl, inr, refl, sym, ap, ℕ, zero, suc, ◌+◌, ◌≤◌, ◌<◌, String, true, Bool-cases,
  Option-cases, none, some, List, [], ◌∷◌, ◌++◌, All, length, get_elem?, str_eq, eq_iff,
  if◌then◌else◌, arith,
}
use edm_project.Python.Exec.{ok, err, builtin, index_error, and_then}
use edm_project.Python.Text.{split_tab}
use edm_project.Scripts.MotionRecord.{
  Columns, append_to, header_strs, store_columns, store_lines, new_columns, columns_of,
  read_motion_file,
}

-- The texts of a line that go to the list `key`, from column `i` on.
abbrev pub entries : List String → String → ℕ → List String → List String
entries headers key i [] = []
entries headers key i (c ∷ cs) =
    elim (get_elem? headers i) [ none ↦ [] | some h ↦ one h c key ]
    ++ entries headers key (suc i) cs

get_elem?-in : (xs : List String) (i : ℕ) → i < length xs → (x : String) × (get_elem? xs i ≡ some x)
get_elem?-in [] i h = absurd (omega (arith, h))
get_elem?-in (x ∷ xs) zero h = (x, refl)
get_elem?-in (x ∷ xs) (suc i) h = get_elem?-in xs i (omega (arith, h))

get_elem?-bound : (xs : List String) (i : ℕ) (x : String) → get_elem? xs i ≡ some x → i < length xs
get_elem?-bound [] i x e = cc
get_elem?-bound (y ∷ xs) zero x e = omega arith
get_elem?-bound (y ∷ xs) (suc i) x e = omega (arith, get_elem?-bound xs i x e)

-- Every header is a key.
abbrev HasAll : List String → Columns → Type 0
HasAll headers d = (i : ℕ) (h : String) → get_elem? headers i ≡ some h → has h d ≡ true

module _ (headers : List String) where
  abbrev Stores : ℕ → List String → Columns → Type 0
  Stores i cs d =
      (d' : Columns) × (store_columns headers i cs d ≡ ok d')
      × Extends d (λ key. entries headers key i cs) d'

  store_columns-next :
      (i : ℕ) (c : String) (cs : List String) (d : Columns) (h : String)
      → get_elem? headers i ≡ some h
      → (p : Appends h c d) → Stores (suc i) cs p.0
      → Stores i (c ∷ cs) d
  unfolding store_columns
  store_columns-next i c cs d h e (d', r, x) (d'', r', x') = (
    d'',
    ap
          (λ o.
            and_then (elim o [ none ↦ err (builtin index_error) | some k ↦ ok k ])
              λ k. and_then (append_to k c d) (store_columns headers (suc i) cs))
          e
        ∙ (ap (λ o. and_then o (store_columns headers (suc i) cs)) r ∙ r'),
    rw e (Extends-both d d' d'' (one h c) _ x x'),
  )

  store_columns-Extends :
      (i : ℕ) (cs : List String) (d : Columns)
      → i + length cs ≤ length headers
      → HasAll headers d
      → Stores i cs d
  unfolding store_columns
  store_columns-Extends i [] d fits keys =
      (d, refl, record { keys = λ k. refl; lists = λ k. sym (append-nil (column k d)) })
  store_columns-Extends i (c ∷ cs) d fits keys =
      let (h, e) = get_elem?-in headers i (omega (arith, fits)) in
      let p = append_to-Extends h c d (keys i h e) in
      store_columns-next i c cs d h e p (
        store_columns-Extends (suc i) cs p.0 (omega (arith, fits))
          (λ j k q. p.2.keys k ∙ keys j k q))

  store_columns-refused :
      (i : ℕ) (cs : List String) (d : Columns)
      → i ≤ length headers
      → length headers < i + length cs
      → HasAll headers d
      → store_columns headers i cs d ≡ err (builtin index_error)
  unfolding store_columns
  store_columns-refused i [] d at_most over keys = absurd (omega (arith, at_most, over))
  store_columns-refused i (c ∷ cs) d at_most over keys =
      elim (Option-cases (get_elem? headers i))
        as (λ _. store_columns headers i (c ∷ cs) d ≡ err (builtin index_error)) [
          | inl e ↦
              ap
                (λ o.
                  and_then (elim o [ none ↦ err (builtin index_error) | some k ↦ ok k ])
                    λ k. and_then (append_to k c d) (store_columns headers (suc i) cs))
                e
          | inr (h, e) ↦
              let p = append_to-Extends h c d (keys i h e) in
              ap
                (λ o.
                  and_then (elim o [ none ↦ err (builtin index_error) | some k ↦ ok k ])
                    λ k. and_then (append_to k c d) (store_columns headers (suc i) cs))
                e
              ∙ (ap (λ o. and_then o (store_columns headers (suc i) cs)) p.1
                  ∙ store_columns-refused (suc i) cs p.0 (get_elem?-bound headers i h e)
                      (omega (arith, over)) (λ j k q. p.2.keys k ∙ keys j k q))
        ]

  -- The texts of the lines that go to the list `key`, and the lines with a header for each column.
  abbrev pub texts : String → List String → List String
  texts key [] = []
  texts key (line ∷ lines) = entries headers key 0 (columns_of line) ++ texts key lines

  abbrev pub Fits : String → Type 0
  Fits line = length (columns_of line) ≤ length headers

  store_lines-Extends :
      (lines : List String) (d : Columns)
      → All Fits lines
      → HasAll headers d
      → (d' : Columns) × (store_lines headers lines d ≡ ok d')
        × Extends d (λ key. texts key lines) d'
  unfolding store_lines
  store_lines-Extends [] d fits keys =
      (d, refl, record { keys = λ k. refl; lists = λ k. sym (append-nil (column k d)) })
  store_lines-Extends (line ∷ lines) d (fit, fits) keys =
      let (d', r, x) = store_columns-Extends 0 (columns_of line) d (omega (arith, fit)) keys in
      let (d'', r', x') = store_lines-Extends lines d' fits (λ j k q. x.keys k ∙ keys j k q) in
      (d'', ap (λ o. and_then o (store_lines headers lines)) r ∙ r', Extends-both d d' d'' _ _ x x')

  store_lines-refused :
      (good rest : List String) (bad : String) (d : Columns)
      → All Fits good
      → length headers < length (columns_of bad)
      → HasAll headers d
      → store_lines headers (good ++ bad ∷ rest) d ≡ err (builtin index_error)
  unfolding store_lines
  store_lines-refused [] rest bad d fits over keys =
      ap (λ o. and_then o (store_lines headers rest))
        (store_columns-refused 0 (columns_of bad) d (omega arith) (omega (arith, over)) keys)
  store_lines-refused (line ∷ good) rest bad d (fit, fits) over keys =
      let (d', r, x) = store_columns-Extends 0 (columns_of line) d (omega (arith, fit)) keys in
      ap (λ o. and_then o (store_lines headers (good ++ bad ∷ rest))) r
      ∙ store_lines-refused good rest bad d' fits over (λ j k q. x.keys k ∙ keys j k q)

new_columns-HasAll : (headers : List String) → HasAll headers (new_columns headers)
unfolding new_columns
new_columns-HasAll [] i h e = cc
new_columns-HasAll (k ∷ headers) zero h e =
    ap (λ b. if b then true else has h (new_columns headers))
      ((eq_iff k h).1 (some-injective _ _ e))
new_columns-HasAll (k ∷ headers) (suc i) h e = elim (Bool-cases (str_eq k h)) [
  | inl q ↦ rw q refl
  | inr q ↦ rw q (new_columns-HasAll headers i h e)
]

column-new_columns : (headers : List String) (key : String) → column key (new_columns headers) ≡ []
unfolding new_columns
column-new_columns [] key = refl
column-new_columns (k ∷ headers) key = elim (Bool-cases (str_eq k key)) [
  | inl q ↦ rw q refl
  | inr q ↦ rw q (column-new_columns headers key)
]

abbrev pub headers : List String
headers = split_tab header_strs

-- read_motion_file, on the lines of any file: if no line has more columns than there are headers, it
-- returns, the keys are the headers, and the list of each key holds the columns under that header of
-- all lines, in their order; a line with more columns, after lines that fit, ends it with an
-- IndexError.
pub read_motion_file-reads :
    (good : List String)
    → All (Fits headers) good
    → ((d : Columns) × (read_motion_file good ≡ ok d)
        × ((key : String)
            → (has key d ≡ has key (new_columns headers))
              × (column key d ≡ texts headers key good)))
      × ((bad : String) (rest : List String)
          → length headers < length (columns_of bad)
          → read_motion_file (good ++ bad ∷ rest) ≡ err (builtin index_error))
unfolding read_motion_file
read_motion_file-reads good fits =
    let keys = new_columns-HasAll headers in
    let (d, r, x) = store_lines-Extends headers good (new_columns headers) fits keys in
    (
      (
        d,
        r,
        λ key. (
          x.keys key,
          x.lists key ∙ ap (λ l. l ++ texts headers key good) (column-new_columns headers key),
        ),
      ),
      λ bad rest over.
          store_lines-refused headers good rest bad (new_columns headers) fits over keys,
    )
