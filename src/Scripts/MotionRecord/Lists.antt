-- ===== src/Scripts/MotionRecord/Lists.antt =====
-- A dict of lists before and after a text is added to one of them.
use mathlib.Core.Bool.{false≢true}
use mathlib.Core.List.{append-nil, append_assoc}
use edm_project.Prelude.{
  ◌≡◌, ◌⊎◌, ◌∙◌, inl, inr, refl, sym, ap, String, Bool, true, false, Bool-cases, List, [], ◌∷◌,
  ◌++◌, str_eq, eq_iff, if◌then◌else◌,
}
use edm_project.Python.Exec.{ok}
use edm_project.Scripts.MotionRecord.{Columns, append_to}

-- The list under a key, and whether the key is there.
abbrev pub column : String → Columns → List String
column key [] = []
column key ((k, vs) ∷ d) = if str_eq k key then vs else column key d

abbrev pub has : String → Columns → Bool
has key [] = false
has key ((k, vs) ∷ d) = if str_eq k key then true else has key d

-- `d'` is `d` with the texts `more` at the ends of the lists.
pub record Extends (d : Columns) (more : String → List String) (d' : Columns) : Type 0 where
  pub keys : (k : String) → has k d' ≡ has k d
  pub lists : (k : String) → column k d' ≡ column k d ++ more k

abbrev pub one : String → String → String → List String
one key v k = if str_eq key k then v ∷ [] else []

append_to-first :
    (key v k : String) (vs : List String) (d : Columns)
    → str_eq k key ≡ true
    → Extends ((k, vs) ∷ d) (one key v) ((k, vs ++ v ∷ []) ∷ d)
append_to-first key v k vs d e = record {
  keys = λ j. refl;
  lists = λ j. at j (ap (λ s. str_eq s j) (sym ((eq_iff k key).0 e))) (Bool-cases (str_eq k j));
}
  where
    at :
        (j : String)
        → str_eq key j ≡ str_eq k j
        → (str_eq k j ≡ true) ⊎ (str_eq k j ≡ false)
        → column j ((k, vs ++ v ∷ []) ∷ d) ≡ column j ((k, vs) ∷ d) ++ one key v j
    at j s (inl q) = rw (s, q) refl
    at j s (inr q) = rw (s, q) (sym (append-nil (column j d)))

Extends-later :
    (k : String) (vs : List String) (d d' : Columns) (more : String → List String)
    → more k ≡ []
    → Extends d more d'
    → Extends ((k, vs) ∷ d) more ((k, vs) ∷ d')
Extends-later k vs d d' more none_here h = record {
  keys = λ j. ap (λ b. if str_eq k j then true else b) (h.keys j);
  lists = λ j. at j (Bool-cases (str_eq k j));
}
  where
    at :
        (j : String)
        → (str_eq k j ≡ true) ⊎ (str_eq k j ≡ false)
        → column j ((k, vs) ∷ d') ≡ column j ((k, vs) ∷ d) ++ more j
    at j (inl q) = rw (q, sym ((eq_iff k j).0 q), none_here) (sym (append-nil vs))
    at j (inr q) = rw q (h.lists j)

pub Extends-both :
    (d d' d'' : Columns) (more more' : String → List String)
    → Extends d more d'
    → Extends d' more' d''
    → Extends d (λ k. more k ++ more' k) d''
Extends-both d d' d'' more more' h h' = record {
  keys = λ k. h'.keys k ∙ h.keys k;
  lists = λ k. h'.lists k ∙ (ap (λ l. l ++ more' k) (h.lists k) ∙ append_assoc (column k d) _ _);
}

one-other : (key v k : String) → str_eq k key ≡ false → one key v k ≡ []
one-other key v k e = elim (Bool-cases (str_eq key k)) as (λ _. one key v k ≡ []) [
  | inl q ↦ absurd (false≢true (sym e ∙ (eq_iff k key).1 (sym ((eq_iff key k).0 q))))
  | inr q ↦ rw q refl
]

abbrev pub Appends : String → String → Columns → Type 0
Appends key v d = (d' : Columns) × (append_to key v d ≡ ok d') × Extends d (one key v) d'

append_to-next :
    (key v k : String) (vs : List String) (d : Columns)
    → str_eq k key ≡ false
    → Appends key v d
    → Appends key v ((k, vs) ∷ d)
unfolding append_to
append_to-next key v k vs d e (d', r, h) =
    ((k, vs) ∷ d', rw (e, r) refl, Extends-later k vs d d' (one key v) (one-other key v k e) h)

pub append_to-Extends : (key v : String) (d : Columns) → has key d ≡ true → Appends key v d
unfolding append_to
append_to-Extends key v [] h = absurd (false≢true h)
append_to-Extends key v ((k, vs) ∷ d) h = elim (Bool-cases (str_eq k key)) [
  | inl e ↦ (_, rw e refl, append_to-first key v k vs d e)
  | inr e ↦
      append_to-next key v k vs d e
        (append_to-Extends key v d (sym (ap (λ b. if b then true else has key d) e) ∙ h))
]
