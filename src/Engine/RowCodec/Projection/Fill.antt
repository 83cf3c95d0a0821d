-- ===== src/Engine/RowCodec/Projection/Fill.antt =====
-- The loop of `decodeRowProjected` puts every column that it reads into its slot.
use repodb.Base.{
  some_injective, ℕ, zero, suc, ◌+◌, ◌≤◌, ◌<◌, ◌≡◌, refl, sym, ap, ◌∙◌, true, false, Option, none,
  some, List, [], ◌∷◌, arith, length, Bool-cases, inl, inr,
}
use repodb.Bytes.{Bytes}
use repodb.Engine.RowCodec.Values.{CellType, CellValue, done}
use repodb.Engine.RowCodec.Cell.{cell}
use repodb.Engine.RowCodec.Cell.Skip.{and_then-done, skip-cell}
use repodb.Engine.RowCodec.Row.{is_null, Schema, Row, read_cells}
use repodb.Engine.RowCodec.Row.Steps.{read_cells-null, read_cells-value}
use repodb.Engine.RowCodec.Projection.{value_at, set_value, project_cells}
use repodb.Engine.RowCodec.Projection.Positions.{
  length-set_value, value_at-set_value_self, value_at-set_value_other, same_or_not, none-ne-some,
}

module _ {J : Type 0} where
  -- No two columns share a slot, and every slot is a blank of the output.
  pub record Ready (slots : List (Option ℕ)) (out : Row J) : Type 0 where
    pub distinct : (j k s : ℕ) → value_at slots j ≡ some s → value_at slots k ≡ some s → j ≡ k
    pub inside : (j s : ℕ) → value_at slots j ≡ some s → s < length out
    pub blank : (j s : ℕ) → value_at slots j ≡ some s → value_at out s ≡ none

  -- Of the first `n` columns, those with a slot are there, and nothing else has changed.
  pub record Filled (n : ℕ) (slots : List (Option ℕ)) (row out out' : Row J) : Type 0 where
    pub same_length : length out' ≡ length out
    pub filled : (j s : ℕ) → j < n → value_at slots j ≡ some s → value_at out' s ≡ value_at row j
    pub kept :
        (s : ℕ) → ((j : ℕ) → value_at slots j ≡ some s → ⊥) → value_at out' s ≡ value_at out s

  -- One column: `out` becomes `out₁`, where the column's slot holds `x`.
  record Placed (slot : Option ℕ) (x : Option (CellValue J)) (out mid : Row J) : Type 0 where
    placed_length : length mid ≡ length out
    placed : (s : ℕ) → slot ≡ some s → value_at mid s ≡ x
    others : (s : ℕ) → (slot ≡ some s → ⊥) → value_at mid s ≡ value_at out s

  module _ (slot : Option ℕ) (slots : List (Option ℕ)) (x : Option (CellValue J)) (out mid : Row J)
      (ready : Ready (slot ∷ slots) out) (step : Placed slot x out mid) where
    unshared : (j s : ℕ) → value_at slots j ≡ some s → slot ≡ some s → ⊥
    unfolding value_at
    unshared j s e h = absurd (omega (arith, ready.distinct 0 (suc j) s h e))

    Ready-tail : Ready slots mid
    unfolding value_at
    Ready-tail = record {
      distinct = λ j k s e f. omega (arith, ready.distinct (suc j) (suc k) s e f);
      inside = λ j s e. omega (arith, ready.inside (suc j) s e, step.placed_length);
      blank = λ j s e. step.others s (unshared j s e) ∙ ready.blank (suc j) s e;
    }

    Filled-suc :
        (n : ℕ) (row out' : Row J)
        → Filled n slots row mid out'
        → Filled (suc n) (slot ∷ slots) (x ∷ row) out out'
    unfolding value_at
    Filled-suc n row out' f = record {
      same_length = f.same_length ∙ step.placed_length;
      filled = filled_at;
      kept = λ s no. f.kept s (λ j. no (suc j)) ∙ step.others s (no 0);
    }
      where
        filled_at :
            (j s : ℕ)
            → j < suc n
            → value_at (slot ∷ slots) j ≡ some s
            → value_at out' s ≡ value_at (x ∷ row) j
        filled_at zero s l e = f.kept s (λ j e'. unshared j s e' e) ∙ step.placed s e
        filled_at (suc j) s l e = f.filled j s (omega arith) e

module _ {J : Type 0} (parse_json : Bytes → Option J) where
  -- What `decodeRow` reads from column `i` on, column by column.
  null_column :
      (i : ℕ) (type : CellType) (schema : Schema) (nulls input rest : Bytes) (row : Row J)
      → is_null nulls i ≡ true
      → read_cells parse_json i (type ∷ schema) nulls input ≡ done (row, rest)
      → (row' : Row J) × (row ≡ none ∷ row')
        × (read_cells parse_json (i + 1) schema nulls input ≡ done (row', rest))
  null_column i type schema nulls input rest row h e =
      let ((row', rest'), e', f) =
        and_then-done (read_cells parse_json (i + 1) schema nulls input) _ (row, rest)
          (sym (read_cells-null parse_json i type schema nulls input h) ∙ e) in
      (row', cc, e' ∙ cc)

  value_column :
      (i : ℕ) (type : CellType) (schema : Schema) (nulls input rest : Bytes) (row : Row J)
      → is_null nulls i ≡ false
      → read_cells parse_json i (type ∷ schema) nulls input ≡ done (row, rest)
      → (v : CellValue J) × (behind : Bytes) × (row' : Row J) × (cell parse_json type input
          ≡ done (v, behind))
        × (row ≡ some v ∷ row')
        × (read_cells parse_json (i + 1) schema nulls behind ≡ done (row', rest))
  value_column i type schema nulls input rest row h e =
      let ((v, behind), c, e') =
        and_then-done (cell parse_json type input) _ (row, rest)
          (sym (read_cells-value parse_json i type schema nulls input h) ∙ e) in
      let ((row', rest'), f, g) =
        and_then-done (read_cells parse_json (i + 1) schema nulls behind) _ (row, rest) e' in
      (v, behind, row', c, cc, f ∙ cc)

  project_cells-null :
      (i n : ℕ) (type : CellType) (schema : Schema) (slot : Option ℕ) (slots : List (Option ℕ))
      (nulls input : Bytes) (out : Row J)
      → is_null nulls i ≡ true
      → project_cells parse_json i (suc n) (type ∷ schema) (slot ∷ slots) nulls input out
        ≡ project_cells parse_json (i + 1) n schema slots nulls input out
  unfolding project_cells
  project_cells-null i n type schema slot slots nulls input out h = rw (h, project_cells) refl

  -- The output after a value that is kept where it has a slot.
  abbrev put_value : Option ℕ → CellValue J → Row J → Row J
  put_value none v out = out
  put_value (some s) v out = set_value out s (some v)

  project_cells-value :
      (i n : ℕ) (type : CellType) (schema : Schema) (slot : Option ℕ) (slots : List (Option ℕ))
      (nulls input behind : Bytes) (v : CellValue J) (out : Row J)
      → is_null nulls i ≡ false
      → cell parse_json type input ≡ done (v, behind)
      → project_cells parse_json i (suc n) (type ∷ schema) (slot ∷ slots) nulls input out
        ≡ project_cells parse_json (i + 1) n schema slots nulls behind (put_value slot v out)
  unfolding project_cells
  project_cells-value i n type schema (some s) slots nulls input behind v out h c =
      rw (h, c, project_cells) refl
  project_cells-value i n type schema none slots nulls input behind v out h c =
      rw (h, skip-cell parse_json type input v behind c, project_cells) refl

  -- What the loop gives.
  abbrev pub Outcome : ℕ → ℕ → Schema → List (Option ℕ) → Bytes → Bytes → Row J → Row J → Type 0
  Outcome i n schema slots nulls input row out =
      (out' : Row J) × (project_cells parse_json i n schema slots nulls input out ≡ done out')
      × Filled n slots row out out'

  -- A column where nothing is placed: NULL, or without a slot.
  Placed-nothing :
      (slot : Option ℕ) (slots : List (Option ℕ)) (out : Row J)
      → Ready (slot ∷ slots) out
      → Placed slot none out out
  unfolding value_at
  Placed-nothing slot slots out ready = record {
    placed_length = refl;
    placed = λ s e. ready.blank 0 s e;
    others = λ s no. refl;
  }

  Placed-value :
      (slot : Option ℕ) (slots : List (Option ℕ)) (v : CellValue J) (out : Row J)
      → Ready (slot ∷ slots) out
      → Placed slot (some v) out (put_value slot v out)
  Placed-value none slots v out ready = record {
    placed_length = refl;
    placed = λ s e. absurd (none-ne-some e);
    others = λ s no. refl;
  }
  Placed-value (some s) slots v out ready = record {
    placed_length = length-set_value out s (some v);
    placed = λ t e.
        ap (value_at (set_value out s (some v))) (sym (some_injective e))
        ∙ value_at-set_value_self out s (some v) (ready.inside 0 s (unfold value_at in refl));
    others = λ t no. elim (same_or_not s t) [
      | inl same ↦ absurd (no (ap some same))
      | inr other ↦ value_at-set_value_other out s t (some v) other
    ];
  }

  after_column :
      (i n : ℕ) (type : CellType) (schema : Schema) (slot : Option ℕ) (slots : List (Option ℕ))
      (nulls input behind : Bytes) (x : Option (CellValue J)) (row row' out mid : Row J)
      → Ready (slot ∷ slots) out
      → Placed slot x out mid
      → row ≡ x ∷ row'
      → project_cells parse_json i (suc n) (type ∷ schema) (slot ∷ slots) nulls input out
        ≡ project_cells parse_json (i + 1) n schema slots nulls behind mid
      → Outcome (i + 1) n schema slots nulls behind row' mid
      → Outcome i (suc n) (type ∷ schema) (slot ∷ slots) nulls input row out
  after_column i n type schema slot slots nulls input behind x row row' out mid ready step e same
        (out', e', f) =
      (out', same ∙ e', rw e (Filled-suc slot slots x out mid ready step n row' out' f))

  -- Let `decodeRow` read the columns from `i` on, and let the output be blank in the slots. Then the loop
  -- over the first `n` of them ends without an error, with the columns in their slots.
  pub Outcome_lem :
      (i n : ℕ) (schema : Schema) (slots : List (Option ℕ)) (nulls input rest : Bytes)
      (row out : Row J)
      → read_cells parse_json i schema nulls input ≡ done (row, rest)
      → n ≤ length schema
      → length slots ≡ length schema
      → Ready slots out
      → Outcome i n schema slots nulls input row out
  Outcome_lem i zero schema slots nulls input rest row out e b l ready = (
    out,
    unfold project_cells in refl,
    record { same_length = refl; filled = λ j s h. absurd (omega arith); kept = λ s no. refl },
  )
  Outcome_lem i (suc n) [] slots nulls input rest row out e b l ready = absurd (omega arith)
  Outcome_lem i (suc n) (type ∷ schema) [] nulls input rest row out e b l ready =
      absurd (omega arith)
  Outcome_lem i (suc n) (type ∷ schema) (slot ∷ slots) nulls input rest row out e b l ready =
      elim (Bool-cases (is_null nulls i)) [
        | inl null ↦
            let (row', er, e') = null_column i type schema nulls input rest row null e in
            let step = Placed-nothing slot slots out ready in
            after_column i n type schema slot slots nulls input input none row row' out out ready
              step er (project_cells-null i n type schema slot slots nulls input out null)
              (Outcome_lem (i + 1) n schema slots nulls input rest row' out e' (omega arith)
                (omega arith) (Ready-tail slot slots none out out ready step))
        | inr value ↦
            let (v, behind, row', c, er, e') =
              value_column i type schema nulls input rest row value e in
            let mid = put_value slot v out in
            let step = Placed-value slot slots v out ready in
            after_column i n type schema slot slots nulls input behind (some v) row row' out mid
              ready step er
              (project_cells-value i n type schema slot slots nulls input behind v out value c)
              (Outcome_lem (i + 1) n schema slots nulls behind rest row' mid e' (omega arith)
                (omega arith) (Ready-tail slot slots (some v) out mid ready step))
      ]
