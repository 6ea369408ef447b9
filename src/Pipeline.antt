-- ===== src/Pipeline.antt =====
-- The recommendation pipeline (backend/app/ai/agents/recommendation_pipeline.py): three nodes in
-- a row. The graph library, the search and the language model are no code of the repository: the
-- nodes are composed in the order of the edges, and `search` and `generate` are arguments. The
-- texts of the query and of the prompt are not modelled: both are functions of what they are
-- made from, arguments here. Log lines are not modelled.
pub mod Grounding
use mathlib.Core.Option
use road_vision_ai.Base.{
  ℕ, zero, not, str_eq, ◌≡◌, Bool, true, false, String, List, [], ◌∷◌, ◌++◌, map, Option, none,
  some, Exn, Result, ok, err, ◌>>=◌, attribute_error, type_error, json_decode_error, take,
  if◌then◌else◌,
}
use road_vision_ai.Text.{Text, codes, is_space, strip}
use road_vision_ai.Float.{Float}
use road_vision_ai.Json.{Json, ℤ, Items, Fields, Python, get_field}
use road_vision_ai.Rules.{AnalysisContext, RuleDecision, Rule, evaluate}

-- A passage of the knowledge base, with the pages that it comes from as texts.
pub record Passage : Type 0 where
  pub title : String
  pub pages : String
  pub text : Text

pub record PipelineResult (W D : Type 0) : Type 0 where
  pub decision : RuleDecision W D
  pub justification : Text
  pub normative_refs : Json W
  pub passages : List Passage
  pub missing_normative_refs : Bool
  pub agents_involved : List String

-- What the narration adds to the state of the graph.
pub record Narration (W : Type 0) : Type 0 where
  pub justification : Text
  pub cited_refs : Json W
  pub missing_normative_refs : Bool

module _ {W : Type 0} where
  -- `{"title": p["title"], "page": f"{p['page_start']}-{p['page_end']}"}`
  unfoldable pub ref_of : Passage → Json W
  ref_of p =
      Json.obj (
        Fields.field "title" (Json.str p.title) (Fields.field "page" (Json.str p.pages) Fields.end))

  -- The references of a list of passages, as JSON.
  unfoldable pub refs_of : List Passage → Items W
  unfolding ref_of
  refs_of [] = Items.nil
  refs_of (p ∷ ps) = Items.cons (ref_of p) (refs_of ps)

  module _ ⦃f : Float W⦄ where
    -- The truth of a JSON value in `or`.
    unfoldable pub is_true : Json W → Bool
    is_true Json.null = false
    is_true (Json.bool b) = b
    is_true (Json.int (ℤ.pos zero)) = false
    is_true (Json.int _) = true
    is_true (Json.real x) = not (f.eq x (f.lit 0 0))
    is_true (Json.str s) = not (str_eq s "")
    is_true (Json.arr Items.nil) = false
    is_true (Json.arr _) = true
    is_true (Json.obj Fields.end) = false
    is_true (Json.obj _) = true

    -- `value or default`
    unfoldable pub or_else : Json W → Json W → Json W
    or_else v default = if is_true v then v else default

    -- `parsed.get("justification", "").strip()` on a text
    unfoldable pub told : Option (Json W) → Result Text
    told none = ok []
    told (some (Json.str s)) = ok (strip (codes s))
    told (some _) = err attribute_error

    -- The body of the `try`: the answer of the language model, parsed.
    unfoldable pub read_answer :
        {D : Type 0} → Python W D → String → Json W → Result (Text × Json W)
    unfolding told or_else
    read_answer py raw fallback_refs = elim (py.loads raw) [
      | none ↦ err json_decode_error
      | some (Json.obj fields) ↦ do
        justification ← told (get_field "justification" fields)
        ok (
          justification,
          or_else (elim (get_field "cited_refs" fields) [ none ↦ Json.arr Items.nil | some v ↦ v ])
              fallback_refs,
        )
      | some _ ↦ err attribute_error
    ]

-- `x or y` on texts
unfoldable pub text_or_else : Text → Text → Text
text_or_else [] t = t
text_or_else (c ∷ s) t = c ∷ s

module _ {W D : Type 0} ⦃f : Float W⦄ (py : Python W D) where
  -- `narrate_node`; both `except` clauses, of which the second catches every exception, do the same.
  unfoldable pub narrate_node :
      (AnalysisContext W → RuleDecision W D → List Passage → Result String)
      → AnalysisContext W
      → RuleDecision W D
      → List Passage
      → Narration W
  unfolding read_answer text_or_else
  narrate_node generate ctx decision [] = record {
    justification = decision.justification;
    cited_refs = Json.arr Items.nil;
    missing_normative_refs = true;
  }
  narrate_node generate ctx decision (p ∷ ps) =
      let fallback_refs : Json W = Json.arr (refs_of (take 2 (p ∷ ps))) in
      let answer : Text × Json W =
        elim (generate ctx decision (p ∷ ps) >>= λ raw. read_answer py raw fallback_refs) [
          | ok a ↦ a
          | err _ ↦ (decision.justification, fallback_refs)
        ] in
      record {
        justification = text_or_else answer.0 decision.justification;
        cited_refs = answer.1;
        missing_normative_refs = false;
      }

  -- The result, from the final state of the graph.
  unfoldable pub assemble : RuleDecision W D → List Passage → Narration W → PipelineResult W D
  unfolding or_else
  assemble decision passages narration = record {
    decision = decision;
    justification = narration.justification;
    normative_refs = or_else narration.cited_refs (Json.arr (refs_of (take 3 passages)));
    passages = passages;
    missing_normative_refs = narration.missing_normative_refs;
    agents_involved = "RuleEngine" ∷ "KnowledgeRetrievalAgent" ∷ "TechnicalNarrator" ∷ [];
  }

  -- `run_pipeline`: the rule node and the search may raise.
  unfoldable pub run_pipeline :
      (AnalysisContext W → RuleDecision W D → Result (List Passage))
      → (AnalysisContext W → RuleDecision W D → List Passage → Result String)
      → AnalysisContext W
      → List Rule
      → Result (PipelineResult W D)
  unfolding narrate_node
  run_pipeline search generate ctx rules = do
    decision ← evaluate py rules ctx
    passages ← search ctx decision
    ok (assemble decision passages (narrate_node generate ctx decision passages))
