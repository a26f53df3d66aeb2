-- ===== src/Retrieval/Plan.antt =====
-- `build_query_plan` of query_plan.py, and `choose_route` of retrieval.py.
use autonomic_obsidian_kb.Prelude.{
  String, Bool, not, ◌&&◌, ◌||◌, List, [], ◌∷◌, ◌++◌, map, if◌then◌else◌, ◌==◌, nat_eq, string_eq,
  list_eq, any, is_in, is_set, strip,
}
use autonomic_obsidian_kb.Prelude.Sets.{sorted_set, take, non_empty}
use autonomic_obsidian_kb.Models.Task.{TaskContext}

pub record QueryPlan : Type 0 where
  pub intent : String
  pub task_types : List String
  pub identifiers : List String
  pub paths : List String
  pub error_signatures : List String
  pub temporal : Bool
  pub subgoals : List String

-- What the regular expressions of query_plan.py and retrieval.py find in a task; `terms` of util.py;
-- str.lower.
pub record TaskReader : Type 0 where
  pub symbols : String → List String
  pub task_paths : String → List String
  pub errors : String → List String
  pub temporal_intent : String → Bool
  pub exactish : String → Bool
  pub terms : String → List String
  pub lower : String → String

module _ (reader : TaskReader) where
  open reader use {symbols, task_paths, errors, temporal_intent, exactish, terms, lower}

  unfoldable pub identifiers_of : String → List String
  unfolding sorted_set take
  identifiers_of task = take 16 (sorted_set (symbols task))

  unfoldable pub paths_of : TaskContext → List String
  unfolding sorted_set take
  paths_of context = take 20 (sorted_set (context.requested_paths ++ task_paths context.task))

  -- The intent, by the types of the task and by what it names.
  unfoldable pub intent_of : List String → (named : Bool) → String
  intent_of types named =
      if is_in "known-failure" types || is_in "solution" types
      then "debug"
      else if is_in "command" types || is_in "workflow" types
      then "procedure"
      else if is_in "architecture" types || is_in "decision" types
      then "explain"
      else if named
      then "locate"
      else "retrieve"

  unfoldable pub subgoals_of : String → List String
  subgoals_of intent =
      if intent == "debug"
      then "failure signature" ∷ "cause" ∷ "validated fix" ∷ "regression check" ∷ []
      else if intent == "procedure"
      then "preconditions" ∷ "command or steps" ∷ "postcondition" ∷ []
      else if intent == "explain"
      then "decision" ∷ "rationale" ∷ "constraints" ∷ []
      else []

  unfoldable pub plan_intent : TaskContext → String
  unfolding identifiers_of paths_of intent_of
  plan_intent context =
      intent_of context.task_types
        (non_empty (paths_of context) || non_empty (identifiers_of context.task))

  unfoldable pub build_query_plan : TaskContext → QueryPlan
  unfolding identifiers_of paths_of plan_intent subgoals_of strip take
  build_query_plan context = record {
    intent = plan_intent context;
    task_types = context.task_types;
    identifiers = identifiers_of context.task;
    paths = paths_of context;
    error_signatures = take 8 (map strip (errors context.task));
    temporal = is_set context.at || temporal_intent context.task;
    subgoals = subgoals_of (plan_intent context);
  }

  unfoldable pub choose_route : TaskContext → String
  unfolding strip build_query_plan
  choose_route context =
      let task = strip context.task in
      if (not (non_empty (terms task)) || is_in (lower task) ("hello" ∷ "hi" ∷ "thanks" ∷ []))
        && not (non_empty context.requested_paths)
      then "none"
      else if (build_query_plan context).temporal
      then "temporal"
      else if exactish task || non_empty context.requested_paths
      then "exact+lexical"
      else if any (λ kind. is_in kind context.task_types)
          ("known-failure" ∷ "solution" ∷ "architecture" ∷ "decision" ∷ [])
      then "hybrid"
      else "lexical"
