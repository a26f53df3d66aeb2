-- ===== src/Tests/Retrieval.antt =====
-- The view of a note, where a token is a character.
use autonomic_obsidian_kb.Prelude.{
  ℕ, ◌≤◌, String, ◌≡◌, refl, true, arith, nat_eq, string_eq, list_eq, is_set, strip, starts_with,
  contains, join,
}
use autonomic_obsidian_kb.Tests.Samples.{count, note}
use autonomic_obsidian_kb.Models.Json.{Value, get, show, to_list}
use autonomic_obsidian_kb.Retrieval.View.{
  preconditions, qualification, stripped_field, with_field, layer_text, representation, fits,
  compile_task_view,
}
use autonomic_obsidian_kb.Retrieval.Fitting.{compile_task_view_highest, compile_task_view_bound}

abbrev render : Value → String
render v = ""

view_run :
    compile_task_view ℕ render count note 2 80
    ≡ (1, "Precondition: a clean tree\nRun the build, then the tests.")
unfolding compile_task_view fits representation layer_text qualification preconditions
    stripped_field with_field get show to_list strip join contains starts_with
view_run = refl

has_layer : is_set (layer_text ℕ render count note 1) ≡ true
unfolding layer_text strip
has_layer = refl

small : count (representation ℕ render count note 1) ≤ 80
unfolding representation layer_text qualification preconditions stripped_field with_field get show
    to_list strip join contains starts_with
small = omega arith

compile_task_view_highest_example :
    (1 ≤ (compile_task_view ℕ render count note 2 80).0)
    × ((compile_task_view ℕ render count note 2 80).0 ≤ 2)
    × (is_set (layer_text ℕ render count note (compile_task_view ℕ render count note 2 80).0)
        ≡ true)
    × ((compile_task_view ℕ render count note 2 80).1
        ≡ representation ℕ render count note (compile_task_view ℕ render count note 2 80).0)
    × (count (compile_task_view ℕ render count note 2 80).1 ≤ 80)
compile_task_view_highest_example =
    compile_task_view_highest ℕ render count note 80 2 1 (omega arith) has_layer small

compile_task_view_bound_example : count (compile_task_view ℕ render count note 2 10).1 ≤ 10
compile_task_view_bound_example = compile_task_view_bound ℕ render count note 10 2 refl
