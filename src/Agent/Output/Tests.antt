-- ===== src/Agent/Output/Tests.antt =====
-- Shaping a list of two items.
use d9c.Base.{◌≡◌, refl, ℕ, ◌<◌, false, true, String, Option, some, List, [], ◌∷◌, Result, ok, err}
use d9c.Base.Int.{pos}
use d9c.Agent.Value.{Value, str, list, object, nil, cons, end, field}
use d9c.Agent.OpResult.{plain_result}
use d9c.Agent.Output.{Shape, apply}
use d9c.Agent.Output.Limits.{IsShaped, apply_lem}

abbrev item : String → Value
item name = object (field "name" (str name) (field "state" (str "running") end))

abbrev listed : Value
listed = list (cons (item "web") (cons (item "db") nil))

abbrev first_name : Shape
first_name = record { fields = "name" ∷ []; limit = pos 1 }

shaped :
    apply [] "" first_name (ok listed) (plain_result listed)
    ≡ some (
        ok (record {
          content = list (cons (object (field "name" (str "web") end)) nil);
          truncated = true;
          hint = "showing the first 1 of 2 items; raise --limit (0 = no limit)";
          partial = false;
        }))
unfolding apply d9c.Agent.Output.is_zero d9c.Agent.Output.split_items d9c.Agent.Output.shape_list
    d9c.Agent.Output.check_fields d9c.Agent.Output.available d9c.Agent.Output.cut_items
    d9c.Agent.Output.add_keys d9c.Agent.Output.project_each d9c.Agent.Output.join_items
    d9c.Agent.Output.join_hints d9c.Agent.Output.from_list d9c.Base.decimal d9c.Agent.Output.project
    d9c.Agent.Output.get_field d9c.Agent.Output.put_field
shaped = refl

apply_lem_example :
    IsShaped [] "" (pos 1) (apply [] "" first_name (ok listed) (plain_result listed))
apply_lem_example = apply_lem [] "" first_name (ok listed) (plain_result listed)
