-- ===== src/Entry/Tests.antt =====
-- Sizes of small arguments.
use caveat.Common.{◌&&◌, leb, ◌≡◌, refl, none, some, [], ◌∷◌, ◌++◌, Text, codes}
use caveat.Entry.{
  Value, string, other, array, object, end, item, none_left, entry, cyclic, counted, count_bytes,
  serialized_arguments_utf8_bytes, assert_entry_arguments, assert_utf8_limit,
}
use caveat.Entry.Serialized.{stringify, counted_text, serialized_arguments_utf8_bytes-stringify}
use caveat.Entry.Graph.{assert_frontmatter_graph, visit_node, cycle, graph_limit, frontmatter_limit}
use caveat.Entry.Bounded.{nodes, text_bytes, is_sound, is_passed, assert_frontmatter_graph_iff}

abbrev quote : Text → Text
quote s = 34 ∷ s ++ 34 ∷ []

-- An array with an object, whose second member has no JSON text, and with a value without one.
abbrev nested : Value
nested = array 1 (
    item
      (object 2 (
        entry (codes "a") (string (codes "é"))
          (entry (codes "b") (other none) (entry (codes "c") (array 3 end) none_left))))
      (item (other none) end))

-- An array that holds itself.
abbrev knot : Value
knot = array 1 (item (string []) (item (array 1 end) end))

sizes : Unit {0}
unfolding serialized_arguments_utf8_bytes count_bytes stringify assert_entry_arguments
sizes = tt

nested_text : stringify quote [] nested ≡ some (codes "[{\"a\":\"é\",\"c\":[]},null]")
unfolding sizes
nested_text = refl

nested_size : serialized_arguments_utf8_bytes quote nested ≡ counted 24
unfolding sizes
nested_size = refl

knot_size : serialized_arguments_utf8_bytes quote knot ≡ cyclic
unfolding sizes
knot_size = refl

nested_passes : assert_entry_arguments quote nested ≡ none
unfolding sizes
nested_passes = refl

serialized_arguments_utf8_bytes-stringify_example :
    serialized_arguments_utf8_bytes quote nested ≡ counted_text (stringify quote [] nested)
serialized_arguments_utf8_bytes-stringify_example =
    serialized_arguments_utf8_bytes-stringify quote nested

graphs : Unit {0}
unfolding assert_frontmatter_graph visit_node
graphs = tt

nested_graph : assert_frontmatter_graph nested ≡ none
unfolding graphs
nested_graph = refl

knot_graph : assert_frontmatter_graph knot ≡ some (cycle 5)
unfolding graphs
knot_graph = refl

long_text : assert_utf8_limit (codes "éa") 2 ≡ some 3
unfolding assert_utf8_limit
long_text = refl

assert_frontmatter_graph_iff_example : is_passed (assert_frontmatter_graph nested) ≡ (
    leb (nodes nested) graph_limit
    && is_sound 0 [] nested
    && leb (text_bytes nested) frontmatter_limit)
assert_frontmatter_graph_iff_example = assert_frontmatter_graph_iff nested
