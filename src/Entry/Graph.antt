-- ===== src/Entry/Graph.antt =====
-- `assertFrontmatterGraph` of packages/core/src/entryConstraints.ts.
use caveat.Common.{ℕ, suc, ◌+◌, Option, none, some, List, [], ◌∷◌, if◌then◌else◌, ltb}
use caveat.Entry.{
  Value, string, other, array, object, Values, end, item, Entries, none_left, entry, byte_length,
  has_id,
}

-- `ENTRY_LIMITS`
abbrev pub frontmatter_limit : ℕ
frontmatter_limit = 65536

abbrev pub graph_limit : ℕ
graph_limit = 10000

abbrev pub depth_limit : ℕ
depth_limit = 128

-- The errors, with their measures.
pub data GraphError : Type 0 where
  too_many_nodes too_deep cycle too_many_bytes : ℕ → GraphError

-- What a visit comes to: an error, or the two counters.
pub data Walk : Type 0 where
  refused : GraphError → Walk
  walked : (work scalar_bytes : ℕ) → Walk

abbrev pub go_on : Walk → (ℕ → ℕ → Walk) → Walk
go_on (refused e) k = refused e
go_on (walked work bytes) k = k work bytes

-- The count of one more node or edge.
abbrev pub one_more : ℕ → (ℕ → Walk) → Walk
one_more work k =
    if ltb graph_limit (suc work) then refused (too_many_nodes (suc work)) else k (suc work)

abbrev pub at_depth : ℕ → Walk → Walk
at_depth depth next = if ltb depth_limit depth then refused (too_deep depth) else next

abbrev pub new_id : ℕ → List ℕ → ℕ → Walk → Walk
new_id id above work next = if has_id id above then refused (cycle work) else next

-- The function `visit`; the ancestors are those above the value.
unfoldable mutual
  pub visit_node : ℕ → List ℕ → Value → ℕ → ℕ → Walk
  visit_node depth above (string s) work bytes =
      one_more work (λ w. at_depth depth (walked w (bytes + byte_length s)))
  visit_node depth above (other encoded) work bytes =
      one_more work (λ w. at_depth depth (walked w bytes))
  visit_node depth above (array id vs) work bytes =
      one_more work
        (λ w. at_depth depth (new_id id above w (visit_items (suc depth) (id ∷ above) vs w bytes)))
  visit_node depth above (object id es) work bytes =
      one_more work
        (λ w. at_depth depth (new_id id above w (visit_fields (suc depth) (id ∷ above) es w bytes)))

  pub visit_items : ℕ → List ℕ → Values → ℕ → ℕ → Walk
  visit_items depth above end work bytes = walked work bytes
  visit_items depth above (item v vs) work bytes =
      one_more work (λ w. go_on (visit_node depth above v w bytes) (visit_items depth above vs))

  pub visit_fields : ℕ → List ℕ → Entries → ℕ → ℕ → Walk
  visit_fields depth above none_left work bytes = walked work bytes
  visit_fields depth above (entry k v es) work bytes = one_more work (λ w.
      go_on (visit_node depth above v w (bytes + byte_length k)) (visit_fields depth above es))

abbrev pub within_bytes : Walk → Option GraphError
within_bytes (refused e) = some e
within_bytes (walked work bytes) =
    if ltb frontmatter_limit bytes then some (too_many_bytes bytes) else none

-- `assertFrontmatterGraph`: the error that it throws, if any.
unfoldable pub assert_frontmatter_graph : Value → Option GraphError
unfolding visit_node
assert_frontmatter_graph v = within_bytes (visit_node 0 [] v 0 0)
